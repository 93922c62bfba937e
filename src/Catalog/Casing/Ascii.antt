-- ===== src/Catalog/Casing/Ascii.antt =====
-- The ASCII functions do what is documented of Go's.
use go_bemu.Base.{
  ℕ, ◌≡◌, ◌≢◌, refl, ap, ◌∙◌, inl, inr, true, false, ◌&&◌, [], ◌∷◌, arith, All, Bool-cases,
  and_parts, map, is_empty,
}
use go_bemu.Text.{Bytes}
use go_bemu.Catalog.Casing.{
  IsCasing, ascii, each, is_capital, upper_byte, is_blank, trim_front, trim_back,
}

upper_byte_twice : (b : ℕ) → upper_byte (upper_byte b) ≡ upper_byte b
upper_byte_twice b = ground arith

upper_byte_capital : (b : ℕ) → is_capital b ≡ true → upper_byte b ≡ b
upper_byte_capital b h = ground arith

upper_byte_zero : (b : ℕ) → b ≢ 0 → upper_byte b ≢ 0
upper_byte_zero b h = ground arith

upper_twice : (s : Bytes) → map upper_byte (map upper_byte s) ≡ map upper_byte s
upper_twice [] = refl
upper_twice (b ∷ s) = rw (upper_byte_twice b, upper_twice s) refl

upper_nonempty : (s : Bytes) → is_empty s ≡ false → is_empty (map upper_byte s) ≡ false
upper_nonempty [] h = cc
upper_nonempty (b ∷ s) h = refl

upper_capitals : (s : Bytes) → each is_capital s ≡ true → map upper_byte s ≡ s
upper_capitals [] h = refl
upper_capitals (b ∷ s) h =
    let (a, r) = and_parts (is_capital b) (each is_capital s) h in
    rw (upper_byte_capital b a, upper_capitals s r) refl

upper_zero : (s : Bytes) → All (λ b. b ≢ 0) s → All (λ b. b ≢ 0) (map upper_byte s)
upper_zero [] h = tt
upper_zero (b ∷ s) (h, hs) = (upper_byte_zero b h, upper_zero s hs)

back_twice : (s : Bytes) → trim_back (trim_back s) ≡ trim_back s
back_twice [] = refl
back_twice (b ∷ s) = elim (Bool-cases (is_blank b && is_empty (trim_back s))) [
  | inl e ↦ rw e refl
  | inr e ↦ rw e (rw (back_twice s, e) refl)
]

-- Trimming the back of a text that starts with no blank leaves such a text.
front-back : (s : Bytes) → trim_front (trim_back (trim_front s)) ≡ trim_back (trim_front s)
front-back [] = refl
front-back (b ∷ s) = elim (Bool-cases (is_blank b)) [
  | inl e ↦ rw e (front-back s)
  | inr e ↦ rw e (rw e (rw e refl))
]

pub ascii-IsCasing : IsCasing ascii
ascii-IsCasing = record {
  upper_upper = upper_twice;
  upper_nonempty = upper_nonempty;
  upper_capitals = upper_capitals;
  upper_zero = upper_zero;
  trim_trim = λ s. ap trim_back (front-back s) ∙ back_twice (trim_front s);
}
