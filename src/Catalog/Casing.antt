-- ===== src/Catalog/Casing.antt =====
-- The functions of Go's `strings` package that read Unicode, as a parameter: ToUpper, ToLower,
-- EqualFold and TrimSpace.
pub mod Ascii
use go_bemu.Base.{
  ℕ, ◌≡◌, ◌≢◌, All, true, false, ◌+◌, ◌-◌, Bool, ◌&&◌, ◌||◌, [], ◌∷◌, leb, nat_eq, is_empty, map,
  if◌then◌else◌,
}
use go_bemu.Text.{Bytes, text_eq}

pub record Casing : Type 0 where
  pub upper : Bytes → Bytes
  pub lower : Bytes → Bytes
  pub equal_fold : Bytes → Bytes → Bool
  pub trim : Bytes → Bytes

abbrev pub upper_byte : ℕ → ℕ
upper_byte c = if leb b'a' c && leb c b'z' then c - 32 else c

abbrev lower_byte : ℕ → ℕ
lower_byte c = if leb b'A' c && leb c b'Z' then c + 32 else c

abbrev pub is_capital : ℕ → Bool
is_capital c = leb b'A' c && leb c b'Z' || nat_eq c b'_'

abbrev pub each : (ℕ → Bool) → Bytes → Bool
each p [] = true
each p (c ∷ s) = p c && each p s

-- What Go documents of them: ToUpper maps each character to its upper case, which is its own upper
-- case, keeps capitals, and drops or makes up no byte 0; TrimSpace drops the space at both ends.
pub record IsCasing (c : Casing) : Type 0 where
  pub upper_upper : (s : Bytes) → c.upper (c.upper s) ≡ c.upper s
  pub upper_nonempty : (s : Bytes) → is_empty s ≡ false → is_empty (c.upper s) ≡ false
  pub upper_capitals : (s : Bytes) → each is_capital s ≡ true → c.upper s ≡ s
  pub upper_zero : (s : Bytes) → All (λ b. b ≢ 0) s → All (λ b. b ≢ 0) (c.upper s)
  pub trim_trim : (s : Bytes) → c.trim (c.trim s) ≡ c.trim s

abbrev pub is_blank : ℕ → Bool
is_blank c = leb 9 c && leb c 13 || nat_eq c b' '

abbrev pub trim_front : Bytes → Bytes
trim_front [] = []
trim_front (c ∷ s) = let rest = trim_front s in if is_blank c then rest else c ∷ s

-- A blank stays where something follows it.
abbrev pub trim_back : Bytes → Bytes
trim_back [] = []
trim_back (c ∷ s) = let rest = trim_back s in if is_blank c && is_empty rest then [] else c ∷ rest

-- What they do on ASCII texts.
abbrev pub ascii : Casing
ascii = record {
  upper = map upper_byte;
  lower = map lower_byte;
  equal_fold = λ s t. text_eq (map lower_byte s) (map lower_byte t);
  trim = λ s. trim_back (trim_front s);
}
