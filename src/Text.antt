-- ===== src/Text.antt =====
-- Resource names as byte lists, and the functions of Go's `strings` package that the code applies
-- to them: Split and Join at '/', HasSuffix, TrimSuffix.
use Prim.Native.Char.{code}
use mathlib.Core.List.{append_assoc}
use go_bemu.Base.{
  ℕ, String, ◌≡◌, refl, sym, ap, ap₂, subst, ◌∙◌, ◌≢◌, ◌↔◌, inl, inr, Bool, true, false, ◌&&◌, ◌||◌,
  Option, none, some, List, [], ◌∷◌, ◌++◌, arith, ltb, nat_eq, nat_eq_iff, if◌then◌else◌, All,
  length, length-append, Bool-cases, Option-cases,
}

abbrev pub Bytes : Type 0
Bytes = List ℕ

-- The bytes of an ASCII literal.
abbrev pub codes : String → Bytes
codes String.[] = []
codes (String.◌∷◌ c s) = code c ∷ codes s

unfoldable pub text_eq : Bytes → Bytes → Bool
text_eq [] [] = true
text_eq (a ∷ s) (b ∷ t) = nat_eq a b && text_eq s t
text_eq _ _ = false

pub text_eq→eq : (s t : Bytes) → text_eq s t ≡ true → s ≡ t
unfolding text_eq
text_eq→eq [] [] h = refl
text_eq→eq [] (b ∷ t) h = ground arith
text_eq→eq (a ∷ s) [] h = ground arith
text_eq→eq (a ∷ s) (b ∷ t) h = ground (arith, text_eq→eq s t)

pub text_eq_refl : (s : Bytes) → text_eq s s ≡ true
unfolding text_eq
text_eq_refl [] = refl
text_eq_refl (a ∷ s) = ground (arith, text_eq_refl s)

pub text_eq_iff : (s t : Bytes) → (text_eq s t ≡ true) ↔ (s ≡ t)
text_eq_iff s t = (text_eq→eq s t, λ e. subst (λ x. text_eq s x ≡ true) e (text_eq_refl s))

abbrev pub slash : ℕ
slash = b'/'

abbrev pub Lacks : Bytes → Type 0
Lacks = All (λ c. c ≢ slash)

-- The first byte joins the first part.
abbrev push : ℕ → List Bytes → List Bytes
push c [] = (c ∷ []) ∷ []
push c (p ∷ ps) = (c ∷ p) ∷ ps

-- strings.Split(s, "/")
unfoldable pub split : Bytes → List Bytes
split [] = [] ∷ []
split (c ∷ s) = let rest = split s in if nat_eq c slash then [] ∷ rest else push c rest

-- strings.Join(parts, "/")
unfoldable pub join : List Bytes → Bytes
join [] = []
join (p ∷ []) = p
join (p ∷ q ∷ ps) = p ++ slash ∷ join (q ∷ ps)

push-append : (c : ℕ) (s : Bytes) (ps : List Bytes) → join (push c (s ∷ ps)) ≡ c ∷ join (s ∷ ps)
unfolding join
push-append c s [] = refl
push-append c s (p ∷ ps) = refl

-- What Split returns is not empty.
split_cons : (s : Bytes) → (p : Bytes) × (ps : List Bytes) × (split s ≡ p ∷ ps)
unfolding split
split_cons [] = ([], [], refl)
split_cons (c ∷ s) =
    let (p, ps, e) = split_cons s in
    elim (Bool-cases (nat_eq c slash)) [
      | inl h ↦ ([], p ∷ ps, rw (h, e))
      | inr h ↦ (c ∷ p, ps, rw (h, e))
    ]

pub join-split : (s : Bytes) → join (split s) ≡ s
unfolding split join
join-split [] = refl
join-split (c ∷ s) =
    let (p, ps, e) = split_cons s in
    ground (arith, join-split s, e, push-append c p ps, nat_eq_iff c slash)

pub split_whole : (p : Bytes) → Lacks p → split p ≡ p ∷ []
unfolding split
split_whole [] h = refl
split_whole (c ∷ p) h = ground (arith, split_whole p h.1, nat_eq_iff c slash)

pub split_part : (p s : Bytes) → Lacks p → split (p ++ slash ∷ s) ≡ p ∷ split s
unfolding split
split_part [] s h = refl
split_part (c ∷ p) s h = ground (arith, split_part p s h.1, nat_eq_iff c slash)

pub split-append : (p s : Bytes) → split (p ++ slash ∷ s) ≡ split p ++ split s
unfolding split
split-append [] s = refl
split-append (c ∷ p) s =
    let (q, qs, e) = split_cons p in
    elim (Bool-cases (nat_eq c slash)) [
      | inl h ↦ rw (h, split-append p s) refl
      | inr h ↦ rw (h, split-append p s, e) refl
    ]

pub join_last :
    (p : Bytes) (ps : List Bytes) (q : Bytes)
    → join (p ∷ (ps ++ q ∷ [])) ≡ join (p ∷ ps) ++ slash ∷ q
unfolding join
join_last p [] q = refl
join_last p (r ∷ ps) q =
    ap (λ x. p ++ slash ∷ x) (join_last r ps q)
    ∙ sym (append_assoc p (slash ∷ join (r ∷ ps)) (slash ∷ q))

-- One part in front of a text that is split already.
pub split_then :
    (p s : Bytes) {ps : List Bytes} → Lacks p → split s ≡ ps → split (p ++ slash ∷ s) ≡ p ∷ ps
split_then p s h e = split_part p s h ∙ ap (λ x. p ∷ x) e

-- Every part that Split returns is free of the separator.
pub split-Lacks : (s : Bytes) → All Lacks (split s)
unfolding split
split-Lacks [] = omega arith
split-Lacks (c ∷ s) =
    let (p, ps, e) = split_cons s in
    let ih = subst (All Lacks) e (split-Lacks s) in
    elim (Bool-cases (nat_eq c slash)) [
      | inl h ↦ rw (h, e) (tt, ih)
      | inr h ↦ rw (h, e) ((ground (arith, nat_eq_iff c slash), ih.0), ih.1)
    ]

-- strings.CutSuffix: `none` where the text does not end in the suffix.
unfoldable pub cut_suffix : Bytes → Bytes → Option Bytes
cut_suffix suf [] = if text_eq [] suf then some [] else none
cut_suffix suf (c ∷ s) =
    let rest = cut_suffix suf s in
    if text_eq (c ∷ s) suf then some [] else elim rest [ none ↦ none | some p ↦ some (c ∷ p) ]

unfoldable pub trim_suffix : Bytes → Bytes → Bytes
trim_suffix s suf = elim (cut_suffix suf s) [ none ↦ s | some p ↦ p ]

pub trim_suffix-none : (s suf : Bytes) → cut_suffix suf s ≡ none → trim_suffix s suf ≡ s
unfolding trim_suffix
trim_suffix-none s suf h = rw (h, trim_suffix)

longer : (c : ℕ) (p suf : Bytes) → text_eq (c ∷ p ++ suf) suf ≡ false
longer c p suf = elim (Bool-cases (text_eq (c ∷ p ++ suf) suf)) [
  | inl h ↦ absurd (omega (arith, ap length (text_eq→eq (c ∷ p ++ suf) suf h), length-append p suf))
  | inr h ↦ h
]

pub cut_suffix-append : (p suf : Bytes) → cut_suffix suf (p ++ suf) ≡ some p
unfolding cut_suffix text_eq
cut_suffix-append [] [] = refl
cut_suffix-append [] (c ∷ s) = rw text_eq_refl
cut_suffix-append (c ∷ p) suf = rw (longer c p suf, cut_suffix-append p suf)

pub trim_suffix-append : (p suf : Bytes) → trim_suffix (p ++ suf) suf ≡ p
unfolding trim_suffix
trim_suffix-append p suf = rw (cut_suffix-append, trim_suffix)

pub cut_suffix-eq_append : (suf s p : Bytes) → cut_suffix suf s ≡ some p → s ≡ p ++ suf
unfolding cut_suffix
cut_suffix-eq_append suf [] p h = ground (arith, text_eq→eq [] suf)
cut_suffix-eq_append suf (c ∷ s) p h = elim (Option-cases (cut_suffix suf s)) [
  | inl e ↦ ground (arith, text_eq→eq (c ∷ s) suf, e)
  | inr (p', e) ↦ ground (arith, text_eq→eq (c ∷ s) suf, cut_suffix-eq_append suf s p' e)
]

-- Go's `<` on strings.
unfoldable pub text_lt : Bytes → Bytes → Bool
text_lt [] [] = false
text_lt [] (b ∷ t) = true
text_lt (a ∷ s) [] = false
text_lt (a ∷ s) (b ∷ t) = ltb a b || (nat_eq a b && text_lt s t)

-- It is a strict order in which any two texts are comparable.
pub text_lt_total : (s t : Bytes) → text_lt s t ≡ false → s ≢ t → text_lt t s ≡ true
unfolding text_lt
text_lt_total [] [] h n = absurd (n refl)
text_lt_total [] (b ∷ t) h n = ground arith
text_lt_total (a ∷ s) [] h n = refl
text_lt_total (a ∷ s) (b ∷ t) h n = elim (Bool-cases (nat_eq a b)) [
  | inl e ↦
      let same : a ≡ b = (nat_eq_iff a b).0 e in
      let rest = text_lt_total s t in
      ground (arith, rest (ground arith) (λ x. n (ap₂ (λ c u. c ∷ u) same x)))
  | inr e ↦ ground arith
]

pub text_lt_trans : (s t u : Bytes) → text_lt s t ≡ true → text_lt t u ≡ true → text_lt s u ≡ true
unfolding text_lt
text_lt_trans [] [] u h k = ground arith
text_lt_trans [] (b ∷ t) [] h k = ground arith
text_lt_trans [] (b ∷ t) (c ∷ u) h k = refl
text_lt_trans (a ∷ s) [] u h k = ground arith
text_lt_trans (a ∷ s) (b ∷ t) [] h k = ground arith
text_lt_trans (a ∷ s) (b ∷ t) (c ∷ u) h k = ground (arith, text_lt_trans s t u)
