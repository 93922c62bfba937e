-- ===== src/Maps.antt =====
-- Go maps as association lists without repeated keys: lookup, assignment and delete.
use go_bemu.Base.{
  ◌≡◌, ◌≢◌, refl, subst, inl, inr, All, Bool-cases, Option, none, some, List, [], ◌∷◌, arith,
  if◌then◌else◌,
}
use go_bemu.Text.{Bytes, text_eq, text_eq_iff, text_eq_refl}

abbrev pub Map {ℓ} : Type ℓ → Type ℓ
Map V = List (Bytes × V)

module _ {ℓ} {V : Type ℓ} where
  unfoldable pub lookup : Bytes → Map V → Option V
  lookup k [] = none
  lookup k ((j, v) ∷ m) = if text_eq j k then some v else lookup k m

  -- m[k] = v
  unfoldable pub put : Bytes → V → Map V → Map V
  put k v [] = (k, v) ∷ []
  put k v ((j, w) ∷ m) = if text_eq j k then (k, v) ∷ m else (j, w) ∷ put k v m

  -- delete(m, k)
  unfoldable pub remove : Bytes → Map V → Map V
  remove k [] = []
  remove k ((j, w) ∷ m) = let rest = remove k m in if text_eq j k then rest else (j, w) ∷ rest

  pub lookup-put :
      (k j : Bytes) (v : V) (m : Map V)
      → lookup j (put k v m) ≡ (if text_eq k j then some v else lookup j m)
  unfolding lookup put
  lookup-put k j v [] = refl
  lookup-put k j v ((i, w) ∷ m) =
      ground (arith, text_eq_iff k j, text_eq_iff i k, text_eq_iff i j, lookup-put k j v m)

  pub lookup-put_self : (k : Bytes) (v : V) (m : Map V) → lookup k (put k v m) ≡ some v
  lookup-put_self k v m = simp (lookup-put, text_eq_refl)

  pub lookup-remove :
      (k j : Bytes) (m : Map V) → lookup j (remove k m) ≡ (if text_eq k j then none else lookup j m)
  unfolding lookup remove
  lookup-remove k j [] = ground arith
  lookup-remove k j ((i, w) ∷ m) =
      ground (arith, text_eq_iff k j, text_eq_iff i k, text_eq_iff i j, lookup-remove k j m)

abbrev pub IsUnique {ℓ} : {V : Type ℓ} → Map V → Type ℓ
IsUnique [] = Unit
IsUnique ((k, v) ∷ m) = (lookup k m ≡ none) × IsUnique m

module _ {ℓ} {V : Type ℓ} where
  pub put-IsUnique : (k : Bytes) (v : V) (m : Map V) → IsUnique m → IsUnique (put k v m)
  unfolding put lookup
  put-IsUnique k v [] u = (refl, tt)
  put-IsUnique k v ((j, w) ∷ m) (h, u) = elim (Bool-cases (text_eq j k)) [
    | inl e ↦ rw e (subst (λ x. lookup x m ≡ none) ((text_eq_iff j k).0 e) h, u)
    | inr e ↦
        rw e (
          ground (arith, lookup-put k j v m, text_eq_iff k j, text_eq_iff j k),
          put-IsUnique k v m u,
        )
  ]

  pub All-put :
      (P : Bytes × V → Type 0) (k : Bytes) (v : V) (m : Map V)
      → P (k, v)
      → All P m
      → All P (put k v m)
  unfolding put
  All-put P k v [] p h = (p, tt)
  All-put P k v ((j, w) ∷ m) p (q, h) = elim (Bool-cases (text_eq j k)) [
    | inl e ↦ rw e (p, h)
    | inr e ↦ rw e (q, All-put P k v m p h)
  ]

  -- A key that is not there differs from all that are.
  pub lookup-none : (k : Bytes) (m : Map V) → lookup k m ≡ none → All (λ e. k ≢ e.0) m
  unfolding lookup
  lookup-none k [] h = tt
  lookup-none k ((j, w) ∷ m) h = elim (Bool-cases (text_eq j k)) [
    | inl e ↦ absurd (ground (arith, e))
    | inr e ↦ ((λ d. ground (arith, text_eq_iff j k)), lookup-none k m (ground (arith, e)))
  ]
