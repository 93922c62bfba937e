-- ===== src/LoadJob/Sources/Order.antt =====
-- Sorting objects by URI keeps them and puts them in order.
use go_bemu.Base.{
  ℕ, ◌+◌, ◌≡◌, ◌≢◌, refl, sym, inl, inr, true, List, [], ◌∷◌, arith, All, Bool-cases, length,
}
use go_bemu.Text.{text_lt, text_lt_total, text_lt_trans}
use go_bemu.LoadJob.Sources.{ObjectInfo, insert_object, sort_objects}

abbrev pub total_size : List ObjectInfo → ℕ
total_size [] = 0
total_size (o ∷ os) = o.size + total_size os

-- In the order of URIs, each once.
abbrev pub AreSorted : List ObjectInfo → Type 0
AreSorted [] = Unit
AreSorted (o ∷ os) = All (λ p. text_lt o.uri p.uri ≡ true) os × AreSorted os

pub All-insert_object :
    (P : ObjectInfo → Type 0) (o : ObjectInfo) (ps : List ObjectInfo)
    → P o
    → All P ps
    → All P (insert_object o ps)
unfolding insert_object
All-insert_object P o [] h hs = (h, tt)
All-insert_object P o (p ∷ ps) h (k, ks) = elim (Bool-cases (text_lt p.uri o.uri)) [
  | inl e ↦ rw e (k, All-insert_object P o ps h ks)
  | inr e ↦ rw e (h, (k, ks))
]

pub All-sort_objects :
    (P : ObjectInfo → Type 0) (os : List ObjectInfo) → All P os → All P (sort_objects os)
unfolding sort_objects
All-sort_objects P [] h = tt
All-sort_objects P (o ∷ os) (h, hs) =
    All-insert_object P o (sort_objects os) h (All-sort_objects P os hs)

above :
    (o p : ObjectInfo) (ps : List ObjectInfo)
    → text_lt o.uri p.uri ≡ true
    → All (λ q. text_lt p.uri q.uri ≡ true) ps
    → All (λ q. text_lt o.uri q.uri ≡ true) ps
above o p [] h hs = tt
above o p (q ∷ ps) h (k, hs) = (text_lt_trans o.uri p.uri q.uri h k, above o p ps h hs)

insert_object-AreSorted :
    (o : ObjectInfo) (ps : List ObjectInfo)
    → All (λ p. o.uri ≢ p.uri) ps
    → AreSorted ps
    → AreSorted (insert_object o ps)
unfolding insert_object
insert_object-AreSorted o [] n s = (tt, tt)
insert_object-AreSorted o (p ∷ ps) (n, ns) (a, s) = elim (Bool-cases (text_lt p.uri o.uri)) [
  | inl e ↦ rw e (
    All-insert_object (λ q. text_lt p.uri q.uri ≡ true) o ps e a,
    insert_object-AreSorted o ps ns s,
  )
  | inr e ↦
      let before = text_lt_total p.uri o.uri e (λ d. n (sym d)) in
      rw e ((before, above o p ps before a), (a, s))
]

insert_object-measures :
    (o : ObjectInfo) (ps : List ObjectInfo)
    → (total_size (insert_object o ps) ≡ o.size + total_size ps)
      × (length (insert_object o ps) ≡ length ps + 1)
unfolding insert_object
insert_object-measures o [] = (omega arith, omega arith)
insert_object-measures o (p ∷ ps) = ground (arith, insert_object-measures o ps)

pub sort_objects-measures :
    (os : List ObjectInfo)
    → (total_size (sort_objects os) ≡ total_size os) × (length (sort_objects os) ≡ length os)
unfolding sort_objects
sort_objects-measures [] = (refl, refl)
sort_objects-measures (o ∷ os) =
    let (a, b) = sort_objects-measures os in
    let (c, d) = insert_object-measures o (sort_objects os) in
    (omega (arith, a, c), omega (arith, b, d))

-- Objects of which no two have one URI.
abbrev pub AreApart : List ObjectInfo → Type 0
AreApart [] = Unit
AreApart (o ∷ os) = All (λ p. o.uri ≢ p.uri) os × AreApart os

pub sort_objects-AreSorted : (os : List ObjectInfo) → AreApart os → AreSorted (sort_objects os)
unfolding sort_objects
sort_objects-AreSorted [] h = tt
sort_objects-AreSorted (o ∷ os) (h, hs) =
    insert_object-AreSorted o (sort_objects os) (All-sort_objects (λ p. o.uri ≢ p.uri) os h)
      (sort_objects-AreSorted os hs)
