-- ===== src/LoadJob/Sources/Bounds.antt =====
-- The objects that resolveObjects returns are in order and within the limits.
use go_bemu.Base.{
  ℕ, ◌+◌, ◌-◌, ◌≤◌, ◌<◌, ◌≡◌, ◌≢◌, refl, sym, ap, ◌∙◌, subst, Bool, true, false, List, [], ◌∷◌,
  arith, All, length, ltb, not-ltb→le, is_empty, if◌then◌else◌,
}
use go_bemu.Words.{word64, half64, add64, sub64, lt64, lt64_small, add64_small, sub64_small}
use go_bemu.Text.{Bytes}
use go_bemu.Maps.{lookup, put, IsUnique, put-IsUnique, All-put, lookup-none}
use go_bemu.Exec.{Result, ok, err}
use go_bemu.LoadJob.Domain.{LoadError}
use go_bemu.LoadJob.Sources.Order.{
  total_size, AreSorted, AreApart, All-sort_objects, sort_objects-measures, sort_objects-AreSorted,
}
use go_bemu.LoadJob.Sources.{
  ObjectInfo, Limits, ObjectStore, Objects, clashes, add_match, add_matches, proceed, some_matches,
  sum_objects, sort_objects, collect_objects, find_matches, next_patterns, resolve_patterns,
  resolve_objects,
}

pub record AreResolved (l : Limits) (os : List ObjectInfo) : Type 0 where
  pub sorted : AreSorted os
  pub each : All (λ o. o.size ≤ l.max_object_bytes) os
  pub total : total_size os ≤ l.max_total_bytes
  pub count : length os ≤ l.max_objects

-- The objects seen so far: each once under its URI, and in its bounds.
abbrev IsFit : Limits → Bytes × ObjectInfo → Type 0
IsFit l (k, o) = (k ≡ o.uri) × (o.size ≤ l.max_object_bytes)

record AreSeen (l : Limits) (m : Objects) : Type 0 where
  fit : All (IsFit l) m
  unique : IsUnique m
  few : length m ≤ l.max_objects

-- The limits are non-negative int64 values.
pub record IsLimited (l : Limits) : Type 0 where
  pub share : l.max_object_bytes < half64
  pub budget : l.max_total_bytes < half64

size_fits :
    (size limit : ℕ)
    → size < word64
    → limit < half64
    → lt64 size 0 ≡ false
    → lt64 limit size ≡ false
    → size ≤ limit
unfolding lt64
size_fits size limit hs hl a b = ground arith

-- One more object that passes the tests.
guard_off :
    {A : Type 0} (b : Bool) (e : LoadError) {r : Result LoadError A} {a : A}
    → (if b then err e else r) ≡ ok a
    → (b ≡ false) × (r ≡ ok a)
guard_off true e h = cc
guard_off false e h = (refl, h)

else_part :
    {A W : Type 0} (b : Bool) (e : LoadError) (w : W) (r : Result LoadError A × W) {a : A}
    → (if b then (err e, w) else r).0 ≡ ok a
    → r.0 ≡ ok a
else_part true e w r h = cc
else_part false e w r h = h

pub ok_same : {A : Type 0} {a b : A} → ◌≡◌ {A = Result LoadError A} (ok a) (ok b) → a ≡ b
ok_same h = cc

abbrev values : Objects → List ObjectInfo
values [] = []
values ((k, o) ∷ m) = o ∷ values m

length-values : (m : Objects) → length (values m) ≡ length m
length-values [] = refl
length-values ((k, o) ∷ m) = omega (arith, length-values m)

values_fit :
    (l : Limits) (m : Objects) → All (IsFit l) m → All (λ o. o.size ≤ l.max_object_bytes) (values m)
values_fit l [] h = tt
values_fit l ((k, o) ∷ m) ((_, f), h) = (f, values_fit l m h)

-- A key that differs from all keys differs from all URIs.
values_apart :
    (l : Limits) (k : Bytes) (m : Objects)
    → All (IsFit l) m
    → All (λ e. k ≢ e.0) m
    → All (λ o. k ≢ o.uri) (values m)
values_apart l k [] f h = tt
values_apart l k ((j, o) ∷ m) ((e, _), f) (n, h) = ((λ d. n (d ∙ sym e)), values_apart l k m f h)

values-AreApart : (l : Limits) (m : Objects) → All (IsFit l) m → IsUnique m → AreApart (values m)
values-AreApart l [] f u = tt
values-AreApart l ((k, o) ∷ m) ((e, _), f) (n, u) = (
  subst (λ x. All (λ p. x ≢ p.uri) (values m)) e (values_apart l k m f (lookup-none k m n)),
  values-AreApart l m f u,
)

-- Sizes are 64-bit words.
abbrev pub AreWords : List ObjectInfo → Type 0
AreWords os = All (λ o. o.size < word64) os

module _ (l : Limits) (lim : IsLimited l) where
  add_match-AreSeen :
      (o : ObjectInfo) (m : Objects) {m' : Objects}
      → o.size < word64
      → AreSeen l m
      → add_match l o m ≡ ok m'
      → AreSeen l m'
  unfolding add_match
  add_match-AreSeen o m t s h =
      let (a, h) = guard_off (lt64 o.size 0) _ h in
      let (b, h) = guard_off (lt64 l.max_object_bytes o.size) _ h in
      let (_, h) = guard_off (clashes o (lookup o.uri m)) _ h in
      let (c, h) = guard_off (ltb l.max_objects (length (put o.uri o m))) _ h in
      subst (AreSeen l) (ok_same h) (record {
        fit =
            All-put (IsFit l) o.uri o m (refl, size_fits o.size l.max_object_bytes t lim.share a b)
              s.fit;
        unique = put-IsUnique o.uri o m s.unique;
        few = not-ltb→le _ _ c;
      })

  proceed_ok :
      {A B : Type 0} (r : Result LoadError A) (f : A → Result LoadError B) {b : B}
      → proceed r f ≡ ok b
      → (a : A) × (r ≡ ok a) × (f a ≡ ok b)
  proceed_ok (ok a) f h = (a, refl, h)
  proceed_ok (err e) f h = cc

  add_matches-AreSeen :
      (os : List ObjectInfo) (m : Objects) {m' : Objects}
      → AreWords os
      → AreSeen l m
      → add_matches l os m ≡ ok m'
      → AreSeen l m'
  unfolding add_matches
  add_matches-AreSeen [] m t s h = subst (AreSeen l) (ok_same h) s
  add_matches-AreSeen (o ∷ os) m (t, ts) s h =
      let (m1, e, h) = proceed_ok (add_match l o m) (add_matches l os) h in
      add_matches-AreSeen os m1 ts (add_match-AreSeen o m t s e) h

  -- The second loop returns the objects of the map, within the budget.
  sum_ok :
      (total : ℕ) (m : Objects) {os : List ObjectInfo}
      → total ≤ l.max_total_bytes
      → All (IsFit l) m
      → sum_objects l total m ≡ ok os
      → (total + total_size (values m) ≤ l.max_total_bytes) × (os ≡ values m)
  unfolding sum_objects
  sum_ok total [] h f e = (omega arith, sym (ok_same e))
  sum_ok total ((k, o) ∷ m) h ((ko, f), fs) e =
      let (a, e) = guard_off (lt64 (sub64 l.max_total_bytes total) o.size) _ e in
      let (os, d, e) = proceed_ok (sum_objects l (add64 total o.size) m) _ e in
      let d0 =
        sub64_small l.max_total_bytes total (omega (arith, lim.budget)) (omega (arith, lim.budget))
          (omega arith) in
      let d1 =
        lt64_small (l.max_total_bytes - total) o.size (omega (arith, lim.budget))
          (omega (arith, f, lim.share)) in
      let room : o.size ≤ l.max_total_bytes - total =
        not-ltb→le _ _ (sym d1 ∙ subst (λ x. lt64 x o.size ≡ false) d0 a) in
      let d2 = add64_small total o.size (omega (arith, room, lim.budget)) in
      let (b, c) = sum_ok (add64 total o.size) m (omega (arith, d2, room)) fs d in
      (omega (arith, b, d2), sym (ok_same e) ∙ ap (λ x. o ∷ x) c)

  collect_objects-AreResolved :
      (m : Objects) {os : List ObjectInfo}
      → AreSeen l m
      → collect_objects l m ≡ ok os
      → AreResolved l os
  unfolding collect_objects
  collect_objects-AreResolved m s e =
      let (os, d, e) = proceed_ok (sum_objects l 0 m) _ e in
      let (b, c) = sum_ok 0 m (omega arith) s.fit d in
      let (t, n) = sort_objects-measures (values m) in
      subst (AreResolved l) (ap sort_objects (sym c) ∙ ok_same e) (record {
        sorted = sort_objects-AreSorted (values m) (values-AreApart l m s.fit s.unique);
        each =
            All-sort_objects (λ o. o.size ≤ l.max_object_bytes) (values m) (values_fit l m s.fit);
        total = omega (arith, t, b);
        count = omega (arith, n, length-values m, s.few);
      })

  module _ {W : Type 0} (store : ObjectStore W)
      (typed : (p : Bytes) (w : W) (os : List ObjectInfo)
        → (find_matches store l p w).0 ≡ ok os
        → AreWords os) where
    next-AreSeen :
        (r : Result LoadError Objects) (w : W) (f : Objects → W → Result LoadError Objects × W)
        {m' : Objects}
        → ((m1 : Objects) → r ≡ ok m1 → (f m1 w).0 ≡ ok m' → AreSeen l m')
        → (next_patterns store l r w f).0 ≡ ok m'
        → AreSeen l m'
    next-AreSeen (ok m1) w f k h = k m1 refl h
    next-AreSeen (err e) w f k h = cc

    resolve_patterns-AreSeen :
        (ps : List Bytes) (m : Objects) (w : W) {m' : Objects}
        → AreSeen l m
        → (resolve_patterns store l ps m w).0 ≡ ok m'
        → AreSeen l m'
    unfolding resolve_patterns
    resolve_patterns-AreSeen [] m w s h = subst (AreSeen l) (ok_same h) s
    resolve_patterns-AreSeen (p ∷ ps) m w s h =
        let (r, w') = find_matches store l p w in
        next-AreSeen (proceed r (some_matches l m)) w' (resolve_patterns store l ps)
          (λ m1 e h.
            let (os, d, e) = proceed_ok r (some_matches l m) e in
            let (_, e) = guard_off (is_empty os) _ e in
            resolve_patterns-AreSeen ps m1 w' (add_matches-AreSeen os m (typed p w os d) s e) h)
          h

    -- If the sizes that the store reports are machine words and the byte limits are non-negative int64
    -- values, then the objects that resolveObjects returns are in the order of their URIs, each URI
    -- once; no object, not their number and not their total size exceeds its limit.
    pub resolve_objects-AreResolved :
        (ps : List Bytes) (w : W) {os : List ObjectInfo}
        → (resolve_objects store l ps w).0 ≡ ok os
        → AreResolved l os
    unfolding resolve_objects
    resolve_objects-AreResolved ps w h =
        let (r, w') = resolve_patterns store l ps [] w in
        let h =
          else_part (ltb l.max_objects (length ps)) _ w (proceed r (collect_objects l), w') h in
        let (m, e, h) = proceed_ok r (collect_objects l) h in
        collect_objects-AreResolved m
          (resolve_patterns-AreSeen ps [] w (record { fit = tt; unique = tt; few = omega arith }) e)
          h
