-- ===== src/LoadJob/Sources.antt =====
-- The sources of a load job (internal/loadjob/application/service.go): resolveObjects, with the object
-- store as functions on the state W of the world.
pub mod Order
pub mod Bounds
use go_bemu.Base.{
  ℕ, ◌+◌, Bool, true, false, not, ◌&&◌, ◌||◌, Option, none, some, List, [], ◌∷◌, nat_eq, ltb,
  length, is_empty, if◌then◌else◌,
}
use go_bemu.Words.{add64, sub64, lt64}
use go_bemu.Text.{Bytes, codes, text_eq, text_lt}
use go_bemu.Maps.{Map, lookup, put}
use go_bemu.Exec.{Result, ok, err, Exec}
use go_bemu.LoadJob.Domain.{LoadError, LoadFault, invalid, precondition, refuse}

pub record ObjectInfo : Type 0 where
  pub uri : Bytes
  pub generation : Bytes
  pub etag : Bytes
  pub size : ℕ

-- Of the service's configuration; the number of objects is positive there, as a length is.
pub record Limits : Type 0 where
  pub max_objects : ℕ
  pub max_object_bytes : ℕ
  pub max_total_bytes : ℕ

pub record ObjectStore (W : Type 0) : Type 0 where
  pub list : Bytes → W → Result LoadError (List ObjectInfo) × W
  pub get : Bytes → W → Result LoadError ObjectInfo × W

-- objectIdentityChanged
abbrev pub differ : Bytes → Bytes → Bool
differ s t = not (is_empty s) && not (is_empty t) && not (text_eq s t)

unfoldable pub object_identity_changed : ObjectInfo → ObjectInfo → Bool
object_identity_changed left right =
    differ left.generation right.generation || differ left.etag right.etag

abbrev pub Objects : Type 0
Objects = Map ObjectInfo

abbrev pub clashes : ObjectInfo → Option ObjectInfo → Bool
clashes object none = false
clashes object (some existing) = object_identity_changed existing object

-- One match of a pattern.
unfoldable pub add_match : Limits → ObjectInfo → Objects → Result LoadError Objects
add_match l object seen =
    if lt64 object.size 0
    then refuse invalid (codes "object metadata has a negative size")
    else if lt64 l.max_object_bytes object.size
    then refuse precondition (codes "an object exceeds the configured size limit")
    else if clashes object (lookup object.uri seen)
    then refuse precondition
        (codes "overlapping source patterns resolved different object generations")
    else if ltb l.max_objects (length (put object.uri object seen))
    then refuse precondition (codes "source set exceeds the configured object limit")
    else ok (put object.uri object seen)

-- The loop over the matches goes on where one passes.
abbrev pub proceed :
    {A B : Type 0} → Result LoadError A → (A → Result LoadError B) → Result LoadError B
proceed (ok a) f = f a
proceed (err e) f = err e

unfoldable pub add_matches : Limits → List ObjectInfo → Objects → Result LoadError Objects
add_matches l [] seen = ok seen
add_matches l (object ∷ objects) seen = proceed (add_match l object seen) (add_matches l objects)

-- strings.ContainsAny(pattern, "*?[")
abbrev pub is_pattern : Bytes → Bool
is_pattern [] = false
is_pattern (c ∷ s) = nat_eq c b'*' || nat_eq c b'?' || nat_eq c b'[' || is_pattern s

abbrev pub single : Result LoadError ObjectInfo → Result LoadError (List ObjectInfo)
single (ok object) = ok (object ∷ [])
single (err e) = err e

abbrev pub some_matches : Limits → Objects → List ObjectInfo → Result LoadError Objects
some_matches l seen matches =
    if is_empty matches
    then refuse LoadFault.not_found (codes "a source URI pattern matched no objects")
    else add_matches l matches seen

-- The second loop: the total, and the objects in the order of the map.
unfoldable pub sum_objects : Limits → ℕ → Objects → Result LoadError (List ObjectInfo)
sum_objects l total [] = ok []
sum_objects l total ((k, object) ∷ m) =
    let rest = sum_objects l (add64 total object.size) m in
    if lt64 (sub64 l.max_total_bytes total) object.size
    then refuse precondition (codes "source set exceeds the configured total size limit")
    else proceed rest (λ objects. ok (object ∷ objects))

-- sort.Slice by URI; the URIs are distinct, so every sort gives this list.
unfoldable pub insert_object : ObjectInfo → List ObjectInfo → List ObjectInfo
insert_object o [] = o ∷ []
insert_object o (p ∷ ps) =
    let rest = insert_object o ps in if text_lt p.uri o.uri then p ∷ rest else o ∷ p ∷ ps

unfoldable pub sort_objects : List ObjectInfo → List ObjectInfo
sort_objects [] = []
sort_objects (o ∷ os) = insert_object o (sort_objects os)

-- Go's map iteration takes any order; the order of the association list stands for it.
unfoldable pub collect_objects : Limits → Objects → Result LoadError (List ObjectInfo)
collect_objects l seen = proceed (sum_objects l 0 seen) (λ objects. ok (sort_objects objects))

module _ {W : Type 0} (store : ObjectStore W) (l : Limits) where
  unfoldable pub find_matches : Bytes → W → Result LoadError (List ObjectInfo) × W
  find_matches pattern w =
      if is_pattern pattern
      then store.list pattern w
      else (let (r, w') = store.get pattern w in (single r, w'))

  abbrev pub next_patterns :
      Result LoadError Objects
      → W
      → (Objects → W → Result LoadError Objects × W)
      → Result LoadError Objects × W
  next_patterns (ok seen) w f = f seen w
  next_patterns (err e) w f = (err e, w)

  -- The first loop, over the patterns.
  unfoldable pub resolve_patterns : List Bytes → Objects → W → Result LoadError Objects × W
  resolve_patterns [] seen w = (ok seen, w)
  resolve_patterns (p ∷ ps) seen w =
      let (r, w') = find_matches p w in
      next_patterns (proceed r (some_matches l seen)) w' (resolve_patterns ps)

  unfoldable pub resolve_objects : List Bytes → W → Result LoadError (List ObjectInfo) × W
  resolve_objects patterns w =
      if ltb l.max_objects (length patterns)
      then (refuse precondition (codes "source URI list exceeds the configured object limit"), w)
      else (let (r, w') = resolve_patterns patterns [] w in (proceed r (collect_objects l), w'))
