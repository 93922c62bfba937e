-- ===== src/StorageWrite/Commit/View.antt =====
-- What a client sees of the streams in `BatchCommit` (internal/storagewrite/application/service.go),
-- and the entries in hand against it.
use go_bemu.Base.{
  ◌≡◌, sym, ap, ◌∙◌, String, Bool, true, false, Option, none, some, List, [], ◌∷◌, inl, inr,
  if◌then◌else◌, Bool-cases,
}
use go_bemu.Text.{text_lt, Bytes, text_eq, text_eq_iff}
use go_bemu.Maps.{Map, lookup, put, lookup-put}
use go_bemu.Exec.{Result, ok, err}
use go_bemu.StorageWrite.Domain.{WriteStream, StreamError}
use go_bemu.StorageWrite.Names.{TableReference, StreamName, parse_stream_name}
use go_bemu.StorageWrite.Service.{StreamEntry, Service}
use go_bemu.StorageWrite.Commit.Selection.{
  Named, Choice, problem, chosen, choose, choose_named, check_name, choose_checked, choose_found,
  see, choose_all, selected, insert_named, sort_named,
}
use go_bemu.StorageWrite.Commit.Group.{update_all, set_all}

-- What a client can see of a stream entry.
abbrev pub seen_stream : Option StreamEntry → Option WriteStream
seen_stream none = none
seen_stream (some e) = some e.stream

abbrev pub View : Type 0
View = Bytes → Option WriteStream

abbrev pub Shows : View → Map StreamEntry → Type 0
Shows v m = (j : Bytes) → seen_stream (lookup j m) ≡ v j

abbrev pub Fits : View → List Named → Type 0
Fits v [] = Unit
Fits v ((key, e) ∷ ns) = (v key ≡ some e.stream) × Fits v ns

abbrev pub KeepsStream : (StreamEntry → StreamEntry) → Type 0
KeepsStream f = (e : StreamEntry) → (f e).stream ≡ e.stream

seen-put :
    (v : View) (key : Bytes) (e : StreamEntry) (m : Map StreamEntry)
    → Shows v m
    → v key ≡ some e.stream
    → Shows v (put key e m)
seen-put v key e m h k j = elim (Bool-cases (text_eq key j)) [
  | inl t ↦ rw (lookup-put, t) (sym k ∙ ap v ((text_eq_iff key j).0 t))
  | inr t ↦ rw (lookup-put, t) (h j)
]

pub set_all-Shows :
    (v : View) (f : StreamEntry → StreamEntry)
    → KeepsStream f
    → (ns : List Named) (m : Map StreamEntry) → Shows v m
    → Fits v ns
    → Shows v (set_all (update_all f ns) m)
unfolding set_all update_all
set_all-Shows v f kf [] m h k = h
set_all-Shows v f kf ((key, e) ∷ ns) m h k =
    set_all-Shows v f kf ns (put key (f e) m)
      (seen-put v key (f e) m h (k.0 ∙ ap some (sym (kf e)))) k.1

pub update_all-Fits :
    (v : View) (f : StreamEntry → StreamEntry)
    → KeepsStream f
    → (ns : List Named) → Fits v ns
    → Fits v (update_all f ns)
unfolding update_all
update_all-Fits v f kf [] k = tt
update_all-Fits v f kf ((key, e) ∷ ns) k =
    (k.0 ∙ ap some (sym (kf e)), update_all-Fits v f kf ns k.1)

-- The streams that the request selects are those of the registry.
abbrev FitsChoice : View → Choice → Type 0
FitsChoice v (problem e) = Unit
FitsChoice v (chosen (key, e)) = v key ≡ some e.stream

choose_checked-Fits :
    (v : View) (o : Option StreamError) (c : Choice)
    → FitsChoice v c
    → FitsChoice v (choose_checked o c)
choose_checked-Fits v (some e) c h = tt
choose_checked-Fits v none c h = h

choose_found-Fits :
    (v : View) (key : Bytes) (closed : Bool) (o : Option StreamEntry)
    → seen_stream o ≡ v key
    → FitsChoice v (choose_found key closed o)
choose_found-Fits v key true o h = tt
choose_found-Fits v key false none h = tt
choose_found-Fits v key false (some e) h = sym h

choose-Fits :
    (v : View) (s : Service) (parent : TableReference) (seen : List Bytes) (key : Bytes)
    (r : Result String StreamName)
    → Shows v s.streams
    → FitsChoice v (choose s parent seen key r)
unfolding choose_named
choose-Fits v s parent seen key (err m) h = tt
choose-Fits v s parent seen key (ok n) h =
    choose_checked-Fits v (check_name parent seen n)
      (choose_found n.canonical s.closed (lookup n.canonical s.streams))
      (choose_found-Fits v n.canonical s.closed (lookup n.canonical s.streams) (h n.canonical))

selected-Fits :
    (v : View) (c : Choice) (cs : List Choice)
    → FitsChoice v c
    → Fits v (selected cs)
    → Fits v (selected (c ∷ cs))
selected-Fits v (problem e) cs a b = b
selected-Fits v (chosen (key, e)) cs a b = (a, b)

pub choose_all-Fits :
    (v : View) (s : Service) (parent : TableReference) (seen keys : List Bytes)
    → Shows v s.streams
    → Fits v (selected (choose_all s parent seen keys))
unfolding choose_all
choose_all-Fits v s parent seen [] h = tt
choose_all-Fits v s parent seen (key ∷ keys) h =
    let n = parse_stream_name key in
    selected-Fits v (choose s parent seen key n) (choose_all s parent (see seen n) keys)
      (choose-Fits v s parent seen key n h) (choose_all-Fits v s parent (see seen n) keys h)

Fits-if :
    (v : View) (b : Bool) (ms ns : List Named)
    → Fits v ms
    → Fits v ns
    → Fits v (if b then ms else ns)
Fits-if v true ms ns h k = h
Fits-if v false ms ns h k = k

insert_named-Fits :
    (v : View) (n : Named) (ns : List Named) → Fits v (n ∷ ns) → Fits v (insert_named n ns)
unfolding insert_named
insert_named-Fits v n [] k = k
insert_named-Fits v n ((key, e) ∷ ns) k =
    Fits-if v (text_lt key n.0) _ _ (k.1.0, insert_named-Fits v n ns (k.0, k.1.1)) k

pub sort_named-Fits : (v : View) (ns : List Named) → Fits v ns → Fits v (sort_named ns)
unfolding sort_named
sort_named-Fits v [] k = k
sort_named-Fits v ((key, e) ∷ ns) k =
    insert_named-Fits v (key, e) (sort_named ns) (k.0, sort_named-Fits v ns k.1)
