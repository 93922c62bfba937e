-- ===== src/StorageWrite/Commit/Chosen.antt =====
-- The validation of BatchCommit (internal/storagewrite/application/service.go): without a stream error
-- every name of the request has brought its stream.
use go_bemu.Base.{
  ◌≡◌, refl, inl, inr, Bool, true, false, Option, none, some, List, [], ◌∷◌, All, String,
}
use go_bemu.Text.{Bytes}
use go_bemu.Exec.{Result, ok, err}
use go_bemu.StorageWrite.Domain.{StreamError}
use go_bemu.StorageWrite.Names.{TableReference, StreamName, parse_stream_name}
use go_bemu.StorageWrite.Service.{Service, StreamEntry}
use go_bemu.StorageWrite.Commit.Selection.{
  Named, Choice, choose, choose_all, choose_named, choose_checked, choose_found, check_name,
  problems, selected, see,
}
use go_bemu.StorageWrite.Commit.Success.{NamedIn, Selects}

-- A choice that is no problem brings the stream of that name in front of the others.
abbrev IsFound : Bytes → Choice → List Choice → Type 0
IsFound k c cs =
    NamedIn k (selected (c ∷ cs))
    × (problems cs ≡ [])
    × ((j : Bytes) → NamedIn j (selected cs) → NamedIn j (selected (c ∷ cs)))

choose_checked-IsFound :
    (k : Bytes) (o : Option StreamError) (closed : Bool) (e : Option StreamEntry) (cs : List Choice)
    → problems (choose_checked o (choose_found k closed e) ∷ cs) ≡ []
    → IsFound k (choose_checked o (choose_found k closed e)) cs
choose_checked-IsFound k (some x) closed e cs h = cc
choose_checked-IsFound k none true e cs h = cc
choose_checked-IsFound k none false none cs h = cc
choose_checked-IsFound k none false (some e) cs h = (inl refl, h, λ j i. inr i)

choose-IsFound :
    (s : Service) (parent : TableReference) (seen : List Bytes) (key : Bytes)
    → (r : Result String StreamName) (cs : List Choice)
    → problems (choose s parent seen key r ∷ cs) ≡ []
    → (n : StreamName) × (r ≡ ok n) × IsFound n.canonical (choose s parent seen key r) cs
unfolding choose_named
choose-IsFound s parent seen key (err m) cs h = cc
choose-IsFound s parent seen key (ok n) cs h =
    (n, refl, choose_checked-IsFound n.canonical (check_name parent seen n) s.closed _ cs h)

pub All-Selects :
    (ns ms : List Named) (keys : List Bytes)
    → ((j : Bytes) → NamedIn j ns → NamedIn j ms)
    → All (Selects ns) keys
    → All (Selects ms) keys
All-Selects ns ms [] f h = tt
All-Selects ns ms (key ∷ keys) f ((n, e, i), h) =
    ((n, e, f n.canonical i), All-Selects ns ms keys f h)

-- Every name was found.
pub choose_all-Selects :
    (s : Service) (parent : TableReference) (seen keys : List Bytes)
    → problems (choose_all s parent seen keys) ≡ []
    → All (Selects (selected (choose_all s parent seen keys))) keys
unfolding choose_all
choose_all-Selects s parent seen [] h = tt
choose_all-Selects s parent seen (key ∷ keys) h =
    let r = parse_stream_name key in
    let (n, e, f) = choose-IsFound s parent seen key r (choose_all s parent (see seen r) keys) h in
    ((n, e, f.0), All-Selects _ _ keys f.2 (choose_all-Selects s parent (see seen r) keys f.1))
