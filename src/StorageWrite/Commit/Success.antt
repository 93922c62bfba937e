-- ===== src/StorageWrite/Commit/Success.antt =====
-- What a response of BatchCommit (internal/storagewrite/application/service.go) says of the streams.
use go_bemu.Base.{
  ℕ, ◌≡◌, refl, sym, ap, subst, ◌⊎◌, inl, inr, Option, none, some, List, [], ◌∷◌, arith, Bool-cases,
}
use go_bemu.Text.{text_lt, Bytes, text_eq, text_eq_iff}
use go_bemu.Maps.{Map, lookup, put, lookup-put}
use go_bemu.Exec.{raise, ok, >>=-eq-ok}
use go_bemu.StorageWrite.Domain.{Err, committed, CommitGroup, BatchCommitResult}
use go_bemu.StorageWrite.Names.{TableReference, StreamName, parse_stream_name}
use go_bemu.StorageWrite.Ports.{Env}
use go_bemu.StorageWrite.Service.{StreamEntry, Machine}
use go_bemu.StorageWrite.Commit.Selection.{Named, insert_named, sort_named}
use go_bemu.StorageWrite.Commit.Group.{apply, update_all, set_all, applied_group}
use go_bemu.StorageWrite.Commit.Steps.{
  transition, conclude, outcome, fail_commit, submit_commit, run_group, report, close_intent,
}

abbrev pub CommittedAt : ℕ → Option StreamEntry → Type 0
CommittedAt t none = ⊥
CommittedAt t (some e) = (e.stream.state ≡ committed) × (e.stream.commit_time ≡ some t)

abbrev pub NamedIn : Bytes → List Named → Type 0
NamedIn k [] = ⊥
NamedIn k ((j, e) ∷ ns) = (j ≡ k) ⊎ NamedIn k ns

-- Once committed, a stream stays so while others are stored.
stays_committed :
    (t : ℕ) (k : Bytes) (ns : List Named) (m : Map StreamEntry)
    → CommittedAt t (lookup k m)
    → CommittedAt t (lookup k (set_all (update_all (apply t) ns) m))
unfolding set_all update_all
stays_committed t k [] m h = h
stays_committed t k ((j, e) ∷ ns) m h =
    stays_committed t k ns (put j (apply t e) m) (elim (Bool-cases (text_eq j k)) [
      | inl q ↦ rw (lookup-put, q) (refl, refl)
      | inr q ↦ rw (lookup-put, q) h
    ])

set_all-CommittedAt :
    (t : ℕ) (k : Bytes) (ns : List Named) (m : Map StreamEntry)
    → NamedIn k ns
    → CommittedAt t (lookup k (set_all (update_all (apply t) ns) m))
unfolding set_all update_all
set_all-CommittedAt t k [] m h = elim h [ ]
set_all-CommittedAt t k ((j, e) ∷ ns) m (inl q) =
    stays_committed t k ns (put j (apply t e) m)
      (rw (lookup-put, (text_eq_iff j k).1 q) (refl, refl))
set_all-CommittedAt t k ((j, e) ∷ ns) m (inr h) = set_all-CommittedAt t k ns (put j (apply t e) m) h

pub update_all-NamedIn :
    (f : StreamEntry → StreamEntry) (k : Bytes) (ns : List Named)
    → NamedIn k ns
    → NamedIn k (update_all f ns)
unfolding update_all
update_all-NamedIn f k [] h = elim h [ ]
update_all-NamedIn f k ((j, e) ∷ ns) (inl q) = inl q
update_all-NamedIn f k ((j, e) ∷ ns) (inr h) = inr (update_all-NamedIn f k ns h)

swap_names :
    (k : Bytes) (n m : Named) (ms rest : List Named)
    → (NamedIn k (n ∷ ms) → NamedIn k rest)
    → NamedIn k (n ∷ m ∷ ms)
    → NamedIn k (m ∷ rest)
swap_names k n m ms rest f (inl e) = inr (f (inl e))
swap_names k n m ms rest f (inr (inl e)) = inl e
swap_names k n m ms rest f (inr (inr i)) = inr (f (inr i))

insert_named-NamedIn :
    (k : Bytes) (n : Named) (ns : List Named) → NamedIn k (n ∷ ns) → NamedIn k (insert_named n ns)
unfolding insert_named
insert_named-NamedIn k n [] h = h
insert_named-NamedIn k n (m ∷ ms) h = elim (Bool-cases (text_lt m.0 n.0)) [
  | inl q ↦ rw q (swap_names k n m ms (insert_named n ms) (λ i. insert_named-NamedIn k n ms i) h)
  | inr q ↦ rw q h
]

pub sort_named-NamedIn : (k : Bytes) (ns : List Named) → NamedIn k ns → NamedIn k (sort_named ns)
unfolding sort_named
sort_named-NamedIn k [] h = elim h [ ]
sort_named-NamedIn k (n ∷ ns) (inl e) = insert_named-NamedIn k n (sort_named ns) (inl e)
sort_named-NamedIn k (n ∷ ns) (inr i) =
    insert_named-NamedIn k n (sort_named ns) (inr (sort_named-NamedIn k ns i))

-- The stream that a name of the request stands for is among those.
abbrev pub Selects : List Named → Bytes → Type 0
Selects ns key = (n : StreamName) × (parse_stream_name key ≡ ok n) × NamedIn n.canonical ns

module _ {W : Type 0} (env : Env W) where
  pub record IsDone (ns : List Named) (res : BatchCommitResult) (s' : Machine W) : Type 0 where
    pub time : ℕ
    pub reported : res.commit_time ≡ some time
    pub errorless : res.stream_errors ≡ []
    pub streams : (k : Bytes) → NamedIn k ns → CommittedAt time (lookup k s'.service.streams)

  transition_lem :
      (call : _) (f : StreamEntry → StreamEntry) (ns : List Named) (g : CommitGroup)
      (s s' : Machine W) (u : Unit {0})
      → transition env none call f ns g s ≡ (ok u, s')
      → s'.service.streams ≡ set_all (update_all f ns) s.service.streams
  unfolding transition
  transition_lem call f ns g s s' u h = ground arith

  reported-IsDone :
      (t : ℕ) (ns : List Named) (s s' : Machine W) (res : BatchCommitResult)
      → report env ns t s ≡ (ok res, s')
      → ((k : Bytes) → NamedIn k ns → CommittedAt t (lookup k s.service.streams))
      → IsDone ns res s'
  reported-IsDone t ns s s' res h c = record {
    time = t;
    reported = ground arith;
    errorless = ground arith;
    streams =
        λ k i. subst (λ m. CommittedAt t (lookup k m)) (ap (λ q. q.1.service.streams) h) (c k i);
  }

  conclude-IsDone :
      (ns : List Named) (g : CommitGroup) (s s' : Machine W) (res : BatchCommitResult)
      → conclude env ns g s ≡ (ok res, s')
      → IsDone ns res s'
  unfolding conclude
  conclude-IsDone ns g s s' res h =
      let t = (env.now s.world).0 in
      let s1 = record s { world = (env.now s.world).1 } in
      let step =
        transition env none env.repository.complete_commit (apply t) ns (applied_group g t) in
      let (u, hu, h2) = >>=-eq-ok (λ v. report env ns t) step s1 h in
      let put_eq =
        transition_lem env.repository.complete_commit (apply t) ns (applied_group g t) s1
          (step s1).1 u (λ i. (hu i, (step s1).1)) in
      reported-IsDone t ns (step s1).1 s' res h2 λ k i.
        subst (λ m. CommittedAt t (lookup k m)) (sym put_eq)
          (set_all-CommittedAt t k ns s.service.streams i)

  fail_commit_fails :
      (ns : List Named) (g : CommitGroup) (x : Err) (s s' : Machine W) (res : BatchCommitResult)
      → ¬ (fail_commit env ns g x s ≡ (ok res, s'))
  unfolding fail_commit
  fail_commit_fails ns g x s s' res h =
      let (u, hu, h1) = >>=-eq-ok (λ v. raise _) (close_intent env ns g x) s h in cc

  outcome-IsDone :
      (ns : List Named) (g : CommitGroup) (o : Option Err) (s s' : Machine W)
      → (res : BatchCommitResult) → outcome env ns g o s ≡ (ok res, s')
      → IsDone ns res s'
  outcome-IsDone ns g none s s' res h = conclude-IsDone ns g s s' res h
  outcome-IsDone ns g (some x) s s' res h = absurd (fail_commit_fails ns g x s s' res h)

  pub run_group-IsDone :
      (parent : TableReference) (ns : List Named) (g : CommitGroup) (s s' : Machine W)
      → (res : BatchCommitResult) → run_group env parent ns g s ≡ (ok res, s')
      → IsDone ns res s'
  unfolding run_group
  run_group-IsDone parent ns g s s' res h =
      let (o, ho, h1) = >>=-eq-ok (outcome env ns g) (submit_commit env parent ns g) s h in
      outcome-IsDone ns g o (submit_commit env parent ns g s).1 s' res h1
