-- ===== src/StorageWrite/Created.antt =====
-- CreateStream: what a stream is that it returns, and what it leaves in the registry.
use go_bemu.Base.{
  ℕ, zero, suc, ◌≡◌, refl, sym, ap, ◌∙◌, subst, inl, inr, Bool, true, false, not, ◌||◌, Option,
  none, some, String, arith, or_parts, not_off, Bool-cases, ◌++◌,
}
use go_bemu.Words.{add64, lt64}
use go_bemu.Text.{Bytes, codes}
use go_bemu.Maps.{lookup, put}
use go_bemu.Exec.{Exec, Result, ok, err, fail_if, lift, >>=-eq-ok}
use go_bemu.Catalog.Fields.{Fields}
use go_bemu.StorageWrite.Domain.{
  Err, failed, pending, open_state, is_pending, WriteStream, CreateStreamRequest, unimplemented,
}
use go_bemu.StorageWrite.Names.{TableReference, name, parse_table_name, parse_stream_name}
use go_bemu.StorageWrite.Ports.{Env}
use go_bemu.StorageWrite.Service.{Service, StreamEntry, Machine, reject, stream_record}
use go_bemu.StorageWrite.Append.Steps.{is_none}
use go_bemu.StorageWrite.Registry.{
  new_entry, Attempt, retry, stop, created, attempt, is_fresh_id, ensure_state_reconciled,
  admission_error, describe_table, described, parsed, read_clock, set_stream,
}
use go_bemu.StorageWrite.Handlers.{
  create_operation, store_candidate, round, choose_id, add_pending, create_stream,
}

-- The stream is new and empty, its name is that of no default stream, and the service has it and
-- nothing else besides what it had, with one more pending stream below the limit.
pub record IsRegistered (before after : Service) (st : WriteStream) : Type 0 where
  pub fresh : lookup st.name before.streams ≡ none
  pub named : is_fresh_id (parse_stream_name st.name) ≡ true
  pub entry : StreamEntry
  pub stream : entry.stream ≡ st
  pub streams : after.streams ≡ put st.name entry before.streams
  pub counted : after.pending ≡ add64 before.pending 1
  pub room : lt64 before.pending before.config.max_streams ≡ true
  pub running : before.closed ≡ false
  pub empty :
      (st.kind ≡ pending) × (st.state ≡ open_state) × (st.next_offset ≡ 0) × (st.row_count ≡ 0)

is_none-none : {A : Type 0} (o : Option A) → is_none o ≡ true → o ≡ none
is_none-none none h = refl
is_none-none (some a) h = cc

admitted :
    (operation : String) (s : Service)
    → admission_error operation s ≡ none
    → (s.closed ≡ false) × (lt64 s.pending s.config.max_streams ≡ true)
unfolding admission_error
admitted operation s h = ground arith

-- What the ID loop has chosen, in a state `s`.
abbrev Chosen : Service → TableReference → Fields → ℕ → Bytes × StreamEntry → Type 0
Chosen s parent schema now (key, e) =
    (lookup key s.streams ≡ none)
    × (is_fresh_id (parse_stream_name key) ≡ true)
    × (e ≡ new_entry s.config.location key parent pending schema now)

module _ {W : Type 0} (env : Env W) (parent : TableReference) (schema : Fields) (now : ℕ) where
  abbrev Loop : Type 0
  Loop = Exec (Machine W) Err (Option (Bytes × StreamEntry))

  abbrev IsChoosing : Service → Result Err (Option (Bytes × StreamEntry)) × Machine W → Type 0
  IsChoosing s r =
      (c : Bytes × StreamEntry)
      → r.0 ≡ ok (some c)
      → Chosen s parent schema now c × (r.1.service ≡ s)

  store-IsChoosing :
      (key : Bytes) (e : StreamEntry) (a : Attempt) (next : Loop) (s : Machine W)
      → Chosen s.service parent schema now (key, e)
      → IsChoosing s.service (next s)
      → IsChoosing s.service (store_candidate env key e a next s)
  store-IsChoosing key e created next s h k c x =
      let d : (key, e) ≡ c = cc in (subst (Chosen s.service parent schema now) d h, refl)
  store-IsChoosing key e (stop y) next s h k c x = cc
  store-IsChoosing key e retry next s h k c x = k c x

  round-IsChoosing :
      (id : Bytes) (next : Loop) (s : Machine W)
      → ((w : W) → IsChoosing s.service (next (record s { world = w })))
      → IsChoosing s.service (round env parent schema now id next s)
  unfolding round
  round-IsChoosing id next s k =
      let key = name parent ++ (codes "/streams/" ++ id) in
      let taken =
        not (is_fresh_id (parse_stream_name key)) || not (is_none (lookup key s.service.streams)) in
      elim (Bool-cases taken)
        as (λ _. IsChoosing s.service (round env parent schema now id next s)) [
          | inl e ↦ rw e (k s.world)
          | inr e ↦
              let (f, n) =
                or_parts (not (is_fresh_id (parse_stream_name key)))
                  (not (is_none (lookup key s.service.streams))) e in
              let entry = new_entry s.service.config.location key parent pending schema now in
              let (x, w) = env.repository.create_stream (stream_record entry) s.world in
              rw e (
                store-IsChoosing key entry (attempt create_operation x) next
                  (record s { world = w })
                  (is_none-none (lookup key s.service.streams) (not_off _ n), not_off _ f, refl)
                  (k w))
        ]

  choose_id-IsChoosing :
      (left : ℕ) (s : Machine W) → IsChoosing s.service (choose_id env left parent schema now s)
  unfolding choose_id
  choose_id-IsChoosing zero s = λ c x. cc
  choose_id-IsChoosing (suc left) s =
      let (id, w) = env.new_id s.world in
      round-IsChoosing id (choose_id env left parent schema now) (record s { world = w })
        (λ v. choose_id-IsChoosing left (record s { world = v }))

fail_if-state : {S E : Type 0} (b : Bool) (e : E) (s : S) → (fail_if b e s).1 ≡ s
fail_if-state true e s = refl
fail_if-state false e s = refl

reject-ok :
    {S : Type 0} (o : Option Err) (s : S) {u : Unit {0}}
    → (reject o s).0 ≡ ok u
    → (o ≡ none) × ((reject o s).1 ≡ s)
reject-ok none s h = (refl, refl)
reject-ok (some e) s h = cc

-- The service with a stream more.
abbrev after : Bytes → StreamEntry → Service → Service
after key e s = record (set_stream key e s) { pending = add64 s.pending 1 }

module _ {W : Type 0} (env : Env W) where
  described-service :
      (operation : String) (s : Machine W) (r : Result Err Fields × W)
      → (described env operation s r).1.service ≡ s.service
  described-service operation s (ok schema, w) = refl
  described-service operation s (err e, w) = refl

  added-IsRegistered :
      (parent : TableReference) (schema : Fields) (now : ℕ) (before : Service)
      (chosen : Option (Bytes × StreamEntry)) (m : Machine W) {st : WriteStream} {m' : Machine W}
      → admission_error create_operation before ≡ none
      → ((c : Bytes × StreamEntry)
          → chosen ≡ some c
          → Chosen before parent schema now c × (m.service ≡ before))
      → add_pending env chosen m ≡ (ok st, m')
      → IsRegistered before m'.service st
  unfolding new_entry
  added-IsRegistered parent schema now before none m a k h = cc
  added-IsRegistered parent schema now before (some (key, e)) m {st} {m'} a k h =
      let ((n, f, d), same) = k (key, e) refl in
      let (running, space) = admitted create_operation before a in
      let ds : e.stream ≡ st = cc in
      let dm : record m {
        service = record (set_stream key e m.service) { pending = add64 m.service.pending 1 };
      }
          ≡ m' =
        cc in
      let first : IsRegistered before
          (after key (new_entry before.config.location key parent pending schema now) before)
          (new_entry before.config.location key parent pending schema now).stream =
        record {
          fresh = n;
          named = f;
          entry = new_entry before.config.location key parent pending schema now;
          stream = refl;
          streams = refl;
          counted = refl;
          room = space;
          running = running;
          empty = (refl, refl, refl, refl);
        } in
      let second = subst (λ x. IsRegistered before (after key x before) x.stream) (sym d) first in
      let third = subst (λ x. IsRegistered before (after key e x) e.stream) (sym same) second in
      let fourth = subst (λ x. IsRegistered before x.service e.stream) dm third in
      subst (IsRegistered before m'.service) ds fourth

  -- A stream that CreateStream returns is PENDING, open and empty; the registry did not have its name
  -- before, which is that of no default stream, and has it after, with the streams that it had, and
  -- one pending stream more; the service was running, with fewer pending streams than its limit.
  pub create_stream-IsRegistered :
      (r : CreateStreamRequest) (m : Machine W) {st : WriteStream} {m' : Machine W}
      → create_stream env r m ≡ (ok st, m')
      → IsRegistered m.service m'.service st
  unfolding create_stream ensure_state_reconciled describe_table
  create_stream-IsRegistered r m {st} {m'} h =
      let m1 = (ensure_state_reconciled create_operation m).1 in
      let (_, _, h) = >>=-eq-ok _ (ensure_state_reconciled create_operation) m h in
      let refused =
        fail_if (not (is_pending r.kind))
          (failed unimplemented create_operation "only PENDING streams can be created") in
      let m2 = (refused m1).1 in
      let (_, _, h) = >>=-eq-ok _ refused m1 h in
      let (_, _, h) =
        >>=-eq-ok _ (lift (parsed create_operation (parse_table_name (name r.parent)))) m2 h in
      let before = m2.service in
      let m3 = (reject (admission_error create_operation before) m2).1 in
      let (_, a, h) = >>=-eq-ok _ (reject (admission_error create_operation before)) m2 h in
      let m4 = (describe_table env create_operation r.parent m3).1 in
      let (schema, _, h) = >>=-eq-ok _ (describe_table env create_operation r.parent) m3 h in
      let m5 = (read_clock env m4).1 in
      let again = m5.service in
      let now = (env.now m4.world).0 in
      let m6 = (reject (admission_error create_operation again) m5).1 in
      let (_, b, h) = >>=-eq-ok _ (reject (admission_error create_operation again)) m5 h in
      let (none_again, e6) = reject-ok (admission_error create_operation again) m5 b in
      let (chosen, c, h) = >>=-eq-ok (add_pending env) (choose_id env 4 r.parent schema now) m6 h in
      let back : m6.service ≡ m.service =
        ap (λ x. x.service) e6
        ∙ described-service create_operation m3 (env.coordinator.describe_table r.parent m3.world)
        ∙ ap (λ x. x.service) (reject-ok (admission_error create_operation before) m2 a).1
        ∙ ap (λ x. x.service) (fail_if-state (not (is_pending r.kind)) _ m1)
        ∙ ap (λ x. x.service) (fail_if-state (not m.service.state_reconciled) _ m) in
      subst (λ x. IsRegistered x m'.service st) back
        (added-IsRegistered r.parent schema now m6.service chosen
          (choose_id env 4 r.parent schema now m6).1
          (ap (admission_error create_operation) (ap (λ x. x.service) e6) ∙ none_again)
          (λ d x. choose_id-IsChoosing env r.parent schema now 4 m6 d (c ∙ ap ok x)) h)
