-- ===== src/StorageRead/Session/Refused.antt =====
-- A session that is not created leaves nothing behind.
use go_bemu.Base.{
  ℕ, ◌≡◌, refl, sym, ap, ◌∙◌, subst, Option, none, some, [], String, arith, inl, inr, Bool-cases,
  nat_eq_iff, Option-cases,
}
use go_bemu.Words.{add64, add64_small, lt64}
use go_bemu.Text.{Bytes}
use go_bemu.Errors.{message}
use go_bemu.Exec.{Result, ok, err, continue}
use go_bemu.StorageRead.Domain.{
  Err, ErrorCode, internal, resource_exhausted, Format, CreateSessionRequest, SnapshotMetadata,
  Session,
}
use go_bemu.StorageRead.Contracts.{negotiate_stream_count, valid_resource_segment}
use go_bemu.StorageRead.Service.{SessionState, Service, Env, Machine}
use go_bemu.StorageRead.Admission.{
  reserved, drop_reservation, reserve_session, rejection, add_reservation, release_reservation,
  persisted, commit_checked, commit_reserved_session,
}
use go_bemu.StorageRead.Admission.Budget.{IsBudgeted, give_back, room}
use go_bemu.StorageRead.Lifecycle.{perform_all}
use go_bemu.StorageRead.Requests.{new_session_state, validate_create_request, materialize_request}
use go_bemu.StorageRead.Session.{
  operation, discard, materialized, materialize_snapshot, bounded, check_snapshot,
  stored_or_discarded, store_named, store_snapshot, fill_reservation, release_unless_committed,
  admitted_session, reserve_live, negotiated_session, checked_session, create_session, Handler,
}

-- Registry and budget are as before; a reservation's ID is used up.
pub record IsRestored (before after : Service) : Type 0 where
  pub sessions : after.sessions ≡ before.sessions
  pub streams : after.streams ≡ before.streams
  pub reservations : after.reservations ≡ before.reservations
  pub retained : after.retained_snapshot_bytes ≡ before.retained_snapshot_bytes

IsRestored-refl : (s : Service) → IsRestored s s
IsRestored-refl s = record { sessions = refl; streams = refl; reservations = refl; retained = refl }

-- A reservation that is released at once.
reserve-release :
    (s : Service)
    → IsBudgeted s
    → rejection s ≡ none
    → IsRestored s (release_reservation (add64 s.next_reservation_id 1) (add_reservation s))
unfolding release_reservation add_reservation reserved drop_reservation
reserve-release s b h =
    let e = (nat_eq_iff (add64 s.next_reservation_id 1) (add64 s.next_reservation_id 1)).1 refl in
    let (_, fits) = room s b.typed_share b.typed b.within h in
    let sum =
      add64_small s.retained_snapshot_bytes s.config.max_snapshot_bytes
        (omega (arith, b.typed, b.typed_share)) in
    rw e (record {
      sessions = refl;
      streams = refl;
      reservations = rw e refl;
      retained =
          give_back (add64 s.retained_snapshot_bytes s.config.max_snapshot_bytes)
            s.config.max_snapshot_bytes (omega (arith, sum, b.typed)) (omega (arith, sum))
          ∙ omega (arith, sum);
    })

module _ {W : Type 0} (env : Env W) where
  abbrev KeepsService : {A : Type 0} → Result Err A × Machine W → Machine W → Type 0
  KeepsService r m = r.1.service ≡ m.service

  discard_keeps :
      (A : Type 0) (code : ErrorCode) (e : Err) (snapshot : ℕ) (m : Machine W)
      → KeepsService (discard env {A = A} code e snapshot m) m
  unfolding discard
  discard_keeps A code e snapshot m = refl

  materialized_keeps :
      (r : Result Err (Option ℕ)) (m : Machine W) → KeepsService (materialized env r m) m
  materialized_keeps (err e) m = refl
  materialized_keeps (ok none) m = refl
  materialized_keeps (ok (some snapshot)) m = refl

  materialize_keeps :
      (q : CreateSessionRequest) (m : Machine W) → KeepsService (materialize_snapshot env [] q m) m
  unfolding materialize_snapshot perform_all
  materialize_keeps q m = materialized_keeps (env.materialize (materialize_request q) m.world).0 _

  bounded_keeps :
      (snapshot : ℕ) (r : Result String SnapshotMetadata) (m : Machine W)
      → KeepsService (bounded env snapshot r m) m
  bounded_keeps snapshot (err text) m = discard_keeps _ internal (message text) snapshot m
  bounded_keeps snapshot (ok md) m =
      elim (Bool-cases (lt64 m.service.config.max_snapshot_bytes md.retained_bytes)) [
        | inl e ↦ rw e (discard_keeps _ resource_exhausted _ snapshot m)
        | inr e ↦ rw e refl
      ]

  check_keeps :
      (format : Format) (snapshot : ℕ) (m : Machine W)
      → KeepsService (check_snapshot env format snapshot m) m
  unfolding check_snapshot
  check_keeps format snapshot m = bounded_keeps snapshot _ m

  persisted_keeps :
      (id bytes : ℕ) (st : SessionState) (s : Service) (o : Option Err × W) {e : Err}
      → (persisted env id bytes st s o).0 ≡ err e
      → (persisted env id bytes st s o).1.service ≡ s
  persisted_keeps id bytes st s (some x, w) h = refl
  persisted_keeps id bytes st s (none, w) h = cc

  checked_keeps :
      (id : ℕ) (o : Option ℕ) (st : SessionState) (f : Option Err) (m : Machine W) {e : Err}
      → (commit_checked env id o st f m).0 ≡ err e
      → KeepsService (commit_checked env id o st f m) m
  checked_keeps id none st (some x) m h = refl
  checked_keeps id none st none m h = refl
  checked_keeps id (some bytes) st (some x) m h = refl
  checked_keeps id (some bytes) st none m h = persisted_keeps id bytes st m.service _ h

  stored_keeps :
      (st : SessionState) (r : Result Err (Unit {0}) × Machine W) (s : Service) {e : Err}
      → ((x : Err) → r.0 ≡ err x → r.1.service ≡ s)
      → (stored_or_discarded env st r).0 ≡ err e
      → (stored_or_discarded env st r).1.service ≡ s
  stored_keeps st (ok _, m) s k h = cc
  stored_keeps st (err x, m) s k h = discard_keeps _ _ x st.snapshot m ∙ k x refl

  store_named_keeps :
      (q : CreateSessionRequest) (count reservation snapshot : ℕ) (md : SnapshotMetadata)
      (id : Bytes) (m : Machine W) {e : Err}
      → (store_named env q count reservation snapshot md id m).0 ≡ err e
      → KeepsService (store_named env q count reservation snapshot md id m) m
  unfolding store_named commit_reserved_session
  store_named_keeps q count reservation snapshot md id m h =
      elim (Bool-cases (valid_resource_segment id))
        as (λ _. KeepsService (store_named env q count reservation snapshot md id m) m) [
          | inl e ↦
              let (now, w) = env.now m.world in
              let st = new_session_state env.digest m.service.config q count snapshot md id now in
              let r =
                commit_reserved_session env operation reservation st (record m { world = w }) in
              rw e (
                stored_keeps st r m.service (λ x k. checked_keeps reservation _ st _ _ k)
                  (rw e at h))
          | inr e ↦ rw e (discard_keeps _ internal _ snapshot m)
        ]

  store_snapshot_keeps :
      (q : CreateSessionRequest) (count reservation snapshot : ℕ) (md : SnapshotMetadata)
      (m : Machine W) {e : Err}
      → (store_snapshot env q count reservation snapshot md m).0 ≡ err e
      → KeepsService (store_snapshot env q count reservation snapshot md m) m
  unfolding store_snapshot
  store_snapshot_keeps q count reservation snapshot md m h =
      store_named_keeps q count reservation snapshot md (env.new_id m.world).0 _ h

  continue_keeps :
      {A B : Type 0} (f : A → Handler W B) (r : Result Err A) (m : Machine W) {e : Err}
      → ((a : A) → (f a m).0 ≡ err e → KeepsService (f a m) m)
      → (continue r f m).0 ≡ err e
      → KeepsService (continue r f m) m
  continue_keeps f (ok a) m k h = k a h
  continue_keeps f (err x) m k h = refl

  fill_keeps :
      (q : CreateSessionRequest) (count reservation : ℕ) (m : Machine W) {e : Err}
      → (fill_reservation env [] q count reservation m).0 ≡ err e
      → KeepsService (fill_reservation env [] q count reservation m) m
  fill_keeps q count reservation m h =
      let m1 = (materialize_snapshot env [] q m).1 in
      continue_keeps _ (materialize_snapshot env [] q m).0 m1
        (λ snapshot k.
          continue_keeps _ (check_snapshot env q.format snapshot m1).0
            (check_snapshot env q.format snapshot m1).1
            (λ md k'. store_snapshot_keeps q count reservation snapshot md _ k') k
          ∙ check_keeps q.format snapshot m1)
        h
      ∙ materialize_keeps q m

  released_keeps :
      (id : ℕ) (r : Result Err Session × Machine W) (s : Service) {e : Err}
      → ((x : Err) → r.0 ≡ err x → r.1.service ≡ s)
      → (release_unless_committed env id r).0 ≡ err e
      → (release_unless_committed env id r).1.service ≡ release_reservation id s
  released_keeps id (ok x, m) s k h = cc
  released_keeps id (err x, m) s k h = ap (release_reservation id) (k x refl)

  reserved-IsRestored :
      (q : CreateSessionRequest) (count : ℕ) (o : Option Err) (m : Machine W) {e : Err}
      → IsBudgeted m.service
      → (admitted_session env [] q count (reserve_live o m.service) m.world).0 ≡ err e
      → IsRestored m.service
          (admitted_session env [] q count (reserve_live o m.service) m.world).1.service
  unfolding reserve_live reserve_session
  reserved-IsRestored q count (some x) m b h = IsRestored-refl m.service
  reserved-IsRestored q count none m b h =
      elim (Option-cases (rejection m.service))
        as (λ _.
          IsRestored m.service
            (admitted_session env [] q count (reserve_live none m.service) m.world).1.service) [
              | inl k ↦ rw k (
                  subst (IsRestored m.service)
                    (sym (
                      released_keeps _ (fill_reservation env [] q count _ _)
                        (add_reservation m.service) (λ x. fill_keeps q count _ _) (rw k at h)))
                    (reserve-release m.service b k))
              | inr (x, k) ↦ rw k (IsRestored-refl m.service)
            ]

  negotiated-IsRestored :
      (q : CreateSessionRequest) (r : Result String ℕ) (m : Machine W) {e : Err}
      → IsBudgeted m.service
      → (negotiated_session env [] q r m).0 ≡ err e
      → IsRestored m.service (negotiated_session env [] q r m).1.service
  negotiated-IsRestored q (err text) m b h = IsRestored-refl m.service
  negotiated-IsRestored q (ok count) m b h =
      reserved-IsRestored q count (env.context_error m.world) m b h

  checked-IsRestored :
      (q : CreateSessionRequest) (r : Result String (Unit {0})) (m : Machine W) {e : Err}
      → IsBudgeted m.service
      → (checked_session env [] q r m).0 ≡ err e
      → IsRestored m.service (checked_session env [] q r m).1.service
  checked-IsRestored q (err text) m b h = IsRestored-refl m.service
  checked-IsRestored q (ok _) m b h =
      negotiated-IsRestored q
        (negotiate_stream_count m.service.config.max_streams m.service.config.default_stream_count
          q.max_stream_count q.preferred_min_stream_count)
        m b h

  -- If the admission invariant holds and no other caller comes between, then a CreateSession that
  -- fails, for whatever reason, leaves the sessions, the streams, the reservations and the retained
  -- bytes of the service as they were.
  pub failed_create-IsRestored :
      (q : CreateSessionRequest) (m : Machine W) {e : Err}
      → IsBudgeted m.service
      → (create_session env [] q m).0 ≡ err e
      → IsRestored m.service (create_session env [] q m).1.service
  unfolding create_session
  failed_create-IsRestored q m b h =
      checked-IsRestored q (validate_create_request env.trim_space q) m b h
