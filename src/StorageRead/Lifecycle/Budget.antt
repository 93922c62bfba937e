-- ===== src/StorageRead/Lifecycle/Budget.antt =====
-- The admission invariant through expiry and shutdown, and over any sequence of operations.
use go_bemu.Base.{ℕ, ◌+◌, ◌≤◌, ◌≡◌, Option, none, some, List, [], ◌∷◌, length, arith, All}
use go_bemu.Maps.{Map}
use go_bemu.StorageRead.Domain.{Err}
use go_bemu.StorageRead.Service.{SessionState, Reservations, Service, Env, Machine}
use go_bemu.StorageRead.Admission.{release_reservation, release_snapshot_budget}
use go_bemu.StorageRead.Admission.Budget.{
  session_bytes, IsHolding, IsBudgeted, give_back, reserve-IsBudgeted, release-IsHolding,
  commit-IsBudgeted,
}
use go_bemu.StorageRead.Lifecycle.{
  expired_at, live_at, release_all, close_snapshots, swept, sweep_expired, shut, close, Operation,
  reserve, commit, give_up, sweep, shutdown, IsTypedOperation, perform, perform_all,
}

give_budget_back-IsHolding :
    (pending bytes : ℕ) (s : Service)
    → IsHolding (bytes + pending) s
    → IsHolding pending (release_snapshot_budget bytes s)
unfolding release_snapshot_budget
give_budget_back-IsHolding pending bytes s b =
    let back =
      give_back s.retained_snapshot_bytes bytes (omega (arith, b.within, b.typed))
        (omega (arith, b.exact)) in
    record {
      exact = ground (arith, back, b.exact);
      within = ground (arith, back, b.within);
      slots = b.slots;
      typed = b.typed;
      typed_share = b.typed_share;
    }

release_all-IsHolding :
    (pending : ℕ) (rs : Reservations) (s : Service)
    → IsHolding pending s
    → IsHolding pending (release_all rs s)
unfolding release_all
release_all-IsHolding pending [] s b = b
release_all-IsHolding pending ((id, bytes) ∷ rs) s b =
    release_all-IsHolding pending rs (release_reservation id s) (release-IsHolding pending id s b)

-- Expiry splits the sessions, and what they hold, in two.
expiry_splits :
    (now : ℕ) (m : Map SessionState)
    → (session_bytes m ≡ session_bytes (expired_at now m) + session_bytes (live_at now m))
      × (length (live_at now m) ≤ length m)
unfolding expired_at live_at
expiry_splits now [] = (omega arith, omega arith)
expiry_splits now ((k, st) ∷ m) = ground (arith, expiry_splits now m)

module _ {W : Type 0} (env : Env W) where
  close_snapshots-IsBudgeted :
      (ss : Map SessionState) (result : Option Err) (m : Machine W)
      → IsHolding (session_bytes ss) m.service
      → IsBudgeted (close_snapshots env result ss m).1.service
  unfolding close_snapshots
  close_snapshots-IsBudgeted [] result m b = b
  close_snapshots-IsBudgeted ((k, st) ∷ ss) result m b =
      close_snapshots-IsBudgeted ss _ _
        (give_budget_back-IsHolding (session_bytes ss) st.retained_bytes m.service b)

  swept-IsBudgeted :
      (now : ℕ) (s : Service) (o : Option Err × W)
      → IsBudgeted s
      → IsBudgeted (swept env now s o).1.service
  swept-IsBudgeted now s (some e, w) b = b
  swept-IsBudgeted now s (none, w) b =
      let (sum, size) = expiry_splits now s.sessions in
      close_snapshots-IsBudgeted (expired_at now s.sessions) none _ (record {
        exact = omega (arith, b.exact);
        within = b.within;
        slots = omega (arith, b.slots);
        typed = b.typed;
        typed_share = b.typed_share;
      })

  sweep-IsBudgeted :
      (m : Machine W) → IsBudgeted m.service → IsBudgeted (sweep_expired env m).1.service
  unfolding sweep_expired
  sweep-IsBudgeted m b = swept-IsBudgeted _ m.service _ b

  close-IsBudgeted : (m : Machine W) → IsBudgeted m.service → IsBudgeted (close env m).1.service
  unfolding close
  close-IsBudgeted m b = close_snapshots-IsBudgeted m.service.sessions none _ (
      release_all-IsHolding (session_bytes m.service.sessions) m.service.reservations
        (shut m.service)
        (record {
          exact = omega (arith, b.exact);
          within = b.within;
          slots = omega (arith, b.slots);
          typed = b.typed;
          typed_share = b.typed_share;
        }))

  perform-IsBudgeted :
      (o : Operation) (m : Machine W)
      → IsTypedOperation o
      → IsBudgeted m.service
      → IsBudgeted (perform env o m).service
  perform-IsBudgeted (reserve operation) m t b = reserve-IsBudgeted operation m.service b
  perform-IsBudgeted (commit operation id st) m t b = commit-IsBudgeted env operation id st m t b
  perform-IsBudgeted (give_up id) m t b = release-IsHolding 0 id m.service b
  perform-IsBudgeted sweep m t b = sweep-IsBudgeted m b
  perform-IsBudgeted shutdown m t b = close-IsBudgeted m b

  -- Over any sequence of reservations, commits, releases, expiry sweeps and shutdowns, of which any
  -- may be refused or fail: if the retained bytes are those of the reservations and the sessions,
  -- and they and the slots are within the limits, then so it is after them. The limits and the
  -- bytes of a session that is committed are non-negative int64 values.
  pub perform_all-IsBudgeted :
      (os : List Operation) (m : Machine W)
      → All IsTypedOperation os
      → IsBudgeted m.service
      → IsBudgeted (perform_all env os m).service
  unfolding perform_all
  perform_all-IsBudgeted [] m t b = b
  perform_all-IsBudgeted (o ∷ os) m t b =
      perform_all-IsBudgeted os (perform env o m) t.1 (perform-IsBudgeted o m t.0 b)
