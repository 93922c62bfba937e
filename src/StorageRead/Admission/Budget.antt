-- ===== src/StorageRead/Admission/Budget.antt =====
-- The admission invariant: the retained bytes are those of the reservations and the sessions, and
-- neither they nor the session slots exceed the configured limits.
use go_bemu.Base.{
  ℕ, suc, ◌+◌, ◌-◌, ◌≤◌, ◌<◌, ◌≡◌, refl, subst, false, Option, none, some, [], ◌∷◌, length, arith,
  Option-cases, inl, inr, if◌then◌else◌, String,
}
use go_bemu.Words.{half64, lt64, sub64, add64, add64_small}
use go_bemu.Text.{Bytes}
use go_bemu.Maps.{Map, lookup, put}
use go_bemu.StorageRead.Domain.{Err}
use go_bemu.StorageRead.Service.{SessionState, Reservations, Service, Env, Machine}
use go_bemu.StorageRead.Admission.{
  reserved, drop_reservation, rejection, add_reservation, reserve_session, release_reservation,
  commit_refusal, store_session, persisted, commit_checked, commit_reserved_session,
}

abbrev pub reserved_bytes : Reservations → ℕ
reserved_bytes [] = 0
reserved_bytes ((id, bytes) ∷ rs) = bytes + reserved_bytes rs

abbrev pub session_bytes : Map SessionState → ℕ
session_bytes [] = 0
session_bytes ((k, st) ∷ m) = st.retained_bytes + session_bytes m

-- `pending` bytes belong to sessions that have left the registry and are being closed.
pub record IsHolding (pending : ℕ) (s : Service) : Type 0 where
  pub exact :
      s.retained_snapshot_bytes
      ≡ pending + (reserved_bytes s.reservations + session_bytes s.sessions)
  pub within : s.retained_snapshot_bytes ≤ s.config.max_total_snapshot_bytes
  pub slots : length s.sessions + length s.reservations ≤ s.config.max_sessions
  pub typed : s.config.max_total_snapshot_bytes < half64
  pub typed_share : s.config.max_snapshot_bytes < half64

abbrev pub IsBudgeted : Service → Type 0
IsBudgeted = IsHolding 0

reserved-drop :
    (id bytes : ℕ) (rs : Reservations)
    → reserved id rs ≡ some bytes
    → (reserved_bytes rs ≡ bytes + reserved_bytes (drop_reservation id rs))
      × (length rs ≡ suc (length (drop_reservation id rs)))
unfolding reserved drop_reservation
reserved-drop id bytes [] h = cc
reserved-drop id bytes ((i, b) ∷ rs) h = ground (arith, reserved-drop id bytes rs)

new_session :
    (k : Bytes) (st : SessionState) (m : Map SessionState)
    → lookup k m ≡ none
    → (session_bytes (put k st m) ≡ session_bytes m + st.retained_bytes)
      × (length (put k st m) ≡ suc (length m))
unfolding lookup put
new_session k st [] h = (omega arith, refl)
new_session k st ((j, v) ∷ m) h = ground (arith, new_session k st m)

pub room :
    (s : Service)
    → s.config.max_snapshot_bytes < half64
    → s.config.max_total_snapshot_bytes < half64
    → s.retained_snapshot_bytes ≤ s.config.max_total_snapshot_bytes
    → rejection s ≡ none
    → (length s.sessions + length s.reservations < s.config.max_sessions)
      × (s.retained_snapshot_bytes + s.config.max_snapshot_bytes
          ≤ s.config.max_total_snapshot_bytes)
unfolding rejection lt64 sub64
room s hm ht hw h = ground arith

-- A reservation is granted only if the budget and the slots have room for it, and then fills them.
pub reserve-IsBudgeted :
    (operation : String) (s : Service) → IsBudgeted s → IsBudgeted (reserve_session operation s).1
unfolding reserve_session add_reservation
reserve-IsBudgeted operation s b = elim (Option-cases (rejection s)) [
  | inl e ↦
      let (slots, bytes) = room s b.typed_share b.typed b.within e in
      let sum =
        add64_small s.retained_snapshot_bytes s.config.max_snapshot_bytes
          (omega (arith, b.typed, b.typed_share)) in
      rw e (record {
        exact = ground (arith, sum, b.exact);
        within = ground (arith, sum);
        slots = omega arith;
        typed = b.typed;
        typed_share = b.typed_share;
      })
  | inr (x, e) ↦ rw e b
]

pub give_back :
    (retained bytes : ℕ)
    → retained < half64
    → bytes ≤ retained
    → (if lt64 retained bytes then 0 else sub64 retained bytes) ≡ retained - bytes
unfolding lt64 sub64
give_back retained bytes hr hb = ground arith

-- A released reservation gives its bytes and its slot back.
pub release-IsHolding :
    (pending id : ℕ) (s : Service)
    → IsHolding pending s
    → IsHolding pending (release_reservation id s)
unfolding release_reservation
release-IsHolding pending id s b = elim (Option-cases (reserved id s.reservations)) [
  | inl e ↦ rw e b
  | inr (bytes, e) ↦
      let (sum, size) = reserved-drop id bytes s.reservations e in
      let enough : bytes ≤ s.retained_snapshot_bytes = omega (arith, b.exact) in
      rw e (record {
        exact =
            ground (arith, give_back s.retained_snapshot_bytes bytes, b.exact, b.within, b.typed);
        within = ground (arith, give_back s.retained_snapshot_bytes bytes, b.within, b.typed);
        slots = omega (arith, b.slots);
        typed = b.typed;
        typed_share = b.typed_share;
      })
]

-- A session may be stored if it fits its reservation and its name is new.
admissible :
    (operation : String) (st : SessionState) (bytes : ℕ) (s : Service)
    → commit_refusal operation st (some bytes) s ≡ none
    → (lt64 bytes st.retained_bytes ≡ false) × (lookup st.session.name s.sessions ≡ none)
unfolding commit_refusal
admissible operation st bytes s h = ground arith

store-IsBudgeted :
    (operation : String) (id bytes : ℕ) (st : SessionState) (s : Service)
    → st.retained_bytes < half64
    → reserved id s.reservations ≡ some bytes
    → commit_refusal operation st (some bytes) s ≡ none
    → IsBudgeted s
    → IsBudgeted (store_session id bytes st s)
unfolding store_session lt64 sub64 add64
store-IsBudgeted operation id bytes st s ht e h b =
    let (fits, fresh) = admissible operation st bytes s h in
    let (sum, size) = reserved-drop id bytes s.reservations e in
    let (more, slot) = new_session st.session.name st s.sessions fresh in
    record {
      exact = ground (arith, b.exact, b.within, b.typed);
      within = ground (arith, b.exact, b.within, b.typed);
      slots = omega (arith, b.slots);
      typed = b.typed;
      typed_share = b.typed_share;
    }

module _ {W : Type 0} (env : Env W) where
  persisted-IsBudgeted :
      (id bytes : ℕ) (st : SessionState) (s : Service) (o : Option Err × W)
      → IsBudgeted s
      → IsBudgeted (store_session id bytes st s)
      → IsBudgeted (persisted env id bytes st s o).1.service
  persisted-IsBudgeted id bytes st s (some e, w) b h = b
  persisted-IsBudgeted id bytes st s (none, w) b h = h

  checked-IsBudgeted :
      (id : ℕ) (o : Option ℕ) (st : SessionState) (f : Option Err) (m : Machine W)
      → IsBudgeted m.service
      → ((bytes : ℕ) → o ≡ some bytes → f ≡ none → IsBudgeted (store_session id bytes st m.service))
      → IsBudgeted (commit_checked env id o st f m).1.service
  checked-IsBudgeted id none st (some e) m b h = b
  checked-IsBudgeted id none st none m b h = b
  checked-IsBudgeted id (some bytes) st (some e) m b h = b
  checked-IsBudgeted id (some bytes) st none m b h =
      persisted-IsBudgeted id bytes st m.service (env.create_session st.stored m.world) b
        (h bytes refl refl)

  -- Whether the session is stored or refused, and on a failure of the repository.
  pub commit-IsBudgeted :
      (operation : String) (id : ℕ) (st : SessionState) (m : Machine W)
      → st.retained_bytes < half64
      → IsBudgeted m.service
      → IsBudgeted (commit_reserved_session env operation id st m).1.service
  unfolding commit_reserved_session
  commit-IsBudgeted operation id st m ht b =
      checked-IsBudgeted id (reserved id m.service.reservations) st _ m b λ bytes e h.
        store-IsBudgeted operation id bytes st m.service ht e
          (subst (λ o. commit_refusal operation st o m.service ≡ none) e h) b
