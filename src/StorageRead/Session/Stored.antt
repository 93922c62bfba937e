-- ===== src/StorageRead/Session/Stored.antt =====
-- The session that CreateSession builds from the snapshot it has checked, and stores.
use go_bemu.Base.{
  ℕ, ◌<◌, ◌≡◌, ◌≢◌, refl, ap, subst, Bool, true, false, not, ◌||◌, Option, none, some, String,
  arith, or_parts, not_off, if◌then◌else◌, is_empty, ◌&&◌,
}
use go_bemu.Words.{half64, word64, lt64}
use go_bemu.Text.{Bytes}
use go_bemu.Maps.{lookup, lookup-put_self}
use go_bemu.Errors.{message}
use go_bemu.Exec.{Result, ok, err}
use go_bemu.StorageRead.Domain.{
  Err, ErrorCode, internal, resource_exhausted, Format, format_avro, CreateSessionRequest,
  SnapshotMetadata, Session,
}
use go_bemu.StorageRead.Contracts.{valid_resource_segment}
use go_bemu.StorageRead.Service.{SessionState, Service, Env, Machine, Config}
use go_bemu.StorageRead.Admission.{
  reserved, store_session, persisted, commit_checked, commit_refusal, commit_reserved_session,
}
use go_bemu.StorageRead.Requests.{
  same_format, validate_snapshot_metadata, fingerprinted, new_session_state,
}
use go_bemu.StorageRead.Session.{
  operation, discard, bounded, check_snapshot, stored_or_discarded, store_named, store_snapshot,
}

-- A guard that refuses with a text is off where the result is no error.
text_off :
    {A : Type 0} (b : Bool) (t : String) {r : Result String A} {a : A}
    → (if b then err t else r) ≡ ok a
    → (b ≡ false) × (r ≡ ok a)
text_off true t h = cc
text_off false t h = (refl, h)

-- Metadata that passes is the snapshot's with a fingerprint, without negative sizes, in the format
-- that was asked for.
pub record IsChecked (format : Format) (raw md : SnapshotMetadata) : Type 0 where
  pub counted : md.row_count ≡ raw.row_count
  pub measured : md.estimated_bytes ≡ raw.estimated_bytes
  pub serialized : md.schema.serialized ≡ raw.schema.serialized
  pub rows : md.row_count < half64
  pub retained : md.retained_bytes < half64
  pub same : same_format md.schema.format format ≡ true

-- The numbers that a snapshot reports are 64-bit words.
abbrev pub IsWordly : SnapshotMetadata → Type 0
IsWordly md = (md.row_count < word64) × (md.retained_bytes < word64)

nonneg : (a : ℕ) → a < word64 → lt64 a 0 ≡ false → a < half64
unfolding lt64
nonneg a h k = ground arith

validated :
    (valid_json : Bytes → Bool) (digest : Bytes → Bytes) (format : Format) (md : SnapshotMetadata)
    {checked : SnapshotMetadata}
    → IsWordly md
    → validate_snapshot_metadata valid_json digest format md ≡ ok checked
    → IsChecked format md checked
unfolding validate_snapshot_metadata
validated valid_json digest format md {checked} (hr, hb) h =
    let (a, h) =
      text_off (lt64 md.row_count 0 || lt64 md.estimated_bytes 0 || lt64 md.retained_bytes 0) _ h in
    let (f, h) = text_off (not (same_format md.schema.format format)) _ h in
    let (_, h) = text_off (is_empty md.schema.serialized) _ h in
    let (_, h) =
      text_off (same_format format format_avro && not (valid_json md.schema.serialized)) _ h in
    let (a, c) =
      or_parts (lt64 md.row_count 0 || lt64 md.estimated_bytes 0) (lt64 md.retained_bytes 0) a in
    let (a, _) = or_parts (lt64 md.row_count 0) (lt64 md.estimated_bytes 0) a in
    let e : fingerprinted digest md ≡ checked = cc in
    subst (IsChecked format md) e (record {
      counted = refl;
      measured = refl;
      serialized = refl;
      rows = nonneg _ hr a;
      retained = nonneg _ hb c;
      same = not_off _ f;
    })

module _ {W : Type 0} (env : Env W) where
  persisted_stored :
      (id bytes : ℕ) (st : SessionState) (s : Service) (o : Option Err × W) {m : Machine W}
      → persisted env id bytes st s o ≡ (ok tt, m)
      → lookup st.session.name m.service.sessions ≡ some st
  unfolding store_session
  persisted_stored id bytes st s (some e, w) h = cc
  persisted_stored id bytes st s (none, w) {m} h =
      let e : record { service = store_session id bytes st s; world = w } ≡ m = cc in
      subst (λ k. lookup st.session.name k.service.sessions ≡ some st) e
        (lookup-put_self st.session.name st s.sessions)

  checked_stored :
      (id : ℕ) (o : Option ℕ) (st : SessionState) (f : Option Err) (m : Machine W) {m' : Machine W}
      → (o ≡ none → f ≢ none)
      → commit_checked env id o st f m ≡ (ok tt, m')
      → lookup st.session.name m'.service.sessions ≡ some st
  checked_stored id none st (some x) m n h = cc
  checked_stored id none st none m n h = absurd (n refl refl)
  checked_stored id (some bytes) st (some x) m n h = cc
  checked_stored id (some bytes) st none m n h = persisted_stored id bytes st m.service _ h

  refusal_lost :
      (st : SessionState) (s : Service) (o : Option ℕ)
      → o ≡ none
      → commit_refusal operation st o s ≢ none
  unfolding commit_refusal
  refusal_lost st s none e h = ground arith
  refusal_lost st s (some bytes) e h = cc

  commit_stored :
      (id : ℕ) (st : SessionState) (m : Machine W) {m' : Machine W}
      → commit_reserved_session env operation id st m ≡ (ok tt, m')
      → lookup st.session.name m'.service.sessions ≡ some st
  unfolding commit_reserved_session
  commit_stored id st m h =
      checked_stored id (reserved id m.service.reservations) st _ m
        (refusal_lost st m.service (reserved id m.service.reservations)) h

  discard_fails :
      (A : Type 0) (code : ErrorCode) (e : Err) (snapshot : ℕ) (m : Machine W) {a : A}
      → (discard env {A = A} code e snapshot m).0 ≢ ok a
  unfolding discard
  discard_fails A code e snapshot m h = cc

  stored_ok :
      (st : SessionState) (r : Result Err (Unit {0}) × Machine W) {s : Session} {m' : Machine W}
      → stored_or_discarded env st r ≡ (ok s, m')
      → (r ≡ (ok tt, m')) × (st.session ≡ s)
  stored_ok st (ok tt, m) h = (cc, cc)
  stored_ok st (err e, m) h = absurd (discard_fails _ _ e st.snapshot m (ap (λ x. x.0) h))

  choose_bounded :
      (over : Bool) (snapshot : ℕ) (e : Err) (md : SnapshotMetadata) (m : Machine W)
      {x : SnapshotMetadata}
      → (if over then discard env resource_exhausted e snapshot m else (ok md, m)).0 ≡ ok x
      → ◌≡◌ {A = Result String SnapshotMetadata} (ok md) (ok x)
  choose_bounded true snapshot e md m h = absurd (discard_fails _ resource_exhausted e snapshot m h)
  choose_bounded false snapshot e md m h = cc

  -- What a session that store_snapshot returns is made of.
  abbrev pub Built : CreateSessionRequest → ℕ → ℕ → SnapshotMetadata → Session → Service → Type 0
  Built q count snapshot md s after =
      (config : Config) × (id : Bytes) × (now : ℕ) × (st : SessionState) × (st
        ≡ new_session_state env.digest config q count snapshot md id now)
      × (st.session ≡ s)
      × (lookup s.name after.sessions ≡ some st)

  choose_stored :
      (valid : Bool) (snapshot : ℕ) (text : String) (m : Machine W)
      (r : Result Err Session × Machine W) {s : Session} {m' : Machine W}
      → (if not valid then discard env internal (message text) snapshot m else r) ≡ (ok s, m')
      → r ≡ (ok s, m')
  choose_stored true snapshot text m r h = h
  choose_stored false snapshot text m r h =
      absurd (discard_fails _ _ _ snapshot m (ap (λ x. x.0) h))

  store_named-Built :
      (q : CreateSessionRequest) (count reservation snapshot : ℕ) (md : SnapshotMetadata)
      (id : Bytes) (m : Machine W) {s : Session} {m' : Machine W}
      → store_named env q count reservation snapshot md id m ≡ (ok s, m')
      → Built q count snapshot md s m'.service
  unfolding store_named
  store_named-Built q count reservation snapshot md id m {s} {m'} h =
      let (now, w) = env.now m.world in
      let st = new_session_state env.digest m.service.config q count snapshot md id now in
      let r = commit_reserved_session env operation reservation st (record m { world = w }) in
      let h =
        choose_stored (valid_resource_segment id) snapshot _ m (stored_or_discarded env st r) h in
      let (e, d) = stored_ok st r h in
      (
        m.service.config,
        id,
        now,
        st,
        refl,
        d,
        subst (λ x. lookup x.name m'.service.sessions ≡ some st) d
            (commit_stored reservation st (record m { world = w }) e),
      )

  pub store_snapshot-Built :
      (q : CreateSessionRequest) (count reservation snapshot : ℕ) (md : SnapshotMetadata)
      (m : Machine W) {s : Session} {m' : Machine W}
      → store_snapshot env q count reservation snapshot md m ≡ (ok s, m')
      → Built q count snapshot md s m'.service
  unfolding store_snapshot
  store_snapshot-Built q count reservation snapshot md m h =
      store_named-Built q count reservation snapshot md (env.new_id m.world).0 _ h

  bounded_ok :
      (snapshot : ℕ) (r : Result String SnapshotMetadata) (m : Machine W) {md : SnapshotMetadata}
      → (bounded env snapshot r m).0 ≡ ok md
      → r ≡ ok md
  bounded_ok snapshot (err text) m h = absurd (discard_fails _ internal _ snapshot m h)
  bounded_ok snapshot (ok md) m h =
      choose_bounded (lt64 m.service.config.max_snapshot_bytes md.retained_bytes) snapshot _ md m h

  pub check_snapshot-IsChecked :
      (format : Format) (snapshot : ℕ) (m : Machine W) {md : SnapshotMetadata}
      → IsWordly (env.metadata snapshot m.world)
      → (check_snapshot env format snapshot m).0 ≡ ok md
      → IsChecked format (env.metadata snapshot m.world) md
  unfolding check_snapshot
  check_snapshot-IsChecked format snapshot m t h =
      validated env.valid_json env.digest format (env.metadata snapshot m.world) t
        (bounded_ok snapshot _ m h)
