-- ===== src/StorageRead/Session/Accepted.antt =====
-- A session that is created is what the request asked for, and is stored.
use go_bemu.Base.{
  ℕ, ◌/◌, ◌≤◌, ◌<◌, ◌≡◌, refl, sym, ap, ◌∙◌, subst, true, Option, none, some, List, String, arith,
}
use go_bemu.Words.{half32, word32}
use go_bemu.Maps.{lookup}
use go_bemu.Exec.{Result, ok, err, >>=-eq-ok}
use go_bemu.StorageRead.Domain.{Err, CreateSessionRequest, SnapshotMetadata, Session}
use go_bemu.StorageRead.Contracts.{negotiate_stream_count}
use go_bemu.StorageRead.Contracts.Partition.{IsPartition, partition_streams-IsPartition}
use go_bemu.StorageRead.Contracts.Negotiation.{IsNegotiated, negotiate-IsNegotiated}
use go_bemu.StorageRead.Service.{SessionState, Service, Env, Machine}
use go_bemu.StorageRead.Admission.{Reservation}
use go_bemu.StorageRead.Lifecycle.{Operation, perform_all}
use go_bemu.StorageRead.Requests.{
  same_format, materialize_request, validate_create_request, new_session_state,
}
use go_bemu.StorageRead.Session.{
  materialize_snapshot, materialized, check_snapshot, store_snapshot, fill_reservation,
  release_unless_committed, admitted_session, reserve_live, negotiated_session, checked_session,
  create_session,
}
use go_bemu.StorageRead.Session.Stored.{
  IsChecked, IsWordly, Built, store_snapshot-Built, check_snapshot-IsChecked,
}

-- The world in which CreateSession reads the metadata of its snapshot: after the snapshot is made, and
-- after the operations of other callers in the meantime.
abbrev pub world_at_metadata :
    {W : Type 0} → Env W → List Operation → CreateSessionRequest → Machine W → W
world_at_metadata env others q m =
    (perform_all env others (record {
      service = (reserve_live (env.context_error m.world) m.service).1;
      world = (env.materialize (materialize_request q) m.world).1;
    })).world

-- A stored session: it answers the request, its streams cut all rows of the snapshot that was made
-- for it, and the registry has it, with that snapshot, under its name.
pub record IsCreated {W : Type 0} (env : Env W) (others : List Operation) (q : CreateSessionRequest)
    (before : Machine W) (s : Session) (after : Service) : Type 0 where
  pub snapshot : ℕ
  pub made : (env.materialize (materialize_request q) before.world).0 ≡ ok (some snapshot)
  pub reported : SnapshotMetadata
  pub reads : reported ≡ env.metadata snapshot (world_at_metadata env others q before)
  pub table : s.table ≡ q.table
  pub format : s.format ≡ q.format
  pub projection : s.selected_fields ≡ q.selected_fields
  pub restriction : s.row_restriction ≡ q.row_restriction
  pub schema : same_format s.schema.format q.format ≡ true
  pub serialized : s.schema.serialized ≡ reported.schema.serialized
  pub rows : s.estimated_row_count ≡ reported.row_count
  pub bytes : s.estimated_bytes_scanned ≡ reported.estimated_bytes
  pub count : ℕ
  pub negotiated :
      IsNegotiated before.service.config.max_streams q.max_stream_count q.preferred_min_stream_count
        count
  pub partition : IsPartition reported.row_count (reported.row_count / count) count s.streams
  pub state : SessionState
  pub registered : lookup s.name after.sessions ≡ some state
  pub served : state.session ≡ s
  pub held : state.snapshot ≡ snapshot

module _ {W : Type 0} (env : Env W) where
  released_ok :
      (id : ℕ) (r : Result Err Session × Machine W) {s : Session} {m' : Machine W}
      → release_unless_committed env id r ≡ (ok s, m')
      → r ≡ (ok s, m')
  released_ok id (ok x, m) h = h
  released_ok id (err e, m) h = cc

  materialized_ok :
      (r : Result Err (Option ℕ)) (m : Machine W) {snapshot : ℕ} {m' : Machine W}
      → materialized env r m ≡ (ok snapshot, m')
      → (r ≡ ok (some snapshot)) × (m ≡ m')
  materialized_ok (err e) m h = cc
  materialized_ok (ok none) m h = cc
  materialized_ok (ok (some x)) m h = (cc, cc)

  -- What the snapshot is that a session was made from, and the session.
  record IsMade (others : List Operation) (q : CreateSessionRequest) (count : ℕ) (m : Machine W)
      (s : Session) (after : Service) : Type 0 where
    snapshot : ℕ
    md : SnapshotMetadata
    made : (env.materialize (materialize_request q) m.world).0 ≡ ok (some snapshot)
    checked :
        IsChecked q.format
          (env.metadata snapshot
            (perform_all env others
              (record m { world = (env.materialize (materialize_request q) m.world).1 })).world)
          md
    built : Built env q count snapshot md s after

  module _ (typed : (snapshot : ℕ) (w : W) → IsWordly (env.metadata snapshot w)) where
    fill-IsMade :
        (others : List Operation) (q : CreateSessionRequest) (count reservation : ℕ) (m : Machine W)
        {s : Session} {m' : Machine W}
        → fill_reservation env others q count reservation m ≡ (ok s, m')
        → IsMade others q count m s m'.service
    unfolding materialize_snapshot
    fill-IsMade others q count reservation m h =
        let (snapshot, g, h) = >>=-eq-ok _ (materialize_snapshot env others q) m h in
        let m1 = (materialize_snapshot env others q m).1 in
        let (made, same) =
          materialized_ok (env.materialize (materialize_request q) m.world).0 _ (λ i. (g i, m1)) in
        let (md, e, h) =
          >>=-eq-ok (store_snapshot env q count reservation snapshot)
            (check_snapshot env q.format snapshot) m1 h in
        record {
          snapshot = snapshot;
          md = md;
          made = made;
          checked =
              subst (λ (x : Machine W). IsChecked q.format (env.metadata snapshot x.world) md)
                (sym same)
                (check_snapshot-IsChecked env q.format snapshot m1 (typed snapshot m1.world) e);
          built =
              store_snapshot-Built env q count reservation snapshot md
                (check_snapshot env q.format snapshot m1).1 h;
        }

    admitted-IsMade :
        (others : List Operation) (q : CreateSessionRequest) (count : ℕ)
        (r : Result Err Reservation × Service) (w : W) {s : Session} {m' : Machine W}
        → admitted_session env others q count r w ≡ (ok s, m')
        → IsMade others q count (record { service = r.1; world = w }) s m'.service
    admitted-IsMade others q count (err e, s) w h = cc
    admitted-IsMade others q count (ok (id, bytes), s) w h =
        fill-IsMade others q count id (record { service = s; world = w })
          (released_ok id
            (fill_reservation env others q count id (record { service = s; world = w })) h)

    IsMade-IsCreated :
        (others : List Operation) (q : CreateSessionRequest) (count : ℕ) (m : Machine W)
        (s : Session) (after : Service)
        → IsNegotiated m.service.config.max_streams q.max_stream_count q.preferred_min_stream_count
            count
        → count < half32
        → IsMade others q count
            (record m { service = (reserve_live (env.context_error m.world) m.service).1 })
            s
            after
        → IsCreated env others q m s after
    unfolding new_session_state
    IsMade-IsCreated others q count m s after n hc k =
        let (c, id, now, st, e, d, l) = k.built in
        let raw = env.metadata k.snapshot (world_at_metadata env others q m) in
        let md = k.md in
        let st' = new_session_state env.digest c q count k.snapshot md id now in
        subst (λ x. IsCreated env others q m x after) (sym (ap (λ x. x.session) e) ∙ d)
          (record {
            snapshot = k.snapshot;
            made = k.made;
            reported = raw;
            reads = refl;
            table = refl;
            format = refl;
            projection = refl;
            restriction = refl;
            schema = k.checked.same;
            serialized = k.checked.serialized;
            rows = k.checked.counted;
            bytes = k.checked.measured;
            count = count;
            negotiated = n;
            partition =
                subst (λ x. IsPartition x (x / count) count st'.session.streams) k.checked.counted
                  (partition_streams-IsPartition st'.session.name md.row_count count k.checked.rows
                    n.positive hc);
            state = st;
            registered =
                subst (λ x. lookup x.name after.sessions ≡ some st)
                  (sym (sym (ap (λ x. x.session) e) ∙ d)) l;
            served = ap (λ x. x.session) e;
            held = ap (λ x. x.snapshot) e;
          })

    negotiated-IsCreated :
        (others : List Operation) (q : CreateSessionRequest) (m : Machine W) (r : Result String ℕ)
        {s : Session} {m' : Machine W}
        → ((count : ℕ)
            → r ≡ ok count
            → IsNegotiated m.service.config.max_streams q.max_stream_count
                q.preferred_min_stream_count count
              × (count < half32))
        → negotiated_session env others q r m ≡ (ok s, m')
        → IsCreated env others q m s m'.service
    negotiated-IsCreated others q m (err text) n h = cc
    negotiated-IsCreated others q m (ok count) {s} {m'} n h =
        let (g, l) = n count refl in
        IsMade-IsCreated others q count m s m'.service g l (
          admitted-IsMade others q count (reserve_live (env.context_error m.world) m.service)
            m.world h)

    checked-IsCreated :
        (others : List Operation) (q : CreateSessionRequest) (m : Machine W)
        (r : Result String (Unit {0})) {s : Session} {m' : Machine W}
        → m.service.config.max_streams < half32
        → 0 < m.service.config.default_stream_count
        → m.service.config.default_stream_count ≤ m.service.config.max_streams
        → q.max_stream_count < word32
        → q.preferred_min_stream_count < word32
        → checked_session env others q r m ≡ (ok s, m')
        → IsCreated env others q m s m'.service
    checked-IsCreated others q m (err text) hs hd hl hm hp h = cc
    checked-IsCreated others q m (ok _) hs hd hl hm hp h =
        let c = m.service.config in
        negotiated-IsCreated others q m
          (negotiate_stream_count c.max_streams c.default_stream_count q.max_stream_count
            q.preferred_min_stream_count)
          (λ count e.
            let n =
              negotiate-IsNegotiated c.max_streams c.default_stream_count q.max_stream_count
                q.preferred_min_stream_count count hs hd hl hm hp e in
            (n, omega (arith, n.limited)))
          h

    -- Whatever other callers do while the snapshot is made, a session that CreateSession returns has the
    -- table, the format, the fields and the restriction of the request. It is made from the snapshot
    -- that the materializer returned for the request: its schema is that snapshot's, in the format asked
    -- for, and its streams tile the rows that the snapshot reports, from 0 to the end, in equal shares
    -- but for one row and in the number that negotiation allows; row count and size of the session are
    -- those reported. The service has it, with the snapshot, under its name. The stream limits of the
    -- configuration are positive int32 values in order, and the counts of the request and the sizes
    -- that a snapshot reports are machine words.
    pub create_session-IsCreated :
        (others : List Operation) (q : CreateSessionRequest) (m : Machine W) {s : Session}
        {m' : Machine W}
        → m.service.config.max_streams < half32
        → 0 < m.service.config.default_stream_count
        → m.service.config.default_stream_count ≤ m.service.config.max_streams
        → q.max_stream_count < word32
        → q.preferred_min_stream_count < word32
        → create_session env others q m ≡ (ok s, m')
        → IsCreated env others q m s m'.service
    unfolding create_session
    create_session-IsCreated others q m hs hd hl hm hp h =
        checked-IsCreated others q m (validate_create_request env.trim_space q) hs hd hl hm hp h
