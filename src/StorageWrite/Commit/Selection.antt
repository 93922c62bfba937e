-- ===== src/StorageWrite/Commit/Selection.antt =====
-- The validation of `BatchCommit` (internal/storagewrite/application/service.go): the streams that
-- a request names, in name order, or the errors that it returns.
use go_bemu.Base.{
  ℕ, Bool, true, false, not, ◌&&◌, ◌||◌, Option, none, some, List, [], ◌∷◌, String, is_empty,
  nat_eq, if◌then◌else◌,
}
use go_bemu.Words.{add64}
use go_bemu.Text.{text_lt, Bytes, text_eq}
use go_bemu.Maps.{lookup}
use go_bemu.Exec.{Result, ok, err}
use go_bemu.StorageWrite.Domain.{
  StreamError, StreamErrorCode, stream_not_found, invalid_stream_state, invalid_stream_type,
  stream_already_committed, is_active, is_pending, is_committed, is_finalized, is_appending,
  is_committing, is_idle, CommitGroup, CommitMember, CommitPhase, commit_prepared,
  commit_unresolved,
}
use go_bemu.StorageWrite.Names.{TableReference, table_eq, StreamName, parse_stream_name}
use go_bemu.StorageWrite.Service.{StreamEntry, Service}

abbrev pub stream_error : StreamErrorCode → Bytes → String → StreamError
stream_error code stream text = record { code = code; stream = stream; text = text }

-- namedState
abbrev pub Named : Type 0
Named = Bytes × StreamEntry

abbrev pub member : Bytes → List Bytes → Bool
member k [] = false
member k (j ∷ js) = text_eq j k || member k js

pub data Choice : Type 0 where
  problem : StreamError → Choice
  chosen : Named → Choice

-- lookup fails on a closed service, too.
abbrev pub choose_found : Bytes → Bool → Option StreamEntry → Choice
choose_found key true e = problem (stream_error stream_not_found key "stream not found")
choose_found key false none = problem (stream_error stream_not_found key "stream not found")
choose_found key false (some e) = chosen (key, e)

-- What is wrong with one name of the request; `seen` holds the canonical names before it.
unfoldable pub check_name : TableReference → List Bytes → StreamName → Option StreamError
check_name parent seen n =
    if member n.canonical seen
    then some (stream_error invalid_stream_state n.canonical "duplicate stream in commit request")
    else if n.is_default
    then some (stream_error invalid_stream_type n.canonical "default stream is not PENDING")
    else if not (table_eq n.table parent)
    then some (stream_error invalid_stream_state n.canonical "stream belongs to another table")
    else none

abbrev pub choose_checked : Option StreamError → Choice → Choice
choose_checked (some e) c = problem e
choose_checked none c = c

unfoldable pub choose_named : Service → TableReference → List Bytes → StreamName → Choice
choose_named s parent seen n =
    choose_checked (check_name parent seen n)
      (choose_found n.canonical s.closed (lookup n.canonical s.streams))

abbrev pub choose :
    Service → TableReference → List Bytes → Bytes → Result String StreamName → Choice
choose s parent seen key (err m) =
    problem (stream_error stream_not_found key "invalid stream resource")
choose s parent seen key (ok n) = choose_named s parent seen n

abbrev pub see : List Bytes → Result String StreamName → List Bytes
see seen (err m) = seen
see seen (ok n) = n.canonical ∷ seen

-- The loop over the request's names.
unfoldable pub choose_all : Service → TableReference → List Bytes → List Bytes → List Choice
choose_all s parent seen [] = []
choose_all s parent seen (key ∷ keys) =
    let n = parse_stream_name key in
    choose s parent seen key n ∷ choose_all s parent (see seen n) keys

abbrev pub problems : List Choice → List StreamError
problems [] = []
problems (problem e ∷ cs) = e ∷ problems cs
problems (chosen n ∷ cs) = problems cs

abbrev pub selected : List Choice → List Named
selected [] = []
selected (problem e ∷ cs) = selected cs
selected (chosen n ∷ cs) = n ∷ selected cs

-- sort.Slice by name; the names are distinct, so every sort gives this list.
unfoldable pub insert_named : Named → List Named → List Named
insert_named n [] = n ∷ []
insert_named n (m ∷ ms) =
    let rest = insert_named n ms in if text_lt m.0 n.0 then m ∷ rest else n ∷ m ∷ ms

unfoldable pub sort_named : List Named → List Named
sort_named [] = []
sort_named (n ∷ ns) = insert_named n (sort_named ns)

-- The `switch` over a locked stream, with the group ID that the streams before it brought: the
-- error, if any, and the group ID after it.
unfoldable pub check_member : Bytes → Named → Option StreamError × Bytes
check_member group (key, e) =
    if not (is_active e.cleanup_phase)
    then (some (stream_error stream_not_found key "stream was discarded"), group)
    else if not (is_pending e.stream.kind)
    then (some (stream_error invalid_stream_type key "stream is not PENDING"), group)
    else if is_committed e.stream.state
    then (some (stream_error stream_already_committed key "stream is already committed"), group)
    else if not (is_finalized e.stream.state)
    then (
      some (stream_error invalid_stream_state key "stream must be finalized before commit"),
      group,
    )
    else if is_appending e.operation
    then (some (stream_error invalid_stream_state key "stream has an unresolved append"), group)
    else if is_committing e.operation
    then (if is_empty group
        then (none, e.operation_token)
        else if text_eq group e.operation_token
        then (none, group)
        else (
          some
              (stream_error invalid_stream_state key "stream belongs to another unresolved commit"),
          group,
        ))
    else if is_idle e.operation
    then (none, group)
    else (
      some (stream_error invalid_stream_state key "stream has an invalid durable operation"),
      group,
    )

abbrev pub add_problem : Option StreamError → List StreamError → List StreamError
add_problem none es = es
add_problem (some e) es = e ∷ es

unfoldable pub check_members : Bytes → List Named → List StreamError × Bytes
unfolding check_member
check_members group [] = ([], group)
check_members group (n ∷ ns) =
    let (e, g) = check_member group n in
    let (es, last) = check_members g ns in (add_problem e es, last)

-- The first stream that is no member of the group to be retried.
unfoldable pub find_stranger : Bytes → List Named → Option StreamError
find_stranger group [] = none
find_stranger group ((key, e) ∷ ns) =
    if not (is_committing e.operation) || not (text_eq e.operation_token group)
    then some (
        stream_error invalid_stream_state key
          "commit retry must contain the exact unresolved stream set")
    else find_stranger group ns

abbrev pub total_rows : List Named → ℕ → ℕ
total_rows [] sum = sum
total_rows ((key, e) ∷ ns) sum = total_rows ns (add64 sum e.stream.row_count)

-- The members against the streams, index by index, and their sum against the group's.
unfoldable pub members_match : List CommitMember → List Named → ℕ → ℕ → Bool
members_match [] [] sum total = nat_eq sum total
members_match (m ∷ ms) ((key, e) ∷ ns) sum total =
    text_eq m.stream_name key
    && (nat_eq m.expected_row_count e.stream.row_count
        && members_match ms ns (add64 sum m.expected_row_count) total)
members_match _ _ sum total = false

-- commitGroupMatches, where the row counts are those of the streams in hand.
unfoldable pub commit_group_matches : CommitGroup → TableReference → List Named → Bool
unfolding members_match
commit_group_matches g parent ns =
    not (is_empty g.id)
    && (table_eq g.parent parent && members_match g.members ns 0 g.expected_row_count)

abbrev pub is_pending_commit : CommitPhase → Bool
is_pending_commit commit_prepared = true
is_pending_commit commit_unresolved = true
is_pending_commit _ = false
