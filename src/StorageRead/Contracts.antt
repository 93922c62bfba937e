-- ===== src/StorageRead/Contracts.antt =====
-- The rules of internal/storageread/application/contracts.go: how many streams a session gets, how
-- rows are cut into streams, and which requests and resource names are valid.
pub mod Partition
pub mod Negotiation
use go_bemu.Base.{
  ℕ, zero, suc, ◌+◌, ◌/◌, ◌%◌, Bool, true, false, not, ◌&&◌, ◌||◌, Option, none, some, List, [],
  ◌∷◌, ◌++◌, String, ltb, leb, nat_eq, length, is_empty, if◌then◌else◌,
}
use go_bemu.Words.{half32, lt32, lt64, add64, quot64, rem64, widen}
use go_bemu.Text.{Bytes, codes, text_eq, split}
use go_bemu.Numerals.{format_int}
use go_bemu.Exec.{Result, ok, err}
use go_bemu.StorageRead.Domain.{
  Format, format_unspecified, format_arrow, format_avro, Stream, SnapshotMetadata,
  CreateSessionRequest,
}

abbrev smaller32 : ℕ → ℕ → ℕ
smaller32 a b = if lt32 b a then b else a

-- `max(a, b)` on int32.
abbrev larger32 : ℕ → ℕ → ℕ
larger32 a b = if lt32 a b then b else a

-- The count between the request's two advisory bounds and the service's limit and default.
unfoldable pub negotiate_stream_count : ℕ → ℕ → ℕ → ℕ → Result String ℕ
negotiate_stream_count max_streams default_count maximum preferred =
    if lt32 maximum 0 || lt32 preferred 0
    then err "stream counts must not be negative"
    else if lt32 0 maximum && lt32 maximum preferred
    then err "preferred minimum stream count exceeds maximum"
    else let upper = if lt32 0 maximum && lt32 maximum max_streams then maximum else max_streams in
      let by_maximum = if nat_eq maximum 0 then default_count else upper in
      let chosen = if lt32 0 preferred then larger32 preferred default_count else by_maximum in
      ok (smaller32 chosen upper)

-- fmt.Sprintf("%s/streams/%d", sessionName, index)
abbrev pub stream_name : Bytes → ℕ → Bytes
stream_name session index = session ++ codes "/streams/" ++ format_int index

-- One turn: the stream from `start` with its share of the remainder.
unfoldable pub stream_at : Bytes → ℕ → ℕ → ℕ → ℕ → Stream
stream_at session base remainder index start = record {
  name = stream_name session index;
  start_offset = start;
  end_offset = add64 start (if lt64 index remainder then add64 base 1 else base);
}

-- The loop with `left` turns to go.
unfoldable pub partition_from : ℕ → Bytes → ℕ → ℕ → ℕ → ℕ → List Stream
partition_from zero session base remainder index start = []
partition_from (suc left) session base remainder index start =
    let s = stream_at session base remainder index start in
    s ∷ partition_from left session base remainder (suc index) s.end_offset

-- How often `for index := int32(0); index < count; index++` turns.
abbrev pub turns : ℕ → ℕ
turns count = if ltb count half32 then count else 0

unfoldable pub partition_streams : Bytes → ℕ → ℕ → List Stream
partition_streams session rows count =
    partition_from (turns count) session (quot64 rows (widen count)) (rem64 rows (widen count)) 0 0

-- The code tests runes. A byte from 0x80 on never gives one that it forbids.
abbrev pub forbidden : ℕ → Bool
forbidden c = nat_eq c b'/' || nat_eq c b'\\' || leb c 0x20 || nat_eq c 0x7f

abbrev pub allowed : Bytes → Bool
allowed [] = true
allowed (c ∷ s) = if forbidden c then false else allowed s

unfoldable pub valid_resource_segment : Bytes → Bool
valid_resource_segment s = not (is_empty s) && leb (length s) 256 && allowed s

unfoldable pub valid_parent_parts : List Bytes → Bool
valid_parent_parts (p0 ∷ p1 ∷ []) = text_eq p0 (codes "projects") && valid_resource_segment p1
valid_parent_parts _ = false

unfoldable pub valid_parent : Bytes → Bool
valid_parent s = valid_parent_parts (split s)

unfoldable pub valid_table_parts : List Bytes → Bool
valid_table_parts (p0 ∷ p1 ∷ p2 ∷ p3 ∷ p4 ∷ p5 ∷ []) =
    text_eq p0 (codes "projects")
    && valid_resource_segment p1
    && text_eq p2 (codes "datasets")
    && valid_resource_segment p3
    && text_eq p4 (codes "tables")
    && valid_resource_segment p5
valid_table_parts _ = false

unfoldable pub valid_table : Bytes → Bool
valid_table s = valid_table_parts (split s)
