-- ===== src/StorageRead/Contracts/Partition.antt =====
-- partitionStreams: the streams of a session cut the rows of its snapshot evenly.
use go_bemu.Base.{
  ℕ, zero, suc, ◌+◌, ◌-◌, ◌*◌, ◌/◌, ◌%◌, ◌≤◌, ◌<◌, ◌≡◌, refl, sym, ap, ◌⊎◌, List, [], ◌∷◌, ltb,
  lt→ltb, subst, arith, length, All, if◌then◌else◌,
}
use native.Mathlib.Nat.{zero-mul, suc-mul, mod-lt, div-add-mod}
use go_bemu.Words.{half64, half32, add64_small, lt64_small, quot64_small, rem64_small, widen_small}
use go_bemu.Text.{Bytes}
use go_bemu.StorageRead.Domain.{Stream}
use go_bemu.StorageRead.Contracts.{stream_at, partition_from, partition_streams}

-- The ranges of the streams follow each other without gap or overlap from `a` to `b`.
abbrev pub Tiles : ℕ → List Stream → ℕ → Type 0
Tiles a [] b = a ≡ b
Tiles a (s ∷ ss) b = (s.start_offset ≡ a) × (a ≤ s.end_offset) × Tiles s.end_offset ss b

-- A stream of `base` rows or one more.
abbrev pub IsShare : ℕ → Stream → Type 0
IsShare base s =
    (s.end_offset ≡ s.start_offset + base) ⊎ (s.end_offset ≡ s.start_offset + (base + 1))

pub record IsPartition (rows base count : ℕ) (ss : List Stream) : Type 0 where
  pub tiles : Tiles 0 ss rows
  pub size : length ss ≡ count
  pub shares : All (IsShare base) ss

length-partition_from :
    (left : ℕ) (session : Bytes) (base remainder index start : ℕ)
    → length (partition_from left session base remainder index start) ≡ left
unfolding partition_from
length-partition_from zero session base remainder index start = refl
length-partition_from (suc left) session base remainder index start =
    ap suc (length-partition_from left session base remainder (suc index) _)

end_offset-stream_at :
    (session : Bytes) (base remainder index start : ℕ)
    → index < half64
    → remainder < half64
    → start + base < half64
    → (stream_at session base remainder index start).end_offset
      ≡ start + (base + (if ltb index remainder then 1 else 0))
unfolding stream_at
end_offset-stream_at session base remainder index start hi hr hs = ground (
  arith,
  lt64_small index remainder,
  add64_small base 1,
  add64_small start base,
  add64_small start (base + 1),
)

-- From `start` on, `left` streams take `left` shares and what is left of the remainder.
partition_from-Tiles :
    (left : ℕ) (session : Bytes) (base remainder index start rows : ℕ)
    → index + left < half64
    → remainder ≤ index + left
    → start + (left * base + (remainder - index)) ≡ rows
    → rows < half64
    → Tiles start (partition_from left session base remainder index start) rows
      × All (IsShare base) (partition_from left session base remainder index start)
unfolding partition_from stream_at
partition_from-Tiles zero session base remainder index start rows hi hr e h =
    (omega (arith, zero-mul base), tt)
partition_from-Tiles (suc left) session base remainder index start rows hi hr e h =
    let s = stream_at session base remainder index start in
    let end_eq =
      end_offset-stream_at session base remainder index start (omega arith) (omega arith)
        (omega (arith, suc-mul left base)) in
    let rest =
      partition_from-Tiles left session base remainder (suc index) s.end_offset rows (omega arith)
        (omega arith) (ground (arith, end_eq, suc-mul left base)) h in
    ((refl, ground (arith, end_eq), rest.0), (ground (arith, end_eq), rest.1))

-- Within these bounds the int64 and int32 arithmetic is that of numbers.
partition_streams-eq :
    (session : Bytes) (rows count : ℕ)
    → rows < half64
    → count < half32
    → partition_streams session rows count
      ≡ partition_from count session (rows / count) (rows % count) 0 0
unfolding partition_streams
partition_streams-eq session rows count hr hm =
    rw
      (
        widen_small count hm,
        quot64_small rows count hr (omega arith),
        rem64_small rows count hr (omega arith),
        lt→ltb count half32 hm,
      )
      refl

-- For a non-negative int64 of rows and a positive int32 `count`, the streams of a session tile its rows from 0 to the end in order,
-- there are `count` of them, and each has the quotient of rows or one row more.
pub partition_streams-IsPartition :
    (session : Bytes) (rows count : ℕ)
    → rows < half64
    → 0 < count
    → count < half32
    → IsPartition rows (rows / count) count (partition_streams session rows count)
partition_streams-IsPartition session rows count hr hc hm =
    let (tiles, shares) =
      partition_from-Tiles count session (rows / count) (rows % count) 0 0 rows (omega arith)
        (omega (arith, mod-lt rows hc)) (ground (arith, div-add-mod rows count)) hr in
    subst (IsPartition rows (rows / count) count)
      (sym (partition_streams-eq session rows count hr hm))
      (record {
        tiles = tiles;
        size = length-partition_from count session (rows / count) (rows % count) 0 0;
        shares = shares;
      })
