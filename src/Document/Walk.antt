-- ===== src/Document/Walk.antt =====
-- src/core/document/walk.rs: `walk_logical_chunks`, which hands the displayed bytes of a range to a
-- visitor, chunk by chunk. The visitor is a parameter that changes a state of its own. The walk over
-- the pieces in the range is that of `display_overlaps`; `max_read` is what
-- `max_contiguous_read_len` returns.
pub mod Flags
pub mod Sparse
pub mod Chunk
pub mod Reads
pub mod Loop
use hxedit.Prelude.{
  Bool, List, [], drop, false, if◌then◌else◌, leb, length, ltb, max, min, not, suc, take, true,
  zero, ℕ, ◌&&◌, ◌++◌, ◌+◌, ◌-◌, ◌==◌, ◌||◌, ◌∷◌,
}
use hxedit.Outcome.{HxResult, ok, ◌>>=◌}
use hxedit.Cells.{PieceSource, add, from_source, original}
use hxedit.CellMap.{is_nil}
use hxedit.ReplacementStore.{replacement_at}
use hxedit.ReplacementStore.Queries.{
  has_in_range, has_range_in_source_range, sparse_values_in_source_range,
}
use hxedit.Document.{
  Document, doc_len, has_replacements, has_tombstone_in_range, has_tombstones, is_tombstone,
  or_base, read_view,
}
use hxedit.Document.Overlaps.{Overlap, display_overlaps}

pub data WalkControl : Type 0 where
  continue stop : WalkControl

pub record WalkStats : Type 0 where
  pub pieces : ℕ
  pub chunks : ℕ
  pub fast_chunks : ℕ
  pub slow_chunks : ℕ

abbrev pub no_walk : WalkStats
no_walk = record { pieces = 0; chunks = 0; fast_chunks = 0; slow_chunks = 0 }

unfoldable pub raw_range : Document → ℕ → ℕ → HxResult (List ℕ)
raw_range d offset len =
    let clamped = min len (d.original_len - offset) in
    if leb d.original_len offset then ok [] else read_view d offset clamped

unfoldable pub read_chunk : Document → PieceSource → ℕ → ℕ → HxResult (List ℕ)
read_chunk d original offset len = raw_range d offset len
read_chunk d add offset len = ok (take len (drop offset d.pieces.add_buffer))

unfoldable pub overlay_flags : Document → PieceSource → ℕ → ℕ → Bool × Bool
overlay_flags d source source_offset len =
    let lo = from_source source source_offset in
    let hi = from_source source (source_offset + len - 1) in
    if len == 0 then (false, false) else (
      has_tombstones d && has_tombstone_in_range d lo hi,
      has_replacements d && has_in_range d.replacements lo hi,
    )

-- The loop over the replacements of single cells, from `cursor` on, and the bytes behind it.
unfoldable pub sparse_bytes : ℕ → List ℕ → ℕ → List (ℕ × ℕ) → List ℕ
sparse_bytes source_offset raw cursor [] = drop cursor raw
sparse_bytes source_offset raw cursor ((replacement_offset, v) ∷ replacements) =
    let idx = replacement_offset - source_offset in
    let rest = sparse_bytes source_offset raw (idx + 1) replacements in
    if ltb (length raw) idx
    then drop cursor raw
    else (if ltb cursor idx then take (idx - cursor) (drop cursor raw) else []) ++ v ∷ rest

-- The loop over every byte of the chunk.
unfoldable pub cell_bytes : Document → PieceSource → Bool → Bool → ℕ → List ℕ → List ℕ
cell_bytes d source need_tombstone_scan need_replacement_scan source_offset [] = []
cell_bytes d source need_tombstone_scan need_replacement_scan source_offset (base ∷ raw) =
    let id = from_source source source_offset in
    let rest =
      cell_bytes d source need_tombstone_scan need_replacement_scan (source_offset + 1) raw in
    if need_tombstone_scan && is_tombstone d id
    then rest
    else (if need_replacement_scan
        then or_base (replacement_at d.replacements id base) base
        else base)
      ∷ rest

-- What the visitor is given for a chunk that has been read, by the flags.
abbrev pub slow_bytes : Document → PieceSource → ℕ → List ℕ → Bool → Bool → List ℕ
slow_bytes d source source_offset raw need_tombstone_scan need_replacement_scan =
    let read_len = length raw in
    if need_replacement_scan
      && not need_tombstone_scan
      && not (
          need_replacement_scan
          && has_range_in_source_range d.replacements source source_offset read_len)
    then sparse_bytes source_offset raw 0
        (sparse_values_in_source_range d.replacements source source_offset read_len)
    else cell_bytes d source need_tombstone_scan need_replacement_scan source_offset raw

abbrev pub is_fast : Bool × Bool → Bool
is_fast flags = not flags.0 && not flags.1

unfoldable pub chunk_bytes : Document → PieceSource → ℕ → List ℕ → List ℕ
chunk_bytes d source source_offset raw =
    let flags = overlay_flags d source source_offset (length raw) in
    if is_fast flags then raw else slow_bytes d source source_offset raw flags.0 flags.1

abbrev pub counted : Bool → WalkStats → WalkStats
counted true s = record s { chunks = s.chunks + 1; fast_chunks = s.fast_chunks + 1 }
counted false s = record s { chunks = s.chunks + 1; slow_chunks = s.slow_chunks + 1 }

-- Where a walk stands: whether it goes on, the statistics and the visitor's state.
abbrev pub Progress : Type 0 → Type 0
Progress S = WalkControl × WalkStats × S

abbrev pub unless_stopped :
    {S : Type 0} → (WalkStats → S → HxResult (Progress S)) → Progress S → HxResult (Progress S)
unless_stopped next (stop, stats, s) = ok (stop, stats, s)
unless_stopped next (continue, stats, s) = next stats s

module _ {S : Type 0} (visit : List ℕ → S → HxResult (WalkControl × S)) (chunk_limit : ℕ)
    (d : Document) where
  -- A turn of the loop over one piece, once `raw` has been read.
  abbrev walk_chunks_turn :
      (ℕ → WalkStats → S → HxResult (Progress S))
      → PieceSource
      → ℕ
      → WalkStats
      → S
      → List ℕ
      → HxResult (Progress S)
  walk_chunks_turn next source source_offset stats s raw =
      let n = length raw in
      let stats' = counted (is_fast (overlay_flags d source source_offset n)) stats in
      if is_nil raw then ok (continue, stats, s) else (do
        r ← visit (chunk_bytes d source source_offset raw) s
        unless_stopped (next n) (r.0, stats', r.1))

  -- The `while remaining > 0` of one piece. Each turn reads a byte at least, so that `remaining` is
  -- fuel enough.
  unfoldable pub walk_chunks : ℕ → PieceSource → ℕ → ℕ → WalkStats → S → HxResult (Progress S)
  walk_chunks zero source source_offset remaining stats s = ok (continue, stats, s)
  walk_chunks (suc fuel) source source_offset remaining stats s =
      let read : HxResult (Progress S) = do
        raw ← read_chunk d source source_offset (min remaining chunk_limit)
        walk_chunks_turn (λ n. walk_chunks fuel source (source_offset + n) (remaining - n)) source
            source_offset stats s raw
      in if remaining == 0 then ok (continue, stats, s) else read

  -- The pieces in the range.
  unfoldable pub walk_pieces : List Overlap → WalkStats → S → HxResult (Progress S)
  walk_pieces [] stats s = ok (continue, stats, s)
  walk_pieces (o ∷ os) stats s = do
    r ← walk_chunks o.len o.source o.start o.len (record stats { pieces = stats.pieces + 1 }) s
    unless_stopped (walk_pieces os) r

  unfoldable pub walk_range : ℕ → ℕ → S → HxResult (Progress S)
  walk_range start end_inclusive s =
      let end = min end_inclusive (doc_len d - 1) + 1 in
      if doc_len d == 0 || ltb end_inclusive start || leb (doc_len d) start
      then ok (continue, no_walk, s)
      else walk_pieces (display_overlaps d start end) no_walk s

abbrev pub walk_chunk_limit : ℕ → ℕ → ℕ
walk_chunk_limit max_read requested = min (max requested 1) (max max_read 1)

unfoldable pub walk_logical_chunks :
    {S : Type 0}
    → (List ℕ → S → HxResult (WalkControl × S))
    → ℕ
    → ℕ
    → Document
    → ℕ
    → ℕ
    → S
    → HxResult (Progress S)
walk_logical_chunks visit max_read chunk_limit d start end_inclusive s =
    walk_range visit (walk_chunk_limit max_read chunk_limit) d start end_inclusive s
