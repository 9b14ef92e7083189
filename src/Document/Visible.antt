-- ===== src/Document/Visible.antt =====
-- src/core/document/walk.rs: `walk_visible_cells`, which hands the displayed cells of a range to a
-- visitor, deleted ones included, and `row_bytes` and `read_logical_range` of src/core/document/read.rs,
-- which draw from it.
-- The visitor is a parameter that leaves the document alone; `max_read` is what
-- `max_contiguous_read_len` returns.
pub mod Collected
pub mod Row
use hxedit.Prelude.{
  Bool, List, [], if◌then◌else◌, leb, length, ltb, map, max, min, not, suc, u64_max, u64_mod, zero,
  ℕ, ◌%◌, ◌&&◌, ◌++◌, ◌+◌, ◌-◌, ◌==◌, ◌||◌, ◌∷◌,
}
use hxedit.Outcome.{HxResult, ok, ◌>>=◌}
use hxedit.Cells.{CellId, PieceSource, from_source}
use hxedit.CellMap.{is_nil}
use hxedit.ReplacementStore.{replacement_at}
use hxedit.Document.{ByteSlot, Document, deleted, doc_len, empty, is_tombstone, or_base, present}
use hxedit.Document.Overlaps.{Overlap, display_overlaps}
use hxedit.Document.Walk.{
  Progress, WalkControl, WalkStats, continue, counted, is_fast, no_walk, overlay_flags, read_chunk,
  unless_stopped, walk_chunk_limit,
}

pub record VisibleCell : Type 0 where
  pub id : CellId
  pub display_offset : ℕ
  pub byte : ℕ
  pub deleted : Bool

pub record VisibleCellChunk : Type 0 where
  pub display_start : ℕ
  pub raw_bytes : List ℕ
  pub cells : List VisibleCell
  pub fast_path : Bool

-- The loop that fills `cells`.
unfoldable pub visible_cells :
    Document → PieceSource → Bool → Bool → ℕ → ℕ → List ℕ → List VisibleCell
visible_cells d source need_tombstone_scan need_replacement_scan source_offset display_offset [] =
    []
visible_cells d source need_tombstone_scan need_replacement_scan source_offset display_offset
      (base ∷ raw) =
    let id = from_source source source_offset in
    let deleted = need_tombstone_scan && is_tombstone d id in
    let byte =
      if not deleted && need_replacement_scan
      then or_base (replacement_at d.replacements id base) base
      else base in
    record { id = id; display_offset = display_offset; byte = byte; deleted = deleted }
    ∷ visible_cells d source need_tombstone_scan need_replacement_scan (source_offset + 1)
        (display_offset + 1) raw

unfoldable pub cell_chunk : Document → PieceSource → ℕ → ℕ → List ℕ → VisibleCellChunk
cell_chunk d source source_offset display_start raw =
    let flags = overlay_flags d source source_offset (length raw) in
    record {
      display_start = display_start;
      raw_bytes = raw;
      cells = visible_cells d source flags.0 flags.1 source_offset display_start raw;
      fast_path = is_fast flags;
    }

module _ {S : Type 0} (visit : VisibleCellChunk → S → HxResult (WalkControl × S)) (chunk_limit : ℕ)
    (d : Document) where
  -- A turn of the loop over one piece, once `raw` has been read.
  abbrev walk_cells_turn :
      (ℕ → WalkStats → S → HxResult (Progress S))
      → PieceSource
      → ℕ
      → ℕ
      → WalkStats
      → S
      → List ℕ
      → HxResult (Progress S)
  walk_cells_turn next source source_offset display_start stats s raw =
      let n = length raw in
      let stats' = counted (is_fast (overlay_flags d source source_offset n)) stats in
      if is_nil raw then ok (continue, stats, s) else (do
        r ← visit (cell_chunk d source source_offset display_start raw) s
        unless_stopped (next n) (r.0, stats', r.1))

  -- Each turn reads a byte at least, so that `remaining` is fuel enough.
  unfoldable pub walk_cells : ℕ → PieceSource → ℕ → ℕ → ℕ → WalkStats → S → HxResult (Progress S)
  walk_cells zero source source_offset display_start remaining stats s = ok (continue, stats, s)
  walk_cells (suc fuel) source source_offset display_start remaining stats s =
      let read : HxResult (Progress S) = do
        raw ← read_chunk d source source_offset (min remaining chunk_limit)
        walk_cells_turn
            (λ n. walk_cells fuel source (source_offset + n) (display_start + n) (remaining - n))
            source source_offset display_start stats s raw
      in if remaining == 0 then ok (continue, stats, s) else read

  -- The pieces in the range that starts at `start`.
  unfoldable pub walk_cell_pieces : ℕ → List Overlap → WalkStats → S → HxResult (Progress S)
  walk_cell_pieces start [] stats s = ok (continue, stats, s)
  walk_cell_pieces start (o ∷ os) stats s = do
    r ←
        walk_cells o.len o.source o.start (start + o.distance) o.len
          (record stats { pieces = stats.pieces + 1 }) s
    unless_stopped (walk_cell_pieces start os) r

  unfoldable pub walk_cell_range : ℕ → ℕ → S → HxResult (Progress S)
  walk_cell_range start end_inclusive s =
      let end = min end_inclusive (doc_len d - 1) + 1 in
      if doc_len d == 0 || ltb end_inclusive start || leb (doc_len d) start
      then ok (continue, no_walk, s)
      else walk_cell_pieces start (display_overlaps d start end) no_walk s

unfoldable pub walk_visible_cells :
    {S : Type 0}
    → (VisibleCellChunk → S → HxResult (WalkControl × S))
    → ℕ
    → ℕ
    → Document
    → ℕ
    → ℕ
    → S
    → HxResult (Progress S)
walk_visible_cells visit max_read chunk_limit d start end_inclusive s =
    walk_cell_range visit (walk_chunk_limit max_read chunk_limit) d start end_inclusive s

abbrev pub cell_slot : VisibleCell → ByteSlot
cell_slot c = if c.deleted then deleted else present c.byte

-- The visitors of `row_bytes` and `read_logical_range`, which push what they make of each cell.
unfoldable pub collect_cells :
    {A : Type 0} → (VisibleCell → A) → VisibleCellChunk → List A → HxResult (WalkControl × List A)
collect_cells pick chunk out = ok (continue, out ++ map pick chunk.cells)

-- `resize(width, ByteSlot::Empty)`
unfoldable pub resize : ℕ → List ByteSlot → List ByteSlot
resize zero out = []
resize (suc width) [] = empty ∷ resize width []
resize (suc width) (x ∷ out) = x ∷ resize width out

-- `offset + width` and `end - 1` wrap around; the room reserved for the row is left out.
unfoldable pub row_bytes : ℕ → Document → ℕ → ℕ → HxResult (List ByteSlot)
row_bytes max_read d offset width =
    let end = min ((offset + width) % u64_mod) (doc_len d) in
    if width == 0 || leb (doc_len d) offset then ok (resize width []) else (do
      r ←
          walk_visible_cells (collect_cells cell_slot) max_read (max width 1) d offset
            ((end + u64_max) % u64_mod) []
      ok (resize width r.2))

abbrev pub byte_or_zero : VisibleCell → ℕ
byte_or_zero c = if c.deleted then 0 else c.byte

-- `offset + len` wraps around; the room reserved for the bytes is left out.
unfoldable pub read_logical_range : ℕ → Document → ℕ → ℕ → HxResult (List ℕ)
read_logical_range max_read d offset len =
    let end_inclusive = min ((offset + len) % u64_mod) (doc_len d) - 1 in
    if len == 0 || leb (doc_len d) offset then ok [] else (do
      r ←
          walk_visible_cells (collect_cells byte_or_zero) max_read max_read d offset end_inclusive
            []
      ok r.2)
