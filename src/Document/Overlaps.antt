-- ===== src/Document/Overlaps.antt =====
-- The loop over the snapshot of the pieces that the range operations of
-- src/core/document/edit/{replacement,overwrite,transform}.rs share: the parts of the pieces that lie
-- in the display range `offset..end`, each with its place in the source and its distance from
-- `offset`. The additions stay below 2^64 on a valid table, so that a saturating one is plain.
use hxedit.Prelude.{
  Bool, List, [], false, if◌then◌else◌, leb, ltb, max, min, not, saturating_add, true, ℕ, ◌&&◌, ◌+◌,
  ◌-◌, ◌==◌, ◌||◌, ◌∷◌,
}
use hxedit.Cells.{CellId, Piece, PieceSource, from_source}
use hxedit.ReplacementStore.Queries.{has_in_range, has_range_in_source_range, has_sparse_in_range}
use hxedit.Document.{Document, doc_len, has_replacements, has_tombstone_in_range, has_tombstones}

pub record Overlap : Type 0 where
  pub source : PieceSource
  pub start : ℕ
  pub len : ℕ
  pub distance : ℕ

unfoldable pub overlaps : ℕ → ℕ → ℕ → List Piece → List Overlap
overlaps offset end display_cursor [] = []
overlaps offset end display_cursor (p ∷ ps) =
    let piece_end = display_cursor + p.len in
    let overlap_start = max offset display_cursor in
    let overlap_end = min end piece_end in
    let rest = overlaps offset end piece_end ps in
    if leb end display_cursor
    then []
    else if leb piece_end offset
    then rest
    else if ltb overlap_start overlap_end
    then record {
      source = p.source;
      start = p.start + (overlap_start - display_cursor);
      len = overlap_end - overlap_start;
      distance = overlap_start - offset;
    }
      ∷ rest
    else rest

abbrev pub display_overlaps : Document → ℕ → ℕ → List Overlap
display_overlaps d offset end = overlaps offset end 0 d.pieces.pieces

-- The first and the last cell of an overlap.
abbrev pub lo_cell : Overlap → CellId
lo_cell o = from_source o.source o.start

abbrev pub hi_cell : Overlap → CellId
hi_cell o = from_source o.source (o.start + o.len - 1)

abbrev pub any_overlap : (Overlap → Bool) → List Overlap → Bool
any_overlap test [] = false
any_overlap test (o ∷ os) = test o || any_overlap test os

-- The end of a range that is cut at the end of the document.
abbrev pub clamped_end : Document → ℕ → ℕ → ℕ
clamped_end d offset len = min (saturating_add offset len) (doc_len d)

unfoldable pub display_range_has_tombstone : Document → ℕ → ℕ → Bool
display_range_has_tombstone d offset len =
    if len == 0 || leb (doc_len d) offset || not (has_tombstones d)
    then false
    else any_overlap (λ o. has_tombstone_in_range d (lo_cell o) (hi_cell o))
        (display_overlaps d offset (clamped_end d offset len))

unfoldable pub display_range_has_sparse_replacement : Document → ℕ → ℕ → Bool
display_range_has_sparse_replacement d offset len =
    if len == 0 || leb (doc_len d) offset || not (has_replacements d)
    then false
    else any_overlap (λ o. has_sparse_in_range d.replacements (lo_cell o) (hi_cell o))
        (display_overlaps d offset (clamped_end d offset len))

unfoldable pub display_range_has_replacement_range : Document → ℕ → ℕ → Bool
display_range_has_replacement_range d offset len =
    if len == 0 || leb (doc_len d) offset || not (has_replacements d)
    then false
    else any_overlap (λ o. has_range_in_source_range d.replacements o.source o.start o.len)
        (display_overlaps d offset (clamped_end d offset len))

unfoldable pub replacement_range_is_pristine : Document → ℕ → ℕ → Bool
replacement_range_is_pristine d offset len =
    if len == 0 || leb (doc_len d) offset
    then true
    else if not (has_tombstones d) && not (has_replacements d)
    then true
    else not (
        any_overlap
          (λ o.
            has_tombstones d && has_tombstone_in_range d (lo_cell o) (hi_cell o)
            || has_replacements d && has_in_range d.replacements (lo_cell o) (hi_cell o))
          (display_overlaps d offset (clamped_end d offset len)))
