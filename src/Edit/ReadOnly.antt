-- ===== src/Edit/ReadOnly.antt =====
-- Which edit operations the guards of a read-only document refuse.
use hxedit.Prelude.{
  Bool, [], arith, false, leb, length, ltb, not, true, u64_mod, ℕ, ◌&&◌, ◌+◌, ◌==◌, ◌∷◌, ◌≡◌,
}
use hxedit.Outcome.{err, read_only}
use hxedit.CellMap.{is_nil}
use hxedit.Document.{Document, doc_len, restore_replacement}
use hxedit.Document.Byte.{delete_range_real, mark_tombstones, restore_real_delete}
use hxedit.Document.Overlay.{
  clear_replacements_in_display_range, overwrite_run_bytes_overlay, overwrite_run_pattern_overlay,
  restore_replacement_patch_in_display_range, xor_visible_range_overlay,
}
use hxedit.Edit.{
  BulkReplacement, EditOp, apply_bulk_replacement, apply_edit_op, bulk_bytes, bulk_clear, bulk_of,
  bulk_pattern, bulk_xor, insert_op, real_delete_op, replace_bulk_op, replace_bytes_op,
  replace_patch_op, restore_changes, tombstone_delete_op,
}

-- A bulk replacement that fits its length and is not empty.
abbrev pub is_filled : ℕ → BulkReplacement → Bool
is_filled len bulk_clear = true
is_filled len (bulk_pattern bs) = not (len == 0) && not (is_nil bs)
is_filled len (bulk_bytes bs) = not (len == 0) && length bs == len
is_filled len (bulk_xor key) = not (len == 0)

-- An operation that would write something: it has changes, and a bulk replacement is filled and within
-- the document.
abbrev pub would_write : Document → EditOp → Bool
would_write d (insert_op offset cells) = true
would_write d (real_delete_op offset cells) = true
would_write d (tombstone_delete_op ids) = true
would_write d (replace_bytes_op changes) = not (is_nil changes)
would_write d (replace_bulk_op offset len before after) =
    ltb (offset + len) u64_mod && (leb (offset + len) (doc_len d) && is_filled len after)
would_write d (replace_patch_op offset len before after) = true

bulk_of-read_only :
    (offset len : ℕ) (b : BulkReplacement) (d : Document)
    → d.readonly ≡ true
    → is_filled len b ≡ true
    → bulk_of offset len b d ≡ err read_only
unfolding overwrite_run_pattern_overlay overwrite_run_bytes_overlay xor_visible_range_overlay
    clear_replacements_in_display_range
bulk_of-read_only offset len bulk_clear d r h = rw r
bulk_of-read_only offset len (bulk_pattern bs) d r h =
    let filled : (len == 0) ≡ false = (ground (arith, h)) in
    let given : is_nil bs ≡ false = (ground (arith, h)) in rw (filled, given, r)
bulk_of-read_only offset len (bulk_bytes bs) d r h =
    let filled : (len == 0) ≡ false = (ground (arith, h)) in
    let given : (length bs == len) ≡ true = (ground (arith, h)) in rw (filled, given, r)
bulk_of-read_only offset len (bulk_xor key) d r h =
    let filled : (len == 0) ≡ false = (ground (arith, h)) in rw (filled, r)

-- On a read-only document every edit operation that would write something is refused, with the error
-- for read-only documents.
pub apply_edit_op-read_only :
    (op : EditOp) (d : Document)
    → d.readonly ≡ true
    → would_write d op ≡ true
    → apply_edit_op op d ≡ err read_only
unfolding apply_edit_op delete_range_real restore_real_delete mark_tombstones apply_bulk_replacement
    restore_replacement_patch_in_display_range clear_replacements_in_display_range restore_changes
    restore_replacement
apply_edit_op-read_only (insert_op offset cells) d r h = rw r
apply_edit_op-read_only (real_delete_op offset cells) d r h = rw r
apply_edit_op-read_only (tombstone_delete_op ids) d r h = rw r
apply_edit_op-read_only (replace_bytes_op []) d r h = cc
apply_edit_op-read_only (replace_bytes_op (c ∷ cs)) d r h = rw r
apply_edit_op-read_only (replace_bulk_op offset len before after) d r h =
    let bounded : leb u64_mod (offset + len) ≡ false = (ground (arith, h)) in
    let inside : ltb (doc_len d) (offset + len) ≡ false = (ground (arith, h)) in
    let filled : is_filled len after ≡ true = (ground (arith, h)) in
    rw (bounded, inside) (bulk_of-read_only offset len after d r filled)
apply_edit_op-read_only (replace_patch_op offset len before after) d r h = rw r
