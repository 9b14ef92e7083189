-- ===== src/Edit.antt =====
-- src/exec/edit.rs: the edit operations that undo records hold, how they are applied and undone.
-- The assertions of debug builds and the text of the errors are left out.
pub mod Inverse
pub mod Layout
pub mod Guards
pub mod ReadOnly
pub mod FixedSize
pub mod Tests
use hxedit.Prelude.{
  Bool, List, Option, [], false, if◌then◌else◌, length, ltb, none, not, some, true, ℕ, ◌&&◌, ◌+◌,
  ◌-◌, ◌==◌, ◌||◌, ◌∷◌,
}
use hxedit.Outcome.{HxResult, command_error, err, ok, ◌>>=◌}
use hxedit.Cells.{CellId, from_source}
use hxedit.CellMap.{cell_eq, is_nil}
use hxedit.Replacement.{
  PatchCell, PatchRange, PatchValue, ReplacementPatch, patch_bytes, patch_pattern, patch_xor,
}
use hxedit.Document.{Document, restore_replacement}
use hxedit.Document.Byte.{clear_tombstones, delete_range_real, mark_tombstones, restore_real_delete}
use hxedit.Document.Overlay.{
  clear_replacements_in_display_range, overwrite_run_bytes_overlay, overwrite_run_pattern_overlay,
  restore_replacement_patch_in_display_range, within, xor_visible_range_overlay,
}

pub record ReplacementChange : Type 0 where
  pub id : CellId
  pub before : Option ℕ
  pub after : Option ℕ

pub data BulkReplacement : Type 0 where
  bulk_clear : BulkReplacement
  bulk_pattern bulk_bytes : List ℕ → BulkReplacement
  bulk_xor : ℕ → BulkReplacement

pub data EditOp : Type 0 where
  insert_op real_delete_op : ℕ → List CellId → EditOp
  tombstone_delete_op : List CellId → EditOp
  replace_bytes_op : List ReplacementChange → EditOp
  replace_bulk_op : ℕ → ℕ → BulkReplacement → BulkReplacement → EditOp
  replace_patch_op : ℕ → ℕ → ReplacementPatch → ReplacementPatch → EditOp

abbrev pub bulk_of : ℕ → ℕ → BulkReplacement → Document → HxResult Document
bulk_of offset len bulk_clear d = clear_replacements_in_display_range offset len d
bulk_of offset len (bulk_pattern bs) d =
    if len == 0
    then ok d
    else if is_nil bs
    then err command_error
    else (do r ← overwrite_run_pattern_overlay offset len bs d; ok r.1)
bulk_of offset len (bulk_bytes bs) d =
    if len == 0
    then ok d
    else if not (length bs == len)
    then err command_error
    else (do r ← overwrite_run_bytes_overlay offset bs d; ok r.1)
bulk_of offset len (bulk_xor key) d =
    if len == 0
    then ok d
    else (do r ← xor_visible_range_overlay offset (offset + len - 1) key d; ok r.1)

unfoldable pub apply_bulk_replacement : ℕ → ℕ → BulkReplacement → Document → HxResult Document
apply_bulk_replacement offset len replacement d =
    within offset len d (bulk_of offset len replacement d)

-- The loop over the changes of `ReplaceBytes`; `to` is `before` or `after`.
unfoldable pub restore_changes :
    (ReplacementChange → Option ℕ) → List ReplacementChange → Document → HxResult Document
restore_changes to [] d = ok d
restore_changes to (c ∷ cs) d = do d' ← restore_replacement c.id (to c) d; restore_changes to cs d'

abbrev pub after_of : ReplacementChange → Option ℕ
after_of c = c.after

abbrev pub before_of : ReplacementChange → Option ℕ
before_of c = c.before

unfoldable pub apply_edit_op : EditOp → Document → HxResult Document
apply_edit_op (insert_op offset cells) d = restore_real_delete offset cells d
apply_edit_op (real_delete_op offset cells) d = do
  r ← delete_range_real offset (length cells) d
  ok r.1
apply_edit_op (tombstone_delete_op ids) d = mark_tombstones ids d
apply_edit_op (replace_bytes_op changes) d = restore_changes after_of changes d
apply_edit_op (replace_bulk_op offset len before after) d =
    apply_bulk_replacement offset len after d
apply_edit_op (replace_patch_op offset len before after) d =
    restore_replacement_patch_in_display_range offset len after d

unfoldable pub undo_edit_op : EditOp → Document → HxResult Document
undo_edit_op (insert_op offset cells) d = do r ← delete_range_real offset (length cells) d; ok r.1
undo_edit_op (real_delete_op offset cells) d = restore_real_delete offset cells d
undo_edit_op (tombstone_delete_op ids) d = ok (clear_tombstones ids d)
undo_edit_op (replace_bytes_op changes) d = restore_changes before_of changes d
undo_edit_op (replace_bulk_op offset len before after) d =
    apply_bulk_replacement offset len before d
undo_edit_op (replace_patch_op offset len before after) d =
    restore_replacement_patch_in_display_range offset len before d

-- The derived equalities.
option_eq : Option ℕ → Option ℕ → Bool
option_eq none none = true
option_eq (some a) (some b) = a == b
option_eq _ _ = false

abbrev bytes_eq : List ℕ → List ℕ → Bool
bytes_eq [] [] = true
bytes_eq (a ∷ xs) (b ∷ ys) = a == b && bytes_eq xs ys
bytes_eq _ _ = false

abbrev bulk_eq : BulkReplacement → BulkReplacement → Bool
bulk_eq bulk_clear bulk_clear = true
bulk_eq (bulk_pattern xs) (bulk_pattern ys) = bytes_eq xs ys
bulk_eq (bulk_bytes xs) (bulk_bytes ys) = bytes_eq xs ys
bulk_eq (bulk_xor a) (bulk_xor b) = a == b
bulk_eq _ _ = false

abbrev patch_value_eq : PatchValue → PatchValue → Bool
patch_value_eq (patch_pattern xs a) (patch_pattern ys b) = bytes_eq xs ys && a == b
patch_value_eq (patch_xor a) (patch_xor b) = a == b
patch_value_eq (patch_bytes xs a) (patch_bytes ys b) = bytes_eq xs ys && a == b
patch_value_eq _ _ = false

abbrev patch_ranges_eq : List PatchRange → List PatchRange → Bool
patch_ranges_eq [] [] = true
patch_ranges_eq (p ∷ ps) (q ∷ qs) =
    cell_eq (from_source p.source p.start) (from_source q.source q.start)
    && (p.len == q.len && (patch_value_eq p.value q.value && patch_ranges_eq ps qs))
patch_ranges_eq _ _ = false

abbrev patch_cells_eq : List PatchCell → List PatchCell → Bool
patch_cells_eq [] [] = true
patch_cells_eq (p ∷ ps) (q ∷ qs) =
    cell_eq p.id q.id && (option_eq p.value q.value && patch_cells_eq ps qs)
patch_cells_eq _ _ = false

abbrev patch_eq : ReplacementPatch → ReplacementPatch → Bool
patch_eq p q = patch_ranges_eq p.ranges q.ranges && patch_cells_eq p.sparse q.sparse

abbrev any_change : List ReplacementChange → Bool
any_change [] = false
any_change (c ∷ cs) = not (option_eq c.before c.after) || any_change cs

unfoldable pub edit_op_has_effect : EditOp → Bool
unfolding option_eq
edit_op_has_effect (insert_op offset cells) = not (is_nil cells)
edit_op_has_effect (real_delete_op offset cells) = not (is_nil cells)
edit_op_has_effect (tombstone_delete_op ids) = not (is_nil ids)
edit_op_has_effect (replace_bytes_op changes) = any_change changes
edit_op_has_effect (replace_bulk_op offset len before after) =
    ltb 0 len && not (bulk_eq before after)
edit_op_has_effect (replace_patch_op offset len before after) =
    ltb 0 len && not (patch_eq before after)
