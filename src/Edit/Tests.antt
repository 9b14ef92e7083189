-- ===== src/Edit/Tests.antt =====
-- The guards of edit operations, on a document that is read-only and on one of a fixed size.
use hxedit.Prelude.{[], none, refl, some, true, ◌∷◌, ◌≡◌}
use hxedit.Outcome.{err, read_only}
use hxedit.Cells.{cell, original}
use hxedit.ReplacementStore.{set_cell}
use hxedit.Document.{Document, restore_replacement}
use hxedit.Document.Tests.{notes}
use hxedit.Edit.{
  apply_edit_op, bulk_pattern, bulk_xor, replace_bulk_op, replace_bytes_op, restore_changes,
}
use hxedit.Edit.ReadOnly.{apply_edit_op-read_only}
use hxedit.Edit.FixedSize.{apply_edit_op-fixed_size}

abbrev locked : Document
locked = record notes { readonly = true }

apply_edit_op-read_only_example :
    apply_edit_op (replace_bulk_op 1 3 (bulk_xor 1) (bulk_pattern (1 ∷ []))) locked ≡ err read_only
apply_edit_op-read_only_example =
    apply_edit_op-read_only (replace_bulk_op 1 3 (bulk_xor 1) (bulk_pattern (1 ∷ []))) locked refl
      refl

abbrev fixed : Document
fixed = record notes { fixed_size = true }

abbrev changed : Document
changed = record fixed { replacements = set_cell (cell original 1) 7 fixed.replacements }

apply_edit_op-fixed_size_example :
    (changed.pieces ≡ fixed.pieces) × (changed.tombstones ≡ fixed.tombstones)
apply_edit_op-fixed_size_example =
    apply_edit_op-fixed_size
      (replace_bytes_op (record { id = cell original 1; before = none; after = some 7 } ∷ [])) fixed
      changed refl (unfold apply_edit_op restore_changes restore_replacement in refl)
