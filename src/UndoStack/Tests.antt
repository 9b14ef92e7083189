-- ===== src/UndoStack/Tests.antt =====
-- Range tests, an edit and its undo at the document of the other tests.
use hxedit.Prelude.{List, [], arith, drop, false, length, none, refl, some, take, true, ◌∷◌, ◌≡◌}
use hxedit.Outcome.{ok}
use hxedit.Cells.{CellId, add, cell, original, run}
use hxedit.CellMap.{get, last_le}
use hxedit.PieceTable.View.{cells}
use hxedit.ReplacementStore.{range_containing, replacement_at}
use hxedit.Document.{Document, is_tombstone, restore_replacement}
use hxedit.Document.Display.{base_of, display, slot}
use hxedit.Document.Overlaps.{display_range_has_sparse_replacement, display_range_has_tombstone}
use hxedit.Document.Covered.{any_cell, has_key}
use hxedit.Document.RangeTests.{
  display_range_has_sparse_replacement_lem, display_range_has_tombstone_lem,
}
use hxedit.Document.Tests.{notes, notes-IsValid}
use hxedit.Edit.{
  ReplacementChange, apply_edit_op, insert_op, replace_bytes_op, restore_changes, undo_edit_op,
}
use hxedit.Edit.Inverse.{Recorded, undo_edit_op-apply_edit_op}
use hxedit.UndoStack.{
  App, UndoStep, normal, redo, redo_ops, redo_steps, run_ops, undo, undo_ops, undo_steps, visual,
}
use hxedit.UndoStack.Steps.{moved, undo-stacks}
use hxedit.Document.Byte.{insert_bytes}
use hxedit.Edit.Layout.{undo_edit_op-insert_bytes}
use hxedit.UndoStack.Redo.{redo-undo}
use Prim.{tt}

display_range_has_tombstone_lem_example :
    display_range_has_tombstone notes 4 9
    ≡ any_cell (is_tombstone notes) (take 9 (drop 4 (cells notes.pieces.pieces)))
display_range_has_tombstone_lem_example = display_range_has_tombstone_lem notes 4 9 notes-IsValid

-- The byte shown as 9 becomes 5, and the byte 2 behind it 6.
abbrev two_changes : List ReplacementChange
two_changes =
    record { id = cell original 0; before = some 9; after = some 5 }
    ∷ record { id = cell original 1; before = none; after = some 6 }
    ∷ []

two_changes-Recorded : Recorded notes two_changes
unfolding Recorded replacement_at get range_containing last_le base_of
two_changes-Recorded = (refl, (refl, tt))

undo_edit_op-apply_edit_op_example :
    (d1 : Document) × (d2 : Document) × (d3 : Document) × (apply_edit_op
        (replace_bytes_op two_changes)
        notes
      ≡ ok d1)
    × (undo_edit_op (replace_bytes_op two_changes) d1 ≡ ok d2)
    × ((j : CellId) → slot d2 j ≡ slot notes j)
    × (apply_edit_op (replace_bytes_op two_changes) d2 ≡ ok d3)
    × ((j : CellId) → slot d3 j ≡ slot d1 j)
undo_edit_op-apply_edit_op_example =
    undo_edit_op-apply_edit_op two_changes notes refl two_changes-Recorded

abbrev replaced : UndoStep
replaced = record {
  cursor_before = 0;
  mode_before = normal;
  cursor_after = 1;
  mode_after = normal;
  ops = replace_bytes_op two_changes ∷ [];
}

abbrev editor : App
editor = record {
  document = notes;
  cursor = 1;
  mode = visual;
  undo_stack = replaced ∷ [];
  redo_stack = [];
}

abbrev undone_editor : App
undone_editor = (undo 3 true editor).1

undoes : undo 3 true editor ≡ (ok tt, undone_editor)
unfolding undo undo_steps undo_ops run_ops undo_edit_op restore_changes restore_replacement
undoes = refl

undo-stacks_example :
    (undone_editor.undo_stack ≡ []) × (undone_editor.redo_stack ≡ moved 3 (replaced ∷ []) [])
undo-stacks_example = undo-stacks 3 true editor undone_editor undoes

undo_edit_op-insert_bytes_example :
    let ids = run add (length notes.pieces.add_buffer) 2 in
    (d1 : Document) × (d2 : Document) × (d3 : Document) × (insert_bytes 3 (7 ∷ 8 ∷ []) notes
      ≡ ok (ids, d1))
    × (undo_edit_op (insert_op 3 ids) d1 ≡ ok d2)
    × (display d2 ≡ display notes)
    × (apply_edit_op (insert_op 3 ids) d2 ≡ ok d3)
    × (display d3 ≡ display d1)
undo_edit_op-insert_bytes_example =
    undo_edit_op-insert_bytes 3 (7 ∷ 8 ∷ []) notes notes-IsValid refl refl (omega arith)
      (omega arith) (omega arith)

abbrev redone_editor : App
redone_editor = (redo 1 false (undo 1 true editor).1).1

undoes_one : undo 1 true editor ≡ (ok tt, (undo 1 true editor).1)
unfolding undo undo_steps undo_ops run_ops undo_edit_op restore_changes restore_replacement
undoes_one = refl

redoes : redo 1 false (undo 1 true editor).1 ≡ (ok tt, redone_editor)
unfolding undo undo_steps undo_ops run_ops undo_edit_op restore_changes restore_replacement redo
    redo_steps redo_ops apply_edit_op
redoes = refl

redo-undo_example : (redone_editor.undo_stack ≡ replaced ∷ []) × (redone_editor.redo_stack ≡ [])
redo-undo_example =
    redo-undo 1 true false editor (undo 1 true editor).1 redone_editor (omega arith) undoes_one
      redoes

display_range_has_sparse_replacement_lem_example :
    display_range_has_sparse_replacement notes 0 2
    ≡ any_cell (has_key notes.replacements.sparse) (take 2 (drop 0 (cells notes.pieces.pieces)))
display_range_has_sparse_replacement_lem_example =
    display_range_has_sparse_replacement_lem notes 0 2 notes-IsValid
