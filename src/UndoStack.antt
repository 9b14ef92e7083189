-- ===== src/UndoStack.antt =====
-- src/app/undo.rs, with the modes of src/mode.rs and the cursor bounds of
-- src/app/navigation/common.rs: undo and redo of recorded steps. The caches, the panels, the counter
-- of revisions and the status line that an undo refreshes are left out. An operation that fails keeps
-- what the operations before it did, and its step is gone from the stack.
-- A stack is a list with its top first.
pub mod Steps
pub mod Redo
pub mod Tests
use hxedit.Prelude.{
  Bool, List, Option, [], false, if◌then◌else◌, min, not, suc, true, zero, ℕ, ◌&&◌, ◌-◌, ◌==◌, ◌||◌,
  ◌∷◌,
}
use hxedit.Outcome.{HxResult, err, ok}
use hxedit.CellMap.{is_nil}
use hxedit.Document.{Document, doc_len}
use hxedit.Edit.{EditOp, apply_edit_op, edit_op_has_effect, undo_edit_op}
use hxedit.Document.Byte.{NibblePhase}
use Prim.{Unit, tt}

pub record PendingInsert : Type 0 where
  pub offset : ℕ
  pub high_nibble : ℕ

pub data Mode : Type 0 where
  normal visual command side_panel inspector_edit disasm_edit : Mode
  edit_hex : NibblePhase → Mode
  insert_hex : Option PendingInsert → Mode

pub record UndoStep : Type 0 where
  pub cursor_before : ℕ
  pub mode_before : Mode
  pub cursor_after : ℕ
  pub mode_after : Mode
  pub ops : List EditOp

pub record App : Type 0 where
  pub document : Document
  pub cursor : ℕ
  pub mode : Mode
  pub undo_stack : List UndoStep
  pub redo_stack : List UndoStep

abbrev edits_hex : Mode → Bool
edits_hex (edit_hex phase) = true
edits_hex (insert_hex pending) = true
edits_hex _ = false

abbrev cursor_max : Document → Bool → ℕ
cursor_max d allow_eof =
    if doc_len d == 0 then 0 else if allow_eof then doc_len d else doc_len d - 1

abbrev clamp_offset_with_eof : Document → ℕ → Bool → ℕ
clamp_offset_with_eof d offset allow_eof =
    if doc_len d == 0 then 0 else min offset (cursor_max d allow_eof)

unfoldable pub clamp_cursor_for_mode : Document → ℕ → Mode → ℕ
clamp_cursor_for_mode d offset mode =
    clamp_offset_with_eof d offset (not d.fixed_size && edits_hex mode)

-- What a failing step leaves is the document of the last operation that did not fail.
abbrev on_ok :
    HxResult Document
    → Document
    → (Document → HxResult (Unit {0}) × Document)
    → HxResult (Unit {0}) × Document
on_ok (err e) d next = (err e, d)
on_ok (ok d') d next = next d'

unfoldable pub run_ops :
    (EditOp → Document → HxResult Document)
    → List EditOp
    → Document
    → HxResult (Unit {0}) × Document
run_ops run [] d = (ok tt, d)
run_ops run (op ∷ ops) d = on_ok (run op d) d (run_ops run ops)

abbrev pub reverse_onto : List EditOp → List EditOp → List EditOp
reverse_onto [] acc = acc
reverse_onto (op ∷ ops) acc = reverse_onto ops (op ∷ acc)

unfoldable pub undo_ops : List EditOp → Document → HxResult (Unit {0}) × Document
undo_ops ops d = run_ops undo_edit_op (reverse_onto ops []) d

unfoldable pub redo_ops : List EditOp → Document → HxResult (Unit {0}) × Document
redo_ops ops d = run_ops apply_edit_op ops d

-- The state behind a step that has been undone.
abbrev pub undone : Bool → UndoStep → List UndoStep → Document → App → App
undone restore_mode step rest d a = record {
  document = d;
  cursor = clamp_cursor_for_mode d step.cursor_before step.mode_before;
  mode = if restore_mode then step.mode_before else a.mode;
  undo_stack = rest;
  redo_stack = step ∷ a.redo_stack;
}

abbrev pub redone : Bool → UndoStep → List UndoStep → Document → App → App
redone restore_mode step rest d a = record {
  document = d;
  cursor = clamp_cursor_for_mode d step.cursor_after step.mode_after;
  mode = if restore_mode then step.mode_after else a.mode;
  undo_stack = step ∷ a.undo_stack;
  redo_stack = rest;
}

abbrev pub next_step :
    HxResult (Unit {0}) × Document
    → App
    → (Document → App)
    → (App → HxResult (Unit {0}) × App)
    → HxResult (Unit {0}) × App
next_step (err e, d) failed done next = (err e, record failed { document = d })
next_step (ok _, d) failed done next = next (done d)

-- One turn of the loop of `undo`, by what the stack holds; `next` is the rest of the loop.
abbrev pub undo_one :
    Bool → List UndoStep → App → (App → HxResult (Unit {0}) × App) → HxResult (Unit {0}) × App
undo_one restore_mode [] a next = (ok tt, a)
undo_one restore_mode (step ∷ rest) a next =
    next_step (undo_ops step.ops a.document) (record a { undo_stack = rest })
      (λ d. undone restore_mode step rest d a) next

unfoldable pub undo_steps : ℕ → Bool → App → HxResult (Unit {0}) × App
undo_steps zero restore_mode a = (ok tt, a)
undo_steps (suc n) restore_mode a = undo_one restore_mode a.undo_stack a (undo_steps n restore_mode)

abbrev pub redo_one :
    Bool → List UndoStep → App → (App → HxResult (Unit {0}) × App) → HxResult (Unit {0}) × App
redo_one restore_mode [] a next = (ok tt, a)
redo_one restore_mode (step ∷ rest) a next =
    next_step (redo_ops step.ops a.document) (record a { redo_stack = rest })
      (λ d. redone restore_mode step rest d a) next

unfoldable pub redo_steps : ℕ → Bool → App → HxResult (Unit {0}) × App
redo_steps zero restore_mode a = (ok tt, a)
redo_steps (suc n) restore_mode a = redo_one restore_mode a.redo_stack a (redo_steps n restore_mode)

-- Without `restore_mode` the mode becomes normal at the end.
abbrev pub settled : Bool → App → App
settled true a = a
settled false a = record a {
  mode = normal;
  cursor = clamp_cursor_for_mode a.document a.cursor normal;
}

abbrev pub settle : Bool → HxResult (Unit {0}) × App → HxResult (Unit {0}) × App
settle restore_mode (err e, a) = (err e, a)
settle restore_mode (ok _, a) = (ok tt, settled restore_mode a)

unfoldable pub undo : ℕ → Bool → App → HxResult (Unit {0}) × App
undo steps restore_mode a = settle restore_mode (undo_steps steps restore_mode a)

unfoldable pub redo : ℕ → Bool → App → HxResult (Unit {0}) × App
redo steps restore_mode a = settle restore_mode (redo_steps steps restore_mode a)

abbrev any_effect : List EditOp → Bool
any_effect [] = false
any_effect (op ∷ ops) = edit_op_has_effect op || any_effect ops

unfoldable pub push_undo_step : UndoStep → App → App
push_undo_step step a =
    if is_nil step.ops
    then a
    else if not (any_effect step.ops)
    then a
    else record a { undo_stack = step ∷ a.undo_stack; redo_stack = [] }
