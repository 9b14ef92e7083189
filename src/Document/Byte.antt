-- ===== src/Document/Byte.antt =====
-- src/core/document/edit/byte.rs: edits of single bytes, tombstones, insertion and real deletion.
-- An operation returns the changed document with its result; where it fails it has changed nothing.
use hxedit.Prelude.{
  List, Option, [], if◌then◌else◌, leb, length, ltb, none, some, ℕ, ◌%◌, ◌*◌, ◌==◌, ◌∷◌,
}
use Prim.Native.Nat.{bit_and, bit_or}
use hxedit.Outcome.{
  HxResult, err, fixed_size_violation, offset_out_of_range, ok, ok_or, read_only, ◌>>=◌,
}
use hxedit.Cells.{CellId, add, run}
use hxedit.CellMap.{is_nil, set_insert, set_remove}
use hxedit.PieceTable
use hxedit.Document.{
  Document, cell_id_at, display_byte_for_edit, doc_len, is_tombstone, set_display_byte_by_id,
}

-- src/mode.rs
pub data NibblePhase : Type 0 where
  high low : NibblePhase

-- `readonly` first, then `fixed_size`.
abbrev guard_size {ℓ} : {A : Type ℓ} → Document → HxResult A → HxResult A
guard_size d k =
    if d.readonly then err read_only else if d.fixed_size then err fixed_size_violation else k

abbrev mark_cell : Document → CellId → HxResult (Option CellId × Document)
mark_cell d id =
    if is_tombstone d id
    then ok (none, d)
    else ok (some id, record d { tombstones = set_insert id d.tombstones })

unfoldable pub mark_tombstone : ℕ → Document → HxResult (Option CellId × Document)
mark_tombstone offset d =
    guard_size d (do id ← ok_or (cell_id_at d offset) offset_out_of_range; mark_cell d id)

unfoldable pub remove_all : List CellId → List CellId → List CellId
remove_all [] m = m
remove_all (id ∷ ids) m = remove_all ids (set_remove id m)

unfoldable pub insert_all : List CellId → List CellId → List CellId
insert_all [] m = m
insert_all (id ∷ ids) m = insert_all ids (set_insert id m)

unfoldable pub clear_tombstones : List CellId → Document → Document
clear_tombstones ids d = record d { tombstones = remove_all ids d.tombstones }

unfoldable pub mark_tombstones : List CellId → Document → HxResult Document
mark_tombstones ids d = guard_size d (ok (record d { tombstones = insert_all ids d.tombstones }))

unfoldable pub insert_bytes : ℕ → List ℕ → Document → HxResult (List CellId × Document)
insert_bytes offset bytes d =
    let inserted = run add (PieceTable.add_len d.pieces) (length bytes) in
    guard_size d (
      if ltb (doc_len d) offset
      then err offset_out_of_range
      else if is_nil bytes
      then ok ([], d)
      else ok (inserted, record d { pieces = PieceTable.insert_bytes offset bytes d.pieces }))

abbrev first_cell : List CellId × Document → HxResult (CellId × Document)
first_cell ([], d) = err offset_out_of_range
first_cell (id ∷ ids, d) = ok (id, d)

unfoldable pub insert_byte : ℕ → ℕ → Document → HxResult (CellId × Document)
insert_byte offset v d = do r ← insert_bytes offset (v ∷ []) d; first_cell r

-- `nibble << 4` on a byte.
abbrev shl4 : ℕ → ℕ
shl4 nibble = nibble * 16 % 256

abbrev with_nibble : NibblePhase → ℕ → ℕ → ℕ
with_nibble high nibble current = bit_or (shl4 nibble) (bit_and current 0x0f)
with_nibble low nibble current = bit_or (bit_and current 0xf0) nibble

abbrev append_nibble : ℕ → NibblePhase → ℕ → Document → HxResult (CellId × Document)
append_nibble offset high nibble d = insert_byte offset (shl4 nibble) d
append_nibble offset low nibble d = err offset_out_of_range

unfoldable pub replace_nibble : ℕ → NibblePhase → ℕ → Document → HxResult (CellId × Document)
replace_nibble offset phase nibble d =
    let replaced : HxResult (CellId × Document) = do
      found ← display_byte_for_edit d offset
      d' ← set_display_byte_by_id found.0 (with_nibble phase nibble found.1) d
      ok (found.0, d')
    in if d.readonly
      then err read_only
      else if offset == doc_len d
      then (if d.fixed_size then err fixed_size_violation else append_nibble offset phase nibble d)
      else replaced

unfoldable pub replace_display_byte : ℕ → ℕ → Document → HxResult (CellId × Document)
replace_display_byte offset v d = if d.readonly then err read_only else (do
  found ← display_byte_for_edit d offset
  d' ← set_display_byte_by_id found.0 v d
  ok (found.0, d'))

unfoldable pub replace_display_byte_by_id : CellId → ℕ → Document → HxResult Document
replace_display_byte_by_id id v d =
    if d.readonly
    then err read_only
    else if is_tombstone d id
    then err offset_out_of_range
    else set_display_byte_by_id id v d

unfoldable pub set_byte : ℕ → ℕ → Document → HxResult Document
set_byte offset v d =
    if offset == doc_len d
    then (if d.fixed_size
        then err fixed_size_violation
        else (do r ← insert_byte offset v d; ok r.1))
    else (do r ← replace_display_byte offset v d; ok r.1)

unfoldable pub delete_range_real : ℕ → ℕ → Document → HxResult (List CellId × Document)
delete_range_real offset len d =
    let r = PieceTable.delete_range_real offset len d.pieces in
    guard_size d (
      if len == 0
      then ok ([], d)
      else if leb (doc_len d) offset
      then err offset_out_of_range
      else ok (r.0, record d { pieces = r.1 }))

unfoldable pub restore_real_delete : ℕ → List CellId → Document → HxResult Document
restore_real_delete offset cells d = guard_size d (
    if ltb (doc_len d) offset
    then err offset_out_of_range
    else ok (record d { pieces = PieceTable.insert_existing_cells offset cells d.pieces }))
