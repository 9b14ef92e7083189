-- ===== src/Document.antt =====
-- src/core/document/mod.rs and read.rs: the document, its three layers and what they display.
-- `view` holds the bytes of the original file, as reads through the page cache return them, and
-- `read_failure` says which reads fail, by their offset and length, and how. The path and the sizes
-- of the page cache are left out. Reads of the piece table leave out its
-- refreshed prefix cache, on which no result depends.
pub mod Byte
pub mod Display
pub mod Replaced
pub mod Spliced
pub mod Restored
pub mod Overlaps
pub mod Overlay
pub mod Cleared
pub mod Covered
pub mod RangeTests
pub mod Walk
pub mod Logical
pub mod Visible
pub mod Tests
use package.hxedit.Prelude.{
  Bool, List, Option, [], drop, false, get_elem?, if◌then◌else◌, leb, length, none, not, some, take,
  ℕ, ◌==◌, ◌||◌,
}
use package.hxedit.Outcome.{
  HxError, HxResult, err, offset_out_of_range, ok, ok_or, read_only, ◌>>=◌,
}
use package.hxedit.Cells.{CellId, add, cell, original}
use package.hxedit.CellMap.{contains, is_nil, set_range}
use package.hxedit.PieceTable.{PieceTable}
use package.hxedit.ReplacementStore.{
  ReplacementStore, clear_cell, no_replacements, replacement_at, set_cell,
}
use package.hxedit.PieceTable
use package.hxedit.ReplacementStore

pub data ByteSlot : Type 0 where
  present : ℕ → ByteSlot
  deleted empty : ByteSlot

pub record Document : Type 0 where
  pub readonly : Bool
  pub original_len : ℕ
  pub fixed_size : Bool
  pub view : List ℕ
  pub read_failure : ℕ → ℕ → Option HxError
  pub pieces : PieceTable
  pub tombstones : List CellId
  pub replacements : ReplacementStore

-- What `open` makes of a file's bytes, and `from_memory_bytes` of a memory region's.
abbrev pub opened : Bool → Bool → List ℕ → (ℕ → ℕ → Option HxError) → Document
opened readonly fixed_size bytes read_failure = record {
  readonly = readonly;
  original_len = length bytes;
  fixed_size = fixed_size;
  view = bytes;
  read_failure = read_failure;
  pieces = PieceTable.new (length bytes);
  tombstones = [];
  replacements = no_replacements;
}

abbrev pub doc_len : Document → ℕ
doc_len d = d.pieces.len

abbrev pub has_tombstones : Document → Bool
has_tombstones d = not (is_nil d.tombstones)

abbrev pub has_replacements : Document → Bool
has_replacements d = not (ReplacementStore.is_empty d.replacements)

unfoldable pub is_dirty : Document → Bool
is_dirty d = not (PieceTable.is_identity d.pieces) || has_tombstones d || has_replacements d

-- `reset_after_successful_save`, once the file's new bytes have been read.
unfoldable pub reset_after_save : List ℕ → (ℕ → ℕ → Option HxError) → Document → Document
reset_after_save bytes read_failure d = record d {
  original_len = length bytes;
  fixed_size = false;
  view = bytes;
  read_failure = read_failure;
  pieces = PieceTable.new (length bytes);
  tombstones = [];
  replacements = no_replacements;
}

unfoldable pub goto : Document → ℕ → HxResult ℕ
goto d offset =
    if doc_len d == 0
    then ok 0
    else if leb (doc_len d) offset
    then err offset_out_of_range
    else ok offset

unfoldable pub cell_id_at : Document → ℕ → Option CellId
cell_id_at d offset = (PieceTable.resolve offset d.pieces).0

unfoldable pub cell_ids_range : Document → ℕ → ℕ → List CellId
cell_ids_range d offset len = (PieceTable.cell_ids_range offset len d.pieces).0

abbrev pub is_tombstone : Document → CellId → Bool
is_tombstone d id = contains id d.tombstones

abbrev pub has_tombstone_in_range : Document → CellId → CellId → Bool
has_tombstone_in_range d lo hi = not (is_nil (set_range lo hi d.tombstones))

abbrev pub unless_failed {ℓ} : {A : Type ℓ} → Option HxError → A → HxResult A
unless_failed none a = ok a
unless_failed (some e) a = err e

-- `view.read_range`: the bytes of the file there, fewer behind its end, or the failure.
unfoldable pub read_view : Document → ℕ → ℕ → HxResult (List ℕ)
read_view d offset len = unless_failed (d.read_failure offset len) (take len (drop offset d.view))

unfoldable pub raw_byte : Document → ℕ → HxResult ℕ
raw_byte d offset = do raw ← read_view d offset 1; ok_or (get_elem? raw 0) offset_out_of_range

unfoldable pub base_byte : Document → CellId → HxResult ℕ
base_byte d (cell original offset) = raw_byte d offset
base_byte d (cell add offset) = ok_or (PieceTable.add_byte d.pieces offset) offset_out_of_range

abbrev pub or_base : Option ℕ → ℕ → ℕ
or_base none base = base
or_base (some v) base = v

unfoldable pub display_byte_for_id : Document → CellId → HxResult ℕ
display_byte_for_id d id = do
  base ← base_byte d id
  ok (or_base (replacement_at d.replacements id base) base)

abbrev slot_at : Document → Option CellId → HxResult ByteSlot
slot_at d none = ok empty
slot_at d (some id) =
    if is_tombstone d id then ok deleted else (do v ← display_byte_for_id d id; ok (present v))

unfoldable pub byte_at : Document → ℕ → HxResult ByteSlot
byte_at d offset = slot_at d (cell_id_at d offset)

abbrev pub editable : Document → CellId → HxResult (CellId × ℕ)
editable d id =
    if is_tombstone d id
    then err offset_out_of_range
    else (do v ← display_byte_for_id d id; ok (id, v))

unfoldable pub display_byte_for_edit : Document → ℕ → HxResult (CellId × ℕ)
display_byte_for_edit d offset = do
  id ← ok_or (cell_id_at d offset) offset_out_of_range
  editable d id

-- A new value equal to the base byte takes the replacement away.
unfoldable pub set_display_byte_by_id : CellId → ℕ → Document → HxResult Document
set_display_byte_by_id id v d = do
  base ← base_byte d id
  ok (record d {
    replacements = if v == base then clear_cell id d.replacements else set_cell id v d.replacements;
  })

-- `replacement_state`, which undo records before an edit.
unfoldable pub replacement_state : Document → CellId → HxResult (Option ℕ)
replacement_state d id = do base ← base_byte d id; ok (replacement_at d.replacements id base)

unfoldable pub restore_replacement : CellId → Option ℕ → Document → HxResult Document
restore_replacement id previous d =
    if d.readonly
    then err read_only
    else ok (record d {
      replacements = elim previous [
        | some v ↦ set_cell id v d.replacements
        | none ↦ clear_cell id d.replacements
      ];
    })
