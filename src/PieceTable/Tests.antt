-- ===== src/PieceTable/Tests.antt =====
-- Runs of the piece table: the unit tests of src/core/piece_table.rs, and the theorems at a table
-- with an insertion in the middle of a file of four bytes.
use hxedit.Prelude.{[], arith, drop, get_elem?, refl, take, true, ◌↔◌, ◌∷◌, ◌≡◌}
use hxedit.Cells.{add, cell, cells_to_pieces, original, piece, push_piece, run}
use hxedit.PieceTable.{
  PieceTable, cell_ids_range, coalesce_onto, collect_cells, delete_range_real, ensure_prefix,
  find_piece, insert_bytes, insert_existing_cells, is_identity, new, partition_point, prefix_sums,
  resolve, split_piece_at,
}
use hxedit.PieceTable.View.{cells}
use hxedit.PieceTable.Resolve.{resolve_lem}
use hxedit.PieceTable.Range.{cell_ids_range_lem}
use hxedit.PieceTable.Merge.{cells_to_pieces-cells}
use hxedit.PieceTable.Valid.{IsValid}
use hxedit.PieceTable.Insert.{Inserts, insert_bytes_lem, insert_existing_cells_lem}
use hxedit.PieceTable.Delete.{Removes, delete_range_real_lem}
use hxedit.PieceTable.Undo.{
  SameTable, delete_range_real-insert_bytes, insert_existing_cells-delete_range_real,
  is_identity_iff,
}

abbrev pub middle : PieceTable
middle = record {
  original_len = 4;
  add_buffer = 0xaa ∷ 0xbb ∷ [];
  pieces = piece original 0 2 ∷ piece add 0 2 ∷ piece original 2 2 ∷ [];
  len = 6;
  prefix_ends = [];
  prefix_dirty = true;
}

pub middle-IsValid : IsValid middle
unfolding run
middle-IsValid = record {
  whole = record { counted = refl; cached = λ e. cc };
  coalesced = (omega arith, refl, (omega arith, refl, (omega arith, tt, tt)));
  within = omega arith;
  fits = omega arith;
}

-- inserts_into_middle
inserts_into_middle : (insert_bytes 2 (0xaa ∷ 0xbb ∷ []) (new 4)).pieces ≡ middle.pieces
unfolding insert_bytes new split_piece_at find_piece ensure_prefix partition_point prefix_sums
    coalesce_onto push_piece
inserts_into_middle = refl

-- real_delete_and_restore_round_trip: a deletion across a boundary.
deletes_across : (delete_range_real 1 3 middle).0 ≡ cell original 1 ∷ cell add 0 ∷ cell add 1 ∷ []
unfolding delete_range_real cell_ids_range collect_cells split_piece_at find_piece ensure_prefix
    partition_point prefix_sums coalesce_onto push_piece run
deletes_across = refl

resolve_lem_example : (resolve 3 middle).0 ≡ get_elem? (cells middle.pieces) 3
resolve_lem_example = resolve_lem 3 middle middle-IsValid.whole

cell_ids_range_lem_example : (cell_ids_range 1 3 middle).0 ≡ take 3 (drop 1 (cells middle.pieces))
cell_ids_range_lem_example = cell_ids_range_lem 1 3 middle middle-IsValid.whole (omega arith)

insert_bytes_lem_example :
    Inserts 3 (run add 2 1) middle (insert_bytes 3 (0xcc ∷ []) middle)
    × ((insert_bytes 3 (0xcc ∷ []) middle).add_buffer ≡ 0xaa ∷ 0xbb ∷ 0xcc ∷ [])
insert_bytes_lem_example = insert_bytes_lem 3 (0xcc ∷ []) middle middle-IsValid (omega arith)

insert_existing_cells_lem_example :
    Inserts 6
      (cell add 1 ∷ cell original 0 ∷ [])
      middle
      (insert_existing_cells 6 (cell add 1 ∷ cell original 0 ∷ []) middle)
    × ((insert_existing_cells 6 (cell add 1 ∷ cell original 0 ∷ []) middle).add_buffer
        ≡ 0xaa ∷ 0xbb ∷ [])
insert_existing_cells_lem_example =
    insert_existing_cells_lem 6 (cell add 1 ∷ cell original 0 ∷ []) middle middle-IsValid
      (omega arith) (omega arith)

delete_range_real_lem_example : Removes 1 3 middle (delete_range_real 1 3 middle)
delete_range_real_lem_example = delete_range_real_lem 1 3 middle middle-IsValid

insert_existing_cells-delete_range_real_example :
    SameTable middle
      (insert_existing_cells 1 (delete_range_real 1 3 middle).0 (delete_range_real 1 3 middle).1)
insert_existing_cells-delete_range_real_example =
    insert_existing_cells-delete_range_real 1 3 middle middle-IsValid

delete_range_real-insert_bytes_example :
    let r = (delete_range_real 3 1 (insert_bytes 3 (0xcc ∷ []) middle)).1 in
    (r.pieces ≡ middle.pieces) × (r.len ≡ 6) × (r.add_buffer ≡ 0xaa ∷ 0xbb ∷ 0xcc ∷ [])
delete_range_real-insert_bytes_example =
    delete_range_real-insert_bytes 3 (0xcc ∷ []) middle middle-IsValid (omega arith) (omega arith)

is_identity_iff_example : (is_identity middle ≡ true) ↔ (cells middle.pieces ≡ run original 0 4)
is_identity_iff_example = is_identity_iff middle middle-IsValid

cells_to_pieces-cells_example : cells_to_pieces (cells middle.pieces) ≡ middle.pieces
cells_to_pieces-cells_example = cells_to_pieces-cells middle.pieces middle-IsValid.coalesced
