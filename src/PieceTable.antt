-- ===== src/PieceTable.antt =====
-- src/core/piece_table.rs: the piece table, its state and every operation on it.
-- A `Vec` is a list; `Vec::insert`, `splice` and `drain` at an index cut the list there. The two
-- cells behind shared references (`prefix_ends`, `prefix_dirty`) are fields that the reading
-- operations return updated, beside their result.
-- `len` grows with the wrap-around of `u64`. The other additions of offsets are plain: on a valid
-- table they stay within the length, the original file or the add-buffer.
pub mod View
pub mod Locate
pub mod Resolve
pub mod Range
pub mod Split
pub mod Merge
pub mod Valid
pub mod Insert
pub mod Delete
pub mod Undo
pub mod Tests
use package.hxedit.Prelude.{
  Bool, List, Option, [], drop, false, get_elem?, get_or, if◌then◌else◌, leb, length, ltb, max, min,
  none, not, saturating_add, some, suc, take, true, u64_mod, zero, ℕ, ◌%◌, ◌&&◌, ◌++◌, ◌+◌, ◌-◌,
  ◌==◌, ◌||◌, ◌∷◌,
}
use package.hxedit.Cells.{
  CellId, Piece, add, cells_to_pieces, from_source, original, piece, push_piece, run, source_eq,
}

pub record PieceTable : Type 0 where
  pub original_len : ℕ
  pub add_buffer : List ℕ
  pub pieces : List Piece
  pub len : ℕ
  pub prefix_ends : List ℕ
  pub prefix_dirty : Bool

unfoldable pub new : ℕ → PieceTable
new original_len = record {
  original_len = original_len;
  add_buffer = [];
  pieces = if original_len == 0 then [] else piece original 0 original_len ∷ [];
  len = original_len;
  prefix_ends = [];
  prefix_dirty = true;
}

abbrev pub is_empty : PieceTable → Bool
is_empty t = t.len == 0

-- `self.pieces.len() == 1 && self.pieces[0] == Piece { Original, 0, original_len }`
abbrev pub is_whole_file : ℕ → List Piece → Bool
is_whole_file n (p ∷ []) = source_eq p.source original && p.start == 0 && p.len == n
is_whole_file n _ = false

abbrev pub is_nil : List Piece → Bool
is_nil [] = true
is_nil (_ ∷ _) = false

unfoldable pub is_identity : PieceTable → Bool
is_identity t =
    if not (t.len == t.original_len)
    then false
    else if t.original_len == 0
    then is_nil t.pieces
    else is_whole_file t.original_len t.pieces

abbrev pub add_len : PieceTable → ℕ
add_len t = length t.add_buffer

abbrev pub add_byte : PieceTable → ℕ → Option ℕ
add_byte t offset = get_elem? t.add_buffer offset

unfoldable pub add_buffer_slice : PieceTable → ℕ → ℕ → List ℕ
add_buffer_slice t start len =
    let end = min (start + len) (length t.add_buffer) in
    if leb end start then [] else take (end - start) (drop start t.add_buffer)

-- The loop of `ensure_prefix`, from a running total.
unfoldable pub prefix_sums : ℕ → List Piece → List ℕ
prefix_sums cursor [] = []
prefix_sums cursor (p ∷ ps) = (cursor + p.len) ∷ prefix_sums (cursor + p.len) ps

unfoldable pub ensure_prefix : PieceTable → PieceTable
ensure_prefix t =
    if t.prefix_dirty
    then record t { prefix_ends = prefix_sums 0 t.pieces; prefix_dirty = false }
    else t

-- `partition_point(|end| *end <= display_offset)`: the first index where the test fails.
unfoldable pub partition_point : ℕ → List ℕ → ℕ
partition_point display_offset [] = 0
partition_point display_offset (end ∷ ends) =
    let rest = partition_point display_offset ends in if leb end display_offset then suc rest else 0

abbrev pub cursor_at : List ℕ → ℕ → ℕ
cursor_at ends zero = 0
cursor_at ends (suc i) = get_or ends i 0

-- The index of the piece and the display offset at which it starts, and the table left behind.
unfoldable pub find_piece : ℕ → PieceTable → Option (ℕ × ℕ) × PieceTable
find_piece display_offset t =
    if leb t.len display_offset || is_nil t.pieces
    then (none, t)
    else let t' = ensure_prefix t in
      let idx = partition_point display_offset t'.prefix_ends in
      if leb (length t'.pieces) idx
      then (none, t')
      else (some (idx, cursor_at t'.prefix_ends idx), t')

abbrev pub invalidate_prefix : PieceTable → PieceTable
invalidate_prefix t = record t { prefix_dirty = true }

abbrev pub cell_in : ℕ → ℕ → Option Piece → Option CellId
cell_in display_offset cursor none = none
cell_in display_offset cursor (some p) =
    some (from_source p.source (p.start + (display_offset - cursor)))

abbrev pub resolve_found : ℕ → Option (ℕ × ℕ) → List Piece → Option CellId
resolve_found display_offset none pieces = none
resolve_found display_offset (some (idx, cursor)) pieces =
    cell_in display_offset cursor (get_elem? pieces idx)

unfoldable pub resolve : ℕ → PieceTable → Option CellId × PieceTable
resolve display_offset t =
    if leb t.len display_offset
    then (none, t)
    else let found = find_piece display_offset t in
      (resolve_found display_offset found.0 found.1.pieces, found.1)

-- The loop of `cell_ids_range`, over the pieces from `start_idx` on.
unfoldable pub collect_cells : ℕ → ℕ → ℕ → List Piece → List CellId
collect_cells display_offset end cursor [] = []
collect_cells display_offset end cursor (p ∷ ps) =
    let piece_end = cursor + p.len in
    let overlap_start = max display_offset cursor in
    let overlap_end = min end piece_end in
    let rest = collect_cells display_offset end piece_end ps in
    if leb end cursor
    then []
    else if ltb overlap_start overlap_end
    then run p.source (p.start + (overlap_start - cursor)) (overlap_end - overlap_start) ++ rest
    else rest

abbrev pub collect_found : ℕ → ℕ → Option (ℕ × ℕ) → List Piece → List CellId
collect_found display_offset end none pieces = []
collect_found display_offset end (some (idx, cursor)) pieces =
    collect_cells display_offset end cursor (drop idx pieces)

unfoldable pub cell_ids_range : ℕ → ℕ → PieceTable → List CellId × PieceTable
cell_ids_range display_offset len t =
    if len == 0 || leb t.len display_offset
    then ([], t)
    else let end = min (saturating_add display_offset len) t.len in
      let found = find_piece display_offset t in
      (collect_found display_offset end found.0 found.1.pieces, found.1)

unfoldable pub coalesce_onto : List Piece → List Piece → List Piece
coalesce_onto merged [] = merged
coalesce_onto merged (p ∷ ps) =
    coalesce_onto (if p.len == 0 then merged else push_piece merged p) ps

abbrev pub coalesce : PieceTable → PieceTable
coalesce t = if is_nil t.pieces then t else record t { pieces = coalesce_onto [] t.pieces }

-- `self.pieces[idx].len = left_len; self.pieces.insert(idx + 1, right);`
abbrev pub split_in : ℕ → ℕ → List Piece → List Piece
split_in zero left_len [] = []
split_in zero left_len (p ∷ ps) =
    record p { len = left_len } ∷ piece p.source (p.start + left_len) (p.len - left_len) ∷ ps
split_in (suc idx) left_len [] = []
split_in (suc idx) left_len (p ∷ ps) = p ∷ split_in idx left_len ps

abbrev pub piece_len : Option Piece → ℕ
piece_len none = 0
piece_len (some p) = p.len

abbrev pub split_found : ℕ → Option (ℕ × ℕ) → PieceTable → ℕ × PieceTable
split_found display_offset none t = (length t.pieces, t)
split_found display_offset (some (idx, cursor)) t =
    let piece_end = cursor + piece_len (get_elem? t.pieces idx) in
    if display_offset == cursor
    then (idx, t)
    else if display_offset == piece_end
    then (idx + 1, t)
    else (
      idx + 1,
      record t { pieces = split_in idx (display_offset - cursor) t.pieces; prefix_dirty = true },
    )

-- The index at which a new piece goes, and the table with the spanning piece split.
unfoldable pub split_piece_at : ℕ → PieceTable → ℕ × PieceTable
split_piece_at display_offset t =
    if display_offset == 0
    then (0, t)
    else if leb t.len display_offset
    then (length t.pieces, t)
    else let found = find_piece display_offset t in split_found display_offset found.0 found.1

-- How the three mutations end: `self.coalesce(); self.invalidate_prefix();`
abbrev pub committed : PieceTable → PieceTable
committed t = invalidate_prefix (coalesce t)

abbrev pub add_wrapping : ℕ → ℕ → ℕ
add_wrapping a b = (a + b) % u64_mod

unfoldable pub insert_bytes : ℕ → List ℕ → PieceTable → PieceTable
insert_bytes display_offset [] t = t
insert_bytes display_offset (b ∷ bs) t =
    let new_piece = piece add (length t.add_buffer) (length (b ∷ bs)) in
    let grown = record t { add_buffer = t.add_buffer ++ (b ∷ bs) } in
    let (idx, s) = split_piece_at (min display_offset t.len) grown in
    committed (record s {
      pieces = take idx s.pieces ++ (new_piece ∷ drop idx s.pieces);
      len = add_wrapping s.len new_piece.len;
    })

unfoldable pub insert_existing_cells : ℕ → List CellId → PieceTable → PieceTable
insert_existing_cells display_offset [] t = t
insert_existing_cells display_offset (c ∷ cs) t =
    let (idx, s) = split_piece_at (min display_offset t.len) t in
    committed (record s {
      pieces = take idx s.pieces ++ (cells_to_pieces (c ∷ cs) ++ drop idx s.pieces);
      len = add_wrapping s.len (length (c ∷ cs));
    })

-- The part of `delete_range_real` behind its tests.
abbrev pub cut_out : ℕ → ℕ → PieceTable → PieceTable
cut_out display_offset end t =
    let (start_idx, s) = split_piece_at display_offset t in
    let (end_idx, s') = split_piece_at end s in
    committed (record s' {
      pieces = take start_idx s'.pieces ++ drop end_idx s'.pieces;
      len = s'.len - (end - display_offset);
    })

abbrev pub delete_found : ℕ → ℕ → List CellId × PieceTable → List CellId × PieceTable
delete_found display_offset end ([], t) = ([], t)
delete_found display_offset end (c ∷ cs, t) = (c ∷ cs, cut_out display_offset end t)

unfoldable pub delete_range_real : ℕ → ℕ → PieceTable → List CellId × PieceTable
delete_range_real display_offset len t =
    if len == 0 || leb t.len display_offset
    then ([], t)
    else let end = min (saturating_add display_offset len) t.len in
      delete_found display_offset end (cell_ids_range display_offset (end - display_offset) t)
