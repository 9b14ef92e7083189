-- ===== src/ReplacementStore/Queries.antt =====
-- src/core/document/replacement_store.rs: the questions that the walkers and the save path ask.
use hxedit.Prelude.{
  Bool, List, [], false, if◌then◌else◌, leb, not, saturating_add, true, u64_max, ℕ, ◌+◌, ◌-◌, ◌==◌,
  ◌||◌, ◌∷◌,
}
use hxedit.Cells.{CellId, PieceSource, cell_offset, cell_source, from_source, source_eq}
use hxedit.CellMap.{cell_lt, is_nil, range}
use hxedit.Replacement.{
  ReplacementRange, SparseReplacement, clear, range_offset, range_source, value,
}
use hxedit.ReplacementStore.{ReplacementStore, is_some, overlapping_range_keys, range_containing}

unfoldable pub has_in_range_same_source : ReplacementStore → PieceSource → ℕ → ℕ → Bool
has_in_range_same_source s source start end =
    if leb end start then false else not (is_nil (overlapping_range_keys s source start end))

-- `lo > hi` is an empty range; across sources it is the end of the one and the begin of the other.
unfoldable pub has_in_range : ReplacementStore → CellId → CellId → Bool
unfolding has_in_range_same_source
has_in_range s lo hi =
    if cell_lt hi lo
    then false
    else if not (is_nil (range lo hi s.sparse))
    then true
    else if source_eq (cell_source lo) (cell_source hi)
    then has_in_range_same_source s (cell_source lo) (cell_offset lo)
        (saturating_add (cell_offset hi) 1)
    else has_in_range_same_source s (cell_source lo) (cell_offset lo) u64_max
      || has_in_range_same_source s (cell_source hi) 0 (saturating_add (cell_offset hi) 1)

unfoldable pub has_sparse_in_range : ReplacementStore → CellId → CellId → Bool
has_sparse_in_range s lo hi = if cell_lt hi lo then false else not (is_nil (range lo hi s.sparse))

unfoldable pub has_range_in_source_range : ReplacementStore → PieceSource → ℕ → ℕ → Bool
unfolding has_in_range_same_source
has_range_in_source_range s source start len =
    if len == 0 then false else has_in_range_same_source s source start (saturating_add start len)

unfoldable pub values_of : PieceSource → List (CellId × SparseReplacement) → List (ℕ × ℕ)
values_of source [] = []
values_of source ((k, clear) ∷ m) = values_of source m
values_of source ((k, value v) ∷ m) =
    let rest = values_of source m in
    if source_eq (cell_source k) source then (cell_offset k, v) ∷ rest else rest

unfoldable pub sparse_values_in_source_range : ReplacementStore → PieceSource → ℕ → ℕ → List (ℕ × ℕ)
unfolding values_of
sparse_values_in_source_range s source start len =
    let end = saturating_add start len in
    if len == 0
    then []
    else values_of source (range (from_source source start) (from_source source (end - 1)) s.sparse)

abbrev total_len : List (CellId × ReplacementRange) → ℕ
total_len [] = 0
total_len ((k, r) ∷ m) = r.len + total_len m

-- What one sparse entry adds to the count of changed bytes.
abbrev count_cell : Bool → SparseReplacement → ℕ → ℕ
count_cell true clear total = total - 1
count_cell true (value v) total = total
count_cell false clear total = total
count_cell false (value v) total = saturating_add total 1

count_cells : ReplacementStore → List (CellId × SparseReplacement) → ℕ → ℕ
count_cells s [] total = total
count_cells s ((k, v) ∷ m) total =
    count_cells s m (count_cell (is_some (range_containing s k)) v total)

unfoldable pub dirty_bytes : ReplacementStore → ℕ
unfolding count_cells
dirty_bytes s = count_cells s s.sparse (total_len s.ranges)

unfoldable pub sparse_values : List (CellId × SparseReplacement) → List (CellId × ℕ)
sparse_values [] = []
sparse_values ((k, clear) ∷ m) = sparse_values m
sparse_values ((k, value v) ∷ m) = (k, v) ∷ sparse_values m

abbrev pub has_range_at : ReplacementStore → CellId → Bool
has_range_at s id = is_some (range_containing s id)

pub record RangeSnapshot : Type 0 where
  pub source : PieceSource
  pub source_offset : ℕ
  pub len : ℕ

unfoldable pub range_snapshots : List (CellId × ReplacementRange) → List RangeSnapshot
range_snapshots [] = []
range_snapshots ((k, r) ∷ m) =
    record { source = range_source r; source_offset = range_offset r; len = r.len }
    ∷ range_snapshots m
