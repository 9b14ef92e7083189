-- ===== src/ReplacementStore/Patches.antt =====
-- src/core/document/replacement_store.rs: undo patches, and the composition of XOR overlays.
use hxedit.Prelude.{
  Bool, List, Option, [], if◌then◌else◌, leb, ltb, max, min, none, not, saturating_add, some,
  u64_max, ℕ, ◌-◌, ◌==◌, ◌||◌, ◌∷◌,
}
use hxedit.Cells.{CellId, PieceSource, cell_offset, cell_source, from_source, source_eq}
use hxedit.CellMap.{get, is_nil, range}
use hxedit.Replacement.{
  PatchCell, PatchRange, PatchValue, RangeReplacement, ReplacementPatch, ReplacementRange,
  SparseReplacement, bytes, clear, empty_patch, patch_bytes, patch_pattern, patch_value_shifted,
  patch_xor, pattern, range_end, range_offset, value, xor, xor_composed,
}
use hxedit.ReplacementStore.{
  ReplacementStore, clear_cell, clear_source_range, overlapping_range_keys, put_range,
  set_bytes_range, set_cell, set_pattern_range, set_xor_range,
}

-- The part of a range inside `start..end`, if any.
abbrev patch_range : PieceSource → ℕ → ℕ → ReplacementRange → List PatchRange → List PatchRange
patch_range source start end r rest =
    let clipped_start = max (range_offset r) start in
    let clipped_end = min (range_end r) end in
    if leb clipped_end clipped_start
    then rest
    else record {
      source = source;
      start = clipped_start;
      len = clipped_end - clipped_start;
      value = patch_value_shifted r.value (clipped_start - range_offset r);
    }
      ∷ rest

abbrev patch_found :
    PieceSource → ℕ → ℕ → Option ReplacementRange → List PatchRange → List PatchRange
patch_found source start end none rest = rest
patch_found source start end (some r) rest = patch_range source start end r rest

patch_ranges : ReplacementStore → PieceSource → ℕ → ℕ → List CellId → List PatchRange
patch_ranges s source start end [] = []
patch_ranges s source start end (k ∷ ks) =
    patch_found source start end (get k s.ranges) (patch_ranges s source start end ks)

abbrev patched_value : SparseReplacement → Option ℕ
patched_value (value v) = some v
patched_value clear = none

patch_cells : PieceSource → ℕ → List (CellId × SparseReplacement) → List PatchCell
patch_cells source end [] = []
patch_cells source end ((k, v) ∷ m) =
    let rest = patch_cells source end m in
    if not (source_eq (cell_source k) source)
    then rest
    else if leb end (cell_offset k)
    then []
    else record { id = k; value = patched_value v } ∷ rest

unfoldable pub patch_for_source_range : ReplacementStore → PieceSource → ℕ → ℕ → ReplacementPatch
unfolding patch_ranges patch_cells
patch_for_source_range s source start len =
    let end = saturating_add start len in
    if len == 0 then empty_patch else record {
      ranges = patch_ranges s source start end (overlapping_range_keys s source start end);
      sparse =
          patch_cells source end
            (range (from_source source start) (from_source source u64_max) s.sparse);
    }

abbrev pub apply_value : PatchRange → PatchValue → ReplacementStore → ReplacementStore
apply_value r (patch_pattern bs phase) s = set_pattern_range r.source r.start r.len bs phase s
apply_value r (patch_xor key) s = set_xor_range r.source r.start r.len key s
apply_value r (patch_bytes bs phase) s = set_bytes_range r.source r.start r.len bs phase s

unfoldable pub apply_ranges : List PatchRange → ReplacementStore → ReplacementStore
apply_ranges [] s = s
apply_ranges (r ∷ rs) s = apply_ranges rs (apply_value r r.value s)

abbrev pub apply_cell : CellId → Option ℕ → ReplacementStore → ReplacementStore
apply_cell id (some v) s = set_cell id v s
apply_cell id none s = clear_cell id s

unfoldable pub apply_cells : List PatchCell → ReplacementStore → ReplacementStore
apply_cells [] s = s
apply_cells (c ∷ cs) s = apply_cells cs (apply_cell c.id c.value s)

unfoldable pub apply_patch : ReplacementPatch → ReplacementStore → ReplacementStore
unfolding apply_ranges apply_cells
apply_patch p s = apply_cells p.sparse (apply_ranges p.ranges s)

-- A segment that the composition will write.
pub record Segment : Type 0 where
  pub start : ℕ
  pub len : ℕ
  pub value : RangeReplacement

abbrev gap : ℕ → ℕ → ℕ → List Segment → List Segment
gap key from to rest =
    if ltb from to then record { start = from; len = to - from; value = xor key } ∷ rest else rest

abbrev push_value : ℕ → ℕ → Option RangeReplacement → List Segment → List Segment
push_value start len none rest = rest
push_value start len (some v) rest = record { start = start; len = len; value = v } ∷ rest

abbrev xor_segment : ℕ → ReplacementRange → ℕ → ℕ → List Segment → List Segment
xor_segment key r from to rest =
    if ltb from to
    then push_value from (to - from) (xor_composed r.value (from - range_offset r) (to - from) key)
        rest
    else rest

-- The loop of `xor_source_range_composed` and the segment behind it.
xor_segments : ReplacementStore → ℕ → ℕ → ℕ → ℕ → List CellId → List Segment
xor_segments s key start end cursor [] = gap key cursor end []
xor_segments s key start end cursor (k ∷ ks) = elim (get k s.ranges) [
  | none ↦ xor_segments s key start end cursor ks
  | some r ↦
      let from = max (range_offset r) start in
      let to = min (range_end r) end in
      gap key cursor from (xor_segment key r from to (xor_segments s key start end to ks))
]

abbrev is_void : RangeReplacement → Bool
is_void (pattern bs phase) = is_nil bs
is_void (xor key) = key == 0
is_void (bytes bs phase) = is_nil bs

insert_range_replacement :
    PieceSource → ℕ → ℕ → RangeReplacement → ReplacementStore → ReplacementStore
insert_range_replacement source start len v s =
    if len == 0 || is_void v then s else put_range source start len v s

insert_segments : PieceSource → List Segment → ReplacementStore → ReplacementStore
unfolding insert_range_replacement
insert_segments source [] s = s
insert_segments source (g ∷ gs) s =
    insert_segments source gs (insert_range_replacement source g.start g.len g.value s)

unfoldable pub xor_source_range_composed :
    PieceSource → ℕ → ℕ → ℕ → ReplacementStore → ReplacementStore
unfolding xor_segments insert_segments
xor_source_range_composed source start len key s =
    let end = saturating_add start len in
    let segments = xor_segments s key start end start (overlapping_range_keys s source start end) in
    if len == 0 || key == 0
    then s
    else insert_segments source segments (clear_source_range source start len s)
