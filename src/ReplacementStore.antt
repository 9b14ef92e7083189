-- ===== src/ReplacementStore.antt =====
-- src/core/document/replacement_store.rs: `ReplacementStore`, the replacements of single cells over
-- those of ranges.
pub mod Queries
pub mod Patches
pub mod Cells
pub mod Order
pub mod Regions
pub mod Insertion
pub mod Touching
pub mod Sources
pub mod Lookup
pub mod Shifted
pub mod Keys
pub mod Cut
pub mod Window
pub mod Cleared
pub mod Written
pub mod Patched
pub mod SparseOrder
pub mod Tests
use package.hxedit.Prelude.{
  Bool, List, Option, [], false, if◌then◌else◌, leb, ltb, none, not, saturating_add, some, true,
  u64_max, ℕ, ◌&&◌, ◌++◌, ◌-◌, ◌==◌, ◌||◌, ◌∷◌,
}
use package.hxedit.Cells.{CellId, PieceSource, cell, from_source, source_eq}
use package.hxedit.CellMap.{cell_eq, get, insert, is_nil, last_le, range, remove}
use package.hxedit.Replacement.{
  RangeReplacement, ReplacementRange, SparseReplacement, bytes, clear, in_range, overlaps, pattern,
  range_end, range_offset, range_source, shifted, value, value_at, xor,
}

pub record ReplacementStore : Type 0 where
  pub sparse : List (CellId × SparseReplacement)
  pub ranges : List (CellId × ReplacementRange)

abbrev pub no_replacements : ReplacementStore
no_replacements = record { sparse = []; ranges = [] }

abbrev pub is_empty : ReplacementStore → Bool
is_empty s = is_nil s.sparse && is_nil s.ranges

abbrev pub if_contains : CellId → Option (CellId × ReplacementRange) → Option ReplacementRange
if_contains id none = none
if_contains id (some (k, r)) = if in_range r id then some r else none

unfoldable pub range_containing : ReplacementStore → CellId → Option ReplacementRange
range_containing s id = if_contains id (last_le id s.ranges)

abbrev pub range_value : CellId → ℕ → Option ReplacementRange → Option ℕ
range_value id base none = none
range_value id base (some r) = some (value_at r id base)

abbrev pub sparse_or : Option SparseReplacement → Option ℕ → Option ℕ
sparse_or (some (value v)) r = some v
sparse_or (some clear) r = none
sparse_or none r = r

-- The method `get`.
unfoldable pub replacement_at : ReplacementStore → CellId → ℕ → Option ℕ
replacement_at s id base = sparse_or (get id s.sparse) (range_value id base (range_containing s id))

unfoldable pub set_cell : CellId → ℕ → ReplacementStore → ReplacementStore
set_cell id v s = record s { sparse = insert id (value v) s.sparse }

abbrev pub is_some {ℓ} : {A : Type ℓ} → Option A → Bool
is_some none = false
is_some (some _) = true

unfoldable pub clear_cell : CellId → ReplacementStore → ReplacementStore
clear_cell id s =
    if is_some (range_containing s id)
    then record s { sparse = insert id clear s.sparse }
    else record s { sparse = remove id s.sparse }

-- The second loop of `overlapping_range_keys`, over the ranges from `start_id` to the end of the
-- source; `seen` is the key that the first part has pushed.
abbrev pub keys_contain : List CellId → CellId → Bool
keys_contain [] k = false
keys_contain (j ∷ js) k = cell_eq j k || keys_contain js k

unfoldable pub collect_keys :
    PieceSource → ℕ → ℕ → List CellId → List (CellId × ReplacementRange) → List CellId
collect_keys source start end seen [] = []
collect_keys source start end seen ((k, r) ∷ rs) =
    let rest = collect_keys source start end seen rs in
    if not (source_eq (range_source r) source)
    then rest
    else if leb end (range_offset r)
    then []
    else if not (keys_contain seen k) && overlaps r source start end
    then k ∷ rest
    else rest

abbrev pub key_before : PieceSource → ℕ → ℕ → Option (CellId × ReplacementRange) → List CellId
key_before source start end none = []
key_before source start end (some (k, r)) = if overlaps r source start end then k ∷ [] else []

unfoldable pub overlapping_range_keys : ReplacementStore → PieceSource → ℕ → ℕ → List CellId
unfolding collect_keys
overlapping_range_keys s source start end =
    let start_id = from_source source start in
    let first = key_before source start end (last_le start_id s.ranges) in
    if leb end start
    then []
    else first
      ++ collect_keys source start end first (range start_id (from_source source u64_max) s.ranges)

abbrev pub in_source_range : CellId → PieceSource → ℕ → ℕ → Bool
in_source_range (cell s i) source start end = source_eq s source && (leb start i && ltb i end)

-- `retain(|id, _| !cell_in_source_range(..))`
unfoldable pub retain_outside :
    PieceSource → ℕ → ℕ → List (CellId × SparseReplacement) → List (CellId × SparseReplacement)
retain_outside source start end [] = []
retain_outside source start end ((k, v) ∷ m) =
    let rest = retain_outside source start end m in
    if in_source_range k source start end then rest else (k, v) ∷ rest

-- The parts of a removed range that lie outside.
abbrev pub keep_left :
    ℕ → ReplacementRange → List (CellId × ReplacementRange) → List (CellId × ReplacementRange)
keep_left start r m =
    if ltb (range_offset r) start
    then insert r.start (record r { len = start - range_offset r }) m
    else m

abbrev pub keep_right :
    PieceSource
    → ℕ
    → ReplacementRange
    → List (CellId × ReplacementRange)
    → List (CellId × ReplacementRange)
keep_right source end r m =
    if ltb end (range_end r)
    then insert (from_source source end)
        (record (shifted r end (range_end r - end)) { start = from_source source end }) m
    else m

abbrev pub cut_range :
    PieceSource
    → ℕ
    → ℕ
    → CellId
    → Option ReplacementRange
    → List (CellId × ReplacementRange)
    → List (CellId × ReplacementRange)
cut_range source start end k none m = m
cut_range source start end k (some r) m = keep_right source end r (keep_left start r (remove k m))

unfoldable pub cut_ranges :
    PieceSource
    → ℕ
    → ℕ
    → List CellId
    → List (CellId × ReplacementRange)
    → List (CellId × ReplacementRange)
cut_ranges source start end [] m = m
cut_ranges source start end (k ∷ ks) m =
    cut_ranges source start end ks (cut_range source start end k (get k m) m)

unfoldable pub clear_source_range : PieceSource → ℕ → ℕ → ReplacementStore → ReplacementStore
unfolding cut_ranges retain_outside
clear_source_range source start len s =
    let end = saturating_add start len in
    let s' = record s { sparse = retain_outside source start end s.sparse } in
    if len == 0 then s else record s' {
      ranges = cut_ranges source start end (overlapping_range_keys s' source start end) s'.ranges;
    }

-- `self.ranges.insert(id, ReplacementRange { start: id, len, value })`
abbrev pub put_range : PieceSource → ℕ → ℕ → RangeReplacement → ReplacementStore → ReplacementStore
put_range source start len v s =
    let id = from_source source start in
    record s { ranges = insert id (record { start = id; len = len; value = v }) s.ranges }

unfoldable pub set_pattern_range :
    PieceSource → ℕ → ℕ → List ℕ → ℕ → ReplacementStore → ReplacementStore
set_pattern_range source start len bs phase s =
    if len == 0 || is_nil bs
    then s
    else put_range source start len (pattern bs phase) (clear_source_range source start len s)

unfoldable pub set_xor_range : PieceSource → ℕ → ℕ → ℕ → ReplacementStore → ReplacementStore
set_xor_range source start len key s =
    if len == 0 || key == 0
    then s
    else put_range source start len (xor key) (clear_source_range source start len s)

unfoldable pub set_bytes_range :
    PieceSource → ℕ → ℕ → List ℕ → ℕ → ReplacementStore → ReplacementStore
set_bytes_range source start len bs phase s =
    if len == 0 || is_nil bs
    then s
    else put_range source start len (bytes bs phase) (clear_source_range source start len s)
