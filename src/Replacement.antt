-- ===== src/Replacement.antt =====
-- src/core/document/replacement_store.rs: the values that replace bytes, one cell or a range of a
-- source at a time, and the undo patches made of them.
-- `Arc<[u8]>` is a list. A pattern is never empty where it is stored, so `%` by its length is that
-- of the source.
use package.hxedit.Prelude.{
  Bool, List, Option, [], drop, get_or, if◌then◌else◌, leb, length, ltb, map, none, saturating_add,
  some, take, ℕ, ◌%◌, ◌&&◌, ◌++◌, ◌+◌, ◌-◌, ◌==◌, ◌∷◌,
}
use Prim.Native.Nat.{bit_xor}
use package.hxedit.Cells.{
  CellId, PieceSource, cell, cell_offset, cell_source, from_source, source_eq,
}

pub data SparseReplacement : Type 0 where
  value : ℕ → SparseReplacement
  clear : SparseReplacement

pub data RangeReplacement : Type 0 where
  pattern : List ℕ → ℕ → RangeReplacement
  xor : ℕ → RangeReplacement
  bytes : List ℕ → ℕ → RangeReplacement

pub record ReplacementRange : Type 0 where
  pub start : CellId
  pub len : ℕ
  pub value : RangeReplacement

pub data PatchValue : Type 0 where
  patch_pattern : List ℕ → ℕ → PatchValue
  patch_xor : ℕ → PatchValue
  patch_bytes : List ℕ → ℕ → PatchValue

pub record PatchRange : Type 0 where
  pub source : PieceSource
  pub start : ℕ
  pub len : ℕ
  pub value : PatchValue

pub record PatchCell : Type 0 where
  pub id : CellId
  pub value : Option ℕ

pub record ReplacementPatch : Type 0 where
  pub ranges : List PatchRange
  pub sparse : List PatchCell

abbrev pub empty_patch : ReplacementPatch
empty_patch = record { ranges = []; sparse = [] }

abbrev pub extend : ReplacementPatch → ReplacementPatch → ReplacementPatch
extend p q = record { ranges = p.ranges ++ q.ranges; sparse = p.sparse ++ q.sparse }

abbrev pub range_source : ReplacementRange → PieceSource
range_source r = cell_source r.start

abbrev pub range_offset : ReplacementRange → ℕ
range_offset r = cell_offset r.start

abbrev pub range_end : ReplacementRange → ℕ
range_end r = saturating_add (range_offset r) r.len

abbrev pub in_range : ReplacementRange → CellId → Bool
in_range r (cell s i) =
    source_eq s (range_source r) && (leb (range_offset r) i && ltb i (range_end r))

abbrev pub overlaps : ReplacementRange → PieceSource → ℕ → ℕ → Bool
overlaps r source start end =
    source_eq (range_source r) source && (ltb (range_offset r) end && ltb start (range_end r))

-- `((*phase % pattern_len) + (delta % pattern_len)) % pattern_len`
abbrev pub shifted_phase : ℕ → ℕ → ℕ → ℕ
shifted_phase phase delta n = (phase % n + delta % n) % n

-- The value at `local` cells from the range's start.
unfoldable pub value_from : RangeReplacement → ℕ → ℕ → ℕ
value_from (pattern bs phase) local base = get_or bs (shifted_phase phase local (length bs)) 0
value_from (xor key) local base = bit_xor base key
value_from (bytes bs phase) local base = get_or bs (saturating_add phase local) base

abbrev pub value_at : ReplacementRange → CellId → ℕ → ℕ
value_at r id base = value_from r.value (cell_offset id - range_offset r) base

unfoldable pub shifted_value : RangeReplacement → ℕ → RangeReplacement
shifted_value (pattern bs phase) delta = pattern bs (shifted_phase phase delta (length bs))
shifted_value (xor key) delta = xor key
shifted_value (bytes bs phase) delta = bytes bs (saturating_add phase delta)

abbrev pub shifted : ReplacementRange → ℕ → ℕ → ReplacementRange
shifted r start len = record {
  start = from_source (range_source r) start;
  len = len;
  value = shifted_value r.value (start - range_offset r);
}

abbrev pub xored : ℕ → List ℕ → List ℕ
xored key bs = map (λ b. bit_xor b key) bs

abbrev unless_empty : List ℕ → Option RangeReplacement
unless_empty [] = none
unless_empty (b ∷ bs) = some (bytes (b ∷ bs) 0)

-- `bytes[begin..end]` panics past the end; the store keeps `phase + len` within the bytes.
unfoldable pub xor_composed : RangeReplacement → ℕ → ℕ → ℕ → Option RangeReplacement
xor_composed (pattern bs phase) delta len key =
    some (pattern (xored key bs) (shifted_phase phase delta (length bs)))
xor_composed (xor existing) delta len key =
    let key' = bit_xor existing key in if key' == 0 then none else some (xor key')
xor_composed (bytes bs phase) delta len key =
    let begin = saturating_add phase delta in
    let end = saturating_add begin len in
    unless_empty (xored key (take (end - begin) (drop begin bs)))

unfoldable pub patch_value_shifted : RangeReplacement → ℕ → PatchValue
patch_value_shifted (pattern bs phase) delta =
    patch_pattern bs (shifted_phase phase delta (length bs))
patch_value_shifted (xor key) delta = patch_xor key
patch_value_shifted (bytes bs phase) delta = patch_bytes bs (saturating_add phase delta)
