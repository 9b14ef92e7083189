-- ===== src/ReplacementStore/Patched.antt =====
-- `apply_patch`: every way in which it changes a store keeps the ranges disjoint and in order.
use hxedit.Prelude.{
  Bool, Bool-cases, List, Option, [], arith, false, if◌then◌else◌, inl, inr, none, some, suc, true,
  u64_max, zero, ℕ, ◌+◌, ◌==◌, ◌||◌, ◌∷◌, ◌≡◌, ◌≤◌,
}
use hxedit.Cells.{CellId, PieceSource}
use hxedit.Replacement.{
  PatchCell, PatchRange, PatchValue, RangeReplacement, ReplacementPatch, bytes, patch_bytes,
  patch_pattern, patch_xor, pattern, xor,
}
use hxedit.ReplacementStore.{
  ReplacementStore, clear_cell, clear_source_range, is_some, put_range, range_containing,
  set_bytes_range, set_cell, set_pattern_range, set_xor_range,
}
use hxedit.ReplacementStore.Patches.{
  apply_cell, apply_cells, apply_patch, apply_ranges, apply_value,
}
use hxedit.ReplacementStore.Cleared.{IsDisjoint}
use hxedit.ReplacementStore.Written.{written-IsDisjoint}
use hxedit.CellMap.{is_nil}
use Prim.{Unit}

put_range-IsDisjoint :
    (source : PieceSource) (start len : ℕ) (v : RangeReplacement) (s : ReplacementStore)
    → start + len ≤ u64_max
    → (len == 0) ≡ false
    → IsDisjoint s
    → IsDisjoint (put_range source start len v (clear_source_range source start len s))
put_range-IsDisjoint source start zero v s f n w = cc
put_range-IsDisjoint source start (suc n) v s f h w =
    written-IsDisjoint source start (suc n) s f (omega arith) w v

-- Unless the test says that nothing is to be done.
written_unless-IsDisjoint :
    (source : PieceSource) (start len : ℕ) (void : Bool) (v : RangeReplacement)
    (s : ReplacementStore)
    → start + len ≤ u64_max
    → IsDisjoint s
    → IsDisjoint (
        if len == 0 || void
        then s
        else put_range source start len v (clear_source_range source start len s))
written_unless-IsDisjoint source start len true v s f w =
    let done : (len == 0 || true) ≡ true = (ground arith) in rw done w
written_unless-IsDisjoint source start len false v s f w = elim (Bool-cases (len == 0)) [
  | inl c ↦ rw c w
  | inr c ↦ rw c (put_range-IsDisjoint source start len v s f c w)
]

apply_value-IsDisjoint :
    (r : PatchRange) (v : PatchValue) (s : ReplacementStore)
    → r.start + r.len ≤ u64_max
    → IsDisjoint s
    → IsDisjoint (apply_value r v s)
unfolding set_pattern_range set_xor_range set_bytes_range
apply_value-IsDisjoint r (patch_pattern bs phase) s f w =
    written_unless-IsDisjoint r.source r.start r.len (is_nil bs) (pattern bs phase) s f w
apply_value-IsDisjoint r (patch_xor key) s f w =
    written_unless-IsDisjoint r.source r.start r.len (key == 0) (xor key) s f w
apply_value-IsDisjoint r (patch_bytes bs phase) s f w =
    written_unless-IsDisjoint r.source r.start r.len (is_nil bs) (bytes bs phase) s f w

-- Every range of the patch ends below 2^64.
unfoldable pub Fits : List PatchRange → Type 0
Fits [] = Unit
Fits (r ∷ rs) = (r.start + r.len ≤ u64_max) × Fits rs

apply_ranges-IsDisjoint :
    (rs : List PatchRange) (s : ReplacementStore)
    → Fits rs
    → IsDisjoint s
    → IsDisjoint (apply_ranges rs s)
unfolding Fits apply_ranges
apply_ranges-IsDisjoint [] s f w = w
apply_ranges-IsDisjoint (r ∷ rs) s (f, fs) w =
    apply_ranges-IsDisjoint rs (apply_value r r.value s) fs (apply_value-IsDisjoint r r.value s f w)

apply_cell-IsDisjoint :
    (k : CellId) (v : Option ℕ) (s : ReplacementStore)
    → IsDisjoint s
    → IsDisjoint (apply_cell k v s)
unfolding set_cell clear_cell IsDisjoint
apply_cell-IsDisjoint k (some v) s w = w
apply_cell-IsDisjoint k none s w = elim (Bool-cases (is_some (range_containing s k))) [
  | inl c ↦ rw c w
  | inr c ↦ rw c w
]

apply_cells-IsDisjoint :
    (cs : List PatchCell) (s : ReplacementStore) → IsDisjoint s → IsDisjoint (apply_cells cs s)
unfolding apply_cells
apply_cells-IsDisjoint [] s w = w
apply_cells-IsDisjoint (c ∷ cs) s w =
    apply_cells-IsDisjoint cs (apply_cell c.id c.value s) (apply_cell-IsDisjoint c.id c.value s w)

-- Applying a patch whose ranges end below 2^64 keeps the store's ranges disjoint, in order, not empty
-- and under their starts, whatever it sets and clears.
pub apply_patch-IsDisjoint :
    (p : ReplacementPatch) (s : ReplacementStore)
    → Fits p.ranges
    → IsDisjoint s
    → IsDisjoint (apply_patch p s)
unfolding apply_patch
apply_patch-IsDisjoint p s f w =
    apply_cells-IsDisjoint p.sparse (apply_ranges p.ranges s)
      (apply_ranges-IsDisjoint p.ranges s f w)
