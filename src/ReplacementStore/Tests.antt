-- ===== src/ReplacementStore/Tests.antt =====
-- A store with a pattern over a window of the file and a set cell, and what is written into it.
use hxedit.Prelude.{[], arith, none, refl, some, ◌∷◌, ◌≡◌}
use hxedit.Cells.{cell, original}
use hxedit.Replacement.{ReplacementPatch, patch_xor, pattern, shifted_value, value, value_from}
use hxedit.ReplacementStore.{
  ReplacementStore, clear_source_range, collect_keys, cut_ranges, overlapping_range_keys,
  range_containing, replacement_at, retain_outside, set_bytes_range, set_pattern_range,
  set_xor_range,
}
use hxedit.ReplacementStore.Order.{Ordered}
use hxedit.ReplacementStore.Cleared.{IsDisjoint}
use hxedit.ReplacementStore.Written.{
  replacement_at-clear_source_range, replacement_at-set_bytes_range,
  replacement_at-set_pattern_range, replacement_at-set_xor_range,
}
use hxedit.ReplacementStore.Keys.{overlapping_range_keys-touching}
use hxedit.ReplacementStore.Touching.{touching}
use hxedit.ReplacementStore.Patches.{apply_patch}
use hxedit.ReplacementStore.Patched.{Fits, apply_patch-IsDisjoint}
use hxedit.CellMap.{get, insert, last_le, range, remove}
use Prim.{tt}
use Prim.Native.Nat.{bit_xor}

-- Cells 2 to 9 of the file show the pattern 5 6 7, but cell 4 shows 1.
abbrev pub striped : ReplacementStore
striped = record {
  sparse = (cell original 4, value 1) ∷ [];
  ranges =
      (
        cell original 2,
        record { start = cell original 2; len = 8; value = pattern (5 ∷ 6 ∷ 7 ∷ []) 0 },
      )
      ∷ [];
}

striped-IsDisjoint : IsDisjoint striped
unfolding IsDisjoint Ordered
striped-IsDisjoint = (refl, omega arith, omega arith, omega arith, tt)

-- The range is cut in two: its second part goes on in the pattern.
cut : replacement_at (clear_source_range original 3 2 striped) (cell original 5) 0 ≡ some 5
unfolding clear_source_range replacement_at range_containing overlapping_range_keys collect_keys
    cut_ranges retain_outside get last_le insert remove range value_from shifted_value
cut = refl

overlapping_range_keys-touching_example :
    overlapping_range_keys striped original 3 5 ≡ touching original 3 5 striped.ranges
overlapping_range_keys-touching_example =
    overlapping_range_keys-touching striped original 3 5 (omega arith) (omega arith)
      (unfold IsDisjoint in striped-IsDisjoint)

replacement_at-clear_source_range_example :
    replacement_at (clear_source_range original 3 2 striped) (cell original 5) 0
    ≡ replacement_at striped (cell original 5) 0
replacement_at-clear_source_range_example =
    replacement_at-clear_source_range original 3 2 striped original 5 0 (omega arith) (omega arith)
      striped-IsDisjoint

replacement_at-set_pattern_range_example :
    replacement_at (set_pattern_range original 3 2 (8 ∷ 9 ∷ []) 1 striped) (cell original 4) 0
    ≡ some 8
replacement_at-set_pattern_range_example =
    replacement_at-set_pattern_range original 3 2 8 (9 ∷ []) 1 striped original 4 0 (omega arith)
      (omega arith) striped-IsDisjoint

replacement_at-set_xor_range_example :
    replacement_at (set_xor_range original 3 2 255 striped) (cell original 4) 1
    ≡ some (bit_xor 1 255)
replacement_at-set_xor_range_example =
    replacement_at-set_xor_range original 3 2 255 striped original 4 1 (omega arith) (omega arith)
      (omega arith) striped-IsDisjoint

replacement_at-set_bytes_range_example :
    replacement_at (set_bytes_range original 3 2 (8 ∷ 9 ∷ []) 0 striped) (cell original 4) 1
    ≡ some 9
replacement_at-set_bytes_range_example =
    replacement_at-set_bytes_range original 3 2 8 (9 ∷ []) 0 striped original 4 1 (omega arith)
      (omega arith) (omega arith) striped-IsDisjoint

abbrev inverted : ReplacementPatch
inverted = record {
  ranges = record { source = original; start = 1; len = 4; value = patch_xor 255 } ∷ [];
  sparse = record { id = cell original 4; value = none } ∷ [];
}

apply_patch-IsDisjoint_example : IsDisjoint (apply_patch inverted striped)
apply_patch-IsDisjoint_example =
    apply_patch-IsDisjoint inverted striped (unfold Fits in (omega arith, tt)) striped-IsDisjoint
