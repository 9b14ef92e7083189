-- ===== src/ReplacementStore/SparseOrder.antt =====
-- The order of the replacements of single cells in a store, as in any `BTreeMap`.
use hxedit.Prelude.{List, [], suc, u64_mod, ℕ, ◌<◌, ◌∷◌, ◌≤◌}
use hxedit.Cells.{CellId, cell_offset}
use hxedit.Replacement.{SparseReplacement}
use hxedit.ReplacementStore.Order.{pos}
use Prim.{Unit}

-- The keys of a map rise from `lo` on.
unfoldable pub Sorted : ℕ → List (CellId × SparseReplacement) → Type 0
Sorted lo [] = Unit
Sorted lo ((k, v) ∷ m) = (lo ≤ pos k) × (cell_offset k < u64_mod) × Sorted (suc (pos k)) m
