-- ===== src/ReplacementStore/Cells.antt =====
-- The replacements of single cells: what `set_cell` and `clear_cell` change, and what they keep.
use hxedit.Prelude.{
  Bool-cases, List, Option, arith, false, if◌then◌else◌, inl, inr, none, refl, some, subst, ℕ, ◌≡◌,
}
use hxedit.Cells.{CellId}
use hxedit.CellMap.{cell_eq, insert, remove}
use hxedit.CellMap.Laws.{cell_eq→≡, get-insert, get-remove}
use hxedit.Replacement.{ReplacementRange, SparseReplacement, clear, value}
use hxedit.ReplacementStore.{
  ReplacementStore, clear_cell, is_some, range_containing, range_value, replacement_at, set_cell,
}

-- After `set_cell` the cell reads the value, whatever range it lies in, and every other cell reads
-- as before.
pub replacement_at-set_cell :
    (id j : CellId) (v base : ℕ) (s : ReplacementStore)
    → replacement_at (set_cell id v s) j base
      ≡ (if cell_eq id j then some v else replacement_at s j base)
unfolding replacement_at set_cell range_containing
replacement_at-set_cell id j v base s = rw (get-insert id j (value v) s.sparse) (ground arith)

range_containing-sparse :
    (s : ReplacementStore) (m : List (CellId × SparseReplacement)) (j : CellId)
    → range_containing (record s { sparse = m }) j ≡ range_containing s j
unfolding range_containing
range_containing-sparse s m j = refl

range_value-none :
    (id : CellId) (base : ℕ) (r : Option ReplacementRange)
    → is_some r ≡ false
    → range_value id base r ≡ none
range_value-none id base none h = refl
range_value-none id base (some r) h = cc

-- After `clear_cell` the cell has no replacement, also if it lies in a range, and every other cell
-- reads as before.
pub replacement_at-clear_cell :
    (id j : CellId) (base : ℕ) (s : ReplacementStore)
    → replacement_at (clear_cell id s) j base
      ≡ (if cell_eq id j then none else replacement_at s j base)
unfolding replacement_at clear_cell
replacement_at-clear_cell id j base s = elim (Bool-cases (is_some (range_containing s id))) [
  | inl e ↦
      rw (e, range_containing-sparse s (insert id clear s.sparse) j, get-insert id j clear s.sparse)
        (ground arith)
  | inr e ↦
      rw (e, range_containing-sparse s (remove id s.sparse) j, get-remove id j s.sparse)
        (elim (Bool-cases (cell_eq id j)) [
          | inl f ↦ rw f (
              range_value-none j base (range_containing s j)
                (subst (λ k. is_some (range_containing s k) ≡ false) (cell_eq→≡ id j f) e))
          | inr f ↦ rw f
        ])
]
