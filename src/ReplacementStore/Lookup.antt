-- ===== src/ReplacementStore/Lookup.antt =====
-- Ranges found by key against ranges found by cell.
use hxedit.Prelude.{
  Bool-cases, List, [], arith, inl, inr, some, true, u64_mod, ℕ, ◌+◌, ◌<◌, ◌∷◌, ◌≡◌,
}
use hxedit.Cells.{CellId, PieceSource, cell}
use hxedit.CellMap.{cell_eq, get}
use hxedit.Replacement.{ReplacementRange, in_range}
use hxedit.ReplacementStore.Order.{Ordered, any_range, inside-bounds, outside-behind, pos}
use hxedit.ReplacementStore.Regions.{get-Entry}

-- The entry of a cell, found by key.
pub get-any_range :
    (s : PieceSource) (i : ℕ) (k : CellId) (r : ReplacementRange) (lo : ℕ)
    (m : List (CellId × ReplacementRange))
    → Ordered lo m
    → i < u64_mod
    → get k m ≡ some r
    → in_range r (cell s i) ≡ true
    → any_range (cell s i) m ≡ some r
unfolding any_range get Ordered
get-any_range s i k r lo [] o b h t = cc
get-any_range s i k r lo ((j, q) ∷ m) (e, l, n, f, o) b h t = elim (Bool-cases (cell_eq j k)) [
  | inl c ↦ let here : some q ≡ some r = (rw c at h) in let same : q ≡ r = (cc) in rw (same, t)
  | inr c ↦
      let kept : get k m ≡ some r = (rw c at h) in
      let w = get-Entry k r (pos j + q.len) m o kept in
      let u = inside-bounds k r s i w.keyed w.bounded b t in
      rw (outside-behind j q s i e f b (omega (arith, w.above, u)))
        (get-any_range s i k r (pos j + q.len) m o b kept t)
]
