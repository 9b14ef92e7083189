-- ===== src/ReplacementStore/Insertion.antt =====
-- Putting a range into an ordered map where it has room.
use hxedit.Prelude.{
  Bool-cases, List, [], arith, if◌then◌else◌, inl, inr, le→ltb, lt→ltb, refl, some, u64_max,
  u64_mod, ℕ, ≢→==, ◌+◌, ◌<◌, ◌∷◌, ◌≡◌, ◌≤◌,
}
use hxedit.Cells.{CellId, PieceSource, cell}
use hxedit.CellMap.{insert}
use hxedit.Replacement.{ReplacementRange, in_range}
use hxedit.ReplacementStore.Order.{
  Ordered, any_range, cell_eq-pos, cell_lt-pos, inside-bounds, outside-below, pos,
}
use hxedit.ReplacementStore.Regions.{Free}
use Prim.{tt}

module _ (u : PieceSource) (a : ℕ) (r : ReplacementRange) (e : r.start ≡ cell u a)
    (filled : 0 < r.len) (bounded : a + r.len ≤ u64_max) where
  pub insert-Ordered :
      (lo : ℕ) (m : List (CellId × ReplacementRange))
      → lo ≤ pos (cell u a)
      → Free (pos (cell u a)) r.len m
      → Ordered lo m
      → Ordered lo (insert (cell u a) r m)
  unfolding insert Ordered Free
  insert-Ordered lo [] h free o = (e, h, filled, bounded, tt)
  insert-Ordered lo ((cell v c, q) ∷ m) h (here, free) (d, l, n, f, o) =
      let eq = cell_eq-pos v u c a (omega arith) (omega arith) in
      let lt = cell_lt-pos u v a c (omega arith) (omega arith) in
      let p = pos (cell u a) in
      let j = pos (cell v c) in
      elim here [
        | inl before ↦
            rw (eq, ≢→== j p (λ x. absurd (omega arith)), lt, le→ltb p j (omega arith))
              (d, l, n, f, insert-Ordered (j + q.len) m before free o)
        | inr behind ↦
            rw (eq, ≢→== j p (λ x. absurd (omega arith)), lt, lt→ltb p j (omega arith))
              (e, h, filled, bounded, (d, behind, n, f, o))
      ]

  pub any_range-insert :
      (s : PieceSource) (i lo : ℕ) (m : List (CellId × ReplacementRange))
      → i < u64_mod
      → Free (pos (cell u a)) r.len m
      → Ordered lo m
      → any_range (cell s i) (insert (cell u a) r m)
        ≡ (if in_range r (cell s i) then some r else any_range (cell s i) m)
  unfolding insert Ordered Free any_range
  any_range-insert s i lo [] b free o = refl
  any_range-insert s i lo ((cell v c, q) ∷ m) b (here, free) (d, l, n, f, o) =
      let eq = cell_eq-pos v u c a (omega arith) (omega arith) in
      let lt = cell_lt-pos u v a c (omega arith) (omega arith) in
      let p = pos (cell u a) in
      let j = pos (cell v c) in
      elim here [
        | inr behind ↦
            rw (eq, ≢→== j p (λ x. absurd (omega arith)), lt, lt→ltb p j (omega arith)) refl
        | inl before ↦
            rw
              (
                eq,
                ≢→== j p (λ x. absurd (omega arith)),
                lt,
                le→ltb p j (omega arith),
                any_range-insert s i (j + q.len) m b free o,
              )
              (elim (Bool-cases (in_range q (cell s i))) [
                | inr t ↦ rw t
                | inl t ↦
                    let w = inside-bounds (cell v c) q s i d f b t in
                    rw (t, outside-below (cell u a) r s i e bounded b (omega (arith, w)))
              ])
      ]
