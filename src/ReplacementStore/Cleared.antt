-- ===== src/ReplacementStore/Cleared.antt =====
-- `clear_source_range` of a store: every cell of the window loses its replacement, no other does.
use hxedit.Prelude.{
  Bool-cases, List, [], ap, arith, false, if◌then◌else◌, inl, inr, ltb, ltb→le, ltb→lt, none, refl,
  saturating_add, true, u64_max, u64_mod, ℕ, ≢→==, ◌+◌, ◌<◌, ◌∙◌, ◌∷◌, ◌≡◌, ◌≤◌, ◌⊎◌,
}
use hxedit.Cells.{CellId, PieceSource, add, cell, original, source_eq}
use hxedit.CellMap.{cell_eq, get}
use hxedit.CellMap.Laws.{cell_eq→≡, source_eq→≡}
use hxedit.Replacement.{SparseReplacement}
use hxedit.ReplacementStore.{
  ReplacementStore, clear_source_range, in_source_range, range_containing, range_value,
  replacement_at, retain_outside, sparse_or,
}
use hxedit.ReplacementStore.Order.{Ordered, any_range, if_contains-last_le, pos, source_base}
use hxedit.ReplacementStore.Keys.{overlapping_range_keys-touching}
use hxedit.ReplacementStore.Touching.{any_range-touching, touching}
use hxedit.ReplacementStore.Window.{Remainder, cut_ranges-Remainder}

-- The ranges of a store are disjoint, in order and under their starts.
unfoldable pub IsDisjoint : ReplacementStore → Type 0
IsDisjoint s = Ordered 0 s.ranges

get-retain_outside :
    (source : PieceSource) (start end : ℕ) (k : CellId) (m : List (CellId × SparseReplacement))
    → get k (retain_outside source start end m)
      ≡ (if in_source_range k source start end then none else get k m)
unfolding get retain_outside
get-retain_outside source start end k [] = ground arith
get-retain_outside source start end k ((j, v) ∷ m) =
    let rest = get-retain_outside source start end k m in
    elim (Bool-cases (cell_eq j k)) [
      | inl c ↦
          let same = ap (λ x. in_source_range x source start end) (cell_eq→≡ j k c) in
          elim (Bool-cases (in_source_range k source start end)) [
            | inl d ↦ rw (same, d) ((rw d at rest))
            | inr d ↦ rw (same, d, c)
          ]
      | inr c ↦ elim (Bool-cases (in_source_range j source start end)) [
        | inl d ↦ rw (c, d) rest
        | inr d ↦ rw (d, c) rest
      ]
    ]

-- The value of a cell, with its range looked for by position.
pub replacement_at-any_range :
    (s : ReplacementStore) (u : PieceSource) (i base : ℕ)
    → IsDisjoint s
    → i < u64_mod
    → replacement_at s (cell u i) base
      ≡ sparse_or
          (get (cell u i) s.sparse)
          (range_value (cell u i) base (any_range (cell u i) s.ranges))
unfolding replacement_at range_containing IsDisjoint
replacement_at-any_range s u i base w b = rw (if_contains-last_le u i 0 s.ranges w b)

behind-window :
    (u source : PieceSource) (i start end : ℕ)
    → i < u64_mod
    → end ≤ u64_max
    → in_source_range (cell u i) source start end ≡ false
    → source_base source + start ≤ pos (cell u i)
    → source_base source + end ≤ pos (cell u i)
behind-window original original i start end b f h k = ground arith
behind-window original add i start end b f h k = omega arith
behind-window add original i start end b f h k = omega arith
behind-window add add i start end b f h k = ground arith

outside-window :
    (u source : PieceSource) (i start end : ℕ)
    → i < u64_mod
    → end ≤ u64_max
    → in_source_range (cell u i) source start end ≡ false
    → (pos (cell u i) < source_base source + start) ⊎ (source_base source + end ≤ pos (cell u i))
outside-window u source i start end b f h =
    elim (Bool-cases (ltb (pos (cell u i)) (source_base source + start))) [
      | inl c ↦ inl (ltb→lt _ _ c)
      | inr c ↦ inr (behind-window u source i start end b f h (ltb→le _ _ c))
    ]

module _ (source : PieceSource) (start len : ℕ) (s : ReplacementStore)
    (fits : start + len ≤ u64_max) (filled : 0 < len) (w : IsDisjoint s) where
  abbrev left_over : ReplacementStore
  left_over = clear_source_range source start len s

  pub grows : start < start + len
  grows = omega arith

  pub cleared : Remainder source start (start + len) grows fits s.ranges [] left_over.ranges
  unfolding clear_source_range IsDisjoint
  cleared =
      let end : saturating_add start len ≡ start + len = (omega arith) in
      let kept : ReplacementStore = record s {
        sparse = retain_outside source start (start + len) s.sparse;
      } in
      let keys = overlapping_range_keys-touching kept source start (start + len) grows fits w in
      rw (≢→== len 0 (λ x. absurd (omega arith)), end, keys)
        (cut_ranges-Remainder source start (start + len) grows fits
          (touching source start (start + len) s.ranges) s.ranges w refl)

  cleared-sparse : left_over.sparse ≡ retain_outside source start (start + len) s.sparse
  unfolding clear_source_range
  cleared-sparse =
      let end : saturating_add start len ≡ start + len = (omega arith) in
      rw (≢→== len 0 (λ x. absurd (omega arith)), end)

  pub get-left_over :
      (k : CellId)
      → get k left_over.sparse
        ≡ (if in_source_range k source start (start + len) then none else get k s.sparse)
  get-left_over k =
      ap (get k) cleared-sparse ∙ get-retain_outside source start (start + len) k s.sparse

  any_range-left_over :
      (u : PieceSource) (i : ℕ)
      → in_source_range (cell u i) source start (start + len) ≡ true
      → any_range (cell u i) left_over.ranges ≡ none
  any_range-left_over u i h =
      let owned : source_eq u source ≡ true = (ground arith) in
      let low : start ≤ i = (ground arith) in
      let high : i < start + len = (ground arith) in
      ap (λ x. any_range (cell x i) left_over.ranges) (source_eq→≡ u source owned)
      ∙ any_range-touching source start (start + len) grows fits i 0 left_over.ranges low high
          cleared.order cleared.overlapping

  pub replacement_at-left_over :
      (u : PieceSource) (i base : ℕ)
      → i < u64_mod
      → replacement_at left_over (cell u i) base ≡ (
          if in_source_range (cell u i) source start (start + len)
          then none
          else replacement_at s (cell u i) base)
  unfolding IsDisjoint
  replacement_at-left_over u i base b =
      rw
        (
          replacement_at-any_range left_over u i base cleared.order b,
          get-left_over (cell u i),
          replacement_at-any_range s u i base w b,
        )
        (elim (Bool-cases (in_source_range (cell u i) source start (start + len))) [
          | inl d ↦ rw (d, any_range-left_over u i d)
          | inr d ↦
              rw (
                d,
                cleared.reads u i base b (outside-window u source i start (start + len) b fits d),
              )
        ])
