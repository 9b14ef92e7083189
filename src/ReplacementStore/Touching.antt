-- ===== src/ReplacementStore/Touching.antt =====
-- The ranges that overlap a window, by a look at each: which they are, and what taking one out or
-- putting another in does to the list of their keys.
use hxedit.Prelude.{
  Bool-cases, List, [], ap, arith, false, if◌then◌else◌, inl, inr, le→ltb, ltb, ltb→le, lt→ltb,
  none, refl, saturating_add, some, sym, true, u64_max, ℕ, ◌&&◌, ◌+◌, ◌-◌, ◌<◌, ◌∙◌, ◌∷◌, ◌≡◌, ◌≤◌,
  ◌⊎◌,
}
use hxedit.Cells.{CellId, PieceSource, add, cell, cell_offset, original, source_eq}
use hxedit.CellMap.{cell_eq, cell_lt, get, insert, remove}
use hxedit.Replacement.{ReplacementRange, in_range, overlaps, range_offset, range_source}
use hxedit.ReplacementStore.Regions.{Free, get-Entry, remove-below}
use hxedit.ReplacementStore.Order.{Ordered, any_range, inside-bounds, pos, source_base}
use hxedit.CellMap.Laws.{cell_eq_refl, cell_eq→≡}

-- The keys of all ranges that overlap the window, in order.
unfoldable pub touching : PieceSource → ℕ → ℕ → List (CellId × ReplacementRange) → List CellId
touching source start end [] = []
touching source start end ((k, r) ∷ m) =
    let rest = touching source start end m in if overlaps r source start end then k ∷ rest else rest

meets-pos :
    (s u : PieceSource) (a n start end : ℕ)
    → a + n ≤ u64_max
    → end ≤ u64_max
    → (source_eq u s && (ltb a end && ltb start (saturating_add a n))) ≡ (
        ltb (source_base u + a) (source_base s + end)
        && ltb (source_base s + start) (source_base u + a + n))
meets-pos original original a n start end h k = ground arith
meets-pos original add a n start end h k = ground arith
meets-pos add original a n start end h k = ground arith
meets-pos add add a n start end h k = ground arith

module _ (source : PieceSource) (start end : ℕ) (window : start < end)
    (bounded : end ≤ u64_max) where
  abbrev begin : ℕ
  begin = source_base source + start

  -- Which entries overlap, by position.
  pub overlaps-pos :
      (k : CellId) (r : ReplacementRange)
      → r.start ≡ k
      → cell_offset k + r.len ≤ u64_max
      → overlaps r source start end
        ≡ (ltb (pos k) (source_base source + end) && ltb begin (pos k + r.len))
  overlaps-pos k r e f =
      meets-pos source (range_source r) (range_offset r) r.len start end
        (omega (arith, ap cell_offset e)) bounded
      ∙ ap (λ c. ltb (pos c) (source_base source + end) && ltb begin (pos c + r.len)) e

  pub overlaps-far :
      (k : CellId) (r : ReplacementRange)
      → r.start ≡ k
      → cell_offset k + r.len ≤ u64_max
      → (source_base source + end ≤ pos k) ⊎ (pos k + r.len ≤ begin)
      → overlaps r source start end ≡ false
  overlaps-far k r e f (inl h) =
      overlaps-pos k r e f ∙ (rw (le→ltb (pos k) (source_base source + end) h))
  overlaps-far k r e f (inr h) = overlaps-pos k r e f ∙ (ground arith)

  pub touching-behind :
      (lo : ℕ) (m : List (CellId × ReplacementRange))
      → Ordered lo m
      → source_base source + end ≤ lo
      → touching source start end m ≡ []
  unfolding touching Ordered
  touching-behind lo [] o h = refl
  touching-behind lo ((k, r) ∷ m) (e, l, n, f, o) h =
      rw (overlaps-far k r e f (inl (omega arith)))
        (touching-behind (pos k + r.len) m o (omega arith))

  -- The first key: its entry overlaps, and without it the others are left.
  pub touching-head :
      (k : CellId) (ks : List CellId) (lo : ℕ) (m : List (CellId × ReplacementRange))
      → Ordered lo m
      → touching source start end m ≡ k ∷ ks
      → (r : ReplacementRange) × (get k m ≡ some r)
        × (overlaps r source start end ≡ true)
        × (touching source start end (remove k m) ≡ ks)
  unfolding touching Ordered get remove
  touching-head k ks lo [] o h = cc
  touching-head k ks lo ((j, q) ∷ m) (e, l, n, f, o) h =
      elim (Bool-cases (overlaps q source start end)) [
        | inl d ↦
            let here : j ∷ touching source start end m ≡ k ∷ ks = (rw d at h) in
            let same : j ≡ k = (cc) in
            let others : touching source start end m ≡ ks = (cc) in
            let at = ap pos same in
            let hit : cell_eq j k ≡ true = (rw same (cell_eq_refl k)) in
            (q, rw hit, d, rw (hit, remove-below k (pos j + q.len) m o (omega (arith, at))) others)
        | inr d ↦
            let (r, g, t, others) = touching-head k ks (pos j + q.len) m o (rw d at h) in
            let w = get-Entry k r (pos j + q.len) m o g in
            elim (Bool-cases (cell_eq j k)) [
              | inl c ↦ absurd (omega (arith, w.above, ap pos (cell_eq→≡ j k c)))
              | inr c ↦ (r, rw c g, t, rw (c, d) others)
            ]
      ]

  pub touching-insert :
      (k : CellId) (r : ReplacementRange) (m : List (CellId × ReplacementRange))
      → overlaps r source start end ≡ false
      → get k m ≡ none
      → touching source start end (insert k r m) ≡ touching source start end m
  unfolding touching insert get
  touching-insert k r [] h g = rw h
  touching-insert k r ((j, q) ∷ m) h g = elim (Bool-cases (cell_eq j k)) [
    | inl c ↦ let some_none : some q ≡ none = (rw c at g) in cc
    | inr c ↦ elim (Bool-cases (cell_lt k j)) [
      | inl d ↦ rw (c, d, h)
      | inr d ↦ rw (c, d, touching-insert k r m h (rw c at g))
    ]
  ]

  -- Where no range overlaps the window, its cells have none.
  pub any_range-touching :
      (i lo : ℕ) (m : List (CellId × ReplacementRange))
      → start ≤ i
      → i < end
      → Ordered lo m
      → touching source start end m ≡ []
      → any_range (cell source i) m ≡ none
  unfolding touching Ordered any_range
  any_range-touching i lo [] h k o t = refl
  any_range-touching i lo ((j, q) ∷ m) h k (e, l, n, f, o) t =
      elim (Bool-cases (overlaps q source start end)) [
        | inl d ↦ let cons_nil : j ∷ touching source start end m ≡ [] = (rw d at t) in cc
        | inr d ↦ elim (Bool-cases (in_range q (cell source i))) [
          | inr c ↦ rw c (any_range-touching i (pos j + q.len) m h k o (rw d at t))
          | inl c ↦
              let u = inside-bounds j q source i e f (omega arith) c in
              let hit : overlaps q source start end ≡ true =
                overlaps-pos j q e f
                ∙ (rw (
                  lt→ltb (pos j) (source_base source + end) (omega (arith, u)),
                  lt→ltb begin (pos j + q.len) (omega (arith, u)),
                )) in
              let false_true : false ≡ true = sym d ∙ hit in cc
        ]
      ]

  -- Where no range overlaps the window, it is free.
  pub touching-Free :
      (lo : ℕ) (m : List (CellId × ReplacementRange))
      → Ordered lo m
      → touching source start end m ≡ []
      → Free begin (end - start) m
  unfolding touching Ordered Free
  touching-Free lo [] o t = tt
  touching-Free lo ((j, q) ∷ m) (e, l, n, f, o) t =
      elim (Bool-cases (overlaps q source start end)) [
        | inl d ↦ let cons_nil : j ∷ touching source start end m ≡ [] = (rw d at t) in absurd (cc)
        | inr d ↦
            let apart = sym (overlaps-pos j q e f) ∙ d in
            (
              elim (Bool-cases (ltb (pos j) (source_base source + end))) [
                | inr c ↦ inr (omega (arith, ltb→le _ _ c))
                | inl c ↦ inl (ltb→le begin (pos j + q.len) (rw c at apart))
              ],
              touching-Free (pos j + q.len) m o (rw d at t),
            )
      ]
