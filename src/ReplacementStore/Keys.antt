-- ===== src/ReplacementStore/Keys.antt =====
-- The search for the ranges that overlap a window, which jumps in at the window's start and stops
-- behind its end, against a look at every range.
use hxedit.Prelude.{
  Bool-cases, List, Option-cases, [], ap, arith, false, inl, inr, leb, leb→le, leb→lt, le→leb,
  le→ltb, lt→leb, lt→ltb, none, refl, some, suc, sym, true, u64_max, u64_mod, ℕ, ≢→==, ◌++◌, ◌+◌,
  ◌<◌, ◌∙◌, ◌∷◌, ◌≡◌, ◌≤◌,
}
use hxedit.Cells.{CellId, PieceSource, cell, cell_offset, cell_source, source_eq}
use hxedit.CellMap.{last_le, range}
use hxedit.Replacement.{ReplacementRange, overlaps, range_offset, range_source}
use hxedit.ReplacementStore.{
  ReplacementStore, collect_keys, key_before, keys_contain, overlapping_range_keys,
}
use hxedit.ReplacementStore.Order.{
  Ordered, cell_eq-pos, cell_le-pos, last_le-bounds, pos, source_base,
}
use hxedit.CellMap.Laws.{cell_eq_refl}
use hxedit.ReplacementStore.Sources.{same-base, same-source}
use hxedit.ReplacementStore.Touching.{overlaps-far, overlaps-pos, touching, touching-behind}

module _ (source : PieceSource) (start end : ℕ) (window : start < end)
    (bounded : end ≤ u64_max) where
  abbrev collected : List CellId → List (CellId × ReplacementRange) → List CellId
  collected seen m =
      collect_keys source start end seen (range (cell source start) (cell source u64_max) m)

  -- The keys that were seen stand at the window's start or before.
  abbrev Early : List CellId → Type 0
  Early seen =
      (j : CellId)
      → cell_offset j < u64_mod
      → source_base source + start < pos j
      → keys_contain seen j ≡ false

  collected-touching :
      (seen : List CellId) (lo : ℕ) (m : List (CellId × ReplacementRange))
      → Early seen
      → Ordered lo m
      → source_base source + start < lo
      → collected seen m ≡ touching source start end m
  unfolding touching Ordered collect_keys range
  collected-touching seen lo [] early o h = refl
  collected-touching seen lo ((cell v a, r) ∷ m) early (e, l, n, f, o) h =
      let rest = collected-touching seen (pos (cell v a) + r.len) m early o (omega arith) in
      let fresh = early (cell v a) (omega arith) (omega arith) in
      let spot = overlaps-pos source start end window bounded (cell v a) r e f in
      let from_start = cell_le-pos source v start a (omega arith) (omega arith) in
      let to_end = cell_le-pos v source a u64_max (omega arith) (omega arith) in
      let limit : range_offset r ≡ a = ap cell_offset e in
      let owner : range_source r ≡ v = ap cell_source e in
      let mine = same-source source v start a (omega arith) (omega arith) (omega arith) in
      elim (Bool-cases (source_eq v source)) [
        | inr g ↦
            let b : leb (pos (cell v a)) (pos (cell source u64_max)) ≡ false = sym mine ∙ g in
            rw
              (
                from_start,
                to_end,
                b,
                le→leb (source_base source + start) (pos (cell v a)) (omega arith),
                spot,
                le→ltb (pos (cell v a)) (source_base source + end) (omega (arith, leb→lt _ _ b)),
              )
              rest
        | inl g ↦
            let b : leb (pos (cell v a)) (pos (cell source u64_max)) ≡ true = sym mine ∙ g in
            let base = same-base source v g in
            elim (Bool-cases (leb end a)) [
              | inl c ↦
                  rw
                    (
                      from_start,
                      to_end,
                      b,
                      le→leb (source_base source + start) (pos (cell v a)) (omega arith),
                      spot,
                      owner,
                      limit,
                      g,
                      c,
                      le→ltb (pos (cell v a)) (source_base source + end)
                          (omega (arith, base, leb→le _ _ c)),
                    )
                    (sym (
                      touching-behind source start end window bounded (pos (cell v a) + r.len) m o
                        (omega (arith, base, leb→le _ _ c))))
              | inr c ↦ rw (
                from_start,
                to_end,
                b,
                le→leb (source_base source + start) (pos (cell v a)) (omega arith),
                spot,
                rest,
                owner,
                limit,
                g,
                c,
                fresh,
              )
            ]
      ]

  last_le-Ordered :
      (lo : ℕ) (m : List (CellId × ReplacementRange))
      → Ordered lo m
      → last_le (cell source start) m ≡ none
      → Ordered (suc (source_base source + start)) m
  unfolding last_le Ordered
  last_le-Ordered lo [] o h = tt
  last_le-Ordered lo ((cell v a, r) ∷ m) (e, l, n, f, o) h =
      elim (Bool-cases (leb (pos (cell v a)) (source_base source + start))) [
        | inr g ↦ (e, leb→lt _ _ g, n, f, o)
        | inl g ↦ elim (Option-cases (last_le (cell source start) m)) [
          | inl t ↦
              let entry : CellId × ReplacementRange = (cell v a, r) in
              let some_none : some entry ≡ none =
                (rw (cell_le-pos v source a start (omega arith) (omega arith), g, t) at h) in
              cc
          | inr (x, t) ↦
              let some_none : some x ≡ none =
                (rw (cell_le-pos v source a start (omega arith) (omega arith), g, t) at h) in
              cc
        ]
      ]

  Early-key :
      (v : PieceSource) (a : ℕ)
      → a < u64_mod
      → pos (cell v a) ≤ source_base source + start
      → Early (cell v a ∷ [])
  Early-key v a b h (cell w c) d k =
      rw (
        cell_eq-pos v w a c b d,
        ≢→== (pos (cell v a)) (pos (cell w c)) (λ x. absurd (omega arith)),
      )

  abbrev first : List (CellId × ReplacementRange) → List CellId
  first m = key_before source start end (last_le (cell source start) m)

  found-touching :
      (lo : ℕ) (m : List (CellId × ReplacementRange))
      → Ordered lo m
      → (first m ++ collected (first m) m) ≡ touching source start end m
  unfolding touching Ordered collect_keys range last_le
  found-touching lo [] o = refl
  found-touching lo ((cell v a, r) ∷ m) (e, l, n, f, o) =
      let to_start = cell_le-pos v source a start (omega arith) (omega arith) in
      let from_start = cell_le-pos source v start a (omega arith) (omega arith) in
      let to_end = cell_le-pos v source a u64_max (omega arith) (omega arith) in
      let rest = found-touching (pos (cell v a) + r.len) m o in
      elim (Bool-cases (leb (pos (cell v a)) (source_base source + start))) [
        | inr g ↦
            let all =
              collected-touching [] (pos (cell v a)) ((cell v a, r) ∷ m) (λ j d x. refl)
                (e, omega arith, n, f, o) (leb→lt _ _ g) in
            rw (to_start, g) all
        | inl g ↦ elim (Option-cases (last_le (cell source start) m)) [
          | inr (x, t) ↦
              let w = last_le-bounds source start (pos (cell v a) + r.len) m x o (omega arith) t in
              let far =
                overlaps-far source start end window bounded (cell v a) r e f
                  (inr (omega (arith, w))) in
              rw
                (
                  to_start,
                  g,
                  t,
                  from_start,
                  lt→leb (source_base source + start) (pos (cell v a)) (omega (arith, w)),
                  far,
                )
                (rw t at rest)
          | inl t ↦
              let behind = last_le-Ordered (pos (cell v a) + r.len) m o t in
              let limit : range_offset r ≡ a = ap cell_offset e in
              let owner : range_source r ≡ v = ap cell_source e in
              elim (Bool-cases (leb (source_base source + start) (pos (cell v a)))) [
                | inr c ↦ elim (Bool-cases (overlaps r source start end)) [
                  | inl d ↦
                      let later =
                        collected-touching (cell v a ∷ []) (suc (source_base source + start)) m
                          (Early-key v a (omega arith) (leb→le _ _ g)) behind (omega arith) in
                      rw (to_start, g, t, from_start, c, d) (ap (cell v a ∷◌) later)
                  | inr d ↦
                      let later =
                        collected-touching [] (suc (source_base source + start)) m (λ j x y. refl)
                          behind (omega arith) in
                      rw (to_start, g, t, from_start, c, d) later
                ]
                | inl c ↦
                    let same : source_base v + a ≡ source_base source + start =
                      omega (arith, leb→le _ _ g, leb→le _ _ c) in
                    let spot : overlaps r source start end ≡ true =
                      overlaps-pos source start end window bounded (cell v a) r e f
                      ∙ (rw (
                        lt→ltb (pos (cell v a)) (source_base source + end) (omega arith),
                        lt→ltb (source_base source + start) (pos (cell v a) + r.len) (omega arith),
                      )) in
                    let inside =
                      le→leb (pos (cell v a)) (pos (cell source u64_max)) (omega arith) in
                    let mine : source_eq v source ≡ true =
                      same-source source v start a (omega arith) (omega arith) (omega arith)
                      ∙ inside in
                    let base = same-base source v mine in
                    let later =
                      collected-touching (cell v a ∷ []) (suc (source_base source + start)) m
                        (Early-key v a (omega arith) (leb→le _ _ g)) behind (omega arith) in
                    let found : first ((cell v a, r) ∷ m) ≡ cell v a ∷ [] =
                      (rw (to_start, g, t, spot)) in
                    ap (λ ks. ks ++ collected ks ((cell v a, r) ∷ m)) found
                    ∙ (rw
                        (
                          from_start,
                          to_end,
                          c,
                          inside,
                          spot,
                          owner,
                          limit,
                          mine,
                          lt→leb end a (omega (arith, base)),
                          cell_eq_refl (cell v a),
                        )
                        (ap (cell v a ∷◌) later))
              ]
        ]
      ]

-- The search returns the keys of exactly the ranges that overlap the window, in order, each once.
pub overlapping_range_keys-touching :
    (s : ReplacementStore) (source : PieceSource) (start end : ℕ)
    → start < end
    → end ≤ u64_max
    → Ordered 0 s.ranges
    → overlapping_range_keys s source start end ≡ touching source start end s.ranges
unfolding overlapping_range_keys
overlapping_range_keys-touching s source start end h b o =
    rw (lt→leb end start h) (found-touching source start end h b 0 s.ranges o)
