-- ===== src/ReplacementStore/Cut.antt =====
-- Cutting a window out of one range that overlaps it: what is left, and what the cells behind it read.
use hxedit.Prelude.{
  Bool-cases, List, ap, arith, false, if◌then◌else◌, inl, inr, ltb, ltb→lt, lt→ltb, refl,
  saturating_add, some, sym, true, u64_max, u64_mod, ℕ, ◌&&◌, ◌+◌, ◌-◌, ◌<◌, ◌∙◌, ◌≡◌, ◌≤◌, ◌⊎◌,
}
use hxedit.Cells.{CellId, PieceSource, cell, source_eq}
use hxedit.CellMap.{get, remove}
use hxedit.Replacement.{
  RangeReplacement, ReplacementRange, in_range, shifted_value, value_at, value_from,
}
use hxedit.ReplacementStore.{keep_left, keep_right, range_value}
use hxedit.ReplacementStore.Order.{
  Ordered, any_range, inside-bounds, inside-in, outside-below, pos, source_base,
}
use hxedit.ReplacementStore.Regions.{
  Free, Free-part, any_range-remove, get-Free, insert-Free, remove-Free, remove-Ordered,
}
use hxedit.ReplacementStore.Shifted.{value_from-shifted_value}
use hxedit.ReplacementStore.Lookup.{get-any_range}
use hxedit.ReplacementStore.Insertion.{any_range-insert, insert-Ordered}
use hxedit.ReplacementStore.Sources.{same-base}
use hxedit.ReplacementStore.Touching.{overlaps-far, touching, touching-insert}

abbrev pub from_to : PieceSource → ℕ → ℕ → RangeReplacement → ReplacementRange
from_to source a n v = record { start = cell source a; len = n; value = v }

module _ (source : PieceSource) (start end : ℕ) (window : start < end) (bounded : end ≤ u64_max)
    (a n : ℕ) (v : RangeReplacement) (m : List (CellId × ReplacementRange)) (o : Ordered 0 m)
    (found : get (cell source a) m ≡ some (from_to source a n v)) (filled : 0 < n)
    (fits : a + n ≤ u64_max) (early : a < end) (late : start < a + n) where
  abbrev whole : ReplacementRange
  whole = from_to source a n v

  abbrev left : ReplacementRange
  left = from_to source a (start - a) v

  abbrev right : ReplacementRange
  right = from_to source end (a + n - end) (shifted_value v (end - a))

  abbrev taken : List (CellId × ReplacementRange)
  taken = remove (cell source a) m

  abbrev with_left : List (CellId × ReplacementRange)
  with_left = keep_left start whole taken

  taken-Ordered : Ordered 0 taken
  taken-Ordered = remove-Ordered (cell source a) 0 m o

  taken-Free : Free (pos (cell source a)) n taken
  taken-Free = remove-Free (cell source a) whole 0 m o found

  with_left-Ordered : Ordered 0 with_left
  with_left-Ordered = elim (Bool-cases (ltb a start)) [
    | inr c ↦ rw c taken-Ordered
    | inl c ↦ rw c (
        insert-Ordered source a left refl (omega (arith, ltb→lt _ _ c)) (omega arith) 0 taken
          (omega arith)
          (Free-part (pos (cell source a)) n (pos (cell source a)) (start - a) taken (omega arith)
            (omega arith) taken-Free)
          taken-Ordered)
  ]

  with_left-Free : end < a + n → Free (pos (cell source end)) (a + n - end) with_left
  with_left-Free h =
      let part =
        Free-part (pos (cell source a)) n (pos (cell source end)) (a + n - end) taken (omega arith)
          (omega arith) taken-Free in
      elim (Bool-cases (ltb a start)) [
        | inr c ↦ rw c part
        | inl c ↦ rw c (
            insert-Free (pos (cell source end)) (a + n - end) (cell source a) left taken
              (inl (omega (arith, ltb→lt _ _ c))) part)
      ]

  abbrev with_both : List (CellId × ReplacementRange)
  with_both = keep_right source end whole with_left

  saturated : saturating_add a n ≡ a + n
  saturated = omega arith

  pub cut-Ordered : Ordered 0 with_both
  cut-Ordered = elim (Bool-cases (ltb end (a + n))) [
    | inr c ↦ rw (saturated, c) with_left-Ordered
    | inl c ↦
        rw (saturated, c)
          (insert-Ordered source end right refl (omega (arith, ltb→lt _ _ c))
            (omega (arith, ltb→lt _ _ c)) 0 with_left (omega arith) (with_left-Free (ltb→lt _ _ c))
            with_left-Ordered)
  ]

  pub cut-touching : touching source start end with_both ≡ touching source start end taken
  cut-touching =
      let left_far = overlaps-far source start end window bounded (cell source a) left refl in
      let right_far = overlaps-far source start end window bounded (cell source end) right refl in
      let none_here = get-Free (cell source a) n 0 taken filled taken-Ordered taken-Free in
      let behind_left : touching source start end with_left ≡ touching source start end taken =
        elim (Bool-cases (ltb a start)) [
          | inr c ↦ rw c
          | inl c ↦ rw c (
              touching-insert source start end window bounded (cell source a) left taken
                (left_far (omega arith) (inr (omega (arith, ltb→lt _ _ c)))) none_here)
        ] in
      elim (Bool-cases (ltb end (a + n))) [
        | inr c ↦ rw (saturated, c) behind_left
        | inl c ↦
            let room = with_left-Free (ltb→lt _ _ c) in
            let none_there =
              get-Free (cell source end) (a + n - end) 0 with_left (omega (arith, ltb→lt _ _ c))
                with_left-Ordered room in
            rw (saturated, c)
              (touching-insert source start end window bounded (cell source end) right with_left
                  (right_far (omega (arith, ltb→lt _ _ c)) (inl (omega arith))) none_there
                ∙ behind_left)
      ]

  module _ (s : PieceSource) (i : ℕ) (b : i < u64_mod) where
    any_range-with_left : any_range (cell s i) with_left ≡ (
        if ltb a start && in_range left (cell s i) then some left else any_range (cell s i) taken)
    any_range-with_left = elim (Bool-cases (ltb a start)) [
      | inr c ↦ rw c
      | inl c ↦ rw c (
          any_range-insert source a left refl (omega (arith, ltb→lt _ _ c)) (omega arith) s i 0
            taken b
            (Free-part (pos (cell source a)) n (pos (cell source a)) (start - a) taken (omega arith)
              (omega arith) taken-Free)
            taken-Ordered)
    ]

    any_range-with_both : any_range (cell s i) with_both ≡ (
        if ltb end (a + n) && in_range right (cell s i)
        then some right
        else any_range (cell s i) with_left)
    any_range-with_both = elim (Bool-cases (ltb end (a + n))) [
      | inr c ↦ rw (saturated, c)
      | inl c ↦
          rw (saturated, c)
            (any_range-insert source end right refl (omega (arith, ltb→lt _ _ c))
              (omega (arith, ltb→lt _ _ c)) s i 0 with_left b (with_left-Free (ltb→lt _ _ c))
              with_left-Ordered)
    ]

    in_left-whole :
        in_range whole (cell s i) ≡ false → (ltb a start && in_range left (cell s i)) ≡ false
    in_left-whole t = elim (Bool-cases (ltb a start)) [
      | inr c ↦ rw c
      | inl c ↦ elim (Bool-cases (in_range left (cell s i))) [
        | inr d ↦ rw (c, d)
        | inl d ↦
            let u = inside-bounds (cell source a) left s i refl (omega arith) b d in
            let hit =
              inside-in (cell source a) whole s i refl fits b u.0
                (omega (arith, u, ltb→lt _ _ c)) in
            let false_true : false ≡ true = sym t ∙ hit in cc
      ]
    ]

    in_right-whole :
        in_range whole (cell s i) ≡ false → (ltb end (a + n) && in_range right (cell s i)) ≡ false
    in_right-whole t = elim (Bool-cases (ltb end (a + n))) [
      | inr c ↦ rw c
      | inl c ↦ elim (Bool-cases (in_range right (cell s i))) [
        | inr d ↦ rw (c, d)
        | inl d ↦
            let u =
              inside-bounds (cell source end) right s i refl (omega (arith, ltb→lt _ _ c)) b d in
            let hit =
              inside-in (cell source a) whole s i refl fits b (omega (arith, u))
                (omega (arith, u, ltb→lt _ _ c)) in
            let false_true : false ≡ true = sym t ∙ hit in cc
      ]
    ]

    in_right-before :
        pos (cell s i) < source_base source + start
        → (ltb end (a + n) && in_range right (cell s i)) ≡ false
    in_right-before h = elim (Bool-cases (ltb end (a + n))) [
      | inr c ↦ rw c
      | inl c ↦ rw (
        c,
        outside-below (cell source end) right s i refl (omega (arith, ltb→lt _ _ c)) b
            (omega arith),
      )
    ]

    in_right-value :
        (base : ℕ)
        → source_base source + end ≤ pos (cell s i)
        → in_range whole (cell s i) ≡ true
        → value_at right (cell s i) base ≡ value_at whole (cell s i) base
    in_right-value base h t =
        let owned : source_eq s source ≡ true = (ground arith) in
        let at = same-base source s owned in
        value_from-shifted_value v (end - a) (i - end) base (omega arith)
        ∙ ap (λ x. value_from v x base) (omega arith)

    -- A cell outside the window reads as before.
    pub cut-range_value :
        (base : ℕ)
        → (pos (cell s i) < source_base source + start)
          ⊎ (source_base source + end ≤ pos (cell s i))
        → range_value (cell s i) base (any_range (cell s i) with_both)
          ≡ range_value (cell s i) base (any_range (cell s i) m)
    cut-range_value base outside =
        let removed = any_range-remove s i (cell source a) whole 0 m o b found in
        elim (Bool-cases (in_range whole (cell s i))) [
          | inr t ↦ rw (
            any_range-with_both,
            in_right-whole t,
            any_range-with_left,
            in_left-whole t,
            removed,
            t,
          )
          | inl t ↦
              let u = inside-bounds (cell source a) whole s i refl fits b t in
              let before = get-any_range s i (cell source a) whole 0 m o b found t in
              elim outside [
                | inl h ↦
                    let hit =
                      inside-in (cell source a) left s i refl (omega (arith, u)) b u.0
                        (omega (arith, u)) in
                    rw (
                      any_range-with_both,
                      in_right-before h,
                      any_range-with_left,
                      hit,
                      lt→ltb a start (omega (arith, u)),
                      before,
                    )
                | inr h ↦
                    let hit =
                      inside-in (cell source end) right s i refl (omega (arith, u)) b h
                        (omega (arith, u)) in
                    rw (any_range-with_both, hit, lt→ltb end (a + n) (omega (arith, u)), before)
                      (ap some (in_right-value base h t))
              ]
        ]
