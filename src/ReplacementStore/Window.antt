-- ===== src/ReplacementStore/Window.antt =====
-- Cutting a window out of every range that overlaps it, key by key.
use hxedit.Prelude.{
  List, [], ap, arith, refl, some, subst, sym, true, u64_max, u64_mod, ℕ, ◌+◌, ◌<◌, ◌∙◌, ◌∷◌, ◌≡◌,
  ◌≤◌, ◌⊎◌,
}
use hxedit.Cells.{CellId, PieceSource, cell, cell_source, source_eq}
use hxedit.CellMap.{get, remove}
use hxedit.CellMap.Laws.{source_eq→≡}
use hxedit.Replacement.{RangeReplacement, ReplacementRange, overlaps, range_source}
use hxedit.ReplacementStore.{cut_range, cut_ranges, range_value}
use hxedit.ReplacementStore.Order.{Ordered, any_range, pos, source_base}
use hxedit.ReplacementStore.Regions.{get-Entry}
use hxedit.ReplacementStore.Touching.{touching, touching-head}
use hxedit.ReplacementStore.Cut.{cut-Ordered, cut-range_value, cut-touching, from_to}

module _ (source : PieceSource) (start end : ℕ) (window : start < end)
    (bounded : end ≤ u64_max) where
  -- What cutting leaves: the order, the keys that still overlap, and what the cells outside read.
  pub record Remainder (m : List (CellId × ReplacementRange)) (ks : List CellId)
      (m' : List (CellId × ReplacementRange)) : Type 0 where
    pub order : Ordered 0 m'
    pub overlapping : touching source start end m' ≡ ks
    pub reads :
        (s : PieceSource) (i base : ℕ)
        → i < u64_mod
        → (pos (cell s i) < source_base source + start)
          ⊎ (source_base source + end ≤ pos (cell s i))
        → range_value (cell s i) base (any_range (cell s i) m')
          ≡ range_value (cell s i) base (any_range (cell s i) m)

  cut-whole :
      (a n : ℕ) (v : RangeReplacement) (ks : List CellId) (m : List (CellId × ReplacementRange))
      → Ordered 0 m
      → get (cell source a) m ≡ some (from_to source a n v)
      → 0 < n
      → a + n ≤ u64_max
      → overlaps (from_to source a n v) source start end ≡ true
      → touching source start end (remove (cell source a) m) ≡ ks
      → Remainder m ks (cut_range source start end (cell source a) (get (cell source a) m) m)
  cut-whole a n v ks m o g filled fits meets others =
      let early : a < end = (ground arith) in
      let late : start < a + n = (ground arith) in
      rw g (record {
        order = cut-Ordered source start end window bounded a n v m o g filled fits early late;
        overlapping =
            cut-touching source start end window bounded a n v m o g filled fits early late
            ∙ others;
        reads = λ s i base b out.
            cut-range_value source start end window bounded a n v m o g filled fits early late s i b
              base out;
      })

  cut-step :
      (k : CellId) (ks : List CellId) (m : List (CellId × ReplacementRange))
      → Ordered 0 m
      → touching source start end m ≡ k ∷ ks
      → Remainder m ks (cut_range source start end k (get k m) m)
  cut-step (cell u a) ks m o h =
      let (r, g, t, others) = touching-head source start end window bounded (cell u a) ks 0 m o h in
      let w = get-Entry (cell u a) r 0 m o g in
      let owned : source_eq (range_source r) source ≡ true = (ground arith) in
      let mine : u ≡ source =
        ap cell_source (sym w.keyed) ∙ source_eq→≡ (range_source r) source owned in
      let shape : r ≡ from_to source a r.len r.value =
        ap (λ (c : CellId). record r { start = c }) (w.keyed ∙ ap (λ x. cell x a) mine) in
      let entry = ap (λ x. get (cell x a) m) (sym mine) ∙ g ∙ ap some shape in
      let meets = subst (λ (x : ReplacementRange). overlaps x source start end ≡ true) shape t in
      let left = ap (λ x. touching source start end (remove (cell x a) m)) (sym mine) ∙ others in
      subst (λ x. Remainder m ks (cut_range source start end (cell x a) (get (cell x a) m) m))
        (sym mine) (cut-whole a r.len r.value ks m o entry w.filled w.bounded meets left)

  -- Cutting every range that overlaps.
  pub cut_ranges-Remainder :
      (ks : List CellId) (m : List (CellId × ReplacementRange))
      → Ordered 0 m
      → touching source start end m ≡ ks
      → Remainder m [] (cut_ranges source start end ks m)
  unfolding cut_ranges
  cut_ranges-Remainder [] m o h = record {
    order = o;
    overlapping = h;
    reads = λ s i base b out. refl;
  }
  cut_ranges-Remainder (k ∷ ks) m o h =
      let one = cut-step k ks m o h in
      let all =
        cut_ranges-Remainder ks (cut_range source start end k (get k m) m) one.order
          one.overlapping in
      record {
        order = all.order;
        overlapping = all.overlapping;
        reads = λ s i base b out. all.reads s i base b out ∙ one.reads s i base b out;
      }
