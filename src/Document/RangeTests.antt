-- ===== src/Document/RangeTests.antt =====
-- The range tests of a document, against a look at each displayed cell of the range.
use hxedit.Prelude.{
  Bool, Bool-cases, List, [], ap, arith, drop, drop_all, false, inl, inr, leb, length, length-drop,
  refl, suc, sym, take, take-min, true, zero, ℕ, ◌+◌, ◌-◌, ◌<◌, ◌==◌, ◌||◌, ◌∙◌, ◌∷◌, ◌≡◌, ◌≤◌,
}
use hxedit.Cells.{CellId, PieceSource, add, from_source, original, run}
use hxedit.CellMap.{cell_lt, contains, get, is_nil}
use hxedit.PieceTable.View.{cells, length-cells}
use hxedit.PieceTable.Range.{collect_cells-slice}
use hxedit.ReplacementStore.Queries.{has_sparse_in_range}
use hxedit.Document.{
  Document, doc_len, has_replacements, has_tombstone_in_range, has_tombstones, is_tombstone,
}
use hxedit.Document.Display.{IsValid}
use hxedit.Document.Overlaps.{
  Overlap, any_overlap, clamped_end, display_overlaps, display_range_has_sparse_replacement,
  display_range_has_tombstone, hi_cell, lo_cell,
}
use hxedit.Document.Covered.{
  any_cell, any_cell-false, any_overlap-cells, has_key, overlap_cells, overlap_cells-eq, range-run,
  set_range-run,
}

-- The cells of the overlaps of a clamped range are those displayed in the range.
displayed :
    (d : Document) (off n : ℕ)
    → IsValid d
    → off < doc_len d
    → overlap_cells (display_overlaps d off (clamped_end d off n))
      ≡ take n (drop off (cells d.pieces.pieces))
displayed d off n v h =
    let cs = cells d.pieces.pieces in
    let end = clamped_end d off n in
    let long : length cs ≡ doc_len d = length-cells d.pieces.pieces ∙ v.table.whole.counted in
    overlap_cells-eq off end 0 d.pieces.pieces
    ∙ collect_cells-slice off end d.pieces.pieces
    ∙ take-min n (end - off) (drop off cs) (omega (arith, length-drop off cs, long, v.table.fits))

range_test :
    (test : Overlap → Bool) (ask : CellId → Bool)
    → ((o : Overlap) → 0 < o.len → test o ≡ any_cell ask (run o.source o.start o.len))
    → (d : Document) (off n : ℕ) → IsValid d
    → off < doc_len d
    → any_overlap test (display_overlaps d off (clamped_end d off n))
      ≡ any_cell ask (take n (drop off (cells d.pieces.pieces)))
range_test test ask same d off n v h =
    any_overlap-cells test ask same off (clamped_end d off n) 0 d.pieces.pieces
    ∙ ap (any_cell ask) (displayed d off n v h)

-- A range that is empty or starts past the end displays nothing.
outside :
    (ask : CellId → Bool) (d : Document) (off n : ℕ)
    → IsValid d
    → (n == 0 || leb (doc_len d) off) ≡ true
    → any_cell ask (take n (drop off (cells d.pieces.pieces))) ≡ false
outside ask d off zero v h = refl
outside ask d off (suc n) v h =
    let long : length (cells d.pieces.pieces) ≡ doc_len d =
      length-cells d.pieces.pieces ∙ v.table.whole.counted in
    let past : doc_len d ≤ off = ground arith in
    ap (λ cs. any_cell ask (take (suc n) cs)) (drop_all off (cells d.pieces.pieces) (omega arith))

inside : (d : Document) (off n : ℕ) → (n == 0 || leb (doc_len d) off) ≡ false → off < doc_len d
inside d off n h = ground arith

is_nil→≡ : {A : Type 0} (m : List A) → is_nil m ≡ true → m ≡ []
is_nil→≡ [] h = refl
is_nil→≡ (x ∷ m) h = cc

no_tombstones :
    (d : Document) (cs : List CellId)
    → has_tombstones d ≡ false
    → any_cell (is_tombstone d) cs ≡ false
unfolding contains
no_tombstones d cs h =
    ap (λ m. any_cell (λ k. contains k m) cs) (is_nil→≡ d.tombstones (ground arith))
    ∙ any_cell-false cs

-- On a valid document, `display_range_has_tombstone` holds exactly if one of the cells displayed in the
-- range, cut at the end of the document, is a tombstone.
pub display_range_has_tombstone_lem :
    (d : Document) (off n : ℕ)
    → IsValid d
    → display_range_has_tombstone d off n
      ≡ any_cell (is_tombstone d) (take n (drop off (cells d.pieces.pieces)))
unfolding display_range_has_tombstone
display_range_has_tombstone_lem d off n v = elim (Bool-cases (n == 0 || leb (doc_len d) off)) [
  | inl o ↦ rw o (sym (outside (is_tombstone d) d off n v o))
  | inr i ↦ elim (Bool-cases (has_tombstones d)) [
    | inr t ↦ rw (i, t) (sym (no_tombstones d (take n (drop off (cells d.pieces.pieces))) t))
    | inl t ↦
        rw (i, t)
          (range_test (λ o. has_tombstone_in_range d (lo_cell o) (hi_cell o)) (is_tombstone d)
            (λ o h. set_range-run o.source o.start o.len d.tombstones h) d off n v
            (inside d off n i))
  ]
]

no_replacements_at :
    (d : Document) (cs : List CellId)
    → has_replacements d ≡ false
    → any_cell (has_key d.replacements.sparse) cs ≡ false
no_replacements_at d cs h =
    ap (λ m. any_cell (has_key m) cs) (is_nil→≡ d.replacements.sparse (ground arith))
    ∙ (unfold get in any_cell-false cs)

ordered :
    (s : PieceSource) (a n : ℕ)
    → 0 < n
    → cell_lt (from_source s (a + n - 1)) (from_source s a) ≡ false
ordered original a n h = ground arith
ordered add a n h = ground arith

sparse_in_overlap :
    (d : Document) (o : Overlap)
    → 0 < o.len
    → has_sparse_in_range d.replacements (lo_cell o) (hi_cell o)
      ≡ any_cell (has_key d.replacements.sparse) (run o.source o.start o.len)
unfolding has_sparse_in_range
sparse_in_overlap d o h =
    rw (ordered o.source o.start o.len h) (range-run o.source o.start o.len d.replacements.sparse h)

-- On a valid document, `display_range_has_sparse_replacement` holds exactly if one of the cells
-- displayed in the range, cut at the end of the document, has an entry of its own in the store.
pub display_range_has_sparse_replacement_lem :
    (d : Document) (off n : ℕ)
    → IsValid d
    → display_range_has_sparse_replacement d off n
      ≡ any_cell (has_key d.replacements.sparse) (take n (drop off (cells d.pieces.pieces)))
unfolding display_range_has_sparse_replacement
display_range_has_sparse_replacement_lem d off n v =
    elim (Bool-cases (n == 0 || leb (doc_len d) off)) [
      | inl o ↦ rw o (sym (outside (has_key d.replacements.sparse) d off n v o))
      | inr i ↦ elim (Bool-cases (has_replacements d)) [
        | inr t ↦
            rw (i, t) (sym (no_replacements_at d (take n (drop off (cells d.pieces.pieces))) t))
        | inl t ↦
            rw (i, t)
              (range_test (λ o. has_sparse_in_range d.replacements (lo_cell o) (hi_cell o))
                (has_key d.replacements.sparse) (sparse_in_overlap d) d off n v (inside d off n i))
      ]
    ]
