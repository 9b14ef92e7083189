-- ===== src/Document/Cleared.antt =====
-- What every cell reads behind the clearing of a display range, in batches.
use hxedit.Prelude.{
  List, [], ap, arith, drop, drop-drop, false, if◌then◌else◌, leb, length, ltb, lt→leb, min, none,
  refl, subst, suc, sym, take, u64_max, u64_mod, zero, ℕ, ≢→==, ◌++◌, ◌+◌, ◌-◌, ◌<◌, ◌==◌, ◌∙◌, ◌∷◌,
  ◌≡◌, ◌≤◌,
}
use hxedit.Outcome.{err, ok, read_only}
use hxedit.Cells.{CellId, PieceSource, cell, run}
use hxedit.CellMap.{cell_eq}
use hxedit.ReplacementStore.{ReplacementStore, clear_source_range, replacement_at}
use hxedit.ReplacementStore.Cleared.{IsDisjoint}
use hxedit.ReplacementStore.Written.{
  clear_source_range-IsDisjoint, replacement_at-clear_source_range,
}
use hxedit.PieceTable.View.{cells}
use hxedit.Document.Display.{IsValid}
use hxedit.PieceTable.Valid.{Within, Within-drop, Within-take}
use hxedit.PieceTable.Range.{collect_cells-slice}
use hxedit.Document.{Document, doc_len}
use hxedit.Document.Overlaps.{Overlap, display_overlaps}
use hxedit.Document.Overlay.{
  clear_batches, clear_overlaps, clear_replacement_display_subrange,
  clear_replacements_in_display_range, within,
}
use hxedit.Document.Covered.{
  any_cell, any_cell-append, any_cell-run, overlap_cells, overlap_cells-eq,
}
use hxedit.Document.Walk.Reads.{Within-parts, Within-run-end, limit_of}

take-take :
    {A : Type 0} (a b n : ℕ) (xs : List A) → n ≡ a + b → take a xs ++ take b (drop a xs) ≡ take n xs
take-take zero b n xs e = ap (λ k. take k xs) (omega arith)
take-take (suc a) b zero xs e = absurd (omega arith)
take-take (suc a) zero (suc n) [] e = refl
take-take (suc a) (suc b) (suc n) [] e = refl
take-take (suc a) b (suc n) (x ∷ xs) e = ap (x ∷◌) (take-take a b n xs (omega arith))

-- `s'` has no replacement for the cells `cs`, and for every other cell the one that `s` has.
pub record Blanks (cs : List CellId) (s s' : ReplacementStore) : Type 0 where
  pub reads :
      (u : PieceSource) (i base : ℕ)
      → i < u64_mod
      → replacement_at s' (cell u i) base
        ≡ (if any_cell (cell_eq (cell u i)) cs then none else replacement_at s (cell u i) base)
  pub order : IsDisjoint s'

Blanks-none : (s : ReplacementStore) → IsDisjoint s → Blanks [] s s
Blanks-none s w = record { reads = λ u i base h. refl; order = w }

Blanks-append :
    (cs ds : List CellId) (s s' s'' : ReplacementStore)
    → Blanks cs s s'
    → Blanks ds s' s''
    → Blanks (cs ++ ds) s s''
Blanks-append cs ds s s' s'' b c = record {
  reads = λ u i base h.
      let asked = cell_eq (cell u i) in
      rw (c.reads u i base h, b.reads u i base h, any_cell-append asked cs ds) (ground arith);
  order = c.order;
}

clear_source_range-Blanks :
    (source : PieceSource) (start len : ℕ) (s : ReplacementStore)
    → (0 < len → start + len ≤ u64_max)
    → IsDisjoint s
    → Blanks (run source start len) s (clear_source_range source start len s)
unfolding run
clear_source_range-Blanks source start zero s f w = unfold clear_source_range in Blanks-none s w
clear_source_range-Blanks source start (suc n) s f w =
    let fits : start + suc n ≤ u64_max = f (omega arith) in
    record {
      reads = λ u i base h.
          replacement_at-clear_source_range source start (suc n) s u i base fits h w
          ∙ ap (λ b. if b then none else replacement_at s (cell u i) base)
              (sym (any_cell-run source u i start (suc n)));
      order = clear_source_range-IsDisjoint source start (suc n) s fits w;
    }

module _ (d : Document) (v : IsValid d) (small : (s : PieceSource) → limit_of d s ≤ u64_max) where
  clear_overlaps-Blanks :
      (os : List Overlap) (s : ReplacementStore)
      → Within d.pieces.original_len (length d.pieces.add_buffer) (overlap_cells os)
      → IsDisjoint s
      → Blanks (overlap_cells os) s (clear_overlaps os s)
  unfolding clear_overlaps overlap_cells
  clear_overlaps-Blanks [] s h w = Blanks-none s w
  clear_overlaps-Blanks (o ∷ os) s h w =
      let (here, there) = Within-parts _ _ (run o.source o.start o.len) (overlap_cells os) h in
      let first =
        clear_source_range-Blanks o.source o.start o.len s
          (λ p. omega (arith, Within-run-end _ _ o.source o.start o.len here p, small o.source))
          w in
      Blanks-append _ _ _ _ _ first (clear_overlaps-Blanks os _ there first.order)

  subrange-Blanks :
      (offset len : ℕ) (s : ReplacementStore)
      → IsDisjoint s
      → Blanks
          (take len (drop offset (cells d.pieces.pieces)))
          s
          (clear_replacement_display_subrange offset len
            (record d { replacements = s })).replacements
  unfolding clear_replacement_display_subrange
  subrange-Blanks offset len s w =
      let cs = cells d.pieces.pieces in
      let os = display_overlaps d offset (offset + len) in
      let same : overlap_cells os ≡ take len (drop offset cs) =
        overlap_cells-eq offset (offset + len) 0 d.pieces.pieces
        ∙ collect_cells-slice offset (offset + len) d.pieces.pieces
        ∙ ap (λ k. take k (drop offset cs)) (omega arith) in
      let inside =
        Within-take _ _ len (drop offset cs) (Within-drop _ _ offset cs v.table.within) in
      subst (λ xs. Blanks xs s (clear_overlaps os s)) same
        (clear_overlaps-Blanks os s (subst (Within _ _) (sym same) inside) w)

  -- The batches of a range, with as many turns as there are cells, clear all of it.
  batches-Blanks :
      (fuel offset left : ℕ) (s : ReplacementStore)
      → left ≤ fuel
      → IsDisjoint s
      → (s' : ReplacementStore) × (clear_batches fuel offset left (record d { replacements = s })
          ≡ record d { replacements = s' })
        × Blanks (take left (drop offset (cells d.pieces.pieces))) s s'
  unfolding clear_batches clear_replacement_display_subrange subrange-Blanks
  batches-Blanks zero offset zero s h w = (s, refl, Blanks-none s w)
  batches-Blanks zero offset (suc left) s h w = absurd (omega arith)
  batches-Blanks (suc fuel) offset zero s h w = (s, refl, Blanks-none s w)
  batches-Blanks (suc fuel) offset (suc m) s h w =
      let left = suc m in
      let batch = min left 65536 in
      let cs = cells d.pieces.pieces in
      let here = subrange-Blanks offset batch s w in
      let (s', e, later) =
        batches-Blanks fuel (offset + batch) (left - batch) _ (omega arith) here.order in
      let joined : take batch (drop offset cs) ++ take (left - batch) (drop (offset + batch) cs)
          ≡ take left (drop offset cs) =
        ap (λ xs. take batch (drop offset cs) ++ take (left - batch) xs)
          (sym (drop-drop batch offset (offset + batch) cs refl))
        ∙ take-take batch (left - batch) left (drop offset cs) (omega arith) in
      (
        s',
        (rw (≢→== (suc m) 0 (λ e. absurd (omega arith)), e) refl),
        subst (λ xs. Blanks xs s s') joined (Blanks-append _ _ _ _ _ here later),
      )

-- On a valid writable document with its ranges in order and its offsets below 2^64,
-- `clear_replacements_in_display_range` succeeds for a range within the document, however many batches
-- it takes: the cells on display in the range have no replacement any more, every other cell has
-- the one it had, and the rest of the document is as it was.
pub clear_replacements_in_display_range_lem :
    (offset len : ℕ) (d : Document)
    → IsValid d
    → IsDisjoint d.replacements
    → ((s : PieceSource) → limit_of d s ≤ u64_max)
    → d.readonly ≡ false
    → offset + len ≤ doc_len d
    → (s : ReplacementStore) × (clear_replacements_in_display_range offset len d
        ≡ ok (record d { replacements = s }))
      × Blanks (take len (drop offset (cells d.pieces.pieces))) d.replacements s
unfolding clear_replacements_in_display_range
clear_replacements_in_display_range_lem offset zero d v w small r h =
    (d.replacements, rw r refl, Blanks-none d.replacements w)
clear_replacements_in_display_range_lem offset (suc n) d v w small r h =
    let len = suc n in
    let (s, e, b) = batches-Blanks d v small len offset len d.replacements (omega arith) w in
    let bounded : leb u64_mod (offset + len) ≡ false =
      lt→leb u64_mod _ (omega (arith, h, v.table.fits)) in
    let inside : ltb (doc_len d) (offset + len) ≡ false = (ground (arith, h)) in
    let body = within offset len d (ok (clear_batches len offset len d)) in
    (
      s,
      ap (λ b. if b then err read_only else if len == 0 then ok d else body) r
          ∙ (rw (≢→== (suc n) 0 (λ e. absurd (omega arith)), bounded, inside) (ap ok e)),
      b,
    )
