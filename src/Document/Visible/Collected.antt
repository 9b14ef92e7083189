-- ===== src/Document/Visible/Collected.antt =====
-- A walk over the visible cells of a range, against the slots on display.
use mathlib.Core.List.{map-append}
use hxedit.Prelude.{
  Bool, Bool-cases, List, [], ap, append-nil, append_assoc, arith, drop, false, if◌then◌else◌, inl,
  inr, leb, length, ltb, map, map-drop, map-take, min, refl, subst, suc, sym, take, true, u64_max,
  zero, ℕ, ≢→==, ◌&&◌, ◌++◌, ◌+◌, ◌-◌, ◌<◌, ◌==◌, ◌||◌, ◌∙◌, ◌∷◌, ◌≡◌, ◌≤◌,
}
use hxedit.Outcome.{HxResult, ok}
use hxedit.Cells.{CellId, PieceSource, cell, run}
use hxedit.ReplacementStore.{replacement_at}
use hxedit.PieceTable.View.{cells, run-append}
use hxedit.PieceTable.Valid.{Within, Within-drop, Within-take}
use hxedit.Document.{ByteSlot, Document, deleted, doc_len, is_tombstone, or_base, present}
use hxedit.Document.Overlaps.{Overlap, display_overlaps}
use hxedit.Document.Covered.{overlap_cells}
use hxedit.Document.Display.{base_of, display, slot}
use hxedit.Document.Walk.{Progress, WalkStats, continue, counted, is_fast, no_walk, overlay_flags}
use hxedit.Document.Walk.Flags.{no_replacement, no_tombstone}
use hxedit.Document.Walk.Chunk.{Unreplaced, Untouched, bases, length-bases}
use hxedit.Document.Walk.Reads.{
  IsWalkable, Within-parts, Within-run-end, filled_bases, in_range-cells, limit_of, nothing_there,
  read_chunk-bases,
}
use hxedit.Document.Visible.{
  VisibleCell, cell_chunk, cell_slot, collect_cells, visible_cells, walk_cell_pieces,
  walk_cell_range, walk_cells,
}

visible_cells-slots :
    (d : Document) (s : PieceSource) (t r : Bool) (a disp n : ℕ)
    → Untouched d s t a n
    → Unreplaced d s r a n
    → map cell_slot (visible_cells d s t r a disp (bases d s a n)) ≡ map (slot d) (run s a n)
unfolding visible_cells run slot
visible_cells-slots d s t r a disp zero no_t no_r = refl
visible_cells-slots d s t r a disp (suc n) no_t no_r =
    let later =
      visible_cells-slots d s t r (a + 1) (disp + 1) n
        (λ e i k l. no_t e i (omega arith) (omega arith))
        (λ e i base k l. no_r e i base (omega arith) (omega arith)) in
    let base = base_of d (cell s a) in
    let kept : (if r then or_base (replacement_at d.replacements (cell s a) base) base else base)
        ≡ or_base (replacement_at d.replacements (cell s a) base) base =
      elim (Bool-cases r) [
        | inl e ↦ rw e
        | inr e ↦ rw (e, no_r e a base (omega arith) (omega arith))
      ] in
    elim (Bool-cases (is_tombstone d (cell s a))) [
      | inl e ↦ elim (Bool-cases t) [
        | inl f ↦ rw (f, e) (ap (deleted ∷◌) later)
        | inr f ↦
            let false_true : false ≡ true = sym (no_t f a (omega arith) (omega arith)) ∙ e in cc
      ]
      | inr e ↦
          let passed : (t && is_tombstone d (cell s a)) ≡ false = (ground arith) in
          rw (passed, e, kept)
            (ap (present (or_base (replacement_at d.replacements (cell s a) base) base) ∷◌) later)
    ]

-- A walk whose visitor collects what `pick` makes of a cell, which `shape` makes of its slot.
module _ {A : Type 0} (pick : VisibleCell → A) (shape : ByteSlot → A)
    (agree : (c : VisibleCell) → pick c ≡ shape (cell_slot c)) (chunk_limit : ℕ) (d : Document)
    (w : IsWalkable d) (roomy : 0 < chunk_limit) where
  abbrev seen : CellId → A
  seen c = shape (slot d c)

  picked : (cs : List VisibleCell) → map pick cs ≡ map shape (map cell_slot cs)
  picked [] = refl
  picked (c ∷ cs) = rw (agree c) (ap (shape (cell_slot c) ∷◌) (picked cs))

  shaped : (cs : List CellId) → map shape (map (slot d) cs) ≡ map seen cs
  shaped [] = refl
  shaped (c ∷ cs) = ap (seen c ∷◌) (shaped cs)

  -- The walk goes on, with these slots collected.
  pub record Rowed (out : List A) (r : HxResult (Progress (List A))) : Type 0 where
    pub stats : WalkStats
    pub done : r ≡ ok (continue, stats, out)

  rowed :
      (out out' : List A) (r : HxResult (Progress (List A)))
      → out ≡ out'
      → Rowed out r
      → Rowed out' r
  rowed out out' r e v = subst (λ x. Rowed x r) e v

  chunk-row :
      (s : PieceSource) (a disp n : ℕ)
      → 0 < n
      → a + n ≤ limit_of d s
      → map pick (cell_chunk d s a disp (bases d s a n)).cells ≡ map seen (run s a n)
  unfolding cell_chunk
  chunk-row s a disp n p l =
      let fits : a + n ≤ u64_max = omega (arith, w.small s) in
      picked (cell_chunk d s a disp (bases d s a n)).cells
      ∙ ap (map shape) (
          rw (length-bases d s a n) (
            visible_cells-slots d s (overlay_flags d s a n).0 (overlay_flags d s a n).1 a disp n
              (no_tombstone d s a n p fits) (no_replacement d s a n p fits w.ranges)))
      ∙ shaped (run s a n)

  walk_cells-Rowed :
      (fuel : ℕ) (s : PieceSource) (a disp n : ℕ) (stats : WalkStats) (out : List A)
      → n ≤ fuel
      → (0 < n → a + n ≤ limit_of d s)
      → Rowed
          (out ++ map seen (run s a n))
          (walk_cells (collect_cells pick) chunk_limit d fuel s a disp n stats out)
  unfolding walk_cells run collect_cells
  walk_cells-Rowed zero s a disp (suc n) stats out h l = absurd (omega arith)
  walk_cells-Rowed zero s a disp zero stats out h l = record {
    stats = stats;
    done = ap (λ x. ok (continue, stats, x)) (sym (append-nil out));
  }
  walk_cells-Rowed (suc fuel) s a disp zero stats out h l = record {
    stats = stats;
    done = ap (λ x. ok (continue, stats, x)) (sym (append-nil out));
  }
  walk_cells-Rowed (suc fuel) s a disp (suc m) stats out h l =
      let n = suc m in
      let inside : a + n ≤ limit_of d s = l (omega arith) in
      let b = min n chunk_limit in
      let read = read_chunk-bases d s a b w (omega arith) (omega arith) in
      let here = chunk-row s a disp b (omega arith) (omega arith) in
      let stats' = counted (is_fast (overlay_flags d s a b)) stats in
      let later =
        walk_cells-Rowed fuel s (a + b) (disp + b) (n - b) stats' (out ++ map seen (run s a b))
          (omega arith) (λ p. omega arith) in
      let joined : (out ++ map seen (run s a b)) ++ map seen (run s (a + b) (n - b))
          ≡ out ++ map seen (run s a n) =
        append_assoc out (map seen (run s a b)) (map seen (run s (a + b) (n - b)))
        ∙ ap (out ++◌) (
            sym (map-append seen (run s a b) (run s (a + b) (n - b)))
            ∙ ap (map seen) (run-append s a (a + b) b (n - b) n refl (omega arith))) in
      rw
        (
          ≢→== (suc m) 0 (λ e. absurd (omega arith)),
          read,
          filled_bases d s a b (omega arith),
          here,
          length-bases d s a b,
        )
        (rowed _ _ _ joined later)

  walk_cell_pieces-Rowed :
      (start : ℕ) (os : List Overlap) (stats : WalkStats) (out : List A)
      → Within d.pieces.original_len (length d.pieces.add_buffer) (overlap_cells os)
      → Rowed
          (out ++ map seen (overlap_cells os))
          (walk_cell_pieces (collect_cells pick) chunk_limit d start os stats out)
  unfolding walk_cell_pieces overlap_cells
  walk_cell_pieces-Rowed start [] stats out h = record {
    stats = stats;
    done = ap (λ x. ok (continue, stats, x)) (sym (append-nil out));
  }
  walk_cell_pieces-Rowed start (o ∷ os) stats out h =
      let cs = run o.source o.start o.len in
      let (here, there) = Within-parts _ _ cs (overlap_cells os) h in
      let first =
        walk_cells-Rowed o.len o.source o.start (start + o.distance) o.len
          (record stats { pieces = stats.pieces + 1 }) out (omega arith)
          (λ p. Within-run-end _ _ o.source o.start o.len here p) in
      let later = walk_cell_pieces-Rowed start os first.stats (out ++ map seen cs) there in
      let joined : (out ++ map seen cs) ++ map seen (overlap_cells os)
          ≡ out ++ map seen (cs ++ overlap_cells os) =
        append_assoc out (map seen cs) (map seen (overlap_cells os))
        ∙ ap (out ++◌) (sym (map-append seen cs (overlap_cells os))) in
      rw first.done (rowed _ _ _ joined later)

  -- All slots that a walk over a range collects.
  pub walk_cell_range-Rowed :
      (start end : ℕ)
      → Rowed
          (map shape (take (suc end - start) (drop start (display d))))
          (walk_cell_range (collect_cells pick) chunk_limit d start end [])
  unfolding walk_cell_range
  walk_cell_range-Rowed start end =
      let os = display_overlaps d start (min end (doc_len d - 1) + 1) in
      let cs = cells d.pieces.pieces in
      let slots : map seen (take (suc end - start) (drop start cs))
          ≡ map shape (take (suc end - start) (drop start (display d))) =
        sym (shaped (take (suc end - start) (drop start cs)))
        ∙ ap (map shape) (
            map-take (slot d) (suc end - start) (drop start cs)
            ∙ ap (take (suc end - start)) (map-drop (slot d) start cs)) in
      elim (Bool-cases (doc_len d == 0 || ltb end start || leb (doc_len d) start)) [
        | inl c ↦ rw c (
            rowed [] _ _ (ap (map seen) (sym (nothing_there d w start end c)) ∙ slots)
              (record { stats = no_walk; done = refl }))
        | inr c ↦
            let first : start < doc_len d = (ground arith) in
            let order : start ≤ end = (ground arith) in
            let same = in_range-cells d w start end first order in
            rw c (
              rowed _ _ _ (ap (map seen) same ∙ slots) (
                walk_cell_pieces-Rowed start os no_walk [] (
                  subst (Within d.pieces.original_len (length d.pieces.add_buffer)) (sym same) (
                    Within-take _ _ (suc end - start) (drop start cs)
                      (Within-drop _ _ start cs w.valid.table.within)))))
      ]
