-- ===== src/Document/Walk/Loop.antt =====
-- The loops of the walk: what a visitor that always goes on has been given in the end.
use hxedit.Prelude.{
  Bool-cases, List, [], ap, append-nil, append_assoc, arith, drop, inl, inr, leb, length, ltb, min,
  refl, subst, suc, sym, take, zero, ℕ, ≢→==, ◌++◌, ◌+◌, ◌-◌, ◌<◌, ◌==◌, ◌||◌, ◌∙◌, ◌∷◌, ◌≡◌, ◌≤◌,
}
use hxedit.Outcome.{HxResult, ok}
use hxedit.Cells.{PieceSource, run}
use hxedit.PieceTable.View.{cells, run-append}
use hxedit.PieceTable.Valid.{Within, Within-drop, Within-take}
use hxedit.Document.{Document, doc_len}
use hxedit.Document.Walk.Reads.{
  IsWalkable, Within-parts, Within-run-end, filled_bases, in_range-cells, limit_of, nothing_there,
  read_chunk-bases, shown_bytes-append,
}
use hxedit.Document.Walk.{
  Progress, WalkControl, WalkStats, continue, counted, is_fast, no_walk, overlay_flags, walk_chunks,
  walk_pieces, walk_range,
}
use hxedit.Document.Walk.Chunk.{chunk_bytes-shown_bytes, length-bases, present_bytes, shown_bytes}
use hxedit.Document.Covered.{overlap_cells}
use hxedit.Document.Overlaps.{Overlap, display_overlaps}

module _ {S : Type 0} (visit : List ℕ → S → HxResult (WalkControl × S)) (chunk_limit : ℕ)
    (d : Document) (w : IsWalkable d) (roomy : 0 < chunk_limit) (Given : List ℕ → S → Type 0)
    (goes_on : (bs chunk : List ℕ) (s : S)
      → Given bs s
      → (s' : S) × (visit chunk s ≡ ok (continue, s')) × Given (bs ++ chunk) s') where
  -- The visitor has been given `bs`, and the walk goes on.
  pub record Walked (bs : List ℕ) (r : HxResult (Progress S)) : Type 0 where
    pub stats : WalkStats
    pub state : S
    pub done : r ≡ ok (continue, stats, state)
    pub given : Given bs state

  extended : (bs cs : List ℕ) (r : HxResult (Progress S)) → bs ≡ cs → Walked bs r → Walked cs r
  extended bs cs r e v = subst (λ x. Walked x r) e v

  walk_chunks-Walked :
      (fuel : ℕ) (s : PieceSource) (a n : ℕ) (stats : WalkStats) (bs : List ℕ) (x : S)
      → n ≤ fuel
      → (0 < n → a + n ≤ limit_of d s)
      → Given bs x
      → Walked
          (bs ++ shown_bytes d (run s a n))
          (walk_chunks visit chunk_limit d fuel s a n stats x)
  unfolding walk_chunks run present_bytes
  walk_chunks-Walked zero s a (suc n) stats bs x h l g = absurd (omega arith)
  walk_chunks-Walked zero s a zero stats bs x h l g = record {
    stats = stats;
    state = x;
    done = refl;
    given = subst (λ c. Given c x) (sym (append-nil bs)) g;
  }
  walk_chunks-Walked (suc fuel) s a zero stats bs x h l g = record {
    stats = stats;
    state = x;
    done = refl;
    given = subst (λ c. Given c x) (sym (append-nil bs)) g;
  }
  walk_chunks-Walked (suc fuel) s a (suc m) stats bs x h l g =
      let n = suc m in
      let inside : a + n ≤ limit_of d s = l (omega arith) in
      let b = min n chunk_limit in
      let read = read_chunk-bases d s a b w (omega arith) (omega arith) in
      let bytes =
        chunk_bytes-shown_bytes d s a b (omega arith) (omega (arith, w.small s)) w.ranges
          w.sparse in
      let (x', v, g') = goes_on bs (shown_bytes d (run s a b)) x g in
      let stats' = counted (is_fast (overlay_flags d s a b)) stats in
      let later =
        walk_chunks-Walked fuel s (a + b) (n - b) stats' (bs ++ shown_bytes d (run s a b)) x'
          (omega arith) (λ p. omega arith) g' in
      let joined : (bs ++ shown_bytes d (run s a b)) ++ shown_bytes d (run s (a + b) (n - b))
          ≡ bs ++ shown_bytes d (run s a n) =
        append_assoc bs (shown_bytes d (run s a b)) (shown_bytes d (run s (a + b) (n - b)))
        ∙ ap (bs ++◌) (
            sym (shown_bytes-append d (run s a b) (run s (a + b) (n - b)))
            ∙ ap (shown_bytes d) (run-append s a (a + b) b (n - b) n refl (omega arith))) in
      rw
        (
          ≢→== (suc m) 0 (λ e. absurd (omega arith)),
          read,
          filled_bases d s a b (omega arith),
          bytes,
          v,
          length-bases d s a b,
        )
        (extended _ _ _ joined later)

  walk_pieces-Walked :
      (os : List Overlap) (stats : WalkStats) (bs : List ℕ) (x : S)
      → Within d.pieces.original_len (length d.pieces.add_buffer) (overlap_cells os)
      → Given bs x
      → Walked (bs ++ shown_bytes d (overlap_cells os)) (walk_pieces visit chunk_limit d os stats x)
  unfolding walk_pieces overlap_cells present_bytes
  walk_pieces-Walked [] stats bs x h g = record {
    stats = stats;
    state = x;
    done = refl;
    given = subst (λ c. Given c x) (sym (append-nil bs)) g;
  }
  walk_pieces-Walked (o ∷ os) stats bs x h g =
      let cs = run o.source o.start o.len in
      let (here, there) = Within-parts _ _ cs (overlap_cells os) h in
      let first =
        walk_chunks-Walked o.len o.source o.start o.len (record stats { pieces = stats.pieces + 1 })
          bs x (omega arith) (λ p. Within-run-end _ _ o.source o.start o.len here p) g in
      let later =
        walk_pieces-Walked os first.stats (bs ++ shown_bytes d cs) first.state there first.given in
      let joined : (bs ++ shown_bytes d cs) ++ shown_bytes d (overlap_cells os)
          ≡ bs ++ shown_bytes d (cs ++ overlap_cells os) =
        append_assoc bs (shown_bytes d cs) (shown_bytes d (overlap_cells os))
        ∙ ap (bs ++◌) (sym (shown_bytes-append d cs (overlap_cells os))) in
      rw first.done (extended _ _ _ joined later)

  -- The walk goes on to its end, and the visitor has been given the bytes that the cells in the range
  -- show, in their order, whatever the chunks are and which paths they take.
  pub walk_range-Walked :
      (start end : ℕ) (x : S)
      → Given [] x
      → Walked
          (shown_bytes d (take (suc end - start) (drop start (cells d.pieces.pieces))))
          (walk_range visit chunk_limit d start end x)
  unfolding walk_range present_bytes
  walk_range-Walked start end x g =
      let os = display_overlaps d start (min end (doc_len d - 1) + 1) in
      elim (Bool-cases (doc_len d == 0 || ltb end start || leb (doc_len d) start)) [
        | inl c ↦
            rw (c, nothing_there d w start end c)
              (record { stats = no_walk; state = x; done = refl; given = g })
        | inr c ↦
            let first : start < doc_len d = (ground arith) in
            let order : start ≤ end = (ground arith) in
            let cs = in_range-cells d w start end first order in
            rw (c, ← cs)
              (walk_pieces-Walked os no_walk [] x
                (subst (Within d.pieces.original_len (length d.pieces.add_buffer)) (sym cs) (
                  Within-take _ _ (suc end - start) (drop start (cells d.pieces.pieces))
                    (Within-drop _ _ start (cells d.pieces.pieces) w.valid.table.within)))
                g)
      ]
