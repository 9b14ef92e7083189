-- ===== src/PieceTable/Range.antt =====
-- `cell_ids_range` collects a slice of the abstract view.
use hxedit.Prelude.{
  Bool-cases, List, [], ap, arith, drop, drop-append, drop-nil, drop_all, drop_of_append, false,
  inl, inr, leb, leb→le, length-drop, ltb, ltb→le, max, min, refl, saturating_add, sym, take,
  take-min, take-nil, take_of_append, true, u64_mod, ℕ, ◌++◌, ◌+◌, ◌-◌, ◌<◌, ◌==◌, ◌||◌, ◌∙◌, ◌∷◌,
  ◌≡◌, ◌≤◌,
}
use hxedit.PieceTable.{PieceTable, cell_ids_range, collect_cells}
use hxedit.PieceTable.View.{
  cells, cells-append, drop-run, length-cells, length-run, piece_cells, take-run,
}
use hxedit.PieceTable.Locate.{Located}
use hxedit.PieceTable.Resolve.{IsWhole, ensured, find_piece_lem}
use hxedit.Cells.{CellId, Piece, run}
use mathlib.Core.Path.{ap₂}

-- The cells of a run and of what follows it, from `d` on, `k` of them.
slice_of_run :
    (s : _) (a m d k : ℕ) (cs : List CellId)
    → take k (drop d (run s a m ++ cs))
      ≡ run s (a + d) (min k (m - d)) ++ take (k - (m - d)) (drop (d - m) cs)
slice_of_run s a m d k cs =
    ap (take k) (drop_of_append (run s a m) cs d (d - m) (omega (arith, length-run s a m)))
    ∙ ap (λ r. take k (r ++ drop (d - m) cs)) (drop-run s a (a + d) d m (m - d) refl refl)
    ∙ take_of_append (run s (a + d) (m - d)) (drop (d - m) cs) k (k - (m - d))
        (omega (arith, length-run s (a + d) (m - d)))
    ∙ ap (λ r. r ++ take (k - (m - d)) (drop (d - m) cs))
        (take-run s (a + d) k (m - d) (min k (m - d)) refl)

slice_from : ℕ → ℕ → ℕ → List CellId → List CellId
slice_from off end c cs = take (end - max off c) (drop (off - c) cs)

slice_of_piece :
    (off end c : ℕ) (p : Piece) (cs : List CellId)
    → slice_from off end c (piece_cells p ++ cs)
      ≡ run p.source (p.start + (max off c - c)) (min end (c + p.len) - max off c)
        ++ slice_from off end (c + p.len) cs
unfolding slice_from
slice_of_piece off end c p cs =
    slice_of_run p.source p.start p.len (off - c) (end - max off c) cs
    ∙ ap₂ ◌++◌
        (ap₂ (run p.source) (eq_of (p.start + (off - c)) (p.start + (max off c - c)) (omega arith))
          (eq_of (min (end - max off c) (p.len - (off - c))) (min end (c + p.len) - max off c)
            (omega arith)))
        (ap₂ take
          (eq_of (end - max off c - (p.len - (off - c))) (end - max off (c + p.len)) (omega arith))
          (ap (λ j. drop j cs) (eq_of (off - c - p.len) (off - (c + p.len)) (omega arith))))
  where
    eq_of : (a b : ℕ) → a ≡ b → a ≡ b
    eq_of a b e = e

slice_from-zero :
    (off end c : ℕ) (cs : List CellId) → end ≤ max off c → slice_from off end c cs ≡ []
unfolding slice_from
slice_from-zero off end c cs h =
    ap (λ j. take j (drop (off - c) cs)) {x = end - max off c} {y = 0} (omega arith)

slice_from-nil : (off end c : ℕ) → slice_from off end c [] ≡ []
unfolding slice_from
slice_from-nil off end c =
    ap (take (end - max off c)) (drop-nil (off - c)) ∙ take-nil (end - max off c)

run-zero : (s : _) (a n : ℕ) → n ≡ 0 → run s a n ≡ []
unfolding run
run-zero s a n e = ap (run s a) e

collect_cells-eq :
    (off end c : ℕ) (ps : List Piece) → collect_cells off end c ps ≡ slice_from off end c (cells ps)
unfolding collect_cells
collect_cells-eq off end c [] = sym (slice_from-nil off end c)
collect_cells-eq off end c (p ∷ ps) = elim (Bool-cases (leb end c)) [
  | inl e ↦ rw e (sym (slice_from-zero off end c (cells (p ∷ ps)) (omega (arith, leb→le _ _ e))))
  | inr e ↦ elim (Bool-cases (ltb (max off c) (min end (c + p.len)))) [
    | inl f ↦
        rw (e, f, collect_cells-eq off end (c + p.len) ps)
          (sym (slice_of_piece off end c p (cells ps)))
    | inr f ↦
        rw (e, f)
          (collect_cells-eq off end (c + p.len) ps
            ∙ sym (
                slice_of_piece off end c p (cells ps)
                ∙ ap (λ r. r ++ slice_from off end (c + p.len) (cells ps))
                    (run-zero p.source _ _ (omega (arith, ltb→le _ _ f)))))
  ]
]

-- The walk over all the pieces.
pub collect_cells-slice :
    (off end : ℕ) (ps : List Piece)
    → collect_cells off end 0 ps ≡ take (end - off) (drop off (cells ps))
unfolding slice_from
collect_cells-slice off end ps =
    collect_cells-eq off end 0 ps
    ∙ ap₂ take {x = end - max off 0} {y = end - off} (omega arith)
        (ap (λ j. drop j (cells ps)) {x = off - 0} {y = off} (omega arith))

-- The walk from the piece that spans `off` covers the whole slice.
collect-Located :
    (end : ℕ) {off idx cursor : ℕ} {ps : List Piece} (l : Located off 0 ps idx cursor)
    → collect_cells off end cursor (drop idx ps) ≡ take (end - off) (drop off (cells ps))
unfolding slice_from
collect-Located end {off} {idx} {cursor} {ps} l =
    let tail = l.here ∷ l.post in
    ap (λ r. collect_cells off end cursor (drop idx r)) l.parts
    ∙ ap (collect_cells off end cursor) (drop-append l.pre tail idx l.index)
    ∙ collect_cells-eq off end cursor tail
    ∙ ap₂ take {x = end - max off cursor} {y = end - off} (omega (arith, l.below)) (
        sym (
          ap (λ r. drop off (cells r)) l.parts
          ∙ ap (drop off) (cells-append l.pre tail)
          ∙ drop_of_append (cells l.pre) (cells tail) off (off - cursor)
              (omega (arith, l.start, length-cells l.pre))
          ∙ ap (λ r. r ++ drop (off - cursor) (cells tail))
              (drop_all off (cells l.pre) (omega (arith, l.start, l.below, length-cells l.pre)))))

pub in_range : (off n len : ℕ) → (n == 0 || leb len off) ≡ false → off < len
in_range off n len e = ground arith

-- Within the table the read rebuilds the cache.
pub cell_ids_range_found :
    (off n : ℕ) (t : PieceTable)
    → IsWhole t
    → t.len < u64_mod
    → (n == 0 || leb t.len off) ≡ false
    → cell_ids_range off n t ≡ (take n (drop off (cells t.pieces)), ensured t)
unfolding cell_ids_range
cell_ids_range_found off n t w fits e =
    let f = find_piece_lem off t w (in_range off n t.len e) in
    let slice : List CellId = take n (drop off (cells t.pieces)) in
    rw (e, f.returns)
      (ap (λ r. (r, ensured t))
        (collect-Located (min (saturating_add off n) t.len) f.located
          ∙ take-min n (min (saturating_add off n) t.len - off) (drop off (cells t.pieces)) (
              omega (
                arith,
                length-drop off (cells t.pieces),
                length-cells t.pieces,
                w.counted,
                in_range off n t.len e,
              ))))

pub slice_outside :
    (off n : ℕ) (t : PieceTable)
    → IsWhole t
    → (n == 0 || leb t.len off) ≡ true
    → take n (drop off (cells t.pieces)) ≡ []
slice_outside off n t w e = elim (Bool-cases (leb t.len off)) [
  | inl h ↦
      ap (take n) (
        drop_all off (cells t.pieces)
          (omega (arith, leb→le _ _ h, length-cells t.pieces, w.counted)))
      ∙ take-nil n
  | inr h ↦ ap (λ j. take j (drop off (cells t.pieces))) {x = n} {y = 0} (ground arith)
]

-- On a table shorter than 2^64, whose length is that of its pieces and whose prefix cache is right where
-- it is not marked dirty, `cell_ids_range` returns the displayed cells from the offset on, at most as
-- many as asked for.
pub cell_ids_range_lem :
    (off n : ℕ) (t : PieceTable)
    → IsWhole t
    → t.len < u64_mod
    → (cell_ids_range off n t).0 ≡ take n (drop off (cells t.pieces))
cell_ids_range_lem off n t w fits = elim (Bool-cases (n == 0 || leb t.len off)) [
  | inl e ↦ unfold cell_ids_range in rw e (sym (slice_outside off n t w e))
  | inr e ↦ ap (λ r. r.0) (cell_ids_range_found off n t w fits e)
]
