-- ===== src/PieceTable/Resolve.antt =====
-- `resolve`, `cell_ids_range` and the prefix cache read the abstract view.
use hxedit.Prelude.{
  ℕ, zero, suc, ◌+◌, ◌-◌, ◌<◌, ◌≡◌, refl, sym, ap, ◌∙◌, inl, inr, false, some, List, [], ◌∷◌, arith,
  Bool-cases, leb, leb→le, leb→lt, lt→leb, length, get_elem?, length-append, get_elem?-append,
  get_elem?-append_lt, get_elem?-none,
}
use hxedit.Cells.{cell, Piece, run}
use hxedit.PieceTable.{
  PieceTable, prefix_sums, partition_point, ensure_prefix, find_piece, is_nil, resolve, cursor_at,
}
use hxedit.PieceTable.View.{cells, total, length-cells, cells-append, length-run, get_elem?-run}
use hxedit.PieceTable.Locate.{Located, cursor_from, locate}

-- What the readers rely on: the length is that of the pieces, and a clean cache is right.
pub record IsWhole (t : PieceTable) : Type 0 where
  pub counted : total t.pieces ≡ t.len
  pub cached : t.prefix_dirty ≡ false → t.prefix_ends ≡ prefix_sums 0 t.pieces

abbrev pub ensured : PieceTable → PieceTable
ensured t = record t { prefix_ends = prefix_sums 0 t.pieces; prefix_dirty = false }

pub ensure_prefix-eq : (t : PieceTable) → IsWhole t → ensure_prefix t ≡ ensured t
unfolding ensure_prefix
ensure_prefix-eq t w = elim (Bool-cases t.prefix_dirty) [
  | inl e ↦ rw e
  | inr e ↦ simp e (λ i. record t { prefix_ends = w.cached e i; prefix_dirty = e i })
]

pub ensured-IsWhole : {t : PieceTable} → IsWhole t → IsWhole (ensured t)
ensured-IsWhole w = record { counted = w.counted; cached = λ _. refl }

abbrev found_index : ℕ → PieceTable → ℕ
found_index off t = partition_point off (prefix_sums 0 t.pieces)

pub record Found (off : ℕ) (t : PieceTable) : Type 0 where
  pub idx : ℕ
  pub cursor : ℕ
  pub returns : find_piece off t ≡ (some (idx, cursor), ensured t)
  pub located : Located off 0 t.pieces idx cursor

not_nil : (ps : List Piece) (off : ℕ) → off < total ps → is_nil ps ≡ false
not_nil [] off h = absurd (omega arith)
not_nil (p ∷ ps) off h = refl

cursor_at-eq : (ends : List ℕ) (i : ℕ) → cursor_at ends i ≡ cursor_from 0 ends i
cursor_at-eq ends zero = refl
cursor_at-eq ends (suc i) = refl

index-lt :
    {off c : ℕ} {ps : List Piece} {idx cursor : ℕ} → Located off c ps idx cursor → idx < length ps
index-lt l = omega (arith, l.index, ap length l.parts, length-append l.pre (l.here ∷ l.post))

pub find_piece_lem : (off : ℕ) (t : PieceTable) → IsWhole t → off < t.len → Found off t
unfolding find_piece
find_piece_lem off t w h =
    let l = locate off 0 t.pieces (omega arith) (omega (arith, w.counted)) in
    let i = found_index off t in
    record {
      idx = i;
      cursor = cursor_from 0 (prefix_sums 0 t.pieces) i;
      returns = rw (
        lt→leb t.len off h,
        not_nil t.pieces off (omega (arith, w.counted)),
        ensure_prefix-eq t w,
        lt→leb (length t.pieces) i (index-lt l),
        cursor_at-eq (prefix_sums 0 t.pieces) i,
      );
      located = l;
    }

-- The piece found, and its cells within those of the list.
pub Located-piece :
    {off c : ℕ} {ps : List Piece} {idx cursor : ℕ} (l : Located off c ps idx cursor)
    → get_elem? ps idx ≡ some l.here
Located-piece {ps} {idx} l =
    rw l.parts (get_elem?-append l.pre (l.here ∷ l.post) idx 0 (omega (arith, l.index)))

pub Located-cell :
    {off : ℕ} {ps : List Piece} {idx cursor : ℕ} (l : Located off 0 ps idx cursor)
    → get_elem? (cells ps) off ≡ some (cell l.here.source (l.here.start + (off - cursor)))
Located-cell {off} {ps} {idx} {cursor} l =
    rw (l.parts, cells-append)
      (get_elem?-append (cells l.pre) _ off (off - cursor)
          (omega (arith, l.start, l.below, length-cells l.pre))
        ∙ get_elem?-append_lt (run l.here.source l.here.start l.here.len) (cells l.post)
            (off - cursor)
            (omega (arith, l.above, l.below, length-run l.here.source l.here.start l.here.len))
        ∙ get_elem?-run l.here.source l.here.start l.here.len (off - cursor) _
            (omega (arith, l.above, l.below)) refl)

-- On a table whose length is that of its pieces, and whose prefix cache is right where it is not marked
-- dirty, `resolve` returns the displayed cell at the offset, and `none` past the end.
pub resolve_lem :
    (off : ℕ) (t : PieceTable) → IsWhole t → (resolve off t).0 ≡ get_elem? (cells t.pieces) off
unfolding resolve
resolve_lem off t w = elim (Bool-cases (leb t.len off)) [
  | inl e ↦ rw e (
      sym (
        get_elem?-none (cells t.pieces) off
          (omega (arith, leb→le _ _ e, w.counted, length-cells t.pieces))))
  | inr e ↦
      let f = find_piece_lem off t w (leb→lt _ _ e) in
      rw (e, f.returns, Located-piece f.located) (sym (Located-cell f.located))
]
