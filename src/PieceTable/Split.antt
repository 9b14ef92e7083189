-- ===== src/PieceTable/Split.antt =====
-- `split_piece_at` cuts the piece list at a display offset and keeps the cells.
use hxedit.Prelude.{
  ==→≡, Bool-cases, List, [], ap, append-nil, append_assoc, arith, drop, drop-append, inl, inr, leb,
  leb→le, leb→lt, length, length-append, refl, sym, take, take-append, true, ℕ, ≢→==, ◌++◌, ◌+◌,
  ◌-◌, ◌<◌, ◌==◌, ◌∙◌, ◌∷◌, ◌≡◌, ◌≤◌,
}
use mathlib.Core.List.{tail}
use mathlib.Core.Path.{ap₂}
use hxedit.Cells.{Piece, piece, run}
use hxedit.PieceTable.{PieceTable, split_in, split_piece_at}
use hxedit.PieceTable.View.{cells, cells-append, length-cells, run-append, total, total-append}
use hxedit.PieceTable.Locate.{Located}
use hxedit.PieceTable.Resolve.{IsWhole, Located-piece, ensured, ensured-IsWhole, find_piece_lem}

pub record SplitAt (off : ℕ) (t : PieceTable) : Type 0 where
  pub pre : List Piece
  pub post : List Piece
  pub after : PieceTable
  pub returns : split_piece_at off t ≡ (length pre, after)
  pub parts : after.pieces ≡ pre ++ post
  pub same_cells : cells (pre ++ post) ≡ cells t.pieces
  pub at : total pre ≡ off
  -- The cut adds no boundary before an earlier one.
  pub keeps :
      (xs ys : List Piece)
      → t.pieces ≡ xs ++ ys
      → total xs < off
      → (zs : List Piece) × (pre ≡ xs ++ zs)
  pub same_len : after.len ≡ t.len
  pub same_add : after.add_buffer ≡ t.add_buffer
  pub same_original : after.original_len ≡ t.original_len
  pub whole : IsWhole after

-- The cells before and behind the cut.
module _ {off : ℕ} {t : PieceTable} (s : SplitAt off t) where
  pub front : cells s.pre ≡ take off (cells t.pieces)
  front =
      sym (take-append (cells s.pre) (cells s.post) off (omega (arith, s.at, length-cells s.pre)))
      ∙ ap (take off) (sym (cells-append s.pre s.post) ∙ s.same_cells)

  pub back : cells s.post ≡ drop off (cells t.pieces)
  back =
      sym (drop-append (cells s.pre) (cells s.post) off (omega (arith, s.at, length-cells s.pre)))
      ∙ ap (drop off) (sym (cells-append s.pre s.post) ∙ s.same_cells)

abbrev first_len : List Piece → ℕ
first_len [] = 0
first_len (p ∷ ps) = p.len

prefix_of :
    (xs ys pre : List Piece) (h : Piece) (post : List Piece)
    → xs ++ ys ≡ pre ++ (h ∷ post)
    → total xs < total pre + h.len
    → (zs : List Piece) × (pre ≡ xs ++ zs)
prefix_of [] ys pre h post e lt = (pre, refl)
prefix_of (x ∷ xs) ys [] h post e lt = absurd (omega (arith, ap first_len e))
prefix_of (x ∷ xs) ys (p ∷ pre) h post e lt =
    let (zs, f) = prefix_of xs ys pre h post (ap tail e) (omega (arith, ap first_len e)) in (zs, cc)

split_in-append :
    (pre : List Piece) (p : Piece) (post : List Piece) (k : ℕ)
    → split_in (length pre) k (pre ++ (p ∷ post))
      ≡ pre ++ (record p { len = k } ∷ piece p.source (p.start + k) (p.len - k) ∷ post)
split_in-append [] p post k = refl
split_in-append (q ∷ pre) p post k = ap (q ∷◌) (split_in-append pre p post k)

-- The two halves of a piece have its cells.
halves-cells :
    (p : Piece) (post : List Piece) (k : ℕ)
    → k ≤ p.len
    → cells (record p { len = k } ∷ piece p.source (p.start + k) (p.len - k) ∷ post)
      ≡ cells (p ∷ post)
halves-cells p post k h =
    sym
      (append_assoc (run p.source p.start k) (run p.source (p.start + k) (p.len - k)) (cells post))
    ∙ ap (λ r. r ++ cells post)
        (run-append p.source p.start (p.start + k) k (p.len - k) p.len refl (omega arith))

SplitAt-boundary :
    (off idx cursor : ℕ) (t : PieceTable)
    → IsWhole t
    → Located off 0 t.pieces idx cursor
    → off ≡ cursor
    → split_piece_at off t ≡ (idx, ensured t)
    → SplitAt off t
SplitAt-boundary off idx cursor t w l e r = record {
  pre = l.pre;
  post = l.here ∷ l.post;
  after = ensured t;
  returns = r ∙ ap (λ (i : ℕ). (i, ensured t)) l.index;
  parts = l.parts;
  same_cells = ap cells (sym l.parts);
  at = omega (arith, l.start);
  keeps =
      λ xs ys p h. prefix_of xs ys l.pre l.here l.post (sym p ∙ l.parts) (omega (arith, l.start));
  same_len = refl;
  same_add = refl;
  same_original = refl;
  whole = ensured-IsWhole w;
}

abbrev split_pieces : ℕ → ℕ → ℕ → PieceTable → PieceTable
split_pieces off idx cursor t = record (ensured t) {
  pieces = split_in idx (off - cursor) t.pieces;
  prefix_dirty = true;
}

split_inside :
    (off idx cursor : ℕ) (t : PieceTable)
    → IsWhole t
    → Located off 0 t.pieces idx cursor
    → split_piece_at off t ≡ (idx + 1, split_pieces off idx cursor t)
    → SplitAt off t
split_inside off idx cursor t w l r =
    let k = off - cursor in
    let left = record (l.here) { len = k } in
    let right = piece l.here.source (l.here.start + k) (l.here.len - k) in
    let cut : split_in idx k t.pieces ≡ l.pre ++ (left ∷ right ∷ l.post) =
      ap₂ (λ i ps. split_in i k ps) l.index l.parts ∙ split_in-append l.pre l.here l.post k in
    let same : cells (l.pre ++ (left ∷ right ∷ l.post)) ≡ cells t.pieces =
      cells-append l.pre (left ∷ right ∷ l.post)
      ∙ ap (cells l.pre ++◌) (halves-cells l.here l.post k (omega (arith, l.below, l.above)))
      ∙ sym (ap cells l.parts ∙ cells-append l.pre (l.here ∷ l.post)) in
    let assoc = append_assoc l.pre (left ∷ []) (right ∷ l.post) in
    record {
      pre = l.pre ++ (left ∷ []);
      post = right ∷ l.post;
      after = split_pieces off idx cursor t;
      returns =
          r
          ∙ ap (λ (i : ℕ). (i, split_pieces off idx cursor t)) {x = idx + 1}
              {y = length (l.pre ++ (left ∷ []))}
              (omega (arith, l.index, length-append l.pre (left ∷ [])));
      parts = cut ∙ sym assoc;
      same_cells = ap cells assoc ∙ same;
      at = omega (arith, total-append l.pre (left ∷ []), l.start, l.below);
      keeps = λ xs ys p h.
          let (zs, e) =
            prefix_of xs ys l.pre l.here l.post (sym p ∙ l.parts)
              (omega (arith, l.start, l.above)) in
          (zs ++ (left ∷ []), ap (λ z. z ++ (left ∷ [])) e ∙ append_assoc xs zs (left ∷ []));
      same_len = refl;
      same_add = refl;
      same_original = refl;
      whole = record {
        counted =
            sym (length-cells (split_in idx k t.pieces))
            ∙ ap length (ap cells cut ∙ same)
            ∙ length-cells t.pieces
            ∙ w.counted;
        cached = λ dirty. cc;
      };
    }

-- At every offset up to the end the split finds or makes the boundary.
pub split_piece_at_lem : (off : ℕ) (t : PieceTable) → IsWhole t → off ≤ t.len → SplitAt off t
split_piece_at_lem off t w h = elim (Bool-cases (off == 0)) [
  | inl e ↦ record {
    pre = [];
    post = t.pieces;
    after = t;
    returns = unfold split_piece_at in rw e;
    parts = refl;
    same_cells = refl;
    at = omega (arith, ==→≡ _ _ e);
    keeps = λ xs ys p k. absurd (omega (arith, ==→≡ _ _ e));
    same_len = refl;
    same_add = refl;
    same_original = refl;
    whole = w;
  }
  | inr e ↦ elim (Bool-cases (leb t.len off)) [
    | inl f ↦ record {
      pre = t.pieces;
      post = [];
      after = t;
      returns = unfold split_piece_at in rw (e, f);
      parts = sym (append-nil t.pieces);
      same_cells = ap cells (append-nil t.pieces);
      at = omega (arith, leb→le _ _ f, w.counted);
      keeps = λ xs ys p k. (ys, p);
      same_len = refl;
      same_add = refl;
      same_original = refl;
      whole = w;
    }
    | inr f ↦
        let found = find_piece_lem off t w (leb→lt _ _ f) in
        elim (Bool-cases (off == found.cursor)) [
          | inl g ↦
              SplitAt-boundary off found.idx found.cursor t w found.located (==→≡ _ _ g)
                (unfold split_piece_at in rw (e, f, found.returns, g))
          | inr g ↦ split_inside off found.idx found.cursor t w found.located (
              unfold split_piece_at in
              rw (
                e,
                f,
                found.returns,
                g,
                Located-piece found.located,
                ≢→== off (found.cursor + found.located.here.len)
                    (omega (arith, found.located.above)),
              ))
        ]
  ]
]
