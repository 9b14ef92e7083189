-- ===== src/PieceTable/Merge.antt =====
-- The merging loops of `coalesce` and `cells_to_pieces`: they keep the cells, and their result is
-- the one piece list that has these cells and nothing left to merge.
use hxedit.Prelude.{
  ==→≡, ==→≢, Bool-cases, List, [], ap, append-nil, append_assoc, arith, false, inl, inr, refl, suc,
  sym, true, zero, ℕ, ≡→==, ◌++◌, ◌+◌, ◌<◌, ◌==◌, ◌∙◌, ◌∷◌, ◌≡◌,
}
use hxedit.Cells.{
  CellId, Piece, PieceSource, add, cell, cells_onto, cells_to_pieces, extended, is_mergeable,
  original, piece, push_piece, run, source_eq,
}
use hxedit.PieceTable.{coalesce_onto}
use hxedit.PieceTable.View.{cells, piece_cells, run-append}

-- `p` cannot be merged with the piece that follows.
abbrev pub Apart : Piece → List Piece → Type 0
Apart p [] = Unit
Apart p (q ∷ qs) = is_mergeable p q ≡ false

abbrev pub IsCoalesced : List Piece → Type 0
IsCoalesced [] = Unit
IsCoalesced (p ∷ ps) = (0 < p.len) × Apart p ps × IsCoalesced ps

pub source_eq→≡ : (s u : PieceSource) → source_eq s u ≡ true → s ≡ u
source_eq→≡ original original h = refl
source_eq→≡ add add h = refl
source_eq→≡ original add h = cc
source_eq→≡ add original h = cc

pub source_eq_refl : (s : PieceSource) → source_eq s s ≡ true
source_eq_refl original = refl
source_eq_refl add = refl

mergeable-source : (p q : Piece) → is_mergeable p q ≡ true → p.source ≡ q.source
mergeable-source p q h = source_eq→≡ p.source q.source (ground arith)

mergeable-start : (p q : Piece) → is_mergeable p q ≡ true → p.start + p.len ≡ q.start
mergeable-start p q h = ground arith

extended-cells :
    (p q : Piece)
    → is_mergeable p q ≡ true
    → piece_cells (extended p q) ≡ piece_cells p ++ piece_cells q
extended-cells p q h = sym (
    ap (λ s. piece_cells p ++ run s q.start q.len) (sym (mergeable-source p q h))
    ∙ run-append p.source p.start q.start p.len q.len (p.len + q.len) (sym (mergeable-start p q h))
        refl)

pub push_piece-cells :
    (ps : List Piece) (p : Piece) → cells (push_piece ps p) ≡ cells ps ++ piece_cells p
unfolding push_piece
push_piece-cells [] p = append-nil (piece_cells p)
push_piece-cells (q ∷ []) p = elim (Bool-cases (is_mergeable q p)) [
  | inl e ↦ rw e (
      append-nil (piece_cells (extended q p))
      ∙ extended-cells q p e
      ∙ ap (λ r. r ++ piece_cells p) (sym (append-nil (piece_cells q))))
  | inr e ↦ rw e (
      ap (piece_cells q ++◌) (append-nil (piece_cells p))
      ∙ ap (λ r. r ++ piece_cells p) (sym (append-nil (piece_cells q))))
]
push_piece-cells (q ∷ r ∷ qs) p =
    ap (piece_cells q ++◌) (push_piece-cells (r ∷ qs) p)
    ∙ sym (append_assoc (piece_cells q) (cells (r ∷ qs)) (piece_cells p))

Apart-push_piece :
    (q r : Piece) (qs : List Piece) (p : Piece)
    → is_mergeable q r ≡ false
    → Apart q (push_piece (r ∷ qs) p)
unfolding push_piece
Apart-push_piece q r [] p h = elim (Bool-cases (is_mergeable r p)) [
  | inl e ↦ rw e h
  | inr e ↦ rw e h
]
Apart-push_piece q r (_ ∷ qs) p h = h

pub push_piece-IsCoalesced :
    (ps : List Piece) (p : Piece) → IsCoalesced ps → 0 < p.len → IsCoalesced (push_piece ps p)
unfolding push_piece
push_piece-IsCoalesced [] p c h = (h, tt, tt)
push_piece-IsCoalesced (q ∷ []) p c h = elim (Bool-cases (is_mergeable q p)) [
  | inl e ↦ rw e (omega (arith, c.0), tt, tt)
  | inr e ↦ rw e (c.0, e, (h, tt, tt))
]
push_piece-IsCoalesced (q ∷ r ∷ qs) p c h =
    (c.0, Apart-push_piece q r qs p c.1, push_piece-IsCoalesced (r ∷ qs) p c.2 h)

pub coalesce_onto-cells : (ms ps : List Piece) → cells (coalesce_onto ms ps) ≡ cells ms ++ cells ps
unfolding coalesce_onto run
coalesce_onto-cells ms [] = sym (append-nil (cells ms))
coalesce_onto-cells ms (p ∷ ps) = elim (Bool-cases (p.len == 0)) [
  | inl e ↦ rw e (
      coalesce_onto-cells ms ps
      ∙ ap (λ n. cells ms ++ (run p.source p.start n ++ cells ps)) {x = 0} {y = p.len}
          (omega (arith, ==→≡ _ _ e)))
  | inr e ↦ rw e (
      coalesce_onto-cells (push_piece ms p) ps
      ∙ ap (λ r. r ++ cells ps) (push_piece-cells ms p)
      ∙ append_assoc (cells ms) (piece_cells p) (cells ps))
]

pub coalesce_onto-IsCoalesced :
    (ms ps : List Piece) → IsCoalesced ms → IsCoalesced (coalesce_onto ms ps)
unfolding coalesce_onto
coalesce_onto-IsCoalesced ms [] c = c
coalesce_onto-IsCoalesced ms (p ∷ ps) c = elim (Bool-cases (p.len == 0)) [
  | inl e ↦ rw e (coalesce_onto-IsCoalesced ms ps c)
  | inr e ↦ rw e (
      coalesce_onto-IsCoalesced (push_piece ms p) ps
        (push_piece-IsCoalesced ms p c (omega (arith, ==→≢ _ _ e))))
]

-- The pieces made of a list of cells have these cells.
cells_onto-cells :
    (out : List Piece) (cs : List CellId) → cells (cells_onto out cs) ≡ cells out ++ cs
unfolding cells_onto run
cells_onto-cells out [] = sym (append-nil (cells out))
cells_onto-cells out (cell s a ∷ cs) =
    cells_onto-cells (push_piece out (piece s a 1)) cs
    ∙ ap (λ r. r ++ cs) (push_piece-cells out (piece s a 1))
    ∙ append_assoc (cells out) (cell s a ∷ []) cs

pub cells-cells_to_pieces : (cs : List CellId) → cells (cells_to_pieces cs) ≡ cs
cells-cells_to_pieces cs = cells_onto-cells [] cs

-- Pushing behind a last piece looks at that piece alone.
push_piece-snoc_apart :
    (xs : List Piece) (q p : Piece)
    → is_mergeable q p ≡ false
    → push_piece (xs ++ (q ∷ [])) p ≡ xs ++ (q ∷ p ∷ [])
unfolding push_piece
push_piece-snoc_apart [] q p e = rw e
push_piece-snoc_apart (x ∷ []) q p e = rw e
push_piece-snoc_apart (x ∷ y ∷ xs) q p e = ap (x ∷◌) (push_piece-snoc_apart (y ∷ xs) q p e)

push_piece-snoc_merge :
    (xs : List Piece) (q p : Piece)
    → is_mergeable q p ≡ true
    → push_piece (xs ++ (q ∷ [])) p ≡ xs ++ (extended q p ∷ [])
unfolding push_piece
push_piece-snoc_merge [] q p e = rw e
push_piece-snoc_merge (x ∷ []) q p e = rw e
push_piece-snoc_merge (x ∷ y ∷ xs) q p e = ap (x ∷◌) (push_piece-snoc_merge (y ∷ xs) q p e)

-- The rest of a run grows the piece that the run has begun.
cells_onto-grow :
    (xs : List Piece) (s : PieceSource) (a k n b m : ℕ) (cs : List CellId)
    → b ≡ a + k
    → m ≡ k + n
    → cells_onto (xs ++ (piece s a k ∷ [])) (run s b n ++ cs)
      ≡ cells_onto (xs ++ (piece s a m ∷ [])) cs
unfolding cells_onto run
cells_onto-grow xs s a k zero b m cs e f =
    ap (λ j. cells_onto (xs ++ (piece s a j ∷ [])) cs) {x = k} {y = m} (omega arith)
cells_onto-grow xs s a k (suc n) b m cs e f =
    ap (λ r. cells_onto r (run s (b + 1) n ++ cs))
      (push_piece-snoc_merge xs (piece s a k) (piece s b 1)
        (rw (source_eq_refl s) (≡→== (a + k) b (omega arith))))
    ∙ cells_onto-grow xs s a (k + 1) n (b + 1) m cs (omega arith) (omega arith)

-- The last piece of `xs`, if any, is apart from `ps`.
abbrev Follows : List Piece → List Piece → Type 0
Follows [] ps = Unit
Follows (q ∷ []) ps = Apart q ps
Follows (q ∷ r ∷ qs) ps = Follows (r ∷ qs) ps

push_piece-Follows :
    (xs : List Piece) (p : Piece) (n : ℕ) (ps : List Piece)
    → Follows xs (p ∷ ps)
    → push_piece xs (record p { len = n }) ≡ xs ++ (record p { len = n } ∷ [])
unfolding push_piece
push_piece-Follows [] p n ps h = refl
push_piece-Follows (q ∷ []) p n ps h = rw h
push_piece-Follows (q ∷ r ∷ xs) p n ps h = ap (q ∷◌) (push_piece-Follows (r ∷ xs) p n ps h)

Follows-snoc :
    (xs : List Piece) (p : Piece) (ps : List Piece) → Apart p ps → Follows (xs ++ (p ∷ [])) ps
Follows-snoc [] p ps h = h
Follows-snoc (x ∷ []) p ps h = h
Follows-snoc (x ∷ y ∷ xs) p ps h = Follows-snoc (y ∷ xs) p ps h

cells_onto-begin :
    (xs : List Piece) (s : PieceSource) (a n : ℕ) (ps : List Piece) (cs : List CellId)
    → Follows xs (piece s a n ∷ ps)
    → 0 < n
    → cells_onto xs (run s a n ++ cs) ≡ cells_onto (xs ++ (piece s a n ∷ [])) cs
unfolding cells_onto run
cells_onto-begin xs s a zero ps cs f h = absurd (omega arith)
cells_onto-begin xs s a (suc n) ps cs f h =
    ap (λ r. cells_onto r (run s (a + 1) n ++ cs))
      (push_piece-Follows xs (piece s a (suc n)) 1 ps f)
    ∙ cells_onto-grow xs s a 1 n (a + 1) (suc n) cs refl (omega arith)

cells_onto-coalesced :
    (xs ps : List Piece) → Follows xs ps → IsCoalesced ps → cells_onto xs (cells ps) ≡ xs ++ ps
unfolding cells_onto
cells_onto-coalesced xs [] f c = sym (append-nil xs)
cells_onto-coalesced xs (p ∷ ps) f (h, a, c) =
    cells_onto-begin xs p.source p.start p.len ps (cells ps) f h
    ∙ cells_onto-coalesced (xs ++ (p ∷ [])) ps (Follows-snoc xs p ps a) c
    ∙ append_assoc xs (p ∷ []) ps

-- A coalesced piece list, one without empty pieces or mergeable neighbours, is the list that
-- `cells_to_pieces` makes from the cells it displays.
pub cells_to_pieces-cells : (ps : List Piece) → IsCoalesced ps → cells_to_pieces (cells ps) ≡ ps
cells_to_pieces-cells ps c = cells_onto-coalesced [] ps tt c

-- So a coalesced piece list is determined by what it displays.
pub coalesced_unique :
    (ps qs : List Piece) → IsCoalesced ps → IsCoalesced qs → cells ps ≡ cells qs → ps ≡ qs
coalesced_unique ps qs c d e =
    sym (cells_to_pieces-cells ps c) ∙ ap cells_to_pieces e ∙ cells_to_pieces-cells qs d
