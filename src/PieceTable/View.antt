-- ===== src/PieceTable/View.antt =====
-- The abstract view of a piece list: the cells on display, in their order.
use hxedit.Prelude.{
  take, drop, ◌-◌, min, ℕ, zero, suc, ◌+◌, ◌<◌, ◌≡◌, refl, sym, ap, ◌∙◌, some, List, [], ◌∷◌, ◌++◌,
  arith, append_assoc, length, get_elem?, length-append,
}
use mathlib.Core.Path.{ap₂}
use hxedit.Cells.{PieceSource, CellId, cell, from_source, Piece, run}

abbrev pub piece_cells : Piece → List CellId
piece_cells p = run p.source p.start p.len

abbrev pub cells : List Piece → List CellId
cells [] = []
cells (p ∷ ps) = piece_cells p ++ cells ps

abbrev pub total : List Piece → ℕ
total [] = 0
total (p ∷ ps) = p.len + total ps

pub length-run : (s : PieceSource) (a n : ℕ) → length (run s a n) ≡ n
unfolding run
length-run s a zero = refl
length-run s a (suc n) = ap suc (length-run s (a + 1) n)

pub length-cells : (ps : List Piece) → length (cells ps) ≡ total ps
length-cells [] = refl
length-cells (p ∷ ps) =
    length-append (piece_cells p) (cells ps)
    ∙ omega (arith, length-run p.source p.start p.len, length-cells ps)

pub cells-append : (ps qs : List Piece) → cells (ps ++ qs) ≡ cells ps ++ cells qs
cells-append [] qs = refl
cells-append (p ∷ ps) qs =
    ap (piece_cells p ++◌) (cells-append ps qs)
    ∙ sym (append_assoc (piece_cells p) (cells ps) (cells qs))

pub total-append : (ps qs : List Piece) → total (ps ++ qs) ≡ total ps + total qs
total-append [] qs = omega arith
total-append (p ∷ ps) qs = omega (arith, total-append ps qs)

eq_of : (a b : ℕ) → a ≡ b → a ≡ b
eq_of a b e = e

-- Two runs that meet are one.
pub run-append :
    (s : PieceSource) (a b n m k : ℕ) → b ≡ a + n → k ≡ n + m → run s a n ++ run s b m ≡ run s a k
unfolding run
run-append s a b zero m k e f = ap₂ (run s) (eq_of b a (omega arith)) (eq_of m k (omega arith))
run-append s a b (suc n) m zero e f = absurd (omega arith)
run-append s a b (suc n) m (suc k) e f =
    ap (from_source s a ∷◌) (run-append s (a + 1) b n m k (omega arith) (omega arith))

pub get_elem?-run :
    (s : PieceSource) (a n i b : ℕ) → i < n → b ≡ a + i → get_elem? (run s a n) i ≡ some (cell s b)
unfolding run
get_elem?-run s a zero i b h e = absurd (omega arith)
get_elem?-run s a (suc n) zero b h e = ap (λ x. some (cell s x)) {x = a} {y = b} (omega arith)
get_elem?-run s a (suc n) (suc i) b h e = get_elem?-run s (a + 1) n i b (omega arith) (omega arith)

pub take-run : (s : PieceSource) (a n m k : ℕ) → k ≡ min n m → take n (run s a m) ≡ run s a k
unfolding run
take-run s a zero m k e = ap (run s a) (eq_of 0 k (omega arith))
take-run s a (suc n) zero k e = ap (run s a) (eq_of 0 k (omega arith))
take-run s a (suc n) (suc m) zero e = absurd (omega arith)
take-run s a (suc n) (suc m) (suc k) e =
    ap (from_source s a ∷◌) (take-run s (a + 1) n m k (omega arith))

pub drop-run :
    (s : PieceSource) (a b n m k : ℕ) → b ≡ a + n → k ≡ m - n → drop n (run s a m) ≡ run s b k
unfolding run
drop-run s a b zero m k e f = ap₂ (run s) (eq_of a b (omega arith)) (eq_of m k (omega arith))
drop-run s a b (suc n) zero k e f = ap (run s b) (eq_of 0 k (omega arith))
drop-run s a b (suc n) (suc m) k e f = drop-run s (a + 1) b n m k (omega arith) (omega arith)
