-- ===== src/PieceTable/Locate.antt =====
-- `find_piece`: the binary search over the prefix sums finds the piece that spans an offset.
use hxedit.Prelude.{
  ℕ, zero, suc, ◌+◌, ◌≤◌, ◌<◌, ◌≡◌, refl, ap, inl, inr, List, [], ◌∷◌, ◌++◌, arith, Bool-cases, leb,
  leb→le, leb→lt, length, get_or,
}
use hxedit.Cells.{Piece}
use hxedit.PieceTable.{prefix_sums, partition_point}
use hxedit.PieceTable.View.{total}

-- A place in a piece list that starts at display offset `c`.
pub record Located (off c : ℕ) (ps : List Piece) (idx cursor : ℕ) : Type 0 where
  pub pre : List Piece
  pub here : Piece
  pub post : List Piece
  pub parts : ps ≡ pre ++ (here ∷ post)
  pub index : idx ≡ length pre
  pub start : cursor ≡ c + total pre
  pub below : cursor ≤ off
  pub above : off < cursor + here.len

abbrev pub cursor_from : ℕ → List ℕ → ℕ → ℕ
cursor_from c ends zero = c
cursor_from c ends (suc i) = get_or ends i 0

cursor_from-suc :
    (c e : ℕ) (es : List ℕ) (k : ℕ) → cursor_from c (e ∷ es) (suc k) ≡ cursor_from e es k
cursor_from-suc c e es zero = refl
cursor_from-suc c e es (suc k) = refl

pub locate :
    (off c : ℕ) (ps : List Piece)
    → c ≤ off
    → off < c + total ps
    → Located off c ps
        (partition_point off (prefix_sums c ps))
        (cursor_from c (prefix_sums c ps) (partition_point off (prefix_sums c ps)))
unfolding prefix_sums partition_point
locate off c [] h k = absurd (omega arith)
locate off c (p ∷ ps) h k = elim (Bool-cases (leb (c + p.len) off)) [
  | inl e ↦
      let rest = locate off (c + p.len) ps (leb→le _ _ e) (omega arith) in
      let ends = prefix_sums (c + p.len) ps in
      rw (e, cursor_from-suc c (c + p.len) ends (partition_point off ends))
        (record {
          pre = p ∷ rest.pre;
          here = rest.here;
          post = rest.post;
          parts = ap (p ∷◌) rest.parts;
          index = ap suc rest.index;
          start = omega (arith, rest.start);
          below = rest.below;
          above = rest.above;
        })
  | inr e ↦ rw e (record {
    pre = [];
    here = p;
    post = ps;
    parts = refl;
    index = refl;
    start = omega arith;
    below = h;
    above = omega (arith, leb→lt _ _ e);
  })
]
