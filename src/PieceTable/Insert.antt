-- ===== src/PieceTable/Insert.antt =====
-- `insert_bytes` and `insert_existing_cells` splice cells into the view.
use hxedit.Prelude.{
  List, [], ap, append-nil, arith, drop, drop-append, drop-min, length, length-append, length-drop,
  length-take, min, refl, sym, take, take-append, take-append-drop, take-min, u64_mod, ℕ, ◌++◌, ◌+◌,
  ◌<◌, ◌∙◌, ◌∷◌, ◌≡◌,
}
use mathlib.Core.Path.{ap₂, subst₂}
use hxedit.Cells.{CellId, Piece, add, cells_to_pieces, piece, run}
use hxedit.PieceTable.{
  PieceTable, add_wrapping, committed, insert_bytes, insert_existing_cells, new,
}
use hxedit.PieceTable.View.{cells, cells-append, length-cells, length-run}
use hxedit.PieceTable.Resolve.{IsWhole}
use hxedit.PieceTable.Split.{SplitAt, back, front, split_piece_at_lem}
use hxedit.PieceTable.Merge.{cells-cells_to_pieces}
use hxedit.PieceTable.Valid.{
  IsValid, Within, Within-append, Within-drop, Within-run, Within-take, Within-mono,
  committed-Commits,
}

-- `new` spliced in at `off`; past the end it goes to the end.
abbrev pub spliced : ℕ → List CellId → List CellId → List CellId
spliced off new cs = take off cs ++ (new ++ drop off cs)

pub length-spliced :
    (off : ℕ) (new cs : List CellId) → length (spliced off new cs) ≡ length cs + length new
length-spliced off new cs = omega (
  arith,
  length-append (take off cs) (new ++ drop off cs),
  length-append new (drop off cs),
  length-take off cs,
  length-drop off cs,
)

-- Inserting pieces at the cut that a split has made.
spliced-pieces :
    (off : ℕ) (t : PieceTable) (new : List Piece) (s : SplitAt (min off t.len) t)
    → IsWhole t
    → cells (take (length s.pre) s.after.pieces ++ (new ++ drop (length s.pre) s.after.pieces))
      ≡ spliced off (cells new) (cells t.pieces)
spliced-pieces off t new s w =
    let cs = cells t.pieces in
    let clamp : min off t.len ≡ min off (length cs) =
      omega (arith, length-cells t.pieces, w.counted) in
    ap₂ (λ a b. cells (a ++ (new ++ b)))
      (ap (take (length s.pre)) s.parts ∙ take-append s.pre s.post (length s.pre) refl)
      (ap (drop (length s.pre)) s.parts ∙ drop-append s.pre s.post (length s.pre) refl)
    ∙ cells-append s.pre (new ++ s.post)
    ∙ ap₂ ◌++◌ (front s ∙ take-min off (min off t.len) cs clamp) (
        cells-append new s.post
        ∙ ap (cells new ++◌) (back s ∙ drop-min off (min off t.len) cs clamp))

wrap_exact : (a b : ℕ) → a + b < u64_mod → add_wrapping a b ≡ a + b
wrap_exact a b h = omega arith

-- What an insertion leaves.
pub record Inserts (off : ℕ) (new : List CellId) (t r : PieceTable) : Type 0 where
  pub shows : cells r.pieces ≡ spliced off new (cells t.pieces)
  pub valid : IsValid r
  pub longer : r.len ≡ t.len + length new
  pub same_original : r.original_len ≡ t.original_len

abbrev with_bytes : List ℕ → PieceTable → PieceTable
with_bytes bs t = record t { add_buffer = t.add_buffer ++ bs }

splice_commits :
    (off n : ℕ) (t : PieceTable) (ps : List Piece) (new : List CellId)
    (s : SplitAt (min off t.len) t)
    → IsWhole t
    → cells ps ≡ new
    → n ≡ length new
    → t.len + length new < u64_mod
    → Within t.original_len (length t.add_buffer) (spliced off new (cells t.pieces))
    → let r = committed (record (s.after) {
      pieces = take (length s.pre) s.after.pieces ++ (ps ++ drop (length s.pre) s.after.pieces);
      len = add_wrapping s.after.len n;
    }) in
      Inserts off new t r × (r.add_buffer ≡ t.add_buffer)
splice_commits off n t ps new s w made count fits within =
    let exact : add_wrapping s.after.len n ≡ t.len + length new =
      wrap_exact s.after.len n (omega (arith, s.same_len)) ∙ omega (arith, s.same_len) in
    let c =
      committed-Commits _ (spliced off new (cells t.pieces))
        (spliced-pieces off t ps s w ∙ ap (λ n. spliced off n (cells t.pieces)) made)
        (length-spliced off new (cells t.pieces)
          ∙ omega (arith, exact, length-cells t.pieces, w.counted))
        (omega (arith, exact))
        (subst₂ (λ o a. Within o (length a) (spliced off new (cells t.pieces)))
          (sym s.same_original) (sym s.same_add) within) in
    (
      record {
        shows = c.shows;
        valid = c.valid;
        longer = c.same_len ∙ exact;
        same_original = c.same_original ∙ s.same_original;
      },
      c.same_add ∙ s.same_add,
    )

Within-spliced :
    (o a off : ℕ) (new cs : List CellId)
    → Within o a new
    → Within o a cs
    → Within o a (spliced off new cs)
Within-spliced o a off new cs h k =
    Within-append o a (take off cs) (new ++ drop off cs) (Within-take o a off cs k)
      (Within-append o a new (drop off cs) h (Within-drop o a off cs k))

Inserts-nothing : (off : ℕ) (t : PieceTable) → IsValid t → Inserts off [] t t
Inserts-nothing off t v = record {
  shows = sym (take-append-drop off (cells t.pieces));
  valid = v;
  longer = omega arith;
  same_original = refl;
}

insert_bytes_at :
    (off b : ℕ) (bs : List ℕ) (t : PieceTable)
    → IsValid t
    → t.len + length (b ∷ bs) < u64_mod
    → SplitAt (min off t.len) (with_bytes (b ∷ bs) t)
    → Inserts off (run add (length t.add_buffer) (length (b ∷ bs))) t (insert_bytes off (b ∷ bs) t)
      × ((insert_bytes off (b ∷ bs) t).add_buffer ≡ t.add_buffer ++ (b ∷ bs))
unfolding insert_bytes
insert_bytes_at off b bs t v h s =
    let new = run add (length t.add_buffer) (length (b ∷ bs)) in
    let more = length-append t.add_buffer (b ∷ bs) in
    let long = length-run add (length t.add_buffer) (length (b ∷ bs)) in
    let (c, added) =
      splice_commits off (length (b ∷ bs)) (with_bytes (b ∷ bs) t)
        (piece add (length t.add_buffer) (length (b ∷ bs)) ∷ []) new s
        (record { counted = v.whole.counted; cached = v.whole.cached }) (append-nil new) (sym long)
        (omega (arith, long))
        (Within-spliced t.original_len (length (t.add_buffer ++ (b ∷ bs))) off new (cells t.pieces)
          (Within-run t.original_len (length (t.add_buffer ++ (b ∷ bs))) add (length t.add_buffer) _
            (omega (arith, more)))
          (Within-mono t.original_len (length t.add_buffer) _ (cells t.pieces) (omega (arith, more))
            v.within)) in
    rw s.returns (
      record {
        shows = c.shows;
        valid = c.valid;
        longer = c.longer;
        same_original = c.same_original;
      },
      added,
    )

-- On a valid table with room for the bytes, `insert_bytes` splices the fresh part of the add-buffer,
-- a cell for each byte, into the displayed list at the offset (at the end, where the offset is
-- larger), leaves the table valid, counts the bytes, and appends them to the add-buffer.
pub insert_bytes_lem :
    (off : ℕ) (bs : List ℕ) (t : PieceTable)
    → IsValid t
    → t.len + length bs < u64_mod
    → Inserts off (run add (length t.add_buffer) (length bs)) t (insert_bytes off bs t)
      × ((insert_bytes off bs t).add_buffer ≡ t.add_buffer ++ bs)
unfolding insert_bytes
insert_bytes_lem off [] t v h =
    (unfold run in Inserts-nothing off t v, sym (append-nil t.add_buffer))
insert_bytes_lem off (b ∷ bs) t v h = insert_bytes_at off b bs t v h (
    split_piece_at_lem (min off t.len) (with_bytes (b ∷ bs) t)
      (record { counted = v.whole.counted; cached = v.whole.cached }) (omega arith))

-- On a valid table with room for them, `insert_existing_cells` splices the given cells, each of them
-- of the file or the add-buffer, into the displayed list at the offset (at the end, where the offset
-- is larger), leaves the table valid, counts them, and keeps the add-buffer.
pub insert_existing_cells_lem :
    (off : ℕ) (new : List CellId) (t : PieceTable)
    → IsValid t
    → t.len + length new < u64_mod
    → Within t.original_len (length t.add_buffer) new
    → Inserts off new t (insert_existing_cells off new t)
      × ((insert_existing_cells off new t).add_buffer ≡ t.add_buffer)
unfolding insert_existing_cells
insert_existing_cells_lem off [] t v h k = (Inserts-nothing off t v, refl)
insert_existing_cells_lem off (c ∷ cs) t v h k =
    let s = split_piece_at_lem (min off t.len) t v.whole (omega arith) in
    rw s.returns (
      splice_commits off (length (c ∷ cs)) t (cells_to_pieces (c ∷ cs)) (c ∷ cs) s v.whole
        (cells-cells_to_pieces (c ∷ cs)) refl h
        (Within-spliced t.original_len (length t.add_buffer) off (c ∷ cs) (cells t.pieces) k
          v.within))
