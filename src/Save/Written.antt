-- ===== src/Save/Written.antt =====
-- What a save has written: the bytes on display.
use hxedit.Prelude.{
  List, [], ap, append-nil, arith, drop, length, length-append, refl, suc, sym, take, take_all, ℕ,
  ◌++◌, ◌+◌, ◌-◌, ◌∙◌, ◌∷◌, ◌≡◌,
}
use hxedit.Outcome.{HxResult, ok}
use hxedit.Document.{Document, doc_len}
use hxedit.Document.Display.{display}
use hxedit.PieceTable.View.{cells, length-cells}
use hxedit.Document.Walk.{continue, walk_chunk_limit, walk_logical_chunks}
use hxedit.Document.Walk.Chunk.{present_bytes, shown_bytes}
use hxedit.Document.Walk.Reads.{IsWalkable}
use hxedit.Document.Walk.Loop.{walk_range-Walked}
use hxedit.Save.{SaveProfile, chunk, profile_of, write_chunk, write_pieces_to_writer}

module _ {W : Type 0} (write_all : List ℕ → W → HxResult W) (flush : W → HxResult W)
    (contents : W → List ℕ)
    (appends : (bs : List ℕ) (w : W)
      → (w' : W) × (write_all bs w ≡ ok w') × (contents w' ≡ contents w ++ bs))
    (flushes : (w : W) → (w' : W) × (flush w ≡ ok w') × (contents w' ≡ contents w))
    (max_read : ℕ) where
  abbrev Given : List ℕ → W × ℕ → Type 0
  Given bs (w, n) = (contents w ≡ bs) × (n ≡ length bs)

  write_chunk-Given :
      (bs part : List ℕ) (s : W × ℕ)
      → Given bs s
      → (s' : W × ℕ) × (write_chunk write_all flush max_read part s ≡ ok (continue, s'))
        × Given (bs ++ part) s'
  unfolding write_chunk
  write_chunk-Given bs [] (w, n) (g, k) =
      ((w, n), refl, (g ∙ sym (append-nil bs), k ∙ ap length (sym (append-nil bs))))
  write_chunk-Given bs (b ∷ part) (w, n) (g, k) =
      let (w', e, c) = appends (b ∷ part) w in
      (
        (w', n + length (b ∷ part)),
        rw e,
        (c ∙ ap (λ x. x ++ (b ∷ part)) g, omega (arith, k, length-append bs (b ∷ part))),
      )

  whole_display :
      (d : Document)
      → IsWalkable d
      → take (suc (doc_len d - 1) - 0) (drop 0 (cells d.pieces.pieces)) ≡ cells d.pieces.pieces
  whole_display d v =
      take_all (suc (doc_len d - 1) - 0) (cells d.pieces.pieces)
        (omega (arith, length-cells d.pieces.pieces, v.valid.table.whole.counted))

  -- A writer that appends what it is given, and that was empty, holds after a save the bytes of all
  -- displayed slots that are not deleted, in their order; the profile counts them. The save does
  -- not fail on a document that is valid with its maps in order and whose file can be read.
  pub write_pieces_to_writer-display :
      (d : Document) (w : W)
      → IsWalkable d
      → contents w ≡ []
      → (p : SaveProfile) × (w' : W) × (write_pieces_to_writer write_all flush max_read d w
          ≡ ok (p, w'))
        × (contents w' ≡ present_bytes (display d))
        × (p.bytes_written ≡ length (present_bytes (display d)))
  unfolding write_pieces_to_writer walk_logical_chunks
  write_pieces_to_writer-display d w v h =
      let visit = write_chunk write_all flush max_read in
      let size = walk_chunk_limit max_read chunk in
      let x =
        walk_range-Walked visit size d v (omega arith) Given write_chunk-Given 0 (doc_len d - 1)
          (w, 0) (h, refl) in
      let (w', e, c) = flushes x.state.0 in
      let all : shown_bytes d (take (suc (doc_len d - 1) - 0) (drop 0 (cells d.pieces.pieces)))
          ≡ present_bytes (display d) =
        ap (shown_bytes d) (whole_display d v) in
      (
        profile_of write_all flush max_read x.stats x.state.1,
        w',
        rw (x.done, e),
        c ∙ x.given.0 ∙ all,
        x.given.1 ∙ ap length all,
      )
