-- ===== src/Edit/Layout.antt =====
-- Undoing and redoing an insertion.
use hxedit.Prelude.{
  List, [], ap, arith, drop, drop-append, drop_all, drop_of_append, false, length, length-take, map,
  refl, subst, suc, sym, take, take-append, take-append-drop, u64_mod, ℕ, ◌++◌, ◌+◌, ◌<◌, ◌∙◌, ◌∷◌,
  ◌≡◌, ◌≤◌,
}
use hxedit.Outcome.{HxResult, ok}
use hxedit.Cells.{CellId, add, run}
use hxedit.Document.Byte.{insert_bytes, restore_real_delete}
use hxedit.PieceTable.{PieceTable, new}
use hxedit.PieceTable.View.{cells, length-cells, length-run}
use hxedit.PieceTable.Insert.{insert_bytes_lem as insert_table_lem}
use hxedit.Document.{Document, doc_len, present}
use hxedit.Document.Display.{IsValid, display, slot}
use hxedit.Document.Spliced.{
  display-delete_range_real, display-insert_bytes, insert_bytes-pieces, with_pieces,
}
use hxedit.Document.Restored.{restore_real_delete-delete_range_real}
use hxedit.Edit.{apply_edit_op, insert_op, undo_edit_op}
use hxedit.PieceTable

module _ {A : Type 0} where
  -- Taking out what was put in.
  without_middle :
      (off n : ℕ) (new xs : List A)
      → off ≤ length xs
      → n ≡ length new
      → take off (take off xs ++ (new ++ drop off xs))
          ++ drop (off + n) (take off xs ++ (new ++ drop off xs))
        ≡ xs
  without_middle off n new xs h e =
      let front : off ≡ length (take off xs) = omega (arith, length-take off xs) in
      let back : drop (off + n) (take off xs ++ (new ++ drop off xs)) ≡ drop off xs =
        drop_of_append (take off xs) (new ++ drop off xs) (off + n) n (omega (arith, front))
        ∙ ap (λ r. r ++ drop n (new ++ drop off xs))
            (drop_all (off + n) (take off xs) (omega (arith, front)))
        ∙ drop-append new (drop off xs) n e in
      ap (λ r. r ++ drop (off + n) (take off xs ++ (new ++ drop off xs)))
        (take-append (take off xs) (new ++ drop off xs) off front)
      ∙ ap (take off xs ++◌) back
      ∙ take-append-drop off xs

  middle_of :
      (off n : ℕ) (new xs : List A)
      → off ≤ length xs
      → n ≡ length new
      → take n (drop off (take off xs ++ (new ++ drop off xs))) ≡ new
  middle_of off n new xs h e =
      ap (take n)
        (drop-append (take off xs) (new ++ drop off xs) off (omega (arith, length-take off xs)))
      ∙ take-append new (drop off xs) n e

  cut_back :
      (off n : ℕ) (new xs ys : List A)
      → off ≤ length xs
      → n ≡ length new
      → ys ≡ take off xs ++ (new ++ drop off xs)
      → take off ys ++ drop (off + n) ys ≡ xs
  cut_back off n new xs ys h e q =
      ap (λ zs. take off zs ++ drop (off + n) zs) q ∙ without_middle off n new xs h e

length-map : {A B : Type 0} (f : A → B) (xs : List A) → length (map f xs) ≡ length xs
length-map f [] = refl
length-map f (x ∷ xs) = ap suc (length-map f xs)

length-display : (d : Document) → IsValid d → length (display d) ≡ doc_len d
length-display d v =
    length-map (slot d) (cells d.pieces.pieces)
    ∙ length-cells d.pieces.pieces
    ∙ v.table.whole.counted

-- On a valid document that may change its size, with room for the bytes, undoing the operation that
-- records an insertion shows the document as it was before the insertion, and applying the operation
-- again shows it as it was behind the insertion.
pub undo_edit_op-insert_bytes :
    (off : ℕ) (bs : List ℕ) (d : Document)
    → IsValid d
    → d.readonly ≡ false
    → d.fixed_size ≡ false
    → off ≤ doc_len d
    → 0 < length bs
    → doc_len d + length bs < u64_mod
    → let ids = run add (length d.pieces.add_buffer) (length bs) in
      (d1 : Document) × (d2 : Document) × (d3 : Document) × (insert_bytes off bs d ≡ ok (ids, d1))
      × (undo_edit_op (insert_op off ids) d1 ≡ ok d2)
      × (display d2 ≡ display d)
      × (apply_edit_op (insert_op off ids) d2 ≡ ok d3)
      × (display d3 ≡ display d1)
unfolding apply_edit_op undo_edit_op
undo_edit_op-insert_bytes off bs d v r f h some_bytes room =
    let ids = run add (length d.pieces.add_buffer) (length bs) in
    let t = PieceTable.insert_bytes off bs d.pieces in
    let (d1, e1, disp1, v1) = display-insert_bytes off bs d v r f h some_bytes room in
    let (i, added) = insert_table_lem off bs d.pieces v.table room in
    let counted : length ids ≡ length bs =
      length-run add (length d.pieces.add_buffer) (length bs) in
    let whole : ◌≡◌ {A = HxResult (List CellId × Document)} (ok (ids, d1))
        (ok (ids, with_pieces t d)) =
      sym e1 ∙ insert_bytes-pieces off bs d r f h some_bytes in
    let q : d1 ≡ with_pieces t d = (cc) in
    let inside : off < doc_len d1 =
      omega (arith, ap (λ (x : Document). x.pieces.len) q, i.longer, counted) in
    let long : length (cells d.pieces.pieces) ≡ doc_len d =
      length-cells d.pieces.pieces ∙ v.table.whole.counted in
    let (d2, e2, disp2, v2) =
      display-delete_range_real off (length ids) d1 v1 (ap (λ (x : Document). x.readonly) q ∙ r)
        (ap (λ (x : Document). x.fixed_size) q ∙ f) (omega arith) inside in
    let taken : take (length ids) (drop off (cells d1.pieces.pieces)) ≡ ids =
      ap (λ (x : Document). take (length ids) (drop off (cells x.pieces.pieces))) q
      ∙ ap (λ cs. take (length ids) (drop off cs)) i.shows
      ∙ middle_of off (length ids) ids (cells d.pieces.pieces) (omega arith) refl in
    let (d3, e3, disp3, same, clean) =
      restore_real_delete-delete_range_real off (length ids) d1 d2
        (take (length ids) (drop off (cells d1.pieces.pieces))) v1 inside e2 in
    let shown : display d2 ≡ display d = ◌∙◌ {a = display d2} disp2 (
      cut_back off (length ids) (map present bs) (display d) (display d1)
        (omega (arith, length-display d v)) (counted ∙ sym (length-map present bs)) disp1) in
    (
      d1,
      d2,
      d3,
      e1,
      rw e2,
      shown,
      subst (λ cs. restore_real_delete off cs d2 ≡ ok d3) taken e3,
      disp3,
    )
