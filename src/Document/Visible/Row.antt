-- ===== src/Document/Visible/Row.antt =====
-- What `row_bytes` and `read_logical_range` read, against the slots on display.
use hxedit.Prelude.{
  Bool-cases, List, [], ap, arith, drop, drop_all, false, if◌then◌else◌, inl, inr, leb, leb→le,
  leb→lt, length, length-drop, length-map, map, map-drop, max, min, refl, suc, sym, take, take_all,
  true, u64_max, u64_mod, zero, ℕ, ≢→==, ◌%◌, ◌+◌, ◌-◌, ◌<◌, ◌∙◌, ◌∷◌, ◌≡◌, ◌≤◌,
}
use hxedit.Outcome.{ok}
use hxedit.PieceTable.View.{cells, length-cells}
use hxedit.Document.{ByteSlot, Document, deleted, doc_len, empty, present}
use hxedit.Document.Display.{display, slot}
use hxedit.Document.Walk.{walk_chunk_limit}
use hxedit.Document.Walk.Reads.{IsWalkable, length-display}
use hxedit.Document.Visible.{
  VisibleCell, byte_or_zero, cell_slot, read_logical_range, resize, row_bytes, walk_visible_cells,
}
use hxedit.Document.Visible.Collected.{walk_cell_range-Rowed}

map_id : {A : Type 0} (xs : List A) → map (λ x. x) xs ≡ xs
map_id [] = refl
map_id (x ∷ xs) = ap (x ∷◌) (map_id xs)

-- What is cut off is not looked at.
resize-take :
    (width n : ℕ) (xs : List ByteSlot)
    → min width (length xs) ≤ n
    → resize width (take n xs) ≡ resize width xs
unfolding resize
resize-take zero n xs h = refl
resize-take (suc width) zero [] h = refl
resize-take (suc width) (suc n) [] h = refl
resize-take (suc width) zero (x ∷ xs) h = absurd (omega arith)
resize-take (suc width) (suc n) (x ∷ xs) h = ap (x ∷◌) (resize-take width n xs (omega arith))

-- On a document that is valid with its maps in order and whose file can be read, `row_bytes` succeeds
-- at every offset and width whose sum is below 2^64: it returns the slots on display from the offset on, as many as the width, with empty ones
-- behind the end of the document.
pub row_bytes-display :
    (max_read : ℕ) (d : Document) (offset width : ℕ)
    → IsWalkable d
    → offset + width < u64_mod
    → row_bytes max_read d offset width ≡ ok (resize width (drop offset (display d)))
unfolding row_bytes walk_visible_cells
row_bytes-display max_read d offset zero w room = unfold resize in refl
row_bytes-display max_read d offset (suc n) w room =
    let width = suc n in
    let cs = cells d.pieces.pieces in
    let long : length cs ≡ doc_len d = length-cells d.pieces.pieces ∙ w.valid.table.whole.counted in
    elim (Bool-cases (leb (doc_len d) offset)) [
      | inl c ↦
          let nothing_left : drop offset (display d) ≡ [] =
            sym (map-drop (slot d) offset cs)
            ∙ ap (map (slot d)) (drop_all offset cs (omega (arith, long, leb→le _ _ c))) in
          rw (≢→== (suc n) 0 (λ e. absurd (omega arith)), c, nothing_left)
      | inr c ↦
          let end = min (offset + width) (doc_len d) in
          let plain : (offset + width) % u64_mod ≡ offset + width = omega (arith, room) in
          let before : (end + u64_max) % u64_mod ≡ end - 1 = omega (arith, room, leb→lt _ _ c) in
          let row =
            walk_cell_range-Rowed cell_slot (λ x. x) (λ c. refl)
              (walk_chunk_limit max_read (max width 1)) d w (omega arith) offset (end - 1) in
          let size : length (drop offset (display d)) ≡ doc_len d - offset =
            ap length (sym (map-drop (slot d) offset cs))
            ∙ length-map (slot d) (drop offset cs)
            ∙ length-drop offset cs
            ∙ ap (λ k. k - offset) long in
          rw (≢→== (suc n) 0 (λ e. absurd (omega arith)), c, plain, before, row.done)
            (ap (λ xs. ok (resize width xs))
                (map_id (take (suc (end - 1) - offset) (drop offset (display d))))
              ∙ ap ok (
                  resize-take width (suc (end - 1) - offset) (drop offset (display d))
                    (omega (arith, size, leb→lt _ _ c))))
    ]

take_clamped : {A : Type 0} (n k : ℕ) (xs : List A) → min n (length xs) ≡ k → take k xs ≡ take n xs
take_clamped n k xs e = elim (Bool-cases (leb n (length xs))) [
  | inl c ↦ ap (λ j. take j xs) (omega (arith, leb→le _ _ c, e))
  | inr c ↦
      take_all k xs (omega (arith, leb→lt _ _ c, e))
      ∙ sym (take_all n xs (omega (arith, leb→lt _ _ c)))
]

abbrev pub slot_or_zero : ByteSlot → ℕ
slot_or_zero (present b) = b
slot_or_zero deleted = 0
slot_or_zero empty = 0

byte_or_zero-cell_slot : (c : VisibleCell) → byte_or_zero c ≡ slot_or_zero (cell_slot c)
byte_or_zero-cell_slot c =
    elim c.deleted
      as (λ b. (if b then 0 else c.byte) ≡ slot_or_zero (if b then deleted else present c.byte)) [
        | true ↦ refl
        | false ↦ refl
      ]

-- On a document that is valid with its maps in order and whose file can be read, `read_logical_range`
-- succeeds at every offset and length whose sum is below 2^64: it returns the bytes of the slots on display from the offset on, with zeros for
-- the deleted ones, as many as the length or as there are.
pub read_logical_range-display :
    (max_read : ℕ) (d : Document) (offset len : ℕ)
    → IsWalkable d
    → offset + len < u64_mod
    → read_logical_range max_read d offset len
      ≡ ok (map slot_or_zero (take len (drop offset (display d))))
unfolding read_logical_range walk_visible_cells
read_logical_range-display max_read d offset zero w room = refl
read_logical_range-display max_read d offset (suc n) w room =
    let len = suc n in
    let cs = cells d.pieces.pieces in
    let xs = drop offset (display d) in
    let size : length xs ≡ doc_len d - offset =
      length-drop offset (display d) ∙ ap (λ k. k - offset) (length-display d w) in
    elim (Bool-cases (leb (doc_len d) offset)) [
      | inl c ↦
          let nothing_left : xs ≡ [] =
            drop_all offset (display d) (omega (arith, length-display d w, leb→le _ _ c)) in
          rw (≢→== (suc n) 0 (λ e. absurd (omega arith)), c, nothing_left) refl
      | inr c ↦
          let last = min (offset + len) (doc_len d) - 1 in
          let plain : (offset + len) % u64_mod ≡ offset + len = omega (arith, room) in
          let read =
            walk_cell_range-Rowed byte_or_zero slot_or_zero byte_or_zero-cell_slot
              (walk_chunk_limit max_read max_read) d w (omega arith) offset last in
          rw (≢→== (suc n) 0 (λ e. absurd (omega arith)), c, plain, read.done)
            (ap (λ ys. ok (map slot_or_zero ys))
              (take_clamped len (suc last - offset) xs (omega (arith, size, leb→lt _ _ c))))
    ]
