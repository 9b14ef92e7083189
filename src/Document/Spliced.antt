-- ===== src/Document/Spliced.antt =====
-- Insertion and real deletion splice and cut the slots on display, and undo one another.
use hxedit.Prelude.{
  List, [], ap, append-nil, append_assoc, arith, drop, false, get_or, length, length-append, le→ltb,
  lt→leb, map, map-drop, map-take, refl, suc, sym, take, u64_mod, zero, ℕ, ≢→==, ◌++◌, ◌+◌, ◌<◌,
  ◌∙◌, ◌∷◌, ◌≡◌, ◌≤◌,
}
use hxedit.Document.Display.{IsValid, base_of, display, slot}
use hxedit.Document.{ByteSlot, Document, doc_len, present}
use hxedit.Document.Byte.{delete_range_real, insert_bytes}
use hxedit.Outcome.{ok}
use hxedit.Cells.{CellId, add, cell, original, run}
use hxedit.CellMap.{is_nil}
use hxedit.PieceTable.{PieceTable, new}
use hxedit.PieceTable.View.{cells}
use hxedit.PieceTable.Valid.{
  Within, Within-append, Within-drop, Within-take, IsValid as IsValidTable,
}
use hxedit.PieceTable.Insert.{spliced, insert_bytes_lem as insert_table_lem}
use hxedit.PieceTable.Delete.{without, delete_range_real_lem as delete_table_lem}
use mathlib.Core.List.{map-append}
use mathlib.Core.Path.{ap₂}
use hxedit.PieceTable

-- The layers other than the table.
pub record SameLayers (d d' : Document) : Type 0 where
  pub same_view : d'.view ≡ d.view
  pub same_tombstones : d'.tombstones ≡ d.tombstones
  pub same_replacements : d'.replacements ≡ d.replacements

abbrev pub with_pieces : PieceTable → Document → Document
with_pieces t d = record d { pieces = t }

get_or-append : (xs ys : List ℕ) (i : ℕ) → i < length xs → get_or (xs ++ ys) i 0 ≡ get_or xs i 0
get_or-append [] ys i h = absurd (omega arith)
get_or-append (x ∷ xs) ys zero h = refl
get_or-append (x ∷ xs) ys (suc i) h = get_or-append xs ys i (omega arith)

get_or-middle : (xs ys : List ℕ) (y i : ℕ) → i ≡ length xs → get_or (xs ++ (y ∷ ys)) i 0 ≡ y
get_or-middle [] ys y zero h = refl
get_or-middle [] ys y (suc i) h = absurd (omega arith)
get_or-middle (x ∷ xs) ys y zero h = absurd (omega arith)
get_or-middle (x ∷ xs) ys y (suc i) h = get_or-middle xs ys y i (omega arith)

-- A longer add-buffer shows the old cells alike.
base_of-longer :
    (t : PieceTable) (bs : List ℕ) (o : ℕ) (d : Document) (id : CellId)
    → t.add_buffer ≡ d.pieces.add_buffer ++ bs
    → Within o (length d.pieces.add_buffer) (id ∷ [])
    → base_of (with_pieces t d) id ≡ base_of d id
unfolding base_of
base_of-longer t bs o d (cell original i) e h = refl
base_of-longer t bs o d (cell add i) e h =
    ap (λ b. get_or b i 0) e ∙ get_or-append d.pieces.add_buffer bs i h.0

slot-longer :
    (t : PieceTable) (bs : List ℕ) (o : ℕ) (d : Document) (id : CellId)
    → t.add_buffer ≡ d.pieces.add_buffer ++ bs
    → Within o (length d.pieces.add_buffer) (id ∷ [])
    → slot (with_pieces t d) id ≡ slot d id
unfolding slot
slot-longer t bs o d id e h = rw (base_of-longer t bs o d id e h)

slots-longer :
    (t : PieceTable) (bs : List ℕ) (o : ℕ) (d : Document) (cs : List CellId)
    → t.add_buffer ≡ d.pieces.add_buffer ++ bs
    → Within o (length d.pieces.add_buffer) cs
    → map (slot (with_pieces t d)) cs ≡ map (slot d) cs
slots-longer t bs o d [] e h = refl
slots-longer t bs o d (cell s i ∷ cs) e h =
    ap₂ ◌∷◌ (slot-longer t bs o d (cell s i) e (h.0, tt)) (slots-longer t bs o d cs e h.1)

-- The fresh cells show the inserted bytes.
slots-added :
    (t : PieceTable) (d : Document) (bs pre : List ℕ) (k : ℕ)
    → IsValid d
    → t.add_buffer ≡ pre ++ bs
    → k ≡ length pre
    → length d.pieces.add_buffer ≤ k
    → map (slot (with_pieces t d)) (run add k (length bs)) ≡ map present bs
unfolding slot base_of run
slots-added t d [] pre k v e f h = refl
slots-added t d (b ∷ bs) pre k v e f h =
    let stored : get_or t.add_buffer k 0 ≡ b =
      ap (λ x. get_or x k 0) e ∙ get_or-middle pre bs b k f in
    ap₂ ◌∷◌
      (rw (v.fresh_tombstones k h, v.fresh_replacements k (get_or t.add_buffer k 0) h, stored))
      (slots-added t d bs (pre ++ (b ∷ [])) (k + 1) v (e ∙ sym (append_assoc pre (b ∷ []) bs))
        (omega (arith, length-append pre (b ∷ []))) (omega arith))

abbrev pub spliced_slots : ℕ → List ByteSlot → List ByteSlot → List ByteSlot
spliced_slots off new shown = take off shown ++ (new ++ drop off shown)

map-spliced :
    (f : CellId → ByteSlot) (off : ℕ) (new cs : List CellId)
    → map f (spliced off new cs) ≡ spliced_slots off (map f new) (map f cs)
map-spliced f off new cs =
    map-append f (take off cs) (new ++ drop off cs)
    ∙ ap₂ ◌++◌ (map-take f off cs)
        (map-append f new (drop off cs) ∙ ap (map f new ++◌) (map-drop f off cs))

not_empty : (bs : List ℕ) → 0 < length bs → is_nil bs ≡ false
not_empty [] h = absurd (omega arith)
not_empty (b ∷ bs) h = refl

-- On a valid document that may change its size, inserting bytes within it succeeds, and shows the
-- bytes at the offset, between what was before it and what was behind it.
pub display-insert_bytes :
    (off : ℕ) (bs : List ℕ) (d : Document)
    → IsValid d
    → d.readonly ≡ false
    → d.fixed_size ≡ false
    → off ≤ doc_len d
    → 0 < length bs
    → doc_len d + length bs < u64_mod
    → (d' : Document) × (insert_bytes off bs d
        ≡ ok (run add (length d.pieces.add_buffer) (length bs), d'))
      × (display d' ≡ spliced_slots off (map present bs) (display d))
      × IsValid d'
display-insert_bytes off bs d v r f h some_bytes room =
    let t = PieceTable.insert_bytes off bs d.pieces in
    let (i, added) = insert_table_lem off bs d.pieces v.table room in
    let more : length d.pieces.add_buffer ≤ length t.add_buffer =
      omega (arith, ap length added, length-append d.pieces.add_buffer bs) in
    (
      with_pieces t d,
      unfold insert_bytes in rw (le→ltb (doc_len d) off h, not_empty bs some_bytes, r, f),
      ap (map (slot (with_pieces t d))) i.shows
          ∙ map-spliced (slot (with_pieces t d)) off
              (run add (length d.pieces.add_buffer) (length bs)) (cells d.pieces.pieces)
          ∙ ap₂ (spliced_slots off)
              (slots-added t d bs d.pieces.add_buffer (length d.pieces.add_buffer) v added refl
                (omega arith))
              (slots-longer t bs d.pieces.original_len d (cells d.pieces.pieces) added
                v.table.within),
      record {
        table = i.valid;
        original = i.same_original ∙ v.original;
        fresh_tombstones = λ a k. v.fresh_tombstones a (omega (arith, k, more));
        fresh_replacements = λ a b k. v.fresh_replacements a b (omega (arith, k, more));
      },
    )

pub same_slots :
    (t : PieceTable) (d : Document) (cs : List CellId)
    → IsValid d
    → t.add_buffer ≡ d.pieces.add_buffer
    → Within d.pieces.original_len (length d.pieces.add_buffer) cs
    → map (slot (with_pieces t d)) cs ≡ map (slot d) cs
same_slots t d cs v e h =
    slots-longer t [] d.pieces.original_len d cs (e ∙ sym (append-nil d.pieces.add_buffer)) h

same_buffer-IsValid :
    (t : PieceTable) (d : Document)
    → IsValid d
    → IsValidTable t
    → t.add_buffer ≡ d.pieces.add_buffer
    → t.original_len ≡ d.pieces.original_len
    → IsValid (with_pieces t d)
same_buffer-IsValid t d v w e o = record {
  table = w;
  original = o ∙ v.original;
  fresh_tombstones = λ a k. v.fresh_tombstones a (omega (arith, k, ap length e));
  fresh_replacements = λ a b k. v.fresh_replacements a b (omega (arith, k, ap length e));
}

map-without :
    (f : CellId → ByteSlot) (off end : ℕ) (cs : List CellId)
    → map f (without off end cs) ≡ take off (map f cs) ++ drop end (map f cs)
map-without f off end cs =
    map-append f (take off cs) (drop end cs) ∙ ap₂ ◌++◌ (map-take f off cs) (map-drop f end cs)

Within-without :
    (o a off end : ℕ) (cs : List CellId) → Within o a cs → Within o a (without off end cs)
Within-without o a off end cs h =
    Within-append o a (take off cs) (drop end cs) (Within-take o a off cs h)
      (Within-drop o a end cs h)

-- On a valid document that may change its size, deleting for real from an offset within it succeeds,
-- returns the cells on display there, at most as many as asked for, and shows the rest.
pub display-delete_range_real :
    (off n : ℕ) (d : Document)
    → IsValid d
    → d.readonly ≡ false
    → d.fixed_size ≡ false
    → 0 < n
    → off < doc_len d
    → (d' : Document) × (delete_range_real off n d
        ≡ ok (take n (drop off (cells d.pieces.pieces)), d'))
      × (display d' ≡ take off (display d) ++ drop (off + n) (display d))
      × IsValid d'
display-delete_range_real off n d v r f asked h =
    let del = PieceTable.delete_range_real off n d.pieces in
    let m = delete_table_lem off n d.pieces v.table in
    let cs = cells d.pieces.pieces in
    (
      with_pieces del.1 d,
      unfold delete_range_real in
          rw (≢→== n 0 (omega arith), lt→leb (doc_len d) off h, m.removed, r, f),
      ap (map (slot (with_pieces del.1 d))) m.shows
          ∙ same_slots del.1 d (without off (off + n) cs) v m.same_add
              (Within-without _ _ off (off + n) cs v.table.within)
          ∙ map-without (slot d) off (off + n) cs,
      same_buffer-IsValid del.1 d v m.valid m.same_add m.same_original,
    )

-- `insert_bytes` leaves the other layers and the flags alone.
pub insert_bytes-pieces :
    (off : ℕ) (bs : List ℕ) (d : Document)
    → d.readonly ≡ false
    → d.fixed_size ≡ false
    → off ≤ doc_len d
    → 0 < length bs
    → insert_bytes off bs d
      ≡ ok (
        run add (length d.pieces.add_buffer) (length bs),
        with_pieces (PieceTable.insert_bytes off bs d.pieces) d,
      )
insert_bytes-pieces off bs d r f h some_bytes =
    unfold insert_bytes in rw (le→ltb (doc_len d) off h, not_empty bs some_bytes, r, f)
