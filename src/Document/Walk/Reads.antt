-- ===== src/Document/Walk/Reads.antt =====
-- Reads of chunks, and the documents that the walk is right on.
use mathlib.Core.List.{map-append}
use hxedit.Prelude.{
  Bool-cases, List, [], ap, arith, drop, drop_all, false, get_or, inl, inr, leb, leb→le, length,
  length-drop, length-map, ltb, lt→leb, map, min, refl, suc, sym, take, take-min, take_all, true,
  u64_max, zero, ℕ, ◌++◌, ◌+◌, ◌-◌, ◌<◌, ◌==◌, ◌||◌, ◌∙◌, ◌∷◌, ◌≡◌, ◌≤◌,
}
use hxedit.Outcome.{ok}
use hxedit.Document.Display.{IsReadable, IsValid, base_of, display, read_view-ok, slot}
use hxedit.Cells.{CellId, PieceSource, add, cell, original, run}
use hxedit.CellMap.{is_nil}
use hxedit.PieceTable.View.{cells, length-cells}
use hxedit.PieceTable.Valid.{Within, limit}
use hxedit.ReplacementStore.Cleared.{IsDisjoint}
use hxedit.Document.{ByteSlot, Document, deleted, doc_len, empty, present}
use hxedit.Document.Walk.{raw_range, read_chunk}
use hxedit.Document.Walk.Chunk.{bases, present_bytes, shown_bytes}
use hxedit.Document.Covered.{overlap_cells, overlap_cells-eq}
use hxedit.Document.Overlaps.{display_overlaps}
use hxedit.PieceTable.Range.{collect_cells-slice}
use hxedit.ReplacementStore.SparseOrder.{Sorted}

drop-front : (xs : List ℕ) (a : ℕ) → a < length xs → drop a xs ≡ get_or xs a 0 ∷ drop (suc a) xs
drop-front [] a h = absurd (omega arith)
drop-front (x ∷ xs) zero h = refl
drop-front (x ∷ xs) (suc a) h = drop-front xs a (omega arith)

-- A run of cells that read a list is a slice of it.
pub map-run :
    (f : CellId → ℕ) (xs : List ℕ) (s : PieceSource)
    → ((i : ℕ) → f (cell s i) ≡ get_or xs i 0)
    → (a n : ℕ) → a + n ≤ length xs
    → map f (run s a n) ≡ take n (drop a xs)
unfolding run
map-run f xs s e a zero h = refl
map-run f xs s e a (suc n) h =
    rw (drop-front xs a (omega arith), e a)
      (ap (get_or xs a 0 ∷◌) (
        map-run f xs s e (a + 1) n (omega arith)
        ∙ ap (λ k. take n (drop k xs)) {x = a + 1} {y = suc a} (omega arith)))

pub Within-run-end :
    (o a : ℕ) (s : PieceSource) (i n : ℕ) → Within o a (run s i n) → 0 < n → i + n ≤ limit o a s
unfolding run
Within-run-end o a s i zero h p = absurd (omega arith)
Within-run-end o a s i (suc zero) h p = omega (arith, h.0)
Within-run-end o a s i (suc (suc n)) h p =
    omega (arith, Within-run-end o a s (i + 1) (suc n) h.1 (omega arith))

pub Within-parts :
    (o a : ℕ) (cs ds : List CellId) → Within o a (cs ++ ds) → Within o a cs × Within o a ds
Within-parts o a [] ds h = (tt, h)
Within-parts o a (cell s i ∷ cs) ds h = let p = Within-parts o a cs ds h.1 in ((h.0, p.0), p.1)

-- What the theorems on walks assume of a document: that it is valid, with a store whose maps are in
-- order, that the file can be read, and that the offsets of its sources are below 2^64.
pub record IsWalkable (d : Document) : Type 0 where
  pub valid : IsValid d
  pub file : d.original_len ≡ length d.view
  pub readable : IsReadable d
  pub ranges : IsDisjoint d.replacements
  pub sparse : Sorted 0 d.replacements.sparse
  pub small :
      (s : PieceSource) → limit d.pieces.original_len (length d.pieces.add_buffer) s ≤ u64_max

abbrev pub limit_of : Document → PieceSource → ℕ
limit_of d s = limit d.pieces.original_len (length d.pieces.add_buffer) s

pub read_chunk-bases :
    (d : Document) (s : PieceSource) (a n : ℕ)
    → IsWalkable d
    → 0 < n
    → a + n ≤ limit_of d s
    → read_chunk d s a n ≡ ok (bases d s a n)
unfolding read_chunk raw_range base_of
read_chunk-bases d add a n w p h =
    ap ok (sym (map-run (base_of d) d.pieces.add_buffer add (λ i. refl) a n h))
read_chunk-bases d original a n w p h =
    let at = w.valid.original in
    let whole : min n (d.original_len - a) ≡ n = omega (arith, at, w.file) in
    rw
      (
        lt→leb d.original_len a (omega (arith, at, w.file)),
        whole,
        read_view-ok d a n w.readable (omega (arith, at)),
      )
      (ap ok (sym (map-run (base_of d) d.view original (λ i. refl) a n (omega (arith, at)))))

pub filled_bases :
    (d : Document) (s : PieceSource) (a n : ℕ) → 0 < n → is_nil (bases d s a n) ≡ false
unfolding run
filled_bases d s a zero h = absurd (omega arith)
filled_bases d s a (suc n) h = refl

present_bytes-append :
    (xs ys : List ByteSlot) → present_bytes (xs ++ ys) ≡ present_bytes xs ++ present_bytes ys
unfolding present_bytes
present_bytes-append [] ys = refl
present_bytes-append (present v ∷ xs) ys = ap (v ∷◌) (present_bytes-append xs ys)
present_bytes-append (deleted ∷ xs) ys = present_bytes-append xs ys
present_bytes-append (empty ∷ xs) ys = present_bytes-append xs ys

pub shown_bytes-append :
    (d : Document) (cs ds : List CellId)
    → shown_bytes d (cs ++ ds) ≡ shown_bytes d cs ++ shown_bytes d ds
shown_bytes-append d cs ds =
    ap present_bytes (map-append (slot d) cs ds)
    ∙ present_bytes-append (map (slot d) cs) (map (slot d) ds)

-- The cells in a range that a walk is asked for.
module _ (d : Document) (w : IsWalkable d) where
  abbrev pub shown : List CellId
  shown = cells d.pieces.pieces

  long : length shown ≡ doc_len d
  long = length-cells d.pieces.pieces ∙ w.valid.table.whole.counted

  -- The cells in the range.
  pub in_range-cells :
      (start end : ℕ)
      → start < doc_len d
      → start ≤ end
      → overlap_cells (display_overlaps d start (min end (doc_len d - 1) + 1))
        ≡ take (suc end - start) (drop start shown)
  in_range-cells start end h l =
      let stop_at = min end (doc_len d - 1) + 1 in
      overlap_cells-eq start stop_at 0 d.pieces.pieces
      ∙ collect_cells-slice start stop_at d.pieces.pieces
      ∙ take-min (suc end - start) (stop_at - start) (drop start shown)
          (omega (arith, length-drop start shown, long))

  pub nothing_there :
      (start end : ℕ)
      → (doc_len d == 0 || ltb end start || leb (doc_len d) start) ≡ true
      → take (suc end - start) (drop start shown) ≡ []
  nothing_there start end h = elim (Bool-cases (leb (doc_len d) start)) [
    | inl c ↦
        ap (take (suc end - start)) (drop_all start shown (omega (arith, long, leb→le _ _ c)))
        ∙ take_all (suc end - start) [] (omega arith)
    | inr c ↦
        let empty : suc end - start ≡ 0 = (ground arith) in
        ap (λ n. take n (drop start shown)) empty
  ]

pub length-display : (d : Document) → IsWalkable d → length (display d) ≡ doc_len d
length-display d w =
    length-map (slot d) (cells d.pieces.pieces)
    ∙ length-cells d.pieces.pieces
    ∙ w.valid.table.whole.counted
