-- ===== src/Document/Logical/Counted.antt =====
-- What `logical_bytes` gathers and `logical_byte_count` counts, against the slots on display.
use hxedit.Prelude.{
  Bool, Bool-cases, List, [], ap, arith, drop, inl, inr, leb, leb→le, leb→lt, length, length-append,
  length-drop, ltb, map-drop, map-take, min, not, refl, suc, sym, take, take_all, true, ℕ, ◌++◌,
  ◌+◌, ◌-◌, ◌==◌, ◌||◌, ◌∙◌, ◌≡◌,
}
use hxedit.Outcome.{HxResult, ok}
use hxedit.PieceTable.View.{cells}
use hxedit.Document.{Document, doc_len, is_dirty}
use hxedit.Document.Display.{display, slot}
use hxedit.Document.Walk.{continue, walk_chunk_limit, walk_logical_chunks}
use hxedit.Document.Walk.Chunk.{present_bytes, shown_bytes}
use hxedit.Document.Walk.Reads.{IsWalkable, length-display, nothing_there}
use hxedit.Document.Walk.Loop.{walk_range-Walked}
use hxedit.Document.Logical.{
  clean_remote_original_range, collect_bytes, count_bytes, logical_byte_count, logical_bytes,
  logical_chunk, walked_bytes,
}

-- The bytes of the slots that a range covers.
abbrev pub bytes_between : Document → ℕ → ℕ → List ℕ
bytes_between d start end_inclusive =
    present_bytes (take (suc end_inclusive - start) (drop start (display d)))

pub shown-between :
    (d : Document) (start end : ℕ)
    → shown_bytes d (take (suc end - start) (drop start (cells d.pieces.pieces)))
      ≡ bytes_between d start end
shown-between d start end = ap present_bytes (
    map-take (slot d) (suc end - start) (drop start (cells d.pieces.pieces))
    ∙ ap (take (suc end - start)) (map-drop (slot d) start (cells d.pieces.pieces)))

pub nothing_between :
    (d : Document) (start end : ℕ)
    → IsWalkable d
    → (doc_len d == 0 || ltb end start || leb (doc_len d) start) ≡ true
    → bytes_between d start end ≡ []
unfolding present_bytes
nothing_between d start end w c =
    sym (shown-between d start end) ∙ ap (shown_bytes d) (nothing_there d w start end c)

count_bytes-Given :
    (bs part : List ℕ) (n : ℕ)
    → n ≡ length bs
    → (n' : ℕ) × (count_bytes part n ≡ ok (continue, n')) × (n' ≡ length (bs ++ part))
unfolding count_bytes
count_bytes-Given bs part n k = (n + length part, refl, omega (arith, k, length-append bs part))

collect_bytes-Given :
    (bs part out : List ℕ)
    → out ≡ bs
    → (out' : List ℕ) × (collect_bytes part out ≡ ok (continue, out')) × (out' ≡ bs ++ part)
unfolding collect_bytes
collect_bytes-Given bs part out k = (out ++ part, refl, ap (λ xs. xs ++ part) k)

pub clamped_take :
    (d : Document) (start end : ℕ)
    → IsWalkable d
    → take (suc (min end (doc_len d - 1)) - start) (drop start (display d))
      ≡ take (suc end - start) (drop start (display d))
clamped_take d start end w =
    let xs = drop start (display d) in
    let size = length-drop start (display d) in
    let long = length-display d w in
    elim (Bool-cases (leb end (doc_len d - 1))) [
      | inl c ↦ ap (λ k. take (suc k - start) xs) (omega (arith, leb→le _ _ c))
      | inr c ↦
          take_all (suc (min end (doc_len d - 1)) - start) xs
            (omega (arith, size, long, leb→lt _ _ c))
          ∙ sym (take_all (suc end - start) xs (omega (arith, size, long, leb→lt _ _ c)))
    ]

-- On a document that is valid with its maps in order and whose file can be read, `logical_byte_count`
-- succeeds for every range:
-- it returns the number of the range's displayed bytes that are not deleted.
pub logical_byte_count-display :
    (max_read : ℕ) (d : Document) (start end_inclusive : ℕ)
    → IsWalkable d
    → logical_byte_count max_read d start end_inclusive
      ≡ ok (length (bytes_between d start end_inclusive))
unfolding logical_byte_count walk_logical_chunks
logical_byte_count-display max_read d start end w =
    elim (Bool-cases (doc_len d == 0 || ltb end start || leb (doc_len d) start)) [
      | inl c ↦ rw (c, nothing_between d start end w c)
      | inr c ↦
          let x =
            walk_range-Walked count_bytes (walk_chunk_limit max_read logical_chunk) d w
              (omega arith) (λ bs n. n ≡ length bs) count_bytes-Given start end 0 refl in
          rw (c, x.done) (ap ok (x.given ∙ ap length (shown-between d start end)))
    ]

-- On a document that is valid with its maps in order and whose file can be read, `logical_bytes`
-- succeeds for every range, where
-- the file is not remote or the document is edited: it returns the range's displayed bytes that are
-- not deleted, in their order.
pub logical_bytes-display :
    (is_remote : Bool) (read_remote_direct : ℕ → ℕ → HxResult (List ℕ)) (max_read : ℕ)
    (d : Document) (start end_inclusive : ℕ)
    → IsWalkable d
    → (not is_remote || is_dirty d) ≡ true
    → logical_bytes is_remote read_remote_direct max_read d start end_inclusive
      ≡ ok (bytes_between d start end_inclusive)
unfolding logical_bytes clean_remote_original_range walked_bytes walk_logical_chunks
logical_bytes-display is_remote read_remote_direct max_read d start end w walked =
    elim (Bool-cases (doc_len d == 0 || ltb end start || leb (doc_len d) start)) [
      | inl c ↦ rw (c, nothing_between d start end w c)
      | inr c ↦
          let last = min end (doc_len d - 1) in
          let x =
            walk_range-Walked collect_bytes (walk_chunk_limit max_read logical_chunk) d w
              (omega arith) (λ bs out. out ≡ bs) collect_bytes-Given start last [] refl in
          rw (c, walked, x.done)
            (ap ok (
              x.given ∙ shown-between d start last ∙ ap present_bytes (clamped_take d start end w)))
    ]
