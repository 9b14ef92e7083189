-- ===== src/Document/Logical/Remote.antt =====
-- The shortcut of `logical_bytes` for a remote file whose document is not edited.
use hxedit.Prelude.{
  Bool-cases, List, [], ap, arith, drop, false, inl, inr, leb, length, length-map, ltb, map,
  map-drop, map-take, min, refl, suc, sym, take, take_all, true, ℕ, ◌+◌, ◌-◌, ◌<◌, ◌==◌, ◌||◌, ◌∙◌,
  ◌∷◌, ◌≡◌, ◌≤◌,
}
use hxedit.Outcome.{HxResult, ok}
use hxedit.Cells.{CellId, original}
use hxedit.CellMap.{contains, get, is_nil, last_le}
use hxedit.ReplacementStore.{ReplacementStore, no_replacements, range_containing, replacement_at}
use hxedit.PieceTable.View.{cells, length-cells}
use hxedit.PieceTable.Undo.{is_identity_iff}
use hxedit.Document.{Document, doc_len, is_dirty, present}
use hxedit.Document.Display.{base_of, slot}
use hxedit.Document.Walk.Chunk.{present_bytes, shown_bytes}
use hxedit.Document.Walk.Reads.{IsWalkable, map-run}
use hxedit.Document.Logical.{clean_remote_original_range, logical_bytes}
use hxedit.Document.Logical.Counted.{bytes_between, clamped_take, nothing_between, shown-between}
use hxedit.PieceTable
use hxedit.ReplacementStore

nil-eq : {A : Type 0} (xs : List A) → is_nil xs ≡ true → xs ≡ []
nil-eq [] h = refl
nil-eq (x ∷ xs) h = cc

no_replacements-eq :
    (s : ReplacementStore) → ReplacementStore.is_empty s ≡ true → s ≡ no_replacements
no_replacements-eq s h =
    let sparse : s.sparse ≡ [] = nil-eq s.sparse (ground (arith, h)) in
    let ranges : s.ranges ≡ [] = nil-eq s.ranges (ground (arith, h)) in
    λ i. record { sparse = sparse i; ranges = ranges i }

module _ (d : Document) (w : IsWalkable d) (clean : is_dirty d ≡ false) where
  slot-clean : (c : CellId) → slot d c ≡ present (base_of d c)
  unfolding is_dirty slot contains replacement_at get range_containing last_le
  slot-clean c =
      let tombstones : d.tombstones ≡ [] = nil-eq d.tombstones (ground (arith, clean)) in
      let replacements : d.replacements ≡ no_replacements =
        no_replacements-eq d.replacements (ground (arith, clean)) in
      rw (tombstones, replacements) refl

  shown_bytes-clean : (cs : List CellId) → shown_bytes d cs ≡ map (base_of d) cs
  unfolding present_bytes
  shown_bytes-clean [] = refl
  shown_bytes-clean (c ∷ cs) = rw (slot-clean c) (ap (base_of d c ∷◌) (shown_bytes-clean cs))

  cells-clean : map (base_of d) (cells d.pieces.pieces) ≡ d.view
  unfolding is_dirty base_of
  cells-clean =
      let identity : PieceTable.is_identity d.pieces ≡ true = (ground (arith, clean)) in
      let n = d.pieces.original_len in
      ap (map (base_of d)) ((is_identity_iff d.pieces w.valid.table).0 identity)
      ∙ map-run (base_of d) d.view original (λ i. refl) 0 n (omega (arith, w.valid.original))
      ∙ take_all n d.view (omega (arith, w.valid.original))

  bytes_between-clean :
      (start end : ℕ) → bytes_between d start end ≡ take (suc end - start) (drop start d.view)
  bytes_between-clean start end =
      let cs = cells d.pieces.pieces in
      let n = suc end - start in
      sym (shown-between d start end)
      ∙ shown_bytes-clean (take n (drop start cs))
      ∙ map-take (base_of d) n (drop start cs)
      ∙ ap (take n) (map-drop (base_of d) start cs)
      ∙ ap (λ bs. take n (drop start bs)) cells-clean

-- Where the file is remote and the document is not edited, and direct reads within the file return its
-- bytes, `logical_bytes` returns for every range what it returns otherwise: the range's displayed
-- bytes that are not deleted, in their order.
pub logical_bytes-remote :
    (read_remote_direct : ℕ → ℕ → HxResult (List ℕ)) (max_read : ℕ) (d : Document)
    (start end_inclusive : ℕ)
    → IsWalkable d
    → is_dirty d ≡ false
    → ((offset len : ℕ)
        → offset + len ≤ length d.view
        → read_remote_direct offset len ≡ ok (take len (drop offset d.view)))
    → logical_bytes true read_remote_direct max_read d start end_inclusive
      ≡ ok (bytes_between d start end_inclusive)
unfolding logical_bytes clean_remote_original_range
logical_bytes-remote read_remote_direct max_read d start end w clean direct =
    let last = min end (doc_len d - 1) in
    let size : length d.view ≡ doc_len d =
      ap length (sym (cells-clean d w clean))
      ∙ length-map (base_of d) (cells d.pieces.pieces)
      ∙ length-cells d.pieces.pieces
      ∙ w.valid.table.whole.counted in
    elim (Bool-cases (doc_len d == 0 || ltb end start || leb (doc_len d) start)) [
      | inl c ↦ rw (c, nothing_between d start end w c)
      | inr c ↦
          let again : (doc_len d == 0 || ltb last start || leb (doc_len d) start) ≡ false =
            (ground (arith, c)) in
          let first : start < doc_len d = (ground (arith, c)) in
          let order : start ≤ end = (ground (arith, c)) in
          let n : min last (doc_len d - 1) - start + 1 ≡ suc last - start =
            omega (arith, first, order) in
          rw
            (
              c,
              clean,
              again,
              n,
              direct start (suc last - start) (omega (arith, size, first, order)),
            )
            (ap ok (
              sym (bytes_between-clean d w clean start last)
              ∙ ap present_bytes (clamped_take d start end w)))
    ]
