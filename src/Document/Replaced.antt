-- ===== src/Document/Replaced.antt =====
-- Replacing a byte and marking a tombstone change one cell and nothing else.
use hxedit.Prelude.{
  Bool-cases, [], ap, arith, false, get_elem?, if◌then◌else◌, inl, inr, length, none, refl, some,
  sym, true, ℕ, ≢→==, ◌==◌, ◌∙◌, ◌∷◌, ◌≡◌, ◌≤◌,
}
use hxedit.Document.Display.{
  IsReadable, IsValid, Within-get_elem?, base_byte-ok, base_of, cell_id_at_lem,
  display_byte_for_id-ok, slot,
}
use hxedit.Document.{
  ByteSlot, Document, deleted, display_byte_for_edit, is_tombstone, or_base, present,
  set_display_byte_by_id,
}
use hxedit.Document.Byte.{clear_tombstones, mark_tombstone, remove_all, replace_display_byte}
use hxedit.Outcome.{ok}
use hxedit.Cells.{CellId, add, cell, original}
use hxedit.CellMap.{cell_eq, contains, set_insert, set_remove}
use hxedit.CellMap.Laws.{cell_eq→≡, contains-set_insert, contains-set_remove}
use hxedit.PieceTable.View.{cells}
use hxedit.PieceTable.Valid.{Within}
use hxedit.ReplacementStore.{clear_cell, replacement_at, set_cell}
use hxedit.ReplacementStore.Cells.{replacement_at-clear_cell, replacement_at-set_cell}

-- `d'` differs from `d` in what the cell `id` shows, and that is `s`.
pub record Shows (id : CellId) (s : ByteSlot) (d d' : Document) : Type 0 where
  pub slots : (j : CellId) → slot d' j ≡ (if cell_eq id j then s else slot d j)
  pub same_pieces : d'.pieces ≡ d.pieces
  pub same_view : d'.view ≡ d.view
  pub valid : IsValid d'

abbrev with_value : CellId → ℕ → ℕ → Document → Document
with_value id base v d = record d {
  replacements = if v == base then clear_cell id d.replacements else set_cell id v d.replacements;
}

-- The value shown is the new one, whether it is stored or equals the base byte.
shown_value :
    (id j : CellId) (base v b : ℕ) (d : Document)
    → (cell_eq id j ≡ true → b ≡ base)
    → or_base (replacement_at (with_value id base v d).replacements j b) b
      ≡ (if cell_eq id j then v else or_base (replacement_at d.replacements j b) b)
shown_value id j base v b d h = elim (Bool-cases (v == base)) [
  | inl e ↦ rw (e, replacement_at-clear_cell id j b d.replacements) (ground (arith, h))
  | inr e ↦ rw (e, replacement_at-set_cell id j v b d.replacements) (ground arith)
]

slot-with_value :
    (id j : CellId) (v : ℕ) (d : Document)
    → is_tombstone d id ≡ false
    → slot (with_value id (base_of d id) v d) j ≡ (if cell_eq id j then present v else slot d j)
unfolding slot base_of
slot-with_value id j v d t = elim (Bool-cases (is_tombstone d j)) [
  | inl u ↦ rw (u, differs u)
  | inr u ↦
      rw
        (
          u,
          shown_value id j (base_of d id) v (base_of d j) d
              (λ e. ap (base_of d) (sym (cell_eq→≡ id j e))),
        )
        (ground arith)
]
  where
    differs : is_tombstone d j ≡ true → cell_eq id j ≡ false
    differs u = elim (Bool-cases (cell_eq id j)) [
      | inl e ↦ cc (ap (is_tombstone d) (cell_eq→≡ id j e))
      | inr e ↦ e
    ]

-- A cell of the table is none that will be added.
not_fresh :
    (o n a : ℕ) (id : CellId) → Within o n (id ∷ []) → n ≤ a → cell_eq id (cell add a) ≡ false
not_fresh o n a (cell original i) h k = refl
not_fresh o n a (cell add i) h k = ≢→== i a (omega (arith, h.0))

with_value-fresh :
    (id : CellId) (base v : ℕ) (d : Document)
    → IsValid d
    → Within d.pieces.original_len (length d.pieces.add_buffer) (id ∷ [])
    → (a b : ℕ) → length d.pieces.add_buffer ≤ a
    → replacement_at (with_value id base v d).replacements (cell add a) b ≡ none
with_value-fresh id base v d w h a b k =
    let other = not_fresh _ _ a id h k in
    elim (Bool-cases (v == base)) [
      | inl e ↦
          rw (e, replacement_at-clear_cell id (cell add a) b d.replacements, other)
            (w.fresh_replacements a b k)
      | inr e ↦
          rw (e, replacement_at-set_cell id (cell add a) v b d.replacements, other)
            (w.fresh_replacements a b k)
    ]

with_value-Shows :
    (id : CellId) (v : ℕ) (d : Document)
    → IsValid d
    → is_tombstone d id ≡ false
    → Within d.pieces.original_len (length d.pieces.add_buffer) (id ∷ [])
    → Shows id (present v) d (with_value id (base_of d id) v d)
with_value-Shows id v d w t h = record {
  slots = λ j. slot-with_value id j v d t;
  same_pieces = refl;
  same_view = refl;
  valid = record {
    table = w.table;
    original = w.original;
    fresh_tombstones = w.fresh_tombstones;
    fresh_replacements = with_value-fresh id (base_of d id) v d w h;
  };
}

-- On a valid writable document whose file can be read, writing a byte at an offset that shows a cell which is no tombstone
-- succeeds; the cell then shows the byte, whatever replaced it before, every other cell shows what
-- it did, and the layout is the same.
pub replace_display_byte_lem :
    (off v : ℕ) (d : Document) (id : CellId)
    → IsValid d
    → IsReadable d
    → d.readonly ≡ false
    → get_elem? (cells d.pieces.pieces) off ≡ some id
    → is_tombstone d id ≡ false
    → (d' : Document) × (replace_display_byte off v d ≡ ok (id, d')) × Shows id (present v) d d'
unfolding replace_display_byte display_byte_for_edit set_display_byte_by_id
replace_display_byte_lem off v d id w readable r e t =
    let h = Within-get_elem? _ _ (cells d.pieces.pieces) off id w.table.within e in
    (
      with_value id (base_of d id) v d,
      rw (
        cell_id_at_lem d off w,
        e,
        t,
        display_byte_for_id-ok d id w.original readable h,
        base_byte-ok d id w.original readable h,
        r,
      ),
      with_value-Shows id v d w t h,
    )

abbrev marked : CellId → Document → Document
marked id d = record d { tombstones = set_insert id d.tombstones }

slot-marked :
    (id j : CellId) (d : Document)
    → slot (marked id d) j ≡ (if cell_eq id j then deleted else slot d j)
unfolding slot base_of
slot-marked id j d = rw (contains-set_insert id j d.tombstones) (ground arith)

-- On a valid document of free size, deleting an offset that shows a cell which is no tombstone
-- leaves that cell deleted and every other as it was, in the same layout; clearing the returned
-- tombstone shows every cell as before.
pub mark_tombstone_lem :
    (off : ℕ) (d : Document) (id : CellId)
    → IsValid d
    → d.readonly ≡ false
    → d.fixed_size ≡ false
    → get_elem? (cells d.pieces.pieces) off ≡ some id
    → is_tombstone d id ≡ false
    → (d' : Document) × (mark_tombstone off d ≡ ok (some id, d'))
      × Shows id deleted d d'
      × ((j : CellId) → slot (clear_tombstones (id ∷ []) d') j ≡ slot d j)
unfolding mark_tombstone
mark_tombstone_lem off d id w r f e t =
    let h = Within-get_elem? _ _ (cells d.pieces.pieces) off id w.table.within e in
    (
      marked id d,
      rw (cell_id_at_lem d off w, e, t, r, f),
      record {
        slots = λ j. slot-marked id j d;
        same_pieces = refl;
        same_view = refl;
        valid = record {
          table = w.table;
          original = w.original;
          fresh_tombstones = λ a k.
              rw (contains-set_insert id (cell add a) d.tombstones, not_fresh _ _ a id h k)
                (w.fresh_tombstones a k);
          fresh_replacements = w.fresh_replacements;
        };
      },
      λ j. cleared j,
    )
  where
    restored :
        (j : CellId)
        → contains j (set_remove id (set_insert id d.tombstones)) ≡ contains j d.tombstones
    restored j = elim (Bool-cases (cell_eq id j)) [
      | inl s ↦
          rw (contains-set_remove id j (set_insert id d.tombstones), s)
            (sym t ∙ ap (λ k. contains k d.tombstones) (cell_eq→≡ id j s))
      | inr s ↦ rw (
        contains-set_remove id j (set_insert id d.tombstones),
        s,
        contains-set_insert id j d.tombstones,
        s,
      )
    ]

    cleared : (j : CellId) → slot (clear_tombstones (id ∷ []) (marked id d)) j ≡ slot d j
    cleared j = unfold slot clear_tombstones remove_all base_of in rw (restored j)
