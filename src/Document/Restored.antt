-- ===== src/Document/Restored.antt =====
-- Putting back what a real deletion has returned.
use hxedit.Prelude.{
  Bool-cases, List, [], ap, arith, drop, false, inl, inr, length, length-append, length-take,
  le→ltb, lt→leb, map, not, sym, take, true, ℕ, ◌+◌, ◌<◌, ◌==◌, ◌||◌, ◌∙◌, ◌≡◌, ◌≤◌,
}
use hxedit.Document.Display.{IsValid, display, slot}
use hxedit.Document.{Document, doc_len, has_replacements, has_tombstones, is_dirty}
use hxedit.Document.Byte.{delete_range_real, restore_real_delete}
use hxedit.Outcome.{ok}
use hxedit.Cells.{CellId}
use hxedit.PieceTable.{PieceTable}
use hxedit.PieceTable.View.{cells, length-cells}
use hxedit.PieceTable.Delete.{delete_range_real_lem as delete_table_lem}
use hxedit.PieceTable.Undo.{SameTable, insert_existing_cells-delete_range_real}
use hxedit.Document.Spliced.{same_slots, with_pieces}
use mathlib.Core.Path.{subst₂}
use hxedit.PieceTable

display-same :
    (t : PieceTable) (d : Document)
    → IsValid d
    → SameTable d.pieces t
    → display (with_pieces t d) ≡ display d
display-same t d v s =
    ap (λ ps. map (slot (with_pieces t d)) (cells ps)) s.same_pieces
    ∙ same_slots t d (cells d.pieces.pieces) v s.same_add v.table.within

delete_nothing :
    (off n : ℕ) (t : PieceTable) → (n == 0) ≡ true → PieceTable.delete_range_real off n t ≡ ([], t)
delete_nothing off n t e = unfold PieceTable.delete_range_real in rw e

delete_returns :
    (off n : ℕ) (d : Document)
    → d.readonly ≡ false
    → d.fixed_size ≡ false
    → off < doc_len d
    → let r = PieceTable.delete_range_real off n d.pieces in
      delete_range_real off n d ≡ ok (r.0, with_pieces r.1 d)
delete_returns off n d r f h = elim (Bool-cases (n == 0)) [
  | inl e ↦ unfold delete_range_real in rw (e, delete_nothing off n d.pieces e, r, f)
  | inr e ↦ unfold delete_range_real in rw (e, lt→leb (doc_len d) off h, r, f)
]

delete_allowed :
    (off n : ℕ) (d d' : Document) (removed : List CellId)
    → delete_range_real off n d ≡ ok (removed, d')
    → (d.readonly ≡ false) × (d.fixed_size ≡ false)
unfolding delete_range_real
delete_allowed off n d d' removed e = (ground arith, ground arith)

is_dirty-same :
    (t : PieceTable) (d : Document) → SameTable d.pieces t → is_dirty (with_pieces t d) ≡ is_dirty d
unfolding is_dirty
is_dirty-same t d s =
    ap (λ b. not b || has_tombstones d || has_replacements d)
      (unfold PieceTable.is_identity in rw (s.same_pieces, s.same_len, s.same_original))

-- What `restore_real_delete` does with what a deletion has returned.
abbrev Restores : ℕ → List CellId → Document → Document → Type 0
Restores off removed d d' =
    (d'' : Document) × (restore_real_delete off removed d' ≡ ok d'')
    × (display d'' ≡ display d)
    × SameTable d.pieces d''.pieces
    × (is_dirty d'' ≡ is_dirty d)

restores :
    (off n : ℕ) (d : Document)
    → IsValid d
    → d.readonly ≡ false
    → d.fixed_size ≡ false
    → off < doc_len d
    → let r = PieceTable.delete_range_real off n d.pieces in Restores off r.0 d (with_pieces r.1 d)
restores off n d v r f h =
    let del = PieceTable.delete_range_real off n d.pieces in
    let m = delete_table_lem off n d.pieces v.table in
    let cs = cells d.pieces.pieces in
    let t = PieceTable.insert_existing_cells off del.0 del.1 in
    let back = insert_existing_cells-delete_range_real off n d.pieces v.table in
    let long : off ≤ del.1.len = omega (
      arith,
      m.valid.whole.counted,
      length-cells del.1.pieces,
      ap length m.shows,
      length-append (take off cs) (drop (off + n) cs),
      length-take off cs,
      length-cells d.pieces.pieces,
      v.table.whole.counted,
    ) in
    (
      with_pieces t d,
      unfold restore_real_delete in rw (le→ltb del.1.len off long, r, f),
      display-same t d v back,
      back,
      is_dirty-same t d back,
    )

-- On a valid document that may change its size, whatever a real deletion within it has returned,
-- putting that back at its offset succeeds; every slot shows what it did, and the piece table is the
-- one before the deletion, so the document is as dirty as it was.
pub restore_real_delete-delete_range_real :
    (off n : ℕ) (d d' : Document) (removed : List CellId)
    → IsValid d
    → off < doc_len d
    → delete_range_real off n d ≡ ok (removed, d')
    → (d'' : Document) × (restore_real_delete off removed d' ≡ ok d'')
      × (display d'' ≡ display d)
      × SameTable d.pieces d''.pieces
      × (is_dirty d'' ≡ is_dirty d)
restore_real_delete-delete_range_real off n d d' removed v h e =
    let (r, f) = delete_allowed off n d d' removed e in
    let same = sym e ∙ delete_returns off n d r f h in
    subst₂ (λ x y. Restores off x d y) (cc) (cc) (restores off n d v r f h)
