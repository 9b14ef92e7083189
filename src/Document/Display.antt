-- ===== src/Document/Display.antt =====
-- The abstract view of a document: the slots on display, in their order.
use hxedit.Prelude.{
  Bool-cases, List, Option, Option-cases, [], ap, arith, drop, false, get_elem?, get_or,
  if◌then◌else◌, inl, inr, length, map, none, refl, some, subst, suc, take, zero, ℕ, ◌+◌, ◌<◌, ◌∷◌,
  ◌≡◌, ◌≤◌,
}
use hxedit.Outcome.{HxError, ok}
use hxedit.Cells.{CellId, add, cell, original}
use hxedit.CellMap.{contains}
use hxedit.PieceTable.View.{cells}
use hxedit.PieceTable.Valid.{Within, IsValid as IsValidTable}
use hxedit.PieceTable.Resolve.{resolve_lem}
use hxedit.ReplacementStore.{replacement_at}
use hxedit.Document.{
  ByteSlot, Document, base_byte, byte_at, cell_id_at, deleted, display_byte_for_id, empty,
  is_tombstone, or_base, present, raw_byte, read_view, unless_failed,
}

-- The layers agree: the table shows bytes that exist, and nothing is said yet of bytes that will be
-- added.
pub record IsValid (d : Document) : Type 0 where
  pub table : IsValidTable d.pieces
  pub original : d.pieces.original_len ≡ length d.view
  pub fresh_tombstones :
      (a : ℕ) → length d.pieces.add_buffer ≤ a → contains (cell add a) d.tombstones ≡ false
  pub fresh_replacements :
      (a base : ℕ)
      → length d.pieces.add_buffer ≤ a
      → replacement_at d.replacements (cell add a) base ≡ none

unfoldable pub base_of : Document → CellId → ℕ
base_of d (cell original a) = get_or d.view a 0
base_of d (cell add a) = get_or d.pieces.add_buffer a 0

-- What a cell shows.
unfoldable pub slot : Document → CellId → ByteSlot
slot d id =
    if is_tombstone d id
    then deleted
    else present (or_base (replacement_at d.replacements id (base_of d id)) (base_of d id))

abbrev pub display : Document → List ByteSlot
display d = map (slot d) (cells d.pieces.pieces)

pub get_elem?-eq-get_or :
    (xs : List ℕ) (i : ℕ) → i < length xs → get_elem? xs i ≡ some (get_or xs i 0)
get_elem?-eq-get_or [] i h = absurd (omega arith)
get_elem?-eq-get_or (x ∷ xs) zero h = refl
get_elem?-eq-get_or (x ∷ xs) (suc i) h = get_elem?-eq-get_or xs i (omega arith)

-- No read within the file fails.
abbrev pub IsReadable : Document → Type 0
IsReadable d = (offset len : ℕ) → offset + len ≤ length d.view → d.read_failure offset len ≡ none

first-drop : (xs : List ℕ) (i : ℕ) → get_elem? (take 1 (drop i xs)) 0 ≡ get_elem? xs i
first-drop [] zero = refl
first-drop [] (suc i) = refl
first-drop (x ∷ xs) zero = refl
first-drop (x ∷ xs) (suc i) = first-drop xs i

pub read_view-ok :
    (d : Document) (offset len : ℕ)
    → IsReadable d
    → offset + len ≤ length d.view
    → read_view d offset len ≡ ok (take len (drop offset d.view))
unfolding read_view
read_view-ok d offset len r h = rw (r offset len h)

-- A cell whose source holds its byte can be read.
pub base_byte-ok :
    (d : Document) (id : CellId)
    → d.pieces.original_len ≡ length d.view
    → IsReadable d
    → Within d.pieces.original_len (length d.pieces.add_buffer) (id ∷ [])
    → base_byte d id ≡ ok (base_of d id)
unfolding base_byte base_of raw_byte
base_byte-ok d (cell original a) e r h =
    rw
      (
        read_view-ok d a 1 r (omega (arith, h.0)),
        first-drop d.view a,
        get_elem?-eq-get_or d.view a (omega (arith, h.0)),
      )
      refl
base_byte-ok d (cell add a) e r h = rw (get_elem?-eq-get_or d.pieces.add_buffer a h.0) refl

pub Within-get_elem? :
    (o a : ℕ) (cs : List CellId) (i : ℕ) (id : CellId)
    → Within o a cs
    → get_elem? cs i ≡ some id
    → Within o a (id ∷ [])
Within-get_elem? o a [] i id w e = cc
Within-get_elem? o a (cell s k ∷ cs) zero id w e =
    subst (λ x. Within o a (x ∷ [])) {x = cell s k} {y = id} (cc) (w.0, tt)
Within-get_elem? o a (cell s k ∷ cs) (suc i) id w e = Within-get_elem? o a cs i id w.1 e

get_elem?-map :
    {A B : Type 0} (f : A → B) (xs : List A) (i : ℕ) (x : A)
    → get_elem? xs i ≡ some x
    → get_elem? (map f xs) i ≡ some (f x)
get_elem?-map f [] i x e = cc
get_elem?-map f (y ∷ xs) zero x e = ap (λ z. some (f z)) {x = y} {y = x} (cc)
get_elem?-map f (y ∷ xs) (suc i) x e = get_elem?-map f xs i x e

get_elem?-map-none :
    {A B : Type 0} (f : A → B) (xs : List A) (i : ℕ)
    → get_elem? xs i ≡ none
    → get_elem? (map f xs) i ≡ none
get_elem?-map-none f [] i e = refl
get_elem?-map-none f (y ∷ xs) zero e = cc
get_elem?-map-none f (y ∷ xs) (suc i) e = get_elem?-map-none f xs i e

abbrev pub or_empty : Option ByteSlot → ByteSlot
or_empty none = empty
or_empty (some s) = s

pub cell_id_at_lem :
    (d : Document) (off : ℕ) → IsValid d → cell_id_at d off ≡ get_elem? (cells d.pieces.pieces) off
unfolding cell_id_at
cell_id_at_lem d off v = resolve_lem off d.pieces v.table.whole

pub display_byte_for_id-ok :
    (d : Document) (id : CellId)
    → d.pieces.original_len ≡ length d.view
    → IsReadable d
    → Within d.pieces.original_len (length d.pieces.add_buffer) (id ∷ [])
    → display_byte_for_id d id
      ≡ ok (or_base (replacement_at d.replacements id (base_of d id)) (base_of d id))
unfolding display_byte_for_id
display_byte_for_id-ok d id e r h = rw (base_byte-ok d id e r h)

-- The failure of the read that a cell's base byte needs, and of the one that a displayed cell needs.
abbrev base_failure : Document → CellId → Option HxError
base_failure d (cell original a) = d.read_failure a 1
base_failure d (cell add a) = none

abbrev pub failure_at : Document → Option CellId → Option HxError
failure_at d none = none
failure_at d (some id) = if is_tombstone d id then none else base_failure d id

base_byte-base_of :
    (d : Document) (id : CellId)
    → d.pieces.original_len ≡ length d.view
    → Within d.pieces.original_len (length d.pieces.add_buffer) (id ∷ [])
    → base_byte d id ≡ unless_failed (base_failure d id) (base_of d id)
unfolding base_byte base_of raw_byte read_view
base_byte-base_of d (cell original a) e h = elim (Option-cases (d.read_failure a 1)) [
  | inl f ↦ rw (f, first-drop d.view a, get_elem?-eq-get_or d.view a (omega (arith, h.0))) refl
  | inr (x, f) ↦ rw f
]
base_byte-base_of d (cell add a) e h = rw (get_elem?-eq-get_or d.pieces.add_buffer a h.0) refl

-- On a valid document, `byte_at` returns the slot on display at any offset, and `empty` past the end;
-- only where it shows a byte of the file that is not deleted, and the read of that byte fails, does
-- it fail, in the same way.
pub byte_at_lem :
    (d : Document) (off : ℕ)
    → IsValid d
    → byte_at d off
      ≡ unless_failed
          (failure_at d (get_elem? (cells d.pieces.pieces) off))
          (or_empty (get_elem? (display d) off))
unfolding byte_at display_byte_for_id
byte_at_lem d off v =
    let cs = cells d.pieces.pieces in
    rw (cell_id_at_lem d off v) (elim (Option-cases (get_elem? cs off)) [
      | inl e ↦ rw (e, get_elem?-map-none (slot d) cs off e)
      | inr (id, e) ↦
          let base =
            base_byte-base_of d id v.original (Within-get_elem? _ _ cs off id v.table.within e) in
          rw (e, get_elem?-map (slot d) cs off id e)
            (elim (Bool-cases (is_tombstone d id)) [
              | inl t ↦ unfold slot in rw t
              | inr t ↦
                  unfold slot in
                  elim (Option-cases (base_failure d id)) [
                    | inl f ↦ rw (t, base, f)
                    | inr (x, f) ↦ rw (t, base, f)
                  ]
            ])
    ])
