-- ===== src/Edit/Inverse.antt =====
-- Undoing a replacement of bytes.
use hxedit.Prelude.{
  Bool, Bool-cases, List, Option, [], ap, arith, false, if◌then◌else◌, inl, inr, none, refl, some,
  sym, true, ℕ, ◌||◌, ◌∙◌, ◌∷◌, ◌≡◌,
}
use hxedit.Outcome.{ok}
use hxedit.Cells.{CellId, add, cell, original}
use hxedit.CellMap.{cell_eq}
use hxedit.CellMap.Laws.{cell_eq→≡}
use hxedit.ReplacementStore.{ReplacementStore, clear_cell, replacement_at, set_cell}
use hxedit.ReplacementStore.Cells.{replacement_at-clear_cell, replacement_at-set_cell}
use hxedit.Document.{Document, restore_replacement}
use hxedit.Document.Display.{base_of, slot}
use hxedit.Edit.{
  ReplacementChange, after_of, apply_edit_op, before_of, replace_bytes_op, restore_changes,
  undo_edit_op,
}
use Prim.{Unit}

put : CellId → Option ℕ → ReplacementStore → ReplacementStore
put id (some v) s = set_cell id v s
put id none s = clear_cell id s

replacement_at-put :
    (id j : CellId) (o : Option ℕ) (base : ℕ) (s : ReplacementStore)
    → replacement_at (put id o s) j base ≡ (if cell_eq id j then o else replacement_at s j base)
unfolding put
replacement_at-put id j (some v) base s = replacement_at-set_cell id j v base s
replacement_at-put id j none base s = replacement_at-clear_cell id j base s

put_all :
    (ReplacementChange → Option ℕ) → List ReplacementChange → ReplacementStore → ReplacementStore
put_all to [] s = s
put_all to (c ∷ cs) s = put_all to cs (put c.id (to c) s)

abbrev with_store : ReplacementStore → Document → Document
with_store s d = record d { replacements = s }

restore_replacement-eq :
    (id : CellId) (o : Option ℕ) (d : Document)
    → d.readonly ≡ false
    → restore_replacement id o d ≡ ok (with_store (put id o d.replacements) d)
unfolding put restore_replacement
restore_replacement-eq id (some v) d w = rw w
restore_replacement-eq id none d w = rw w

restore_changes-eq :
    (to : ReplacementChange → Option ℕ) (cs : List ReplacementChange) (d : Document)
    → d.readonly ≡ false
    → restore_changes to cs d ≡ ok (with_store (put_all to cs d.replacements) d)
unfolding restore_changes put_all
restore_changes-eq to [] d w = refl
restore_changes-eq to (c ∷ cs) d w =
    rw (restore_replacement-eq c.id (to c) d w)
      (restore_changes-eq to cs (with_store (put c.id (to c) d.replacements) d) w)

-- What the cell reads after the changes, if it reads `r` before.
changed : (ReplacementChange → Option ℕ) → List ReplacementChange → CellId → Option ℕ → Option ℕ
changed to [] j r = r
changed to (c ∷ cs) j r = changed to cs j (if cell_eq c.id j then to c else r)

replacement_at-put_all :
    (to : ReplacementChange → Option ℕ) (cs : List ReplacementChange) (j : CellId) (base : ℕ)
    (s : ReplacementStore)
    → replacement_at (put_all to cs s) j base ≡ changed to cs j (replacement_at s j base)
unfolding put_all changed
replacement_at-put_all to [] j base s = refl
replacement_at-put_all to (c ∷ cs) j base s =
    replacement_at-put_all to cs j base (put c.id (to c) s)
    ∙ ap (changed to cs j) (replacement_at-put c.id j (to c) base s)

has_change : List ReplacementChange → CellId → Bool
has_change [] j = false
has_change (c ∷ cs) j = cell_eq c.id j || has_change cs j

unchanged :
    (to : ReplacementChange → Option ℕ) (cs : List ReplacementChange) (j : CellId) (r : Option ℕ)
    → has_change cs j ≡ false
    → changed to cs j r ≡ r
unfolding changed has_change
unchanged to [] j r h = refl
unchanged to (c ∷ cs) j r h = elim (Bool-cases (cell_eq c.id j)) [
  | inl e ↦ absurd (let q : true ≡ false = (ground (arith, e, h)) in cc)
  | inr e ↦ rw e (unchanged to cs j r (rw e at h))
]

-- Every change has noted what its cell reads in the document.
unfoldable pub Recorded : Document → List ReplacementChange → Type 0
Recorded d [] = Unit
Recorded d (c ∷ cs) =
    (c.before ≡ replacement_at d.replacements c.id (base_of d c.id)) × Recorded d cs

either : (b : Bool) (r : Option ℕ) → (if b then r else r) ≡ r
either true r = refl
either false r = refl

-- Putting back what was noted, wherever it was noted.
noted_back :
    (d : Document) (cs : List ReplacementChange) (j : CellId) (r x : Option ℕ)
    → Recorded d cs
    → r ≡ replacement_at d.replacements j (base_of d j)
    → changed before_of cs j x ≡ (if has_change cs j then r else x)
unfolding changed has_change Recorded
noted_back d [] j r x h e = refl
noted_back d (c ∷ cs) j r x (b, h) e = elim (Bool-cases (cell_eq c.id j)) [
  | inr f ↦ rw f (noted_back d cs j r x h e)
  | inl f ↦
      let same : c.before ≡ r =
        b ∙ ap (λ i. replacement_at d.replacements i (base_of d i)) (cell_eq→≡ c.id j f) ∙ sym e in
      rw f (
        noted_back d cs j r c.before h e
        ∙ ap (λ x. if has_change cs j then r else x) same
        ∙ either (has_change cs j) r)
]

-- What was noted comes back, also when other values were put there in between.
noted-undone :
    (d : Document) (cs : List ReplacementChange) (j : CellId)
    → Recorded d cs
    → let r = replacement_at d.replacements j (base_of d j) in
      changed before_of cs j (changed after_of cs j r) ≡ r
noted-undone d cs j h =
    let r = replacement_at d.replacements j (base_of d j) in
    noted_back d cs j r (changed after_of cs j r) h refl ∙ elim (Bool-cases (has_change cs j)) [
      | inl e ↦ rw e
      | inr e ↦ rw e (unchanged after_of cs j r e)
    ]

base_of-with_store :
    (d : Document) (s : ReplacementStore) (j : CellId) → base_of (with_store s d) j ≡ base_of d j
unfolding base_of
base_of-with_store d s (cell original a) = refl
base_of-with_store d s (cell add a) = refl

slot-with_store :
    (d : Document) (s t : ReplacementStore) (j : CellId)
    → replacement_at s j (base_of d j) ≡ replacement_at t j (base_of d j)
    → slot (with_store s d) j ≡ slot (with_store t d) j
unfolding slot
slot-with_store d s t j e = rw (base_of-with_store d s j, base_of-with_store d t j, e)

-- On a writable document, an operation that replaces bytes, each of its changes noting what its cell
-- reads there, can be applied, undone and applied again; the undo shows at every cell what was shown
-- before, and the redo what the operation showed.
pub undo_edit_op-apply_edit_op :
    (cs : List ReplacementChange) (d : Document)
    → d.readonly ≡ false
    → Recorded d cs
    → (d1 : Document) × (d2 : Document) × (d3 : Document) × (apply_edit_op (replace_bytes_op cs) d
        ≡ ok d1)
      × (undo_edit_op (replace_bytes_op cs) d1 ≡ ok d2)
      × ((j : CellId) → slot d2 j ≡ slot d j)
      × (apply_edit_op (replace_bytes_op cs) d2 ≡ ok d3)
      × ((j : CellId) → slot d3 j ≡ slot d1 j)
unfolding apply_edit_op undo_edit_op
undo_edit_op-apply_edit_op cs d w h =
    let s1 = put_all after_of cs d.replacements in
    let s2 = put_all before_of cs s1 in
    let s3 = put_all after_of cs s2 in
    let undone : (j : CellId)
        → replacement_at s2 j (base_of d j) ≡ replacement_at d.replacements j (base_of d j) =
      λ j.
        replacement_at-put_all before_of cs j (base_of d j) s1
        ∙ ap (changed before_of cs j)
            (replacement_at-put_all after_of cs j (base_of d j) d.replacements)
        ∙ noted-undone d cs j h in
    let redone : (j : CellId)
        → replacement_at s3 j (base_of d j) ≡ replacement_at s1 j (base_of d j) =
      λ j.
        replacement_at-put_all after_of cs j (base_of d j) s2
        ∙ ap (changed after_of cs j) (undone j)
        ∙ sym (replacement_at-put_all after_of cs j (base_of d j) d.replacements) in
    (
      with_store s1 d,
      with_store s2 d,
      with_store s3 d,
      restore_changes-eq after_of cs d w,
      restore_changes-eq before_of cs (with_store s1 d) w,
      λ j. slot-with_store d s2 d.replacements j (undone j),
      restore_changes-eq after_of cs (with_store s2 d) w,
      λ j. slot-with_store d s3 s1 j (redone j),
    )
