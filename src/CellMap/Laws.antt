-- ===== src/CellMap/Laws.antt =====
-- Reading behind a write, on maps and sets of cells.
use hxedit.Prelude.{
  ==→≡, List, [], ap, arith, false, if◌then◌else◌, none, refl, some, true, ≡→==, ◌||◌, ◌∷◌, ◌≡◌,
}
use hxedit.Cells.{CellId, PieceSource, add, cell, original, source_eq}
use hxedit.CellMap.{cell_eq, contains, get, insert, remove, set_insert, set_remove}
use mathlib.Core.Path.{ap₂}

pub source_eq→≡ : (s u : PieceSource) → source_eq s u ≡ true → s ≡ u
source_eq→≡ original original h = refl
source_eq→≡ add add h = refl
source_eq→≡ original add h = cc
source_eq→≡ add original h = cc

pub source_eq_refl : (s : PieceSource) → source_eq s s ≡ true
source_eq_refl original = refl
source_eq_refl add = refl

pub cell_eq→≡ : (k j : CellId) → cell_eq k j ≡ true → k ≡ j
cell_eq→≡ (cell s a) (cell u b) h =
    ap₂ cell (source_eq→≡ s u (ground arith)) (==→≡ a b (ground arith))

pub cell_eq_refl : (k : CellId) → cell_eq k k ≡ true
cell_eq_refl (cell s a) = rw (source_eq_refl s) (≡→== a a refl)

-- A test against equal cells.
pub cell_eq_same : (i j k : CellId) → cell_eq i j ≡ true → cell_eq i k ≡ cell_eq j k
cell_eq_same i j k h = ap (λ x. cell_eq x k) (cell_eq→≡ i j h)

module _ {ℓ} {V : Type ℓ} where
  pub get-insert :
      (k j : CellId) (v : V) (m : List (CellId × V))
      → get j (insert k v m) ≡ (if cell_eq k j then some v else get j m)
  unfolding get insert
  get-insert k j v [] = refl
  get-insert k j v ((i, w) ∷ m) = ground (arith, get-insert k j v m, cell_eq_same i k j)

  pub get-remove :
      (k j : CellId) (m : List (CellId × V))
      → get j (remove k m) ≡ (if cell_eq k j then none else get j m)
  unfolding get remove
  get-remove k j [] = ground arith
  get-remove k j ((i, w) ∷ m) = ground (arith, get-remove k j m, cell_eq_same i k j)

pub contains-set_insert :
    (k j : CellId) (m : List CellId) → contains j (set_insert k m) ≡ (cell_eq k j || contains j m)
unfolding contains set_insert
contains-set_insert k j [] = refl
contains-set_insert k j (i ∷ m) = ground (arith, contains-set_insert k j m, cell_eq_same i k j)

pub contains-set_remove :
    (k j : CellId) (m : List CellId)
    → contains j (set_remove k m) ≡ (if cell_eq k j then false else contains j m)
unfolding contains set_remove
contains-set_remove k j [] = ground arith
contains-set_remove k j (i ∷ m) = ground (arith, contains-set_remove k j m, cell_eq_same i k j)
