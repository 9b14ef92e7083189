-- ===== src/CellMap.antt =====
-- `BTreeMap<CellId, _>` and `BTreeSet<CellId>` of the standard library, as far as the program uses
-- them: association lists in the derived order of `CellId`, where every cell of the original file
-- stands before the cells of the add-buffer.
pub mod Laws
use package.hxedit.Prelude.{
  Bool, List, Option, [], false, if◌then◌else◌, ltb, none, some, true, ℕ, ◌&&◌, ◌==◌, ◌||◌, ◌∷◌,
}
use package.hxedit.Cells.{CellId, PieceSource, add, cell, original, source_eq}

-- The discriminant, by which the derived order compares first.
abbrev pub rank : PieceSource → ℕ
rank original = 0
rank add = 1

abbrev pub cell_eq : CellId → CellId → Bool
cell_eq (cell s a) (cell u b) = source_eq s u && a == b

abbrev pub cell_lt : CellId → CellId → Bool
cell_lt (cell s a) (cell u b) = ltb (rank s) (rank u) || source_eq s u && ltb a b

abbrev pub cell_le : CellId → CellId → Bool
cell_le a b = cell_eq a b || cell_lt a b

module _ {ℓ} {V : Type ℓ} where
  unfoldable pub get : CellId → List (CellId × V) → Option V
  get k [] = none
  get k ((j, v) ∷ m) = if cell_eq j k then some v else get k m

  unfoldable pub insert : CellId → V → List (CellId × V) → List (CellId × V)
  insert k v [] = (k, v) ∷ []
  insert k v ((j, w) ∷ m) =
      let behind = (j, w) ∷ insert k v m in
      if cell_eq j k then (k, v) ∷ m else if cell_lt k j then (k, v) ∷ (j, w) ∷ m else behind

  unfoldable pub remove : CellId → List (CellId × V) → List (CellId × V)
  remove k [] = []
  remove k ((j, v) ∷ m) = let rest = remove k m in if cell_eq j k then rest else (j, v) ∷ rest

  -- `range((Included(lo), Included(hi)))`, in order.
  unfoldable pub range : CellId → CellId → List (CellId × V) → List (CellId × V)
  range lo hi [] = []
  range lo hi ((j, v) ∷ m) =
      let rest = range lo hi m in if cell_le lo j && cell_le j hi then (j, v) ∷ rest else rest

  -- `range(..=k).next_back()`.
  abbrev or_else : Option (CellId × V) → Option (CellId × V) → Option (CellId × V)
  or_else none e = e
  or_else (some e) _ = some e

  unfoldable pub last_le : CellId → List (CellId × V) → Option (CellId × V)
  last_le k [] = none
  last_le k ((j, v) ∷ m) = if cell_le j k then or_else (last_le k m) (some (j, v)) else none

-- A set, in order.
unfoldable pub contains : CellId → List CellId → Bool
contains k [] = false
contains k (j ∷ m) = cell_eq j k || contains k m

unfoldable pub set_insert : CellId → List CellId → List CellId
set_insert k [] = k ∷ []
set_insert k (j ∷ m) =
    let behind = j ∷ set_insert k m in
    if cell_eq j k then j ∷ m else if cell_lt k j then k ∷ j ∷ m else behind

unfoldable pub set_remove : CellId → List CellId → List CellId
set_remove k [] = []
set_remove k (j ∷ m) = let rest = set_remove k m in if cell_eq j k then rest else j ∷ rest

unfoldable pub set_range : CellId → CellId → List CellId → List CellId
set_range lo hi [] = []
set_range lo hi (j ∷ m) =
    let rest = set_range lo hi m in if cell_le lo j && cell_le j hi then j ∷ rest else rest

abbrev pub is_nil {ℓ} : {A : Type ℓ} → List A → Bool
is_nil [] = true
is_nil (_ ∷ _) = false
