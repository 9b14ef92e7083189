-- ===== src/Document/Covered.antt =====
-- The overlaps of a display range, by the cells in them.
use hxedit.Prelude.{
  Bool, Bool-cases, List, [], ap, arith, false, if◌then◌else◌, inl, inr, leb, leb→le, le→ltb, ltb,
  ltb→lt, max, min, not, refl, suc, sym, true, zero, ℕ, ◌&&◌, ◌++◌, ◌+◌, ◌-◌, ◌<◌, ◌||◌, ◌∙◌, ◌∷◌,
  ◌≡◌,
}
use hxedit.Cells.{CellId, Piece, PieceSource, add, cell, from_source, original, run, source_eq}
use hxedit.CellMap.{cell_eq, cell_le, contains, get, is_nil, range, set_range}
use hxedit.PieceTable.{collect_cells}
use hxedit.Document.Overlaps.{Overlap, any_overlap, overlaps}
use hxedit.ReplacementStore.{is_some}
use mathlib.Core.Path.{ap₂}

abbrev pub any_cell : (CellId → Bool) → List CellId → Bool
any_cell test [] = false
any_cell test (c ∷ cs) = test c || any_cell test cs

pub any_cell-append :
    (test : CellId → Bool) (cs ds : List CellId)
    → any_cell test (cs ++ ds) ≡ (any_cell test cs || any_cell test ds)
any_cell-append test [] ds = refl
any_cell-append test (c ∷ cs) ds = ground (arith, any_cell-append test cs ds)

pub any_cell-or :
    (f g : CellId → Bool) (cs : List CellId)
    → any_cell (λ c. f c || g c) cs ≡ (any_cell f cs || any_cell g cs)
any_cell-or f g [] = refl
any_cell-or f g (c ∷ cs) = ground (arith, any_cell-or f g cs)

pub any_cell-false : (cs : List CellId) → any_cell (λ c. false) cs ≡ false
any_cell-false [] = refl
any_cell-false (c ∷ cs) = any_cell-false cs

-- Whether a run has a cell.
pub any_cell-run :
    (s u : PieceSource) (b a n : ℕ)
    → any_cell (cell_eq (cell u b)) (run s a n) ≡ (source_eq u s && (leb a b && ltb b (a + n)))
unfolding run
any_cell-run s u b a zero = ground arith
any_cell-run s u b a (suc n) = rw (any_cell-run s u b (a + 1) n) (ground arith)

-- The bounds of a range of a map, which is not empty.
pub within_bounds :
    (s u : PieceSource) (a n b : ℕ)
    → 0 < n
    → (cell_le (from_source s a) (cell u b) && cell_le (cell u b) (from_source s (a + n - 1)))
      ≡ (source_eq u s && (leb a b && ltb b (a + n)))
within_bounds original original a n b h = ground arith
within_bounds original add a n b h = ground arith
within_bounds add original a n b h = ground arith
within_bounds add add a n b h = ground arith

pub chosen :
    (b : Bool) (c : CellId) (r : List CellId)
    → not (is_nil (if b then c ∷ r else r)) ≡ (b || not (is_nil r))
chosen true c r = refl
chosen false c r = refl

-- A range of a set is not empty exactly if it has one of the cells.
pub set_range-run :
    (s : PieceSource) (a n : ℕ) (m : List CellId)
    → 0 < n
    → not (is_nil (set_range (from_source s a) (from_source s (a + n - 1)) m))
      ≡ any_cell (λ k. contains k m) (run s a n)
unfolding set_range contains
set_range-run s a n [] h = sym (any_cell-false (run s a n))
set_range-run s a n (cell u b ∷ m) h =
    let lo = from_source s a in
    let hi = from_source s (a + n - 1) in
    let inside = cell_le lo (cell u b) && cell_le (cell u b) hi in
    chosen inside (cell u b) (set_range lo hi m)
    ∙ ap₂ ◌||◌ (within_bounds s u a n b h ∙ sym (any_cell-run s u b a n)) (set_range-run s a n m h)
    ∙ sym (any_cell-or (cell_eq (cell u b)) (λ k. contains k m) (run s a n))

chosen_entry :
    {V : Type 0} (b : Bool) (e : CellId × V) (r : List (CellId × V))
    → not (is_nil (if b then e ∷ r else r)) ≡ (b || not (is_nil r))
chosen_entry true e r = refl
chosen_entry false e r = refl

-- Whether a map has the cell, as a test.
abbrev pub has_key : {V : Type 0} → List (CellId × V) → CellId → Bool
has_key m k = is_some (get k m)

has_key-front :
    {V : Type 0} (j k : CellId) (v : V) (m : List (CellId × V))
    → has_key ((j, v) ∷ m) k ≡ (cell_eq j k || has_key m k)
unfolding get
has_key-front j k v m = elim (Bool-cases (cell_eq j k)) [ inl e ↦ rw e | inr e ↦ rw e ]

any_cell-same :
    (f g : CellId → Bool) (cs : List CellId)
    → ((c : CellId) → f c ≡ g c)
    → any_cell f cs ≡ any_cell g cs
any_cell-same f g [] e = refl
any_cell-same f g (c ∷ cs) e = ap₂ ◌||◌ (e c) (any_cell-same f g cs e)

-- A range of a map is not empty exactly if it has one of the cells.
pub range-run :
    {V : Type 0} (s : PieceSource) (a n : ℕ) (m : List (CellId × V))
    → 0 < n
    → not (is_nil (range (from_source s a) (from_source s (a + n - 1)) m))
      ≡ any_cell (has_key m) (run s a n)
unfolding range
range-run s a n [] h = unfold get in sym (any_cell-false (run s a n))
range-run s a n ((cell u b, v) ∷ m) h =
    let lo = from_source s a in
    let hi = from_source s (a + n - 1) in
    let inside = cell_le lo (cell u b) && cell_le (cell u b) hi in
    chosen_entry inside (cell u b, v) (range lo hi m)
    ∙ ap₂ ◌||◌ (within_bounds s u a n b h ∙ sym (any_cell-run s u b a n)) (range-run s a n m h)
    ∙ sym (any_cell-or (cell_eq (cell u b)) (has_key m) (run s a n))
    ∙ sym (
        any_cell-same (has_key ((cell u b, v) ∷ m)) (λ k. cell_eq (cell u b) k || has_key m k)
          (run s a n) (λ k. has_key-front (cell u b) k v m))

unfoldable pub overlap_cells : List Overlap → List CellId
overlap_cells [] = []
overlap_cells (o ∷ os) = run o.source o.start o.len ++ overlap_cells os

pub overlap_cells-eq :
    (off end c : ℕ) (ps : List Piece)
    → overlap_cells (overlaps off end c ps) ≡ collect_cells off end c ps
unfolding overlaps overlap_cells collect_cells
overlap_cells-eq off end c [] = refl
overlap_cells-eq off end c (p ∷ ps) = elim (Bool-cases (leb end c)) [
  | inl e ↦ rw e
  | inr e ↦ elim (Bool-cases (leb (c + p.len) off)) [
    | inl f ↦
        rw (e, f, le→ltb (max off c) (min end (c + p.len)) (omega (arith, leb→le _ _ f)))
          (overlap_cells-eq off end (c + p.len) ps)
    | inr f ↦ elim (Bool-cases (ltb (max off c) (min end (c + p.len)))) [
      | inl g ↦
          rw (e, f, g)
            (ap (run p.source (p.start + (max off c - c)) (min end (c + p.len) - max off c) ++◌)
              (overlap_cells-eq off end (c + p.len) ps))
      | inr g ↦ rw (e, f, g) (overlap_cells-eq off end (c + p.len) ps)
    ]
  ]
]

-- A test on overlaps that asks each cell of theirs.
pub any_overlap-cells :
    (test : Overlap → Bool) (ask : CellId → Bool)
    → ((o : Overlap) → 0 < o.len → test o ≡ any_cell ask (run o.source o.start o.len))
    → (off end c : ℕ) (ps : List Piece)
    → any_overlap test (overlaps off end c ps)
      ≡ any_cell ask (overlap_cells (overlaps off end c ps))
unfolding overlaps overlap_cells
any_overlap-cells test ask same off end c [] = refl
any_overlap-cells test ask same off end c (p ∷ ps) = elim (Bool-cases (leb end c)) [
  | inl e ↦ rw e
  | inr e ↦ elim (Bool-cases (leb (c + p.len) off)) [
    | inl f ↦ rw (e, f) (any_overlap-cells test ask same off end (c + p.len) ps)
    | inr f ↦ elim (Bool-cases (ltb (max off c) (min end (c + p.len)))) [
      | inl g ↦
          rw (e, f, g)
            (let here : Overlap = record {
              source = p.source;
              start = p.start + (max off c - c);
              len = min end (c + p.len) - max off c;
              distance = max off c - off;
            } in
              ap₂ ◌||◌ (same here (omega (arith, ltb→lt _ _ g)))
                (any_overlap-cells test ask same off end (c + p.len) ps)
              ∙ sym (
                  any_cell-append ask (run here.source here.start here.len)
                    (overlap_cells (overlaps off end (c + p.len) ps))))
      | inr g ↦ rw (e, f, g) (any_overlap-cells test ask same off end (c + p.len) ps)
    ]
  ]
]
