-- ===== src/ReplacementStore/Order.antt =====
-- The order of the ranges in a store: their cells on one line of numbers, disjoint and in order, and
-- the range of a cell as the only one that has it.
use hxedit.Prelude.{
  Bool, Bool-cases, List, Option, Option-cases, [], ap, arith, false, if◌then◌else◌, inl, inr, leb,
  leb→le, leb→lt, le→leb, le→ltb, ltb, lt→leb, lt→ltb, none, refl, saturating_add, some, subst, sym,
  true, u64_max, u64_mod, ℕ, ◌&&◌, ◌+◌, ◌<◌, ◌==◌, ◌∙◌, ◌∷◌, ◌≡◌, ◌≤◌,
}
use hxedit.Cells.{CellId, PieceSource, add, cell, cell_offset, cell_source, original, source_eq}
use hxedit.CellMap.{cell_eq, cell_le, cell_lt, last_le}
use hxedit.Replacement.{ReplacementRange, in_range, range_offset, range_source}
use hxedit.ReplacementStore.{if_contains}
use Prim.{Unit, tt}

-- The add-buffer's cells come behind those of the file, in the order of the maps.
abbrev pub source_base : PieceSource → ℕ
source_base original = 0
source_base add = u64_mod

abbrev pub pos : CellId → ℕ
pos c = source_base (cell_source c) + cell_offset c

abbrev pub spans : ℕ → ℕ → ℕ → Bool
spans a n i = leb a i && ltb i (a + n)

pub cell_eq-pos :
    (s u : PieceSource) (a b : ℕ)
    → a < u64_mod
    → b < u64_mod
    → cell_eq (cell s a) (cell u b) ≡ (pos (cell s a) == pos (cell u b))
cell_eq-pos original original a b h k = ground arith
cell_eq-pos original add a b h k = ground arith
cell_eq-pos add original a b h k = ground arith
cell_eq-pos add add a b h k = ground arith

pub cell_lt-pos :
    (s u : PieceSource) (a b : ℕ)
    → a < u64_mod
    → b < u64_mod
    → cell_lt (cell s a) (cell u b) ≡ ltb (pos (cell s a)) (pos (cell u b))
cell_lt-pos original original a b h k = ground arith
cell_lt-pos original add a b h k = ground arith
cell_lt-pos add original a b h k = ground arith
cell_lt-pos add add a b h k = ground arith

pub cell_le-pos :
    (s u : PieceSource) (a b : ℕ)
    → a < u64_mod
    → b < u64_mod
    → cell_le (cell s a) (cell u b) ≡ leb (pos (cell s a)) (pos (cell u b))
cell_le-pos original original a b h k = ground arith
cell_le-pos original add a b h k = ground arith
cell_le-pos add original a b h k = ground arith
cell_le-pos add add a b h k = ground arith

window-spans :
    (s u : PieceSource) (a n i : ℕ)
    → a + n ≤ u64_max
    → i < u64_mod
    → (source_eq s u && (leb a i && ltb i (saturating_add a n)))
      ≡ spans (source_base u + a) n (pos (cell s i))
window-spans original original a n i h k = ground arith
window-spans original add a n i h k = ground arith
window-spans add original a n i h k = ground arith
window-spans add add a n i h k = ground arith

pub in_range-spans :
    (r : ReplacementRange) (s : PieceSource) (i : ℕ)
    → range_offset r + r.len ≤ u64_max
    → i < u64_mod
    → in_range r (cell s i) ≡ spans (pos r.start) r.len (pos (cell s i))
in_range-spans r s i h k = window-spans s (range_source r) (range_offset r) r.len i h k

-- The ranges start at their keys, are not empty, end below 2^64, and lie behind `lo` and behind one
-- another.
unfoldable pub Ordered : ℕ → List (CellId × ReplacementRange) → Type 0
Ordered lo [] = Unit
Ordered lo ((k, r) ∷ m) =
    (r.start ≡ k)
    × (lo ≤ pos k)
    × (0 < r.len)
    × (cell_offset k + r.len ≤ u64_max)
    × Ordered (pos k + r.len) m

pub Ordered-mono :
    (lo lo' : ℕ) (m : List (CellId × ReplacementRange)) → lo' ≤ lo → Ordered lo m → Ordered lo' m
unfolding Ordered
Ordered-mono lo lo' [] h o = tt
Ordered-mono lo lo' ((k, r) ∷ m) h o = (o.0, omega (arith, o.1), o.2, o.3, o.4)

-- The range that has a cell, wherever it stands.
unfoldable pub any_range : CellId → List (CellId × ReplacementRange) → Option ReplacementRange
any_range id [] = none
any_range id ((k, r) ∷ m) = if in_range r id then some r else any_range id m

-- The test of a range by its key.
pub entry-spans :
    (k : CellId) (r : ReplacementRange) (s : PieceSource) (i : ℕ)
    → r.start ≡ k
    → cell_offset k + r.len ≤ u64_max
    → i < u64_mod
    → in_range r (cell s i) ≡ spans (pos k) r.len (pos (cell s i))
entry-spans k r s i e h b =
    in_range-spans r s i (omega (arith, ap cell_offset e)) b
    ∙ ap (λ c. spans (pos c) r.len (pos (cell s i))) e

pub any_range-below :
    (s : PieceSource) (i lo : ℕ) (m : List (CellId × ReplacementRange))
    → Ordered lo m
    → i < u64_mod
    → pos (cell s i) < lo
    → any_range (cell s i) m ≡ none
unfolding any_range Ordered
any_range-below s i lo [] o b h = refl
any_range-below s i lo ((k, r) ∷ m) (e, l, n, f, o) b h =
    rw (entry-spans k r s i e f b, lt→leb (pos k) (pos (cell s i)) (omega arith))
      (any_range-below s i (pos k + r.len) m o b (omega arith))

last_le-below :
    (s : PieceSource) (i lo : ℕ) (m : List (CellId × ReplacementRange))
    → Ordered lo m
    → i < u64_mod
    → pos (cell s i) < lo
    → last_le (cell s i) m ≡ none
unfolding last_le Ordered
last_le-below s i lo [] o b h = refl
last_le-below s i lo ((cell u a, r) ∷ m) (e, l, n, f, o) b h =
    rw (cell_le-pos u s a i (omega arith) b, lt→leb (pos (cell u a)) (pos (cell s i)) (omega arith))

pub last_le-bounds :
    (s : PieceSource) (i lo : ℕ) (m : List (CellId × ReplacementRange))
    (e : CellId × ReplacementRange)
    → Ordered lo m
    → i < u64_mod
    → last_le (cell s i) m ≡ some e
    → (lo ≤ pos e.0) × (pos e.0 ≤ pos (cell s i))
unfolding last_le Ordered
last_le-bounds s i lo [] e o b h = cc
last_le-bounds s i lo ((cell u a, r) ∷ m) e (q, l, n, f, o) b h =
    elim (Bool-cases (leb (pos (cell u a)) (pos (cell s i)))) [
      | inr g ↦
          let none_some : none ≡ some e = (rw (cell_le-pos u s a i (omega arith) b, g) at h) in cc
      | inl g ↦ elim (Option-cases (last_le (cell s i) m)) [
        | inl t ↦
            let here : some (cell u a, r) ≡ some e =
              (rw (cell_le-pos u s a i (omega arith) b, g, t) at h) in
            let same : (cell u a, r) ≡ e = (cc) in
            subst (λ (x : CellId × ReplacementRange). (lo ≤ pos x.0) × (pos x.0 ≤ pos (cell s i)))
              same (l, leb→le _ _ g)
        | inr (x, t) ↦
            let there : some x ≡ some e = (rw (cell_le-pos u s a i (omega arith) b, g, t) at h) in
            let w = last_le-bounds s i (pos (cell u a) + r.len) m e o b (t ∙ there) in
            (omega arith, w.1)
      ]
    ]

-- `range_containing` finds the range that has the cell.
pub if_contains-last_le :
    (s : PieceSource) (i lo : ℕ) (m : List (CellId × ReplacementRange))
    → Ordered lo m
    → i < u64_mod
    → if_contains (cell s i) (last_le (cell s i) m) ≡ any_range (cell s i) m
unfolding last_le any_range Ordered
if_contains-last_le s i lo [] o b = refl
if_contains-last_le s i lo ((cell u a, r) ∷ m) (e, l, n, f, o) b =
    let spanned = entry-spans (cell u a) r s i e f b in
    let rest = if_contains-last_le s i (pos (cell u a) + r.len) m o b in
    elim (Bool-cases (leb (pos (cell u a)) (pos (cell s i)))) [
      | inr g ↦
          rw (cell_le-pos u s a i (omega arith) b, g, spanned, g)
            (sym (any_range-below s i (pos (cell u a) + r.len) m o b (omega (arith, leb→lt _ _ g))))
      | inl g ↦ elim (Option-cases (last_le (cell s i) m)) [
        | inl t ↦
            let nowhere : none ≡ any_range (cell s i) m = (rw t at rest) in
            rw (cell_le-pos u s a i (omega arith) b, g, t, ← nowhere) refl
        | inr (x, t) ↦
            let w = last_le-bounds s i (pos (cell u a) + r.len) m x o b t in
            let outside : in_range r (cell s i) ≡ false =
              spanned ∙ (rw (g, le→ltb (pos (cell s i)) (pos (cell u a) + r.len) (omega arith))) in
            rw (cell_le-pos u s a i (omega arith) b, g, outside, t) (rw t at rest)
      ]
    ]

-- The test of an entry as an order, in both directions.
module _ (k : CellId) (r : ReplacementRange) (s : PieceSource) (i : ℕ) (e : r.start ≡ k)
    (h : cell_offset k + r.len ≤ u64_max) (b : i < u64_mod) where
  pub inside-bounds :
      in_range r (cell s i) ≡ true → (pos k ≤ pos (cell s i)) × (pos (cell s i) < pos k + r.len)
  inside-bounds t =
      let u : spans (pos k) r.len (pos (cell s i)) ≡ true = sym (entry-spans k r s i e h b) ∙ t in
      (ground arith)

  pub inside-in :
      pos k ≤ pos (cell s i) → pos (cell s i) < pos k + r.len → in_range r (cell s i) ≡ true
  inside-in l u =
      entry-spans k r s i e h b
      ∙ (rw (le→leb (pos k) (pos (cell s i)) l, lt→ltb (pos (cell s i)) (pos k + r.len) u))

  pub outside-below : pos (cell s i) < pos k → in_range r (cell s i) ≡ false
  outside-below l = entry-spans k r s i e h b ∙ (rw (lt→leb (pos k) (pos (cell s i)) l))

  pub outside-behind : pos k + r.len ≤ pos (cell s i) → in_range r (cell s i) ≡ false
  outside-behind l =
      entry-spans k r s i e h b
      ∙ (rw (
        le→leb (pos k) (pos (cell s i)) (omega arith),
        le→ltb (pos (cell s i)) (pos k + r.len) l,
      ))
