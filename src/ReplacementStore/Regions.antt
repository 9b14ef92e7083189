-- ===== src/ReplacementStore/Regions.antt =====
-- Taking ranges out of an ordered map and putting disjoint ones in: the order, and which range a cell
-- has.
use hxedit.Prelude.{
  Bool-cases, List, [], ap, arith, if◌then◌else◌, inl, inr, none, refl, some, subst, u64_max,
  u64_mod, ℕ, ◌+◌, ◌<◌, ◌∷◌, ◌≡◌, ◌≤◌, ◌⊎◌,
}
use hxedit.Cells.{CellId, PieceSource, cell, cell_offset}
use hxedit.CellMap.{cell_eq, cell_lt, get, insert, remove}
use hxedit.CellMap.Laws.{cell_eq→≡}
use hxedit.Replacement.{ReplacementRange, in_range}
use hxedit.ReplacementStore.Order.{
  Ordered, Ordered-mono, any_range, any_range-below, inside-bounds, outside-below, pos,
}
use Prim.{Unit, tt}

-- What the order says of an entry.
pub record Entry (lo : ℕ) (k : CellId) (r : ReplacementRange) : Type 0 where
  pub keyed : r.start ≡ k
  pub above : lo ≤ pos k
  pub filled : 0 < r.len
  pub bounded : cell_offset k + r.len ≤ u64_max

pub get-Entry :
    (k : CellId) (r : ReplacementRange) (lo : ℕ) (m : List (CellId × ReplacementRange))
    → Ordered lo m
    → get k m ≡ some r
    → Entry lo k r
unfolding get Ordered
get-Entry k r lo [] o h = cc
get-Entry k r lo ((j, q) ∷ m) (e, l, n, f, o) h = elim (Bool-cases (cell_eq j k)) [
  | inl c ↦
      let here : some q ≡ some r = (rw c at h) in
      let same : q ≡ r = (cc) in
      subst (Entry lo k) same (
        subst (λ x. Entry lo x q) (cell_eq→≡ j k c)
          (record { keyed = e; above = l; filled = n; bounded = f }))
  | inr c ↦
      let w = get-Entry k r (pos j + q.len) m o (rw c at h) in
      record {
        keyed = w.keyed;
        above = omega (arith, w.above);
        filled = w.filled;
        bounded = w.bounded;
      }
]

-- A key below the map's start is not in it.
pub get-below :
    (k : CellId) (lo : ℕ) (m : List (CellId × ReplacementRange))
    → Ordered lo m
    → pos k < lo
    → get k m ≡ none
unfolding get Ordered
get-below k lo [] o h = refl
get-below k lo ((j, q) ∷ m) (e, l, n, f, o) h = elim (Bool-cases (cell_eq j k)) [
  | inl c ↦ absurd (omega (arith, ap pos (cell_eq→≡ j k c)))
  | inr c ↦ rw c (get-below k (pos j + q.len) m o (omega arith))
]

pub remove-below :
    (k : CellId) (lo : ℕ) (m : List (CellId × ReplacementRange))
    → Ordered lo m
    → pos k < lo
    → remove k m ≡ m
unfolding remove Ordered
remove-below k lo [] o h = refl
remove-below k lo ((j, q) ∷ m) (e, l, n, f, o) h = elim (Bool-cases (cell_eq j k)) [
  | inl c ↦ absurd (omega (arith, ap pos (cell_eq→≡ j k c)))
  | inr c ↦ rw c (ap ((j, q) ∷◌) (remove-below k (pos j + q.len) m o (omega arith)))
]

pub remove-Ordered :
    (k : CellId) (lo : ℕ) (m : List (CellId × ReplacementRange))
    → Ordered lo m
    → Ordered lo (remove k m)
unfolding remove Ordered
remove-Ordered k lo [] o = tt
remove-Ordered k lo ((j, q) ∷ m) (e, l, n, f, o) = elim (Bool-cases (cell_eq j k)) [
  | inl c ↦ rw c (
      Ordered-mono (pos j + q.len) lo (remove k m) (omega arith)
        (remove-Ordered k (pos j + q.len) m o))
  | inr c ↦ rw c (e, l, n, f, remove-Ordered k (pos j + q.len) m o)
]

-- Without the entry under `k`, its cells have no range.
pub any_range-remove :
    (s : PieceSource) (i : ℕ) (k : CellId) (r : ReplacementRange) (lo : ℕ)
    (m : List (CellId × ReplacementRange))
    → Ordered lo m
    → i < u64_mod
    → get k m ≡ some r
    → any_range (cell s i) (remove k m)
      ≡ (if in_range r (cell s i) then none else any_range (cell s i) m)
unfolding any_range remove get Ordered
any_range-remove s i k r lo [] o b h = cc
any_range-remove s i k r lo ((j, q) ∷ m) (e, l, n, f, o) b h = elim (Bool-cases (cell_eq j k)) [
  | inl c ↦
      let here : some q ≡ some r = (rw c at h) in
      let same : q ≡ r = (cc) in
      let gone : remove k m ≡ m =
        remove-below k (pos j + q.len) m o (omega (arith, ap pos (cell_eq→≡ j k c))) in
      elim (Bool-cases (in_range q (cell s i))) [
        | inl d ↦
            rw (c, gone, ← same, d)
              (any_range-below s i (pos j + q.len) m o b (inside-bounds j q s i e f b d).1)
        | inr d ↦ rw (c, gone, ← same, d)
      ]
  | inr c ↦
      let kept : get k m ≡ some r = (rw c at h) in
      let w = get-Entry k r (pos j + q.len) m o kept in
      elim (Bool-cases (in_range q (cell s i))) [
        | inl d ↦
            let t = inside-bounds j q s i e f b d in
            rw (c, d, outside-below k r s i w.keyed w.bounded b (omega (arith, w.above, t)))
        | inr d ↦ rw (c, d) (any_range-remove s i k r (pos j + q.len) m o b kept)
      ]
]

-- No range has a cell of the `n` from `a` on.
unfoldable pub Free : ℕ → ℕ → List (CellId × ReplacementRange) → Type 0
Free a n [] = Unit
Free a n ((k, r) ∷ m) = ((pos k + r.len ≤ a) ⊎ (a + n ≤ pos k)) × Free a n m

pub Free-part :
    (a n a' n' : ℕ) (m : List (CellId × ReplacementRange))
    → a ≤ a'
    → a' + n' ≤ a + n
    → Free a n m
    → Free a' n' m
unfolding Free
Free-part a n a' n' [] h k u = tt
Free-part a n a' n' ((j, q) ∷ m) h k (inl l, u) = (inl (omega arith), Free-part a n a' n' m h k u)
Free-part a n a' n' ((j, q) ∷ m) h k (inr l, u) = (inr (omega arith), Free-part a n a' n' m h k u)

Free-above :
    (a n lo : ℕ) (m : List (CellId × ReplacementRange)) → Ordered lo m → a + n ≤ lo → Free a n m
unfolding Free Ordered
Free-above a n lo [] o h = tt
Free-above a n lo ((j, q) ∷ m) (e, l, p, f, o) h =
    (inr (omega arith), Free-above a n (pos j + q.len) m o (omega arith))

-- Where an entry was.
pub remove-Free :
    (k : CellId) (r : ReplacementRange) (lo : ℕ) (m : List (CellId × ReplacementRange))
    → Ordered lo m
    → get k m ≡ some r
    → Free (pos k) r.len (remove k m)
unfolding Free Ordered get remove
remove-Free k r lo [] o h = cc
remove-Free k r lo ((j, q) ∷ m) (e, l, p, f, o) h = elim (Bool-cases (cell_eq j k)) [
  | inl c ↦
      let here : some q ≡ some r = (rw c at h) in
      let same : q ≡ r = (cc) in
      let at : pos j ≡ pos k = ap pos (cell_eq→≡ j k c) in
      rw (c, remove-below k (pos j + q.len) m o (omega arith))
        (Free-above (pos k) r.len (pos j + q.len) m o
          (omega (arith, at, ap (λ (x : ReplacementRange). x.len) same)))
  | inr c ↦
      let kept : get k m ≡ some r = (rw c at h) in
      let w = get-Entry k r (pos j + q.len) m o kept in
      rw c (inl w.above, remove-Free k r (pos j + q.len) m o kept)
]

pub insert-Free :
    (a n : ℕ) (k : CellId) (r : ReplacementRange) (m : List (CellId × ReplacementRange))
    → (pos k + r.len ≤ a) ⊎ (a + n ≤ pos k)
    → Free a n m
    → Free a n (insert k r m)
unfolding Free insert
insert-Free a n k r [] h u = (h, tt)
insert-Free a n k r ((j, q) ∷ m) h u = elim (Bool-cases (cell_eq j k)) [
  | inl c ↦ rw c (h, u.1)
  | inr c ↦ elim (Bool-cases (cell_lt k j)) [
    | inl d ↦ rw (c, d) (h, u)
    | inr d ↦ rw (c, d) (u.0, insert-Free a n k r m h u.1)
  ]
]

-- A key where no range is.
pub get-Free :
    (k : CellId) (n lo : ℕ) (m : List (CellId × ReplacementRange))
    → 0 < n
    → Ordered lo m
    → Free (pos k) n m
    → get k m ≡ none
unfolding Free Ordered get
get-Free k n lo [] h o u = refl
get-Free k n lo ((j, q) ∷ m) h (e, l, p, f, o) (x, u) = elim (Bool-cases (cell_eq j k)) [
  | inr c ↦ rw c (get-Free k n (pos j + q.len) m h o u)
  | inl c ↦
      let same = ap pos (cell_eq→≡ j k c) in
      elim x [ inl y ↦ absurd (omega arith) | inr y ↦ absurd (omega arith) ]
]
