-- ===== src/Document/Walk/Sparse.antt =====
-- The merge of a chunk with the replacements of single cells in it: each byte, or the value put in
-- its place.
use hxedit.Prelude.{
  ==→≡, Bool-cases, List, Option, [], ap, arith, drop, drop-drop, false, if◌then◌else◌, inl, inr,
  leb, length, length-drop, le→ltb, ltb, ltb→le, none, refl, some, subst, suc, sym, take, true,
  zero, ℕ, ≡→==, ≢→==, ◌&&◌, ◌++◌, ◌+◌, ◌-◌, ◌<◌, ◌==◌, ◌∙◌, ◌∷◌, ◌≡◌, ◌≤◌, ◌⊎◌,
}
use hxedit.Replacement.{SparseReplacement, clear, value}
use hxedit.Cells.{CellId, PieceSource, cell, from_source, source_eq}
use hxedit.CellMap.{cell_eq, get, range}
use hxedit.ReplacementStore.Order.{pos, source_base}
use hxedit.ReplacementStore.Queries.{values_of}
use hxedit.Document.Covered.{within_bounds}
use hxedit.Document.{or_base}
use hxedit.Document.Walk.{sparse_bytes}
use hxedit.ReplacementStore.SparseOrder.{Sorted}
use hxedit.ReplacementStore.Sources.{same-base}
use Prim.{Unit, tt}

-- The offsets rise from `c` on and lie before `end`.
unfoldable pub Rising : ℕ → ℕ → List (ℕ × ℕ) → Type 0
Rising c end [] = Unit
Rising c end ((o, v) ∷ rs) = (c ≤ o) × (o < end) × Rising (o + 1) end rs

unfoldable pub value_for : ℕ → List (ℕ × ℕ) → Option ℕ
value_for i [] = none
value_for i ((o, v) ∷ rs) = if o == i then some v else value_for i rs

-- The bytes from the cell `c` on, with the values in their places.
unfoldable pub replaced : ℕ → List ℕ → List (ℕ × ℕ) → List ℕ
replaced c [] rs = []
replaced c (b ∷ bs) rs = or_base (value_for c rs) b ∷ replaced (c + 1) bs rs

value_for-before :
    (i c end : ℕ) (rs : List (ℕ × ℕ)) → i < c → Rising c end rs → value_for i rs ≡ none
unfolding Rising value_for
value_for-before i c end [] h r = refl
value_for-before i c end ((o, v) ∷ rs) h (k, l, r) =
    rw (≢→== o i (λ x. absurd (omega arith))) (value_for-before i (o + 1) end rs (omega arith) r)

replaced-none : (c : ℕ) (bs : List ℕ) → replaced c bs [] ≡ bs
unfolding replaced value_for
replaced-none c [] = refl
replaced-none c (b ∷ bs) = ap (b ∷◌) (replaced-none (c + 1) bs)

-- A value before the bytes has no effect.
replaced-behind :
    (o v c : ℕ) (bs : List ℕ) (rs : List (ℕ × ℕ))
    → o < c
    → replaced c bs ((o, v) ∷ rs) ≡ replaced c bs rs
unfolding replaced value_for
replaced-behind o v c [] rs h = refl
replaced-behind o v c (b ∷ bs) rs h =
    rw (≢→== o c (λ x. absurd (omega arith)))
      (ap (or_base (value_for c rs) b ∷◌) (replaced-behind o v (c + 1) bs rs (omega arith)))

-- Up to the first value the bytes stay.
replaced-next :
    (k v c o end : ℕ) (bs : List ℕ) (rs : List (ℕ × ℕ))
    → k < length bs
    → o ≡ c + k
    → Rising (o + 1) end rs
    → replaced c bs ((o, v) ∷ rs) ≡ take k bs ++ v ∷ replaced (o + 1) (drop (suc k) bs) rs
unfolding replaced value_for
replaced-next k v c o end [] rs h e r = absurd (omega arith)
replaced-next zero v c o end (b ∷ bs) rs h e r = rw (≡→== o c (omega arith)) (
    ap (v ∷◌)
      (replaced-behind o v (c + 1) bs rs (omega arith) ∙ ap (λ x. replaced x bs rs) (omega arith)))
replaced-next (suc k) v c o end (b ∷ bs) rs h e r =
    rw (≢→== o c (λ x. absurd (omega arith)), value_for-before c (o + 1) end rs (omega arith) r)
      (ap (b ∷◌) (replaced-next k v (c + 1) o end bs rs (omega arith) (omega arith) r))

guarded_take :
    (cursor idx : ℕ) (xs : List ℕ)
    → (if ltb cursor idx then take (idx - cursor) xs else []) ≡ take (idx - cursor) xs
guarded_take cursor idx xs = elim (Bool-cases (ltb cursor idx)) [
  | inl c ↦ rw c
  | inr c ↦ rw c (ap (λ n. take n xs) {x = 0} {y = idx - cursor} (omega (arith, ltb→le _ _ c)))
]

-- The merge puts every value in its place.
pub sparse_bytes-replaced :
    (a : ℕ) (raw : List ℕ) (cursor : ℕ) (rs : List (ℕ × ℕ))
    → Rising (a + cursor) (a + length raw) rs
    → sparse_bytes a raw cursor rs ≡ replaced (a + cursor) (drop cursor raw) rs
unfolding sparse_bytes Rising
sparse_bytes-replaced a raw cursor [] r = sym (replaced-none (a + cursor) (drop cursor raw))
sparse_bytes-replaced a raw cursor ((o, v) ∷ rs) (k, l, r) =
    let idx = o - a in
    let later =
      sparse_bytes-replaced a raw (idx + 1) rs
        (subst (λ x. Rising x (a + length raw) rs) (omega arith) r) in
    let here =
      replaced-next (idx - cursor) v (a + cursor) o (a + length raw) (drop cursor raw) rs
        (omega (arith, length-drop cursor raw)) (omega arith) r in
    let front = guarded_take cursor idx (drop cursor raw) in
    let behind : replaced (a + (idx + 1)) (drop (idx + 1) raw) rs
        ≡ replaced (o + 1) (drop (suc (idx - cursor)) (drop cursor raw)) rs =
      ap (λ x. replaced x (drop (idx + 1) raw) rs) (omega arith)
      ∙ ap (λ ys. replaced (o + 1) ys rs)
          (sym (drop-drop (suc (idx - cursor)) cursor (idx + 1) raw (omega arith))) in
    rw (le→ltb (length raw) idx (omega arith), front)
      (ap (λ x. take (idx - cursor) (drop cursor raw) ++ v ∷ x) (later ∙ behind) ∙ sym here)

abbrev pub own_value : Option SparseReplacement → Option ℕ
own_value none = none
own_value (some clear) = none
own_value (some (value v)) = some v

module _ (source : PieceSource) (a n : ℕ) (filled : 0 < n) where
  abbrev pub entries : List (CellId × SparseReplacement) → List (CellId × SparseReplacement)
  entries m = range (from_source source a) (from_source source (a + n - 1)) m

  later_start :
      (c lo lo' : ℕ)
      → lo ≤ lo'
      → (c ≤ a) ⊎ (source_base source + c ≤ lo)
      → (c ≤ a) ⊎ (source_base source + c ≤ lo')
  later_start c lo lo' l (inl h) = inl h
  later_start c lo lo' l (inr h) = inr (omega arith)

  pub values_of-Rising :
      (c lo : ℕ) (m : List (CellId × SparseReplacement))
      → Sorted lo m
      → (c ≤ a) ⊎ (source_base source + c ≤ lo)
      → Rising c (a + n) (values_of source (entries m))
  unfolding values_of range Sorted Rising
  values_of-Rising c lo [] t h = tt
  values_of-Rising c lo ((cell u b, v) ∷ m) (l, f, t) h =
      let inside = source_eq u source && (leb a b && ltb b (a + n)) in
      let bounds = within_bounds source u a n b filled in
      let later =
        values_of-Rising c (suc (pos (cell u b))) m t
          (later_start c lo (suc (pos (cell u b))) (omega arith) h) in
      elim (Bool-cases inside) [
        | inr e ↦ rw (bounds, e) later
        | inl e ↦
            let owned : source_eq u source ≡ true = (ground arith) in
            let at = same-base source u owned in
            let next = values_of-Rising (b + 1) (suc (pos (cell u b))) m t (inr (omega arith)) in
            let first : a ≤ b = (ground arith) in
            let before : b < a + n = (ground arith) in
            let low : c ≤ b = elim h [ inl x ↦ omega arith | inr x ↦ omega arith ] in
            elim v as (λ w. Rising c (a + n) (values_of source (entries ((cell u b, w) ∷ m)))) [
              | clear ↦ rw (bounds, e) later
              | value x ↦ rw (bounds, e, owned) (low, before, next)
            ]
      ]

  -- The list of values has the one of each cell of its own.
  pub value_for-values_of :
      (i lo : ℕ) (m : List (CellId × SparseReplacement))
      → Sorted lo m
      → a ≤ i
      → i < a + n
      → value_for i (values_of source (entries m)) ≡ own_value (get (cell source i) m)
  unfolding values_of range Sorted value_for get
  value_for-values_of i lo [] t k l = refl
  value_for-values_of i lo ((cell u b, v) ∷ m) (y, f, t) k l =
      let inside = source_eq u source && (leb a b && ltb b (a + n)) in
      let bounds = within_bounds source u a n b filled in
      let later = value_for-values_of i (suc (pos (cell u b))) m t k l in
      elim (Bool-cases inside) [
        | inr e ↦
            let other : cell_eq (cell u b) (cell source i) ≡ false = (ground arith) in
            rw (bounds, e, other) later
        | inl e ↦
            let owned : source_eq u source ≡ true = (ground arith) in
            let at = same-base source u owned in
            elim (Bool-cases (b == i)) [
              | inr g ↦
                  elim v
                    as (λ w.
                      value_for i (values_of source (entries ((cell u b, w) ∷ m)))
                      ≡ own_value (get (cell source i) ((cell u b, w) ∷ m))) [
                        | clear ↦ rw (bounds, e, owned, g) later
                        | value x ↦ rw (bounds, e, owned, g) later
                      ]
              | inl g ↦
                  elim v
                    as (λ w.
                      value_for i (values_of source (entries ((cell u b, w) ∷ m)))
                      ≡ own_value (get (cell source i) ((cell u b, w) ∷ m))) [
                        | value x ↦ rw (bounds, e, owned, g)
                        | clear ↦
                            let rising =
                              values_of-Rising (b + 1) (suc (pos (cell u b))) m t
                                (inr (omega arith)) in
                            rw (bounds, e, owned, g)
                              (value_for-before i (b + 1) (a + n) (values_of source (entries m))
                                (omega (arith, ==→≡ b i g)) rising)
                      ]
            ]
      ]
