-- ===== src/Document/Walk/Chunk.antt =====
-- What the walk makes of a chunk, on each of its paths: the bytes that its cells show.
use hxedit.Prelude.{
  Bool, Bool-cases, List, Option, [], ap, arith, false, if◌then◌else◌, inl, inr, length, map, none,
  not, refl, saturating_add, some, subst, suc, sym, true, u64_max, zero, ℕ, ≢→==, ◌&&◌, ◌+◌, ◌<◌,
  ◌∙◌, ◌∷◌, ◌≡◌, ◌≤◌,
}
use hxedit.Cells.{CellId, PieceSource, cell, run}
use hxedit.CellMap.{get}
use hxedit.ReplacementStore.{range_value, replacement_at, sparse_or}
use hxedit.ReplacementStore.Queries.{
  has_in_range_same_source, has_range_in_source_range, sparse_values_in_source_range, values_of,
}
use hxedit.ReplacementStore.Cleared.{IsDisjoint, replacement_at-any_range}
use hxedit.Document.{ByteSlot, Document, deleted, empty, is_tombstone, or_base, present}
use hxedit.Document.Display.{base_of, slot}
use hxedit.Document.Walk.{cell_bytes, chunk_bytes, is_fast, overlay_flags, sparse_bytes}
use hxedit.Document.Walk.Flags.{no_range, no_replacement, no_tombstone}
use hxedit.Document.Walk.Sparse.{
  Rising, entries, own_value, replaced, sparse_bytes-replaced, value_for, value_for-values_of,
  values_of-Rising,
}
use hxedit.Replacement.{SparseReplacement, clear, value}
use hxedit.ReplacementStore.SparseOrder.{Sorted}

-- The bytes of the slots that are not deleted.
unfoldable pub present_bytes : List ByteSlot → List ℕ
present_bytes [] = []
present_bytes (present v ∷ xs) = v ∷ present_bytes xs
present_bytes (deleted ∷ xs) = present_bytes xs
present_bytes (empty ∷ xs) = present_bytes xs

abbrev pub shown_bytes : Document → List CellId → List ℕ
shown_bytes d cs = present_bytes (map (slot d) cs)

abbrev pub bases : Document → PieceSource → ℕ → ℕ → List ℕ
bases d s a n = map (base_of d) (run s a n)

module _ (d : Document) (s : PieceSource) where
  -- Without a scan there is nothing to be found.
  abbrev pub Untouched : Bool → ℕ → ℕ → Type 0
  Untouched t a n = t ≡ false → (i : ℕ) → a ≤ i → i < a + n → is_tombstone d (cell s i) ≡ false

  abbrev pub Unreplaced : Bool → ℕ → ℕ → Type 0
  Unreplaced r a n =
      r ≡ false
      → (i base : ℕ) → a ≤ i
      → i < a + n
      → replacement_at d.replacements (cell s i) base ≡ none

  cell_bytes-shown_bytes :
      (t r : Bool) (a n : ℕ)
      → Untouched t a n
      → Unreplaced r a n
      → cell_bytes d s t r a (bases d s a n) ≡ shown_bytes d (run s a n)
  unfolding cell_bytes present_bytes run slot
  cell_bytes-shown_bytes t r a zero no_t no_r = refl
  cell_bytes-shown_bytes t r a (suc n) no_t no_r =
      let later =
        cell_bytes-shown_bytes t r (a + 1) n (λ e i k l. no_t e i (omega arith) (omega arith))
          (λ e i base k l. no_r e i base (omega arith) (omega arith)) in
      let base = base_of d (cell s a) in
      let kept : (if r then or_base (replacement_at d.replacements (cell s a) base) base else base)
          ≡ or_base (replacement_at d.replacements (cell s a) base) base =
        elim (Bool-cases r) [
          | inl e ↦ rw e
          | inr e ↦ rw (e, no_r e a base (omega arith) (omega arith))
        ] in
      elim (Bool-cases (is_tombstone d (cell s a))) [
        | inl e ↦ elim (Bool-cases t) [
          | inl f ↦ rw (f, e) later
          | inr f ↦
              let false_true : false ≡ true = sym (no_t f a (omega arith) (omega arith)) ∙ e in cc
        ]
        | inr e ↦
            let passed : (t && is_tombstone d (cell s a)) ≡ false = (ground arith) in
            rw (passed, e, kept)
              (ap (or_base (replacement_at d.replacements (cell s a) base) base ∷◌) later)
      ]

  unscanned : (a : ℕ) (xs : List ℕ) → cell_bytes d s false false a xs ≡ xs
  unfolding cell_bytes
  unscanned a [] = refl
  unscanned a (x ∷ xs) = ap (x ∷◌) (unscanned (a + 1) xs)

  replaced-shown_bytes :
      (a n : ℕ) (rs : List (ℕ × ℕ))
      → ((i : ℕ) → a ≤ i → i < a + n → is_tombstone d (cell s i) ≡ false)
      → ((i base : ℕ)
          → a ≤ i
          → i < a + n
          → or_base (value_for i rs) base
            ≡ or_base (replacement_at d.replacements (cell s i) base) base)
      → replaced a (bases d s a n) rs ≡ shown_bytes d (run s a n)
  unfolding replaced present_bytes run slot
  replaced-shown_bytes a zero rs no_t same = refl
  replaced-shown_bytes a (suc n) rs no_t same =
      rw
        (
          no_t a (omega arith) (omega arith),
          same a (base_of d (cell s a)) (omega arith) (omega arith),
        )
        (ap
          (or_base (replacement_at d.replacements (cell s a) (base_of d (cell s a)))
            (base_of d (cell s a)) ∷◌)
          (replaced-shown_bytes (a + 1) n rs (λ i k l. no_t i (omega arith) (omega arith))
            (λ i base k l. same i base (omega arith) (omega arith))))

pub length-bases : (d : Document) (s : PieceSource) (a n : ℕ) → length (bases d s a n) ≡ n
unfolding run
length-bases d s a zero = refl
length-bases d s a (suc n) = ap suc (length-bases d s (a + 1) n)

own_value-sparse_or :
    (o : Option SparseReplacement) (base : ℕ)
    → or_base (own_value o) base ≡ or_base (sparse_or o none) base
own_value-sparse_or none base = refl
own_value-sparse_or (some clear) base = refl
own_value-sparse_or (some (value v)) base = refl

module _ (d : Document) (s : PieceSource) (a n : ℕ) (filled : 0 < n) (fits : a + n ≤ u64_max)
    (w : IsDisjoint d.replacements) (t : Sorted 0 d.replacements.sparse) where
  abbrev raw : List ℕ
  raw = bases d s a n

  abbrev flags : Bool × Bool
  flags = overlay_flags d s a n

  by_cells : cell_bytes d s flags.0 flags.1 a raw ≡ shown_bytes d (run s a n)
  by_cells =
      cell_bytes-shown_bytes d s flags.0 flags.1 a n (no_tombstone d s a n filled fits)
        (no_replacement d s a n filled fits w)

  values-eq :
      sparse_values_in_source_range d.replacements s a n
      ≡ values_of s (entries s a n filled d.replacements.sparse)
  unfolding sparse_values_in_source_range
  values-eq =
      let end : saturating_add a n ≡ a + n = omega arith in
      rw (≢→== n 0 (λ x. absurd (omega arith)), end)

  by_values :
      flags.0 ≡ false
      → has_range_in_source_range d.replacements s a n ≡ false
      → sparse_bytes a raw 0 (sparse_values_in_source_range d.replacements s a n)
        ≡ shown_bytes d (run s a n)
  unfolding has_range_in_source_range
  by_values no_t no_r =
      let m = d.replacements.sparse in
      let rs = values_of s (entries s a n filled m) in
      let end : saturating_add a n ≡ a + n = omega arith in
      let far : has_in_range_same_source d.replacements s a (a + n) ≡ false =
        (rw (≢→== n 0 (λ x. absurd (omega arith)), end) at no_r) in
      let rising : Rising (a + 0) (a + length raw) rs =
        subst (λ x. Rising (a + 0) (a + x) rs) (sym (length-bases d s a n))
          (values_of-Rising s a n filled (a + 0) 0 m t (inl (omega arith))) in
      rw values-eq (
        sparse_bytes-replaced a raw 0 rs rising
        ∙ ap (λ x. replaced x raw rs) (omega arith)
        ∙ replaced-shown_bytes d s a n rs (no_tombstone d s a n filled fits no_t) (λ i base k l.
          ap (λ o. or_base o base) (value_for-values_of s a n filled i 0 m t k l)
          ∙ own_value-sparse_or (get (cell s i) m) base
          ∙ ap (λ o. or_base o base)
              (sym (
                replacement_at-any_range d.replacements s i base w (omega arith)
                ∙ ap (λ r. sparse_or (get (cell s i) m) (range_value (cell s i) base r))
                    (no_range d s a n filled fits w far i k l)))))

  -- The visitor gets the bytes that the chunk's cells show, on whichever path.
  pub chunk_bytes-shown_bytes : chunk_bytes d s a raw ≡ shown_bytes d (run s a n)
  unfolding chunk_bytes
  chunk_bytes-shown_bytes = rw (length-bases d s a n) (elim (Bool-cases (is_fast flags)) [
    | inl f ↦
        let no_t : flags.0 ≡ false = (ground arith) in
        let no_r : flags.1 ≡ false = (ground arith) in
        let all : cell_bytes d s false false a raw ≡ shown_bytes d (run s a n) =
          (rw (no_t, no_r) at by_cells) in
        rw f (sym (unscanned d s a raw) ∙ all)
    | inr f ↦
        let merged =
          flags.1
          && not flags.0
          && not (flags.1 && has_range_in_source_range d.replacements s a n) in
        elim (Bool-cases merged) [
          | inr e ↦ rw (f, e) by_cells
          | inl e ↦ rw (f, e) (by_values (ground arith) (ground arith))
        ]
  ])
