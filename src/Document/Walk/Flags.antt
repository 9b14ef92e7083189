-- ===== src/Document/Walk/Flags.antt =====
-- What the flags of a chunk promise: a cell that is not scanned for has nothing to be found.
use hxedit.Prelude.{
  ==→≡, ==→≢, Bool, Bool-cases, List, Option, [], ap, arith, false, if◌then◌else◌, inl, inr, lt→leb,
  none, not, refl, saturating_add, some, suc, sym, true, u64_max, zero, ℕ, ≢→==, ◌&&◌, ◌+◌, ◌-◌,
  ◌<◌, ◌==◌, ◌∙◌, ◌∷◌, ◌≡◌, ◌≤◌,
}
use hxedit.Cells.{CellId, PieceSource, add, cell, from_source, original, run, source_eq}
use hxedit.CellMap.{cell_lt, contains, get, is_nil, range}
use hxedit.ReplacementStore.{is_some, replacement_at}
use hxedit.ReplacementStore.Queries.{has_in_range, has_in_range_same_source}
use hxedit.ReplacementStore.Order.{any_range}
use hxedit.ReplacementStore.Keys.{overlapping_range_keys-touching}
use hxedit.ReplacementStore.Touching.{any_range-touching, touching}
use hxedit.ReplacementStore.Cleared.{IsDisjoint, replacement_at-any_range}
use hxedit.Document.{
  Document, has_replacements, has_tombstone_in_range, has_tombstones, is_tombstone,
}
use hxedit.Document.Covered.{any_cell, has_key, range-run, set_range-run}
use hxedit.Document.Walk.{overlay_flags}
use hxedit.Replacement.{ReplacementRange}

any_cell-run-false :
    (ask : CellId → Bool) (s : PieceSource) (a n i : ℕ)
    → any_cell ask (run s a n) ≡ false
    → a ≤ i
    → i < a + n
    → ask (cell s i) ≡ false
unfolding run
any_cell-run-false ask s a zero i h k l = absurd (omega arith)
any_cell-run-false ask s a (suc n) i h k l = elim (Bool-cases (a == i)) [
  | inl e ↦
      let here : ask (cell s a) ≡ false = (ground arith) in
      ap (λ x. ask (cell s x)) (sym (==→≡ a i e)) ∙ here
  | inr e ↦
      any_cell-run-false ask s (a + 1) n i (ground arith) (omega (arith, ==→≢ a i e)) (omega arith)
]

is_nil-get : {V : Type 0} (m : List (CellId × V)) (k : CellId) → is_nil m ≡ true → get k m ≡ none
unfolding get
is_nil-get [] k h = refl
is_nil-get (e ∷ m) k h = cc

is_nil-contains : (m : List CellId) (k : CellId) → is_nil m ≡ true → contains k m ≡ false
unfolding contains
is_nil-contains [] k h = refl
is_nil-contains (e ∷ m) k h = cc

is_nil-any_range :
    (m : List (CellId × ReplacementRange)) (k : CellId) → is_nil m ≡ true → any_range k m ≡ none
unfolding any_range
is_nil-any_range [] k h = refl
is_nil-any_range (e ∷ m) k h = cc

nil_of : {A : Type 0} (m : List A) → is_nil m ≡ true → m ≡ []
nil_of [] h = refl
nil_of (x ∷ m) h = cc

no_key : {V : Type 0} (o : Option V) → is_some o ≡ false → o ≡ none
no_key none h = refl
no_key (some v) h = cc

ordered :
    (s : PieceSource) (a n : ℕ)
    → 0 < n
    → cell_lt (from_source s (a + n - 1)) (from_source s a) ≡ false
ordered original a n h = ground arith
ordered add a n h = ground arith

own_source : (s : PieceSource) → source_eq s s ≡ true
own_source original = refl
own_source add = refl

module _ (d : Document) (s : PieceSource) (a n : ℕ) (filled : 0 < n) (fits : a + n ≤ u64_max) where
  abbrev last : CellId
  last = from_source s (a + n - 1)

  abbrev flags : Bool × Bool
  flags = overlay_flags d s a n

  not_empty : (n == 0) ≡ false
  not_empty = ≢→== n 0 (λ x. absurd (omega arith))

  pub no_tombstone :
      flags.0 ≡ false → (i : ℕ) → a ≤ i → i < a + n → is_tombstone d (cell s i) ≡ false
  unfolding overlay_flags
  no_tombstone h i k l =
      let off : (has_tombstones d && has_tombstone_in_range d (from_source s a) last) ≡ false =
        (rw not_empty at h) in
      elim (Bool-cases (is_nil d.tombstones)) [
        | inl e ↦ is_nil-contains d.tombstones (cell s i) e
        | inr e ↦
            let far : has_tombstone_in_range d (from_source s a) last ≡ false = (rw e at off) in
            any_cell-run-false (is_tombstone d) s a n i
              (sym (set_range-run s a n d.tombstones filled) ∙ far) k l
      ]

  -- No range overlaps the chunk when the search finds no key.
  pub no_range :
      IsDisjoint d.replacements
      → has_in_range_same_source d.replacements s a (a + n) ≡ false
      → (i : ℕ) → a ≤ i
      → i < a + n
      → any_range (cell s i) d.replacements.ranges ≡ none
  unfolding has_in_range_same_source IsDisjoint
  no_range w h i k l =
      let keys = overlapping_range_keys-touching d.replacements s a (a + n) (omega arith) fits w in
      let none_found : not (is_nil (touching s a (a + n) d.replacements.ranges)) ≡ false =
        (rw (lt→leb (a + n) a (omega arith), keys) at h) in
      any_range-touching s a (a + n) (omega arith) fits i 0 d.replacements.ranges k l w
        (nil_of (touching s a (a + n) d.replacements.ranges) (ground arith))

  -- Both tests of `has_in_range` have failed.
  parted :
      has_in_range d.replacements (from_source s a) last ≡ false
      → (not (is_nil (range (from_source s a) last d.replacements.sparse)) ≡ false)
        × (has_in_range_same_source d.replacements s a (saturating_add (a + n - 1) 1) ≡ false)
  unfolding has_in_range
  parted h =
      let found = not (is_nil (range (from_source s a) last d.replacements.sparse)) in
      let later : Bool =
        has_in_range_same_source d.replacements s a (saturating_add (a + n - 1) 1) in
      let both : (if found then true else later) ≡ false =
        (rw (ordered s a n filled, own_source s) at h) in
      elim (Bool-cases found) [
        | inl t ↦ let true_false : true ≡ false = (rw t at both) in absurd (cc)
        | inr t ↦ (t, rw t at both)
      ]

  pub no_replacement :
      IsDisjoint d.replacements
      → flags.1 ≡ false
      → (i base : ℕ) → a ≤ i
      → i < a + n
      → replacement_at d.replacements (cell s i) base ≡ none
  unfolding overlay_flags has_in_range
  no_replacement w h i base k l =
      let off : (has_replacements d && has_in_range d.replacements (from_source s a) last) ≡ false =
        (rw not_empty at h) in
      let m = d.replacements in
      elim (Bool-cases (is_nil m.sparse && is_nil m.ranges)) [
        | inl e ↦ rw (
          replacement_at-any_range m s i base w (omega arith),
          is_nil-get m.sparse (cell s i) (ground arith),
          is_nil-any_range m.ranges (cell s i) (ground arith),
        )
        | inr e ↦
            let far : has_in_range m (from_source s a) last ≡ false = (rw e at off) in
            let tests = parted far in
            let end : saturating_add (a + n - 1) 1 ≡ a + n = omega arith in
            let free = no_range w (ap (has_in_range_same_source m s a) (sym end) ∙ tests.1) i k l in
            let bare = no_key (get (cell s i) m.sparse) (
              any_cell-run-false (has_key m.sparse) s a n i
                (sym (range-run s a n m.sparse filled) ∙ tests.0) k l) in
            rw (replacement_at-any_range m s i base w (omega arith), bare, free)
      ]
