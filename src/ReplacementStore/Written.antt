-- ===== src/ReplacementStore/Written.antt =====
-- `clear_source_range`, `set_pattern_range`, `set_xor_range` and `set_bytes_range`: what every cell
-- reads afterwards, and that the ranges stay disjoint.
use Prim.Native.Nat.{bit_xor, ◌%◌}
use native.Mathlib.Nat.{add-mod}
use hxedit.Prelude.{
  Bool-cases, List, ap, arith, false, get_or, if◌then◌else◌, inl, inr, leb, length, ltb, none, refl,
  some, subst, suc, sym, u64_max, u64_mod, zero, ℕ, ≢→==, ◌%◌, ◌&&◌, ◌+◌, ◌-◌, ◌<◌, ◌==◌, ◌∙◌, ◌∷◌,
  ◌≡◌, ◌≤◌,
}
use hxedit.Cells.{PieceSource, cell, source_eq}
use hxedit.Replacement.{RangeReplacement, bytes, in_range, pattern, value_from, xor}
use hxedit.ReplacementStore.{
  ReplacementStore, clear_source_range, in_source_range, put_range, replacement_at, set_bytes_range,
  set_pattern_range, set_xor_range,
}
use hxedit.ReplacementStore.Order.{pos}
use hxedit.ReplacementStore.Cleared.{
  IsDisjoint, cleared, get-left_over, grows, replacement_at-any_range, replacement_at-left_over,
}
use hxedit.ReplacementStore.Touching.{touching-Free}
use hxedit.ReplacementStore.Insertion.{any_range-insert, insert-Ordered}
use hxedit.ReplacementStore.Regions.{Free}
use hxedit.ReplacementStore.Cut.{from_to}

not_empty : (n : ℕ) → (suc n == 0) ≡ false
not_empty n = ≢→== (suc n) 0 (λ x. absurd (omega arith))

empty-window :
    (u source : PieceSource) (i start : ℕ)
    → in_source_range (cell u i) source start (start + 0) ≡ false
empty-window u source i start = ground arith

-- Behind `clear_source_range` a cell of the window has no replacement, and every other cell has the
-- one it had, also where a range was cut in two.
pub replacement_at-clear_source_range :
    (source : PieceSource) (start len : ℕ) (s : ReplacementStore) (u : PieceSource) (i base : ℕ)
    → start + len ≤ u64_max
    → i < u64_mod
    → IsDisjoint s
    → replacement_at (clear_source_range source start len s) (cell u i) base ≡ (
        if in_source_range (cell u i) source start (start + len)
        then none
        else replacement_at s (cell u i) base)
unfolding clear_source_range
replacement_at-clear_source_range source start zero s u i base f b w =
    rw (empty-window u source i start)
replacement_at-clear_source_range source start (suc n) s u i base f b w =
    replacement_at-left_over source start (suc n) s f (omega arith) w u i base b

pub clear_source_range-IsDisjoint :
    (source : PieceSource) (start len : ℕ) (s : ReplacementStore)
    → start + len ≤ u64_max
    → IsDisjoint s
    → IsDisjoint (clear_source_range source start len s)
unfolding IsDisjoint
clear_source_range-IsDisjoint source start zero s f w = (unfold clear_source_range in w)
clear_source_range-IsDisjoint source start (suc n) s f w =
    (cleared source start (suc n) s f (omega arith) w).order

module _ (source : PieceSource) (start len : ℕ) (s : ReplacementStore)
    (fits : start + len ≤ u64_max) (filled : 0 < len) (w : IsDisjoint s)
    (v : RangeReplacement) where
  abbrev room : ReplacementStore
  room = clear_source_range source start len s

  abbrev written : ReplacementStore
  written = put_range source start len v room

  room-Free : Free (pos (cell source start)) len room.ranges
  room-Free =
      let left = cleared source start len s fits filled w in
      subst (λ n. Free (pos (cell source start)) n room.ranges) (omega arith)
        (touching-Free source start (start + len) (grows source start len s fits filled w) fits 0
          room.ranges left.order left.overlapping)

  pub written-IsDisjoint : IsDisjoint written
  unfolding IsDisjoint
  written-IsDisjoint =
      insert-Ordered source start (from_to source start len v) refl filled fits 0 room.ranges
        (omega arith) room-Free (clear_source_range-IsDisjoint source start len s fits w)

  pub replacement_at-written :
      (u : PieceSource) (i base : ℕ)
      → i < u64_mod
      → replacement_at written (cell u i) base ≡ (
          if in_source_range (cell u i) source start (start + len)
          then some (value_from v (i - start) base)
          else replacement_at s (cell u i) base)
  unfolding IsDisjoint
  replacement_at-written u i base b =
      let whole = from_to source start len v in
      let valid = clear_source_range-IsDisjoint source start len s fits w in
      let after = replacement_at-clear_source_range source start len s u i base fits b w in
      let found =
        any_range-insert source start whole refl filled fits u i 0 room.ranges b room-Free valid in
      let same : in_range whole (cell u i) ≡ in_source_range (cell u i) source start (start + len) =
        ap (λ e. source_eq u source && (leb start i && ltb i e)) (omega arith) in
      let blank = get-left_over source start len s fits filled w (cell u i) in
      rw (replacement_at-any_range written u i base written-IsDisjoint b, found, same)
        (elim (Bool-cases (in_source_range (cell u i) source start (start + len))) [
          | inl d ↦ rw (blank, d)
          | inr d ↦ rw d (sym (replacement_at-any_range room u i base valid b) ∙ after ∙ (rw d))
        ])

-- A pattern repeats over the window from its phase on.
pub replacement_at-set_pattern_range :
    (source : PieceSource) (start len : ℕ) (b : ℕ) (bs : List ℕ) (phase : ℕ) (s : ReplacementStore)
    (u : PieceSource) (i base : ℕ)
    → start + len ≤ u64_max
    → i < u64_mod
    → IsDisjoint s
    → replacement_at (set_pattern_range source start len (b ∷ bs) phase s) (cell u i) base ≡ (
        if in_source_range (cell u i) source start (start + len)
        then some (get_or (b ∷ bs) ((phase + (i - start)) % suc (length bs)) 0)
        else replacement_at s (cell u i) base)
unfolding set_pattern_range value_from
replacement_at-set_pattern_range source start zero b bs phase s u i base f h w =
    rw (empty-window u source i start)
replacement_at-set_pattern_range source start (suc n) b bs phase s u i base f h w =
    rw (not_empty n, add-mod phase (i - start) (suc (length bs)))
      (replacement_at-written source start (suc n) s f (omega arith) w (pattern (b ∷ bs) phase) u i
        base h)

-- An XOR key is applied to the base of every cell of the window.
pub replacement_at-set_xor_range :
    (source : PieceSource) (start len key : ℕ) (s : ReplacementStore) (u : PieceSource) (i base : ℕ)
    → start + len ≤ u64_max
    → 0 < key
    → i < u64_mod
    → IsDisjoint s
    → replacement_at (set_xor_range source start len key s) (cell u i) base ≡ (
        if in_source_range (cell u i) source start (start + len)
        then some (bit_xor base key)
        else replacement_at s (cell u i) base)
unfolding set_xor_range value_from
replacement_at-set_xor_range source start zero key s u i base f k h w =
    rw (empty-window u source i start)
replacement_at-set_xor_range source start (suc n) key s u i base f k h w =
    rw (not_empty n, ≢→== key 0 (λ x. absurd (omega arith)))
      (replacement_at-written source start (suc n) s f (omega arith) w (xor key) u i base h)

-- Given bytes replace the window one by one.
pub replacement_at-set_bytes_range :
    (source : PieceSource) (start len : ℕ) (b : ℕ) (bs : List ℕ) (phase : ℕ) (s : ReplacementStore)
    (u : PieceSource) (i base : ℕ)
    → start + len ≤ u64_max
    → phase + len ≤ u64_max
    → i < u64_mod
    → IsDisjoint s
    → replacement_at (set_bytes_range source start len (b ∷ bs) phase s) (cell u i) base ≡ (
        if in_source_range (cell u i) source start (start + len)
        then some (get_or (b ∷ bs) (phase + (i - start)) base)
        else replacement_at s (cell u i) base)
unfolding set_bytes_range value_from
replacement_at-set_bytes_range source start zero b bs phase s u i base f p h w =
    rw (empty-window u source i start)
replacement_at-set_bytes_range source start (suc n) b bs phase s u i base f p h w =
    rw
      (
        not_empty n,
        replacement_at-written source start (suc n) s f (omega arith) w (bytes (b ∷ bs) phase) u i
            base h,
      )
      (elim (Bool-cases (in_source_range (cell u i) source start (start + suc n))) [
        | inr d ↦ rw d
        | inl d ↦
            let high : i < start + suc n = (ground arith) in
            rw d (ap (λ x. some (get_or (b ∷ bs) x base)) (omega arith))
      ])
