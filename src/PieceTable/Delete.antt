-- ===== src/PieceTable/Delete.antt =====
-- `delete_range_real` cuts a slice out of the view and returns it.
use hxedit.Prelude.{
  Bool-cases, List, [], ap, append-nil, append_assoc, arith, drop, drop-append, drop-min, drop_all,
  false, inl, inr, leb, leb→le, length, length-append, length-drop, length-take, min, refl,
  saturating_add, sym, take, take-append, take-append-drop, take-min, take_all, true, ℕ, ◌++◌, ◌+◌,
  ◌-◌, ◌<◌, ◌==◌, ◌||◌, ◌∙◌, ◌∷◌, ◌≡◌, ◌≤◌,
}
use mathlib.Core.Path.{ap₂, subst₂}
use hxedit.Cells.{CellId}
use hxedit.PieceTable.{PieceTable, cut_out, delete_found, delete_range_real}
use hxedit.PieceTable.View.{cells, cells-append, length-cells}
use hxedit.PieceTable.Resolve.{IsWhole, ensured, ensured-IsWhole}
use hxedit.PieceTable.Range.{cell_ids_range_found, in_range, slice_outside}
use hxedit.PieceTable.Split.{SplitAt, back, front, split_piece_at_lem}
use hxedit.PieceTable.Valid.{
  IsValid, Within, Within-append, Within-drop, Within-take, committed-Commits,
}

-- The view without the cells from `off` to `end`.
abbrev pub without : ℕ → ℕ → List CellId → List CellId
without off end cs = take off cs ++ drop end cs

length-without :
    (off end : ℕ) (cs : List CellId)
    → off ≤ end
    → end ≤ length cs
    → length (without off end cs) ≡ length cs - (end - off)
length-without off end cs h k =
    omega (arith, length-append (take off cs) (drop end cs), length-take off cs, length-drop end cs)

pub record Deletes (off end : ℕ) (t r : PieceTable) : Type 0 where
  pub shows : cells r.pieces ≡ without off end (cells t.pieces)
  pub valid : IsValid r
  pub shorter : r.len ≡ t.len - (end - off)
  pub same_add : r.add_buffer ≡ t.add_buffer
  pub same_original : r.original_len ≡ t.original_len

-- The first cut is still a cut after the second.
first_cut :
    {off end : ℕ} {t : PieceTable} (a : SplitAt off t) (b : SplitAt end a.after)
    → off < end
    → take (length a.pre) b.after.pieces ≡ a.pre
first_cut a b h =
    let (zs, e) = b.keeps a.pre a.post a.parts (omega (arith, a.at)) in
    ap (take (length a.pre)) (b.parts ∙ ap (λ r. r ++ b.post) e ∙ append_assoc a.pre zs b.post)
    ∙ take-append a.pre (zs ++ b.post) (length a.pre) refl

cut_out_lem :
    (off end : ℕ) (t : PieceTable)
    → IsValid t
    → off < end
    → end ≤ t.len
    → Deletes off end t (cut_out off end t)
cut_out_lem off end t v h k =
    let a = split_piece_at_lem off t v.whole (omega arith) in
    let b = split_piece_at_lem end a.after a.whole (omega (arith, a.same_len)) in
    let keep_shows : cells a.after.pieces ≡ cells t.pieces = ap cells a.parts ∙ a.same_cells in
    let shows : cells (take (length a.pre) b.after.pieces ++ drop (length b.pre) b.after.pieces)
        ≡ without off end (cells t.pieces) =
      ap₂ (λ x y. cells (x ++ y)) (first_cut a b h)
        (ap (drop (length b.pre)) b.parts ∙ drop-append b.pre b.post (length b.pre) refl)
      ∙ cells-append a.pre b.post
      ∙ ap₂ ◌++◌ (front a) (back b ∙ ap (drop end) keep_shows) in
    let len : b.after.len - (end - off) ≡ t.len - (end - off) =
      ap (λ n. n - (end - off)) (b.same_len ∙ a.same_len) in
    let c =
      committed-Commits _ (without off end (cells t.pieces)) shows
        (length-without off end (cells t.pieces) (omega arith)
            (omega (arith, length-cells t.pieces, v.whole.counted))
          ∙ omega (arith, len, length-cells t.pieces, v.whole.counted))
        (omega (arith, len, v.fits))
        (subst₂ (λ o bs. Within o (length bs) (without off end (cells t.pieces)))
          (sym (b.same_original ∙ a.same_original)) (sym (b.same_add ∙ a.same_add))
          (Within-append t.original_len (length t.add_buffer) (take off (cells t.pieces)) _
            (Within-take _ _ off (cells t.pieces) v.within)
            (Within-drop _ _ end (cells t.pieces) v.within))) in
    rw (a.returns, b.returns)
      (record {
        shows = c.shows;
        valid = c.valid;
        shorter = c.same_len ∙ len;
        same_add = c.same_add ∙ b.same_add ∙ a.same_add;
        same_original = c.same_original ∙ b.same_original ∙ a.same_original;
      })

-- What `delete_range_real` returns and leaves, for any offset and length.
pub record Removes (off n : ℕ) (t : PieceTable) (r : List CellId × PieceTable) : Type 0 where
  pub removed : r.0 ≡ take n (drop off (cells t.pieces))
  pub shows : cells r.1.pieces ≡ without off (off + n) (cells t.pieces)
  pub valid : IsValid r.1
  pub counted : r.1.len + length r.0 ≡ t.len
  pub same_add : r.1.add_buffer ≡ t.add_buffer
  pub same_original : r.1.original_len ≡ t.original_len

delete_found-eq :
    (off end : ℕ) (r : List CellId) (t : PieceTable)
    → 0 < length r
    → delete_found off end (r, t) ≡ (r, cut_out off end t)
delete_found-eq off end [] t h = absurd (omega arith)
delete_found-eq off end (c ∷ cs) t h = refl

without_outside :
    (off n : ℕ) (t : PieceTable)
    → IsWhole t
    → (n == 0 || leb t.len off) ≡ true
    → cells t.pieces ≡ without off (off + n) (cells t.pieces)
without_outside off n t w e =
    let cs = cells t.pieces in
    elim (Bool-cases (leb t.len off)) [
      | inl h ↦
          let past : length cs ≤ off =
            omega (arith, leb→le _ _ h, length-cells t.pieces, w.counted) in
          sym (append-nil cs)
          ∙ ap₂ ◌++◌ (sym (take_all off cs past)) (sym (drop_all (off + n) cs (omega arith)))
      | inr h ↦
          let none_asked : n ≡ 0 = ground arith in
          sym (take-append-drop off cs)
          ∙ ap (λ j. take off cs ++ drop j cs) {x = off} {y = off + n} (omega arith)
    ]

Removes-slice :
    (off n end : ℕ) (t : PieceTable)
    → IsValid t
    → off < end
    → end ≡ min (off + n) t.len
    → Removes off n t (take (end - off) (drop off (cells t.pieces)), cut_out off end (ensured t))
Removes-slice off n end t v h e =
    let cs = cells t.pieces in
    let long : length cs ≡ t.len = length-cells t.pieces ∙ v.whole.counted in
    let d =
      cut_out_lem off end (ensured t)
        (record {
          whole = ensured-IsWhole v.whole;
          coalesced = v.coalesced;
          within = v.within;
          fits = v.fits;
        })
        h (omega arith) in
    record {
      removed = take-min n (end - off) (drop off cs) (omega (arith, length-drop off cs, long));
      shows = d.shows ∙ ap (take off cs ++◌) (drop-min (off + n) end cs (omega (arith, long)));
      valid = d.valid;
      counted =
          omega (arith, d.shorter, length-take (end - off) (drop off cs), length-drop off cs, long);
      same_add = d.same_add;
      same_original = d.same_original;
    }

-- On a valid table, for any offset and length, `delete_range_real` returns the displayed cells from
-- the offset on, at most as many as asked for, and leaves a valid table that displays the others in
-- their order, with the same add-buffer and a length smaller by the number of the returned cells.
pub delete_range_real_lem :
    (off n : ℕ) (t : PieceTable) → IsValid t → Removes off n t (delete_range_real off n t)
unfolding delete_range_real
delete_range_real_lem off n t v = elim (Bool-cases (n == 0 || leb t.len off)) [
  | inl e ↦ rw e (record {
    removed = sym (slice_outside off n t v.whole e);
    shows = without_outside off n t v.whole e;
    valid = v;
    counted = omega arith;
    same_add = refl;
    same_original = refl;
  })
  | inr e ↦
      let end = min (saturating_add off n) t.len in
      let inside = in_range off n t.len e in
      let some_asked : 0 < n = asked e in
      let cs = cells t.pieces in
      let found =
        cell_ids_range_found off (end - off) t v.whole v.fits
          (asks (end - off) (omega (arith, inside, v.fits, some_asked)) inside) in
      let nonempty : 0 < length (take (end - off) (drop off cs)) = omega (
        arith,
        length-take (end - off) (drop off cs),
        length-drop off cs,
        length-cells t.pieces,
        v.whole.counted,
        v.fits,
        inside,
      ) in
      rw (e, found, delete_found-eq off end (take (end - off) (drop off cs)) (ensured t) nonempty)
        (Removes-slice off n end t v (omega (arith, inside, v.fits)) (omega (arith, v.fits)))
]
  where
    asked : (n == 0 || leb t.len off) ≡ false → 0 < n
    asked e = ground arith

    asks : (k : ℕ) → 0 < k → off < t.len → (k == 0 || leb t.len off) ≡ false
    asks k h j = ground arith
