-- ===== src/PieceTable/Undo.antt =====
-- A mutation and its inverse give the very same pieces back, and `is_identity` is exact.
use hxedit.Prelude.{
  ==→≡, Bool, Bool-cases, List, [], ap, append-nil, arith, drop, drop-append, drop-drop, drop_all,
  if◌then◌else◌, inl, inr, leb, leb→le, leb→lt, length, length-take, refl, sym, take, take-append,
  take-append-drop, take-nil, take_all, true, u64_mod, ℕ, ≡→==, ◌++◌, ◌+◌, ◌<◌, ◌==◌, ◌↔◌, ◌∙◌, ◌∷◌,
  ◌≡◌, ◌≤◌,
}
use mathlib.Core.Path.{ap₂, subst₃}
use hxedit.Cells.{CellId, Piece, add, original, piece, run}
use hxedit.PieceTable.{
  PieceTable, delete_range_real, insert_bytes, insert_existing_cells, is_identity, is_nil,
  is_whole_file, new,
}
use hxedit.PieceTable.View.{cells, length-cells, length-run}
use hxedit.PieceTable.Merge.{coalesced_unique, source_eq→≡}
use hxedit.PieceTable.Valid.{IsValid, Within, Within-drop, Within-take, new-IsValid}
use hxedit.PieceTable.Insert.{insert_bytes_lem, insert_existing_cells_lem, spliced}
use hxedit.PieceTable.Delete.{delete_range_real_lem, without}

-- Splicing the slice back where it was cut out.
spliced-without :
    (off n : ℕ) (cs : List CellId)
    → off ≤ length cs
    → spliced off (take n (drop off cs)) (without off (off + n) cs) ≡ cs
spliced-without off n cs h =
    let exact : off ≡ length (take off cs) = omega (arith, length-take off cs) in
    ap₂ (λ a b. a ++ (take n (drop off cs) ++ b))
      (take-append (take off cs) (drop (off + n) cs) off exact)
      (drop-append (take off cs) (drop (off + n) cs) off exact
        ∙ sym (drop-drop n off (off + n) cs refl))
    ∙ ap (take off cs ++◌) (take-append-drop n (drop off cs))
    ∙ take-append-drop off cs

-- Past the end nothing is cut out.
spliced_nothing :
    (off n : ℕ) (cs : List CellId)
    → length cs < off
    → spliced off (take n (drop off cs)) (without off (off + n) cs) ≡ cs
spliced_nothing off n cs h =
    let gone : drop off cs ≡ [] = drop_all off cs (omega arith) in
    let all : without off (off + n) cs ≡ cs =
      ap₂ ◌++◌ (take_all off cs (omega arith)) (drop_all (off + n) cs (omega arith))
      ∙ append-nil cs in
    ap₂ (λ r w. spliced off r w) (ap (take n) gone ∙ take-nil n) all
    ∙ ap₂ ◌++◌ (take_all off cs (omega arith)) gone
    ∙ append-nil cs

spliced_back :
    (off n : ℕ) (cs : List CellId)
    → spliced off (take n (drop off cs)) (without off (off + n) cs) ≡ cs
spliced_back off n cs = elim (Bool-cases (leb off (length cs))) [
  | inl h ↦ spliced-without off n cs (leb→le _ _ h)
  | inr h ↦ spliced_nothing off n cs (leb→lt _ _ h)
]

-- What undo gives back: all of the table but its cache.
pub record SameTable (t r : PieceTable) : Type 0 where
  pub same_pieces : r.pieces ≡ t.pieces
  pub same_len : r.len ≡ t.len
  pub same_add : r.add_buffer ≡ t.add_buffer
  pub same_original : r.original_len ≡ t.original_len

-- On a valid table, whatever the offset and the length, the cells that `delete_range_real` returns,
-- put back at the offset by `insert_existing_cells`, give back the same pieces, length and buffer.
pub insert_existing_cells-delete_range_real :
    (off n : ℕ) (t : PieceTable)
    → IsValid t
    → SameTable t
        (insert_existing_cells off (delete_range_real off n t).0 (delete_range_real off n t).1)
insert_existing_cells-delete_range_real off n t v =
    let d = delete_range_real_lem off n t v in
    let r = delete_range_real off n t in
    let cs = cells t.pieces in
    let back : Within r.1.original_len (length r.1.add_buffer) r.0 =
      subst₃ (λ o a c. Within o (length a) c) (sym d.same_original) (sym d.same_add) (sym d.removed)
        (Within-take _ _ n (drop off cs) (Within-drop _ _ off cs v.within)) in
    let (i, added) =
      insert_existing_cells_lem off r.0 r.1 d.valid (omega (arith, d.counted, v.fits)) back in
    record {
      same_pieces =
          coalesced_unique _ t.pieces i.valid.coalesced v.coalesced
            (i.shows ∙ ap₂ (λ a b. spliced off a b) d.removed d.shows ∙ spliced_back off n cs);
      same_len = i.longer ∙ d.counted;
      same_add = added ∙ d.same_add;
      same_original = i.same_original ∙ d.same_original;
    }

-- Cutting out what was spliced in.
without-spliced :
    (off n : ℕ) (new cs : List CellId)
    → off ≤ length cs
    → n ≡ length new
    → without off (off + n) (spliced off new cs) ≡ cs
without-spliced off n new cs h e =
    let exact : off ≡ length (take off cs) = omega (arith, length-take off cs) in
    ap₂ ◌++◌ (take-append (take off cs) (new ++ drop off cs) off exact) (
      sym (drop-drop n off (off + n) (spliced off new cs) refl)
      ∙ ap (drop n) (drop-append (take off cs) (new ++ drop off cs) off exact)
      ∙ drop-append new (drop off cs) n e)
    ∙ take-append-drop off cs

-- On a valid table with room for the bytes, at an offset within it, `delete_range_real` of what
-- `insert_bytes` has put in gives back the same pieces and length; the bytes stay behind in the
-- add-buffer.
pub delete_range_real-insert_bytes :
    (off : ℕ) (bs : List ℕ) (t : PieceTable)
    → IsValid t
    → t.len + length bs < u64_mod
    → off ≤ t.len
    → let r = (delete_range_real off (length bs) (insert_bytes off bs t)).1 in
      (r.pieces ≡ t.pieces) × (r.len ≡ t.len) × (r.add_buffer ≡ t.add_buffer ++ bs)
delete_range_real-insert_bytes off bs t v room h =
    let new = run add (length t.add_buffer) (length bs) in
    let count = length-run add (length t.add_buffer) (length bs) in
    let (i, added) = insert_bytes_lem off bs t v room in
    let d = delete_range_real_lem off (length bs) (insert_bytes off bs t) i.valid in
    let cs = cells t.pieces in
    let long : length cs ≡ t.len = length-cells t.pieces ∙ v.whole.counted in
    let shows =
      d.shows
      ∙ ap (without off (off + length bs)) i.shows
      ∙ without-spliced off (length bs) new cs (omega (arith, long)) (sym count) in
    let r = (delete_range_real off (length bs) (insert_bytes off bs t)).1 in
    (
      coalesced_unique _ t.pieces d.valid.coalesced v.coalesced shows,
      sym d.valid.whole.counted ∙ sym (length-cells r.pieces) ∙ ap length shows ∙ long,
      d.same_add ∙ added,
    )

is_whole_file-eq :
    (n : ℕ) (ps : List Piece) → is_whole_file n ps ≡ true → ps ≡ piece original 0 n ∷ []
is_whole_file-eq n [] h = cc
is_whole_file-eq n (p ∷ []) h =
    let s = source_eq→≡ p.source original (ground arith) in
    let a : p.start ≡ 0 = ground arith in
    let m : p.len ≡ n = ground arith in λ i. piece (s i) (a i) (m i) ∷ []
is_whole_file-eq n (p ∷ q ∷ ps) h = cc

is_nil-eq : (ps : List Piece) → is_nil ps ≡ true → ps ≡ []
is_nil-eq [] h = refl
is_nil-eq (p ∷ ps) h = cc

abbrev whole_or_nil : ℕ → List Piece → Bool
whole_or_nil n ps = if n == 0 then is_nil ps else is_whole_file n ps

whole_or_nil-cells :
    (n : ℕ) (ps : List Piece) → whole_or_nil n ps ≡ true → cells ps ≡ run original 0 n
whole_or_nil-cells n ps h = elim (Bool-cases (n == 0)) [
  | inl e ↦
      ap cells (is_nil-eq ps (ground arith))
      ∙ unfold run in ap (run original 0) {x = 0} {y = n} (omega (arith, ==→≡ _ _ e))
  | inr e ↦ ap cells (is_whole_file-eq n ps (ground arith)) ∙ append-nil (run original 0 n)
]

new-whole_or_nil : (n : ℕ) → whole_or_nil n (new n).pieces ≡ true
unfolding new
new-whole_or_nil n = elim (Bool-cases (n == 0)) [ inl e ↦ rw e | inr e ↦ rw (e, ≡→== n n refl) ]

is_identity-eq :
    (t : PieceTable) → is_identity t ≡ true → whole_or_nil t.original_len t.pieces ≡ true
unfolding is_identity
is_identity-eq t h = ground arith

-- On a valid table, `is_identity` holds exactly if the table displays the bytes of the file in their
-- order.
pub is_identity_iff :
    (t : PieceTable)
    → IsValid t
    → (is_identity t ≡ true) ↔ (cells t.pieces ≡ run original 0 t.original_len)
is_identity_iff t v = (
  λ h. whole_or_nil-cells t.original_len t.pieces (is_identity-eq t h),
  λ e.
      let n = t.original_len in
      let long : t.len ≡ n =
        sym v.whole.counted ∙ sym (length-cells t.pieces) ∙ ap length e ∙ length-run original 0 n in
      let (fresh, shows) = new-IsValid n (omega (arith, v.fits, long)) in
      let same =
        coalesced_unique t.pieces (new n).pieces v.coalesced fresh.coalesced (e ∙ sym shows) in
      unfold is_identity in rw (≡→== t.len n long) (ap (whole_or_nil n) same ∙ new-whole_or_nil n),
)
