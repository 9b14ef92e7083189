-- ===== src/PieceTable/Valid.antt =====
-- The invariant of a piece table, and that the end of a mutation establishes it.
use hxedit.Prelude.{
  ==→≡, ==→≢, Bool-cases, List, [], ap, append-nil, arith, drop, if◌then◌else◌, inl, inr, length,
  refl, subst, suc, sym, take, true, u64_mod, zero, ℕ, ◌++◌, ◌+◌, ◌<◌, ◌==◌, ◌∙◌, ◌∷◌, ◌≡◌, ◌≤◌,
}
use hxedit.Cells.{CellId, Piece, PieceSource, add, cell, original, piece, run}
use hxedit.PieceTable.{
  PieceTable, coalesce, coalesce_onto, committed, invalidate_prefix, is_nil, new,
}
use hxedit.PieceTable.View.{cells, length-cells, length-run}
use hxedit.PieceTable.Resolve.{IsWhole}
use hxedit.PieceTable.Merge.{IsCoalesced, coalesce_onto-IsCoalesced, coalesce_onto-cells}

-- The bytes that a source holds, in a file of `o` bytes with `a` bytes added.
abbrev pub limit : ℕ → ℕ → PieceSource → ℕ
limit o a original = o
limit o a add = a

-- Every cell stands for a byte that its source holds.
abbrev pub Within : ℕ → ℕ → List CellId → Type 0
Within o a [] = Unit
Within o a (cell s i ∷ cs) = (i < limit o a s) × Within o a cs

pub record IsValid (t : PieceTable) : Type 0 where
  pub whole : IsWhole t
  pub coalesced : IsCoalesced t.pieces
  pub within : Within t.original_len (length t.add_buffer) (cells t.pieces)
  pub fits : t.len < u64_mod

pub Within-append :
    (o a : ℕ) (cs ds : List CellId) → Within o a cs → Within o a ds → Within o a (cs ++ ds)
Within-append o a [] ds h k = k
Within-append o a (cell s i ∷ cs) ds h k = (h.0, Within-append o a cs ds h.1 k)

pub Within-take : (o a n : ℕ) (cs : List CellId) → Within o a cs → Within o a (take n cs)
Within-take o a zero cs h = tt
Within-take o a (suc n) [] h = tt
Within-take o a (suc n) (cell s i ∷ cs) h = (h.0, Within-take o a n cs h.1)

pub Within-drop : (o a n : ℕ) (cs : List CellId) → Within o a cs → Within o a (drop n cs)
Within-drop o a zero cs h = h
Within-drop o a (suc n) [] h = tt
Within-drop o a (suc n) (cell s i ∷ cs) h = Within-drop o a n cs h.1

pub Within-run :
    (o a : ℕ) (s : PieceSource) (i n : ℕ) → i + n ≤ limit o a s → Within o a (run s i n)
unfolding run
Within-run o a s i zero h = tt
Within-run o a s i (suc n) h = (omega arith, Within-run o a s (i + 1) n (omega arith))

limit_mono : (o a b : ℕ) (s : PieceSource) → a ≤ b → limit o a s ≤ limit o b s
limit_mono o a b original h = omega arith
limit_mono o a b add h = h

pub Within-mono : (o a b : ℕ) (cs : List CellId) → a ≤ b → Within o a cs → Within o b cs
Within-mono o a b [] h k = tt
Within-mono o a b (cell s i ∷ cs) h k =
    (omega (arith, limit_mono o a b s h, k.0), Within-mono o a b cs h k.1)

coalesce-eq : (t : PieceTable) → coalesce t ≡ record t { pieces = coalesce_onto [] t.pieces }
coalesce-eq t = by_pieces t.pieces
  where
    by_pieces :
        (ps : List Piece)
        → (if is_nil ps
            then record t { pieces = ps }
            else record t { pieces = coalesce_onto [] ps })
          ≡ record t { pieces = coalesce_onto [] ps }
    by_pieces [] = unfold coalesce_onto in refl
    by_pieces (p ∷ ps) = refl

abbrev merged : PieceTable → PieceTable
merged t = record t { pieces = coalesce_onto [] t.pieces; prefix_dirty = true }

-- What a mutation leaves, for a table about to be merged that displays `cs`.
pub record Commits (t : PieceTable) (cs : List CellId) (r : PieceTable) : Type 0 where
  pub shows : cells r.pieces ≡ cs
  pub valid : IsValid r
  pub same_len : r.len ≡ t.len
  pub same_add : r.add_buffer ≡ t.add_buffer
  pub same_original : r.original_len ≡ t.original_len

merged-Commits :
    (t : PieceTable) (cs : List CellId)
    → cells t.pieces ≡ cs
    → length cs ≡ t.len
    → t.len < u64_mod
    → Within t.original_len (length t.add_buffer) cs
    → Commits t cs (merged t)
merged-Commits t cs e n fits within =
    let shows = coalesce_onto-cells [] t.pieces ∙ e in
    record {
      shows = shows;
      valid = record {
        whole = record {
          counted = sym (length-cells (coalesce_onto [] t.pieces)) ∙ ap length shows ∙ n;
          cached = λ dirty. cc;
        };
        coalesced = coalesce_onto-IsCoalesced [] t.pieces tt;
        within = subst (Within t.original_len (length t.add_buffer)) (sym shows) within;
        fits = fits;
      };
      same_len = refl;
      same_add = refl;
      same_original = refl;
    }

pub committed-Commits :
    (t : PieceTable) (cs : List CellId)
    → cells t.pieces ≡ cs
    → length cs ≡ t.len
    → t.len < u64_mod
    → Within t.original_len (length t.add_buffer) cs
    → Commits t cs (committed t)
committed-Commits t cs e n fits within =
    subst (Commits t cs) (sym (ap invalidate_prefix (coalesce-eq t)))
      (merged-Commits t cs e n fits within)

abbrev opened : ℕ → List Piece → PieceTable
opened n ps = record {
  original_len = n;
  add_buffer = [];
  pieces = ps;
  len = n;
  prefix_ends = [];
  prefix_dirty = true;
}

opened-IsValid :
    (n : ℕ) (ps : List Piece)
    → n < u64_mod
    → cells ps ≡ run original 0 n
    → IsCoalesced ps
    → IsValid (opened n ps) × (cells ps ≡ run original 0 n)
opened-IsValid n ps h e c = (
  record {
    whole = record {
      counted = sym (length-cells ps) ∙ ap length e ∙ length-run original 0 n;
      cached = λ d. cc;
    };
    coalesced = c;
    within = subst (Within n 0) (sym e) (Within-run n 0 original 0 n (omega arith));
    fits = h;
  },
  e,
)

-- A table for a file is valid and displays the file.
pub new-IsValid :
    (n : ℕ) → n < u64_mod → IsValid (new n) × (cells (new n).pieces ≡ run original 0 n)
unfolding new
new-IsValid n h = elim (Bool-cases (n == 0)) [
  | inl e ↦ rw e (
      opened-IsValid n [] h
        (unfold run in ap (run original 0) {x = 0} {y = n} (omega (arith, ==→≡ _ _ e))) tt)
  | inr e ↦ rw e (
      opened-IsValid n (piece original 0 n ∷ []) h (append-nil (run original 0 n))
        (omega (arith, ==→≢ _ _ e), tt, tt))
]
