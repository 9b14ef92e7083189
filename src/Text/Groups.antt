-- ===== src/Text/Groups.antt =====
-- Groups of plain characters joined by spaces, trimmed and split again.
use hxedit.Prelude.{List, [], ap, arith, false, refl, true, ℕ, ◌&&◌, ◌++◌, ◌∙◌, ◌∷◌, ◌≡◌}
use hxedit.CellMap.{is_nil}
use hxedit.Text.{
  has_separator, is_separator, is_whitespace, join, split, trim, trim_end, trim_start,
}
use hxedit.Text.Hex.{AllPlain}
use Prim.{Unit}

-- Groups that are not empty, of plain characters.
unfoldable pub AllGroups : List (List ℕ) → Type 0
AllGroups [] = Unit
AllGroups (t ∷ ts) = (AllPlain t × (is_nil t ≡ false)) × AllGroups ts

split-plain : (t : List ℕ) → AllPlain t → split t ≡ t ∷ []
unfolding AllPlain split
split-plain [] h = refl
split-plain (c ∷ cs) (p, h) = rw (p.whole, split-plain cs h)

split-append : (t rest : List ℕ) → AllPlain t → split (t ++ 32 ∷ rest) ≡ t ∷ split rest
unfolding AllPlain split is_separator
split-append [] rest h = refl
split-append (c ∷ cs) rest (p, h) =
    let inner : is_separator c ≡ false = p.whole in rw (inner, split-append cs rest h)

pub split-join :
    (t : List ℕ) (ts : List (List ℕ)) → AllGroups (t ∷ ts) → split (join (t ∷ ts)) ≡ t ∷ ts
unfolding AllGroups join
split-join t [] ((p, e), h) = split-plain t p
split-join t (u ∷ ts) ((p, e), h) = split-append t (join (u ∷ ts)) p ∙ ap (t ∷◌) (split-join u ts h)

trim_end-plain : (t : List ℕ) → AllPlain t → trim_end t ≡ t
unfolding AllPlain trim_end
trim_end-plain [] h = refl
trim_end-plain (c ∷ cs) (p, h) =
    let kept : (is_nil (trim_end cs) && is_whitespace c) ≡ false = (rw p.solid (ground arith)) in
    rw kept (ap (c ∷◌) (trim_end-plain cs h))

trim_end-append :
    (t rest : List ℕ)
    → AllPlain t
    → is_nil rest ≡ false
    → trim_end rest ≡ rest
    → trim_end (t ++ 32 ∷ rest) ≡ t ++ 32 ∷ rest
unfolding AllPlain trim_end
trim_end-append [] rest h e f = rw (f, e)
trim_end-append (c ∷ cs) rest (p, h) e f =
    let kept : (is_nil (trim_end (cs ++ 32 ∷ rest)) && is_whitespace c) ≡ false =
      (rw p.solid (ground arith)) in
    rw kept (ap (c ∷◌) (trim_end-append cs rest h e f))

filled-append : (t rest : List ℕ) → is_nil (t ++ 32 ∷ rest) ≡ false
filled-append [] rest = refl
filled-append (c ∷ cs) rest = refl

pub join-filled :
    (t : List ℕ) (ts : List (List ℕ)) → AllGroups (t ∷ ts) → is_nil (join (t ∷ ts)) ≡ false
unfolding AllGroups join
join-filled t [] ((p, e), h) = e
join-filled t (u ∷ ts) h = filled-append t (join (u ∷ ts))

trim_end-join :
    (t : List ℕ) (ts : List (List ℕ))
    → AllGroups (t ∷ ts)
    → trim_end (join (t ∷ ts)) ≡ join (t ∷ ts)
unfolding AllGroups join
trim_end-join t [] ((p, e), h) = trim_end-plain t p
trim_end-join t (u ∷ ts) ((p, e), h) =
    trim_end-append t (join (u ∷ ts)) p (join-filled u ts h) (trim_end-join u ts h)

trim_start-join :
    (t : List ℕ) (ts : List (List ℕ))
    → AllGroups (t ∷ ts)
    → trim_start (join (t ∷ ts)) ≡ join (t ∷ ts)
unfolding AllGroups AllPlain join trim_start
trim_start-join [] ts ((p, e), h) = cc
trim_start-join (c ∷ cs) [] (((p, q), e), h) = rw p.solid
trim_start-join (c ∷ cs) (u ∷ ts) (((p, q), e), h) = rw p.solid

pub trim-join :
    (t : List ℕ) (ts : List (List ℕ)) → AllGroups (t ∷ ts) → trim (join (t ∷ ts)) ≡ join (t ∷ ts)
trim-join t ts h = ap trim_end (trim_start-join t ts h) ∙ trim_end-join t ts h

pub has_separator-plain : (t : List ℕ) → AllPlain t → has_separator t ≡ false
unfolding AllPlain has_separator
has_separator-plain [] h = refl
has_separator-plain (c ∷ cs) (p, h) = rw p.whole (has_separator-plain cs h)

pub has_separator-append : (t rest : List ℕ) → AllPlain t → has_separator (t ++ 32 ∷ rest) ≡ true
unfolding AllPlain has_separator is_separator
has_separator-append [] rest h = refl
has_separator-append (c ∷ cs) rest (p, h) =
    let inner : is_separator c ≡ false = p.whole in rw inner (has_separator-append cs rest h)
