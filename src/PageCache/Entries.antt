-- ===== src/PageCache/Entries.antt =====
-- The entries of the page cache: what is found, and how recently used, behind a removal and a touch.
use hxedit.Prelude.{
  ==→≡, Bool, Bool-cases, List, Option, [], arith, false, if◌then◌else◌, inl, inr, leb, length,
  none, refl, some, subst, sym, true, ℕ, ≡→==, ◌+◌, ◌<◌, ◌==◌, ◌∷◌, ◌≡◌, ◌≢◌, ◌≤◌,
}
use hxedit.PageCache.{CachedPage, older, oldest, page_at, remove_page, touch}
use Prim.{Unit, tt}

-- Every entry was used at the latest at `g`.
unfoldable pub Used : ℕ → List (ℕ × CachedPage) → Type 0
Used g [] = Unit
Used g ((k, p) ∷ m) = (p.last_used ≤ g) × Used g m

pub Used-mono : (g h : ℕ) (m : List (ℕ × CachedPage)) → g ≤ h → Used g m → Used h m
unfolding Used
Used-mono g h [] l u = tt
Used-mono g h ((k, p) ∷ m) l (a, u) = (omega arith, Used-mono g h m l u)

pub remove_page-Used : (g k : ℕ) (m : List (ℕ × CachedPage)) → Used g m → Used g (remove_page k m)
unfolding Used remove_page
remove_page-Used g k [] u = tt
remove_page-Used g k ((j, p) ∷ m) (a, u) = elim (Bool-cases (j == k)) [
  | inl e ↦ rw e (remove_page-Used g k m u)
  | inr e ↦ rw e (a, remove_page-Used g k m u)
]

pub touch-Used : (g k : ℕ) (m : List (ℕ × CachedPage)) → Used g m → Used (g + 1) (touch k (g + 1) m)
unfolding Used touch
touch-Used g k [] u = tt
touch-Used g k ((j, p) ∷ m) (a, u) = elim (Bool-cases (j == k)) [
  | inl e ↦ rw e (omega arith, Used-mono g (g + 1) m (omega arith) u)
  | inr e ↦ rw e (omega arith, touch-Used g k m u)
]

pub page_at-remove_page :
    (k j : ℕ) (m : List (ℕ × CachedPage))
    → page_at j (remove_page k m) ≡ (if k == j then none else page_at j m)
unfolding page_at remove_page
page_at-remove_page k j [] = ground arith
page_at-remove_page k j ((i, p) ∷ m) = ground (arith, page_at-remove_page k j m)

abbrev pub page_data : Option CachedPage → Option (List ℕ)
page_data none = none
page_data (some p) = some p.page

pub page_at-touch :
    (k g j : ℕ) (m : List (ℕ × CachedPage))
    → page_data (page_at j (touch k g m)) ≡ page_data (page_at j m)
unfolding page_at touch
page_at-touch k g j [] = refl
page_at-touch k g j ((i, p) ∷ m) = ground (arith, page_at-touch k g j m)

pub length-touch : (k g : ℕ) (m : List (ℕ × CachedPage)) → length (touch k g m) ≡ length m
unfolding touch
length-touch k g [] = refl
length-touch k g ((i, p) ∷ m) = ground (arith, length-touch k g m)

pub length-remove_page : (k : ℕ) (m : List (ℕ × CachedPage)) → length (remove_page k m) ≤ length m
unfolding remove_page
length-remove_page k [] = omega arith
length-remove_page k ((i, p) ∷ m) = ground (arith, length-remove_page k m)

abbrev pub is_found : Option CachedPage → Bool
is_found none = false
is_found (some p) = true

-- The removal of a key that is there.
pub length-remove_page_lt :
    (k : ℕ) (m : List (ℕ × CachedPage))
    → is_found (page_at k m) ≡ true
    → length (remove_page k m) < length m
unfolding page_at remove_page
length-remove_page_lt k [] h = cc
length-remove_page_lt k ((i, p) ∷ m) h = elim (Bool-cases (i == k)) [
  | inl e ↦ rw e (omega (arith, length-remove_page k m))
  | inr e ↦ rw e (omega (arith, length-remove_page_lt k m (rw e at h)))
]

page_at_head :
    (k : ℕ) (p : CachedPage) (m : List (ℕ × CachedPage)) → is_found (page_at k ((k, p) ∷ m)) ≡ true
unfolding page_at
page_at_head k p m = rw (≡→== k k refl)

page_at_tail :
    (j k : ℕ) (p : CachedPage) (m : List (ℕ × CachedPage))
    → is_found (page_at j m) ≡ true
    → is_found (page_at j ((k, p) ∷ m)) ≡ true
unfolding page_at
page_at_tail j k p m h = elim (Bool-cases (k == j)) [ inl e ↦ rw e | inr e ↦ rw e h ]

older-page_at :
    (k : ℕ) (p : CachedPage) (m : List (ℕ × CachedPage)) (o : Option (ℕ × CachedPage))
    → ((e : ℕ × CachedPage) → o ≡ some e → is_found (page_at e.0 m) ≡ true)
    → is_found (page_at (older (k, p) o).0 ((k, p) ∷ m)) ≡ true
older-page_at k p m none h = page_at_head k p m
older-page_at k p m (some f) h = elim (Bool-cases (leb p.last_used f.1.last_used)) [
  | inl e ↦ rw e (page_at_head k p m)
  | inr e ↦ rw e (page_at_tail f.0 k p m (h f refl))
]

-- The oldest entry is an entry.
pub page_at-oldest :
    (m : List (ℕ × CachedPage)) (e : ℕ × CachedPage)
    → oldest m ≡ some e
    → is_found (page_at e.0 m) ≡ true
unfolding oldest
page_at-oldest [] e h = cc
page_at-oldest ((k, p) ∷ m) e h =
    let q : older (k, p) (oldest m) ≡ e = (cc) in
    subst (λ (f : ℕ × CachedPage). is_found (page_at f.0 ((k, p) ∷ m)) ≡ true) q
      (older-page_at k p m (oldest m) (page_at-oldest m))

pub oldest-none : (m : List (ℕ × CachedPage)) → oldest m ≡ none → length m ≡ 0
unfolding oldest
oldest-none [] h = refl
oldest-none (e ∷ m) h = cc

pub page_at-front :
    (k : ℕ) (p : CachedPage) (m : List (ℕ × CachedPage)) → page_at k ((k, p) ∷ m) ≡ some p
unfolding page_at
page_at-front k p m = rw (≡→== k k refl)

pub oldest-front :
    (e : ℕ × CachedPage) (m : List (ℕ × CachedPage)) → oldest (e ∷ m) ≡ some (older e (oldest m))
unfolding oldest
oldest-front e m = refl

pub remove_page-front :
    (j k : ℕ) (p : CachedPage) (m : List (ℕ × CachedPage))
    → (k == j) ≡ false
    → remove_page j ((k, p) ∷ m) ≡ (k, p) ∷ remove_page j m
unfolding remove_page
remove_page-front j k p m e = rw e

pub page_at-absent :
    (j k : ℕ) (m : List (ℕ × CachedPage)) → page_at k m ≡ none → page_at k (remove_page j m) ≡ none
page_at-absent j k m h = ground (arith, page_at-remove_page j k m)

missing : (k : ℕ) (m : List (ℕ × CachedPage)) → page_at k m ≡ none → is_found (page_at k m) ≢ true
missing k m n h = (let q : is_found none ≡ true = (rw n at h) in cc)

-- A key that is found is not one that is missing.
pub apart_keys :
    (k j : ℕ) (m : List (ℕ × CachedPage))
    → page_at k m ≡ none
    → is_found (page_at j m) ≡ true
    → (k == j) ≡ false
apart_keys k j m n h = elim (Bool-cases (k == j)) [
  | inr e ↦ e
  | inl e ↦ absurd (missing k m n (subst (λ i. is_found (page_at i m) ≡ true) (sym (==→≡ k j e)) h))
]
