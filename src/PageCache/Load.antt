-- ===== src/PageCache/Load.antt =====
-- The invariant of the page cache, and what loading a page leaves.
use hxedit.Prelude.{
  ==→≡, Bool-cases, List, Option, ap, arith, drop, inl, inr, length, none, refl, some, subst, sym,
  take, ℕ, ≡→==, ◌*◌, ◌+◌, ◌<◌, ◌==◌, ◌∙◌, ◌∷◌, ◌≡◌, ◌≤◌,
}
use hxedit.Outcome.{HxResult, ok}
use hxedit.PageCache.{
  CachedPage, PageCache, clear, ensure_loaded_with, evict_if_needed, hit, loaded, missed, new,
  page_at, remove_page, stored,
}
use hxedit.PageCache.Entries.{
  Used, Used-mono, length-touch, page_at-remove_page, page_at-touch, page_data, remove_page-Used,
  touch-Used,
}
use hxedit.PageCache.Evict.{evict-Used, evict-newest, length-evict, page_at-evict}
use Prim.{Unit, tt}

-- A page of the file; the last one is short.
abbrev pub page_of : List ℕ → ℕ → ℕ → List ℕ
page_of file page_size k = take page_size (drop (k * page_size) file)

-- The cache has a capacity and fits it, and what it holds are pages of the file.
pub record IsCache (file : List ℕ) (c : PageCache) : Type 0 where
  pub sized : 0 < c.page_size
  pub roomy : 0 < c.capacity
  pub fits : length c.entries ≤ c.capacity
  pub used : Used c.generation c.entries
  pub right :
      (k : ℕ) (bs : List ℕ)
      → page_data (page_at k c.entries) ≡ some bs
      → bs ≡ page_of file c.page_size k

pub new-IsCache : (file : List ℕ) (page_size capacity : ℕ) → IsCache file (new page_size capacity)
unfolding new Used page_at
new-IsCache file page_size capacity = record {
  sized = omega arith;
  roomy = omega arith;
  fits = omega arith;
  used = tt;
  right = λ k bs h. cc;
}

pub clear-IsCache :
    (file : List ℕ) (c : PageCache) → 0 < c.page_size → 0 < c.capacity → IsCache file (clear c)
unfolding clear Used page_at
clear-IsCache file c s r = record {
  sized = s;
  roomy = r;
  fits = omega arith;
  used = tt;
  right = λ k bs h. cc;
}

-- What the cache relies on: the loader reads the file.
abbrev pub Loads : List ℕ → (ℕ → ℕ → HxResult (List ℕ)) → Type 0
Loads file load_page = (start size : ℕ) → load_page start size ≡ ok (take size (drop start file))

-- What loading a page leaves.
pub record Loaded (file : List ℕ) (k : ℕ) (c : PageCache) (r : HxResult (Unit {0}) × PageCache)
    : Type 0 where
  pub done : r.0 ≡ ok tt
  pub valid : IsCache file r.1
  pub same_size : r.1.page_size ≡ c.page_size
  pub there : page_data (page_at k r.1.entries) ≡ some (page_of file c.page_size k)

hit-Loaded :
    (file : List ℕ) (k : ℕ) (c : PageCache) (p : CachedPage)
    → IsCache file c
    → page_at k c.entries ≡ some p
    → Loaded file k c (ok tt, hit k c)
hit-Loaded file k c p v h = record {
  done = refl;
  valid = record {
    sized = v.sized;
    roomy = v.roomy;
    fits = omega (arith, length-touch k (c.generation + 1) c.entries, v.fits);
    used = touch-Used c.generation k c.entries v.used;
    right = λ j bs e. v.right j bs (sym (page_at-touch k (c.generation + 1) j c.entries) ∙ e);
  };
  same_size = refl;
  there = page_at-touch k (c.generation + 1) k c.entries ∙ rw h (ap some (v.right k p.page (rw h)));
}

abbrev fresh_page : List ℕ → ℕ → PageCache → CachedPage
fresh_page file k c = record { page = page_of file c.page_size k; last_used = c.generation + 1 }

-- The entries that a miss leaves before it evicts.
abbrev grown : List ℕ → ℕ → PageCache → List (ℕ × CachedPage)
grown file k c = (k, fresh_page file k c) ∷ remove_page k c.entries

grown-right :
    (file : List ℕ) (k : ℕ) (c : PageCache) (j : ℕ) (bs : List ℕ)
    → IsCache file c
    → page_data (page_at j (grown file k c)) ≡ some bs
    → bs ≡ page_of file c.page_size j
unfolding page_at
grown-right file k c j bs v h = elim (Bool-cases (k == j)) [
  | inl e ↦
      let r : some (page_of file c.page_size k) ≡ some bs = (rw e at h) in
      let q : page_of file c.page_size k ≡ bs = (cc) in
      sym q ∙ ap (page_of file c.page_size) (==→≡ k j e)
  | inr e ↦ v.right j bs (rw (e, page_at-remove_page k j c.entries, e) at h)
]

grown-Used :
    (file : List ℕ) (k : ℕ) (c : PageCache)
    → IsCache file c
    → Used (c.generation + 1) (grown file k c)
unfolding Used
grown-Used file k c v = (
  omega arith,
  Used-mono c.generation (c.generation + 1) (remove_page k c.entries) (omega arith)
      (remove_page-Used c.generation k c.entries v.used),
)

page_at-removed : (k : ℕ) (m : List (ℕ × CachedPage)) → page_at k (remove_page k m) ≡ none
page_at-removed k m = rw (page_at-remove_page k k m, ≡→== k k refl)

stored-Loaded :
    (file : List ℕ) (k : ℕ) (c : PageCache)
    → IsCache file c
    → Loaded file k c (stored k (ok (page_of file c.page_size k)) (missed c))
unfolding evict_if_needed
stored-Loaded file k c v =
    let n = length (grown file k c) in
    record {
      done = refl;
      valid = record {
        sized = v.sized;
        roomy = v.roomy;
        fits = length-evict c.capacity n (grown file k c) (omega arith);
        used = evict-Used c.capacity n (c.generation + 1) (grown file k c) (grown-Used file k c v);
        right = λ j bs e.
            grown-right file k c j bs v (page_at-evict c.capacity n j bs (grown file k c) e);
      };
      same_size = refl;
      there = ap page_data (
          evict-newest c.capacity n k c.generation (fresh_page file k c) (remove_page k c.entries)
            v.roomy refl (remove_page-Used c.generation k c.entries v.used)
            (page_at-removed k c.entries));
    }

loaded-Loaded :
    (file : List ℕ) (load_page : ℕ → ℕ → HxResult (List ℕ)) (k : ℕ) (c : PageCache)
    (o : Option CachedPage)
    → Loads file load_page
    → IsCache file c
    → page_at k c.entries ≡ o
    → Loaded file k c (loaded load_page k c o)
loaded-Loaded file load_page k c (some p) l v e = hit-Loaded file k c p v e
loaded-Loaded file load_page k c none l v e =
    subst (λ r. Loaded file k c (stored k r (missed c))) (sym (l (k * c.page_size) c.page_size))
      (stored-Loaded file k c v)

pub ensure_loaded_with_lem :
    (file : List ℕ) (load_page : ℕ → ℕ → HxResult (List ℕ)) (k : ℕ) (c : PageCache)
    → Loads file load_page
    → IsCache file c
    → Loaded file k c (ensure_loaded_with load_page k c)
unfolding ensure_loaded_with
ensure_loaded_with_lem file load_page k c l v =
    loaded-Loaded file load_page k c (page_at k c.entries) l v refl
