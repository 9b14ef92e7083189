-- ===== src/PageCache/Capacity.antt =====
-- The bound on the page cache when the file cannot be relied on: a loader may fail, or return any
-- bytes.
use hxedit.Prelude.{
  Bool-cases, List, Option, [], arith, inl, inr, length, none, refl, saturating_add, some, suc,
  zero, ℕ, ◌*◌, ◌+◌, ◌-◌, ◌/◌, ◌==◌, ◌∷◌, ◌≡◌, ◌≤◌,
}
use hxedit.Outcome.{HxResult, err, ok}
use hxedit.PageCache.{
  CachedPage, PageCache, called, ensure_loaded_with, evict_if_needed, followed, loaded, missed,
  page_at, page_part, read_pages, read_range_with, remove_page, returned, stored, with_page,
}
use hxedit.PageCache.Entries.{length-touch}
use hxedit.PageCache.Evict.{length-evict}
use Prim.{Unit}

abbrev Fits : ℕ → PageCache → Type 0
Fits n c = (c.capacity ≡ n) × (length c.entries ≤ n)

length-remove_page : (k : ℕ) (m : List (ℕ × CachedPage)) → length (remove_page k m) ≤ length m
unfolding remove_page
length-remove_page k [] = omega arith
length-remove_page k ((j, p) ∷ m) = elim (Bool-cases (j == k)) [
  | inl e ↦ rw e (omega (arith, length-remove_page k m))
  | inr e ↦ rw e (omega (arith, length-remove_page k m))
]

stored-Fits : (n k : ℕ) (r : HxResult (List ℕ)) (c : PageCache) → Fits n c → Fits n (stored k r c).1
unfolding evict_if_needed
stored-Fits n k (err e) c f = f
stored-Fits n k (ok buf) c (e, l) = (
  e,
  rw e (
      length-evict n (length (with_page k buf c).entries) (with_page k buf c).entries
        (omega arith)),
)

loaded-Fits :
    (n : ℕ) (load_page : ℕ → ℕ → HxResult (List ℕ)) (k : ℕ) (c : PageCache) (o : Option CachedPage)
    → Fits n c
    → Fits n (loaded load_page k c o).1
loaded-Fits n load_page k c (some p) (e, l) =
    (e, omega (arith, length-touch k (c.generation + 1) c.entries))
loaded-Fits n load_page k c none f =
    stored-Fits n k (load_page (k * c.page_size) c.page_size) (missed c) f

ensure_loaded_with-Fits :
    (n : ℕ) (load_page : ℕ → ℕ → HxResult (List ℕ)) (k : ℕ) (c : PageCache)
    → Fits n c
    → Fits n (ensure_loaded_with load_page k c).1
unfolding ensure_loaded_with
ensure_loaded_with-Fits n load_page k c f = loaded-Fits n load_page k c (page_at k c.entries) f

followed-Fits :
    (n : ℕ) (r : HxResult (Unit {0})) (c : PageCache) (part : List ℕ)
    (rest : HxResult (List ℕ) × PageCache)
    → Fits n c
    → Fits n rest.1
    → Fits n (followed r c part rest).1
followed-Fits n (err e) c part rest f g = f
followed-Fits n (ok u) c part (err e, d) f g = g
followed-Fits n (ok u) c part (ok out, d) f g = g

read_pages-Fits :
    (n : ℕ) (load_page : ℕ → ℕ → HxResult (List ℕ)) (offset end count k : ℕ) (c : PageCache)
    → Fits n c
    → Fits n (read_pages load_page offset end count k c).1
unfolding read_pages
read_pages-Fits n load_page offset end zero k c f = f
read_pages-Fits n load_page offset end (suc count) k c f =
    let found = ensure_loaded_with load_page k c in
    let g = ensure_loaded_with-Fits n load_page k c f in
    followed-Fits n found.0 found.1
      (page_part offset end (k * c.page_size) (page_at k found.1.entries))
      (read_pages load_page offset end count (k + 1) found.1) g
      (read_pages-Fits n load_page offset end count (k + 1) found.1 g)

returned-Fits : (n : ℕ) (r : HxResult (List ℕ) × PageCache) → Fits n r.1 → Fits n (returned r).1
returned-Fits n (err e, c) f = f
returned-Fits n (ok out, c) f = f

-- A read keeps the capacity and leaves at most as many pages as it in a cache that fits it, whatever
-- the loader returns: any bytes, or an error half-way through the read.
pub read_range_with-entries :
    (load_page : ℕ → ℕ → HxResult (List ℕ)) (offset len : ℕ) (c : PageCache)
    → length c.entries ≤ c.capacity
    → let c' = (read_range_with load_page offset len c).1 in
      (c'.capacity ≡ c.capacity) × (length c'.entries ≤ c.capacity)
unfolding read_range_with
read_range_with-entries load_page offset len c h = elim (Bool-cases (len == 0)) [
  | inl z ↦ rw z (refl, h)
  | inr z ↦
      let first = offset / c.page_size in
      let count = suc (saturating_add offset (len - 1) / c.page_size) - first in
      let end = saturating_add offset len in
      rw z (
        returned-Fits c.capacity (read_pages load_page offset end count first (called c))
          (read_pages-Fits c.capacity load_page offset end count first (called c) (refl, h)))
]
