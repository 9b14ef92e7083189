-- ===== src/PageCache/Read.antt =====
-- `read_range_with`: whatever is cached, a read returns the bytes of the file.
use hxedit.Prelude.{
  ==→≡, ==→≢, Bool-cases, List, Option, ap, arith, drop, inl, inr, max, min, none, refl,
  saturating_add, some, subst, suc, sym, take, u64_max, zero, ℕ, ◌*◌, ◌++◌, ◌+◌, ◌-◌, ◌/◌, ◌<◌,
  ◌==◌, ◌∙◌, ◌≡◌, ◌≤◌,
}
use hxedit.Outcome.{HxResult, err, ok}
use hxedit.PageCache.{
  CachedPage, PageCache, called, ensure_loaded_with, page_at, page_part, prepend, read_pages,
  read_range_with, returned,
}
use hxedit.PageCache.Entries.{page_data}
use hxedit.PageCache.Slices.{page_part-slice, slice, slice-join}
use hxedit.PageCache.Load.{IsCache, Loads, ensure_loaded_with_lem}
use mathlib.Core.Path.{ap₂}
use native.Mathlib.Nat.{le-div_iff_mul-le, div-mul-le_self, lt-div-mul-add}

-- The page is there behind `ensure_loaded_with`.
there-part :
    (file : List ℕ) (offset end start size : ℕ) (o : Option CachedPage)
    → end ≤ u64_max
    → page_data o ≡ some (take size (drop start file))
    → page_part offset end start o ≡ slice (max offset start) (min end (start + size)) file
there-part file offset end start size none h e = cc
there-part file offset end start size (some p) h e =
    page_part-slice file start size offset end p h (cc)

-- What a read leaves.
pub record Reads (file : List ℕ) (from end : ℕ) (c : PageCache) (r : HxResult (List ℕ) × PageCache)
    : Type 0 where
  pub gives : r.0 ≡ ok (slice from end file)
  pub valid : IsCache file r.1
  pub same_size : r.1.page_size ≡ c.page_size

prepend-Reads :
    (file : List ℕ) (from m end : ℕ) (c d : PageCache) (part : List ℕ)
    (r : HxResult (List ℕ) × PageCache)
    → from ≤ m
    → part ≡ slice from (min end m) file
    → d.page_size ≡ c.page_size
    → Reads file m end d r
    → Reads file from end c (prepend part r)
prepend-Reads file from m end c d part (err e, r) h p s v = absurd (let q = v.gives in cc)
prepend-Reads file from m end c d part (ok out, r) h p s v = record {
  gives = ap ok (ap₂ ◌++◌ p (let q = v.gives in cc) ∙ slice-join from m end file h);
  valid = v.valid;
  same_size = v.same_size ∙ s;
}

later_page :
    (offset k size size' : ℕ) → size' ≡ size → offset < suc k * size → offset < suc (k + 1) * size'
later_page offset k size size' e h = rw e (omega arith)

pages_left :
    (end k count size size' : ℕ)
    → size' ≡ size
    → end ≤ (k + suc count) * size
    → end ≤ (k + 1 + count) * size'
pages_left end k count size size' e h = rw e (omega arith)

-- Where the next page starts.
next_page :
    (offset k size size' : ℕ)
    → size' ≡ size
    → offset < suc k * size
    → max offset ((k + 1) * size') ≡ k * size + size
next_page offset k size size' e h = rw e (omega arith)

read_pages_lem :
    (file : List ℕ) (load_page : ℕ → ℕ → HxResult (List ℕ)) (offset end count k : ℕ) (c : PageCache)
    → Loads file load_page
    → IsCache file c
    → end ≤ u64_max
    → offset < suc k * c.page_size
    → end ≤ (k + count) * c.page_size
    → Reads file (max offset (k * c.page_size)) end c (read_pages load_page offset end count k c)
unfolding read_pages
read_pages_lem file load_page offset end zero k c l v h a b = record {
  gives =
      ap (λ n. ok (take n (drop (max offset (k * c.page_size)) file))) {x = 0}
        {y = end - max offset (k * c.page_size)} (omega arith);
  valid = v;
  same_size = refl;
}
read_pages_lem file load_page offset end (suc count) k c l v h a b =
    let w = ensure_loaded_with_lem file load_page k c l v in
    let d = (ensure_loaded_with load_page k c).1 in
    let from = max offset (k * c.page_size) in
    let m = max offset ((k + 1) * d.page_size) in
    let next : m ≡ k * c.page_size + c.page_size =
      next_page offset k c.page_size d.page_size w.same_size a in
    let part =
      there-part file offset end (k * c.page_size) c.page_size (page_at k d.entries) h w.there in
    rw w.done (
      prepend-Reads file from m end c d
        (page_part offset end (k * c.page_size) (page_at k d.entries))
        (read_pages load_page offset end count (k + 1) d) (omega arith)
        (part ∙ ap (λ n. slice from (min end n) file) (sym next)) w.same_size
        (read_pages_lem file load_page offset end count (k + 1) d l w.valid h
          (later_page offset k c.page_size d.page_size w.same_size a)
          (pages_left end k count c.page_size d.page_size w.same_size b)))

returned-Reads :
    (file : List ℕ) (from end : ℕ) (c : PageCache) (r : HxResult (List ℕ) × PageCache)
    → Reads file from end c r
    → Reads file from end c (returned r)
returned-Reads file from end c (err e, d) v = absurd (let q = v.gives in cc)
returned-Reads file from end c (ok out, d) v = record {
  gives = v.gives;
  valid = record {
    sized = v.valid.sized;
    roomy = v.valid.roomy;
    fits = v.valid.fits;
    used = v.valid.used;
    right = v.valid.right;
  };
  same_size = v.same_size;
}

called-IsCache : (file : List ℕ) (c : PageCache) → IsCache file c → IsCache file (called c)
called-IsCache file c v = record {
  sized = v.sized;
  roomy = v.roomy;
  fits = v.fits;
  used = v.used;
  right = v.right;
}

-- The pages of a read reach from its first byte to its last.
first_page : (offset size : ℕ) → 0 < size → offset < suc (offset / size) * size
first_page offset size h = omega (arith, lt-div-mul-add {a = offset} {b = size} h)

last_page :
    (offset len size : ℕ)
    → 0 < size
    → 0 < len
    → offset + len ≤ (offset / size + (suc ((offset + (len - 1)) / size) - offset / size)) * size
last_page offset len size h l =
    let last = offset + (len - 1) in
    let p = offset / size in
    let ordered : p ≤ last / size =
      (le-div_iff_mul-le {k = size} {x = p} {y = last} h).1
        (omega (arith, div-mul-le_self offset size)) in
    subst (λ k. offset + len ≤ k * size) {x = suc (last / size)} {y = p + (suc (last / size) - p)}
      (omega arith) (omega (arith, lt-div-mul-add {a = last} {b = size} h))

unsaturated : (a b : ℕ) → a + b ≤ u64_max → saturating_add a b ≡ a + b
unsaturated a b h = omega arith

-- On a cache that holds pages of the file, with a loader that reads the file, `read_range_with`
-- returns the bytes of the file from the offset on, at most as many as asked for, whatever pages
-- were cached or are evicted on the way; the cache still holds pages of the file, at most as many as
-- its capacity. The range ends below 2^64.
pub read_range_with_lem :
    (file : List ℕ) (load_page : ℕ → ℕ → HxResult (List ℕ)) (offset len : ℕ) (c : PageCache)
    → Loads file load_page
    → IsCache file c
    → offset + len ≤ u64_max
    → let r = read_range_with load_page offset len c in
      (r.0 ≡ ok (take len (drop offset file))) × IsCache file r.1
unfolding read_range_with
read_range_with_lem file load_page offset len c l v h = elim (Bool-cases (len == 0)) [
  | inl z ↦
      rw z
        (ap (λ n. ok (take n (drop offset file))) {x = 0} {y = len} (omega (arith, ==→≡ _ _ z)), v)
  | inr z ↦
      let size = c.page_size in
      let first = offset / size in
      let r =
        read_pages load_page offset (offset + len) (suc ((offset + (len - 1)) / size) - first) first
          (called c) in
      let positive : 0 < len = omega (arith, ==→≢ _ _ z) in
      let pages : Reads file (max offset (first * size)) (offset + len) (called c) r =
        read_pages_lem file load_page offset (offset + len)
          (suc ((offset + (len - 1)) / size) - first) first (called c) l (called-IsCache file c v) h
          (first_page offset size v.sized) (last_page offset len size v.sized positive) in
      let w = returned-Reads file (max offset (first * size)) (offset + len) (called c) r pages in
      let aligned : max offset (first * size) ≡ offset =
        omega (arith, div-mul-le_self offset size) in
      let exact : slice (max offset (first * size)) (offset + len) file
          ≡ take len (drop offset file) =
        ap (λ i. slice i (offset + len) file) aligned
        ∙ ap (λ n. take n (drop offset file)) {x = offset + len - offset} {y = len} (omega arith) in
      rw (z, unsaturated offset (len - 1) (omega arith), unsaturated offset len h)
        (w.gives ∙ ap ok exact, w.valid)
]
