-- ===== src/PageCache.antt =====
-- src/core/page_cache.rs: the cache of file pages, with its statistics.
-- A `HashMap` is an association list without an order to rely on, in which a key occurs once. The
-- loader of a page, which reads the file, is a parameter `load_page`, given the page's first offset
-- and its size. A method that fails leaves a changed cache behind, so each returns its result beside
-- the cache. The counters are plain numbers.
pub mod Entries
pub mod Evict
pub mod Load
pub mod Slices
pub mod Read
pub mod Capacity
pub mod Tests
use hxedit.Prelude.{
  List, Option, [], drop, if◌then◌else◌, leb, length, ltb, max, min, none, saturating_add, some,
  suc, take, zero, ℕ, ◌&&◌, ◌*◌, ◌++◌, ◌+◌, ◌-◌, ◌/◌, ◌==◌, ◌∷◌,
}
use hxedit.Outcome.{HxResult, err, ok}
use Prim.{Unit, tt}

pub record CacheStats : Type 0 where
  pub read_range_calls : ℕ
  pub page_hits : ℕ
  pub page_misses : ℕ
  pub bytes_returned : ℕ

unfoldable pub delta_from : CacheStats → CacheStats → CacheStats
delta_from s previous = record {
  read_range_calls = s.read_range_calls - previous.read_range_calls;
  page_hits = s.page_hits - previous.page_hits;
  page_misses = s.page_misses - previous.page_misses;
  bytes_returned = s.bytes_returned - previous.bytes_returned;
}

pub record CachedPage : Type 0 where
  pub page : List ℕ
  pub last_used : ℕ

pub record PageCache : Type 0 where
  pub page_size : ℕ
  pub capacity : ℕ
  pub entries : List (ℕ × CachedPage)
  pub generation : ℕ
  pub stats : CacheStats

abbrev no_stats : CacheStats
no_stats = record { read_range_calls = 0; page_hits = 0; page_misses = 0; bytes_returned = 0 }

unfoldable pub new : ℕ → ℕ → PageCache
new page_size capacity = record {
  page_size = max page_size 1;
  capacity = max capacity 1;
  entries = [];
  generation = 0;
  stats = no_stats;
}

unfoldable pub clear : PageCache → PageCache
clear c = record c { entries = []; generation = 0 }

-- `entries.get`.
unfoldable pub page_at : ℕ → List (ℕ × CachedPage) → Option CachedPage
page_at k [] = none
page_at k ((j, p) ∷ m) = if j == k then some p else page_at k m

-- `entries.remove`.
unfoldable pub remove_page : ℕ → List (ℕ × CachedPage) → List (ℕ × CachedPage)
remove_page k [] = []
remove_page k ((j, p) ∷ m) = let rest = remove_page k m in if j == k then rest else (j, p) ∷ rest

-- `entry.last_used = generation`.
unfoldable pub touch : ℕ → ℕ → List (ℕ × CachedPage) → List (ℕ × CachedPage)
touch k generation [] = []
touch k generation ((j, p) ∷ m) =
    let rest = touch k generation m in
    if j == k then (j, record p { last_used = generation }) ∷ m else (j, p) ∷ rest

abbrev pub older : ℕ × CachedPage → Option (ℕ × CachedPage) → ℕ × CachedPage
older e none = e
older e (some f) = if leb e.1.last_used f.1.last_used then e else f

-- `min_by_key(|(_, entry)| entry.last_used)`.
unfoldable pub oldest : List (ℕ × CachedPage) → Option (ℕ × CachedPage)
oldest [] = none
oldest (e ∷ m) = some (older e (oldest m))

-- The loop of `evict_if_needed`. Each turn removes an entry, so the number of the entries is fuel
-- enough.
unfoldable pub evict : ℕ → ℕ → List (ℕ × CachedPage) → List (ℕ × CachedPage)
evict capacity zero m = m
evict capacity (suc fuel) m =
    let next : List (ℕ × CachedPage) = elim (oldest m) [
      | none ↦ m
      | some e ↦ evict capacity fuel (remove_page e.0 m)
    ] in
    if ltb capacity (length m) then next else m

unfoldable pub evict_if_needed : PageCache → PageCache
evict_if_needed c = record c { entries = evict c.capacity (length c.entries) c.entries }

abbrev pub hit : ℕ → PageCache → PageCache
hit page_idx c = record c {
  entries = touch page_idx (c.generation + 1) c.entries;
  generation = c.generation + 1;
  stats = record c.stats { page_hits = c.stats.page_hits + 1 };
}

abbrev pub missed : PageCache → PageCache
missed c = record c { stats = record c.stats { page_misses = c.stats.page_misses + 1 } }

abbrev pub with_page : ℕ → List ℕ → PageCache → PageCache
with_page page_idx buf c = record c {
  generation = c.generation + 1;
  entries =
      (page_idx, record { page = buf; last_used = c.generation + 1 })
      ∷ remove_page page_idx c.entries;
}

abbrev pub stored : ℕ → HxResult (List ℕ) → PageCache → HxResult (Unit {0}) × PageCache
stored page_idx (err e) c = (err e, c)
stored page_idx (ok buf) c = (ok tt, evict_if_needed (with_page page_idx buf c))

-- By what `entries.get_mut` finds.
abbrev pub loaded :
    (ℕ → ℕ → HxResult (List ℕ))
    → ℕ
    → PageCache
    → Option CachedPage
    → HxResult (Unit {0}) × PageCache
loaded load_page page_idx c (some entry) = (ok tt, hit page_idx c)
loaded load_page page_idx c none =
    stored page_idx (load_page (page_idx * c.page_size) c.page_size) (missed c)

unfoldable pub ensure_loaded_with :
    (ℕ → ℕ → HxResult (List ℕ)) → ℕ → PageCache → HxResult (Unit {0}) × PageCache
ensure_loaded_with load_page page_idx c = loaded load_page page_idx c (page_at page_idx c.entries)

-- What a page contributes to the output.
abbrev pub page_part : ℕ → ℕ → ℕ → Option CachedPage → List ℕ
page_part offset requested_end page_start none = []
page_part offset requested_end page_start (some entry) =
    let slice_start = if ltb page_start offset then offset - page_start else 0 in
    let wanted_end = min requested_end (saturating_add page_start (length entry.page)) in
    let slice_end = wanted_end - page_start in
    if ltb slice_start slice_end && leb slice_end (length entry.page)
    then take (slice_end - slice_start) (drop slice_start entry.page)
    else []

abbrev pub prepend : List ℕ → HxResult (List ℕ) × PageCache → HxResult (List ℕ) × PageCache
prepend part (err e, c) = (err e, c)
prepend part (ok out, c) = (ok (part ++ out), c)

-- The `?` behind `ensure_loaded_with`.
abbrev pub followed :
    HxResult (Unit {0})
    → PageCache
    → List ℕ
    → HxResult (List ℕ) × PageCache
    → HxResult (List ℕ) × PageCache
followed (err e) c part rest = (err e, c)
followed (ok _) c part rest = prepend part rest

-- The loop of `read_range_with` over `count` pages from `page_idx` on.
unfoldable pub read_pages :
    (ℕ → ℕ → HxResult (List ℕ)) → ℕ → ℕ → ℕ → ℕ → PageCache → HxResult (List ℕ) × PageCache
read_pages load_page offset requested_end zero page_idx c = (ok [], c)
read_pages load_page offset requested_end (suc count) page_idx c =
    let found = ensure_loaded_with load_page page_idx c in
    let part =
      page_part offset requested_end (page_idx * c.page_size) (page_at page_idx found.1.entries) in
    let rest = read_pages load_page offset requested_end count (page_idx + 1) found.1 in
    followed found.0 found.1 part rest

abbrev pub called : PageCache → PageCache
called c = record c { stats = record c.stats { read_range_calls = c.stats.read_range_calls + 1 } }

abbrev pub returned : HxResult (List ℕ) × PageCache → HxResult (List ℕ) × PageCache
returned (err e, c) = (err e, c)
returned (ok out, c) = (
  ok out,
  record c { stats = record c.stats { bytes_returned = c.stats.bytes_returned + length out } },
)

unfoldable pub read_range_with :
    (ℕ → ℕ → HxResult (List ℕ)) → ℕ → ℕ → PageCache → HxResult (List ℕ) × PageCache
read_range_with load_page offset len c =
    let start_page = offset / c.page_size in
    let end_page = saturating_add offset (len - 1) / c.page_size in
    let requested_end = saturating_add offset len in
    if len == 0
    then (ok [], c)
    else returned (
        read_pages load_page offset requested_end (suc end_page - start_page) start_page (called c))
