-- ===== src/PageCache/Tests.antt =====
-- A run of the page cache with room for one page of two bytes.
use hxedit.Prelude.{List, [], arith, drop, length, none, refl, suc, take, zero, ℕ, ◌∷◌, ◌≡◌, ◌≤◌}
use hxedit.Outcome.{HxResult, err, offset_out_of_range, ok}
use hxedit.PageCache.{
  PageCache, ensure_loaded_with, evict, evict_if_needed, new, oldest, page_at, read_pages,
  read_range_with, remove_page,
}
use hxedit.PageCache.Load.{IsCache, new-IsCache}
use hxedit.PageCache.Read.{read_range_with_lem}
use hxedit.PageCache.Capacity.{read_range_with-entries}

abbrev file : List ℕ
file = 10 ∷ 11 ∷ 12 ∷ 13 ∷ 14 ∷ []

abbrev read_file : ℕ → ℕ → HxResult (List ℕ)
read_file start size = ok (take size (drop start file))

abbrev one_page : PageCache
one_page = new 2 1

read_range_with_lem_example :
    let r = read_range_with read_file 1 3 one_page in
    (r.0 ≡ ok (11 ∷ 12 ∷ 13 ∷ [])) × IsCache file r.1
read_range_with_lem_example =
    read_range_with_lem file read_file 1 3 one_page (λ start size. refl) (new-IsCache file 2 1)
      (omega arith)

-- The first page has been evicted by the second.
evicts : page_at 0 (read_range_with read_file 1 3 one_page).1.entries ≡ none
unfolding new page_at read_range_with read_pages ensure_loaded_with evict_if_needed evict oldest
    remove_page
evicts = refl

-- A loader that fails on every page but the first.
abbrev read_first : ℕ → ℕ → HxResult (List ℕ)
read_first zero size = ok (take size file)
read_first (suc start) size = err offset_out_of_range

read_range_with-entries_example :
    let c = (read_range_with read_first 1 3 one_page).1 in
    (c.capacity ≡ one_page.capacity) × (length c.entries ≤ one_page.capacity)
read_range_with-entries_example =
    read_range_with-entries read_first 1 3 one_page (unfold new in omega arith)
