-- ===== src/PageCache/Evict.antt =====
-- `evict_if_needed`: the entries then fit the capacity, those that stay are as they were, and the one
-- used last stays.
use hxedit.Prelude.{
  Bool-cases, List, Option, Option-cases, [], arith, false, inl, inr, leb, length, ltb, ltb→le,
  ltb→lt, lt→leb, none, refl, some, subst, suc, zero, ℕ, ◌+◌, ◌<◌, ◌==◌, ◌∷◌, ◌≡◌, ◌≤◌,
}
use hxedit.PageCache.{CachedPage, evict, older, oldest, page_at, remove_page}
use hxedit.PageCache.Entries.{
  Used, apart_keys, length-remove_page_lt, oldest-front, oldest-none, page_at-absent, page_at-front,
  page_at-oldest, page_at-remove_page, page_data, remove_page-Used, remove_page-front,
}

pub length-evict :
    (capacity fuel : ℕ) (m : List (ℕ × CachedPage))
    → length m ≤ capacity + fuel
    → length (evict capacity fuel m) ≤ capacity
unfolding evict
length-evict capacity zero m h = omega arith
length-evict capacity (suc fuel) m h = elim (Bool-cases (ltb capacity (length m))) [
  | inr e ↦ rw e (ltb→le _ _ e)
  | inl e ↦ elim (Option-cases (oldest m)) [
    | inl o ↦ rw (e, o) (omega (arith, oldest-none m o))
    | inr (f, o) ↦
        rw (e, o)
          (length-evict capacity fuel (remove_page f.0 m)
            (omega (arith, length-remove_page_lt f.0 m (page_at-oldest m f o))))
  ]
]

pub evict-Used :
    (capacity fuel g : ℕ) (m : List (ℕ × CachedPage)) → Used g m → Used g (evict capacity fuel m)
unfolding evict
evict-Used capacity zero g m u = u
evict-Used capacity (suc fuel) g m u = elim (Bool-cases (ltb capacity (length m))) [
  | inr e ↦ rw e u
  | inl e ↦ elim (Option-cases (oldest m)) [
    | inl o ↦ rw (e, o) u
    | inr (f, o) ↦
        rw (e, o) (evict-Used capacity fuel g (remove_page f.0 m) (remove_page-Used g f.0 m u))
  ]
]

kept :
    (j k : ℕ) (bs : List ℕ) (m : List (ℕ × CachedPage))
    → page_data (page_at k (remove_page j m)) ≡ some bs
    → page_data (page_at k m) ≡ some bs
kept j k bs m h = ground (arith, h, page_at-remove_page j k m)

-- What is found behind was found before.
pub page_at-evict :
    (capacity fuel k : ℕ) (bs : List ℕ) (m : List (ℕ × CachedPage))
    → page_data (page_at k (evict capacity fuel m)) ≡ some bs
    → page_data (page_at k m) ≡ some bs
unfolding evict
page_at-evict capacity zero k bs m h = h
page_at-evict capacity (suc fuel) k bs m h = elim (Bool-cases (ltb capacity (length m))) [
  | inr e ↦ rw e at h
  | inl e ↦ elim (Option-cases (oldest m)) [
    | inl o ↦ rw (e, o) at h
    | inr (f, o) ↦
        kept f.0 k bs m (page_at-evict capacity fuel k bs (remove_page f.0 m) (rw (e, o) at h))
  ]
]

-- The entry that a miss puts in front is the one used last, so that it is never the oldest while
-- there is another.
older-newest : (e f : ℕ × CachedPage) → f.1.last_used < e.1.last_used → older e (some f) ≡ f
older-newest e f h = rw (lt→leb e.1.last_used f.1.last_used h)

older-le :
    (g k : ℕ) (p : CachedPage) (m : List (ℕ × CachedPage))
    → p.last_used ≤ g
    → (o : Option (ℕ × CachedPage)) → ((e : ℕ × CachedPage) → o ≡ some e → e.1.last_used ≤ g)
    → (older (k, p) o).1.last_used ≤ g
older-le g k p m a none h = a
older-le g k p m a (some f) h = elim (Bool-cases (leb p.last_used f.1.last_used)) [
  | inl e ↦ rw e a
  | inr e ↦ rw e (h f refl)
]

oldest-Used :
    (g : ℕ) (m : List (ℕ × CachedPage)) (e : ℕ × CachedPage)
    → Used g m
    → oldest m ≡ some e
    → e.1.last_used ≤ g
unfolding oldest Used
oldest-Used g [] e u h = cc
oldest-Used g ((k, p) ∷ m) e (a, u) h =
    let q : older (k, p) (oldest m) ≡ e = (cc) in
    subst (λ (f : ℕ × CachedPage). f.1.last_used ≤ g) q
      (older-le g k p m a (oldest m) (λ e. oldest-Used g m e u))

pub evict-newest :
    (capacity fuel k g : ℕ) (p : CachedPage) (m : List (ℕ × CachedPage))
    → 0 < capacity
    → p.last_used ≡ g + 1
    → Used g m
    → page_at k m ≡ none
    → page_at k (evict capacity fuel ((k, p) ∷ m)) ≡ some p
unfolding evict
evict-newest capacity zero k g p m c l u n = page_at-front k p m
evict-newest capacity (suc fuel) k g p m c l u n =
    elim (Bool-cases (ltb capacity (suc (length m)))) [
      | inr e ↦ rw e (page_at-front k p m)
      | inl e ↦ elim (Option-cases (oldest m)) [
        | inl o ↦ absurd (omega (arith, oldest-none m o, ltb→lt _ _ e))
        | inr (f, o) ↦
            (let older : f.1.last_used ≤ g = oldest-Used g m f u o in
              let apart : (k == f.0) ≡ false = apart_keys k f.0 m n (page_at-oldest m f o) in
              rw
                (
                  e,
                  oldest-front (k, p) m,
                  o,
                  older-newest (k, p) f (omega arith),
                  remove_page-front f.0 k p m apart,
                )
                (evict-newest capacity fuel k g p (remove_page f.0 m) c l
                  (remove_page-Used g f.0 m u) (page_at-absent f.0 k m n)))
      ]
    ]
