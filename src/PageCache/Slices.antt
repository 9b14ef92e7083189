-- ===== src/PageCache/Slices.antt =====
-- Parts of a file, as the pages of a read give them.
use hxedit.Prelude.{
  Bool-cases, List, [], ap, append-nil, arith, drop, drop-drop, if◌then◌else◌, inl, inr, leb,
  leb→le, leb→lt, length, length-drop, length-take, le→leb, ltb, ltb→le, max, min, refl,
  saturating_add, some, suc, sym, take, take-min, take-nil, u64_max, zero, ℕ, ◌&&◌, ◌++◌, ◌+◌, ◌-◌,
  ◌∙◌, ◌∷◌, ◌≡◌, ◌≤◌,
}
use hxedit.PageCache.{CachedPage, page_part}

take-plus : (j k n : ℕ) (ys : List ℕ) → n ≡ j + k → take j ys ++ take k (drop j ys) ≡ take n ys
take-plus zero k n ys e = ap (λ i. take i ys) {x = k} {y = n} (omega arith)
take-plus (suc j) k zero ys e = absurd (omega arith)
take-plus (suc j) k (suc n) [] e = take-nil k
take-plus (suc j) k (suc n) (y ∷ ys) e = ap (y ∷◌) (take-plus j k n ys (omega arith))

drop-take : (s n k : ℕ) (ys : List ℕ) → k ≡ n - s → drop s (take n ys) ≡ take k (drop s ys)
drop-take zero n k ys e = ap (λ i. take i ys) {x = n} {y = k} (omega arith)
drop-take (suc s) zero k ys e = ap (λ i. take i (drop (suc s) ys)) {x = 0} {y = k} (omega arith)
drop-take (suc s) (suc n) k [] e = sym (take-nil k)
drop-take (suc s) (suc n) k (y ∷ ys) e = drop-take s n k ys (omega arith)

take-take : (m n k : ℕ) (ys : List ℕ) → k ≡ min m n → take m (take n ys) ≡ take k ys
take-take zero n k ys e = ap (λ i. take i ys) {x = 0} {y = k} (omega arith)
take-take (suc m) zero k ys e = ap (λ i. take i ys) {x = 0} {y = k} (omega arith)
take-take (suc m) (suc n) k [] e = sym (take-nil k)
take-take (suc m) (suc n) zero (y ∷ ys) e = absurd (omega arith)
take-take (suc m) (suc n) (suc k) (y ∷ ys) e = ap (y ∷◌) (take-take m n k ys (omega arith))

take-same : (m n : ℕ) (ys : List ℕ) → min m (length ys) ≡ min n (length ys) → take m ys ≡ take n ys
take-same m n ys e =
    sym (take-min m (min m (length ys)) ys refl) ∙ take-min n (min m (length ys)) ys e

-- The bytes of the file from `a` up to `b`.
abbrev pub slice : ℕ → ℕ → List ℕ → List ℕ
slice a b file = take (b - a) (drop a file)

-- Two neighbouring parts, where the second may be empty.
take-cut :
    (i j n : ℕ) (ys : List ℕ) → i ≡ min n j → take i ys ++ take (n - j) (drop j ys) ≡ take n ys
take-cut i j n ys e = elim (Bool-cases (leb j n)) [
  | inl h ↦
      ap (λ k. take k ys ++ take (n - j) (drop j ys)) {x = i} {y = j} (omega (arith, leb→le _ _ h))
      ∙ take-plus j (n - j) n ys (omega (arith, leb→le _ _ h))
  | inr h ↦
      ap (λ k. take i ys ++ take k (drop j ys)) {x = n - j} {y = 0} (omega (arith, leb→lt _ _ h))
      ∙ append-nil (take i ys)
      ∙ ap (λ k. take k ys) {x = i} {y = n} (omega (arith, leb→lt _ _ h))
]

pub slice-join :
    (a m b : ℕ) (file : List ℕ) → a ≤ m → slice a (min b m) file ++ slice m b file ≡ slice a b file
slice-join a m b file h =
    ap (λ xs. slice a (min b m) file ++ take (b - m) xs)
      (sym (drop-drop (m - a) a m file (omega arith)))
    ∙ ap (λ k. slice a (min b m) file ++ take k (drop (m - a) (drop a file))) {x = b - m}
        {y = (b - a) - (m - a)} (omega arith)
    ∙ take-cut (min b m - a) (m - a) (b - a) (drop a file) (omega arith)

-- A part of a page, as a part of the file.
slice-page :
    (file : List ℕ) (start size s e n : ℕ)
    → min n (length file - (start + s)) ≡ min (min (e - s) (size - s)) (length file - (start + s))
    → take (e - s) (drop s (take size (drop start file))) ≡ take n (drop (start + s) file)
slice-page file start size s e n h =
    ap (take (e - s)) (drop-take s size (size - s) (drop start file) refl)
    ∙ take-take (e - s) (size - s) (min (e - s) (size - s)) (drop s (drop start file)) refl
    ∙ ap (take (min (e - s) (size - s))) (drop-drop s start (start + s) file refl)
    ∙ take-same (min (e - s) (size - s)) n (drop (start + s) file)
        (omega (arith, length-drop (start + s) file))

clamped :
    (s e : ℕ) (xs : List ℕ)
    → e ≤ length xs
    → (if ltb s e && leb e (length xs) then take (e - s) (drop s xs) else [])
      ≡ take (e - s) (drop s xs)
clamped s e xs h = elim (Bool-cases (ltb s e)) [
  | inl l ↦ rw (l, le→leb e (length xs) h)
  | inr l ↦ rw l (ap (λ k. take k (drop s xs)) {x = 0} {y = e - s} (omega (arith, ltb→le _ _ l)))
]

-- The test of `slice_start` is what the subtraction does anyway.
start_in : (start offset : ℕ) → (if ltb start offset then offset - start else 0) ≡ offset - start
start_in start offset = ground arith

saturates :
    (start l end : ℕ) → end ≤ u64_max → min end (saturating_add start l) ≡ min end (start + l)
saturates start l end h = omega arith

within_page :
    (start s size q : ℕ) → q ≤ start + size → q - (start + s) ≡ min ((q - start) - s) (size - s)
within_page start s size q h = omega arith

page_end :
    (start s size end y : ℕ)
    → min (min end (start + size) - (start + s)) (y - (start + s))
      ≡ min
          (min ((min end (start + min size (y - start)) - start) - s) (size - s))
          (y - (start + s))
page_end start s size end y = elim (Bool-cases (leb (start + size) y)) [
  | inl h ↦
      let f : min size (y - start) ≡ size = omega (arith, leb→le _ _ h) in
      let g : min end (start + size) ≤ start + size = omega arith in
      rw f (ap (λ i. min i (y - (start + s))) (within_page start s size (min end (start + size)) g))
  | inr h ↦
      let f : min size (y - start) ≡ y - start = omega (arith, leb→lt _ _ h) in
      rw f (omega (arith, leb→lt _ _ h))
]

-- What one page contributes, where the read goes from `offset` up to `end`.
pub page_part-slice :
    (file : List ℕ) (start size offset end : ℕ) (p : CachedPage)
    → end ≤ u64_max
    → p.page ≡ take size (drop start file)
    → page_part offset end start (some p) ≡ slice (max offset start) (min end (start + size)) file
page_part-slice file start size offset end p h e =
    let s = offset - start in
    let stop = min end (saturating_add start (length p.page)) - start in
    let long : length p.page ≡ min size (length file - start) =
      ap length e ∙ length-take size (drop start file) ∙ ap (min size) (length-drop start file) in
    rw (start_in start offset) (
      clamped s stop p.page (omega arith)
      ∙ ap (λ xs. take (stop - s) (drop s xs)) e
      ∙ slice-page file start size s stop (min end (start + size) - max offset start) (
          ap (λ m. min (min end (start + size) - m) (length file - (start + s)))
            {x = max offset start} {y = start + s} (omega arith)
          ∙ page_end start s size end (length file)
          ∙ ap (λ q. min (min ((q - start) - s) (size - s)) (length file - (start + s)))
              (sym (saturates start (min size (length file - start)) end h ∙ refl)
                ∙ ap (λ l. min end (saturating_add start l)) (sym long)))
      ∙ ap (λ k. take (min end (start + size) - max offset start) (drop k file)) {x = start + s}
          {y = max offset start} (omega arith))
