-- ===== src/Redact/Ranges/Merge.antt =====
-- What `merge_ranges` of .github/scripts/redact.py keeps: the bytes covered, and how the merged
-- spans lie.
use Prim.Native.Nat.{max}
use osac_test_infra.Prelude.{
  ℕ, suc, ◌≤◌, ◌<◌, Bool, true, false, List, [], ◌∷◌, ◌≡◌, refl, ap, ◌∙◌, ltb, leb, ◌&&◌, ◌||◌,
  arith, All, Bool-cases, inl, inr,
}
use osac_test_infra.Redact.Ranges.{
  Range, is_before, insert_range, sort_ranges, merge_from, merge_sorted, merge_ranges, covers,
}

-- Each span holds a byte, and none reaches past the limit.
unfoldable pub AreWithin : ℕ → List Range → Type 0
AreWithin limit ranges = All (λ r. (r.0 < r.1) × (r.1 ≤ limit)) ranges

-- The spans hold bytes, and between two of them lies at least one byte.
unfoldable pub AreSeparated : ℕ → List Range → Type 0
AreSeparated low [] = Unit
AreSeparated low ((start, end) ∷ ranges) =
    (low ≤ start) × (start < end) × AreSeparated (suc end) ranges

AreSorted : ℕ → List Range → Type 0
AreSorted low [] = Unit
AreSorted low ((start, end) ∷ ranges) = (low ≤ start) × AreSorted start ranges

insert_range-covers :
    (i : ℕ) (r : Range) (ranges : List Range)
    → covers (insert_range r ranges) i ≡ covers (r ∷ ranges) i
unfolding insert_range covers
insert_range-covers i r [] = refl
insert_range-covers i r (s ∷ ranges) = ground (arith, insert_range-covers i r ranges)

sort_ranges-covers : (i : ℕ) (ranges : List Range) → covers (sort_ranges ranges) i ≡ covers ranges i
unfolding sort_ranges covers
sort_ranges-covers i [] = refl
sort_ranges-covers i (r ∷ ranges) =
    insert_range-covers i r (sort_ranges ranges)
    ∙ ap (λ b. (leb r.0 i && ltb i r.1) || b) (sort_ranges-covers i ranges)

insert_range-AreSorted :
    (low : ℕ) (r : Range) (ranges : List Range)
    → low ≤ r.0
    → AreSorted low ranges
    → AreSorted low (insert_range r ranges)
unfolding insert_range AreSorted
insert_range-AreSorted low r [] h s = (h, tt)
insert_range-AreSorted low (a, b) ((c, d) ∷ ranges) h (l, s) =
    ground (arith, insert_range-AreSorted c (a, b) ranges)

sort_ranges-AreSorted : (ranges : List Range) → AreSorted 0 (sort_ranges ranges)
unfolding sort_ranges AreSorted
sort_ranges-AreSorted [] = tt
sort_ranges-AreSorted (r ∷ ranges) =
    insert_range-AreSorted 0 r (sort_ranges ranges) (omega arith) (sort_ranges-AreSorted ranges)

-- A span that begins inside another one lengthens it.
join_ranges :
    (i s e a b : ℕ) (rest : Bool)
    → s ≤ a
    → leb a e ≡ true
    → ((leb s i && ltb i (max e b)) || rest)
      ≡ ((leb s i && ltb i e) || ((leb a i && ltb i b) || rest))
join_ranges i s e a b true l h = ground arith
join_ranges i s e a b false l h = ground arith

AreSorted-weaken :
    (low high : ℕ) (ranges : List Range) → low ≤ high → AreSorted high ranges → AreSorted low ranges
unfolding AreSorted
AreSorted-weaken low high [] l h = tt
AreSorted-weaken low high (r ∷ ranges) l (k, h) = (omega arith, h)

merge_from-covers :
    (i s e : ℕ) (ranges : List Range)
    → AreSorted s ranges
    → covers (merge_from s e ranges) i ≡ covers ((s, e) ∷ ranges) i
unfolding merge_from AreSorted covers
merge_from-covers i s e [] h = refl
merge_from-covers i s e ((a, b) ∷ ranges) (l, h) = elim (Bool-cases (leb a e)) [
  | inl t ↦ rw t (
      merge_from-covers i s (max e b) ranges (AreSorted-weaken s a ranges l h)
      ∙ join_ranges i s e a b (covers ranges i) l t)
  | inr t ↦ rw t (ap (λ c. (leb s i && ltb i e) || c) (merge_from-covers i a b ranges h))
]

sorted-covers :
    (i : ℕ) (rs : List Range) → AreSorted 0 rs → covers (merge_sorted rs) i ≡ covers rs i
unfolding AreSorted
sorted-covers i [] o = refl
sorted-covers i ((s, e) ∷ rs) (l, o) = merge_from-covers i s e rs o

-- Merging covers the same bytes.
pub merge_ranges-covers :
    (i : ℕ) (ranges : List Range) → covers (merge_ranges ranges) i ≡ covers ranges i
unfolding merge_ranges
merge_ranges-covers i ranges =
    sorted-covers i (sort_ranges ranges) (sort_ranges-AreSorted ranges)
    ∙ sort_ranges-covers i ranges

insert_range-AreWithin :
    (limit : ℕ) (r : Range) (ranges : List Range)
    → (r.0 < r.1) × (r.1 ≤ limit)
    → AreWithin limit ranges
    → AreWithin limit (insert_range r ranges)
unfolding insert_range AreWithin
insert_range-AreWithin limit r [] h w = (h, tt)
insert_range-AreWithin limit r (s ∷ ranges) h (k, w) = elim (Bool-cases (is_before r s)) [
  | inl t ↦ rw t (h, (k, w))
  | inr t ↦ rw t (k, insert_range-AreWithin limit r ranges h w)
]

sort_ranges-AreWithin :
    (limit : ℕ) (ranges : List Range)
    → AreWithin limit ranges
    → AreWithin limit (sort_ranges ranges)
unfolding sort_ranges AreWithin
sort_ranges-AreWithin limit [] w = tt
sort_ranges-AreWithin limit (r ∷ ranges) (h, w) =
    insert_range-AreWithin limit r (sort_ranges ranges) h (sort_ranges-AreWithin limit ranges w)

merge_from-AreSeparated :
    (limit low s e : ℕ) (ranges : List Range)
    → low ≤ s
    → s < e
    → e ≤ limit
    → AreSorted s ranges
    → AreWithin limit ranges
    → AreSeparated low (merge_from s e ranges) × AreWithin limit (merge_from s e ranges)
unfolding merge_from AreSeparated AreSorted AreWithin
merge_from-AreSeparated limit low s e [] l h k o w = ((l, h, tt), ((h, k), tt))
merge_from-AreSeparated limit low s e ((a, b) ∷ ranges) l h k (m, o) ((p, q), w) =
    elim (Bool-cases (leb a e)) [
      | inl t ↦ rw t (
          merge_from-AreSeparated limit low s (max e b) ranges l (omega arith) (omega arith)
            (AreSorted-weaken s a ranges m o) w)
      | inr t ↦
          let (x, y) = merge_from-AreSeparated limit (suc e) a b ranges (ground arith) p q o w in
          rw t ((l, h, x), ((h, k), y))
    ]

sorted-AreSeparated :
    (limit : ℕ) (rs : List Range)
    → AreSorted 0 rs
    → AreWithin limit rs
    → AreSeparated 0 (merge_sorted rs) × AreWithin limit (merge_sorted rs)
unfolding AreSorted AreWithin AreSeparated
sorted-AreSeparated limit [] o w = (tt, tt)
sorted-AreSeparated limit ((s, e) ∷ rs) (l, o) ((p, q), w) =
    merge_from-AreSeparated limit 0 s e rs l p q o w

-- The merged spans hold bytes, lie in order, and have a byte between them.
pub merge_ranges-AreSeparated :
    (limit : ℕ) (ranges : List Range)
    → AreWithin limit ranges
    → AreSeparated 0 (merge_ranges ranges) × AreWithin limit (merge_ranges ranges)
unfolding merge_ranges
merge_ranges-AreSeparated limit ranges w =
    sorted-AreSeparated limit (sort_ranges ranges) (sort_ranges-AreSorted ranges)
      (sort_ranges-AreWithin limit ranges w)
