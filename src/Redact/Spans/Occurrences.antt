-- ===== src/Redact/Spans/Occurrences.antt =====
-- The loops of `find` of .github/scripts/redact.py: where a form occurs, a span reaches into it.
use osac_test_infra.Prelude.{
  ℕ, zero, suc, ◌+◌, ◌≤◌, ◌<◌, some, [], ◌∷◌, ◌++◌, ◌≡◌, refl, sym, leb, arith, Bool-cases, inl,
  inr, length, length-append, length-drop, drop, Memᴰ,
}
use mathlib.Core.Path.{subst}
use osac_test_infra.Prelude.Search.{Bytes, starts_with}
use osac_test_infra.Prelude.Search.Occurs.{starts_with_append}
use osac_test_infra.Redact.Ranges.{Range}
use osac_test_infra.Redact.Spans.{find_index, find_all, occurrences}

-- The first occurrence is no later than any other.
find_index-le :
    (form before after : Bytes)
    → (k : ℕ) × (find_index form (before ++ (form ++ after)) ≡ some k) × (k ≤ length before)
unfolding find_index starts_with
find_index-le [] [] [] = (0, refl, omega arith)
find_index-le [] [] (y ∷ after) = (0, refl, omega arith)
find_index-le (c ∷ form) [] after = (0, rw (starts_with_append (c ∷ form) after) refl, omega arith)
find_index-le form (x ∷ before) after =
    elim (Bool-cases (starts_with form (x ∷ (before ++ (form ++ after))))) [
      | inl here ↦ (0, rw here refl, omega arith)
      | inr later ↦
          let (k, e, m) = find_index-le form before after in
          (suc k, rw later (rw e refl), omega arith)
    ]

drop-append : (n : ℕ) (xs ys : Bytes) → n ≤ length xs → drop n (xs ++ ys) ≡ drop n xs ++ ys
drop-append zero xs ys h = refl
drop-append (suc n) [] ys h = absurd (omega arith)
drop-append (suc n) (x ∷ xs) ys h = drop-append n xs ys (omega arith)

-- A span that shares a byte with an occurrence of `size` bytes at `position`.
unfoldable pub Meets : ℕ → ℕ → Range → Type 0
Meets position size r = (r.0 < position + size) × (position < r.1)

-- One round of the loop.
find_all-step :
    (rounds : ℕ) (form : Bytes) (start : ℕ) (rest : Bytes) (k : ℕ)
    → find_index form rest ≡ some k
    → find_all (suc rounds) form start rest
      ≡ (start + k, start + k + length form)
        ∷ find_all rounds form (start + k + length form) (drop (k + length form) rest)
unfolding find_all
find_all-step rounds form start rest k e = rw (e, find_all) refl

-- With enough rounds, a form that stands behind `before` meets a span.
find_all-Meets :
    (rounds : ℕ) (form : Bytes) (start : ℕ) (before after : Bytes)
    → 0 < length form
    → length before < rounds
    → (r : Range) × Memᴰ r (find_all rounds form start (before ++ (form ++ after)))
      × Meets (start + length before) (length form) r
unfolding Meets
find_all-Meets zero form start before after h l = absurd (omega arith)
find_all-Meets (suc rounds) form start before after h l =
    let (k, e, m) = find_index-le form before after in
    let whole = before ++ (form ++ after) in
    let first : Range = (start + k, start + k + length form) in
    let step = find_all-step rounds form start whole k e in
    elim (Bool-cases (leb (k + length form) (length before))) [
      | inr near ↦
          (first, subst (Memᴰ first) (sym step) (Memᴰ.head refl), (ground arith, ground arith))
      | inl far ↦
          let n = k + length form in
          let left : n ≤ length before = ground arith in
          let (r, there, (a, b)) =
            find_all-Meets rounds form (start + k + length form) (drop n before) after h
              (omega (arith, length-drop n before)) in
          let here =
            subst (λ rest. Memᴰ r (find_all rounds form (start + k + length form) rest))
              (sym (drop-append n before (form ++ after) left)) there in
          (
            r,
            subst (Memᴰ r) (sym step) (Memᴰ.tail here),
            (omega (arith, length-drop n before), omega (arith, length-drop n before)),
          )
    ]

-- A form with bytes that stands in the content shares a byte with one of the spans found: enough
-- rounds are given.
pub occurrences-Meets :
    (form before after : Bytes)
    → 0 < length form
    → (r : Range) × Memᴰ r (occurrences form (before ++ (form ++ after)))
      × Meets (length before) (length form) r
unfolding occurrences Meets
occurrences-Meets form before after h =
    let (r, there, (a, b)) =
      find_all-Meets (suc (length (before ++ (form ++ after)))) form 0 before after h
        (omega (arith, length-append before (form ++ after))) in
    (r, there, (omega arith, omega arith))
