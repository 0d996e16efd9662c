-- ===== src/Redact/Ranges/Render.antt =====
-- `apply_ranges` of .github/scripts/redact.py against a reference that looks at each byte by itself.
use osac_test_infra.Prelude.{
  ℕ, zero, suc, ◌+◌, ◌-◌, ◌≤◌, ◌<◌, Bool, true, false, List, [], ◌∷◌, ◌++◌, ◌≡◌, refl, sym, ap, ◌∙◌,
  if◌then◌else◌, arith, length, take, drop, length-drop,
}
use osac_test_infra.Prelude.Search.{Bytes}
use osac_test_infra.Redact.Ranges.{
  Range, redacted_marker, slice, merge_ranges, apply_merged, apply_ranges, covers,
}
use osac_test_infra.Redact.Ranges.Merge.{
  AreWithin, AreSeparated, merge_ranges-covers, merge_ranges-AreSeparated,
}

-- The bytes from position `i` on: one that is not hidden is copied, and each run of hidden ones is
-- one marker. The flag tells whether the byte before is hidden.
unfoldable pub render : (ℕ → Bool) → ℕ → Bool → Bytes → Bytes
render hidden i inside [] = []
render hidden i inside (b ∷ bs) =
    let gone = (if inside then [] else redacted_marker) ++ render hidden (suc i) true bs in
    let kept = b ∷ render hidden (suc i) false bs in if hidden i then gone else kept

module _ (hidden : ℕ → Bool) where
  render_outside :
      (i : ℕ) (bs : Bytes) → hidden i ≡ false → render hidden i true bs ≡ render hidden i false bs
  unfolding render
  render_outside i [] h = refl
  render_outside i (b ∷ bs) h = rw h refl

  -- A stretch of bytes that are kept.
  render_gap :
      (k i : ℕ) (bs : Bytes)
      → ((j : ℕ) → i ≤ j → j < i + k → hidden j ≡ false)
      → render hidden i false bs ≡ take k bs ++ render hidden (i + k) false (drop k bs)
  unfolding render
  render_gap zero i bs h = ap (λ j. render hidden j false bs) (omega arith)
  render_gap (suc k) i [] h = refl
  render_gap (suc k) i (b ∷ bs) h = rw (h i (omega arith) (omega arith)) (
      ap (λ x. b ∷ x)
        (render_gap k (suc i) bs (λ j l m. h j (omega arith) (omega arith))
          ∙ ap (λ j. take k bs ++ render hidden j false (drop k bs)) (omega arith)))

  -- A stretch of bytes that are hidden.
  render_run :
      (k i : ℕ) (bs : Bytes)
      → ((j : ℕ) → i ≤ j → j < i + k → hidden j ≡ true)
      → render hidden i true bs ≡ render hidden (i + k) true (drop k bs)
  unfolding render
  render_run zero i bs h = ap (λ j. render hidden j true bs) (omega arith)
  render_run (suc k) i [] h = refl
  render_run (suc k) i (b ∷ bs) h = rw (h i (omega arith) (omega arith)) (
      render_run k (suc i) bs (λ j l m. h j (omega arith) (omega arith))
      ∙ ap (λ j. render hidden j true (drop k bs)) (omega arith))

  render_start :
      (i : ℕ) (bs : Bytes)
      → 0 < length bs
      → hidden i ≡ true
      → render hidden i false bs ≡ redacted_marker ++ render hidden i true bs
  unfolding render
  render_start i [] l h = absurd (omega arith)
  render_start i (b ∷ bs) l h = rw h refl

drop_nil : (n : ℕ) → drop {A = ℕ} n [] ≡ []
drop_nil zero = refl
drop_nil (suc n) = refl

drop-drop : (m n : ℕ) (bs : Bytes) → drop n (drop m bs) ≡ drop (m + n) bs
drop-drop zero n bs = ap (λ k. drop k bs) (omega arith)
drop-drop (suc m) n [] = drop_nil n ∙ sym (drop_nil (suc m + n))
drop-drop (suc m) n (b ∷ bs) =
    let e : suc (m + n) ≡ suc m + n = omega arith in drop-drop m n bs ∙ ap (λ k. drop k (b ∷ bs)) e

-- Before the first span nothing is covered.
covers_below : (low j : ℕ) (rs : List Range) → AreSeparated low rs → j < low → covers rs j ≡ false
unfolding covers AreSeparated
covers_below low j [] s l = refl
covers_below low j ((a, b) ∷ rs) (h, k, s) l = ground (arith, covers_below (suc b) j rs s)

covers_first : (j a b : ℕ) (rs : List Range) → a ≤ j → j < b → covers ((a, b) ∷ rs) j ≡ true
unfolding covers
covers_first j a b rs h k = ground arith

covers_gap :
    (low j a b : ℕ) (rs : List Range)
    → AreSeparated low ((a, b) ∷ rs)
    → j < a
    → covers ((a, b) ∷ rs) j ≡ false
unfolding covers AreSeparated
covers_gap low j a b rs (h, k, s) l = ground (arith, covers_below (suc b) j rs s)

covers_later : (j a b : ℕ) (rs : List Range) → b ≤ j → covers ((a, b) ∷ rs) j ≡ covers rs j
unfolding covers
covers_later j a b rs h = ground arith

render_plain :
    (hidden : ℕ → Bool) (i : ℕ) (bs : Bytes)
    → ((j : ℕ) → i ≤ j → hidden j ≡ false)
    → render hidden i false bs ≡ bs
unfolding render
render_plain hidden i [] h = refl
render_plain hidden i (b ∷ bs) h =
    rw (h i (omega arith))
      (ap (λ x. b ∷ x) (render_plain hidden (suc i) bs (λ j l. h j (omega arith))))

AreSeparated-weaken : (low : ℕ) (rs : List Range) → AreSeparated (suc low) rs → AreSeparated low rs
unfolding AreSeparated
AreSeparated-weaken low [] s = tt
AreSeparated-weaken low (r ∷ rs) (h, k, s) = (omega arith, k, s)

-- One span of the pass: the gap before it, the marker, and what follows.
render_span :
    (hidden : ℕ → Bool) (raw : Bytes) (c a b : ℕ)
    → c ≤ a
    → a < b
    → b ≤ length raw
    → ((j : ℕ) → c ≤ j → j < a → hidden j ≡ false)
    → ((j : ℕ) → a ≤ j → j < b → hidden j ≡ true)
    → hidden b ≡ false
    → render hidden c false (drop c raw)
      ≡ slice c a raw ++ (redacted_marker ++ render hidden b false (drop b raw))
render_span hidden raw c a b l m n free full next =
    let here : drop (a - c) (drop c raw) ≡ drop a raw =
      drop-drop c (a - c) raw ∙ ap (λ k. drop k raw) (omega arith) in
    let there : drop (b - a) (drop a raw) ≡ drop b raw =
      drop-drop a (b - a) raw ∙ ap (λ k. drop k raw) (omega arith) in
    let after : render hidden a true (drop a raw) ≡ render hidden b false (drop b raw) =
      render_run hidden (b - a) a (drop a raw) (λ j h k. full j h (omega arith))
      ∙ ap (λ x. render hidden (a + (b - a)) true x) there
      ∙ ap (λ j. render hidden j true (drop b raw)) (omega arith)
      ∙ render_outside hidden b (drop b raw) next in
    render_gap hidden (a - c) c (drop c raw) (λ j h k. free j h (omega arith))
    ∙ ap (λ x. slice c a raw ++ x)
        (ap (λ x. render hidden (c + (a - c)) false x) here
          ∙ ap (λ j. render hidden j false (drop a raw)) (omega arith)
          ∙ render_start hidden a (drop a raw) (omega (arith, length-drop a raw))
              (full a (omega arith) m)
          ∙ ap (λ x. redacted_marker ++ x) after)

apply_merged-render :
    (hidden : ℕ → Bool) (raw : Bytes) (c : ℕ) (rs : List Range)
    → AreSeparated c rs
    → AreWithin (length raw) rs
    → ((j : ℕ) → c ≤ j → hidden j ≡ covers rs j)
    → render hidden c false (drop c raw) ≡ apply_merged raw c rs
unfolding apply_merged AreWithin AreSeparated covers
apply_merged-render hidden raw c [] s w h = render_plain hidden c (drop c raw) h
apply_merged-render hidden raw c ((a, b) ∷ rs) (l, m, s) ((p, n), w) h =
    render_span hidden raw c a b l m n (λ j k o. h j k ∙ covers_gap c j a b rs (l, m, s) o)
      (λ j k o. h j (omega arith) ∙ covers_first j a b rs k o)
      (h b (omega arith)
        ∙ covers_later b a b rs (omega arith)
        ∙ covers_below (suc b) b rs s (omega arith))
    ∙ ap (λ x. slice c a raw ++ (redacted_marker ++ x))
        (apply_merged-render hidden raw b rs (AreSeparated-weaken b rs s) w
          (λ j k. h j (omega arith) ∙ covers_later j a b rs k))

-- The forward pass over the merged spans writes what the reference writes: each byte in no span as it
-- is, and one marker for each run of the others, if the spans hold bytes and lie in the data.
pub apply_ranges-render :
    (raw : Bytes) (ranges : List Range)
    → AreWithin (length raw) ranges
    → apply_ranges raw ranges ≡ render (covers ranges) 0 false raw
unfolding apply_ranges
apply_ranges-render raw ranges w =
    let (s, v) = merge_ranges-AreSeparated (length raw) ranges w in
    sym (
      apply_merged-render (covers ranges) raw 0 (merge_ranges ranges) s v
        (λ j k. sym (merge_ranges-covers j ranges)))
