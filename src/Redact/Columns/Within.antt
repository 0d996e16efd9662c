-- ===== src/Redact/Columns/Within.antt =====
-- Where the spans of .github/scripts/redact.py lie: lines and columns stay in the content.
use osac_test_infra.Prelude.{
  ℕ, zero, suc, ◌+◌, ◌-◌, ◌≤◌, ◌<◌, Option, none, some, List, [], ◌∷◌, ◌++◌, ◌≡◌, ltb, ◌==◌, arith,
  All-append, Bool-cases, Option-cases, inl, inr, length,
}
use osac_test_infra.Prelude.Search.{Bytes}
use osac_test_infra.Redact.Ranges.{Range, slice}
use osac_test_infra.Redact.Ranges.Merge.{AreWithin}
use osac_test_infra.Redact.Secrets.{Expressions, Decoders}
use osac_test_infra.Redact.Columns.{
  column_span, offsets_from, line_start_offsets, onto_first, split_lines, without_last_empty,
  numbered_lines, nth_line, line_at, shifted, line_ranges, location_ranges, verified_span,
  verified_decoded_column_ranges, span_holds_secret,
}

pub AreWithin-append :
    (limit : ℕ) (xs ys : List Range)
    → AreWithin limit xs
    → AreWithin limit ys
    → AreWithin limit (xs ++ ys)
unfolding AreWithin
AreWithin-append limit xs ys p q = All-append (λ (r : Range). (r.0 < r.1) × (r.1 ≤ limit)) xs ys p q

-- Each line lies before the limit, from its offset on.
Fit : ℕ → List ℕ → List Bytes → Type 0
Fit limit (base ∷ offsets) (line ∷ lines) = (base + length line ≤ limit) × Fit limit offsets lines
Fit limit [] lines = Unit
Fit limit (base ∷ offsets) [] = Unit

onto_first-Fit :
    (limit idx byte : ℕ) (offsets : List ℕ) (lines : List Bytes)
    → suc idx ≤ limit
    → Fit limit (suc idx ∷ offsets) lines
    → Fit limit (idx ∷ offsets) (onto_first byte lines)
unfolding Fit
onto_first-Fit limit idx byte [] [] h f = (omega arith, tt)
onto_first-Fit limit idx byte (o ∷ offsets) [] h f = (omega arith, tt)
onto_first-Fit limit idx byte offsets (line ∷ lines) h (a, f) = (omega arith, f)

split_lines-Fit :
    (limit idx : ℕ) (raw : Bytes)
    → idx + length raw ≡ limit
    → Fit limit (idx ∷ offsets_from idx raw) (split_lines raw)
unfolding Fit offsets_from split_lines
split_lines-Fit limit idx [] h = (omega arith, tt)
split_lines-Fit limit idx (byte ∷ raw) h =
    let ih = split_lines-Fit limit (suc idx) raw (omega arith) in
    elim (Bool-cases (byte == 10)) [
      | inl e ↦ rw e (omega arith, ih)
      | inr e ↦ rw e (
          onto_first-Fit limit idx byte (offsets_from (suc idx) raw) (split_lines raw) (omega arith)
            ih)
    ]

without_last_empty-Fit :
    (limit : ℕ) (offsets : List ℕ) (lines : List Bytes)
    → Fit limit offsets lines
    → Fit limit offsets (without_last_empty lines)
unfolding Fit without_last_empty
without_last_empty-Fit limit [] lines f = tt
without_last_empty-Fit limit (o ∷ offsets) [] f = tt
without_last_empty-Fit limit (o ∷ offsets) ([] ∷ []) f = tt
without_last_empty-Fit limit (o ∷ offsets) ((c ∷ line) ∷ []) f = f
without_last_empty-Fit limit (o ∷ offsets) (line ∷ more ∷ lines) (a, f) =
    (a, without_last_empty-Fit limit offsets (more ∷ lines) f)

numbered_lines-Fit :
    (content : Bytes) → Fit (length content) (line_start_offsets content) (numbered_lines content)
unfolding line_start_offsets numbered_lines
numbered_lines-Fit [] = split_lines-Fit 0 0 [] (omega arith)
numbered_lines-Fit (c ∷ content) =
    let raw = c ∷ content in
    without_last_empty-Fit (length raw) (0 ∷ offsets_from 0 raw) (split_lines raw)
      (split_lines-Fit (length raw) 0 raw (omega arith))

nth_line-Fit :
    (limit n : ℕ) (offsets : List ℕ) (lines : List Bytes) (base : ℕ) (line : Bytes)
    → Fit limit offsets lines
    → nth_line n offsets lines ≡ some (base, line)
    → base + length line ≤ limit
unfolding Fit
nth_line-Fit limit zero (o ∷ offsets) (l ∷ lines) base line (a, f) h = ground arith
nth_line-Fit limit (suc n) (o ∷ offsets) (l ∷ lines) base line (a, f) h =
    nth_line-Fit limit n offsets lines base line f h
nth_line-Fit limit zero [] lines base line f h = cc
nth_line-Fit limit (suc n) [] lines base line f h = cc
nth_line-Fit limit zero (o ∷ offsets) [] base line f h = cc
nth_line-Fit limit (suc n) (o ∷ offsets) [] base line f h = cc

line_at_lem :
    (content : Bytes) (line_no base : ℕ) (line : Bytes)
    → line_at content line_no ≡ some (base, line)
    → base + length line ≤ length content
unfolding line_at
line_at_lem content line_no base line h = elim (Bool-cases (ltb line_no 1)) [
  | inl e ↦ let h' : ◌≡◌ {A = Option (ℕ × Bytes)} none (some (base, line)) = rw e at h in cc
  | inr e ↦
      nth_line-Fit (length content) (line_no - 1) (line_start_offsets content)
        (numbered_lines content) base line (numbered_lines-Fit content) (rw e at h)
]

column_span_lem :
    (line : Bytes) (start_col end_col start end : ℕ)
    → column_span line start_col end_col ≡ some (start, end)
    → (start < end) × (end ≤ length line)
unfolding column_span
column_span_lem line start_col end_col start end h = ground arith

shifted-AreWithin :
    (limit base : ℕ) (line : Bytes) (start_col end_col : ℕ)
    → base + length line ≤ limit
    → AreWithin limit (shifted base (column_span line start_col end_col))
unfolding AreWithin
shifted-AreWithin limit base line start_col end_col h =
    elim (Option-cases (column_span line start_col end_col)) [
      | inl e ↦ rw e tt
      | inr ((s, t), e) ↦
          let (a, b) = column_span_lem line start_col end_col s t e in
          rw e ((omega arith, omega arith), tt)
    ]

line_ranges-AreWithin :
    (limit base : ℕ) (line : Bytes) (col_pairs : List Range)
    → base + length line ≤ limit
    → AreWithin limit (line_ranges base line col_pairs)
unfolding line_ranges AreWithin
line_ranges-AreWithin limit base line [] h = tt
line_ranges-AreWithin limit base line ((a, b) ∷ col_pairs) h =
    AreWithin-append limit (shifted base (column_span line a b)) (line_ranges base line col_pairs)
      (shifted-AreWithin limit base line a b h) (line_ranges-AreWithin limit base line col_pairs h)

pub location_ranges-AreWithin :
    (content : Bytes) (line_cols : List (ℕ × List Range))
    → AreWithin (length content) (location_ranges content line_cols)
unfolding location_ranges AreWithin
location_ranges-AreWithin content [] = tt
location_ranges-AreWithin content ((line_no, col_pairs) ∷ line_cols) =
    let ih = location_ranges-AreWithin content line_cols in
    elim (Option-cases (line_at content line_no)) [
      | inl e ↦ rw (e, location_ranges) ih
      | inr ((base, line), e) ↦
          rw (e, location_ranges)
            (AreWithin-append (length content) (line_ranges base line col_pairs)
              (location_ranges content line_cols)
              (line_ranges-AreWithin (length content) base line col_pairs
                (line_at_lem content line_no base line e))
              ih)
    ]

module _ (re : Expressions) (d : Decoders) where
  verified_span-AreWithin :
      (limit : ℕ) (secrets : List Bytes) (base : ℕ) (line : Bytes) (start_col end_col : ℕ)
      → base + length line ≤ limit
      → AreWithin limit (verified_span re d secrets base line (column_span line start_col end_col))
  unfolding AreWithin
  verified_span-AreWithin limit secrets base line start_col end_col h =
      elim (Option-cases (column_span line start_col end_col)) [
        | inl e ↦ rw e tt
        | inr ((s, t), e) ↦
            let (a, b) = column_span_lem line start_col end_col s t e in
            elim (Bool-cases (span_holds_secret re d secrets (slice s t line))) [
              | inl v ↦ rw e (rw v ((omega arith, omega arith), tt))
              | inr v ↦ rw e (rw v tt)
            ]
      ]

  pub verified_decoded_column_ranges-AreWithin :
      (content : Bytes) (hits : List (ℕ × ℕ × ℕ × List Bytes))
      → AreWithin (length content) (verified_decoded_column_ranges re d content hits)
  unfolding verified_decoded_column_ranges AreWithin
  verified_decoded_column_ranges-AreWithin content [] = tt
  verified_decoded_column_ranges-AreWithin content ((line_no, a, b, []) ∷ hits) =
      verified_decoded_column_ranges-AreWithin content hits
  verified_decoded_column_ranges-AreWithin content ((line_no, a, b, s ∷ secrets) ∷ hits) =
      let ih = verified_decoded_column_ranges-AreWithin content hits in
      elim (Option-cases (line_at content line_no)) [
        | inl e ↦ rw (e, verified_decoded_column_ranges) ih
        | inr ((base, line), e) ↦
            rw (e, verified_decoded_column_ranges)
              (AreWithin-append (length content)
                (verified_span re d (s ∷ secrets) base line (column_span line a b))
                (verified_decoded_column_ranges re d content hits)
                (verified_span-AreWithin (length content) (s ∷ secrets) base line a b
                  (line_at_lem content line_no base line e))
                ih)
      ]
