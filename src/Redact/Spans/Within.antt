-- ===== src/Redact/Spans/Within.antt =====
-- Each span that the searches of .github/scripts/redact.py give holds bytes of the content.
use osac_test_infra.Prelude.{
  ℕ, zero, suc, ◌+◌, ◌≤◌, ◌<◌, true, Option, none, some, List, [], ◌∷◌, ◌++◌, ◌≡◌, refl, ap, arith,
  Bool-cases, Option-cases, inl, inr, length, length-drop, is_empty, any, drop, All,
}
use mathlib.Core.Path.{subst}
use mathlib.Core.Option.{some-injective}
use osac_test_infra.Prelude.Search.{Bytes, starts_with}
use osac_test_infra.Text.{lower}
use osac_test_infra.Redact.Ranges.{Range}
use osac_test_infra.Redact.Ranges.Merge.{AreWithin}
use osac_test_infra.Redact.Secrets.{
  Expressions, Decoders, try_hex_decode, try_percent_decode, blob_decodes_to_secret,
}
use osac_test_infra.Redact.Columns.Within.{AreWithin-append}
use osac_test_infra.Redact.Spans.{
  ranges_overlap, part, spans_decoding, encoded_fields_containing_secrets,
  embedded_b64_token_ranges, decodes_further, hex_spans, embedded_hex_token_ranges, percent_spans,
  percent_encoded_secret_ranges, find_index, find_all, occurrences, plaintext_secret_ranges,
  hexlify, hex_encoded_secret_ranges,
}

-- What the expressions' spans are relied on for: each holds bytes and lies in the content.
pub record AreSpans (re : Expressions) : Type 0 where
  pub esc_quoted : (content : Bytes) → AreWithin (length content) (re.esc_quoted_b64 content)
  pub raw_quoted : (content : Bytes) → AreWithin (length content) (re.raw_quoted_b64 content)
  pub assigned : (content : Bytes) → AreWithin (length content) (re.unquoted_assigned_b64 content)
  pub token : (content : Bytes) → AreWithin (length content) (re.b64_token content)
  pub hex : (content : Bytes) → AreWithin (length content) (re.hex_token content)
  pub percent : (content : Bytes) → AreWithin (length content) (re.percent_run content)
  pub compact : (content : Bytes) → AreWithin (length content) (re.jwt content)

module _ (re : Expressions) (d : Decoders) (content : Bytes) (secrets : List Bytes)
    (limit : ℕ) where
  spans_decoding-AreWithin :
      (skip spans : List Range)
      → AreWithin limit spans
      → AreWithin limit (spans_decoding re d content secrets skip spans)
  unfolding spans_decoding AreWithin
  spans_decoding-AreWithin skip [] w = tt
  spans_decoding-AreWithin skip (r ∷ spans) (h, w) =
      let ih = spans_decoding-AreWithin skip spans w in
      elim (Bool-cases (any (ranges_overlap r) skip)) [
        | inl e ↦ rw e ih
        | inr e ↦
            elim (Bool-cases (blob_decodes_to_secret d secrets (part re d content secrets r))) [
              | inl f ↦ rw e (rw f (h, ih))
              | inr f ↦ rw e (rw f ih)
            ]
      ]

  hex_spans-AreWithin :
      (skip spans : List Range)
      → AreWithin limit spans
      → AreWithin limit (hex_spans re d content secrets skip spans)
  unfolding hex_spans AreWithin
  hex_spans-AreWithin skip [] w = tt
  hex_spans-AreWithin skip (r ∷ spans) (h, w) =
      let ih = hex_spans-AreWithin skip spans w in
      elim (Bool-cases (any (ranges_overlap r) skip)) [
        | inl e ↦ rw e ih
        | inr e ↦
            elim (Bool-cases (
              decodes_further re d content secrets
                (try_hex_decode (part re d content secrets r)))) [
                  | inl f ↦ rw e (rw f (h, ih))
                  | inr f ↦ rw e (rw f ih)
                ]
      ]

  percent_spans-AreWithin :
      (spans : List Range)
      → AreWithin limit spans
      → AreWithin limit (percent_spans re d content secrets spans)
  unfolding percent_spans AreWithin
  percent_spans-AreWithin [] w = tt
  percent_spans-AreWithin (r ∷ spans) (h, w) =
      let ih = percent_spans-AreWithin spans w in
      elim (Bool-cases (
        decodes_further re d content secrets
          (try_percent_decode d (part re d content secrets r)))) [
            | inl f ↦ rw f (h, ih)
            | inr f ↦ rw f ih
          ]

module _ (re : Expressions) (d : Decoders) (spans : AreSpans re) (content : Bytes)
    (secrets : List Bytes) where
  pub encoded_fields-AreWithin :
      AreWithin (length content) (encoded_fields_containing_secrets re d content secrets)
  unfolding encoded_fields_containing_secrets AreWithin
  encoded_fields-AreWithin =
      let limit = length content in
      let decoding = spans_decoding re d content secrets in
      let escaped = decoding [] (re.esc_quoted_b64 content) in
      let raw = decoding escaped (re.raw_quoted_b64 content) in
      let a =
        spans_decoding-AreWithin re d content secrets limit [] (re.esc_quoted_b64 content)
          (spans.esc_quoted content) in
      let b =
        spans_decoding-AreWithin re d content secrets limit escaped (re.raw_quoted_b64 content)
          (spans.raw_quoted content) in
      let quoted = AreWithin-append limit escaped raw a b in
      let c =
        spans_decoding-AreWithin re d content secrets limit (escaped ++ raw)
          (re.unquoted_assigned_b64 content) (spans.assigned content) in
      elim (Bool-cases (is_empty secrets)) [
        | inl e ↦ rw e tt
        | inr e ↦ rw e (
            AreWithin-append limit (escaped ++ raw)
              (decoding (escaped ++ raw) (re.unquoted_assigned_b64 content)) quoted c)
      ]

  pub embedded_b64-AreWithin :
      (skip : List Range)
      → AreWithin (length content) (embedded_b64_token_ranges re d content secrets skip)
  unfolding embedded_b64_token_ranges AreWithin
  embedded_b64-AreWithin skip = elim (Bool-cases (is_empty secrets)) [
    | inl e ↦ rw e tt
    | inr e ↦ rw e (
        spans_decoding-AreWithin re d content secrets (length content) skip (re.b64_token content)
          (spans.token content))
  ]

  pub embedded_hex-AreWithin :
      (skip : List Range)
      → AreWithin (length content) (embedded_hex_token_ranges re d content secrets skip)
  unfolding embedded_hex_token_ranges AreWithin
  embedded_hex-AreWithin skip = elim (Bool-cases (is_empty secrets)) [
    | inl e ↦ rw e tt
    | inr e ↦ rw e (
        hex_spans-AreWithin re d content secrets (length content) skip (re.hex_token content)
          (spans.hex content))
  ]

  pub percent_encoded-AreWithin :
      AreWithin (length content) (percent_encoded_secret_ranges re d content secrets)
  unfolding percent_encoded_secret_ranges AreWithin
  percent_encoded-AreWithin = elim (Bool-cases (is_empty secrets)) [
    | inl e ↦ rw e tt
    | inr e ↦ rw e (
        percent_spans-AreWithin re d content secrets (length content) (re.percent_run content)
          (spans.percent content))
  ]

starts_with-le : (form xs : Bytes) → starts_with form xs ≡ true → length form ≤ length xs
unfolding starts_with
starts_with-le [] xs h = omega arith
starts_with-le (c ∷ form) [] h = cc
starts_with-le (c ∷ form) (x ∷ xs) h = ground (arith, starts_with-le form xs)

find_index_lem :
    (form xs : Bytes) (k : ℕ) → find_index form xs ≡ some k → k + length form ≤ length xs
unfolding find_index
find_index_lem [] [] k h = ground arith
find_index_lem (c ∷ form) [] k h = cc
find_index_lem form (x ∷ xs) k h = elim (Bool-cases (starts_with form (x ∷ xs))) [
  | inl e ↦
      let h' : ◌≡◌ {A = Option ℕ} (some 0) (some k) = rw e at h in
      omega (arith, starts_with-le form (x ∷ xs) e, some-injective _ _ h')
  | inr e ↦ elim (Option-cases (find_index form xs)) [
    | inl n ↦ let h' : ◌≡◌ {A = Option ℕ} none (some k) = rw n at (rw e at h) in cc
    | inr (j, n) ↦
        let h' : ◌≡◌ {A = Option ℕ} (some (suc j)) (some k) = rw n at (rw e at h) in
        omega (arith, find_index_lem form xs j n, some-injective _ _ h')
  ]
]

find_all-AreWithin :
    (limit rounds : ℕ) (form : Bytes) (start : ℕ) (rest : Bytes)
    → 0 < length form
    → start + length rest ≤ limit
    → AreWithin limit (find_all rounds form start rest)
unfolding find_all AreWithin
find_all-AreWithin limit zero form start rest h l = tt
find_all-AreWithin limit (suc rounds) form start rest h l =
    elim (Option-cases (find_index form rest)) [
      | inl e ↦ rw (e, find_all) tt
      | inr (k, e) ↦
          let n = find_index_lem form rest k e in
          rw (e, find_all)
            (
              (omega arith, omega arith),
              find_all-AreWithin limit rounds form (start + k + length form)
                  (drop (k + length form) rest) h
                  (omega (arith, length-drop (k + length form) rest)),
            )
    ]

occurrences-AreWithin :
    (form content : Bytes) → 0 < length form → AreWithin (length content) (occurrences form content)
unfolding occurrences
occurrences-AreWithin form content h =
    find_all-AreWithin (length content) (suc (length content)) form 0 content h (omega arith)

-- No secret is the empty string.
unfoldable pub HaveBytes : List Bytes → Type 0
HaveBytes secrets = All (λ s. 0 < length s) secrets

pub plaintext-AreWithin :
    (content : Bytes) (secrets : List Bytes)
    → HaveBytes secrets
    → AreWithin (length content) (plaintext_secret_ranges content secrets)
unfolding plaintext_secret_ranges HaveBytes AreWithin
plaintext-AreWithin content [] h = tt
plaintext-AreWithin content (s ∷ secrets) (a, h) =
    AreWithin-append (length content) (occurrences s content)
      (plaintext_secret_ranges content secrets) (occurrences-AreWithin s content a)
      (plaintext-AreWithin content secrets h)

length-lower : (bs : Bytes) → length (lower bs) ≡ length bs
unfolding lower
length-lower [] = refl
length-lower (b ∷ bs) = ap suc (length-lower bs)

pub hex_encoded-AreWithin :
    (content : Bytes) (secrets : List Bytes)
    → AreWithin (length content) (hex_encoded_secret_ranges content secrets)
unfolding hex_encoded_secret_ranges hexlify AreWithin
hex_encoded-AreWithin content [] = tt
hex_encoded-AreWithin content ([] ∷ secrets) = hex_encoded-AreWithin content secrets
hex_encoded-AreWithin content ((c ∷ s) ∷ secrets) =
    let lowered =
      subst (λ n. AreWithin n (occurrences (hexlify (c ∷ s)) (lower content)))
        (length-lower content)
        (occurrences-AreWithin (hexlify (c ∷ s)) (lower content) (omega arith)) in
    AreWithin-append (length content) (occurrences (hexlify (c ∷ s)) (lower content))
      (hex_encoded_secret_ranges content secrets) lowered (hex_encoded-AreWithin content secrets)
