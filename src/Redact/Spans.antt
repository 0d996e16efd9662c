-- ===== src/Redact/Spans.antt =====
-- The spans to wipe in a file: the functions of .github/scripts/redact.py from
-- `encoded_fields_containing_secrets` to `hex_encoded_secret_ranges`.
pub mod Occurrences
pub mod Within
use osac_test_infra.Prelude.{
  ℕ, zero, suc, ◌+◌, ◌*◌, ◌/◌, ◌%◌, Bool, true, false, not, Option, none, some, List, [], ◌∷◌, ◌++◌,
  ltb, leb, ◌==◌, ◌&&◌, ◌||◌, if◌then◌else◌, codes, length, is_empty, any, drop, map,
}
use osac_test_infra.Prelude.Search.{Bytes, bytes_eq, starts_with}
use osac_test_infra.Text.{Text, lower}
use osac_test_infra.Redact.Ranges.{Range, slice}
use osac_test_infra.Redact.Secrets.{
  Expressions, Decoders, Finding, try_hex_decode, try_percent_decode, holds_secret,
  blob_decodes_to_secret,
}

-- _ranges_overlap
unfoldable pub ranges_overlap : Range → Range → Bool
ranges_overlap a b = not (leb a.1 b.0 || leb b.1 a.0)

module _ (re : Expressions) (d : Decoders) (content : Bytes) (secrets : List Bytes) where
  abbrev pub part : Range → Bytes
  part span = slice span.0 span.1 content

  -- The spans that overlap none of the others and decode to a secret.
  unfoldable pub spans_decoding : List Range → List Range → List Range
  unfolding ranges_overlap
  spans_decoding skip [] = []
  spans_decoding skip (span ∷ spans) =
      let rest = spans_decoding skip spans in
      if any (ranges_overlap span) skip
      then rest
      else if blob_decodes_to_secret d secrets (part span)
      then span ∷ rest
      else rest

  -- encoded_fields_containing_secrets: what is found in quotes hides the later searches.
  unfoldable pub encoded_fields_containing_secrets : List Range
  unfolding spans_decoding
  encoded_fields_containing_secrets =
      let escaped = spans_decoding [] (re.esc_quoted_b64 content) in
      let quoted = escaped ++ spans_decoding escaped (re.raw_quoted_b64 content) in
      if is_empty secrets
      then []
      else quoted ++ spans_decoding quoted (re.unquoted_assigned_b64 content)

  -- embedded_b64_token_ranges
  unfoldable pub embedded_b64_token_ranges : List Range → List Range
  unfolding spans_decoding
  embedded_b64_token_ranges skip =
      if is_empty secrets then [] else spans_decoding skip (re.b64_token content)

  -- A secret in the decoded bytes, or under a further encoding.
  abbrev pub decodes_further : Option Bytes → Bool
  decodes_further none = false
  decodes_further (some decoded) =
      holds_secret secrets decoded || blob_decodes_to_secret d secrets decoded

  unfoldable pub hex_spans : List Range → List Range → List Range
  unfolding ranges_overlap
  hex_spans skip [] = []
  hex_spans skip (span ∷ spans) =
      let rest = hex_spans skip spans in
      if any (ranges_overlap span) skip
      then rest
      else if decodes_further (try_hex_decode (part span))
      then span ∷ rest
      else rest

  -- embedded_hex_token_ranges
  unfoldable pub embedded_hex_token_ranges : List Range → List Range
  unfolding hex_spans
  embedded_hex_token_ranges skip =
      if is_empty secrets then [] else hex_spans skip (re.hex_token content)

  unfoldable pub percent_spans : List Range → List Range
  percent_spans [] = []
  percent_spans (span ∷ spans) =
      let rest = percent_spans spans in
      if decodes_further (try_percent_decode d (part span)) then span ∷ rest else rest

  -- percent_encoded_secret_ranges
  unfoldable pub percent_encoded_secret_ranges : List Range
  unfolding percent_spans
  percent_encoded_secret_ranges =
      if is_empty secrets then [] else percent_spans (re.percent_run content)

abbrev pub one_later : Option ℕ → Option ℕ
one_later none = none
one_later (some k) = some (suc k)

-- content.find(form), as a position
unfoldable pub find_index : Bytes → Bytes → Option ℕ
unfolding starts_with
find_index form [] = if is_empty form then some 0 else none
find_index form (x ∷ xs) =
    let later = one_later (find_index form xs) in
    if starts_with form (x ∷ xs) then some 0 else later

-- The `while` loop from `start` on, where `rest` is what is left of the content; a round moves on by
-- the length of the form, so a round for each byte and one more are enough for a form with bytes.
unfoldable pub find_all : ℕ → Bytes → ℕ → Bytes → List Range
unfolding find_index
find_all zero form start rest = []
find_all (suc rounds) form start rest = elim (find_index form rest) [
  | none ↦ []
  | some k ↦
      let idx = start + k in
      (idx, idx + length form)
      ∷ find_all rounds form (idx + length form) (drop (k + length form) rest)
]

unfoldable pub occurrences : Bytes → Bytes → List Range
unfolding find_all
occurrences form content = find_all (suc (length content)) form 0 content

-- plaintext_secret_ranges
unfoldable pub plaintext_secret_ranges : Bytes → List Bytes → List Range
unfolding occurrences
plaintext_secret_ranges content [] = []
plaintext_secret_ranges content (secret ∷ secrets) =
    occurrences secret content ++ plaintext_secret_ranges content secrets

abbrev pub hex_digit : ℕ → ℕ
hex_digit n = if ltb n 10 then n + 48 else n + 87

-- binascii.hexlify
unfoldable pub hexlify : Bytes → Bytes
hexlify [] = []
hexlify (b ∷ bs) = hex_digit (b / 16) ∷ hex_digit (b % 16) ∷ hexlify bs

-- hex_encoded_secret_ranges
unfoldable pub hex_encoded_secret_ranges : Bytes → List Bytes → List Range
unfolding occurrences hexlify lower
hex_encoded_secret_ranges content [] = []
hex_encoded_secret_ranges content (secret ∷ secrets) =
    let rest = hex_encoded_secret_ranges content secrets in
    if is_empty secret then rest else occurrences (hexlify secret) (lower content) ++ rest

-- findings_need_jwt_wipe
unfoldable pub findings_need_jwt_wipe : Expressions → List Finding → List Bytes → Bool
unfolding bytes_eq lower
findings_need_jwt_wipe re [] secrets = any (λ s. not (is_empty (re.jwt s))) secrets
findings_need_jwt_wipe re (f ∷ findings) secrets =
    bytes_eq (lower f.rule) (codes "jwt") || findings_need_jwt_wipe re findings secrets
