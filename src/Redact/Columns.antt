-- ===== src/Redact/Columns.antt =====
-- Line and column positions of gitleaks as byte spans: `column_span`, `line_start_offsets`,
-- `location_ranges`, `_span_holds_secret` and `verified_decoded_column_ranges` of
-- .github/scripts/redact.py.
pub mod Within
use osac_test_infra.Prelude.{
  ℕ, zero, suc, ◌+◌, ◌-◌, Bool, true, false, Option, none, some, List, [], ◌∷◌, ◌++◌, ltb, leb,
  ◌==◌, ◌||◌, if◌then◌else◌, length, is_empty, any,
}
use osac_test_infra.Prelude.Search.{Bytes}
use osac_test_infra.Redact.Ranges.{Range, slice}
use osac_test_infra.Redact.Secrets.{
  Expressions, Decoders, try_hex_decode, try_percent_decode, holds_secret, blob_decodes_to_secret,
}

abbrev pub smaller : ℕ → ℕ → ℕ
smaller a b = if ltb b a then b else a

-- column_span
unfoldable pub column_span : Bytes → ℕ → ℕ → Option Range
column_span line start_col end_col =
    if ltb start_col 1 || ltb end_col start_col
    then none
    else if leb (length line) (start_col - 1)
    then none
    else some (start_col - 1, smaller end_col (length line))

unfoldable pub offsets_from : ℕ → Bytes → List ℕ
offsets_from idx [] = []
offsets_from idx (byte ∷ raw) =
    let rest = offsets_from (suc idx) raw in if byte == 10 then suc idx ∷ rest else rest

-- line_start_offsets
unfoldable pub line_start_offsets : Bytes → List ℕ
unfolding offsets_from
line_start_offsets raw = 0 ∷ offsets_from 0 raw

abbrev pub onto_first : ℕ → List Bytes → List Bytes
onto_first byte [] = (byte ∷ []) ∷ []
onto_first byte (line ∷ lines) = (byte ∷ line) ∷ lines

-- content.split(b"\n")
unfoldable pub split_lines : Bytes → List Bytes
split_lines [] = [] ∷ []
split_lines (byte ∷ raw) =
    let rest = split_lines raw in if byte == 10 then [] ∷ rest else onto_first byte rest

-- An empty last line is left out; it is empty exactly when the content ends in a newline, or is
-- empty itself, which `content.endswith` keeps.
unfoldable pub without_last_empty : List Bytes → List Bytes
without_last_empty [] = []
without_last_empty (line ∷ []) = if is_empty line then [] else line ∷ []
without_last_empty (line ∷ more ∷ lines) = line ∷ without_last_empty (more ∷ lines)

unfoldable pub numbered_lines : Bytes → List Bytes
unfolding split_lines without_last_empty
numbered_lines content =
    if is_empty content then split_lines content else without_last_empty (split_lines content)

-- lines[line_no - 1] and offsets[line_no - 1], where there is such a line.
abbrev pub nth_line : ℕ → List ℕ → List Bytes → Option (ℕ × Bytes)
nth_line zero (base ∷ offsets) (line ∷ lines) = some (base, line)
nth_line (suc n) (base ∷ offsets) (line ∷ lines) = nth_line n offsets lines
nth_line n [] lines = none
nth_line n (base ∷ offsets) [] = none

unfoldable pub line_at : Bytes → ℕ → Option (ℕ × Bytes)
unfolding line_start_offsets numbered_lines
line_at content line_no =
    if ltb line_no 1
    then none
    else nth_line (line_no - 1) (line_start_offsets content) (numbered_lines content)

abbrev pub shifted : ℕ → Option Range → List Range
shifted base none = []
shifted base (some span) = (base + span.0, base + span.1) ∷ []

unfoldable pub line_ranges : ℕ → Bytes → List Range → List Range
unfolding column_span
line_ranges base line [] = []
line_ranges base line ((start_col, end_col) ∷ col_pairs) =
    shifted base (column_span line start_col end_col) ++ line_ranges base line col_pairs

-- location_ranges
unfoldable pub location_ranges : Bytes → List (ℕ × List Range) → List Range
unfolding line_at line_ranges
location_ranges content [] = []
location_ranges content ((line_no, col_pairs) ∷ line_cols) =
    let rest = location_ranges content line_cols in
    elim (line_at content line_no) [
      | none ↦ rest
      | some (base, line) ↦ line_ranges base line col_pairs ++ rest
    ]

module _ (re : Expressions) (d : Decoders) where
  abbrev pub decoded_holds : List Bytes → Option Bytes → Bool
  decoded_holds secrets none = false
  decoded_holds secrets (some decoded) =
      holds_secret secrets decoded || blob_decodes_to_secret d secrets decoded

  -- _span_holds_secret
  unfoldable pub span_holds_secret : List Bytes → Bytes → Bool
  span_holds_secret secrets blob =
      holds_secret secrets blob
      || blob_decodes_to_secret d secrets blob
      || any (λ r. blob_decodes_to_secret d secrets (slice r.0 r.1 blob)) (re.b64_token blob)
      || decoded_holds secrets (try_hex_decode blob)
      || decoded_holds secrets (try_percent_decode d blob)

  abbrev pub verified_span : List Bytes → ℕ → Bytes → Option Range → List Range
  verified_span secrets base line none = []
  verified_span secrets base line (some span) =
      if span_holds_secret secrets (slice span.0 span.1 line)
      then (base + span.0, base + span.1) ∷ []
      else []

  -- verified_decoded_column_ranges
  unfoldable pub verified_decoded_column_ranges : Bytes → List (ℕ × ℕ × ℕ × List Bytes) → List Range
  unfolding line_at column_span
  verified_decoded_column_ranges content [] = []
  verified_decoded_column_ranges content ((line_no, start_col, end_col, secrets) ∷ hits) =
      let rest = verified_decoded_column_ranges content hits in
      if is_empty secrets then rest else elim (line_at content line_no) [
        | none ↦ rest
        | some (base, line) ↦
            verified_span secrets base line (column_span line start_col end_col) ++ rest
      ]
