-- ===== src/Redact/Tree.antt =====
-- The wiping of a folder: `decode_tag_meta`, `path_inside`, `resolve_path`, `jwt_token_ranges` and
-- `redact_tree` of .github/scripts/redact.py. A path is its text behind the folder's own; what the
-- file system says of it is given, and the state is the bytes of the files behind the links.
pub mod Wiped
pub mod Runs
pub mod Safety
mod Tests
use osac_test_infra.Prelude.{
  ℕ, zero, suc, ◌+◌, Bool, true, false, not, Option, none, some, List, [], ◌∷◌, ◌++◌, ltb, leb,
  ◌==◌, ◌&&◌, ◌||◌, if◌then◌else◌, codes, length, is_empty, any, drop,
}
use osac_test_infra.Prelude.Search.{Bytes, bytes_eq, starts_with}
use osac_test_infra.Text.{Text, text_lt, after_colon}
use osac_test_infra.Redact.Ranges.{Range, apply_ranges}
use osac_test_infra.Redact.Secrets.{
  Expressions, Decoders, Finding, secret_variants, encode_all, collect_secrets,
}
use osac_test_infra.Redact.Spans.{
  encoded_fields_containing_secrets, embedded_b64_token_ranges, embedded_hex_token_ranges,
  percent_encoded_secret_ranges, plaintext_secret_ranges, hex_encoded_secret_ranges,
  findings_need_jwt_wipe,
}
use osac_test_infra.Redact.Paths.{
  path_parts, last_part, strip_slashes, relative_part, or_empty, or_zero, tag_meta, decode_tag_meta,
  parts_lt, insert_path, sort_paths,
}
use osac_test_infra.Redact.Columns.{location_ranges, verified_decoded_column_ranges}

-- The file system: `redacted_dir / rel` in its normal form, Path.resolve (`none` is an OSError), whether the target lies in the folder,
-- Path.is_file, the two searches of rglob, and Python's `int` of a text.
pub record System : Type 0 where
  pub below : Text → Text
  pub target : Text → Option Text
  pub is_under : Text → Bool
  pub is_file : Text → Bool
  pub named : Text → List Text
  pub everything : List Text
  pub int_of : Text → Option ℕ

-- The bytes of each target; `none` is an OSError.
abbrev pub Store : Type 0
Store = Text → Option Bytes

-- What a finding asks for in one file: columns by line, and decoded columns to be verified.
pub record Pending : Type 0 where
  pub path : Text
  pub cols : List (ℕ × List Range)
  pub decoded : List (ℕ × ℕ × ℕ × List Bytes)

-- pending_cols[path][line_no].append((start_col, end_col))
unfoldable pub add_col : ℕ → Range → List (ℕ × List Range) → List (ℕ × List Range)
add_col line_no span [] = (line_no, span ∷ []) ∷ []
add_col line_no span ((n, spans) ∷ cols) =
    let later = (n, spans) ∷ add_col line_no span cols in
    if n == line_no then (n, spans ++ span ∷ []) ∷ cols else later

-- The entry of a path, changed; a new one is empty before.
unfoldable pub at_path : Text → (Pending → Pending) → List Pending → List Pending
unfolding bytes_eq
at_path path change [] = change (record { path = path; cols = []; decoded = [] }) ∷ []
at_path path change (p ∷ pending) =
    let later = p ∷ at_path path change pending in
    if bytes_eq p.path path then change p ∷ pending else later

-- pending_cols.get(path, {}) and pending_decoded_depth1.get(path, [])
unfoldable pub pending_at : Text → List Pending → Pending
unfolding bytes_eq
pending_at path [] = record { path = path; cols = []; decoded = [] }
pending_at path (p ∷ pending) =
    let later = pending_at path pending in if bytes_eq p.path path then p else later

-- What a run ends with: its end, exit 1 at a file that cannot be read, or an exception.
pub data Outcome : Type 0 where
  finished : Outcome
  unreadable : Text → Outcome
  raised : Outcome

module _ (sys : System) where
  abbrev pub under : Option Text → Bool
  under none = false
  under (some t) = sys.is_under t

  -- path_inside
  abbrev pub path_inside : Text → Bool
  path_inside path = under (sys.target path)

  abbrev pub is_inside_file : Text → Bool
  is_inside_file path = sys.is_file path && path_inside path

  unfoldable pub inside_files : List Text → List Text
  inside_files [] = []
  inside_files (p ∷ paths) =
      let rest = inside_files paths in if is_inside_file p then p ∷ rest else rest

  abbrev pub the_only : List Text → Option Text
  the_only (p ∷ []) = some p
  the_only _ = none

  -- resolve_path
  unfoldable pub resolve_path : Text → Option Text
  unfolding relative_part path_parts inside_files bytes_eq
  resolve_path file_field =
      let rel = relative_part file_field in
      let candidate = sys.below rel in
      let name = last_part (path_parts [] file_field) in
      if is_empty file_field
      then none
      else if any (bytes_eq (codes "..")) (path_parts [] rel)
      then none
      else if is_inside_file candidate
      then some candidate
      else if is_empty name || bytes_eq name (codes "..")
      then none
      else the_only (inside_files (sys.named name))

  abbrev pub add_decoded :
      ℕ × ℕ × ℕ → Option (List Bytes) → Text → List Pending → Option (List Pending)
  add_decoded place none path pending = none
  add_decoded (line_no, start_col, end_col) (some secrets) path pending = some (
      at_path path
        (λ p. record {
          path = p.path;
          cols = p.cols;
          decoded = p.decoded ++ (line_no, start_col, end_col, secrets) ∷ [];
        })
        pending)

  -- What is noted of a finding whose path is known; a number that is missing is 0.
  unfoldable pub note_at : Expressions → Finding → Text → List Pending → Option (List Pending)
  unfolding decode_tag_meta add_col at_path secret_variants encode_all
  note_at re f path pending =
      let (kind, depth) = decode_tag_meta sys.int_of f in
      let end_line = if f.end_line == 0 then f.start_line else f.end_line in
      let place : ℕ × ℕ × ℕ = (f.start_line, f.start_column, f.end_column) in
      let by_column : Pending → Pending = λ p. record {
        path = p.path;
        cols = add_col f.start_line (f.start_column, f.end_column) p.cols;
        decoded = p.decoded;
      } in
      if f.start_line == 0 || f.start_column == 0 || f.end_column == 0
      then some pending
      else if not (end_line == f.start_line)
      then some pending
      else elim kind [
        | none ↦ some (at_path path by_column pending)
        | some k ↦
            if depth == 1
            then add_decoded place (encode_all (secret_variants re f.secret)) path pending
            else some pending
      ]

  unfoldable pub note_findings : Expressions → List Finding → List Pending → Option (List Pending)
  unfolding resolve_path note_at
  note_findings re [] pending = some pending
  note_findings re (f ∷ findings) pending = elim (resolve_path f.file) [
    | none ↦ note_findings re findings pending
    | some path ↦ elim (note_at re f path pending) [
      | none ↦ none
      | some pending' ↦ note_findings re findings pending'
    ]
  ]

-- The spans to wipe in a file; jwt_token_ranges is `re.jwt`.
unfoldable pub file_ranges :
    Expressions → Decoders → List Finding → List Bytes → Pending → Bytes → List Range
unfolding encoded_fields_containing_secrets embedded_b64_token_ranges embedded_hex_token_ranges
    percent_encoded_secret_ranges plaintext_secret_ranges hex_encoded_secret_ranges
    findings_need_jwt_wipe location_ranges verified_decoded_column_ranges
file_ranges re d findings secrets pending content =
    let quoted = encoded_fields_containing_secrets re d content secrets in
    let embedded = embedded_b64_token_ranges re d content secrets quoted in
    let of_secrets =
      quoted
      ++ (embedded
          ++ (embedded_hex_token_ranges re d content secrets (quoted ++ embedded)
              ++ (percent_encoded_secret_ranges re d content secrets
                  ++ (plaintext_secret_ranges content secrets
                      ++ hex_encoded_secret_ranges content secrets)))) in
    (if is_empty secrets then [] else of_secrets)
    ++ ((if findings_need_jwt_wipe re findings secrets then re.jwt content else [])
        ++ (location_ranges content pending.cols
            ++ verified_decoded_column_ranges re d content pending.decoded))

module _ (sys : System) where
  abbrev pub read_bytes : Store → Text → Option Bytes
  read_bytes store path = elim (sys.target path) [ none ↦ none | some t ↦ store t ]

  -- path.write_bytes
  abbrev pub write_target : Option Text → Bytes → Store → Store
  write_target none raw store = store
  write_target (some t) raw store = λ u. if bytes_eq t u then some raw else store u

  -- The write at the end of a round, if there is anything to wipe.
  unfoldable pub after_file : (Text → Bytes → List Range) → Text → Bytes → Store → Store
  unfolding apply_ranges bytes_eq
  after_file ranges_of path raw store =
      if is_empty (ranges_of path raw)
      then store
      else write_target (sys.target path) (apply_ranges raw (ranges_of path raw)) store

  -- The loop over the paths; what is given of a file is its spans.
  unfoldable pub wipe_files : (Text → Bytes → List Range) → List Text → Store → Store × Outcome
  unfolding after_file
  wipe_files ranges_of [] store = (store, Outcome.finished)
  wipe_files ranges_of (path ∷ paths) store =
      let skipped = wipe_files ranges_of paths store in
      if not (path_inside sys path) then skipped else elim (read_bytes store path) [
        | none ↦ (store, Outcome.unreadable path)
        | some raw ↦ wipe_files ranges_of paths (after_file ranges_of path raw store)
      ]

  unfoldable pub pending_paths : List Pending → List Text
  pending_paths [] = []
  pending_paths (p ∷ pending) =
      let rest = pending_paths pending in if path_inside sys p.path then p.path ∷ rest else rest

  -- redact_tree; a secret that cannot be encoded raises.
  unfoldable pub redact_tree : Expressions → Decoders → List Finding → Store → Store × Outcome
  unfolding collect_secrets note_findings file_ranges wipe_files inside_files pending_paths
      pending_at sort_paths
  redact_tree re d findings store = elim (collect_secrets re findings) [
    | none ↦ (store, Outcome.raised)
    | some secrets ↦ elim (note_findings sys re findings []) [
      | none ↦ (store, Outcome.raised)
      | some pending ↦
          wipe_files (λ path raw. file_ranges re d findings secrets (pending_at path pending) raw)
            (sort_paths (inside_files sys sys.everything ++ pending_paths pending)) store
    ]
  ]
