-- ===== src/Redact/Tree/Tests.antt =====
-- Runs of the redaction on small inputs, and its theorems at concrete values.
use osac_test_infra.Prelude.{
  ℕ, ◌+◌, ◌≤◌, ◌<◌, ◌≡◌, refl, true, false, none, some, List, [], ◌∷◌, ◌++◌, arith, codes, Memᴰ,
  inr, if◌then◌else◌,
}
use osac_test_infra.Prelude.Search.{Bytes, bytes_eq, starts_with}
use osac_test_infra.Text.{Text, lower}
use osac_test_infra.Redact.Ranges.{Range, apply_ranges, covers}
use osac_test_infra.Redact.Ranges.Merge.{AreWithin}
use osac_test_infra.Redact.Ranges.Render.{render, apply_ranges-render}
use osac_test_infra.Redact.Secrets.{Expressions, Decoders, Finding, collect_secrets}
use osac_test_infra.Redact.Spans.{occurrences, hexlify}
use osac_test_infra.Redact.Spans.Occurrences.{Meets, occurrences-Meets}
use osac_test_infra.Redact.Spans.Within.{AreSpans}
use osac_test_infra.Redact.Tree.{
  System, Store, Outcome, Pending, read_bytes, file_ranges, redact_tree, resolve_path, wipe_files,
  path_inside,
}
use osac_test_infra.Redact.Tree.Wiped.{IsShown, file_ranges-render}
use osac_test_infra.Redact.Tree.Safety.{Apart, redact_tree-outside, resolve_path-IsInside}
use osac_test_infra.Redact.Tree.Runs.{wipe_files-stops, wipe_files-wipes}

abbrev spans : List Range
spans = (1, 3) ∷ (2, 4) ∷ []

apply_ranges_test : apply_ranges (codes "abcdef") spans ≡ codes "a[REDACTED]ef"
unfolding apply_ranges
apply_ranges_test = refl

spans-AreWithin : AreWithin 6 spans
unfolding AreWithin
spans-AreWithin = omega arith

apply_ranges-render_example :
    apply_ranges (codes "abcdef") spans ≡ render (covers spans) 0 false (codes "abcdef")
apply_ranges-render_example = apply_ranges-render (codes "abcdef") spans spans-AreWithin

occurrences-Meets_example :
    (r : Range) × Memᴰ r (occurrences (codes "aba") (codes "ab" ++ (codes "aba" ++ codes "c")))
    × Meets 2 3 r
occurrences-Meets_example = occurrences-Meets (codes "aba") (codes "ab") (codes "c") (omega arith)

-- Expressions that find nothing, and decoders that refuse.
abbrev expressions : Expressions
expressions = record {
  esc_quoted_b64 = λ c. [];
  raw_quoted_b64 = λ c. [];
  unquoted_assigned_b64 = λ c. [];
  b64_token = λ c. [];
  hex_token = λ c. [];
  percent_run = λ c. [];
  jwt = λ c. [];
  jwt_search = λ t. none;
}

abbrev decoders : Decoders
decoders = record {
  urlsafe_b64decode = λ b. none;
  b64decode = λ b. none;
  unquote_to_bytes = λ b. b;
}

expressions-AreSpans : AreSpans expressions
unfolding AreWithin
expressions-AreSpans = record {
  esc_quoted = λ c. tt;
  raw_quoted = λ c. tt;
  assigned = λ c. tt;
  token = λ c. tt;
  hex = λ c. tt;
  percent = λ c. tt;
  compact = λ c. tt;
}

abbrev password : Text
password = codes "pw"

abbrev finding : Finding
finding = record {
  secret = password;
  file = codes "/scan/pod.log";
  start_line = 1;
  end_line = 1;
  start_column = 1;
  end_column = 2;
  rule = codes "generic";
  tags = [];
}

one_secret : collect_secrets expressions (finding ∷ []) ≡ some (password ∷ [])
unfolding collect_secrets
one_secret = refl

abbrev log : Bytes
log = codes "a 7077 pw"

abbrev nothing_pending : Pending
nothing_pending = record { path = codes "pod.log"; cols = []; decoded = [] }

in_hex : IsShown password (codes "7077") log (codes "a ") (codes " pw")
unfolding IsShown hexlify lower
in_hex = inr (refl, refl)

file_ranges-render_example :
    let ranges =
      file_ranges expressions decoders (finding ∷ []) (password ∷ []) nothing_pending log in
    (apply_ranges log ranges ≡ render (covers ranges) 0 false log)
    × ((i : ℕ) × (2 ≤ i) × (i < 2 + 4) × (covers ranges i ≡ true))
file_ranges-render_example =
    file_ranges-render expressions decoders expressions-AreSpans (finding ∷ []) (password ∷ [])
      one_secret nothing_pending log password (codes "7077") (codes "a ") (codes " pw")
      (Memᴰ.head refl) in_hex

abbrev system : System
system = record {
  below = λ rel. rel;
  target = λ p. some p;
  is_under = λ t. starts_with (codes "pod") t;
  is_file = λ p. true;
  named = λ name. name ∷ [];
  everything = codes "pod.log" ∷ [];
  int_of = λ t. none;
}

abbrev store : Store
store = λ t. some log

redact_tree_test :
    (redact_tree system expressions decoders (finding ∷ []) store).0 (codes "pod.log")
    ≡ some (codes "[REDACTED] [REDACTED]")
unfolding redact_tree
redact_tree_test = refl

abbrev host : Text
host = codes "host"

host_outside : system.is_under host ≡ false
unfolding starts_with
host_outside = refl

redact_tree-outside_example :
    (redact_tree system expressions decoders (finding ∷ []) store).0 host ≡ some log
redact_tree-outside_example =
    redact_tree-outside system expressions decoders (finding ∷ []) store host host_outside

resolved : resolve_path system (codes "/scan/pod.log") ≡ some (codes "pod.log")
unfolding resolve_path starts_with
resolved = refl

resolve_path-IsInside_example :
    (system.is_file (codes "pod.log") ≡ true) × (path_inside system (codes "pod.log") ≡ true)
resolve_path-IsInside_example =
    resolve_path-IsInside system (codes "/scan/pod.log") (codes "pod.log") resolved

abbrev first_bytes : Text → Bytes → List Range
first_bytes path raw = (0, 2) ∷ []

abbrev two_logs : List Text
two_logs = codes "pod.a" ∷ codes "pod.b" ∷ []

-- The second of the two files cannot be read.
abbrev one_readable : Store
one_readable = λ t. if bytes_eq t (codes "pod.a") then some log else none

abbrev one_wiped : Store
one_wiped = (wipe_files system first_bytes (codes "pod.a" ∷ []) one_readable).0

goes_on :
    wipe_files system first_bytes (codes "pod.a" ∷ []) one_readable ≡ (one_wiped, Outcome.finished)
unfolding wipe_files starts_with
goes_on = refl

b_inside : path_inside system (codes "pod.b") ≡ true
unfolding starts_with
b_inside = refl

b_unreadable : read_bytes system one_wiped (codes "pod.b") ≡ none
unfolding wipe_files starts_with
b_unreadable = refl

wipe_files-stops_example :
    wipe_files system first_bytes
      (codes "pod.a" ∷ [] ++ (codes "pod.b" ∷ codes "pod.c" ∷ []))
      one_readable
    ≡ (one_wiped, Outcome.unreadable (codes "pod.b"))
wipe_files-stops_example =
    wipe_files-stops system first_bytes (codes "pod.a" ∷ []) (codes "pod.c" ∷ []) (codes "pod.b")
      one_readable one_wiped goes_on b_inside b_unreadable

b_Apart : Apart system (codes "pod.a") (codes "pod.b")
unfolding Apart
b_Apart e h = ground arith

a_under : system.is_under (codes "pod.a") ≡ true
unfolding starts_with
a_under = refl

all_wiped : (wipe_files system first_bytes two_logs store).1 ≡ Outcome.finished
unfolding wipe_files starts_with
all_wiped = refl

wipe_files-wipes_example :
    (wipe_files system first_bytes two_logs store).0 (codes "pod.a")
    ≡ some (apply_ranges log ((0, 2) ∷ []))
wipe_files-wipes_example =
    wipe_files-wipes system first_bytes [] (codes "pod.b" ∷ []) (codes "pod.a") (codes "pod.a") log
      store tt (b_Apart, tt) refl a_under refl all_wiped
