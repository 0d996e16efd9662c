-- ===== src/ReleaseGate/Tests.antt =====
-- Runs of the release gate on small inputs, and its theorems at concrete values.
use osac_test_infra.Prelude.{
  ℕ, ◌≡◌, ◌≢◌, refl, false, Option, none, some, List, [], ◌∷◌, ◌++◌, arith, codes, length, drop,
  Option-cases, inl, inr, Memᴰ,
}
use osac_test_infra.Prelude.Search.{Bytes, starts_with, contains, find, replace, count, bytes_eq}
use osac_test_infra.Prelude.Search.Occurs.{find_sound, starts_with_sound}
use osac_test_infra.ReleaseGate.Base64.{standard, encode, decode}
use osac_test_infra.Text.{decode_replace, decode_escape, json_escape, sorted_set}
use osac_test_infra.ReleaseGate.Variants.{middle, variants}
use osac_test_infra.ReleaseGate.Censor.{
  Hash, Match, ShapeRule, IsSearch, Inventory, patterns, shown_label, censor_bytes, censor_known,
  censor_shapes, present, add_hit, marker, known_marker, longest_first, substitute, replace_tokens,
}
use osac_test_infra.ReleaseGate.Censor.Silent.{AreSearches}
use osac_test_infra.ReleaseGate.Censor.Finds.{censor_bytes-finds_plain, censor_bytes-finds_base64}
use osac_test_infra.ReleaseGate.Archive.{Codecs, archive_payload, unpack, is_archive}
use osac_test_infra.ReleaseGate.Directory.{
  link, regular, Faults, Entry, After, removed, left, Report, process_directory, symbolic_link,
  no_findings, censor, survivors, add_censored, add_withheld,
}

replace_test : replace (codes "ab") (codes "X") (codes "aabab") ≡ codes "aXX"
unfolding replace
replace_test = refl

count_test : count (codes "aa") (codes "aaaaa") ≡ 2
unfolding count
count_test = refl

encode_test : encode standard (codes "user:pass") ≡ codes "dXNlcjpwYXNz"
unfolding encode
encode_test = refl

decode_test : decode (codes "YQ==") ≡ some (codes "a")
unfolding decode
decode_test = refl

-- A rule that searches for fixed bytes.
abbrev pub match_at : Bytes → Bytes × Bytes → Match
match_at p (before, from) = record { before = before; matched = p; after = drop (length p) from }

abbrev pub search_for : Bytes → Bytes → Bytes → Option Match
search_for p past rest = elim (find p rest) [ none ↦ none | some split ↦ some (match_at p split) ]

abbrev pub key_rule : ShapeRule
key_rule = record {
  name = codes "key";
  search = search_for (codes "KEY");
  rewrite = λ m. some (codes "[REDACTED:key]");
}

drop-append : (p d : Bytes) → drop (length p) (p ++ d) ≡ d
drop-append [] d = refl
drop-append (x ∷ p) d = drop-append p d

search_for-splits :
    (p past rest : Bytes) (m : Match)
    → search_for p past rest ≡ some m
    → rest ≡ m.before ++ (m.matched ++ m.after)
search_for-splits p past rest m h = elim (Option-cases (find p rest)) [
  | inl e ↦ absurd (ground arith)
  | inr (split, e) ↦
      let (whole, here) = find_sound p rest split.0 split.1 e in
      let (after, s) = starts_with_sound p split.1 here in
      ground (arith, whole, s, drop-append p after)
]

search_for-not_empty :
    (c : ℕ) (p past rest : Bytes) (m : Match)
    → search_for (c ∷ p) past rest ≡ some m
    → m.matched ≢ []
search_for-not_empty c p past rest m h e = elim (Option-cases (find (c ∷ p) rest)) [
  | inl q ↦ ground arith
  | inr (split, q) ↦ ground arith
]

search_for-IsSearch : (c : ℕ) (p : Bytes) → IsSearch (search_for (c ∷ p))
search_for-IsSearch c p = record {
  splits = search_for-splits (c ∷ p);
  not_empty = search_for-not_empty c p;
}

abbrev pub key_rules : List ShapeRule
key_rules = key_rule ∷ []

pub are_searches : AreSearches key_rules
are_searches = (search_for-IsSearch b'K' (codes "EY"), tt)

abbrev pub ten_digits : Hash
ten_digits = record { fingerprint = λ label. codes "0123456789" }

abbrev pub secret : Bytes
secret = codes "supersecretvalue"

abbrev pub one_value : Inventory
one_value = (secret, codes "token0") ∷ []

censor_bytes-finds_plain_example :
    (censor_bytes ten_digits key_rules
      (shown_label one_value)
      (patterns one_value)
      (codes "pass=" ++ (secret ++ codes ";"))).1
    ≢ []
censor_bytes-finds_plain_example =
    censor_bytes-finds_plain ten_digits key_rules are_searches (shown_label one_value) one_value
      secret (codes "token0") (Memᴰ.head refl) (codes "pass=") (codes ";")

censor_bytes-finds_base64_example :
    (censor_bytes ten_digits key_rules
      (shown_label one_value)
      (patterns one_value)
      (codes "auth: " ++ (encode standard (codes "user:" ++ (secret ++ [])) ++ codes " end"))).1
    ≢ []
censor_bytes-finds_base64_example =
    censor_bytes-finds_base64 ten_digits key_rules are_searches (shown_label one_value) one_value
      secret (codes "token0") (Memᴰ.head refl) standard (codes "auth: ") (codes "user:") []
      (codes " end") (omega arith, tt)

abbrev pub no_codecs : Codecs
no_codecs = record {
  gunzip = λ raw. none ∷ [];
  bunzip = λ raw. none ∷ [];
  unxz = λ raw. none ∷ [];
  zip_entries = λ raw. none;
  tar_members = λ raw. none;
}

abbrev pub no_faults : Faults
no_faults = record {
  kind_fails = false;
  stat_fails = false;
  read_fails = false;
  write_fails = false;
  unlink_fails = false;
  retry_fails = false;
  partial = [];
}

abbrev pub log_file : Entry
log_file = record {
  name = codes "a.log";
  kind = regular;
  content = codes "k=supersecretvalue KEY";
  faults = no_faults;
}

abbrev pub clean_file : Entry
clean_file = record {
  name = codes "b.log";
  kind = regular;
  content = codes "all fine";
  faults = no_faults;
}

abbrev pub link_file : Entry
link_file = record { name = codes "c"; kind = link; content = []; faults = no_faults }

abbrev pub entries : List Entry
entries = log_file ∷ clean_file ∷ link_file ∷ []

abbrev pub small_limit : ℕ
small_limit = 1000

abbrev pub expected_report : Report
expected_report = record {
  censored =
      record { file = codes "a.log"; rule = codes "known-value:token0"; count = 1 }
      ∷ record { file = codes "a.log"; rule = codes "shape:key"; count = 1 }
      ∷ [];
  withheld = record { file = codes "c"; reason = symbolic_link } ∷ [];
}

abbrev pub expected_afters : List After
expected_afters =
    left (codes "k=[REDACTED:known-value:0123456789] [REDACTED:key]")
    ∷ left (codes "all fine")
    ∷ removed
    ∷ []

pub gate_run :
    process_directory ten_digits key_rules no_codecs small_limit one_value false entries
    ≡ some (expected_report, expected_afters)
unfolding process_directory censor survivors censor_bytes censor_known censor_shapes patterns
    shown_label find present archive_payload unpack starts_with contains replace count variants
    encode bytes_eq add_hit marker known_marker decode_replace decode_escape json_escape
    longest_first is_archive add_censored add_withheld middle sorted_set substitute replace_tokens
gate_run = refl

pub clean_run :
    process_directory ten_digits key_rules no_codecs small_limit one_value false (clean_file ∷ [])
    ≡ some (no_findings, left (codes "all fine") ∷ [])
unfolding process_directory censor survivors censor_bytes censor_known censor_shapes patterns
    shown_label find present archive_payload unpack starts_with contains replace count variants
    encode bytes_eq add_hit marker known_marker decode_replace decode_escape json_escape
    longest_first is_archive add_censored add_withheld middle sorted_set substitute replace_tokens
clean_run = refl
