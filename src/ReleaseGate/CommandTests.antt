-- ===== src/ReleaseGate/CommandTests.antt =====
-- The theorems on a whole directory and on the command, at concrete values.
use osac_test_infra.Prelude.{
  ℕ, ◌≤◌, ◌≡◌, refl, true, false, none, some, List, [], ◌∷◌, ◌++◌, arith, codes, length, map,
}
use osac_test_infra.Prelude.Search.{Bytes, starts_with, bytes_eq}
use osac_test_infra.Text.{split_words, decimal, encode_text, lower, decode_strict}
use osac_test_infra.ReleaseGate.Base64.{decode_b64}
use osac_test_infra.ReleaseGate.Censor.{Inventory}
use osac_test_infra.ReleaseGate.Archive.{
  Codecs, ZipEntry, unpacked, archive_payload, zip_members, is_archive, unpack, gzip_magic,
  zip_magic, read_bounded,
}
use osac_test_infra.ReleaseGate.Archive.Bounds.{archive_payload-unpacked}
use osac_test_infra.ReleaseGate.Inventory.{
  Json, str, obj, field, no_fields, Library, Secret, min_len, k8s_min_len, collect_needles,
  needles_from_secret_file, needles_from_k8s_secrets, is_identity, set_default, update, add_string,
}
use osac_test_infra.ReleaseGate.Inventory.Sizes.{AreLong, needles-AreLong}
use osac_test_infra.ReleaseGate.Inventory.Leaves.{
  here, in_fields, this_field, later_field, IsKnown, collect_needles-finds,
}
use osac_test_infra.ReleaseGate.Directory.{
  After, left, Report, process_directory, found, no_findings,
}
use osac_test_infra.ReleaseGate.Directory.Safety.{AreSafe, process_directory-AreSafe}
use osac_test_infra.ReleaseGate.Directory.Check.{process_directory-check}
use osac_test_infra.ReleaseGate.Directory.Quiet.{process_directory-quiet}
use osac_test_infra.ReleaseGate.Main.{
  Args, writes, leave, readable, built, build_inventory, run_cli,
}
use osac_test_infra.ReleaseGate.Main.Status.{run_cli-AreSafe, run_cli-strict_pass}
use osac_test_infra.ReleaseGate.Tests.{
  ten_digits, key_rules, are_searches, no_codecs, one_value, entries, clean_file, expected_report,
  expected_afters, gate_run, clean_run, small_limit, secret,
}

process_directory-AreSafe_example :
    AreSafe ten_digits key_rules are_searches no_codecs small_limit one_value entries
      expected_afters
process_directory-AreSafe_example =
    process_directory-AreSafe ten_digits key_rules are_searches no_codecs small_limit one_value
      entries expected_report expected_afters gate_run

process_directory-check_example :
    (r : Report) × (process_directory ten_digits key_rules no_codecs small_limit one_value true
        entries
      ≡ some (r, map (λ e. left e.content) entries))
process_directory-check_example =
    process_directory-check ten_digits key_rules no_codecs small_limit one_value entries
      (omega arith, tt) (refl, (refl, (refl, tt)))

-- `json.loads` of one fixed document.
abbrev document : Json
document = obj (
    field (codes "user") (str (codes "administrator-name"))
      (field (codes "token") (str secret) no_fields))

abbrev one_document : Library
one_document = record { loads = λ text. none; high_entropy = λ text. true }

collected : (collect_needles one_document document [] []).1 ≡ true
unfolding collect_needles is_identity decode_b64 encode_text set_default lower decode_strict
collected = refl

not_identity : is_identity (codes "token") ≡ false
unfolding is_identity lower bytes_eq
not_identity = refl

encoded : encode_text secret ≡ some secret
unfolding encode_text
encoded = refl

collect_needles-finds_example : IsKnown secret (collect_needles one_document document [] []).0
collect_needles-finds_example =
    collect_needles-finds secret secret encoded one_document document
      (in_fields (later_field (this_field not_identity here))) (omega arith) [] [] collected

abbrev db_secret : Secret
db_secret = record {
  namespace = codes "osac";
  name = codes "db";
  encoded = [];
  plain = (codes "password", some (codes "correct-horse")) ∷ [];
}

needles-AreLong_example :
    AreLong min_len (needles_from_secret_file one_document (codes "x supersecretvalue y")).0
    × AreLong k8s_min_len (needles_from_k8s_secrets one_document (db_secret ∷ []) []).0
needles-AreLong_example =
    needles-AreLong one_document (codes "x supersecretvalue y") (db_secret ∷ []) [] tt

abbrev gunzips : Codecs
gunzips = record no_codecs { gunzip = λ raw. some (codes "inside") ∷ [] }

abbrev gzip_file : List ℕ
gzip_file = gzip_magic ++ codes "..."

opened : archive_payload gunzips small_limit gzip_file ≡ unpacked (codes "inside")
unfolding archive_payload unpack is_archive read_bounded starts_with bytes_eq
opened = refl

archive_payload-unpacked_example :
    (is_archive (codes "inside") ≡ false)
    × (starts_with zip_magic gzip_file ≡ false → length (codes "inside") ≤ small_limit)
archive_payload-unpacked_example =
    archive_payload-unpacked gunzips small_limit gzip_file (codes "inside") opened

abbrev two_entries : List ZipEntry
two_entries =
    record { compress_type = 0; content = some (codes "one") ∷ [] }
    ∷ record { compress_type = 8; content = some (codes "tw") ∷ some (codes "o") ∷ [] }
    ∷ []

two_members : zip_members 6 two_entries ≡ some (codes "one" ∷ codes "two" ∷ [])
unfolding zip_members read_bounded
two_members = refl

-- The report as text, in short.
abbrev dumps : Report → Bytes
dumps r = map (λ w. length w.file) r.withheld

-- The report's path is that of a file which is there.
abbrev censoring : Args
censoring = record {
  is_dir = true;
  secret_files = readable secret ∷ [];
  env = [];
  k8s_secrets = [];
  check = false;
  fail_on_find = false;
  max_file_bytes = small_limit;
  report_name = some (codes "b.log");
  report_write = writes;
}

abbrev strict : Args
strict = record censoring { fail_on_find = true }

inventory_built : build_inventory one_document censoring ≡ built one_value
unfolding build_inventory needles_from_secret_file add_string encode_text set_default split_words
    decimal decode_b64 decode_strict update
inventory_built = refl

censoring_status :
    (run_cli one_document ten_digits key_rules no_codecs dumps censoring entries).status ≡ 0
unfolding run_cli found
censoring_status = rw (inventory_built, gate_run)

run_cli-AreSafe_example :
    (inventory : Inventory) × (report : Report) × (afters : List After) × (build_inventory
        one_document censoring
      ≡ built inventory)
    × (process_directory ten_digits key_rules no_codecs small_limit inventory false entries
        ≡ some (report, afters))
    × ((run_cli one_document ten_digits key_rules no_codecs dumps censoring entries).afters
        ≡ some (leave (some (codes "b.log")) (dumps report) entries afters))
    × AreSafe ten_digits key_rules are_searches no_codecs small_limit inventory entries afters
run_cli-AreSafe_example =
    run_cli-AreSafe one_document ten_digits key_rules no_codecs dumps are_searches censoring entries
      refl (λ z. omega (arith, censoring_status))

nothing_found : found no_findings ≡ false
unfolding found
nothing_found = refl

strict_built : build_inventory one_document strict ≡ built one_value
unfolding build_inventory needles_from_secret_file add_string encode_text set_default split_words
    decimal decode_b64 decode_strict update
strict_built = refl

strict_status :
    (run_cli one_document ten_digits key_rules no_codecs dumps strict (clean_file ∷ [])).status ≡ 0
unfolding run_cli found
strict_status = rw (strict_built, clean_run)

run_cli-strict_pass_example :
    (run_cli one_document ten_digits key_rules no_codecs dumps strict (clean_file ∷ [])).afters
    ≡ some (
        leave
          (some (codes "b.log"))
          (dumps no_findings)
          (clean_file ∷ [])
          (map (λ e. left e.content) (clean_file ∷ [])))
run_cli-strict_pass_example =
    run_cli-strict_pass one_document ten_digits key_rules no_codecs dumps strict (clean_file ∷ [])
      refl strict_status

process_directory-quiet_example :
    left (codes "all fine") ∷ [] ≡ map (λ e. left e.content) (clean_file ∷ [])
process_directory-quiet_example =
    process_directory-quiet ten_digits key_rules no_codecs small_limit one_value false
      (clean_file ∷ []) no_findings (left (codes "all fine") ∷ []) clean_run nothing_found
