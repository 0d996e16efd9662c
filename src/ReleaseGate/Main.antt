-- ===== src/ReleaseGate/Main.antt =====
-- The command: `build_inventory`, `main` and `run_cli` of .github/scripts/release_gate.py. What the
-- files and the environment hold is given; what is printed and the step summary are left out.
pub mod Status
use osac_test_infra.Prelude.{
  ℕ, zero, suc, ◌+◌, Bool, true, false, not, Option, none, some, List, [], ◌∷◌, ◌++◌, leb, ◌&&◌,
  ◌||◌, if◌then◌else◌, codes, length, is_empty,
}
use osac_test_infra.Prelude.Search.{Bytes, bytes_eq}
use osac_test_infra.Text.{Text}
use osac_test_infra.ReleaseGate.Censor.{Inventory, Hash, ShapeRule}
use osac_test_infra.ReleaseGate.Archive.{Codecs}
use osac_test_infra.ReleaseGate.Inventory.{
  Library, Secret, Collected, min_len, max_nesting, add_string, needles_from_secret_file,
  needles_from_k8s_secrets, update,
}
use osac_test_infra.ReleaseGate.Directory.{Entry, After, left, Report, found, process_directory}

-- A file of secrets, as the command finds it.
pub data SecretFile : Type 0 where
  absent unreadable : SecretFile
  readable : Text → SecretFile

-- The output of `oc get secrets -o json`, or why it could not be had; an OSError or a ValueError
-- makes it `invalid`.
pub data SecretList : Type 0 where
  missing invalid : SecretList
  valid : List Secret → SecretList

-- `environ` is what os.environ.get(name, "") returns.
pub record Variable : Type 0 where
  pub name : Text
  pub environ : Text

-- How `write_text` ends: with the report written, or with an error before or amid the writing.
pub data ReportWrite : Type 0 where
  writes refused_write : ReportWrite
  breaks_off : Bytes → ReportWrite

-- `report_name` is the name that the path of the report has in the directory, redaction-report.json
-- unless --report says otherwise; `none` stands for a path outside.
pub record Args : Type 0 where
  pub is_dir : Bool
  pub secret_files : List SecretFile
  pub env : List Variable
  pub k8s_secrets : List SecretList
  pub check : Bool
  pub fail_on_find : Bool
  pub max_file_bytes : ℕ
  pub report_name : Option Text
  pub report_write : ReportWrite

-- `refused` is a return of status 2, `crashed` an exception.
pub data Built : Type 0 where
  built : Inventory → Built
  refused crashed : Built

abbrev pub then_build : Built → (Inventory → Built) → Built
then_build (built inventory) f = f inventory
then_build refused f = refused
then_build crashed f = crashed

module _ (lib : Library) where
  -- One secret file; one with no value long enough is refused.
  unfoldable pub add_secret_file : SecretFile → Inventory → Built
  add_secret_file absent inventory = built inventory
  add_secret_file unreadable inventory = refused
  add_secret_file (readable raw) inventory =
      let (out, fine) = needles_from_secret_file lib raw in
      if not fine then crashed else if is_empty out then refused else built (update inventory out)

  unfoldable pub add_secret_files : List SecretFile → Inventory → Built
  unfolding add_secret_file
  add_secret_files [] inventory = built inventory
  add_secret_files (file ∷ files) inventory =
      then_build (add_secret_file file inventory) (add_secret_files files)

  unfoldable pub add_variable : Variable → Inventory → Built
  add_variable v inventory =
      let (out, fine) =
        add_string lib max_nesting min_len v.environ (codes "env:" ++ v.name) inventory in
      if leb min_len (length v.environ)
      then (if fine then built out else crashed)
      else built inventory

  unfoldable pub add_variables : List Variable → Inventory → Built
  unfolding add_variable
  add_variables [] inventory = built inventory
  add_variables (v ∷ vs) inventory = then_build (add_variable v inventory) (add_variables vs)

  -- A UnicodeEncodeError of the collection is a ValueError.
  unfoldable pub add_secret_list : SecretList → Inventory → Built
  add_secret_list missing inventory = built inventory
  add_secret_list invalid inventory = refused
  add_secret_list (valid secrets) inventory =
      let (out, fine) = needles_from_k8s_secrets lib secrets [] in
      if fine then built (update inventory out) else refused

  unfoldable pub add_secret_lists : List SecretList → Inventory → Built
  unfolding add_secret_list
  add_secret_lists [] inventory = built inventory
  add_secret_lists (l ∷ ls) inventory =
      then_build (add_secret_list l inventory) (add_secret_lists ls)

  unfoldable pub build_inventory : Args → Built
  unfolding add_secret_files add_variables add_secret_lists
  build_inventory args = then_build (add_secret_files args.secret_files []) (λ inventory.
      then_build (add_variables args.env inventory) (add_secret_lists args.k8s_secrets))

-- What a run returns: the exit status, and the directory if the gate went through it.
pub record Outcome : Type 0 where
  pub status : ℕ
  pub afters : Option (List After)

abbrev pub exit_with : ℕ → Outcome
exit_with n = record { status = n; afters = none }

-- A file is written under a name of the directory: an entry of that name has the new content, any
-- other stays as it is. A name that is no entry's makes a new file, which is none of the entries.
unfoldable pub replace_named : Text → Bytes → List Entry → List After → List After
unfolding bytes_eq
replace_named name raw [] afters = afters
replace_named name raw (e ∷ entries) [] = []
replace_named name raw (e ∷ entries) (after ∷ afters) =
    let rest = replace_named name raw entries afters in
    (if bytes_eq e.name name then left raw else after) ∷ rest

abbrev pub leave : Option Text → Bytes → List Entry → List After → List After
leave none raw entries afters = afters
leave (some name) raw entries afters = replace_named name raw entries afters

-- The report's `write_text`: whether it raises, and what it leaves.
abbrev pub write_report :
    ReportWrite → Option Text → Bytes → List Entry → List After → Bool × List After
write_report writes name raw entries afters = (false, leave name raw entries afters)
write_report refused_write name raw entries afters = (true, afters)
write_report (breaks_off part) name raw entries afters = (true, leave name part entries afters)

-- `dumps` is json.dumps of the report's as_json, with the sources of the inventory, as UTF-8.
module _ (lib : Library) (hash : Hash) (rules : List ShapeRule) (codecs : Codecs)
    (dumps : Report → Bytes) where
  -- The end of `main`: a check writes no report, and one that cannot be written raises.
  unfoldable pub conclude : Args → List Entry → Option (Report × List After) → Outcome
  unfolding replace_named
  conclude args entries none = exit_with 2
  conclude args entries (some (report, afters)) =
      let status = if found report && (args.check || args.fail_on_find) then 1 else 0 in
      let (raises, written) =
        write_report args.report_write args.report_name (dumps report) entries afters in
      if args.check
      then record { status = status; afters = some afters }
      else record { status = if raises then 2 else status; afters = some written }

  unfoldable pub with_inventory : Args → List Entry → Built → Outcome
  unfolding conclude
  with_inventory args entries refused = exit_with 2
  with_inventory args entries crashed = exit_with 2
  with_inventory args entries (built inventory) =
      conclude args entries
        (process_directory hash rules codecs args.max_file_bytes inventory args.check entries)

  -- run_cli: an exception that `main` lets through is status 2.
  unfoldable pub run_cli : Args → List Entry → Outcome
  unfolding with_inventory build_inventory
  run_cli args entries =
      if not args.is_dir
      then exit_with 2
      else with_inventory args entries (build_inventory lib args)
