-- ===== src/SelectJobs/Jobs.antt =====
-- The jobs beside the E2E suites: JOB_GROUPS, `_job_flag`, `_job_reason` and
-- `render_job_group_table` of .github/scripts/select-jobs.py.
pub mod Installer
use osac_test_infra.Prelude.{
  Bool, true, false, Option, none, some, List, [], ◌∷◌, ◌++◌, ◌||◌, if◌then◌else◌, codes, any, map,
}
use osac_test_infra.Prelude.Search.{bytes_eq}
use osac_test_infra.Text.{Text}

-- context["jobs"]: the flag "code", and the groups; both default to what is missing.
pub record Jobs : Type 0 where
  pub code : Bool
  pub groups : List (Text × List (Text × Bool))

abbrev pub no_jobs : Jobs
no_jobs = record { code = false; groups = [] }

-- The path of a row: "code", "or:<group>", or a group and a key.
pub data FlagPath : Type 0 where
  code_flag : FlagPath
  any_flag : Text → FlagPath
  key_flag : Text → Text → FlagPath

pub record Row : Type 0 where
  pub label : Text
  pub path : FlagPath

abbrev row : Text → FlagPath → Row
row label path = record { label = label; path = path }

-- JOB_GROUPS
abbrev pub unit_tests : List Row
unit_tests =
    row (codes "fulfillment-service") code_flag
    ∷ row (codes "osac-metering") code_flag
    ∷ row (codes "osac-metering/adapters") code_flag
    ∷ row (codes "osac-metering/schema") code_flag
    ∷ []

abbrev pub integration_tests : List Row
integration_tests =
    row (codes "fulfillment-service") code_flag
    ∷ row (codes "osac-operator") code_flag
    ∷ row (codes "bare-metal-fulfillment-operator") code_flag
    ∷ row (codes "osac-aap") code_flag
    ∷ row (codes "osac-installer") code_flag
    ∷ []

abbrev pub helm : Text
helm = codes "helm_lint"

abbrev pub helm_lint : List Row
helm_lint =
    row (codes "osac-operator") (key_flag helm (codes "osac_operator"))
    ∷ row (codes "bare-metal-fulfillment-operator")
        (key_flag helm (codes "bare_metal_fulfillment_operator"))
    ∷ row (codes "fulfillment-service") (key_flag helm (codes "fulfillment_service"))
    ∷ row (codes "osac-aap") (key_flag helm (codes "osac_aap"))
    ∷ row (codes "osac-csi-driver") (key_flag helm (codes "osac_csi_driver"))
    ∷ row (codes "osac-metering") (key_flag helm (codes "osac_metering"))
    ∷ row (codes "osac-installer") (any_flag helm)
    ∷ []

abbrev pub checks_and_builds : List Row
checks_and_builds =
    row (codes "Check generated code (proto)") (key_flag (codes "checks") (codes "proto"))
    ∷ row (codes "fulfillment-service checks")
        (key_flag (codes "checks") (codes "fulfillment_service"))
    ∷ row (codes "Build container image (osac-operator)")
        (key_flag (codes "builds") (codes "osac_operator"))
    ∷ row (codes "Build container image (bare-metal-fulfillment-operator)")
        (key_flag (codes "builds") (codes "bare_metal_fulfillment_operator"))
    ∷ row (codes "ansible-lint (osac-aap)") (key_flag (codes "lint") (codes "osac_aap"))
    ∷ row (codes "Darwin keychain tests") (key_flag (codes "lint") (codes "darwin_keychain"))
    ∷ []

abbrev pub job_groups : List (Text × List Row)
job_groups =
    (codes "Unit Tests", unit_tests)
    ∷ (codes "Integration Tests", integration_tests)
    ∷ (codes "Helm Lint", helm_lint)
    ∷ (codes "Checks & Builds", checks_and_builds)
    ∷ []

-- group.get(key, False)
unfoldable pub get_flag : Text → List (Text × Bool) → Bool
unfolding bytes_eq
get_flag key [] = false
get_flag key ((k, v) ∷ flags) = let rest = get_flag key flags in if bytes_eq k key then v else rest

-- jobs.get(group, {})
unfoldable pub get_group : Text → List (Text × List (Text × Bool)) → List (Text × Bool)
unfolding bytes_eq
get_group name [] = []
get_group name ((n, flags) ∷ groups) =
    let rest = get_group name groups in if bytes_eq n name then flags else rest

-- _job_flag
unfoldable pub job_flag : Jobs → FlagPath → Bool
unfolding get_flag get_group
job_flag jobs code_flag = jobs.code
job_flag jobs (any_flag group) = any (λ f. f.1) (get_group group jobs.groups)
job_flag jobs (key_flag group key) = get_flag key (get_group group jobs.groups)

-- _job_reason
unfoldable pub job_reason : FlagPath → Bool → Text
job_reason code_flag relevant =
    if relevant
    then codes "This workflow has no per-component scoping -- runs for any non-doc change"
    else codes "No non-doc changes in this PR (this workflow has no per-component scoping)"
job_reason (any_flag group) relevant =
    if relevant
    then codes "A component chart it depends on changed"
    else codes "No dependent component chart changed"
job_reason (key_flag group key) relevant =
    if relevant
    then codes "Matches this job's path filter"
    else codes "No changed files matched this job's path filter"

abbrev pub cells : Text → Text → Text → Text
cells a b c = codes "| " ++ (a ++ (codes " | " ++ (b ++ (codes " | " ++ (c ++ codes " |")))))

-- One line of the table.
unfoldable pub render_row : Jobs → Bool → Row → Text
unfolding job_flag job_reason
render_row jobs available r =
    let relevant = job_flag jobs r.path in
    if available
    then cells r.label (if relevant then codes "run" else codes "skip") (job_reason r.path relevant)
    else cells r.label (codes "unknown")
        (codes "Jobs Selection data unavailable for this run (older context schema)")

-- The lines that render_job_group_table joins.
unfoldable pub render_job_group_table : Text → List Row → Jobs → Bool → List Text
unfolding render_row
render_job_group_table title rows jobs available =
    (codes "### " ++ title)
    ∷ []
    ∷ codes "| Job | Decision | Reason |"
    ∷ codes "|---|---|---|"
    ∷ map (render_row jobs available) rows
