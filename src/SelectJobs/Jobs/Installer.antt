-- ===== src/SelectJobs/Jobs/Installer.antt =====
-- The row of osac-installer in the table Helm Lint of .github/scripts/select-jobs.py.
use osac_test_infra.Prelude.{Bool, true, false, List, [], ◌∷◌, ◌≡◌, any, ◌||◌, arith, codes}
use osac_test_infra.Text.{Text}
use osac_test_infra.SelectJobs.Jobs.{Jobs, any_flag, get_flag, get_group, job_flag, helm_lint, helm}

-- A flag that is found to be set makes the group's disjunction true.
flag-any :
    (key : Text) (flags : List (Text × Bool))
    → get_flag key flags ≡ true
    → any (λ f. f.1) flags ≡ true
unfolding get_flag
flag-any key [] h = h
flag-any key ((k, v) ∷ flags) h = ground (arith, flag-any key flags)

any_of_six :
    (a b c d e f g : Bool)
    → (a ≡ true → g ≡ true)
    → (b ≡ true → g ≡ true)
    → (c ≡ true → g ≡ true)
    → (d ≡ true → g ≡ true)
    → (e ≡ true → g ≡ true)
    → (f ≡ true → g ≡ true)
    → (a || (b || (c || (d || (e || (f || (g || false))))))) ≡ true
    → g ≡ true
any_of_six a b c d e f g = ground arith

-- If any row of the table Helm Lint is to run, then so is the last one, of osac-installer, whose job
-- depends on the chart of each component.
pub job_flag-installer :
    (jobs : Jobs)
    → any (λ r. job_flag jobs r.path) helm_lint ≡ true
    → job_flag jobs (any_flag helm) ≡ true
unfolding job_flag
job_flag-installer jobs h =
    let flags = get_group helm jobs.groups in
    any_of_six _ _ _ _ _ _ _ (flag-any (codes "osac_operator") flags)
      (flag-any (codes "bare_metal_fulfillment_operator") flags)
      (flag-any (codes "fulfillment_service") flags) (flag-any (codes "osac_aap") flags)
      (flag-any (codes "osac_csi_driver") flags) (flag-any (codes "osac_metering") flags) h
