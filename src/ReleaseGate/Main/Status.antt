-- ===== src/ReleaseGate/Main/Status.antt =====
-- What the exit status of the command says of the directory.
use osac_test_infra.Prelude.{
  ℕ, ◌≡◌, ◌≢◌, inl, inr, refl, ap, sym, ◌∙◌, true, false, Option, none, some, List, arith, ◌&&◌,
  ◌||◌, ◌⊎◌, if◌then◌else◌, map, Bool-cases,
}
use mathlib.Core.Path.{subst}
use osac_test_infra.Prelude.Search.{Bytes}
use osac_test_infra.Text.{Text}
use osac_test_infra.ReleaseGate.Censor.{Inventory, Hash, ShapeRule}
use osac_test_infra.ReleaseGate.Censor.Silent.{AreSearches}
use osac_test_infra.ReleaseGate.Archive.{Codecs}
use osac_test_infra.ReleaseGate.Inventory.{Library}
use osac_test_infra.ReleaseGate.Directory.{
  Entry, After, left, Report, found, no_findings, process_directory,
}
use osac_test_infra.ReleaseGate.Directory.Safety.{AreSafe, process_directory-AreSafe}
use osac_test_infra.ReleaseGate.Directory.Quiet.{
  process_directory-quiet, process_directory-no_findings,
}
use osac_test_infra.ReleaseGate.Main.{
  Args, Built, built, refused, crashed, build_inventory, Outcome, ReportWrite, writes,
  refused_write, breaks_off, leave, write_report, conclude, with_inventory, run_cli,
}

-- Either the report is written, or the writing raises.
write_cases :
    (w : ReportWrite)
    → (w ≡ writes)
      ⊎ ((name : Option Text) (raw : Bytes) (entries : List Entry) (afters : List After)
          → (write_report w name raw entries afters).0 ≡ true)
write_cases writes = inl refl
write_cases refused_write = inr (λ name raw entries afters. refl)
write_cases (breaks_off part) = inr (λ name raw entries afters. refl)

module _ (lib : Library) (hash : Hash) (rules : List ShapeRule) (codecs : Codecs)
    (dumps : Report → Bytes) where
  abbrev gate : Args → Inventory → List Entry → Option (Report × List After)
  gate args inventory entries =
      process_directory hash rules codecs args.max_file_bytes inventory args.check entries

  conclude-runs :
      (args : Args) (entries : List Entry) (o : Option (Report × List After))
      → (conclude lib hash rules codecs dumps args entries o).status ≢ 2
      → (report : Report) × (afters : List After) × (o ≡ some (report, afters))
  unfolding conclude
  conclude-runs args entries none h = absurd (h refl)
  conclude-runs args entries (some (report, afters)) h = (report, afters, refl)

  with_inventory-runs :
      (args : Args) (entries : List Entry) (b : Built)
      → (with_inventory lib hash rules codecs dumps args entries b).status ≢ 2
      → (inventory : Inventory) × (report : Report) × (afters : List After) × (b ≡ built inventory)
        × (gate args inventory entries ≡ some (report, afters))
        × (with_inventory lib hash rules codecs dumps args entries b
            ≡ conclude lib hash rules codecs dumps args entries (some (report, afters)))
  unfolding with_inventory
  with_inventory-runs args entries refused h = absurd (h refl)
  with_inventory-runs args entries crashed h = absurd (h refl)
  with_inventory-runs args entries (built inventory) h =
      let (report, afters, e) = conclude-runs args entries (gate args inventory entries) h in
      (
        inventory,
        report,
        afters,
        refl,
        e,
        ap
            (λ (o : Option (Report × List After)).
              conclude lib hash rules codecs dumps args entries o)
            e,
      )

  -- A status other than 2: there was an inventory, and the gate came to the end of the directory.
  run_cli-runs :
      (args : Args) (entries : List Entry)
      → (run_cli lib hash rules codecs dumps args entries).status ≢ 2
      → (inventory : Inventory) × (report : Report) × (afters : List After) × (build_inventory lib
            args
          ≡ built inventory)
        × (gate args inventory entries ≡ some (report, afters))
        × (run_cli lib hash rules codecs dumps args entries
            ≡ conclude lib hash rules codecs dumps args entries (some (report, afters)))
  unfolding run_cli
  run_cli-runs args entries h = elim (Bool-cases args.is_dir) [
    | inr t ↦ absurd (h (ground arith))
    | inl t ↦
        let w =
          with_inventory lib hash rules codecs dumps args entries (build_inventory lib args) in
        let e : run_cli lib hash rules codecs dumps args entries ≡ w = ground arith in
        let (inventory, report, afters, p, q, s) =
          with_inventory-runs args entries (build_inventory lib args)
            (λ z. h (ap (λ (o : Outcome). o.status) e ∙ z)) in
        (inventory, report, afters, p, q, e ∙ s)
  ]

  conclude-written :
      (args : Args) (entries : List Entry) (report : Report) (afters : List After)
      → args.check ≡ false
      → (conclude lib hash rules codecs dumps args entries (some (report, afters))).status ≢ 2
      → (conclude lib hash rules codecs dumps args entries (some (report, afters))).afters
        ≡ some (leave args.report_name (dumps report) entries afters)
  unfolding conclude
  conclude-written args entries report afters c h = elim (write_cases args.report_write) [
    | inl w ↦ rw c (rw w refl)
    | inr w ↦
        let two : (conclude lib hash rules codecs dumps args entries (some (report, afters))).status
            ≡ 2 =
          rw c (rw (w args.report_name (dumps report) entries afters) refl) in
        absurd (h two)
  ]

  -- A run without --check that ends with status 0 or 1 comes to the end of the directory by the
  -- inventory that the sources gave, and each entry is then fit to be published; after that it writes
  -- the report, which replaces the entry of its own name and changes no other.
  pub run_cli-AreSafe :
      (laws : AreSearches rules) (args : Args) (entries : List Entry)
      → args.check ≡ false
      → (run_cli lib hash rules codecs dumps args entries).status ≢ 2
      → (inventory : Inventory) × (report : Report) × (afters : List After) × (build_inventory lib
            args
          ≡ built inventory)
        × (process_directory hash rules codecs args.max_file_bytes inventory false entries
            ≡ some (report, afters))
        × ((run_cli lib hash rules codecs dumps args entries).afters
            ≡ some (leave args.report_name (dumps report) entries afters))
        × AreSafe hash rules laws codecs args.max_file_bytes inventory entries afters
  run_cli-AreSafe laws args entries c h =
      let (inventory, report, afters, p, q, s) = run_cli-runs args entries h in
      let ran =
        subst
          (λ b.
            process_directory hash rules codecs args.max_file_bytes inventory b entries
            ≡ some (report, afters))
          c q in
      (
        inventory,
        report,
        afters,
        p,
        ran,
        ap (λ (o : Outcome). o.afters) s
            ∙ conclude-written args entries report afters c
                (λ z. h (ap (λ (o : Outcome). o.status) s ∙ z)),
        process_directory-AreSafe hash rules laws codecs args.max_file_bytes inventory entries
            report afters ran,
      )

  conclude-zero :
      (args : Args) (entries : List Entry) (report : Report) (afters : List After)
      → (args.check || args.fail_on_find) ≡ true
      → (conclude lib hash rules codecs dumps args entries (some (report, afters))).status ≡ 0
      → (found report ≡ false)
        × ((conclude lib hash rules codecs dumps args entries (some (report, afters))).afters
            ≡ some (
                if args.check
                then afters
                else leave args.report_name (dumps report) entries afters))
  unfolding conclude
  conclude-zero args entries report afters strict h = elim (Bool-cases args.check) [
    | inl c ↦ (ground arith, rw c refl)
    | inr c ↦ elim (write_cases args.report_write) [
      | inl w ↦
          let h' : ◌≡◌ {A = ℕ} (if found report && args.fail_on_find then 1 else 0) 0 =
            rw w at (rw c at h) in
          (ground arith, rw c (rw w refl))
      | inr w ↦
          let h' : ◌≡◌ {A = ℕ} 2 0 =
            rw (w args.report_name (dumps report) entries afters) at (rw c at h) in
          absurd (omega arith)
    ]
  ]

  -- Status 0 of a strict run, one with --check or --fail-on-find, says that every file has the content
  -- that it had, except that a run without --check has written, under the report's own name, a report
  -- that lists nothing.
  pub run_cli-strict_pass :
      (args : Args) (entries : List Entry)
      → (args.check || args.fail_on_find) ≡ true
      → (run_cli lib hash rules codecs dumps args entries).status ≡ 0
      → (run_cli lib hash rules codecs dumps args entries).afters
        ≡ some (
            if args.check
            then map (λ e. left e.content) entries
            else leave args.report_name
                (dumps no_findings)
                entries
                (map (λ e. left e.content) entries))
  run_cli-strict_pass args entries strict h =
      let (inventory, report, afters, p, q, s) = run_cli-runs args entries (λ z. omega arith) in
      let status = sym (ap (λ (o : Outcome). o.status) s) ∙ h in
      let (nothing, held) = conclude-zero args entries report afters strict status in
      let kept =
        process_directory-quiet hash rules codecs args.max_file_bytes inventory args.check entries
          report afters q nothing in
      let empty =
        process_directory-no_findings hash rules codecs args.max_file_bytes inventory args.check
          entries report afters q nothing in
      ap (λ (o : Outcome). o.afters) s
      ∙ (held
          ∙ (ap
                (λ (l : List After).
                  some (if args.check then l else leave args.report_name (dumps report) entries l))
                kept
              ∙ ap
                  (λ (r : Report). some (
                    if args.check
                    then map (λ e. left e.content) entries
                    else leave args.report_name (dumps r) entries
                        (map (λ e. left e.content) entries)))
                  empty))
