-- ===== src/SelectJobs/Comment.antt =====
-- The posted comment: `render_decision_table` of .github/scripts/select-jobs.py, as its lines.
use osac_test_infra.Prelude.{ℕ, Bool, Option, none, some, List, [], ◌∷◌, ◌++◌, codes}
use osac_test_infra.Text.{Text, decimal}
use osac_test_infra.SelectJobs.Decide.{
  Suite, vmaas, caas, bmaas, Tier, skip, sanity, regression, Source, deterministic_match,
  escalation_over_exclusive_skip, deterministic_exclusive_skip, gemini_escalation,
  gemini_inconclusive, deterministic_default_sanity, Entry,
}
use osac_test_infra.SelectJobs.Jobs.{Jobs, Row, job_groups, render_job_group_table}

pub data AiStatus : Type 0 where
  not_needed used unavailable : AiStatus

abbrev suite_name : Suite → Text
suite_name vmaas = codes "VMAAS"
suite_name caas = codes "CAAS"
suite_name bmaas = codes "BMAAS"

abbrev tier_name : Tier → Text
tier_name skip = codes "skip"
tier_name sanity = codes "sanity"
tier_name regression = codes "regression"

abbrev source_name : Source → Text
source_name deterministic_match = codes "deterministic"
source_name escalation_over_exclusive_skip = codes "gemini-escalation-over-exclusive-skip"
source_name deterministic_exclusive_skip = codes "deterministic-exclusive-skip"
source_name gemini_escalation = codes "gemini-escalation"
source_name gemini_inconclusive = codes "gemini-inconclusive"
source_name deterministic_default_sanity = codes "deterministic-default-sanity"

-- The line of one suite.
unfoldable pub render_entry : (Suite → Entry) → Suite → Text
render_entry entries suite =
    let e = entries suite in
    codes "| "
    ++ (suite_name suite
        ++ (codes " | "
            ++ (tier_name e.decision
                ++ (codes " | "
                    ++ (source_name e.source ++ (codes " | " ++ (e.reason ++ codes " |")))))))

unfoldable pub ai_line : AiStatus → Option ℕ → Text
ai_line used none = codes "_AI judgment confidence: not reported._"
ai_line used (some n) = codes "_AI judgment confidence: " ++ (decimal n ++ codes "%._")
ai_line unavailable confidence =
    codes "_AI judgment was needed for some files but unavailable for this run "
    ++ (codes "(diff fetch failed, the Gemini call failed, or its response couldn't "
        ++ codes "be parsed) -- fell back to safe defaults below._")
ai_line not_needed confidence =
    codes
      "_No AI validation needed -- nothing in this PR was recognized as relevant to any E2E suite._"

-- A note or a cost line that is None or empty is left out.
abbrev pub note_lines : Option Text → List Text
note_lines none = []
note_lines (some []) = []
note_lines (some (c ∷ cs)) =
    (10 ∷ 0x1f50c ∷ codes " **Netris/Agentless-Net signal**: "
      ++ (c ∷ cs
          ++ codes
              " -- consider running VMaaS Netris / BMaaS Netris manually (not gated by this comment)."))
    ∷ []

abbrev pub cost_lines : Text → List Text
cost_lines [] = []
cost_lines (c ∷ cs) = (codes "<sub>" ++ (c ∷ cs ++ codes "</sub>")) ∷ []

unfoldable pub group_lines : Jobs → Bool → List (Text × List Row) → List Text
unfolding render_job_group_table
group_lines jobs available [] = []
group_lines jobs available ((title, rows) ∷ groups) =
    render_job_group_table title rows jobs available ++ ([] ∷ group_lines jobs available groups)

-- The lines of render_decision_table.
unfoldable pub render_decision_table :
    (Suite → Entry) → Option ℕ → AiStatus → Jobs → Bool → Text → Option Text → List Text
unfolding render_entry ai_line group_lines
render_decision_table entries confidence status jobs available cost_line netris_note =
    (codes "# " ++ (0x1f9ed ∷ codes " Jobs Selection (informational only)"))
    ∷ []
    ∷ codes "### E2E Suites"
    ∷ []
    ∷ codes "| Suite | Decision | Source | Reason |"
    ∷ codes "|---|---|---|---|"
    ∷ render_entry entries vmaas
    ∷ render_entry entries caas
    ∷ render_entry entries bmaas
    ∷ []
    ∷ ai_line status confidence
    ∷ (note_lines netris_note
        ++ (cost_lines cost_line
            ++ ([]
                ∷ (group_lines jobs available job_groups
                    ++ ((codes
                            "_Every table above is informational only -- nothing here gates whether a job "
                          ++ (codes
                                "actually runs. The E2E Suites table can use AI judgment for ambiguous files; "
                              ++ codes "every other table is deterministic-only (no AI)._"))
                        ∷ [])))))
