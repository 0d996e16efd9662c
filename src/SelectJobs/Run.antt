-- ===== src/SelectJobs/Run.antt =====
-- The run: `main` of .github/scripts/select-jobs.py. The context is read, and what is written is
-- returned; the JSON artifact and the log are left out.
pub mod Verdicts
use osac_test_infra.Prelude.{
  ℕ, Bool, true, false, not, Option, none, some, List, [], ◌∷◌, ◌++◌, ◌&&◌, ◌||◌, if◌then◌else◌,
  codes, is_empty, map,
}
use osac_test_infra.Text.{Text, decimal}
use osac_test_infra.SelectJobs.Cost.{Usage, Cost, aggregate_cost, format_cost_line}
use osac_test_infra.SelectJobs.Decide.{
  Suite, vmaas, caas, bmaas, Context, Decisions, empty, attempted, decided, Tier, skip, sanity,
  regression, Source, deterministic_match, escalation_over_exclusive_skip,
  deterministic_exclusive_skip, gemini_escalation, gemini_inconclusive,
  deterministic_default_sanity, Entry, Netris, decide, build_netris_note,
}
use osac_test_infra.SelectJobs.Model.{
  Attempt, call_gemini, Block, Judgment, no_judgment, parse_gemini_decisions,
  build_graphify_context,
}
use osac_test_infra.SelectJobs.Prompt.{build_user_content}
use osac_test_infra.SelectJobs.Jobs.{Jobs, no_jobs}
use osac_test_infra.SelectJobs.Comment.{
  AiStatus, not_needed, used, unavailable, render_decision_table,
}

-- The context file and the diff; a missing list is empty, and a missing "jobs" is `none`.
pub record Input : Type 0 where
  pub context : Context
  pub ambiguous_files : List Text
  pub config_files : List Text
  pub netris_relevant_files : List Text
  pub jobs : Option Jobs
  pub diff : Text

-- What lies outside: the tool graphify, the client's two attempts for a prompt, the
-- regular expression, and two formats.
pub record World : Type 0 where
  pub query : Text → Option Text
  pub attempts : List Text → Attempt × Attempt
  pub find_blocks : Text → List Block
  pub show_cost : ℕ → Text
  pub quote : Text → Text

-- [f for files in deterministic_files.values() for f in files]
abbrev pub all_deterministic_files : Context → List Text
all_deterministic_files c =
    c.deterministic_files.vmaas_value
    ++ (c.deterministic_files.caas_value ++ c.deterministic_files.bmaas_value)

unfoldable pub needs_ai : Input → Bool
needs_ai input =
    not (is_empty input.ambiguous_files)
    || not (is_empty input.config_files)
    || not (is_empty (all_deterministic_files input.context))
    || (input.context.deterministic.vmaas_value || input.context.deterministic.caas_value
        || input.context.deterministic.bmaas_value)
    || not (is_empty input.netris_relevant_files)

-- gemini_decisions, gemini_reasons, gemini_netris and confidence, ai_status, and
-- _last_usage_metadata.
pub record Judged : Type 0 where
  pub judgment : Judgment
  pub status : AiStatus
  pub usages : List (Option Usage)

-- Decisions that are empty become the mark that the model was needed and gave nothing.
unfoldable pub mark_attempted : Judgment → List (Option Usage) → Judged
mark_attempted j usages = elim j.decisions [
  | empty ↦ record {
    judgment = record j { decisions = attempted };
    status = unavailable;
    usages = usages;
  }
  | attempted ↦ record { judgment = j; status = used; usages = usages }
  | decided tiers ↦ record { judgment = j; status = used; usages = usages }
]

unfoldable pub judge_response : World → Option Text × List (Option Usage) → Judged
unfolding mark_attempted
judge_response w (none, usages) = mark_attempted no_judgment usages
judge_response w (some text, usages) =
    mark_attempted (parse_gemini_decisions w.find_blocks text) usages

-- The prompt's parts.
unfoldable pub prompt : Input → Text → List Text
prompt input graphify_context = build_user_content input.context (record {
  ambiguous = input.ambiguous_files;
  config = input.config_files;
  netris = input.netris_relevant_files;
  graphify = graphify_context;
  diff = input.diff;
})

unfoldable pub ask : World → Input → Judged
unfolding judge_response prompt
ask w input =
    let graphify_context =
      build_graphify_context w.query input.ambiguous_files
        (all_deterministic_files input.context ++ input.netris_relevant_files) in
    let (first, second) = w.attempts (prompt input graphify_context) in
    judge_response w (call_gemini first second)

-- The first half of `main`; `available` is PR_DIFF_AVAILABLE.
unfoldable pub judge : World → Bool → Input → Judged
unfolding ask needs_ai
judge w available input =
    if not (needs_ai input)
    then record { judgment = no_judgment; status = not_needed; usages = [] }
    else if not available
    then record {
      judgment = record no_judgment { decisions = attempted };
      status = unavailable;
      usages = [];
    }
    else ask w input

-- What the run decides and writes.
pub record Selection : Type 0 where
  pub entries : Suite → Entry
  pub status : AiStatus
  pub confidence : Option ℕ
  pub total : Option Cost × Bool
  pub lines : List Text

abbrev pub has_jobs : Option Jobs → Bool × Jobs
has_jobs none = (false, no_jobs)
has_jobs (some jobs) = (true, jobs)

-- The second half of `main`.
unfoldable pub select : World → Text → Input → Judged → Selection
unfolding render_decision_table
select w model input judged =
    let j = judged.judgment in
    let total = aggregate_cost judged.usages model in
    let entries = decide input.context j.decisions j.reasons in
    let (available, jobs) = has_jobs input.jobs in
    record {
      entries = entries;
      status = judged.status;
      confidence = j.confidence;
      total = total;
      lines =
          render_decision_table entries j.confidence judged.status jobs available
            (format_cost_line w.show_cost w.quote total.0 model total.1)
            (build_netris_note input.netris_relevant_files j.netris);
    }

-- main
unfoldable pub main : World → Text → Bool → Input → Selection
unfolding judge select
main w model available input = select w model input (judge w available input)
