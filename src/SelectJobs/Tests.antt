-- ===== src/SelectJobs/Tests.antt =====
-- Runs of .github/scripts/select-jobs.py on small inputs, and the theorems applied to them.
use Prim.Native.Nat.{max}
use osac_test_infra.Prelude.{
  ◌≤◌, true, false, none, some, [], ◌∷◌, ◌≡◌, refl, ◌≢◌, codes, all, any, length, map,
}
use osac_test_infra.Prelude.Search.{contains}
use osac_test_infra.Text.{Text, split_words, decimal}
use osac_test_infra.SelectJobs.Cost.{Usage, Cost, pricing_of, compute_cost, aggregate_cost}
use osac_test_infra.SelectJobs.Cost.Sums.{summary, aggregate_cost-summary}
use osac_test_infra.SelectJobs.Reason.{
  sanitize_reason, deterministic_reason, max_reason_chars, neutralize_fences,
}
use osac_test_infra.SelectJobs.Reason.Escapes.{is_escaped}
use osac_test_infra.SelectJobs.Reason.Lines.{is_line}
use osac_test_infra.SelectJobs.Reason.Safe.{sanitize_reason-IsSafe}
use osac_test_infra.SelectJobs.Decide.{
  caas, bmaas, at, Context, skip, regression, Decisions, decided, verdict, decide,
}
use osac_test_infra.SelectJobs.Decide.Floor.{rank, floor, verdict_rank, decide-max}
use osac_test_infra.SelectJobs.Model.{
  Attempt, setup_raises, responds, answer, answer_raises, call_gemini, Block,
  parse_gemini_decisions, no_reasons,
}
use osac_test_infra.SelectJobs.Model.Calls.{made, is_accounted, call_gemini-accounted}
use osac_test_infra.SelectJobs.Prompt.{Material, user_blocks}
use osac_test_infra.SelectJobs.Prompt.Blocks.{HasNoFence, user_blocks-no_fence}
use osac_test_infra.SelectJobs.Jobs.{Jobs, job_flag, helm, helm_lint}
use osac_test_infra.SelectJobs.Comment.{used}
use osac_test_infra.SelectJobs.Run.{Input, World, main}
use osac_test_infra.SelectJobs.Run.Verdicts.{main-floor, main-skip}

-- Reasons
abbrev nasty : Text
nasty = codes "a|b ``` [x](y)"

escaped : sanitize_reason (codes "a|b \\ [x]") ≡ codes "a\\|b \\\\ \\[x\\]"
unfolding sanitize_reason split_words
escaped = refl

neutral : neutralize_fences (codes "```") ≡ (96 ∷ 0x200b ∷ 96 ∷ 0x200b ∷ 96 ∷ [])
unfolding neutralize_fences
neutral = refl

two_files :
    deterministic_reason (codes "a.py" ∷ codes "b.py" ∷ []) ≡ codes "Matches 2 files, e.g. a.py"
unfolding deterministic_reason split_words decimal
two_files = refl

sanitize_reason-IsSafe_example :
    (is_escaped false (sanitize_reason nasty) ≡ true)
    × (contains (codes "```") (sanitize_reason nasty) ≡ false)
    × (is_line (sanitize_reason nasty) ≡ true)
    × (length (sanitize_reason nasty) ≤ max_reason_chars)
sanitize_reason-IsSafe_example = sanitize_reason-IsSafe nasty

-- Costs
abbrev usage : Usage
usage = record {
  prompt_token_count = some 1000;
  candidates_token_count = none;
  tool_use_prompt_token_count = none;
  thoughts_token_count = some 10;
}

abbrev model : Text
model = codes "gemini-3.1-pro-preview"

abbrev total : Cost
total = record { cost_usd = some 212000; input_tokens = 1000; output_tokens = 10 }

one_call : aggregate_cost (some usage ∷ []) model ≡ (some total, true)
unfolding aggregate_cost pricing_of
one_call = refl

one_missing : aggregate_cost (none ∷ some usage ∷ []) model ≡ (some total, false)
unfolding aggregate_cost pricing_of
one_missing = refl

aggregate_cost-summary_example :
    aggregate_cost (none ∷ some usage ∷ []) model
    ≡ summary (map (λ u. compute_cost u model) (none ∷ some usage ∷ []))
aggregate_cost-summary_example = aggregate_cost-summary (none ∷ some usage ∷ []) model

-- The model
abbrev first : Attempt
first = setup_raises

abbrev second : Attempt
second = responds (some usage) (answer (codes "ok"))

answered : call_gemini first second ≡ (some (codes "ok"), some usage ∷ [])
unfolding call_gemini
answered = refl

-- A text that cannot be read leaves two entries for one call.
counted_twice :
    call_gemini (responds (some usage) answer_raises) second
    ≡ (some (codes "ok"), some usage ∷ none ∷ some usage ∷ [])
unfolding call_gemini
counted_twice = refl

counted : aggregate_cost (call_gemini first second).1 model ≡ (some total, true)
unfolding aggregate_cost pricing_of call_gemini
counted = refl

call_gemini-accounted_example : all (is_accounted model) (made first second) ≡ true
call_gemini-accounted_example = call_gemini-accounted first second model total counted

-- Jobs
abbrev jobs : Jobs
jobs = record { code = true; groups = (helm, (codes "osac_aap", true) ∷ []) ∷ [] }

one_row : any (λ r. job_flag jobs r.path) helm_lint ≡ true
unfolding job_flag
one_row = refl

-- Decisions
abbrev context : Context
context = record {
  deterministic = record { vmaas_value = true; caas_value = false; bmaas_value = false };
  deterministic_files = record {
    vmaas_value = codes "a.py" ∷ [];
    caas_value = [];
    bmaas_value = [];
  };
  exclusive_skip = record { vmaas_value = false; caas_value = true; bmaas_value = false };
}

abbrev verdicts : Decisions
verdicts = decided (record { vmaas_value = skip; caas_value = skip; bmaas_value = regression })

decide-max_example :
    rank (decide context verdicts no_reasons bmaas).decision
    ≡ max (rank (floor context bmaas)) (verdict_rank (verdict verdicts bmaas))
decide-max_example = decide-max context verdicts no_reasons bmaas

abbrev input : Input
input = record {
  context = context;
  ambiguous_files = [];
  config_files = [];
  netris_relevant_files = [];
  jobs = some jobs;
  diff = codes "+x";
}

abbrev block : Block
block = record {
  tiers = record { vmaas_value = skip; caas_value = skip; bmaas_value = regression };
  why = no_reasons;
  netris = false;
  netris_why = [];
  percent = 80;
  behind = 10 ∷ [];
}

abbrev world : World
world = record {
  query = λ p. none;
  attempts = λ c. (first, second);
  find_blocks = λ t. block ∷ [];
  show_cost = λ n. codes "0.0021";
  quote = λ t. t;
}

used_status : (main world model true input).status ≡ used
unfolding main call_gemini parse_gemini_decisions
used_status = refl

no_diff_status : (main world model false input).status ≢ used
unfolding main
no_diff_status h = cc

main-floor_example : ((main world model false input).entries bmaas).decision ≡ floor context bmaas
main-floor_example = main-floor world model false input bmaas no_diff_status

skipped : ((main world model true input).entries caas).decision ≡ skip
unfolding main decide call_gemini parse_gemini_decisions
skipped = refl

main-skip_example :
    (at context.deterministic caas ≡ false) × (at context.exclusive_skip caas ≡ true)
main-skip_example = main-skip world model true input caas skipped

-- The prompt
abbrev material : Material
material = record {
  ambiguous = codes "```" ∷ [];
  config = [];
  netris = [];
  graphify = [];
  diff = codes "+```";
}

user_blocks-no_fence_example :
    let b = user_blocks context material in
    HasNoFence b.vmaas_files
    × HasNoFence b.caas_files
    × HasNoFence b.bmaas_files
    × HasNoFence b.ambiguous_files
    × HasNoFence b.config_files
    × HasNoFence b.netris_files
    × HasNoFence b.graphify_context
    × HasNoFence b.diff_text
user_blocks-no_fence_example = user_blocks-no_fence context material
