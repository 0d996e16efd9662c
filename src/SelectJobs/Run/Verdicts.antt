-- ===== src/SelectJobs/Run/Verdicts.antt =====
-- What a run of .github/scripts/select-jobs.py decides when the model gives nothing, and when it
-- gives something.
use osac_test_infra.Prelude.{
  ℕ, ◌≤◌, Bool, true, false, Option, none, some, List, ◌≡◌, refl, arith, ltb, Bool-cases, inl, inr,
  is_empty, ◌≢◌,
}
use osac_test_infra.Text.{Text, left_strip}
use osac_test_infra.SelectJobs.Cost.{Usage, aggregate_cost}
use osac_test_infra.SelectJobs.Decide.{
  Suite, PerSuite, Netris, skip, at, Decisions, empty, attempted, decided, verdict,
}
use osac_test_infra.SelectJobs.Decide.Floor.{floor, decide-floor, decide-skip}
use osac_test_infra.SelectJobs.Model.{Block, last, Judgment, judge_block, parse_gemini_decisions}
use osac_test_infra.SelectJobs.Comment.{AiStatus, used, unavailable, not_needed}
use osac_test_infra.SelectJobs.Run.{
  Input, World, Judged, mark_attempted, judge_response, ask, judge, needs_ai, select, main,
}

-- A judgment with verdicts comes with a percentage, and any other has no verdict.
IsSound : Judgment → Type 0
IsSound j = elim j.decisions [
  | empty ↦ Unit
  | attempted ↦ ⊥
  | decided tiers ↦ (n : ℕ) × (j.confidence ≡ some n) × (n ≤ 100)
]

judge_block-IsSound : (b : Option Block) → IsSound (judge_block b)
unfolding judge_block IsSound
judge_block-IsSound none = tt
judge_block-IsSound (some b) = elim (Bool-cases (is_empty (left_strip b.behind))) [
  | inr e ↦ rw e tt
  | inl e ↦ elim (Bool-cases (ltb 100 b.percent)) [
    | inl f ↦ rw e (rw f tt)
    | inr f ↦ rw e (rw f (b.percent, refl, ground arith))
  ]
]

-- With the status `used` there is a percentage, and with any other there is no verdict.
HasStatus : Judged → Type 0
HasStatus j = elim j.status [
  | used ↦ (n : ℕ) × (j.judgment.confidence ≡ some n) × (n ≤ 100)
  | unavailable ↦ (suite : Suite) → verdict j.judgment.decisions suite ≡ none
  | not_needed ↦ (suite : Suite) → verdict j.judgment.decisions suite ≡ none
]

mark-fields :
    (d : Decisions) (reasons : PerSuite Text) (netris : Option Netris) (c : Option ℕ)
    (usages : List (Option Usage))
    → IsSound (record { decisions = d; reasons = reasons; netris = netris; confidence = c })
    → HasStatus (
        mark_attempted
          (record { decisions = d; reasons = reasons; netris = netris; confidence = c })
          usages)
unfolding mark_attempted IsSound HasStatus
mark-fields empty reasons netris c usages s = λ suite. refl
mark-fields attempted reasons netris c usages s = absurd s
mark-fields (decided tiers) reasons netris c usages s = s

response-HasStatus :
    (w : World) (response : Option Text × List (Option Usage))
    → HasStatus (judge_response w response)
unfolding judge_response IsSound parse_gemini_decisions judge_block
response-HasStatus w (none, usages) = mark-fields empty _ none none usages tt
response-HasStatus w (some text, usages) =
    let j = parse_gemini_decisions w.find_blocks text in
    mark-fields j.decisions j.reasons j.netris j.confidence usages
      (judge_block-IsSound (last (w.find_blocks text)))

ask-HasStatus : (w : World) (input : Input) → HasStatus (ask w input)
unfolding ask
ask-HasStatus w input = response-HasStatus w _

judge-HasStatus :
    (w : World) (available : Bool) (input : Input) → HasStatus (judge w available input)
unfolding judge HasStatus
judge-HasStatus w available input = elim (Bool-cases (needs_ai input)) [
  | inr e ↦ rw e (λ suite. refl)
  | inl e ↦ elim (Bool-cases available) [
    | inr f ↦ rw e (rw f (λ suite. refl))
    | inl f ↦ rw e (rw f (ask-HasStatus w input))
  ]
]

used_percent :
    (j : Judged) (s : AiStatus)
    → j.status ≡ s
    → HasStatus j
    → s ≡ used
    → (n : ℕ) × (j.judgment.confidence ≡ some n) × (n ≤ 100)
unfolding HasStatus
used_percent j used e h u = rw e at h
used_percent j unavailable e h u = cc
used_percent j not_needed e h u = cc

no_verdict :
    (j : Judged) (s : AiStatus)
    → j.status ≡ s
    → HasStatus j
    → s ≢ used
    → (suite : Suite) → verdict j.judgment.decisions suite ≡ none
unfolding HasStatus
no_verdict j used e h u = absurd (u refl)
no_verdict j unavailable e h u = rw e at h
no_verdict j not_needed e h u = rw e at h

-- A run reports that the model was used only with a confidence of at most a hundred percent.
pub main-used :
    (w : World) (model : Text) (available : Bool) (input : Input)
    → (main w model available input).status ≡ used
    → (n : ℕ) × ((main w model available input).confidence ≡ some n) × (n ≤ 100)
unfolding main select
main-used w model available input h =
    used_percent (judge w available input) _ refl (judge-HasStatus w available input) h

-- If a run does not report that the model was used, then each suite is decided by the paths alone:
-- a failed call, an answer that cannot be read and a missing diff change nothing.
pub main-floor :
    (w : World) (model : Text) (available : Bool) (input : Input) (suite : Suite)
    → (main w model available input).status ≢ used
    → ((main w model available input).entries suite).decision ≡ floor input.context suite
unfolding main select
main-floor w model available input suite h =
    let j = judge w available input in
    decide-floor input.context j.judgment.decisions j.judgment.reasons suite
      (no_verdict j _ refl (judge-HasStatus w available input) h suite)

-- A run leaves a suite out only if no path rule matched it and its allow-list covers every changed
-- file, whatever the model, the tool and the diff give.
pub main-skip :
    (w : World) (model : Text) (available : Bool) (input : Input) (suite : Suite)
    → ((main w model available input).entries suite).decision ≡ skip
    → (at input.context.deterministic suite ≡ false)
      × (at input.context.exclusive_skip suite ≡ true)
unfolding main select
main-skip w model available input suite h =
    let j = (judge w available input).judgment in
    decide-skip input.context j.decisions j.reasons suite h

-- Without the diff no call is made, and the run costs nothing.
pub main-no_diff :
    (w : World) (model : Text) (input : Input) → (main w model false input).total ≡ (none, true)
unfolding main select judge aggregate_cost
main-no_diff w model input = elim (Bool-cases (needs_ai input)) [
  | inl e ↦ rw e refl
  | inr e ↦ rw e refl
]
