-- ===== src/SelectJobs/Decide.antt =====
-- The decision for each E2E suite: `decide` and `_build_netris_note` of
-- .github/scripts/select-jobs.py.
pub mod Floor
use osac_test_infra.Prelude.{
  ℕ, Bool, true, false, not, Option, none, some, List, [], ◌∷◌, ◌++◌, ◌&&◌, ◌||◌, if◌then◌else◌,
  codes, is_empty,
}
use osac_test_infra.Text.{Text}
use osac_test_infra.SelectJobs.Reason.{deterministic_reason}

-- SUITES
pub data Suite : Type 0 where
  vmaas caas bmaas : Suite

-- A dictionary with a key for each suite; a missing key holds the default of its `get`.
pub record PerSuite {ℓ} (A : Type ℓ) : Type ℓ where
  pub vmaas_value : A
  pub caas_value : A
  pub bmaas_value : A

abbrev pub at {ℓ} : {A : Type ℓ} → PerSuite A → Suite → A
at p vmaas = p.vmaas_value
at p caas = p.caas_value
at p bmaas = p.bmaas_value

-- The keys of the context that `decide` reads.
pub record Context : Type 0 where
  pub deterministic : PerSuite Bool
  pub deterministic_files : PerSuite (List Text)
  pub exclusive_skip : PerSuite Bool

pub data Tier : Type 0 where
  skip sanity regression : Tier

-- gemini_decisions: empty, the mark that the model was needed and gave nothing, or a verdict for
-- each suite.
pub data Decisions : Type 0 where
  empty attempted : Decisions
  decided : PerSuite Tier → Decisions

-- gemini_decisions.get(suite)
abbrev pub verdict : Decisions → Suite → Option Tier
verdict empty suite = none
verdict attempted suite = none
verdict (decided tiers) suite = some (at tiers suite)

abbrev pub is_given : Decisions → Bool
is_given empty = false
is_given attempted = true
is_given (decided tiers) = true

pub data Source : Type 0 where
  deterministic_match escalation_over_exclusive_skip deterministic_exclusive_skip : Source
  gemini_escalation gemini_inconclusive deterministic_default_sanity : Source

pub record Entry : Type 0 where
  pub decision : Tier
  pub source : Source
  pub reason : Text

abbrev pub entry : Tier → Source → Text → Entry
entry decision source reason = record { decision = decision; source = source; reason = reason }

-- text or default
abbrev pub or_text : Text → Text → Text
or_text text default = if is_empty text then default else text

abbrev pub no_reason : Text
no_reason = codes "(no reason given)"

-- The first branch: a path rule matched the suite.
unfoldable pub clear_entry : Option Tier → Text → List Text → Entry
clear_entry (some regression) reason files =
    entry regression deterministic_match (or_text reason (deterministic_reason files))
clear_entry _ reason files = entry sanity deterministic_match (deterministic_reason files)

-- The second: every changed file is in the suite's allow-list.
unfoldable pub exclusive_entry : Option Tier → Text → Entry
exclusive_entry (some sanity) reason =
    entry sanity escalation_over_exclusive_skip (or_text reason no_reason)
exclusive_entry (some regression) reason =
    entry regression escalation_over_exclusive_skip (or_text reason no_reason)
exclusive_entry _ reason =
    entry skip deterministic_exclusive_skip
      (codes "Every changed file is in this suite's reviewed, provably-irrelevant allow-list")

-- The others; the flag tells whether there are decisions at all.
unfoldable pub other_entry : Option Tier → Text → Bool → Entry
other_entry (some regression) reason given =
    entry regression gemini_escalation (or_text reason no_reason)
other_entry _ reason given =
    if given
    then entry sanity gemini_inconclusive (codes "AI judgment was inconclusive for this suite")
    else entry sanity deterministic_default_sanity (
        codes "No changed files matched a path rule for this suite, "
        ++ codes "and no exclusive-skip allow-list covers it")

-- The entry of one suite; a missing reason is the empty text, which is false as well.
unfoldable pub decide : Context → Decisions → PerSuite Text → Suite → Entry
unfolding clear_entry exclusive_entry other_entry
decide context decisions reasons suite =
    let v = verdict decisions suite in
    let reason = at reasons suite in
    if at context.deterministic suite
    then clear_entry v reason (at context.deterministic_files suite)
    else if at context.exclusive_skip suite
    then exclusive_entry v reason
    else other_entry v reason (is_given decisions)

-- gemini_netris
pub record Netris : Type 0 where
  pub relevant : Bool
  pub netris_reason : Text

abbrev pub relevant_reason : Option Netris → Option Text
relevant_reason none = none
relevant_reason (some n) =
    if n.relevant then some (codes "Gemini: " ++ or_text n.netris_reason no_reason) else none

abbrev pub join_note : List Text → Option Text → Option Text
join_note [] none = none
join_note [] (some note) = some note
join_note (f ∷ fs) none = some (deterministic_reason (f ∷ fs))
join_note (f ∷ fs) (some note) = some (deterministic_reason (f ∷ fs) ++ (codes "; " ++ note))

-- _build_netris_note
unfoldable pub build_netris_note : List Text → Option Netris → Option Text
build_netris_note files netris = join_note files (relevant_reason netris)
