-- ===== src/SelectJobs/Model.antt =====
-- The calls of the language model: `call_gemini`, `parse_gemini_decisions`,
-- `build_graphify_context` and `file_block` of .github/scripts/select-jobs.py. What the client, the
-- tool `graphify` and the regular expression give is a parameter.
pub mod Calls
pub mod Queries
use osac_test_infra.Prelude.{
  ℕ, Bool, true, false, not, Option, none, some, List, [], ◌∷◌, ◌++◌, ltb, ◌&&◌, ◌||◌,
  if◌then◌else◌, codes, is_empty, any, take, length,
}
use osac_test_infra.Prelude.Search.{bytes_eq}
use osac_test_infra.Text.{Text, left_strip}
use osac_test_infra.SelectJobs.Cost.{Usage}
use osac_test_infra.SelectJobs.Decide.{PerSuite, Tier, Decisions, empty, decided, Netris}
use osac_test_infra.SelectJobs.Reason.{sanitize_reason, neutralize_fences}

-- What reading `resp.text` gives.
pub data Answer : Type 0 where
  answer_raises : Answer
  answer : Text → Answer

-- How an attempt goes: an exception before `dispatched` is set, one of `generate`, or a response
-- with its usage_metadata.
pub data Attempt : Type 0 where
  setup_raises call_raises : Attempt
  responds : Option Usage → Answer → Attempt

-- The body of the loop: the text that is returned, if any, and the entries that are appended to
-- _last_usage_metadata, `none` for None. An exception after the dispatch appends one more.
unfoldable pub try_once : Attempt → Option Text × List (Option Usage)
try_once setup_raises = (none, [])
try_once call_raises = (none, none ∷ [])
try_once (responds usage answer_raises) = (none, usage ∷ none ∷ [])
try_once (responds usage (answer [])) = (none, usage ∷ [])
try_once (responds usage (answer (c ∷ cs))) = (some (c ∷ cs), usage ∷ [])

abbrev pub or_retry :
    Option Text × List (Option Usage)
    → Option Text × List (Option Usage)
    → Option Text × List (Option Usage)
or_retry (some text, usages) again = (some text, usages)
or_retry (none, usages) (text, more) = (text, usages ++ more)

-- call_gemini: the second attempt is made if the first gives no text.
unfoldable pub call_gemini : Attempt → Attempt → Option Text × List (Option Usage)
unfolding try_once
call_gemini first second = or_retry (try_once first) (try_once second)

-- A match of DECISION_BLOCK_RE: its groups, and the text behind it.
pub record Block : Type 0 where
  pub tiers : PerSuite Tier
  pub why : PerSuite Text
  pub netris : Bool
  pub netris_why : Text
  pub percent : ℕ
  pub behind : Text

-- What parse_gemini_decisions returns.
pub record Judgment : Type 0 where
  pub decisions : Decisions
  pub reasons : PerSuite Text
  pub netris : Option Netris
  pub confidence : Option ℕ

abbrev pub no_reasons : PerSuite Text
no_reasons = record { vmaas_value = []; caas_value = []; bmaas_value = [] }

abbrev pub no_judgment : Judgment
no_judgment = record { decisions = empty; reasons = no_reasons; netris = none; confidence = none }

abbrev pub last : List Block → Option Block
last [] = none
last (b ∷ []) = some b
last (b ∷ c ∷ bs) = last (c ∷ bs)

-- A block that ends the text, with a confidence that is a percentage.
unfoldable pub judge_block : Option Block → Judgment
unfolding left_strip sanitize_reason
judge_block none = no_judgment
judge_block (some b) =
    if not (is_empty (left_strip b.behind))
    then no_judgment
    else if ltb 100 b.percent
    then no_judgment
    else record {
      decisions = decided b.tiers;
      reasons = record {
        vmaas_value = sanitize_reason b.why.vmaas_value;
        caas_value = sanitize_reason b.why.caas_value;
        bmaas_value = sanitize_reason b.why.bmaas_value;
      };
      netris = some (record { relevant = b.netris; netris_reason = sanitize_reason b.netris_why });
      confidence = some b.percent;
    }

-- parse_gemini_decisions; `find_blocks` is what `finditer` gives.
unfoldable pub parse_gemini_decisions : (Text → List Block) → Text → Judgment
unfolding judge_block
parse_gemini_decisions find_blocks text = judge_block (last (find_blocks text))

-- list(dict.fromkeys(…)): the first of equal paths is kept.
unfoldable pub from_keys : List Text → List Text → List Text
unfolding bytes_eq
from_keys seen [] = []
from_keys seen (p ∷ ps) =
    let rest = from_keys seen ps in
    let kept = from_keys (p ∷ seen) ps in if any (bytes_eq p) seen then rest else p ∷ kept

abbrev pub max_graphify_files : ℕ
max_graphify_files = 8

-- The paths that are asked for, in their order.
unfoldable pub queried : List Text → List Text → List Text
unfolding from_keys
queried ambiguous deterministic =
    take max_graphify_files (from_keys [] (ambiguous ++ deterministic))

-- The answers; an answer that is None or empty is left out.
unfoldable pub graphify_parts : (Text → Option Text) → List Text → List Text
graphify_parts query [] = []
graphify_parts query (p ∷ ps) = elim (query p) [
  | none ↦ graphify_parts query ps
  | some [] ↦ graphify_parts query ps
  | some (c ∷ cs) ↦ (codes "### " ++ (p ++ (10 ∷ c ∷ cs))) ∷ graphify_parts query ps
]

-- "\n\n".join(parts)
unfoldable pub join_parts : List Text → Text
join_parts [] = []
join_parts (p ∷ []) = p
join_parts (p ∷ q ∷ ps) = p ++ (10 ∷ 10 ∷ join_parts (q ∷ ps))

-- build_graphify_context; `query` is graphify_query_for_file.
unfoldable pub build_graphify_context : (Text → Option Text) → List Text → List Text → Text
unfolding graphify_parts join_parts queried
build_graphify_context query ambiguous deterministic =
    join_parts (graphify_parts query (queried ambiguous deterministic))
