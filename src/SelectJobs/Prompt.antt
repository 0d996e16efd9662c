-- ===== src/SelectJobs/Prompt.antt =====
-- The prompt's user content: `build_user_content` of .github/scripts/select-jobs.py.
pub mod Blocks
use osac_test_infra.Prelude.{
  ℕ, Bool, true, false, List, [], ◌∷◌, ◌++◌, if◌then◌else◌, codes, is_empty, map,
}
use osac_test_infra.Text.{Text}
use osac_test_infra.SelectJobs.Reason.{neutralize_fences}
use osac_test_infra.SelectJobs.Decide.{Context}

-- "\n".join(lines)
unfoldable pub join_lines : List Text → Text
join_lines [] = []
join_lines (l ∷ []) = l
join_lines (l ∷ m ∷ ls) = l ++ (10 ∷ join_lines (m ∷ ls))

abbrev or_none : Text → Text
or_none text = if is_empty text then codes "(none)" else text

unfoldable pub file_block : List Text → Text
unfolding join_lines
file_block files = neutralize_fences (or_none (join_lines (map (λ f. codes "- " ++ f) files)))

unfoldable pub graphify_block : Text → Text
graphify_block text =
    if is_empty text then codes "(unavailable for this run)" else neutralize_fences text

-- The lists of files beside those of the context, the answers of graphify, and the diff.
pub record Material : Type 0 where
  pub ambiguous : List Text
  pub config : List Text
  pub netris : List Text
  pub graphify : Text
  pub diff : Text

-- What comes from the pull request, in the order of the prompt.
pub record PromptBlocks : Type 0 where
  pub vmaas_files : Text
  pub caas_files : Text
  pub bmaas_files : Text
  pub ambiguous_files : Text
  pub config_files : Text
  pub netris_files : Text
  pub graphify_context : Text
  pub diff_text : Text

unfoldable pub user_blocks : Context → Material → PromptBlocks
unfolding file_block graphify_block
user_blocks context m = record {
  vmaas_files = file_block context.deterministic_files.vmaas_value;
  caas_files = file_block context.deterministic_files.caas_value;
  bmaas_files = file_block context.deterministic_files.bmaas_value;
  ambiguous_files = file_block m.ambiguous;
  config_files = file_block m.config;
  netris_files = file_block m.netris;
  graphify_context = graphify_block m.graphify;
  diff_text = neutralize_fences m.diff;
}

abbrev show_bool : Bool → Text
show_bool true = codes "True"
show_bool false = codes "False"

-- A block between its fences.
abbrev fenced : Text → Text → List Text
fenced kind block = (codes "```" ++ kind) ∷ block ∷ codes "```" ∷ []

abbrev data_block : Text → List Text
data_block = fenced (codes "data")

unfoldable pub place_blocks : Context → PromptBlocks → List Text
unfolding join_lines
place_blocks context b =
    join_lines (
      codes "A deterministic path-based check already classified some of this PR's"
      ∷ codes "changed files as \"clearly relevant\" to a suite:"
      ∷ (codes "- VMaaS clearly relevant: " ++ show_bool context.deterministic.vmaas_value)
      ∷ (data_block b.vmaas_files
          ++ ((codes "- CaaS clearly relevant: " ++ show_bool context.deterministic.caas_value)
              ∷ (data_block b.caas_files
                  ++ ((codes "- BMaaS clearly relevant: "
                        ++ show_bool context.deterministic.bmaas_value)
                      ∷ data_block b.bmaas_files)))))
    ∷ join_lines (
        codes "The following files could NOT be classified by path alone (they live in"
        ∷ codes "osac-operator or fulfillment-service, which back both VMaaS and CaaS, and"
        ∷ codes "aren't clearly named for either):"
        ∷ data_block b.ambiguous_files)
    ∷ join_lines (
        codes "The following are YAML/JSON config files not covered by a known mapping:"
        ∷ data_block b.config_files)
    ∷ join_lines (
        codes "A separate, informational-only path check flagged the following files as"
        ∷ codes "touching Netris or Agentless-Net networking automation (see the NETRIS"
        ∷ codes "instructions above -- this is not one of VMAAS/CAAS/BMAAS and does not"
        ∷ codes "gate anything):"
        ∷ data_block b.netris_files)
    ∷ join_lines (
        codes
          "## graphify context (best-effort, may be empty or unreliable -- treat as a hint, not ground truth)"
        ∷ data_block b.graphify_context)
    ∷ join_lines (codes "## PR diff (may be truncated)" ∷ fenced (codes "diff") b.diff_text)
    ∷ []

-- build_user_content
unfoldable pub build_user_content : Context → Material → List Text
unfolding place_blocks user_blocks
build_user_content context m = place_blocks context (user_blocks context m)
