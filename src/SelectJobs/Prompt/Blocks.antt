-- ===== src/SelectJobs/Prompt/Blocks.antt =====
-- The blocks of the prompt of .github/scripts/select-jobs.py that come from the pull request.
use osac_test_infra.Prelude.{false, List, ◌≡◌, refl, codes, is_empty, Bool-cases, inl, inr}
use osac_test_infra.Prelude.Search.{contains}
use osac_test_infra.Text.{Text}
use osac_test_infra.SelectJobs.Reason.Fences.{neutralize_fences-no_fence}
use osac_test_infra.SelectJobs.Decide.{Context}
use osac_test_infra.SelectJobs.Prompt.{Material, file_block, graphify_block, user_blocks}

abbrev pub HasNoFence : Text → Type 0
HasNoFence t = contains (codes "```") t ≡ false

file_block-no_fence : (files : List Text) → HasNoFence (file_block files)
unfolding file_block
file_block-no_fence files = neutralize_fences-no_fence _

unavailable-no_fence : HasNoFence (codes "(unavailable for this run)")
unfolding contains
unavailable-no_fence = refl

graphify_block-no_fence : (text : Text) → HasNoFence (graphify_block text)
unfolding graphify_block
graphify_block-no_fence text = elim (Bool-cases (is_empty text)) [
  | inl e ↦ rw e unavailable-no_fence
  | inr e ↦ rw e (neutralize_fences-no_fence text)
]

-- None of the eight blocks of the prompt that come from the pull request holds three backticks in a
-- row, so that none can close the fence around it, whatever the file names, the answers of graphify
-- and the diff.
pub user_blocks-no_fence :
    (context : Context) (m : Material)
    → let b = user_blocks context m in
      HasNoFence b.vmaas_files
      × HasNoFence b.caas_files
      × HasNoFence b.bmaas_files
      × HasNoFence b.ambiguous_files
      × HasNoFence b.config_files
      × HasNoFence b.netris_files
      × HasNoFence b.graphify_context
      × HasNoFence b.diff_text
unfolding user_blocks
user_blocks-no_fence context m = (
  file_block-no_fence _,
  file_block-no_fence _,
  file_block-no_fence _,
  file_block-no_fence _,
  file_block-no_fence _,
  file_block-no_fence _,
  graphify_block-no_fence _,
  neutralize_fences-no_fence _,
)
