-- ===== src/SelectJobs/Reason/Safe.antt =====
-- A reason in the comment, `_sanitize_reason` of .github/scripts/select-jobs.py: all that it promises.
use osac_test_infra.Prelude.{◌≡◌, ◌≤◌, true, false, codes, length}
use osac_test_infra.Prelude.Search.{contains}
use osac_test_infra.Text.{Text}
use osac_test_infra.SelectJobs.Reason.{sanitize_reason, max_reason_chars}
use osac_test_infra.SelectJobs.Reason.Caps.{sanitize_reason-le}
use osac_test_infra.SelectJobs.Reason.Escapes.{is_escaped, sanitize_reason-escaped}
use osac_test_infra.SelectJobs.Reason.Fences.{sanitize_reason-no_fence}
use osac_test_infra.SelectJobs.Reason.Lines.{is_line, sanitize_reason-line}

-- Whatever the text, a reason has each of the characters | [ ] < > escaped by a backslash that is
-- not itself escaped, also where it was cut; it holds no three backticks in a row; it is one line, the
-- space its only white space; and it has at most a hundred characters.
pub sanitize_reason-IsSafe :
    (text : Text)
    → (is_escaped false (sanitize_reason text) ≡ true)
      × (contains (codes "```") (sanitize_reason text) ≡ false)
      × (is_line (sanitize_reason text) ≡ true)
      × (length (sanitize_reason text) ≤ max_reason_chars)
sanitize_reason-IsSafe text = (
  sanitize_reason-escaped text,
  sanitize_reason-no_fence text,
  sanitize_reason-line text,
  sanitize_reason-le text,
)
