-- ===== src/Track.antt =====
-- Recurring failures as tracking issues: .github/scripts/track-recurring-failure.py. The state is the
-- list of the issues; what fails of a run is given, and each reply can be read.
pub mod Keeps
mod Tests
use osac_test_infra.Prelude.{
  ℕ, zero, suc, ◌+◌, ◌*◌, ◌-◌, Bool, true, false, not, Option, none, some, List, [], ◌∷◌, ◌++◌,
  ◌&&◌, leb, ◌==◌, if◌then◌else◌, codes, is_empty, any, take, drop, length,
}
use mathlib.Core.List.{reverse}
use osac_test_infra.Prelude.Search.{bytes_eq, starts_with}
use osac_test_infra.Text.{Text, decimal, is_space, left_strip}

pub record Issue : Type 0 where
  pub number : ℕ
  pub title : Text
  pub labels : List Text
  pub creator : Text
  pub is_open : Bool
  pub body : Text
  pub comments : List Text

-- Which of the calls fail.
pub record Faults : Type 0 where
  pub login : Bool
  pub listing : Bool
  pub create : Bool
  pub patch : Bool
  pub comment : Bool
  pub label : Bool

-- The environment of a run, with the failing test of junit.xml and the text of the diagnosis, where
-- there are such files, the login of the bot and the number that a new issue gets.
pub record Input : Type 0 where
  pub test_name : Option Text
  pub diagnosis : Option Text
  pub workflow_name : Text
  pub source_repo : Text
  pub pr_number : Text
  pub run_url : Text
  pub bot_login : Text
  pub new_number : ℕ

abbrev pub candidate_label : Text
candidate_label = codes "ai-candidate-known-issue"

abbrev pub review_label : Text
review_label = codes "needs-review"

abbrev pub confirmed_label : Text
confirmed_label = codes "confirmed-known-issue"

abbrev pub promotion_threshold : ℕ
promotion_threshold = 3

abbrev pub has_label : Text → Issue → Bool
has_label label issue = any (bytes_eq label) issue.labels

-- What the listing asks GitHub for.
abbrev pub is_candidate : Text → Issue → Bool
is_candidate bot_login issue =
    has_label candidate_label issue && (bytes_eq issue.creator bot_login && issue.is_open)

-- find_existing
unfoldable pub find_existing : Text → Text → List Issue → Option Issue
unfolding bytes_eq
find_existing title bot_login [] = none
find_existing title bot_login (issue ∷ issues) =
    let later = find_existing title bot_login issues in
    if is_candidate bot_login issue
      && (bytes_eq issue.title title && not (has_label confirmed_label issue))
    then some issue
    else later

abbrev pub is_digit : ℕ → Bool
is_digit c = leb 48 c && leb c 57

-- The digits in front of a text, and what follows.
unfoldable pub span_digits : Text → Text × Text
span_digits [] = ([], [])
span_digits (c ∷ text) =
    let (digits, rest) = span_digits text in
    if is_digit c then (c ∷ digits, rest) else ([], c ∷ text)

abbrev pub as_number : ℕ → Text → ℕ
as_number n [] = n
as_number n (c ∷ digits) = as_number (n * 10 + (c - 48)) digits

abbrev pub mark : Text
mark = codes "**Occurrences:**"

-- A match of OCCURRENCES_PATTERN at the beginning of a text: the number, and what follows.
abbrev pub number_in : Text × Text → Option (ℕ × Text)
number_in ([], rest) = none
number_in (c ∷ digits, rest) = some (as_number 0 (c ∷ digits), rest)

unfoldable pub match_here : Text → Option (ℕ × Text)
unfolding starts_with span_digits left_strip
match_here text =
    if starts_with mark text
    then number_in (span_digits (left_strip (drop (length mark) text)))
    else none

-- OCCURRENCES_PATTERN.search: what stands before the first match, its number, and what follows.
unfoldable pub search : Text → Option (Text × ℕ × Text)
unfolding match_here
search [] = none
search (c ∷ text) =
    let later = search text in
    elim (match_here (c ∷ text)) [
      | some (n, rest) ↦ some ([], n, rest)
      | none ↦ elim later [ none ↦ none | some (before, n, rest) ↦ some (c ∷ before, n, rest) ]
    ]

-- The new count and the new body.
unfoldable pub bump : Text → ℕ × Text
unfolding search decimal
bump body = elim (search body) [
  | none ↦ (2, body ++ (codes "\n\n**Occurrences:** " ++ decimal 2))
  | some (before, n, rest) ↦ (n + 1, before ++ (mark ++ (codes " " ++ (decimal (n + 1) ++ rest))))
]

abbrev pub with_body : Text → Issue → Issue
with_body body i = record {
  number = i.number;
  title = i.title;
  labels = i.labels;
  creator = i.creator;
  is_open = i.is_open;
  body = body;
  comments = i.comments;
}

abbrev pub with_comment : Text → Issue → Issue
with_comment comment i = record {
  number = i.number;
  title = i.title;
  labels = i.labels;
  creator = i.creator;
  is_open = i.is_open;
  body = i.body;
  comments = i.comments ++ comment ∷ [];
}

abbrev pub with_label : Text → Issue → Issue
with_label label i = record {
  number = i.number;
  title = i.title;
  labels = if has_label label i then i.labels else i.labels ++ label ∷ [];
  creator = i.creator;
  is_open = i.is_open;
  body = i.body;
  comments = i.comments;
}

-- A call on the issue of a number.
unfoldable pub change : ℕ → (Issue → Issue) → List Issue → List Issue
change number f [] = []
change number f (issue ∷ issues) =
    let rest = change number f issues in
    if issue.number == number then f issue ∷ rest else issue ∷ rest

abbrev pub or_none_text : Option Text → Text
or_none_text none = codes "(no diagnosis text)"
or_none_text (some text) = take 500 (reverse (left_strip (reverse (left_strip text))))

unfoldable pub occurrence_note : Input → Text
unfolding left_strip
occurrence_note input =
    codes "New occurrence:\n- Repo/PR: "
    ++ (input.source_repo
        ++ (codes "#"
            ++ (input.pr_number
                ++ (codes "\n- Run: "
                    ++ (input.run_url ++ (codes "\n\n> " ++ or_none_text input.diagnosis))))))

-- The comment after a call that went well.
abbrev pub add_comment : Faults → ℕ → Text → List Issue → List Issue
add_comment faults number note issues =
    if faults.comment then issues else change number (with_comment note) issues

-- What a new issue says before its signature.
abbrev pub introduction : Text
introduction =
    codes
      "Automatically tracked by the AI diagnostic pipeline -- opened when this test failed with no existing tracking issue found. "
    ++ (codes
          "Nothing here is auto-promoted: if this is a real recurring issue, edit this description into a proper symptom/root-cause writeup "
        ++ codes
            "and add the `confirmed-known-issue` label -- every issue with that label is fed into future AI diagnoses. Leave unlabeled (or close) to ignore.\n\n")

unfoldable pub open_issue : Faults → Input → Text → Text → List Issue → List Issue
unfolding change
open_issue faults input title signature issues =
    let issue : Issue = record {
      number = input.new_number;
      title = title;
      labels = candidate_label ∷ [];
      creator = input.bot_login;
      is_open = true;
      body =
          introduction
          ++ (codes "**Signature:** `" ++ (signature ++ codes "`\n\n**Occurrences:** 1"));
      comments = [];
    } in
    if faults.create
    then issues
    else add_comment faults input.new_number (occurrence_note input) (issues ++ issue ∷ [])

unfoldable pub bump_issue : Faults → Input → Issue → List Issue → List Issue
unfolding change bump occurrence_note
bump_issue faults input existing issues =
    let (count, body) = bump existing.body in
    let patched = change existing.number (with_body body) issues in
    let noted = change existing.number (with_comment (occurrence_note input)) patched in
    if faults.patch
    then issues
    else if faults.comment
    then patched
    else if leb promotion_threshold count && not faults.label
    then change existing.number (with_label review_label) noted
    else noted

-- main, for a test with a name.
unfoldable pub track : Faults → Input → Text → List Issue → List Issue
unfolding find_existing open_issue bump_issue
track faults input test_name issues =
    let signature = input.workflow_name ++ (codes ": " ++ test_name) in
    let title = codes "[AI Diagnostic] " ++ signature in
    if faults.login
    then issues
    else if faults.listing
    then issues
    else elim (find_existing title input.bot_login issues) [
      | none ↦ open_issue faults input title signature issues
      | some existing ↦ bump_issue faults input existing issues
    ]

-- main; the name of the test is cut after 200 characters.
unfoldable pub main : Faults → Input → List Issue → List Issue
unfolding track
main faults input issues = elim input.test_name [
  | none ↦ issues
  | some name ↦ if is_empty name then issues else track faults input (take 200 name) issues
]
