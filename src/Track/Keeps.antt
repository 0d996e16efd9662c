-- ===== src/Track/Keeps.antt =====
-- Which issues .github/scripts/track-recurring-failure.py leaves as they are.
use osac_test_infra.Prelude.{
  ℕ, Bool, true, false, not, Option, some, List, [], ◌∷◌, ◌++◌, ◌≡◌, ◌≢◌, refl, sym, ap, ◌∙◌, ◌&&◌,
  ◌==◌, leb, arith, All, Bool-cases, Option-cases, inl, inr, codes, is_empty, take, both_true, Memᴰ,
  ◌⊎◌,
}
use mathlib.Core.Path.{subst}
use mathlib.Core.Option.{some-injective}
use mathlib.Core.List.Memᴰ.{append_left}
use osac_test_infra.Prelude.Search.{bytes_eq}
use osac_test_infra.Text.{Text}
use osac_test_infra.Track.{
  Issue, Faults, Input, confirmed_label, review_label, promotion_threshold, has_label, is_candidate,
  find_existing, change, add_comment, open_issue, bump_issue, bump, track, main, with_body,
  with_comment, with_label, occurrence_note,
}

-- No two issues have one number.
unfoldable pub AreNumbered : List Issue → Type 0
AreNumbered [] = Unit
AreNumbered (i ∷ issues) = All (λ k. i.number ≢ k.number) issues × AreNumbered issues

-- An issue of the list with another number is still there after a call.
change-keeps :
    (number : ℕ) (f : Issue → Issue) (issues : List Issue) (i : Issue)
    → Memᴰ i issues
    → i.number ≢ number
    → Memᴰ i (change number f issues)
unfolding change
change-keeps number f [] i m h = elim m [ ]
change-keeps number f (k ∷ issues) i (Memᴰ.head e) h = elim (Bool-cases (k.number == number)) [
  | inl q ↦ absurd (h (ap (λ j. j.number) e ∙ ground arith))
  | inr q ↦ rw q (Memᴰ.head e)
]
change-keeps number f (k ∷ issues) i (Memᴰ.tail m) h =
    let ih = change-keeps number f issues i m h in
    elim (Bool-cases (k.number == number)) [
      | inl q ↦ rw q (Memᴰ.tail ih)
      | inr q ↦ rw q (Memᴰ.tail ih)
    ]

is_not : (b : Bool) → not b ≡ true → b ≡ false
is_not true h = absurd (cc)
is_not false h = refl

apart :
    (issues : List Issue) (j k : Issue)
    → All (λ x. j.number ≢ x.number) issues
    → Memᴰ k issues
    → j.number ≢ k.number
apart [] j k a m = elim m [ ]
apart (x ∷ issues) j k (p, a) (Memᴰ.head e) = λ q. p (q ∙ ap (λ y. y.number) e)
apart (x ∷ issues) j k (p, a) (Memᴰ.tail m) = apart issues j k a m

-- What is found is in the list, has the title, and is not confirmed.
find_existing_lem :
    (title bot : Text) (issues : List Issue) (k : Issue)
    → find_existing title bot issues ≡ some k
    → Memᴰ k issues
      × (bytes_eq k.title title ≡ true)
      × (has_label confirmed_label k ≡ false)
      × (is_candidate bot k ≡ true)
unfolding find_existing
find_existing_lem title bot [] k h = absurd (cc)
find_existing_lem title bot (j ∷ issues) k h =
    elim (Bool-cases
      (is_candidate bot j && (bytes_eq j.title title && not (has_label confirmed_label j)))) [
        | inl e ↦
            let h' : ◌≡◌ {A = Option Issue} (some j) (some k) = rw e at h in
            let same : j ≡ k = some-injective _ _ h' in
            let (c, r) =
              both_true (is_candidate bot j)
                (bytes_eq j.title title && not (has_label confirmed_label j)) e in
            let (t, n) = both_true (bytes_eq j.title title) (not (has_label confirmed_label j)) r in
            subst
              (λ k.
                Memᴰ k (j ∷ issues)
                × (bytes_eq k.title title ≡ true)
                × (has_label confirmed_label k ≡ false)
                × (is_candidate bot k ≡ true))
              same (Memᴰ.head refl, t, is_not (has_label confirmed_label j) n, c)
        | inr e ↦
            let (m, t, n, c) = find_existing_lem title bot issues k (rw e at h) in
            (Memᴰ.tail m, t, n, c)
      ]

-- Two issues of the list that differ have different numbers.
numbers_differ :
    (issues : List Issue) (i k : Issue)
    → AreNumbered issues
    → Memᴰ i issues
    → Memᴰ k issues
    → i ≢ k
    → i.number ≢ k.number
unfolding AreNumbered
numbers_differ [] i k a m n h = elim m [ ]
numbers_differ (j ∷ issues) i k (p, a) (Memᴰ.head e) (Memᴰ.head f) h = absurd (h (e ∙ sym f))
numbers_differ (j ∷ issues) i k (p, a) (Memᴰ.head e) (Memᴰ.tail n) h =
    λ q. apart issues j k p n (ap (λ x. x.number) (sym e) ∙ q)
numbers_differ (j ∷ issues) i k (p, a) (Memᴰ.tail m) (Memᴰ.head f) h =
    λ q. apart issues j i p m (ap (λ x. x.number) (sym f) ∙ sym q)
numbers_differ (j ∷ issues) i k (p, a) (Memᴰ.tail m) (Memᴰ.tail n) h =
    numbers_differ issues i k a m n h

add_comment-keeps :
    (faults : Faults) (number : ℕ) (note : Text) (issues : List Issue) (i : Issue)
    → Memᴰ i issues
    → i.number ≢ number
    → Memᴰ i (add_comment faults number note issues)
add_comment-keeps faults number note issues i m h = elim (Bool-cases faults.comment) [
  | inl e ↦ rw e m
  | inr e ↦ rw e (change-keeps number (with_comment note) issues i m h)
]

bump_issue-keeps :
    (faults : Faults) (input : Input) (k : Issue) (issues : List Issue) (i : Issue)
    → Memᴰ i issues
    → i.number ≢ k.number
    → Memᴰ i (bump_issue faults input k issues)
unfolding bump_issue
bump_issue-keeps faults input k issues i m h =
    let body = (bump k.body).1 in
    let patched = change k.number (with_body body) issues in
    let noted = change k.number (with_comment (occurrence_note input)) patched in
    let m1 : Memᴰ i patched = change-keeps k.number (with_body body) issues i m h in
    let m2 : Memᴰ i noted =
      change-keeps k.number (with_comment (occurrence_note input)) patched i m1 h in
    elim (Bool-cases faults.patch) [
      | inl p ↦ rw p m
      | inr p ↦ elim (Bool-cases faults.comment) [
        | inl c ↦ rw p (rw c m1)
        | inr c ↦ elim (Bool-cases (leb promotion_threshold (bump k.body).0 && not faults.label)) [
          | inl t ↦
              rw p (rw c (rw t (change-keeps k.number (with_label review_label) noted i m2 h)))
          | inr t ↦ rw p (rw c (rw t m2))
        ]
      ]
    ]

open_issue-keeps :
    (faults : Faults) (input : Input) (title signature : Text) (issues : List Issue) (i : Issue)
    → Memᴰ i issues
    → i.number ≢ input.new_number
    → Memᴰ i (open_issue faults input title signature issues)
unfolding open_issue
open_issue-keeps faults input title signature issues i m h = elim (Bool-cases faults.create) [
  | inl e ↦ rw e m
  | inr e ↦ rw e (
      add_comment-keeps faults input.new_number (occurrence_note input) (issues ++ _) i
        (append_left _ m) h)
]

-- What the script changes is another issue than one that is confirmed or no candidate.
other_issue :
    (bot : Text) (i k : Issue)
    → has_label confirmed_label k ≡ false
    → is_candidate bot k ≡ true
    → (has_label confirmed_label i ≡ true) ⊎ (is_candidate bot i ≡ false)
    → i ≢ k
other_issue bot i k u v (inl c) = λ e.
    let t : has_label confirmed_label k ≡ true =
      subst (λ x. has_label confirmed_label x ≡ true) e c in
    cc
other_issue bot i k u v (inr c) =
    λ e. let t : is_candidate bot k ≡ false = subst (λ x. is_candidate bot x ≡ false) e c in cc

track-keeps :
    (faults : Faults) (input : Input) (name : Text) (issues : List Issue) (i : Issue)
    → AreNumbered issues
    → Memᴰ i issues
    → i.number ≢ input.new_number
    → (has_label confirmed_label i ≡ true) ⊎ (is_candidate input.bot_login i ≡ false)
    → Memᴰ i (track faults input name issues)
unfolding track
track-keeps faults input name issues i a m h c =
    let signature = input.workflow_name ++ (codes ": " ++ name) in
    let title = codes "[AI Diagnostic] " ++ signature in
    elim (Bool-cases faults.login) [
      | inl l ↦ rw l m
      | inr l ↦ elim (Bool-cases faults.listing) [
        | inl g ↦ rw l (rw g m)
        | inr g ↦ elim (Option-cases (find_existing title input.bot_login issues)) [
          | inl e ↦ rw l (rw g (rw e (open_issue-keeps faults input title signature issues i m h)))
          | inr (k, e) ↦
              let (n, t, u, v) = find_existing_lem title input.bot_login issues k e in
              rw l (
                rw g (
                  rw e (
                    bump_issue-keeps faults input k issues i m
                      (numbers_differ issues i k a m n (other_issue input.bot_login i k u v c)))))
        ]
      ]
    ]

-- Whichever calls fail, an issue that a maintainer has confirmed, and one that is no open candidate of
-- the bot, is in the list after a run as it was before; no two issues have one number, and a new
-- issue gets a number of its own.
pub main-keeps :
    (faults : Faults) (input : Input) (issues : List Issue) (i : Issue)
    → AreNumbered issues
    → Memᴰ i issues
    → i.number ≢ input.new_number
    → (has_label confirmed_label i ≡ true) ⊎ (is_candidate input.bot_login i ≡ false)
    → Memᴰ i (main faults input issues)
unfolding main
main-keeps faults input issues i a m h c = elim (Option-cases input.test_name) [
  | inl e ↦ rw e m
  | inr (name, e) ↦ elim (Bool-cases (is_empty name)) [
    | inl f ↦ rw e (rw f m)
    | inr f ↦ rw e (rw f (track-keeps faults input (take 200 name) issues i a m h c))
  ]
]
