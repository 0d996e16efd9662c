-- ===== src/Track/Tests.antt =====
-- Runs on two tracking issues, and the theorem on what stays at concrete values.
use osac_test_infra.Prelude.{
  ℕ, true, false, none, some, List, [], ◌∷◌, ◌≡◌, refl, arith, codes, map, Memᴰ, inl,
}
use osac_test_infra.Prelude.Search.{bytes_eq}
use osac_test_infra.Text.{Text}
use osac_test_infra.Track.{
  Issue, Faults, Input, candidate_label, confirmed_label, review_label, has_label, bump, main,
}
use osac_test_infra.Track.Keeps.{AreNumbered, main-keeps}

bump_test : bump (codes "x\n\n**Occurrences:** 9 y") ≡ (10, codes "x\n\n**Occurrences:** 10 y")
unfolding bump
bump_test = refl

first_bump_test : bump (codes "x") ≡ (2, codes "x\n\n**Occurrences:** 2")
unfolding bump
first_bump_test = refl

abbrev issue : ℕ → List Text → Issue
issue number labels = record {
  number = number;
  title = codes "[AI Diagnostic] E2E: test_a";
  labels = labels;
  creator = codes "bot";
  is_open = true;
  body = codes "**Occurrences:** 2";
  comments = [];
}

abbrev confirmed : Issue
confirmed = issue 1 (candidate_label ∷ confirmed_label ∷ [])

abbrev candidate : Issue
candidate = issue 2 (candidate_label ∷ [])

abbrev no_faults : Faults
no_faults = record {
  login = false;
  listing = false;
  create = false;
  patch = false;
  comment = false;
  label = false;
}

abbrev input : Input
input = record {
  test_name = some (codes "test_a");
  diagnosis = none;
  workflow_name = codes "E2E";
  source_repo = codes "osac";
  pr_number = codes "7";
  run_url = codes "url";
  bot_login = codes "bot";
  new_number = 3;
}

-- The candidate is counted up and flagged; the confirmed issue is not.
counted :
    map (λ i. i.body) (main no_faults input (confirmed ∷ candidate ∷ []))
    ≡ codes "**Occurrences:** 2" ∷ codes "**Occurrences:** 3" ∷ []
unfolding main
counted = refl

flagged :
    map (has_label review_label) (main no_faults input (confirmed ∷ candidate ∷ []))
    ≡ false ∷ true ∷ []
unfolding main
flagged = refl

numbered : AreNumbered (confirmed ∷ candidate ∷ [])
unfolding AreNumbered
numbered = omega arith

is_confirmed : has_label confirmed_label confirmed ≡ true
unfolding bytes_eq
is_confirmed = refl

main-keeps_example : Memᴰ confirmed (main no_faults input (confirmed ∷ candidate ∷ []))
main-keeps_example =
    main-keeps no_faults input (confirmed ∷ candidate ∷ []) confirmed numbered (Memᴰ.head refl)
      (omega arith) (inl is_confirmed)
