-- ===== src/SelectJobs/Model/Calls.antt =====
-- The bookkeeping of `call_gemini` of .github/scripts/select-jobs.py: what a total that is called
-- complete covers.
use osac_test_infra.Prelude.{
  Bool, true, false, not, Option, none, some, List, [], ◌∷◌, ◌++◌, ◌≡◌, refl, sym, ap, all, any,
  map, is_empty, ◌||◌, arith, Bool-cases, inl, inr,
}
use osac_test_infra.Text.{Text}
use osac_test_infra.SelectJobs.Cost.{Usage, Cost, compute_cost, aggregate_cost}
use osac_test_infra.SelectJobs.Cost.Sums.{usable, summary, is_missing, aggregate_cost-summary}
use osac_test_infra.SelectJobs.Model.{
  Attempt, setup_raises, call_raises, responds, answer, answer_raises, try_once, call_gemini,
  or_retry,
}

-- The attempts that are made: a text ends them.
abbrev pub made_after : Attempt → Attempt → Option Text → List Attempt
made_after first second (some text) = first ∷ []
made_after first second none = first ∷ second ∷ []

unfoldable pub made : Attempt → Attempt → List Attempt
unfolding try_once
made first second = made_after first second (try_once first).0

-- An attempt that cannot have cost anything, or whose response gave its token counts.
unfoldable pub is_accounted : Text → Attempt → Bool
is_accounted model setup_raises = true
is_accounted model call_raises = false
is_accounted model (responds usage answer_raises) = false
is_accounted model (responds usage (answer text)) = not (is_missing (compute_cost usage model))

no_total :
    (costs : List (Option Cost)) (c : Cost)
    → is_empty (usable costs) ≡ true
    → summary costs ≡ (some c, true)
    → ⊥
unfolding summary
no_total costs c e h =
    let h' : Path (Option Cost × Bool) (none, true) (some c, true) = rw e at h in cc

complete_total :
    (costs : List (Option Cost)) (c : Cost)
    → is_empty (usable costs) ≡ false
    → summary costs ≡ (some c, true)
    → any is_missing costs ≡ false
unfolding summary
complete_total costs c e h =
    let h' : not (any is_missing costs) ≡ true = ap (λ x. x.1) (rw e at h) in ground arith

some_total :
    (costs : List (Option Cost)) (c : Cost)
    → summary costs ≡ (some c, true)
    → any is_missing costs ≡ false
some_total costs c h = elim (Bool-cases (is_empty (usable costs))) [
  | inl e ↦ absurd (no_total costs c e h)
  | inr e ↦ complete_total costs c e h
]

module _ (model : Text) where
  costs_of : List (Option Usage) → List (Option Cost)
  costs_of usages = map (λ u. compute_cost u model) usages

  attempt_accounted :
      (a : Attempt) → any is_missing (costs_of (try_once a).1) ≡ false → is_accounted model a ≡ true
  unfolding try_once is_accounted costs_of compute_cost
  attempt_accounted setup_raises h = refl
  attempt_accounted call_raises h = sym h
  attempt_accounted (responds u answer_raises) h = ground arith
  attempt_accounted (responds u (answer [])) h = ground arith
  attempt_accounted (responds u (answer (x ∷ xs))) h = ground arith

  any-append :
      (xs ys : List (Option Usage))
      → any is_missing (costs_of (xs ++ ys))
        ≡ (any is_missing (costs_of xs) || any is_missing (costs_of ys))
  unfolding costs_of
  any-append [] ys = refl
  any-append (x ∷ xs) ys = ground (arith, any-append xs ys)

  retry_accounted :
      (first second : Attempt) (o : Option Text) (usages : List (Option Usage))
      → (any is_missing (costs_of usages) ≡ false → is_accounted model first ≡ true)
      → any is_missing (costs_of (or_retry (o, usages) (try_once second)).1) ≡ false
      → all (is_accounted model) (made_after first second o) ≡ true
  retry_accounted first second (some text) usages f h = ground (arith, f h)
  retry_accounted first second none usages f h =
      let more = (try_once second).1 in
      ground (arith, any-append usages more, f, attempt_accounted second)

-- If the total over the calls of call_gemini is known and called complete, then each attempt that
-- was made either raised before it was dispatched or answered with its token counts.
pub call_gemini-accounted :
    (first second : Attempt) (model : Text) (c : Cost)
    → aggregate_cost (call_gemini first second).1 model ≡ (some c, true)
    → all (is_accounted model) (made first second) ≡ true
unfolding call_gemini made costs_of
call_gemini-accounted first second model c h =
    let known =
      some_total _ c (rw (aggregate_cost-summary (call_gemini first second).1 model) at h) in
    retry_accounted model first second (try_once first).0 (try_once first).1
      (attempt_accounted model first) known
