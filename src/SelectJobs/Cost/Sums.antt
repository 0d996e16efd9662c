-- ===== src/SelectJobs/Cost/Sums.antt =====
-- The totals of `aggregate_cost` of .github/scripts/select-jobs.py, against sums over the calls.
use osac_test_infra.Prelude.{
  ℕ, ◌+◌, Bool, true, false, not, Option, none, some, List, [], ◌∷◌, ◌≡◌, refl, ◌∙◌, ◌&&◌, ◌||◌,
  if◌then◌else◌, is_empty, map, all, any, arith, Option-cases, Bool-cases, inl, inr,
}
use osac_test_infra.Text.{Text}
use osac_test_infra.SelectJobs.Cost.{
  Usage, Cost, Totals, compute_cost, no_totals, add_cost, add_costs, conclude_totals,
  aggregate_cost,
}

-- The calls with usable token counts.
unfoldable pub usable : List (Option Cost) → List Cost
usable [] = []
usable (none ∷ cs) = usable cs
usable (some c ∷ cs) = c ∷ usable cs

unfoldable pub sum_by : (Cost → ℕ) → List Cost → ℕ
sum_by f [] = 0
sum_by f (c ∷ cs) = f c + sum_by f cs

abbrev pub price_or_zero : Option ℕ → ℕ
price_or_zero none = 0
price_or_zero (some n) = n

abbrev pub is_known : Option ℕ → Bool
is_known none = false
is_known (some n) = true

abbrev pub is_missing : Option Cost → Bool
is_missing none = true
is_missing (some c) = false

-- What the totals of some calls ought to be, with no loop.
unfoldable pub summary : List (Option Cost) → Option Cost × Bool
unfolding usable sum_by
summary costs =
    let cs = usable costs in
    if is_empty cs then (none, true) else (
      some (record {
        cost_usd =
            if all (λ c. is_known c.cost_usd) cs
            then some (sum_by (λ c. price_or_zero c.cost_usd) cs)
            else none;
        input_tokens = sum_by (λ c. c.input_tokens) cs;
        output_tokens = sum_by (λ c. c.output_tokens) cs;
      }),
      not (any is_missing costs),
    )

-- The totals with those of further calls.
add_sums : Totals → List (Option Cost) → Totals
unfolding usable sum_by
add_sums t costs =
    let cs = usable costs in
    record {
      total_cost = t.total_cost + sum_by (λ c. price_or_zero c.cost_usd) cs;
      total_input_tokens = t.total_input_tokens + sum_by (λ c. c.input_tokens) cs;
      total_output_tokens = t.total_output_tokens + sum_by (λ c. c.output_tokens) cs;
      any_usage = t.any_usage || not (is_empty cs);
      any_missing = t.any_missing || any is_missing costs;
      cost_known = t.cost_known && all (λ c. is_known c.cost_usd) cs;
    }

-- Two totals that agree in each field are the same.
totals_eq :
    (t u : Totals)
    → t.total_cost ≡ u.total_cost
    → t.total_input_tokens ≡ u.total_input_tokens
    → t.total_output_tokens ≡ u.total_output_tokens
    → t.any_usage ≡ u.any_usage
    → t.any_missing ≡ u.any_missing
    → t.cost_known ≡ u.cost_known
    → t ≡ u
totals_eq t u a b c d e f = λ i. record {
  total_cost = a i;
  total_input_tokens = b i;
  total_output_tokens = c i;
  any_usage = d i;
  any_missing = e i;
  cost_known = f i;
}

add_sums-add_cost :
    (t : Totals) (c : Option Cost) (cs : List (Option Cost))
    → add_sums (add_cost t c) cs ≡ add_sums t (c ∷ cs)
unfolding add_sums add_cost usable sum_by
add_sums-add_cost t none cs = totals_eq _ _ refl refl refl refl (ground arith) refl
add_sums-add_cost t (some c) cs = elim (Option-cases c.cost_usd) [
  | inl e ↦
      totals_eq _ _ (ground arith) (ground arith) (ground arith) (ground arith) (ground arith)
        (ground arith)
  | inr (n, e) ↦
      totals_eq _ _ (ground arith) (ground arith) (ground arith) (ground arith) (ground arith)
        (ground arith)
]

add_costs_lem :
    (t : Totals) (usages : List (Option Usage)) (model : Text)
    → add_costs t usages model ≡ add_sums t (map (λ u. compute_cost u model) usages)
unfolding add_costs add_sums
add_costs_lem t [] model =
    totals_eq _ _ (omega arith) (omega arith) (omega arith) (ground arith) (ground arith)
      (ground arith)
add_costs_lem t (u ∷ us) model =
    add_costs_lem (add_cost t (compute_cost u model)) us model
    ∙ add_sums-add_cost t (compute_cost u model) (map (λ v. compute_cost v model) us)

-- The loop of aggregate_cost computes the sums over the calls with usable token counts: the cost is
-- known if each such call's is, and the total is complete if no call's counts are missing.
pub aggregate_cost-summary :
    (usages : List (Option Usage)) (model : Text)
    → aggregate_cost usages model ≡ summary (map (λ u. compute_cost u model) usages)
unfolding aggregate_cost summary conclude_totals add_sums
aggregate_cost-summary usages model =
    rw (add_costs_lem no_totals usages model)
      (elim (Bool-cases (is_empty (usable (map (λ u. compute_cost u model) usages)))) [
        | inl e ↦ ground arith
        | inr e ↦ ground arith
      ])
