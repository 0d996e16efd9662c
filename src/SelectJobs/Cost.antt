-- ===== src/SelectJobs/Cost.antt =====
-- What the calls of the model cost: `compute_cost`, `aggregate_cost` and `format_cost_line` of
-- .github/scripts/select-jobs.py. The source counts in floating-point dollars; here a price is in
-- cents for a million tokens, and a cost in units of 1e-8 dollars, so that sums are exact.
pub mod Sums
use osac_test_infra.Prelude.{
  ℕ, ◌+◌, ◌*◌, Bool, true, false, not, Option, none, some, List, [], ◌∷◌, ◌++◌, ltb, ◌&&◌, ◌||◌,
  if◌then◌else◌, codes,
}
use osac_test_infra.Prelude.Search.{bytes_eq}
use osac_test_infra.Text.{Text, decimal}

-- The fields of a response's usage_metadata that are read.
pub record Usage : Type 0 where
  pub prompt_token_count : Option ℕ
  pub candidates_token_count : Option ℕ
  pub tool_use_prompt_token_count : Option ℕ
  pub thoughts_token_count : Option ℕ

pub record Tier : Type 0 where
  pub threshold : ℕ
  pub tiered_input : ℕ
  pub tiered_output : ℕ

pub record Pricing : Type 0 where
  pub input : ℕ
  pub output : ℕ
  pub tier : Option Tier

-- GEMINI_PRICING_USD_PER_MILLION
unfoldable pub pricing_of : Text → Option Pricing
unfolding bytes_eq
pricing_of model =
    if bytes_eq model (codes "gemini-2.5-flash")
    then some (record { input = 30; output = 250; tier = none })
    else if bytes_eq model (codes "gemini-2.5-pro")
    then some (record {
      input = 125;
      output = 1000;
      tier = some (record { threshold = 200000; tiered_input = 250; tiered_output = 1500 });
    })
    else if bytes_eq model (codes "gemini-3.1-pro-preview")
    then some (record {
      input = 200;
      output = 1200;
      tier = some (record { threshold = 200000; tiered_input = 400; tiered_output = 1800 });
    })
    else none

-- `n or 0`
abbrev pub or_zero : Option ℕ → ℕ
or_zero none = 0
or_zero (some n) = n

-- What compute_cost returns when the tokens are known; None for all three is `none`.
pub record Cost : Type 0 where
  pub cost_usd : Option ℕ
  pub input_tokens : ℕ
  pub output_tokens : ℕ

abbrev pub prices : Pricing → ℕ → ℕ × ℕ
prices p tokens = elim p.tier [
  | none ↦ (p.input, p.output)
  | some t ↦
      if ltb t.threshold tokens then (t.tiered_input, t.tiered_output) else (p.input, p.output)
]

unfoldable pub price_tokens : Option Pricing → ℕ → ℕ → Cost
price_tokens none input output = record {
  cost_usd = none;
  input_tokens = input;
  output_tokens = output;
}
price_tokens (some p) input output =
    let (input_price, output_price) = prices p input in
    record {
      cost_usd = some (input * input_price + output * output_price);
      input_tokens = input;
      output_tokens = output;
    }

unfoldable pub compute_usage : Option ℕ → Usage → Text → Option Cost
unfolding price_tokens
compute_usage none u model = none
compute_usage (some prompt) u model = some (
    price_tokens (pricing_of model) (prompt + or_zero u.tool_use_prompt_token_count)
      (or_zero u.candidates_token_count + or_zero u.thoughts_token_count))

-- compute_cost
unfoldable pub compute_cost : Option Usage → Text → Option Cost
unfolding compute_usage
compute_cost none model = none
compute_cost (some u) model = compute_usage u.prompt_token_count u model

-- The variables of aggregate_cost's loop.
pub record Totals : Type 0 where
  pub total_cost : ℕ
  pub total_input_tokens : ℕ
  pub total_output_tokens : ℕ
  pub any_usage : Bool
  pub any_missing : Bool
  pub cost_known : Bool

abbrev pub no_totals : Totals
no_totals = record {
  total_cost = 0;
  total_input_tokens = 0;
  total_output_tokens = 0;
  any_usage = false;
  any_missing = false;
  cost_known = true;
}

abbrev pub add_price : Option ℕ → Totals → Totals
add_price none t = record t { cost_known = false }
add_price (some c) t = record t { total_cost = t.total_cost + c }

-- One round of the loop.
unfoldable pub add_cost : Totals → Option Cost → Totals
add_cost t none = record t { any_missing = true }
add_cost t (some c) = add_price c.cost_usd (record t {
  any_usage = true;
  total_input_tokens = t.total_input_tokens + c.input_tokens;
  total_output_tokens = t.total_output_tokens + c.output_tokens;
})

unfoldable pub add_costs : Totals → List (Option Usage) → Text → Totals
unfolding add_cost compute_cost
add_costs t [] model = t
add_costs t (u ∷ us) model = add_costs (add_cost t (compute_cost u model)) us model

-- The sums, and `complete`.
unfoldable pub conclude_totals : Totals → Option Cost × Bool
conclude_totals t = if not t.any_usage then (none, true) else (
  some (record {
    cost_usd = if t.cost_known then some t.total_cost else none;
    input_tokens = t.total_input_tokens;
    output_tokens = t.total_output_tokens;
  }),
  not t.any_missing,
)

unfoldable pub aggregate_cost : List (Option Usage) → Text → Option Cost × Bool
unfolding add_costs conclude_totals
aggregate_cost usages model = conclude_totals (add_costs no_totals usages model)

-- format_cost_line; `show_cost` is the format `:.4f` and `quote` the format `!r`.
unfoldable pub format_cost_line : (ℕ → Text) → (Text → Text) → Option Cost → Text → Bool → Text
format_cost_line show_cost quote none model complete =
    codes "Estimated cost: $0.0000 (0 input + 0 output tokens, " ++ (model ++ codes ")")
format_cost_line show_cost quote (some c) model complete =
    let prefix =
      if complete
      then codes "Estimated cost"
      else codes "Estimated cost (partial -- at least one attempt's usage data was missing)" in
    elim c.cost_usd [
      | none ↦
          prefix
          ++ (codes ": unavailable (no pricing data for model " ++ (quote model ++ codes ")"))
      | some cost ↦
          prefix
          ++ (codes ": $"
              ++ (show_cost cost
                  ++ (codes " ("
                      ++ (decimal c.input_tokens
                          ++ (codes " input + "
                              ++ (decimal c.output_tokens
                                  ++ (codes " output tokens, " ++ (model ++ codes ")"))))))))
    ]
