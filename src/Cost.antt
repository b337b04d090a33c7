-- ===== src/Cost.antt =====
-- src/promiseguard/openai_cost.py: the price of a run, in micro-dollars. A price of x dollars per
-- million tokens is x micro-dollars a token; the prices below are thousandths of that.
pub mod Bounds
mod Tests
use promiseguard_ai.Prelude.{
  ℕ, ◌+◌, ◌-◌, ◌*◌, ◌/◌, Bool, true, false, ◌||◌, Option, none, some, List, [], ◌∷◌, find,
  if◌then◌else◌,
}
use Prim.Native.Nat.{max}
use Prim.Native.String.{len}
use text.Mathlib.Text.{starts_with}
use promiseguard_ai.Prelude.Text.{String, str_eq, concat}
use promiseguard_ai.Prelude.Exec.{Result, ok, err, unknown_model_pricing_error}
use promiseguard_ai.Budget.{AgentTokenUsage}

pub record ModelPricing : Type 0 where
  pub input_price : ℕ
  pub cached_price : ℕ
  pub output_price : ℕ

-- `_MODEL_PRICING`
abbrev pub model_pricing : List (String × ModelPricing)
model_pricing =
    ("gpt-5-nano", record { input_price = 50; cached_price = 5; output_price = 400 })
    ∷ ("gpt-4.1-nano", record { input_price = 100; cached_price = 25; output_price = 400 })
    ∷ ("gpt-4o-mini", record { input_price = 150; cached_price = 75; output_price = 600 })
    ∷ []

-- `for known, pricing in …: if model == known or model.startswith(f"{known}-")`
pub find_pricing : String → List (String × ModelPricing) → Option ModelPricing
find_pricing model [] = none
find_pricing model ((known, pricing) ∷ rest) =
    if str_eq model known || starts_with model (concat (known ∷ "-" ∷ []))
    then some pricing
    else find_pricing model rest

pub pricing_for_model : String → Result ModelPricing
unfolding find_pricing
pricing_for_model model = elim (find_pricing model model_pricing) [
  | none ↦ err unknown_model_pricing_error model
  | some pricing ↦ ok pricing
]

-- `max(1, ceil(n / 3))` of the number of UTF-8 bytes
pub token_estimate : ℕ → ℕ
token_estimate bytes = max 1 ((bytes + 2) / 3)

pub conservative_token_estimate : String → ℕ
unfolding token_estimate
conservative_token_estimate text = token_estimate (len text)

-- The amount in thousandths of a micro-dollar; a validated usage has no more cached than input
-- tokens.
pub exact_amount : ModelPricing → AgentTokenUsage → ℕ
exact_amount p u =
    (u.input_tokens - u.cached_input_tokens) * p.input_price
    + u.cached_input_tokens * p.cached_price
    + u.output_tokens * p.output_price

-- `.quantize(_USD_QUANTUM, rounding=ROUND_UP)`
pub priced : ModelPricing → AgentTokenUsage → ℕ
unfolding exact_amount
priced p u = (exact_amount p u + 999) / 1000

-- `cost_for_usage`
pub cost_for_usage : String → AgentTokenUsage → Result ℕ
unfolding pricing_for_model priced
cost_for_usage model u = elim (pricing_for_model model) [
  | ok p ↦ ok (priced p u)
  | err k t ↦ err k t
]

-- `estimated_run_cost`: the token estimate and its cost
pub estimated_run_cost : String → String → ℕ → Result (ℕ × ℕ)
unfolding conservative_token_estimate cost_for_usage
estimated_run_cost model text max_output =
    let input = conservative_token_estimate text in
    elim (cost_for_usage model (record {
      input_tokens = input;
      cached_input_tokens = 0;
      output_tokens = max_output;
      total_tokens = input + max_output;
    })) [ ok cost ↦ ok (input, cost) | err k t ↦ err k t ]
