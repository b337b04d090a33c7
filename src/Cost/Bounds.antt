-- ===== src/Cost/Bounds.antt =====
-- The estimate and the cost of src/promiseguard/openai_cost.py.
use Prim.Native.String.{len}
use native.Mathlib.Nat.{mul-le-mul_left, mul-le-mul_right}
use promiseguard_ai.Prelude.{
  ℕ, ◌+◌, ◌-◌, ◌*◌, ◌≤◌, ◌<◌, ◌≡◌, refl, some, Option-cases, arith, inl, inr,
}
use promiseguard_ai.Prelude.Text.{String}
use promiseguard_ai.Prelude.Exec.{ok}
use promiseguard_ai.Budget.{AgentTokenUsage}
use promiseguard_ai.Cost.{
  ModelPricing, model_pricing, find_pricing, pricing_for_model, exact_amount, priced,
  cost_for_usage, conservative_token_estimate, estimated_run_cost,
}

-- A cached token costs no more than a new one.
abbrev IsSane : ModelPricing → Type 0
IsSane p = p.cached_price ≤ p.input_price

-- A price is the exact amount, rounded up by less than one micro-dollar.
pub priced_bounds :
    (p : ModelPricing) (u : AgentTokenUsage)
    → (exact_amount p u ≤ 1000 * priced p u) × (1000 * priced p u < exact_amount p u + 1000)
unfolding priced
priced_bounds p u = (omega arith, omega arith)

find_pricing-IsSane :
    (model : String) {p : ModelPricing} → find_pricing model model_pricing ≡ some p → IsSane p
unfolding find_pricing
find_pricing-IsSane model {p} h = ground arith

amount-le :
    (w k j a b o n d : ℕ) → b ≤ a → w + k ≤ j → o ≤ n → w * a + k * b + o * d ≤ j * a + n * d
amount-le w k j a b o n d h1 h2 h3 =
    omega (arith, mul-le-mul_left k h1, mul-le-mul_right a h2, mul-le-mul_right d h3)

-- A usage that stays within given input and output tokens costs at most what those cost uncached.
pub priced-le :
    (p : ModelPricing) (u v : AgentTokenUsage)
    → p.cached_price ≤ p.input_price
    → v.cached_input_tokens ≡ 0
    → u.cached_input_tokens ≤ u.input_tokens
    → u.input_tokens ≤ v.input_tokens
    → u.output_tokens ≤ v.output_tokens
    → priced p u ≤ priced p v
unfolding priced
priced-le p u v sane none_cached cached input output =
    let le =
      amount-le (u.input_tokens - u.cached_input_tokens) u.cached_input_tokens v.input_tokens
        p.input_price p.cached_price u.output_tokens v.output_tokens p.output_price sane
        (omega arith) output in
    let whole : v.input_tokens - v.cached_input_tokens ≡ v.input_tokens = omega arith in
    let zero_part : v.cached_input_tokens * p.cached_price ≡ 0 = rw none_cached (omega arith) in
    let amount : exact_amount p u ≤ exact_amount p v =
      unfold exact_amount in rw whole (omega arith) in
    omega arith

-- Three bytes are at most one token of the estimate.
pub estimate_covers : (text : String) → len text ≤ 3 * conservative_token_estimate text
unfolding conservative_token_estimate
estimate_covers text = omega arith

-- For a model with a known price, the cost of a usage with at most the estimated input tokens,
-- at most the output limit and no more cached than input tokens is at most the estimated cost.
pub estimated_run_cost_bounds :
    (model text : String) (max_output : ℕ) (u : AgentTokenUsage) {tokens estimate actual : ℕ}
    → estimated_run_cost model text max_output ≡ ok (tokens, estimate)
    → cost_for_usage model u ≡ ok actual
    → u.cached_input_tokens ≤ u.input_tokens
    → u.input_tokens ≤ tokens
    → u.output_tokens ≤ max_output
    → actual ≤ estimate
unfolding estimated_run_cost cost_for_usage pricing_for_model
estimated_run_cost_bounds model text max_output u {tokens} {estimate} {actual} h k cached input
      output =
    elim (Option-cases (find_pricing model model_pricing)) [
      | inl unknown_model ↦ absurd (ground arith)
      | inr (p, found) ↦
          let n = conservative_token_estimate text in
          let v : AgentTokenUsage = record {
            input_tokens = n;
            cached_input_tokens = 0;
            output_tokens = max_output;
            total_tokens = n + max_output;
          } in
          let tokens_are : tokens ≡ n = ground arith in
          let estimate_is : estimate ≡ priced p v = ground arith in
          let actual_is : actual ≡ priced p u = ground arith in
          rw (estimate_is, actual_is)
            (priced-le p u v (find_pricing-IsSane model found) refl cached (omega arith) output)
    ]
