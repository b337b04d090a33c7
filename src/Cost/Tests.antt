-- ===== src/Cost/Tests.antt =====
-- The price of a run in src/promiseguard/openai_cost.py.
use promiseguard_ai.Prelude.{◌≤◌, ◌≡◌, refl, arith}
use promiseguard_ai.Prelude.Exec.{ok}
use promiseguard_ai.Budget.{AgentTokenUsage}
use promiseguard_ai.Cost.{
  ModelPricing, exact_amount, priced, cost_for_usage, estimated_run_cost, pricing_for_model,
  find_pricing, conservative_token_estimate, token_estimate,
}
use promiseguard_ai.Cost.Bounds.{estimated_run_cost_bounds}

abbrev nano : ModelPricing
nano = record { input_price = 50; cached_price = 5; output_price = 400 }

abbrev small_usage : AgentTokenUsage
small_usage = record {
  input_tokens = 2;
  cached_input_tokens = 1;
  output_tokens = 7;
  total_tokens = 9;
}

estimate : estimated_run_cost "gpt-5-nano" "order" 10 ≡ ok (2, 5)
unfolding estimated_run_cost pricing_for_model find_pricing conservative_token_estimate
    token_estimate priced exact_amount
estimate = refl

cost : cost_for_usage "gpt-5-nano" small_usage ≡ ok 3
unfolding cost_for_usage pricing_for_model find_pricing priced exact_amount
cost = refl

estimated_run_cost_bounds_example : 3 ≤ 5
estimated_run_cost_bounds_example =
    estimated_run_cost_bounds "gpt-5-nano" "order" 10 small_usage estimate cost (omega arith)
      (omega arith) (omega arith)
