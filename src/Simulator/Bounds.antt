-- ===== src/Simulator/Bounds.antt =====
-- The amounts of the options of src/promiseguard/simulator.py.
use promiseguard_ai.Prelude.{◌+◌, ◌≤◌, ◌≡◌, true, false}
use promiseguard_ai.Prelude.Int.{pos, ◌+ℤ◌, ◌≤ℤ◌}
use promiseguard_ai.Models.{OrderContext, RiskAssessment, RecoveryOption}
use promiseguard_ai.Floats.{FloatOps, IsProbability}
use promiseguard_ai.Money.{sum, rounded}
use promiseguard_ai.Simulator.{infeasible_value}

-- The margin and the failure cost are at most the order's gross margin and what a failure costs, each
-- rounded to cents. The value of a feasible option is its margin less its failure cost and its price,
-- or one cent more, and at most its margin; one that is not feasible has the fixed penalty value.
pub record IsBounded (order : OrderContext) (o : RecoveryOption) : Type 0 where
  pub margin : o.expected_retained_gross_margin ≤ℤ pos (rounded order.gross_margin)
  pub failure : o.expected_failure_cost ≤ rounded (sum order.cancellation_cost order.support_cost)
  pub at_most : o.feasible ≡ true → o.expected_net_value ≤ℤ o.expected_retained_gross_margin
  pub at_least :
      o.feasible ≡ true
      → o.expected_retained_gross_margin
        ≤ℤ o.expected_net_value +ℤ pos (o.expected_failure_cost + o.intervention_cost)
  pub near :
      o.feasible ≡ true
      → o.expected_net_value +ℤ pos (o.expected_failure_cost + o.intervention_cost)
        ≤ℤ o.expected_retained_gross_margin +ℤ pos 1
  pub penalty : o.feasible ≡ false → o.expected_net_value ≡ infeasible_value

-- The probabilities that a validated order and risk assessment carry.
pub record HasProbabilities (f : FloatOps) (order : OrderContext) (risk : RiskAssessment)
    : Type 0 where
  pub risk_prob : IsProbability f risk.failure_probability
  pub reroute_prob : IsProbability f order.reroute_on_time_probability
  pub carrier_prob : IsProbability f order.carrier_upgrade_on_time_probability
  pub split_prob : IsProbability f order.split_shipment_on_time_probability
