-- ===== src/Simulator.antt =====
-- src/promiseguard/simulator.py: the counterfactual options of an order. The products and
-- sums of amounts are exact, and `_money` rounds them to cents.
pub mod Bounds
mod Tests
use promiseguard_ai.Prelude.{
  ℕ, ◌+◌, ◌-◌, ◌*◌, ◌/◌, ◌^◌, Bool, true, false, ◌&&◌, List, [], ◌∷◌, if◌then◌else◌, is_some,
}
use promiseguard_ai.Prelude.Int.{ℤ, pos, negsuc, ◌-ℤ◌}
use promiseguard_ai.Prelude.Text.{String}
use promiseguard_ai.Money.{money, signed_money, cents, unit, sum, rounded}
use promiseguard_ai.Models.{
  Float, NonNegativeMoney, OrderContext, RiskAssessment, RecoveryAction, RecoveryOption,
}
use promiseguard_ai.Floats.{FloatOps, float_min}

-- The value of an option that is not feasible, `Decimal("-999999.00")`.
abbrev pub infeasible_value : ℤ
infeasible_value = negsuc 99999899

module _ (f : FloatOps) where
  -- `order.gross_margin * success`, rounded
  unfoldable pub expected_margin : OrderContext → Float → ℕ
  expected_margin order p =
      let (n, k) = f.decimal p in
      money (cents order.gross_margin * n) (unit order.gross_margin * 10 ^ k)

  -- `(order.cancellation_cost + order.support_cost) * failure`, rounded
  unfoldable pub failure_cost : OrderContext → Float → ℕ
  failure_cost order p =
      let (n, k) = f.decimal p in
      let loss = sum order.cancellation_cost order.support_cost in
      money (cents loss * (10 ^ k - n)) (unit loss * 10 ^ k)

  -- `expected_margin - expected_failure_cost - intervention_cost`, rounded
  unfoldable pub net_value : OrderContext → Float → NonNegativeMoney → ℤ
  net_value order p cost =
      signed_money (expected_margin order p * unit cost)
        (failure_cost order p * unit cost + cents cost) (unit cost)

  -- `_build_option`
  unfoldable pub build_option :
      RecoveryAction
      → OrderContext
      → Float
      → NonNegativeMoney
      → Bool
      → Bool
      → Float
      → List String
      → RecoveryOption
  build_option action order p cost feasible reversible confidence constraints = record {
    action = action;
    feasible = feasible;
    on_time_probability = p;
    expected_retained_gross_margin = pos (expected_margin order p);
    intervention_cost = rounded cost;
    expected_failure_cost = failure_cost order p;
    expected_net_value = if feasible then net_value order p cost else infeasible_value;
    reversible = reversible;
    confidence = f.round_4 confidence;
    constraints = constraints;
    evidence_references = order.source_references;
  }

  -- `Decimal("0")`
  abbrev pub no_cost : NonNegativeMoney
  no_cost = record { digits = 0; places = 0 }

  abbrev pub reroute_feasible : OrderContext → Bool
  reroute_feasible order =
      order.alternative_location_available && is_some order.alternative_location_id

  unfoldable pub no_action_option : OrderContext → RiskAssessment → RecoveryOption
  unfolding build_option
  no_action_option order risk =
      build_option RecoveryAction.take_no_action order
        (f.round_4 (f.sub f.one risk.failure_probability)) no_cost true true risk.confidence []

  unfoldable pub reroute_option : OrderContext → RiskAssessment → RecoveryOption
  unfolding build_option
  reroute_option order risk =
      let feasible = reroute_feasible order in
      build_option RecoveryAction.reroute order
        (if feasible then order.reroute_on_time_probability else f.zero) order.reroute_cost feasible
        true (float_min f risk.confidence order.inventory_confidence)
        (if feasible then [] else "NO_VERIFIED_ALTERNATIVE_LOCATION" ∷ [])

  unfoldable pub carrier_option : OrderContext → RiskAssessment → RecoveryOption
  unfolding build_option
  carrier_option order risk =
      build_option RecoveryAction.carrier_upgrade order order.carrier_upgrade_on_time_probability
        order.carrier_upgrade_cost true true risk.confidence []

  unfoldable pub split_option : OrderContext → RiskAssessment → RecoveryOption
  unfolding build_option
  split_option order risk =
      let feasible = order.split_shipment_possible in
      build_option RecoveryAction.split_shipment order
        (if feasible then order.split_shipment_on_time_probability else f.zero)
        order.split_shipment_cost feasible true
        (float_min f risk.confidence order.inventory_confidence)
        (if feasible then [] else "SPLIT_SHIPMENT_NOT_FEASIBLE" ∷ [])

  unfoldable pub simulate : OrderContext → RiskAssessment → List RecoveryOption
  unfolding no_action_option reroute_option carrier_option split_option
  simulate order risk =
      no_action_option order risk
      ∷ reroute_option order risk
      ∷ carrier_option order risk
      ∷ split_option order risk
      ∷ []
