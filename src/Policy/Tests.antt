-- ===== src/Policy/Tests.antt =====
-- A cheap and beneficial reroute before the gateway of src/promiseguard/policy.py.
use promiseguard_ai.Prelude.{◌≡◌, refl, ◌↔◌, true, [], ◌∷◌}
use promiseguard_ai.Prelude.Int.{pos}
use promiseguard_ai.Prelude.Exec.{ok}
use promiseguard_ai.Models.{
  OperatingMode, PolicyDisposition, PolicyEvaluation, RecoveryAction, RecoveryOption,
  DecisionRecommendation,
}
use promiseguard_ai.Examples.{bits, order_at_risk, risk_of_order, open_controls}
use promiseguard_ai.Policy.{evaluate_policy, control_stage, bounded_stage, policy_result}
use promiseguard_ai.Policy.Gate.{IsCleared, allowed→IsCleared, allowed_iff_auto}

abbrev cheap_reroute : RecoveryOption
cheap_reroute = record {
  action = RecoveryAction.reroute;
  feasible = true;
  on_time_probability = bits 9500;
  expected_retained_gross_margin = pos 4750;
  intervention_cost = 300;
  expected_failure_cost = 75;
  expected_net_value = pos 4375;
  reversible = true;
  confidence = bits 9000;
  constraints = [];
  evidence_references = [];
}

abbrev reroute_it : DecisionRecommendation
reroute_it = record {
  selected_action = RecoveryAction.reroute;
  ranked_options = cheap_reroute ∷ [];
  expected_incremental_value_vs_no_action = pos 3275;
  rejected_options = [];
  confidence = bits 9000;
}

abbrev automatic : PolicyEvaluation
automatic = record {
  disposition = PolicyDisposition.auto_execute;
  policy_version = "policy-v3";
  control_version = "kill-switch:1";
  execution_allowed = true;
  reasons = "BOUNDED_AUTONOMY_CONDITIONS_SATISFIED" ∷ [];
}

allows :
    evaluate_policy open_controls order_at_risk risk_of_order reroute_it
      OperatingMode.bounded_autonomy
    ≡ ok automatic
unfolding evaluate_policy control_stage bounded_stage policy_result
allows = refl

allowed→IsCleared_example :
    IsCleared open_controls order_at_risk risk_of_order reroute_it OperatingMode.bounded_autonomy
allowed→IsCleared_example =
    allowed→IsCleared open_controls order_at_risk risk_of_order reroute_it
      OperatingMode.bounded_autonomy allows refl

allowed_iff_auto_example :
    (automatic.execution_allowed ≡ true) ↔ (automatic.disposition ≡ PolicyDisposition.auto_execute)
allowed_iff_auto_example =
    allowed_iff_auto open_controls order_at_risk risk_of_order reroute_it
      OperatingMode.bounded_autonomy allows
