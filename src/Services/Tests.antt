-- ===== src/Services/Tests.antt =====
-- An evaluation that allows a reroute by itself, over src/promiseguard/services.py.
use promiseguard_ai.Prelude.Exec.{ok}
use promiseguard_ai.Prelude.{ℕ, ◌≡◌, ◌⊎◌, refl, true, false, some, [], ◌∷◌}
use promiseguard_ai.Prelude.Int.{ℤ, pos}
use promiseguard_ai.Models.{
  AutonomyLevel, DecisionTrace, RecoveryAction, RecoveryOption, DecisionStatus, OperatingMode,
  PolicyDisposition, PolicyEvaluation,
}
use promiseguard_ai.Floats.{ten_thousandths}
use promiseguard_ai.Examples.{
  bits, digits, fixed_scorer, risk_of_order, plain_codec, request_at_risk,
}
use promiseguard_ai.Database.{AutonomyProfileRow, Db}
use promiseguard_ai.Autonomy.History.{empty_db}
use promiseguard_ai.Orchestrator.{Orchestrator, evaluate, status_for_mode, decision_id_of}
use promiseguard_ai.Prelude.Text.{String, concat, prefix}
use promiseguard_ai.Prelude.Int.{◌+ℤ◌, ◌-ℤ◌}
use promiseguard_ai.Codec.{canonical_fingerprint, hashed_id}
use promiseguard_ai.Simulator.{
  simulate, no_action_option, reroute_option, carrier_option, split_option, build_option,
  expected_margin, failure_cost, net_value,
}
use promiseguard_ai.Money.{money, signed_money}
use promiseguard_ai.Optimizer.{rank_in, ranked, rejection, recommend, select_option}
use promiseguard_ai.Policy.{evaluate_policy, control_stage, bounded_stage, policy_result}
use promiseguard_ai.Autonomy.{
  find_profile, kill_switch, profile, context_version, execution_permitted,
}
use promiseguard_ai.Persistence.{ingest, record_decision, get_decision}
use promiseguard_ai.Ledger.{sql_record}
use promiseguard_ai.Models.{action_value}
use promiseguard_ai.Services.{built_orchestrator, evaluate_request, kill_switch_active}
use promiseguard_ai.Services.Again.{evaluate_request_again}
use promiseguard_ai.Services.Earned.{IsPermitted, evaluate_request_earned}

abbrev proven : RecoveryAction → AutonomyProfileRow
proven action = record {
  action = action;
  level = AutonomyLevel.bounded_autonomy;
  verified_successes = 24;
  consecutive_verified_successes = 21;
  compensation_count = 0;
  failure_count = 1;
  reason = "proven";
  last_evidence_at = some 900;
  updated_by = "operations-manager-ui";
  updated_at = 950;
  version = 26;
}

abbrev db : Db
db = record empty_db {
  kill_switch = some (record {
    enabled = false;
    reason = "Initial safe state";
    updated_by = "system-bootstrap";
    updated_at = 0;
    version = 1;
  });
  profiles =
      proven RecoveryAction.reroute
      ∷ proven RecoveryAction.carrier_upgrade
      ∷ proven RecoveryAction.split_shipment
      ∷ [];
}

abbrev over_db : Orchestrator Db
over_db = built_orchestrator plain_codec ten_thousandths fixed_scorer digits (bits 8500)

abbrev costed : RecoveryAction → ℕ → ℤ → ℕ → ℕ → ℤ → RecoveryOption
costed action likely margin cost failure net = record {
  action = action;
  feasible = true;
  on_time_probability = bits likely;
  expected_retained_gross_margin = margin;
  intervention_cost = cost;
  expected_failure_cost = failure;
  expected_net_value = net;
  reversible = true;
  confidence = bits 9000;
  constraints = [];
  evidence_references = [];
}

abbrev automatic : PolicyEvaluation
automatic = record {
  disposition = PolicyDisposition.auto_execute;
  policy_version = "policy-v3";
  control_version = "kill-switch:1|REROUTE:1";
  execution_allowed = true;
  reasons = "BOUNDED_AUTONOMY_CONDITIONS_SATISFIED" ∷ [];
}

abbrev allowing : DecisionTrace
allowing = record {
  trace_version = "decision-trace-v2";
  decision_id = decision_id_of over_db request_at_risk automatic;
  event_id = "EV-1";
  order_id = "ORD-1";
  mode = OperatingMode.bounded_autonomy;
  risk = risk_of_order;
  recommendation = record {
    selected_action = RecoveryAction.reroute;
    ranked_options =
        costed RecoveryAction.reroute 9500 (pos 4750) 300 75 (pos 4375)
        ∷ costed RecoveryAction.carrier_upgrade 9300 (pos 4650) 400 105 (pos 4145)
        ∷ costed RecoveryAction.split_shipment 9000 (pos 4500) 900 150 (pos 3450)
        ∷ costed RecoveryAction.take_no_action 4000 (pos 2000) 0 900 (pos 1100)
        ∷ [];
    expected_incremental_value_vs_no_action = pos 3275;
    rejected_options = [];
    confidence = bits 9000;
  };
  policy = automatic;
  status = DecisionStatus.ready_for_execution;
  created_at = 1000;
  tenant_id = "local-default";
}

allows : (evaluate_request over_db 1000 request_at_risk db).0 ≡ ok allowing
unfolding evaluate_request ingest evaluate simulate no_action_option reroute_option carrier_option
    split_option build_option expected_margin failure_cost net_value money signed_money
    status_for_mode rank_in ranked rejection recommend select_option evaluate_policy control_stage
    bounded_stage policy_result find_profile kill_switch profile context_version execution_permitted
    kill_switch_active sql_record record_decision concat prefix action_value canonical_fingerprint
    hashed_id ◌+ℤ◌ ◌-ℤ◌
allows = refl

evaluate_request_earned_example :
    ((id : String) × (get_decision id db ≡ some allowing)) ⊎ IsPermitted db RecoveryAction.reroute
evaluate_request_earned_example =
    evaluate_request_earned plain_codec ten_thousandths fixed_scorer digits (bits 8500) 1000
      request_at_risk db (refl, (refl, (refl, tt))) allows refl

evaluate_request_again_example :
    evaluate_request over_db 2000 request_at_risk
      (evaluate_request over_db 1000 request_at_risk db).1
    ≡ (ok allowing, (evaluate_request over_db 1000 request_at_risk db).1)
evaluate_request_again_example =
    evaluate_request_again plain_codec ten_thousandths fixed_scorer digits (bits 8500) 1000 2000
      request_at_risk db allows
