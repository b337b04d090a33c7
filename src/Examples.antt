-- ===== src/Examples.antt =====
-- Concrete values for the tests: an order at risk, its assessment, the controls, and a codec whose
-- digest is the text itself.
use promiseguard_ai.Prelude.{ℕ, ltb, true, false, none, some, []}
use promiseguard_ai.Prelude.Text.{String}
use promiseguard_ai.Prelude.Exec.{ok}
use promiseguard_ai.Prelude.{◌∷◌}
use promiseguard_ai.Prelude.Int.{pos}
use promiseguard_ai.Sandbox.{SandboxState}
use promiseguard_ai.Models.{
  DecisionStatus, DecisionTrace, PolicyDisposition, RecoveryAction, RecoveryOption, Float,
  NonNegativeMoney, OrderContext, EvaluationRequest, OperatingMode, RiskAssessment,
}
use promiseguard_ai.Codec.{Codec}
use promiseguard_ai.Orchestrator.{RiskScorer}
use promiseguard_ai.Policy.{PolicyControls}

abbrev pub bits : ℕ → Float
bits n = record { bits = n }

-- An amount given in cents.
abbrev pub in_cents : ℕ → NonNegativeMoney
in_cents n = record { digits = n; places = 2 }

abbrev pub order_at_risk : OrderContext
order_at_risk = record {
  order_id = "ORD-1";
  evaluation_time = 1000;
  promised_delivery_at = 9000;
  gross_margin = in_cents 5000;
  cancellation_cost = in_cents 1000;
  support_cost = in_cents 500;
  inventory_reserved = false;
  inventory_available = true;
  inventory_confidence = bits 9500;
  carrier_on_time_probability = bits 6000;
  hours_since_expected_scan = bits 10000;
  alternative_location_available = true;
  reroute_on_time_probability = bits 9500;
  carrier_upgrade_on_time_probability = bits 9300;
  reroute_cost = in_cents 300;
  carrier_upgrade_cost = in_cents 400;
  data_freshness_minutes = 5;
  source_references = [];
  external_notes = none;
  customer_id = "C-1";
  customer_segment = "STANDARD";
  currency = "USD";
  sku = "SKU-1";
  quantity = 2;
  current_fulfilment_location = "LOC-A";
  alternative_location_id = some "LOC-B";
  current_carrier_service = "GROUND";
  upgraded_carrier_service = "EXPRESS";
  split_shipment_possible = true;
  split_shipment_on_time_probability = bits 9000;
  split_shipment_cost = in_cents 900;
  restricted_product = false;
  tenant_id = "local-default";
}

abbrev pub risk_of_order : RiskAssessment
risk_of_order = record {
  failure_probability = bits 6000;
  confidence = bits 9000;
  model_version = "risk-rules-v1";
  feature_timestamp = 1000;
  factors = [];
  data_quality_warnings = [];
  evidence_references = [];
}

abbrev pub request_at_risk : EvaluationRequest
request_at_risk = record {
  event = record {
    source_system = "oms";
    event_id = "EV-1";
    event_version = 1;
    event_type = "ORDER_UPDATED";
    event_time = 900;
    ingestion_time = 950;
    schema_version = "1";
    deduplication_key = "oms|EV-1";
  };
  order = order_at_risk;
  mode = OperatingMode.bounded_autonomy;
}

abbrev pub plain_codec : Codec
plain_codec = record {
  sha256_hex = λ s. s;
  request_json = λ r. r.event.event_id;
  trace_json = λ t. t.order_id;
  approval_json = λ a. a.decision_id;
  command_json = λ c. c.order_id;
  outcome_json = λ o. o.decision_id;
}

abbrev pub open_controls : PolicyControls
open_controls = record {
  kill_switch_active = ok false;
  autonomy_allowed = λ a. ok true;
  control_version = λ a. ok "kill-switch:1";
  less = λ a b. ltb a.bits b.bits;
  min_confidence = bits 8500;
}

abbrev pub fixed_scorer : RiskScorer
fixed_scorer = record { model_version = "risk-rules-v1"; score = λ o. risk_of_order }

abbrev pub digits : ℕ → String
digits n = "1"

abbrev pub upgrade_option : ℕ → RecoveryOption
upgrade_option cost = record {
  action = RecoveryAction.carrier_upgrade;
  feasible = true;
  on_time_probability = bits 9300;
  expected_retained_gross_margin = pos 4650;
  intervention_cost = cost;
  expected_failure_cost = 105;
  expected_net_value = pos 4145;
  reversible = true;
  confidence = bits 9000;
  constraints = [];
  evidence_references = [];
}

abbrev pub upgrade_trace : ℕ → DecisionTrace
upgrade_trace cost = record {
  trace_version = "decision-trace-v2";
  decision_id = "dec_1";
  event_id = "EV-1";
  order_id = "ORD-1";
  mode = OperatingMode.approval;
  risk = risk_of_order;
  recommendation = record {
    selected_action = RecoveryAction.carrier_upgrade;
    ranked_options = upgrade_option cost ∷ [];
    expected_incremental_value_vs_no_action = pos 1545;
    rejected_options = [];
    confidence = bits 9000;
  };
  policy = record {
    disposition = PolicyDisposition.request_approval;
    policy_version = "policy-v3";
    control_version = "kill-switch:1";
    execution_allowed = false;
    reasons = [];
  };
  status = DecisionStatus.awaiting_approval;
  created_at = 1000;
  tenant_id = "local-default";
}

abbrev pub quiet : SandboxState
quiet = record {
  order_locations = [];
  carrier_services = [];
  split_shipments = [];
  alternative_reservations = [];
  delivery_outcomes = [];
  applied_idempotency_keys = [];
  failure_modes = [];
}
