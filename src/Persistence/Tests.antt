-- ===== src/Persistence/Tests.antt =====
-- Replays of an event, an action and an outcome (src/promiseguard/persistence.py).
use promiseguard_ai.Prelude.{◌≡◌, refl, true, none, some, []}
use promiseguard_ai.Prelude.Int.{pos}
use promiseguard_ai.Prelude.Exec.{ok}
use promiseguard_ai.Models.{
  ActionExecution, ActionStatus, OutcomeVerification, RecoveryAction, VerificationStatus,
  carrier_parameters,
}
use promiseguard_ai.Examples.{bits, plain_codec, request_at_risk}
use promiseguard_ai.Autonomy.History.{empty_db}
use promiseguard_ai.Persistence.{ingest, event_row, record_action}
use promiseguard_ai.Persistence.Outcomes.{record_outcome}

ingests :
    (ingest plain_codec 1000 request_at_risk empty_db).0
    ≡ ok (event_row plain_codec 1000 request_at_risk)
unfolding ingest
ingests = refl

abbrev upgrade : ActionExecution
upgrade = record {
  action_id = "act_1";
  command = record {
    decision_id = "dec_1";
    order_id = "ORD-1";
    action = RecoveryAction.carrier_upgrade;
    idempotency_key = "dec_1:act";
    requested_by = "operations-analyst-ui";
    approved_by = none;
    expected_intervention_cost = 400;
    parameters = carrier_parameters "GROUND" "EXPRESS";
  };
  status = ActionStatus.executing;
  steps = [];
  started_at = 1000;
  completed_at = none;
  error_code = none;
  manual_recovery_reason = none;
}

records_action : (record_action plain_codec upgrade empty_db).0 ≡ ok upgrade
unfolding record_action
records_action = refl

abbrev success : OutcomeVerification
success = record {
  outcome_id = "out_1";
  decision_id = "dec_1";
  action_id = "act_1";
  status = VerificationStatus.verified;
  verified_at = 1000;
  on_time_delivery_observed = some true;
  actual_intervention_cost = 400;
  realised_gross_margin = pos 4600;
  estimated_incremental_value = pos 3000;
  evidence_references = [];
  action_postcondition_holds = true;
  expected_on_time_probability = bits 9300;
  execution_status = ActionStatus.succeeded;
}

records_outcome : (record_outcome plain_codec success empty_db).0 ≡ ok success
unfolding record_outcome
records_outcome = refl
