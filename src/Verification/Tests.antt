-- ===== src/Verification/Tests.antt =====
-- A carrier upgrade whose delivery src/promiseguard/verification.py observes.
use promiseguard_ai.Prelude.{
  ◌≡◌, ◌≢◌, ◌↔◌, ◌⊎◌, refl, true, false, none, some, [], ◌∷◌, is_some, inr,
}
use promiseguard_ai.Prelude.Exec.{Result, ok}
use promiseguard_ai.Models.{
  ActionExecution, ActionStatus, DeliveryObservation, OutcomeVerification, RecoveryAction,
  VerificationStatus, carrier_parameters,
}
use promiseguard_ai.Examples.{order_at_risk, plain_codec, quiet, upgrade_option, upgrade_trace}
use promiseguard_ai.Persistence.Outcomes.{outcome_by_decision, record_outcome}
use promiseguard_ai.Autonomy.{find_profile, initial_profile, initial_switch, is_compensated}
use promiseguard_ai.Autonomy.History.{empty_db}
use promiseguard_ai.Sandbox.{
  SandboxState, action_postcondition_holds, dict_get, dict_set, hydrate_from_durable_action,
  record_delivery_outcome, redo, seed_order,
}
use promiseguard_ai.Execution.{World}
use promiseguard_ai.Verification.{
  OutcomeVerificationService, observe, outcome_of, persist, realised_margin,
  record_delivery_observation, verify,
}
use promiseguard_ai.Verification.Status.{verify_never_failed, verify_records}
use promiseguard_ai.Verification.Delivered.{verify_delivered}

abbrev service : OutcomeVerificationService
service = record { codec = plain_codec; governed = false }

abbrev governed : OutcomeVerificationService
governed = record { codec = plain_codec; governed = true }

abbrev upgrade : ActionExecution
upgrade = record {
  action_id = "act_1";
  command = record {
    decision_id = "dec_1";
    order_id = "ORD-1";
    action = RecoveryAction.carrier_upgrade;
    idempotency_key = "pg:dec_1";
    requested_by = "operations-analyst-ui";
    approved_by = none;
    expected_intervention_cost = 400;
    parameters = carrier_parameters "GROUND" "EXPRESS";
  };
  status = ActionStatus.succeeded;
  steps = [];
  started_at = 1000;
  completed_at = some 1010;
  error_code = none;
  manual_recovery_reason = none;
}

abbrev on_time : DeliveryObservation
on_time = record {
  order_id = "ORD-1";
  delivered_on_time = true;
  observed_at = 8000;
  source_reference = record { system = "carrier"; record_id = "POD-1"; observed_at = 8000 };
}

abbrev world : World
world = record {
  db = record empty_db {
    kill_switch = some (initial_switch 0);
    profiles = initial_profile RecoveryAction.carrier_upgrade 0 ∷ [];
  };
  sandbox = quiet;
}

fresh : outcome_by_decision "dec_1" world.db ≡ none
unfolding outcome_by_decision
fresh = refl

known : is_some (find_profile RecoveryAction.carrier_upgrade world.db) ≡ true
unfolding find_profile
known = refl

verify_delivered_example :
    (o : OutcomeVerification) × ((verify governed
        (upgrade_trace 400)
        upgrade
        order_at_risk
        (some on_time)
        8100
        8200
        world).0
      ≡ ok o)
    × (o.status ≡ VerificationStatus.verified)
    × (o.on_time_delivery_observed ≡ some true)
    × (o.realised_gross_margin ≡ realised_margin order_at_risk 400 (some true))
verify_delivered_example =
    verify_delivered governed (upgrade_trace 400) upgrade order_at_risk on_time 8100 8200 world refl
      refl fresh refl (inr known) refl refl

abbrev settled : SandboxState
settled = record quiet {
  order_locations = ("ORD-1", "LOC-A") ∷ [];
  carrier_services = ("ORD-1", "EXPRESS") ∷ [];
  delivery_outcomes = ("ORD-1", true) ∷ [];
}

abbrev outcome : OutcomeVerification
outcome =
    outcome_of plain_codec (upgrade_trace 400) upgrade order_at_risk (some on_time) 8100
      (upgrade_option 400) settled

abbrev run : Result OutcomeVerification × World
run = verify service (upgrade_trace 400) upgrade order_at_risk (some on_time) 8100 8200 world

runs : run.0 ≡ ok outcome
unfolding verify observe record_delivery_observation record_delivery_outcome
    hydrate_from_durable_action redo seed_order dict_set persist record_outcome outcome_of
runs = refl

verify_records_example :
    (outcome_by_decision "dec_1" run.1.db ≡ some outcome)
    × ((outcome.status ≡ VerificationStatus.verified) ↔ (
        (is_compensated ActionStatus.succeeded ≡ false)
        × (action_postcondition_holds order_at_risk RecoveryAction.carrier_upgrade run.1.sandbox
            ≡ true)
        × (is_some (dict_get "ORD-1" run.1.sandbox.delivery_outcomes) ≡ true)))
    × ((outcome.status ≡ VerificationStatus.failed) ↔ (
        (is_compensated ActionStatus.succeeded ≡ true)
        ⊎ (action_postcondition_holds order_at_risk RecoveryAction.carrier_upgrade run.1.sandbox
            ≡ false)))
verify_records_example =
    verify_records service (upgrade_trace 400) upgrade order_at_risk (some on_time) 8100 8200 world
      {o = outcome} {w' = run.1} fresh (λ j. (runs j, run.1))

verify_never_failed_example : outcome.status ≢ VerificationStatus.failed
verify_never_failed_example =
    verify_never_failed service (upgrade_trace 400) upgrade order_at_risk (some on_time) 8100 8200
      world {o = outcome} {w' = run.1} fresh refl refl (λ j. (runs j, run.1))
