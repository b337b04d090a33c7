-- ===== src/Execution/Tests.antt =====
-- A carrier upgrade of src/promiseguard/execution.py that times out and is verified, and an
-- execution that exists.
use promiseguard_ai.Prelude.{ℕ, ◌≡◌, ◌⊎◌, refl, Bool, true, false, none, some, [], ◌∷◌}
use promiseguard_ai.Prelude.Text.{concat}
use promiseguard_ai.Prelude.Exec.{Result, ok}
use promiseguard_ai.Models.{
  ActionCommand, ActionExecution, ActionStatus, RecoveryAction, carrier_parameters,
}
use promiseguard_ai.Examples.{order_at_risk, plain_codec}
use promiseguard_ai.Database.{Db}
use promiseguard_ai.Persistence.{action_by_decision, action_row}
use promiseguard_ai.Autonomy.{kill_switch}
use promiseguard_ai.Autonomy.History.{empty_db}
use promiseguard_ai.Sandbox.{
  SandboxState, action_postcondition_holds, upgrade_carrier, operation, before, claim_key, after,
  dict_set,
}
use promiseguard_ai.Execution.{
  ActionGateway, World, execute, executing_of, check_kill_switch, execute_steps, carrier_upgrade,
  single_step, or_verified, success_step, succeeded_with,
}
use promiseguard_ai.Execution.Outcome.{is_restored, execute_steps_outcome}
use promiseguard_ai.Execution.Once.{HasRefused, IsAlive, execute_guarded}
use promiseguard_ai.Execution.Record.{concluded}
use promiseguard_ai.Execution.Fresh.{execute_again, execute_ends}

abbrev upgrade_command : ActionCommand
upgrade_command = record {
  decision_id = "dec_1";
  order_id = "ORD-1";
  action = RecoveryAction.carrier_upgrade;
  idempotency_key = "dec_1:act";
  requested_by = "operations-analyst-ui";
  approved_by = none;
  expected_intervention_cost = 400;
  parameters = carrier_parameters "GROUND" "EXPRESS";
}

abbrev upgrade : ActionExecution
upgrade = record {
  action_id = "act_1";
  command = upgrade_command;
  status = ActionStatus.executing;
  steps = [];
  started_at = 1000;
  completed_at = none;
  error_code = none;
  manual_recovery_reason = none;
}

abbrev timing_out : SandboxState
timing_out = record {
  order_locations = ("ORD-1", "LOC-A") ∷ [];
  carrier_services = ("ORD-1", "GROUND") ∷ [];
  split_shipments = [];
  alternative_reservations = [];
  delivery_outcomes = [];
  applied_idempotency_keys = [];
  failure_modes = ("upgrade_carrier", "after") ∷ [];
}

abbrev upgraded : SandboxState
upgraded = record timing_out {
  carrier_services = ("ORD-1", "EXPRESS") ∷ [];
  applied_idempotency_keys = ("dec_1:act:carrier", "carrier:ORD-1:EXPRESS") ∷ [];
}

abbrev clock : ℕ → ℕ
clock n = 1010

abbrev finished : ActionExecution
finished =
    succeeded_with upgrade
      (success_step 1 "upgrade_carrier" 1000 1010 "verified-after-timeout:ORD-1" ∷ []) 1010

steps_run : execute_steps upgrade order_at_risk 1000 clock timing_out ≡ (ok finished, upgraded)
unfolding execute_steps carrier_upgrade single_step or_verified upgrade_carrier operation before
    claim_key after action_postcondition_holds dict_set concat
steps_run = refl

execute_steps_outcome_example :
    ((finished.status ≡ ActionStatus.succeeded)
      × (action_postcondition_holds order_at_risk RecoveryAction.carrier_upgrade upgraded ≡ true))
    ⊎ ((finished.status ≡ ActionStatus.compensated)
        × (is_restored order_at_risk RecoveryAction.carrier_upgrade upgraded ≡ true))
execute_steps_outcome_example =
    execute_steps_outcome upgrade order_at_risk 1000 clock timing_out upgraded steps_run

abbrev governed : ActionGateway
governed = record { codec = plain_codec; governed = true }

abbrev db_with : Bool → Db
db_with active = record empty_db {
  kill_switch = some (record {
    enabled = active;
    reason = "test";
    updated_by = "operations-manager-ui";
    updated_at = 0;
    version = 2;
  });
  actions = action_row plain_codec finished ∷ [];
}

abbrev world_with : Bool → World
world_with active = record { db = db_with active; sandbox = upgraded }

execute_guarded_example :
    ((execute governed upgrade_command order_at_risk 2000 clock (world_with true)).1
        ≡ world_with true
      × HasRefused upgrade_command
          (db_with true)
          (execute governed upgrade_command order_at_risk 2000 clock (world_with true)).0)
    ⊎ (IsAlive governed (db_with true) × (action_by_decision "dec_1" (db_with true) ≡ none))
execute_guarded_example =
    execute_guarded governed upgrade_command order_at_risk 2000 clock (world_with true)

abbrev without_actions : World
without_actions = record { db = record (db_with false) { actions = [] }; sandbox = timing_out }

alive : (check_kill_switch governed without_actions.db).0 ≡ ok tt
unfolding check_kill_switch kill_switch
alive = refl

no_decision : action_by_decision "dec_1" without_actions.db ≡ none
unfolding action_by_decision
no_decision = refl

abbrev first_run : Result ActionExecution × World
first_run = execute governed upgrade_command order_at_risk 1000 clock without_actions

execute_ends_example :
    (x : ActionExecution) × (action_by_decision "dec_1" first_run.1.db ≡ some x)
    × (x.command ≡ upgrade_command)
    × ((x.status ≡ ActionStatus.succeeded)
        ⊎ (x.status ≡ ActionStatus.compensated)
        ⊎ (x.status ≡ ActionStatus.failed))
execute_ends_example =
    execute_ends governed upgrade_command order_at_risk 1000 clock without_actions alive no_decision
      refl refl

execute_again_example : execute governed upgrade_command order_at_risk 2000 clock first_run.1 ≡ (
  ok (
      concluded governed order_at_risk 1000 clock without_actions
        (executing_of governed upgrade_command 1000)),
  first_run.1,
)
execute_again_example =
    execute_again governed upgrade_command order_at_risk 1000 clock without_actions alive
      no_decision refl refl order_at_risk 2000 clock
