-- ===== src/Workflow/Tests.antt =====
-- A carrier upgrade of src/promiseguard/workflow.py that is requested, approved and executed, one that
-- is too dear for an analyst, and a history of calls.
use promiseguard_ai.Prelude.{
  ℕ, ◌≡◌, ◌≢◌, ◌≤◌, ◌⊎◌, refl, true, false, none, some, [], ◌∷◌, is_some, arith, inr,
}
use promiseguard_ai.Prelude.Text.{String, eq_iff, concat, join, prefix}
use promiseguard_ai.Prelude.Exec.{Result, ok, err, ErrorKind}
use promiseguard_ai.Models.{
  ActionCommand, action_value, ActionExecution, ApprovalDecisionInput, ApprovalRecord,
  ApprovalStatus, EvaluationRequest, RecoveryAction, UserRole, WorkflowState, carrier_parameters,
  is_role,
}
use promiseguard_ai.Examples.{
  quiet, upgrade_option, upgrade_trace, order_at_risk, plain_codec, request_at_risk,
}
use promiseguard_ai.Codec.{hashed_id}
use promiseguard_ai.Database.{Db, session}
use promiseguard_ai.Identity.{bind_claimed_role, registered_role, assert_separation_of_duties}
use promiseguard_ai.Persistence.{
  action_by_decision, decision_row, event_row, get_decision, get_request_payload, ingest,
  record_action, update_action,
}
use promiseguard_ai.Persistence.Approvals.{get_approval, is_pending, update_if_pending}
use promiseguard_ai.Ledger.{sql_record}
use promiseguard_ai.Approval.{
  approval_id_of, approve, decide, decide_block, decided_record, may_not_decide,
}
use promiseguard_ai.Autonomy.{
  initial_profile, initial_switch, kill_switch, record_execution, profile, find_profile,
}
use promiseguard_ai.Autonomy.History.{after_call, bootstrap_call, empty_db}
use promiseguard_ai.Sandbox.{
  seed_order, upgrade_carrier, operation, before, claim_key, after, dict_set,
}
use promiseguard_ai.Execution.{
  succeeded_with, success_step, executing_of, execute, claim_action, run_action, execute_steps,
  carrier_upgrade, single_step, or_verified, conclude, World, check_kill_switch,
}
use promiseguard_ai.Workflow.Authority.{IsSound}
use promiseguard_ai.Workflow.Reach.{
  Reach, start, next, ingest_step, control_step, record_step, submit_step, approve_step,
  every_action_IsAuthorised,
}
use promiseguard_ai.Workflow.Review.{IsDelegated}
use promiseguard_ai.Workflow.Approve.{analyst_refused, approve_and_execute_checks}
use promiseguard_ai.Workflow.Delivers.{HasEnded, IsNew, approve_and_execute_delivers}
use promiseguard_ai.Workflow.{
  RecoveryWorkflowService, approve_and_execute, command_of, review, decision_of, request_of,
  assert_approval_authority, execute_decision, command_for_decision, idempotency_key_of, submit,
}

abbrev service : RecoveryWorkflowService
service = record {
  codec = plain_codec;
  approvals = record { codec = plain_codec; ttl = 100; strict = true };
  actions = record { codec = plain_codec; governed = true };
  verification = record { codec = plain_codec; governed = true };
}

abbrev open_approval : ApprovalRecord
open_approval = record {
  approval_id = "apr_1";
  decision_id = "dec_1";
  requested_action = RecoveryAction.carrier_upgrade;
  status = ApprovalStatus.pending;
  requested_by = "operations-analyst-ui";
  requested_at = 1000;
  expires_at = 1100;
  decided_by = none;
  decided_by_role = none;
  decision_reason = none;
  decided_at = none;
}

abbrev manager_input : ApprovalDecisionInput
manager_input = record {
  actor_id = "operations-manager-ui";
  actor_role = UserRole.operations_manager;
  reason = "cheap";
}

abbrev analyst_input : ApprovalDecisionInput
analyst_input = record {
  actor_id = "other-analyst";
  actor_role = UserRole.operations_analyst;
  reason = "dear";
}

-- The database with a decision at a price, its event, its approval and the controls.
abbrev world_at : ℕ → World
world_at cost = record {
  db = record empty_db {
    events = event_row plain_codec 950 request_at_risk ∷ [];
    decisions = decision_row plain_codec (upgrade_trace cost) ∷ [];
    approvals = open_approval ∷ [];
    kill_switch = some (initial_switch 0);
    profiles = initial_profile RecoveryAction.carrier_upgrade 0 ∷ [];
  };
  sandbox = quiet;
}

abbrev clock : ℕ → ℕ
clock n = 1060

found : (cost : ℕ) → get_approval "apr_1" (world_at cost).db ≡ some open_approval
unfolding get_approval
found cost = refl

filed : (cost : ℕ) → get_decision "dec_1" (world_at cost).db ≡ some (upgrade_trace cost)
unfolding get_decision
filed cost = refl

known : (cost : ℕ) → get_request_payload "EV-1" (world_at cost).db ≡ some request_at_risk
unfolding get_request_payload
known cost = refl

bound :
    bind_claimed_role true "operations-manager-ui" UserRole.operations_manager
    ≡ ok UserRole.operations_manager
unfolding bind_claimed_role registered_role
bound = refl

others : open_approval.requested_by ≢ manager_input.actor_id
others e =
    let same : false ≡ true = (eq_iff open_approval.requested_by manager_input.actor_id).1 e in cc

new :
    IsNew service.actions
      (command_of plain_codec
        (upgrade_trace 400)
        request_at_risk
        "operations-analyst-ui"
        (some "operations-manager-ui")
        400
        (carrier_parameters "GROUND" "EXPRESS"))
      1050
      (world_at 400).db
unfolding check_kill_switch kill_switch action_by_decision
new = record { alive = refl; no_decision = refl; no_key = refl; no_id = refl }

abbrev decided : ApprovalRecord
decided = decided_record ApprovalStatus.approved manager_input 1050 open_approval

abbrev run : Result WorkflowState × World
run = approve_and_execute service "apr_1" manager_input 1050 clock (world_at 400)

approve_and_execute_delivers_example :
    (get_approval "apr_1" run.1.db ≡ some decided)
    × ((x : ActionExecution) × (action_by_decision "dec_1" run.1.db ≡ some x)
        × (x.command.action ≡ RecoveryAction.carrier_upgrade)
        × (x.command.approved_by ≡ some "operations-manager-ui")
        × HasEnded x)
approve_and_execute_delivers_example =
    approve_and_execute_delivers service "apr_1" manager_input 1050 clock (world_at 400) (found 400)
      refl (filed 400) refl refl (known 400) refl refl refl refl bound others (omega arith) new

analyst_refused_example :
    (k : ErrorKind) × (t : String) × (approve_and_execute service "apr_1" analyst_input 1050 clock
        (world_at 2500)
      ≡ (err k t, world_at 2500))
analyst_refused_example =
    analyst_refused service "apr_1" analyst_input 1050 clock (world_at 2500) (found 2500)
      (filed 2500) (known 2500) refl (inr (upgrade_option 2500, refl, omega arith))

-- A history: the controls start, an event and its decision are stored, the decision is submitted
-- and its approval given.
abbrev world_0 : World
world_0 = record { db = empty_db; sandbox = quiet }

abbrev world_1 : World
world_1 = record world_0 { db = after_call true (bootstrap_call 0) world_0.db }

abbrev world_2 : World
world_2 = record world_1 { db = (session (ingest plain_codec 950 request_at_risk) world_1.db).1 }

abbrev world_3 : World
world_3 = record world_2 { db = (sql_record plain_codec (upgrade_trace 400) world_2.db).1 }

abbrev world_4 : World
world_4 = (submit service "dec_1" "operations-analyst-ui" 1000 clock world_3).1

abbrev world_5 : World
world_5 =
    (approve_and_execute service (approval_id_of plain_codec (upgrade_trace 400)) manager_input 1050
      clock world_4).1

reached : Reach service world_5
reached =
    next
      (next
        (next
          (next
            (next (start {w = world_0} refl)
              (control_step {w' = world_1} true (bootstrap_call 0) refl))
            (ingest_step {w' = world_2} 950 request_at_risk refl))
          (record_step {w' = world_3} (upgrade_trace 400) refl))
        (submit_step {w' = world_4} "dec_1" "operations-analyst-ui" 1000 clock refl))
      (approve_step {w' = world_5} (approval_id_of plain_codec (upgrade_trace 400)) manager_input
        1050 clock refl)

every_action_IsAuthorised_example : IsSound world_5.db
every_action_IsAuthorised_example = every_action_IsAuthorised service reached

abbrev upgraded : ActionExecution
upgraded =
    succeeded_with
      (executing_of service.actions
        (command_of plain_codec (upgrade_trace 400) request_at_risk "operations-analyst-ui"
          (some "operations-manager-ui") 400 (carrier_parameters "GROUND" "EXPRESS"))
        1050)
      (success_step 1 "upgrade_carrier" 1050 1060 "carrier-service:ORD-1:EXPRESS" ∷ []) 1060

abbrev done : WorkflowState
done = record {
  decision = upgrade_trace 400;
  approval = some decided;
  execution = some upgraded;
  outcome = none;
}

reviewed :
    review service "apr_1" manager_input (world_at 400)
    ≡ (ok (upgrade_trace 400, request_at_risk), world_at 400)
unfolding review decision_of request_of assert_approval_authority get_approval get_decision
    get_request_payload
reviewed = refl

abbrev approved_db : Db
approved_db = record (world_at 400).db { approvals = decided ∷ [] }

approves :
    approve service.approvals "apr_1" manager_input 1050 (world_at 400).db
    ≡ (ok decided, approved_db)
unfolding approve decide decide_block bind_claimed_role registered_role assert_separation_of_duties
    update_if_pending get_approval
approves = refl

abbrev upgrade_command : ActionCommand
upgrade_command =
    command_of plain_codec (upgrade_trace 400) request_at_risk "operations-analyst-ui"
      (some "operations-manager-ui") 400 (carrier_parameters "GROUND" "EXPRESS")

abbrev approved_world : World
approved_world = record { db = approved_db; sandbox = quiet }

executed :
    (execute service.actions upgrade_command order_at_risk 1050 clock approved_world).0
    ≡ ok upgraded
unfolding execute check_kill_switch kill_switch claim_action action_by_decision record_action
    run_action execute_steps carrier_upgrade single_step or_verified upgrade_carrier operation
    before claim_key after dict_set concat seed_order conclude update_action record_execution
    profile find_profile hashed_id idempotency_key_of join prefix action_value
executed = refl

issued :
    execute_decision service "dec_1" request_at_risk "operations-analyst-ui"
      (some "operations-manager-ui")
      1050
      clock
      approved_world
    ≡ execute service.actions upgrade_command order_at_risk 1050 clock approved_world
unfolding execute_decision command_for_decision decision_of get_decision
issued = refl

runs : run.0 ≡ ok done
unfolding approve_and_execute
runs = ground (arith, reviewed, approves, issued, executed)

approve_and_execute_checks_example :
    (pending : ApprovalRecord) × (request : EvaluationRequest) × (get_approval "apr_1"
        (world_at 400).db
      ≡ some pending)
    × (is_pending pending ≡ true)
    × (get_decision pending.decision_id (world_at 400).db ≡ some (upgrade_trace 400))
    × (pending.requested_action ≡ RecoveryAction.carrier_upgrade)
    × (get_request_payload "EV-1" (world_at 400).db ≡ some request)
    × (may_not_decide UserRole.operations_manager ≡ false)
    × ((is_role UserRole.operations_manager UserRole.operations_analyst ≡ false)
        ⊎ IsDelegated (upgrade_trace 400) request)
    × (pending.requested_by ≢ manager_input.actor_id)
    × (1050 ≤ pending.expires_at)
    × (some decided ≡ some (decided_record ApprovalStatus.approved manager_input 1050 pending))
    × (is_some (some upgraded) ≡ true)
approve_and_execute_checks_example =
    approve_and_execute_checks service "apr_1" manager_input 1050 clock (world_at 400)
      {state = done} {w' = run.1} (λ j. (runs j, run.1))
