-- ===== src/Workflow.antt =====
-- src/promiseguard/workflow.py: the service that takes a recorded decision through approval, execution
-- and verification. Its state is the gateway's: the database and the adapter's systems of record. An
-- event's payload is a request that was validated when it was stored.
mod Frame
mod Kept
mod Controls
pub mod Authority
mod Sound
mod Review
pub mod Approve
pub mod Delivers
pub mod Reach
mod Tests
use promiseguard_ai.Prelude.{
  ℕ, Bool, true, false, not, Option, none, some, List, [], ◌∷◌, ltb, if◌then◌else◌,
}
use promiseguard_ai.Prelude.Text.{String, concat, join}
use promiseguard_ai.Prelude.Exec.{
  Exec, ◌>>=◌, ◌>>◌, pure, raise, gets, raise_if, or_raise, approval_error, record_not_found_error,
  stop_iteration, workflow_error,
}
use promiseguard_ai.Models.{
  ActionCommand, ActionExecution, ActionParameters, ApprovalDecisionInput, ApprovalRecord,
  ApprovalStatus, DecisionTrace, DeliveryObservation, EvaluationRequest, OrderContext,
  PolicyDisposition, RecoveryAction, UserRole, WorkflowState, action_value, carrier_parameters,
  is_action, is_approval_status, is_role, reroute_parameters, split_parameters,
}
use promiseguard_ai.Codec.{Codec, hashed_id}
use promiseguard_ai.Persistence.{action_by_decision, get_decision, get_request_payload}
use promiseguard_ai.Persistence.Approvals.{approval_by_decision, get_approval}
use promiseguard_ai.Persistence.Outcomes.{outcome_by_decision}
use promiseguard_ai.Approval.{ApprovalService, request_approval, approve}
use promiseguard_ai.Approval as Approval
use promiseguard_ai.Execution.{ActionGateway, World, execute, on_db}
use promiseguard_ai.Verification.{OutcomeVerificationService, option_of}
use promiseguard_ai.Verification as Verification

-- `RecoveryWorkflowService`
pub record RecoveryWorkflowService : Type 0 where
  pub codec : Codec
  pub approvals : ApprovalService
  pub actions : ActionGateway
  pub verification : OutcomeVerificationService

-- `_decision`
unfoldable pub decision_of : String → Exec World DecisionTrace
decision_of decision_id = do
  found ← on_db (gets (get_decision decision_id))
  or_raise found record_not_found_error (concat ("decision '" ∷ decision_id ∷ "' not found" ∷ []))

-- `_request`
unfoldable pub request_of : String → Exec World EvaluationRequest
request_of event_id = do
  found ← on_db (gets (get_request_payload event_id))
  or_raise found record_not_found_error (concat ("event '" ∷ event_id ∷ "' not found" ∷ []))

-- 20.00 in cents
abbrev pub analyst_cost_limit : ℕ
analyst_cost_limit = 2000

-- `_assert_approval_authority`
unfoldable pub assert_approval_authority :
    ApprovalDecisionInput → DecisionTrace → EvaluationRequest → Exec World (Unit {0})
assert_approval_authority input decision request =
    if not (is_role input.actor_role UserRole.operations_analyst) then pure tt else (do
      selected ←
          or_raise (option_of decision.recommendation.selected_action decision) stop_iteration ""
      raise_if request.order.restricted_product approval_error
          "restricted products require operations-manager approval"
      raise_if (ltb analyst_cost_limit selected.intervention_cost) approval_error
          "intervention exceeds the operations-analyst delegated cost limit")

-- The parameters of an executable action.
abbrev pub parameters_of : RecoveryAction → OrderContext → Option ActionParameters
parameters_of RecoveryAction.reroute order = some (
    reroute_parameters order.current_fulfilment_location order.alternative_location_id order.sku
      order.quantity)
parameters_of RecoveryAction.carrier_upgrade order =
    some (carrier_parameters order.current_carrier_service order.upgraded_carrier_service)
parameters_of RecoveryAction.split_shipment order = some (split_parameters true order.quantity)
parameters_of _ order = none

unfoldable pub idempotency_key_of : Codec → DecisionTrace → String
idempotency_key_of c decision =
    hashed_id c "pg:"
      (join "|" (
        decision.decision_id
        ∷ action_value decision.recommendation.selected_action
        ∷ decision.policy.policy_version
        ∷ []))
      32

abbrev pub command_of :
    Codec
    → DecisionTrace
    → EvaluationRequest
    → String
    → Option String
    → ℕ
    → ActionParameters
    → ActionCommand
command_of c decision request actor_id approved_by cost parameters = record {
  decision_id = decision.decision_id;
  order_id = request.order.order_id;
  action = decision.recommendation.selected_action;
  idempotency_key = idempotency_key_of c decision;
  requested_by = actor_id;
  approved_by = approved_by;
  expected_intervention_cost = cost;
  parameters = parameters;
}

-- `_command_for_decision`
unfoldable pub command_for_decision :
    Codec → String → EvaluationRequest → String → Option String → Exec World ActionCommand
command_for_decision c decision_id request actor_id approved_by = do
  decision ← decision_of decision_id
  let action = decision.recommendation.selected_action
  selected ← or_raise (option_of action decision) stop_iteration ""
  parameters ←
      or_raise (parameters_of action request.order) workflow_error
        (concat ("action " ∷ action_value action ∷ " is not executable" ∷ []))
  pure (command_of c decision request actor_id approved_by selected.intervention_cost parameters)

abbrev pub only_decision : DecisionTrace → WorkflowState
only_decision decision = record {
  decision = decision;
  approval = none;
  execution = none;
  outcome = none;
}

module _ (r : RecoveryWorkflowService) where
  -- The command of a decision, executed on the order of its event.
  unfoldable pub execute_decision :
      String → EvaluationRequest → String → Option String → ℕ → (ℕ → ℕ) → Exec World ActionExecution
  execute_decision decision_id request actor_id approved_by now clock = do
    command ← command_for_decision r.codec decision_id request actor_id approved_by
    execute r.actions command request.order now clock

  -- `submit`, by the disposition of the decision
  unfoldable pub submit_decision :
      PolicyDisposition → DecisionTrace → String → String → ℕ → (ℕ → ℕ) → Exec World WorkflowState
  submit_decision PolicyDisposition.auto_execute decision decision_id actor_id now clock = do
    request ← request_of decision.event_id
    execution ← execute_decision decision_id request actor_id none now clock
    pure (record (only_decision decision) { execution = some execution })
  submit_decision PolicyDisposition.request_approval decision decision_id actor_id now clock = do
    approval ← on_db (request_approval r.approvals decision actor_id now)
    pure (record (only_decision decision) { approval = some approval })
  submit_decision PolicyDisposition.escalate decision decision_id actor_id now clock =
      pure (only_decision decision)
  submit_decision PolicyDisposition.block decision decision_id actor_id now clock =
      pure (only_decision decision)
  submit_decision PolicyDisposition.take_no_action decision decision_id actor_id now clock =
      pure (only_decision decision)

  -- `submit`
  unfoldable pub submit : String → String → ℕ → (ℕ → ℕ) → Exec World WorkflowState
  submit decision_id actor_id now clock = do
    decision ← decision_of decision_id
    submit_decision decision.policy.disposition decision decision_id actor_id now clock

  -- `approve_and_execute`, up to the approval: what it needs to know
  unfoldable pub review :
      String → ApprovalDecisionInput → Exec World (DecisionTrace × EvaluationRequest)
  review approval_id input = do
    found ← on_db (gets (get_approval approval_id))
    pending ←
        or_raise found record_not_found_error
          (concat ("approval '" ∷ approval_id ∷ "' not found" ∷ []))
    decision ← decision_of pending.decision_id
    raise_if (not (is_action pending.requested_action decision.recommendation.selected_action))
        workflow_error "approval action no longer matches the immutable decision"
    request ← request_of decision.event_id
    assert_approval_authority input decision request
    pure (decision, request)

  -- `approve_and_execute`
  unfoldable pub approve_and_execute :
      String → ApprovalDecisionInput → ℕ → (ℕ → ℕ) → Exec World WorkflowState
  approve_and_execute approval_id input now clock = do
    (decision, request) ← review approval_id input
    approval ← on_db (approve r.approvals approval_id input now)
    raise_if (not (is_approval_status approval.status ApprovalStatus.approved)) workflow_error
        "approval did not reach APPROVED state"
    execution ←
        execute_decision decision.decision_id request approval.requested_by approval.decided_by now
          clock
    pure (record (only_decision decision) { approval = some approval; execution = some execution })

  -- `reject`
  unfoldable pub reject : String → ApprovalDecisionInput → ℕ → Exec World WorkflowState
  reject approval_id input now = do
    approval ← on_db (Approval.reject r.approvals approval_id input now)
    decision ← decision_of approval.decision_id
    pure (record (only_decision decision) { approval = some approval })

  -- `verify`
  unfoldable pub verify : String → Option DeliveryObservation → ℕ → ℕ → Exec World WorkflowState
  verify decision_id observation verified_at now = do
    decision ← decision_of decision_id
    found ← on_db (gets (action_by_decision decision_id))
    execution ← or_raise found record_not_found_error "decision has no executed action"
    request ← request_of decision.event_id
    outcome ←
        Verification.verify r.verification decision execution request.order observation verified_at
          now
    pure (record (only_decision decision) { execution = some execution; outcome = some outcome })

  -- `get_state`
  unfoldable pub get_state : String → Exec World WorkflowState
  get_state decision_id = do
    decision ← decision_of decision_id
    execution ← on_db (gets (action_by_decision decision_id))
    outcome ← on_db (gets (outcome_by_decision decision_id))
    approval ← on_db (gets (approval_by_decision decision_id))
    pure (record {
      decision = decision;
      approval = approval;
      execution = execution;
      outcome = outcome;
    })
