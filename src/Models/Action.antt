-- ===== src/Models/Action.antt =====
-- Approvals, action commands, executions and outcomes (src/promiseguard/models.py).
use promiseguard_ai.Prelude.{ℕ, Bool, Option, List}
use promiseguard_ai.Prelude.Int.{ℤ}
use promiseguard_ai.Prelude.Text.{String}
use promiseguard_ai.Models.Enums.{
  RecoveryAction, ApprovalStatus, ActionStatus, StepStatus, VerificationStatus, UserRole,
}
use promiseguard_ai.Models.Order.{SourceReference, Float}

pub record ApprovalRecord : Type 0 where
  pub approval_id : String
  pub decision_id : String
  pub requested_action : RecoveryAction
  pub status : ApprovalStatus
  pub requested_by : String
  pub requested_at : ℕ
  pub expires_at : ℕ
  pub decided_by : Option String
  pub decided_by_role : Option UserRole
  pub decision_reason : Option String
  pub decided_at : Option ℕ

pub record ApprovalDecisionInput : Type 0 where
  pub actor_id : String
  pub actor_role : UserRole
  pub reason : String

-- The dictionaries that the workflow writes into `ActionCommand.parameters`.
pub data ActionParameters : Type 0 where
  reroute_parameters : String → Option String → String → ℕ → ActionParameters
  carrier_parameters : String → String → ActionParameters
  split_parameters : Bool → ℕ → ActionParameters

pub record ActionCommand : Type 0 where
  pub decision_id : String
  pub order_id : String
  pub action : RecoveryAction
  pub idempotency_key : String
  pub requested_by : String
  pub approved_by : Option String
  pub expected_intervention_cost : ℕ
  pub parameters : ActionParameters

pub record ActionStepResult : Type 0 where
  pub sequence : ℕ
  pub step_name : String
  pub status : StepStatus
  pub attempted_at : ℕ
  pub completed_at : Option ℕ
  pub provider_reference : Option String
  pub release_reference : Option String
  pub error_code : Option String

pub record ActionExecution : Type 0 where
  pub action_id : String
  pub command : ActionCommand
  pub status : ActionStatus
  pub steps : List ActionStepResult
  pub started_at : ℕ
  pub completed_at : Option ℕ
  pub error_code : Option String
  pub manual_recovery_reason : Option String

pub record DeliveryObservation : Type 0 where
  pub order_id : String
  pub delivered_on_time : Bool
  pub observed_at : ℕ
  pub source_reference : SourceReference

pub record OutcomeVerification : Type 0 where
  pub outcome_id : String
  pub decision_id : String
  pub action_id : String
  pub status : VerificationStatus
  pub verified_at : ℕ
  pub on_time_delivery_observed : Option Bool
  pub actual_intervention_cost : ℕ
  pub realised_gross_margin : ℤ
  pub estimated_incremental_value : ℤ
  pub evidence_references : List SourceReference
  pub action_postcondition_holds : Bool
  pub expected_on_time_probability : Float
  pub execution_status : ActionStatus
