-- ===== src/Database/Rows.antt =====
-- The rows and tables of src/promiseguard/db_models.py.
use promiseguard_ai.Prelude.{ℕ, Bool, Option, List}
use promiseguard_ai.Prelude.Text.{String}
use promiseguard_ai.Models.{
  EvaluationRequest, DecisionTrace, ApprovalRecord, ActionCommand, ActionStepResult, ActionStatus,
  RecoveryAction, OutcomeVerification, AutonomyLevel, OperatorFeedback,
}

pub record OperationalEventRow : Type 0 where
  pub source_system : String
  pub event_id : String
  pub event_version : ℕ
  pub payload : EvaluationRequest
  pub fingerprint : String
  pub created_at : ℕ

pub record DecisionRow : Type 0 where
  pub decision_id : String
  pub event_id : String
  pub order_id : String
  pub tenant_id : String
  pub trace : DecisionTrace
  pub fingerprint : String
  pub created_at : ℕ

pub record ActionRow : Type 0 where
  pub action_id : String
  pub decision_id : String
  pub order_id : String
  pub action : RecoveryAction
  pub idempotency_key : String
  pub status : ActionStatus
  pub command : ActionCommand
  pub steps : List ActionStepResult
  pub fingerprint : String
  pub started_at : ℕ
  pub completed_at : Option ℕ
  pub error_code : Option String
  pub manual_recovery_reason : Option String

pub record OutcomeRow : Type 0 where
  pub outcome : OutcomeVerification
  pub fingerprint : String

pub record RuntimeControlRow : Type 0 where
  pub enabled : Bool
  pub reason : String
  pub updated_by : String
  pub updated_at : ℕ
  pub version : ℕ

pub record AutonomyProfileRow : Type 0 where
  pub action : RecoveryAction
  pub level : AutonomyLevel
  pub verified_successes : ℕ
  pub consecutive_verified_successes : ℕ
  pub compensation_count : ℕ
  pub failure_count : ℕ
  pub reason : String
  pub last_evidence_at : Option ℕ
  pub updated_by : String
  pub updated_at : ℕ
  pub version : ℕ

pub record AutonomyEvidenceRow : Type 0 where
  pub evidence_id : String
  pub action : RecoveryAction
  pub evidence_kind : String
  pub successful : Bool
  pub compensated : Bool
  pub created_at : ℕ

-- `kill_switch` is the row of `runtime_controls` under the one key that the program uses.
pub record Db : Type 0 where
  pub events : List OperationalEventRow
  pub decisions : List DecisionRow
  pub approvals : List ApprovalRecord
  pub actions : List ActionRow
  pub outcomes : List OutcomeRow
  pub kill_switch : Option RuntimeControlRow
  pub profiles : List AutonomyProfileRow
  pub evidence : List AutonomyEvidenceRow
  pub feedback : List OperatorFeedback
