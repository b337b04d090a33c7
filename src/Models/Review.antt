-- ===== src/Models/Review.antt =====
-- Workflow states and the feedback of operators (src/promiseguard/models.py).
use promiseguard_ai.Prelude.{ℕ, Bool, Option}
use promiseguard_ai.Prelude.Text.{String}
use promiseguard_ai.Models.Enums.{UserRole}
use promiseguard_ai.Models.Decision.{DecisionTrace}
use promiseguard_ai.Models.Action.{ApprovalRecord, ActionExecution, OutcomeVerification}

pub record WorkflowState : Type 0 where
  pub decision : DecisionTrace
  pub approval : Option ApprovalRecord
  pub execution : Option ActionExecution
  pub outcome : Option OutcomeVerification

pub record OperatorFeedbackInput : Type 0 where
  pub actor_id : String
  pub actor_role : UserRole
  pub useful : Bool
  pub expected_outcome_matched : Option Bool
  pub comment : String

pub record OperatorFeedback : Type 0 where
  pub feedback_id : String
  pub decision_id : String
  pub actor_id : String
  pub actor_role : UserRole
  pub useful : Bool
  pub expected_outcome_matched : Option Bool
  pub comment : String
  pub created_at : ℕ
