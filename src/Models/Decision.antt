-- ===== src/Models/Decision.antt =====
-- Risk, options, recommendations, policy results and decision traces (src/promiseguard/models.py).
use promiseguard_ai.Prelude.{ℕ, Bool, List}
use promiseguard_ai.Prelude.Int.{ℤ}
use promiseguard_ai.Prelude.Text.{String}
use promiseguard_ai.Models.Enums.{OperatingMode, RecoveryAction, PolicyDisposition, DecisionStatus}
use promiseguard_ai.Models.Order.{Float, SourceReference}

pub record RiskFactor : Type 0 where
  pub code : String
  pub contribution : Float
  pub explanation : String

pub record RiskAssessment : Type 0 where
  pub failure_probability : Float
  pub confidence : Float
  pub model_version : String
  pub feature_timestamp : ℕ
  pub factors : List RiskFactor
  pub data_quality_warnings : List String
  pub evidence_references : List SourceReference

pub record RecoveryOption : Type 0 where
  pub action : RecoveryAction
  pub feasible : Bool
  pub on_time_probability : Float
  pub expected_retained_gross_margin : ℤ
  pub intervention_cost : ℕ
  pub expected_failure_cost : ℕ
  pub expected_net_value : ℤ
  pub reversible : Bool
  pub confidence : Float
  pub constraints : List String
  pub evidence_references : List SourceReference

pub record DecisionRecommendation : Type 0 where
  pub selected_action : RecoveryAction
  pub ranked_options : List RecoveryOption
  pub expected_incremental_value_vs_no_action : ℤ
  pub rejected_options : List String
  pub confidence : Float

pub record PolicyEvaluation : Type 0 where
  pub disposition : PolicyDisposition
  pub policy_version : String
  pub control_version : String
  pub execution_allowed : Bool
  pub reasons : List String

pub record DecisionTrace : Type 0 where
  pub trace_version : String
  pub decision_id : String
  pub event_id : String
  pub order_id : String
  pub mode : OperatingMode
  pub risk : RiskAssessment
  pub recommendation : DecisionRecommendation
  pub policy : PolicyEvaluation
  pub status : DecisionStatus
  pub created_at : ℕ
  pub tenant_id : String
