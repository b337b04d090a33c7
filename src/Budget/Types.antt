-- ===== src/Budget/Types.antt =====
-- src/promiseguard/openai_models.py, and the rows `OpenAIBudgetRow` and `OpenAIRunRow` of db_models.py.
use promiseguard_ai.Prelude.{ℕ, Bool, ◌==◌, Option, List}
use promiseguard_ai.Prelude.Text.{String}
use promiseguard_ai.Models.{RecoveryAction, PolicyDisposition, Float}

pub data AgentRationaleCode : Type 0 where
  highest_expected_value reversible_action within_policy approval_required : AgentRationaleCode
  bounded_autonomy_allowed no_positive_value data_quality_warning : AgentRationaleCode
  low_confidence human_escalation policy_blocked kill_switch_active : AgentRationaleCode

pub data AgentNextStep : Type 0 where
  submit_decision wait_for_human escalate no_action : AgentNextStep

pub data AgentRunStatus : Type 0 where
  reserved completed rejected failed budget_blocked : AgentRunStatus

pub record AgentDecisionReview : Type 0 where
  pub decision_id : String
  pub selected_action : RecoveryAction
  pub policy_disposition : PolicyDisposition
  pub next_step : AgentNextStep
  pub rationale_codes : List AgentRationaleCode
  pub evidence_ids : List String
  pub requires_human_attention : Bool
  pub uncertainty : Float
  pub summary : String

pub record AgentTokenUsage : Type 0 where
  pub input_tokens : ℕ
  pub cached_input_tokens : ℕ
  pub output_tokens : ℕ
  pub total_tokens : ℕ

pub record AgentBudgetState : Type 0 where
  pub limit_usd : ℕ
  pub reserved_usd : ℕ
  pub spent_usd : ℕ
  pub remaining_usd : ℕ
  pub updated_at : ℕ
  pub version : ℕ

pub record OpenAiBudgetRow : Type 0 where
  pub limit_usd : ℕ
  pub reserved_usd : ℕ
  pub spent_usd : ℕ
  pub updated_at : ℕ
  pub version : ℕ

-- The four token columns are set together and are `usage`.
pub record OpenAiRunRow : Type 0 where
  pub run_id : String
  pub request_key : String
  pub decision_id : String
  pub model : String
  pub prompt_version : String
  pub status : AgentRunStatus
  pub context_fingerprint : String
  pub reserved_cost_usd : ℕ
  pub actual_cost_usd : ℕ
  pub usage : Option AgentTokenUsage
  pub response_id : Option String
  pub review : Option AgentDecisionReview
  pub created_at : ℕ
  pub completed_at : Option ℕ
  pub reservation_expires_at : ℕ
  pub error_code : Option String
  pub validation_errors : List String

-- The tables `openai_budgets`, with its one key, and `openai_runs`.
pub record BudgetDb : Type 0 where
  pub budget : Option OpenAiBudgetRow
  pub runs : List OpenAiRunRow

pub record OpenAiBudgetManager : Type 0 where
  pub limit_usd : ℕ
  pub per_run_limit_usd : ℕ
  pub reservation_ttl : ℕ

-- The arguments of `reserve`.
pub record ReserveRequest : Type 0 where
  pub decision_id : String
  pub model : String
  pub prompt_version : String
  pub context_fingerprint : String
  pub estimated_cost_usd : ℕ

-- The arguments of `_finalise` that it writes.
pub record FinalState : Type 0 where
  pub status : AgentRunStatus
  pub usage : Option AgentTokenUsage
  pub response_id : Option String
  pub review : Option AgentDecisionReview
  pub error_code : Option String
  pub validation_errors : List String

abbrev pub run_status_tag : AgentRunStatus → ℕ
run_status_tag AgentRunStatus.reserved = 0
run_status_tag AgentRunStatus.completed = 1
run_status_tag AgentRunStatus.rejected = 2
run_status_tag AgentRunStatus.failed = 3
run_status_tag AgentRunStatus.budget_blocked = 4

abbrev pub is_reserved : OpenAiRunRow → Bool
is_reserved r = run_status_tag r.status == 0

abbrev pub is_completed : OpenAiRunRow → Bool
is_completed r = run_status_tag r.status == 1
