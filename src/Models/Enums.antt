-- ===== src/Models/Enums.antt =====
-- The enumerations of src/promiseguard/models.py, and the tests `a is b` on those that are compared.
use promiseguard_ai.Prelude.{ℕ, Bool, ◌==◌}
use promiseguard_ai.Prelude.Text.{String}

pub data OperatingMode : Type 0 where
  observe shadow recommendation approval bounded_autonomy : OperatingMode

pub data RecoveryAction : Type 0 where
  take_no_action reroute carrier_upgrade split_shipment human_escalation : RecoveryAction

pub data PolicyDisposition : Type 0 where
  auto_execute request_approval escalate block take_no_action : PolicyDisposition

pub data DecisionStatus : Type 0 where
  observed shadow_recorded recommended awaiting_approval : DecisionStatus
  ready_for_execution execution_not_implemented : DecisionStatus

pub data ApprovalStatus : Type 0 where
  pending approved rejected expired : ApprovalStatus

pub data ActionStatus : Type 0 where
  pending executing succeeded verified compensated failed : ActionStatus
  manual_recovery_required : ActionStatus

pub data StepStatus : Type 0 where
  succeeded failed compensated skipped : StepStatus

pub data VerificationStatus : Type 0 where
  verified failed manual_review_required : VerificationStatus

pub data UserRole : Type 0 where
  operations_analyst operations_manager auditor service_identity : UserRole

pub data AutonomyLevel : Type 0 where
  observe recommend approval_required bounded_autonomy suspended : AutonomyLevel

-- `role.value`
pub role_value : UserRole → String
role_value UserRole.operations_analyst = "OPERATIONS_ANALYST"
role_value UserRole.operations_manager = "OPERATIONS_MANAGER"
role_value UserRole.auditor = "AUDITOR"
role_value UserRole.service_identity = "SERVICE_IDENTITY"

-- `mode.value`
pub mode_value : OperatingMode → String
mode_value OperatingMode.observe = "OBSERVE"
mode_value OperatingMode.shadow = "SHADOW"
mode_value OperatingMode.recommendation = "RECOMMENDATION"
mode_value OperatingMode.approval = "APPROVAL"
mode_value OperatingMode.bounded_autonomy = "BOUNDED_AUTONOMY"

-- `action.value`
unfoldable pub action_value : RecoveryAction → String
action_value RecoveryAction.take_no_action = "TAKE_NO_ACTION"
action_value RecoveryAction.reroute = "REROUTE"
action_value RecoveryAction.carrier_upgrade = "CARRIER_UPGRADE"
action_value RecoveryAction.split_shipment = "SPLIT_SHIPMENT"
action_value RecoveryAction.human_escalation = "HUMAN_ESCALATION"

-- `disposition.value`
pub disposition_value : PolicyDisposition → String
disposition_value PolicyDisposition.auto_execute = "AUTO_EXECUTE"
disposition_value PolicyDisposition.request_approval = "REQUEST_APPROVAL"
disposition_value PolicyDisposition.escalate = "ESCALATE"
disposition_value PolicyDisposition.block = "BLOCK"
disposition_value PolicyDisposition.take_no_action = "TAKE_NO_ACTION"

abbrev pub action_tag : RecoveryAction → ℕ
action_tag RecoveryAction.take_no_action = 0
action_tag RecoveryAction.reroute = 1
action_tag RecoveryAction.carrier_upgrade = 2
action_tag RecoveryAction.split_shipment = 3
action_tag RecoveryAction.human_escalation = 4

abbrev pub is_action : RecoveryAction → RecoveryAction → Bool
is_action a b = action_tag a == action_tag b

abbrev pub approval_status_tag : ApprovalStatus → ℕ
approval_status_tag ApprovalStatus.pending = 0
approval_status_tag ApprovalStatus.approved = 1
approval_status_tag ApprovalStatus.rejected = 2
approval_status_tag ApprovalStatus.expired = 3

abbrev pub is_approval_status : ApprovalStatus → ApprovalStatus → Bool
is_approval_status a b = approval_status_tag a == approval_status_tag b

abbrev pub role_tag : UserRole → ℕ
role_tag UserRole.operations_analyst = 0
role_tag UserRole.operations_manager = 1
role_tag UserRole.auditor = 2
role_tag UserRole.service_identity = 3

abbrev pub is_role : UserRole → UserRole → Bool
is_role a b = role_tag a == role_tag b

abbrev pub level_tag : AutonomyLevel → ℕ
level_tag AutonomyLevel.observe = 0
level_tag AutonomyLevel.recommend = 1
level_tag AutonomyLevel.approval_required = 2
level_tag AutonomyLevel.bounded_autonomy = 3
level_tag AutonomyLevel.suspended = 4

abbrev pub is_level : AutonomyLevel → AutonomyLevel → Bool
is_level a b = level_tag a == level_tag b
