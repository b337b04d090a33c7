-- ===== src/Autonomy/Rows.antt =====
-- The rows of src/promiseguard/autonomy.py: how an update, evidence or the bootstrap changes them.
use promiseguard_ai.Prelude.{
  ℕ, ◌+◌, Bool, true, false, not, ◌&&◌, none, some, [], ◌∷◌, leb, if◌then◌else◌,
}
use promiseguard_ai.Prelude.Text.{String, str_eq, concat}
use promiseguard_ai.Models.{
  RecoveryAction, AutonomyLevel, AutonomyProfile, AutonomyUpdateInput, KillSwitchState,
  KillSwitchUpdateInput, ActionStatus, VerificationStatus, is_action, is_level,
}
use promiseguard_ai.Database.{RuntimeControlRow, AutonomyProfileRow, AutonomyEvidenceRow}

-- `promotion_threshold`
abbrev pub promotion_threshold : ℕ
promotion_threshold = 20

-- `_kill_switch_model`
abbrev pub kill_switch_model : RuntimeControlRow → KillSwitchState
kill_switch_model row = record {
  active = row.enabled;
  reason = row.reason;
  updated_by = row.updated_by;
  updated_at = row.updated_at;
  version = row.version;
}

-- `_profile_model`
abbrev pub profile_model : AutonomyProfileRow → AutonomyProfile
profile_model row = record {
  action = row.action;
  level = row.level;
  verified_successes = row.verified_successes;
  consecutive_verified_successes = row.consecutive_verified_successes;
  compensation_count = row.compensation_count;
  failure_count = row.failure_count;
  recommended_for_promotion =
      leb promotion_threshold row.consecutive_verified_successes
      && not (is_level row.level AutonomyLevel.bounded_autonomy);
  reason = row.reason;
  last_evidence_at = row.last_evidence_at;
  updated_by = row.updated_by;
  updated_at = row.updated_at;
  version = row.version;
}

abbrev pub has_action : RecoveryAction → AutonomyProfileRow → Bool
has_action action row = is_action row.action action

abbrev pub switched : KillSwitchUpdateInput → ℕ → RuntimeControlRow → RuntimeControlRow
switched update now row = record {
  enabled = update.active;
  reason = update.reason;
  updated_by = update.actor_id;
  updated_at = now;
  version = row.version + 1;
}

unfoldable pub levelled : AutonomyUpdateInput → ℕ → AutonomyProfileRow → AutonomyProfileRow
levelled update now row = record row {
  level = update.level;
  reason = update.reason;
  updated_by = update.actor_id;
  updated_at = now;
  version = row.version + 1;
}

pub record Evidence : Type 0 where
  pub evidence_id : String
  pub action : RecoveryAction
  pub kind : String
  pub successful : Bool
  pub compensated : Bool

abbrev pub has_evidence_id : String → AutonomyEvidenceRow → Bool
has_evidence_id evidence_id row = str_eq row.evidence_id evidence_id

abbrev pub evidence_row : Evidence → ℕ → AutonomyEvidenceRow
evidence_row e now = record {
  evidence_id = e.evidence_id;
  action = e.action;
  evidence_kind = e.kind;
  successful = e.successful;
  compensated = e.compensated;
  created_at = now;
}

-- The counts, `if successful … else …` and `if compensated`.
abbrev pub counted : Evidence → AutonomyProfileRow → AutonomyProfileRow
counted e row = record row {
  verified_successes = if e.successful then row.verified_successes + 1 else row.verified_successes;
  consecutive_verified_successes =
      if e.successful then row.consecutive_verified_successes + 1 else 0;
  failure_count = if e.successful then row.failure_count else row.failure_count + 1;
  compensation_count = if e.compensated then row.compensation_count + 1 else row.compensation_count;
}

-- The automatic downgrade of a failing action from bounded autonomy.
abbrev pub downgraded : Evidence → AutonomyProfileRow → AutonomyProfileRow
downgraded e row =
    if not e.successful && is_level row.level AutonomyLevel.bounded_autonomy
    then record row {
      level = AutonomyLevel.suspended;
      reason = concat ("Automatic safety downgrade after " ∷ e.kind ∷ []);
      updated_by = "automatic-safety-downgrade";
    }
    else row

unfoldable pub evidenced : Evidence → ℕ → AutonomyProfileRow → AutonomyProfileRow
evidenced e now row = record (downgraded e (counted e row)) {
  last_evidence_at = some now;
  updated_at = now;
  version = row.version + 1;
}

-- `execution.status not in {COMPENSATED, FAILED, MANUAL_RECOVERY_REQUIRED}`
abbrev pub counts_against : ActionStatus → Bool
counts_against ActionStatus.compensated = true
counts_against ActionStatus.failed = true
counts_against ActionStatus.manual_recovery_required = true
counts_against _ = false

abbrev pub is_compensated : ActionStatus → Bool
is_compensated ActionStatus.compensated = true
is_compensated _ = false

abbrev pub is_verified : VerificationStatus → Bool
is_verified VerificationStatus.verified = true
is_verified _ = false

abbrev pub needs_manual_review : VerificationStatus → Bool
needs_manual_review VerificationStatus.manual_review_required = true
needs_manual_review _ = false

abbrev pub initial_switch : ℕ → RuntimeControlRow
initial_switch now = record {
  enabled = false;
  reason = "Initial safe state";
  updated_by = "system-bootstrap";
  updated_at = now;
  version = 1;
}

abbrev pub initial_profile : RecoveryAction → ℕ → AutonomyProfileRow
initial_profile action now = record {
  action = action;
  level = AutonomyLevel.approval_required;
  verified_successes = 0;
  consecutive_verified_successes = 0;
  compensation_count = 0;
  failure_count = 0;
  reason = "Initial approval-required state";
  last_evidence_at = none;
  updated_by = "system-bootstrap";
  updated_at = now;
  version = 1;
}
