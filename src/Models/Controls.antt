-- ===== src/Models/Controls.antt =====
-- The kill switch, autonomy profiles and their updates (src/promiseguard/models.py).
use promiseguard_ai.Prelude.{ℕ, Bool, Option}
use promiseguard_ai.Prelude.Text.{String}
use promiseguard_ai.Models.Enums.{RecoveryAction, UserRole, AutonomyLevel}

pub record KillSwitchState : Type 0 where
  pub active : Bool
  pub reason : String
  pub updated_by : String
  pub updated_at : ℕ
  pub version : ℕ

pub record KillSwitchUpdateInput : Type 0 where
  pub active : Bool
  pub actor_id : String
  pub actor_role : UserRole
  pub reason : String

pub record AutonomyProfile : Type 0 where
  pub action : RecoveryAction
  pub level : AutonomyLevel
  pub verified_successes : ℕ
  pub consecutive_verified_successes : ℕ
  pub compensation_count : ℕ
  pub failure_count : ℕ
  pub recommended_for_promotion : Bool
  pub reason : String
  pub last_evidence_at : Option ℕ
  pub updated_by : String
  pub updated_at : ℕ
  pub version : ℕ

pub record AutonomyUpdateInput : Type 0 where
  pub level : AutonomyLevel
  pub actor_id : String
  pub actor_role : UserRole
  pub reason : String
