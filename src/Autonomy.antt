-- ===== src/Autonomy.antt =====
-- src/promiseguard/autonomy.py: the persistent kill switch, and what the evidence says of each action.
-- `strict` is the identity setting of the environment, `number` prints a version, `now` is the reading
-- of the clock. `profiles`, which only sorts and reads, is left out.
mod Rows
pub mod Earned
pub mod History
pub mod Downgrade
pub mod Frame
mod Tests
unfoldable pub use Rows.*
use promiseguard_ai.Prelude.{
  ℕ, suc, ◌+◌, Bool, true, false, not, ◌&&◌, Option, none, some, List, [], ◌∷◌, ◌++◌, ltb, leb,
  if◌then◌else◌, is_some, find, update_first,
}
use promiseguard_ai.Prelude.Text.{String, str_eq, concat}
use promiseguard_ai.Prelude.Exec.{
  Result, ok, err, Exec, ◌>>=◌, ◌>>◌, lift, gets, raise_if, modify, pure, or_raise,
  autonomy_control_error, assertion_error,
}
use promiseguard_ai.Models.{
  RecoveryAction, AutonomyLevel, AutonomyProfile, AutonomyUpdateInput, KillSwitchState,
  KillSwitchUpdateInput, UserRole, ActionExecution, ActionStatus, OutcomeVerification,
  VerificationStatus, action_value, is_action, is_level, is_role,
}
use promiseguard_ai.Database.{
  Db, session, RuntimeControlRow, AutonomyProfileRow, AutonomyEvidenceRow,
}
use promiseguard_ai.Identity.{bind_claimed_role}
use promiseguard_ai.Approval.{not_executable}

-- `_require_manager`
abbrev pub require_manager : UserRole → Result (Unit {0})
require_manager role =
    if is_role role UserRole.operations_manager
    then ok tt
    else err autonomy_control_error "only an operations manager may change autonomy controls"

unfoldable pub find_profile : RecoveryAction → Db → Option AutonomyProfileRow
find_profile action db = find (has_action action) db.profiles

abbrev pub without_profile : RecoveryAction → String
without_profile action = concat ("action " ∷ action_value action ∷ " has no autonomy profile" ∷ [])

-- `kill_switch`
unfoldable pub kill_switch : Exec Db KillSwitchState
kill_switch = session (do
  found ← gets (λ db. db.kill_switch)
  row ← or_raise found assertion_error ""
  pure (kill_switch_model row))

-- `set_kill_switch`
unfoldable pub set_kill_switch : Bool → KillSwitchUpdateInput → ℕ → Exec Db KillSwitchState
set_kill_switch strict update now = do
  lift (require_manager update.actor_role)
  lift (bind_claimed_role strict update.actor_id update.actor_role)
  session (do
    found ← gets (λ db. db.kill_switch)
    row ← or_raise found assertion_error ""
    modify (λ db. record db { kill_switch = some (switched update now row) })
    pure (kill_switch_model (switched update now row)))

-- `profile`
unfoldable pub profile : RecoveryAction → Exec Db AutonomyProfile
profile action = session (do
  found ← gets (find_profile action)
  row ← or_raise found autonomy_control_error (without_profile action)
  pure (profile_model row))

-- The write of a changed row.
abbrev pub write_profile : RecoveryAction → (AutonomyProfileRow → AutonomyProfileRow) → Db → Db
write_profile action change db = record db {
  profiles = update_first (has_action action) change db.profiles;
}

unfoldable pub set_profile_block :
    RecoveryAction → AutonomyUpdateInput → ℕ → Exec Db AutonomyProfile
set_profile_block action update now = do
  found ← gets (find_profile action)
  row ← or_raise found autonomy_control_error (without_profile action)
  raise_if
      (is_level update.level AutonomyLevel.bounded_autonomy
        && ltb row.consecutive_verified_successes promotion_threshold)
      autonomy_control_error "bounded autonomy requires sufficient consecutive verified evidence"
  modify (write_profile action (levelled update now))
  pure (profile_model (levelled update now row))

-- `set_profile`
unfoldable pub set_profile :
    Bool → RecoveryAction → AutonomyUpdateInput → ℕ → Exec Db AutonomyProfile
set_profile strict action update now = do
  lift (require_manager update.actor_role)
  lift (bind_claimed_role strict update.actor_id update.actor_role)
  raise_if (not_executable action) autonomy_control_error
      "non-executable action has no autonomy profile"
  session (set_profile_block action update now)

-- `context_version`
unfoldable pub context_version : (ℕ → String) → RecoveryAction → Exec Db String
context_version number action = do
  switch ← kill_switch
  if not_executable action then pure (concat ("kill-switch:" ∷ number switch.version ∷ [])) else (do
    p ← profile action
    pure (
        concat (
          "kill-switch:"
          ∷ number switch.version
          ∷ "|"
          ∷ action_value action
          ∷ ":"
          ∷ number p.version
          ∷ [])))

-- `execution_permitted`
unfoldable pub execution_permitted : RecoveryAction → Exec Db Bool
execution_permitted action = do
  switch ← kill_switch
  if switch.active
      then pure false
      else (do p ← profile action; pure (is_level p.level AutonomyLevel.bounded_autonomy))

-- `_record_evidence`
unfoldable pub record_evidence : Evidence → ℕ → Exec Db AutonomyProfile
record_evidence e now = session (do
  existing ← gets (λ db. find (has_evidence_id e.evidence_id) db.evidence)
  found ← gets (find_profile e.action)
  row ← or_raise found autonomy_control_error (without_profile e.action)
  if is_some existing then pure (profile_model row) else (do
    modify (λ db. record db { evidence = db.evidence ++ evidence_row e now ∷ [] })
    modify (write_profile e.action (evidenced e now))
    pure (profile_model (evidenced e now row))))

-- `record_execution`
unfoldable pub record_execution : ActionExecution → ℕ → Exec Db AutonomyProfile
record_execution execution now =
    if counts_against execution.status
    then record_evidence
        (record {
          evidence_id = concat ("execution:" ∷ execution.action_id ∷ []);
          action = execution.command.action;
          kind = "EXECUTION_FAILURE";
          successful = false;
          compensated = is_compensated execution.status;
        })
        now
    else profile execution.command.action

-- `record_outcome`
unfoldable pub record_outcome : OutcomeVerification → RecoveryAction → ℕ → Exec Db AutonomyProfile
record_outcome outcome action now =
    if needs_manual_review outcome.status
    then profile action
    else record_evidence
        (record {
          evidence_id = concat ("outcome:" ∷ outcome.outcome_id ∷ []);
          action = action;
          kind = "VERIFIED_OUTCOME";
          successful = is_verified outcome.status;
          compensated = false;
        })
        now

abbrev pub bootstrap_profile : ℕ → RecoveryAction → Db → Db
bootstrap_profile now action db =
    if is_some (find_profile action db)
    then db
    else record db { profiles = db.profiles ++ initial_profile action now ∷ [] }

abbrev pub switch_or : RuntimeControlRow → Option RuntimeControlRow → RuntimeControlRow
switch_or fresh none = fresh
switch_or fresh (some row) = row

-- `_bootstrap`
unfoldable pub bootstrap : ℕ → Db → Db
bootstrap now db =
    let switch = switch_or (initial_switch now) db.kill_switch in
    let db1 = record db { kill_switch = some switch } in
    bootstrap_profile now RecoveryAction.split_shipment (
      bootstrap_profile now RecoveryAction.carrier_upgrade
        (bootstrap_profile now RecoveryAction.reroute db1))
