-- ===== src/Autonomy/History.antt =====
-- Histories of calls on the controller of src/promiseguard/autonomy.py, and the permission to
-- execute.
use mathlib.Core.Path.{subst}
use promiseguard_ai.Prelude.{
  ℕ, ◌≤◌, ◌≡◌, Bool, true, false, none, some, List, [], ◌∷◌, arith, All, find-All, sym,
  Option-cases, Bool-cases, inl, inr,
}
use promiseguard_ai.Prelude.Exec.{ok}
use promiseguard_ai.Models.{
  RecoveryAction, AutonomyLevel, AutonomyUpdateInput, KillSwitchUpdateInput, ActionExecution,
  OutcomeVerification, is_level,
}
use promiseguard_ai.Database.{Db, RuntimeControlRow, AutonomyProfileRow}
use promiseguard_ai.Autonomy.{
  promotion_threshold, has_action, find_profile, set_kill_switch, set_profile, record_execution,
  record_outcome, bootstrap, profile, kill_switch, execution_permitted, counts_against,
  needs_manual_review,
}
use promiseguard_ai.Autonomy.Earned.{
  is_earned, IsEarned, record_evidence-IsEarned, set_profile-IsEarned, set_kill_switch-profiles,
  profile-keeps, bootstrap-IsEarned,
}

-- A call of the controller, with its arguments and the time.
pub data AutonomyCall : Type 0 where
  bootstrap_call : ℕ → AutonomyCall
  switch_call : KillSwitchUpdateInput → ℕ → AutonomyCall
  level_call : RecoveryAction → AutonomyUpdateInput → ℕ → AutonomyCall
  execution_call : ActionExecution → ℕ → AutonomyCall
  outcome_call : OutcomeVerification → RecoveryAction → ℕ → AutonomyCall

abbrev pub empty_db : Db
empty_db = record {
  events = [];
  decisions = [];
  approvals = [];
  actions = [];
  outcomes = [];
  kill_switch = none;
  profiles = [];
  evidence = [];
  feedback = [];
}

-- What a call leaves behind, whether it returns or raises.
abbrev pub after_call : Bool → AutonomyCall → Db → Db
after_call strict (bootstrap_call now) db = bootstrap now db
after_call strict (switch_call update now) db = (set_kill_switch strict update now db).1
after_call strict (level_call action update now) db = (set_profile strict action update now db).1
after_call strict (execution_call execution now) db = (record_execution execution now db).1
after_call strict (outcome_call outcome action now) db = (record_outcome outcome action now db).1

abbrev pub after_calls : Bool → List AutonomyCall → Db → Db
after_calls strict [] db = db
after_calls strict (call ∷ calls) db = after_calls strict calls (after_call strict call db)

record_execution-IsEarned :
    (execution : ActionExecution) (now : ℕ) (db : Db)
    → IsEarned db
    → IsEarned (record_execution execution now db).1
unfolding record_execution
record_execution-IsEarned execution now db h = elim (Bool-cases (counts_against execution.status)) [
  | inl against ↦ rw against (record_evidence-IsEarned _ now db h)
  | inr neutral ↦ rw (neutral, profile-keeps execution.command.action db) h
]

record_outcome-IsEarned :
    (outcome : OutcomeVerification) (action : RecoveryAction) (now : ℕ) (db : Db)
    → IsEarned db
    → IsEarned (record_outcome outcome action now db).1
unfolding record_outcome
record_outcome-IsEarned outcome action now db h =
    elim (Bool-cases (needs_manual_review outcome.status)) [
      | inl unclear ↦ rw (unclear, profile-keeps action db) h
      | inr clear ↦ rw clear (record_evidence-IsEarned _ now db h)
    ]

after_call-IsEarned :
    (strict : Bool) (call : AutonomyCall) (db : Db)
    → IsEarned db
    → IsEarned (after_call strict call db)
after_call-IsEarned strict (bootstrap_call now) db h = bootstrap-IsEarned now db h
after_call-IsEarned strict (switch_call update now) db h =
    subst (All (λ r. is_earned r ≡ true)) (sym (set_kill_switch-profiles strict update now db)) h
after_call-IsEarned strict (level_call action update now) db h =
    set_profile-IsEarned strict action update now db h
after_call-IsEarned strict (execution_call execution now) db h =
    record_execution-IsEarned execution now db h
after_call-IsEarned strict (outcome_call outcome action now) db h =
    record_outcome-IsEarned outcome action now db h

after_calls-IsEarned :
    (strict : Bool) (calls : List AutonomyCall) (db : Db)
    → IsEarned db
    → IsEarned (after_calls strict calls db)
after_calls-IsEarned strict [] db h = h
after_calls-IsEarned strict (call ∷ calls) db h =
    after_calls-IsEarned strict calls _ (after_call-IsEarned strict call db h)

-- What the permission reads.
pub execution_permitted-reads :
    (action : RecoveryAction) (db : Db)
    → (execution_permitted action db).0 ≡ ok true
    → (row : AutonomyProfileRow) × (switch : RuntimeControlRow) × (find_profile action db
        ≡ some row)
      × (db.kill_switch ≡ some switch)
      × (switch.enabled ≡ false)
      × (is_level row.level AutonomyLevel.bounded_autonomy ≡ true)
unfolding execution_permitted kill_switch profile
execution_permitted-reads action db h = elim (Option-cases db.kill_switch) [
  | inl missing ↦ absurd (ground arith)
  | inr (switch, set) ↦ elim (Option-cases (find_profile action db)) [
    | inl unknown ↦ absurd (ground arith)
    | inr (row, found) ↦ (row, switch, found, set, ground arith, ground arith)
  ]
]

-- After any sequence of bootstraps, kill switch updates, level updates, executions and outcomes
-- from an empty database, an action that is permitted to execute by itself has a profile with
-- at least 20 consecutive verified successes, no more than its verified ones, and the kill
-- switch is off.
pub permission_is_earned :
    (strict : Bool) (calls : List AutonomyCall) (action : RecoveryAction)
    → (execution_permitted action (after_calls strict calls empty_db)).0 ≡ ok true
    → (row : AutonomyProfileRow) × (switch : RuntimeControlRow) × (find_profile action
          (after_calls strict calls empty_db)
        ≡ some row)
      × (promotion_threshold ≤ row.consecutive_verified_successes)
      × (row.consecutive_verified_successes ≤ row.verified_successes)
      × ((after_calls strict calls empty_db).kill_switch ≡ some switch)
      × (switch.enabled ≡ false)
unfolding find_profile
permission_is_earned strict calls action h =
    let db = after_calls strict calls empty_db in
    let (row, switch, found, set, off, bounded) = execution_permitted-reads action db h in
    let earned =
      find-All (λ r. is_earned r ≡ true) (has_action action) db.profiles
        (after_calls-IsEarned strict calls empty_db tt) found in
    (row, switch, found, ground arith, ground arith, set, off)
