-- ===== src/Autonomy/Tests.antt =====
-- Twenty successes, a promotion and a failure in src/promiseguard/autonomy.py.
use promiseguard_ai.Prelude.{
  ℕ, zero, suc, ◌+◌, ◌≤◌, ◌≡◌, ◌≢◌, refl, true, false, some, List, [], ◌∷◌,
}
use promiseguard_ai.Prelude.Text.{String, concat}
use promiseguard_ai.Prelude.Exec.{ok}
use promiseguard_ai.Models.{
  AutonomyLevel, AutonomyUpdateInput, RecoveryAction, UserRole, OutcomeVerification,
  VerificationStatus, ActionStatus,
}
use promiseguard_ai.Examples.{bits}
use promiseguard_ai.Prelude.Int.{pos}
use promiseguard_ai.Database.{Db, AutonomyProfileRow, RuntimeControlRow}
use promiseguard_ai.Identity.{bind_claimed_role, registered_role}
use promiseguard_ai.Autonomy.{
  promotion_threshold, find_profile, Evidence, evidenced, record_evidence, record_outcome,
  set_profile, set_profile_block, levelled, bootstrap, profile, kill_switch, execution_permitted,
  profile_model,
}
use promiseguard_ai.Autonomy.History.{
  AutonomyCall, bootstrap_call, outcome_call, level_call, empty_db, after_calls,
  permission_is_earned,
}
use promiseguard_ai.Autonomy.Downgrade.{failure_suspends}

abbrev proven : AutonomyProfileRow
proven = record {
  action = RecoveryAction.reroute;
  level = AutonomyLevel.bounded_autonomy;
  verified_successes = 24;
  consecutive_verified_successes = 21;
  compensation_count = 0;
  failure_count = 1;
  reason = "proven";
  last_evidence_at = some 900;
  updated_by = "operations-manager-ui";
  updated_at = 950;
  version = 26;
}

abbrev with_proven : Db
with_proven = record empty_db {
  kill_switch = some (record {
    enabled = false;
    reason = "Initial safe state";
    updated_by = "system-bootstrap";
    updated_at = 0;
    version = 1;
  });
  profiles = proven ∷ [];
}

abbrev failure : Evidence
failure = record {
  evidence_id = "execution:act_1";
  action = RecoveryAction.reroute;
  kind = "EXECUTION_FAILURE";
  successful = false;
  compensated = true;
}

found : find_profile RecoveryAction.reroute with_proven ≡ some proven
unfolding find_profile
found = refl

failure_suspends_example :
    (after : AutonomyProfileRow) × (find_profile RecoveryAction.reroute
        (record_evidence failure 1000 with_proven).1
      ≡ some after)
    × (after.consecutive_verified_successes ≡ 0)
    × (after.failure_count ≡ 1 + 1)
    × ((execution_permitted RecoveryAction.reroute (record_evidence failure 1000 with_proven).1).0
        ≢ ok true)
failure_suspends_example = failure_suspends failure 1000 with_proven found refl refl

returned :
    (record_evidence failure 1000 with_proven).0
    ≡ ok (profile_model (evidenced failure 1000 proven))
unfolding record_evidence find_profile
returned = refl

-- The name of the n-th outcome: n strokes.
abbrev outcome_name : ℕ → String
outcome_name zero = ""
outcome_name (suc n) = concat ("i" ∷ outcome_name n ∷ [])

abbrev success : ℕ → OutcomeVerification
success n = record {
  outcome_id = outcome_name n;
  decision_id = "dec_1";
  action_id = "act_1";
  status = VerificationStatus.verified;
  verified_at = 1000;
  on_time_delivery_observed = some true;
  actual_intervention_cost = 300;
  realised_gross_margin = pos 4700;
  estimated_incremental_value = pos 3275;
  evidence_references = [];
  action_postcondition_holds = true;
  expected_on_time_probability = bits 9500;
  execution_status = ActionStatus.succeeded;
}

abbrev promotion : AutonomyUpdateInput
promotion = record {
  level = AutonomyLevel.bounded_autonomy;
  actor_id = "operations-manager-ui";
  actor_role = UserRole.operations_manager;
  reason = "twenty successes";
}

abbrev successes : ℕ → List AutonomyCall
successes zero = level_call RecoveryAction.reroute promotion 3000 ∷ []
successes (suc n) = outcome_call (success (suc n)) RecoveryAction.reroute 2000 ∷ successes n

abbrev career : List AutonomyCall
career = bootstrap_call 0 ∷ successes 20

permitted :
    (execution_permitted RecoveryAction.reroute (after_calls true career empty_db)).0 ≡ ok true
unfolding execution_permitted kill_switch profile find_profile bootstrap record_outcome
    record_evidence set_profile set_profile_block bind_claimed_role registered_role evidenced
    levelled concat
permitted = refl

permission_is_earned_example :
    (row : AutonomyProfileRow) × (switch : RuntimeControlRow) × (find_profile RecoveryAction.reroute
        (after_calls true career empty_db)
      ≡ some row)
    × (promotion_threshold ≤ row.consecutive_verified_successes)
    × (row.consecutive_verified_successes ≤ row.verified_successes)
    × ((after_calls true career empty_db).kill_switch ≡ some switch)
    × (switch.enabled ≡ false)
permission_is_earned_example = permission_is_earned true career RecoveryAction.reroute permitted
