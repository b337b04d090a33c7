-- ===== src/Autonomy/Earned.antt =====
-- What a profile of src/promiseguard/autonomy.py must have for its level, operation by operation.
use mathlib.Core.Path.{subst, ap}
use promiseguard_ai.Prelude.{
  ℕ, ◌≡◌, ◌⊎◌, refl, update_first, Bool, true, false, not, ◌&&◌, ◌||◌, arith, leb, ltb, All,
  All-append, All-update_first, find, sym, Option-cases, Bool-cases, inl, inr,
}
use promiseguard_ai.Prelude.Exec.{Result-cases}
use promiseguard_ai.Models.{
  RecoveryAction, AutonomyLevel, AutonomyUpdateInput, KillSwitchUpdateInput, is_level, is_role,
  UserRole,
}
use promiseguard_ai.Identity.{bind_claimed_role}
use promiseguard_ai.Approval.{not_executable}
use promiseguard_ai.Database.{Db, session, session-keeps, AutonomyProfileRow}
use promiseguard_ai.Autonomy.{
  promotion_threshold, has_action, find_profile, set_kill_switch, set_profile, set_profile_block,
  levelled, initial_profile, has_evidence_id, Evidence, evidenced, record_evidence, bootstrap,
  bootstrap_profile, profile,
}

-- Consecutive successes are among the verified ones, and bounded autonomy has the threshold.
abbrev pub is_earned : AutonomyProfileRow → Bool
is_earned row =
    leb row.consecutive_verified_successes row.verified_successes
    && (not (is_level row.level AutonomyLevel.bounded_autonomy)
        || leb promotion_threshold row.consecutive_verified_successes)

abbrev pub IsEarned : Db → Type 0
IsEarned db = All (λ row. is_earned row ≡ true) db.profiles

pub evidenced-earned :
    (e : Evidence) (now : ℕ) (row : AutonomyProfileRow)
    → is_earned row ≡ true
    → is_earned (evidenced e now row) ≡ true
unfolding evidenced
evidenced-earned e now row h = ground arith

levelled-earned :
    (update : AutonomyUpdateInput) (now : ℕ) (row : AutonomyProfileRow)
    → (is_level update.level AutonomyLevel.bounded_autonomy
        && ltb row.consecutive_verified_successes promotion_threshold)
      ≡ false
    → is_earned row ≡ true
    → is_earned (levelled update now row) ≡ true
unfolding levelled
levelled-earned update now row h k = ground arith

pub set_profile_block-IsEarned :
    (action : RecoveryAction) (update : AutonomyUpdateInput) (now : ℕ) (db : Db)
    → IsEarned db
    → IsEarned (set_profile_block action update now db).1
unfolding set_profile_block find_profile
set_profile_block-IsEarned action update now db h = elim (Option-cases (find_profile action db)) [
  | inl missing ↦ rw missing h
  | inr (row, found) ↦
      elim (Bool-cases (
        is_level update.level AutonomyLevel.bounded_autonomy
        && ltb row.consecutive_verified_successes promotion_threshold)) [
          | inl refused ↦ rw (found, refused) h
          | inr granted ↦
              rw (found, granted)
                (All-update_first (λ r. is_earned r ≡ true) (has_action action)
                  (levelled update now) db.profiles h
                  (λ r same earned. levelled-earned update now r (ground arith) earned))
        ]
]

-- What evidence leaves in the table of profiles.
pub record_evidence-Writes :
    (e : Evidence) (now : ℕ) (db : Db)
    → ((record_evidence e now db).1.profiles ≡ db.profiles)
      ⊎ ((record_evidence e now db).1.profiles
          ≡ update_first (has_action e.action) (evidenced e now) db.profiles)
unfolding record_evidence
record_evidence-Writes e now db = elim (Option-cases (find_profile e.action db)) [
  | inl missing ↦ inl (ground arith)
  | inr (row, found) ↦ elim (Option-cases (find (has_evidence_id e.evidence_id) db.evidence)) [
    | inr (old, known) ↦ inl (ground arith)
    | inl fresh ↦ inr (ground arith)
  ]
]

pub record_evidence-IsEarned :
    (e : Evidence) (now : ℕ) (db : Db) → IsEarned db → IsEarned (record_evidence e now db).1
record_evidence-IsEarned e now db h = elim (record_evidence-Writes e now db) [
  | inl same ↦ rw same h
  | inr wrote ↦ rw wrote (
      All-update_first (λ r. is_earned r ≡ true) (has_action e.action) (evidenced e now) db.profiles
        h (λ r found earned. evidenced-earned e now r earned))
]

-- `set_profile` leaves the database as it was, or as its session leaves it.
set_profile-Writes :
    (strict : Bool) (action : RecoveryAction) (update : AutonomyUpdateInput) (now : ℕ) (db : Db)
    → ((set_profile strict action update now db).1 ≡ db)
      ⊎ ((set_profile strict action update now db).1
          ≡ (session (set_profile_block action update now) db).1)
unfolding set_profile
set_profile-Writes strict action update now db = elim (Bool-cases (not_executable action)) [
  | inl other ↦ inl (ground arith)
  | inr executable ↦ elim (Bool-cases (is_role update.actor_role UserRole.operations_manager)) [
    | inr other ↦ inl (ground arith)
    | inl manager ↦
        elim (Result-cases (bind_claimed_role strict update.actor_id update.actor_role)) [
          | inr (k, t, unbound) ↦ inl (ground arith)
          | inl (role, bound) ↦ inr (ground arith)
        ]
  ]
]

pub set_profile-IsEarned :
    (strict : Bool) (action : RecoveryAction) (update : AutonomyUpdateInput) (now : ℕ) (db : Db)
    → IsEarned db
    → IsEarned (set_profile strict action update now db).1
set_profile-IsEarned strict action update now db h =
    elim (set_profile-Writes strict action update now db) [
      | inl same ↦ rw same h
      | inr wrote ↦ subst IsEarned (sym wrote) (
          session-keeps IsEarned (set_profile_block action update now) db h (λ p db' e.
            subst IsEarned (ap (λ x. x.1) e) (set_profile_block-IsEarned action update now db h)))
    ]

pub set_kill_switch-profiles :
    (strict : Bool) (update : KillSwitchUpdateInput) (now : ℕ) (db : Db)
    → (set_kill_switch strict update now db).1.profiles ≡ db.profiles
unfolding set_kill_switch
set_kill_switch-profiles strict update now db = elim (Option-cases db.kill_switch) [
  | inl missing ↦ ground arith
  | inr (row, found) ↦ ground arith
]

pub profile-keeps : (action : RecoveryAction) (db : Db) → (profile action db).1 ≡ db
unfolding profile
profile-keeps action db = elim (Option-cases (find_profile action db)) [
  | inl missing ↦ ground arith
  | inr (row, found) ↦ ground arith
]

bootstrap_profile-IsEarned :
    (now : ℕ) (action : RecoveryAction) (db : Db)
    → IsEarned db
    → IsEarned (bootstrap_profile now action db)
bootstrap_profile-IsEarned now action db h = elim (Option-cases (find_profile action db)) [
  | inr (row, found) ↦ rw found h
  | inl missing ↦
      rw missing
        (All-append (λ r. is_earned r ≡ true) db.profiles (initial_profile action now) h refl)
]

pub bootstrap-IsEarned : (now : ℕ) (db : Db) → IsEarned db → IsEarned (bootstrap now db)
unfolding bootstrap
bootstrap-IsEarned now db h = bootstrap_profile-IsEarned now RecoveryAction.split_shipment _ (
    bootstrap_profile-IsEarned now RecoveryAction.carrier_upgrade _
      (bootstrap_profile-IsEarned now RecoveryAction.reroute _ h))
