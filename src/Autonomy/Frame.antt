-- ===== src/Autonomy/Frame.antt =====
-- The tables that evidence in src/promiseguard/autonomy.py leaves alone.
use promiseguard_ai.Prelude.{
  ℕ, ◌≡◌, some, List, [], ◌∷◌, ◌++◌, arith, find, update_first, Option-cases, Bool-cases, inl, inr,
}
use promiseguard_ai.Prelude.Exec.{ok}
use promiseguard_ai.Models.{AutonomyProfile, ActionExecution, OutcomeVerification, RecoveryAction}
use promiseguard_ai.Database.{Db, AutonomyProfileRow, AutonomyEvidenceRow}
use promiseguard_ai.Autonomy.{
  profile_model, Evidence, has_evidence_id, has_action, evidenced, evidence_row, find_profile,
  record_evidence, profile, record_execution, record_outcome, counts_against, needs_manual_review,
}
use promiseguard_ai.Autonomy.Earned.{profile-keeps}

-- A database that differs at most in the profiles and the evidence.
abbrev pub Same : Db → Db → Type 0
Same a b =
    (profiles : List AutonomyProfileRow) × (evidence : List AutonomyEvidenceRow) × (a
      ≡ record b { profiles = profiles; evidence = evidence })

pub record_evidence-Same : (e : Evidence) (now : ℕ) (db : Db) → Same (record_evidence e now db).1 db
unfolding record_evidence
record_evidence-Same e now db = elim (Option-cases (find_profile e.action db)) [
  | inl missing ↦ (db.profiles, db.evidence, ground arith)
  | inr (row, found) ↦ elim (Option-cases (find (has_evidence_id e.evidence_id) db.evidence)) [
    | inr (old, known) ↦ (db.profiles, db.evidence, ground arith)
    | inl fresh ↦ (
      update_first (has_action e.action) (evidenced e now) db.profiles,
      db.evidence ++ evidence_row e now ∷ [],
      ground arith,
    )
  ]
]

pub record_execution-Same :
    (execution : ActionExecution) (now : ℕ) (db : Db)
    → Same (record_execution execution now db).1 db
unfolding record_execution
record_execution-Same execution now db = elim (Bool-cases (counts_against execution.status)) [
  | inl against ↦ rw against (record_evidence-Same _ now db)
  | inr neutral ↦ (db.profiles, db.evidence, rw neutral (profile-keeps execution.command.action db))
]

pub record_outcome-Same :
    (outcome : OutcomeVerification) (action : RecoveryAction) (now : ℕ) (db : Db)
    → Same (record_outcome outcome action now db).1 db
unfolding record_outcome
record_outcome-Same outcome action now db = elim (Bool-cases (needs_manual_review outcome.status)) [
  | inl unclear ↦ (db.profiles, db.evidence, rw unclear (profile-keeps action db))
  | inr clear ↦ rw clear (record_evidence-Same _ now db)
]

record_evidence-returns :
    (e : Evidence) (now : ℕ) (db : Db) {row : AutonomyProfileRow}
    → find_profile e.action db ≡ some row
    → (p : AutonomyProfile) × ((record_evidence e now db).0 ≡ ok p)
unfolding record_evidence
record_evidence-returns e now db {row} found =
    elim (Option-cases (find (has_evidence_id e.evidence_id) db.evidence)) [
      | inr (old, known) ↦ (profile_model row, ground arith)
      | inl fresh ↦ (profile_model (evidenced e now row), ground arith)
    ]

pub record_outcome-returns :
    (outcome : OutcomeVerification) (action : RecoveryAction) (now : ℕ) (db : Db)
    {row : AutonomyProfileRow}
    → find_profile action db ≡ some row
    → (p : AutonomyProfile) × ((record_outcome outcome action now db).0 ≡ ok p)
unfolding record_outcome profile
record_outcome-returns outcome action now db {row} found =
    elim (Bool-cases (needs_manual_review outcome.status)) [
      | inl unclear ↦ (profile_model row, ground arith)
      | inr clear ↦ rw clear (record_evidence-returns _ now db found)
    ]
