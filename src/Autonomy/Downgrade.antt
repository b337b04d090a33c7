-- ===== src/Autonomy/Downgrade.antt =====
-- `_record_evidence` of src/promiseguard/autonomy.py on the profile of its action.
use promiseguard_ai.Prelude.{
  ℕ, ◌+◌, ◌≡◌, ◌≢◌, true, false, none, some, arith, find, find-update_first, find_holds,
  find-append, Option-cases, inl, inr,
}
use promiseguard_ai.Prelude.Text.{str_eq_refl}
use promiseguard_ai.Prelude.Exec.{ok}
use promiseguard_ai.Models.{AutonomyProfile}
use promiseguard_ai.Database.{Db, AutonomyProfileRow, AutonomyEvidenceRow}
use promiseguard_ai.Autonomy.History.{execution_permitted-reads}
use promiseguard_ai.Autonomy.{
  has_action, find_profile, Evidence, evidenced, evidence_row, has_evidence_id, record_evidence,
  execution_permitted, profile_model,
}

-- New evidence about an action with a profile is stored under its identifier, and the profile
-- is stored and returned with the evidence counted.
pub record_evidence_counts :
    (e : Evidence) (now : ℕ) (db : Db) {row : AutonomyProfileRow}
    → find_profile e.action db ≡ some row
    → find (has_evidence_id e.evidence_id) db.evidence ≡ none
    → ((record_evidence e now db).0 ≡ ok (profile_model (evidenced e now row)))
      × (find_profile e.action (record_evidence e now db).1 ≡ some (evidenced e now row))
      × (find (has_evidence_id e.evidence_id) (record_evidence e now db).1.evidence
          ≡ some (evidence_row e now))
unfolding record_evidence find_profile evidenced
record_evidence_counts e now db {row} found fresh =
    let same = find_holds (has_action e.action) db.profiles found in
    let moved =
      find-update_first (has_action e.action) (evidenced e now) db.profiles found (ground arith) in
    let kept = find-append (has_evidence_id e.evidence_id) db.evidence (evidence_row e now) in
    (ground arith, ground (arith, moved), ground (arith, kept, str_eq_refl e.evidence_id))

-- New evidence of a failure about an action with a profile takes its consecutive successes to
-- 0, counts one more failure, and leaves the action without permission to execute by itself.
pub failure_suspends :
    (e : Evidence) (now : ℕ) (db : Db) {row : AutonomyProfileRow}
    → find_profile e.action db ≡ some row
    → find (has_evidence_id e.evidence_id) db.evidence ≡ none
    → e.successful ≡ false
    → (after : AutonomyProfileRow) × (find_profile e.action (record_evidence e now db).1
        ≡ some after)
      × (after.consecutive_verified_successes ≡ 0)
      × (after.failure_count ≡ row.failure_count + 1)
      × ((execution_permitted e.action (record_evidence e now db).1).0 ≢ ok true)
unfolding evidenced
failure_suspends e now db {row} found fresh failed =
    let (returned, moved, kept) = record_evidence_counts e now db found fresh in
    (
      evidenced e now row,
      moved,
      ground arith,
      ground arith,
      (λ allowed.
          let (r, switch, seen, set, off, bounded) =
            execution_permitted-reads e.action (record_evidence e now db).1 allowed in
          absurd (ground arith)),
    )

record_evidence_known :
    (e : Evidence) (now : ℕ) (db : Db) {row : AutonomyProfileRow} {old : AutonomyEvidenceRow}
    → find_profile e.action db ≡ some row
    → find (has_evidence_id e.evidence_id) db.evidence ≡ some old
    → record_evidence e now db ≡ (ok (profile_model row), db)
unfolding record_evidence
record_evidence_known e now db found known = ground arith

record_evidence_missing :
    (e : Evidence) (now : ℕ) (db : Db) {p : AutonomyProfile}
    → find_profile e.action db ≡ none
    → (record_evidence e now db).0 ≢ ok p
unfolding record_evidence
record_evidence_missing e now db missing h = absurd (ground arith)

-- Evidence that was recorded, recorded again at any time, returns the same profile and changes
-- nothing.
pub record_evidence_again :
    (e : Evidence) (now now' : ℕ) (db : Db) {p : AutonomyProfile}
    → (record_evidence e now db).0 ≡ ok p
    → record_evidence e now' (record_evidence e now db).1 ≡ (ok p, (record_evidence e now db).1)
record_evidence_again e now now' db {p} h = elim (Option-cases (find_profile e.action db)) [
  | inl missing ↦ absurd (record_evidence_missing e now db missing h)
  | inr (row, found) ↦ elim (Option-cases (find (has_evidence_id e.evidence_id) db.evidence)) [
    | inr (old, known) ↦
        let first = record_evidence_known e now db found known in
        let second = record_evidence_known e now' db found known in ground arith
    | inl fresh ↦
        let (returned, moved, kept) = record_evidence_counts e now db found fresh in
        let second = record_evidence_known e now' (record_evidence e now db).1 moved kept in
        ground arith
  ]
]
