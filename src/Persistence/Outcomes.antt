-- ===== src/Persistence/Outcomes.antt =====
-- `OutcomeRepository` of src/promiseguard/persistence.py.
use promiseguard_ai.Prelude.{Bool, Option, none, some, find, if◌then◌else◌}
use promiseguard_ai.Prelude.Text.{String, str_eq}
use promiseguard_ai.Prelude.Exec.{ok, err, Exec, persistence_conflict_error}
use promiseguard_ai.Models.{OutcomeVerification}
use promiseguard_ai.Codec.{Codec, canonical_fingerprint}
use promiseguard_ai.Database.{Db, OutcomeRow, insert_row}

abbrev pub of_decision : String → OutcomeRow → Bool
of_decision decision_id row = str_eq row.outcome.decision_id decision_id

abbrev pub outcome_row : Codec → OutcomeVerification → OutcomeRow
outcome_row c o = record { outcome = o; fingerprint = canonical_fingerprint c (c.outcome_json o) }

-- `record`
unfoldable pub record_outcome : Codec → OutcomeVerification → Exec Db OutcomeVerification
record_outcome c o db = elim (find (of_decision o.decision_id) db.outcomes) [
  | some row ↦
      if str_eq row.fingerprint (canonical_fingerprint c (c.outcome_json o))
      then (ok row.outcome, db)
      else (
        err persistence_conflict_error "decision already has a conflicting verified outcome",
        db,
      )
  | none ↦
      elim (insert_row (λ (r : OutcomeRow). str_eq r.outcome.outcome_id o.outcome_id)
        (outcome_row c o) db.outcomes) [
          | ok table ↦ (ok o, record db { outcomes = table })
          | err k t ↦ (err k t, db)
        ]
]

-- `get_by_decision`
unfoldable pub outcome_by_decision : String → Db → Option OutcomeVerification
outcome_by_decision decision_id db = elim (find (of_decision decision_id) db.outcomes) [
  | none ↦ none
  | some row ↦ some row.outcome
]
