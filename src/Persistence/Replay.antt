-- ===== src/Persistence/Replay.antt =====
-- The repositories of src/promiseguard/persistence.py on what they already have.
use promiseguard_ai.Prelude.{ℕ, ◌≡◌, arith, find-append}
use promiseguard_ai.Prelude.Text.{str_eq, str_eq_refl}
use promiseguard_ai.Prelude.Exec.{ok}
use promiseguard_ai.Models.{EvaluationRequest, ActionExecution, OutcomeVerification}
use promiseguard_ai.Codec.{Codec}
use promiseguard_ai.Database.{Db, OperationalEventRow, ActionRow}
use promiseguard_ai.Persistence.{same_event, event_row, ingest, action_row, record_action}
use promiseguard_ai.Persistence.Outcomes.{of_decision, outcome_row, record_outcome}

-- An event whose ingestion returned, ingested again, returns the stored row and changes
-- nothing.
pub ingest_again :
    (c : Codec) (now now' : ℕ) (request : EvaluationRequest) (db : Db) {row : OperationalEventRow}
    → (ingest c now request db).0 ≡ ok row
    → ingest c now' request (ingest c now request db).1 ≡ (ok row, (ingest c now request db).1)
unfolding ingest
ingest_again c now now' request db {row} h = ground (
  arith,
  find-append (same_event request.event) db.events (event_row c now request),
  str_eq_refl request.event.source_system,
  str_eq_refl request.event.event_id,
  str_eq_refl (event_row c now request).fingerprint,
)

-- An execution whose recording returned, recorded again, returns the stored execution and
-- changes nothing.
pub record_action_again :
    (c : Codec) (x : ActionExecution) (db : Db) {stored : ActionExecution}
    → (record_action c x db).0 ≡ ok stored
    → record_action c x (record_action c x db).1 ≡ (ok stored, (record_action c x db).1)
unfolding record_action
record_action_again c x db {stored} h = ground (
  arith,
  find-append (λ (r : ActionRow). str_eq r.idempotency_key x.command.idempotency_key) db.actions
      (action_row c x),
  str_eq_refl x.command.idempotency_key,
  str_eq_refl (action_row c x).fingerprint,
)

-- A verified outcome whose recording returned, recorded again, returns the stored outcome and
-- changes nothing.
pub record_outcome_again :
    (c : Codec) (o : OutcomeVerification) (db : Db) {stored : OutcomeVerification}
    → (record_outcome c o db).0 ≡ ok stored
    → record_outcome c o (record_outcome c o db).1 ≡ (ok stored, (record_outcome c o db).1)
unfolding record_outcome
record_outcome_again c o db {stored} h = ground (
  arith,
  find-append (of_decision o.decision_id) db.outcomes (outcome_row c o),
  str_eq_refl o.decision_id,
  str_eq_refl (outcome_row c o).fingerprint,
)
