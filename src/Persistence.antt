-- ===== src/Persistence.antt =====
-- The repositories of src/promiseguard/persistence.py for events, decisions and actions; approvals
-- and outcomes are in Persistence/Approvals.antt and Persistence/Outcomes.antt.
pub mod Approvals
pub mod Outcomes
pub mod Replay
mod Tests
use promiseguard_ai.Prelude.{
  ◌≡◌, arith, ℕ, Bool, true, false, ◌&&◌, not, Option, none, some, List, [], ◌∷◌, ◌++◌, ltb, ◌==◌,
  find, update_where, map, if◌then◌else◌,
}
use promiseguard_ai.Prelude.Text.{String, str_eq, concat}
use promiseguard_ai.Prelude.Exec.{
  Result, ok, err, Exec, pure, raise, gets, lift, modify, ◌>>=◌, ◌>>◌, persistence_conflict_error,
  record_not_found_error,
}
use promiseguard_ai.Models.{
  EvaluationRequest, OperationalEvent, DecisionTrace, ActionExecution, ActionStatus,
}
use promiseguard_ai.Codec.{Codec, canonical_fingerprint}
use promiseguard_ai.Database.{Db, OperationalEventRow, DecisionRow, ActionRow, insert_row}

-- `.order_by(key.desc())` with `session.scalar`: a row that passes the test and whose key none of
-- the others exceeds.
abbrev pub newest : {R : Type 0} → (R → Bool) → (R → ℕ) → List R → Option R
newest p key [] = none
newest p key (r ∷ rest) =
    let later = newest p key rest in
    if p r
    then elim later [ none ↦ some r | some l ↦ if ltb (key r) (key l) then some l else some r ]
    else later

pub newest_holds :
    {R : Type 0} (p : R → Bool) (key : R → ℕ) (rows : List R) {r : R}
    → newest p key rows ≡ some r
    → p r ≡ true
newest_holds p key [] h = cc
newest_holds p key (x ∷ rest) {r} h = ground (arith, newest_holds p key rest {r = r})

abbrev pub same_event : OperationalEvent → OperationalEventRow → Bool
same_event e row =
    str_eq row.source_system e.source_system
    && str_eq row.event_id e.event_id
    && row.event_version == e.event_version

module _ (c : Codec) where
  abbrev pub event_row : ℕ → EvaluationRequest → OperationalEventRow
  event_row now request = record {
    source_system = request.event.source_system;
    event_id = request.event.event_id;
    event_version = request.event.event_version;
    payload = request;
    fingerprint = canonical_fingerprint c (c.request_json request);
    created_at = now;
  }

  -- `EventRepository.ingest`, on the event of a request and the request as payload
  unfoldable pub ingest : ℕ → EvaluationRequest → Exec Db OperationalEventRow
  ingest now request db = elim (find (same_event request.event) db.events) [
    | some row ↦
        if str_eq row.fingerprint (canonical_fingerprint c (c.request_json request))
        then (ok row, db)
        else (
          err persistence_conflict_error "event identity was replayed with conflicting payload",
          db,
        )
    | none ↦
        (ok (event_row now request), record db { events = db.events ++ event_row now request ∷ [] })
  ]

  abbrev pub decision_row : DecisionTrace → DecisionRow
  decision_row trace = record {
    decision_id = trace.decision_id;
    event_id = trace.event_id;
    order_id = trace.order_id;
    tenant_id = trace.tenant_id;
    trace = trace;
    fingerprint = canonical_fingerprint c (c.trace_json trace);
    created_at = trace.created_at;
  }

  -- `DecisionRepository.record`
  unfoldable pub record_decision : DecisionTrace → Exec Db DecisionTrace
  record_decision trace db =
      elim (find (λ (r : DecisionRow). str_eq r.decision_id trace.decision_id) db.decisions) [
        | some row ↦
            if str_eq row.fingerprint (canonical_fingerprint c (c.trace_json trace))
            then (ok row.trace, db)
            else (
              err persistence_conflict_error
                  "decision replay conflicts with the immutable ledger record",
              db,
            )
        | none ↦ (ok trace, record db { decisions = db.decisions ++ decision_row trace ∷ [] })
      ]

  abbrev pub action_row : ActionExecution → ActionRow
  action_row x = record {
    action_id = x.action_id;
    decision_id = x.command.decision_id;
    order_id = x.command.order_id;
    action = x.command.action;
    idempotency_key = x.command.idempotency_key;
    status = x.status;
    command = x.command;
    steps = x.steps;
    fingerprint = canonical_fingerprint c (c.command_json x.command);
    started_at = x.started_at;
    completed_at = x.completed_at;
    error_code = x.error_code;
    manual_recovery_reason = x.manual_recovery_reason;
  }

-- `EventRepository.get_request_payload`: the newest version
unfoldable pub get_request_payload : String → Db → Option EvaluationRequest
get_request_payload event_id db =
    elim (newest (λ (r : OperationalEventRow). str_eq r.event_id event_id) (λ r. r.event_version)
      db.events) [ none ↦ none | some row ↦ some row.payload ]

-- `DecisionRepository.get`
unfoldable pub get_decision : String → Db → Option DecisionTrace
get_decision decision_id db =
    elim (find (λ (r : DecisionRow). str_eq r.decision_id decision_id) db.decisions) [
      | none ↦ none
      | some row ↦ some row.trace
    ]

-- `ActionRepository._to_model`
abbrev pub action_model : ActionRow → ActionExecution
action_model row = record {
  action_id = row.action_id;
  command = row.command;
  status = row.status;
  steps = row.steps;
  started_at = row.started_at;
  completed_at = row.completed_at;
  error_code = row.error_code;
  manual_recovery_reason = row.manual_recovery_reason;
}

-- `ActionRepository.record`
unfoldable pub record_action : Codec → ActionExecution → Exec Db ActionExecution
record_action c x db =
    elim (find (λ (r : ActionRow). str_eq r.idempotency_key x.command.idempotency_key) db.actions) [
      | some row ↦
          if str_eq row.fingerprint (canonical_fingerprint c (c.command_json x.command))
          then (ok (action_model row), db)
          else (
            err persistence_conflict_error
                "idempotency key was reused for a different action command",
            db,
          )
      | none ↦
          elim (insert_row (λ (r : ActionRow). str_eq r.action_id x.action_id) (action_row c x)
            db.actions) [
              | ok table ↦ (ok x, record db { actions = table })
              | err k t ↦ (err k t, db)
            ]
    ]

-- `ActionRepository.update`: the columns that an execution changes
abbrev pub updated_action : ActionExecution → ActionRow → ActionRow
updated_action x row = record row {
  status = x.status;
  steps = x.steps;
  completed_at = x.completed_at;
  error_code = x.error_code;
  manual_recovery_reason = x.manual_recovery_reason;
}

unfoldable pub update_action : ActionExecution → Exec Db ActionExecution
update_action x db =
    let same = λ (r : ActionRow). str_eq r.action_id x.action_id in
    elim (find same db.actions) [
      | none ↦
          (err record_not_found_error (concat ("action '" ∷ x.action_id ∷ "' not found" ∷ [])), db)
      | some _ ↦ (ok x, record db { actions = update_where same (updated_action x) db.actions })
    ]

-- `ActionRepository.get`
unfoldable pub get_action : String → Db → Option ActionExecution
get_action action_id db = elim (find (λ (r : ActionRow). str_eq r.action_id action_id) db.actions) [
  | none ↦ none
  | some row ↦ some (action_model row)
]

-- `ActionRepository.get_by_decision`: the one started last
unfoldable pub action_by_decision : String → Db → Option ActionExecution
action_by_decision decision_id db =
    elim (newest (λ (r : ActionRow). str_eq r.decision_id decision_id) (λ r. r.started_at)
      db.actions) [ none ↦ none | some row ↦ some (action_model row) ]
