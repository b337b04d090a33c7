-- ===== src/Services/Again.antt =====
-- A request that src/promiseguard/evaluation.py evaluates again.
use promiseguard_ai.Prelude.{
  ℕ, ◌≡◌, arith, true, some, ap, ◌∙◌, find-append, find, Option-cases, inl, inr,
}
use promiseguard_ai.Prelude.Text.{String, str_eq, str_eq_refl}
use promiseguard_ai.Prelude.Exec.{ok, Result-cases}
use promiseguard_ai.Models.{DecisionTrace, EvaluationRequest, Float, RecoveryAction}
use promiseguard_ai.Floats.{FloatOps}
use promiseguard_ai.Codec.{Codec, canonical_fingerprint}
use promiseguard_ai.Database.{Db, DecisionRow, OperationalEventRow}
use promiseguard_ai.Persistence.{event_row, ingest, record_decision, same_event}
use promiseguard_ai.Autonomy.{
  context_version, execution_permitted, find_profile, kill_switch, profile,
}
use promiseguard_ai.Ledger.{sql_record}
use promiseguard_ai.Ledger.Immutable.{sql_record_again}
use promiseguard_ai.Orchestrator.{RiskScorer, evaluate}
use promiseguard_ai.Orchestrator.Repeat.{LedgerLaws, evaluate_again}
use promiseguard_ai.Services.{built_orchestrator, controls_of, evaluate_request, kill_switch_active}

ingested :
    (c : Codec) (now : ℕ) (request : EvaluationRequest) (db : Db) {row : OperationalEventRow}
    → (ingest c now request db).0 ≡ ok row
    → (find (same_event request.event) (ingest c now request db).1.events ≡ some row)
      × (str_eq row.fingerprint (canonical_fingerprint c (c.request_json request)) ≡ true)
unfolding ingest
ingested c now request db {row} h =
    let known = find-append (same_event request.event) db.events (event_row c now request) in
    let one = str_eq_refl request.event.source_system in
    let two = str_eq_refl request.event.event_id in
    let three = str_eq_refl (canonical_fingerprint c (c.request_json request)) in
    elim (Option-cases (find (same_event request.event) db.events)) [
      | inl e ↦ (ground arith, ground arith)
      | inr (old, e) ↦ (ground arith, ground arith)
    ]

ingest_found :
    (c : Codec) (now : ℕ) (request : EvaluationRequest) (db : Db) (row : OperationalEventRow)
    → find (same_event request.event) db.events ≡ some row
    → str_eq row.fingerprint (canonical_fingerprint c (c.request_json request)) ≡ true
    → ingest c now request db ≡ (ok row, db)
unfolding ingest
ingest_found c now request db row h k = ground arith

-- Two databases that agree on the kill switch and the profiles give the same answers.
permitted_same :
    (action : RecoveryAction) (db db' : Db)
    → db'.kill_switch ≡ db.kill_switch
    → db'.profiles ≡ db.profiles
    → (execution_permitted action db').0 ≡ (execution_permitted action db).0
unfolding execution_permitted kill_switch profile find_profile
permitted_same action db db' h k = elim (Option-cases db.kill_switch) [
  | inl e ↦ ground arith
  | inr (row, e) ↦ ground arith
]

version_same :
    (number : ℕ → String) (action : RecoveryAction) (db db' : Db)
    → db'.kill_switch ≡ db.kill_switch
    → db'.profiles ≡ db.profiles
    → (context_version number action db').0 ≡ (context_version number action db).0
unfolding context_version kill_switch profile find_profile
version_same number action db db' h k = elim (Option-cases db.kill_switch) [
  | inl e ↦ ground arith
  | inr (row, e) ↦ ground arith
]

active_same :
    (db db' : Db)
    → db'.kill_switch ≡ db.kill_switch
    → (kill_switch_active db').0 ≡ (kill_switch_active db).0
unfolding kill_switch_active kill_switch
active_same db db' h = elim (Option-cases db.kill_switch) [
  | inl e ↦ ground arith
  | inr (row, e) ↦ ground arith
]

controls_same :
    (number : ℕ → String) (f : FloatOps) (min_confidence : Float) (db db' : Db)
    → db'.kill_switch ≡ db.kill_switch
    → db'.profiles ≡ db.profiles
    → controls_of number f min_confidence db' ≡ controls_of number f min_confidence db
controls_same number f min_confidence db db' h k = λ i. record {
  kill_switch_active = active_same db db' h i;
  autonomy_allowed = λ action. permitted_same action db db' h k i;
  control_version = λ action. version_same number action db db' h k i;
  less = f.less;
  min_confidence = min_confidence;
}

recorded_same :
    (c : Codec) (t : DecisionTrace) (db : Db)
    → ((sql_record c t db).1.kill_switch ≡ db.kill_switch)
      × ((sql_record c t db).1.profiles ≡ db.profiles)
unfolding sql_record record_decision
recorded_same c t db =
    elim (Option-cases
      (find (λ (r : DecisionRow). str_eq r.decision_id t.decision_id) db.decisions)) [
        | inl e ↦ (ground arith, ground arith)
        | inr (row, e) ↦ (ground arith, ground arith)
      ]

module _ (c : Codec) (f : FloatOps) (scorer : RiskScorer) (number : ℕ → String)
    (min_confidence : Float) where
  pub built_orchestrator-LedgerLaws :
      LedgerLaws (built_orchestrator c f scorer number min_confidence)
  unfolding sql_record
  built_orchestrator-LedgerLaws = record {
    keeps = λ t db.
        controls_same number f min_confidence db (sql_record c t db).1 (recorded_same c t db).0
          (recorded_same c t db).1;
    again = λ t db stored h. sql_record_again c t db h;
  }

  evaluate_events :
      (request : EvaluationRequest) (db : Db)
      → (evaluate (built_orchestrator c f scorer number min_confidence) request db).1.events
        ≡ db.events
  unfolding evaluate sql_record record_decision
  evaluate_events request db = ground arith

  -- An evaluation by the orchestrator that the container builds, event ingestion included,
  -- that returned, made again at any instant in the state it left, returns the same trace and
  -- changes no table.
  pub evaluate_request_again :
      (now now' : ℕ) (request : EvaluationRequest) (db : Db) {d : DecisionTrace}
      → (evaluate_request (built_orchestrator c f scorer number min_confidence) now request db).0
        ≡ ok d
      → evaluate_request
          (built_orchestrator c f scorer number min_confidence)
          now'
          request
          (evaluate_request (built_orchestrator c f scorer number min_confidence) now request db).1
        ≡ (
          ok d,
          (evaluate_request (built_orchestrator c f scorer number min_confidence) now request db).1,
        )
  unfolding evaluate_request
  evaluate_request_again now now' request db {d} h =
      let o = built_orchestrator c f scorer number min_confidence in
      elim (Result-cases (ingest c now request db).0) [
        | inr (k, t, e) ↦ absurd (ground arith)
        | inl (row, e) ↦
            let db1 = (ingest c now request db).1 in
            let db2 = (evaluate o request db1).1 in
            let found = ingested c now request db e in
            let events = evaluate_events request db1 in
            let again =
              ingest_found c now' request db2 row
                (ap (find (same_event request.event)) events ∙ found.0) found.1 in
            let repeat =
              evaluate_again o built_orchestrator-LedgerLaws request db1 d (ground arith) in
            ground arith
      ]
