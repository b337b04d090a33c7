-- ===== src/Workflow/Kept.antt =====
-- What verifications, controls and evaluations (src/promiseguard/verification.py, autonomy.py and
-- evaluation.py) keep of the decisions, approvals and actions.
use promiseguard_ai.Prelude.{
  ℕ, ap, any, Option, List, [], ◌∷◌, ◌++◌, arith, find, Option-cases, Bool-cases, inl, inr,
}
use promiseguard_ai.Prelude.Text.{str_eq}
use promiseguard_ai.Prelude.Exec.{Exec-cases}
use promiseguard_ai.Models.{
  ActionCommand, ActionExecution, ApprovalRecord, DecisionTrace, DeliveryObservation,
  EvaluationRequest, OrderContext, OutcomeVerification, RecoveryAction,
}
use promiseguard_ai.Codec.{Codec}
use promiseguard_ai.Database.{Db, DecisionRow, OutcomeRow, session}
use promiseguard_ai.Persistence.{ingest, same_event, event_row}
use promiseguard_ai.Persistence.Outcomes.{of_decision, outcome_row, record_outcome}
use promiseguard_ai.Autonomy as Autonomy
use promiseguard_ai.Autonomy.{
  bootstrap, bootstrap_profile, find_profile, record_execution, set_kill_switch, set_profile,
  set_profile_block, Evidence, record_evidence, write_profile, levelled,
}
use promiseguard_ai.Autonomy.Frame.{record_outcome-Same}
use promiseguard_ai.Execution.{World}
use promiseguard_ai.Verification.{
  OutcomeVerificationService, verify, persist, observe, option_of, outcome_of,
}
use promiseguard_ai.Verification.Status.{checked}
use promiseguard_ai.Workflow.Frame.{Framed, moved, Same-Framed, session-Framed}

module _ (P : ActionCommand → Type 0) (ds : List DecisionRow) (as' : List ApprovalRecord) where
  record_outcome-Framed :
      (c : Codec) (o : OutcomeVerification) (db : Db)
      → Framed P ds as' db
      → Framed P ds as' (record_outcome c o db).1
  unfolding record_outcome
  record_outcome-Framed c o db h =
      elim (Option-cases (find (of_decision o.decision_id) db.outcomes)) [
        | inr (row, found) ↦ moved P ds as' db (record_outcome c o db).1 (ground arith) h
        | inl fresh ↦
            elim (Bool-cases
              (any (λ (r : OutcomeRow). str_eq r.outcome.outcome_id o.outcome_id) db.outcomes)) [
                | inl clash ↦ moved P ds as' db (record_outcome c o db).1 (ground arith) h
                | inr free ↦
                    moved P ds as' (record db { outcomes = db.outcomes ++ outcome_row c o ∷ [] })
                      (record_outcome c o db).1 (ground arith)
                      (record {
                        decisions = h.decisions;
                        approvals = h.approvals;
                        actions = h.actions;
                      })
              ]
      ]

  persist-Framed :
      (v : OutcomeVerificationService) (action : RecoveryAction) (o : OutcomeVerification) (now : ℕ)
      (w : World)
      → Framed P ds as' w.db
      → Framed P ds as' (persist v action o now w).1.db
  unfolding persist
  persist-Framed v action o now w h =
      let stored =
        session-Framed P ds as' (record_outcome v.codec o) w.db h
          (record_outcome-Framed v.codec o w.db h) in
      let s = session (record_outcome v.codec o) w.db in
      elim (Exec-cases (session (record_outcome v.codec o) w.db)) [
        | inr (k, t, db1, e) ↦
            moved P ds as' (session (record_outcome v.codec o) w.db).1
              (persist v action o now w).1.db (ground arith) stored
        | inl (x, db1, e) ↦ elim (Bool-cases v.governed) [
          | inr free ↦
              moved P ds as' (session (record_outcome v.codec o) w.db).1
                (persist v action o now w).1.db (ground arith) stored
          | inl governed ↦
              let kept = Same-Framed P ds as' _ db1 (record_outcome-Same x action now db1) (
                moved P ds as' (session (record_outcome v.codec o) w.db).1 db1 (ap (λ p. p.1) e)
                  stored) in
              elim (Exec-cases (Autonomy.record_outcome x action now db1)) [
                | inl (p, db2, r) ↦
                    moved P ds as' (Autonomy.record_outcome x action now db1).1
                      (persist v action o now w).1.db (ground arith) kept
                | inr (k, t, db2, r) ↦
                    moved P ds as' (Autonomy.record_outcome x action now db1).1
                      (persist v action o now w).1.db (ground arith) kept
              ]
        ]
      ]

  pub verify-Framed :
      (v : OutcomeVerificationService) (decision : DecisionTrace) (execution : ActionExecution)
      (order : OrderContext) (observation : Option DeliveryObservation) (verified_at now : ℕ)
      (w : World)
      → Framed P ds as' w.db
      → Framed P ds as' (verify v decision execution order observation verified_at now w).1.db
  unfolding verify
  verify-Framed v decision execution order observation verified_at now w h =
      let s = checked v decision execution order observation verified_at now w in
      elim (Exec-cases (observe order observation w.sandbox)) [
        | inr (k, t, s1, e) ↦
            moved P ds as' w.db
              (verify v decision execution order observation verified_at now w).1.db (ground arith)
              h
        | inl (u, s1, e) ↦ elim (Option-cases (option_of execution.command.action decision)) [
          | inl missing ↦
              moved P ds as' w.db
                (verify v decision execution order observation verified_at now w).1.db
                (ground arith) h
          | inr (selected, found) ↦
              let o =
                outcome_of v.codec decision execution order observation verified_at selected s in
              let w1 : World = record w { sandbox = s } in
              moved P ds as' (persist v execution.command.action o now w1).1.db
                (verify v decision execution order observation verified_at now w).1.db
                (ground arith) (persist-Framed v execution.command.action o now w1 h)
        ]
      ]

  pub ingest-Framed :
      (c : Codec) (now : ℕ) (request : EvaluationRequest) (db : Db)
      → Framed P ds as' db
      → Framed P ds as' (ingest c now request db).1
  unfolding ingest
  ingest-Framed c now request db h =
      elim (Option-cases (find (same_event request.event) db.events)) [
        | inr (row, found) ↦ moved P ds as' db (ingest c now request db).1 (ground arith) h
        | inl fresh ↦
            moved P ds as' (record db { events = db.events ++ event_row c now request ∷ [] })
              (ingest c now request db).1 (ground arith)
              (record { decisions = h.decisions; approvals = h.approvals; actions = h.actions })
      ]
