-- ===== src/Workflow/Sound.antt =====
-- The operations of src/promiseguard/workflow.py, ledger.py and approval.py keep every action
-- authorised.
use mathlib.Core.Path.{subst}
use promiseguard_ai.Prelude.{
  ℕ, ◌≡◌, ◌∙◌, refl, sym, ap, false, Option, some, [], ◌∷◌, ◌++◌, arith, All, All-append, find,
  find-append, Option-cases, inl, inr,
}
use promiseguard_ai.Prelude.Text.{String, str_eq}
use promiseguard_ai.Prelude.Exec.{Exec-cases}
use promiseguard_ai.Models.{
  ActionCommand, ApprovalDecisionInput, ApprovalRecord, ApprovalStatus, DecisionTrace,
  DeliveryObservation, EvaluationRequest,
}
use promiseguard_ai.Codec.{Codec}
use promiseguard_ai.Database.{Db, DecisionRow}
use promiseguard_ai.Persistence.{
  action_by_decision, decision_row, get_decision, get_request_payload, record_decision,
}
use promiseguard_ai.Persistence.Approvals.{get_approval, is_pending}
use promiseguard_ai.Ledger.{sql_record}
use promiseguard_ai.Approval.{ApprovalService, decide, request_approval}
use promiseguard_ai.Approval as Approval
use promiseguard_ai.Approval.Closed.{decide-keeps, request-keeps}
use promiseguard_ai.Approval.Frame.{Same, decide-Same, request_approval-Same}
use promiseguard_ai.Execution.{World, execute}
use promiseguard_ai.Verification.{option_of}
use promiseguard_ai.Verification as Verification
use promiseguard_ai.Workflow.Frame.{execute-Framed}
use promiseguard_ai.Workflow.Kept.{verify-Framed}
use promiseguard_ai.Workflow.Authority.{
  IsAuthorised, IsSound, IsSound-stays, Framed-IsSound, unchanged, get_approval-same,
  get_decision-same,
}
use promiseguard_ai.Workflow.{
  RecoveryWorkflowService, command_for_decision, command_of, decision_of, execute_decision,
  parameters_of, reject, request_of, verify,
}

-- A step that changes only approvals, and none that is decided.
approvals-IsSound :
    (a b : Db)
    → Same b a
    → ((i : String) (x : ApprovalRecord)
        → get_approval i a ≡ some x
        → is_pending x ≡ false
        → get_approval i b ≡ some x)
    → IsSound a
    → IsSound b
approvals-IsSound a b (approvals, e) stay h =
    let decisions_same : b.decisions ≡ a.decisions = ap (λ (d : Db). d.decisions) e in
    IsSound-stays a b (λ i d found. get_decision-same i a b decisions_same ∙ found) stay
      (ap (λ (d : Db). d.actions) e)
      (subst (All (λ (r : DecisionRow). r.trace.decision_id ≡ r.decision_id)) (sym decisions_same)
        h.filed)
      h

pub decide-IsSound :
    (s : ApprovalService) (target : ApprovalStatus) (i : String) (input : ApprovalDecisionInput)
    (now : ℕ) (db : Db)
    → IsSound db
    → IsSound (decide s target i input now db).1
decide-IsSound s target i input now db h =
    approvals-IsSound db (decide s target i input now db).1 (decide-Same s target i input now db)
      (λ j x found over. decide-keeps s target i j input now db found over) h

pub request_approval-IsSound :
    (s : ApprovalService) (d : DecisionTrace) (who : String) (now : ℕ) (db : Db)
    → IsSound db
    → IsSound (request_approval s d who now db).1
request_approval-IsSound s d who now db h =
    approvals-IsSound db (request_approval s d who now db).1 (request_approval-Same s d who now db)
      (λ j x found over. request-keeps s d who now j db found) h

get_decision-append :
    (i : String) (row : DecisionRow) (db : Db) {d : DecisionTrace}
    → get_decision i db ≡ some d
    → get_decision i (record db { decisions = db.decisions ++ row ∷ [] }) ≡ some d
unfolding get_decision
get_decision-append i row db h =
    ground (arith, find-append (λ (r : DecisionRow). str_eq r.decision_id i) db.decisions row)

pub sql_record-IsSound :
    (c : Codec) (trace : DecisionTrace) (db : Db) → IsSound db → IsSound (sql_record c trace db).1
unfolding sql_record record_decision
sql_record-IsSound c trace db h =
    elim (Option-cases
      (find (λ (r : DecisionRow). str_eq r.decision_id trace.decision_id) db.decisions)) [
        | inr (row, known) ↦
            let same : db ≡ (sql_record c trace db).1 = ground arith in subst IsSound same h
        | inl fresh ↦
            let db' : Db = record db { decisions = db.decisions ++ decision_row c trace ∷ [] } in
            let wrote : db' ≡ (sql_record c trace db).1 = ground arith in
            subst IsSound wrote (
              IsSound-stays db db'
                (λ i d found. get_decision-append i (decision_row c trace) db found)
                (λ i x found over. get_approval-same i db db' refl ∙ found) refl
                (All-append (λ (r : DecisionRow). r.trace.decision_id ≡ r.decision_id) db.decisions
                  (decision_row c trace) h.filed refl)
                h)
      ]

module _ (r : RecoveryWorkflowService) where
  pub execute_decision-IsSound :
      (decision_id : String) (request : EvaluationRequest) (actor_id : String)
      (approved_by : Option String) (now : ℕ) (clock : ℕ → ℕ) (w : World) {d : DecisionTrace}
      → IsSound w.db
      → get_decision decision_id w.db ≡ some d
      → ((command : ActionCommand)
          → command.decision_id ≡ d.decision_id
          → command.action ≡ d.recommendation.selected_action
          → command.approved_by ≡ approved_by
          → IsAuthorised w.db command)
      → IsSound (execute_decision r decision_id request actor_id approved_by now clock w).1.db
  unfolding execute_decision command_for_decision decision_of
  execute_decision-IsSound decision_id request actor_id approved_by now clock w {d} h found may =
      let action = d.recommendation.selected_action in
      elim (Option-cases (option_of action d)) [
        | inl missing ↦
            let same : w.db
                ≡ (execute_decision r decision_id request actor_id approved_by now clock w).1.db =
              ground arith in
            subst IsSound same h
        | inr (selected, chosen) ↦ elim (Option-cases (parameters_of action request.order)) [
          | inl inert ↦
              let same : w.db
                  ≡ (execute_decision r decision_id request actor_id approved_by now clock w).1.db =
                ground arith in
              subst IsSound same h
          | inr (parameters, given) ↦
              let command =
                command_of r.codec d request actor_id approved_by selected.intervention_cost
                  parameters in
              let runs : (execute r.actions command request.order now clock w).1.db
                  ≡ (execute_decision r decision_id request actor_id approved_by now clock w).1.db =
                ground arith in
              subst IsSound runs (
                Framed-IsSound w.db _
                  (execute-Framed (IsAuthorised w.db) w.db.decisions w.db.approvals r.actions
                    command request.order now clock w (may command refl refl refl)
                    (unchanged w.db h))
                  h)
        ]
      ]

  pub reject-IsSound :
      (approval_id : String) (input : ApprovalDecisionInput) (now : ℕ) (w : World)
      → IsSound w.db
      → IsSound (reject r approval_id input now w).1.db
  unfolding reject decision_of Approval.reject
  reject-IsSound approval_id input now w h =
      let kept = decide-IsSound r.approvals ApprovalStatus.rejected approval_id input now w.db h in
      elim (Exec-cases (decide r.approvals ApprovalStatus.rejected approval_id input now w.db)) [
        | inr (k, t, db1, e) ↦
            let same : (decide r.approvals ApprovalStatus.rejected approval_id input now w.db).1
                ≡ (reject r approval_id input now w).1.db =
              ground arith in
            subst IsSound same kept
        | inl (x, db1, e) ↦ elim (Option-cases (get_decision x.decision_id db1)) [
          | inl missing ↦
              let same : (decide r.approvals ApprovalStatus.rejected approval_id input now w.db).1
                  ≡ (reject r approval_id input now w).1.db =
                ground arith in
              subst IsSound same kept
          | inr (d, found) ↦
              let same : (decide r.approvals ApprovalStatus.rejected approval_id input now w.db).1
                  ≡ (reject r approval_id input now w).1.db =
                ground arith in
              subst IsSound same kept
        ]
      ]

  pub verify-IsSound :
      (decision_id : String) (observation : Option DeliveryObservation) (verified_at now : ℕ)
      (w : World)
      → IsSound w.db
      → IsSound (verify r decision_id observation verified_at now w).1.db
  unfolding verify decision_of request_of
  verify-IsSound decision_id observation verified_at now w h =
      let unread = λ (same : w.db ≡ (verify r decision_id observation verified_at now w).1.db).
        subst IsSound same h in
      elim (Option-cases (get_decision decision_id w.db)) [
        | inl missing ↦ unread (ground arith)
        | inr (d, found) ↦ elim (Option-cases (action_by_decision decision_id w.db)) [
          | inl none_yet ↦ unread (ground arith)
          | inr (x, acted) ↦ elim (Option-cases (get_request_payload d.event_id w.db)) [
            | inl unknown ↦ unread (ground arith)
            | inr (request, known) ↦
                let run =
                  Verification.verify r.verification d x request.order observation verified_at now
                    w in
                let kept =
                  Framed-IsSound w.db run.1.db
                    (verify-Framed (IsAuthorised w.db) w.db.decisions w.db.approvals r.verification
                      d x request.order observation verified_at now w (unchanged w.db h))
                    h in
                elim (Exec-cases run) [
                  | inl (o, w1, e) ↦
                      let same : run.1.db
                          ≡ (verify r decision_id observation verified_at now w).1.db =
                        ground arith in
                      subst IsSound same kept
                  | inr (k, t, w1, e) ↦
                      let same : run.1.db
                          ≡ (verify r decision_id observation verified_at now w).1.db =
                        ground arith in
                      subst IsSound same kept
                ]
          ]
        ]
      ]
