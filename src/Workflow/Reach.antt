-- ===== src/Workflow/Reach.antt =====
-- The states that the services of src/promiseguard/workflow.py, ledger.py, evaluation.py and autonomy.py
-- reach from an empty database.
use mathlib.Core.Path.{subst}
use promiseguard_ai.Prelude.{
  ℕ, ◌≡◌, refl, sym, ◌∙◌, Bool, Option, none, some, arith, Option-cases, inl, inr,
}
use promiseguard_ai.Prelude.Text.{String}
use promiseguard_ai.Prelude.Exec.{Exec-cases}
use promiseguard_ai.Models.{
  ApprovalDecisionInput, DecisionTrace, DeliveryObservation, EvaluationRequest, PolicyDisposition,
}
use promiseguard_ai.Database.{session}
use promiseguard_ai.Persistence.{get_decision, get_request_payload, ingest}
use promiseguard_ai.Ledger.{sql_record}
use promiseguard_ai.Autonomy.History.{AutonomyCall, after_call, empty_db}
use promiseguard_ai.Approval.{request_approval}
use promiseguard_ai.Execution.{World}
use promiseguard_ai.Workflow.Frame.{session-Framed}
use promiseguard_ai.Workflow.Kept.{ingest-Framed}
use promiseguard_ai.Workflow.Controls.{after_call-Framed}
use promiseguard_ai.Workflow.Authority.{
  IsAuthorised, IsSound, Framed-IsSound, unchanged, get_decision_filed,
}
use promiseguard_ai.Workflow.Sound.{
  execute_decision-IsSound, reject-IsSound, request_approval-IsSound, sql_record-IsSound,
  verify-IsSound,
}
use promiseguard_ai.Workflow.Approve.{approve_and_execute-IsSound}
use promiseguard_ai.Workflow.{
  RecoveryWorkflowService, approve_and_execute, decision_of, execute_decision, reject, request_of,
  submit, submit_decision, verify,
}

-- One call of a service, whether it returns or raises.
pub data Step (r : RecoveryWorkflowService) : World → World → Type 0 where
  ingest_step :
      {w w' : World} (now : ℕ) (request : EvaluationRequest)
      → w' ≡ record w { db = (session (ingest r.codec now request) w.db).1 }
      → Step r w w'
  record_step :
      {w w' : World} (trace : DecisionTrace)
      → w' ≡ record w { db = (sql_record r.codec trace w.db).1 }
      → Step r w w'
  control_step :
      {w w' : World} (strict : Bool) (call : AutonomyCall)
      → w' ≡ record w { db = after_call strict call w.db }
      → Step r w w'
  submit_step :
      {w w' : World} (decision_id actor_id : String) (now : ℕ) (clock : ℕ → ℕ)
      → w' ≡ (submit r decision_id actor_id now clock w).1
      → Step r w w'
  approve_step :
      {w w' : World} (approval_id : String) (input : ApprovalDecisionInput) (now : ℕ)
      (clock : ℕ → ℕ)
      → w' ≡ (approve_and_execute r approval_id input now clock w).1
      → Step r w w'
  reject_step :
      {w w' : World} (approval_id : String) (input : ApprovalDecisionInput) (now : ℕ)
      → w' ≡ (reject r approval_id input now w).1
      → Step r w w'
  verify_step :
      {w w' : World} (decision_id : String) (observation : Option DeliveryObservation)
      (verified_at now : ℕ)
      → w' ≡ (verify r decision_id observation verified_at now w).1
      → Step r w w'

-- From an empty database, with the systems of record in any state.
pub data Reach (r : RecoveryWorkflowService) : World → Type 0 where
  start : {w : World} → w.db ≡ empty_db → Reach r w
  next : {w w' : World} → Reach r w → Step r w w' → Reach r w'

module _ (r : RecoveryWorkflowService) where
  auto_executed-IsSound :
      (d : DecisionTrace) (decision_id actor_id : String) (now : ℕ) (clock : ℕ → ℕ) (w : World)
      (request : EvaluationRequest)
      → d.policy.disposition ≡ PolicyDisposition.auto_execute
      → get_decision decision_id w.db ≡ some d
      → IsSound w.db
      → IsSound (execute_decision r decision_id request actor_id none now clock w).1.db
  auto_executed-IsSound d decision_id actor_id now clock w request auto found h =
      let own = get_decision_filed decision_id w.db h found in
      execute_decision-IsSound r decision_id request actor_id none now clock w h found
        (λ command c_id c_action c_by. record {
          decision = d;
          decided = subst (λ j. get_decision j w.db ≡ some d) (sym (c_id ∙ own)) found;
          selected = sym c_action;
          by = inl auto;
        })

  submit_decision-IsSound :
      (p : PolicyDisposition) (d : DecisionTrace) (decision_id actor_id : String) (now : ℕ)
      (clock : ℕ → ℕ) (w : World)
      → d.policy.disposition ≡ p
      → get_decision decision_id w.db ≡ some d
      → IsSound w.db
      → IsSound (submit_decision r p d decision_id actor_id now clock w).1.db
  unfolding submit_decision request_of
  submit_decision-IsSound PolicyDisposition.auto_execute d decision_id actor_id now clock w auto
        found h =
      let after =
        submit_decision r PolicyDisposition.auto_execute d decision_id actor_id now clock w in
      elim (Option-cases (get_request_payload d.event_id w.db)) [
        | inl unknown ↦ let same : w.db ≡ after.1.db = ground arith in subst IsSound same h
        | inr (request, known) ↦
            let run = execute_decision r decision_id request actor_id none now clock w in
            let kept =
              auto_executed-IsSound d decision_id actor_id now clock w request auto found h in
            elim (Exec-cases run) [
              | inl (x, w1, e) ↦
                  let same : run.1.db ≡ after.1.db = ground arith in subst IsSound same kept
              | inr (k, t, w1, e) ↦
                  let same : run.1.db ≡ after.1.db = ground arith in subst IsSound same kept
            ]
      ]
  submit_decision-IsSound PolicyDisposition.request_approval d decision_id actor_id now clock w
        asked found h =
      let after =
        submit_decision r PolicyDisposition.request_approval d decision_id actor_id now clock w in
      let run = request_approval r.approvals d actor_id now w.db in
      let kept = request_approval-IsSound r.approvals d actor_id now w.db h in
      elim (Exec-cases run) [
        | inl (x, db1, e) ↦ let same : run.1 ≡ after.1.db = ground arith in subst IsSound same kept
        | inr (k, t, db1, e) ↦
            let same : run.1 ≡ after.1.db = ground arith in subst IsSound same kept
      ]
  submit_decision-IsSound PolicyDisposition.escalate d decision_id actor_id now clock w p found h =
      h
  submit_decision-IsSound PolicyDisposition.block d decision_id actor_id now clock w p found h = h
  submit_decision-IsSound PolicyDisposition.take_no_action d decision_id actor_id now clock w p
        found h =
      h

  pub submit-IsSound :
      (decision_id actor_id : String) (now : ℕ) (clock : ℕ → ℕ) (w : World)
      → IsSound w.db
      → IsSound (submit r decision_id actor_id now clock w).1.db
  unfolding submit decision_of
  submit-IsSound decision_id actor_id now clock w h =
      elim (Option-cases (get_decision decision_id w.db)) [
        | inl missing ↦
            let same : w.db ≡ (submit r decision_id actor_id now clock w).1.db = ground arith in
            subst IsSound same h
        | inr (d, found) ↦
            let same : (submit_decision r d.policy.disposition d decision_id actor_id now clock
                  w).1.db
                ≡ (submit r decision_id actor_id now clock w).1.db =
              ground arith in
            subst IsSound same (
              submit_decision-IsSound d.policy.disposition d decision_id actor_id now clock w refl
                found h)
      ]

  Step-IsSound : {w w' : World} → Step r w w' → IsSound w.db → IsSound w'.db
  Step-IsSound (ingest_step {w} now request e) h =
      subst (λ (x : World). IsSound x.db) (sym e)
        (Framed-IsSound w.db _
          (session-Framed (IsAuthorised w.db) w.db.decisions w.db.approvals
            (ingest r.codec now request) w.db (unchanged w.db h)
            (ingest-Framed (IsAuthorised w.db) w.db.decisions w.db.approvals r.codec now request
              w.db (unchanged w.db h)))
          h)
  Step-IsSound (record_step {w} trace e) h =
      subst (λ (x : World). IsSound x.db) (sym e) (sql_record-IsSound r.codec trace w.db h)
  Step-IsSound (control_step {w} strict call e) h =
      subst (λ (x : World). IsSound x.db) (sym e)
        (Framed-IsSound w.db _
          (after_call-Framed (IsAuthorised w.db) w.db.decisions w.db.approvals strict call w.db
            (unchanged w.db h))
          h)
  Step-IsSound (submit_step {w} decision_id actor_id now clock e) h =
      subst (λ (x : World). IsSound x.db) (sym e)
        (submit-IsSound decision_id actor_id now clock w h)
  Step-IsSound (approve_step {w} i input now clock e) h =
      subst (λ (x : World). IsSound x.db) (sym e)
        (approve_and_execute-IsSound r i input now clock w h)
  Step-IsSound (reject_step {w} i input now e) h =
      subst (λ (x : World). IsSound x.db) (sym e) (reject-IsSound r i input now w h)
  Step-IsSound (verify_step {w} decision_id observation verified_at now e) h =
      subst (λ (x : World). IsSound x.db) (sym e)
        (verify-IsSound r decision_id observation verified_at now w h)

  -- In every state that ingestions, recordings, calls of the autonomy controls, submissions,
  -- approvals, rejections and verifications reach from an empty database, each recorded
  -- decision is filed under its own identifier, and the decision of each stored action is
  -- recorded, selected that action, and is AUTO_EXECUTE or has a stored approval of it that
  -- is approved by the actor whom the command names and who did not request it.
  pub every_action_IsAuthorised : {w : World} → Reach r w → IsSound w.db
  every_action_IsAuthorised (start e) =
      subst IsSound (sym e) (record { filed = tt; authorised = tt })
  every_action_IsAuthorised (next before step) =
      Step-IsSound step (every_action_IsAuthorised before)
