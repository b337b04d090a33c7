-- ===== src/Workflow/Delivers.antt =====
-- An approval of src/promiseguard/workflow.py that is given in time.
use mathlib.Core.Path.{subst}
use promiseguard_ai.Prelude.{
  ℕ, ◌≡◌, ◌≢◌, ◌≤◌, ◌⊎◌, refl, sym, ◌∙◌, ap, true, false, Option, none, some, List, [], ◌∷◌,
  Option-cases, arith, find, All, inl, inr,
}
use promiseguard_ai.Prelude.Text.{String, str_eq}
use promiseguard_ai.Prelude.Exec.{ok, Exec-cases}
use promiseguard_ai.Models.{
  ActionCommand, ActionExecution, ActionParameters, ActionStatus, ApprovalDecisionInput,
  ApprovalRecord, ApprovalStatus, DecisionTrace, EvaluationRequest, RecoveryOption, UserRole,
  is_action, is_approval_status, is_role,
}
use promiseguard_ai.Database.{ActionRow, Db}
use promiseguard_ai.Identity.{bind_claimed_role}
use promiseguard_ai.Persistence.{action_by_decision, get_decision, get_request_payload}
use promiseguard_ai.Persistence.Approvals.{get_approval, is_pending}
use promiseguard_ai.Approval.{approve, decide, decided_record, may_not_decide}
use promiseguard_ai.Approval.Decided.{decide_timely}
use promiseguard_ai.Approval.Frame.{Same, decide-Same}
use promiseguard_ai.Autonomy.{kill_switch}
use promiseguard_ai.Execution.{ActionGateway, World, check_kill_switch, execute, executing_of}
use promiseguard_ai.Execution.Fresh.{execute_ends}
use promiseguard_ai.Verification.{option_of}
use promiseguard_ai.Workflow.Frame.{execute-Framed}
use promiseguard_ai.Workflow.Authority.{get_decision-same, get_approval-same}
use promiseguard_ai.Workflow.Review.{review-keeps}
use promiseguard_ai.Workflow.{
  RecoveryWorkflowService, approve_and_execute, assert_approval_authority, command_for_decision,
  command_of, decision_of, execute_decision, parameters_of, request_of, review,
}

-- How an execution that is over has ended.
abbrev pub HasEnded : ActionExecution → Type 0
HasEnded x =
    (x.status ≡ ActionStatus.succeeded)
    ⊎ (x.status ≡ ActionStatus.compensated)
    ⊎ (x.status ≡ ActionStatus.failed)

-- What the gateway must find for a command to be new to it.
pub record IsNew (g : ActionGateway) (command : ActionCommand) (now : ℕ) (db : Db) : Type 0 where
  pub alive : (check_kill_switch g db).0 ≡ ok tt
  pub no_decision : action_by_decision command.decision_id db ≡ none
  pub no_key :
      find (λ (r : ActionRow). str_eq r.idempotency_key command.idempotency_key) db.actions ≡ none
  pub no_id :
      find (λ (r : ActionRow). str_eq r.action_id (executing_of g command now).action_id) db.actions
      ≡ none

check_kill_switch-same :
    (g : ActionGateway) (a b : Db)
    → b.kill_switch ≡ a.kill_switch
    → (check_kill_switch g b).0 ≡ (check_kill_switch g a).0
unfolding check_kill_switch kill_switch
check_kill_switch-same g a b same = elim (Option-cases a.kill_switch) [
  | inl missing ↦ ground arith
  | inr (row, found) ↦ ground arith
]

IsNew-Same :
    (g : ActionGateway) (command : ActionCommand) (now : ℕ) (a b : Db)
    → Same b a
    → IsNew g command now a
    → IsNew g command now b
unfolding action_by_decision
IsNew-Same g command now a b (approvals, e) h = rw e (record {
  alive = check_kill_switch-same g a (record a { approvals = approvals }) refl ∙ h.alive;
  no_decision = h.no_decision;
  no_key = h.no_key;
  no_id = h.no_id;
})

All-tt : {R : Type 0} (rows : List R) → All (λ x. Unit {0}) rows
All-tt [] = tt
All-tt (x ∷ rows) = (tt, All-tt rows)

module _ (r : RecoveryWorkflowService) where
  review_returns :
      (i : String) (input : ApprovalDecisionInput) (w : World) {pending : ApprovalRecord}
      {d : DecisionTrace} {request : EvaluationRequest}
      → get_approval i w.db ≡ some pending
      → get_decision pending.decision_id w.db ≡ some d
      → is_action pending.requested_action d.recommendation.selected_action ≡ true
      → get_request_payload d.event_id w.db ≡ some request
      → is_role input.actor_role UserRole.operations_analyst ≡ false
      → (review r i input w).0 ≡ ok (d, request)
  unfolding review decision_of request_of assert_approval_authority
  review_returns i input w found filed matches known manager = ground arith

  execute_decision-runs :
      (decision_id : String) (request : EvaluationRequest) (actor_id : String)
      (approved_by : Option String) (now : ℕ) (clock : ℕ → ℕ) (w : World) {d : DecisionTrace}
      {selected : RecoveryOption} {parameters : ActionParameters}
      → get_decision decision_id w.db ≡ some d
      → option_of d.recommendation.selected_action d ≡ some selected
      → parameters_of d.recommendation.selected_action request.order ≡ some parameters
      → execute_decision r decision_id request actor_id approved_by now clock w
        ≡ execute r.actions
            (command_of r.codec d request actor_id approved_by selected.intervention_cost
              parameters)
            request.order
            now
            clock
            w
  unfolding execute_decision command_for_decision decision_of
  execute_decision-runs decision_id request actor_id approved_by now clock w filed chosen given =
      ground arith

  approve_and_execute-runs :
      (i : String) (input : ApprovalDecisionInput) (now : ℕ) (clock : ℕ → ℕ) (w : World)
      (d : DecisionTrace) (request : EvaluationRequest) (a : ApprovalRecord) (db1 : Db)
      → (review r i input w).0 ≡ ok (d, request)
      → decide r.approvals ApprovalStatus.approved i input now w.db ≡ (ok a, db1)
      → is_approval_status a.status ApprovalStatus.approved ≡ true
      → (approve_and_execute r i input now clock w).1
        ≡ (execute_decision r d.decision_id request a.requested_by a.decided_by now clock
            (record w { db = db1 })).1
  unfolding approve_and_execute approve
  approve_and_execute-runs i input now clock w d request a db1 reviewed decided status =
      let kept = review-keeps r i input w in
      let run =
        execute_decision r d.decision_id request a.requested_by a.decided_by now clock
          (record w { db = db1 }) in
      elim (Exec-cases run) [ inl (x, w3, ran) ↦ ground arith | inr (k, t, w3, ran) ↦ ground arith ]

  module _ (i : String) (input : ApprovalDecisionInput) (now : ℕ) (clock : ℕ → ℕ) (w : World)
      {pending : ApprovalRecord} {d : DecisionTrace} {request : EvaluationRequest}
      {selected : RecoveryOption} {parameters : ActionParameters} {role : UserRole}
      (found : get_approval i w.db ≡ some pending) (is_open : is_pending pending ≡ true)
      (filed : get_decision pending.decision_id w.db ≡ some d)
      (own : d.decision_id ≡ pending.decision_id)
      (matches : is_action pending.requested_action d.recommendation.selected_action ≡ true)
      (known : get_request_payload d.event_id w.db ≡ some request)
      (chosen : option_of d.recommendation.selected_action d ≡ some selected)
      (given : parameters_of d.recommendation.selected_action request.order ≡ some parameters)
      (may : may_not_decide input.actor_role ≡ false)
      (manager : is_role input.actor_role UserRole.operations_analyst ≡ false)
      (bound : bind_claimed_role r.approvals.strict input.actor_id input.actor_role ≡ ok role)
      (other : pending.requested_by ≢ input.actor_id) (timely : now ≤ pending.expires_at)
      (new : IsNew r.actions
        (command_of r.codec d request pending.requested_by
          (some input.actor_id)
          selected.intervention_cost
          parameters)
        now
        w.db) where
    -- Where a pending approval has not expired, the decision stored for it carries the
    -- approval's decision identifier, selects the very action that the approval requests,
    -- has that action among its options and the order has the parameters to execute it, its
    -- event is stored, the actor is not the requester, may decide, is no analyst and can be
    -- bound to the claimed role, the kill switch does not stop it and the command is new to
    -- the gateway, an approval with execution stores the approval as approved, and stores
    -- an execution of the selected action, approved by the actor, that has succeeded, was
    -- compensated or has failed.
    pub approve_and_execute_delivers :
        (get_approval i (approve_and_execute r i input now clock w).1.db
          ≡ some (decided_record ApprovalStatus.approved input now pending))
        × ((x : ActionExecution) × (action_by_decision d.decision_id
                (approve_and_execute r i input now clock w).1.db
              ≡ some x)
            × (x.command.action ≡ d.recommendation.selected_action)
            × (x.command.approved_by ≡ some input.actor_id)
            × HasEnded x)
    approve_and_execute_delivers =
        let decide_now = decide r.approvals ApprovalStatus.approved i input now w.db in
        let a = decided_record ApprovalStatus.approved input now pending in
        let w1 : World = record w { db = decide_now.1 } in
        let (done0, stored) =
          decide_timely r.approvals ApprovalStatus.approved i input now w.db found is_open may bound
            other timely in
        let decided : decide_now ≡ (ok a, decide_now.1) = λ j. (done0 j, decide_now.1) in
        let reviewed = review_returns i input w found filed matches known manager in
        let runs =
          approve_and_execute-runs i input now clock w d request a decide_now.1 reviewed decided
            refl in
        let (approvals, is_db1) =
          decide-Same r.approvals ApprovalStatus.approved i input now w.db in
        let still : get_decision d.decision_id w1.db ≡ some d =
          get_decision-same d.decision_id w.db w1.db (ap (λ (q : Db). q.decisions) is_db1)
          ∙ subst (λ j. get_decision j w.db ≡ some d) (sym own) filed in
        let runs1 =
          execute_decision-runs d.decision_id request a.requested_by a.decided_by now clock w1 still
            chosen given in
        let command =
          command_of r.codec d request pending.requested_by (some input.actor_id)
            selected.intervention_cost parameters in
        let ran : (approve_and_execute r i input now clock w).1
            ≡ (execute r.actions command request.order now clock w1).1 =
          runs ∙ ap (λ p. p.1) runs1 in
        let fresh = IsNew-Same r.actions command now w.db w1.db (approvals, is_db1) new in
        let (x, placed, is_command, over) =
          execute_ends r.actions command request.order now clock w1 fresh.alive fresh.no_decision
            fresh.no_key fresh.no_id in
        let framed =
          execute-Framed (λ c. Unit {0}) w1.db.decisions w1.db.approvals r.actions command
            request.order now clock w1 tt
            (record { decisions = refl; approvals = refl; actions = All-tt w1.db.actions }) in
        (
          subst (λ (v : World). get_approval i v.db ≡ some a) (sym ran)
              (get_approval-same i w1.db (execute r.actions command request.order now clock w1).1.db
                  framed.approvals
                ∙ stored),
          (
            x,
            subst (λ (v : World). action_by_decision d.decision_id v.db ≡ some x) (sym ran) placed,
            ap (λ (c : ActionCommand). c.action) is_command,
            ap (λ (c : ActionCommand). c.approved_by) is_command,
            over,
          ),
        )
