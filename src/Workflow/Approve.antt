-- ===== src/Workflow/Approve.antt =====
-- `approve_and_execute` and `submit` of src/promiseguard/workflow.py.
use mathlib.Core.Path.{subst}
use promiseguard_ai.Prelude.{
  ℕ, ◌≡◌, ◌≢◌, ◌≤◌, ◌<◌, ◌⊎◌, refl, sym, ◌∙◌, ap, true, false, some, arith, is_some, Option-cases,
  Bool-cases, inl, inr,
}
use promiseguard_ai.Prelude.Text.{String}
use promiseguard_ai.Prelude.Exec.{
  ok, err, Exec-cases, ErrorKind, workflow_error, stop_iteration, approval_error,
}
use promiseguard_ai.Models.{
  ActionExecution, ApprovalDecisionInput, ApprovalRecord, ApprovalStatus, DecisionTrace,
  EvaluationRequest, RecoveryOption, UserRole, WorkflowState, is_action, is_approval_status,
  is_role,
}
use promiseguard_ai.Database.{Db}
use promiseguard_ai.Persistence.{get_decision, get_request_payload}
use promiseguard_ai.Persistence.Approvals.{get_approval, is_pending}
use promiseguard_ai.Approval.{approve, decide, decided_record, may_not_decide}
use promiseguard_ai.Approval.Decided.{decide_checks}
use promiseguard_ai.Approval.Frame.{decide-Same}
use promiseguard_ai.Execution.{World}
use promiseguard_ai.Verification.{option_of}
use promiseguard_ai.Workflow.Review.{IsDelegated, review-keeps, review_ok}
use promiseguard_ai.Workflow.Authority.{IsSound, get_decision_filed, is_action→≡, get_decision-same}
use promiseguard_ai.Workflow.Sound.{decide-IsSound, execute_decision-IsSound}
use promiseguard_ai.Workflow.{
  RecoveryWorkflowService, analyst_cost_limit, approve_and_execute, assert_approval_authority,
  decision_of, request_of, execute_decision, only_decision, review,
}

module _ (r : RecoveryWorkflowService) (i : String) (input : ApprovalDecisionInput) (now : ℕ)
    (clock : ℕ → ℕ) (w : World) where
  -- The three ways in which the method goes.
  pub approve_and_execute-cases :
      ((k : ErrorKind) × (t : String) × (approve_and_execute r i input now clock w ≡ (err k t, w))
        × ((d : DecisionTrace) (request : EvaluationRequest)
            → (review r i input w).0 ≢ ok (d, request)))
      ⊎ ((k : ErrorKind) × (t : String) × (db1 : Db) × (decide r.approvals ApprovalStatus.approved i
              input now w.db
            ≡ (err k t, db1))
          × (approve_and_execute r i input now clock w ≡ (err k t, record w { db = db1 })))
      ⊎ ((d : DecisionTrace) × (request : EvaluationRequest) × (a : ApprovalRecord) × (db1 : Db)
          × ((review r i input w).0 ≡ ok (d, request))
          × (decide r.approvals ApprovalStatus.approved i input now w.db ≡ (ok a, db1))
          × ((approve_and_execute r i input now clock w).1
              ≡ (execute_decision r d.decision_id request a.requested_by a.decided_by now clock
                  (record w { db = db1 })).1)
          × ((state : WorkflowState)
              → (approve_and_execute r i input now clock w).0 ≡ ok state
              → (x : ActionExecution) × ((execute_decision r d.decision_id request a.requested_by
                    a.decided_by now clock
                    (record w { db = db1 })).0
                  ≡ ok x)
                × (state ≡ record (only_decision d) { approval = some a; execution = some x })))
  unfolding approve_and_execute approve
  approve_and_execute-cases =
      let kept = review-keeps r i input w in
      elim (Exec-cases (review r i input w)) [
        | inr (k, t, w1, e) ↦ inl (k, t, ground arith, λ d request f. ground arith)
        | inl (p, w1, e) ↦
            elim (Exec-cases (decide r.approvals ApprovalStatus.approved i input now w.db)) [
              | inr (k, t, db1, raised) ↦ inr (inl (k, t, db1, raised, ground arith))
              | inl (a, db1, decided) ↦
                  let (pending, found, is_open, may, apart, timely, is_a, stored) =
                    decide_checks r.approvals ApprovalStatus.approved i input now w.db decided in
                  let status : is_approval_status a.status ApprovalStatus.approved ≡ true =
                    rw is_a refl in
                  let w2 : World = record w { db = db1 } in
                  let run =
                    execute_decision r p.0.decision_id p.1 a.requested_by a.decided_by now clock
                      w2 in
                  elim (Exec-cases run) [
                    | inl (x, w3, ran) ↦ inr (
                        inr (
                          p.0,
                          p.1,
                          a,
                          db1,
                          ap (λ q. q.0) e,
                          decided,
                          ground arith,
                          λ state h. (x, ground arith, ground arith),
                        ))
                    | inr (k, t, w3, ran) ↦ inr (
                        inr (
                          p.0,
                          p.1,
                          a,
                          db1,
                          ap (λ q. q.0) e,
                          decided,
                          ground arith,
                          λ state h. absurd (ground arith),
                        ))
                  ]
            ]
      ]

  -- An approval with execution that returns is of a stored pending approval that has not
  -- expired, whose decision is recorded and selected the requested action, by an actor other
  -- than the requester whose role may decide; if the actor is an analyst, the product is not
  -- restricted and the option costs at most the delegated limit. The state it returns has the
  -- approval with the decision and an execution.
  pub approve_and_execute_checks :
      {state : WorkflowState} {w' : World}
      → approve_and_execute r i input now clock w ≡ (ok state, w')
      → (pending : ApprovalRecord) × (request : EvaluationRequest) × (get_approval i w.db
          ≡ some pending)
        × (is_pending pending ≡ true)
        × (get_decision pending.decision_id w.db ≡ some state.decision)
        × (pending.requested_action ≡ state.decision.recommendation.selected_action)
        × (get_request_payload state.decision.event_id w.db ≡ some request)
        × (may_not_decide input.actor_role ≡ false)
        × ((is_role input.actor_role UserRole.operations_analyst ≡ false)
            ⊎ IsDelegated state.decision request)
        × (pending.requested_by ≢ input.actor_id)
        × (now ≤ pending.expires_at)
        × (state.approval ≡ some (decided_record ApprovalStatus.approved input now pending))
        × (is_some state.execution ≡ true)
  approve_and_execute_checks {state} {w'} h = elim approve_and_execute-cases [
    | inl (k, t, e, other) ↦ absurd (ground arith)
    | inr (inl (k, t, db1, raised, e)) ↦ absurd (ground arith)
    | inr (inr (d, request, a, db1, reviewed, decided, runs, result)) ↦
        let (pending, found, filed, matches, known, authority) = review_ok r i input w reviewed in
        let (pending', found', is_open, may, apart, timely, is_a, stored) =
          decide_checks r.approvals ApprovalStatus.approved i input now w.db decided in
        let (x, ran, is_state) = result state (ap (λ p. p.0) h) in
        let same : pending' ≡ pending = ground arith in
        let d_is : d ≡ state.decision = sym (ap (λ (s : WorkflowState). s.decision) is_state) in
        (
          pending,
          request,
          found,
          subst (λ (p : ApprovalRecord). is_pending p ≡ true) same is_open,
          filed ∙ ap some d_is,
          is_action→≡ _ _ matches
              ∙ ap (λ (x : DecisionTrace). x.recommendation.selected_action) d_is,
          subst (λ (x : DecisionTrace). get_request_payload x.event_id w.db ≡ some request) d_is
              known,
          may,
          subst
              (λ (x : DecisionTrace).
                (is_role input.actor_role UserRole.operations_analyst ≡ false)
                ⊎ IsDelegated x request)
              d_is authority,
          subst (λ (p : ApprovalRecord). p.requested_by ≢ input.actor_id) same apart,
          subst (λ (p : ApprovalRecord). now ≤ p.expires_at) same timely,
          ap (λ (s : WorkflowState). s.approval) is_state
              ∙ ap some (is_a ∙ ap (decided_record ApprovalStatus.approved input now) same),
          ap (λ (s : WorkflowState). is_some s.execution) is_state,
        )
  ]

  pub approve_and_execute-IsSound :
      IsSound w.db → IsSound (approve_and_execute r i input now clock w).1.db
  approve_and_execute-IsSound h =
      let kept = decide-IsSound r.approvals ApprovalStatus.approved i input now w.db h in
      elim approve_and_execute-cases [
        | inl (k, t, e, other) ↦ subst (λ (x : World). IsSound x.db) (sym (ap (λ p. p.1) e)) h
        | inr (inl (k, t, db1, raised, e)) ↦
            subst (λ (x : World). IsSound x.db) (sym (ap (λ p. p.1) e))
              (subst IsSound (ap (λ p. p.1) raised) kept)
        | inr (inr (d, request, a, db1, reviewed, decided, runs, result)) ↦
            let (pending, found, filed, matches, known, authority) =
              review_ok r i input w reviewed in
            let (pending', found', is_open, may, apart, timely, is_a, stored) =
              decide_checks r.approvals ApprovalStatus.approved i input now w.db decided in
            let same : pending' ≡ pending = ground arith in
            let sound1 : IsSound db1 = subst IsSound (ap (λ p. p.1) decided) kept in
            let own = get_decision_filed pending.decision_id w.db h filed in
            let (as', is_db1) = decide-Same r.approvals ApprovalStatus.approved i input now w.db in
            let decisions_same : db1.decisions ≡ w.db.decisions =
              ap (λ (q : Db). q.decisions) (sym (ap (λ p. p.1) decided) ∙ is_db1) in
            let still : get_decision d.decision_id db1 ≡ some d =
              get_decision-same d.decision_id w.db db1 decisions_same
              ∙ subst (λ j. get_decision j w.db ≡ some d) (sym own) filed in
            subst (λ (x : World). IsSound x.db) (sym runs)
              (execute_decision-IsSound r d.decision_id request a.requested_by a.decided_by now
                clock (record w { db = db1 }) sound1 still
                (λ command c_id c_action c_by. record {
                  decision = d;
                  decided = subst (λ j. get_decision j db1 ≡ some d) (sym c_id) still;
                  selected = sym c_action;
                  by = inr (record {
                    approval_id = i;
                    approval = a;
                    actor = input.actor_id;
                    stored = stored;
                    approved = ap (λ (x : ApprovalRecord). x.status) is_a;
                    of_decision =
                        ap (λ (x : ApprovalRecord). x.decision_id) is_a
                        ∙ ap (λ (x : ApprovalRecord). x.decision_id) same
                        ∙ sym own
                        ∙ sym c_id;
                    of_action =
                        ap (λ (x : ApprovalRecord). x.requested_action) is_a
                        ∙ ap (λ (x : ApprovalRecord). x.requested_action) same
                        ∙ is_action→≡ _ _ matches
                        ∙ sym c_action;
                    by_actor = ap (λ (x : ApprovalRecord). x.decided_by) is_a;
                    by_other =
                        subst (λ (x : ApprovalRecord). x.requested_by ≢ input.actor_id) (sym is_a)
                          apart;
                    named = c_by ∙ ap (λ (x : ApprovalRecord). x.decided_by) is_a;
                  });
                }))
      ]

  -- Where the order's product is restricted or the selected option costs more than the
  -- delegated limit, an approval with execution by an analyst raises and changes nothing.
  pub analyst_refused :
      {pending : ApprovalRecord} {d : DecisionTrace} {request : EvaluationRequest}
      → get_approval i w.db ≡ some pending
      → get_decision pending.decision_id w.db ≡ some d
      → get_request_payload d.event_id w.db ≡ some request
      → is_role input.actor_role UserRole.operations_analyst ≡ true
      → ((request.order.restricted_product ≡ true)
          ⊎ ((selected : RecoveryOption) × (option_of d.recommendation.selected_action d
                ≡ some selected)
              × (analyst_cost_limit < selected.intervention_cost)))
      → (k : ErrorKind) × (t : String) × (approve_and_execute r i input now clock w ≡ (err k t, w))
  unfolding approve_and_execute review decision_of request_of assert_approval_authority
  analyst_refused {pending} {d} {request} found filed known analyst over =
      elim (Bool-cases (is_action pending.requested_action d.recommendation.selected_action)) [
        | inr other ↦ (
          workflow_error,
          "approval action no longer matches the immutable decision",
          ground arith,
        )
        | inl matches ↦ elim (Option-cases (option_of d.recommendation.selected_action d)) [
          | inl missing ↦ (stop_iteration, "", ground arith)
          | inr (selected, chosen) ↦ elim (Bool-cases request.order.restricted_product) [
            | inl restricted ↦ (
              approval_error,
              "restricted products require operations-manager approval",
              ground arith,
            )
            | inr free ↦ (
              approval_error,
              "intervention exceeds the operations-analyst delegated cost limit",
              elim over [
                | inl restricted ↦ absurd (ground arith)
                | inr (dear, is_dear, much) ↦ ground arith
              ],
            )
          ]
        ]
      ]
