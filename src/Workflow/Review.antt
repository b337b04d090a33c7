-- ===== src/Workflow/Review.antt =====
-- What `approve_and_execute` of src/promiseguard/workflow.py needs before it executes.
use mathlib.Core.Path.{subst}
use promiseguard_ai.Prelude.{
  ◌≡◌, ◌≤◌, ◌⊎◌, ◌∙◌, ap, true, false, some, arith, Option-cases, Bool-cases, inl, inr,
}
use promiseguard_ai.Prelude.Text.{String}
use promiseguard_ai.Prelude.Exec.{ok, Exec-cases}
use promiseguard_ai.Models.{
  ApprovalDecisionInput, ApprovalRecord, DecisionTrace, EvaluationRequest, RecoveryOption, UserRole,
  is_action, is_role,
}
use promiseguard_ai.Persistence.{get_decision, get_request_payload}
use promiseguard_ai.Persistence.Approvals.{get_approval}
use promiseguard_ai.Execution.{World}
use promiseguard_ai.Verification.{option_of}
use promiseguard_ai.Workflow.{
  RecoveryWorkflowService, analyst_cost_limit, assert_approval_authority, decision_of, request_of,
  review,
}

-- What an analyst may decide alone.
abbrev pub IsDelegated : DecisionTrace → EvaluationRequest → Type 0
IsDelegated d request =
    (selected : RecoveryOption) × (option_of d.recommendation.selected_action d ≡ some selected)
    × (request.order.restricted_product ≡ false)
    × (selected.intervention_cost ≤ analyst_cost_limit)

assert_approval_authority-keeps :
    (input : ApprovalDecisionInput) (d : DecisionTrace) (request : EvaluationRequest) (w : World)
    → (assert_approval_authority input d request w).1 ≡ w
unfolding assert_approval_authority
assert_approval_authority-keeps input d request w =
    elim (Option-cases (option_of d.recommendation.selected_action d)) [
      | inl missing ↦ ground arith
      | inr (selected, found) ↦ ground arith
    ]

assert_approval_authority_ok :
    (input : ApprovalDecisionInput) (d : DecisionTrace) (request : EvaluationRequest) (w : World)
    → (assert_approval_authority input d request w).0 ≡ ok tt
    → (is_role input.actor_role UserRole.operations_analyst ≡ false) ⊎ IsDelegated d request
unfolding assert_approval_authority
assert_approval_authority_ok input d request w h =
    elim (Bool-cases (is_role input.actor_role UserRole.operations_analyst)) [
      | inr other ↦ inl other
      | inl analyst ↦ elim (Option-cases (option_of d.recommendation.selected_action d)) [
        | inl missing ↦ absurd (ground arith)
        | inr (selected, found) ↦ inr (selected, found, ground arith, ground arith)
      ]
    ]

module _ (r : RecoveryWorkflowService) (i : String) (input : ApprovalDecisionInput)
    (w : World) where
  pub review-keeps : (review r i input w).1 ≡ w
  unfolding review decision_of request_of
  review-keeps = elim (Option-cases (get_approval i w.db)) [
    | inl missing ↦ ground arith
    | inr (pending, found) ↦ elim (Option-cases (get_decision pending.decision_id w.db)) [
      | inl missing ↦ ground arith
      | inr (d, decided) ↦ elim (Option-cases (get_request_payload d.event_id w.db)) [
        | inl missing ↦ ground arith
        | inr (request, known) ↦ elim (Exec-cases (assert_approval_authority input d request w)) [
          | inl (u, w1, e) ↦ ground (arith, assert_approval_authority-keeps input d request w)
          | inr (k, t, w1, e) ↦ ground (arith, assert_approval_authority-keeps input d request w)
        ]
      ]
    ]
  ]

  pub review_ok :
      {d : DecisionTrace} {request : EvaluationRequest}
      → (review r i input w).0 ≡ ok (d, request)
      → (pending : ApprovalRecord) × (get_approval i w.db ≡ some pending)
        × (get_decision pending.decision_id w.db ≡ some d)
        × (is_action pending.requested_action d.recommendation.selected_action ≡ true)
        × (get_request_payload d.event_id w.db ≡ some request)
        × ((is_role input.actor_role UserRole.operations_analyst ≡ false) ⊎ IsDelegated d request)
  unfolding review decision_of request_of
  review_ok {d} {request} h = elim (Option-cases (get_approval i w.db)) [
    | inl missing ↦ absurd (ground arith)
    | inr (pending, found) ↦ elim (Option-cases (get_decision pending.decision_id w.db)) [
      | inl missing ↦ absurd (ground arith)
      | inr (d', decided) ↦ elim (Option-cases (get_request_payload d'.event_id w.db)) [
        | inl missing ↦ absurd (ground arith)
        | inr (request', known) ↦
            elim (Exec-cases (assert_approval_authority input d' request' w)) [
              | inr (k, t, w1, e) ↦ absurd (ground arith)
              | inl (u, w1, e) ↦
                  let same_d : d' ≡ d = ground arith in
                  let same_r : request' ≡ request = ground arith in
                  let authority =
                    assert_approval_authority_ok input d' request' w (ap (λ p. p.0) e) in
                  (
                    pending,
                    found,
                    decided ∙ ap some same_d,
                    ground arith,
                    subst
                        (λ (x : DecisionTrace). get_request_payload x.event_id w.db ≡ some request)
                        same_d (known ∙ ap some same_r),
                    subst
                        (λ (x : DecisionTrace).
                          (is_role input.actor_role UserRole.operations_analyst ≡ false)
                          ⊎ IsDelegated x request)
                        same_d
                        (subst
                          (λ (q : EvaluationRequest).
                            (is_role input.actor_role UserRole.operations_analyst ≡ false)
                            ⊎ IsDelegated d' q)
                          same_r authority),
                  )
            ]
      ]
    ]
  ]
