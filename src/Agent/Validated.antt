-- ===== src/Agent/Validated.antt =====
-- The reviews that `_validate` of src/promiseguard/openai_agent.py accepts.
use promiseguard_ai.Prelude.{
  ◌≡◌, ◌≢◌, ◌↔◌, refl, Bool, true, false, not, List, [], ◌∷◌, ◌++◌, ◌==◌, arith, All, select,
  Bool-cases, inl, inr,
}
use promiseguard_ai.Prelude.Text.{String, eq_iff}
use promiseguard_ai.Models.{DecisionTrace, PolicyDisposition, RecoveryAction, is_action}
use promiseguard_ai.Budget.{AgentDecisionReview, AgentNextStep}
use promiseguard_ai.Sandbox.{member}
use promiseguard_ai.Agent.Context.{
  AgentContext, add_text, disposition_tag, error_if, expected_next, has_code, human_required,
  next_step_tag, required_code, same_flag, sorted_set, unsupported_error, unsupported_ids, validate,
}

-- What a review must be for a decision.
pub record IsFaithful (review : AgentDecisionReview) (d : DecisionTrace) (context : AgentContext)
    : Type 0 where
  pub decision_id : review.decision_id ≡ d.decision_id
  pub selected_action : review.selected_action ≡ d.recommendation.selected_action
  pub policy_disposition : review.policy_disposition ≡ d.policy.disposition
  pub next_step : review.next_step ≡ expected_next d.policy.disposition
  pub human : review.requires_human_attention ≡ human_required d.policy.disposition
  pub evidence :
      All (λ (id : String). member id context.allowed_evidence_ids ≡ true) review.evidence_ids
  pub code : has_code (required_code d.policy.disposition) review.rationale_codes ≡ true

add_text_some : (x : String) (xs : List String) → add_text x xs ≢ []
add_text_some x [] e = ground arith
add_text_some x (y ∷ rest) e = ground arith

supported :
    (allowed ids : List String)
    → sorted_set (select (λ id. not (member id allowed)) ids) ≡ []
    → All (λ (id : String). member id allowed ≡ true) ids
supported allowed [] h = tt
supported allowed (x ∷ rest) h = elim (Bool-cases (member x allowed)) [
  | inl known ↦ (known, supported allowed rest (ground arith))
  | inr unknown ↦
      absurd
        (add_text_some x (sorted_set (select (λ id. not (member id allowed)) rest)) (ground arith))
]

supports :
    (allowed ids : List String)
    → All (λ (id : String). member id allowed ≡ true) ids
    → sorted_set (select (λ id. not (member id allowed)) ids) ≡ []
supports allowed [] h = refl
supports allowed (x ∷ rest) h = ground (arith, supports allowed rest h.1, h.0)

peel :
    (c : Bool) (text : String) (rest : List String)
    → error_if c text ++ rest ≡ []
    → (c ≡ false) × (rest ≡ [])
peel c text rest h = (ground arith, ground arith)

peel_unsupported :
    (ids rest : List String) → unsupported_error ids ++ rest ≡ [] → (ids ≡ []) × (rest ≡ [])
peel_unsupported [] rest h = (refl, h)
peel_unsupported (x ∷ ids) rest h = absurd (ground arith)

same_disposition :
    (a b : PolicyDisposition) → not (disposition_tag a == disposition_tag b) ≡ false → a ≡ b
same_disposition a b h = ground arith

same_action : (a b : RecoveryAction) → not (is_action a b) ≡ false → a ≡ b
same_action a b h = ground arith

same_step : (a b : AgentNextStep) → not (next_step_tag a == next_step_tag b) ≡ false → a ≡ b
same_step a b h = ground arith

same_human : (a b : Bool) → not (same_flag a b) ≡ false → a ≡ b
same_human a b h = ground arith

module _ (review : AgentDecisionReview) (d : DecisionTrace) (context : AgentContext) where
  accepted : validate review d context ≡ [] → IsFaithful review d context
  unfolding validate
  accepted h =
      let (e1, h1) = peel _ _ _ h in
      let (e2, h2) = peel _ _ _ h1 in
      let (e3, h3) = peel _ _ _ h2 in
      let (e4, h4) = peel _ _ _ h3 in
      let (e5, h5) = peel _ _ _ h4 in
      let (e6, h6) = peel_unsupported (unsupported_ids review context) _ h5 in
      record {
        decision_id = (eq_iff review.decision_id d.decision_id).0 (ground arith);
        selected_action = same_action _ _ e2;
        policy_disposition = same_disposition _ _ e3;
        next_step = same_step _ _ e4;
        human = same_human _ _ e5;
        evidence = supported context.allowed_evidence_ids review.evidence_ids e6;
        code = ground arith;
      }

  accepts : IsFaithful review d context → validate review d context ≡ []
  unfolding validate
  accepts f =
      let own = (eq_iff review.decision_id d.decision_id).1 f.decision_id in
      let ids = supports context.allowed_evidence_ids review.evidence_ids f.evidence in
      rw (own, f.selected_action, f.policy_disposition, f.next_step, f.human, ids, f.code)
        (ground arith)

-- The validation of a review reports no error exactly if the review names the decision, its
-- action and its disposition, the next step and the attention of a person that the disposition
-- asks for, only allowed evidence, and the required rationale code.
pub validate_accepts :
    (review : AgentDecisionReview) (d : DecisionTrace) (context : AgentContext)
    → (validate review d context ≡ []) ↔ IsFaithful review d context
validate_accepts review d context = (accepted review d context, accepts review d context)
