-- ===== src/Policy.antt =====
-- src/promiseguard/policy.py: the gateway between a recommendation and its execution. The three
-- callbacks read the autonomy controls and may raise, so they are results.
pub mod Gate
mod Tests
use promiseguard_ai.Prelude.{
  ℕ, Bool, true, false, ◌&&◌, not, Option, none, some, List, [], ◌∷◌, ltb, if◌then◌else◌, find,
}
use promiseguard_ai.Prelude.Int.{ℤ, pos, leb_ℤ}
use promiseguard_ai.Prelude.Text.{String, concat}
use promiseguard_ai.Prelude.Exec.{Result, ok, err, stop_iteration}
use promiseguard_ai.Models.{
  OperatingMode, RecoveryAction, RecoveryOption, PolicyDisposition, PolicyEvaluation,
  DecisionRecommendation, OrderContext, RiskAssessment, Float, mode_value, is_action,
}
use promiseguard_ai.Floats.{FloatOps}

-- `Result` with no state: what a callback returns or raises.
infixl 5 ◌>>=◌
abbrev pub ◌>>=◌ : {A B : Type 0} → Result A → (A → Result B) → Result B
ok a >>= f = f a
err k text >>= f = err k text

-- The constructor's arguments. `less` and `min_confidence` are the float comparison and
-- `min_autonomous_confidence`, the literal 0.85.
pub record PolicyControls : Type 0 where
  pub kill_switch_active : Result Bool
  pub autonomy_allowed : RecoveryAction → Result Bool
  pub control_version : RecoveryAction → Result String
  pub less : Float → Float → Bool
  pub min_confidence : Float

abbrev pub policy_version : String
policy_version = "policy-v3"

abbrev pub max_context_age_minutes : ℕ
max_context_age_minutes = 15

-- 10.00 and 5.00, in cents
abbrev pub max_autonomous_cost : ℕ
max_autonomous_cost = 1000

abbrev pub min_autonomous_benefit : ℕ
min_autonomous_benefit = 500

-- `_result`
unfoldable pub policy_result : PolicyDisposition → String → Bool → String → PolicyEvaluation
policy_result disposition version allowed reason = record {
  disposition = disposition;
  policy_version = policy_version;
  control_version = version;
  execution_allowed = allowed;
  reasons = reason ∷ [];
}

abbrev pub autonomy_conditions : PolicyControls → RecoveryOption → DecisionRecommendation → Bool
autonomy_conditions c selected rec =
    not (ltb max_autonomous_cost selected.intervention_cost)
    && leb_ℤ (pos min_autonomous_benefit) rec.expected_incremental_value_vs_no_action
    && not (c.less selected.confidence c.min_confidence)
    && selected.reversible

-- The last stage: the selected option within the bounds of autonomous execution.
unfoldable pub bounded_stage :
    PolicyControls → DecisionRecommendation → String → Result PolicyEvaluation
unfolding policy_result
bounded_stage c rec version =
    elim (find (λ o. is_action o.action rec.selected_action) rec.ranked_options) [
      | none ↦ err stop_iteration ""
      | some selected ↦ ok (
          if autonomy_conditions c selected rec
          then policy_result PolicyDisposition.auto_execute version true
              "BOUNDED_AUTONOMY_CONDITIONS_SATISFIED"
          else policy_result PolicyDisposition.request_approval version false
              "BOUNDED_AUTONOMY_CONDITIONS_NOT_SATISFIED")
    ]

-- The stage of the runtime controls: the kill switch, then the action's earned autonomy.
unfoldable pub control_stage :
    PolicyControls → DecisionRecommendation → String → Result PolicyEvaluation
unfolding bounded_stage
control_stage c rec version = do
  killed ← c.kill_switch_active
  if killed
      then ok
          (policy_result PolicyDisposition.block version false "GLOBAL_ACTION_KILL_SWITCH_ACTIVE")
      else do
        earned ← c.autonomy_allowed rec.selected_action
        if earned
            then bounded_stage c rec version
            else ok (
                policy_result PolicyDisposition.request_approval version false
                  "ACTION_AUTONOMY_NOT_EARNED")

-- `mode in {OBSERVE, SHADOW, RECOMMENDATION, APPROVAL}`
abbrev pub prevents_autonomy : OperatingMode → Bool
prevents_autonomy OperatingMode.bounded_autonomy = false
prevents_autonomy _ = true

-- `PolicyGateway.evaluate`
unfoldable pub evaluate_policy :
    PolicyControls
    → OrderContext
    → RiskAssessment
    → DecisionRecommendation
    → OperatingMode
    → Result PolicyEvaluation
unfolding control_stage policy_result
evaluate_policy c order risk rec mode = do
  version ← c.control_version rec.selected_action
  if ltb max_context_age_minutes order.data_freshness_minutes
      then ok (policy_result PolicyDisposition.block version false "STALE_OPERATIONAL_CONTEXT")
      else elim risk.data_quality_warnings [
        | w ∷ rest ↦ ok (record {
          disposition = PolicyDisposition.block;
          policy_version = policy_version;
          control_version = version;
          execution_allowed = false;
          reasons = w ∷ rest;
        })
        | [] ↦
            if is_action rec.selected_action RecoveryAction.take_no_action
            then ok (
                policy_result PolicyDisposition.take_no_action version false
                  "NO_INTERVENTION_HAS_POSITIVE_INCREMENTAL_VALUE")
            else if order.restricted_product
            then ok (
                policy_result PolicyDisposition.request_approval version false
                  "RESTRICTED_PRODUCT_REQUIRES_HUMAN_APPROVAL")
            else if prevents_autonomy mode
            then ok (
                policy_result PolicyDisposition.request_approval version false
                  (concat ("MODE_" ∷ mode_value mode ∷ "_PREVENTS_AUTONOMOUS_EXECUTION" ∷ [])))
            else control_stage c rec version
      ]
