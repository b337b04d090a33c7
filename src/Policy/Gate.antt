-- ===== src/Policy/Gate.antt =====
-- The conditions of execution in src/promiseguard/policy.py.
use promiseguard_ai.Prelude.{
  ◌≤◌, ◌≡◌, true, false, Option, some, Option-cases, inl, inr, ◌↔◌, [], arith, find,
}
use promiseguard_ai.Prelude.Int.{pos, ◌≤ℤ◌}
use promiseguard_ai.Prelude.Text.{String}
use promiseguard_ai.Prelude.Exec.{ok, Result-cases}
use promiseguard_ai.Models.{
  OperatingMode, RecoveryAction, RecoveryOption, PolicyDisposition, PolicyEvaluation,
  DecisionRecommendation, OrderContext, RiskAssessment, is_action,
}
use promiseguard_ai.Policy.{
  PolicyControls, evaluate_policy, control_stage, bounded_stage, policy_result,
  max_context_age_minutes, max_autonomous_cost, min_autonomous_benefit,
}

abbrev selected_option : DecisionRecommendation → Option RecoveryOption
selected_option rec = find (λ o. is_action o.action rec.selected_action) rec.ranked_options

-- The controls that the last stage checks.
pub record IsBounded (c : PolicyControls) (rec : DecisionRecommendation) : Type 0 where
  pub selected : RecoveryOption
  pub is_selected : selected_option rec ≡ some selected
  pub cheap : selected.intervention_cost ≤ max_autonomous_cost
  pub beneficial : pos min_autonomous_benefit ≤ℤ rec.expected_incremental_value_vs_no_action
  pub confident : c.less selected.confidence c.min_confidence ≡ false
  pub reversible : selected.reversible ≡ true

module _ (c : PolicyControls) (rec : DecisionRecommendation) (version : String) where
  bounded_stage-allowed :
      {e : PolicyEvaluation}
      → bounded_stage c rec version ≡ ok e
      → e.execution_allowed ≡ true
      → IsBounded c rec
  unfolding bounded_stage
  bounded_stage-allowed {e} h k = elim (Option-cases (selected_option rec)) [
    | inl missing ↦ ground arith
    | inr (o, found) ↦ record {
      selected = o;
      is_selected = found;
      cheap = ground arith;
      beneficial = ground arith;
      confident = ground arith;
      reversible = ground arith;
    }
  ]

  control_stage-allowed :
      {e : PolicyEvaluation}
      → control_stage c rec version ≡ ok e
      → e.execution_allowed ≡ true
      → (c.kill_switch_active ≡ ok false)
        × (c.autonomy_allowed rec.selected_action ≡ ok true)
        × (bounded_stage c rec version ≡ ok e)
  unfolding control_stage
  control_stage-allowed {e} h k = ground arith

-- Every control is met: fresh context, clean data, an action, no restricted product, bounded
-- autonomy as the mode, no kill switch, earned autonomy, and a cheap, beneficial, confident and
-- reversible option.
pub record IsCleared (c : PolicyControls) (order : OrderContext) (risk : RiskAssessment)
    (rec : DecisionRecommendation) (mode : OperatingMode) : Type 0 where
  pub fresh : order.data_freshness_minutes ≤ max_context_age_minutes
  pub clean : risk.data_quality_warnings ≡ []
  pub acts : is_action rec.selected_action RecoveryAction.take_no_action ≡ false
  pub unrestricted : order.restricted_product ≡ false
  pub in_mode : mode ≡ OperatingMode.bounded_autonomy
  pub no_kill : c.kill_switch_active ≡ ok false
  pub earned : c.autonomy_allowed rec.selected_action ≡ ok true
  pub bounded : IsBounded c rec

module _ (c : PolicyControls) (order : OrderContext) (risk : RiskAssessment)
    (rec : DecisionRecommendation) (mode : OperatingMode) where
  reaches_controls :
      {e : PolicyEvaluation} (version : String)
      → c.control_version rec.selected_action ≡ ok version
      → evaluate_policy c order risk rec mode ≡ ok e
      → e.execution_allowed ≡ true
      → (control_stage c rec version ≡ ok e)
        × (order.data_freshness_minutes ≤ max_context_age_minutes)
        × (risk.data_quality_warnings ≡ [])
        × (is_action rec.selected_action RecoveryAction.take_no_action ≡ false)
        × (order.restricted_product ≡ false)
        × (mode ≡ OperatingMode.bounded_autonomy)
  unfolding evaluate_policy
  reaches_controls {e} version v h k = ground arith

  -- If the policy gateway returns an evaluation that allows execution, then every control is
  -- met: the context is at most 15 minutes old, there is no data quality warning, the action
  -- is not no-action, the product is not restricted, the mode is bounded autonomy, the kill
  -- switch reads as off, the action's autonomy reads as earned, and the selected option is
  -- cheap, beneficial, confident and reversible.
  pub allowed→IsCleared :
      {e : PolicyEvaluation}
      → evaluate_policy c order risk rec mode ≡ ok e
      → e.execution_allowed ≡ true
      → IsCleared c order risk rec mode
  unfolding evaluate_policy
  allowed→IsCleared {e} h k = elim (Result-cases (c.control_version rec.selected_action)) [
    | inl (version, v) ↦
        let (stage, fresh, clean, acts, free, in_mode) = reaches_controls version v h k in
        let (alive, earned, last) = control_stage-allowed c rec version stage k in
        record {
          fresh = fresh;
          clean = clean;
          acts = acts;
          unrestricted = free;
          in_mode = in_mode;
          no_kill = alive;
          earned = earned;
          bounded = bounded_stage-allowed c rec version last k;
        }
    | inr (kind, text, v) ↦ ground arith
  ]

  -- An evaluation that the gateway returns allows execution exactly if its disposition is
  -- AUTO_EXECUTE.
  pub allowed_iff_auto :
      {e : PolicyEvaluation}
      → evaluate_policy c order risk rec mode ≡ ok e
      → (e.execution_allowed ≡ true) ↔ (e.disposition ≡ PolicyDisposition.auto_execute)
  unfolding evaluate_policy control_stage bounded_stage policy_result
  allowed_iff_auto {e} h = (ground arith, ground arith)
