-- ===== src/Orchestrator/Pipeline.antt =====
-- From an order and its risk to the ledger: the stages of src/promiseguard/orchestrator.py
-- together.
use promiseguard_ai.Prelude.{
  ◌≡◌, refl, sym, Bool, true, false, some, ◌∷◌, arith, All, find, is_some, inl, inr, Bool-cases,
}
use promiseguard_ai.Prelude.Int.{pos, ◌≤ℤ◌}
use promiseguard_ai.Prelude.Text.{String}
use promiseguard_ai.Prelude.Exec.{ok, Result-cases}
use promiseguard_ai.Models.{
  RecoveryAction, RecoveryOption, OrderContext, RiskAssessment, DecisionRecommendation, is_action,
  OperatingMode, PolicyEvaluation, EvaluationRequest,
}
use promiseguard_ai.Floats.{FloatOps}
use promiseguard_ai.Policy.{PolicyControls, evaluate_policy, control_stage, bounded_stage}
use promiseguard_ai.Simulator.{simulate, no_action_option}
use promiseguard_ai.Optimizer.{select_option, is_no_action}
use promiseguard_ai.Orchestrator.{Orchestrator, evaluate, trace_of}
use promiseguard_ai.Optimizer.Choice.{
  select_option-IsChoice, select_option_gains, select_option_total, select_option-All,
}

-- What an order allows: an action that the order's data shows to be possible.
abbrev pub IsAllowed : OrderContext → RecoveryAction → Type 0
IsAllowed order RecoveryAction.take_no_action = Unit
IsAllowed order RecoveryAction.reroute =
    (order.alternative_location_available ≡ true) × (is_some order.alternative_location_id ≡ true)
IsAllowed order RecoveryAction.carrier_upgrade = Unit
IsAllowed order RecoveryAction.split_shipment = order.split_shipment_possible ≡ true
IsAllowed order RecoveryAction.human_escalation = ⊥

module _ (f : FloatOps) (order : OrderContext) (risk : RiskAssessment) where
  simulate-IsAllowed :
      All (λ o. o.feasible ≡ true → IsAllowed order o.action) (simulate f order risk)
  unfolding simulate
  simulate-IsAllowed = ((λ _. tt), ((λ h. ground arith), ((λ _. tt), ((λ h. h), tt))))

  baseline_feasible : All (λ o. is_no_action o ≡ true → o.feasible ≡ true) (simulate f order risk)
  unfolding simulate
  baseline_feasible = ((λ _. refl), ((λ h. cc), ((λ h. cc), ((λ h. cc), tt))))

  -- Selection from the simulated options of any order and risk returns a recommendation.
  pub pipeline_total : (r : DecisionRecommendation) × (select_option (simulate f order risk) ≡ ok r)
  unfolding simulate
  pipeline_total =
      select_option_total (simulate f order risk) (no_action_option f order risk) refl refl

  module _ (r : DecisionRecommendation) (h : select_option (simulate f order risk) ≡ ok r) where
    -- The selected option is found again by its action.
    pub selected_found :
        (o : RecoveryOption) × (find
            (λ (x : RecoveryOption). is_action x.action r.selected_action)
            r.ranked_options
          ≡ some o)
        × (o.feasible ≡ true)
        × (o.action ≡ r.selected_action)
    selected_found =
        let c = select_option-IsChoice (simulate f order risk) h in
        (c.best, ground (arith, c.top, c.action), c.feasible, sym c.action)

    -- A recommendation made from the simulated options never names an action that the order
    -- does not allow: a reroute needs an available alternative location with an identifier,
    -- a split a possible split shipment, and escalation is never named.
    pub recommendation-IsAllowed : IsAllowed order r.selected_action
    recommendation-IsAllowed =
        let c = select_option-IsChoice (simulate f order risk) h in
        let all : All (λ o. IsAllowed order o.action) (c.best ∷ c.rest) = rw c.top at (
          select_option-All (λ o. IsAllowed order o.action) (simulate f order risk) h
            simulate-IsAllowed) in
        rw c.action all.0

    -- A recommendation made from the simulated options is worth at least as much as doing
    -- nothing.
    pub recommendation_gains : pos 0 ≤ℤ r.expected_incremental_value_vs_no_action
    recommendation_gains = select_option_gains (simulate f order risk) h baseline_feasible

-- The callbacks of the gateway return for the actions that a recommendation can name.
pub record Responds (c : PolicyControls) : Type 0 where
  pub version :
      (a : RecoveryAction)
      → is_action a RecoveryAction.human_escalation ≡ false
      → (v : String) × (c.control_version a ≡ ok v)
  pub kill : (b : Bool) × (c.kill_switch_active ≡ ok b)
  pub autonomy :
      (a : RecoveryAction)
      → is_action a RecoveryAction.take_no_action ≡ false
      → is_action a RecoveryAction.human_escalation ≡ false
      → (b : Bool) × (c.autonomy_allowed a ≡ ok b)

allowed-ne-escalation :
    (order : OrderContext) (a : RecoveryAction)
    → IsAllowed order a
    → is_action a RecoveryAction.human_escalation ≡ false
allowed-ne-escalation order RecoveryAction.take_no_action h = refl
allowed-ne-escalation order RecoveryAction.reroute h = refl
allowed-ne-escalation order RecoveryAction.carrier_upgrade h = refl
allowed-ne-escalation order RecoveryAction.split_shipment h = refl
allowed-ne-escalation order RecoveryAction.human_escalation h = elim h [ ]

module _ (c : PolicyControls) (responds : Responds c) (f : FloatOps) (order : OrderContext)
    (risk : RiskAssessment) (mode : OperatingMode) (r : DecisionRecommendation)
    (h : select_option (simulate f order risk) ≡ ok r) where
  not_escalation : is_action r.selected_action RecoveryAction.human_escalation ≡ false
  not_escalation =
      allowed-ne-escalation order r.selected_action (recommendation-IsAllowed f order risk r h)

  control_stage_total :
      (version : String)
      → is_action r.selected_action RecoveryAction.take_no_action ≡ false
      → (e : PolicyEvaluation) × (control_stage c r version ≡ ok e)
  unfolding control_stage bounded_stage
  control_stage_total version acts =
      let (o, found, _, _) = selected_found f order risk r h in
      let (killed, k) = responds.kill in
      let (earned, a) = responds.autonomy r.selected_action acts not_escalation in
      elim (Result-cases (control_stage c r version)) [
        | inl returns ↦ returns
        | inr (kind, text, raises) ↦ absurd (ground arith)
      ]

  -- With callbacks that return for every action that can be recommended, the gateway returns
  -- an evaluation of a recommendation made from the simulated options.
  pub policy_total : (e : PolicyEvaluation) × (evaluate_policy c order risk r mode ≡ ok e)
  unfolding evaluate_policy
  policy_total =
      let (version, v) = responds.version r.selected_action not_escalation in
      elim (Result-cases (evaluate_policy c order risk r mode)) [
        | inl returns ↦ returns
        | inr (kind, text, raises) ↦
            elim (Bool-cases (is_action r.selected_action RecoveryAction.take_no_action)) [
              | inl idle ↦ absurd (ground arith)
              | inr acts ↦
                  let (e, stage) = control_stage_total version acts in absurd (ground arith)
            ]
      ]

module _ {S : Type 0} (o : Orchestrator S) (request : EvaluationRequest) (s : S) where
  -- With callbacks that return, an evaluation of a request is the recording of a trace that
  -- is made of the recommendation and of the gateway's evaluation of it.
  pub evaluate_reaches_ledger :
      Responds (o.controls s)
      → let risk = o.scorer.score request.order in
        (r : DecisionRecommendation) × (e : PolicyEvaluation) × (select_option
            (simulate o.floats request.order risk)
          ≡ ok r)
        × (evaluate_policy (o.controls s) request.order risk r request.mode ≡ ok e)
        × (evaluate o request s ≡ o.record_trace (trace_of o request risk r e) s)
  unfolding evaluate
  evaluate_reaches_ledger responds =
      let risk = o.scorer.score request.order in
      let (r, h) = pipeline_total o.floats request.order risk in
      let (e, k) =
        policy_total (o.controls s) responds o.floats request.order risk request.mode r h in
      (r, e, h, k, rw (h, k))
