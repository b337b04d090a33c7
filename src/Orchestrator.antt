-- ===== src/Orchestrator.antt =====
-- src/promiseguard/orchestrator.py: one order event through risk, simulation, optimisation, policy
-- and ledger.
pub mod Pipeline
pub mod Repeat
mod Tests
use promiseguard_ai.Prelude.{ℕ, Bool, true, false, List, [], ◌∷◌}
use promiseguard_ai.Prelude.Text.{String, concat, join}
use promiseguard_ai.Prelude.Exec.{Result, ok, err, Exec, lift, gets, ◌>>=◌}
use promiseguard_ai.Models.{
  OperatingMode, DecisionStatus, EvaluationRequest, OrderContext, RiskAssessment, PolicyEvaluation,
  DecisionRecommendation, DecisionTrace, mode_value, disposition_value,
}
use promiseguard_ai.Floats.{FloatOps}
use promiseguard_ai.Codec.{Codec, hashed_id}
use promiseguard_ai.Simulator.{simulate}
use promiseguard_ai.Optimizer.{select_option}
use promiseguard_ai.Policy.{PolicyControls, evaluate_policy, policy_version}

-- The `RiskScorer` protocol of risk.py.
pub record RiskScorer : Type 0 where
  pub model_version : String
  pub score : OrderContext → RiskAssessment

-- The collaborators that the constructor receives. The controls are read from the state at each
-- evaluation; `number` is `str` of an int.
pub record Orchestrator (S : Type 0) : Type 0 where
  pub codec : Codec
  pub floats : FloatOps
  pub scorer : RiskScorer
  pub controls : S → PolicyControls
  pub record_trace : DecisionTrace → Exec S DecisionTrace
  pub number : ℕ → String

-- `_status_for_mode`
unfoldable pub status_for_mode : OperatingMode → DecisionStatus
status_for_mode OperatingMode.observe = DecisionStatus.observed
status_for_mode OperatingMode.shadow = DecisionStatus.shadow_recorded
status_for_mode OperatingMode.recommendation = DecisionStatus.recommended
status_for_mode OperatingMode.approval = DecisionStatus.awaiting_approval
status_for_mode OperatingMode.bounded_autonomy = DecisionStatus.ready_for_execution

-- `str(flag)`
abbrev bool_text : Bool → String
bool_text true = "True"
bool_text false = "False"

module _ {S : Type 0} (o : Orchestrator S) where
  -- `_decision_id`
  pub decision_id_of : EvaluationRequest → PolicyEvaluation → String
  decision_id_of request policy =
      hashed_id o.codec "dec_"
        (join "|" (
          request.event.deduplication_key
          ∷ o.number request.event.event_version
          ∷ request.order.order_id
          ∷ o.scorer.model_version
          ∷ "counterfactual-rules-v2"
          ∷ "constrained-score-v2"
          ∷ policy_version
          ∷ policy.control_version
          ∷ disposition_value policy.disposition
          ∷ bool_text policy.execution_allowed
          ∷ join "," policy.reasons
          ∷ mode_value request.mode
          ∷ []))
        24

  abbrev pub trace_of :
      EvaluationRequest → RiskAssessment → DecisionRecommendation → PolicyEvaluation → DecisionTrace
  trace_of request risk recommendation policy = record {
    trace_version = "decision-trace-v2";
    decision_id = decision_id_of request policy;
    event_id = request.event.event_id;
    order_id = request.order.order_id;
    mode = request.mode;
    risk = risk;
    recommendation = recommendation;
    policy = policy;
    status = status_for_mode request.mode;
    created_at = request.order.evaluation_time;
    tenant_id = request.order.tenant_id;
  }

  -- `PromiseGuardOrchestrator.evaluate`
  unfoldable pub evaluate : EvaluationRequest → Exec S DecisionTrace
  evaluate request = do
    let risk = o.scorer.score request.order
    recommendation ← lift (select_option (simulate o.floats request.order risk))
    controls ← gets o.controls
    policy ← lift (evaluate_policy controls request.order risk recommendation request.mode)
    o.record_trace (trace_of request risk recommendation policy)
