-- ===== src/Verification.antt =====
-- src/promiseguard/verification.py: the check of an action's postcondition and the record of what was
-- realised. The price of a command is in whole cents. The details that the outcome repeats stand in
-- its record.
pub mod Hydrate
pub mod Status
pub mod Delivered
mod Tests
use promiseguard_ai.Prelude.{
  ℕ, Bool, true, false, not, ◌||◌, Option, none, some, List, [], ◌∷◌, ◌++◌, ◌+◌, ◌*◌, find,
  if◌then◌else◌,
}
use promiseguard_ai.Prelude.Int.{ℤ, pos}
use promiseguard_ai.Prelude.Text.{String, str_eq}
use promiseguard_ai.Prelude.Exec.{
  Exec, ◌>>=◌, ◌>>◌, pure, gets, modify, raise_if, or_raise, value_error, stop_iteration,
}
use promiseguard_ai.Models.{
  ActionExecution, DecisionTrace, DeliveryObservation, OrderContext, OutcomeVerification,
  RecoveryAction, RecoveryOption, SourceReference, VerificationStatus, is_action,
}
use promiseguard_ai.Money.{signed_money, cents, unit, sum}
use promiseguard_ai.Codec.{Codec, hashed_id}
use promiseguard_ai.Database.{session}
use promiseguard_ai.Persistence.Outcomes.{record_outcome, outcome_by_decision}
use promiseguard_ai.Autonomy.{is_compensated}
use promiseguard_ai.Autonomy as Autonomy
use promiseguard_ai.Sandbox.{
  SandboxState, action_postcondition_holds, hydrate_from_durable_action, record_delivery_outcome,
  dict_get,
}
use promiseguard_ai.Execution.{World, on_db, on_sandbox}

-- `OutcomeVerificationService`; `governed` says whether it has autonomy controls.
pub record OutcomeVerificationService : Type 0 where
  pub codec : Codec
  pub governed : Bool

-- `record_delivery_observation`
unfoldable pub record_delivery_observation : DeliveryObservation → Exec SandboxState (Unit {0})
record_delivery_observation observation =
    record_delivery_outcome observation.order_id observation.delivered_on_time

-- What `verify` does with an observation.
unfoldable pub observe : OrderContext → Option DeliveryObservation → Exec SandboxState (Unit {0})
observe order none = pure tt
observe order (some observation) = do
  raise_if (not (str_eq observation.order_id order.order_id)) value_error
      "delivery observation does not belong to the decision order"
  record_delivery_observation observation

abbrev pub status_of : Bool → Bool → Option Bool → VerificationStatus
status_of compensated postcondition delivered =
    if compensated || not postcondition then VerificationStatus.failed else elim delivered [
      | none ↦ VerificationStatus.manual_review_required
      | some _ ↦ VerificationStatus.verified
    ]

abbrev pub realised_margin : OrderContext → ℕ → Option Bool → ℤ
realised_margin order cost none = pos 0
realised_margin order cost (some true) =
    let m = order.gross_margin in signed_money (cents m) (cost * unit m) (unit m)
realised_margin order cost (some false) =
    let loss = sum order.cancellation_cost order.support_cost in
    signed_money 0 (cents loss + cost * unit loss) (unit loss)

abbrev pub references_of : OrderContext → Option DeliveryObservation → List SourceReference
references_of order none = order.source_references
references_of order (some observation) =
    order.source_references ++ observation.source_reference ∷ []

-- `next(option for option in ranked_options if option.action is action)`
abbrev pub option_of : RecoveryAction → DecisionTrace → Option RecoveryOption
option_of action decision =
    find (λ o. is_action o.action action) decision.recommendation.ranked_options

-- The outcome that `verify` builds of the systems of record.
unfoldable pub outcome_of :
    Codec
    → DecisionTrace
    → ActionExecution
    → OrderContext
    → Option DeliveryObservation
    → ℕ
    → RecoveryOption
    → SandboxState
    → OutcomeVerification
outcome_of c decision execution order observation verified_at selected s =
    let holds = action_postcondition_holds order execution.command.action s in
    let delivered = dict_get order.order_id s.delivery_outcomes in
    record {
      outcome_id = hashed_id c "out_" decision.decision_id 24;
      decision_id = decision.decision_id;
      action_id = execution.action_id;
      status = status_of (is_compensated execution.status) holds delivered;
      verified_at = verified_at;
      on_time_delivery_observed = delivered;
      actual_intervention_cost = execution.command.expected_intervention_cost;
      realised_gross_margin =
          realised_margin order execution.command.expected_intervention_cost delivered;
      estimated_incremental_value = decision.recommendation.expected_incremental_value_vs_no_action;
      evidence_references = references_of order observation;
      action_postcondition_holds = holds;
      expected_on_time_probability = selected.on_time_probability;
      execution_status = execution.status;
    }

-- The record, and the evidence that the controls take from it.
unfoldable pub persist :
    OutcomeVerificationService
    → RecoveryAction
    → OutcomeVerification
    → ℕ
    → Exec World OutcomeVerification
persist v action outcome now = do
  persisted ← on_db (session (record_outcome v.codec outcome))
  if v.governed
      then (do _ ← on_db (Autonomy.record_outcome persisted action now); pure persisted)
      else pure persisted

-- `verify`; `now` is the reading of the clock by the controls.
unfoldable pub verify :
    OutcomeVerificationService
    → DecisionTrace
    → ActionExecution
    → OrderContext
    → Option DeliveryObservation
    → ℕ
    → ℕ
    → Exec World OutcomeVerification
verify v decision execution order observation verified_at now = do
  on_sandbox (observe order observation)
  on_sandbox (modify (hydrate_from_durable_action order execution))
  s ← gets (λ w. w.sandbox)
  selected ← or_raise (option_of execution.command.action decision) stop_iteration ""
  persist v execution.command.action
      (outcome_of v.codec decision execution order observation verified_at selected s) now

-- `get_by_decision`
abbrev pub get_outcome : String → Exec World (Option OutcomeVerification)
get_outcome decision_id = on_db (gets (outcome_by_decision decision_id))
