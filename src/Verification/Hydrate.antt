-- ===== src/Verification/Hydrate.antt =====
-- `hydrate_from_durable_action` of src/promiseguard/adapters/sandbox.py.
use promiseguard_ai.Prelude.{
  ◌≡◌, refl, Bool, true, false, arith, is_some, Option-cases, Bool-cases, inl, inr,
}
use promiseguard_ai.Prelude.Text.{str_eq_refl}
use promiseguard_ai.Models.{ActionExecution, OrderContext, RecoveryAction}
use promiseguard_ai.Sandbox.{
  SandboxState, action_postcondition_holds, hydrate_from_durable_action, dict_get-dict_set,
  seed_order, redo, is_done, member-add,
}

-- What an action that is finished must have for its postcondition.
abbrev pub can_hold : OrderContext → RecoveryAction → Bool
can_hold order RecoveryAction.reroute = is_some order.alternative_location_id
can_hold order RecoveryAction.human_escalation = false
can_hold order _ = true

redo-holds :
    (order : OrderContext) (action : RecoveryAction) (s : SandboxState)
    → can_hold order action ≡ true
    → action_postcondition_holds order action (redo order action s) ≡ true
unfolding redo action_postcondition_holds
redo-holds order RecoveryAction.reroute s h = elim (Option-cases order.alternative_location_id) [
  | inl missing ↦ ground arith
  | inr (location, found) ↦
      ground
        (arith, dict_get-dict_set order.order_id location s.order_locations, str_eq_refl location)
]
redo-holds order RecoveryAction.carrier_upgrade s h = ground (
  arith,
  dict_get-dict_set order.order_id order.upgraded_carrier_service s.carrier_services,
  str_eq_refl order.upgraded_carrier_service,
)
redo-holds order RecoveryAction.split_shipment s h = member-add order.order_id s.split_shipments
redo-holds order RecoveryAction.take_no_action s h = refl
redo-holds order RecoveryAction.human_escalation s h = ground arith

-- Hyd
pub hydrate_from_durable_action-holds :
    (order : OrderContext) (execution : ActionExecution) (s : SandboxState)
    → is_done execution.status ≡ true
    → can_hold order execution.command.action ≡ true
    → action_postcondition_holds order execution.command.action
        (hydrate_from_durable_action order execution s)
      ≡ true
unfolding hydrate_from_durable_action
hydrate_from_durable_action-holds order execution s done can =
    ground (arith, redo-holds order execution.command.action (seed_order order s) can)

redo-keeps :
    (order : OrderContext) (action : RecoveryAction) (s : SandboxState)
    → (redo order action s).delivery_outcomes ≡ s.delivery_outcomes
unfolding redo
redo-keeps order RecoveryAction.reroute s = elim (Option-cases order.alternative_location_id) [
  | inl missing ↦ ground arith
  | inr (location, found) ↦ ground arith
]
redo-keeps order RecoveryAction.carrier_upgrade s = refl
redo-keeps order RecoveryAction.split_shipment s = refl
redo-keeps order RecoveryAction.take_no_action s = refl
redo-keeps order RecoveryAction.human_escalation s = refl

pub hydrate_from_durable_action-keeps :
    (order : OrderContext) (execution : ActionExecution) (s : SandboxState)
    → (hydrate_from_durable_action order execution s).delivery_outcomes ≡ s.delivery_outcomes
unfolding hydrate_from_durable_action seed_order
hydrate_from_durable_action-keeps order execution s = elim (Bool-cases (is_done execution.status)) [
  | inr other ↦ ground arith
  | inl done ↦ ground (arith, redo-keeps order execution.command.action (seed_order order s))
]
