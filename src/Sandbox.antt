-- ===== src/Sandbox.antt =====
-- src/promiseguard/adapters/sandbox.py: the simulated operations adapter over the shared runtime. The
-- typed requests and responses carry the arguments and the reference through; what the gateway reads
-- of a response is the reference.
mod State
unfoldable pub use State.*
use promiseguard_ai.Prelude.{
  ℕ, Bool, true, false, ◌&&◌, not, Option, none, some, List, [], ◌∷◌, any, select, if◌then◌else◌,
  is_some,
}
use promiseguard_ai.Prelude.Text.{String, str_eq, concat}
use promiseguard_ai.Prelude.Exec.{
  Result, ok, err, Exec, ◌>>=◌, ◌>>◌, pure, raise, gets, modify, raise_if, or_raise,
  action_execution_error, adapter_rate_limited, ambiguous_provider_timeout,
  malformed_adapter_response, persistence_conflict_error, value_error,
}
use promiseguard_ai.Models.{OrderContext, RecoveryAction, ActionExecution, ActionStatus}

-- `seed_order`
unfoldable pub seed_order : OrderContext → SandboxState → SandboxState
seed_order order s = record s {
  order_locations = dict_default order.order_id order.current_fulfilment_location s.order_locations;
  carrier_services = dict_default order.order_id order.current_carrier_service s.carrier_services;
}

abbrev is_failure_mode : String → Bool
is_failure_mode mode =
    any (str_eq mode) ("before" ∷ "after" ∷ "malformed" ∷ "rate_limited" ∷ "hard_after" ∷ [])

-- `inject_failure`
pub inject_failure : String → String → Exec SandboxState (Unit {0})
inject_failure step mode = do
  raise_if (not (is_failure_mode mode)) value_error
      "failure timing must be one of after, before, hard_after, malformed, rate_limited"
  modify (λ s. record s { failure_modes = dict_set step mode s.failure_modes })

-- `clear_failures`
pub clear_failures : SandboxState → SandboxState
clear_failures s = record s { failure_modes = [] }

abbrev pub mode_is : String → Option String → Bool
mode_is mode none = false
mode_is mode (some found) = str_eq found mode

-- `claim_key`
unfoldable pub claim_key : String → String → Exec SandboxState (Unit {0})
claim_key key operation = do
  existing ← gets (λ s. dict_get key s.applied_idempotency_keys)
  raise_if (is_some existing && not (mode_is operation existing)) persistence_conflict_error
      "provider idempotency key was reused for a different operation"
  modify (λ s. record s {
    applied_idempotency_keys = dict_set key operation s.applied_idempotency_keys;
  })

-- `before`
unfoldable pub before : String → Exec SandboxState (Unit {0})
before step = do
  mode ← gets (λ s. dict_get step s.failure_modes)
  raise_if (mode_is "before" mode) action_execution_error
      (concat ("injected failure before " ∷ step ∷ []))
  raise_if (mode_is "rate_limited" mode) adapter_rate_limited
      (concat ("injected rate limit before " ∷ step ∷ []))

-- `after`
unfoldable pub after : String → Exec SandboxState (Unit {0})
after step = do
  mode ← gets (λ s. dict_get step s.failure_modes)
  raise_if (mode_is "after" mode) ambiguous_provider_timeout
      (concat ("injected timeout after " ∷ step ∷ []))
  raise_if (mode_is "malformed" mode) malformed_adapter_response
      (concat ("injected malformed response after " ∷ step ∷ []))
  raise_if (mode_is "hard_after" mode) action_execution_error
      (concat ("injected hard failure after " ∷ step ∷ []))

-- An operation of an adapter: the checks around the change.
unfoldable pub operation :
    String → String → String → (SandboxState → SandboxState) → String → Exec SandboxState String
operation step key claim change reference = do
  before step
  claim_key key claim
  modify change
  after step
  pure reference

abbrev pub reserved_at : String → String → SandboxState → SandboxState
reserved_at order_id location s = record s {
  alternative_reservations =
      if any (same_pair (order_id, location)) s.alternative_reservations
      then s.alternative_reservations
      else (order_id, location) ∷ s.alternative_reservations;
}

abbrev pub located_at : String → String → SandboxState → SandboxState
located_at order_id location s = record s {
  order_locations = dict_set order_id location s.order_locations;
}

abbrev pub served_by : String → String → SandboxState → SandboxState
served_by order_id service s = record s {
  carrier_services = dict_set order_id service s.carrier_services;
}

abbrev pub no_alternative : Exec SandboxState String
no_alternative = raise action_execution_error "alternative location is not available"

-- `reserve_alternative` and `reserve_inventory`
unfoldable pub reserve_alternative : OrderContext → String → Exec SandboxState String
reserve_alternative order key = elim order.alternative_location_id [
  | none ↦ no_alternative
  | some location ↦
      operation "reserve_alternative" key
        (concat ("reserve:" ∷ order.order_id ∷ ":" ∷ location ∷ []))
        (reserved_at order.order_id location)
        (concat ("reservation:" ∷ order.order_id ∷ ":" ∷ location ∷ []))
]

-- `release_alternative` and `release_inventory`
unfoldable pub release_alternative : OrderContext → Exec SandboxState String
release_alternative order s =
    let reference = concat ("released:" ∷ order.order_id ∷ []) in
    elim order.alternative_location_id [
      | none ↦ (ok reference, s)
      | some location ↦ (
        ok reference,
        record s {
          alternative_reservations =
              select (λ p. not (same_pair (order.order_id, location) p)) s.alternative_reservations;
        },
      )
    ]

-- `change_location` and `change_fulfilment_location`
unfoldable pub change_location : OrderContext → String → Exec SandboxState String
change_location order key = elim order.alternative_location_id [
  | none ↦ no_alternative
  | some location ↦
      operation "change_location" key (concat ("reroute:" ∷ order.order_id ∷ ":" ∷ location ∷ []))
        (located_at order.order_id location)
        (concat ("order-location:" ∷ order.order_id ∷ ":" ∷ location ∷ []))
]

-- `restore_location` and `restore_fulfilment_location`
unfoldable pub restore_location : OrderContext → Exec SandboxState String
restore_location order s = (
  ok (
      concat
        ("restored-location:" ∷ order.order_id ∷ ":" ∷ order.current_fulfilment_location ∷ [])),
  located_at order.order_id order.current_fulfilment_location s,
)

-- `upgrade_carrier` and `upgrade_service`
unfoldable pub upgrade_carrier : OrderContext → String → Exec SandboxState String
upgrade_carrier order key =
    operation "upgrade_carrier" key
      (concat ("carrier:" ∷ order.order_id ∷ ":" ∷ order.upgraded_carrier_service ∷ []))
      (served_by order.order_id order.upgraded_carrier_service)
      (concat ("carrier-service:" ∷ order.order_id ∷ ":" ∷ order.upgraded_carrier_service ∷ []))

-- `restore_carrier` and `restore_service`
unfoldable pub restore_carrier : OrderContext → Exec SandboxState String
restore_carrier order s = (
  ok (concat ("restored-carrier:" ∷ order.order_id ∷ ":" ∷ order.current_carrier_service ∷ [])),
  served_by order.order_id order.current_carrier_service s,
)

-- `create_split` and `create_split_shipment`
unfoldable pub create_split : OrderContext → String → Exec SandboxState String
create_split order key =
    if order.split_shipment_possible
    then operation "create_split" key (concat ("split:" ∷ order.order_id ∷ []))
        (λ s. record s { split_shipments = add order.order_id s.split_shipments })
        (concat ("split-shipment:" ∷ order.order_id ∷ []))
    else raise action_execution_error "split shipment is not feasible"

-- `cancel_split` and `cancel_split_shipment`
unfoldable pub cancel_split : OrderContext → Exec SandboxState String
cancel_split order s = (
  ok (concat ("cancelled-split:" ∷ order.order_id ∷ [])),
  record s { split_shipments = discard order.order_id s.split_shipments },
)

-- `action_postcondition_holds`
unfoldable pub action_postcondition_holds : OrderContext → RecoveryAction → SandboxState → Bool
action_postcondition_holds order RecoveryAction.reroute s = elim order.alternative_location_id [
  | none ↦ false
  | some location ↦ mode_is location (dict_get order.order_id s.order_locations)
]
action_postcondition_holds order RecoveryAction.carrier_upgrade s =
    mode_is order.upgraded_carrier_service (dict_get order.order_id s.carrier_services)
action_postcondition_holds order RecoveryAction.split_shipment s =
    member order.order_id s.split_shipments
action_postcondition_holds order RecoveryAction.take_no_action s = true
action_postcondition_holds order RecoveryAction.human_escalation s = false

-- `record_delivery_outcome` and `record_delivery`
unfoldable pub record_delivery_outcome : String → Bool → Exec SandboxState (Unit {0})
record_delivery_outcome order_id delivered_on_time =
    modify (λ s. record s {
      delivery_outcomes = dict_set order_id delivered_on_time s.delivery_outcomes;
    })

abbrev pub is_done : ActionStatus → Bool
is_done ActionStatus.succeeded = true
is_done ActionStatus.verified = true
is_done _ = false

-- The change that a finished action made.
unfoldable pub redo : OrderContext → RecoveryAction → SandboxState → SandboxState
redo order RecoveryAction.reroute s = elim order.alternative_location_id [
  | none ↦ s
  | some location ↦ reserved_at order.order_id location (located_at order.order_id location s)
]
redo order RecoveryAction.carrier_upgrade s =
    served_by order.order_id order.upgraded_carrier_service s
redo order RecoveryAction.split_shipment s = record s {
  split_shipments = add order.order_id s.split_shipments;
}
redo order _ s = s

-- `hydrate_from_durable_action`
unfoldable pub hydrate_from_durable_action :
    OrderContext → ActionExecution → SandboxState → SandboxState
unfolding redo
hydrate_from_durable_action order execution s =
    if is_done execution.status
    then redo order execution.command.action (seed_order order s)
    else seed_order order s
