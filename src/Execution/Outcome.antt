-- ===== src/Execution/Outcome.antt =====
-- How the actions of src/promiseguard/execution.py end, in the systems of record of the adapter.
use promiseguard_ai.Prelude.{
  ℕ, ◌≡◌, ◌⊎◌, refl, Bool, true, not, [], ◌∷◌, arith, inl, inr, Option-cases, Bool-cases,
}
use promiseguard_ai.Prelude.Text.{String, concat, str_eq_refl}
use promiseguard_ai.Prelude.Exec.{ok, Exec, ErrorKind, Exec-cases}
use promiseguard_ai.Models.{
  ActionExecution, ActionStepResult, ActionStatus, OrderContext, RecoveryAction,
}
use promiseguard_ai.Sandbox.{
  SandboxState, dict_get, dict_get-dict_set, member, member-add, member-discard, operation, before,
  claim_key, after, located_at, add, restore_location, release_alternative, upgrade_carrier,
  restore_carrier, create_split, change_location, cancel_split, action_postcondition_holds,
  reserve_alternative, mode_is,
}
use promiseguard_ai.Execution.{
  execute_steps, reroute, carrier_upgrade, split, single_step, compensate_reroute, or_verified,
  is_rate_limited, success_step,
}

-- The order is as it was before the action: at its location, with its carrier, or not split.
unfoldable pub is_restored : OrderContext → RecoveryAction → SandboxState → Bool
is_restored order RecoveryAction.reroute s =
    mode_is order.current_fulfilment_location (dict_get order.order_id s.order_locations)
is_restored order RecoveryAction.carrier_upgrade s =
    mode_is order.current_carrier_service (dict_get order.order_id s.carrier_services)
is_restored order RecoveryAction.split_shipment s = not (member order.order_id s.split_shipments)
is_restored order _ s = true

after-keeps : (step : String) (s : SandboxState) → (after step s).1 ≡ s
unfolding after
after-keeps step s = ground arith

-- A call of the sandbox that returns has made its change.
operation_ok :
    (step key claim reference : String) (change : SandboxState → SandboxState) (s s' : SandboxState)
    {r : String}
    → operation step key claim change reference s ≡ (ok r, s')
    → (s0 : SandboxState) × (s' ≡ change s0)
unfolding operation
operation_ok step key claim reference change s s' h = elim (Exec-cases (before step s)) [
  | inr (k, t, s1, raised) ↦ absurd (ground arith)
  | inl (u, s1, e1) ↦ elim (Exec-cases (claim_key key claim s1)) [
    | inr (k, t, s2, raised) ↦ absurd (ground arith)
    | inl (v, s2, e2) ↦ (s2, ground (arith, after-keeps step (change s2)))
  ]
]

change_location_ok :
    (order : OrderContext) (key : String) (s s' : SandboxState) {r : String}
    → change_location order key s ≡ (ok r, s')
    → action_postcondition_holds order RecoveryAction.reroute s' ≡ true
unfolding change_location action_postcondition_holds
change_location_ok order key s s' h = elim (Option-cases order.alternative_location_id) [
  | inl missing ↦ absurd (ground arith)
  | inr (location, found) ↦
      let called : operation "change_location" key
            (concat ("reroute:" ∷ order.order_id ∷ ":" ∷ location ∷ []))
            (located_at order.order_id location)
            (concat ("order-location:" ∷ order.order_id ∷ ":" ∷ location ∷ [])) s
          ≡ (ok _, s') =
        rw found at h in
      let (s0, made) = operation_ok _ _ _ _ _ s s' called in
      rw (found, made)
        (ground (
          arith,
          dict_get-dict_set order.order_id location s0.order_locations,
          str_eq_refl location,
        ))
]

upgrade_carrier_ok :
    (order : OrderContext) (key : String) (s s' : SandboxState) {r : String}
    → upgrade_carrier order key s ≡ (ok r, s')
    → action_postcondition_holds order RecoveryAction.carrier_upgrade s' ≡ true
unfolding upgrade_carrier action_postcondition_holds
upgrade_carrier_ok order key s s' h =
    let (s0, made) = operation_ok _ _ _ _ _ s s' h in
    let service = order.upgraded_carrier_service in
    rw made (
      ground
        (arith, dict_get-dict_set order.order_id service s0.carrier_services, str_eq_refl service))

create_split_ok :
    (order : OrderContext) (key : String) (s s' : SandboxState) {r : String}
    → create_split order key s ≡ (ok r, s')
    → action_postcondition_holds order RecoveryAction.split_shipment s' ≡ true
unfolding create_split action_postcondition_holds
create_split_ok order key s s' h = elim (Bool-cases order.split_shipment_possible) [
  | inr unable ↦ absurd (ground arith)
  | inl able ↦
      let called : operation "create_split" key (concat ("split:" ∷ order.order_id ∷ []))
            (λ z. record z { split_shipments = add order.order_id z.split_shipments })
            (concat ("split-shipment:" ∷ order.order_id ∷ [])) s
          ≡ (ok _, s') =
        rw able at h in
      let (s0, made) = operation_ok _ _ _ _ _ s s' called in
      rw made (member-add order.order_id s0.split_shipments)
]

-- A verified call has its postcondition, if the call itself has.
or_verified_ok :
    (order : OrderContext) (action : RecoveryAction) (call : Exec SandboxState String)
    (s s' : SandboxState) {r : String}
    → ((s1 : SandboxState) (q : String)
        → call s ≡ (ok q, s1)
        → action_postcondition_holds order action s1 ≡ true)
    → or_verified order action call s ≡ (ok r, s')
    → action_postcondition_holds order action s' ≡ true
unfolding or_verified
or_verified_ok order action call s s' {r} post h = elim (Exec-cases (call s)) [
  | inl (q, s1, e) ↦ let holds = post s1 q e in ground arith
  | inr (k, t, s1, e) ↦ ground arith
]

-- How an action ends that returns: succeeded with its postcondition, or compensated and restored.
abbrev pub Ends : OrderContext → RecoveryAction → ActionExecution → SandboxState → Type 0
Ends order action done s =
    ((done.status ≡ ActionStatus.succeeded) × (action_postcondition_holds order action s ≡ true))
    ⊎ ((done.status ≡ ActionStatus.compensated) × (is_restored order action s ≡ true))

single_step-Ends :
    (action : RecoveryAction) (name undo_name : String) (call undo : Exec SandboxState String)
    (x : ActionExecution) (order : OrderContext) (now : ℕ) (clock : ℕ → ℕ) (s s' : SandboxState)
    {done : ActionExecution}
    → ((s0 s1 : SandboxState) (q : String)
        → call s0 ≡ (ok q, s1)
        → action_postcondition_holds order action s1 ≡ true)
    → ((s0 : SandboxState) → is_restored order action (undo s0).1 ≡ true)
    → single_step action name undo_name call undo x order now clock s ≡ (ok done, s')
    → Ends order action done s'
unfolding single_step
single_step-Ends action name undo_name call undo x order now clock s s' {done} post back h =
    elim (Exec-cases (or_verified order action call s)) [
      | inl (q, s1, e) ↦
          let holds = or_verified_ok order action call s s1 (post s) e in
          inl (ground arith, ground arith)
      | inr (k, t, s1, e) ↦ let restored = back s1 in inr (ground arith, ground arith)
    ]

compensate_reroute-restores :
    (x : ActionExecution) (order : OrderContext) (now : ℕ) (clock : ℕ → ℕ)
    (first : ActionStepResult) (kind : ErrorKind) (s s' : SandboxState) {done : ActionExecution}
    → compensate_reroute x order now clock first kind s ≡ (ok done, s')
    → (done.status ≡ ActionStatus.compensated)
      × (is_restored order RecoveryAction.reroute s' ≡ true)
unfolding compensate_reroute restore_location release_alternative is_restored
compensate_reroute-restores x order now clock first kind s s' h =
    let home = order.current_fulfilment_location in
    let set = dict_get-dict_set order.order_id home s.order_locations in
    let same = str_eq_refl home in
    elim (Option-cases order.alternative_location_id) [
      | inl missing ↦ (ground arith, ground arith)
      | inr (location, found) ↦ (ground arith, ground arith)
    ]

reroute-Ends :
    (x : ActionExecution) (order : OrderContext) (now : ℕ) (clock : ℕ → ℕ) (s s' : SandboxState)
    {done : ActionExecution}
    → reroute x order now clock s ≡ (ok done, s')
    → Ends order RecoveryAction.reroute done s'
unfolding reroute
reroute-Ends x order now clock s s' {done} h =
    let key = x.command.idempotency_key in
    elim (Exec-cases (reserve_alternative order (concat (key ∷ ":reserve" ∷ [])) s)) [
      | inr (k, t, s1, e) ↦ absurd (ground arith)
      | inl (reference, s1, e) ↦
          let call = change_location order (concat (key ∷ ":change-location" ∷ [])) in
          elim (Exec-cases (or_verified order RecoveryAction.reroute call s1)) [
            | inl (q, s2, e2) ↦
                let holds =
                  or_verified_ok order RecoveryAction.reroute call s1 s2
                    (λ z q'. change_location_ok order _ s1 z) e2 in
                inl (ground arith, ground arith)
            | inr (k, t, s2, e2) ↦ elim (Bool-cases (is_rate_limited k)) [
              | inl limited ↦ absurd (ground arith)
              | inr other ↦
                  let first = success_step 1 "reserve_alternative" now (clock 0) reference in
                  inr (
                    compensate_reroute-restores x order now clock first k s2 s' {done = done}
                      (ground arith))
            ]
          ]
    ]

restore_carrier-restores :
    (order : OrderContext) (s : SandboxState)
    → is_restored order RecoveryAction.carrier_upgrade (restore_carrier order s).1 ≡ true
unfolding restore_carrier is_restored
restore_carrier-restores order s =
    let service = order.current_carrier_service in
    ground (arith, dict_get-dict_set order.order_id service s.carrier_services, str_eq_refl service)

cancel_split-restores :
    (order : OrderContext) (s : SandboxState)
    → is_restored order RecoveryAction.split_shipment (cancel_split order s).1 ≡ true
unfolding cancel_split is_restored
cancel_split-restores order s = ground (arith, member-discard order.order_id s.split_shipments)

execute_steps-Ends :
    (x : ActionExecution) (order : OrderContext) (now : ℕ) (clock : ℕ → ℕ) (s s' : SandboxState)
    {done : ActionExecution} (action : RecoveryAction)
    → x.command.action ≡ action
    → execute_steps x order now clock s ≡ (ok done, s')
    → Ends order action done s'
unfolding execute_steps carrier_upgrade split
execute_steps-Ends x order now clock s s' {done} RecoveryAction.reroute a h =
    reroute-Ends x order now clock s s' {done = done} (ground arith)
execute_steps-Ends x order now clock s s' {done} RecoveryAction.carrier_upgrade a h =
    single_step-Ends RecoveryAction.carrier_upgrade "upgrade_carrier" "compensate_carrier_upgrade"
      (upgrade_carrier order (concat (x.command.idempotency_key ∷ ":carrier" ∷ [])))
      (restore_carrier order) x order now clock s s' {done = done}
      (λ s0 s1 q e. upgrade_carrier_ok order _ s0 s1 e) (restore_carrier-restores order)
      (ground arith)
execute_steps-Ends x order now clock s s' {done} RecoveryAction.split_shipment a h =
    single_step-Ends RecoveryAction.split_shipment "create_split" "compensate_split"
      (create_split order (concat (x.command.idempotency_key ∷ ":split" ∷ []))) (cancel_split order)
      x order now clock s s' {done = done} (λ s0 s1 q e. create_split_ok order _ s0 s1 e)
      (cancel_split-restores order) (ground arith)
execute_steps-Ends x order now clock s s' {done} RecoveryAction.take_no_action a h =
    absurd (ground arith)
execute_steps-Ends x order now clock s s' {done} RecoveryAction.human_escalation a h =
    absurd (ground arith)

-- If the steps of an action return, then the execution has succeeded and the action's
-- postcondition holds in the adapter's systems of record, or it is compensated and the order is
-- restored there: at its location, with its carrier, or not split.
pub execute_steps_outcome :
    (x : ActionExecution) (order : OrderContext) (now : ℕ) (clock : ℕ → ℕ) (s s' : SandboxState)
    {done : ActionExecution}
    → execute_steps x order now clock s ≡ (ok done, s')
    → ((done.status ≡ ActionStatus.succeeded)
        × (action_postcondition_holds order x.command.action s' ≡ true))
      ⊎ ((done.status ≡ ActionStatus.compensated) × (is_restored order x.command.action s' ≡ true))
execute_steps_outcome x order now clock s s' h =
    execute_steps-Ends x order now clock s s' x.command.action refl h
