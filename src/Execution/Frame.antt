-- ===== src/Execution/Frame.antt =====
-- What the actions of src/promiseguard/execution.py leave of an execution as it was.
use promiseguard_ai.Prelude.{ℕ, ◌≡◌, refl, [], ◌∷◌, arith, inl, inr, Option-cases, Bool-cases}
use promiseguard_ai.Prelude.Text.{String, concat}
use promiseguard_ai.Prelude.Exec.{ok, Exec, ErrorKind, Exec-cases}
use promiseguard_ai.Models.{ActionExecution, ActionStepResult, OrderContext, RecoveryAction}
use promiseguard_ai.Sandbox.{
  SandboxState, reserve_alternative, change_location, restore_location, release_alternative,
  upgrade_carrier, restore_carrier, create_split, cancel_split,
}
use promiseguard_ai.Execution.{
  execute_steps, reroute, carrier_upgrade, split, single_step, compensate_reroute, or_verified,
  is_rate_limited, success_step,
}

-- An execution as it ends: what an update writes over it.
abbrev pub ended : ActionExecution → ActionExecution → ActionExecution
ended executing final = record executing {
  status = final.status;
  steps = final.steps;
  completed_at = final.completed_at;
  error_code = final.error_code;
  manual_recovery_reason = final.manual_recovery_reason;
}

single_step-ended :
    (action : RecoveryAction) (name undo_name : String) (call undo : Exec SandboxState String)
    (x : ActionExecution) (order : OrderContext) (now : ℕ) (clock : ℕ → ℕ) (s s' : SandboxState)
    {done : ActionExecution}
    → single_step action name undo_name call undo x order now clock s ≡ (ok done, s')
    → done ≡ ended x done
unfolding single_step
single_step-ended action name undo_name call undo x order now clock s s' {done} h =
    elim (Exec-cases (or_verified order action call s)) [
      | inl (q, s1, e) ↦ ground arith
      | inr (k, t, s1, e) ↦ elim (Exec-cases (undo s1)) [
        | inl (q, s2, e2) ↦ ground arith
        | inr (k2, t2, s2, e2) ↦ ground arith
      ]
    ]

compensate_reroute-ended :
    (x : ActionExecution) (order : OrderContext) (now : ℕ) (clock : ℕ → ℕ)
    (first : ActionStepResult) (kind : ErrorKind) (s s' : SandboxState) {done : ActionExecution}
    → compensate_reroute x order now clock first kind s ≡ (ok done, s')
    → done ≡ ended x done
unfolding compensate_reroute restore_location release_alternative
compensate_reroute-ended x order now clock first kind s s' {done} h =
    elim (Option-cases order.alternative_location_id) [
      | inl missing ↦ ground arith
      | inr (location, found) ↦ ground arith
    ]

reroute-ended :
    (x : ActionExecution) (order : OrderContext) (now : ℕ) (clock : ℕ → ℕ) (s s' : SandboxState)
    {done : ActionExecution}
    → reroute x order now clock s ≡ (ok done, s')
    → done ≡ ended x done
unfolding reroute
reroute-ended x order now clock s s' {done} h =
    let key = x.command.idempotency_key in
    elim (Exec-cases (reserve_alternative order (concat (key ∷ ":reserve" ∷ [])) s)) [
      | inr (k, t, s1, e) ↦ absurd (ground arith)
      | inl (reference, s1, e) ↦
          let call = change_location order (concat (key ∷ ":change-location" ∷ [])) in
          elim (Exec-cases (or_verified order RecoveryAction.reroute call s1)) [
            | inl (q, s2, e2) ↦ ground arith
            | inr (k, t, s2, e2) ↦ elim (Bool-cases (is_rate_limited k)) [
              | inl limited ↦ absurd (ground arith)
              | inr other ↦
                  let first = success_step 1 "reserve_alternative" now (clock 0) reference in
                  compensate_reroute-ended x order now clock first k s2 s' {done = done}
                    (ground arith)
            ]
          ]
    ]

of_action :
    (x : ActionExecution) (order : OrderContext) (now : ℕ) (clock : ℕ → ℕ) (s s' : SandboxState)
    {done : ActionExecution} (action : RecoveryAction)
    → x.command.action ≡ action
    → execute_steps x order now clock s ≡ (ok done, s')
    → done ≡ ended x done
unfolding execute_steps carrier_upgrade split
of_action x order now clock s s' {done} RecoveryAction.reroute a h =
    reroute-ended x order now clock s s' {done = done} (ground arith)
of_action x order now clock s s' {done} RecoveryAction.carrier_upgrade a h =
    single_step-ended RecoveryAction.carrier_upgrade "upgrade_carrier" "compensate_carrier_upgrade"
      (upgrade_carrier order (concat (x.command.idempotency_key ∷ ":carrier" ∷ [])))
      (restore_carrier order) x order now clock s s' {done = done} (ground arith)
of_action x order now clock s s' {done} RecoveryAction.split_shipment a h =
    single_step-ended RecoveryAction.split_shipment "create_split" "compensate_split"
      (create_split order (concat (x.command.idempotency_key ∷ ":split" ∷ []))) (cancel_split order)
      x order now clock s s' {done = done} (ground arith)
of_action x order now clock s s' RecoveryAction.take_no_action a h = absurd (ground arith)
of_action x order now clock s s' RecoveryAction.human_escalation a h = absurd (ground arith)

-- Steps that return keep the identifier, the command and the start of the execution.
pub execute_steps-ended :
    (x : ActionExecution) (order : OrderContext) (now : ℕ) (clock : ℕ → ℕ) (s s' : SandboxState)
    {done : ActionExecution}
    → execute_steps x order now clock s ≡ (ok done, s')
    → done ≡ ended x done
execute_steps-ended x order now clock s s' h =
    of_action x order now clock s s' x.command.action refl h
