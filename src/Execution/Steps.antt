-- ===== src/Execution/Steps.antt =====
-- `_execute_steps` of src/promiseguard/execution.py: the three actions, with verification after an
-- ambiguous answer and compensation after a failure. `clock n` is the n-th reading of the clock.
use promiseguard_ai.Prelude.{
  ℕ, Bool, true, false, ◌&&◌, Option, none, some, List, [], ◌∷◌, if◌then◌else◌,
}
use promiseguard_ai.Prelude.Text.{String, concat}
use promiseguard_ai.Prelude.Exec.{
  ok, err, Exec, ErrorKind, raise, action_execution_error, adapter_timeout,
  ambiguous_provider_timeout, adapter_rate_limited, malformed_adapter_response, adapter_auth_error,
  persistence_conflict_error,
}
use promiseguard_ai.Models.{
  ActionExecution, ActionStatus, ActionStepResult, OrderContext, RecoveryAction, StepStatus,
}
use promiseguard_ai.Sandbox.{
  SandboxState, reserve_alternative, release_alternative, change_location, restore_location,
  upgrade_carrier, restore_carrier, create_split, cancel_split, action_postcondition_holds,
}

-- `except (AmbiguousProviderTimeout, MalformedAdapterResponse)`
abbrev pub is_ambiguous : ErrorKind → Bool
is_ambiguous ambiguous_provider_timeout = true
is_ambiguous malformed_adapter_response = true
is_ambiguous _ = false

-- `except AdapterError`: the subclasses of errors.py
abbrev pub is_adapter_error : ErrorKind → Bool
is_adapter_error action_execution_error = true
is_adapter_error adapter_timeout = true
is_adapter_error ambiguous_provider_timeout = true
is_adapter_error adapter_rate_limited = true
is_adapter_error malformed_adapter_response = true
is_adapter_error adapter_auth_error = true
is_adapter_error _ = false

abbrev pub is_rate_limited : ErrorKind → Bool
is_rate_limited adapter_rate_limited = true
is_rate_limited _ = false

-- `type(exc).__name__`, of the exceptions that the adapter raises
pub kind_name : ErrorKind → String
kind_name action_execution_error = "ActionExecutionError"
kind_name adapter_timeout = "AdapterTimeout"
kind_name ambiguous_provider_timeout = "AmbiguousProviderTimeout"
kind_name adapter_rate_limited = "AdapterRateLimited"
kind_name malformed_adapter_response = "MalformedAdapterResponse"
kind_name adapter_auth_error = "AdapterAuthError"
kind_name persistence_conflict_error = "PersistenceConflictError"
kind_name _ = "Exception"

-- `_success_step`
abbrev pub success_step : ℕ → String → ℕ → ℕ → String → ActionStepResult
success_step sequence step_name attempted_at completed_at reference = record {
  sequence = sequence;
  step_name = step_name;
  status = StepStatus.succeeded;
  attempted_at = attempted_at;
  completed_at = some completed_at;
  provider_reference = some reference;
  release_reference = none;
  error_code = none;
}

abbrev pub compensation_step :
    ℕ → String → ℕ → ℕ → String → Option String → ErrorKind → ActionStepResult
compensation_step sequence step_name attempted_at completed_at reference released kind = record {
  sequence = sequence;
  step_name = step_name;
  status = StepStatus.compensated;
  attempted_at = attempted_at;
  completed_at = some completed_at;
  provider_reference = some reference;
  release_reference = released;
  error_code = some (kind_name kind);
}

abbrev pub succeeded_with : ActionExecution → List ActionStepResult → ℕ → ActionExecution
succeeded_with x steps completed_at = record x {
  status = ActionStatus.succeeded;
  steps = steps;
  completed_at = some completed_at;
}

abbrev pub compensated_with :
    ActionExecution → List ActionStepResult → ℕ → ErrorKind → ActionExecution
compensated_with x steps completed_at kind = record x {
  status = ActionStatus.compensated;
  steps = steps;
  completed_at = some completed_at;
  error_code = some (kind_name kind);
}

-- A call whose ambiguous failure counts as a success if the change is there.
unfoldable pub or_verified :
    OrderContext → RecoveryAction → Exec SandboxState String → Exec SandboxState String
or_verified order action call s =
    let (result, s') = call s in
    elim result [
      | ok reference ↦ (ok reference, s')
      | err k t ↦
          if is_ambiguous k
          then if action_postcondition_holds order action s'
            then (ok (concat ("verified-after-timeout:" ∷ order.order_id ∷ [])), s')
            else (err k t, s')
          else (err k t, s')
    ]

-- The handler of `_reroute` once there is a step: restore and release.
unfoldable pub compensate_reroute :
    ActionExecution
    → OrderContext
    → ℕ
    → (ℕ → ℕ)
    → ActionStepResult
    → ErrorKind
    → Exec SandboxState ActionExecution
compensate_reroute x order now clock reserved kind s =
    let (restore_ref, s1) = restore_location order s in
    let (release_ref, s2) = release_alternative order s1 in
    elim restore_ref [
      | err k t ↦ (err k t, s1)
      | ok restored ↦ elim release_ref [
        | err k t ↦ (err k t, s2)
        | ok released ↦ (
          ok (
              compensated_with x
                (reserved
                  ∷ compensation_step 2 "compensate_reroute" now (clock 1) restored (some released)
                      kind
                  ∷ [])
                (clock 2) kind),
          s2,
        )
      ]
    ]

-- `_reroute`
unfoldable pub reroute :
    ActionExecution → OrderContext → ℕ → (ℕ → ℕ) → Exec SandboxState ActionExecution
unfolding or_verified compensate_reroute
reroute x order now clock s =
    let key = x.command.idempotency_key in
    let (reserved, s1) = reserve_alternative order (concat (key ∷ ":reserve" ∷ [])) s in
    elim reserved [
      | err k t ↦ (err k t, s1)
      | ok reference ↦
          let first = success_step 1 "reserve_alternative" now (clock 0) reference in
          let (changed, s2) =
            or_verified order RecoveryAction.reroute
              (change_location order (concat (key ∷ ":change-location" ∷ []))) s1 in
          elim changed [
            | ok reference' ↦ (
              ok (
                  succeeded_with x
                    (first ∷ success_step 2 "change_location" now (clock 1) reference' ∷ [])
                    (clock 2)),
              s2,
            )
            | err k t ↦
                if is_rate_limited k
                then (err k t, s2)
                else compensate_reroute x order now clock first k s2
          ]
    ]

-- `_carrier_upgrade` and `_split` have one shape: a call, its verification, and its undoing where an
-- adapter error leaves the change behind.
unfoldable pub single_step :
    RecoveryAction
    → String
    → String
    → Exec SandboxState String
    → Exec SandboxState String
    → ActionExecution
    → OrderContext
    → ℕ
    → (ℕ → ℕ)
    → Exec SandboxState ActionExecution
unfolding or_verified
single_step action name undo_name call undo x order now clock s =
    let (result, s1) = or_verified order action call s in
    elim result [
      | ok reference ↦
          (ok (succeeded_with x (success_step 1 name now (clock 0) reference ∷ []) (clock 1)), s1)
      | err k t ↦
          if is_ambiguous k
          then (err k t, s1)
          else if is_adapter_error k && action_postcondition_holds order action s1
          then (let (undone, s2) = undo s1 in
              elim undone [
                | err k' t' ↦ (err k' t', s2)
                | ok reference ↦ (
                  ok (
                      compensated_with x
                        (compensation_step 1 undo_name now (clock 0) reference none k ∷ [])
                        (clock 1) k),
                  s2,
                )
              ])
          else (err k t, s1)
    ]

-- `_carrier_upgrade`
unfoldable pub carrier_upgrade :
    ActionExecution → OrderContext → ℕ → (ℕ → ℕ) → Exec SandboxState ActionExecution
unfolding single_step
carrier_upgrade x order =
    single_step RecoveryAction.carrier_upgrade "upgrade_carrier" "compensate_carrier_upgrade"
      (upgrade_carrier order (concat (x.command.idempotency_key ∷ ":carrier" ∷ [])))
      (restore_carrier order) x order

-- `_split`
unfoldable pub split :
    ActionExecution → OrderContext → ℕ → (ℕ → ℕ) → Exec SandboxState ActionExecution
unfolding single_step
split x order =
    single_step RecoveryAction.split_shipment "create_split" "compensate_split"
      (create_split order (concat (x.command.idempotency_key ∷ ":split" ∷ []))) (cancel_split order)
      x order

-- `_execute_steps`
unfoldable pub execute_steps :
    ActionExecution → OrderContext → ℕ → (ℕ → ℕ) → Exec SandboxState ActionExecution
unfolding reroute carrier_upgrade split
execute_steps x order now clock = elim x.command.action [
  | RecoveryAction.reroute ↦ reroute x order now clock
  | RecoveryAction.carrier_upgrade ↦ carrier_upgrade x order now clock
  | RecoveryAction.split_shipment ↦ split x order now clock
  | RecoveryAction.take_no_action ↦
      raise action_execution_error "action TAKE_NO_ACTION is not executable"
  | RecoveryAction.human_escalation ↦
      raise action_execution_error "action HUMAN_ESCALATION is not executable"
]
