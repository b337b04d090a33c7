-- ===== src/Execution.antt =====
-- src/promiseguard/execution.py: the gateway that executes an approved command once. Its state is the
-- database and the adapter's systems of record; `governed` says whether it has autonomy controls.
mod Steps
pub mod Outcome
pub mod Once
pub mod Frame
pub mod Record
pub mod Fresh
mod Tests
unfoldable pub use Steps.*
use promiseguard_ai.Prelude.{
  ℕ, Bool, true, false, Option, none, some, List, [], ◌∷◌, not, if◌then◌else◌,
}
use promiseguard_ai.Prelude.Text.{String, str_eq}
use promiseguard_ai.Prelude.Exec.{
  Result, ok, err, Exec, ErrorKind, ◌>>=◌, ◌>>◌, pure, raise, modify, gets, raise_if,
  action_execution_error, persistence_conflict_error,
}
use promiseguard_ai.Models.{
  ActionCommand, ActionExecution, ActionStatus, OrderContext, KillSwitchState, AutonomyProfile,
}
use promiseguard_ai.Codec.{Codec, hashed_id}
use promiseguard_ai.Database.{Db, session}
use promiseguard_ai.Persistence.{action_by_decision, record_action, update_action}
use promiseguard_ai.Autonomy.{kill_switch, record_execution}
use promiseguard_ai.Sandbox.{SandboxState, seed_order}

pub record World : Type 0 where
  pub db : Db
  pub sandbox : SandboxState

abbrev pub on_db : {A : Type 0} → Exec Db A → Exec World A
on_db m w = let (r, db') = m w.db in (r, record w { db = db' })

abbrev pub on_sandbox : {A : Type 0} → Exec SandboxState A → Exec World A
on_sandbox m w = let (r, s') = m w.sandbox in (r, record w { sandbox = s' })

pub record ActionGateway : Type 0 where
  pub codec : Codec
  pub governed : Bool

abbrev pub executing_of : ActionGateway → ActionCommand → ℕ → ActionExecution
executing_of g command started_at = record {
  action_id = hashed_id g.codec "act_" command.idempotency_key 24;
  command = command;
  status = ActionStatus.executing;
  steps = [];
  started_at = started_at;
  completed_at = none;
  error_code = none;
  manual_recovery_reason = none;
}

-- The check before anything else.
unfoldable pub check_kill_switch : ActionGateway → Exec Db (Unit {0})
check_kill_switch g =
    if g.governed
    then (do
      switch ← kill_switch
      raise_if switch.active action_execution_error "global action kill switch is active")
    else pure tt

-- The first session: an execution that exists, or the new one and that it is new.
unfoldable pub claim_action : ActionGateway → ActionExecution → Exec Db (ActionExecution × Bool)
claim_action g executing db = elim (action_by_decision executing.command.decision_id db) [
  | some existing ↦
      if str_eq existing.command.idempotency_key executing.command.idempotency_key
      then (ok (existing, false), db)
      else (
        err persistence_conflict_error
            "decision already has an action with a different idempotency key",
        db,
      )
  | none ↦
      let (result, db') = record_action g.codec executing db in
      elim result [ ok _ ↦ (ok (executing, true), db') | err k t ↦ (err k t, db') ]
]

abbrev pub failed_with : ActionExecution → ErrorKind → String → ℕ → ActionExecution
failed_with executing kind text completed_at = record executing {
  status = ActionStatus.failed;
  completed_at = some completed_at;
  error_code = some (kind_name kind);
  manual_recovery_reason = some text;
}

-- The last session, and the evidence that the controls take from it.
unfoldable pub conclude : ActionGateway → ActionExecution → ℕ → Exec Db ActionExecution
conclude g x now = do
  persisted ← session (update_action x)
  if g.governed then (do _ ← record_execution persisted now; pure persisted) else pure persisted

-- What follows the first session for a new execution.
unfoldable pub run_action :
    ActionGateway → ActionExecution → OrderContext → ℕ → (ℕ → ℕ) → Exec World ActionExecution
run_action g executing order now clock w =
    let (result, s') = execute_steps executing order now clock (seed_order order w.sandbox) in
    let w' : World = record w { sandbox = s' } in
    elim result [
      | ok completed ↦ on_db (conclude g completed (clock 4)) w'
      | err k t ↦ on_db (conclude g (failed_with executing k t (clock 3)) (clock 4) >> raise k t) w'
    ]

-- `ActionGateway.execute`
unfoldable pub execute :
    ActionGateway → ActionCommand → OrderContext → ℕ → (ℕ → ℕ) → Exec World ActionExecution
execute g command order now clock = do
  on_db (check_kill_switch g)
  (action, fresh) ← on_db (session (claim_action g (executing_of g command now)))
  if fresh then run_action g action order now clock else pure action
