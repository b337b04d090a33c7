-- ===== src/Execution/Fresh.antt =====
-- `execute` of src/promiseguard/execution.py on a command that is new to it, and a second call.
use promiseguard_ai.Prelude.{ℕ, ◌≡◌, ◌⊎◌, refl, true, none, some, arith, find}
use promiseguard_ai.Prelude.Text.{str_eq, str_eq_refl}
use promiseguard_ai.Prelude.Exec.{ok}
use promiseguard_ai.Models.{ActionCommand, ActionExecution, ActionStatus, OrderContext}
use promiseguard_ai.Database.{Db, ActionRow, session}
use promiseguard_ai.Persistence.{action_by_decision, record_action}
use promiseguard_ai.Autonomy.{kill_switch}
use promiseguard_ai.Autonomy.Frame.{Same}
use promiseguard_ai.Execution.Once.{check_kill_switch-keeps, execute_existing}
use promiseguard_ai.Execution.{
  ActionGateway, World, execute, run_action, check_kill_switch, claim_action, executing_of,
}
use promiseguard_ai.Execution.Record.{
  inserted, run_action-stores, of_stored, concluded, concluded-command, concluded_ends, stored,
}

claim_action-inserts :
    (g : ActionGateway) (executing : ActionExecution) (db : Db)
    → action_by_decision executing.command.decision_id db ≡ none
    → find
        (λ (r : ActionRow). str_eq r.idempotency_key executing.command.idempotency_key)
        db.actions
      ≡ none
    → find (λ (r : ActionRow). str_eq r.action_id executing.action_id) db.actions ≡ none
    → session (claim_action g executing) db ≡ (ok (executing, true), inserted g.codec executing db)
unfolding claim_action record_action inserted
claim_action-inserts g executing db no_decision no_key no_id = ground arith

module _ (g : ActionGateway) (command : ActionCommand) (order : OrderContext) (now : ℕ)
    (clock : ℕ → ℕ) (w : World) (alive : (check_kill_switch g w.db).0 ≡ ok tt)
    (no_decision : action_by_decision command.decision_id w.db ≡ none)
    (no_key : find
        (λ (r : ActionRow). str_eq r.idempotency_key command.idempotency_key)
        w.db.actions
      ≡ none)
    (no_id : find
        (λ (r : ActionRow). str_eq r.action_id (executing_of g command now).action_id)
        w.db.actions
      ≡ none) where
  abbrev claimed : World
  claimed = record w { db = inserted g.codec (executing_of g command now) w.db }

  execute-runs :
      execute g command order now clock w
      ≡ run_action g (executing_of g command now) order now clock claimed
  unfolding execute
  execute-runs = ground (
    arith,
    check_kill_switch-keeps g w.db,
    claim_action-inserts g (executing_of g command now) w.db no_decision no_key no_id,
  )

  after-Same :
      Same
        (execute g command order now clock w).1.db
        (stored g order now clock w (executing_of g command now))
  after-Same =
      rw execute-runs
        (run_action-stores g order now clock w (executing_of g command now) no_decision no_id)

  still_alive : (check_kill_switch g (execute g command order now clock w).1.db).0 ≡ ok tt
  unfolding check_kill_switch kill_switch
  still_alive =
      let (ps, es, e) = after-Same in
      let same : (execute g command order now clock w).1.db.kill_switch ≡ w.db.kill_switch =
        rw e refl in
      ground (arith, same)

  -- New
  pub execute_stores :
      action_by_decision command.decision_id (execute g command order now clock w).1.db
      ≡ some (concluded g order now clock w (executing_of g command now))
  execute_stores =
      of_stored g order now clock w (executing_of g command now) no_decision
        (execute g command order now clock w).1.db after-Same

  -- Where the kill switch does not stop it and the command is new to the gateway, a second
  -- execution of it after the first, whether that returned or raised, returns the execution
  -- that the first stored, and changes neither the database nor the systems of record.
  pub execute_again :
      (order' : OrderContext) (now' : ℕ) (clock' : ℕ → ℕ)
      → execute g command order' now' clock' (execute g command order now clock w).1 ≡ (
        ok (concluded g order now clock w (executing_of g command now)),
        (execute g command order now clock w).1,
      )
  execute_again order' now' clock' =
      let x = executing_of g command now in
      rw
        (
          execute_existing g command order' now' clock' (execute g command order now clock w).1
              still_alive execute_stores,
          concluded-command g order now clock w x,
          str_eq_refl command.idempotency_key,
        )
        refl

  -- Where the kill switch does not stop it and the command is new to the gateway, execute
  -- stores an execution of the command for its decision, whether it returns or raises, and
  -- that execution has succeeded, was compensated or has failed.
  pub execute_ends :
      (x : ActionExecution) × (action_by_decision command.decision_id
          (execute g command order now clock w).1.db
        ≡ some x)
      × (x.command ≡ command)
      × ((x.status ≡ ActionStatus.succeeded)
          ⊎ (x.status ≡ ActionStatus.compensated)
          ⊎ (x.status ≡ ActionStatus.failed))
  execute_ends =
      let x = executing_of g command now in
      (
        concluded g order now clock w x,
        execute_stores,
        concluded-command g order now clock w x,
        concluded_ends g order now clock w x,
      )
