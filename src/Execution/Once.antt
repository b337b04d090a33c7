-- ===== src/Execution/Once.antt =====
-- `execute` of src/promiseguard/execution.py under the kill switch, and on an execution that
-- exists.
use promiseguard_ai.Prelude.{
  ℕ, ◌≡◌, ◌⊎◌, ap, false, none, some, arith, Option-cases, Bool-cases, inl, inr, if◌then◌else◌,
}
use promiseguard_ai.Prelude.Text.{String, str_eq}
use promiseguard_ai.Prelude.Exec.{
  ok, err, ErrorKind, Result, Result-cases, persistence_conflict_error,
}
use promiseguard_ai.Models.{ActionCommand, ActionExecution, OrderContext}
use promiseguard_ai.Database.{Db, RuntimeControlRow}
use promiseguard_ai.Persistence.{action_by_decision}
use promiseguard_ai.Autonomy.{kill_switch}
use promiseguard_ai.Execution.{ActionGateway, World, execute, check_kill_switch, claim_action}

pub check_kill_switch-keeps : (g : ActionGateway) (db : Db) → (check_kill_switch g db).1 ≡ db
unfolding check_kill_switch kill_switch
check_kill_switch-keeps g db = elim (Option-cases db.kill_switch) [
  | inl missing ↦ ground arith
  | inr (row, found) ↦ ground arith
]

-- There are no autonomy controls, or the kill switch has a row that is off.
abbrev pub IsAlive : ActionGateway → Db → Type 0
IsAlive g db =
    (g.governed ≡ false)
    ⊎ ((switch : RuntimeControlRow) × (db.kill_switch ≡ some switch) × (switch.enabled ≡ false))

check_kill_switch-IsAlive :
    (g : ActionGateway) (db : Db) → (check_kill_switch g db).0 ≡ ok tt → IsAlive g db
unfolding check_kill_switch kill_switch
check_kill_switch-IsAlive g db h = elim (Bool-cases g.governed) [
  | inr free ↦ inl free
  | inl governed ↦ elim (Option-cases db.kill_switch) [
    | inl missing ↦ absurd (ground arith)
    | inr (switch, found) ↦ inr (switch, found, ground arith)
  ]
]

-- Nothing is executed: the call raises, or returns the execution that the decision has.
abbrev pub HasRefused : ActionCommand → Db → Result ActionExecution → Type 0
HasRefused command db result =
    ((kind : ErrorKind) × (text : String) × (result ≡ err kind text))
    ⊎ ((x : ActionExecution) × (result ≡ ok x)
        × (action_by_decision command.decision_id db ≡ some x))

module _ (g : ActionGateway) (command : ActionCommand) (order : OrderContext) (now : ℕ)
    (clock : ℕ → ℕ) (w : World) where
  -- Where the kill switch does not stop it and the decision has an execution, execute changes
  -- nothing: it returns that execution if the idempotency keys are equal, and raises a
  -- conflict if not.
  pub execute_existing :
      {existing : ActionExecution}
      → (check_kill_switch g w.db).0 ≡ ok tt
      → action_by_decision command.decision_id w.db ≡ some existing
      → execute g command order now clock w ≡ (
        if str_eq existing.command.idempotency_key command.idempotency_key
            then ok existing
            else err persistence_conflict_error
                "decision already has an action with a different idempotency key",
        w,
      )
  unfolding execute claim_action
  execute_existing {existing} alive found = ground (arith, check_kill_switch-keeps g w.db)

  existing_refused :
      (x : ActionExecution) {result : Result ActionExecution}
      → action_by_decision command.decision_id w.db ≡ some x
      → result ≡ (
          if str_eq x.command.idempotency_key command.idempotency_key
          then ok x
          else err persistence_conflict_error
              "decision already has an action with a different idempotency key")
      → HasRefused command w.db result
  existing_refused x found h =
      elim (Bool-cases (str_eq x.command.idempotency_key command.idempotency_key)) [
        | inl same ↦ inr (x, ground arith, found)
        | inr other ↦ inl (
          persistence_conflict_error,
          "decision already has an action with a different idempotency key",
          ground arith,
        )
      ]

  stopped :
      (kind : ErrorKind) (text : String)
      → (check_kill_switch g w.db).0 ≡ err kind text
      → execute g command order now clock w ≡ (err kind text, w)
  unfolding execute
  stopped kind text h = ground (arith, check_kill_switch-keeps g w.db)

  -- Either execute leaves the database and the adapter as they were and raises or returns the
  -- execution that the decision has, or there are no autonomy controls or a kill switch that
  -- is set and off, and the decision had no execution.
  pub execute_guarded :
      ((execute g command order now clock w).1 ≡ w
        × HasRefused command w.db (execute g command order now clock w).0)
      ⊎ (IsAlive g w.db × (action_by_decision command.decision_id w.db ≡ none))
  execute_guarded = elim (Result-cases (check_kill_switch g w.db).0) [
    | inr (kind, text, e) ↦
        let same = stopped kind text e in
        inl (ap (λ p. p.1) same, inl (kind, text, ap (λ p. p.0) same))
    | inl (u, alive) ↦ elim (Option-cases (action_by_decision command.decision_id w.db)) [
      | inl new ↦ inr (check_kill_switch-IsAlive g w.db alive, new)
      | inr (x, found) ↦
          let same = execute_existing alive found in
          inl (ap (λ p. p.1) same, existing_refused x found (ap (λ p. p.0) same))
    ]
  ]
