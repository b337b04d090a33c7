-- ===== src/Execution/Record.antt =====
-- What `execute` of src/promiseguard/execution.py stores of a new execution, and a second call of it.
use mathlib.Core.Path.{subst}
use promiseguard_ai.Prelude.{
  ℕ, ◌≡◌, ◌⊎◌, refl, sym, ap, ◌∙◌, Bool, none, some, List, [], ◌∷◌, ◌++◌, arith, find, find-append,
  update_where, update_where-none, Bool-cases, inl, inr, if◌then◌else◌,
}
use promiseguard_ai.Prelude.Text.{str_eq, str_eq_refl}
use promiseguard_ai.Prelude.Exec.{Result, ok, err, Exec-cases}
use promiseguard_ai.Models.{ActionExecution, ActionStatus, OrderContext}
use promiseguard_ai.Codec.{Codec}
use promiseguard_ai.Database.{Db, ActionRow}
use promiseguard_ai.Persistence.{
  newest, action_by_decision, action_row, action_model, updated_action, update_action,
}
use promiseguard_ai.Autonomy.{record_execution}
use promiseguard_ai.Autonomy.Frame.{Same, record_execution-Same}
use promiseguard_ai.Sandbox.{SandboxState, seed_order}
use promiseguard_ai.Execution.Outcome.{execute_steps_outcome}
use promiseguard_ai.Execution.Frame.{ended, execute_steps-ended}
use promiseguard_ai.Execution.{
  ActionGateway, World, run_action, conclude, execute_steps, failed_with,
}

module _ {R : Type 0} (p : R → Bool) (key : R → ℕ) where
  newest-append :
      (xs : List R) (y : R)
      → newest p key xs ≡ none
      → newest p key (xs ++ y ∷ []) ≡ (if p y then some y else none)
  newest-append [] y h = ground arith
  newest-append (x ∷ xs) y h = ground (arith, newest-append xs y)

update_where-append :
    {R : Type 0} (q : R → Bool) (f : R → R) (xs : List R) (y : R)
    → update_where q f (xs ++ y ∷ []) ≡ update_where q f xs ++ (if q y then f y else y) ∷ []
update_where-append q f [] y = refl
update_where-append q f (x ∷ xs) y = ground (arith, update_where-append q f xs y)

unfoldable pub inserted : Codec → ActionExecution → Db → Db
inserted c executing db = record db { actions = db.actions ++ action_row c executing ∷ [] }

-- The rows of the actions after a new one is inserted and updated.
insert_update :
    (c : Codec) (executing final : ActionExecution) (db : Db)
    → action_by_decision executing.command.decision_id db ≡ none
    → find (λ (r : ActionRow). str_eq r.action_id executing.action_id) db.actions ≡ none
    → update_action (ended executing final) (inserted c executing db) ≡ (
      ok (ended executing final),
      record db { actions = db.actions ++ updated_action final (action_row c executing) ∷ [] },
    )
unfolding update_action inserted
insert_update c executing final db none_yet no_id =
    let same = λ (r : ActionRow). str_eq r.action_id executing.action_id in
    let row = action_row c executing in
    ground (
      arith,
      find-append same db.actions row,
      str_eq_refl executing.action_id,
      update_where-append same (updated_action final) db.actions row,
      update_where-none same (updated_action final) db.actions no_id,
    )

action_by_decision-append :
    (db : Db) (row : ActionRow)
    → action_by_decision row.decision_id db ≡ none
    → action_by_decision row.decision_id (record db { actions = db.actions ++ row ∷ [] })
      ≡ some (action_model row)
unfolding action_by_decision
action_by_decision-append db row h = ground (
  arith,
  newest-append (λ (r : ActionRow). str_eq r.decision_id row.decision_id) (λ r. r.started_at)
      db.actions row,
  str_eq_refl row.decision_id,
)

conclude-actions :
    (g : ActionGateway) (x : ActionExecution) (now : ℕ) (db db' : Db)
    → update_action x db ≡ (ok x, db')
    → Same (conclude g x now db).1 db'
unfolding conclude
conclude-actions g x now db db' h = elim (Bool-cases g.governed) [
  | inr free ↦ (db'.profiles, db'.evidence, ground arith)
  | inl governed ↦
      let (ps, es, e) = record_execution-Same x now db' in
      elim (Exec-cases (record_execution x now db')) [
        | inl (p, db2, done) ↦ (ps, es, ground arith)
        | inr (k, t, db2, raised) ↦ (ps, es, ground arith)
      ]
]

-- The execution that a call stores: as the steps ended, or failed.
abbrev pub final_of : ActionExecution → (ℕ → ℕ) → Result ActionExecution → ActionExecution
final_of executing clock (ok done) = done
final_of executing clock (err k t) = failed_with executing k t (clock 3)

module _ (g : ActionGateway) (order : OrderContext) (now : ℕ) (clock : ℕ → ℕ) (w : World)
    (executing : ActionExecution) where
  abbrev stepped : Result ActionExecution × SandboxState
  stepped = execute_steps executing order now clock (seed_order order w.sandbox)

  final_of-ended :
      final_of executing clock stepped.0 ≡ ended executing (final_of executing clock stepped.0)
  final_of-ended = elim (Exec-cases stepped) [
    | inl (done, s', e) ↦ rw e (execute_steps-ended executing order now clock _ s' e)
    | inr (k, t, s', e) ↦ rw e refl
  ]

  run_action-Same :
      (db' : Db)
      → update_action (final_of executing clock stepped.0) w.db
        ≡ (ok (final_of executing clock stepped.0), db')
      → Same (run_action g executing order now clock w).1.db db'
  unfolding run_action
  run_action-Same db' h = elim (Exec-cases stepped) [
    | inl (done, s', e) ↦
        let (ps, es, same) = conclude-actions g done (clock 4) w.db db' (ground arith) in
        (ps, es, ground arith)
    | inr (k, t, s', e) ↦
        let failed = failed_with executing k t (clock 3) in
        let (ps, es, same) = conclude-actions g failed (clock 4) w.db db' (ground arith) in
        elim (Exec-cases (conclude g failed (clock 4) w.db)) [
          | inl (x, db2, done) ↦ (ps, es, ground arith)
          | inr (k2, t2, db2, raised) ↦ (ps, es, ground arith)
        ]
  ]

module _ (g : ActionGateway) (order : OrderContext) (now : ℕ) (clock : ℕ → ℕ) (w : World)
    (executing : ActionExecution) where
  -- What the steps of an execution returned, or the execution failed by what they raised.
  abbrev pub concluded : ActionExecution
  concluded = final_of executing clock (stepped g order now clock w executing).0

  abbrev pub stored : Db
  stored = record w.db {
    actions = w.db.actions ++ updated_action concluded (action_row g.codec executing) ∷ [];
  }

  updates-to : ActionExecution → Type 0
  updates-to x = update_action x (inserted g.codec executing w.db) ≡ (ok x, stored)

  pub run_action-stores :
      action_by_decision executing.command.decision_id w.db ≡ none
      → find (λ (r : ActionRow). str_eq r.action_id executing.action_id) w.db.actions ≡ none
      → Same
          (run_action g executing order now clock
            (record w { db = inserted g.codec executing w.db })).1.db
          stored
  unfolding updates-to
  run_action-stores no_decision no_id =
      run_action-Same g order now clock (record w { db = inserted g.codec executing w.db })
        executing stored
        (subst updates-to (sym (final_of-ended g order now clock w executing))
          (insert_update g.codec executing concluded w.db no_decision no_id))

  pub concluded-command : concluded.command ≡ executing.command
  concluded-command = ap (λ x. x.command) (final_of-ended g order now clock w executing)

  pub concluded_ends :
      (concluded.status ≡ ActionStatus.succeeded)
      ⊎ (concluded.status ≡ ActionStatus.compensated)
      ⊎ (concluded.status ≡ ActionStatus.failed)
  concluded_ends = elim (Exec-cases (stepped g order now clock w executing)) [
    | inr (k, t, s', e) ↦ inr (inr (ground arith))
    | inl (done, s', e) ↦ elim (execute_steps_outcome executing order now clock _ s' e) [
      | inl (succeeded, holds) ↦ inl (ground arith)
      | inr (compensated, restored) ↦ inr (inl (ground arith))
    ]
  ]

  pub of_stored :
      action_by_decision executing.command.decision_id w.db ≡ none
      → (db : Db) → Same db stored
      → action_by_decision executing.command.decision_id db ≡ some concluded
  unfolding action_by_decision
  of_stored h db (ps, es, e) =
      let row = updated_action concluded (action_row g.codec executing) in
      let model : action_model row ≡ concluded =
        sym (final_of-ended g order now clock w executing) in
      ap (action_by_decision executing.command.decision_id) e
      ∙ action_by_decision-append w.db row h
      ∙ ap some model
