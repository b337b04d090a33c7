-- ===== src/Workflow/Frame.antt =====
-- What executions and verifications (src/promiseguard/execution.py and verification.py) keep of the
-- tables that they do not write.
use mathlib.Core.Path.{subst}
use promiseguard_ai.Prelude.{
  ap, any, ℕ, ◌≡◌, Bool, List, [], ◌∷◌, ◌++◌, arith, All, All-append, find, update_where,
  Option-cases, Bool-cases, inl, inr,
}
use promiseguard_ai.Prelude.Text.{str_eq}
use promiseguard_ai.Prelude.Exec.{Exec, Exec-cases}
use promiseguard_ai.Models.{ActionCommand, ActionExecution, ApprovalRecord, OrderContext}
use promiseguard_ai.Codec.{Codec}
use promiseguard_ai.Database.{ActionRow, Db, DecisionRow, session, session-keeps}
use promiseguard_ai.Persistence.{
  action_by_decision, record_action, update_action, updated_action, action_row,
}
use promiseguard_ai.Autonomy.{record_execution}
use promiseguard_ai.Autonomy.Frame.{Same, record_execution-Same}
use promiseguard_ai.Sandbox.{seed_order}
use promiseguard_ai.Execution.{
  ActionGateway, World, check_kill_switch, claim_action, conclude, execute, execute_steps,
  executing_of, failed_with, run_action,
}
use promiseguard_ai.Execution.Once.{check_kill_switch-keeps}

-- The decisions and approvals of a database, and what holds of the commands of its actions.
pub record IsFramed (P : ActionCommand → Type 0) (ds : List DecisionRow) (as' : List ApprovalRecord)
    (db : Db) : Type 0 where
  pub decisions : db.decisions ≡ ds
  pub approvals : db.approvals ≡ as'
  pub actions : All (λ (r : ActionRow). P r.command) db.actions

All-updated_action :
    (P : ActionCommand → Type 0) (q : ActionRow → Bool) (x : ActionExecution)
    (rows : List ActionRow)
    → All (λ (r : ActionRow). P r.command) rows
    → All (λ (r : ActionRow). P r.command) (update_where q (updated_action x) rows)
All-updated_action P q x [] all = tt
All-updated_action P q x (r ∷ rows) all = elim (Bool-cases (q r)) [
  | inl hit ↦ rw hit (all.0, All-updated_action P q x rows all.1)
  | inr other ↦ rw other (all.0, All-updated_action P q x rows all.1)
]

module _ (P : ActionCommand → Type 0) (ds : List DecisionRow) (as' : List ApprovalRecord) where
  abbrev pub Framed : Db → Type 0
  Framed = IsFramed P ds as'

  pub moved : (a b : Db) → a ≡ b → Framed a → Framed b
  moved a b = subst Framed

  pub Same-Framed : (a b : Db) → Same a b → Framed b → Framed a
  Same-Framed a b (ps, es, e) h =
      rw e (record { decisions = h.decisions; approvals = h.approvals; actions = h.actions })

  record_action-Framed :
      (c : Codec) (x : ActionExecution) (db : Db)
      → P x.command
      → Framed db
      → Framed (record_action c x db).1
  unfolding record_action
  record_action-Framed c x db p h =
      elim (Option-cases
        (find (λ (r : ActionRow). str_eq r.idempotency_key x.command.idempotency_key) db.actions)) [
          | inr (row, found) ↦ moved db (record_action c x db).1 (ground arith) h
          | inl fresh ↦
              elim (Bool-cases
                (any (λ (r : ActionRow). str_eq r.action_id x.action_id) db.actions)) [
                  | inl clash ↦ moved db (record_action c x db).1 (ground arith) h
                  | inr free ↦
                      moved (record db { actions = db.actions ++ action_row c x ∷ [] })
                        (record_action c x db).1 (ground arith)
                        (record {
                          decisions = h.decisions;
                          approvals = h.approvals;
                          actions =
                              All-append (λ (r : ActionRow). P r.command) db.actions
                                (action_row c x) h.actions p;
                        })
                ]
        ]

  update_action-Framed : (x : ActionExecution) (db : Db) → Framed db → Framed (update_action x db).1
  unfolding update_action
  update_action-Framed x db h =
      let same = λ (r : ActionRow). str_eq r.action_id x.action_id in
      elim (Option-cases (find same db.actions)) [
        | inl missing ↦ moved db (update_action x db).1 (ground arith) h
        | inr (row, found) ↦
            moved (record db { actions = update_where same (updated_action x) db.actions })
              (update_action x db).1 (ground arith)
              (record {
                decisions = h.decisions;
                approvals = h.approvals;
                actions = All-updated_action P same x db.actions h.actions;
              })
      ]

  claim_action-Framed :
      (g : ActionGateway) (x : ActionExecution) (db : Db)
      → P x.command
      → Framed db
      → Framed (claim_action g x db).1
  unfolding claim_action
  claim_action-Framed g x db p h =
      elim (Option-cases (action_by_decision x.command.decision_id db)) [
        | inr (old, found) ↦ moved db (claim_action g x db).1 (ground arith) h
        | inl fresh ↦ elim (Exec-cases (record_action g.codec x db)) [
          | inl (y, db1, e) ↦
              moved (record_action g.codec x db).1 (claim_action g x db).1 (ground arith)
                (record_action-Framed g.codec x db p h)
          | inr (k, t, db1, e) ↦
              moved (record_action g.codec x db).1 (claim_action g x db).1 (ground arith)
                (record_action-Framed g.codec x db p h)
        ]
      ]

  pub session-Framed :
      {A : Type 0} (block : Exec Db A) (db : Db)
      → Framed db
      → Framed (block db).1
      → Framed (session block db).1
  session-Framed block db h k =
      session-keeps Framed block db h (λ a db' e. subst Framed (ap (λ x. x.1) e) k)

  conclude-Framed :
      (g : ActionGateway) (x : ActionExecution) (now : ℕ) (db : Db)
      → Framed db
      → Framed (conclude g x now db).1
  unfolding conclude
  conclude-Framed g x now db h =
      let updated = session-Framed (update_action x) db h (update_action-Framed x db h) in
      elim (Exec-cases (session (update_action x) db)) [
        | inr (k, t, db1, e) ↦
            moved (session (update_action x) db).1 (conclude g x now db).1 (ground arith) updated
        | inl (y, db1, e) ↦ elim (Bool-cases g.governed) [
          | inr free ↦
              moved (session (update_action x) db).1 (conclude g x now db).1 (ground arith) updated
          | inl governed ↦
              let kept =
                Same-Framed _ db1 (record_execution-Same y now db1)
                  (subst Framed (ap (λ p. p.1) e) updated) in
              elim (Exec-cases (record_execution y now db1)) [
                | inl (p, db2, r) ↦
                    moved (record_execution y now db1).1 (conclude g x now db).1 (ground arith) kept
                | inr (k, t, db2, r) ↦
                    moved (record_execution y now db1).1 (conclude g x now db).1 (ground arith) kept
              ]
        ]
      ]

  run_action-Framed :
      (g : ActionGateway) (x : ActionExecution) (order : OrderContext) (now : ℕ) (clock : ℕ → ℕ)
      (w : World)
      → Framed w.db
      → Framed (run_action g x order now clock w).1.db
  unfolding run_action
  run_action-Framed g x order now clock w h =
      elim (Exec-cases (execute_steps x order now clock (seed_order order w.sandbox))) [
        | inl (done, s', e) ↦
            let kept = conclude-Framed g done (clock 4) w.db h in
            moved (conclude g done (clock 4) w.db).1 (run_action g x order now clock w).1.db
              (ground arith) kept
        | inr (k, t, s', e) ↦
            let failed = failed_with x k t (clock 3) in
            let kept = conclude-Framed g failed (clock 4) w.db h in
            elim (Exec-cases (conclude g failed (clock 4) w.db)) [
              | inl (y, db1, c) ↦
                  moved (conclude g failed (clock 4) w.db).1 (run_action g x order now clock w).1.db
                    (ground arith) kept
              | inr (k2, t2, db1, c) ↦
                  moved (conclude g failed (clock 4) w.db).1 (run_action g x order now clock w).1.db
                    (ground arith) kept
            ]
      ]

  pub execute-Framed :
      (g : ActionGateway) (command : ActionCommand) (order : OrderContext) (now : ℕ) (clock : ℕ → ℕ)
      (w : World)
      → P command
      → Framed w.db
      → Framed (execute g command order now clock w).1.db
  unfolding execute
  execute-Framed g command order now clock w p h =
      let x = executing_of g command now in
      let claimed = session-Framed (claim_action g x) w.db h (claim_action-Framed g x w.db p h) in
      elim (Exec-cases (check_kill_switch g w.db)) [
        | inr (k, t, db0, e0) ↦
            moved w.db (execute g command order now clock w).1.db
              (ground (arith, check_kill_switch-keeps g w.db)) h
        | inl (u, db0, e0) ↦ elim (Exec-cases (session (claim_action g x) w.db)) [
          | inr (k, t, db1, e) ↦
              moved (session (claim_action g x) w.db).1 (execute g command order now clock w).1.db
                (ground (arith, check_kill_switch-keeps g w.db)) claimed
          | inl (y, db1, e) ↦
              let after : Framed db1 =
                moved (session (claim_action g x) w.db).1 db1 (ap (λ p. p.1) e) claimed in
              elim (Bool-cases y.1) [
                | inr known ↦
                    moved db1 (execute g command order now clock w).1.db
                      (ground (arith, check_kill_switch-keeps g w.db)) after
                | inl new ↦
                    let w1 : World = record w { db = db1 } in
                    moved (run_action g y.0 order now clock w1).1.db
                      (execute g command order now clock w).1.db
                      (ground (arith, check_kill_switch-keeps g w.db))
                      (run_action-Framed g y.0 order now clock w1 after)
              ]
        ]
      ]
