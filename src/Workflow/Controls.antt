-- ===== src/Workflow/Controls.antt =====
-- The tables that the calls of src/promiseguard/autonomy.py leave alone.
use promiseguard_ai.Prelude.{ℕ, ◌≡◌, refl, ◌∙◌, Bool, some, List, arith, Option-cases, inl, inr}
use promiseguard_ai.Models.{
  ActionCommand, ApprovalRecord, AutonomyUpdateInput, KillSwitchUpdateInput, RecoveryAction,
}
use promiseguard_ai.Database.{Db, DecisionRow}
use promiseguard_ai.Autonomy.{
  bootstrap, bootstrap_profile, initial_switch, switch_or, find_profile, set_kill_switch,
  set_profile, set_profile_block,
}
use promiseguard_ai.Autonomy.History.{
  AutonomyCall, bootstrap_call, switch_call, level_call, execution_call, outcome_call, after_call,
}
use promiseguard_ai.Autonomy.Frame.{Same, record_execution-Same, record_outcome-Same}
use promiseguard_ai.Workflow.Frame.{Framed}

-- A database that differs at most in the controls and the other tables that no command reads.
abbrev Controlled : Db → Db → Type 0
Controlled a b = (a.decisions ≡ b.decisions) × (a.approvals ≡ b.approvals) × (a.actions ≡ b.actions)

chained : (a b c : Db) → Controlled a b → Controlled b c → Controlled a c
chained a b c (d, p, x) (d', p', x') = (d ∙ d', p ∙ p', x ∙ x')

Same-Controlled : (a b : Db) → Same a b → Controlled a b
Same-Controlled a b (ps, es, e) = rw e (refl, refl, refl)

bootstrap_profile-Controlled :
    (now : ℕ) (action : RecoveryAction) (db : Db) → Controlled (bootstrap_profile now action db) db
bootstrap_profile-Controlled now action db = elim (Option-cases (find_profile action db)) [
  | inl missing ↦ (ground arith, ground arith, ground arith)
  | inr (row, found) ↦ (ground arith, ground arith, ground arith)
]

bootstrap-Controlled : (now : ℕ) (db : Db) → Controlled (bootstrap now db) db
unfolding bootstrap
bootstrap-Controlled now db =
    let db1 = record db { kill_switch = some (switch_or (initial_switch now) db.kill_switch) } in
    let db2 = bootstrap_profile now RecoveryAction.reroute db1 in
    let db3 = bootstrap_profile now RecoveryAction.carrier_upgrade db2 in
    let db4 = bootstrap_profile now RecoveryAction.split_shipment db3 in
    chained db4 db3 db (bootstrap_profile-Controlled now RecoveryAction.split_shipment db3) (
      chained db3 db2 db (bootstrap_profile-Controlled now RecoveryAction.carrier_upgrade db2)
        (bootstrap_profile-Controlled now RecoveryAction.reroute db1))

set_kill_switch-Controlled :
    (strict : Bool) (update : KillSwitchUpdateInput) (now : ℕ) (db : Db)
    → Controlled (set_kill_switch strict update now db).1 db
unfolding set_kill_switch
set_kill_switch-Controlled strict update now db = elim (Option-cases db.kill_switch) [
  | inl missing ↦ (ground arith, ground arith, ground arith)
  | inr (row, found) ↦ (ground arith, ground arith, ground arith)
]

set_profile-Controlled :
    (strict : Bool) (action : RecoveryAction) (update : AutonomyUpdateInput) (now : ℕ) (db : Db)
    → Controlled (set_profile strict action update now db).1 db
unfolding set_profile set_profile_block
set_profile-Controlled strict action update now db = elim (Option-cases (find_profile action db)) [
  | inl missing ↦ (ground arith, ground arith, ground arith)
  | inr (row, found) ↦ (ground arith, ground arith, ground arith)
]

after_call-Controlled :
    (strict : Bool) (call : AutonomyCall) (db : Db) → Controlled (after_call strict call db) db
after_call-Controlled strict (bootstrap_call now) db = bootstrap-Controlled now db
after_call-Controlled strict (switch_call update now) db =
    set_kill_switch-Controlled strict update now db
after_call-Controlled strict (level_call action update now) db =
    set_profile-Controlled strict action update now db
after_call-Controlled strict (execution_call execution now) db =
    Same-Controlled _ db (record_execution-Same execution now db)
after_call-Controlled strict (outcome_call outcome action now) db =
    Same-Controlled _ db (record_outcome-Same outcome action now db)

pub after_call-Framed :
    (P : ActionCommand → Type 0) (ds : List DecisionRow) (as' : List ApprovalRecord) (strict : Bool)
    (call : AutonomyCall) (db : Db)
    → Framed P ds as' db
    → Framed P ds as' (after_call strict call db)
after_call-Framed P ds as' strict call db h =
    let (d, p, x) = after_call-Controlled strict call db in
    record { decisions = d ∙ h.decisions; approvals = p ∙ h.approvals; actions = rw x h.actions }
