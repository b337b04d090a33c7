-- ===== src/Budget/Finality.antt =====
-- `_finalise` and `state` of src/promiseguard/openai_budget.py: settling a run, and the report.
use mathlib.Core.Path.{subst}
use promiseguard_ai.Prelude.{
  ℕ, ◌+◌, ◌≡◌, refl, true, false, some, List, [], ◌∷◌, arith, All, find, find_holds,
  find-update_first, any, sum_of, sum_of-update_first, Bool-cases, Option-cases, inl, inr,
  if◌then◌else◌,
}
use promiseguard_ai.Prelude.Int.{pos}
use promiseguard_ai.Prelude.Text.{String}
use promiseguard_ai.Prelude.Exec.{ok, Exec-cases}
use promiseguard_ai.Database.{session-keeps}
use promiseguard_ai.Budget.{
  OpenAiBudgetManager, OpenAiBudgetRow, OpenAiRunRow, BudgetDb, FinalState, AgentBudgetState,
  run_status_tag, is_reserved, is_stale, charge_stale, reclaim_rows, reclaim_stale, locked_budget,
  finalise_block, finalise_run, finalise, finalised_run, has_run_id, settled_row, settled_db,
  budget_state, budget_model,
}
use promiseguard_ai.Budget.Balance.{
  held, charged, RowBalances, IsBalanced, reclaim_stale-Reclaims, locked_budget-Locks,
}

-- What the runs hold and have cost together.
abbrev pub committed : BudgetDb → ℕ
committed db = sum_of held db.runs + sum_of charged db.runs

-- The states that end a run.
abbrev pub Ends : FinalState → Type 0
Ends f = (run_status_tag f.status ≡ 0) → ⊥

module _ (f : FinalState) (ends : Ends f) (id : String) (cost now : ℕ) where
  settled_sums :
      (b : OpenAiBudgetRow) (db : BudgetDb) (r : OpenAiRunRow)
      → RowBalances b db.runs
      → find (has_run_id id) db.runs ≡ some r
      → is_reserved r ≡ true
      → RowBalances (settled_row r cost now b) (settled_db f id cost now r b db).runs
        × (committed (settled_db f id cost now r b db) + r.reserved_cost_usd ≡ committed db + cost)
  settled_sums b db r (p, s) found open_run =
      let hs = sum_of-update_first held (has_run_id id) (finalised_run f cost now) db.runs found in
      let cs =
        sum_of-update_first charged (has_run_id id) (finalised_run f cost now) db.runs found in
      let h1 : held (finalised_run f cost now r) ≡ 0 = ground arith in
      let c1 : charged (finalised_run f cost now r) ≡ cost = ground arith in
      let h0 : held r ≡ r.reserved_cost_usd = ground arith in
      let c0 : charged r ≡ 0 = ground arith in ((omega arith, omega arith), omega arith)

  module _ (m : OpenAiBudgetManager) (db : BudgetDb) (bal : IsBalanced db) where
    -- A settled run leaves the books balanced, frees its reservation and adds its cost.
    finalise_run-settles :
        {r : OpenAiRunRow}
        → find (has_run_id id) db.runs ≡ some r
        → is_reserved r ≡ true
        → {run : OpenAiRunRow} {db' : BudgetDb} → finalise_run m f id cost now r db ≡ (ok run, db')
        → IsBalanced db'
          × (committed db' + r.reserved_cost_usd ≡ committed db + cost)
          × (run ≡ finalised_run f cost now r)
          × (find (has_run_id id) db'.runs ≡ some run)
    unfolding finalise_run
    finalise_run-settles {r} found open_run {run} {db'} h =
        elim (Exec-cases (locked_budget m now db)) [
          | inr (k, t, db1, e1) ↦ absurd (ground arith)
          | inl (b1, db1, e1) ↦
              let locks = locked_budget-Locks m now db bal e1 in
              let found' : find (has_run_id id) db1.runs ≡ some r = rw locks.same_runs found in
              let after : settled_db f id cost now r b1 db1 ≡ db' = ground arith in
              let result : run ≡ finalised_run f cost now r = ground arith in
              let (sums, moved) = settled_sums b1 db1 r locks.balance found' open_run in
              let same : committed db1 ≡ committed db = rw locks.same_runs refl in
              (
                subst IsBalanced after sums,
                subst (λ (d : BudgetDb). committed d + r.reserved_cost_usd ≡ committed db + cost)
                    after (omega (arith, moved, same)),
                result,
                subst (λ (d : BudgetDb). find (has_run_id id) d.runs ≡ some run) after
                    (rw result (
                      find-update_first (has_run_id id) (finalised_run f cost now) db1.runs found'
                        (find_holds (has_run_id id) db1.runs found'))),
              )
        ]

    -- On balanced books, a settlement of a reserved run that returns keeps the books
    -- balanced, takes the reservation from the committed amount and adds the actual cost,
    -- and stores the run as the arguments say.
    pub finalise_settles :
        {r : OpenAiRunRow}
        → find (has_run_id id) db.runs ≡ some r
        → is_reserved r ≡ true
        → {run : OpenAiRunRow} {db' : BudgetDb} → finalise m f id (pos cost) now db ≡ (ok run, db')
        → IsBalanced db'
          × (committed db' + r.reserved_cost_usd ≡ committed db + cost)
          × (run ≡ finalised_run f cost now r)
          × (find (has_run_id id) db'.runs ≡ some run)
    unfolding finalise
    finalise_settles {r} found open_run {run} {db'} h =
        finalise_run-settles found open_run {run = run} {db' = db'} (ground arith)

    -- After a settlement of a reserved run that returned, every other settlement of that
    -- run returns the settled run and changes nothing.
    pub finalise_once :
        {r : OpenAiRunRow}
        → find (has_run_id id) db.runs ≡ some r
        → is_reserved r ≡ true
        → {run : OpenAiRunRow} {db' : BudgetDb} → finalise m f id (pos cost) now db ≡ (ok run, db')
        → (g : FinalState) (cost' now' : ℕ) → finalise m g id (pos cost') now' db' ≡ (ok run, db')
    unfolding finalise
    finalise_once {r} found open_run {run} {db'} h g cost' now' =
        let (_, _, result, again) =
          finalise_run-settles found open_run {run = run} {db' = db'} (ground arith) in
        let closed : is_reserved run ≡ false = rw result (ground arith) in ground arith

    -- The books balance after any call, one that raises included.
    pub finalise-IsBalanced : IsBalanced (finalise m f id (pos cost) now db).1
    unfolding finalise
    finalise-IsBalanced =
        session-keeps IsBalanced (finalise_block m f id cost now) db bal (λ run db' h.
          elim (Option-cases (find (has_run_id id) db.runs)) [
            | inl missing ↦ absurd (ground arith)
            | inr (r, found) ↦ elim (Bool-cases (is_reserved r)) [
              | inl open_run ↦
                  (finalise_run-settles found open_run {run = run} {db' = db'} (ground arith)).0
              | inr settled ↦ let same : db ≡ db' = ground arith in subst IsBalanced same bal
            ]
          ])

-- No run that is left after a reclaim is stale.
reclaim_rows-fresh :
    (now : ℕ) (b : OpenAiBudgetRow) (rest : List OpenAiRunRow)
    → All (λ r. is_stale now r ≡ false) (reclaim_rows now b rest).1
unfolding reclaim_rows
reclaim_rows-fresh now b [] = tt
reclaim_rows-fresh now b (r ∷ rest) =
    (ground arith, reclaim_rows-fresh now (if is_stale now r then charge_stale r b else b) rest)

none_stale :
    (now : ℕ) (rows : List OpenAiRunRow)
    → any (is_stale now) rows ≡ false
    → All (λ r. is_stale now r ≡ false) rows
none_stale now [] h = tt
none_stale now (r ∷ rows) h = (ground arith, none_stale now rows (ground arith))

reclaim_stale-fresh :
    (now : ℕ) (b : OpenAiBudgetRow) (db : BudgetDb)
    → All (λ r. is_stale now r ≡ false) (reclaim_stale now b db).1.runs
unfolding reclaim_stale
reclaim_stale-fresh now b db = elim (Bool-cases (any (is_stale now) db.runs)) [
  | inl old ↦ rw old (reclaim_rows-fresh now b db.runs)
  | inr fresh ↦ rw fresh (none_stale now db.runs fresh)
]

-- On balanced books, a report of the state that returns has amounts that add up to the
-- configured limit and are the sums over the runs, and no run is left with a stale reservation.
pub budget_state_report :
    (m : OpenAiBudgetManager) (now : ℕ) (db : BudgetDb)
    → IsBalanced db
    → {report : AgentBudgetState} {db' : BudgetDb} → budget_state m now db ≡ (ok report, db')
    → (report.remaining_usd + report.spent_usd + report.reserved_usd ≡ m.limit_usd)
      × (report.reserved_usd ≡ sum_of held db'.runs)
      × (report.spent_usd ≡ sum_of charged db'.runs)
      × All (λ r. is_stale now r ≡ false) db'.runs
unfolding budget_state budget_model
budget_state_report m now db bal {report} {db'} h = elim (Exec-cases (locked_budget m now db)) [
  | inr (k, t, db1, e1) ↦ absurd (ground arith)
  | inl (b1, db1, e1) ↦
      let locks = locked_budget-Locks m now db bal e1 in
      let (b2, db2, e2, kept) = reclaim_stale-Reclaims now b1 db1 locks.stored locks.balance in
      let (p, s) = kept.balance in
      let after : db2 ≡ db' = ground arith in
      let shown : report ≡ budget_model b2 = ground arith in
      let fresh : All (λ r. is_stale now r ≡ false) db2.runs =
        rw e2 at (reclaim_stale-fresh now b1 db1) in
      (
        rw shown (omega (arith, kept.same_sum, kept.same_limit, locks.limit, locks.covered)),
        rw shown (rw (← after) p),
        rw shown (rw (← after) s),
        rw (← after) fresh,
      )
]
