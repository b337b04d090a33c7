-- ===== src/Budget/Guard.antt =====
-- `_locked_budget` and `_reclaim_stale` of src/promiseguard/openai_budget.py.
use promiseguard_ai.Prelude.{
  ℕ, ◌+◌, ◌-◌, Bool, ◌&&◌, none, some, List, [], ◌∷◌, ltb, ◌==◌, any, if◌then◌else◌,
}
use promiseguard_ai.Prelude.Exec.{ok, err, Exec, budget_configuration_error}
use promiseguard_ai.Budget.Types.{
  OpenAiBudgetManager, OpenAiBudgetRow, OpenAiRunRow, BudgetDb, AgentRunStatus, is_reserved,
}

-- `_locked_budget`
unfoldable pub locked_budget : OpenAiBudgetManager → ℕ → Exec BudgetDb OpenAiBudgetRow
locked_budget m now db = elim db.budget [
  | none ↦
      let row : OpenAiBudgetRow = record {
        limit_usd = m.limit_usd;
        reserved_usd = 0;
        spent_usd = 0;
        updated_at = now;
        version = 1;
      } in
      (ok row, record db { budget = some row })
  | some row ↦
      if ltb m.limit_usd (row.spent_usd + row.reserved_usd)
      then (
        err budget_configuration_error
            "configured OpenAI budget is below already spent or reserved cost",
        db,
      )
      else if row.limit_usd == m.limit_usd
      then (ok row, db)
      else let row' : OpenAiBudgetRow = record row {
        limit_usd = m.limit_usd;
        updated_at = now;
        version = row.version + 1;
      } in
        (ok row', record db { budget = some row' })
]

abbrev pub is_stale : ℕ → OpenAiRunRow → Bool
is_stale now r = is_reserved r && ltb r.reservation_expires_at now

-- The body of the loop of `_reclaim_stale`, on the budget and on the run. `max(0, a - b)` is `-`.
abbrev pub charge_stale : OpenAiRunRow → OpenAiBudgetRow → OpenAiBudgetRow
charge_stale r b = record b {
  reserved_usd = b.reserved_usd - r.reserved_cost_usd;
  spent_usd = b.spent_usd + r.reserved_cost_usd;
}

abbrev pub fail_stale : ℕ → OpenAiRunRow → OpenAiRunRow
fail_stale now r = record r {
  status = AgentRunStatus.failed;
  actual_cost_usd = r.reserved_cost_usd;
  error_code = some "STALE_RESERVATION_CHARGED_CONSERVATIVELY";
  completed_at = some now;
}

unfoldable pub reclaim_rows :
    ℕ → OpenAiBudgetRow → List OpenAiRunRow → OpenAiBudgetRow × List OpenAiRunRow
reclaim_rows now b [] = (b, [])
reclaim_rows now b (r ∷ rest) =
    let (b', rest') = reclaim_rows now (if is_stale now r then charge_stale r b else b) rest in
    (b', (if is_stale now r then fail_stale now r else r) ∷ rest')

-- What follows the loop if there was a stale run.
abbrev pub stamped : ℕ → OpenAiBudgetRow → OpenAiBudgetRow
stamped now b = record b { updated_at = now; version = b.version + 1 }

-- `_reclaim_stale`
unfoldable pub reclaim_stale : ℕ → OpenAiBudgetRow → Exec BudgetDb OpenAiBudgetRow
unfolding reclaim_rows
reclaim_stale now b db =
    let (b', runs') = reclaim_rows now b db.runs in
    if any (is_stale now) db.runs
    then (ok (stamped now b'), record db { budget = some (stamped now b'); runs = runs' })
    else (ok b, db)
