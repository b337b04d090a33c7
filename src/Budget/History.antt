-- ===== src/Budget/History.antt =====
-- Histories of calls on the manager of src/promiseguard/openai_budget.py.
use mathlib.Core.Path.{subst}
use promiseguard_ai.Prelude.{ℕ, ◌≡◌, none, List, [], ◌∷◌, arith, inl, inr}
use promiseguard_ai.Prelude.Int.{ℤ, pos, negsuc}
use promiseguard_ai.Prelude.Text.{String}
use promiseguard_ai.Prelude.Exec.{Exec-cases}
use promiseguard_ai.Codec.{Codec}
use promiseguard_ai.Database.{session-keeps}
use promiseguard_ai.Budget.{
  OpenAiBudgetManager, BudgetDb, ReserveRequest, AgentTokenUsage, AgentDecisionReview, FinalState,
  reserve, finalise, complete, reject, fail, budget_state, state_block, locked_budget,
}
use promiseguard_ai.Budget.Balance.{
  IsBalanced-of_row, IsBalanced, locked_budget-Locks, reclaim_stale-Reclaims,
}
use promiseguard_ai.Budget.Limits.{reserve-IsBalanced}
use promiseguard_ai.Budget.Finality.{finalise-IsBalanced, Ends}

-- A call of the manager's interface, with its arguments and the time.
pub data BudgetCall : Type 0 where
  reserve_call : ReserveRequest → ℕ → BudgetCall
  complete_call : String → AgentTokenUsage → ℤ → String → AgentDecisionReview → ℕ → BudgetCall
  reject_call : String → AgentTokenUsage → ℤ → String → String → List String → ℕ → BudgetCall
  fail_call : String → String → ℤ → ℕ → BudgetCall
  state_call : ℕ → BudgetCall

abbrev pub empty_budget : BudgetDb
empty_budget = record { budget = none; runs = [] }

module _ (c : Codec) (number : ℕ → String) (m : OpenAiBudgetManager) where
  -- What a call leaves behind, whether it returns or raises.
  abbrev pub after_call : BudgetCall → BudgetDb → BudgetDb
  after_call (reserve_call q now) db = (reserve c number m q now db).1
  after_call (complete_call id usage cost response review now) db =
      (complete m id usage cost response review now db).1
  after_call (reject_call id usage cost response code errors now) db =
      (reject m id usage cost response code errors now db).1
  after_call (fail_call id code cost now) db = (fail m id code cost now db).1
  after_call (state_call now) db = (budget_state m now db).1

  abbrev pub after_calls : List BudgetCall → BudgetDb → BudgetDb
  after_calls [] db = db
  after_calls (call ∷ calls) db = after_calls calls (after_call call db)

  finalise-keeps :
      (f : FinalState) (id : String) (cost : ℤ) (now : ℕ) (db : BudgetDb)
      → Ends f
      → IsBalanced db
      → IsBalanced (finalise m f id cost now db).1
  finalise-keeps f id (pos cost) now db ends bal = finalise-IsBalanced f ends id cost now m db bal
  finalise-keeps f id (negsuc n) now db ends bal = unfold finalise in bal

  budget_state-keeps :
      (now : ℕ) (db : BudgetDb) → IsBalanced db → IsBalanced (budget_state m now db).1
  unfolding budget_state
  budget_state-keeps now db bal =
      session-keeps IsBalanced (state_block m now) db bal (λ report db' h.
        elim (Exec-cases (locked_budget m now db)) [
          | inr (k, t, db1, e1) ↦ absurd (ground arith)
          | inl (b1, db1, e1) ↦
              let locks = locked_budget-Locks m now db bal e1 in
              let (b2, db2, e2, kept) =
                reclaim_stale-Reclaims now b1 db1 locks.stored locks.balance in
              let after : db2 ≡ db' = ground arith in
              subst IsBalanced after (IsBalanced-of_row b2 db2 kept.stored kept.balance)
        ])

  after_call-IsBalanced :
      (call : BudgetCall) (db : BudgetDb) → IsBalanced db → IsBalanced (after_call call db)
  unfolding complete reject fail
  after_call-IsBalanced (reserve_call q now) db bal = reserve-IsBalanced c number m q now db bal
  after_call-IsBalanced (complete_call id usage cost response review now) db bal =
      finalise-keeps _ id cost now db (λ e. omega arith) bal
  after_call-IsBalanced (reject_call id usage cost response code errors now) db bal =
      finalise-keeps _ id cost now db (λ e. omega arith) bal
  after_call-IsBalanced (fail_call id code cost now) db bal =
      finalise-keeps _ id cost now db (λ e. omega arith) bal
  after_call-IsBalanced (state_call now) db bal = budget_state-keeps now db bal

  -- After any sequence of reserve, complete, reject, fail and state calls from balanced
  -- books, the amounts in the budget row are the sums over the runs.
  pub after_calls-IsBalanced :
      (calls : List BudgetCall) (db : BudgetDb) → IsBalanced db → IsBalanced (after_calls calls db)
  after_calls-IsBalanced [] db bal = bal
  after_calls-IsBalanced (call ∷ calls) db bal =
      after_calls-IsBalanced calls (after_call call db) (after_call-IsBalanced call db bal)
