-- ===== src/Budget/Balance.antt =====
-- The balance of the books of src/promiseguard/openai_budget.py: the budget row against the sums
-- over the runs.
use promiseguard_ai.Prelude.{
  ℕ, ◌+◌, ◌≡◌, refl, none, some, List, [], ◌∷◌, arith, ◌∙◌, ◌≤◌, any, sum_of, Bool-cases,
  Option-cases, inl, inr, if◌then◌else◌,
}
use promiseguard_ai.Prelude.Exec.{ok}
use promiseguard_ai.Budget.{
  OpenAiBudgetManager, OpenAiBudgetRow, OpenAiRunRow, BudgetDb, is_reserved, is_stale, stamped,
  charge_stale, fail_stale, reclaim_rows, reclaim_stale, locked_budget,
}

-- What a run holds of the budget, and what it has cost.
abbrev pub held : OpenAiRunRow → ℕ
held r = if is_reserved r then r.reserved_cost_usd else 0

abbrev pub charged : OpenAiRunRow → ℕ
charged r = if is_reserved r then 0 else r.actual_cost_usd

abbrev pub RowBalances : OpenAiBudgetRow → List OpenAiRunRow → Type 0
RowBalances b runs = (b.reserved_usd ≡ sum_of held runs) × (b.spent_usd ≡ sum_of charged runs)

-- With no budget row yet there is no run that holds or costs anything.
abbrev pub IsBalanced : BudgetDb → Type 0
IsBalanced db = elim db.budget [
  | none ↦ (0 ≡ sum_of held db.runs) × (0 ≡ sum_of charged db.runs)
  | some b ↦ RowBalances b db.runs
]

abbrev step_budget : ℕ → OpenAiRunRow → OpenAiBudgetRow → OpenAiBudgetRow
step_budget now r b = if is_stale now r then charge_stale r b else b

abbrev step_run : ℕ → OpenAiRunRow → OpenAiRunRow
step_run now r = if is_stale now r then fail_stale now r else r

-- One round of the loop moves what a stale run holds from reserved to spent.
step_balance :
    (now : ℕ) (b : OpenAiBudgetRow) (r : OpenAiRunRow) (h k : ℕ)
    → b.reserved_usd ≡ h + held r
    → b.spent_usd ≡ k + charged r
    → ((step_budget now r b).reserved_usd ≡ h + held (step_run now r))
      × ((step_budget now r b).spent_usd ≡ k + charged (step_run now r))
      × ((step_budget now r b).spent_usd + (step_budget now r b).reserved_usd
          ≡ b.spent_usd + b.reserved_usd)
      × ((step_budget now r b).limit_usd ≡ b.limit_usd)
step_balance now b r h k p q = ground arith

-- The loop keeps the balance over the runs that it has passed, `h` and `k`, and those ahead, and
-- the sum of spent and reserved.
reclaim_rows-balance :
    (now : ℕ) (b : OpenAiBudgetRow) (rest : List OpenAiRunRow) (h k : ℕ)
    → b.reserved_usd ≡ h + sum_of held rest
    → b.spent_usd ≡ k + sum_of charged rest
    → let (b', rest') = reclaim_rows now b rest in
      (b'.reserved_usd ≡ h + sum_of held rest')
      × (b'.spent_usd ≡ k + sum_of charged rest')
      × (b'.spent_usd + b'.reserved_usd ≡ b.spent_usd + b.reserved_usd)
      × (b'.limit_usd ≡ b.limit_usd)
unfolding reclaim_rows
reclaim_rows-balance now b [] h k p q = (p, q, refl, refl)
reclaim_rows-balance now b (r ∷ rest) h k p q =
    let (p1, q1, t1, l1) =
      step_balance now b r (h + sum_of held rest) (k + sum_of charged rest) (omega arith)
        (omega arith) in
    let (p2, q2, t2, l2) =
      reclaim_rows-balance now (step_budget now r b) rest (h + held (step_run now r))
        (k + charged (step_run now r)) (omega arith) (omega arith) in
    (omega arith, omega arith, omega arith, l2 ∙ l1)

-- What a reclaim leaves of the row `b` that it was given.
pub record Reclaims (b b' : OpenAiBudgetRow) (db' : BudgetDb) : Type 0 where
  pub stored : db'.budget ≡ some b'
  pub balance : RowBalances b' db'.runs
  pub same_sum : b'.spent_usd + b'.reserved_usd ≡ b.spent_usd + b.reserved_usd
  pub same_limit : b'.limit_usd ≡ b.limit_usd

-- Reclaiming never raises; it keeps the balance, the committed sum and the limit.
pub reclaim_stale-Reclaims :
    (now : ℕ) (b : OpenAiBudgetRow) (db : BudgetDb)
    → db.budget ≡ some b
    → RowBalances b db.runs
    → (b' : OpenAiBudgetRow) × (db' : BudgetDb) × (reclaim_stale now b db ≡ (ok b', db'))
      × Reclaims b b' db'
unfolding reclaim_stale
reclaim_stale-Reclaims now b db e (p, q) =
    let (p', q', t', l') = reclaim_rows-balance now b db.runs 0 0 (omega arith) (omega arith) in
    elim (Bool-cases (any (is_stale now) db.runs)) [
      | inl some_stale ↦ (
        stamped now (reclaim_rows now b db.runs).0,
        record {
          budget = some (stamped now (reclaim_rows now b db.runs).0);
          runs = (reclaim_rows now b db.runs).1;
        },
        rw some_stale,
        record {
          stored = refl;
          balance = (omega arith, omega arith);
          same_sum = omega arith;
          same_limit = l';
        },
      )
      | inr none_stale ↦ (
        b,
        db,
        rw none_stale,
        record { stored = e; balance = (p, q); same_sum = refl; same_limit = refl },
      )
    ]

-- Locking raises and changes nothing, or leaves a balanced row with the configured limit that
-- covers what is committed.
pub record Locks (m : OpenAiBudgetManager) (db : BudgetDb) (b : OpenAiBudgetRow) (db' : BudgetDb)
    : Type 0 where
  pub stored : db'.budget ≡ some b
  pub balance : RowBalances b db'.runs
  pub covered : b.spent_usd + b.reserved_usd ≤ m.limit_usd
  pub limit : b.limit_usd ≡ m.limit_usd
  pub same_runs : db'.runs ≡ db.runs

pub locked_budget-Locks :
    (m : OpenAiBudgetManager) (now : ℕ) (db : BudgetDb) {b : OpenAiBudgetRow} {db' : BudgetDb}
    → IsBalanced db
    → locked_budget m now db ≡ (ok b, db')
    → Locks m db b db'
unfolding locked_budget
locked_budget-Locks m now db {b} {db'} h e = elim (Option-cases db.budget) [
  | inl missing ↦ ground arith
  | inr (row, found) ↦ ground arith
]

pub IsBalanced-of_row :
    (b : OpenAiBudgetRow) (db : BudgetDb)
    → db.budget ≡ some b
    → RowBalances b db.runs
    → IsBalanced db
IsBalanced-of_row b db stored balance = rw stored balance
