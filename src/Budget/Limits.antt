-- ===== src/Budget/Limits.antt =====
-- `reserve` of src/promiseguard/openai_budget.py and its limits.
use mathlib.Core.Path.{subst}
use promiseguard_ai.Prelude.{
  ◌⊎◌, ℕ, ◌+◌, ◌≤◌, ◌≡◌, Bool, true, false, some, arith, length, select, sum_of-append,
  Option-cases, inl, inr,
}
use promiseguard_ai.Prelude.Text.{String, eq_iff}
use promiseguard_ai.Prelude.Exec.{ok, Exec-cases}
use promiseguard_ai.Codec.{Codec}
use promiseguard_ai.Persistence.{newest, newest_holds}
use promiseguard_ai.Database.{session-keeps}
use promiseguard_ai.Budget.{
  OpenAiBudgetManager, OpenAiBudgetRow, OpenAiRunRow, BudgetDb, ReserveRequest, booked_row,
  is_completed, is_reserved, locked_budget, reserved_run, book_run, reserve_new, reserve_block,
  reserve, request_key_of, has_key, completed_with,
}
use promiseguard_ai.Budget.Balance.{
  held, charged, RowBalances, IsBalanced, IsBalanced-of_row, reclaim_stale-Reclaims,
  locked_budget-Locks,
}

-- The books balance around a stored row, whose committed sum is at most `limit`.
pub record Stored (limit : ℕ) (db : BudgetDb) : Type 0 where
  pub row : OpenAiBudgetRow
  pub is_row : db.budget ≡ some row
  pub balance : RowBalances row db.runs
  pub within : row.spent_usd + row.reserved_usd ≤ limit

pub Stored-IsBalanced : (limit : ℕ) (db : BudgetDb) → Stored limit db → IsBalanced db
Stored-IsBalanced limit db s = IsBalanced-of_row s.row db s.is_row s.balance

-- What `reserve` books for a request: a run reserved at the estimate under the request's key.
pub record IsBooking (q : ReserveRequest) (key : String) (run : OpenAiRunRow) : Type 0 where
  pub reserved : is_reserved run ≡ true
  pub cost : run.reserved_cost_usd ≡ q.estimated_cost_usd
  pub keyed : run.request_key ≡ key

module _ (c : Codec) (number : ℕ → String) (m : OpenAiBudgetManager) (q : ReserveRequest) (now : ℕ)
    (key : String) where
  book_run-Stored :
      (b : OpenAiBudgetRow) (db : BudgetDb)
      → RowBalances b db.runs
      → {run : OpenAiRunRow} {reused : Bool} {db' : BudgetDb}
      → book_run c number m q now key b db ≡ (ok (run, reused), db')
      → Stored b.limit_usd db' × IsBooking q key run × (reused ≡ false)
  unfolding book_run
  book_run-Stored b db (p, s) {run} {reused} {db'} h =
      let fresh = reserved_run c number m q now key (length (select (has_key key) db.runs) + 1) in
      (
        record {
          row = booked_row q now b;
          is_row = ground arith;
          balance = (
            ground (arith, sum_of-append held db.runs fresh),
            ground (arith, sum_of-append charged db.runs fresh),
          );
          within = ground arith;
        },
        record { reserved = ground arith; cost = ground arith; keyed = ground arith },
        ground arith,
      )

  reserve_new-Stored :
      (db : BudgetDb)
      → IsBalanced db
      → {run : OpenAiRunRow} {reused : Bool} {db' : BudgetDb}
      → reserve_new c number m q now key db ≡ (ok (run, reused), db')
      → Stored m.limit_usd db'
        × IsBooking q key run
        × (reused ≡ false)
        × (q.estimated_cost_usd ≤ m.per_run_limit_usd)
  unfolding reserve_new
  reserve_new-Stored db bal {run} {reused} {db'} h = elim (Exec-cases (locked_budget m now db)) [
    | inr (k, t, db1, e1) ↦ absurd (ground arith)
    | inl (b1, db1, e1) ↦
        let locks = locked_budget-Locks m now db bal e1 in
        let (b2, db2, e2, kept) = reclaim_stale-Reclaims now b1 db1 locks.stored locks.balance in
        let booked : book_run c number m q now key b2 db2 ≡ (ok (run, reused), db') =
          ground arith in
        let (stored, booking, fresh) = book_run-Stored b2 db2 kept.balance booked in
        (
          record {
            row = stored.row;
            is_row = stored.is_row;
            balance = stored.balance;
            within = omega (arith, stored.within, kept.same_limit, locks.limit);
          },
          booking,
          fresh,
          ground arith,
        )
  ]

module _ (c : Codec) (number : ℕ → String) (m : OpenAiBudgetManager) (q : ReserveRequest)
    (now : ℕ) where
  -- On balanced books, a run that reserve returns is a completed run with the key of the
  -- request and the tables are unchanged; or it is newly reserved at an estimate within the
  -- limit for one run, and the committed amount after it is within the configured budget.
  pub reserve_within_limits :
      (db : BudgetDb)
      → IsBalanced db
      → {run : OpenAiRunRow} {reused : Bool} {db' : BudgetDb}
      → reserve c number m q now db ≡ (ok (run, reused), db')
      → let key =
          request_key_of c number q.decision_id q.model q.prompt_version q.context_fingerprint in
        ((reused ≡ true) × (is_completed run ≡ true) × (run.request_key ≡ key) × (db' ≡ db))
        ⊎ ((reused ≡ false)
            × (q.estimated_cost_usd ≤ m.per_run_limit_usd)
            × IsBooking q key run
            × Stored m.limit_usd db')
  unfolding reserve
  reserve_within_limits db bal {run} {reused} {db'} h =
      let key =
        request_key_of c number q.decision_id q.model q.prompt_version q.context_fingerprint in
      elim (Option-cases (newest (completed_with key) (λ r. r.created_at) db.runs)) [
        | inl absent ↦
            let booked : reserve_new c number m q now key db ≡ (ok (run, reused), db') =
              ground arith in
            let (stored, booking, fresh, small) =
              reserve_new-Stored c number m q now key db bal booked in
            inr (fresh, small, booking, stored)
        | inr (r, found) ↦
            let keyed = newest_holds (completed_with key) (λ r. r.created_at) db.runs found in
            inl (ground arith, ground arith, ground (arith, eq_iff r.request_key key), ground arith)
      ]

  -- The books balance after any call of `reserve`, one that raises included.
  pub reserve-IsBalanced :
      (db : BudgetDb) → IsBalanced db → IsBalanced (reserve c number m q now db).1
  unfolding reserve
  reserve-IsBalanced db bal =
      session-keeps IsBalanced (reserve_block c number m q now) db bal (λ (run, reused) db' h.
        let key =
          request_key_of c number q.decision_id q.model q.prompt_version q.context_fingerprint in
        elim (Option-cases (newest (completed_with key) (λ r. r.created_at) db.runs)) [
          | inl absent ↦
              let booked : reserve_new c number m q now key db ≡ (ok (run, reused), db') =
                ground arith in
              Stored-IsBalanced m.limit_usd db'
                (reserve_new-Stored c number m q now key db bal booked).0
          | inr (r, found) ↦ let same : db ≡ db' = ground arith in subst IsBalanced same bal
        ])
