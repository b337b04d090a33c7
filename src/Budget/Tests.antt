-- ===== src/Budget/Tests.antt =====
-- A run of src/promiseguard/openai_budget.py that is reserved, completed and settled again.
use promiseguard_ai.Prelude.{
  ◌+◌, ◌≤◌, ◌≡◌, refl, ◌⊎◌, arith, true, false, none, some, List, [], ◌∷◌, All, find, sum_of,
}
use promiseguard_ai.Prelude.Int.{pos}
use promiseguard_ai.Prelude.Text.{String, concat, join, prefix}
use promiseguard_ai.Prelude.Exec.{ok}
use promiseguard_ai.Codec.{hashed_id}
use promiseguard_ai.Examples.{plain_codec, digits}
use promiseguard_ai.Budget.{
  OpenAiBudgetManager, OpenAiBudgetRow, OpenAiRunRow, BudgetDb, ReserveRequest, FinalState,
  AgentRunStatus, AgentBudgetState, is_completed, is_stale, has_run_id, finalised_run,
  request_key_of, run_id_of, reserve, reserve_block, reserve_new, book_run, booked_row, finalise,
  finalise_run, finalise_block, settled_db, locked_budget, reclaim_stale, reclaim_rows,
  budget_state, budget_model, state_block, reserved_run,
}
use promiseguard_ai.Budget.Balance.{held, charged, IsBalanced}
use promiseguard_ai.Budget.Limits.{reserve_within_limits, Stored, IsBooking}
use promiseguard_ai.Budget.Finality.{
  committed, finalise_settles, finalise_once, budget_state_report,
}
use promiseguard_ai.Budget.History.{
  BudgetCall, reserve_call, state_call, after_calls, after_calls-IsBalanced, empty_budget,
}

abbrev manager : OpenAiBudgetManager
manager = record { limit_usd = 1000; per_run_limit_usd = 100; reservation_ttl = 600 }

abbrev small_request : ReserveRequest
small_request = record {
  decision_id = "dec_1";
  model = "gpt-5-nano";
  prompt_version = "v1";
  context_fingerprint = "ctx";
  estimated_cost_usd = 40;
}

abbrev reservation : OpenAiRunRow
reservation = record {
  run_id = "run_1";
  request_key = "key_1";
  decision_id = "dec_1";
  model = "gpt-5-nano";
  prompt_version = "v1";
  status = AgentRunStatus.reserved;
  context_fingerprint = "ctx";
  reserved_cost_usd = 40;
  actual_cost_usd = 0;
  usage = none;
  response_id = none;
  review = none;
  created_at = 1000;
  completed_at = none;
  reservation_expires_at = 1600;
  error_code = none;
  validation_errors = [];
}

abbrev row : OpenAiBudgetRow
row = record { limit_usd = 1000; reserved_usd = 40; spent_usd = 0; updated_at = 1000; version = 2 }

abbrev with_reservation : BudgetDb
with_reservation = record { budget = some row; runs = reservation ∷ [] }

abbrev completion : FinalState
completion = record {
  status = AgentRunStatus.completed;
  usage = none;
  response_id = some "resp_1";
  review = none;
  error_code = none;
  validation_errors = [];
}

abbrev calls : List BudgetCall
calls = reserve_call small_request 1000 ∷ state_call 1100 ∷ state_call 2000 ∷ []

after_calls-IsBalanced_example :
    IsBalanced (after_calls plain_codec digits manager calls empty_budget)
after_calls-IsBalanced_example =
    after_calls-IsBalanced plain_codec digits manager calls empty_budget (refl, refl)

abbrev key_of_request : String
key_of_request = request_key_of plain_codec digits "dec_1" "gpt-5-nano" "v1" "ctx"

abbrev booked : OpenAiRunRow
booked = reserved_run plain_codec digits manager small_request 1100 key_of_request 1

abbrev with_both : BudgetDb
with_both = record {
  budget = some (booked_row small_request 1100 row);
  runs = reservation ∷ booked ∷ [];
}

reserves :
    reserve plain_codec digits manager small_request 1100 with_reservation
    ≡ (ok (booked, false), with_both)
unfolding reserve reserve_block reserve_new book_run locked_budget reclaim_stale reclaim_rows
    request_key_of run_id_of concat join hashed_id prefix
reserves = refl

reserve_within_limits_example :
    ((false ≡ true)
      × (is_completed booked ≡ true)
      × (booked.request_key ≡ key_of_request)
      × (with_both ≡ with_reservation))
    ⊎ ((false ≡ false)
        × (40 ≤ 100)
        × IsBooking small_request key_of_request booked
        × Stored 1000 with_both)
reserve_within_limits_example =
    reserve_within_limits plain_codec digits manager small_request 1100 with_reservation
      (refl, refl) reserves

abbrev settled : OpenAiRunRow
settled = finalised_run completion 25 1200 reservation

abbrev with_settled : BudgetDb
with_settled = settled_db completion "run_1" 25 1200 reservation row with_reservation

settles :
    finalise manager completion "run_1" (pos 25) 1200 with_reservation ≡ (ok settled, with_settled)
unfolding finalise finalise_block finalise_run locked_budget
settles = refl

finalise_settles_example :
    IsBalanced with_settled
    × (committed with_settled + 40 ≡ committed with_reservation + 25)
    × (settled ≡ finalised_run completion 25 1200 reservation)
    × (find (has_run_id "run_1") with_settled.runs ≡ some settled)
finalise_settles_example =
    finalise_settles completion (λ e. omega arith) "run_1" 25 1200 manager with_reservation
      (refl, refl) refl refl settles

finalise_once_example :
    finalise manager completion "run_1" (pos 99) 1300 with_settled ≡ (ok settled, with_settled)
finalise_once_example =
    finalise_once completion (λ e. omega arith) "run_1" 25 1200 manager with_reservation
      (refl, refl) refl refl settles completion 99 1300

abbrev report : AgentBudgetState
report = record {
  limit_usd = 1000;
  reserved_usd = 40;
  spent_usd = 0;
  remaining_usd = 960;
  updated_at = 1000;
  version = 2;
}

reports : budget_state manager 1200 with_reservation ≡ (ok report, with_reservation)
unfolding budget_state state_block budget_model locked_budget reclaim_stale reclaim_rows
reports = refl

budget_state_report_example :
    (960 + 0 + 40 ≡ 1000)
    × (40 ≡ sum_of held (reservation ∷ []))
    × (0 ≡ sum_of charged (reservation ∷ []))
    × All (λ r. is_stale 1200 r ≡ false) (reservation ∷ [])
budget_state_report_example = budget_state_report manager 1200 with_reservation (refl, refl) reports
