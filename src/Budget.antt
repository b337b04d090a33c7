-- ===== src/Budget.antt =====
-- src/promiseguard/openai_budget.py: the application's guard on the cost of OpenAI calls. Costs are
-- whole micro-dollars, the scale of the columns.
mod Types
mod Guard
pub mod Balance
pub mod Limits
pub mod Finality
pub mod History
mod Tests
pub use Types.*
unfoldable pub use Guard.*
use promiseguard_ai.Prelude.{
  ℕ, suc, ◌+◌, ◌-◌, Bool, true, false, ◌&&◌, not, Option, none, some, List, [], ◌∷◌, ◌++◌, ltb,
  ◌==◌, find, any, length, select, update_first, if◌then◌else◌,
}
use promiseguard_ai.Prelude.Int.{ℤ, pos, negsuc, pos_part}
use promiseguard_ai.Prelude.Text.{String, str_eq, concat, join}
use promiseguard_ai.Prelude.Exec.{
  Result, ok, err, Exec, ◌>>=◌, ◌>>◌, gets, pure, raise, raise_if, modify, lift,
  budget_exceeded_error, per_run_limit_error, budget_configuration_error, run_not_found_error,
  value_error,
}
use promiseguard_ai.Codec.{Codec, hashed_id}
use promiseguard_ai.Database.{session, insert_row}
use promiseguard_ai.Persistence.{newest}

-- `OpenAIBudgetManager.__init__`
pub new_manager : ℤ → ℤ → ℕ → Result OpenAiBudgetManager
new_manager (pos (suc limit)) (pos (suc per_run)) ttl =
    if ltb (suc limit) (suc per_run)
    then err value_error "per-run limit cannot exceed the project budget"
    else ok
        (record { limit_usd = suc limit; per_run_limit_usd = suc per_run; reservation_ttl = ttl })
new_manager limit per_run ttl = err value_error "OpenAI budget limits must be positive"

abbrev pub has_key : String → OpenAiRunRow → Bool
has_key key r = str_eq r.request_key key

abbrev pub completed_with : String → OpenAiRunRow → Bool
completed_with key r = has_key key r && is_completed r

-- The row after a booking.
abbrev booked_row : ReserveRequest → ℕ → OpenAiBudgetRow → OpenAiBudgetRow
booked_row q now b = record b {
  reserved_usd = b.reserved_usd + q.estimated_cost_usd;
  updated_at = now;
  version = b.version + 1;
}

module _ (c : Codec) (number : ℕ → String) where
  -- `_request_key`
  pub request_key_of : String → String → String → String → String
  request_key_of decision_id model prompt_version context =
      c.sha256_hex (join "|" (decision_id ∷ model ∷ prompt_version ∷ context ∷ []))

  -- `_run_id`
  pub run_id_of : String → ℕ → String
  run_id_of key attempt = hashed_id c "llm_" (concat (key ∷ "|" ∷ number attempt ∷ [])) 24

  abbrev reserved_run : OpenAiBudgetManager → ReserveRequest → ℕ → String → ℕ → OpenAiRunRow
  reserved_run m q now key attempt = record {
    run_id = run_id_of key attempt;
    request_key = key;
    decision_id = q.decision_id;
    model = q.model;
    prompt_version = q.prompt_version;
    status = AgentRunStatus.reserved;
    context_fingerprint = q.context_fingerprint;
    reserved_cost_usd = q.estimated_cost_usd;
    actual_cost_usd = 0;
    usage = none;
    response_id = none;
    review = none;
    created_at = now;
    completed_at = none;
    reservation_expires_at = now + m.reservation_ttl;
    error_code = none;
    validation_errors = [];
  }

  -- The end of `reserve`, once the budget is locked and stale reservations are reclaimed.
  book_run :
      OpenAiBudgetManager
      → ReserveRequest
      → ℕ
      → String
      → OpenAiBudgetRow
      → Exec BudgetDb (OpenAiRunRow × Bool)
  book_run m q now key b db =
      if ltb b.limit_usd (b.spent_usd + b.reserved_usd + q.estimated_cost_usd)
      then (
        err budget_exceeded_error "OpenAI application budget would be exceeded before the request",
        db,
      )
      else let run = reserved_run m q now key (length (select (has_key key) db.runs) + 1) in
        elim (insert_row (λ (r : OpenAiRunRow). str_eq r.run_id run.run_id) run db.runs) [
          | err k t ↦ (err k t, db)
          | ok runs' ↦
              (ok (run, false), record { budget = some (booked_row q now b); runs = runs' })
        ]

  -- What `reserve` does where no completed run has its key.
  reserve_new :
      OpenAiBudgetManager → ReserveRequest → ℕ → String → Exec BudgetDb (OpenAiRunRow × Bool)
  reserve_new m q now key = do
    raise_if (ltb m.per_run_limit_usd q.estimated_cost_usd) per_run_limit_error
        "conservative OpenAI run estimate exceeds the configured per-run cap"
    locked ← locked_budget m now
    b ← reclaim_stale now locked
    book_run m q now key b

  reserve_block : OpenAiBudgetManager → ReserveRequest → ℕ → Exec BudgetDb (OpenAiRunRow × Bool)
  reserve_block m q now db =
      let key = request_key_of q.decision_id q.model q.prompt_version q.context_fingerprint in
      elim (newest (completed_with key) (λ r. r.created_at) db.runs) [
        | some row ↦ (ok (row, true), db)
        | none ↦ reserve_new m q now key db
      ]

  -- `reserve`: the run, and whether it is a completed one that is used again
  pub reserve : OpenAiBudgetManager → ReserveRequest → ℕ → Exec BudgetDb (OpenAiRunRow × Bool)
  unfolding reserve_block
  reserve m q now = session (reserve_block m q now)

-- The columns that `_finalise` writes.
abbrev pub finalised_run : FinalState → ℕ → ℕ → OpenAiRunRow → OpenAiRunRow
finalised_run f cost now r = record r {
  status = f.status;
  actual_cost_usd = cost;
  usage = elim f.usage [ none ↦ r.usage | some u ↦ some u ];
  response_id = f.response_id;
  review = f.review;
  completed_at = some now;
  error_code = f.error_code;
  validation_errors = f.validation_errors;
}

abbrev has_run_id : String → OpenAiRunRow → Bool
has_run_id id r = str_eq r.run_id id

-- The budget row and the tables after a run is finalised.
abbrev settled_row : OpenAiRunRow → ℕ → ℕ → OpenAiBudgetRow → OpenAiBudgetRow
settled_row r cost now b = record b {
  reserved_usd = b.reserved_usd - r.reserved_cost_usd;
  spent_usd = b.spent_usd + cost;
  updated_at = now;
  version = b.version + 1;
}

abbrev settled_db :
    FinalState → String → ℕ → ℕ → OpenAiRunRow → OpenAiBudgetRow → BudgetDb → BudgetDb
settled_db f id cost now r b db = record {
  budget = some (settled_row r cost now b);
  runs = update_first (has_run_id id) (finalised_run f cost now) db.runs;
}

finalise_run :
    OpenAiBudgetManager → FinalState → String → ℕ → ℕ → OpenAiRunRow → Exec BudgetDb OpenAiRunRow
finalise_run m f id cost now r = do
  b ← locked_budget m now
  modify (settled_db f id cost now r b)
  pure (finalised_run f cost now r)

finalise_block : OpenAiBudgetManager → FinalState → String → ℕ → ℕ → Exec BudgetDb OpenAiRunRow
finalise_block m f id cost now db = elim (find (has_run_id id) db.runs) [
  | none ↦ (err run_not_found_error id, db)
  | some r ↦ if is_reserved r then finalise_run m f id cost now r db else (ok r, db)
]

-- `_finalise`
pub finalise : OpenAiBudgetManager → FinalState → String → ℤ → ℕ → Exec BudgetDb OpenAiRunRow
unfolding finalise_block
finalise m f id (negsuc n) now = raise value_error "actual OpenAI cost cannot be negative"
finalise m f id (pos cost) now = session (finalise_block m f id cost now)

-- `complete`, `reject` and `fail`
pub complete :
    OpenAiBudgetManager
    → String
    → AgentTokenUsage
    → ℤ
    → String
    → AgentDecisionReview
    → ℕ
    → Exec BudgetDb OpenAiRunRow
complete m id usage cost response review now =
    finalise m
      (record {
        status = AgentRunStatus.completed;
        usage = some usage;
        response_id = some response;
        review = some review;
        error_code = none;
        validation_errors = [];
      })
      id cost now

pub reject :
    OpenAiBudgetManager
    → String
    → AgentTokenUsage
    → ℤ
    → String
    → String
    → List String
    → ℕ
    → Exec BudgetDb OpenAiRunRow
reject m id usage cost response code errors now =
    finalise m
      (record {
        status = AgentRunStatus.rejected;
        usage = some usage;
        response_id = some response;
        review = none;
        error_code = some code;
        validation_errors = errors;
      })
      id cost now

pub fail : OpenAiBudgetManager → String → String → ℤ → ℕ → Exec BudgetDb OpenAiRunRow
fail m id code cost now =
    finalise m
      (record {
        status = AgentRunStatus.failed;
        usage = none;
        response_id = none;
        review = none;
        error_code = some code;
        validation_errors = [];
      })
      id cost now

-- `_budget_model`
pub budget_model : OpenAiBudgetRow → AgentBudgetState
budget_model b = record {
  limit_usd = b.limit_usd;
  reserved_usd = b.reserved_usd;
  spent_usd = b.spent_usd;
  remaining_usd = b.limit_usd - b.spent_usd - b.reserved_usd;
  updated_at = b.updated_at;
  version = b.version;
}

state_block : OpenAiBudgetManager → ℕ → Exec BudgetDb AgentBudgetState
state_block m now = do
  locked ← locked_budget m now
  b ← reclaim_stale now locked
  pure (budget_model b)

-- `state`
pub budget_state : OpenAiBudgetManager → ℕ → Exec BudgetDb AgentBudgetState
unfolding state_block
budget_state m now = session (state_block m now)
