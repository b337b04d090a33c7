-- ===== src/Lib.antt =====
-- PromiseGuard: decisions about orders whose delivery promise is at risk.
--
-- An order event is scored for risk, its recovery options are simulated and ranked, a policy gateway
-- says whether the best one may be executed, and the decision is recorded in an immutable ledger. A
-- person approves what may not be executed automatically. Autonomy has to be earned by verified
-- outcomes, and a guard keeps the cost of language model calls within a budget.
--
-- Which file models which part (paths are from the repository's root; a directory of the same name
-- holds the proofs, and the tests with the concrete runs):
--   Models.antt        src/promiseguard/models.py: the enumerations and records
--   Floats.antt        Python's floats, a parameter with the laws that the code relies on
--   Codec.antt         SHA-256 and canonical JSON, a parameter
--   Money.antt         _money of simulator.py and verification.py
--   Simulator.antt     simulator.py: RecoverySimulator.simulate and _build_option
--   Optimizer.antt     optimizer.py: DecisionOptimizer.select is select_option
--   Policy.antt        policy.py: PolicyGateway.evaluate is evaluate_policy
--   Database.antt      database.py and db_models.py: the tables and the session
--   Persistence.antt   persistence.py: the repositories of events, decisions, actions, approvals
--                      and outcomes
--   Ledger.antt        ledger.py: InMemoryDecisionLedger and SqlDecisionLedger
--   Orchestrator.antt  orchestrator.py: PromiseGuardOrchestrator.evaluate
--   Budget.antt        openai_budget.py and openai_models.py: OpenAIBudgetManager
--   Cost.antt          openai_cost.py
--   Identity.antt      identity.py: bind_claimed_role and assert_separation_of_duties
--   Approval.antt      approval.py: ApprovalService
--   Autonomy.antt      autonomy.py: AutonomyController
--   Sandbox.antt       adapters/sandbox.py: SimulatedOperationsAdapter and the runtime it shares
--   Execution.antt     execution.py: ActionGateway.execute and its actions
--   Verification.antt  verification.py: OutcomeVerificationService
--   Workflow.antt      workflow.py: RecoveryWorkflowService; Workflow/Reach.antt has the states that
--                      calls of all these services reach
--   Feedback.antt      feedback.py and FeedbackRepository of persistence.py
--   Agent.antt         openai_agent.py: OpenAIAgentService.run is run_agent; Agent/Context.antt has
--                      _context and _validate
--   Services.antt      evaluation.py, and the gateway and the orchestrator as services.py builds them
-- Prelude.antt has what they share, Examples.antt the values of the tests.
--
-- How the code is read. A method that changes the database is an Exec: a function from the tables to
-- a result, a value or an exception with its class and message, and the tables after it. A session
-- commits on return and rolls back on an exception. A table is the list of its rows in the order of
-- insertion; the one row that a query in descending order asks for is `newest`. Instants are
-- microseconds in UTC, so that ensure_utc changes nothing; the reading of the clock is an argument.
-- An amount of an order is a decimal of any number of places, and `_money` rounds what is computed of
-- it; what it returns, and the amounts that come of it, are in whole cents. Sums and products of
-- decimals are exact, as Python's are within the 28 digits of its default context. Language model
-- calls are paid in whole micro-dollars. A float is a bit pattern whose arithmetic is a parameter.
-- Every loop is a structural recursion, so that no fuel is needed.
--
-- The workflow changes the database and the systems of record together, and the agent the books of
-- the budget too: `on_db`, `on_sandbox`, `on_world` and `on_books` lift the methods of the parts.
--
-- Not modelled: the field validators of pydantic, foreign keys, concurrency below the level of a
-- session, the typed contracts of the adapters, the settings and the rest of the container in services.py,
-- the rules of the risk scorer, the OpenAI client (a parameter), the trained model, synthetic data,
-- metrics, the HTTP API and the console.
pub mod Prelude
pub mod Models
pub mod Money
pub mod Floats
pub mod Simulator
pub mod Optimizer
pub mod Policy
pub mod Codec
pub mod Database
pub mod Persistence
pub mod Ledger
pub mod Orchestrator
pub mod Budget
pub mod Cost
pub mod Identity
pub mod Approval
pub mod Autonomy
pub mod Examples
pub mod Sandbox
pub mod Execution
pub mod Verification
pub mod Workflow
pub mod Feedback
pub mod Agent
pub mod Services
