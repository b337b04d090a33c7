-- ===== src/Agent.antt =====
-- src/promiseguard/openai_agent.py: one reviewed run of a model over a recorded decision. The client's
-- answer, the text of the context as JSON and the instructions are parameters; costs are
-- micro-dollars. `clock n` is the n-th reading of the clock.
mod Context
pub mod Validated
pub mod Effects
mod Tests
unfoldable pub use Context.*
use promiseguard_ai.Prelude.{
  ℕ, Bool, true, false, ◌&&◌, ◌||◌, not, Option, none, some, List, [], ◌∷◌, ◌==◌, is_some,
  if◌then◌else◌,
}
use promiseguard_ai.Prelude.Int.{pos}
use promiseguard_ai.Prelude.Text.{String, concat}
use promiseguard_ai.Prelude.Exec.{
  Result, ok, err, Exec, ◌>>=◌, ◌>>◌, lift, pure, raise, raise_if, open_ai_agent_unavailable_error,
  open_ai_response_error, agent_output_validation_error,
}
use promiseguard_ai.Models.{DecisionTrace, WorkflowState}
use promiseguard_ai.Codec.{Codec}
use promiseguard_ai.Budget.{
  AgentBudgetState, AgentDecisionReview, AgentNextStep, AgentTokenUsage, BudgetDb,
  OpenAiBudgetManager, OpenAiRunRow, ReserveRequest, budget_state, complete, fail, reject, reserve,
}
use promiseguard_ai.Cost.{cost_for_usage, estimated_run_cost}
use promiseguard_ai.Execution.{World}
use promiseguard_ai.Workflow.{RecoveryWorkflowService, get_state, submit}

-- The database and systems of the workflow, and the tables of the budget.
pub record AgentWorld : Type 0 where
  pub world : World
  pub books : BudgetDb

abbrev pub on_world : {A : Type 0} → Exec World A → Exec AgentWorld A
on_world m a = let (r, w') = m a.world in (r, record a { world = w' })

abbrev pub on_books : {A : Type 0} → Exec BudgetDb A → Exec AgentWorld A
on_books m a = let (r, b') = m a.books in (r, record a { books = b' })

-- `ParsedOpenAIResponse`
pub record ParsedOpenAiResponse : Type 0 where
  pub response_id : String
  pub review : AgentDecisionReview
  pub usage : AgentTokenUsage

-- What `parse_review` gives: a response, or an exception by the name of its type.
pub data ClientAnswer : Type 0 where
  answered : ParsedOpenAiResponse → ClientAnswer
  broke : String → ClientAnswer

-- The arguments of `parse_review`.
pub record ReviewCall : Type 0 where
  pub model : String
  pub instructions : String
  pub input_text : String
  pub max_output_tokens : ℕ
  pub idempotency_key : String
  pub decision_id : String

-- `OpenAIAgentService`; `sdk` is the client that it makes where it was given none, `has_key` whether
-- the environment has a key.
pub record OpenAiAgentService : Type 0 where
  pub workflow : RecoveryWorkflowService
  pub codec : Codec
  pub number : ℕ → String
  pub iso : ℕ → String
  pub context_json : AgentContext → String
  pub instructions : String
  pub budget : OpenAiBudgetManager
  pub model : String
  pub max_output_tokens : ℕ
  pub enabled : Bool
  pub has_key : Bool
  pub client : Option (ReviewCall → ClientAnswer)
  pub sdk : ReviewCall → ClientAnswer

pub record AgentRunRequest : Type 0 where
  pub decision_id : String
  pub actor_id : String
  pub advance_workflow : Bool

pub record AgentRunResult : Type 0 where
  pub run : OpenAiRunRow
  pub budget : AgentBudgetState
  pub workflow : WorkflowState
  pub reused_existing_run : Bool

abbrev pub prompt_version : String
prompt_version = "promiseguard-openai-review-v2"

-- `available`
unfoldable pub available : OpenAiAgentService → Bool
available s = s.enabled && (is_some s.client || s.has_key)

-- `self._client or OpenAIResponsesClient(…)`
abbrev pub client_of : OpenAiAgentService → ReviewCall → ClientAnswer
client_of s = elim s.client [ some client ↦ client | none ↦ s.sdk ]

module _ (s : OpenAiAgentService) (request : AgentRunRequest) (clock : ℕ → ℕ)
    (tick : ℕ → ℕ → ℕ) where
  -- `_advance_if_requested`
  unfoldable pub advance_if_requested :
      AgentDecisionReview → WorkflowState → Exec World WorkflowState
  advance_if_requested review current =
      if request.advance_workflow
        && next_step_tag review.next_step == next_step_tag AgentNextStep.submit_decision
      then submit s.workflow request.decision_id request.actor_id (clock 4) (tick 4)
      else pure current

  -- The end of a run that is used again or completed.
  unfoldable pub conclude_run :
      OpenAiRunRow → AgentDecisionReview → WorkflowState → Bool → Exec AgentWorld AgentRunResult
  conclude_run run review current reused = do
    workflow ← on_world (advance_if_requested review current)
    budget ← on_books (budget_state s.budget (clock 5))
    pure (record { run = run; budget = budget; workflow = workflow; reused_existing_run = reused })

  -- A completed run with the same key.
  unfoldable pub reuse : OpenAiRunRow → WorkflowState → Exec AgentWorld AgentRunResult
  reuse run current = elim run.review [
    | none ↦ raise open_ai_response_error "CACHED_RUN_MISSING_REVIEW"
    | some review ↦ conclude_run run review current true
  ]

  -- What follows a response: the validation, and the end of the run in the books.
  unfoldable pub take_response :
      OpenAiRunRow → ParsedOpenAiResponse → WorkflowState → Exec AgentWorld AgentRunResult
  take_response run response current = do
    cost ← lift (cost_for_usage s.model response.usage)
    elim (validate response.review current.decision (context_of s.iso current.decision)) [
      | e ∷ errors ↦ do
        _ ← on_books (
            reject s.budget run.run_id response.usage (pos cost) response.response_id
              "AGENT_OUTPUT_REJECTED" (e ∷ errors) (clock 3))
        raise agent_output_validation_error "OpenAI agent output failed deterministic validation"
      | [] ↦ do
        completed ← on_books (
            complete s.budget run.run_id response.usage (pos cost) response.response_id
              response.review (clock 3))
        conclude_run completed response.review current false
    ]

  -- The call of the client for a new run.
  unfoldable pub call_client :
      OpenAiRunRow → String → WorkflowState → Exec AgentWorld AgentRunResult
  call_client run input_text current =
      elim (client_of s (record {
        model = s.model;
        instructions = s.instructions;
        input_text = input_text;
        max_output_tokens = s.max_output_tokens;
        idempotency_key = run.request_key;
        decision_id = request.decision_id;
      })) [
        | broke name ↦ do
          _ ← on_books (
              fail s.budget run.run_id (concat ("OPENAI_REQUEST_FAILED:" ∷ name ∷ []))
                (pos run.reserved_cost_usd) (clock 3))
          raise open_ai_response_error (concat ("OPENAI_REQUEST_FAILED:" ∷ name ∷ []))
        | answered response ↦ take_response run response current
      ]

  -- `run`
  unfoldable pub run_agent : Exec AgentWorld AgentRunResult
  run_agent = do
    raise_if (not (available s) && not (is_some s.client)) open_ai_agent_unavailable_error
        "OpenAI agent is disabled or OPENAI_API_KEY is unavailable"
    current ← on_world (get_state s.workflow request.decision_id)
    let input_text = s.context_json (context_of s.iso current.decision)
    (tokens, estimated_cost) ← lift (
        estimated_run_cost s.model (concat (s.instructions ∷ "\n" ∷ input_text ∷ []))
          s.max_output_tokens)
    (run, reused) ← on_books (
        reserve s.codec s.number s.budget
          (record {
            decision_id = request.decision_id;
            model = s.model;
            prompt_version = prompt_version;
            context_fingerprint = s.codec.sha256_hex input_text;
            estimated_cost_usd = estimated_cost;
          })
          (clock 2))
    if reused then reuse run current else call_client run input_text current
