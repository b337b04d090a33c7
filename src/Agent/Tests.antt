-- ===== src/Agent/Tests.antt =====
-- A run of src/promiseguard/openai_agent.py over a recorded decision.
use promiseguard_ai.Prelude.{ℕ, ◌≡◌, ◌↔◌, ◌⊎◌, refl, true, none, List, [], ◌∷◌}
use promiseguard_ai.Prelude.Exec.{Result}
use promiseguard_ai.Models.{PolicyDisposition, RecoveryAction}
use promiseguard_ai.Examples.{bits, digits, plain_codec, quiet, upgrade_trace}
use promiseguard_ai.Persistence.{decision_row}
use promiseguard_ai.Autonomy.History.{empty_db}
use promiseguard_ai.Budget.{
  AgentDecisionReview, AgentNextStep, AgentRationaleCode, OpenAiBudgetManager,
}
use promiseguard_ai.Budget.Balance.{IsBalanced}
use promiseguard_ai.Budget.History.{BudgetCall, after_calls, empty_budget}
use promiseguard_ai.Workflow.{RecoveryWorkflowService, submit}
use promiseguard_ai.Workflow.Authority.{IsSound}
use promiseguard_ai.Agent.{
  AgentRunRequest, AgentRunResult, AgentWorld, OpenAiAgentService, answered, context_of, run_agent,
  validate,
}
use promiseguard_ai.Agent.Validated.{IsFaithful, validate_accepts}
use promiseguard_ai.Agent.Effects.{run_agent_keeps, run_agent_touches}

abbrev review_of_upgrade : AgentDecisionReview
review_of_upgrade = record {
  decision_id = "dec_1";
  selected_action = RecoveryAction.carrier_upgrade;
  policy_disposition = PolicyDisposition.request_approval;
  next_step = AgentNextStep.submit_decision;
  rationale_codes = AgentRationaleCode.approval_required ∷ [];
  evidence_ids = [];
  requires_human_attention = true;
  uncertainty = bits 1000;
  summary = "an upgrade that needs approval";
}

validate_accepts_example :
    (validate review_of_upgrade (upgrade_trace 400) (context_of digits (upgrade_trace 400)) ≡ [])
    ↔ IsFaithful review_of_upgrade (upgrade_trace 400) (context_of digits (upgrade_trace 400))
validate_accepts_example =
    validate_accepts review_of_upgrade (upgrade_trace 400) (context_of digits (upgrade_trace 400))

abbrev manager : OpenAiBudgetManager
manager = record { limit_usd = 5000000; per_run_limit_usd = 10000; reservation_ttl = 600 }

abbrev workflow : RecoveryWorkflowService
workflow = record {
  codec = plain_codec;
  approvals = record { codec = plain_codec; ttl = 100; strict = true };
  actions = record { codec = plain_codec; governed = true };
  verification = record { codec = plain_codec; governed = true };
}

abbrev agent : OpenAiAgentService
agent = record {
  workflow = workflow;
  codec = plain_codec;
  number = digits;
  iso = digits;
  context_json = λ c. c.decision_id;
  instructions = "review";
  budget = manager;
  model = "gpt-5-nano";
  max_output_tokens = 600;
  enabled = true;
  has_key = true;
  client = none;
  sdk = λ call. answered (record {
    response_id = "resp_1";
    review = review_of_upgrade;
    usage = record {
      input_tokens = 100;
      cached_input_tokens = 0;
      output_tokens = 50;
      total_tokens = 150;
    };
  });
}

abbrev request : AgentRunRequest
request = record { decision_id = "dec_1"; actor_id = "openai-smoke"; advance_workflow = true }

abbrev clock : ℕ → ℕ
clock n = 1000

abbrev tick : ℕ → ℕ → ℕ
tick n k = 1000

abbrev before_run : AgentWorld
before_run = record {
  world = record {
    db = record empty_db { decisions = decision_row plain_codec (upgrade_trace 400) ∷ [] };
    sandbox = quiet;
  };
  books = empty_budget;
}

abbrev run : Result AgentRunResult × AgentWorld
run = run_agent agent request clock tick before_run

run_agent_touches_example :
    ((run.1.world ≡ before_run.world)
      ⊎ ((request.advance_workflow ≡ true)
          × (run.1.world
              ≡ (submit workflow "dec_1" "openai-smoke" 1000 (tick 4) before_run.world).1)))
    × ((calls : List BudgetCall) × (run.1.books
          ≡ after_calls plain_codec digits manager calls empty_budget))
run_agent_touches_example = run_agent_touches agent request clock tick before_run

sound : IsSound before_run.world.db
sound = record { filed = (refl, tt); authorised = tt }

run_agent_keeps_example : IsSound run.1.world.db × IsBalanced run.1.books
run_agent_keeps_example = run_agent_keeps agent request clock tick before_run sound (refl, refl)
