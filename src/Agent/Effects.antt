-- ===== src/Agent/Effects.antt =====
-- What a run of src/promiseguard/openai_agent.py changes.
use mathlib.Core.Path.{subst}
use promiseguard_ai.Prelude.{
  ℕ, ◌≡◌, ◌⊎◌, refl, sym, Bool, true, false, not, ◌&&◌, List, [], ◌∷◌, arith, ◌==◌, Option-cases,
  Bool-cases, inl, inr,
}
use promiseguard_ai.Prelude.{is_some}
use promiseguard_ai.Prelude.Int.{pos}
use promiseguard_ai.Prelude.Text.{String, concat}
use promiseguard_ai.Prelude.Exec.{Exec-cases, Result-cases}
use promiseguard_ai.Models.{WorkflowState}
use promiseguard_ai.Persistence.{get_decision}
use promiseguard_ai.Budget.{
  AgentDecisionReview, AgentNextStep, OpenAiRunRow, ReserveRequest, budget_state, complete, fail,
  reject, reserve,
}
use promiseguard_ai.Budget.Balance.{IsBalanced}
use promiseguard_ai.Budget.History.{
  BudgetCall, after_call, after_calls, after_calls-IsBalanced, complete_call, fail_call,
  reject_call, reserve_call, state_call,
}
use promiseguard_ai.Cost.{cost_for_usage, estimated_run_cost}
use promiseguard_ai.Execution.{World}
use promiseguard_ai.Workflow.{RecoveryWorkflowService, decision_of, get_state, submit}
use promiseguard_ai.Workflow.Authority.{IsSound}
use promiseguard_ai.Workflow.Reach.{submit-IsSound}
use promiseguard_ai.Agent.{ReviewCall}
use promiseguard_ai.Agent.{
  AgentRunRequest, AgentWorld, ClientAnswer, OpenAiAgentService, ParsedOpenAiResponse,
  advance_if_requested, answered, available, broke, call_client, client_of, conclude_run,
  context_of, next_step_tag, prompt_version, reuse, run_agent, take_response, validate,
}

list-cases : {A : Type 0} (xs : List A) → (xs ≡ []) ⊎ ((x : A) × (rest : List A) × (xs ≡ x ∷ rest))
list-cases [] = inl refl
list-cases (x ∷ rest) = inr (x, rest, refl)

answer-cases :
    (c : ClientAnswer)
    → ((r : ParsedOpenAiResponse) × (c ≡ answered r)) ⊎ ((name : String) × (c ≡ broke name))
answer-cases (answered r) = inl (r, refl)
answer-cases (broke name) = inr (name, refl)

get_state-keeps :
    (r : RecoveryWorkflowService) (decision_id : String) (w : World)
    → (get_state r decision_id w).1 ≡ w
unfolding get_state decision_of
get_state-keeps r decision_id w = elim (Option-cases (get_decision decision_id w.db)) [
  | inl missing ↦ ground arith
  | inr (d, found) ↦ ground arith
]

module _ (s : OpenAiAgentService) (request : AgentRunRequest) (clock : ℕ → ℕ)
    (tick : ℕ → ℕ → ℕ) where
  -- The workflow is as it was, or the caller asked for an advance and it is as the submission of
  -- the decision leaves it; the books are as some calls on the budget leave them.
  abbrev pub Touches : AgentWorld → AgentWorld → Type 0
  Touches a b =
      ((b.world ≡ a.world)
        ⊎ ((request.advance_workflow ≡ true)
            × (b.world
                ≡ (submit s.workflow request.decision_id request.actor_id (clock 4) (tick 4)
                    a.world).1)))
      × ((calls : List BudgetCall) × (b.books
            ≡ after_calls s.codec s.number s.budget calls a.books))

  booked :
      (call : BudgetCall) (a b : AgentWorld)
      → Touches (record a { books = after_call s.codec s.number s.budget call a.books }) b
      → Touches a b
  booked call a b (moved, (calls, e)) = (moved, (call ∷ calls, e))

  conclude_run-Touches :
      (run : OpenAiRunRow) (review : AgentDecisionReview) (current : WorkflowState) (reused : Bool)
      (a : AgentWorld)
      → Touches a (conclude_run s request clock tick run review current reused a).1
  unfolding conclude_run advance_if_requested
  conclude_run-Touches run review current reused a =
      let go = submit s.workflow request.decision_id request.actor_id (clock 4) (tick 4) a.world in
      let advances =
        request.advance_workflow
        && next_step_tag review.next_step == next_step_tag AgentNextStep.submit_decision in
      let b = (conclude_run s request clock tick run review current reused a).1 in
      elim (Exec-cases (budget_state s.budget (clock 5) a.books)) [
        | inl (state, b1, read) ↦ elim (Bool-cases advances) [
          | inr stays ↦ (inl (ground arith), (state_call (clock 5) ∷ [], ground arith))
          | inl moves ↦ elim (Exec-cases go) [
            | inl (w, w1, e) ↦
                (inr (ground arith, ground arith), (state_call (clock 5) ∷ [], ground arith))
            | inr (k, t, w1, e) ↦ (inr (ground arith, ground arith), ([], ground arith))
          ]
        ]
        | inr (k', t', b1, read) ↦ elim (Bool-cases advances) [
          | inr stays ↦ (inl (ground arith), (state_call (clock 5) ∷ [], ground arith))
          | inl moves ↦ elim (Exec-cases go) [
            | inl (w, w1, e) ↦
                (inr (ground arith, ground arith), (state_call (clock 5) ∷ [], ground arith))
            | inr (k, t, w1, e) ↦ (inr (ground arith, ground arith), ([], ground arith))
          ]
        ]
      ]

  reuse-Touches :
      (run : OpenAiRunRow) (current : WorkflowState) (a : AgentWorld)
      → Touches a (reuse s request clock tick run current a).1
  unfolding reuse
  reuse-Touches run current a = elim (Option-cases run.review) [
    | inl missing ↦ (inl (ground arith), ([], ground arith))
    | inr (review, found) ↦
        let same : (conclude_run s request clock tick run review current true a).1
            ≡ (reuse s request clock tick run current a).1 =
          ground arith in
        subst (Touches a) same (conclude_run-Touches run review current true a)
  ]

  take_response-Touches :
      (run : OpenAiRunRow) (response : ParsedOpenAiResponse) (current : WorkflowState)
      (a : AgentWorld)
      → Touches a (take_response s request clock tick run response current a).1
  unfolding take_response
  take_response-Touches run response current a =
      let b = (take_response s request clock tick run response current a).1 in
      elim (Result-cases (cost_for_usage s.model response.usage)) [
        | inr (k, t, unpriced) ↦ (inl (ground arith), ([], ground arith))
        | inl (cost, priced) ↦
            elim (list-cases
              (validate response.review current.decision (context_of s.iso current.decision))) [
                | inr (x, errors, refused) ↦
                    let call =
                      reject_call run.run_id response.usage (pos cost) response.response_id
                        "AGENT_OUTPUT_REJECTED" (x ∷ errors) (clock 3) in
                    elim (Exec-cases (
                      reject s.budget run.run_id response.usage (pos cost) response.response_id
                        "AGENT_OUTPUT_REJECTED" (x ∷ errors) (clock 3) a.books)) [
                          | inl (r, b1, e) ↦ (inl (ground arith), (call ∷ [], ground arith))
                          | inr (k, t, b1, e) ↦ (inl (ground arith), (call ∷ [], ground arith))
                        ]
                | inl valid ↦
                    let call =
                      complete_call run.run_id response.usage (pos cost) response.response_id
                        response.review (clock 3) in
                    let done =
                      complete s.budget run.run_id response.usage (pos cost) response.response_id
                        response.review (clock 3) a.books in
                    elim (Exec-cases done) [
                      | inr (k, t, b1, e) ↦ (inl (ground arith), (call ∷ [], ground arith))
                      | inl (r, b1, e) ↦
                          let a1 : AgentWorld = record a { books = done.1 } in
                          let same : (conclude_run s request clock tick r response.review current
                                false a1).1
                              ≡ b =
                            ground arith in
                          booked call a b (
                            subst (Touches a1) same
                              (conclude_run-Touches r response.review current false a1))
                    ]
              ]
      ]

  call_client-Touches :
      (run : OpenAiRunRow) (input_text : String) (current : WorkflowState) (a : AgentWorld)
      → Touches a (call_client s request clock tick run input_text current a).1
  unfolding call_client
  call_client-Touches run input_text current a =
      let b = (call_client s request clock tick run input_text current a).1 in
      let asked : ReviewCall = record {
        model = s.model;
        instructions = s.instructions;
        input_text = input_text;
        max_output_tokens = s.max_output_tokens;
        idempotency_key = run.request_key;
        decision_id = request.decision_id;
      } in
      elim (answer-cases (client_of s asked)) [
        | inl (response, given) ↦
            let same : (take_response s request clock tick run response current a).1 ≡ b =
              ground arith in
            subst (Touches a) same (take_response-Touches run response current a)
        | inr (name, failed) ↦
            let code = concat ("OPENAI_REQUEST_FAILED:" ∷ name ∷ []) in
            let call = fail_call run.run_id code (pos run.reserved_cost_usd) (clock 3) in
            elim (Exec-cases
              (fail s.budget run.run_id code (pos run.reserved_cost_usd) (clock 3) a.books)) [
                | inl (r, b1, e) ↦ (inl (ground arith), (call ∷ [], ground arith))
                | inr (k, t, b1, e) ↦ (inl (ground arith), (call ∷ [], ground arith))
              ]
      ]

  -- Whatever the client answers and whether the run returns or raises, a run of the agent
  -- leaves the database and the systems of record as they were, or the caller asked for an
  -- advance and they are as the submission of that decision leaves them; and the books of the
  -- budget are as a sequence of calls on the budget leaves them.
  pub run_agent_touches : (a : AgentWorld) → Touches a (run_agent s request clock tick a).1
  unfolding run_agent
  run_agent_touches a =
      let b = (run_agent s request clock tick a).1 in
      let kept = get_state-keeps s.workflow request.decision_id a.world in
      elim (Bool-cases (not (available s) && not (is_some s.client))) [
        | inl unavailable ↦ (inl (ground arith), ([], ground arith))
        | inr ready ↦ elim (Exec-cases (get_state s.workflow request.decision_id a.world)) [
          | inr (k, t, w, e) ↦ (inl (ground arith), ([], ground arith))
          | inl (current, w, e) ↦
              let input_text = s.context_json (context_of s.iso current.decision) in
              elim (Result-cases (
                estimated_run_cost s.model (concat (s.instructions ∷ "\n" ∷ input_text ∷ []))
                  s.max_output_tokens)) [
                    | inr (k, t, unpriced) ↦ (inl (ground arith), ([], ground arith))
                    | inl (estimate, priced) ↦
                        let q : ReserveRequest = record {
                          decision_id = request.decision_id;
                          model = s.model;
                          prompt_version = prompt_version;
                          context_fingerprint = s.codec.sha256_hex input_text;
                          estimated_cost_usd = estimate.1;
                        } in
                        let call = reserve_call q (clock 2) in
                        let booking = reserve s.codec s.number s.budget q (clock 2) a.books in
                        let a1 : AgentWorld = record a { books = booking.1 } in
                        elim (Exec-cases booking) [
                          | inr (k, t, b1, r) ↦ (inl (ground arith), (call ∷ [], ground arith))
                          | inl (run, b1, r) ↦ elim (Bool-cases run.1) [
                            | inl again ↦
                                let same : (reuse s request clock tick run.0 current a1).1 ≡ b =
                                  ground arith in
                                booked call a b
                                  (subst (Touches a1) same (reuse-Touches run.0 current a1))
                            | inr new ↦
                                let same : (call_client s request clock tick run.0 input_text
                                      current a1).1
                                    ≡ b =
                                  ground arith in
                                booked call a b (
                                  subst (Touches a1) same
                                    (call_client-Touches run.0 input_text current a1))
                          ]
                        ]
                  ]
        ]
      ]

  -- A run of the agent from a database whose actions are authorised and from balanced books
  -- leaves the actions authorised and the books balanced.
  pub run_agent_keeps :
      (a : AgentWorld)
      → IsSound a.world.db
      → IsBalanced a.books
      → IsSound (run_agent s request clock tick a).1.world.db
        × IsBalanced (run_agent s request clock tick a).1.books
  run_agent_keeps a sound balanced =
      let (moved, (calls, booked_as)) = run_agent_touches a in
      (
        elim moved [
          | inl same ↦ subst (λ (w : World). IsSound w.db) (sym same) sound
          | inr (asked, submitted) ↦
              subst (λ (w : World). IsSound w.db) (sym submitted)
                (submit-IsSound s.workflow request.decision_id request.actor_id (clock 4) (tick 4)
                  a.world sound)
        ],
        subst IsBalanced (sym booked_as)
            (after_calls-IsBalanced s.codec s.number s.budget calls a.books balanced),
      )
