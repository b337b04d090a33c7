-- ===== src/Services/Earned.antt =====
-- What an evaluation that allows execution (src/promiseguard/evaluation.py over services.py) rests on.
use mathlib.Core.Path.{subst}
use promiseguard_ai.Prelude.{
  ℕ, ◌≤◌, ◌≡◌, ◌⊎◌, sym, ◌∙◌, ap, List, [], ◌∷◌, ◌++◌, true, false, some, arith, find, find-All,
  Option-cases, inl, inr,
}
use promiseguard_ai.Prelude.Text.{String, str_eq}
use promiseguard_ai.Prelude.Exec.{ok, Result-cases}
use promiseguard_ai.Models.{
  DecisionTrace, DecisionRecommendation, EvaluationRequest, Float, OperatingMode, OrderContext,
  PolicyEvaluation, RecoveryAction,
}
use promiseguard_ai.Floats.{FloatOps}
use promiseguard_ai.Codec.{Codec}
use promiseguard_ai.Database.{
  AutonomyProfileRow, Db, OperationalEventRow, DecisionRow, RuntimeControlRow,
}
use promiseguard_ai.Persistence.{event_row, get_decision, ingest, record_decision, same_event}
use promiseguard_ai.Simulator.{simulate}
use promiseguard_ai.Optimizer.{select_option}
use promiseguard_ai.Policy.{evaluate_policy}
use promiseguard_ai.Policy.Gate.{allowed→IsCleared}
use promiseguard_ai.Autonomy.{find_profile, has_action, promotion_threshold}
use promiseguard_ai.Autonomy.Earned.{IsEarned, is_earned}
use promiseguard_ai.Autonomy.History.{execution_permitted-reads}
use promiseguard_ai.Ledger.{sql_record}
use promiseguard_ai.Orchestrator.{RiskScorer, evaluate, trace_of}
use promiseguard_ai.Services.{built_orchestrator, controls_of, evaluate_request}

-- What the tables say where an action is allowed to execute by itself.
pub record IsPermitted (db : Db) (action : RecoveryAction) : Type 0 where
  pub row : AutonomyProfileRow
  pub switch : RuntimeControlRow
  pub found : find_profile action db ≡ some row
  pub earned : promotion_threshold ≤ row.consecutive_verified_successes
  pub set : db.kill_switch ≡ some switch
  pub off : switch.enabled ≡ false

IsPermitted-without :
    (events : List OperationalEventRow) (db : Db) (action : RecoveryAction)
    → IsPermitted (record db { events = events }) action
    → IsPermitted db action
unfolding find_profile
IsPermitted-without events db action p = record {
  row = p.row;
  switch = p.switch;
  found = p.found;
  earned = p.earned;
  set = p.set;
  off = p.off;
}

stored_without :
    (events : List OperationalEventRow) (db : Db) (id : String) {d : DecisionTrace}
    → get_decision id (record db { events = events }) ≡ some d
    → get_decision id db ≡ some d
unfolding get_decision
stored_without events db id h = h

module _ (c : Codec) (f : FloatOps) (scorer : RiskScorer) (number : ℕ → String)
    (min_confidence : Float) where
  permitted :
      (db : Db) (order : OrderContext) (r : DecisionRecommendation) (mode : OperatingMode)
      {e : PolicyEvaluation}
      → IsEarned db
      → evaluate_policy (controls_of number f min_confidence db) order (scorer.score order) r mode
        ≡ ok e
      → e.execution_allowed ≡ true
      → IsPermitted db r.selected_action
  unfolding find_profile
  permitted db order r mode earned h k =
      let cleared =
        allowed→IsCleared (controls_of number f min_confidence db) order (scorer.score order) r mode
          h k in
      let (row, switch, found, set, off, bounded) =
        execution_permitted-reads r.selected_action db cleared.earned in
      let has =
        find-All (λ r. is_earned r ≡ true) (has_action r.selected_action) db.profiles earned
          found in
      record {
        row = row;
        switch = switch;
        found = found;
        earned = ground arith;
        set = set;
        off = off;
      }

  sql_record_ok :
      (trace : DecisionTrace) (db : Db) {d : DecisionTrace}
      → (sql_record c trace db).0 ≡ ok d
      → ((id : String) × (get_decision id db ≡ some d)) ⊎ (d ≡ trace)
  unfolding sql_record record_decision get_decision
  sql_record_ok trace db {d} h =
      elim (Option-cases
        (find (λ (r : DecisionRow). str_eq r.decision_id trace.decision_id) db.decisions)) [
          | inr (row, known) ↦ inl (trace.decision_id, ground arith)
          | inl fresh ↦ inr (ground arith)
        ]

  evaluate_earned :
      (request : EvaluationRequest) (db : Db) {d : DecisionTrace}
      → IsEarned db
      → (evaluate (built_orchestrator c f scorer number min_confidence) request db).0 ≡ ok d
      → d.policy.execution_allowed ≡ true
      → ((id : String) × (get_decision id db ≡ some d))
        ⊎ IsPermitted db d.recommendation.selected_action
  unfolding evaluate
  evaluate_earned request db {d} earned h allowed =
      let o = built_orchestrator c f scorer number min_confidence in
      let risk = scorer.score request.order in
      elim (Result-cases (select_option (simulate f request.order risk))) [
        | inr (k, t, e) ↦ absurd (ground arith)
        | inl (r, e) ↦
            elim (Result-cases (
              evaluate_policy (controls_of number f min_confidence db) request.order risk r
                request.mode)) [
                  | inr (k, t, p) ↦ absurd (ground arith)
                  | inl (policy, p) ↦
                      elim (sql_record_ok (trace_of o request risk r policy) db {d = d}
                        (ground arith)) [
                          | inl known ↦ inl known
                          | inr made ↦ inr (
                              subst
                                (λ (x : DecisionTrace).
                                  IsPermitted db x.recommendation.selected_action)
                                (sym made)
                                (permitted db request.order r request.mode earned p (
                                  ap (λ (x : DecisionTrace). x.policy.execution_allowed) (sym made)
                                  ∙ allowed)))
                        ]
                ]
      ]

  after_replay :
      (now : ℕ) (request : EvaluationRequest) (db : Db) (row : OperationalEventRow)
      {d : DecisionTrace}
      → find (same_event request.event) db.events ≡ some row
      → (evaluate_request (built_orchestrator c f scorer number min_confidence) now request db).0
        ≡ ok d
      → (evaluate (built_orchestrator c f scorer number min_confidence) request db).0 ≡ ok d
  unfolding evaluate_request ingest
  after_replay now request db row known h = ground arith

  -- Where no profile has more consecutive than verified successes, every profile of bounded
  -- autonomy has at least the threshold of consecutive ones, and an evaluation by the
  -- orchestrator that the container builds returns a trace that allows execution, that trace
  -- was stored before, or its action has a profile with at least that threshold and the kill
  -- switch has a row that is off.
  pub evaluate_request_earned :
      (now : ℕ) (request : EvaluationRequest) (db : Db) {d : DecisionTrace}
      → IsEarned db
      → (evaluate_request (built_orchestrator c f scorer number min_confidence) now request db).0
        ≡ ok d
      → d.policy.execution_allowed ≡ true
      → ((id : String) × (get_decision id db ≡ some d))
        ⊎ IsPermitted db d.recommendation.selected_action
  unfolding evaluate_request ingest
  evaluate_request_earned now request db {d} earned h allowed =
      elim (Option-cases (find (same_event request.event) db.events)) [
        | inr (row, known) ↦
            evaluate_earned request db earned (after_replay now request db row known h) allowed
        | inl fresh ↦
            let added = db.events ++ event_row c now request ∷ [] in
            elim (evaluate_earned request (record db { events = added }) {d = d} earned
              (ground arith) allowed) [
                | inl (id, stored) ↦ inl (id, stored_without added db id stored)
                | inr p ↦ inr (IsPermitted-without added db d.recommendation.selected_action p)
              ]
      ]
