-- ===== src/Orchestrator/Repeat.antt =====
-- An evaluation of src/promiseguard/orchestrator.py that is made again.
use promiseguard_ai.Prelude.{◌≡◌, arith, inl, inr}
use promiseguard_ai.Prelude.Text.{String}
use promiseguard_ai.Prelude.Exec.{ok, Result-cases}
use promiseguard_ai.Models.{EvaluationRequest, DecisionTrace}
use promiseguard_ai.Codec.{Codec}
use promiseguard_ai.Database.{Db, RuntimeControlRow, AutonomyProfileRow}
use promiseguard_ai.Prelude.{Option, List}
use promiseguard_ai.Floats.{FloatOps}
use promiseguard_ai.Policy.{PolicyControls, evaluate_policy}
use promiseguard_ai.Ledger.{sql_record}
use promiseguard_ai.Ledger.Immutable.{sql_record_again}
use promiseguard_ai.Orchestrator.{Orchestrator, RiskScorer, evaluate, trace_of}
use promiseguard_ai.Simulator.{simulate}
use promiseguard_ai.Optimizer.{select_option}
use Prim.Native.Nat.{ℕ}

-- What an evaluation needs of its ledger: recording leaves the controls alone, and recording again
-- what was accepted returns it and changes nothing.
pub record LedgerLaws {S : Type 0} (o : Orchestrator S) : Type 0 where
  pub keeps : (t : DecisionTrace) (s : S) → o.controls (o.record_trace t s).1 ≡ o.controls s
  pub again :
      (t : DecisionTrace) (s : S) (stored : DecisionTrace)
      → (o.record_trace t s).0 ≡ ok stored
      → o.record_trace t (o.record_trace t s).1 ≡ (ok stored, (o.record_trace t s).1)

-- With a ledger that records idempotently and a recording that leaves the controls as they are,
-- an evaluation that returned, made again in the state it left, returns the same trace and
-- changes nothing.
pub evaluate_again :
    {S : Type 0} (o : Orchestrator S)
    → LedgerLaws o
    → (request : EvaluationRequest) (s : S) (stored : DecisionTrace)
    → (evaluate o request s).0 ≡ ok stored
    → evaluate o request (evaluate o request s).1 ≡ (ok stored, (evaluate o request s).1)
unfolding evaluate
evaluate_again o laws request s stored h =
    let risk = o.scorer.score request.order in
    elim (Result-cases (select_option (simulate o.floats request.order risk))) [
      | inr (k, t, e) ↦ ground arith
      | inl (r, e) ↦
          elim (Result-cases (evaluate_policy (o.controls s) request.order risk r request.mode)) [
            | inr (k, t, p) ↦ ground arith
            | inl (policy, p) ↦
                let trace = trace_of o request risk r policy in
                ground (arith, laws.keeps trace s, laws.again trace s stored)
          ]
    ]

-- The orchestrator over the database ledger, whose controls are read from the kill switch and the
-- autonomy profiles.
abbrev pub sql_orchestrator :
    Codec
    → FloatOps
    → RiskScorer
    → (ℕ → String)
    → (Option RuntimeControlRow → List AutonomyProfileRow → PolicyControls)
    → Orchestrator Db
sql_orchestrator c f scorer number controls = record {
  codec = c;
  floats = f;
  scorer = scorer;
  controls = λ db. controls db.kill_switch db.profiles;
  record_trace = sql_record c;
  number = number;
}

-- The database ledger meets the laws.
pub sql_orchestrator-LedgerLaws :
    (c : Codec) (f : FloatOps) (scorer : RiskScorer) (number : ℕ → String)
    (controls : Option RuntimeControlRow → List AutonomyProfileRow → PolicyControls)
    → LedgerLaws (sql_orchestrator c f scorer number controls)
unfolding sql_record
sql_orchestrator-LedgerLaws c f scorer number controls = record {
  keeps = λ t db. ground arith;
  again = λ t db stored h. sql_record_again c t db h;
}
