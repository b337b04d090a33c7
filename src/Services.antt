-- ===== src/Services.antt =====
-- src/promiseguard/services.py: the policy gateway and the orchestrator as the container builds them, and
-- the service of evaluation.py. `less` and `min_confidence` are the comparison of floats and the
-- gateway's default literal.
pub mod Again
pub mod Earned
mod Tests
use promiseguard_ai.Prelude.{ℕ, Bool}
use promiseguard_ai.Prelude.Text.{String}
use promiseguard_ai.Prelude.Exec.{Result, ok, Exec, ◌>>=◌, pure}
use promiseguard_ai.Models.{DecisionTrace, EvaluationRequest, Float}
use promiseguard_ai.Floats.{FloatOps}
use promiseguard_ai.Codec.{Codec}
use promiseguard_ai.Database.{Db, session}
use promiseguard_ai.Persistence.{ingest}
use promiseguard_ai.Policy.{PolicyControls}
use promiseguard_ai.Autonomy.{context_version, execution_permitted, kill_switch}
use promiseguard_ai.Ledger.{sql_record}
use promiseguard_ai.Orchestrator.{Orchestrator, RiskScorer, evaluate}

-- `lambda: autonomy.kill_switch().active`
unfoldable pub kill_switch_active : Exec Db Bool
kill_switch_active = do switch ← kill_switch; pure switch.active

-- The gateway's callbacks, which only read.
abbrev pub controls_of : (ℕ → String) → FloatOps → Float → Db → PolicyControls
controls_of number f min_confidence db = record {
  kill_switch_active = (kill_switch_active db).0;
  autonomy_allowed = λ action. (execution_permitted action db).0;
  control_version = λ action. (context_version number action db).0;
  less = f.less;
  min_confidence = min_confidence;
}

abbrev pub built_orchestrator :
    Codec → FloatOps → RiskScorer → (ℕ → String) → Float → Orchestrator Db
built_orchestrator c f scorer number min_confidence = record {
  codec = c;
  floats = f;
  scorer = scorer;
  controls = controls_of number f min_confidence;
  record_trace = sql_record c;
  number = number;
}

-- `EvaluationService.evaluate`
unfoldable pub evaluate_request : Orchestrator Db → ℕ → EvaluationRequest → Exec Db DecisionTrace
evaluate_request o now request = do _ ← session (ingest o.codec now request); evaluate o request
