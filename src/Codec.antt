-- ===== src/Codec.antt =====
-- What identities and fingerprints are made of: SHA-256 and the canonical JSON of pydantic and the
-- json module, which the program calls and does not contain.
use promiseguard_ai.Prelude.{ℕ, [], ◌∷◌}
use promiseguard_ai.Prelude.Text.{String, concat, prefix}
use promiseguard_ai.Models.{
  EvaluationRequest, DecisionTrace, ApprovalRecord, ActionCommand, OutcomeVerification,
}

-- `sha256_hex s` is `sha256(s.encode()).hexdigest()`; the others are
-- `json.dumps(value.model_dump(mode="json"), sort_keys=True, …)`.
pub record Codec : Type 0 where
  pub sha256_hex : String → String
  pub request_json : EvaluationRequest → String
  pub trace_json : DecisionTrace → String
  pub approval_json : ApprovalRecord → String
  pub command_json : ActionCommand → String
  pub outcome_json : OutcomeVerification → String

-- `canonical_fingerprint`, of the JSON text of the payload
unfoldable pub canonical_fingerprint : Codec → String → String
canonical_fingerprint c json = c.sha256_hex json

-- `f"{kind}_{sha256(material).hexdigest()[:n]}"`
unfoldable pub hashed_id : Codec → String → String → ℕ → String
unfolding concat
hashed_id c kind material n = concat (kind ∷ prefix (c.sha256_hex material) n ∷ [])
