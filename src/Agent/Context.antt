-- ===== src/Agent/Context.antt =====
-- The context of src/promiseguard/openai_agent.py and the validation of a review against it. `iso` is
-- `datetime.isoformat`.
use text.Mathlib.Text.{is_lt}
use Prim.Native.String.{compare}
use promiseguard_ai.Prelude.{
  ℕ, Bool, true, false, not, List, [], ◌∷◌, ◌++◌, ◌==◌, map, select, if◌then◌else◌,
}
use promiseguard_ai.Prelude.Int.{ℤ}
use promiseguard_ai.Prelude.Text.{String, str_eq, concat, join}
use promiseguard_ai.Models.{
  DecisionTrace, Float, OperatingMode, PolicyDisposition, RecoveryAction, RecoveryOption,
  RiskFactor, SourceReference, is_action,
}
use promiseguard_ai.Budget.{AgentDecisionReview, AgentNextStep, AgentRationaleCode}
use promiseguard_ai.Sandbox.{member}

abbrev pub disposition_tag : PolicyDisposition → ℕ
disposition_tag PolicyDisposition.auto_execute = 0
disposition_tag PolicyDisposition.request_approval = 1
disposition_tag PolicyDisposition.escalate = 2
disposition_tag PolicyDisposition.block = 3
disposition_tag PolicyDisposition.take_no_action = 4

abbrev pub next_step_tag : AgentNextStep → ℕ
next_step_tag AgentNextStep.submit_decision = 0
next_step_tag AgentNextStep.wait_for_human = 1
next_step_tag AgentNextStep.escalate = 2
next_step_tag AgentNextStep.no_action = 3

abbrev pub code_tag : AgentRationaleCode → ℕ
code_tag AgentRationaleCode.highest_expected_value = 0
code_tag AgentRationaleCode.reversible_action = 1
code_tag AgentRationaleCode.within_policy = 2
code_tag AgentRationaleCode.approval_required = 3
code_tag AgentRationaleCode.bounded_autonomy_allowed = 4
code_tag AgentRationaleCode.no_positive_value = 5
code_tag AgentRationaleCode.data_quality_warning = 6
code_tag AgentRationaleCode.low_confidence = 7
code_tag AgentRationaleCode.human_escalation = 8
code_tag AgentRationaleCode.policy_blocked = 9
code_tag AgentRationaleCode.kill_switch_active = 10

-- `code.value`, of the codes that are required
pub code_value : AgentRationaleCode → String
code_value AgentRationaleCode.highest_expected_value = "HIGHEST_EXPECTED_VALUE"
code_value AgentRationaleCode.reversible_action = "REVERSIBLE_ACTION"
code_value AgentRationaleCode.within_policy = "WITHIN_POLICY"
code_value AgentRationaleCode.approval_required = "APPROVAL_REQUIRED"
code_value AgentRationaleCode.bounded_autonomy_allowed = "BOUNDED_AUTONOMY_ALLOWED"
code_value AgentRationaleCode.no_positive_value = "NO_POSITIVE_VALUE"
code_value AgentRationaleCode.data_quality_warning = "DATA_QUALITY_WARNING"
code_value AgentRationaleCode.low_confidence = "LOW_CONFIDENCE"
code_value AgentRationaleCode.human_escalation = "HUMAN_ESCALATION"
code_value AgentRationaleCode.policy_blocked = "POLICY_BLOCKED"
code_value AgentRationaleCode.kill_switch_active = "KILL_SWITCH_ACTIVE"

-- `x in codes`
abbrev pub has_code : AgentRationaleCode → List AgentRationaleCode → Bool
has_code x [] = false
has_code x (y ∷ rest) = if code_tag y == code_tag x then true else has_code x rest

-- `sorted` of a set of texts
abbrev pub add_text : String → List String → List String
add_text x [] = x ∷ []
add_text x (y ∷ rest) =
    let later = add_text x rest in
    if str_eq x y then y ∷ rest else if is_lt (compare x y) then x ∷ y ∷ rest else y ∷ later

abbrev pub sorted_set : List String → List String
sorted_set [] = []
sorted_set (x ∷ rest) = add_text x (sorted_set rest)

-- `expected_next`
abbrev pub expected_next : PolicyDisposition → AgentNextStep
expected_next PolicyDisposition.auto_execute = AgentNextStep.submit_decision
expected_next PolicyDisposition.request_approval = AgentNextStep.submit_decision
expected_next PolicyDisposition.escalate = AgentNextStep.escalate
expected_next PolicyDisposition.block = AgentNextStep.no_action
expected_next PolicyDisposition.take_no_action = AgentNextStep.no_action

-- `human_required`
abbrev pub human_required : PolicyDisposition → Bool
human_required PolicyDisposition.request_approval = true
human_required PolicyDisposition.escalate = true
human_required PolicyDisposition.block = true
human_required _ = false

-- `required_code`
abbrev pub required_code : PolicyDisposition → AgentRationaleCode
required_code PolicyDisposition.auto_execute = AgentRationaleCode.bounded_autonomy_allowed
required_code PolicyDisposition.request_approval = AgentRationaleCode.approval_required
required_code PolicyDisposition.escalate = AgentRationaleCode.human_escalation
required_code PolicyDisposition.block = AgentRationaleCode.policy_blocked
required_code PolicyDisposition.take_no_action = AgentRationaleCode.no_positive_value

-- `context["expected_review"]`
pub record ExpectedReview : Type 0 where
  pub decision_id : String
  pub selected_action : RecoveryAction
  pub policy_disposition : PolicyDisposition
  pub next_step : AgentNextStep
  pub requires_human_attention : Bool
  pub required_rationale_code : AgentRationaleCode

-- An entry of `context["recommendation"]["options"]`
pub record ContextOption : Type 0 where
  pub action : RecoveryAction
  pub feasible : Bool
  pub on_time_probability : Float
  pub expected_net_value : ℤ
  pub intervention_cost : ℕ
  pub reversible : Bool
  pub confidence : Float
  pub constraints : List String
  pub evidence_ids : List String

-- The dictionary of `_context`, its nested ones in place
pub record AgentContext : Type 0 where
  pub schema_version : String
  pub decision_id : String
  pub order_id : String
  pub mode : OperatingMode
  pub expected_review : ExpectedReview
  pub failure_probability : Float
  pub risk_confidence : Float
  pub data_quality_warnings : List String
  pub factor_codes : List String
  pub selected_action : RecoveryAction
  pub recommendation_confidence : Float
  pub options : List ContextOption
  pub disposition : PolicyDisposition
  pub execution_allowed : Bool
  pub reasons : List String
  pub policy_version : String
  pub control_version : String
  pub allowed_evidence_ids : List String

module _ (iso : ℕ → String) where
  -- `add_evidence`
  pub evidence_id_of : SourceReference → String
  evidence_id_of reference =
      concat (reference.system ∷ ":" ∷ reference.record_id ∷ ":" ∷ iso reference.observed_at ∷ [])

  abbrev pub context_option : RecoveryOption → ContextOption
  context_option o = record {
    action = o.action;
    feasible = o.feasible;
    on_time_probability = o.on_time_probability;
    expected_net_value = o.expected_net_value;
    intervention_cost = o.intervention_cost;
    reversible = o.reversible;
    confidence = o.confidence;
    constraints = o.constraints;
    evidence_ids = map evidence_id_of o.evidence_references;
  }

  -- The references that `_context` adds, of the options in turn.
  abbrev pub option_references : List RecoveryOption → List SourceReference
  option_references [] = []
  option_references (o ∷ rest) = o.evidence_references ++ option_references rest

  -- `_context`
  unfoldable pub context_of : DecisionTrace → AgentContext
  context_of d = record {
    schema_version = "agent-context-v2";
    decision_id = d.decision_id;
    order_id = d.order_id;
    mode = d.mode;
    expected_review = record {
      decision_id = d.decision_id;
      selected_action = d.recommendation.selected_action;
      policy_disposition = d.policy.disposition;
      next_step = expected_next d.policy.disposition;
      requires_human_attention = human_required d.policy.disposition;
      required_rationale_code = required_code d.policy.disposition;
    };
    failure_probability = d.risk.failure_probability;
    risk_confidence = d.risk.confidence;
    data_quality_warnings = d.risk.data_quality_warnings;
    factor_codes = map (λ (f : RiskFactor). f.code) d.risk.factors;
    selected_action = d.recommendation.selected_action;
    recommendation_confidence = d.recommendation.confidence;
    options = map context_option d.recommendation.ranked_options;
    disposition = d.policy.disposition;
    execution_allowed = d.policy.execution_allowed;
    reasons = d.policy.reasons;
    policy_version = d.policy.policy_version;
    control_version = d.policy.control_version;
    allowed_evidence_ids = sorted_set (
        map evidence_id_of
          (d.risk.evidence_references ++ option_references d.recommendation.ranked_options));
  }

abbrev pub error_if : Bool → String → List String
error_if c text = if c then text ∷ [] else []

abbrev pub unsupported_ids : AgentDecisionReview → AgentContext → List String
unsupported_ids review context =
    sorted_set (select (λ id. not (member id context.allowed_evidence_ids)) review.evidence_ids)

abbrev pub unsupported_error : List String → List String
unsupported_error [] = []
unsupported_error (x ∷ rest) = concat ("unsupported evidence ids: " ∷ join "," (x ∷ rest) ∷ []) ∷ []

abbrev pub same_flag : Bool → Bool → Bool
same_flag true b = b
same_flag false b = not b

-- `_validate`
unfoldable pub validate : AgentDecisionReview → DecisionTrace → AgentContext → List String
validate review d context =
    error_if (not (str_eq review.decision_id d.decision_id))
      "decision_id does not match immutable trace"
    ++ (error_if (not (is_action review.selected_action d.recommendation.selected_action))
          "selected_action does not match deterministic optimiser"
        ++ (error_if
              (not
                (disposition_tag review.policy_disposition == disposition_tag d.policy.disposition))
              "policy_disposition does not match policy gateway"
            ++ (error_if
                  (not (
                    next_step_tag review.next_step
                    == next_step_tag (expected_next d.policy.disposition)))
                  "next_step is inconsistent with policy disposition"
                ++ (error_if
                      (not (
                        same_flag review.requires_human_attention
                          (human_required d.policy.disposition)))
                      "requires_human_attention is inconsistent with policy"
                    ++ (unsupported_error (unsupported_ids review context)
                        ++ error_if
                            (not (
                              has_code (required_code d.policy.disposition) review.rationale_codes))
                            (concat (
                              "required rationale code missing: "
                              ∷ code_value (required_code d.policy.disposition)
                              ∷ [])))))))
