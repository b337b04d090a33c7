-- ===== src/Approval/Tests.antt =====
-- An approval of src/promiseguard/approval.py that is requested, approved, and then rejected.
use promiseguard_ai.Prelude.{◌≤◌, ◌≡◌, ◌≢◌, refl, arith, true, false, none, some, List, [], ◌∷◌}
use promiseguard_ai.Prelude.Int.{pos}
use promiseguard_ai.Prelude.Text.{eq_iff}
use promiseguard_ai.Prelude.Exec.{ok, err, approval_error}
use promiseguard_ai.Models.{
  ApprovalRecord, ApprovalStatus, ApprovalDecisionInput, RecoveryAction, UserRole, DecisionTrace,
  DecisionStatus, OperatingMode, PolicyDisposition,
}
use promiseguard_ai.Examples.{bits, risk_of_order, plain_codec}
use promiseguard_ai.Database.{Db}
use promiseguard_ai.Identity.{bind_claimed_role, registered_role, assert_separation_of_duties}
use promiseguard_ai.Persistence.Approvals.{
  get_approval, create_approval, update_if_pending, is_pending,
}
use promiseguard_ai.Autonomy.History.{empty_db}
use promiseguard_ai.Approval.{
  ApprovalService, request_approval, request_block, decide, decide_block, decided_record,
  expired_record, may_not_decide, requested_record,
}
use promiseguard_ai.Approval.Decided.{decide_checks, decide_timely, decide_late}
use promiseguard_ai.Approval.Closed.{
  ApprovalCall, approve_call, reject_call, after_calls, closed_stays,
}

abbrev service : ApprovalService
service = record { codec = plain_codec; ttl = 100; strict = true }

abbrev open_approval : ApprovalRecord
open_approval = record {
  approval_id = "apr_1";
  decision_id = "dec_1";
  requested_action = RecoveryAction.reroute;
  status = ApprovalStatus.pending;
  requested_by = "operations-analyst-ui";
  requested_at = 1000;
  expires_at = 1100;
  decided_by = none;
  decided_by_role = none;
  decision_reason = none;
  decided_at = none;
}

abbrev with_approval : Db
with_approval = record empty_db { approvals = open_approval ∷ [] }

abbrev manager_input : ApprovalDecisionInput
manager_input = record {
  actor_id = "operations-manager-ui";
  actor_role = UserRole.operations_manager;
  reason = "cheap";
}

abbrev approved : ApprovalRecord
approved = decided_record ApprovalStatus.approved manager_input 1050 open_approval

abbrev with_approved : Db
with_approved = record empty_db { approvals = approved ∷ [] }

found : get_approval "apr_1" with_approval ≡ some open_approval
unfolding get_approval
found = refl

bound :
    bind_claimed_role true "operations-manager-ui" UserRole.operations_manager
    ≡ ok UserRole.operations_manager
unfolding bind_claimed_role registered_role
bound = refl

others : open_approval.requested_by ≢ manager_input.actor_id
others e =
    let same : false ≡ true = (eq_iff open_approval.requested_by manager_input.actor_id).1 e in cc

approves :
    decide service ApprovalStatus.approved "apr_1" manager_input 1050 with_approval
    ≡ (ok approved, with_approved)
unfolding decide decide_block bind_claimed_role registered_role assert_separation_of_duties
    get_approval update_if_pending
approves = refl

decide_checks_example :
    (r : ApprovalRecord) × (get_approval "apr_1" with_approval ≡ some r)
    × (is_pending r ≡ true)
    × (may_not_decide UserRole.operations_manager ≡ false)
    × (r.requested_by ≢ manager_input.actor_id)
    × (1050 ≤ r.expires_at)
    × (approved ≡ decided_record ApprovalStatus.approved manager_input 1050 r)
    × (get_approval "apr_1" with_approved ≡ some approved)
decide_checks_example =
    decide_checks service ApprovalStatus.approved "apr_1" manager_input 1050 with_approval approves

decide_timely_example :
    ((decide service ApprovalStatus.approved "apr_1" manager_input 1050 with_approval).0
      ≡ ok approved)
    × (get_approval "apr_1"
          (decide service ApprovalStatus.approved "apr_1" manager_input 1050 with_approval).1
        ≡ some approved)
decide_timely_example =
    decide_timely service ApprovalStatus.approved "apr_1" manager_input 1050 with_approval found
      refl refl bound others (omega arith)

decide_late_example :
    ((decide service ApprovalStatus.approved "apr_1" manager_input 1200 with_approval).0
      ≡ err approval_error "approval has expired")
    × (get_approval "apr_1"
          (decide service ApprovalStatus.approved "apr_1" manager_input 1200 with_approval).1
        ≡ some (expired_record open_approval))
decide_late_example =
    decide_late service ApprovalStatus.approved "apr_1" manager_input 1200 with_approval found refl
      refl bound others (omega arith)

found_approved : get_approval "apr_1" with_approved ≡ some approved
unfolding get_approval
found_approved = refl

abbrev in_vain : List ApprovalCall
in_vain = reject_call "apr_1" manager_input 1060 ∷ approve_call "apr_1" manager_input 2000 ∷ []

closed_stays_example :
    get_approval "apr_1" (after_calls service in_vain with_approved) ≡ some approved
closed_stays_example = closed_stays service in_vain "apr_1" with_approved found_approved refl

abbrev reroute_trace : DecisionTrace
reroute_trace = record {
  trace_version = "decision-trace-v2";
  decision_id = "dec_1";
  event_id = "EV-1";
  order_id = "ORD-1";
  mode = OperatingMode.approval;
  risk = risk_of_order;
  recommendation = record {
    selected_action = RecoveryAction.reroute;
    ranked_options = [];
    expected_incremental_value_vs_no_action = pos 3275;
    rejected_options = [];
    confidence = bits 9000;
  };
  policy = record {
    disposition = PolicyDisposition.request_approval;
    policy_version = "policy-v3";
    control_version = "kill-switch:1";
    execution_allowed = false;
    reasons = [];
  };
  status = DecisionStatus.awaiting_approval;
  created_at = 1000;
  tenant_id = "local-default";
}

abbrev requested : ApprovalRecord
requested = requested_record service reroute_trace "operations-analyst-ui" 1000

requests :
    (request_approval service reroute_trace "operations-analyst-ui" 1000 empty_db).0 ≡ ok requested
unfolding request_approval request_block create_approval get_approval
requests = refl
