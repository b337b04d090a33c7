-- ===== src/Approval.antt =====
-- src/promiseguard/approval.py: requests for a person's approval, and their decision. Moments are
-- instants in UTC, so `_utc` changes nothing.
pub mod Decided
pub mod Closed
pub mod Frame
mod Tests
use promiseguard_ai.Prelude.{
  ℕ, ◌+◌, Bool, true, false, not, Option, none, some, List, [], ◌∷◌, ltb, if◌then◌else◌, select,
}
use promiseguard_ai.Prelude.Text.{String, str_eq, concat, join}
use promiseguard_ai.Prelude.Exec.{
  Result, ok, err, Exec, ErrorKind, ◌>>=◌, ◌>>◌, lift, gets, raise, raise_if, pure, or_raise,
  approval_error, record_not_found_error, persistence_conflict_error,
}
use promiseguard_ai.Models.{
  RecoveryAction, ApprovalStatus, ApprovalRecord, ApprovalDecisionInput, UserRole, DecisionTrace,
  action_value,
}
use promiseguard_ai.Codec.{Codec, hashed_id}
use promiseguard_ai.Database.{Db, session}
use promiseguard_ai.Identity.{bind_claimed_role, assert_separation_of_duties}
use promiseguard_ai.Persistence.Approvals.{
  get_approval, create_approval, update_if_pending, is_pending,
}

-- `ApprovalService`: the database is the state, `strict` the identity setting of the environment.
pub record ApprovalService : Type 0 where
  pub codec : Codec
  pub ttl : ℕ
  pub strict : Bool

-- `selected_action in {TAKE_NO_ACTION, HUMAN_ESCALATION}`
abbrev pub not_executable : RecoveryAction → Bool
not_executable RecoveryAction.take_no_action = true
not_executable RecoveryAction.human_escalation = true
not_executable _ = false

pub approval_id_of : Codec → DecisionTrace → String
approval_id_of c d =
    hashed_id c "apr_"
      (join "|" (
        d.decision_id
        ∷ action_value d.recommendation.selected_action
        ∷ d.policy.policy_version
        ∷ []))
      24

abbrev pub requested_record : ApprovalService → DecisionTrace → String → ℕ → ApprovalRecord
requested_record s d requested_by now = record {
  approval_id = approval_id_of s.codec d;
  decision_id = d.decision_id;
  requested_action = d.recommendation.selected_action;
  status = ApprovalStatus.pending;
  requested_by = requested_by;
  requested_at = now;
  expires_at = now + s.ttl;
  decided_by = none;
  decided_by_role = none;
  decision_reason = none;
  decided_at = none;
}

request_block : ApprovalService → ApprovalRecord → Exec Db ApprovalRecord
request_block s record' db = elim (get_approval record'.approval_id db) [
  | some existing ↦ (ok existing, db)
  | none ↦ create_approval s.codec record' db
]

-- `request`
unfoldable pub request_approval :
    ApprovalService → DecisionTrace → String → ℕ → Exec Db ApprovalRecord
unfolding request_block
request_approval s d requested_by now = do
  raise_if (not_executable d.recommendation.selected_action) approval_error
      "selected decision does not contain an executable action"
  session (request_block s (requested_record s d requested_by now))

-- `except PersistenceConflictError as exc: raise ApprovalError(…) from exc`
abbrev pub as_approval_error : {A : Type 0} → Result A → Result A
as_approval_error (ok a) = ok a
as_approval_error (err persistence_conflict_error text) =
    err approval_error "approval is no longer pending"
as_approval_error (err k text) = err k text

abbrev pub write_pending : ApprovalRecord → Exec Db ApprovalRecord
write_pending r db = let (result, db') = update_if_pending r db in (as_approval_error result, db')

-- `actor_role in {AUDITOR, SERVICE_IDENTITY}`
abbrev pub may_not_decide : UserRole → Bool
may_not_decide UserRole.auditor = true
may_not_decide UserRole.service_identity = true
may_not_decide _ = false

abbrev pub expired_record : ApprovalRecord → ApprovalRecord
expired_record r = record r { status = ApprovalStatus.expired }

abbrev pub decided_record :
    ApprovalStatus → ApprovalDecisionInput → ℕ → ApprovalRecord → ApprovalRecord
decided_record target input now r = record r {
  status = target;
  decided_by = some input.actor_id;
  decided_by_role = some input.actor_role;
  decision_reason = some input.reason;
  decided_at = some now;
}

-- The session of `_decide`: whether the approval has expired, and the record written.
unfoldable pub decide_block :
    ApprovalStatus → String → ApprovalDecisionInput → ℕ → Exec Db (Bool × ApprovalRecord)
decide_block target approval_id input now = do
  found ← gets (get_approval approval_id)
  r ←
      or_raise found record_not_found_error
        (concat ("approval '" ∷ approval_id ∷ "' not found" ∷ []))
  raise_if (not (is_pending r)) approval_error "approval is no longer pending"
  lift (assert_separation_of_duties r.requested_by input.actor_id)
  if ltb r.expires_at now
      then (do e ← write_pending (expired_record r); pure (true, e))
      else (do d ← write_pending (decided_record target input now r); pure (false, d))

-- What follows the session: an expiry is committed and then raised.
abbrev after_decision : Bool × ApprovalRecord → Exec Db ApprovalRecord
after_decision (expired, r) =
    if expired then raise approval_error "approval has expired" else pure r

-- `_decide`
unfoldable pub decide :
    ApprovalService → ApprovalStatus → String → ApprovalDecisionInput → ℕ → Exec Db ApprovalRecord
unfolding decide_block
decide s target approval_id input now = do
  raise_if (may_not_decide input.actor_role) approval_error
      "actor role is not authorised to decide approvals"
  lift (bind_claimed_role s.strict input.actor_id input.actor_role)
  outcome ← session (decide_block target approval_id input now)
  after_decision outcome

-- `approve` and `reject`
unfoldable pub approve :
    ApprovalService → String → ApprovalDecisionInput → ℕ → Exec Db ApprovalRecord
approve s = decide s ApprovalStatus.approved

unfoldable pub reject :
    ApprovalService → String → ApprovalDecisionInput → ℕ → Exec Db ApprovalRecord
reject s = decide s ApprovalStatus.rejected
