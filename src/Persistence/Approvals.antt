-- ===== src/Persistence/Approvals.antt =====
-- `ApprovalRepository` of src/promiseguard/persistence.py. A row has the fields of the record.
use promiseguard_ai.Prelude.{
  Bool, ◌&&◌, Option, none, some, [], ◌∷◌, ◌++◌, find, update_where, if◌then◌else◌,
}
use promiseguard_ai.Prelude.Text.{String, str_eq, concat}
use promiseguard_ai.Prelude.Exec.{ok, err, Exec, persistence_conflict_error, record_not_found_error}
use promiseguard_ai.Models.{ApprovalRecord, ApprovalStatus, is_approval_status}
use promiseguard_ai.Codec.{Codec, canonical_fingerprint}
use promiseguard_ai.Database.{Db}
use promiseguard_ai.Persistence.{newest}

abbrev pub has_approval_id : String → ApprovalRecord → Bool
has_approval_id approval_id r = str_eq r.approval_id approval_id

abbrev pub is_pending : ApprovalRecord → Bool
is_pending r = is_approval_status r.status ApprovalStatus.pending

unfoldable pub get_approval : String → Db → Option ApprovalRecord
get_approval approval_id db = find (has_approval_id approval_id) db.approvals

-- `get_by_decision`: the one requested last
unfoldable pub approval_by_decision : String → Db → Option ApprovalRecord
approval_by_decision decision_id db =
    newest (λ (r : ApprovalRecord). str_eq r.decision_id decision_id) (λ r. r.requested_at)
      db.approvals

-- `create`
unfoldable pub create_approval : Codec → ApprovalRecord → Exec Db ApprovalRecord
create_approval c r db = elim (find (has_approval_id r.approval_id) db.approvals) [
  | some old ↦
      if str_eq (canonical_fingerprint c (c.approval_json old))
        (canonical_fingerprint c (c.approval_json r))
      then (ok old, db)
      else (err persistence_conflict_error "approval identity conflicts with existing record", db)
  | none ↦ (ok r, record db { approvals = db.approvals ++ r ∷ [] })
]

-- The columns that a decision writes.
abbrev pub decided_as : ApprovalRecord → ApprovalRecord → ApprovalRecord
decided_as r row = record row {
  status = r.status;
  decided_by = r.decided_by;
  decided_by_role = r.decided_by_role;
  decision_reason = r.decision_reason;
  decided_at = r.decided_at;
}

-- `update_if_pending`: one UPDATE whose WHERE tests the status too
unfoldable pub update_if_pending : ApprovalRecord → Exec Db ApprovalRecord
update_if_pending r db =
    let open_row = λ (row : ApprovalRecord). has_approval_id r.approval_id row && is_pending row in
    elim (find open_row db.approvals) [
      | some _ ↦ (ok r, record db { approvals = update_where open_row (decided_as r) db.approvals })
      | none ↦ elim (find (has_approval_id r.approval_id) db.approvals) [
        | none ↦ (
          err record_not_found_error (concat ("approval '" ∷ r.approval_id ∷ "' not found" ∷ [])),
          db,
        )
        | some _ ↦ (err persistence_conflict_error "approval is no longer pending", db)
      ]
    ]
