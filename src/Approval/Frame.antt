-- ===== src/Approval/Frame.antt =====
-- The tables that the calls of src/promiseguard/approval.py leave alone.
use promiseguard_ai.Prelude.{
  ℕ, ◌≡◌, ◌∙◌, List, [], ◌∷◌, ◌++◌, arith, find, update_where, ◌&&◌, Option-cases, Bool-cases, inl,
  inr,
}
use promiseguard_ai.Prelude.Text.{String}
use promiseguard_ai.Models.{ApprovalDecisionInput, ApprovalRecord, ApprovalStatus, DecisionTrace}
use promiseguard_ai.Database.{Db}
use promiseguard_ai.Persistence.Approvals.{
  create_approval, decided_as, get_approval, has_approval_id, is_pending, update_if_pending,
}
use promiseguard_ai.Approval.{
  ApprovalService, decide, not_executable, request_approval, request_block, requested_record,
}
use promiseguard_ai.Approval.Decided.{decide-Writes}

-- A database that differs at most in the approvals.
abbrev pub Same : Db → Db → Type 0
Same a b = (approvals : List ApprovalRecord) × (a ≡ record b { approvals = approvals })

update_if_pending-Same : (r : ApprovalRecord) (db : Db) → Same (update_if_pending r db).1 db
unfolding update_if_pending
update_if_pending-Same r db =
    let open_row = λ (row : ApprovalRecord). has_approval_id r.approval_id row && is_pending row in
    elim (Option-cases (find open_row db.approvals)) [
      | inl missing ↦ elim (Option-cases (find (has_approval_id r.approval_id) db.approvals)) [
        | inl unknown ↦ (db.approvals, ground arith)
        | inr (x, closed) ↦ (db.approvals, ground arith)
      ]
      | inr (x, found) ↦ (update_where open_row (decided_as r) db.approvals, ground arith)
    ]

pub decide-Same :
    (s : ApprovalService) (target : ApprovalStatus) (i : String) (input : ApprovalDecisionInput)
    (now : ℕ) (db : Db)
    → Same (decide s target i input now db).1 db
decide-Same s target i input now db = elim (decide-Writes s target i input now db) [
  | inl same ↦ (db.approvals, same)
  | inr (r, wrote) ↦ let (approvals, e) = update_if_pending-Same r db in (approvals, wrote ∙ e)
]

pub request_approval-Same :
    (s : ApprovalService) (d : DecisionTrace) (who : String) (now : ℕ) (db : Db)
    → Same (request_approval s d who now db).1 db
unfolding request_approval request_block create_approval
request_approval-Same s d who now db =
    let r = requested_record s d who now in
    elim (Bool-cases (not_executable d.recommendation.selected_action)) [
      | inl refused ↦ (db.approvals, ground arith)
      | inr executable ↦ elim (Option-cases (get_approval r.approval_id db)) [
        | inr (x, known) ↦ (db.approvals, ground arith)
        | inl fresh ↦ elim (Option-cases (find (has_approval_id r.approval_id) db.approvals)) [
          | inl unknown ↦ (db.approvals ++ r ∷ [], ground arith)
          | inr (x, closed) ↦ (db.approvals, ground arith)
        ]
      ]
    ]
