-- ===== src/Approval/Closed.antt =====
-- Histories of calls on the service of src/promiseguard/approval.py, and repeated requests.
use promiseguard_ai.Prelude.{ℕ, ◌≡◌, false, some, List, [], ◌∷◌, arith, find-append, inl, inr}
use promiseguard_ai.Prelude.Text.{String, str_eq_refl}
use promiseguard_ai.Prelude.Exec.{ok}
use promiseguard_ai.Models.{ApprovalStatus, ApprovalRecord, ApprovalDecisionInput, DecisionTrace}
use promiseguard_ai.Database.{Db}
use promiseguard_ai.Persistence.Approvals.{
  get_approval, create_approval, is_pending, has_approval_id,
}
use promiseguard_ai.Approval.{
  ApprovalService, request_approval, request_block, approve, reject, decide, requested_record,
}
use promiseguard_ai.Approval.Decided.{decide-Writes, get-update_if_pending}

-- A call of the service's interface, with its arguments and the time.
pub data ApprovalCall : Type 0 where
  request_call : DecisionTrace → String → ℕ → ApprovalCall
  approve_call reject_call : String → ApprovalDecisionInput → ℕ → ApprovalCall

module _ (s : ApprovalService) where
  -- What a call leaves behind, whether it returns or raises.
  abbrev pub after_call : ApprovalCall → Db → Db
  after_call (request_call d who now) db = (request_approval s d who now db).1
  after_call (approve_call i input now) db = (approve s i input now db).1
  after_call (reject_call i input now) db = (reject s i input now db).1

  abbrev pub after_calls : List ApprovalCall → Db → Db
  after_calls [] db = db
  after_calls (call ∷ calls) db = after_calls calls (after_call call db)

  pub decide-keeps :
      (target : ApprovalStatus) (i j : String) (input : ApprovalDecisionInput) (now : ℕ) (db : Db)
      {r : ApprovalRecord}
      → get_approval j db ≡ some r
      → is_pending r ≡ false
      → get_approval j (decide s target i input now db).1 ≡ some r
  decide-keeps target i j input now db {r} found over =
      elim (decide-Writes s target i input now db) [
        | inl same ↦ rw same found
        | inr (x, wrote) ↦ rw wrote (ground (arith, get-update_if_pending x j db))
      ]

  create_approval-keeps :
      (x : ApprovalRecord) (j : String) (db : Db) {r : ApprovalRecord}
      → get_approval j db ≡ some r
      → get_approval j (create_approval s.codec x db).1 ≡ some r
  unfolding create_approval get_approval
  create_approval-keeps x j db {r} found =
      ground (arith, find-append (has_approval_id j) db.approvals x)

  pub request-keeps :
      (d : DecisionTrace) (who : String) (now : ℕ) (j : String) (db : Db) {r : ApprovalRecord}
      → get_approval j db ≡ some r
      → get_approval j (request_approval s d who now db).1 ≡ some r
  unfolding request_approval request_block
  request-keeps d who now j db {r} found =
      ground (arith, create_approval-keeps (requested_record s d who now) j db found)

  after_call-keeps :
      (call : ApprovalCall) (j : String) (db : Db) {r : ApprovalRecord}
      → get_approval j db ≡ some r
      → is_pending r ≡ false
      → get_approval j (after_call call db) ≡ some r
  unfolding approve reject
  after_call-keeps (request_call d who now) j db found over = request-keeps d who now j db found
  after_call-keeps (approve_call i input now) j db found over =
      decide-keeps ApprovalStatus.approved i j input now db found over
  after_call-keeps (reject_call i input now) j db found over =
      decide-keeps ApprovalStatus.rejected i j input now db found over

  -- An approval that is stored and no longer pending stays as it is under any sequence of
  -- requests, approvals and rejections.
  pub closed_stays :
      (calls : List ApprovalCall) (j : String) (db : Db) {r : ApprovalRecord}
      → get_approval j db ≡ some r
      → is_pending r ≡ false
      → get_approval j (after_calls calls db) ≡ some r
  closed_stays [] j db found over = found
  closed_stays (call ∷ calls) j db found over =
      closed_stays calls j (after_call call db) (after_call-keeps call j db found over) over

-- A request for approval that returned, repeated by anyone at any time for the same decision,
-- returns the same record and changes nothing.
pub request_again :
    (s : ApprovalService) (d : DecisionTrace) (who who' : String) (now now' : ℕ) (db : Db)
    {r : ApprovalRecord}
    → (request_approval s d who now db).0 ≡ ok r
    → request_approval s d who' now' (request_approval s d who now db).1
      ≡ (ok r, (request_approval s d who now db).1)
unfolding request_approval request_block create_approval get_approval
request_again s d who who' now now' db {r} h =
    let i = (requested_record s d who now).approval_id in
    ground (
      arith,
      find-append (has_approval_id i) db.approvals (requested_record s d who now),
      str_eq_refl i,
    )
