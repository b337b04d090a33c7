-- ===== src/Approval/Decided.antt =====
-- `_decide` of src/promiseguard/approval.py: what a decision needs and what it writes.
use mathlib.Core.Path.{subst}
use promiseguard_ai.Prelude.{
  ℕ, ◌≤◌, ◌<◌, ◌≡◌, ◌≢◌, ◌⊎◌, refl, Bool, true, false, ◌&&◌, some, arith, find, find_holds,
  find-and, sym, ◌∙◌, find-update_where, map_option, update_where-none, Option-cases, Bool-cases,
  ltb, inl, inr, if◌then◌else◌,
}
use promiseguard_ai.Prelude.Text.{String, str_eq, eq_iff}
use promiseguard_ai.Prelude.Exec.{ok, err, approval_error, Exec-cases, Result-cases}
use promiseguard_ai.Models.{ApprovalStatus, ApprovalRecord, ApprovalDecisionInput, UserRole}
use promiseguard_ai.Database.{Db}
use promiseguard_ai.Identity.{bind_claimed_role, assert_separation_of_duties}
use promiseguard_ai.Persistence.Approvals.{
  get_approval, update_if_pending, is_pending, has_approval_id, decided_as,
}
use promiseguard_ai.Identity.Binding.{separation}
use promiseguard_ai.Approval.{
  ApprovalService, decide, decide_block, decided_record, expired_record, may_not_decide,
}

-- A lookup after the UPDATE: a pending row of that identifier takes the new columns.
pub get-update_if_pending :
    (r : ApprovalRecord) (j : String) (db : Db)
    → get_approval j (update_if_pending r db).1
      ≡ map_option
          (λ x. if has_approval_id r.approval_id x && is_pending x then decided_as r x else x)
          (get_approval j db)
unfolding update_if_pending get_approval
get-update_if_pending r j db =
    let q = λ (x : ApprovalRecord). has_approval_id r.approval_id x && is_pending x in
    let moved = find-update_where (has_approval_id j) q (decided_as r) db.approvals (λ x. refl) in
    elim (Option-cases (find q db.approvals)) [
      | inl nobody ↦ ground (arith, moved, update_where-none q (decided_as r) db.approvals nobody)
      | inr (x, found) ↦ ground (arith, moved)
    ]

-- The record that the UPDATE returns is the one it was given.
update_if_pending_ok :
    (r : ApprovalRecord) (db : Db) {x : ApprovalRecord} → (update_if_pending r db).0 ≡ ok x → x ≡ r
unfolding update_if_pending
update_if_pending_ok r db h = ground arith

-- The UPDATE of the pending row that a lookup finds: the result, and the row after it.
pub update_if_pending_found :
    (i : String) (db : Db) (r x : ApprovalRecord)
    → get_approval i db ≡ some r
    → is_pending r ≡ true
    → x.approval_id ≡ r.approval_id
    → ((update_if_pending x db).0 ≡ ok x)
      × (get_approval i (update_if_pending x db).1 ≡ some (decided_as x r))
unfolding update_if_pending get_approval
update_if_pending_found i db r x found pending same =
    let named = (eq_iff r.approval_id i).0 (find_holds (has_approval_id i) db.approvals found) in
    let hit =
      subst (λ j. find (has_approval_id j) db.approvals ≡ some r) (sym (same ∙ named)) found in
    let seen = find-and (has_approval_id x.approval_id) is_pending db.approvals hit pending in
    let moved = get-update_if_pending x i db in
    let own = (eq_iff r.approval_id x.approval_id).1 (sym same) in
    (ground (arith, seen), ground (arith, moved, own))

-- What the block writes when it returns: one UPDATE of a pending row.
decide_block-Writes :
    (target : ApprovalStatus) (i : String) (input : ApprovalDecisionInput) (now : ℕ) (db : Db)
    {o : Bool × ApprovalRecord} {db' : Db}
    → decide_block target i input now db ≡ (ok o, db')
    → (r : ApprovalRecord) × (db' ≡ (update_if_pending r db).1)
unfolding decide_block
decide_block-Writes target i input now db {o} {db'} h = elim (Option-cases (get_approval i db)) [
  | inl nobody ↦ absurd (ground arith)
  | inr (r, found) ↦ elim (Bool-cases (ltb r.expires_at now)) [
    | inl late ↦ (expired_record r, ground arith)
    | inr timely ↦ (decided_record target input now r, ground arith)
  ]
]

-- A method that decides leaves the database as it was, or runs one UPDATE of a pending row.
pub decide-Writes :
    (s : ApprovalService) (target : ApprovalStatus) (i : String) (input : ApprovalDecisionInput)
    (now : ℕ) (db : Db)
    → ((decide s target i input now db).1 ≡ db)
      ⊎ ((r : ApprovalRecord) × ((decide s target i input now db).1 ≡ (update_if_pending r db).1))
unfolding decide
decide-Writes s target i input now db = elim (Bool-cases (may_not_decide input.actor_role)) [
  | inl barred ↦ inl (ground arith)
  | inr allowed ↦ elim (Result-cases (bind_claimed_role s.strict input.actor_id input.actor_role)) [
    | inr (k, t, unbound) ↦ inl (ground arith)
    | inl (role, bound) ↦ elim (Exec-cases (decide_block target i input now db)) [
      | inr (k, t, db1, raised) ↦ inl (ground arith)
      | inl (o, db1, returned) ↦
          let (r, wrote) = decide_block-Writes target i input now db returned in
          inr (r, ground arith)
    ]
  ]
]

-- A decision that returns is of a stored pending approval that has not expired, by an actor
-- other than the requester whose role may decide; the record it returns is the pending one with
-- the decision, and is what is stored afterwards.
pub decide_checks :
    (s : ApprovalService) (target : ApprovalStatus) (i : String) (input : ApprovalDecisionInput)
    (now : ℕ) (db : Db) {done : ApprovalRecord} {db' : Db}
    → decide s target i input now db ≡ (ok done, db')
    → (r : ApprovalRecord) × (get_approval i db ≡ some r)
      × (is_pending r ≡ true)
      × (may_not_decide input.actor_role ≡ false)
      × (r.requested_by ≢ input.actor_id)
      × (now ≤ r.expires_at)
      × (done ≡ decided_record target input now r)
      × (get_approval i db' ≡ some done)
unfolding decide decide_block
decide_checks s target i input now db {done} {db'} h = elim (Option-cases (get_approval i db)) [
  | inl nobody ↦ absurd (ground arith)
  | inr (r, found) ↦
      let apart = separation r.requested_by input.actor_id in
      let wrote = update_if_pending_found i db r (decided_record target input now r) found in
      (
        r,
        found,
        ground arith,
        ground arith,
        ground (arith, apart),
        ground arith,
        ground (arith, wrote),
        ground (arith, wrote),
      )
]

module _ (s : ApprovalService) (target : ApprovalStatus) (i : String)
    (input : ApprovalDecisionInput) (now : ℕ) (db : Db) {r : ApprovalRecord} {role : UserRole}
    (found : get_approval i db ≡ some r) (pending : is_pending r ≡ true)
    (may : may_not_decide input.actor_role ≡ false)
    (bound : bind_claimed_role s.strict input.actor_id input.actor_role ≡ ok role)
    (other : r.requested_by ≢ input.actor_id) where
  -- A decision of a stored pending approval, not after its expiry, by an actor other than the
  -- requester whose role may decide and is bound to it, returns the decided record and stores
  -- it.
  pub decide_timely :
      now ≤ r.expires_at
      → ((decide s target i input now db).0 ≡ ok (decided_record target input now r))
        × (get_approval i (decide s target i input now db).1
            ≡ some (decided_record target input now r))
  unfolding decide decide_block assert_separation_of_duties
  decide_timely timely =
      let apart = (λ (e : str_eq r.requested_by input.actor_id ≡ true).
        other ((eq_iff r.requested_by input.actor_id).0 e)) in
      let wrote =
        update_if_pending_found i db r (decided_record target input now r) found pending refl in
      (ground (arith, apart, wrote), ground (arith, apart, wrote))

  -- A decision of a stored pending approval after its expiry, by an actor other than the
  -- requester whose role may decide and is bound to it, raises an approval error, and the
  -- approval is stored as expired.
  pub decide_late :
      r.expires_at < now
      → ((decide s target i input now db).0 ≡ err approval_error "approval has expired")
        × (get_approval i (decide s target i input now db).1 ≡ some (expired_record r))
  unfolding decide decide_block assert_separation_of_duties
  decide_late late =
      let apart = (λ (e : str_eq r.requested_by input.actor_id ≡ true).
        other ((eq_iff r.requested_by input.actor_id).0 e)) in
      let ended = update_if_pending_found i db r (expired_record r) found pending refl in
      (ground (arith, apart, ended), ground (arith, apart, ended))
