-- ===== src/Verification/Status.antt =====
-- The outcomes that `verify` of src/promiseguard/verification.py records.
use promiseguard_ai.Prelude.{
  ℕ, ◌≡◌, ◌≢◌, ◌↔◌, ◌⊎◌, refl, sym, ◌∙◌, ap, Bool, true, false, Option, none, some, arith, is_some,
  find-append, Option-cases, Bool-cases, inl, inr,
}
use promiseguard_ai.Prelude.Text.{String, str_eq_refl}
use promiseguard_ai.Prelude.Exec.{ok, Exec-cases}
use promiseguard_ai.Models.{
  ActionExecution, DecisionTrace, DeliveryObservation, OrderContext, OutcomeVerification,
  RecoveryAction, RecoveryOption, VerificationStatus,
}
use promiseguard_ai.Codec.{Codec}
use promiseguard_ai.Database.{Db}
use promiseguard_ai.Persistence.Outcomes.{
  record_outcome, outcome_by_decision, of_decision, outcome_row,
}
use promiseguard_ai.Autonomy as Autonomy
use promiseguard_ai.Autonomy.{is_compensated, find_profile}
use promiseguard_ai.Autonomy.Frame.{Same, record_outcome-Same}
use promiseguard_ai.Sandbox.{
  SandboxState, action_postcondition_holds, hydrate_from_durable_action, dict_get, is_done,
}
use promiseguard_ai.Execution.{World}
use promiseguard_ai.Verification.{
  OutcomeVerificationService, verify, persist, observe, outcome_of, option_of, status_of,
}
use promiseguard_ai.Verification.Hydrate.{can_hold, hydrate_from_durable_action-holds}

record_outcome_fresh :
    (c : Codec) (o : OutcomeVerification) (db : Db) {x : OutcomeVerification} {db' : Db}
    → outcome_by_decision o.decision_id db ≡ none
    → record_outcome c o db ≡ (ok x, db')
    → (x ≡ o) × (outcome_by_decision o.decision_id db' ≡ some o)
unfolding record_outcome outcome_by_decision
record_outcome_fresh c o db {x} {db'} fresh h =
    let appended = find-append (of_decision o.decision_id) db.outcomes (outcome_row c o) in
    let own = str_eq_refl o.decision_id in (ground arith, ground (arith, appended, own))

outcome_by_decision-Same :
    (decision_id : String) (a b : Db)
    → Same a b
    → outcome_by_decision decision_id a ≡ outcome_by_decision decision_id b
unfolding outcome_by_decision
outcome_by_decision-Same decision_id a b (ps, es, e) = rw e refl

module _ (v : OutcomeVerificationService) (action : RecoveryAction) (o : OutcomeVerification)
    (now : ℕ) (w : World) where
  persist-stores :
      {x : OutcomeVerification} {w' : World}
      → outcome_by_decision o.decision_id w.db ≡ none
      → persist v action o now w ≡ (ok x, w')
      → (x ≡ o) × (outcome_by_decision o.decision_id w'.db ≡ some o) × (w'.sandbox ≡ w.sandbox)
  unfolding persist
  persist-stores {x} {w'} fresh h = elim (Exec-cases (record_outcome v.codec o w.db)) [
    | inr (k, t, db1, raised) ↦ absurd (ground arith)
    | inl (y, db1, returned) ↦
        let (is_o, stored) = record_outcome_fresh v.codec o w.db fresh returned in
        elim (Bool-cases v.governed) [
          | inr free ↦ (ground arith, ground arith, ground arith)
          | inl governed ↦
              let kept =
                outcome_by_decision-Same o.decision_id _ db1
                  (record_outcome-Same y action now db1) in
              elim (Exec-cases (Autonomy.record_outcome y action now db1)) [
                | inr (k, t, db2, raised) ↦ absurd (ground arith)
                | inl (profile, db2, recorded) ↦ (ground arith, ground arith, ground arith)
              ]
        ]
  ]

status_of-means :
    (compensated holds : Bool) (delivered : Option Bool)
    → ((status_of compensated holds delivered ≡ VerificationStatus.verified)
        ↔ ((compensated ≡ false) × (holds ≡ true) × (is_some delivered ≡ true)))
      × ((status_of compensated holds delivered ≡ VerificationStatus.failed)
          ↔ ((compensated ≡ true) ⊎ (holds ≡ false)))
status_of-means compensated holds delivered =
    ((ground arith, ground arith), (ground arith, ground arith))

module _ (v : OutcomeVerificationService) (decision : DecisionTrace) (execution : ActionExecution)
    (order : OrderContext) (observation : Option DeliveryObservation) (verified_at now : ℕ)
    (w : World) where
  -- The systems of record that the check reads.
  abbrev pub checked : SandboxState
  checked = hydrate_from_durable_action order execution (observe order observation w.sandbox).1

  verify-persists :
      {o : OutcomeVerification} {w' : World}
      → verify v decision execution order observation verified_at now w ≡ (ok o, w')
      → (selected : RecoveryOption) × (option_of execution.command.action decision ≡ some selected)
        × (persist v execution.command.action
              (outcome_of v.codec decision execution order observation verified_at selected checked)
              now
              (record w { sandbox = checked })
            ≡ (ok o, w'))
  unfolding verify
  verify-persists h = elim (Option-cases (option_of execution.command.action decision)) [
    | inl missing ↦ absurd (ground arith)
    | inr (selected, found) ↦ (selected, found, ground arith)
  ]

  -- For a decision without an outcome, a verification that returns stores its outcome; the
  -- outcome is verified exactly if the execution was not compensated, the action's
  -- postcondition holds in the systems of record and a delivery is recorded there, and failed
  -- exactly if the execution was compensated or the postcondition does not hold.
  pub verify_records :
      {o : OutcomeVerification} {w' : World}
      → outcome_by_decision decision.decision_id w.db ≡ none
      → verify v decision execution order observation verified_at now w ≡ (ok o, w')
      → (outcome_by_decision decision.decision_id w'.db ≡ some o)
        × ((o.status ≡ VerificationStatus.verified) ↔ (
            (is_compensated execution.status ≡ false)
            × (action_postcondition_holds order execution.command.action w'.sandbox ≡ true)
            × (is_some (dict_get order.order_id w'.sandbox.delivery_outcomes) ≡ true)))
        × ((o.status ≡ VerificationStatus.failed) ↔ (
            (is_compensated execution.status ≡ true)
            ⊎ (action_postcondition_holds order execution.command.action w'.sandbox ≡ false)))
  unfolding outcome_of
  verify_records {o} {w'} fresh h =
      let (selected, found, run) = verify-persists h in
      let (is_o, stored, kept) =
        persist-stores v execution.command.action
          (outcome_of v.codec decision execution order observation verified_at selected checked) now
          (record w { sandbox = checked }) fresh run in
      let status : o.status
          ≡ status_of (is_compensated execution.status)
              (action_postcondition_holds order execution.command.action w'.sandbox)
              (dict_get order.order_id w'.sandbox.delivery_outcomes) =
        rw kept (ap (λ x. x.status) is_o) in
      let (verified, failed) =
        status_of-means (is_compensated execution.status)
          (action_postcondition_holds order execution.command.action w'.sandbox)
          (dict_get order.order_id w'.sandbox.delivery_outcomes) in
      (stored ∙ ap some (sym is_o), rw status verified, rw status failed)

  -- For a decision without an outcome and an execution that has succeeded, of a carrier
  -- upgrade, a split, no action, or a reroute of an order with an alternative location, a
  -- verification that returns never has the status failed, whatever the systems of record
  -- were before.
  pub verify_never_failed :
      {o : OutcomeVerification} {w' : World}
      → outcome_by_decision decision.decision_id w.db ≡ none
      → is_done execution.status ≡ true
      → can_hold order execution.command.action ≡ true
      → verify v decision execution order observation verified_at now w ≡ (ok o, w')
      → o.status ≢ VerificationStatus.failed
  unfolding outcome_of
  verify_never_failed {o} {w'} fresh done can h failed =
      let (stored, verified, when_failed) = verify_records fresh h in
      let (selected, found, run) = verify-persists h in
      let (is_o, again, kept) =
        persist-stores v execution.command.action
          (outcome_of v.codec decision execution order observation verified_at selected checked) now
          (record w { sandbox = checked }) fresh run in
      let holds =
        hydrate_from_durable_action-holds order execution (observe order observation w.sandbox).1
          done can in
      elim (when_failed.0 failed) [ inl undone ↦ ground arith | inr broken ↦ ground arith ]
