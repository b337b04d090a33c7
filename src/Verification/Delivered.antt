-- ===== src/Verification/Delivered.antt =====
-- `verify` of src/promiseguard/verification.py on an observed delivery.
use promiseguard_ai.Prelude.{
  ℕ, ◌≡◌, ◌⊎◌, refl, ap, true, false, none, some, [], ◌∷◌, ◌++◌, arith, is_some, find, Option-cases,
  inl, inr,
}
use promiseguard_ai.Prelude.Text.{str_eq, str_eq_refl}
use promiseguard_ai.Prelude.Exec.{ok}
use promiseguard_ai.Models.{
  ActionExecution, DecisionTrace, DeliveryObservation, OrderContext, OutcomeVerification,
  RecoveryAction, RecoveryOption, VerificationStatus,
}
use promiseguard_ai.Codec.{hashed_id}
use promiseguard_ai.Database.{Db, OutcomeRow}
use promiseguard_ai.Persistence.Outcomes.{record_outcome, outcome_by_decision, outcome_row}
use promiseguard_ai.Autonomy.{is_compensated, find_profile}
use promiseguard_ai.Autonomy.Frame.{record_outcome-returns}
use promiseguard_ai.Sandbox.{
  SandboxState, hydrate_from_durable_action, record_delivery_outcome, dict_get, dict_set,
  dict_get-dict_set, is_done,
}
use promiseguard_ai.Execution.{World}
use promiseguard_ai.Verification.{
  OutcomeVerificationService, verify, persist, observe, record_delivery_observation, outcome_of,
  option_of, realised_margin,
}
use promiseguard_ai.Verification.Hydrate.{
  can_hold, hydrate_from_durable_action-holds, hydrate_from_durable_action-keeps,
}
use promiseguard_ai.Verification.Status.{checked}

-- A row of an action's profile can be read, where there are controls.
abbrev pub Answers : OutcomeVerificationService → RecoveryAction → Db → Type 0
Answers v action db = (v.governed ≡ false) ⊎ (is_some (find_profile action db) ≡ true)

persist-returns :
    (v : OutcomeVerificationService) (action : RecoveryAction) (o : OutcomeVerification) (now : ℕ)
    (w : World)
    → outcome_by_decision o.decision_id w.db ≡ none
    → find (λ (r : OutcomeRow). str_eq r.outcome.outcome_id o.outcome_id) w.db.outcomes ≡ none
    → Answers v action w.db
    → (persist v action o now w).0 ≡ ok o
unfolding persist record_outcome outcome_by_decision find_profile
persist-returns v action o now w fresh no_id answers =
    let inserted : Db = record w.db { outcomes = w.db.outcomes ++ outcome_row v.codec o ∷ [] } in
    let stores : record_outcome v.codec o w.db ≡ (ok o, inserted) = ground arith in
    elim answers [
      | inl free ↦ ground arith
      | inr known ↦ elim (Option-cases (find_profile action w.db)) [
        | inl missing ↦ absurd (ground arith)
        | inr (row, found) ↦
            let (p, recorded) = record_outcome-returns o action now inserted found in ground arith
      ]
    ]

observe_own :
    (order : OrderContext) (observation : DeliveryObservation) (s : SandboxState)
    → observation.order_id ≡ order.order_id
    → observe order (some observation) s ≡ (
      ok tt,
      record s {
        delivery_outcomes =
            dict_set order.order_id observation.delivered_on_time s.delivery_outcomes;
      },
    )
unfolding observe record_delivery_observation record_delivery_outcome
observe_own order observation s own = rw own (ground (arith, str_eq_refl order.order_id))

delivered_of :
    (order : OrderContext) (observation : DeliveryObservation) (execution : ActionExecution)
    (s : SandboxState)
    → observation.order_id ≡ order.order_id
    → dict_get order.order_id
        (hydrate_from_durable_action order execution
          (observe order (some observation) s).1).delivery_outcomes
      ≡ some observation.delivered_on_time
delivered_of order observation execution s own =
    rw
      (
        hydrate_from_durable_action-keeps order execution (observe order (some observation) s).1,
        observe_own order observation s own,
      )
      (dict_get-dict_set order.order_id observation.delivered_on_time s.delivery_outcomes)

module _ (v : OutcomeVerificationService) (decision : DecisionTrace) (execution : ActionExecution)
    (order : OrderContext) (observation : DeliveryObservation) (verified_at now : ℕ) (w : World)
    {selected : RecoveryOption} (own : observation.order_id ≡ order.order_id)
    (found : option_of execution.command.action decision ≡ some selected)
    (fresh : outcome_by_decision decision.decision_id w.db ≡ none)
    (no_id : find
        (λ (r : OutcomeRow).
          str_eq r.outcome.outcome_id (hashed_id v.codec "out_" decision.decision_id 24))
        w.db.outcomes
      ≡ none)
    (answers : Answers v execution.command.action w.db) (done : is_done execution.status ≡ true)
    (can : can_hold order execution.command.action ≡ true) where
  -- A verification of a finished execution with an observation of its order's delivery
  -- returns a verified outcome with that delivery and its realised margin, where the decision
  -- ranks the action, the postcondition can hold, the outcome is new, and the profile of the
  -- action can be read if there are autonomy controls.
  pub verify_delivered :
      (o : OutcomeVerification) × ((verify v decision execution order
          (some observation)
          verified_at
          now
          w).0
        ≡ ok o)
      × (o.status ≡ VerificationStatus.verified)
      × (o.on_time_delivery_observed ≡ some observation.delivered_on_time)
      × (o.realised_gross_margin
          ≡ realised_margin order execution.command.expected_intervention_cost
              (some observation.delivered_on_time))
  unfolding verify outcome_of
  verify_delivered =
      let seen = observe_own order observation w.sandbox own in
      let s = checked v decision execution order (some observation) verified_at now w in
      let o =
        outcome_of v.codec decision execution order (some observation) verified_at selected s in
      let stored =
        persist-returns v execution.command.action o now (record w { sandbox = s }) fresh no_id
          answers in
      let delivered : dict_get order.order_id s.delivery_outcomes
          ≡ some observation.delivered_on_time =
        delivered_of order observation execution w.sandbox own in
      let holds =
        hydrate_from_durable_action-holds order execution
          (observe order (some observation) w.sandbox).1 done can in
      let not_undone : is_compensated execution.status ≡ false = ground arith in
      (
        o,
        ground arith,
        rw (not_undone, holds, delivered) refl,
        delivered,
        ap (realised_margin order execution.command.expected_intervention_cost) delivered,
      )
