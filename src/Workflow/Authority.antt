-- ===== src/Workflow/Authority.antt =====
-- What authorises the commands that src/promiseguard/workflow.py has executed.
use mathlib.Core.Path.{subst}
use promiseguard_ai.Prelude.{
  ◌≡◌, ◌≢◌, ◌⊎◌, refl, sym, ◌∙◌, ap, true, false, some, List, [], ◌∷◌, arith, All, find, find_holds,
  find-All, Option-cases, inl, inr,
}
use promiseguard_ai.Prelude.Text.{String, str_eq, eq_iff}
use promiseguard_ai.Models.{
  ActionCommand, ApprovalRecord, ApprovalStatus, DecisionTrace, PolicyDisposition, RecoveryAction,
  is_action,
}
use promiseguard_ai.Database.{ActionRow, Db, DecisionRow}
use promiseguard_ai.Persistence.{get_decision}
use promiseguard_ai.Persistence.Approvals.{has_approval_id, get_approval, is_pending}
use promiseguard_ai.Workflow.Frame.{Framed}

-- A stored approval that is approved, of this decision and action, by the actor that the command
-- names and who did not request it.
pub record IsApproved (db : Db) (command : ActionCommand) : Type 0 where
  pub approval_id : String
  pub approval : ApprovalRecord
  pub actor : String
  pub stored : get_approval approval_id db ≡ some approval
  pub approved : approval.status ≡ ApprovalStatus.approved
  pub of_decision : approval.decision_id ≡ command.decision_id
  pub of_action : approval.requested_action ≡ command.action
  pub by_actor : approval.decided_by ≡ some actor
  pub by_other : approval.requested_by ≢ actor
  pub named : command.approved_by ≡ some actor

-- The decision of a command is stored and selected its action, and is AUTO_EXECUTE or approved.
pub record IsAuthorised (db : Db) (command : ActionCommand) : Type 0 where
  pub decision : DecisionTrace
  pub decided : get_decision command.decision_id db ≡ some decision
  pub selected : decision.recommendation.selected_action ≡ command.action
  pub by : (decision.policy.disposition ≡ PolicyDisposition.auto_execute) ⊎ IsApproved db command

-- Each decision is filed under its own identifier, and each action is authorised.
pub record IsSound (db : Db) : Type 0 where
  pub filed : All (λ (r : DecisionRow). r.trace.decision_id ≡ r.decision_id) db.decisions
  pub authorised : All (λ (r : ActionRow). IsAuthorised db r.command) db.actions

All-map :
    {R : Type 0} (P Q : R → Type 0) (rows : List R)
    → ((r : R) → P r → Q r)
    → All P rows
    → All Q rows
All-map P Q [] f all = tt
All-map P Q (r ∷ rows) f all = (f r all.0, All-map P Q rows f all.1)

pub get_decision_filed :
    (i : String) (db : Db) {d : DecisionTrace}
    → IsSound db
    → get_decision i db ≡ some d
    → d.decision_id ≡ i
unfolding get_decision
get_decision_filed i db {d} h e =
    let named = λ (r : DecisionRow). str_eq r.decision_id i in
    elim (Option-cases (find named db.decisions)) [
      | inl missing ↦ absurd (ground arith)
      | inr (row, found) ↦
          let own =
            find-All (λ (r : DecisionRow). r.trace.decision_id ≡ r.decision_id) named db.decisions
              h.filed found in
          let same = (eq_iff row.decision_id i).0 (find_holds named db.decisions found) in
          let trace : row.trace ≡ d = ground arith in
          ap (λ (t : DecisionTrace). t.decision_id) (sym trace) ∙ own ∙ same
    ]

pub is_action→≡ : (a b : RecoveryAction) → is_action a b ≡ true → a ≡ b
is_action→≡ a b h = ground arith

module _ (a b : Db)
    (decisions_stay : (i : String) (d : DecisionTrace)
      → get_decision i a ≡ some d
      → get_decision i b ≡ some d)
    (approvals_stay : (i : String) (x : ApprovalRecord)
      → get_approval i a ≡ some x
      → is_pending x ≡ false
      → get_approval i b ≡ some x) where
  pub IsAuthorised-stays :
      (command : ActionCommand) → IsAuthorised a command → IsAuthorised b command
  IsAuthorised-stays command h = record {
    decision = h.decision;
    decided = decisions_stay command.decision_id h.decision h.decided;
    selected = h.selected;
    by = elim h.by [
      | inl auto ↦ inl auto
      | inr p ↦ inr (record {
        approval_id = p.approval_id;
        approval = p.approval;
        actor = p.actor;
        stored = approvals_stay p.approval_id p.approval p.stored (rw p.approved refl);
        approved = p.approved;
        of_decision = p.of_decision;
        of_action = p.of_action;
        by_actor = p.by_actor;
        by_other = p.by_other;
        named = p.named;
      })
    ];
  }

  pub IsSound-stays :
      b.actions ≡ a.actions
      → All (λ (r : DecisionRow). r.trace.decision_id ≡ r.decision_id) b.decisions
      → IsSound a
      → IsSound b
  IsSound-stays same filed h = record {
    filed = filed;
    authorised = subst (All (λ (r : ActionRow). IsAuthorised b r.command)) (sym same) (
        All-map (λ (r : ActionRow). IsAuthorised a r.command)
          (λ (r : ActionRow). IsAuthorised b r.command) a.actions
          (λ r. IsAuthorised-stays r.command) h.authorised);
  }

pub get_decision-same :
    (i : String) (a b : Db) → b.decisions ≡ a.decisions → get_decision i b ≡ get_decision i a
unfolding get_decision
get_decision-same i a b same = ground (arith, same)

pub get_approval-same :
    (i : String) (a b : Db) → b.approvals ≡ a.approvals → get_approval i b ≡ get_approval i a
unfolding get_approval
get_approval-same i a b same = ap (find (has_approval_id i)) same

-- What is sound stays so where only authorised commands are added.
pub Framed-IsSound :
    (a b : Db) → Framed (IsAuthorised a) a.decisions a.approvals b → IsSound a → IsSound b
Framed-IsSound a b f h =
    let decisions_stay : (i : String) (d : DecisionTrace)
        → get_decision i a ≡ some d
        → get_decision i b ≡ some d =
      λ i d e. get_decision-same i a b f.decisions ∙ e in
    let approvals_stay : (i : String) (x : ApprovalRecord)
        → get_approval i a ≡ some x
        → is_pending x ≡ false
        → get_approval i b ≡ some x =
      λ i x e over. get_approval-same i a b f.approvals ∙ e in
    record {
      filed =
          subst (All (λ (r : DecisionRow). r.trace.decision_id ≡ r.decision_id)) (sym f.decisions)
            h.filed;
      authorised =
          All-map (λ (r : ActionRow). IsAuthorised a r.command)
            (λ (r : ActionRow). IsAuthorised b r.command) b.actions
            (λ r. IsAuthorised-stays a b decisions_stay approvals_stay r.command) f.actions;
    }

pub unchanged : (a : Db) → IsSound a → Framed (IsAuthorised a) a.decisions a.approvals a
unchanged a h = record { decisions = refl; approvals = refl; actions = h.authorised }
