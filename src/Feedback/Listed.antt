-- ===== src/Feedback/Listed.antt =====
-- What src/promiseguard/feedback.py lists of what it recorded.
use mathlib.Core.Path.{subst}
use promiseguard_ai.Prelude.{
  ℕ, ◌≡◌, refl, sym, ◌∙◌, ap, Bool, true, false, none, some, List, [], ◌∷◌, ◌++◌, arith, find,
  select, Option-cases, inl, inr, if◌then◌else◌,
}
use promiseguard_ai.Prelude.Text.{String, str_eq, str_eq_refl}
use promiseguard_ai.Prelude.Exec.{ok, Exec-cases, Result-cases}
use promiseguard_ai.Models.{OperatorFeedback, OperatorFeedbackInput}
use promiseguard_ai.Codec.{Codec}
use promiseguard_ai.Database.{Db}
use promiseguard_ai.Identity.{bind_claimed_role}
use promiseguard_ai.Persistence.{get_decision}
use promiseguard_ai.Feedback.{
  add_feedback, feedback_from, feedback_of, insert_by, list_for_decision, order_by, record_feedback,
}

module _ {R : Type 0} (key : R → ℕ) (p : R → Bool) where
  find-insert_by_other :
      (x : R) (xs : List R) → p x ≡ false → find p (insert_by key x xs) ≡ find p xs
  unfolding insert_by
  find-insert_by_other x [] h = ground arith
  find-insert_by_other x (y ∷ ys) h = ground (arith, find-insert_by_other x ys h)

  find-insert_by :
      (x : R) (xs : List R) → p x ≡ true → find p xs ≡ none → find p (insert_by key x xs) ≡ some x
  unfolding insert_by
  find-insert_by x [] h k = ground arith
  find-insert_by x (y ∷ ys) h k = ground (arith, find-insert_by x ys h)

  -- A row whose test no earlier row passes is found in the sorted rows.
  find-order_by :
      (xs : List R) (x : R)
      → find p xs ≡ none
      → p x ≡ true
      → find p (order_by key (xs ++ x ∷ [])) ≡ some x
  unfolding order_by
  find-order_by [] x h k = find-insert_by x [] k refl
  find-order_by (y ∷ ys) x h k =
      ground (arith, find-insert_by_other y (order_by key (ys ++ x ∷ [])), find-order_by ys x)

select-append :
    {R : Type 0} (p : R → Bool) (xs : List R) (x : R)
    → select p (xs ++ x ∷ []) ≡ (if p x then select p xs ++ x ∷ [] else select p xs)
select-append p [] x = ground arith
select-append p (y ∷ ys) x = ground (arith, select-append p ys x)

find-select-none :
    {R : Type 0} (p q : R → Bool) (xs : List R) → find p xs ≡ none → find p (select q xs) ≡ none
find-select-none p q [] h = refl
find-select-none p q (y ∷ ys) h = ground (arith, find-select-none p q ys)

add_feedback_listed :
    (f : OperatorFeedback) (db : Db) {x : OperatorFeedback} {db' : Db}
    → add_feedback f db ≡ (ok x, db')
    → (x ≡ f)
      × (find
            (λ (y : OperatorFeedback). str_eq y.feedback_id f.feedback_id)
            (feedback_of f.decision_id db')
          ≡ some f)
unfolding add_feedback feedback_of
add_feedback_listed f db {x} {db'} h =
    let named = λ (y : OperatorFeedback). str_eq y.feedback_id f.feedback_id in
    let own = λ (y : OperatorFeedback). str_eq y.decision_id f.decision_id in
    elim (Option-cases (find named db.feedback)) [
      | inr (old, clash) ↦ absurd (ground arith)
      | inl fresh ↦
          let rows : select own (db.feedback ++ f ∷ []) ≡ select own db.feedback ++ f ∷ [] =
            ground (arith, select-append own db.feedback f, str_eq_refl f.decision_id) in
          let table : db'.feedback ≡ db.feedback ++ f ∷ [] = ground arith in
          (
            ground arith,
            ap
                  (λ (fs : List OperatorFeedback).
                    find named (order_by (λ y. y.created_at) (select own fs)))
                  table
                ∙ ap (λ (fs : List OperatorFeedback). find named (order_by (λ y. y.created_at) fs))
                    rows
                ∙ find-order_by (λ (y : OperatorFeedback). y.created_at) named
                    (select own db.feedback) f (find-select-none named own db.feedback fresh)
                    (str_eq_refl f.feedback_id),
          )
    ]

add_feedback-keeps :
    (f : OperatorFeedback) (decision_id : String) (db : Db)
    → get_decision decision_id (add_feedback f db).1 ≡ get_decision decision_id db
unfolding add_feedback get_decision
add_feedback-keeps f decision_id db =
    elim (Option-cases
      (find (λ (y : OperatorFeedback). str_eq y.feedback_id f.feedback_id) db.feedback)) [
        | inr (old, clash) ↦ ground arith
        | inl fresh ↦ ground arith
      ]

-- Feedback that was recorded is made of the input, and the list of the decision's feedback
-- afterwards has it under its identifier.
pub record_feedback_listed :
    (c : Codec) (iso : ℕ → String) (strict : Bool) (decision_id : String)
    (payload : OperatorFeedbackInput) (now : ℕ) (db : Db) {f : OperatorFeedback} {db' : Db}
    → record_feedback c iso strict decision_id payload now db ≡ (ok f, db')
    → (f ≡ feedback_from c iso decision_id payload now)
      × ((listed : List OperatorFeedback) × (list_for_decision decision_id db' ≡ (ok listed, db'))
          × (find (λ (y : OperatorFeedback). str_eq y.feedback_id f.feedback_id) listed ≡ some f))
unfolding record_feedback list_for_decision
record_feedback_listed c iso strict decision_id payload now db {f} {db'} h =
    let g = feedback_from c iso decision_id payload now in
    elim (Option-cases (get_decision decision_id db)) [
      | inl unknown ↦ absurd (ground arith)
      | inr (d, known) ↦
          elim (Result-cases (bind_claimed_role strict payload.actor_id payload.actor_role)) [
            | inr (k, t, unbound) ↦ absurd (ground arith)
            | inl (role, bound) ↦ elim (Exec-cases (add_feedback g db)) [
              | inr (k, t, db1, raised) ↦ absurd (ground arith)
              | inl (y, db1, added) ↦
                  let (is_g, listed) = add_feedback_listed g db added in
                  let same_db : db1 ≡ db' = ground arith in
                  let same_f : y ≡ f = ground arith in
                  let still : get_decision decision_id db' ≡ some d =
                    subst (λ (q : Db). get_decision decision_id q ≡ some d)
                      (ap (λ p. p.1) added ∙ same_db)
                      (add_feedback-keeps g decision_id db ∙ known) in
                  let is_f : f ≡ g = sym same_f ∙ is_g in
                  (
                    is_f,
                    (
                      feedback_of decision_id db',
                      ground arith,
                      subst
                          (λ (q : Db).
                            find (λ (z : OperatorFeedback). str_eq z.feedback_id f.feedback_id)
                              (feedback_of decision_id q)
                            ≡ some f)
                          same_db
                          (subst
                            (λ (q : OperatorFeedback).
                              find (λ (z : OperatorFeedback). str_eq z.feedback_id q.feedback_id)
                                (feedback_of decision_id db1)
                              ≡ some q)
                            (sym is_f) listed),
                    ),
                  )
            ]
          ]
    ]
