-- ===== src/Feedback.antt =====
-- src/promiseguard/feedback.py and `FeedbackRepository` of persistence.py: what operators say of a
-- decision. A row has the fields of the model; `iso` is `datetime.isoformat`.
pub mod Listed
mod Tests
use promiseguard_ai.Prelude.{
  ℕ, Bool, true, false, not, Option, none, some, List, [], ◌∷◌, ◌++◌, leb, select, is_some,
  if◌then◌else◌,
}
use promiseguard_ai.Prelude.Text.{String, str_eq, concat, join}
use promiseguard_ai.Prelude.Exec.{
  Result, ok, err, Exec, ◌>>=◌, ◌>>◌, gets, lift, pure, raise_if, record_not_found_error,
}
use promiseguard_ai.Models.{OperatorFeedback, OperatorFeedbackInput}
use promiseguard_ai.Codec.{Codec, hashed_id}
use promiseguard_ai.Database.{Db, insert_row, session}
use promiseguard_ai.Identity.{bind_claimed_role}
use promiseguard_ai.Persistence.{get_decision}

-- `.order_by(key)`: a stable sort of the rows.
unfoldable pub insert_by : {R : Type 0} → (R → ℕ) → R → List R → List R
insert_by key x [] = x ∷ []
insert_by key x (y ∷ ys) =
    let rest = insert_by key x ys in if leb (key x) (key y) then x ∷ y ∷ ys else y ∷ rest

unfoldable pub order_by : {R : Type 0} → (R → ℕ) → List R → List R
unfolding insert_by
order_by key [] = []
order_by key (x ∷ xs) = insert_by key x (order_by key xs)

-- `FeedbackRepository.record`
unfoldable pub add_feedback : OperatorFeedback → Exec Db OperatorFeedback
add_feedback f db =
    elim (insert_row (λ (x : OperatorFeedback). str_eq x.feedback_id f.feedback_id) f db.feedback) [
      | ok table ↦ (ok f, record db { feedback = table })
      | err k t ↦ (err k t, db)
    ]

-- `FeedbackRepository.list_for_decision`
unfoldable pub feedback_of : String → Db → List OperatorFeedback
unfolding order_by
feedback_of decision_id db =
    order_by (λ f. f.created_at)
      (select (λ (f : OperatorFeedback). str_eq f.decision_id decision_id) db.feedback)

abbrev pub feedback_from :
    Codec → (ℕ → String) → String → OperatorFeedbackInput → ℕ → OperatorFeedback
feedback_from c iso decision_id payload created_at = record {
  feedback_id =
      hashed_id c "fb_"
        (join "|" (decision_id ∷ payload.actor_id ∷ iso created_at ∷ payload.comment ∷ [])) 24;
  decision_id = decision_id;
  actor_id = payload.actor_id;
  actor_role = payload.actor_role;
  useful = payload.useful;
  expected_outcome_matched = payload.expected_outcome_matched;
  comment = payload.comment;
  created_at = created_at;
}

abbrev require_decision : String → Exec Db (Unit {0})
require_decision decision_id = do
  found ← gets (get_decision decision_id)
  raise_if (not (is_some found)) record_not_found_error
      (concat ("decision '" ∷ decision_id ∷ "' not found" ∷ []))

-- `FeedbackService.record`, with `strict` as the environment says
unfoldable pub record_feedback :
    Codec → (ℕ → String) → Bool → String → OperatorFeedbackInput → ℕ → Exec Db OperatorFeedback
record_feedback c iso strict decision_id payload now = do
  require_decision decision_id
  lift (bind_claimed_role strict payload.actor_id payload.actor_role)
  session (add_feedback (feedback_from c iso decision_id payload now))

-- `FeedbackService.list_for_decision`
unfoldable pub list_for_decision : String → Exec Db (List OperatorFeedback)
list_for_decision decision_id = do
  require_decision decision_id
  session (gets (feedback_of decision_id))
