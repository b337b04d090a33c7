-- ===== src/Feedback/Tests.antt =====
-- Feedback that src/promiseguard/feedback.py records and lists.
use promiseguard_ai.Prelude.{◌≡◌, refl, true, none, some, List, [], ◌∷◌, find}
use promiseguard_ai.Prelude.Text.{str_eq}
use promiseguard_ai.Prelude.Exec.{Result, ok}
use promiseguard_ai.Models.{OperatorFeedback, OperatorFeedbackInput, UserRole}
use promiseguard_ai.Examples.{digits, plain_codec, upgrade_trace}
use promiseguard_ai.Database.{Db}
use promiseguard_ai.Identity.{bind_claimed_role, registered_role}
use promiseguard_ai.Persistence.{decision_row, get_decision}
use promiseguard_ai.Autonomy.History.{empty_db}
use promiseguard_ai.Feedback.{add_feedback, feedback_from, list_for_decision, record_feedback}
use promiseguard_ai.Feedback.Listed.{record_feedback_listed}

abbrev payload : OperatorFeedbackInput
payload = record {
  actor_id = "operations-analyst-ui";
  actor_role = UserRole.operations_analyst;
  useful = true;
  expected_outcome_matched = none;
  comment = "as expected";
}

abbrev db : Db
db = record empty_db { decisions = decision_row plain_codec (upgrade_trace 400) ∷ [] }

abbrev given : OperatorFeedback
given = feedback_from plain_codec digits "dec_1" payload 5000

abbrev run : Result OperatorFeedback × Db
run = record_feedback plain_codec digits true "dec_1" payload 5000 db

runs : run.0 ≡ ok given
unfolding record_feedback get_decision bind_claimed_role registered_role add_feedback
runs = refl

record_feedback_listed_example :
    (given ≡ feedback_from plain_codec digits "dec_1" payload 5000)
    × ((listed : List OperatorFeedback) × (list_for_decision "dec_1" run.1 ≡ (ok listed, run.1))
        × (find (λ (y : OperatorFeedback). str_eq y.feedback_id given.feedback_id) listed
            ≡ some given))
record_feedback_listed_example =
    record_feedback_listed plain_codec digits true "dec_1" payload 5000 db {f = given} {db' = run.1}
      (λ j. (runs j, run.1))
