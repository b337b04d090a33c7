-- ===== src/Ledger/Tests.antt =====
-- Decisions in both ledgers of src/promiseguard/ledger.py.
use promiseguard_ai.Prelude.{◌≡◌, refl, false, some, List, [], ◌∷◌}
use promiseguard_ai.Prelude.Int.{pos}
use promiseguard_ai.Prelude.Text.{String}
use promiseguard_ai.Prelude.Exec.{ok}
use promiseguard_ai.Models.{
  DecisionTrace, DecisionStatus, OperatingMode, PolicyDisposition, RecoveryAction,
}
use promiseguard_ai.Examples.{bits, risk_of_order, plain_codec}
use promiseguard_ai.Database.{Db}
use promiseguard_ai.Autonomy.History.{empty_db}
use promiseguard_ai.Persistence.{get_decision}
use promiseguard_ai.Ledger.{empty_ledger, memory_record, sql_record}
use promiseguard_ai.Ledger.Immutable.{get-sql_record}
use promiseguard_ai.Ledger.Agreement.{Agrees, record_all, record_all-Agrees}

abbrev trace_named : String → DecisionTrace
trace_named id = record {
  trace_version = "decision-trace-v2";
  decision_id = id;
  event_id = "EV-1";
  order_id = "ORD-1";
  mode = OperatingMode.approval;
  risk = risk_of_order;
  recommendation = record {
    selected_action = RecoveryAction.reroute;
    ranked_options = [];
    expected_incremental_value_vs_no_action = pos 3275;
    rejected_options = [];
    confidence = bits 9000;
  };
  policy = record {
    disposition = PolicyDisposition.request_approval;
    policy_version = "policy-v3";
    control_version = "kill-switch:1";
    execution_allowed = false;
    reasons = [];
  };
  status = DecisionStatus.awaiting_approval;
  created_at = 1000;
  tenant_id = "local-default";
}

abbrev after_first : Db
after_first = (sql_record plain_codec (trace_named "dec_1") empty_db).1

first_stored : get_decision "dec_1" after_first ≡ some (trace_named "dec_1")
unfolding get_decision sql_record
first_stored = refl

get-sql_record_example :
    get_decision "dec_1" (sql_record plain_codec (trace_named "dec_2") after_first).1
    ≡ some (trace_named "dec_1")
get-sql_record_example =
    get-sql_record plain_codec (trace_named "dec_2") after_first "dec_1" first_stored

first_returned :
    (sql_record plain_codec (trace_named "dec_1") empty_db).0 ≡ ok (trace_named "dec_1")
unfolding sql_record
first_returned = refl

abbrev three_records : List DecisionTrace
three_records = trace_named "dec_1" ∷ trace_named "dec_2" ∷ trace_named "dec_1" ∷ []

record_all-Agrees_example :
    ((record_all (memory_record plain_codec) three_records empty_ledger).0
      ≡ (record_all (sql_record plain_codec) three_records empty_db).0)
    × Agrees
        (record_all (memory_record plain_codec) three_records empty_ledger).1
        (record_all (sql_record plain_codec) three_records empty_db).1
record_all-Agrees_example =
    record_all-Agrees plain_codec three_records empty_ledger empty_db
      (record { traces = refl; prints = refl })
