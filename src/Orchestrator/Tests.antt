-- ===== src/Orchestrator/Tests.antt =====
-- An evaluation of src/promiseguard/orchestrator.py on a concrete order, over the database
-- ledger.
use promiseguard_ai.Prelude.{◌≡◌, refl, true, false}
use promiseguard_ai.Prelude.Exec.{ok}
use promiseguard_ai.Models.{OperatingMode, PolicyEvaluation, DecisionRecommendation}
use promiseguard_ai.Floats.{ten_thousandths}
use promiseguard_ai.Examples.{
  order_at_risk, risk_of_order, request_at_risk, plain_codec, open_controls, fixed_scorer, digits,
}
use promiseguard_ai.Database.{Db}
use promiseguard_ai.Simulator.{simulate}
use promiseguard_ai.Optimizer.{select_option}
use promiseguard_ai.Policy.{evaluate_policy}
use promiseguard_ai.Ledger.{sql_record}
use promiseguard_ai.Autonomy.History.{empty_db}
use promiseguard_ai.Orchestrator.{Orchestrator, evaluate, trace_of}
use promiseguard_ai.Orchestrator.Pipeline.{
  IsAllowed, Responds, pipeline_total, recommendation-IsAllowed, policy_total,
  evaluate_reaches_ledger,
}
use promiseguard_ai.Orchestrator.Repeat.{sql_orchestrator}

abbrev chosen : DecisionRecommendation
chosen = (pipeline_total ten_thousandths order_at_risk risk_of_order).0

chosen_is : select_option (simulate ten_thousandths order_at_risk risk_of_order) ≡ ok chosen
chosen_is = (pipeline_total ten_thousandths order_at_risk risk_of_order).1

recommendation-IsAllowed_example : IsAllowed order_at_risk chosen.selected_action
recommendation-IsAllowed_example =
    recommendation-IsAllowed ten_thousandths order_at_risk risk_of_order chosen chosen_is

responds : Responds open_controls
responds = record {
  version = λ a h. ("kill-switch:1", refl);
  kill = (false, refl);
  autonomy = λ a h k. (true, refl);
}

policy_total_example :
    (e : PolicyEvaluation) × (evaluate_policy open_controls order_at_risk risk_of_order chosen
        OperatingMode.bounded_autonomy
      ≡ ok e)
policy_total_example =
    policy_total open_controls responds ten_thousandths order_at_risk risk_of_order
      OperatingMode.bounded_autonomy chosen chosen_is

abbrev over_sql : Orchestrator Db
over_sql = sql_orchestrator plain_codec ten_thousandths fixed_scorer digits (λ k p. open_controls)

evaluate_reaches_ledger_example :
    (r : DecisionRecommendation) × (e : PolicyEvaluation) × (select_option
        (simulate ten_thousandths order_at_risk risk_of_order)
      ≡ ok r)
    × (evaluate_policy open_controls order_at_risk risk_of_order r OperatingMode.bounded_autonomy
        ≡ ok e)
    × (evaluate over_sql request_at_risk empty_db
        ≡ sql_record plain_codec (trace_of over_sql request_at_risk risk_of_order r e) empty_db)
evaluate_reaches_ledger_example = evaluate_reaches_ledger over_sql request_at_risk empty_db responds
