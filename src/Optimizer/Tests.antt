-- ===== src/Optimizer/Tests.antt =====
-- A choice of src/promiseguard/optimizer.py among three options, of which the best one is not
-- feasible.
use promiseguard_ai.Prelude.{◌≡◌, refl, Bool, true, false, List, [], ◌∷◌}
use promiseguard_ai.Prelude.Int.{ℤ, pos, ◌-ℤ◌}
use promiseguard_ai.Prelude.Exec.{ok}
use promiseguard_ai.Models.{RecoveryAction, RecoveryOption, DecisionRecommendation}
use promiseguard_ai.Examples.{bits}
use promiseguard_ai.Optimizer.{ranked, rank_in, rejection, recommend, select_option}
use promiseguard_ai.Optimizer.Choice.{IsChoice, select_option-IsChoice}

abbrev option_of : RecoveryAction → Bool → ℤ → RecoveryOption
option_of action feasible value = record {
  action = action;
  feasible = feasible;
  on_time_probability = bits 9000;
  expected_retained_gross_margin = pos 4500;
  intervention_cost = 300;
  expected_failure_cost = 150;
  expected_net_value = value;
  reversible = true;
  confidence = bits 9000;
  constraints = [];
  evidence_references = [];
}

abbrev idle : RecoveryOption
idle = option_of RecoveryAction.take_no_action true (pos 1100)

abbrev rerouted : RecoveryOption
rerouted = option_of RecoveryAction.reroute true (pos 4375)

abbrev split_up : RecoveryOption
split_up = option_of RecoveryAction.split_shipment false (pos 9000)

abbrev three : List RecoveryOption
three = idle ∷ split_up ∷ rerouted ∷ []

abbrev reroute_it : DecisionRecommendation
reroute_it = record {
  selected_action = RecoveryAction.reroute;
  ranked_options = rerouted ∷ idle ∷ [];
  expected_incremental_value_vs_no_action = pos 4375 -ℤ pos 1100;
  rejected_options = rejection split_up ∷ [];
  confidence = bits 9000;
}

select_three : select_option three ≡ ok reroute_it
unfolding select_option recommend ranked rank_in
select_three = refl

select_option-IsChoice_example : IsChoice three reroute_it
select_option-IsChoice_example = select_option-IsChoice three select_three
