-- ===== src/Optimizer.antt =====
-- src/promiseguard/optimizer.py: the ranking of the recovery options.
pub mod Ranking
pub mod Choice
mod Tests
use promiseguard_ai.Prelude.{
  ℕ, Bool, true, false, ◌&&◌, ◌||◌, not, Option, none, some, List, [], ◌∷◌, ltb, leb, if◌then◌else◌,
  find, select, map,
}
use promiseguard_ai.Prelude.Int.{ℤ, ◌-ℤ◌, ltb_ℤ, leb_ℤ}
use promiseguard_ai.Prelude.Text.{String, concat, join}
use promiseguard_ai.Prelude.Exec.{Result, ok, err, value_error, stop_iteration}
use promiseguard_ai.Models.{
  RecoveryAction, RecoveryOption, DecisionRecommendation, action_value, is_action,
}

-- `_tie_break_priority`
abbrev pub tie_break_priority : RecoveryAction → ℕ
tie_break_priority RecoveryAction.take_no_action = 0
tie_break_priority RecoveryAction.reroute = 1
tie_break_priority RecoveryAction.carrier_upgrade = 2
tie_break_priority RecoveryAction.split_shipment = 3
tie_break_priority RecoveryAction.human_escalation = 4

-- `key(b) <= key(a)` on the pairs (expected net value, minus the priority)
abbrev pub ranks_before : RecoveryOption → RecoveryOption → Bool
ranks_before a b =
    if ltb_ℤ b.expected_net_value a.expected_net_value
    then true
    else if ltb_ℤ a.expected_net_value b.expected_net_value
    then false
    else leb (tie_break_priority a.action) (tie_break_priority b.action)

-- `sorted(…, key, reverse=True)`, which keeps the order of equal keys: an option goes before the
-- first one further down that its key reaches.
unfoldable pub rank_in : RecoveryOption → List RecoveryOption → List RecoveryOption
rank_in a [] = a ∷ []
rank_in a (b ∷ rest) =
    let later = rank_in a rest in if ranks_before a b then a ∷ b ∷ rest else b ∷ later

unfoldable pub ranked : List RecoveryOption → List RecoveryOption
unfolding rank_in
ranked [] = []
ranked (a ∷ rest) = rank_in a (ranked rest)

unfoldable pub rejection : RecoveryOption → String
rejection o = concat (action_value o.action ∷ ":" ∷ join "," o.constraints ∷ [])

abbrev pub is_no_action : RecoveryOption → Bool
is_no_action o = is_action o.action RecoveryAction.take_no_action

-- The end of `select`, from the ranked options and the baseline that `next` found.
unfoldable pub recommend :
    List RecoveryOption
    → List RecoveryOption
    → Option RecoveryOption
    → Result DecisionRecommendation
unfolding rejection
recommend options [] baseline = err value_error "at least one feasible recovery option is required"
recommend options (selected ∷ rest) none = err stop_iteration ""
recommend options (selected ∷ rest) (some no_action) = ok (record {
  selected_action = selected.action;
  ranked_options = selected ∷ rest;
  expected_incremental_value_vs_no_action =
      selected.expected_net_value -ℤ no_action.expected_net_value;
  rejected_options = map rejection (select (λ o. not o.feasible) options);
  confidence = selected.confidence;
})

-- `DecisionOptimizer.select`
unfoldable pub select_option : List RecoveryOption → Result DecisionRecommendation
unfolding ranked recommend
select_option options =
    recommend options (ranked (select (λ o. o.feasible) options)) (find is_no_action options)
