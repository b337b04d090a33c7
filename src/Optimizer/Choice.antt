-- ===== src/Optimizer/Choice.antt =====
-- `select` of src/promiseguard/optimizer.py: its choice, when it raises, and the comparison with
-- doing nothing.
use mathlib.Core.List.{Perm}
use promiseguard_ai.Prelude.{
  ◌≡◌, refl, Bool, true, Option, none, some, List, [], ◌∷◌, arith, All, find, select, find_holds,
  find-All, Bool-cases, inl, inr,
}
use promiseguard_ai.Prelude.Int.{pos, ◌≤ℤ◌, ◌-ℤ◌, int_laws}
use promiseguard_ai.Prelude.Exec.{ok}
use promiseguard_ai.Models.{RecoveryOption, DecisionRecommendation}
use promiseguard_ai.Optimizer.{ranks_before, ranked, recommend, select_option, is_no_action}
use promiseguard_ai.Optimizer.Ranking.{
  IsRanked, Follow, ranked-perm, ranked-IsRanked, All-ranked, All-of-ranked,
}

module _ (P : RecoveryOption → Type 0) (p : RecoveryOption → Bool) where
  All-of-select : (l : List RecoveryOption) → All P (select p l) → All (λ o. p o ≡ true → P o) l
  All-of-select [] all = tt
  All-of-select (o ∷ l) all = elim (Bool-cases (p o)) [
    | inl yes' ↦
        let both : P o × All P (select p l) = rw yes' at all in
        ((λ _. both.0), All-of-select l both.1)
    | inr no' ↦ let tail : All P (select p l) = rw no' at all in ((λ e. cc), All-of-select l tail)
  ]

select_passes :
    (p : RecoveryOption → Bool) (l : List RecoveryOption) → All (λ o. p o ≡ true) (select p l)
select_passes p [] = tt
select_passes p (o ∷ l) = elim (Bool-cases (p o)) [
  | inl yes' ↦ rw yes' (yes', select_passes p l)
  | inr no' ↦ rw no' (select_passes p l)
]

abbrev feasible_of : List RecoveryOption → List RecoveryOption
feasible_of = select (λ o. o.feasible)

-- A recommendation whose first ranked option is feasible, is worth at least as much as every
-- feasible option, and is the one whose action is selected; its ranking reorders the feasible
-- options and descends.
pub record IsChoice (options : List RecoveryOption) (r : DecisionRecommendation) : Type 0 where
  pub best : RecoveryOption
  pub rest : List RecoveryOption
  pub top : r.ranked_options ≡ best ∷ rest
  pub action : r.selected_action ≡ best.action
  pub feasible : best.feasible ≡ true
  pub order : IsRanked r.ranked_options
  pub same : Perm r.ranked_options (feasible_of options)
  pub beats : All (λ o. o.feasible ≡ true → o.expected_net_value ≤ℤ best.expected_net_value) options

net-le_of_ranks_before :
    (a b : RecoveryOption) → ranks_before a b ≡ true → b.expected_net_value ≤ℤ a.expected_net_value
net-le_of_ranks_before a b h = ground arith

Follow-beats :
    (a : RecoveryOption) (l : List RecoveryOption)
    → Follow a l
    → All (λ o. o.expected_net_value ≤ℤ a.expected_net_value) l
Follow-beats a [] h = tt
Follow-beats a (b ∷ l) h = (net-le_of_ranks_before a b h.0, Follow-beats a l h.1)

module _ (options : List RecoveryOption) where
  top-beats :
      (best : RecoveryOption) (rest : List RecoveryOption)
      → ranked (feasible_of options) ≡ best ∷ rest
      → All (λ o. o.feasible ≡ true → o.expected_net_value ≤ℤ best.expected_net_value) options
  top-beats best rest e =
      let order : IsRanked (best ∷ rest) = rw e at (ranked-IsRanked (feasible_of options)) in
      let P : RecoveryOption → Type 0 = λ o. o.expected_net_value ≤ℤ best.expected_net_value in
      All-of-select P (λ o. o.feasible) options
        (All-of-ranked P (feasible_of options) (rw e (omega arith, Follow-beats best rest order.0)))

  recommend-IsChoice :
      (l : List RecoveryOption) (base : Option RecoveryOption) (r : DecisionRecommendation)
      → ranked (feasible_of options) ≡ l
      → recommend options l base ≡ ok r
      → IsChoice options r
  unfolding recommend
  recommend-IsChoice [] base r e h = cc
  recommend-IsChoice (best ∷ rest) none r e h = cc
  recommend-IsChoice (best ∷ rest) (some b) r e h =
      let ranks : r.ranked_options ≡ best ∷ rest = cc in
      let pass : All (λ o. o.feasible ≡ true) (best ∷ rest) = rw e at (
        All-ranked (λ o. o.feasible ≡ true) (feasible_of options)
          (select_passes (λ o. o.feasible) options)) in
      record {
        best = best;
        rest = rest;
        top = ranks;
        action = cc;
        feasible = pass.0;
        order = rw ranks (rw e at (ranked-IsRanked (feasible_of options)));
        same = rw ranks (rw e at (ranked-perm (feasible_of options)));
        beats = top-beats best rest e;
      }

-- A selection that returns selects the action of an option that is feasible and worth at least
-- as much as every feasible option; its ranking starts with that option, is a permutation of
-- the feasible options and descends.
pub select_option-IsChoice :
    (options : List RecoveryOption) {r : DecisionRecommendation}
    → select_option options ≡ ok r
    → IsChoice options r
unfolding select_option
select_option-IsChoice options {r} h = recommend-IsChoice options _ _ r refl h

recommend_value :
    (options l : List RecoveryOption) (base : Option RecoveryOption) (r : DecisionRecommendation)
    → recommend options l base ≡ ok r
    → (b : RecoveryOption) × (t : RecoveryOption) × (base ≡ some b)
      × (r.expected_incremental_value_vs_no_action ≡ t.expected_net_value -ℤ b.expected_net_value)
      × (rest : List RecoveryOption) × (r.ranked_options ≡ t ∷ rest)
unfolding recommend
recommend_value options [] base r h = cc
recommend_value options (t ∷ rest) none r h = cc
recommend_value options (t ∷ rest) (some b) r h = (b, t, refl, cc, rest, cc)

-- Where every no-action option is feasible, the incremental value of a selection that returns
-- is not negative.
pub select_option_gains :
    (options : List RecoveryOption) {r : DecisionRecommendation}
    → select_option options ≡ ok r
    → All (λ o. is_no_action o ≡ true → o.feasible ≡ true) options
    → pos 0 ≤ℤ r.expected_incremental_value_vs_no_action
unfolding select_option
select_option_gains options {r} h base =
    let c = select_option-IsChoice options h in
    let (b, t, found, value, rest, top) = recommend_value options _ _ r h in
    let same : t ≡ c.best = cc (top, c.top) in
    let able = find-All _ is_no_action options base found (find_holds is_no_action options found) in
    let worth = find-All _ is_no_action options c.beats found able in
    rw value (rw same (omega int_laws))

recommend_total :
    (options l : List RecoveryOption) (b : RecoveryOption)
    → ranked (feasible_of options) ≡ l
    → find is_no_action options ≡ some b
    → b.feasible ≡ true
    → (r : DecisionRecommendation) × (recommend options l (some b) ≡ ok r)
unfolding recommend
recommend_total options (t ∷ rest) b e found able = (_, refl)
recommend_total options [] b e found able =
    let none_left = All-of-ranked (λ _. ⊥) (feasible_of options) (rw e tt) in
    let none_able = All-of-select (λ _. ⊥) (λ o. o.feasible) options none_left in
    absurd (find-All (λ o. o.feasible ≡ true → ⊥) is_no_action options none_able found able)

-- Where the first no-action option is feasible, the selection returns a recommendation.
pub select_option_total :
    (options : List RecoveryOption) (b : RecoveryOption)
    → find is_no_action options ≡ some b
    → b.feasible ≡ true
    → (r : DecisionRecommendation) × (select_option options ≡ ok r)
unfolding select_option
select_option_total options b found able = rw found (recommend_total options _ b refl found able)

All-select :
    (P : RecoveryOption → Type 0) (p : RecoveryOption → Bool) (l : List RecoveryOption)
    → All (λ o. p o ≡ true → P o) l
    → All P (select p l)
All-select P p [] all = tt
All-select P p (o ∷ l) all = elim (Bool-cases (p o)) [
  | inl yes' ↦ rw yes' (all.0 yes', All-select P p l all.1)
  | inr no' ↦ rw no' (All-select P p l all.1)
]

recommend_ranking :
    (options l : List RecoveryOption) (base : Option RecoveryOption) (r : DecisionRecommendation)
    → recommend options l base ≡ ok r
    → r.ranked_options ≡ l
unfolding recommend
recommend_ranking options [] base r h = cc
recommend_ranking options (t ∷ rest) none r h = cc
recommend_ranking options (t ∷ rest) (some b) r h = cc

-- What holds of every feasible option holds of every ranked one.
pub select_option-All :
    (P : RecoveryOption → Type 0) (options : List RecoveryOption) {r : DecisionRecommendation}
    → select_option options ≡ ok r
    → All (λ o. o.feasible ≡ true → P o) options
    → All P r.ranked_options
unfolding select_option
select_option-All P options {r} h all =
    rw (recommend_ranking options _ _ r h)
      (All-ranked P (feasible_of options) (All-select P (λ o. o.feasible) options all))
