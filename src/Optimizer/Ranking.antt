-- ===== src/Optimizer/Ranking.antt =====
-- The ranking of src/promiseguard/optimizer.py: permutation and order.
use mathlib.Core.List.{Perm}
use mathlib.Core.List.Perm
use promiseguard_ai.Prelude.{◌≡◌, true, false, List, [], ◌∷◌, arith, All, Bool-cases, inl, inr}
use promiseguard_ai.Models.{RecoveryOption}
use promiseguard_ai.Optimizer.{ranks_before, rank_in, ranked}

rank_in-perm : (a : RecoveryOption) (l : List RecoveryOption) → Perm (rank_in a l) (a ∷ l)
unfolding rank_in
rank_in-perm a [] = Perm.rfl
rank_in-perm a (b ∷ rest) = elim (Bool-cases (ranks_before a b)) [
  | inl before ↦ rw (before, rank_in) Perm.rfl
  | inr after ↦
      rw (after, rank_in) (Perm.trans (Perm.cons b (rank_in-perm a rest)) (Perm.swap a b rest))
]

-- The ranked options are the given ones, reordered.
pub ranked-perm : (l : List RecoveryOption) → Perm (ranked l) l
unfolding ranked
ranked-perm [] = Perm.rfl
ranked-perm (a ∷ rest) = Perm.trans (rank_in-perm a (ranked rest)) (Perm.cons a (ranked-perm rest))

-- Every option comes before all that its key reaches.
abbrev pub IsRanked : List RecoveryOption → Type 0
IsRanked [] = Unit
IsRanked (a ∷ rest) = All (λ b. ranks_before a b ≡ true) rest × IsRanked rest

ranks_before_trans :
    (a b c : RecoveryOption)
    → ranks_before a b ≡ true
    → ranks_before b c ≡ true
    → ranks_before a c ≡ true
ranks_before_trans a b c h k = ground arith

-- The converse of a test that fails: the order is total.
ranks_before_total : (a b : RecoveryOption) → ranks_before a b ≡ false → ranks_before b a ≡ true
ranks_before_total a b h = ground arith

abbrev pub Follow : RecoveryOption → List RecoveryOption → Type 0
Follow a = All (λ b. ranks_before a b ≡ true)

Follow-trans :
    (a b : RecoveryOption) (l : List RecoveryOption)
    → ranks_before a b ≡ true
    → Follow b l
    → Follow a l
Follow-trans a b [] h f = tt
Follow-trans a b (c ∷ rest) h f = (ranks_before_trans a b c h f.0, Follow-trans a b rest h f.1)

module _ (P : RecoveryOption → Type 0) where
  pub All-rank_in :
      (a : RecoveryOption) (l : List RecoveryOption) → P a → All P l → All P (rank_in a l)
  unfolding rank_in
  All-rank_in a [] h all = (h, tt)
  All-rank_in a (b ∷ rest) h all = elim (Bool-cases (ranks_before a b)) [
    | inl before ↦ rw (before, rank_in) (h, all)
    | inr after ↦ rw (after, rank_in) (all.0, All-rank_in a rest h all.1)
  ]

  -- What holds of all options holds of all ranked ones.
  pub All-ranked : (l : List RecoveryOption) → All P l → All P (ranked l)
  unfolding ranked
  All-ranked [] all = tt
  All-ranked (a ∷ rest) all = All-rank_in a (ranked rest) all.0 (All-ranked rest all.1)

  All-of-rank_in :
      (a : RecoveryOption) (l : List RecoveryOption) → All P (rank_in a l) → P a × All P l
  unfolding rank_in
  All-of-rank_in a [] all = all
  All-of-rank_in a (b ∷ rest) all = elim (Bool-cases (ranks_before a b)) [
    | inl before ↦ let both : P a × All P (b ∷ rest) = rw (before, rank_in) at all in both
    | inr after ↦
        let both : P b × All P (rank_in a rest) = rw (after, rank_in) at all in
        let inner = All-of-rank_in a rest both.1 in (inner.0, (both.0, inner.1))
  ]

  -- What holds of all ranked options holds of all.
  pub All-of-ranked : (l : List RecoveryOption) → All P (ranked l) → All P l
  unfolding ranked
  All-of-ranked [] all = tt
  All-of-ranked (a ∷ rest) all =
      let both = All-of-rank_in a (ranked rest) all in (both.0, All-of-ranked rest both.1)

rank_in-IsRanked :
    (a : RecoveryOption) (l : List RecoveryOption) → IsRanked l → IsRanked (rank_in a l)
unfolding rank_in
rank_in-IsRanked a [] h = (tt, tt)
rank_in-IsRanked a (b ∷ rest) h = elim (Bool-cases (ranks_before a b)) [
  | inl before ↦ rw (before, rank_in) ((before, Follow-trans a b rest before h.0), h)
  | inr after ↦
      rw (after, rank_in)
        (
          All-rank_in (λ c. ranks_before b c ≡ true) a rest (ranks_before_total a b after) h.0,
          rank_in-IsRanked a rest h.1,
        )
]

-- In a ranking each option comes before all whose key its own reaches.
pub ranked-IsRanked : (l : List RecoveryOption) → IsRanked (ranked l)
unfolding ranked
ranked-IsRanked [] = tt
ranked-IsRanked (a ∷ rest) = rank_in-IsRanked a (ranked rest) (ranked-IsRanked rest)
