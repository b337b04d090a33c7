-- ===== src/Floats.antt =====
-- What the decision pipeline computes with Python floats. A double is a bit pattern; its arithmetic
-- is IEEE 754 and CPython's `round` and `str`, which the program calls and does not contain.
use promiseguard_ai.Prelude.{ℕ, ◌-◌, ◌^◌, ◌≤◌, ◌≡◌, Bool, false, refl, arith, ltb, if◌then◌else◌}
use promiseguard_ai.Models.{Float}

-- `decimal p` is `Decimal(str(p))` of a float that is not negative, as (n, k) for n / 10^k.
pub record FloatOps : Type 0 where
  pub zero : Float
  pub one : Float
  pub sub : Float → Float → Float
  pub less : Float → Float → Bool
  pub round_4 : Float → Float
  pub decimal : Float → ℕ × ℕ

-- Between 0.0 and 1.0: what `Probability` of models.py admits.
abbrev pub IsProbability : FloatOps → Float → Type 0
IsProbability f p = (f.less p f.zero ≡ false) × (f.less f.one p ≡ false)

-- Python's `min(a, b)`
abbrev pub float_min : FloatOps → Float → Float → Float
float_min f a b = if f.less b a then b else a

-- What is documented of that arithmetic between 0 and 1: zero lies there, `1.0 - p` and
-- `round(p, 4)` stay there, and the shortest decimal of such a float is at most 1.
pub record FloatLaws (f : FloatOps) : Type 0 where
  pub zero_prob : IsProbability f f.zero
  pub sub_prob : (p : Float) → IsProbability f p → IsProbability f (f.sub f.one p)
  pub round_prob : (p : Float) → IsProbability f p → IsProbability f (f.round_4 p)
  pub decimal-le-one : (p : Float) → IsProbability f p → (f.decimal p).0 ≤ 10 ^ (f.decimal p).1

-- An instance: a float whose bits count ten-thousandths.
abbrev pub ten_thousandths : FloatOps
ten_thousandths = record {
  zero = record { bits = 0 };
  one = record { bits = 10000 };
  sub = λ a b. record { bits = a.bits - b.bits };
  less = λ a b. ltb a.bits b.bits;
  round_4 = λ a. a;
  decimal = λ a. (a.bits, 4);
}

pub ten_thousandths-FloatLaws : FloatLaws ten_thousandths
ten_thousandths-FloatLaws = record {
  zero_prob = (refl, refl);
  sub_prob = λ p h. ground arith;
  round_prob = λ p h. h;
  decimal-le-one = λ p h. ground arith;
}
