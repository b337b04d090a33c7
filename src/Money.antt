-- ===== src/Money.antt =====
-- `_money` of src/promiseguard/simulator.py and src/promiseguard/verification.py: an exact amount,
-- quantised to cents with ROUND_HALF_UP. Amounts are given as fractions of a cent.
pub mod Bounds
use promiseguard_ai.Prelude.{ℕ, ◌+◌, ◌-◌, ◌*◌, ◌/◌, ◌^◌, leb, if◌then◌else◌}
use promiseguard_ai.Prelude.Int.{ℤ, pos, ◌-ℤ◌}
use promiseguard_ai.Models.{NonNegativeMoney}

-- `_money` of n / d cents, not below zero: half a cent rounds up.
unfoldable pub money : ℕ → ℕ → ℕ
money n d = (2 * n + d) / (2 * d)

-- `_money` of (up - down) / d cents: half a cent rounds away from zero.
unfoldable pub signed_money : ℕ → ℕ → ℕ → ℤ
signed_money up down d =
    if leb down up then pos (money (up - down) d) else pos 0 -ℤ pos (money (down - up) d)

-- An amount is `cents a / unit a` cents.
abbrev pub cents : NonNegativeMoney → ℕ
cents a = 100 * a.digits

abbrev pub unit : NonNegativeMoney → ℕ
unit a = 10 ^ a.places

-- `a + b`
abbrev pub sum : NonNegativeMoney → NonNegativeMoney → NonNegativeMoney
sum a b = record {
  digits = a.digits * 10 ^ b.places + b.digits * 10 ^ a.places;
  places = a.places + b.places;
}

abbrev pub rounded : NonNegativeMoney → ℕ
rounded a = money (cents a) (unit a)
