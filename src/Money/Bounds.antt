-- ===== src/Money/Bounds.antt =====
-- Rounding as in src/promiseguard/simulator.py against the exact amounts.
use native.Mathlib.Nat.{
  div-lt_iff_lt-mul, le-div_iff_mul-le, lt_of_mul-lt-mul_right, mul-le-mul_left, mul-le-mul_right,
  mul-pos,
}
use promiseguard_ai.Prelude.{ℕ, ◌+◌, ◌-◌, ◌*◌, ◌/◌, ◌≤◌, ◌<◌, arith, leb, Bool-cases, inl, inr}
use promiseguard_ai.Prelude.Int.{pos, ◌+ℤ◌, ◌≤ℤ◌, int_laws}
use promiseguard_ai.Money.{money, signed_money}

-- The rounded amount is within half a cent of the exact one, and a tie goes up.
pub money_nearest :
    (n d : ℕ) → 0 < d → (2 * (money n d * d) ≤ 2 * n + d) × (2 * n < 2 * (money n d * d) + d)
unfolding money
money_nearest n d h =
    let q = (2 * n + d) / (2 * d) in
    let low : q * (2 * d) ≤ 2 * n + d =
      (le-div_iff_mul-le {k = 2 * d} {x = q} {y = 2 * n + d} (omega arith)).0 (omega arith) in
    let high : 2 * n + d < (q + 1) * (2 * d) =
      (div-lt_iff_lt-mul {k = 2 * d} {x = 2 * n + d} {y = q + 1} (omega arith)).0 (omega arith) in
    (omega arith, omega arith)

cancel : (a b e : ℕ) → a * e < (b + 1) * e → a ≤ b
cancel a b e h = omega (arith, lt_of_mul-lt-mul_right e {m = a} {n = b + 1} h)

pub money_below : (n d m : ℕ) → 0 < d → 2 * n < 2 * (m * d) + d → money n d ≤ m
unfolding money
money_below n d m p h = (omega (arith, cancel (money n d) m d (omega (arith, money_nearest n d p))))

-- A part of an amount is not rounded above the rounded amount.
pub money-part : (g n d e : ℕ) → n ≤ e → 0 < d → 0 < e → money (g * n) (d * e) ≤ money g d
money-part g n d e h p q' =
    let q = money g d in
    let (low, high) = money_nearest g d p in
    let scaled : (2 * g + 1) * e ≤ (2 * (q * d) + d) * e = mul-le-mul_right e (omega arith) in
    let part : g * n ≤ g * e = mul-le-mul_left g h in
    money_below (g * n) (d * e) q (mul-pos p q') (omega arith)

module _ (m f x e : ℕ) (h : 0 < e) where
  -- The exact value is at least zero.
  near_gain :
      f * e + x ≤ m * e
      → (m ≤ money (m * e - (f * e + x)) e + (f + money x e))
        × (money (m * e - (f * e + x)) e + (f + money x e) ≤ m + 1)
  near_gain up =
      let r = money (m * e - (f * e + x)) e in
      let c = money x e in
      let (low, high) = money_nearest (m * e - (f * e + x)) e h in
      let (low', high') = money_nearest x e h in
      (cancel m (r + (f + c)) e (omega arith), cancel (r + (f + c)) (m + 1) e (omega arith))

  -- The exact value is below zero.
  near_loss :
      m * e < f * e + x
      → (m + money (f * e + x - m * e) e ≤ f + money x e)
        × (f + money x e ≤ m + money (f * e + x - m * e) e)
  near_loss down =
      let r = money (f * e + x - m * e) e in
      let c = money x e in
      let (low, high) = money_nearest (f * e + x - m * e) e h in
      let (low', high') = money_nearest x e h in
      (cancel (m + r) (f + c) e (omega arith), cancel (f + c) (m + r) e (omega arith))

  pub signed_money_near :
      (pos m ≤ℤ signed_money (m * e) (f * e + x) e +ℤ pos (f + money x e))
      × (signed_money (m * e) (f * e + x) e +ℤ pos (f + money x e) ≤ℤ pos (m + 1))
  unfolding signed_money
  signed_money_near = elim (Bool-cases (leb (f * e + x) (m * e))) [
    | inl up ↦
        let (low, high) = near_gain (ground arith) in
        (rw up (omega int_laws), rw up (omega int_laws))
    | inr down ↦
        let (low, high) = near_loss (ground arith) in
        (rw down (omega int_laws), rw down (omega int_laws))
  ]

  pub signed_money-le : signed_money (m * e) (f * e + x) e ≤ℤ pos m
  unfolding signed_money
  signed_money-le = elim (Bool-cases (leb (f * e + x) (m * e))) [
    | inl up ↦
        let least = money_below (m * e - (f * e + x)) e m h (omega arith) in rw up (omega int_laws)
    | inr down ↦ rw down (omega int_laws)
  ]
