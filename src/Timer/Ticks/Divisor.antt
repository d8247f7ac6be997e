-- ===== src/Timer/Ticks/Divisor.antt =====
-- The divisor that the algorithm of Euclid finds.
use native.Mathlib.Nat.{mod-lt, div-add-mod, le_of_mul-le-mul_left, mul-add}
use core_v_mini_mcu.Base.{
  ℕ, zero, suc, ap, refl, sym, ◌∙◌, ◌+◌, ◌-◌, ◌*◌, ◌/◌, ◌%◌, ◌≤◌, ◌<◌, ◌≡◌, arith, ◌==◌, Bool-cases,
  inl, inr, some,
}
use core_v_mini_mcu.Timer.Ticks.{gcd_loop}

-- `g` divides both, and it is the greatest that does: where `b * p` is `a * s`, `p` and `s` are the
-- same multiple of `a / g` and `b / g`.
pub record IsGcd (a b g : ℕ) : Type 0 where
  pub a_part : ℕ
  pub b_part : ℕ
  pub a_divides : a ≡ g * a_part
  pub b_divides : b ≡ g * b_part
  pub greatest : (p s : ℕ) → b * p ≡ a * s → (t : ℕ) × (g * p ≡ a * t) × (g * s ≡ b * t)

pub divisor_positive : (a b g : ℕ) → IsGcd a b g → 0 < a + b → 0 < g
divisor_positive a b zero d positive = absurd (omega (arith, positive, d.a_divides, d.b_divides))
divisor_positive a b (suc g) d positive = omega arith

zero-IsGcd : (a : ℕ) → IsGcd a 0 a
zero-IsGcd a = record {
  a_part = 1;
  b_part = 0;
  a_divides = omega arith;
  b_divides = omega arith;
  greatest = λ p s e. (p, omega arith, omega (arith, e));
}

-- A solution for `b * q + r` and `b` gives one for `b` and `r`.
rest_of_solution :
    (b q r p s : ℕ) → 0 < b → b * p ≡ (b * q + r) * s → (w : ℕ) × (p ≡ q * s + w) × (r * s ≡ b * w)
rest_of_solution b q r p s there e =
    let apart : (b * q + r) * s ≡ b * (q * s) + r * s = omega arith in
    let below : q * s ≤ p = le_of_mul-le-mul_left (omega (arith, e, apart)) there in
    let exact : p ≡ q * s + (p - q * s) = omega (arith, below) in
    let split : b * (q * s + (p - q * s)) ≡ b * (q * s) + b * (p - q * s) =
      mul-add b (q * s) (p - q * s) in
    (p - q * s, exact, omega (arith, e, apart, ap (λ x. b * x) exact, split))

rest_times : (g b q r s w t : ℕ) → g * s ≡ b * t → g * w ≡ r * t → g * (q * s + w) ≡ (b * q + r) * t
rest_times g b q r s w t first second =
    let turned : g * (q * s) ≡ q * (b * t) = omega (arith, ap (λ x. q * x) first) in
    omega (arith, turned, second)

sum_divides : (g b q r k c : ℕ) → b ≡ g * k → r ≡ g * c → b * q + r ≡ g * (k * q + c)
sum_divides g b q r k c first second =
    let times : b * q ≡ g * k * q = ap (λ x. x * q) first in omega (arith, times, second)

step-IsGcd : (a b g : ℕ) → 0 < b → IsGcd b (a % b) g → IsGcd a b g
step-IsGcd a b g there d =
    let whole : b * (a / b) + a % b ≡ a = div-add-mod a b in
    record {
      a_part = d.a_part * (a / b) + d.b_part;
      b_part = d.a_part;
      a_divides =
          sym whole ∙ sum_divides g b (a / b) (a % b) d.a_part d.b_part d.a_divides d.b_divides;
      b_divides = d.a_divides;
      greatest = λ p s e.
          let (w, parts, solved) =
            rest_of_solution b (a / b) (a % b) p s there (e ∙ ap (λ x. x * s) (sym whole)) in
          let (t, first, second) = d.greatest s w solved in
          (
            t,
            ap (λ x. g * x) parts
                ∙ rest_times g b (a / b) (a % b) s w t first second
                ∙ ap (λ x. x * t) whole,
            first,
          );
    }

pub gcd_loop-IsGcd :
    (rounds a b : ℕ) → b < rounds → (g : ℕ) × (gcd_loop rounds a b ≡ some g) × IsGcd a b g
unfolding gcd_loop
gcd_loop-IsGcd zero a b enough = absurd (omega (arith, enough))
gcd_loop-IsGcd (suc rounds) a b enough = elim (Bool-cases (b == 0)) [
  | inl none_left ↦
      let nothing : b ≡ 0 = ground (arith, none_left) in
      (a, rw (none_left, gcd_loop) refl, rw nothing (zero-IsGcd a))
  | inr some_left ↦
      let there : 0 < b = ground (arith, some_left) in
      let (g, found, d) = gcd_loop-IsGcd rounds b (a % b) (omega (arith, enough, mod-lt a there)) in
      (g, rw (some_left, gcd_loop) found, step-IsGcd a b g there d)
]
