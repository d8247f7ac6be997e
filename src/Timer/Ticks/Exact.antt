-- ===== src/Timer/Ticks/Exact.antt =====
-- The parameters of the ticks are exact, and they are found whenever there are any.
use native.Mathlib.Nat.{mul-div_cancel_left, eq_of_mul-eq-mul_left, mul_assoc, mul_comm}
use core_v_mini_mcu.Base.{
  ℕ, zero, suc, refl, sym, ap, subst, ◌∙◌, ◌+◌, ◌-◌, ◌*◌, ◌%◌, ◌^◌, ◌≤◌, ◌<◌, ◌≡◌, ◌⊎◌, arith, true,
  false, ◌==◌, ltb, leb, ◌||◌, ◌&&◌, Bool-cases, inl, inr, some, u8, u16,
}
use core_v_mini_mcu.Timer.Ticks.{
  euclidean_gcd, ticks_for, rv_timer_approximate_tick_params, ok, unrepresentable, TickParams,
  Ticks, prescale_mask, step_mask,
}
use core_v_mini_mcu.Timer.Ticks.Divisor.{IsGcd, divisor_positive, gcd_loop-IsGcd}

-- The clock, divided by the prescaler plus 1 and multiplied by the step, is the counter, and both
-- fit their fields.
pub record IsExact (clock counter prescale step : ℕ) : Type 0 where
  prescale_fits : prescale ≤ prescale_mask
  step_fits : step ≤ step_mask
  equal : counter * (prescale + 1) ≡ clock * step

le_of_times : (n t : ℕ) → 0 < n * t → (0 < n) × (n ≤ n * t)
le_of_times n zero positive = absurd (omega (arith, positive))
le_of_times zero (suc t) positive = absurd (omega (arith, positive))
le_of_times (suc n) (suc t) positive = (omega arith, omega arith)

part_le : (n t : ℕ) → 0 < t → n ≤ n * t
part_le n zero positive = absurd (omega (arith, positive))
part_le n (suc t) positive = omega arith

-- What is right to answer.
pub data IsBest (clock counter : ℕ) : Ticks → Type 0 where
  exact :
      (x : TickParams) → IsExact clock counter x.prescale x.tick_step → IsBest clock counter (ok x)
  none_exact : ((p s : ℕ) → ¬ IsExact clock counter p s) → IsBest clock counter unrepresentable

-- Any exact parameters are a multiple of those that the greatest divisor gives.
least_parts :
    (g k c t p s : ℕ)
    → 0 < g
    → g * (p + 1) ≡ g * k * t
    → g * s ≡ g * c * t
    → (0 < k) × (k ≤ p + 1) × (c ≤ s)
least_parts g k c t p s there first second =
    let prescaled : p + 1 ≡ k * t =
      eq_of_mul-eq-mul_left g there (p + 1) (k * t) (first ∙ mul_assoc g k t) in
    let stepped : s ≡ c * t = eq_of_mul-eq-mul_left g there s (c * t) (second ∙ mul_assoc g c t) in
    let (some_clock, low) = le_of_times k t (omega (arith, prescaled)) in
    let (some_times, _) = le_of_times t k (omega (arith, prescaled)) in
    (some_clock, omega (arith, low, prescaled), omega (arith, part_le c t some_times, stepped))

-- The test of `ticks_for`, for a divisor of both that is not zero.
module _ (g k c : ℕ) (there : 0 < g) (word : g * k < 2 ^ 64) where
  clock_part : k < 2 ^ 64
  clock_part = omega (arith, word, mul_comm g k, part_le k g there)

  parts_fit :
      0 < k
      → k ≤ 4096
      → c ≤ 255
      → ticks_for (g * k) (g * c) g ≡ ok (record { prescale = k - 1; tick_step = c })
  unfolding ticks_for
  parts_fit some_clock low small =
      let whole : (k + (2 ^ 64 - 1)) % 2 ^ 64 ≡ k - 1 = omega (arith, some_clock, low) in
      let no_over : ltb prescale_mask (k - 1) ≡ false = ground (arith, low) in
      let no_step_over : ltb step_mask c ≡ false = ground (arith, small) in
      let kept : u16 (k - 1) ≡ k - 1 = omega (arith, low) in
      let kept_step : u8 c ≡ c = omega (arith, small) in
      rw
        (
          mul-div_cancel_left k there,
          mul-div_cancel_left c there,
          whole,
          no_over,
          no_step_over,
          kept,
          kept_step,
        )
        refl

  parts_unfit : (k ≡ 0) ⊎ (4096 < k) ⊎ (255 < c) → ticks_for (g * k) (g * c) g ≡ unrepresentable
  unfolding ticks_for
  parts_unfit over =
      let prescale = (k + (2 ^ 64 - 1)) % 2 ^ 64 in
      let refused : (ltb prescale_mask prescale || ltb step_mask c) ≡ true =
        ground (arith, over, clock_part) in
      rw (mul-div_cancel_left k there, mul-div_cancel_left c there, refused) refl

no_smaller :
    (clock counter g p s : ℕ)
    → 0 < g
    → (d : IsGcd clock counter g) → IsExact clock counter p s
    → (0 < d.a_part) × (d.a_part ≤ 4096) × (d.b_part ≤ 255)
no_smaller clock counter g p s there d e =
    let (t, first, second) = d.greatest (p + 1) s e.equal in
    let (some_clock, low, small) =
      least_parts g d.a_part d.b_part t p s there (first ∙ ap (λ x. x * t) d.a_divides)
        (second ∙ ap (λ x. x * t) d.b_divides) in
    (some_clock, omega (arith, low, e.prescale_fits), omega (arith, small, e.step_fits))

outside_range :
    (k c : ℕ) → (ltb 0 k && leb k 4096 && leb c 255) ≡ false → (k ≡ 0) ⊎ (4096 < k) ⊎ (255 < c)
outside_range k c outside = elim (Bool-cases (ltb 0 k)) [
  | inr none_there ↦ inl (ground (arith, none_there))
  | inl there ↦ elim (Bool-cases (leb k 4096)) [
    | inr high ↦ inr (inl (ground (arith, high)))
    | inl low ↦ inr (inr (ground (arith, outside, there, low)))
  ]
]

parts-IsExact :
    (clock counter g k c : ℕ)
    → clock ≡ g * k
    → counter ≡ g * c
    → 0 < k
    → k ≤ 4096
    → c ≤ 255
    → IsExact clock counter (k - 1) c
parts-IsExact clock counter g k c first second there low small =
    let next : k - 1 + 1 ≡ k = omega (arith, there) in
    record {
      prescale_fits = omega (arith, low);
      step_fits = small;
      equal = rw (next, first, second) (omega arith);
    }

-- Whichever numbers a divisor has, the parameters for it are exact or there are none.
ticks_for-IsBest :
    (clock counter g : ℕ)
    → clock < 2 ^ 64
    → 0 < g
    → IsGcd clock counter g
    → IsBest clock counter (ticks_for clock counter g)
ticks_for-IsBest clock counter g word there d =
    let k = d.a_part in
    let c = d.b_part in
    let fits : g * k < 2 ^ 64 = omega (arith, word, d.a_divides) in
    let same : ticks_for clock counter g ≡ ticks_for (g * k) (g * c) g =
      rw (sym d.a_divides, sym d.b_divides) refl in
    elim (Bool-cases (ltb 0 k && leb k 4096 && leb c 255)) [
      | inl inside ↦
          let some_clock : 0 < k = ground (arith, inside) in
          let low : k ≤ 4096 = ground (arith, inside) in
          let small : c ≤ 255 = ground (arith, inside) in
          subst (IsBest clock counter)
            (sym (same ∙ parts_fit g k c there fits some_clock low small))
            (exact (record { prescale = k - 1; tick_step = c })
              (parts-IsExact clock counter g k c d.a_divides d.b_divides some_clock low small))
      | inr outside ↦
          let over : (k ≡ 0) ⊎ (4096 < k) ⊎ (255 < c) = outside_range k c outside in
          subst (IsBest clock counter) (sym (same ∙ parts_unfit g k c there fits over)) (
            none_exact (λ p s e.
              let (some_clock, low, small) = no_smaller clock counter g p s there d e in
              ground (arith, outside, some_clock, low, small)))
    ]

approximate-ticks_for :
    (clock counter g : ℕ)
    → euclidean_gcd clock counter ≡ some g
    → 0 < g
    → rv_timer_approximate_tick_params clock counter true ≡ some (ticks_for clock counter g)
unfolding rv_timer_approximate_tick_params mathlib.Core.Option.bind
approximate-ticks_for clock counter g found there =
    let divides : (g == 0) ≡ false = ground (arith, there) in rw (found, divides) refl

-- Unless both frequencies are zero, the function returns: either exact parameters, or that they
-- cannot be represented, and then no parameters that fit are exact.
pub rv_timer_approximate_tick_params-IsBest :
    (clock_freq counter_freq : ℕ)
    → clock_freq < 2 ^ 64
    → 0 < clock_freq + counter_freq
    → (r : Ticks) × (rv_timer_approximate_tick_params clock_freq counter_freq true ≡ some r)
      × IsBest clock_freq counter_freq r
unfolding euclidean_gcd
rv_timer_approximate_tick_params-IsBest clock_freq counter_freq word positive =
    let (g, found, d) = gcd_loop-IsGcd (suc counter_freq) clock_freq counter_freq (omega arith) in
    let there : 0 < g = divisor_positive clock_freq counter_freq g d positive in
    (
      ticks_for clock_freq counter_freq g,
      approximate-ticks_for clock_freq counter_freq g found there,
      ticks_for-IsBest clock_freq counter_freq g word there d,
    )
