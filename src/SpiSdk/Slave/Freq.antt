-- ===== src/SpiSdk/Slave/Freq.antt =====
-- The frequency that the clock of a slave really gets.
use native.Mathlib.Nat.{
  le-div_iff_mul-le, div-lt_iff_lt-mul, div-le_of_le-mul, mul_comm, mul-le-mul_left,
}
use core_v_mini_mcu.Base.{
  ℕ, ◌+◌, ◌-◌, ◌*◌, ◌/◌, ◌^◌, ◌≤◌, ◌<◌, ◌≡◌, arith, true, ltb, u16, sub32, if◌then◌else◌,
  Bool-cases, inl, inr, le_trans,
}
use core_v_mini_mcu.SpiSdk.Slave.{min_freq, clk_div, spi_true_slave_freq}

-- A divisor above the quotient by `f` gives at most `f`.
above : (s f k : ℕ) → 0 < f → s / f < k → s / k ≤ f
above s f k positive past =
    let fits : s < k * f = (div-lt_iff_lt-mul positive).0 past in
    div-le_of_le-mul k (omega (arith, fits))

-- One that is not above it gives at least `f`.
within : (s f k : ℕ) → 0 < f → 0 < k → k ≤ s / f → f ≤ s / k
within s f k positive there below =
    let fits : k * f ≤ s = (le-div_iff_mul-le positive).0 below in
    (le-div_iff_mul-le there).1 (omega (arith, fits, mul_comm f k))

smaller : (s a b : ℕ) → 0 < a → a ≤ b → s / b ≤ s / a
smaller s a b positive le = elim (Bool-cases (ltb 0 b)) [
  | inr none ↦ absurd (ground (arith, none))
  | inl some_there ↦
      let b_positive : 0 < b = ground (arith, some_there) in
      let fits : s / b * b ≤ s = (le-div_iff_mul-le b_positive).0 (omega arith) in
      (le-div_iff_mul-le positive).1 (omega (arith, fits, mul-le-mul_left (s / b) le))
]

-- The divider, where it fits its 16 bits.
clk_div_fits :
    (sys_freq freq : ℕ)
    → sys_freq < 2 ^ 32
    → min_freq sys_freq < freq
    → freq < sys_freq / 2
    → let div = (sys_freq / freq - 2) / 2 in
      (2 * div + 2 ≤ sys_freq / freq)
      × (sys_freq / freq < 2 * div + 4)
      × (clk_div sys_freq freq ≡ (if ltb freq (sys_freq / (2 * div + 2)) then div + 1 else div))
unfolding clk_div
clk_div_fits sys_freq freq word fast slow =
    let positive : 0 < freq = omega arith in
    let two : 2 ≤ sys_freq / freq = within sys_freq 2 freq (omega arith) positive (omega arith) in
    let q = sys_freq / freq in
    let div = (q - 2) / 2 in
    let fits : sys_freq < freq * 131072 = (div-lt_iff_lt-mul (omega arith)).0 fast in
    let bound : q < 131072 = (div-lt_iff_lt-mul positive).1 (omega (arith, fits)) in
    let whole : u16 (sub32 q 2 / 2) ≡ div = omega arith in
    let next : u16 (div + 1) ≡ div + 1 = omega arith in
    let divides : ltb freq (sys_freq / 2) ≡ true = ground arith in
    (omega arith, omega arith, rw (divides, whole, next, clk_div))

best_divider :
    (sys_freq freq d : ℕ)
    → sys_freq < 2 ^ 32
    → min_freq sys_freq < freq
    → sys_freq / (2 * d + 2) ≤ freq
    → let div = clk_div sys_freq freq in
      (sys_freq / (2 * div + 2) ≤ freq) × (sys_freq / (2 * d + 2) ≤ sys_freq / (2 * div + 2))
unfolding clk_div
best_divider sys_freq freq d word fast slower = elim (Bool-cases (ltb freq (sys_freq / 2))) [
  | inr quick ↦
      let none_needed : clk_div sys_freq freq ≡ 0 = rw (quick, clk_div) in
      rw none_needed
        (ground (arith, quick), smaller sys_freq 2 (2 * d + 2) (omega arith) (omega arith))
  | inl slow ↦
      let div = (sys_freq / freq - 2) / 2 in
      let (low, high, divider) = clk_div_fits sys_freq freq word fast (ground (arith, slow)) in
      let positive : 0 < freq = omega arith in
      elim (Bool-cases (ltb freq (sys_freq / (2 * div + 2)))) [
        | inr enough ↦
            let exact : clk_div sys_freq freq ≡ div = rw enough at divider in
            let at_least : freq ≤ sys_freq / (2 * div + 2) =
              within sys_freq freq (2 * div + 2) positive (omega arith) low in
            rw exact (ground (arith, enough), le_trans slower at_least)
        | inl over ↦
            let next : clk_div sys_freq freq ≡ div + 1 = rw over at divider in
            let below : sys_freq / (2 * (div + 1) + 2) ≤ freq =
              above sys_freq freq (2 * (div + 1) + 2) positive (omega arith) in
            let larger : div < d = elim (Bool-cases (ltb div d)) [
              | inl above_it ↦ ground (arith, above_it)
              | inr not_above ↦
                  let faster : sys_freq / (2 * div + 2) ≤ sys_freq / (2 * d + 2) =
                    smaller sys_freq (2 * d + 2) (2 * div + 2) (omega arith)
                      (ground (arith, not_above)) in
                  absurd (ground (arith, over, faster, slower))
            ] in
            rw next (
              below,
              smaller sys_freq (2 * (div + 1) + 2) (2 * d + 2) (omega arith)
                  (omega (arith, larger)),
            )
      ]
]

-- The frequency that is set, for one above the least, does not exceed the one asked for, and is at
-- least that of every divider that does not exceed it.
pub spi_true_slave_freq-best :
    (sys_freq freq d : ℕ)
    → sys_freq < 2 ^ 32
    → min_freq sys_freq < freq
    → sys_freq / (2 * d + 2) ≤ freq
    → (spi_true_slave_freq sys_freq freq ≤ freq)
      × (sys_freq / (2 * d + 2) ≤ spi_true_slave_freq sys_freq freq)
unfolding spi_true_slave_freq
spi_true_slave_freq-best sys_freq freq d word fast slower =
    best_divider sys_freq freq d word fast slower
