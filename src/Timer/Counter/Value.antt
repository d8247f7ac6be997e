-- ===== src/Timer/Counter/Value.antt =====
-- The value that is read is one that the counter had: no halves of two different values are joined.
use core_v_mini_mcu.Base.{
  ℕ, zero, suc, refl, ap, ◌∙◌, ◌+◌, ◌*◌, ◌/◌, ◌%◌, ◌^◌, ◌≤◌, ◌<◌, ◌≡◌, ◌≢◌, arith, true, false,
  ◌==◌, Bool-cases, inl, inr, some,
}
use core_v_mini_mcu.Mmio.{Region, mmio_region_read32}
use core_v_mini_mcu.Timer.Compare.{Config, ok, reg_for_hart, no_hart}
use core_v_mini_mcu.Timer.Counter.{read_loop, rv_timer_counter_read, timer_v_lower0, timer_v_upper0}

-- The two registers hold the halves of a counter of 64 bits that does not go back.
pub record Counts (device : ℕ → Region) (hart_id : ℕ) (counter : ℕ → ℕ) : Type 0 where
  pub upper :
      (i : ℕ)
      → mmio_region_read32 (device i) (reg_for_hart hart_id timer_v_upper0) ≡ counter i / 2 ^ 32
  pub lower :
      (i : ℕ)
      → mmio_region_read32 (device i) (reg_for_hart hart_id timer_v_lower0) ≡ counter i % 2 ^ 32
  pub word : (i : ℕ) → counter i < 2 ^ 64
  pub later : (i j : ℕ) → i ≤ j → counter i ≤ counter j

module _ (device : ℕ → Region) (hart_id : ℕ) (counter : ℕ → ℕ)
    (counts : Counts device hart_id counter) where
  -- The halves that a round reads are those of one value.
  halves :
      (at : ℕ)
      → counter at / 2 ^ 32 ≡ counter (at + 2) / 2 ^ 32
      → counter at / 2 ^ 32 * 2 ^ 32 + counter (at + 1) % 2 ^ 32 ≡ counter (at + 1)
  halves at steady =
      let first = counts.later at (at + 1) (omega arith) in
      let second : counter (at + 1) ≤ counter (at + 2) =
        counts.later (at + 1) (at + 2) (omega arith) in
      omega (arith, first, second, steady)

  -- A round that finds another upper half has seen it grow.
  grows :
      (at : ℕ)
      → (counter at / 2 ^ 32 == counter (at + 2) / 2 ^ 32) ≡ false
      → counter at / 2 ^ 32 + 1 ≤ counter (at + 3) / 2 ^ 32
  grows at passed =
      let first = counts.later at (at + 1) (omega arith) in
      let second : counter (at + 1) ≤ counter (at + 2) =
        counts.later (at + 1) (at + 2) (omega arith) in
      let third : counter (at + 2) ≤ counter (at + 3) =
        counts.later (at + 2) (at + 3) (omega arith) in
      let upper : counter at / 2 ^ 32 ≢ counter (at + 2) / 2 ^ 32 = ground (arith, passed) in
      ground (arith, upper, first, second, third)

  read_loop-counter :
      (rounds at : ℕ)
      → 2 ^ 32 ≤ counter at / 2 ^ 32 + rounds
      → (i : ℕ) × (read_loop device hart_id rounds at ≡ some (counter i))
  unfolding read_loop
  read_loop-counter zero at enough = absurd (omega (arith, enough, counts.word at))
  read_loop-counter (suc rounds) at enough =
      let half = counts.upper at in
      let low = counts.lower (at + 1) in
      let check = counts.upper (at + 2) in
      elim (Bool-cases (counter at / 2 ^ 32 == counter (at + 2) / 2 ^ 32)) [
        | inl steady ↦ (
          at + 1,
          rw (half, check, steady, half, low, read_loop)
              (ap some (halves at (ground (arith, steady)))),
        )
        | inr passed ↦
            let next : read_loop device hart_id (suc rounds) at
                ≡ read_loop device hart_id rounds (at + 3) =
              rw (half, check, passed, read_loop) refl in
            let (i, found) =
              read_loop-counter rounds (at + 3) (omega (arith, enough, grows at passed)) in
            (i, next ∙ found)
      ]

  -- If the registers hold the halves of a counter of 64 bits that does not go back, the read
  -- returns within 2^32 rounds, with a value that the counter had at one of its accesses.
  pub rv_timer_counter_read-counter :
      (config : Config) (rounds : ℕ)
      → no_hart true config hart_id ≡ false
      → 2 ^ 32 ≤ rounds
      → (i : ℕ) × (rv_timer_counter_read device true config hart_id true rounds
          ≡ some (ok, some (counter i)))
  unfolding rv_timer_counter_read
  rv_timer_counter_read-counter config rounds there enough =
      let (i, found) = read_loop-counter rounds 0 (omega (arith, enough)) in
      (i, rw (there, found) refl)
