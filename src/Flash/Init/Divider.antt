-- ===== src/Flash/Init/Divider.antt =====
-- w25q.c: the clock of the flash, and the one that the SDK of the SPI host sets for a slave.
use core_v_mini_mcu.Base.{ℕ, ◌+◌, ◌*◌, ◌/◌, ◌^◌, ◌≤◌, ◌<◌, ◌≡◌, refl, sym, subst, arith, u16, sub32}
use core_v_mini_mcu.Flash.Init.{flash_clk_div, flash_clk_max_hz}
use core_v_mini_mcu.SpiSdk.Slave.{clk_div, spi_true_slave_freq}
use core_v_mini_mcu.SpiSdk.Slave.Freq.{spi_true_slave_freq-best}

-- The driver of the flash and the SDK compute the same divider.
flash_clk_div-clk_div : (core_clk : ℕ) → flash_clk_div core_clk ≡ clk_div core_clk flash_clk_max_hz
unfolding flash_clk_div clk_div
flash_clk_div-clk_div core_clk =
    let div = u16 (sub32 (core_clk / flash_clk_max_hz) 2 / 2) in
    let same : 2 + 2 * div ≡ 2 * div + 2 = omega arith in rw same refl

-- The divider of the flash is the one that the SDK sets for a slave of the highest frequency of the
-- flash, and for a 32-bit core clock the clock of the flash is then at most that frequency, and at
-- least that of every divider with which it is so.
pub flash_clk_div-best :
    (core_clk d : ℕ)
    → core_clk < 2 ^ 32
    → core_clk / (2 * d + 2) ≤ flash_clk_max_hz
    → (flash_clk_div core_clk ≡ clk_div core_clk flash_clk_max_hz)
      × (core_clk / (2 * flash_clk_div core_clk + 2) ≤ flash_clk_max_hz)
      × (core_clk / (2 * d + 2) ≤ core_clk / (2 * flash_clk_div core_clk + 2))
unfolding spi_true_slave_freq
flash_clk_div-best core_clk d word slower =
    let same = flash_clk_div-clk_div core_clk in
    let (slow_enough, best) =
      subst
        (λ (div : ℕ).
          (core_clk / (2 * div + 2) ≤ flash_clk_max_hz)
          × (core_clk / (2 * d + 2) ≤ core_clk / (2 * div + 2)))
        (sym same)
        (spi_true_slave_freq-best core_clk flash_clk_max_hz d word (omega arith) slower) in
    (same, slow_enough, best)
