-- ===== src/SpiHost/Reset.antt =====
-- The software reset of the SPI host, and the options of a slave.
use core_v_mini_mcu.Base.{
  ℕ, zero, suc, ◌≡◌, refl, ap, Bool, true, false, not, ◌||◌, ◌==◌, none, some, Option,
}
use core_v_mini_mcu.SpiHost.Reg
use core_v_mini_mcu.SpiHost.{
  Host, Device, settle, put, get, txqd, rxqd, is_active, spi_get_status, reset_wait, spi_sw_reset,
  spi_set_configopts,
}

-- The status still shows activity or a word in a queue.
abbrev pub is_draining : ℕ → Bool
is_draining status = is_active status || not (txqd status == 0) || not (rxqd status == 0)

reset_wait-draining :
    (rounds status : ℕ) → is_draining status ≡ true → reset_wait rounds status ≡ none
unfolding reset_wait
reset_wait-draining zero status h = refl
reset_wait-draining (suc rounds) status h = rw (h, reset_wait) (reset_wait-draining rounds status h)

-- A status without activity and with empty queues ends the wait.
pub reset_wait-drained :
    (rounds status : ℕ) → is_draining status ≡ false → reset_wait (suc rounds) status ≡ some tt
unfolding reset_wait
reset_wait-drained rounds status h = rw (h, reset_wait)

-- If the device is not idle and empty in the first status read after the reset bit is set, the reset
-- does not return, in any number of rounds and whatever the device does.
pub spi_sw_reset-hangs :
    (device : Device) (rounds : ℕ) (h : Host)
    → is_draining (spi_get_status (settle device (put Reg.control 1 30 1 h))) ≡ true
    → spi_sw_reset device rounds h ≡ none
unfolding spi_sw_reset
spi_sw_reset-hangs device rounds h busy =
    let asserted = settle device (put Reg.control 1 30 1 h) in
    let stuck : reset_wait rounds (spi_get_status asserted) ≡ none =
      reset_wait-draining rounds (spi_get_status asserted) busy in
    ap
      (λ (waited : Option (Unit {0})). elim waited [
        | none ↦ none
        | some u ↦ some (put Reg.control 1 30 0 asserted)
      ])
      stuck

-- The options of the second slave are not written to its register, CONFIGOPTS_1 at 0x1c, which keeps
-- what it held.
pub spi_set_configopts-second :
    (conf_reg : ℕ) (h : Host) → get 0x1c (spi_set_configopts 1 conf_reg h).0 ≡ get 0x1c h
unfolding spi_set_configopts
spi_set_configopts-second conf_reg h = refl
