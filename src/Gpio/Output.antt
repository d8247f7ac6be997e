-- ===== src/Gpio/Output.antt =====
-- The output of a pin.
use core_v_mini_mcu.Base.{
  ℕ, ◌<◌, ◌≤◌, ◌≡◌, refl, arith, ltb, ◌==◌, Bool, if◌then◌else◌, true, false,
}
use core_v_mini_mcu.Bitfield.{bitfield_read, bitfield_write}
use core_v_mini_mcu.Gpio.Reg
use core_v_mini_mcu.Gpio.{Limits, Gpio, is_outside, select_gpio_domain, gpio_toggle}
use core_v_mini_mcu.Mmio.{mmio_region_read32}
use core_v_mini_mcu.Bitfield.Bits.{bitfield_read-lt}
use core_v_mini_mcu.Bitfield.OneBit.{read_bit-write}

abbrev flipped : ℕ → ℕ → ℕ
flipped word pin = bitfield_write word 1 pin (if bitfield_read word 1 pin == 0 then 1 else 0)

flipped-flipped :
    (word pin j : ℕ)
    → pin < 32
    → j < 32
    → bitfield_read (flipped (flipped word pin) pin) 1 j ≡ bitfield_read word 1 j
flipped-flipped word pin j h k =
    let first : ℕ = if bitfield_read word 1 pin == 0 then 1 else 0 in
    let second : ℕ = if bitfield_read (flipped word pin) 1 pin == 0 then 1 else 0 in
    let bound : bitfield_read word 1 pin < 2 = bitfield_read-lt 1 word 1 pin (omega arith) in
    ground (
      arith,
      bound,
      read_bit-write word pin pin first h (ground arith),
      read_bit-write word pin j first k (ground arith),
      read_bit-write (flipped word pin) pin j second k (ground arith),
    )

-- The output of a pin in the peripheral of its domain.
abbrev pub output : Limits → ℕ → Gpio → ℕ → ℕ
output l pin g j =
    bitfield_read
      (mmio_region_read32 (if ltb pin l.ao_domain_limit then g.ao else g.peri) Reg.gpio_out0) 1 j

toggle_twice :
    (l : Limits) (pin : ℕ) (g : Gpio) (j : ℕ) (ao : Bool)
    → is_outside l pin ≡ false
    → ltb pin l.ao_domain_limit ≡ ao
    → pin < 32
    → j < 32
    → output l pin (gpio_toggle l pin (gpio_toggle l pin g).0).0 j ≡ output l pin g j
unfolding gpio_toggle select_gpio_domain
toggle_twice l pin g j true o e h k =
    rw (o, e) (flipped-flipped (mmio_region_read32 g.ao Reg.gpio_out0) pin j h k)
toggle_twice l pin g j false o e h k =
    rw (o, e) (flipped-flipped (mmio_region_read32 g.peri Reg.gpio_out0) pin j h k)

-- Toggling a pin within the range of 32 pins twice restores the output of every pin of its domain.
pub gpio_toggle-gpio_toggle :
    (l : Limits) (pin : ℕ) (g : Gpio) (j : ℕ)
    → pin < l.max_pin
    → l.max_pin ≤ 32
    → j < 32
    → output l pin (gpio_toggle l pin (gpio_toggle l pin g).0).0 j ≡ output l pin g j
gpio_toggle-gpio_toggle l pin g j h m k =
    toggle_twice l pin g j (ltb pin l.ao_domain_limit) (ground arith) refl (omega arith) k
