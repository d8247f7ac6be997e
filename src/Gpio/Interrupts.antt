-- ===== src/Gpio/Interrupts.antt =====
-- The interrupts of a pin, and the status that is read for it.
use core_v_mini_mcu.Base.{
  ℕ, ◌<◌, ◌≤◌, ◌≡◌, refl, arith, ltb, Bool, true, false, eq→==, ◌∙◌, if◌then◌else◌,
}
use core_v_mini_mcu.Bitfield.{bitfield_read, bitfield_write}
use core_v_mini_mcu.Gpio.Reg
use core_v_mini_mcu.Gpio.{
  Limits, Gpio, IntrType, edge_rising, edge_falling, level_low, level_high, edge_rising_falling,
  edge_rising_level_low, edge_falling_level_high, other, is_outside, put_pin, select_gpio_domain,
  gpio_intr_en_rise, gpio_intr_en_fall, gpio_intr_en_lvl_high, gpio_intr_en_lvl_low,
  gpio_intr_dis_all, enable_type, gpio_intr_en, gpio_intr_check_stat,
}
use core_v_mini_mcu.Mmio.{Region, mmio_region_read32}
use core_v_mini_mcu.Bitfield.OneBit.{read_bit-write}

-- The bit of a pin that was written last.
written : (b pin v : ℕ) → pin < 32 → v ≤ 1 → bitfield_read (bitfield_write b 1 pin v) 1 pin ≡ v
written b pin v h s = read_bit-write b pin pin v h s ∙ rw (eq→== pin pin refl)

high : (b pin : ℕ) → pin < 32 → bitfield_read (bitfield_write b 1 pin 1) 1 pin ≡ 1
high b pin h = written b pin 1 h (omega arith)

low : (b pin : ℕ) → pin < 32 → bitfield_read (bitfield_write b 1 pin 0) 1 pin ≡ 0
low b pin h = written b pin 0 h (omega arith)

-- The bit of a pin in a register of the domain of the pin: always-on below the limit, and that of the
-- other peripheral from it on.
abbrev pub bit : Limits → Gpio → ℕ → ℕ → ℕ
bit l g offset pin =
    bitfield_read (mmio_region_read32 (if ltb pin l.ao_domain_limit then g.ao else g.peri) offset) 1
      pin

-- The events that a type of interrupt names.
abbrev pub on_rise : IntrType → ℕ
on_rise edge_rising = 1
on_rise edge_rising_falling = 1
on_rise edge_rising_level_low = 1
on_rise _ = 0

abbrev pub on_fall : IntrType → ℕ
on_fall edge_falling = 1
on_fall edge_rising_falling = 1
on_fall edge_falling_level_high = 1
on_fall _ = 0

abbrev pub on_high : IntrType → ℕ
on_high level_high = 1
on_high edge_falling_level_high = 1
on_high _ = 0

abbrev pub on_low : IntrType → ℕ
on_low level_low = 1
on_low edge_rising_level_low = 1
on_low _ = 0

-- The four enable bits of a pin in its domain are those that the type names.
abbrev pub IsEnabledFor : Limits → Gpio → ℕ → IntrType → Type 0
IsEnabledFor l g pin type =
    (bit l g Reg.intrpt_rise_en0 pin ≡ on_rise type)
    × (bit l g Reg.intrpt_fall_en0 pin ≡ on_fall type)
    × (bit l g Reg.intrpt_lvl_high_en0 pin ≡ on_high type)
    × (bit l g Reg.intrpt_lvl_low_en0 pin ≡ on_low type)

-- The registers of the domain that a pin is not in.
abbrev pub other_domain : Limits → Gpio → ℕ → Region
other_domain l g pin = if ltb pin l.ao_domain_limit then g.peri else g.ao

within : (l : Limits) (pin : ℕ) → pin < l.max_pin → is_outside l pin ≡ false
within l pin h = ground arith

enabled_in_domain :
    (l : Limits) (pin : ℕ) (type : IntrType) (g : Gpio) (ao : Bool)
    → is_outside l pin ≡ false
    → pin < 32
    → ltb pin l.ao_domain_limit ≡ ao
    → let g' = (gpio_intr_en l pin type g).0 in
      IsEnabledFor l g' pin type × (other_domain l g' pin ≡ other_domain l g pin)
unfolding gpio_intr_en enable_type gpio_intr_dis_all gpio_intr_en_rise gpio_intr_en_fall
    gpio_intr_en_lvl_high gpio_intr_en_lvl_low put_pin select_gpio_domain
enabled_in_domain l pin edge_rising g true o h e =
    rw (o, e) ((high _ pin h, low _ pin h, low _ pin h, low _ pin h), refl)
enabled_in_domain l pin edge_rising g false o h e =
    rw (o, e) ((high _ pin h, low _ pin h, low _ pin h, low _ pin h), refl)
enabled_in_domain l pin edge_falling g true o h e =
    rw (o, e) ((low _ pin h, high _ pin h, low _ pin h, low _ pin h), refl)
enabled_in_domain l pin edge_falling g false o h e =
    rw (o, e) ((low _ pin h, high _ pin h, low _ pin h, low _ pin h), refl)
enabled_in_domain l pin level_low g true o h e =
    rw (o, e) ((low _ pin h, low _ pin h, low _ pin h, high _ pin h), refl)
enabled_in_domain l pin level_low g false o h e =
    rw (o, e) ((low _ pin h, low _ pin h, low _ pin h, high _ pin h), refl)
enabled_in_domain l pin level_high g true o h e =
    rw (o, e) ((low _ pin h, low _ pin h, high _ pin h, low _ pin h), refl)
enabled_in_domain l pin level_high g false o h e =
    rw (o, e) ((low _ pin h, low _ pin h, high _ pin h, low _ pin h), refl)
enabled_in_domain l pin edge_rising_falling g true o h e =
    rw (o, e) ((high _ pin h, high _ pin h, low _ pin h, low _ pin h), refl)
enabled_in_domain l pin edge_rising_falling g false o h e =
    rw (o, e) ((high _ pin h, high _ pin h, low _ pin h, low _ pin h), refl)
enabled_in_domain l pin edge_rising_level_low g true o h e =
    rw (o, e) ((high _ pin h, low _ pin h, low _ pin h, high _ pin h), refl)
enabled_in_domain l pin edge_rising_level_low g false o h e =
    rw (o, e) ((high _ pin h, low _ pin h, low _ pin h, high _ pin h), refl)
enabled_in_domain l pin edge_falling_level_high g true o h e =
    rw (o, e) ((low _ pin h, high _ pin h, high _ pin h, low _ pin h), refl)
enabled_in_domain l pin edge_falling_level_high g false o h e =
    rw (o, e) ((low _ pin h, high _ pin h, high _ pin h, low _ pin h), refl)
enabled_in_domain l pin other g true o h e =
    rw (o, e) ((low _ pin h, low _ pin h, low _ pin h, low _ pin h), refl)
enabled_in_domain l pin other g false o h e =
    rw (o, e) ((low _ pin h, low _ pin h, low _ pin h, low _ pin h), refl)

-- Enabling the interrupt of a pin within the range of 32 pins leaves the four enable bits of the pin
-- as the type names them, in the registers of the always-on domain for a pin below its limit and of
-- the other peripheral for the other pins, whatever was enabled and selected before; a value outside
-- the type leaves none. The registers of the other one of the two are as they were.
pub gpio_intr_en-IsEnabledFor :
    (l : Limits) (pin : ℕ) (type : IntrType) (g : Gpio)
    → pin < l.max_pin
    → l.max_pin ≤ 32
    → let g' = (gpio_intr_en l pin type g).0 in
      IsEnabledFor l g' pin type × (other_domain l g' pin ≡ other_domain l g pin)
gpio_intr_en-IsEnabledFor l pin type g h m =
    enabled_in_domain l pin type g (ltb pin l.ao_domain_limit) (within l pin h) (omega arith) refl

-- While the peripheral of the always-on domain is selected, the pending status that is read for any
-- pin does not depend on the registers of the other peripheral.
pub gpio_intr_check_stat-ignores_peri :
    (l : Limits) (pin : ℕ) (g : Gpio) (other_registers : Region)
    → g.in_ao ≡ true
    → gpio_intr_check_stat l pin (record g { peri = other_registers })
      ≡ gpio_intr_check_stat l pin g
unfolding gpio_intr_check_stat
gpio_intr_check_stat-ignores_peri l pin g other_registers h = rw h
