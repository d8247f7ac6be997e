-- ===== src/Gpio.antt =====
-- sw/device/lib/drivers/gpio/gpio.c: the pins. The two peripherals, in the always-on domain and in
-- the other one, are regions; `gpio_perif`, which points to one of them, is the Boolean `in_ao`. The
-- number of pins and the limit of the always-on domain, which the build generates, are `Limits`.
-- The array of handlers, gpio_config and gpio_reset_all are not modelled.
pub mod Reg
pub mod Output
pub mod Interrupts
use core_v_mini_mcu.Base.{
  ℕ, zero, suc, ◌+◌, ◌-◌, ◌*◌, ◌/◌, Bool, true, false, ltb, ◌==◌, if◌then◌else◌, Option, none, some,
}
use core_v_mini_mcu.Bitfield.{bitfield_read, bitfield_write}
use core_v_mini_mcu.Gpio.Reg
use core_v_mini_mcu.Mmio.{Region, update, mmio_region_read32, mmio_region_write32}

pub record Limits : Type 0 where
  pub max_pin : ℕ
  pub ao_domain_limit : ℕ

pub record Gpio : Type 0 where
  pub ao : Region
  pub peri : Region
  pub in_ao : Bool

-- `gpio_result_t`
pub data GpioResult : Type 0 where
  gpio_ok gpio_error pin_not_acceptable mode_not_acceptable intr_type_not_acceptable : GpioResult

-- `gpio_intr_type_t`; `other` is a value outside the enumeration.
pub data IntrType : Type 0 where
  edge_rising edge_falling level_low level_high : IntrType
  edge_rising_falling edge_rising_level_low edge_falling_level_high other : IntrType

unfoldable pub select_gpio_domain : Limits → ℕ → Gpio → Gpio
select_gpio_domain l pin g = record g { in_ao = ltb pin l.ao_domain_limit }

-- A register of the peripheral that is selected.
abbrev pub get : Gpio → ℕ → ℕ
get g offset = mmio_region_read32 (if g.in_ao then g.ao else g.peri) offset

abbrev pub set : ℕ → ℕ → Gpio → Gpio
set offset value g = record g {
  ao = if g.in_ao then mmio_region_write32 g.ao offset value else g.ao;
  peri = if g.in_ao then g.peri else mmio_region_write32 g.peri offset value;
}

-- One bit of a register of the peripheral that is selected.
abbrev pub put : ℕ → ℕ → ℕ → Gpio → Gpio
put offset pin value g = set offset (bitfield_write (get g offset) 1 pin value) g

-- `pin > (MAX_PIN-1)`
abbrev pub is_outside : Limits → ℕ → Bool
is_outside l pin = ltb (l.max_pin - 1) pin

-- The domain is selected, then one bit is written.
unfoldable pub put_pin : ℕ → ℕ → Limits → ℕ → Gpio → Gpio × GpioResult
unfolding select_gpio_domain
put_pin offset value l pin g =
    if is_outside l pin
    then (g, pin_not_acceptable)
    else (put offset pin value (select_gpio_domain l pin g), gpio_ok)

-- The guard of the code is a conjunction that no pin meets.
unfoldable pub gpio_set_mode : Limits → ℕ → ℕ → Gpio → Gpio × GpioResult
unfolding select_gpio_domain
gpio_set_mode l pin mode g =
    let h = select_gpio_domain l pin g in
    if ltb pin 16
    then (set Reg.gpio_mode0 (bitfield_write (get h Reg.gpio_mode0) 3 (2 * pin) mode) h, gpio_ok)
    else (
      set Reg.gpio_mode1 (bitfield_write (get h Reg.gpio_mode1) 3 (2 * (pin - 16)) mode) h,
      gpio_ok,
    )

unfoldable pub gpio_en_input_sampling : Limits → ℕ → Gpio → Gpio × GpioResult
unfolding put_pin
gpio_en_input_sampling l pin g = put_pin Reg.gpio_en0 1 l pin g

unfoldable pub gpio_dis_input_sampling : Limits → ℕ → Gpio → Gpio × GpioResult
unfolding put_pin
gpio_dis_input_sampling l pin g = put_pin Reg.gpio_en0 0 l pin g

unfoldable pub gpio_intr_en_rise : Limits → ℕ → Gpio → Gpio × GpioResult
unfolding put_pin
gpio_intr_en_rise l pin g = put_pin Reg.intrpt_rise_en0 1 l pin g

unfoldable pub gpio_intr_en_fall : Limits → ℕ → Gpio → Gpio × GpioResult
unfolding put_pin
gpio_intr_en_fall l pin g = put_pin Reg.intrpt_fall_en0 1 l pin g

unfoldable pub gpio_intr_en_lvl_high : Limits → ℕ → Gpio → Gpio × GpioResult
unfolding put_pin
gpio_intr_en_lvl_high l pin g = put_pin Reg.intrpt_lvl_high_en0 1 l pin g

unfoldable pub gpio_intr_en_lvl_low : Limits → ℕ → Gpio → Gpio × GpioResult
unfolding put_pin
gpio_intr_en_lvl_low l pin g = put_pin Reg.intrpt_lvl_low_en0 1 l pin g

unfoldable pub gpio_intr_dis_rise : Limits → ℕ → Gpio → Gpio × GpioResult
unfolding put_pin
gpio_intr_dis_rise l pin g = put_pin Reg.intrpt_rise_en0 0 l pin g

unfoldable pub gpio_intr_dis_fall : Limits → ℕ → Gpio → Gpio × GpioResult
unfolding put_pin
gpio_intr_dis_fall l pin g = put_pin Reg.intrpt_fall_en0 0 l pin g

unfoldable pub gpio_intr_dis_lvl_high : Limits → ℕ → Gpio → Gpio × GpioResult
unfolding put_pin
gpio_intr_dis_lvl_high l pin g = put_pin Reg.intrpt_lvl_high_en0 0 l pin g

unfoldable pub gpio_intr_dis_lvl_low : Limits → ℕ → Gpio → Gpio × GpioResult
unfolding put_pin
gpio_intr_dis_lvl_low l pin g = put_pin Reg.intrpt_lvl_low_en0 0 l pin g

unfoldable pub gpio_intr_clear_stat_rise : Limits → ℕ → Gpio → Gpio × GpioResult
unfolding put_pin
gpio_intr_clear_stat_rise l pin g = put_pin Reg.intrpt_rise_status0 1 l pin g

unfoldable pub gpio_intr_clear_stat_fall : Limits → ℕ → Gpio → Gpio × GpioResult
unfolding put_pin
gpio_intr_clear_stat_fall l pin g = put_pin Reg.intrpt_fall_status0 1 l pin g

unfoldable pub gpio_intr_clear_stat_lvl_low : Limits → ℕ → Gpio → Gpio × GpioResult
unfolding put_pin
gpio_intr_clear_stat_lvl_low l pin g = put_pin Reg.intrpt_lvl_low_status0 1 l pin g

unfoldable pub gpio_intr_clear_stat_lvl_high : Limits → ℕ → Gpio → Gpio × GpioResult
unfolding put_pin
gpio_intr_clear_stat_lvl_high l pin g = put_pin Reg.intrpt_lvl_high_status0 1 l pin g

unfoldable pub gpio_intr_clear_stat : Limits → ℕ → Gpio → Gpio × GpioResult
unfolding put_pin
gpio_intr_clear_stat l pin g = put_pin Reg.intrpt_status0 1 l pin g

unfoldable pub gpio_write : Limits → ℕ → Bool → Gpio → Gpio × GpioResult
unfolding put_pin
gpio_write l pin val g = put_pin Reg.gpio_out0 (if val then 1 else 0) l pin g

unfoldable pub gpio_toggle : Limits → ℕ → Gpio → Gpio × GpioResult
unfolding select_gpio_domain
gpio_toggle l pin g =
    let h = select_gpio_domain l pin g in
    if is_outside l pin then (g, pin_not_acceptable) else (
      put Reg.gpio_out0 pin (if bitfield_read (get h Reg.gpio_out0) 1 pin == 0 then 1 else 0) h,
      gpio_ok,
    )

unfoldable pub gpio_intr_dis_all : Limits → ℕ → Gpio → Gpio × GpioResult
unfolding select_gpio_domain
gpio_intr_dis_all l pin g = if is_outside l pin then (g, pin_not_acceptable) else (
  put Reg.intrpt_lvl_low_en0 pin 0 (
      put Reg.intrpt_lvl_high_en0 pin 0 (
        put Reg.intrpt_fall_en0 pin 0
          (put Reg.intrpt_rise_en0 pin 0 (select_gpio_domain l pin g)))),
  gpio_ok,
)

-- The cases of the switch.
unfoldable pub enable_type : Limits → ℕ → IntrType → Gpio → Gpio × GpioResult
unfolding gpio_intr_en_rise gpio_intr_en_fall gpio_intr_en_lvl_low gpio_intr_en_lvl_high
enable_type l pin edge_rising g = ((gpio_intr_en_rise l pin g).0, gpio_ok)
enable_type l pin edge_falling g = ((gpio_intr_en_fall l pin g).0, gpio_ok)
enable_type l pin level_low g = ((gpio_intr_en_lvl_low l pin g).0, gpio_ok)
enable_type l pin level_high g = ((gpio_intr_en_lvl_high l pin g).0, gpio_ok)
enable_type l pin edge_rising_falling g =
    ((gpio_intr_en_fall l pin (gpio_intr_en_rise l pin g).0).0, gpio_ok)
enable_type l pin edge_rising_level_low g =
    ((gpio_intr_en_lvl_low l pin (gpio_intr_en_rise l pin g).0).0, gpio_ok)
enable_type l pin edge_falling_level_high g =
    ((gpio_intr_en_lvl_high l pin (gpio_intr_en_fall l pin g).0).0, gpio_ok)
enable_type l pin other g = (g, intr_type_not_acceptable)

unfoldable pub gpio_intr_en : Limits → ℕ → IntrType → Gpio → Gpio × GpioResult
unfolding gpio_intr_dis_all enable_type
gpio_intr_en l pin type g =
    if is_outside l pin
    then (g, pin_not_acceptable)
    else enable_type l pin type (gpio_intr_dis_all l pin g).0

-- The status of a pin: the domain is selected first.
unfoldable pub read_pin : ℕ → Limits → ℕ → Gpio → (Gpio × ℕ) × GpioResult
unfolding select_gpio_domain
read_pin offset l pin g =
    let h = select_gpio_domain l pin g in
    if is_outside l pin
    then ((g, 0), pin_not_acceptable)
    else ((h, bitfield_read (get h offset) 1 pin), gpio_ok)

unfoldable pub gpio_intr_check_stat_rise : Limits → ℕ → Gpio → (Gpio × ℕ) × GpioResult
unfolding read_pin
gpio_intr_check_stat_rise l pin g = read_pin Reg.intrpt_rise_status0 l pin g

unfoldable pub gpio_intr_check_stat_fall : Limits → ℕ → Gpio → (Gpio × ℕ) × GpioResult
unfolding read_pin
gpio_intr_check_stat_fall l pin g = read_pin Reg.intrpt_fall_status0 l pin g

unfoldable pub gpio_intr_check_stat_lvl_low : Limits → ℕ → Gpio → (Gpio × ℕ) × GpioResult
unfolding read_pin
gpio_intr_check_stat_lvl_low l pin g = read_pin Reg.intrpt_lvl_low_status0 l pin g

unfoldable pub gpio_intr_check_stat_lvl_high : Limits → ℕ → Gpio → (Gpio × ℕ) × GpioResult
unfolding read_pin
gpio_intr_check_stat_lvl_high l pin g = read_pin Reg.intrpt_lvl_high_status0 l pin g

unfoldable pub gpio_read : Limits → ℕ → Gpio → (Gpio × Option ℕ) × GpioResult
unfolding select_gpio_domain
gpio_read l pin g =
    let h = select_gpio_domain l pin g in
    if is_outside l pin
    then ((g, none), pin_not_acceptable)
    else ((h, some (bitfield_read (get h Reg.gpio_in0) 1 pin)), gpio_ok)

-- No domain is selected here.
unfoldable pub gpio_intr_check_stat : Limits → ℕ → Gpio → ℕ × GpioResult
gpio_intr_check_stat l pin g =
    if is_outside l pin
    then (0, pin_not_acceptable)
    else (bitfield_read (get g Reg.intrpt_status0) 1 pin, gpio_ok)

unfoldable pub gpio_intr_set_mode : Limits → ℕ → ℕ → Gpio → Gpio
unfolding select_gpio_domain
gpio_intr_set_mode l pin mode g = put Reg.cfg 0 mode (select_gpio_domain l pin g)

unfoldable pub gpio_reset : Limits → ℕ → Gpio → Gpio × GpioResult
unfolding select_gpio_domain
gpio_reset l pin g =
    if is_outside l pin
    then (g, pin_not_acceptable)
    else (let g1 = gpio_intr_set_mode l pin 0 g in
        let g2 = (gpio_set_mode l pin 0 g1).0 in
        let g3 = (gpio_dis_input_sampling l pin g2).0 in
        let g4 = put Reg.gpio_clear0 pin 0 (select_gpio_domain l pin g3) in
        let g5 = put Reg.gpio_set0 pin 0 g4 in
        let g6 = (gpio_intr_dis_all l pin g5).0 in ((gpio_intr_clear_stat l pin g6).0, gpio_ok))
