-- ===== src/Examples/Gpio.antt =====
-- The theorems on the pins at two blank peripherals, with pin 9 in the domain that is not always on.
use core_v_mini_mcu.Base.{◌≡◌, arith, true}
use core_v_mini_mcu.Gpio.{Limits, Gpio, edge_rising_level_low, gpio_intr_en}
use core_v_mini_mcu.Gpio.Interrupts.{IsEnabledFor, gpio_intr_en-IsEnabledFor}

abbrev limits : Limits
limits = record { max_pin = 32; ao_domain_limit = 8 }

abbrev blank : Gpio
blank = record { ao = λ j. 0; peri = λ j. 0; in_ao = true }

gpio_intr_en-IsEnabledFor_example :
    let g' = (gpio_intr_en limits 9 edge_rising_level_low blank).0 in
    IsEnabledFor limits g' 9 edge_rising_level_low × (g'.ao ≡ blank.ao)
gpio_intr_en-IsEnabledFor_example =
    gpio_intr_en-IsEnabledFor limits 9 edge_rising_level_low blank (omega arith) (omega arith)
