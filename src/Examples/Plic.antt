-- ===== src/Examples/Plic.antt =====
-- The theorems on the interrupt controller at a small set of interrupt numbers.
use core_v_mini_mcu.Base.{◌≡◌, arith, ◌==◌, if◌then◌else◌, some}
use core_v_mini_mcu.Mmio.{Region}
use core_v_mini_mcu.Plic.{ok, Numbers, plic_irq_set_enabled, plic_irq_get_enabled}
use core_v_mini_mcu.Plic.Enable.{plic_irq_set-get_enabled}

abbrev numbers : Numbers
numbers = record {
  uart_id_end = 8;
  gpio_id_end = 32;
  i2c_id_end = 48;
  spi_id = 49;
  i2s_id = 50;
  dma_id = 51;
  ext_irq_start = 52;
  qty_intr = 64;
}

-- Every register holds 53, so this is the interrupt that is claimed.
abbrev claimed : Region
claimed j = 53

plic_irq_set-get_enabled_example :
    let (r', result) = plic_irq_set_enabled claimed 40 1 in
    (result ≡ ok)
    × (plic_irq_get_enabled r' 41
        ≡ (if 41 == 40 then (ok, some 1) else plic_irq_get_enabled claimed 41))
plic_irq_set-get_enabled_example =
    plic_irq_set-get_enabled claimed 40 1 41 (omega arith) (omega arith) (omega arith)
