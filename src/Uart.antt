-- ===== src/Uart.antt =====
-- sw/device/lib/drivers/uart: the driver of the serial line. `none` means that a loop on the status
-- still runs. Writing UINT32_MAX to the interrupt state and the two bits that clear the queues are
-- plain writes here: what they do is the device's.
pub mod Baud
pub mod Bytes
use mathlib.Core.Option
use core_v_mini_mcu.Base.{
  ℕ, zero, suc, ◌+◌, ◌*◌, ◌/◌, ◌%◌, ◌^◌, bit_and, Bool, true, false, not, ◌||◌, ◌==◌, if◌then◌else◌,
  Option, none, some, List, [], ◌∷◌, ◌++◌,
}
use core_v_mini_mcu.Bitfield.{
  Field, bitfield_bit32_read, bitfield_bit32_write, bitfield_field32_read, bitfield_field32_write,
}
use core_v_mini_mcu.Mmio.{Region, mmio_region_read32, mmio_region_write32, uint32_max}

abbrev pub intr_state : ℕ
intr_state = 0x0

abbrev pub intr_enable : ℕ
intr_enable = 0x4

abbrev pub ctrl : ℕ
ctrl = 0xc

abbrev pub status : ℕ
status = 0x10

abbrev pub rdata : ℕ
rdata = 0x14

abbrev pub wdata : ℕ
wdata = 0x18

abbrev pub fifo_ctrl : ℕ
fifo_ctrl = 0x1c

abbrev pub ovrd : ℕ
ovrd = 0x24

abbrev pub timeout_ctrl : ℕ
timeout_ctrl = 0x2c

abbrev pub nco_width : ℕ
nco_width = 16

abbrev pub nco_mask : ℕ
nco_mask = 0xffff

abbrev pub nco_field : Field
nco_field = record { mask = nco_mask; index = 16 }

abbrev pub byte_field : Field
byte_field = record { mask = 0xff; index = 0 }

-- The members of `system_error_t` that the driver returns.
pub data SystemError : Type 0 where
  error_ok error_uart_invalid_argument error_uart_bad_baud_rate : SystemError

-- `uart_t`, without the address of the registers.
pub record Uart : Type 0 where
  pub baudrate : ℕ
  pub clk_freq_hz : ℕ

-- The registers, the words that went to WDATA and those that come from RDATA.
pub record Line : Type 0 where
  pub regs : Region
  pub sent : List ℕ
  pub incoming : ℕ → ℕ
  pub taken : ℕ

-- The registers that the device leaves after an access, and the rounds of each loop on the status.
pub record Setup : Type 0 where
  pub device : Line → Region
  pub rounds : ℕ

abbrev pub settle : Setup → Line → Line
settle setup l = record l { regs = setup.device l }

unfoldable pub uart_reset : Region → Region
unfolding bitfield_bit32_write
uart_reset r =
    let r1 = mmio_region_write32 r ctrl 0 in
    let clears = bitfield_bit32_write (bitfield_bit32_write 0 0 true) 1 true in
    let r2 = mmio_region_write32 r1 fifo_ctrl clears in
    let r3 = mmio_region_write32 r2 ovrd 0 in
    let r4 = mmio_region_write32 r3 timeout_ctrl 0 in
    let r5 = mmio_region_write32 r4 intr_enable 0 in mmio_region_write32 r5 intr_state uint32_max

-- The frequency word, in 64 bits.
abbrev pub nco_of : Uart → ℕ
nco_of uart = uart.baudrate * 2 ^ (nco_width + 4) % 2 ^ 64 / uart.clk_freq_hz

-- The control word: the frequency, both directions, no parity.
unfoldable pub ctrl_word : ℕ → ℕ
unfolding bitfield_field32_write bitfield_bit32_write
ctrl_word nco =
    let r1 = bitfield_field32_write 0 nco_field nco in
    let r2 = bitfield_bit32_write r1 0 true in
    bitfield_bit32_write (bitfield_bit32_write r2 6 false) 1 true

-- `none` is the null pointer.
unfoldable pub uart_init : Option Uart → Region → Region × SystemError
unfolding uart_reset ctrl_word
uart_init none r = (r, error_uart_invalid_argument)
uart_init (some uart) r =
    let nco = nco_of uart in
    let nco_masked = bit_and nco nco_mask in
    if uart.baudrate == 0 || uart.clk_freq_hz == 0
    then (r, error_uart_invalid_argument)
    else if not (nco == nco_masked)
    then (r, error_uart_bad_baud_rate)
    else (
      mmio_region_write32 (mmio_region_write32 (uart_reset r) ctrl (ctrl_word nco_masked))
          intr_enable 0,
      error_ok,
    )

unfoldable pub uart_tx_full : Line → Bool
unfolding bitfield_bit32_read
uart_tx_full l = bitfield_bit32_read (mmio_region_read32 l.regs status) 0

unfoldable pub uart_tx_idle : Line → Bool
unfolding bitfield_bit32_read
uart_tx_idle l = bitfield_bit32_read (mmio_region_read32 l.regs status) 3

unfoldable pub uart_rx_empty : Line → Bool
unfolding bitfield_bit32_read
uart_rx_empty l = bitfield_bit32_read (mmio_region_read32 l.regs status) 5

-- A loop that ends when its condition no longer holds.
unfoldable pub wait_while : Setup → (Line → Bool) → ℕ → Line → Option Line
wait_while setup holds zero l = none
wait_while setup holds (suc rounds) l = elim (holds l) [
  | true ↦ wait_while setup holds rounds (settle setup l)
  | false ↦ some l
]

-- The write of a byte to WDATA.
abbrev pub put_byte : Setup → ℕ → Line → Line
unfolding bitfield_field32_write
put_byte setup byte l =
    settle setup (record l { sent = l.sent ++ bitfield_field32_write 0 byte_field byte ∷ [] })

unfoldable pub uart_putchar : Setup → ℕ → Line → Option Line
unfolding wait_while uart_tx_full uart_tx_idle
uart_putchar setup byte l =
    Option.bind (wait_while setup uart_tx_full setup.rounds l) (λ (l1 : Line).
      wait_while setup (λ (l2 : Line). not (uart_tx_idle l2)) setup.rounds (put_byte setup byte l1))

unfoldable pub uart_rx_fifo_read : Setup → Line → Line × ℕ
unfolding bitfield_field32_read
uart_rx_fifo_read setup l = (
  settle setup (record l { taken = l.taken + 1 }),
  bitfield_field32_read (l.incoming l.taken) byte_field,
)

-- The new line and the byte; the result of the function is 1.
unfoldable pub uart_getchar : Setup → Line → Option (Line × ℕ)
unfolding wait_while uart_rx_empty uart_rx_fifo_read
uart_getchar setup l =
    Option.map (uart_rx_fifo_read setup) (wait_while setup uart_rx_empty setup.rounds l)

-- The bytes of a buffer from `i` on, as many as are left.
unfoldable pub write_loop : Setup → (ℕ → ℕ) → ℕ → ℕ → Line → Option Line
unfolding uart_putchar
write_loop setup bytes zero i l = some l
write_loop setup bytes (suc left) i l =
    Option.bind (uart_putchar setup (bytes i) l) (write_loop setup bytes left (i + 1))

unfoldable pub uart_write : Setup → (ℕ → ℕ) → ℕ → Line → Option (Line × ℕ)
unfolding write_loop
uart_write setup bytes len l =
    Option.map (λ (l1 : Line). (l1, len)) (write_loop setup bytes len 0 l)

unfoldable pub read_loop : Setup → ℕ → ℕ → Line → (ℕ → ℕ) → Option (Line × (ℕ → ℕ))
unfolding uart_getchar
read_loop setup zero i l buffer = some (l, buffer)
read_loop setup (suc left) i l buffer =
    Option.bind (uart_getchar setup l)
      (λ (r : Line × ℕ). read_loop setup left (i + 1) r.0 (λ j. if j == i then r.1 else buffer j))

unfoldable pub uart_read : Setup → ℕ → Line → (ℕ → ℕ) → Option ((Line × (ℕ → ℕ)) × ℕ)
unfolding read_loop
uart_read setup len l buffer =
    Option.map (λ (r : Line × (ℕ → ℕ)). (r, len)) (read_loop setup len 0 l buffer)

unfoldable pub uart_sink : Setup → (ℕ → ℕ) → ℕ → Line → Option (Line × ℕ)
unfolding uart_write
uart_sink setup bytes len l = uart_write setup bytes len l
