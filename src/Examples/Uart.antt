-- ===== src/Examples/Uart.antt =====
-- The serial line on concrete rates and bytes.
use core_v_mini_mcu.Base.{
  ℕ, ◌+◌, ◌*◌, ◌/◌, ◌^◌, ◌≤◌, ◌<◌, ◌≡◌, refl, arith, some, [], ◌++◌, ◌⊎◌, Gives,
}
use core_v_mini_mcu.Mmio.{Region}
use core_v_mini_mcu.Uart.{
  Uart, Line, Setup, error_ok, error_uart_bad_baud_rate, ctrl, intr_enable, uart_init, uart_write,
  uart_read, uart_tx_full, uart_tx_idle, uart_rx_empty,
}
use core_v_mini_mcu.Uart.Baud.{Fields, uart_init_lem}
use core_v_mini_mcu.Uart.Bytes.{IsOpen, Serves, At, words_of, Holds, uart_write-uart_read}

abbrev console : Uart
console = record { baudrate = 9600; clk_freq_hz = 20000000 }

abbrev blank : Region
blank i = 0

uart_init_lem_example :
    ((16 * 9600 < 20000000)
      × ((uart_init (some console) blank).1 ≡ error_ok)
      × Fields ((uart_init (some console) blank).0 (ctrl / 4)) (9600 * 2 ^ 20 / 20000000)
      × ((uart_init (some console) blank).0 (intr_enable / 4) ≡ 0))
    ⊎ ((20000000 ≤ 16 * 9600)
        × ((uart_init (some console) blank).1 ≡ error_uart_bad_baud_rate)
        × ((uart_init (some console) blank).0 ≡ blank))
uart_init_lem_example = uart_init_lem console blank (omega arith) (omega arith) (omega arith)

-- Every register reads 8: the line is idle, with room for a byte and a byte to read.
abbrev idle_setup : Setup
idle_setup = record { device = λ l i. 8; rounds = 2 }

abbrev idle_line : Line
idle_line = record { regs = λ i. 8; sent = []; incoming = λ i. 0x141 + i; taken = 5 }

line-IsOpen : (l : Line) → IsOpen (record l { regs = λ i. 8 })
unfolding uart_tx_full uart_tx_idle uart_rx_empty
line-IsOpen l = record { room = refl; idle = refl; filled = refl }

idle-Serves : Serves idle_setup
idle-Serves = record { free = line-IsOpen; some_round = omega arith }

idle-At : At [] idle_line.incoming 5 idle_line
idle-At = record {
  free = line-IsOpen idle_line;
  same_sent = refl;
  same_incoming = refl;
  same_taken = refl;
}

abbrev letters : ℕ → ℕ
letters i = 0x61 + i

uart_write-uart_read_example :
    Gives
      (λ (r : Line × ℕ). At ([] ++ words_of letters 3 0) idle_line.incoming 5 r.0 × (r.1 ≡ 3))
      (uart_write idle_setup letters 3 idle_line)
    × Gives
        (λ (r : (Line × (ℕ → ℕ)) × ℕ).
          At [] idle_line.incoming (5 + 3) r.0.0
          × Holds idle_setup idle-Serves idle_line.incoming 5 0 3 letters r.0.1
          × (r.1 ≡ 3))
        (uart_read idle_setup 3 idle_line letters)
uart_write-uart_read_example =
    uart_write-uart_read idle_setup idle-Serves idle_line.incoming letters 3 5 [] idle_line letters
      idle-At
