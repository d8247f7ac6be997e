-- ===== src/Uart/Baud.antt =====
-- The baud rate that the initialisation of the serial line sets.
use native.Mathlib.Nat.{div-lt_iff_lt-mul, le-div_iff_mul-le}
use core_v_mini_mcu.Base.{
  ℕ, ◌+◌, ◌*◌, ◌/◌, ◌%◌, ◌^◌, ◌≤◌, ◌<◌, ◌≡◌, refl, ap, ◌∙◌, arith, bit_and, bit_and-ones, Bool,
  true, false, Bool-cases, inl, inr, ◌==◌, ◌||◌, not, if◌then◌else◌, some, ◌⊎◌,
}
use core_v_mini_mcu.Bitfield.{
  bitfield_read, bitfield_write, bitfield_field32_write, bitfield_bit32_write,
}
use core_v_mini_mcu.Bitfield.Fields.{bitfield_read-write, bitfield_read-write_other}
use core_v_mini_mcu.Bitfield.OneBit.{read_bit-write}
use core_v_mini_mcu.Mmio.{Region}
use core_v_mini_mcu.Uart.{
  Uart, error_ok, error_uart_bad_baud_rate, uart_init, ctrl_word, nco_mask, ctrl, intr_enable,
}

-- Below 2 ^ 16 the masked word is the word.
nco_fits : (nco : ℕ) → (nco == bit_and nco nco_mask) ≡ true → nco < 2 ^ 16
nco_fits nco same = ground (arith, same, bit_and-ones 16 nco)

nco_large : (nco : ℕ) → (nco == bit_and nco nco_mask) ≡ false → 2 ^ 16 ≤ nco
nco_large nco other = ground (arith, other, bit_and-ones 16 nco)

ctrl_word-eq :
    (n : ℕ)
    → ctrl_word n
      ≡ bitfield_write
          (bitfield_write (bitfield_write (bitfield_write 0 0xffff 16 n) 1 0 1) 1 6 0)
          1
          1
          1
unfolding ctrl_word bitfield_field32_write bitfield_bit32_write bitfield_write
ctrl_word-eq n = refl

-- The fields of the control word.
abbrev pub Fields : ℕ → ℕ → Type 0
Fields word nco =
    (bitfield_read word 0xffff 16 ≡ nco)
    × (bitfield_read word 1 0 ≡ 1)
    × (bitfield_read word 1 1 ≡ 1)
    × (bitfield_read word 1 6 ≡ 0)

ctrl_word-Fields : (n : ℕ) → n < 2 ^ 16 → Fields (ctrl_word n) n
unfolding core_v_mini_mcu.Base.shl32
ctrl_word-Fields n small =
    let w0 = bitfield_write 0 0xffff 16 n in
    let w1 = bitfield_write w0 1 0 1 in
    let w2 = bitfield_write w1 1 6 0 in
    rw (ctrl_word-eq n) (
      bitfield_read-write_other w2 1 1 1 0xffff 16 (omega arith) refl
          ∙ bitfield_read-write_other w1 1 6 0 0xffff 16 (omega arith) refl
          ∙ bitfield_read-write_other w0 1 0 1 0xffff 16 (omega arith) refl
          ∙ bitfield_read-write 0 0xffff 16 n (omega arith)
          ∙ cut,
      read_bit-write w2 1 0 1 (omega arith) (omega arith)
          ∙ read_bit-write w1 6 0 0 (omega arith) (omega arith)
          ∙ read_bit-write w0 0 0 1 (omega arith) (omega arith),
      read_bit-write w2 1 1 1 (omega arith) (omega arith),
      read_bit-write w2 1 6 1 (omega arith) (omega arith)
          ∙ read_bit-write w1 6 6 0 (omega arith) (omega arith),
    )
  where
    cut : bit_and n 0xffff ≡ n
    cut = bit_and-ones 16 n ∙ omega (arith, small)

-- For a baud rate and a clock that are not zero, the rate in 32 bits, the initialisation succeeds
-- exactly when sixteen times the baud rate is below the clock: then the control register enables
-- both directions without parity and its frequency word is 2 ^ 20 times the quotient of the baud
-- rate and the clock, rounded down, and no interrupt is enabled. Otherwise it reports a bad baud
-- rate and writes nothing.
pub uart_init_lem :
    (uart : Uart) (r : Region)
    → 0 < uart.baudrate
    → uart.baudrate < 2 ^ 32
    → 0 < uart.clk_freq_hz
    → let (r', code) = uart_init (some uart) r in
      let nco = uart.baudrate * 2 ^ 20 / uart.clk_freq_hz in
      ((16 * uart.baudrate < uart.clk_freq_hz)
        × (code ≡ error_ok)
        × Fields (r' (ctrl / 4)) nco
        × (r' (intr_enable / 4) ≡ 0))
      ⊎ ((uart.clk_freq_hz ≤ 16 * uart.baudrate) × (code ≡ error_uart_bad_baud_rate) × (r' ≡ r))
unfolding uart_init
uart_init_lem uart r some_rate word some_clock =
    let clk = uart.clk_freq_hz in
    let nco = uart.baudrate * 2 ^ 20 / clk in
    let no_wrap : uart.baudrate * 2 ^ (16 + 4) % 2 ^ 64 ≡ uart.baudrate * 2 ^ 20 = omega arith in
    let there : (uart.baudrate == 0 || clk == 0) ≡ false = ground arith in
    elim (Bool-cases (nco == bit_and nco nco_mask)) [
      | inl same ↦
          let fits = nco_fits nco same in
          let masked : bit_and nco nco_mask ≡ nco = ground (arith, same) in
          let below : uart.baudrate * 2 ^ 20 < 2 ^ 16 * clk =
            (div-lt_iff_lt-mul some_clock).0 fits in
          rw (no_wrap, there, same, masked)
            (inl (omega (arith, below), refl, ctrl_word-Fields nco fits, refl))
      | inr other ↦
          let large = nco_large nco other in
          let above : 2 ^ 16 * clk ≤ uart.baudrate * 2 ^ 20 =
            (le-div_iff_mul-le some_clock).0 large in
          rw (no_wrap, there, other) (inr (omega (arith, above), refl, refl))
    ]
