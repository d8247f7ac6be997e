-- ===== src/SpiSdk/Transfer.antt =====
-- spi_sdk.c: the parts of a transfer, from the launch to the wait for its end.
pub mod Stream
pub mod Kept
pub mod Issue
pub mod Timeout
use core_v_mini_mcu.Base.{
  ℕ, zero, suc, ◌+◌, ◌-◌, ◌*◌, ◌/◌, ◌%◌, ◌^◌, Bool, true, false, not, ltb, ◌==◌, if◌then◌else◌,
  Option, none, some,
}
use mathlib.Core.Option
use core_v_mini_mcu.Mmio.{update}
use core_v_mini_mcu.SpiHost.{
  Host, spi_write_word, spi_read_word, spi_set_command, spi_set_events_enabled, spi_enable_evt_intr,
  spi_wait_for_ready, spi_sw_reset, spi_set_enable, spi_output_enable, spi_set_errors_enabled,
  spi_enable_error_intr, spi_set_tx_watermark, spi_set_rx_watermark, error_irqall,
}
use core_v_mini_mcu.SpiHost.Word.{spi_create_command}
use core_v_mini_mcu.SpiSdk.Segments.{direction_of, speed_of}
use core_v_mini_mcu.SpiSdk.Types.{
  Peri, Txn, Callbacks, Env, no_txn, null_callbacks, state_init, state_busy, state_timeout, is_busy,
}

-- `TRIGGERING_EVENTS`: idle, ready and the two watermarks.
abbrev pub triggering_events : ℕ
triggering_events = 0x3c

-- The loop of `spi_fill_tx`, with the number of words left in the buffer.
unfoldable pub fill_words : Env → (ℕ → ℕ) → ℕ → Peri → Peri
unfolding spi_write_word
fill_words env txbuffer zero p = p
fill_words env txbuffer (suc left) p =
    let (h, flag) = spi_write_word env.device (txbuffer p.txcnt) p.host in
    elim (flag == 0) [
      | true ↦ fill_words env txbuffer left (record p { host = h; txcnt = p.txcnt + 1 })
      | false ↦ record p { host = h }
    ]

unfoldable pub spi_fill_tx : Env → Peri → Peri × Bool
unfolding fill_words
spi_fill_tx env p = elim p.txn.txbuffer [
  | none ↦ (p, false)
  | some txbuffer ↦
      if ltb p.txcnt p.txn.txlen
      then (fill_words env txbuffer (p.txn.txlen - p.txcnt) p, true)
      else (p, false)
]

-- The loop of `spi_empty_rx`, with the number of words left in the buffer.
unfoldable pub empty_words : Env → ℕ → Peri → Peri
unfolding spi_read_word
empty_words env zero p = p
empty_words env (suc left) p =
    let ((h, word), flag) = spi_read_word env.device p.host in
    elim word [
      | none ↦ record p { host = h }
      | some w ↦
          empty_words env left
            (record p { host = h; dest = update p.dest p.rxcnt w; rxcnt = p.rxcnt + 1 })
    ]

unfoldable pub spi_empty_rx : Env → Peri → Peri × Bool
unfolding empty_words
spi_empty_rx env p = elim p.txn.rxbuffer [
  | false ↦ (p, false)
  | true ↦
      if ltb p.rxcnt p.txn.rxlen
      then (empty_words env (p.txn.rxlen - p.rxcnt) p, true)
      else (p, false)
]

-- The command word of a segment. The length is a bit field of 24 bits.
unfoldable pub segment_command : Txn → ℕ → ℕ
segment_command txn scnt = elim txn.segments [
  | none ↦ 0
  | some segments ↦
      let seg = segments scnt in
      spi_create_command (record {
        len = (seg.len + (2 ^ 24 - 1)) % 2 ^ 24;
        csaat = not (txn.seglen == scnt + 1);
        speed = speed_of seg.mode;
        direction = direction_of seg.mode;
      })
]

unfoldable pub spi_issue_next_seg : Env → Peri → Peri
unfolding segment_command spi_set_command
spi_issue_next_seg env p = record p {
  scnt = p.scnt + 1;
  host = (spi_set_command env.device (segment_command p.txn p.scnt) p.host).0;
}

-- The state of a launch before it waits for the host to be ready.
unfoldable pub start : Env → Txn → Callbacks → Peri → Peri
unfolding spi_fill_tx
start env txn callbacks p =
    let filled =
      (spi_fill_tx env (record p { state = state_busy; txn = txn; callbacks = callbacks })).0 in
    record filled {
      host = spi_enable_evt_intr true (spi_set_events_enabled triggering_events true filled.host).0;
    }

unfoldable pub spi_launch : Env → Txn → Callbacks → Peri → Option Peri
unfolding start spi_issue_next_seg
spi_launch env txn callbacks p =
    let started = start env txn callbacks p in
    Option.map (λ (h : Host). spi_issue_next_seg env (record started { host = h }))
      (spi_wait_for_ready env.device env.rounds started.host)

unfoldable pub spi_reset_transaction : Peri → Peri
spi_reset_transaction p = record p {
  scnt = 0;
  txcnt = 0;
  rxcnt = 0;
  txn = no_txn;
  callbacks = null_callbacks;
}

-- The rest of `spi_reset_peri`, on the host that was reset.
unfoldable pub restart : Peri → Host → Peri
restart p h =
    let h1 = spi_output_enable true (spi_set_enable true h) in
    let h2 = spi_enable_error_intr true (spi_set_errors_enabled error_irqall true h1).0 in
    let h3 = (spi_set_rx_watermark p.rxwm (spi_set_tx_watermark p.txwm h2).0).0 in
    record p { host = h3; state = state_init; last_id = 0 }

unfoldable pub spi_reset_peri : Env → Peri → Option Peri
unfolding spi_reset_transaction restart
spi_reset_peri env p =
    let q = spi_reset_transaction p in
    Option.map (restart q) (spi_sw_reset env.device env.rounds q.host)

-- The timeout in ticks, in 64 bits.
abbrev pub timeout_ticks : Env → Peri → ℕ
timeout_ticks env p = p.timeout * (env.sys_freq / 1000) % 2 ^ 64

-- The loop of `spi_wait_transaction_done`: `elapsed` gives the ticks since the start in each round,
-- and `interrupts` what the interrupts do in it. The outer `none` means that the loop still runs, the
-- inner that the reset of the host does not return.
unfoldable pub wait_loop : Env → (ℕ → ℕ) → (Peri → Peri) → ℕ → ℕ → ℕ → Peri → Option (Option Peri)
unfolding spi_reset_peri
wait_loop env elapsed interrupts ticks zero i p = none
wait_loop env elapsed interrupts ticks (suc left) i p = elim (ltb ticks (elapsed i)) [
  | true ↦
      some (Option.map (λ (q : Peri). record q { state = state_timeout }) (spi_reset_peri env p))
  | false ↦ elim (is_busy (interrupts p).state) [
    | true ↦ wait_loop env elapsed interrupts ticks left (i + 1) (interrupts p)
    | false ↦ some (some (interrupts p))
  ]
]

unfoldable pub spi_wait_transaction_done :
    Env → (ℕ → ℕ) → (Peri → Peri) → ℕ → Peri → Option (Option Peri)
unfolding wait_loop
spi_wait_transaction_done env elapsed interrupts rounds p =
    wait_loop env elapsed interrupts (timeout_ticks env p) rounds 0 p
