-- ===== src/SpiSdk/Events.antt =====
-- spi_sdk.c: the handlers of the events and the errors of a peripheral.
pub mod Progress
pub mod Run
pub mod Outcome
pub mod Launched
use core_v_mini_mcu.Base.{
  ℕ, bit_and, Bool, true, false, not, ◌&&◌, ltb, ◌==◌, if◌then◌else◌, Option, none, some, [], ◌∷◌,
  ◌++◌,
}
use mathlib.Core.Option
use core_v_mini_mcu.SpiHost.{spi_set_events_enabled, spi_enable_evt_intr, event_all}
use core_v_mini_mcu.SpiSdk.Transfer.{
  spi_fill_tx, spi_empty_rx, spi_issue_next_seg, spi_reset_transaction, spi_reset_peri,
}
use core_v_mini_mcu.SpiSdk.Types.{
  Peri, Env, Call, called_done, called_txwm, called_rxwm, called_error, state_done, state_error,
  is_busy, Segment,
}

-- `events & SPI_EVENT_...`
abbrev pub has_rxwm : ℕ → Bool
has_rxwm events = not (bit_and events 0x4 == 0)

abbrev pub has_txwm : ℕ → Bool
has_txwm events = not (bit_and events 0x8 == 0)

abbrev pub has_ready : ℕ → Bool
has_ready events = not (bit_and events 0x10 == 0)

abbrev pub has_idle : ℕ → Bool
has_idle events = not (bit_and events 0x20 == 0)

abbrev pub call : Bool → Call → Peri → Peri
call there c p = if there then record p { calls = p.calls ++ c ∷ [] } else p

abbrev pub is_there : Option (ℕ → Segment) → Bool
is_there none = false
is_there (some segments) = true

-- `peri->txn.segments != NULL && peri->scnt < peri->txn.seglen`
abbrev pub has_next : Peri → Bool
has_next p = is_there p.txn.segments && ltb p.scnt p.txn.seglen

-- No event interrupts any more.
abbrev pub disable_events : Peri → Peri
disable_events p = record p {
  host = spi_enable_evt_intr false (spi_set_events_enabled event_all false p.host).0;
}

-- The branch in which the transaction is over.
unfoldable pub finish : Env → Peri → Peri
unfolding spi_empty_rx spi_reset_transaction
finish env p =
    let emptied = (spi_empty_rx env (disable_events p)).0 in
    let done = record emptied { state = state_done } in
    spi_reset_transaction (call done.callbacks.done_cb (called_done done.txcnt done.rxcnt) done)

-- The two watermark branches.
unfoldable pub on_txwm : Env → Peri → Peri
unfolding spi_fill_tx
on_txwm env p =
    let (q, filled) = spi_fill_tx env p in
    call (filled && q.callbacks.txwm_cb) (called_txwm q.txcnt q.rxcnt) q

unfoldable pub on_rxwm : Env → Peri → Peri
unfolding spi_empty_rx
on_rxwm env p =
    let (q, emptied) = spi_empty_rx env p in
    call (emptied && q.callbacks.rxwm_cb) (called_rxwm q.txcnt q.rxcnt) q

unfoldable pub watermarks : Env → ℕ → Peri → Peri
unfolding on_txwm on_rxwm
watermarks env events p =
    let q = if has_txwm events then on_txwm env p else p in
    if has_rxwm events then on_rxwm env q else q

unfoldable pub spi_event_handler : Env → ℕ → Peri → Peri
unfolding finish watermarks spi_issue_next_seg
spi_event_handler env events p =
    if has_ready events
    then (if has_next p
        then watermarks env events (spi_issue_next_seg env p)
        else if has_idle events
        then finish env p
        else watermarks env events p)
    else watermarks env events p

unfoldable pub spi_error_handler : Env → Peri → Option Peri
unfolding spi_reset_peri
spi_error_handler env p =
    let q = disable_events p in
    let r = call q.callbacks.error_cb (called_error q.txcnt q.rxcnt) q in
    Option.map (λ (s : Peri). record s { state = state_error }) (spi_reset_peri env r)

-- `spi_intr_handler_event_flash`, `..._host` and `..._host2`.
unfoldable pub spi_intr_handler_event : Env → ℕ → Peri → Peri
unfolding spi_event_handler
spi_intr_handler_event env events p = if is_busy p.state then spi_event_handler env events p else p

-- `spi_intr_handler_error_flash`, `..._host` and `..._host2`.
unfoldable pub spi_intr_handler_error : Env → Peri → Option Peri
unfolding spi_error_handler
spi_intr_handler_error env p = if is_busy p.state then spi_error_handler env p else some p
