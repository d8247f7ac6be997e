-- ===== src/SpiSdk/Events/Run.antt =====
-- A transfer that is launched, and every state that its interrupts and the device lead to.
use core_v_mini_mcu.Base.{
  ℕ, ◌≡◌, refl, arith, ap, sym, ◌∙◌, ◌⊎◌, inl, inr, Bool, true, false, ◌==◌, some, test_bit,
  bit_and-two_pow, not32, Bool-cases,
}
use core_v_mini_mcu.Bitfield.{bitfield_read, bitfield_write}
use core_v_mini_mcu.Bitfield.Bits.{test_bit-bitfield_write}
use core_v_mini_mcu.Bitfield.Pack.{bitfield_read-ones}
use mathlib.Core.Option
use core_v_mini_mcu.Mmio.{Region}
use core_v_mini_mcu.SpiHost.{
  Host, is_ready, spi_get_status, spi_get_events, Interrupt, on_event, on_error, irq_spi,
  spi_acknowledge_event, spi_get_errors, spi_sw_reset,
}
use core_v_mini_mcu.SpiSdk.Events.{
  call, disable_events, has_ready, spi_intr_handler_event, spi_intr_handler_error,
  spi_error_handler,
}
use core_v_mini_mcu.SpiSdk.Events.Progress.{IsIdle, IsDone}
use core_v_mini_mcu.SpiSdk.Transfer.{spi_reset_peri, spi_reset_transaction, restart}
use core_v_mini_mcu.SpiSdk.Transfer.Stream.{IsProgress}
use core_v_mini_mcu.SpiSdk.Types.{Peri, Txn, Env, state_error, no_txn, called_error}

-- The ready event that the host tells of is its ready bit.
pub has_ready-spi_get_events :
    (garbage : ℕ) (h : Host) → has_ready (spi_get_events garbage h) ≡ is_ready (spi_get_status h)
unfolding spi_get_events
has_ready-spi_get_events garbage h =
    let status = spi_get_status h in
    let e1 = bitfield_write garbage 1 0 (bitfield_read status 1 25) in
    let e2 = bitfield_write e1 1 1 (bitfield_read status 1 28) in
    let e3 = bitfield_write e2 1 2 (bitfield_read status 1 20) in
    let e4 = bitfield_write e3 1 3 (bitfield_read status 1 26) in
    let e5 = bitfield_write e4 1 4 (bitfield_read status 1 31) in
    let kept : test_bit (spi_get_events garbage h) 4 ≡ test_bit e5 4 =
      test_bit-bitfield_write e5 1 5 (not32 (bitfield_read status 1 30)) 4 (omega arith) in
    let written : test_bit e5 4 ≡ test_bit (bitfield_read status 1 31) 0 =
      test_bit-bitfield_write e4 1 4 (bitfield_read status 1 31) 4 (omega arith) in
    ground (
      arith,
      kept,
      written,
      bit_and-two_pow 4 (spi_get_events garbage h),
      bitfield_read-ones status 1 31,
    )

-- What may happen to a peripheral: an interrupt of its host, for events or for errors, and a change
-- of the registers by the device.
pub data Step (env : Env) : Peri → Peri → Type 0 where
  event_irq :
      (garbage events : ℕ) (h : Host) (p : Peri)
      → irq_spi garbage p.host ≡ (h, on_event events)
      → Step env p (spi_intr_handler_event env events (record p { host = h }))
  error_irq :
      (garbage errors : ℕ) (h : Host) (p q : Peri)
      → irq_spi garbage p.host ≡ (h, on_error errors)
      → spi_intr_handler_error env (record p { host = h }) ≡ some q
      → Step env p q
  device_moves :
      (regs : Region) (p : Peri) → Step env p (record p { host = record (p.host) { regs = regs } })

pub data Run (env : Env) (p : Peri) : Peri → Type 0 where
  launched : Run env p p
  more : {q r : Peri} → Run env p q → Step env q r → Run env p r

-- A transaction is under way, done, or given up for an error.
abbrev pub IsOutcome : Host → Txn → Peri → Type 0
IsOutcome before txn p = IsProgress before txn p ⊎ IsDone before txn p ⊎ (p.state ≡ state_error)

is_on_event : Interrupt → Bool
is_on_event (on_error errors) = false
is_on_event (on_event events) = true

events_of : Interrupt → ℕ
events_of (on_error errors) = errors
events_of (on_event events) = events

pub irq_spi-on_event :
    (garbage events : ℕ) (g h : Host)
    → irq_spi garbage g ≡ (h, on_event events)
    → (h ≡ spi_acknowledge_event g) × (events ≡ spi_get_events garbage h)
unfolding irq_spi is_on_event events_of
irq_spi-on_event garbage events g h irq = elim (Bool-cases (spi_get_errors g == 0)) [
  | inl fine ↦
      let ran : irq_spi garbage g
          ≡ (spi_acknowledge_event g, on_event (spi_get_events garbage (spi_acknowledge_event g))) =
        rw (fine, irq_spi) in
      let both = sym irq ∙ ran in
      let host : h ≡ spi_acknowledge_event g = ap (λ (r : Host × Interrupt). r.0) both in
      (host, ap (λ (r : Host × Interrupt). events_of r.1) both ∙ rw host)
  | inr failed ↦
      let ran : irq_spi garbage g ≡ (g, on_error (spi_get_errors g)) = rw (failed, irq_spi) in
      absurd (ground (arith, ap (λ (r : Host × Interrupt). is_on_event r.1) (sym irq ∙ ran)))
]

pub irq_spi-on_error :
    (garbage errors : ℕ) (g h : Host) → irq_spi garbage g ≡ (h, on_error errors) → h ≡ g
unfolding irq_spi is_on_event
irq_spi-on_error garbage errors g h irq = elim (Bool-cases (spi_get_errors g == 0)) [
  | inr failed ↦
      let ran : irq_spi garbage g ≡ (g, on_error (spi_get_errors g)) = rw (failed, irq_spi) in
      ap (λ (r : Host × Interrupt). r.0) (sym irq ∙ ran)
  | inl fine ↦
      let ran : irq_spi garbage g
          ≡ (spi_acknowledge_event g, on_event (spi_get_events garbage (spi_acknowledge_event g))) =
        rw (fine, irq_spi) in
      absurd (ground (arith, ap (λ (r : Host × Interrupt). is_on_event r.1) (sym irq ∙ ran)))
]

-- After an error the peripheral holds no transaction, and a later one sets its slave again.
pub spi_error_handler-state_error :
    (env : Env) (p q : Peri)
    → spi_error_handler env p ≡ some q
    → (q.state ≡ state_error) × IsIdle q × (q.txn ≡ no_txn) × (q.last_id ≡ 0)
unfolding spi_error_handler spi_reset_peri spi_reset_transaction restart
spi_error_handler-state_error env p q ran =
    let r = call p.callbacks.error_cb (called_error p.txcnt p.rxcnt) (disable_events p) in
    let (s, reset, final) =
      (Option.map-eq-some_iff (λ (s : Peri). record s { state = state_error })
          (spi_reset_peri env r)).0
        ran in
    let (h, host, fresh) =
      (Option.map-eq-some_iff (restart (spi_reset_transaction r))
          (spi_sw_reset env.device env.rounds (spi_reset_transaction r).host)).0
        reset in
    let result : record (restart (spi_reset_transaction r) h) { state = state_error } ≡ q =
      ap (λ (x : Peri). record x { state = state_error }) fresh ∙ final in
    rw⁻¹ result (refl, (refl, refl, refl), refl, refl)
