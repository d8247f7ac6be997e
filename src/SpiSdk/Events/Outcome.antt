-- ===== src/SpiSdk/Events/Outcome.antt =====
-- What a launched transfer comes to, whatever its interrupts and the device do.
use mathlib.Core.Option
use core_v_mini_mcu.Base.{ℕ, ◌≡◌, refl, ap, sym, ◌∙◌, inl, inr, true, false, some}
use core_v_mini_mcu.SpiHost.{Host, is_ready, spi_get_status, spi_acknowledge_event}
use core_v_mini_mcu.SpiSdk.Events.{
  spi_intr_handler_event, spi_intr_handler_error, spi_event_handler, spi_error_handler, has_ready,
}
use core_v_mini_mcu.SpiSdk.Events.Progress.{spi_event_handler-IsProgress}
use core_v_mini_mcu.SpiSdk.Events.Run.{
  Step, event_irq, error_irq, device_moves, Run, launched, more, IsOutcome, irq_spi-on_event,
  irq_spi-on_error, has_ready-spi_get_events, spi_error_handler-state_error,
}
use core_v_mini_mcu.SpiSdk.Transfer.Stream.{IsProgress}
use core_v_mini_mcu.SpiSdk.Transfer.Issue.{IsValidTxn}
use core_v_mini_mcu.SpiSdk.Types.{Segment, Peri, Txn, Env, is_busy}

-- An event interrupt of a peripheral that is not busy changes nothing.
event_ignored :
    (env : Env) (events : ℕ) (p : Peri)
    → is_busy p.state ≡ false
    → spi_intr_handler_event env events p ≡ p
unfolding spi_intr_handler_event
event_ignored env events p idle = rw idle

event-IsOutcome :
    (env : Env) (before : Host) (segments : ℕ → Segment) (txn : Txn) (events : ℕ) (p : Peri)
    → IsValidTxn segments txn
    → (has_ready events ≡ true → is_ready (spi_get_status p.host) ≡ true)
    → IsOutcome before txn p
    → IsOutcome before txn (spi_intr_handler_event env events p)
unfolding spi_intr_handler_event
event-IsOutcome env before segments txn events p valid told (inl progress) =
    let running : is_busy p.state ≡ true = ap is_busy progress.0 in
    let handled : spi_intr_handler_event env events p ≡ spi_event_handler env events p =
      rw running in
    rw handled
      (elim (spi_event_handler-IsProgress env before segments txn events p valid told progress) [
        | inl going_on ↦ inl going_on
        | inr over ↦ inr (inl over)
      ])
event-IsOutcome env before segments txn events p valid told (inr (inl over)) =
    rw (event_ignored env events p (ap is_busy over.2.0)) (inr (inl over))
event-IsOutcome env before segments txn events p valid told (inr (inr failed)) =
    rw (event_ignored env events p (ap is_busy failed)) (inr (inr failed))

error_ignored :
    (env : Env) (before : Host) (txn : Txn) (p q : Peri)
    → is_busy p.state ≡ false
    → spi_intr_handler_error env p ≡ some q
    → p ≡ q
unfolding spi_intr_handler_error
error_ignored env before txn p q idle ran =
    let stays : spi_intr_handler_error env p ≡ some p = rw idle in
    Option.some-injective p q (sym stays ∙ ran)

error-IsOutcome :
    (env : Env) (before : Host) (txn : Txn) (p q : Peri)
    → spi_intr_handler_error env p ≡ some q
    → IsOutcome before txn p
    → IsOutcome before txn q
unfolding spi_intr_handler_error
error-IsOutcome env before txn p q ran (inl progress) =
    let running : is_busy p.state ≡ true = ap is_busy progress.0 in
    let handled : spi_intr_handler_error env p ≡ spi_error_handler env p = rw running in
    inr (inr (spi_error_handler-state_error env p q (sym handled ∙ ran)).0)
error-IsOutcome env before txn p q ran (inr (inl over)) =
    rw⁻¹ (error_ignored env before txn p q (ap is_busy over.2.0) ran) (inr (inl over))
error-IsOutcome env before txn p q ran (inr (inr failed)) =
    rw⁻¹ (error_ignored env before txn p q (ap is_busy failed) ran) (inr (inr failed))

-- Only the lists of words and the sequence of the device matter.
moved-IsOutcome :
    (before : Host) (txn : Txn) (h : Host) (p : Peri)
    → h.sent ≡ p.host.sent
    → h.issued ≡ p.host.issued
    → h.incoming ≡ p.host.incoming
    → h.taken ≡ p.host.taken
    → IsOutcome before txn p
    → IsOutcome before txn (record p { host = h })
moved-IsOutcome before txn h p s i c t (inl progress) = inl (rw (s, i, c, t) progress)
moved-IsOutcome before txn h p s i c t (inr (inl over)) = inr (inl (rw (s, i, t) over))
moved-IsOutcome before txn h p s i c t (inr (inr failed)) = inr (inr failed)

Step-IsOutcome :
    (before : Host) (segments : ℕ → Segment) (txn : Txn)
    → IsValidTxn segments txn
    → {env : Env} {p q : Peri} → Step env p q
    → IsOutcome before txn p
    → IsOutcome before txn q
unfolding spi_acknowledge_event
Step-IsOutcome before segments txn valid {env} (event_irq garbage events h p irq) so_far =
    let (acknowledged, told) = irq_spi-on_event garbage events p.host h irq in
    let ready : has_ready events ≡ is_ready (spi_get_status h) =
      ap has_ready told ∙ has_ready-spi_get_events garbage h in
    event-IsOutcome env before segments txn events (record p { host = h }) valid
      (λ r. sym ready ∙ r)
      (moved-IsOutcome before txn h p (ap (λ (x : Host). x.sent) acknowledged)
        (ap (λ (x : Host). x.issued) acknowledged) (ap (λ (x : Host). x.incoming) acknowledged)
        (ap (λ (x : Host). x.taken) acknowledged) so_far)
Step-IsOutcome before segments txn valid {env} (error_irq garbage errors h p q irq ran) so_far =
    let same = irq_spi-on_error garbage errors p.host h irq in
    error-IsOutcome env before txn (record p { host = h }) q ran
      (moved-IsOutcome before txn h p (ap (λ (x : Host). x.sent) same)
        (ap (λ (x : Host). x.issued) same) (ap (λ (x : Host). x.incoming) same)
        (ap (λ (x : Host). x.taken) same) so_far)
Step-IsOutcome before segments txn valid (device_moves regs p) so_far =
    moved-IsOutcome before txn (record (p.host) { regs = regs }) p refl refl refl refl so_far

-- From a transfer that is under way, every run of interrupts and changes of the device leads to one
-- that is under way, done or given up for an error.
pub Run-IsOutcome :
    (env : Env) (before : Host) (segments : ℕ → Segment) (txn : Txn) (p q : Peri)
    → IsValidTxn segments txn
    → IsProgress before txn p
    → Run env p q
    → IsOutcome before txn q
Run-IsOutcome env before segments txn p q valid progress run = go run
  where
    go : {r : Peri} → Run env p r → IsOutcome before txn r
    go launched = inl progress
    go (more earlier step) = Step-IsOutcome before segments txn valid step (go earlier)
