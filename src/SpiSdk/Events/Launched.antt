-- ===== src/SpiSdk/Events/Launched.antt =====
-- The launch of a transaction, and all that may follow.
use mathlib.Core.Option
use core_v_mini_mcu.Base.{
  ℕ, ◌+◌, ◌<◌, ◌≡◌, refl, arith, ap, sym, ◌∙◌, inl, inr, true, false, Option-cases, zero, suc, some,
  append-nil, ◌++◌, [], Bool-cases, Bool,
}
use core_v_mini_mcu.SpiHost.{
  Host, Device, settle, is_ready, spi_get_status, spi_wait_for_ready, spi_set_events_enabled,
  spi_enable_evt_intr,
}
use core_v_mini_mcu.SpiSdk.Events.Progress.{IsIdle}
use core_v_mini_mcu.SpiSdk.Events.Run.{Run, IsOutcome}
use core_v_mini_mcu.SpiSdk.Transfer.{segment_command, start, spi_launch, spi_issue_next_seg}
use core_v_mini_mcu.SpiSdk.Transfer.Stream.{
  first, arriving, IsProgress, tx_words, spi_fill_tx-IsProgress,
}
use core_v_mini_mcu.SpiSdk.Transfer.Kept.{spi_fill_tx-IsSameRun}
use core_v_mini_mcu.SpiSdk.Transfer.Issue.{IsValidTxn, issue-IsProgress}
use core_v_mini_mcu.SpiSdk.Types.{Segment, Peri, Txn, Env, Callbacks, state_busy}
use core_v_mini_mcu.SpiSdk.Events.Outcome.{Run-IsOutcome}

-- The wait for the host ends with the ready bit set, and sends, issues and reads nothing.
wait_for_ready_lem :
    (device : Device) (rounds : ℕ) (h g : Host)
    → spi_wait_for_ready device rounds h ≡ some g
    → (is_ready (spi_get_status g) ≡ true)
      × (g.sent ≡ h.sent)
      × (g.issued ≡ h.issued)
      × (g.incoming ≡ h.incoming)
      × (g.taken ≡ h.taken)
unfolding spi_wait_for_ready
wait_for_ready_lem device zero h g ran = absurd (Option.none-ne-some g ran)
wait_for_ready_lem device (suc rounds) h g ran = elim (Bool-cases (is_ready (spi_get_status h))) [
  | inl ready ↦
      let at_once : spi_wait_for_ready device (suc rounds) h ≡ some h =
        rw (ready, spi_wait_for_ready) in
      let same = Option.some-injective h g (sym at_once ∙ ran) in
      rw⁻¹ same (ready, refl, refl, refl, refl)
  | inr busy ↦
      let later : spi_wait_for_ready device (suc rounds) h
          ≡ spi_wait_for_ready device rounds (settle device h) =
        ap
          (λ (b : Bool). elim b [
            | true ↦ some h
            | false ↦ spi_wait_for_ready device rounds (settle device h)
          ])
          busy in
      wait_for_ready_lem device rounds (settle device h) g (sym later ∙ ran)
]

tx_words-none_yet : (txn : Txn) → tx_words txn 0 ≡ []
tx_words-none_yet txn = elim (Option-cases txn.txbuffer) [
  | inl missing ↦ rw missing
  | inr (txbuffer, there) ↦ rw there
]

start-IsProgress :
    (env : Env) (txn : Txn) (callbacks : Callbacks) (p : Peri)
    → IsIdle p
    → IsProgress p.host txn (start env txn callbacks p)
unfolding start spi_set_events_enabled spi_enable_evt_intr
start-IsProgress env txn callbacks p (s, t, r) =
    let begun = record p { state = state_busy; txn = txn; callbacks = callbacks } in
    let none_sent : p.host.sent ≡ p.host.sent ++ tx_words txn p.txcnt =
      rw (t, tx_words-none_yet txn) (sym (append-nil p.host.sent)) in
    let none_issued : p.host.issued ≡ p.host.issued ++ first (segment_command txn) p.scnt =
      rw s (sym (append-nil p.host.issued)) in
    let none_taken : p.host.taken ≡ p.host.taken + p.rxcnt = omega arith in
    let none_received : first p.dest p.rxcnt ≡ first (arriving p.host) p.rxcnt = rw r in
    spi_fill_tx-IsProgress env p.host txn begun (
      refl,
      refl,
      none_sent,
      none_issued,
      refl,
      none_taken,
      none_received,
      omega arith,
      omega arith,
      omega arith,
    )

-- A transaction launched on an idle peripheral has sent the first words of its buffer and issued its
-- first segment.
pub spi_launch-IsProgress :
    (env : Env) (segments : ℕ → Segment) (txn : Txn) (callbacks : Callbacks) (p q : Peri)
    → IsIdle p
    → IsValidTxn segments txn
    → 0 < txn.seglen
    → spi_launch env txn callbacks p ≡ some q
    → IsProgress p.host txn q
unfolding spi_launch start
spi_launch-IsProgress env segments txn callbacks p q idle valid nonempty ran =
    let started = start env txn callbacks p in
    let (h, ready_host, result) =
      (Option.map-eq-some_iff (λ (h : Host). spi_issue_next_seg env (record started { host = h }))
          (spi_wait_for_ready env.device env.rounds started.host)).0
        ran in
    let (ready, s, i, c, t) = wait_for_ready_lem env.device env.rounds started.host h ready_host in
    let filled = start-IsProgress env txn callbacks p idle in
    let begun = record p { state = state_busy; txn = txn; callbacks = callbacks } in
    let unchanged : started.scnt ≡ p.scnt = (spi_fill_tx-IsSameRun env begun).0 in
    let waited : IsProgress p.host txn (record started { host = h }) = rw (s, i, c, t) filled in
    rw⁻¹ result (
      issue-IsProgress env p.host segments txn (record started { host = h }) valid ready
        (omega (arith, unchanged, idle.0)) waited)

-- Whatever the interrupts and the device do after a valid transaction is launched on an idle
-- peripheral, the transaction is under way, done or given up for an error. Under way, the words sent
-- are the first of its buffer, the commands issued are those of its first segments, and the first
-- words of the receive buffer are those received, all in order and within the lengths. Done, all of
-- its segments were issued.
pub spi_launch-Run :
    (env : Env) (segments : ℕ → Segment) (txn : Txn) (callbacks : Callbacks) (p q r : Peri)
    → IsIdle p
    → IsValidTxn segments txn
    → 0 < txn.seglen
    → spi_launch env txn callbacks p ≡ some q
    → Run env q r
    → IsOutcome p.host txn r
spi_launch-Run env segments txn callbacks p q r idle valid nonempty ran run =
    Run-IsOutcome env p.host segments txn q r valid
      (spi_launch-IsProgress env segments txn callbacks p q idle valid nonempty ran) run
