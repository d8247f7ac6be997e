-- ===== src/SpiSdk/Events/Progress.antt =====
-- A transfer from its launch through its interrupts: what was sent, issued and received at any time.
use core_v_mini_mcu.Base.{
  ℕ, ◌+◌, ◌≤◌, ◌<◌, ◌≡◌, refl, arith, ap, sym, ◌∙◌, ◌++◌, [], ◌∷◌, ◌⊎◌, inl, inr, Bool, true, false,
  ◌&&◌, if◌then◌else◌, append-nil,
}
use core_v_mini_mcu.SpiHost.{
  Host, is_ready, spi_get_status, spi_set_events_enabled, spi_enable_evt_intr,
}
use core_v_mini_mcu.SpiSdk.Events.{
  call, is_there, has_ready, has_idle, has_next, has_txwm, has_rxwm, disable_events, finish,
  on_txwm, on_rxwm, watermarks, spi_event_handler,
}
use core_v_mini_mcu.SpiSdk.Transfer.{
  segment_command, spi_fill_tx, spi_empty_rx, spi_issue_next_seg, spi_reset_transaction,
}
use core_v_mini_mcu.SpiSdk.Transfer.Stream.{
  first, arriving, tx_words, IsProgress, spi_fill_tx-IsProgress, spi_empty_rx-IsProgress,
}
use core_v_mini_mcu.SpiSdk.Transfer.Kept.{spi_empty_rx-IsSameRun}
use core_v_mini_mcu.SpiSdk.Transfer.Issue.{IsValidTxn, issue-IsProgress}
use core_v_mini_mcu.SpiSdk.Types.{
  Segment, Peri, Txn, Callbacks, Env, Call, called_done, called_txwm, called_rxwm, state_done,
  no_txn,
}

-- No transaction is under way.
abbrev pub IsIdle : Peri → Type 0
IsIdle p = (p.scnt ≡ 0) × (p.txcnt ≡ 0) × (p.rxcnt ≡ 0)

-- A transaction is over: all of its segments were issued, in order, `t` words were sent and `r` words
-- received.
abbrev pub IsFinished : Host → Txn → ℕ → ℕ → Peri → Type 0
IsFinished before txn t r p =
    (p.state ≡ state_done)
    × (p.txn ≡ no_txn)
    × IsIdle p
    × (p.host.sent ≡ before.sent ++ tx_words txn t)
    × (p.host.issued ≡ before.issued ++ first (segment_command txn) txn.seglen)
    × (p.host.taken ≡ before.taken + r)
    × (first p.dest r ≡ first (arriving before) r)
    × (t ≤ txn.txlen)
    × (r ≤ txn.rxlen)

abbrev pub IsDone : Host → Txn → Peri → Type 0
IsDone before txn p = (t : ℕ) × (r : ℕ) × IsFinished before txn t r p

call-IsProgress :
    (before : Host) (txn : Txn) (there : Bool) (c : Call) (p : Peri)
    → IsProgress before txn p
    → IsProgress before txn (call there c p)
call-IsProgress before txn true c p progress = progress
call-IsProgress before txn false c p progress = progress

watermarks-IsProgress :
    (env : Env) (before : Host) (txn : Txn) (events : ℕ) (p : Peri)
    → IsProgress before txn p
    → IsProgress before txn (watermarks env events p)
unfolding watermarks on_txwm on_rxwm
watermarks-IsProgress env before txn events p progress =
    rx (has_rxwm events) (if has_txwm events then on_txwm env p else p) (tx (has_txwm events))
  where
    tx : (b : Bool) → IsProgress before txn (if b then on_txwm env p else p)
    tx false = progress
    tx true =
        let (q, filled) = spi_fill_tx env p in
        call-IsProgress before txn (filled && q.callbacks.txwm_cb) (called_txwm q.txcnt q.rxcnt) q
          (spi_fill_tx-IsProgress env before txn p progress)

    rx :
        (b : Bool) (q : Peri)
        → IsProgress before txn q
        → IsProgress before txn (if b then on_rxwm env q else q)
    rx false q so_far = so_far
    rx true q so_far =
        let (e, emptied) = spi_empty_rx env q in
        call-IsProgress before txn (emptied && e.callbacks.rxwm_cb) (called_rxwm e.txcnt e.rxcnt) e
          (spi_empty_rx-IsProgress env before txn q so_far)

call-IsFinished :
    (before : Host) (txn : Txn) (there : Bool) (c : Call) (p : Peri)
    → txn.seglen ≤ p.scnt
    → IsProgress before txn p
    → IsFinished before txn p.txcnt p.rxcnt
        (spi_reset_transaction (call there c (record p { state = state_done })))
unfolding spi_reset_transaction
call-IsFinished before txn true c p all
      (busy, same, sent, issued, incoming, taken, received, t, r, s) =
    let every : p.scnt ≡ txn.seglen = omega arith in
    (refl, refl, (refl, refl, refl), sent, rw every at issued, taken, received, t, r)
call-IsFinished before txn false c p all
      (busy, same, sent, issued, incoming, taken, received, t, r, s) =
    let every : p.scnt ≡ txn.seglen = omega arith in
    (refl, refl, (refl, refl, refl), sent, rw every at issued, taken, received, t, r)

call-calls :
    (there : Bool) (c : Call) (p : Peri)
    → (call there c p).calls ≡ p.calls ++ (if there then c ∷ [] else [])
call-calls true c p = refl
call-calls false c p = sym (append-nil p.calls)

-- The end of a transaction whose segments were all issued leaves it finished, and gives the two
-- counts to the done callback, if there is one.
pub finish-IsFinished :
    (env : Env) (before : Host) (txn : Txn) (p : Peri)
    → txn.seglen ≤ p.scnt
    → IsProgress before txn p
    → (t : ℕ) × (r : ℕ) × IsFinished before txn t r (finish env p)
      × ((finish env p).calls
          ≡ p.calls ++ (if p.callbacks.done_cb then called_done t r ∷ [] else []))
unfolding finish spi_reset_transaction spi_set_events_enabled spi_enable_evt_intr
finish-IsFinished env before txn p all progress =
    let e = (spi_empty_rx env (disable_events p)).0 in
    let kept = spi_empty_rx-IsProgress env before txn (disable_events p) progress in
    let (segments, callbacks, calls) = spi_empty_rx-IsSameRun env (disable_events p) in
    let there : e.callbacks.done_cb ≡ p.callbacks.done_cb =
      ap (λ (c : Callbacks). c.done_cb) callbacks in
    (
      e.txcnt,
      e.rxcnt,
      call-IsFinished before txn e.callbacks.done_cb (called_done e.txcnt e.rxcnt) e
          (omega (arith, segments)) kept,
      call-calls e.callbacks.done_cb (called_done e.txcnt e.rxcnt) (record e { state = state_done })
          ∙ rw (calls, there),
    )

-- An event interrupt of a running transfer: the transfer goes on, or it is done.
pub spi_event_handler-IsProgress :
    (env : Env) (before : Host) (segments : ℕ → Segment) (txn : Txn) (events : ℕ) (p : Peri)
    → IsValidTxn segments txn
    → (has_ready events ≡ true → is_ready (spi_get_status p.host) ≡ true)
    → IsProgress before txn p
    → IsProgress before txn (spi_event_handler env events p)
      ⊎ IsDone before txn (spi_event_handler env events p)
unfolding spi_event_handler
spi_event_handler-IsProgress env before segments txn events p valid told progress =
    branch (has_ready events) (has_next p) (has_idle events) told next_left none_left
  where
    there : is_there p.txn.segments ≡ true
    there = ap (λ (x : Txn). is_there x.segments) progress.1 ∙ ap is_there valid.0

    bound : p.txn.seglen ≡ txn.seglen
    bound = ap (λ (x : Txn). x.seglen) progress.1

    next_left : has_next p ≡ true → p.scnt < txn.seglen
    next_left next = ground (arith, next, there, bound)

    none_left : has_next p ≡ false → txn.seglen ≤ p.scnt
    none_left none_next = ground (arith, none_next, there, bound)

    branch :
        (ready next idle : Bool)
        → (ready ≡ true → is_ready (spi_get_status p.host) ≡ true)
        → (next ≡ true → p.scnt < txn.seglen)
        → (next ≡ false → txn.seglen ≤ p.scnt)
        → let q =
            if ready
            then (if next
                then watermarks env events (spi_issue_next_seg env p)
                else if idle
                then finish env p
                else watermarks env events p)
            else watermarks env events p in
          IsProgress before txn q ⊎ IsDone before txn q
    branch false next idle told left all =
        inl (watermarks-IsProgress env before txn events p progress)
    branch true true idle told left all = inl (
        watermarks-IsProgress env before txn events (spi_issue_next_seg env p)
          (issue-IsProgress env before segments txn p valid (told refl) (left refl) progress))
    branch true false true told left all =
        let (t, r, over, calls) = finish-IsFinished env before txn p (all refl) progress in
        inr (t, r, over)
    branch true false false told left all =
        inl (watermarks-IsProgress env before txn events p progress)
