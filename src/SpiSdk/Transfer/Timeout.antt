-- ===== src/SpiSdk/Transfer/Timeout.antt =====
-- The end of the wait of a blocking transfer: its transaction is over, or its time.
use core_v_mini_mcu.Base.{
  ℕ, zero, suc, ◌+◌, ◌≤◌, ◌<◌, ◌≡◌, refl, arith, Bool, true, false, ltb, ℕ_discrete, ◌⊎◌, inl, inr,
  Option, none, some,
}
use mathlib.Core.Option
use core_v_mini_mcu.SpiHost.{Host, settle, put, spi_get_status, reset_wait, spi_sw_reset}
use core_v_mini_mcu.SpiHost.Reg
use core_v_mini_mcu.SpiHost.Reset.{is_draining, reset_wait-drained}
use core_v_mini_mcu.SpiSdk.Events.Progress.{IsIdle}
use core_v_mini_mcu.SpiSdk.Transfer.{
  spi_reset_transaction, restart, spi_reset_peri, timeout_ticks, wait_loop,
  spi_wait_transaction_done,
}
use core_v_mini_mcu.SpiSdk.Types.{Peri, Env, no_txn, state_timeout, is_busy}

-- The peripheral after the interrupts of a number of rounds.
abbrev pub after : (Peri → Peri) → ℕ → Peri → Peri
after interrupts zero p = p
after interrupts (suc n) p = after interrupts n (interrupts p)

-- The loop stopped within the rounds `i` to `n`: at the time-out, with the transaction dropped and
-- its counts cleared, or with what the interrupts of the rounds left, which is not busy.
abbrev pub HasEnded : (Peri → Peri) → ℕ → ℕ → Peri → Option (Option Peri) → Type 0
HasEnded interrupts i n p o =
    (q : Peri) × (o ≡ some (some q))
    × (((q.state ≡ state_timeout) × (q.txn ≡ no_txn) × IsIdle q)
        ⊎ ((m : ℕ) × (i + m ≤ n) × (q ≡ after interrupts (suc m) p) × (is_busy q.state ≡ false)))

-- The device shows no activity and empty queues in the first status after it is asked to reset.
abbrev pub IsResponsive : Env → Type 0
IsResponsive env =
    (h : Host) → is_draining (spi_get_status (settle env.device (put Reg.control 1 30 1 h))) ≡ false

-- The reset of such a device returns.
sw_reset-returns :
    (env : Env) (h : Host)
    → IsResponsive env
    → 0 < env.rounds
    → (g : Host) × (spi_sw_reset env.device env.rounds h ≡ some g)
unfolding spi_sw_reset
sw_reset-returns env h responsive some_round = by_rounds env.rounds some_round
  where
    asserted : Host
    asserted = settle env.device (put Reg.control 1 30 1 h)

    by_rounds :
        (rounds : ℕ)
        → 0 < rounds
        → (g : Host) × (elim (reset_wait rounds (spi_get_status asserted)) [
          | none ↦ none
          | some u ↦ some (put Reg.control 1 30 0 asserted)
        ]
            ≡ some g)
    by_rounds zero lt = absurd (omega arith)
    by_rounds (suc rounds) lt =
        let returns = reset_wait-drained rounds (spi_get_status asserted) (responsive h) in
        (put Reg.control 1 30 0 asserted, rw returns refl)

timed_out-HasEnded :
    (env : Env) (interrupts : Peri → Peri) (i n : ℕ) (p : Peri)
    → IsResponsive env
    → 0 < env.rounds
    → HasEnded interrupts i n p (
        some (Option.map (λ (q : Peri). record q { state = state_timeout }) (spi_reset_peri env p)))
unfolding spi_reset_peri restart spi_reset_transaction
timed_out-HasEnded env interrupts i n p responsive some_round =
    let q = spi_reset_transaction p in
    let (g, returns) = sw_reset-returns env q.host responsive some_round in
    (
      record (restart q g) { state = state_timeout },
      rw returns refl,
      inl (refl, refl, (refl, refl, refl)),
    )

-- A round before the one in which the time is over is not that round.
not_yet :
    (elapsed : ℕ → ℕ) (ticks n i : ℕ)
    → ticks < elapsed n
    → i ≤ n
    → ltb ticks (elapsed i) ≡ false
    → i + 1 ≤ n
not_yet elapsed ticks n i over le early = elim (ℕ_discrete i n) [
  | yes same ↦ let late : ticks < elapsed i = rw same over in absurd (ground (arith, early, late))
  | no other ↦ omega (arith, other)
]

later_round :
    (interrupts : Peri → Peri) (i n : ℕ) (p : Peri) (o : Option (Option Peri))
    → HasEnded interrupts (i + 1) n (interrupts p) o
    → HasEnded interrupts i n p o
later_round interrupts i n p o (q, stopped, inl late) = (q, stopped, inl late)
later_round interrupts i n p o (q, stopped, inr (m, le, reached, idle)) =
    (q, stopped, inr (suc m, omega arith, reached, idle))

wait_loop-HasEnded :
    (env : Env) (elapsed : ℕ → ℕ) (interrupts : Peri → Peri) (ticks n left i : ℕ) (p : Peri)
    → IsResponsive env
    → 0 < env.rounds
    → ticks < elapsed n
    → i ≤ n
    → n < i + left
    → HasEnded interrupts i n p (wait_loop env elapsed interrupts ticks left i p)
unfolding wait_loop
wait_loop-HasEnded env elapsed interrupts ticks n zero i p responsive some_round over le lt =
    absurd (omega arith)
wait_loop-HasEnded env elapsed interrupts ticks n (suc left) i p responsive some_round over le lt =
    branch (ltb ticks (elapsed i)) (is_busy (interrupts p).state) refl (λ early.
      wait_loop-HasEnded env elapsed interrupts ticks n left (i + 1) (interrupts p) responsive
        some_round over (not_yet elapsed ticks n i over le early) (omega arith))
  where
    branch :
        (late busy : Bool)
        → is_busy (interrupts p).state ≡ busy
        → (late ≡ false
            → HasEnded interrupts
                (i + 1)
                n
                (interrupts p)
                (wait_loop env elapsed interrupts ticks left (i + 1) (interrupts p)))
        → HasEnded interrupts i n p (elim late [
          | true ↦
              some (
                Option.map
                  (λ (q : Peri). record q { state = state_timeout })
                  (spi_reset_peri env p))
          | false ↦ elim busy [
            | true ↦ wait_loop env elapsed interrupts ticks left (i + 1) (interrupts p)
            | false ↦ some (some (interrupts p))
          ]
        ])
    branch true busy is rest = timed_out-HasEnded env interrupts i n p responsive some_round
    branch false false idle rest = (interrupts p, refl, inr (0, omega arith, refl, idle))
    branch false true running rest =
        later_round interrupts i n p
          (wait_loop env elapsed interrupts ticks left (i + 1) (interrupts p)) (rest refl)

-- If the device shows no activity and empty queues in the first status after it is asked to reset, and
-- the time is over in some round, then the wait for the end of a transfer returns by that round,
-- whatever the interrupts do: with what the interrupts of some rounds left, if that is not busy, or at the time-out, with the transaction dropped and its counts cleared.
pub spi_wait_transaction_done-HasEnded :
    (env : Env) (elapsed : ℕ → ℕ) (interrupts : Peri → Peri) (n rounds : ℕ) (p : Peri)
    → IsResponsive env
    → 0 < env.rounds
    → timeout_ticks env p < elapsed n
    → n < rounds
    → HasEnded interrupts 0 n p (spi_wait_transaction_done env elapsed interrupts rounds p)
unfolding spi_wait_transaction_done
spi_wait_transaction_done-HasEnded env elapsed interrupts n rounds p responsive some_round over
      enough =
    wait_loop-HasEnded env elapsed interrupts (timeout_ticks env p) n rounds 0 p responsive
      some_round over (omega arith) (omega arith)
