-- ===== src/SpiSdk/Transfer/Kept.antt =====
-- What the words that are sent and received leave alone.
use core_v_mini_mcu.Base.{
  ℕ, zero, suc, ◌+◌, ◌≡◌, refl, [], ◌∷◌, ◌++◌, inl, inr, ◌-◌, ltb, Bool-cases, Option-cases, none,
  some,
}
use core_v_mini_mcu.Mmio.{update}
use core_v_mini_mcu.SpiHost.{settle}
use core_v_mini_mcu.SpiHost.Flag
use core_v_mini_mcu.SpiSdk.Transfer.{fill_words, empty_words, spi_fill_tx, spi_empty_rx}
use core_v_mini_mcu.SpiSdk.Types.{Peri, Env}
use core_v_mini_mcu.SpiSdk.Transfer.Stream.{
  write_word-cases, read_word-cases, fill_words-suc, empty_words-suc,
}

-- The segments that were issued and the callbacks stay the same.
abbrev pub IsSameRun : Peri → Peri → Type 0
IsSameRun p q = (q.scnt ≡ p.scnt) × (q.callbacks ≡ p.callbacks) × (q.calls ≡ p.calls)

empty_words-IsSameRun : (env : Env) (left : ℕ) (p : Peri) → IsSameRun p (empty_words env left p)
unfolding empty_words
empty_words-IsSameRun env zero p = (refl, refl, refl)
empty_words-IsSameRun env (suc left) p = elim (read_word-cases env.device p.host) [
  | inl empty ↦
      rw (empty_words-suc env left p ((p.host, none), Flag.rx_queue_empty) empty) (refl, refl, refl)
  | inr word ↦
      let w = p.host.incoming p.host.taken in
      let h = settle env.device (record (p.host) { taken = p.host.taken + 1 }) in
      let q = record p { host = h; dest = update p.dest p.rxcnt w; rxcnt = p.rxcnt + 1 } in
      rw (empty_words-suc env left p ((h, some w), Flag.ok) word) (empty_words-IsSameRun env left q)
]

pub spi_empty_rx-IsSameRun : (env : Env) (p : Peri) → IsSameRun p (spi_empty_rx env p).0
unfolding spi_empty_rx
spi_empty_rx-IsSameRun env p = elim (Bool-cases p.txn.rxbuffer) [
  | inr missing ↦ rw (missing, spi_empty_rx) (refl, refl, refl)
  | inl there ↦ elim (Bool-cases (ltb p.rxcnt p.txn.rxlen)) [
    | inr full ↦ rw (there, full, spi_empty_rx) (refl, refl, refl)
    | inl room ↦
        rw (there, room, spi_empty_rx) (empty_words-IsSameRun env (p.txn.rxlen - p.rxcnt) p)
  ]
]

fill_words-IsSameRun :
    (env : Env) (txbuffer : ℕ → ℕ) (left : ℕ) (p : Peri)
    → IsSameRun p (fill_words env txbuffer left p)
unfolding fill_words
fill_words-IsSameRun env txbuffer zero p = (refl, refl, refl)
fill_words-IsSameRun env txbuffer (suc left) p =
    elim (write_word-cases env.device (txbuffer p.txcnt) p.host) [
      | inl full ↦
          rw (fill_words-suc env txbuffer left p (p.host, Flag.tx_queue_full) full)
            (refl, refl, refl)
      | inr wrote ↦
          let h =
            settle env.device (record (p.host) { sent = p.host.sent ++ txbuffer p.txcnt ∷ [] }) in
          rw (fill_words-suc env txbuffer left p (h, Flag.ok) wrote)
            (fill_words-IsSameRun env txbuffer left (record p { host = h; txcnt = p.txcnt + 1 }))
    ]

pub spi_fill_tx-IsSameRun : (env : Env) (p : Peri) → IsSameRun p (spi_fill_tx env p).0
unfolding spi_fill_tx
spi_fill_tx-IsSameRun env p = elim (Option-cases p.txn.txbuffer) [
  | inl missing ↦ rw (missing, spi_fill_tx) (refl, refl, refl)
  | inr (txbuffer, there) ↦ elim (Bool-cases (ltb p.txcnt p.txn.txlen)) [
    | inr full ↦ rw (there, full, spi_fill_tx) (refl, refl, refl)
    | inl room ↦
        rw (there, room, spi_fill_tx) (fill_words-IsSameRun env txbuffer (p.txn.txlen - p.txcnt) p)
  ]
]
