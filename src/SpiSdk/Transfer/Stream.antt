-- ===== src/SpiSdk/Transfer/Stream.antt =====
-- The words that a transfer sends, receives and issues.
use core_v_mini_mcu.Base.{
  ℕ, zero, suc, ◌+◌, ◌≤◌, ◌≡◌, refl, arith, le_refl, List, [], ◌∷◌, ◌++◌, append_assoc, ap, sym,
  ◌∙◌, ◌⊎◌, inl, inr, true, false, ◌-◌, leb, ltb, ◌==◌, Bool-cases, Option-cases, Option, none,
  some,
}
use core_v_mini_mcu.Mmio.{update}
use core_v_mini_mcu.SpiHost.{
  Host, Device, settle, spi_get_tx_queue_depth, spi_get_rx_queue_depth, spi_write_word,
  spi_read_word,
}
use core_v_mini_mcu.SpiHost.Flag
use core_v_mini_mcu.SpiHost.Reg
use core_v_mini_mcu.SpiSdk.Transfer.{
  fill_words, empty_words, spi_fill_tx, spi_empty_rx, segment_command,
}
use core_v_mini_mcu.SpiSdk.Types.{Peri, Txn, Env, state_busy}

-- The first `n` values of a sequence.
abbrev pub first : (ℕ → ℕ) → ℕ → List ℕ
first f zero = []
first f (suc n) = first f n ++ f n ∷ []

-- The words of a transaction that are to be sent.
abbrev pub tx_words : Txn → ℕ → List ℕ
tx_words txn n = elim txn.txbuffer [ none ↦ [] | some txbuffer ↦ first txbuffer n ]

-- A full queue takes no word.
pub write_word-cases :
    (device : Device) (w : ℕ) (h : Host)
    → (spi_write_word device w h ≡ (h, Flag.tx_queue_full))
      ⊎ (spi_write_word device w h
          ≡ (settle device (record h { sent = h.sent ++ w ∷ [] }), Flag.ok))
unfolding spi_write_word
write_word-cases device w h = elim (Bool-cases (leb Reg.tx_depth (spi_get_tx_queue_depth h))) [
  | inl full ↦ inl (rw full)
  | inr room ↦ inr (rw room)
]

pub read_word-cases :
    (device : Device) (h : Host)
    → (spi_read_word device h ≡ ((h, none), Flag.rx_queue_empty))
      ⊎ (spi_read_word device h ≡ (
        (settle device (record h { taken = h.taken + 1 }), some (h.incoming h.taken)),
        Flag.ok,
      ))
unfolding spi_read_word
read_word-cases device h = elim (Bool-cases (spi_get_rx_queue_depth h == 0)) [
  | inl empty ↦ inl (rw empty)
  | inr some_left ↦ inr (rw some_left)
]

pub fill_words-suc :
    (env : Env) (txbuffer : ℕ → ℕ) (left : ℕ) (p : Peri) (r : Host × ℕ)
    → spi_write_word env.device (txbuffer p.txcnt) p.host ≡ r
    → fill_words env txbuffer (suc left) p ≡ elim (r.1 == 0) [
      | true ↦ fill_words env txbuffer left (record p { host = r.0; txcnt = p.txcnt + 1 })
      | false ↦ record p { host = r.0 }
    ]
unfolding fill_words
fill_words-suc env txbuffer left p r wrote =
    ap
      (λ (r : Host × ℕ). elim (r.1 == 0) [
        | true ↦ fill_words env txbuffer left (record p { host = r.0; txcnt = p.txcnt + 1 })
        | false ↦ record p { host = r.0 }
      ])
      wrote

pub empty_words-suc :
    (env : Env) (left : ℕ) (p : Peri) (r : (Host × Option ℕ) × ℕ)
    → spi_read_word env.device p.host ≡ r
    → empty_words env (suc left) p ≡ elim r.0.1 [
      | none ↦ record p { host = r.0.0 }
      | some w ↦
          empty_words env left
            (record p { host = r.0.0; dest = update p.dest p.rxcnt w; rxcnt = p.rxcnt + 1 })
    ]
unfolding empty_words
empty_words-suc env left p r word =
    ap
      (λ (r : (Host × Option ℕ) × ℕ). elim r.0.1 [
        | none ↦ record p { host = r.0.0 }
        | some w ↦
            empty_words env left
              (record p { host = r.0.0; dest = update p.dest p.rxcnt w; rxcnt = p.rxcnt + 1 })
      ])
      word

-- The words that the device receives from now on.
abbrev pub arriving : Host → ℕ → ℕ
arriving h i = h.incoming (h.taken + i)

-- How far a transaction that is running has come, from the host that it was launched on: the words sent are the first
-- of the buffer, the commands issued those of the first segments, and the first words of the receive
-- buffer are those received since, all in order and none past the end.
abbrev pub IsProgress : Host → Txn → Peri → Type 0
IsProgress before txn p =
    (p.state ≡ state_busy)
    × (p.txn ≡ txn)
    × (p.host.sent ≡ before.sent ++ tx_words txn p.txcnt)
    × (p.host.issued ≡ before.issued ++ first (segment_command txn) p.scnt)
    × (p.host.incoming ≡ before.incoming)
    × (p.host.taken ≡ before.taken + p.rxcnt)
    × (first p.dest p.rxcnt ≡ first (arriving before) p.rxcnt)
    × (p.txcnt ≤ txn.txlen)
    × (p.rxcnt ≤ txn.rxlen)
    × (p.scnt ≤ txn.seglen)

pub append-first :
    (xs : List ℕ) (f : ℕ → ℕ) (n : ℕ) → xs ++ first f n ++ f n ∷ [] ≡ xs ++ first f (n + 1)
append-first xs f n =
    let next : n + 1 ≡ suc n = omega arith in rw next (append_assoc xs (first f n) (f n ∷ []))

sent_next :
    (xs : List ℕ) (txn : Txn) (txbuffer : ℕ → ℕ) (n : ℕ)
    → txn.txbuffer ≡ some txbuffer
    → xs ++ tx_words txn n ++ txbuffer n ∷ [] ≡ xs ++ tx_words txn (n + 1)
sent_next xs txn txbuffer n buffer = rw buffer (append-first xs txbuffer n)

pub fill_words-IsProgress :
    (env : Env) (before : Host) (txn : Txn) (txbuffer : ℕ → ℕ) (left : ℕ) (p : Peri)
    → txn.txbuffer ≡ some txbuffer
    → p.txcnt + left ≤ txn.txlen
    → IsProgress before txn p
    → IsProgress before txn (fill_words env txbuffer left p)
unfolding fill_words
fill_words-IsProgress env before txn txbuffer zero p buffer room progress = progress
fill_words-IsProgress env before txn txbuffer (suc left) p buffer room
      (busy, same, sent, issued, incoming, taken, received, t, r, s) =
    elim (write_word-cases env.device (txbuffer p.txcnt) p.host) [
      | inl full ↦
          rw (fill_words-suc env txbuffer left p (p.host, Flag.tx_queue_full) full)
            (busy, same, sent, issued, incoming, taken, received, t, r, s)
      | inr wrote ↦
          let h =
            settle env.device (record (p.host) { sent = p.host.sent ++ txbuffer p.txcnt ∷ [] }) in
          let now : h.sent ≡ before.sent ++ tx_words txn (p.txcnt + 1) =
            ap (λ (xs : List ℕ). xs ++ txbuffer p.txcnt ∷ []) sent
            ∙ sent_next before.sent txn txbuffer p.txcnt buffer in
          rw (fill_words-suc env txbuffer left p (h, Flag.ok) wrote) (
            fill_words-IsProgress env before txn txbuffer left
              (record p { host = h; txcnt = p.txcnt + 1 }) buffer (omega arith)
              (busy, same, now, issued, incoming, taken, received, omega arith, r, s))
    ]

first-update : (f : ℕ → ℕ) (k w n : ℕ) → n ≤ k → first (update f k w) n ≡ first f n
first-update f k w zero le = refl
first-update f k w (suc n) le =
    let other : (n == k) ≡ false = ground arith in rw (first-update f k w n (omega arith), other)

-- The word that is received next is stored next.
next_received :
    (dest incoming : ℕ → ℕ) (n w : ℕ)
    → first dest n ≡ first incoming n
    → w ≡ incoming n
    → first (update dest n w) (n + 1) ≡ first incoming (n + 1)
next_received dest incoming n w received last =
    let next : n + 1 ≡ suc n = omega arith in
    let here : (n == n) ≡ true = ground arith in
    rw (next, first-update dest n w n (le_refl n), here, received, last)

pub empty_words-IsProgress :
    (env : Env) (before : Host) (txn : Txn) (left : ℕ) (p : Peri)
    → p.rxcnt + left ≤ txn.rxlen
    → IsProgress before txn p
    → IsProgress before txn (empty_words env left p)
unfolding empty_words
empty_words-IsProgress env before txn zero p room progress = progress
empty_words-IsProgress env before txn (suc left) p room
      (busy, same, sent, issued, incoming, taken, received, t, r, s) =
    elim (read_word-cases env.device p.host) [
      | inl empty ↦
          rw (empty_words-suc env left p ((p.host, none), Flag.rx_queue_empty) empty)
            (busy, same, sent, issued, incoming, taken, received, t, r, s)
      | inr word ↦
          let w = p.host.incoming p.host.taken in
          let h = settle env.device (record (p.host) { taken = p.host.taken + 1 }) in
          let q = record p { host = h; dest = update p.dest p.rxcnt w; rxcnt = p.rxcnt + 1 } in
          let now : first q.dest (p.rxcnt + 1) ≡ first (arriving before) (p.rxcnt + 1) =
            next_received p.dest (arriving before) p.rxcnt w received (rw (incoming, taken)) in
          rw (empty_words-suc env left p ((h, some w), Flag.ok) word) (
            empty_words-IsProgress env before txn left q (omega arith)
              (busy, same, sent, issued, incoming, omega arith, now, t, omega arith, s))
    ]

pub spi_fill_tx-IsProgress :
    (env : Env) (before : Host) (txn : Txn) (p : Peri)
    → IsProgress before txn p
    → IsProgress before txn (spi_fill_tx env p).0
unfolding spi_fill_tx
spi_fill_tx-IsProgress env before txn p progress = elim (Option-cases p.txn.txbuffer) [
  | inl missing ↦ rw (missing, spi_fill_tx) progress
  | inr (txbuffer, there) ↦ elim (Bool-cases (ltb p.txcnt p.txn.txlen)) [
    | inr full ↦ rw (there, full, spi_fill_tx) progress
    | inl room ↦
        let same = progress.1 in
        let bound : p.txn.txlen ≡ txn.txlen = ap (λ (t : Txn). t.txlen) same in
        rw (there, room, spi_fill_tx)
          (fill_words-IsProgress env before txn txbuffer (p.txn.txlen - p.txcnt) p
            (ap (λ (t : Txn). t.txbuffer) (sym same) ∙ there) (ground (arith, room, bound))
            progress)
  ]
]

pub spi_empty_rx-IsProgress :
    (env : Env) (before : Host) (txn : Txn) (p : Peri)
    → IsProgress before txn p
    → IsProgress before txn (spi_empty_rx env p).0
unfolding spi_empty_rx
spi_empty_rx-IsProgress env before txn p progress = elim (Bool-cases p.txn.rxbuffer) [
  | inr missing ↦ rw (missing, spi_empty_rx) progress
  | inl there ↦ elim (Bool-cases (ltb p.rxcnt p.txn.rxlen)) [
    | inr full ↦ rw (there, full, spi_empty_rx) progress
    | inl room ↦
        let bound : p.txn.rxlen ≡ txn.rxlen = ap (λ (t : Txn). t.rxlen) progress.1 in
        rw (there, room, spi_empty_rx)
          (empty_words-IsProgress env before txn (p.txn.rxlen - p.rxcnt) p
            (ground (arith, room, bound)) progress)
  ]
]
