-- ===== src/Flash/Read/Answer.antt =====
-- A host that answers at once: what each step of the driver does to what was sent, issued and read.
use core_v_mini_mcu.Base.{
  ℕ, zero, suc, ◌+◌, ◌^◌, ◌<◌, ◌≡◌, refl, ap, arith, Bool, true, false, Bool-cases, inl, inr, leb,
  ltb, ◌==◌, some, List, [], ◌∷◌, ◌++◌, Gives, gives,
}
use core_v_mini_mcu.Flash.{Setup, send, wait_for_ready, wait_for_rx_watermark, status_wait}
use core_v_mini_mcu.SpiHost.{
  Host, Device, settle, is_ready, status_bit, rxqd, txqd, spi_get_status, spi_write_word,
  spi_read_word, spi_set_command, spi_wait_for_ready, spi_get_rx_queue_depth,
  spi_get_tx_queue_depth, spi_set_rx_watermark,
}
use core_v_mini_mcu.Bitfield.{bitfield_read}
use core_v_mini_mcu.SpiHost.Flag
use core_v_mini_mcu.SpiHost.Reg
use core_v_mini_mcu.SpiSdk.Transfer.Issue.{set_command-ready}
use core_v_mini_mcu.SpiHost.Encoding.{spi_create_command_lem}
use core_v_mini_mcu.SpiHost.Word.{Command, spi_create_command, spi_validate_cmd}

-- The status of a host that is ready, holds a word to read, as many as its watermark, and has room
-- for a word to send.
pub record Answers (status : ℕ) : Type 0 where
  pub ready : is_ready status ≡ true
  pub watermark : status_bit 20 status ≡ true
  pub some_word : (rxqd status == 0) ≡ false
  pub room : leb Reg.tx_depth (txqd status) ≡ false

-- After every access the device answers before the next one, and every loop is given a round.
pub record Serves (setup : Setup) : Type 0 where
  pub answers : (h : Host) → Answers (spi_get_status (settle setup.device h))
  pub some_round : 0 < setup.rounds

-- A host that answers, and what it has taken and given so far.
pub record At (sent issued : List ℕ) (incoming : ℕ → ℕ) (taken : ℕ) (h : Host) : Type 0 where
  pub answers : Answers (spi_get_status h)
  pub same_sent : h.sent ≡ sent
  pub same_issued : h.issued ≡ issued
  pub same_incoming : h.incoming ≡ incoming
  pub same_taken : h.taken ≡ taken

-- A wait whose condition holds returns at once.
ready_now :
    (rounds : ℕ) (device : Device) (h : Host)
    → 0 < rounds
    → is_ready (spi_get_status h) ≡ true
    → spi_wait_for_ready device rounds h ≡ some h
unfolding spi_wait_for_ready
ready_now zero device h some_round ready = absurd (omega arith)
ready_now (suc rounds) device h some_round ready = rw (ready, spi_wait_for_ready) refl

met_now :
    (device : Device) (is_met : ℕ → Bool) (rounds : ℕ) (h : Host)
    → 0 < rounds
    → is_met (spi_get_status h) ≡ true
    → status_wait device is_met rounds h ≡ some h
unfolding status_wait
met_now device is_met zero h some_round met = absurd (omega arith)
met_now device is_met (suc rounds) h some_round met = rw (met, status_wait) refl

-- The watermark is in another register than the status.
pub set_rx_watermark-At :
    (watermark : ℕ) (sent issued : List ℕ) {incoming : ℕ → ℕ} (taken : ℕ) (h : Host)
    → At sent issued incoming taken h
    → At sent issued incoming taken (spi_set_rx_watermark watermark h).0
unfolding spi_set_rx_watermark spi_get_status
set_rx_watermark-At watermark sent issued taken h now =
    elim (Bool-cases (ltb Reg.rx_depth watermark)) [
      | inl high ↦ rw high now
      | inr low ↦ rw low (record {
        answers = now.answers;
        same_sent = now.same_sent;
        same_issued = now.same_issued;
        same_incoming = now.same_incoming;
        same_taken = now.same_taken;
      })
    ]

module _ (setup : Setup) (serves : Serves setup) (incoming : ℕ → ℕ) where
  pub send-At :
      (word : ℕ) (sent issued : List ℕ) (taken : ℕ) (h : Host)
      → At sent issued incoming taken h
      → Gives (At (sent ++ word ∷ []) issued incoming taken) (send setup word h)
  unfolding spi_write_word spi_get_tx_queue_depth
  send-At word sent issued taken h now = gives (
      rw now.answers.room (record {
        answers = serves.answers (record h { sent = h.sent ++ word ∷ [] });
        same_sent = ap (λ (xs : List ℕ). xs ++ word ∷ []) now.same_sent;
        same_issued = now.same_issued;
        same_incoming = now.same_incoming;
        same_taken = now.same_taken;
      }))

  pub wait_for_ready-At :
      (sent issued : List ℕ) (taken : ℕ) (h : Host)
      → At sent issued incoming taken h
      → Gives (At sent issued incoming taken) (wait_for_ready setup h)
  wait_for_ready-At sent issued taken h now =
      rw (ready_now setup.rounds setup.device h serves.some_round now.answers.ready) (gives now)

  pub issue-At :
      (c : Command) (sent issued : List ℕ) (taken : ℕ) (h : Host)
      → c.len < 2 ^ 24
      → c.speed < 4
      → c.direction < 4
      → spi_validate_cmd c.direction c.speed ≡ true
      → At sent issued incoming taken h
      → Gives
          (At sent (issued ++ spi_create_command c ∷ []) incoming taken)
          (wait_for_ready setup (spi_set_command setup.device (spi_create_command c) h).0)
  issue-At c sent issued taken h len speed direction valid now =
      let w = spi_create_command c in
      let fields = spi_create_command_lem c len speed direction in
      let compatible : spi_validate_cmd (bitfield_read w 3 27) (bitfield_read w 3 25) ≡ true =
        rw (fields.2, fields.3) valid in
      let h1 = settle setup.device (record h { issued = h.issued ++ w ∷ [] }) in
      let took = set_command-ready setup.device w h now.answers.ready compatible in
      rw took (
        wait_for_ready-At sent (issued ++ w ∷ []) taken h1 (record {
          answers = serves.answers (record h { issued = h.issued ++ w ∷ [] });
          same_sent = now.same_sent;
          same_issued = ap (λ (xs : List ℕ). xs ++ w ∷ []) now.same_issued;
          same_incoming = now.same_incoming;
          same_taken = now.same_taken;
        }))

  pub filled-At :
      (sent issued : List ℕ) (taken : ℕ) (h : Host)
      → At sent issued incoming taken h
      → Gives (At sent issued incoming taken) (wait_for_rx_watermark setup h)
  filled-At sent issued taken h now =
      rw
        (met_now setup.device (status_bit 20) setup.rounds h serves.some_round
          now.answers.watermark)
        (gives now)

  pub wait_for_rx_watermark-At :
      (watermark : ℕ) (sent issued : List ℕ) (taken : ℕ) (h : Host)
      → At sent issued incoming taken h
      → Gives
          (At sent issued incoming taken)
          (wait_for_rx_watermark setup (spi_set_rx_watermark watermark h).0)
  wait_for_rx_watermark-At watermark sent issued taken h now =
      filled-At sent issued taken (spi_set_rx_watermark watermark h).0
        (set_rx_watermark-At watermark sent issued taken h now)

  pub read_word-At :
      (sent issued : List ℕ) (taken : ℕ) (h : Host)
      → At sent issued incoming taken h
      → (h1 : Host) × (flag : ℕ) × (spi_read_word setup.device h
          ≡ ((h1, some (incoming taken)), flag))
        × At sent issued incoming (taken + 1) h1
  unfolding spi_read_word spi_get_rx_queue_depth
  read_word-At sent issued taken h now = (
    settle setup.device (record h { taken = h.taken + 1 }),
    Flag.ok,
    rw (now.answers.some_word, now.same_incoming, now.same_taken) refl,
    record {
      answers = serves.answers (record h { taken = h.taken + 1 });
      same_sent = now.same_sent;
      same_issued = now.same_issued;
      same_incoming = now.same_incoming;
      same_taken = ap (λ (n : ℕ). n + 1) now.same_taken;
    },
  )
