-- ===== src/Flash/Init/Enable.antt =====
-- The wait for the flash and the setting of its quad enable bit, on a host that answers at once.
use core_v_mini_mcu.Base.{
  ℕ, zero, suc, ◌+◌, ◌%◌, ◌<◌, ◌≡◌, refl, subst, arith, bit_or, bit_and, true, false, ◌==◌,
  if◌then◌else◌, Option, some, List, [], ◌∷◌, ◌++◌, append_assoc, Gives, gives, Gives-bind,
  Gives-map, Gives-there,
}
use core_v_mini_mcu.Flash.{Setup, run, fc_rsr1, fc_we, flash_ok, flash_error}
use core_v_mini_mcu.Flash.Erase.{ask_status, flash_wait_loop, flash_wait}
use core_v_mini_mcu.Flash.Init.{
  fc_rsr2, fc_wsr2, ask_status2, read_status2, write_status2, set_qe_bit,
}
use core_v_mini_mcu.Flash.Read.Answer.{Answers, Serves, At, read_word-At, set_rx_watermark-At}
use core_v_mini_mcu.Flash.Read.Commands.{
  Action, word, filled, segment, steps, sent_by, issued_by, AllValid, run-At, run-append, run_then,
}
use core_v_mini_mcu.SpiHost.{Host, spi_get_status, spi_read_word, spi_set_rx_watermark}
use core_v_mini_mcu.SpiHost.Word.{dir_rx_only, dir_tx_only, speed_standard, spi_validate_cmd}

-- A read of a status register.
abbrev pub ask : ℕ → List Action
ask register =
    word register
    ∷ segment 0 true speed_standard dir_tx_only
    ∷ segment 0 false speed_standard dir_rx_only
    ∷ filled
    ∷ []

-- As many reads of the first status register.
abbrev pub polls : ℕ → List Action
polls zero = []
polls (suc n) = ask fc_rsr1 ++ polls n

-- The steps before the wait: the write is enabled, and the value goes to the register.
abbrev pub writes : ℕ → List Action
writes value =
    word fc_we
    ∷ segment 0 false speed_standard dir_tx_only
    ∷ word fc_wsr2
    ∷ segment 0 true speed_standard dir_tx_only
    ∷ word value
    ∷ segment 0 false speed_standard dir_tx_only
    ∷ []

module _ (setup : Setup) (serves : Serves setup) (incoming : ℕ → ℕ) where
  ask_valid : (register : ℕ) → AllValid (ask register)
  unfolding spi_validate_cmd
  ask_valid register = (omega arith, omega arith, refl, (omega arith, omega arith, refl, tt))

  -- The word of a status register.
  ask-At :
      (register taken : ℕ) (sent issued : List ℕ) (h : Host)
      → At sent issued incoming taken h
      → (asked : Host) × (h1 : Host) × (flag : ℕ) × (run (steps setup (ask register)) h
          ≡ some asked)
        × (spi_read_word setup.device asked ≡ ((h1, some (incoming taken)), flag))
        × At
            (sent ++ sent_by (ask register))
            (issued ++ issued_by (ask register))
            incoming
            (taken + 1)
            h1
  ask-At register taken sent issued h now =
      let sent1 = sent ++ sent_by (ask register) in
      let issued1 = issued ++ issued_by (ask register) in
      let (asked, there, now1) = Gives-there (At sent1 issued1 incoming taken) (
        run-At setup serves incoming taken (ask register) sent issued h (ask_valid register) now) in
      let (h1, flag, read, now2) =
        read_word-At setup serves incoming sent1 issued1 taken asked now1 in
      (asked, h1, flag, there, read, now2)

  -- A busy word asks again, and another one ends the wait.
  flash_wait_loop-busy :
      (rounds resp taken : ℕ) (h h1 asked : Host) (flag : ℕ)
      → ask_status setup h ≡ some asked
      → spi_read_word setup.device asked ≡ ((h1, some (incoming taken)), flag)
      → (incoming taken % 2 == 0) ≡ false
      → flash_wait_loop setup (suc rounds) resp h ≡ flash_wait_loop setup rounds (incoming taken) h1
  unfolding flash_wait_loop
  flash_wait_loop-busy rounds resp taken h h1 asked flag there read busy =
      rw (there, read, busy, read, flash_wait_loop) refl

  flash_wait_loop-free :
      (rounds resp taken : ℕ) (h h1 asked : Host) (flag : ℕ)
      → ask_status setup h ≡ some asked
      → spi_read_word setup.device asked ≡ ((h1, some (incoming taken)), flag)
      → (incoming taken % 2 == 0) ≡ true
      → flash_wait_loop setup (suc rounds) resp h ≡ some h1
  unfolding flash_wait_loop
  flash_wait_loop-free rounds resp taken h h1 asked flag there read free =
      rw (there, read, free, read, flash_wait_loop) refl

  -- The status words are busy up to the one at `n`.
  abbrev pub FreeAfter : ℕ → ℕ → Type 0
  FreeAfter taken n =
      ((i : ℕ) → i < n → (incoming (taken + i) % 2 == 0) ≡ false)
      × ((incoming (taken + n) % 2 == 0) ≡ true)

  FreeAfter-next : (taken n : ℕ) → FreeAfter taken (suc n) → FreeAfter (taken + 1) n
  FreeAfter-next taken n (busy, free) =
      let same = λ (i : ℕ). let next : taken + suc i ≡ taken + 1 + i = omega arith in next in
      (
        λ i le.
            subst (λ (k : ℕ). (incoming k % 2 == 0) ≡ false) (same i) (busy (suc i) (omega arith)),
        subst (λ (k : ℕ). (incoming k % 2 == 0) ≡ true) (same n) free,
      )

  flash_wait_loop-At :
      (n rounds resp taken : ℕ) (sent issued : List ℕ) (h : Host)
      → n < rounds
      → FreeAfter taken n
      → At sent issued incoming taken h
      → Gives
          (At
            (sent ++ sent_by (polls (suc n)))
            (issued ++ issued_by (polls (suc n)))
            incoming
            (taken + suc n))
          (flash_wait_loop setup rounds resp h)
  unfolding ask_status
  flash_wait_loop-At n zero resp taken sent issued h enough free now = absurd (omega arith)
  flash_wait_loop-At zero (suc rounds) resp taken sent issued h enough free now =
      let (asked, h1, flag, there, read, now1) = ask-At fc_rsr1 taken sent issued h now in
      let word : (incoming taken % 2 == 0) ≡ true =
        subst (λ (k : ℕ). (incoming k % 2 == 0) ≡ true) (omega arith) free.1 in
      rw (flash_wait_loop-free rounds resp taken h h1 asked flag there read word) (gives now1)
  flash_wait_loop-At (suc n) (suc rounds) resp taken sent issued h enough free now =
      let (asked, h1, flag, there, read, now1) = ask-At fc_rsr1 taken sent issued h now in
      let word : (incoming taken % 2 == 0) ≡ false =
        subst (λ (k : ℕ). (incoming k % 2 == 0) ≡ false) (omega arith) (free.0 0 (omega arith)) in
      let rest =
        flash_wait_loop-At n rounds (incoming taken) (taken + 1) (sent ++ sent_by (ask fc_rsr1))
          (issued ++ issued_by (ask fc_rsr1)) h1 (omega arith) (FreeAfter-next taken n free) now1 in
      let more : taken + 1 + suc n ≡ taken + suc (suc n) = omega arith in
      rw (flash_wait_loop-busy rounds resp taken h h1 asked flag there read word) (
        rw
          (
            append_assoc sent (sent_by (ask fc_rsr1)) (sent_by (polls (suc n))),
            append_assoc issued (issued_by (ask fc_rsr1)) (issued_by (polls (suc n))),
            more,
          )
          at rest)

  -- On a host that answers at once, if a status word without the busy bit is among the rounds, the
  -- wait ends with the first such word, and has asked once for each word.
  pub flash_wait-At :
      (n taken : ℕ) (sent issued : List ℕ) (h : Host)
      → n < setup.rounds
      → FreeAfter taken n
      → At sent issued incoming taken h
      → Gives
          (At
            (sent ++ sent_by (polls (suc n)))
            (issued ++ issued_by (polls (suc n)))
            incoming
            (taken + suc n))
          (flash_wait setup h)
  unfolding flash_wait
  flash_wait-At n taken sent issued h enough free now =
      flash_wait_loop-At n setup.rounds 0xffffffff taken sent issued (spi_set_rx_watermark 1 h).0
        enough free (set_rx_watermark-At 1 sent issued taken h now)

  writes_valid : (value : ℕ) → AllValid (writes value)
  unfolding spi_validate_cmd
  writes_valid value = (
    omega arith,
    omega arith,
    refl,
    (omega arith, omega arith, refl, (omega arith, omega arith, refl, tt)),
  )

  read_status2-At :
      (kept taken : ℕ) (sent issued : List ℕ) (h : Host)
      → At sent issued incoming taken h
      → Gives
          (λ (r : Host × ℕ).
            (r.1 ≡ incoming taken)
            × At
                (sent ++ sent_by (ask fc_rsr2))
                (issued ++ issued_by (ask fc_rsr2))
                incoming
                (taken + 1)
                r.0)
          (read_status2 setup kept h)
  unfolding read_status2 ask_status2
  read_status2-At kept taken sent issued h now =
      let (asked, h1, flag, there, read, now1) = ask-At fc_rsr2 taken sent issued h now in
      rw (there, read) (gives (refl, now1))

  write_status2-At :
      (value n taken : ℕ) (sent issued : List ℕ) (h : Host)
      → n < setup.rounds
      → FreeAfter taken n
      → At sent issued incoming taken h
      → Gives
          (At
            ((sent ++ sent_by (writes value)) ++ sent_by (polls (suc n)))
            ((issued ++ issued_by (writes value)) ++ issued_by (polls (suc n)))
            incoming
            (taken + suc n))
          (write_status2 setup value h)
  unfolding write_status2
  write_status2-At value n taken sent issued h enough free now =
      let enable : List Action = word fc_we ∷ segment 0 false speed_standard dir_tx_only ∷ [] in
      let rest : List Action =
        word fc_wsr2
        ∷ segment 0 true speed_standard dir_tx_only
        ∷ word value
        ∷ segment 0 false speed_standard dir_tx_only
        ∷ [] in
      let sent1 = sent ++ sent_by (writes value) in
      let issued1 = issued ++ issued_by (writes value) in
      let final =
        At (sent1 ++ sent_by (polls (suc n))) (issued1 ++ issued_by (polls (suc n))) incoming
          (taken + suc n) in
      subst (λ (r : Option Host). Gives final r)
        (run-append (steps setup enable) (steps setup rest ++ flash_wait setup ∷ []) h)
        (run_then setup serves incoming taken (writes value) (flash_wait setup ∷ []) sent issued
          final h (writes_valid value) now
          (λ h1 next.
            Gives-bind final final (flash_wait-At n taken sent1 issued1 h1 enough free next)
              (λ h2 done. gives done)))

-- On a host that answers at once, if a status word without the busy bit is among the rounds of the
-- wait, the setting of the quad enable bit ends: it writes the second status register back with that
-- bit set and its other bits as they were read, waits, and reports an error exactly when the bit is
-- clear in the register that it reads then.
pub set_qe_bit_lem :
    (setup : Setup) (serves : Serves setup) (n garbage : ℕ) (h : Host)
    → n < setup.rounds
    → FreeAfter setup serves h.incoming (h.taken + 1) n
    → Answers (spi_get_status h)
    → let value = bit_or (h.incoming h.taken) 2 in
      let check = h.incoming (h.taken + 1 + suc n) in
      Gives
        (λ (r : Host × ℕ).
          (r.1 ≡ (if bit_and check 2 == 0 then flash_error else flash_ok))
          × At
              ((((h.sent ++ sent_by (ask fc_rsr2)) ++ sent_by (writes value))
                  ++ sent_by (polls (suc n)))
                ++ sent_by (ask fc_rsr2))
              ((((h.issued ++ issued_by (ask fc_rsr2)) ++ issued_by (writes value))
                  ++ issued_by (polls (suc n)))
                ++ issued_by (ask fc_rsr2))
              h.incoming
              (h.taken + 1 + suc n + 1)
              r.0)
        (set_qe_bit setup garbage h)
unfolding set_qe_bit
set_qe_bit_lem setup serves n garbage h enough free answers =
    let now : At h.sent h.issued h.incoming h.taken h = record {
      answers = answers;
      same_sent = refl;
      same_issued = refl;
      same_incoming = refl;
      same_taken = refl;
    } in
    let marked = set_rx_watermark-At 1 h.sent h.issued h.taken h now in
    let value = bit_or (h.incoming h.taken) 2 in
    let taken = h.taken + 1 + suc n in
    let sent1 = h.sent ++ sent_by (ask fc_rsr2) in
    let issued1 = h.issued ++ issued_by (ask fc_rsr2) in
    let sent2 = (sent1 ++ sent_by (writes value)) ++ sent_by (polls (suc n)) in
    let issued2 = (issued1 ++ issued_by (writes value)) ++ issued_by (polls (suc n)) in
    let read = λ (s i : List ℕ) (t : ℕ) (r : Host × ℕ).
      (r.1 ≡ h.incoming t)
      × At (s ++ sent_by (ask fc_rsr2)) (i ++ issued_by (ask fc_rsr2)) h.incoming (t + 1) r.0 in
    let final = λ (r : Host × ℕ).
      (r.1 ≡ (if bit_and (h.incoming taken) 2 == 0 then flash_error else flash_ok))
      × At (sent2 ++ sent_by (ask fc_rsr2)) (issued2 ++ issued_by (ask fc_rsr2)) h.incoming
          (taken + 1) r.0 in
    Gives-bind (read h.sent h.issued h.taken) final
      (read_status2-At setup serves h.incoming garbage h.taken h.sent h.issued
        (spi_set_rx_watermark 1 h).0 marked)
      (λ r got.
        Gives-bind (At sent2 issued2 h.incoming taken) final
          (rw got.0 (
            write_status2-At setup serves h.incoming value n (h.taken + 1) sent1 issued1 r.0 enough
              free got.1))
          (λ h1 now2.
            Gives-map (read sent2 issued2 taken) final
              (read_status2-At setup serves h.incoming 0 taken sent2 issued2 h1 now2)
              (λ c checked. (rw checked.0 refl, checked.1))))
