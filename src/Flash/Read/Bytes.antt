-- ===== src/Flash/Read/Bytes.antt =====
-- A whole read of the flash: its commands and the bytes that it leaves.
use mathlib.Core.Option
use core_v_mini_mcu.Base.{
  ℕ, suc, ◌+◌, ◌-◌, ◌*◌, ◌/◌, ◌%◌, ◌^◌, ◌≤◌, ◌<◌, ◌≡◌, refl, subst, arith, bit_or, sub32, true,
  false, Bool-cases, inl, inr, ltb, leb, ◌==◌, ◌&&◌, List, [], ◌∷◌, ◌++◌, Gives, Gives-bind,
  Gives-map,
}
use core_v_mini_mcu.Flash.{Setup, run, with_addr, revert_24b_addr, flash_ok, max_flash_addr}
use core_v_mini_mcu.Flash.Range.{w25q128jw_sanity_checks-ok_iff}
use core_v_mini_mcu.Flash.Read.{
  byte_of, read_loop, read_rest, read_back, w25q128jw_read_standard, w25q128jw_read_quad, fc_rd,
  fc_rdqio, dummy_clocks_fast_read_quad_io,
}
use core_v_mini_mcu.Flash.Read.Answer.{Answers, Serves, At, read_word-At}
use core_v_mini_mcu.Flash.Read.Commands.{
  Action, word, ready, segment, steps, sent_by, issued_by, AllValid, run-At,
}
use core_v_mini_mcu.Flash.Read.Words.{Holds, Landed, read_loop-Landed}
use core_v_mini_mcu.Flash.Update.{Buffer, copied, within}
use core_v_mini_mcu.Flash.Write.{w25q128jw_sanity_checks}
use core_v_mini_mcu.SpiHost.{Host, spi_get_status}
use core_v_mini_mcu.SpiHost.Word.{
  spi_validate_cmd, dir_dummy, dir_rx_only, dir_tx_only, speed_standard, speed_quad,
}

-- The bytes past the last whole word, which are in a word of their own.
last-Holds :
    (incoming : ℕ → ℕ) (first length n : ℕ) (buffer b1 : Buffer)
    → n ≡ length % 4
    → Holds incoming first 0 (4 * (length / 4)) buffer b1
    → Holds incoming first 0 length buffer
        (copied b1 (4 * (length / 4)) (byte_of (incoming (first + length / 4))) n)
last-Holds incoming first length n buffer b1 same held j =
    let whole = 4 * (length / 4) in
    elim (Bool-cases (leb whole j && ltb j (whole + n))) [
      | inl last ↦
          let inside : within 0 length j ≡ true = ground (arith, last) in
          let word : j / 4 ≡ length / 4 = ground (arith, last) in
          let byte : j - whole ≡ j % 4 = ground (arith, last) in rw (last, inside, word, byte) refl
      | inr other ↦
          let kept : within 0 whole j ≡ within 0 length j = ground (arith, other) in
          rw (other, ← kept) (held j)
    ]

module _ (setup : Setup) (serves : Serves setup) (incoming : ℕ → ℕ) (first : ℕ) where
  module _ (sent issued : List ℕ) where
    -- What a read of `length` bytes leaves.
    abbrev pub ReadOf : ℕ → Buffer → Host × Buffer → Type 0
    ReadOf length buffer r =
        At sent issued incoming (first + (length + 3) / 4) r.0
        × Holds incoming first 0 length buffer r.1

    read_rest-ReadOf :
        (length left : ℕ) (buffer : Buffer) (r : Host × Buffer)
        → left % 4 ≡ length % 4
        → Landed setup serves incoming sent issued first 0 (length / 4) buffer r
        → ReadOf length buffer (read_rest setup length left r.0 r.1)
    unfolding read_rest
    read_rest-ReadOf length left buffer r same (now, held) = elim (Bool-cases (length % 4 == 0)) [
      | inl whole ↦
          let words : (length + 3) / 4 ≡ length / 4 = ground (arith, whole) in
          let bytes : 4 * (length / 4 - 0) ≡ length = ground (arith, whole) in
          rw (whole, words) (now, subst (λ (n : ℕ). Holds incoming first 0 n buffer r.1) bytes held)
      | inr part ↦
          let (h1, flag, read, next) =
            read_word-At setup serves incoming sent issued (first + length / 4) r.0 now in
          let words : first + length / 4 + 1 ≡ first + (length + 3) / 4 = ground (arith, part) in
          let bytes : 4 * (length / 4 - 0) ≡ 4 * (length / 4) = omega arith in
          rw (part, read)
            (
              subst (λ (t : ℕ). At sent issued incoming t h1) words next,
              last-Holds incoming first length (left % 4) buffer r.1 same
                  (subst (λ (n : ℕ). Holds incoming first 0 n buffer r.1) bytes held),
            )
    ]

    read_back-ReadOf :
        (length : ℕ) (buffer : Buffer) (h : Host)
        → At sent issued incoming first h
        → Gives (ReadOf length buffer) (read_back setup length buffer h)
    unfolding read_back
    read_back-ReadOf length buffer h now =
        let whole : 0 + length / 4 ≡ length / 4 = omega arith in
        let start : first ≡ first + 0 = omega arith in
        Gives-map
          (λ (r : (Host × Buffer) × ℕ).
            (r.1 % 4 ≡ length % 4)
            × Landed setup serves incoming sent issued first 0 (length / 4) buffer r.0)
          (ReadOf length buffer)
          (subst
            (λ (stop : ℕ).
              Gives
                (λ (r : (Host × Buffer) × ℕ).
                  (r.1 % 4 ≡ length % 4)
                  × Landed setup serves incoming sent issued first 0 stop buffer r.0)
                (read_loop setup (suc length) length 0 0 h buffer))
            whole
            (read_loop-Landed setup serves incoming sent issued first (suc length) length 0 h buffer
              (omega arith) (subst (λ (t : ℕ). At sent issued incoming t h) start now)))
          (λ r after. read_rest-ReadOf length r.1 buffer r.0 after.0 after.1)

-- The commands of a read at standard speed.
abbrev pub standard_actions : Setup → ℕ → ℕ → List Action
standard_actions setup addr length =
    word (with_addr setup addr fc_rd)
    ∷ ready
    ∷ segment 3 true speed_standard dir_tx_only
    ∷ segment (sub32 length 1) false speed_standard dir_rx_only
    ∷ []

-- The commands of a read at quad speed: the address goes out at quad speed, and four dummy cycles
-- come before the data.
abbrev pub quad_actions : Setup → ℕ → ℕ → List Action
quad_actions setup addr length =
    word fc_rdqio
    ∷ segment 0 true speed_standard dir_tx_only
    ∷ word (bit_or (revert_24b_addr setup addr) (0xff * 2 ^ 24))
    ∷ segment 3 true speed_quad dir_tx_only
    ∷ segment (dummy_clocks_fast_read_quad_io - 1) true speed_quad dir_dummy
    ∷ segment (sub32 length 1) false speed_quad dir_rx_only
    ∷ []

module _ (setup : Setup) (serves : Serves setup) where
  -- The commands of a read, and its bytes.
  read_after :
      (actions : List Action) (length : ℕ) (h : Host) (buffer : Buffer)
      → AllValid actions
      → Answers (spi_get_status h)
      → Gives
          (ReadOf setup serves h.incoming h.taken
            (h.sent ++ sent_by actions)
            (h.issued ++ issued_by actions)
            length
            buffer)
          (Option.bind (run (steps setup actions) h) (read_back setup length buffer))
  read_after actions length h buffer valid answers =
      let sent = h.sent ++ sent_by actions in
      let issued = h.issued ++ issued_by actions in
      let now : At h.sent h.issued h.incoming h.taken h = record {
        answers = answers;
        same_sent = refl;
        same_issued = refl;
        same_incoming = refl;
        same_taken = refl;
      } in
      Gives-bind (At sent issued h.incoming h.taken)
        (ReadOf setup serves h.incoming h.taken sent issued length buffer)
        (run-At setup serves h.incoming h.taken actions h.sent h.issued h valid now)
        (λ h1 next.
          read_back-ReadOf setup serves h.incoming h.taken sent issued length buffer h1 next)

  -- A read of these commands that ends without an error: its words are sent and its segments issued
  -- in their order, and the bytes that it took are in the first places of the buffer.
  abbrev pub Ends : List Action → ℕ → Host → Buffer → (Host × Buffer) × ℕ → Type 0
  Ends actions length h buffer r =
      (r.1 ≡ flash_ok)
      × ReadOf setup serves h.incoming h.taken (h.sent ++ sent_by actions)
          (h.issued ++ issued_by actions) length buffer r.0

  read_after-Ends :
      (actions : List Action) (length : ℕ) (h : Host) (buffer : Buffer)
      → AllValid actions
      → Answers (spi_get_status h)
      → Gives (Ends actions length h buffer) (
          Option.map
            (λ (r : Host × Buffer). (r, flash_ok))
            (Option.bind (run (steps setup actions) h) (read_back setup length buffer)))
  read_after-Ends actions length h buffer valid answers =
      Gives-map
        (ReadOf setup serves h.incoming h.taken (h.sent ++ sent_by actions)
          (h.issued ++ issued_by actions) length buffer)
        (Ends actions length h buffer) (read_after actions length h buffer valid answers)
        (λ r read. (refl, read))

  standard_valid : (addr length : ℕ) → AllValid (standard_actions setup addr length)
  unfolding spi_validate_cmd
  standard_valid addr length =
      (omega arith, omega arith, refl, (omega arith, omega arith, refl, tt))

  quad_valid : (addr length : ℕ) → AllValid (quad_actions setup addr length)
  unfolding spi_validate_cmd
  quad_valid addr length = (
    omega arith,
    omega arith,
    refl,
    (
      omega arith,
      omega arith,
      refl,
      (omega arith, omega arith, refl, (omega arith, omega arith, refl, tt)),
    ),
  )

  -- On a host that answers at once, a read at either speed of a range that the checks accept ends
  -- without an error: it sends the words and issues the segments of its commands in their order,
  -- takes as many words as the range needs, and leaves their bytes in the first `length` places of
  -- the buffer and no other.
  pub w25q128jw_read-Ends :
      (addr length : ℕ) (h : Host) (buffer : Buffer)
      → 0 < length
      → addr + length ≤ max_flash_addr
      → Answers (spi_get_status h)
      → Gives
          (Ends (standard_actions setup addr length) length h buffer)
          (w25q128jw_read_standard setup addr true length h buffer)
        × Gives
            (Ends (quad_actions setup addr length) length h buffer)
            (w25q128jw_read_quad setup addr true length h buffer)
  unfolding w25q128jw_read_standard w25q128jw_read_quad
  w25q128jw_read-Ends addr length h buffer some_bytes fits answers =
      let fine : w25q128jw_sanity_checks addr true length ≡ flash_ok =
        (w25q128jw_sanity_checks-ok_iff addr length (omega arith)).1 (some_bytes, fits) in
      (
        rw fine (
            read_after-Ends (standard_actions setup addr length) length h buffer
              (standard_valid addr length) answers),
        rw fine (
            read_after-Ends (quad_actions setup addr length) length h buffer
              (quad_valid addr length) answers),
      )
