-- ===== src/Flash/Read/Words.antt =====
-- The bytes that a read leaves in its buffer.
use core_v_mini_mcu.Base.{
  ℕ, zero, suc, ◌+◌, ◌-◌, ◌*◌, ◌/◌, ◌%◌, ◌≤◌, ◌<◌, ◌≡◌, refl, ap, subst, ◌∙◌, arith, true, false,
  Bool-cases, inl, inr, ltb, leb, ◌==◌, if◌then◌else◌, Option, some, List, Gives, Gives-mono,
  Gives-map, Gives-there,
}
use core_v_mini_mcu.Flash.{Setup}
use core_v_mini_mcu.Flash.Read.{byte_of, stored, read_words, read_chunk, read_loop}
use core_v_mini_mcu.Flash.Read.Answer.{Serves, At, read_word-At, wait_for_rx_watermark-At}
use core_v_mini_mcu.Flash.Update.{Buffer, within}
use core_v_mini_mcu.SpiHost.{Host, spi_read_word}
use core_v_mini_mcu.SpiHost.Reg

-- The words from `first` on lie in a buffer, in the place of the bytes from `start` on, as many as
-- `n`; its other bytes are the old ones.
abbrev pub Holds : (ℕ → ℕ) → ℕ → ℕ → ℕ → Buffer → Buffer → Type 0
Holds incoming first start n old new =
    (j : ℕ)
    → new j ≡ (if within start n j then byte_of (incoming (first + j / 4)) (j % 4) else old j)

Holds-join :
    (incoming : ℕ → ℕ) (first start n m : ℕ) (b0 b1 b2 : Buffer)
    → Holds incoming first start n b0 b1
    → Holds incoming first (start + n) m b1 b2
    → Holds incoming first start (n + m) b0 b2
Holds-join incoming first start n m b0 b1 b2 one two j = elim (Bool-cases (ltb j (start + n))) [
  | inl low ↦
      let none_later : within (start + n) m j ≡ false = ground (arith, low) in
      let inside : within start (n + m) j ≡ within start n j = ground (arith, low) in
      rw inside (rw none_later at (two j) ∙ one j)
  | inr high ↦
      let none_before : within start n j ≡ false = ground (arith, high) in
      let inside : within start (n + m) j ≡ within (start + n) m j = ground (arith, high) in
      let kept : b1 j ≡ b0 j = rw none_before at (one j) in rw (inside, ← kept) (two j)
]

module _ (setup : Setup) (serves : Serves setup) (incoming : ℕ → ℕ) (sent issued : List ℕ)
    (first : ℕ) where
  stored-Holds :
      (i : ℕ) (buffer : Buffer)
      → Holds incoming first (4 * i) 4 buffer (stored buffer i (some (incoming (first + i))))
  stored-Holds i buffer j = elim (Bool-cases (j / 4 == i)) [
    | inl here ↦
        let inside : within (4 * i) 4 j ≡ true = ground (arith, here) in
        let same : j / 4 ≡ i = ground (arith, here) in rw (here, inside, same) refl
    | inr elsewhere ↦
        let outside : within (4 * i) 4 j ≡ false = ground (arith, elsewhere) in
        rw (elsewhere, outside) refl
  ]

  read_words-suc :
      (left i : ℕ) (h h1 : Host) (buffer : Buffer) (word : Option ℕ) (flag : ℕ)
      → spi_read_word setup.device h ≡ ((h1, word), flag)
      → read_words setup (suc left) i h buffer
        ≡ read_words setup left (i + 1) h1 (stored buffer i word)
  unfolding read_words
  read_words-suc left i h h1 buffer word flag read =
      ap
        (λ (r : (Host × Option ℕ) × ℕ). read_words setup left (i + 1) r.0.0 (stored buffer i r.0.1))
        read

  read_words-Holds :
      (left i : ℕ) (h : Host) (buffer : Buffer)
      → At sent issued incoming (first + i) h
      → let r = read_words setup left i h buffer in
        At sent issued incoming (first + (i + left)) r.0
        × Holds incoming first (4 * i) (4 * left) buffer r.1
  unfolding read_words
  read_words-Holds zero i h buffer now =
      (subst (λ (t : ℕ). At sent issued incoming t h) (omega arith) now, λ j. ground arith)
  read_words-Holds (suc left) i h buffer now =
      let (h1, flag, read, next) =
        read_word-At setup serves incoming sent issued (first + i) h now in
      let b1 = stored buffer i (some (incoming (first + i))) in
      let (later, rest) =
        read_words-Holds left (i + 1) h1 b1
          (subst (λ (t : ℕ). At sent issued incoming t h1) (omega arith) next) in
      let r = read_words setup left (i + 1) h1 b1 in
      let place : 4 * (i + 1) ≡ 4 * i + 4 = omega arith in
      let more : 4 + 4 * left ≡ 4 * suc left = omega arith in
      rw (read_words-suc left i h h1 buffer (some (incoming (first + i))) flag read) (
        subst (λ (t : ℕ). At sent issued incoming t r.0) (omega arith) later,
        subst (λ (n : ℕ). Holds incoming first (4 * i) n buffer r.1) more
            (Holds-join incoming first (4 * i) 4 (4 * left) buffer b1 r.1 (stored-Holds i buffer)
              (subst (λ (p : ℕ). Holds incoming first p (4 * left) b1 r.1) place rest)),
      )

  -- What a chunk leaves, up to the word `stop`.
  abbrev pub Landed : ℕ → ℕ → Buffer → Host × Buffer → Type 0
  Landed start stop buffer r =
      At sent issued incoming (first + stop) r.0
      × Holds incoming first (4 * start) (4 * (stop - start)) buffer r.1

  Landed-join :
      (start middle stop : ℕ) (buffer : Buffer) (r r2 : Host × Buffer)
      → start ≤ middle
      → middle ≤ stop
      → Landed start middle buffer r
      → Landed middle stop r.1 r2
      → Landed start stop buffer r2
  Landed-join start middle stop buffer r r2 lo hi (now, held) (now2, held2) =
      let place : 4 * middle ≡ 4 * start + 4 * (middle - start) = omega arith in
      let more : 4 * (middle - start) + 4 * (stop - middle) ≡ 4 * (stop - start) = omega arith in
      (
        now2,
        subst (λ (n : ℕ). Holds incoming first (4 * start) n buffer r2.1) more
            (Holds-join incoming first (4 * start) (4 * (middle - start)) (4 * (stop - middle))
              buffer r.1 r2.1 held
              (subst (λ (p : ℕ). Holds incoming first p (4 * (stop - middle)) r.1 r2.1) place
                held2)),
      )

  read_loop-suc :
      (rounds length to_read i_start : ℕ) (h : Host) (buffer : Buffer) (r : Host × Buffer)
      → leb Reg.rx_depth length ≡ true
      → read_chunk setup (Reg.rx_depth / 4) (to_read + Reg.rx_depth) i_start h buffer ≡ some r
      → read_loop setup (suc rounds) length to_read i_start h buffer
        ≡ read_loop setup rounds
            (length - Reg.rx_depth)
            (to_read + Reg.rx_depth)
            (i_start + Reg.rx_depth / 4)
            r.0
            r.1
  unfolding read_loop
  read_loop-suc rounds length to_read i_start h buffer r more read = rw (more, read, read_loop) refl

  read_chunk-Landed :
      (watermark to_read i_start : ℕ) (h : Host) (buffer : Buffer)
      → i_start ≤ to_read / 4
      → At sent issued incoming (first + i_start) h
      → Gives
          (Landed i_start (to_read / 4) buffer)
          (read_chunk setup watermark to_read i_start h buffer)
  unfolding read_chunk
  read_chunk-Landed watermark to_read i_start h buffer le now =
      Gives-map (At sent issued incoming (first + i_start)) (Landed i_start (to_read / 4) buffer)
        (wait_for_rx_watermark-At setup serves incoming watermark sent issued (first + i_start) h
          now)
        (λ h1 there.
          let (later, rest) = read_words-Holds (to_read / 4 - i_start) i_start h1 buffer there in
          let stop : i_start + (to_read / 4 - i_start) ≡ to_read / 4 = omega arith in
          (
            subst
                (λ (t : ℕ).
                  At sent issued incoming (first + t)
                    (read_words setup (to_read / 4 - i_start) i_start h1 buffer).0)
                stop later,
            rest,
          ))

  pub read_loop-Landed :
      (rounds length i_start : ℕ) (h : Host) (buffer : Buffer)
      → length < rounds
      → At sent issued incoming (first + i_start) h
      → Gives
          (λ (r : (Host × Buffer) × ℕ).
            (r.1 % 4 ≡ length % 4) × Landed i_start (i_start + length / 4) buffer r.0)
          (read_loop setup rounds length (4 * i_start) i_start h buffer)
  unfolding read_loop
  read_loop-Landed zero length i_start h buffer enough now = absurd (omega arith)
  read_loop-Landed (suc rounds) length i_start h buffer enough now =
      elim (Bool-cases (leb Reg.rx_depth length)) [
        | inr last ↦
            let chunk =
              read_chunk-Landed (if length % 4 == 0 then length / 4 else length / 4 + 1)
                (4 * i_start + length) i_start h buffer (omega arith) now in
            let stop : (4 * i_start + length) / 4 ≡ i_start + length / 4 = omega arith in
            rw (last, read_loop)
              (Gives-map (Landed i_start ((4 * i_start + length) / 4) buffer)
                (λ (r : (Host × Buffer) × ℕ).
                  (r.1 % 4 ≡ length % 4) × Landed i_start (i_start + length / 4) buffer r.0)
                chunk (λ r landed. (refl, rw stop at landed)))
        | inl more ↦
            let (r, read, landed) =
              Gives-there (Landed i_start ((4 * i_start + Reg.rx_depth) / 4) buffer) (
                read_chunk-Landed (Reg.rx_depth / 4) (4 * i_start + Reg.rx_depth) i_start h buffer
                  (omega arith) now) in
            let next = i_start + Reg.rx_depth / 4 in
            let stop : (4 * i_start + Reg.rx_depth) / 4 ≡ next = omega arith in
            let total : next + (length - Reg.rx_depth) / 4 ≡ i_start + length / 4 =
              ground (arith, more) in
            let here = subst (λ (e : ℕ). Landed i_start e buffer r) stop landed in
            let to_read : 4 * next ≡ 4 * i_start + Reg.rx_depth = omega arith in
            let same : (length - Reg.rx_depth) % 4 ≡ length % 4 = ground (arith, more) in
            let rest =
              read_loop-Landed rounds (length - Reg.rx_depth) next r.0 r.1 (ground (arith, more))
                here.0 in
            rw (read_loop-suc rounds length (4 * i_start) i_start h buffer r more read) (
              Gives-mono
                (λ (r2 : (Host × Buffer) × ℕ).
                  (r2.1 % 4 ≡ (length - Reg.rx_depth) % 4)
                  × Landed next (next + (length - Reg.rx_depth) / 4) r.1 r2.0)
                (λ (r2 : (Host × Buffer) × ℕ).
                  (r2.1 % 4 ≡ length % 4) × Landed i_start (i_start + length / 4) buffer r2.0)
                (subst
                  (λ (t : ℕ).
                    Gives
                      (λ (r2 : (Host × Buffer) × ℕ).
                        (r2.1 % 4 ≡ (length - Reg.rx_depth) % 4)
                        × Landed next (next + (length - Reg.rx_depth) / 4) r.1 r2.0)
                      (read_loop setup rounds (length - Reg.rx_depth) t next r.0 r.1))
                  to_read rest)
                (λ r2 after. (
                  after.0 ∙ same,
                  subst (λ (e : ℕ). Landed i_start e buffer r2.0) total
                      (Landed-join i_start next (next + (length - Reg.rx_depth) / 4) buffer r r2.0
                        (omega arith) (omega arith) here after.1),
                )))
      ]
