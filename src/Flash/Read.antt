-- ===== src/Flash/Read.antt =====
-- w25q.c: the reads of the flash without the DMA. The words that are read go to the buffer four bytes
-- at a time, the lowest first.
pub mod Answer
pub mod Words
pub mod Commands
pub mod Bytes
use mathlib.Core.Option
use core_v_mini_mcu.Base.{
  ℕ, zero, suc, ◌+◌, ◌-◌, ◌*◌, ◌/◌, ◌%◌, ◌^◌, bit_or, sub32, Bool, true, false, not, leb, ◌==◌,
  if◌then◌else◌, Option, none, some, [], ◌∷◌,
}
use core_v_mini_mcu.Flash.{
  Setup, Step, run, send, wait_for_ready, issue, wait_for_rx_watermark, with_addr, revert_24b_addr,
  flash_ok, flash_error,
}
use core_v_mini_mcu.Flash.Erase.{response}
use core_v_mini_mcu.Flash.Update.{Buffer, copied}
use core_v_mini_mcu.Flash.Write.{w25q128jw_sanity_checks}
use core_v_mini_mcu.SpiHost.{Host, spi_read_word, spi_set_rx_watermark}
use core_v_mini_mcu.SpiHost.Reg
use core_v_mini_mcu.SpiHost.Word.{dir_dummy, dir_rx_only, dir_tx_only, speed_standard, speed_quad}

abbrev pub fc_rd : ℕ
fc_rd = 0x03

abbrev pub fc_rdqio : ℕ
fc_rdqio = 0xeb

abbrev pub dummy_clocks_fast_read_quad_io : ℕ
dummy_clocks_fast_read_quad_io = 4

-- The bytes of a word, the lowest first.
abbrev pub byte_of : ℕ → ℕ → ℕ
byte_of word i = word / 2 ^ (8 * i) % 2 ^ 8

-- A write to `data_32bit[i]`; a read of an empty queue writes nothing.
abbrev pub stored : Buffer → ℕ → Option ℕ → Buffer
stored buffer i none j = buffer j
stored buffer i (some word) j = if j / 4 == i then byte_of word (j % 4) else buffer j

-- The loop over the words of a chunk, with the number of those left.
unfoldable pub read_words : Setup → ℕ → ℕ → Host → Buffer → Host × Buffer
unfolding spi_read_word
read_words setup zero i h buffer = (h, buffer)
read_words setup (suc left) i h buffer =
    let ((h1, word), flag) = spi_read_word setup.device h in
    read_words setup left (i + 1) h1 (stored buffer i word)

-- The wait for a chunk and its words, up to the word `to_read / 4`.
unfoldable pub read_chunk : Setup → ℕ → ℕ → ℕ → Host → Buffer → Option (Host × Buffer)
unfolding read_words spi_set_rx_watermark
read_chunk setup watermark to_read i_start h buffer =
    Option.map (λ (h1 : Host). read_words setup (to_read / 4 - i_start) i_start h1 buffer)
      (wait_for_rx_watermark setup (spi_set_rx_watermark watermark h).0)

-- The loop over the chunks, with what is left in `length` after it. `none` also means that it still
-- runs after the rounds that it is given.
unfoldable pub read_loop : Setup → ℕ → ℕ → ℕ → ℕ → Host → Buffer → Option ((Host × Buffer) × ℕ)
unfolding read_chunk
read_loop setup zero length to_read i_start h buffer = none
read_loop setup (suc rounds) length to_read i_start h buffer = elim (leb Reg.rx_depth length) [
  | true ↦ elim (read_chunk setup (Reg.rx_depth / 4) (to_read + Reg.rx_depth) i_start h buffer) [
    | none ↦ none
    | some (h1, b1) ↦
        read_loop setup rounds (length - Reg.rx_depth) (to_read + Reg.rx_depth)
          (i_start + Reg.rx_depth / 4) h1 b1
  ]
  | false ↦
      let watermark = if length % 4 == 0 then length / 4 else length / 4 + 1 in
      Option.map (λ (r : Host × Buffer). (r, length))
        (read_chunk setup watermark (to_read + length) i_start h buffer)
]

-- The bytes past the last whole word; `left` is what the loop left in `length`.
unfoldable pub read_rest : Setup → ℕ → ℕ → Host → Buffer → Host × Buffer
unfolding spi_read_word
read_rest setup length left h buffer =
    if length % 4 == 0
    then (h, buffer)
    else (let ((h1, word), flag) = spi_read_word setup.device h in
        (h1, copied buffer (4 * (length / 4)) (byte_of (response word 0)) (left % 4)))

-- The part of both reads after the last command.
unfoldable pub read_back : Setup → ℕ → Buffer → Host → Option (Host × Buffer)
unfolding read_loop read_rest
read_back setup length buffer h =
    Option.map (λ (r : (Host × Buffer) × ℕ). read_rest setup length r.1 r.0.0 r.0.1)
      (read_loop setup (suc length) length 0 0 h buffer)

unfoldable pub w25q128jw_read_standard :
    Setup → ℕ → Bool → ℕ → Host → Buffer → Option ((Host × Buffer) × ℕ)
unfolding w25q128jw_sanity_checks run read_back
w25q128jw_read_standard setup addr data_there length h buffer =
    if not (w25q128jw_sanity_checks addr data_there length == flash_ok)
    then some ((h, buffer), flash_error)
    else Option.map (λ (r : Host × Buffer). (r, flash_ok))
        (Option.bind
          (run
            (send setup (with_addr setup addr fc_rd)
              ∷ wait_for_ready setup
              ∷ issue setup 3 true speed_standard dir_tx_only
              ∷ issue setup (sub32 length 1) false speed_standard dir_rx_only
              ∷ [])
            h)
          (read_back setup length buffer))

-- The commands of a read at quad speed, which its variant with the DMA shares.
unfoldable pub quad_commands : Setup → ℕ → ℕ → Step
unfolding run
quad_commands setup addr length = run (
    send setup fc_rdqio
    ∷ issue setup 0 true speed_standard dir_tx_only
    ∷ send setup (bit_or (revert_24b_addr setup addr) (0xff * 2 ^ 24))
    ∷ issue setup 3 true speed_quad dir_tx_only
    ∷ issue setup (dummy_clocks_fast_read_quad_io - 1) true speed_quad dir_dummy
    ∷ issue setup (sub32 length 1) false speed_quad dir_rx_only
    ∷ [])

unfoldable pub w25q128jw_read_quad :
    Setup → ℕ → Bool → ℕ → Host → Buffer → Option ((Host × Buffer) × ℕ)
unfolding w25q128jw_sanity_checks quad_commands read_back
w25q128jw_read_quad setup addr data_there length h buffer =
    if not (w25q128jw_sanity_checks addr data_there length == flash_ok)
    then some ((h, buffer), flash_error)
    else Option.map (λ (r : Host × Buffer). (r, flash_ok))
        (Option.bind (quad_commands setup addr length h) (read_back setup length buffer))
