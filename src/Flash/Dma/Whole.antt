-- ===== src/Flash/Dma/Whole.antt =====
-- w25q.c: w25q128jw_read and w25q128jw_write, which choose between the other reads and writes.
use mathlib.Core.Option
use core_v_mini_mcu.Base.{ℕ, ◌-◌, not, leb, ltb, ◌==◌, if◌then◌else◌, Option, some}
use core_v_mini_mcu.Flash.{flash_error}
use core_v_mini_mcu.Flash.Dma.{
  Board, Wiring, Statics, bytes_from, dma_wait, flattened, in_range, w25q128jw_read_standard_dma,
  w25q128jw_read_quad_dma, w25q128jw_write_standard_dma, w25q128jw_write_quad_dma,
}
use core_v_mini_mcu.Flash.Erase.{w25q128jw_4k_erase}
use core_v_mini_mcu.Flash.Read.{w25q128jw_read_quad}
use core_v_mini_mcu.Flash.Update.{Buffer, Calls, erase_and_write, flash_sector_size}
use core_v_mini_mcu.SpiHost.{Host}

abbrev pub rx_dma_threshold : ℕ
rx_dma_threshold = 75

-- A buffer that lies at an address of the memory.
abbrev pub placed : Buffer → ℕ → Buffer → Buffer
placed memory at buffer j = if leb at j then buffer (j - at) else memory j

unfoldable pub read_quad_into : Wiring → ℕ → ℕ → ℕ → Board → Option (Board × ℕ)
unfolding w25q128jw_read_quad
read_quad_into wiring addr data_ptr length b =
    Option.map
      (λ (r : (Host × Buffer) × ℕ).
        (record b { host = r.0.0; memory = placed b.memory data_ptr r.0.1 }, r.1))
      (w25q128jw_read_quad wiring.setup addr (not (data_ptr == 0)) length b.host
        (bytes_from b.memory data_ptr))

unfoldable pub w25q128jw_read : Wiring → Statics → ℕ → ℕ → ℕ → Board → Option (Board × ℕ)
unfolding read_quad_into w25q128jw_read_quad_dma dma_wait
w25q128jw_read wiring v addr data_ptr length b =
    if not (in_range addr data_ptr length)
    then some (b, flash_error)
    else if ltb length rx_dma_threshold
    then read_quad_into wiring addr data_ptr length b
    else Option.bind (dma_wait wiring.works wiring.setup.rounds b)
        (w25q128jw_read_quad_dma wiring v addr data_ptr length)

-- The branch of a write without an erase.
unfoldable pub write_over : Wiring → Statics → ℕ → ℕ → ℕ → Board → Option (Board × ℕ)
unfolding w25q128jw_write_quad_dma dma_wait
write_over wiring v addr data_ptr length b =
    Option.bind (dma_wait wiring.works wiring.setup.rounds b)
      (λ (b1 : Board). flattened (w25q128jw_write_quad_dma wiring v addr data_ptr length b1))

-- The calls of `erase_and_write`, with `sector_data` at the address `sector_ptr`.
abbrev pub board_calls : Wiring → Statics → Statics → ℕ → Calls Board
unfolding w25q128jw_read w25q128jw_4k_erase write_over
board_calls wiring reads sends sector_ptr = record {
  read = λ start sector n b.
      Option.map (λ (r : Board × ℕ). ((r.0, bytes_from r.0.memory sector_ptr), r.1))
        (w25q128jw_read wiring reads start sector_ptr n
          (record b { memory = placed b.memory sector_ptr sector }));
  erase = λ start b.
      Option.map (λ (r : Host × Option ℕ). record b { host = r.0 })
        (w25q128jw_4k_erase wiring.setup start b.host);
  write = λ start changed n b.
      (let stored = record b { memory = placed b.memory sector_ptr changed } in
        if not (in_range start sector_ptr n)
        then some (stored, flash_error)
        else write_over wiring sends start sector_ptr n stored);
}

unfoldable pub w25q128jw_write :
    Wiring → Statics → Statics → ℕ → ℕ → ℕ → ℕ → ℕ → Board → Option (Board × ℕ)
unfolding erase_and_write write_over
w25q128jw_write wiring reads sends sector_ptr addr data_ptr length erase_before_write b =
    if not (in_range addr data_ptr length)
    then some (b, flash_error)
    else if erase_before_write == 1
    then Option.map (λ (r : (Board × Buffer) × ℕ). (r.0.0, r.1))
        (erase_and_write (board_calls wiring reads sends sector_ptr) addr
          (bytes_from b.memory data_ptr) length b (bytes_from b.memory sector_ptr))
    else write_over wiring sends addr data_ptr length b

-- An update that reads and writes with the DMA.
abbrev pub dma_calls :
    Wiring
    → ℕ
    → (ℕ → Board → Option (Board × ℕ))
    → (ℕ → Board → Option (Option Board × ℕ))
    → Calls Board
unfolding w25q128jw_4k_erase
dma_calls wiring sector_ptr read write = record {
  read = λ start sector n b.
      Option.map (λ (r : Board × ℕ). ((r.0, bytes_from r.0.memory sector_ptr), r.1))
        (read start (record b { memory = placed b.memory sector_ptr sector }));
  erase = λ start b.
      Option.map (λ (r : Host × Option ℕ). record b { host = r.0 })
        (w25q128jw_4k_erase wiring.setup start b.host);
  write = λ start changed n b.
      flattened (write start (record b { memory = placed b.memory sector_ptr changed }));
}

unfoldable pub w25q128jw_erase_and_write_standard_dma :
    Wiring → Statics → Statics → ℕ → ℕ → ℕ → ℕ → Board → Option ((Board × Buffer) × ℕ)
unfolding erase_and_write w25q128jw_read_standard_dma w25q128jw_write_standard_dma
w25q128jw_erase_and_write_standard_dma wiring reads sends sector_ptr addr data_ptr length b =
    erase_and_write
      (dma_calls wiring sector_ptr
        (λ start b1.
          w25q128jw_read_standard_dma wiring reads start sector_ptr flash_sector_size 0 0 b1)
        (λ start b1.
          w25q128jw_write_standard_dma wiring sends start sector_ptr flash_sector_size b1))
      addr (bytes_from b.memory data_ptr) length b (bytes_from b.memory sector_ptr)

unfoldable pub w25q128jw_erase_and_write_quad_dma :
    Wiring → Statics → Statics → ℕ → ℕ → ℕ → ℕ → Board → Option ((Board × Buffer) × ℕ)
unfolding erase_and_write w25q128jw_read_quad_dma w25q128jw_write_quad_dma
w25q128jw_erase_and_write_quad_dma wiring reads sends sector_ptr addr data_ptr length b =
    erase_and_write
      (dma_calls wiring sector_ptr
        (λ start b1. w25q128jw_read_quad_dma wiring reads start sector_ptr flash_sector_size b1)
        (λ start b1. w25q128jw_write_quad_dma wiring sends start sector_ptr flash_sector_size b1))
      addr (bytes_from b.memory data_ptr) length b (bytes_from b.memory sector_ptr)
