-- ===== src/SpiSdk/Segments.antt =====
-- spi_sdk.c: the checks of the segments of a transaction.
pub mod Count
use core_v_mini_mcu.Base.{
  ℕ, zero, suc, ◌+◌, ◌/◌, ◌%◌, u32, Bool, true, false, not, ◌||◌, ◌==◌, if◌then◌else◌,
}
use core_v_mini_mcu.Bitfield.{bitfield_read}
use core_v_mini_mcu.SpiHost.Word.{spi_validate_cmd, dir_tx_only, dir_rx_only, dir_bidir}
use core_v_mini_mcu.SpiSdk.Types.{Segment}

-- `LEN_WORDS`
abbrev pub len_words : ℕ → ℕ
len_words bytes = bytes / 4 + (if bytes % 4 == 0 then 0 else 1)

abbrev pub direction_of : ℕ → ℕ
direction_of mode = bitfield_read mode 3 0

abbrev pub speed_of : ℕ → ℕ
speed_of mode = bitfield_read mode 3 2

-- The result of the C function, and the two counts.
pub record Counted : Type 0 where
  pub valid : Bool
  pub tx_count : ℕ
  pub rx_count : ℕ

-- The loop over the segments from `i` on, with the number of segments left.
unfoldable pub count_loop : (ℕ → Segment) → ℕ → ℕ → ℕ → ℕ → Counted
count_loop segments zero i tx rx = record { valid = true; tx_count = tx; rx_count = rx }
count_loop segments (suc left) i tx rx =
    let direction = direction_of (segments i).mode in
    let speed = speed_of (segments i).mode in
    let word_len = len_words (segments i).len in
    let tx' =
      if direction == dir_tx_only || direction == dir_bidir then u32 (tx + word_len) else tx in
    let rx' =
      if direction == dir_rx_only || direction == dir_bidir then u32 (rx + word_len) else rx in
    elim (spi_validate_cmd direction speed) [
      | true ↦ count_loop segments left (i + 1) tx' rx'
      | false ↦ record { valid = false; tx_count = tx; rx_count = rx }
    ]

-- With no segment at all the counts are left as they were.
unfoldable pub spi_validate_segments : (ℕ → Segment) → ℕ → ℕ → ℕ → Counted
unfolding count_loop
spi_validate_segments segments segments_len tx rx =
    if segments_len == 0
    then record { valid = false; tx_count = tx; rx_count = rx }
    else count_loop segments segments_len 0 0 0
