-- ===== src/Flash/Erase.antt =====
-- w25q.c: the wait for the flash, the resets and the erases.
use mathlib.Core.Option
use core_v_mini_mcu.Base.{
  ℕ, zero, suc, ◌%◌, true, false, ltb, ◌==◌, if◌then◌else◌, Option, none, some, [], ◌∷◌,
}
use core_v_mini_mcu.Flash.{
  Setup, Step, run, send, wait_for_ready, issue, wait_for_rx_watermark, with_addr,
  flash_write_enable, flash_reset, fc_rsr1, fc_se, fc_be32, fc_be64, fc_ce, flash_error,
  max_flash_addr,
}
use core_v_mini_mcu.SpiHost.{Host, spi_set_rx_watermark, spi_read_word}
use core_v_mini_mcu.SpiHost.Word.{dir_tx_only, dir_rx_only, speed_standard}

-- A read of the first status register of the flash, up to the word that is waited for.
unfoldable pub ask_status : Setup → Step
unfolding run
ask_status setup = run (
    send setup fc_rsr1
    ∷ issue setup 0 true speed_standard dir_tx_only
    ∷ issue setup 0 false speed_standard dir_rx_only
    ∷ wait_for_rx_watermark setup
    ∷ [])

-- The word of `flash_resp` after a read; a read of an empty queue leaves it.
abbrev pub response : Option ℕ → ℕ → ℕ
response none kept = kept
response (some word) kept = word

-- The loop of `flash_wait`, on the word that `flash_resp` holds: the flash is busy as long as the
-- lowest bit is set.
unfoldable pub flash_wait_loop : Setup → ℕ → ℕ → Step
unfolding ask_status spi_read_word
flash_wait_loop setup zero resp h = none
flash_wait_loop setup (suc rounds) resp h = elim (ask_status setup h) [
  | none ↦ none
  | some asked ↦
      let ((h1, word), flag) = spi_read_word setup.device asked in
      elim (response word resp % 2 == 0) [
        | true ↦ some h1
        | false ↦ flash_wait_loop setup rounds (response word resp) h1
      ]
]

unfoldable pub flash_wait : Setup → Step
unfolding flash_wait_loop spi_set_rx_watermark
flash_wait setup h = flash_wait_loop setup setup.rounds 0xffffffff (spi_set_rx_watermark 1 h).0

unfoldable pub w25q128jw_reset : Setup → Step
unfolding run
w25q128jw_reset setup = run (flash_wait setup ∷ flash_reset setup ∷ flash_wait setup ∷ [])

unfoldable pub w25q128jw_reset_force : Setup → Step
unfolding run
w25q128jw_reset_force setup = run (flash_reset setup ∷ flash_wait setup ∷ [])

-- The part that the three erases with an address share.
unfoldable pub erase : Setup → ℕ → ℕ → Step
unfolding run
erase setup command addr = run (
    flash_wait setup
    ∷ flash_write_enable setup
    ∷ send setup (with_addr setup addr command)
    ∷ wait_for_ready setup
    ∷ issue setup 3 false speed_standard dir_tx_only
    ∷ flash_wait setup
    ∷ [])

-- The new host and the code: `none` as a code stands for the value that is left where the function
-- ends with no return statement.
unfoldable pub w25q128jw_4k_erase : Setup → ℕ → Host → Option (Host × Option ℕ)
unfolding erase
w25q128jw_4k_erase setup addr h =
    if ltb max_flash_addr addr
    then some (h, some flash_error)
    else Option.map (λ (h1 : Host). (h1, none)) (erase setup fc_se addr h)

unfoldable pub w25q128jw_32k_erase : Setup → ℕ → Host → Option (Host × Option ℕ)
unfolding erase
w25q128jw_32k_erase setup addr h =
    if ltb max_flash_addr addr
    then some (h, some flash_error)
    else Option.map (λ (h1 : Host). (h1, none)) (erase setup fc_be32 addr h)

unfoldable pub w25q128jw_64k_erase : Setup → ℕ → Host → Option (Host × Option ℕ)
unfolding erase
w25q128jw_64k_erase setup addr h =
    if ltb max_flash_addr addr
    then some (h, some flash_error)
    else Option.map (λ (h1 : Host). (h1, none)) (erase setup fc_be64 addr h)

unfoldable pub w25q128jw_chip_erase : Setup → Step
unfolding run
w25q128jw_chip_erase setup = run (
    flash_wait setup
    ∷ flash_write_enable setup
    ∷ send setup fc_ce
    ∷ wait_for_ready setup
    ∷ issue setup 0 false speed_standard dir_tx_only
    ∷ flash_wait setup
    ∷ [])
