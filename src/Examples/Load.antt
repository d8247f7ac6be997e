-- ===== src/Examples/Load.antt =====
-- The theorems on loading and on the initialisation at the board of the examples.
use core_v_mini_mcu.Base.{ℕ, ◌+◌, ◌≡◌, ◌≢◌, refl, arith, true, none, some}
use core_v_mini_mcu.Dma.Config
use core_v_mini_mcu.Dma.Load.{
  dma_is_ready, is_ready, set_interrupts, set_padding, dma_load_transaction,
}
use core_v_mini_mcu.Dma.Load.Image.{IsConfigured}
use core_v_mini_mcu.Dma.Load.Prepared.{IsPrepared, IsExtended}
use core_v_mini_mcu.Dma.Load.Laws.{dma_load_transaction-ok}
use core_v_mini_mcu.Dma.Init.{dma_init}
use core_v_mini_mcu.Dma.Init.Laws.{IsReset, dma_init-IsReset}
use core_v_mini_mcu.Examples.Data.{four_words, registers, board}

is_free : dma_is_ready board 1 ≡ true
unfolding dma_is_ready is_ready
is_free = refl

dma_load_transaction-ok_example :
    let (w', flags) = dma_load_transaction board 0 in
    let u = w'.transactions 0 in
    (flags ≡ Config.ok)
    × ((w'.channels 1).trans ≡ some 0)
    × IsConfigured u
        (w'.targets u.src)
        (w'.targets u.dst)
        (w'.targets u.src_addr)
        (set_padding four_words (set_interrupts four_words registers))
        (w'.banks 1)
    × ((j : ℕ) → j ≢ 1 → w'.banks j ≡ registers)
    × IsPrepared four_words registers (set_padding four_words (set_interrupts four_words registers))
    × IsExtended board 0 w'
dma_load_transaction-ok_example = dma_load_transaction-ok board 0 refl is_free

dma_init-IsReset_example : IsReset (dma_init none (λ i. i + 7) 2 board) 1 8
dma_init-IsReset_example = dma_init-IsReset none (λ i. i + 7) 2 board 1 (omega arith)
