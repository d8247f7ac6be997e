-- ===== src/Examples/Launch.antt =====
-- The theorems on launching at the board of the examples.
use core_v_mini_mcu.Base.{◌≡◌, refl, true, none, some}
use core_v_mini_mcu.Dma.Config
use core_v_mini_mcu.Dma.Load.{write_register, dma_is_ready, is_ready, dma_load_transaction}
use core_v_mini_mcu.Dma.Launch.{dma_launch, start, keeps_waiting, write_sizes}
use core_v_mini_mcu.Dma.Launch.Laws.{load-launch_critical}
use core_v_mini_mcu.Dma.Launch.Wait.{dma_launch-hangs}
use core_v_mini_mcu.Dma.Interrupt.{equal, fic_irq_dma, fic_loop, after_serving}
use core_v_mini_mcu.Examples.Data.{board}

is_free : dma_is_ready board 1 ≡ true
unfolding dma_is_ready is_ready
is_free = refl

ends_early : keeps_waiting ((fic_irq_dma equal 2 (start board 0)).0) 0 ≡ true
unfolding start keeps_waiting fic_irq_dma fic_loop after_serving write_sizes write_register
ends_early = refl

dma_launch-hangs_example :
    dma_launch (λ s. (fic_irq_dma equal 2 s).0) (λ s. (fic_irq_dma equal 2 s).0) 9 board 0 ≡ none
dma_launch-hangs_example =
    dma_launch-hangs equal 2 9 (λ s. (fic_irq_dma equal 2 s).0) board 0 refl is_free ends_early

load-launch_critical_example :
    let (w', flags) = dma_load_transaction board 2 in
    (flags ≡ Config.critical_error)
    × (w'.banks ≡ board.banks)
    × (dma_launch (λ s. s) (λ s. s) 1 w' 2 ≡ some (w', Config.critical_error))
load-launch_critical_example = load-launch_critical (λ s. s) (λ s. s) 1 board 2 refl
