-- ===== src/Dma/Launch/Wait.antt =====
-- The waiting loop of `dma_launch`.
use core_v_mini_mcu.Base.{ℕ, zero, suc, ◌≡◌, refl, arith, true, false, ap, none, some}
use core_v_mini_mcu.Dma.Config
use core_v_mini_mcu.Dma.Types.{World, Channel}
use core_v_mini_mcu.Dma.Interrupt.{Priority, fic_irq_dma}
use core_v_mini_mcu.Dma.Interrupt.Pending.{fic_irq_dma-keeps_waiting}
use core_v_mini_mcu.Dma.Launch.{is_loaded, start, keeps_waiting, wait_loop, dma_launch}
use core_v_mini_mcu.Dma.Load.{dma_is_ready}
use core_v_mini_mcu.Mmio.Laws.{update_self}

start-flag : (w : World) (p_trans : ℕ) → keeps_waiting (start w p_trans) p_trans ≡ false
unfolding start keeps_waiting
start-flag w p_trans =
    let t = w.transactions p_trans in
    let cleared =
      ap (λ (c : Channel). c.intr_flag)
        (update_self w.channels t.channel (record (w.channels t.channel) { intr_flag = 0 })) in
    rw cleared (ground arith)

-- If a transaction is loaded, its channel is ready and no interrupt comes before the loop, the launch
-- returns without a round of waiting, whatever the end event is.
pub dma_launch-never_waits :
    (wfi : World → World) (rounds : ℕ) (w : World) (p_trans : ℕ)
    → is_loaded (w.channels (w.transactions p_trans).channel).trans p_trans ≡ true
    → dma_is_ready w (w.transactions p_trans).channel ≡ true
    → dma_launch (λ s. s) wfi (suc rounds) w p_trans ≡ some (start w p_trans, Config.ok)
unfolding dma_launch wait_loop
dma_launch-never_waits wfi rounds w p_trans loaded ready =
    rw (loaded, ready) (rw (start-flag w p_trans, wait_loop) refl)

wait_loop-hangs :
    (priority : Priority) (ch_num rounds : ℕ) (w : World) (p_trans : ℕ)
    → keeps_waiting w p_trans ≡ true
    → wait_loop (λ s. (fic_irq_dma priority ch_num s).0) rounds w p_trans ≡ none
unfolding wait_loop
wait_loop-hangs priority ch_num zero w p_trans h = refl
wait_loop-hangs priority ch_num (suc rounds) w p_trans h =
    rw (h, wait_loop)
      (wait_loop-hangs priority ch_num rounds (fic_irq_dma priority ch_num w).0 p_trans
        (fic_irq_dma-keeps_waiting priority ch_num w p_trans h))

-- If a loaded transaction on a ready channel is to be waited for and its interrupt comes before the
-- loop, the launch does not return in any number of rounds of which each is a DMA interrupt.
pub dma_launch-hangs :
    (priority : Priority) (ch_num rounds : ℕ) (before : World → World) (w : World) (p_trans : ℕ)
    → is_loaded (w.channels (w.transactions p_trans).channel).trans p_trans ≡ true
    → dma_is_ready w (w.transactions p_trans).channel ≡ true
    → keeps_waiting (before (start w p_trans)) p_trans ≡ true
    → dma_launch before (λ s. (fic_irq_dma priority ch_num s).0) rounds w p_trans ≡ none
unfolding dma_launch
dma_launch-hangs priority ch_num rounds before w p_trans loaded ready pending =
    rw (loaded, ready)
      (rw (wait_loop-hangs priority ch_num rounds (before (start w p_trans)) p_trans pending) refl)
