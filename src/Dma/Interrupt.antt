-- ===== src/Dma/Interrupt.antt =====
-- dma.c: the interrupt handlers, which look for the channels that raised a flag. The application's
-- handlers are called once for each; the list holds the channels in the order of the calls.
pub mod Order
pub mod Fairness
pub mod Pending
use core_v_mini_mcu.Base.{
  ℕ, zero, suc, ◌+◌, ◌/◌, u16, Bool, true, false, ◌&&◌, ltb, leb, ◌==◌, if◌then◌else◌, List, [],
  ◌∷◌,
}
use core_v_mini_mcu.Dma.Reg
use core_v_mini_mcu.Dma.Types.{Channel, World}
use core_v_mini_mcu.Mmio.{Region, update, mmio_region_read32}

-- The build options DMA_HP_INTR_INDEX and DMA_NUM_HP_INTR: neither, the first, or both.
pub data Priority : Type 0 where
  equal : Priority
  high_up_to : ℕ → Priority
  high_up_to_at_most : ℕ → ℕ → Priority

-- After channel `i` was served: whether the handler returns, and the new counter.
unfoldable pub after_serving : Priority → ℕ → ℕ → Bool × ℕ
after_serving equal i counter = (false, counter)
after_serving (high_up_to index) i counter = (leb i index, counter)
after_serving (high_up_to_at_most index limit) i counter =
    if leb i index && ltb counter limit
    then (true, u16 (counter + 1))
    else if ltb index i
    then (false, 0)
    else (false, counter)

-- The flag of a channel in one of its interrupt flag registers.
abbrev pub raised : ℕ → World → ℕ → Bool
raised register w i = mmio_region_read32 (w.banks (w.channels i).peri) register == 1

-- `dma_subsys_per[i].intrFlag = 1`
abbrev pub finish : ℕ → World → World
finish i w = record w { channels = update w.channels i (record (w.channels i) { intr_flag = 1 }) }

-- The loop of `fic_irq_dma` from channel `i` on, with the number of channels left.
unfoldable pub fic_loop : Priority → ℕ → ℕ → World → World × List ℕ
unfolding after_serving
fic_loop priority zero i w = (w, [])
fic_loop priority (suc left) i w =
    let served = finish i w in
    let (returns, counter) = after_serving priority i w.hp_tr_intr_counter in
    let counted = record served { hp_tr_intr_counter = counter } in
    elim (raised Reg.transaction_ifr w i) [
      | true ↦
          if returns
          then (counted, i ∷ [])
          else (let (last, others) = fic_loop priority left (i + 1) counted in (last, i ∷ others))
      | false ↦ fic_loop priority left (i + 1) w
    ]

unfoldable pub fic_irq_dma : Priority → ℕ → World → World × List ℕ
unfolding fic_loop
fic_irq_dma priority ch_num w = fic_loop priority ch_num 0 w

-- The loop of `handler_irq_dma`.
unfoldable pub window_loop : Priority → ℕ → ℕ → World → World × List ℕ
unfolding after_serving
window_loop priority zero i w = (w, [])
window_loop priority (suc left) i w =
    let (returns, counter) = after_serving priority i w.hp_win_intr_counter in
    let counted = record w { hp_win_intr_counter = counter } in
    elim (raised Reg.window_ifr w i) [
      | true ↦
          if returns
          then (counted, i ∷ [])
          else (let (last, others) = window_loop priority left (i + 1) counted in
              (last, i ∷ others))
      | false ↦ window_loop priority left (i + 1) w
    ]

unfoldable pub handler_irq_dma : Priority → ℕ → World → World × List ℕ
unfolding window_loop
handler_irq_dma priority ch_num w = window_loop priority ch_num 0 w
