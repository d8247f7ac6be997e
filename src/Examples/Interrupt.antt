-- ===== src/Examples/Interrupt.antt =====
-- The theorems on the interrupt handlers at the board of the examples, where both channels are raised.
use core_v_mini_mcu.Base.{ℕ, zero, suc, ◌+◌, true, ◌≡◌, ◌≤◌, refl, arith, [], ◌∷◌, none}
use core_v_mini_mcu.Dma.Reg
use core_v_mini_mcu.Dma.Types.{World}
use core_v_mini_mcu.Dma.Interrupt.{raised, high_up_to, high_up_to_at_most, fic_irq_dma}
use core_v_mini_mcu.Dma.Interrupt.Order.{raised_from, fic_irq_dma-high}
use core_v_mini_mcu.Dma.Interrupt.Fairness.{
  is_among, fic_irq_dma-no_starvation, fic_irq_dma-counter,
}
use core_v_mini_mcu.Examples.Data.{board}

abbrev flagged : World
flagged = record board { channels = λ i. record { trans = none; intr_flag = 1; peri = i } }

fic_irq_dma-high_example : (fic_irq_dma (high_up_to 0) 2 board).1 ≡ 0 ∷ []
fic_irq_dma-high_example = fic_irq_dma-high 0 2 board 0 (1 ∷ []) refl (omega arith)

-- Both channels stay raised and the handler is called again and again.
abbrev called : ℕ → World
called zero = board
called (suc n) = (fic_irq_dma (high_up_to_at_most 0 2) 2 (called n)).0

called_again :
    (n : ℕ)
    → (called (n + 1)).hp_tr_intr_counter
      ≡ (fic_irq_dma (high_up_to_at_most 0 2) 2 (called n)).0.hp_tr_intr_counter
called_again n = let next : n + 1 ≡ suc n = omega arith in rw next refl

called-raised : (n : ℕ) → n ≤ 2 → raised Reg.transaction_ifr (called n) 1 ≡ true
unfolding fic_irq_dma
called-raised zero le = refl
called-raised (suc zero) le = refl
called-raised (suc (suc zero)) le = refl
called-raised (suc (suc (suc n))) le = absurd (omega arith)

fic_irq_dma-no_starvation_example :
    (n : ℕ) × (n ≤ 2)
    × (is_among 1 (fic_irq_dma (high_up_to_at_most 0 2) 2 (called n)).1 ≡ true)
    × ((fic_irq_dma (high_up_to_at_most 0 2) 2 (called n)).1 ≡ raised_from (called n) 2 0)
fic_irq_dma-no_starvation_example =
    fic_irq_dma-no_starvation 0 2 2 1 called (omega arith) (omega arith) called_again called-raised

fic_irq_dma-counter_example :
    (fic_irq_dma (high_up_to_at_most 0 3) 2 board).0.hp_tr_intr_counter ≤ 3
fic_irq_dma-counter_example = fic_irq_dma-counter 0 3 2 board (omega arith)
