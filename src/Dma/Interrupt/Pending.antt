-- ===== src/Dma/Interrupt/Pending.antt =====
-- `fic_irq_dma` sets interrupt flags and never clears one.
use core_v_mini_mcu.Base.{
  ℕ, zero, suc, ◌+◌, ◌≡◌, refl, arith, true, false, ◌==◌, Bool-cases, inl, inr, ℕ_discrete, eq→==,
  ne→==,
}
use core_v_mini_mcu.Dma.Reg
use core_v_mini_mcu.Dma.Types.{World}
use core_v_mini_mcu.Dma.Interrupt.{Priority, after_serving, raised, finish, fic_loop, fic_irq_dma}
use core_v_mini_mcu.Dma.Launch.{keeps_waiting}

flag_set :
    (i : ℕ) (w : World) (j : ℕ)
    → ((w.channels j).intr_flag == 0) ≡ false
    → (((finish i w).channels j).intr_flag == 0) ≡ false
flag_set i w j h = elim (ℕ_discrete j i) [
  | yes e ↦ rw (eq→== j i e) refl
  | no ne ↦ rw (ne→== j i ne) h
]

finish-keeps_waiting :
    (i counter : ℕ) (w : World) (p_trans : ℕ)
    → keeps_waiting w p_trans ≡ true
    → keeps_waiting (record (finish i w) { hp_tr_intr_counter = counter }) p_trans ≡ true
unfolding keeps_waiting
finish-keeps_waiting i counter w p_trans h =
    ground (arith, flag_set i w (w.transactions p_trans).channel)

fic_loop-keeps_waiting :
    (priority : Priority) (left i : ℕ) (w : World) (p_trans : ℕ)
    → keeps_waiting w p_trans ≡ true
    → keeps_waiting (fic_loop priority left i w).0 p_trans ≡ true
unfolding fic_loop
fic_loop-keeps_waiting priority zero i w p_trans h = h
fic_loop-keeps_waiting priority (suc left) i w p_trans h =
    let counter = (after_serving priority i w.hp_tr_intr_counter).1 in
    let kept = finish-keeps_waiting i counter w p_trans h in
    elim (Bool-cases (raised Reg.transaction_ifr w i)) [
      | inl up ↦ elim (Bool-cases (after_serving priority i w.hp_tr_intr_counter).0) [
        | inl ends ↦ rw (up, fic_loop) (rw ends kept)
        | inr goes ↦
            rw (up, fic_loop)
              (rw goes (
                fic_loop-keeps_waiting priority left (i + 1)
                  (record (finish i w) { hp_tr_intr_counter = counter }) p_trans kept))
      ]
      | inr down ↦ rw (down, fic_loop) (fic_loop-keeps_waiting priority left (i + 1) w p_trans h)
    ]

-- If the condition of the waiting loop of `dma_launch` holds before the handler, it holds after it.
pub fic_irq_dma-keeps_waiting :
    (priority : Priority) (ch_num : ℕ) (w : World) (p_trans : ℕ)
    → keeps_waiting w p_trans ≡ true
    → keeps_waiting (fic_irq_dma priority ch_num w).0 p_trans ≡ true
unfolding fic_irq_dma
fic_irq_dma-keeps_waiting priority ch_num w p_trans h =
    fic_loop-keeps_waiting priority ch_num 0 w p_trans h
