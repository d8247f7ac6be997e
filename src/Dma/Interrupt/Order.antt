-- ===== src/Dma/Interrupt/Order.antt =====
-- The channels that `fic_irq_dma` serves under each of the build options, and their flags.
use core_v_mini_mcu.Base.{
  ℕ, zero, suc, ◌+◌, ◌≤◌, ◌≡◌, refl, arith, true, leb, if◌then◌else◌, Bool-cases, inl, inr, ◌∙◌, ap,
  List, [], ◌∷◌, ℕ_discrete, eq→==, ne→==,
}
use core_v_mini_mcu.Dma.Reg
use core_v_mini_mcu.Dma.Types.{World}
use core_v_mini_mcu.Dma.Interrupt.{
  equal, high_up_to, after_serving, raised, finish, fic_loop, fic_irq_dma,
}

-- The raised channels among the `left` channels from `i` on, in ascending order.
abbrev pub raised_from : World → ℕ → ℕ → List ℕ
raised_from w zero i = []
raised_from w (suc left) i =
    if raised Reg.transaction_ifr w i
    then i ∷ raised_from w left (i + 1)
    else raised_from w left (i + 1)

raised-finish :
    (i : ℕ) (w : World) (j : ℕ)
    → raised Reg.transaction_ifr (finish i w) j ≡ raised Reg.transaction_ifr w j
raised-finish i w j = elim (ℕ_discrete j i) [
  | yes e ↦ rw (eq→== j i e) (rw e refl)
  | no ne ↦ rw (ne→== j i ne) refl
]

-- What is raised does not change while channels are served.
pub raised_from-finish :
    (i counter : ℕ) (w : World) (left j : ℕ)
    → raised_from (record (finish i w) { hp_tr_intr_counter = counter }) left j
      ≡ raised_from w left j
raised_from-finish i counter w zero j = refl
raised_from-finish i counter w (suc left) j =
    rw (raised-finish i w j, raised_from-finish i counter w left (j + 1))

fic_loop-equal : (left i : ℕ) (w : World) → (fic_loop equal left i w).1 ≡ raised_from w left i
unfolding fic_loop
fic_loop-equal zero i w = refl
fic_loop-equal (suc left) i w = elim (Bool-cases (raised Reg.transaction_ifr w i)) [
  | inl up ↦
      let later =
        fic_loop-equal left (i + 1)
          (record (finish i w) { hp_tr_intr_counter = w.hp_tr_intr_counter }) in
      rw (up, fic_loop)
        (ap (λ (l : List ℕ). i ∷ l)
          (later ∙ raised_from-finish i w.hp_tr_intr_counter w left (i + 1)))
  | inr down ↦ rw (down, fic_loop) (fic_loop-equal left (i + 1) w)
]

-- With no priorities every raised channel is served once, in ascending order.
pub fic_irq_dma-equal :
    (ch_num : ℕ) (w : World) → (fic_irq_dma equal ch_num w).1 ≡ raised_from w ch_num 0
unfolding fic_irq_dma
fic_irq_dma-equal ch_num w = fic_loop-equal ch_num 0 w

fic_loop-high :
    (index left i : ℕ) (w : World) (k : ℕ) (others : List ℕ)
    → raised_from w left i ≡ k ∷ others
    → k ≤ index
    → (fic_loop (high_up_to index) left i w).1 ≡ k ∷ []
unfolding fic_loop after_serving
fic_loop-high index zero i w k others h le = cc
fic_loop-high index (suc left) i w k others h le =
    elim (Bool-cases (raised Reg.transaction_ifr w i)) [
      | inl up ↦
          let first : i ≡ k = cc (rw up at h) in
          let high : leb i index ≡ true = ground arith in
          rw (up, fic_loop) (rw high (ap (λ (x : ℕ). x ∷ []) first))
      | inr down ↦
          rw (down, fic_loop) (fic_loop-high index left (i + 1) w k others (rw down at h) le)
    ]

-- With priorities and no limit, if the lowest raised channel is of high priority, it is the only
-- one that is served.
pub fic_irq_dma-high :
    (index ch_num : ℕ) (w : World) (k : ℕ) (others : List ℕ)
    → raised_from w ch_num 0 ≡ k ∷ others
    → k ≤ index
    → (fic_irq_dma (high_up_to index) ch_num w).1 ≡ k ∷ []
unfolding fic_irq_dma
fic_irq_dma-high index ch_num w k others h le = fic_loop-high index ch_num 0 w k others h le
