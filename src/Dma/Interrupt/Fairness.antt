-- ===== src/Dma/Interrupt/Fairness.antt =====
-- The interrupts of high priority under a limit on their number, over the calls of the handler.
use core_v_mini_mcu.Base.{
  ℕ, zero, suc, ◌+◌, ◌≤◌, ◌<◌, ◌≡◌, refl, arith, Bool, true, false, ◌||◌, ◌==◌, ◌^◌, ℕ_discrete,
  eq→==, ne→==, [], Bool-cases, inl, inr, ◌⊎◌, ◌∙◌, ap, List, ◌∷◌,
}
use core_v_mini_mcu.Dma.Reg
use core_v_mini_mcu.Dma.Types.{World}
use core_v_mini_mcu.Dma.Interrupt.{
  high_up_to_at_most, after_serving, raised, finish, fic_loop, fic_irq_dma,
}
use core_v_mini_mcu.Dma.Interrupt.Order.{raised_from, raised_from-finish}

-- At the limit, or past the high priorities, serving a channel does not end the handler.
after_serving-patient :
    (index limit i counter : ℕ)
    → (limit ≤ counter) ⊎ (index < i)
    → let (returns, counter') = after_serving (high_up_to_at_most index limit) i counter in
      (returns ≡ false) × ((limit ≤ counter') ⊎ (index < i + 1))
unfolding after_serving
after_serving-patient index limit i counter h = ground arith

fic_loop-patient :
    (index limit left i : ℕ) (w : World)
    → (limit ≤ w.hp_tr_intr_counter) ⊎ (index < i)
    → (fic_loop (high_up_to_at_most index limit) left i w).1 ≡ raised_from w left i
unfolding fic_loop
fic_loop-patient index limit zero i w h = refl
fic_loop-patient index limit (suc left) i w h = elim (Bool-cases (raised Reg.transaction_ifr w i)) [
  | inl up ↦
      let patient = after_serving-patient index limit i w.hp_tr_intr_counter h in
      let counter = (after_serving (high_up_to_at_most index limit) i w.hp_tr_intr_counter).1 in
      let later =
        fic_loop-patient index limit left (i + 1)
          (record (finish i w) { hp_tr_intr_counter = counter }) patient.1 in
      rw (up, fic_loop)
        (rw patient.0
          (ap (λ (l : List ℕ). i ∷ l) (later ∙ raised_from-finish i counter w left (i + 1))))
  | inr down ↦ rw (down, fic_loop) (fic_loop-patient index limit left (i + 1) w (later_index h))
]
  where
    later_index :
        (limit ≤ w.hp_tr_intr_counter) ⊎ (index < i)
        → (limit ≤ w.hp_tr_intr_counter) ⊎ (index < i + 1)
    later_index (inl a) = inl a
    later_index (inr b) = inr (omega arith)

-- A channel that ends the handler is counted, below the limit; one that does not leaves it patient.
after_serving-counts :
    (index limit i counter : ℕ)
    → limit < 2 ^ 16
    → (after_serving (high_up_to_at_most index limit) i counter).0 ≡ true
    → (counter < limit)
      × ((after_serving (high_up_to_at_most index limit) i counter).1 ≡ counter + 1)
unfolding after_serving
after_serving-counts index limit i counter fits ends = ground arith

after_serving-goes :
    (index limit i counter : ℕ)
    → (after_serving (high_up_to_at_most index limit) i counter).0 ≡ false
    → (limit ≤ counter) ⊎ (index < i)
unfolding after_serving
after_serving-goes index limit i counter goes = ground arith

-- A call serves every raised channel, in ascending order, or counts one more towards the limit.
abbrev ServesOrCounts : ℕ → World → List ℕ → World × List ℕ → Type 0
ServesOrCounts limit w all r =
    (r.1 ≡ all)
    ⊎ ((w.hp_tr_intr_counter < limit) × (r.0.hp_tr_intr_counter ≡ w.hp_tr_intr_counter + 1))

fic_loop-ServesOrCounts :
    (index limit left i : ℕ) (w : World)
    → limit < 2 ^ 16
    → ServesOrCounts limit w
        (raised_from w left i)
        (fic_loop (high_up_to_at_most index limit) left i w)
unfolding fic_loop
fic_loop-ServesOrCounts index limit zero i w fits = inl refl
fic_loop-ServesOrCounts index limit (suc left) i w fits =
    elim (Bool-cases (raised Reg.transaction_ifr w i)) [
      | inr down ↦ rw (down, fic_loop) (fic_loop-ServesOrCounts index limit left (i + 1) w fits)
      | inl up ↦
          elim (Bool-cases
            (after_serving (high_up_to_at_most index limit) i w.hp_tr_intr_counter).0) [
              | inl ends ↦
                  rw (up, fic_loop)
                    (rw ends
                      (inr (after_serving-counts index limit i w.hp_tr_intr_counter fits ends)))
              | inr goes ↦ inl (
                  fic_loop-patient index limit (suc left) i w
                    (after_serving-goes index limit i w.hp_tr_intr_counter goes))
            ]
    ]

-- Of as many calls as are left to the limit, and one, one serves every raised channel.
all_served :
    (index limit ch_num left n : ℕ) (boards : ℕ → World)
    → limit < 2 ^ 16
    → ((m : ℕ)
        → (boards (m + 1)).hp_tr_intr_counter
          ≡ (fic_irq_dma (high_up_to_at_most index limit) ch_num (boards m)).0.hp_tr_intr_counter)
    → limit ≤ (boards n).hp_tr_intr_counter + left
    → (m : ℕ) × (m ≤ n + left)
      × ((fic_irq_dma (high_up_to_at_most index limit) ch_num (boards m)).1
          ≡ raised_from (boards m) ch_num 0)
unfolding fic_irq_dma
all_served index limit ch_num zero n boards fits kept near =
    elim (fic_loop-ServesOrCounts index limit ch_num 0 (boards n) fits) [
      | inl served ↦ (n, omega arith, served)
      | inr (below, counted) ↦ absurd (omega arith)
    ]
all_served index limit ch_num (suc left) n boards fits kept near =
    elim (fic_loop-ServesOrCounts index limit ch_num 0 (boards n) fits) [
      | inl served ↦ (n, omega arith, served)
      | inr (below, counted) ↦
          let next : (boards (n + 1)).hp_tr_intr_counter ≡ (boards n).hp_tr_intr_counter + 1 =
            kept n ∙ counted in
          let (m, le, served) =
            all_served index limit ch_num left (n + 1) boards fits kept (omega arith) in
          (m, omega arith, served)
    ]

-- Whether a channel is among those served.
abbrev pub is_among : ℕ → List ℕ → Bool
is_among k [] = false
is_among k (x ∷ xs) = k == x || is_among k xs

raised-is_among :
    (w : World) (left i k : ℕ)
    → raised Reg.transaction_ifr w k ≡ true
    → i ≤ k
    → k < i + left
    → is_among k (raised_from w left i) ≡ true
raised-is_among w zero i k up ge lt = absurd (omega arith)
raised-is_among w (suc left) i k up ge lt = elim (ℕ_discrete k i) [
  | yes same ↦
      let here : raised Reg.transaction_ifr w i ≡ true = rw same at up in
      rw (here, eq→== k i same) refl
  | no other ↦
      let later = raised-is_among w left (i + 1) k up (omega (arith, other)) (omega arith) in
      elim (Bool-cases (raised Reg.transaction_ifr w i)) [
        | inl i_up ↦ rw (i_up, ne→== k i other) later
        | inr i_down ↦ rw i_down later
      ]
]

-- Let `boards` be what successive calls of the handler find: anything may change between two calls but
-- the counter of the handler. Under a limit that fits its 16 bits, a channel whose interrupt stays
-- raised is served by one of the first calls, one more than the limit at most, whatever its priority
-- and whatever channels of high priority are raised; that call serves all that are raised.
pub fic_irq_dma-no_starvation :
    (index limit ch_num k : ℕ) (boards : ℕ → World)
    → limit < 2 ^ 16
    → k < ch_num
    → ((n : ℕ)
        → (boards (n + 1)).hp_tr_intr_counter
          ≡ (fic_irq_dma (high_up_to_at_most index limit) ch_num (boards n)).0.hp_tr_intr_counter)
    → ((n : ℕ) → n ≤ limit → raised Reg.transaction_ifr (boards n) k ≡ true)
    → (n : ℕ) × (n ≤ limit)
      × (is_among k (fic_irq_dma (high_up_to_at_most index limit) ch_num (boards n)).1 ≡ true)
      × ((fic_irq_dma (high_up_to_at_most index limit) ch_num (boards n)).1
          ≡ raised_from (boards n) ch_num 0)
fic_irq_dma-no_starvation index limit ch_num k boards fits there kept stays =
    let (n, le, served) = all_served index limit ch_num limit 0 boards fits kept (omega arith) in
    let soon : n ≤ limit = omega arith in
    (
      n,
      soon,
      rw served (raised-is_among (boards n) ch_num 0 k (stays n soon) (omega arith) (omega arith)),
      served,
    )

after_serving-le :
    (index limit i counter : ℕ)
    → counter ≤ limit
    → (after_serving (high_up_to_at_most index limit) i counter).1 ≤ limit
unfolding after_serving
after_serving-le index limit i counter h = ground arith

fic_loop-le :
    (index limit left i : ℕ) (w : World)
    → w.hp_tr_intr_counter ≤ limit
    → (fic_loop (high_up_to_at_most index limit) left i w).0.hp_tr_intr_counter ≤ limit
unfolding fic_loop
fic_loop-le index limit zero i w h = h
fic_loop-le index limit (suc left) i w h =
    let kept = after_serving-le index limit i w.hp_tr_intr_counter h in
    let counter = (after_serving (high_up_to_at_most index limit) i w.hp_tr_intr_counter).1 in
    elim (Bool-cases (raised Reg.transaction_ifr w i)) [
      | inl up ↦
          elim (Bool-cases
            (after_serving (high_up_to_at_most index limit) i w.hp_tr_intr_counter).0) [
              | inl ends ↦ rw (up, fic_loop) (rw ends kept)
              | inr goes ↦
                  rw (up, fic_loop)
                    (rw goes (
                      fic_loop-le index limit left (i + 1)
                        (record (finish i w) { hp_tr_intr_counter = counter }) kept))
            ]
      | inr down ↦ rw (down, fic_loop) (fic_loop-le index limit left (i + 1) w h)
    ]

-- If the counter is at most its limit before a call of the handler, it is after the call.
pub fic_irq_dma-counter :
    (index limit ch_num : ℕ) (w : World)
    → w.hp_tr_intr_counter ≤ limit
    → (fic_irq_dma (high_up_to_at_most index limit) ch_num w).0.hp_tr_intr_counter ≤ limit
unfolding fic_irq_dma
fic_irq_dma-counter index limit ch_num w h = fic_loop-le index limit ch_num 0 w h
