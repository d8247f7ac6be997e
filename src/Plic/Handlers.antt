-- ===== src/Plic/Handlers.antt =====
-- The array of handlers, and the external interrupt.
use core_v_mini_mcu.Base.{
  ℕ, zero, suc, ◌+◌, ◌-◌, ◌<◌, ◌≤◌, ◌≡◌, refl, arith, leb, ◌&&◌, true, ℕ_discrete, ap, ◌∙◌,
}
use core_v_mini_mcu.Mmio.{Region, update, mmio_region_read32}
use core_v_mini_mcu.Mmio.Laws.{update_self, update-other}
use core_v_mini_mcu.Plic.{
  ok, Handler, handler_irq_dummy, assigned, Numbers, handler_of, reset_loop,
  plic_reset_handlers_list, plic_assign_external_irq_handler, handler_irq_external,
  plic_irq_complete, cc0,
}

reset_loop-below :
    (n : Numbers) (left i : ℕ) (handlers : ℕ → Handler) (j : ℕ)
    → j < i
    → reset_loop n left i handlers j ≡ handlers j
unfolding reset_loop
reset_loop-below n zero i handlers j h = refl
reset_loop-below n (suc left) i handlers j h =
    reset_loop-below n left (i + 1) (update handlers i (handler_of n i)) j (omega arith)
    ∙ update-other handlers i (handler_of n i) j (omega arith)

reset_loop-within :
    (n : Numbers) (left i : ℕ) (handlers : ℕ → Handler) (j : ℕ)
    → i ≤ j
    → j < i + left
    → reset_loop n left i handlers j ≡ handler_of n j
unfolding reset_loop
reset_loop-within n zero i handlers j h b = absurd (omega arith)
reset_loop-within n (suc left) i handlers j h b = elim (ℕ_discrete j i) [
  | yes e ↦ rw e (
      reset_loop-below n left (i + 1) (update handlers i (handler_of n i)) i (omega arith)
      ∙ update_self handlers i (handler_of n i))
  | no ne ↦
      reset_loop-within n left (i + 1) (update handlers i (handler_of n i)) j (omega arith)
        (omega arith)
]

-- After the reset interrupt 0 has the dummy handler, and every other interrupt of the array has the
-- handler of the peripheral that its number belongs to.
pub plic_reset_handlers_list_lem :
    (n : Numbers) (handlers : ℕ → Handler)
    → (plic_reset_handlers_list n handlers 0 ≡ handler_irq_dummy)
      × ((j : ℕ) → 0 < j → j < n.qty_intr → plic_reset_handlers_list n handlers j ≡ handler_of n j)
unfolding plic_reset_handlers_list
plic_reset_handlers_list_lem n handlers =
    let first = update handlers 0 handler_irq_dummy in
    (
      reset_loop-below n (n.qty_intr - 1) 1 first 0 (omega arith),
      λ j a b. reset_loop-within n (n.qty_intr - 1) 1 first j (omega arith) (omega arith),
    )

abbrev with_id : ℕ → Handler → Handler × ℕ
with_id id h = (h, id)

-- A handler that is assigned to an external interrupt within the array is the one that is called
-- when the interrupt is claimed, with the interrupt's number; the interrupt is then completed.
pub handler_irq_external-assigned :
    (n : Numbers) (run : Handler → ℕ → Region → Region) (handlers : ℕ → Handler) (r : Region)
    (id handler : ℕ)
    → n.ext_irq_start ≤ id
    → id < n.qty_intr
    → mmio_region_read32 r cc0 ≡ id
    → let (handlers', result) = plic_assign_external_irq_handler n handlers id handler in
      let (r', called) = handler_irq_external run handlers' r in
      (result ≡ ok) × (called ≡ (assigned handler, id)) × (mmio_region_read32 r' cc0 ≡ id)
unfolding plic_assign_external_irq_handler handler_irq_external plic_irq_complete
handler_irq_external-assigned n run handlers r id handler a b c =
    let within : (leb n.ext_irq_start id && leb id n.qty_intr) ≡ true = ground arith in
    rw within (refl, rw c (ap (with_id id) (update_self handlers id (assigned handler))), c)
