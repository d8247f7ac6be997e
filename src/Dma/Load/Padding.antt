-- ===== src/Dma/Load/Padding.antt =====
-- Padding in one dimension.
use core_v_mini_mcu.Base.{ℕ, ◌≡◌, refl, true, false, ltb, Bool-cases, inl, inr, ◌∙◌, ap, some}
use core_v_mini_mcu.Dma.Config.{is_critical}
use core_v_mini_mcu.Dma.Reg
use core_v_mini_mcu.Dma.Types.{Trans, World, is_polling, EndEvent, dim_2d, polling, intr, intr_wait}
use core_v_mini_mcu.Dma.Load.{
  set_interrupts, set_padding, is_padded_1d, extend_1d, set_csrs, load, dma_load_transaction,
  dma_is_ready,
}
use core_v_mini_mcu.Dma.Load.Laws.{dma_load_transaction-ok}
use core_v_mini_mcu.Mmio.{Region, update, mmio_region_read32}
use core_v_mini_mcu.Mmio.Laws.{update_self}

set_interrupts-pads :
    (t : Trans) (r : Region) → (set_interrupts t r 17 ≡ r 17) × (set_interrupts t r 18 ≡ r 18)
unfolding set_interrupts
set_interrupts-pads t r = by_event t.end_event
  where
    by_event :
        (e : EndEvent)
        → let u = record t { end_event = e } in
          (set_interrupts u r 17 ≡ r 17) × (set_interrupts u r 18 ≡ r 18)
    by_event polling = (refl, refl)
    by_event intr = elim (Bool-cases (ltb 0 t.win_du)) [
      | inl e ↦ rw (e, set_interrupts) (refl, refl)
      | inr e ↦ rw (e, set_interrupts) (refl, refl)
    ]
    by_event intr_wait = elim (Bool-cases (ltb 0 t.win_du)) [
      | inl e ↦ rw (e, set_interrupts) (refl, refl)
      | inr e ↦ rw (e, set_interrupts) (refl, refl)
    ]

set_padding-padded :
    (t : Trans) (r : Region)
    → is_padded_1d t ≡ true
    → (set_padding t r 17 ≡ r 17) × (set_padding t r 18 ≡ r 18)
unfolding set_padding
set_padding-padded t r h = rw (h, set_padding) (refl, refl)

set_csrs-transactions : (t : Trans) (w : World) → (set_csrs t w).transactions ≡ w.transactions
unfolding set_csrs
set_csrs-transactions t w = elim (Bool-cases (is_polling t.end_event)) [
  | inl e ↦ rw e refl
  | inr e ↦ rw e refl
]

extend_1d-padded :
    (w : World) (p_trans : ℕ)
    → is_padded_1d (w.transactions p_trans) ≡ true
    → (((extend_1d w p_trans).transactions p_trans).dim ≡ dim_2d)
      × (((extend_1d w p_trans).transactions p_trans).size_d2_du ≡ 1)
unfolding extend_1d
extend_1d-padded w p_trans h =
    let t = w.transactions p_trans in
    let written = update_self w.transactions p_trans (record t { dim = dim_2d; size_d2_du = 1 }) in
    rw h (ap (λ (u : Trans). u.dim) written, ap (λ (u : Trans). u.size_d2_du) written)

extended_1d :
    (w : World) (p_trans : ℕ)
    → is_critical (w.transactions p_trans).flags ≡ false
    → dma_is_ready w (w.transactions p_trans).channel ≡ true
    → is_padded_1d (w.transactions p_trans) ≡ true
    → let w' = (dma_load_transaction w p_trans).0 in
      ((w'.transactions p_trans).dim ≡ dim_2d) × ((w'.transactions p_trans).size_d2_du ≡ 1)
unfolding dma_load_transaction load
extended_1d w p_trans h b padded =
    let t = w.transactions p_trans in
    let w1 = record w {
      channels =
          update w.channels t.channel (record (w.channels t.channel) { trans = some p_trans });
    } in
    let same = ap (λ (f : ℕ → Trans). is_padded_1d (f p_trans)) (set_csrs-transactions t w1) in
    rw (h, b) (extend_1d-padded (set_csrs t w1) p_trans (same ∙ padded))

-- A transaction in one dimension with padding at the left or the right, without the critical flag and
-- on a ready channel, becomes one row in two dimensions, and the registers of the paddings at the top
-- and at the bottom stay as they were.
pub load_padded_1d :
    (w : World) (p_trans : ℕ)
    → is_critical (w.transactions p_trans).flags ≡ false
    → dma_is_ready w (w.transactions p_trans).channel ≡ true
    → is_padded_1d (w.transactions p_trans) ≡ true
    → let w' = (dma_load_transaction w p_trans).0 in
      let t = w.transactions p_trans in
      let peri = (w.channels t.channel).peri in
      ((w'.transactions p_trans).dim ≡ dim_2d)
      × ((w'.transactions p_trans).size_d2_du ≡ 1)
      × (mmio_region_read32 (w'.banks peri) Reg.pad_top
          ≡ mmio_region_read32 (w.banks peri) Reg.pad_top)
      × (mmio_region_read32 (w'.banks peri) Reg.pad_bottom
          ≡ mmio_region_read32 (w.banks peri) Reg.pad_bottom)
load_padded_1d w p_trans h b padded =
    let t = w.transactions p_trans in
    let r = w.banks (w.channels t.channel).peri in
    let ok = dma_load_transaction-ok w p_trans h b in
    let extended = extended_1d w p_trans h b padded in
    let pads = ok.2.same_pads in
    let kept = set_padding-padded t (set_interrupts t r) padded in
    let enabled = set_interrupts-pads t r in
    (extended.0, extended.1, pads.0 ∙ kept.0 ∙ enabled.0, pads.1 ∙ kept.1 ∙ enabled.1)
