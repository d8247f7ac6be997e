-- ===== src/Dma/Load/Laws.antt =====
-- `dma_load_transaction` on each of its branches.
use core_v_mini_mcu.Base.{
  ℕ, ◌≡◌, ◌≢◌, refl, arith, bit_and, shl32, true, false, Bool-cases, inl, inr, ◌∙◌, sym, ap, subst,
  none, some,
}
use core_v_mini_mcu.Bitfield.{bitfield_read, bitfield_write}
use core_v_mini_mcu.Bitfield.Fields.{bitfield_read-write, bitfield_read-write_other}
use core_v_mini_mcu.Dma.Config
use core_v_mini_mcu.Dma.Config.{is_critical}
use core_v_mini_mcu.Dma.Reg
use core_v_mini_mcu.Dma.Types.{Target, Trans, World, Channel, is_polling}
use core_v_mini_mcu.Dma.Load.{
  set_interrupts, set_padding, configure, is_padded_1d, extend_1d, set_csrs, load,
  dma_load_transaction, dma_is_ready,
}
use core_v_mini_mcu.Dma.Load.Image.{IsConfigured, configure-IsConfigured}
use core_v_mini_mcu.Dma.Load.Prepared.{
  IsPrepared, IsExtended, set_padding-IsPrepared, extend_1d-IsExtended,
}
use core_v_mini_mcu.Mmio.{Region, update, mmio_region_read32}
use core_v_mini_mcu.Mmio.Laws.{update_self, update-other}

slots_apart : bit_and (shl32 0xffff 16) (shl32 0xffff 0) ≡ 0
unfolding shl32
slots_apart = refl

-- Both trigger slots can be read back from the one register that holds them.
pub configured_slots :
    (t : Trans) (src dst src_addr : Target) (r : Region)
    → let slot = mmio_region_read32 (configure t src dst src_addr r) Reg.slot in
      (bitfield_read slot 0xffff 0 ≡ bit_and src.trig 0xffff)
      × (bitfield_read slot 0xffff 16 ≡ bit_and dst.trig 0xffff)
configured_slots t src dst src_addr r =
    let image = (configure-IsConfigured t src dst src_addr r).slot in
    let before = mmio_region_read32 r Reg.slot in
    let rx = bitfield_write before 0xffff 0 src.trig in
    (
      rw image (
          bitfield_read-write_other rx 0xffff 16 dst.trig 0xffff 0 (omega arith) slots_apart
          ∙ bitfield_read-write before 0xffff 0 src.trig (omega arith)),
      rw image (bitfield_read-write rx 0xffff 16 dst.trig (omega arith)),
    )

-- A transaction with the critical flag is dropped, and no register is written.
pub dma_load_transaction_critical :
    (w : World) (p_trans : ℕ)
    → is_critical (w.transactions p_trans).flags ≡ true
    → let (w', flags) = dma_load_transaction w p_trans in
      (flags ≡ Config.critical_error)
      × ((w'.channels (w.transactions p_trans).channel).trans ≡ none)
      × (w'.banks ≡ w.banks)
unfolding dma_load_transaction
dma_load_transaction_critical w p_trans h = rw h (
  refl,
  ap (λ (c : Channel). c.trans) (update_self w.channels (w.transactions p_trans).channel _),
  refl,
)

-- While the channel is busy nothing changes.
pub dma_load_transaction_busy :
    (w : World) (p_trans : ℕ)
    → is_critical (w.transactions p_trans).flags ≡ false
    → dma_is_ready w (w.transactions p_trans).channel ≡ false
    → dma_load_transaction w p_trans ≡ (w, Config.trans_override)
unfolding dma_load_transaction
dma_load_transaction_busy w p_trans h b = rw (h, b)

-- The padding and the control registers leave channels and peripherals alone.
extend_1d-keeps :
    (w : World) (p_trans : ℕ)
    → ((extend_1d w p_trans).banks ≡ w.banks) × ((extend_1d w p_trans).channels ≡ w.channels)
unfolding extend_1d
extend_1d-keeps w p_trans = elim (Bool-cases (is_padded_1d (w.transactions p_trans))) [
  | inl e ↦ rw e (refl, refl)
  | inr e ↦ rw e (refl, refl)
]

set_csrs-keeps :
    (t : Trans) (w : World)
    → ((set_csrs t w).banks ≡ w.banks) × ((set_csrs t w).channels ≡ w.channels)
unfolding set_csrs
set_csrs-keeps t w = elim (Bool-cases (is_polling t.end_event)) [
  | inl e ↦ rw e (refl, refl)
  | inr e ↦ rw e (refl, refl)
]

module _ (w : World) (p_trans : ℕ) where
  abbrev t : Trans
  t = w.transactions p_trans

  abbrev peri : ℕ
  peri = (w.channels t.channel).peri

  abbrev taken : World
  taken = record w {
    channels = update w.channels t.channel (record (w.channels t.channel) { trans = some p_trans });
  }

  same_banks : (extend_1d (set_csrs t taken) p_trans).banks ≡ w.banks
  same_banks = (extend_1d-keeps (set_csrs t taken) p_trans).0 ∙ (set_csrs-keeps t taken).0

  load-trans : ((load w p_trans).channels t.channel).trans ≡ some p_trans
  unfolding load
  load-trans = rw (extend_1d-keeps (set_csrs t taken) p_trans).1 (
      rw (set_csrs-keeps t taken).1
        (ap (λ (c : Channel). c.trans) (update_self w.channels t.channel _)))

  load-IsConfigured :
      let w' = load w p_trans in
      let u = w'.transactions p_trans in
      IsConfigured u
        (w'.targets u.src)
        (w'.targets u.dst)
        (w'.targets u.src_addr)
        (set_padding t (set_interrupts t (w.banks peri)))
        (w'.banks peri)
  unfolding load
  load-IsConfigured =
      let w2 = extend_1d (set_csrs t taken) p_trans in
      let u = w2.transactions p_trans in
      let from = λ (b : ℕ → Region).
        configure u (w2.targets u.src) (w2.targets u.dst) (w2.targets u.src_addr)
          (set_padding t (set_interrupts t (b peri))) in
      let written = update_self w2.banks peri (from w2.banks) ∙ ap from same_banks in
      subst
        (λ c.
          IsConfigured u (w2.targets u.src) (w2.targets u.dst) (w2.targets u.src_addr)
            (set_padding t (set_interrupts t (w.banks peri))) c)
        (sym written)
        (configure-IsConfigured u (w2.targets u.src) (w2.targets u.dst) (w2.targets u.src_addr)
          (set_padding t (set_interrupts t (w.banks peri))))

  load-other : (j : ℕ) → j ≢ peri → (load w p_trans).banks j ≡ w.banks j
  unfolding load
  load-other j h =
      update-other (extend_1d (set_csrs t taken) p_trans).banks peri _ j h
      ∙ ap (λ (f : ℕ → Region). f j) same_banks

-- A transaction without the critical flag, on a channel that is ready, becomes the channel's. It is
-- extended to two dimensions if it is padded in one, and the machine interrupts are masked or enabled.
-- The interrupts and the paddings of the channel's peripheral are written, each as the transaction
-- asks, and its pointers, mode, window, dimensions, slots, types and increments are configured with
-- the extended transaction and its targets; the sizes are left. No other peripheral is written.
pub dma_load_transaction-ok :
    (w : World) (p_trans : ℕ)
    → is_critical (w.transactions p_trans).flags ≡ false
    → dma_is_ready w (w.transactions p_trans).channel ≡ true
    → let (w', flags) = dma_load_transaction w p_trans in
      let t = w.transactions p_trans in
      let u = w'.transactions p_trans in
      let peri = (w.channels t.channel).peri in
      let prepared = set_padding t (set_interrupts t (w.banks peri)) in
      (flags ≡ Config.ok)
      × ((w'.channels t.channel).trans ≡ some p_trans)
      × IsConfigured u
          (w'.targets u.src)
          (w'.targets u.dst)
          (w'.targets u.src_addr)
          prepared
          (w'.banks peri)
      × ((j : ℕ) → j ≢ peri → w'.banks j ≡ w.banks j)
      × IsPrepared t (w.banks peri) prepared
      × IsExtended w p_trans w'
unfolding dma_load_transaction load
dma_load_transaction-ok w p_trans h b =
    rw (h, b)
      (
        refl,
        load-trans w p_trans,
        load-IsConfigured w p_trans,
        load-other w p_trans,
        set_padding-IsPrepared (w.transactions p_trans)
            (w.banks (w.channels (w.transactions p_trans).channel).peri),
        extend_1d-IsExtended (taken w p_trans) p_trans,
      )
