-- ===== src/Dma/Launch/Laws.antt =====
-- `dma_launch` on each of its branches.
use core_v_mini_mcu.Base.{
  ℕ, ◌≡◌, ◌≢◌, refl, arith, bit_and, true, false, if◌then◌else◌, Bool-cases, inl, inr, ◌∙◌, ap,
  Option, some,
}
use core_v_mini_mcu.Bitfield.{bitfield_read}
use core_v_mini_mcu.Bitfield.Fields.{bitfield_read-write}
use core_v_mini_mcu.Dma.Config
use core_v_mini_mcu.Dma.Config.{is_critical}
use core_v_mini_mcu.Dma.Reg
use core_v_mini_mcu.Dma.Types.{Trans, World, is_2d}
use core_v_mini_mcu.Dma.Load.{dma_load_transaction, write_register}
use core_v_mini_mcu.Dma.Load.Image.{write_register_self, write_register-other}
use core_v_mini_mcu.Dma.Load.Laws.{dma_load_transaction_critical}
use core_v_mini_mcu.Dma.Launch.{is_loaded, write_sizes, dma_launch}
use core_v_mini_mcu.Mmio.{Region, mmio_region_read32}

-- A transaction that is not the one loaded on its channel is not started.
pub dma_launch_unloaded :
    (before wfi : World → World) (rounds : ℕ) (w : World) (p_trans : ℕ)
    → is_loaded (w.channels (w.transactions p_trans).channel).trans p_trans ≡ false
    → dma_launch before wfi rounds w p_trans ≡ some (w, Config.critical_error)
unfolding dma_launch
dma_launch_unloaded before wfi rounds w p_trans h = rw h

load_critical-transactions :
    (w : World) (p_trans : ℕ)
    → is_critical (w.transactions p_trans).flags ≡ true
    → (dma_load_transaction w p_trans).0.transactions ≡ w.transactions
unfolding dma_load_transaction
load_critical-transactions w p_trans h = rw h refl

-- Loading a transaction with the critical flag and then launching it writes no register of any
-- peripheral, and both calls report the critical error.
pub load-launch_critical :
    (before wfi : World → World) (rounds : ℕ) (w : World) (p_trans : ℕ)
    → is_critical (w.transactions p_trans).flags ≡ true
    → let (w', flags) = dma_load_transaction w p_trans in
      (flags ≡ Config.critical_error)
      × (w'.banks ≡ w.banks)
      × (dma_launch before wfi rounds w' p_trans ≡ some (w', Config.critical_error))
load-launch_critical before wfi rounds w p_trans h =
    let dropped = dma_load_transaction_critical w p_trans h in
    let w' = (dma_load_transaction w p_trans).0 in
    let same : w'.transactions ≡ w.transactions = load_critical-transactions w p_trans h in
    (
      dropped.0,
      dropped.2,
      dma_launch_unloaded before wfi rounds w' p_trans (
          ap (λ (f : ℕ → Trans). is_loaded (w'.channels (f p_trans).channel).trans p_trans) same
          ∙ ap (λ (o : Option ℕ). is_loaded o p_trans) dropped.1),
    )

-- The sizes that the transfer starts with, cut to 16 bits. Only the two size registers are
-- written, the second one in two dimensions only.
pub write_sizes_lem :
    (t : Trans) (r : Region)
    → let r' = write_sizes t r in
      (bitfield_read (mmio_region_read32 r' Reg.size_d1) 0xffff 0 ≡ bit_and t.size_d1_du 0xffff)
      × (bitfield_read (mmio_region_read32 r' Reg.size_d2) 0xffff 0 ≡ (
          if is_2d t.dim
          then bit_and t.size_d2_du 0xffff
          else bitfield_read (mmio_region_read32 r Reg.size_d2) 0xffff 0))
      × ((j : ℕ) → j ≢ 3 → j ≢ 4 → r' j ≡ r j)
unfolding write_sizes
write_sizes_lem t r = elim (Bool-cases (is_2d t.dim)) [
  | inl two ↦
      let r1 = write_register t.size_d2_du Reg.size_d2 0xffff 0 r in
      rw two (
        first r1,
        rw (write_register-other t.size_d1_du Reg.size_d1 0xffff 0 r1 4 (omega arith)) (
            rw (write_register_self t.size_d2_du Reg.size_d2 0xffff 0 r)
              (bitfield_read-write (r 4) 0xffff 0 t.size_d2_du (omega arith))),
        λ j h3 h4.
            write_register-other t.size_d1_du Reg.size_d1 0xffff 0 r1 j h3
            ∙ write_register-other t.size_d2_du Reg.size_d2 0xffff 0 r j h4,
      )
  | inr one ↦ rw one (
    first r,
    ap (λ (x : ℕ). bitfield_read x 0xffff 0)
        (write_register-other t.size_d1_du Reg.size_d1 0xffff 0 r 4 (omega arith)),
    λ j h3 h4. write_register-other t.size_d1_du Reg.size_d1 0xffff 0 r j h3,
  )
]
  where
    first :
        (q : Region)
        → bitfield_read
            (mmio_region_read32 (write_register t.size_d1_du Reg.size_d1 0xffff 0 q) Reg.size_d1)
            0xffff
            0
          ≡ bit_and t.size_d1_du 0xffff
    first q =
        rw (write_register_self t.size_d1_du Reg.size_d1 0xffff 0 q)
          (bitfield_read-write (q 3) 0xffff 0 t.size_d1_du (omega arith))
