-- ===== src/Flash/Dma/Loaded.antt =====
-- The load and the launch of the transaction of a send.
use core_v_mini_mcu.Base.{
  ℕ, zero, suc, ◌+◌, ◌/◌, ◌<◌, ◌≡◌, ◌∙◌, refl, ap, arith, bit_and, not32, true, false, ◌==◌, none,
  some, ℕ_discrete,
}
use core_v_mini_mcu.Dma.Config
use core_v_mini_mcu.Dma.Config.{is_critical}
use core_v_mini_mcu.Dma.Reg
use core_v_mini_mcu.Dma.Launch.{dma_launch, wait_loop, keeps_waiting, start, write_sizes}
use core_v_mini_mcu.Dma.Load.{
  is_ready, dma_is_ready, load, extend_1d, set_csrs, set_padding, set_interrupts, configure,
  set_pointers, set_transposition, set_src_increments, set_dst_increments, set_mode, set_slots,
  write_register, dma_load_transaction, mie_mask, is_padded_1d,
}
use core_v_mini_mcu.Dma.Types.{Trans, World}
use core_v_mini_mcu.Flash.Dma.Send.{send_source, send_sink, send_trans}
use core_v_mini_mcu.Mmio.{Region, update}
use core_v_mini_mcu.Bitfield.{bitfield_read}
use core_v_mini_mcu.Dma.Init.{init_channel, init_loop, clear}
use core_v_mini_mcu.Dma.Launch.Laws.{write_sizes_lem}
use core_v_mini_mcu.Mmio.Laws.{update_self, update-other}

init_channel-status :
    (integrated : ℕ → ℕ) (i : ℕ) (w : World) (address : ℕ)
    → (init_channel none integrated i w).banks address (Reg.status / 4)
      ≡ w.banks address (Reg.status / 4)
unfolding init_channel clear
init_channel-status integrated i w address = elim (ℕ_discrete address (integrated i)) [
  | yes same ↦
      rw same (ap (λ (r : Region). r (Reg.status / 4)) (update_self w.banks (integrated i) _))
  | no other ↦
      ap (λ (r : Region). r (Reg.status / 4)) (update-other w.banks (integrated i) _ address other)
]

module _ (w : World) (p ptr fifo tgt_src tgt_dst size inc_b src_type dst_type : ℕ)
    (same_src : w.targets tgt_src ≡ send_source ptr) (same_dst : w.targets tgt_dst ≡ send_sink fifo)
    (same_trans : w.transactions p
      ≡ send_trans tgt_src tgt_dst size inc_b src_type dst_type 0) where
  abbrev pub trans : Trans
  trans = send_trans tgt_src tgt_dst size inc_b src_type dst_type 0

  abbrev pub peri : ℕ
  peri = (w.channels 0).peri

  abbrev pub configured : Region
  configured =
      configure trans (send_source ptr) (send_sink fifo) (w.targets 0)
        (set_padding trans (set_interrupts trans (w.banks peri)))

  -- The world after the load.
  abbrev pub loaded : World
  loaded = record w {
    channels = update w.channels 0 (record (w.channels 0) { trans = some p });
    mie = bit_and w.mie (not32 mie_mask);
    banks = update w.banks peri configured;
  }

  unpadded : (w1 : World) → w1.transactions p ≡ trans → extend_1d w1 p ≡ w1
  unfolding extend_1d
  unpadded w1 same =
      let plain : is_padded_1d (w1.transactions p) ≡ false = rw same refl in rw plain refl

  load-loaded : load w p ≡ loaded
  unfolding load set_csrs
  load-loaded =
      let w1 : World = record w {
        channels = update w.channels 0 (record (w.channels 0) { trans = some p });
        mie = bit_and w.mie (not32 mie_mask);
      } in
      rw (same_trans, unpadded w1 same_trans, same_trans, same_src, same_dst) refl

  configured_lem :
      (configured (Reg.status / 4) ≡ w.banks peri (Reg.status / 4))
      × (configured (Reg.src_ptr / 4) ≡ ptr)
      × (configured (Reg.dst_ptr / 4) ≡ fifo)
  unfolding configure set_padding set_interrupts set_pointers set_transposition set_src_increments
      set_dst_increments set_mode set_slots write_register
  configured_lem = (refl, refl, refl)

  pub load_transaction-loaded :
      is_ready (w.banks peri) ≡ true → dma_load_transaction w p ≡ (loaded, Config.ok)
  unfolding dma_load_transaction dma_is_ready
  load_transaction-loaded ready =
      rw (same_trans, ready) (ap (λ (x : World). (x, Config.ok)) load-loaded)

  -- The world after the launch.
  abbrev pub started : World
  started = record loaded {
    channels = update loaded.channels 0 (record (loaded.channels 0) { intr_flag = 0 });
    banks = update loaded.banks peri (write_sizes trans configured);
  }

  start-started : start loaded p ≡ started
  unfolding start
  start-started = rw (same_trans, update_self w.banks peri configured) refl

  pub launch-started :
      (before wfi : World → World) (rounds : ℕ)
      → is_ready (w.banks peri) ≡ true
      → 0 < rounds
      → before started ≡ started
      → dma_launch before wfi rounds loaded p ≡ some (started, Config.ok)
  unfolding dma_launch dma_is_ready is_ready wait_loop keeps_waiting
  launch-started before wfi zero ready some_round quiet = absurd (omega arith)
  launch-started before wfi (suc rounds) ready some_round quiet =
      let same : p == p ≡ true = ground arith in
      rw
        (
          same_trans,
          same,
          update_self w.banks peri configured,
          configured_lem.0,
          ready,
          start-started,
          quiet,
          same_trans,
        )
        (ap (λ (x : World). some (x, Config.ok)) (ap before start-started ∙ quiet))

  pub started_lem :
      is_ready (w.banks peri) ≡ true
      → (started.transactions p ≡ trans)
        × ((started.channels 0).trans ≡ some p)
        × ((started.channels 0).peri ≡ peri)
        × (started.banks peri (Reg.src_ptr / 4) ≡ ptr)
        × (started.banks peri (Reg.dst_ptr / 4) ≡ fifo)
        × (bitfield_read (started.banks peri (Reg.size_d1 / 4)) 0xffff 0 ≡ bit_and size 0xffff)
  started_lem ready =
      let bank = update_self loaded.banks peri (write_sizes trans configured) in
      let (sized, sized_d2, others) = write_sizes_lem trans configured in
      (
        same_trans,
        refl,
        refl,
        ap (λ (r : Region). r (Reg.src_ptr / 4)) bank
            ∙ others 0 (omega arith) (omega arith)
            ∙ configured_lem.1,
        ap (λ (r : Region). r (Reg.dst_ptr / 4)) bank
            ∙ others 1 (omega arith) (omega arith)
            ∙ configured_lem.2,
        ap (λ (r : Region). bitfield_read (r (Reg.size_d1 / 4)) 0xffff 0) bank ∙ sized,
      )

-- The initialisation keeps the status of every peripheral.
pub init_loop-status :
    (integrated : ℕ → ℕ) (left i : ℕ) (w : World) (address : ℕ)
    → (init_loop none integrated left i w).banks address (Reg.status / 4)
      ≡ w.banks address (Reg.status / 4)
unfolding init_loop
init_loop-status integrated zero i w address = refl
init_loop-status integrated (suc left) i w address =
    init_loop-status integrated left (i + 1) (init_channel none integrated i w) address
    ∙ init_channel-status integrated i w address
