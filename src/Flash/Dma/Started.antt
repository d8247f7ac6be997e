-- ===== src/Flash/Dma/Started.antt =====
-- A send whose data the DMA accepts: its transfer is started.
use core_v_mini_mcu.Base.{
  ℕ, ◌+◌, ◌/◌, ◌%◌, ◌<◌, ◌≡◌, ◌≢◌, ◌∙◌, refl, ap, subst, arith, bit_and, Bool, true, false, not,
  ltb, ◌==◌, ◌||◌, none, some,
}
use core_v_mini_mcu.Dma.Config
use core_v_mini_mcu.Dma.Config.{is_critical}
use core_v_mini_mcu.Dma.Reg
use core_v_mini_mcu.Dma.Load.{is_ready}
use core_v_mini_mcu.Dma.Types.{Channel, World}
use core_v_mini_mcu.Flash.Dma.{
  Board, Wiring, Statics, dma_send_toflash, finish_send, set_send, txdata_offset,
}
use core_v_mini_mcu.Flash.Dma.Refused.{refuses}
use core_v_mini_mcu.Flash.Dma.Static.{
  IsSend, init-IsSend, set_send-Prepared, dma_validate_transaction-Prepared, Prepared-IsSend,
}
use core_v_mini_mcu.Dma.Validate.{dma_validate_transaction}
use core_v_mini_mcu.Flash.Dma.Send.{send_trans, send_flags}
use core_v_mini_mcu.Mmio.{Region}
use core_v_mini_mcu.Bitfield.{bitfield_read}
use core_v_mini_mcu.Dma.Init.{clear, dma_init}
use core_v_mini_mcu.Dma.Init.Laws.{dma_init-IsReset}
use core_v_mini_mcu.Flash.Dma.Loaded.{
  started, started_lem, load_transaction-loaded, launch-started, init_loop-status,
}

parts_of : (a b c : Bool) → (a || b || not c) ≡ false → (a ≡ false) × (b ≡ false) × (c ≡ true)
parts_of a b c h = (ground arith, ground arith, ground arith)

-- What is not refused leaves no flag.
send_flags-ok :
    (data_ptr length flags : ℕ)
    → refuses data_ptr length flags ≡ false
    → send_flags data_ptr (length / 4) flags ≡ Config.ok
send_flags-ok data_ptr length flags accepted =
    let (clear, long, whole) =
      parts_of (is_critical flags) (ltb length 4) (data_ptr % 4 == 0) accepted in
    let some_left : (length / 4 == 0) ≡ false = ground (arith, long) in
    rw (clear, some_left, whole) refl

ready_by : (r r' : Region) → r (Reg.status / 4) ≡ r' (Reg.status / 4) → is_ready r ≡ is_ready r'
unfolding is_ready
ready_by r r' same = rw same refl

validate-keeps :
    (w : World) (p : ℕ)
    → let w' = (dma_validate_transaction w p true true).0 in
      (w'.channels ≡ w.channels) × (w'.banks ≡ w.banks)
unfolding dma_validate_transaction
validate-keeps w p = (refl, refl)

module _ (wiring : Wiring) (v : Statics) (apart : v.tgt_src ≢ v.tgt_dst) where
  -- The channel 0 at the load, and its peripheral.
  checked-ready :
      (data_ptr length : ℕ) (w : World)
      → 0 < wiring.ch_num
      → is_ready (w.banks (wiring.integrated 0)) ≡ true
      → let w1 =
          set_send wiring v data_ptr length (dma_init none wiring.integrated wiring.ch_num w) in
        let w2 = (dma_validate_transaction w1 v.trans true true).0 in
        ((w2.channels 0).peri ≡ wiring.integrated 0)
        × (is_ready (w2.banks (w2.channels 0).peri) ≡ true)
  unfolding dma_init
  checked-ready data_ptr length w some_channel ready =
      let w1 =
        set_send wiring v data_ptr length (dma_init none wiring.integrated wiring.ch_num w) in
      let w2 = (dma_validate_transaction w1 v.trans true true).0 in
      let (same_channels, same_banks) = validate-keeps w1 v.trans in
      let reset = dma_init-IsReset none wiring.integrated wiring.ch_num w 0 some_channel in
      let placed : (w2.channels 0).peri ≡ wiring.integrated 0 =
        ap (λ (c : ℕ → Channel). (c 0).peri) same_channels ∙ reset.1 in
      let same_status =
        ap (λ (address : ℕ). w2.banks address (Reg.status / 4)) placed
        ∙ ap (λ (f : ℕ → Region). f (wiring.integrated 0) (Reg.status / 4)) same_banks
        ∙ init_loop-status wiring.integrated wiring.ch_num 0 w (wiring.integrated 0) in
      (
        placed,
        ready_by (w2.banks (w2.channels 0).peri) (w.banks (wiring.integrated 0)) same_status
            ∙ ready,
      )

  -- A send that is not refused, where the channel 0 has its integrated peripheral, that peripheral
  -- is ready and no interrupt comes at the launch, is loaded and launched: it does what remains of
  -- a send, from a board whose channel 0 has the transaction and whose registers hold the address
  -- of the data, the address of the transmit window and the number of whole words in 16 bits, with
  -- no critical flag left.
  pub dma_send_toflash-started :
      (data_ptr length flags : ℕ) (b : Board)
      → IsSend v b.world flags
      → refuses data_ptr length flags ≡ false
      → 0 < wiring.ch_num
      → 0 < wiring.setup.rounds
      → is_ready (b.world.banks (wiring.integrated 0)) ≡ true
      → ((w : World) → wiring.before w ≡ w)
      → (w' : World) × (dma_send_toflash wiring v data_ptr length b
          ≡ finish_send wiring data_ptr length
              (record { world = w'; host = b.host; memory = b.memory }))
        × IsSend v w' 0
        × ((w'.channels 0).trans ≡ some v.trans)
        × ((w'.channels 0).peri ≡ wiring.integrated 0)
        × (w'.banks (wiring.integrated 0) (Reg.src_ptr / 4) ≡ data_ptr)
        × (w'.banks (wiring.integrated 0) (Reg.dst_ptr / 4) ≡ wiring.spi + txdata_offset)
        × (bitfield_read (w'.banks (wiring.integrated 0) (Reg.size_d1 / 4)) 0xffff 0
            ≡ bit_and (length / 4) 0xffff)
  unfolding dma_send_toflash dma_init
  dma_send_toflash-started data_ptr length flags b h accepted some_channel some_round ready quiet =
      let w0 = dma_init none wiring.integrated wiring.ch_num b.world in
      let w1 = set_send wiring v data_ptr length w0 in
      let w2 = (dma_validate_transaction w1 v.trans true true).0 in
      let flags2 = (dma_validate_transaction w1 v.trans true true).1 in
      let begun = init-IsSend wiring.integrated wiring.ch_num v b.world flags h in
      let (found, left) =
        dma_validate_transaction-Prepared wiring v apart data_ptr length w1 flags
          (set_send-Prepared wiring v apart data_ptr length w0 flags begun) in
      let (same_src, same_dst, inc_b, src_type, dst_type, same_trans) = left in
      let fine : flags2 ≡ Config.ok = found ∙ send_flags-ok data_ptr length flags accepted in
      let fifo = wiring.spi + txdata_offset in
      let trans_of =
        λ (f : ℕ). send_trans v.tgt_src v.tgt_dst (length / 4) inc_b src_type dst_type f in
      let clean : w2.transactions v.trans ≡ trans_of 0 = same_trans ∙ ap trans_of fine in
      let (placed, ready2) = checked-ready data_ptr length b.world some_channel ready in
      let size = length / 4 in
      let final =
        started w2 v.trans data_ptr fifo v.tgt_src v.tgt_dst size inc_b src_type dst_type same_src
          same_dst clean in
      let (kept_trans, taken, same_peri, from, to, sized) =
        started_lem w2 v.trans data_ptr fifo v.tgt_src v.tgt_dst size inc_b src_type dst_type
          same_src same_dst clean ready2 in
      let loads =
        load_transaction-loaded w2 v.trans data_ptr fifo v.tgt_src v.tgt_dst size inc_b src_type
          dst_type same_src same_dst clean ready2 in
      let launches =
        launch-started w2 v.trans data_ptr fifo v.tgt_src v.tgt_dst size inc_b src_type dst_type
          same_src same_dst clean wiring.before wiring.wfi wiring.setup.rounds ready2 some_round
          (quiet final) in
      let ends : Board = record { world = final; host = b.host; memory = b.memory } in
      (
        final,
        rw (fine, loads, launches) refl,
        Prepared-IsSend wiring v apart data_ptr length final 0
            (same_src, same_dst, inc_b, src_type, dst_type, kept_trans),
        taken,
        same_peri ∙ placed,
        subst (λ (address : ℕ). final.banks address (Reg.src_ptr / 4) ≡ data_ptr) placed from,
        subst (λ (address : ℕ). final.banks address (Reg.dst_ptr / 4) ≡ fifo) placed to,
        subst
            (λ (address : ℕ).
              bitfield_read (final.banks address (Reg.size_d1 / 4)) 0xffff 0 ≡ bit_and size 0xffff)
            placed sized,
      )
