-- ===== src/Flash/Dma/Static.antt =====
-- The static variables of a send, through its initialisation and its validation.
use core_v_mini_mcu.Base.{ℕ, zero, suc, ◌+◌, ◌/◌, ◌≡◌, ◌≢◌, ◌∙◌, refl, sym, ap, true, none}
use core_v_mini_mcu.Dma.Init.{init_channel, init_loop, dma_init}
use core_v_mini_mcu.Dma.Types.{Target, Trans, World, trig_memory}
use core_v_mini_mcu.Dma.Validate.{result_of, validate_trans, dma_validate_transaction}
use core_v_mini_mcu.Flash.Dma.{
  Wiring, Statics, set_target, set_send, trig_slot_spi_flash_tx, txdata_offset,
}
use core_v_mini_mcu.Flash.Dma.Send.{send_source, send_sink, send_trans, send_flags, validated}
use core_v_mini_mcu.Mmio.Laws.{update_self, update-other}

-- The static variables of a send: what their initializers set, what the sends set, and the flags.
pub record IsSend (v : Statics) (w : World) (flags : ℕ) : Type 0 where
  pub ptr : ℕ
  pub src_trig : ℕ
  pub fifo : ℕ
  pub dst_trig : ℕ
  pub size_d1_du : ℕ
  pub inc_b : ℕ
  pub src_type : ℕ
  pub dst_type : ℕ
  pub same_src : w.targets v.tgt_src ≡ record (send_source ptr) { trig = src_trig }
  pub same_dst : w.targets v.tgt_dst ≡ record (send_sink fifo) { trig = dst_trig }
  pub same_trans :
      w.transactions v.trans
      ≡ send_trans v.tgt_src v.tgt_dst size_d1_du inc_b src_type dst_type flags

-- The initialisation of the DMA leaves the targets and the transactions.
init_loop-keeps_memory :
    (integrated : ℕ → ℕ) (left i : ℕ) (w : World)
    → let w' = init_loop none integrated left i w in
      (w'.targets ≡ w.targets) × (w'.transactions ≡ w.transactions)
unfolding init_loop init_channel
init_loop-keeps_memory integrated zero i w = (refl, refl)
init_loop-keeps_memory integrated (suc left) i w =
    init_loop-keeps_memory integrated left (i + 1) (init_channel none integrated i w)

pub init-IsSend :
    (integrated : ℕ → ℕ) (ch_num : ℕ) (v : Statics) (w : World) (flags : ℕ)
    → IsSend v w flags
    → IsSend v (dma_init none integrated ch_num w) flags
unfolding dma_init
init-IsSend integrated ch_num v w flags h =
    let (targets, transactions) = init_loop-keeps_memory integrated ch_num 0 w in
    record {
      ptr = h.ptr;
      src_trig = h.src_trig;
      fifo = h.fifo;
      dst_trig = h.dst_trig;
      size_d1_du = h.size_d1_du;
      inc_b = h.inc_b;
      src_type = h.src_type;
      dst_type = h.dst_type;
      same_src = ap (λ (f : ℕ → Target). f v.tgt_src) targets ∙ h.same_src;
      same_dst = ap (λ (f : ℕ → Target). f v.tgt_dst) targets ∙ h.same_dst;
      same_trans = ap (λ (f : ℕ → Trans). f v.trans) transactions ∙ h.same_trans;
    }

module _ (wiring : Wiring) (v : Statics) (apart : v.tgt_src ≢ v.tgt_dst) where
  -- What the validation of a send works on.
  abbrev pub Prepared : ℕ → ℕ → World → ℕ → Type 0
  Prepared data_ptr length w flags =
      (w.targets v.tgt_src ≡ send_source data_ptr)
      × (w.targets v.tgt_dst ≡ send_sink (wiring.spi + txdata_offset))
      × (inc_b : ℕ) × (src_type : ℕ) × (dst_type : ℕ) × (w.transactions v.trans
          ≡ send_trans v.tgt_src v.tgt_dst (length / 4) inc_b src_type dst_type flags)

  pub set_send-Prepared :
      (data_ptr length : ℕ) (w : World) (flags : ℕ)
      → IsSend v w flags
      → Prepared data_ptr length (set_send wiring v data_ptr length w) flags
  set_send-Prepared data_ptr length w flags h =
      let source : Target → Target = λ t. record t { ptr = data_ptr; trig = trig_memory } in
      let sink : Target → Target =
        λ t. record t { trig = trig_slot_spi_flash_tx; ptr = wiring.spi + txdata_offset } in
      let w1 = set_target v.tgt_src source w in
      (
        update-other w1.targets v.tgt_dst _ v.tgt_src apart
            ∙ update_self w.targets v.tgt_src _
            ∙ ap source h.same_src,
        update_self w1.targets v.tgt_dst _
            ∙ ap sink
                (update-other w.targets v.tgt_src _ v.tgt_dst (λ e. apart (sym e)) ∙ h.same_dst),
        h.inc_b,
        h.src_type,
        h.dst_type,
        update_self w.transactions v.trans _
            ∙ ap (λ (t : Trans). record t { size_d1_du = length / 4 }) h.same_trans,
      )

  pub Prepared-IsSend :
      (data_ptr length : ℕ) (w : World) (flags : ℕ)
      → Prepared data_ptr length w flags
      → IsSend v w flags
  Prepared-IsSend data_ptr length w flags
        (same_src, same_dst, inc_b, src_type, dst_type, same_trans) =
      record {
        ptr = data_ptr;
        src_trig = trig_memory;
        fifo = wiring.spi + txdata_offset;
        dst_trig = trig_slot_spi_flash_tx;
        size_d1_du = length / 4;
        inc_b = inc_b;
        src_type = src_type;
        dst_type = dst_type;
        same_src = same_src;
        same_dst = same_dst;
        same_trans = same_trans;
      }

  -- The flags after the validation, and the variables that it leaves.
  pub dma_validate_transaction-Prepared :
      (data_ptr length : ℕ) (w : World) (flags : ℕ)
      → Prepared data_ptr length w flags
      → let (w', found) = dma_validate_transaction w v.trans true true in
        (found ≡ send_flags data_ptr (length / 4) flags) × Prepared data_ptr length w' found
  unfolding dma_validate_transaction
  dma_validate_transaction-Prepared data_ptr length w flags
        (same_src, same_dst, inc_b, src_type, dst_type, same_trans) =
      let fifo = wiring.spi + txdata_offset in
      let (inc_b', src_type', dst_type', left) =
        validated data_ptr fifo v.tgt_src v.tgt_dst (length / 4) inc_b src_type dst_type flags in
      let final =
        send_trans v.tgt_src v.tgt_dst (length / 4) inc_b' src_type' dst_type'
          (send_flags data_ptr (length / 4) flags) in
      let result : (result_of (
            validate_trans (w.targets (w.transactions v.trans).src)
              (w.targets (w.transactions v.trans).dst) true true (w.transactions v.trans))
          ≡ final) =
        rw (same_trans, same_src, same_dst) left in
      let found = ap (λ (t : Trans). t.flags) result in
      (
        found,
        (
          same_src,
          same_dst,
          inc_b',
          src_type',
          dst_type',
          rw found (update_self w.transactions v.trans _ ∙ result),
        ),
      )
