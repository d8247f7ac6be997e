-- ===== src/Dma/Load.antt =====
-- dma.c: `dma_load_transaction`, the writing of a transaction into the registers of its channel,
-- and dma.h's `write_register`. Each group of writes is a function on the registers of the
-- channel's peripheral, in the code's order.
pub mod Image
pub mod Prepared
pub mod Laws
pub mod Padding
use core_v_mini_mcu.Base.{
  ℕ, ◌+◌, ◌*◌, ◌/◌, ◌^◌, bit_and, bit_or, shl32, not32, u8, u32, Bool, true, false, not, ◌&&◌, ◌||◌,
  ltb, ◌==◌, if◌then◌else◌, Option, none, some,
}
use core_v_mini_mcu.Dma.Config
use core_v_mini_mcu.Dma.Config.{is_critical}
use core_v_mini_mcu.Dma.Reg
use core_v_mini_mcu.Dma.Types.{
  Target, Trans, Channel, World, dim_2d, data_type_2_size, trig_memory, is_2d, is_address,
  is_polling, dim_value, mode_value,
}
use core_v_mini_mcu.Mmio.{Region, update, mmio_region_read32, mmio_region_write32}

-- A field of a register: the value is cut to the mask and put at the position `sel`.
unfoldable pub write_register : ℕ → ℕ → ℕ → ℕ → Region → Region
write_register val offset mask sel r =
    let value = mmio_region_read32 r offset in
    mmio_region_write32 r offset
      (bit_or (bit_and value (not32 (shl32 mask sel))) (shl32 (bit_and val mask) sel))

-- `dma_is_ready`: the READY bit of the status register.
unfoldable pub is_ready : Region → Bool
is_ready r = not (bit_and (mmio_region_read32 r Reg.status) 1 == 0)

unfoldable pub dma_is_ready : World → ℕ → Bool
unfolding is_ready
dma_is_ready w channel = is_ready (w.banks (w.channels channel).peri)

-- `DMA_CSR_REG_MIE_MASK`
abbrev pub mie_mask : ℕ
mie_mask = 0x80800

unfoldable pub get_increment_b_1d : Trans → Target → ℕ
unfolding data_type_2_size
get_increment_b_1d t tgt =
    if tgt.trig == trig_memory
    then (if t.inc_b == 0 then u32 (tgt.inc_d1_du * u8 (data_type_2_size tgt.type)) else t.inc_b)
    else 0

unfoldable pub get_increment_b_2d : Trans → Target → ℕ
unfolding data_type_2_size
get_increment_b_2d t tgt =
    if tgt.trig == trig_memory
    then (if t.inc_b == 0 then u32 (tgt.inc_d2_du * u8 (data_type_2_size tgt.type)) else t.inc_b)
    else 0

unfoldable pub set_interrupts : Trans → Region → Region
unfolding write_register
set_interrupts t r =
    let off = mmio_region_write32 r Reg.interrupt_en 0 in
    let done = write_register 1 Reg.interrupt_en 0xffff 0 off in
    if is_polling t.end_event
    then off
    else (if ltb 0 t.win_du then write_register 1 Reg.interrupt_en 0xffff 1 done else done)

-- A padded transaction in one dimension.
abbrev pub is_padded_1d : Trans → Bool
is_padded_1d t = not (is_2d t.dim) && (not (t.pad_left_du == 0) || not (t.pad_right_du == 0))

unfoldable pub set_padding : Trans → Region → Region
unfolding write_register
set_padding t r =
    if is_padded_1d t
    then write_register t.pad_right_du Reg.pad_right 0x3f 0
        (write_register t.pad_left_du Reg.pad_left 0x3f 0 r)
    else if is_2d t.dim
    then write_register t.pad_right_du Reg.pad_right 0x3f 0 (
        write_register t.pad_left_du Reg.pad_left 0x3f 0 (
          write_register t.pad_bottom_du Reg.pad_bottom 0x3f 0
            (write_register t.pad_top_du Reg.pad_top 0x3f 0 r)))
    else r

unfoldable pub set_pointers : Trans → Target → Target → Target → Region → Region
set_pointers t src dst src_addr r =
    let r1 = mmio_region_write32 r Reg.src_ptr src.ptr in
    if is_address t.mode
    then mmio_region_write32 r1 Reg.addr_ptr src_addr.ptr
    else mmio_region_write32 r1 Reg.dst_ptr dst.ptr

unfoldable pub set_transposition : Trans → Region → Region
unfolding write_register
set_transposition t r = write_register t.dim_inv Reg.dim_inv 1 0 r

unfoldable pub set_src_increments : Trans → Target → Region → Region
unfolding write_register get_increment_b_1d get_increment_b_2d
set_src_increments t src r =
    let r1 = write_register (get_increment_b_1d t src) Reg.src_ptr_inc_d1 0x3f 0 r in
    if is_2d t.dim
    then write_register (get_increment_b_2d t src) Reg.src_ptr_inc_d2 0x7fffff 0 r1
    else r1

unfoldable pub set_dst_increments : Trans → Target → Region → Region
unfolding write_register get_increment_b_1d get_increment_b_2d
set_dst_increments t dst r =
    let r1 = write_register (get_increment_b_1d t dst) Reg.dst_ptr_inc_d1 0x3f 0 r in
    if is_address t.mode
    then r
    else if is_2d t.dim
    then write_register (get_increment_b_2d t dst) Reg.dst_ptr_inc_d2 0x7fffff 0 r1
    else r1

-- The sign extension is written twice.
unfoldable pub set_mode : Trans → Region → Region
unfolding write_register
set_mode t r =
    let r1 = mmio_region_write32 r Reg.mode (mode_value t.mode) in
    let r2 =
      mmio_region_write32 r1 Reg.window_size (if t.win_du == 0 then t.size_d1_du else t.win_du) in
    let r3 = write_register (dim_value t.dim) Reg.dim_config 1 0 r2 in
    write_register t.sign_ext Reg.sign_ext 1 0 (write_register t.sign_ext Reg.sign_ext 1 0 r3)

unfoldable pub set_slots : Trans → Target → Target → Region → Region
unfolding write_register
set_slots t src dst r =
    let r1 = write_register src.trig Reg.slot 0xffff 0 r in
    let r2 = write_register dst.trig Reg.slot 0xffff 16 r1 in
    let r3 = write_register t.dst_type Reg.dst_data_type 0x3 0 r2 in
    write_register t.src_type Reg.src_data_type 0x3 0 r3

-- The writes after the padding.
unfoldable pub configure : Trans → Target → Target → Target → Region → Region
unfolding set_pointers set_transposition set_src_increments set_dst_increments set_mode set_slots
configure t src dst src_addr r =
    let r1 = set_pointers t src dst src_addr r in
    let r2 = set_transposition t r1 in
    let r3 = set_src_increments t src r2 in
    let r4 = set_dst_increments t dst r3 in set_slots t src dst (set_mode t r4)

-- A padded 1D transaction becomes a 2D one of a single row; its source target is written too.
unfoldable pub extend_1d : World → ℕ → World
unfolding data_type_2_size
extend_1d w p_trans =
    let t = w.transactions p_trans in
    let src = w.targets t.src in
    if is_padded_1d t
    then record w {
      transactions = update w.transactions p_trans (record t { dim = dim_2d; size_d2_du = 1 });
      targets = update w.targets t.src (record src { inc_d2_du = data_type_2_size t.dst_type });
    }
    else w

-- The interrupts in the core's own registers.
unfoldable pub set_csrs : Trans → World → World
set_csrs t w =
    let cleared = bit_and w.mie (not32 mie_mask) in
    if is_polling t.end_event
    then record w { mie = cleared }
    else record w { mstatus = bit_or w.mstatus 8; mie = bit_or cleared mie_mask }

-- The loading proper, once the transaction is accepted and the channel is ready.
unfoldable pub load : World → ℕ → World
load w p_trans =
    let t = w.transactions p_trans in
    let c = w.channels t.channel in
    let w1 = record w {
      channels = update w.channels t.channel (record c { trans = some p_trans });
    } in
    let w2 = extend_1d (set_csrs t w1) p_trans in
    let r = set_padding t (set_interrupts t (w2.banks c.peri)) in
    let t2 = w2.transactions p_trans in
    let r2 = configure t2 (w2.targets t2.src) (w2.targets t2.dst) (w2.targets t2.src_addr) r in
    record w2 { banks = update w2.banks c.peri r2 }

unfoldable pub dma_load_transaction : World → ℕ → World × ℕ
dma_load_transaction w p_trans =
    let t = w.transactions p_trans in
    let c = w.channels t.channel in
    if is_critical t.flags
    then (
      record w { channels = update w.channels t.channel (record c { trans = none }) },
      Config.critical_error,
    )
    else if not (dma_is_ready w t.channel)
    then (w, Config.trans_override)
    else (load w p_trans, Config.ok)
