-- ===== src/Dma/Load/Image.antt =====
-- The registers after the writes of `dma_load_transaction`.
use core_v_mini_mcu.Base.{ℕ, ◌/◌, ◌≡◌, ◌≢◌, refl, not, ◌&&◌, ◌==◌, if◌then◌else◌}
use core_v_mini_mcu.Bitfield.{bitfield_write}
use core_v_mini_mcu.Dma.Reg
use core_v_mini_mcu.Dma.Types.{
  Dim, Mode, dim_1d, dim_2d, single, Target, Trans, is_2d, is_address, dim_value, mode_value,
}
use core_v_mini_mcu.Dma.Load.{write_register, configure, get_increment_b_1d, get_increment_b_2d}
use core_v_mini_mcu.Mmio.{Region, mmio_region_read32}
use core_v_mini_mcu.Mmio.Laws.{update_self, update-other}

-- A register after `write_register` is a field write of bitfield.h.
pub write_register_self :
    (val offset mask sel : ℕ) (r : Region)
    → mmio_region_read32 (write_register val offset mask sel r) offset
      ≡ bitfield_write (mmio_region_read32 r offset) mask sel val
unfolding write_register bitfield_write
write_register_self val offset mask sel r = update_self r (offset / 4) _

pub write_register-other :
    (val offset mask sel : ℕ) (r : Region) (j : ℕ)
    → j ≢ offset / 4
    → write_register val offset mask sel r j ≡ r j
unfolding write_register
write_register-other val offset mask sel r j h = update-other r (offset / 4) _ j h

-- `at` reads a register of a region, and `field` says what a field write leaves in one.
abbrev at : Region → ℕ → ℕ
at r offset = mmio_region_read32 r offset

abbrev field : Region → ℕ → ℕ → ℕ → ℕ → ℕ
field r offset mask sel val = bitfield_write (at r offset) mask sel val

-- The registers `c` of a channel that was configured from the registers `r`.
pub record IsConfigured (t : Trans) (src dst src_addr : Target) (r c : Region) : Type 0 where
  pub src_ptr : at c Reg.src_ptr ≡ src.ptr
  pub dst_ptr : at c Reg.dst_ptr ≡ (if is_address t.mode then at r Reg.dst_ptr else dst.ptr)
  pub addr_ptr : at c Reg.addr_ptr ≡ (if is_address t.mode then src_addr.ptr else at r Reg.addr_ptr)
  pub mode : at c Reg.mode ≡ mode_value t.mode
  pub window : at c Reg.window_size ≡ (if t.win_du == 0 then t.size_d1_du else t.win_du)
  pub dim_config : at c Reg.dim_config ≡ field r Reg.dim_config 1 0 (dim_value t.dim)
  pub dim_inv : at c Reg.dim_inv ≡ field r Reg.dim_inv 1 0 t.dim_inv
  pub slot : at c Reg.slot ≡ bitfield_write (field r Reg.slot 0xffff 0 src.trig) 0xffff 16 dst.trig
  pub src_type : at c Reg.src_data_type ≡ field r Reg.src_data_type 0x3 0 t.src_type
  pub dst_type : at c Reg.dst_data_type ≡ field r Reg.dst_data_type 0x3 0 t.dst_type
  pub src_inc_d1 :
      at c Reg.src_ptr_inc_d1 ≡ field r Reg.src_ptr_inc_d1 0x3f 0 (get_increment_b_1d t src)
  pub src_inc_d2 : at c Reg.src_ptr_inc_d2 ≡ (
      if is_2d t.dim
      then field r Reg.src_ptr_inc_d2 0x7fffff 0 (get_increment_b_2d t src)
      else at r Reg.src_ptr_inc_d2)
  pub dst_inc_d1 : at c Reg.dst_ptr_inc_d1 ≡ (
      if is_address t.mode
      then at r Reg.dst_ptr_inc_d1
      else field r Reg.dst_ptr_inc_d1 0x3f 0 (get_increment_b_1d t dst))
  pub dst_inc_d2 : at c Reg.dst_ptr_inc_d2 ≡ (
      if is_2d t.dim && not (is_address t.mode)
      then field r Reg.dst_ptr_inc_d2 0x7fffff 0 (get_increment_b_2d t dst)
      else at r Reg.dst_ptr_inc_d2)
  pub not_started : at c Reg.size_d1 ≡ at r Reg.size_d1
  pub same_size_d2 : at c Reg.size_d2 ≡ at r Reg.size_d2
  pub same_pads :
      (at c Reg.pad_top ≡ at r Reg.pad_top)
      × (at c Reg.pad_bottom ≡ at r Reg.pad_bottom)
      × (at c Reg.pad_left ≡ at r Reg.pad_left)
      × (at c Reg.pad_right ≡ at r Reg.pad_right)
  pub same_interrupts : at c Reg.interrupt_en ≡ at r Reg.interrupt_en

configure_cases :
    (t : Trans) (src dst src_addr : Target) (r : Region) (dim : Dim) (mode : Mode)
    → let u = record t { dim = dim; mode = mode } in
      IsConfigured u src dst src_addr r (configure u src dst src_addr r)
unfolding configure bitfield_write
configure_cases t src dst src_addr r dim_1d single = assumption refl
configure_cases t src dst src_addr r dim_1d _ = assumption refl
configure_cases t src dst src_addr r dim_2d single = assumption refl
configure_cases t src dst src_addr r dim_2d _ = assumption refl

pub configure-IsConfigured :
    (t : Trans) (src dst src_addr : Target) (r : Region)
    → IsConfigured t src dst src_addr r (configure t src dst src_addr r)
configure-IsConfigured t src dst src_addr r = configure_cases t src dst src_addr r t.dim t.mode
