-- ===== src/Dma/Init.antt =====
-- dma.c: `dma_init`. The macro `dma_peri(i)` of the generated dma_structs.h, which gives the
-- integrated peripheral of a channel, is the parameter `integrated`.
pub mod Laws
use core_v_mini_mcu.Base.{
  ℕ, zero, suc, ◌+◌, ◌/◌, ◌==◌, if◌then◌else◌, Option, none, some, List, [], ◌∷◌,
}
use core_v_mini_mcu.Dma.Reg
use core_v_mini_mcu.Dma.Types.{Channel, World}
use core_v_mini_mcu.Mmio.{Region, update, mmio_region_write32}

-- The registers that are cleared, in the code's order.
abbrev pub cleared_registers : List ℕ
cleared_registers =
    Reg.src_ptr ∷ Reg.dst_ptr ∷ Reg.addr_ptr ∷ Reg.size_d1 ∷ Reg.size_d2 ∷ Reg.src_ptr_inc_d1
    ∷ Reg.src_ptr_inc_d2 ∷ Reg.dst_ptr_inc_d1 ∷ Reg.dst_ptr_inc_d2 ∷ Reg.dim_config ∷ Reg.dim_inv
    ∷ Reg.slot ∷ Reg.src_data_type ∷ Reg.dst_data_type ∷ Reg.sign_ext ∷ Reg.mode ∷ Reg.window_size
    ∷ Reg.pad_top ∷ Reg.pad_bottom ∷ Reg.pad_left ∷ Reg.pad_right ∷ Reg.interrupt_en ∷ []

unfoldable pub clear : List ℕ → Region → Region
clear [] r = r
clear (offset ∷ offsets) r = clear offsets (mmio_region_write32 r offset 0)

abbrev pub peri_of : Option ℕ → (ℕ → ℕ) → ℕ → ℕ
peri_of none integrated i = integrated i
peri_of (some peri) integrated i = peri

-- The loop body for channel `i`.
unfoldable pub init_channel : Option ℕ → (ℕ → ℕ) → ℕ → World → World
init_channel given integrated i w =
    let peri = peri_of given integrated i in
    record w {
      channels = update w.channels i (record (w.channels i) { trans = none; peri = peri });
      banks = update w.banks peri (clear cleared_registers (w.banks peri));
    }

unfoldable pub init_loop : Option ℕ → (ℕ → ℕ) → ℕ → ℕ → World → World
init_loop given integrated zero i w = w
init_loop given integrated (suc left) i w =
    init_loop given integrated left (i + 1) (init_channel given integrated i w)

unfoldable pub dma_init : Option ℕ → (ℕ → ℕ) → ℕ → World → World
dma_init given integrated ch_num w = init_loop given integrated ch_num 0 w
