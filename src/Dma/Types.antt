-- ===== src/Dma/Types.antt =====
-- dma.h: the data that the driver works on, with the register map of dma_regs.h.
-- C's enumerations that the code computes with (flags, data types, trigger slots) are numbers.
use core_v_mini_mcu.Base.{ℕ, ◌/◌, ◌^◌, Option, Bool, true, false}
use core_v_mini_mcu.Mmio.{Region}

-- `DMA_DATA_TYPE_2_SIZE`: bytes of a data unit, 4 >> type.
unfoldable pub data_type_2_size : ℕ → ℕ
data_type_2_size type = 4 / 2 ^ type

-- `dma_trigger_slot_mask_t`
abbrev pub trig_memory : ℕ
trig_memory = 0

abbrev pub trig_slot_spi_rx : ℕ
trig_slot_spi_rx = 1

abbrev pub trig_slot_spi_tx : ℕ
trig_slot_spi_tx = 2

-- `dma_data_type_t`
abbrev pub type_word : ℕ
type_word = 0

abbrev pub type_half_word : ℕ
type_half_word = 1

abbrev pub type_byte : ℕ
type_byte = 2

-- `dma_dim_t`
pub data Dim : Type 0 where
  dim_1d dim_2d : Dim

-- `dma_trans_mode_t`
pub data Mode : Type 0 where
  single circular address : Mode

-- `dma_trans_end_evt_t`
pub data EndEvent : Type 0 where
  polling intr intr_wait : EndEvent

-- The values that the enumerations have in a register.
abbrev pub dim_value : Dim → ℕ
dim_value dim_1d = 0
dim_value dim_2d = 1

abbrev pub mode_value : Mode → ℕ
mode_value single = 0
mode_value circular = 1
mode_value address = 2

abbrev pub is_2d : Dim → Bool
is_2d dim_1d = false
is_2d dim_2d = true

abbrev pub is_circular : Mode → Bool
is_circular circular = true
is_circular _ = false

abbrev pub is_address : Mode → Bool
is_address address = true
is_address _ = false

abbrev pub is_polling : EndEvent → Bool
is_polling polling = true
is_polling _ = false

abbrev pub is_intr_wait : EndEvent → Bool
is_intr_wait intr_wait = true
is_intr_wait _ = false

-- `dma_env_t`: the first and the last byte of a region of memory.
pub record Env : Type 0 where
  pub start : ℕ
  pub end : ℕ

-- `dma_target_t`. Environments are never written, so the pointer is the value it points to.
pub record Target : Type 0 where
  pub env : Option Env
  pub ptr : ℕ
  pub inc_d1_du : ℕ
  pub inc_d2_du : ℕ
  pub type : ℕ
  pub trig : ℕ

-- `dma_trans_t`. The targets are shared and written through, so they are addresses.
pub record Trans : Type 0 where
  pub src : ℕ
  pub dst : ℕ
  pub src_addr : ℕ
  pub inc_b : ℕ
  pub size_d1_du : ℕ
  pub size_d2_du : ℕ
  pub dim : Dim
  pub pad_top_du : ℕ
  pub pad_bottom_du : ℕ
  pub pad_left_du : ℕ
  pub pad_right_du : ℕ
  pub src_type : ℕ
  pub dst_type : ℕ
  pub sign_ext : ℕ
  pub mode : Mode
  pub dim_inv : ℕ
  pub win_du : ℕ
  pub end_event : EndEvent
  pub flags : ℕ
  pub channel : ℕ

-- `dma_ch_cb`: the loaded transaction (none for NULL), the interrupt flag, and the peripheral.
pub record Channel : Type 0 where
  pub trans : Option ℕ
  pub intr_flag : ℕ
  pub peri : ℕ

-- The memory that the driver reaches: targets, transactions and peripherals by address,
-- `dma_subsys_per`, the interrupt counters, and the two control registers of the core.
pub record World : Type 0 where
  pub targets : ℕ → Target
  pub transactions : ℕ → Trans
  pub banks : ℕ → Region
  pub channels : ℕ → Channel
  pub hp_tr_intr_counter : ℕ
  pub hp_win_intr_counter : ℕ
  pub mie : ℕ
  pub mstatus : ℕ
