-- ===== src/Dma/Config.antt =====
-- `dma_config_flags_t` of dma.h, and the test of its gravest flag.
use core_v_mini_mcu.Base.{ℕ, Bool, not, ◌==◌, bit_and}

abbrev pub ok : ℕ
ok = 0x0000

abbrev pub src : ℕ
src = 0x0001

abbrev pub dst : ℕ
dst = 0x0002

abbrev pub misalign : ℕ
misalign = 0x0004

abbrev pub overlap : ℕ
overlap = 0x0008

abbrev pub discontinuous : ℕ
discontinuous = 0x0010

abbrev pub outbounds : ℕ
outbounds = 0x0020

abbrev pub incompatible : ℕ
incompatible = 0x0040

abbrev pub window_size : ℕ
window_size = 0x0080

abbrev pub trans_override : ℕ
trans_override = 0x0100

abbrev pub critical_error : ℕ
critical_error = 0x0200

-- `flags & DMA_CONFIG_CRITICAL_ERROR`
abbrev pub is_critical : ℕ → Bool
is_critical flags = not (bit_and flags critical_error == 0)
