-- ===== src/Dma/Launch.antt =====
-- dma.c: `dma_launch`, and the functions that read or stop a running transaction.
pub mod Laws
pub mod Wait
use core_v_mini_mcu.Base.{
  ℕ, zero, suc, ◌/◌, Bool, true, false, not, ◌&&◌, ◌==◌, if◌then◌else◌, Option, none, some, u8,
}
use core_v_mini_mcu.Dma.Config
use core_v_mini_mcu.Dma.Reg
use core_v_mini_mcu.Dma.Types.{Trans, Channel, World, is_2d, is_intr_wait}
use core_v_mini_mcu.Dma.Load.{write_register, dma_is_ready}
use core_v_mini_mcu.Mmio.{Region, update, mmio_region_read32, mmio_region_write32}

-- Whether the transaction that the channel has loaded is the one at `p_trans`.
abbrev pub is_loaded : Option ℕ → ℕ → Bool
is_loaded none p_trans = false
is_loaded (some p) p_trans = p == p_trans

-- The write of SIZE_D1 starts the transfer, so it is the last.
unfoldable pub write_sizes : Trans → Region → Region
write_sizes t r =
    let r1 = if is_2d t.dim then write_register t.size_d2_du Reg.size_d2 0xffff 0 r else r in
    write_register t.size_d1_du Reg.size_d1 0xffff 0 r1

-- The state in which the code arrives at its waiting loop.
unfoldable pub start : World → ℕ → World
start w p_trans =
    let t = w.transactions p_trans in
    let c = w.channels t.channel in
    record w {
      channels = update w.channels t.channel (record c { intr_flag = 0 });
      banks = update w.banks c.peri (write_sizes t (w.banks c.peri));
    }

-- The condition of the waiting loop, as it is written.
unfoldable pub keeps_waiting : World → ℕ → Bool
keeps_waiting w p_trans =
    let t = w.transactions p_trans in
    is_intr_wait t.end_event && not ((w.channels t.channel).intr_flag == 0)

-- `wfi` is what happens while the core waits for one interrupt. `none` means still waiting.
unfoldable pub wait_loop : (World → World) → ℕ → World → ℕ → Option World
wait_loop wfi zero w p_trans = none
wait_loop wfi (suc rounds) w p_trans = elim (keeps_waiting w p_trans) [
  | true ↦ wait_loop wfi rounds (wfi w) p_trans
  | false ↦ some w
]

-- `before` is what the interrupts do between the start of the transfer and the waiting loop.
unfoldable pub dma_launch : (World → World) → (World → World) → ℕ → World → ℕ → Option (World × ℕ)
dma_launch before wfi rounds w p_trans =
    let t = w.transactions p_trans in
    if not (is_loaded (w.channels t.channel).trans p_trans)
    then some (w, Config.critical_error)
    else if not (dma_is_ready w t.channel)
    then some (w, Config.trans_override)
    else elim (wait_loop wfi rounds (before (start w p_trans)) p_trans) [
      | none ↦ none
      | some w' ↦ some (w', Config.ok)
    ]

unfoldable pub dma_get_window_count : World → ℕ → ℕ
dma_get_window_count w channel =
    mmio_region_read32 (w.banks (w.channels channel).peri) Reg.window_count

unfoldable pub dma_stop_circular : World → ℕ → World
dma_stop_circular w channel =
    let peri = (w.channels channel).peri in
    record w { banks = update w.banks peri (mmio_region_write32 (w.banks peri) Reg.mode 0) }
