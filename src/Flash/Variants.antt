-- ===== src/Flash/Variants.antt =====
-- w25q.c: the updates of a range that use the reads and the writes at one speed, without the DMA.
use mathlib.Core.Option
use core_v_mini_mcu.Base.{ℕ, true, Option}
use core_v_mini_mcu.Flash.{Setup}
use core_v_mini_mcu.Flash.Erase.{w25q128jw_4k_erase}
use core_v_mini_mcu.Flash.Read.{w25q128jw_read_standard, w25q128jw_read_quad}
use core_v_mini_mcu.Flash.Update.{Buffer, Calls, erase_and_write}
use core_v_mini_mcu.Flash.Write.{w25q128jw_write_standard, w25q128jw_write_quad}
use core_v_mini_mcu.SpiHost.{Host}

abbrev pub flattened : Option (Option Host × ℕ) → Option (Host × ℕ)
flattened written =
    Option.bind written (λ (r : Option Host × ℕ). Option.map (λ (h : Host). (h, r.1)) r.0)

abbrev pub erased : Setup → ℕ → Host → Option Host
unfolding w25q128jw_4k_erase
erased setup start h = Option.map (λ (r : Host × Option ℕ). r.0) (w25q128jw_4k_erase setup start h)

unfoldable pub standard_calls : Setup → Calls Host
unfolding w25q128jw_read_standard w25q128jw_write_standard
standard_calls setup = record {
  read = λ start sector n h. w25q128jw_read_standard setup start true n h sector;
  erase = erased setup;
  write = λ start changed n h. flattened (w25q128jw_write_standard setup start changed n h);
}

unfoldable pub quad_calls : Setup → Calls Host
unfolding w25q128jw_read_quad w25q128jw_write_quad
quad_calls setup = record {
  read = λ start sector n h. w25q128jw_read_quad setup start true n h sector;
  erase = erased setup;
  write = λ start changed n h. flattened (w25q128jw_write_quad setup start changed n h);
}

unfoldable pub w25q128jw_erase_and_write_standard :
    Setup → ℕ → Buffer → ℕ → Host → Buffer → Option ((Host × Buffer) × ℕ)
unfolding erase_and_write
w25q128jw_erase_and_write_standard setup addr bytes length h sector =
    erase_and_write (standard_calls setup) addr bytes length h sector

unfoldable pub w25q128jw_erase_and_write_quad :
    Setup → ℕ → Buffer → ℕ → Host → Buffer → Option ((Host × Buffer) × ℕ)
unfolding erase_and_write
w25q128jw_erase_and_write_quad setup addr bytes length h sector =
    erase_and_write (quad_calls setup) addr bytes length h sector
