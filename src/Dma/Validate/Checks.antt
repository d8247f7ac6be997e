-- ===== src/Dma/Validate/Checks.antt =====
-- The verdict of each check before the flags are cleaned.
use core_v_mini_mcu.Base.{◌≡◌, Bool, not, ◌&&◌, ◌||◌, ◌==◌}
use core_v_mini_mcu.Dma.Config
use core_v_mini_mcu.Dma.Config.{is_critical}
use core_v_mini_mcu.Dma.Types.{Target, Trans, trig_memory, is_2d, is_circular}
use core_v_mini_mcu.Dma.Validate.{
  Checked, ◌>>=◌, check_increments, check_padding, check_triggers, check_mode,
}
use core_v_mini_mcu.Dma.Validate.Flags.{verdict, verdict-reject}

pub verdict-check_increments :
    (src dst : Target) (check : Bool) (t : Trans) (rest : Trans → Checked)
    → verdict (check_increments src dst check t >>= rest) ≡ (
        check
          && (is_2d t.dim && (src.inc_d2_du == 0 || dst.inc_d2_du == 0)
              || not (is_2d t.dim) && (not (src.inc_d2_du == 0) || not (dst.inc_d2_du == 0)))
        || verdict (rest t))
unfolding check_increments
verdict-check_increments src dst check t rest = verdict-reject _ Config.incompatible t rest

pub verdict-check_padding :
    (check : Bool) (t : Trans) (rest : Trans → Checked)
    → verdict (check_padding check t >>= rest) ≡ (
        check && (not (is_2d t.dim) && (not (t.pad_top_du == 0) || not (t.pad_bottom_du == 0)))
        || verdict (rest t))
unfolding check_padding
verdict-check_padding check t rest = verdict-reject _ Config.incompatible t rest

pub verdict-check_triggers :
    (src dst : Target) (check : Bool) (t : Trans) (rest : Trans → Checked)
    → verdict (check_triggers src dst check t >>= rest) ≡ (
        check && (not (src.trig == trig_memory) && not (dst.trig == trig_memory))
        || verdict (rest t))
unfolding check_triggers
verdict-check_triggers src dst check t rest = verdict-reject _ Config.incompatible t rest

pub verdict-check_mode :
    (src dst : Target) (check : Bool) (t : Trans) (rest : Trans → Checked)
    → verdict (check_mode src dst check t >>= rest) ≡ (
        check && (src.trig == trig_memory && dst.trig == trig_memory && is_circular t.mode)
        || verdict (rest t))
unfolding check_mode
verdict-check_mode src dst check t rest = verdict-reject _ Config.incompatible t rest
