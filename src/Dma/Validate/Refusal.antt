-- ===== src/Dma/Validate/Refusal.antt =====
-- A description of what the validation refuses, with no flags and no order of checks.
use core_v_mini_mcu.Base.{ℕ, ◌+◌, Bool, not, ◌&&◌, ◌||◌, ltb, ◌==◌, max}
use core_v_mini_mcu.Dma.Config.{is_critical}
use core_v_mini_mcu.Dma.Types.{Target, Trans, trig_memory, is_2d, is_circular}
use core_v_mini_mcu.Dma.Validate.{target_misalignment, dst_outbound}

module _ (src dst : Target) (t : Trans) where
  -- The two targets and the dimension, the padding, the triggers and the mode fit together.
  abbrev pub inconsistent : Bool
  inconsistent =
      (is_2d t.dim && (src.inc_d2_du == 0 || dst.inc_d2_du == 0))
      || (not (is_2d t.dim) && (not (src.inc_d2_du == 0) || not (dst.inc_d2_du == 0)))
      || (not (is_2d t.dim) && (not (t.pad_top_du == 0) || not (t.pad_bottom_du == 0)))
      || (not (src.trig == trig_memory) && not (dst.trig == trig_memory))
      || (src.trig == trig_memory && dst.trig == trig_memory && is_circular t.mode)

  -- The larger misalignment of the two ends; an end at a peripheral has none.
  abbrev pub misalignment : ℕ
  misalignment = max (target_misalignment src src.type) (target_misalignment dst dst.type)

  abbrev pub misaligned : Bool → Bool
  misaligned en_realign =
      not (misalignment == 0) && (not en_realign || ltb 1 src.inc_d1_du || ltb 1 dst.inc_d1_du)

  abbrev pub empty : Bool
  empty = t.size_d1_du == 0 || is_2d t.dim && t.size_d2_du == 0

  -- The destination's region in data units of the type that realignment leaves.
  abbrev pub outbound : Bool
  outbound = dst_outbound dst (record t { dst_type = dst.type + misalignment })

  abbrev pub refused : Bool → Bool → Bool
  refused en_realign check =
      is_critical t.flags
      || (check
          && (inconsistent
              || misaligned en_realign
              || empty
              || outbound
              || ltb t.size_d1_du t.win_du))
