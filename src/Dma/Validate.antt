-- ===== src/Dma/Validate.antt =====
-- dma.c: `dma_validate_transaction`. Each check is a function of its own, in the code's order; a
-- check that returns early is `returned`. The result of the C function is the `flags` of the
-- transaction at that point.
-- The validation writes nothing but the transaction, so it is a function of the two targets.
pub mod Flags
pub mod Refusal
mod Checks
mod Integrity
mod Passes
pub mod Verdict
pub mod Safety
pub mod Accepted
use core_v_mini_mcu.Base.{
  ℕ, ◌+◌, ◌/◌, bit_or, u8, Bool, true, false, not, ◌&&◌, ◌||◌, ltb, ◌==◌, if◌then◌else◌, Option,
  none, some,
}
use core_v_mini_mcu.Dma.Config
use core_v_mini_mcu.Dma.Config.{is_critical}
use core_v_mini_mcu.Dma.Types.{
  Target, Trans, World, data_type_2_size, trig_memory, is_2d, is_circular,
}
use core_v_mini_mcu.Dma.Target.{validate_target, get_misalignment_b, is_region_outbound_1d, has_env}
use core_v_mini_mcu.Mmio.{update}

-- The weak implementation, which an application may override.
abbrev pub dma_window_ratio_warning_threshold : ℕ
dma_window_ratio_warning_threshold = 4

pub data Checked : Type 0 where
  returned : Trans → Checked
  continued : Trans → Checked

infixl 5 ◌>>=◌
abbrev pub ◌>>=◌ : Checked → (Trans → Checked) → Checked
returned t >>= next = returned t
continued t >>= next = next t

abbrev pub result_of : Checked → Trans
result_of (returned t) = t
result_of (continued t) = t

-- `p_trans->flags |= flag`
abbrev pub raise : ℕ → Trans → Trans
raise flag t = record t { flags = bit_or t.flags flag }

-- The flags of a check that fails: its own, then the critical one.
abbrev pub reject : ℕ → Trans → Checked
reject flag t = returned (raise Config.critical_error (raise flag t))

unfoldable pub check_padding : Bool → Trans → Checked
check_padding check t =
    if check && (not (is_2d t.dim) && (not (t.pad_top_du == 0) || not (t.pad_bottom_du == 0)))
    then reject Config.incompatible t
    else continued t

unfoldable pub target_misalignment : Target → ℕ → ℕ
unfolding get_misalignment_b
target_misalignment tgt type =
    if tgt.trig == trig_memory then get_misalignment_b tgt.ptr type else 0

-- The destination's type is refined by the larger misalignment; the source's type is left.
unfoldable pub realign : ℕ → Trans → Trans
unfolding data_type_2_size
realign misalignment t =
    let type = t.dst_type + misalignment in
    record t { dst_type = type; inc_b = data_type_2_size type }

unfoldable pub check_sizes : Trans → Checked
check_sizes t =
    if t.size_d1_du == 0 || is_2d t.dim && t.size_d2_du == 0
    then reject Config.src t
    else continued t

-- The destination's region, with the refined type. Only the first dimension is checked.
unfoldable pub dst_outbound : Target → Trans → Bool
dst_outbound dst t = elim dst.env [
  | none ↦ false
  | some env ↦ is_region_outbound_1d dst.ptr env.end t.dst_type t.size_d1_du dst.inc_d1_du
]

unfoldable pub check_outbound : Target → Trans → Checked
check_outbound dst t =
    if dst_outbound dst t then reject Config.outbounds (raise Config.dst t) else continued t

-- A window of 0 disables the window; the quotient by it is not used.
unfoldable pub check_window : Trans → Checked
check_window t =
    let threshold = dma_window_ratio_warning_threshold in
    let ratio = t.size_d1_du / t.win_du in
    if ltb t.size_d1_du t.win_du
    then reject Config.window_size t
    else if not (t.win_du == 0) && (not (threshold == 0) && ltb threshold ratio)
    then continued (raise Config.window_size t)
    else continued t

module _ (src dst : Target) where
  -- The errors of the targets are kept in 8 bits. Both are marked with the flag of the source.
  unfoldable pub check_targets : Trans → Checked
  check_targets t =
      let error_src = u8 (validate_target src t) in
      let error_dst = u8 (validate_target dst t) in
      let t1 = raise (if error_src == 0 then Config.ok else bit_or error_src Config.src) t in
      let t2 = raise (if error_dst == 0 then Config.ok else bit_or error_dst Config.src) t1 in
      if is_critical t2.flags then returned t2 else continued t2

  unfoldable pub check_increments : Bool → Trans → Checked
  check_increments check t =
      if check
        && (is_2d t.dim && (src.inc_d2_du == 0 || dst.inc_d2_du == 0)
            || not (is_2d t.dim) && (not (src.inc_d2_du == 0) || not (dst.inc_d2_du == 0)))
      then reject Config.incompatible t
      else continued t

  unfoldable pub check_triggers : Bool → Trans → Checked
  check_triggers check t =
      if check && (not (src.trig == trig_memory) && not (dst.trig == trig_memory))
      then reject Config.incompatible t
      else continued t

  unfoldable pub check_mode : Bool → Trans → Checked
  check_mode check t =
      if check && (src.trig == trig_memory && dst.trig == trig_memory && is_circular t.mode)
      then reject Config.incompatible t
      else continued t

  -- From here on the flags tell only of what follows.
  unfoldable pub set_defaults : Trans → Trans
  set_defaults t = record t {
    flags = Config.ok;
    src_type = src.type;
    dst_type = dst.type;
    inc_b = 0;
  }

  unfoldable pub check_alignment : Bool → Trans → Checked
  unfolding realign
  check_alignment en_realign t =
      let src_misalignment = target_misalignment src t.src_type in
      let dst_misalignment = target_misalignment dst t.dst_type in
      let t1 = raise (if src_misalignment == 0 then Config.ok else Config.src) t in
      let t2 = raise (if dst_misalignment == 0 then Config.ok else Config.dst) t1 in
      let misalignment =
        if ltb src_misalignment dst_misalignment then dst_misalignment else src_misalignment in
      let t3 = raise Config.misalign t2 in
      if misalignment == 0
      then continued t2
      else if not en_realign
      then returned (raise Config.critical_error t3)
      else if ltb 1 src.inc_d1_du || ltb 1 dst.inc_d1_du
      then reject Config.discontinuous t3
      else continued (realign misalignment t3)

  -- The checks that compare the transaction with the memory it covers.
  unfoldable pub check_integrity : Bool → Trans → Checked
  check_integrity en_realign t = do
    t1 ← check_alignment en_realign t
    t2 ← check_sizes t1
    t3 ← check_outbound dst t2
    check_window t3

  unfoldable pub validate_trans : Bool → Bool → Trans → Checked
  validate_trans en_realign check t = do
    t1 ← check_targets t
    t2 ← check_increments check t1
    t3 ← check_padding check t2
    t4 ← check_triggers check t3
    t5 ← check_mode check t4
    if check then check_integrity en_realign (set_defaults t5) else continued (set_defaults t5)

-- `dma_validate_transaction`: the new memory and the flags that are returned.
unfoldable pub dma_validate_transaction : World → ℕ → Bool → Bool → World × ℕ
dma_validate_transaction w p_trans en_realign check =
    let t = w.transactions p_trans in
    let t' = result_of (validate_trans (w.targets t.src) (w.targets t.dst) en_realign check t) in
    (record w { transactions = update w.transactions p_trans t' }, t'.flags)
