-- ===== src/Dma/Target.antt =====
-- dma.c: the checks of a single target and of the region that a transfer covers.
pub mod Bounds
pub mod Alignment
use core_v_mini_mcu.Base.{
  ℕ, ◌+◌, ◌-◌, ◌*◌, ◌%◌, ◌^◌, bit_and, bit_or, u32, sub32, Bool, true, false, not, ◌&&◌, ◌||◌, ltb,
  leb, ◌==◌, if◌then◌else◌, Option, none, some,
}
use core_v_mini_mcu.Dma.Config
use core_v_mini_mcu.Dma.Types.{
  Env, Target, Trans, data_type_2_size, trig_memory, type_word, type_half_word,
}

unfoldable pub validate_environment : Env → ℕ
validate_environment env = if ltb env.end env.start then Config.incompatible else Config.ok

-- 2 for a word at an odd address: it has to be moved in bytes.
unfoldable pub get_misalignment_b : ℕ → ℕ → ℕ
get_misalignment_b ptr type =
    let word = if type == type_word then (if bit_and ptr 3 == 0 then 0 else 1) else 0 in
    if leb type type_half_word then (if bit_and ptr 1 == 0 then word else word + 1) else word

-- All arithmetic is that of `uint32_t`, which wraps.
unfoldable pub is_region_outbound_1d : ℕ → ℕ → ℕ → ℕ → ℕ → Bool
unfolding data_type_2_size
is_region_outbound_1d start end type size_d1_du inc_d1_du =
    let affected_units = u32 (u32 (sub32 size_d1_du 1 * inc_d1_du) + 1) in
    let range_size = u32 (data_type_2_size type * affected_units) in
    let last_byte_inside_range = sub32 (u32 (start + range_size)) 1 in
    ltb end last_byte_inside_range

unfoldable pub is_region_outbound_2d : ℕ → ℕ → ℕ → ℕ → ℕ → ℕ → ℕ → Bool
unfolding data_type_2_size
is_region_outbound_2d start end type size_d1_du size_d2_du inc_d1_du inc_d2_du =
    let row = u32 (u32 (sub32 size_d1_du 1 * inc_d1_du) + 1) in
    let affected_units = u32 (u32 (row * size_d2_du) + u32 (inc_d2_du * sub32 size_d2_du 1)) in
    let range_size = u32 (data_type_2_size type * affected_units) in
    let last_byte_inside_range = sub32 (u32 (start + range_size)) 1 in
    ltb end last_byte_inside_range

-- The flags that the environment of a target adds.
unfoldable pub environment_flags : Option Env → Target → Trans → ℕ
unfolding validate_environment is_region_outbound_1d is_region_outbound_2d
environment_flags none tgt trans = Config.ok
environment_flags (some env) tgt trans =
    let formed = bit_or Config.ok (validate_environment env) in
    let outbound =
      if trans.size_d2_du == 0
      then is_region_outbound_1d tgt.ptr env.end tgt.type trans.size_d1_du tgt.inc_d1_du
      else is_region_outbound_2d tgt.ptr env.end tgt.type trans.size_d1_du trans.size_d2_du
          tgt.inc_d1_du tgt.inc_d2_du in
    let reached = if outbound then bit_or formed Config.outbounds else formed in
    if ltb tgt.ptr env.start || ltb env.end tgt.ptr
    then bit_or reached Config.outbounds
    else reached

abbrev pub has_env : Option Env → Bool
has_env none = false
has_env (some env) = true

unfoldable pub validate_target : Target → Trans → ℕ
unfolding environment_flags
validate_target tgt trans =
    let flags = environment_flags tgt.env tgt trans in
    if tgt.trig == trig_memory
    then (if tgt.inc_d1_du == 0 then bit_or flags Config.incompatible else flags)
    else if has_env tgt.env || not (tgt.inc_d1_du == 0)
    then bit_or flags Config.incompatible
    else flags
