-- ===== src/Dma/Validate/Accepted.antt =====
-- Consequences for accepted transactions: what is guaranteed, and what is not.
use core_v_mini_mcu.Base.{
  ℕ, ◌+◌, ◌-◌, ◌*◌, ◌^◌, ◌≤◌, ◌<◌, ◌≡◌, refl, arith, Bool, true, false, ◌&&◌, ◌||◌, ltb, ◌==◌,
  Option, some, ap, ◌∙◌, sym, ◌%◌,
}
use core_v_mini_mcu.Dma.Config
use core_v_mini_mcu.Dma.Config.{is_critical}
use core_v_mini_mcu.Dma.Types.{Env, Target, Trans, data_type_2_size, trig_memory, is_2d}
use core_v_mini_mcu.Dma.Target.{is_region_outbound_1d}
use core_v_mini_mcu.Dma.Target.Bounds.{last_byte, is_region_outbound_1d_iff}
use core_v_mini_mcu.Dma.Target.Alignment.{misalignment_word, misalignment_byte}
use core_v_mini_mcu.Dma.Validate.{
  result_of, set_defaults, validate_trans, check_increments, check_padding, check_triggers,
  check_mode, target_misalignment, dst_outbound,
}
use core_v_mini_mcu.Dma.Validate.Refusal.{misalignment, outbound, refused}
use core_v_mini_mcu.Dma.Validate.Safety.{validate_trans-Settled}
use core_v_mini_mcu.Dma.Validate.Flags.{check_targets_lem}
use core_v_mini_mcu.Dma.Validate.Verdict.{validate_trans-refused}

or_false : (a b : Bool) → (a || b) ≡ false → (a ≡ false) × (b ≡ false)
or_false a b h = ground arith

-- What is not refused passes each test.
accepted_tests :
    (src dst : Target) (en_realign : Bool) (t : Trans)
    → is_critical (result_of (validate_trans src dst en_realign true t)).flags ≡ false
    → (is_critical t.flags ≡ false)
      × ((t.size_d1_du == 0) ≡ false)
      × (outbound src dst t ≡ false)
      × (ltb t.size_d1_du t.win_du ≡ false)
accepted_tests src dst en_realign t h =
    let all : refused src dst t en_realign true ≡ false =
      sym (validate_trans-refused src dst en_realign true t) ∙ h in
    let a = or_false (is_critical t.flags) _ all in
    let b = or_false _ (ltb t.size_d1_du t.win_du) a.1 in
    let c = or_false _ (outbound src dst t) b.0 in
    let d = or_false _ (t.size_d1_du == 0 || is_2d t.dim && t.size_d2_du == 0) c.0 in
    (a.0, (or_false (t.size_d1_du == 0) _ d.1).0, c.1, b.1)

dst_outbound-some :
    (dst : Target) (t : Trans) (env : Env)
    → dst.env ≡ some env
    → dst_outbound dst t
      ≡ is_region_outbound_1d dst.ptr env.end t.dst_type t.size_d1_du dst.inc_d1_du
unfolding dst_outbound
dst_outbound-some dst t env e = rw (e, dst_outbound) refl

-- If a validation with the checks leaves no critical flag, the destination has an environment, the
-- size fits 32 bits, the realigned type is one of the three and the region fits the address space,
-- then the size is unchanged and the last byte of every data unit of the first row is at most the
-- last byte of the environment.
pub accepted_in_bounds :
    (src dst : Target) (en_realign : Bool) (t : Trans) (env : Env)
    → is_critical (result_of (validate_trans src dst en_realign true t)).flags ≡ false
    → dst.env ≡ some env
    → t.size_d1_du < 2 ^ 32
    → dst.type + misalignment src dst t ≤ 2
    → dst.ptr
        + data_type_2_size (dst.type + misalignment src dst t)
          * ((t.size_d1_du - 1) * dst.inc_d1_du + 1)
      < 2 ^ 32
    → (i : ℕ) → i < t.size_d1_du
    → let u = result_of (validate_trans src dst en_realign true t) in
      (u.size_d1_du ≡ t.size_d1_du) × (last_byte dst.ptr u.dst_type dst.inc_d1_du i ≤ env.end)
accepted_in_bounds src dst en_realign t env h e w narrow fits i hi =
    let passed = accepted_tests src dst en_realign t h in
    let same = validate_trans-Settled src dst en_realign t passed.0 h in
    let typed = ap (λ (x : Trans). x.dst_type) same in
    let inside =
      (is_region_outbound_1d_iff dst.ptr env.end (dst.type + misalignment src dst t) t.size_d1_du
          dst.inc_d1_du (omega arith) w narrow fits).0
        (sym (
            dst_outbound-some dst (record t { dst_type = dst.type + misalignment src dst t }) env e)
          ∙ passed.2) in
    (ap (λ (x : Trans). x.size_d1_du) same, rw typed (inside i hi))

-- Without the checks a transaction with no critical flag is left with no flag at all, the types of
-- its targets and no common increment, whatever `validate_target` says of its targets.
pub validate_trans_unchecked :
    (src dst : Target) (en_realign : Bool) (t : Trans)
    → is_critical t.flags ≡ false
    → result_of (validate_trans src dst en_realign false t)
      ≡ record t { flags = Config.ok; src_type = src.type; dst_type = dst.type; inc_b = 0 }
unfolding validate_trans check_increments check_padding check_triggers check_mode set_defaults
validate_trans_unchecked src dst en_realign t clean = rw (check_targets_lem src dst t, clean)

-- The environment of the source has no part in whether the flags are critical.
pub validate_trans-src_env :
    (src dst : Target) (en_realign check : Bool) (t : Trans) (env : Option Env)
    → is_critical (result_of (validate_trans src dst en_realign check t)).flags
      ≡ is_critical
          (result_of (validate_trans (record src { env = env }) dst en_realign check t)).flags
unfolding target_misalignment
validate_trans-src_env src dst en_realign check t env =
    validate_trans-refused src dst en_realign check t
    ∙ sym (validate_trans-refused (record src { env = env }) dst en_realign check t)

misalignment_two :
    (src dst : Target) (t : Trans)
    → src.trig ≡ trig_memory
    → dst.trig ≡ trig_memory
    → src.type ≡ 0
    → dst.type ≡ 2
    → src.ptr % 2 ≡ 1
    → misalignment src dst t ≡ 2
unfolding target_misalignment
misalignment_two src dst t src_mem dst_mem word byte odd =
    rw (src_mem, dst_mem, word, byte)
      (rw (misalignment_word src.ptr, misalignment_byte dst.ptr, odd) refl)

-- A word source at an odd address in memory with a byte destination in memory: if the checks leave
-- such a transaction without the critical flag, its destination type is 4, which is no data type, and its common increment is 0.
pub realign_leaves_range :
    (src dst : Target) (en_realign : Bool) (t : Trans)
    → is_critical (result_of (validate_trans src dst en_realign true t)).flags ≡ false
    → src.trig ≡ trig_memory
    → dst.trig ≡ trig_memory
    → src.type ≡ 0
    → dst.type ≡ 2
    → src.ptr % 2 ≡ 1
    → let u = result_of (validate_trans src dst en_realign true t) in
      (u.src_type ≡ 0) × (u.dst_type ≡ 4) × (u.inc_b ≡ 0)
unfolding data_type_2_size
realign_leaves_range src dst en_realign t h src_mem dst_mem word byte odd =
    let passed = accepted_tests src dst en_realign t h in
    let same = validate_trans-Settled src dst en_realign t passed.0 h in
    let two = misalignment_two src dst t src_mem dst_mem word byte odd in
    (
      ap (λ (x : Trans). x.src_type) same ∙ word,
      ap (λ (x : Trans). x.dst_type) same ∙ rw (two, byte) refl,
      ap (λ (x : Trans). x.inc_b) same ∙ rw (two, byte) refl,
    )
