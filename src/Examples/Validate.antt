-- ===== src/Examples/Validate.antt =====
-- The theorems on the validation at a copy of four words, and at a word read from an odd address.
use core_v_mini_mcu.Base.{ℕ, ◌≡◌, ◌≤◌, ◌<◌, ◌+◌, ◌*◌, ◌-◌, ◌↔◌, refl, arith, true, false}
use core_v_mini_mcu.Dma.Config.{is_critical}
use core_v_mini_mcu.Dma.Types.{data_type_2_size}
use core_v_mini_mcu.Dma.Target.{
  is_region_outbound_1d, is_region_outbound_2d, get_misalignment_b, validate_target,
  environment_flags, validate_environment,
}
use core_v_mini_mcu.Dma.Target.Bounds.{
  last_byte, unit_2d, is_region_outbound_1d_iff, is_region_outbound_2d_sound,
}
use core_v_mini_mcu.Dma.Validate.{
  result_of, validate_trans, dma_validate_transaction, check_targets, check_increments,
  check_padding, check_triggers, check_mode, set_defaults, check_alignment, check_sizes,
  check_outbound, check_window, check_integrity, target_misalignment, dst_outbound, realign,
}
use core_v_mini_mcu.Dma.Validate.Refusal.{refused}
use core_v_mini_mcu.Dma.Validate.Verdict.{dma_validate_transaction_verdict}
use core_v_mini_mcu.Dma.Validate.Safety.{settled, validate_trans-Settled}
use core_v_mini_mcu.Dma.Validate.Accepted.{accepted_in_bounds}
use core_v_mini_mcu.Examples.Data.{from_memory, to_memory, odd_source, to_bytes, four_words, board}

copy_passes :
    is_critical (result_of (validate_trans from_memory to_memory true true four_words)).flags
    ≡ false
unfolding validate_trans check_targets check_increments check_padding check_triggers check_mode
    set_defaults check_integrity check_alignment check_sizes check_outbound check_window
    target_misalignment dst_outbound realign get_misalignment_b is_region_outbound_1d
    data_type_2_size validate_target environment_flags validate_environment
copy_passes = refl

odd_passes :
    is_critical (result_of (validate_trans odd_source to_bytes true true four_words)).flags ≡ false
unfolding validate_trans check_targets check_increments check_padding check_triggers check_mode
    set_defaults check_integrity check_alignment check_sizes check_outbound check_window
    target_misalignment dst_outbound realign get_misalignment_b is_region_outbound_1d
    data_type_2_size validate_target environment_flags validate_environment
odd_passes = refl

dma_validate_transaction_verdict_example :
    let (w', flags) = dma_validate_transaction board 0 true true in
    ((w'.transactions 0).flags ≡ flags)
    × (is_critical flags ≡ refused from_memory to_memory four_words true true)
dma_validate_transaction_verdict_example = dma_validate_transaction_verdict board 0 true true

accepted_in_bounds_example :
    let u = result_of (validate_trans from_memory to_memory true true four_words) in
    (u.size_d1_du ≡ 4) × (last_byte 64 u.dst_type 1 3 ≤ 127)
unfolding target_misalignment get_misalignment_b data_type_2_size
accepted_in_bounds_example =
    accepted_in_bounds from_memory to_memory true four_words (record { start = 64; end = 127 })
      copy_passes refl (omega arith) (omega arith) (omega arith) 3 (omega arith)

validate_trans-Settled_example :
    let u = result_of (validate_trans from_memory to_memory true true four_words) in
    u ≡ settled from_memory to_memory four_words u.flags
validate_trans-Settled_example =
    validate_trans-Settled from_memory to_memory true four_words refl copy_passes

is_region_outbound_1d_iff_example :
    (is_region_outbound_1d 64 127 0 4 1 ≡ false) ↔ ((i : ℕ) → i < 4 → last_byte 64 0 1 i ≤ 127)
unfolding data_type_2_size
is_region_outbound_1d_iff_example =
    is_region_outbound_1d_iff 64 127 0 4 1 (omega arith) (omega arith) (omega arith) (omega arith)

is_region_outbound_2d_sound_example : 64 + data_type_2_size 0 * (unit_2d 4 1 1 2 3 + 1) - 1 ≤ 127
unfolding data_type_2_size is_region_outbound_2d
is_region_outbound_2d_sound_example =
    is_region_outbound_2d_sound 64 127 0 4 3 1 1 (omega arith) (omega arith) (omega arith)
      (omega arith) (omega arith) (omega arith) refl 2 3 (omega arith) (omega arith)
