-- ===== src/Flash/Dma/Send.antt =====
-- What dma_send_toflash does with its static variables.
use core_v_mini_mcu.Base.{
  ℕ, zero, suc, ◌%◌, ◌≤◌, ◌≡◌, refl, arith, bit_or, true, false, Bool-cases, inl, inr, ltb, ◌==◌,
  if◌then◌else◌, none,
}
use core_v_mini_mcu.Dma.Config.{is_critical}
use core_v_mini_mcu.Dma.Target.{validate_target, environment_flags, get_misalignment_b}
use core_v_mini_mcu.Dma.Types.{
  Target, Trans, trig_memory, type_word, dim_1d, single, polling, data_type_2_size,
}
use core_v_mini_mcu.Dma.Validate.{
  result_of, validate_trans, check_targets, check_increments, check_padding, check_triggers,
  check_mode, set_defaults, check_integrity, check_alignment, check_sizes, check_outbound,
  check_window, dst_outbound, target_misalignment, realign,
}
use core_v_mini_mcu.Dma.Validate.Flags.{is_critical-bit_or}
use core_v_mini_mcu.Dma.Target.Alignment.{misalignment_word}
use core_v_mini_mcu.Flash.Dma.{trig_slot_spi_flash_tx}

abbrev pub send_source : ℕ → Target
send_source data_ptr = record {
  env = none;
  ptr = data_ptr;
  inc_d1_du = 1;
  inc_d2_du = 0;
  type = type_word;
  trig = trig_memory;
}

abbrev pub send_sink : ℕ → Target
send_sink fifo = record {
  env = none;
  ptr = fifo;
  inc_d1_du = 0;
  inc_d2_du = 0;
  type = type_word;
  trig = trig_slot_spi_flash_tx;
}

-- What the transaction of the sends can be: its initializer, and what the driver of the DMA writes.
abbrev pub send_trans : ℕ → ℕ → ℕ → ℕ → ℕ → ℕ → ℕ → Trans
send_trans tgt_src tgt_dst size_d1_du inc_b src_type dst_type flags = record {
  src = tgt_src;
  dst = tgt_dst;
  src_addr = 0;
  inc_b = inc_b;
  size_d1_du = size_d1_du;
  size_d2_du = 0;
  dim = dim_1d;
  pad_top_du = 0;
  pad_bottom_du = 0;
  pad_left_du = 0;
  pad_right_du = 0;
  src_type = src_type;
  dst_type = dst_type;
  sign_ext = 0;
  mode = single;
  dim_inv = 0;
  win_du = 0;
  end_event = polling;
  flags = flags;
  channel = 0;
}

-- The flags that a validation leaves.
abbrev pub send_flags : ℕ → ℕ → ℕ → ℕ
send_flags ptr size flags =
    if is_critical flags
    then bit_or (bit_or flags 0) 0
    else (let moved = if ptr % 4 == 0 then 0 else 5 in
        if size == 0 then bit_or (bit_or moved 1) 0x200 else moved)

pub still_critical : (flags : ℕ) → is_critical (bit_or (bit_or flags 0) 0) ≡ is_critical flags
still_critical flags =
    ground (arith, is_critical-bit_or (bit_or flags 0) 0, is_critical-bit_or flags 0)

no_window : (size : ℕ) → ltb size 0 ≡ false
no_window size = ground arith

module _ (ptr fifo tgt_src tgt_dst size inc_b src_type dst_type flags : ℕ) where
  -- What a validation of the transaction leaves.
  abbrev pub Validated : Type 0
  Validated =
      (inc_b' : ℕ) × (src_type' : ℕ) × (dst_type' : ℕ) × (result_of (
          validate_trans (send_source ptr) (send_sink fifo) true true
            (send_trans tgt_src tgt_dst size inc_b src_type dst_type flags))
        ≡ send_trans tgt_src tgt_dst size inc_b' src_type' dst_type' (send_flags ptr size flags))

  moved_by :
      (left : ℕ)
      → get_misalignment_b ptr 0 ≡ left
      → (ptr % 4 == 0) ≡ (left == 0)
      → is_critical flags ≡ false
      → left ≤ 2
      → Validated
  unfolding validate_trans check_targets check_increments check_padding check_triggers check_mode
      check_integrity check_alignment check_sizes check_outbound check_window set_defaults
      validate_target environment_flags dst_outbound target_misalignment realign data_type_2_size
  moved_by zero mis whole clear small = elim (Bool-cases (size == 0)) [
    | inl none_left ↦ (0, 0, 0, rw (still_critical flags, clear, mis, whole, none_left) refl)
    | inr some_left ↦
        (0, 0, 0, rw (still_critical flags, clear, mis, whole, some_left, no_window size) refl)
  ]
  moved_by (suc zero) mis whole clear small = elim (Bool-cases (size == 0)) [
    | inl none_left ↦ (2, 0, 1, rw (still_critical flags, clear, mis, whole, none_left) refl)
    | inr some_left ↦
        (2, 0, 1, rw (still_critical flags, clear, mis, whole, some_left, no_window size) refl)
  ]
  moved_by (suc (suc zero)) mis whole clear small = elim (Bool-cases (size == 0)) [
    | inl none_left ↦ (1, 0, 2, rw (still_critical flags, clear, mis, whole, none_left) refl)
    | inr some_left ↦
        (1, 0, 2, rw (still_critical flags, clear, mis, whole, some_left, no_window size) refl)
  ]
  moved_by (suc (suc (suc left))) mis whole clear small = absurd (omega arith)

  pub validated : Validated
  unfolding validate_trans check_targets validate_target environment_flags
  validated = elim (Bool-cases (is_critical flags)) [
    | inl critical ↦ (inc_b, src_type, dst_type, rw (still_critical flags, critical) refl)
    | inr clear ↦
        moved_by (get_misalignment_b ptr 0) refl (ground (arith, misalignment_word ptr)) clear
          (ground (arith, misalignment_word ptr))
  ]
