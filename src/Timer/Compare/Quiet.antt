-- ===== src/Timer/Compare/Quiet.antt =====
-- While a comparator is armed, it does not fall below both its old and its new value.
use core_v_mini_mcu.Base.{
  ℕ, refl, ◌+◌, ◌*◌, ◌/◌, ◌^◌, ◌<◌, ◌≡◌, arith, u32, true, false, ◌==◌, List, [], ◌∷◌,
}
use core_v_mini_mcu.Mmio.{Region, mmio_region_read32, mmio_region_write32, uint32_max}
use core_v_mini_mcu.Timer.Compare.{
  Config, lower_reg, upper_reg, reg_for_hart, perform, arm_writes, rv_timer_arm, ok, no_comparator,
}

-- The 64 bits that are compared with the counter.
abbrev pub compare_value : Region → ℕ → ℕ → ℕ
compare_value r hart_id comp_id =
    mmio_region_read32 r (upper_reg hart_id comp_id) * 2 ^ 32
    + mmio_region_read32 r (lower_reg hart_id comp_id)

-- `P` holds before the writes and after each.
pub data Throughout (P : Region → Type 0) : List (ℕ × ℕ) → Region → Type 0 where
  at_end : {r : Region} → P r → Throughout P [] r
  before :
      {r : Region} (offset value : ℕ) {writes : List (ℕ × ℕ)}
      → P r
      → Throughout P writes (mmio_region_write32 r offset value)
      → Throughout P ((offset, value) ∷ writes) r

halves_differ :
    (hart_id comp_id : ℕ) → (lower_reg hart_id comp_id / 4 == upper_reg hart_id comp_id / 4) ≡ false
unfolding lower_reg upper_reg reg_for_hart
halves_differ hart_id comp_id = ground arith

halves_differ' :
    (hart_id comp_id : ℕ) → (upper_reg hart_id comp_id / 4 == lower_reg hart_id comp_id / 4) ≡ false
unfolding lower_reg upper_reg reg_for_hart
halves_differ' hart_id comp_id = ground arith

same : (i : ℕ) → (i == i) ≡ true
same i = ground arith

read-write :
    (r : Region) (offset value : ℕ)
    → mmio_region_read32 (mmio_region_write32 r offset value) offset ≡ value
read-write r offset value = rw (same (offset / 4)) refl

-- The region after each of the writes of both halves, whichever is written.
module _ (r : Region) (hart_id comp_id value : ℕ) where
  upper_written :
      compare_value (mmio_region_write32 r (upper_reg hart_id comp_id) value) hart_id comp_id
      ≡ value * 2 ^ 32 + mmio_region_read32 r (lower_reg hart_id comp_id)
  upper_written = rw (same (upper_reg hart_id comp_id / 4), halves_differ hart_id comp_id) refl

  lower_written :
      compare_value (mmio_region_write32 r (lower_reg hart_id comp_id) value) hart_id comp_id
      ≡ mmio_region_read32 r (upper_reg hart_id comp_id) * 2 ^ 32 + value
  lower_written = rw (same (lower_reg hart_id comp_id / 4), halves_differ' hart_id comp_id) refl

-- For a comparator there is: a counter below its old value and below the threshold stays below it
-- before, between and after the writes, and in the end the threshold is what it holds.
pub rv_timer_arm-quiet :
    (r : Region) (config : Config) (hart_id comp_id threshold counter : ℕ)
    → no_comparator true config hart_id comp_id ≡ false
    → threshold < 2 ^ 64
    → counter < compare_value r hart_id comp_id
    → counter < threshold
    → mmio_region_read32 r (upper_reg hart_id comp_id) < 2 ^ 32
    → let after = perform (arm_writes hart_id comp_id threshold) r in
      (rv_timer_arm r true config hart_id comp_id threshold ≡ (after, ok))
      × (compare_value after hart_id comp_id ≡ threshold)
      × Throughout
          (λ s. counter < compare_value s hart_id comp_id)
          (arm_writes hart_id comp_id threshold)
          r
unfolding arm_writes rv_timer_arm
rv_timer_arm-quiet r config hart_id comp_id threshold counter there word old new half =
    let raised = mmio_region_write32 r (upper_reg hart_id comp_id) uint32_max in
    let lowered = mmio_region_write32 raised (lower_reg hart_id comp_id) (u32 threshold) in
    let set = mmio_region_write32 lowered (upper_reg hart_id comp_id) (u32 (threshold / 2 ^ 32)) in
    let first = upper_written r hart_id comp_id uint32_max in
    let highest = read-write r (upper_reg hart_id comp_id) uint32_max in
    let second = lower_written raised hart_id comp_id (u32 threshold) in
    let low = read-write raised (lower_reg hart_id comp_id) (u32 threshold) in
    let third = upper_written lowered hart_id comp_id (u32 (threshold / 2 ^ 32)) in
    let final : compare_value set hart_id comp_id ≡ threshold = omega (arith, third, low, word) in
    let above1 : counter < compare_value raised hart_id comp_id = omega (arith, first, old, half) in
    let above2 : counter < compare_value lowered hart_id comp_id =
      omega (arith, second, highest, new, word) in
    let above3 : counter < compare_value set hart_id comp_id = omega (arith, final, new) in
    (
      rw there refl,
      final,
      before (upper_reg hart_id comp_id) uint32_max old (
          before (lower_reg hart_id comp_id) (u32 threshold) above1
            (before (upper_reg hart_id comp_id) (u32 (threshold / 2 ^ 32)) above2 (at_end above3))),
    )
