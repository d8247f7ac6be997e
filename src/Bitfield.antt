-- ===== src/Bitfield.antt =====
-- sw/device/lib/base/bitfield.h: reading and writing the fields of a 32-bit word. A shift by 32
-- or more is undefined in C, so every index is below 32 where a theorem is about it.
-- The functions over compiler builtins (find first set, leading zeroes, ...) are not modelled.
pub mod Bits
pub mod Fields
pub mod OneBit
pub mod Pack
use core_v_mini_mcu.Base.{ℕ, ◌/◌, ◌^◌, bit_and, bit_or, shl32, not32, Bool, ◌==◌, if◌then◌else◌}

-- `bitfield_field32_t`
pub record Field : Type 0 where
  pub mask : ℕ
  pub index : ℕ

unfoldable pub bitfield_field32_read : ℕ → Field → ℕ
bitfield_field32_read bitfield field = bit_and (bitfield / 2 ^ field.index) field.mask

unfoldable pub bitfield_field32_write : ℕ → Field → ℕ → ℕ
bitfield_field32_write bitfield field value =
    bit_or (bit_and bitfield (not32 (shl32 field.mask field.index)))
      (shl32 (bit_and value field.mask) field.index)

unfoldable pub bitfield_bit32_to_field32 : ℕ → Field
bitfield_bit32_to_field32 bit_index = record { mask = 1; index = bit_index }

unfoldable pub bitfield_bit32_read : ℕ → ℕ → Bool
unfolding bitfield_field32_read bitfield_bit32_to_field32
bitfield_bit32_read bitfield bit_index =
    bitfield_field32_read bitfield (bitfield_bit32_to_field32 bit_index) == 1

unfoldable pub bitfield_bit32_write : ℕ → ℕ → Bool → ℕ
unfolding bitfield_field32_write bitfield_bit32_to_field32
bitfield_bit32_write bitfield bit_index value =
    bitfield_field32_write bitfield (bitfield_bit32_to_field32 bit_index) (if value then 1 else 0)

unfoldable pub bitfield_read : ℕ → ℕ → ℕ → ℕ
bitfield_read bitfield mask index = bit_and (bitfield / 2 ^ index) mask

unfoldable pub bitfield_write : ℕ → ℕ → ℕ → ℕ → ℕ
bitfield_write bitfield mask index value =
    bit_or (bit_and bitfield (not32 (shl32 mask index))) (shl32 (bit_and value mask) index)
