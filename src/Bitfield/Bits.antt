-- ===== src/Bitfield/Bits.antt =====
-- What `bitfield_write` and `bitfield_read` do to each bit, for every mask.
use core_v_mini_mcu.Base.{
  ℕ, ◌+◌, ◌-◌, ◌/◌, ◌^◌, ◌<◌, ◌≡◌, ◌&&◌, arith, ltb, if◌then◌else◌, bit_and, shl32, not32, test_bit,
  test_bit-bit_and, test_bit-bit_or, test_bit-shl32, test_bit-not32, test_bit-shr, shl32-lt,
  bit_or-lt, bit_and-lt, bit_and-le,
}
use core_v_mini_mcu.Bitfield.{bitfield_read, bitfield_write}

-- Of the 32 bits of a written word, those within the shifted mask are the value's and all others
-- are the old word's.
pub test_bit-bitfield_write :
    (b m i v j : ℕ)
    → j < 32
    → test_bit (bitfield_write b m i v) j ≡ (
        if ltb j i
        then test_bit b j
        else if test_bit m (j - i)
        then test_bit v (j - i)
        else test_bit b j)
unfolding bitfield_write
test_bit-bitfield_write b m i v j h = ground (
  arith,
  test_bit-bit_or (bit_and b (not32 (shl32 m i))) (shl32 (bit_and v m) i) j,
  test_bit-bit_and b (not32 (shl32 m i)) j,
  test_bit-not32 (shl32 m i) j (shl32-lt m i) h,
  test_bit-shl32 m i j,
  test_bit-shl32 (bit_and v m) i j,
  test_bit-bit_and v m (j - i),
)

pub test_bit-bitfield_read :
    (b m i j : ℕ) → test_bit (bitfield_read b m i) j ≡ (test_bit b (i + j) && test_bit m j)
unfolding bitfield_read
test_bit-bitfield_read b m i j =
    ground (arith, test_bit-bit_and (b / 2 ^ i) m j, test_bit-shr b i j)

pub bitfield_write-lt : (b m i v : ℕ) → b < 2 ^ 32 → bitfield_write b m i v < 2 ^ 32
unfolding bitfield_write
bitfield_write-lt b m i v h =
    bit_or-lt 32 (bit_and b (not32 (shl32 m i))) (shl32 (bit_and v m) i)
      (omega (arith, bit_and-le b (not32 (shl32 m i)))) (shl32-lt (bit_and v m) i)

pub bitfield_read-lt : (w b m i : ℕ) → m < 2 ^ w → bitfield_read b m i < 2 ^ w
unfolding bitfield_read
bitfield_read-lt w b m i h = bit_and-lt w (b / 2 ^ i) m h
