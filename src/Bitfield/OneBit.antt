-- ===== src/Bitfield/OneBit.antt =====
-- A one-bit field, as the drivers read and write it.
use core_v_mini_mcu.Base.{
  ℕ, zero, suc, ◌+◌, ◌-◌, ◌/◌, ◌^◌, ◌<◌, ◌≤◌, ◌≡◌, refl, arith, ◌==◌, if◌then◌else◌, test_bit,
  bit_and-one, test_bit-shr, test_bit-zero,
}
use core_v_mini_mcu.Bitfield.{bitfield_read, bitfield_write}
use core_v_mini_mcu.Bitfield.Bits.{test_bit-bitfield_write}

-- A read of one bit is the bit.
read_bit-eq : (b i : ℕ) → bitfield_read b 1 i ≡ (if test_bit b i then 1 else 0)
unfolding bitfield_read
read_bit-eq b i =
    let same : i + 0 ≡ i = omega arith in
    let low : test_bit (b / 2 ^ i) 0 ≡ test_bit b i = rw same at (test_bit-shr b i 0) in
    ground (arith, bit_and-one (b / 2 ^ i), low)

pub read_bit-zero : (i : ℕ) → bitfield_read 0 1 i ≡ 0
read_bit-zero i = rw (read_bit-eq 0 i, test_bit-zero i)

test_bit-one : (j : ℕ) → test_bit 1 j ≡ (j == 0)
test_bit-one zero = refl
test_bit-one (suc j) = ground (arith, test_bit-zero j)

-- A one-bit write followed by a one-bit read.
pub read_bit-write :
    (b i j v : ℕ)
    → j < 32
    → v ≤ 1
    → bitfield_read (bitfield_write b 1 i v) 1 j ≡ (if j == i then v else bitfield_read b 1 j)
read_bit-write b i j zero hj hv =
    rw (read_bit-eq (bitfield_write b 1 i 0) j, read_bit-eq b j)
      (ground
        (arith, test_bit-bitfield_write b 1 i 0 j hj, test_bit-one (j - i), test_bit-zero (j - i)))
read_bit-write b i j (suc zero) hj hv =
    rw (read_bit-eq (bitfield_write b 1 i 1) j, read_bit-eq b j)
      (ground (arith, test_bit-bitfield_write b 1 i 1 j hj, test_bit-one (j - i)))
read_bit-write b i j (suc (suc v)) hj hv = absurd (omega arith)
