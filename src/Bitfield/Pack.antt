-- ===== src/Bitfield/Pack.antt =====
-- A word that is built from fields upwards is the sum of its shifted fields.
use core_v_mini_mcu.Base.{
  ℕ, zero, suc, ◌+◌, ◌-◌, ◌*◌, ◌/◌, ◌%◌, ◌^◌, ◌<◌, ◌≡◌, arith, ltb, if◌then◌else◌, true, not,
  bit_and-ones, test_bit, test_bit-zero, test_bit-complement, test_bit_ext, test_bit_of_lt,
  one-le-pow, pow-suc, shl_once_more, dec_lt,
}
use core_v_mini_mcu.Bitfield.{bitfield_read, bitfield_write}
use core_v_mini_mcu.Bitfield.Bits.{test_bit-bitfield_write, bitfield_write-lt}

test_bit-ones : (k j : ℕ) → j < k → test_bit (2 ^ k - 1) j ≡ true
test_bit-ones k j h =
    let positive : 0 < 2 ^ k = one-le-pow k 2 (omega arith) in
    let same : 2 ^ k - 1 - 0 ≡ 2 ^ k - 1 = omega arith in
    let set : test_bit (2 ^ k - 1 - 0) j ≡ not (test_bit 0 j) =
      test_bit-complement k 0 j positive h in
    ground (arith, rw same at set, test_bit-zero j)

pub bitfield_read-ones : (b k i : ℕ) → bitfield_read b (2 ^ k - 1) i ≡ b / 2 ^ i % 2 ^ k
unfolding bitfield_read
bitfield_read-ones b k i = bit_and-ones k (b / 2 ^ i)

test_bit-join :
    (i b v j : ℕ)
    → b < 2 ^ i
    → test_bit (b + v * 2 ^ i) j ≡ (if ltb j i then test_bit b j else test_bit v (j - i))
test_bit-join zero b v j h =
    let none_below : b + v * 2 ^ 0 ≡ v = omega arith in
    let same : j - 0 ≡ j = omega arith in rw (none_below, same) (ground arith)
test_bit-join (suc i) b v zero h = ground (arith, shl_once_more v i)
test_bit-join (suc i) b v (suc j) h =
    let half : (b + v * 2 ^ suc i) / 2 ≡ b / 2 + v * 2 ^ i = omega (arith, shl_once_more v i) in
    let same : suc j - suc i ≡ j - i = omega arith in
    rw (half, same) (ground (arith, test_bit-join i (b / 2) v j (omega (arith, pow-suc 2 i))))

-- A field is written above all bits that are in use.
pub bitfield_write-above :
    (b k i v : ℕ)
    → b < 2 ^ i
    → v < 2 ^ k
    → v * 2 ^ i + b < 2 ^ 32
    → b < 2 ^ 32
    → bitfield_write b (2 ^ k - 1) i v ≡ b + v * 2 ^ i
bitfield_write-above b k i v low narrow fits word =
    test_bit_ext 32 (bitfield_write b (2 ^ k - 1) i v) (b + v * 2 ^ i)
      (bitfield_write-lt b (2 ^ k - 1) i v word) (omega arith)
      (λ j h. at_bit j h (dec_lt j i) (dec_lt (j - i) k))
  where
    at_bit :
        (j : ℕ)
        → j < 32
        → Dec (j < i)
        → Dec (j - i < k)
        → test_bit (bitfield_write b (2 ^ k - 1) i v) j ≡ test_bit (b + v * 2 ^ i) j
    at_bit j h (yes below) within =
        ground (arith, test_bit-bitfield_write b (2 ^ k - 1) i v j h, test_bit-join i b v j low)
    at_bit j h (no above) (yes within) = ground (
      arith,
      test_bit-bitfield_write b (2 ^ k - 1) i v j h,
      test_bit-join i b v j low,
      test_bit-ones k (j - i) within,
    )
    at_bit j h (no above) (no past) = ground (
      arith,
      test_bit-bitfield_write b (2 ^ k - 1) i v j h,
      test_bit-join i b v j low,
      test_bit_of_lt k v (j - i) narrow (omega arith),
      test_bit_of_lt k (2 ^ k - 1) (j - i) (omega (arith, one-le-pow k 2)) (omega arith),
      test_bit_of_lt i b j low (omega arith),
    )
