-- ===== src/Bitfield/Fields.antt =====
-- The laws that make a field of a word a variable: a read returns what was last written, and a
-- write disturbs no other field.
use core_v_mini_mcu.Base.{
  ℕ, ◌+◌, ◌-◌, ◌*◌, ◌^◌, ◌≤◌, ◌<◌, ◌≡◌, true, false, arith, ltb, if◌then◌else◌, bit_and, shl32,
  test_bit, test_bit-bit_and, test_bit-shl, ◌⊎◌, one-le-pow, test_bit-shl32, test_bit_of_lt,
  test_bit_ext, test_bit-zero, Bool-cases, inl, inr, bit_and-lt, dec_lt,
}
use core_v_mini_mcu.Bitfield.{bitfield_read, bitfield_write}
use core_v_mini_mcu.Bitfield.Bits.{
  test_bit-bitfield_write, test_bit-bitfield_read, bitfield_write-lt, bitfield_read-lt,
}

-- A mask that stays within the word after the shift has its bits below 32 - index.
mask_overflow : (m i j : ℕ) → m * 2 ^ i < 2 ^ 32 → 32 ≤ i + j → test_bit m j ≡ false
mask_overflow m i j h over =
    let back : i + j - i ≡ j = omega arith in
    let high : test_bit (m * 2 ^ i) (i + j) ≡ false =
      test_bit_of_lt 32 (m * 2 ^ i) (i + j) h over in
    let shifted : (if ltb (i + j) i then false else test_bit m (i + j - i)) ≡ false =
      rw (test_bit-shl m i (i + j)) at high in
    ground (arith, rw back at shifted)

pub mask-fits : (m i j : ℕ) → m * 2 ^ i < 2 ^ 32 → test_bit m j ≡ true → i + j < 32
mask-fits m i j h t = elim (dec_lt (i + j) 32) [
  | yes below ↦ below
  | no over ↦ cc (mask_overflow m i j h (omega arith))
]

pub mask-lt : (m i : ℕ) → m * 2 ^ i < 2 ^ 32 → m < 2 ^ 32
mask-lt m i h = let one : 1 ≤ 2 ^ i = one-le-pow i 2 (omega arith) in grind arith

-- If the field fits the word, reading it just after writing it gives the value, cut to the mask.
pub bitfield_read-write :
    (b m i v : ℕ) → m * 2 ^ i < 2 ^ 32 → bitfield_read (bitfield_write b m i v) m i ≡ bit_and v m
bitfield_read-write b m i v fits =
    test_bit_ext 32 (bitfield_read (bitfield_write b m i v) m i) (bit_and v m)
      (bitfield_read-lt 32 (bitfield_write b m i v) m i (mask-lt m i fits))
      (bit_and-lt 32 v m (mask-lt m i fits)) (λ j hj. at_bit j (Bool-cases (test_bit m j)))
  where
    at_bit :
        (j : ℕ)
        → (test_bit m j ≡ true) ⊎ (test_bit m j ≡ false)
        → test_bit (bitfield_read (bitfield_write b m i v) m i) j ≡ test_bit (bit_and v m) j
    at_bit j (inl t) =
        let back : i + j - i ≡ j = omega arith in
        rw (test_bit-bitfield_read (bitfield_write b m i v) m i j) (
          rw (test_bit-bit_and v m j) (
            rw (test_bit-bitfield_write b m i v (i + j) (mask-fits m i j fits t))
              (rw back (ground arith))))
    at_bit j (inr f) =
        ground
          (arith, test_bit-bitfield_read (bitfield_write b m i v) m i j, test_bit-bit_and v m j)

apart_bit :
    (m i m' i' j : ℕ)
    → bit_and (shl32 m i) (shl32 m' i') ≡ 0
    → test_bit m' j ≡ true
    → i' + j < 32
    → (if ltb (i' + j) i then false else test_bit m (i' + j - i)) ≡ false
apart_bit m i m' i' j apart t below =
    let back : i' + j - i' ≡ j = omega arith in
    let both : test_bit (bit_and (shl32 m i) (shl32 m' i')) (i' + j) ≡ false =
      rw apart (test_bit-zero (i' + j)) in
    let theirs : test_bit (shl32 m' i') (i' + j) ≡ true =
      rw (test_bit-shl32 m' i' (i' + j)) (rw back (ground arith)) in
    ground (
      arith,
      both,
      theirs,
      test_bit-bit_and (shl32 m i) (shl32 m' i') (i' + j),
      test_bit-shl32 m i (i' + j),
    )

-- If the shifted masks of two fields share no bit, and the second field fits the word, a write of
-- the first one does not change what is read from the second.
pub bitfield_read-write_other :
    (b m i v m' i' : ℕ)
    → m' * 2 ^ i' < 2 ^ 32
    → bit_and (shl32 m i) (shl32 m' i') ≡ 0
    → bitfield_read (bitfield_write b m i v) m' i' ≡ bitfield_read b m' i'
bitfield_read-write_other b m i v m' i' fits apart =
    test_bit_ext 32 (bitfield_read (bitfield_write b m i v) m' i') (bitfield_read b m' i')
      (bitfield_read-lt 32 (bitfield_write b m i v) m' i' (mask-lt m' i' fits))
      (bitfield_read-lt 32 b m' i' (mask-lt m' i' fits))
      (λ j hj. at_bit j (Bool-cases (test_bit m' j)))
  where
    at_bit :
        (j : ℕ)
        → (test_bit m' j ≡ true) ⊎ (test_bit m' j ≡ false)
        → test_bit (bitfield_read (bitfield_write b m i v) m' i') j
          ≡ test_bit (bitfield_read b m' i') j
    at_bit j (inl t) = ground (
      arith,
      test_bit-bitfield_read (bitfield_write b m i v) m' i' j,
      test_bit-bitfield_read b m' i' j,
      test_bit-bitfield_write b m i v (i' + j) (mask-fits m' i' j fits t),
      apart_bit m i m' i' j apart t (mask-fits m' i' j fits t),
    )
    at_bit j (inr f) = ground (
      arith,
      test_bit-bitfield_read (bitfield_write b m i v) m' i' j,
      test_bit-bitfield_read b m' i' j,
    )

-- Of two writes of a field of a 32-bit word the last one counts.
pub bitfield_write-write :
    (b m i v v' : ℕ)
    → b < 2 ^ 32
    → bitfield_write (bitfield_write b m i v) m i v' ≡ bitfield_write b m i v'
bitfield_write-write b m i v v' hb =
    test_bit_ext 32 (bitfield_write (bitfield_write b m i v) m i v') (bitfield_write b m i v')
      (bitfield_write-lt (bitfield_write b m i v) m i v' (bitfield_write-lt b m i v hb))
      (bitfield_write-lt b m i v' hb)
      (λ j hj. ground (
        arith,
        test_bit-bitfield_write (bitfield_write b m i v) m i v' j hj,
        test_bit-bitfield_write b m i v j hj,
        test_bit-bitfield_write b m i v' j hj,
      ))

-- Writing back what was read from a field of a 32-bit word changes nothing.
pub bitfield_write-read : (b m i : ℕ) → b < 2 ^ 32 → bitfield_write b m i (bitfield_read b m i) ≡ b
bitfield_write-read b m i hb =
    test_bit_ext 32 (bitfield_write b m i (bitfield_read b m i)) b
      (bitfield_write-lt b m i (bitfield_read b m i) hb) hb (λ j hj. at_bit j hj (dec_lt j i))
  where
    at_bit :
        (j : ℕ)
        → j < 32
        → Dec (j < i)
        → test_bit (bitfield_write b m i (bitfield_read b m i)) j ≡ test_bit b j
    at_bit j hj (yes low) = ground (arith, test_bit-bitfield_write b m i (bitfield_read b m i) j hj)
    at_bit j hj (no high) =
        let back : i + (j - i) ≡ j = omega arith in
        ground (
          arith,
          test_bit-bitfield_write b m i (bitfield_read b m i) j hj,
          rw back at (test_bit-bitfield_read b m i (j - i)),
        )
