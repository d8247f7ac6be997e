-- ===== src/Mmio/Laws.antt =====
-- The bits of a register after it is set or cleared in place.
use core_v_mini_mcu.Base.{
  ℕ, zero, suc, ◌-◌, ◌<◌, ◌≡◌, ◌≢◌, refl, eq→==, ne→==, Bool, true, false, arith, ◌==◌,
  if◌then◌else◌, test_bit, test_bit-zero,
}
use core_v_mini_mcu.Bitfield.{Field, bitfield_field32_write, bitfield_bit32_write, bitfield_write}
use core_v_mini_mcu.Bitfield.Bits.{test_bit-bitfield_write}
use core_v_mini_mcu.Mmio.{update}

-- The two spellings of a field write agree.
pub bitfield_field32_write-eq :
    (b : ℕ) (f : Field) (v : ℕ) → bitfield_field32_write b f v ≡ bitfield_write b f.mask f.index v
unfolding bitfield_field32_write bitfield_write
bitfield_field32_write-eq b f v = refl

bitfield_bit32_write-eq :
    (b i : ℕ) (v : Bool) → bitfield_bit32_write b i v ≡ bitfield_write b 1 i (if v then 1 else 0)
unfolding bitfield_bit32_write bitfield_write
bitfield_bit32_write-eq b i v = refl

test_bit-one : (j : ℕ) → test_bit 1 j ≡ (j == 0)
test_bit-one zero = refl
test_bit-one (suc j) = ground (arith, test_bit-zero j)

-- Of the 32 bits of a word, a one-bit write changes the named one to the given value and no other.
pub test_bit-bitfield_bit32_write :
    (b i : ℕ) (v : Bool) (j : ℕ)
    → j < 32
    → test_bit (bitfield_bit32_write b i v) j ≡ (if j == i then v else test_bit b j)
test_bit-bitfield_bit32_write b i true j h =
    rw (bitfield_bit32_write-eq b i true)
      (ground (arith, test_bit-bitfield_write b 1 i 1 j h, test_bit-one (j - i)))
test_bit-bitfield_bit32_write b i false j h = rw (bitfield_bit32_write-eq b i false) (
    ground
      (arith, test_bit-bitfield_write b 1 i 0 j h, test_bit-one (j - i), test_bit-zero (j - i)))

pub update_self {ℓ} : {A : Type ℓ} (f : ℕ → A) (i : ℕ) (v : A) → update f i v i ≡ v
update_self f i v = rw (eq→== i i refl)

pub update-other {ℓ} :
    {A : Type ℓ} (f : ℕ → A) (i : ℕ) (v : A) (j : ℕ) → j ≢ i → update f i v j ≡ f j
update-other f i v j h = rw (ne→== j i h)
