-- ===== src/Base/Masks.antt =====
-- Conjunctions with a mask of neighbouring bits.
use Prim.Native.Nat.{ℕ, zero, suc, ◌-◌, ◌*◌, ◌/◌, ◌%◌, ◌^◌, ◌≤◌, bit_and}
use mathlib.Core.Path.{◌≡◌, ap}
use native.Mathlib.Nat.{pow-suc, one-le-pow}
use native.Mathlib.Omega.{arith}
use core_v_mini_mcu.Base.Bits.{
  bit_and_step, bit_and-zero, zero-bit_and, low_bits_split, shr_once_more, shl_once_more,
}

-- The lowest bits, with the mask on either side.
pub bit_and-ones : (k a : ℕ) → bit_and a (2 ^ k - 1) ≡ a % 2 ^ k
bit_and-ones zero a = omega (arith, bit_and-zero a)
bit_and-ones (suc k) a =
    let some_power : 1 ≤ 2 ^ k = one-le-pow k 2 (omega arith) in
    let half : (2 ^ suc k - 1) / 2 ≡ 2 ^ k - 1 = omega (arith, pow-suc 2 k) in
    let odd : (2 ^ suc k - 1) % 2 ≡ 1 = omega (arith, pow-suc 2 k) in
    omega (
      arith,
      bit_and_step a (2 ^ suc k - 1),
      ap (bit_and (a / 2)) half,
      odd,
      bit_and-ones k (a / 2),
      low_bits_split a k,
    )

pub ones-bit_and : (k a : ℕ) → bit_and (2 ^ k - 1) a ≡ a % 2 ^ k
ones-bit_and zero a = omega (arith, zero-bit_and a)
ones-bit_and (suc k) a =
    let some_power : 1 ≤ 2 ^ k = one-le-pow k 2 (omega arith) in
    let half : (2 ^ suc k - 1) / 2 ≡ 2 ^ k - 1 = omega (arith, pow-suc 2 k) in
    let odd : (2 ^ suc k - 1) % 2 ≡ 1 = omega (arith, pow-suc 2 k) in
    omega (
      arith,
      bit_and_step (2 ^ suc k - 1) a,
      ap (λ (x : ℕ). bit_and x (a / 2)) half,
      odd,
      ones-bit_and k (a / 2),
      low_bits_split a k,
    )

-- A mask whose lowest bits are zero.
pub bit_and-shifted : (k a m : ℕ) → bit_and a (m * 2 ^ k) ≡ bit_and (a / 2 ^ k) m * 2 ^ k
bit_and-shifted zero a m =
    let same : a / 2 ^ 0 ≡ a = omega arith in
    let mask : m * 2 ^ 0 ≡ m = omega arith in rw (same, mask) (omega arith)
bit_and-shifted (suc k) a m =
    let half : m * 2 ^ suc k / 2 ≡ m * 2 ^ k = omega (arith, shl_once_more m k) in
    let even : m * 2 ^ suc k % 2 ≡ 0 = omega (arith, shl_once_more m k) in
    omega (
      arith,
      bit_and_step a (m * 2 ^ suc k),
      ap (bit_and (a / 2)) half,
      even,
      bit_and-shifted k (a / 2) m,
      ap (λ (x : ℕ). bit_and x m * 2 ^ suc k) (shr_once_more a k),
      shl_once_more (bit_and (a / 2 / 2 ^ k) m) k,
    )
