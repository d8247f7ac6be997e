-- ===== src/Base/Words.antt =====
-- Unsigned machine words: a w-bit value is a number below 2 ^ w, and what C cuts off is cut off.
use Prim.Native.Nat.{ℕ, zero, suc, ◌+◌, ◌-◌, ◌*◌, ◌/◌, ◌%◌, ◌^◌, ◌≤◌, ◌<◌, bit_and, bit_or}
use mathlib.Core.Path.{◌≡◌}
use mathlib.Core.Bool.{false, not, ◌&&◌}
use native.Mathlib.Nat.{pow-suc, mod-eq_of_lt}
use native.Mathlib.Omega.{arith}
use core_v_mini_mcu.Base.Tests.{ltb, if◌then◌else◌}
use core_v_mini_mcu.Base.Bits.{
  test_bit, bit_and-le, bit_or_step, test_bit-mod, test_bit-shl, test_bit-complement,
}

abbrev pub u8 : ℕ → ℕ
u8 n = n % 2 ^ 8

abbrev pub u16 : ℕ → ℕ
u16 n = n % 2 ^ 16

abbrev pub u32 : ℕ → ℕ
u32 n = n % 2 ^ 32

-- `x - y` of `uint32_t`. `-` on ℕ stops at 0, so the modulus is added first.
abbrev pub sub32 : ℕ → ℕ → ℕ
sub32 x y = (x + 2 ^ 32 - y) % 2 ^ 32

-- `x << k` of a `uint32_t`.
unfoldable pub shl32 : ℕ → ℕ → ℕ
shl32 x k = u32 (x * 2 ^ k)

-- `~x` of a `uint32_t`.
unfoldable pub not32 : ℕ → ℕ
not32 x = 2 ^ 32 - 1 - x

pub bit_and-lt : (w a b : ℕ) → b < 2 ^ w → bit_and a b < 2 ^ w
bit_and-lt w a b h = omega (arith, bit_and-le a b)

pub bit_or-lt : (w a b : ℕ) → a < 2 ^ w → b < 2 ^ w → bit_or a b < 2 ^ w
bit_or-lt zero a b h k =
    let za : a ≡ 0 = omega arith in let zb : b ≡ 0 = omega arith in rw (za, zb) (omega arith)
bit_or-lt (suc w) a b h k = omega (
  arith,
  bit_or_step a b,
  pow-suc 2 w,
  bit_or-lt w (a / 2) (b / 2) (omega (arith, pow-suc 2 w)) (omega (arith, pow-suc 2 w)),
)

pub shl32-lt : (x k : ℕ) → shl32 x k < 2 ^ 32
unfolding shl32
shl32-lt x k = omega arith

-- A number below 2 ^ w has no bit from w on.
pub test_bit_of_lt : (w x j : ℕ) → x < 2 ^ w → w ≤ j → test_bit x j ≡ false
test_bit_of_lt w x j h le =
    let same : x % 2 ^ w ≡ x = mod-eq_of_lt h in
    let cut : test_bit (x % 2 ^ w) j ≡ false = ground (arith, test_bit-mod x w j) in rw same at cut

pub test_bit-shl32 :
    (x k j : ℕ)
    → test_bit (shl32 x k) j ≡ (ltb j 32 && (if ltb j k then false else test_bit x (j - k)))
unfolding shl32
test_bit-shl32 x k j = rw (test_bit-mod (x * 2 ^ k) 32 j, test_bit-shl x k j)

pub test_bit-not32 : (x j : ℕ) → x < 2 ^ 32 → j < 32 → test_bit (not32 x) j ≡ not (test_bit x j)
unfolding not32
test_bit-not32 x j hx hj = test_bit-complement 32 x j hx hj
