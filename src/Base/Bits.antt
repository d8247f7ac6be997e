-- ===== src/Base/Bits.antt =====
-- Bits of a number, and what the operations of C's unsigned words do to each of them.
use Prim.Native.Nat.{
  ℕ, zero, suc, ◌+◌, ◌-◌, ◌*◌, ◌/◌, ◌%◌, ◌^◌, ◌≤◌, ◌<◌, min, max, bit_and, bit_or, digits, bitwise,
  bit_and-bitwise, bit_or-bitwise,
}
use mathlib.Core.Path.{◌≡◌, refl, ap, ◌∙◌}
use mathlib.Core.Bool.{Bool, false, not, ◌&&◌, ◌||◌}
use native.Mathlib.Nat.{le_refl, pow-suc, div-add-mod', div-div-eq-div-mul}
use native.Mathlib.Omega.{arith}
use core_v_mini_mcu.Base.Tests.{ltb, ◌==◌, if◌then◌else◌}

-- Bit `j` of `x`.
abbrev pub test_bit : ℕ → ℕ → Bool
test_bit x zero = x % 2 == 1
test_bit x (suc j) = test_bit (x / 2) j

-- A unit of fuel more than the number needs changes nothing.
one_spare :
    (last : ℕ → ℕ) (digit : ℕ → ℕ → ℕ) (fuel x y : ℕ)
    → x ≤ fuel
    → digits last digit (suc fuel) x y ≡ digits last digit fuel x y
one_spare last digit zero zero y enough = refl
one_spare last digit (suc fuel) zero y enough = refl
one_spare last digit zero (suc x) y enough = absurd (omega arith)
one_spare last digit (suc fuel) (suc x) y enough =
    ap (λ (high : ℕ). high * 2 + digit (suc x % 2) (y % 2))
      (one_spare last digit fuel (suc x / 2) (y / 2) (omega arith))

spare :
    (last : ℕ → ℕ) (digit : ℕ → ℕ → ℕ) (extra x y : ℕ)
    → digits last digit (extra + x) x y ≡ digits last digit x x y
spare last digit zero x y =
    let none_extra : 0 + x ≡ x = omega arith in
    ap (λ (fuel : ℕ). digits last digit fuel x y) none_extra
spare last digit (suc extra) x y =
    let one_more : suc extra + x ≡ suc (extra + x) = omega arith in
    ap (λ (fuel : ℕ). digits last digit fuel x y) one_more
    ∙ one_spare last digit (extra + x) x y (omega arith)
    ∙ spare last digit extra x y

-- The lowest digit of a digit-wise operation, where the operation on 0 obeys the same law.
lowest_digit :
    (last : ℕ → ℕ) (digit : ℕ → ℕ → ℕ)
    → ((y : ℕ) → last y ≡ last (y / 2) * 2 + digit 0 (y % 2))
    → (x y : ℕ)
    → bitwise last digit x y ≡ bitwise last digit (x / 2) (y / 2) * 2 + digit (x % 2) (y % 2)
lowest_digit last digit on_zero zero y = on_zero y
lowest_digit last digit on_zero (suc x) y =
    let rest = x - suc x / 2 in
    let fuel : rest + suc x / 2 ≡ x = omega arith in
    let shorter : digits last digit x (suc x / 2) (y / 2) ≡ bitwise last digit (suc x / 2) (y / 2) =
      rw fuel at (spare last digit rest (suc x / 2) (y / 2)) in
    ap (λ (high : ℕ). high * 2 + digit (suc x % 2) (y % 2)) shorter

pub bit_and_step : (a b : ℕ) → bit_and a b ≡ bit_and (a / 2) (b / 2) * 2 + min (a % 2) (b % 2)
bit_and_step a b = simp bit_and-bitwise (lowest_digit (λ y. 0) min (λ y. omega arith) a b)

pub bit_or_step : (a b : ℕ) → bit_or a b ≡ bit_or (a / 2) (b / 2) * 2 + max (a % 2) (b % 2)
bit_or_step a b = simp bit_or-bitwise (lowest_digit (λ y. y) max (λ y. omega arith) a b)

pub test_bit-bit_and : (a b j : ℕ) → test_bit (bit_and a b) j ≡ (test_bit a j && test_bit b j)
test_bit-bit_and a b zero = ground (arith, bit_and_step a b)
test_bit-bit_and a b (suc j) =
    let half : bit_and a b / 2 ≡ bit_and (a / 2) (b / 2) = omega (arith, bit_and_step a b) in
    rw half (test_bit-bit_and (a / 2) (b / 2) j)

pub test_bit-bit_or : (a b j : ℕ) → test_bit (bit_or a b) j ≡ (test_bit a j || test_bit b j)
test_bit-bit_or a b zero = ground (arith, bit_or_step a b)
test_bit-bit_or a b (suc j) =
    let half : bit_or a b / 2 ≡ bit_or (a / 2) (b / 2) = omega (arith, bit_or_step a b) in
    rw half (test_bit-bit_or (a / 2) (b / 2) j)

-- Shifts by one more bit.
pub shl_once_more : (x places : ℕ) → 2 * (x * 2 ^ places) ≡ x * 2 ^ suc places
shl_once_more x places =
    let next : 2 ^ suc places ≡ 2 * 2 ^ places = omega (arith, pow-suc 2 places) in
    omega (arith, ap (λ (power : ℕ). x * power) next)

pub shr_once_more : (a k : ℕ) → a / 2 ^ suc k ≡ a / 2 / 2 ^ k
shr_once_more a k =
    rw (div-div-eq-div-mul a 2 (2 ^ k)) (ap (λ (t : ℕ). a / t) (omega (arith, pow-suc 2 k)))

pub low_bits_split : (a w : ℕ) → a % 2 ^ suc w ≡ 2 * (a / 2 % 2 ^ w) + a % 2
low_bits_split a w = omega (
  arith,
  div-add-mod' a (2 ^ suc w),
  div-add-mod' (a / 2) (2 ^ w),
  shr_once_more a w,
  ap (λ (t : ℕ). t * 2 ^ suc w) (shr_once_more a w),
  shl_once_more (a / 2 / 2 ^ w) w,
)

pub test_bit-shl :
    (a k j : ℕ) → test_bit (a * 2 ^ k) j ≡ (if ltb j k then false else test_bit a (j - k))
test_bit-shl a zero j =
    let one : a * 2 ^ 0 ≡ a = omega arith in
    let same : j - 0 ≡ j = omega arith in rw (one, same) (ground arith)
test_bit-shl a (suc k) zero = ground (arith, shl_once_more a k)
test_bit-shl a (suc k) (suc j) =
    let half : a * 2 ^ suc k / 2 ≡ a * 2 ^ k = omega (arith, shl_once_more a k) in
    let same : suc j - suc k ≡ j - k = omega arith in
    rw (half, same) (ground (arith, test_bit-shl a k j))

pub test_bit-shr : (a k j : ℕ) → test_bit (a / 2 ^ k) j ≡ test_bit a (k + j)
test_bit-shr a zero j =
    let one : a / 2 ^ 0 ≡ a = omega arith in let same : 0 + j ≡ j = omega arith in rw (one, same)
test_bit-shr a (suc k) j =
    let next : suc k + j ≡ suc (k + j) = omega arith in
    rw (shr_once_more a k, next) (test_bit-shr (a / 2) k j)

pub test_bit-zero : (j : ℕ) → test_bit 0 j ≡ false
test_bit-zero zero = refl
test_bit-zero (suc j) = test_bit-zero j

pub test_bit-mod : (a w j : ℕ) → test_bit (a % 2 ^ w) j ≡ (ltb j w && test_bit a j)
test_bit-mod a zero j =
    let none_left : a % 1 ≡ 0 = omega arith in rw none_left (ground (arith, test_bit-zero j))
test_bit-mod a (suc w) zero = ground (arith, low_bits_split a w)
test_bit-mod a (suc w) (suc j) =
    let half : a % 2 ^ suc w / 2 ≡ a / 2 % 2 ^ w = omega (arith, low_bits_split a w) in
    rw half (ground (arith, test_bit-mod (a / 2) w j))

pub test_bit-complement :
    (w a j : ℕ) → a < 2 ^ w → j < w → test_bit (2 ^ w - 1 - a) j ≡ not (test_bit a j)
test_bit-complement zero a j ha hj = absurd (omega arith)
test_bit-complement (suc w) a zero ha hj = ground (arith, pow-suc 2 w)
test_bit-complement (suc w) a (suc j) ha hj =
    let half : (2 ^ suc w - 1 - a) / 2 ≡ 2 ^ w - 1 - a / 2 = omega (arith, pow-suc 2 w) in
    rw half (test_bit-complement w (a / 2) j (omega (arith, pow-suc 2 w)) (omega arith))

-- Two w-bit words with the same bits are equal.
pub test_bit_ext :
    (w x y : ℕ) → x < 2 ^ w → y < 2 ^ w → ((j : ℕ) → j < w → test_bit x j ≡ test_bit y j) → x ≡ y
test_bit_ext zero x y hx hy h = omega arith
test_bit_ext (suc w) x y hx hy h =
    let lowest : x % 2 ≡ y % 2 = ground (arith, h 0 (omega arith)) in
    let rest : x / 2 ≡ y / 2 =
      test_bit_ext w (x / 2) (y / 2) (omega (arith, pow-suc 2 w)) (omega (arith, pow-suc 2 w))
        (λ j hj. h (suc j) (omega arith)) in
    omega (arith, lowest, rest)

pub zero-bit_and : (b : ℕ) → bit_and 0 b ≡ 0
zero-bit_and b = bit_and-bitwise 0 b

bit_and-le_fuel : (n a b : ℕ) → a ≤ n → (bit_and a b ≤ a) × (bit_and a b ≤ b)
bit_and-le_fuel n zero b h = omega (arith, zero-bit_and b)
bit_and-le_fuel zero (suc a) b h = absurd (omega arith)
bit_and-le_fuel (suc n) (suc a) b h =
    omega (arith, bit_and_step (suc a) b, bit_and-le_fuel n (suc a / 2) (b / 2) (omega arith))

-- A conjunction exceeds neither side.
pub bit_and-le : (a b : ℕ) → (bit_and a b ≤ a) × (bit_and a b ≤ b)
bit_and-le a b = bit_and-le_fuel a a b (le_refl a)

pub bit_and-zero : (a : ℕ) → bit_and a 0 ≡ 0
bit_and-zero a = omega (arith, bit_and-le a 0)

pub bit_and-one : (a : ℕ) → bit_and a 1 ≡ a % 2
bit_and-one a = omega (arith, bit_and_step a 1, bit_and-zero (a / 2))

pub bit_and-three : (a : ℕ) → bit_and a 3 ≡ a % 4
bit_and-three a = omega (arith, bit_and_step a 3, bit_and-one (a / 2))

-- A conjunction with one bit tells whether the bit is set.
pub bit_and-two_pow : (k a : ℕ) → bit_and a (2 ^ k) ≡ (if test_bit a k then 2 ^ k else 0)
bit_and-two_pow zero a = ground (arith, bit_and-one a)
bit_and-two_pow (suc k) a =
    let half : 2 ^ suc k / 2 ≡ 2 ^ k = omega (arith, pow-suc 2 k) in
    let even : 2 ^ suc k % 2 ≡ 0 = omega (arith, pow-suc 2 k) in
    ground (
      arith,
      bit_and_step a (2 ^ suc k),
      pow-suc 2 k,
      even,
      rw (← half) at (bit_and-two_pow k (a / 2)),
    )
