-- ===== src/Dma/Target/Bounds.antt =====
-- The regions that the bound checks accept.
use core_v_mini_mcu.Base.{
  ℕ, ◌+◌, ◌-◌, ◌*◌, ◌^◌, ◌≤◌, ◌<◌, ◌≡◌, ◌↔◌, false, arith, ltb, zero, suc, u32, sub32, tests,
  ltb→le, le→ltb,
}
use core_v_mini_mcu.Dma.Types.{data_type_2_size}
use core_v_mini_mcu.Dma.Target.{is_region_outbound_1d, is_region_outbound_2d}

-- The address of the last byte of data unit `i` of a row.
abbrev pub last_byte : ℕ → ℕ → ℕ → ℕ → ℕ
last_byte start type inc i = start + data_type_2_size type * (i * inc + 1) - 1

size_pos : (type : ℕ) → type ≤ 2 → (0 < data_type_2_size type) × (data_type_2_size type ≤ 4)
unfolding data_type_2_size
size_pos zero t = omega arith
size_pos (suc zero) t = omega arith
size_pos (suc (suc zero)) t = omega arith
size_pos (suc (suc (suc n))) t = absurd (omega arith)

-- Where the mathematical sum fits in 32 bits, the wrapping arithmetic computes it.
outbound_exact :
    (start end d p : ℕ)
    → 0 < d
    → start + d * (p + 1) < 2 ^ 32
    → sub32 (u32 (start + u32 (d * u32 (u32 p + 1)))) 1 ≡ start + d * (p + 1) - 1
outbound_exact start end d p h fits =
    let wide : p + 1 ≤ d * (p + 1) = grind arith in
    let small : u32 (u32 p + 1) ≡ p + 1 = omega arith in rw small (omega arith)

pub is_region_outbound_1d-eq :
    (start end type size inc : ℕ)
    → 0 < size
    → size < 2 ^ 32
    → type ≤ 2
    → start + data_type_2_size type * ((size - 1) * inc + 1) < 2 ^ 32
    → is_region_outbound_1d start end type size inc ≡ ltb end (last_byte start type inc (size - 1))
unfolding is_region_outbound_1d
is_region_outbound_1d-eq start end type size inc h w t fits =
    let less : sub32 size 1 ≡ size - 1 = omega arith in
    rw less (
      rw (
        outbound_exact start end (data_type_2_size type) ((size - 1) * inc) (size_pos type t).0
          fits))

last_byte_mono :
    (start type inc i n : ℕ) → i ≤ n → last_byte start type inc i ≤ last_byte start type inc n
last_byte_mono start type inc i n h =
    let steps : i * inc ≤ n * inc = grind arith in
    let bytes : data_type_2_size type * (i * inc + 1) ≤ data_type_2_size type * (n * inc + 1) =
      grind arith in
    omega arith

-- For a positive size of 32 bits and one of the three data types, where the region fits the address
-- space, the check passes exactly when the last byte of every data unit is at most the end.
pub is_region_outbound_1d_iff :
    (start end type size inc : ℕ)
    → 0 < size
    → size < 2 ^ 32
    → type ≤ 2
    → start + data_type_2_size type * ((size - 1) * inc + 1) < 2 ^ 32
    → (is_region_outbound_1d start end type size inc ≡ false)
      ↔ ((i : ℕ) → i < size → last_byte start type inc i ≤ end)
is_region_outbound_1d_iff start end type size inc h w t fits =
    let exact = is_region_outbound_1d-eq start end type size inc h w t fits in
    (
      λ inside i hi. omega (
        tests,
        last_byte_mono start type inc i (size - 1) (omega arith),
        ltb→le end (last_byte start type inc (size - 1)) (rw exact at inside),
      ),
      λ all.
          rw exact
            (le→ltb end (last_byte start type inc (size - 1)) (all (size - 1) (omega arith))),
    )

-- Data unit `c` of row `r`: after a row of `size_d1` units the pointer moves on by `inc_d2`.
abbrev pub unit_2d : ℕ → ℕ → ℕ → ℕ → ℕ → ℕ
unit_2d size_d1 inc_d1 inc_d2 r c = r * ((size_d1 - 1) * inc_d1 + inc_d2) + c * inc_d1

-- What `is_region_outbound_2D` counts.
abbrev pub units_2d : ℕ → ℕ → ℕ → ℕ → ℕ
units_2d size_d1 size_d2 inc_d1 inc_d2 =
    ((size_d1 - 1) * inc_d1 + 1) * size_d2 + inc_d2 * (size_d2 - 1)

unit_2d-lt :
    (size_d1 size_d2 inc_d1 inc_d2 r c : ℕ)
    → r < size_d2
    → c < size_d1
    → unit_2d size_d1 inc_d1 inc_d2 r c < units_2d size_d1 size_d2 inc_d1 inc_d2
unit_2d-lt size_d1 size_d2 inc_d1 inc_d2 r c hr hc =
    let row : ℕ = (size_d1 - 1) * inc_d1 in
    let within : c * inc_d1 ≤ (size_d1 - 1) * inc_d1 = grind arith in
    let rows : (r + 1) * ((size_d1 - 1) * inc_d1 + 1) ≤ size_d2 * ((size_d1 - 1) * inc_d1 + 1) =
      grind arith in
    let gaps : r * inc_d2 ≤ (size_d2 - 1) * inc_d2 = grind arith in omega arith

scaled : (d : ℕ) {x y : ℕ} → x < y → d * (x + 1) ≤ d * y
scaled d h = grind arith

outbound_2d_exact :
    (start d p q n : ℕ)
    → 0 < d
    → 0 < n
    → start + d * ((p + 1) * n + q) < 2 ^ 32
    → sub32 (u32 (start + u32 (d * u32 (u32 (u32 (u32 p + 1) * n) + u32 q)))) 1
      ≡ start + d * ((p + 1) * n + q) - 1
outbound_2d_exact start d p q n h hn fits =
    let wide : (p + 1) * n + q ≤ d * ((p + 1) * n + q) = grind arith in
    let row : p + 1 ≤ (p + 1) * n = grind arith in
    let small : u32 (u32 p + 1) ≡ p + 1 = omega arith in
    let sum : u32 (u32 ((p + 1) * n) + u32 q) ≡ (p + 1) * n + q = omega arith in
    rw (small, sum) (omega arith)

-- For positive sizes of 32 bits and one of the three data types, where the counted region fits the
-- address space, a passed check keeps the last byte of every data unit of every row at or below the
-- end.
pub is_region_outbound_2d_sound :
    (start end type size_d1 size_d2 inc_d1 inc_d2 : ℕ)
    → 0 < size_d1
    → size_d1 < 2 ^ 32
    → 0 < size_d2
    → size_d2 < 2 ^ 32
    → type ≤ 2
    → start + data_type_2_size type * units_2d size_d1 size_d2 inc_d1 inc_d2 < 2 ^ 32
    → is_region_outbound_2d start end type size_d1 size_d2 inc_d1 inc_d2 ≡ false
    → (r c : ℕ) → r < size_d2
    → c < size_d1
    → start + data_type_2_size type * (unit_2d size_d1 inc_d1 inc_d2 r c + 1) - 1 ≤ end
unfolding is_region_outbound_2d
is_region_outbound_2d_sound start end type size_d1 size_d2 inc_d1 inc_d2 h1 w1 h2 w2 t fits pass r c
      hr hc =
    let less1 : sub32 size_d1 1 ≡ size_d1 - 1 = omega arith in
    let less2 : sub32 size_d2 1 ≡ size_d2 - 1 = omega arith in
    let exact =
      outbound_2d_exact start (data_type_2_size type) ((size_d1 - 1) * inc_d1)
        (inc_d2 * (size_d2 - 1)) size_d2 (size_pos type t).0 h2 fits in
    let covered : data_type_2_size type * (unit_2d size_d1 inc_d1 inc_d2 r c + 1)
        ≤ data_type_2_size type * units_2d size_d1 size_d2 inc_d1 inc_d2 =
      scaled (data_type_2_size type) (unit_2d-lt size_d1 size_d2 inc_d1 inc_d2 r c hr hc) in
    let last =
      ltb→le end (start + data_type_2_size type * units_2d size_d1 size_d2 inc_d1 inc_d2 - 1)
        (rw (less1, less2, exact) at pass) in
    omega arith
