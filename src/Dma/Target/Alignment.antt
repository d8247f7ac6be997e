-- ===== src/Dma/Target/Alignment.antt =====
-- Alignment: the misalignment is the least change of the data type that fits the pointer.
use core_v_mini_mcu.Base.{
  ℕ, zero, suc, ◌+◌, ◌%◌, ◌≤◌, ◌<◌, ◌≡◌, ◌≢◌, arith, bit_and-one, bit_and-three, ◌==◌,
  if◌then◌else◌, refl, ℕ_discrete, eq→==, ne→==,
}
use core_v_mini_mcu.Dma.Types.{data_type_2_size}
use core_v_mini_mcu.Dma.Target.{get_misalignment_b}

pub misalignment_word :
    (ptr : ℕ)
    → get_misalignment_b ptr 0 ≡ (if ptr % 2 == 1 then 2 else if ptr % 4 == 2 then 1 else 0)
unfolding get_misalignment_b
misalignment_word ptr = ground (arith, bit_and-one ptr, bit_and-three ptr)

misalignment_half : (ptr : ℕ) → get_misalignment_b ptr 1 ≡ (if ptr % 2 == 1 then 1 else 0)
unfolding get_misalignment_b
misalignment_half ptr = ground (arith, bit_and-one ptr)

abbrev LeastFor : ℕ → ℕ → ℕ → Type 0
LeastFor ptr type m =
    (type + m ≤ 2)
    × (ptr % data_type_2_size (type + m) ≡ 0)
    × ((k : ℕ) → k < m → ptr % data_type_2_size (type + k) ≢ 0)

least_two : (ptr : ℕ) → ptr % 2 ≡ 1 → LeastFor ptr 0 2
unfolding data_type_2_size
least_two ptr odd = (omega arith, omega arith, below)
  where
    below : (k : ℕ) → k < 2 → ptr % data_type_2_size (0 + k) ≢ 0
    below zero h = omega arith
    below (suc zero) h = omega arith
    below (suc (suc k)) h = absurd (omega arith)

least_one :
    (ptr type : ℕ)
    → type < 2
    → ptr % data_type_2_size (type + 1) ≡ 0
    → ptr % data_type_2_size type ≢ 0
    → LeastFor ptr type 1
least_one ptr type t fits misfit = (omega arith, fits, below)
  where
    below : (k : ℕ) → k < 1 → ptr % data_type_2_size (type + k) ≢ 0
    below zero h = let same : type + 0 ≡ type = omega arith in rw same misfit
    below (suc k) h = absurd (omega arith)

least_zero : (ptr type : ℕ) → type ≤ 2 → ptr % data_type_2_size type ≡ 0 → LeastFor ptr type 0
least_zero ptr type t fits =
    let same : type + 0 ≡ type = omega arith in
    (omega arith, rw same fits, λ k h. absurd (omega arith))

least_word : (ptr : ℕ) → LeastFor ptr 0 (if ptr % 2 == 1 then 2 else if ptr % 4 == 2 then 1 else 0)
unfolding data_type_2_size
least_word ptr = elim (ℕ_discrete (ptr % 2) 1) [
  | yes odd ↦ rw (eq→== _ _ odd) (least_two ptr odd)
  | no even ↦ elim (ℕ_discrete (ptr % 4) 2) [
    | yes half ↦
        rw (ne→== _ _ even, eq→== _ _ half)
          (least_one ptr 0 (omega arith) (omega arith) (omega arith))
    | no word ↦ rw (ne→== _ _ even, ne→== _ _ word) (least_zero ptr 0 (omega arith) (omega arith))
  ]
]

least_half : (ptr : ℕ) → LeastFor ptr 1 (if ptr % 2 == 1 then 1 else 0)
unfolding data_type_2_size
least_half ptr = elim (ℕ_discrete (ptr % 2) 1) [
  | yes odd ↦ rw (eq→== _ _ odd) (least_one ptr 1 (omega arith) (omega arith) (omega arith))
  | no even ↦ rw (ne→== _ _ even) (least_zero ptr 1 (omega arith) (omega arith))
]

pub misalignment_byte : (ptr : ℕ) → get_misalignment_b ptr 2 ≡ 0
unfolding get_misalignment_b
misalignment_byte ptr = refl

-- Adding the misalignment to one of the three data types gives a type whose size divides the address, and no
-- smaller change of the type does.
pub get_misalignment_b_least :
    (ptr type : ℕ)
    → type ≤ 2
    → (type + get_misalignment_b ptr type ≤ 2)
      × (ptr % data_type_2_size (type + get_misalignment_b ptr type) ≡ 0)
      × ((k : ℕ) → k < get_misalignment_b ptr type → ptr % data_type_2_size (type + k) ≢ 0)
get_misalignment_b_least ptr zero t = rw (misalignment_word ptr) (least_word ptr)
get_misalignment_b_least ptr (suc zero) t = rw (misalignment_half ptr) (least_half ptr)
get_misalignment_b_least ptr (suc (suc zero)) t =
    rw (misalignment_byte ptr) (least_zero ptr 2 t (unfold data_type_2_size in omega arith))
get_misalignment_b_least ptr (suc (suc (suc n))) t = absurd (omega arith)
