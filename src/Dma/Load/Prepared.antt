-- ===== src/Dma/Load/Prepared.antt =====
-- The registers of the interrupts and of the paddings, and what a load leaves outside the peripheral.
use core_v_mini_mcu.Base.{
  ℕ, ◌&&◌, ◌/◌, ◌^◌, ◌≡◌, ◌≢◌, refl, arith, bit_and, bit_or, shl32, not32, not, ◌||◌, ltb, ◌==◌,
  if◌then◌else◌, Bool, Bool-cases, inl, inr, ◌∙◌,
}
use core_v_mini_mcu.Bitfield.{bitfield_write}
use core_v_mini_mcu.Dma.Reg
use core_v_mini_mcu.Dma.Types.{
  Trans, World, EndEvent, polling, intr, intr_wait, is_polling, is_2d, dim_2d, data_type_2_size,
}
use core_v_mini_mcu.Dma.Load.{
  write_register, set_interrupts, set_padding, is_padded_1d, extend_1d, set_csrs,
}
use core_v_mini_mcu.Mmio.{Region, update, mmio_region_read32}
use core_v_mini_mcu.Mmio.Laws.{update_self}

-- The interrupts of the channel are those that the end event and the window ask for.
pub set_interrupts_lem :
    (t : Trans) (r : Region)
    → mmio_region_read32 (set_interrupts t r) Reg.interrupt_en
      ≡ (if is_polling t.end_event then 0 else if ltb 0 t.win_du then 3 else 1)
unfolding set_interrupts shl32 not32
set_interrupts_lem t r = by_event t.end_event
  where
    by_event :
        (e : EndEvent)
        → mmio_region_read32 (set_interrupts (record t { end_event = e }) r) Reg.interrupt_en
          ≡ (if is_polling e then 0 else if ltb 0 t.win_du then 3 else 1)
    by_event polling = refl
    by_event intr = elim (Bool-cases (ltb 0 t.win_du)) [
      | inl e ↦ rw (e, set_interrupts)
      | inr e ↦ rw (e, set_interrupts)
    ]
    by_event intr_wait = elim (Bool-cases (ltb 0 t.win_du)) [
      | inl e ↦ rw (e, set_interrupts)
      | inr e ↦ rw (e, set_interrupts)
    ]

-- Some padding at the left or the right, and a padded transaction in one dimension.
abbrev pub is_padded : Trans → Bool
is_padded t = not (t.pad_left_du == 0) || not (t.pad_right_du == 0)

abbrev at : Region → ℕ → ℕ
at r offset = mmio_region_read32 r offset

-- A field of six bits of a register of `r` after it is written.
abbrev six : Region → ℕ → ℕ → ℕ
six r offset val = bitfield_write (at r offset) 0x3f 0 val

-- The registers `c` have the interrupts and the paddings of a transaction and are else those of `r`.
-- The paddings at the top and the bottom are of two dimensions; without any padding at the sides
-- a transaction in one dimension leaves all of them as they were.
pub record IsPrepared (t : Trans) (r c : Region) : Type 0 where
  pub interrupts :
      at c Reg.interrupt_en
      ≡ (if is_polling t.end_event then 0 else if ltb 0 t.win_du then 3 else 1)
  pub top :
      at c Reg.pad_top ≡ (if is_2d t.dim then six r Reg.pad_top t.pad_top_du else at r Reg.pad_top)
  pub bottom :
      at c Reg.pad_bottom
      ≡ (if is_2d t.dim then six r Reg.pad_bottom t.pad_bottom_du else at r Reg.pad_bottom)
  pub left :
      at c Reg.pad_left
      ≡ (if is_2d t.dim || is_padded t then six r Reg.pad_left t.pad_left_du else at r Reg.pad_left)
  pub right : at c Reg.pad_right ≡ (
      if is_2d t.dim || is_padded t then six r Reg.pad_right t.pad_right_du else at r Reg.pad_right)
  pub others :
      (j : ℕ)
      → j ≢ Reg.interrupt_en / 4
      → j ≢ Reg.pad_top / 4
      → j ≢ Reg.pad_bottom / 4
      → j ≢ Reg.pad_left / 4
      → j ≢ Reg.pad_right / 4
      → c j ≡ r j

set_interrupts-other :
    (t : Trans) (r : Region) (j : ℕ) → j ≢ Reg.interrupt_en / 4 → set_interrupts t r j ≡ r j
unfolding set_interrupts write_register
set_interrupts-other t r j h = elim (Bool-cases (is_polling t.end_event)) [
  | inl e ↦ rw (e, set_interrupts) (ground (arith, h))
  | inr e ↦ elim (Bool-cases (ltb 0 t.win_du)) [
    | inl f ↦ rw (e, f, set_interrupts) (ground (arith, h))
    | inr f ↦ rw (e, f, set_interrupts) (ground (arith, h))
  ]
]

-- The paddings, with the interrupts as they were.
abbrev IsPadded : Trans → Region → Region → Type 0
IsPadded t r c =
    (at c Reg.pad_top ≡ (if is_2d t.dim then six r Reg.pad_top t.pad_top_du else at r Reg.pad_top))
    × (at c Reg.pad_bottom
        ≡ (if is_2d t.dim then six r Reg.pad_bottom t.pad_bottom_du else at r Reg.pad_bottom))
    × (at c Reg.pad_left ≡ (
        if is_2d t.dim || is_padded t then six r Reg.pad_left t.pad_left_du else at r Reg.pad_left))
    × (at c Reg.pad_right ≡ (
        if is_2d t.dim || is_padded t
        then six r Reg.pad_right t.pad_right_du
        else at r Reg.pad_right))
    × (at c Reg.interrupt_en ≡ at r Reg.interrupt_en)

set_padding-IsPadded : (t : Trans) (r : Region) → IsPadded t r (set_padding t r)
unfolding set_padding write_register bitfield_write
set_padding-IsPadded t r = elim (Bool-cases (is_2d t.dim)) [
  | inl two ↦ rw (two, set_padding) (refl, refl, refl, refl, refl)
  | inr one ↦ elim (Bool-cases (is_padded t)) [
    | inl some_pad ↦ rw (one, some_pad, set_padding) (refl, refl, refl, refl, refl)
    | inr no_pad ↦ rw (one, no_pad, set_padding) (refl, refl, refl, refl, refl)
  ]
]

set_padding-other :
    (t : Trans) (r : Region) (j : ℕ)
    → j ≢ Reg.pad_top / 4
    → j ≢ Reg.pad_bottom / 4
    → j ≢ Reg.pad_left / 4
    → j ≢ Reg.pad_right / 4
    → set_padding t r j ≡ r j
unfolding set_padding write_register
set_padding-other t r j a b c d = elim (Bool-cases (is_2d t.dim)) [
  | inl two ↦ rw (two, set_padding) (ground (arith, a, b, c, d))
  | inr one ↦ elim (Bool-cases (is_padded t)) [
    | inl some_pad ↦ rw (one, some_pad, set_padding) (ground (arith, c, d))
    | inr no_pad ↦ rw (one, no_pad, set_padding) refl
  ]
]

pub set_padding-IsPrepared :
    (t : Trans) (r : Region) → IsPrepared t r (set_padding t (set_interrupts t r))
set_padding-IsPrepared t r =
    let (top, bottom, left, right, interrupts) = set_padding-IsPadded t (set_interrupts t r) in
    let same = set_interrupts-other t r in
    let same_top = same (Reg.pad_top / 4) (omega arith) in
    let same_bottom = same (Reg.pad_bottom / 4) (omega arith) in
    let same_left = same (Reg.pad_left / 4) (omega arith) in
    let same_right = same (Reg.pad_right / 4) (omega arith) in
    record {
      interrupts = interrupts ∙ set_interrupts_lem t r;
      top = rw same_top at top;
      bottom = rw same_bottom at bottom;
      left = rw same_left at left;
      right = rw same_right at right;
      others = λ j e a b c d. set_padding-other t (set_interrupts t r) j a b c d ∙ same j e;
    }

-- What loading the transaction `p_trans` makes of the world `w`, but for channels and registers: a
-- padded transaction in one dimension becomes one row in two, whose source steps by one data unit of the
-- destination's type from row to row, and the machine interrupts of the DMA are masked while polling
-- and enabled for the other end events.
abbrev pub IsExtended : World → ℕ → World → Type 0
IsExtended w p_trans w' =
    let t = w.transactions p_trans in
    let extends = not (is_2d t.dim) && is_padded t in
    let polls = is_polling t.end_event in
    let masked = bit_and w.mie (not32 0x80800) in
    (w'.transactions p_trans ≡ (if extends then record t { dim = dim_2d; size_d2_du = 1 } else t))
    × (w'.targets ≡ (
        if extends
        then update w.targets t.src (record (w.targets t.src) { inc_d2_du = 4 / 2 ^ t.dst_type })
        else w.targets))
    × (w'.mie ≡ (if polls then masked else bit_or masked 0x80800))
    × (w'.mstatus ≡ (if polls then w.mstatus else bit_or w.mstatus 8))

pub extend_1d-IsExtended :
    (w : World) (p_trans : ℕ)
    → IsExtended w p_trans (extend_1d (set_csrs (w.transactions p_trans) w) p_trans)
unfolding extend_1d set_csrs data_type_2_size
extend_1d-IsExtended w p_trans =
    let t = w.transactions p_trans in
    let written = update_self w.transactions p_trans (record t { dim = dim_2d; size_d2_du = 1 }) in
    elim (Bool-cases (is_polling t.end_event)) [
      | inl polls ↦ elim (Bool-cases (is_padded_1d t)) [
        | inl padded ↦ rw (polls, padded) (written, refl, refl, refl)
        | inr plain ↦ rw (polls, plain) (refl, refl, refl, refl)
      ]
      | inr waits ↦ elim (Bool-cases (is_padded_1d t)) [
        | inl padded ↦ rw (waits, padded) (written, refl, refl, refl)
        | inr plain ↦ rw (waits, plain) (refl, refl, refl, refl)
      ]
    ]
