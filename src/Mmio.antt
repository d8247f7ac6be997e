-- ===== src/Mmio.antt =====
-- sw/device/lib/base/mmio.h: a region of memory-mapped registers. A region is the function from
-- the index of a 32-bit register to what it holds; a `volatile` access reads or writes that word.
-- What the hardware itself does to its registers is not part of a region.
pub mod Laws
use core_v_mini_mcu.Base.{ℕ, ◌+◌, ◌*◌, ◌/◌, ◌%◌, ◌-◌, ◌^◌, Bool, true, false, ◌==◌, if◌then◌else◌}
use core_v_mini_mcu.Bitfield.{
  Field, bitfield_field32_read, bitfield_field32_write, bitfield_bit32_read, bitfield_bit32_write,
}

abbrev pub Region : Type 0
Region = ℕ → ℕ

abbrev pub uint32_max : ℕ
uint32_max = 2 ^ 32 - 1

-- One location of a function is given anew.
abbrev pub update {ℓ} : {A : Type ℓ} → (ℕ → A) → ℕ → A → ℕ → A
update f i v j = if j == i then v else f j

abbrev pub mmio_region_read32 : Region → ℕ → ℕ
mmio_region_read32 base offset = base (offset / 4)

abbrev pub mmio_region_write32 : Region → ℕ → ℕ → Region
mmio_region_write32 base offset value = update base (offset / 4) value

-- A byte of a word, which lies in memory with its lowest byte first.
unfoldable pub mmio_region_read8 : Region → ℕ → ℕ
mmio_region_read8 base offset = base (offset / 4) / 2 ^ (8 * (offset % 4)) % 2 ^ 8

unfoldable pub mmio_region_write8 : Region → ℕ → ℕ → Region
mmio_region_write8 base offset value =
    let unit = 2 ^ (8 * (offset % 4)) in
    let word = base (offset / 4) in
    update base (offset / 4) (word - word / unit % 2 ^ 8 * unit + value * unit)

unfoldable pub mmio_region_read_mask32 : Region → ℕ → ℕ → ℕ → ℕ
unfolding bitfield_field32_read
mmio_region_read_mask32 base offset mask mask_index =
    bitfield_field32_read (mmio_region_read32 base offset)
      (record { mask = mask; index = mask_index })

unfoldable pub mmio_region_get_bit32 : Region → ℕ → ℕ → Bool
unfolding bitfield_bit32_read
mmio_region_get_bit32 base offset bit_index =
    bitfield_bit32_read (mmio_region_read32 base offset) bit_index

unfoldable pub mmio_region_nonatomic_clear_mask32 : Region → ℕ → ℕ → ℕ → Region
unfolding bitfield_field32_write
mmio_region_nonatomic_clear_mask32 base offset mask mask_index = mmio_region_write32 base offset (
    bitfield_field32_write (mmio_region_read32 base offset)
      (record { mask = mask; index = mask_index }) 0)

unfoldable pub mmio_region_nonatomic_set_mask32 : Region → ℕ → ℕ → ℕ → Region
unfolding bitfield_field32_write
mmio_region_nonatomic_set_mask32 base offset mask mask_index = mmio_region_write32 base offset (
    bitfield_field32_write (mmio_region_read32 base offset)
      (record { mask = mask; index = mask_index }) uint32_max)

unfoldable pub mmio_region_write_only_set_mask32 : Region → ℕ → ℕ → ℕ → Region
unfolding bitfield_field32_write
mmio_region_write_only_set_mask32 base offset mask mask_index =
    mmio_region_write32 base offset
      (bitfield_field32_write 0 (record { mask = mask; index = mask_index }) uint32_max)

unfoldable pub mmio_region_nonatomic_set_field32 : Region → ℕ → Field → ℕ → Region
unfolding bitfield_field32_write
mmio_region_nonatomic_set_field32 base offset field value =
    mmio_region_write32 base offset
      (bitfield_field32_write (mmio_region_read32 base offset) field value)

unfoldable pub mmio_region_write_only_set_field32 : Region → ℕ → Field → ℕ → Region
unfolding bitfield_field32_write
mmio_region_write_only_set_field32 base offset field value =
    mmio_region_write32 base offset (bitfield_field32_write 0 field value)

unfoldable pub mmio_region_nonatomic_clear_bit32 : Region → ℕ → ℕ → Region
unfolding bitfield_bit32_write
mmio_region_nonatomic_clear_bit32 base offset bit_index =
    mmio_region_write32 base offset
      (bitfield_bit32_write (mmio_region_read32 base offset) bit_index false)

unfoldable pub mmio_region_nonatomic_set_bit32 : Region → ℕ → ℕ → Region
unfolding bitfield_bit32_write
mmio_region_nonatomic_set_bit32 base offset bit_index =
    mmio_region_write32 base offset
      (bitfield_bit32_write (mmio_region_read32 base offset) bit_index true)

unfoldable pub mmio_region_write_only_set_bit32 : Region → ℕ → ℕ → Region
unfolding bitfield_bit32_write
mmio_region_write_only_set_bit32 base offset bit_index =
    mmio_region_write32 base offset (bitfield_bit32_write 0 bit_index true)
