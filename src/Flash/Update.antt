-- ===== src/Flash/Update.antt =====
-- w25q.c: erase_and_write and its variants, which read a sector, erase it, change it in RAM and write
-- it back. The variants differ in the read and in the write that they call, which are the record
-- `Calls`; the sector in RAM, `sector_data`, is part of the state.
pub mod Sectors
pub mod Last
use mathlib.Core.Option
use core_v_mini_mcu.Base.{
  ℕ, zero, suc, ◌+◌, ◌-◌, ◌^◌, bit_and, u32, sub32, Bool, true, false, not, ◌&&◌, ltb, leb, ◌==◌,
  if◌then◌else◌, Option, none, some,
}
use core_v_mini_mcu.Flash.{flash_ok, flash_error}
use core_v_mini_mcu.Flash.Write.{min32}

abbrev pub flash_sector_size : ℕ
flash_sector_size = 4096

-- A buffer of bytes.
abbrev pub Buffer : Type 0
Buffer = ℕ → ℕ

-- The read of a range into a buffer, the erase of a sector, whose result is ignored, and the write of
-- a buffer to a range. `none` means that the call does not return.
pub record Calls {ℓ} (S : Type ℓ) : Type ℓ where
  pub read : ℕ → Buffer → ℕ → S → Option ((S × Buffer) × ℕ)
  pub erase : ℕ → S → Option S
  pub write : ℕ → Buffer → ℕ → S → Option (S × ℕ)

-- An index lies in a range.
abbrev pub within : ℕ → ℕ → ℕ → Bool
within start n j = leb start j && ltb j (start + n)

-- `memcpy` of `n` bytes to the place `at` of a buffer.
abbrev pub copied : Buffer → ℕ → Buffer → ℕ → Buffer
copied buffer at source n j = if leb at j && ltb j (at + n) then source (j - at) else buffer j

abbrev pub sector_start : ℕ → ℕ
sector_start addr = bit_and addr 0xfffff000

-- The length of the data to write in the sector of an address.
abbrev pub sector_share : ℕ → ℕ → ℕ
sector_share addr remaining =
    u32 (min32 (sub32 flash_sector_size (sub32 addr (sector_start addr))) remaining)

-- One round of the loop: the new state and sector in RAM, and the status.
unfoldable pub update_sector {ℓ} :
    {S : Type ℓ} → Calls S → Buffer → ℕ → ℕ → ℕ → S → Buffer → Option ((S × Buffer) × ℕ)
update_sector {S = S} calls bytes place addr share s sector =
    let start = sector_start addr in
    Option.bind (calls.read start sector flash_sector_size s) (λ (r : (S × Buffer) × ℕ).
      let ((s1, found), status) = r in
      if not (status == flash_ok)
      then some ((s1, found), flash_error)
      else Option.bind (calls.erase start s1) (λ (s2 : S).
        let changed : Buffer = copied found (sub32 addr start) (λ i. bytes (place + i)) share in
        Option.map
          (λ (w : S × ℕ).
            ((w.0, changed), (if not (w.1 == flash_ok) then flash_error else flash_ok)))
          (calls.write start changed flash_sector_size s2)))

-- The loop. `place` is how far `current_data` has moved; `none` also means that the loop still runs
-- after the rounds that it is given.
unfoldable pub update_loop {ℓ} :
    {S : Type ℓ} → Calls S → Buffer → ℕ → ℕ → ℕ → ℕ → S → Buffer → Option ((S × Buffer) × ℕ)
unfolding update_sector
update_loop calls bytes zero place addr remaining s sector = none
update_loop calls bytes (suc rounds) place addr remaining s sector = elim (remaining == 0) [
  | true ↦ some ((s, sector), flash_ok)
  | false ↦
      let share = sector_share addr remaining in
      elim (update_sector calls bytes place addr share s sector) [
        | none ↦ none
        | some ((s1, changed), status) ↦ elim (status == flash_ok) [
          | true ↦
              update_loop calls bytes rounds (place + share) (u32 (addr + share))
                (sub32 remaining share) s1 changed
          | false ↦ some ((s1, changed), status)
        ]
      ]
]

-- `erase_and_write` of a range from the start of a buffer.
unfoldable pub erase_and_write {ℓ} :
    {S : Type ℓ} → Calls S → ℕ → Buffer → ℕ → S → Buffer → Option ((S × Buffer) × ℕ)
unfolding update_loop
erase_and_write calls addr bytes length s sector =
    update_loop calls bytes (suc length) 0 addr length s sector
