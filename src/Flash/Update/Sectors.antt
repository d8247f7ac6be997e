-- ===== src/Flash/Update/Sectors.antt =====
-- How erase_and_write cuts its range into sectors, and what it calls for each of them, whatever the
-- read, the erase and the write of the variant do.
use mathlib.Core.Option
use core_v_mini_mcu.Base.{
  ℕ, zero, suc, ◌+◌, ◌-◌, ◌/◌, ◌%◌, ◌^◌, ◌≤◌, ◌<◌, ◌≡◌, ◌∙◌, refl, ap, arith, bit_and-ones,
  bit_and-shifted, u32, sub32, Bool, true, false, not, Bool-cases, Option-cases, inl, inr, ◌⊎◌, ltb,
  leb, ◌==◌, ◌&&◌, if◌then◌else◌, Option, none, some, List, [], ◌∷◌,
}
use core_v_mini_mcu.Flash.{flash_ok, flash_error}
use core_v_mini_mcu.Flash.Update.{
  Calls, Buffer, flash_sector_size, sector_start, sector_share, update_sector, update_loop,
  erase_and_write,
}

-- The mask clears the twelve lowest bits of an address.
sector_start_lem : (addr : ℕ) → addr < 2 ^ 32 → sector_start addr ≡ addr - addr % 4096
sector_start_lem addr word =
    omega (arith, bit_and-shifted 12 addr 0xfffff, bit_and-ones 20 (addr / 2 ^ 12))

-- The share of a sector is what is left of it, or all that remains.
sector_share_lem :
    (addr remaining : ℕ)
    → addr < 2 ^ 32
    → remaining < 2 ^ 31
    → 0 < remaining
    → let offset = sub32 addr (sector_start addr) in
      let share = sector_share addr remaining in
      (0 < share)
      × (share ≤ remaining)
      × (offset + share ≤ 4096)
      × ((share ≡ remaining) ⊎ (offset + share ≡ 4096))
sector_share_lem addr remaining word fits some_left =
    let start = sector_start_lem addr word in
    let offset : sub32 addr (sector_start addr) ≡ addr % 4096 = omega (arith, start) in
    let left : sub32 flash_sector_size (addr % 4096) ≡ 4096 - addr % 4096 = omega arith in
    rw (offset, left) (ground arith)

-- A part of a range that lies in one sector: the sector, where the part starts in it and in the data, and
-- its length.
pub record Part : Type 0 where
  pub sector : ℕ
  pub offset : ℕ
  pub place : ℕ
  pub len : ℕ

-- The parts follow each other and make up a range of `length` bytes at `addr`; each lies in a whole
-- sector, and reaches to the end of it or of the range.
abbrev pub MakeUp : ℕ → ℕ → ℕ → List Part → Type 0
MakeUp addr place length [] = length ≡ 0
MakeUp addr place length (p ∷ parts) =
    (p.sector % 4096 ≡ 0)
    × (p.sector + p.offset ≡ addr)
    × (p.place ≡ place)
    × (0 < p.len)
    × (p.len ≤ length)
    × (p.offset + p.len ≤ 4096)
    × ((p.len ≡ length) ⊎ (p.offset + p.len ≡ 4096))
    × MakeUp (addr + p.len) (place + p.len) (length - p.len) parts

-- What was found in a sector, with a part of the data over it.
abbrev pub patched : Part → Buffer → Buffer → Buffer
patched p bytes found j =
    if leb p.offset j && ltb j (p.offset + p.len) then bytes (p.place + (j - p.offset)) else found j

-- A sector is read; it is erased and written back with its part of the data, unless the read fails. The
-- rest follows unless the read or the write fails, and the result of the erase is ignored.
abbrev pub rewrite_one {ℓ} :
    {S : Type ℓ}
    → Calls S
    → Buffer
    → Part
    → (S → Buffer → Option ((S × Buffer) × ℕ))
    → S
    → Buffer
    → Option ((S × Buffer) × ℕ)
rewrite_one calls bytes p rest s sector = elim (calls.read p.sector sector 4096 s) [
  | none ↦ none
  | some r ↦ elim (r.1 == flash_ok) [
    | false ↦ some (r.0, flash_error)
    | true ↦ elim (calls.erase p.sector r.0.0) [
      | none ↦ none
      | some erased ↦ elim (calls.write p.sector (patched p bytes r.0.1) 4096 erased) [
        | none ↦ none
        | some w ↦ elim (w.1 == flash_ok) [
          | true ↦ rest w.0 (patched p bytes r.0.1)
          | false ↦ some ((w.0, patched p bytes r.0.1), flash_error)
        ]
      ]
    ]
  ]
]

abbrev pub rewrite_parts {ℓ} :
    {S : Type ℓ} → Calls S → Buffer → List Part → S → Buffer → Option ((S × Buffer) × ℕ)
rewrite_parts calls bytes [] s sector = some ((s, sector), flash_ok)
rewrite_parts calls bytes (p ∷ parts) s sector =
    rewrite_one calls bytes p (rewrite_parts calls bytes parts) s sector

-- The part that a round of the loop writes.
abbrev part_at : ℕ → ℕ → ℕ → Part
part_at addr place remaining = record {
  sector = sector_start addr;
  offset = sub32 addr (sector_start addr);
  place = place;
  len = sector_share addr remaining;
}

module _ {ℓ} {S : Type ℓ} (calls : Calls S) (bytes : Buffer) where
  -- A round of the loop rewrites the sector of its part.
  update_loop-part :
      (rounds place addr remaining : ℕ) (parts : List Part) (s : S) (sector : Buffer)
      → (remaining == 0) ≡ false
      → ((s1 : S) (changed : Buffer)
          → update_loop calls bytes rounds
              (place + sector_share addr remaining)
              (u32 (addr + sector_share addr remaining))
              (sub32 remaining (sector_share addr remaining))
              s1
              changed
            ≡ rewrite_parts calls bytes parts s1 changed)
      → update_loop calls bytes (suc rounds) place addr remaining s sector
        ≡ rewrite_parts calls bytes (part_at addr place remaining ∷ parts) s sector
  unfolding update_loop update_sector mathlib.Core.Option.bind
  update_loop-part rounds place addr remaining parts s sector some_left rest =
      let start = sector_start addr in
      let p = part_at addr place remaining in
      elim (Option-cases (calls.read start sector flash_sector_size s)) [
        | inl stuck ↦ rw (some_left, stuck, update_loop, rewrite_parts, rewrite_one) refl
        | inr (((s1, found), status), read) ↦ elim (Bool-cases (status == flash_ok)) [
          | inr refused ↦
              rw (some_left, read, refused, update_loop, rewrite_parts, rewrite_one) refl
          | inl fine ↦ elim (Option-cases (calls.erase start s1)) [
            | inl stuck ↦
                rw (some_left, read, fine, stuck, update_loop, rewrite_parts, rewrite_one) refl
            | inr (s2, erased) ↦
                elim (Option-cases
                  (calls.write start (patched p bytes found) flash_sector_size s2)) [
                    | inl stuck ↦
                        rw
                          (
                            some_left, read, fine, erased, stuck, update_loop, rewrite_parts,
                            rewrite_one,
                          )
                          refl
                    | inr ((s3, result), written) ↦ elim (Bool-cases (result == flash_ok)) [
                      | inr failed ↦
                          rw
                            (
                              some_left, read, fine, erased, written, failed, update_loop,
                              rewrite_parts, rewrite_one,
                            )
                            (ap
                              (λ (b : Bool). some (
                                (s3, patched p bytes found),
                                if not b then flash_error else flash_ok,
                              ))
                              failed)
                      | inl done ↦
                          rw
                            (
                              some_left, read, fine, erased, written, done, update_loop,
                              rewrite_parts, rewrite_one,
                            )
                            (rest s3 (patched p bytes found))
                    ]
                  ]
          ]
        ]
      ]

  update_loop-MakeUp :
      (rounds place addr remaining : ℕ)
      → remaining < rounds
      → addr + remaining < 2 ^ 32
      → remaining < 2 ^ 31
      → (parts : List Part) × MakeUp addr place remaining parts
        × ((s : S) (sector : Buffer)
            → update_loop calls bytes rounds place addr remaining s sector
              ≡ rewrite_parts calls bytes parts s sector)
  unfolding update_loop
  update_loop-MakeUp zero place addr remaining enough word fits = absurd (omega arith)
  update_loop-MakeUp (suc rounds) place addr remaining enough word fits =
      elim (Bool-cases (remaining == 0)) [
        | inl done ↦ ([], ground (arith, done), λ s sector. rw (done, update_loop) refl)
        | inr some_left ↦
            let share = sector_share addr remaining in
            let p = part_at addr place remaining in
            let start = sector_start_lem addr (omega arith) in
            let (some_bytes, le, inside, most) =
              sector_share_lem addr remaining (omega arith) fits (ground (arith, some_left)) in
            let offset : sub32 addr (sector_start addr) ≡ addr % 4096 = omega (arith, start) in
            let next : u32 (addr + share) ≡ addr + share = omega (arith, le) in
            let fewer : sub32 remaining share ≡ remaining - share = omega (arith, le) in
            let (parts, made, run) =
              update_loop-MakeUp rounds (place + share) (addr + share) (remaining - share)
                (omega (arith, some_bytes)) (omega (arith, le)) (omega (arith, le)) in
            (
              p ∷ parts,
              (
                omega (arith, start),
                omega (arith, start, offset),
                refl,
                some_bytes,
                le,
                inside,
                most,
                made,
              ),
              λ s sector.
                  update_loop-part rounds place addr remaining parts s sector some_left
                    (λ s1 changed.
                      ap
                        (λ (x : ℕ).
                          update_loop calls bytes rounds (place + share) x (sub32 remaining share)
                            s1 changed)
                        next
                      ∙ ap
                          (λ (x : ℕ).
                            update_loop calls bytes rounds (place + share) (addr + share) x s1
                              changed)
                          fewer
                      ∙ run s1 changed),
            )
      ]

  -- Whatever its read, erase and write do, the update of a range shorter than 2 ^ 31 bytes that ends
  -- below 2 ^ 32 rewrites the sectors of the range one after the other, each with its part of the
  -- data over what was read from it: the parts follow each other in the range and in the data, are
  -- not empty, reach to the end of a sector or of the range, and make up the range. It ends, unless
  -- one of these calls does not, with an error of a read or a write or after all parts.
  pub erase_and_write-MakeUp :
      (addr length : ℕ)
      → addr + length < 2 ^ 32
      → length < 2 ^ 31
      → (parts : List Part) × MakeUp addr 0 length parts
        × ((s : S) (sector : Buffer)
            → erase_and_write calls addr bytes length s sector
              ≡ rewrite_parts calls bytes parts s sector)
  unfolding erase_and_write
  erase_and_write-MakeUp addr length word fits =
      update_loop-MakeUp (suc length) 0 addr length (omega arith) word fits
