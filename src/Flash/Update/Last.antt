-- ===== src/Flash/Update/Last.antt =====
-- An update without the DMA that reaches into the last sector of the flash.
use core_v_mini_mcu.Base.{
  ℕ, ◌+◌, ◌-◌, ◌^◌, ◌≤◌, ◌<◌, ◌≡◌, refl, ap, arith, true, false, leb, Bool-cases, Option-cases, inl,
  inr, ◌==◌, Option, none, some, List, [], ◌∷◌,
}
use core_v_mini_mcu.Flash.{Setup, flash_ok, flash_error}
use core_v_mini_mcu.Flash.Range.{w25q128jw_sanity_checks-ok_iff}
use core_v_mini_mcu.Flash.Read.{w25q128jw_read_standard, w25q128jw_read_quad}
use core_v_mini_mcu.Flash.Update.{Calls, Buffer, erase_and_write}
use core_v_mini_mcu.Flash.Update.Sectors.{
  Part, MakeUp, patched, rewrite_one, rewrite_parts, erase_and_write-MakeUp,
}
use core_v_mini_mcu.Flash.Variants.{
  standard_calls, quad_calls, w25q128jw_erase_and_write_standard, w25q128jw_erase_and_write_quad,
}
use core_v_mini_mcu.Flash.Write.{w25q128jw_sanity_checks}
use core_v_mini_mcu.SpiHost.{Host}

-- A run that ends with success.
abbrev pub Succeeds {ℓ} : {A : Type ℓ} → Option (A × ℕ) → Type ℓ
Succeeds {A = A} o = (a : A) × (o ≡ some (a, flash_ok))

status_of {ℓ} : {A : Type ℓ} → Option (A × ℕ) → ℕ
status_of none = flash_error
status_of (some (a, status)) = status

-- A run with another status is none.
fails {ℓ} : {A : Type ℓ} (o : Option (A × ℕ)) → status_of o ≡ flash_error → ¬ Succeeds o
unfolding status_of
fails o error (a, done) =
    let status : status_of o ≡ flash_ok = ap status_of done in absurd (omega (arith, error, status))

-- The read of the sectors from the last one on is refused.
abbrev RefusesLast {ℓ} : {S : Type ℓ} → Calls S → Type ℓ
RefusesLast {S = S} calls =
    (start : ℕ) (sector : Buffer) (s : S)
    → 0xfff000 ≤ start
    → start < 2 ^ 31
    → calls.read start sector 4096 s ≡ some ((s, sector), flash_error)

module _ {ℓ} {S : Type ℓ} (calls : Calls S) (bytes : Buffer) where
  -- A sector and what follows succeed only if the read does, and what follows.
  rewrite_one-Succeeds :
      (p : Part) (rest : S → Buffer → Option ((S × Buffer) × ℕ)) (s : S) (sector : Buffer)
      → ((s1 : S) (changed : Buffer) → ¬ Succeeds (rest s1 changed))
      → ¬ Succeeds (rewrite_one calls bytes p rest s sector)
  unfolding status_of
  rewrite_one-Succeeds p rest s sector later =
      elim (Option-cases (calls.read p.sector sector 4096 s)) [
        | inl stuck ↦ rw (stuck, rewrite_one) (fails none refl)
        | inr (((s1, found), status), read) ↦ elim (Bool-cases (status == flash_ok)) [
          | inr refused ↦
              rw (read, refused, rewrite_one) (fails (some ((s1, found), flash_error)) refl)
          | inl fine ↦ elim (Option-cases (calls.erase p.sector s1)) [
            | inl stuck ↦ rw (read, fine, stuck, rewrite_one) (fails none refl)
            | inr (s2, erased) ↦
                elim (Option-cases (calls.write p.sector (patched p bytes found) 4096 s2)) [
                  | inl stuck ↦ rw (read, fine, erased, stuck, rewrite_one) (fails none refl)
                  | inr ((s3, result), written) ↦ elim (Bool-cases (result == flash_ok)) [
                    | inr failed ↦
                        rw (read, fine, erased, written, failed, rewrite_one)
                          (fails (some ((s3, patched p bytes found), flash_error)) refl)
                    | inl done ↦
                        rw (read, fine, erased, written, done, rewrite_one)
                          (later s3 (patched p bytes found))
                  ]
                ]
          ]
        ]
      ]

  rewrite_parts-last :
      RefusesLast calls
      → (parts : List Part) (addr place length : ℕ) → MakeUp addr place length parts
      → 0 < length
      → 0xfff000 < addr + length
      → addr + length < 2 ^ 31
      → (s : S) (sector : Buffer) → ¬ Succeeds (rewrite_parts calls bytes parts s sector)
  unfolding status_of
  rewrite_parts-last refuses [] addr place length none_left some_bytes late fits s sector =
      absurd (omega arith)
  rewrite_parts-last refuses (p ∷ parts) addr place length
        (whole, at, from, more, le, inside, most, rest) some_bytes late fits s sector =
      elim (Bool-cases (leb 0xfff000 p.sector)) [
        | inl last ↦
            let refused = refuses p.sector sector s (ground (arith, last)) (omega arith) in
            rw (refused, rewrite_parts, rewrite_one) (fails (some ((s, sector), flash_error)) refl)
        | inr before ↦
            let early : p.sector < 0xfff000 = ground (arith, before) in
            let end : p.sector + 4096 ≤ 0xfff000 = omega (arith, early, whole) in
            rewrite_one-Succeeds p (rewrite_parts calls bytes parts) s sector (
              rewrite_parts-last refuses parts (addr + p.len) (place + p.len) (length - p.len) rest
                (omega (arith, end)) (omega (arith, le)) (omega (arith, le)))
      ]

  erase_and_write-last :
      (addr length : ℕ) (s : S) (sector : Buffer)
      → RefusesLast calls
      → 0 < length
      → 0xfff000 < addr + length
      → addr + length < 2 ^ 31
      → ¬ Succeeds (erase_and_write calls addr bytes length s sector)
  erase_and_write-last addr length s sector refuses some_bytes late fits =
      let (parts, made, run) =
        erase_and_write-MakeUp calls bytes addr length (omega arith) (omega arith) in
      rw (run s sector)
        (rewrite_parts-last refuses parts addr 0 length made some_bytes late fits s sector)

not_fine :
    (start : ℕ)
    → 0xfff000 ≤ start
    → start < 2 ^ 31
    → (w25q128jw_sanity_checks start true 4096 == flash_ok) ≡ false
not_fine start last fits = ground (arith, w25q128jw_sanity_checks-ok_iff start 4096 (omega arith))

standard-RefusesLast : (setup : Setup) → RefusesLast (standard_calls setup)
unfolding standard_calls w25q128jw_read_standard
standard-RefusesLast setup start sector h last fits = rw (not_fine start last fits) refl

quad-RefusesLast : (setup : Setup) → RefusesLast (quad_calls setup)
unfolding quad_calls w25q128jw_read_quad
quad-RefusesLast setup start sector h last fits = rw (not_fine start last fits) refl

-- An update without the DMA, at either speed, of a range that reaches into the last sector or past it
-- never ends with success, on any host and device: a range of a byte at least that ends below 2 ^ 31.
pub w25q128jw_erase_and_write-last :
    (setup : Setup) (addr length : ℕ) (bytes : Buffer) (h : Host) (sector : Buffer)
    → 0 < length
    → 0xfff000 < addr + length
    → addr + length < 2 ^ 31
    → ¬ Succeeds (w25q128jw_erase_and_write_standard setup addr bytes length h sector)
      × ¬ Succeeds (w25q128jw_erase_and_write_quad setup addr bytes length h sector)
unfolding w25q128jw_erase_and_write_standard w25q128jw_erase_and_write_quad
w25q128jw_erase_and_write-last setup addr length bytes h sector some_bytes late fits = (
  erase_and_write-last (standard_calls setup) bytes addr length h sector
      (standard-RefusesLast setup) some_bytes late fits,
  erase_and_write-last (quad_calls setup) bytes addr length h sector (quad-RefusesLast setup)
      some_bytes late fits,
)
