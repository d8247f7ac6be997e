-- ===== src/Flash/Range.antt =====
-- The checks of a range, and the write of one, page by page.
use core_v_mini_mcu.Base.{
  ◌↔◌, ℕ, ◌+◌, ◌-◌, ◌%◌, ◌^◌, ◌≤◌, ◌<◌, ◌≡◌, refl, arith, ◌⊎◌, inl, inr, u32, sub32, true, false,
  ltb, ◌==◌, if◌then◌else◌, Bool-cases, some, List, [], ◌∷◌,
}
use core_v_mini_mcu.SpiHost.{Host}
use core_v_mini_mcu.Flash.{Setup, flash_ok, flash_page_size, max_flash_addr}
use core_v_mini_mcu.Flash.Write.{
  on_host, w25q128jw_write_quad, Page, page_loop, first_len, page_write_wrapper,
  w25q128jw_sanity_checks,
}
use core_v_mini_mcu.Flash.Pages.{perform, Covers, page_loop-Covers}

-- The checks of a range that does not wrap: it has a byte, and ends before the last byte of the flash.
pub w25q128jw_sanity_checks-ok_iff :
    (addr length : ℕ)
    → addr + length < 2 ^ 32
    → (w25q128jw_sanity_checks addr true length ≡ flash_ok)
      ↔ ((0 < length) × (addr + length ≤ max_flash_addr))
unfolding w25q128jw_sanity_checks
w25q128jw_sanity_checks-ok_iff addr length word = ground arith

-- The length of the first page is the smaller of what is left of it and of what is to be written.
first_len_lem :
    (addr length : ℕ)
    → length ≤ max_flash_addr
    → (addr % flash_page_size == 0) ≡ false
    → (first_len addr length ≤ length)
      × (addr % 256 + first_len addr length ≤ 256)
      × ((first_len addr length ≡ length) ⊎ (first_len addr length ≡ 256 - addr % 256))
first_len_lem addr length fits inside = ground (arith, inside)

-- A write from a page boundary on is the loop.
wrapper_at_boundary {ℓ} :
    {S : Type ℓ} (write : Page → S → S) (addr length quad dma : ℕ) (s final : S)
    → w25q128jw_sanity_checks addr true length ≡ flash_ok
    → 0 < length
    → length < 2 ^ 32
    → addr < 2 ^ 32
    → (addr % flash_page_size == 0) ≡ true
    → page_loop write length addr 0 length
        (if quad == 1 then 1 else 0)
        (if dma == 1 then 1 else 0)
        s
      ≡ some final
    → page_write_wrapper write addr true length quad dma s ≡ some (final, flash_ok)
unfolding page_write_wrapper
wrapper_at_boundary write addr length quad dma s final fine some_bytes word space aligned looped =
    let rest : sub32 length 0 ≡ length = omega arith in
    let start : u32 (addr + 0) ≡ addr = omega arith in
    let left : (length == 0) ≡ false = ground arith in
    rw (aligned, fine, rest, start, left, looped, page_write_wrapper)

-- A write within a page that ends in it is one call.
wrapper_within {ℓ} :
    {S : Type ℓ} (write : Page → S → S) (addr length quad dma : ℕ) (s : S)
    → w25q128jw_sanity_checks addr true length ≡ flash_ok
    → length < 2 ^ 32
    → (addr % flash_page_size == 0) ≡ false
    → first_len addr length ≡ length
    → page_write_wrapper write addr true length quad dma s
      ≡ some (
        write
            (record {
              addr = addr;
              place = 0;
              len = length;
              speed = if quad == 1 then 1 else 0;
              dma = if dma == 1 then 1 else 0;
            })
            s,
        flash_ok,
      )
unfolding page_write_wrapper
wrapper_within write addr length quad dma s fine word inside whole =
    let rest : (sub32 length length == 0) ≡ true = ground arith in
    rw (inside, fine, whole, rest, page_write_wrapper)

-- One that passes the page is a call for the rest of the page and the loop.
wrapper_across {ℓ} :
    {S : Type ℓ} (write : Page → S → S) (addr length n quad dma : ℕ) (s final : S)
    → w25q128jw_sanity_checks addr true length ≡ flash_ok
    → length < 2 ^ 32
    → addr + n < 2 ^ 32
    → n < length
    → (addr % flash_page_size == 0) ≡ false
    → first_len addr length ≡ n
    → page_loop write
        (length - n)
        (addr + n)
        n
        (length - n)
        (if quad == 1 then 1 else 0)
        (if dma == 1 then 1 else 0)
        (write
          (record {
            addr = addr;
            place = 0;
            len = n;
            speed = if quad == 1 then 1 else 0;
            dma = if dma == 1 then 1 else 0;
          })
          s)
      ≡ some final
    → page_write_wrapper write addr true length quad dma s ≡ some (final, flash_ok)
unfolding page_write_wrapper
wrapper_across write addr length n quad dma s final fine word space less inside part looped =
    let rest : sub32 length n ≡ length - n = omega arith in
    let start : u32 (addr + n) ≡ addr + n = omega arith in
    let left : (length - n == 0) ≡ false = ground arith in
    rw (inside, fine, part, rest, start, left, looped, page_write_wrapper)

from_start :
    (addr place length speed dma : ℕ) (ps : List Page)
    → Covers addr place length speed dma ps
    → Covers addr (0 + place) length speed dma ps
from_start addr place length speed dma ps covered =
    let same : 0 + place ≡ place = omega arith in rw same covered

-- A write of a range of the flash ends with no error, and its page writes cover the range byte by
-- byte and in order, each from its place in the buffer; none is empty, and none passes the end of its
-- page of 256 bytes.
pub page_write_wrapper-Covers {ℓ} :
    {S : Type ℓ} (write : Page → S → S) (addr length quad dma : ℕ) (s : S)
    → 0 < length
    → addr + length ≤ max_flash_addr
    → (ps : List Page) × (page_write_wrapper write addr true length quad dma s
        ≡ some (perform write ps s, flash_ok))
      × Covers addr 0 length (if quad == 1 then 1 else 0) (if dma == 1 then 1 else 0) ps
page_write_wrapper-Covers write addr length quad dma s some_bytes fits =
    let fine : w25q128jw_sanity_checks addr true length ≡ flash_ok =
      (w25q128jw_sanity_checks-ok_iff addr length (omega arith)).1 (some_bytes, fits) in
    let speed : ℕ = if quad == 1 then 1 else 0 in
    let flag : ℕ = if dma == 1 then 1 else 0 in
    elim (Bool-cases (addr % flash_page_size == 0)) [
      | inl aligned ↦
          let (ps, looped, covered) =
            page_loop-Covers write length addr 0 length speed flag s (omega arith) some_bytes
              (ground (arith, aligned)) (omega arith) in
          (
            ps,
            wrapper_at_boundary write addr length quad dma s (perform write ps s) fine some_bytes
                (omega arith) (omega arith) aligned looped,
            covered,
          )
      | inr inside ↦
          let (short, within, which) = first_len_lem addr length (omega arith) inside in
          let n = first_len addr length in
          let head : Page = record { addr = addr; place = 0; len = n; speed = speed; dma = flag } in
          elim (Bool-cases (ltb n length)) [
            | inr all ↦
                let whole : n ≡ length = ground (arith, all, short) in
                (
                  record { addr = addr; place = 0; len = length; speed = speed; dma = flag } ∷ [],
                  wrapper_within write addr length quad dma s fine (omega arith) inside whole,
                  (refl, some_bytes, omega (arith, whole, within), omega arith, omega arith),
                )
            | inl more ↦
                let less : n < length = ground (arith, more) in
                let exact : n ≡ 256 - addr % 256 = elim which [
                  | inl whole ↦ absurd (omega (arith, whole, less))
                  | inr part ↦ part
                ] in
                let (ps, looped, covered) =
                  page_loop-Covers write (length - n) (addr + n) n (length - n) speed flag
                    (write head s) (omega arith) (omega (arith, less)) (omega (arith, exact))
                    (omega (arith, less)) in
                (
                  head ∷ ps,
                  wrapper_across write addr length n quad dma s (perform write ps (write head s))
                      fine (omega arith) (omega (arith, short)) less inside refl looped,
                  (
                    refl,
                    omega (arith, exact),
                    within,
                    short,
                    from_start (addr + n) n (length - n) speed flag ps covered,
                  ),
                )
          ]
    ]

-- A write of a range over the host at quad speed performs page writes that cover the range in
-- order, none of which passes the end of its page.
pub w25q128jw_write_quad-Covers :
    (setup : Setup) (addr : ℕ) (bytes : ℕ → ℕ) (length : ℕ) (h : Host)
    → 0 < length
    → addr + length ≤ max_flash_addr
    → (ps : List Page) × (w25q128jw_write_quad setup addr bytes length h
        ≡ some (perform (on_host setup bytes) ps (some h), flash_ok))
      × Covers addr 0 length 1 0 ps
unfolding w25q128jw_write_quad
w25q128jw_write_quad-Covers setup addr bytes length h some_bytes fits =
    page_write_wrapper-Covers (on_host setup bytes) addr length 1 0 (some h) some_bytes fits
