-- ===== src/Flash/Pages.antt =====
-- The pages that a write is cut into.
use core_v_mini_mcu.Base.{
  ℕ, zero, suc, ◌+◌, ◌-◌, ◌%◌, ◌^◌, ◌≤◌, ◌<◌, ◌≡◌, refl, arith, ap, ◌∙◌, inl, inr, u32, Bool, true,
  false, ltb, Bool-cases, some, List, [], ◌∷◌,
}
use core_v_mini_mcu.Flash.{flash_page_size}
use core_v_mini_mcu.Flash.Write.{Page, page_loop}

-- The calls of a list, in order.
abbrev pub perform {ℓ} : {S : Type ℓ} → (Page → S → S) → List Page → S → S
perform write [] s = s
perform write (p ∷ ps) s = perform write ps (write p s)

-- Calls that write `length` bytes from `addr` on, one after the other, with the bytes of the buffer
-- from `place` on: none is empty, and none passes the end of its page of 256 bytes.
abbrev pub Covers : ℕ → ℕ → ℕ → ℕ → ℕ → List Page → Type 0
Covers addr place length speed dma [] = length ≡ 0
Covers addr place length speed dma (p ∷ ps) =
    (p ≡ record { addr = addr; place = place; len = p.len; speed = speed; dma = dma })
    × (0 < p.len)
    × (addr % 256 + p.len ≤ 256)
    × (p.len ≤ length)
    × Covers (addr + p.len) (place + p.len) (length - p.len) speed dma ps

page_loop-last {ℓ} :
    {S : Type ℓ} (write : Page → S → S) (rounds addr place length speed dma : ℕ) (s : S)
    → ltb flash_page_size length ≡ false
    → page_loop write (suc rounds) addr place length speed dma s
      ≡ some
          (write (record { addr = addr; place = place; len = length; speed = speed; dma = dma }) s)
unfolding page_loop
page_loop-last write rounds addr place length speed dma s short = rw (short, page_loop)

page_loop-more {ℓ} :
    {S : Type ℓ} (write : Page → S → S) (rounds addr place length speed dma : ℕ) (s : S)
    → ltb flash_page_size length ≡ true
    → page_loop write (suc rounds) addr place length speed dma s
      ≡ page_loop write rounds
          (u32 (addr + flash_page_size))
          (place + flash_page_size)
          (length - flash_page_size)
          speed
          dma
          (write
            (record { addr = addr; place = place; len = flash_page_size; speed = speed; dma = dma })
            s)
unfolding page_loop
page_loop-more write rounds addr place length speed dma s long =
    ap
      (λ (b : Bool). elim b [
        | true ↦
            page_loop write rounds (u32 (addr + flash_page_size)) (place + flash_page_size)
              (length - flash_page_size) speed dma
              (write
                (record {
                  addr = addr;
                  place = place;
                  len = flash_page_size;
                  speed = speed;
                  dma = dma;
                })
                s)
        | false ↦ some (
            write (record { addr = addr; place = place; len = length; speed = speed; dma = dma }) s)
      ])
      long

pub page_loop-Covers {ℓ} :
    {S : Type ℓ} (write : Page → S → S) (rounds addr place length speed dma : ℕ) (s : S)
    → length ≤ rounds
    → 0 < length
    → addr % 256 ≡ 0
    → addr + length < 2 ^ 32
    → (ps : List Page) × (page_loop write rounds addr place length speed dma s
        ≡ some (perform write ps s))
      × Covers addr place length speed dma ps
page_loop-Covers write zero addr place length speed dma s enough some_bytes aligned word =
    absurd (omega arith)
page_loop-Covers write (suc rounds) addr place length speed dma s enough some_bytes aligned word =
    elim (Bool-cases (ltb flash_page_size length)) [
      | inr short ↦ (
        record { addr = addr; place = place; len = length; speed = speed; dma = dma } ∷ [],
        page_loop-last write rounds addr place length speed dma s short,
        (refl, some_bytes, ground (arith, short), omega arith, omega arith),
      )
      | inl long ↦
          let page : Page = record {
            addr = addr;
            place = place;
            len = flash_page_size;
            speed = speed;
            dma = dma;
          } in
          let next : u32 (addr + flash_page_size) ≡ addr + flash_page_size = ground (arith, long) in
          let (ps, looped, covered) =
            page_loop-Covers write rounds (addr + flash_page_size) (place + flash_page_size)
              (length - flash_page_size) speed dma (write page s) (omega arith)
              (ground (arith, long)) (omega arith) (ground (arith, long)) in
          (
            page ∷ ps,
            page_loop-more write rounds addr place length speed dma s long
                ∙ ap
                    (λ (a : ℕ).
                      page_loop write rounds a (place + flash_page_size) (length - flash_page_size)
                        speed dma (write page s))
                    next
                ∙ looped,
            (refl, omega arith, omega arith, ground (arith, long), covered),
          )
    ]
