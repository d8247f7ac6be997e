-- ===== src/Dma/Init/Laws.antt =====
-- Every channel after `dma_init`.
use core_v_mini_mcu.Base.{
  ℕ, zero, suc, ◌/◌, ◌+◌, ◌≤◌, ◌<◌, ◌≡◌, ◌≢◌, refl, arith, Bool, true, false, ◌||◌, ◌==◌,
  if◌then◌else◌, ◌∙◌, ap, Option, none, List, [], ◌∷◌, ℕ_discrete,
}
use core_v_mini_mcu.Dma.Types.{World, Channel}
use core_v_mini_mcu.Dma.Init.{cleared_registers, clear, peri_of, init_channel, init_loop, dma_init}
use core_v_mini_mcu.Mmio.{Region, update, mmio_region_write32}
use core_v_mini_mcu.Mmio.Laws.{update_self, update-other}

-- Whether the word `j` is one of the registers.
unfoldable pub listed : List ℕ → ℕ → Bool
listed [] j = false
listed (offset ∷ offsets) j = j == offset / 4 || listed offsets j

clear_lem :
    (offsets : List ℕ) (r : Region) (j : ℕ)
    → clear offsets r j ≡ (if listed offsets j then 0 else r j)
unfolding clear listed
clear_lem [] r j = refl
clear_lem (offset ∷ offsets) r j =
    ground (arith, clear_lem offsets (mmio_region_write32 r offset 0) j)

clear-listed :
    (offsets : List ℕ) (r : Region) (j : ℕ) → listed offsets j ≡ true → clear offsets r j ≡ 0
clear-listed offsets r j h = rw (clear_lem offsets r j) (rw h refl)

clear_zero : (offsets : List ℕ) (r : Region) (j : ℕ) → r j ≡ 0 → clear offsets r j ≡ 0
clear_zero offsets r j h = ground (arith, clear_lem offsets r j)

-- The words of the registers up to the interrupt enable, at 0x5c, but for the status, at 0x14, and the
-- window count, at 0x58.
abbrev pub IsCleared : ℕ → Type 0
IsCleared j = (j ≤ 0x5c / 4) × (j ≢ 0x14 / 4) × (j ≢ 0x58 / 4)

IsCleared-listed : (j : ℕ) → IsCleared j → listed cleared_registers j ≡ true
unfolding listed
IsCleared-listed j h = ground arith

-- A channel that is initialised, with its peripheral.
abbrev pub IsReset : World → ℕ → ℕ → Type 0
IsReset w i peri =
    ((w.channels i).trans ≡ none)
    × ((w.channels i).peri ≡ peri)
    × ((j : ℕ) → IsCleared j → w.banks peri j ≡ 0)

cleared_bank :
    (p peri j : ℕ) (w : World)
    → w.banks peri j ≡ 0
    → Dec (peri ≡ p)
    → update w.banks p (clear cleared_registers (w.banks p)) peri j ≡ 0
cleared_bank p peri j w h (yes e) =
    let same : w.banks p j ≡ 0 = rw (← e) h in
    let bank = update_self w.banks p (clear cleared_registers (w.banks p)) in
    rw e (ap (λ (x : Region). x j) bank ∙ clear_zero cleared_registers (w.banks p) j same)
cleared_bank p peri j w h (no ne) =
    ap (λ (x : Region). x j) (update-other w.banks p (clear cleared_registers (w.banks p)) peri ne)
    ∙ h

module _ (given : Option ℕ) (integrated : ℕ → ℕ) where
  init_channel-IsReset :
      (i : ℕ) (w : World)
      → IsReset (init_channel given integrated i w) i (peri_of given integrated i)
  unfolding init_channel
  init_channel-IsReset i w =
      let p = peri_of given integrated i in
      let c = record (w.channels i) { trans = none; peri = p } in
      let written = update_self w.channels i c in
      let bank = update_self w.banks p (clear cleared_registers (w.banks p)) in
      (
        ap (λ (x : Channel). x.trans) written,
        ap (λ (x : Channel). x.peri) written,
        λ j hj.
            ap (λ (x : Region). x j) bank
            ∙ clear-listed cleared_registers (w.banks p) j (IsCleared-listed j hj),
      )

  init_channel-keeps :
      (i : ℕ) (w : World) (k peri : ℕ)
      → k ≢ i
      → IsReset w k peri
      → IsReset (init_channel given integrated i w) k peri
  unfolding init_channel
  init_channel-keeps i w k peri ne h =
      let p = peri_of given integrated i in
      let c = record (w.channels i) { trans = none; peri = p } in
      let untouched = update-other w.channels i c k ne in
      (
        ap (λ (x : Channel). x.trans) untouched ∙ h.0,
        ap (λ (x : Channel). x.peri) untouched ∙ h.1,
        λ j hj. cleared_bank p peri j w (h.2 j hj) (ℕ_discrete peri p),
      )

  init_loop-keeps :
      (left i : ℕ) (w : World) (k peri : ℕ)
      → k < i
      → IsReset w k peri
      → IsReset (init_loop given integrated left i w) k peri
  unfolding init_loop
  init_loop-keeps zero i w k peri below h = h
  init_loop-keeps (suc left) i w k peri below h =
      init_loop-keeps left (i + 1) (init_channel given integrated i w) k peri (omega arith)
        (init_channel-keeps i w k peri (omega arith) h)

  init_loop-IsReset :
      (left i : ℕ) (w : World) (k : ℕ)
      → i ≤ k
      → k < i + left
      → IsReset (init_loop given integrated left i w) k (peri_of given integrated k)
  unfolding init_loop
  init_loop-IsReset zero i w k from below = absurd (omega arith)
  init_loop-IsReset (suc left) i w k from below = elim (ℕ_discrete k i) [
    | yes e ↦ rw e (
        init_loop-keeps left (i + 1) (init_channel given integrated i w) i
          (peri_of given integrated i) (omega arith) (init_channel-IsReset i w))
    | no ne ↦
        init_loop-IsReset left (i + 1) (init_channel given integrated i w) k (omega arith)
          (omega arith)
  ]

-- After the initialisation each of the channels has no transaction, has the given or its own peripheral,
-- and reads 0 from each of the registers up to the interrupt enable but for the status and the window
-- count, also where channels share a peripheral.
pub dma_init-IsReset :
    (given : Option ℕ) (integrated : ℕ → ℕ) (ch_num : ℕ) (w : World) (k : ℕ)
    → k < ch_num
    → IsReset (dma_init given integrated ch_num w) k (peri_of given integrated k)
unfolding dma_init
dma_init-IsReset given integrated ch_num w k below =
    init_loop-IsReset given integrated ch_num 0 w k (omega arith) (omega arith)
