-- ===== src/Flash/Dma/Refused.antt =====
-- The sends that the DMA refuses, and what becomes of the sends after one of fewer than four bytes.
use mathlib.Core.Option
use core_v_mini_mcu.Base.{
  ℕ, ◌/◌, ◌%◌, ◌<◌, ◌≡◌, ◌≢◌, ◌∙◌, refl, sym, ap, arith, Bool, true, false, Bool-cases, inl, inr,
  not, ltb, ◌==◌, ◌||◌, Option, none, some, List, [], ◌∷◌,
}
use core_v_mini_mcu.Dma.Config
use core_v_mini_mcu.Dma.Config.{is_critical}
use core_v_mini_mcu.Dma.Init.{dma_init}
use core_v_mini_mcu.Dma.Types.{World}
use core_v_mini_mcu.Dma.Validate.{dma_validate_transaction}
use core_v_mini_mcu.Flash.Dma.{Board, Wiring, Statics, set_send, dma_send_toflash, flash_error_dma}
use core_v_mini_mcu.Flash.Dma.Send.{send_flags, still_critical}
use core_v_mini_mcu.Flash.Dma.Static.{
  IsSend, init-IsSend, set_send-Prepared, dma_validate_transaction-Prepared, Prepared-IsSend,
}

-- The sends that the validation refuses.
abbrev pub refuses : ℕ → ℕ → ℕ → Bool
refuses data_ptr length flags = is_critical flags || ltb length 4 || not (data_ptr % 4 == 0)

-- Sends in sequence, each with the address and the length of its data, and their results.
unfoldable pub sends : Wiring → Statics → List (ℕ × ℕ) → Board → Option (Board × List ℕ)
unfolding dma_send_toflash
sends wiring v [] b = some (b, [])
sends wiring v ((data_ptr, length) ∷ later) b =
    Option.bind (dma_send_toflash wiring v data_ptr length b) (λ (r : Board × ℕ).
      Option.map (λ (rest : Board × List ℕ). (rest.0, r.1 ∷ rest.1)) (sends wiring v later r.0))

-- As many refusals as sends.
abbrev pub all_refused : List (ℕ × ℕ) → List ℕ
all_refused [] = []
all_refused (send ∷ later) = flash_error_dma ∷ all_refused later

sends-next :
    (wiring : Wiring) (v : Statics) (data_ptr length code : ℕ) (later : List (ℕ × ℕ))
    (b b1 b2 : Board) (codes : List ℕ)
    → dma_send_toflash wiring v data_ptr length b ≡ some (b1, code)
    → sends wiring v later b1 ≡ some (b2, codes)
    → sends wiring v ((data_ptr, length) ∷ later) b ≡ some (b2, code ∷ codes)
unfolding sends mathlib.Core.Option.bind
sends-next wiring v data_ptr length code later b b1 b2 codes first rest = rw (first, rest) refl

some_of : (a b c : Bool) → b ≡ true → (a || b || c) ≡ true
some_of a b c h = ground arith

either : (a b : Bool) → b ≡ true → (a || b) ≡ true
either a b h = ground arith

or_false : (a b : Bool) → (a || b) ≡ false → (a ≡ false) × (b ≡ false)
or_false a b h = ground arith

last_of : (a b c : Bool) → a ≡ false → b ≡ false → (a || b || not c) ≡ true → c ≡ false
last_of a b c ha hb h = ground arith

module _ (wiring : Wiring) (v : Statics) (apart : v.tgt_src ≢ v.tgt_dst) where
  send_flags-is_critical :
      (data_ptr length flags : ℕ)
      → is_critical (send_flags data_ptr (length / 4) flags) ≡ (is_critical flags || ltb length 4)
  send_flags-is_critical data_ptr length flags = elim (Bool-cases (is_critical flags)) [
    | inl critical ↦ rw critical (still_critical flags ∙ critical)
    | inr clear ↦ elim (Bool-cases (ltb length 4)) [
      | inl short ↦
          let none_left : (length / 4 == 0) ≡ true = ground (arith, short) in
          elim (Bool-cases (data_ptr % 4 == 0)) [
            | inl whole ↦ rw (clear, short, none_left, whole) refl
            | inr moved ↦ rw (clear, short, none_left, moved) refl
          ]
      | inr long ↦
          let some_left : (length / 4 == 0) ≡ false = ground (arith, long) in
          elim (Bool-cases (data_ptr % 4 == 0)) [
            | inl whole ↦ rw (clear, long, some_left, whole) refl
            | inr moved ↦ rw (clear, long, some_left, moved) refl
          ]
    ]
  ]

  send_flags-not_ok :
      (data_ptr length flags : ℕ)
      → refuses data_ptr length flags ≡ true
      → (send_flags data_ptr (length / 4) flags == Config.ok) ≡ false
  send_flags-not_ok data_ptr length flags refused =
      let found = send_flags data_ptr (length / 4) flags in
      let critical = send_flags-is_critical data_ptr length flags in
      elim (Bool-cases (found == Config.ok)) [
        | inr wrong ↦ wrong
        | inl fine ↦
            let zero_flags : found ≡ 0 = ground (arith, fine) in
            let harmless : is_critical found ≡ false = rw zero_flags refl in
            let (clear, long) =
              or_false (is_critical flags) (ltb length 4) (sym critical ∙ harmless) in
            let some_left : (length / 4 == 0) ≡ false = ground (arith, long) in
            let moved : (data_ptr % 4 == 0) ≡ false =
              last_of (is_critical flags) (ltb length 4) (data_ptr % 4 == 0) clear long refused in
            rw (clear, some_left, moved) refl
      ]

  -- A send is refused with an error if the critical flag is in its static transaction, if it has
  -- fewer than four bytes, or if its data is not at a multiple of four: nothing is sent and the
  -- memory stays, and the critical flag is then there if it was, or if the bytes were fewer than four.
  pub dma_send_toflash-refused :
      (data_ptr length flags : ℕ) (b : Board)
      → IsSend v b.world flags
      → refuses data_ptr length flags ≡ true
      → (w' : World) × (flags' : ℕ) × (dma_send_toflash wiring v data_ptr length b
          ≡ some (record { world = w'; host = b.host; memory = b.memory }, flash_error_dma))
        × IsSend v w' flags'
        × (is_critical flags' ≡ (is_critical flags || ltb length 4))
  unfolding dma_send_toflash
  dma_send_toflash-refused data_ptr length flags b h refused =
      let w0 = dma_init none wiring.integrated wiring.ch_num b.world in
      let w1 = set_send wiring v data_ptr length w0 in
      let checked = dma_validate_transaction w1 v.trans true true in
      let ready = init-IsSend wiring.integrated wiring.ch_num v b.world flags h in
      let (found, kept) =
        dma_validate_transaction-Prepared wiring v apart data_ptr length w1 flags
          (set_send-Prepared wiring v apart data_ptr length w0 flags ready) in
      let wrong : (checked.1 == Config.ok) ≡ false =
        rw found (send_flags-not_ok data_ptr length flags refused) in
      (
        checked.0,
        checked.1,
        rw wrong refl,
        Prepared-IsSend wiring v apart data_ptr length checked.0 checked.1 kept,
        ap is_critical found ∙ send_flags-is_critical data_ptr length flags,
      )

  sends-critical :
      (later : List (ℕ × ℕ)) (flags : ℕ) (b : Board)
      → IsSend v b.world flags
      → is_critical flags ≡ true
      → (w' : World) × (sends wiring v later b
          ≡ some (record { world = w'; host = b.host; memory = b.memory }, all_refused later))
  unfolding sends
  sends-critical [] flags b h critical = (b.world, refl)
  sends-critical ((data_ptr, length) ∷ later) flags b h critical =
      let (w1, flags1, refused, kept, still) =
        dma_send_toflash-refused data_ptr length flags b h (rw critical refl) in
      let b1 : Board = record { world = w1; host = b.host; memory = b.memory } in
      let (w2, rest) = sends-critical later flags1 b1 kept (still ∙ rw critical refl) in
      (
        w2,
        sends-next wiring v data_ptr length flash_error_dma later b b1
            (record { world = w2; host = b.host; memory = b.memory }) (all_refused later) refused
            rest,
      )

  -- After a send of fewer than four bytes every send with the same static variables is refused,
  -- whatever its data and its length: all of them return the error of the DMA, nothing is sent to
  -- the flash, and the memory stays.
  pub dma_send_toflash-stuck :
      (data_ptr length flags : ℕ) (later : List (ℕ × ℕ)) (b : Board)
      → IsSend v b.world flags
      → length < 4
      → (w' : World) × (sends wiring v ((data_ptr, length) ∷ later) b
          ≡ some (
            record { world = w'; host = b.host; memory = b.memory },
            flash_error_dma ∷ all_refused later,
          ))
  dma_send_toflash-stuck data_ptr length flags later b h short =
      let few : ltb length 4 ≡ true = ground (arith, short) in
      let (w1, flags1, refused, kept, critical) =
        dma_send_toflash-refused data_ptr length flags b h
          (some_of (is_critical flags) (ltb length 4) (not (data_ptr % 4 == 0)) few) in
      let b1 : Board = record { world = w1; host = b.host; memory = b.memory } in
      let (w2, rest) =
        sends-critical later flags1 b1 kept
          (critical ∙ either (is_critical flags) (ltb length 4) few) in
      (
        w2,
        sends-next wiring v data_ptr length flash_error_dma later b b1
            (record { world = w2; host = b.host; memory = b.memory }) (all_refused later) refused
            rest,
      )
