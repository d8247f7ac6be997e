-- ===== src/Flash/Dma/Lost.antt =====
-- A page write whose data the DMA refuses, on a host that answers at once.
use mathlib.Core.Option
use core_v_mini_mcu.Base.{
  ℕ, suc, ◌+◌, ◌<◌, ◌≡◌, ◌≢◌, refl, sym, subst, arith, sub32, true, false, Bool-cases, inl, inr,
  not, ◌==◌, if◌then◌else◌, Option, List, [], ◌∷◌, ◌++◌, append-nil, Gives, gives, Gives-bind,
  Gives-map,
}
use core_v_mini_mcu.Flash.{
  Setup, run, send, issue, with_addr, flash_write_enable, fc_we, fc_pp, fc_ppq,
}
use core_v_mini_mcu.Flash.Erase.{flash_wait}
use core_v_mini_mcu.Flash.Dma.{Board, Wiring, Statics, page_write_dma}
use core_v_mini_mcu.Flash.Dma.Refused.{refuses, dma_send_toflash-refused}
use core_v_mini_mcu.Flash.Dma.Static.{IsSend}
use core_v_mini_mcu.Flash.Init.Enable.{FreeAfter, polls, flash_wait-At}
use core_v_mini_mcu.Flash.Read.Answer.{Serves, At}
use core_v_mini_mcu.Flash.Read.Commands.{
  Action, word, segment, steps, sent_by, issued_by, run-At, run-append, run_then,
}
use core_v_mini_mcu.SpiHost.{Host}
use core_v_mini_mcu.SpiHost.Word.{spi_validate_cmd, dir_tx_only, speed_standard, speed_quad}

abbrev pub page_command : ℕ → ℕ
page_command quad = if not (quad == 0) then fc_ppq else fc_pp

abbrev pub page_speed : ℕ → ℕ
page_speed quad = if not (quad == 0) then speed_quad else speed_standard

-- What a page write does before its data.
abbrev pub page_begins : Setup → ℕ → ℕ → List Action
page_begins setup addr quad =
    word fc_we
    ∷ segment 0 false speed_standard dir_tx_only
    ∷ word (with_addr setup addr (page_command quad))
    ∷ segment 3 true speed_standard dir_tx_only
    ∷ []

-- The segment of the data.
abbrev pub page_data : ℕ → ℕ → List Action
page_data length quad = segment (sub32 length 1) false (page_speed quad) dir_tx_only ∷ []

page_speed-IsValid :
    (quad : ℕ) → (page_speed quad < 4) × (spi_validate_cmd dir_tx_only (page_speed quad) ≡ true)
unfolding spi_validate_cmd
page_speed-IsValid quad = elim (Bool-cases (quad == 0)) [
  | inl standard ↦ rw standard (omega arith, refl)
  | inr fast ↦ rw fast (omega arith, refl)
]

module _ (wiring : Wiring) (v : Statics) (apart : v.tgt_src ≢ v.tgt_dst)
    (serves : Serves wiring.setup) where
  begins-At :
      (addr quad taken : ℕ) (sent issued : List ℕ) (incoming : ℕ → ℕ) (h : Host)
      → At sent issued incoming taken h
      → Gives
          (At
            (sent ++ sent_by (page_begins wiring.setup addr quad))
            (issued ++ issued_by (page_begins wiring.setup addr quad))
            incoming
            taken)
          (run
            (flash_write_enable wiring.setup
              ∷ send wiring.setup (with_addr wiring.setup addr (page_command quad))
              ∷ issue wiring.setup 3 true speed_standard dir_tx_only
              ∷ [])
            h)
  unfolding run flash_write_enable spi_validate_cmd
  begins-At addr quad taken sent issued incoming h now =
      let setup = wiring.setup in
      let actions = page_begins setup addr quad in
      let enable : List Action = word fc_we ∷ segment 0 false speed_standard dir_tx_only ∷ [] in
      let rest : List Action =
        word (with_addr setup addr (page_command quad))
        ∷ segment 3 true speed_standard dir_tx_only
        ∷ [] in
      subst
        (λ (r : Option Host).
          Gives (At (sent ++ sent_by actions) (issued ++ issued_by actions) incoming taken) r)
        (run-append (steps setup enable) (steps setup rest) h)
        (run-At setup serves incoming taken actions sent issued h
          (omega arith, omega arith, refl, (omega arith, omega arith, refl, tt)) now)

  -- On a host that answers at once, a page write whose data the DMA refuses ends all the same, if
  -- a status word without the busy bit is among the rounds of its wait: it has sent the write
  -- enable and the command with the address, and issued the segment of the data, but none of the
  -- data was sent.
  pub page_write_dma-lost :
      (addr data_ptr length quad flags n taken : ℕ) (sent issued : List ℕ) (incoming : ℕ → ℕ)
      (b : Board)
      → IsSend v b.world flags
      → refuses data_ptr length flags ≡ true
      → n < wiring.setup.rounds
      → FreeAfter wiring.setup serves incoming taken n
      → At sent issued incoming taken b.host
      → let begins = page_begins wiring.setup addr quad in
        Gives
          (λ (b' : Board).
            At
              ((sent ++ sent_by begins) ++ sent_by (polls (suc n)))
              (((issued ++ issued_by begins) ++ issued_by (page_data length quad))
                ++ issued_by (polls (suc n)))
              incoming
              (taken + suc n)
              b'.host)
          (page_write_dma wiring v addr data_ptr length quad b)
  unfolding page_write_dma mathlib.Core.Option.bind
  page_write_dma-lost addr data_ptr length quad flags n taken sent issued incoming b h refused
        enough free now =
      let setup = wiring.setup in
      let begins = page_begins setup addr quad in
      let sent1 = sent ++ sent_by begins in
      let issued1 = issued ++ issued_by begins in
      let issued2 = issued1 ++ issued_by (page_data length quad) in
      let final =
        At (sent1 ++ sent_by (polls (suc n))) (issued2 ++ issued_by (polls (suc n))) incoming
          (taken + suc n) in
      let (fast, fits) = page_speed-IsValid quad in
      let begun = λ (b' : Board). (b'.world ≡ b.world) × At sent1 issued1 incoming taken b'.host in
      Gives-bind begun (λ (b' : Board). final b'.host)
        (Gives-map (At sent1 issued1 incoming taken) begun
          (begins-At addr quad taken sent issued incoming b.host now) (λ h1 next. (refl, next)))
        (λ b1 next.
          let (w', flags', lost, kept, critical) =
            dma_send_toflash-refused wiring v apart data_ptr length flags b1
              (subst (λ w. IsSend v w flags) (sym next.0) h) refused in
          rw lost (
            Gives-map final (λ (b' : Board). final b'.host)
              (run_then setup serves incoming taken (page_data length quad) (flash_wait setup ∷ [])
                sent1 issued1 final b1.host (fast, omega arith, fits, tt) next.1
                (λ h2 issued_data.
                  Gives-bind final final
                    (flash_wait-At setup serves incoming n taken sent1 issued2 h2 enough free (
                      subst (λ (s : List ℕ). At s issued2 incoming taken h2) (append-nil sent1)
                        issued_data))
                    (λ h3 done. gives done)))
              (λ h3 done. done)))
