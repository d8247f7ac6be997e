-- ===== src/Examples/Update.antt =====
-- The driver of the flash at a host that answers at once, and its sends with the DMA.
use core_v_mini_mcu.Base.{
  ℕ, ◌+◌, ◌*◌, ◌/◌, ◌%◌, ◌≤◌, ◌≡◌, ◌≢◌, refl, arith, bit_or, bit_and, true, ltb, ◌==◌,
  if◌then◌else◌, none, some, List, [], ◌∷◌, ◌++◌, Gives,
}
use core_v_mini_mcu.Flash.{Setup, flash_ok, flash_error}
use core_v_mini_mcu.Dma.Types.{World, trig_memory}
use core_v_mini_mcu.Flash.Dma.{
  Board, Wiring, Statics, dma_send_toflash, finish_send, page_write_dma, flash_error_dma,
  trig_slot_spi_flash_tx,
}
use core_v_mini_mcu.Flash.Dma.Lost.{page_begins, page_data, page_write_dma-lost}
use core_v_mini_mcu.Flash.Dma.Static.{IsSend}
use core_v_mini_mcu.Flash.Dma.Refused.{sends, all_refused, dma_send_toflash-stuck}
use core_v_mini_mcu.Dma
use core_v_mini_mcu.Dma.Load.{is_ready}
use core_v_mini_mcu.Flash.Dma.Started.{dma_send_toflash-started}
use core_v_mini_mcu.Flash.Dma.Send.{send_source, send_sink, send_trans}
use core_v_mini_mcu.Flash.Erase.{flash_wait}
use core_v_mini_mcu.Flash.Init.{flash_clk_div, flash_clk_max_hz, set_qe_bit, fc_rsr2}
use core_v_mini_mcu.Flash.Init.Divider.{flash_clk_div-best}
use core_v_mini_mcu.Flash.Init.Enable.{ask, polls, writes, flash_wait-At, set_qe_bit_lem}
use core_v_mini_mcu.Flash.Read.{w25q128jw_read_standard, w25q128jw_read_quad}
use core_v_mini_mcu.Flash.Read.Answer.{Answers, Serves, At}
use core_v_mini_mcu.Flash.Read.Bytes.{Ends, standard_actions, quad_actions, w25q128jw_read-Ends}
use core_v_mini_mcu.Flash.Read.Commands.{sent_by, issued_by}
use core_v_mini_mcu.Flash.Update.{Buffer, erase_and_write}
use core_v_mini_mcu.Flash.Update.Sectors.{Part, MakeUp, rewrite_parts, erase_and_write-MakeUp}
use core_v_mini_mcu.Flash.Variants.{
  quad_calls, w25q128jw_erase_and_write_standard, w25q128jw_erase_and_write_quad,
}
use core_v_mini_mcu.Flash.Update.Last.{Succeeds, w25q128jw_erase_and_write-last}
use core_v_mini_mcu.SpiHost.{Host, Device, spi_get_status}
use core_v_mini_mcu.SpiHost.Reg
use core_v_mini_mcu.Bitfield.{bitfield_read}
use core_v_mini_mcu.SpiSdk.Slave.{clk_div}

abbrev text : Buffer
text i = i * 7 % 256

-- Every byte holds 0x5a.
abbrev marked : Buffer
marked j = 0x5a

-- A device that is ready and always has a word and its watermark.
abbrev serving : Device
serving h i = if i == Reg.status / 4 then 0x80100100 else h.regs i

abbrev served : Setup
served = record { device = serving; rounds = 3; byteswap32 = λ word. word }

serving-Answers : Answers 0x80100100
unfolding bitfield_read
serving-Answers = record { ready = refl; watermark = refl; some_word = refl; room = refl }

served-Serves : Serves served
unfolding spi_get_status
served-Serves = record { answers = λ h. serving-Answers; some_round = omega arith }

-- The words that come are odd up to the one at 2.
abbrev fresh : Host
fresh = record {
  regs = λ i. 0x80100100;
  sent = [];
  issued = [];
  incoming = λ i. if ltb i 2 then 0x0d else 0x0e;
  taken = 0;
}

fresh-Answers : Answers (spi_get_status fresh)
unfolding spi_get_status
fresh-Answers = serving-Answers

-- The update at quad speed of a range that starts in the first sector and ends in the third.
erase_and_write-MakeUp_example :
    (parts : List Part) × MakeUp 4000 0 5000 parts
    × ((h : Host) (sector : Buffer)
        → erase_and_write (quad_calls served) 4000 text 5000 h sector
          ≡ rewrite_parts (quad_calls served) text parts h sector)
erase_and_write-MakeUp_example =
    erase_and_write-MakeUp (quad_calls served) text 4000 5000 (omega arith) (omega arith)

w25q128jw_read-Ends_example :
    Gives
      (Ends served served-Serves (standard_actions served 0x1000 301) 301 fresh marked)
      (w25q128jw_read_standard served 0x1000 true 301 fresh marked)
    × Gives
        (Ends served served-Serves (quad_actions served 0x1000 301) 301 fresh marked)
        (w25q128jw_read_quad served 0x1000 true 301 fresh marked)
w25q128jw_read-Ends_example =
    w25q128jw_read-Ends served served-Serves 0x1000 301 fresh marked (omega arith) (omega arith)
      fresh-Answers

fresh-At : At [] [] fresh.incoming 0 fresh
fresh-At = record {
  answers = fresh-Answers;
  same_sent = refl;
  same_issued = refl;
  same_incoming = refl;
  same_taken = refl;
}

flash_wait-At_example :
    Gives
      (At ([] ++ sent_by (polls 3)) ([] ++ issued_by (polls 3)) fresh.incoming 3)
      (flash_wait served fresh)
flash_wait-At_example =
    flash_wait-At served served-Serves fresh.incoming 2 0 [] [] fresh (omega arith)
      (λ i le. ground (arith, le), refl) fresh-At

-- The second status register reads 0x0d and then 0x0e, with one busy word in between.
set_qe_bit_lem_example :
    Gives
      (λ (r : Host × ℕ).
        (r.1 ≡ (if bit_and 0x0e 2 == 0 then flash_error else flash_ok))
        × At
            ((([] ++ sent_by (ask fc_rsr2)) ++ sent_by (writes (bit_or 0x0d 2)))
              ++ sent_by (polls 2)
              ++ sent_by (ask fc_rsr2))
            ((([] ++ issued_by (ask fc_rsr2)) ++ issued_by (writes (bit_or 0x0d 2)))
              ++ issued_by (polls 2)
              ++ issued_by (ask fc_rsr2))
            fresh.incoming
            4
            r.0)
      (set_qe_bit served 0 fresh)
set_qe_bit_lem_example =
    set_qe_bit_lem served served-Serves 1 0 fresh (omega arith) (λ i le. ground (arith, le), refl)
      fresh-Answers

flash_clk_div-best_example :
    (flash_clk_div 500000000 ≡ clk_div 500000000 flash_clk_max_hz)
    × (500000000 / (2 * flash_clk_div 500000000 + 2) ≤ flash_clk_max_hz)
    × (500000000 / (2 * 1 + 2) ≤ 500000000 / (2 * flash_clk_div 500000000 + 2))
flash_clk_div-best_example = flash_clk_div-best 500000000 1 (omega arith) (omega arith)

-- The static variables of the sends are at 0, 1 and 2.
abbrev statics : Statics
statics = record { tgt_src = 0; tgt_dst = 1; trans = 2 }

abbrev at_start : World
at_start = record {
  targets = λ p. if p == 0 then send_source 0 else send_sink 0;
  transactions = λ p. send_trans 0 1 0 0 0 0 0;
  banks = λ peri i. 1;
  channels = λ i. record { trans = none; intr_flag = 0; peri = 0 };
  hp_tr_intr_counter = 0;
  hp_win_intr_counter = 0;
  mie = 0;
  mstatus = 0;
}

abbrev wired : Wiring
wired = record {
  setup = served;
  spi = 0x20000000;
  integrated = λ i. i;
  ch_num = 4;
  before = λ w. w;
  wfi = λ w. w;
  works = λ b. b;
}

abbrev powered : Board
powered = record { world = at_start; host = fresh; memory = text }

at_start-IsSend : IsSend statics at_start 0
at_start-IsSend = record {
  ptr = 0;
  src_trig = trig_memory;
  fifo = 0;
  dst_trig = trig_slot_spi_flash_tx;
  size_d1_du = 0;
  inc_b = 0;
  src_type = 0;
  dst_type = 0;
  same_src = refl;
  same_dst = refl;
  same_trans = refl;
}

statics_apart : statics.tgt_src ≢ statics.tgt_dst
statics_apart = omega arith

powered-ready : is_ready (powered.world.banks 0) ≡ true
unfolding is_ready
powered-ready = refl

-- Three bytes, and then two whole pages.
dma_send_toflash-stuck_example :
    (w' : World) × (sends wired statics ((0x1000, 3) ∷ (0x2000, 256) ∷ (0x3000, 256) ∷ []) powered
      ≡ some (
        record { world = w'; host = fresh; memory = text },
        flash_error_dma ∷ all_refused ((0x2000, 256) ∷ (0x3000, 256) ∷ []),
      ))
dma_send_toflash-stuck_example =
    dma_send_toflash-stuck wired statics statics_apart 0x1000 3 0
      ((0x2000, 256) ∷ (0x3000, 256) ∷ []) powered at_start-IsSend (omega arith)

page_write_dma-lost_example :
    Gives
      (λ (b' : Board).
        At
          (([] ++ sent_by (page_begins served 0x100 1)) ++ sent_by (polls 3))
          ((([] ++ issued_by (page_begins served 0x100 1)) ++ issued_by (page_data 3 1))
            ++ issued_by (polls 3))
          fresh.incoming
          3
          b'.host)
      (page_write_dma wired statics 0x100 0x1000 3 1 powered)
page_write_dma-lost_example =
    page_write_dma-lost wired statics statics_apart served-Serves 0x100 0x1000 3 1 0 2 0 [] []
      fresh.incoming powered at_start-IsSend refl (omega arith) (λ i le. ground (arith, le), refl)
      fresh-At

-- A whole page of data.
dma_send_toflash-started_example :
    (w' : World) × (dma_send_toflash wired statics 0x1000 256 powered
      ≡ finish_send wired 0x1000 256 (record { world = w'; host = fresh; memory = text }))
    × IsSend statics w' 0
    × ((w'.channels 0).trans ≡ some 2)
    × ((w'.channels 0).peri ≡ 0)
    × (w'.banks 0 (Dma.Reg.src_ptr / 4) ≡ 0x1000)
    × (w'.banks 0 (Dma.Reg.dst_ptr / 4) ≡ 0x20000000 + 0x2c)
    × (bitfield_read (w'.banks 0 (Dma.Reg.size_d1 / 4)) 0xffff 0 ≡ bit_and (256 / 4) 0xffff)
dma_send_toflash-started_example =
    dma_send_toflash-started wired statics statics_apart 0x1000 256 0 powered at_start-IsSend refl
      (omega arith) (omega arith) powered-ready (λ w. refl)

w25q128jw_erase_and_write-last_example :
    ¬ Succeeds (w25q128jw_erase_and_write_standard served 0xffe800 text 4096 fresh marked)
    × ¬ Succeeds (w25q128jw_erase_and_write_quad served 0xffe800 text 4096 fresh marked)
w25q128jw_erase_and_write-last_example =
    w25q128jw_erase_and_write-last served 0xffe800 4096 text fresh marked (omega arith)
      (omega arith) (omega arith)
