-- ===== src/Flash/Dma.antt =====
-- w25q.c: the reads and the writes that move their data with the DMA. USE_SPI_FLASH is defined, since
-- TARGET_SIM is not. The words that the DMA moves are the hardware's work.
pub mod Send
pub mod Static
pub mod Refused
pub mod Lost
pub mod Loaded
pub mod Started
pub mod Whole
use mathlib.Core.Option
use core_v_mini_mcu.Base.{
  ℕ, zero, suc, ◌+◌, ◌-◌, ◌*◌, ◌/◌, ◌%◌, sub32, u32, Bool, true, false, not, ◌&&◌, leb, ltb, ◌==◌,
  if◌then◌else◌, Option, none, some, [], ◌∷◌,
}
use core_v_mini_mcu.Dma.Config
use core_v_mini_mcu.Dma.Init.{dma_init}
use core_v_mini_mcu.Dma.Launch.{dma_launch}
use core_v_mini_mcu.Dma.Load.{dma_is_ready, dma_load_transaction}
use core_v_mini_mcu.Dma.Types.{Target, Trans, World, trig_memory}
use core_v_mini_mcu.Dma.Validate.{dma_validate_transaction}
use core_v_mini_mcu.Flash.{
  Setup, Step, run, send, issue, wait_for_ready, wait_for_tx_not_full, with_addr,
  flash_write_enable, fc_pp, fc_ppq, flash_ok, flash_error,
}
use core_v_mini_mcu.Flash.Erase.{flash_wait, response}
use core_v_mini_mcu.Flash.Read.{fc_rd, byte_of, quad_commands, read_back}
use core_v_mini_mcu.Flash.Update.{Buffer, copied}
use core_v_mini_mcu.Flash.Write.{Page, last_word, page_write_wrapper, w25q128jw_sanity_checks}
use core_v_mini_mcu.Mmio.{update}
use core_v_mini_mcu.SpiHost.{Host, spi_read_word}
use core_v_mini_mcu.SpiHost.Word.{dir_rx_only, dir_tx_only, speed_standard, speed_quad}

abbrev pub flash_error_dma : ℕ
flash_error_dma = 2

abbrev pub trig_slot_spi_flash_rx : ℕ
trig_slot_spi_flash_rx = 4

abbrev pub trig_slot_spi_flash_tx : ℕ
trig_slot_spi_flash_tx = 8

abbrev pub rxdata_offset : ℕ
rxdata_offset = 0x28

abbrev pub txdata_offset : ℕ
txdata_offset = 0x2c

-- The DMA with its driver, the SPI host, and the bytes of the RAM.
pub record Board : Type 0 where
  pub world : World
  pub host : Host
  pub memory : Buffer

-- What the functions run on: the SPI host and the address of its registers, the peripherals of the
-- DMA's channels, what the interrupts do around a launch, and what the hardware does between two
-- reads of the DMA's status.
pub record Wiring : Type 0 where
  pub setup : Setup
  pub spi : ℕ
  pub integrated : ℕ → ℕ
  pub ch_num : ℕ
  pub before : World → World
  pub wfi : World → World
  pub works : Board → Board

-- The addresses of the `static` variables of a function, which keep what they hold from one call to
-- the next.
pub record Statics : Type 0 where
  pub tgt_src : ℕ
  pub tgt_dst : ℕ
  pub trans : ℕ

abbrev pub set_target : ℕ → (Target → Target) → World → World
set_target p change w = record w { targets = update w.targets p (change (w.targets p)) }

-- `trans.size_d1_du = length>>2`
abbrev pub set_size : ℕ → ℕ → World → World
set_size p length w = record w {
  transactions = update w.transactions p (record (w.transactions p) { size_d1_du = length / 4 });
}

-- The variables of a send.
abbrev pub set_send : Wiring → Statics → ℕ → ℕ → World → World
set_send wiring v data_ptr length w = set_size v.trans length (
    set_target v.tgt_dst
      (λ t. record t { trig = trig_slot_spi_flash_tx; ptr = wiring.spi + txdata_offset })
      (set_target v.tgt_src (λ t. record t { ptr = data_ptr; trig = trig_memory }) w))

-- The variables of a read.
abbrev pub set_receive : Wiring → Statics → ℕ → ℕ → World → World
set_receive wiring v data_ptr length w = set_size v.trans length (
    set_target v.tgt_dst (λ t. record t { ptr = data_ptr })
      (set_target v.tgt_src
        (λ t. record t { ptr = wiring.spi + rxdata_offset; trig = trig_slot_spi_flash_rx }) w))

-- `while(!dma_is_ready(0));`. `none` means that it still runs after the rounds that it is given.
unfoldable pub dma_wait : (Board → Board) → ℕ → Board → Option Board
unfolding dma_is_ready
dma_wait works zero b = none
dma_wait works (suc rounds) b = elim (dma_is_ready b.world 0) [
  | true ↦ some b
  | false ↦ dma_wait works rounds (works b)
]

abbrev pub bytes_from : Buffer → ℕ → Buffer
bytes_from memory data_ptr i = memory (data_ptr + i)

-- The end of a send: the wait for the DMA and the bytes past the last whole word.
unfoldable pub finish_send : Wiring → ℕ → ℕ → Board → Option (Board × ℕ)
unfolding dma_wait run
finish_send wiring data_ptr length b =
    Option.bind (dma_wait wiring.works wiring.setup.rounds b) (λ (b1 : Board).
      if length % 4 == 0
      then some (b1, flash_ok)
      else Option.map (λ (h : Host). (record b1 { host = h }, flash_ok))
          (run
            (wait_for_tx_not_full wiring.setup
              ∷ send wiring.setup (last_word (bytes_from b1.memory data_ptr) length)
              ∷ [])
            b1.host))

unfoldable pub dma_send_toflash : Wiring → Statics → ℕ → ℕ → Board → Option (Board × ℕ)
unfolding dma_init dma_validate_transaction dma_load_transaction dma_launch finish_send
dma_send_toflash wiring v data_ptr length b =
    let w1 =
      set_send wiring v data_ptr length (dma_init none wiring.integrated wiring.ch_num b.world) in
    let (w2, validated) = dma_validate_transaction w1 v.trans true true in
    if not (validated == Config.ok)
    then some (record b { world = w2 }, flash_error_dma)
    else (let (w3, loaded) = dma_load_transaction w2 v.trans in
        if not (loaded == Config.ok)
        then some (record b { world = w3 }, flash_error_dma)
        else elim (dma_launch wiring.before wiring.wfi wiring.setup.rounds w3 v.trans) [
          | none ↦ none
          | some (w4, launched) ↦
              if not (launched == Config.ok)
              then some (record b { world = w4 }, flash_error_dma)
              else finish_send wiring data_ptr length (record b { world = w4 })
        ])

-- The three calls of a read on its transaction; their results are not looked at.
unfoldable pub dma_receive : Wiring → Statics → ℕ → ℕ → Board → Option Board
unfolding dma_validate_transaction dma_load_transaction dma_launch
dma_receive wiring v data_ptr length b =
    let (w1, validated) =
      dma_validate_transaction (set_receive wiring v data_ptr length b.world) v.trans true true in
    let (w2, loaded) = dma_load_transaction w1 v.trans in
    Option.map (λ (r : World × ℕ). record b { world = r.0 })
      (dma_launch wiring.before wiring.wfi wiring.setup.rounds w2 v.trans)

-- Steps of the driver on the SPI host.
abbrev pub on_board : Step → Board → Option Board
on_board step b = Option.map (λ (h : Host). record b { host = h }) (step b.host)

abbrev pub initialised : Wiring → Board → Board
unfolding dma_init
initialised wiring b = record b { world = dma_init none wiring.integrated wiring.ch_num b.world }

-- The bytes past the last whole word of a read.
unfoldable pub read_last : Wiring → ℕ → ℕ → Board → Board
unfolding spi_read_word
read_last wiring data_ptr length b =
    if length % 4 == 0
    then b
    else (let ((h1, word), flag) = spi_read_word wiring.setup.device b.host in
        record b {
          host = h1;
          memory =
              copied b.memory (data_ptr + (length - length % 4)) (byte_of (response word 0))
                (length % 4);
        })

unfoldable pub w25q128jw_wait_quad_dma_async : Wiring → ℕ → ℕ → Board → Option Board
unfolding dma_wait read_last
w25q128jw_wait_quad_dma_async wiring data_ptr length b =
    Option.map (read_last wiring data_ptr length) (dma_wait wiring.works wiring.setup.rounds b)

unfoldable pub standard_commands : Setup → ℕ → ℕ → Step
unfolding run
standard_commands setup addr length = run (
    send setup (with_addr setup addr fc_rd)
    ∷ wait_for_ready setup
    ∷ issue setup 3 true speed_standard dir_tx_only
    ∷ issue setup (sub32 length 1) false speed_standard dir_rx_only
    ∷ [])

abbrev pub in_range : ℕ → ℕ → ℕ → Bool
unfolding w25q128jw_sanity_checks
in_range addr data_ptr length =
    w25q128jw_sanity_checks addr (not (data_ptr == 0)) length == flash_ok

unfoldable pub w25q128jw_read_standard_dma :
    Wiring → Statics → ℕ → ℕ → ℕ → ℕ → ℕ → Board → Option (Board × ℕ)
unfolding dma_receive standard_commands dma_wait read_last
w25q128jw_read_standard_dma wiring v addr data_ptr length no_wait_init_dma no_sanity_checks b =
    if no_sanity_checks == 0 && not (in_range addr data_ptr length)
    then some (b, flash_error)
    else Option.bind
        (dma_receive wiring v data_ptr length
          (if no_wait_init_dma == 0 then initialised wiring b else b))
        (λ (b1 : Board).
          Option.bind (on_board (standard_commands wiring.setup addr length) b1) (λ (b2 : Board).
            Option.map (λ (b3 : Board). (read_last wiring data_ptr length b3, flash_ok))
              (if no_wait_init_dma == 0
                then dma_wait wiring.works wiring.setup.rounds b2
                else some b2)))

-- Its transaction ends with an interrupt, which is in its static variable.
unfoldable pub w25q128jw_read_standard_dma_async :
    Wiring → Statics → ℕ → ℕ → ℕ → Board → Option (Board × ℕ)
unfolding dma_receive standard_commands
w25q128jw_read_standard_dma_async wiring v addr data_ptr length b =
    if not (in_range addr data_ptr length)
    then some (b, flash_error)
    else if not (length % 4 == 0)
    then some (b, flash_error)
    else Option.map (λ (b2 : Board). (b2, flash_ok))
        (Option.bind (dma_receive wiring v data_ptr length (initialised wiring b))
          (on_board (standard_commands wiring.setup addr length)))

unfoldable pub w25q128jw_read_quad_dma_async :
    Wiring → Statics → ℕ → ℕ → ℕ → Board → Option (Board × ℕ)
unfolding quad_commands dma_receive
w25q128jw_read_quad_dma_async wiring v addr data_ptr length b =
    if not (in_range addr data_ptr length)
    then some (b, flash_error)
    else Option.bind (on_board (quad_commands wiring.setup addr length) b) (λ (b1 : Board).
      Option.map (λ (b2 : Board). (b2, flash_ok))
        (dma_receive wiring v data_ptr length (initialised wiring b1)))

unfoldable pub w25q128jw_read_quad_dma : Wiring → Statics → ℕ → ℕ → ℕ → Board → Option (Board × ℕ)
unfolding quad_commands dma_receive dma_wait read_last
w25q128jw_read_quad_dma wiring v addr data_ptr length b =
    if not (in_range addr data_ptr length)
    then some (b, flash_error)
    else Option.bind (on_board (quad_commands wiring.setup addr length) b) (λ (b1 : Board).
      Option.bind (dma_receive wiring v data_ptr length (initialised wiring b1)) (λ (b2 : Board).
        Option.map (λ (b3 : Board). (read_last wiring data_ptr length b3, flash_ok))
          (dma_wait wiring.works wiring.setup.rounds b2)))

-- `page_write` with the DMA, whose result is not looked at.
unfoldable pub page_write_dma : Wiring → Statics → ℕ → ℕ → ℕ → ℕ → Board → Option Board
unfolding run flash_write_enable flash_wait dma_send_toflash
page_write_dma wiring v addr data_ptr length quad b =
    let setup = wiring.setup in
    let command = if not (quad == 0) then fc_ppq else fc_pp in
    let speed = if not (quad == 0) then speed_quad else speed_standard in
    Option.bind
      (on_board
        (run (
          flash_write_enable setup
          ∷ send setup (with_addr setup addr command)
          ∷ issue setup 3 true speed_standard dir_tx_only
          ∷ []))
        b)
      (λ (b1 : Board).
        Option.bind (dma_send_toflash wiring v data_ptr length b1) (λ (r : Board × ℕ).
          on_board
            (run (issue setup (sub32 length 1) false speed dir_tx_only ∷ flash_wait setup ∷ []))
            r.0))

abbrev pub on_dma : Wiring → Statics → ℕ → Page → Option Board → Option Board
unfolding page_write_dma
on_dma wiring v data_ptr page s =
    Option.bind s (page_write_dma wiring v page.addr (data_ptr + page.place) page.len page.speed)

-- A write with the DMA, whose speed is `quad`.
unfoldable pub write_dma : Wiring → Statics → ℕ → ℕ → ℕ → ℕ → Board → Option (Option Board × ℕ)
unfolding page_write_wrapper page_write_dma
write_dma wiring v quad addr data_ptr length b =
    page_write_wrapper (on_dma wiring v data_ptr) addr (not (data_ptr == 0)) length quad 1 (some b)

unfoldable pub w25q128jw_write_standard_dma :
    Wiring → Statics → ℕ → ℕ → ℕ → Board → Option (Option Board × ℕ)
unfolding write_dma
w25q128jw_write_standard_dma wiring v addr data_ptr length b =
    write_dma wiring v 0 addr data_ptr length b

unfoldable pub w25q128jw_write_quad_dma :
    Wiring → Statics → ℕ → ℕ → ℕ → Board → Option (Option Board × ℕ)
unfolding write_dma
w25q128jw_write_quad_dma wiring v addr data_ptr length b =
    write_dma wiring v 1 addr data_ptr length b

abbrev pub flattened : Option (Option Board × ℕ) → Option (Board × ℕ)
flattened written =
    Option.bind written (λ (r : Option Board × ℕ). Option.map (λ (b : Board). (b, r.1)) r.0)
