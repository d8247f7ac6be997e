-- ===== src/Flash/Write.antt =====
-- w25q.c: the checks of a range of the flash, and the writes of its pages.
use mathlib.Core.Option
use core_v_mini_mcu.Base.{
  ℕ, zero, suc, ◌+◌, ◌-◌, ◌*◌, ◌/◌, ◌%◌, ◌^◌, u8, u32, sub32, Bool, true, false, not, ltb, ◌==◌,
  if◌then◌else◌, Option, none, some, [], ◌∷◌,
}
use core_v_mini_mcu.Flash.{
  Setup, Step, run, send, issue, wait_for_tx_not_full, with_addr, flash_write_enable, fc_pp, fc_ppq,
  flash_ok, flash_error, flash_page_size, max_flash_addr,
}
use core_v_mini_mcu.Flash.Erase.{flash_wait}
use core_v_mini_mcu.SpiHost.{Host}
use core_v_mini_mcu.SpiHost.Word.{dir_tx_only, speed_standard, speed_quad}

-- `addr + length` is of 32 bits.
unfoldable pub w25q128jw_sanity_checks : ℕ → Bool → ℕ → ℕ
w25q128jw_sanity_checks addr data_there length =
    if ltb max_flash_addr addr
    then flash_error
    else if not data_there
    then flash_error
    else if length == 0
    then flash_error
    else if ltb max_flash_addr (u32 (addr + length))
    then flash_error
    else flash_ok

-- `MIN`, on `int32_t`: the order is that of the words with the highest bit turned.
abbrev pub min32 : ℕ → ℕ → ℕ
min32 a b = if ltb (u32 (a + 2 ^ 31)) (u32 (b + 2 ^ 31)) then a else b

-- A word of four bytes of a buffer, the lowest first.
abbrev pub word_at : (ℕ → ℕ) → ℕ → ℕ
word_at bytes i = bytes i + bytes (i + 1) * 2 ^ 8 + bytes (i + 2) * 2 ^ 16 + bytes (i + 3) * 2 ^ 24

-- The bytes past the last whole word, in a word of their own.
abbrev pub last_word : (ℕ → ℕ) → ℕ → ℕ
last_word bytes length =
    let at = length - length % 4 in
    bytes at
    + (if ltb 1 (length % 4) then bytes (at + 1) * 2 ^ 8 else 0)
    + (if ltb 2 (length % 4) then bytes (at + 2) * 2 ^ 16 else 0)

-- The loop over the whole words, with the number of those left.
unfoldable pub send_words : Setup → (ℕ → ℕ) → ℕ → ℕ → Step
send_words setup bytes zero i h = some h
send_words setup bytes (suc left) i h = Option.bind (wait_for_tx_not_full setup h) (λ (h1 : Host).
    Option.bind (send setup (word_at bytes (4 * i)) h1) (send_words setup bytes left (i + 1)))

-- The branch that sends the data without the DMA.
unfoldable pub send_data : Setup → (ℕ → ℕ) → ℕ → Step
unfolding run send_words
send_data setup bytes length h =
    Option.bind (send_words setup bytes (length / 4) 0 h) (λ (h1 : Host).
      if length % 4 == 0
      then some h1
      else run (wait_for_tx_not_full setup ∷ send setup (last_word bytes length) ∷ []) h1)

unfoldable pub page_write : Setup → ℕ → (ℕ → ℕ) → ℕ → ℕ → Step
unfolding run send_data
page_write setup addr bytes length quad = run (
    flash_write_enable setup
    ∷ send setup (with_addr setup addr (if not (quad == 0) then fc_ppq else fc_pp))
    ∷ issue setup 3 true speed_standard dir_tx_only
    ∷ send_data setup bytes length
    ∷ issue setup (sub32 length 1) false (if not (quad == 0) then speed_quad else speed_standard)
        dir_tx_only
    ∷ flash_wait setup
    ∷ [])

-- A call of `page_write`: its address, the place of its data in the buffer, its length and its two
-- flags.
pub record Page : Type 0 where
  pub addr : ℕ
  pub place : ℕ
  pub len : ℕ
  pub speed : ℕ
  pub dma : ℕ

-- The loop over the pages, in which `write` is the call of `page_write`. `none` means that the loop
-- still runs after the rounds that it is given.
unfoldable pub page_loop {ℓ} : {S : Type ℓ} → (Page → S → S) → ℕ → ℕ → ℕ → ℕ → ℕ → ℕ → S → Option S
page_loop write zero addr place length speed dma s = none
page_loop write (suc rounds) addr place length speed dma s = elim (ltb flash_page_size length) [
  | true ↦
      page_loop write rounds (u32 (addr + flash_page_size)) (place + flash_page_size)
        (length - flash_page_size) speed dma
        (write
          (record { addr = addr; place = place; len = flash_page_size; speed = speed; dma = dma })
          s)
  | false ↦
      some (write (record { addr = addr; place = place; len = length; speed = speed; dma = dma }) s)
]

-- The length of the first page, which is kept in eight bits, for an address that is not aligned.
abbrev pub first_len : ℕ → ℕ → ℕ
first_len addr length = u8 (min32 (u8 (flash_page_size - addr % flash_page_size)) length)

unfoldable pub page_write_wrapper {ℓ} :
    {S : Type ℓ} → (Page → S → S) → ℕ → Bool → ℕ → ℕ → ℕ → S → Option (S × ℕ)
unfolding page_loop w25q128jw_sanity_checks
page_write_wrapper {S = S} write addr data_there length quad dma s =
    let speed = if quad == 1 then 1 else 0 in
    let dma_flag = if dma == 1 then 1 else 0 in
    let aligned = addr % flash_page_size == 0 in
    let tmp_len = if aligned then 0 else first_len addr length in
    let head : Page = record {
      addr = addr;
      place = 0;
      len = tmp_len;
      speed = speed;
      dma = dma_flag;
    } in
    let begun : S = if aligned then s else write head s in
    let rest = sub32 length tmp_len in
    if not (w25q128jw_sanity_checks addr data_there length == flash_ok)
    then some (s, flash_error)
    else if rest == 0
    then some (begun, flash_ok)
    else Option.map (λ (final : S). (final, flash_ok))
        (page_loop write rest (u32 (addr + tmp_len)) tmp_len rest speed dma_flag begun)

-- The pages on the host: a page write that does not return ends the call.
abbrev pub on_host : Setup → (ℕ → ℕ) → Page → Option Host → Option Host
on_host setup bytes page s =
    Option.bind s (page_write setup page.addr (λ i. bytes (page.place + i)) page.len page.speed)

unfoldable pub w25q128jw_write_standard : Setup → ℕ → (ℕ → ℕ) → ℕ → Host → Option (Option Host × ℕ)
unfolding page_write_wrapper page_write
w25q128jw_write_standard setup addr bytes length h =
    page_write_wrapper (on_host setup bytes) addr true length 0 0 (some h)

unfoldable pub w25q128jw_write_quad : Setup → ℕ → (ℕ → ℕ) → ℕ → Host → Option (Option Host × ℕ)
unfolding page_write_wrapper page_write
w25q128jw_write_quad setup addr bytes length h =
    page_write_wrapper (on_host setup bytes) addr true length 1 0 (some h)
