-- ===== src/SpiSdk/Exchange.antt =====
-- spi_sdk.c: the exported functions that start a transfer, and those that wait for its end. A transfer
-- for which no buffer is given has `none` or `false` for it.
pub mod Prepare
pub mod Launch
use core_v_mini_mcu.Base.{
  ℕ, ◌+◌, bit_or, u8, Bool, true, false, not, ◌==◌, if◌then◌else◌, Option, none, some,
}
use mathlib.Core.Option
use core_v_mini_mcu.SpiHost.{Host}
use core_v_mini_mcu.SpiSdk.Code
use core_v_mini_mcu.SpiSdk.Segments.{Counted, len_words, spi_validate_segments}
use core_v_mini_mcu.SpiSdk.Slave.{spi_set_slave}
use core_v_mini_mcu.SpiSdk.Transfer.{spi_launch, spi_wait_transaction_done}
use core_v_mini_mcu.SpiSdk.Types.{Segment, SpiT, Peri, Txn, Callbacks, Env, null_callbacks, is_busy}
use core_v_mini_mcu.SpiSdk.Api.{Sdk, store, invalid_len, spi_check_valid}

-- `spi_mode_e`
abbrev pub mode_rx_std : ℕ
mode_rx_std = 1

abbrev pub mode_tx_std : ℕ
mode_tx_std = 2

abbrev pub mode_bidir : ℕ
mode_bidir = 3

-- The new state and the code.
unfoldable pub spi_prepare_transfer : Env → SpiT → Sdk → Sdk × ℕ
unfolding spi_check_valid spi_set_slave
spi_prepare_transfer env spi sdk =
    let error = spi_check_valid spi in
    let p = sdk.peripherals spi.idx in
    let (q, slave_error) = spi_set_slave env.sys_freq spi p in
    if not (error == 0)
    then (sdk, error)
    else if is_busy p.state
    then (sdk, Code.is_busy)
    else if env.active p.host
    then (sdk, Code.not_idle)
    else if not (spi.id == p.last_id)
    then (store spi.idx q sdk, slave_error)
    else (sdk, Code.ok)

-- The check that the length is added to.
unfoldable pub prepare_len : Env → SpiT → ℕ → Sdk → Sdk × ℕ
unfolding spi_prepare_transfer
prepare_len env spi len sdk =
    let (prepared, error) = spi_prepare_transfer env spi sdk in
    (prepared, if invalid_len len then bit_or error Code.txn_len_inval else error)

-- `SPI_TXN_TX`, `SPI_TXN_RX` and `SPI_TXN_BIDIR`, with their one segment
abbrev pub txn_tx : (ℕ → ℕ) → ℕ → Txn
txn_tx src_buffer len = record {
  segments = some (λ i. record { len = len; mode = mode_tx_std });
  seglen = 1;
  txbuffer = some src_buffer;
  txlen = len_words len;
  rxbuffer = false;
  rxlen = 0;
}

abbrev pub txn_rx : ℕ → Txn
txn_rx len = record {
  segments = some (λ i. record { len = len; mode = mode_rx_std });
  seglen = 1;
  txbuffer = none;
  txlen = 0;
  rxbuffer = true;
  rxlen = len_words len;
}

abbrev pub txn_bidir : (ℕ → ℕ) → ℕ → Txn
txn_bidir src_buffer len = record {
  segments = some (λ i. record { len = len; mode = mode_bidir });
  seglen = 1;
  txbuffer = some src_buffer;
  txlen = len_words len;
  rxbuffer = true;
  rxlen = len_words len;
}

-- `SPI_TXN`, with the lengths that `spi_validate_segments` counts; the number of segments is kept in
-- eight bits.
abbrev pub txn_segments : (ℕ → Segment) → ℕ → Option (ℕ → ℕ) → Bool → Counted → Txn
txn_segments segments segments_len src_buffer dest_buffer counted = record {
  segments = some segments;
  seglen = u8 segments_len;
  txbuffer = src_buffer;
  txlen = counted.tx_count;
  rxbuffer = dest_buffer;
  rxlen = counted.rx_count;
}

-- A transaction on the peripheral of `spi`.
unfoldable pub launch : Env → SpiT → Txn → Callbacks → Sdk → Option (Sdk × ℕ)
unfolding spi_launch
launch env spi txn callbacks sdk =
    Option.map (λ (p : Peri). (store spi.idx p sdk, Code.ok))
      (spi_launch env txn callbacks (sdk.peripherals spi.idx))

-- What a blocking transfer waits with: the ticks since its start and what the interrupts do to the
-- peripheral in each round, and the rounds that are given to it.
pub record Wait : Type 0 where
  pub elapsed : ℕ → ℕ
  pub interrupts : Peri → Peri
  pub wait_rounds : ℕ

unfoldable pub launch_and_wait : Env → Wait → SpiT → Txn → Sdk → Option (Sdk × ℕ)
unfolding spi_launch spi_wait_transaction_done
launch_and_wait env wait spi txn sdk =
    Option.bind (spi_launch env txn null_callbacks (sdk.peripherals spi.idx)) (λ (p : Peri).
      Option.bind (spi_wait_transaction_done env wait.elapsed wait.interrupts wait.wait_rounds p)
        (λ (stopped : Option Peri).
          Option.map (λ (q : Peri). (store spi.idx q sdk, Code.ok)) stopped))

unfoldable pub spi_transmit : Env → Wait → SpiT → (ℕ → ℕ) → ℕ → Sdk → Option (Sdk × ℕ)
unfolding prepare_len launch_and_wait
spi_transmit env wait spi src_buffer len sdk =
    let (prepared, error) = prepare_len env spi len sdk in
    if not (error == 0)
    then some (prepared, error)
    else launch_and_wait env wait spi (txn_tx src_buffer len) prepared

unfoldable pub spi_receive : Env → Wait → SpiT → ℕ → Sdk → Option (Sdk × ℕ)
unfolding prepare_len launch_and_wait
spi_receive env wait spi len sdk =
    let (prepared, error) = prepare_len env spi len sdk in
    if not (error == 0)
    then some (prepared, error)
    else launch_and_wait env wait spi (txn_rx len) prepared

unfoldable pub spi_transceive : Env → Wait → SpiT → (ℕ → ℕ) → ℕ → Sdk → Option (Sdk × ℕ)
unfolding prepare_len launch_and_wait
spi_transceive env wait spi src_buffer len sdk =
    let (prepared, error) = prepare_len env spi len sdk in
    if not (error == 0)
    then some (prepared, error)
    else launch_and_wait env wait spi (txn_bidir src_buffer len) prepared

unfoldable pub spi_execute :
    Env → Wait → SpiT → (ℕ → Segment) → ℕ → Option (ℕ → ℕ) → Bool → Sdk → Option (Sdk × ℕ)
unfolding spi_prepare_transfer spi_validate_segments launch_and_wait
spi_execute env wait spi segments segments_len src_buffer dest_buffer sdk =
    let (prepared, error) = spi_prepare_transfer env spi sdk in
    let counted = spi_validate_segments segments (u8 segments_len) 0 0 in
    if not (error == 0)
    then some (prepared, error)
    else if not counted.valid
    then some (prepared, Code.segment_inval)
    else launch_and_wait env wait spi
        (txn_segments segments segments_len src_buffer dest_buffer counted) prepared

unfoldable pub spi_transmit_nb : Env → SpiT → (ℕ → ℕ) → ℕ → Callbacks → Sdk → Option (Sdk × ℕ)
unfolding prepare_len launch
spi_transmit_nb env spi src_buffer len callbacks sdk =
    let (prepared, error) = prepare_len env spi len sdk in
    if not (error == 0)
    then some (prepared, error)
    else launch env spi (txn_tx src_buffer len) callbacks prepared

unfoldable pub spi_receive_nb : Env → SpiT → ℕ → Callbacks → Sdk → Option (Sdk × ℕ)
unfolding prepare_len launch
spi_receive_nb env spi len callbacks sdk =
    let (prepared, error) = prepare_len env spi len sdk in
    if not (error == 0)
    then some (prepared, error)
    else launch env spi (txn_rx len) callbacks prepared

unfoldable pub spi_transceive_nb : Env → SpiT → (ℕ → ℕ) → ℕ → Callbacks → Sdk → Option (Sdk × ℕ)
unfolding prepare_len launch
spi_transceive_nb env spi src_buffer len callbacks sdk =
    let (prepared, error) = prepare_len env spi len sdk in
    if not (error == 0)
    then some (prepared, error)
    else launch env spi (txn_bidir src_buffer len) callbacks prepared

unfoldable pub spi_execute_nb :
    Env → SpiT → (ℕ → Segment) → ℕ → Option (ℕ → ℕ) → Bool → Callbacks → Sdk → Option (Sdk × ℕ)
unfolding spi_prepare_transfer spi_validate_segments launch
spi_execute_nb env spi segments segments_len src_buffer dest_buffer callbacks sdk =
    let (prepared, error) = spi_prepare_transfer env spi sdk in
    let counted = spi_validate_segments segments (u8 segments_len) 0 0 in
    if not (error == 0)
    then some (prepared, error)
    else if not counted.valid
    then some (prepared, Code.segment_inval)
    else launch env spi (txn_segments segments segments_len src_buffer dest_buffer counted)
        callbacks prepared
