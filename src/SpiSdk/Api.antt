-- ===== src/SpiSdk/Api.antt =====
-- spi_sdk.c: the exported functions. `Sdk` is the state of the file, one peripheral for each index;
-- a peripheral past the last is the memory after the array. `none` means that a loop on the status
-- of the device still runs.
use core_v_mini_mcu.Base.{
  ℕ, ◌+◌, ◌-◌, ◌^◌, bit_or, u32, Bool, true, false, not, ◌||◌, ltb, ◌==◌, if◌then◌else◌, Option,
  none, some,
}
use mathlib.Core.Option
use core_v_mini_mcu.SpiHost.{
  spi_set_enable, spi_output_enable, spi_set_errors_enabled, spi_enable_error_intr,
  spi_set_tx_watermark, spi_set_rx_watermark, error_irqall,
}
use core_v_mini_mcu.SpiSdk.Code
use core_v_mini_mcu.SpiSdk.Slave.{spi_validate_slave, spi_true_slave_freq}
use core_v_mini_mcu.SpiSdk.Transfer.{spi_reset_peri}
use core_v_mini_mcu.SpiSdk.Types.{
  Slave, SpiT, Peri, Env, State, state_init, state_arg_inval, is_busy,
}

pub record Sdk : Type 0 where
  pub peripherals : ℕ → Peri
  pub global_id : ℕ

-- `peripherals[idx] = p`
abbrev pub store : ℕ → Peri → Sdk → Sdk
store idx p sdk = record sdk { peripherals = λ i. if i == idx then p else sdk.peripherals i }

-- `SPI_IDX_INVALID`
abbrev pub idx_invalid : ℕ → Bool
idx_invalid idx = ltb 2 idx

-- `SPI_INVALID_LEN`
abbrev pub invalid_len : ℕ → Bool
invalid_len len = len == 0 || ltb 0xffffff len

abbrev pub no_slave : Slave
no_slave = record {
  csid = 0;
  data_mode = 0;
  full_cycle = 0;
  csn_idle = 0;
  csn_trail = 0;
  csn_lead = 0;
  freq = 0;
}

-- `spi_t` after a failed initialisation, and after `spi_deinit`.
abbrev pub no_spi : SpiT
no_spi = record { idx = 2 ^ 32 - 1; id = 0; init = false; slave = no_slave }

unfoldable pub init_error : ℕ → ℕ → Slave → Sdk → ℕ
unfolding spi_validate_slave
init_error sys_freq idx slave sdk =
    let e1 = spi_validate_slave sys_freq slave in
    let e2 = if idx_invalid idx then bit_or e1 Code.idx_inval else e1 in
    if is_busy (sdk.peripherals idx).state then bit_or e2 Code.is_busy else e2

-- The peripheral that an initialisation leaves.
unfoldable pub init_peri : Peri → Peri
init_peri p =
    let h1 = spi_output_enable true (spi_set_enable true p.host) in
    let h2 = spi_enable_error_intr true (spi_set_errors_enabled error_irqall true h1).0 in
    let h3 = (spi_set_rx_watermark p.rxwm (spi_set_tx_watermark p.txwm h2).0).0 in
    record p { host = h3; state = state_init }

unfoldable pub spi_init : ℕ → ℕ → Slave → Sdk → Sdk × SpiT
unfolding init_error init_peri spi_true_slave_freq
spi_init sys_freq idx slave sdk =
    if not (init_error sys_freq idx slave sdk == 0) then (sdk, no_spi) else (
      record (store idx (init_peri (sdk.peripherals idx)) sdk) {
        global_id = u32 (sdk.global_id + 1);
      },
      record {
        idx = idx;
        id = u32 (sdk.global_id + 1);
        init = true;
        slave = record slave { freq = spi_true_slave_freq sys_freq slave.freq };
      },
    )

unfoldable pub spi_deinit : SpiT → SpiT
spi_deinit spi = no_spi

unfoldable pub spi_check_valid : SpiT → ℕ
spi_check_valid spi =
    if idx_invalid spi.idx then Code.idx_inval else if not spi.init then Code.not_init else Code.ok

unfoldable pub spi_reset : Env → SpiT → Sdk → Option (Sdk × ℕ)
unfolding spi_check_valid
spi_reset env spi sdk =
    let error = spi_check_valid spi in
    if not (error == 0)
    then some (sdk, error)
    else Option.map (λ (p : Peri). (store spi.idx p sdk, Code.ok))
        (spi_reset_peri env (sdk.peripherals spi.idx))

unfoldable pub spi_set_txwm : SpiT → ℕ → Sdk → Sdk × ℕ
unfolding spi_check_valid spi_set_tx_watermark
spi_set_txwm spi watermark sdk =
    let error = spi_check_valid spi in
    let p = sdk.peripherals spi.idx in
    let (h, flags) = spi_set_tx_watermark watermark p.host in
    if not (error == 0)
    then (sdk, error)
    else if is_busy p.state
    then (sdk, Code.is_busy)
    else if not (flags == 0)
    then (sdk, Code.wm_exceeds)
    else (store spi.idx (record p { host = h; txwm = watermark }) sdk, Code.ok)

unfoldable pub spi_get_txwm : SpiT → Sdk → Option ℕ × ℕ
unfolding spi_check_valid
spi_get_txwm spi sdk =
    let error = spi_check_valid spi in
    if not (error == 0) then (none, error) else (some (sdk.peripherals spi.idx).txwm, Code.ok)

unfoldable pub spi_set_rxwm : SpiT → ℕ → Sdk → Sdk × ℕ
unfolding spi_check_valid spi_set_rx_watermark
spi_set_rxwm spi watermark sdk =
    let error = spi_check_valid spi in
    let p = sdk.peripherals spi.idx in
    let (h, flags) = spi_set_rx_watermark watermark p.host in
    if not (error == 0)
    then (sdk, error)
    else if is_busy p.state
    then (sdk, Code.is_busy)
    else if not (flags == 0)
    then (sdk, Code.wm_exceeds)
    else (store spi.idx (record p { host = h; rxwm = watermark }) sdk, Code.ok)

unfoldable pub spi_get_rxwm : SpiT → Sdk → Option ℕ × ℕ
unfolding spi_check_valid
spi_get_rxwm spi sdk =
    let error = spi_check_valid spi in
    if not (error == 0) then (none, error) else (some (sdk.peripherals spi.idx).rxwm, Code.ok)

unfoldable pub spi_set_timeout : SpiT → ℕ → Sdk → Sdk × ℕ
unfolding spi_check_valid
spi_set_timeout spi timeout sdk =
    let error = spi_check_valid spi in
    if not (error == 0)
    then (sdk, error)
    else (store spi.idx (record (sdk.peripherals spi.idx) { timeout = timeout }) sdk, Code.ok)

unfoldable pub spi_get_timeout : SpiT → Sdk → Option ℕ × ℕ
unfolding spi_check_valid
spi_get_timeout spi sdk =
    let error = spi_check_valid spi in
    if not (error == 0) then (none, error) else (some (sdk.peripherals spi.idx).timeout, Code.ok)

-- The new `spi_t` and the code.
unfoldable pub spi_set_slave_freq : ℕ → SpiT → ℕ → SpiT × ℕ
unfolding spi_check_valid spi_validate_slave spi_true_slave_freq
spi_set_slave_freq sys_freq spi freq =
    let error = spi_check_valid spi in
    let checked = spi_validate_slave sys_freq (record (spi.slave) { freq = freq }) in
    if not (error == 0) then (spi, error) else if not (checked == 0) then (spi, checked) else (
      record spi { slave = record (spi.slave) { freq = spi_true_slave_freq sys_freq freq } },
      Code.ok,
    )

unfoldable pub spi_get_state : SpiT → Sdk → State
unfolding spi_check_valid
spi_get_state spi sdk =
    if not (spi_check_valid spi == 0) then state_arg_inval else (sdk.peripherals spi.idx).state
