-- ===== src/SpiSdk/Types.antt =====
-- The data of spi_sdk.h and spi_sdk.c. A buffer that is read is the function from an index to a word;
-- the buffer that is received into is `dest`, and `rxbuffer` tells whether it is there.
use core_v_mini_mcu.Base.{ℕ, Bool, true, false, Option, none, List}
use core_v_mini_mcu.SpiHost.{Host, Device}

-- `spi_segment_t`
pub record Segment : Type 0 where
  pub len : ℕ
  pub mode : ℕ

-- `spi_slave_t`
pub record Slave : Type 0 where
  pub csid : ℕ
  pub data_mode : ℕ
  pub full_cycle : ℕ
  pub csn_idle : ℕ
  pub csn_trail : ℕ
  pub csn_lead : ℕ
  pub freq : ℕ

-- `spi_t`
pub record SpiT : Type 0 where
  pub idx : ℕ
  pub id : ℕ
  pub init : Bool
  pub slave : Slave

-- `spi_state_e`
pub data State : Type 0 where
  state_none state_init state_busy state_done state_error state_timeout state_arg_inval : State

-- `SPI_BUSY`
abbrev pub is_busy : State → Bool
is_busy state_busy = true
is_busy _ = false

-- `spi_transaction_t`
pub record Txn : Type 0 where
  pub segments : Option (ℕ → Segment)
  pub seglen : ℕ
  pub txbuffer : Option (ℕ → ℕ)
  pub txlen : ℕ
  pub rxbuffer : Bool
  pub rxlen : ℕ

abbrev pub no_txn : Txn
no_txn = record {
  segments = none;
  seglen = 0;
  txbuffer = none;
  txlen = 0;
  rxbuffer = false;
  rxlen = 0;
}

-- `spi_callbacks_t`: which of the callbacks are there.
pub record Callbacks : Type 0 where
  pub done_cb : Bool
  pub txwm_cb : Bool
  pub rxwm_cb : Bool
  pub error_cb : Bool

abbrev pub null_callbacks : Callbacks
null_callbacks = record { done_cb = false; txwm_cb = false; rxwm_cb = false; error_cb = false }

-- A call of a callback, with the two counts that it is given.
pub data Call : Type 0 where
  called_done called_txwm called_rxwm called_error : ℕ → ℕ → Call

-- `spi_peripheral_t`, with the host it is an instance of, the buffer that it receives into and the
-- callbacks that were called.
pub record Peri : Type 0 where
  pub host : Host
  pub txwm : ℕ
  pub rxwm : ℕ
  pub last_id : ℕ
  pub timeout : ℕ
  pub state : State
  pub txn : Txn
  pub scnt : ℕ
  pub txcnt : ℕ
  pub rxcnt : ℕ
  pub callbacks : Callbacks
  pub dest : ℕ → ℕ
  pub calls : List Call

-- What the code runs on: the device, the frequency of the system, the rounds that are given to a loop
-- on the status of the device, and whether the value that `spi_get_active` leaves is
-- SPI_TRISTATE_TRUE, which its body does not determine since it has no return statement.
pub record Env : Type 0 where
  pub device : Device
  pub sys_freq : ℕ
  pub active : Host → Bool
  pub rounds : ℕ
