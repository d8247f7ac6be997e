-- ===== src/Examples/Spi.antt =====
-- The SPI host and its SDK on concrete transfers.
use core_v_mini_mcu.Base.{
  ℕ, ◌+◌, ◌*◌, ◌/◌, ◌^◌, ◌≤◌, ◌<◌, ◌≡◌, ◌↔◌, refl, arith, true, false, ◌==◌, if◌then◌else◌, none,
  some, [], ◌∷◌, ◌++◌, u32, inl, inr, Bool-cases, not32, shl32,
}
use core_v_mini_mcu.Bitfield.{bitfield_read, bitfield_write}
use core_v_mini_mcu.SpiHost.{
  Host, irq_spi, on_event, spi_get_events, spi_acknowledge_event, spi_get_status, spi_sw_reset,
  spi_wait_for_ready, spi_set_events_enabled, spi_enable_evt_intr, spi_get_errors, reset_wait,
  spi_set_csid,
}
use core_v_mini_mcu.SpiHost.Word.{spi_create_command, spi_validate_cmd}
use core_v_mini_mcu.SpiHost.Reset.{spi_sw_reset-hangs}
use core_v_mini_mcu.SpiSdk.Api.{Sdk}
use core_v_mini_mcu.SpiSdk.Events.{finish, spi_intr_handler_event, spi_error_handler}
use core_v_mini_mcu.SpiSdk.Events.Launched.{spi_launch-Run}
use core_v_mini_mcu.SpiSdk.Events.Run.{launched, more, event_irq, IsOutcome}
use core_v_mini_mcu.SpiSdk.Events.Progress.{IsFinished, finish-IsFinished}
use core_v_mini_mcu.SpiSdk.Exchange.{prepare_len, spi_transmit_nb, spi_execute_nb}
use core_v_mini_mcu.SpiSdk.Exchange.Prepare.{MayStart, prepare_len-ok_iff}
use core_v_mini_mcu.SpiSdk.Exchange.Launch.{spi_transmit_nb-IsProgress, spi_execute_nb-IsProgress}
use core_v_mini_mcu.SpiSdk.Segments.Count.{
  accepted, total, words_out, words_in, spi_validate_segments-total,
}
use core_v_mini_mcu.SpiSdk.Transfer.Timeout.{
  HasEnded, IsResponsive, spi_wait_transaction_done-HasEnded,
}
use core_v_mini_mcu.SpiSdk.Transfer.Stream.{IsProgress}
use core_v_mini_mcu.SpiSdk.Transfer.Issue.{IsValidSegment}
use core_v_mini_mcu.SpiSdk.Segments.{spi_validate_segments}
use core_v_mini_mcu.SpiSdk.Slave.{spi_true_slave_freq}
use core_v_mini_mcu.SpiSdk.Slave.Freq.{spi_true_slave_freq-best}
use core_v_mini_mcu.SpiSdk.Transfer.{spi_launch, start, segment_command, spi_wait_transaction_done}
use core_v_mini_mcu.SpiSdk.Types.{
  Segment, SpiT, Peri, Txn, Env, null_callbacks, no_txn, state_init, state_busy, called_done,
}

-- A host whose status shows only the ready bit, and a device that leaves the registers.
abbrev host : Host
host = record {
  regs = λ i. if i == 5 then 2 ^ 31 else 0;
  sent = [];
  issued = [];
  incoming = λ i. i + 7;
  taken = 0;
}

abbrev peri : Peri
peri = record {
  host = host;
  txwm = 18;
  rxwm = 52;
  last_id = 0;
  timeout = 100;
  state = state_init;
  txn = no_txn;
  scnt = 0;
  txcnt = 0;
  rxcnt = 0;
  callbacks = null_callbacks;
  dest = λ i. 0;
  calls = [];
}

abbrev env : Env
env = record { device = λ h. h.regs; sys_freq = 100000000; active = λ h. false; rounds = 3 }

-- A command of one byte that is sent, and eight bytes that are received.
abbrev segments : ℕ → Segment
segments i = if i == 0 then record { len = 1; mode = 2 } else record { len = 8; mode = 1 }

abbrev txn : Txn
txn = record {
  segments = some segments;
  seglen = 2;
  txbuffer = some (λ i. 0x9f + i);
  txlen = 1;
  rxbuffer = true;
  rxlen = 2;
}

-- The device still sends after the reset bit is set.
spi_sw_reset-hangs_example : spi_sw_reset (λ h. λ i. 2 ^ 30) 1000 host ≡ none
unfolding bitfield_read spi_get_status
spi_sw_reset-hangs_example = spi_sw_reset-hangs (λ h. λ i. 2 ^ 30) 1000 host refl

spi_true_slave_freq-best_example :
    (spi_true_slave_freq 100000000 30000000 ≤ 30000000)
    × (100000000 / (2 * 3 + 2) ≤ spi_true_slave_freq 100000000 30000000)
spi_true_slave_freq-best_example =
    spi_true_slave_freq-best 100000000 30000000 3 (omega arith) (omega arith) (omega arith)

abbrev launched_peri : Peri
launched_peri = elim (spi_launch env txn null_callbacks peri) [ none ↦ peri | some q ↦ q ]

abbrev acknowledged : Host
acknowledged = spi_acknowledge_event launched_peri.host

launches : spi_launch env txn null_callbacks peri ≡ some launched_peri
unfolding spi_launch start spi_wait_for_ready spi_get_status bitfield_read spi_enable_evt_intr
    spi_set_events_enabled
launches = refl

interrupted :
    irq_spi 0 launched_peri.host ≡ (acknowledged, on_event (spi_get_events 0 acknowledged))
unfolding irq_spi spi_get_errors spi_launch start spi_wait_for_ready spi_get_status bitfield_read
    spi_enable_evt_intr spi_set_events_enabled spi_create_command bitfield_write not32 shl32
interrupted = refl

-- The transaction is launched and the host interrupts for its ready event.
abbrev served : Peri
served =
    spi_intr_handler_event env (spi_get_events 0 acknowledged)
      (record launched_peri { host = acknowledged })

segments_valid : (i : ℕ) → i < 2 → IsValidSegment (segments i)
unfolding spi_validate_cmd bitfield_read
segments_valid i lt = elim (Bool-cases (i == 0)) [
  | inl first_one ↦ rw first_one refl
  | inr second ↦ rw second refl
]

spi_launch-Run_example : IsOutcome host txn served
spi_launch-Run_example =
    spi_launch-Run env segments txn null_callbacks peri launched_peri served (refl, refl, refl)
      (refl, segments_valid) (omega arith) launches
      (more launched
        (event_irq 0 (spi_get_events 0 acknowledged) acknowledged launched_peri interrupted))

-- All segments of the transaction are issued and nothing is sent or received yet.
abbrev all_issued : Peri
all_issued = record peri {
  state = state_busy;
  txn = txn;
  scnt = 2;
  host = record host { issued = segment_command txn 0 ∷ segment_command txn 1 ∷ [] };
}

finish-IsFinished_example :
    (t : ℕ) × (r : ℕ) × IsFinished host txn t r (finish env all_issued)
    × ((finish env all_issued).calls ≡ [] ++ (if false then called_done t r ∷ [] else []))
finish-IsFinished_example =
    finish-IsFinished env host txn all_issued (omega arith)
      (refl, refl, refl, refl, refl, refl, refl, omega arith, omega arith, omega arith)

-- A device that is idle and empty.
abbrev idle_env : Env
idle_env = record { device = λ h. λ i. 0; sys_freq = 100000000; active = λ h. false; rounds = 3 }

idle_env-IsResponsive : IsResponsive idle_env
unfolding spi_get_status bitfield_read
idle_env-IsResponsive h = refl

-- The ticks pass in steps of a million, and no interrupt comes.
spi_wait_transaction_done-HasEnded_example :
    HasEnded
      (λ p. p)
      0
      11
      all_issued
      (spi_wait_transaction_done idle_env (λ i. i * 1000000) (λ p. p) 20 all_issued)
spi_wait_transaction_done-HasEnded_example =
    spi_wait_transaction_done-HasEnded idle_env (λ i. i * 1000000) (λ p. p) 11 20 all_issued
      idle_env-IsResponsive (omega arith) (omega arith) (omega arith)

spi_validate_segments-total_example :
    spi_validate_segments segments 2 0 0
    ≡ accepted
        (u32 (total (λ i. words_out (segments i)) 0 2))
        (u32 (total (λ i. words_in (segments i)) 0 2))
spi_validate_segments-total_example =
    spi_validate_segments-total segments 2 0 0 (omega arith) segments_valid

-- The second peripheral, initialised, with its slave on the first chip select.
abbrev spi : SpiT
spi = record {
  idx = 1;
  id = 1;
  init = true;
  slave = record {
    csid = 0;
    data_mode = 0;
    full_cycle = 0;
    csn_idle = 15;
    csn_trail = 15;
    csn_lead = 15;
    freq = 20000000;
  };
}

abbrev sdk : Sdk
sdk = record { peripherals = λ i. peri; global_id = 1 }

prepare_len-ok_iff_example :
    ((prepare_len env spi 9 sdk).1 ≡ 0) ↔ (MayStart env spi sdk × (0 < 9) × (9 < 2 ^ 24))
prepare_len-ok_iff_example = prepare_len-ok_iff env spi 9 sdk

abbrev transmitted : Sdk
transmitted = elim (spi_transmit_nb env spi (λ i. i) 9 null_callbacks sdk) [
  | none ↦ sdk
  | some r ↦ r.0
]

transmits : spi_transmit_nb env spi (λ i. i) 9 null_callbacks sdk ≡ some (transmitted, 0)
unfolding spi_transmit_nb spi_wait_for_ready bitfield_read spi_enable_evt_intr
    spi_set_events_enabled spi_set_csid
transmits = refl

spi_transmit_nb-IsProgress_example :
    MayStart env spi sdk
    × (0 < 9)
    × (9 < 2 ^ 24)
    × IsProgress host
        (record {
          segments = some (λ i. record { len = 9; mode = 2 });
          seglen = 1;
          txbuffer = some (λ i. i);
          txlen = 3;
          rxbuffer = false;
          rxlen = 0;
        })
        (transmitted.peripherals 1)
spi_transmit_nb-IsProgress_example =
    spi_transmit_nb-IsProgress env spi (λ i. i) 9 null_callbacks sdk transmitted (refl, refl, refl)
      transmits

abbrev executed : Sdk
executed = elim (spi_execute_nb env spi segments 2 (some (λ i. i)) true null_callbacks sdk) [
  | none ↦ sdk
  | some r ↦ r.0
]

executes :
    spi_execute_nb env spi segments 2 (some (λ i. i)) true null_callbacks sdk ≡ some (executed, 0)
unfolding spi_execute_nb bitfield_read spi_wait_for_ready spi_enable_evt_intr spi_set_events_enabled
    spi_set_csid
executes = refl

spi_execute_nb-IsProgress_example :
    MayStart env spi sdk
    × (0 < 2)
    × ((i : ℕ) → i < 2 → IsValidSegment (segments i))
    × IsProgress host
        (record {
          segments = some segments;
          seglen = 2;
          txbuffer = some (λ i. i);
          txlen = 1;
          rxbuffer = true;
          rxlen = 2;
        })
        (executed.peripherals 1)
spi_execute_nb-IsProgress_example =
    spi_execute_nb-IsProgress env spi segments 2 (some (λ i. i)) true null_callbacks sdk executed
      (refl, refl, refl) executes

abbrev failed : Peri
failed = elim (spi_error_handler env all_issued) [ none ↦ peri | some q ↦ q ]

fails : spi_error_handler env all_issued ≡ some failed
unfolding spi_error_handler spi_sw_reset reset_wait bitfield_read spi_enable_evt_intr
    spi_set_events_enabled
fails = refl
