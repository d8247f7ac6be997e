-- ===== src/SpiSdk/Exchange/Prepare.antt =====
-- When a transfer may start, and what the checks before it change.
use core_v_mini_mcu.Base.{
  ℕ, ◌^◌, ◌≤◌, ◌<◌, ◌≡◌, ◌≢◌, ◌↔◌, ◌⊎◌, inl, inr, refl, arith, ap, Bool, true, false, not, ◌||◌,
  ◌==◌, leb, if◌then◌else◌, Bool-cases, bit_or, test_bit, test_bit-bit_or,
}
use core_v_mini_mcu.SpiHost.{spi_set_configopts, spi_set_csid}
use core_v_mini_mcu.SpiHost.Reg
use core_v_mini_mcu.SpiSdk.Code
use core_v_mini_mcu.SpiSdk.Slave.{spi_set_slave}
use core_v_mini_mcu.SpiSdk.Api.{Sdk, store, invalid_len, spi_check_valid}
use core_v_mini_mcu.SpiSdk.Exchange.{spi_prepare_transfer, prepare_len}
use core_v_mini_mcu.SpiSdk.Types.{SpiT, Peri, Env, is_busy}

-- At most the registers of the host were written.
abbrev pub IsQuiet : Peri → Peri → Type 0
IsQuiet p q = q ≡ record p { host = record (p.host) { regs = q.host.regs } }

csid_refused :
    (spi : SpiT)
    → leb Reg.num_c_s spi.slave.csid ≡ true
    → (sys_freq : ℕ) (p : Peri) → spi_set_slave sys_freq spi p ≡ (p, Code.slave_inval)
unfolding spi_set_slave spi_set_configopts
csid_refused spi large sys_freq p = rw (large, spi_set_slave)

-- The slave of a transfer is set unless its chip select is none of the two.
pub spi_set_slave_lem :
    (sys_freq : ℕ) (spi : SpiT) (p : Peri)
    → IsQuiet p (spi_set_slave sys_freq spi p).0
      × ((spi_set_slave sys_freq spi p).1
          ≡ (if leb Reg.num_c_s spi.slave.csid then Code.slave_inval else Code.ok))
unfolding spi_set_slave spi_set_configopts spi_set_csid
spi_set_slave_lem sys_freq spi p = elim (Bool-cases (leb Reg.num_c_s spi.slave.csid)) [
  | inl large ↦ rw (csid_refused spi large sys_freq p, large) (refl, refl)
  | inr fits ↦ rw (fits, spi_set_slave) (refl, refl)
]

store-IsQuiet :
    (idx i : ℕ) (q : Peri) (sdk : Sdk)
    → IsQuiet (sdk.peripherals idx) q
    → IsQuiet (sdk.peripherals i) ((store idx q sdk).peripherals i)
store-IsQuiet idx i q sdk quiet = elim (Bool-cases (i == idx)) [
  | inr other ↦ rw other refl
  | inl same ↦
      let at_it : idx ≡ i = ground (arith, same) in
      let quiet_i : IsQuiet (sdk.peripherals i) q = rw at_it at quiet in rw same quiet_i
]

-- The code of the checks, in the order of the code.
abbrev prepare_code : Env → SpiT → Sdk → ℕ
prepare_code env spi sdk =
    if not (spi_check_valid spi == 0)
    then spi_check_valid spi
    else if is_busy (sdk.peripherals spi.idx).state
    then Code.is_busy
    else if env.active (sdk.peripherals spi.idx).host
    then Code.not_idle
    else if not (spi.id == (sdk.peripherals spi.idx).last_id)
    then (if leb Reg.num_c_s spi.slave.csid then Code.slave_inval else Code.ok)
    else Code.ok

prepare_transfer-both :
    (env : Env) (spi : SpiT) (sdk : Sdk) (i : ℕ)
    → IsQuiet (sdk.peripherals i) ((spi_prepare_transfer env spi sdk).0.peripherals i)
      × ((spi_prepare_transfer env spi sdk).1 ≡ prepare_code env spi sdk)
unfolding spi_prepare_transfer
prepare_transfer-both env spi sdk i =
    branch (not (spi_check_valid spi == 0)) (is_busy p.state) (env.active p.host)
      (spi.id == p.last_id)
  where
    p : Peri
    p = sdk.peripherals spi.idx

    slave : Peri × ℕ
    slave = spi_set_slave env.sys_freq spi p

    set :
        IsQuiet p slave.0
        × (slave.1 ≡ (if leb Reg.num_c_s spi.slave.csid then Code.slave_inval else Code.ok))
    set = spi_set_slave_lem env.sys_freq spi p

    branch :
        (bad busy active same : Bool)
        → let r : Sdk × ℕ =
            if bad
            then (sdk, spi_check_valid spi)
            else if busy
            then (sdk, Code.is_busy)
            else if active
            then (sdk, Code.not_idle)
            else if not same
            then (store spi.idx slave.0 sdk, slave.1)
            else (sdk, Code.ok) in
          IsQuiet (sdk.peripherals i) (r.0.peripherals i)
          × (r.1 ≡ (
              if bad
              then spi_check_valid spi
              else if busy
              then Code.is_busy
              else if active
              then Code.not_idle
              else if not same
              then (if leb Reg.num_c_s spi.slave.csid then Code.slave_inval else Code.ok)
              else Code.ok))
    branch true busy active same = (refl, refl)
    branch false true active same = (refl, refl)
    branch false false true same = (refl, refl)
    branch false false false true = (refl, refl)
    branch false false false false = (store-IsQuiet spi.idx i slave.0 sdk set.0, set.1)

-- The checks before a transfer, whatever they find, leave each peripheral as it was but for the
-- registers of its host: the state, the counts, the transaction, the words sent and received and the
-- callbacks.
pub spi_prepare_transfer-IsQuiet :
    (env : Env) (spi : SpiT) (sdk : Sdk) (i : ℕ)
    → IsQuiet (sdk.peripherals i) ((spi_prepare_transfer env spi sdk).0.peripherals i)
spi_prepare_transfer-IsQuiet env spi sdk i = (prepare_transfer-both env spi sdk i).0

-- A transfer may start on an initialised `spi` of one of the three peripherals, if the peripheral is
-- not busy, the value that the call of `spi_get_active` leaves happens to be other than
-- SPI_TRISTATE_TRUE, and the slave was set last or has one of the two chip selects. The function has
-- no return statement, so that value is a parameter and tells nothing of the status of the device.
abbrev pub MayStart : Env → SpiT → Sdk → Type 0
MayStart env spi sdk =
    (spi.idx ≤ 2)
    × (spi.init ≡ true)
    × (is_busy (sdk.peripherals spi.idx).state ≡ false)
    × (env.active (sdk.peripherals spi.idx).host ≡ false)
    × ((spi.id ≡ (sdk.peripherals spi.idx).last_id) ⊎ (spi.slave.csid < 2))

-- The checks accept just the transfers that may start, in this sense.
pub spi_prepare_transfer-ok_iff :
    (env : Env) (spi : SpiT) (sdk : Sdk)
    → ((spi_prepare_transfer env spi sdk).1 ≡ 0) ↔ MayStart env spi sdk
unfolding spi_check_valid
spi_prepare_transfer-ok_iff env spi sdk =
    let code = (prepare_transfer-both env spi sdk 0).1 in ground (arith, code)

-- The added code shows in a disjunction.
bit_or-len_inval : (error : ℕ) → bit_or error Code.txn_len_inval ≢ 0
bit_or-len_inval error none =
    let shows : test_bit (bit_or error 0x400) 10 ≡ (test_bit error 10 || test_bit 0x400 10) =
      test_bit-bit_or error 0x400 10 in
    let hidden : test_bit (bit_or error 0x400) 10 ≡ false = ap (λ (x : ℕ). test_bit x 10) none in
    ground (arith, shows, hidden)

-- With its length, a transfer is accepted just if the `spi` is initialised and of one of the three
-- peripherals, the peripheral is not busy, the undetermined value of `spi_get_active` is not
-- SPI_TRISTATE_TRUE, the slave was set last or has a chip select below 2, and there is a byte at
-- least, and fewer than 2 ^ 24.
pub prepare_len-ok_iff :
    (env : Env) (spi : SpiT) (len : ℕ) (sdk : Sdk)
    → ((prepare_len env spi len sdk).1 ≡ 0) ↔ (MayStart env spi sdk × (0 < len) × (len < 2 ^ 24))
unfolding prepare_len
prepare_len-ok_iff env spi len sdk =
    let error = (spi_prepare_transfer env spi sdk).1 in
    let may = spi_prepare_transfer-ok_iff env spi sdk in
    elim (Bool-cases (invalid_len len)) [
      | inl bad ↦ (
        λ code. absurd (bit_or-len_inval error (rw bad at code)),
        λ h. absurd (ground (arith, bad, h.1, h.2)),
      )
      | inr good ↦ (
        λ code. (may.0 (rw good at code), ground (arith, good), ground (arith, good)),
        λ h. rw good (may.1 h.0),
      )
    ]
