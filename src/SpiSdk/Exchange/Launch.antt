-- ===== src/SpiSdk/Exchange/Launch.antt =====
-- Transfers that do not wait: what is under way after them.
use mathlib.Core.Option
use core_v_mini_mcu.Base.{
  ℕ, ◌<◌, ◌^◌, ◌≡◌, refl, arith, ap, sym, ◌∙◌, Bool, true, false, not, ◌==◌, if◌then◌else◌, Option,
  none, some, inl, inr, Bool-cases, u8, u32, subst, ◌%◌,
}
use core_v_mini_mcu.Bitfield.{bitfield_read}
use core_v_mini_mcu.SpiHost.Word.{spi_validate_cmd}
use core_v_mini_mcu.SpiSdk.Code
use core_v_mini_mcu.SpiSdk.Api.{Sdk, store}
use core_v_mini_mcu.SpiSdk.Events.Progress.{IsIdle}
use core_v_mini_mcu.SpiSdk.Events.Launched.{spi_launch-IsProgress}
use core_v_mini_mcu.SpiSdk.Exchange.{
  mode_tx_std, mode_rx_std, mode_bidir, spi_prepare_transfer, prepare_len, launch, txn_tx, txn_rx,
  txn_bidir, txn_segments, spi_transmit_nb, spi_receive_nb, spi_transceive_nb, spi_execute_nb,
}
use core_v_mini_mcu.SpiSdk.Exchange.Prepare.{
  IsQuiet, MayStart, spi_prepare_transfer-IsQuiet, spi_prepare_transfer-ok_iff, prepare_len-ok_iff,
}
use core_v_mini_mcu.SpiSdk.Segments.{Counted, spi_validate_segments}
use core_v_mini_mcu.SpiSdk.Segments.Count.{
  words_for, len_words-words_for, total, words_out, words_in, spi_validate_segments-total,
  spi_validate_segments-IsValidSegment, spi_validate_segments-some,
}
use core_v_mini_mcu.SpiSdk.Transfer.{spi_launch}
use core_v_mini_mcu.SpiSdk.Transfer.Stream.{IsProgress, arriving}
use core_v_mini_mcu.SpiSdk.Transfer.Issue.{IsValidSegment, IsValidTxn}
use core_v_mini_mcu.SpiSdk.Types.{Segment, SpiT, Peri, Txn, Callbacks, Env}

-- A transaction on an idle peripheral of a prepared state is under way on the host as it was before.
launch-IsProgress :
    (env : Env) (spi : SpiT) (segments : ℕ → Segment) (txn : Txn) (callbacks : Callbacks)
    (sdk prepared after : Sdk) (code : ℕ)
    → IsQuiet (sdk.peripherals spi.idx) (prepared.peripherals spi.idx)
    → IsIdle (sdk.peripherals spi.idx)
    → IsValidTxn segments txn
    → 0 < txn.seglen
    → launch env spi txn callbacks prepared ≡ some (after, code)
    → (code ≡ 0) × IsProgress (sdk.peripherals spi.idx).host txn (after.peripherals spi.idx)
unfolding launch
launch-IsProgress env spi segments txn callbacks sdk prepared after code quiet idle valid nonempty
      ran =
    let before = (sdk.peripherals spi.idx).host in
    let p = prepared.peripherals spi.idx in
    let stored : Peri → Sdk × ℕ = λ q. (store spi.idx q prepared, Code.ok) in
    let (q, launched, result) =
      (Option.map-eq-some_iff stored (spi_launch env txn callbacks p)).0 ran in
    let at_it : (spi.idx == spi.idx) ≡ true = ground arith in
    let there : after.peripherals spi.idx ≡ q =
      ap (λ (r : Sdk × ℕ). r.0.peripherals spi.idx) (sym result) ∙ rw at_it in
    let idle_p : IsIdle p = rw quiet idle in
    let progress : IsProgress p.host txn q =
      spi_launch-IsProgress env segments txn callbacks p q idle_p valid nonempty launched in
    let s : p.host.sent ≡ before.sent = ap (λ (x : Peri). x.host.sent) quiet in
    let i : p.host.issued ≡ before.issued = ap (λ (x : Peri). x.host.issued) quiet in
    let c : p.host.incoming ≡ before.incoming = ap (λ (x : Peri). x.host.incoming) quiet in
    let t : p.host.taken ≡ before.taken = ap (λ (x : Peri). x.host.taken) quiet in
    let a : arriving p.host ≡ arriving before = ap (λ (x : Peri). arriving x.host) quiet in
    (ap (λ (r : Sdk × ℕ). r.1) (sym result), rw there (rw (a, s, i, c, t) at progress))

-- A transfer that reports success passed the checks and launched.
passed :
    (error : ℕ) (prepared after : Sdk) (rest : Option (Sdk × ℕ))
    → (if not (error == 0) then some (prepared, error) else rest) ≡ some (after, 0)
    → (error ≡ 0) × (rest ≡ some (after, 0))
passed error prepared after rest ran = elim (Bool-cases (error == 0)) [
  | inl fine ↦ (ground (arith, fine), rw fine at ran)
  | inr bad ↦
      let refused : some (prepared, error) ≡ some (after, 0) = rw bad at ran in
      let code : error ≡ 0 =
        ap (λ (r : Sdk × ℕ). r.1) (Option.some-injective (prepared, error) (after, 0) refused) in
      absurd (ground (arith, bad, code))
]

-- The segments of the transfers of bytes are valid.
tx-IsValidSegment : (len : ℕ) → IsValidSegment (record { len = len; mode = mode_tx_std })
unfolding bitfield_read spi_validate_cmd
tx-IsValidSegment len = refl

rx-IsValidSegment : (len : ℕ) → IsValidSegment (record { len = len; mode = mode_rx_std })
unfolding bitfield_read spi_validate_cmd
rx-IsValidSegment len = refl

bidir-IsValidSegment : (len : ℕ) → IsValidSegment (record { len = len; mode = mode_bidir })
unfolding bitfield_read spi_validate_cmd
bidir-IsValidSegment len = refl

-- A transfer with one segment, after the checks.
one_segment-IsProgress :
    (env : Env) (spi : SpiT) (seg : Segment) (txn : Txn) (len : ℕ) (callbacks : Callbacks)
    (sdk after : Sdk)
    → IsValidSegment seg
    → txn.segments ≡ some (λ i. seg)
    → txn.seglen ≡ 1
    → IsIdle (sdk.peripherals spi.idx)
    → (if not ((prepare_len env spi len sdk).1 == 0)
        then some ((prepare_len env spi len sdk).0, (prepare_len env spi len sdk).1)
        else launch env spi txn callbacks (prepare_len env spi len sdk).0)
      ≡ some (after, 0)
    → MayStart env spi sdk
      × (0 < len)
      × (len < 2 ^ 24)
      × IsProgress (sdk.peripherals spi.idx).host txn (after.peripherals spi.idx)
unfolding prepare_len
one_segment-IsProgress env spi seg txn len callbacks sdk after valid there one idle ran =
    let (prepared, error) = prepare_len env spi len sdk in
    let (fine, launched) =
      passed error prepared after (launch env spi txn callbacks prepared) ran in
    let (may, some_bytes, fits) = (prepare_len-ok_iff env spi len sdk).0 fine in
    (
      may,
      some_bytes,
      fits,
      (launch-IsProgress env spi (λ i. seg) txn callbacks sdk prepared after 0
          (spi_prepare_transfer-IsQuiet env spi sdk spi.idx) idle (there, λ i lt. valid)
          (omega (arith, one)) launched).1,
    )

-- A transfer of bytes that reports success on an idle peripheral was allowed to start and has a
-- length that fits its segment; it is under way on the host as it was before the call, with one segment
-- of that length in the direction from the host, and what was sent so far are the first words of
-- the given buffer, at most a quarter of the length, rounded up.
pub spi_transmit_nb-IsProgress :
    (env : Env) (spi : SpiT) (src_buffer : ℕ → ℕ) (len : ℕ) (callbacks : Callbacks)
    (sdk after : Sdk)
    → IsIdle (sdk.peripherals spi.idx)
    → spi_transmit_nb env spi src_buffer len callbacks sdk ≡ some (after, 0)
    → MayStart env spi sdk
      × (0 < len)
      × (len < 2 ^ 24)
      × IsProgress
          (sdk.peripherals spi.idx).host
          (record {
            segments = some (λ i. record { len = len; mode = 2 });
            seglen = 1;
            txbuffer = some src_buffer;
            txlen = words_for len;
            rxbuffer = false;
            rxlen = 0;
          })
          (after.peripherals spi.idx)
unfolding spi_transmit_nb
spi_transmit_nb-IsProgress env spi src_buffer len callbacks sdk after idle ran =
    rw (← len_words-words_for len) (
      one_segment-IsProgress env spi (record { len = len; mode = mode_tx_std })
        (txn_tx src_buffer len) len callbacks sdk after (tx-IsValidSegment len) refl refl idle ran)

spi_receive_nb-IsProgress :
    (env : Env) (spi : SpiT) (len : ℕ) (callbacks : Callbacks) (sdk after : Sdk)
    → IsIdle (sdk.peripherals spi.idx)
    → spi_receive_nb env spi len callbacks sdk ≡ some (after, 0)
    → MayStart env spi sdk
      × (0 < len)
      × (len < 2 ^ 24)
      × IsProgress
          (sdk.peripherals spi.idx).host
          (record {
            segments = some (λ i. record { len = len; mode = 1 });
            seglen = 1;
            txbuffer = none;
            txlen = 0;
            rxbuffer = true;
            rxlen = words_for len;
          })
          (after.peripherals spi.idx)
unfolding spi_receive_nb
spi_receive_nb-IsProgress env spi len callbacks sdk after idle ran =
    rw (← len_words-words_for len) (
      one_segment-IsProgress env spi (record { len = len; mode = mode_rx_std }) (txn_rx len) len
        callbacks sdk after (rx-IsValidSegment len) refl refl idle ran)

spi_transceive_nb-IsProgress :
    (env : Env) (spi : SpiT) (src_buffer : ℕ → ℕ) (len : ℕ) (callbacks : Callbacks)
    (sdk after : Sdk)
    → IsIdle (sdk.peripherals spi.idx)
    → spi_transceive_nb env spi src_buffer len callbacks sdk ≡ some (after, 0)
    → MayStart env spi sdk
      × (0 < len)
      × (len < 2 ^ 24)
      × IsProgress
          (sdk.peripherals spi.idx).host
          (record {
            segments = some (λ i. record { len = len; mode = 3 });
            seglen = 1;
            txbuffer = some src_buffer;
            txlen = words_for len;
            rxbuffer = true;
            rxlen = words_for len;
          })
          (after.peripherals spi.idx)
unfolding spi_transceive_nb
spi_transceive_nb-IsProgress env spi src_buffer len callbacks sdk after idle ran =
    rw (← len_words-words_for len) (
      one_segment-IsProgress env spi (record { len = len; mode = mode_bidir })
        (txn_bidir src_buffer len) len callbacks sdk after (bidir-IsValidSegment len) refl refl idle
        ran)

-- A transfer of segments that reports success on an idle peripheral was allowed to start, its
-- segments, as many as eight bits hold, are all valid and there is one, and it is under way on the
-- host as it was before the call: with these segments, with the given buffer to send, of as many words
-- as the segments that send need, and with the buffer to receive, of as many words as the segments
-- that receive need, each segment a quarter of its length, rounded up, and the sums in 32 bits.
pub spi_execute_nb-IsProgress :
    (env : Env) (spi : SpiT) (segments : ℕ → Segment) (segments_len : ℕ)
    (src_buffer : Option (ℕ → ℕ)) (dest_buffer : Bool) (callbacks : Callbacks) (sdk after : Sdk)
    → IsIdle (sdk.peripherals spi.idx)
    → spi_execute_nb env spi segments segments_len src_buffer dest_buffer callbacks sdk
      ≡ some (after, 0)
    → MayStart env spi sdk
      × (0 < segments_len % 2 ^ 8)
      × ((i : ℕ) → i < segments_len % 2 ^ 8 → IsValidSegment (segments i))
      × IsProgress
          (sdk.peripherals spi.idx).host
          (record {
            segments = some segments;
            seglen = segments_len % 2 ^ 8;
            txbuffer = src_buffer;
            txlen = u32 (total (λ i. words_out (segments i)) 0 (segments_len % 2 ^ 8));
            rxbuffer = dest_buffer;
            rxlen = u32 (total (λ i. words_in (segments i)) 0 (segments_len % 2 ^ 8));
          })
          (after.peripherals spi.idx)
unfolding spi_execute_nb
spi_execute_nb-IsProgress env spi segments segments_len src_buffer dest_buffer callbacks sdk after
      idle ran =
    let (prepared, error) = spi_prepare_transfer env spi sdk in
    let counted = spi_validate_segments segments (u8 segments_len) 0 0 in
    let txn = txn_segments segments segments_len src_buffer dest_buffer counted in
    let (fine, checked) =
      passed error prepared after
        (if not counted.valid
          then some (prepared, Code.segment_inval)
          else launch env spi txn callbacks prepared)
        ran in
    elim (Bool-cases counted.valid) [
      | inr refused ↦
          let code = passed Code.segment_inval prepared after none (rw refused at checked) in
          absurd (ground (arith, code.0))
      | inl accepted ↦
          let launched : launch env spi txn callbacks prepared ≡ some (after, 0) =
            rw accepted at checked in
          let some_there = spi_validate_segments-some segments (u8 segments_len) 0 0 accepted in
          let valid : (i : ℕ) → i < u8 segments_len → IsValidSegment (segments i) = λ i lt.
            spi_validate_segments-IsValidSegment segments (u8 segments_len) 0 0 i accepted lt in
          let sums = spi_validate_segments-total segments (u8 segments_len) 0 0 some_there valid in
          let progress =
            (launch-IsProgress env spi segments txn callbacks sdk prepared after 0
              (spi_prepare_transfer-IsQuiet env spi sdk spi.idx) idle (refl, valid) some_there
              launched).1 in
          (
            (spi_prepare_transfer-ok_iff env spi sdk).0 fine,
            some_there,
            valid,
            subst
                (λ (c : Counted).
                  IsProgress (sdk.peripherals spi.idx).host
                    (txn_segments segments segments_len src_buffer dest_buffer c)
                    (after.peripherals spi.idx))
                sums progress,
          )
    ]
