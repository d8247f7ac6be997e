-- ===== src/SpiSdk/Transfer/Issue.antt =====
-- The commands of a transaction, and the host that takes one.
use core_v_mini_mcu.Base.{
  ℕ, ◌+◌, ◌-◌, ◌%◌, ◌^◌, ◌<◌, ◌≡◌, arith, ap, ◌∙◌, ◌∷◌, [], ◌++◌, true, not, ◌==◌, List,
  if◌then◌else◌, some,
}
use core_v_mini_mcu.Bitfield.{bitfield_read}
use core_v_mini_mcu.Bitfield.Pack.{bitfield_read-ones}
use core_v_mini_mcu.SpiHost.{Host, Device, settle, is_ready, spi_get_status, spi_set_command}
use core_v_mini_mcu.SpiHost.Word.{Command, spi_validate_cmd, spi_create_command, to_bit}
use core_v_mini_mcu.SpiHost.Encoding.{spi_create_command_lem}
use core_v_mini_mcu.SpiSdk.Segments.{direction_of, speed_of}
use core_v_mini_mcu.SpiSdk.Transfer.{segment_command, spi_issue_next_seg}
use core_v_mini_mcu.SpiSdk.Transfer.Stream.{IsProgress, first, append-first}
use core_v_mini_mcu.SpiSdk.Types.{Segment, Peri, Txn, Env}

abbrev pub IsValidSegment : Segment → Type 0
IsValidSegment seg = spi_validate_cmd (direction_of seg.mode) (speed_of seg.mode) ≡ true

-- The transaction has segments, and each has a direction and a speed that go together.
abbrev pub IsValidTxn : (ℕ → Segment) → Txn → Type 0
IsValidTxn segments txn =
    (txn.segments ≡ some segments) × ((i : ℕ) → i < txn.seglen → IsValidSegment (segments i))

two_bits : (mode i : ℕ) → bitfield_read mode 3 i < 4
two_bits mode i = omega (arith, bitfield_read-ones mode 2 i)

command_fields :
    (segments : ℕ → Segment) (txn : Txn) (scnt : ℕ)
    → txn.segments ≡ some segments
    → let w = segment_command txn scnt in
      (bitfield_read w 0xffffff 0 ≡ ((segments scnt).len + (2 ^ 24 - 1)) % 2 ^ 24)
      × (bitfield_read w 1 24 ≡ to_bit (not (txn.seglen == scnt + 1)))
      × (bitfield_read w 3 25 ≡ speed_of (segments scnt).mode)
      × (bitfield_read w 3 27 ≡ direction_of (segments scnt).mode)
unfolding segment_command
command_fields segments txn scnt there =
    let seg = segments scnt in
    let command : Command = record {
      len = (seg.len + (2 ^ 24 - 1)) % 2 ^ 24;
      csaat = not (txn.seglen == scnt + 1);
      speed = speed_of seg.mode;
      direction = direction_of seg.mode;
    } in
    let same : segment_command txn scnt ≡ spi_create_command command =
      rw (there, segment_command) in
    rw same (
      let r =
        spi_create_command_lem command (omega arith) (two_bits seg.mode 2) (two_bits seg.mode 0) in
      (r.0, r.1, r.2, r.3))

-- The command of a segment has the segment's direction and speed and its length less one, and keeps
-- the chip select active unless the segment is the last.
pub segment_command_lem :
    (segments : ℕ → Segment) (txn : Txn) (scnt : ℕ)
    → txn.segments ≡ some segments
    → 0 < (segments scnt).len
    → (segments scnt).len < 2 ^ 24
    → let w = segment_command txn scnt in
      (bitfield_read w 0xffffff 0 + 1 ≡ (segments scnt).len)
      × (bitfield_read w 1 24 ≡ (if txn.seglen == scnt + 1 then 0 else 1))
      × (bitfield_read w 3 25 ≡ speed_of (segments scnt).mode)
      × (bitfield_read w 3 27 ≡ direction_of (segments scnt).mode)
segment_command_lem segments txn scnt there nonempty fits =
    let (len, csaat, speed, direction) = command_fields segments txn scnt there in
    (omega (arith, len), ground (arith, csaat), speed, direction)

pub set_command-ready :
    (device : Device) (cmd_reg : ℕ) (h : Host)
    → is_ready (spi_get_status h) ≡ true
    → spi_validate_cmd (bitfield_read cmd_reg 3 27) (bitfield_read cmd_reg 3 25) ≡ true
    → (spi_set_command device cmd_reg h).0
      ≡ settle device (record h { issued = h.issued ++ cmd_reg ∷ [] })
unfolding spi_set_command
set_command-ready device cmd_reg h ready valid = rw (ready, valid)

-- A segment that is issued on a host that is ready is taken.
pub issue-IsProgress :
    (env : Env) (before : Host) (segments : ℕ → Segment) (txn : Txn) (p : Peri)
    → IsValidTxn segments txn
    → is_ready (spi_get_status p.host) ≡ true
    → p.scnt < txn.seglen
    → IsProgress before txn p
    → IsProgress before txn (spi_issue_next_seg env p)
unfolding spi_issue_next_seg
issue-IsProgress env before segments txn p (there, valid) ready left
      (busy, same, sent, issued, incoming, taken, received, t, r, s) =
    let w = segment_command txn p.scnt in
    let (len, csaat, speed, direction) = command_fields segments txn p.scnt there in
    let compatible : spi_validate_cmd (bitfield_read w 3 27) (bitfield_read w 3 25) ≡ true =
      rw (speed, direction) (valid p.scnt left) in
    let h = settle env.device (record (p.host) { issued = p.host.issued ++ w ∷ [] }) in
    let took : (spi_set_command env.device (segment_command p.txn p.scnt) p.host).0 ≡ h =
      rw same (set_command-ready env.device w p.host ready compatible) in
    let now : h.issued ≡ before.issued ++ first (segment_command txn) (p.scnt + 1) =
      ap (λ (xs : List ℕ). xs ++ w ∷ []) issued
      ∙ append-first before.issued (segment_command txn) p.scnt in
    rw took (busy, same, sent, now, incoming, taken, received, t, r, omega arith)
