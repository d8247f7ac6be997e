-- ===== src/SpiHost/Encoding.antt =====
-- The words of the SPI host decode to what they were built from.
use core_v_mini_mcu.Base.{◌+◌, ◌*◌, ◌^◌, ◌<◌, ◌≡◌, arith, Bool, true, false, ◌∙◌}
use core_v_mini_mcu.Bitfield.{bitfield_read, bitfield_write}
use core_v_mini_mcu.Bitfield.Pack.{bitfield_read-ones, bitfield_write-above}
use core_v_mini_mcu.SpiHost.Word.{
  Command, ConfigOpts, to_bit, spi_create_command, spi_create_configopts,
  spi_create_configopts_structure,
}

-- The fields of the options are within their bit fields.
abbrev pub IsConfigOpts : ConfigOpts → Type 0
IsConfigOpts c =
    (c.clkdiv < 2 ^ 16)
    × (c.csnidle < 2 ^ 4)
    × (c.csntrail < 2 ^ 4)
    × (c.csnlead < 2 ^ 4)
    × (c.fullcyc < 2)
    × (c.cpha < 2)
    × (c.cpol < 2)

create_configopts-sum :
    (c : ConfigOpts)
    → IsConfigOpts c
    → spi_create_configopts c
      ≡ c.clkdiv
        + c.csnidle * 2 ^ 16
        + c.csntrail * 2 ^ 20
        + c.csnlead * 2 ^ 24
        + c.fullcyc * 2 ^ 29
        + c.cpha * 2 ^ 30
        + c.cpol * 2 ^ 31
unfolding spi_create_configopts
create_configopts-sum c h =
    let r1 = bitfield_write 0 0xffff 0 c.clkdiv in
    let e1 : r1 ≡ c.clkdiv =
      bitfield_write-above 0 16 0 c.clkdiv (omega arith) h.0 (omega arith) (omega arith)
      ∙ omega arith in
    let r2 = c.clkdiv + c.csnidle * 2 ^ 16 in
    let e2 : bitfield_write c.clkdiv 0xf 16 c.csnidle ≡ r2 =
      bitfield_write-above c.clkdiv 4 16 c.csnidle (omega arith) (omega arith) (omega arith)
        (omega arith) in
    let r3 = r2 + c.csntrail * 2 ^ 20 in
    let e3 : bitfield_write r2 0xf 20 c.csntrail ≡ r3 =
      bitfield_write-above r2 4 20 c.csntrail (omega arith) (omega arith) (omega arith)
        (omega arith) in
    let r4 = r3 + c.csnlead * 2 ^ 24 in
    let e4 : bitfield_write r3 0xf 24 c.csnlead ≡ r4 =
      bitfield_write-above r3 4 24 c.csnlead (omega arith) (omega arith) (omega arith)
        (omega arith) in
    let r5 = r4 + c.fullcyc * 2 ^ 29 in
    let e5 : bitfield_write r4 1 29 c.fullcyc ≡ r5 =
      bitfield_write-above r4 1 29 c.fullcyc (omega arith) (omega arith) (omega arith)
        (omega arith) in
    let r6 = r5 + c.cpha * 2 ^ 30 in
    let e6 : bitfield_write r5 1 30 c.cpha ≡ r6 =
      bitfield_write-above r5 1 30 c.cpha (omega arith) (omega arith) (omega arith) (omega arith) in
    let e7 : bitfield_write r6 1 31 c.cpol ≡ r6 + c.cpol * 2 ^ 31 =
      bitfield_write-above r6 1 31 c.cpol (omega arith) (omega arith) (omega arith) (omega arith) in
    rw (e1, e2, e3, e4, e5, e6, e7)

-- Options whose fields are within their bit fields are read back from the word that is created from
-- them.
pub spi_create_configopts_structure-spi_create_configopts :
    (c : ConfigOpts)
    → IsConfigOpts c
    → spi_create_configopts_structure (spi_create_configopts c) ≡ c
unfolding spi_create_configopts_structure
spi_create_configopts_structure-spi_create_configopts c h =
    let w = spi_create_configopts c in
    let sum = create_configopts-sum c h in
    let f0 : bitfield_read w 0xffff 0 ≡ c.clkdiv = bitfield_read-ones w 16 0 ∙ omega (arith, sum) in
    let f1 : bitfield_read w 0xf 16 ≡ c.csnidle = bitfield_read-ones w 4 16 ∙ omega (arith, sum) in
    let f2 : bitfield_read w 0xf 20 ≡ c.csntrail = bitfield_read-ones w 4 20 ∙ omega (arith, sum) in
    let f3 : bitfield_read w 0xf 24 ≡ c.csnlead = bitfield_read-ones w 4 24 ∙ omega (arith, sum) in
    let f4 : bitfield_read w 1 29 ≡ c.fullcyc = bitfield_read-ones w 1 29 ∙ omega (arith, sum) in
    let f5 : bitfield_read w 1 30 ≡ c.cpha = bitfield_read-ones w 1 30 ∙ omega (arith, sum) in
    let f6 : bitfield_read w 1 31 ≡ c.cpol = bitfield_read-ones w 1 31 ∙ omega (arith, sum) in
    rw (f0, f1, f2, f3, f4, f5, f6)

to_bit-lt : (b : Bool) → to_bit b < 2
to_bit-lt true = omega arith
to_bit-lt false = omega arith

create_command-sum :
    (c : Command)
    → c.len < 2 ^ 24
    → c.speed < 4
    → c.direction < 4
    → spi_create_command c
      ≡ c.len + to_bit c.csaat * 2 ^ 24 + c.speed * 2 ^ 25 + c.direction * 2 ^ 27
unfolding spi_create_command
create_command-sum c l s d =
    let one = to_bit-lt c.csaat in
    let e1 : bitfield_write 0 0xffffff 0 c.len ≡ c.len =
      bitfield_write-above 0 24 0 c.len (omega arith) l (omega arith) (omega arith) ∙ omega arith in
    let r2 = c.len + to_bit c.csaat * 2 ^ 24 in
    let e2 : bitfield_write c.len 1 24 (to_bit c.csaat) ≡ r2 =
      bitfield_write-above c.len 1 24 (to_bit c.csaat) l one (omega arith) (omega arith) in
    let r3 = r2 + c.speed * 2 ^ 25 in
    let e3 : bitfield_write r2 3 25 c.speed ≡ r3 =
      bitfield_write-above r2 2 25 c.speed (omega arith) s (omega arith) (omega arith) in
    let e4 : bitfield_write r3 3 27 c.direction ≡ r3 + c.direction * 2 ^ 27 =
      bitfield_write-above r3 2 27 c.direction (omega arith) d (omega arith) (omega arith) in
    rw (e1, e2, e3, e4)

-- The fields of a command word are the command's, if they are within their bit fields.
pub spi_create_command_lem :
    (c : Command)
    → c.len < 2 ^ 24
    → c.speed < 4
    → c.direction < 4
    → let w = spi_create_command c in
      (bitfield_read w 0xffffff 0 ≡ c.len)
      × (bitfield_read w 1 24 ≡ to_bit c.csaat)
      × (bitfield_read w 3 25 ≡ c.speed)
      × (bitfield_read w 3 27 ≡ c.direction)
      × (w < 2 ^ 29)
spi_create_command_lem c l s d =
    let w = spi_create_command c in
    let sum = create_command-sum c l s d in
    let one = to_bit-lt c.csaat in
    (
      bitfield_read-ones w 24 0 ∙ omega (arith, sum),
      bitfield_read-ones w 1 24 ∙ omega (arith, sum),
      bitfield_read-ones w 2 25 ∙ omega (arith, sum),
      bitfield_read-ones w 2 27 ∙ omega (arith, sum),
      omega (arith, sum),
    )
