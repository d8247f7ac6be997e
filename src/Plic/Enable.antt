-- ===== src/Plic/Enable.antt =====
-- The enable bits of the interrupts.
use core_v_mini_mcu.Base.{
  ℕ, zero, suc, ◌+◌, ◌/◌, ◌%◌, ◌<◌, ◌≤◌, ◌≡◌, refl, arith, ◌==◌, Bool, if◌then◌else◌, true, false,
  ne→==, eq→==, ℕ_discrete, Option, some, ap, ◌∙◌, sym, Bool-cases, inl, inr,
}
use core_v_mini_mcu.Bitfield.{bitfield_read, bitfield_write}
use core_v_mini_mcu.Mmio.{Region, update, mmio_region_read32, mmio_region_write32}
use core_v_mini_mcu.Mmio.Laws.{update_self, update-other}
use core_v_mini_mcu.Plic.{
  Result, ok, num_src, element, plic_offset_from_reg0, plic_irq_bit_index, plic_irq_set_enabled,
  plic_irq_get_enabled, plic_irq_set_trigger, plic_irq_set_priority, plic_target_set_threshold,
  Handler, Numbers, plic_init, clear, ie00, le0, prio0, threshold0, msip0,
}
use core_v_mini_mcu.Bitfield.OneBit.{read_bit-write, read_bit-zero}

-- The word that holds the enable bit of an interrupt.
abbrev word : ℕ → ℕ
word irq = element ie00 (irq / 32) / 4

abbrev enabled : Region → ℕ → ℕ
enabled r irq = bitfield_read (r (word irq)) 1 (irq % 32)

get_enabled-eq :
    (r : Region) (irq : ℕ) → irq < 64 → plic_irq_get_enabled r irq ≡ (ok, some (enabled r irq))
unfolding plic_irq_get_enabled plic_offset_from_reg0 plic_irq_bit_index
get_enabled-eq r irq h = ground arith

set_enabled-eq :
    (r : Region) (irq state : ℕ)
    → irq < 64
    → state ≤ 1
    → plic_irq_set_enabled r irq state
      ≡ (update r (word irq) (bitfield_write (r (word irq)) 1 (irq % 32) state), ok)
unfolding plic_irq_set_enabled plic_offset_from_reg0 plic_irq_bit_index
set_enabled-eq r irq state h s = ground arith

same_bit : (a b : ℕ) → a / 32 ≡ b / 32 → (a % 32 == b % 32) ≡ (a == b)
same_bit a b e = elim (ℕ_discrete a b) [
  | yes same ↦ rw (eq→== (a % 32) (b % 32) (omega arith), eq→== a b same)
  | no apart ↦ rw (ne→== (a % 32) (b % 32) (omega arith), ne→== a b apart)
]

enabled-write :
    (r : Region) (irq state other : ℕ)
    → state ≤ 1
    → enabled (update r (word irq) (bitfield_write (r (word irq)) 1 (irq % 32) state)) other
      ≡ (if other == irq then state else enabled r other)
enabled-write r irq state other s = elim (ℕ_discrete (other / 32) (irq / 32)) [
  | yes e ↦
      let there : word other ≡ word irq = ap (λ x. element ie00 x / 4) e in
      let old = r (word irq) in
      rw (there, update_self r (word irq) (bitfield_write old 1 (irq % 32) state))
        (rw (read_bit-write old (irq % 32) (other % 32) state (omega arith) s)
          (rw (same_bit other irq e)))
  | no ne ↦
      rw
        (update-other r (word irq) (bitfield_write (r (word irq)) 1 (irq % 32) state) (word other)
          (omega arith))
        (rw (ne→== other irq (omega arith)))
]

abbrev read_as : ℕ → Result × Option ℕ
read_as x = (ok, some x)

pick : (b : Bool) (x y : ℕ) → read_as (if b then x else y) ≡ (if b then read_as x else read_as y)
pick true x y = refl
pick false x y = refl

get_enabled-same :
    (r r' : Region) (irq : ℕ)
    → irq < 64
    → r' (word irq) ≡ r (word irq)
    → plic_irq_get_enabled r' irq ≡ plic_irq_get_enabled r irq
get_enabled-same r r' irq h e =
    get_enabled-eq r' irq h
    ∙ ap (λ (x : ℕ). (ok, some (bitfield_read x 1 (irq % 32)))) e
    ∙ sym (get_enabled-eq r irq h)

-- Enabling or disabling an interrupt of the controller sets what is read back for it, and changes
-- it for no other interrupt.
pub plic_irq_set-get_enabled :
    (r : Region) (irq state other : ℕ)
    → irq < 64
    → state ≤ 1
    → other < 64
    → let (r', result) = plic_irq_set_enabled r irq state in
      (result ≡ ok)
      × (plic_irq_get_enabled r' other
          ≡ (if other == irq then (ok, some state) else plic_irq_get_enabled r other))
plic_irq_set-get_enabled r irq state other h s o = rw (set_enabled-eq r irq state h s) (
  refl,
  get_enabled-eq (update r (word irq) (bitfield_write (r (word irq)) 1 (irq % 32) state)) other o
      ∙ ap read_as (enabled-write r irq state other s)
      ∙ pick (other == irq) state (enabled r other)
      ∙ ap (λ (x : Result × Option ℕ). if other == irq then (ok, some state) else x)
          (sym (get_enabled-eq r other o)),
)

set_trigger-keeps :
    (r : Region) (irq value other : ℕ)
    → (plic_irq_set_trigger r irq value).0 (word other) ≡ r (word other)
unfolding plic_irq_set_trigger plic_offset_from_reg0
set_trigger-keeps r irq value other = ground arith

set_priority-keeps :
    (r : Region) (irq value other : ℕ)
    → (plic_irq_set_priority r irq value).0 (word other) ≡ r (word other)
unfolding plic_irq_set_priority
set_priority-keeps r irq value other = ground arith

set_threshold-keeps :
    (r : Region) (value other : ℕ)
    → other < 64
    → (plic_target_set_threshold r value).0 (word other) ≡ r (word other)
unfolding plic_target_set_threshold
set_threshold-keeps r value other o = ground arith

-- The trigger, the priority and the threshold have no effect on which interrupts are enabled,
-- whatever the arguments.
pub plic_irq_get_enabled-unaffected :
    (r : Region) (irq value other : ℕ)
    → other < 64
    → (plic_irq_get_enabled (plic_irq_set_trigger r irq value).0 other
        ≡ plic_irq_get_enabled r other)
      × (plic_irq_get_enabled (plic_irq_set_priority r irq value).0 other
          ≡ plic_irq_get_enabled r other)
      × (plic_irq_get_enabled (plic_target_set_threshold r value).0 other
          ≡ plic_irq_get_enabled r other)
plic_irq_get_enabled-unaffected r irq value other o = (
  get_enabled-same r (plic_irq_set_trigger r irq value).0 other o
      (set_trigger-keeps r irq value other),
  get_enabled-same r (plic_irq_set_priority r irq value).0 other o
      (set_priority-keeps r irq value other),
  get_enabled-same r (plic_target_set_threshold r value).0 other o
      (set_threshold-keeps r value other o),
)

initial : (r : Region) (i : ℕ) → i < 2 → clear ie00 2 0 r (128 + i) ≡ 0
unfolding clear
initial r zero h = refl
initial r (suc zero) h = refl
initial r (suc (suc i)) h = absurd (omega arith)

init-cleared :
    (n : Numbers) (device : Region → Region) (r : Region) (handlers : ℕ → Handler) (i : ℕ)
    → ((q : Region) (i : ℕ) → i < 2 → device q (128 + i) ≡ q (128 + i))
    → i < 2
    → (plic_init n device r handlers).0.0 (128 + i) ≡ 0
unfolding plic_init
init-cleared n device r handlers i leaves h =
    let r1 = clear ie00 2 0 (clear prio0 num_src 0 (clear le0 2 0 r)) in
    let r2 = device (mmio_region_write32 r1 threshold0 0) in
    let r3 = device (mmio_region_write32 r2 msip0 0) in
    let second : r2 (128 + i) ≡ 0 =
      leaves (mmio_region_write32 r1 threshold0 0) i h
      ∙ update-other r1 130 0 (128 + i) (omega arith)
      ∙ initial (clear prio0 num_src 0 (clear le0 2 0 r)) i h in
    let third : r3 (128 + i) ≡ 0 =
      leaves (mmio_region_write32 r2 msip0 0) i h
      ∙ update-other r2 132 0 (128 + i) (omega arith)
      ∙ second in
    elim (Bool-cases (mmio_region_read32 r2 threshold0 == 0)) [
      | inl a ↦ elim (Bool-cases (mmio_region_read32 r3 msip0 == 0)) [
        | inl b ↦ rw a (rw b third)
        | inr b ↦ rw a (rw b third)
      ]
      | inr a ↦ rw a second
    ]

-- A controller that is initialised has every interrupt disabled, whatever it was before, if what
-- the device does when a register is read back leaves the enable registers.
pub plic_init-get_enabled :
    (n : Numbers) (device : Region → Region) (r : Region) (handlers : ℕ → Handler) (irq : ℕ)
    → ((q : Region) (i : ℕ) → i < 2 → device q (128 + i) ≡ q (128 + i))
    → irq < 64
    → let ((r', _), result) = plic_init n device r handlers in
      plic_irq_get_enabled r' irq ≡ (ok, some 0)
plic_init-get_enabled n device r handlers irq leaves h =
    let r' = (plic_init n device r handlers).0.0 in
    let there : word irq ≡ 128 + irq / 32 = omega arith in
    let off : r' (word irq) ≡ 0 =
      rw there (init-cleared n device r handlers (irq / 32) leaves (omega arith)) in
    get_enabled-eq r' irq h
    ∙ ap read_as (ap (λ (x : ℕ). bitfield_read x 1 (irq % 32)) off ∙ read_bit-zero (irq % 32))
