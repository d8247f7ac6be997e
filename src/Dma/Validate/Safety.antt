-- ===== src/Dma/Validate/Safety.antt =====
-- What holds of a transaction that the validation accepts.
use core_v_mini_mcu.Base.{
  ℕ, ◌+◌, ◌≡◌, ◌≢◌, arith, inl, inr, ◌⊎◌, Bool, true, false, ◌==◌, if◌then◌else◌, ne→==, ap, ◌∙◌,
  sym,
}
use core_v_mini_mcu.Dma.Config
use core_v_mini_mcu.Dma.Config.{is_critical}
use core_v_mini_mcu.Dma.Types.{Target, Trans, data_type_2_size}
use core_v_mini_mcu.Dma.Validate.{
  continued, result_of, raise, reject, check_increments, check_padding, check_triggers, check_mode,
  set_defaults, check_alignment, check_sizes, check_outbound, check_window, check_integrity,
  validate_trans, target_misalignment, realign,
}
use core_v_mini_mcu.Dma.Validate.Refusal.{misalignment}
use core_v_mini_mcu.Dma.Validate.Flags.{noted, verdict}
use core_v_mini_mcu.Dma.Validate.Integrity.{later, larger}
use core_v_mini_mcu.Dma.Validate.Passes.{
  passes, passes_alignment, passes_targets, increments_cases, padding_cases, triggers_cases,
  mode_cases, sizes_cases, outbound_cases,
}

-- The fields that the validation may set, with the type that realignment leaves.
abbrev pub settled : Target → Target → Trans → ℕ → Trans
settled src dst t flags =
    let m = misalignment src dst t in
    record t {
      flags = flags;
      src_type = src.type;
      dst_type = dst.type + m;
      inc_b = if m == 0 then 0 else data_type_2_size (dst.type + m);
    }

-- What the validation leaves, up to the flags.
abbrev Settled : Target → Target → Trans → Trans → Type 0
Settled src dst t u = u ≡ settled src dst t u.flags

Settled-flags :
    (src dst : Target) (t u : Trans) (f : ℕ)
    → Settled src dst t u
    → Settled src dst t (record u { flags = f })
Settled-flags src dst t u f done = ap (λ (x : Trans). record x { flags = f }) done

window_cases :
    (u : Trans)
    → (check_window u ≡ reject Config.window_size u)
      ⊎ (check_window u ≡ continued (raise Config.window_size u))
      ⊎ (check_window u ≡ continued u)
unfolding check_window
window_cases u = ground arith

Settled-window :
    (src dst : Target) (t u : Trans)
    → Settled src dst t u
    → Settled src dst t (result_of (check_window u))
Settled-window src dst t u done = elim (window_cases u) [
  | inl e ↦ rw e (Settled-flags src dst t u _ done)
  | inr (inl e) ↦ rw e (Settled-flags src dst t u _ done)
  | inr (inr e) ↦ rw e done
]

Settled-later :
    (src dst : Target) (t u : Trans)
    → Settled src dst t u
    → verdict (later dst u) ≡ false
    → Settled src dst t (result_of (later dst u))
Settled-later src dst t u done h =
    let P = Settled src dst t in
    passes P (check_sizes u) Config.src u u _ (sizes_cases u) h (λ h1.
      passes P (check_outbound dst u) Config.outbounds (raise Config.dst u) u _
        (outbound_cases dst u) h1 (λ h2. Settled-window src dst t u done))

Settled-straight :
    (src dst : Target) (t : Trans) (f : ℕ)
    → misalignment src dst t ≡ 0
    → Settled src dst t (record (set_defaults src dst t) { flags = f })
unfolding set_defaults
Settled-straight src dst t f e = let same : dst.type + 0 ≡ dst.type = omega arith in rw (e, same)

Settled-moved :
    (src dst : Target) (t : Trans) (m f : ℕ)
    → m ≡ misalignment src dst t
    → m ≢ 0
    → Settled src dst t (realign m (record (set_defaults src dst t) { flags = f }))
unfolding set_defaults realign
Settled-moved src dst t m f e ne =
    let same : (misalignment src dst t == 0) ≡ false = ne→== _ 0 (λ z. ne (e ∙ z)) in
    rw same (
      ap
        (λ (k : ℕ). record (record (set_defaults src dst t) { flags = f }) {
          dst_type = dst.type + k;
          inc_b = data_type_2_size (dst.type + k);
        })
        e)

Settled-integrity :
    (src dst : Target) (en_realign : Bool) (t : Trans)
    → verdict (check_integrity src dst en_realign (set_defaults src dst t)) ≡ false
    → Settled src dst t (result_of (check_integrity src dst en_realign (set_defaults src dst t)))
unfolding check_integrity check_alignment set_defaults
Settled-integrity src dst en_realign t h =
    let P = Settled src dst t in
    passes_alignment P _ en_realign _ _ (later dst) h
      (λ e h1.
        Settled-later src dst t _
          (Settled-straight src dst t _ (
            sym (larger (target_misalignment src src.type) (target_misalignment dst dst.type)) ∙ e))
          h1)
      (λ ne h1.
        Settled-later src dst t _
          (Settled-moved src dst t _ _
            (larger (target_misalignment src src.type) (target_misalignment dst dst.type)) ne)
          h1)

-- A transaction that had no critical flag and has none after a validation with the checks is the
-- request with new flags, the types of its targets, the destination's moved by the larger
-- misalignment, and the common increment: 0 if nothing is misaligned, the moved type's size otherwise.
pub validate_trans-Settled :
    (src dst : Target) (en_realign : Bool) (t : Trans)
    → is_critical t.flags ≡ false
    → is_critical (result_of (validate_trans src dst en_realign true t)).flags ≡ false
    → let u = result_of (validate_trans src dst en_realign true t) in u ≡ settled src dst t u.flags
unfolding validate_trans
validate_trans-Settled src dst en_realign t clean h =
    let n = noted src dst t in
    let P = Settled src dst t in
    passes_targets P src dst t _ clean h (λ h1.
      passes P (check_increments src dst true n) Config.incompatible n n _
        (increments_cases src dst true n) h1
        (λ h2.
          passes P (check_padding true n) Config.incompatible n n _ (padding_cases true n) h2 (λ h3.
            passes P (check_triggers src dst true n) Config.incompatible n n _
              (triggers_cases src dst true n) h3
              (λ h4.
                passes P (check_mode src dst true n) Config.incompatible n n _
                  (mode_cases src dst true n) h4
                  (λ h5. Settled-integrity src dst en_realign n h5)))))
