-- ===== src/Dma/Validate/Passes.antt =====
-- The ways through the checks of the validation: each rejects, or hands its transaction on.
use core_v_mini_mcu.Base.{
  ℕ, zero, suc, ◌≡◌, ◌≢◌, refl, arith, inl, inr, ◌⊎◌, Bool, true, false, not, ◌==◌, if◌then◌else◌,
  ne→==, bit_or,
}
use core_v_mini_mcu.Dma.Config
use core_v_mini_mcu.Dma.Config.{is_critical}
use core_v_mini_mcu.Dma.Types.{Target, Trans}
use core_v_mini_mcu.Dma.Validate.{
  Checked, returned, continued, ◌>>=◌, result_of, raise, reject, check_targets, check_increments,
  check_padding, check_triggers, check_mode, check_sizes, check_outbound, dst_outbound, realign,
}
use core_v_mini_mcu.Dma.Validate.Flags.{
  noted, verdict, verdict-reject, check_targets_lem, is_critical-bit_or,
}

if_cases {ℓ} :
    {A : Type ℓ} (b : Bool) (x y : A) → ((if b then x else y) ≡ x) ⊎ ((if b then x else y) ≡ y)
if_cases true x y = inl refl
if_cases false x y = inr refl

never_clean : (f : ℕ) → is_critical (bit_or f Config.critical_error) ≢ false
never_clean f h = ground (arith, is_critical-bit_or f Config.critical_error)

module _ (P : Trans → Type 0) where
  -- A check that does not end in a critical flag hands on to the rest.
  pub passes :
      (c : Checked) (flag : ℕ) (b t : Trans) (rest : Trans → Checked)
      → (c ≡ reject flag b) ⊎ (c ≡ continued t)
      → verdict (c >>= rest) ≡ false
      → (verdict (rest t) ≡ false → P (result_of (rest t)))
      → P (result_of (c >>= rest))
  passes c flag b t rest (inl e) h next =
      let failed : verdict (reject flag b >>= rest) ≡ false = rw e at h in
      cc (verdict-reject true flag b rest)
  passes c flag b t rest (inr e) h next = rw e (next (rw e at h))

  -- The alignment check hands on an aligned transaction, or a realigned one.
  pub passes_alignment :
      (m : ℕ) (en dis : Bool) (t2 : Trans) (rest : Trans → Checked)
      → verdict (
          (if m == 0
            then continued t2
            else if not en
            then returned (raise Config.critical_error (raise Config.misalign t2))
            else if dis
            then reject Config.discontinuous (raise Config.misalign t2)
            else continued (realign m (raise Config.misalign t2)))
          >>= rest)
        ≡ false
      → (m ≡ 0 → verdict (rest t2) ≡ false → P (result_of (rest t2)))
      → (m ≢ 0
          → verdict (rest (realign m (raise Config.misalign t2))) ≡ false
          → P (result_of (rest (realign m (raise Config.misalign t2)))))
      → P (
          result_of (
            (if m == 0
              then continued t2
              else if not en
              then returned (raise Config.critical_error (raise Config.misalign t2))
              else if dis
              then reject Config.discontinuous (raise Config.misalign t2)
              else continued (realign m (raise Config.misalign t2)))
            >>= rest))
  passes_alignment zero en dis t2 rest h straight moved = straight refl h
  passes_alignment (suc m) en dis t2 rest h straight moved =
      let e : (suc m == 0) ≡ false = ne→== (suc m) 0 (omega arith) in
      rw e (moved_on en dis (rw e at h))
    where
      moved_on :
          (en dis : Bool)
          → verdict (
              (if not en
                then returned (raise Config.critical_error (raise Config.misalign t2))
                else if dis
                then reject Config.discontinuous (raise Config.misalign t2)
                else continued (realign (suc m) (raise Config.misalign t2)))
              >>= rest)
            ≡ false
          → P (
              result_of (
                (if not en
                  then returned (raise Config.critical_error (raise Config.misalign t2))
                  else if dis
                  then reject Config.discontinuous (raise Config.misalign t2)
                  else continued (realign (suc m) (raise Config.misalign t2)))
                >>= rest))
      moved_on false dis h1 = absurd (never_clean (bit_or t2.flags Config.misalign) h1)
      moved_on true true h1 =
          absurd (never_clean (bit_or (bit_or t2.flags Config.misalign) Config.discontinuous) h1)
      moved_on true false h1 = moved (λ z. absurd (omega arith)) h1

  pub passes_targets :
      (src dst : Target) (t : Trans) (rest : Trans → Checked)
      → is_critical t.flags ≡ false
      → verdict (check_targets src dst t >>= rest) ≡ false
      → (verdict (rest (noted src dst t)) ≡ false → P (result_of (rest (noted src dst t))))
      → P (result_of (check_targets src dst t >>= rest))
  passes_targets src dst t rest clean h next =
      let same : (check_targets src dst t >>= rest) ≡ rest (noted src dst t) =
        rw (check_targets_lem src dst t, clean) in
      rw same (next (rw same at h))

pub increments_cases :
    (src dst : Target) (check : Bool) (t : Trans)
    → (check_increments src dst check t ≡ reject Config.incompatible t)
      ⊎ (check_increments src dst check t ≡ continued t)
unfolding check_increments
increments_cases src dst check t = if_cases _ (reject Config.incompatible t) (continued t)

pub padding_cases :
    (check : Bool) (t : Trans)
    → (check_padding check t ≡ reject Config.incompatible t) ⊎ (check_padding check t ≡ continued t)
unfolding check_padding
padding_cases check t = if_cases _ (reject Config.incompatible t) (continued t)

pub triggers_cases :
    (src dst : Target) (check : Bool) (t : Trans)
    → (check_triggers src dst check t ≡ reject Config.incompatible t)
      ⊎ (check_triggers src dst check t ≡ continued t)
unfolding check_triggers
triggers_cases src dst check t = if_cases _ (reject Config.incompatible t) (continued t)

pub mode_cases :
    (src dst : Target) (check : Bool) (t : Trans)
    → (check_mode src dst check t ≡ reject Config.incompatible t)
      ⊎ (check_mode src dst check t ≡ continued t)
unfolding check_mode
mode_cases src dst check t = if_cases _ (reject Config.incompatible t) (continued t)

pub sizes_cases :
    (t : Trans) → (check_sizes t ≡ reject Config.src t) ⊎ (check_sizes t ≡ continued t)
unfolding check_sizes
sizes_cases t = if_cases _ (reject Config.src t) (continued t)

pub outbound_cases :
    (dst : Target) (t : Trans)
    → (check_outbound dst t ≡ reject Config.outbounds (raise Config.dst t))
      ⊎ (check_outbound dst t ≡ continued t)
unfolding check_outbound
outbound_cases dst t =
    if_cases (dst_outbound dst t) (reject Config.outbounds (raise Config.dst t)) (continued t)
