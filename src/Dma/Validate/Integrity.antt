-- ===== src/Dma/Validate/Integrity.antt =====
-- The verdict of the checks that compare the transaction with memory.
use core_v_mini_mcu.Base.{
  ℕ, suc, ◌+◌, ◌≡◌, refl, arith, Bool-cases, ne→==, zero, inl, inr, Bool, true, false, not, ◌&&◌,
  ◌||◌, ltb, ◌==◌, if◌then◌else◌, bit_or, max,
}
use core_v_mini_mcu.Dma.Config
use core_v_mini_mcu.Dma.Config.{is_critical}
use core_v_mini_mcu.Dma.Types.{Target, Trans, is_2d}
use core_v_mini_mcu.Dma.Validate.{
  Checked, returned, continued, ◌>>=◌, raise, reject, set_defaults, check_alignment, check_sizes,
  check_outbound, check_window, check_integrity, target_misalignment, dst_outbound, realign,
}
use core_v_mini_mcu.Dma.Validate.Flags.{is_critical-bit_or, noted, verdict, verdict-reject}
use core_v_mini_mcu.Dma.Validate.Refusal.{misalignment, misaligned, empty, outbound}

pub or_assoc : (a b c : Bool) → (a || (b || c)) ≡ (a || b || c)
or_assoc true b c = refl
or_assoc false b c = refl

-- A warning is not an error.
pub verdict-check_window :
    (t : Trans) → is_critical t.flags ≡ false → verdict (check_window t) ≡ ltb t.size_d1_du t.win_du
unfolding check_window
verdict-check_window t clean = ground (
  arith,
  is_critical-bit_or t.flags Config.window_size,
  is_critical-bit_or (bit_or t.flags Config.window_size) Config.critical_error,
)

-- The checks after the alignment, for a transaction that has passed so far.
abbrev pub later : Target → Trans → Checked
later dst t = check_sizes t >>= λ t2. check_outbound dst t2 >>= λ t3. check_window t3

pub verdict-check_sizes :
    (t : Trans) (rest : Trans → Checked)
    → verdict (check_sizes t >>= rest)
      ≡ ((t.size_d1_du == 0 || is_2d t.dim && t.size_d2_du == 0) || verdict (rest t))
unfolding check_sizes
verdict-check_sizes t rest = verdict-reject _ Config.src t rest

pub verdict-check_outbound :
    (dst : Target) (t : Trans) (rest : Trans → Checked)
    → verdict (check_outbound dst t >>= rest) ≡ (dst_outbound dst t || verdict (rest t))
unfolding check_outbound
verdict-check_outbound dst t rest = elim (Bool-cases (dst_outbound dst t)) [
  | inl out ↦
      rw
        (
          out,
          is_critical-bit_or (bit_or (bit_or t.flags Config.dst) Config.outbounds)
              Config.critical_error,
        )
        (ground arith)
  | inr inside ↦ rw inside refl
]

pub verdict-later :
    (dst : Target) (t : Trans)
    → is_critical t.flags ≡ false
    → verdict (later dst t) ≡ (
        (t.size_d1_du == 0 || is_2d t.dim && t.size_d2_du == 0)
        || dst_outbound dst t
        || ltb t.size_d1_du t.win_du)
verdict-later dst t clean =
    rw (verdict-check_sizes t (λ t2. check_outbound dst t2 >>= λ t3. check_window t3)) (
      rw (verdict-check_outbound dst t (λ t3. check_window t3))
        (rw (verdict-check_window t clean) (or_assoc _ (dst_outbound dst t) _)))

dst_outbound-eq :
    (dst : Target) (t u : Trans)
    → t.dst_type ≡ u.dst_type
    → t.size_d1_du ≡ u.size_d1_du
    → dst_outbound dst t ≡ dst_outbound dst u
unfolding dst_outbound
dst_outbound-eq dst t u same_type same_size = rw (same_type, same_size)

-- Neither end's flag is the critical one.
marks_clean :
    (s d : ℕ)
    → is_critical (
        bit_or
          (bit_or Config.ok (if s == 0 then Config.ok else Config.src))
          (if d == 0 then Config.ok else Config.dst))
      ≡ false
marks_clean s d = ground arith

module _ (src dst : Target) (en_realign : Bool) (t : Trans)
    (clean : is_critical t.flags ≡ false) where
  abbrev discontinuous : Bool
  discontinuous = ltb 1 src.inc_d1_du || ltb 1 dst.inc_d1_du

  -- The branches of the alignment check, for a misalignment `m`.
  abbrev aligned_by : ℕ → Checked
  aligned_by m =
      let marked = raise Config.misalign t in
      if m == 0
      then continued t
      else if not en_realign
      then returned (raise Config.critical_error marked)
      else if discontinuous
      then reject Config.discontinuous marked
      else continued (realign m marked)

  abbrev rest_fails : ℕ → Bool
  rest_fails m =
      (t.size_d1_du == 0 || is_2d t.dim && t.size_d2_du == 0)
      || dst_outbound dst (record t { dst_type = t.dst_type + m })
      || ltb t.size_d1_du t.win_du

  marked_clean : is_critical (bit_or t.flags Config.misalign) ≡ false
  marked_clean = rw (is_critical-bit_or t.flags Config.misalign, clean)

  verdict-aligned_by_zero : verdict (aligned_by 0 >>= later dst) ≡ rest_fails 0
  verdict-aligned_by_zero =
      rw (verdict-later dst t clean)
        (rw (dst_outbound-eq dst t (record t { dst_type = t.dst_type + 0 }) (omega arith) refl))

  verdict-branches :
      (m : ℕ) (en dis : Bool)
      → verdict (
          (if not en
            then returned (raise Config.critical_error (raise Config.misalign t))
            else if dis
            then reject Config.discontinuous (raise Config.misalign t)
            else continued (realign m (raise Config.misalign t)))
          >>= later dst)
        ≡ ((not en || dis) || rest_fails m)
  unfolding realign
  verdict-branches m false dis =
      rw (is_critical-bit_or (bit_or t.flags Config.misalign) Config.critical_error) (ground arith)
  verdict-branches m true true =
      rw
        (is_critical-bit_or (bit_or (bit_or t.flags Config.misalign) Config.discontinuous)
          Config.critical_error)
        (ground arith)
  verdict-branches m true false =
      rw (verdict-later dst (realign m (raise Config.misalign t)) marked_clean) (
        rw (
          dst_outbound-eq dst (realign m (raise Config.misalign t))
            (record t { dst_type = t.dst_type + m }) refl refl))

  verdict-aligned_by :
      (m : ℕ)
      → verdict (aligned_by m >>= later dst)
        ≡ ((not (m == 0) && (not en_realign || discontinuous)) || rest_fails m)
  verdict-aligned_by zero = verdict-aligned_by_zero
  verdict-aligned_by (suc m) =
      rw (ne→== (suc m) 0 (omega arith)) (verdict-branches (suc m) en_realign discontinuous)

regroup_tail :
    (n ne l1 l2 e o l : Bool)
    → ((n && (ne || (l1 || l2))) || (e || o || l)) ≡ ((n && (ne || l1 || l2)) || e || o || l)
regroup_tail true ne l1 l2 e o l = ground arith
regroup_tail false ne l1 l2 e o l = ground arith

pub larger : (s d : ℕ) → (if ltb s d then d else s) ≡ max s d
larger s d = ground arith

pub verdict-check_integrity :
    (src dst : Target) (en_realign : Bool) (t : Trans)
    → verdict (check_integrity src dst en_realign (set_defaults src dst t)) ≡ (
        misaligned src dst t en_realign
        || empty src dst t
        || outbound src dst t
        || ltb t.size_d1_du t.win_du)
unfolding check_integrity check_alignment set_defaults
verdict-check_integrity src dst en_realign t =
    let s = target_misalignment src src.type in
    let d = target_misalignment dst dst.type in
    let t1 = raise (if s == 0 then Config.ok else Config.src) (set_defaults src dst t) in
    let t2 = raise (if d == 0 then Config.ok else Config.dst) t1 in
    rw (verdict-aligned_by src dst en_realign t2 (marks_clean s d) (if ltb s d then d else s)) (
      rw (larger s d) (
        rw
          (dst_outbound-eq dst (record t2 { dst_type = dst.type + max s d })
            (record t { dst_type = dst.type + max s d }) refl refl)
          (regroup_tail (not (max s d == 0)) (not en_realign) (ltb 1 src.inc_d1_du)
            (ltb 1 dst.inc_d1_du) (empty src dst t) (outbound src dst t)
            (ltb t.size_d1_du t.win_du))))

pub outbound-noted :
    (src dst : Target) (t : Trans) → outbound src dst (noted src dst t) ≡ outbound src dst t
outbound-noted src dst t =
    dst_outbound-eq dst (record (noted src dst t) { dst_type = dst.type + misalignment src dst t })
      (record t { dst_type = dst.type + misalignment src dst t }) refl refl

-- The last step: the integrity checks are made on request only.
pub verdict-last :
    (src dst : Target) (en_realign check : Bool) (t : Trans)
    → verdict (
        if check
        then check_integrity src dst en_realign (set_defaults src dst t)
        else continued (set_defaults src dst t))
      ≡ (if check
          then misaligned src dst t en_realign
            || empty src dst t
            || outbound src dst t
            || ltb t.size_d1_du t.win_du
          else false)
unfolding set_defaults
verdict-last src dst en_realign true t = verdict-check_integrity src dst en_realign t
verdict-last src dst en_realign false t = refl
