-- ===== src/Dma/Validate/Flags.antt =====
-- The critical flag through the operations on flags.
use core_v_mini_mcu.Base.{
  ℕ, ◌≡◌, refl, arith, Bool-cases, inl, inr, Bool, true, false, ◌||◌, ◌==◌, if◌then◌else◌, bit_or,
  test_bit, test_bit-bit_or, test_bit-mod, bit_and-two_pow, u8,
}
use core_v_mini_mcu.Dma.Config
use core_v_mini_mcu.Dma.Config.{is_critical}
use core_v_mini_mcu.Dma.Types.{Target, Trans}
use core_v_mini_mcu.Dma.Target.{validate_target}
use core_v_mini_mcu.Dma.Validate.{
  Checked, returned, continued, ◌>>=◌, result_of, raise, reject, check_targets,
}

pub is_critical-eq : (f : ℕ) → is_critical f ≡ test_bit f 9
is_critical-eq f = ground (arith, bit_and-two_pow 9 f)

pub is_critical-bit_or : (f g : ℕ) → is_critical (bit_or f g) ≡ (is_critical f || is_critical g)
is_critical-bit_or f g =
    rw (is_critical-eq (bit_or f g), is_critical-eq f, is_critical-eq g) (test_bit-bit_or f g 9)

-- Eight bits have no room for the critical flag.
is_critical-u8 : (x : ℕ) → is_critical (u8 x) ≡ false
is_critical-u8 x = ground (arith, is_critical-eq (u8 x), test_bit-mod x 8 9)

-- What the errors of a target add to the flags of the transaction.
abbrev pub error_mark : ℕ → ℕ
error_mark error = if error == 0 then Config.ok else bit_or error Config.src

error_mark-IsHarmless : (x : ℕ) → is_critical (error_mark (u8 x)) ≡ false
error_mark-IsHarmless x = elim (Bool-cases (u8 x == 0)) [
  | inl none_found ↦ rw none_found refl
  | inr found ↦ rw found (rw (is_critical-bit_or (u8 x) Config.src) (rw (is_critical-u8 x) refl))
]

-- The transaction with the errors of its targets noted.
abbrev pub noted : Target → Target → Trans → Trans
noted src dst t =
    raise (error_mark (u8 (validate_target dst t)))
      (raise (error_mark (u8 (validate_target src t))) t)

noted-is_critical :
    (src dst : Target) (t : Trans) → is_critical (noted src dst t).flags ≡ is_critical t.flags
noted-is_critical src dst t =
    let e = error_mark (u8 (validate_target src t)) in
    let d = error_mark (u8 (validate_target dst t)) in
    rw (is_critical-bit_or (bit_or t.flags e) d) (
      rw (is_critical-bit_or t.flags e) (
        rw
          (
            error_mark-IsHarmless (validate_target src t),
            error_mark-IsHarmless (validate_target dst t),
          )
          (ground arith)))

-- The check of the targets stops the validation only for a flag that was set before the call.
pub check_targets_lem :
    (src dst : Target) (t : Trans)
    → check_targets src dst t
      ≡ (if is_critical t.flags then returned (noted src dst t) else continued (noted src dst t))
unfolding check_targets
check_targets_lem src dst t = rw (noted-is_critical src dst t)

abbrev pub verdict : Checked → Bool
verdict c = is_critical (result_of c).flags

-- A check that rejects makes the verdict critical; one that passes leaves it to the rest.
pub verdict-reject :
    (bad : Bool) (flag : ℕ) (t : Trans) (rest : Trans → Checked)
    → verdict ((if bad then reject flag t else continued t) >>= rest) ≡ (bad || verdict (rest t))
verdict-reject true flag t rest =
    rw (is_critical-bit_or (bit_or t.flags flag) Config.critical_error) (ground arith)
verdict-reject false flag t rest = refl

verdict-stop :
    (b : Bool) (n : Trans) (rest : Trans → Checked)
    → is_critical n.flags ≡ b
    → verdict ((if b then returned n else continued n) >>= rest) ≡ (b || verdict (rest n))
verdict-stop true n rest h = h
verdict-stop false n rest h = refl

pub verdict-check_targets :
    (src dst : Target) (t : Trans) (rest : Trans → Checked)
    → verdict (check_targets src dst t >>= rest)
      ≡ (is_critical t.flags || verdict (rest (noted src dst t)))
verdict-check_targets src dst t rest =
    rw (check_targets_lem src dst t)
      (verdict-stop (is_critical t.flags) (noted src dst t) rest (noted-is_critical src dst t))
