-- ===== src/Dma/Validate/Verdict.antt =====
-- The verdict of the validation against the description of what it refuses.
use core_v_mini_mcu.Base.{ℕ, ◌≡◌, ap, arith, Bool, true, false, ◌&&◌, ◌||◌, if◌then◌else◌}
use core_v_mini_mcu.Dma.Config.{is_critical}
use core_v_mini_mcu.Dma.Types.{World, Target, Trans}
use core_v_mini_mcu.Dma.Validate.{result_of, validate_trans, dma_validate_transaction}
use core_v_mini_mcu.Dma.Validate.Flags.{noted, verdict, verdict-check_targets}
use core_v_mini_mcu.Dma.Validate.Refusal.{refused}
use core_v_mini_mcu.Mmio.Laws.{update_self}
use core_v_mini_mcu.Dma.Validate.Checks.{
  verdict-check_increments, verdict-check_padding, verdict-check_triggers, verdict-check_mode,
}
use core_v_mini_mcu.Dma.Validate.Integrity.{verdict-last, outbound-noted}

regroup :
    (check f a b c d m e o l : Bool)
    → (f
        || ((check && a)
            || ((check && b)
                || ((check && c)
                    || ((check && d) || (if check then m || e || o || l else false))))))
      ≡ (f || (check && (a || b || c || d || m || e || o || l)))
regroup true f a b c d m e o l = ground arith
regroup false f a b c d m e o l = ground arith

pub validate_trans-refused :
    (src dst : Target) (en_realign check : Bool) (t : Trans)
    → verdict (validate_trans src dst en_realign check t) ≡ refused src dst t en_realign check
unfolding validate_trans
validate_trans-refused src dst en_realign check t = rw (verdict-check_targets src dst t _) (
    rw (verdict-check_increments src dst check (noted src dst t) _) (
      rw (verdict-check_padding check (noted src dst t) _) (
        rw (verdict-check_triggers src dst check (noted src dst t) _) (
          rw (verdict-check_mode src dst check (noted src dst t) _) (
            rw (verdict-last src dst en_realign check (noted src dst t)) (
              rw (outbound-noted src dst t)
                (regroup check (is_critical t.flags) _ _ _ _ _ _ _ _)))))))

-- `dma_validate_transaction` returns the flags that it leaves in the transaction, and they are
-- critical exactly when the transaction is refused by the description.
pub dma_validate_transaction_verdict :
    (w : World) (p_trans : ℕ) (en_realign check : Bool)
    → let (w', flags) = dma_validate_transaction w p_trans en_realign check in
      let t = w.transactions p_trans in
      ((w'.transactions p_trans).flags ≡ flags)
      × (is_critical flags ≡ refused (w.targets t.src) (w.targets t.dst) t en_realign check)
unfolding dma_validate_transaction
dma_validate_transaction_verdict w p_trans en_realign check =
    let t = w.transactions p_trans in
    let checked = validate_trans (w.targets t.src) (w.targets t.dst) en_realign check t in
    (
      ap (λ (u : Trans). u.flags) (update_self w.transactions p_trans (result_of checked)),
      validate_trans-refused (w.targets t.src) (w.targets t.dst) en_realign check t,
    )
