-- ===== src/Loan/Refusal.antt =====
-- Partial payments that `apply_partial_resolution` refuses: programs/ydelta/src/state/loan.rs.
use y_delta.Prelude.{
  ℕ, suc, ◌+◌, ◌*◌, ◌/◌, ◌<◌, ◌≤◌, ◌≡◌, true, false, err, arithmetic_overflow, lt→ltb, leb, u64_mod,
  arith,
}
use native.Mathlib.Nat.{le-div_iff_mul-le}
use y_delta.Math.Uint256.{Uint256}
use y_delta.Loan.{LoanFixed}
use y_delta.Loan.Conservation.{IsConserved}
use y_delta.Loan.Resolution.{portions_of, partial_portions, lender_rest, apply_partial_resolution}
use y_delta.Loan.Split.{assert_loan_conservation_iff, slice_portion_of-accepts}

module _ ⦃w : Uint256⦄ (l : LoanFixed) (repaid : ℕ) where
  -- A positive payment of less than the debt of a conserved loan whose amounts fit a `u64` fails with
  -- an overflow, when the protocol fee accumulated over the loan's life exceeds the debt that is left
  -- by enough that its slice is more than the payment.
  pub apply_partial_resolution-refuses :
      IsConserved l
      → l.outstanding_debt_atoms + l.principal_retired_atoms < u64_mod
      → 0 < repaid
      → repaid < l.outstanding_debt_atoms
      → suc repaid * l.outstanding_debt_atoms ≤ l.accumulated_protocol_fee_atoms * repaid
      → apply_partial_resolution l repaid ≡ err arithmetic_overflow
  unfolding apply_partial_resolution portions_of partial_portions lender_rest
  apply_partial_resolution-refuses c fits some_paid short heavy =
      let p = l.accumulated_protocol_fee_atoms in
      let q = l.accumulated_curator_fee_atoms in
      let n = l.outstanding_debt_atoms in
      let before = (assert_loan_conservation_iff l).1 (c, fits) in
      let open' : leb n repaid ≡ false = ground arith in
      let within : leb repaid n ≡ true = ground arith in
      let slice : suc repaid ≤ p * repaid / n =
        (le-div_iff_mul-le {k = n} {x = suc repaid} {y = p * repaid} (omega arith)).1 heavy in
      let over : leb (p * repaid / n) repaid ≡ false = ground (arith, slice) in
      rw (
        lt→ltb _ _ some_paid,
        within,
        before,
        open',
        slice_portion_of-accepts l repaid p (omega arith) (omega arith) short,
        slice_portion_of-accepts l repaid q (omega arith) (omega arith) short,
        over,
      )
