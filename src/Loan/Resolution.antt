-- ===== src/Loan/Resolution.antt =====
-- Repayment of a loan, in part or in full: `principal_portion_of_settlement`,
-- `assert_loan_conservation` and `apply_partial_resolution` in programs/ydelta/src/state/loan.rs.
use y_delta.Prelude.{
  ℕ, ◌/◌, ◌%◌, min, false, Result, ok, custom, arithmetic_overflow, invalid_argument, require,
  ok_or, ◌>>=◌, ◌>>◌, map_ok, ◌==◌, ltb, leb, if◌then◌else◌, u64_max, u64_mod, u128_mod,
}
use y_delta.Prelude.Words
use y_delta.Math.Uint256.{Uint256}
use y_delta.Math.Scale.{mul_div}
use y_delta.Loan.{LoanFixed}

-- `as u64`
abbrev as_u64 : ℕ → ℕ
as_u64 a = a % u64_mod

unfoldable pub assert_loan_conservation : LoanFixed → Result (Unit {0})
assert_loan_conservation l = do
  fees ←
      ok_or (Words.checked_add u64_mod l.lender_claimable_atoms l.accumulated_protocol_fee_atoms)
        arithmetic_overflow
  claim_side ←
      ok_or (Words.checked_add u64_mod fees l.accumulated_curator_fee_atoms) arithmetic_overflow
  owed_side ←
      ok_or (Words.checked_add u64_mod l.outstanding_debt_atoms l.principal_retired_atoms)
        arithmetic_overflow
  require (claim_side == owed_side) (custom invalid_argument)

-- fee * retired / total_claim
unfoldable pub pro_rata : ℕ → ℕ → ℕ → Result ℕ
pro_rata fee retired total_claim = if total_claim == 0 then ok 0 else do
  numer ← ok_or (Words.checked_mul u128_mod fee retired) arithmetic_overflow
  ok_or (Words.try_from u64_mod (numer / total_claim)) arithmetic_overflow

-- The part of a fee field that the atoms retired so far have paid. The source writes this body twice.
unfoldable pub already_retired : LoanFixed → ℕ → Result ℕ
already_retired l fee = do
  claimed ←
      ok_or (Words.checked_add u128_mod l.lender_claimable_atoms l.accumulated_protocol_fee_atoms)
        arithmetic_overflow
  total_claim ←
      ok_or (Words.checked_add u128_mod claimed l.accumulated_curator_fee_atoms) arithmetic_overflow
  pro_rata fee l.principal_retired_atoms total_claim

unfoldable pub protocol_already_retired : LoanFixed → Result ℕ
unfolding already_retired
protocol_already_retired l = already_retired l l.accumulated_protocol_fee_atoms

unfoldable pub curator_already_retired : LoanFixed → Result ℕ
unfolding already_retired
curator_already_retired l = already_retired l l.accumulated_curator_fee_atoms

-- The lender's portion is what the two fees leave of the payment.
unfoldable pub lender_rest : ℕ → ℕ → ℕ → Result (ℕ × ℕ × ℕ)
lender_rest repaid protocol curator = do
  less ← ok_or (Words.checked_sub repaid protocol) arithmetic_overflow
  lender ← ok_or (Words.checked_sub less curator) arithmetic_overflow
  ok (lender, protocol, curator)

-- The portions of a payment that closes the loan.
unfoldable pub full_portions : LoanFixed → ℕ → Result (ℕ × ℕ × ℕ)
full_portions l repaid = do
  protocol_paid ← protocol_already_retired l
  curator_paid ← curator_already_retired l
  lender_rest repaid (Words.saturating_sub l.accumulated_protocol_fee_atoms protocol_paid)
      (Words.saturating_sub l.accumulated_curator_fee_atoms curator_paid)

-- The writes of `apply_partial_resolution`.
unfoldable pub retire : LoanFixed → ℕ → Result LoanFixed
retire l repaid = do
  outstanding ← ok_or (Words.checked_sub l.outstanding_debt_atoms repaid) arithmetic_overflow
  retired ← ok_or (Words.checked_add u64_mod l.principal_retired_atoms repaid) arithmetic_overflow
  ok (record l { outstanding_debt_atoms = outstanding; principal_retired_atoms = retired })

module _ ⦃w : Uint256⦄ where
  unfoldable pub principal_portion_of_settlement : LoanFixed → ℕ → Result ℕ
  principal_portion_of_settlement l settlement =
      let remaining = Words.saturating_sub l.principal_debt_atoms l.principal_retired_atoms in
      if l.outstanding_debt_atoms == 0
      then ok 0
      else if leb l.outstanding_debt_atoms settlement
      then ok (min remaining u64_max)
      else map_ok (λ raw. min (min raw remaining) u64_max)
          (mul_div settlement remaining l.outstanding_debt_atoms false)

  -- The closure `slice_portion_of`.
  unfoldable pub slice_portion_of : LoanFixed → ℕ → ℕ → Result ℕ
  slice_portion_of l repaid field =
      map_ok as_u64 (mul_div field repaid l.outstanding_debt_atoms false)

  -- The portions of a payment that leaves debt behind.
  unfoldable pub partial_portions : LoanFixed → ℕ → Result (ℕ × ℕ × ℕ)
  partial_portions l repaid = do
    protocol ← slice_portion_of l repaid l.accumulated_protocol_fee_atoms
    curator ← slice_portion_of l repaid l.accumulated_curator_fee_atoms
    lender_rest repaid protocol curator

  -- `let (lender_portion, protocol_portion, curator_portion) = ..`
  unfoldable pub portions_of : LoanFixed → ℕ → Result (ℕ × ℕ × ℕ)
  portions_of l repaid =
      if leb l.outstanding_debt_atoms repaid
      then full_portions l repaid
      else partial_portions l repaid

  -- The loan after the payment, and its lender, protocol and curator portions.
  unfoldable pub apply_partial_resolution : LoanFixed → ℕ → Result (LoanFixed × (ℕ × ℕ × ℕ))
  apply_partial_resolution l repaid = do
    require (ltb 0 repaid) (custom invalid_argument)
    require (leb repaid l.outstanding_debt_atoms) (custom invalid_argument)
    assert_loan_conservation l
    portions ← portions_of l repaid
    l' ← retire l repaid
    assert_loan_conservation l'
    ok (l', portions)
