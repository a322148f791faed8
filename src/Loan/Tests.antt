-- ===== src/Loan/Tests.antt =====
-- Runs of the loan functions at concrete loans, and the theorems at such loans.
use y_delta.Prelude.{
  ℕ, ◌+◌, ◌<◌, ◌≤◌, ◌≡◌, refl, ok, err, custom, arithmetic_overflow, invalid_argument, arith,
}
use y_delta.Prelude.Int.{ℤ, pos, ◌+ℤ◌, ◌-ℤ◌, saturating_add_i64, checked_sub_i64}
use y_delta.Math.Uint256.{nat_uint256}
use y_delta.Math.Scale.{mul_div, u256_to_u128}
use y_delta.Math.Fp48
use y_delta.Loan.{LoanFixed, fixed, new_from_matched_loan_with_lender}
use y_delta.Loan.Accrue.{
  accrue_loan, interest, cumulatives, cumulative_at, borrower_split, lender_split, cum_curator_fee,
  credit, checked_add_u64, total_elapsed, prior_elapsed,
}
use y_delta.Loan.Resolution.{
  apply_partial_resolution, assert_loan_conservation, portions_of, full_portions, partial_portions,
  slice_portion_of, lender_rest, retire, already_retired, pro_rata, protocol_already_retired,
  curator_already_retired,
}
use y_delta.Loan.Conservation.{IsConserved, accrue_loan-IsConserved}
use y_delta.Loan.Split.{retired, apply_partial_resolution_lem, apply_partial_resolution-accepts}
use y_delta.Loan.Refusal.{apply_partial_resolution-refuses}
use y_delta.Loan.Paths.{accrue_loan-accrue_loan}
use y_delta.Loan.Lifecycle.{fresh, Step, Reach, Reach-IsConserved}

-- A sub-vault lends 1_000_000 atoms at 600 bps to a borrower at 1000 bps; the curator takes 1000 bps
-- of the lender's interest.
abbrev loan : LoanFixed
loan = record {
  discriminator = 0x79_64_65_6C_74_61_4C_4E;
  market = 7;
  created_by = 8;
  matched_loan_sequence = 42;
  borrower_marginfi_borrow_shares = 0;
  origination_ltv_bps = 0;
  liquidation_ltv_bps = 0;
  principal_debt_atoms = 1_000_000;
  outstanding_debt_atoms = 1_000_000;
  lender_claimable_atoms = 1_000_000;
  collateral_atoms = 500_000;
  accumulated_protocol_fee_atoms = 0;
  accumulated_curator_fee_atoms = 0;
  started_at_unix = pos 1_000_000_000;
  matures_at_unix = pos 1_002_592_000;
  last_accrued_unix = pos 1_000_000_000;
  lender_seat_index = 160;
  borrower_seat_index = 320;
  borrower_rate_bps = 1000;
  lender_rate_bps = 600;
  state = 0;
  loan_type = 0;
  flags = 1;
  version = 2;
  bump = 255;
  lender_kind = 1;
  lender_sub_vault_id = 3;
  curator_fee_bps_snapshot = 1000;
  lender_global_vault = 9;
  principal_retired_atoms = 0;
  cumulative_lender_gross_interest_atoms = 0;
  lender_debt_share_price_snapshot_fp48 = Fp48.one;
  borrower_collateral_share_price_snapshot_fp48 = Fp48.one;
}

loan_is_new :
    new_from_matched_loan_with_lender 7 42 255 8 160 320 1_000_000 1_000_000 500_000 1000 600
      2_592_000
      (pos 1_000_000_000)
      1
      fixed
      0
      1
      3
      9
      1000
      Fp48.one
      Fp48.one
    ≡ loan
unfolding new_from_matched_loan_with_lender saturating_add_i64 ◌+ℤ◌
loan_is_new = refl

-- After half a year and after a year.
abbrev half_year : ℤ
half_year = pos 1_015_768_000

abbrev full_year : ℤ
full_year = pos 1_031_536_000

abbrev loan_half : LoanFixed
loan_half = record loan {
  outstanding_debt_atoms = 1_050_000;
  lender_claimable_atoms = 1_027_000;
  accumulated_protocol_fee_atoms = 20_000;
  accumulated_curator_fee_atoms = 3_000;
  cumulative_lender_gross_interest_atoms = 30_000;
  last_accrued_unix = half_year;
}

abbrev loan_full : LoanFixed
loan_full = record loan {
  outstanding_debt_atoms = 1_100_000;
  lender_claimable_atoms = 1_054_000;
  accumulated_protocol_fee_atoms = 40_000;
  accumulated_curator_fee_atoms = 6_000;
  cumulative_lender_gross_interest_atoms = 60_000;
  last_accrued_unix = full_year;
}

accrue_half : accrue_loan ⦃w = nat_uint256⦄ loan half_year ≡ ok loan_half
unfolding accrue_loan interest cumulatives cumulative_at mul_div u256_to_u128 borrower_split
    lender_split cum_curator_fee credit checked_add_u64 total_elapsed prior_elapsed checked_sub_i64
    ◌-ℤ◌
accrue_half = refl

accrue_rest : accrue_loan ⦃w = nat_uint256⦄ loan_half full_year ≡ ok loan_full
unfolding accrue_loan interest cumulatives cumulative_at mul_div u256_to_u128 borrower_split
    lender_split cum_curator_fee credit checked_add_u64 total_elapsed prior_elapsed checked_sub_i64
    ◌-ℤ◌
accrue_rest = refl

accrue_rewind :
    accrue_loan ⦃w = nat_uint256⦄ loan_half (pos 1_000_000_000) ≡ err (custom invalid_argument)
unfolding accrue_loan
accrue_rewind = refl

-- A payment of a fifth of the debt, and the rest of it.
abbrev loan_paid : LoanFixed
loan_paid = retired loan_half 210_000

pay_part :
    apply_partial_resolution ⦃w = nat_uint256⦄ loan_half 210_000
    ≡ ok (loan_paid, (205_400, 4_000, 600))
unfolding apply_partial_resolution portions_of partial_portions slice_portion_of lender_rest retire
    mul_div u256_to_u128 assert_loan_conservation
pay_part = refl

pay_rest :
    apply_partial_resolution ⦃w = nat_uint256⦄ loan_paid 840_000
    ≡ ok (retired loan_paid 840_000, (821_600, 16_000, 2_400))
unfolding apply_partial_resolution portions_of full_portions protocol_already_retired
    curator_already_retired already_retired pro_rata lender_rest retire assert_loan_conservation
pay_rest = refl

accrue_loan-accrue_loan_example : accrue_loan ⦃w = nat_uint256⦄ loan full_year ≡ ok loan_full
unfolding ◌-ℤ◌
accrue_loan-accrue_loan_example =
    accrue_loan-accrue_loan ⦃w = nat_uint256⦄ loan half_year full_year (omega arith) (omega arith)
      (omega arith) (omega arith) refl accrue_half accrue_rest

accrue_loan-IsConserved_example : IsConserved loan_half
accrue_loan-IsConserved_example =
    accrue_loan-IsConserved ⦃w = nat_uint256⦄ loan half_year (omega arith) accrue_half

Reach-IsConserved_example : IsConserved (retired loan_paid 840_000)
unfolding new_from_matched_loan_with_lender saturating_add_i64 ◌+ℤ◌
Reach-IsConserved_example =
    Reach-IsConserved ⦃w = nat_uint256⦄
      (fresh 7 42 255 8 160 320 1_000_000 1_000_000 500_000 1000 600 2_592_000 (pos 1_000_000_000) 1
        fixed 0 1 3 9 1000 Fp48.one Fp48.one)
      (Reach.next
        (Reach.next (Reach.next Reach.here (Step.accrue half_year accrue_half))
          (Step.resolve 210_000 (205_400, 4_000, 600) pay_part))
        (Step.resolve 840_000 (821_600, 16_000, 2_400) pay_rest))

apply_partial_resolution_lem_example :
    (0 < 210_000)
    × (210_000 ≤ 1_050_000)
    × (205_400 + 4_000 + 600 ≡ 210_000)
    × (loan_paid ≡ retired loan_half 210_000)
    × IsConserved loan_half
    × IsConserved loan_paid
apply_partial_resolution_lem_example =
    apply_partial_resolution_lem ⦃w = nat_uint256⦄ loan_half 210_000 pay_part

apply_partial_resolution-accepts_example :
    (portions : ℕ × ℕ × ℕ) × (apply_partial_resolution ⦃w = nat_uint256⦄ loan_half 1_000
      ≡ ok (retired loan_half 1_000, portions))
apply_partial_resolution-accepts_example =
    apply_partial_resolution-accepts ⦃w = nat_uint256⦄ loan_half 1_000 (omega arith) (omega arith)
      (omega arith) (omega arith) (omega arith)

-- After a payment of all but 15_000 of the debt, a payment of 1_000 more: its slice of the 20_000
-- atoms of protocol fee would be 1_333.
apply_partial_resolution-refuses_example :
    apply_partial_resolution ⦃w = nat_uint256⦄ (retired loan_half 1_035_000) 1_000
    ≡ err arithmetic_overflow
apply_partial_resolution-refuses_example =
    apply_partial_resolution-refuses ⦃w = nat_uint256⦄ (retired loan_half 1_035_000) 1_000
      (omega arith) (omega arith) (omega arith) (omega arith) (omega arith)

-- The payment that leads there is accepted.
pay_most :
    (portions : ℕ × ℕ × ℕ) × (apply_partial_resolution ⦃w = nat_uint256⦄ loan_half 1_035_000
      ≡ ok (retired loan_half 1_035_000, portions))
pay_most =
    apply_partial_resolution-accepts ⦃w = nat_uint256⦄ loan_half 1_035_000 (omega arith)
      (omega arith) (omega arith) (omega arith) (omega arith)
