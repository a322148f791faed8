-- ===== src/Ltv/Tests.antt =====
-- Runs of the gates at concrete prices, and the theorems there.
use y_delta.Prelude.{
  ℕ, ◌≤◌, ◌≡◌, ◌≢◌, refl, ok, err, custom, loan_still_solvent, arithmetic_overflow, u64_max, arith,
}
use y_delta.Prelude.Int.{pos}
use y_delta.Math.Uint256.{nat_uint256}
use y_delta.Math.Scale.{to_scaled, from_scaled_ceil, mul_div, mul_scale, div_scale, u256_to_u128}
use y_delta.Math.Fp48
use y_delta.Math.Fp48.{Fp48}
use y_delta.Loan.{LoanFixed, fixed}
use y_delta.Ltv.{
  pow10_u128, normalize, required_value, get_required_quote_collateral_to_back_debt,
  required_collateral_at_ltv_cap, liquidation_requirement, assert_ltv_breach,
}
use y_delta.Ltv.Required.{pow10_u128_lem}
use y_delta.Ltv.Monotone.{required_collateral_at_ltv_cap-safe}
use y_delta.Ltv.Gates.{assert_ltv_breach-origination}

-- A million atoms at an 80% cap and unit prices; and half of them at 90%.
required_80 :
    required_collateral_at_ltv_cap ⦃w = nat_uint256⦄ 1_000_000 Fp48.one Fp48.one 8_000 6 6
    ≡ ok 1_250_001
unfolding required_collateral_at_ltv_cap get_required_quote_collateral_to_back_debt required_value
    normalize pow10_u128 to_scaled from_scaled_ceil mul_div mul_scale div_scale u256_to_u128
    Fp48.checked_mul Fp48.checked_div Fp48.from_atoms
required_80 = refl

required_90 :
    required_collateral_at_ltv_cap ⦃w = nat_uint256⦄ 500_000 Fp48.one Fp48.one 9_000 6 6
    ≡ ok 555_556
unfolding required_collateral_at_ltv_cap get_required_quote_collateral_to_back_debt required_value
    normalize pow10_u128 to_scaled from_scaled_ceil mul_div mul_scale div_scale u256_to_u128
    Fp48.checked_mul Fp48.checked_div Fp48.from_atoms
required_90 = refl

-- From 6 decimals to 9.
required_decimals :
    required_collateral_at_ltv_cap ⦃w = nat_uint256⦄ 1_000_000 Fp48.one Fp48.one 10_000 6 9
    ≡ ok 1_000_000_000
unfolding required_collateral_at_ltv_cap get_required_quote_collateral_to_back_debt required_value
    normalize pow10_u128 to_scaled from_scaled_ceil mul_div mul_scale div_scale u256_to_u128
    Fp48.checked_mul Fp48.checked_div Fp48.from_atoms
required_decimals = refl

pow10_u128_lem_example : pow10_u128 39 ≡ err arithmetic_overflow
pow10_u128_lem_example = pow10_u128_lem 39

required_collateral_at_ltv_cap-safe_example :
    (555_556 ≤ 1_250_001) × (◌≡◌ {A = ℕ} 8_000 0 → 1_250_001 ≡ u64_max)
required_collateral_at_ltv_cap-safe_example =
    required_collateral_at_ltv_cap-safe ⦃w = nat_uint256⦄ 500_000 1_000_000 Fp48.one Fp48.one 8_000
      9_000 6 6 (omega arith) (omega arith) (omega arith) (omega arith) required_80 required_90

assert_ltv_breach-origination_example :
    assert_ltv_breach ⦃w = nat_uint256⦄ fixed 9_000 500_000 1_300_000 Fp48.one Fp48.one Fp48.one
      Fp48.one 6 6
    ≢ ok tt
assert_ltv_breach-origination_example =
    assert_ltv_breach-origination ⦃w = nat_uint256⦄ 8_000 9_000 1_000_000 500_000 1_300_000 Fp48.one
      Fp48.one Fp48.one Fp48.one 6 6 required_80 (omega arith) (omega arith) (omega arith)
      (omega arith) (omega arith)

breach :
    assert_ltv_breach ⦃w = nat_uint256⦄ fixed 9_000 500_000 555_555 Fp48.one Fp48.one Fp48.one
      Fp48.one 6 6
    ≡ ok tt
unfolding assert_ltv_breach liquidation_requirement
breach = rw required_90 refl

solvent :
    assert_ltv_breach ⦃w = nat_uint256⦄ fixed 9_000 500_000 555_556 Fp48.one Fp48.one Fp48.one
      Fp48.one 6 6
    ≡ err (custom loan_still_solvent)
unfolding assert_ltv_breach liquidation_requirement
solvent = rw required_90 refl

-- A loan that matured at 1_000.
abbrev matured : LoanFixed
matured = record {
  discriminator = 0x79_64_65_6C_74_61_4C_4E;
  market = 7;
  created_by = 8;
  matched_loan_sequence = 1;
  borrower_marginfi_borrow_shares = 0;
  origination_ltv_bps = 8_000;
  liquidation_ltv_bps = 9_000;
  principal_debt_atoms = 1_000_000;
  outstanding_debt_atoms = 1_000_000;
  lender_claimable_atoms = 1_000_000;
  collateral_atoms = 1_300_000;
  accumulated_protocol_fee_atoms = 0;
  accumulated_curator_fee_atoms = 0;
  started_at_unix = pos 500;
  matures_at_unix = pos 1_000;
  last_accrued_unix = pos 500;
  lender_seat_index = 160;
  borrower_seat_index = 320;
  borrower_rate_bps = 555;
  lender_rate_bps = 555;
  state = 0;
  loan_type = 0;
  flags = 1;
  version = 2;
  bump = 255;
  lender_kind = 1;
  lender_sub_vault_id = 3;
  curator_fee_bps_snapshot = 1_000;
  lender_global_vault = 9;
  principal_retired_atoms = 0;
  cumulative_lender_gross_interest_atoms = 0;
  lender_debt_share_price_snapshot_fp48 = Fp48.one;
  borrower_collateral_share_price_snapshot_fp48 = Fp48.one;
}
