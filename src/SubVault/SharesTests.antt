-- ===== src/SubVault/SharesTests.antt =====
-- Deposits, withdrawals and close-outs of concrete sub-vaults, and the theorems there.
use y_delta.Prelude.{
  ◌+◌, ◌-◌, ◌*◌, ◌^◌, ◌≤◌, ◌≡◌, refl, ok, err, custom, arith, vault_insufficient_idle_atoms,
  sub_vault_sunset,
}
use y_delta.Prelude.Int.{ℤ, pos, ◌-ℤ◌, saturating_sub_i64}
use y_delta.Math.Uint256.{nat_uint256}
use y_delta.Math.Scale.{mul_div, u256_to_u128}
use y_delta.Math.Fp48
use y_delta.Math.Fp48.{Fp48}
use y_delta.Loan.{LoanFixed}
use y_delta.SubVault.{SubVault}
use y_delta.SubVault.Accrue.{accrue_sub_vault, restore_assets_principal_invariant}
use y_delta.SubVault.Bounds.{IsValid}
use y_delta.SubVault.Shares.{
  deposit, deposit_accrued, shares_for, mint, withdraw, withdraw_accrued, principal_decrement,
  check_liquidity, burn_shares,
}
use y_delta.SubVault.CloseOut.{
  close_out, close_out_accrued, retire_rate, retire_principal, settle_principal, settle_assets,
  book_claim,
}
use y_delta.SubVault.Dilution.{
  deposit_accrued-keeps_price, withdraw_accrued-keeps_price, withdraw_accrued-deposit_accrued,
}
use y_delta.SubVault.Closing.{close_out-IsValid}
use y_delta.SubVault.Validity.{deposit-IsValid, withdraw-IsValid}
use y_delta.SubVault.Stranded.{Stranded, withdraw_accrued-strands}
use y_delta.SubVault.Tests.{vault, vault_after, accrue_year}

abbrev year_end : ℤ
year_end = pos 1_031_536_000

abbrev price_end : Fp48
price_end = Fp48.from_raw (5 * 2 ^ 46)

-- 117_000 atoms at 1.17 atoms a share.
abbrev vault_more : SubVault
vault_more = record vault_after {
  total_shares = 1_100_000;
  total_assets_atoms = 1_287_000;
  total_principal_atoms = 1_267_000;
}

deposit_some : deposit_accrued ⦃w = nat_uint256⦄ vault_after 117_000 ≡ ok (vault_more, 100_000)
unfolding deposit_accrued shares_for mul_div u256_to_u128 mint
deposit_some = refl

-- The minted shares are worth 115_181 atoms of principal.
abbrev vault_less : SubVault
vault_less = record vault_more {
  total_shares = 1_000_000;
  total_assets_atoms = 1_171_819;
  total_principal_atoms = 1_151_819;
}

withdraw_some :
    withdraw_accrued ⦃w = nat_uint256⦄ vault_more 100_000 900_000 ≡ ok (vault_less, 115_181)
unfolding withdraw_accrued principal_decrement mul_div u256_to_u128 check_liquidity burn_shares
withdraw_some = refl

withdraw_no_liquidity :
    withdraw_accrued ⦃w = nat_uint256⦄ vault_more 100_000 115_180
    ≡ err (custom vault_insufficient_idle_atoms)
unfolding withdraw_accrued principal_decrement mul_div u256_to_u128 check_liquidity burn_shares
withdraw_no_liquidity = refl

deposit_sunset :
    deposit ⦃w = nat_uint256⦄ (record vault { is_sunset = 1 }) 77 year_end price_end 117_000
    ≡ err (custom sub_vault_sunset)
unfolding deposit
deposit_sunset = refl

deposit_year :
    deposit ⦃w = nat_uint256⦄ vault 77 year_end price_end 117_000 ≡ ok (vault_more, 100_000)
unfolding deposit
deposit_year = rw (accrue_year, deposit_some) refl

withdraw_more :
    withdraw ⦃w = nat_uint256⦄ vault_more 77 year_end price_end 100_000 900_000
    ≡ ok (vault_less, 115_181)
unfolding withdraw accrue_sub_vault
withdraw_more = rw withdraw_some refl

deposit_accrued-keeps_price_example : 1_170_000 * 1_100_000 ≤ 1_287_000 * 1_000_000
deposit_accrued-keeps_price_example =
    deposit_accrued-keeps_price ⦃w = nat_uint256⦄ vault_after 117_000 (omega arith) deposit_some

withdraw_accrued-keeps_price_example : 1_267_000 * 1_000_000 ≤ 1_151_819 * 1_100_000
withdraw_accrued-keeps_price_example =
    withdraw_accrued-keeps_price ⦃w = nat_uint256⦄ vault_more 100_000 900_000 withdraw_some

withdraw_accrued-deposit_accrued_example : 115_181 ≤ 117_000
withdraw_accrued-deposit_accrued_example =
    withdraw_accrued-deposit_accrued ⦃w = nat_uint256⦄ vault_after 117_000 900_000 (omega arith)
      (λ e. omega arith) deposit_some withdraw_some

deposit-IsValid_example : IsValid vault_more
deposit-IsValid_example =
    deposit-IsValid ⦃w = nat_uint256⦄ vault 77 year_end price_end 117_000 (omega arith) accrue_year
      (λ e. omega arith) deposit_year

withdraw-IsValid_example : IsValid vault_less
withdraw-IsValid_example =
    withdraw-IsValid ⦃w = nat_uint256⦄ vault_more 77 year_end price_end 100_000 900_000
      (omega arith) (omega arith) withdraw_more

-- The loan of the vault's 400_000 deployed atoms, repaid after a year with 20_000 of net interest.
abbrev repaid_loan : LoanFixed
repaid_loan = record {
  discriminator = 0x79_64_65_6C_74_61_4C_4E;
  market = 7;
  created_by = 8;
  matched_loan_sequence = 42;
  borrower_marginfi_borrow_shares = 0;
  origination_ltv_bps = 7_000;
  liquidation_ltv_bps = 8_000;
  principal_debt_atoms = 400_000;
  outstanding_debt_atoms = 0;
  lender_claimable_atoms = 419_998;
  collateral_atoms = 500_000;
  accumulated_protocol_fee_atoms = 0;
  accumulated_curator_fee_atoms = 2_222;
  started_at_unix = pos 1_000_000_000;
  matures_at_unix = year_end;
  last_accrued_unix = year_end;
  lender_seat_index = 160;
  borrower_seat_index = 320;
  borrower_rate_bps = 555;
  lender_rate_bps = 555;
  state = 3;
  loan_type = 0;
  flags = 1;
  version = 2;
  bump = 255;
  lender_kind = 1;
  lender_sub_vault_id = 3;
  curator_fee_bps_snapshot = 1_000;
  lender_global_vault = 9;
  principal_retired_atoms = 422_220;
  cumulative_lender_gross_interest_atoms = 22_220;
  lender_debt_share_price_snapshot_fp48 = Fp48.one;
  borrower_collateral_share_price_snapshot_fp48 = Fp48.one;
}

-- The books after: the estimate of the yield was 19_980 atoms, the loan brought 19_998.
abbrev vault_closed : SubVault
vault_closed = record vault_after {
  total_weighted_rate_bps = 222_222_222 - 222_000_000;
  total_weighted_net_rate_bps = 200_000;
  deployed_principal_atoms = 0;
  open_loans_count = 0;
  total_principal_atoms = 1_169_998;
  total_assets_atoms = 1_170_018;
  pending_claim_atoms = 419_998;
  accumulated_curator_fee_atoms = 2_222;
}

close_year : close_out ⦃w = nat_uint256⦄ vault repaid_loan year_end price_end ≡ ok vault_closed
unfolding close_out close_out_accrued retire_rate retire_principal settle_principal settle_assets
    book_claim restore_assets_principal_invariant mul_div u256_to_u128 saturating_sub_i64 ◌-ℤ◌
close_year = rw accrue_year refl

close_out-IsValid_example :
    IsValid vault_closed
    × (0 + 400_000 ≡ 400_000)
    × (419_998 ≡ 0 + 419_998)
    × (1_169_998 + 400_000 ≡ 1_150_000 + 419_998)
close_out-IsValid_example =
    close_out-IsValid ⦃w = nat_uint256⦄ vault repaid_loan year_end price_end (omega arith)
      accrue_year close_year

-- A withdrawal of three quarters of the shares while 419_998 atoms wait to be swept: the vault's
-- marginfi account, which other sub-vaults share, has the atoms, so the withdrawal is accepted.
abbrev vault_stuck : SubVault
vault_stuck = record vault_closed {
  total_shares = 250_000;
  total_principal_atoms = 1_169_998 - 877_498;
  total_assets_atoms = 1_170_018 - 877_498;
}

withdraw_pending :
    withdraw_accrued ⦃w = nat_uint256⦄ vault_closed 750_000 5_000_000 ≡ ok (vault_stuck, 877_498)
unfolding withdraw_accrued principal_decrement mul_div u256_to_u128 check_liquidity burn_shares
withdraw_pending = refl

withdraw_accrued-strands_example :
    Stranded ⦃w = nat_uint256⦄ vault_stuck (pos 1_031_536_001) price_end
withdraw_accrued-strands_example =
    withdraw_accrued-strands ⦃w = nat_uint256⦄ vault_closed 750_000 5_000_000 (pos 1_031_536_001)
      price_end withdraw_pending (omega arith) (omega arith) (omega arith) (omega arith)
