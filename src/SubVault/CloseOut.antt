-- ===== src/SubVault/CloseOut.antt =====
-- What a loan that is repaid in full does to its lender's sub-vault, and the sweep of the repaid
-- atoms: `process_repay` in programs/ydelta/src/program/processor/repay.rs and
-- `process_claim_repayment_for_sub_vault` in claim_repayment_for_sub_vault.rs.
use y_delta.Prelude.{
  ℕ, suc, ◌-◌, ◌*◌, ◌%◌, false, Result, ok, custom, arithmetic_overflow, math_overflow, ok_or,
  ◌>>=◌, u64_mod, u128_mod,
}
use y_delta.Prelude.Words
use y_delta.Prelude.Int.{ℤ, pos, negsuc, ◌-ℤ◌, sub_ℕ, pos_part, saturating_sub_i64}
use y_delta.Math.Uint256.{Uint256}
use y_delta.Math.Scale.{mul_div}
use y_delta.Math.Fp48.{Fp48}
use y_delta.Loan.{LoanFixed, bps_per_unit, seconds_per_year}
use y_delta.SubVault.{SubVault}
use y_delta.SubVault.Accrue.{accrue_sub_vault, restore_assets_principal_invariant}

-- `let realized_net`: what the lender gained on the loan.
abbrev pub realized_net : LoanFixed → ℤ
realized_net l = sub_ℕ l.lender_claimable_atoms l.principal_debt_atoms

-- `let loan_lifetime`
abbrev pub loan_lifetime : ℤ → LoanFixed → ℕ
loan_lifetime now l = pos_part (saturating_sub_i64 now l.started_at_unix)

-- `if realized_net >= 0`: the principal takes the gain or bears the shortfall.
unfoldable pub settle_principal : SubVault → ℤ → Result SubVault
settle_principal v (pos interest) = do
  principal ← ok_or (Words.checked_add u64_mod v.total_principal_atoms interest) arithmetic_overflow
  ok (record v { total_principal_atoms = principal })
settle_principal v (negsuc n) =
    ok (record v { total_principal_atoms = Words.saturating_sub v.total_principal_atoms (suc n) })

-- `if assets_delta >= 0`, where a narrowing `as u64` keeps the low 64 bits.
unfoldable pub settle_assets : SubVault → ℤ → Result SubVault
settle_assets v (pos delta) = do
  assets ←
      ok_or (Words.checked_add u64_mod v.total_assets_atoms (delta % u64_mod)) arithmetic_overflow
  ok (record v { total_assets_atoms = assets })
settle_assets v (negsuc n) =
    ok (record v {
      total_assets_atoms = Words.saturating_sub v.total_assets_atoms (suc n % u64_mod);
    })

-- The pending and curator counters of the close-out.
unfoldable pub book_claim : SubVault → LoanFixed → Result SubVault
book_claim v l = do
  pending ←
      ok_or (Words.checked_add u64_mod v.pending_claim_atoms l.lender_claimable_atoms)
        arithmetic_overflow
  curator ←
      ok_or
        (Words.checked_add u64_mod v.accumulated_curator_fee_atoms l.accumulated_curator_fee_atoms)
        arithmetic_overflow
  ok (record v { pending_claim_atoms = pending; accumulated_curator_fee_atoms = curator })

-- The gross rate that the loan leaves.
unfoldable pub retire_rate : SubVault → ℕ → Result SubVault
retire_rate v weighted = do
  rates ← ok_or (Words.checked_sub v.total_weighted_rate_bps weighted) arithmetic_overflow
  ok (record v { total_weighted_rate_bps = rates })

-- The net rate, the deployed principal and the loan count that the loan leaves.
unfoldable pub retire_principal : SubVault → (net_weighted loan_principal : ℕ) → Result SubVault
retire_principal v net_weighted loan_principal = do
  net_rates ←
      ok_or (Words.checked_sub v.total_weighted_net_rate_bps net_weighted) arithmetic_overflow
  deployed ← ok_or (Words.checked_sub v.deployed_principal_atoms loan_principal) arithmetic_overflow
  loans ← ok_or (Words.checked_sub v.open_loans_count 1) arithmetic_overflow
  ok (record v {
    total_weighted_net_rate_bps = net_rates;
    deployed_principal_atoms = deployed;
    open_loans_count = loans;
  })

-- `sub_vault.pending_claim_atoms.saturating_sub(actual_atoms)`, where the atoms have arrived.
unfoldable pub sweep : SubVault → ℕ → SubVault
sweep v actual_atoms = record v {
  pending_claim_atoms = Words.saturating_sub v.pending_claim_atoms actual_atoms;
}

module _ ⦃w : Uint256⦄ where
  -- From `let weighted_delta` to the curator's counter. The fee of a loan is at most 10_000 bps, so
  -- the source's subtraction does not wrap.
  unfoldable pub close_out_accrued : SubVault → LoanFixed → ℤ → Result SubVault
  close_out_accrued v l now = do
    weighted ←
        ok_or (Words.checked_mul u128_mod l.principal_debt_atoms l.lender_rate_bps)
          (custom math_overflow)
    v₁ ← retire_rate v weighted
    net_weighted ← mul_div weighted (bps_per_unit - l.curator_fee_bps_snapshot) bps_per_unit false
    v₂ ← retire_principal v₁ net_weighted l.principal_debt_atoms
    estimated ← mul_div net_weighted (loan_lifetime now l) (bps_per_unit * seconds_per_year) false
    v₃ ← settle_principal v₂ (realized_net l)
    v₄ ← settle_assets v₃ (realized_net l -ℤ pos estimated)
    book_claim (restore_assets_principal_invariant v₄) l

  unfoldable pub close_out : SubVault → LoanFixed → ℤ → Fp48 → Result SubVault
  close_out v l now share_value = do
    accrued ← accrue_sub_vault v now share_value
    close_out_accrued accrued l now
