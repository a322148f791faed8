-- ===== src/Rates/Project.antt =====
-- The share values and the lending rate of a bank account, projected to a time:
-- programs/ydelta/src/protocol/marginfi_rate_calc.rs.
use y_delta.Prelude.{
  ℕ, ◌||◌, Option, none, some, Result, ok, panicked, ok_or, ◌>>=◌, ◌==◌, if◌then◌else◌,
}
use y_delta.Prelude.Int.{ℤ, pos_part, checked_sub_i64}
use y_delta.Loan.{Pubkey}
use y_delta.Math.Uint256.{Uint256}
use y_delta.Math.Scale.{mul_scale, div_scale}
use y_delta.Rates.{
  AccountInfo, read_bank_last_update, read_bank_asset_share_value_fp48,
  read_bank_liability_share_value_fp48, read_bank_total_asset_shares_fp48,
  read_bank_total_liability_shares_fp48, read_bank_interest_rate_config, read_group_program_fees,
}
use y_delta.Rates.Curve.{calc_interest_rate_fp48, calc_accrued_share_value_fp48, apr_bps_ceil}

-- `(now_unix - last_update).max(0) as u128`; the subtraction is checked.
abbrev pub seconds_since : ℤ → ℤ → Result ℕ
seconds_since now_unix last_update = do
  d ← ok_or (checked_sub_i64 now_unix last_update) panicked
  ok (pos_part d)

module _ ⦃w : Uint256⦄ where
  -- The utilization, or none if the bank has no assets or no liabilities.
  unfoldable pub utilization_of : (assets liabilities : ℕ) → Result (Option ℕ)
  utilization_of assets liabilities =
      if assets == 0 || liabilities == 0
      then ok none
      else (div_scale liabilities assets >>= λ u. ok (some u))

  module _ (marginfi : Pubkey) where
    abbrev pub projected_liability : AccountInfo → AccountInfo → (dt lsv : ℕ) → Option ℕ → Result ℕ
    projected_liability bank group dt lsv none = ok lsv
    projected_liability bank group dt lsv (some utilization) = do
      cfg ← read_bank_interest_rate_config marginfi bank
      program_fees ← read_group_program_fees marginfi group
      rates ← calc_interest_rate_fp48 utilization cfg program_fees
      calc_accrued_share_value_fp48 rates.1 dt lsv

    -- The rest of the body, once some time has passed.
    unfoldable pub project_liability : AccountInfo → AccountInfo → (dt lsv : ℕ) → Result ℕ
    project_liability bank group dt lsv = do
      total_asset_shares ← read_bank_total_asset_shares_fp48 marginfi bank
      total_liability_shares ← read_bank_total_liability_shares_fp48 marginfi bank
      asv ← read_bank_asset_share_value_fp48 marginfi bank
      assets ← mul_scale total_asset_shares asv
      liabilities ← mul_scale total_liability_shares lsv
      utilization ← utilization_of assets liabilities
      projected_liability bank group dt lsv utilization

    unfoldable pub calc_projected_liability_share_value_fp48 :
        AccountInfo → AccountInfo → ℤ → Result ℕ
    calc_projected_liability_share_value_fp48 bank group now_unix = do
      last_update ← read_bank_last_update marginfi bank
      dt ← seconds_since now_unix last_update
      lsv ← read_bank_liability_share_value_fp48 marginfi bank
      if dt == 0 then ok lsv else project_liability bank group dt lsv

    abbrev pub projected_asset : AccountInfo → AccountInfo → (dt asv : ℕ) → Option ℕ → Result ℕ
    projected_asset bank group dt asv none = ok asv
    projected_asset bank group dt asv (some utilization) = do
      cfg ← read_bank_interest_rate_config marginfi bank
      program_fees ← read_group_program_fees marginfi group
      rates ← calc_interest_rate_fp48 utilization cfg program_fees
      calc_accrued_share_value_fp48 rates.0 dt asv

    -- The rest of the body, once some time has passed.
    unfoldable pub project_asset : AccountInfo → AccountInfo → (dt asv : ℕ) → Result ℕ
    project_asset bank group dt asv = do
      total_asset_shares ← read_bank_total_asset_shares_fp48 marginfi bank
      total_liability_shares ← read_bank_total_liability_shares_fp48 marginfi bank
      lsv ← read_bank_liability_share_value_fp48 marginfi bank
      assets ← mul_scale total_asset_shares asv
      liabilities ← mul_scale total_liability_shares lsv
      utilization ← utilization_of assets liabilities
      projected_asset bank group dt asv utilization

    unfoldable pub calc_projected_asset_share_value_fp48 : AccountInfo → AccountInfo → ℤ → Result ℕ
    calc_projected_asset_share_value_fp48 bank group now_unix = do
      last_update ← read_bank_last_update marginfi bank
      dt ← seconds_since now_unix last_update
      asv ← read_bank_asset_share_value_fp48 marginfi bank
      if dt == 0 then ok asv else project_asset bank group dt asv

    abbrev pub lending_apr_bps : AccountInfo → AccountInfo → Option ℕ → Result ℕ
    lending_apr_bps bank group none = ok 0
    lending_apr_bps bank group (some utilization) = do
      cfg ← read_bank_interest_rate_config marginfi bank
      program_fees ← read_group_program_fees marginfi group
      rates ← calc_interest_rate_fp48 utilization cfg program_fees
      apr_bps_ceil rates.0

    unfoldable pub current_lending_apr_bps_ceil : AccountInfo → AccountInfo → Result ℕ
    current_lending_apr_bps_ceil bank group = do
      asv ← read_bank_asset_share_value_fp48 marginfi bank
      lsv ← read_bank_liability_share_value_fp48 marginfi bank
      total_asset_shares ← read_bank_total_asset_shares_fp48 marginfi bank
      total_liability_shares ← read_bank_total_liability_shares_fp48 marginfi bank
      assets ← mul_scale total_asset_shares asv
      liabilities ← mul_scale total_liability_shares lsv
      utilization ← utilization_of assets liabilities
      lending_apr_bps bank group utilization
