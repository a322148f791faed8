-- ===== src/Rates/Curve.antt =====
-- The interest curves of a marginfi bank and the rates that follow from them:
-- programs/ydelta/src/protocol/marginfi_rate_calc.rs.
use y_delta.Prelude.{
  ℕ, ◌-◌, ◌*◌, ◌^◌, min, true, false, List, [], ◌∷◌, Result, ok, err, custom, adapter,
  invalid_integration_account, invalid_argument, math_overflow, require, ok_or, ◌>>=◌, ◌>>◌, ◌==◌,
  ltb, leb, if◌then◌else◌, u16_mod, u128_mod,
}
use y_delta.Prelude.Words
use y_delta.Math.Uint256.{Uint256}
use y_delta.Math.Scale.{scale, mul_scale, div_scale, mul_div, from_scaled_ceil}
use y_delta.Rates.{InterestRateConfig, GroupProgramFees}

abbrev pub marginfi_seconds_per_year : ℕ
marginfi_seconds_per_year = 31_557_600

-- `u32::MAX`
abbrev pub u32_max : ℕ
u32_max = 2 ^ 32 - 1

-- The fees that come on top of the base rate, in proportion and fixed.
unfoldable pub fees : InterestRateConfig → GroupProgramFees → ℕ × ℕ
fees cfg program_fees =
    let rate_fee = if program_fees.enabled then program_fees.program_fee_rate_fp48 else 0 in
    let fixed_fee = if program_fees.enabled then program_fees.program_fee_fixed_fp48 else 0 in
    (
      Words.saturating_add u128_mod
          (Words.saturating_add u128_mod cfg.insurance_ir_fee_fp48 cfg.protocol_ir_fee_fp48)
          rate_fee,
      Words.saturating_add u128_mod
          (Words.saturating_add u128_mod cfg.insurance_fee_fixed_apr_fp48
            cfg.protocol_fixed_fee_apr_fp48)
          fixed_fee,
    )

module _ ⦃w : Uint256⦄ where
  unfoldable pub rate_milli_u32_to_fp48 : ℕ → Result ℕ
  rate_milli_u32_to_fp48 rate = mul_div rate (10 * scale) u32_max false

  unfoldable pub util_centi_u32_to_fp48 : ℕ → Result ℕ
  util_centi_u32_to_fp48 util = mul_div util scale u32_max false

  unfoldable pub lerp_fp48 : (start_x start_y end_x end_y target_x : ℕ) → Result ℕ
  lerp_fp48 start_x start_y end_x end_y target_x = do
    require (ltb start_x end_x) (custom invalid_argument)
    require (leb start_x target_x) (custom invalid_argument)
    require (leb target_x end_x) (custom invalid_argument)
    require (leb start_y end_y) (custom invalid_argument)
    proportion ← div_scale (target_x - start_x) (end_x - start_x)
    scaled_delta ← mul_scale (end_y - start_y) proportion
    ok (Words.saturating_add u128_mod start_y scaled_delta)

  abbrev pub below_optimal : ℕ → InterestRateConfig → Result ℕ
  below_optimal ur cfg = do
    prop ← div_scale ur cfg.optimal_utilization_rate_fp48
    mul_scale prop cfg.plateau_interest_rate_fp48

  abbrev pub above_optimal : ℕ → InterestRateConfig → Result ℕ
  above_optimal ur cfg =
      let denom = Words.saturating_sub scale cfg.optimal_utilization_rate_fp48 in
      if denom == 0 then err (custom invalid_argument) else do
        prop ← div_scale (ur - cfg.optimal_utilization_rate_fp48) denom
        scaled ←
            mul_scale prop
              (Words.saturating_sub cfg.max_interest_rate_fp48 cfg.plateau_interest_rate_fp48)
        ok (Words.saturating_add u128_mod cfg.plateau_interest_rate_fp48 scaled)

  unfoldable pub interest_rate_curve_legacy : ℕ → InterestRateConfig → Result ℕ
  interest_rate_curve_legacy ur cfg =
      if cfg.optimal_utilization_rate_fp48 == 0
      then err (custom invalid_argument)
      else if leb ur cfg.optimal_utilization_rate_fp48
      then below_optimal ur cfg
      else above_optimal ur cfg

  -- The loop over the points, and the segment after the last one.
  unfoldable pub curve_from :
      (ur hundred_rate : ℕ) → List (ℕ × ℕ) → (prev_util prev_rate : ℕ) → Result ℕ
  curve_from ur hundred_rate [] prev_util prev_rate =
      lerp_fp48 prev_util prev_rate scale hundred_rate ur
  curve_from ur hundred_rate ((point_util, point_rate) ∷ points) prev_util prev_rate =
      elim (point_util == 0) [
        | true ↦ curve_from ur hundred_rate points prev_util prev_rate
        | false ↦ do
          util ← util_centi_u32_to_fp48 point_util
          rate ← rate_milli_u32_to_fp48 point_rate
          require (ltb prev_util util) (custom invalid_argument)
          elim (leb ur util) [
            | true ↦ lerp_fp48 prev_util prev_rate util rate ur
            | false ↦ curve_from ur hundred_rate points util rate
          ]
      ]

  unfoldable pub interest_rate_curve_seven_point : ℕ → InterestRateConfig → Result ℕ
  interest_rate_curve_seven_point ur cfg = do
    zero_rate ← rate_milli_u32_to_fp48 cfg.zero_util_rate_milli_u32
    hundred_rate ← rate_milli_u32_to_fp48 cfg.hundred_util_rate_milli_u32
    curve_from (min ur scale) hundred_rate cfg.points 0 zero_rate

  -- `match cfg.curve_type`
  unfoldable pub base_rate : ℕ → InterestRateConfig → Result ℕ
  base_rate utilization cfg =
      if cfg.curve_type == 0
      then interest_rate_curve_legacy utilization cfg
      else if cfg.curve_type == 1
      then interest_rate_curve_seven_point utilization cfg
      else err (adapter invalid_integration_account)

  -- The lending and the borrowing rate.
  unfoldable pub calc_interest_rate_fp48 :
      ℕ → InterestRateConfig → GroupProgramFees → Result (ℕ × ℕ)
  calc_interest_rate_fp48 utilization cfg program_fees = do
    base ← base_rate utilization cfg
    lending ← mul_scale base utilization
    borrowing ← mul_scale base (Words.saturating_add u128_mod scale (fees cfg program_fees).0)
    ok (lending, Words.saturating_add u128_mod borrowing (fees cfg program_fees).1)

  unfoldable pub calc_accrued_share_value_fp48 : (apr dt share_value : ℕ) → Result ℕ
  calc_accrued_share_value_fp48 apr dt share_value =
      if dt == 0
      then ok share_value
      else if apr == 0
      then ok share_value
      else if share_value == 0
      then ok share_value
      else do
        period_rate ← mul_div apr dt marginfi_seconds_per_year false
        accrued ← mul_scale share_value period_rate
        ok (Words.saturating_add u128_mod share_value accrued)

  -- The last lines of `current_lending_apr_bps_ceil`.
  unfoldable pub apr_bps_ceil : ℕ → Result ℕ
  apr_bps_ceil lending_apr = do
    bps_fp48 ← ok_or (Words.checked_mul u128_mod lending_apr 10_000) (custom math_overflow)
    bps ← from_scaled_ceil bps_fp48
    ok_or (Words.try_from u16_mod bps) (custom math_overflow)
