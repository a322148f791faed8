-- ===== src/Rates/Tests.antt =====
-- Runs of the rate calculator, programs/ydelta/src/protocol/marginfi_rate_calc.rs.
use y_delta.Prelude.{
  ℕ, zero, suc, ◌*◌, ◌/◌, ◌%◌, ◌≤◌, ◌≡◌, refl, false, List, [], ◌∷◌, ◌++◌, ok, err, custom, adapter,
  invalid_argument, invalid_integration_account, arith,
}
use y_delta.Prelude.Int.{pos, ◌≤ℤ◌, checked_sub_i64, ◌-ℤ◌}
use y_delta.Prelude.Lists.{replicate}
use y_delta.Math.Uint256.{nat_uint256}
use y_delta.Math.Scale.{scale, mul_scale, div_scale, mul_div, u256_to_u128, from_scaled_ceil}
use y_delta.Rates.{
  InterestRateConfig, GroupProgramFees, AccountInfo, read_wrapped_i80f48_fp48, read_u8, read_u32,
  read_u64, read_i64, read_points, read_bank_last_update, read_bank_asset_share_value_fp48,
  read_bank_liability_share_value_fp48, read_bank_total_asset_shares_fp48,
  read_bank_total_liability_shares_fp48, read_bank_interest_rate_config, read_group_program_fees,
}
use y_delta.Rates.Curve.{
  rate_milli_u32_to_fp48, util_centi_u32_to_fp48, lerp_fp48, curve_from, fees,
  interest_rate_curve_seven_point, interest_rate_curve_legacy, u32_max, base_rate,
  calc_interest_rate_fp48, calc_accrued_share_value_fp48, apr_bps_ceil,
}
use y_delta.Rates.Project.{
  utilization_of, project_liability, calc_projected_liability_share_value_fp48,
  current_lending_apr_bps_ceil,
}
use y_delta.Rates.Bounds.{seven_point-within}
use y_delta.Rates.Growth.{legacy_mono, calc_interest_rate_fp48-lending_le}
use y_delta.Rates.Projected.{calc_projected_liability_share_value_fp48-ge}

-- The plateau of 10 % is reached at a utilization of a half, and 100 % at full utilization.
abbrev legacy : InterestRateConfig
legacy = record {
  optimal_utilization_rate_fp48 = scale / 2;
  plateau_interest_rate_fp48 = scale / 10;
  max_interest_rate_fp48 = scale;
  insurance_fee_fixed_apr_fp48 = scale / 1_000;
  insurance_ir_fee_fp48 = scale / 100;
  protocol_fixed_fee_apr_fp48 = 0;
  protocol_ir_fee_fp48 = 0;
  zero_util_rate_milli_u32 = 0;
  hundred_util_rate_milli_u32 = 0;
  points = [];
  curve_type = 0;
}

-- From 0 to 100 %, with 5 % at a utilization of a half.
abbrev seven_point : InterestRateConfig
seven_point = record legacy {
  hundred_util_rate_milli_u32 = u32_max / 10;
  points = (0, 0) ∷ (u32_max / 2, u32_max / 200) ∷ (0, 0) ∷ [];
  curve_type = 1;
}

abbrev no_fees : GroupProgramFees
no_fees = record { enabled = false; program_fee_fixed_fp48 = 0; program_fee_rate_fp48 = 0 }

legacy_at_optimal : interest_rate_curve_legacy (scale / 2) legacy ≡ ok (scale / 10)
unfolding interest_rate_curve_legacy div_scale mul_scale u256_to_u128
legacy_at_optimal = refl

legacy_at_full : interest_rate_curve_legacy scale legacy ≡ ok scale
unfolding interest_rate_curve_legacy div_scale mul_scale u256_to_u128
legacy_at_full = refl

legacy_mono_example : scale / 10 ≤ scale
legacy_mono_example =
    legacy_mono legacy (scale / 2) scale (omega arith) (omega arith) (omega arith) legacy_at_optimal
      legacy_at_full

lerp_at_middle : lerp_fp48 0 0 200 100 100 ≡ ok 50
unfolding lerp_fp48 div_scale mul_scale u256_to_u128
lerp_at_middle = refl

lerp_of_a_falling_segment : lerp_fp48 0 100 200 50 100 ≡ err (custom invalid_argument)
unfolding lerp_fp48
lerp_of_a_falling_segment = refl

abbrev a_quarter : ℕ
a_quarter = 7_036_874_263_756

quarter_used : interest_rate_curve_seven_point (scale / 4) seven_point ≡ ok a_quarter
unfolding interest_rate_curve_seven_point curve_from rate_milli_u32_to_fp48 util_centi_u32_to_fp48
    lerp_fp48 mul_div div_scale mul_scale u256_to_u128
quarter_used = refl

zero_rate : rate_milli_u32_to_fp48 0 ≡ ok 0
unfolding rate_milli_u32_to_fp48 mul_div u256_to_u128
zero_rate = refl

hundred_rate : rate_milli_u32_to_fp48 (u32_max / 10) ≡ ok 281_474_976_382_975
unfolding rate_milli_u32_to_fp48 mul_div u256_to_u128
hundred_rate = refl

seven_point-within_example : (0 ≤ a_quarter) × (a_quarter ≤ 281_474_976_382_975)
seven_point-within_example =
    seven_point-within (scale / 4) seven_point (omega arith) zero_rate hundred_rate quarter_used

rates_at_optimal :
    calc_interest_rate_fp48 (scale / 2) legacy no_fees ≡ ok (14_073_748_835_532, 28_710_447_624_485)
unfolding calc_interest_rate_fp48 base_rate fees interest_rate_curve_legacy div_scale mul_scale
    u256_to_u128
rates_at_optimal = refl

calc_interest_rate_fp48-lending_le_example :
    (14_073_748_835_532 ≤ 28_710_447_624_485)
    × ((base : ℕ) × (base_rate (scale / 2) legacy ≡ ok base)
        × (14_073_748_835_532 ≤ base)
        × (base ≤ 28_710_447_624_485))
calc_interest_rate_fp48-lending_le_example =
    calc_interest_rate_fp48-lending_le (scale / 2) legacy no_fees (omega arith) rates_at_optimal

-- 10 % for a quarter and for half of a year.
quarter_year : calc_accrued_share_value_fp48 (scale / 10) 7_889_400 scale ≡ ok 288_511_851_128_422
unfolding calc_accrued_share_value_fp48 mul_div mul_scale u256_to_u128
quarter_year = refl

half_year : calc_accrued_share_value_fp48 (scale / 10) 15_778_800 scale ≡ ok 295_548_725_546_188
unfolding calc_accrued_share_value_fp48 mul_div mul_scale u256_to_u128
half_year = refl

five_percent : apr_bps_ceil 14_073_748_835_532 ≡ ok 500
unfolding apr_bps_ceil from_scaled_ceil
five_percent = refl

-- `to_le_bytes` of n bytes.
abbrev to_le : ℕ → ℕ → List ℕ
to_le zero x = []
to_le (suc n) x = x % 256 ∷ to_le n (x / 256)

-- Shares worth 1.0 each, 1_000 of them held and 500 lent; updated at 1_000; the legacy curve.
abbrev bank : AccountInfo
bank = record {
  owner = 77;
  data_bytes =
      replicate 80 0
      ++ (to_le 16 scale
          ++ (to_le 16 scale
              ++ (replicate 144 0
                  ++ (to_le 16 (500 * scale)
                      ++ (to_le 16 (1_000 * scale)
                          ++ (to_le 8 1_000
                              ++ (replicate 72 0
                                  ++ (to_le 16 (scale / 2)
                                      ++ (to_le 16 (scale / 10)
                                          ++ (to_le 16 scale ++ replicate 129 0))))))))));
}

abbrev group : AccountInfo
group = record { owner = 77; data_bytes = replicate 112 0 }

updated : read_bank_last_update 77 bank ≡ ok (pos 1_000)
unfolding read_bank_last_update read_i64 read_u64
updated = refl

liability_value : read_bank_liability_share_value_fp48 77 bank ≡ ok scale
unfolding read_bank_liability_share_value_fp48 read_wrapped_i80f48_fp48
liability_value = refl

foreign_bank :
    read_bank_liability_share_value_fp48 78 bank ≡ err (adapter invalid_integration_account)
unfolding read_bank_liability_share_value_fp48
foreign_bank = refl

floor_of_bank : current_lending_apr_bps_ceil 77 bank group ≡ ok 500
unfolding current_lending_apr_bps_ceil read_bank_asset_share_value_fp48
    read_bank_liability_share_value_fp48 read_bank_total_asset_shares_fp48
    read_bank_total_liability_shares_fp48 read_wrapped_i80f48_fp48 mul_scale div_scale u256_to_u128
    utilization_of read_bank_interest_rate_config read_u32 read_u8 read_points
    read_group_program_fees read_u64 calc_interest_rate_fp48 base_rate interest_rate_curve_legacy
    fees apr_bps_ceil from_scaled_ceil
floor_of_bank = refl

-- Half a year later.
liability_projected :
    calc_projected_liability_share_value_fp48 77 bank group (pos 15_779_800)
    ≡ ok 295_548_725_546_188
unfolding calc_projected_liability_share_value_fp48 project_liability read_bank_last_update read_i64
    checked_sub_i64 ◌-ℤ◌ read_bank_asset_share_value_fp48 read_bank_liability_share_value_fp48
    read_bank_total_asset_shares_fp48 read_bank_total_liability_shares_fp48 read_wrapped_i80f48_fp48
    mul_scale div_scale u256_to_u128 utilization_of read_bank_interest_rate_config read_u32 read_u8
    read_points read_group_program_fees read_u64 calc_interest_rate_fp48 base_rate
    interest_rate_curve_legacy fees calc_accrued_share_value_fp48 mul_div
liability_projected = refl

calc_projected_liability_share_value_fp48-ge_example :
    (scale ≤ 295_548_725_546_188) × (pos 15_779_800 ≤ℤ pos 1_000 → 295_548_725_546_188 ≡ scale)
calc_projected_liability_share_value_fp48-ge_example =
    calc_projected_liability_share_value_fp48-ge 77 bank group (pos 15_779_800) (pos 1_000) updated
      liability_value liability_projected
