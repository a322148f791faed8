-- ===== src/Math/Tests.antt =====
-- The theorems on fixed-point arithmetic at concrete values.
use y_delta.Prelude.{
  ◌*◌, ◌^◌, ◌≡◌, true, err, custom, math_division_by_zero, ◌==◌, if◌then◌else◌, u128_mod, arith,
}
use y_delta.Math.Uint256.{nat_uint256}
use y_delta.Math.Scale.{mul_div}
use y_delta.Math.Exact.{narrow, quotient, mul_div_lem}

mul_div_lem_example : mul_div ⦃w = nat_uint256⦄ (2 ^ 127) 6 7 true ≡ (
    if ◌==◌ 7 0
    then err (custom math_division_by_zero)
    else narrow u128_mod (quotient (2 ^ 127 * 6) 7 true))
mul_div_lem_example = mul_div_lem ⦃w = nat_uint256⦄ (2 ^ 127) 6 7 true (omega arith) (omega arith)
