-- ===== src/Math/Scale.antt =====
-- The helpers of programs/ydelta/src/math.rs on raw `u128` values, `mul_scale` to `mul_div_u64`.
-- A `u128` shifted left keeps its low 128 bits, and `scaled & mask` is the remainder by 2 ^ 48.
use y_delta.Prelude.{
  ℕ, ◌+◌, ◌-◌, ◌*◌, ◌/◌, ◌%◌, ◌^◌, Bool, not, ◌&&◌, ◌||◌, Result, ok, err, custom, math_overflow,
  math_division_by_zero, ◌>>=◌, ok_or, ◌==◌, if◌then◌else◌, u64_mod, u128_mod,
}
use y_delta.Prelude.Words
use y_delta.Math.Uint256.{Uint256}

abbrev pub scale_bits : ℕ
scale_bits = 48

abbrev pub scale : ℕ
scale = 2 ^ scale_bits

-- `amount << 48`, for a `u128`
abbrev pub shl_scale : ℕ → ℕ
shl_scale a = a * 2 ^ scale_bits % u128_mod

unfoldable pub to_scaled : ℕ → Result ℕ
to_scaled amount =
    if not (amount / 2 ^ (128 - scale_bits) == 0)
    then err (custom math_overflow)
    else ok (shl_scale amount)

unfoldable pub from_scaled_floor : ℕ → ℕ
from_scaled_floor scaled = scaled / 2 ^ scale_bits

unfoldable pub from_scaled_ceil : ℕ → Result ℕ
from_scaled_ceil scaled =
    let truncated = scaled / 2 ^ scale_bits in
    if not (scaled % 2 ^ scale_bits == 0)
    then ok_or (Words.checked_add u128_mod truncated 1) (custom math_overflow)
    else ok truncated

module _ ⦃w : Uint256⦄ where
  -- The two low limbs are disjoint, so `|` joins them by a sum.
  unfoldable pub u256_to_u128 : ℕ → Result ℕ
  u256_to_u128 x =
      if not (w.limb x 2 == 0) || not (w.limb x 3 == 0)
      then err (custom math_overflow)
      else ok (w.limb x 0 + w.limb x 1 * 2 ^ 64)

  unfoldable pub mul_scale : ℕ → ℕ → Result ℕ
  mul_scale a b = do
    prod ← ok_or (w.checked_mul a b) (custom math_overflow)
    u256_to_u128 (w.shr prod scale_bits)

  unfoldable pub div_scale : ℕ → ℕ → Result ℕ
  div_scale a b = if b == 0 then err (custom math_division_by_zero) else do
    q ← ok_or (w.checked_div (w.shl a scale_bits) b) (custom math_overflow)
    u256_to_u128 q

  unfoldable pub mul_div : ℕ → ℕ → ℕ → Bool → Result ℕ
  mul_div a b c ceil = if c == 0 then err (custom math_division_by_zero) else do
    prod ← ok_or (w.checked_mul a b) (custom math_overflow)
    result ←
        (if ceil && not (w.rem prod c == 0)
          then ok_or (w.checked_add (w.div prod c) 1) (custom math_overflow)
          else ok (w.div prod c))
    u256_to_u128 result

  unfoldable pub mul_div_u64 : ℕ → ℕ → ℕ → Bool → Result ℕ
  mul_div_u64 a b c ceil = do
    result ← mul_div a b c ceil
    ok_or (Words.try_from u64_mod result) (custom math_overflow)
