-- ===== src/Math/Fp48.antt =====
-- `struct Fp48(u128)` and its methods: programs/ydelta/src/math.rs. `raw` is the real value times
-- 2 ^ 48; `from_raw` and `raw` are the constructor and the field.
use y_delta.Prelude.{
  ℕ, ◌/◌, Bool, Result, ok, err, custom, math_overflow, math_division_by_zero, ◌>>=◌, ok_or, map_ok,
  ◌==◌, if◌then◌else◌, u64_mod, u128_mod,
}
use y_delta.Prelude.Words
use y_delta.Math.Uint256.{Uint256}
use y_delta.Math.Scale.{scale, shl_scale, from_scaled_floor, from_scaled_ceil, mul_scale, div_scale}

pub record Fp48 : Type 0 where
  pub raw : ℕ

abbrev pub from_raw : ℕ → Fp48
from_raw r = record { raw = r }

abbrev pub zero : Fp48
zero = from_raw 0

abbrev pub one : Fp48
one = from_raw scale

abbrev pub is_zero : Fp48 → Bool
is_zero x = x.raw == 0

unfoldable pub from_atoms : ℕ → Fp48
from_atoms atoms = from_raw (shl_scale atoms)

unfoldable pub to_atoms_floor : Fp48 → Result ℕ
to_atoms_floor x = ok_or (Words.try_from u64_mod (from_scaled_floor x.raw)) (custom math_overflow)

unfoldable pub to_atoms_ceil : Fp48 → Result ℕ
to_atoms_ceil x = do
  r ← from_scaled_ceil x.raw
  ok_or (Words.try_from u64_mod r) (custom math_overflow)

unfoldable pub checked_add : Fp48 → Fp48 → Result Fp48
checked_add x y =
    map_ok from_raw (ok_or (Words.checked_add u128_mod x.raw y.raw) (custom math_overflow))

unfoldable pub checked_sub : Fp48 → Fp48 → Result Fp48
checked_sub x y = map_ok from_raw (ok_or (Words.checked_sub x.raw y.raw) (custom math_overflow))

unfoldable pub checked_mul_u64 : Fp48 → ℕ → Result Fp48
checked_mul_u64 x k =
    map_ok from_raw (ok_or (Words.checked_mul u128_mod x.raw k) (custom math_overflow))

unfoldable pub checked_div_u64 : Fp48 → ℕ → Result Fp48
checked_div_u64 x k =
    if k == 0 then err (custom math_division_by_zero) else ok (from_raw (x.raw / k))

module _ ⦃w : Uint256⦄ where
  unfoldable pub checked_mul : Fp48 → Fp48 → Result Fp48
  checked_mul x y = map_ok from_raw (mul_scale x.raw y.raw)

  unfoldable pub checked_div : Fp48 → Fp48 → Result Fp48
  checked_div x y = map_ok from_raw (div_scale x.raw y.raw)
