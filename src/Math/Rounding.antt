-- ===== src/Math/Rounding.antt =====
-- Rounding and round trips of the fixed-point conversions in programs/ydelta/src/math.rs.
use y_delta.Prelude.{
  ℕ, ◌+◌, ◌-◌, ◌*◌, ◌/◌, ◌^◌, ◌<◌, ◌≤◌, ◌≡◌, ok, err, custom, math_overflow, ltb, if◌then◌else◌,
  u64_mod, u128_mod, arith,
}
use native.Mathlib.Nat.{div-mul-le_self}
use y_delta.Math.Uint256.{Uint256}
use y_delta.Math.Scale.{scale, to_scaled, from_scaled_floor, from_scaled_ceil}
use y_delta.Math.Exact.{mul_scale_lem, mul_scale-eq-ok, div_scale-eq-ok}
use y_delta.Math.Fp48
use y_delta.Math.Fp48.{Fp48}

-- `from_scaled_ceil` never fails on a `u128`, and is the least whole number that is not below the
-- fixed-point value.
pub from_scaled_ceil_lem :
    (x : ℕ) → x < u128_mod → from_scaled_ceil x ≡ ok ((x + (2 ^ 48 - 1)) / 2 ^ 48)
unfolding from_scaled_ceil
from_scaled_ceil_lem x h = ground arith

-- `to_scaled` succeeds exactly on the numbers below 2 ^ 80, and multiplies them by 2 ^ 48.
pub to_scaled_lem :
    (a : ℕ)
    → a < u128_mod
    → to_scaled a ≡ (if ltb a (2 ^ 80) then ok (a * 2 ^ 48) else err (custom math_overflow))
unfolding to_scaled
to_scaled_lem a h = ground arith

-- The two roundings of a value differ by at most one atom.
pub floor_le_ceil :
    (x : Fp48) {f c : ℕ}
    → Fp48.to_atoms_floor x ≡ ok f
    → Fp48.to_atoms_ceil x ≡ ok c
    → (f ≤ c) × (c ≤ f + 1)
unfolding Fp48.to_atoms_floor Fp48.to_atoms_ceil from_scaled_floor from_scaled_ceil
floor_le_ceil x p q = ground arith

to_atoms_ceil_le :
    (x : Fp48) (a : ℕ) {c : ℕ} → x.raw ≤ a * 2 ^ 48 → Fp48.to_atoms_ceil x ≡ ok c → c ≤ a
unfolding Fp48.to_atoms_ceil from_scaled_ceil
to_atoms_ceil_le x a h e = ground arith

from_atoms_raw : (a : ℕ) → a < u64_mod → (Fp48.from_atoms a).raw ≡ a * 2 ^ 48
unfolding Fp48.from_atoms
from_atoms_raw a h = omega arith

module _ ⦃w : Uint256⦄ where
  -- Multiplication by 1.0 changes nothing.
  pub checked_mul-one : (x : Fp48) → x.raw < u128_mod → Fp48.checked_mul x Fp48.one ≡ ok x
  unfolding Fp48.checked_mul
  checked_mul-one x h = rw (mul_scale_lem x.raw scale h (omega arith)) (ground arith)

  -- Atoms turned into shares at a price and back are at most the atoms, with both roundings.
  pub share_round_trip :
      (a : ℕ) (price : Fp48) {shares value : Fp48}
      → a < u64_mod
      → price.raw < u128_mod
      → Fp48.checked_div (Fp48.from_atoms a) price ≡ ok shares
      → Fp48.checked_mul shares price ≡ ok value
      → (value.raw ≤ a * 2 ^ 48) × ((c : ℕ) → Fp48.to_atoms_ceil value ≡ ok c → c ≤ a)
  unfolding Fp48.checked_mul Fp48.checked_div
  share_round_trip a price {shares} {value} h hp e f =
      let back : value.raw ≤ a * 2 ^ 48 = ground (
        arith,
        from_atoms_raw a h,
        div_scale-eq-ok (Fp48.from_atoms a).raw price.raw {r = shares.raw},
        mul_scale-eq-ok shares.raw price.raw {r = value.raw},
        div-mul-le_self (a * 2 ^ 48 * 2 ^ 48) price.raw,
      ) in
      (back, λ c g. to_atoms_ceil_le value a back g)
