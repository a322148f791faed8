-- ===== src/Ltv/Required.antt =====
-- How much collateral a debt needs: programs/ydelta/src/state/ltv.rs.
use y_delta.Prelude.{
  ℕ, zero, suc, ◌+◌, ◌-◌, ◌*◌, ◌/◌, ◌^◌, ◌<◌, ◌≡◌, ◌≢◌, inl, inr, sym, ap, ok-injective, ◌∙◌, true,
  false, ok, err, Bool, refl, Bool-cases, >>=-eq-ok, ◌||◌, ltb, leb, if◌then◌else◌,
  arithmetic_overflow, u64_mod, u64_max, u128_mod, arith,
}
use y_delta.Math.Uint256.{Uint256}
use y_delta.Math.Scale.{from_scaled_ceil, mul_div}
use y_delta.Math.Exact.{mul_scale-eq-ok, div_scale-eq-ok, mul_div-eq-ok}
use y_delta.Math.Rounding.{from_scaled_ceil_lem}
use y_delta.Math.Fp48
use y_delta.Math.Fp48.{Fp48}
use y_delta.Ltv.{
  pow10_u128, normalize, required_value, get_required_quote_collateral_to_back_debt, clamp_u64,
}

pow10_u128-eq-ok : (n : ℕ) {r : ℕ} → pow10_u128 n ≡ ok r → r ≡ 10 ^ n
unfolding pow10_u128
pow10_u128-eq-ok zero e = ground arith
pow10_u128-eq-ok (suc n) {r} e =
    let (x, x_eq, e1) = >>=-eq-ok (pow10_u128 n) _ e in
    let small = pow10_u128-eq-ok n x_eq in ground (arith, small)

-- `pow10_u128` is a power of ten when it fits a `u128`, that is up to the exponent 38, and fails
-- above.
pub pow10_u128_lem :
    (n : ℕ)
    → pow10_u128 n ≡ (if ltb (10 ^ n) u128_mod then ok (10 ^ n) else err arithmetic_overflow)
unfolding pow10_u128
pow10_u128_lem zero = ground arith
pow10_u128_lem (suc n) = rw (pow10_u128_lem n) (ground arith)

from_atoms_raw : (a : ℕ) → a < u64_mod → (Fp48.from_atoms a).raw ≡ a * 2 ^ 48
unfolding Fp48.from_atoms
from_atoms_raw a h = omega arith

-- The value of a debt, at a price and a liability weight, as `raw` fixed point.
abbrev pub debt_value : (debt_atoms : ℕ) (debt_price liability_weight : Fp48) → ℕ
debt_value atoms price weight = atoms * 2 ^ 48 * price.raw / 2 ^ 48 * weight.raw / 2 ^ 48

-- The value of one atom of collateral.
abbrev pub coll_value : (coll_price asset_weight : Fp48) → ℕ
coll_value price weight = price.raw * weight.raw / 2 ^ 48

-- A value in the collateral mint's decimals.
abbrev pub rescale : ℕ → (debt_decimals collateral_decimals : ℕ) → ℕ
rescale raw dd cd = if leb dd cd then raw * 10 ^ (cd - dd) / 1 else raw * 1 / 10 ^ (dd - cd)

-- The requirement in whole atoms, rounded up and clamped.
abbrev pub round_up : ℕ → ℕ
round_up raw = clamp_u64 ((raw + (2 ^ 48 - 1)) / 2 ^ 48)

module _ ⦃w : Uint256⦄ where
  checked_mul-eq-ok :
      (x y : Fp48) {z : Fp48}
      → Fp48.checked_mul x y ≡ ok z
      → (z.raw ≡ x.raw * y.raw / 2 ^ 48) × (z.raw < u128_mod)
  unfolding Fp48.checked_mul
  checked_mul-eq-ok x y {z} e = ground (arith, mul_scale-eq-ok x.raw y.raw {r = z.raw})

  checked_div-eq-ok :
      (x y : Fp48) {z : Fp48}
      → x.raw < u128_mod
      → Fp48.checked_div x y ≡ ok z
      → (z.raw ≡ x.raw * 2 ^ 48 / y.raw) × (y.raw ≢ 0) × (z.raw < u128_mod)
  unfolding Fp48.checked_div
  checked_div-eq-ok x y {z} fits e = ground (arith, div_scale-eq-ok x.raw y.raw {r = z.raw} fits)

  required_value-eq-ok :
      (atoms : ℕ) (debt_price coll_price liability asset : Fp48) {r : Fp48}
      → atoms < u64_mod
      → required_value atoms debt_price coll_price liability asset ≡ ok r
      → (r.raw ≡ debt_value atoms debt_price liability * 2 ^ 48 / coll_value coll_price asset)
        × (coll_value coll_price asset ≢ 0)
  unfolding required_value
  required_value-eq-ok atoms debt_price coll_price liability asset {r} fits e =
      let (a, a_eq, e1) = >>=-eq-ok (Fp48.checked_mul (Fp48.from_atoms atoms) debt_price) _ e in
      let (b, b_eq, e2) = >>=-eq-ok (Fp48.checked_mul a liability) _ e1 in
      let (c, c_eq, e3) = >>=-eq-ok (Fp48.checked_mul coll_price asset) _ e2 in
      let (a_raw, _) = checked_mul-eq-ok (Fp48.from_atoms atoms) debt_price a_eq in
      let (b_raw, b_fits) = checked_mul-eq-ok a liability b_eq in
      let (c_raw, _) = checked_mul-eq-ok coll_price asset c_eq in
      let (r_raw, nz, _) = checked_div-eq-ok b c b_fits e3 in
      let a_raw' = a_raw ∙ ap (λ x. x * debt_price.raw / 2 ^ 48) (from_atoms_raw atoms fits) in
      let b_raw' = b_raw ∙ ap (λ x. x * liability.raw / 2 ^ 48) a_raw' in
      (
        r_raw
            ∙ ap (λ x. x * 2 ^ 48 / c.raw) b_raw'
            ∙ ap (λ x. debt_value atoms debt_price liability * 2 ^ 48 / x) c_raw,
        λ z. nz (c_raw ∙ z),
      )

  normalize-eq-ok :
      (raw dd cd : ℕ) {r : ℕ}
      → normalize raw dd cd ≡ ok r
      → (r ≡ rescale raw dd cd) × (r < u128_mod)
  unfolding normalize
  normalize-eq-ok raw dd cd {r} e = elim (Bool-cases (leb dd cd)) [
    | inl up ↦
        let (x, x_eq, e1) =
          >>=-eq-ok (pow10_u128 (cd - dd)) (λ f. mul_div raw f 1 false) {b = r} (rw up at e) in
        let (r_eq, fits, _) = mul_div-eq-ok raw x 1 e1 in
        let factor = pow10_u128-eq-ok (cd - dd) x_eq in
        (rw up (r_eq ∙ ap (λ f. raw * f / 1) factor), fits)
    | inr down ↦
        let (x, x_eq, e1) =
          >>=-eq-ok (pow10_u128 (dd - cd)) (λ f. mul_div raw 1 f false) {b = r} (rw down at e) in
        let (r_eq, fits, _) = mul_div-eq-ok raw 1 x e1 in
        let factor = pow10_u128-eq-ok (dd - cd) x_eq in
        (rw down (r_eq ∙ ap (λ f. raw * 1 / f) factor), fits)
  ]

  -- A zero price or weight: the collateral is worth nothing, or the debt cannot be valued.
  abbrev pub is_degenerate : (debt_price coll_price liability asset : Fp48) → Bool
  is_degenerate debt_price coll_price liability asset =
      Fp48.is_zero coll_price
      || Fp48.is_zero asset
      || Fp48.is_zero debt_price
      || Fp48.is_zero liability

  pub required-degenerate :
      (atoms : ℕ) (debt_price coll_price liability asset : Fp48) (dd cd : ℕ)
      → is_degenerate debt_price coll_price liability asset ≡ true
      → get_required_quote_collateral_to_back_debt atoms debt_price coll_price liability asset dd cd
        ≡ ok u64_max
  unfolding get_required_quote_collateral_to_back_debt
  required-degenerate atoms debt_price coll_price liability asset dd cd degenerate =
      rw degenerate refl

  -- What a successful call returned otherwise: the value of the debt over the value of a collateral
  -- atom, in the collateral's decimals, rounded up.
  pub required-eq-ok :
      (atoms : ℕ) (debt_price coll_price liability asset : Fp48) (dd cd : ℕ) {r : ℕ}
      → atoms < u64_mod
      → is_degenerate debt_price coll_price liability asset ≡ false
      → get_required_quote_collateral_to_back_debt atoms debt_price coll_price liability asset dd cd
        ≡ ok r
      → (coll_value coll_price asset ≢ 0)
        × (r
            ≡ round_up (
                rescale
                  (debt_value atoms debt_price liability * 2 ^ 48 / coll_value coll_price asset)
                  dd
                  cd))
  unfolding get_required_quote_collateral_to_back_debt
  required-eq-ok atoms debt_price coll_price liability asset dd cd {r} fits proper e =
      let (v, v_eq, e1) =
        >>=-eq-ok (required_value atoms debt_price coll_price liability asset) _ {b = r}
          (rw proper at e) in
      let (n, n_eq, e2) = >>=-eq-ok (normalize v.raw dd cd) _ e1 in
      let (v_raw, nz) =
        required_value-eq-ok atoms debt_price coll_price liability asset fits v_eq in
      let (n_raw, n_fits) = normalize-eq-ok v.raw dd cd n_eq in
      let (m, m_eq, e3) = >>=-eq-ok (from_scaled_ceil n) _ e2 in
      let rounded = ok-injective (sym m_eq ∙ from_scaled_ceil_lem n n_fits) in
      (
        nz,
        sym (ok-injective e3)
            ∙ ap clamp_u64 rounded
            ∙ ap round_up (n_raw ∙ ap (λ x. rescale x dd cd) v_raw),
      )
