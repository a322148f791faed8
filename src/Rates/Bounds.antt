-- ===== src/Rates/Bounds.antt =====
-- Bounds on the curves and rates of programs/ydelta/src/protocol/marginfi_rate_calc.rs.
use y_delta.Prelude.{
  ℕ, ◌-◌, ◌*◌, ◌/◌, ◌^◌, ◌≤◌, ◌<◌, ◌≡◌, min, List, [], ◌∷◌, ok, inl, inr, Bool-cases, ok-injective,
  >>=-eq-ok, require-eq-ok, leb→le, arith, ◌==◌, ltb, leb, u128_mod, ap,
}
use y_delta.Prelude.Division.{slice_le, mul_div_mono}
use native.Mathlib.Nat.{mul_comm}
use y_delta.Math.Uint256.{Uint256}
use y_delta.Math.Scale.{mul_scale, div_scale}
use y_delta.Math.Exact.{mul_scale-eq-ok, div_scale-eq-ok, mul_div-eq-ok}
use y_delta.Rates.{InterestRateConfig}
use y_delta.Rates.Curve.{
  rate_milli_u32_to_fp48, util_centi_u32_to_fp48, lerp_fp48, curve_from,
  interest_rate_curve_seven_point, u32_max,
}

module _ ⦃w : Uint256⦄ where
  -- A proportion of at most one, of a part.
  part_le :
      (part whole y : ℕ) {prop d : ℕ}
      → part ≤ whole
      → whole < u128_mod
      → div_scale part whole ≡ ok prop
      → mul_scale y prop ≡ ok d
      → d ≤ y
  part_le part whole y {prop} {d} le fits e₁ e₂ =
      let (prop_eq, _, nonzero) = div_scale-eq-ok part whole (omega arith) e₁ in
      let (d_eq, _) = mul_scale-eq-ok y prop e₂ in
      let pos : 0 < whole = ground (arith, nonzero) in
      let prop_le = slice_le (2 ^ 48) part whole pos le in
      let small : prop ≤ 2 ^ 48 =
        omega (arith, prop_eq, prop_le, ap (λ n. n / whole) (mul_comm part (2 ^ 48))) in
      let whole_part = slice_le y prop (2 ^ 48) (omega arith) small in
      omega (arith, d_eq, whole_part)

  lerp_fp48_bounds :
      (x₀ y₀ x₁ y₁ x : ℕ) {r : ℕ}
      → x₁ < u128_mod
      → y₁ < u128_mod
      → lerp_fp48 x₀ y₀ x₁ y₁ x ≡ ok r
      → (y₀ ≤ r) × (r ≤ y₁)
  unfolding lerp_fp48
  lerp_fp48_bounds x₀ y₀ x₁ y₁ x {r} fits_x fits_y e =
      let (ascending, e₁) = require-eq-ok (ltb x₀ x₁) _ e in
      let (from, e₂) = require-eq-ok (leb x₀ x) _ e₁ in
      let (to, e₃) = require-eq-ok (leb x x₁) _ e₂ in
      let (slope, e₄) = require-eq-ok (leb y₀ y₁) _ e₃ in
      let (prop, prop_eq, e₅) = >>=-eq-ok (div_scale (x - x₀) (x₁ - x₀)) _ e₄ in
      let (d, d_eq, e₆) = >>=-eq-ok (mul_scale (y₁ - y₀) prop) _ e₅ in
      let r_eq = ok-injective e₆ in
      let to' = leb→le x x₁ to in
      let slope' = leb→le y₀ y₁ slope in
      let d_le = part_le (x - x₀) (x₁ - x₀) (y₁ - y₀) (omega arith) (omega arith) prop_eq d_eq in
      (omega (arith, r_eq, d_le), omega (arith, r_eq, d_le))

  rate_milli_u32_to_fp48-eq-ok :
      (rate : ℕ) {r : ℕ}
      → rate_milli_u32_to_fp48 rate ≡ ok r
      → (r ≡ rate * (10 * 2 ^ 48) / u32_max) × (r < u128_mod)
  unfolding rate_milli_u32_to_fp48
  rate_milli_u32_to_fp48-eq-ok rate e =
      let (r_eq, fits, _) = mul_div-eq-ok rate (10 * 2 ^ 48) u32_max e in (r_eq, fits)

  -- The conversion of rates keeps their order.
  rate_milli_mono :
      (a b : ℕ) {ra rb : ℕ}
      → a ≤ b
      → rate_milli_u32_to_fp48 a ≡ ok ra
      → rate_milli_u32_to_fp48 b ≡ ok rb
      → ra ≤ rb
  rate_milli_mono a b le ea eb =
      let x = rate_milli_u32_to_fp48-eq-ok a ea in
      let y = rate_milli_u32_to_fp48-eq-ok b eb in
      let mono = mul_div_mono a b (10 * 2 ^ 48) u32_max (omega arith) le in
      omega (arith, x.0, y.0, mono)

  util_centi_u32_to_fp48-eq-ok :
      (util : ℕ) {r : ℕ}
      → util_centi_u32_to_fp48 util ≡ ok r
      → (r ≡ util * 2 ^ 48 / u32_max) × (r < u128_mod)
  unfolding util_centi_u32_to_fp48
  util_centi_u32_to_fp48-eq-ok util e =
      let (r_eq, fits, _) = mul_div-eq-ok util (2 ^ 48) u32_max e in (r_eq, fits)

  -- The rates of the points stay between two others.
  abbrev pub Between : ℕ → ℕ → List (ℕ × ℕ) → Type 0
  Between low high [] = low ≤ high
  Between low high ((util, rate) ∷ points) = (low ≤ rate) × (rate ≤ high) × Between low high points

  curve_from-within :
      (ur low high : ℕ) {low' high' : ℕ} (points : List (ℕ × ℕ)) (u y : ℕ) {r : ℕ}
      → rate_milli_u32_to_fp48 low ≡ ok low'
      → rate_milli_u32_to_fp48 high ≡ ok high'
      → Between low high points
      → low' ≤ y
      → curve_from ur high' points u y ≡ ok r
      → (low' ≤ r) × (r ≤ high')
  unfolding curve_from
  curve_from-within ur low high {high'} [] u y low_eq high_eq within le e =
      let fits = (rate_milli_u32_to_fp48-eq-ok high high_eq).1 in
      let b = lerp_fp48_bounds u y (2 ^ 48) high' ur (omega arith) fits e in
      (omega (arith, b.0), b.1)
  curve_from-within ur low high {low'} {high'} ((pu, pr) ∷ points) u y {r} low_eq high_eq
        (above, below, within) le e =
      elim (Bool-cases (pu == 0)) [
        | inl unset ↦
            curve_from-within ur low high points u y low_eq high_eq within le
              (rw (curve_from, unset) at e)
        | inr set ↦
            let (u', u_eq, e₁) =
              >>=-eq-ok (util_centi_u32_to_fp48 pu) _ (rw (curve_from, set) at e) in
            let (y', y_eq, e₂) = >>=-eq-ok (rate_milli_u32_to_fp48 pr) _ e₁ in
            let (_, e₃) = require-eq-ok (ltb u u') _ e₂ in
            let above' = rate_milli_mono low pr above low_eq y_eq in
            let below' = rate_milli_mono pr high below y_eq high_eq in
            elim (Bool-cases (leb ur u')) [
              | inl here ↦
                  let b =
                    lerp_fp48_bounds u y u' y' ur (util_centi_u32_to_fp48-eq-ok pu u_eq).1
                      (rate_milli_u32_to_fp48-eq-ok pr y_eq).1 (rw here at e₃) in
                  (omega (arith, b.0), omega (arith, b.1, below'))
              | inr later ↦
                  curve_from-within ur low high points u' y' low_eq high_eq within above'
                    (rw later at e₃)
            ]
      ]

  -- On the seven-point curve, when the rate of every point lies between the rates at no and at full
  -- utilization, so does the result at every utilization.
  pub seven_point-within :
      (ur : ℕ) (cfg : InterestRateConfig) {r low high : ℕ}
      → Between cfg.zero_util_rate_milli_u32 cfg.hundred_util_rate_milli_u32 cfg.points
      → rate_milli_u32_to_fp48 cfg.zero_util_rate_milli_u32 ≡ ok low
      → rate_milli_u32_to_fp48 cfg.hundred_util_rate_milli_u32 ≡ ok high
      → interest_rate_curve_seven_point ur cfg ≡ ok r
      → (low ≤ r) × (r ≤ high)
  unfolding interest_rate_curve_seven_point
  seven_point-within ur cfg within low_eq high_eq e =
      curve_from-within (min ur (2 ^ 48)) cfg.zero_util_rate_milli_u32
        cfg.hundred_util_rate_milli_u32 cfg.points 0 _ low_eq high_eq within (omega arith)
        (rw (interest_rate_curve_seven_point, low_eq, high_eq) at e)
