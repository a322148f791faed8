-- ===== src/Rates/Growth.antt =====
-- How the rates and the share values of programs/ydelta/src/protocol/marginfi_rate_calc.rs grow.
use native.Mathlib.Nat.{mul_comm, mul-le-mul_left}
use y_delta.Prelude.{
  ℕ, ◌+◌, ◌-◌, ◌*◌, ◌/◌, ◌^◌, ◌≤◌, ◌<◌, ◌≡◌, ok, err, inl, inr, Bool-cases, ok-injective, >>=-eq-ok,
  leb→le, arith, ◌==◌, leb, custom, u128_mod, ap, invalid_argument, u16_mod, ◌⊎◌,
}
use y_delta.Prelude.Words
use y_delta.Prelude.Division.{slice_le, mul_div_mono}
use y_delta.Math.Uint256.{Uint256}
use y_delta.Math.Scale.{scale, mul_scale, div_scale, from_scaled_ceil}
use y_delta.Math.Exact.{mul_scale-eq-ok, div_scale-eq-ok}
use y_delta.Rates.{InterestRateConfig, GroupProgramFees}
use y_delta.Rates.Curve.{
  interest_rate_curve_legacy, below_optimal, above_optimal, base_rate, calc_interest_rate_fp48,
  apr_bps_ceil,
}

module _ ⦃w : Uint256⦄ where
  -- A larger proportion of a value is larger, and a proportion of at most one is at most the value.
  scaled_mono :
      (a b y : ℕ) {ra rb : ℕ} → a ≤ b → mul_scale a y ≡ ok ra → mul_scale b y ≡ ok rb → ra ≤ rb
  scaled_mono a b y le ea eb =
      let mono = mul_div_mono a b y (2 ^ 48) (omega arith) le in
      omega (arith, (mul_scale-eq-ok a y ea).0, (mul_scale-eq-ok b y eb).0, mono)

  scaled_le : (a y : ℕ) {r : ℕ} → a ≤ 2 ^ 48 → mul_scale a y ≡ ok r → r ≤ y
  scaled_le a y le e =
      let part = slice_le y a (2 ^ 48) (omega arith) le in
      let swap : a * y / 2 ^ 48 ≡ y * a / 2 ^ 48 = ap (λ n. n / 2 ^ 48) (mul_comm a y) in
      omega (arith, (mul_scale-eq-ok a y e).0, part, swap)

  quotient_mono :
      (a b c : ℕ) {ra rb : ℕ}
      → a ≤ b
      → b < u128_mod
      → div_scale a c ≡ ok ra
      → div_scale b c ≡ ok rb
      → ra ≤ rb
  quotient_mono a b c le fits ea eb =
      let (a_eq, _, nonzero) = div_scale-eq-ok a c (omega arith) ea in
      let (b_eq, _, _) = div_scale-eq-ok b c fits eb in
      let pos : 0 < c = ground (arith, nonzero) in
      let mono = mul_div_mono a b (2 ^ 48) c pos le in omega (arith, a_eq, b_eq, mono)

  quotient_le : (a c : ℕ) {r : ℕ} → a ≤ c → a < u128_mod → div_scale a c ≡ ok r → r ≤ 2 ^ 48
  quotient_le a c le fits e =
      let (r_eq, _, nonzero) = div_scale-eq-ok a c fits e in
      let pos : 0 < c = ground (arith, nonzero) in
      let part = slice_le (2 ^ 48) a c pos le in
      let swap : a * 2 ^ 48 / c ≡ 2 ^ 48 * a / c = ap (λ n. n / c) (mul_comm a (2 ^ 48)) in
      omega (arith, r_eq, part, swap)

  module _ (cfg : InterestRateConfig) where
    below-le :
        (ur : ℕ) {r : ℕ}
        → ur ≤ cfg.optimal_utilization_rate_fp48
        → ur < u128_mod
        → below_optimal ur cfg ≡ ok r
        → r ≤ cfg.plateau_interest_rate_fp48
    below-le ur le fits e =
        let (prop, prop_eq, e₁) = >>=-eq-ok (div_scale ur cfg.optimal_utilization_rate_fp48) _ e in
        scaled_le prop cfg.plateau_interest_rate_fp48
          (quotient_le ur cfg.optimal_utilization_rate_fp48 le fits prop_eq) e₁

    below_mono :
        (a b : ℕ) {ra rb : ℕ}
        → a ≤ b
        → b < u128_mod
        → below_optimal a cfg ≡ ok ra
        → below_optimal b cfg ≡ ok rb
        → ra ≤ rb
    below_mono a b le fits ea eb =
        let opt = cfg.optimal_utilization_rate_fp48 in
        let (pa, pa_eq, ea') = >>=-eq-ok (div_scale a opt) _ ea in
        let (pb, pb_eq, eb') = >>=-eq-ok (div_scale b opt) _ eb in
        scaled_mono pa pb cfg.plateau_interest_rate_fp48 (quotient_mono a b opt le fits pa_eq pb_eq)
          ea' eb'

    -- The parts of the branch above the optimal utilization.
    above-eq-ok :
        (ur : ℕ) {r : ℕ}
        → above_optimal ur cfg ≡ ok r
        → (prop : ℕ) × (scaled : ℕ) × (div_scale
              (ur - cfg.optimal_utilization_rate_fp48)
              (scale - cfg.optimal_utilization_rate_fp48)
            ≡ ok prop)
          × (mul_scale prop (cfg.max_interest_rate_fp48 - cfg.plateau_interest_rate_fp48)
              ≡ ok scaled)
          × (Words.saturating_add u128_mod cfg.plateau_interest_rate_fp48 scaled ≡ r)
    above-eq-ok ur {r} e =
        let denom = scale - cfg.optimal_utilization_rate_fp48 in
        elim (Bool-cases (denom == 0)) [
          | inl none_left ↦ let e₁ : err (custom invalid_argument) ≡ ok r = rw none_left at e in cc
          | inr left ↦
              let (prop, prop_eq, e₁) =
                >>=-eq-ok (div_scale (ur - cfg.optimal_utilization_rate_fp48) denom) _
                  (rw left at e) in
              let (scaled, scaled_eq, e₂) = >>=-eq-ok (mul_scale prop _) _ e₁ in
              (prop, scaled, prop_eq, scaled_eq, ok-injective e₂)
        ]

    above_mono :
        (a b : ℕ) {ra rb : ℕ}
        → a ≤ b
        → b < u128_mod
        → above_optimal a cfg ≡ ok ra
        → above_optimal b cfg ≡ ok rb
        → ra ≤ rb
    above_mono a b le fits ea eb =
        let (pa, sa, pa_eq, sa_eq, ra_eq) = above-eq-ok a ea in
        let (pb, sb, pb_eq, sb_eq, rb_eq) = above-eq-ok b eb in
        let p_le = quotient_mono _ _ _ (omega arith) (omega arith) pa_eq pb_eq in
        let s_le = scaled_mono pa pb _ p_le sa_eq sb_eq in omega (arith, ra_eq, rb_eq, s_le)

    plateau-le-above :
        (ur : ℕ) {r : ℕ}
        → cfg.plateau_interest_rate_fp48 < u128_mod
        → above_optimal ur cfg ≡ ok r
        → cfg.plateau_interest_rate_fp48 ≤ r
    plateau-le-above ur fits e = let (_, _, _, _, r_eq) = above-eq-ok ur e in omega (arith, r_eq)

    -- A run of the legacy curve took one of its two branches.
    legacy-cases :
        (ur : ℕ) {r : ℕ}
        → interest_rate_curve_legacy ur cfg ≡ ok r
        → ((ur ≤ cfg.optimal_utilization_rate_fp48) × (below_optimal ur cfg ≡ ok r))
          ⊎ ((cfg.optimal_utilization_rate_fp48 < ur) × (above_optimal ur cfg ≡ ok r))
    unfolding interest_rate_curve_legacy
    legacy-cases ur {r} e =
        let opt = cfg.optimal_utilization_rate_fp48 in
        elim (Bool-cases (opt == 0)) [
          | inl zero_opt ↦
              let e₁ : err (custom invalid_argument) ≡ ok r =
                rw (interest_rate_curve_legacy, zero_opt) at e in
              cc
          | inr some_opt ↦ elim (Bool-cases (leb ur opt)) [
            | inl low ↦ inl (leb→le ur opt low, rw (interest_rate_curve_legacy, some_opt, low) at e)
            | inr high ↦
                inr (ground (arith, high), rw (interest_rate_curve_legacy, some_opt, high) at e)
          ]
        ]

    -- On the legacy curve the rate does not fall when the utilization rises.
    pub legacy_mono :
        (a b : ℕ) {ra rb : ℕ}
        → a ≤ b
        → b < u128_mod
        → cfg.plateau_interest_rate_fp48 < u128_mod
        → interest_rate_curve_legacy a cfg ≡ ok ra
        → interest_rate_curve_legacy b cfg ≡ ok rb
        → ra ≤ rb
    legacy_mono a b {ra} {rb} le fits plateau_fits ea eb = elim (legacy-cases a ea) [
      | inl (a_low, ea') ↦ elim (legacy-cases b eb) [
        | inl (_, eb') ↦ below_mono a b le fits ea' eb'
        | inr (_, eb') ↦
            let x = below-le a a_low (omega arith) ea' in
            let y = plateau-le-above b plateau_fits eb' in omega (arith, x, y)
      ]
      | inr (a_high, ea') ↦ elim (legacy-cases b eb) [
        | inl (b_low, _) ↦ absurd (omega (arith, a_high, b_low))
        | inr (_, eb') ↦ above_mono a b le fits ea' eb'
      ]
    ]

  base-le : (base factor : ℕ) {r : ℕ} → 2 ^ 48 ≤ factor → mul_scale base factor ≡ ok r → base ≤ r
  base-le base factor le e =
      let (r_eq, _) = mul_scale-eq-ok base factor e in
      let product : base * 2 ^ 48 ≤ base * factor = mul-le-mul_left base le in
      omega (arith, r_eq, product)

  -- When a bank lends no more than it holds, its lenders earn at most the rate that its borrowers pay,
  -- and at most the base rate of the curve.
  pub calc_interest_rate_fp48-lending_le :
      (u : ℕ) (cfg : InterestRateConfig) (program_fees : GroupProgramFees) {l b : ℕ}
      → u ≤ 2 ^ 48
      → calc_interest_rate_fp48 u cfg program_fees ≡ ok (l, b)
      → (l ≤ b) × ((base : ℕ) × (base_rate u cfg ≡ ok base) × (l ≤ base) × (base ≤ b))
  unfolding calc_interest_rate_fp48
  calc_interest_rate_fp48-lending_le u cfg program_fees {l} {b} le e =
      let (base, base_eq, e₁) = >>=-eq-ok (base_rate u cfg) _ e in
      let (lending, lending_eq, e₂) = >>=-eq-ok (mul_scale base u) _ e₁ in
      let (borrowing, borrowing_eq, e₃) = >>=-eq-ok (mul_scale base _) _ e₂ in
      let pair = ok-injective e₃ in
      let l_eq : lending ≡ l = ap (λ p. p.0) pair in
      let b_eq = ap (λ p. p.1) pair in
      let (_, fits) = mul_scale-eq-ok base _ borrowing_eq in
      let swap = ap (λ n. n / 2 ^ 48) (mul_comm base u) in
      let low = slice_le base u (2 ^ 48) (omega arith) le in
      let high = base-le base _ (omega arith) borrowing_eq in
      let (lending_is, _) = mul_scale-eq-ok base u lending_eq in
      let l_le : l ≤ base = omega (arith, l_eq, lending_is, low) in
      let b_ge : base ≤ b = omega (arith, b_eq, fits, high) in
      (omega (arith, l_le, b_ge), (base, base_eq, l_le, b_ge))

  -- The rate in basis points is the exact one rounded up, and it fits a `u16`.
  pub apr_bps_ceil-eq-ok :
      (apr : ℕ) {bps : ℕ}
      → apr_bps_ceil apr ≡ ok bps
      → (apr * 10_000 ≤ bps * 2 ^ 48) × (bps * 2 ^ 48 < apr * 10_000 + 2 ^ 48) × (bps < u16_mod)
  unfolding apr_bps_ceil from_scaled_ceil
  apr_bps_ceil-eq-ok apr e = ground arith
