-- ===== src/Rates/Projected.antt =====
-- The projected share values of programs/ydelta/src/protocol/marginfi_rate_calc.rs: they do not fall.
use native.Mathlib.Nat.{mul-le-mul_left}
use y_delta.Prelude.{
  ℕ, ◌+◌, ◌-◌, ◌*◌, ◌/◌, ◌^◌, ◌≤◌, ◌<◌, ◌≡◌, min, false, List, ok, inl, inr, Bool-cases,
  ok-injective, >>=-eq-ok, require-eq-ok, ltb→lt, arith, ◌==◌, ltb, if◌then◌else◌, u128_mod, sym,
  ap, ◌∙◌, ==→≡, Option, none, some,
}
use y_delta.Prelude.Division.{div_mono}
use y_delta.Math.Uint256.{Uint256}
use y_delta.Math.Scale.{mul_scale, mul_div}
use y_delta.Math.Exact.{mul_scale-eq-ok, mul_div-eq-ok}
use y_delta.Prelude.Int.{ℤ, ◌≤ℤ◌, checked_sub_i64, ◌-ℤ◌}
use y_delta.Prelude.Lists.{le_bytes}
use y_delta.Loan.{Pubkey}
use y_delta.Rates.{
  AccountInfo, field, read_wrapped_i80f48_fp48, read_bank_last_update,
  read_bank_asset_share_value_fp48, read_bank_liability_share_value_fp48,
  read_bank_total_asset_shares_fp48, read_bank_total_liability_shares_fp48,
  read_bank_interest_rate_config, read_group_program_fees,
}
use y_delta.Rates.Project.{
  seconds_since, utilization_of, projected_liability, project_liability,
  calc_projected_liability_share_value_fp48,
}
use y_delta.Rates.Curve.{
  marginfi_seconds_per_year, calc_interest_rate_fp48, calc_accrued_share_value_fp48,
}

module _ ⦃w : Uint256⦄ where
  -- No rate or no time accrues nothing.
  nothing_accrued : (v rate : ℕ) → rate ≡ 0 → v * (rate / marginfi_seconds_per_year) / 2 ^ 48 ≡ 0
  nothing_accrued v rate none_left =
      let quotient : rate / marginfi_seconds_per_year ≡ 0 = omega arith in
      omega (arith, ap (λ n. v * n) quotient)

  accrued-eq-ok :
      (apr dt v : ℕ) {r : ℕ}
      → v < u128_mod
      → calc_accrued_share_value_fp48 apr dt v ≡ ok r
      → r ≡ min (v + v * (apr * dt / marginfi_seconds_per_year) / 2 ^ 48) (u128_mod - 1)
  unfolding calc_accrued_share_value_fp48
  accrued-eq-ok apr dt v {r} fits e = elim (Bool-cases (dt == 0)) [
    | inl no_time ↦
        let same : ok v ≡ ok r = rw (calc_accrued_share_value_fp48, no_time) at e in
        let zero_rate = ap (λ n. apr * n) (==→≡ dt 0 no_time) in
        omega (arith, ok-injective same, nothing_accrued v (apr * dt) (omega (arith, zero_rate)))
    | inr some_time ↦ elim (Bool-cases (apr == 0)) [
      | inl no_rate ↦
          let same : ok v ≡ ok r = rw (calc_accrued_share_value_fp48, some_time, no_rate) at e in
          let zero_rate = ap (λ n. n * dt) (==→≡ apr 0 no_rate) in
          omega (arith, ok-injective same, nothing_accrued v (apr * dt) (omega (arith, zero_rate)))
      | inr some_rate ↦ elim (Bool-cases (v == 0)) [
        | inl no_value ↦
            let same : ok v ≡ ok r =
              rw (calc_accrued_share_value_fp48, some_time, some_rate, no_value) at e in
            let v_eq = ==→≡ v 0 no_value in
            let zero_part = ap (λ n. n * (apr * dt / marginfi_seconds_per_year)) v_eq in
            omega (arith, ok-injective same, v_eq, zero_part)
        | inr some_value ↦
            let (rate, rate_eq, e₁) =
              >>=-eq-ok (mul_div apr dt marginfi_seconds_per_year false) _
                (rw (calc_accrued_share_value_fp48, some_time, some_rate, some_value) at e) in
            let (part, part_eq, e₂) = >>=-eq-ok (mul_scale v rate) _ e₁ in
            let (rate_is, _, _) = mul_div-eq-ok apr dt marginfi_seconds_per_year rate_eq in
            let part_is = (mul_scale-eq-ok v rate part_eq).0 ∙ ap (λ n. v * n / 2 ^ 48) rate_is in
            omega (arith, ok-injective e₂, part_is)
      ]
    ]
  ]

  -- A projected share value does not fall with time, and is not below the value it starts from.
  pub calc_accrued_share_value_fp48_mono :
      (apr dt dt' v : ℕ) {r r' : ℕ}
      → v < u128_mod
      → dt ≤ dt'
      → calc_accrued_share_value_fp48 apr dt v ≡ ok r
      → calc_accrued_share_value_fp48 apr dt' v ≡ ok r'
      → (v ≤ r) × (r ≤ r')
  calc_accrued_share_value_fp48_mono apr dt dt' v fits le e e' =
      let r_eq = accrued-eq-ok apr dt v fits e in
      let r'_eq = accrued-eq-ok apr dt' v fits e' in
      let product : apr * dt ≤ apr * dt' = mul-le-mul_left apr le in
      let rate = div_mono (apr * dt) (apr * dt') marginfi_seconds_per_year (omega arith) product in
      let product' = mul-le-mul_left v rate in
      let part = div_mono _ _ (2 ^ 48) (omega arith) product' in
      (omega (arith, r_eq), omega (arith, r_eq, r'_eq, part))

read_wrapped_i80f48_fp48-lt :
    (bytes : List ℕ) (offset : ℕ) {v : ℕ}
    → read_wrapped_i80f48_fp48 bytes offset ≡ ok v
    → v < 2 ^ 127
unfolding read_wrapped_i80f48_fp48
read_wrapped_i80f48_fp48-lt bytes offset e =
    let (buf, _, e₁) = >>=-eq-ok (field bytes offset 16) _ e in
    let (low, e₂) = require-eq-ok (ltb (le_bytes 16 buf) (2 ^ 127)) _ e₁ in
    omega (arith, ltb→lt _ _ low, ok-injective e₂)

seconds_since-early :
    (now last : ℤ) {dt : ℕ} → now ≤ℤ last → seconds_since now last ≡ ok dt → (dt == 0) ≡ false → ⊥
unfolding checked_sub_i64 ◌-ℤ◌
seconds_since-early now last early e later = ground arith

module _ ⦃w : Uint256⦄ (marginfi : Pubkey) (bank group : AccountInfo) where
  projected_liability-ge :
      (dt lsv : ℕ) (u : Option ℕ) {r : ℕ}
      → lsv < u128_mod
      → projected_liability marginfi bank group dt lsv u ≡ ok r
      → lsv ≤ r
  projected_liability-ge dt lsv none fits e = omega (arith, ok-injective e)
  projected_liability-ge dt lsv (some u) fits e =
      let (cfg, _, e₁) = >>=-eq-ok (read_bank_interest_rate_config marginfi bank) _ e in
      let (program_fees, _, e₂) = >>=-eq-ok (read_group_program_fees marginfi group) _ e₁ in
      let (rates, _, e₃) = >>=-eq-ok (calc_interest_rate_fp48 u cfg program_fees) _ e₂ in
      omega (arith, accrued-eq-ok rates.1 dt lsv fits e₃)

  project_liability-ge :
      (dt lsv : ℕ) {r : ℕ}
      → lsv < u128_mod
      → project_liability marginfi bank group dt lsv ≡ ok r
      → lsv ≤ r
  unfolding project_liability
  project_liability-ge dt lsv fits e =
      let (tas, _, e₁) = >>=-eq-ok (read_bank_total_asset_shares_fp48 marginfi bank) _ e in
      let (tls, _, e₂) = >>=-eq-ok (read_bank_total_liability_shares_fp48 marginfi bank) _ e₁ in
      let (asv, _, e₃) = >>=-eq-ok (read_bank_asset_share_value_fp48 marginfi bank) _ e₂ in
      let (assets, _, e₄) = >>=-eq-ok (mul_scale tas asv) _ e₃ in
      let (liabilities, _, e₅) = >>=-eq-ok (mul_scale tls lsv) _ e₄ in
      let (u, _, e₆) = >>=-eq-ok (utilization_of assets liabilities) _ e₅ in
      projected_liability-ge dt lsv u fits e₆

  -- The liability value that repayments are priced at is never below the one that the bank stores,
  -- whatever the time, and is that one at the time of the bank's last update and before it.
  pub calc_projected_liability_share_value_fp48-ge :
      (now last : ℤ) {lsv r : ℕ}
      → read_bank_last_update marginfi bank ≡ ok last
      → read_bank_liability_share_value_fp48 marginfi bank ≡ ok lsv
      → calc_projected_liability_share_value_fp48 marginfi bank group now ≡ ok r
      → (lsv ≤ r) × (now ≤ℤ last → r ≡ lsv)
  unfolding calc_projected_liability_share_value_fp48 read_bank_liability_share_value_fp48
  calc_projected_liability_share_value_fp48-ge now last {lsv} {r} last_eq lsv_eq e =
      let (_, read) = require-eq-ok (bank.owner == marginfi) _ lsv_eq in
      let fits = read_wrapped_i80f48_fp48-lt bank.data_bytes 88 read in
      let (dt, dt_eq, e₁) =
        >>=-eq-ok (seconds_since now last) _
          (rw (calc_projected_liability_share_value_fp48, last_eq) at e) in
      let e₂ : (if dt == 0 then ok lsv else project_liability marginfi bank group dt lsv) ≡ ok r =
        rw lsv_eq at e₁ in
      elim (Bool-cases (dt == 0)) [
        | inl now_is_early ↦
            let same : ok lsv ≡ ok r = rw now_is_early at e₂ in
            (omega (arith, ok-injective same), λ _. sym (ok-injective same))
        | inr later ↦
            let bound = project_liability-ge dt lsv (omega arith) (rw later at e₂) in
            (bound, λ early. absurd (seconds_since-early now last early dt_eq later))
      ]
