-- ===== src/Ltv/Gates.antt =====
-- The liquidation gates: `assert_ltv_breach` and `assert_past_grace_period` in
-- programs/ydelta/src/state/ltv.rs.
use y_delta.Prelude.{
  ℕ, ◌<◌, ◌≤◌, ◌≡◌, ◌≢◌, ◌↔◌, refl, true, not, ◌&&◌, ok, >>=-eq-ok, require-eq-ok, ltb, ltb→lt,
  u16_mod, u64_mod, arith,
}
use y_delta.Prelude.Int.{ℤ, pos, ◌+ℤ◌, ◌<ℤ◌, fits_i64, checked_add_i64}
use y_delta.Math.Uint256.{Uint256}
use y_delta.Math.Fp48
use y_delta.Math.Fp48.{Fp48}
use y_delta.Loan.{LoanFixed, LoanType, fixed}
use y_delta.Ltv.{
  assert_past_grace_period, required_collateral_at_ltv_cap, liquidation_requirement,
  assert_ltv_breach,
}
use y_delta.Ltv.Monotone.{required_collateral_at_ltv_cap-safe}

-- A loan may be settled or liquidated for maturity exactly when the end of its grace period is a
-- valid timestamp and lies strictly in the past.
pub assert_past_grace_period_iff :
    (l : LoanFixed) (grace : ℕ) (now : ℤ)
    → (assert_past_grace_period l grace now ≡ ok tt) ↔ (
        (fits_i64 (l.matures_at_unix +ℤ pos grace) ≡ true)
        × (l.matures_at_unix +ℤ pos grace <ℤ now))
unfolding assert_past_grace_period checked_add_i64
assert_past_grace_period_iff l grace now = (λ e. ground arith, λ (f, h). ground arith)

module _ ⦃w : Uint256⦄ where
  -- The gate opens exactly when there is debt and collateral, both prices are known, and the
  -- requirement at the liquidation threshold can be computed and exceeds the collateral.
  pub assert_ltv_breach_iff :
      (type : LoanType) (stamped outstanding coll : ℕ)
      (debt_price coll_price liability asset : Fp48) (dd cd : ℕ)
      → (assert_ltv_breach type stamped outstanding coll debt_price coll_price liability asset dd cd
          ≡ ok tt)
        ↔ ((0 < outstanding)
            × (0 < coll)
            × (debt_price.raw ≢ 0)
            × (coll_price.raw ≢ 0)
            × ((r : ℕ) × (liquidation_requirement type stamped outstanding debt_price coll_price
                    liability asset dd cd
                  ≡ ok r)
                × (coll < r)))
  unfolding assert_ltv_breach
  assert_ltv_breach_iff type stamped outstanding coll dp cp li aw dd cd = (
    λ e.
        let (some_debt, e1) = require-eq-ok (ltb 0 outstanding) _ e in
        let (some_coll, e2) = require-eq-ok (ltb 0 coll) _ e1 in
        let (prices, e3) = require-eq-ok (not (Fp48.is_zero cp) && not (Fp48.is_zero dp)) _ e2 in
        let (r, r_eq, e4) =
          >>=-eq-ok (liquidation_requirement type stamped outstanding dp cp li aw dd cd) _ e3 in
        (
          ltb→lt _ _ some_debt,
          ltb→lt _ _ some_coll,
          ground (arith, prices),
          ground (arith, prices),
          (r, r_eq, ground (arith, e4)),
        ),
    λ (some_debt, some_coll, dp_nz, cp_nz, (r, r_eq, less)).
        let a : ltb 0 outstanding ≡ true = ground arith in
        let b : ltb 0 coll ≡ true = ground arith in
        let c : (not (Fp48.is_zero cp) && not (Fp48.is_zero dp)) ≡ true =
          ground (arith, dp_nz, cp_nz) in
        let d : ltb coll r ≡ true = ground arith in rw (a, b, c, r_eq, d) refl,
  )

  -- A fixed loan that passed the origination gate at a cap cannot be liquidated at the same prices
  -- while it owes no more than it originated with and its liquidation threshold is not below the
  -- cap.
  pub assert_ltv_breach-origination :
      (cap stamped principal outstanding coll : ℕ) (debt_price coll_price liability asset : Fp48)
      (dd cd : ℕ) {r : ℕ}
      → required_collateral_at_ltv_cap principal debt_price coll_price cap dd cd ≡ ok r
      → r ≤ coll
      → principal < u64_mod
      → outstanding ≤ principal
      → cap ≤ stamped
      → stamped < u16_mod
      → assert_ltv_breach fixed stamped outstanding coll debt_price coll_price liability asset dd cd
        ≢ ok tt
  unfolding liquidation_requirement
  assert_ltv_breach-origination cap stamped principal outstanding coll dp cp li aw dd cd {r} e
        enough fits less higher stamped_fits breach =
      let (_, _, _, _, (s, s_eq, short)) =
        (assert_ltv_breach_iff fixed stamped outstanding coll dp cp li aw dd cd).0 breach in
      let (_, f) = require-eq-ok (ltb 0 stamped) _ s_eq in
      let (le, _) =
        required_collateral_at_ltv_cap-safe outstanding principal dp cp cap stamped dd cd less fits
          higher stamped_fits e f in
      absurd (omega (arith, le, short, enough))
