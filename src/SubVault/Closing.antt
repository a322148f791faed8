-- ===== src/SubVault/Closing.antt =====
-- The close of a repaid loan keeps the books of a sub-vault valid:
-- programs/ydelta/src/program/processor/repay.rs.
use y_delta.Prelude.{
  ℕ, ◌+◌, ◌-◌, ◌*◌, ◌≤◌, ◌≡◌, sym, ap, ◌∙◌, false, ok, ok_or, custom, math_overflow, u128_mod,
  >>=-eq-ok, ◌>>=◌, arith,
}
use y_delta.Prelude.Words
use y_delta.Prelude.Int.{ℤ, pos, negsuc, pos_part, neg_part, ◌-ℤ◌}
use y_delta.Math.Uint256.{Uint256}
use y_delta.Math.Scale.{mul_div}
use y_delta.Math.Fp48.{Fp48}
use y_delta.Loan.{LoanFixed, bps_per_unit, seconds_per_year}
use y_delta.SubVault.{SubVault}
use y_delta.SubVault.Accrue.{accrue_sub_vault, restore_assets_principal_invariant}
use y_delta.SubVault.Bounds.{IsValid, accrue_sub_vault-IsValid}
use y_delta.SubVault.CloseOut.{
  realized_net, loan_lifetime, settle_principal, settle_assets, book_claim, retire_rate,
  retire_principal, close_out_accrued, close_out,
}

retire_rate-same :
    (v : SubVault) (weighted : ℕ) {v' : SubVault}
    → retire_rate v weighted ≡ ok v'
    → (v'.deployed_principal_atoms ≡ v.deployed_principal_atoms)
      × (v'.pending_claim_atoms ≡ v.pending_claim_atoms)
      × (v'.total_principal_atoms ≡ v.total_principal_atoms)
unfolding retire_rate
retire_rate-same v weighted e = ground arith

retire_principal-moves :
    (v : SubVault) (net principal : ℕ) {v' : SubVault}
    → retire_principal v net principal ≡ ok v'
    → (v'.deployed_principal_atoms + principal ≡ v.deployed_principal_atoms)
      × (v'.pending_claim_atoms ≡ v.pending_claim_atoms)
      × (v'.total_principal_atoms ≡ v.total_principal_atoms)
unfolding retire_principal
retire_principal-moves v net principal e = ground arith

settle_principal-moves :
    (v : SubVault) (d : ℤ) {v' : SubVault}
    → settle_principal v d ≡ ok v'
    → (v'.total_principal_atoms ≡ v.total_principal_atoms + pos_part d - neg_part d)
      × (v'.deployed_principal_atoms ≡ v.deployed_principal_atoms)
      × (v'.pending_claim_atoms ≡ v.pending_claim_atoms)
unfolding settle_principal
settle_principal-moves v (pos d) e = ground arith
settle_principal-moves v (negsuc d) e = ground arith

settle_assets-same :
    (v : SubVault) (d : ℤ) {v' : SubVault}
    → settle_assets v d ≡ ok v'
    → (v'.total_principal_atoms ≡ v.total_principal_atoms)
      × (v'.deployed_principal_atoms ≡ v.deployed_principal_atoms)
      × (v'.pending_claim_atoms ≡ v.pending_claim_atoms)
unfolding settle_assets
settle_assets-same v (pos d) e = ground arith
settle_assets-same v (negsuc d) e = ground arith

book_claim-adds :
    (v : SubVault) (l : LoanFixed) {v' : SubVault}
    → book_claim v l ≡ ok v'
    → (v'.pending_claim_atoms ≡ v.pending_claim_atoms + l.lender_claimable_atoms)
      × (v'.deployed_principal_atoms ≡ v.deployed_principal_atoms)
      × (v'.total_principal_atoms ≡ v.total_principal_atoms)
      × (v'.total_assets_atoms ≡ v.total_assets_atoms)
unfolding book_claim
book_claim-adds v l e = ground arith

restore-same :
    (v : SubVault)
    → let r = restore_assets_principal_invariant v in
      (r.pending_claim_atoms ≡ v.pending_claim_atoms)
      × (r.deployed_principal_atoms ≡ v.deployed_principal_atoms)
      × (r.total_principal_atoms ≡ v.total_principal_atoms)
      × (v.total_principal_atoms ≤ r.total_assets_atoms)
unfolding restore_assets_principal_invariant
restore-same v = (ground arith, ground arith, ground arith, ground arith)

module _ ⦃w : Uint256⦄ where
  -- Closing a repaid loan keeps the books valid: the loan's principal leaves the deployed atoms, and
  -- its claimable atoms become pending.
  close_out_accrued-IsValid :
      (v : SubVault) (l : LoanFixed) (now : ℤ) {v' : SubVault}
      → IsValid v
      → close_out_accrued v l now ≡ ok v'
      → IsValid v'
        × (v'.deployed_principal_atoms + l.principal_debt_atoms ≡ v.deployed_principal_atoms)
        × (v'.pending_claim_atoms ≡ v.pending_claim_atoms + l.lender_claimable_atoms)
        × (v'.total_principal_atoms + l.principal_debt_atoms
            ≡ v.total_principal_atoms + l.lender_claimable_atoms)
  unfolding close_out_accrued
  close_out_accrued-IsValid v l now {v'} valid e =
      let (x, _, e1) =
        >>=-eq-ok
          (ok_or (Words.checked_mul u128_mod l.principal_debt_atoms l.lender_rate_bps)
            (custom math_overflow))
          _ e in
      let (a, a_eq, e2) = >>=-eq-ok (retire_rate v x) _ e1 in
      let (n, _, e3) =
        >>=-eq-ok (mul_div x (bps_per_unit - l.curator_fee_bps_snapshot) bps_per_unit false) _ e2 in
      let (b, b_eq, e4) = >>=-eq-ok (retire_principal a n l.principal_debt_atoms) _ e3 in
      let (y, _, e5) =
        >>=-eq-ok (mul_div n (loan_lifetime now l) (bps_per_unit * seconds_per_year) false) _ e4 in
      let (c, c_eq, e6) = >>=-eq-ok (settle_principal b (realized_net l)) _ e5 in
      let (d, d_eq, e7) = >>=-eq-ok (settle_assets c (realized_net l -ℤ pos y)) _ e6 in
      ground (
        arith,
        retire_rate-same v x a_eq,
        retire_principal-moves a n l.principal_debt_atoms b_eq,
        settle_principal-moves b (realized_net l) c_eq,
        settle_assets-same c (realized_net l -ℤ pos y) d_eq,
        restore-same d,
        book_claim-adds (restore_assets_principal_invariant d) l e7,
      )

  -- A full repayment, with the accrual before it, keeps the books valid. The principal changes from
  -- what accrual left by what the lender can claim less what was lent.
  pub close_out-IsValid :
      (v : SubVault) (l : LoanFixed) (now : ℤ) (share_value : Fp48) {v₁ v' : SubVault}
      → IsValid v
      → accrue_sub_vault v now share_value ≡ ok v₁
      → close_out v l now share_value ≡ ok v'
      → IsValid v'
        × (v'.deployed_principal_atoms + l.principal_debt_atoms ≡ v.deployed_principal_atoms)
        × (v'.pending_claim_atoms ≡ v.pending_claim_atoms + l.lender_claimable_atoms)
        × (v'.total_principal_atoms + l.principal_debt_atoms
            ≡ v₁.total_principal_atoms + l.lender_claimable_atoms)
  unfolding close_out
  close_out-IsValid v l now share_value {v₁} {v'} valid a e =
      let (valid₁, grows) = accrue_sub_vault-IsValid v now share_value a valid in
      let e1 : close_out_accrued v₁ l now ≡ ok v' =
        sym (ap (λ r. r >>= λ u. close_out_accrued u l now) a) ∙ e in
      let (valid', deployed, pending, principal) = close_out_accrued-IsValid v₁ l now valid₁ e1 in
      (valid', deployed ∙ grows.deployed, omega (arith, pending, grows.pending), principal)
