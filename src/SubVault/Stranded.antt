-- ===== src/SubVault/Stranded.antt =====
-- A withdrawal that takes atoms which wait for the sweep, and what is refused after it:
-- programs/ydelta/src/program/processor/global_vault_withdraw.rs and accrue_sub_vault in
-- programs/ydelta/src/state/vault.rs.
use y_delta.Prelude.{
  ℕ, ◌+◌, ◌-◌, ◌<◌, ◌≡◌, ◌≢◌, refl, sym, ◌∙◌, false, ok, err, arithmetic_overflow, >>=-eq-ok,
  require-eq-ok, ◌==◌, arith,
}
use y_delta.Prelude.Int.{ℤ, ◌<ℤ◌}
use y_delta.Math.Uint256.{Uint256}
use y_delta.Math.Fp48.{Fp48}
use y_delta.Loan.{Pubkey, LoanFixed}
use y_delta.SubVault.{SubVault}
use y_delta.SubVault.Accrue.{accrue_sub_vault}
use y_delta.SubVault.Shares.{serves, deposit, withdraw, withdraw_accrued}
use y_delta.SubVault.CloseOut.{close_out}
use y_delta.SubVault.Dilution.{withdraw_accrued-Burning}
use y_delta.SubVault.Validity.{accrue_sub_vault-refuses}

err-ne-ok : {v : SubVault} → err arithmetic_overflow ≢ ok v
err-ne-ok e = cc

module _ ⦃w : Uint256⦄ where
  -- At `now` nothing that accrues first goes through, whoever pays and whatever the amounts.
  pub record Stranded (v : SubVault) (now : ℤ) (share_value : Fp48) : Type 0 where
    pub accrual : accrue_sub_vault v now share_value ≡ err arithmetic_overflow
    pub deposits :
        (payer : Pubkey) (atoms : ℕ) (r : SubVault × ℕ)
        → deposit v payer now share_value atoms ≢ ok r
    pub withdrawals :
        (payer : Pubkey) (burn mfi_atoms : ℕ) (r : SubVault × ℕ)
        → withdraw v payer now share_value burn mfi_atoms ≢ ok r
    pub close_outs : (l : LoanFixed) → close_out v l now share_value ≡ err arithmetic_overflow

  refused-Stranded :
      (v : SubVault) (now : ℤ) (share_value : Fp48)
      → accrue_sub_vault v now share_value ≡ err arithmetic_overflow
      → Stranded v now share_value
  unfolding deposit withdraw close_out
  refused-Stranded v now share_value refused = record {
    accrual = refused;
    deposits = λ payer atoms r e.
        let (_, e₁) = require-eq-ok (serves v payer) _ {b = r} e in
        let (_, e₂) = require-eq-ok (v.is_sunset == 0) _ {b = r} e₁ in
        let (a, a_eq, _) = >>=-eq-ok (accrue_sub_vault v now share_value) _ {b = r} e₂ in
        absurd (err-ne-ok (sym refused ∙ a_eq));
    withdrawals = λ payer burn mfi_atoms r e.
        let (_, e₁) = require-eq-ok (serves v payer) _ {b = r} e in
        let (a, a_eq, _) = >>=-eq-ok (accrue_sub_vault v now share_value) _ {b = r} e₁ in
        absurd (err-ne-ok (sym refused ∙ a_eq));
    close_outs = λ l. rw (close_out, refused) refl;
  }

  -- A withdrawal that leaves shares and some principal, but less than is lent out or waits for the
  -- sweep, strands the sub-vault: at every later time its accrual fails, and with it every deposit,
  -- every withdrawal and every close-out of a loan.
  pub withdraw_accrued-strands :
      (v : SubVault) (burn mfi_atoms : ℕ) (now : ℤ) (share_value : Fp48) {v' : SubVault} {out : ℕ}
      → withdraw_accrued v burn mfi_atoms ≡ ok (v', out)
      → burn < v.total_shares
      → out < v.total_principal_atoms
      → v.total_principal_atoms < out + (v.deployed_principal_atoms + v.pending_claim_atoms)
      → v.last_accrue_unix <ℤ now
      → Stranded v' now share_value
  withdraw_accrued-strands v burn mfi_atoms now share_value {v'} {out} e some_shares some_left short
        later =
      let b = withdraw_accrued-Burning v burn mfi_atoms e in
      let left : (v.total_shares - burn == 0) ≡ false = ground (arith, some_shares) in
      refused-Stranded v' now share_value (
        rw (b.result, left)
          (accrue_sub_vault-refuses
            (record v {
              total_shares = v.total_shares - burn;
              total_assets_atoms = v.total_assets_atoms - out;
              total_principal_atoms = v.total_principal_atoms - out;
            })
            now share_value later (omega (arith, some_left)) (omega (arith, some_left, short))))
