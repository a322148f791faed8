-- ===== src/SubVault/Validity.antt =====
-- Deposits and withdrawals keep a sub-vault's books valid, and what happens where they do not:
-- programs/ydelta/src/program/processor/global_vault_deposit.rs and global_vault_withdraw.rs.
use y_delta.Prelude.{
  ℕ, ◌+◌, ◌-◌, ◌<◌, ◌≤◌, ◌≡◌, ◌≢◌, sym, ap, ◌∙◌, ◌⊎◌, refl, false, inl, inr, Option-cases, ok, err,
  arithmetic_overflow, >>=-eq-ok, require-eq-ok, Bool-cases, ==→≡, ◌>>=◌, ◌==◌, arith,
}
use y_delta.Prelude.Int.{ℤ, pos, negsuc, checked_sub_i64, ◌<ℤ◌, leb_ℤ}
use y_delta.Math.Uint256.{Uint256}
use y_delta.Math.Fp48.{Fp48}
use y_delta.Loan.{Pubkey}
use y_delta.SubVault.{SubVault}
use y_delta.SubVault.Accrue.{accrue_sub_vault, accrue_yield, elapsed_since, idle_atoms}
use y_delta.SubVault.Bounds.{IsValid, accrue_sub_vault-IsValid}
use y_delta.SubVault.Shares.{deposit, deposit_accrued, withdraw, withdraw_accrued, serves}
use y_delta.SubVault.Dilution.{
  deposit_accrued-Minting, withdraw_accrued-Burning, check_liquidity-eq-ok,
}
use y_delta.SubVault.CloseOut.{sweep}

module _ ⦃w : Uint256⦄ where
  deposit_accrued-IsValid :
      (v : SubVault) (atoms : ℕ) {v' : SubVault} {shares : ℕ}
      → IsValid v
      → (v.total_shares ≡ 0 → v.total_principal_atoms ≡ 0)
      → deposit_accrued v atoms ≡ ok (v', shares)
      → IsValid v'
  deposit_accrued-IsValid v atoms valid empty e =
      let m = deposit_accrued-Minting v atoms e in
      elim (Bool-cases (v.total_shares == 0)) [
        | inl none_yet ↦
            let no_principal = empty (ground arith) in
            rw (m.result, none_yet) (omega (arith, no_principal))
        | inr some_shares ↦ rw (m.result, some_shares) (omega arith)
      ]

  -- A deposit keeps the books valid, when accrual does not find principal in a sub-vault without
  -- shares.
  pub deposit-IsValid :
      (v : SubVault) (payer : Pubkey) (now : ℤ) (share_value : Fp48) (atoms : ℕ) {v₁ v' : SubVault}
      {shares : ℕ}
      → IsValid v
      → accrue_sub_vault v now share_value ≡ ok v₁
      → (v₁.total_shares ≡ 0 → v₁.total_principal_atoms ≡ 0)
      → deposit v payer now share_value atoms ≡ ok (v', shares)
      → IsValid v'
  unfolding deposit
  deposit-IsValid v payer now share_value atoms {v₁} valid a empty e =
      let (_, e1) = require-eq-ok (serves v payer) _ e in
      let (_, e2) = require-eq-ok (v.is_sunset == 0) _ e1 in
      let (valid₁, _) = accrue_sub_vault-IsValid v now share_value a valid in
      deposit_accrued-IsValid v₁ atoms valid₁ empty
        (sym (ap (λ r. r >>= λ u. deposit_accrued u atoms) a) ∙ e2)

  withdraw_accrued-IsValid :
      (v : SubVault) (burn mfi_atoms : ℕ) {v' : SubVault} {out : ℕ}
      → IsValid v
      → v.pending_claim_atoms ≤ v.encumbered_in_orders_atoms
      → withdraw_accrued v burn mfi_atoms ≡ ok (v', out)
      → IsValid v'
  withdraw_accrued-IsValid v burn mfi_atoms {v'} {out} valid no_more_pending e =
      let b = withdraw_accrued-Burning v burn mfi_atoms e in
      let (idle, _, last) = check_liquidity-eq-ok v burn out mfi_atoms b.liquid in
      elim (Bool-cases (v.total_shares - burn == 0)) [
        | inl gone ↦
            let nothing_out = last (omega (arith, b.has_shares, ==→≡ _ _ gone)) in
            rw (b.result, gone) (omega (arith, nothing_out))
        | inr left ↦ rw (b.result, left) (omega (arith, idle, b.has_assets, b.has_principal))
      ]

  -- A withdrawal keeps the books valid, when no more atoms are pending than are encumbered in
  -- orders.
  pub withdraw-IsValid :
      (v : SubVault) (payer : Pubkey) (now : ℤ) (share_value : Fp48) (burn mfi_atoms : ℕ)
      {v' : SubVault} {out : ℕ}
      → IsValid v
      → v.pending_claim_atoms ≤ v.encumbered_in_orders_atoms
      → withdraw v payer now share_value burn mfi_atoms ≡ ok (v', out)
      → IsValid v'
  unfolding withdraw
  withdraw-IsValid v payer now share_value burn mfi_atoms valid pending e =
      let (_, e1) = require-eq-ok (serves v payer) _ e in
      let (v₁, a, e2) = >>=-eq-ok (accrue_sub_vault v now share_value) _ e1 in
      let (valid₁, grows) = accrue_sub_vault-IsValid v now share_value a valid in
      withdraw_accrued-IsValid v₁ burn mfi_atoms valid₁
        (omega (arith, pending, grows.pending, grows.encumbered)) e2

  idle_atoms-refuses :
      (v : SubVault)
      → v.total_principal_atoms < v.deployed_principal_atoms + v.pending_claim_atoms
      → idle_atoms v ≡ err arithmetic_overflow
  unfolding idle_atoms
  idle_atoms-refuses v short = ground arith

  elapsed_since-cases :
      (now last : ℤ)
      → ((t : ℕ) × (elapsed_since now last ≡ ok t))
        ⊎ (elapsed_since now last ≡ err arithmetic_overflow)
  unfolding elapsed_since
  elapsed_since-cases now last = elim (Option-cases (checked_sub_i64 now last)) [
    | inl gone ↦ inr (ground (arith, gone))
    | inr (pos t, is_some) ↦ inl (t, ground (arith, is_some))
    | inr (negsuc t, is_some) ↦ inr (ground (arith, is_some))
  ]

  -- Once some principal is left, but less than is lent out or pending, every accrual at a later time
  -- fails.
  pub accrue_sub_vault-refuses :
      (v : SubVault) (now : ℤ) (share_value : Fp48)
      → v.last_accrue_unix <ℤ now
      → v.total_principal_atoms ≢ 0
      → v.total_principal_atoms < v.deployed_principal_atoms + v.pending_claim_atoms
      → accrue_sub_vault v now share_value ≡ err arithmetic_overflow
  unfolding accrue_sub_vault accrue_yield
  accrue_sub_vault-refuses v now share_value later some_left short =
      let late : leb_ℤ now v.last_accrue_unix ≡ false = ground arith in
      let nonzero : (v.total_principal_atoms == 0) ≡ false = ground (arith, some_left) in
      elim (elapsed_since-cases now v.last_accrue_unix) [
        | inl (t, e) ↦ rw (late, nonzero, e, idle_atoms-refuses v short) refl
        | inr e ↦ rw (late, nonzero, e) refl
      ]

  -- Sweeping repaid atoms keeps valid books valid, and leaves the principal and the assets alone.
  sweep-IsValid : (v : SubVault) (atoms : ℕ) → IsValid v → IsValid (sweep v atoms)
  unfolding sweep
  sweep-IsValid v atoms valid = ground arith
