-- ===== src/Vault/Moves.antt =====
-- What the operations on the funds of one sub-vault leave alone: its counter of open orders and the
-- values its loans are made and liquidated at. programs/ydelta/src/state/vault.rs and the processors
-- that deposit, withdraw, match, repay and sweep.
use y_delta.Prelude.{
  ℕ, ◌-◌, ◌*◌, ◌≡◌, refl, sym, subst, ◌∙◌, false, inl, inr, ok, custom, math_overflow, ok_or,
  Bool-cases, ok-injective, >>=-eq-ok, require-eq-ok, ◌==◌, ltb, arith, u128_mod,
}
use y_delta.Prelude.Words
use y_delta.Prelude.Int.{ℤ, pos, negsuc, leb_ℤ, ◌-ℤ◌}
use y_delta.Math.Uint256.{Uint256}
use y_delta.Math.Scale.{mul_div}
use y_delta.Math.Fp48.{Fp48}
use y_delta.Loan.{Pubkey, LoanFixed, bps_per_unit, seconds_per_year}
use y_delta.SubVault.{SubVault}
use y_delta.SubVault.Accrue.{
  apply_idle_delta, apply_loan_yield, grow_indices, set_share_value,
  restore_assets_principal_invariant, accrue_sub_vault,
}
use y_delta.SubVault.Bounds.{accrue_yield-Pass}
use y_delta.SubVault.Shares.{
  serves, mint, reset_assets, clear_books, deposit, deposit_accrued, shares_for, withdraw,
}
use y_delta.SubVault.Dilution.{withdraw_accrued-Burning}
use y_delta.SubVault.CloseOut.{
  realized_net, loan_lifetime, close_out_accrued, retire_rate, retire_principal, settle_principal,
  settle_assets, book_claim, close_out, sweep,
}
use y_delta.Market.Engine.{reserve}

-- An operation on the funds of a sub-vault that succeeded.
pub data Move ⦃w : Uint256⦄ : SubVault → SubVault → Type 0 where
  accrued :
      {v v' : SubVault} (now : ℤ) (share_value : Fp48)
      → accrue_sub_vault v now share_value ≡ ok v'
      → Move v v'
  deposited :
      {v v' : SubVault} (payer : Pubkey) (now : ℤ) (share_value : Fp48) (atoms : ℕ) {shares : ℕ}
      → deposit v payer now share_value atoms ≡ ok (v', shares)
      → Move v v'
  withdrawn :
      {v v' : SubVault} (payer : Pubkey) (now : ℤ) (share_value : Fp48) (burn mfi_atoms : ℕ)
      {out : ℕ}
      → withdraw v payer now share_value burn mfi_atoms ≡ ok (v', out)
      → Move v v'
  reserved : {v v' : SubVault} (principal : ℕ) → reserve v principal ≡ ok v' → Move v v'
  closed_out :
      {v v' : SubVault} (l : LoanFixed) (now : ℤ) (share_value : Fp48)
      → close_out v l now share_value ≡ ok v'
      → Move v v'
  swept : {v : SubVault} (atoms : ℕ) → Move v (sweep v atoms)

pub record SameTerms (v v' : SubVault) : Type 0 where
  pub orders : v'.open_orders_count ≡ v.open_orders_count
  pub max_ltv : v'.max_ltv_bps ≡ v.max_ltv_bps
  pub liquidation : v'.liquidation_ltv_bps ≡ v.liquidation_ltv_bps

then_same : {v v' v'' : SubVault} → SameTerms v v' → SameTerms v' v'' → SameTerms v v''
then_same a b = record {
  orders = b.orders ∙ a.orders;
  max_ltv = b.max_ltv ∙ a.max_ltv;
  liquidation = b.liquidation ∙ a.liquidation;
}

apply_idle_delta-SameTerms :
    (v : SubVault) (d : ℤ) {v' : SubVault} → apply_idle_delta v d ≡ ok v' → SameTerms v v'
unfolding apply_idle_delta
apply_idle_delta-SameTerms v (pos d) e = ground arith
apply_idle_delta-SameTerms v (negsuc d) e = ground arith

apply_loan_yield-SameTerms :
    (v : SubVault) (y : ℕ) {v' : SubVault} → apply_loan_yield v y ≡ ok v' → SameTerms v v'
unfolding apply_loan_yield
apply_loan_yield-SameTerms v y e = ground arith

restore-SameTerms : (v : SubVault) → SameTerms v (restore_assets_principal_invariant v)
unfolding restore_assets_principal_invariant
restore-SameTerms v = ground arith

set_share_value-SameTerms :
    (v : SubVault) (now : ℤ) (current : Fp48)
    → SameTerms v (set_share_value (record v { last_accrue_unix = now }) current)
set_share_value-SameTerms v now current = ground arith

clear_books-SameTerms :
    (v : SubVault) (shares assets principal : ℕ)
    → SameTerms v (
        clear_books (record v {
          total_shares = shares;
          total_assets_atoms = assets;
          total_principal_atoms = principal;
        }))
clear_books-SameTerms v shares assets principal = ground arith

reserve-SameTerms :
    (v : SubVault) (principal : ℕ) {v' : SubVault} → reserve v principal ≡ ok v' → SameTerms v v'
unfolding reserve
reserve-SameTerms v principal e = ground arith

retire_rate-SameTerms :
    (v : SubVault) (weighted : ℕ) {v' : SubVault} → retire_rate v weighted ≡ ok v' → SameTerms v v'
unfolding retire_rate
retire_rate-SameTerms v weighted e = ground arith

retire_principal-SameTerms :
    (v : SubVault) (weighted principal : ℕ) {v' : SubVault}
    → retire_principal v weighted principal ≡ ok v'
    → SameTerms v v'
unfolding retire_principal
retire_principal-SameTerms v weighted principal e = ground arith

settle_principal-SameTerms :
    (v : SubVault) (net : ℤ) {v' : SubVault} → settle_principal v net ≡ ok v' → SameTerms v v'
unfolding settle_principal
settle_principal-SameTerms v (pos n) e = ground arith
settle_principal-SameTerms v (negsuc n) e = ground arith

settle_assets-SameTerms :
    (v : SubVault) (delta : ℤ) {v' : SubVault} → settle_assets v delta ≡ ok v' → SameTerms v v'
unfolding settle_assets
settle_assets-SameTerms v (pos n) e = ground arith
settle_assets-SameTerms v (negsuc n) e = ground arith

book_claim-SameTerms :
    (v : SubVault) (l : LoanFixed) {v' : SubVault} → book_claim v l ≡ ok v' → SameTerms v v'
unfolding book_claim
book_claim-SameTerms v l e = ground arith

mint-SameTerms :
    (v : SubVault) (atoms shares : ℕ) {v' : SubVault}
    → mint (reset_assets v) atoms shares ≡ ok v'
    → SameTerms v v'
unfolding mint
mint-SameTerms v atoms shares e = ground arith

sweep-SameTerms : (v : SubVault) (atoms : ℕ) → SameTerms v (sweep v atoms)
unfolding sweep
sweep-SameTerms v atoms = record { orders = refl; max_ltv = refl; liquidation = refl }

module _ ⦃w : Uint256⦄ where
  grow_indices-SameTerms :
      (v : SubVault) (d : ℤ) (y : ℕ) {v' : SubVault} → grow_indices v d y ≡ ok v' → SameTerms v v'
  unfolding grow_indices
  grow_indices-SameTerms v d y e = ground arith

  accrue_sub_vault-SameTerms :
      (v : SubVault) (now : ℤ) (current : Fp48) {v' : SubVault}
      → accrue_sub_vault v now current ≡ ok v'
      → SameTerms v v'
  unfolding accrue_sub_vault
  accrue_sub_vault-SameTerms v now current {v'} e =
      elim (Bool-cases (leb_ℤ now v.last_accrue_unix)) [
        | inl early ↦
            subst (SameTerms v) (ok-injective (rw (accrue_sub_vault, early) at e))
              (record { orders = refl; max_ltv = refl; liquidation = refl })
        | inr late ↦ elim (Bool-cases (v.total_principal_atoms == 0)) [
          | inl none_left ↦
              subst (SameTerms v) (ok-injective (rw (accrue_sub_vault, late, none_left) at e))
                (set_share_value-SameTerms v now current)
          | inr some_left ↦
              let p =
                accrue_yield-Pass v now current (rw (accrue_sub_vault, late, some_left) at e) in
              let stamped = set_share_value (record (p.c) { last_accrue_unix = now }) current in
              subst (SameTerms v) (sym p.end_eq) (
                then_same (apply_idle_delta-SameTerms v p.delta p.a_eq) (
                  then_same (apply_loan_yield-SameTerms p.a p.yield p.b_eq) (
                    then_same (grow_indices-SameTerms p.b p.delta p.yield p.c_eq) (
                      then_same (set_share_value-SameTerms p.c now current)
                        (restore-SameTerms stamped)))))
        ]
      ]

  deposit-SameTerms :
      (v : SubVault) (payer : Pubkey) (now : ℤ) (current : Fp48) (atoms : ℕ) {v' : SubVault}
      {shares : ℕ}
      → deposit v payer now current atoms ≡ ok (v', shares)
      → SameTerms v v'
  unfolding deposit deposit_accrued
  deposit-SameTerms v payer now current atoms {v'} {shares} e =
      let (_, e₁) = require-eq-ok (serves v payer) _ e in
      let (_, e₂) = require-eq-ok (v.is_sunset == 0) _ e₁ in
      let (a, a_eq, e₃) = >>=-eq-ok (accrue_sub_vault v now current) _ e₂ in
      let (s, _, e₄) = >>=-eq-ok (shares_for a atoms) _ e₃ in
      let (_, e₅) = require-eq-ok (ltb 0 s) _ e₄ in
      let (u, u_eq, e₆) = >>=-eq-ok (mint (reset_assets a) atoms s) _ e₅ in
      subst (λ x. SameTerms v x.0) (ok-injective e₆)
        (then_same (accrue_sub_vault-SameTerms v now current a_eq) (mint-SameTerms a atoms s u_eq))

  withdraw-SameTerms :
      (v : SubVault) (payer : Pubkey) (now : ℤ) (current : Fp48) (burn mfi_atoms : ℕ)
      {v' : SubVault} {out : ℕ}
      → withdraw v payer now current burn mfi_atoms ≡ ok (v', out)
      → SameTerms v v'
  unfolding withdraw
  withdraw-SameTerms v payer now current burn mfi_atoms {v'} {out} e =
      let (_, e₁) = require-eq-ok (serves v payer) _ e in
      let (a, a_eq, e₂) = >>=-eq-ok (accrue_sub_vault v now current) _ e₁ in
      let b = withdraw_accrued-Burning a burn mfi_atoms e₂ in
      subst (SameTerms v) (sym b.result) (
        then_same (accrue_sub_vault-SameTerms v now current a_eq) (
          clear_books-SameTerms a (a.total_shares - burn) (a.total_assets_atoms - out)
            (a.total_principal_atoms - out)))

  close_out-SameTerms :
      (v : SubVault) (l : LoanFixed) (now : ℤ) (current : Fp48) {v' : SubVault}
      → close_out v l now current ≡ ok v'
      → SameTerms v v'
  unfolding close_out close_out_accrued
  close_out-SameTerms v l now current e =
      let (z, z_eq, e₀) = >>=-eq-ok (accrue_sub_vault v now current) _ e in
      let (x, _, e₁) =
        >>=-eq-ok
          (ok_or (Words.checked_mul u128_mod l.principal_debt_atoms l.lender_rate_bps)
            (custom math_overflow))
          _ e₀ in
      let (a, a_eq, e₂) = >>=-eq-ok (retire_rate z x) _ e₁ in
      let (n, _, e₃) =
        >>=-eq-ok (mul_div x (bps_per_unit - l.curator_fee_bps_snapshot) bps_per_unit false) _ e₂ in
      let (b, b_eq, e₄) = >>=-eq-ok (retire_principal a n l.principal_debt_atoms) _ e₃ in
      let (y, _, e₅) =
        >>=-eq-ok (mul_div n (loan_lifetime now l) (bps_per_unit * seconds_per_year) false) _ e₄ in
      let (c, c_eq, e₆) = >>=-eq-ok (settle_principal b (realized_net l)) _ e₅ in
      let (d, d_eq, e₇) = >>=-eq-ok (settle_assets c (realized_net l -ℤ pos y)) _ e₆ in
      then_same (accrue_sub_vault-SameTerms v now current z_eq) (
        then_same (retire_rate-SameTerms z x a_eq) (
          then_same (retire_principal-SameTerms a n l.principal_debt_atoms b_eq) (
            then_same (settle_principal-SameTerms b (realized_net l) c_eq) (
              then_same (settle_assets-SameTerms c (realized_net l -ℤ pos y) d_eq) (
                then_same (restore-SameTerms d)
                  (book_claim-SameTerms (restore_assets_principal_invariant d) l e₇))))))

  -- No operation on the funds of a sub-vault changes them.
  pub Move-SameTerms : {v v' : SubVault} → Move v v' → SameTerms v v'
  Move-SameTerms {v} (accrued now value e) = accrue_sub_vault-SameTerms v now value e
  Move-SameTerms {v} (deposited payer now value atoms e) =
      deposit-SameTerms v payer now value atoms e
  Move-SameTerms {v} (withdrawn payer now value burn mfi_atoms e) =
      withdraw-SameTerms v payer now value burn mfi_atoms e
  Move-SameTerms {v} (reserved principal e) = reserve-SameTerms v principal e
  Move-SameTerms {v} (closed_out l now value e) = close_out-SameTerms v l now value e
  Move-SameTerms {v} (swept atoms) = sweep-SameTerms v atoms
