-- ===== src/SubVault/Dilution.antt =====
-- What deposits and withdrawals do to the other depositors of a sub-vault:
-- programs/ydelta/src/program/processor/global_vault_deposit.rs and global_vault_withdraw.rs.
use y_delta.Prelude.{
  ℕ, ◌+◌, ◌-◌, ◌*◌, ◌/◌, ◌<◌, ◌≤◌, ◌≡◌, ◌≢◌, sym, true, false, inl, inr, ok, >>=-eq-ok, >>-eq-ok,
  subst, require-eq-ok, ok-injective, ap, ◌∙◌, Bool-cases, ◌||◌, ◌==◌, ltb, arith,
}
use y_delta.Prelude.Division.{rest_price}
use native.Mathlib.Nat.{div-mul-le_self, mul-le-mul_left, mul-le-mul_right, le_of_mul-le-mul_right}
use y_delta.Math.Uint256.{Uint256}
use y_delta.Math.Exact.{mul_div-eq-ok}
use y_delta.Math.Scale.{mul_div}
use y_delta.SubVault.{SubVault}
use y_delta.SubVault.Bounds.{IsValid}
use y_delta.SubVault.Shares.{
  reset_assets, mint, payout, sub_vault_idle, check_liquidity, burn_shares, clear_books, shares_for,
  deposit_accrued, principal_decrement, withdraw_accrued,
}

-- The sub-vault that `mint` returns.
abbrev pub minted : SubVault → ℕ → ℕ → SubVault
minted v atoms shares = record v {
  total_shares = v.total_shares + shares;
  total_principal_atoms = v.total_principal_atoms + atoms;
  total_assets_atoms = v.total_assets_atoms + atoms;
}

-- The sub-vault that `burn_shares` returns.
abbrev pub burnt : SubVault → ℕ → ℕ → SubVault
burnt v burn out = record v {
  total_shares = v.total_shares - burn;
  total_assets_atoms = v.total_assets_atoms - out;
  total_principal_atoms = v.total_principal_atoms - out;
}

mint-eq-ok :
    (v : SubVault) (atoms shares : ℕ) {v' : SubVault}
    → mint v atoms shares ≡ ok v'
    → v' ≡ minted v atoms shares
unfolding mint
mint-eq-ok v atoms shares e = ground arith

burn_shares-eq-ok :
    (v : SubVault) (burn out : ℕ) {v' : SubVault}
    → burn_shares v burn out ≡ ok v'
    → (v' ≡ burnt v burn out)
      × (burn ≤ v.total_shares)
      × (out ≤ v.total_assets_atoms)
      × (out ≤ v.total_principal_atoms)
unfolding burn_shares
burn_shares-eq-ok v burn out e = ground arith

pub check_liquidity-eq-ok :
    (v : SubVault) (burn out mfi_atoms : ℕ)
    → check_liquidity v burn out mfi_atoms ≡ ok tt
    → (out ≤ sub_vault_idle v)
      × (out ≤ mfi_atoms)
      × (v.total_shares ≡ burn → v.deployed_principal_atoms + v.encumbered_in_orders_atoms ≡ 0)
unfolding check_liquidity
check_liquidity-eq-ok v burn out mfi_atoms e = ground arith

module _ ⦃w : Uint256⦄ where
  -- What a successful deposit computed.
  pub record Minting (v : SubVault) (atoms : ℕ) (v' : SubVault) (shares : ℕ) : Type 0 where
    pub price : shares_for v atoms ≡ ok shares
    pub some_shares : 0 < shares
    pub result : v' ≡ minted (reset_assets v) atoms shares

  pub deposit_accrued-Minting :
      (v : SubVault) (atoms : ℕ) {v' : SubVault} {shares : ℕ}
      → deposit_accrued v atoms ≡ ok (v', shares)
      → Minting v atoms v' shares
  unfolding deposit_accrued
  deposit_accrued-Minting v atoms {v'} {shares} e =
      let (s, price, e1) = >>=-eq-ok (shares_for v atoms) _ e in
      let (pos, e2) = require-eq-ok (ltb 0 s) _ e1 in
      let (u, mint_eq, e3) = >>=-eq-ok (mint (reset_assets v) atoms s) _ e2 in
      let both = ok-injective e3 in
      let eq_s : s ≡ shares = ap (λ p. p.1) both in
      let eq_u : u ≡ v' = ap (λ p. p.0) both in
      let made = mint-eq-ok (reset_assets v) atoms s mint_eq in
      record {
        price = price ∙ ap ok eq_s;
        some_shares = ground arith;
        result = sym eq_u ∙ made ∙ ap (λ x. minted (reset_assets v) atoms x) eq_s;
      }

  shares_for-le :
      (v : SubVault) (atoms : ℕ) {s : ℕ}
      → v.total_shares ≢ 0
      → shares_for v atoms ≡ ok s
      → s * v.total_assets_atoms ≤ atoms * v.total_shares
  unfolding shares_for
  shares_for-le v atoms {s} nz e = ground (
    arith,
    mul_div-eq-ok atoms v.total_shares v.total_assets_atoms {r = s},
    div-mul-le_self (atoms * v.total_shares) v.total_assets_atoms,
  )

  -- A deposit into a sub-vault that has shares does not lower the assets per share of the others:
  -- A / S ≤ A' / S', written without division.
  pub deposit_accrued-keeps_price :
      (v : SubVault) (atoms : ℕ) {v' : SubVault} {shares : ℕ}
      → v.total_shares ≢ 0
      → deposit_accrued v atoms ≡ ok (v', shares)
      → v.total_assets_atoms * v'.total_shares ≤ v'.total_assets_atoms * v.total_shares
  deposit_accrued-keeps_price v atoms {v'} {shares} nz e =
      let m = deposit_accrued-Minting v atoms e in
      let le = shares_for-le v atoms nz m.price in
      let has : (v.total_shares == 0) ≡ false = ground arith in
      rw (m.result, has) (omega (arith, le))

  -- What a successful withdrawal computed.
  pub record Burning (v : SubVault) (burn mfi_atoms : ℕ) (v' : SubVault) (out : ℕ) : Type 0 where
    pub decrement : ℕ
    pub part : principal_decrement v burn ≡ ok decrement
    pub paid : out ≡ payout v burn decrement mfi_atoms
    pub pays : (ltb 0 decrement || v.total_assets_atoms == 0) ≡ true
    pub liquid : check_liquidity v burn out mfi_atoms ≡ ok tt
    pub result : v' ≡ clear_books (burnt v burn out)
    pub has_shares : burn ≤ v.total_shares
    pub has_assets : out ≤ v.total_assets_atoms
    pub has_principal : out ≤ v.total_principal_atoms

  pub withdraw_accrued-Burning :
      (v : SubVault) (burn mfi_atoms : ℕ) {v' : SubVault} {out : ℕ}
      → withdraw_accrued v burn mfi_atoms ≡ ok (v', out)
      → Burning v burn mfi_atoms v' out
  unfolding withdraw_accrued
  withdraw_accrued-Burning v burn mfi_atoms {v'} {out} e =
      let (d, part, e1) = >>=-eq-ok (principal_decrement v burn) _ e in
      let o = payout v burn d mfi_atoms in
      let (pays, e2) = require-eq-ok (ltb 0 d || v.total_assets_atoms == 0) _ e1 in
      let (liquid, e3) = >>-eq-ok (check_liquidity v burn o mfi_atoms) e2 in
      let (u, burn_eq, e4) = >>=-eq-ok (burn_shares v burn o) _ e3 in
      let both = ok-injective e4 in
      let eq_o : o ≡ out = ap (λ p. p.1) both in
      let (made, b, a, p) = burn_shares-eq-ok v burn o burn_eq in
      record {
        decrement = d;
        part = part;
        paid = sym eq_o;
        pays = pays;
        liquid = subst (λ x. check_liquidity v burn x mfi_atoms ≡ ok tt) eq_o liquid;
        result = sym (ap (λ p. p.0) both) ∙ ap clear_books (made ∙ ap (λ x. burnt v burn x) eq_o);
        has_shares = b;
        has_assets = subst (λ x. x ≤ v.total_assets_atoms) eq_o a;
        has_principal = subst (λ x. x ≤ v.total_principal_atoms) eq_o p;
      }

  principal_decrement-le :
      (v : SubVault) (burn : ℕ) {d : ℕ}
      → principal_decrement v burn ≡ ok d
      → (d * v.total_shares ≤ burn * v.total_principal_atoms)
        × (d ≡ burn * v.total_principal_atoms / v.total_shares)
        × (v.total_shares ≢ 0)
  unfolding principal_decrement
  principal_decrement-le v burn {d} e =
      let (x, x_eq, e1) =
        >>=-eq-ok (mul_div burn v.total_principal_atoms v.total_shares false) _ e in
      let (eq, _, nz) = mul_div-eq-ok burn v.total_principal_atoms v.total_shares x_eq in
      let le = div-mul-le_self (burn * v.total_principal_atoms) v.total_shares in
      let same : x ≡ d = ground arith in
      let eq' : d ≡ burn * v.total_principal_atoms / v.total_shares = sym same ∙ eq in
      (rw eq' le, eq', ground arith)

  payout-le : (v : SubVault) (burn d mfi_atoms : ℕ) → (payout v burn d mfi_atoms ≤ d)
  payout-le v burn d mfi_atoms = ground arith

  -- A withdrawal does not lower the principal per share of those who stay: P / S ≤ P' / S', written
  -- without division.
  pub withdraw_accrued-keeps_price :
      (v : SubVault) (burn mfi_atoms : ℕ) {v' : SubVault} {out : ℕ}
      → withdraw_accrued v burn mfi_atoms ≡ ok (v', out)
      → v.total_principal_atoms * v'.total_shares ≤ v'.total_principal_atoms * v.total_shares
  withdraw_accrued-keeps_price v burn mfi_atoms {v'} {out} e =
      let b = withdraw_accrued-Burning v burn mfi_atoms e in
      let (le, _, _) = principal_decrement-le v burn b.part in
      let most : out ≤ b.decrement =
        omega (arith, b.paid, payout-le v burn b.decrement mfi_atoms) in
      let most_shares : out * v.total_shares ≤ b.decrement * v.total_shares =
        mul-le-mul_right v.total_shares most in
      let rest =
        rest_price v.total_principal_atoms v.total_shares burn out b.has_shares b.has_principal
          (omega (arith, most_shares, le)) in
      rw (b.result) (ground (arith, rest))

  shares_for-first :
      (v : SubVault) (atoms : ℕ) {s : ℕ}
      → (v.total_shares == 0) ≡ true
      → shares_for v atoms ≡ ok s
      → s ≡ atoms
  unfolding shares_for
  shares_for-first v atoms none_yet e = ground arith

  -- The minted shares are a claim on at most the deposit.
  minted-fair :
      (v : SubVault) (atoms : ℕ) {v' : SubVault} {shares : ℕ}
      → IsValid v
      → (v.total_shares ≡ 0 → v.total_principal_atoms ≡ 0)
      → Minting v atoms v' shares
      → (shares * v'.total_principal_atoms ≤ atoms * v'.total_shares) × (0 < v'.total_shares)
  minted-fair v atoms {v'} {shares} valid empty m = elim (Bool-cases (v.total_shares == 0)) [
    | inl none_yet ↦
        let same = shares_for-first v atoms none_yet m.price in
        let no_shares : v.total_shares ≡ 0 = ground arith in
        let no_principal = empty no_shares in
        rw (m.result, none_yet, same, no_shares, no_principal)
          (omega arith, omega (arith, m.some_shares, same))
    | inr some_shares ↦
        let le = shares_for-le v atoms (ground arith) m.price in
        let backed = mul-le-mul_left shares valid.backed in
        rw (m.result, some_shares) (omega (arith, le, backed), omega (arith, m.some_shares))
  ]

  -- A depositor who withdraws what a deposit minted gets at most the deposit, when the books are
  -- valid before and a sub-vault without shares has no principal.
  pub withdraw_accrued-deposit_accrued :
      (v : SubVault) (atoms mfi_atoms : ℕ) {v' v'' : SubVault} {shares out : ℕ}
      → IsValid v
      → (v.total_shares ≡ 0 → v.total_principal_atoms ≡ 0)
      → deposit_accrued v atoms ≡ ok (v', shares)
      → withdraw_accrued v' shares mfi_atoms ≡ ok (v'', out)
      → out ≤ atoms
  withdraw_accrued-deposit_accrued v atoms mfi_atoms {v'} {v''} {shares} {out} valid empty d e =
      let b = withdraw_accrued-Burning v' shares mfi_atoms e in
      let (le, _, _) = principal_decrement-le v' shares b.part in
      let (fair, pos) = minted-fair v atoms valid empty (deposit_accrued-Minting v atoms d) in
      let most = payout-le v' shares b.decrement mfi_atoms in
      let bound : b.decrement ≤ atoms =
        le_of_mul-le-mul_right {k = v'.total_shares} (omega (arith, le, fair)) pos in
      omega (arith, most, bound, b.paid)
