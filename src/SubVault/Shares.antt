-- ===== src/SubVault/Shares.antt =====
-- Shares of a sub-vault: the sub-vault's part of `process_global_vault_deposit` and
-- `process_global_vault_withdraw`, programs/ydelta/src/program/processor/global_vault_deposit.rs and
-- global_vault_withdraw.rs. The amounts that marginfi reports (credited atoms, share value, atoms
-- on deposit) are arguments; the transfers between accounts are left out.
use y_delta.Prelude.{
  ℕ, false, min, Bool, not, ◌&&◌, ◌||◌, Result, ok, err, custom, arithmetic_overflow, math_overflow,
  invalid_argument, vault_curator_required, sub_vault_sunset, vault_insufficient_idle_atoms,
  require, ok_or, ◌>>=◌, ◌>>◌, ◌==◌, ltb, leb, if◌then◌else◌, u64_mod, u128_mod,
}
use y_delta.Prelude.Words
use y_delta.Prelude.Int.{ℤ}
use y_delta.Math.Uint256.{Uint256}
use y_delta.Math.Scale.{mul_div}
use y_delta.Math.Fp48.{Fp48}
use y_delta.Loan.{Pubkey}
use y_delta.SubVault.{SubVault, sub_vault_kind_private}
use y_delta.SubVault.Accrue.{accrue_sub_vault}

-- A private sub-vault serves its owner only.
abbrev pub serves : SubVault → Pubkey → Bool
serves v payer = not (v.kind == sub_vault_kind_private) || v.curator == payer

-- `if sub_vault.total_shares == 0 { sub_vault.total_assets_atoms = 0; .. }`
abbrev pub reset_assets : SubVault → SubVault
reset_assets v = if v.total_shares == 0 then record v { total_assets_atoms = 0 } else v

-- The three additions of a deposit.
unfoldable pub mint : SubVault → ℕ → ℕ → Result SubVault
mint v atoms shares = do
  total_shares ← ok_or (Words.checked_add u128_mod v.total_shares shares) arithmetic_overflow
  principal ← ok_or (Words.checked_add u64_mod v.total_principal_atoms atoms) arithmetic_overflow
  assets ← ok_or (Words.checked_add u64_mod v.total_assets_atoms atoms) arithmetic_overflow
  ok (record v {
    total_shares = total_shares;
    total_principal_atoms = principal;
    total_assets_atoms = assets;
  })

-- `let atoms_out`: the last share is paid at most what lies at marginfi.
abbrev pub payout : SubVault → (shares_to_burn principal_decrement mfi_atoms : ℕ) → ℕ
payout v burn decrement mfi_atoms =
    if v.total_shares == burn then min decrement mfi_atoms else decrement

abbrev pub sub_vault_idle : SubVault → ℕ
sub_vault_idle v =
    Words.saturating_sub (Words.saturating_sub v.total_principal_atoms v.deployed_principal_atoms)
      v.encumbered_in_orders_atoms

-- The guards on liquidity, and on capital in flight when the last share goes.
unfoldable pub check_liquidity :
    SubVault → (shares_to_burn atoms_out mfi_atoms : ℕ) → Result (Unit {0})
check_liquidity v burn out mfi_atoms = do
  require (leb out (sub_vault_idle v)) (custom vault_insufficient_idle_atoms)
  require (leb out mfi_atoms) (custom vault_insufficient_idle_atoms)
  require
      (not (v.total_shares == burn)
        || (v.deployed_principal_atoms == 0 && v.encumbered_in_orders_atoms == 0))
      (custom vault_insufficient_idle_atoms)

-- The three subtractions of a withdrawal.
unfoldable pub burn_shares : SubVault → ℕ → ℕ → Result SubVault
burn_shares v burn out = do
  total_shares ← ok_or (Words.checked_sub v.total_shares burn) arithmetic_overflow
  assets ← ok_or (Words.checked_sub v.total_assets_atoms out) arithmetic_overflow
  principal ← ok_or (Words.checked_sub v.total_principal_atoms out) arithmetic_overflow
  ok (record v {
    total_shares = total_shares;
    total_assets_atoms = assets;
    total_principal_atoms = principal;
  })

-- `if new_total_shares == 0`: the books of an empty sub-vault are cleared.
abbrev pub clear_books : SubVault → SubVault
clear_books v =
    if v.total_shares == 0
    then record v { total_assets_atoms = 0; total_principal_atoms = 0 }
    else v

module _ ⦃w : Uint256⦄ where
  -- `let shares`: the first deposit sets the price at one.
  unfoldable pub shares_for : SubVault → ℕ → Result ℕ
  shares_for v atoms =
      if v.total_shares == 0
      then ok atoms
      else if v.total_assets_atoms == 0
      then err (custom invalid_argument)
      else mul_div atoms v.total_shares v.total_assets_atoms false

  -- After accrual: the sub-vault and the shares minted.
  unfoldable pub deposit_accrued : SubVault → ℕ → Result (SubVault × ℕ)
  deposit_accrued v atoms = do
    shares ← shares_for v atoms
    require (ltb 0 shares) (custom invalid_argument)
    v' ← mint (reset_assets v) atoms shares
    ok (v', shares)

  unfoldable pub deposit :
      SubVault
      → (payer : Pubkey) (now : ℤ) (share_value : Fp48) (credited_atoms : ℕ) → Result (SubVault × ℕ)
  deposit v payer now share_value atoms = do
    require (serves v payer) (custom vault_curator_required)
    require (v.is_sunset == 0) (custom sub_vault_sunset)
    accrued ← accrue_sub_vault v now share_value
    deposit_accrued accrued atoms

  -- `let principal_decrement`
  unfoldable pub principal_decrement : SubVault → ℕ → Result ℕ
  principal_decrement v burn = do
    share ← mul_div burn v.total_principal_atoms v.total_shares false
    ok_or (Words.try_from u64_mod share) (custom math_overflow)

  -- After accrual: the sub-vault and the atoms paid out.
  unfoldable pub withdraw_accrued : SubVault → (burn mfi_atoms : ℕ) → Result (SubVault × ℕ)
  withdraw_accrued v burn mfi_atoms = do
    decrement ← principal_decrement v burn
    require (ltb 0 decrement || v.total_assets_atoms == 0) (custom invalid_argument)
    check_liquidity v burn (payout v burn decrement mfi_atoms) mfi_atoms
    v' ← burn_shares v burn (payout v burn decrement mfi_atoms)
    ok (clear_books v', payout v burn decrement mfi_atoms)

  unfoldable pub withdraw :
      SubVault
      → (payer : Pubkey) (now : ℤ) (share_value : Fp48) (shares_to_burn mfi_atoms : ℕ)
      → Result (SubVault × ℕ)
  withdraw v payer now share_value burn mfi_atoms = do
    require (serves v payer) (custom vault_curator_required)
    accrued ← accrue_sub_vault v now share_value
    withdraw_accrued accrued burn mfi_atoms
