-- ===== src/SubVault/Accrue.antt =====
-- The yield of a sub-vault: `accrue_sub_vault` and `restore_assets_principal_invariant` in
-- programs/ydelta/src/state/vault.rs.
use y_delta.Prelude.{
  ℕ, suc, ◌*◌, ◌^◌, false, not, ◌&&◌, none, some, Result, ok, err, custom, arithmetic_overflow,
  math_overflow, ok_or, ◌>>=◌, ◌==◌, ltb, if◌then◌else◌, u64_mod, u128_mod,
}
use y_delta.Prelude.Words
use y_delta.Prelude.Int.{ℤ, pos, negsuc, sub_ℕ, leb_ℤ, checked_sub_i64}
use y_delta.Math.Uint256.{Uint256}
use y_delta.Math.Scale.{mul_div}
use y_delta.Math.Fp48
use y_delta.Math.Fp48.{Fp48}
use y_delta.Loan.{bps_per_unit, seconds_per_year}
use y_delta.SubVault.{SubVault}

abbrev pub accrue_index_scale : ℕ
accrue_index_scale = 2 ^ 48

-- `now.checked_sub(last).filter(|d| *d >= 0)`
unfoldable pub elapsed_since : ℤ → ℤ → Result ℕ
elapsed_since now last = elim (checked_sub_i64 now last) [
  | none ↦ err arithmetic_overflow
  | some (negsuc d) ↦ err arithmetic_overflow
  | some (pos d) ↦ ok d
]

-- `let idle`: what lies in the vault's own integration account.
unfoldable pub idle_atoms : SubVault → Result ℕ
idle_atoms v = do
  undeployed ←
      ok_or (Words.checked_sub v.total_principal_atoms v.deployed_principal_atoms)
        arithmetic_overflow
  ok_or (Words.checked_sub undeployed v.pending_claim_atoms) arithmetic_overflow

-- The two branches on `idle_delta_atoms >= 0`.
unfoldable pub apply_idle_delta : SubVault → ℤ → Result SubVault
apply_idle_delta v (pos delta) = do
  gain ← ok_or (Words.try_from u64_mod delta) (custom math_overflow)
  assets ← ok_or (Words.checked_add u64_mod v.total_assets_atoms gain) arithmetic_overflow
  principal ← ok_or (Words.checked_add u64_mod v.total_principal_atoms gain) arithmetic_overflow
  ok (record v { total_assets_atoms = assets; total_principal_atoms = principal })
apply_idle_delta v (negsuc n) = do
  loss ← ok_or (Words.try_from u64_mod (suc n)) (custom math_overflow)
  ok (record v {
    total_assets_atoms = Words.saturating_sub v.total_assets_atoms loss;
    total_principal_atoms = Words.saturating_sub v.total_principal_atoms loss;
  })

unfoldable pub apply_loan_yield : SubVault → ℕ → Result SubVault
apply_loan_yield v yield = if not (ltb yield u64_mod) then err (custom math_overflow) else do
  assets ← ok_or (Words.checked_add u64_mod v.total_assets_atoms yield) arithmetic_overflow
  ok (record v { total_assets_atoms = assets })

abbrev pub set_share_value : SubVault → Fp48 → SubVault
set_share_value v current =
    if not (Fp48.is_zero current) then record v { last_supply_share_value_fp48 = current } else v

unfoldable pub restore_assets_principal_invariant : SubVault → SubVault
restore_assets_principal_invariant v =
    if ltb v.total_assets_atoms v.total_principal_atoms
    then record v { total_assets_atoms = v.total_principal_atoms }
    else v

module _ ⦃w : Uint256⦄ where
  -- `let idle_delta_atoms`
  unfoldable pub idle_delta : SubVault → ℕ → Fp48 → Result ℤ
  idle_delta v idle current =
      if ltb 0 idle
        && not (Fp48.is_zero current)
        && not (Fp48.is_zero v.last_supply_share_value_fp48)
      then (mul_div idle current.raw v.last_supply_share_value_fp48.raw false >>= λ value.
          if ltb value u64_mod then ok (sub_ℕ value idle) else err (custom math_overflow))
      else ok (pos 0)

  unfoldable pub loan_yield : SubVault → ℕ → Result ℕ
  loan_yield v elapsed =
      mul_div v.total_weighted_net_rate_bps elapsed (bps_per_unit * seconds_per_year) false

  -- The index growth that `amount` atoms make, per share.
  unfoldable pub grow_index : ℕ → ℕ → ℕ → Result ℕ
  grow_index index amount shares = do
    growth ← mul_div amount accrue_index_scale shares false
    ok_or (Words.checked_add u128_mod index growth) arithmetic_overflow

  -- `if idle_delta_atoms > 0`
  unfoldable pub grow_supply_index : SubVault → ℤ → Result ℕ
  grow_supply_index v (negsuc n) = ok v.cumulative_supply_yield_index_scaled
  grow_supply_index v (pos d) =
      if ltb 0 d
      then grow_index v.cumulative_supply_yield_index_scaled d v.total_shares
      else ok v.cumulative_supply_yield_index_scaled

  -- `if sub_vault.total_shares > 0`
  unfoldable pub grow_indices : SubVault → ℤ → ℕ → Result SubVault
  grow_indices v delta yield = if not (ltb 0 v.total_shares) then ok v else do
    supply ← grow_supply_index v delta
    loans ← grow_index v.cumulative_delta_yield_index_scaled yield v.total_shares
    ok (record v {
      cumulative_supply_yield_index_scaled = supply;
      cumulative_delta_yield_index_scaled = loans;
    })

  -- What follows the two early returns.
  unfoldable pub accrue_yield : SubVault → ℤ → Fp48 → Result SubVault
  accrue_yield v now current = do
    elapsed ← elapsed_since now v.last_accrue_unix
    idle ← idle_atoms v
    delta ← idle_delta v idle current
    yield ← loan_yield v elapsed
    v₁ ← apply_idle_delta v delta
    v₂ ← apply_loan_yield v₁ yield
    v₃ ← grow_indices v₂ delta yield
    ok (
        restore_assets_principal_invariant
          (set_share_value (record v₃ { last_accrue_unix = now }) current))

  unfoldable pub accrue_sub_vault : SubVault → ℤ → Fp48 → Result SubVault
  accrue_sub_vault v now current =
      if leb_ℤ now v.last_accrue_unix
      then ok v
      else if v.total_principal_atoms == 0
      then ok (set_share_value (record v { last_accrue_unix = now }) current)
      else accrue_yield v now current
