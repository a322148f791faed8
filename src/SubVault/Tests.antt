-- ===== src/SubVault/Tests.antt =====
-- Accrual of concrete sub-vaults, and the theorems there.
use y_delta.Prelude.{◌+◌, ◌*◌, ◌/◌, ◌^◌, ◌≡◌, refl, ok, arith}
use y_delta.Prelude.Int.{pos, checked_sub_i64, ◌-ℤ◌}
use y_delta.Math.Uint256.{nat_uint256}
use y_delta.Math.Scale.{mul_div, u256_to_u128}
use y_delta.Math.Fp48
use y_delta.SubVault.{SubVault}
use y_delta.SubVault.Accrue.{
  accrue_sub_vault, accrue_yield, elapsed_since, idle_atoms, idle_delta, loan_yield,
  apply_idle_delta, apply_loan_yield, grow_indices, grow_supply_index, grow_index,
  restore_assets_principal_invariant,
}
use y_delta.SubVault.Bounds.{IsValid, Grows, accrue_sub_vault-IsValid}
use y_delta.SubVault.Value.{accrue_sub_vault-revalues}

-- 1_000_000 atoms of principal, of which 400_000 are lent at a net 500 bps.
abbrev pub vault : SubVault
vault = record {
  sub_vault_id = 3;
  is_sunset = 0;
  kind = 0;
  spread_bps = 100;
  curator = 5;
  max_ltv_bps = 7_000;
  liquidation_ltv_bps = 8_000;
  max_term_seconds = 31_536_000;
  curator_fee_bps = 1_000;
  open_orders_count = 1;
  open_loans_count = 1;
  total_shares = 1_000_000;
  total_assets_atoms = 1_000_000;
  total_principal_atoms = 1_000_000;
  deployed_principal_atoms = 400_000;
  encumbered_in_orders_atoms = 0;
  total_weighted_rate_bps = 222_222_222;
  accumulated_curator_fee_atoms = 0;
  last_accrue_unix = pos 1_000_000_000;
  cumulative_supply_yield_index_scaled = 0;
  cumulative_delta_yield_index_scaled = 0;
  last_supply_share_value_fp48 = Fp48.one;
  pending_curator = 0;
  total_weighted_net_rate_bps = 200_000_000;
  pending_claim_atoms = 0;
}

-- A year on, with the share value up by a quarter: 150_000 atoms on the 600_000 idle ones, and
-- 20_000 atoms of loan yield.
abbrev pub vault_after : SubVault
vault_after = record vault {
  total_assets_atoms = 1_170_000;
  total_principal_atoms = 1_150_000;
  last_accrue_unix = pos 1_031_536_000;
  cumulative_supply_yield_index_scaled = 42_221_246_506_598;
  cumulative_delta_yield_index_scaled = 5_629_499_534_213;
  last_supply_share_value_fp48 = Fp48.from_raw (5 * 2 ^ 46);
}

pub accrue_year :
    accrue_sub_vault ⦃w = nat_uint256⦄ vault (pos 1_031_536_000) (Fp48.from_raw (5 * 2 ^ 46))
    ≡ ok vault_after
unfolding accrue_sub_vault accrue_yield elapsed_since idle_atoms idle_delta loan_yield
    apply_idle_delta apply_loan_yield grow_indices grow_supply_index grow_index
    restore_assets_principal_invariant mul_div u256_to_u128 checked_sub_i64 ◌-ℤ◌
accrue_year = refl

accrue_sub_vault-IsValid_example : IsValid vault_after × Grows vault vault_after
accrue_sub_vault-IsValid_example =
    accrue_sub_vault-IsValid ⦃w = nat_uint256⦄ vault (pos 1_031_536_000)
      (Fp48.from_raw (5 * 2 ^ 46)) accrue_year (omega arith)

accrue_sub_vault-revalues_example :
    (1_150_000 + 600_000 ≡ 1_000_000 + 600_000 * (5 * 2 ^ 46) / 2 ^ 48)
    × (vault_after.last_accrue_unix ≡ pos 1_031_536_000)
    × (vault_after.last_supply_share_value_fp48 ≡ Fp48.from_raw (5 * 2 ^ 46))
accrue_sub_vault-revalues_example =
    accrue_sub_vault-revalues ⦃w = nat_uint256⦄ vault (pos 1_031_536_000)
      (Fp48.from_raw (5 * 2 ^ 46)) 600_000 (omega arith) (omega arith) (omega arith) (omega arith)
      (omega arith) accrue_year
