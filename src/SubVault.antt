-- ===== src/SubVault.antt =====
-- A sub-vault: programs/ydelta/src/state/vault.rs. The padding and reserved bytes of `SubVault` are
-- left out.
pub mod Accrue
pub mod Shares
pub mod Bounds
pub mod CloseOut
pub mod Dilution
pub mod Closing
pub mod Validity
pub mod Stranded
pub mod Value
mod Tests
mod SharesTests
use y_delta.Prelude.{ℕ, ◌^◌, Bool, ◌&&◌, ◌==◌}
use y_delta.Prelude.Int.{ℤ, pos}
use y_delta.Math.Fp48
use y_delta.Math.Fp48.{Fp48}
use y_delta.Loan.{Pubkey}

abbrev pub sub_vault_kind_pool : ℕ
sub_vault_kind_pool = 0

abbrev pub sub_vault_kind_private : ℕ
sub_vault_kind_private = 1

pub record SubVault : Type 0 where
  pub sub_vault_id : ℕ
  pub is_sunset : ℕ
  pub kind : ℕ
  pub spread_bps : ℕ
  pub curator : Pubkey
  pub max_ltv_bps : ℕ
  pub liquidation_ltv_bps : ℕ
  pub max_term_seconds : ℕ
  pub curator_fee_bps : ℕ
  pub open_orders_count : ℕ
  pub open_loans_count : ℕ
  pub total_shares : ℕ
  pub total_assets_atoms : ℕ
  pub total_principal_atoms : ℕ
  pub deployed_principal_atoms : ℕ
  pub encumbered_in_orders_atoms : ℕ
  pub total_weighted_rate_bps : ℕ
  pub accumulated_curator_fee_atoms : ℕ
  pub last_accrue_unix : ℤ
  pub cumulative_supply_yield_index_scaled : ℕ
  pub cumulative_delta_yield_index_scaled : ℕ
  pub last_supply_share_value_fp48 : Fp48
  pub pending_curator : Pubkey
  pub total_weighted_net_rate_bps : ℕ
  pub pending_claim_atoms : ℕ

unfoldable pub new_empty : ℕ → Pubkey → ℕ → ℕ → SubVault
new_empty sub_vault_id curator max_ltv_bps max_term_seconds = record {
  sub_vault_id = sub_vault_id;
  is_sunset = 0;
  kind = 0;
  spread_bps = 0;
  curator = curator;
  max_ltv_bps = max_ltv_bps;
  liquidation_ltv_bps = 0;
  max_term_seconds = max_term_seconds;
  curator_fee_bps = 0;
  open_orders_count = 0;
  open_loans_count = 0;
  total_shares = 0;
  total_assets_atoms = 0;
  total_principal_atoms = 0;
  deployed_principal_atoms = 0;
  encumbered_in_orders_atoms = 0;
  total_weighted_rate_bps = 0;
  accumulated_curator_fee_atoms = 0;
  last_accrue_unix = pos 0;
  cumulative_supply_yield_index_scaled = 0;
  cumulative_delta_yield_index_scaled = 0;
  last_supply_share_value_fp48 = Fp48.zero;
  pending_curator = 0;
  total_weighted_net_rate_bps = 0;
  pending_claim_atoms = 0;
}

unfoldable pub is_empty : SubVault → Bool
is_empty v =
    v.total_shares == 0
    && v.total_assets_atoms == 0
    && v.total_principal_atoms == 0
    && v.deployed_principal_atoms == 0
    && v.encumbered_in_orders_atoms == 0
    && v.accumulated_curator_fee_atoms == 0
    && v.pending_claim_atoms == 0
    && v.open_orders_count == 0
    && v.open_loans_count == 0
