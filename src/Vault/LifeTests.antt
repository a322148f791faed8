-- ===== src/Vault/LifeTests.antt =====
-- A vault account from its creation on: programs/ydelta/src/state/vault.rs and
-- programs/ydelta/src/program/processor/create_sub_vault.rs.
use y_delta.Prelude.{◌≡◌, refl, none, some, [], ◌∷◌, ok, err, custom, sub_vault_ltv_out_of_range}
use y_delta.Prelude.Int.{pos}
use y_delta.Math.Uint256.{nat_uint256}
use y_delta.Math.Fp48
use y_delta.SubVault.{SubVault, new_empty}
use y_delta.SubVault.Accrue.{accrue_sub_vault}
use y_delta.SubVault.Shares.{deposit, deposit_accrued, shares_for, mint}
use y_delta.Market.Engine.{set_at}
use y_delta.Vault.{
  SubVaultOrderRef, Vault, lookup_order, bump, bump_sub_vault_order_count,
  insert_sub_vault_order_ref,
}
use y_delta.Vault.Lifecycle.{
  SubVaultParams, new_vault, sub_vault_of, vault_expand_sub_vault_block, vault_expand_node_block,
  validate_sub_vault_risk_params, append_sub_vault, create_pool_sub_vault,
}
use y_delta.Vault.Created.{InOrder, new_vault-InOrder}
use y_delta.Vault.Admin.{write_sub_vault}
use y_delta.Vault.Moves.{deposited}
use y_delta.Vault.Life.{
  funds_moved, stay, step, pool_created, node_block_added, order_placed, VaultSteps-InOrder,
}

abbrev params : SubVaultParams
params = record {
  curator = 5;
  spread_bps = 100;
  max_ltv_bps = 8_000;
  liquidation_ltv_bps = 8_200;
  max_term_seconds = 31_536_000;
  curator_fee_bps = 1_000;
}

abbrev order : SubVaultOrderRef
order = record {
  market = 50;
  sub_vault_id = 1;
  side = 1;
  rate_bps = 600;
  term_seconds = 2_592_000;
  order_sequence_in_market = 9;
  placed_at_unix = pos 1_000;
}

abbrev at_first : Vault
at_first = new_vault 11 12 13 14 15 254 16

abbrev with_pool : Vault
with_pool = record at_first {
  sub_vaults = set_at (λ _. none) 1 (some (sub_vault_of 1 0 params));
  sub_vault_blocks = set_at (λ _. 0) 1 0;
  num_bytes_allocated = 512;
  sub_vault_count = 1;
  next_sub_vault_id = 2;
}

abbrev with_node : Vault
with_node = record with_pool { free_nodes = 512 ∷ []; num_bytes_allocated = 672 }

abbrev with_order : Vault
with_order = record with_node {
  sub_vaults =
      set_at (set_at (λ _. none) 1 (some (sub_vault_of 1 0 params))) 1
        (some (record (sub_vault_of 1 0 params) { open_orders_count = 1 }));
  market_orders = (512, order) ∷ [];
  open_order_count = 1;
  free_nodes = [];
}

creates : create_pool_sub_vault at_first params ≡ ok with_pool
unfolding new_vault create_pool_sub_vault validate_sub_vault_risk_params append_sub_vault
    vault_expand_sub_vault_block new_empty
creates = refl

-- A gap of 199 basis points is too small.
narrow_gap_is_refused :
    create_pool_sub_vault at_first (record params { liquidation_ltv_bps = 8_199 })
    ≡ err (custom sub_vault_ltv_out_of_range)
unfolding create_pool_sub_vault validate_sub_vault_risk_params
narrow_gap_is_refused = refl

adds : vault_expand_node_block with_pool ≡ ok with_node
unfolding new_vault vault_expand_node_block
adds = refl

places : insert_sub_vault_order_ref with_node order ≡ ok (with_order, 512)
unfolding new_vault new_empty insert_sub_vault_order_ref lookup_order bump_sub_vault_order_count
    bump
places = refl

abbrev pool_with_order : SubVault
pool_with_order = record (sub_vault_of 1 0 params) { open_orders_count = 1 }

abbrev pool_with_deposit : SubVault
pool_with_deposit = record pool_with_order {
  last_accrue_unix = pos 2_000;
  last_supply_share_value_fp48 = Fp48.one;
  total_shares = 500;
  total_principal_atoms = 500;
  total_assets_atoms = 500;
}

deposits :
    deposit ⦃w = nat_uint256⦄ pool_with_order 77 (pos 2_000) Fp48.one 500
    ≡ ok (pool_with_deposit, 500)
unfolding new_empty deposit accrue_sub_vault deposit_accrued shares_for mint
deposits = refl

VaultSteps-InOrder_example : InOrder (write_sub_vault with_order 1 pool_with_deposit)
VaultSteps-InOrder_example =
    VaultSteps-InOrder ⦃w = nat_uint256⦄ (new_vault-InOrder 11 12 13 14 15 254 16) (
      step
        (step (step (step (stay) (pool_created params creates)) (node_block_added adds))
          (order_placed order places))
        (funds_moved 1 refl (deposited 77 (pos 2_000) Fp48.one 500 deposits)))
