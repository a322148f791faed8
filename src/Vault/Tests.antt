-- ===== src/Vault/Tests.antt =====
-- Runs of the operations on a vault's orders, programs/ydelta/src/state/vault.rs.
use y_delta.Prelude.{
  ℕ, ◌≡◌, refl, none, some, Option, [], ◌∷◌, inl, inr, Bool-cases, ok, err, custom, ◌==◌,
  if◌then◌else◌, arith, true, false, sub_vault_order_exists,
}
use y_delta.Prelude.Int.{pos}
use y_delta.Order.{DataIndex}
use y_delta.SubVault.{SubVault}
use y_delta.Market.Engine.{SubVaults, set_at}
use y_delta.Vault.{
  SubVaultOrderRef, Vault, lookup_order, has_key, bump, bump_sub_vault_order_count,
  insert_sub_vault_order_ref, remove_sub_vault_order_ref,
}
use y_delta.Vault.Counts.{count_all, count_of, count_key, IsCounted}
use y_delta.Vault.Agreement.{remove_sub_vault_order_ref-IsCounted}

-- A sub-vault with one order.
abbrev sub_vault : SubVault
sub_vault = record {
  sub_vault_id = 3;
  is_sunset = 0;
  kind = 0;
  spread_bps = 100;
  curator = 5;
  max_ltv_bps = 8_000;
  liquidation_ltv_bps = 9_000;
  max_term_seconds = 31_536_000;
  curator_fee_bps = 1_000;
  open_orders_count = 1;
  open_loans_count = 0;
  total_shares = 700;
  total_assets_atoms = 700;
  total_principal_atoms = 700;
  deployed_principal_atoms = 0;
  encumbered_in_orders_atoms = 0;
  total_weighted_rate_bps = 0;
  accumulated_curator_fee_atoms = 0;
  last_accrue_unix = pos 0;
  cumulative_supply_yield_index_scaled = 0;
  cumulative_delta_yield_index_scaled = 0;
  last_supply_share_value_fp48 = record { raw = 281_474_976_710_656 };
  pending_curator = 0;
  total_weighted_net_rate_bps = 0;
  pending_claim_atoms = 0;
}

abbrev order_in : ℕ → SubVaultOrderRef
order_in market = record {
  market = market;
  sub_vault_id = 3;
  side = 1;
  rate_bps = 600;
  term_seconds = 2_592_000;
  order_sequence_in_market = 9;
  placed_at_unix = pos 1_000;
}

abbrev sub_vaults : SubVaults
sub_vaults id = if id == 3 then some sub_vault else none

abbrev vault : Vault
vault = record {
  discriminator = 7;
  mint = 11;
  global_vault_admin = 12;
  integration_pool = 13;
  integration_account = 14;
  global_vault_signer = 15;
  lending_pool = 13;
  sub_vaults = sub_vaults;
  claimed_seats = [];
  market_orders = (640, order_in 50) ∷ [];
  sub_vault_blocks = λ _. 0;
  free_sub_vault_blocks = [];
  free_nodes = 800 ∷ 960 ∷ [];
  num_bytes_allocated = 1_120;
  sub_vault_count = 1;
  global_vault_signer_bump = 254;
  version = 1;
  claimed_seat_count = 0;
  open_order_count = 1;
  pending_global_vault_admin = 0;
  is_paused = 0;
  next_sub_vault_id = 4;
}

vault-IsCounted : IsCounted vault
unfolding count_all count_of count_key
vault-IsCounted = record {
  all = refl;
  each = λ id. elim (Bool-cases (id == 3)) [
    | inl same ↦ let here : (3 == id) ≡ true = ground arith in rw (same, here) refl
    | inr other ↦ let gone : (3 == id) ≡ false = ground (arith, other) in rw (other, gone) refl
  ];
  single = λ market id. elim (Bool-cases (has_key (order_in 50) market id)) [
    | inl here ↦ rw here (omega arith)
    | inr other ↦ rw other (omega arith)
  ];
}

second_order_is_refused :
    insert_sub_vault_order_ref vault (order_in 50) ≡ err (custom sub_vault_order_exists)
unfolding insert_sub_vault_order_ref lookup_order
second_order_is_refused = refl

abbrev vault_after_insert : Vault
vault_after_insert = record vault {
  sub_vaults = set_at sub_vaults 3 (some (record sub_vault { open_orders_count = 2 }));
  market_orders = (800, order_in 51) ∷ (640, order_in 50) ∷ [];
  open_order_count = 2;
  free_nodes = 960 ∷ [];
}

inserts : insert_sub_vault_order_ref vault (order_in 51) ≡ ok (vault_after_insert, 800)
unfolding insert_sub_vault_order_ref lookup_order bump_sub_vault_order_count bump
inserts = refl

remove_sub_vault_order_ref-IsCounted_example :
    (v' : Vault) × (o : Option DataIndex) × (remove_sub_vault_order_ref vault 50 3 ≡ ok (v', o))
    × IsCounted v'
remove_sub_vault_order_ref-IsCounted_example =
    remove_sub_vault_order_ref-IsCounted vault 50 3 vault-IsCounted
