-- ===== src/Vault/Lifecycle.antt =====
-- The sub-vaults and the depositor seats of a vault account: the creation of a sub-vault in
-- programs/ydelta/src/program/processor/create_sub_vault.rs, its removal, the seats and the growth of
-- the account in programs/ydelta/src/state/vault.rs.
use y_delta.Prelude.{
  ℕ, ◌&&◌, not, Option, none, some, List, [], ◌∷◌, Result, ok, err, custom, arithmetic_overflow,
  account_data_too_small, invalid_argument, sub_vault_id_exists, sub_vault_ltv_out_of_range,
  sub_vault_term_invalid, require, ok_or, ◌>>=◌, ◌>>◌, ◌==◌, ltb, leb, u16_mod, u32_mod,
}
use y_delta.Prelude.Words
use y_delta.Prelude.Int.{pos}
use y_delta.Loan.{Pubkey, account_layout_version}
use y_delta.Order.{DataIndex}
use y_delta.SubVault.{SubVault, new_empty, is_empty, sub_vault_kind_pool, sub_vault_kind_private}
use y_delta.Market.Engine.{set_at}
use y_delta.Nodes.{
  Keys, Slot, same_pair, same_pair-eq, same_pair_self, insert_absent, remove_present,
}
use y_delta.Vault.{SubVaultDepositorSeat, Vault}

abbrev pub sub_vault_block_size : ℕ
sub_vault_block_size = 512

abbrev pub vault_node_block_size : ℕ
vault_node_block_size = 160

abbrev pub min_liq_gap_bps : ℕ
min_liq_gap_bps = 200

abbrev pub max_curator_fee_bps : ℕ
max_curator_fee_bps = 2_000

abbrev pub global_vault_fixed_discriminant : ℕ
global_vault_fixed_discriminant = 0x79_64_65_6C_74_61_56_61

-- A new account has no sub-vaults; ids start at 1.
unfoldable pub new_vault :
    (mint admin integration_pool integration_account signer : Pubkey)
    → (signer_bump : ℕ) → (lending_pool : Pubkey) → Vault
new_vault mint admin pool integration_account signer signer_bump lending_pool = record {
  discriminator = global_vault_fixed_discriminant;
  mint = mint;
  global_vault_admin = admin;
  integration_pool = pool;
  integration_account = integration_account;
  global_vault_signer = signer;
  lending_pool = lending_pool;
  sub_vaults = λ _. none;
  claimed_seats = [];
  market_orders = [];
  sub_vault_blocks = λ _. 0;
  free_sub_vault_blocks = [];
  free_nodes = [];
  num_bytes_allocated = 0;
  sub_vault_count = 0;
  global_vault_signer_bump = signer_bump;
  version = account_layout_version;
  claimed_seat_count = 0;
  open_order_count = 0;
  pending_global_vault_admin = 0;
  is_paused = 0;
  next_sub_vault_id = 1;
}

-- `SubVaultDepositorSeat::probe`
abbrev pub probe : Pubkey → ℕ → SubVaultDepositorSeat
probe owner sub_vault_id = record {
  owner = owner;
  sub_vault_id = sub_vault_id;
  shares = 0;
  snapshot_supply_yield_index_scaled = 0;
  snapshot_delta_yield_index_scaled = 0;
  last_updated_unix = pos 0;
}

abbrev pub depositor_seat_keys : Keys (ℕ × ℕ) SubVaultDepositorSeat
depositor_seat_keys = record {
  key = λ s. (s.owner, s.sub_vault_id);
  same = same_pair;
  same-eq = same_pair-eq;
  same_self = same_pair_self;
}

-- The seats of depositors, with the blocks that they share with the order references.
abbrev pub seats_of : Vault → Slot SubVaultDepositorSeat
seats_of v = record {
  tree = v.claimed_seats;
  free_list = v.free_nodes;
  count = v.claimed_seat_count;
}

abbrev pub with_seats : Vault → Slot SubVaultDepositorSeat → Vault
with_seats v s = record v {
  claimed_seats = s.tree;
  free_nodes = s.free_list;
  claimed_seat_count = s.count;
}

unfoldable pub upsert_sub_vault_depositor_seat : Vault → Pubkey → ℕ → Result (Vault × DataIndex)
upsert_sub_vault_depositor_seat v owner sub_vault_id = do
  placed ← insert_absent depositor_seat_keys u32_mod (probe owner sub_vault_id) (seats_of v)
  ok (with_seats v placed.0, placed.1)

unfoldable pub remove_sub_vault_depositor_seat :
    Vault → Pubkey → ℕ → Result (Vault × Option DataIndex)
remove_sub_vault_depositor_seat v owner sub_vault_id = do
  removed ← remove_present depositor_seat_keys (owner, sub_vault_id) (seats_of v)
  ok (with_seats v removed.0, removed.1)

-- A block more at the end of the account, for a sub-vault and for a node.
unfoldable pub vault_expand_sub_vault_block : Vault → Result Vault
vault_expand_sub_vault_block v = do
  allocated ←
      ok_or (Words.checked_add u32_mod v.num_bytes_allocated sub_vault_block_size)
        arithmetic_overflow
  ok (record v {
    free_sub_vault_blocks = v.num_bytes_allocated ∷ v.free_sub_vault_blocks;
    num_bytes_allocated = allocated;
  })

unfoldable pub vault_expand_node_block : Vault → Result Vault
vault_expand_node_block v = do
  allocated ←
      ok_or (Words.checked_add u32_mod v.num_bytes_allocated vault_node_block_size)
        arithmetic_overflow
  ok (record v {
    free_nodes = v.num_bytes_allocated ∷ v.free_nodes;
    num_bytes_allocated = allocated;
  })

-- What the curator or the admin chooses.
pub record SubVaultParams : Type 0 where
  pub curator : Pubkey
  pub spread_bps : ℕ
  pub max_ltv_bps : ℕ
  pub liquidation_ltv_bps : ℕ
  pub max_term_seconds : ℕ
  pub curator_fee_bps : ℕ

unfoldable pub validate_sub_vault_risk_params :
    (max_ltv_bps liquidation_ltv_bps max_term_seconds : ℕ) → Result (Unit {0})
validate_sub_vault_risk_params max_ltv liquidation_ltv max_term = do
  require (ltb 0 max_ltv && ltb max_ltv 10_000) (custom sub_vault_ltv_out_of_range)
  require (leb liquidation_ltv 10_000) (custom sub_vault_ltv_out_of_range)
  require (leb (Words.saturating_add u16_mod max_ltv min_liq_gap_bps) liquidation_ltv)
      (custom sub_vault_ltv_out_of_range)
  require (ltb 0 max_term) (custom sub_vault_term_invalid)

-- `let mut sub_vault`
abbrev pub sub_vault_of : ℕ → ℕ → SubVaultParams → SubVault
sub_vault_of id kind p = record (new_empty id p.curator p.max_ltv_bps p.max_term_seconds) {
  kind = kind;
  spread_bps = p.spread_bps;
  liquidation_ltv_bps = p.liquidation_ltv_bps;
  curator_fee_bps = p.curator_fee_bps;
}

-- The sub-vault takes the first free block.
abbrev pub append_in : Vault → SubVault → ℕ → List DataIndex → Result Vault
append_in v s next [] = err account_data_too_small
append_in v s next (i ∷ rest) = do
  count ← ok_or (Words.checked_add u16_mod v.sub_vault_count 1) arithmetic_overflow
  ok (record v {
    sub_vaults = set_at v.sub_vaults s.sub_vault_id (some s);
    sub_vault_blocks = set_at v.sub_vault_blocks s.sub_vault_id i;
    free_sub_vault_blocks = rest;
    sub_vault_count = count;
    next_sub_vault_id = next;
  })

-- `if needs_grow`
abbrev pub with_block : Vault → List DataIndex → Result Vault
with_block v [] = vault_expand_sub_vault_block v
with_block v (i ∷ rest) = ok v

-- `append_sub_vault`, with the expansion when there is no free block.
unfoldable pub append_sub_vault : Vault → (kind : ℕ) → SubVaultParams → Result Vault
append_sub_vault v kind p = do
  grown ← with_block v v.free_sub_vault_blocks
  next ← ok_or (Words.checked_add u16_mod grown.next_sub_vault_id 1) (custom sub_vault_id_exists)
  append_in grown (sub_vault_of grown.next_sub_vault_id kind p) next grown.free_sub_vault_blocks

-- `Pubkey::default()` is the key 0.
unfoldable pub create_pool_sub_vault : Vault → SubVaultParams → Result Vault
create_pool_sub_vault v p = do
  validate_sub_vault_risk_params p.max_ltv_bps p.liquidation_ltv_bps p.max_term_seconds
  require (leb p.curator_fee_bps max_curator_fee_bps) (custom invalid_argument)
  require (not (p.curator == 0)) (custom invalid_argument)
  append_sub_vault v sub_vault_kind_pool p

-- The signer is the curator, and the fee is 0.
unfoldable pub create_private_sub_vault : Vault → Pubkey → SubVaultParams → Result Vault
create_private_sub_vault v payer p = do
  validate_sub_vault_risk_params p.max_ltv_bps p.liquidation_ltv_bps p.max_term_seconds
  append_sub_vault v sub_vault_kind_private (record p { curator = payer; curator_fee_bps = 0 })

unfoldable pub remove_sub_vault : Vault → ℕ → Result (Vault × Option DataIndex)
remove_sub_vault v id = elim (v.sub_vaults id) [
  | none ↦ ok (v, none)
  | some s ↦ do
    require (is_empty s) (custom invalid_argument)
    count ← ok_or (Words.checked_sub v.sub_vault_count 1) arithmetic_overflow
    let i = v.sub_vault_blocks id
    ok (
      record v {
        sub_vaults = set_at v.sub_vaults id none;
        sub_vault_count = count;
        free_sub_vault_blocks = i ∷ v.free_sub_vault_blocks;
      },
      some i,
    )
]
