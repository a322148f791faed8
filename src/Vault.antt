-- ===== src/Vault.antt =====
-- The account of a vault: the order references of its sub-vaults and their counters in
-- programs/ydelta/src/state/vault.rs. The tree of sub-vaults is a map by id, the tree of references a
-- list of blocks with what they hold, and a free list the list of free blocks.
pub mod Counts
pub mod Agreement
pub mod Lifecycle
pub mod Created
pub mod Moves
pub mod Admin
pub mod Life
mod Tests
mod LifeTests
use y_delta.Prelude.{
  ℕ, suc, ◌%◌, Bool, true, false, ◌&&◌, Option, none, some, List, [], ◌∷◌, Result, ok, err, custom,
  arithmetic_overflow, account_data_too_small, sub_vault_not_found, sub_vault_order_exists, require,
  ok_or, ◌>>=◌, ◌>>◌, ◌==◌, if◌then◌else◌, u16_mod, u32_mod,
}
use y_delta.Prelude.Words
use y_delta.Prelude.Int.{ℤ, pos, negsuc}
use y_delta.Loan.{Pubkey}
use y_delta.Order.{DataIndex}
use y_delta.Nodes.{Nodes}
use y_delta.SubVault.{SubVault}
use y_delta.Market.Engine.{SubVaults, set_at}

pub record SubVaultOrderRef : Type 0 where
  pub market : Pubkey
  pub sub_vault_id : ℕ
  pub side : ℕ
  pub rate_bps : ℕ
  pub term_seconds : ℕ
  pub order_sequence_in_market : ℕ
  pub placed_at_unix : ℤ

pub record SubVaultDepositorSeat : Type 0 where
  pub owner : Pubkey
  pub sub_vault_id : ℕ
  pub shares : ℕ
  pub snapshot_supply_yield_index_scaled : ℕ
  pub snapshot_delta_yield_index_scaled : ℕ
  pub last_updated_unix : ℤ

abbrev pub OrderRefs : Type 0
OrderRefs = List (DataIndex × SubVaultOrderRef)

-- The header `GlobalVaultFixed`, with what its trees and its two free lists hold in place of the
-- indices where they start. `sub_vault_blocks` has the block of each sub-vault.
pub record Vault : Type 0 where
  pub discriminator : ℕ
  pub mint : Pubkey
  pub global_vault_admin : Pubkey
  pub integration_pool : Pubkey
  pub integration_account : Pubkey
  pub global_vault_signer : Pubkey
  pub lending_pool : Pubkey
  pub sub_vaults : SubVaults
  pub claimed_seats : Nodes SubVaultDepositorSeat
  pub market_orders : OrderRefs
  pub sub_vault_blocks : ℕ → DataIndex
  pub free_sub_vault_blocks : List DataIndex
  pub free_nodes : List DataIndex
  pub num_bytes_allocated : ℕ
  pub sub_vault_count : ℕ
  pub global_vault_signer_bump : ℕ
  pub version : ℕ
  pub claimed_seat_count : ℕ
  pub open_order_count : ℕ
  pub pending_global_vault_admin : Pubkey
  pub is_paused : ℕ
  pub next_sub_vault_id : ℕ

-- `impl PartialEq for SubVaultOrderRef`, against a probe.
abbrev pub has_key : SubVaultOrderRef → Pubkey → ℕ → Bool
has_key r market id = r.market == market && r.sub_vault_id == id

-- `lookup_index`
unfoldable pub lookup_order : OrderRefs → Pubkey → ℕ → Option DataIndex
lookup_order [] market id = none
lookup_order ((i, r) ∷ rs) market id =
    if has_key r market id then some i else lookup_order rs market id

-- `remove_by_index` at the index that the lookup found.
unfoldable pub remove_order : OrderRefs → Pubkey → ℕ → OrderRefs
remove_order [] market id = []
remove_order ((i, r) ∷ rs) market id =
    if has_key r market id then rs else (i, r) ∷ remove_order rs market id

-- `if delta >= 0`, where `as u16` keeps the low 16 bits.
unfoldable pub bump : SubVault → ℤ → Result SubVault
bump s (pos d) = do
  count ← ok_or (Words.checked_add u16_mod s.open_orders_count (d % u16_mod)) arithmetic_overflow
  ok (record s { open_orders_count = count })
bump s (negsuc n) = do
  count ← ok_or (Words.checked_sub s.open_orders_count (suc n % u16_mod)) arithmetic_overflow
  ok (record s { open_orders_count = count })

unfoldable pub bump_sub_vault_order_count : Vault → ℕ → ℤ → Result Vault
bump_sub_vault_order_count v id delta = elim (v.sub_vaults id) [
  | none ↦ err (custom sub_vault_not_found)
  | some s ↦ bump s delta >>= λ s'. ok (record v { sub_vaults = set_at v.sub_vaults id (some s') })
]

abbrev pub is_nil : Option DataIndex → Bool
is_nil none = true
is_nil (some i) = false

-- `get_free_node_address_on_vault_fixed` and what follows it.
abbrev pub place : Vault → SubVaultOrderRef → List DataIndex → Result (Vault × DataIndex)
place v r [] = err account_data_too_small
place v r (i ∷ rest) = do
  count ← ok_or (Words.checked_add u32_mod v.open_order_count 1) arithmetic_overflow
  v' ←
      bump_sub_vault_order_count
        (record v {
          market_orders = (i, r) ∷ v.market_orders;
          open_order_count = count;
          free_nodes = rest;
        })
        r.sub_vault_id (pos 1)
  ok (v', i)

-- The reference is given whole; the source builds it from the arguments.
unfoldable pub insert_sub_vault_order_ref : Vault → SubVaultOrderRef → Result (Vault × DataIndex)
insert_sub_vault_order_ref v r = do
  require (is_nil (lookup_order v.market_orders r.market r.sub_vault_id))
      (custom sub_vault_order_exists)
  place v r v.free_nodes

-- The vault, and the freed block if there was a reference.
unfoldable pub remove_sub_vault_order_ref : Vault → Pubkey → ℕ → Result (Vault × Option DataIndex)
remove_sub_vault_order_ref v market id = elim (lookup_order v.market_orders market id) [
  | none ↦ ok (v, none)
  | some i ↦ do
    count ← ok_or (Words.checked_sub v.open_order_count 1) arithmetic_overflow
    v' ←
        bump_sub_vault_order_count
          (record v {
            market_orders = remove_order v.market_orders market id;
            open_order_count = count;
            free_nodes = i ∷ v.free_nodes;
          })
          id (negsuc 0)
    ok (v', some i)
]
