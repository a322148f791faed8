-- ===== src/User/WellFormed.antt =====
-- When an account of programs/ydelta/src/state/user_account.rs is in order: its counters and keys, and
-- its blocks.
use y_delta.Prelude.{ℕ, ◌+◌, ◌%◌, ◌≡◌, Bool, ◌&&◌, ◌==◌, ltb}
use y_delta.Order.{DataIndex}
use y_delta.Nodes.Registry.{one_if, blocks, free_blocks}
use y_delta.Nodes.Slots.{IsKept}
use y_delta.User.{
  UserAccount, user_account_block_size, vault_position_keys, market_position_keys, open_loan_keys,
  user_order_keys,
}

-- How often a block is in use or free.
abbrev pub in_account : UserAccount → DataIndex → ℕ
in_account acc i =
    blocks acc.vault_positions i
    + blocks acc.market_positions i
    + blocks acc.open_loans i
    + blocks acc.open_orders i
    + free_blocks acc.free_list i

-- The blocks that lie in the account's dynamic region.
abbrev pub allocated : ℕ → DataIndex → Bool
allocated bytes i = ltb i bytes && i % user_account_block_size == 0

pub record IsWellFormed (acc : UserAccount) : Type 0 where
  pub vaults : IsKept vault_position_keys acc.vault_positions acc.vault_position_count
  pub markets : IsKept market_position_keys acc.market_positions acc.market_position_count
  pub loans : IsKept open_loan_keys acc.open_loans acc.open_loan_count
  pub orders : IsKept user_order_keys acc.open_orders acc.user_order_count
  pub aligned : acc.num_bytes_allocated % user_account_block_size ≡ 0
  pub tight : (i : DataIndex) → in_account acc i ≡ one_if (allocated acc.num_bytes_allocated i)
