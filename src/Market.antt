-- ===== src/Market.antt =====
-- A market, as far as matching reads and changes it: programs/ydelta/src/state/market.rs. The trees
-- of a market's dynamic region belong to the library hypertree. Its seats are here a map from blocks
-- to seats, its matched loans the list of those inserted, newest first, its free list the list of free
-- blocks, and its asks the interface `Asks`.
pub mod Engine
pub mod Taken
pub mod Scan
pub mod Loop
pub mod Collateral
pub mod Terms
pub mod Promised
pub mod Capacity
pub mod Book
pub mod Bids
pub mod Place
pub mod Refinance
pub mod Crossed
pub mod Refinanced
pub mod Backing
pub mod Locks
pub mod BidsBacked
pub mod BidsSettled
pub mod BidsAccounted
pub mod BidsWalk
pub mod PlaceBacked
pub mod Residual
pub mod Settled
pub mod Placing
pub mod Covering
pub mod Cancel
pub mod Change
mod Tests
mod BookTests
mod RefinanceTests
use y_delta.Prelude.{ℕ, ◌<◌, ◌≡◌, Option, none, some, List}
use y_delta.Prelude.Int.{ℤ}
use y_delta.Math.Fp48.{Fp48}
use y_delta.Order.{DataIndex, RestingOrder}
use y_delta.Seat.{ClaimedSeat}

-- `MATCHED_LOAN_FLAG_VAULT_LENDER`
abbrev pub matched_loan_flag_vault_lender : ℕ
matched_loan_flag_vault_lender = 1

pub record FeeConfig : Type 0 where
  pub protocol_fee_bps_floor : ℕ
  pub origination_bps : ℕ
  pub curator_split_bps : ℕ
  pub liquidation_keeper_bps : ℕ
  pub liquidation_protocol_bps : ℕ
  pub grace_period_seconds : ℕ

pub record MatchedLoan : Type 0 where
  pub sequence : ℕ
  pub borrower_marginfi_borrow_shares : ℕ
  pub principal_atoms : ℕ
  pub origination_atoms : ℕ
  pub collateral_atoms : ℕ
  pub matched_at_unix : ℤ
  pub lender_seat_index : DataIndex
  pub borrower_seat_index : DataIndex
  pub term_seconds : ℕ
  pub borrower_rate_bps : ℕ
  pub lender_rate_bps : ℕ
  pub loan_type : ℕ
  pub flags : ℕ
  pub curator_fee_bps_snapshot : ℕ
  pub origination_ltv_bps : ℕ
  pub liquidation_ltv_bps : ℕ
  pub lender_debt_share_price_snapshot_fp48 : Fp48
  pub borrower_collateral_share_price_snapshot_fp48 : Fp48

-- The fields of `MarketFixed` that matching uses, with what its trees and its free list hold.
pub record Market : Type 0 where
  pub debt_mint_decimals : ℕ
  pub collateral_mint_decimals : ℕ
  pub matched_loan_sequence : ℕ
  pub fee_config : FeeConfig
  pub free_list : List DataIndex
  pub seats : DataIndex → ClaimedSeat
  pub matched_loans : List MatchedLoan

-- The tree of asks, which matching only reads: the best index, the order in a block and the next
-- lower index, where `NIL` is `none`. A walk by `get_next_lower_index` goes down the tree's order, so
-- that it ends: the rank counts the orders below.
pub record Asks : Type 0 where
  pub best_index : Option DataIndex
  pub order_at : DataIndex → RestingOrder
  pub next_lower_index : DataIndex → Option DataIndex
  pub rank : DataIndex → ℕ
  pub next_lower_lem : (i j : DataIndex) → next_lower_index i ≡ some j → rank j < rank i
