-- ===== src/Lib.antt =====
-- A model of the on-chain program of yDelta, a fixed-rate lending market over marginfi, and what
-- makes it correct. The program is the Rust crate programs/ydelta.
--
-- How the parts interact. A borrower's bid crosses the resting asks of sub-vaults and becomes loans
-- (Order, Ltv, Market). The loan accrues simple interest and is repaid, which splits the payment
-- between lender, protocol and curator (Loan). The lender is a sub-vault: depositors hold shares of
-- it, its idle atoms earn the pool's rate at marginfi, its deployed atoms earn the loans' rates,
-- and a loan's close settles the estimate (SubVault). Collateral and market balances are kept on
-- seats (Seat); a bid that rests keeps its collateral locked until it is filled, cancelled or expires.
-- The floor under every ask and the share values at a repayment come from the interest curves of
-- the marginfi bank (Rates). A wallet's account refers to its bids, loans and positions (User). All
-- amounts go through one fixed-point library (Math).
--
-- Which file models which part:
--   Prelude     numbers below a power of two for unsigned words, with Rust's checked and saturating
--               operations (Words); signed timestamps (Int); Result, require! and the ? operator
--               over all of programs/ydelta/src/program/error.rs (Errors).
--   Math        programs/ydelta/src/math.rs. Uint256 is the interface of the crate ruint, a
--               parameter with the laws its documentation states; nat_uint256 shows they can hold.
--               Scale has mul_scale, div_scale, mul_div and their kin, Fp48 the type of that name.
--   Loan        programs/ydelta/src/state/loan.rs: Accrue has accrue_loan cut into the stages of its
--               body, Resolution has apply_partial_resolution and principal_portion_of_settlement.
--   SubVault    programs/ydelta/src/state/vault.rs: the struct and accrue_sub_vault (Accrue). Shares
--               has the sub-vault's part of the processors global_vault_deposit.rs and
--               global_vault_withdraw.rs, CloseOut that of repay.rs and
--               claim_repayment_for_sub_vault.rs, in programs/ydelta/src/program/processor.
--   Vault       the account of a vault in programs/ydelta/src/state/vault.rs: the order references of
--               its sub-vaults and their counters. Lifecycle has the depositor seats, the creation of
--               sub-vaults (create_sub_vault.rs in programs/ydelta/src/program/processor) and their
--               removal, Admin the processors update_sub_vault.rs, sunset_sub_vault.rs,
--               resume_sub_vault.rs and remove_sub_vault.rs there. Moves has the
--               operations on the funds of one sub-vault, Life the steps that a vault account takes.
--   Fees        fee_config_helpers.rs and set_fee_config.rs in programs/ydelta/src/program/processor.
--   Seat        programs/ydelta/src/state/claimed_seat.rs, and the balance primitives of
--               programs/ydelta/src/state/market_helpers.rs.
--   Order       programs/ydelta/src/state/resting_order.rs and the order gates of utils.rs there.
--   Ltv         programs/ydelta/src/state/ltv.rs.
--   Rates       programs/ydelta/src/protocol/marginfi_rate_calc.rs: the reads of an account's bytes,
--               the curves (Curve) and the projected share values and lending rate (Project).
--   Nodes       what the functions of user_account.rs and vault.rs in programs/ydelta/src/state do
--               with a tree that shares a free list with others.
--   User        programs/ydelta/src/state/user_account.rs: Spec has the four maps that an account
--               stands for, WellFormed when it is in order.
--   Market      programs/ydelta/src/state/market.rs and the entry points of market_helpers.rs there.
--               match_order: Engine has the body of its loop, Scan the loop, Taken what a fill has
--               passed and written. Refinance has match_p2pool_residual_against_asks, Book the resting
--               orders and the claims of seats, Bids match_resting_bids, Place match_borrower_bid;
--               Backing has the shares that resting bids and queued loans claim on a seat, Locks those
--               that a seat has locked, Promised what sub-vaults have promised. Settled and Placing
--               follow the rest of a placed bid, BidsSettled and BidsAccounted the bids of a walk.
--
-- How code becomes definitions. A struct is a record, with its padding left out; a function that
-- changes its argument in place returns the changed one. A failing call aborts the transaction and
-- the runtime drops its writes, so a failure carries the error alone. A long body is cut into one
-- definition for each stage, in the source's order, so that the first error of two is the source's.
-- Values that the source reads from other accounts (the clock, share values, oracle prices, bank
-- weights, credited atoms) are arguments. The tree of asks is an interface (Asks) with what its
-- walk relies on; the other trees are maps and lists, and an index comes with the order that its
-- block holds. The free lists are lists of blocks, and a hint of NIL is no hint. The
-- loop over the asks runs on fuel, one unit for each ask at or below the best one, and the fuel is
-- shown to be enough; the loop of pow10_u128 is recursion on its argument.
--
-- Not modelled: the red-black trees and free lists of lib, a copy of another project's library; the
-- adapter to marginfi and the oracle readers, which call and read external programs; account
-- loading and checks; logs and instruction encodings; the global configuration; and the other
-- processors, so that a vault account's steps leave out the claims of curators' fees, the transfers of
-- admins and curators, and what becomes of a loan other than its full repayment.
pub mod Prelude
pub mod Math
pub mod Fees
pub mod Loan
pub mod Ltv
pub mod Market
pub mod Nodes
pub mod Order
pub mod Rates
pub mod Seat
pub mod SubVault
pub mod User
pub mod Vault
