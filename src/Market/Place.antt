-- ===== src/Market/Place.antt =====
-- Placing a borrower's bid: `match_borrower_bid` in programs/ydelta/src/state/market_helpers.rs, which
-- locks the bid's collateral, matches it and disposes of the rest. Logs are left out.
use y_delta.Prelude.{
  ℕ, ◌-◌, Bool, true, false, List, [], ◌∷◌, Option, none, some, Result, ok, custom,
  arithmetic_overflow, collateral_insufficient, term_not_compatible, fallback_ltv_insufficient,
  require, ok_or, ◌>>=◌, ◌>>◌, ◌==◌, ltb, leb, if◌then◌else◌, u32_mod,
}
use y_delta.Prelude.Words
use y_delta.Prelude.Int.{ℤ}
use y_delta.Math.Uint256.{Uint256}
use y_delta.Math.Scale.{mul_div_u64}
use y_delta.Math.Fp48
use y_delta.Math.Fp48.{Fp48}
use y_delta.Loan.{Pubkey, bps_per_unit}
use y_delta.Order.{DataIndex, Side, OrderType, bid, limit, immediate_or_cancel, new_primary}
use y_delta.Seat.Balance.{encumber_for_order, unencumber_for_order, atoms_to_shares_at_snapshot}
use y_delta.Ltv.{get_required_quote_collateral_to_back_debt}
use y_delta.Market.{Market, MatchedLoan, Asks}
use y_delta.Market.Engine.{MatchArgs, MatchState, SubVaults, insert_loan}
use y_delta.Market.Loop.{
  ResidualAction, drop, p2pool_borrow, rest, MatchResult, result_of, match_order,
}
use y_delta.Market.Book.{Book, with_seat, next_sequence, rest_in_free_block}

-- `MIN_PRINCIPAL_ATOMS`
abbrev pub min_principal_atoms : ℕ
min_principal_atoms = 1

abbrev pub residual_mode_rest : ℕ
residual_mode_rest = 1

abbrev pub residual_mode_drop : ℕ
residual_mode_drop = 2

pub record PlaceOrderArgs : Type 0 where
  pub market_pubkey : Pubkey
  pub taker_seat_index : DataIndex
  pub side : Side
  pub order_type : OrderType
  pub rate_bps : ℕ
  pub term_seconds : ℕ
  pub principal_atoms : ℕ
  pub collateral_atoms : ℕ
  pub residual_mode : ℕ
  pub last_valid_unix_ts : ℤ
  pub now_unix_ts : ℤ
  pub share_price_snapshot_fp48 : Fp48
  pub debt_oracle_price_fp48 : Fp48
  pub collateral_oracle_price_fp48 : Fp48
  pub debt_liability_weight_init_fp48 : Fp48
  pub collateral_asset_weight_init_fp48 : Fp48
  pub ask_floor_rate_bps : ℕ
  pub ltv_buffer_bps : ℕ

pub record PlaceOrderResult : Type 0 where
  pub sequence : ℕ
  pub match_result : MatchResult
  pub p2pool_loan_index : Option DataIndex
  pub p2pool_loan_sequence : ℕ
  pub rested : Bool

-- The block that the next allocation takes.
abbrev pub first_block : List DataIndex → Option DataIndex
first_block [] = none
first_block (i ∷ is) = some i

-- The book, the vault and the result.
abbrev pub Placed : Type 0
Placed = Book × Option SubVaults × PlaceOrderResult

abbrev pub match_args_of : PlaceOrderArgs → Market → MatchArgs
match_args_of args m = record {
  market_pubkey = args.market_pubkey;
  taker_seat_index = args.taker_seat_index;
  side = bid;
  rate_bps = args.rate_bps;
  term_seconds = args.term_seconds;
  principal_atoms = args.principal_atoms;
  collateral_atoms = args.collateral_atoms;
  order_type = immediate_or_cancel;
  now_unix_ts = args.now_unix_ts;
  fee_floor_bps = m.fee_config.protocol_fee_bps_floor;
  taker_share_price_snapshot_fp48 = args.share_price_snapshot_fp48;
  debt_oracle_price_fp48 = args.debt_oracle_price_fp48;
  collateral_oracle_price_fp48 = args.collateral_oracle_price_fp48;
  ask_floor_rate_bps = args.ask_floor_rate_bps;
  ltv_buffer_bps = args.ltv_buffer_bps;
}

-- `match_result.residual_action`
unfoldable pub residual_action_of : (remaining_principal residual_mode : ℕ) → ResidualAction
residual_action_of remaining mode =
    if remaining == 0
    then drop
    else if mode == residual_mode_rest
    then rest
    else if mode == residual_mode_drop
    then drop
    else p2pool_borrow

-- `let mut node` of the fallback loan. `NIL` is the largest `u32`.
abbrev pub nil : DataIndex
nil = u32_mod - 1

abbrev pub p2pool_node : PlaceOrderArgs → Market → (principal coll origination : ℕ) → MatchedLoan
p2pool_node args m principal coll origination = record {
  sequence = m.matched_loan_sequence;
  borrower_marginfi_borrow_shares = 0;
  principal_atoms = principal;
  origination_atoms = origination;
  collateral_atoms = coll;
  matched_at_unix = args.now_unix_ts;
  lender_seat_index = nil;
  borrower_seat_index = args.taker_seat_index;
  term_seconds = args.term_seconds;
  borrower_rate_bps = args.rate_bps;
  lender_rate_bps = args.rate_bps;
  loan_type = 1;
  flags = 0;
  curator_fee_bps_snapshot = 0;
  origination_ltv_bps = 0;
  liquidation_ltv_bps = 0;
  lender_debt_share_price_snapshot_fp48 = Fp48.zero;
  borrower_collateral_share_price_snapshot_fp48 = args.share_price_snapshot_fp48;
}

abbrev placed : ℕ → MatchResult → Option DataIndex → ℕ → Bool → PlaceOrderResult
placed sequence r index loan rested = record {
  sequence = sequence;
  match_result = r;
  p2pool_loan_index = index;
  p2pool_loan_sequence = loan;
  rested = rested;
}

module _ ⦃w : Uint256⦄ where
  -- The collateral of the bid goes from the free to the locked bucket of its seat.
  unfoldable pub lock_collateral : PlaceOrderArgs → Market → Result Market
  lock_collateral args m = do
    principal ← atoms_to_shares_at_snapshot args.principal_atoms args.share_price_snapshot_fp48
    coll ← atoms_to_shares_at_snapshot args.collateral_atoms args.share_price_snapshot_fp48
    seat ← encumber_for_order (m.seats args.taker_seat_index) bid principal coll
    ok (with_seat m args.taker_seat_index seat)

  -- `(ResidualAction::P2PoolBorrow, true)`
  unfoldable pub borrow_residual : PlaceOrderArgs → Market → (principal coll : ℕ) → Result Market
  borrow_residual args m principal coll = do
    required ←
        get_required_quote_collateral_to_back_debt principal args.debt_oracle_price_fp48
          args.collateral_oracle_price_fp48 args.debt_liability_weight_init_fp48
          args.collateral_asset_weight_init_fp48 m.debt_mint_decimals m.collateral_mint_decimals
    require (leb required coll) (custom fallback_ltv_insufficient)
    let seat = m.seats args.taker_seat_index
    count ← ok_or (Words.checked_add u32_mod seat.open_borrow_count 1) arithmetic_overflow
    origination ← mul_div_u64 principal m.fee_config.origination_bps bps_per_unit false
    insert_loan (with_seat m args.taker_seat_index (record seat { open_borrow_count = count }))
        (p2pool_node args m principal coll origination)

  -- `(ResidualAction::Drop, true)`
  unfoldable pub unlock_residual : PlaceOrderArgs → Market → (principal coll : ℕ) → Result Market
  unlock_residual args m principal coll = do
    principal_shares ← atoms_to_shares_at_snapshot principal args.share_price_snapshot_fp48
    coll_shares ← atoms_to_shares_at_snapshot coll args.share_price_snapshot_fp48
    seat ← unencumber_for_order (m.seats args.taker_seat_index) bid principal_shares coll_shares
    ok (with_seat m args.taker_seat_index seat)

  -- `(ResidualAction::Rest, true)`: the bid rests under the sequence number of this placement.
  abbrev pub rest_residual :
      PlaceOrderArgs → Book → ℕ → (principal coll : ℕ) → Result (Book × DataIndex)
  rest_residual args b sequence principal coll = rest_in_free_block b (
      new_primary args.taker_seat_index sequence bid limit args.rate_bps args.term_seconds principal
        coll args.last_valid_unix_ts 0 args.ltv_buffer_bps args.share_price_snapshot_fp48)

  -- `match (match_result.residual_action, match_result.remaining_principal > 0)`, with the first
  -- block of the free list as the index of the loan.
  unfoldable pub dispose :
      PlaceOrderArgs → Book → Option SubVaults → (sequence : ℕ) → MatchResult → Result Placed
  dispose args b vault sequence r =
      if r.remaining_principal == 0
      then ok (b, vault, placed sequence r none 0 false)
      else elim r.residual_action [
        | p2pool_borrow ↦ do
          market ← borrow_residual args b.market r.remaining_principal r.remaining_collateral
          ok (
            record b { market = market },
            vault,
            placed sequence r (first_block b.market.free_list) b.market.matched_loan_sequence false,
          )
        | rest ↦ do
          resting ← rest_residual args b sequence r.remaining_principal r.remaining_collateral
          ok (resting.0, vault, placed sequence r none 0 true)
        | drop ↦ do
          market ← unlock_residual args b.market r.remaining_principal r.remaining_collateral
          ok (record b { market = market }, vault, placed sequence r none 0 false)
      ]

  abbrev pub with_action : PlaceOrderArgs → MatchState → MatchResult
  with_action args s = record (result_of s) {
    residual_action = residual_action_of s.remaining_principal args.residual_mode;
  }

  -- What follows the match.
  unfoldable pub finish :
      PlaceOrderArgs → Book → (sequence : ℕ) → Option MatchState → Result (Option Placed)
  finish args b sequence none = ok none
  finish args b sequence (some s) = do
    disposed ← dispose args (record b { market = s.market }) s.vault sequence (with_action args s)
    ok (some disposed)

  -- No result stands for a scan of the asks that ran out of fuel, which `match_order-ends` rules out.
  unfoldable pub match_borrower_bid :
      Asks → PlaceOrderArgs → Book → Option SubVaults → Result (Option Placed)
  match_borrower_bid asks args b vault = do
    require (leb min_principal_atoms args.principal_atoms) (custom collateral_insufficient)
    require (ltb 0 args.term_seconds) (custom term_not_compatible)
    require (ltb 0 args.collateral_atoms) (custom collateral_insufficient)
    locked ← lock_collateral args b.market
    b₁ ← next_sequence (record b { market = locked })
    matched ← match_order asks (match_args_of args b.market) locked vault
    finish args b₁ b.order_sequence_number matched
