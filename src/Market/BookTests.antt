-- ===== src/Market/BookTests.antt =====
-- A bid that is placed, filled in part and cancelled, and the theorems there:
-- programs/ydelta/src/state/market_helpers.rs.
use y_delta.Prelude.{
  ℕ, ◌+◌, ◌*◌, ◌≡◌, refl, ok, err, custom, wrong_index_hint_params, none, some, [], ◌∷◌, arith,
  already_claimed_seat, true,
}
use y_delta.Prelude.Int.{pos}
use y_delta.Math.Uint256.{nat_uint256}
use y_delta.Math.Scale.{scale, div_scale, u256_to_u128}
use y_delta.Math.Fp48
use y_delta.Order.{DataIndex, RestingOrder, bid, limit, new_primary, is_expired, assert_can_take}
use y_delta.Seat.{ClaimedSeat, new_empty, eq}
use y_delta.Seat.Balance.{
  update_balance, encumber_for_order, unencumber_for_order, atoms_to_shares_at_snapshot,
}
use y_delta.Market.{MatchedLoan}
use y_delta.Market.Engine.{screen, check_lender, set_at}
use y_delta.Market.Scan.{scan_asks}
use y_delta.Market.Loop.{match_order, rest}
use y_delta.Market.Book.{
  Book, insert_order, remove_order, rest_order, find_order, lookup_order_by_seq, next_sequence,
  rest_in_free_block, release_order, cancel_order_by_index, update_user_bid, lookup_seat,
  claim_seat_with_sub_vault,
}
use y_delta.Market.Bids.{MatchRestingBidsArgs, Walk, prune, visit, walk_bids, match_resting_bids}
use y_delta.Market.Place.{
  PlaceOrderArgs, Placed, residual_mode_rest, residual_action_of, lock_collateral, dispose, finish,
  match_borrower_bid,
}
use y_delta.Market.Backing.{Covered, AllFit, shares, bid_claims, loan_claims}
use y_delta.Market.Covering.{match_borrower_bid-Covered}
use y_delta.Market.Placing.{Settled}
use y_delta.Market.Cancel.{
  block_at, Sound, cancel_order_by_index-Covered, cancel_order_by_index-succeeds,
}
use y_delta.Market.Change.{repriced, update_user_bid-Covered, claim_seat_with_sub_vault_lem}
use y_delta.Market.Tests.{asks, seat, seats, sub_vault, sub_vaults, market}

-- The borrower's seat, with n of its 10_000 atoms of collateral locked.
abbrev borrower : ℕ → ℕ → ClaimedSeat
borrower free locked = record (seat 8 0 0) {
  collateral_withdrawable_shares = free * scale;
  collateral_encumbered_shares = locked * scale;
}

abbrev seats_before : DataIndex → ClaimedSeat
seats_before = set_at seats 20 (borrower 10_000 0)

abbrev seats_locked : DataIndex → ClaimedSeat
seats_locked = set_at seats_before 20 (borrower 7_000 3_000)

abbrev book : Book
book = record {
  market = record market { seats = seats_before };
  num_bytes_allocated = 9_600;
  order_sequence_number = 5;
  position_count = 3;
  bids = [];
  asks = [];
  claimed_seats = 10 ∷ 11 ∷ 20 ∷ [];
}

-- 1_500 atoms against 3_000 of collateral at 800 bps; what is not matched rests.
abbrev place : PlaceOrderArgs
place = record {
  market_pubkey = 7;
  taker_seat_index = 20;
  side = bid;
  order_type = limit;
  rate_bps = 800;
  term_seconds = 900;
  principal_atoms = 1_500;
  collateral_atoms = 3_000;
  residual_mode = residual_mode_rest;
  last_valid_unix_ts = pos 500;
  now_unix_ts = pos 100;
  share_price_snapshot_fp48 = Fp48.one;
  debt_oracle_price_fp48 = Fp48.one;
  collateral_oracle_price_fp48 = Fp48.one;
  debt_liability_weight_init_fp48 = Fp48.one;
  collateral_asset_weight_init_fp48 = Fp48.one;
  ask_floor_rate_bps = 500;
  ltv_buffer_bps = 0;
}

abbrev resting : ℕ → ℕ → RestingOrder
resting principal collateral =
    new_primary 20 5 bid limit 800 900 principal collateral (pos 500) 0 0 Fp48.one

-- Without a vault nothing is matched, and the whole bid rests in the first free block.
abbrev rested_book : Book
rested_book = record book {
  market = record market { free_list = 51 ∷ 52 ∷ []; seats = seats_locked };
  num_bytes_allocated = 9_600;
  order_sequence_number = 6;
  bids = (50, resting 1_500 3_000) ∷ [];
}

abbrev placed : Placed
placed = (
  rested_book,
  none,
  record {
    sequence = 5;
    match_result = record {
      remaining_principal = 1_500;
      remaining_collateral = 3_000;
      total_filled_principal = 0;
      num_fills = 0;
      residual_action = rest;
    };
    p2pool_loan_index = none;
    p2pool_loan_sequence = 0;
    rested = true;
  },
)

bid_rests : match_borrower_bid asks place book none ≡ ok (some placed)
unfolding match_borrower_bid lock_collateral encumber_for_order update_balance
    atoms_to_shares_at_snapshot Fp48.checked_div Fp48.from_atoms div_scale u256_to_u128
    next_sequence match_order scan_asks screen check_lender is_expired assert_can_take finish
    dispose residual_action_of rest_in_free_block rest_order insert_order
bid_rests = refl

first-Covered : Covered (λ k. 0) (book.market) []
unfolding bid_claims loan_claims
first-Covered k = omega arith

match_borrower_bid-Covered_example :
    Covered (λ k. 0) (rested_book.market) (rested_book.bids)
    × AllFit (rested_book.bids)
    × Settled place book placed
match_borrower_bid-Covered_example =
    match_borrower_bid-Covered asks place book none (λ k. 0) (omega arith) first-Covered tt
      bid_rests

rested-Sound : Covered (λ k. 0) (rested_book.market) (rested_book.bids) × AllFit (rested_book.bids)
rested-Sound =
    let (covered, fit, _) =
      match_borrower_bid-Covered asks place book none (λ k. 0) (omega arith) first-Covered tt
        bid_rests in
    (covered, fit)

-- The first sub-vault lends 1_000 atoms at 600 bps.
abbrev crank : MatchRestingBidsArgs
crank = record {
  market_pubkey = 7;
  ask_seat_index = 10;
  ask_sub_vault_id = 1;
  ask_rate_bps = 600;
  ask_term_seconds = 1_000;
  ask_curator_fee_bps = 1_000;
  sub_vault_max_ltv_bps = 8_000;
  sub_vault_liquidation_ltv_bps = 9_000;
  ask_curator = 5;
  fee_floor_bps = 150;
  origination_bps = 100;
  now_unix_ts = pos 200;
  lender_debt_share_price_snapshot_fp48 = Fp48.one;
  debt_oracle_price_fp48 = Fp48.one;
  collateral_oracle_price_fp48 = Fp48.one;
  debt_mint_decimals = 6;
  collateral_mint_decimals = 6;
  max_fills = 8;
}

abbrev minted : MatchedLoan
minted = record {
  sequence = 40;
  borrower_marginfi_borrow_shares = 0;
  principal_atoms = 1_000;
  origination_atoms = 10;
  collateral_atoms = 2_000;
  matched_at_unix = pos 200;
  lender_seat_index = 10;
  borrower_seat_index = 20;
  term_seconds = 900;
  borrower_rate_bps = 800;
  lender_rate_bps = 600;
  loan_type = 0;
  flags = 1;
  curator_fee_bps_snapshot = 1_000;
  origination_ltv_bps = 8_000;
  liquidation_ltv_bps = 9_000;
  lender_debt_share_price_snapshot_fp48 = Fp48.one;
  borrower_collateral_share_price_snapshot_fp48 = Fp48.one;
}

abbrev walked : Walk
walked = record {
  market = record (rested_book.market) {
    matched_loan_sequence = 41;
    free_list = 52 ∷ [];
    seats =
        set_at (set_at seats_locked 20 (record (borrower 7_000 3_000) { open_borrow_count = 1 })) 10
          (record (seat 9 1 1) { open_lend_count = 1 });
    matched_loans = minted ∷ [];
  };
  vault = set_at sub_vaults 1 (
      some
        (record (sub_vault 1 1_001) { encumbered_in_orders_atoms = 1_000; open_loans_count = 1 }));
  total_filled_principal = 1_000;
  num_fills = 1;
  num_pruned = 0;
}

-- After its expiry the bid is pruned, and its owner has everything back.
bid_expires :
    match_resting_bids
      (record crank { now_unix_ts = pos 501 })
      (rested_book.market)
      sub_vaults
      (rested_book.bids)
    ≡ ok (
      record {
        market = record (rested_book.market) {
          free_list = 50 ∷ 51 ∷ 52 ∷ [];
          seats = set_at seats_locked 20 (borrower 10_000 0);
        };
        vault = sub_vaults;
        total_filled_principal = 0;
        num_fills = 0;
        num_pruned = 1;
      },
      [],
    )
unfolding match_resting_bids walk_bids visit is_expired prune release_order
    atoms_to_shares_at_snapshot Fp48.checked_div Fp48.from_atoms div_scale u256_to_u128
    unencumber_for_order update_balance
bid_expires = refl

wrong_hint :
    lookup_order_by_seq (λ i. resting 1 1) rested_book 20 6 (some 50)
    ≡ err (custom wrong_index_hint_params)
unfolding lookup_order_by_seq
wrong_hint = refl

bid_is_found :
    lookup_order_by_seq (λ i. resting 1 1) rested_book 20 5 none ≡ ok (50, resting 1_500 3_000)
unfolding lookup_order_by_seq find_order
bid_is_found = refl

in_block : block_at 50 (rested_book.bids) ≡ some (resting 1_500 3_000)
unfolding block_at
in_block = refl

abbrev cancelled_book : Book
cancelled_book = record rested_book {
  market = record market {
    free_list = 50 ∷ 51 ∷ 52 ∷ [];
    seats = set_at seats_locked 20 (borrower 10_000 0);
  };
  bids = [];
}

bid_cancelled : cancel_order_by_index rested_book 20 50 (resting 1_500 3_000) ≡ ok cancelled_book
unfolding cancel_order_by_index release_order atoms_to_shares_at_snapshot Fp48.checked_div
    Fp48.from_atoms div_scale u256_to_u128 unencumber_for_order update_balance remove_order
bid_cancelled = refl

cancel_order_by_index-Covered_example :
    Sound (λ k. 0) cancelled_book × (cancelled_book.bids ≡ remove_order 50 (rested_book.bids))
cancel_order_by_index-Covered_example =
    cancel_order_by_index-Covered (λ k. 0) rested_book 20 50 (resting 1_500 3_000) refl
      (omega arith) in_block rested-Sound bid_cancelled

cancel_order_by_index-succeeds_example :
    (b' : Book) × (cancel_order_by_index rested_book 20 50 (resting 1_500 3_000) ≡ ok b')
    × ((b'.market.seats 20).collateral_withdrawable_shares ≡ 7_000 * scale + shares 3_000 Fp48.one)
cancel_order_by_index-succeeds_example =
    cancel_order_by_index-succeeds (λ k. 0) rested_book 50 (resting 1_500 3_000) refl (omega arith)
      in_block rested-Sound (omega arith) (omega arith) (omega arith) (omega arith)

abbrev repriced_book : Book
repriced_book = record rested_book {
  num_bytes_allocated = 9_600;
  order_sequence_number = 7;
  bids = (50, repriced (resting 1_500 3_000) 6 700 600 (pos 900) 100) ∷ [];
}

bid_repriced :
    update_user_bid rested_book 20 50 (resting 1_500 3_000) 700 600 (pos 900) 100 (pos 200)
    ≡ ok (repriced_book, 6)
unfolding update_user_bid remove_order next_sequence rest_order insert_order
bid_repriced = refl

update_user_bid-Covered_example :
    Sound (λ k. 0) repriced_book
    × (◌≡◌ {A = ℕ} 20 20)
    × (6 ≡ rested_book.order_sequence_number)
    × (repriced_book.order_sequence_number ≡ 6 + 1)
    × (repriced_book.bids
        ≡ insert_order 50
            (repriced (resting 1_500 3_000) 6 700 600 (pos 900) 100)
            (remove_order 50 (rested_book.bids)))
update_user_bid-Covered_example =
    update_user_bid-Covered rested_book 20 50 (resting 1_500 3_000) 700 600 (pos 900) 100 (pos 200)
      (λ k. 0) in_block rested-Sound bid_repriced

abbrev claimed_book : Book
claimed_book = record book {
  market = record (book.market) {
    free_list = 51 ∷ 52 ∷ [];
    seats = set_at seats_before 50 (new_empty 99 0 0);
  };
  position_count = 4;
  claimed_seats = 50 ∷ 10 ∷ 11 ∷ 20 ∷ [];
}

seat_claimed : claim_seat_with_sub_vault book 99 0 0 ≡ ok claimed_book
unfolding claim_seat_with_sub_vault lookup_seat eq
seat_claimed = refl

claim_seat_with_sub_vault_lem_example :
    ((i : DataIndex) × (lookup_seat
          (claimed_book.market.seats)
          (new_empty 99 0 0)
          (claimed_book.claimed_seats)
        ≡ some i)
      × (claimed_book.market.seats i ≡ new_empty 99 0 0))
    × (claim_seat_with_sub_vault claimed_book 99 0 0 ≡ err (custom already_claimed_seat))
claim_seat_with_sub_vault_lem_example = claim_seat_with_sub_vault_lem book 99 0 0 seat_claimed
