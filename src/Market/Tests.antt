-- ===== src/Market/Tests.antt =====
-- A match of a bid against two asks, and the theorems there.
use y_delta.Prelude.{
  ℕ, ◌<◌, ◌≡◌, ◌≢◌, refl, ok, err, custom, post_only_would_cross, Option, none, some, [], ◌∷◌, ◌==◌,
  if◌then◌else◌, arith,
}
use y_delta.Prelude.Int.{pos}
use y_delta.Math.Uint256.{nat_uint256}
use y_delta.Math.Scale.{
  to_scaled, from_scaled_ceil, mul_div, mul_div_u64, mul_scale, div_scale, u256_to_u128,
}
use y_delta.Math.Fp48
use y_delta.Order.{
  DataIndex, RestingOrder, ask, bid, limit, post_only, new_primary, is_expired, assert_can_take,
}
use y_delta.Seat.{ClaimedSeat}
use y_delta.SubVault.{SubVault}
use y_delta.Ltv.{
  pow10_u128, normalize, required_value, get_required_quote_collateral_to_back_debt,
  required_collateral_at_ltv_cap,
}
use y_delta.Market.{MatchedLoan, Market, Asks}
use y_delta.Market.Engine.{
  MatchArgs, SubVaults, MatchState, offer_of, reserve, reserve_in, borrower_rate, insert_loan,
  count_loan, count_fill, matched_collateral, check_collateral, check_offer, check_lender, screen,
  fill, set_at,
}
use y_delta.Market.Scan.{scan_asks}
use y_delta.Market.Loop.{match_order, match_order-ends}
use y_delta.Market.Collateral.{Balanced, match_order-Balanced}
use y_delta.Market.Terms.{Added, OnTerms, match_order-Added}
use y_delta.Market.Promised.{Promised}
use y_delta.Market.Capacity.{AllWithin, match_order-AllWithin}

abbrev pub maker : ℕ → ℕ → ℕ → RestingOrder
maker seat rate sequence = new_primary seat sequence ask limit rate 1_000 0 0 (pos 0) 0 0 Fp48.one

abbrev pub next_lower : DataIndex → Option DataIndex
next_lower i = if i == 0 then some 1 else none

abbrev pub rank : DataIndex → ℕ
rank i = if i == 0 then 1 else 0

pub next_lower_falls : (i j : DataIndex) → next_lower i ≡ some j → rank j < rank i
next_lower_falls i j e = ground arith

-- Block 0 holds an ask at 600 bps, block 1 one at 700 bps.
abbrev pub asks : Asks
asks = record {
  best_index = some 0;
  order_at = λ i. if i == 0 then maker 10 600 0 else maker 11 700 1;
  next_lower_index = next_lower;
  rank = rank;
  next_lower_lem = next_lower_falls;
}

abbrev pub seat : ℕ → ℕ → ℕ → ClaimedSeat
seat owner kind sub_vault_id = record {
  owner = owner;
  debt_withdrawable_shares = 0;
  debt_encumbered_shares = 0;
  collateral_withdrawable_shares = 0;
  collateral_encumbered_shares = 0;
  open_borrow_count = 0;
  open_lend_count = 0;
  owner_kind = kind;
  sub_vault_id = sub_vault_id;
}

-- The seats of the two sub-vaults, and of the taker.
abbrev pub seats : DataIndex → ClaimedSeat
seats i = if i == 10 then seat 9 1 1 else if i == 11 then seat 9 1 2 else seat 8 0 0

abbrev pub sub_vault : ℕ → ℕ → SubVault
sub_vault id principal = record {
  sub_vault_id = id;
  is_sunset = 0;
  kind = 0;
  spread_bps = 100;
  curator = 5;
  max_ltv_bps = 8_000;
  liquidation_ltv_bps = 9_000;
  max_term_seconds = 31_536_000;
  curator_fee_bps = 1_000;
  open_orders_count = 1;
  open_loans_count = 0;
  total_shares = principal;
  total_assets_atoms = principal;
  total_principal_atoms = principal;
  deployed_principal_atoms = 0;
  encumbered_in_orders_atoms = 0;
  total_weighted_rate_bps = 0;
  accumulated_curator_fee_atoms = 0;
  last_accrue_unix = pos 0;
  cumulative_supply_yield_index_scaled = 0;
  cumulative_delta_yield_index_scaled = 0;
  last_supply_share_value_fp48 = Fp48.one;
  pending_curator = 0;
  total_weighted_net_rate_bps = 0;
  pending_claim_atoms = 0;
}

-- The first sub-vault can lend 1_000 atoms, the second 1_999.
abbrev pub sub_vaults : SubVaults
sub_vaults id =
    if id == 1 then some (sub_vault 1 1_001) else if id == 2 then some (sub_vault 2 2_000) else none

abbrev pub market : Market
market = record {
  debt_mint_decimals = 6;
  collateral_mint_decimals = 6;
  matched_loan_sequence = 40;
  fee_config = record {
    protocol_fee_bps_floor = 150;
    origination_bps = 100;
    curator_split_bps = 0;
    liquidation_keeper_bps = 0;
    liquidation_protocol_bps = 0;
    grace_period_seconds = 86_400;
  };
  free_list = 50 ∷ 51 ∷ 52 ∷ [];
  seats = seats;
  matched_loans = [];
}

-- A bid for 1_500 atoms against 3_000 of collateral, at 800 bps.
abbrev args : MatchArgs
args = record {
  market_pubkey = 7;
  taker_seat_index = 20;
  side = bid;
  rate_bps = 800;
  term_seconds = 900;
  principal_atoms = 1_500;
  collateral_atoms = 3_000;
  order_type = limit;
  now_unix_ts = pos 100;
  fee_floor_bps = 150;
  taker_share_price_snapshot_fp48 = Fp48.one;
  debt_oracle_price_fp48 = Fp48.one;
  collateral_oracle_price_fp48 = Fp48.one;
  ask_floor_rate_bps = 500;
  ltv_buffer_bps = 0;
}

abbrev pub queued :
    (sequence principal origination collateral seat borrower_rate rate : ℕ) → MatchedLoan
queued sequence principal origination collateral seat borrower_rate rate = record {
  sequence = sequence;
  borrower_marginfi_borrow_shares = 0;
  principal_atoms = principal;
  origination_atoms = origination;
  collateral_atoms = collateral;
  matched_at_unix = pos 100;
  lender_seat_index = seat;
  borrower_seat_index = 20;
  term_seconds = 900;
  borrower_rate_bps = borrower_rate;
  lender_rate_bps = rate;
  loan_type = 0;
  flags = 1;
  curator_fee_bps_snapshot = 1_000;
  origination_ltv_bps = 8_000;
  liquidation_ltv_bps = 9_000;
  lender_debt_share_price_snapshot_fp48 = Fp48.one;
  borrower_collateral_share_price_snapshot_fp48 = Fp48.one;
}

abbrev first_loan : MatchedLoan
first_loan = queued 40 1_000 10 2_000 10 800 600

-- The protocol's floor makes the second loan dearer than the bid.
abbrev second_loan : MatchedLoan
second_loan = queued 41 500 5 1_000 11 850 700

abbrev seats_after : DataIndex → ClaimedSeat
seats_after =
    set_at
      (set_at
        (set_at (set_at seats 20 (record (seat 8 0 0) { open_borrow_count = 1 })) 10
          (record (seat 9 1 1) { open_lend_count = 1 }))
        20 (record (seat 8 0 0) { open_borrow_count = 2 }))
      11 (record (seat 9 1 2) { open_lend_count = 1 })

abbrev pub sub_vaults_after : SubVaults
sub_vaults_after =
    set_at
      (set_at sub_vaults 1 (
        some (record (sub_vault 1 1_001) {
          encumbered_in_orders_atoms = 1_000;
          open_loans_count = 1;
        })))
      2
      (some (record (sub_vault 2 2_000) { encumbered_in_orders_atoms = 500; open_loans_count = 1 }))

abbrev final : MatchState
final = record {
  market = record market {
    matched_loan_sequence = 42;
    free_list = 52 ∷ [];
    seats = seats_after;
    matched_loans = second_loan ∷ first_loan ∷ [];
  };
  vault = some sub_vaults_after;
  remaining_principal = 0;
  remaining_collateral = 0;
  total_filled = 1_500;
  num_fills = 2;
}

two_fills : match_order ⦃w = nat_uint256⦄ asks args market (some sub_vaults) ≡ ok (some final)
unfolding match_order scan_asks screen check_lender check_offer check_collateral matched_collateral
    offer_of fill reserve_in reserve borrower_rate insert_loan count_loan count_fill is_expired
    assert_can_take mul_div_u64 required_collateral_at_ltv_cap
    get_required_quote_collateral_to_back_debt required_value normalize pow10_u128 to_scaled
    from_scaled_ceil mul_div mul_scale div_scale u256_to_u128 Fp48.checked_mul Fp48.checked_div
    Fp48.from_atoms
two_fills = refl

would_cross :
    match_order ⦃w = nat_uint256⦄ asks
      (record args { order_type = post_only })
      market
      (some sub_vaults)
    ≡ err (custom post_only_would_cross)
unfolding match_order scan_asks screen check_lender is_expired assert_can_take
would_cross = refl

match_order-ends_example :
    match_order ⦃w = nat_uint256⦄ asks args market (some sub_vaults) ≢ ok none
match_order-ends_example = match_order-ends ⦃w = nat_uint256⦄ asks args market (some sub_vaults)

match_order-Balanced_example : Balanced args [] final
match_order-Balanced_example =
    match_order-Balanced ⦃w = nat_uint256⦄ asks args market (some sub_vaults) two_fills

match_order-Added_example :
    Added (OnTerms ⦃w = nat_uint256⦄ args market) [] (second_loan ∷ first_loan ∷ [])
match_order-Added_example =
    match_order-Added ⦃w = nat_uint256⦄ asks args market (some sub_vaults) two_fills

pub all_within : AllWithin (some sub_vaults)
all_within id = ground arith

match_order-AllWithin_example :
    AllWithin (some sub_vaults_after)
    × Promised market (some sub_vaults) (final.market) (some sub_vaults_after)
match_order-AllWithin_example =
    match_order-AllWithin ⦃w = nat_uint256⦄ asks args market (some sub_vaults) all_within two_fills
