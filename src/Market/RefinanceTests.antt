-- ===== src/Market/RefinanceTests.antt =====
-- A refinance of a loan from the pool against two asks: `match_p2pool_residual_against_asks` in
-- programs/ydelta/src/state/market_helpers.rs.
use y_delta.Prelude.{ℕ, ◌≡◌, refl, some, [], ◌∷◌, ok}
use y_delta.Prelude.Int.{pos}
use y_delta.Math.Uint256.{nat_uint256}
use y_delta.Math.Scale.{
  to_scaled, from_scaled_ceil, mul_div, mul_div_u64, mul_scale, div_scale, u256_to_u128,
}
use y_delta.Math.Fp48
use y_delta.Order.{is_expired}
use y_delta.Ltv.{
  pow10_u128, normalize, required_value, get_required_quote_collateral_to_back_debt,
  required_collateral_at_ltv_cap,
}
use y_delta.Market.{MatchedLoan}
use y_delta.Market.Engine.{set_at, offer_of, reserve_in, reserve, borrower_rate, insert_loan}
use y_delta.Market.Scan.{scan_asks}
use y_delta.Market.Capacity.{AllWithin}
use y_delta.Market.Promised.{Promised}
use y_delta.Market.Refinance.{
  MatchP2PoolRefinanceArgs, Refinance, count_lend, count_cross, fill_cross, check_share,
  check_refinance_lender, screen_ask, match_p2pool_residual_against_asks,
}
use y_delta.Market.Refinanced.{Converted, match_p2pool_residual_against_asks-Converted}
use y_delta.Market.Tests.{
  asks, seat, seats, sub_vaults, sub_vaults_after, market, queued, all_within,
}

-- 1_500 atoms with 3_001 of collateral, for at most 700 bps.
abbrev args : MatchP2PoolRefinanceArgs
args = record {
  market_pubkey = 7;
  borrower_seat_index = 20;
  principal_cap_atoms = 1_500;
  loan_collateral_atoms = 3_001;
  borrower_collateral_share_price_snapshot_fp48 = Fp48.one;
  term_remaining_seconds = 900;
  max_acceptable_rate_bps = 700;
  fee_floor_bps = 150;
  now_unix_ts = pos 100;
  debt_oracle_price_fp48 = Fp48.one;
  collateral_oracle_price_fp48 = Fp48.one;
  debt_mint_decimals = 6;
  collateral_mint_decimals = 6;
  ask_floor_rate_bps = 500;
  ltv_buffer_bps = 0;
}

abbrev fixed_loan : (sequence principal collateral seat borrower_rate rate : ℕ) → MatchedLoan
fixed_loan sequence principal collateral seat borrower_rate rate =
    record (queued sequence principal 0 collateral seat borrower_rate rate) { flags = 9 }

-- The remainder of the pro rata parts, one atom, stays behind.
abbrev refinanced : Refinance
refinanced = record {
  market = record market {
    matched_loan_sequence = 42;
    free_list = 52 ∷ [];
    seats =
        set_at (set_at seats 10 (record (seat 9 1 1) { open_lend_count = 1 })) 11
          (record (seat 9 1 2) { open_lend_count = 1 });
    matched_loans = fixed_loan 41 500 1_000 11 850 700 ∷ fixed_loan 40 1_000 2_000 10 750 600 ∷ [];
  };
  vault = some sub_vaults_after;
  remaining_principal = 0;
  total_filled_principal = 1_500;
  total_filled_collateral = 3_000;
  num_fills = 2;
  crosses =
      record { lender_sub_vault_id = 1; lender_rate_bps = 600; filled_principal_atoms = 1_000 }
      ∷ record { lender_sub_vault_id = 2; lender_rate_bps = 700; filled_principal_atoms = 500 }
      ∷ [];
}

two_crosses :
    match_p2pool_residual_against_asks ⦃w = nat_uint256⦄ asks args market (some sub_vaults)
    ≡ ok (some refinanced)
unfolding match_p2pool_residual_against_asks scan_asks screen_ask check_refinance_lender check_share
    offer_of fill_cross reserve_in reserve borrower_rate insert_loan count_lend count_cross
    is_expired mul_div_u64 required_collateral_at_ltv_cap get_required_quote_collateral_to_back_debt
    required_value normalize pow10_u128 to_scaled from_scaled_ceil mul_div mul_scale div_scale
    u256_to_u128 Fp48.checked_mul Fp48.checked_div Fp48.from_atoms
two_crosses = refl

match_p2pool_residual_against_asks-Converted_example :
    Converted args [] refinanced
    × AllWithin (some sub_vaults_after)
    × Promised market (some sub_vaults) (refinanced.market) (some sub_vaults_after)
match_p2pool_residual_against_asks-Converted_example =
    match_p2pool_residual_against_asks-Converted ⦃w = nat_uint256⦄ asks args market
      (some sub_vaults) all_within two_crosses
