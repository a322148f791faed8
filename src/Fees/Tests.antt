-- ===== src/Fees/Tests.antt =====
-- A change of a market's fees: programs/ydelta/src/program/processor/set_fee_config.rs.
use y_delta.Prelude.{ℕ, ◌≡◌, refl, none, some, [], ok, err, custom, invalid_fee_config, arith}
use y_delta.Seat.{new_empty}
use y_delta.Market.{Market}
use y_delta.Fees.{
  SetFeeConfigParams, check_at_most, validate_fee_config_overrides, apply_fee_config_overrides,
  set_fee_config, IsBounded, set_fee_config-IsBounded,
}

abbrev market : Market
market = record {
  debt_mint_decimals = 6;
  collateral_mint_decimals = 6;
  matched_loan_sequence = 40;
  fee_config = record {
    protocol_fee_bps_floor = 150;
    origination_bps = 100;
    curator_split_bps = 0;
    liquidation_keeper_bps = 0;
    liquidation_protocol_bps = 0;
    grace_period_seconds = 86_400;
  };
  free_list = [];
  seats = λ _. new_empty 0 0 0;
  matched_loans = [];
}

abbrev keeper_share : ℕ → SetFeeConfigParams
keeper_share bps = record {
  protocol_fee_bps_floor = none;
  origination_bps = none;
  curator_split_bps = none;
  liquidation_keeper_bps = some bps;
  liquidation_protocol_bps = none;
  grace_period_seconds = some 3_600;
}

abbrev market_after : Market
market_after = record market {
  fee_config = record market.fee_config {
    liquidation_keeper_bps = 5_000;
    grace_period_seconds = 3_600;
  };
}

sets : set_fee_config 9 9 market (keeper_share 5_000) ≡ ok market_after
unfolding set_fee_config validate_fee_config_overrides check_at_most apply_fee_config_overrides
sets = refl

more_than_half_is_refused :
    set_fee_config 9 9 market (keeper_share 5_001) ≡ err (custom invalid_fee_config)
unfolding set_fee_config validate_fee_config_overrides check_at_most
more_than_half_is_refused = refl

set_fee_config-IsBounded_example : IsBounded market_after.fee_config × ◌≡◌ {A = ℕ} 9 9
set_fee_config-IsBounded_example =
    set_fee_config-IsBounded 9 9 market (keeper_share 5_000)
      (record {
        floor = omega arith;
        origination = omega arith;
        curator = omega arith;
        keeper = omega arith;
        protocol = omega arith;
        grace = omega arith;
      })
      sets
