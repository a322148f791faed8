-- ===== src/Market/BidsWalk.antt =====
-- The whole walk of the resting bids: `match_resting_bids` in
-- programs/ydelta/src/state/market_helpers.rs.
use y_delta.Prelude.{ℕ, ◌+◌}
use y_delta.Math.Uint256.{Uint256}
use y_delta.Order.{DataIndex, RestingOrder}
use y_delta.Market.{Market}
use y_delta.Market.Engine.{SubVaults}
use y_delta.Market.Book.{Orders}
use y_delta.Market.Bids.{MatchRestingBidsArgs, Walk}
use y_delta.Market.Backing.{shares, only, Covered, AllFit}

-- The state that the walk starts in.
abbrev pub at_start : Market → SubVaults → Walk
at_start m vault = record {
  market = m;
  vault = vault;
  total_filled_principal = 0;
  num_fills = 0;
  num_pruned = 0;
}

module _ ⦃w : Uint256⦄ (args : MatchRestingBidsArgs) where
  -- The claims of the bids that the walk keeps count as further claims for the rest of the walk.
  abbrev with_claim : (DataIndex → ℕ) → RestingOrder → DataIndex → ℕ
  with_claim more o k =
      more k + only o.trader_seat_index k (shares o.collateral_atoms o.share_price_snapshot)

  abbrev Good : (DataIndex → ℕ) → Walk × Orders → Type 0
  Good more (s, bids) = Covered more s.market bids × AllFit bids
