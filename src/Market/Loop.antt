-- ===== src/Market/Loop.antt =====
-- `match_order` in programs/ydelta/src/state/market_helpers.rs, and that its scan of the asks ends.
use y_delta.Prelude.{ℕ, ◌≡◌, ◌≢◌, Bool, Option, none, some, Result, ok, ◌==◌, arith}
use y_delta.Math.Uint256.{Uint256}
use y_delta.Order.{DataIndex}
use y_delta.Market.{Market, Asks}
use y_delta.Market.Scan.{scan_from_best, fuel_for, scan_asks-ends, scan_asks-keeps}
use y_delta.Market.Engine.{MatchArgs, SubVaults, MatchState, Fill, take, screen, fill}

pub data ResidualAction : Type 0 where
  drop p2pool_borrow rest : ResidualAction

pub record MatchResult : Type 0 where
  pub remaining_principal : ℕ
  pub remaining_collateral : ℕ
  pub total_filled_principal : ℕ
  pub num_fills : ℕ
  pub residual_action : ResidualAction

abbrev pub result_of : MatchState → MatchResult
result_of s = record {
  remaining_principal = s.remaining_principal;
  remaining_collateral = s.remaining_collateral;
  total_filled_principal = s.total_filled;
  num_fills = s.num_fills;
  residual_action = drop;
}

abbrev pub initial : MatchArgs → Market → Option SubVaults → MatchState
initial args m vault = record {
  market = m;
  vault = vault;
  remaining_principal = args.principal_atoms;
  remaining_collateral = args.collateral_atoms;
  total_filled = 0;
  num_fills = 0;
}

module _ ⦃w : Uint256⦄ (asks : Asks) (args : MatchArgs) where
  abbrev pub is_filled : MatchState → Bool
  is_filled s = s.remaining_principal == 0

  unfoldable pub match_order : Market → Option SubVaults → Result (Option MatchState)
  match_order m vault =
      scan_from_best asks is_filled (screen args) (fill args) (initial args m vault)

  -- The scan of the asks ends: the fuel of `match_order` is never used up.
  pub match_order-ends : (m : Market) (vault : Option SubVaults) → match_order m vault ≢ ok none
  unfolding match_order
  match_order-ends m vault =
      scan_asks-ends asks is_filled (screen args) (fill args) (fuel_for asks asks.best_index)
        asks.best_index (initial args m vault) (omega arith)

  pub match_order-keeps :
      (P : MatchState → Type 0)
      → ((i : DataIndex) (f : Fill) (s s' : MatchState)
          → P s
          → s.remaining_principal ≢ 0
          → screen args (asks.order_at i) s ≡ ok (take f)
          → fill args (asks.order_at i) s f ≡ ok s'
          → P s')
      → (m : Market) (vault : Option SubVaults) {s' : MatchState} → P (initial args m vault)
      → match_order m vault ≡ ok (some s')
      → P s'
  unfolding match_order
  match_order-keeps P keeps m vault {s'} p e =
      scan_asks-keeps asks is_filled (screen args) (fill args) P
        (λ i f s t held more. keeps i f s t held (ground (arith, more)))
        (fuel_for asks asks.best_index) asks.best_index (initial args m vault) s' p e
