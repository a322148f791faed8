-- ===== src/Market/Placing.antt =====
-- Where the principal and the collateral of a placed bid go: `match_borrower_bid` in
-- programs/ydelta/src/state/market_helpers.rs, from the match to the end.
use y_delta.Prelude.{
  ℕ, ◌+◌, ◌<◌, ◌≡◌, ◌≢◌, refl, sym, ap, ◌∙◌, true, Option, some, ok, ok-injective, ◌==◌, ==→≡,
  arith, u64_mod,
}
use y_delta.Math.Uint256.{Uint256}
use y_delta.Order.{DataIndex, RestingOrder}
use y_delta.Market.{Market, Asks}
use y_delta.Market.Engine.{SubVaults, MatchState, Fill, take, screen, fill, matched_collateral}
use y_delta.Market.Taken.{OnOffer, screen-Taken, fill-Filled}
use y_delta.Market.Collateral.{principal_of, collateral_of, match_order-Balanced}
use y_delta.Market.Loop.{ResidualAction, drop, p2pool_borrow, rest, match_order, match_order-keeps}
use y_delta.Market.Book.{Book}
use y_delta.Market.Place.{
  PlaceOrderArgs, Placed, match_args_of, dispose, with_action, residual_action_of,
}
use y_delta.Market.Backing.{shares, only}
use y_delta.Market.PlaceBacked.{fill-locks}
use y_delta.Market.Locks.{locked, bids_principal, bids_collateral}
use y_delta.Market.Settled.{given_back, lent_by_pool, left_to_rest, result_in, dispose-Disposed}

-- A bid of `args` was placed in the book `b`. What the result says was filled or lent by the pool
-- became loans, and what it says rests is in the book; the collateral is in those loans, rests or was
-- unlocked. The taker's seat locked the shares of the whole collateral, less those of what was
-- unlocked, and no other seat's lock changed.
pub record Settled (args : PlaceOrderArgs) (b : Book) (p : Placed) : Type 0 where
  pub action :
      (result_in p).residual_action
      ≡ residual_action_of (result_in p).remaining_principal args.residual_mode
  pub split :
      (result_in p).remaining_principal + (result_in p).total_filled_principal
      ≡ args.principal_atoms
  pub loans :
      principal_of (p.0).market.matched_loans
      ≡ principal_of b.market.matched_loans
        + (result_in p).total_filled_principal
        + lent_by_pool (result_in p).residual_action (result_in p).remaining_principal
  pub resting :
      bids_principal (p.0).bids
      ≡ bids_principal b.bids
        + left_to_rest (result_in p).residual_action (result_in p).remaining_principal
  pub collateral :
      collateral_of (p.0).market.matched_loans
        + bids_collateral (p.0).bids
        + given_back (result_in p).residual_action (result_in p).remaining_collateral
      ≡ collateral_of b.market.matched_loans + bids_collateral b.bids + args.collateral_atoms
  pub locks :
      (k : DataIndex)
      → locked (p.0).market k
          + only args.taker_seat_index k (
              shares
                (given_back (result_in p).residual_action (result_in p).remaining_collateral)
                args.share_price_snapshot_fp48)
        ≡ locked b.market k
          + only args.taker_seat_index k
              (shares args.collateral_atoms args.share_price_snapshot_fp48)

three_ways : (a : ResidualAction) (n : ℕ) → given_back a n + lent_by_pool a n + left_to_rest a n ≡ n
three_ways drop n = omega arith
three_ways p2pool_borrow n = omega arith
three_ways rest n = omega arith

module _ ⦃w : Uint256⦄ (args : PlaceOrderArgs) (b : Book) where
  -- What every fill keeps: the locks, and that the last fill takes all the collateral.
  pub record Held (m : Market) (s : MatchState) : Type 0 where
    pub locks : (k : DataIndex) → locked s.market k ≡ locked m k
    pub spent : s.remaining_principal ≡ 0 → s.remaining_collateral ≡ 0

  last_takes_all :
      (s : MatchState) (f : Fill)
      → OnOffer (match_args_of args b.market) s f
      → s.remaining_principal ≡ f.principal
      → s.remaining_collateral ≡ f.collateral
  unfolding matched_collateral
  last_takes_all s f o all =
      let whole : (f.principal == s.remaining_principal) ≡ true = ground (arith, all) in
      ok-injective (rw (matched_collateral, whole) at (o.collateral))

  step-Held :
      (m : Market) (maker : RestingOrder) (f : Fill) (s s' : MatchState)
      → Held m s
      → screen (match_args_of args b.market) maker s ≡ ok (take f)
      → fill (match_args_of args b.market) maker s f ≡ ok s'
      → Held m s'
  step-Held m maker f s s' h screened filled =
      let t = screen-Taken (match_args_of args b.market) maker s screened in
      let wrote = fill-Filled (match_args_of args b.market) maker s f filled in
      record {
        locks = λ k. fill-locks (match_args_of args b.market) maker s s' f filled k ∙ h.locks k;
        spent = λ none_left.
            let all : s.remaining_principal ≡ f.principal =
              omega (arith, none_left, wrote.principal) in
            omega (arith, last_takes_all s f t.on_offer all, wrote.collateral);
      }

  pub match_order-Held :
      (asks : Asks) (m : Market) (vault : Option SubVaults) {s : MatchState}
      → args.principal_atoms ≢ 0
      → match_order asks (match_args_of args b.market) m vault ≡ ok (some s)
      → Held m s
  match_order-Held asks m vault some_principal e =
      match_order-keeps asks (match_args_of args b.market) (Held m)
        (λ i f s s' h _ screened filled. step-Held m (asks.order_at i) f s s' h screened filled) m
        vault (record { locks = λ k. refl; spent = λ none. absurd (some_principal none) }) e

  pub finish-Settled :
      (b₁ : Book) (m : Market) (asks : Asks) (vault : Option SubVaults) (sequence : ℕ)
      (s : MatchState) {p : Placed}
      → args.principal_atoms ≢ 0
      → s.remaining_collateral < u64_mod
      → m.matched_loans ≡ b.market.matched_loans
      → ((k : DataIndex)
          → locked m k
            ≡ locked b.market k
              + only args.taker_seat_index k
                  (shares args.collateral_atoms args.share_price_snapshot_fp48))
      → b₁.bids ≡ b.bids
      → match_order asks (match_args_of args b.market) m vault ≡ ok (some s)
      → dispose args (record b₁ { market = s.market }) s.vault sequence (with_action args s) ≡ ok p
      → Settled args b p
  unfolding residual_action_of
  finish-Settled b₁ m asks vault sequence s {p} some_principal fits loans locks bids matched e =
      let held = match_order-Held asks m vault some_principal matched in
      let balanced = match_order-Balanced asks (match_args_of args b.market) m vault matched in
      let r = with_action args s in
      let d =
        dispose-Disposed args (record b₁ { market = s.market }) s.vault sequence r fits
          (λ none_left. (rw (residual_action_of, none_left) refl, held.spent (==→≡ _ _ none_left)))
          e in
      let parts = three_ways r.residual_action r.remaining_collateral in
      let before_principal = ap principal_of loans in
      let before_collateral = ap collateral_of loans in
      let bids_p = ap bids_principal bids in
      let bids_c = ap bids_collateral bids in
      let res = d.result in
      let back = λ (k : DataIndex).
        ap
          (λ x. only args.taker_seat_index k (
            shares (given_back x.residual_action x.remaining_collateral)
              args.share_price_snapshot_fp48))
          res in
      let left = ap (λ x. x.remaining_principal) res in
      let total = ap (λ x. x.total_filled_principal) res in
      let pool = ap (λ x. lent_by_pool x.residual_action x.remaining_principal) res in
      let rests = ap (λ x. left_to_rest x.residual_action x.remaining_principal) res in
      let given = ap (λ x. given_back x.residual_action x.remaining_collateral) res in
      record {
        action =
            ap (λ x. x.residual_action) res
            ∙ ap (λ n. residual_action_of n args.residual_mode) (sym left);
        split = omega (arith, left, total, balanced.principal);
        loans = omega (arith, total, pool, d.loans_principal, balanced.loans, before_principal);
        resting = omega (arith, rests, d.resting_principal, bids_p);
        collateral = omega (
          arith, given, d.loans_collateral, d.resting_collateral, parts, bids_c,
          balanced.collateral, before_collateral,
        );
        locks = λ k. omega (arith, back k, d.locks k, held.locks k, locks k);
      }
