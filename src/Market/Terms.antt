-- ===== src/Market/Terms.antt =====
-- On which terms a match lends: `match_order` in programs/ydelta/src/state/market_helpers.rs.
use y_delta.Prelude.{
  ℕ, ◌+◌, ◌≤◌, ◌≡◌, ◌≢◌, refl, sym, subst, ◌∙◌, max, Option, some, List, ◌∷◌, ok, arith,
}
use y_delta.Math.Uint256.{Uint256}
use y_delta.Order.{RestingOrder}
use y_delta.Ltv.{required_collateral_at_ltv_cap}
use y_delta.Market.{Market, Asks, MatchedLoan}
use y_delta.Market.Engine.{
  MatchArgs, SubVaults, MatchState, Fill, take, screen, fill, borrower_rate, node_of,
}
use y_delta.Market.Taken.{Taken, screen-Taken, fill-Filled}
use y_delta.Market.Loop.{match_order, match_order-keeps}

-- A list with loans put before it that all have a property.
pub data Added (P : MatchedLoan → Type 0) (old : List MatchedLoan) : List MatchedLoan → Type 0 where
  nothing : Added P old old
  loan_before :
      (l : MatchedLoan) (ls : List MatchedLoan) → P l → Added P old ls → Added P old (l ∷ ls)

borrower_rate-eq-ok :
    (bid_rate ask_rate fee_floor : ℕ) {r : ℕ}
    → borrower_rate bid_rate ask_rate fee_floor ≡ ok r
    → r ≡ max bid_rate (ask_rate + fee_floor)
unfolding borrower_rate
borrower_rate-eq-ok bid_rate ask_rate fee_floor e = ground arith

module _ ⦃w : Uint256⦄ where
  -- A loan on the terms of a bid: the lender gets a rate between the floor and the bid's, the
  -- borrower pays the bid's rate or the lender's with the protocol's floor on it, whichever is more,
  -- for the bid's term; nobody lends to himself; and the collateral covers the requirement at the
  -- stamped cap and the prices of the match.
  pub record OnTerms (args : MatchArgs) (m : Market) (l : MatchedLoan) : Type 0 where
    pub some_principal : l.principal_atoms ≢ 0
    pub floor : args.ask_floor_rate_bps ≤ l.lender_rate_bps
    pub crosses : l.lender_rate_bps ≤ args.rate_bps
    pub borrower : l.borrower_rate_bps ≡ max args.rate_bps (l.lender_rate_bps + args.fee_floor_bps)
    pub term : l.term_seconds ≡ args.term_seconds
    pub taker : l.borrower_seat_index ≡ args.taker_seat_index
    pub other_seat : l.lender_seat_index ≢ args.taker_seat_index
    pub required : ℕ
    pub required_eq :
        required_collateral_at_ltv_cap l.principal_atoms args.debt_oracle_price_fp48
          args.collateral_oracle_price_fp48 l.origination_ltv_bps m.debt_mint_decimals
          m.collateral_mint_decimals
        ≡ ok required
    pub enough : required ≤ l.collateral_atoms

  fill-OnTerms :
      (args : MatchArgs) (maker : RestingOrder) (s : MatchState) (f : Fill) (rate origination : ℕ)
      → s.remaining_principal ≢ 0
      → Taken args maker s f
      → borrower_rate args.rate_bps maker.rate_bps args.fee_floor_bps ≡ ok rate
      → OnTerms args (s.market) (node_of args maker s.market f rate origination)
  fill-OnTerms args maker s f rate origination some_left t e =
      let o = t.on_offer in
      record {
        some_principal = ground (arith, o.principal, o.some_idle, some_left);
        floor = t.above_floor;
        crosses = t.crosses;
        borrower = borrower_rate-eq-ok args.rate_bps maker.rate_bps args.fee_floor_bps e;
        term = refl;
        taker = refl;
        other_seat = t.other_seat;
        required = o.required;
        required_eq = o.required_eq;
        enough = o.enough;
      }

  -- The requirement reads only the decimals of the market.
  OnTerms-decimals :
      (args : MatchArgs) (m m' : Market) (l : MatchedLoan)
      → m'.debt_mint_decimals ≡ m.debt_mint_decimals
      → m'.collateral_mint_decimals ≡ m.collateral_mint_decimals
      → OnTerms args m' l
      → OnTerms args m l
  OnTerms-decimals args m m' l dd cd t = record {
    some_principal = t.some_principal;
    floor = t.floor;
    crosses = t.crosses;
    borrower = t.borrower;
    term = t.term;
    taker = t.taker;
    other_seat = t.other_seat;
    required = t.required;
    required_eq = rw (sym dd, sym cd) (t.required_eq);
    enough = t.enough;
  }

  -- What a match that started at m has added, and that the decimals stay.
  record Progress (args : MatchArgs) (m : Market) (s : MatchState) : Type 0 where
    added : Added (OnTerms args m) m.matched_loans s.market.matched_loans
    debt_decimals : s.market.debt_mint_decimals ≡ m.debt_mint_decimals
    coll_decimals : s.market.collateral_mint_decimals ≡ m.collateral_mint_decimals

  step-Progress :
      (args : MatchArgs) (m : Market) (maker : RestingOrder) (f : Fill) (s s' : MatchState)
      → Progress args m s
      → s.remaining_principal ≢ 0
      → screen args maker s ≡ ok (take f)
      → fill args maker s f ≡ ok s'
      → Progress args m s'
  step-Progress args m maker f s s' p some_left screened filled =
      let t = screen-Taken args maker s screened in
      let wrote = fill-Filled args maker s f filled in
      let node = node_of args maker s.market f (wrote.rate) (wrote.origination) in
      let here =
        fill-OnTerms args maker s f (wrote.rate) (wrote.origination) some_left t (wrote.rate_eq) in
      let on_terms =
        OnTerms-decimals args m (s.market) node (p.debt_decimals) (p.coll_decimals) here in
      record {
        added =
            subst (Added (OnTerms args m) m.matched_loans) (sym (wrote.loans))
              (loan_before node (s.market.matched_loans) on_terms (p.added));
        debt_decimals = (wrote.decimals).0 ∙ p.debt_decimals;
        coll_decimals = (wrote.decimals).1 ∙ p.coll_decimals;
      }

  -- Every loan that a match adds to the queue is for some principal and for the bid's term; its lender
  -- gets a rate between the floor and the bid's, and its borrower pays the bid's rate or the lender's
  -- plus the protocol's floor, whichever is more; the two sit on different seats; and its collateral
  -- covers the requirement at the stamped cap and the prices of the match. The loans that were queued
  -- stay.
  pub match_order-Added :
      (asks : Asks) (args : MatchArgs) (m : Market) (vault : Option SubVaults) {s : MatchState}
      → match_order asks args m vault ≡ ok (some s)
      → Added (OnTerms args m) m.matched_loans s.market.matched_loans
  match_order-Added asks args m vault e =
      let p =
        match_order-keeps asks args (Progress args m)
          (λ i f s s' p some_left screened filled.
            step-Progress args m (asks.order_at i) f s s' p some_left screened filled)
          m vault (record { added = nothing; debt_decimals = refl; coll_decimals = refl }) e in
      p.added
