-- ===== src/Market/Refinanced.antt =====
-- What a refinance has converted: `match_p2pool_residual_against_asks` in
-- programs/ydelta/src/state/market_helpers.rs.
use y_delta.Prelude.{
  ℕ, ◌+◌, ◌*◌, ◌≤◌, ◌≡◌, ◌≢◌, ap, subst, ◌∙◌, Option, some, none, List, [], ◌∷◌, ◌++◌, ok, arith,
}
use native.Mathlib.Nat.{add-mul, mul-add, div-mul-le_self, mul-le-mul_left, le_of_mul-le-mul_right}
use y_delta.Math.Uint256.{Uint256}
use y_delta.Order.{RestingOrder}
use y_delta.Market.{Market, Asks, MatchedLoan}
use y_delta.Market.Engine.{SubVaults, Fill, take, reserve_in}
use y_delta.Market.Scan.{fuel_for, scan_asks-ends, scan_asks-keeps}
use y_delta.Market.Collateral.{sum_of, principal_of, collateral_of, mul_div_u64-le}
use y_delta.Market.Capacity.{AllWithin, reserve_in-Within}
use y_delta.Market.Promised.{Promised, nothing-Promised, loan-Promised}
use y_delta.Market.Refinance.{
  refinance_node, MatchP2PoolRefinanceArgs, P2PoolRefinanceCross, Refinance, screen_ask, fill_cross,
  is_refinanced, start_of, match_p2pool_residual_against_asks,
}
use y_delta.Market.Crossed.{screen_ask-Crossed, fill_cross-Wrote}

-- The principal of the reported crosses.
unfoldable pub crossed_principal : List P2PoolRefinanceCross → ℕ
crossed_principal [] = 0
crossed_principal (c ∷ cs) = c.filled_principal_atoms + crossed_principal cs

crossed_principal-append :
    (cs : List P2PoolRefinanceCross) (c : P2PoolRefinanceCross)
    → crossed_principal (cs ++ (c ∷ [])) ≡ crossed_principal cs + c.filled_principal_atoms
unfolding crossed_principal
crossed_principal-append [] c = omega arith
crossed_principal-append (d ∷ cs) c = omega (arith, crossed_principal-append cs c)

-- The state of a refinance that was asked for `args` and started with `queued` loans.
pub record Converted (args : MatchP2PoolRefinanceArgs) (queued : List MatchedLoan) (s : Refinance)
    : Type 0 where
  pub principal : s.remaining_principal + s.total_filled_principal ≡ args.principal_cap_atoms
  pub loans : principal_of s.market.matched_loans ≡ principal_of queued + s.total_filled_principal
  pub collateral :
      collateral_of s.market.matched_loans ≡ collateral_of queued + s.total_filled_collateral
  pub crosses : crossed_principal s.crosses ≡ s.total_filled_principal
  pub share :
      s.total_filled_collateral * args.principal_cap_atoms
      ≤ args.loan_collateral_atoms * s.total_filled_principal
  pub most : s.total_filled_collateral ≤ args.loan_collateral_atoms

module _ ⦃w : Uint256⦄ where
  step-Converted :
      (args : MatchP2PoolRefinanceArgs) (queued : List MatchedLoan) (maker : RestingOrder)
      (f : Fill) (s s' : Refinance)
      → Converted args queued s × AllWithin s.vault
      → screen_ask args maker s ≡ ok (take f)
      → fill_cross args maker s f ≡ ok s'
      → Converted args queued s' × AllWithin s'.vault
  unfolding sum_of
  step-Converted args queued maker f s s' (c, within) screened filled =
      let (t, _, _, _) = screen_ask-Crossed args maker s screened in
      let wrote = fill_cross-Wrote args maker s f filled in
      let o = t.shared in
      let id = (s.market.seats maker.trader_seat_index).sub_vault_id in
      let offer_eq = ap (λ x. x.idle) (t.offer) in
      let (part, pos) =
        mul_div_u64-le args.loan_collateral_atoms f.principal args.principal_cap_atoms
          (o.collateral) in
      let floor : f.collateral * args.principal_cap_atoms
          ≤ args.loan_collateral_atoms * f.principal =
        rw part
          (div-mul-le_self (args.loan_collateral_atoms * f.principal) args.principal_cap_atoms) in
      let more_principal = ap principal_of wrote.loans in
      let more_collateral = ap collateral_of wrote.loans in
      let more_crosses =
        ap crossed_principal wrote.crosses ∙ crossed_principal-append s.crosses _ in
      let converted : s'.remaining_principal + s'.total_filled_principal
          ≡ args.principal_cap_atoms =
        omega (arith, wrote.principal, wrote.filled, c.principal) in
      let share : s'.total_filled_collateral * args.principal_cap_atoms
          ≤ args.loan_collateral_atoms * s'.total_filled_principal =
        rw (wrote.collateral, wrote.filled)
          (omega (
            arith,
            add-mul s.total_filled_collateral f.collateral args.principal_cap_atoms,
            mul-add args.loan_collateral_atoms s.total_filled_principal f.principal,
            c.share,
            floor,
          )) in
      let bound : args.loan_collateral_atoms * s'.total_filled_principal
          ≤ args.loan_collateral_atoms * args.principal_cap_atoms =
        mul-le-mul_left args.loan_collateral_atoms (omega (arith, converted)) in
      (
        record {
          principal = converted;
          loans = omega (arith, more_principal, wrote.filled, c.loans);
          collateral = omega (arith, more_collateral, wrote.collateral, c.collateral);
          crosses = omega (arith, more_crosses, wrote.filled, c.crosses);
          share = share;
          most =
              le_of_mul-le-mul_right {k = args.principal_cap_atoms} (omega (arith, share, bound))
                pos;
        },
        reserve_in-Within (t.sub_vaults) id (f.principal) (subst AllWithin (t.has_vault) within)
            (omega (arith, o.principal, offer_eq)) (subst (λ x. x ≢ 0) offer_eq (o.some_idle))
            (subst (λ x. reserve_in x id f.principal ≡ ok (s'.vault)) (t.has_vault)
              (wrote.reserved)),
      )

  step-Promised :
      (args : MatchP2PoolRefinanceArgs) (m : Market) (vault : Option SubVaults)
      (maker : RestingOrder) (f : Fill) (s s' : Refinance)
      → Promised m vault s.market s.vault
      → screen_ask args maker s ≡ ok (take f)
      → fill_cross args maker s f ≡ ok s'
      → Promised m vault s'.market s'.vault
  step-Promised args m vault maker f s s' p screened filled =
      let (t, _, _, _) = screen_ask-Crossed args maker s screened in
      let wrote = fill_cross-Wrote args maker s f filled in
      loan-Promised m vault s.market s'.market (t.sub_vaults)
        (refinance_node args maker s.market f wrote.rate)
        (subst (Promised m vault s.market) (t.has_vault) p)
        (subst (λ x. x ≢ 0) (ap (λ x. x.idle) (t.offer)) (t.shared.some_idle))
        (subst
          (λ x.
            reserve_in x (s.market.seats maker.trader_seat_index).sub_vault_id f.principal
            ≡ ok (s'.vault))
          (t.has_vault) (wrote.reserved))
        wrote.loans wrote.ids

  module _ (asks : Asks) (args : MatchP2PoolRefinanceArgs) (m : Market)
      (vault : Option SubVaults) where
    -- The fuel of the scan is never used up.
    pub match_p2pool_residual_against_asks-ends :
        match_p2pool_residual_against_asks asks args m vault ≢ ok none
    unfolding match_p2pool_residual_against_asks
    match_p2pool_residual_against_asks-ends =
        scan_asks-ends asks is_refinanced (screen_ask args) (fill_cross args)
          (fuel_for asks asks.best_index) asks.best_index (start_of args m vault) (omega arith)

    -- A refinance converts at most the principal that it is asked to. The fixed loans that it queues and
    -- the crosses that it reports are for exactly what it converted, and the loans carry no more
    -- collateral than the loan from the pool had. If before it the deployed and encumbered atoms of
    -- every sub-vault are within its principal, so they are after it, and it has encumbered of every
    -- sub-vault exactly the principal of the loans it queued with that sub-vault as the lender.
    pub match_p2pool_residual_against_asks-Converted :
        {s : Refinance}
        → AllWithin vault
        → match_p2pool_residual_against_asks asks args m vault ≡ ok (some s)
        → Converted args m.matched_loans s × AllWithin s.vault × Promised m vault s.market s.vault
    unfolding match_p2pool_residual_against_asks crossed_principal
    match_p2pool_residual_against_asks-Converted {s} within e =
        scan_asks-keeps asks is_refinanced (screen_ask args) (fill_cross args)
          (λ s.
            Converted args m.matched_loans s
            × AllWithin s.vault
            × Promised m vault s.market s.vault)
          (λ i f s s' (c, within, p) _ screened filled.
            let (c', within') =
              step-Converted args m.matched_loans (asks.order_at i) f s s' (c, within) screened
                filled in
            (c', within', step-Promised args m vault (asks.order_at i) f s s' p screened filled))
          (fuel_for asks asks.best_index) asks.best_index (start_of args m vault) s
          (
            record {
              principal = omega arith;
              loans = omega arith;
              collateral = omega arith;
              crosses = omega arith;
              share = omega arith;
              most = omega arith;
            },
            within,
            nothing-Promised m vault,
          )
          e
