-- ===== src/Market/PlaceBacked.antt =====
-- Placing a bid keeps the collateral of every seat covered: `match_borrower_bid` in
-- programs/ydelta/src/state/market_helpers.rs.
use Prim.Native.Nat.{Ordering}
use y_delta.Prelude.{
  ℕ, ◌+◌, ◌-◌, ◌*◌, ◌≤◌, ◌<◌, ◌≡◌, refl, sym, ap, subst, ◌∙◌, false, [], ◌∷◌, ok, >>=-eq-ok, arith,
  u64_mod,
}
use y_delta.Math.Uint256.{Uint256}
use y_delta.Math.Scale.{mul_div_u64}
use y_delta.Math.Fp48.{Fp48}
use y_delta.Loan.{bps_per_unit}
use y_delta.Order.{DataIndex, RestingOrder, cmp}
use y_delta.Market.Engine.{
  MatchArgs, MatchState, Fill, take, screen, fill, reserve_in, borrower_rate, insert_loan,
  count_loan, count_fill, node_of,
}
use y_delta.Market.Taken.{screen-Taken, fill-Filled}
use y_delta.Market.Collateral.{fill_collateral}
use y_delta.Market.Book.{Orders, insert_order}
use y_delta.Market.Backing.{
  shares, only, bid_claims, loan_claims, Covered, AllFit, shares-add, only-add, insert_loan-locks,
  count_loan-locks,
}

-- A bid that comes to rest adds its own claim.
pub insert_order-claims :
    (i : DataIndex) (o : RestingOrder) (bids : Orders) (k : DataIndex)
    → bid_claims (insert_order i o bids) k
      ≡ only o.trader_seat_index k (shares o.collateral_atoms o.share_price_snapshot)
        + bid_claims bids k
unfolding insert_order bid_claims
insert_order-claims i o [] k = refl
insert_order-claims i o ((j, p) ∷ bids) k =
    elim (cmp o p)
      as (λ c.
        bid_claims
          (elim c [ Ordering.gt ↦ (i, o) ∷ (j, p) ∷ bids | _ ↦ (j, p) ∷ insert_order i o bids ]) k
        ≡ only o.trader_seat_index k (shares o.collateral_atoms o.share_price_snapshot)
          + bid_claims ((j, p) ∷ bids) k) [
            | Ordering.gt ↦ refl
            | Ordering.lt ↦ omega (arith, insert_order-claims i o bids k)
            | Ordering.eq ↦ omega (arith, insert_order-claims i o bids k)
          ]

pub insert_order-AllFit :
    (i : DataIndex) (o : RestingOrder) (bids : Orders)
    → o.collateral_atoms < u64_mod
    → AllFit bids
    → AllFit (insert_order i o bids)
unfolding insert_order
insert_order-AllFit i o [] fits fit = (fits, fit)
insert_order-AllFit i o ((j, p) ∷ bids) fits fit =
    elim (cmp o p)
      as (λ c.
        AllFit
          (elim c [ Ordering.gt ↦ (i, o) ∷ (j, p) ∷ bids | _ ↦ (j, p) ∷ insert_order i o bids ])) [
            | Ordering.gt ↦ (fits, fit)
            | Ordering.lt ↦ (fit.0, insert_order-AllFit i o bids fits fit.1)
            | Ordering.eq ↦ (fit.0, insert_order-AllFit i o bids fits fit.1)
          ]

module _ ⦃w : Uint256⦄ where
  -- A fill of the asks locks and frees nothing.
  pub fill-locks :
      (args : MatchArgs) (maker : RestingOrder) (s s' : MatchState) (f : Fill)
      → fill args maker s f ≡ ok s'
      → (k : DataIndex)
      → (s'.market.seats k).collateral_encumbered_shares
        ≡ (s.market.seats k).collateral_encumbered_shares
  unfolding fill count_fill
  fill-locks args maker s s' f e k =
      let id = (s.market.seats maker.trader_seat_index).sub_vault_id in
      let (u, _, e1) = >>=-eq-ok (reserve_in s.vault id f.principal) _ e in
      let (r, _, e2) =
        >>=-eq-ok (borrower_rate args.rate_bps maker.rate_bps args.fee_floor_bps) _ e1 in
      let (o, _, e3) =
        >>=-eq-ok (mul_div_u64 f.principal s.market.fee_config.origination_bps bps_per_unit false) _
          e2 in
      let node = node_of args maker s.market f r o in
      let (m₁, inserted, e4) = >>=-eq-ok (insert_loan s.market node) _ e3 in
      let (m₂, counted, e5) =
        >>=-eq-ok (count_loan m₁ args.taker_seat_index maker.trader_seat_index) _ e4 in
      let (_, seats₁) = insert_loan-locks s.market node inserted in
      let (_, locks₂) = count_loan-locks m₁ args.taker_seat_index maker.trader_seat_index counted in
      let same : s'.market ≡ m₂ = ground (arith, e5) in
      ap (λ m. (m.seats k).collateral_encumbered_shares) same
      ∙ locks₂ k
      ∙ ap (λ s. (s k).collateral_encumbered_shares) seats₁

  -- What is left of the bid's collateral still counts as a claim on the taker's seat.
  abbrev pub with_rest : (DataIndex → ℕ) → DataIndex → Fp48 → ℕ → DataIndex → ℕ
  with_rest more taker price left k = more k + only taker k (shares left price)

  pub record Backed (args : MatchArgs) (more : DataIndex → ℕ) (bids : Orders) (s : MatchState)
      : Type 0 where
    pub covered :
        Covered
          (with_rest more args.taker_seat_index args.taker_share_price_snapshot_fp48
            s.remaining_collateral)
          s.market
          bids
    pub pro_rata :
        s.remaining_principal * args.collateral_atoms
        ≤ s.remaining_collateral * args.principal_atoms
    pub within : s.remaining_collateral ≤ args.collateral_atoms

  pub step-Backed :
      (args : MatchArgs) (more : DataIndex → ℕ) (bids : Orders) (maker : RestingOrder) (f : Fill)
      (s s' : MatchState)
      → Backed args more bids s
      → screen args maker s ≡ ok (take f)
      → fill args maker s f ≡ ok s'
      → Backed args more bids s'
  unfolding loan_claims
  step-Backed args more bids maker f s s' b screened filled =
      let taken = screen-Taken args maker s screened in
      let wrote = fill-Filled args maker s f filled in
      let price = args.taker_share_price_snapshot_fp48 in
      let t = args.taker_seat_index in
      let (le, rest_backed) = fill_collateral args s f b.pro_rata (taken.on_offer) in
      let left = s.remaining_collateral - f.collateral in
      let parts = shares-add left f.collateral price in
      let split : left + f.collateral ≡ s.remaining_collateral = omega (arith, le) in
      let whole = ap (λ n. shares n price) split in
      let left_eq = wrote.collateral in
      record {
        covered = λ k.
            let locks = fill-locks args maker s s' f filled k in
            let claims = ap (λ ls. loan_claims ls k) wrote.loans in
            let shared =
              only-add t k (shares left price) (shares f.collateral price)
                (shares s.remaining_collateral price) (omega (arith, parts, whole)) in
            let claim = ap (λ n. only t k (shares n price)) left_eq in
            omega (arith, b.covered k, locks, claims, shared, claim);
        pro_rata =
            subst (λ x. x * args.collateral_atoms ≤ s'.remaining_collateral * args.principal_atoms)
              (omega (arith, wrote.principal))
              (subst
                (λ x.
                  (s.remaining_principal - f.principal) * args.collateral_atoms
                  ≤ x * args.principal_atoms)
                (sym left_eq) rest_backed);
        within = omega (arith, left_eq, b.within);
      }
