-- ===== src/Market/Residual.antt =====
-- The first and the last step of placing a bid, the lock of its collateral and what becomes of the
-- rest: `match_borrower_bid` in programs/ydelta/src/state/market_helpers.rs.
use y_delta.Prelude.{
  ℕ, ◌<◌, ◌≡◌, refl, ap, subst, false, Option, inl, inr, Result, ok, err, Bool-cases, ok-injective,
  >>=-eq-ok, require-eq-ok, ◌==◌, leb, arith, u64_mod, u32_mod, ok_or, arithmetic_overflow, ◌⊎◌,
  account_data_too_small,
}
use y_delta.Prelude.Words
use y_delta.Prelude.Lists.{List-cases}
use y_delta.Math.Uint256.{Uint256}
use y_delta.Math.Scale.{mul_div_u64}
use y_delta.Loan.{bps_per_unit}
use y_delta.Order.{DataIndex, bid, limit, new_primary}
use y_delta.Seat.Balance.{encumber_for_order, unencumber_for_order, atoms_to_shares_at_snapshot}
use y_delta.Ltv.{get_required_quote_collateral_to_back_debt}
use y_delta.Market.{Market}
use y_delta.Market.Engine.{SubVaults}
use y_delta.Market.Loop.{ResidualAction, drop, p2pool_borrow, rest, MatchResult}
use y_delta.Market.Book.{Book, Orders, insert_order, rest_order, with_seat, rest_in_free_block}
use y_delta.Market.Place.{
  PlaceOrderArgs, Placed, lock_collateral, borrow_residual, unlock_residual, dispose, rest_residual,
  p2pool_node,
}
use y_delta.Market.Backing.{
  shares, loan_claims, Covered, AllFit, atoms_to_shares-eq-ok, locks_more, locks_less,
  unencumber-bid, encumber-bid, insert_loan-locks,
}
use y_delta.Market.PlaceBacked.{with_rest, insert_order-claims, insert_order-AllFit}

pub ResidualAction-cases : (a : ResidualAction) → (a ≡ drop) ⊎ (a ≡ p2pool_borrow) ⊎ (a ≡ rest)
ResidualAction-cases drop = inl refl
ResidualAction-cases p2pool_borrow = inr (inl refl)
ResidualAction-cases rest = inr (inr refl)

module _ ⦃w : Uint256⦄ (args : PlaceOrderArgs) (more : DataIndex → ℕ) where
  -- The claim on the taker's seat of an amount of the bid's collateral.
  abbrev pub claim_of : ℕ → DataIndex → ℕ
  claim_of left = with_rest more args.taker_seat_index args.share_price_snapshot_fp48 left

  pub lock_collateral-Covered :
      (m : Market) (bids : Orders) {m' : Market}
      → args.collateral_atoms < u64_mod
      → Covered more m bids
      → lock_collateral args m ≡ ok m'
      → Covered (claim_of args.collateral_atoms) m' bids
  unfolding lock_collateral
  lock_collateral-Covered m bids fits covered e =
      let price = args.share_price_snapshot_fp48 in
      let t = args.taker_seat_index in
      let n = shares args.collateral_atoms price in
      let (p, _, e₁) = >>=-eq-ok (atoms_to_shares_at_snapshot args.principal_atoms price) _ e in
      let (c, c_eq, e₂) =
        >>=-eq-ok (atoms_to_shares_at_snapshot args.collateral_atoms price) _ e₁ in
      let (seat, locked, e₃) = >>=-eq-ok (encumber_for_order (m.seats t) bid p c) _ e₂ in
      let (c_is, _) = atoms_to_shares-eq-ok args.collateral_atoms price fits c_eq in
      let grown = encumber-bid (m.seats t) p c locked in
      subst (λ x. Covered (claim_of args.collateral_atoms) x bids) (ok-injective e₃)
        (locks_more more m t seat bids n (omega (arith, c_is, grown)) covered)

  -- What was not lent goes back to the free bucket.
  pub unlock_residual-Covered :
      (m : Market) (bids : Orders) (principal coll : ℕ) {m' : Market}
      → coll < u64_mod
      → Covered (claim_of coll) m bids
      → unlock_residual args m principal coll ≡ ok m'
      → Covered more m' bids
  unfolding unlock_residual
  unlock_residual-Covered m bids principal coll fits covered e =
      let price = args.share_price_snapshot_fp48 in
      let t = args.taker_seat_index in
      let (p, _, e₁) = >>=-eq-ok (atoms_to_shares_at_snapshot principal price) _ e in
      let (c, c_eq, e₂) = >>=-eq-ok (atoms_to_shares_at_snapshot coll price) _ e₁ in
      let (seat, freed, e₃) = >>=-eq-ok (unencumber_for_order (m.seats t) bid p c) _ e₂ in
      let (c_is, _) = atoms_to_shares-eq-ok coll price fits c_eq in
      let fallen = unencumber-bid (m.seats t) p c freed in
      subst (λ x. Covered more x bids) (ok-injective e₃)
        (locks_less more m t seat bids (shares coll price) (omega (arith, c_is, fallen)) covered)

  -- A fallback loan takes over the claim.
  borrow_residual-Covered :
      (m : Market) (bids : Orders) (principal coll : ℕ) {m' : Market}
      → Covered (claim_of coll) m bids
      → borrow_residual args m principal coll ≡ ok m'
      → Covered more m' bids
  unfolding borrow_residual loan_claims
  borrow_residual-Covered m bids principal coll covered e k =
      let t = args.taker_seat_index in
      let (required, _, e₁) =
        >>=-eq-ok
          (get_required_quote_collateral_to_back_debt principal args.debt_oracle_price_fp48
            args.collateral_oracle_price_fp48 args.debt_liability_weight_init_fp48
            args.collateral_asset_weight_init_fp48 m.debt_mint_decimals m.collateral_mint_decimals)
          _ e in
      let (_, e₂) = require-eq-ok (leb required coll) _ e₁ in
      let (count, _, e₃) =
        >>=-eq-ok
          (ok_or (Words.checked_add u32_mod (m.seats t).open_borrow_count 1) arithmetic_overflow) _
          e₂ in
      let (fee, _, e₄) =
        >>=-eq-ok (mul_div_u64 principal m.fee_config.origination_bps bps_per_unit false) _ e₃ in
      let seat = record (m.seats t) { open_borrow_count = count } in
      let (loans, seats) =
        insert_loan-locks (with_seat m t seat) (p2pool_node args m principal coll fee) e₄ in
      let claims = ap (λ ls. loan_claims ls k) loans in
      let locks = ap (λ s. (s k).collateral_encumbered_shares) seats in
      let counted = locks_more (claim_of coll) m t seat bids 0 (omega arith) covered k in
      omega (arith, counted, claims, locks)

  abbrev pub Good : Book → Type 0
  Good b = Covered more b.market b.bids × AllFit b.bids

  -- A bid that comes to rest takes over the claim.
  rest_residual-Good :
      (b : Book) (sequence principal coll : ℕ) {b' : Book} {i : DataIndex}
      → coll < u64_mod
      → AllFit b.bids
      → Covered (claim_of coll) b.market b.bids
      → rest_residual args b sequence principal coll ≡ ok (b', i)
      → Good b'
  unfolding rest_in_free_block rest_order
  rest_residual-Good b sequence principal coll {b'} {i} fits fit covered e =
      let o =
        new_primary args.taker_seat_index sequence bid limit args.rate_bps args.term_seconds
          principal coll args.last_valid_unix_ts 0 args.ltv_buffer_bps
          args.share_price_snapshot_fp48 in
      elim (List-cases b.market.free_list) [
        | inl full ↦
            let e₁ : ◌≡◌ {A = Result (Book × DataIndex)} (err account_data_too_small) (ok (b', i)) =
              rw (rest_in_free_block, full) at e in
            cc
        | inr (j, others, free) ↦
            let bids' = insert_order j o b.bids in
            let b'' = record b { market = record b.market { free_list = others }; bids = bids' } in
            let e₁ : ok (b'', j) ≡ ok (b', i) = rw (rest_in_free_block, free) at e in
            subst Good (ap (λ x. x.0) (ok-injective e₁)) (
              λ k. omega (arith, covered k, insert_order-claims j o b.bids k),
              insert_order-AllFit j o b.bids fits fit,
            )
      ]

  pub dispose-Good :
      (b : Book) (vault : Option SubVaults) (sequence : ℕ) (r : MatchResult) {p : Placed}
      → r.remaining_collateral < u64_mod
      → AllFit b.bids
      → Covered (claim_of r.remaining_collateral) b.market b.bids
      → dispose args b vault sequence r ≡ ok p
      → Good p.0
  unfolding dispose
  dispose-Good b vault sequence r {p} fits fit covered e =
      let left = r.remaining_principal in
      let coll = r.remaining_collateral in
      let first = λ (q : Placed) (same : ok q ≡ ok p). ap (λ x. x.0) (ok-injective same) in
      elim (Bool-cases (left == 0)) [
        | inl all ↦
            subst Good (first _ (rw (dispose, all) at e)) (λ k. omega (arith, covered k), fit)
        | inr some_left ↦ elim (ResidualAction-cases r.residual_action) [
          | inl drops ↦
              let (m, m_eq, e₁) =
                >>=-eq-ok (unlock_residual args b.market left coll) _
                  (rw (dispose, some_left, drops) at e) in
              subst Good (first _ e₁)
                (unlock_residual-Covered b.market b.bids left coll fits covered m_eq, fit)
          | inr (inl borrows) ↦
              let (m, m_eq, e₁) =
                >>=-eq-ok (borrow_residual args b.market left coll) _
                  (rw (dispose, some_left, borrows) at e) in
              subst Good (first _ e₁)
                (borrow_residual-Covered b.market b.bids left coll covered m_eq, fit)
          | inr (inr rests) ↦
              let ((b', i), b'_eq, e₁) =
                >>=-eq-ok (rest_residual args b sequence left coll) _
                  (rw (dispose, some_left, rests) at e) in
              subst Good (first _ e₁)
                (rest_residual-Good b sequence left coll fits fit covered b'_eq)
        ]
      ]
