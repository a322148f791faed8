-- ===== src/Market/Settled.antt =====
-- What becomes of the rest of a bid, exactly: `lock_collateral` and the `match` on the residual action
-- in `match_borrower_bid`, programs/ydelta/src/state/market_helpers.rs.
use y_delta.Prelude.{
  ℕ, ◌+◌, ◌<◌, ◌≡◌, refl, ap, subst, true, false, Option, inl, inr, Result, ok, err, Bool-cases,
  ok-injective, >>=-eq-ok, require-eq-ok, ◌==◌, leb, arith, u64_mod, u32_mod, ok_or,
  arithmetic_overflow, account_data_too_small,
}
use y_delta.Prelude.Words
use y_delta.Prelude.Lists.{List-cases}
use y_delta.Math.Uint256.{Uint256}
use y_delta.Math.Scale.{mul_div_u64}
use y_delta.Loan.{bps_per_unit}
use y_delta.Order.{DataIndex, bid, limit, new_primary}
use y_delta.Seat.Balance.{encumber_for_order, unencumber_for_order, atoms_to_shares_at_snapshot}
use y_delta.Ltv.{get_required_quote_collateral_to_back_debt}
use y_delta.Market.{Market}
use y_delta.Market.Engine.{SubVaults}
use y_delta.Market.Loop.{ResidualAction, drop, p2pool_borrow, rest, MatchResult}
use y_delta.Market.Collateral.{sum_of, principal_of, collateral_of}
use y_delta.Market.Book.{Book, insert_order, with_seat, rest_in_free_block, rest_order}
use y_delta.Market.Place.{
  PlaceOrderArgs, Placed, lock_collateral, borrow_residual, unlock_residual, dispose, rest_residual,
  p2pool_node,
}
use y_delta.Market.Backing.{
  shares, only, atoms_to_shares-eq-ok, unencumber-bid, encumber-bid, insert_loan-locks,
}
use y_delta.Market.Locks.{
  locked, bids_principal, bids_collateral, insert_order-sum, with_seat-locks, with_seat-unlocks,
}
use y_delta.Market.Residual.{ResidualAction-cases}

-- What is given back, lent by the pool and left to rest of an amount, for each action.
abbrev pub given_back : ResidualAction → ℕ → ℕ
given_back drop n = n
given_back p2pool_borrow n = 0
given_back rest n = 0

abbrev pub lent_by_pool : ResidualAction → ℕ → ℕ
lent_by_pool drop n = 0
lent_by_pool p2pool_borrow n = n
lent_by_pool rest n = 0

abbrev pub left_to_rest : ResidualAction → ℕ → ℕ
left_to_rest drop n = 0
left_to_rest p2pool_borrow n = 0
left_to_rest rest n = n

abbrev pub result_in : Placed → MatchResult
result_in (b, vault, r) = r.match_result

-- From the book `b`, with the result `r`: the loan from the pool, the resting bid and the unlocked
-- shares are for what was left, whichever of them there is.
pub record Disposed (args : PlaceOrderArgs) (b : Book) (r : MatchResult) (p : Placed) : Type 0 where
  pub result : result_in p ≡ r
  pub loans_principal :
      principal_of (p.0).market.matched_loans
      ≡ principal_of b.market.matched_loans + lent_by_pool r.residual_action r.remaining_principal
  pub loans_collateral :
      collateral_of (p.0).market.matched_loans
      ≡ collateral_of b.market.matched_loans + lent_by_pool r.residual_action r.remaining_collateral
  pub resting_principal :
      bids_principal (p.0).bids
      ≡ bids_principal b.bids + left_to_rest r.residual_action r.remaining_principal
  pub resting_collateral :
      bids_collateral (p.0).bids
      ≡ bids_collateral b.bids + left_to_rest r.residual_action r.remaining_collateral
  pub locks :
      (k : DataIndex)
      → locked (p.0).market k
          + only args.taker_seat_index k (
              shares
                (given_back r.residual_action r.remaining_collateral)
                args.share_price_snapshot_fp48)
        ≡ locked b.market k

no_shares : (args : PlaceOrderArgs) → shares 0 args.share_price_snapshot_fp48 ≡ 0
no_shares args = ground arith

only-nothing : (t k : DataIndex) → only t k 0 ≡ 0
only-nothing t k = ground arith

module _ ⦃w : Uint256⦄ (args : PlaceOrderArgs) where
  pub lock_collateral-locks :
      (m : Market) {m' : Market}
      → args.collateral_atoms < u64_mod
      → lock_collateral args m ≡ ok m'
      → (m'.matched_loans ≡ m.matched_loans)
        × ((k : DataIndex)
            → locked m' k
              ≡ locked m k
                + only args.taker_seat_index k
                    (shares args.collateral_atoms args.share_price_snapshot_fp48))
  unfolding lock_collateral
  lock_collateral-locks m fits e =
      let price = args.share_price_snapshot_fp48 in
      let t = args.taker_seat_index in
      let n = shares args.collateral_atoms price in
      let (p, _, e₁) = >>=-eq-ok (atoms_to_shares_at_snapshot args.principal_atoms price) _ e in
      let (c, c_eq, e₂) =
        >>=-eq-ok (atoms_to_shares_at_snapshot args.collateral_atoms price) _ e₁ in
      let (seat, grown, e₃) = >>=-eq-ok (encumber_for_order (m.seats t) bid p c) _ e₂ in
      let (c_is, _) = atoms_to_shares-eq-ok args.collateral_atoms price fits c_eq in
      let more = encumber-bid (m.seats t) p c grown in
      subst
        (λ x.
          (x.matched_loans ≡ m.matched_loans)
          × ((k : DataIndex) → locked x k ≡ locked m k + only t k n))
        (ok-injective e₃) (refl, with_seat-locks m t seat n (omega (arith, c_is, more)))

  unlock_residual-locks :
      (m : Market) (principal coll : ℕ) {m' : Market}
      → coll < u64_mod
      → unlock_residual args m principal coll ≡ ok m'
      → (m'.matched_loans ≡ m.matched_loans)
        × ((k : DataIndex)
            → locked m' k
                + only args.taker_seat_index k (shares coll args.share_price_snapshot_fp48)
              ≡ locked m k)
  unfolding unlock_residual
  unlock_residual-locks m principal coll fits e =
      let price = args.share_price_snapshot_fp48 in
      let t = args.taker_seat_index in
      let n = shares coll price in
      let (p, _, e₁) = >>=-eq-ok (atoms_to_shares_at_snapshot principal price) _ e in
      let (c, c_eq, e₂) = >>=-eq-ok (atoms_to_shares_at_snapshot coll price) _ e₁ in
      let (seat, freed, e₃) = >>=-eq-ok (unencumber_for_order (m.seats t) bid p c) _ e₂ in
      let (c_is, _) = atoms_to_shares-eq-ok coll price fits c_eq in
      let fallen = unencumber-bid (m.seats t) p c freed in
      subst
        (λ x.
          (x.matched_loans ≡ m.matched_loans)
          × ((k : DataIndex) → locked x k + only t k n ≡ locked m k))
        (ok-injective e₃) (refl, with_seat-unlocks m t seat n (omega (arith, c_is, fallen)))

  borrow_residual-locks :
      (m : Market) (principal coll : ℕ) {m' : Market}
      → borrow_residual args m principal coll ≡ ok m'
      → (principal_of m'.matched_loans ≡ principal_of m.matched_loans + principal)
        × (collateral_of m'.matched_loans ≡ collateral_of m.matched_loans + coll)
        × ((k : DataIndex) → locked m' k ≡ locked m k)
  unfolding borrow_residual sum_of
  borrow_residual-locks m principal coll e =
      let t = args.taker_seat_index in
      let (required, _, e₁) =
        >>=-eq-ok
          (get_required_quote_collateral_to_back_debt principal args.debt_oracle_price_fp48
            args.collateral_oracle_price_fp48 args.debt_liability_weight_init_fp48
            args.collateral_asset_weight_init_fp48 m.debt_mint_decimals m.collateral_mint_decimals)
          _ e in
      let (_, e₂) = require-eq-ok (leb required coll) _ e₁ in
      let (count, _, e₃) =
        >>=-eq-ok
          (ok_or (Words.checked_add u32_mod (m.seats t).open_borrow_count 1) arithmetic_overflow) _
          e₂ in
      let (fee, _, e₄) =
        >>=-eq-ok (mul_div_u64 principal m.fee_config.origination_bps bps_per_unit false) _ e₃ in
      let seat = record (m.seats t) { open_borrow_count = count } in
      let (loans, seats) =
        insert_loan-locks (with_seat m t seat) (p2pool_node args m principal coll fee) e₄ in
      (
        omega (arith, ap principal_of loans),
        omega (arith, ap collateral_of loans),
        λ k. omega (
          arith,
          ap (λ s. (s k).collateral_encumbered_shares) seats,
          with_seat-locks m t seat 0 (omega arith) k,
          only-nothing t k,
        ),
      )

  rest_residual-locks :
      (b : Book) (sequence principal coll : ℕ) {b' : Book} {i : DataIndex}
      → rest_residual args b sequence principal coll ≡ ok (b', i)
      → (b'.market.matched_loans ≡ b.market.matched_loans)
        × (b'.market.seats ≡ b.market.seats)
        × (bids_principal b'.bids ≡ bids_principal b.bids + principal)
        × (bids_collateral b'.bids ≡ bids_collateral b.bids + coll)
  unfolding rest_in_free_block rest_order
  rest_residual-locks b sequence principal coll {b'} {i} e =
      let o =
        new_primary args.taker_seat_index sequence bid limit args.rate_bps args.term_seconds
          principal coll args.last_valid_unix_ts 0 args.ltv_buffer_bps
          args.share_price_snapshot_fp48 in
      elim (List-cases b.market.free_list) [
        | inl full ↦
            let e₁ : ◌≡◌ {A = Result (Book × DataIndex)} (err account_data_too_small) (ok (b', i)) =
              rw (rest_in_free_block, full) at e in
            cc
        | inr (j, others, free) ↦
            let bids' = insert_order j o b.bids in
            let b'' = record b { market = record b.market { free_list = others }; bids = bids' } in
            let e₁ : ok (b'', j) ≡ ok (b', i) = rw (rest_in_free_block, free) at e in
            subst
              (λ x.
                (x.market.matched_loans ≡ b.market.matched_loans)
                × (x.market.seats ≡ b.market.seats)
                × (bids_principal x.bids ≡ bids_principal b.bids + principal)
                × (bids_collateral x.bids ≡ bids_collateral b.bids + coll))
              (ap (λ x. x.0) (ok-injective e₁))
              (
                refl,
                refl,
                omega (arith, insert_order-sum (λ o. o.principal_atoms) j o b.bids),
                omega (arith, insert_order-sum (λ o. o.collateral_atoms) j o b.bids),
              )
      ]

  pub dispose-Disposed :
      (b : Book) (vault : Option SubVaults) (sequence : ℕ) (r : MatchResult) {p : Placed}
      → r.remaining_collateral < u64_mod
      → ((r.remaining_principal == 0) ≡ true
          → (r.residual_action ≡ drop) × (r.remaining_collateral ≡ 0))
      → dispose args b vault sequence r ≡ ok p
      → Disposed args b r p
  unfolding dispose
  dispose-Disposed b vault sequence r {p} fits nothing e =
      let left = r.remaining_principal in
      let coll = r.remaining_collateral in
      let t = args.taker_seat_index in
      let to_end = λ (q : Placed) (d : Disposed args b r q) (same : ok q ≡ ok p).
        subst (Disposed args b r) (ok-injective same) d in
      elim (Bool-cases (left == 0)) [
        | inl all ↦
            let (drops, spent) = nothing all in
            to_end _
              (record {
                result = refl;
                loans_principal = rw drops (omega arith);
                loans_collateral = rw drops (omega arith);
                resting_principal = rw drops (omega arith);
                resting_collateral = rw drops (omega arith);
                locks = λ k.
                    rw (drops, spent)
                      (omega (arith, ap (only t k) (no_shares args), only-nothing t k));
              })
              (rw (dispose, all) at e)
        | inr some_left ↦ elim (ResidualAction-cases r.residual_action) [
          | inl drops ↦
              let (m, m_eq, e₁) =
                >>=-eq-ok (unlock_residual args b.market left coll) _
                  (rw (dispose, some_left, drops) at e) in
              let (loans, locks) = unlock_residual-locks b.market left coll fits m_eq in
              to_end _
                (record {
                  result = refl;
                  loans_principal = rw drops (omega (arith, ap principal_of loans));
                  loans_collateral = rw drops (omega (arith, ap collateral_of loans));
                  resting_principal = rw drops (omega arith);
                  resting_collateral = rw drops (omega arith);
                  locks = λ k. rw drops (locks k);
                })
                e₁
          | inr (inl borrows) ↦
              let (m, m_eq, e₁) =
                >>=-eq-ok (borrow_residual args b.market left coll) _
                  (rw (dispose, some_left, borrows) at e) in
              let (principal, collateral, locks) = borrow_residual-locks b.market left coll m_eq in
              to_end _
                (record {
                  result = refl;
                  loans_principal = rw borrows principal;
                  loans_collateral = rw borrows collateral;
                  resting_principal = rw borrows (omega arith);
                  resting_collateral = rw borrows (omega arith);
                  locks = λ k.
                      rw borrows
                        (omega (arith, locks k, ap (only t k) (no_shares args), only-nothing t k));
                })
                e₁
          | inr (inr rests) ↦
              let ((b', i), b'_eq, e₁) =
                >>=-eq-ok (rest_residual args b sequence left coll) _
                  (rw (dispose, some_left, rests) at e) in
              let (loans, seats, principal, collateral) =
                rest_residual-locks b sequence left coll b'_eq in
              to_end _
                (record {
                  result = refl;
                  loans_principal = rw rests (omega (arith, ap principal_of loans));
                  loans_collateral = rw rests (omega (arith, ap collateral_of loans));
                  resting_principal = rw rests principal;
                  resting_collateral = rw rests collateral;
                  locks = λ k. rw rests (
                      omega (
                        arith,
                        ap (λ s. (s k).collateral_encumbered_shares) seats,
                        ap (only t k) (no_shares args),
                        only-nothing t k,
                      ));
                })
                e₁
        ]
      ]
