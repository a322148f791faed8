-- ===== src/Market/BidsBacked.antt =====
-- The walk of the resting bids keeps the collateral of every seat covered: `match_resting_bids` in
-- programs/ydelta/src/state/market_helpers.rs.
use y_delta.Prelude.{
  ℕ, ◌+◌, ◌<◌, ◌≡◌, min, refl, sym, ap, subst, ◌∙◌, true, false, inl, inr, ◌∷◌, ok, Bool-cases,
  ok-injective, >>=-eq-ok, ◌==◌, ◌⊎◌, ltb, arith, u64_mod, ok_or, arithmetic_overflow,
}
use y_delta.Prelude.Words
use y_delta.Math.Uint256.{Uint256}
use y_delta.Math.Scale.{mul_div_u64}
use y_delta.Loan.{bps_per_unit}
use y_delta.Order.{DataIndex, RestingOrder, bid, reduce}
use y_delta.Seat.{ClaimedSeat}
use y_delta.Seat.Balance.{unencumber_for_order, atoms_to_shares_at_snapshot}
use y_delta.Ltv.{required_collateral_at_ltv_cap}
use y_delta.Market.{Market, MatchedLoan}
use y_delta.Market.Engine.{insert_loan, count_loan, borrower_rate}
use y_delta.Market.Book.{Orders, release_order, with_seat}
use y_delta.Market.Bids.{
  MatchRestingBidsArgs, Walk, Outcome, skip, stop, leave, shrink, reserve_at, cap_of, node_of_bid,
  consume, prune, fill_bid, consumed_collateral, cross_bid,
}
use y_delta.Market.Backing.{
  shares, only, bid_claims, loan_claims, Covered, shares-add, atoms_to_shares-eq-ok,
  with_seat-cases, only-same, only-add, unencumber-bid, insert_loan-locks, count_loan-locks,
}

pub Outcome-cases :
    (v : Outcome)
    → (v ≡ skip)
      ⊎ (v ≡ stop)
      ⊎ ((s : Walk) × (v ≡ leave s))
      ⊎ ((s : Walk) × (o : RestingOrder) × (v ≡ shrink s o))
Outcome-cases skip = inl refl
Outcome-cases stop = inr (inl refl)
Outcome-cases (leave s) = inr (inr (inl (s, refl)))
Outcome-cases (shrink s o) = inr (inr (inr (s, o, refl)))

-- What the current bid's outcome must keep, over the bids behind it.
abbrev pub Kept : (DataIndex → ℕ) → DataIndex → Orders → Outcome → Type 0
Kept more i bids skip = Unit {0}
Kept more i bids stop = Unit {0}
Kept more i bids (leave s) = Covered more s.market bids
Kept more i bids (shrink s o) =
    Covered more s.market ((i, o) ∷ bids) × (o.collateral_atoms < u64_mod)

reduce-keeps :
    (o : RestingOrder) (amount : ℕ) {r : RestingOrder}
    → reduce o amount ≡ ok r
    → (r.trader_seat_index ≡ o.trader_seat_index)
      × (r.share_price_snapshot ≡ o.share_price_snapshot)
unfolding reduce
reduce-keeps o amount e = ground arith

module _ ⦃w : Uint256⦄ where
  -- What a release wrote.
  release_order-eq-ok :
      (m : Market) (o : RestingOrder) {m' : Market}
      → o.collateral_atoms < u64_mod
      → release_order m bid o ≡ ok m'
      → (seat : ClaimedSeat) × (seat.collateral_encumbered_shares
            + shares o.collateral_atoms o.share_price_snapshot
          ≡ (m.seats o.trader_seat_index).collateral_encumbered_shares)
        × (with_seat m o.trader_seat_index seat ≡ m')
  unfolding release_order
  release_order-eq-ok m o fits e =
      let price = o.share_price_snapshot in
      let (p, _, e₁) = >>=-eq-ok (atoms_to_shares_at_snapshot o.principal_atoms price) _ e in
      let (c, c_eq, e₂) = >>=-eq-ok (atoms_to_shares_at_snapshot o.collateral_atoms price) _ e₁ in
      let (seat, freed, e₃) =
        >>=-eq-ok (unencumber_for_order (m.seats o.trader_seat_index) bid p c) _ e₂ in
      let (c_is, _) = atoms_to_shares-eq-ok o.collateral_atoms price fits c_eq in
      (
        seat,
        omega (arith, c_is, unencumber-bid (m.seats o.trader_seat_index) p c freed),
        ok-injective e₃,
      )

  -- A bid that leaves the book with its shares released claims nothing more.
  pub release_order-Covered :
      (more : DataIndex → ℕ) (m : Market) (i : DataIndex) (o : RestingOrder) (bids : Orders)
      {m' : Market}
      → o.collateral_atoms < u64_mod
      → Covered more m ((i, o) ∷ bids)
      → release_order m bid o ≡ ok m'
      → Covered more m' bids
  unfolding bid_claims
  release_order-Covered more m i o bids {m'} fits covered e =
      let (seat, freed, same) = release_order-eq-ok m o fits e in
      let t = o.trader_seat_index in
      let price = o.share_price_snapshot in
      subst (λ x. Covered more x bids) same
        λ k.
          let (here, there) = with_seat-cases m t k seat in
          let before = covered k in
          elim (Bool-cases (k == t)) [
            | inl own ↦
                let (seat_is, k_is) = here own in
                let claim = only-same t k (shares o.collateral_atoms price) own in
                let locked = ap (λ j. (m.seats j).collateral_encumbered_shares) k_is in
                let now = ap (λ s. s.collateral_encumbered_shares) seat_is in
                omega (arith, before, claim, locked, now, freed)
            | inr other ↦
                let now = ap (λ s. s.collateral_encumbered_shares) (there other) in
                omega (arith, before, now)
          ]

  -- What `consume` leaves of the bid once the loan is in the market.
  consume-Kept :
      (more : DataIndex → ℕ) (s : Walk) (i : DataIndex) (o : RestingOrder) (bids : Orders)
      (amount coll : ℕ) {out : Outcome}
      → ((amount == o.principal_atoms) ≡ true → coll ≡ o.collateral_atoms)
      → o.collateral_atoms < u64_mod
      → ((c : ℕ)
          → c + coll ≡ o.collateral_atoms
          → Covered
              (λ k. more k + only o.trader_seat_index k (shares c o.share_price_snapshot))
              s.market
              bids)
      → consume s i o amount coll ≡ ok out
      → Kept more i bids out
  unfolding consume bid_claims
  consume-Kept more s i o bids amount coll {out} whole fits covered e =
      let (total, _, e₁) =
        >>=-eq-ok
          (ok_or (Words.checked_add u64_mod s.total_filled_principal amount) arithmetic_overflow) _
          e in
      elim (Bool-cases (amount == o.principal_atoms)) [
        | inl all ↦
            let used_up = covered 0 (omega (arith, whole all)) in
            subst (Kept more i bids) (ok-injective (rw all at e₁)) (λ k. omega (arith, used_up k))
        | inr part ↦
            let (r, r_eq, e₂) = >>=-eq-ok (reduce o amount) _ (rw part at e₁) in
            let (c, c_eq, e₃) =
              >>=-eq-ok (ok_or (Words.checked_sub o.collateral_atoms coll) arithmetic_overflow) _
                e₂ in
            let (trader, price) = reduce-keeps o amount r_eq in
            let left : c + coll ≡ o.collateral_atoms = ground (arith, c_eq) in
            let claim = λ (k : DataIndex).
              ap (λ x. only x k (shares c r.share_price_snapshot)) trader
              ∙ ap (λ x. only o.trader_seat_index k (shares c x)) price in
            let still = covered c left in
            subst (Kept more i bids) (ok-injective e₃)
              (λ k. omega (arith, still k, claim k), omega (arith, left, fits))
      ]

  -- The loan of a fill claims what the bid no longer does.
  minted-Covered :
      (more : DataIndex → ℕ) (m m₁ m₂ : Market) (node : MatchedLoan) (lender i : DataIndex)
      (o : RestingOrder) (bids : Orders) (c : ℕ)
      → insert_loan m node ≡ ok m₁
      → count_loan m₁ o.trader_seat_index lender ≡ ok m₂
      → node.borrower_seat_index ≡ o.trader_seat_index
      → node.borrower_collateral_share_price_snapshot_fp48 ≡ o.share_price_snapshot
      → c + node.collateral_atoms ≡ o.collateral_atoms
      → Covered more m ((i, o) ∷ bids)
      → Covered (λ k. more k + only o.trader_seat_index k (shares c o.share_price_snapshot)) m₂ bids
  unfolding bid_claims loan_claims
  minted-Covered more m m₁ m₂ node lender i o bids c inserted counted borrower price split covered
        k =
      let (loans₁, seats₁) = insert_loan-locks m node inserted in
      let (loans₂, locks₂) = count_loan-locks m₁ o.trader_seat_index lender counted in
      let t = o.trader_seat_index in
      let q = node.collateral_atoms in
      let p = o.share_price_snapshot in
      let claims = ap (λ ls. loan_claims ls k) (loans₂ ∙ loans₁) in
      let locks = locks₂ k ∙ ap (λ s. (s k).collateral_encumbered_shares) seats₁ in
      let claim =
        ap (λ x. only x k (shares q node.borrower_collateral_share_price_snapshot_fp48)) borrower
        ∙ ap (λ x. only t k (shares q x)) price in
      let parts = shares-add c q p in
      let whole = ap (λ n. shares n p) split in
      let shared =
        only-add t k (shares c p) (shares q p) (shares o.collateral_atoms p)
          (omega (arith, parts, whole)) in
      omega (arith, covered k, claims, locks, claim, shared)

  fill_bid-Kept :
      (args : MatchRestingBidsArgs) (more : DataIndex → ℕ) (s : Walk) (i : DataIndex)
      (o : RestingOrder) (bids : Orders) (amount coll : ℕ) {out : Outcome}
      → ((amount == o.principal_atoms) ≡ true → coll ≡ o.collateral_atoms)
      → o.collateral_atoms < u64_mod
      → Covered more s.market ((i, o) ∷ bids)
      → fill_bid args s i o amount coll ≡ ok out
      → Kept more i bids out
  unfolding fill_bid
  fill_bid-Kept args more s i o bids amount coll whole fits covered e =
      let (vault, _, e₁) = >>=-eq-ok (reserve_at s.vault args.ask_sub_vault_id amount) _ e in
      let (rate, _, e₂) =
        >>=-eq-ok (borrower_rate o.rate_bps args.ask_rate_bps args.fee_floor_bps) _ e₁ in
      let (fee, _, e₃) =
        >>=-eq-ok (mul_div_u64 amount args.origination_bps bps_per_unit false) _ e₂ in
      let node = node_of_bid args o s.market amount coll rate fee in
      let (m₁, inserted, e₄) = >>=-eq-ok (insert_loan s.market node) _ e₃ in
      let (m₂, counted, e₅) =
        >>=-eq-ok (count_loan m₁ o.trader_seat_index args.ask_seat_index) _ e₄ in
      consume-Kept more (record s { market = m₂; vault = vault }) i o bids amount coll whole fits
        (λ c split.
          minted-Covered more s.market m₁ m₂ node args.ask_seat_index i o bids c inserted counted
            refl refl split covered)
        e₅

  pub cross_bid-Kept :
      (args : MatchRestingBidsArgs) (more : DataIndex → ℕ) (s : Walk) (i : DataIndex)
      (o : RestingOrder) (bids : Orders) (idle : ℕ) {out : Outcome}
      → o.collateral_atoms < u64_mod
      → Covered more s.market ((i, o) ∷ bids)
      → cross_bid args s i o idle ≡ ok out
      → Kept more i bids out
  unfolding cross_bid
  cross_bid-Kept args more s i o bids idle {out} fits covered e =
      let amount = min o.principal_atoms idle in
      let (coll, coll_eq, e₁) = >>=-eq-ok (consumed_collateral o amount) _ e in
      let (required, _, e₂) =
        >>=-eq-ok
          (required_collateral_at_ltv_cap amount args.debt_oracle_price_fp48
            args.collateral_oracle_price_fp48 (cap_of args o) args.debt_mint_decimals
            args.collateral_mint_decimals)
          _ e₁ in
      let whole : (amount == o.principal_atoms) ≡ true → coll ≡ o.collateral_atoms =
        λ all. sym (ok-injective (rw all at coll_eq)) in
      elim (Bool-cases (ltb coll required)) [
        | inl short ↦ subst (Kept more i bids) (ok-injective (rw short at e₂)) tt
        | inr enough ↦
            fill_bid-Kept args more s i o bids amount coll whole fits covered (rw enough at e₂)
      ]

  pub prune-Kept :
      (more : DataIndex → ℕ) (s : Walk) (i : DataIndex) (o : RestingOrder) (bids : Orders)
      {out : Outcome}
      → o.collateral_atoms < u64_mod
      → Covered more s.market ((i, o) ∷ bids)
      → prune s i o ≡ ok out
      → Kept more i bids out
  unfolding prune
  prune-Kept more s i o bids fits covered e =
      let (m, released, e₁) = >>=-eq-ok (release_order s.market bid o) _ e in
      subst (Kept more i bids) (ok-injective e₁)
        (release_order-Covered more s.market i o bids fits covered released)
