-- ===== src/Market/BidsSettled.antt =====
-- What one bid of the walk turns into, exactly: `match_resting_bids` in
-- programs/ydelta/src/state/market_helpers.rs.
use y_delta.Prelude.{
  ℕ, ◌+◌, ◌<◌, ◌≡◌, min, refl, sym, ap, subst, ◌∙◌, true, inl, inr, ok, Bool-cases, ok-injective,
  >>=-eq-ok, ◌==◌, ==→≡, ltb, arith, u64_mod, ok_or, arithmetic_overflow, false,
}
use y_delta.Prelude.Words
use y_delta.Prelude.Int.{ℤ}
use y_delta.Math.Uint256.{Uint256}
use y_delta.Math.Scale.{mul_div_u64}
use y_delta.Loan.{bps_per_unit}
use y_delta.Order.{DataIndex, RestingOrder, bid, reduce, is_expired}
use y_delta.Ltv.{required_collateral_at_ltv_cap}
use y_delta.Market.Engine.{insert_loan, count_loan, borrower_rate, offer_of}
use y_delta.Market.Collateral.{sum_of, principal_of, collateral_of}
use y_delta.Market.Book.{release_order}
use y_delta.Market.Bids.{
  MatchRestingBidsArgs, Walk, Outcome, skip, stop, leave, shrink, reserve_at, cap_of, node_of_bid,
  consume, prune, fill_bid, consumed_collateral, cross_bid, visit,
}
use y_delta.Market.Backing.{shares, only, insert_loan-locks, count_loan-locks}
use y_delta.Market.Locks.{locked, release_order-unlocks}

-- From `s` to `s'`, the loans that were queued are for `principal` and `coll`, all of it filled, and
-- no lock changed.
pub record Lent (s s' : Walk) (principal coll : ℕ) : Type 0 where
  pub filled : s'.total_filled_principal ≡ s.total_filled_principal + principal
  pub principal_lent :
      principal_of s'.market.matched_loans ≡ principal_of s.market.matched_loans + principal
  pub collateral_lent :
      collateral_of s'.market.matched_loans ≡ collateral_of s.market.matched_loans + coll
  pub locks : (k : DataIndex) → locked s'.market k ≡ locked s.market k

-- The bid `o` expired, and its owner has all of its shares back.
pub record Released (now : ℤ) (o : RestingOrder) (s s' : Walk) : Type 0 where
  pub expired : is_expired o now ≡ true
  pub filled : s'.total_filled_principal ≡ s.total_filled_principal
  pub loans : s'.market.matched_loans ≡ s.market.matched_loans
  pub locks :
      (k : DataIndex)
      → locked s'.market k
          + only o.trader_seat_index k (shares o.collateral_atoms o.share_price_snapshot)
        ≡ locked s.market k

-- A bid that leaves the book was released or lent in whole; one that shrinks was lent in part.
pub data Turned (now : ℤ) (o : RestingOrder) (s : Walk) : Outcome → Type 0 where
  skips : Turned now o s skip
  stops : Turned now o s stop
  expires : {s' : Walk} → Released now o s s' → Turned now o s (leave s')
  is_lent : {s' : Walk} → Lent s s' o.principal_atoms o.collateral_atoms → Turned now o s (leave s')
  is_part_lent :
      {s' : Walk} {o' : RestingOrder} (principal coll : ℕ)
      → Lent s s' principal coll
      → o'.principal_atoms + principal ≡ o.principal_atoms
      → o'.collateral_atoms + coll ≡ o.collateral_atoms
      → Turned now o s (shrink s' o')

reduce-takes :
    (o : RestingOrder) (amount : ℕ) {r : RestingOrder}
    → reduce o amount ≡ ok r
    → r.principal_atoms + amount ≡ o.principal_atoms
unfolding reduce
reduce-takes o amount e = ground arith

module _ ⦃w : Uint256⦄ (now : ℤ) where
  consume-Turned :
      (s₀ s : Walk) (i : DataIndex) (o : RestingOrder) (amount coll : ℕ) {out : Outcome}
      → ((amount == o.principal_atoms) ≡ true → coll ≡ o.collateral_atoms)
      → s.total_filled_principal ≡ s₀.total_filled_principal
      → principal_of s.market.matched_loans ≡ principal_of s₀.market.matched_loans + amount
      → collateral_of s.market.matched_loans ≡ collateral_of s₀.market.matched_loans + coll
      → ((k : DataIndex) → locked s.market k ≡ locked s₀.market k)
      → consume s i o amount coll ≡ ok out
      → Turned now o s₀ out
  unfolding consume
  consume-Turned s₀ s i o amount coll {out} whole filled principal collateral locks e =
      let (total, total_eq, e₁) =
        >>=-eq-ok
          (ok_or (Words.checked_add u64_mod s.total_filled_principal amount) arithmetic_overflow) _
          e in
      let sum : total ≡ s₀.total_filled_principal + amount = ground (arith, total_eq, filled) in
      elim (Bool-cases (amount == o.principal_atoms)) [
        | inl all ↦
            let same = ==→≡ amount o.principal_atoms all in
            subst (Turned now o s₀) (ok-injective (rw all at e₁)) (
              is_lent (record {
                filled = omega (arith, sum, same);
                principal_lent = omega (arith, principal, same);
                collateral_lent = omega (arith, collateral, whole all);
                locks = locks;
              }))
        | inr part ↦
            let (r, r_eq, e₂) = >>=-eq-ok (reduce o amount) _ (rw part at e₁) in
            let (c, c_eq, e₃) =
              >>=-eq-ok (ok_or (Words.checked_sub o.collateral_atoms coll) arithmetic_overflow) _
                e₂ in
            let left : c + coll ≡ o.collateral_atoms = ground (arith, c_eq) in
            subst (Turned now o s₀) (ok-injective e₃) (
              is_part_lent amount coll
                (record {
                  filled = sum;
                  principal_lent = principal;
                  collateral_lent = collateral;
                  locks = locks;
                })
                (reduce-takes o amount r_eq) left)
      ]

  fill_bid-Turned :
      (args : MatchRestingBidsArgs) (s : Walk) (i : DataIndex) (o : RestingOrder) (amount coll : ℕ)
      {out : Outcome}
      → ((amount == o.principal_atoms) ≡ true → coll ≡ o.collateral_atoms)
      → fill_bid args s i o amount coll ≡ ok out
      → Turned now o s out
  unfolding fill_bid sum_of
  fill_bid-Turned args s i o amount coll whole e =
      let (vault, _, e₁) = >>=-eq-ok (reserve_at s.vault args.ask_sub_vault_id amount) _ e in
      let (rate, _, e₂) =
        >>=-eq-ok (borrower_rate o.rate_bps args.ask_rate_bps args.fee_floor_bps) _ e₁ in
      let (fee, _, e₃) =
        >>=-eq-ok (mul_div_u64 amount args.origination_bps bps_per_unit false) _ e₂ in
      let node = node_of_bid args o s.market amount coll rate fee in
      let (m₁, inserted, e₄) = >>=-eq-ok (insert_loan s.market node) _ e₃ in
      let (m₂, counted, e₅) =
        >>=-eq-ok (count_loan m₁ o.trader_seat_index args.ask_seat_index) _ e₄ in
      let (loans₁, seats₁) = insert_loan-locks s.market node inserted in
      let (loans₂, locks₂) = count_loan-locks m₁ o.trader_seat_index args.ask_seat_index counted in
      let loans = loans₂ ∙ loans₁ in
      consume-Turned s (record s { market = m₂; vault = vault }) i o amount coll whole refl
        (omega (arith, ap principal_of loans)) (omega (arith, ap collateral_of loans))
        (λ k. locks₂ k ∙ ap (λ seats. (seats k).collateral_encumbered_shares) seats₁) e₅

  cross_bid-Turned :
      (args : MatchRestingBidsArgs) (s : Walk) (i : DataIndex) (o : RestingOrder) (idle : ℕ)
      {out : Outcome}
      → cross_bid args s i o idle ≡ ok out
      → Turned now o s out
  unfolding cross_bid
  cross_bid-Turned args s i o idle {out} e =
      let amount = min o.principal_atoms idle in
      let (coll, coll_eq, e₁) = >>=-eq-ok (consumed_collateral o amount) _ e in
      let (required, _, e₂) =
        >>=-eq-ok
          (required_collateral_at_ltv_cap amount args.debt_oracle_price_fp48
            args.collateral_oracle_price_fp48 (cap_of args o) args.debt_mint_decimals
            args.collateral_mint_decimals)
          _ e₁ in
      let whole : (amount == o.principal_atoms) ≡ true → coll ≡ o.collateral_atoms =
        λ all. sym (ok-injective (rw all at coll_eq)) in
      elim (Bool-cases (ltb coll required)) [
        | inl short ↦ subst (Turned now o s) (ok-injective (rw short at e₂)) skips
        | inr enough ↦ fill_bid-Turned args s i o amount coll whole (rw enough at e₂)
      ]

  prune-Turned :
      (s : Walk) (i : DataIndex) (o : RestingOrder) {out : Outcome}
      → o.collateral_atoms < u64_mod
      → is_expired o now ≡ true
      → prune s i o ≡ ok out
      → Turned now o s out
  unfolding prune
  prune-Turned s i o fits old e =
      let (m, released, e₁) = >>=-eq-ok (release_order s.market bid o) _ e in
      let (loans, locks) = release_order-unlocks s.market o fits released in
      subst (Turned now o s) (ok-injective e₁)
        (expires (record { expired = old; filled = refl; loans = loans; locks = locks }))

module _ ⦃w : Uint256⦄ where
  pub visit-Turned :
      (args : MatchRestingBidsArgs) (s : Walk) (i : DataIndex) (o : RestingOrder) {out : Outcome}
      → o.collateral_atoms < u64_mod
      → visit args s i o ≡ ok out
      → Turned args.now_unix_ts o s out
  unfolding visit
  visit-Turned args s i o {out} fits e =
      let now = args.now_unix_ts in
      let quiet : (v : Outcome) → Turned now o s v → ok v ≡ ok out → Turned now o s out =
        λ v turned same. subst (Turned now o s) (ok-injective same) turned in
      elim (Bool-cases (is_expired o now)) [
        | inl old ↦ prune-Turned now s i o fits old (rw (visit, old) at e)
        | inr live ↦ elim (Bool-cases (o.trader_seat_index == args.ask_seat_index)) [
          | inl own ↦ quiet skip skips (rw (visit, live, own) at e)
          | inr other ↦
              elim (Bool-cases ((s.market.seats o.trader_seat_index).owner == args.ask_curator)) [
                | inl curated ↦ quiet skip skips (rw (visit, live, other, curated) at e)
                | inr stranger ↦ elim (Bool-cases (ltb o.rate_bps args.ask_rate_bps)) [
                  | inl low ↦ quiet stop stops (rw (visit, live, other, stranger, low) at e)
                  | inr high ↦ elim (Bool-cases (ltb args.ask_term_seconds o.term_seconds)) [
                    | inl long ↦
                        quiet skip skips (rw (visit, live, other, stranger, high, long) at e)
                    | inr short ↦
                        let idle = (offer_of (s.vault args.ask_sub_vault_id)).idle in
                        elim (Bool-cases (idle == 0)) [
                          | inl empty ↦
                              quiet stop stops
                                (rw (visit, live, other, stranger, high, short, empty) at e)
                          | inr lends ↦
                              cross_bid-Turned now args s i o idle
                                (rw (visit, live, other, stranger, high, short, lends) at e)
                        ]
                  ]
                ]
              ]
        ]
      ]
