-- ===== src/Market/BidsAccounted.antt =====
-- Where everything goes in a walk of the resting bids: `match_resting_bids` in
-- programs/ydelta/src/state/market_helpers.rs.
use y_delta.Prelude.{
  ℕ, ◌+◌, ◌≡◌, refl, subst, true, inl, inr, [], ◌∷◌, Result, ok, Bool-cases, ok-injective,
  >>=-eq-ok, ◌>>=◌, ltb, arith,
}
use y_delta.Prelude.Int.{ℤ}
use y_delta.Math.Uint256.{Uint256}
use y_delta.Order.{DataIndex, RestingOrder, is_expired}
use y_delta.Market.Collateral.{principal_of, collateral_of}
use y_delta.Market.Book.{Orders}
use y_delta.Market.Bids.{
  MatchRestingBidsArgs, Walk, Outcome, skip, stop, leave, shrink, visit, keep_bid, walk_bids,
}
use y_delta.Market.Backing.{bid_claims, AllFit}
use y_delta.Market.Locks.{locked, bids_sum, bids_principal, bids_collateral}
use y_delta.Market.BidsSettled.{
  Turned, skips, stops, expires, is_lent, is_part_lent, Released, Lent, visit-Turned,
}

abbrev pub AllExpired : ℤ → Orders → Type 0
AllExpired now [] = Unit {0}
AllExpired now ((i, o) ∷ bids) = (is_expired o now ≡ true) × AllExpired now bids

-- The walk that started from `s` and `bids` ended with `s'` and `bids'`: some bids were released since
-- they had expired, their owners have all the shares of those back, and no other lock changed; all
-- that was filled became queued loans; and the principal and the collateral of the bids are in what
-- rests, in what was released or in those loans.
pub record Accounted (now : ℤ) (s : Walk) (bids : Orders) (s' : Walk) (bids' : Orders)
    : Type 0 where
  pub released : Orders
  pub expired : AllExpired now released
  pub locks : (k : DataIndex) → locked s'.market k + bid_claims released k ≡ locked s.market k
  pub loans :
      principal_of s'.market.matched_loans + s.total_filled_principal
      ≡ principal_of s.market.matched_loans + s'.total_filled_principal
  pub principal :
      bids_principal bids' + bids_principal released + s'.total_filled_principal
      ≡ bids_principal bids + s.total_filled_principal
  pub collateral :
      bids_collateral bids' + bids_collateral released + collateral_of s'.market.matched_loans
      ≡ bids_collateral bids + collateral_of s.market.matched_loans

abbrev AccountedIn : ℤ → Walk → Orders → Walk × Orders → Type 0
AccountedIn now s bids (s', bids') = Accounted now s bids s' bids'

nothing_yet : (now : ℤ) (s : Walk) (bids : Orders) → Accounted now s bids s bids
unfolding bid_claims bids_sum
nothing_yet now s bids = record {
  released = [];
  expired = tt;
  locks = λ k. omega arith;
  loans = refl;
  principal = omega arith;
  collateral = omega arith;
}

-- A bid that stays before the rest of the walk.
after_kept :
    ⦃w : Uint256⦄ (now : ℤ) (s : Walk) (i : DataIndex) (o : RestingOrder) (bids : Orders)
    (r : Result (Walk × Orders)) {q : Walk × Orders}
    → ((q : Walk × Orders) → r ≡ ok q → AccountedIn now s bids q)
    → (r >>= keep_bid i o) ≡ ok q
    → AccountedIn now s ((i, o) ∷ bids) q
unfolding bids_sum
after_kept now s i o bids r accounted e =
    let ((s', bids'), r_eq, e₁) = >>=-eq-ok r (keep_bid i o) e in
    let a = accounted (s', bids') r_eq in
    subst (AccountedIn now s ((i, o) ∷ bids)) (ok-injective e₁) (record {
      released = a.released;
      expired = a.expired;
      locks = a.locks;
      loans = a.loans;
      principal = omega (arith, a.principal);
      collateral = omega (arith, a.collateral);
    })

-- The rest of a walk after a bid that was released.
after_release :
    (now : ℤ) (s s₁ : Walk) (i : DataIndex) (o : RestingOrder) (bids : Orders) (q : Walk × Orders)
    → Released now o s s₁
    → AccountedIn now s₁ bids q
    → AccountedIn now s ((i, o) ∷ bids) q
unfolding bid_claims bids_sum
after_release now s s₁ i o bids (s', bids') r a =
    let loans_p : principal_of s₁.market.matched_loans ≡ principal_of s.market.matched_loans =
      rw (r.loans) refl in
    let loans_c : collateral_of s₁.market.matched_loans ≡ collateral_of s.market.matched_loans =
      rw (r.loans) refl in
    record {
      released = (i, o) ∷ a.released;
      expired = (r.expired, a.expired);
      locks = λ k. omega (arith, a.locks k, r.locks k);
      loans = omega (arith, a.loans, r.filled, loans_p);
      principal = omega (arith, a.principal, r.filled);
      collateral = omega (arith, a.collateral, loans_c);
    }

-- The rest of a walk after a bid of which a part was lent; `o'` is what the rest started with.
after_loan :
    (now : ℤ) (s s₁ : Walk) (bids₀ bids : Orders) (principal coll : ℕ) (q : Walk × Orders)
    → Lent s s₁ principal coll
    → bids_principal bids + principal ≡ bids_principal bids₀
    → bids_collateral bids + coll ≡ bids_collateral bids₀
    → AccountedIn now s₁ bids q
    → AccountedIn now s bids₀ q
after_loan now s s₁ bids₀ bids principal coll (s', bids') l less_p less_c a = record {
  released = a.released;
  expired = a.expired;
  locks = λ k. omega (arith, a.locks k, l.locks k);
  loans = omega (arith, a.loans, l.filled, l.principal_lent);
  principal = omega (arith, a.principal, l.filled, less_p);
  collateral = omega (arith, a.collateral, l.collateral_lent, less_c);
}

module _ ⦃w : Uint256⦄ (args : MatchRestingBidsArgs) where
  after :
      (s : Walk) (i : DataIndex) (o : RestingOrder) (bids : Orders) {out : Outcome}
      {q : Walk × Orders}
      → ((s₁ : Walk) (q : Walk × Orders)
          → walk_bids args bids s₁ ≡ ok q
          → AccountedIn args.now_unix_ts s₁ bids q)
      → Turned args.now_unix_ts o s out
      → (elim out [
        | skip ↦ walk_bids args bids s >>= keep_bid i o
        | stop ↦ ok (s, (i, o) ∷ bids)
        | leave s' ↦ walk_bids args bids s'
        | shrink s' o' ↦ walk_bids args bids s' >>= keep_bid i o'
      ])
        ≡ ok q
      → AccountedIn args.now_unix_ts s ((i, o) ∷ bids) q
  unfolding bids_sum
  after s i o bids rec skips e =
      after_kept args.now_unix_ts s i o bids (walk_bids args bids s) (rec s) e
  after s i o bids rec stops e =
      subst (AccountedIn args.now_unix_ts s ((i, o) ∷ bids)) (ok-injective e)
        (nothing_yet args.now_unix_ts s ((i, o) ∷ bids))
  after s i o bids {q = q} rec (expires {s' = s₁} r) e =
      after_release args.now_unix_ts s s₁ i o bids q r (rec s₁ q e)
  after s i o bids {q = q} rec (is_lent {s' = s₁} l) e =
      after_loan args.now_unix_ts s s₁ ((i, o) ∷ bids) bids o.principal_atoms o.collateral_atoms q l
        (omega arith) (omega arith) (rec s₁ q e)
  after s i o bids {q = q} rec (is_part_lent {s' = s₁} {o' = o'} principal coll l less_p less_c) e =
      after_loan args.now_unix_ts s s₁ ((i, o) ∷ bids) ((i, o') ∷ bids) principal coll q l
        (omega (arith, less_p)) (omega (arith, less_c))
        (after_kept args.now_unix_ts s₁ i o' bids (walk_bids args bids s₁) (rec s₁) e)

  pub walk_bids-Accounted :
      (bids : Orders) (s : Walk) (q : Walk × Orders)
      → AllFit bids
      → walk_bids args bids s ≡ ok q
      → AccountedIn args.now_unix_ts s bids q
  unfolding walk_bids
  walk_bids-Accounted [] s q fit e =
      subst (AccountedIn args.now_unix_ts s []) (ok-injective e) (nothing_yet args.now_unix_ts s [])
  walk_bids-Accounted ((i, o) ∷ bids) s q (fits, fit) e =
      elim (Bool-cases (ltb s.num_fills args.max_fills)) [
        | inr done ↦
            subst (AccountedIn args.now_unix_ts s ((i, o) ∷ bids))
              (ok-injective (rw (walk_bids, done) at e))
              (nothing_yet args.now_unix_ts s ((i, o) ∷ bids))
        | inl on ↦
            let (out, out_eq, e₁) = >>=-eq-ok (visit args s i o) _ (rw (walk_bids, on) at e) in
            after s i o bids (λ s₁ q q_eq. walk_bids-Accounted bids s₁ q fit q_eq)
              (visit-Turned args s i o fits out_eq) e₁
      ]
