-- ===== src/Market/Covering.antt =====
-- Placing and cancelling a bid keep the collateral of every seat covered, and a covered bid can be
-- cancelled: `match_borrower_bid` and `cancel_order_by_index` in
-- programs/ydelta/src/state/market_helpers.rs.
use y_delta.Prelude.{
  ℕ, ◌+◌, ◌<◌, ◌≤◌, ◌≡◌, refl, sym, ap, subst, ◌∙◌, Option, none, some, Result, ok, err, >>=-eq-ok,
  require-eq-ok, ltb, leb, arith, u64_mod,
}
use y_delta.Math.Uint256.{Uint256}
use y_delta.Order.{DataIndex}
use y_delta.Market.{Market, Asks}
use y_delta.Market.Engine.{MatchState, SubVaults}
use y_delta.Market.Loop.{match_order, match_order-keeps}
use y_delta.Market.Book.{Book, Orders, next_sequence}
use y_delta.Market.Place.{
  PlaceOrderArgs, Placed, match_args_of, lock_collateral, dispose, finish, with_action,
  match_borrower_bid, min_principal_atoms,
}
use y_delta.Market.Backing.{shares, only, Covered, AllFit}
use y_delta.Market.Locks.{locked}
use y_delta.Market.Settled.{lock_collateral-locks}
use y_delta.Market.Placing.{Settled, finish-Settled}
use y_delta.Market.PlaceBacked.{Backed, step-Backed}
use y_delta.Market.Residual.{claim_of, Good, lock_collateral-Covered, dispose-Good}

placed_in : Placed → Result (Option Placed) → Placed
placed_in p (ok (some q)) = q
placed_in p (ok none) = p
placed_in p (err e) = p

some_injective : {p q : Placed} → ok (some p) ≡ ok (some q) → p ≡ q
unfolding placed_in
some_injective {p} e = ap (placed_in p) e

module _ ⦃w : Uint256⦄ where
  pub next_sequence-keeps :
      (b : Book) {b' : Book} → next_sequence b ≡ ok b' → (b'.market ≡ b.market) × (b'.bids ≡ b.bids)
  unfolding next_sequence
  next_sequence-keeps b e = ground arith

  match_order-Backed :
      (asks : Asks) (args : PlaceOrderArgs) (more : DataIndex → ℕ) (bids : Orders) (m m₁ : Market)
      (vault : Option SubVaults) {s : MatchState}
      → Covered (claim_of args more args.collateral_atoms) m₁ bids
      → match_order asks (match_args_of args m) m₁ vault ≡ ok (some s)
      → Backed (match_args_of args m) more bids s
  match_order-Backed asks args more bids m m₁ vault covered e =
      match_order-keeps asks (match_args_of args m) (Backed (match_args_of args m) more bids)
        (λ i f s s' b _ screened filled.
          step-Backed (match_args_of args m) more bids (asks.order_at i) f s s' b screened filled)
        m₁ vault (record { covered = covered; pro_rata = omega arith; within = omega arith }) e

  finish-Good :
      (args : PlaceOrderArgs) (more : DataIndex → ℕ) (b b₁ : Book) (sequence : ℕ)
      (matched : Option MatchState) {p : Placed}
      → args.collateral_atoms < u64_mod
      → AllFit b₁.bids
      → ((s : MatchState) → matched ≡ some s → Backed (match_args_of args b.market) more b₁.bids s)
      → finish args b₁ sequence matched ≡ ok (some p)
      → Good args more p.0
  unfolding finish
  finish-Good args more b b₁ sequence none fits fit backed e = cc
  finish-Good args more b b₁ sequence (some s) fits fit backed e =
      let held = backed s refl in
      let result = with_action args s in
      let (q, q_eq, e₁) =
        >>=-eq-ok (dispose args (record b₁ { market = s.market }) s.vault sequence result) _ e in
      subst (λ x. Good args more x.0) (some_injective e₁)
        (dispose-Good args more (record b₁ { market = s.market }) s.vault sequence result
          (omega (arith, held.within, fits)) fit held.covered q_eq)

  settles :
      (asks : Asks) (args : PlaceOrderArgs) (b b₁ : Book) (m : Market) (vault : Option SubVaults)
      (sequence : ℕ) (matched : Option MatchState) {p : Placed}
      → 0 < args.principal_atoms
      → args.collateral_atoms < u64_mod
      → m.matched_loans ≡ b.market.matched_loans
      → ((k : DataIndex)
          → locked m k
            ≡ locked b.market k
              + only args.taker_seat_index k
                  (shares args.collateral_atoms args.share_price_snapshot_fp48))
      → b₁.bids ≡ b.bids
      → ((s : MatchState) → matched ≡ some s → s.remaining_collateral ≤ args.collateral_atoms)
      → match_order asks (match_args_of args b.market) m vault ≡ ok matched
      → finish args b₁ sequence matched ≡ ok (some p)
      → Settled args b p
  unfolding finish
  settles asks args b b₁ m vault sequence none pos fits loans locks bids within matched e = cc
  settles asks args b b₁ m vault sequence (some s) pos fits loans locks bids within matched e =
      let result = with_action args s in
      let (q, q_eq, e₁) =
        >>=-eq-ok (dispose args (record b₁ { market = s.market }) s.vault sequence result) _ e in
      finish-Settled args b b₁ m asks vault sequence s (omega (arith, pos))
        (omega (arith, within s refl, fits)) loans locks bids matched
        (q_eq ∙ ap ok (some_injective e₁))

  -- When every seat has locked at least the shares that its resting bids and its queued loans claim,
  -- it still does after a bid is placed whose collateral fits a `u64`. All that the result says was
  -- filled or lent by the pool became queued loans, and all that it says rests is in the book, where
  -- the rest is lent by the pool, rests or is dropped as the residual mode says. The collateral of
  -- the bid is in those loans, rests or was unlocked: the taker's seat locked the shares of the whole
  -- collateral, less those of a rest that was dropped, and no other seat's lock changed.
  pub match_borrower_bid-Covered :
      (asks : Asks) (args : PlaceOrderArgs) (b : Book) (vault : Option SubVaults)
      (more : DataIndex → ℕ) {p : Placed}
      → args.collateral_atoms < u64_mod
      → Covered more b.market b.bids
      → AllFit b.bids
      → match_borrower_bid asks args b vault ≡ ok (some p)
      → Covered more (p.0).market (p.0).bids × AllFit (p.0).bids × Settled args b p
  unfolding match_borrower_bid
  match_borrower_bid-Covered asks args b vault more {p} fits covered fit e =
      let (least, e₁) = require-eq-ok (leb min_principal_atoms args.principal_atoms) _ e in
      let (_, e₂) = require-eq-ok (ltb 0 args.term_seconds) _ e₁ in
      let (_, e₃) = require-eq-ok (ltb 0 args.collateral_atoms) _ e₂ in
      let (m, m_eq, e₄) = >>=-eq-ok (lock_collateral args b.market) _ e₃ in
      let (b₁, b₁_eq, e₅) = >>=-eq-ok (next_sequence (record b { market = m })) _ e₄ in
      let (matched, matched_eq, e₆) =
        >>=-eq-ok (match_order asks (match_args_of args b.market) m vault) _ e₅ in
      let (_, bids_eq) = next_sequence-keeps (record b { market = m }) b₁_eq in
      let covered₁ = lock_collateral-Covered args more b.market b.bids fits covered m_eq in
      let backed = λ (s : MatchState) (found : matched ≡ some s).
        match_order-Backed asks args more b.bids b.market m vault covered₁
          (matched_eq ∙ ap ok found) in
      let (covers, fits') =
        finish-Good args more b b₁ b.order_sequence_number matched fits
          (subst AllFit (sym bids_eq) fit)
          (λ s found.
            subst (λ bids. Backed (match_args_of args b.market) more bids s) (sym bids_eq)
              (backed s found))
          e₆ in
      let (loans, locks) = lock_collateral-locks args b.market fits m_eq in
      (
        covers,
        fits',
        settles asks args b b₁ m vault b.order_sequence_number matched (ground (arith, least)) fits
            loans locks bids_eq (λ s found. (backed s found).within) matched_eq e₆,
      )
