-- ===== src/Market/Change.antt =====
-- Changing a resting bid in place, and claiming a seat: `update_user_bid` and
-- `claim_seat_with_sub_vault` in programs/ydelta/src/state/market_helpers.rs.
use y_delta.Prelude.{
  ℕ, ◌+◌, ◌≡◌, refl, sym, ap, subst, ◌∙◌, true, not, some, inl, inr, ◌∷◌, Result, ok, err,
  ok-injective, >>=-eq-ok, require-eq-ok, ◌==◌, ==→≡, ltb, arith, u32_mod, ok_or, custom, ◌||◌,
  arithmetic_overflow, already_claimed_seat, account_data_too_small,
}
use y_delta.Prelude.Words
use y_delta.Prelude.Lists.{List-cases}
use y_delta.Prelude.Int.{ℤ, eqb_ℤ, ltb_ℤ}
use y_delta.Loan.{Pubkey}
use y_delta.Order.{
  DataIndex, RestingOrder, bid, side_u8, limit, new_primary, no_expiration_last_valid_unix_ts,
}
use y_delta.Seat.{ClaimedSeat, new_empty, eq}
use y_delta.Market.Book.{
  Book, remove_order, insert_order, rest_order, update_user_bid, next_sequence, with_seat,
  lookup_seat, is_claimed, claim_seat_with_sub_vault,
}
use y_delta.Market.Backing.{bid_claims, loan_claims, AllFit}
use y_delta.Market.PlaceBacked.{insert_order-claims, insert_order-AllFit}
use y_delta.Market.Cancel.{block_at, remove_order-claims, remove_order-AllFit, Sound}

next_sequence-eq-ok :
    (b : Book) {b' : Book}
    → next_sequence b ≡ ok b'
    → (b'.market ≡ b.market)
      × (b'.bids ≡ b.bids)
      × (b'.order_sequence_number ≡ b.order_sequence_number + 1)
unfolding next_sequence
next_sequence-eq-ok b e = ground arith

-- The bid as `update_user_bid` writes it.
abbrev pub repriced : RestingOrder → (sequence rate term : ℕ) → ℤ → ℕ → RestingOrder
repriced o sequence rate term valid buffer =
    new_primary o.trader_seat_index sequence bid limit rate term o.principal_atoms
      o.collateral_atoms valid o.flags buffer o.share_price_snapshot

module _ (b : Book) (signer i : DataIndex) (o : RestingOrder) (rate term : ℕ) (valid : ℤ)
    (buffer : ℕ) (now : ℤ) where
  -- When every seat has locked at least what is claimed on it, it still does after a bid is repriced.
  -- The bid keeps its block, its owner, its amounts and its share price; it moves to its new place in
  -- the order of the book, under the next sequence number of the market.
  pub update_user_bid-Covered :
      (more : DataIndex → ℕ) {b' : Book} {sequence : ℕ}
      → block_at i b.bids ≡ some o
      → Sound more b
      → update_user_bid b signer i o rate term valid buffer now ≡ ok (b', sequence)
      → Sound more b'
        × (o.trader_seat_index ≡ signer)
        × (sequence ≡ b.order_sequence_number)
        × (b'.order_sequence_number ≡ sequence + 1)
        × (b'.bids
            ≡ insert_order i (repriced o sequence rate term valid buffer) (remove_order i b.bids))
  unfolding update_user_bid rest_order
  update_user_bid-Covered more {b'} {sequence} found (covered, fit) e =
      let (own, e₁) = require-eq-ok (o.trader_seat_index == signer) _ e in
      let (_, e₂) = require-eq-ok (o.side == side_u8 bid) _ e₁ in
      let (_, e₃) = require-eq-ok (ltb 0 term) _ e₂ in
      let (_, e₄) =
        require-eq-ok (eqb_ℤ valid no_expiration_last_valid_unix_ts || ltb_ℤ now valid) _ e₃ in
      let (b₁, b₁_eq, e₅) =
        >>=-eq-ok (next_sequence (record b { bids = remove_order i b.bids })) _ e₄ in
      let (market₁, bids₁, next₁) =
        next_sequence-eq-ok (record b { bids = remove_order i b.bids }) b₁_eq in
      let written = ok-injective e₅ in
      let sequence_eq : b.order_sequence_number ≡ sequence = ap (λ x. x.1) written in
      let market_eq : b'.market ≡ b.market = sym (ap (λ x. (x.0).market) written) ∙ market₁ in
      let new_bid = λ (n : ℕ). repriced o n rate term valid buffer in
      let bids_eq : b'.bids ≡ insert_order i (new_bid sequence) (remove_order i b.bids) =
        sym (ap (λ x. (x.0).bids) written)
        ∙ ap (insert_order i (new_bid b.order_sequence_number)) bids₁
        ∙ ap (λ n. insert_order i (new_bid n) (remove_order i b.bids)) sequence_eq in
      let next_eq = sym (ap (λ x. (x.0).order_sequence_number) written) ∙ next₁ in
      let (fits, others) = remove_order-AllFit i o b.bids found fit in
      let all_fit = insert_order-AllFit i (new_bid sequence) (remove_order i b.bids) fits others in
      (
        (
          λ k.
              let removed = remove_order-claims i o b.bids k found in
              let inserted = insert_order-claims i (new_bid sequence) (remove_order i b.bids) k in
              let claims = ap (λ bs. bid_claims bs k) bids_eq in
              let locks = ap (λ m. (m.seats k).collateral_encumbered_shares) market_eq in
              let loans = ap (λ m. loan_claims m.matched_loans k) market_eq in
              omega (arith, covered k, removed, inserted, claims, locks, loans),
          subst AllFit (sym bids_eq) all_fit,
        ),
        ==→≡ o.trader_seat_index signer own,
        sym sequence_eq,
        omega (arith, next_eq, sequence_eq),
        bids_eq,
      )

eq_self : (s : ClaimedSeat) → eq s s ≡ true
unfolding eq
eq_self s = ground arith

-- A seat that was claimed is there and empty, it is what a lookup of its key finds, and the same key
-- cannot be claimed again.
pub claim_seat_with_sub_vault_lem :
    (b : Book) (owner : Pubkey) (owner_kind sub_vault_id : ℕ) {b' : Book}
    → claim_seat_with_sub_vault b owner owner_kind sub_vault_id ≡ ok b'
    → ((i : DataIndex) × (lookup_seat b'.market.seats
            (new_empty owner owner_kind sub_vault_id)
            b'.claimed_seats
          ≡ some i)
        × (b'.market.seats i ≡ new_empty owner owner_kind sub_vault_id))
      × (claim_seat_with_sub_vault b' owner owner_kind sub_vault_id
          ≡ err (custom already_claimed_seat))
unfolding claim_seat_with_sub_vault lookup_seat
claim_seat_with_sub_vault_lem b owner owner_kind sub_vault_id {b'} e =
    let probe = new_empty owner owner_kind sub_vault_id in
    let (_, e₁) =
      require-eq-ok (not (is_claimed (lookup_seat b.market.seats probe b.claimed_seats))) _ e in
    elim (List-cases b.market.free_list) [
      | inl full ↦
          let e₂ : ◌≡◌ {A = Result Book} (err account_data_too_small) (ok b') = rw full at e₁ in cc
      | inr (i, others, free) ↦
          let (count, _, e₂) =
            >>=-eq-ok (ok_or (Words.checked_add u32_mod b.position_count 1) arithmetic_overflow) _
              {b = b'} (rw free at e₁) in
          let claimed = record b {
            market = record (with_seat b.market i probe) { free_list = others };
            claimed_seats = i ∷ b.claimed_seats;
            position_count = count;
          } in
          let itself : (i == i) ≡ true = ground arith in
          let same_key : eq probe probe ≡ true = eq_self probe in
          let found : lookup_seat claimed.market.seats probe claimed.claimed_seats ≡ some i =
            rw (itself, same_key) refl in
          subst
            (λ c.
              ((j : DataIndex) × (lookup_seat c.market.seats probe c.claimed_seats ≡ some j)
                × (c.market.seats j ≡ probe))
              × (claim_seat_with_sub_vault c owner owner_kind sub_vault_id
                  ≡ err (custom already_claimed_seat)))
            (ok-injective e₂)
            ((i, found, rw itself refl), rw (claim_seat_with_sub_vault, found) refl)
    ]
