-- ===== src/Seat/Moves.antt =====
-- What the balance primitives keep: programs/ydelta/src/state/market_helpers.rs.
use Prim.Native.Nat.{Ordering}
use y_delta.Prelude.{
  ℕ, ◌+◌, ◌-◌, ◌<◌, ◌≤◌, ◌≡◌, ◌↔◌, ◌⊎◌, true, false, Bool, min, ok, err, custom,
  insufficient_encumbered_collateral, u128_mod, arith,
}
use y_delta.Order.{Side, bid, ask}
use y_delta.Seat.{ClaimedSeat, cmp, eq}
use y_delta.Seat.Balance.{
  BalanceAxis, debt, collateral, update_balance, encumber_for_order, unencumber_for_order,
  release_loan_collateral, deposit_to_seat, withdraw_from_seat, withdrawable_shares_for_seat,
}

-- All the shares of a seat on one axis.
abbrev pub total : BalanceAxis → ClaimedSeat → ℕ
total debt s = s.debt_withdrawable_shares + s.debt_encumbered_shares
total collateral s = s.collateral_withdrawable_shares + s.collateral_encumbered_shares

-- Placing an order moves shares between the buckets of a seat and creates none, on either axis and
-- either side.
pub encumber_for_order-total :
    (s : ClaimedSeat) (side : Side) (principal coll : ℕ) (axis : BalanceAxis) {s' : ClaimedSeat}
    → encumber_for_order s side principal coll ≡ ok s'
    → total axis s' ≡ total axis s
unfolding encumber_for_order update_balance
encumber_for_order-total s bid principal coll debt e = ground arith
encumber_for_order-total s bid principal coll collateral e = ground arith
encumber_for_order-total s ask principal coll debt e = ground arith
encumber_for_order-total s ask principal coll collateral e = ground arith

-- Withdrawing an order gives the seat back as it was before the order was placed, lend count
-- included, when the withdrawable balances and the count fitted their words.
pub unencumber_for_order-encumber_for_order :
    (s : ClaimedSeat) (side : Side) (principal coll : ℕ) {s' : ClaimedSeat}
    → s.debt_withdrawable_shares < u128_mod
    → s.collateral_withdrawable_shares < u128_mod
    → encumber_for_order s side principal coll ≡ ok s'
    → unencumber_for_order s' side principal coll ≡ ok s
unfolding encumber_for_order unencumber_for_order update_balance
unencumber_for_order-encumber_for_order s bid principal coll d c e = ground arith
unencumber_for_order-encumber_for_order s ask principal coll d c e = ground arith

-- A loan's close takes all of its collateral out of the encumbered bucket, and frees at most that
-- much; it fails with `InsufficientEncumberedCollateral` exactly when the bucket holds less.
pub release_loan_collateral_lem :
    (s : ClaimedSeat) (all returned : ℕ)
    → s.collateral_withdrawable_shares + all < u128_mod
    → ((all ≤ s.collateral_encumbered_shares)
        × (release_loan_collateral s all returned
            ≡ ok (record s {
              collateral_encumbered_shares = s.collateral_encumbered_shares - all;
              collateral_withdrawable_shares = s.collateral_withdrawable_shares + min returned all;
            })))
      ⊎ ((s.collateral_encumbered_shares < all)
          × (release_loan_collateral s all returned
              ≡ err (custom insufficient_encumbered_collateral)))
unfolding release_loan_collateral
release_loan_collateral_lem s all returned fits = ground arith

-- What is deposited to a seat can be withdrawn again, which restores the seat, and meanwhile shows in
-- the withdrawable balance of that axis.
pub withdraw_from_seat-deposit_to_seat :
    (s : ClaimedSeat) (shares : ℕ) (is_debt : Bool) {s' : ClaimedSeat}
    → deposit_to_seat s shares is_debt ≡ ok s'
    → (withdrawable_shares_for_seat s' is_debt ≡ withdrawable_shares_for_seat s is_debt + shares)
      × (withdraw_from_seat s' shares is_debt ≡ ok s)
unfolding deposit_to_seat withdraw_from_seat withdrawable_shares_for_seat update_balance
withdraw_from_seat-deposit_to_seat s shares true e = ground arith
withdraw_from_seat-deposit_to_seat s shares false e = ground arith

-- Seats compare equal exactly when they have the same kind, owner and sub-vault, whatever their
-- balances, and `PartialEq` says the same.
pub cmp-eq :
    (a b : ClaimedSeat)
    → ((cmp a b ≡ Ordering.eq) ↔ (eq a b ≡ true))
      × ((eq a b ≡ true) ↔ (
          (a.owner_kind ≡ b.owner_kind) × (a.owner ≡ b.owner) × (a.sub_vault_id ≡ b.sub_vault_id)))
unfolding cmp eq
cmp-eq a b = ((λ e. ground arith, λ e. ground arith), (λ e. ground arith, λ e. ground arith))
