-- ===== src/Market/Locks.antt =====
-- The exact effect of a step on the shares that a seat has locked and on what the resting bids hold:
-- programs/ydelta/src/state/market_helpers.rs.
use Prim.Native.Nat.{Ordering}
use y_delta.Prelude.{
  ℕ, ◌+◌, ◌<◌, ◌≡◌, refl, ap, inl, inr, [], ◌∷◌, ok, Bool-cases, ◌==◌, arith, >>=-eq-ok, subst,
  ok-injective, u64_mod,
}
use y_delta.Math.Uint256.{Uint256}
use y_delta.Order.{DataIndex, RestingOrder, bid, cmp}
use y_delta.Seat.{ClaimedSeat}
use y_delta.Seat.Balance.{unencumber_for_order, atoms_to_shares_at_snapshot}
use y_delta.Market.{Market}
use y_delta.Market.Book.{Orders, with_seat, insert_order, release_order}
use y_delta.Market.Backing.{
  shares, only, with_seat-cases, only-same, only-other, unencumber-bid, atoms_to_shares-eq-ok,
}

abbrev pub locked : Market → DataIndex → ℕ
locked m k = (m.seats k).collateral_encumbered_shares

-- What the bids of a side have of a field.
unfoldable pub bids_sum : (RestingOrder → ℕ) → Orders → ℕ
bids_sum field [] = 0
bids_sum field ((i, o) ∷ bids) = field o + bids_sum field bids

abbrev pub bids_principal : Orders → ℕ
bids_principal = bids_sum (λ o. o.principal_atoms)

abbrev pub bids_collateral : Orders → ℕ
bids_collateral = bids_sum (λ o. o.collateral_atoms)

pub insert_order-sum :
    (field : RestingOrder → ℕ) (i : DataIndex) (o : RestingOrder) (bids : Orders)
    → bids_sum field (insert_order i o bids) ≡ field o + bids_sum field bids
unfolding insert_order bids_sum
insert_order-sum field i o [] = refl
insert_order-sum field i o ((j, p) ∷ bids) =
    elim (cmp o p)
      as (λ c.
        bids_sum field
          (elim c [ Ordering.gt ↦ (i, o) ∷ (j, p) ∷ bids | _ ↦ (j, p) ∷ insert_order i o bids ])
        ≡ field o + bids_sum field ((j, p) ∷ bids)) [
          | Ordering.gt ↦ refl
          | Ordering.lt ↦ omega (arith, insert_order-sum field i o bids)
          | Ordering.eq ↦ omega (arith, insert_order-sum field i o bids)
        ]

module _ (m : Market) (t : DataIndex) (seat : ClaimedSeat) (n : ℕ) where
  pub with_seat-locks :
      seat.collateral_encumbered_shares ≡ locked m t + n
      → (k : DataIndex) → locked (with_seat m t seat) k ≡ locked m k + only t k n
  with_seat-locks grown k =
      let (here, there) = with_seat-cases m t k seat in
      elim (Bool-cases (k == t)) [
        | inl own ↦
            let (seat_is, k_is) = here own in
            omega (
              arith,
              ap (locked m) k_is,
              ap (λ s. s.collateral_encumbered_shares) seat_is,
              only-same t k n own,
              grown,
            )
        | inr other ↦
            omega (
              arith,
              ap (λ s. s.collateral_encumbered_shares) (there other),
              only-other t k n other,
            )
      ]

  pub with_seat-unlocks :
      seat.collateral_encumbered_shares + n ≡ locked m t
      → (k : DataIndex) → locked (with_seat m t seat) k + only t k n ≡ locked m k
  with_seat-unlocks fallen k =
      let (here, there) = with_seat-cases m t k seat in
      elim (Bool-cases (k == t)) [
        | inl own ↦
            let (seat_is, k_is) = here own in
            omega (
              arith,
              ap (locked m) k_is,
              ap (λ s. s.collateral_encumbered_shares) seat_is,
              only-same t k n own,
              fallen,
            )
        | inr other ↦
            omega (
              arith,
              ap (λ s. s.collateral_encumbered_shares) (there other),
              only-other t k n other,
            )
      ]

module _ ⦃w : Uint256⦄ where
  -- A release gives the owner of a bid all its shares, and queues no loan.
  pub release_order-unlocks :
      (m : Market) (o : RestingOrder) {m' : Market}
      → o.collateral_atoms < u64_mod
      → release_order m bid o ≡ ok m'
      → (m'.matched_loans ≡ m.matched_loans)
        × ((k : DataIndex)
            → locked m' k
                + only o.trader_seat_index k (shares o.collateral_atoms o.share_price_snapshot)
              ≡ locked m k)
  unfolding release_order
  release_order-unlocks m o {m'} fits e =
      let price = o.share_price_snapshot in
      let t = o.trader_seat_index in
      let n = shares o.collateral_atoms price in
      let (p, _, e₁) = >>=-eq-ok (atoms_to_shares_at_snapshot o.principal_atoms price) _ e in
      let (c, c_eq, e₂) = >>=-eq-ok (atoms_to_shares_at_snapshot o.collateral_atoms price) _ e₁ in
      let (seat, freed, e₃) = >>=-eq-ok (unencumber_for_order (m.seats t) bid p c) _ e₂ in
      let (c_is, _) = atoms_to_shares-eq-ok o.collateral_atoms price fits c_eq in
      subst
        (λ x.
          (x.matched_loans ≡ m.matched_loans)
          × ((k : DataIndex) → locked x k + only t k n ≡ locked m k))
        (ok-injective e₃)
        (
          refl,
          with_seat-unlocks m t seat n (omega (arith, c_is, unencumber-bid (m.seats t) p c freed)),
        )
