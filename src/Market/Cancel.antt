-- ===== src/Market/Cancel.antt =====
-- Cancelling and changing a resting bid: `cancel_order_by_index` and `update_user_bid` in
-- programs/ydelta/src/state/market_helpers.rs.
use y_delta.Prelude.{
  ℕ, ◌+◌, ◌-◌, ◌*◌, ◌/◌, ◌%◌, ◌^◌, ◌≤◌, ◌<◌, ◌≡◌, ◌≢◌, refl, sym, ap, subst, ◌∙◌, true, false,
  Option, none, some, inl, inr, [], ◌∷◌, ok, Bool-cases, ok-injective, >>=-eq-ok, require-eq-ok,
  ◌==◌, if◌then◌else◌, arith, u64_mod, u128_mod, ne→==, lt→ltb,
}
use y_delta.Math.Uint256.{Uint256}
use y_delta.Math.Scale.{div_scale}
use y_delta.Math.Exact.{div_scale_lem}
use y_delta.Math.Fp48
use y_delta.Math.Fp48.{Fp48}
use y_delta.Order.{DataIndex, RestingOrder, bid, ask, side_u8}
use y_delta.Seat.{ClaimedSeat, owner_kind_sub_vault}
use y_delta.Seat.Balance.{unencumber_for_order, update_balance, atoms_to_shares_at_snapshot}
use y_delta.Market.{Market}
use y_delta.Market.Book.{
  Book, Orders, remove_order, release_order, cancel_order_by_index, with_seat, free_block,
}
use y_delta.Market.Backing.{shares, only, bid_claims, Covered, AllFit, only-same}
use y_delta.Market.BidsBacked.{release_order-Covered}

-- The order in a block of the tree.
unfoldable pub block_at : DataIndex → Orders → Option RestingOrder
block_at i [] = none
block_at i ((j, p) ∷ orders) = if j == i then some p else block_at i orders

-- A bid that leaves the tree takes its claim along, and nothing else.
pub remove_order-claims :
    (i : DataIndex) (o : RestingOrder) (bids : Orders) (k : DataIndex)
    → block_at i bids ≡ some o
    → bid_claims bids k
      ≡ only o.trader_seat_index k (shares o.collateral_atoms o.share_price_snapshot)
        + bid_claims (remove_order i bids) k
unfolding block_at remove_order bid_claims
remove_order-claims i o [] k e = cc
remove_order-claims i o ((j, p) ∷ bids) k e = elim (Bool-cases (j == i)) [
  | inl here ↦
      let same : some p ≡ some o = rw (block_at, here) at e in
      let claim =
        ap {B = ℕ}
          (λ (x : Option RestingOrder). elim x [
            | none ↦ 0
            | some q ↦ only q.trader_seat_index k (shares q.collateral_atoms q.share_price_snapshot)
          ])
          same in
      rw here (omega (arith, claim))
  | inr there ↦
      let later = remove_order-claims i o bids k (rw (block_at, there) at e) in
      rw there (omega (arith, later))
]

pub remove_order-AllFit :
    (i : DataIndex) (o : RestingOrder) (bids : Orders)
    → block_at i bids ≡ some o
    → AllFit bids
    → (o.collateral_atoms < u64_mod) × AllFit (remove_order i bids)
unfolding block_at remove_order
remove_order-AllFit i o [] e fit = cc
remove_order-AllFit i o ((j, p) ∷ bids) e (fits, fit) = elim (Bool-cases (j == i)) [
  | inl here ↦
      let same : some p ≡ some o = rw (block_at, here) at e in
      let atoms =
        ap {B = ℕ} (λ (x : Option RestingOrder). elim x [ none ↦ 0 | some q ↦ q.collateral_atoms ])
          same in
      rw here (omega (arith, atoms, fits), fit)
  | inr there ↦
      let (own, rest) = remove_order-AllFit i o bids (rw (block_at, there) at e) fit in
      rw there (own, (fits, rest))
]

abbrev pub Sound : (DataIndex → ℕ) → Book → Type 0
Sound more b = Covered more b.market b.bids × AllFit b.bids

module _ ⦃w : Uint256⦄ where
  cancelled-Sound :
      (more : DataIndex → ℕ) (b : Book) (i : DataIndex) (o : RestingOrder) (m : Market)
      → block_at i b.bids ≡ some o
      → Sound more b
      → release_order b.market bid o ≡ ok m
      → Sound more (record b { market = free_block m i; bids = remove_order i b.bids })
  unfolding bid_claims
  cancelled-Sound more b i o m found (covered, fit) released =
      let (fits, rest) = remove_order-AllFit i o b.bids found fit in
      let apart : Covered more b.market ((i, o) ∷ remove_order i b.bids) =
        λ k. omega (arith, covered k, remove_order-claims i o b.bids k found) in
      let kept =
        release_order-Covered more b.market i o (remove_order i b.bids) fits apart released in
      (kept, rest)

  -- When every seat has locked at least what is claimed on it, it still does after a user's bid is
  -- cancelled, and the bid is no longer in the book.
  pub cancel_order_by_index-Covered :
      (more : DataIndex → ℕ) (b : Book) (signer i : DataIndex) (o : RestingOrder) {b' : Book}
      → o.side ≡ side_u8 bid
      → (b.market.seats o.trader_seat_index).owner_kind ≢ owner_kind_sub_vault
      → block_at i b.bids ≡ some o
      → Sound more b
      → cancel_order_by_index b signer i o ≡ ok b'
      → Sound more b' × (b'.bids ≡ remove_order i b.bids)
  unfolding cancel_order_by_index
  cancel_order_by_index-Covered more b signer i o {b'} is_bid user found sound e =
      let kind = (b.market.seats o.trader_seat_index).owner_kind in
      let is_user : (kind == owner_kind_sub_vault) ≡ false = ne→== kind owner_kind_sub_vault user in
      let (_, e₁) = require-eq-ok (o.trader_seat_index == signer) _ e in
      let bid_test : (o.side == side_u8 bid) ≡ true = ground (arith, is_bid) in
      let ask_test : (o.side == side_u8 ask) ≡ false = ground (arith, is_bid) in
      let (m, released, e₂) =
        >>=-eq-ok (release_order b.market bid o) _ (rw (is_user, bid_test, ask_test) at e₁) in
      let gone = record b { market = free_block m i; bids = remove_order i b.bids } in
      let same : gone ≡ b' = ok-injective e₂ in
      (
        subst (Sound more) same (cancelled-Sound more b i o m found sound released),
        sym (ap (λ x. x.bids) same),
      )

  atoms_to_shares-total :
      (atoms : ℕ) (price : Fp48)
      → atoms < u64_mod
      → 0 < price.raw
      → shares atoms price < u128_mod
      → atoms_to_shares_at_snapshot atoms price ≡ ok (shares atoms price)
  unfolding atoms_to_shares_at_snapshot Fp48.checked_div Fp48.from_atoms
  atoms_to_shares-total atoms price fits pos small =
      let some_price : (price.raw == 0) ≡ false = ground arith in
      let scaled : atoms * 2 ^ 48 % u128_mod ≡ atoms * 2 ^ 48 = omega arith in
      let twice : atoms * 2 ^ 48 * 2 ^ 48 / price.raw ≡ shares atoms price =
        ap (λ y. y / price.raw) (omega arith) in
      let quotient : div_scale (atoms * 2 ^ 48) price.raw ≡ ok (shares atoms price) =
        div_scale_lem (atoms * 2 ^ 48) price.raw (omega arith)
        ∙ rw (some_price, twice, lt→ltb _ _ small) refl in
      rw (some_price, scaled, quotient) refl

  unencumber-total :
      (s : ClaimedSeat) (principal coll : ℕ)
      → coll ≤ s.collateral_encumbered_shares
      → s.collateral_withdrawable_shares + s.collateral_encumbered_shares < u128_mod
      → (s' : ClaimedSeat) × (unencumber_for_order s bid principal coll ≡ ok s')
        × (s'.collateral_withdrawable_shares ≡ s.collateral_withdrawable_shares + coll)
  unfolding unencumber_for_order update_balance
  unencumber-total s principal coll enough fits = (
    record s {
      collateral_encumbered_shares = s.collateral_encumbered_shares - coll;
      collateral_withdrawable_shares = s.collateral_withdrawable_shares + coll;
    },
    ground arith,
    refl,
  )

  -- When every seat has locked at least what is claimed on it, its owner can always cancel a bid and
  -- gets the shares of all its collateral back, as long as its shares fit their words and its share
  -- price is not zero.
  pub cancel_order_by_index-succeeds :
      (more : DataIndex → ℕ) (b : Book) (i : DataIndex) (o : RestingOrder)
      → o.side ≡ side_u8 bid
      → (b.market.seats o.trader_seat_index).owner_kind ≢ owner_kind_sub_vault
      → block_at i b.bids ≡ some o
      → Sound more b
      → o.principal_atoms < u64_mod
      → 0 < (o.share_price_snapshot).raw
      → shares o.principal_atoms o.share_price_snapshot < u128_mod
      → (b.market.seats o.trader_seat_index).collateral_withdrawable_shares
          + (b.market.seats o.trader_seat_index).collateral_encumbered_shares
        < u128_mod
      → (b' : Book) × (cancel_order_by_index b o.trader_seat_index i o ≡ ok b')
        × ((b'.market.seats o.trader_seat_index).collateral_withdrawable_shares
            ≡ (b.market.seats o.trader_seat_index).collateral_withdrawable_shares
              + shares o.collateral_atoms o.share_price_snapshot)
  unfolding cancel_order_by_index release_order
  cancel_order_by_index-succeeds more b i o is_bid user found (covered, fit) p_fits pos p_small
        fits =
      let t = o.trader_seat_index in
      let price = o.share_price_snapshot in
      let n = shares o.collateral_atoms price in
      let kind = (b.market.seats t).owner_kind in
      let (c_fits, _) = remove_order-AllFit i o b.bids found fit in
      let itself : (t == t) ≡ true = ground arith in
      let claim = only-same t t n itself in
      let enough : n ≤ (b.market.seats t).collateral_encumbered_shares =
        omega (arith, covered t, remove_order-claims i o b.bids t found, claim) in
      let (seat, freed, gained) =
        unencumber-total (b.market.seats t) (shares o.principal_atoms price) n enough fits in
      let is_user : (kind == owner_kind_sub_vault) ≡ false = ne→== kind owner_kind_sub_vault user in
      let bid_test : (o.side == side_u8 bid) ≡ true = ground (arith, is_bid) in
      let ask_test : (o.side == side_u8 ask) ≡ false = ground (arith, is_bid) in
      let p_eq = atoms_to_shares-total o.principal_atoms price p_fits pos p_small in
      let c_eq =
        atoms_to_shares-total o.collateral_atoms price c_fits pos (omega (arith, enough, fits)) in
      let m = free_block (with_seat b.market t seat) i in
      (
        record b { market = m; bids = remove_order i b.bids },
        rw (itself, is_user, bid_test, ask_test, p_eq, c_eq, freed) refl,
        rw itself gained,
      )
