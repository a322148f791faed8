-- ===== src/Market/Backing.antt =====
-- The collateral that a market's seats have locked covers what is promised on it: the definitions, and
-- what the steps of programs/ydelta/src/state/market_helpers.rs do to it. Shares are those of the
-- share price that the order or the loan has stored.
use native.Mathlib.Nat.{div-mul-le_self, add-mul, le-div_iff_mul-le}
use y_delta.Prelude.{
  ℕ, ◌+◌, ◌*◌, ◌/◌, ◌%◌, map_ok-eq-ok, ◌^◌, ◌≤◌, ◌<◌, ◌≡◌, sym, ap, ◌∙◌, true, false, inl, inr,
  List, [], ◌∷◌, ok, err, Bool-cases, ok-injective, ◌==◌, ==→≡, map_ok, if◌then◌else◌, arith,
  u64_mod, u128_mod, custom, math_division_by_zero,
}
use y_delta.Math.Uint256.{Uint256}
use y_delta.Math.Scale.{div_scale}
use y_delta.Math.Exact.{div_scale-eq-ok}
use y_delta.Math.Fp48
use y_delta.Math.Fp48.{Fp48}
use y_delta.Order.{DataIndex, bid, ask}
use y_delta.Seat.{ClaimedSeat}
use y_delta.Seat.Balance.{
  encumber_for_order, unencumber_for_order, update_balance, atoms_to_shares_at_snapshot,
}
use y_delta.Market.{Market, MatchedLoan}
use y_delta.Market.Engine.{set_at, insert_loan, count_loan}
use y_delta.Market.Book.{Orders, with_seat}

-- The shares of an amount at a share price.
abbrev pub shares : ℕ → Fp48 → ℕ
shares atoms price = atoms * 2 ^ 96 / price.raw

abbrev pub only : (owner k : DataIndex) → ℕ → ℕ
only owner k n = if owner == k then n else 0

-- What the bids, and the loans that wait to be settled, have locked on a seat.
unfoldable pub bid_claims : Orders → DataIndex → ℕ
bid_claims [] k = 0
bid_claims ((i, o) ∷ bids) k =
    only o.trader_seat_index k (shares o.collateral_atoms o.share_price_snapshot)
    + bid_claims bids k

unfoldable pub loan_claims : List MatchedLoan → DataIndex → ℕ
loan_claims [] k = 0
loan_claims (l ∷ ls) k =
    only l.borrower_seat_index k
      (shares l.collateral_atoms l.borrower_collateral_share_price_snapshot_fp48)
    + loan_claims ls k

-- Every seat has locked at least what is claimed on it; `more` stands for further claims.
abbrev pub Covered : (DataIndex → ℕ) → Market → Orders → Type 0
Covered more m bids =
    (k : DataIndex)
    → more k + bid_claims bids k + loan_claims m.matched_loans k
      ≤ (m.seats k).collateral_encumbered_shares

-- The atoms of an order fit a `u64`.
abbrev pub AllFit : Orders → Type 0
AllFit [] = Unit {0}
AllFit ((i, o) ∷ bids) = (o.collateral_atoms < u64_mod) × AllFit bids

shares-add_pos :
    (a b : ℕ) (price : Fp48)
    → 0 < price.raw
    → shares a price + shares b price ≤ shares (a + b) price
shares-add_pos a b price pos =
    let r = price.raw in
    let x = div-mul-le_self (a * 2 ^ 96) r in
    let y = div-mul-le_self (b * 2 ^ 96) r in
    let sum = add-mul (a * 2 ^ 96 / r) (b * 2 ^ 96 / r) r in
    (le-div_iff_mul-le {k = r} {x = a * 2 ^ 96 / r + b * 2 ^ 96 / r} {y = (a + b) * 2 ^ 96} pos).1
      (omega (arith, x, y, sum))

-- Two parts of an amount have at most the shares of the whole.
pub shares-add : (a b : ℕ) (price : Fp48) → shares a price + shares b price ≤ shares (a + b) price
shares-add a b price = elim (Bool-cases (price.raw == 0)) [
  | inl no_price ↦ rw (==→≡ price.raw 0 no_price) (omega arith)
  | inr some_price ↦ shares-add_pos a b price (ground (arith, some_price))
]

module _ ⦃w : Uint256⦄ where
  pub atoms_to_shares-eq-ok :
      (atoms : ℕ) (price : Fp48) {n : ℕ}
      → atoms < u64_mod
      → atoms_to_shares_at_snapshot atoms price ≡ ok n
      → (n ≡ shares atoms price) × (0 < price.raw)
  unfolding atoms_to_shares_at_snapshot Fp48.checked_div Fp48.from_atoms
  atoms_to_shares-eq-ok atoms price {n} fits e = elim (Bool-cases (price.raw == 0)) [
    | inl no_price ↦
        let e₁ : err (custom math_division_by_zero) ≡ ok n =
          rw (atoms_to_shares_at_snapshot, no_price) at e in
        cc
    | inr some_price ↦
        let scaled : atoms * 2 ^ 48 % u128_mod ≡ atoms * 2 ^ 48 = omega arith in
        let e₁ : map_ok (λ x. x.raw) (map_ok Fp48.from_raw (div_scale (atoms * 2 ^ 48) price.raw))
            ≡ ok n =
          rw (atoms_to_shares_at_snapshot, some_price, scaled) at e in
        let (x, x_eq, e₂) =
          map_ok-eq-ok (λ y. y.raw) (map_ok Fp48.from_raw (div_scale (atoms * 2 ^ 48) price.raw))
            e₁ in
        let (q, q_eq, e₃) =
          map_ok-eq-ok Fp48.from_raw (div_scale (atoms * 2 ^ 48) price.raw) x_eq in
        let (q_is, _, _) = div_scale-eq-ok (atoms * 2 ^ 48) price.raw (omega arith) q_eq in
        let twice : atoms * 2 ^ 48 * 2 ^ 48 ≡ atoms * 2 ^ 96 = omega arith in
        let raw_eq = ap (λ y. y.raw) (ok-injective e₃) in
        (
          sym (ok-injective e₂) ∙ sym raw_eq ∙ q_is ∙ ap (λ y. y / price.raw) twice,
          ground (arith, some_price),
        )
  ]

-- A map that is changed at one place.
pub set_at-here {ℓ} : {A : Type ℓ} (f : ℕ → A) (i : ℕ) (a : A) → set_at f i a i ≡ a
set_at-here f i a = let same : (i == i) ≡ true = ground arith in rw same

-- What a change of one seat does to the seats.
pub with_seat-cases :
    (m : Market) (i k : DataIndex) (seat : ClaimedSeat)
    → ((k == i) ≡ true → ((with_seat m i seat).seats k ≡ seat) × (k ≡ i))
      × ((k == i) ≡ false → (with_seat m i seat).seats k ≡ m.seats k)
with_seat-cases m i k seat = (λ same. (rw same, ==→≡ k i same), λ other. rw other)

pub only-same : (i k n : ℕ) → (k == i) ≡ true → only i k n ≡ n
only-same i k n h = let same : (i == k) ≡ true = ground (arith, h) in rw same

pub only-add : (i k a b c : ℕ) → a + b ≤ c → only i k a + only i k b ≤ only i k c
only-add i k a b c le = ground arith

pub only-other : (i k n : ℕ) → (k == i) ≡ false → only i k n ≡ 0
only-other i k n h = let other : (i == k) ≡ false = ground (arith, h) in rw other

-- The lock of a seat's collateral after an order's shares went back, or came in.
pub unencumber-bid :
    (s : ClaimedSeat) (principal coll : ℕ) {s' : ClaimedSeat}
    → unencumber_for_order s bid principal coll ≡ ok s'
    → s'.collateral_encumbered_shares + coll ≡ s.collateral_encumbered_shares
unfolding unencumber_for_order update_balance
unencumber-bid s principal coll e = ground arith

pub unencumber-ask :
    (s : ClaimedSeat) (principal coll : ℕ) {s' : ClaimedSeat}
    → unencumber_for_order s ask principal coll ≡ ok s'
    → s'.collateral_encumbered_shares ≡ s.collateral_encumbered_shares
unfolding unencumber_for_order update_balance
unencumber-ask s principal coll e = ground arith

pub encumber-bid :
    (s : ClaimedSeat) (principal coll : ℕ) {s' : ClaimedSeat}
    → encumber_for_order s bid principal coll ≡ ok s'
    → s'.collateral_encumbered_shares ≡ s.collateral_encumbered_shares + coll
unfolding encumber_for_order update_balance
encumber-bid s principal coll e = ground arith

-- A loan that is queued leaves the locks alone, and so does its count on the seats.
pub insert_loan-locks :
    (m : Market) (node : MatchedLoan) {m' : Market}
    → insert_loan m node ≡ ok m'
    → (m'.matched_loans ≡ node ∷ m.matched_loans) × (m'.seats ≡ m.seats)
unfolding insert_loan
insert_loan-locks m node e = ground arith

pub count_loan-locks :
    (m : Market) (borrower lender : DataIndex) {m' : Market}
    → count_loan m borrower lender ≡ ok m'
    → (m'.matched_loans ≡ m.matched_loans)
      × ((k : DataIndex)
          → (m'.seats k).collateral_encumbered_shares ≡ (m.seats k).collateral_encumbered_shares)
unfolding count_loan
count_loan-locks m borrower lender e = (ground arith, λ k. ground arith)

-- A seat that locks n shares more covers a claim of n shares more, and the other way.
module _ (more : DataIndex → ℕ) (m : Market) (t : DataIndex) (seat : ClaimedSeat) (bids : Orders)
    (n : ℕ) where
  pub locks_more :
      seat.collateral_encumbered_shares ≡ (m.seats t).collateral_encumbered_shares + n
      → Covered more m bids
      → Covered (λ k. more k + only t k n) (with_seat m t seat) bids
  locks_more grown covered k =
      let (here, there) = with_seat-cases m t k seat in
      elim (Bool-cases (k == t)) [
        | inl own ↦
            let (seat_is, k_is) = here own in
            let was = ap (λ j. (m.seats j).collateral_encumbered_shares) k_is in
            let now = ap (λ s. s.collateral_encumbered_shares) seat_is in
            omega (arith, covered k, only-same t k n own, was, now, grown)
        | inr other ↦
            let now = ap (λ s. s.collateral_encumbered_shares) (there other) in
            omega (arith, covered k, only-other t k n other, now)
      ]

  pub locks_less :
      seat.collateral_encumbered_shares + n ≡ (m.seats t).collateral_encumbered_shares
      → Covered (λ k. more k + only t k n) m bids
      → Covered more (with_seat m t seat) bids
  locks_less fallen covered k =
      let (here, there) = with_seat-cases m t k seat in
      elim (Bool-cases (k == t)) [
        | inl own ↦
            let (seat_is, k_is) = here own in
            let was = ap (λ j. (m.seats j).collateral_encumbered_shares) k_is in
            let now = ap (λ s. s.collateral_encumbered_shares) seat_is in
            omega (arith, covered k, only-same t k n own, was, now, fallen)
        | inr other ↦
            let now = ap (λ s. s.collateral_encumbered_shares) (there other) in
            omega (arith, covered k, now)
      ]
