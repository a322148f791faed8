-- ===== src/Market/Book.antt =====
-- The two sides of a market's book and its seats: the orders that rest, are changed and leave, and
-- the seats that are claimed. programs/ydelta/src/state/market_helpers.rs. Each tree is the list of
-- its blocks with what they hold, the best order first; logs are left out.
use Prim.Native.Nat.{Ordering}
use y_delta.Prelude.{
  ℕ, true, false, Bool, not, ◌&&◌, ◌||◌, Option, none, some, List, [], ◌∷◌, Result, ok, err, custom,
  arithmetic_overflow, account_data_too_small, already_claimed_seat, no_seat_claimed,
  order_not_found, order_not_owned_by_signer, wrong_index_hint_params, incorrect_account,
  term_not_compatible, invalid_argument, require, ok_or, ◌>>=◌, ◌>>◌, ◌==◌, ltb, if◌then◌else◌,
  u32_mod, u64_mod, u64_max,
}
use y_delta.Prelude.Words
use y_delta.Prelude.Lists.{length}
use y_delta.Prelude.Int.{ℤ, eqb_ℤ, ltb_ℤ}
use y_delta.Math.Uint256.{Uint256}
use y_delta.Math.Fp48
use y_delta.Loan.{Pubkey}
use y_delta.Order.{
  DataIndex, RestingOrder, Side, bid, ask, side_u8, limit, post_only, new_primary, cmp,
  no_expiration_last_valid_unix_ts,
}
use y_delta.Seat.{ClaimedSeat, new_empty, eq, owner_kind_user, owner_kind_sub_vault}
use y_delta.Seat.Balance.{unencumber_for_order, atoms_to_shares_at_snapshot}
use y_delta.Market.{Market}
use y_delta.Market.Engine.{set_at}

abbrev pub Orders : Type 0
Orders = List (DataIndex × RestingOrder)

-- A market with the counters and the trees that matching leaves alone.
pub record Book : Type 0 where
  pub market : Market
  pub num_bytes_allocated : ℕ
  pub order_sequence_number : ℕ
  pub position_count : ℕ
  pub bids : Orders
  pub asks : Orders
  pub claimed_seats : List DataIndex

-- `Bookside::insert`: the tree is sorted by the orders.
unfoldable pub insert_order : DataIndex → RestingOrder → Orders → Orders
insert_order i o [] = (i, o) ∷ []
insert_order i o ((j, p) ∷ orders) = elim (cmp o p) [
  | Ordering.gt ↦ (i, o) ∷ (j, p) ∷ orders
  | _ ↦ (j, p) ∷ insert_order i o orders
]

-- `Bookside::remove_by_index`
unfoldable pub remove_order : DataIndex → Orders → Orders
remove_order i [] = []
remove_order i ((j, p) ∷ orders) = if j == i then orders else (j, p) ∷ remove_order i orders

-- The first order of a side that has the sequence number and the owner.
unfoldable pub find_order : DataIndex → ℕ → Orders → Option (DataIndex × RestingOrder)
find_order seat sequence [] = none
find_order seat sequence ((j, p) ∷ orders) =
    if p.trader_seat_index == seat && p.sequence_number == sequence
    then some (j, p)
    else find_order seat sequence orders

unfoldable pub rest_order : Book → DataIndex → RestingOrder → Book
rest_order b i o =
    if o.side == side_u8 ask
    then record b { asks = insert_order i o b.asks }
    else record b { bids = insert_order i o b.bids }

abbrev pub free_block : Market → DataIndex → Market
free_block m i = record m { free_list = i ∷ m.free_list }

abbrev pub remove_order_from_tree_and_free : Book → DataIndex → RestingOrder → Book
remove_order_from_tree_and_free b i o =
    let market = free_block b.market i in
    if o.side == side_u8 ask
    then record b { asks = remove_order i b.asks; market = market }
    else record b { bids = remove_order i b.bids; market = market }

abbrev pub market_block_size : ℕ
market_block_size = 160

-- A block more at the end of the account.
unfoldable pub market_expand : Book → Result Book
market_expand b = do
  allocated ←
      ok_or (Words.checked_add u32_mod b.num_bytes_allocated market_block_size) arithmetic_overflow
  ok (record b {
    market = free_block b.market b.num_bytes_allocated;
    num_bytes_allocated = allocated;
  })

abbrev pub count_resting_bids : Book → ℕ
count_resting_bids b = length b.bids

-- Without a hint, and with one: `read` is what the bytes of a block read as.
unfoldable pub lookup_order_by_seq :
    (read : DataIndex → RestingOrder)
    → Book
    → DataIndex
    → ℕ
    → Option DataIndex
    → Result (DataIndex × RestingOrder)
lookup_order_by_seq read b seat sequence none = elim (find_order seat sequence b.asks) [
  | some found ↦ ok found
  | none ↦ elim (find_order seat sequence b.bids) [
    | some found ↦ ok found
    | none ↦ err (custom order_not_found)
  ]
]
lookup_order_by_seq read b seat sequence (some i) =
    if (read i).trader_seat_index == seat && (read i).sequence_number == sequence
    then ok (i, read i)
    else err (custom wrong_index_hint_params)

abbrev pub with_seat : Market → DataIndex → ClaimedSeat → Market
with_seat m i seat = record m { seats = set_at m.seats i seat }

unfoldable pub next_sequence : Book → Result Book
next_sequence b = do
  next ← ok_or (Words.checked_add u64_mod b.order_sequence_number 1) arithmetic_overflow
  ok (record b { order_sequence_number = next })

-- A block off the free list, for an order.
unfoldable pub rest_in_free_block : Book → RestingOrder → Result (Book × DataIndex)
rest_in_free_block b o = elim b.market.free_list [
  | [] ↦ err account_data_too_small
  | i ∷ rest ↦ ok (rest_order (record b { market = record b.market { free_list = rest } }) i o, i)
]

unfoldable pub rest_vault_ask :
    Book → (maker_seat_index rate_bps term_seconds flags : ℕ) → Result (Book × ℕ)
rest_vault_ask b maker rate term flags = do
  require (ltb 0 term) (custom term_not_compatible)
  let seat = b.market.seats maker
  count ← ok_or (Words.checked_add u32_mod seat.open_lend_count 1) arithmetic_overflow
  let market = with_seat b.market maker (record seat { open_lend_count = count })
  b₁ ← next_sequence (record b { market = market })
  let sequence = b.order_sequence_number
  rested ← rest_in_free_block b₁ (
      new_primary maker sequence ask post_only rate term u64_max 0 no_expiration_last_valid_unix_ts
        flags 0 Fp48.zero)
  ok (rested.0, sequence)

-- `update_user_bid`, at a block and the order that it holds.
unfoldable pub update_user_bid :
    Book
    → (signer : DataIndex) → DataIndex
    → RestingOrder
    → (rate term : ℕ) → (valid : ℤ) → (buffer : ℕ) → (now : ℤ) → Result (Book × ℕ)
update_user_bid b signer i o rate term valid buffer now = do
  require (o.trader_seat_index == signer) (custom order_not_owned_by_signer)
  require (o.side == side_u8 bid) (custom incorrect_account)
  require (ltb 0 term) (custom term_not_compatible)
  require (eqb_ℤ valid no_expiration_last_valid_unix_ts || ltb_ℤ now valid)
      (custom invalid_argument)
  b₁ ← next_sequence (record b { bids = remove_order i b.bids })
  let sequence = b.order_sequence_number
  ok (
    rest_order b₁ i (
        new_primary o.trader_seat_index sequence bid limit rate term o.principal_atoms
          o.collateral_atoms valid o.flags buffer o.share_price_snapshot),
    sequence,
  )

-- `tree.lookup_index` of a probe with the key.
unfoldable pub lookup_seat :
    (DataIndex → ClaimedSeat) → ClaimedSeat → List DataIndex → Option DataIndex
lookup_seat seats probe [] = none
lookup_seat seats probe (i ∷ is) = if eq (seats i) probe then some i else lookup_seat seats probe is

abbrev pub hinted : (DataIndex → ClaimedSeat) → Pubkey → DataIndex → Bool
hinted seats signer i =
    (seats i).owner == signer
    && (seats i).owner_kind == owner_kind_user
    && (seats i).sub_vault_id == 0

abbrev pub looked_up : Option DataIndex → Result DataIndex
looked_up none = err (custom no_seat_claimed)
looked_up (some i) = ok i

unfoldable pub get_seat_index_with_hint : Book → Pubkey → Option DataIndex → Result DataIndex
get_seat_index_with_hint b signer none =
    looked_up (lookup_seat b.market.seats (new_empty signer owner_kind_user 0) b.claimed_seats)
get_seat_index_with_hint b signer (some i) =
    if hinted b.market.seats signer i
    then ok i
    else looked_up (lookup_seat b.market.seats (new_empty signer owner_kind_user 0) b.claimed_seats)

abbrev pub is_claimed : Option DataIndex → Bool
is_claimed none = false
is_claimed (some i) = true

-- The new seat takes a block off the free list.
abbrev pub seat_in_block : Book → ClaimedSeat → List DataIndex → Result Book
seat_in_block b seat [] = err account_data_too_small
seat_in_block b seat (i ∷ rest) = do
  count ← ok_or (Words.checked_add u32_mod b.position_count 1) arithmetic_overflow
  ok (record b {
    market = record (with_seat b.market i seat) { free_list = rest };
    claimed_seats = i ∷ b.claimed_seats;
    position_count = count;
  })

unfoldable pub claim_seat_with_sub_vault :
    Book → Pubkey → (owner_kind sub_vault_id : ℕ) → Result Book
claim_seat_with_sub_vault b owner owner_kind sub_vault_id = do
  let probe = new_empty owner owner_kind sub_vault_id
  require (not (is_claimed (lookup_seat b.market.seats probe b.claimed_seats)))
      (custom already_claimed_seat)
  seat_in_block b probe b.market.free_list

abbrev pub claim_seat : Book → Pubkey → ℕ → Result Book
claim_seat b owner owner_kind = claim_seat_with_sub_vault b owner owner_kind 0

-- `let side`
abbrev pub side_of : RestingOrder → Side
side_of o = if o.side == side_u8 bid then bid else ask

module _ ⦃w : Uint256⦄ where
  -- The shares that an order had locked go back to its seat, at the order's own share price.
  unfoldable pub release_order : Market → Side → RestingOrder → Result Market
  release_order m side o = do
    principal ← atoms_to_shares_at_snapshot o.principal_atoms o.share_price_snapshot
    coll ← atoms_to_shares_at_snapshot o.collateral_atoms o.share_price_snapshot
    seat ← unencumber_for_order (m.seats o.trader_seat_index) side principal coll
    ok (with_seat m o.trader_seat_index seat)

  abbrev pub cancel_vault_ask : Book → DataIndex → RestingOrder → Result Book
  cancel_vault_ask b i o = do
    let seat = b.market.seats o.trader_seat_index
    count ← ok_or (Words.checked_sub seat.open_lend_count 1) arithmetic_overflow
    let market = with_seat b.market o.trader_seat_index (record seat { open_lend_count = count })
    ok (remove_order_from_tree_and_free (record b { market = market }) i o)

  -- `cancel_order_by_index`, at a block and the order that it holds.
  unfoldable pub cancel_order_by_index :
      Book → (signer : DataIndex) → DataIndex → RestingOrder → Result Book
  cancel_order_by_index b signer i o = do
    require (o.trader_seat_index == signer) (custom order_not_owned_by_signer)
    if (b.market.seats o.trader_seat_index).owner_kind == owner_kind_sub_vault
        then cancel_vault_ask b i o
        else (release_order b.market (side_of o) o >>= λ market.
            ok (remove_order_from_tree_and_free (record b { market = market }) i o))
