-- ===== src/User/Spec.antt =====
-- What the account of a user is for, in place of programs/ydelta/src/state/user_account.rs: four maps
-- and the operations on them. The maps forget the blocks, the free list and the counters.
use y_delta.Prelude.{ℕ, none, some, Result, map_ok, ◌==◌, if◌then◌else◌}
use mathlib.Core.Option.{map}
use y_delta.Loan.{Pubkey}
use y_delta.Order.{DataIndex}
use y_delta.Seat.{new_empty}
use y_delta.Market.Book.{Book, lookup_seat}
use y_delta.Nodes.Registry.{Registry, view, add, delete}
use y_delta.User.{
  UserAccount, VaultPosition, MarketPosition, UserLoanRef, UserOrderRef, vault_position_keys,
  market_position_keys, open_loan_keys, user_order_keys, empty_vault_position,
  empty_market_position, sync_from_seat, insert_user_order, remove_user_order,
  upsert_market_position, upsert_vault_position, remove_vault_position, insert_open_loan,
  remove_open_loan, user_account_expand, sync_signer_market_position,
}

pub record Registries : Type 0 where
  pub vaults : Registry (ℕ × ℕ) VaultPosition
  pub markets : Registry Pubkey MarketPosition
  pub loans : Registry Pubkey UserLoanRef
  pub orders : Registry (ℕ × ℕ) UserOrderRef

abbrev pub registries : UserAccount → Registries
registries acc = record {
  vaults = view vault_position_keys acc.vault_positions;
  markets = view market_position_keys acc.market_positions;
  loans = view open_loan_keys acc.open_loans;
  orders = view user_order_keys acc.open_orders;
}

-- The operations of user_account.rs on an account after its creation, and the sync of market positions.
-- The shares and the time that a deposit or a withdrawal writes to a vault position are left out.
pub data UserOp : Type 0 where
  order_rests : UserOrderRef → UserOp
  order_ends : Pubkey → ℕ → UserOp
  market_opens : Pubkey → DataIndex → UserOp
  vault_opens vault_closes : Pubkey → ℕ → UserOp
  loan_opens : UserLoanRef → UserOp
  loan_closes : Pubkey → UserOp
  seat_moves : Book → Pubkey → Pubkey → UserOp
  grows : UserOp

unfoldable pub run : UserOp → UserAccount → Result UserAccount
run (order_rests o) acc = map_ok (λ q. q.0) (insert_user_order acc o)
run (order_ends market sequence) acc = map_ok (λ q. q.0) (remove_user_order acc market sequence)
run (market_opens market i) acc = map_ok (λ q. q.0) (upsert_market_position acc market i)
run (vault_opens vault id) acc = map_ok (λ q. q.0) (upsert_vault_position acc vault id)
run (vault_closes vault id) acc = map_ok (λ q. q.0) (remove_vault_position acc vault id)
run (loan_opens l) acc = map_ok (λ q. q.0) (insert_open_loan acc l)
run (loan_closes loan) acc = map_ok (λ q. q.0) (remove_open_loan acc loan)
run (seat_moves b market signer) acc = sync_signer_market_position b market acc signer
run grows acc = user_account_expand acc

-- The position of a market after its seat was copied, which opens one if there is none.
abbrev pub synced :
    Book → Pubkey → DataIndex → Registry Pubkey MarketPosition → Registry Pubkey MarketPosition
synced b market i r k =
    if market == k
    then map (sync_from_seat (b.market.seats i))
        (add market_position_keys r (empty_market_position market i) market)
    else add market_position_keys r (empty_market_position market i) k

unfoldable pub spec : UserOp → Registries → Registries
spec (order_rests o) r = record r { orders = add user_order_keys r.orders o }
spec (order_ends market sequence) r = record r {
  orders = delete user_order_keys r.orders (market, sequence);
}
spec (market_opens market i) r = record r {
  markets = add market_position_keys r.markets (empty_market_position market i);
}
spec (vault_opens vault id) r = record r {
  vaults = add vault_position_keys r.vaults (empty_vault_position vault id);
}
spec (vault_closes vault id) r = record r {
  vaults = delete vault_position_keys r.vaults (vault, id);
}
spec (loan_opens l) r = record r { loans = add open_loan_keys r.loans l }
spec (loan_closes loan) r = record r { loans = delete open_loan_keys r.loans loan }
spec (seat_moves b market signer) r =
    elim (lookup_seat b.market.seats (new_empty signer 0 0) b.claimed_seats) [
      | none ↦ r
      | some i ↦ record r { markets = synced b market i r.markets }
    ]
spec grows r = r
