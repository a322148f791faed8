-- ===== src/Seat.antt =====
-- A trader's seat in a market: programs/ydelta/src/state/claimed_seat.rs, and the moves between the
-- balances of a seat in programs/ydelta/src/state/market_helpers.rs. A function that looks the seat
-- up by its index and changes it in place is here the change of the seat.
pub mod Balance
pub mod Moves
mod Tests
use Prim.Native.Nat.{compare, Ordering}
use y_delta.Prelude.{ℕ, Bool, ◌&&◌, ◌==◌}
use y_delta.Loan.{Pubkey}

abbrev pub owner_kind_user : ℕ
owner_kind_user = 0

abbrev pub owner_kind_sub_vault : ℕ
owner_kind_sub_vault = 1

pub record ClaimedSeat : Type 0 where
  pub owner : Pubkey
  pub debt_withdrawable_shares : ℕ
  pub debt_encumbered_shares : ℕ
  pub collateral_withdrawable_shares : ℕ
  pub collateral_encumbered_shares : ℕ
  pub open_borrow_count : ℕ
  pub open_lend_count : ℕ
  pub owner_kind : ℕ
  pub sub_vault_id : ℕ

abbrev pub new_empty : Pubkey → ℕ → ℕ → ClaimedSeat
new_empty owner owner_kind sub_vault_id = record {
  owner = owner;
  debt_withdrawable_shares = 0;
  debt_encumbered_shares = 0;
  collateral_withdrawable_shares = 0;
  collateral_encumbered_shares = 0;
  open_borrow_count = 0;
  open_lend_count = 0;
  owner_kind = owner_kind;
  sub_vault_id = sub_vault_id;
}

-- `impl Ord for ClaimedSeat`: by kind, then owner, then sub-vault.
unfoldable pub cmp : ClaimedSeat → ClaimedSeat → Ordering
cmp a b = elim (compare a.owner_kind b.owner_kind) [
  | Ordering.lt ↦ Ordering.lt
  | Ordering.gt ↦ Ordering.gt
  | Ordering.eq ↦ elim (compare a.owner b.owner) [
    | Ordering.lt ↦ Ordering.lt
    | Ordering.gt ↦ Ordering.gt
    | Ordering.eq ↦ compare a.sub_vault_id b.sub_vault_id
  ]
]

-- `impl PartialEq for ClaimedSeat`
unfoldable pub eq : ClaimedSeat → ClaimedSeat → Bool
eq a b = a.owner_kind == b.owner_kind && a.owner == b.owner && a.sub_vault_id == b.sub_vault_id
