-- ===== src/Seat/Tests.antt =====
-- Runs of the seat functions at a concrete seat, and the theorems there.
use Prim.Native.Nat.{Ordering}
use y_delta.Prelude.{
  ◌≡◌, ◌↔◌, refl, true, ok, err, custom, insufficient_withdrawable_balance, arith,
}
use y_delta.Order.{ask}
use y_delta.Seat.{ClaimedSeat, new_empty, cmp, eq}
use y_delta.Seat.Balance.{encumber_for_order, unencumber_for_order, update_balance}
use y_delta.Seat.Moves.{unencumber_for_order-encumber_for_order, cmp-eq}

abbrev seat : ClaimedSeat
seat = record (new_empty 8 0 0) {
  debt_withdrawable_shares = 900;
  collateral_withdrawable_shares = 500;
  collateral_encumbered_shares = 70;
  open_borrow_count = 1;
}

abbrev seat_lending : ClaimedSeat
seat_lending = record seat {
  debt_withdrawable_shares = 200;
  debt_encumbered_shares = 700;
  open_lend_count = 1;
}

lend : encumber_for_order seat ask 700 0 ≡ ok seat_lending
unfolding encumber_for_order update_balance
lend = refl

lend_too_much : encumber_for_order seat ask 901 0 ≡ err (custom insufficient_withdrawable_balance)
unfolding encumber_for_order update_balance
lend_too_much = refl

unencumber_for_order-encumber_for_order_example :
    unencumber_for_order seat_lending ask 700 0 ≡ ok seat
unencumber_for_order-encumber_for_order_example =
    unencumber_for_order-encumber_for_order seat ask 700 0 (omega arith) (omega arith) lend

cmp-eq_example :
    ((cmp seat seat_lending ≡ Ordering.eq) ↔ (eq seat seat_lending ≡ true))
    × ((eq seat seat_lending ≡ true) ↔ (
        (seat.owner_kind ≡ seat_lending.owner_kind)
        × (seat.owner ≡ seat_lending.owner)
        × (seat.sub_vault_id ≡ seat_lending.sub_vault_id)))
cmp-eq_example = cmp-eq seat seat_lending
