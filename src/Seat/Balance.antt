-- ===== src/Seat/Balance.antt =====
-- The balance primitives of a seat: programs/ydelta/src/state/market_helpers.rs.
use y_delta.Prelude.{
  ℕ, min, Bool, Result, ok, err, custom, arithmetic_overflow, insufficient_withdrawable_balance,
  insufficient_encumbered_collateral, math_division_by_zero, require, ok_or, ◌>>=◌, ◌>>◌, map_ok,
  leb, if◌then◌else◌, u32_mod, u128_mod,
}
use y_delta.Prelude.Words
use y_delta.Math.Uint256.{Uint256}
use y_delta.Math.Fp48
use y_delta.Math.Fp48.{Fp48}
use y_delta.Order.{Side, bid, ask}
use y_delta.Seat.{ClaimedSeat}

pub data BalanceAxis : Type 0 where
  debt collateral : BalanceAxis

pub data BalanceBucket : Type 0 where
  withdrawable encumbered : BalanceBucket

pub data BalanceSign : Type 0 where
  plus minus : BalanceSign

module _ where
  -- `match (axis, bucket)`, read and written.
  abbrev pub get : ClaimedSeat → BalanceAxis → BalanceBucket → ℕ
  get s debt withdrawable = s.debt_withdrawable_shares
  get s debt encumbered = s.debt_encumbered_shares
  get s collateral withdrawable = s.collateral_withdrawable_shares
  get s collateral encumbered = s.collateral_encumbered_shares

  abbrev pub set : ClaimedSeat → BalanceAxis → BalanceBucket → ℕ → ClaimedSeat
  set s debt withdrawable x = record s { debt_withdrawable_shares = x }
  set s debt encumbered x = record s { debt_encumbered_shares = x }
  set s collateral withdrawable x = record s { collateral_withdrawable_shares = x }
  set s collateral encumbered x = record s { collateral_encumbered_shares = x }

  -- `match sign`
  abbrev pub apply_sign : BalanceSign → ℕ → ℕ → Result ℕ
  apply_sign plus field atoms = ok_or (Words.checked_add u128_mod field atoms) arithmetic_overflow
  apply_sign minus field atoms =
      ok_or (Words.checked_sub field atoms) (custom insufficient_withdrawable_balance)

unfoldable pub update_balance :
    ClaimedSeat → BalanceAxis → BalanceBucket → BalanceSign → ℕ → Result ClaimedSeat
update_balance s axis bucket sign atoms = do
  field ← apply_sign sign (get s axis bucket) atoms
  ok (set s axis bucket field)

-- `move_shares s axis from to`: out of one bucket and into another of the same axis.
abbrev pub move_shares :
    ClaimedSeat → BalanceAxis → (from into : BalanceBucket) → ℕ → Result ClaimedSeat
move_shares s axis from into shares = do
  s₁ ← update_balance s axis from minus shares
  update_balance s₁ axis into plus shares

unfoldable pub encumber_for_order : ClaimedSeat → Side → (principal coll : ℕ) → Result ClaimedSeat
encumber_for_order s bid principal coll = move_shares s collateral withdrawable encumbered coll
encumber_for_order s ask principal coll = do
  s₁ ← move_shares s debt withdrawable encumbered principal
  count ← ok_or (Words.checked_add u32_mod s₁.open_lend_count 1) arithmetic_overflow
  ok (record s₁ { open_lend_count = count })

unfoldable pub unencumber_for_order : ClaimedSeat → Side → (principal coll : ℕ) → Result ClaimedSeat
unencumber_for_order s bid principal coll = move_shares s collateral encumbered withdrawable coll
unencumber_for_order s ask principal coll = do
  s₁ ← move_shares s debt encumbered withdrawable principal
  count ← ok_or (Words.checked_sub s₁.open_lend_count 1) arithmetic_overflow
  ok (record s₁ { open_lend_count = count })

unfoldable pub release_loan_collateral :
    ClaimedSeat → (total_collateral_shares returned_shares : ℕ) → Result ClaimedSeat
release_loan_collateral s total returned = do
  require (leb total s.collateral_encumbered_shares) (custom insufficient_encumbered_collateral)
  rest ← ok_or (Words.checked_sub s.collateral_encumbered_shares total) arithmetic_overflow
  free ←
      ok_or (Words.checked_add u128_mod s.collateral_withdrawable_shares (min returned total))
        arithmetic_overflow
  ok (record s { collateral_encumbered_shares = rest; collateral_withdrawable_shares = free })

-- `if is_debt`
abbrev pub axis_of : Bool → BalanceAxis
axis_of is_debt = if is_debt then debt else collateral

unfoldable pub deposit_to_seat : ClaimedSeat → ℕ → Bool → Result ClaimedSeat
deposit_to_seat s shares is_debt = update_balance s (axis_of is_debt) withdrawable plus shares

unfoldable pub withdraw_from_seat : ClaimedSeat → ℕ → Bool → Result ClaimedSeat
withdraw_from_seat s shares is_debt = update_balance s (axis_of is_debt) withdrawable minus shares

unfoldable pub withdrawable_shares_for_seat : ClaimedSeat → Bool → ℕ
withdrawable_shares_for_seat s is_debt =
    if is_debt then s.debt_withdrawable_shares else s.collateral_withdrawable_shares

module _ ⦃w : Uint256⦄ where
  unfoldable pub atoms_to_shares_at_snapshot : ℕ → Fp48 → Result ℕ
  atoms_to_shares_at_snapshot atoms snapshot =
      if Fp48.is_zero snapshot
      then err (custom math_division_by_zero)
      else map_ok (λ x. x.raw) (Fp48.checked_div (Fp48.from_atoms atoms) snapshot)
