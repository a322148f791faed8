-- ===== src/Order.antt =====
-- A resting order: programs/ydelta/src/state/resting_order.rs, and the gates on orders in
-- programs/ydelta/src/state/utils.rs. The padding and reserved bytes of `RestingOrder` are left out,
-- and the 16 bytes of its share price are the number that they spell.
pub mod Compare
pub mod Amounts
mod Tests
use Prim.Native.Nat.{compare, Ordering}
use y_delta.Prelude.{
  ℕ, Bool, not, ◌&&◌, Result, ok, err, custom, arithmetic_overflow, order_already_expired,
  post_only_would_cross, require, ok_or, ◌>>=◌, ◌==◌, if◌then◌else◌, u64_mod,
}
use y_delta.Prelude.Words
use y_delta.Prelude.Int.{ℤ, pos, eqb_ℤ, ltb_ℤ}
use y_delta.Math.Fp48.{Fp48}

-- The address of a block in an account's dynamic region.
abbrev pub DataIndex : Type 0
DataIndex = ℕ

abbrev pub no_expiration_last_valid_unix_ts : ℤ
no_expiration_last_valid_unix_ts = pos 0

pub data Side : Type 0 where
  bid ask : Side

pub data OrderType : Type 0 where
  limit immediate_or_cancel post_only : OrderType

module _ where
  -- The discriminants, `side as u8` and `order_type as u8`.
  abbrev pub side_u8 : Side → ℕ
  side_u8 bid = 0
  side_u8 ask = 1

  abbrev pub order_type_u8 : OrderType → ℕ
  order_type_u8 limit = 0
  order_type_u8 immediate_or_cancel = 1
  order_type_u8 post_only = 2

-- Every order type but immediate-or-cancel may rest.
abbrev pub order_type_can_rest : OrderType → Bool
order_type_can_rest t = not (order_type_u8 t == order_type_u8 immediate_or_cancel)

-- Every order type but post-only may take.
abbrev pub order_type_can_take : OrderType → Bool
order_type_can_take t = not (order_type_u8 t == order_type_u8 post_only)

pub record RestingOrder : Type 0 where
  pub trader_seat_index : DataIndex
  pub sequence_number : ℕ
  pub principal_atoms : ℕ
  pub collateral_atoms : ℕ
  pub last_valid_unix_ts : ℤ
  pub term_seconds : ℕ
  pub rate_bps : ℕ
  pub side : ℕ
  pub order_type : ℕ
  pub flags : ℕ
  pub share_price_snapshot : Fp48
  pub ltv_buffer_bps : ℕ

abbrev pub new_primary :
    (trader_seat_index : DataIndex) (sequence_number : ℕ) (side : Side) (order_type : OrderType)
    (rate_bps term_seconds principal_atoms collateral_atoms : ℕ) (last_valid_unix_ts : ℤ)
    (flags ltv_buffer_bps : ℕ) (share_price_snapshot : Fp48)
    → RestingOrder
new_primary seat sequence side order_type rate term principal collateral valid flags buffer price =
    record {
      trader_seat_index = seat;
      sequence_number = sequence;
      principal_atoms = principal;
      collateral_atoms = collateral;
      last_valid_unix_ts = valid;
      term_seconds = term;
      rate_bps = rate;
      side = side_u8 side;
      order_type = order_type_u8 order_type;
      flags = flags;
      share_price_snapshot = price;
      ltv_buffer_bps = buffer;
    }

unfoldable pub set_share_price_snapshot : RestingOrder → Fp48 → RestingOrder
set_share_price_snapshot o value = record o { share_price_snapshot = value }

unfoldable pub is_expired : RestingOrder → ℤ → Bool
is_expired o now =
    not (eqb_ℤ o.last_valid_unix_ts no_expiration_last_valid_unix_ts)
    && ltb_ℤ o.last_valid_unix_ts now

unfoldable pub reduce : RestingOrder → ℕ → Result RestingOrder
reduce o atoms = do
  principal ← ok_or (Words.checked_sub o.principal_atoms atoms) arithmetic_overflow
  ok (record o { principal_atoms = principal })

unfoldable pub increase : RestingOrder → ℕ → Result RestingOrder
increase o atoms = do
  principal ← ok_or (Words.checked_add u64_mod o.principal_atoms atoms) arithmetic_overflow
  ok (record o { principal_atoms = principal })

-- `let rate_cmp`: the higher bid, or the lower ask, is the greater.
unfoldable pub rate_cmp : RestingOrder → RestingOrder → Ordering
rate_cmp a b =
    if a.side == side_u8 bid then compare a.rate_bps b.rate_bps else compare b.rate_bps a.rate_bps

-- `impl Ord for RestingOrder`: at one rate the earlier order is the greater.
unfoldable pub cmp : RestingOrder → RestingOrder → Ordering
cmp a b = elim (rate_cmp a b) [
  | Ordering.eq ↦ compare b.sequence_number a.sequence_number
  | Ordering.lt ↦ Ordering.lt
  | Ordering.gt ↦ Ordering.gt
]

-- `impl PartialEq for RestingOrder`
unfoldable pub eq : RestingOrder → RestingOrder → Bool
eq a b = a.rate_bps == b.rate_bps && a.sequence_number == b.sequence_number

unfoldable pub assert_not_already_expired : ℤ → ℤ → Result (Unit {0})
assert_not_already_expired last_valid now =
    if not (eqb_ℤ last_valid (pos 0)) && ltb_ℤ last_valid now
    then err (custom order_already_expired)
    else ok tt

unfoldable pub assert_can_take : OrderType → Result (Unit {0})
assert_can_take t = require (order_type_can_take t) (custom post_only_would_cross)
