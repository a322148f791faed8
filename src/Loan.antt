-- ===== src/Loan.antt =====
-- A loan account: programs/ydelta/src/state/loan.rs. The padding and reserved bytes of `LoanFixed`
-- are left out. A `Pubkey` is only compared, so it is the number that its bytes spell.
pub mod Accrue
pub mod Resolution
pub mod Conservation
pub mod Split
pub mod Refusal
pub mod Interest
pub mod Paths
pub mod Lifecycle
mod Tests
use Prim.Native.Nat.{compare, Ordering}
use y_delta.Prelude.{
  ℕ, ◌*◌, ◌^◌, Bool, ◌&&◌, Result, ok, err, custom, invalid_argument, invalid_account_data, require,
  ◌>>=◌, ◌>>◌, map_ok, ◌==◌, if◌then◌else◌,
}
use y_delta.Prelude.Int.{ℤ, pos, saturating_add_i64}
use y_delta.Math.Fp48.{Fp48}

abbrev pub Pubkey : Type 0
Pubkey = ℕ

abbrev pub bps_per_unit : ℕ
bps_per_unit = 10_000

abbrev pub seconds_per_year : ℕ
seconds_per_year = 365 * 24 * 60 * 60

abbrev pub loan_fixed_discriminant : ℕ
loan_fixed_discriminant = 0x79_64_65_6C_74_61_4C_4E

abbrev pub account_layout_version : ℕ
account_layout_version = 2

pub data LoanState : Type 0 where
  active repaid : LoanState

pub data LoanType : Type 0 where
  fixed p2pool : LoanType

module _ where
  -- The discriminants, `LoanState::X as u8`.
  abbrev pub state_u8 : LoanState → ℕ
  state_u8 active = 0
  state_u8 repaid = 3

  abbrev pub type_u8 : LoanType → ℕ
  type_u8 fixed = 0
  type_u8 p2pool = 1

-- `LoanState::from_u8`
unfoldable pub state_from_u8 : ℕ → Result LoanState
state_from_u8 v =
    if v == 0 then ok active else if v == 3 then ok repaid else err invalid_account_data

-- `LoanType::from_u8`
unfoldable pub type_from_u8 : ℕ → Result LoanType
type_from_u8 v = if v == 0 then ok fixed else if v == 1 then ok p2pool else err invalid_account_data

pub record LoanFixed : Type 0 where
  pub discriminator : ℕ
  pub market : Pubkey
  pub created_by : Pubkey
  pub matched_loan_sequence : ℕ
  pub borrower_marginfi_borrow_shares : ℕ
  pub origination_ltv_bps : ℕ
  pub liquidation_ltv_bps : ℕ
  pub principal_debt_atoms : ℕ
  pub outstanding_debt_atoms : ℕ
  pub lender_claimable_atoms : ℕ
  pub collateral_atoms : ℕ
  pub accumulated_protocol_fee_atoms : ℕ
  pub accumulated_curator_fee_atoms : ℕ
  pub started_at_unix : ℤ
  pub matures_at_unix : ℤ
  pub last_accrued_unix : ℤ
  pub lender_seat_index : ℕ
  pub borrower_seat_index : ℕ
  pub borrower_rate_bps : ℕ
  pub lender_rate_bps : ℕ
  pub state : ℕ
  pub loan_type : ℕ
  pub flags : ℕ
  pub version : ℕ
  pub bump : ℕ
  pub lender_kind : ℕ
  pub lender_sub_vault_id : ℕ
  pub curator_fee_bps_snapshot : ℕ
  pub lender_global_vault : Pubkey
  pub principal_retired_atoms : ℕ
  pub cumulative_lender_gross_interest_atoms : ℕ
  pub lender_debt_share_price_snapshot_fp48 : Fp48
  pub borrower_collateral_share_price_snapshot_fp48 : Fp48

unfoldable pub verify_discriminant : LoanFixed → Result (Unit {0})
verify_discriminant l = require (l.discriminator == loan_fixed_discriminant) invalid_account_data

unfoldable pub verify_version : LoanFixed → Result (Unit {0})
verify_version l = require (l.version == account_layout_version) invalid_account_data

abbrev pub eq_state : LoanState → LoanState → Bool
eq_state a b = state_u8 a == state_u8 b

-- The method `loan_state`.
unfoldable pub loan_state : LoanFixed → Result LoanState
unfolding state_from_u8
loan_state l = state_from_u8 l.state

-- The method `loan_type`.
unfoldable pub type_of : LoanFixed → Result LoanType
unfolding type_from_u8
type_of l = type_from_u8 l.loan_type

unfoldable pub assert_state : LoanFixed → LoanState → Result (Unit {0})
unfolding state_from_u8
assert_state l expected = do
  actual ← state_from_u8 l.state
  require (eq_state actual expected) (custom invalid_argument)

unfoldable pub is_active : LoanFixed → Result Bool
unfolding loan_state
is_active l = map_ok (λ s. eq_state s active) (loan_state l)

unfoldable pub is_repaid : LoanFixed → Result Bool
unfolding loan_state
is_repaid l = map_ok (λ s. eq_state s repaid) (loan_state l)

-- `impl Ord for LoanFixed`
unfoldable pub cmp : LoanFixed → LoanFixed → Ordering
cmp a b = elim (compare a.matched_loan_sequence b.matched_loan_sequence) [
  | Ordering.eq ↦ compare a.market b.market
  | Ordering.lt ↦ Ordering.lt
  | Ordering.gt ↦ Ordering.gt
]

-- `impl PartialEq for LoanFixed`
unfoldable pub eq : LoanFixed → LoanFixed → Bool
eq a b = a.matched_loan_sequence == b.matched_loan_sequence && a.market == b.market

-- `LoanFixed::new_from_matched_loan_with_lender`, with its arguments in the source's order.
unfoldable pub new_from_matched_loan_with_lender :
    (market : Pubkey) (sequence bump : ℕ) (created_by : Pubkey)
    (lender_seat_index borrower_seat_index : ℕ) (principal_atoms net_principal collateral_atoms : ℕ)
    (borrower_rate_bps lender_rate_bps term_seconds : ℕ) (matched_at_unix : ℤ) (flags : ℕ)
    (loan_type : LoanType) (borrower_marginfi_borrow_shares lender_kind lender_sub_vault_id : ℕ)
    (lender_global_vault : Pubkey) (curator_fee_bps_snapshot : ℕ)
    (lender_snapshot borrower_snapshot : Fp48)
    → LoanFixed
new_from_matched_loan_with_lender market sequence bump created_by lender_seat borrower_seat
      principal net collateral borrower_rate lender_rate term matched_at flags loan_type
      borrow_shares lender_kind lender_sub_vault lender_vault curator_fee lender_snapshot
      borrower_snapshot =
    record {
      discriminator = loan_fixed_discriminant;
      market = market;
      created_by = created_by;
      matched_loan_sequence = sequence;
      borrower_marginfi_borrow_shares = borrow_shares;
      origination_ltv_bps = 0;
      liquidation_ltv_bps = 0;
      principal_debt_atoms = principal;
      outstanding_debt_atoms = net;
      lender_claimable_atoms = net;
      collateral_atoms = collateral;
      accumulated_protocol_fee_atoms = 0;
      accumulated_curator_fee_atoms = 0;
      started_at_unix = matched_at;
      matures_at_unix = saturating_add_i64 matched_at (pos term);
      last_accrued_unix = matched_at;
      lender_seat_index = lender_seat;
      borrower_seat_index = borrower_seat;
      borrower_rate_bps = borrower_rate;
      lender_rate_bps = lender_rate;
      state = state_u8 active;
      loan_type = type_u8 loan_type;
      flags = flags;
      version = account_layout_version;
      bump = bump;
      lender_kind = lender_kind;
      lender_sub_vault_id = lender_sub_vault;
      curator_fee_bps_snapshot = curator_fee;
      lender_global_vault = lender_vault;
      principal_retired_atoms = 0;
      cumulative_lender_gross_interest_atoms = 0;
      lender_debt_share_price_snapshot_fp48 = lender_snapshot;
      borrower_collateral_share_price_snapshot_fp48 = borrower_snapshot;
    }

-- `LoanFixed::new_from_matched_loan`: a user wallet lends, so the vault fields are zero.
unfoldable pub new_from_matched_loan :
    (market : Pubkey) (sequence bump : ℕ) (created_by : Pubkey)
    (lender_seat_index borrower_seat_index : ℕ) (principal_atoms net_principal collateral_atoms : ℕ)
    (borrower_rate_bps lender_rate_bps term_seconds : ℕ) (matched_at_unix : ℤ) (flags : ℕ)
    (loan_type : LoanType) (borrower_marginfi_borrow_shares : ℕ)
    (lender_snapshot borrower_snapshot : Fp48)
    → LoanFixed
unfolding new_from_matched_loan_with_lender
new_from_matched_loan m s b c ls bs p n coll br lr t at f ty sh l r =
    new_from_matched_loan_with_lender m s b c ls bs p n coll br lr t at f ty sh 0 0 0 0 l r
