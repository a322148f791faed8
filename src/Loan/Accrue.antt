-- ===== src/Loan/Accrue.antt =====
-- Interest on a fixed-term loan: `accrue_loan` in programs/ydelta/src/state/loan.rs. A failed call
-- aborts the transaction and the runtime drops its writes, so the model keeps no state of it.
use y_delta.Prelude.{
  ℕ, false, ◌*◌, Bool, not, ◌&&◌, ◌||◌, Option, none, some, Result, ok, err, custom,
  arithmetic_overflow, math_overflow, invalid_argument, ok_or, ◌>>=◌, ◌==◌, ltb, if◌then◌else◌,
  u64_mod, u128_mod,
}
use y_delta.Prelude.Words
use y_delta.Prelude.Int.{ℤ, pos, negsuc, eqb_ℤ, ltb_ℤ, checked_sub_i64}
use y_delta.Math.Uint256.{Uint256}
use y_delta.Math.Scale.{mul_div}
use y_delta.Seat.{owner_kind_sub_vault}
use y_delta.Loan.{LoanFixed, repaid, p2pool, state_u8, type_u8, bps_per_unit, seconds_per_year}

abbrev pub interest_denom : ℕ
interest_denom = bps_per_unit * seconds_per_year

-- The closure `checked_add_u64`: `sum > u64::MAX` is tested as not below 2 ^ 64.
unfoldable pub checked_add_u64 : ℕ → ℕ → Result ℕ
checked_add_u64 a b = do
  sum ← ok_or (Words.checked_add u128_mod a b) arithmetic_overflow
  if ltb sum u64_mod then ok sum else err arithmetic_overflow

-- `match now.checked_sub(started) { Some(d) if d > 0 => .. }`
unfoldable pub total_elapsed : ℤ → ℤ → Option ℕ
total_elapsed now started = elim (checked_sub_i64 now started) [
  | none ↦ none
  | some (negsuc d) ↦ none
  | some (pos d) ↦ if d == 0 then none else some d
]

-- `last.checked_sub(started).filter(|d| *d >= 0) .. .unwrap_or(0)`
unfoldable pub prior_elapsed : ℤ → ℤ → ℕ
prior_elapsed last started = elim (checked_sub_i64 last started) [
  | none ↦ 0
  | some (negsuc d) ↦ 0
  | some (pos d) ↦ d
]

-- Interest since the start at the lender's rate and at the spread, now and at the last pass.
pub record Cumulatives : Type 0 where
  pub gross_now : ℕ
  pub gross_prior : ℕ
  pub spread_now : ℕ
  pub spread_prior : ℕ

-- `let cum_borrower_now` to `let spread_interest`: the borrower's interest and the spread's part.
unfoldable pub borrower_split : Cumulatives → Result (ℕ × ℕ)
borrower_split c = do
  borrower_now ← ok_or (Words.checked_add u128_mod c.gross_now c.spread_now) arithmetic_overflow
  borrower_prior ←
      ok_or (Words.checked_add u128_mod c.gross_prior c.spread_prior) arithmetic_overflow
  borrower_interest ← ok_or (Words.checked_sub borrower_now borrower_prior) arithmetic_overflow
  spread_interest ← ok_or (Words.checked_sub c.spread_now c.spread_prior) arithmetic_overflow
  ok (borrower_interest, spread_interest)

-- What one pass credits, and the lender's gross interest since the start.
pub record Interest : Type 0 where
  pub borrower_interest : ℕ
  pub lender_net : ℕ
  pub curator_take : ℕ
  pub spread_interest : ℕ
  pub cum_lender_gross_now : ℕ

abbrev pub curator_active : LoanFixed → Bool
curator_active l = l.lender_kind == owner_kind_sub_vault && ltb 0 l.curator_fee_bps_snapshot

abbrev pub touch : LoanFixed → ℤ → LoanFixed
touch l now = record l { last_accrued_unix = now }

-- The writes at the end of `accrue_loan`.
unfoldable pub credit : LoanFixed → ℤ → Interest → Result LoanFixed
credit l now i = do
  outstanding ← checked_add_u64 l.outstanding_debt_atoms i.borrower_interest
  claimable ← checked_add_u64 l.lender_claimable_atoms i.lender_net
  curator ← checked_add_u64 l.accumulated_curator_fee_atoms i.curator_take
  protocol ← checked_add_u64 l.accumulated_protocol_fee_atoms i.spread_interest
  cumulative ← ok_or (Words.try_from u64_mod i.cum_lender_gross_now) arithmetic_overflow
  ok (record l {
    outstanding_debt_atoms = outstanding;
    lender_claimable_atoms = claimable;
    accumulated_curator_fee_atoms = curator;
    accumulated_protocol_fee_atoms = protocol;
    cumulative_lender_gross_interest_atoms = cumulative;
    last_accrued_unix = now;
  })

module _ ⦃w : Uint256⦄ where
  -- The closure `cumulative_at`: simple interest since the start, rounded down.
  unfoldable pub cumulative_at : ℕ → ℕ → ℕ → Result ℕ
  cumulative_at principal rate_bps elapsed = do
    rate_times_elapsed ← ok_or (Words.checked_mul u128_mod rate_bps elapsed) (custom math_overflow)
    mul_div principal rate_times_elapsed interest_denom false

  -- The closure `cum_curator_fee`.
  unfoldable pub cum_curator_fee : LoanFixed → ℕ → Result ℕ
  cum_curator_fee l cum_lender_gross =
      if not (curator_active l)
      then ok 0
      else mul_div cum_lender_gross l.curator_fee_bps_snapshot bps_per_unit false

  -- `let spread_bps` to `let cum_spread_prior`.
  unfoldable pub cumulatives : LoanFixed → ℕ → ℕ → Result Cumulatives
  cumulatives l total prior = do
    spread_bps ← ok_or (Words.checked_sub l.borrower_rate_bps l.lender_rate_bps) arithmetic_overflow
    gross_now ← cumulative_at l.principal_debt_atoms l.lender_rate_bps total
    gross_prior ← cumulative_at l.principal_debt_atoms l.lender_rate_bps prior
    spread_now ← cumulative_at l.principal_debt_atoms spread_bps total
    spread_prior ← cumulative_at l.principal_debt_atoms spread_bps prior
    ok (record {
      gross_now = gross_now;
      gross_prior = gross_prior;
      spread_now = spread_now;
      spread_prior = spread_prior;
    })

  -- `let cum_curator_now` to `let lender_net`: the curator's take and the lender's net.
  unfoldable pub lender_split : LoanFixed → ℕ → ℕ → Result (ℕ × ℕ)
  lender_split l gross_now gross_prior = do
    curator_now ← cum_curator_fee l gross_now
    curator_prior ← cum_curator_fee l gross_prior
    curator_take ← ok_or (Words.checked_sub curator_now curator_prior) arithmetic_overflow
    net_now ← ok_or (Words.checked_sub gross_now curator_now) arithmetic_overflow
    net_prior ← ok_or (Words.checked_sub gross_prior curator_prior) arithmetic_overflow
    lender_net ← ok_or (Words.checked_sub net_now net_prior) arithmetic_overflow
    ok (curator_take, lender_net)

  -- From `let principal` to `let lender_net`.
  unfoldable pub interest : LoanFixed → ℕ → ℕ → Result Interest
  interest l total prior = do
    c ← cumulatives l total prior
    (borrower_interest, spread_interest) ← borrower_split c
    (curator_take, lender_net) ← lender_split l c.gross_now c.gross_prior
    ok (record {
      borrower_interest = borrower_interest;
      lender_net = lender_net;
      curator_take = curator_take;
      spread_interest = spread_interest;
      cum_lender_gross_now = c.gross_now;
    })

  -- `accrue_loan`, whose grace period argument is not read.
  unfoldable pub accrue_loan : LoanFixed → ℤ → Result LoanFixed
  accrue_loan l now =
      if eqb_ℤ now l.last_accrued_unix
      then ok l
      else if not (ltb_ℤ l.last_accrued_unix now)
      then err (custom invalid_argument)
      else if l.outstanding_debt_atoms == 0 || l.state == state_u8 repaid
      then ok (touch l now)
      else if l.loan_type == type_u8 p2pool
      then ok (touch l now)
      else elim (total_elapsed now l.started_at_unix) [
        | none ↦ ok (touch l now)
        | some total ↦
            interest l total (prior_elapsed l.last_accrued_unix l.started_at_unix) >>= credit l now
      ]
