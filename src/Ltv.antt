-- ===== src/Ltv.antt =====
-- Loan-to-value gates: programs/ydelta/src/state/ltv.rs. Prices and weights that the source reads
-- from oracles and from marginfi banks are arguments.
pub mod Required
pub mod Monotone
pub mod Gates
mod Tests
use y_delta.Prelude.{
  ℕ, zero, suc, ◌-◌, ◌*◌, ◌/◌, min, Bool, not, ◌&&◌, ◌||◌, false, Result, ok, err, custom,
  arithmetic_overflow, invalid_argument, liquidation_collateral_underflow, oracle_degenerate,
  loan_still_solvent, loan_not_matured, require, ok_or, ◌>>=◌, ◌>>◌, ◌==◌, ltb, leb, if◌then◌else◌,
  u64_mod, u64_max, u128_mod,
}
use y_delta.Prelude.Words
use y_delta.Prelude.Int.{ℤ, pos, ltb_ℤ, checked_add_i64}
use y_delta.Math.Uint256.{Uint256}
use y_delta.Math.Scale.{to_scaled, from_scaled_ceil, mul_div, mul_scale}
use y_delta.Math.Fp48
use y_delta.Math.Fp48.{Fp48}
use y_delta.Loan.{LoanFixed, LoanType, fixed, p2pool, type_of}

-- The loop of `pow10_u128`, which stops at the first product that does not fit.
unfoldable pub pow10_u128 : ℕ → Result ℕ
pow10_u128 zero = ok 1
pow10_u128 (suc n) = do
  acc ← pow10_u128 n
  ok_or (Words.checked_mul u128_mod acc 10) arithmetic_overflow

abbrev pub effective_origination_cap_bps : ℕ → ℕ → ℕ
effective_origination_cap_bps max_ltv_bps buffer_bps = Words.saturating_sub max_ltv_bps buffer_bps

-- `if atoms_u128 > u64::MAX { return Ok(u64::MAX) }`
abbrev pub clamp_u64 : ℕ → ℕ
clamp_u64 atoms = if ltb u64_max atoms then u64_max else atoms

unfoldable pub assert_past_grace_period :
    LoanFixed → (grace_period_seconds : ℕ) → ℤ → Result (Unit {0})
assert_past_grace_period l grace now = do
  grace_end ← ok_or (checked_add_i64 l.matures_at_unix (pos grace)) arithmetic_overflow
  require (ltb_ℤ grace_end now) (custom loan_not_matured)

module _ ⦃w : Uint256⦄ where
  -- `let normalized_fp48`: from the debt mint's decimals to the collateral mint's.
  unfoldable pub normalize : ℕ → (debt_decimals collateral_decimals : ℕ) → Result ℕ
  normalize raw debt_decimals collateral_decimals =
      if leb debt_decimals collateral_decimals
      then (pow10_u128 (collateral_decimals - debt_decimals) >>= λ factor.
          mul_div raw factor 1 false)
      else (pow10_u128 (debt_decimals - collateral_decimals) >>= λ factor.
          mul_div raw 1 factor false)

  -- The required collateral once no price and no weight is zero.
  unfoldable pub required_value :
      (debt_atoms : ℕ) (debt_price coll_price liability_weight asset_weight : Fp48) → Result Fp48
  required_value debt_atoms debt_price coll_price liability_weight asset_weight = do
    num1 ← Fp48.checked_mul (Fp48.from_atoms debt_atoms) debt_price
    num2 ← Fp48.checked_mul num1 liability_weight
    denom ← Fp48.checked_mul coll_price asset_weight
    Fp48.checked_div num2 denom

  unfoldable pub get_required_quote_collateral_to_back_debt :
      (debt_atoms_traded : ℕ) (debt_price coll_price liability_weight asset_weight : Fp48)
      (debt_decimals collateral_decimals : ℕ)
      → Result ℕ
  get_required_quote_collateral_to_back_debt atoms debt_price coll_price liability asset dd cd =
      if Fp48.is_zero coll_price
        || Fp48.is_zero asset
        || Fp48.is_zero debt_price
        || Fp48.is_zero liability
      then ok u64_max
      else do
        result ← required_value atoms debt_price coll_price liability asset
        normalized ← normalize result.raw dd cd
        required ← from_scaled_ceil normalized
        ok (clamp_u64 required)

  unfoldable pub required_collateral_at_ltv_cap :
      (debt_atoms_traded : ℕ) (debt_price coll_price : Fp48) (ltv_cap_bps : ℕ)
      (debt_decimals collateral_decimals : ℕ)
      → Result ℕ
  required_collateral_at_ltv_cap atoms debt_price coll_price cap dd cd = do
    scaled ← to_scaled cap
    get_required_quote_collateral_to_back_debt atoms debt_price coll_price Fp48.one
        (Fp48.from_raw (scaled / 10_000)) dd cd

  -- Liability shares into atoms at a bank's `liability_share_value`.
  unfoldable pub liability_shares_to_atoms_ceil : (lsv shares : ℕ) → Result ℕ
  liability_shares_to_atoms_ceil lsv shares = do
    scaled ← mul_scale shares lsv
    atoms ← from_scaled_ceil scaled
    if ltb u64_max atoms then err arithmetic_overflow else ok atoms

  -- A pool loan owes its shares' value, of which the account may hold less.
  unfoldable pub loan_live_outstanding_atoms : LoanFixed → (account_shares lsv : ℕ) → Result ℕ
  loan_live_outstanding_atoms l account_shares lsv = do
    t ← type_of l
    elim t [
      | fixed ↦ ok l.outstanding_debt_atoms
      | p2pool ↦
          liability_shares_to_atoms_ceil lsv (min l.borrower_marginfi_borrow_shares account_shares)
    ]

  -- `let required_collateral_atoms`
  unfoldable pub liquidation_requirement :
      LoanType
      → (stamped_ltv_bps outstanding : ℕ)
      → (debt_price coll_price liability_maint asset_maint : Fp48)
      → (debt_decimals collateral_decimals : ℕ) → Result ℕ
  liquidation_requirement fixed stamped outstanding debt_price coll_price liability asset dd cd = do
    require (ltb 0 stamped) (custom invalid_argument)
    required_collateral_at_ltv_cap outstanding debt_price coll_price stamped dd cd
  liquidation_requirement p2pool stamped outstanding debt_price coll_price liability asset dd cd =
      do
        require (not (Fp48.is_zero asset) && not (Fp48.is_zero liability))
            (custom oracle_degenerate)
        get_required_quote_collateral_to_back_debt outstanding debt_price coll_price liability asset
            dd cd

  unfoldable pub assert_ltv_breach :
      LoanType
      → (stamped_ltv_bps outstanding collateral : ℕ)
      → (debt_price coll_price liability_maint asset_maint : Fp48)
      → (debt_decimals collateral_decimals : ℕ) → Result (Unit {0})
  assert_ltv_breach type stamped outstanding coll debt_price coll_price liability asset dd cd = do
    require (ltb 0 outstanding) (custom invalid_argument)
    require (ltb 0 coll) (custom liquidation_collateral_underflow)
    require (not (Fp48.is_zero coll_price) && not (Fp48.is_zero debt_price))
        (custom oracle_degenerate)
    required ←
        liquidation_requirement type stamped outstanding debt_price coll_price liability asset dd cd
    require (ltb coll required) (custom loan_still_solvent)
