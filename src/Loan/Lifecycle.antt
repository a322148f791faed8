-- ===== src/Loan/Lifecycle.antt =====
-- Everything that happens to a fixed-term loan between its creation and its close: accrual and
-- resolutions, in any order. programs/ydelta/src/state/loan.rs.
use y_delta.Prelude.{ℕ, ◌≡◌, ok, arith}
use y_delta.Prelude.Int.{ℤ}
use y_delta.Math.Uint256.{Uint256}
use y_delta.Math.Fp48.{Fp48}
use y_delta.Loan.{LoanFixed, Pubkey, LoanType, new_from_matched_loan_with_lender}
use y_delta.Loan.Accrue.{accrue_loan}
use y_delta.Loan.Resolution.{apply_partial_resolution}
use y_delta.Loan.Conservation.{IsConserved, accrue_loan-IsConserved}
use y_delta.Loan.Split.{apply_partial_resolution_lem}

-- A new loan: one that `new_from_matched_loan_with_lender` builds.
pub data IsFresh : LoanFixed → Type 0 where
  fresh :
      (m : Pubkey) (s b : ℕ) (c : Pubkey) (ls bs p n coll br lr t : ℕ) (at : ℤ) (f : ℕ)
      (ty : LoanType) (sh k id : ℕ) (v : Pubkey) (fee : ℕ) (x y : Fp48)
      → IsFresh (
          new_from_matched_loan_with_lender m s b c ls bs p n coll br lr t at f ty sh k id v fee x
            y)

IsFresh-IsConserved : {l : LoanFixed} → IsFresh l → IsConserved l
unfolding new_from_matched_loan_with_lender
IsFresh-IsConserved (fresh m s b c ls bs p n coll br lr t at f ty sh k id v fee x y) = omega arith

module _ ⦃w : Uint256⦄ where
  pub data Step (l l' : LoanFixed) : Type 0 where
    accrue : (now : ℤ) → accrue_loan l now ≡ ok l' → Step l l'
    resolve :
        (repaid : ℕ) (portions : ℕ × ℕ × ℕ)
        → apply_partial_resolution l repaid ≡ ok (l', portions)
        → Step l l'

  pub data Reach (l : LoanFixed) : LoanFixed → Type 0 where
    here : Reach l l
    next : {m n : LoanFixed} → Reach l m → Step m n → Reach l n

  Step-IsConserved : {l l' : LoanFixed} → Step l l' → IsConserved l → IsConserved l'
  Step-IsConserved {l} (accrue now e) c = accrue_loan-IsConserved l now c e
  Step-IsConserved {l} (resolve r ps e) c = (apply_partial_resolution_lem l r e).5

  -- Every loan that a new loan becomes by successful accruals and resolutions is conserved.
  pub Reach-IsConserved : {l l' : LoanFixed} → IsFresh l → Reach l l' → IsConserved l'
  Reach-IsConserved f here = IsFresh-IsConserved f
  Reach-IsConserved f (next r s) = Step-IsConserved s (Reach-IsConserved f r)
