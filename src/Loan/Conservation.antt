-- ===== src/Loan/Conservation.antt =====
-- The conservation invariant of a loan, and that accrual keeps it: `accrue_loan` and
-- `assert_loan_conservation` in programs/ydelta/src/state/loan.rs.
use y_delta.Prelude.{
  ℕ, Bool, if◌then◌else◌, Option, custom, invalid_argument, ◌+◌, ◌≡◌, ◌≢◌, refl, inl, inr, true,
  false, none, some, Result, ok, err, arith, Result-cases, ◌>>=◌, >>=-eq-ok, not, ◌||◌, ◌==◌,
}
use y_delta.Prelude.Int.{ℤ}
use y_delta.Math.Uint256.{Uint256}
use y_delta.Loan.{LoanFixed, state_u8, repaid}
use y_delta.Loan.Accrue.{
  Cumulatives, borrower_split, cumulatives, lender_split, Interest, interest, credit, touch,
  accrue_loan, checked_add_u64, total_elapsed, prior_elapsed,
}

-- What the claimants are owed is what the borrower owes and has paid.
abbrev pub IsConserved : LoanFixed → Type 0
IsConserved l =
    l.lender_claimable_atoms + l.accumulated_protocol_fee_atoms + l.accumulated_curator_fee_atoms
    ≡ l.outstanding_debt_atoms + l.principal_retired_atoms

borrower_split-eq-ok :
    (c : Cumulatives) {b s : ℕ}
    → borrower_split c ≡ ok (b, s)
    → (b + c.gross_prior + c.spread_prior ≡ c.gross_now + c.spread_now)
      × (s + c.spread_prior ≡ c.spread_now)
unfolding borrower_split
borrower_split-eq-ok c e = ground arith

module _ ⦃w : Uint256⦄ where
  lender_split-eq-ok :
      (l : LoanFixed) (gn gp : ℕ) {t n : ℕ} → lender_split l gn gp ≡ ok (t, n) → t + n + gp ≡ gn
  unfolding lender_split
  lender_split-eq-ok l gn gp e = ground arith

  -- One pass splits the borrower's interest exactly among lender, curator and protocol.
  pub interest_splits :
      (l : LoanFixed) (total prior : ℕ) {i : Interest}
      → interest l total prior ≡ ok i
      → i.borrower_interest ≡ i.lender_net + i.curator_take + i.spread_interest
  unfolding interest
  interest_splits l total prior e = elim (Result-cases (cumulatives l total prior)) [
    | inr (x, f) ↦ ground arith
    | inl (c, f) ↦ elim (Result-cases (borrower_split c)) [
      | inr (x, g) ↦ ground arith
      | inl ((b, s), g) ↦ elim (Result-cases (lender_split l c.gross_now c.gross_prior)) [
        | inr (x, h) ↦ ground arith
        | inl ((t, n), h) ↦
            ground
              (arith, borrower_split-eq-ok c g, lender_split-eq-ok l c.gross_now c.gross_prior h)
      ]
    ]
  ]

credit-IsConserved :
    (l : LoanFixed) (now : ℤ) (i : Interest) {l' : LoanFixed}
    → i.borrower_interest ≡ i.lender_net + i.curator_take + i.spread_interest
    → IsConserved l
    → credit l now i ≡ ok l'
    → IsConserved l'
unfolding credit checked_add_u64
credit-IsConserved l now i s c e = ground arith

module _ ⦃w : Uint256⦄ (l : LoanFixed) (now : ℤ) where
  -- How a successful call ended.
  pub data Outcome (l' : LoanFixed) : Type 0 where
    unchanged : l' ≡ l → Outcome l'
    touched : l' ≡ touch l now → Outcome l'
    credited :
        (total : ℕ) (i : Interest)
        → l.outstanding_debt_atoms ≢ 0
        → total_elapsed now l.started_at_unix ≡ some total
        → interest l total (prior_elapsed l.last_accrued_unix l.started_at_unix) ≡ ok i
        → credit l now i ≡ ok l'
        → Outcome l'

  -- The tests of `accrue_loan`, in their order.
  ladder : Bool → Bool → Bool → Bool → Option ℕ → Result LoanFixed
  ladder same later closed p2p elapsed =
      if same
      then ok l
      else if not later
      then err (custom invalid_argument)
      else if closed
      then ok (touch l now)
      else if p2p
      then ok (touch l now)
      else elim elapsed [
        | none ↦ ok (touch l now)
        | some total ↦
            interest l total (prior_elapsed l.last_accrued_unix l.started_at_unix) >>= credit l now
      ]

  ladder-outcome :
      (same later closed p2p : Bool) (elapsed : Option ℕ) {l' : LoanFixed}
      → (l.outstanding_debt_atoms == 0 || l.state == state_u8 repaid) ≡ closed
      → total_elapsed now l.started_at_unix ≡ elapsed
      → ladder same later closed p2p elapsed ≡ ok l'
      → Outcome l'
  unfolding ladder
  ladder-outcome true _ _ _ _ c t e = unchanged (cc)
  ladder-outcome false false _ _ _ c t e = cc
  ladder-outcome false true true _ _ c t e = touched (cc)
  ladder-outcome false true false true _ c t e = touched (cc)
  ladder-outcome false true false false none c t e = touched (cc)
  ladder-outcome false true false false (some total) c t e =
      let (i, f, g) =
        >>=-eq-ok (interest l total (prior_elapsed l.last_accrued_unix l.started_at_unix))
          (credit l now) e in
      credited total i (ground arith) t f g

  pub accrue_loan-outcome : {l' : LoanFixed} → accrue_loan l now ≡ ok l' → Outcome l'
  unfolding accrue_loan ladder
  accrue_loan-outcome e = ladder-outcome _ _ _ _ _ refl refl e

  -- Accrual keeps the conservation invariant on every path that succeeds.
  pub accrue_loan-IsConserved :
      {l' : LoanFixed} → IsConserved l → accrue_loan l now ≡ ok l' → IsConserved l'
  accrue_loan-IsConserved {l'} c e = elim (accrue_loan-outcome e) [
    | unchanged p ↦ rw p c
    | touched p ↦ rw p c
    | credited total i _ _ f g ↦ credit-IsConserved l now i (interest_splits l total _ f) c g
  ]
