-- ===== src/Loan/Split.antt =====
-- What a resolution does to a loan: programs/ydelta/src/state/loan.rs.
use y_delta.Prelude.{
  ℕ, ◌+◌, ◌-◌, ◌*◌, ◌/◌, ◌<◌, ◌≤◌, ◌≡◌, ◌↔◌, true, false, inl, inr, ok, >>=-eq-ok, lt→ltb, le→leb,
  >>-eq-ok, require-eq-ok, ltb→lt, leb→le, subst, sym, ◌∙◌, ◌==◌, ltb, leb, u64_mod, arith,
  Bool-cases,
}
use y_delta.Prelude.Division.{slices_le, slice_le}
use y_delta.Math.Uint256.{Uint256}
use y_delta.Math.Exact.{mul_div_lem}
use y_delta.Loan.{LoanFixed}
use y_delta.Loan.Conservation.{IsConserved}
use y_delta.Loan.Resolution.{
  portions_of, slice_portion_of, protocol_already_retired, curator_already_retired, lender_rest,
  full_portions, partial_portions, retire, assert_loan_conservation, apply_partial_resolution,
  principal_portion_of_settlement,
}

-- `assert_loan_conservation` accepts exactly the conserved loans whose owed side fits a `u64`.
pub assert_loan_conservation_iff :
    (l : LoanFixed)
    → (assert_loan_conservation l ≡ ok tt)
      ↔ (IsConserved l × (l.outstanding_debt_atoms + l.principal_retired_atoms < u64_mod))
unfolding assert_loan_conservation
assert_loan_conservation_iff l = (λ e. ground arith, λ (c, h). ground arith)

lender_rest_sum :
    (repaid p c : ℕ) {portions : ℕ × ℕ × ℕ}
    → lender_rest repaid p c ≡ ok portions
    → portions.0 + portions.1 + portions.2 ≡ repaid
unfolding lender_rest
lender_rest_sum repaid p c e = ground arith

full_portions_sum :
    (l : LoanFixed) (repaid : ℕ) {portions : ℕ × ℕ × ℕ}
    → full_portions l repaid ≡ ok portions
    → portions.0 + portions.1 + portions.2 ≡ repaid
unfolding full_portions
full_portions_sum l repaid e =
    let (p, _, f) = >>=-eq-ok (protocol_already_retired l) _ e in
    let (c, _, g) = >>=-eq-ok (curator_already_retired l) _ f in lender_rest_sum repaid _ _ g

-- The loan that `retire` returns.
abbrev pub retired : LoanFixed → ℕ → LoanFixed
retired l repaid = record l {
  outstanding_debt_atoms = l.outstanding_debt_atoms - repaid;
  principal_retired_atoms = l.principal_retired_atoms + repaid;
}

retire-eq-ok :
    (l : LoanFixed) (repaid : ℕ) {l' : LoanFixed} → retire l repaid ≡ ok l' → l' ≡ retired l repaid
unfolding retire
retire-eq-ok l repaid e = ground arith

retire-accepts :
    (l : LoanFixed) (repaid : ℕ)
    → l.outstanding_debt_atoms + l.principal_retired_atoms < u64_mod
    → repaid < l.outstanding_debt_atoms
    → retire l repaid ≡ ok (retired l repaid)
unfolding retire
retire-accepts l repaid fits short = ground arith

module _ ⦃w : Uint256⦄ (l : LoanFixed) (repaid : ℕ) where
  partial_portions_sum :
      {portions : ℕ × ℕ × ℕ}
      → partial_portions l repaid ≡ ok portions
      → portions.0 + portions.1 + portions.2 ≡ repaid
  unfolding partial_portions
  partial_portions_sum e =
      let (p, _, f) = >>=-eq-ok (slice_portion_of l repaid l.accumulated_protocol_fee_atoms) _ e in
      let (c, _, g) = >>=-eq-ok (slice_portion_of l repaid l.accumulated_curator_fee_atoms) _ f in
      lender_rest_sum repaid _ _ g

  pub slice_portion_of-accepts :
      (field : ℕ)
      → field < u64_mod
      → l.outstanding_debt_atoms < u64_mod
      → repaid < l.outstanding_debt_atoms
      → slice_portion_of l repaid field ≡ ok (field * repaid / l.outstanding_debt_atoms)
  unfolding slice_portion_of
  slice_portion_of-accepts field f o short =
      let nonzero : (l.outstanding_debt_atoms == 0) ≡ false = ground arith in
      let small = slice_le field repaid l.outstanding_debt_atoms (omega arith) (omega arith) in
      rw
        (
          mul_div_lem field repaid l.outstanding_debt_atoms false (omega arith) (omega arith),
          nonzero,
        )
        (ground (arith, small))

  partial_portions-accepts :
      IsConserved l
      → l.outstanding_debt_atoms + l.principal_retired_atoms < u64_mod
      → l.accumulated_protocol_fee_atoms + l.accumulated_curator_fee_atoms
        ≤ l.outstanding_debt_atoms
      → 0 < repaid
      → repaid < l.outstanding_debt_atoms
      → (portions : ℕ × ℕ × ℕ) × (partial_portions l repaid ≡ ok portions)
  unfolding partial_portions lender_rest
  partial_portions-accepts c fits fees some_paid short =
      let p = l.accumulated_protocol_fee_atoms in
      let q = l.accumulated_curator_fee_atoms in
      let n = l.outstanding_debt_atoms in
      let room = slices_le p q repaid n (omega arith) fees in
      let first : leb (p * repaid / n) repaid ≡ true = le→leb _ _ (omega (arith, room)) in
      let second : leb (q * repaid / n) (repaid - p * repaid / n) ≡ true =
        le→leb _ _ (omega (arith, room)) in
      (
        (repaid - p * repaid / n - q * repaid / n, p * repaid / n, q * repaid / n),
        rw (
          slice_portion_of-accepts p (omega arith) (omega arith) short,
          slice_portion_of-accepts q (omega arith) (omega arith) short,
          first,
          second,
        ),
      )

  portions_of_sum :
      {portions : ℕ × ℕ × ℕ}
      → portions_of l repaid ≡ ok portions
      → portions.0 + portions.1 + portions.2 ≡ repaid
  unfolding portions_of
  portions_of_sum {portions} e = elim (Bool-cases (leb l.outstanding_debt_atoms repaid)) [
    | inl t ↦ full_portions_sum l repaid (ground arith)
    | inr t ↦ partial_portions_sum {portions = portions} (ground arith)
  ]

  -- A resolution that succeeds was asked for a positive amount of at most the debt, on a conserved
  -- loan. It returns portions that sum to the amount, and moves the amount from the outstanding
  -- debt to the retired principal; nothing else changes and the loan stays conserved.
  pub apply_partial_resolution_lem :
      {l' : LoanFixed} {portions : ℕ × ℕ × ℕ}
      → apply_partial_resolution l repaid ≡ ok (l', portions)
      → (0 < repaid)
        × (repaid ≤ l.outstanding_debt_atoms)
        × (portions.0 + portions.1 + portions.2 ≡ repaid)
        × (l' ≡ retired l repaid)
        × IsConserved l
        × IsConserved l'
  unfolding apply_partial_resolution
  apply_partial_resolution_lem {l'} {portions} e =
      let (some_paid, e1) = require-eq-ok (ltb 0 repaid) _ e in
      let (enough, e2) = require-eq-ok (leb repaid l.outstanding_debt_atoms) _ e1 in
      let (before, e3) = >>-eq-ok (assert_loan_conservation l) e2 in
      let (ps, ps_eq, e4) = >>=-eq-ok (portions_of l repaid) _ e3 in
      let (m, m_eq, e5) = >>=-eq-ok (retire l repaid) _ e4 in
      let (after, e6) = >>-eq-ok (assert_loan_conservation m) e5 in
      let same : m ≡ l' = ground arith in
      let same_portions : ps ≡ portions = ground arith in
      (
        ltb→lt _ _ some_paid,
        leb→le _ _ enough,
        subst (λ (q : ℕ × ℕ × ℕ). q.0 + q.1 + q.2 ≡ repaid) same_portions (portions_of_sum ps_eq),
        sym same ∙ retire-eq-ok l repaid m_eq,
        ((assert_loan_conservation_iff l).0 before).0,
        subst IsConserved same ((assert_loan_conservation_iff m).0 after).0,
      )

  -- A payment of the whole debt closes the loan: nothing is outstanding after it, and the principal
  -- part of such a settlement is all the principal that is left, when the principal fits a `u64`.
  pub full_resolution_closes :
      {l' : LoanFixed} {portions : ℕ × ℕ × ℕ}
      → repaid ≡ l.outstanding_debt_atoms
      → l.principal_debt_atoms < u64_mod
      → apply_partial_resolution l repaid ≡ ok (l', portions)
      → (l'.outstanding_debt_atoms ≡ 0)
        × (principal_portion_of_settlement l repaid
            ≡ ok (l.principal_debt_atoms - l.principal_retired_atoms))
  unfolding principal_portion_of_settlement
  full_resolution_closes full fits e =
      let (some_paid, _, _, same, _, _) = apply_partial_resolution_lem e in
      let owes : (l.outstanding_debt_atoms == 0) ≡ false = ground arith in
      let all_of_it : leb l.outstanding_debt_atoms repaid ≡ true = ground arith in
      (rw same (omega arith), rw (owes, all_of_it) (ground arith))

  -- On a conserved loan whose amounts fit a `u64` and whose two fees are at most the debt, every
  -- positive payment of less than the debt is accepted.
  pub apply_partial_resolution-accepts :
      IsConserved l
      → l.outstanding_debt_atoms + l.principal_retired_atoms < u64_mod
      → l.accumulated_protocol_fee_atoms + l.accumulated_curator_fee_atoms
        ≤ l.outstanding_debt_atoms
      → 0 < repaid
      → repaid < l.outstanding_debt_atoms
      → (portions : ℕ × ℕ × ℕ) × (apply_partial_resolution l repaid
          ≡ ok (retired l repaid, portions))
  unfolding apply_partial_resolution portions_of
  apply_partial_resolution-accepts c fits fees some_paid short =
      let (ps, ps_eq) = partial_portions-accepts c fits fees some_paid short in
      let before = (assert_loan_conservation_iff l).1 (c, fits) in
      let after = (assert_loan_conservation_iff (retired l repaid)).1 (omega arith, omega arith) in
      let kept : retire l repaid ≡ ok (retired l repaid) = retire-accepts l repaid fits short in
      let open' : leb l.outstanding_debt_atoms repaid ≡ false = ground arith in
      let within : leb repaid l.outstanding_debt_atoms ≡ true = ground arith in
      (ps, rw (lt→ltb _ _ some_paid, within, before, open', ps_eq, kept, after))
