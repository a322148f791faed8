-- ===== src/Loan/Paths.antt =====
-- Interest does not depend on how often it is accrued: `accrue_loan` in
-- programs/ydelta/src/state/loan.rs.
use y_delta.Prelude.{
  lt→ltb, ℕ, ◌+◌, ◌<◌, ◌≡◌, ◌≢◌, refl, true, false, some, ok, arith, ◌>>=◌, >>=-eq-ok, ◌∙◌, sym, ap,
  subst, ◌==◌, u64_mod,
}
use y_delta.Prelude.Int.{
  ℤ, pos_part, eqb_ℤ, ltb_ℤ, ◌-ℤ◌, ◌<ℤ◌, ◌≤ℤ◌, fits_i64, checked_sub_i64, -ℤ_parts,
}
use native.Mathlib.Nat.{add_assoc}
use mathlib.Core.Path.{ap₂}
use y_delta.Math.Uint256.{Uint256}
use y_delta.Loan.{LoanFixed, state_u8, type_u8, active, repaid, fixed, p2pool}
use y_delta.Loan.Interest.{sum_interest, interest-join}
use y_delta.Loan.Accrue.{
  cumulatives, lender_split, Interest, cum_curator_fee, interest, credit, accrue_loan,
  checked_add_u64, total_elapsed, prior_elapsed,
}

-- The loan that `credit` returns.
abbrev credited : LoanFixed → ℤ → Interest → LoanFixed
credited l now i = record l {
  outstanding_debt_atoms = l.outstanding_debt_atoms + i.borrower_interest;
  lender_claimable_atoms = l.lender_claimable_atoms + i.lender_net;
  accumulated_curator_fee_atoms = l.accumulated_curator_fee_atoms + i.curator_take;
  accumulated_protocol_fee_atoms = l.accumulated_protocol_fee_atoms + i.spread_interest;
  cumulative_lender_gross_interest_atoms = i.cum_lender_gross_now;
  last_accrued_unix = now;
}

abbrev Fits : LoanFixed → Interest → Type 0
Fits l i =
    (l.outstanding_debt_atoms + i.borrower_interest < u64_mod)
    × (l.lender_claimable_atoms + i.lender_net < u64_mod)
    × (l.accumulated_curator_fee_atoms + i.curator_take < u64_mod)
    × (l.accumulated_protocol_fee_atoms + i.spread_interest < u64_mod)
    × (i.cum_lender_gross_now < u64_mod)

checked_add_u64-intro : (a b : ℕ) → a + b < u64_mod → checked_add_u64 a b ≡ ok (a + b)
unfolding checked_add_u64
checked_add_u64-intro a b h = ground arith

-- The loan after its last write, and the sums that fit.
credit-inv :
    (l : LoanFixed) (now : ℤ) (i : Interest) {l' : LoanFixed}
    → credit l now i ≡ ok l'
    → (l' ≡ credited l now i) × Fits l i
unfolding credit checked_add_u64
credit-inv l now i e = (ground arith, ground arith)

credit-intro :
    (l : LoanFixed) (now : ℤ) (i : Interest) → Fits l i → credit l now i ≡ ok (credited l now i)
unfolding credit
credit-intro l now i (p, q, r, s, t) = rw (
  checked_add_u64-intro l.outstanding_debt_atoms i.borrower_interest p,
  checked_add_u64-intro l.lender_claimable_atoms i.lender_net q,
  checked_add_u64-intro l.accumulated_curator_fee_atoms i.curator_take r,
  checked_add_u64-intro l.accumulated_protocol_fee_atoms i.spread_interest s,
  lt→ltb _ _ t,
)

credit-join :
    (l : LoanFixed) (t u : ℤ) (i j : Interest) {l' : LoanFixed}
    → credit (credited l t i) u j ≡ ok l'
    → credit l u (sum_interest i j) ≡ ok l'
credit-join l t u i j e =
    let (same, fits) = credit-inv (credited l t i) u j e in
    rw (same, credit-intro l u (sum_interest i j) (omega arith)) (simp add_assoc)

-- Between two times whose distance fits, every distance fits.
fits_i64-between :
    (s t u : ℤ) → s <ℤ t → t <ℤ u → fits_i64 (u -ℤ s) ≡ true → fits_i64 (t -ℤ s) ≡ true
fits_i64-between s t u p q h = ground (arith, -ℤ_parts u s, -ℤ_parts t s)

-- After the start, both readings of the elapsed time agree.
elapsed_lem :
    (s t : ℤ)
    → s <ℤ t
    → fits_i64 (t -ℤ s) ≡ true
    → (d : ℕ) × (total_elapsed t s ≡ some d) × (prior_elapsed t s ≡ d)
unfolding total_elapsed prior_elapsed checked_sub_i64
elapsed_lem s t p h =
    (pos_part (t -ℤ s), ground (arith, -ℤ_parts t s), ground (arith, -ℤ_parts t s))

-- A fixed-term loan that is open and accrues from its start.
pub record IsOpen (l : LoanFixed) : Type 0 where
  pub owes : l.outstanding_debt_atoms ≢ 0
  pub is_active : l.state ≡ state_u8 active
  pub is_fixed : l.loan_type ≡ type_u8 fixed

credited-IsOpen : (l : LoanFixed) (t : ℤ) (i : Interest) → IsOpen l → IsOpen (credited l t i)
credited-IsOpen l t i o = omega arith

module _ ⦃w : Uint256⦄ where
  accrue_loan-open :
      (l : LoanFixed) (now : ℤ) {total : ℕ}
      → IsOpen l
      → l.last_accrued_unix <ℤ now
      → total_elapsed now l.started_at_unix ≡ some total
      → accrue_loan l now
        ≡ (interest l total (prior_elapsed l.last_accrued_unix l.started_at_unix) >>= credit l now)
  unfolding accrue_loan
  accrue_loan-open l now o h e =
      let same : eqb_ℤ now l.last_accrued_unix ≡ false = ground arith in
      let later : ltb_ℤ l.last_accrued_unix now ≡ true = ground arith in
      let owes : (l.outstanding_debt_atoms == 0) ≡ false = ground (arith, o.owes) in
      let open_state : (l.state == state_u8 repaid) ≡ false = ground (arith, o.is_active) in
      let not_p2p : (l.loan_type == type_u8 p2pool) ≡ false = ground (arith, o.is_fixed) in
      rw (same, later, owes, open_state, not_p2p, e)

  -- Interest reads only fields that accrual leaves alone.
  same_interest :
      (l : LoanFixed) (t : ℤ) (i : Interest) (b a : ℕ)
      → interest l b a ≡ interest (credited l t i) b a
  unfolding interest cumulatives lender_split cum_curator_fee
  same_interest l t i b a = refl

  two_passes :
      (l : LoanFixed) (t u : ℤ) (z a b : ℕ) {l' l'' : LoanFixed}
      → (interest l a z >>= credit l t) ≡ ok l'
      → (interest l' b a >>= credit l' u) ≡ ok l''
      → (interest l b z >>= credit l u) ≡ ok l''
  two_passes l t u z a b {l'} {l''} e f =
      let (i, i_eq, credit_i) = >>=-eq-ok (interest l a z) (credit l t) e in
      let (same, _) = credit-inv l t i credit_i in
      let f' : (interest (credited l t i) b a >>= credit (credited l t i) u) ≡ ok l'' =
        subst (λ x. (interest x b a >>= credit x u) ≡ ok l'') same f in
      let (j, j_eq, credit_j) =
        >>=-eq-ok (interest (credited l t i) b a) (credit (credited l t i) u) f' in
      rw (interest-join l z a b i_eq (same_interest l t i b a ∙ j_eq))
        (credit-join l t u i j credit_j)

  pass-keeps :
      (l : LoanFixed) (t : ℤ) (z a : ℕ) {l' : LoanFixed}
      → (interest l a z >>= credit l t) ≡ ok l'
      → IsOpen l
      → IsOpen l' × (l'.last_accrued_unix ≡ t) × (l'.started_at_unix ≡ l.started_at_unix)
  pass-keeps l t z a e o =
      let (i, _, credit_i) = >>=-eq-ok (interest l a z) (credit l t) e in
      let (same, _) = credit-inv l t i credit_i in rw same (credited-IsOpen l t i o, refl, refl)

  -- For an open fixed-term loan that started no later than its last accrual, and later times t < u with
  -- a span from the start to u that fits an `i64`, accruing twice is accruing once: if accrual to t and
  -- then to u succeeds, accrual straight to u gives the same loan.
  pub accrue_loan-accrue_loan :
      (l : LoanFixed) (t u : ℤ) {l' l'' : LoanFixed}
      → IsOpen l
      → l.started_at_unix ≤ℤ l.last_accrued_unix
      → l.last_accrued_unix <ℤ t
      → t <ℤ u
      → fits_i64 (u -ℤ l.started_at_unix) ≡ true
      → accrue_loan l t ≡ ok l'
      → accrue_loan l' u ≡ ok l''
      → accrue_loan l u ≡ ok l''
  accrue_loan-accrue_loan l t u {l'} {l''} o h p q fits e f =
      let s = l.started_at_unix in
      let z = prior_elapsed l.last_accrued_unix s in
      let (a, a_total, a_prior) =
        elapsed_lem s t (omega arith) (fits_i64-between s t u (omega arith) q fits) in
      let (b, b_total, _) = elapsed_lem s u (omega arith) fits in
      let first : (interest l a z >>= credit l t) ≡ ok l' =
        sym (accrue_loan-open l t o p a_total) ∙ e in
      let (o', last, start) = pass-keeps l t z a first o in
      let later = subst (λ x. x <ℤ u) (sym last) q in
      let b_total' = ap (total_elapsed u) start ∙ b_total in
      let prior' = ap₂ prior_elapsed last start ∙ a_prior in
      let second = sym (accrue_loan-open l' u o' later b_total') ∙ f in
      let second' : (interest l' b a >>= credit l' u) ≡ ok l'' =
        subst (λ x. (interest l' b x >>= credit l' u) ≡ ok l'') prior' second in
      accrue_loan-open l u o (omega arith) b_total ∙ two_passes l t u z a b first second'
