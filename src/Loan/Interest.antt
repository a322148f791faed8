-- ===== src/Loan/Interest.antt =====
-- The interest of two passes in a row is the interest of one pass over both: `interest` of
-- `accrue_loan` in programs/ydelta/src/state/loan.rs.
use y_delta.Prelude.{ℕ, ◌+◌, ◌-◌, ◌≤◌, ◌<◌, ◌≡◌, inl, inr, ok, arith, Result-cases, u128_mod}
use y_delta.Math.Uint256.{Uint256}
use y_delta.Loan.{LoanFixed}
use y_delta.Loan.Accrue.{
  Cumulatives, borrower_split, cumulatives, lender_split, Interest, cum_curator_fee, interest,
}

-- The interest of two passes together.
abbrev pub sum_interest : Interest → Interest → Interest
sum_interest i j = record {
  borrower_interest = i.borrower_interest + j.borrower_interest;
  lender_net = i.lender_net + j.lender_net;
  curator_take = i.curator_take + j.curator_take;
  spread_interest = i.spread_interest + j.spread_interest;
  cum_lender_gross_now = j.cum_lender_gross_now;
}

abbrev join : Cumulatives → Cumulatives → Cumulatives
join c d = record {
  gross_now = d.gross_now;
  gross_prior = c.gross_prior;
  spread_now = d.spread_now;
  spread_prior = c.spread_prior;
}

abbrev Borrowed : Cumulatives → ℕ → ℕ → Type 0
Borrowed c b s =
    (c.gross_now + c.spread_now < u128_mod)
    × (c.gross_prior + c.spread_prior < u128_mod)
    × (b + (c.gross_prior + c.spread_prior) ≡ c.gross_now + c.spread_now)
    × (s + c.spread_prior ≡ c.spread_now)

borrower_split-inv : (c : Cumulatives) {b s : ℕ} → borrower_split c ≡ ok (b, s) → Borrowed c b s
unfolding borrower_split
borrower_split-inv c e = ground arith

borrower_split-intro : (c : Cumulatives) (b s : ℕ) → Borrowed c b s → borrower_split c ≡ ok (b, s)
unfolding borrower_split
borrower_split-intro c b s (p, q, r, t) = ground arith

borrower_split-join :
    (c d : Cumulatives) {b s b' s' : ℕ}
    → c.gross_now ≡ d.gross_prior
    → c.spread_now ≡ d.spread_prior
    → borrower_split c ≡ ok (b, s)
    → borrower_split d ≡ ok (b', s')
    → borrower_split (join c d) ≡ ok (b + b', s + s')
borrower_split-join c d p q e f =
    let (u, v, x, y) = borrower_split-inv c e in
    let (u', v', x', y') = borrower_split-inv d f in
    borrower_split-intro (join c d) _ _ (u', v, omega arith, omega arith)

module _ ⦃w : Uint256⦄ (l : LoanFixed) where
  -- The curator's cumulative fees c and c' at the lender's interest g and g'.
  abbrev Lent : ℕ → ℕ → ℕ → ℕ → ℕ → ℕ → Type 0
  Lent g g' c c' t n = (t + c' ≡ c) × (c ≤ g) × (c' ≤ g') × (n + (g' - c') ≡ g - c)

  lender_split-inv :
      (g g' : ℕ) {t n : ℕ}
      → lender_split l g g' ≡ ok (t, n)
      → (c c' : ℕ) × (cum_curator_fee l g ≡ ok c)
        × (cum_curator_fee l g' ≡ ok c')
        × Lent g g' c c' t n
  unfolding lender_split
  lender_split-inv g g' e = elim (Result-cases (cum_curator_fee l g)) [
    | inr (x, p) ↦ absurd (ground arith)
    | inl (c, p) ↦ elim (Result-cases (cum_curator_fee l g')) [
      | inr (x, q) ↦ absurd (ground arith)
      | inl (c', q) ↦ (c, c', p, q, ground arith)
    ]
  ]

  lender_split-intro :
      (g g' c c' t n : ℕ)
      → cum_curator_fee l g ≡ ok c
      → cum_curator_fee l g' ≡ ok c'
      → Lent g g' c c' t n
      → lender_split l g g' ≡ ok (t, n)
  unfolding lender_split
  lender_split-intro g g' c c' t n p q (x, y, z, u) = rw (p, q) (ground arith)

  lender_split-join :
      (gp g gn : ℕ) {t n t' n' : ℕ}
      → lender_split l g gp ≡ ok (t, n)
      → lender_split l gn g ≡ ok (t', n')
      → lender_split l gn gp ≡ ok (t + t', n + n')
  lender_split-join gp g gn e f =
      let (c, c', p, q, r) = lender_split-inv g gp e in
      let (d, d', p', q', r') = lender_split-inv gn g f in
      let same : c ≡ d' = ground arith in lender_split-intro gn gp d c' _ _ p' q (omega arith)

  cumulatives-join :
      (z a b : ℕ) {c d : Cumulatives}
      → cumulatives l a z ≡ ok c
      → cumulatives l b a ≡ ok d
      → (c.gross_now ≡ d.gross_prior)
        × (c.spread_now ≡ d.spread_prior)
        × (cumulatives l b z ≡ ok (join c d))
  unfolding cumulatives
  cumulatives-join z a b e f = (ground arith, ground arith, ground arith)

  -- The parts of a successful `interest`.
  record Parts (total prior : ℕ) (i : Interest) : Type 0 where
    c : Cumulatives
    cumulatives_eq : cumulatives l total prior ≡ ok c
    borrower_eq : borrower_split c ≡ ok (i.borrower_interest, i.spread_interest)
    lender_eq : lender_split l c.gross_now c.gross_prior ≡ ok (i.curator_take, i.lender_net)
    gross_eq : i.cum_lender_gross_now ≡ c.gross_now

  interest-Parts :
      (total prior : ℕ) {i : Interest} → interest l total prior ≡ ok i → Parts total prior i
  unfolding interest
  interest-Parts total prior {i} e = elim (Result-cases (cumulatives l total prior)) [
    | inr (x, f) ↦ absurd (ground arith)
    | inl (c, f) ↦ elim (Result-cases (borrower_split c)) [
      | inr (x, g) ↦ absurd (ground arith)
      | inl ((b, s), g) ↦ elim (Result-cases (lender_split l c.gross_now c.gross_prior)) [
        | inr (x, h) ↦ absurd (ground arith)
        | inl ((t, n), h) ↦ record {
          c = c;
          cumulatives_eq = f;
          borrower_eq = ground arith;
          lender_eq = ground arith;
          gross_eq = ground arith;
        }
      ]
    ]
  ]

  pub interest-join :
      (z a b : ℕ) {i j : Interest}
      → interest l a z ≡ ok i
      → interest l b a ≡ ok j
      → interest l b z ≡ ok (sum_interest i j)
  unfolding interest
  interest-join z a b {i} {j} e f =
      let p = interest-Parts a z e in
      let q = interest-Parts b a f in
      let (g, s, k) = cumulatives-join z a b p.cumulatives_eq q.cumulatives_eq in
      let lent : lender_split l q.c.gross_now p.c.gross_now ≡ ok (j.curator_take, j.lender_net) =
        rw g q.lender_eq in
      let lent' = lender_split-join p.c.gross_prior p.c.gross_now q.c.gross_now p.lender_eq lent in
      rw (k, borrower_split-join p.c q.c g s p.borrower_eq q.borrower_eq, lent') (rw q.gross_eq)
