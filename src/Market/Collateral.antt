-- ===== src/Market/Collateral.antt =====
-- Principal and collateral over a whole match: `match_order` in
-- programs/ydelta/src/state/market_helpers.rs.
use y_delta.Prelude.{
  ℕ, ◌+◌, ◌-◌, ◌*◌, ◌/◌, ◌<◌, ◌≤◌, ◌≡◌, sym, ap, subst, ◌∙◌, ok-injective, false, inl, inr, Option,
  some, List, ◌∷◌, [], ok, Bool-cases, ◌==◌, ==→≡, arith,
}
use native.Mathlib.Nat.{div-mul-le_self, add-mul, mul-le-mul_right, le_of_mul-le-mul_right}
use y_delta.Math.Uint256.{Uint256}
use y_delta.Math.Scale.{mul_div_u64}
use y_delta.Math.Exact.{mul_div-eq-ok}
use y_delta.Order.{RestingOrder}
use y_delta.Market.{Market, Asks, MatchedLoan}
use y_delta.Market.Engine.{
  MatchArgs, SubVaults, MatchState, Fill, take, screen, fill, matched_collateral,
}
use y_delta.Market.Taken.{OnOffer, screen-Taken, fill-Filled}
use y_delta.Market.Loop.{match_order, match_order-keeps}

-- The principal, and the collateral, of a list of matched loans.
unfoldable pub sum_of : (MatchedLoan → ℕ) → List MatchedLoan → ℕ
sum_of field [] = 0
sum_of field (l ∷ ls) = field l + sum_of field ls

abbrev pub principal_of : List MatchedLoan → ℕ
principal_of = sum_of (λ l. l.principal_atoms)

abbrev pub collateral_of : List MatchedLoan → ℕ
collateral_of = sum_of (λ l. l.collateral_atoms)

-- The state of a match that was asked for `args` and started with `queued` loans: nothing is lost,
-- and what collateral is left is at least the pro rata part of the principal left.
pub record Balanced (args : MatchArgs) (queued : List MatchedLoan) (s : MatchState) : Type 0 where
  pub principal : s.remaining_principal + s.total_filled ≡ args.principal_atoms
  pub loans : principal_of s.market.matched_loans ≡ principal_of queued + s.total_filled
  pub collateral :
      collateral_of s.market.matched_loans + s.remaining_collateral
      ≡ collateral_of queued + args.collateral_atoms
  pub backed :
      s.remaining_principal * args.collateral_atoms ≤ s.remaining_collateral * args.principal_atoms

-- A rounded pro rata part of what is left, and what it leaves.
slice_leaves :
    (rest part all left whole : ℕ)
    → 0 < all
    → part ≤ rest
    → rest * whole ≤ left * all
    → (part * whole / all ≤ left) × ((rest - part) * whole ≤ (left - part * whole / all) * all)
slice_leaves rest part all left whole pos le backed =
    let q = part * whole / all in
    let floor : q * all ≤ part * whole = div-mul-le_self (part * whole) all in
    let most : part * whole ≤ rest * whole = mul-le-mul_right whole le in
    let q_le : q ≤ left =
      le_of_mul-le-mul_right {k = all} (omega (arith, floor, most, backed)) pos in
    let rests : (rest - part) * whole + part * whole ≡ rest * whole =
      sym (add-mul (rest - part) part whole) ∙ ap (λ x. x * whole) (omega arith) in
    let lefts : (left - q) * all + q * all ≡ left * all =
      sym (add-mul (left - q) q all) ∙ ap (λ x. x * all) (omega (arith, q_le)) in
    (q_le, omega (arith, floor, rests, lefts, backed))

module _ ⦃w : Uint256⦄ where
  -- What a rounded-down product and quotient is when it succeeds.
  pub mul_div_u64-le :
      (a b c : ℕ) {r : ℕ} → mul_div_u64 a b c false ≡ ok r → (r ≡ a * b / c) × (0 < c)
  unfolding mul_div_u64
  mul_div_u64-le a b c {r} e = ground (arith, mul_div-eq-ok a b c {r = r})

  -- A fill's collateral is in what is left, and leaves enough behind it.
  pub fill_collateral :
      (args : MatchArgs) (s : MatchState) (f : Fill)
      → s.remaining_principal * args.collateral_atoms
        ≤ s.remaining_collateral * args.principal_atoms
      → OnOffer args s f
      → (f.collateral ≤ s.remaining_collateral)
        × ((s.remaining_principal - f.principal) * args.collateral_atoms
            ≤ (s.remaining_collateral - f.collateral) * args.principal_atoms)
  unfolding matched_collateral
  fill_collateral args s f backed on_offer =
      elim (Bool-cases (f.principal == s.remaining_principal)) [
        | inl last ↦
            let whole = ==→≡ _ _ last in
            let c_eq : ok s.remaining_collateral ≡ ok f.collateral =
              rw (matched_collateral, last) at (on_offer.collateral) in
            let same = ok-injective c_eq in
            let nothing : s.remaining_principal - s.remaining_principal ≡ 0 = omega arith in
            rw (whole, sym same, nothing) (omega arith, omega arith)
        | inr more ↦
            let c_eq : mul_div_u64 f.principal args.collateral_atoms args.principal_atoms false
                ≡ ok f.collateral =
              rw (matched_collateral, more) at (on_offer.collateral) in
            let (part, pos) =
              mul_div_u64-le f.principal args.collateral_atoms args.principal_atoms c_eq in
            let (le, rest) =
              slice_leaves s.remaining_principal f.principal args.principal_atoms
                s.remaining_collateral args.collateral_atoms pos (omega (arith, on_offer.principal))
                backed in
            rw part (le, rest)
      ]

  step-Balanced :
      (args : MatchArgs) (queued : List MatchedLoan) (maker : RestingOrder) (f : Fill)
      (s s' : MatchState)
      → Balanced args queued s
      → screen args maker s ≡ ok (take f)
      → fill args maker s f ≡ ok s'
      → Balanced args queued s'
  unfolding sum_of
  step-Balanced args queued maker f s s' b screened filled =
      let taken = screen-Taken args maker s screened in
      let wrote = fill-Filled args maker s f filled in
      let (le, rest) = fill_collateral args s f b.backed (taken.on_offer) in
      let more_principal = ap principal_of wrote.loans in
      let more_collateral = ap collateral_of wrote.loans in
      record {
        principal = omega (arith, wrote.principal, wrote.filled, b.principal);
        loans = omega (arith, more_principal, wrote.filled, b.loans);
        collateral = omega (arith, more_collateral, wrote.collateral, b.collateral, le);
        backed =
            subst (λ x. x * args.collateral_atoms ≤ s'.remaining_collateral * args.principal_atoms)
              (omega (arith, wrote.principal))
              (subst
                (λ x.
                  (s.remaining_principal - f.principal) * args.collateral_atoms
                  ≤ x * args.principal_atoms)
                (sym wrote.collateral) rest);
      }

  -- A match fills and leaves exactly the principal that was asked for, and the loans it queues are
  -- for exactly what it filled. The collateral of the bid is split without loss between those loans
  -- and the rest, and the rest has at least its pro rata part.
  pub match_order-Balanced :
      (asks : Asks) (args : MatchArgs) (m : Market) (vault : Option SubVaults) {s : MatchState}
      → match_order asks args m vault ≡ ok (some s)
      → Balanced args m.matched_loans s
  match_order-Balanced asks args m vault e =
      match_order-keeps asks args (Balanced args m.matched_loans)
        (λ i f s s' b _ screened filled.
          step-Balanced args m.matched_loans (asks.order_at i) f s s' b screened filled)
        m vault
        (record {
          principal = omega arith;
          loans = omega arith;
          collateral = omega arith;
          backed = omega arith;
        })
        e
