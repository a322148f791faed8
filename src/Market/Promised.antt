-- ===== src/Market/Promised.antt =====
-- What matching promises of the sub-vaults whose asks it takes: the reservations of `match_order` and
-- `match_p2pool_residual_against_asks` in programs/ydelta/src/state/market_helpers.rs.
use y_delta.Prelude.{
  ℕ, ◌+◌, ◌≡◌, ◌≢◌, refl, ap, subst, ◌∙◌, Option, none, some, Option-cases, inl, inr, List, [], ◌∷◌,
  true, false, ok, ok-injective, Bool-cases, >>=-eq-ok, ◌>>=◌, ◌==◌, ==→≡, arith,
}
use y_delta.Order.{DataIndex}
use y_delta.SubVault.{SubVault}
use y_delta.Market.{Market, MatchedLoan}
use y_delta.Market.Engine.{SubVaults, offer_of, reserve, reserve_in, set_at}
use y_delta.Market.Backing.{only}

abbrev encumbered : Option SubVault → ℕ
encumbered none = 0
encumbered (some v) = v.encumbered_in_orders_atoms

abbrev pub encumbered_at : Option SubVaults → ℕ → ℕ
encumbered_at none id = 0
encumbered_at (some vs) id = encumbered (vs id)

-- The principal of the loans whose lender is a sub-vault.
unfoldable pub lent_by : Market → ℕ → List MatchedLoan → ℕ
lent_by m id [] = 0
lent_by m id (l ∷ ls) =
    only (m.seats l.lender_seat_index).sub_vault_id id l.principal_atoms + lent_by m id ls

-- Since `m` and `vault`, every sub-vault has encumbered exactly the principal of the new loans that it
-- is the lender of, and the seats stand for the same sub-vaults.
pub record Promised (m : Market) (vault : Option SubVaults) (m' : Market)
    (vault' : Option SubVaults) : Type 0 where
  pub seats : (k : DataIndex) → (m'.seats k).sub_vault_id ≡ (m.seats k).sub_vault_id
  pub each :
      (id : ℕ)
      → encumbered_at vault' id + lent_by m id m.matched_loans
        ≡ encumbered_at vault id + lent_by m id m'.matched_loans

pub nothing-Promised : (m : Market) (vault : Option SubVaults) → Promised m vault m vault
nothing-Promised m vault = record { seats = λ k. refl; each = λ id. refl }

reserve-adds :
    (v : SubVault) (principal : ℕ) {v' : SubVault}
    → reserve v principal ≡ ok v'
    → v'.encumbered_in_orders_atoms ≡ v.encumbered_in_orders_atoms + principal
unfolding reserve
reserve-adds v principal e = ground arith

set_at-adds :
    (vs : SubVaults) (id principal : ℕ) (v v' : SubVault)
    → vs id ≡ some v
    → v'.encumbered_in_orders_atoms ≡ v.encumbered_in_orders_atoms + principal
    → (k : ℕ) → encumbered (set_at vs id (some v') k) ≡ encumbered (vs k) + only id k principal
set_at-adds vs id principal v v' found added k = elim (Bool-cases (k == id)) [
  | inl same ↦
      let at_id : vs k ≡ some v = ap vs (==→≡ k id same) ∙ found in
      let own : (id == k) ≡ true = ground (arith, same) in rw (same, own, at_id) added
  | inr other ↦
      let apart : (id == k) ≡ false = ground (arith, other) in rw (other, apart) (omega arith)
]

reserve_in-adds :
    (vs : SubVaults) (id principal : ℕ) {u : Option SubVaults}
    → (offer_of (vs id)).idle ≢ 0
    → reserve_in (some vs) id principal ≡ ok u
    → (k : ℕ) → encumbered_at u k ≡ encumbered (vs k) + only id k principal
unfolding reserve_in offer_of
reserve_in-adds vs id principal {u} nonzero e k = elim (Option-cases (vs id)) [
  | inl gone ↦ absurd (nonzero (rw gone refl))
  | inr (v, found) ↦
      let e1 : (reserve v principal >>= λ v'. ok (some (set_at vs id (some v')))) ≡ ok u =
        rw (reserve_in, found) at e in
      let (v', v'_eq, e2) = >>=-eq-ok (reserve v principal) _ e1 in
      let added = reserve-adds v principal v'_eq in
      subst (λ x. encumbered_at x k ≡ encumbered (vs k) + only id k principal) (ok-injective e2)
        (set_at-adds vs id principal v v' found added k)
]

-- A loan more, and its reservation.
pub loan-Promised :
    (m : Market) (vault : Option SubVaults) (m₁ m₂ : Market) (vs : SubVaults) (node : MatchedLoan)
    {u : Option SubVaults}
    → Promised m vault m₁ (some vs)
    → (offer_of (vs (m₁.seats node.lender_seat_index).sub_vault_id)).idle ≢ 0
    → reserve_in (some vs) (m₁.seats node.lender_seat_index).sub_vault_id node.principal_atoms
      ≡ ok u
    → m₂.matched_loans ≡ node ∷ m₁.matched_loans
    → ((k : DataIndex) → (m₂.seats k).sub_vault_id ≡ (m₁.seats k).sub_vault_id)
    → Promised m vault m₂ u
unfolding lent_by
loan-Promised m vault m₁ m₂ vs node p nonzero reserved loans ids = record {
  seats = λ k. ids k ∙ p.seats k;
  each = λ id.
      let lender = node.lender_seat_index in
      let added =
        reserve_in-adds vs (m₁.seats lender).sub_vault_id node.principal_atoms nonzero reserved
          id in
      let same = ap (λ x. only x id node.principal_atoms) (p.seats lender) in
      let lent = ap (λ ls. lent_by m id ls) loans in omega (arith, p.each id, added, same, lent);
}
