-- ===== src/Market/Capacity.antt =====
-- A match never promises more than a sub-vault holds: `match_order` in
-- programs/ydelta/src/state/market_helpers.rs.
use y_delta.Prelude.{
  ℕ, ◌+◌, ◌≤◌, ◌≡◌, ◌≢◌, refl, ap, subst, Option, none, some, Option-cases, inl, inr, ok,
  ok-injective, Bool-cases, >>=-eq-ok, ◌>>=◌, ◌==◌, arith,
}
use y_delta.Math.Uint256.{Uint256}
use y_delta.Order.{RestingOrder}
use y_delta.SubVault.{SubVault}
use y_delta.Market.{Market, Asks}
use y_delta.Market.Engine.{
  MatchArgs, SubVaults, MatchState, offer_of, Fill, take, screen, fill, reserve, reserve_in, set_at,
  node_of,
}
use y_delta.Market.Taken.{screen-Taken, fill-Filled}
use y_delta.Market.Promised.{Promised, nothing-Promised, loan-Promised}
use y_delta.Market.Loop.{match_order, match_order-keeps}

-- The lent out and the promised atoms are in the principal.
abbrev pub Within : Option SubVault → Type 0
Within none = Unit {0}
Within (some v) =
    v.deployed_principal_atoms + v.encumbered_in_orders_atoms ≤ v.total_principal_atoms

-- For every sub-vault of the vault account.
abbrev pub AllWithin : Option SubVaults → Type 0
AllWithin none = Unit {0}
AllWithin (some vs) = (id : ℕ) → Within (vs id)

reserve-Within :
    (v : SubVault) (principal : ℕ) {v' : SubVault}
    → principal ≤ (offer_of (some v)).idle
    → (offer_of (some v)).idle ≢ 0
    → reserve v principal ≡ ok v'
    → Within (some v')
unfolding reserve offer_of
reserve-Within v principal le nonzero e = ground arith

set_at-Within :
    (vs : SubVaults) (k : ℕ) (v : SubVault)
    → ((id : ℕ) → Within (vs id))
    → Within (some v)
    → (id : ℕ) → Within (set_at vs k (some v) id)
set_at-Within vs k v all here id = elim (Bool-cases (id == k)) [
  | inl same ↦ rw same here
  | inr other ↦ rw other (all id)
]

pub reserve_in-Within :
    (vs : SubVaults) (id principal : ℕ) {u : Option SubVaults}
    → ((i : ℕ) → Within (vs i))
    → principal ≤ (offer_of (vs id)).idle
    → (offer_of (vs id)).idle ≢ 0
    → reserve_in (some vs) id principal ≡ ok u
    → AllWithin u
unfolding reserve_in offer_of
reserve_in-Within vs id principal {u} all le nonzero e = elim (Option-cases (vs id)) [
  | inl gone ↦ absurd (nonzero (rw gone refl))
  | inr (v, found) ↦
      let e1 : (reserve v principal >>= λ v'. ok (some (set_at vs id (some v')))) ≡ ok u =
        rw (reserve_in, found) at e in
      let (v', v'_eq, e2) = >>=-eq-ok (reserve v principal) _ e1 in
      let here =
        reserve-Within v principal (subst (λ o. principal ≤ (offer_of o).idle) found le)
          (subst (λ o. (offer_of o).idle ≢ 0) found nonzero) v'_eq in
      subst AllWithin (ok-injective e2) (set_at-Within vs id v' all here)
]

module _ ⦃w : Uint256⦄ where
  step-AllWithin :
      (args : MatchArgs) (maker : RestingOrder) (f : Fill) (s s' : MatchState)
      → AllWithin (s.vault)
      → screen args maker s ≡ ok (take f)
      → fill args maker s f ≡ ok s'
      → AllWithin (s'.vault)
  step-AllWithin args maker f s s' all screened filled =
      let t = screen-Taken args maker s screened in
      let wrote = fill-Filled args maker s f filled in
      let o = t.on_offer in
      let id = (s.market.seats maker.trader_seat_index).sub_vault_id in
      let offer_eq = ap (λ x. x.idle) (t.offer) in
      reserve_in-Within (t.sub_vaults) id (f.principal) (subst AllWithin (t.has_vault) all)
        (omega (arith, o.principal, offer_eq)) (subst (λ x. x ≢ 0) offer_eq (o.some_idle))
        (subst (λ x. reserve_in x id f.principal ≡ ok (s'.vault)) (t.has_vault) (wrote.reserved))

  step-Promised :
      (args : MatchArgs) (m : Market) (vault : Option SubVaults) (maker : RestingOrder) (f : Fill)
      (s s' : MatchState)
      → Promised m vault s.market s.vault
      → screen args maker s ≡ ok (take f)
      → fill args maker s f ≡ ok s'
      → Promised m vault s'.market s'.vault
  step-Promised args m vault maker f s s' p screened filled =
      let t = screen-Taken args maker s screened in
      let wrote = fill-Filled args maker s f filled in
      let id = (s.market.seats maker.trader_seat_index).sub_vault_id in
      loan-Promised m vault s.market s'.market (t.sub_vaults)
        (node_of args maker s.market f wrote.rate wrote.origination)
        (subst (Promised m vault s.market) (t.has_vault) p)
        (subst (λ x. x ≢ 0) (ap (λ x. x.idle) (t.offer)) (t.on_offer.some_idle))
        (subst (λ x. reserve_in x id f.principal ≡ ok (s'.vault)) (t.has_vault) (wrote.reserved))
        wrote.loans wrote.ids

  -- If before a match the deployed and encumbered atoms of every sub-vault are within its principal,
  -- so they are after it. The match has encumbered of every sub-vault exactly the principal of the
  -- loans it queued with that sub-vault as the lender.
  pub match_order-AllWithin :
      (asks : Asks) (args : MatchArgs) (m : Market) (vault : Option SubVaults) {s : MatchState}
      → AllWithin vault
      → match_order asks args m vault ≡ ok (some s)
      → AllWithin (s.vault) × Promised m vault s.market s.vault
  match_order-AllWithin asks args m vault all e =
      match_order-keeps asks args (λ s. AllWithin (s.vault) × Promised m vault s.market s.vault)
        (λ i f s s' (all, p) _ screened filled. (
          step-AllWithin args (asks.order_at i) f s s' all screened filled,
          step-Promised args m vault (asks.order_at i) f s s' p screened filled,
        ))
        m vault (all, nothing-Promised m vault) e
