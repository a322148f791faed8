-- ===== src/Vault/Admin.antt =====
-- The management of a sub-vault: update_sub_vault.rs, sunset_sub_vault.rs, resume_sub_vault.rs and
-- remove_sub_vault.rs in programs/ydelta/src/program/processor.
use y_delta.Prelude.{
  ℕ, ◌≡◌, refl, sym, ap, subst, ◌∙◌, not, Option, none, some, inl, inr, Option-cases, Bool-cases,
  Result, ok, err, custom, ok-injective, >>=-eq-ok, >>-eq-ok, require-eq-ok, sub_vault_not_found,
  sub_vault_not_sunset, sub_vault_sunset, vault_curator_required, require, ◌>>=◌, ◌>>◌, ◌==◌, ==→≡,
  arith,
}
use mathlib.Core.Option.{none-ne-some, get_or}
use y_delta.Loan.{Pubkey}
use y_delta.SubVault.{SubVault}
use y_delta.Market.Engine.{set_at}
use y_delta.Vault.{Vault}
use y_delta.Vault.Counts.{count_of, CountIs}
use y_delta.Vault.Lifecycle.{validate_sub_vault_risk_params, remove_sub_vault}
use y_delta.Vault.Created.{
  Gapped, GappedIf, InOrder, validate_sub_vault_risk_params-eq-ok, remove_sub_vault-InOrder,
}

-- `None` keeps a parameter.
pub record UpdateSubVaultParams : Type 0 where
  pub sub_vault_id : ℕ
  pub new_max_ltv_bps : Option ℕ
  pub new_liquidation_ltv_bps : Option ℕ
  pub new_max_term_seconds : Option ℕ
  pub new_spread_bps : Option ℕ

-- A write to a sub-vault that is there.
abbrev pub write_sub_vault : Vault → ℕ → SubVault → Vault
write_sub_vault v id s = record v { sub_vaults = set_at v.sub_vaults id (some s) }

-- The new parameters are checked together with the ones that stay.
unfoldable pub updated_sub_vault : Pubkey → UpdateSubVaultParams → SubVault → Result SubVault
updated_sub_vault payer p s = do
  require (s.curator == payer) (custom vault_curator_required)
  require (s.is_sunset == 0) (custom sub_vault_sunset)
  let max_ltv = get_or p.new_max_ltv_bps s.max_ltv_bps
  let liquidation_ltv = get_or p.new_liquidation_ltv_bps s.liquidation_ltv_bps
  let term = get_or p.new_max_term_seconds s.max_term_seconds
  validate_sub_vault_risk_params max_ltv liquidation_ltv term
  ok (record s {
    max_ltv_bps = max_ltv;
    liquidation_ltv_bps = liquidation_ltv;
    max_term_seconds = term;
    spread_bps = get_or p.new_spread_bps s.spread_bps;
  })

unfoldable pub update_sub_vault : Vault → Pubkey → UpdateSubVaultParams → Result Vault
update_sub_vault v payer p = elim (v.sub_vaults p.sub_vault_id) [
  | none ↦ err (custom sub_vault_not_found)
  | some s ↦ updated_sub_vault payer p s >>= λ s'. ok (write_sub_vault v p.sub_vault_id s')
]

unfoldable pub set_sunset : (is_sunset : ℕ) → Vault → ℕ → Result Vault
set_sunset is_sunset v id = elim (v.sub_vaults id) [
  | none ↦ err (custom sub_vault_not_found)
  | some s ↦ ok (write_sub_vault v id (record s { is_sunset = is_sunset }))
]

abbrev pub sunset_sub_vault : Vault → ℕ → Result Vault
sunset_sub_vault v id = set_sunset 1 v id

abbrev pub resume_sub_vault : Vault → ℕ → Result Vault
resume_sub_vault v id = set_sunset 0 v id

-- `freed` is not `NIL`, since the sub-vault was there.
unfoldable pub remove_sunset_sub_vault : Vault → ℕ → Result Vault
remove_sunset_sub_vault v id = elim (v.sub_vaults id) [
  | none ↦ err (custom sub_vault_not_found)
  | some s ↦ do
    require (not (s.is_sunset == 0)) (custom sub_vault_not_sunset)
    removed ← remove_sub_vault v id
    ok removed.0
]

-- A write that keeps the number of orders and the gap.
pub write_sub_vault-InOrder :
    (v : Vault) (id : ℕ) (s s' : SubVault)
    → InOrder v
    → v.sub_vaults id ≡ some s
    → s'.open_orders_count ≡ s.open_orders_count
    → Gapped s'
    → InOrder (write_sub_vault v id s')
write_sub_vault-InOrder v id s s' o present same_orders gap =
    let was : s.open_orders_count ≡ count_of v.market_orders id =
      subst (λ x. CountIs x (count_of v.market_orders id)) present (o.counted.each id) in
    record {
      counted = record {
        all = o.counted.all;
        each = λ k. elim (Bool-cases (k == id)) [
          | inl same ↦
              rw same (same_orders ∙ was ∙ ap (count_of v.market_orders) (sym (==→≡ k id same)))
          | inr other ↦ rw other (o.counted.each k)
        ];
        single = o.counted.single;
      };
      numbered = λ k le. elim (Bool-cases (k == id)) [
        | inl same ↦
            let there : v.sub_vaults id ≡ none =
              o.numbered id (omega (arith, ==→≡ k id same, le)) in
            absurd (none-ne-some s (sym there ∙ present))
        | inr other ↦ rw other (o.numbered k le)
      ];
      gapped = λ k. elim (Bool-cases (k == id)) [
        | inl same ↦ rw same gap
        | inr other ↦ rw other (o.gapped k)
      ];
    }

updated_sub_vault-Gapped :
    (payer : Pubkey) (p : UpdateSubVaultParams) (s : SubVault) {s' : SubVault}
    → updated_sub_vault payer p s ≡ ok s'
    → (s'.open_orders_count ≡ s.open_orders_count) × Gapped s'
unfolding updated_sub_vault
updated_sub_vault-Gapped payer p s {s'} e =
    let max_ltv = get_or p.new_max_ltv_bps s.max_ltv_bps in
    let liquidation_ltv = get_or p.new_liquidation_ltv_bps s.liquidation_ltv_bps in
    let term = get_or p.new_max_term_seconds s.max_term_seconds in
    let (_, e₁) = require-eq-ok (s.curator == payer) _ e in
    let (_, e₂) = require-eq-ok (s.is_sunset == 0) _ e₁ in
    let (valid, e₃) = >>-eq-ok (validate_sub_vault_risk_params max_ltv liquidation_ltv term) e₂ in
    let (gap, most, _) = validate_sub_vault_risk_params-eq-ok max_ltv liquidation_ltv term valid in
    subst (λ x. (x.open_orders_count ≡ s.open_orders_count) × Gapped x) (ok-injective e₃)
      (refl, (gap, most))

pub update_sub_vault-InOrder :
    (v : Vault) (payer : Pubkey) (p : UpdateSubVaultParams) {v' : Vault}
    → InOrder v
    → update_sub_vault v payer p ≡ ok v'
    → InOrder v'
unfolding update_sub_vault
update_sub_vault-InOrder v payer p o e = elim (Option-cases (v.sub_vaults p.sub_vault_id)) [
  | inl missing ↦ let failed = rw (update_sub_vault, missing) at e in absurd cc
  | inr (s, present) ↦
      let (s', s'_eq, e₁) =
        >>=-eq-ok (updated_sub_vault payer p s) _ (rw (update_sub_vault, present) at e) in
      let (same_orders, gap) = updated_sub_vault-Gapped payer p s s'_eq in
      subst InOrder (ok-injective e₁)
        (write_sub_vault-InOrder v p.sub_vault_id s s' o present same_orders gap)
]

pub set_sunset-InOrder :
    (is_sunset : ℕ) (v : Vault) (id : ℕ) {v' : Vault}
    → InOrder v
    → set_sunset is_sunset v id ≡ ok v'
    → InOrder v'
unfolding set_sunset
set_sunset-InOrder is_sunset v id o e = elim (Option-cases (v.sub_vaults id)) [
  | inl missing ↦ let failed = rw (set_sunset, missing) at e in absurd cc
  | inr (s, present) ↦
      let same = rw (set_sunset, present) at e in
      subst InOrder (ok-injective same) (
        write_sub_vault-InOrder v id s (record s { is_sunset = is_sunset }) o present refl
          (subst GappedIf present (o.gapped id)))
]

pub remove_sunset_sub_vault-InOrder :
    (v : Vault) (id : ℕ) {v' : Vault}
    → InOrder v
    → remove_sunset_sub_vault v id ≡ ok v'
    → InOrder v' × (count_of v'.market_orders id ≡ 0)
unfolding remove_sunset_sub_vault
remove_sunset_sub_vault-InOrder v id o e = elim (Option-cases (v.sub_vaults id)) [
  | inl missing ↦ let failed = rw (remove_sunset_sub_vault, missing) at e in absurd cc
  | inr (s, present) ↦
      let removing = rw (remove_sunset_sub_vault, present) at e in
      let (_, e₁) = require-eq-ok (not (s.is_sunset == 0)) _ removing in
      let (q, q_eq, e₂) = >>=-eq-ok (remove_sub_vault v id) _ e₁ in
      subst (λ x. InOrder x × (count_of x.market_orders id ≡ 0)) (ok-injective e₂)
        (remove_sub_vault-InOrder v id o q_eq)
]
