-- ===== src/Vault/Created.antt =====
-- What the creation and the removal of a sub-vault keep: programs/ydelta/src/state/vault.rs and
-- programs/ydelta/src/program/processor/create_sub_vault.rs.
use y_delta.Prelude.{
  ℕ, ◌+◌, ◌≤◌, ◌<◌, ◌≡◌, refl, sym, ap, subst, ◌∙◌, Option, none, some, List, [], ◌∷◌, inl, inr,
  Option-cases, Bool-cases, ok, custom, ok_or, ok-injective, >>=-eq-ok, require-eq-ok, ◌==◌, ==→≡,
  arith, u16_mod, u32_mod, arithmetic_overflow, sub_vault_id_exists,
}
use y_delta.Prelude.Words
use y_delta.Loan.{Pubkey}
use y_delta.Order.{DataIndex}
use y_delta.SubVault.{SubVault, new_empty, is_empty}
use y_delta.Market.Engine.{set_at}
use y_delta.Vault.{Vault}
use y_delta.Vault.Counts.{count_of, count_all, count_key, CountIs, IsCounted}
use y_delta.Vault.Lifecycle.{
  SubVaultParams, new_vault, min_liq_gap_bps, validate_sub_vault_risk_params, sub_vault_of,
  append_in, append_sub_vault, with_block, vault_expand_sub_vault_block, sub_vault_block_size,
  remove_sub_vault,
}

-- No loan of the sub-vault can be liquidated at the value that it was made at.
abbrev pub Gapped : SubVault → Type 0
Gapped s =
    (s.max_ltv_bps + min_liq_gap_bps ≤ s.liquidation_ltv_bps) × (s.liquidation_ltv_bps ≤ 10_000)

abbrev pub GappedIf : Option SubVault → Type 0
GappedIf none = Unit {0}
GappedIf (some s) = Gapped s

-- The counters of orders are right, the ids from the next one on are free, and every sub-vault has its
-- gap.
pub record InOrder (v : Vault) : Type 0 where
  pub counted : IsCounted v
  pub numbered : (id : ℕ) → v.next_sub_vault_id ≤ id → v.sub_vaults id ≡ none
  pub gapped : (id : ℕ) → GappedIf (v.sub_vaults id)

pub new_vault-InOrder :
    (mint admin integration_pool integration_account signer : Pubkey) (signer_bump : ℕ)
    (lending_pool : Pubkey)
    → InOrder
        (new_vault mint admin integration_pool integration_account signer signer_bump lending_pool)
unfolding new_vault count_of count_all count_key
new_vault-InOrder mint admin pool integration_account signer signer_bump lending_pool = record {
  counted = record { all = refl; each = λ _. refl; single = λ _ _. omega arith };
  numbered = λ _ _. refl;
  gapped = λ _. tt;
}

pub validate_sub_vault_risk_params-eq-ok :
    (max_ltv liquidation_ltv max_term : ℕ)
    → validate_sub_vault_risk_params max_ltv liquidation_ltv max_term ≡ ok tt
    → (max_ltv + min_liq_gap_bps ≤ liquidation_ltv) × (liquidation_ltv ≤ 10_000) × (0 < max_term)
unfolding validate_sub_vault_risk_params
validate_sub_vault_risk_params-eq-ok max_ltv liquidation_ltv max_term e = ground arith

-- A sub-vault without orders at an id that none had.
placed-InOrder :
    (v : Vault) (s : SubVault) (next : ℕ) (blocks : ℕ → DataIndex) (free : List DataIndex)
    (count : ℕ)
    → InOrder v
    → s.sub_vault_id ≡ v.next_sub_vault_id
    → next ≡ v.next_sub_vault_id + 1
    → s.open_orders_count ≡ 0
    → Gapped s
    → InOrder (record v {
      sub_vaults = set_at v.sub_vaults s.sub_vault_id (some s);
      sub_vault_blocks = blocks;
      free_sub_vault_blocks = free;
      sub_vault_count = count;
      next_sub_vault_id = next;
    })
placed-InOrder v s next blocks free count o id_eq next_eq no_orders gap =
    let none_there : v.sub_vaults s.sub_vault_id ≡ none =
      o.numbered s.sub_vault_id (omega (arith, id_eq)) in
    let unreferred : count_of v.market_orders s.sub_vault_id ≡ 0 =
      subst (λ x. CountIs x (count_of v.market_orders s.sub_vault_id)) none_there
        (o.counted.each s.sub_vault_id) in
    record {
      counted = record {
        all = o.counted.all;
        each = λ k. elim (Bool-cases (k == s.sub_vault_id)) [
          | inl same ↦
              let here : count_of v.market_orders k ≡ 0 =
                ap (count_of v.market_orders) (==→≡ k s.sub_vault_id same) ∙ unreferred in
              rw same (no_orders ∙ sym here)
          | inr other ↦ rw other (o.counted.each k)
        ];
        single = o.counted.single;
      };
      numbered = λ k le. elim (Bool-cases (k == s.sub_vault_id)) [
        | inl same ↦ absurd (omega (arith, ==→≡ k s.sub_vault_id same, id_eq, next_eq, le))
        | inr other ↦ rw other (o.numbered k (omega (arith, next_eq, le)))
      ];
      gapped = λ k. elim (Bool-cases (k == s.sub_vault_id)) [
        | inl same ↦ rw same gap
        | inr other ↦ rw other (o.gapped k)
      ];
    }

append_in-InOrder :
    (v : Vault) (s : SubVault) (next : ℕ) (free : List DataIndex) {v' : Vault}
    → InOrder v
    → s.sub_vault_id ≡ v.next_sub_vault_id
    → next ≡ v.next_sub_vault_id + 1
    → s.open_orders_count ≡ 0
    → Gapped s
    → append_in v s next free ≡ ok v'
    → InOrder v'
append_in-InOrder v s next [] o id_eq next_eq no_orders gap e = absurd cc
append_in-InOrder v s next (i ∷ rest) o id_eq next_eq no_orders gap e =
    let (count, _, e₁) =
      >>=-eq-ok (ok_or (Words.checked_add u16_mod v.sub_vault_count 1) arithmetic_overflow) _ e in
    subst InOrder (ok-injective e₁) (
      placed-InOrder v s next (set_at v.sub_vault_blocks s.sub_vault_id i) rest count o id_eq
        next_eq no_orders gap)

vault_expand_sub_vault_block-InOrder :
    (v : Vault) {v' : Vault} → InOrder v → vault_expand_sub_vault_block v ≡ ok v' → InOrder v'
unfolding vault_expand_sub_vault_block
vault_expand_sub_vault_block-InOrder v o e =
    let (_, _, e₁) =
      >>=-eq-ok
        (ok_or (Words.checked_add u32_mod v.num_bytes_allocated sub_vault_block_size)
          arithmetic_overflow)
        _ e in
    subst InOrder (ok-injective e₁) (record {
      counted = record { all = o.counted.all; each = o.counted.each; single = o.counted.single };
      numbered = o.numbered;
      gapped = o.gapped;
    })

with_block-InOrder :
    (v : Vault) (free : List DataIndex) {v' : Vault}
    → InOrder v
    → with_block v free ≡ ok v'
    → InOrder v'
with_block-InOrder v [] o e = vault_expand_sub_vault_block-InOrder v o e
with_block-InOrder v (i ∷ rest) o e = subst InOrder (ok-injective e) o

pub append_sub_vault-InOrder :
    (v : Vault) (kind : ℕ) (p : SubVaultParams) {v' : Vault}
    → InOrder v
    → (p.max_ltv_bps + min_liq_gap_bps ≤ p.liquidation_ltv_bps) × (p.liquidation_ltv_bps ≤ 10_000)
    → append_sub_vault v kind p ≡ ok v'
    → InOrder v'
unfolding append_sub_vault new_empty
append_sub_vault-InOrder v kind p o gap e =
    let (grown, grown_eq, e₁) = >>=-eq-ok (with_block v v.free_sub_vault_blocks) _ e in
    let (next, next_eq, e₂) =
      >>=-eq-ok
        (ok_or (Words.checked_add u16_mod grown.next_sub_vault_id 1) (custom sub_vault_id_exists)) _
        e₁ in
    append_in-InOrder grown (sub_vault_of grown.next_sub_vault_id kind p) next
      grown.free_sub_vault_blocks (with_block-InOrder v v.free_sub_vault_blocks o grown_eq) refl
      (ground (arith, next_eq)) refl gap e₂

-- A removed sub-vault had no orders, so none of the references that are left is one of its.
pub remove_sub_vault-InOrder :
    (v : Vault) (id : ℕ) {q : Vault × Option DataIndex}
    → InOrder v
    → remove_sub_vault v id ≡ ok q
    → InOrder q.0 × (count_of (q.0).market_orders id ≡ 0)
unfolding remove_sub_vault is_empty
remove_sub_vault-InOrder v id {q} o e = elim (Option-cases (v.sub_vaults id)) [
  | inl missing ↦
      let there : Vault × Option DataIndex = (v, none) in
      let same : ok there ≡ ok q = rw (remove_sub_vault, missing) at e in
      let unreferred =
        subst (λ x. CountIs x (count_of v.market_orders id)) missing (o.counted.each id) in
      subst (λ x. InOrder x.0 × (count_of (x.0).market_orders id ≡ 0)) (ok-injective same)
        (o, unreferred)
  | inr (s, present) ↦
      let removing = rw (remove_sub_vault, present) at e in
      let (empty, e₁) = require-eq-ok (is_empty s) _ removing in
      let (count, _, e₂) =
        >>=-eq-ok (ok_or (Words.checked_sub v.sub_vault_count 1) arithmetic_overflow) _ e₁ in
      let no_orders : s.open_orders_count ≡ 0 = ground (arith, empty) in
      let was = subst (λ x. CountIs x (count_of v.market_orders id)) present (o.counted.each id) in
      let unreferred : count_of v.market_orders id ≡ 0 = sym was ∙ no_orders in
      subst (λ x. InOrder x.0 × (count_of (x.0).market_orders id ≡ 0)) (ok-injective e₂)
        (
          record {
            counted = record {
              all = o.counted.all;
              each = λ k. elim (Bool-cases (k == id)) [
                | inl same ↦ rw same (ap (count_of v.market_orders) (==→≡ k id same) ∙ unreferred)
                | inr other ↦ rw other (o.counted.each k)
              ];
              single = o.counted.single;
            };
            numbered = λ k le. elim (Bool-cases (k == id)) [
              | inl same ↦ rw same refl
              | inr other ↦ rw other (o.numbered k le)
            ];
            gapped = λ k. elim (Bool-cases (k == id)) [
              | inl same ↦ rw same tt
              | inr other ↦ rw other (o.gapped k)
            ];
          },
          unreferred,
        )
]
