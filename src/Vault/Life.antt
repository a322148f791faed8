-- ===== src/Vault/Life.antt =====
-- The life of a vault account, as a step relation over the operations of
-- programs/ydelta/src/state/vault.rs and of the processors that manage sub-vaults.
use y_delta.Prelude.{
  ℕ, ◌≤◌, ◌≡◌, sym, subst, ◌∙◌, not, Option, none, some, List, [], ◌∷◌, inl, inr, Option-cases,
  Bool-cases, ok, ok_or, ok-injective, >>=-eq-ok, >>-eq-ok, require-eq-ok, ◌>>◌, ◌==◌, ==→≡, leb,
  arith, u32_mod, arithmetic_overflow,
}
use y_delta.Prelude.Words
use mathlib.Core.Option.{none-ne-some}
use y_delta.Prelude.Int.{ℤ, pos, negsuc}
use y_delta.Math.Uint256.{Uint256}
use y_delta.Loan.{Pubkey}
use y_delta.Order.{DataIndex}
use y_delta.SubVault.{SubVault, sub_vault_kind_pool, sub_vault_kind_private}
use y_delta.Nodes.{Slot, insert_absent, remove_present}
use y_delta.Vault.{
  SubVaultDepositorSeat, SubVaultOrderRef, Vault, lookup_order, remove_order, bump,
  bump_sub_vault_order_count, is_nil, place, insert_sub_vault_order_ref, remove_sub_vault_order_ref,
}
use y_delta.Vault.Counts.{IsCounted}
use y_delta.Vault.Agreement.{
  remove_sub_vault_order_ref-IsCounted, insert_sub_vault_order_ref-IsCounted,
}
use y_delta.Vault.Lifecycle.{
  SubVaultParams, max_curator_fee_bps, probe, depositor_seat_keys, seats_of, with_seats,
  upsert_sub_vault_depositor_seat, remove_sub_vault_depositor_seat, vault_node_block_size,
  vault_expand_node_block, validate_sub_vault_risk_params, append_sub_vault, create_pool_sub_vault,
  create_private_sub_vault,
}
use y_delta.Vault.Moves.{Move, Move-SameTerms}
use y_delta.Vault.Admin.{
  write_sub_vault, write_sub_vault-InOrder, UpdateSubVaultParams, update_sub_vault,
  sunset_sub_vault, resume_sub_vault, remove_sunset_sub_vault, update_sub_vault-InOrder,
  set_sunset-InOrder, remove_sunset_sub_vault-InOrder,
}
use y_delta.Vault.Created.{
  Gapped, GappedIf, InOrder, validate_sub_vault_risk_params-eq-ok, append_sub_vault-InOrder,
}

-- An operation that succeeded. The claims of curators' fees, the transfers of admins and curators, and
-- the promotion, the partial repayment, the settlement and the liquidation of loans are not among them.
pub data VaultStep ⦃w : Uint256⦄ : Vault → Vault → Type 0 where
  pool_created :
      {v v' : Vault} (p : SubVaultParams) → create_pool_sub_vault v p ≡ ok v' → VaultStep v v'
  private_created :
      {v v' : Vault} (payer : Pubkey) (p : SubVaultParams)
      → create_private_sub_vault v payer p ≡ ok v'
      → VaultStep v v'
  sub_vault_updated :
      {v v' : Vault} (payer : Pubkey) (p : UpdateSubVaultParams)
      → update_sub_vault v payer p ≡ ok v'
      → VaultStep v v'
  sunset_begun : {v v' : Vault} (id : ℕ) → sunset_sub_vault v id ≡ ok v' → VaultStep v v'
  sunset_ended : {v v' : Vault} (id : ℕ) → resume_sub_vault v id ≡ ok v' → VaultStep v v'
  sub_vault_removed :
      {v v' : Vault} (id : ℕ) → remove_sunset_sub_vault v id ≡ ok v' → VaultStep v v'
  order_placed :
      {v v' : Vault} (r : SubVaultOrderRef) {i : DataIndex}
      → insert_sub_vault_order_ref v r ≡ ok (v', i)
      → VaultStep v v'
  order_removed :
      {v v' : Vault} (market : Pubkey) (id : ℕ) {freed : Option DataIndex}
      → remove_sub_vault_order_ref v market id ≡ ok (v', freed)
      → VaultStep v v'
  seat_opened :
      {v v' : Vault} (owner : Pubkey) (id : ℕ) {i : DataIndex}
      → upsert_sub_vault_depositor_seat v owner id ≡ ok (v', i)
      → VaultStep v v'
  seat_closed :
      {v v' : Vault} (owner : Pubkey) (id : ℕ) {freed : Option DataIndex}
      → remove_sub_vault_depositor_seat v owner id ≡ ok (v', freed)
      → VaultStep v v'
  node_block_added : {v v' : Vault} → vault_expand_node_block v ≡ ok v' → VaultStep v v'
  funds_moved :
      {v : Vault} (id : ℕ) {s s' : SubVault}
      → v.sub_vaults id ≡ some s
      → Move s s'
      → VaultStep v (write_sub_vault v id s')

-- Any number of steps.
pub data VaultSteps ⦃w : Uint256⦄ : Vault → Vault → Type 0 where
  stay : {v : Vault} → VaultSteps v v
  step : {v v' v'' : Vault} → VaultSteps v v' → VaultStep v' v'' → VaultSteps v v''

-- The ids and the gaps, which an order does not touch.
abbrev HasIds : Vault → Type 0
HasIds v =
    ((id : ℕ) → v.next_sub_vault_id ≤ id → v.sub_vaults id ≡ none)
    × ((id : ℕ) → GappedIf (v.sub_vaults id))

bump-GappedIf :
    (s : SubVault) (d : ℤ) {s' : SubVault}
    → GappedIf (some s)
    → bump s d ≡ ok s'
    → GappedIf (some s')
unfolding bump
bump-GappedIf s (pos d) gap e = ground (arith, gap)
bump-GappedIf s (negsuc d) gap e = ground (arith, gap)

bump_sub_vault_order_count-HasIds :
    (v : Vault) (id : ℕ) (d : ℤ) {v' : Vault}
    → HasIds v
    → bump_sub_vault_order_count v id d ≡ ok v'
    → HasIds v'
unfolding bump_sub_vault_order_count
bump_sub_vault_order_count-HasIds v id d {v'} (numbered, gapped) e =
    elim (Option-cases (v.sub_vaults id)) [
      | inl missing ↦ let failed = rw (bump_sub_vault_order_count, missing) at e in absurd cc
      | inr (s, present) ↦
          let bumping = rw (bump_sub_vault_order_count, present) at e in
          let (s', s'_eq, e₁) = >>=-eq-ok (bump s d) _ bumping in
          let gap = bump-GappedIf s d (subst GappedIf present (gapped id)) s'_eq in
          subst HasIds (ok-injective e₁) (
            λ k le. elim (Bool-cases (k == id)) [
              | inl same ↦
                  let there : v.sub_vaults id ≡ none =
                    numbered id (omega (arith, ==→≡ k id same, le)) in
                  absurd (none-ne-some s (sym there ∙ present))
              | inr other ↦ rw other (numbered k le)
            ],
            λ k. elim (Bool-cases (k == id)) [
              | inl same ↦ rw same gap
              | inr other ↦ rw other (gapped k)
            ],
          )
    ]

place-HasIds :
    (v : Vault) (r : SubVaultOrderRef) (free : List DataIndex) {q : Vault × DataIndex}
    → HasIds v
    → place v r free ≡ ok q
    → HasIds q.0
place-HasIds v r [] ids e = absurd cc
place-HasIds v r (i ∷ rest) ids e =
    let (count, _, e₁) =
      >>=-eq-ok (ok_or (Words.checked_add u32_mod v.open_order_count 1) arithmetic_overflow) _ e in
    let placed : Vault = record v {
      market_orders = (i, r) ∷ v.market_orders;
      open_order_count = count;
      free_nodes = rest;
    } in
    let (v', v'_eq, e₂) =
      >>=-eq-ok (bump_sub_vault_order_count placed r.sub_vault_id (pos 1)) _ e₁ in
    subst (λ x. HasIds x.0) (ok-injective e₂)
      (bump_sub_vault_order_count-HasIds placed r.sub_vault_id (pos 1) ids v'_eq)

insert_sub_vault_order_ref-HasIds :
    (v : Vault) (r : SubVaultOrderRef) {q : Vault × DataIndex}
    → HasIds v
    → insert_sub_vault_order_ref v r ≡ ok q
    → HasIds q.0
unfolding insert_sub_vault_order_ref
insert_sub_vault_order_ref-HasIds v r ids e =
    let (_, e₁) =
      require-eq-ok (is_nil (lookup_order v.market_orders r.market r.sub_vault_id)) _ e in
    place-HasIds v r v.free_nodes ids e₁

remove_sub_vault_order_ref-HasIds :
    (v : Vault) (market : Pubkey) (id : ℕ) {q : Vault × Option DataIndex}
    → HasIds v
    → remove_sub_vault_order_ref v market id ≡ ok q
    → HasIds q.0
unfolding remove_sub_vault_order_ref
remove_sub_vault_order_ref-HasIds v market id {q} ids e =
    elim (Option-cases (lookup_order v.market_orders market id)) [
      | inl missing ↦
          let there : Vault × Option DataIndex = (v, none) in
          let same : ok there ≡ ok q = rw (remove_sub_vault_order_ref, missing) at e in
          subst (λ x. HasIds x.0) (ok-injective same) ids
      | inr (i, found) ↦
          let removing = rw (remove_sub_vault_order_ref, found) at e in
          let (count, _, e₁) =
            >>=-eq-ok (ok_or (Words.checked_sub v.open_order_count 1) arithmetic_overflow) _
              removing in
          let removed : Vault = record v {
            market_orders = remove_order v.market_orders market id;
            open_order_count = count;
            free_nodes = i ∷ v.free_nodes;
          } in
          let (v', v'_eq, e₂) = >>=-eq-ok (bump_sub_vault_order_count removed id (negsuc 0)) _ e₁ in
          subst (λ x. HasIds x.0) (ok-injective e₂)
            (bump_sub_vault_order_count-HasIds removed id (negsuc 0) ids v'_eq)
    ]

removed_order-IsCounted :
    (v : Vault) (market : Pubkey) (id : ℕ) {q : Vault × Option DataIndex}
    → IsCounted v
    → remove_sub_vault_order_ref v market id ≡ ok q
    → IsCounted q.0
removed_order-IsCounted v market id {q} counted e =
    let (v', o, e', counted') = remove_sub_vault_order_ref-IsCounted v market id counted in
    let same : (v', o) ≡ q = ok-injective (sym e' ∙ e) in subst (λ x. IsCounted x.0) same counted'

created-InOrder :
    (v : Vault) (kind : ℕ) (p : SubVaultParams) {v' : Vault}
    → InOrder v
    → (validate_sub_vault_risk_params p.max_ltv_bps p.liquidation_ltv_bps p.max_term_seconds
        >> append_sub_vault v kind p)
      ≡ ok v'
    → InOrder v'
created-InOrder v kind p o e =
    let (valid, e₁) =
      >>-eq-ok
        (validate_sub_vault_risk_params p.max_ltv_bps p.liquidation_ltv_bps p.max_term_seconds) e in
    let (gap, most, _) =
      validate_sub_vault_risk_params-eq-ok p.max_ltv_bps p.liquidation_ltv_bps p.max_term_seconds
        valid in
    append_sub_vault-InOrder v kind p o (gap, most) e₁

with_seats-InOrder :
    (v : Vault) (s : Slot SubVaultDepositorSeat) → InOrder v → InOrder (with_seats v s)
with_seats-InOrder v s o = record {
  counted = record { all = o.counted.all; each = o.counted.each; single = o.counted.single };
  numbered = o.numbered;
  gapped = o.gapped;
}

-- Each operation keeps a vault account in order.
step-InOrder : ⦃w : Uint256⦄ → {v v' : Vault} → InOrder v → VaultStep v v' → InOrder v'
unfolding create_pool_sub_vault create_private_sub_vault upsert_sub_vault_depositor_seat
    remove_sub_vault_depositor_seat vault_expand_node_block
step-InOrder {v} o (pool_created p e) =
    let (valid, e₁) =
      >>-eq-ok
        (validate_sub_vault_risk_params p.max_ltv_bps p.liquidation_ltv_bps p.max_term_seconds) e in
    let (gap, most, _) =
      validate_sub_vault_risk_params-eq-ok p.max_ltv_bps p.liquidation_ltv_bps p.max_term_seconds
        valid in
    let (_, e₂) = require-eq-ok (leb p.curator_fee_bps max_curator_fee_bps) _ e₁ in
    let (_, e₃) = require-eq-ok (not (p.curator == 0)) _ e₂ in
    append_sub_vault-InOrder v sub_vault_kind_pool p o (gap, most) e₃
step-InOrder {v} o (private_created payer p e) =
    created-InOrder v sub_vault_kind_private (record p { curator = payer; curator_fee_bps = 0 }) o e
step-InOrder {v} o (sub_vault_updated payer p e) = update_sub_vault-InOrder v payer p o e
step-InOrder {v} o (sunset_begun id e) = set_sunset-InOrder 1 v id o e
step-InOrder {v} o (sunset_ended id e) = set_sunset-InOrder 0 v id o e
step-InOrder {v} o (sub_vault_removed id e) = (remove_sunset_sub_vault-InOrder v id o e).0
step-InOrder {v} o (order_placed r e) =
    let (numbered, gapped) = insert_sub_vault_order_ref-HasIds v r (o.numbered, o.gapped) e in
    record {
      counted = insert_sub_vault_order_ref-IsCounted v r o.counted e;
      numbered = numbered;
      gapped = gapped;
    }
step-InOrder {v} o (order_removed market id e) =
    let (numbered, gapped) =
      remove_sub_vault_order_ref-HasIds v market id (o.numbered, o.gapped) e in
    record {
      counted = removed_order-IsCounted v market id o.counted e;
      numbered = numbered;
      gapped = gapped;
    }
step-InOrder {v} o (seat_opened owner id e) =
    let (p, _, e₁) =
      >>=-eq-ok (insert_absent depositor_seat_keys u32_mod (probe owner id) (seats_of v)) _ e in
    subst (λ x. InOrder x.0) (ok-injective e₁) (with_seats-InOrder v p.0 o)
step-InOrder {v} o (seat_closed owner id e) =
    let (p, _, e₁) = >>=-eq-ok (remove_present depositor_seat_keys (owner, id) (seats_of v)) _ e in
    subst (λ x. InOrder x.0) (ok-injective e₁) (with_seats-InOrder v p.0 o)
step-InOrder {v} o (node_block_added e) =
    let (_, _, e₁) =
      >>=-eq-ok
        (ok_or (Words.checked_add u32_mod v.num_bytes_allocated vault_node_block_size)
          arithmetic_overflow)
        _ e in
    subst InOrder (ok-injective e₁) (record {
      counted = record { all = o.counted.all; each = o.counted.each; single = o.counted.single };
      numbered = o.numbered;
      gapped = o.gapped;
    })
step-InOrder {v} o (funds_moved id {s} {s'} present move) =
    let same = Move-SameTerms move in
    let gap : Gapped s = subst GappedIf present (o.gapped id) in
    write_sub_vault-InOrder v id s s' o present same.orders
      (omega (arith, gap.0, same.max_ltv, same.liquidation), omega (arith, gap.1, same.liquidation))

-- A vault account that is in order stays in order while sub-vaults are created, updated, sunset,
-- resumed and removed, orders and depositors' seats come and go, blocks are added, and the funds of
-- sub-vaults accrue, are deposited, withdrawn, reserved for a match, settled by a full repayment and
-- swept. In order means that the counters of open orders agree with the references, ids that were not
-- given yet are free, and every sub-vault keeps the gap between the value its loans are made at and
-- the one they are liquidated at.
pub VaultSteps-InOrder : ⦃w : Uint256⦄ → {v v' : Vault} → InOrder v → VaultSteps v v' → InOrder v'
VaultSteps-InOrder o stay = o
VaultSteps-InOrder o (step before last) = step-InOrder (VaultSteps-InOrder o before) last
