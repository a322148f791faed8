-- ===== src/Vault/Counts.antt =====
-- The counters of a vault's orders agree with its order references:
-- programs/ydelta/src/state/vault.rs.
use y_delta.Prelude.{
  ℕ, suc, ◌+◌, ◌≤◌, ◌≡◌, refl, ap, Bool, Option, none, some, [], ◌∷◌, inl, inr, Bool-cases, ◌==◌,
  if◌then◌else◌, arith,
}
use y_delta.Loan.{Pubkey}
use y_delta.Order.{DataIndex}
use y_delta.SubVault.{SubVault}
use y_delta.Vault.{OrderRefs, Vault, has_key, lookup_order, remove_order}

abbrev pub one_if : Bool → ℕ
one_if b = if b then 1 else 0

-- All references, those of a sub-vault, and those of a sub-vault in a market.
unfoldable pub count_all : OrderRefs → ℕ
count_all [] = 0
count_all (x ∷ rs) = suc (count_all rs)

unfoldable pub count_of : OrderRefs → ℕ → ℕ
count_of [] id = 0
count_of ((i, r) ∷ rs) id = one_if (r.sub_vault_id == id) + count_of rs id

unfoldable pub count_key : OrderRefs → Pubkey → ℕ → ℕ
count_key [] market id = 0
count_key ((i, r) ∷ rs) market id = one_if (has_key r market id) + count_key rs market id

-- A sub-vault's counter is n; a sub-vault that is missing has no orders.
abbrev pub CountIs : Option SubVault → ℕ → Type 0
CountIs none n = n ≡ 0
CountIs (some s) n = s.open_orders_count ≡ n

-- The counters agree with the references, and a sub-vault has one order in a market at most.
pub record IsCounted (v : Vault) : Type 0 where
  pub all : v.open_order_count ≡ count_all v.market_orders
  pub each : (id : ℕ) → CountIs (v.sub_vaults id) (count_of v.market_orders id)
  pub single : (market : Pubkey) (id : ℕ) → count_key v.market_orders market id ≤ 1

pub lookup_order-none :
    (rs : OrderRefs) (market : Pubkey) (id : ℕ)
    → lookup_order rs market id ≡ none
    → count_key rs market id ≡ 0
unfolding lookup_order count_key
lookup_order-none [] market id e = refl
lookup_order-none ((i, r) ∷ rs) market id e = elim (Bool-cases (has_key r market id)) [
  | inl here ↦ let e0 : some i ≡ none = rw (lookup_order, here) at e in cc
  | inr other ↦
      rw other (omega (arith, lookup_order-none rs market id (rw (lookup_order, other) at e)))
]

-- What removing a found reference takes away.
pub remove_order-counts :
    (rs : OrderRefs) (market : Pubkey) (id : ℕ) {i : DataIndex}
    → lookup_order rs market id ≡ some i
    → (suc (count_all (remove_order rs market id)) ≡ count_all rs)
      × ((k : ℕ) → one_if (id == k) + count_of (remove_order rs market id) k ≡ count_of rs k)
      × ((m : Pubkey) (k : ℕ) → count_key (remove_order rs market id) m k ≤ count_key rs m k)
unfolding lookup_order remove_order count_all count_of count_key
remove_order-counts [] market id e = cc
remove_order-counts ((j, r) ∷ rs) market id {i} e = elim (Bool-cases (has_key r market id)) [
  | inl here ↦
      let same : r.sub_vault_id ≡ id = ground (arith, here) in
      (rw here refl, λ k. rw (here, same) refl, λ m k. rw here (omega arith))
  | inr other ↦
      let (all, each, keys) = remove_order-counts rs market id (rw (lookup_order, other) at e) in
      (
        rw other (ap suc all),
        λ k. rw other (omega (arith, each k)),
        λ m k. rw other (omega (arith, keys m k)),
      )
]
