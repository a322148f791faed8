-- ===== src/Vault/Agreement.antt =====
-- Placing and removing a vault's orders keeps its counters in agreement with its references:
-- programs/ydelta/src/state/vault.rs.
use y_delta.Prelude.{
  ℕ, suc, ◌+◌, ◌-◌, ◌≤◌, ◌≡◌, refl, sym, ap, subst, ◌∙◌, true, false, Option, none, some, List, [],
  ◌∷◌, inl, inr, Option-cases, Bool-cases, ok, err, ok_or, ok-injective, >>=-eq-ok, require-eq-ok,
  ◌>>=◌, ◌==◌, ==→≡, arith, u32_mod, arithmetic_overflow,
}
use y_delta.Prelude.Words
use y_delta.Prelude.Int.{pos, negsuc}
use y_delta.Loan.{Pubkey}
use y_delta.Order.{DataIndex}
use y_delta.SubVault.{SubVault}
use y_delta.Market.Engine.{set_at}
use y_delta.Vault.{
  SubVaultOrderRef, Vault, has_key, lookup_order, remove_order, bump, bump_sub_vault_order_count,
  is_nil, place, insert_sub_vault_order_ref, remove_sub_vault_order_ref,
}
use y_delta.Vault.Counts.{
  count_all, count_of, count_key, CountIs, IsCounted, lookup_order-none, remove_order-counts,
}

bump-down :
    (s : SubVault)
    → 1 ≤ s.open_orders_count
    → bump s (negsuc 0) ≡ ok (record s { open_orders_count = s.open_orders_count - 1 })
unfolding bump
bump-down s le = ground arith

bump-up :
    (s : SubVault) {s' : SubVault}
    → bump s (pos 1) ≡ ok s'
    → s'.open_orders_count ≡ suc s.open_orders_count
unfolding bump
bump-up s e = ground arith

abbrev removed : Vault → Pubkey → ℕ → DataIndex → SubVault → Vault
removed v market id i s = record v {
  sub_vaults =
      set_at v.sub_vaults id (some (record s { open_orders_count = s.open_orders_count - 1 }));
  market_orders = remove_order v.market_orders market id;
  open_order_count = v.open_order_count - 1;
  free_nodes = i ∷ v.free_nodes;
}

remove-eq :
    (v : Vault) (market : Pubkey) (id : ℕ) {i : DataIndex} {s : SubVault}
    → lookup_order v.market_orders market id ≡ some i
    → v.sub_vaults id ≡ some s
    → 1 ≤ v.open_order_count
    → 1 ≤ s.open_orders_count
    → remove_sub_vault_order_ref v market id ≡ ok (removed v market id i s, some i)
unfolding remove_sub_vault_order_ref bump_sub_vault_order_count
remove-eq v market id {i} {s} found opened le1 le2 =
    let enough : Words.checked_sub v.open_order_count 1 ≡ some (v.open_order_count - 1) =
      ground arith in
    rw
      (
        remove_sub_vault_order_ref,
        found,
        enough,
        bump_sub_vault_order_count,
        opened,
        bump-down s le2,
      )
      refl

removed-IsCounted :
    (v : Vault) (market : Pubkey) (id : ℕ) {i : DataIndex} {s : SubVault}
    → IsCounted v
    → lookup_order v.market_orders market id ≡ some i
    → v.sub_vaults id ≡ some s
    → IsCounted (removed v market id i s)
removed-IsCounted v market id {i} {s} c found opened =
    let (all, each, keys) = remove_order-counts v.market_orders market id found in
    record {
      all = omega (arith, all, c.all);
      each = λ k. elim (Bool-cases (k == id)) [
        | inl same ↦
            let k_eq = ==→≡ k id same in
            let was : s.open_orders_count ≡ count_of v.market_orders k =
              subst (λ o. CountIs o (count_of v.market_orders k)) (ap v.sub_vaults k_eq ∙ opened)
                (c.each k) in
            let sum = each k in
            let here : (id == k) ≡ true = ground arith in
            rw same (omega (arith, was, rw here at sum))
        | inr other ↦
            let sum = each k in
            let gone : (id == k) ≡ false = ground (arith, other) in
            let eq : count_of (remove_order v.market_orders market id) k
                ≡ count_of v.market_orders k =
              omega (arith, rw gone at sum) in
            rw other (subst (CountIs (v.sub_vaults k)) (sym eq) (c.each k))
      ];
      single = λ m k. omega (arith, keys m k, c.single m k);
    }

-- In a vault whose counters agree with its order references, the removal of an order never fails, and
-- the counters agree afterwards too.
pub remove_sub_vault_order_ref-IsCounted :
    (v : Vault) (market : Pubkey) (id : ℕ)
    → IsCounted v
    → (v' : Vault) × (o : Option DataIndex) × (remove_sub_vault_order_ref v market id ≡ ok (v', o))
      × IsCounted v'
unfolding remove_sub_vault_order_ref
remove_sub_vault_order_ref-IsCounted v market id c =
    elim (Option-cases (lookup_order v.market_orders market id)) [
      | inl missing ↦ (v, none, rw (remove_sub_vault_order_ref, missing) refl, c)
      | inr (i, found) ↦
          let (all, each, _) = remove_order-counts v.market_orders market id found in
          let itself : (id == id) ≡ true = ground arith in
          let one : 1 ≤ count_of v.market_orders id =
            let sum = each id in omega (arith, rw itself at sum) in
          elim (Option-cases (v.sub_vaults id)) [
            | inl gone ↦
                let zero_eq =
                  subst (λ o. CountIs o (count_of v.market_orders id)) gone (c.each id) in
                absurd (omega (arith, one, zero_eq))
            | inr (s, opened) ↦
                let was : s.open_orders_count ≡ count_of v.market_orders id =
                  subst (λ o. CountIs o (count_of v.market_orders id)) opened (c.each id) in
                (
                  removed v market id i s,
                  some i,
                  remove-eq v market id found opened (omega (arith, all, c.all))
                      (omega (arith, was, one)),
                  removed-IsCounted v market id c found opened,
                )
          ]
    ]

inserted-IsCounted :
    (v : Vault) (r : SubVaultOrderRef) (i : DataIndex) (rest : List DataIndex) (s s' : SubVault)
    → IsCounted v
    → lookup_order v.market_orders r.market r.sub_vault_id ≡ none
    → v.sub_vaults r.sub_vault_id ≡ some s
    → s'.open_orders_count ≡ suc s.open_orders_count
    → IsCounted (record v {
      sub_vaults = set_at v.sub_vaults r.sub_vault_id (some s');
      market_orders = (i, r) ∷ v.market_orders;
      open_order_count = v.open_order_count + 1;
      free_nodes = rest;
    })
unfolding count_all count_of count_key
inserted-IsCounted v r i rest s s' c missing opened up = record {
  all = omega (arith, c.all);
  each = λ k. elim (Bool-cases (k == r.sub_vault_id)) [
    | inl same ↦
        let k_eq = ==→≡ k r.sub_vault_id same in
        let was : s.open_orders_count ≡ count_of v.market_orders k =
          subst (λ o. CountIs o (count_of v.market_orders k)) (ap v.sub_vaults k_eq ∙ opened)
            (c.each k) in
        let here : (r.sub_vault_id == k) ≡ true = ground arith in
        rw (same, here) (omega (arith, was, up))
    | inr other ↦
        let gone : (r.sub_vault_id == k) ≡ false = ground (arith, other) in
        let same : count_of v.market_orders k ≡ 0 + count_of v.market_orders k = omega arith in
        rw (other, gone) (subst (CountIs (v.sub_vaults k)) same (c.each k))
  ];
  single = λ m k. elim (Bool-cases (has_key r m k)) [
    | inl here ↦
        let m_eq : r.market ≡ m = ground (arith, here) in
        let k_eq : r.sub_vault_id ≡ k = ground (arith, here) in
        let free = lookup_order-none v.market_orders m k (
          subst (λ k'. lookup_order v.market_orders m k' ≡ none) k_eq
            (subst (λ m'. lookup_order v.market_orders m' r.sub_vault_id ≡ none) m_eq missing)) in
        rw here (omega (arith, free))
    | inr other ↦ rw other (omega (arith, c.single m k))
  ];
}

bump_sub_vault_order_count-ok :
    (v : Vault) (id : ℕ) (v' : Vault)
    → bump_sub_vault_order_count v id (pos 1) ≡ ok v'
    → (s : SubVault) × (s' : SubVault) × (v.sub_vaults id ≡ some s)
      × (s'.open_orders_count ≡ suc s.open_orders_count)
      × (record v { sub_vaults = set_at v.sub_vaults id (some s') } ≡ v')
unfolding bump_sub_vault_order_count
bump_sub_vault_order_count-ok v id v' e = elim (Option-cases (v.sub_vaults id)) [
  | inl gone ↦ let e1 : err _ ≡ ok v' = rw (bump_sub_vault_order_count, gone) at e in cc
  | inr (s, opened) ↦
      let e1 : (bump s (pos 1) >>= λ s'.
      ok (record v { sub_vaults = set_at v.sub_vaults id (some s') }))
          ≡ ok v' =
        rw (bump_sub_vault_order_count, opened) at e in
      let (s', bumped, e2) = >>=-eq-ok (bump s (pos 1)) _ e1 in
      (s, s', opened, bump-up s bumped, ok-injective e2)
]

is_nil-none : (o : Option DataIndex) → is_nil o ≡ true → o ≡ none
is_nil-none none e = refl
is_nil-none (some i) e = cc

-- In a vault whose counters agree with its order references, the counters agree after an order is
-- placed, and its sub-vault still has one order in a market at most.
pub insert_sub_vault_order_ref-IsCounted :
    (v : Vault) (r : SubVaultOrderRef) {v' : Vault} {i : DataIndex}
    → IsCounted v
    → insert_sub_vault_order_ref v r ≡ ok (v', i)
    → IsCounted v'
unfolding insert_sub_vault_order_ref
insert_sub_vault_order_ref-IsCounted v r {v'} {i} c e =
    let (nil, e1) =
      require-eq-ok (is_nil (lookup_order v.market_orders r.market r.sub_vault_id)) _ e in
    go v.free_nodes (is_nil-none _ nil) e1
  where
    go :
        (nodes : List DataIndex)
        → lookup_order v.market_orders r.market r.sub_vault_id ≡ none
        → place v r nodes ≡ ok (v', i)
        → IsCounted v'
    go [] missing e = cc
    go (j ∷ rest) missing e =
        let (count, counted, e1) =
          >>=-eq-ok (ok_or (Words.checked_add u32_mod v.open_order_count 1) arithmetic_overflow) _
            e in
        let (w, bumped, e2) =
          >>=-eq-ok (bump_sub_vault_order_count _ r.sub_vault_id (pos 1)) _ e1 in
        let (s, s', opened, up, w_eq) = bump_sub_vault_order_count-ok _ r.sub_vault_id w bumped in
        let count_eq : v.open_order_count + 1 ≡ count = ground (arith, counted) in
        subst IsCounted
          (ap
              (λ n. record v {
                sub_vaults = set_at v.sub_vaults r.sub_vault_id (some s');
                market_orders = (j, r) ∷ v.market_orders;
                open_order_count = n;
                free_nodes = rest;
              })
              count_eq
            ∙ w_eq
            ∙ ap (λ x. x.0) (ok-injective e2))
          (inserted-IsCounted v r j rest s s' c missing opened up)
