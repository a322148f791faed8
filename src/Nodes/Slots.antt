-- ===== src/Nodes/Slots.antt =====
-- The insertion into and the removal from one tree of an account keep its books:
-- programs/ydelta/src/state/user_account.rs and vault.rs there.
use y_delta.Prelude.{
  account_data_too_small, ℕ, ◌+◌, ◌≤◌, ◌≡◌, refl, ap, subst, Option, none, some, List, ◌∷◌, inl,
  inr, Bool-cases, Option-cases, ok, err, ok-injective, >>=-eq-ok, ok_or, arith,
  arithmetic_overflow,
}
use y_delta.Prelude.Words
use y_delta.Prelude.Lists.{length, List-cases}
use y_delta.Order.{DataIndex}
use y_delta.Nodes.{Keys, Nodes, Slot, lookup_index, insert_in, insert_absent, remove_present}
use y_delta.Nodes.Registry.{
  Registry, one_if, blocks, free_blocks, view, hits, add, delete, lookup_index-none,
  lookup_index-some, remove_by_index-counts, remove_by_index-hits, remove_by_index-view,
}

module _ {K A : Type 0} (keys : Keys K A) where
  -- The counter is the number of nodes, and no two nodes have the same key.
  pub record IsKept (t : Nodes A) (count : ℕ) : Type 0 where
    pub counted : count ≡ length t
    pub unique : (k : K) → hits keys t k ≤ 1

-- The blocks that a slot has, in its tree and free.
abbrev pub held : {A : Type 0} → Slot A → DataIndex → ℕ
held s i = blocks s.tree i + free_blocks s.free_list i

checked_add-eq-ok :
    (modulus n : ℕ) {m : ℕ}
    → ok_or (Words.checked_add modulus n 1) arithmetic_overflow ≡ ok m
    → m ≡ n + 1
checked_add-eq-ok modulus n e = ground arith

checked_sub-eq-ok :
    (n : ℕ) {m : ℕ} → ok_or (Words.checked_sub n 1) arithmetic_overflow ≡ ok m → n ≡ m + 1
checked_sub-eq-ok n e = ground arith

module _ {K A : Type 0} (keys : Keys K A) where
  -- What a slot is after an operation that made the map into another.
  abbrev pub Becomes : Slot A → Registry K A → Slot A → Type 0
  Becomes s r s' =
      IsKept keys s'.tree s'.count
      × ((k : K) → view keys s'.tree k ≡ r k)
      × ((j : DataIndex) → held s' j ≡ held s j)

  placed-Becomes :
      (a : A) (s : Slot A) (i count : ℕ) (rest : List DataIndex)
      → IsKept keys s.tree s.count
      → lookup_index keys (keys.key a) s.tree ≡ none
      → s.free_list ≡ i ∷ rest
      → count ≡ s.count + 1
      → Becomes s
          (add keys (view keys s.tree) a)
          (record { tree = (i, a) ∷ s.tree; free_list = rest; count = count })
  unfolding view hits blocks free_blocks
  placed-Becomes a s i count rest kept missing free_eq count_eq =
      let (unseen, no_hit) = lookup_index-none keys (keys.key a) s.tree missing in
      (
        record {
          counted = omega (arith, kept.counted, count_eq);
          unique = λ k. elim (Bool-cases (keys.same (keys.key a) k)) [
            | inl mine ↦
                let key_eq = keys.same-eq (keys.key a) k mine in
                let none_there : hits keys s.tree k ≡ 0 =
                  subst (λ c. hits keys s.tree c ≡ 0) key_eq no_hit in
                omega (arith, ap one_if mine, none_there)
            | inr other ↦ omega (arith, ap one_if other, kept.unique k)
          ];
        },
        λ k. rw (add, unseen) refl,
        λ j. rw free_eq (omega arith),
      )

  -- An insertion keeps the books of a slot, adds the node to the map if its key is new, and neither loses
  -- a block nor uses one twice.
  pub insert_absent-Becomes :
      (modulus : ℕ) (a : A) (s : Slot A) {q : Slot A × DataIndex}
      → IsKept keys s.tree s.count
      → insert_absent keys modulus a s ≡ ok q
      → Becomes s (add keys (view keys s.tree) a) q.0
  unfolding insert_absent
  insert_absent-Becomes modulus a s {q} kept e =
      elim (Option-cases (lookup_index keys (keys.key a) s.tree)) [
        | inr (i, found) ↦
            let ((b, seen), _, _) = lookup_index-some keys (keys.key a) s.tree found in
            let there : Slot A × DataIndex = (s, i) in
            let same : ok there ≡ ok q = rw (insert_absent, found) at e in
            subst (λ p. Becomes s (add keys (view keys s.tree) a) p.0) (ok-injective same)
              (kept, λ k. rw (add, seen) refl, λ _. refl)
        | inl missing ↦
            let placing : insert_in keys modulus a s s.free_list ≡ ok q =
              rw (insert_absent, missing) at e in
            elim (List-cases s.free_list) [
              | inl full ↦
                  let failed : err account_data_too_small ≡ ok q = rw full at placing in absurd cc
              | inr (i, rest, free_eq) ↦
                  let step : insert_in keys modulus a s (i ∷ rest) ≡ ok q = rw free_eq at placing in
                  let (count, count_eq, e₁) =
                    >>=-eq-ok (ok_or (Words.checked_add modulus s.count 1) arithmetic_overflow) _
                      step in
                  subst (λ p. Becomes s (add keys (view keys s.tree) a) p.0) (ok-injective e₁)
                    (placed-Becomes a s i count rest kept missing free_eq
                      (checked_add-eq-ok modulus s.count count_eq))
            ]
      ]

  -- The block that an insertion returns is the one that the key is found in.
  pub insert_absent-lookup_index :
      (modulus : ℕ) (a : A) (s : Slot A) {q : Slot A × DataIndex}
      → insert_absent keys modulus a s ≡ ok q
      → lookup_index keys (keys.key a) (q.0).tree ≡ some q.1
  unfolding insert_absent lookup_index
  insert_absent-lookup_index modulus a s {q} e =
      elim (Option-cases (lookup_index keys (keys.key a) s.tree)) [
        | inr (i, found) ↦
            let there : Slot A × DataIndex = (s, i) in
            let same : ok there ≡ ok q = rw (insert_absent, found) at e in
            subst (λ p. lookup_index keys (keys.key a) (p.0).tree ≡ some p.1) (ok-injective same)
              found
        | inl missing ↦
            let placing : insert_in keys modulus a s s.free_list ≡ ok q =
              rw (insert_absent, missing) at e in
            elim (List-cases s.free_list) [
              | inl full ↦
                  let failed : err account_data_too_small ≡ ok q = rw full at placing in absurd cc
              | inr (i, rest, free_eq) ↦
                  let step : insert_in keys modulus a s (i ∷ rest) ≡ ok q = rw free_eq at placing in
                  let (count, _, e₁) =
                    >>=-eq-ok (ok_or (Words.checked_add modulus s.count 1) arithmetic_overflow) _
                      step in
                  subst (λ p. lookup_index keys (keys.key a) (p.0).tree ≡ some p.1)
                    (ok-injective e₁) (rw (keys.same_self (keys.key a)) refl)
            ]
      ]

  unchanged :
      (k k' : K) (t : Nodes A)
      → view keys t k ≡ none
      → view keys t k' ≡ delete keys (view keys t) k k'
  unchanged k k' t unseen = elim (Bool-cases (keys.same k k')) [
    | inl asked ↦
        rw (delete, asked) (subst (λ c. view keys t c ≡ none) (keys.same-eq k k' asked) unseen)
    | inr other ↦ rw (delete, other) refl
  ]

  -- A removal, when no block stands in the tree twice.
  pub remove_present-Becomes :
      (k : K) (s : Slot A) {q : Slot A × Option DataIndex}
      → IsKept keys s.tree s.count
      → ((j : DataIndex) → held s j ≤ 1)
      → remove_present keys k s ≡ ok q
      → Becomes s (delete keys (view keys s.tree) k) q.0
  unfolding remove_present free_blocks
  remove_present-Becomes k s {q} kept single e = elim (Option-cases (lookup_index keys k s.tree)) [
    | inl missing ↦
        let (unseen, _) = lookup_index-none keys k s.tree missing in
        let there : Slot A × Option DataIndex = (s, none) in
        let same : ok there ≡ ok q = rw (remove_present, missing) at e in
        subst (λ p. Becomes s (delete keys (view keys s.tree) k) p.0) (ok-injective same)
          (kept, λ k'. unchanged k k' s.tree unseen, λ _. refl)
    | inr (i, found) ↦
        let removing = rw (remove_present, found) at e in
        let (count, count_eq, e₁) =
          >>=-eq-ok (ok_or (Words.checked_sub s.count 1) arithmetic_overflow) _ removing in
        let (_, block, _) = lookup_index-some keys k s.tree found in
        let (shorter, each) = remove_by_index-counts keys i s.tree block in
        let fewer = checked_sub-eq-ok s.count count_eq in
        subst (λ p. Becomes s (delete keys (view keys s.tree) k) p.0) (ok-injective e₁)
          (
            record {
              counted = omega (arith, kept.counted, shorter, fewer);
              unique = λ c. omega (arith, kept.unique c, remove_by_index-hits keys i s.tree c);
            },
            λ k'.
                remove_by_index-view keys k s.tree (λ j. omega (arith, single j)) kept.unique found
                  k',
            λ j. omega (arith, each j),
          )
  ]
