-- ===== src/Nodes/Registry.antt =====
-- What a tree of programs/ydelta/src/state/user_account.rs or vault.rs stands for: a map from keys to
-- nodes. The map forgets the blocks and the order of the nodes.
use mathlib.Core.Bool.{false≢true}
use mathlib.Core.Option.{some-injective, none-ne-some}
use y_delta.Prelude.{
  ℕ, ◌+◌, ◌≤◌, ◌≡◌, refl, sym, ap, ◌∙◌, subst, Bool, true, false, Option, none, some, List, [], ◌∷◌,
  inl, inr, Bool-cases, ◌==◌, ==→≡, if◌then◌else◌, arith,
}
use y_delta.Prelude.Lists.{length}
use y_delta.Order.{DataIndex}
use mathlib.Core.Option.{map}
use y_delta.Nodes.{Keys, Nodes, lookup_index, remove_by_index, update_at}

abbrev pub Registry : Type 0 → Type 0 → Type 0
Registry K A = K → Option A

-- One for a test that holds.
abbrev pub one_if : Bool → ℕ
one_if true = 1
one_if false = 0

module _ {A : Type 0} where
  -- How often a block stands in a tree.
  unfoldable pub blocks : Nodes A → DataIndex → ℕ
  blocks [] i = 0
  blocks ((j, a) ∷ t) i = one_if (j == i) + blocks t i

-- How often a block stands in a list.
unfoldable pub free_blocks : List DataIndex → DataIndex → ℕ
free_blocks [] i = 0
free_blocks (j ∷ js) i = one_if (j == i) + free_blocks js i

module _ {K A : Type 0} (keys : Keys K A) where
  unfoldable pub view : Nodes A → Registry K A
  view [] k = none
  view ((i, a) ∷ t) k = if keys.same (keys.key a) k then some a else view t k

  -- How often a key stands in a tree.
  unfoldable pub hits : Nodes A → K → ℕ
  hits [] k = 0
  hits ((i, a) ∷ t) k = one_if (keys.same (keys.key a) k) + hits t k

  -- A node for a key that the map does not have, and no change for one that it has.
  abbrev pub add : Registry K A → A → Registry K A
  add r a k = elim (r (keys.key a)) [
    | some old ↦ r k
    | none ↦ if keys.same (keys.key a) k then some a else r k
  ]

  abbrev pub delete : Registry K A → K → Registry K A
  delete r k k' = if keys.same k k' then none else r k'

  -- The lookup of a block and the map agree on which keys there are.
  pub lookup_index-none :
      (k : K) (t : Nodes A) → lookup_index keys k t ≡ none → (view t k ≡ none) × (hits t k ≡ 0)
  unfolding lookup_index view hits
  lookup_index-none k [] e = (refl, refl)
  lookup_index-none k ((i, a) ∷ t) e = elim (Bool-cases (keys.same (keys.key a) k)) [
    | inl same ↦ absurd (none-ne-some i (sym (rw same at e)))
    | inr other ↦
        let (unseen, no_hit) = lookup_index-none k t (rw other at e) in
        (rw other unseen, omega (arith, ap one_if other, no_hit))
  ]

  pub lookup_index-some :
      (k : K) (t : Nodes A) {i : DataIndex}
      → lookup_index keys k t ≡ some i
      → ((a : A) × (view t k ≡ some a)) × (1 ≤ blocks t i) × (1 ≤ hits t k)
  unfolding lookup_index view hits blocks
  lookup_index-some k [] e = cc
  lookup_index-some k ((j, a) ∷ t) {i} e = elim (Bool-cases (keys.same (keys.key a) k)) [
    | inl same ↦
        let here : some j ≡ some i = rw same at e in
        let block : (j == i) ≡ true = ground (arith, some-injective here) in
        ((a, rw same refl), omega (arith, ap one_if block), omega (arith, ap one_if same))
    | inr other ↦
        let ((b, seen), block, hit) = lookup_index-some k t (rw other at e) in
        ((b, rw other seen), omega (arith, block), omega (arith, hit))
  ]

  -- Without the key there is no node to see.
  pub hits-zero : (t : Nodes A) (k : K) → hits t k ≡ 0 → view t k ≡ none
  unfolding hits view
  hits-zero [] k e = refl
  hits-zero ((i, a) ∷ t) k e = elim (Bool-cases (keys.same (keys.key a) k)) [
    | inl same ↦ absurd (omega (arith, ap one_if same, e))
    | inr other ↦ rw other (hits-zero t k (omega (arith, e)))
  ]

  -- A block that stands in the tree leaves it, and nothing else does.
  pub remove_by_index-counts :
      (i : DataIndex) (t : Nodes A)
      → 1 ≤ blocks t i
      → (length t ≡ 1 + length (remove_by_index keys i t))
        × ((j : DataIndex) → blocks t j ≡ one_if (i == j) + blocks (remove_by_index keys i t) j)
  unfolding blocks remove_by_index
  remove_by_index-counts i [] le = absurd (omega (arith, le))
  remove_by_index-counts i ((j, a) ∷ t) le = elim (Bool-cases (j == i)) [
    | inl here ↦
        let at_i = ==→≡ j i here in
        rw here (omega arith, λ k. ap (λ n. one_if (n == k) + blocks t k) at_i)
    | inr there ↦
        let (shorter, each) = remove_by_index-counts i t (omega (arith, le, ap one_if there)) in
        rw there (omega (arith, shorter), λ k. omega (arith, each k))
  ]

  pub remove_by_index-hits :
      (i : DataIndex) (t : Nodes A) (k : K) → hits (remove_by_index keys i t) k ≤ hits t k
  unfolding hits remove_by_index
  remove_by_index-hits i [] k = omega arith
  remove_by_index-hits i ((j, a) ∷ t) k = elim (Bool-cases (j == i)) [
    | inl here ↦ rw here (omega arith)
    | inr there ↦ let rest = remove_by_index-hits i t k in rw there (omega (arith, rest))
  ]

  same_sym : (a b : K) → keys.same a b ≡ true → keys.same b a ≡ true
  same_sym a b e = subst (λ c. keys.same c a ≡ true) (keys.same-eq a b e) (keys.same_self a)

  -- A node that has one key does not have another.
  apart_of :
      (k k' : K) (a : A)
      → keys.same (keys.key a) k ≡ false
      → keys.same (keys.key a) k' ≡ true
      → keys.same k k' ≡ false
  apart_of k k' a skipped mine = elim (Bool-cases (keys.same k k')) [
    | inl asked ↦
        let key_eq = keys.same-eq (keys.key a) k' mine ∙ keys.same-eq k' k (same_sym k k' asked) in
        let met : keys.same (keys.key a) k ≡ true =
          subst (λ c. keys.same (keys.key a) c ≡ true) key_eq (keys.same_self (keys.key a)) in
        absurd (false≢true (sym skipped ∙ met))
    | inr apart ↦ apart
  ]

  -- The removal of the block that a key was found in deletes the key from the map, when no key and no
  -- block stands in the tree twice.
  pub remove_by_index-view :
      (k : K) (t : Nodes A) {i : DataIndex}
      → ((j : DataIndex) → blocks t j ≤ 1)
      → ((k' : K) → hits t k' ≤ 1)
      → lookup_index keys k t ≡ some i
      → (k' : K) → view (remove_by_index keys i t) k' ≡ delete (view t) k k'
  unfolding lookup_index view hits blocks remove_by_index
  remove_by_index-view k [] single unique e k' = cc
  remove_by_index-view k ((j, a) ∷ t) {i} single unique e k' =
      elim (Bool-cases (keys.same (keys.key a) k)) [
        | inl same ↦
            let here : some j ≡ some i = rw same at e in
            let block : (j == i) ≡ true = ground (arith, some-injective here) in
            elim (Bool-cases (keys.same k k')) [
              | inl asked ↦
                  let key_eq = keys.same-eq k k' asked in
                  let gone = hits-zero t k (omega (arith, ap one_if same, unique k)) in
                  rw (block, asked) (subst (λ c. view t c ≡ none) key_eq gone)
              | inr other ↦
                  let key_eq = keys.same-eq (keys.key a) k same in
                  let apart : keys.same (keys.key a) k' ≡ false =
                    subst (λ c. keys.same c k' ≡ false) (sym key_eq) other in
                  rw (block, other, apart) refl
            ]
        | inr skipped ↦
            let e' : lookup_index keys k t ≡ some i = rw skipped at e in
            let (_, block, _) = lookup_index-some k t e' in
            let there : (j == i) ≡ false = elim (Bool-cases (j == i)) [
              | inl clash ↦ absurd (omega (arith, ap one_if clash, block, single i))
              | inr apart ↦ apart
            ] in
            let rest =
              remove_by_index-view k t (λ b. omega (arith, single b)) (λ c. omega (arith, unique c))
                e' k' in
            elim (Bool-cases (keys.same (keys.key a) k')) [
              | inl mine ↦ rw (there, mine, apart_of k k' a skipped mine) refl
              | inr other ↦ rw (there, other) rest
            ]
      ]

  -- A write that keeps the key changes what the map has for the key that the block was found by.
  pub update_at-view :
      (k : K) (f : A → A) (t : Nodes A) {i : DataIndex}
      → ((a : A) → keys.key (f a) ≡ keys.key a)
      → ((j : DataIndex) → blocks t j ≤ 1)
      → lookup_index keys k t ≡ some i
      → (k' : K)
      → view (update_at i f t) k' ≡ (if keys.same k k' then map f (view t k) else view t k')
  unfolding lookup_index view blocks update_at
  update_at-view k f [] keeps single e k' = cc
  update_at-view k f ((j, a) ∷ t) {i} keeps single e k' =
      elim (Bool-cases (keys.same (keys.key a) k)) [
        | inl same ↦
            let here : some j ≡ some i = rw same at e in
            let block : (j == i) ≡ true = ground (arith, some-injective here) in
            let key_eq = keys.same-eq (keys.key a) k same in
            let key_of : (c : K) → keys.same (keys.key a) c ≡ keys.same k c =
              λ c. ap (λ d. keys.same d c) key_eq in
            let kept : keys.same (keys.key (f a)) k' ≡ keys.same k k' =
              ap (λ d. keys.same d k') (keeps a ∙ key_eq) in
            elim (Bool-cases (keys.same k k')) [
              | inl asked ↦ rw (block, same, kept, asked) refl
              | inr other ↦ rw (block, same, kept, key_of k', other) refl
            ]
        | inr skipped ↦
            let e' : lookup_index keys k t ≡ some i = rw skipped at e in
            let (_, block, _) = lookup_index-some k t e' in
            let there : (j == i) ≡ false = elim (Bool-cases (j == i)) [
              | inl clash ↦ absurd (omega (arith, ap one_if clash, block, single i))
              | inr apart ↦ apart
            ] in
            let rest = update_at-view k f t keeps (λ b. omega (arith, single b)) e' k' in
            elim (Bool-cases (keys.same (keys.key a) k')) [
              | inl mine ↦ rw (there, mine, skipped, apart_of k k' a skipped mine) refl
              | inr other ↦ rw (there, other, skipped) rest
            ]
      ]

  pub update_at-counts :
      (i : DataIndex) (f : A → A) (t : Nodes A)
      → ((a : A) → keys.key (f a) ≡ keys.key a)
      → (length (update_at i f t) ≡ length t)
        × ((j : DataIndex) → blocks (update_at i f t) j ≡ blocks t j)
        × ((k : K) → hits (update_at i f t) k ≡ hits t k)
  unfolding blocks hits update_at
  update_at-counts i f [] keeps = (refl, λ _. refl, λ _. refl)
  update_at-counts i f ((j, a) ∷ t) keeps = elim (Bool-cases (j == i)) [
    | inl here ↦
        rw here (refl, λ _. refl, λ k. ap (λ c. one_if (keys.same c k) + hits t k) (keeps a))
    | inr there ↦
        let (same_length, each, key_each) = update_at-counts i f t keeps in
        rw there
          (omega (arith, same_length), λ b. omega (arith, each b), λ k. omega (arith, key_each k))
  ]
