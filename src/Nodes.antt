-- ===== src/Nodes.antt =====
-- The trees of an account and the list of blocks that they share: what the functions of
-- programs/ydelta/src/state/user_account.rs do with each of the four trees of a user, and those of
-- vault.rs there with the depositor seats. A tree is the list of its blocks with what they hold; the
-- source looks a node up by its key and removes it by its block.
pub mod Registry
pub mod Slots
use y_delta.Prelude.{
  ℕ, ◌≡◌, ◌&&◌, arith, Bool, true, Option, none, some, List, [], ◌∷◌, Result, ok, err, ok_or, ◌>>=◌,
  ◌==◌, if◌then◌else◌, arithmetic_overflow, account_data_too_small,
}
use y_delta.Prelude.Words
use y_delta.Order.{DataIndex}

-- `impl PartialEq`: two nodes are equal when their keys are the same.
pub record Keys (K A : Type 0) : Type 0 where
  pub key : A → K
  pub same : K → K → Bool
  pub same-eq : (a b : K) → same a b ≡ true → a ≡ b
  pub same_self : (a : K) → same a a ≡ true

-- A key of two words.
abbrev pub same_pair : ℕ × ℕ → ℕ × ℕ → Bool
same_pair (a, b) (c, d) = a == c && b == d

pub same_pair-eq : (p q : ℕ × ℕ) → same_pair p q ≡ true → p ≡ q
same_pair-eq (a, b) (c, d) e =
    let both : (a ≡ c) × (b ≡ d) = ground arith in λ i. (both.0 i, both.1 i)

pub same_pair_self : (p : ℕ × ℕ) → same_pair p p ≡ true
same_pair_self (a, b) = ground arith

pub eq_self : (n : ℕ) → (n == n) ≡ true
eq_self n = ground arith

abbrev pub Nodes : Type 0 → Type 0
Nodes A = List (DataIndex × A)

-- A tree, the counter of its nodes and the list of free blocks.
pub record Slot (A : Type 0) : Type 0 where
  pub tree : Nodes A
  pub free_list : List DataIndex
  pub count : ℕ

module _ {K A : Type 0} (keys : Keys K A) where
  unfoldable pub lookup_index : K → Nodes A → Option DataIndex
  lookup_index k [] = none
  lookup_index k ((i, a) ∷ t) = if keys.same (keys.key a) k then some i else lookup_index k t

  -- A new node takes the first free block and is counted in a word below the modulus.
  abbrev pub insert_in : (modulus : ℕ) → A → Slot A → List DataIndex → Result (Slot A × DataIndex)
  insert_in modulus a s [] = err account_data_too_small
  insert_in modulus a s (i ∷ rest) = do
    count ← ok_or (Words.checked_add modulus s.count 1) arithmetic_overflow
    ok (record { tree = (i, a) ∷ s.tree; free_list = rest; count = count }, i)

  unfoldable pub insert_absent : (modulus : ℕ) → A → Slot A → Result (Slot A × DataIndex)
  insert_absent modulus a s = elim (lookup_index (keys.key a) s.tree) [
    | some i ↦ ok (s, i)
    | none ↦ insert_in modulus a s s.free_list
  ]

  unfoldable pub remove_by_index : DataIndex → Nodes A → Nodes A
  remove_by_index i [] = []
  remove_by_index i ((j, a) ∷ t) = if j == i then t else (j, a) ∷ remove_by_index i t

  -- The block that becomes free, if there was a node.
  unfoldable pub remove_present : K → Slot A → Result (Slot A × Option DataIndex)
  remove_present k s = elim (lookup_index k s.tree) [
    | none ↦ ok (s, none)
    | some i ↦ do
      count ← ok_or (Words.checked_sub s.count 1) arithmetic_overflow
      ok (
        record { tree = remove_by_index i s.tree; free_list = i ∷ s.free_list; count = count },
        some i,
      )
  ]

-- A write to the node in a block.
unfoldable pub update_at : {A : Type 0} → DataIndex → (A → A) → Nodes A → Nodes A
update_at i f [] = []
update_at i f ((j, a) ∷ t) = if j == i then (j, f a) ∷ t else (j, a) ∷ update_at i f t
