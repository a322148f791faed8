-- ===== src/User/Progress.antt =====
-- When the operations on a user's account succeed: programs/ydelta/src/state/user_account.rs.
use mathlib.Core.Bool.{false≢true}
use y_delta.Prelude.{
  ℕ, ◌+◌, ◌-◌, ◌<◌, ◌≡◌, ◌≢◌, refl, true, false, Option, none, some, List, [], ◌∷◌, inl, inr,
  Option-cases, Result, ok, ok_or, map_ok, ◌>>=◌, arith, arithmetic_overflow, u16_mod, u32_mod,
}
use y_delta.Prelude.Words
use y_delta.Order.{DataIndex}
use y_delta.Seat.{new_empty}
use y_delta.Market.Book.{lookup_seat}
use y_delta.Nodes.{
  Keys, Slot, lookup_index, insert_in, insert_absent, remove_by_index, remove_present,
}
use y_delta.Nodes.Registry.{lookup_index-some, remove_by_index-counts}
use y_delta.Nodes.Slots.{IsKept}
use y_delta.User.Spec.{UserOp, run}
use y_delta.User.WellFormed.{IsWellFormed}
use y_delta.User.{
  UserAccount, user_account_block_size, vault_position_keys, market_position_keys, open_loan_keys,
  user_order_keys, empty_vault_position, empty_market_position, vaults_of, with_vaults, markets_of,
  with_markets, loans_of, with_loans, orders_of, with_orders, has_free_block, insert_user_order,
  remove_user_order, upsert_market_position, upsert_vault_position, remove_vault_position,
  insert_open_loan, remove_open_loan, user_account_expand, write_market_position_from_seat,
  sync_signer_market_position,
}

-- A free block, and a counter that can count one node more.
abbrev pub Spare : UserAccount → (count modulus : ℕ) → Type 0
Spare acc count modulus = (has_free_block acc ≡ true) × (count + 1 < modulus)

-- What an operation needs: one that adds a node a free block, one that removes a node nothing.
abbrev pub Room : UserOp → UserAccount → Type 0
Room (UserOp.order_rests o) acc = Spare acc acc.user_order_count u32_mod
Room (UserOp.order_ends market sequence) acc = Unit {0}
Room (UserOp.market_opens market i) acc = Spare acc acc.market_position_count u16_mod
Room (UserOp.vault_opens vault id) acc = Spare acc acc.vault_position_count u16_mod
Room (UserOp.vault_closes vault id) acc = Unit {0}
Room (UserOp.loan_opens l) acc = Spare acc acc.open_loan_count u32_mod
Room (UserOp.loan_closes loan) acc = Unit {0}
Room (UserOp.seat_moves b market signer) acc = Spare acc acc.market_position_count u16_mod
Room UserOp.grows acc = acc.num_bytes_allocated + user_account_block_size < u32_mod

module _ {K A : Type 0} (keys : Keys K A) where
  insert_in-succeeds :
      (modulus : ℕ) (a : A) (s : Slot A) (free : List DataIndex)
      → free ≢ []
      → s.count + 1 < modulus
      → (q : Slot A × DataIndex) × (insert_in keys modulus a s free ≡ ok q)
  insert_in-succeeds modulus a s [] some_free lt = absurd (some_free refl)
  insert_in-succeeds modulus a s (i ∷ rest) some_free lt =
      let counted : ok_or (Words.checked_add modulus s.count 1) arithmetic_overflow
          ≡ ok (s.count + 1) =
        ground arith in
      (
        (record { tree = (i, a) ∷ s.tree; free_list = rest; count = s.count + 1 }, i),
        rw (insert_in, counted) refl,
      )

  insert_absent-succeeds :
      (modulus : ℕ) (a : A) (s : Slot A)
      → s.free_list ≢ []
      → s.count + 1 < modulus
      → (q : Slot A × DataIndex) × (insert_absent keys modulus a s ≡ ok q)
  unfolding insert_absent
  insert_absent-succeeds modulus a s some_free lt =
      elim (Option-cases (lookup_index keys (keys.key a) s.tree)) [
        | inr (i, found) ↦ ((s, i), rw (insert_absent, found) refl)
        | inl missing ↦
            let (q, q_eq) = insert_in-succeeds modulus a s s.free_list some_free lt in
            (q, rw (insert_absent, missing) q_eq)
      ]

  remove_present-succeeds :
      (k : K) (s : Slot A)
      → IsKept keys s.tree s.count
      → (q : Slot A × Option DataIndex) × (remove_present keys k s ≡ ok q)
  unfolding remove_present
  remove_present-succeeds k s kept = elim (Option-cases (lookup_index keys k s.tree)) [
    | inl missing ↦ ((s, none), rw (remove_present, missing) refl)
    | inr (i, found) ↦
        let (_, block, _) = lookup_index-some keys k s.tree found in
        let (shorter, _) = remove_by_index-counts keys i s.tree block in
        let counted : ok_or (Words.checked_sub s.count 1) arithmetic_overflow ≡ ok (s.count - 1) =
          ground (arith, kept.counted, shorter) in
        (
          (
            record {
              tree = remove_by_index keys i s.tree;
              free_list = i ∷ s.free_list;
              count = s.count - 1;
            },
            some i,
          ),
          rw (remove_present, found, counted) refl,
        )
  ]

-- The operation of an account, from that on a slot.
put_back :
    {S I : Type 0} (call : Result (S × I)) (put : S → UserAccount)
    → ((p : S × I) × (call ≡ ok p))
    → (acc' : UserAccount) × (map_ok
          (λ (q : UserAccount × I). q.0)
          (call >>= λ p. ok (put p.0, p.1))
        ≡ ok acc')
put_back call put (p, p_eq) = (put p.0, rw p_eq refl)

nonempty : (acc : UserAccount) → has_free_block acc ≡ true → acc.free_list ≢ []
nonempty acc free none_left = let full : false ≡ true = rw none_left at free in false≢true full

-- On an account that is in order an operation succeeds when there is room for what it adds, which is a
-- free block and a counter below its limit. One that removes a node always succeeds.
pub run-succeeds :
    (op : UserOp) (acc : UserAccount)
    → IsWellFormed acc
    → Room op acc
    → (acc' : UserAccount) × (run op acc ≡ ok acc')
unfolding run insert_user_order remove_user_order upsert_market_position upsert_vault_position
    remove_vault_position insert_open_loan remove_open_loan sync_signer_market_position
    user_account_expand
run-succeeds (UserOp.order_rests o) acc wf (free, lt) =
    put_back (insert_absent user_order_keys u32_mod o (orders_of acc)) (with_orders acc)
      (insert_absent-succeeds user_order_keys u32_mod o (orders_of acc) (nonempty acc free) lt)
run-succeeds (UserOp.order_ends market sequence) acc wf _ =
    put_back (remove_present user_order_keys (market, sequence) (orders_of acc)) (with_orders acc)
      (remove_present-succeeds user_order_keys (market, sequence) (orders_of acc) wf.orders)
run-succeeds (UserOp.market_opens market i) acc wf (free, lt) =
    put_back
      (insert_absent market_position_keys u16_mod (empty_market_position market i) (markets_of acc))
      (with_markets acc)
      (insert_absent-succeeds market_position_keys u16_mod (empty_market_position market i)
        (markets_of acc) (nonempty acc free) lt)
run-succeeds (UserOp.vault_opens vault id) acc wf (free, lt) =
    put_back
      (insert_absent vault_position_keys u16_mod (empty_vault_position vault id) (vaults_of acc))
      (with_vaults acc)
      (insert_absent-succeeds vault_position_keys u16_mod (empty_vault_position vault id)
        (vaults_of acc) (nonempty acc free) lt)
run-succeeds (UserOp.vault_closes vault id) acc wf _ =
    put_back (remove_present vault_position_keys (vault, id) (vaults_of acc)) (with_vaults acc)
      (remove_present-succeeds vault_position_keys (vault, id) (vaults_of acc) wf.vaults)
run-succeeds (UserOp.loan_opens l) acc wf (free, lt) =
    put_back (insert_absent open_loan_keys u32_mod l (loans_of acc)) (with_loans acc)
      (insert_absent-succeeds open_loan_keys u32_mod l (loans_of acc) (nonempty acc free) lt)
run-succeeds (UserOp.loan_closes loan) acc wf _ =
    put_back (remove_present open_loan_keys loan (loans_of acc)) (with_loans acc)
      (remove_present-succeeds open_loan_keys loan (loans_of acc) wf.loans)
run-succeeds (UserOp.seat_moves b market signer) acc wf (free, lt) =
    elim (Option-cases (lookup_seat b.market.seats (new_empty signer 0 0) b.claimed_seats)) [
      | inl absent ↦ (acc, rw (sync_signer_market_position, absent) refl)
      | inr (i, found) ↦
          let (p, p_eq) =
            insert_absent-succeeds market_position_keys u16_mod (empty_market_position market i)
              (markets_of acc) (nonempty acc free) lt in
          (
            write_market_position_from_seat (with_markets acc p.0) p.1 (b.market.seats i),
            rw (sync_signer_market_position, found, upsert_market_position, p_eq) refl,
          )
    ]
run-succeeds UserOp.grows acc wf lt =
    let counted : ok_or (Words.checked_add u32_mod acc.num_bytes_allocated user_account_block_size)
          arithmetic_overflow
        ≡ ok (acc.num_bytes_allocated + user_account_block_size) =
      ground arith in
    (
      record acc {
        free_list = acc.num_bytes_allocated ∷ acc.free_list;
        num_bytes_allocated = acc.num_bytes_allocated + user_account_block_size;
      },
      rw (user_account_expand, counted) refl,
    )
