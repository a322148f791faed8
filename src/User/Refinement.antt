-- ===== src/User/Refinement.antt =====
-- The operations on a user's account, programs/ydelta/src/state/user_account.rs, keep it in order and do
-- what the maps say.
use y_delta.Prelude.{
  ℕ, ◌+◌, ◌%◌, ◌≤◌, ◌≡◌, refl, sym, ap, ◌∙◌, subst, Bool, true, false, inl, inr, Option-cases,
  Result, ok, err, ok-injective, >>=-eq-ok, ok_or, ◌>>=◌, ◌==◌, if◌then◌else◌, arith,
  arithmetic_overflow, u16_mod, u32_mod, map_ok,
}
use mathlib.Core.Path.{fun_ext}
use mathlib.Core.Option.{map}
use y_delta.Prelude.Words
use y_delta.Loan.{Pubkey}
use y_delta.Order.{DataIndex}
use y_delta.Seat.{new_empty}
use y_delta.Market.Book.{Book, lookup_seat}
use y_delta.Nodes.{Slot, insert_absent, remove_present, update_at}
use y_delta.Nodes.Registry.{Registry, one_if, free_blocks, update_at-view, update_at-counts}
use y_delta.Nodes.Slots.{
  Becomes, insert_absent-Becomes, remove_present-Becomes, insert_absent-lookup_index,
}
use y_delta.User.Spec.{Registries, registries, UserOp, run, synced, spec}
use y_delta.User.WellFormed.{in_account, allocated, IsWellFormed}
use y_delta.User.{
  UserAccount, VaultPosition, MarketPosition, UserLoanRef, UserOrderRef, user_account_block_size,
  vault_position_keys, market_position_keys, open_loan_keys, user_order_keys, empty_vault_position,
  empty_market_position, sync_from_seat, vaults_of, with_vaults, markets_of, with_markets, loans_of,
  with_loans, orders_of, with_orders, insert_user_order, remove_user_order, upsert_market_position,
  upsert_vault_position, remove_vault_position, insert_open_loan, remove_open_loan,
  user_account_expand, write_market_position_from_seat, sync_signer_market_position,
}

abbrev Refines : Registries → UserAccount → Type 0
Refines r acc = IsWellFormed acc × (registries acc ≡ r)

one_if_le : (b : Bool) → one_if b ≤ 1
one_if_le true = omega arith
one_if_le false = omega arith

in_account_le : (acc : UserAccount) → IsWellFormed acc → (i : DataIndex) → in_account acc i ≤ 1
in_account_le acc wf i = omega (arith, wf.tight i, one_if_le (allocated acc.num_bytes_allocated i))

-- An operation on a slot that the account takes back.
slot-eq-ok :
    {S I : Type 0} (call : Result (S × I)) (put : S → UserAccount) {acc' : UserAccount}
    → map_ok (λ (q : UserAccount × I). q.0) (call >>= λ p. ok (put p.0, p.1)) ≡ ok acc'
    → (p : S × I) × (call ≡ ok p) × (put p.0 ≡ acc')
slot-eq-ok (ok p) put e = (p, refl, ok-injective e)
slot-eq-ok (err _) put e = cc

-- An account whose changed tree is one more map.
vaults-Refines :
    (acc : UserAccount) (r : Registry (ℕ × ℕ) VaultPosition) (s : Slot VaultPosition)
    → IsWellFormed acc
    → Becomes vault_position_keys (vaults_of acc) r s
    → Refines (record (registries acc) { vaults = r }) (with_vaults acc s)
vaults-Refines acc r s wf (kept, seen, blocks_eq) = (
  record {
    vaults = kept;
    markets = wf.markets;
    loans = wf.loans;
    orders = wf.orders;
    aligned = wf.aligned;
    tight = λ i. omega (arith, wf.tight i, blocks_eq i);
  },
  ap (λ m. record (registries acc) { vaults = m }) (fun_ext seen),
)

markets-Refines :
    (acc : UserAccount) (r : Registry Pubkey MarketPosition) (s : Slot MarketPosition)
    → IsWellFormed acc
    → Becomes market_position_keys (markets_of acc) r s
    → Refines (record (registries acc) { markets = r }) (with_markets acc s)
markets-Refines acc r s wf (kept, seen, blocks_eq) = (
  record {
    vaults = wf.vaults;
    markets = kept;
    loans = wf.loans;
    orders = wf.orders;
    aligned = wf.aligned;
    tight = λ i. omega (arith, wf.tight i, blocks_eq i);
  },
  ap (λ m. record (registries acc) { markets = m }) (fun_ext seen),
)

loans-Refines :
    (acc : UserAccount) (r : Registry Pubkey UserLoanRef) (s : Slot UserLoanRef)
    → IsWellFormed acc
    → Becomes open_loan_keys (loans_of acc) r s
    → Refines (record (registries acc) { loans = r }) (with_loans acc s)
loans-Refines acc r s wf (kept, seen, blocks_eq) = (
  record {
    vaults = wf.vaults;
    markets = wf.markets;
    loans = kept;
    orders = wf.orders;
    aligned = wf.aligned;
    tight = λ i. omega (arith, wf.tight i, blocks_eq i);
  },
  ap (λ m. record (registries acc) { loans = m }) (fun_ext seen),
)

orders-Refines :
    (acc : UserAccount) (r : Registry (ℕ × ℕ) UserOrderRef) (s : Slot UserOrderRef)
    → IsWellFormed acc
    → Becomes user_order_keys (orders_of acc) r s
    → Refines (record (registries acc) { orders = r }) (with_orders acc s)
orders-Refines acc r s wf (kept, seen, blocks_eq) = (
  record {
    vaults = wf.vaults;
    markets = wf.markets;
    loans = wf.loans;
    orders = kept;
    aligned = wf.aligned;
    tight = λ i. omega (arith, wf.tight i, blocks_eq i);
  },
  ap (λ m. record (registries acc) { orders = m }) (fun_ext seen),
)

allocated_grows :
    (n i : ℕ)
    → n % user_account_block_size ≡ 0
    → one_if (allocated (n + user_account_block_size) i) ≡ one_if (n == i) + one_if (allocated n i)
allocated_grows n i aligned = ground arith

-- The new block lies at the end, where no block was.
user_account_expand-Refines :
    (acc : UserAccount) {acc' : UserAccount}
    → IsWellFormed acc
    → user_account_expand acc ≡ ok acc'
    → Refines (registries acc) acc'
unfolding user_account_expand free_blocks
user_account_expand-Refines acc wf e =
    let (bytes, bytes_eq, e₁) =
      >>=-eq-ok
        (ok_or (Words.checked_add u32_mod acc.num_bytes_allocated user_account_block_size)
          arithmetic_overflow)
        _ e in
    let more : bytes ≡ acc.num_bytes_allocated + user_account_block_size =
      ground (arith, bytes_eq) in
    subst (Refines (registries acc)) (ok-injective e₁) (
      record {
        vaults = wf.vaults;
        markets = wf.markets;
        loans = wf.loans;
        orders = wf.orders;
        aligned = omega (arith, more, wf.aligned);
        tight = λ i.
            let grown =
              subst
                (λ n.
                  one_if (allocated n i)
                  ≡ one_if (acc.num_bytes_allocated == i)
                    + one_if (allocated acc.num_bytes_allocated i))
                (sym more) (allocated_grows acc.num_bytes_allocated i wf.aligned) in
            omega (arith, wf.tight i, grown);
      },
      refl,
    )

synced-Refines :
    (b : Book) (market : Pubkey) (i : DataIndex) (acc : UserAccount) {q : UserAccount × DataIndex}
    → IsWellFormed acc
    → upsert_market_position acc market i ≡ ok q
    → Refines
        (record (registries acc) { markets = synced b market i (registries acc).markets })
        (write_market_position_from_seat q.0 q.1 (b.market.seats i))
unfolding upsert_market_position write_market_position_from_seat
synced-Refines b market i acc {q} wf e =
    let new = empty_market_position market i in
    let (p, p_eq, e₁) =
      >>=-eq-ok (insert_absent market_position_keys u16_mod new (markets_of acc)) _ e in
    let becomes =
      insert_absent-Becomes market_position_keys u16_mod new (markets_of acc) wf.markets p_eq in
    let found = insert_absent-lookup_index market_position_keys u16_mod new (markets_of acc) p_eq in
    let write = sync_from_seat (b.market.seats i) in
    let (kept, seen, blocks_eq) = becomes in
    let (length_eq, each, hits_eq) =
      update_at-counts market_position_keys p.1 write (p.0).tree (λ _. refl) in
    subst
      (λ x.
        Refines (record (registries acc) { markets = synced b market i (registries acc).markets })
          (write_market_position_from_seat x.0 x.1 (b.market.seats i)))
      (ok-injective e₁)
      (markets-Refines acc (synced b market i (registries acc).markets)
        (record p.0 { tree = update_at p.1 write (p.0).tree }) wf
        (
          record {
            counted = omega (arith, kept.counted, length_eq);
            unique = λ k. omega (arith, kept.unique k, hits_eq k);
          },
          λ k.
              update_at-view market_position_keys market write (p.0).tree (λ _. refl)
                (λ j. omega (arith, blocks_eq j, in_account_le acc wf j)) found k
              ∙ (λ j. if market == k then map write (seen market j) else seen k j),
          λ j. omega (arith, blocks_eq j, each j),
        ))

seat_moves-Refines :
    (b : Book) (market signer : Pubkey) (acc : UserAccount) {acc' : UserAccount}
    → IsWellFormed acc
    → sync_signer_market_position b market acc signer ≡ ok acc'
    → Refines (spec (UserOp.seat_moves b market signer) (registries acc)) acc'
unfolding spec sync_signer_market_position
seat_moves-Refines b market signer acc wf e =
    elim (Option-cases (lookup_seat b.market.seats (new_empty signer 0 0) b.claimed_seats)) [
      | inl absent ↦
          let same = rw (sync_signer_market_position, absent) at e in
          rw (spec, absent) (subst (Refines (registries acc)) (ok-injective same) (wf, refl))
      | inr (i, found) ↦
          let moving = rw (sync_signer_market_position, found) at e in
          let (q, q_eq, e₁) = >>=-eq-ok (upsert_market_position acc market i) _ moving in
          rw (spec, found)
            (subst (Refines _) (ok-injective e₁) (synced-Refines b market i acc wf q_eq))
    ]

-- Whatever the program does to an account that is in order, the account is in order afterwards: its
-- counters count its nodes, no key is there twice, and every block of the account is in one tree or
-- free, once. The operation does to the four maps what their specification says.
pub run-registries :
    (op : UserOp) (acc : UserAccount) {acc' : UserAccount}
    → IsWellFormed acc
    → run op acc ≡ ok acc'
    → IsWellFormed acc' × (registries acc' ≡ spec op (registries acc))
unfolding run spec insert_user_order remove_user_order upsert_market_position upsert_vault_position
    remove_vault_position insert_open_loan remove_open_loan sync_signer_market_position
run-registries (UserOp.order_rests o) acc wf e =
    let (p, p_eq, same) =
      slot-eq-ok (insert_absent user_order_keys u32_mod o (orders_of acc)) (with_orders acc) e in
    subst (Refines _) same (
      orders-Refines acc _ p.0 wf
        (insert_absent-Becomes user_order_keys u32_mod o (orders_of acc) wf.orders p_eq))
run-registries (UserOp.order_ends market sequence) acc wf e =
    let (p, p_eq, same) =
      slot-eq-ok (remove_present user_order_keys (market, sequence) (orders_of acc))
        (with_orders acc) e in
    subst (Refines _) same (
      orders-Refines acc _ p.0 wf (
        remove_present-Becomes user_order_keys (market, sequence) (orders_of acc) wf.orders
          (λ j. omega (arith, in_account_le acc wf j)) p_eq))
run-registries (UserOp.market_opens market i) acc wf e =
    let (p, p_eq, same) =
      slot-eq-ok
        (insert_absent market_position_keys u16_mod (empty_market_position market i)
          (markets_of acc))
        (with_markets acc) e in
    subst (Refines _) same (
      markets-Refines acc _ p.0 wf (
        insert_absent-Becomes market_position_keys u16_mod (empty_market_position market i)
          (markets_of acc) wf.markets p_eq))
run-registries (UserOp.vault_opens vault id) acc wf e =
    let (p, p_eq, same) =
      slot-eq-ok
        (insert_absent vault_position_keys u16_mod (empty_vault_position vault id) (vaults_of acc))
        (with_vaults acc) e in
    subst (Refines _) same (
      vaults-Refines acc _ p.0 wf (
        insert_absent-Becomes vault_position_keys u16_mod (empty_vault_position vault id)
          (vaults_of acc) wf.vaults p_eq))
run-registries (UserOp.vault_closes vault id) acc wf e =
    let (p, p_eq, same) =
      slot-eq-ok (remove_present vault_position_keys (vault, id) (vaults_of acc)) (with_vaults acc)
        e in
    subst (Refines _) same (
      vaults-Refines acc _ p.0 wf (
        remove_present-Becomes vault_position_keys (vault, id) (vaults_of acc) wf.vaults
          (λ j. omega (arith, in_account_le acc wf j)) p_eq))
run-registries (UserOp.loan_opens l) acc wf e =
    let (p, p_eq, same) =
      slot-eq-ok (insert_absent open_loan_keys u32_mod l (loans_of acc)) (with_loans acc) e in
    subst (Refines _) same (
      loans-Refines acc _ p.0 wf
        (insert_absent-Becomes open_loan_keys u32_mod l (loans_of acc) wf.loans p_eq))
run-registries (UserOp.loan_closes loan) acc wf e =
    let (p, p_eq, same) =
      slot-eq-ok (remove_present open_loan_keys loan (loans_of acc)) (with_loans acc) e in
    subst (Refines _) same (
      loans-Refines acc _ p.0 wf (
        remove_present-Becomes open_loan_keys loan (loans_of acc) wf.loans
          (λ j. omega (arith, in_account_le acc wf j)) p_eq))
run-registries (UserOp.seat_moves b market signer) acc wf e =
    seat_moves-Refines b market signer acc wf e
run-registries UserOp.grows acc wf e = user_account_expand-Refines acc wf e
