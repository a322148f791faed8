-- ===== src/User.antt =====
-- The account of a user: programs/ydelta/src/state/user_account.rs. The header has what the four trees
-- and the free list hold in place of the indices where they start. The assertions on the counters,
-- which only debug builds run, are left out.
pub mod Spec
pub mod WellFormed
pub mod Refinement
pub mod History
pub mod Progress
mod Tests
use y_delta.Prelude.{
  ℕ, ◌+◌, ◌≡◌, Bool, true, false, ◌&&◌, not, Option, none, some, List, [], ◌∷◌, Result, ok, err,
  map_ok, ok_or, ◌>>=◌, ◌==◌, ==→≡, require, arith, invalid_account_data, arithmetic_overflow,
  u16_mod, u32_mod,
}
use y_delta.Prelude.Words
use y_delta.Prelude.Int.{ℤ, pos}
use y_delta.Loan.{Pubkey, account_layout_version}
use y_delta.Order.{DataIndex}
use y_delta.Seat.{ClaimedSeat, new_empty as empty_seat}
use y_delta.Market.Book.{Book, lookup_seat}
use y_delta.Nodes.{
  same_pair, same_pair-eq, same_pair_self, eq_self, Keys, Nodes, Slot, insert_absent,
  remove_present, update_at,
}

abbrev pub user_account_fixed_discriminant : ℕ
user_account_fixed_discriminant = 0x79_64_65_6C_74_61_55_53

abbrev pub user_account_block_size : ℕ
user_account_block_size = 160

pub record VaultPosition : Type 0 where
  pub vault : Pubkey
  pub sub_vault_id : ℕ
  pub shares : ℕ
  pub snapshot_supply_yield_index_scaled : ℕ
  pub snapshot_delta_yield_index_scaled : ℕ
  pub last_updated_unix : ℤ

pub record MarketPosition : Type 0 where
  pub market : Pubkey
  pub seat_index_in_market : DataIndex
  pub debt_withdrawable_shares : ℕ
  pub debt_encumbered_shares : ℕ
  pub collateral_withdrawable_shares : ℕ
  pub collateral_encumbered_shares : ℕ

pub data LoanRole : Type 0 where
  borrower lender : LoanRole

pub data CounterpartyKind : Type 0 where
  user_wallet global_vault : CounterpartyKind

pub record UserLoanRef : Type 0 where
  pub loan : Pubkey
  pub market : Pubkey
  pub principal_atoms : ℕ
  pub started_at_unix : ℤ
  pub matures_at_unix : ℤ
  pub rate_bps : ℕ
  pub role : ℕ
  pub counterparty_kind : ℕ
  pub counterparty_sub_vault_id : ℕ

pub record UserOrderRef : Type 0 where
  pub market : Pubkey
  pub order_sequence : ℕ
  pub principal_atoms : ℕ
  pub placed_at_unix : ℤ
  pub term_seconds : ℕ
  pub rate_bps : ℕ
  pub side : ℕ

pub record UserAccount : Type 0 where
  pub discriminator : ℕ
  pub owner : Pubkey
  pub vault_positions : Nodes VaultPosition
  pub market_positions : Nodes MarketPosition
  pub open_loans : Nodes UserLoanRef
  pub free_list : List DataIndex
  pub num_bytes_allocated : ℕ
  pub vault_position_count : ℕ
  pub market_position_count : ℕ
  pub open_loan_count : ℕ
  pub bump : ℕ
  pub version : ℕ
  pub open_orders : Nodes UserOrderRef
  pub user_order_count : ℕ

abbrev pub new_empty : Pubkey → ℕ → UserAccount
new_empty owner bump = record {
  discriminator = user_account_fixed_discriminant;
  owner = owner;
  vault_positions = [];
  market_positions = [];
  open_loans = [];
  free_list = [];
  num_bytes_allocated = 0;
  vault_position_count = 0;
  market_position_count = 0;
  open_loan_count = 0;
  bump = bump;
  version = account_layout_version;
  open_orders = [];
  user_order_count = 0;
}

abbrev pub has_free_block : UserAccount → Bool
has_free_block acc = elim acc.free_list [ [] ↦ false | i ∷ rest ↦ true ]

abbrev pub verify_discriminant : UserAccount → Result (Unit {0})
verify_discriminant acc =
    require (acc.discriminator == user_account_fixed_discriminant) invalid_account_data

abbrev pub verify_version : UserAccount → Result (Unit {0})
verify_version acc = require (acc.version == account_layout_version) invalid_account_data

abbrev pub vault_position_keys : Keys (ℕ × ℕ) VaultPosition
vault_position_keys = record {
  key = λ p. (p.vault, p.sub_vault_id);
  same = same_pair;
  same-eq = same_pair-eq;
  same_self = same_pair_self;
}

abbrev pub market_position_keys : Keys Pubkey MarketPosition
market_position_keys = record {
  key = λ p. p.market;
  same = ◌==◌;
  same-eq = ==→≡;
  same_self = eq_self;
}

abbrev pub open_loan_keys : Keys Pubkey UserLoanRef
open_loan_keys = record { key = λ l. l.loan; same = ◌==◌; same-eq = ==→≡; same_self = eq_self }

abbrev pub user_order_keys : Keys (ℕ × ℕ) UserOrderRef
user_order_keys = record {
  key = λ o. (o.market, o.order_sequence);
  same = same_pair;
  same-eq = same_pair-eq;
  same_self = same_pair_self;
}

-- The four trees, each with its counter.
abbrev pub vaults_of : UserAccount → Slot VaultPosition
vaults_of acc = record {
  tree = acc.vault_positions;
  free_list = acc.free_list;
  count = acc.vault_position_count;
}

abbrev pub with_vaults : UserAccount → Slot VaultPosition → UserAccount
with_vaults acc s = record acc {
  vault_positions = s.tree;
  free_list = s.free_list;
  vault_position_count = s.count;
}

abbrev pub markets_of : UserAccount → Slot MarketPosition
markets_of acc = record {
  tree = acc.market_positions;
  free_list = acc.free_list;
  count = acc.market_position_count;
}

abbrev pub with_markets : UserAccount → Slot MarketPosition → UserAccount
with_markets acc s = record acc {
  market_positions = s.tree;
  free_list = s.free_list;
  market_position_count = s.count;
}

abbrev pub loans_of : UserAccount → Slot UserLoanRef
loans_of acc = record {
  tree = acc.open_loans;
  free_list = acc.free_list;
  count = acc.open_loan_count;
}

abbrev pub with_loans : UserAccount → Slot UserLoanRef → UserAccount
with_loans acc s = record acc {
  open_loans = s.tree;
  free_list = s.free_list;
  open_loan_count = s.count;
}

abbrev pub orders_of : UserAccount → Slot UserOrderRef
orders_of acc = record {
  tree = acc.open_orders;
  free_list = acc.free_list;
  count = acc.user_order_count;
}

abbrev pub with_orders : UserAccount → Slot UserOrderRef → UserAccount
with_orders acc s = record acc {
  open_orders = s.tree;
  free_list = s.free_list;
  user_order_count = s.count;
}

-- `VaultPosition::new_empty`
abbrev pub empty_vault_position : Pubkey → ℕ → VaultPosition
empty_vault_position vault sub_vault_id = record {
  vault = vault;
  sub_vault_id = sub_vault_id;
  shares = 0;
  snapshot_supply_yield_index_scaled = 0;
  snapshot_delta_yield_index_scaled = 0;
  last_updated_unix = pos 0;
}

-- `MarketPosition::new_empty`
abbrev pub empty_market_position : Pubkey → DataIndex → MarketPosition
empty_market_position market seat_index = record {
  market = market;
  seat_index_in_market = seat_index;
  debt_withdrawable_shares = 0;
  debt_encumbered_shares = 0;
  collateral_withdrawable_shares = 0;
  collateral_encumbered_shares = 0;
}

abbrev pub sync_from_seat : ClaimedSeat → MarketPosition → MarketPosition
sync_from_seat seat p = record p {
  debt_withdrawable_shares = seat.debt_withdrawable_shares;
  debt_encumbered_shares = seat.debt_encumbered_shares;
  collateral_withdrawable_shares = seat.collateral_withdrawable_shares;
  collateral_encumbered_shares = seat.collateral_encumbered_shares;
}

abbrev pub role_u8 : LoanRole → ℕ
role_u8 borrower = 0
role_u8 lender = 1

abbrev pub counterparty_kind_u8 : CounterpartyKind → ℕ
counterparty_kind_u8 user_wallet = 0
counterparty_kind_u8 global_vault = 1

-- The order reference is given whole; the source builds it from the arguments.
unfoldable pub insert_user_order : UserAccount → UserOrderRef → Result (UserAccount × DataIndex)
insert_user_order acc o = do
  placed ← insert_absent user_order_keys u32_mod o (orders_of acc)
  ok (with_orders acc placed.0, placed.1)

unfoldable pub remove_user_order :
    UserAccount → Pubkey → ℕ → Result (UserAccount × Option DataIndex)
remove_user_order acc market sequence = do
  removed ← remove_present user_order_keys (market, sequence) (orders_of acc)
  ok (with_orders acc removed.0, removed.1)

unfoldable pub upsert_market_position :
    UserAccount → Pubkey → DataIndex → Result (UserAccount × DataIndex)
upsert_market_position acc market seat_index = do
  placed ←
      insert_absent market_position_keys u16_mod (empty_market_position market seat_index)
        (markets_of acc)
  ok (with_markets acc placed.0, placed.1)

unfoldable pub upsert_vault_position : UserAccount → Pubkey → ℕ → Result (UserAccount × DataIndex)
upsert_vault_position acc vault sub_vault_id = do
  placed ←
      insert_absent vault_position_keys u16_mod (empty_vault_position vault sub_vault_id)
        (vaults_of acc)
  ok (with_vaults acc placed.0, placed.1)

unfoldable pub remove_vault_position :
    UserAccount → Pubkey → ℕ → Result (UserAccount × Option DataIndex)
remove_vault_position acc vault sub_vault_id = do
  removed ← remove_present vault_position_keys (vault, sub_vault_id) (vaults_of acc)
  ok (with_vaults acc removed.0, removed.1)

-- `let new_ref` of a loan.
abbrev pub loan_ref_of :
    Pubkey
    → Pubkey
    → LoanRole
    → CounterpartyKind
    → (sub_vault_id principal rate : ℕ) → (started matures : ℤ) → UserLoanRef
loan_ref_of loan market role kind sub_vault_id principal rate started matures = record {
  loan = loan;
  market = market;
  principal_atoms = principal;
  started_at_unix = started;
  matures_at_unix = matures;
  rate_bps = rate;
  role = role_u8 role;
  counterparty_kind = counterparty_kind_u8 kind;
  counterparty_sub_vault_id = sub_vault_id;
}

-- The loan reference is given whole, as `loan_ref_of` builds it from the arguments.
unfoldable pub insert_open_loan : UserAccount → UserLoanRef → Result (UserAccount × DataIndex)
insert_open_loan acc l = do
  placed ← insert_absent open_loan_keys u32_mod l (loans_of acc)
  ok (with_loans acc placed.0, placed.1)

unfoldable pub remove_open_loan : UserAccount → Pubkey → Result (UserAccount × Option DataIndex)
remove_open_loan acc loan = do
  removed ← remove_present open_loan_keys loan (loans_of acc)
  ok (with_loans acc removed.0, removed.1)

-- A block more at the end of the account.
unfoldable pub user_account_expand : UserAccount → Result UserAccount
user_account_expand acc = do
  allocated ←
      ok_or (Words.checked_add u32_mod acc.num_bytes_allocated user_account_block_size)
        arithmetic_overflow
  ok (record acc {
    free_list = acc.num_bytes_allocated ∷ acc.free_list;
    num_bytes_allocated = allocated;
  })

unfoldable pub write_market_position_from_seat : UserAccount → DataIndex → ClaimedSeat → UserAccount
write_market_position_from_seat acc i seat = record acc {
  market_positions = update_at i (sync_from_seat seat) acc.market_positions;
}

-- `sync_signer_market_position` in programs/ydelta/src/program/processor/shared.rs, on the market that
-- has the key.
unfoldable pub sync_signer_market_position :
    Book → Pubkey → UserAccount → Pubkey → Result UserAccount
sync_signer_market_position b market acc signer =
    elim (lookup_seat b.market.seats (empty_seat signer 0 0) b.claimed_seats) [
      | none ↦ ok acc
      | some i ↦ do
        placed ← upsert_market_position acc market i
        ok (write_market_position_from_seat placed.0 placed.1 (b.market.seats i))
    ]
