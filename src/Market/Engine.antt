-- ===== src/Market/Engine.antt =====
-- One fill of the matching engine: the body of the loop of `match_order` in
-- programs/ydelta/src/state/market_helpers.rs. The logs are left out. The vault account is the map of
-- its sub-vaults by their id.
use y_delta.Prelude.{
  ℕ, ◌+◌, ◌-◌, min, max, false, not, ◌&&◌, Option, none, some, ◌∷◌, [], Result, ok, err, custom,
  arithmetic_overflow, account_data_too_small, invalid_argument, incorrect_account, require, ok_or,
  ◌>>=◌, ◌>>◌, ◌==◌, ltb, if◌then◌else◌, u16_mod, u32_mod, u64_mod,
}
use y_delta.Prelude.Words
use y_delta.Prelude.Int.{ℤ}
use y_delta.Math.Uint256.{Uint256}
use y_delta.Math.Scale.{mul_div_u64}
use y_delta.Math.Fp48.{Fp48}
use y_delta.Loan.{Pubkey, bps_per_unit}
use y_delta.Order.{DataIndex, RestingOrder, Side, OrderType, is_expired, assert_can_take}
use y_delta.Seat.{owner_kind_sub_vault}
use y_delta.SubVault.{SubVault}
use y_delta.Ltv.{required_collateral_at_ltv_cap, effective_origination_cap_bps}
use y_delta.Market.{MatchedLoan, Market, matched_loan_flag_vault_lender}

abbrev pub marginfi_rounding_reserve_atoms : ℕ
marginfi_rounding_reserve_atoms = 1

pub record MatchArgs : Type 0 where
  pub market_pubkey : Pubkey
  pub taker_seat_index : DataIndex
  pub side : Side
  pub rate_bps : ℕ
  pub term_seconds : ℕ
  pub principal_atoms : ℕ
  pub collateral_atoms : ℕ
  pub order_type : OrderType
  pub now_unix_ts : ℤ
  pub fee_floor_bps : ℕ
  pub taker_share_price_snapshot_fp48 : Fp48
  pub debt_oracle_price_fp48 : Fp48
  pub collateral_oracle_price_fp48 : Fp48
  pub ask_floor_rate_bps : ℕ
  pub ltv_buffer_bps : ℕ

abbrev pub SubVaults : Type 0
SubVaults = ℕ → Option SubVault

-- The market, the vault account if there is one, and the variables of the loop.
pub record MatchState : Type 0 where
  pub market : Market
  pub vault : Option SubVaults
  pub remaining_principal : ℕ
  pub remaining_collateral : ℕ
  pub total_filled : ℕ
  pub num_fills : ℕ

-- What a fill may take, and on which terms: `sub_vault_idle` and the variables beside it, which are
-- zero for a sub-vault that is missing or sunset.
pub record Offer : Type 0 where
  pub idle : ℕ
  pub max_ltv_bps : ℕ
  pub liquidation_ltv_bps : ℕ
  pub max_term_seconds : ℕ
  pub curator_fee_bps : ℕ
  pub curator : Pubkey

abbrev pub no_offer : Offer
no_offer = record {
  idle = 0;
  max_ltv_bps = 0;
  liquidation_ltv_bps = 0;
  max_term_seconds = 0;
  curator_fee_bps = 0;
  curator = 0;
}

unfoldable pub offer_of : Option SubVault → Offer
offer_of none = no_offer
offer_of (some v) = if not (v.is_sunset == 0) then no_offer else record {
  idle =
      Words.saturating_sub
        (Words.saturating_sub
          (Words.saturating_sub v.total_principal_atoms v.deployed_principal_atoms)
          v.encumbered_in_orders_atoms)
        marginfi_rounding_reserve_atoms;
  max_ltv_bps = v.max_ltv_bps;
  liquidation_ltv_bps = v.liquidation_ltv_bps;
  max_term_seconds = v.max_term_seconds;
  curator_fee_bps = v.curator_fee_bps;
  curator = v.curator;
}

-- A fill that has passed every gate.
pub record Fill : Type 0 where
  pub principal : ℕ
  pub collateral : ℕ
  pub cap_bps : ℕ
  pub offer : Offer

-- `continue` to the next maker, `break`, or a fill.
pub data Verdict : Type 0 where
  skip stop : Verdict
  take : Fill → Verdict

-- The two updates of a counter or a sub-vault in its map.
abbrev pub set_at {ℓ} : {A : Type ℓ} → (ℕ → A) → ℕ → A → ℕ → A
set_at f k a i = if i == k then a else f i

-- The reservation of a fill on its sub-vault.
unfoldable pub reserve : SubVault → ℕ → Result SubVault
reserve v principal = do
  encumbered ←
      ok_or (Words.checked_add u64_mod v.encumbered_in_orders_atoms principal) arithmetic_overflow
  loans ← ok_or (Words.checked_add u32_mod v.open_loans_count 1) arithmetic_overflow
  ok (record v { encumbered_in_orders_atoms = encumbered; open_loans_count = loans })

-- `if let Some(vault_ai_ref) = vault_ai`, `if idx != NIL`
unfoldable pub reserve_in : Option SubVaults → ℕ → ℕ → Result (Option SubVaults)
reserve_in none id principal = ok none
reserve_in (some vs) id principal = elim (vs id) [
  | none ↦ ok (some vs)
  | some v ↦ reserve v principal >>= λ v'. ok (some (set_at vs id (some v')))
]

-- `let borrower_rate`: the bid's rate, or the ask's with the protocol's floor on it.
unfoldable pub borrower_rate : (bid_rate ask_rate fee_floor : ℕ) → Result ℕ
borrower_rate bid_rate ask_rate fee_floor = do
  require (ltb (ask_rate + fee_floor) u16_mod) (custom invalid_argument)
  ok (max bid_rate (ask_rate + fee_floor))

-- The node takes a block off the free list, and the next sequence number is counted.
unfoldable pub insert_loan : Market → MatchedLoan → Result Market
insert_loan m node = elim m.free_list [
  | [] ↦ err account_data_too_small
  | block ∷ rest ↦ do
    next ← ok_or (Words.checked_add u64_mod m.matched_loan_sequence 1) arithmetic_overflow
    ok (record m {
      free_list = rest;
      matched_loans = node ∷ m.matched_loans;
      matched_loan_sequence = next;
    })
]

-- `open_borrow_count` of the borrower's seat, then `open_lend_count` of the lender's.
unfoldable pub count_loan : Market → (borrower lender : DataIndex) → Result Market
count_loan m borrower lender = do
  borrows ←
      ok_or (Words.checked_add u32_mod (m.seats borrower).open_borrow_count 1) arithmetic_overflow
  let seats = set_at m.seats borrower (record (m.seats borrower) { open_borrow_count = borrows })
  lends ← ok_or (Words.checked_add u32_mod (seats lender).open_lend_count 1) arithmetic_overflow
  ok (record m { seats = set_at seats lender (record (seats lender) { open_lend_count = lends }) })

-- The loop variables after a fill. `checked_sub(..).unwrap_or(0)` is the subtraction of ℕ.
unfoldable pub count_fill : MatchState → Fill → Result MatchState
count_fill s f = do
  remaining ← ok_or (Words.checked_sub s.remaining_principal f.principal) arithmetic_overflow
  filled ← ok_or (Words.checked_add u64_mod s.total_filled f.principal) arithmetic_overflow
  ok (record s {
    remaining_principal = remaining;
    remaining_collateral = s.remaining_collateral - f.collateral;
    total_filled = filled;
    num_fills = min (s.num_fills + 1) (u32_mod - 1);
  })

module _ ⦃w : Uint256⦄ where
  -- `let matched_collateral_taker`: the rest for the last fill, a pro rata part otherwise.
  unfoldable pub matched_collateral : MatchArgs → MatchState → ℕ → Result ℕ
  matched_collateral args s principal =
      if principal == s.remaining_principal
      then ok s.remaining_collateral
      else mul_div_u64 principal args.collateral_atoms args.principal_atoms false

  -- The gate on collateral.
  unfoldable pub check_collateral : MatchArgs → MatchState → Offer → Result Verdict
  check_collateral args s o = do
    let principal = min s.remaining_principal o.idle
    coll ← matched_collateral args s principal
    let cap = effective_origination_cap_bps o.max_ltv_bps args.ltv_buffer_bps
    required ←
        required_collateral_at_ltv_cap principal args.debt_oracle_price_fp48
          args.collateral_oracle_price_fp48 cap s.market.debt_mint_decimals
          s.market.collateral_mint_decimals
    ok (
        if ltb coll required
        then skip
        else take (record { principal = principal; collateral = coll; cap_bps = cap; offer = o }))

  -- The gates on what the maker's sub-vault offers.
  unfoldable pub check_offer : MatchArgs → RestingOrder → MatchState → Offer → Result Verdict
  check_offer args maker s o =
      if o.idle == 0
      then ok skip
      else if ltb 0 o.max_term_seconds && ltb o.max_term_seconds maker.term_seconds
      then ok skip
      else if o.curator == (s.market.seats args.taker_seat_index).owner
      then ok skip
      else check_collateral args s o

  -- The gates up to the lender's seat, then those on its sub-vault.
  unfoldable pub check_lender : MatchArgs → RestingOrder → MatchState → Result Verdict
  check_lender args maker s = do
    assert_can_take args.order_type
    let lender = s.market.seats maker.trader_seat_index
    require (lender.owner_kind == owner_kind_sub_vault) (custom incorrect_account)
    elim s.vault [
      | none ↦ ok skip
      | some vs ↦ check_offer args maker s (offer_of (vs lender.sub_vault_id))
    ]

  -- The body of the loop up to the reservation.
  unfoldable pub screen : MatchArgs → RestingOrder → MatchState → Result Verdict
  screen args maker s =
      if is_expired maker args.now_unix_ts
      then ok skip
      else if ltb maker.rate_bps args.ask_floor_rate_bps
      then ok skip
      else if maker.trader_seat_index == args.taker_seat_index
      then ok skip
      else if ltb args.rate_bps maker.rate_bps
      then ok stop
      else if ltb maker.term_seconds args.term_seconds
      then ok skip
      else check_lender args maker s

  -- `let mut node`
  abbrev pub node_of :
      MatchArgs → RestingOrder → Market → Fill → (borrower_rate origination : ℕ) → MatchedLoan
  node_of args maker m f rate origination = record {
    sequence = m.matched_loan_sequence;
    borrower_marginfi_borrow_shares = 0;
    principal_atoms = f.principal;
    origination_atoms = origination;
    collateral_atoms = f.collateral;
    matched_at_unix = args.now_unix_ts;
    lender_seat_index = maker.trader_seat_index;
    borrower_seat_index = args.taker_seat_index;
    term_seconds = args.term_seconds;
    borrower_rate_bps = rate;
    lender_rate_bps = maker.rate_bps;
    loan_type = 0;
    flags = matched_loan_flag_vault_lender;
    curator_fee_bps_snapshot = f.offer.curator_fee_bps;
    origination_ltv_bps = f.cap_bps;
    liquidation_ltv_bps = f.offer.liquidation_ltv_bps;
    lender_debt_share_price_snapshot_fp48 = maker.share_price_snapshot;
    borrower_collateral_share_price_snapshot_fp48 = args.taker_share_price_snapshot_fp48;
  }

  -- The body of the loop from the reservation on.
  unfoldable pub fill : MatchArgs → RestingOrder → MatchState → Fill → Result MatchState
  fill args maker s f = do
    vault ← reserve_in s.vault (s.market.seats maker.trader_seat_index).sub_vault_id f.principal
    rate ← borrower_rate args.rate_bps maker.rate_bps args.fee_floor_bps
    origination ← mul_div_u64 f.principal s.market.fee_config.origination_bps bps_per_unit false
    m₁ ← insert_loan s.market (node_of args maker s.market f rate origination)
    m₂ ← count_loan m₁ args.taker_seat_index maker.trader_seat_index
    count_fill (record s { market = m₂; vault = vault }) f
