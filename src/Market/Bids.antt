-- ===== src/Market/Bids.antt =====
-- The walk of the resting bids that a sub-vault's ask takes: `match_resting_bids` in
-- programs/ydelta/src/state/market_helpers.rs. The bids are the list of the tree, best first; a bid
-- that is used up or has expired leaves it and its block becomes free.
use y_delta.Prelude.{
  ℕ, ◌+◌, ◌-◌, min, true, false, none, some, [], ◌∷◌, Result, ok, arithmetic_overflow, ok_or, ◌>>=◌,
  ◌==◌, ltb, if◌then◌else◌, u32_mod, u64_mod,
}
use y_delta.Prelude.Words
use y_delta.Prelude.Int.{ℤ}
use y_delta.Math.Uint256.{Uint256}
use y_delta.Math.Scale.{mul_div_u64}
use y_delta.Math.Fp48.{Fp48}
use y_delta.Loan.{Pubkey, bps_per_unit}
use y_delta.Order.{DataIndex, RestingOrder, bid, is_expired, reduce}
use y_delta.Ltv.{required_collateral_at_ltv_cap, effective_origination_cap_bps}
use y_delta.Market.{Market, MatchedLoan, matched_loan_flag_vault_lender}
use y_delta.Market.Engine.{
  SubVaults, set_at, offer_of, reserve, borrower_rate, insert_loan, count_loan,
}
use y_delta.Market.Book.{Orders, free_block, release_order}

pub record MatchRestingBidsArgs : Type 0 where
  pub market_pubkey : Pubkey
  pub ask_seat_index : DataIndex
  pub ask_sub_vault_id : ℕ
  pub ask_rate_bps : ℕ
  pub ask_term_seconds : ℕ
  pub ask_curator_fee_bps : ℕ
  pub sub_vault_max_ltv_bps : ℕ
  pub sub_vault_liquidation_ltv_bps : ℕ
  pub ask_curator : Pubkey
  pub fee_floor_bps : ℕ
  pub origination_bps : ℕ
  pub now_unix_ts : ℤ
  pub lender_debt_share_price_snapshot_fp48 : Fp48
  pub debt_oracle_price_fp48 : Fp48
  pub collateral_oracle_price_fp48 : Fp48
  pub debt_mint_decimals : ℕ
  pub collateral_mint_decimals : ℕ
  pub max_fills : ℕ

-- The market but for its bids, the vault account, and `result`.
pub record Walk : Type 0 where
  pub market : Market
  pub vault : SubVaults
  pub total_filled_principal : ℕ
  pub num_fills : ℕ
  pub num_pruned : ℕ

-- What the body does with the current bid: it stays and the walk goes on or ends, it leaves the tree,
-- or it stays with less in it.
pub data Outcome : Type 0 where
  skip stop : Outcome
  leave : Walk → Outcome
  shrink : Walk → RestingOrder → Outcome

-- `if idx != NIL`
unfoldable pub reserve_at : SubVaults → ℕ → ℕ → Result SubVaults
reserve_at vs id principal = elim (vs id) [
  | none ↦ ok vs
  | some v ↦ reserve v principal >>= λ v'. ok (set_at vs id (some v'))
]

abbrev pub cap_of : MatchRestingBidsArgs → RestingOrder → ℕ
cap_of args o = effective_origination_cap_bps args.sub_vault_max_ltv_bps o.ltv_buffer_bps

-- `let mut node`
abbrev pub node_of_bid :
    MatchRestingBidsArgs → RestingOrder → Market → (amount coll rate origination : ℕ) → MatchedLoan
node_of_bid args o m amount coll rate origination = record {
  sequence = m.matched_loan_sequence;
  borrower_marginfi_borrow_shares = 0;
  principal_atoms = amount;
  origination_atoms = origination;
  collateral_atoms = coll;
  matched_at_unix = args.now_unix_ts;
  lender_seat_index = args.ask_seat_index;
  borrower_seat_index = o.trader_seat_index;
  term_seconds = o.term_seconds;
  borrower_rate_bps = rate;
  lender_rate_bps = args.ask_rate_bps;
  loan_type = 0;
  flags = matched_loan_flag_vault_lender;
  curator_fee_bps_snapshot = args.ask_curator_fee_bps;
  origination_ltv_bps = cap_of args o;
  liquidation_ltv_bps = args.sub_vault_liquidation_ltv_bps;
  lender_debt_share_price_snapshot_fp48 = args.lender_debt_share_price_snapshot_fp48;
  borrower_collateral_share_price_snapshot_fp48 = o.share_price_snapshot;
}

-- The lines after `if full_consumption`.
unfoldable pub consume : Walk → DataIndex → RestingOrder → (amount coll : ℕ) → Result Outcome
consume s i o amount coll = do
  total ← ok_or (Words.checked_add u64_mod s.total_filled_principal amount) arithmetic_overflow
  let s₁ = record s {
    total_filled_principal = total;
    num_fills = min (s.num_fills + 1) (u32_mod - 1);
  }
  if amount == o.principal_atoms
      then ok (leave (record s₁ { market = free_block s.market i }))
      else do
        reduced ← reduce o amount
        rest ← ok_or (Words.checked_sub o.collateral_atoms coll) arithmetic_overflow
        ok (shrink s₁ (record reduced { collateral_atoms = rest }))

module _ ⦃w : Uint256⦄ where
  -- An expired bid gives its owner the collateral back.
  unfoldable pub prune : Walk → DataIndex → RestingOrder → Result Outcome
  prune s i o = do
    market ← release_order s.market bid o
    ok (
        leave (record s {
          market = free_block market i;
          num_pruned = min (s.num_pruned + 1) (u32_mod - 1);
        }))

  -- From the reservation on.
  unfoldable pub fill_bid :
      MatchRestingBidsArgs → Walk → DataIndex → RestingOrder → (amount coll : ℕ) → Result Outcome
  fill_bid args s i o amount coll = do
    vault ← reserve_at s.vault args.ask_sub_vault_id amount
    rate ← borrower_rate o.rate_bps args.ask_rate_bps args.fee_floor_bps
    origination ← mul_div_u64 amount args.origination_bps bps_per_unit false
    m₁ ← insert_loan s.market (node_of_bid args o s.market amount coll rate origination)
    m₂ ← count_loan m₁ o.trader_seat_index args.ask_seat_index
    consume (record s { market = m₂; vault = vault }) i o amount coll

  abbrev pub consumed_collateral : RestingOrder → ℕ → Result ℕ
  consumed_collateral o amount =
      if amount == o.principal_atoms
      then ok o.collateral_atoms
      else mul_div_u64 o.collateral_atoms amount o.principal_atoms false

  -- From `let fill` on, with what the sub-vault can lend.
  unfoldable pub cross_bid :
      MatchRestingBidsArgs → Walk → DataIndex → RestingOrder → ℕ → Result Outcome
  cross_bid args s i o idle = do
    let amount = min o.principal_atoms idle
    coll ← consumed_collateral o amount
    required ←
        required_collateral_at_ltv_cap amount args.debt_oracle_price_fp48
          args.collateral_oracle_price_fp48 (cap_of args o) args.debt_mint_decimals
          args.collateral_mint_decimals
    if ltb coll required then ok skip else fill_bid args s i o amount coll

  -- The body of the loop.
  unfoldable pub visit : MatchRestingBidsArgs → Walk → DataIndex → RestingOrder → Result Outcome
  visit args s i o =
      if is_expired o args.now_unix_ts
      then prune s i o
      else if o.trader_seat_index == args.ask_seat_index
      then ok skip
      else if (s.market.seats o.trader_seat_index).owner == args.ask_curator
      then ok skip
      else if ltb o.rate_bps args.ask_rate_bps
      then ok stop
      else if ltb args.ask_term_seconds o.term_seconds
      then ok skip
      else let idle = (offer_of (s.vault args.ask_sub_vault_id)).idle in
        if idle == 0 then ok stop else cross_bid args s i o idle

  abbrev pub keep_bid : DataIndex → RestingOrder → Walk × Orders → Result (Walk × Orders)
  keep_bid i o (s, bids) = ok (s, (i, o) ∷ bids)

  -- The loop, and the bids that it leaves.
  unfoldable pub walk_bids : MatchRestingBidsArgs → Orders → Walk → Result (Walk × Orders)
  walk_bids args [] s = ok (s, [])
  walk_bids args ((i, o) ∷ bids) s = elim (ltb s.num_fills args.max_fills) [
    | false ↦ ok (s, (i, o) ∷ bids)
    | true ↦ visit args s i o >>= λ outcome. elim outcome [
      | skip ↦ walk_bids args bids s >>= keep_bid i o
      | stop ↦ ok (s, (i, o) ∷ bids)
      | leave s' ↦ walk_bids args bids s'
      | shrink s' o' ↦ walk_bids args bids s' >>= keep_bid i o'
    ]
  ]

  unfoldable pub match_resting_bids :
      MatchRestingBidsArgs → Market → SubVaults → Orders → Result (Walk × Orders)
  match_resting_bids args m vault bids = walk_bids args bids (record {
    market = m;
    vault = vault;
    total_filled_principal = 0;
    num_fills = 0;
    num_pruned = 0;
  })
