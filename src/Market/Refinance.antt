-- ===== src/Market/Refinance.antt =====
-- The conversion of a loan from the pool into fixed loans: `match_p2pool_residual_against_asks` in
-- programs/ydelta/src/state/market_helpers.rs. Its walk is that of `match_order`. Logs are left out.
use y_delta.Prelude.{
  ℕ, ◌+◌, ◌-◌, min, Bool, false, Option, none, some, List, [], ◌∷◌, ◌++◌, Result, ok, custom,
  arithmetic_overflow, incorrect_account, require, ok_or, ◌>>=◌, ◌>>◌, ◌==◌, ltb, if◌then◌else◌,
  u32_mod, u64_mod,
}
use y_delta.Prelude.Words
use y_delta.Prelude.Int.{ℤ}
use y_delta.Math.Uint256.{Uint256}
use y_delta.Math.Scale.{mul_div_u64}
use y_delta.Math.Fp48.{Fp48}
use y_delta.Loan.{Pubkey}
use y_delta.Order.{DataIndex, RestingOrder, is_expired}
use y_delta.Seat.{owner_kind_sub_vault}
use y_delta.Ltv.{required_collateral_at_ltv_cap, effective_origination_cap_bps}
use y_delta.Market.{Market, MatchedLoan, Asks, matched_loan_flag_vault_lender}
use y_delta.Market.Engine.{
  SubVaults, Offer, offer_of, Fill, Verdict, skip, stop, take, set_at, reserve_in, borrower_rate,
  insert_loan,
}
use y_delta.Market.Scan.{scan_from_best}

-- `MATCHED_LOAN_FLAG_VAULT_PRESETTLED`
abbrev pub matched_loan_flag_vault_presettled : ℕ
matched_loan_flag_vault_presettled = 8

pub record MatchP2PoolRefinanceArgs : Type 0 where
  pub market_pubkey : Pubkey
  pub borrower_seat_index : DataIndex
  pub principal_cap_atoms : ℕ
  pub loan_collateral_atoms : ℕ
  pub borrower_collateral_share_price_snapshot_fp48 : Fp48
  pub term_remaining_seconds : ℕ
  pub max_acceptable_rate_bps : ℕ
  pub fee_floor_bps : ℕ
  pub now_unix_ts : ℤ
  pub debt_oracle_price_fp48 : Fp48
  pub collateral_oracle_price_fp48 : Fp48
  pub debt_mint_decimals : ℕ
  pub collateral_mint_decimals : ℕ
  pub ask_floor_rate_bps : ℕ
  pub ltv_buffer_bps : ℕ

pub record P2PoolRefinanceCross : Type 0 where
  pub lender_sub_vault_id : ℕ
  pub lender_rate_bps : ℕ
  pub filled_principal_atoms : ℕ

-- The market, the vault account and the variables of the loop.
pub record Refinance : Type 0 where
  pub market : Market
  pub vault : Option SubVaults
  pub remaining_principal : ℕ
  pub total_filled_principal : ℕ
  pub total_filled_collateral : ℕ
  pub num_fills : ℕ
  pub crosses : List P2PoolRefinanceCross

-- `open_lend_count` of the lender's seat.
unfoldable pub count_lend : Market → DataIndex → Result Market
count_lend m lender = do
  lends ← ok_or (Words.checked_add u32_mod (m.seats lender).open_lend_count 1) arithmetic_overflow
  ok (record m {
    seats = set_at m.seats lender (record (m.seats lender) { open_lend_count = lends });
  })

-- The loop variables after a fill.
unfoldable pub count_cross : Refinance → Fill → P2PoolRefinanceCross → Result Refinance
count_cross s f cross = do
  remaining ← ok_or (Words.checked_sub s.remaining_principal f.principal) arithmetic_overflow
  filled ←
      ok_or (Words.checked_add u64_mod s.total_filled_principal f.principal) arithmetic_overflow
  coll ←
      ok_or (Words.checked_add u64_mod s.total_filled_collateral f.collateral) arithmetic_overflow
  ok (record s {
    remaining_principal = remaining;
    total_filled_principal = filled;
    total_filled_collateral = coll;
    num_fills = min (s.num_fills + 1) (u32_mod - 1);
    crosses = s.crosses ++ (cross ∷ []);
  })

abbrev pub cross_of : RestingOrder → Market → Fill → P2PoolRefinanceCross
cross_of maker m f = record {
  lender_sub_vault_id = (m.seats maker.trader_seat_index).sub_vault_id;
  lender_rate_bps = maker.rate_bps;
  filled_principal_atoms = f.principal;
}

-- `let mut node`; the two flags are different bits.
abbrev pub refinance_node :
    MatchP2PoolRefinanceArgs → RestingOrder → Market → Fill → (borrower_rate : ℕ) → MatchedLoan
refinance_node args maker m f rate = record {
  sequence = m.matched_loan_sequence;
  borrower_marginfi_borrow_shares = 0;
  principal_atoms = f.principal;
  origination_atoms = 0;
  collateral_atoms = f.collateral;
  matched_at_unix = args.now_unix_ts;
  lender_seat_index = maker.trader_seat_index;
  borrower_seat_index = args.borrower_seat_index;
  term_seconds = args.term_remaining_seconds;
  borrower_rate_bps = rate;
  lender_rate_bps = maker.rate_bps;
  loan_type = 0;
  flags = matched_loan_flag_vault_presettled + matched_loan_flag_vault_lender;
  curator_fee_bps_snapshot = f.offer.curator_fee_bps;
  origination_ltv_bps = f.cap_bps;
  liquidation_ltv_bps = f.offer.liquidation_ltv_bps;
  lender_debt_share_price_snapshot_fp48 = maker.share_price_snapshot;
  borrower_collateral_share_price_snapshot_fp48 =
      args.borrower_collateral_share_price_snapshot_fp48;
}

-- From the reservation on, with the collateral of the gate, which the source computes again.
unfoldable pub fill_cross :
    MatchP2PoolRefinanceArgs → RestingOrder → Refinance → Fill → Result Refinance
fill_cross args maker s f = do
  vault ← reserve_in s.vault (s.market.seats maker.trader_seat_index).sub_vault_id f.principal
  rate ← borrower_rate args.max_acceptable_rate_bps maker.rate_bps args.fee_floor_bps
  m₁ ← insert_loan s.market (refinance_node args maker s.market f rate)
  m₂ ← count_lend m₁ maker.trader_seat_index
  count_cross (record s { market = m₂; vault = vault }) f (cross_of maker s.market f)

module _ ⦃w : Uint256⦄ where
  -- The gate on collateral, which is shared out among the fills by principal.
  unfoldable pub check_share : MatchP2PoolRefinanceArgs → Refinance → Offer → Result Verdict
  check_share args s o = do
    let principal = min s.remaining_principal o.idle
    coll ← mul_div_u64 args.loan_collateral_atoms principal args.principal_cap_atoms false
    let cap = effective_origination_cap_bps o.max_ltv_bps args.ltv_buffer_bps
    required ←
        required_collateral_at_ltv_cap principal args.debt_oracle_price_fp48
          args.collateral_oracle_price_fp48 cap args.debt_mint_decimals
          args.collateral_mint_decimals
    ok (
        if ltb coll required
        then skip
        else take (record { principal = principal; collateral = coll; cap_bps = cap; offer = o }))

  abbrev pub check_refinance_offer : MatchP2PoolRefinanceArgs → Refinance → Offer → Result Verdict
  check_refinance_offer args s o =
      if o.idle == 0
      then ok skip
      else if o.curator == (s.market.seats args.borrower_seat_index).owner
      then ok skip
      else check_share args s o

  unfoldable pub check_refinance_lender :
      MatchP2PoolRefinanceArgs → RestingOrder → Refinance → Result Verdict
  check_refinance_lender args maker s = do
    let lender = s.market.seats maker.trader_seat_index
    require (lender.owner_kind == owner_kind_sub_vault) (custom incorrect_account)
    elim s.vault [
      | none ↦ ok skip
      | some vs ↦ check_refinance_offer args s (offer_of (vs lender.sub_vault_id))
    ]

  -- The body of the loop up to the reservation.
  unfoldable pub screen_ask : MatchP2PoolRefinanceArgs → RestingOrder → Refinance → Result Verdict
  screen_ask args maker s =
      if is_expired maker args.now_unix_ts
      then ok skip
      else if ltb maker.rate_bps args.ask_floor_rate_bps
      then ok skip
      else if maker.trader_seat_index == args.borrower_seat_index
      then ok skip
      else if ltb args.max_acceptable_rate_bps maker.rate_bps
      then ok stop
      else if ltb maker.term_seconds args.term_remaining_seconds
      then ok skip
      else check_refinance_lender args maker s

  abbrev pub is_refinanced : Refinance → Bool
  is_refinanced s = s.remaining_principal == 0

  abbrev pub start_of : MatchP2PoolRefinanceArgs → Market → Option SubVaults → Refinance
  start_of args m vault = record {
    market = m;
    vault = vault;
    remaining_principal = args.principal_cap_atoms;
    total_filled_principal = 0;
    total_filled_collateral = 0;
    num_fills = 0;
    crosses = [];
  }

  unfoldable pub match_p2pool_residual_against_asks :
      Asks → MatchP2PoolRefinanceArgs → Market → Option SubVaults → Result (Option Refinance)
  match_p2pool_residual_against_asks asks args m vault =
      scan_from_best asks is_refinanced (screen_ask args) (fill_cross args) (start_of args m vault)
