-- ===== src/Market/Crossed.antt =====
-- What a cross of a refinance has passed and written: `match_p2pool_residual_against_asks` in
-- programs/ydelta/src/state/market_helpers.rs.
use y_delta.Prelude.{
  ℕ, ◌+◌, ◌≤◌, ◌≡◌, ◌≢◌, refl, sym, ap, subst, ◌∙◌, ok-injective, false, inl, inr, some,
  Option-cases, [], ◌∷◌, ◌++◌, ok, Bool-cases, >>=-eq-ok, require-eq-ok, ◌==◌, ltb, min, arith,
}
use y_delta.Math.Uint256.{Uint256}
use y_delta.Math.Scale.{mul_div_u64}
use y_delta.Order.{DataIndex, RestingOrder, is_expired}
use y_delta.Seat.{owner_kind_sub_vault}
use y_delta.Ltv.{required_collateral_at_ltv_cap, effective_origination_cap_bps}
use y_delta.Market.{Market}
use y_delta.Market.Engine.{
  SubVaults, Offer, offer_of, Fill, skip, stop, take, reserve_in, borrower_rate, insert_loan,
}
use y_delta.Market.Taken.{take_injective, insert_loan-eq-ok, insert_loan-ids}
use y_delta.Market.Refinance.{
  MatchP2PoolRefinanceArgs, P2PoolRefinanceCross, Refinance, count_lend, count_cross, cross_of,
  refinance_node, fill_cross, check_share, check_refinance_offer, check_refinance_lender,
  screen_ask,
}

module _ ⦃w : Uint256⦄ where
  -- The gates on what the maker's sub-vault offers.
  pub record Shared (args : MatchP2PoolRefinanceArgs) (s : Refinance) (f : Fill) : Type 0 where
    pub some_idle : f.offer.idle ≢ 0
    pub principal : f.principal ≡ min s.remaining_principal f.offer.idle
    pub collateral :
        mul_div_u64 args.loan_collateral_atoms f.principal args.principal_cap_atoms false
        ≡ ok f.collateral
    pub cap : f.cap_bps ≡ effective_origination_cap_bps f.offer.max_ltv_bps args.ltv_buffer_bps
    pub required : ℕ
    pub required_eq :
        required_collateral_at_ltv_cap f.principal args.debt_oracle_price_fp48
          args.collateral_oracle_price_fp48 f.cap_bps args.debt_mint_decimals
          args.collateral_mint_decimals
        ≡ ok required
    pub enough : required ≤ f.collateral

  check_share-take :
      (args : MatchP2PoolRefinanceArgs) (s : Refinance) (o : Offer) {f : Fill}
      → o.idle ≢ 0
      → check_share args s o ≡ ok (take f)
      → Shared args s f × (f.offer ≡ o)
  unfolding check_share
  check_share-take args s o {f} nonzero e =
      let p = min s.remaining_principal o.idle in
      let cap = effective_origination_cap_bps o.max_ltv_bps args.ltv_buffer_bps in
      let (c, c_eq, e1) =
        >>=-eq-ok (mul_div_u64 args.loan_collateral_atoms p args.principal_cap_atoms false) _ e in
      let (r, r_eq, e2) =
        >>=-eq-ok
          (required_collateral_at_ltv_cap p args.debt_oracle_price_fp48
            args.collateral_oracle_price_fp48 cap args.debt_mint_decimals
            args.collateral_mint_decimals)
          _ e1 in
      let g : Fill = record { principal = p; collateral = c; cap_bps = cap; offer = o } in
      let verdict = ok-injective e2 in
      elim (Bool-cases (ltb c r)) [
        | inl short ↦ let v0 : skip ≡ take f = rw short at verdict in cc
        | inr enough ↦
            let v1 : take g ≡ take f = rw enough at verdict in
            let same : g ≡ f = take_injective v1 in
            let on_g : Shared args s g = record {
              some_idle = nonzero;
              principal = refl;
              collateral = c_eq;
              cap = refl;
              required = r;
              required_eq = r_eq;
              enough = ground (arith, enough);
            } in
            (subst (λ x. Shared args s x) same on_g, ap (λ x. x.offer) (sym same))
      ]

  check_refinance_offer-take :
      (args : MatchP2PoolRefinanceArgs) (s : Refinance) (o : Offer) {f : Fill}
      → check_refinance_offer args s o ≡ ok (take f)
      → Shared args s f × (f.offer ≡ o)
  check_refinance_offer-take args s o {f} e = elim (Bool-cases (o.idle == 0)) [
    | inl none_idle ↦
        let v0 : ok skip ≡ ok (take f) = rw (check_refinance_offer, none_idle) at e in cc
    | inr some_idle ↦
        elim (Bool-cases (o.curator == (s.market.seats args.borrower_seat_index).owner)) [
          | inl own ↦
              let v0 : ok skip ≡ ok (take f) = rw (check_refinance_offer, some_idle, own) at e in cc
          | inr other ↦
              check_share-take args s o (ground arith)
                (rw (check_refinance_offer, some_idle, other) at e)
        ]
  ]

  pub record Crossed (args : MatchP2PoolRefinanceArgs) (maker : RestingOrder) (s : Refinance)
      (f : Fill) : Type 0 where
    pub sub_vaults : SubVaults
    pub has_vault : s.vault ≡ some sub_vaults
    pub offer :
        f.offer ≡ offer_of (sub_vaults (s.market.seats maker.trader_seat_index).sub_vault_id)
    pub shared : Shared args s f

  check_refinance_lender-take :
      (args : MatchP2PoolRefinanceArgs) (maker : RestingOrder) (s : Refinance) {f : Fill}
      → check_refinance_lender args maker s ≡ ok (take f)
      → Crossed args maker s f
  unfolding check_refinance_lender
  check_refinance_lender-take args maker s {f} e =
      let lender = s.market.seats maker.trader_seat_index in
      let (_, e1) = require-eq-ok (lender.owner_kind == owner_kind_sub_vault) _ e in
      elim (Option-cases s.vault) [
        | inl absent ↦ let v0 : ok skip ≡ ok (take f) = rw absent at e1 in cc
        | inr (vs, present) ↦
            let e2 : check_refinance_offer args s (offer_of (vs lender.sub_vault_id))
                ≡ ok (take f) =
              rw present at e1 in
            let (shared, same) =
              check_refinance_offer-take args s (offer_of (vs lender.sub_vault_id)) e2 in
            record { sub_vaults = vs; has_vault = present; offer = same; shared = shared }
      ]

  pub screen_ask-Crossed :
      (args : MatchP2PoolRefinanceArgs) (maker : RestingOrder) (s : Refinance) {f : Fill}
      → screen_ask args maker s ≡ ok (take f)
      → Crossed args maker s f
        × (args.ask_floor_rate_bps ≤ maker.rate_bps)
        × (maker.rate_bps ≤ args.max_acceptable_rate_bps)
        × (args.term_remaining_seconds ≤ maker.term_seconds)
  unfolding screen_ask
  screen_ask-Crossed args maker s {f} e = elim (Bool-cases (is_expired maker args.now_unix_ts)) [
    | inl expired ↦ let v0 : ok skip ≡ ok (take f) = rw expired at e in cc
    | inr live ↦ elim (Bool-cases (ltb maker.rate_bps args.ask_floor_rate_bps)) [
      | inl below ↦ let v0 : ok skip ≡ ok (take f) = rw (live, below) at e in cc
      | inr above ↦ elim (Bool-cases (maker.trader_seat_index == args.borrower_seat_index)) [
        | inl own ↦ let v0 : ok skip ≡ ok (take f) = rw (live, above, own) at e in cc
        | inr other ↦ elim (Bool-cases (ltb args.max_acceptable_rate_bps maker.rate_bps)) [
          | inl apart ↦ let v0 : ok stop ≡ ok (take f) = rw (live, above, other, apart) at e in cc
          | inr crosses ↦ elim (Bool-cases (ltb maker.term_seconds args.term_remaining_seconds)) [
            | inl short ↦
                let v0 : ok skip ≡ ok (take f) = rw (live, above, other, crosses, short) at e in cc
            | inr long ↦
                let gates =
                  check_refinance_lender-take args maker s
                    (rw (live, above, other, crosses, long) at e) in
                (gates, ground (arith, above), ground (arith, crosses), ground (arith, long))
          ]
        ]
      ]
    ]
  ]

  -- What a cross wrote.
  pub record Wrote (args : MatchP2PoolRefinanceArgs) (maker : RestingOrder) (s : Refinance)
      (f : Fill) (s' : Refinance) : Type 0 where
    pub rate : ℕ
    pub reserved :
        reserve_in s.vault (s.market.seats maker.trader_seat_index).sub_vault_id f.principal
        ≡ ok (s'.vault)
    pub loans :
        s'.market.matched_loans ≡ refinance_node args maker s.market f rate ∷ s.market.matched_loans
    pub ids : (k : DataIndex) → (s'.market.seats k).sub_vault_id ≡ (s.market.seats k).sub_vault_id
    pub principal : s'.remaining_principal + f.principal ≡ s.remaining_principal
    pub filled : s'.total_filled_principal ≡ s.total_filled_principal + f.principal
    pub collateral : s'.total_filled_collateral ≡ s.total_filled_collateral + f.collateral
    pub crosses : s'.crosses ≡ s.crosses ++ (cross_of maker s.market f ∷ [])

  count_cross-eq-ok :
      (s : Refinance) (f : Fill) (cross : P2PoolRefinanceCross) {s' : Refinance}
      → count_cross s f cross ≡ ok s'
      → (s'.market ≡ s.market)
        × (s'.vault ≡ s.vault)
        × (s'.remaining_principal + f.principal ≡ s.remaining_principal)
        × (s'.total_filled_principal ≡ s.total_filled_principal + f.principal)
        × (s'.total_filled_collateral ≡ s.total_filled_collateral + f.collateral)
        × (s'.crosses ≡ s.crosses ++ (cross ∷ []))
  unfolding count_cross
  count_cross-eq-ok s f cross e = ground arith

  count_lend-eq-ok :
      (m : Market) (lender : DataIndex) {m' : Market}
      → count_lend m lender ≡ ok m'
      → m'.matched_loans ≡ m.matched_loans
  unfolding count_lend
  count_lend-eq-ok m lender e = ground arith

  count_lend-ids :
      (m : Market) (lender : DataIndex) {m' : Market}
      → count_lend m lender ≡ ok m'
      → (k : DataIndex) → (m'.seats k).sub_vault_id ≡ (m.seats k).sub_vault_id
  unfolding count_lend
  count_lend-ids m lender e k = ground arith

  pub fill_cross-Wrote :
      (args : MatchP2PoolRefinanceArgs) (maker : RestingOrder) (s : Refinance) (f : Fill)
      {s' : Refinance}
      → fill_cross args maker s f ≡ ok s'
      → Wrote args maker s f s'
  unfolding fill_cross
  fill_cross-Wrote args maker s f e =
      let id = (s.market.seats maker.trader_seat_index).sub_vault_id in
      let (u, u_eq, e1) = >>=-eq-ok (reserve_in s.vault id f.principal) _ e in
      let (r, _, e2) =
        >>=-eq-ok (borrower_rate args.max_acceptable_rate_bps maker.rate_bps args.fee_floor_bps) _
          e1 in
      let (m₁, m₁_eq, e3) =
        >>=-eq-ok (insert_loan s.market (refinance_node args maker s.market f r)) _ e2 in
      let (m₂, m₂_eq, e4) = >>=-eq-ok (count_lend m₁ maker.trader_seat_index) _ e3 in
      let (inserted, _, _) =
        insert_loan-eq-ok s.market (refinance_node args maker s.market f r) m₁_eq in
      let (market_eq, vault_eq, principal, filled, collateral, crosses) =
        count_cross-eq-ok (record s { market = m₂; vault = u }) f (cross_of maker s.market f) e4 in
      record {
        rate = r;
        reserved = u_eq ∙ ap ok (sym vault_eq);
        loans =
            ap (λ m. m.matched_loans) market_eq
            ∙ count_lend-eq-ok m₁ maker.trader_seat_index m₂_eq
            ∙ inserted;
        ids = λ k.
            ap (λ m. (m.seats k).sub_vault_id) market_eq
            ∙ count_lend-ids m₁ maker.trader_seat_index m₂_eq k
            ∙ ap (λ seats. (seats k).sub_vault_id)
                (insert_loan-ids s.market (refinance_node args maker s.market f r) m₁_eq);
        principal = principal;
        filled = filled;
        collateral = collateral;
        crosses = crosses;
      }
