-- ===== src/Market/Taken.antt =====
-- What a fill of the matching engine has passed and what it writes: `match_order` in
-- programs/ydelta/src/state/market_helpers.rs.
use y_delta.Prelude.{
  ℕ, ◌+◌, ◌-◌, ◌≤◌, ◌≡◌, ◌≢◌, refl, sym, ap, ◌∙◌, subst, min, false, ◌&&◌, some, ◌∷◌, ok, >>=-eq-ok,
  >>-eq-ok, require-eq-ok, ok-injective, Bool-cases, Option-cases, inl, inr, ◌==◌, ltb, arith,
}
use y_delta.Math.Uint256.{Uint256}
use y_delta.Math.Scale.{mul_div_u64}
use y_delta.Loan.{bps_per_unit}
use y_delta.Order.{DataIndex, RestingOrder, is_expired, assert_can_take}
use y_delta.Seat.{owner_kind_sub_vault}
use y_delta.Ltv.{required_collateral_at_ltv_cap, effective_origination_cap_bps}
use y_delta.Market.{Market, MatchedLoan}
use y_delta.Market.Engine.{
  MatchArgs, SubVaults, MatchState, Offer, offer_of, Fill, Verdict, skip, stop, take, reserve_in,
  borrower_rate, insert_loan, count_loan, count_fill, matched_collateral, check_collateral,
  check_offer, check_lender, screen, node_of, fill,
}

-- `continue` or a fill that is not this one.
abbrev is_take : Fill → Verdict → Fill
is_take f (take g) = g
is_take f skip = f
is_take f stop = f

pub take_injective : {f g : Fill} → take f ≡ take g → f ≡ g
take_injective {f} e = ap (is_take f) e

module _ ⦃w : Uint256⦄ where
  -- The gates on the offer of the maker's sub-vault, for a fill that passed them.
  pub record OnOffer (args : MatchArgs) (s : MatchState) (f : Fill) : Type 0 where
    pub some_idle : f.offer.idle ≢ 0
    pub not_own : f.offer.curator ≢ (s.market.seats args.taker_seat_index).owner
    pub principal : f.principal ≡ min s.remaining_principal f.offer.idle
    pub collateral : matched_collateral args s f.principal ≡ ok f.collateral
    pub cap : f.cap_bps ≡ effective_origination_cap_bps f.offer.max_ltv_bps args.ltv_buffer_bps
    pub required : ℕ
    pub required_eq :
        required_collateral_at_ltv_cap f.principal args.debt_oracle_price_fp48
          args.collateral_oracle_price_fp48 f.cap_bps s.market.debt_mint_decimals
          s.market.collateral_mint_decimals
        ≡ ok required
    pub enough : required ≤ f.collateral

  check_collateral-take :
      (args : MatchArgs) (s : MatchState) (o : Offer) {f : Fill}
      → o.idle ≢ 0
      → o.curator ≢ (s.market.seats args.taker_seat_index).owner
      → check_collateral args s o ≡ ok (take f)
      → OnOffer args s f × (f.offer ≡ o)
  unfolding check_collateral
  check_collateral-take args s o {f} nonzero not_own e =
      let p = min s.remaining_principal o.idle in
      let cap = effective_origination_cap_bps o.max_ltv_bps args.ltv_buffer_bps in
      let (c, c_eq, e1) = >>=-eq-ok (matched_collateral args s p) _ e in
      let (r, r_eq, e2) =
        >>=-eq-ok
          (required_collateral_at_ltv_cap p args.debt_oracle_price_fp48
            args.collateral_oracle_price_fp48 cap s.market.debt_mint_decimals
            s.market.collateral_mint_decimals)
          _ e1 in
      let g : Fill = record { principal = p; collateral = c; cap_bps = cap; offer = o } in
      let verdict = ok-injective e2 in
      elim (Bool-cases (ltb c r)) [
        | inl short ↦ let v0 : skip ≡ take f = rw short at verdict in cc
        | inr enough ↦
            let v1 : take g ≡ take f = rw enough at verdict in
            let same : g ≡ f = take_injective v1 in
            let on_g : OnOffer args s g = record {
              some_idle = nonzero;
              not_own = not_own;
              principal = refl;
              collateral = c_eq;
              cap = refl;
              required = r;
              required_eq = r_eq;
              enough = ground (arith, enough);
            } in
            (subst (λ x. OnOffer args s x) same on_g, ap (λ x. x.offer) (sym same))
      ]

  check_offer-take :
      (args : MatchArgs) (maker : RestingOrder) (s : MatchState) (o : Offer) {f : Fill}
      → check_offer args maker s o ≡ ok (take f)
      → OnOffer args s f × (f.offer ≡ o)
  unfolding check_offer
  check_offer-take args maker s o {f} e = elim (Bool-cases (o.idle == 0)) [
    | inl none_idle ↦ let v0 : ok skip ≡ ok (take f) = rw none_idle at e in cc
    | inr some_idle ↦
        let term = ltb 0 o.max_term_seconds && ltb o.max_term_seconds maker.term_seconds in
        elim (Bool-cases term) [
          | inl too_long ↦ let v0 : ok skip ≡ ok (take f) = rw (some_idle, too_long) at e in cc
          | inr in_time ↦
              elim (Bool-cases (o.curator == (s.market.seats args.taker_seat_index).owner)) [
                | inl own ↦ let v0 : ok skip ≡ ok (take f) = rw (some_idle, in_time, own) at e in cc
                | inr other ↦
                    check_collateral-take args s o (ground arith) (ground arith)
                      (rw (some_idle, in_time, other) at e)
              ]
        ]
  ]

  -- All the gates of a fill that passed them.
  pub record Taken (args : MatchArgs) (maker : RestingOrder) (s : MatchState) (f : Fill)
      : Type 0 where
    pub live : is_expired maker args.now_unix_ts ≡ false
    pub above_floor : args.ask_floor_rate_bps ≤ maker.rate_bps
    pub other_seat : maker.trader_seat_index ≢ args.taker_seat_index
    pub crosses : maker.rate_bps ≤ args.rate_bps
    pub long_enough : args.term_seconds ≤ maker.term_seconds
    pub sub_vaults : SubVaults
    pub has_vault : s.vault ≡ some sub_vaults
    pub offer :
        f.offer ≡ offer_of (sub_vaults (s.market.seats maker.trader_seat_index).sub_vault_id)
    pub on_offer : OnOffer args s f

  check_lender-take :
      (args : MatchArgs) (maker : RestingOrder) (s : MatchState) {f : Fill}
      → check_lender args maker s ≡ ok (take f)
      → (vs : SubVaults) × (s.vault ≡ some vs)
        × OnOffer args s f
        × (f.offer ≡ offer_of (vs (s.market.seats maker.trader_seat_index).sub_vault_id))
  unfolding check_lender
  check_lender-take args maker s {f} e =
      let lender = s.market.seats maker.trader_seat_index in
      let (_, e1) = >>-eq-ok (assert_can_take args.order_type) e in
      let (_, e2) = require-eq-ok (lender.owner_kind == owner_kind_sub_vault) _ e1 in
      elim (Option-cases s.vault) [
        | inl absent ↦ let v0 : ok skip ≡ ok (take f) = rw absent at e2 in cc
        | inr (vs, present) ↦
            let e3 : check_offer args maker s (offer_of (vs lender.sub_vault_id)) ≡ ok (take f) =
              rw present at e2 in
            let (on_offer, same) =
              check_offer-take args maker s (offer_of (vs lender.sub_vault_id)) e3 in
            (vs, present, on_offer, same)
      ]

  pub screen-Taken :
      (args : MatchArgs) (maker : RestingOrder) (s : MatchState) {f : Fill}
      → screen args maker s ≡ ok (take f)
      → Taken args maker s f
  unfolding screen
  screen-Taken args maker s {f} e = elim (Bool-cases (is_expired maker args.now_unix_ts)) [
    | inl expired ↦ let v0 : ok skip ≡ ok (take f) = rw expired at e in cc
    | inr live ↦ elim (Bool-cases (ltb maker.rate_bps args.ask_floor_rate_bps)) [
      | inl below ↦ let v0 : ok skip ≡ ok (take f) = rw (live, below) at e in cc
      | inr above ↦ elim (Bool-cases (maker.trader_seat_index == args.taker_seat_index)) [
        | inl own ↦ let v0 : ok skip ≡ ok (take f) = rw (live, above, own) at e in cc
        | inr other ↦ elim (Bool-cases (ltb args.rate_bps maker.rate_bps)) [
          | inl apart ↦ let v0 : ok stop ≡ ok (take f) = rw (live, above, other, apart) at e in cc
          | inr crosses ↦ elim (Bool-cases (ltb maker.term_seconds args.term_seconds)) [
            | inl short ↦
                let v0 : ok skip ≡ ok (take f) = rw (live, above, other, crosses, short) at e in cc
            | inr long ↦
                let (vs, present, on_offer, same) =
                  check_lender-take args maker s (rw (live, above, other, crosses, long) at e) in
                record {
                  live = live;
                  above_floor = ground (arith, above);
                  other_seat = ground (arith, other);
                  crosses = ground (arith, crosses);
                  long_enough = ground (arith, long);
                  sub_vaults = vs;
                  has_vault = present;
                  offer = same;
                  on_offer = on_offer;
                }
          ]
        ]
      ]
    ]
  ]

  -- What a fill wrote.
  pub record Filled (args : MatchArgs) (maker : RestingOrder) (s : MatchState) (f : Fill)
      (s' : MatchState) : Type 0 where
    pub rate : ℕ
    pub origination : ℕ
    pub rate_eq : borrower_rate args.rate_bps maker.rate_bps args.fee_floor_bps ≡ ok rate
    pub origination_eq :
        mul_div_u64 f.principal s.market.fee_config.origination_bps bps_per_unit false
        ≡ ok origination
    pub reserved :
        reserve_in s.vault (s.market.seats maker.trader_seat_index).sub_vault_id f.principal
        ≡ ok (s'.vault)
    pub loans :
        s'.market.matched_loans
        ≡ node_of args maker s.market f rate origination ∷ s.market.matched_loans
    pub decimals :
        (s'.market.debt_mint_decimals ≡ s.market.debt_mint_decimals)
        × (s'.market.collateral_mint_decimals ≡ s.market.collateral_mint_decimals)
    pub ids : (k : DataIndex) → (s'.market.seats k).sub_vault_id ≡ (s.market.seats k).sub_vault_id
    pub principal : s'.remaining_principal + f.principal ≡ s.remaining_principal
    pub filled : s'.total_filled ≡ s.total_filled + f.principal
    pub collateral : s'.remaining_collateral ≡ s.remaining_collateral - f.collateral

  count_fill-eq-ok :
      (s : MatchState) (f : Fill) {s' : MatchState}
      → count_fill s f ≡ ok s'
      → (s'.market ≡ s.market)
        × (s'.vault ≡ s.vault)
        × (s'.remaining_principal + f.principal ≡ s.remaining_principal)
        × (s'.total_filled ≡ s.total_filled + f.principal)
        × (s'.remaining_collateral ≡ s.remaining_collateral - f.collateral)
  unfolding count_fill
  count_fill-eq-ok s f e = ground arith

  pub insert_loan-eq-ok :
      (m : Market) (node : MatchedLoan) {m' : Market}
      → insert_loan m node ≡ ok m'
      → (m'.matched_loans ≡ node ∷ m.matched_loans)
        × (m'.debt_mint_decimals ≡ m.debt_mint_decimals)
        × (m'.collateral_mint_decimals ≡ m.collateral_mint_decimals)
  unfolding insert_loan
  insert_loan-eq-ok m node e = ground arith

  count_loan-eq-ok :
      (m : Market) (borrower lender : DataIndex) {m' : Market}
      → count_loan m borrower lender ≡ ok m'
      → (m'.matched_loans ≡ m.matched_loans)
        × (m'.debt_mint_decimals ≡ m.debt_mint_decimals)
        × (m'.collateral_mint_decimals ≡ m.collateral_mint_decimals)
  unfolding count_loan
  count_loan-eq-ok m borrower lender e = ground arith

  pub insert_loan-ids :
      (m : Market) (node : MatchedLoan) {m' : Market}
      → insert_loan m node ≡ ok m'
      → m'.seats ≡ m.seats
  unfolding insert_loan
  insert_loan-ids m node e = ground arith

  count_loan-ids :
      (m : Market) (borrower lender : DataIndex) {m' : Market}
      → count_loan m borrower lender ≡ ok m'
      → (k : DataIndex) → (m'.seats k).sub_vault_id ≡ (m.seats k).sub_vault_id
  unfolding count_loan
  count_loan-ids m borrower lender e k = ground arith

  pub fill-Filled :
      (args : MatchArgs) (maker : RestingOrder) (s : MatchState) (f : Fill) {s' : MatchState}
      → fill args maker s f ≡ ok s'
      → Filled args maker s f s'
  unfolding fill
  fill-Filled args maker s f e =
      let id = (s.market.seats maker.trader_seat_index).sub_vault_id in
      let (u, u_eq, e1) = >>=-eq-ok (reserve_in s.vault id f.principal) _ e in
      let (r, r_eq, e2) =
        >>=-eq-ok (borrower_rate args.rate_bps maker.rate_bps args.fee_floor_bps) _ e1 in
      let (o, o_eq, e3) =
        >>=-eq-ok (mul_div_u64 f.principal s.market.fee_config.origination_bps bps_per_unit false) _
          e2 in
      let (m₁, m₁_eq, e4) =
        >>=-eq-ok (insert_loan s.market (node_of args maker s.market f r o)) _ e3 in
      let (m₂, m₂_eq, e5) =
        >>=-eq-ok (count_loan m₁ args.taker_seat_index maker.trader_seat_index) _ e4 in
      let (inserted, dd₁, cd₁) =
        insert_loan-eq-ok s.market (node_of args maker s.market f r o) m₁_eq in
      let (kept, dd₂, cd₂) =
        count_loan-eq-ok m₁ args.taker_seat_index maker.trader_seat_index m₂_eq in
      let (market_eq, vault_eq, principal, filled, collateral) =
        count_fill-eq-ok (record s { market = m₂; vault = u }) f e5 in
      record {
        rate = r;
        origination = o;
        rate_eq = r_eq;
        origination_eq = o_eq;
        reserved = u_eq ∙ ap ok (sym vault_eq);
        loans = ap (λ m. m.matched_loans) market_eq ∙ kept ∙ inserted;
        decimals = (
          ap (λ m. m.debt_mint_decimals) market_eq ∙ dd₂ ∙ dd₁,
          ap (λ m. m.collateral_mint_decimals) market_eq ∙ cd₂ ∙ cd₁,
        );
        ids = λ k.
            ap (λ m. (m.seats k).sub_vault_id) market_eq
            ∙ count_loan-ids m₁ args.taker_seat_index maker.trader_seat_index m₂_eq k
            ∙ ap (λ seats. (seats k).sub_vault_id)
                (insert_loan-ids s.market (node_of args maker s.market f r o) m₁_eq);
        principal = principal;
        filled = filled;
        collateral = collateral;
      }
