-- ===== src/Fees.antt =====
-- The fee configuration of a market: fee_config_helpers.rs and set_fee_config.rs in
-- programs/ydelta/src/program/processor.
mod Tests
use y_delta.Prelude.{
  ℕ, ◌*◌, ◌≤◌, ◌≡◌, refl, subst, Option, none, some, Result, ok, err, custom, ok-injective,
  >>-eq-ok, require-eq-ok, invalid_fee_config, market_admin_required, require, ◌>>=◌, ◌>>◌, ◌==◌,
  leb, leb→le, arith,
}
use mathlib.Core.Option.{get_or}
use y_delta.Loan.{Pubkey}
use y_delta.Market.{FeeConfig, Market}

abbrev pub max_grace_period_seconds : ℕ
max_grace_period_seconds = 90 * 86_400

abbrev pub max_liquidation_keeper_bps : ℕ
max_liquidation_keeper_bps = 5_000

-- `None` keeps a field.
pub record SetFeeConfigParams : Type 0 where
  pub protocol_fee_bps_floor : Option ℕ
  pub origination_bps : Option ℕ
  pub curator_split_bps : Option ℕ
  pub liquidation_keeper_bps : Option ℕ
  pub liquidation_protocol_bps : Option ℕ
  pub grace_period_seconds : Option ℕ

-- `check_bps`, and the two other caps on a field that is given.
unfoldable pub check_at_most : ℕ → Option ℕ → Result (Unit {0})
check_at_most cap none = ok tt
check_at_most cap (some v) = require (leb v cap) (custom invalid_fee_config)

unfoldable pub validate_fee_config_overrides : SetFeeConfigParams → Result (Unit {0})
validate_fee_config_overrides p = do
  check_at_most 10_000 p.protocol_fee_bps_floor
  check_at_most 10_000 p.origination_bps
  check_at_most 10_000 p.curator_split_bps
  check_at_most 10_000 p.liquidation_keeper_bps
  check_at_most 10_000 p.liquidation_protocol_bps
  check_at_most max_liquidation_keeper_bps p.liquidation_keeper_bps
  check_at_most max_grace_period_seconds p.grace_period_seconds

unfoldable pub apply_fee_config_overrides : FeeConfig → SetFeeConfigParams → FeeConfig
apply_fee_config_overrides c p = record {
  protocol_fee_bps_floor = get_or p.protocol_fee_bps_floor c.protocol_fee_bps_floor;
  origination_bps = get_or p.origination_bps c.origination_bps;
  curator_split_bps = get_or p.curator_split_bps c.curator_split_bps;
  liquidation_keeper_bps = get_or p.liquidation_keeper_bps c.liquidation_keeper_bps;
  liquidation_protocol_bps = get_or p.liquidation_protocol_bps c.liquidation_protocol_bps;
  grace_period_seconds = get_or p.grace_period_seconds c.grace_period_seconds;
}

-- `set_fee_config`, with the market's admin.
unfoldable pub set_fee_config : (payer admin : Pubkey) → Market → SetFeeConfigParams → Result Market
set_fee_config payer admin m p = do
  require (payer == admin) (custom market_admin_required)
  validate_fee_config_overrides p
  ok (record m { fee_config = apply_fee_config_overrides m.fee_config p })

-- Every share is at most the whole, the keeper's at most a half, and the grace period 90 days.
pub record IsBounded (c : FeeConfig) : Type 0 where
  pub floor : c.protocol_fee_bps_floor ≤ 10_000
  pub origination : c.origination_bps ≤ 10_000
  pub curator : c.curator_split_bps ≤ 10_000
  pub keeper : c.liquidation_keeper_bps ≤ max_liquidation_keeper_bps
  pub protocol : c.liquidation_protocol_bps ≤ 10_000
  pub grace : c.grace_period_seconds ≤ max_grace_period_seconds

check_at_most-le :
    (cap : ℕ) (o : Option ℕ) {old : ℕ}
    → old ≤ cap
    → check_at_most cap o ≡ ok tt
    → get_or o old ≤ cap
unfolding check_at_most
check_at_most-le cap none le e = le
check_at_most-le cap (some v) le e = ground arith

-- Only the admin of a market can set its fees. If they are in their bounds, they are so afterwards,
-- whichever of them are set.
pub set_fee_config-IsBounded :
    (payer admin : Pubkey) (m : Market) (p : SetFeeConfigParams) {m' : Market}
    → IsBounded m.fee_config
    → set_fee_config payer admin m p ≡ ok m'
    → IsBounded m'.fee_config × (payer ≡ admin)
unfolding set_fee_config validate_fee_config_overrides apply_fee_config_overrides
set_fee_config-IsBounded payer admin m p b e =
    let (own, e₀) = require-eq-ok (payer == admin) _ e in
    let (valid, last) = >>-eq-ok (validate_fee_config_overrides p) e₀ in
    let (v₁, e₁) = >>-eq-ok (check_at_most 10_000 p.protocol_fee_bps_floor) valid in
    let (v₂, e₂) = >>-eq-ok (check_at_most 10_000 p.origination_bps) e₁ in
    let (v₃, e₃) = >>-eq-ok (check_at_most 10_000 p.curator_split_bps) e₂ in
    let (_, e₄) = >>-eq-ok (check_at_most 10_000 p.liquidation_keeper_bps) e₃ in
    let (v₅, e₅) = >>-eq-ok (check_at_most 10_000 p.liquidation_protocol_bps) e₄ in
    let (v₆, v₇) =
      >>-eq-ok (check_at_most max_liquidation_keeper_bps p.liquidation_keeper_bps) e₅ in
    (
      subst (λ x. IsBounded x.fee_config) (ok-injective last)
          (record {
            floor = check_at_most-le 10_000 p.protocol_fee_bps_floor b.floor v₁;
            origination = check_at_most-le 10_000 p.origination_bps b.origination v₂;
            curator = check_at_most-le 10_000 p.curator_split_bps b.curator v₃;
            keeper =
                check_at_most-le max_liquidation_keeper_bps p.liquidation_keeper_bps b.keeper v₆;
            protocol = check_at_most-le 10_000 p.liquidation_protocol_bps b.protocol v₅;
            grace = check_at_most-le max_grace_period_seconds p.grace_period_seconds b.grace v₇;
          }),
      ground (arith, own),
    )
