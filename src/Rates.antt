-- ===== src/Rates.antt =====
-- The rates of a marginfi bank, as the program replays them: the reads of the accounts' bytes in
-- programs/ydelta/src/protocol/marginfi_rate_calc.rs. The children have the curves and what is
-- computed from them. An account is its owner and its bytes; the offsets into a bank and a group are
-- those of the source, which has them from marginfi.
pub mod Curve
pub mod Project
pub mod Bounds
pub mod Growth
pub mod Projected
mod Tests
use y_delta.Prelude.{
  ℕ, ◌+◌, ◌-◌, ◌*◌, ◌^◌, ◌%◌, Bool, not, List, [], ◌∷◌, Result, ok, err, adapter,
  invalid_integration_account, require, ◌>>=◌, ◌>>◌, ◌==◌, ltb, leb, if◌then◌else◌,
}
use y_delta.Prelude.Lists.{length, drop, le_bytes}
use y_delta.Prelude.Int.{ℤ, pos, negsuc}
use y_delta.Loan.{Pubkey}

pub record AccountInfo : Type 0 where
  pub owner : Pubkey
  pub data_bytes : List ℕ

abbrev pub anchor_header_len : ℕ
anchor_header_len = 8

abbrev pub bank_body_total_liability_shares : ℕ
bank_body_total_liability_shares = 248

abbrev pub bank_body_total_asset_shares : ℕ
bank_body_total_asset_shares = 264

abbrev pub bank_body_last_update : ℕ
bank_body_last_update = 280

-- `BANK_BODY_CONFIG_START + BC_INTEREST_RATE_CONFIG`
abbrev pub irc_base : ℕ
irc_base = 288 + 72

abbrev pub irc_points : ℕ
irc_points = irc_base + 136

-- The group's `flags & 1`.
abbrev pub program_fees_enabled : ℕ → Bool
program_fees_enabled flags = not (flags % 2 == 0)

pub record InterestRateConfig : Type 0 where
  pub optimal_utilization_rate_fp48 : ℕ
  pub plateau_interest_rate_fp48 : ℕ
  pub max_interest_rate_fp48 : ℕ
  pub insurance_fee_fixed_apr_fp48 : ℕ
  pub insurance_ir_fee_fp48 : ℕ
  pub protocol_fixed_fee_apr_fp48 : ℕ
  pub protocol_ir_fee_fp48 : ℕ
  pub zero_util_rate_milli_u32 : ℕ
  pub hundred_util_rate_milli_u32 : ℕ
  pub points : List (ℕ × ℕ)
  pub curve_type : ℕ

pub record GroupProgramFees : Type 0 where
  pub enabled : Bool
  pub program_fee_fixed_fp48 : ℕ
  pub program_fee_rate_fp48 : ℕ

-- The bytes of a field, if the account reaches that far.
abbrev pub field : List ℕ → (body_offset width : ℕ) → Result (List ℕ)
field bytes body_offset width =
    if ltb (length bytes) (anchor_header_len + body_offset + width)
    then err (adapter invalid_integration_account)
    else ok (drop (anchor_header_len + body_offset) bytes)

-- An `i128` is negative when its top bit is set.
unfoldable pub read_wrapped_i80f48_fp48 : List ℕ → ℕ → Result ℕ
read_wrapped_i80f48_fp48 bytes body_offset = do
  buf ← field bytes body_offset 16
  let bits = le_bytes 16 buf
  require (ltb bits (2 ^ 127)) (adapter invalid_integration_account)
  ok bits

unfoldable pub read_u8 : List ℕ → ℕ → Result ℕ
read_u8 bytes body_offset = field bytes body_offset 1 >>= λ buf. ok (le_bytes 1 buf)

unfoldable pub read_u32 : List ℕ → ℕ → Result ℕ
read_u32 bytes body_offset = field bytes body_offset 4 >>= λ buf. ok (le_bytes 4 buf)

unfoldable pub read_u64 : List ℕ → ℕ → Result ℕ
read_u64 bytes body_offset = field bytes body_offset 8 >>= λ buf. ok (le_bytes 8 buf)

-- `as i64`
unfoldable pub read_i64 : List ℕ → ℕ → Result ℤ
read_i64 bytes body_offset = do
  n ← read_u64 bytes body_offset
  ok (if ltb n (2 ^ 63) then pos n else negsuc (2 ^ 64 - 1 - n))

-- The reads of an account, given the id of the marginfi program.
module _ (marginfi : Pubkey) where
  abbrev pub assert_marginfi_owned : AccountInfo → Result (Unit {0})
  assert_marginfi_owned account =
      require (account.owner == marginfi) (adapter invalid_integration_account)

  unfoldable pub read_bank_last_update : AccountInfo → Result ℤ
  read_bank_last_update bank = do
    assert_marginfi_owned bank
    read_i64 bank.data_bytes bank_body_last_update

  unfoldable pub read_bank_asset_share_value_fp48 : AccountInfo → Result ℕ
  read_bank_asset_share_value_fp48 bank = do
    assert_marginfi_owned bank
    read_wrapped_i80f48_fp48 bank.data_bytes 72

  unfoldable pub read_bank_liability_share_value_fp48 : AccountInfo → Result ℕ
  read_bank_liability_share_value_fp48 bank = do
    assert_marginfi_owned bank
    read_wrapped_i80f48_fp48 bank.data_bytes 88

  unfoldable pub read_bank_total_asset_shares_fp48 : AccountInfo → Result ℕ
  read_bank_total_asset_shares_fp48 bank = do
    assert_marginfi_owned bank
    read_wrapped_i80f48_fp48 bank.data_bytes bank_body_total_asset_shares

  unfoldable pub read_bank_total_liability_shares_fp48 : AccountInfo → Result ℕ
  read_bank_total_liability_shares_fp48 bank = do
    assert_marginfi_owned bank
    read_wrapped_i80f48_fp48 bank.data_bytes bank_body_total_liability_shares

  abbrev pub read_point : List ℕ → ℕ → Result (ℕ × ℕ)
  read_point bytes i = do
    util ← read_u32 bytes (irc_points + i * 8)
    rate ← read_u32 bytes (irc_points + i * 8 + 4)
    ok (util, rate)

  -- `for i in 0..IRC_POINTS_COUNT`
  unfoldable pub read_points : List ℕ → Result (List (ℕ × ℕ))
  read_points bytes = do
    p₀ ← read_point bytes 0
    p₁ ← read_point bytes 1
    p₂ ← read_point bytes 2
    p₃ ← read_point bytes 3
    p₄ ← read_point bytes 4
    ok (p₀ ∷ p₁ ∷ p₂ ∷ p₃ ∷ p₄ ∷ [])

  unfoldable pub read_bank_interest_rate_config : AccountInfo → Result InterestRateConfig
  read_bank_interest_rate_config bank = do
    assert_marginfi_owned bank
    let bytes = bank.data_bytes
    optimal ← read_wrapped_i80f48_fp48 bytes irc_base
    plateau ← read_wrapped_i80f48_fp48 bytes (irc_base + 16)
    max_rate ← read_wrapped_i80f48_fp48 bytes (irc_base + 32)
    insurance_fixed ← read_wrapped_i80f48_fp48 bytes (irc_base + 48)
    insurance_ir ← read_wrapped_i80f48_fp48 bytes (irc_base + 64)
    protocol_fixed ← read_wrapped_i80f48_fp48 bytes (irc_base + 80)
    protocol_ir ← read_wrapped_i80f48_fp48 bytes (irc_base + 96)
    zero_util ← read_u32 bytes (irc_base + 128)
    hundred_util ← read_u32 bytes (irc_base + 132)
    points ← read_points bytes
    curve_type ← read_u8 bytes (irc_base + 176)
    ok (record {
      optimal_utilization_rate_fp48 = optimal;
      plateau_interest_rate_fp48 = plateau;
      max_interest_rate_fp48 = max_rate;
      insurance_fee_fixed_apr_fp48 = insurance_fixed;
      insurance_ir_fee_fp48 = insurance_ir;
      protocol_fixed_fee_apr_fp48 = protocol_fixed;
      protocol_ir_fee_fp48 = protocol_ir;
      zero_util_rate_milli_u32 = zero_util;
      hundred_util_rate_milli_u32 = hundred_util;
      points = points;
      curve_type = curve_type;
    })

  unfoldable pub read_group_program_fees : AccountInfo → Result GroupProgramFees
  read_group_program_fees group = do
    assert_marginfi_owned group
    flags ← read_u64 group.data_bytes 32
    fixed ← read_wrapped_i80f48_fp48 group.data_bytes 72
    rate ← read_wrapped_i80f48_fp48 group.data_bytes 88
    ok (record {
      enabled = program_fees_enabled flags;
      program_fee_fixed_fp48 = fixed;
      program_fee_rate_fp48 = rate;
    })
