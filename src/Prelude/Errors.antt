-- ===== src/Prelude/Errors.antt =====
-- `Result<T, ProgramError>`, the `?` operator as a bind, and the `require!` guard.
-- programs/ydelta/src/program/error.rs. A `YdeltaError` reaches the caller as
-- `ProgramError::Custom` with its code; the model keeps the variant in place of the code. So it does
-- for the `AdapterError` of programs/ydelta/src/protocol/mod.rs. A panic of checked arithmetic aborts
-- the transaction as an error does, and is one here.
use mathlib.Core.Path.{◌≡◌, refl, ap}
use mathlib.Core.Logic.{◌⊎◌, inl, inr}
use mathlib.Core.Bool.{Bool, true, false}
use mathlib.Core.Option.{Option, none, some}

-- All the variants, in the source's order.
pub data YdeltaError : Type 0 where
  invalid_market_parameters invalid_deposit_accounts invalid_withdraw_accounts : YdeltaError
  invalid_cancel invalid_free_list already_claimed_seat post_only_would_cross : YdeltaError
  order_already_expired wrong_index_hint_params overflow incorrect_account invalid_mint :
      YdeltaError
  no_seat_claimed seat_has_open_obligations insufficient_withdrawable_balance : YdeltaError
  rate_below_floor term_not_compatible collateral_insufficient : YdeltaError
  token2022_unsupported_extension order_not_found order_not_owned_by_signer : YdeltaError
  invalid_argument matched_loan_not_found self_match_forbidden : YdeltaError
  collateral_below_match_ltv vault_wrong_mint sub_vault_not_found : YdeltaError
  vault_order_term_exceeds_sub_vault_max vault_curator_required vault_admin_required : YdeltaError
  sub_vault_order_exists vault_insufficient_idle_atoms sub_vault_not_empty : YdeltaError
  sub_vault_id_exists sub_vault_ltv_out_of_range sub_vault_term_invalid : YdeltaError
  loan_not_matured loan_still_solvent liquidator_payment_insufficient : YdeltaError
  liquidation_collateral_underflow market_admin_required invalid_fee_config : YdeltaError
  pending_admin_mismatch market_paused global_paused protocol_admin_required : YdeltaError
  oracle_degenerate vault_paused math_division_by_zero math_overflow : YdeltaError
  insufficient_encumbered_collateral sub_vault_sunset sub_vault_not_sunset : YdeltaError
  fallback_ltv_insufficient : YdeltaError

pub data AdapterError : Type 0 where
  unexpected_atom_delta invalid_integration_account oracle_stale : AdapterError
  oracle_setup_unsupported oracle_max_confidence_exceeded : AdapterError
  oracle_account_mismatch oracle_non_positive : AdapterError

pub data ProgramError : Type 0 where
  custom : YdeltaError → ProgramError
  adapter : AdapterError → ProgramError
  arithmetic_overflow invalid_account_data account_data_too_small : ProgramError
  panicked : ProgramError

pub data Result {ℓ} (A : Type ℓ) : Type ℓ where
  ok : A → Result A
  err : ProgramError → Result A

-- `require!(test, error, ..)`
abbrev pub require : Bool → ProgramError → Result (Unit {0})
require true _ = ok tt
require false failure = err failure

-- The `?` operator: the rest of the body gets the value, and an error ends the call.
infixl 5 ◌>>=◌ ◌>>◌
abbrev pub ◌>>=◌ {ℓ κ} : {T : Type ℓ} {U : Type κ} → Result T → (T → Result U) → Result U
ok value >>= rest = rest value
err failure >>= _ = err failure

-- `Option::ok_or`
abbrev pub ok_or {ℓ} : {T : Type ℓ} → Option T → ProgramError → Result T
ok_or none failure = err failure
ok_or (some value) _ = ok value

abbrev pub ◌>>◌ {ℓ} : {U : Type ℓ} → Result (Unit {0}) → Result U → Result U
check >> rest = check >>= λ _. rest

-- `Result::map`
abbrev pub map_ok {ℓ κ} : {A : Type ℓ} {B : Type κ} → (A → B) → Result A → Result B
map_ok f (ok a) = ok (f a)
map_ok f (err e) = err e

pub Result-cases {ℓ} :
    {A : Type ℓ} (r : Result A) → ((a : A) × (r ≡ ok a)) ⊎ ((e : ProgramError) × (r ≡ err e))
Result-cases (ok a) = inl (a, refl)
Result-cases (err e) = inr (e, refl)

-- A call that succeeded got a value at `?`, and the rest of its body succeeded on that value.
pub >>=-eq-ok {ℓ κ} :
    {T : Type ℓ} {U : Type κ} (call : Result T) (rest : T → Result U) {b : U}
    → (call >>= rest) ≡ ok b
    → (value : T) × (call ≡ ok value) × (rest value ≡ ok b)
>>=-eq-ok (ok value) _ e = (value, refl, e)
>>=-eq-ok (err _) _ e = cc

pub >>-eq-ok {ℓ} :
    {B : Type ℓ} (m : Result (Unit {0})) {k : Result B} {b : B}
    → (m >> k) ≡ ok b
    → (m ≡ ok tt) × (k ≡ ok b)
>>-eq-ok (ok tt) h = (refl, h)
>>-eq-ok (err e) h = cc

-- A guard that passed, and what follows it.
pub require-eq-ok {ℓ} :
    {B : Type ℓ} (t : Bool) (e : ProgramError) {k : Result B} {b : B}
    → (require t e >> k) ≡ ok b
    → (t ≡ true) × (k ≡ ok b)
require-eq-ok true e h = (refl, h)
require-eq-ok false e h = cc

pub map_ok-eq-ok {ℓ κ} :
    {A : Type ℓ} {B : Type κ} (f : A → B) (r : Result A) {b : B}
    → map_ok f r ≡ ok b
    → (a : A) × (r ≡ ok a) × (ok (f a) ≡ ok b)
map_ok-eq-ok f (ok a) e = (a, refl, e)
map_ok-eq-ok f (err _) e = cc

unwrap_or : {A : Type 0} → A → Result A → A
unwrap_or d (ok a) = a
unwrap_or d (err e) = d

pub ok-injective : {A : Type 0} {a b : A} → ok a ≡ ok b → a ≡ b
unfolding unwrap_or
ok-injective {a = a} p = ap (unwrap_or a) p
