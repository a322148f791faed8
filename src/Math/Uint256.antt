-- ===== src/Math/Uint256.antt =====
-- The 256-bit integers of the `ruint` crate, which math.rs widens its products to. The crate is not
-- part of the repository, so its operations are a parameter with the behaviour that its
-- documentation states. A word is the number that it stands for, so `U256::from` of a `u128` leaves
-- no trace. The laws are stated for all numbers, words or not.
use y_delta.Prelude.{
  ℕ, ◌*◌, ◌/◌, ◌%◌, ◌^◌, ◌≡◌, refl, Option, none, some, ◌==◌, if◌then◌else◌, u256_mod,
}
use y_delta.Prelude.Words

pub record Uint256 : Type 0 where
  pub checked_mul : ℕ → ℕ → Option ℕ
  pub checked_add : ℕ → ℕ → Option ℕ
  pub checked_div : ℕ → ℕ → Option ℕ
  pub div : ℕ → ℕ → ℕ
  pub rem : ℕ → ℕ → ℕ
  pub shl : ℕ → ℕ → ℕ
  pub shr : ℕ → ℕ → ℕ
  -- `as_limbs()[i]`
  pub limb : ℕ → ℕ → ℕ
  pub checked_mul_lem : (a b : ℕ) → checked_mul a b ≡ Words.checked_mul u256_mod a b
  pub checked_add_lem : (a b : ℕ) → checked_add a b ≡ Words.checked_add u256_mod a b
  pub checked_div_lem : (a b : ℕ) → checked_div a b ≡ (if b == 0 then none else some (a / b))
  pub div_lem : (a b : ℕ) → div a b ≡ a / b
  pub rem_lem : (a b : ℕ) → rem a b ≡ a % b
  pub shl_lem : (a k : ℕ) → shl a k ≡ a * 2 ^ k % u256_mod
  pub shr_lem : (a k : ℕ) → shr a k ≡ a / 2 ^ k
  pub limb_lem : (a i : ℕ) → limb a i ≡ a / 2 ^ (64 * i) % 2 ^ 64

-- A value of the parameter, for tests.
instance abbrev pub nat_uint256 : Uint256
nat_uint256 = record {
  checked_mul = Words.checked_mul u256_mod;
  checked_add = Words.checked_add u256_mod;
  checked_div = λ a b. if b == 0 then none else some (a / b);
  div = λ a b. a / b;
  rem = λ a b. a % b;
  shl = λ a k. a * 2 ^ k % u256_mod;
  shr = λ a k. a / 2 ^ k;
  limb = λ a i. a / 2 ^ (64 * i) % 2 ^ 64;
  checked_mul_lem = λ a b. refl;
  checked_add_lem = λ a b. refl;
  checked_div_lem = λ a b. refl;
  div_lem = λ a b. refl;
  rem_lem = λ a b. refl;
  shl_lem = λ a k. refl;
  shr_lem = λ a k. refl;
  limb_lem = λ a i. refl;
}
