-- ===== src/Math/Exact.antt =====
-- Each wide helper against exact arithmetic on natural numbers: it returns the exact quotient, and
-- fails exactly when the divisor is zero or the quotient does not fit.
use y_delta.Prelude.{
  ℕ, zero, suc, ◌+◌, ◌*◌, ◌/◌, ◌%◌, ◌^◌, ◌<◌, ◌≤◌, ◌≡◌, ◌≢◌, Bool, true, false, not, ◌&&◌, Result,
  ok, err, custom, math_overflow, math_division_by_zero, ◌==◌, ltb, if◌then◌else◌, u64_mod,
  u128_mod, u256_mod, arith, lt→ltb, ne→==, ok_or, ◌>>=◌, inl, inr, Bool-cases,
}
use native.Mathlib.Nat.{div-add-mod}
use y_delta.Math.Uint256.{Uint256}
use y_delta.Math.Scale.{u256_to_u128, mul_scale, div_scale, mul_div, mul_div_u64}

-- The value, if it fits a type of modulus m.
abbrev pub narrow : ℕ → ℕ → Result ℕ
narrow m x = if ltb x m then ok x else err (custom math_overflow)

-- The exact quotient, rounded down or up.
abbrev pub quotient : ℕ → ℕ → Bool → ℕ
quotient n c true = if n % c == 0 then n / c else n / c + 1
quotient n c false = n / c

product_lt : (a b : ℕ) → a < u128_mod → b < u128_mod → a * b < u256_mod
product_lt a b p q = grind arith

div_le : (a b : ℕ) → a / b ≤ a
div_le a b = omega arith

shl_fits : (a : ℕ) → a < u128_mod → a * 2 ^ 48 % u256_mod ≡ a * 2 ^ 48
shl_fits a h = omega arith

-- A quotient with a remainder is below the dividend.
div_lt : (n c : ℕ) → (n % c == 0) ≡ false → (c == 0) ≡ false → n / c + 1 ≤ n
div_lt n zero r z = cc
div_lt n (suc c) r z = ground (arith, div-add-mod n (suc c))

module _ ⦃w : Uint256⦄ where
  u256_to_u128_lem : (x : ℕ) → x < u256_mod → u256_to_u128 x ≡ narrow u128_mod x
  unfolding u256_to_u128
  u256_to_u128_lem x h =
      rw (w.limb_lem x 0, w.limb_lem x 1, w.limb_lem x 2, w.limb_lem x 3) (ground arith)

  -- For `u128` arguments, `mul_scale` is the exact product over 2 ^ 48, rounded down, or an overflow
  -- if that does not fit a `u128`.
  pub mul_scale_lem :
      (a b : ℕ) → a < u128_mod → b < u128_mod → mul_scale a b ≡ narrow u128_mod (a * b / 2 ^ 48)
  unfolding mul_scale
  mul_scale_lem a b p q =
      let fits = product_lt a b p q in
      rw (w.checked_mul_lem a b, lt→ltb _ _ fits, w.shr_lem (a * b) 48)
        (u256_to_u128_lem (a * b / 2 ^ 48) (omega arith))

  -- For a `u128` a, `div_scale` fails with a division by zero when b is zero, and is otherwise the
  -- exact quotient a * 2 ^ 48 / b, rounded down, or an overflow if that does not fit a `u128`.
  pub div_scale_lem :
      (a b : ℕ)
      → a < u128_mod
      → div_scale a b
        ≡ (if b == 0 then err (custom math_division_by_zero) else narrow u128_mod (a * 2 ^ 48 / b))
  unfolding div_scale
  div_scale_lem a b p = elim (Bool-cases (b == 0)) [
    | inl z ↦ rw z
    | inr nz ↦ rw (
      nz,
      w.shl_lem a 48,
      shl_fits a p,
      w.checked_div_lem (a * 2 ^ 48) b,
      nz,
      u256_to_u128_lem (a * 2 ^ 48 / b) (omega (arith, div_le (a * 2 ^ 48) b)),
    )
  ]

  -- The rounding and narrowing that `mul_div` does with its product n.
  rounded :
      (n c : ℕ) (ceil : Bool)
      → n < u256_mod
      → (c == 0) ≡ false
      → ((if ceil && not (w.rem n c == 0)
            then ok_or (w.checked_add (w.div n c) 1) (custom math_overflow)
            else ok (w.div n c))
          >>= u256_to_u128)
        ≡ narrow u128_mod (quotient n c ceil)
  rounded n c false h nz = rw (w.div_lem n c) (u256_to_u128_lem (n / c) (omega (arith, div_le n c)))
  rounded n c true h nz = elim (Bool-cases (n % c == 0)) [
    | inl exact ↦
        rw (w.rem_lem n c, exact, w.div_lem n c)
          (u256_to_u128_lem (n / c) (omega (arith, div_le n c)))
    | inr more ↦
        let le = div_lt n c more nz in
        let fits : n / c + 1 < u256_mod = omega arith in
        rw (w.rem_lem n c, more, w.div_lem n c, w.checked_add_lem (n / c) 1, lt→ltb _ _ fits)
          (u256_to_u128_lem (n / c + 1) fits)
  ]

  -- For `u128` a and b, `mul_div` fails with a division by zero when c is zero, and is otherwise the
  -- exact quotient a * b / c, rounded as asked, or an overflow if that does not fit a `u128`.
  pub mul_div_lem :
      (a b c : ℕ) (ceil : Bool)
      → a < u128_mod
      → b < u128_mod
      → mul_div a b c ceil ≡ (
          if c == 0
          then err (custom math_division_by_zero)
          else narrow u128_mod (quotient (a * b) c ceil))
  unfolding mul_div
  mul_div_lem a b c ceil p q = elim (Bool-cases (c == 0)) [
    | inl z ↦ rw z
    | inr nz ↦
        rw (nz, w.checked_mul_lem a b, lt→ltb _ _ (product_lt a b p q))
          (rounded (a * b) c ceil (product_lt a b p q) nz)
  ]

  pub u256_to_u128-eq-ok :
      (x : ℕ) {r : ℕ} → x < u256_mod → u256_to_u128 x ≡ ok r → (r ≡ x) × (x < u128_mod)
  u256_to_u128-eq-ok x h e = ground (arith, u256_to_u128_lem x h)

  -- What a successful `mul_div` returned, with no bound asked of its arguments.
  pub mul_div-eq-ok :
      (a b c : ℕ) {r : ℕ}
      → mul_div a b c false ≡ ok r
      → (r ≡ a * b / c) × (r < u128_mod) × ((c == 0) ≡ false)
  unfolding mul_div
  mul_div-eq-ok a b c {r} e = ground (
    arith,
    w.checked_mul_lem a b,
    w.div_lem (a * b) c,
    div_le (a * b) c,
    u256_to_u128-eq-ok (a * b / c) {r = r},
  )

  pub mul_scale-eq-ok :
      (a b : ℕ) {r : ℕ} → mul_scale a b ≡ ok r → (r ≡ a * b / 2 ^ 48) × (r < u128_mod)
  unfolding mul_scale
  mul_scale-eq-ok a b {r} e = ground (
    arith,
    w.checked_mul_lem a b,
    w.shr_lem (a * b) 48,
    u256_to_u128-eq-ok (a * b / 2 ^ 48) {r = r},
  )

  pub div_scale-eq-ok :
      (a b : ℕ) {r : ℕ}
      → a < u128_mod
      → div_scale a b ≡ ok r
      → (r ≡ a * 2 ^ 48 / b) × (r < u128_mod) × ((b == 0) ≡ false)
  unfolding div_scale
  div_scale-eq-ok a b {r} h e = ground (
    arith,
    w.shl_lem a 48,
    shl_fits a h,
    w.checked_div_lem (a * 2 ^ 48) b,
    div_le (a * 2 ^ 48) b,
    u256_to_u128-eq-ok (a * 2 ^ 48 / b) {r = r},
  )

  -- For `u64` a and b and a divisor c that is not zero, `mul_div_u64` is the exact quotient a * b / c,
  -- rounded as asked, or an overflow if that does not fit a `u64`.
  pub mul_div_u64_lem :
      (a b c : ℕ) (ceil : Bool)
      → a < u64_mod
      → b < u64_mod
      → c ≢ 0
      → mul_div_u64 a b c ceil ≡ narrow u64_mod (quotient (a * b) c ceil)
  unfolding mul_div_u64
  mul_div_u64_lem a b c ceil p q nz =
      let (p', q') : (a < u128_mod) × (b < u128_mod) = (omega arith, omega arith) in
      rw (mul_div_lem a b c ceil p' q', ne→== c 0 nz) (ground arith)
