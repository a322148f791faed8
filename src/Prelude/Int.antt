-- ===== src/Prelude/Int.antt =====
-- Signed integers, for `i64` timestamps and `i128` differences, with the operations of Rust's core
-- library on `i64`.
use Prim.Native.Nat.{ℕ, suc, ◌+◌, ◌-◌, ◌^◌, ◌≤◌}
use mathlib.Core.Path.{◌≡◌}
use mathlib.Core.Bool.{Bool, ◌&&◌}
use mathlib.Core.Option.{Option, none, some}
use native.Mathlib.Omega.{arith}
use y_delta.Prelude.Tests.{ltb, leb, ◌==◌, if◌then◌else◌}

-- `negsuc n` is -(n + 1).
pub data ℤ : Type 0 where
  pos : ℕ → ℤ
  negsuc : ℕ → ℤ

abbrev pub pos_part : ℤ → ℕ
pos_part (pos n) = n
pos_part (negsuc n) = 0

abbrev pub neg_part : ℤ → ℕ
neg_part (pos n) = 0
neg_part (negsuc n) = suc n

-- a - b, as an integer.
abbrev pub sub_ℕ : ℕ → ℕ → ℤ
sub_ℕ a b = if leb b a then pos (a - b) else negsuc (b - a - 1)

infixl 65 ◌+ℤ◌ ◌-ℤ◌
infix 50 ◌≤ℤ◌ ◌<ℤ◌
unfoldable pub ◌+ℤ◌ : ℤ → ℤ → ℤ
a +ℤ b = sub_ℕ (pos_part a + pos_part b) (neg_part a + neg_part b)

unfoldable pub ◌-ℤ◌ : ℤ → ℤ → ℤ
a -ℤ b = sub_ℕ (pos_part a + neg_part b) (neg_part a + pos_part b)

abbrev pub ◌≤ℤ◌ : ℤ → ℤ → Type 0
a ≤ℤ b = pos_part a + neg_part b ≤ pos_part b + neg_part a

abbrev pub ◌<ℤ◌ : ℤ → ℤ → Type 0
a <ℤ b = suc (pos_part a + neg_part b) ≤ pos_part b + neg_part a

abbrev pub ltb_ℤ : ℤ → ℤ → Bool
ltb_ℤ a b = ltb (pos_part a + neg_part b) (pos_part b + neg_part a)

abbrev pub leb_ℤ : ℤ → ℤ → Bool
leb_ℤ a b = leb (pos_part a + neg_part b) (pos_part b + neg_part a)

abbrev pub eqb_ℤ : ℤ → ℤ → Bool
eqb_ℤ a b = (pos_part a + neg_part b) == (pos_part b + neg_part a)

-- `i64::MIN <= a <= i64::MAX`
abbrev pub fits_i64 : ℤ → Bool
fits_i64 a = ltb (pos_part a) (2 ^ 63) && leb (neg_part a) (2 ^ 63)

unfoldable pub checked_add_i64 : ℤ → ℤ → Option ℤ
checked_add_i64 a b = if fits_i64 (a +ℤ b) then some (a +ℤ b) else none

unfoldable pub checked_sub_i64 : ℤ → ℤ → Option ℤ
checked_sub_i64 a b = if fits_i64 (a -ℤ b) then some (a -ℤ b) else none

-- `i64::saturating_add`
unfoldable pub saturating_add_i64 : ℤ → ℤ → ℤ
saturating_add_i64 a b =
    if fits_i64 (a +ℤ b)
    then a +ℤ b
    else if ltb (pos_part (a +ℤ b)) (2 ^ 63)
    then negsuc (2 ^ 63 - 1)
    else pos (2 ^ 63 - 1)

-- `i64::saturating_sub`
unfoldable pub saturating_sub_i64 : ℤ → ℤ → ℤ
saturating_sub_i64 a b =
    if fits_i64 (a -ℤ b)
    then a -ℤ b
    else if ltb (pos_part (a -ℤ b)) (2 ^ 63)
    then negsuc (2 ^ 63 - 1)
    else pos (2 ^ 63 - 1)

pub +ℤ_parts :
    (a b : ℤ)
    → pos_part (a +ℤ b) + neg_part a + neg_part b ≡ neg_part (a +ℤ b) + pos_part a + pos_part b
unfolding ◌+ℤ◌
+ℤ_parts a b = ground arith

pub -ℤ_parts :
    (a b : ℤ)
    → pos_part (a -ℤ b) + neg_part a + pos_part b ≡ neg_part (a -ℤ b) + pos_part a + neg_part b
unfolding ◌-ℤ◌
-ℤ_parts a b = ground arith

pub eq_of_parts : (a b : ℤ) → pos_part a + neg_part b ≡ pos_part b + neg_part a → a ≡ b
eq_of_parts a b h = ground arith

pub ruleset int_laws = (arith, +ℤ_parts, -ℤ_parts, eq_of_parts)
