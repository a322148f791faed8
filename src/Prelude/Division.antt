-- ===== src/Prelude/Division.antt =====
-- Laws of division on the native numbers that the components share.
use Prim.Native.Nat.{ℕ, ◌+◌, ◌-◌, ◌*◌, ◌/◌, ◌≤◌, ◌<◌}
use mathlib.Core.Path.{◌≡◌, sym, ap, ◌∙◌}
use native.Mathlib.Omega.{arith}
use native.Mathlib.Nat.{
  div-mul-le_self, mul-le-mul_left, mul-le-mul_right, le_of_mul-le-mul_right, le-div_iff_mul-le,
  mul-add, add-mul,
}

-- Pro rata parts of r, of shares a and b of n, do not exceed r.
pub slices_le : (a b r n : ℕ) → 0 < n → a + b ≤ n → a * r / n + b * r / n ≤ r
slices_le a b r n pos h =
    let x = div-mul-le_self (a * r) n in
    let y = div-mul-le_self (b * r) n in
    let z : (a + b) * r ≤ n * r = mul-le-mul_right r h in
    le_of_mul-le-mul_right {k = n} (omega (arith, x, y, z)) pos

-- A pro rata part of a whole r that is at most n does not exceed the share.
pub slice_le : (a r n : ℕ) → 0 < n → r ≤ n → a * r / n ≤ a
slice_le a r n pos h =
    let x = div-mul-le_self (a * r) n in
    let y : r * a ≤ n * a = mul-le-mul_right a h in
    le_of_mul-le-mul_right {k = n} (omega (arith, x, y)) pos

-- Division keeps the order.
pub div_mono : (a b n : ℕ) → 0 < n → a ≤ b → a / n ≤ b / n
div_mono a b n pos h =
    (le-div_iff_mul-le {k = n} {x = a / n} {y = b} pos).1 (omega (arith, div-mul-le_self a n))

-- Taking b of s shares and o of p atoms away, at most pro rata, keeps the atoms per share.
pub rest_price : (p s b o : ℕ) → b ≤ s → o ≤ p → o * s ≤ b * p → p * (s - b) ≤ (p - o) * s
rest_price p s b o b_le o_le h =
    let left : p * (s - b) + p * b ≡ p * s =
      sym (mul-add p (s - b) b) ∙ ap (λ x. p * x) (omega arith) in
    let right : (p - o) * s + o * s ≡ p * s =
      sym (add-mul (p - o) o s) ∙ ap (λ x. x * s) (omega arith) in
    omega (arith, left, right, h)

-- Dividing by more gives no more.
pub div_anti : (n a b : ℕ) → 0 < a → a ≤ b → n / b ≤ n / a
div_anti n a b pos h =
    let x = div-mul-le_self n b in
    let y : n / b * a ≤ n / b * b = mul-le-mul_left (n / b) h in
    (le-div_iff_mul-le {k = a} {x = n / b} {y = n} pos).1 (omega (arith, x, y))

-- Rounded multiples keep the order.
pub mul_div_mono : (a b k n : ℕ) → 0 < n → a ≤ b → a * k / n ≤ b * k / n
mul_div_mono a b k n pos h = div_mono (a * k) (b * k) n pos (mul-le-mul_right k h)
