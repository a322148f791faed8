-- ===== src/Order/Tests.antt =====
-- Runs of the order functions at concrete orders, and the theorems there.
use Prim.Native.Nat.{Ordering}
use y_delta.Prelude.{ℕ, ◌≡◌, ◌↔◌, refl, false, ok, arith}
use y_delta.Prelude.Int.{pos}
use y_delta.Math.Fp48
use y_delta.Order.{
  RestingOrder, Side, bid, ask, limit, new_primary, reduce, increase, is_expired, rate_cmp, cmp,
  assert_not_already_expired,
}
use y_delta.Order.Compare.{HasPriority, cmp-HasPriority, cmp_trans}
use y_delta.Order.Amounts.{increase-reduce, assert_not_already_expired-is_expired}

abbrev order : Side → ℕ → ℕ → RestingOrder
order side rate sequence = new_primary 0 sequence side limit rate 30 100 0 (pos 50) 0 0 Fp48.one

cheap_ask : cmp (order ask 600 0) (order ask 800 1) ≡ Ordering.gt
unfolding cmp rate_cmp
cheap_ask = refl

first_bid : cmp (order bid 700 0) (order bid 700 1) ≡ Ordering.gt
unfolding cmp rate_cmp
first_bid = refl

cmp-HasPriority_example :
    (cmp (order ask 600 0) (order ask 800 1) ≡ Ordering.gt)
    ↔ HasPriority ask (order ask 600 0) (order ask 800 1)
cmp-HasPriority_example = cmp-HasPriority ask (order ask 600 0) (order ask 800 1) refl

cmp_trans_example : cmp (order bid 900 3) (order bid 700 1) ≡ Ordering.gt
unfolding cmp rate_cmp
cmp_trans_example =
    cmp_trans bid (order bid 900 3) (order bid 700 0) (order bid 700 1) refl refl refl refl

increase-reduce_example :
    (r : RestingOrder) × (reduce (order ask 600 0) 40 ≡ ok r)
    × (increase r 40 ≡ ok (order ask 600 0))
increase-reduce_example = increase-reduce (order ask 600 0) 40 (omega arith) (omega arith)

assert_not_already_expired-is_expired_example :
    (assert_not_already_expired (pos 50) (pos 51) ≡ ok tt)
    ↔ (is_expired (order ask 600 0) (pos 51) ≡ false)
assert_not_already_expired-is_expired_example =
    assert_not_already_expired-is_expired (order ask 600 0) (pos 51)
