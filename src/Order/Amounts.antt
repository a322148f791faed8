-- ===== src/Order/Amounts.antt =====
-- The principal and the expiry of a resting order: programs/ydelta/src/state/resting_order.rs and
-- utils.rs.
use y_delta.Prelude.{ℕ, ◌+◌, ◌-◌, ◌<◌, ◌≤◌, ◌≡◌, ◌↔◌, refl, lt→ltb, false, ok, u64_mod, arith}
use y_delta.Prelude.Int.{ℤ}
use y_delta.Order.{RestingOrder, reduce, increase, is_expired, assert_not_already_expired}

-- Taking atoms off an order and putting them back restores it, for an order whose principal fits a
-- `u64` and covers the atoms.
pub increase-reduce :
    (o : RestingOrder) (atoms : ℕ)
    → o.principal_atoms < u64_mod
    → atoms ≤ o.principal_atoms
    → (r : RestingOrder) × (reduce o atoms ≡ ok r) × (increase r atoms ≡ ok o)
unfolding reduce increase
increase-reduce o atoms fits le =
    let back : o.principal_atoms - atoms + atoms ≡ o.principal_atoms = omega arith in
    (
      record o { principal_atoms = o.principal_atoms - atoms },
      ground arith,
      rw (back, lt→ltb _ _ fits) refl,
    )

-- The gate at placement refuses exactly the orders that a later scan would skip as expired.
pub assert_not_already_expired-is_expired :
    (o : RestingOrder) (now : ℤ)
    → (assert_not_already_expired o.last_valid_unix_ts now ≡ ok tt) ↔ (is_expired o now ≡ false)
unfolding assert_not_already_expired is_expired
assert_not_already_expired-is_expired o now = (λ e. ground arith, λ e. ground arith)
