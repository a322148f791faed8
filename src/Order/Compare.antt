-- ===== src/Order/Compare.antt =====
-- The order of a market's two trees, `impl Ord for RestingOrder` in
-- programs/ydelta/src/state/resting_order.rs.
use Prim.Native.Nat.{Ordering}
use y_delta.Prelude.{◌<◌, ◌≡◌, ◌↔◌, ◌⊎◌, true, arith}
use y_delta.Order.{RestingOrder, Side, bid, ask, side_u8, rate_cmp, cmp, eq}

-- The better rate: a borrower who pays more, a lender who asks less.
abbrev pub Outbids : Side → RestingOrder → RestingOrder → Type 0
Outbids bid a b = b.rate_bps < a.rate_bps
Outbids ask a b = a.rate_bps < b.rate_bps

-- Price-time priority.
abbrev pub HasPriority : Side → RestingOrder → RestingOrder → Type 0
HasPriority s a b =
    Outbids s a b ⊎ ((a.rate_bps ≡ b.rate_bps) × (a.sequence_number < b.sequence_number))

-- In a tree of one side, an order is greater than another exactly when it has price-time priority:
-- the better rate for that side, or the same rate and the earlier sequence number.
pub cmp-HasPriority :
    (s : Side) (a b : RestingOrder)
    → a.side ≡ side_u8 s
    → (cmp a b ≡ Ordering.gt) ↔ HasPriority s a b
unfolding cmp rate_cmp
cmp-HasPriority bid a b h = (λ e. ground arith, λ p. ground arith)
cmp-HasPriority ask a b h = (λ e. ground arith, λ p. ground arith)

-- Within one side, exactly one of three holds: the first order is greater, the second is, or the two
-- are equal under `PartialEq`.
pub cmp-trichotomy :
    (s : Side) (a b : RestingOrder)
    → a.side ≡ side_u8 s
    → b.side ≡ side_u8 s
    → ((cmp a b ≡ Ordering.gt) × (cmp b a ≡ Ordering.lt))
      ⊎ ((cmp a b ≡ Ordering.lt) × (cmp b a ≡ Ordering.gt))
      ⊎ ((cmp a b ≡ Ordering.eq) × (cmp b a ≡ Ordering.eq) × (eq a b ≡ true))
unfolding cmp rate_cmp eq
cmp-trichotomy bid a b h k = ground arith
cmp-trichotomy ask a b h k = ground arith

HasPriority-trans :
    (s : Side) (a b c : RestingOrder) → HasPriority s a b → HasPriority s b c → HasPriority s a c
HasPriority-trans bid a b c p q = ground arith
HasPriority-trans ask a b c p q = ground arith

-- Within one side, being greater is transitive.
pub cmp_trans :
    (s : Side) (a b c : RestingOrder)
    → a.side ≡ side_u8 s
    → b.side ≡ side_u8 s
    → cmp a b ≡ Ordering.gt
    → cmp b c ≡ Ordering.gt
    → cmp a c ≡ Ordering.gt
cmp_trans s a b c h k p q =
    (cmp-HasPriority s a c h).1
      (HasPriority-trans s a b c ((cmp-HasPriority s a b h).0 p) ((cmp-HasPriority s b c k).0 q))
