-- ===== src/Market/Scan.antt =====
-- The walk down the asks that `match_order` and `match_p2pool_residual_against_asks` in
-- programs/ydelta/src/state/market_helpers.rs have as their loop, on fuel, and that the fuel is enough.
use y_delta.Prelude.{
  ℕ, zero, suc, ◌≤◌, ◌≡◌, ◌≢◌, ◌⊎◌, refl, ap, ◌∙◌, subst, Bool, true, false, Option, none, some,
  Option-cases, Result, ok, err, >>=-eq-ok, ◌>>=◌, Bool-cases, inl, inr, arith,
}
use y_delta.Order.{DataIndex, RestingOrder}
use y_delta.Market.{Asks}
use y_delta.Market.Engine.{Fill, Verdict, skip, stop, take}

Verdict-cases : (v : Verdict) → (v ≡ skip) ⊎ (v ≡ stop) ⊎ ((f : Fill) × (v ≡ take f))
Verdict-cases skip = inl refl
Verdict-cases stop = inr (inl refl)
Verdict-cases (take f) = inr (inr (f, refl))

-- The fuel that a walk from an index needs.
abbrev pub fuel_for : Asks → Option DataIndex → ℕ
fuel_for asks none = 0
fuel_for asks (some i) = suc (asks.rank i)

fuel_next : (asks : Asks) (i : DataIndex) → fuel_for asks (asks.next_lower_index i) ≤ asks.rank i
fuel_next asks i = elim (Option-cases (asks.next_lower_index i)) [
  | inl last ↦ rw last (omega arith)
  | inr (j, below) ↦ rw below (asks.next_lower_lem i j below)
]

-- What the loop does in the state S: when it is done, how it screens a maker and how it fills.
module _ {S : Type 0} (asks : Asks) (is_done : S → Bool)
    (screening : RestingOrder → S → Result Verdict)
    (filling : RestingOrder → S → Fill → Result S) where
  found : S → Result (Option S) → S
  found s (ok (some t)) = t
  found s (ok none) = s
  found s (err e) = s

  found_injective : {a b : S} → ok (some a) ≡ ok (some b) → a ≡ b
  unfolding found
  found_injective {a} e = ap (found a) e

  -- `while remaining_principal > 0 && is_not_nil!(current_maker_index)`. No fuel is left when the
  -- result is `none`.
  unfoldable pub scan_asks : ℕ → Option DataIndex → S → Result (Option S)
  scan_asks n none s = ok (some s)
  scan_asks zero (some i) s = ok none
  scan_asks (suc n) (some i) s = elim (is_done s) [
    | true ↦ ok (some s)
    | false ↦ screening (asks.order_at i) s >>= λ v. elim v [
      | skip ↦ scan_asks n (asks.next_lower_index i) s
      | stop ↦ ok (some s)
      | take f ↦ filling (asks.order_at i) s f >>= λ s'. scan_asks n (asks.next_lower_index i) s'
    ]
  ]

  -- The walk from the best ask.
  abbrev pub scan_from_best : S → Result (Option S)
  scan_from_best s = scan_asks (fuel_for asks asks.best_index) asks.best_index s

  pub scan_asks-ends :
      (n : ℕ) (cur : Option DataIndex) (s : S) → fuel_for asks cur ≤ n → scan_asks n cur s ≢ ok none
  unfolding scan_asks
  scan_asks-ends n none s h e = cc
  scan_asks-ends zero (some i) s h e = absurd (omega arith)
  scan_asks-ends (suc n) (some i) s h e = elim (Bool-cases (is_done s)) [
    | inl done ↦ let e0 : ok (some s) ≡ ok none = rw (scan_asks, done) at e in cc
    | inr more ↦
        let next = fuel_next asks i in
        let (v, _, e1) =
          >>=-eq-ok (screening (asks.order_at i) s) _ {b = none} (rw (scan_asks, more) at e) in
        elim (Verdict-cases v) [
          | inl skips ↦
              scan_asks-ends n (asks.next_lower_index i) s (omega (arith, next)) (rw skips at e1)
          | inr (inl stops) ↦ let e0 : ok (some s) ≡ ok none = rw stops at e1 in cc
          | inr (inr (f, takes)) ↦
              let (s₁, _, e2) =
                >>=-eq-ok (filling (asks.order_at i) s f) _ {b = none} (rw takes at e1) in
              scan_asks-ends n (asks.next_lower_index i) s₁ (omega (arith, next)) e2
        ]
  ]

  -- What every fill of the loop keeps holds at its end.
  pub scan_asks-keeps :
      (P : S → Type 0)
      → ((i : DataIndex) (f : Fill) (s s' : S)
          → P s
          → is_done s ≡ false
          → screening (asks.order_at i) s ≡ ok (take f)
          → filling (asks.order_at i) s f ≡ ok s'
          → P s')
      → (n : ℕ) (cur : Option DataIndex) (s s' : S) → P s
      → scan_asks n cur s ≡ ok (some s')
      → P s'
  unfolding scan_asks
  scan_asks-keeps P keeps n none s s' p e = subst P (found_injective e) p
  scan_asks-keeps P keeps zero (some i) s s' p e = let e0 : ok none ≡ ok (some s') = e in cc
  scan_asks-keeps P keeps (suc n) (some i) s s' p e = elim (Bool-cases (is_done s)) [
    | inl done ↦ subst P (found_injective {a = s} (rw (scan_asks, done) at e)) p
    | inr more ↦
        let next = asks.next_lower_index i in
        let (v, v_eq, e1) =
          >>=-eq-ok (screening (asks.order_at i) s) _ {b = some s'} (rw (scan_asks, more) at e) in
        elim (Verdict-cases v) [
          | inl skips ↦ scan_asks-keeps P keeps n next s s' p (rw skips at e1)
          | inr (inl stops) ↦ subst P (found_injective {a = s} (rw stops at e1)) p
          | inr (inr (f, takes)) ↦
              let (s₁, filled, e2) =
                >>=-eq-ok (filling (asks.order_at i) s f) _ {b = some s'} (rw takes at e1) in
              let p₁ = keeps i f s s₁ p more (v_eq ∙ ap ok takes) filled in
              scan_asks-keeps P keeps n next s₁ s' p₁ e2
        ]
  ]
