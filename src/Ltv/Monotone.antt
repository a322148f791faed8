-- ===== src/Ltv/Monotone.antt =====
-- The required collateral moves the safe way with the debt and with the cap:
-- programs/ydelta/src/state/ltv.rs.
use y_delta.Prelude.{
  ℕ, zero, suc, ◌-◌, ◌*◌, ◌/◌, ◌^◌, ◌<◌, ◌≤◌, ◌≡◌, inl, inr, refl, lt→ltb, sym, ◌∙◌, true, false,
  ok, ok-injective, Bool-cases, ltb, leb, u16_mod, u64_mod, u64_max, arith,
}
use native.Mathlib.Nat.{mul-le-mul_left}
use y_delta.Prelude.Division.{div_mono, div_anti, mul_div_mono}
use y_delta.Math.Uint256.{Uint256}
use y_delta.Math.Rounding.{to_scaled_lem}
use y_delta.Math.Fp48
use y_delta.Math.Fp48.{Fp48}
use y_delta.Ltv.{get_required_quote_collateral_to_back_debt, required_collateral_at_ltv_cap}
use y_delta.Ltv.Required.{
  debt_value, coll_value, rescale, round_up, is_degenerate, required-degenerate, required-eq-ok,
}

debt_value_mono :
    (a b : ℕ) (price weight : Fp48) → a ≤ b → debt_value a price weight ≤ debt_value b price weight
debt_value_mono a b price weight h =
    let x = mul_div_mono (a * 2 ^ 48) (b * 2 ^ 48) price.raw (2 ^ 48) (omega arith) (omega arith) in
    mul_div_mono (a * 2 ^ 48 * price.raw / 2 ^ 48) (b * 2 ^ 48 * price.raw / 2 ^ 48) weight.raw
      (2 ^ 48) (omega arith) x

pow10_pos : (n : ℕ) → 0 < 10 ^ n
pow10_pos zero = omega arith
pow10_pos (suc n) = omega (arith, pow10_pos n)

rescale_mono : (a b dd cd : ℕ) → a ≤ b → rescale a dd cd ≤ rescale b dd cd
rescale_mono a b dd cd h = elim (Bool-cases (leb dd cd)) [
  | inl up ↦ rw up (mul_div_mono a b (10 ^ (cd - dd)) 1 (omega arith) h)
  | inr down ↦ rw down (mul_div_mono a b 1 (10 ^ (dd - cd)) (pow10_pos (dd - cd)) h)
]

round_up_mono : (a b : ℕ) → a ≤ b → round_up a ≤ round_up b
round_up_mono a b h = ground arith

round_up-le : (a : ℕ) → round_up a ≤ u64_max
round_up-le a = ground arith

module _ ⦃w : Uint256⦄ where
  required-le :
      (a : ℕ) (debt_price coll_price liability asset : Fp48) (dd cd : ℕ) {r : ℕ}
      → a < u64_mod
      → get_required_quote_collateral_to_back_debt a debt_price coll_price liability asset dd cd
        ≡ ok r
      → r ≤ u64_max
  required-le a dp cp li aw dd cd {r} fits e = elim (Bool-cases (is_degenerate dp cp li aw)) [
    | inl degenerate ↦
        let r_max = ok-injective (sym e ∙ required-degenerate a dp cp li aw dd cd degenerate) in
        omega (arith, r_max)
    | inr proper ↦
        let (_, r_eq) = required-eq-ok a dp cp li aw dd cd fits proper e in rw r_eq (round_up-le _)
  ]

  -- Less debt against a larger collateral weight never needs more collateral.
  required-safe :
      (a b : ℕ) (debt_price coll_price liability : Fp48) (x y dd cd : ℕ) {r s : ℕ}
      → a ≤ b
      → b < u64_mod
      → x ≤ y
      → get_required_quote_collateral_to_back_debt b debt_price coll_price liability
          (Fp48.from_raw x)
          dd
          cd
        ≡ ok r
      → get_required_quote_collateral_to_back_debt a debt_price coll_price liability
          (Fp48.from_raw y)
          dd
          cd
        ≡ ok s
      → s ≤ r
  required-safe a b dp cp li x y dd cd {r} {s} le fits h e f =
      elim (Bool-cases (is_degenerate dp cp li (Fp48.from_raw x))) [
        | inl degenerate ↦
            let r_max =
              ok-injective
                (sym e ∙ required-degenerate b dp cp li (Fp48.from_raw x) dd cd degenerate) in
            omega (arith, r_max, required-le a dp cp li (Fp48.from_raw y) dd cd (omega arith) f)
        | inr proper ↦
            let proper' : is_degenerate dp cp li (Fp48.from_raw y) ≡ false = ground arith in
            let (nz, r_eq) = required-eq-ok b dp cp li (Fp48.from_raw x) dd cd fits proper e in
            let (nz', s_eq) =
              required-eq-ok a dp cp li (Fp48.from_raw y) dd cd (omega arith) proper' f in
            let values =
              div_mono (cp.raw * x) (cp.raw * y) (2 ^ 48) (omega arith)
                (mul-le-mul_left cp.raw h) in
            let less_debt =
              mul_div_mono (debt_value a dp li) (debt_value b dp li) (2 ^ 48)
                (coll_value cp (Fp48.from_raw y)) (ground (arith, nz'))
                (debt_value_mono a b dp li le) in
            let more_worth =
              div_anti (debt_value b dp li * 2 ^ 48) (coll_value cp (Fp48.from_raw x))
                (coll_value cp (Fp48.from_raw y)) (ground (arith, nz)) values in
            rw (r_eq, s_eq)
              (round_up_mono _ _ (rescale_mono _ _ dd cd (omega (arith, less_debt, more_worth))))
      ]

  cap_weight_mono : (c d : ℕ) → c ≤ d → c * 2 ^ 48 / 10_000 ≤ d * 2 ^ 48 / 10_000
  cap_weight_mono c d h = omega arith

  required_at_cap :
      (a : ℕ) (debt_price coll_price : Fp48) (cap dd cd : ℕ)
      → cap < u16_mod
      → required_collateral_at_ltv_cap a debt_price coll_price cap dd cd
        ≡ get_required_quote_collateral_to_back_debt a debt_price coll_price Fp48.one
            (Fp48.from_raw (cap * 2 ^ 48 / 10_000))
            dd
            cd
  unfolding required_collateral_at_ltv_cap
  required_at_cap a debt_price coll_price cap dd cd h =
      let small : ltb cap (2 ^ 80) ≡ true = lt→ltb _ _ (omega arith) in
      rw (to_scaled_lem cap (omega arith), small) refl

  -- Less debt at a higher cap never needs more collateral, at the same prices and decimals; and a
  -- zero cap needs the largest `u64`.
  pub required_collateral_at_ltv_cap-safe :
      (a b : ℕ) (debt_price coll_price : Fp48) (c d dd cd : ℕ) {r s : ℕ}
      → a ≤ b
      → b < u64_mod
      → c ≤ d
      → d < u16_mod
      → required_collateral_at_ltv_cap b debt_price coll_price c dd cd ≡ ok r
      → required_collateral_at_ltv_cap a debt_price coll_price d dd cd ≡ ok s
      → (s ≤ r) × (c ≡ 0 → r ≡ u64_max)
  required_collateral_at_ltv_cap-safe a b dp cp c d dd cd {r} {s} le fits h d_fits e f =
      let e1 = sym (required_at_cap b dp cp c dd cd (omega arith)) ∙ e in
      let f1 = sym (required_at_cap a dp cp d dd cd d_fits) ∙ f in
      (
        required-safe a b dp cp Fp48.one (c * 2 ^ 48 / 10_000) (d * 2 ^ 48 / 10_000) dd cd le fits
            (cap_weight_mono c d h) e1 f1,
        λ z.
            let no_weight : is_degenerate dp cp Fp48.one (Fp48.from_raw (c * 2 ^ 48 / 10_000))
                ≡ true =
              ground (arith, z) in
            ok-injective (
              sym e1
              ∙ required-degenerate b dp cp Fp48.one (Fp48.from_raw (c * 2 ^ 48 / 10_000)) dd cd
                  no_weight),
      )
