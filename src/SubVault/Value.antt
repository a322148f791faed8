-- ===== src/SubVault/Value.antt =====
-- What accrual adds to a sub-vault, against exact arithmetic: `accrue_sub_vault` in
-- programs/ydelta/src/state/vault.rs.
use y_delta.Prelude.{
  ℕ, ◌+◌, ◌-◌, ◌*◌, ◌/◌, ◌≡◌, ◌≢◌, sym, ◌∙◌, subst, true, false, inl, inr, ok, Bool-cases,
  Result-cases, arith, ◌==◌, ne→==,
}
use y_delta.Prelude.Int.{ℤ, pos, pos_part, neg_part, ◌≤ℤ◌, ◌<ℤ◌, leb_ℤ}
use native.Mathlib.Nat.{zero-div}
use y_delta.Math.Uint256.{Uint256}
use y_delta.Math.Fp48.{Fp48}
use y_delta.Math.Scale.{mul_div}
use y_delta.Math.Exact.{mul_div-eq-ok}
use y_delta.SubVault.{SubVault}
use y_delta.SubVault.Accrue.{
  idle_delta, set_share_value, restore_assets_principal_invariant, accrue_yield, accrue_sub_vault,
}
use y_delta.SubVault.Bounds.{
  accrue_yield-Pass, Booked, idle_atoms-eq-ok, idle_delta-bound, apply_idle_delta-Booked,
  apply_loan_yield-Booked, grow_indices-Booked,
}

principal_after :
    (v a b c : SubVault) (d : ℤ) (y : ℕ)
    → Booked v d 0 a
    → Booked a (pos 0) y b
    → Booked b (pos 0) 0 c
    → c.total_principal_atoms ≡ v.total_principal_atoms + pos_part d - neg_part d
principal_after v a b c d y p q r = omega (arith, p.0, q.0, r.0)

module _ ⦃w : Uint256⦄ where
  idle_delta-exact :
      (v : SubVault) (idle : ℕ) (current : Fp48) {d : ℤ}
      → current.raw ≢ 0
      → v.last_supply_share_value_fp48.raw ≢ 0
      → idle_delta v idle current ≡ ok d
      → pos_part d + idle ≡ neg_part d + idle * current.raw / v.last_supply_share_value_fp48.raw
  unfolding idle_delta
  idle_delta-exact v idle current c s e =
      elim (Result-cases (mul_div idle current.raw v.last_supply_share_value_fp48.raw false)) [
        | inr (x, f) ↦ ground arith
        | inl (r, f) ↦ ground (
          arith,
          mul_div-eq-ok idle current.raw v.last_supply_share_value_fp48.raw {r = r},
          zero-div v.last_supply_share_value_fp48.raw,
        )
      ]

  finish_marks :
      (c : SubVault) (now : ℤ) (current : Fp48)
      → current.raw ≢ 0
      → let v =
          restore_assets_principal_invariant
            (set_share_value (record c { last_accrue_unix = now }) current) in
        (v.last_accrue_unix ≡ now)
        × (v.last_supply_share_value_fp48 ≡ current)
        × (v.total_principal_atoms ≡ c.total_principal_atoms)
  unfolding restore_assets_principal_invariant
  finish_marks c now current h = (ground arith, ground arith, ground arith)

  early_call :
      (v : SubVault) (now : ℤ) (current : Fp48)
      → now ≤ℤ v.last_accrue_unix
      → accrue_sub_vault v now current ≡ ok v
  unfolding accrue_sub_vault
  early_call v now current h =
      let early : leb_ℤ now v.last_accrue_unix ≡ true = ground arith in rw early

  -- A call that is not early, on a vault with principal, is a pass.
  late_pass :
      (v : SubVault) (now : ℤ) (current : Fp48)
      → v.last_accrue_unix <ℤ now
      → v.total_principal_atoms ≢ 0
      → accrue_sub_vault v now current ≡ accrue_yield v now current
  unfolding accrue_sub_vault
  late_pass v now current later p =
      let late : leb_ℤ now v.last_accrue_unix ≡ false = ground arith in rw (late, ne→== _ _ p)

  -- With a share value known before and now, a pass that is not early changes the principal by the
  -- revaluation of the idle atoms, rounded down, and marks the vault as accrued at that time and
  -- share value.
  pub accrue_sub_vault-revalues :
      (v : SubVault) (now : ℤ) (current : Fp48) (idle : ℕ) {v' : SubVault}
      → v.last_accrue_unix <ℤ now
      → v.total_principal_atoms ≢ 0
      → current.raw ≢ 0
      → v.last_supply_share_value_fp48.raw ≢ 0
      → idle + v.deployed_principal_atoms + v.pending_claim_atoms ≡ v.total_principal_atoms
      → accrue_sub_vault v now current ≡ ok v'
      → (v'.total_principal_atoms + idle
          ≡ v.total_principal_atoms + idle * current.raw / v.last_supply_share_value_fp48.raw)
        × (v'.last_accrue_unix ≡ now)
        × (v'.last_supply_share_value_fp48 ≡ current)
  accrue_sub_vault-revalues v now current idle later p c s sum e =
      let q = accrue_yield-Pass v now current (sym (late_pass v now current later p) ∙ e) in
      let (last, snapshot, kept) = finish_marks q.c now current c in
      let same : q.idle ≡ idle = omega (arith, idle_atoms-eq-ok v q.idle_eq) in
      let exact = idle_delta-exact v q.idle current c s q.delta_eq in
      let bound = idle_delta-bound v q.idle current q.delta_eq in
      let in_idle = idle_atoms-eq-ok v q.idle_eq in
      let principal =
        principal_after v (q.a) (q.b) (q.c) q.delta q.yield
          (apply_idle_delta-Booked v q.delta q.a_eq) (apply_loan_yield-Booked q.a q.yield q.b_eq)
          (grow_indices-Booked q.b q.delta q.yield q.c_eq) in
      let exact' =
        subst
          (λ (i : ℕ).
            pos_part q.delta + i
            ≡ neg_part q.delta + i * current.raw / v.last_supply_share_value_fp48.raw)
          same exact in
      rw q.end_eq (rw kept (omega arith), last, snapshot)

  finish_last :
      (c : SubVault) (now : ℤ) (current : Fp48)
      → (restore_assets_principal_invariant
          (set_share_value (record c { last_accrue_unix = now }) current)).last_accrue_unix
        ≡ now
  unfolding restore_assets_principal_invariant
  finish_last c now current = ground arith

  accrue_sub_vault-last :
      (v : SubVault) (now : ℤ) (current : Fp48) {v' : SubVault}
      → accrue_sub_vault v now current ≡ ok v'
      → now ≤ℤ v'.last_accrue_unix
  unfolding accrue_sub_vault
  accrue_sub_vault-last v now current {v'} e = elim (Bool-cases (leb_ℤ now v.last_accrue_unix)) [
    | inl early ↦ ground arith
    | inr late ↦ elim (Bool-cases (v.total_principal_atoms == 0)) [
      | inl none_left ↦ ground arith
      | inr some_left ↦
          let q = accrue_yield-Pass v now current {v' = v'} (rw (late, some_left) at e) in
          let last = finish_last q.c now current in rw (q.end_eq, last) (omega arith)
    ]
  ]

  -- A second pass at the same time, at whatever share value, changes nothing.
  pub accrue_sub_vault-accrue_sub_vault :
      (v : SubVault) (now : ℤ) (current current' : Fp48) {v' : SubVault}
      → accrue_sub_vault v now current ≡ ok v'
      → accrue_sub_vault v' now current' ≡ ok v'
  accrue_sub_vault-accrue_sub_vault v now current current' {v'} e =
      early_call v' now current' (accrue_sub_vault-last v now current e)
