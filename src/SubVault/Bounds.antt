-- ===== src/SubVault/Bounds.antt =====
-- The invariant of a sub-vault's books, and what accrual may change: `accrue_sub_vault` in
-- programs/ydelta/src/state/vault.rs.
use y_delta.Prelude.{
  ℕ, ◌+◌, ◌-◌, ◌≤◌, ◌≡◌, sym, inl, inr, ok, >>=-eq-ok, ok-injective, Bool-cases, arith, ◌==◌,
}
use y_delta.Prelude.Int.{ℤ, pos, negsuc, pos_part, neg_part, leb_ℤ}
use y_delta.Math.Uint256.{Uint256}
use y_delta.Math.Fp48.{Fp48}
use y_delta.SubVault.{SubVault}
use y_delta.SubVault.Accrue.{
  idle_atoms, idle_delta, apply_idle_delta, loan_yield, apply_loan_yield, grow_index,
  grow_supply_index, grow_indices, set_share_value, restore_assets_principal_invariant,
  elapsed_since, accrue_yield, accrue_sub_vault,
}

-- The assets cover the principal, and the principal covers what is lent out or not yet swept.
pub record IsValid (v : SubVault) : Type 0 where
  pub backed : v.total_principal_atoms ≤ v.total_assets_atoms
  pub covered : v.deployed_principal_atoms + v.pending_claim_atoms ≤ v.total_principal_atoms

-- What a step of accrual may do to a sub-vault: yield indices only grow, and shares and the amounts
-- that loans account for stay.
pub record Grows (v v' : SubVault) : Type 0 where
  pub supply : v.cumulative_supply_yield_index_scaled ≤ v'.cumulative_supply_yield_index_scaled
  pub loans : v.cumulative_delta_yield_index_scaled ≤ v'.cumulative_delta_yield_index_scaled
  pub shares : v'.total_shares ≡ v.total_shares
  pub deployed : v'.deployed_principal_atoms ≡ v.deployed_principal_atoms
  pub pending : v'.pending_claim_atoms ≡ v.pending_claim_atoms
  pub encumbered : v'.encumbered_in_orders_atoms ≡ v.encumbered_in_orders_atoms
  pub gross_rates : v'.total_weighted_rate_bps ≡ v.total_weighted_rate_bps
  pub rates : v'.total_weighted_net_rate_bps ≡ v.total_weighted_net_rate_bps

-- The books after an idle gain or loss and a loan yield.
abbrev pub Booked : SubVault → ℤ → ℕ → SubVault → Type 0
Booked v d y v' =
    (v'.total_principal_atoms ≡ v.total_principal_atoms + pos_part d - neg_part d)
    × (v'.total_assets_atoms ≡ v.total_assets_atoms + pos_part d - neg_part d + y)
    × Grows v v'

pub idle_atoms-eq-ok :
    (v : SubVault) {i : ℕ}
    → idle_atoms v ≡ ok i
    → i + v.deployed_principal_atoms + v.pending_claim_atoms ≡ v.total_principal_atoms
unfolding idle_atoms
idle_atoms-eq-ok v e = ground arith

pub apply_idle_delta-Booked :
    (v : SubVault) (d : ℤ) {v' : SubVault} → apply_idle_delta v d ≡ ok v' → Booked v d 0 v'
unfolding apply_idle_delta
apply_idle_delta-Booked v (pos d) e = ground arith
apply_idle_delta-Booked v (negsuc d) e = ground arith

pub apply_loan_yield-Booked :
    (v : SubVault) (y : ℕ) {v' : SubVault} → apply_loan_yield v y ≡ ok v' → Booked v (pos 0) y v'
unfolding apply_loan_yield
apply_loan_yield-Booked v y e = ground arith

pub finish-Grows :
    (v : SubVault) (now : ℤ) (current : Fp48)
    → Grows v (set_share_value (record v { last_accrue_unix = now }) current)
finish-Grows v now current = ground arith

module _ ⦃w : Uint256⦄ where
  -- A loss is at most what was idle.
  pub idle_delta-bound :
      (v : SubVault) (idle : ℕ) (current : Fp48) {d : ℤ}
      → idle_delta v idle current ≡ ok d
      → neg_part d ≤ idle
  unfolding idle_delta
  idle_delta-bound v idle current e = ground arith

  grow_index-le :
      (index amount shares : ℕ) {r : ℕ} → grow_index index amount shares ≡ ok r → index ≤ r
  unfolding grow_index
  grow_index-le index amount shares e = ground arith

  grow_supply_index-le :
      (v : SubVault) (d : ℤ) {r : ℕ}
      → grow_supply_index v d ≡ ok r
      → v.cumulative_supply_yield_index_scaled ≤ r
  unfolding grow_supply_index
  grow_supply_index-le v (negsuc n) e = ground arith
  grow_supply_index-le v (pos d) {r} e =
      ground (arith, grow_index-le v.cumulative_supply_yield_index_scaled d v.total_shares {r = r})

  pub grow_indices-Booked :
      (v : SubVault) (d : ℤ) (y : ℕ) {v' : SubVault}
      → grow_indices v d y ≡ ok v'
      → Booked v (pos 0) 0 v'
  unfolding grow_indices
  grow_indices-Booked v d y {v'} e = grind (arith, grow_supply_index-le, grow_index-le)

  pub restore-keeps :
      (v : SubVault)
      → Grows v (restore_assets_principal_invariant v)
        × ((restore_assets_principal_invariant v).total_principal_atoms ≡ v.total_principal_atoms)
        × (v.total_principal_atoms ≤ (restore_assets_principal_invariant v).total_assets_atoms)
  unfolding restore_assets_principal_invariant
  restore-keeps v = (ground arith, ground arith, ground arith)

  -- The values that a successful pass went through.
  pub record Pass (v : SubVault) (now : ℤ) (current : Fp48) (v' : SubVault) : Type 0 where
    pub idle : ℕ
    pub delta : ℤ
    pub yield : ℕ
    pub a : SubVault
    pub b : SubVault
    pub c : SubVault
    pub idle_eq : idle_atoms v ≡ ok idle
    pub delta_eq : idle_delta v idle current ≡ ok delta
    pub a_eq : apply_idle_delta v delta ≡ ok a
    pub b_eq : apply_loan_yield a yield ≡ ok b
    pub c_eq : grow_indices b delta yield ≡ ok c
    pub end_eq :
        v'
        ≡ restore_assets_principal_invariant
            (set_share_value (record c { last_accrue_unix = now }) current)

  pub accrue_yield-Pass :
      (v : SubVault) (now : ℤ) (current : Fp48) {v' : SubVault}
      → accrue_yield v now current ≡ ok v'
      → Pass v now current v'
  unfolding accrue_yield
  accrue_yield-Pass v now current e =
      let (t, _, e1) = >>=-eq-ok (elapsed_since now v.last_accrue_unix) _ e in
      let (i, i_eq, e2) = >>=-eq-ok (idle_atoms v) _ e1 in
      let (d, d_eq, e3) = >>=-eq-ok (idle_delta v i current) _ e2 in
      let (y, y_eq, e4) = >>=-eq-ok (loan_yield v t) _ e3 in
      let (a, a_eq, e5) = >>=-eq-ok (apply_idle_delta v d) _ e4 in
      let (b, b_eq, e6) = >>=-eq-ok (apply_loan_yield a y) _ e5 in
      let (c, c_eq, e7) = >>=-eq-ok (grow_indices b d y) _ e6 in
      record {
        idle = i;
        delta = d;
        yield = y;
        a = a;
        b = b;
        c = c;
        idle_eq = i_eq;
        delta_eq = d_eq;
        a_eq = a_eq;
        b_eq = b_eq;
        c_eq = c_eq;
        end_eq = sym (ok-injective e7);
      }

  -- A pass keeps the invariant, and leaves alone what it must.
  accrue_yield-IsValid :
      (v : SubVault) (now : ℤ) (current : Fp48) {v' : SubVault}
      → accrue_yield v now current ≡ ok v'
      → IsValid v
      → IsValid v' × Grows v v'
  accrue_yield-IsValid v now current e valid =
      let p = accrue_yield-Pass v now current e in
      let f = set_share_value (record (p.c) { last_accrue_unix = now }) current in
      rw (p.end_eq) (
        ground (
          arith,
          idle_atoms-eq-ok v p.idle_eq,
          idle_delta-bound v p.idle current p.delta_eq,
          apply_idle_delta-Booked v p.delta p.a_eq,
          apply_loan_yield-Booked p.a p.yield p.b_eq,
          grow_indices-Booked p.b p.delta p.yield p.c_eq,
          finish-Grows p.c now current,
          restore-keeps f,
        ))

  -- A successful accrual keeps the books valid; it never lowers a yield index, and leaves the
  -- shares, the deployed, pending and encumbered amounts and both weighted rates as they were.
  pub accrue_sub_vault-IsValid :
      (v : SubVault) (now : ℤ) (current : Fp48) {v' : SubVault}
      → accrue_sub_vault v now current ≡ ok v'
      → IsValid v
      → IsValid v' × Grows v v'
  unfolding accrue_sub_vault
  accrue_sub_vault-IsValid v now current {v'} e valid =
      elim (Bool-cases (leb_ℤ now v.last_accrue_unix)) [
        | inl early ↦ ground arith
        | inr late ↦ elim (Bool-cases (v.total_principal_atoms == 0)) [
          | inl none_left ↦ ground (arith, finish-Grows v now current)
          | inr some_left ↦
              accrue_yield-IsValid v now current {v' = v'} (rw (late, some_left) at e) valid
        ]
      ]
