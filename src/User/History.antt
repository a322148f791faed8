-- ===== src/User/History.antt =====
-- The life of a user's account, programs/ydelta/src/state/user_account.rs, from its creation on.
use y_delta.Prelude.{
  ℕ, ◌≡◌, refl, ap, ◌∙◌, subst, none, List, [], ◌∷◌, Result, ok, ok-injective, >>=-eq-ok, ◌>>=◌,
  arith,
}
use y_delta.Loan.{Pubkey}
use y_delta.Order.{DataIndex}
use y_delta.Nodes.Registry.{one_if, blocks, free_blocks, view, hits}
use y_delta.User.Spec.{Registries, registries, UserOp, run, spec}
use y_delta.User.WellFormed.{allocated, IsWellFormed}
use y_delta.User.Refinement.{run-registries}
use y_delta.User.{UserAccount, new_empty}

unfoldable pub run_all : List UserOp → UserAccount → Result UserAccount
run_all [] acc = ok acc
run_all (op ∷ ops) acc = run op acc >>= λ acc'. run_all ops acc'

unfoldable pub spec_all : List UserOp → Registries → Registries
spec_all [] r = r
spec_all (op ∷ ops) r = spec_all ops (spec op r)

abbrev pub empty_registries : Registries
empty_registries = record {
  vaults = λ _. none;
  markets = λ _. none;
  loans = λ _. none;
  orders = λ _. none;
}

run_all-from :
    (ops : List UserOp) (acc : UserAccount) {acc' : UserAccount}
    → IsWellFormed acc
    → run_all ops acc ≡ ok acc'
    → IsWellFormed acc' × (registries acc' ≡ spec_all ops (registries acc))
unfolding run_all spec_all
run_all-from [] acc wf e =
    subst (λ a. IsWellFormed a × (registries a ≡ registries acc)) (ok-injective e) (wf, refl)
run_all-from (op ∷ ops) acc wf e =
    let (next, next_eq, e₁) = >>=-eq-ok (run op acc) _ e in
    let (wf', step) = run-registries op acc wf next_eq in
    let (wf'', rest) = run_all-from ops next wf' e₁ in (wf'', rest ∙ ap (spec_all ops) step)

nothing_allocated : (i : DataIndex) → one_if (allocated 0 i) ≡ 0
nothing_allocated i = ground arith

new_empty-IsWellFormed : (owner : Pubkey) (bump : ℕ) → IsWellFormed (new_empty owner bump)
unfolding hits blocks free_blocks
new_empty-IsWellFormed owner bump = record {
  vaults = record { counted = refl; unique = λ k. omega arith };
  markets = record { counted = refl; unique = λ k. omega arith };
  loans = record { counted = refl; unique = λ k. omega arith };
  orders = record { counted = refl; unique = λ k. omega arith };
  aligned = refl;
  tight = λ i. omega (arith, nothing_allocated i);
}

-- After any sequence of the operations of `UserOp` on a new account, the account is in order and its
-- four trees hold what the same sequence makes of four empty maps.
pub run_all-registries :
    (ops : List UserOp) (owner : Pubkey) (bump : ℕ) {acc : UserAccount}
    → run_all ops (new_empty owner bump) ≡ ok acc
    → IsWellFormed acc × (registries acc ≡ spec_all ops empty_registries)
unfolding view
run_all-registries ops owner bump e =
    run_all-from ops (new_empty owner bump) (new_empty-IsWellFormed owner bump) e
