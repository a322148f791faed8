-- ===== src/User/Tests.antt =====
-- A run of the operations on a user's account, programs/ydelta/src/state/user_account.rs.
use y_delta.Prelude.{◌≡◌, refl, List, [], ◌∷◌, ok}
use y_delta.Prelude.Int.{pos}
use y_delta.Nodes.{lookup_index, insert_absent, remove_by_index, remove_present}
use y_delta.User.Spec.{registries, UserOp, run}
use y_delta.User.WellFormed.{IsWellFormed}
use y_delta.User.History.{run_all, spec_all, empty_registries, run_all-registries}
use y_delta.User.Progress.{run-succeeds}
use y_delta.User.{
  UserAccount, UserLoanRef, UserOrderRef, new_empty, borrower, global_vault, loan_ref_of,
  empty_vault_position, insert_user_order, remove_user_order, upsert_vault_position,
  insert_open_loan, user_account_expand, remove_open_loan,
}

abbrev order : UserOrderRef
order = record {
  market = 7;
  order_sequence = 41;
  principal_atoms = 500;
  placed_at_unix = pos 1_000;
  term_seconds = 2_592_000;
  rate_bps = 700;
  side = 0;
}

abbrev loan : UserLoanRef
loan = loan_ref_of 77 7 borrower global_vault 3 500 700 (pos 1_000) (pos 2_593_000)

-- Two blocks, a bid, the loan that it becomes and a deposit in the bid's block.
abbrev life : List UserOp
life =
    UserOp.grows
    ∷ UserOp.grows
    ∷ UserOp.order_rests order
    ∷ UserOp.loan_opens loan
    ∷ UserOp.order_ends 7 41
    ∷ UserOp.vault_opens 9 3
    ∷ []

abbrev account : UserAccount
account = record (new_empty 5 254) {
  vault_positions = (160, empty_vault_position 9 3) ∷ [];
  open_loans = (0, loan) ∷ [];
  num_bytes_allocated = 320;
  vault_position_count = 1;
  open_loan_count = 1;
}

lives : run_all life (new_empty 5 254) ≡ ok account
unfolding run_all run user_account_expand insert_user_order insert_open_loan remove_user_order
    upsert_vault_position insert_absent lookup_index remove_present remove_by_index
lives = refl

run_all-registries_example :
    IsWellFormed account × (registries account ≡ spec_all life empty_registries)
run_all-registries_example = run_all-registries life 5 254 lives

abbrev repaid : UserAccount
repaid = record account { open_loans = []; free_list = 0 ∷ []; open_loan_count = 0 }

repays : run (UserOp.loan_closes 77) account ≡ ok repaid
unfolding run remove_open_loan lookup_index remove_present remove_by_index
repays = refl

run-succeeds_example : (acc' : UserAccount) × (run (UserOp.loan_closes 77) account ≡ ok acc')
run-succeeds_example = run-succeeds (UserOp.loan_closes 77) account run_all-registries_example.0 tt
