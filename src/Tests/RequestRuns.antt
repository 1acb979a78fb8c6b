-- ===== src/Tests/RequestRuns.antt =====
-- The theorems on withdrawals, at the runs.
use apna_mandla.Prelude.{ℕ, ◌≡◌, ◌≢◌, refl, none, some, arith, inl}
use apna_mandla.Prelude.Int.{pos}
use apna_mandla.Schema.{rejected, WithdrawalRequest}
use apna_mandla.Session.{err, http_exception}
use apna_mandla.Ledger.{platform_user_id}
use apna_mandla.Ledger.Effects.{balance_of}
use apna_mandla.Withdrawal.{approve_withdrawal, reject_withdrawal}
use apna_mandla.Withdrawal.Lookup.{Decided}
use apna_mandla.Withdrawal.Decisions.{Returned, reject_withdrawal_lem, decided_once}
use apna_mandla.Withdrawal.RoundTrip.{withdrawal_round_trip}
use apna_mandla.Tests.State.{test_env, after}
use apna_mandla.Tests.Calls.{
  entry, paid_db, escrow, escrow_db, requested, request_1, approval, rejection,
}
use apna_mandla.Tests.Runs.{runs}
use apna_mandla.Tests.ValidStates.{paid_db-IsValid, escrow_db-IsValid}

abbrev payee : ℕ
payee = 8

not_platform : payee ≢ platform_user_id
not_platform = λ p. absurd (omega arith)

reject_withdrawal_lem_example :
    (r : WithdrawalRequest) × Decided 1 rejected r requested (after requested rejection)
    × Returned r requested (after requested rejection)
reject_withdrawal_lem_example =
    reject_withdrawal_lem test_env 1 9 (some "no") requested (after requested rejection)
      escrow_db-IsValid runs.rejection_ok

decided_once_example :
    (approve_withdrawal test_env 1 10 (after requested approval) ≡ err (http_exception 400))
    × (reject_withdrawal test_env 1 none 10 (after requested approval) ≡ err (http_exception 400))
decided_once_example =
    decided_once test_env 1 9 10 (some "no") none requested (after requested approval)
      escrow_db-IsValid (inl runs.approval_ok)

withdrawal_round_trip_example :
    balance_of 8 (after requested rejection).books ≡ balance_of 8 paid_db.books
withdrawal_round_trip_example =
    withdrawal_round_trip test_env 8 1 1 9 (pos 5000) none none (some "no") none paid_db
      (entry escrow) escrow_db requested (after requested rejection) request_1 paid_db-IsValid
      not_platform runs.user_key runs.escrow_key runs.escrow_ok refl runs.request_found refl refl
      runs.rejection_ok 8
