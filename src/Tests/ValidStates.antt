-- ===== src/Tests/ValidStates.antt =====
-- The states of the runs and the invariant of the books.
use apna_mandla.Prelude.{some, none}
use apna_mandla.Prelude.Int.{pos}
use apna_mandla.Money.{of_paise}
use apna_mandla.Ledger.Invariant.{IsValid}
use apna_mandla.Ledger.Validity.{
  credit-Keeps, topup_wallet-Keeps, process_order_payment-Keeps, initiate_withdrawal-Keeps,
}
use apna_mandla.Tests.State.{test_env, empty_db, funding, empty_books-IsValid}
use apna_mandla.Tests.Calls.{
  funded, funded_run, topped, entry, with_commission, paid_db, payment_split, top_up_wallet, escrow,
  escrow_db,
}
use apna_mandla.Tests.Runs.{runs}

pub funded-IsValid : IsValid test_env funded.books
funded-IsValid =
    (credit-Keeps test_env funding).at empty_db (entry funded_run) funded empty_books-IsValid
      runs.funded_ok

pub topped-IsValid : IsValid test_env topped.books
topped-IsValid =
    (topup_wallet-Keeps test_env 7 (of_paise (pos 50_000)) (some "t1") none).at funded top_up_wallet
      topped funded-IsValid runs.top_up_ok

pub paid_db-IsValid : IsValid test_env paid_db.books
paid_db-IsValid =
    (process_order_payment-Keeps test_env 7 8 (of_paise (pos 10_000)) 55 none none none).at
      with_commission payment_split paid_db topped-IsValid runs.payment_ok

pub escrow_db-IsValid : IsValid test_env escrow_db.books
escrow_db-IsValid =
    (initiate_withdrawal-Keeps test_env 8 (of_paise (pos 5000)) 1 none none none).at paid_db
      (entry escrow) escrow_db paid_db-IsValid runs.escrow_ok
