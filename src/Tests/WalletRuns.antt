-- ===== src/Tests/WalletRuns.antt =====
-- The theorems on the wallet service, the ledger's audits and the fraud checks, at the runs.
use apna_mandla.Prelude.{
  ℕ, ◌≡◌, ◌≢◌, refl, none, some, [], ◌∷◌, ◌++◌, arith, if◌then◌else◌, ap, length,
}
use apna_mandla.Prelude.Int.{pos, ◌-ℤ◌, differ}
use apna_mandla.Money.{of_paise, round}
use apna_mandla.Money.Rounding.{round-of_paise}
use apna_mandla.Fraud.{Subject}
use apna_mandla.Ledger.{platform_user_id}
use apna_mandla.Ledger.Invariant.{IsValid}
use apna_mandla.Ledger.Effects.{total, used, balance_of}
use apna_mandla.Ledger.Refinement.{view, move, credit-move, debit-move}
use apna_mandla.Ledger.Topup.{topup_wallet-total}
use apna_mandla.Ledger.Payment.{IsNew, process_order_payment-total}
use apna_mandla.Ledger.Refund.{IsNewRefund}
use apna_mandla.Ledger.OrderRoundTrip.{order_round_trip}
use apna_mandla.Reconciliation.{run, double_entry_issues, correlations, global_imbalance}
use apna_mandla.Reconciliation.Verdict.{run_verdict}
use apna_mandla.History.{
  topup_step, payment_step, other, Reachable, at_start, then_step, Reachable-IsValid,
}
use apna_mandla.Tests.State.{test_env, after, empty_db, empty_books, funding, empty_books-IsValid}
use apna_mandla.Tests.Calls.{
  funded, funded_run, entry, top_up_wallet, topped, spending, spent, with_commission, payment_split,
  paid_db, refunded_db,
}
use apna_mandla.Tests.Runs.{runs}
use apna_mandla.Tests.ValidStates.{funded-IsValid, topped-IsValid, paid_db-IsValid}

credit-move_example :
    view funded.books ≡ move 1 (some "seed") (round (of_paise (pos 100_000))) (view empty_books)
credit-move_example =
    credit-move test_env funding empty_db (entry funded_run) funded empty_books-IsValid
      runs.funded_ok

debit-move_example :
    view (after topped spent).books
    ≡ move 7 (some "s1") (pos 0 -ℤ round (of_paise (pos 2000))) (view topped.books)
debit-move_example =
    debit-move test_env spending topped (entry spent) (after topped spent) topped-IsValid none
      runs.spent_ok

topup_wallet-total_example : total topped.books ≡ (
    if used 7 (some "t1") funded.books
    then total funded.books -ℤ round (of_paise (pos 50_000))
    else total funded.books)
topup_wallet-total_example =
    topup_wallet-total test_env 7 (of_paise (pos 50_000)) (some "t1") none funded top_up_wallet
      topped funded-IsValid runs.top_up_ok

abbrev payer : ℕ
payer = 7

not_platform : payer ≢ platform_user_id
not_platform = λ p. absurd (omega arith)

IsNew-order : IsNew 7 8 none 55 with_commission.books
IsNew-order = record {
  customer_ne_shop = λ p. absurd (omega arith);
  customer_ne_platform = λ p. absurd (omega arith);
  shop_ne_platform = λ p. absurd (omega arith);
  customer_key = runs.customer_key;
  shop_key = runs.shop_key;
  platform_key = runs.platform_key;
}

process_order_payment-total_example : total paid_db.books ≡ total with_commission.books
process_order_payment-total_example =
    process_order_payment-total test_env 7 8 (of_paise (pos 10_000)) 55 none none none
      with_commission 10_000 1000 payment_split paid_db topped-IsValid IsNew-order
      (round-of_paise (pos 10_000)) runs.rate (omega arith) runs.payment_ok

IsNewRefund-order : IsNewRefund 7 8 none 55 paid_db.books
IsNewRefund-order = record {
  shop_key = runs.back_from_shop;
  platform_key = runs.back_from_platform;
  customer_key = runs.back_to_customer;
}

order_round_trip_example : balance_of 8 refunded_db.books ≡ balance_of 8 with_commission.books
order_round_trip_example =
    order_round_trip test_env 7 8 (of_paise (pos 10_000)) 55 none none none none none 10_000 1000
      with_commission paid_db refunded_db payment_split topped-IsValid IsNew-order
      (round-of_paise (pos 10_000)) runs.rate (omega arith) runs.payment_ok IsNewRefund-order
      runs.give_back_ok 8

run_verdict_example :
    (run paid_db.books).issues
    ≡ double_entry_issues paid_db.books.entries (correlations paid_db.books.entries)
      ++ (if differ (total paid_db.books) (pos 0) then global_imbalance ∷ [] else [])
run_verdict_example = run_verdict test_env paid_db.books paid_db-IsValid

some_row : paid_db.books.entries ≢ []
some_row = λ p. absurd (omega (arith, ap length p, runs.six_rows))

two_calls : Reachable test_env funded paid_db
two_calls =
    then_step
      (then_step
        (then_step at_start (
          topup_step 7 (of_paise (pos 50_000)) (some "t1") none funded topped top_up_wallet
            runs.top_up_ok))
        (other topped with_commission refl))
      (payment_step 7 8 55 (of_paise (pos 10_000)) none none none with_commission paid_db
        payment_split runs.payment_ok)

Reachable-IsValid_example : IsValid test_env paid_db.books
Reachable-IsValid_example = Reachable-IsValid test_env funded-IsValid two_calls

abbrev spender : Subject
spender = record { user_id = 7; wallet_id = 2; ip_address = none }
