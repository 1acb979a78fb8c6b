-- ===== src/Tests/UdharRuns.antt =====
-- The theorems on credit accounts, at the runs.
use apna_mandla.Prelude.{◌≡◌, refl, none, some}
use apna_mandla.Prelude.Int.{pos}
use apna_mandla.Money.{of_paise, round}
use apna_mandla.Udhar.Outcomes.{Purchase, Repayment, use_credit_lem, repay_lem}
use apna_mandla.Udhar.Interest.{apply_interest_once}
use apna_mandla.Tests.State.{test_env, after, returned}
use apna_mandla.Tests.Calls.{
  with_account, purchase, owing, repayment, transaction_of, interest_row, charged_db,
  interest_again,
}
use apna_mandla.Tests.Runs.{runs}

use_credit_lem_example :
    Purchase 1 (round (of_paise (pos 30_000))) (transaction_of purchase) with_account owing
use_credit_lem_example =
    use_credit_lem test_env 1 (of_paise (pos 30_000)) 8 (some 55) none with_account
      (transaction_of purchase) owing runs.purchase_key runs.purchase_ok

repay_lem_example :
    Repayment 1
      (round (of_paise (pos 10_000)))
      (transaction_of repayment)
      owing
      (after owing repayment)
repay_lem_example =
    repay_lem test_env 1 7 (of_paise (pos 10_000)) none owing (transaction_of repayment)
      (after owing repayment) runs.repayment_key runs.repayment_ok

apply_interest_once_example :
    ((after charged_db interest_again).books ≡ charged_db.books)
    × ((after charged_db interest_again).tables ≡ charged_db.tables)
apply_interest_once_example =
    apply_interest_once test_env 1 owing interest_row charged_db charged_db
      (returned none interest_again) (after charged_db interest_again) runs.interest_ok refl
      runs.same_day runs.again_ok
