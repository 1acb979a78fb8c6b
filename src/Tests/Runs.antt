-- ===== src/Tests/Runs.antt =====
-- How each of the calls ends, and rows of the states between them.
use apna_mandla.Prelude.{
  ℕ, ◌+◌, ◌≡◌, refl, String, Bool, true, false, Option, none, some, List, [], ◌∷◌, length,
}
use apna_mandla.Prelude.Int.{ℤ, pos}
use apna_mandla.Money.{of_paise}
use apna_mandla.Session.{ok}
use apna_mandla.Fraud.{Subject, pre_check}
use apna_mandla.Ledger.{
  posting, no_links, credit, debit, topup_wallet, process_order_payment, reverse_withdrawal,
  initiate_withdrawal, Split, commission_percent, find_wallet,
}
use apna_mandla.Ledger.Posting.{Posting}
use apna_mandla.Ledger.Effects.{used}
use apna_mandla.Ledger.Commission.{percent}
use apna_mandla.Ledger.Payment.{payment_key}
use apna_mandla.Ledger.Refund.{refund_side_key}
use apna_mandla.Ledger.Transfers.{withdrawal_key}
use apna_mandla.Withdrawal.Lookup.{request}
use apna_mandla.Udhar.Outcomes.{known, use_key, repay_key}
use apna_mandla.Withdrawal.{approve_withdrawal, reject_withdrawal}
use apna_mandla.Udhar.{create_account, use_credit, repay, apply_interest}
use apna_mandla.Tests.State.{test_env, after, returned}
use apna_mandla.Tests.Calls.{
  funded_run, funded, entry, top_up, top_up_wallet, topped, spent, checked, with_commission,
  payment, payment_split, shop_wallet, paid_db, give_back, refunded_db, escrow, escrow_db,
  request_1, requested, reversal, approval, rejection, with_account, transaction_of, purchase,
  owing, repayment, interest_run, interest_row, charged_db, interest_again,
}

pub record Runs : Type 0 where
  pub funded_ok : funded_run ≡ ok (entry funded_run, funded)
  pub top_up_ok : top_up ≡ ok (top_up_wallet, topped)
  pub spent_ok : spent ≡ ok (entry spent, after topped spent)
  pub checked_ok : checked ≡ ok (tt, after topped checked)
  pub payment_ok : payment ≡ ok (payment_split, paid_db)
  pub escrow_ok : escrow ≡ ok (entry escrow, escrow_db)
  pub reversal_ok : reversal ≡ ok (tt, after requested reversal)
  pub approval_ok : approval ≡ ok (tt, after requested approval)
  pub rejection_ok : rejection ≡ ok (tt, after requested rejection)
  pub purchase_ok : purchase ≡ ok (transaction_of purchase, owing)
  pub repayment_ok : repayment ≡ ok (transaction_of repayment, after owing repayment)
  pub interest_ok : interest_run ≡ ok (some interest_row, charged_db)
  pub new_spending : used 7 (some "s1") topped.books ≡ false
  pub customer_key : used 7 (payment_key none 55 "-customer-dr") with_commission.books ≡ false
  pub shop_key : used 8 (payment_key none 55 "-shop-cr") with_commission.books ≡ false
  pub platform_key :
      used 1 (payment_key none 55 "-platform-commission") with_commission.books ≡ false
  pub rate : commission_percent with_commission ≡ percent 1000
  pub give_back_ok : give_back ≡ ok (tt, refunded_db)
  pub back_from_shop : used 8 (refund_side_key none 55 "-shop-dr") paid_db.books ≡ false
  pub back_from_platform : used 1 (refund_side_key none 55 "-platform-dr") paid_db.books ≡ false
  pub back_to_customer : used 7 (refund_side_key none 55 "-customer-cr") paid_db.books ≡ false
  pub six_rows : length paid_db.books.entries ≡ 6
  pub shop_wallet_found : find_wallet 8 paid_db.books.wallets ≡ some shop_wallet
  pub user_key : used 8 (withdrawal_key 1 none "-user-dr") paid_db.books ≡ false
  pub escrow_key : used 1 (withdrawal_key 1 none "-platform-cr") paid_db.books ≡ false
  pub request_found : request 1 requested ≡ some request_1
  pub purchase_key :
      known (use_key test_env 1 (some 55) none with_account.ticks) with_account ≡ none
  pub repayment_key : known (repay_key test_env 1 none owing.ticks) owing ≡ none
  pub same_day :
      test_env.iso_date (test_env.clock (charged_db.ticks + 1))
      ≡ test_env.iso_date (test_env.clock (owing.ticks + 1))
  pub again_ok : interest_again ≡ ok (returned none interest_again, after charged_db interest_again)

pub runs : Runs
unfolding apna_mandla.Ledger.Effects.used apna_mandla.Prelude.Int.◌+ℤ◌ apna_mandla.Prelude.Int.◌-ℤ◌
    apna_mandla.Prelude.Int.◌*ℤ◌ apna_mandla.Prelude.Text.f_string apna_mandla.Prelude.Text.str
    apna_mandla.Money.half_up apna_mandla.Money.signed_half_up apna_mandla.Money.round
    apna_mandla.Money.daily_rate apna_mandla.Fraud.debits_since apna_mandla.Fraud.sum_amounts
    apna_mandla.Fraud.latest apna_mandla.Fraud.add_flag apna_mandla.Fraud.count_check
    apna_mandla.Fraud.flag_if_soon apna_mandla.Fraud.check_single_txn_limit
    apna_mandla.Fraud.check_daily_limit apna_mandla.Fraud.hourly_counter
    apna_mandla.Fraud.check_hourly_velocity apna_mandla.Fraud.interval_fallback
    apna_mandla.Fraud.check_min_interval apna_mandla.Fraud.check_velocity_spike
    apna_mandla.Fraud.pre_check apna_mandla.Ledger.find_wallet apna_mandla.Ledger.put_wallet
    apna_mandla.Ledger.get_or_create_wallet apna_mandla.Ledger.last_entry
    apna_mandla.Ledger.next_sequence apna_mandla.Ledger.last_hash apna_mandla.Ledger.str_paise
    apna_mandla.Ledger.str_amount apna_mandla.Ledger.compute_hash apna_mandla.Ledger.find_key
    apna_mandla.Ledger.check_idempotency apna_mandla.Ledger.key_or
    apna_mandla.Ledger.Posting.save_wallet apna_mandla.Ledger.Posting.insert_entry
    apna_mandla.Ledger.Posting.entry_of apna_mandla.Ledger.Posting.write_entry
    apna_mandla.Ledger.Posting.post apna_mandla.Ledger.Posting.credit
    apna_mandla.Ledger.Posting.fraud_guard apna_mandla.Ledger.Posting.debit apna_mandla.Ledger.when
    apna_mandla.Ledger.newest_config apna_mandla.Ledger.commission_percent
    apna_mandla.Ledger.split_of apna_mandla.Ledger.topup_wallet
    apna_mandla.Ledger.process_order_payment apna_mandla.Ledger.process_refund
    apna_mandla.Ledger.credit_delivery_fee apna_mandla.Ledger.initiate_withdrawal
    apna_mandla.Ledger.reverse_withdrawal apna_mandla.Ledger.legacy_order_payment
    apna_mandla.Ledger.credit_rider_delivery_fee apna_mandla.Withdrawal.find_request
    apna_mandla.Withdrawal.put_request apna_mandla.Withdrawal.save_request
    apna_mandla.Withdrawal.answering apna_mandla.Withdrawal.answering_500
    apna_mandla.Withdrawal.add_request apna_mandla.Withdrawal.submitted
    apna_mandla.Withdrawal.key_clash apna_mandla.Withdrawal.withdraw
    apna_mandla.Withdrawal.approve_withdrawal apna_mandla.Withdrawal.reject_withdrawal
    apna_mandla.Udhar.find_account apna_mandla.Udhar.put_account apna_mandla.Udhar.find_transaction
    apna_mandla.Udhar.available_credit apna_mandla.Udhar.is_overdue apna_mandla.Udhar.round_rate
    apna_mandla.Udhar.save_account apna_mandla.Udhar.add_transaction apna_mandla.Udhar.add_account
    apna_mandla.Udhar.charged apna_mandla.Udhar.repaid apna_mandla.Udhar.accrued
    apna_mandla.Udhar.interest_amount apna_mandla.Udhar.bears_interest apna_mandla.Udhar.mark
    apna_mandla.Udhar.has_interest apna_mandla.Udhar.create_account apna_mandla.Udhar.use_credit
    apna_mandla.Udhar.repay apna_mandla.Udhar.interest_key apna_mandla.Udhar.post_interest
    apna_mandla.Udhar.apply_interest apna_mandla.Udhar.mark_overdue_accounts
    apna_mandla.Udhar.add_udhar_debit apna_mandla.Udhar.interest_loop
    apna_mandla.Udhar.apply_udhar_interest
runs = record {
  funded_ok = refl;
  top_up_ok = refl;
  spent_ok = refl;
  checked_ok = refl;
  payment_ok = refl;
  escrow_ok = refl;
  reversal_ok = refl;
  approval_ok = refl;
  rejection_ok = refl;
  purchase_ok = refl;
  repayment_ok = refl;
  interest_ok = refl;
  new_spending = refl;
  customer_key = refl;
  shop_key = refl;
  platform_key = refl;
  rate = refl;
  give_back_ok = refl;
  back_from_shop = refl;
  back_from_platform = refl;
  back_to_customer = refl;
  six_rows = refl;
  shop_wallet_found = refl;
  user_key = refl;
  escrow_key = refl;
  request_found = refl;
  purchase_key = refl;
  repayment_key = refl;
  same_day = refl;
  again_ok = refl;
}
