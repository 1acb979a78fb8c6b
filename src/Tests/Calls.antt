-- ===== src/Tests/Calls.antt =====
-- The calls of the runs, one after the other, and the states between them.
use apna_mandla.Prelude.{true, false, Option, none, some, [], ◌∷◌}
use apna_mandla.Prelude.Int.{pos}
use apna_mandla.Money.{of_paise}
use apna_mandla.Schema.{
  Db, Wallet, LedgerEntry, topup, order_payment, cr, WithdrawalRequest, pending as request_pending,
  UdharAccount, active, UdharTransaction, interest,
}
use apna_mandla.Session.{Result}
use apna_mandla.Fraud.{pre_check}
use apna_mandla.Ledger.{
  posting, no_links, credit, debit, topup_wallet, process_order_payment, process_refund,
  reverse_withdrawal, initiate_withdrawal, Split,
}
use apna_mandla.Ledger.Commission.{percent}
use apna_mandla.Ledger.Posting.{Posting}
use apna_mandla.Withdrawal.{approve_withdrawal, reject_withdrawal}
use apna_mandla.Udhar.{use_credit, repay, apply_interest}
use apna_mandla.Tests.State.{test_env, empty_db, empty_tables, after, returned, funding}

abbrev pub funded_run : Result (LedgerEntry × Db)
funded_run = credit test_env funding empty_db

abbrev pub funded : Db
funded = after empty_db funded_run

abbrev pub no_wallet : Wallet
no_wallet = record { id = 0; user_id = 0; balance = pos 0; is_frozen = false }

abbrev no_entry : LedgerEntry
no_entry = record {
  sequence_number = 0;
  previous_hash = "";
  entry_hash = "";
  wallet_id = 0;
  entry_side = cr;
  transaction_type = topup;
  correlation_id = "";
  amount = pos 0;
  balance_after = pos 0;
  links = no_links;
  idempotency_key = none;
  created_at = 0;
}

-- The row that a call returned.
abbrev pub entry : Result (LedgerEntry × Db) → LedgerEntry
entry r = returned no_entry r

-- User 7 is given 500.00.
abbrev pub top_up : Result (Wallet × Db)
top_up = topup_wallet test_env 7 (of_paise (pos 50_000)) (some "t1") none funded

abbrev pub top_up_wallet : Wallet
top_up_wallet = returned no_wallet top_up

abbrev pub topped : Db
topped = after funded top_up

-- User 7 spends 20.00.
abbrev pub spending : Posting
spending = posting 7 (pos 2000) order_payment "cid" no_links (some "s1")

abbrev pub spent : Result (LedgerEntry × Db)
spent = debit test_env spending none topped

-- The check of a debit of 20.00.
abbrev pub checked : Result (Unit {0} × Db)
checked =
    pre_check test_env (record { user_id = 7; wallet_id = 2; ip_address = none }) (pos 2000) topped

-- A commission of ten per cent is set.
abbrev pub with_commission : Db
with_commission = record topped {
  tables = record empty_tables {
    commission_configs = record { percent = pos 1000; is_active = true; created_at = 1 } ∷ [];
  };
}

-- User 7 pays 100.00 to the shop of user 8.
abbrev pub payment : Result (Split × Db)
payment =
    process_order_payment test_env 7 8 (of_paise (pos 10_000)) 55 none none none with_commission

abbrev pub payment_split : Split
payment_split = returned (record { total = pos 0; net = pos 0; commission = pos 0 }) payment

abbrev pub shop_wallet : Wallet
shop_wallet = record { id = 3; user_id = 8; balance = pos 9000; is_frozen = false }

abbrev pub paid_db : Db
paid_db = after with_commission payment

-- The order is refunded.
abbrev pub give_back : Result (Unit {0} × Db)
give_back = process_refund test_env 7 8 (of_paise (pos 10_000)) 55 (percent 1000) none none paid_db

abbrev pub refunded_db : Db
refunded_db = after paid_db give_back

-- User 8 withdraws 50.00.
abbrev pub escrow : Result (LedgerEntry × Db)
escrow = initiate_withdrawal test_env 8 (of_paise (pos 5000)) 1 none none none paid_db

abbrev pub escrow_db : Db
escrow_db = after paid_db escrow

abbrev pub request_1 : WithdrawalRequest
request_1 = record {
  id = 1;
  user_id = 8;
  amount = pos 5000;
  status = request_pending;
  idempotency_key = none;
  bank_details_snapshot = some "bank";
  admin_note = none;
  processed_by_id = none;
  processed_at = none;
}

abbrev pub requested : Db
requested = record escrow_db {
  tables = record escrow_db.tables { withdrawal_requests = request_1 ∷ []; next_withdrawal_id = 2 };
}

abbrev pub reversal : Result (Unit {0} × Db)
reversal = reverse_withdrawal test_env 8 (of_paise (pos 5000)) 1 none requested

abbrev pub approval : Result (Unit {0} × Db)
approval = approve_withdrawal test_env 1 9 requested

abbrev pub rejection : Result (Unit {0} × Db)
rejection = reject_withdrawal test_env 1 (some "no") 9 requested

-- User 7 has credit up to 1000.00 at 12.00 per cent with the shop 3.
abbrev pub account_1 : UdharAccount
account_1 = record {
  id = 1;
  borrower_id = 7;
  lender_shop_id = 3;
  credit_limit = pos 100_000;
  interest_rate = pos 120_000;
  due_days = 30;
  due_date = none;
  outstanding_balance = pos 0;
  status = active;
  last_interest_applied_at = none;
  total_interest_accrued = pos 0;
  last_transaction_at = none;
  closed_at = none;
  idempotency_key = none;
}

abbrev pub with_account : Db
with_account = record topped {
  tables = record empty_tables { udhar_accounts = account_1 ∷ []; next_udhar_account_id = 2 };
}

abbrev no_transaction : UdharTransaction
no_transaction = record {
  udhar_account_id = 0;
  order_id = none;
  transaction_type = interest;
  amount = pos 0;
  outstanding_after = pos 0;
  ledger_correlation_id = none;
  idempotency_key = none;
}

abbrev pub transaction_of : Result (UdharTransaction × Db) → UdharTransaction
transaction_of r = returned no_transaction r

abbrev pub purchase : Result (UdharTransaction × Db)
purchase = use_credit test_env 1 (of_paise (pos 30_000)) 8 (some 55) none with_account

abbrev pub owing : Db
owing = after with_account purchase

abbrev pub repayment : Result (UdharTransaction × Db)
repayment = repay test_env 1 7 (of_paise (pos 10_000)) none owing

abbrev pub interest_run : Result (Option UdharTransaction × Db)
interest_run = apply_interest test_env 1 owing

abbrev the : Option UdharTransaction → UdharTransaction
the none = no_transaction
the (some t) = t

abbrev pub interest_row : UdharTransaction
interest_row = the (returned none interest_run)

abbrev pub charged_db : Db
charged_db = after owing interest_run

abbrev pub interest_again : Result (Option UdharTransaction × Db)
interest_again = apply_interest test_env 1 charged_db
