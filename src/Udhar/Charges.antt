-- ===== src/Udhar/Charges.antt =====
-- The rows that the operations of `UdharService` build, and the tests on an account, of
-- Backend/app/services/udhar_service.py.
use apna_mandla.Prelude.{
  ℕ, ◌+◌, ◌*◌, String, Bool, false, not, ◌&&◌, ◌||◌, Option, none, some, List, leb, if◌then◌else◌,
  first,
}
use apna_mandla.Prelude.Int.{ℤ, pos, ◌+ℤ◌, ◌-ℤ◌, ltb_ℤ, leb_ℤ, eqb_ℤ}
use apna_mandla.Prelude.Text.{str_eq}
use apna_mandla.Money.{round, of_paise, daily_rate, interest_on}
use apna_mandla.Schema.{UdharAccount, active, overdue, closed, UdharTransaction, UdharTxType}
use apna_mandla.Fraud.{day}
use apna_mandla.Ledger.{has_key}
use apna_mandla.Udhar.Rows.{is_active, is_overdue_status, is_closed, is_suspended}

abbrev pub existing_account : Option String → List UdharAccount → Option UdharAccount
existing_account none accounts = none
existing_account (some key) accounts =
    if str_eq key "" then none else first (λ a. has_key key a.idempotency_key) accounts

-- A row of an account's history.
abbrev pub transaction :
    UdharAccount → Option ℕ → UdharTxType → ℤ → String → String → UdharTransaction
transaction account order_id type amount cid ik = record {
  udhar_account_id = account.id;
  order_id = order_id;
  transaction_type = type;
  amount = amount;
  outstanding_after = account.outstanding_balance;
  ledger_correlation_id = some cid;
  idempotency_key = some ik;
}

-- The account after a purchase of `amount` at a time.
unfoldable pub charged : UdharAccount → ℤ → ℕ → UdharAccount
charged a amount time = record a {
  outstanding_balance = round (of_paise (a.outstanding_balance +ℤ amount));
  last_transaction_at = some time;
  due_date = elim a.due_date [ none ↦ some (time + a.due_days * day) | some t ↦ some t ];
}

-- The account after a repayment of `amount` at a time.
unfoldable pub repaid : UdharAccount → ℤ → ℕ → UdharAccount
repaid a amount time =
    let rest = round (of_paise (a.outstanding_balance -ℤ amount)) in
    let b = record a { outstanding_balance = rest; last_transaction_at = some time } in
    if eqb_ℤ rest (pos 0)
    then record b { status = closed; closed_at = some time }
    else if is_overdue_status a.status && ltb_ℤ rest a.credit_limit
    then record b { status = active }
    else b

-- The account after a day's interest at a time.
unfoldable pub accrued : UdharAccount → ℤ → ℕ → UdharAccount
accrued a amount time = record a {
  outstanding_balance = round (of_paise (a.outstanding_balance +ℤ amount));
  total_interest_accrued = round (of_paise (a.total_interest_accrued +ℤ amount));
  last_interest_applied_at = some time;
}

unfoldable pub interest_amount : UdharAccount → ℤ
interest_amount a = round (interest_on a.outstanding_balance (daily_rate a.interest_rate))

unfoldable pub bears_interest : UdharAccount → Bool
bears_interest a =
    not (leb_ℤ a.outstanding_balance (pos 0) || leb_ℤ a.interest_rate (pos 0))
    && not (is_closed a.status || is_suspended a.status)

abbrev pub is_due : ℕ → UdharAccount → Bool
is_due time a =
    is_active a.status
    && (ltb_ℤ (pos 0) a.outstanding_balance
        && elim a.due_date [ none ↦ false | some t ↦ leb t time ])

unfoldable pub mark : ℕ → UdharAccount → UdharAccount
mark time a = if is_due time a then record a { status = overdue } else a

unfoldable pub has_interest : UdharAccount → Bool
has_interest a =
    (is_active a.status || is_overdue_status a.status)
    && (ltb_ℤ (pos 0) a.outstanding_balance && ltb_ℤ (pos 0) a.interest_rate)
