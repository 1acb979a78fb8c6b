-- ===== src/Udhar/Rows.antt =====
-- The queries of udhar_service.py, and the properties of an account.
use apna_mandla.Prelude.{
  ℕ, ◌+◌, ◌^◌, String, Bool, true, false, not, ◌&&◌, ◌||◌, Option, none, some, List, [], ◌∷◌, ltb,
  ◌==◌, if◌then◌else◌, first,
}
use apna_mandla.Prelude.Int.{ℤ, pos, ◌-ℤ◌, ◌*ℤ◌, ltb_ℤ}
use apna_mandla.Money.{Decimal, signed_half_up}
use apna_mandla.Schema.{
  UdharAccount, UdharAccountStatus, active, overdue, closed, suspended, UdharTransaction,
}
use apna_mandla.Session.{M, ok, err, integrity_error}
use apna_mandla.Ledger.{has_key}

unfoldable pub find_account : ℕ → List UdharAccount → Option UdharAccount
find_account id = first (λ a. a.id == id)

-- The row object of an account is changed in place.
unfoldable pub put_account : UdharAccount → List UdharAccount → List UdharAccount
put_account a [] = []
put_account a (x ∷ xs) = if x.id == a.id then a ∷ xs else x ∷ put_account a xs

-- `query(UdharTransaction).filter(idempotency_key == ik).first()`
unfoldable pub find_transaction : String → List UdharTransaction → Option UdharTransaction
find_transaction ik = first (λ t. has_key ik t.idempotency_key)

abbrev pub is_active : UdharAccountStatus → Bool
is_active active = true
is_active _ = false

abbrev pub is_overdue_status : UdharAccountStatus → Bool
is_overdue_status overdue = true
is_overdue_status _ = false

abbrev pub is_closed : UdharAccountStatus → Bool
is_closed closed = true
is_closed _ = false

abbrev pub is_suspended : UdharAccountStatus → Bool
is_suspended suspended = true
is_suspended _ = false

-- `available_credit`
unfoldable pub available_credit : UdharAccount → ℤ
available_credit a =
    let room = a.credit_limit -ℤ a.outstanding_balance in if ltb_ℤ (pos 0) room then room else pos 0

-- `is_overdue`, at a time.
unfoldable pub is_overdue : ℕ → UdharAccount → Bool
is_overdue time a = elim a.due_date [
  | none ↦ false
  | some t ↦ ltb_ℤ (pos 0) a.outstanding_balance && ltb t time
]

-- `rate.quantize(Decimal("0.0001"), rounding=ROUND_HALF_UP)`
unfoldable pub round_rate : Decimal → ℤ
unfolding signed_half_up ◌*ℤ◌ ◌-ℤ◌
round_rate r = signed_half_up (r.coeff *ℤ pos 10_000) (10 ^ r.places)

-- The flush of a changed account: `outstanding_balance >= 0` is a constraint.
unfoldable pub save_account : UdharAccount → M (Unit {0})
save_account a d =
    if ltb_ℤ a.outstanding_balance (pos 0)
    then err integrity_error
    else ok (
      tt,
      record d {
        tables = record d.tables { udhar_accounts = put_account a d.tables.udhar_accounts };
      },
    )

-- The flush of a new transaction: `amount > 0` and `outstanding_after >= 0` are constraints. Its
-- key is new, since the caller has looked it up.
unfoldable pub add_transaction : UdharTransaction → M (Unit {0})
add_transaction t d =
    if not (ltb_ℤ (pos 0) t.amount) || ltb_ℤ t.outstanding_after (pos 0)
    then err integrity_error
    else ok (
      tt,
      record d {
        tables = record d.tables { udhar_transactions = t ∷ d.tables.udhar_transactions };
      },
    )

-- The flush of a new account: a positive limit and positive due days are constraints, and the
-- pair of borrower and shop is new, since the caller has looked it up.
unfoldable pub add_account : UdharAccount → M (Unit {0})
add_account a d =
    if not (ltb_ℤ (pos 0) a.credit_limit) || a.due_days == 0
    then err integrity_error
    else ok (
      tt,
      record d {
        tables = record d.tables {
          udhar_accounts = a ∷ d.tables.udhar_accounts;
          next_udhar_account_id = d.tables.next_udhar_account_id + 1;
        };
      },
    )
