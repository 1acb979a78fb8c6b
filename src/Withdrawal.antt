-- ===== src/Withdrawal.antt =====
-- Withdrawal requests: `withdraw` of Backend/app/routes/wallets.py, and the decisions of
-- Backend/app/routes/withdrawal.py (Backend/app/routes/admin_finance.py has them once more).
-- The caller's role and the bank details of the profile are arguments.
pub mod Lookup
pub mod Decisions
pub mod RoundTrip
pub mod Validity
use apna_mandla.Prelude.{
  ℕ, ◌+◌, ◌≡◌, String, Bool, true, false, not, ◌||◌, Option, none, some, List, [], ◌∷◌, ◌==◌,
  if◌then◌else◌, first,
}
use apna_mandla.Prelude.Int.{ℤ, pos, ltb_ℤ}
use apna_mandla.Prelude.Text.{str_eq}
use apna_mandla.Money.{of_paise}
use apna_mandla.Schema.{
  Db, Tables, WithdrawalRequest, WithdrawalStatus, pending, completed, rejected,
}
use apna_mandla.Env.{Env}
use apna_mandla.Session.{
  M, Error, ok, err, ◌>>=◌, ◌>>◌, pure, raise_if, or_raise, if_found, gets, now, http_exception,
  integrity_error, runtime_error,
}
use apna_mandla.Ledger.{has_key, initiate_withdrawal, reverse_withdrawal}

unfoldable pub find_request : ℕ → List WithdrawalRequest → Option WithdrawalRequest
find_request id = first (λ r. r.id == id)

-- The row object of a request is changed in place.
unfoldable pub put_request : WithdrawalRequest → List WithdrawalRequest → List WithdrawalRequest
put_request r [] = []
put_request r (x ∷ xs) = if x.id == r.id then r ∷ xs else x ∷ put_request r xs

abbrev pub is_pending : WithdrawalStatus → Bool
is_pending pending = true
is_pending _ = false

unfoldable pub save_request : WithdrawalRequest → M (Unit {0})
save_request r d = ok (
  tt,
  record d {
    tables = record d.tables { withdrawal_requests = put_request r d.tables.withdrawal_requests };
  },
)

-- `except ValueError` answers 400, and any other exception 500.
abbrev pub status_of : Error → ℕ
status_of integrity_error = 500
status_of runtime_error = 500
status_of (http_exception _) = 500
status_of _ = 400

unfoldable pub answering : {A : Type 0} → M A → M A
answering m d = elim (m d) [ err e ↦ err (http_exception (status_of e)) | ok r ↦ ok r ]

-- Any exception answers 500.
unfoldable pub answering_500 : {A : Type 0} → M A → M A
answering_500 m d = elim (m d) [ err e ↦ err (http_exception 500) | ok r ↦ ok r ]

-- The insertion of a request: `amount > 0` and a unique key are constraints of the table.
unfoldable pub add_request : WithdrawalRequest → M (Unit {0})
add_request r d =
    if not (ltb_ℤ (pos 0) r.amount)
    then err integrity_error
    else ok (
      tt,
      record d {
        tables = record d.tables {
          withdrawal_requests = r ∷ d.tables.withdrawal_requests;
          next_withdrawal_id = d.tables.next_withdrawal_id + 1;
        };
      },
    )

-- A request that was submitted with this key; an empty key is none.
unfoldable pub submitted : Option String → List WithdrawalRequest → Option WithdrawalRequest
submitted none rs = none
submitted (some key) rs =
    if str_eq key "" then none else first (λ r. has_key key r.idempotency_key) rs

abbrev pub falsy : Option String → Bool
falsy none = true
falsy (some s) = str_eq s ""

-- Unique keys are constraints of the table too: an empty key counts there.
unfoldable pub key_clash : Option String → List WithdrawalRequest → Bool
key_clash none rs = false
key_clash (some key) rs = elim (first (λ r. has_key key r.idempotency_key) rs) [
  | none ↦ false
  | some _ ↦ true
]

module _ (env : Env) where
  -- `POST /wallets/withdraw`; the answer is the request's id.
  unfoldable pub withdraw : ℕ → String → Option String → ℤ → Option String → M ℕ
  withdraw user_id user_type bank_snapshot amount key = do
    raise_if
        (not (str_eq user_type "SHOP" || (str_eq user_type "SELLER" || str_eq user_type "RIDER")))
        (http_exception 403)
    raise_if (falsy bank_snapshot) (http_exception 400)
    existing ← gets (λ d. submitted key d.tables.withdrawal_requests)
    if_found existing (λ r. pure r.id)
        (do
          id ← gets (λ d. d.tables.next_withdrawal_id)
          clash ← gets (λ d. key_clash key d.tables.withdrawal_requests)
          answering (
              raise_if clash integrity_error
              >> (add_request (record {
                id = id;
                user_id = user_id;
                amount = amount;
                status = pending;
                idempotency_key = key;
                bank_details_snapshot = bank_snapshot;
                admin_note = none;
                processed_by_id = none;
                processed_at = none;
              })
                  >> initiate_withdrawal env user_id (of_paise amount) id key none none))
          pure id)

  -- `POST /withdrawal/admin/{id}/approve`
  unfoldable pub approve_withdrawal : ℕ → ℕ → M (Unit {0})
  approve_withdrawal withdrawal_id admin_id = do
    found ← gets (λ d. find_request withdrawal_id d.tables.withdrawal_requests)
    wr ← or_raise found (http_exception 404)
    raise_if (not (is_pending wr.status)) (http_exception 400)
    time ← now env
    save_request (record wr {
      status = completed;
      processed_by_id = some admin_id;
      processed_at = some time;
    })

  -- `POST /withdrawal/admin/{id}/reject`
  unfoldable pub reject_withdrawal : ℕ → Option String → ℕ → M (Unit {0})
  reject_withdrawal withdrawal_id reason admin_id = do
    found ← gets (λ d. find_request withdrawal_id d.tables.withdrawal_requests)
    wr ← or_raise found (http_exception 404)
    raise_if (not (is_pending wr.status)) (http_exception 400)
    answering_500 (reverse_withdrawal env wr.user_id (of_paise wr.amount) wr.id none)
    time ← now env
    save_request (record wr {
      status = rejected;
      admin_note = reason;
      processed_by_id = some admin_id;
      processed_at = some time;
    })
