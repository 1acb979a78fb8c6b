-- ===== src/Ledger/Rows.antt =====
-- The queries of ledger_service.py, and the hash of a row.
use apna_mandla.Prelude.{
  ℕ, ◌+◌, ◌/◌, ◌%◌, String, Bool, false, ◌&&◌, Option, none, some, List, [], ◌∷◌, ltb, ◌==◌,
  if◌then◌else◌, first, suc,
}
use apna_mandla.Prelude.Int.{ℤ, pos, negsuc}
use apna_mandla.Prelude.Text.{f_string, str, str_eq}
use apna_mandla.Schema.{Wallet, LedgerEntry, EntrySide, dr, cr}
use apna_mandla.Env.{Env}
use apna_mandla.Session.{M, ok}

abbrev pub platform_user_id : ℕ
platform_user_id = 1

-- `query(Wallet).filter(user_id == …).first()`
unfoldable pub find_wallet : ℕ → List Wallet → Option Wallet
find_wallet user_id = first (λ w. w.user_id == user_id)

-- The row object of a wallet is changed in place.
unfoldable pub put_wallet : Wallet → List Wallet → List Wallet
put_wallet w [] = []
put_wallet w (v ∷ vs) = if v.id == w.id then w ∷ vs else v ∷ put_wallet w vs

unfoldable pub get_or_create_wallet : ℕ → M Wallet
get_or_create_wallet user_id d = elim (find_wallet user_id d.books.wallets) [
  | some w ↦ ok (w, d)
  | none ↦
      let w : Wallet = record {
        id = d.books.next_wallet_id;
        user_id = user_id;
        balance = pos 0;
        is_frozen = false;
      } in
      ok (
        w,
        record d {
          books = record d.books {
            wallets = w ∷ d.books.wallets;
            next_wallet_id = d.books.next_wallet_id + 1;
          };
        },
      )
]

-- `order_by(sequence_number.desc()).first()`
unfoldable pub last_entry : List LedgerEntry → Option LedgerEntry
last_entry [] = none
last_entry (e ∷ es) = elim (last_entry es) [
  | none ↦ some e
  | some l ↦ if ltb l.sequence_number e.sequence_number then some e else some l
]

unfoldable pub next_sequence : List LedgerEntry → ℕ
next_sequence es = elim (last_entry es) [ none ↦ 1 | some l ↦ l.sequence_number + 1 ]

unfoldable pub last_hash : List LedgerEntry → String
last_hash es = elim (last_entry es) [ none ↦ "GENESIS" | some l ↦ l.entry_hash ]

abbrev pub side_text : EntrySide → String
side_text dr = "DR"
side_text cr = "CR"

-- `str` of a natural number of paise, with two places.
unfoldable pub str_paise : ℕ → String
str_paise n = f_string (str (n / 100) ∷ "." ∷ str (n / 10 % 10) ∷ str (n % 10) ∷ [])

unfoldable pub str_amount : ℤ → String
unfolding str_paise
str_amount (pos n) = str_paise n
str_amount (negsuc n) = f_string ("-" ∷ str_paise (suc n) ∷ [])

-- `LedgerEntry.compute_hash`
unfoldable pub compute_hash : Env → ℕ → EntrySide → ℤ → ℤ → String → String → String → String
unfolding str_amount
compute_hash env wallet_id side amount balance_after prev_hash timestamp correlation_id =
    env.sha256 (
      f_string (
        str wallet_id
        ∷ "|"
        ∷ side_text side
        ∷ "|"
        ∷ str_amount amount
        ∷ "|"
        ∷ str_amount balance_after
        ∷ "|"
        ∷ prev_hash
        ∷ "|"
        ∷ timestamp
        ∷ "|"
        ∷ correlation_id
        ∷ []))

abbrev pub has_key : String → Option String → Bool
has_key k none = false
has_key k (some j) = str_eq j k

-- `query(LedgerEntry).filter(wallet_id == …, idempotency_key == …).first()`
unfoldable pub find_key : ℕ → String → List LedgerEntry → Option LedgerEntry
find_key wallet_id key = first (λ e. e.wallet_id == wallet_id && has_key key e.idempotency_key)

-- An absent key and an empty one are both falsy.
unfoldable pub check_idempotency : ℕ → Option String → List LedgerEntry → Option LedgerEntry
check_idempotency wallet_id none es = none
check_idempotency wallet_id (some key) es =
    if str_eq key "" then none else find_key wallet_id key es

-- `key or default`
unfoldable pub key_or : Option String → String → String
key_or none default_key = default_key
key_or (some key) default_key = if str_eq key "" then default_key else key
