-- ===== src/Ledger/Outcome.antt =====
-- The two ways in which a call of `_credit` or `_debit` returns.
use apna_mandla.Prelude.{
  ℕ, ◌≡◌, refl, false, Option, none, some, ◌∷◌, arith, ◌⊎◌, inl, inr, String, Option-cases,
  Bool-cases, ◌==◌,
}
use apna_mandla.Prelude.Int.{ℤ, pos, ◌+ℤ◌, ◌-ℤ◌, ◌≤ℤ◌, ◌<ℤ◌}
use apna_mandla.Money.{round}
use apna_mandla.Money.Rounding.{round-of_paise}
use apna_mandla.Schema.{Wallet, LedgerEntry, EntrySide, dr, cr, Books, Db}
use apna_mandla.Env.{Env}
use apna_mandla.Session.{ok, Result-cases}
use apna_mandla.Fraud.Frame.{Frame, pre_check-Frames}
use apna_mandla.Ledger.Rows.{check_idempotency, put_wallet, get_or_create_wallet, platform_user_id}
use apna_mandla.Ledger.Posting.{
  Posting, key_taken, entry_of, write_entry, credit, debit, post, fraud_guard,
}
use apna_mandla.Ledger.Invariant.{wallet_for, opened, posted}

-- The call found `e`, and changed at most the existence of the wallet.
pub record Replayed (p : Posting) (e : LedgerEntry) (b b' : Books) : Type 0 where
  pub found :
      check_idempotency (wallet_for p.user_id b).id p.idempotency_key (opened p.user_id b).entries
      ≡ some e
  pub same : b' ≡ opened p.user_id b

-- The call wrote `e`.
pub record Posted (env : Env) (p : Posting) (side : EntrySide) (amount balance : ℤ)
    (e : LedgerEntry) (b b' : Books) : Type 0 where
  pub not_found :
      check_idempotency (wallet_for p.user_id b).id p.idempotency_key (opened p.user_id b).entries
      ≡ none
  pub unfrozen : (wallet_for p.user_id b).is_frozen ≡ false
  pub row :
      e
      ≡ entry_of env p
          (wallet_for p.user_id b)
          side
          amount
          balance
          e.created_at
          (opened p.user_id b).entries
  pub books : b' ≡ posted (wallet_for p.user_id b) balance e (opened p.user_id b)
  pub positive : pos 0 <ℤ amount
  pub solvent : pos 0 ≤ℤ balance
  pub untaken :
      key_taken (wallet_for p.user_id b).id p.idempotency_key (opened p.user_id b).entries ≡ false

pub get_or_create_wallet_lem :
    (u : ℕ) (d : Db)
    → get_or_create_wallet u d ≡ ok (wallet_for u d.books, record d { books = opened u d.books })
unfolding get_or_create_wallet wallet_for opened
get_or_create_wallet_lem u d = ground arith

fraud_guard-Frame :
    (env : Env) (p : Posting) (w : Wallet) (a : ℤ) (ip : Option String) (d : Db) {d' : Db}
    → fraud_guard env p w a ip d ≡ ok (tt, d')
    → Frame d d'
unfolding fraud_guard
fraud_guard-Frame env p w a ip d {d'} h = elim (Bool-cases (p.user_id == platform_user_id)) [
  | inl platform ↦ record { same_books = ground arith; same_tables = ground arith }
  | inr other ↦
      (pre_check-Frames (record { user_id = p.user_id; wallet_id = w.id; ip_address = ip }) env
          a).at
        d tt d' (ground arith)
]

-- A row that was written passed the constraints of the tables.
record Written (env : Env) (p : Posting) (w : Wallet) (side : EntrySide) (a balance : ℤ)
    (e : LedgerEntry) (d d' : Db) : Type 0 where
  tables : d'.tables ≡ d.tables
  row : e ≡ entry_of env p w side a balance e.created_at d.books.entries
  books : d'.books ≡ record d.books { entries = e ∷ d.books.entries }
  positive : pos 0 <ℤ a
  solvent : pos 0 ≤ℤ balance
  untaken : key_taken w.id p.idempotency_key d.books.entries ≡ false

write_entry_lem :
    (env : Env) (p : Posting) (w : Wallet) (side : EntrySide) (a balance : ℤ) (d : Db)
    (e : LedgerEntry) (d' : Db)
    → write_entry env p w side a balance d ≡ ok (e, d')
    → Written env p w side a balance e d d'
unfolding write_entry entry_of
write_entry_lem env p w side a balance d e d' h = record {
  tables = ground arith;
  row = ground arith;
  books = ground arith;
  positive = ground arith;
  solvent = ground arith;
  untaken = ground arith;
}

-- A written row, seen from the state before the wallet was changed.
Posted-of :
    (env : Env) (p : Posting) (side : EntrySide) (a balance : ℤ) (d d1 : Db) (e : LedgerEntry)
    (d' : Db)
    → d1.books ≡ opened p.user_id d.books
    → d1.tables ≡ d.tables
    → check_idempotency
        (wallet_for p.user_id d.books).id
        p.idempotency_key
        (opened p.user_id d.books).entries
      ≡ none
    → (wallet_for p.user_id d.books).is_frozen ≡ false
    → post env p (wallet_for p.user_id d.books) side a balance d1 ≡ ok (e, d')
    → (d'.tables ≡ d.tables) × Posted env p side a balance e d.books d'.books
unfolding entry_of post
Posted-of env p side a balance d d1 e d' same_books same_tables new thawed h =
    let w = wallet_for p.user_id d.books in
    let c = record d1 {
      books = record d1.books {
        wallets = put_wallet (record w { balance = balance }) d1.books.wallets;
      };
    } in
    let t = write_entry_lem env p w side a balance c e d' h in
    (
      ground arith,
      record {
        not_found = new;
        unfrozen = thawed;
        row = ground arith;
        books = ground arith;
        positive = t.positive;
        solvent = t.solvent;
        untaken = ground arith;
      },
    )

-- A credit that returned.
pub credit_outcome :
    (env : Env) (p : Posting) (d : Db) (e : LedgerEntry) (d' : Db)
    → credit env p d ≡ ok (e, d')
    → (d'.tables ≡ d.tables)
      × (Replayed p e d.books d'.books
          ⊎ Posted env p cr
              (round p.amount)
              ((wallet_for p.user_id d.books).balance +ℤ round p.amount)
              e
              d.books
              d'.books)
unfolding credit
credit_outcome env p d e d' h =
    elim (Option-cases (
      check_idempotency (wallet_for p.user_id d.books).id p.idempotency_key
        (opened p.user_id d.books).entries)) [
          | inl new ↦
              let balance = (wallet_for p.user_id d.books).balance +ℤ round p.amount in
              let d1 = record d { books = opened p.user_id d.books } in
              let (tables, row) =
                Posted-of env p cr (round p.amount) balance d d1 e d' refl refl new
                  (ground (arith, get_or_create_wallet_lem p.user_id d))
                  (ground (arith, get_or_create_wallet_lem p.user_id d, round-of_paise balance)) in
              (tables, inr row)
          | inr (x, old) ↦ (
            ground (arith, get_or_create_wallet_lem p.user_id d),
            inl (record {
              found = ground (arith, get_or_create_wallet_lem p.user_id d);
              same = ground (arith, get_or_create_wallet_lem p.user_id d);
            }),
          )
        ]

-- A debit that returned passed the fraud checks, and was covered if it wrote a row.
pub debit_outcome :
    (env : Env) (p : Posting) (ip : Option String) (d : Db) (e : LedgerEntry) (d' : Db)
    → debit env p ip d ≡ ok (e, d')
    → (d'.tables ≡ d.tables)
      × (Replayed p e d.books d'.books
          ⊎ Posted env p dr
              (round p.amount)
              ((wallet_for p.user_id d.books).balance -ℤ round p.amount)
              e
              d.books
              d'.books)
unfolding debit
debit_outcome env p ip d e d' h =
    elim (Option-cases (
      check_idempotency (wallet_for p.user_id d.books).id p.idempotency_key
        (opened p.user_id d.books).entries)) [
          | inl new ↦
              let w = wallet_for p.user_id d.books in
              let balance = w.balance -ℤ round p.amount in
              let d1 = record d { books = opened p.user_id d.books } in
              elim (Result-cases (fraud_guard env p w (round p.amount) ip d1)) [
                | inl (x, blocked) ↦ absurd (ground (arith, get_or_create_wallet_lem p.user_id d))
                | inr (_, d2, passed) ↦
                    let frame = fraud_guard-Frame env p w (round p.amount) ip d1 passed in
                    let (tables, row) =
                      Posted-of env p dr (round p.amount) balance d d2 e d' frame.same_books
                        frame.same_tables new (ground (arith, get_or_create_wallet_lem p.user_id d))
                        (ground
                          (arith, get_or_create_wallet_lem p.user_id d, round-of_paise balance)) in
                    (tables, inr row)
              ]
          | inr (x, old) ↦ (
            ground (arith, get_or_create_wallet_lem p.user_id d),
            inl (record {
              found = ground (arith, get_or_create_wallet_lem p.user_id d);
              same = ground (arith, get_or_create_wallet_lem p.user_id d);
            }),
          )
        ]
