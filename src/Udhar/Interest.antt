-- ===== src/Udhar/Interest.antt =====
-- The interest of a day: `_daily_rate` and `apply_interest` of
-- Backend/app/services/udhar_service.py.
use apna_mandla.Prelude.{
  ℕ, ◌+◌, ◌*◌, ◌≤◌, ◌≡◌, refl, String, Option, none, some, arith, inl, inr, Option-cases, ap,
}
use apna_mandla.Prelude.Int.{ℤ, pos, ◌*ℤ◌}
use apna_mandla.Prelude.Text.{eq_refl}
use apna_mandla.Money.{daily_rate, signed_half_up, half_up}
use apna_mandla.Schema.{Db, UdharTransaction, UdharAccount, udhar_interest, interest}
use apna_mandla.Env.{Env}
use apna_mandla.Session.{ok, ◌>>◌, Result-cases, pure}
use apna_mandla.Udhar.Rows.{find_transaction, save_account, add_transaction}
use apna_mandla.Udhar.Charges.{interest_amount, transaction, accrued}
use apna_mandla.Udhar.Operations.{apply_interest, post_interest, interest_key}
use apna_mandla.Udhar.Accounts.{account, find_account-id}
use apna_mandla.Ledger.{platform_user_id, posting, no_links, side_key, credit, debit}

pub daily_rate_lem :
    (annual : ℕ)
    → (daily_rate (pos annual) ≡ pos (half_up (annual * 100) 365))
      × (annual * 100 ≤ 365 * half_up (annual * 100) 365 + 182)
      × (365 * half_up (annual * 100) 365 ≤ annual * 100 + 182)
unfolding daily_rate half_up ◌*ℤ◌ signed_half_up
daily_rate_lem annual = (ground arith, omega arith, omega arith)

abbrev day_key : Env → ℕ → Db → String
day_key env i d = interest_key env i (env.clock (d.ticks + 1))

abbrev booked : String → Db → Option UdharTransaction
booked ik d = find_transaction ik d.tables.udhar_transactions

add_transaction-booked :
    (t : UdharTransaction) (ik : String) (d d' : Db)
    → t.idempotency_key ≡ some ik
    → add_transaction t d ≡ ok (tt, d')
    → booked ik d' ≡ some t
unfolding add_transaction find_transaction
add_transaction-booked t ik d d' key h = ground (arith, eq_refl ik)

abbrev row : UdharAccount → ℤ → String → String → UdharTransaction
row a x cid ik = transaction a none interest x cid ik

log-booked :
    (a : UdharAccount) (txn : UdharTransaction) (ik : String) (d : Db) (t : UdharTransaction)
    (d' : Db)
    → txn.idempotency_key ≡ some ik
    → (save_account a >> (add_transaction txn >> pure (some txn))) d ≡ ok (some t, d')
    → booked ik d' ≡ some t
log-booked a txn ik d t d' key h = elim (Result-cases (save_account a d)) [
  | inl (x, failed) ↦ absurd (ground arith)
  | inr (_, d1, saved) ↦ elim (Result-cases (add_transaction txn d1)) [
    | inl (x, failed) ↦ absurd (ground arith)
    | inr (_, d2, added) ↦
        let end_state : d2 ≡ d' = ground arith in
        let same : txn ≡ t = ground arith in
        rw (← end_state, ← same) (add_transaction-booked txn ik d1 d2 key added)
  ]
]

post_interest-booked :
    (env : Env) (a : UdharAccount) (x : ℤ) (cid ik : String) (d : Db) (t : UdharTransaction)
    (d' : Db)
    → post_interest env a x cid ik d ≡ ok (some t, d')
    → booked ik d' ≡ some t
unfolding post_interest
post_interest-booked env a x cid ik d t d' h =
    let p = posting platform_user_id x udhar_interest cid no_links (side_key ik "-platform-cr") in
    let q = posting platform_user_id x udhar_interest cid no_links (side_key ik "-platform-dr") in
    elim (Result-cases (credit env p d)) [
      | inl (x, failed) ↦ absurd (ground arith)
      | inr (e1, d1, c1) ↦ elim (Result-cases (debit env q none d1)) [
        | inl (x, failed) ↦ absurd (ground arith)
        | inr (e2, d2, c2) ↦
            let a' = accrued a x (env.clock d2.ticks) in
            log-booked a' (row a' x cid ik) ik (record d2 { ticks = d2.ticks + 1 }) t d' refl
              (ground arith)
      ]
    ]

apply_interest-booked :
    (env : Env) (i : ℕ) (d : Db) (t : UdharTransaction) (d' : Db)
    → apply_interest env i d ≡ ok (some t, d')
    → booked (day_key env i d) d' ≡ some t
unfolding apply_interest
apply_interest-booked env i d t d' h = elim (Option-cases (account i d)) [
  | inl absent ↦ absurd (ground arith)
  | inr (a, found) ↦
      let own : a.id ≡ i = find_account-id i d.tables.udhar_accounts found in
      let d2 = record d { ticks = d.ticks + 1 + 1 } in
      let ik = interest_key env a.id (env.clock (d.ticks + 1)) in
      let key : ik ≡ day_key env i d = ap (λ x. interest_key env x (env.clock (d.ticks + 1))) own in
      elim (Option-cases (booked ik d)) [
        | inl fresh ↦ rw (← key) (
            post_interest-booked env a (interest_amount a) (env.uuid d.ticks) ik d2 t d'
              (ground arith))
        | inr (t0, there) ↦ rw (← key) (ground arith)
      ]
]

-- Interest is charged at most once a day: after a call that returned a charge, a later call for
-- the same account on the same date, with no change of the tables in between, changes no row.
pub apply_interest_once :
    (env : Env) (i : ℕ) (d : Db) (t : UdharTransaction) (d1 d2 : Db) (r : Option UdharTransaction)
    (d3 : Db)
    → apply_interest env i d ≡ ok (some t, d1)
    → d2.tables ≡ d1.tables
    → env.iso_date (env.clock (d2.ticks + 1)) ≡ env.iso_date (env.clock (d.ticks + 1))
    → apply_interest env i d2 ≡ ok (r, d3)
    → (d3.books ≡ d2.books) × (d3.tables ≡ d2.tables)
unfolding apply_interest interest_key
apply_interest_once env i d t d1 d2 r d3 first_call same today second_call =
    let there = apply_interest-booked env i d t d1 first_call in
    elim (Option-cases (account i d2)) [
      | inl absent ↦ ground arith
      | inr (a, found) ↦
          let own : a.id ≡ i = find_account-id i d2.tables.udhar_accounts found in
          let known : booked (interest_key env a.id (env.clock (d2.ticks + 1))) d2 ≡ some t =
            rw (own, same, today) there in
          ground (arith, known)
    ]
