-- ===== src/Ledger/Transfers.antt =====
-- The operations of `WalletService` that debit one wallet and credit another with one amount.
use apna_mandla.Prelude.{
  ℕ, ◌+◌, ◌≡◌, refl, false, Option, none, [], ◌∷◌, arith, inl, inr, String, ◌∙◌, ap,
}
use apna_mandla.Prelude.Int.{ℤ, pos, ◌-ℤ◌, ◌≤ℤ◌, -ℤ-cancel_right}
use apna_mandla.Prelude.Text.{f_string, str}
use apna_mandla.Money.{Decimal, round}
use apna_mandla.Money.Rounding.{round-of_paise}
use apna_mandla.Schema.{LedgerEntry, Books, Db, withdrawal, refund}
use apna_mandla.Env.{Env}
use apna_mandla.Session.{ok, Result-cases}
use apna_mandla.Ledger.Rows.{platform_user_id, key_or}
use apna_mandla.Ledger.Posting.{Posting, credit, debit}
use apna_mandla.Ledger.Operations.{
  posting, for_withdrawal, side_key, initiate_withdrawal, reverse_withdrawal,
}
use apna_mandla.Ledger.Invariant.{IsValid}
use apna_mandla.Ledger.Validity.{debit-Keeps}
use apna_mandla.Ledger.Effects.{total, used}
use apna_mandla.Ledger.Outcome.{credit_outcome, debit_outcome}
use apna_mandla.Ledger.Refinement.{
  view, move, used-none, credit-move, credit-total, debit-move, debit-total,
}

-- A debit and then a credit that both returned.
record Pair (env : Env) (p q : Posting) (ip : Option String) (d d' : Db) : Type 0 where
  start : Db
  between : Db
  debited : LedgerEntry
  credited : LedgerEntry
  same_books : start.books ≡ d.books
  same_tables : start.tables ≡ d.tables
  first_side : debit env p ip start ≡ ok (debited, between)
  second_side : credit env q between ≡ ok (credited, d')

module _ {env : Env} {p q : Posting} {ip : Option String} {d d' : Db}
    (t : Pair env p q ip d d') where
  pair-tables : d'.tables ≡ d.tables
  pair-tables =
      (credit_outcome env q t.between t.credited d' t.second_side).0
      ∙ (debit_outcome env p ip t.start t.debited t.between t.first_side).0
      ∙ t.same_tables

module _ {env : Env} {p q : Posting} {ip : Option String} {d d' : Db} (t : Pair env p q ip d d')
    (valid : IsValid env d.books) where
  pair_start : IsValid env t.start.books
  pair_start = rw t.same_books valid

  pair_between : IsValid env t.between.books
  pair_between = (debit-Keeps env p ip).at t.start t.debited t.between pair_start t.first_side

  pair-move :
      view d'.books
      ≡ move q.user_id q.idempotency_key
          (round q.amount)
          (move p.user_id p.idempotency_key (pos 0 -ℤ round p.amount) (view d.books))
  pair-move =
      credit-move env q t.between t.credited d' pair_between t.second_side
      ∙ ap (move q.user_id q.idempotency_key (round q.amount)) (
          debit-move env p t.start t.debited t.between pair_start ip t.first_side
          ∙ ap (λ b. move p.user_id p.idempotency_key (pos 0 -ℤ round p.amount) (view b))
              t.same_books)

  -- Both keys are new, the second one also after the first posting.
  pair-total :
      used p.user_id p.idempotency_key d.books ≡ false
      → (move p.user_id p.idempotency_key (pos 0 -ℤ round p.amount) (view d.books)).used_key
          q.user_id q.idempotency_key
        ≡ false
      → round p.amount ≡ round q.amount
      → total d'.books ≡ total d.books
  pair-total fresh_p fresh_q same = ground (
    arith,
    ap total t.same_books,
    ap (used p.user_id p.idempotency_key) t.same_books,
    ap (λ b. b.used_key q.user_id q.idempotency_key)
        (debit-move env p t.start t.debited t.between pair_start ip t.first_side),
    ap
        (λ b.
          (move p.user_id p.idempotency_key (pos 0 -ℤ round p.amount) (view b)).used_key q.user_id
            q.idempotency_key)
        t.same_books,
    debit-total env p t.start t.debited t.between pair_start ip t.first_side,
    credit-total env q t.between t.credited d' pair_between t.second_side,
    -ℤ-cancel_right (total d.books) (round q.amount),
  )

module _ (env : Env) (u : ℕ) (amount : Decimal) (w : ℕ) (s : Option ℕ) (d d' : Db) where
  abbrev reversal : ℕ → Posting
  reversal v = posting v (round amount) refund (env.uuid d.ticks) (for_withdrawal w s) none

  reverse-Pair :
      reverse_withdrawal env u amount w s d ≡ ok (tt, d')
      → Pair env (reversal platform_user_id) (reversal u) none d d'
  unfolding reverse_withdrawal
  reverse-Pair h =
      let d1 = record d { ticks = d.ticks + 1 } in
      elim (Result-cases (debit env (reversal platform_user_id) none d1)) [
        | inl (x, failed) ↦ absurd (ground arith)
        | inr (e1, d2, c1) ↦ elim (Result-cases (credit env (reversal u) d2)) [
          | inl (x, failed) ↦ absurd (ground arith)
          | inr (e2, d3, c2) ↦
              let same : d3 ≡ d' = ground arith in
              record {
                start = d1;
                between = d2;
                debited = e1;
                credited = e2;
                same_books = refl;
                same_tables = refl;
                first_side = c1;
                second_side = rw (← same) c2;
              }
        ]
      ]

abbrev pub withdrawal_key : ℕ → Option String → String → Option String
withdrawal_key w key suffix = side_key (key_or key (f_string ("withdrawal-" ∷ str w ∷ []))) suffix

module _ (env : Env) (u : ℕ) (amount : Decimal) (w : ℕ) (key : Option String) (s : Option ℕ)
    (ip : Option String) (d : Db) (e : LedgerEntry) (d' : Db) where
  abbrev escrow : ℕ → String → Posting
  escrow v suffix =
      posting v (round amount) withdrawal (env.uuid d.ticks) (for_withdrawal w s)
        (withdrawal_key w key suffix)

  initiate-Pair :
      initiate_withdrawal env u amount w key s ip d ≡ ok (e, d')
      → Pair env (escrow u "-user-dr") (escrow platform_user_id "-platform-cr") ip d d'
        × (env.settings.min_withdrawal_amount ≤ℤ round amount)
  unfolding initiate_withdrawal
  initiate-Pair h =
      let d1 = record d { ticks = d.ticks + 1 } in
      elim (Result-cases (debit env (escrow u "-user-dr") ip d1)) [
        | inl (x, failed) ↦ absurd (ground arith)
        | inr (e1, d2, c1) ↦
            elim (Result-cases (credit env (escrow platform_user_id "-platform-cr") d2)) [
              | inl (x, failed) ↦ absurd (ground arith)
              | inr (e2, d3, c2) ↦
                  let same : d3 ≡ d' = ground arith in
                  (
                    record {
                      start = d1;
                      between = d2;
                      debited = e1;
                      credited = e2;
                      same_books = refl;
                      same_tables = refl;
                      first_side = c1;
                      second_side = rw (← same) c2;
                    },
                    ground arith,
                  )
            ]
      ]

used_move-none :
    (u v : ℕ) (k : Option String) (x : ℤ) (b : Books)
    → (move v k x (view b)).used_key u none ≡ false
unfolding move
used_move-none u v k x b = ground (arith, used-none u b)

module _ (env : Env) (u : ℕ) (amount : Decimal) (w : ℕ) (s : Option ℕ) (d d' : Db)
    (valid : IsValid env d.books) (h : reverse_withdrawal env u amount w s d ≡ ok (tt, d')) where
  pub reverse_withdrawal-move :
      view d'.books
      ≡ move u none
          (round amount)
          (move platform_user_id none (pos 0 -ℤ round amount) (view d.books))
  reverse_withdrawal-move =
      pair-move (reverse-Pair env u amount w s d d' h) valid
      ∙ rw (round-of_paise (round amount)) refl

  pub reverse_withdrawal-total : total d'.books ≡ total d.books
  reverse_withdrawal-total =
      pair-total (reverse-Pair env u amount w s d d' h) valid (used-none platform_user_id d.books)
        (used_move-none u platform_user_id none _ d.books) refl

  pub reverse_withdrawal-tables : d'.tables ≡ d.tables
  reverse_withdrawal-tables = pair-tables (reverse-Pair env u amount w s d d' h)

module _ (env : Env) (u : ℕ) (amount : Decimal) (w : ℕ) (key : Option String) (s : Option ℕ)
    (ip : Option String) (d : Db) (e : LedgerEntry) (d' : Db) (valid : IsValid env d.books)
    (h : initiate_withdrawal env u amount w key s ip d ≡ ok (e, d')) where
  pub initiate_withdrawal-move :
      view d'.books
      ≡ move platform_user_id
          (withdrawal_key w key "-platform-cr")
          (round amount)
          (move u (withdrawal_key w key "-user-dr") (pos 0 -ℤ round amount) (view d.books))
  initiate_withdrawal-move =
      pair-move (initiate-Pair env u amount w key s ip d e d' h).0 valid
      ∙ rw (round-of_paise (round amount)) refl

  pub initiate_withdrawal-tables : d'.tables ≡ d.tables
  initiate_withdrawal-tables = pair-tables (initiate-Pair env u amount w key s ip d e d' h).0
