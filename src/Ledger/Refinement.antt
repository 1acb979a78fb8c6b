-- ===== src/Ledger/Refinement.antt =====
-- The abstract bank that `_credit` and `_debit` implement: balances and used keys, by user.
use mathlib.Core.Path.{fun_ext}
use apna_mandla.Prelude.{
  ℕ, ◌≡◌, Bool, false, ◌&&◌, ◌||◌, Option, none, arith, ◌==◌, if◌then◌else◌, inl, inr, String,
}
use apna_mandla.Prelude.Int.{ℤ, pos, ◌+ℤ◌, ◌-ℤ◌, ◌≤ℤ◌, int_laws}
use apna_mandla.Money.{round}
use apna_mandla.Schema.{LedgerEntry, EntrySide, dr, cr, Books, Db}
use apna_mandla.Env.{Env}
use apna_mandla.Session.{ok}
use apna_mandla.Ledger.Rows.{check_idempotency}
use apna_mandla.Ledger.Posting.{Posting, credit, debit}
use apna_mandla.Ledger.Invariant.{IsValid, opened}
use apna_mandla.Ledger.Outcome.{Replayed, Posted, credit_outcome, debit_outcome}
use apna_mandla.Ledger.Effects.{
  balance_of, total, used, same_key, wallet_for-balance, opened-balance, opened-used,
  Replayed-used_before, Replayed-balance, Replayed-total, Replayed-used, Posted-used_before,
  Posted-balance, Posted-total, Posted-used,
}

pub record Bank : Type 0 where
  pub balance : ℕ → ℤ
  pub used_key : ℕ → Option String → Bool

-- A user's balance moves once for each key.
unfoldable pub move : ℕ → Option String → ℤ → Bank → Bank
move u key x bank = if bank.used_key u key then bank else record {
  balance = λ v. if u == v then bank.balance v +ℤ x else bank.balance v;
  used_key = λ v k. bank.used_key v k || (u == v && same_key k key);
}

abbrev pub view : Books → Bank
view b = record { balance = λ v. balance_of v b; used_key = λ v k. used v k b }

pub opened-view : (env : Env) (u : ℕ) (b : Books) → IsValid env b → view (opened u b) ≡ view b
opened-view env u b valid = λ i. record {
  balance = fun_ext (λ v. opened-balance u v b) i;
  used_key = fun_ext (λ v. fun_ext (λ k. opened-used env u v k b valid)) i;
}

pub used-none : (u : ℕ) (b : Books) → used u none b ≡ false
unfolding used check_idempotency
used-none u b = ground arith

module _ (env : Env) (p : Posting) (side : EntrySide) (a x : ℤ) (e : LedgerEntry) (b b' : Books)
    (valid : IsValid env b) where
  Replayed-view : Replayed p e b b' → view b' ≡ move p.user_id p.idempotency_key x (view b)
  unfolding move
  Replayed-view r = rw (Replayed-used_before env p e b b' valid r) (λ i. record {
    balance = fun_ext (λ v. Replayed-balance env p e b b' valid r v) i;
    used_key = fun_ext (λ v. fun_ext (λ k. Replayed-used env p e b b' valid r v k)) i;
  })

  Posted-view :
      Posted env p side a (balance_of p.user_id b +ℤ x) e b b'
      → view b' ≡ move p.user_id p.idempotency_key x (view b)
  unfolding move
  Posted-view r = rw (Posted-used_before env p e b b' valid r) (λ i. record {
    balance = fun_ext (λ v. balance_step v) i;
    used_key = fun_ext (λ v. fun_ext (λ k. Posted-used env p e b b' valid r v k)) i;
  })
    where
      balance_step :
          (v : ℕ)
          → balance_of v b' ≡ (if p.user_id == v then balance_of v b +ℤ x else balance_of v b)
      balance_step v = ground (arith, Posted-balance env p e b b' valid r v)

module _ (env : Env) (p : Posting) (d : Db) (e : LedgerEntry) (d' : Db)
    (valid : IsValid env d.books) where
  -- In valid books, a credit that returns adds its rounded amount to the user's balance and marks
  -- the key as used, unless the key was used before; no other balance and no other key changes.
  pub credit-move :
      credit env p d ≡ ok (e, d')
      → view d'.books ≡ move p.user_id p.idempotency_key (round p.amount) (view d.books)
  credit-move h = elim (credit_outcome env p d e d' h).1 [
    | inl again ↦
        Replayed-view env p cr (round p.amount) (round p.amount) e d.books d'.books valid again
    | inr row ↦
        Posted-view env p cr (round p.amount) (round p.amount) e d.books d'.books valid
          (rw (wallet_for-balance p.user_id d.books) at row)
  ]

  pub credit-total :
      credit env p d ≡ ok (e, d')
      → total d'.books ≡ (
          if used p.user_id p.idempotency_key d.books
          then total d.books
          else total d.books +ℤ round p.amount)
  credit-total h = elim (credit_outcome env p d e d' h).1 [
    | inl again ↦
        rw (Replayed-used_before env p e d.books d'.books valid again)
          (Replayed-total env p e d.books d'.books valid again)
    | inr row ↦ rw (Posted-used_before env p e d.books d'.books valid row) (
        grind (
          int_laws,
          Posted-total env p e d.books d'.books valid row,
          wallet_for-balance p.user_id d.books,
        ))
  ]

  pub debit-total :
      (ip : Option String)
      → debit env p ip d ≡ ok (e, d')
      → total d'.books ≡ (
          if used p.user_id p.idempotency_key d.books
          then total d.books
          else total d.books -ℤ round p.amount)
  debit-total ip h = elim (debit_outcome env p ip d e d' h).1 [
    | inl again ↦
        rw (Replayed-used_before env p e d.books d'.books valid again)
          (Replayed-total env p e d.books d'.books valid again)
    | inr row ↦ rw (Posted-used_before env p e d.books d'.books valid row) (
        grind (
          int_laws,
          Posted-total env p e d.books d'.books valid row,
          wallet_for-balance p.user_id d.books,
        ))
  ]

  -- In valid books, a debit that returns takes its rounded amount off the user's balance and marks
  -- the key as used, unless the key was used before; no other balance and no other key changes.
  pub debit-move :
      (ip : Option String)
      → debit env p ip d ≡ ok (e, d')
      → view d'.books ≡ move p.user_id p.idempotency_key (pos 0 -ℤ round p.amount) (view d.books)
  debit-move ip h = elim (debit_outcome env p ip d e d' h).1 [
    | inl again ↦ Replayed-view env p dr (round p.amount) _ e d.books d'.books valid again
    | inr row ↦
        Posted-view env p dr (round p.amount) (pos 0 -ℤ round p.amount) e d.books d'.books valid
          (rw (wallet_for-balance p.user_id d.books, minus) at row)
  ]
    where
      minus :
          balance_of p.user_id d.books -ℤ round p.amount
          ≡ balance_of p.user_id d.books +ℤ (pos 0 -ℤ round p.amount)
      minus = omega int_laws

  pub debit-covered :
      (ip : Option String)
      → debit env p ip d ≡ ok (e, d')
      → used p.user_id p.idempotency_key d.books ≡ false
      → (pos 1 ≤ℤ round p.amount) × (round p.amount ≤ℤ balance_of p.user_id d.books)
  debit-covered ip h fresh = elim (debit_outcome env p ip d e d' h).1 [
    | inl again ↦ absurd (cc (Replayed-used_before env p e d.books d'.books valid again))
    | inr row ↦ grind (int_laws, row.positive, row.solvent, wallet_for-balance p.user_id d.books)
  ]
