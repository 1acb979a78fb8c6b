-- ===== src/Ledger/Validity.antt =====
-- The operations of `WalletService` and the invariant of the books.
use apna_mandla.Prelude.{ℕ, ◌≡◌, Option, inl, inr, Bool, String, ap, arith}
use apna_mandla.Prelude.Int.{int_laws}
use apna_mandla.Money.{Decimal}
use apna_mandla.Schema.{Db, Books, Tables, Wallet}
use apna_mandla.Env.{Env}
use apna_mandla.Session.{M, ok}
use apna_mandla.Session.Keeps.{Keeps, keeps_rules, Keeps-bind}
use apna_mandla.Ledger.Posting.{Posting, credit, debit}
use apna_mandla.Ledger.Operations.{
  topup_wallet, process_order_payment, process_refund, credit_delivery_fee, initiate_withdrawal,
  reverse_withdrawal, when,
}
use apna_mandla.Ledger.Rows.{get_or_create_wallet}
use apna_mandla.Ledger.Invariant.{IsValid, opened}
use apna_mandla.Ledger.Outcome.{credit_outcome, debit_outcome, get_or_create_wallet_lem}
use apna_mandla.Ledger.Preserve.{opened-IsValid, Posted-IsValid}

module _ (env : Env) where
  abbrev pub Good : Books → Tables → Type 0
  Good b t = IsValid env b

  pub credit-Keeps : (p : Posting) → Keeps Good (credit env p)
  credit-Keeps p = record {
    at = λ d e d' v h. elim (credit_outcome env p d e d' h).1 [
      | inl again ↦ rw again.same (opened-IsValid env p.user_id d.books v)
      | inr row ↦ Posted-IsValid env p _ _ _ e d.books d'.books v row (omega int_laws)
    ];
  }

  pub debit-Keeps : (p : Posting) (ip : Option String) → Keeps Good (debit env p ip)
  debit-Keeps p ip = record {
    at = λ d e d' v h. elim (debit_outcome env p ip d e d' h).1 [
      | inl again ↦ rw again.same (opened-IsValid env p.user_id d.books v)
      | inr row ↦ Posted-IsValid env p _ _ _ e d.books d'.books v row (omega int_laws)
    ];
  }

  created :
      (u : ℕ) (d : Db) {w : Wallet} {d' : Db}
      → get_or_create_wallet u d ≡ ok (w, d')
      → d' ≡ record d { books = opened u d.books }
  created u d h = ground (arith, get_or_create_wallet_lem u d)

  pub get_or_create_wallet-Keeps : (u : ℕ) → Keeps Good (get_or_create_wallet u)
  get_or_create_wallet-Keeps u = record {
    at = λ d e d' v h. rw (ap (λ x. x.books) (created u d h)) (opened-IsValid env u d.books v);
  }

  pub Keeps-when :
      {A : Type 0} {P : Books → Tables → Type 0} (b : Bool) (m : M A)
      → Keeps P m
      → Keeps P (when b m)
  unfolding when
  Keeps-when b m k = search keeps_rules

  pub ruleset posting_rules =
      (Keeps-when, keeps_rules, credit-Keeps, debit-Keeps, get_or_create_wallet-Keeps)

  pub topup_wallet-Keeps :
      (u : ℕ) (a : Decimal) (key : Option String) (s : Option ℕ)
      → Keeps Good (topup_wallet env u a key s)
  unfolding topup_wallet
  topup_wallet-Keeps u a key s = search posting_rules depth 12

  pub process_order_payment-Keeps :
      (c shop : ℕ) (a : Decimal) (o : ℕ) (key : Option String) (s : Option ℕ) (ip : Option String)
      → Keeps Good (process_order_payment env c shop a o key s ip)
  unfolding process_order_payment
  process_order_payment-Keeps c shop a o key s ip = search posting_rules depth 20

  pub process_refund-Keeps :
      (c shop : ℕ) (a : Decimal) (o : ℕ) (pct : Decimal) (key : Option String) (s : Option ℕ)
      → Keeps Good (process_refund env c shop a o pct key s)
  unfolding process_refund
  process_refund-Keeps c shop a o pct key s = search posting_rules depth 20

  pub credit_delivery_fee-Keeps :
      (r : ℕ) (a : Decimal) (o : ℕ) (key : Option String) (s : Option ℕ)
      → Keeps Good (credit_delivery_fee env r a o key s)
  unfolding credit_delivery_fee
  credit_delivery_fee-Keeps r a o key s = search posting_rules depth 12

  pub initiate_withdrawal-Keeps :
      (u : ℕ) (a : Decimal) (w : ℕ) (key : Option String) (s : Option ℕ) (ip : Option String)
      → Keeps Good (initiate_withdrawal env u a w key s ip)
  unfolding initiate_withdrawal
  initiate_withdrawal-Keeps u a w key s ip = search posting_rules depth 12

  pub reverse_withdrawal-Keeps :
      (u : ℕ) (a : Decimal) (w : ℕ) (s : Option ℕ) → Keeps Good (reverse_withdrawal env u a w s)
  unfolding reverse_withdrawal
  reverse_withdrawal-Keeps u a w s = search posting_rules depth 12
