-- ===== src/Udhar/Validity.antt =====
-- The operations on credit accounts and the invariant of the books.
use apna_mandla.Prelude.{ℕ, String, Option, arith}
use apna_mandla.Prelude.Int.{ℤ}
use apna_mandla.Money.{Decimal}
use apna_mandla.Schema.{UdharAccount, UdharTransaction}
use apna_mandla.Env.{Env}
use apna_mandla.Session.Keeps.{Keeps}
use apna_mandla.Ledger.Validity.{Good, posting_rules}
use apna_mandla.Udhar.Rows.{save_account, add_transaction, add_account}
use apna_mandla.Udhar.Operations.{
  new_hex8, create_account, use_credit, repay, post_interest, apply_interest, mark_overdue_accounts,
  add_udhar_debit,
}

module _ (env : Env) where
  save_account-Keeps : (a : UdharAccount) → Keeps (Good env) (save_account a)
  unfolding save_account
  save_account-Keeps a = record { at = λ d x d' v h. ground arith }

  add_transaction-Keeps : (t : UdharTransaction) → Keeps (Good env) (add_transaction t)
  unfolding add_transaction
  add_transaction-Keeps t = record { at = λ d x d' v h. ground arith }

  add_account-Keeps : (a : UdharAccount) → Keeps (Good env) (add_account a)
  unfolding add_account
  add_account-Keeps a = record { at = λ d x d' v h. ground arith }

  new_hex8-Keeps : Keeps (Good env) (new_hex8 env)
  new_hex8-Keeps = record { at = λ d x d' v h. ground arith }

  ruleset udhar_rules =
      (posting_rules, save_account-Keeps, add_transaction-Keeps, add_account-Keeps, new_hex8-Keeps)

  pub create_account-Keeps :
      (b shop : ℕ) (limit rate : Decimal) (days : ℕ) (key : Option String)
      → Keeps (Good env) (create_account env b shop limit rate days key)
  unfolding create_account
  create_account-Keeps b shop limit rate days key = search udhar_rules depth 40

  pub use_credit-Keeps :
      (i : ℕ) (a : Decimal) (u : ℕ) (o : Option ℕ) (key : Option String)
      → Keeps (Good env) (use_credit env i a u o key)
  unfolding use_credit
  use_credit-Keeps i a u o key = search udhar_rules depth 40

  pub repay-Keeps :
      (i u : ℕ) (a : Decimal) (key : Option String) → Keeps (Good env) (repay env i u a key)
  unfolding repay
  repay-Keeps i u a key = search udhar_rules depth 40

  post_interest-Keeps :
      (a : UdharAccount) (x : ℤ) (cid ik : String) → Keeps (Good env) (post_interest env a x cid ik)
  unfolding post_interest
  post_interest-Keeps a x cid ik = search udhar_rules depth 30

  pub apply_interest-Keeps : (i : ℕ) → Keeps (Good env) (apply_interest env i)
  unfolding apply_interest
  apply_interest-Keeps i = search (post_interest-Keeps, udhar_rules) depth 40

  pub mark_overdue_accounts-Keeps : Keeps (Good env) (mark_overdue_accounts env)
  unfolding mark_overdue_accounts
  mark_overdue_accounts-Keeps = record { at = λ d x d' v h. ground arith }

  pub add_udhar_debit-Keeps :
      (shop c o : ℕ) (a : Decimal) → Keeps (Good env) (add_udhar_debit env shop c o a)
  unfolding add_udhar_debit
  add_udhar_debit-Keeps shop c o a = search (use_credit-Keeps, udhar_rules) depth 20
