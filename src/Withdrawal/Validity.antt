-- ===== src/Withdrawal/Validity.antt =====
-- The endpoints of a withdrawal and the invariant of the books.
use apna_mandla.Prelude.{ℕ, String, Option, arith}
use apna_mandla.Prelude.Int.{ℤ}
use apna_mandla.Schema.{WithdrawalRequest}
use apna_mandla.Env.{Env}
use apna_mandla.Session.{M}
use apna_mandla.Session.Keeps.{Keeps}
use apna_mandla.Ledger.Validity.{
  Good, posting_rules, initiate_withdrawal-Keeps, reverse_withdrawal-Keeps,
}
use apna_mandla.Withdrawal.{
  save_request, answering, answering_500, add_request, withdraw, approve_withdrawal,
  reject_withdrawal,
}

module _ (env : Env) where
  save_request-Keeps : (r : WithdrawalRequest) → Keeps (Good env) (save_request r)
  unfolding save_request
  save_request-Keeps a = record { at = λ d x d' v h. ground arith }

  add_request-Keeps : (r : WithdrawalRequest) → Keeps (Good env) (add_request r)
  unfolding add_request
  add_request-Keeps a = record { at = λ d x d' v h. ground arith }

  pub answering-Keeps : {A : Type 0} (m : M A) → Keeps (Good env) m → Keeps (Good env) (answering m)
  unfolding answering
  answering-Keeps m k = record { at = λ d x d' v h. k.at d x d' v (ground arith) }

  answering_500-Keeps :
      {A : Type 0} (m : M A) → Keeps (Good env) m → Keeps (Good env) (answering_500 m)
  unfolding answering_500
  answering_500-Keeps m k = record { at = λ d x d' v h. k.at d x d' v (ground arith) }

  ruleset withdrawal_rules = (
    posting_rules, save_request-Keeps, add_request-Keeps, answering-Keeps, answering_500-Keeps,
    initiate_withdrawal-Keeps, reverse_withdrawal-Keeps,
  )

  pub withdraw-Keeps :
      (u : ℕ) (type : String) (bank : Option String) (a : ℤ) (key : Option String)
      → Keeps (Good env) (withdraw env u type bank a key)
  unfolding withdraw
  withdraw-Keeps u type bank a key = search withdrawal_rules depth 30

  pub approve_withdrawal-Keeps : (i admin : ℕ) → Keeps (Good env) (approve_withdrawal env i admin)
  unfolding approve_withdrawal
  approve_withdrawal-Keeps i admin = search withdrawal_rules depth 20

  pub reject_withdrawal-Keeps :
      (i : ℕ) (reason : Option String) (admin : ℕ)
      → Keeps (Good env) (reject_withdrawal env i reason admin)
  unfolding reject_withdrawal
  reject_withdrawal-Keeps i reason admin = search withdrawal_rules depth 20
