-- ===== src/Ledger/Frame.antt =====
-- The operations of `WalletService` change wallets, ledger rows and flags, and no other table.
use apna_mandla.Prelude.{ℕ, ◌≡◌, Bool, Option, String, ◌∙◌, arith}
use apna_mandla.Money.{Decimal}
use apna_mandla.Schema.{Books, Tables}
use apna_mandla.Env.{Env}
use apna_mandla.Session.{M}
use apna_mandla.Session.Keeps.{Keeps, keeps_rules}
use apna_mandla.Ledger.Posting.{Posting, credit, debit}
use apna_mandla.Ledger.Rows.{get_or_create_wallet}
use apna_mandla.Ledger.Operations.{process_order_payment, process_refund, when}
use apna_mandla.Ledger.Outcome.{credit_outcome, debit_outcome, get_or_create_wallet_lem}
use apna_mandla.Ledger.Validity.{Keeps-when}

abbrev pub Same : Tables → Books → Tables → Type 0
Same t b t' = t' ≡ t

module _ (env : Env) (t : Tables) where
  credit-Same : (p : Posting) → Keeps (Same t) (credit env p)
  credit-Same p = record { at = λ d e d' v h. (credit_outcome env p d e d' h).0 ∙ v }

  debit-Same : (p : Posting) (ip : Option String) → Keeps (Same t) (debit env p ip)
  debit-Same p ip = record { at = λ d e d' v h. (debit_outcome env p ip d e d' h).0 ∙ v }

  get_or_create_wallet-Same : (u : ℕ) → Keeps (Same t) (get_or_create_wallet u)
  get_or_create_wallet-Same u = record {
    at = λ d e d' v h. ground (arith, get_or_create_wallet_lem u d, v);
  }

  when-Same : {A : Type 0} (b : Bool) (m : M A) → Keeps (Same t) m → Keeps (Same t) (when b m)
  when-Same b m k = Keeps-when env b m k

  ruleset frame_rules = (when-Same, keeps_rules, credit-Same, debit-Same, get_or_create_wallet-Same)

  pub process_order_payment-Same :
      (c shop : ℕ) (a : Decimal) (o : ℕ) (key : Option String) (s : Option ℕ) (ip : Option String)
      → Keeps (Same t) (process_order_payment env c shop a o key s ip)
  unfolding process_order_payment
  process_order_payment-Same c shop a o key s ip = search frame_rules depth 20

  pub process_refund-Same :
      (c shop : ℕ) (a : Decimal) (o : ℕ) (pct : Decimal) (key : Option String) (s : Option ℕ)
      → Keeps (Same t) (process_refund env c shop a o pct key s)
  unfolding process_refund
  process_refund-Same c shop a o pct key s = search frame_rules depth 20
