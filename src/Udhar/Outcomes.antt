-- ===== src/Udhar/Outcomes.antt =====
-- A purchase on credit and a repayment: `use_credit` and `repay` of
-- Backend/app/services/udhar_service.py.
use apna_mandla.Prelude.{
  ℕ, ◌+◌, ◌≡◌, refl, String, false, Option, none, [], ◌∷◌, arith, inl, inr, Option-cases, ◌∙◌,
}
use apna_mandla.Prelude.Int.{ℤ, pos, ◌+ℤ◌, ◌-ℤ◌, ◌≤ℤ◌, eqb_ℤ}
use apna_mandla.Prelude.Text.{f_string, str}
use apna_mandla.Money.{Decimal, round}
use apna_mandla.Money.Rounding.{round-of_paise}
use apna_mandla.Schema.{Db, UdharAccount, active, UdharTransaction, udhar_debit, udhar_repayment}
use apna_mandla.Env.{Env}
use apna_mandla.Session.{ok, Result-cases}
use apna_mandla.Ledger.{platform_user_id, posting, no_links, side_key, key_or, credit, debit}
use apna_mandla.Ledger.Outcome.{credit_outcome, debit_outcome}
use apna_mandla.Udhar.Rows.{find_transaction, save_account, add_transaction, is_closed}
use apna_mandla.Udhar.Charges.{charged, repaid}
use apna_mandla.Udhar.Operations.{order_or, use_credit, repay}
use apna_mandla.Udhar.Accounts.{account, Changed, changed}

-- The key under which `use_credit` looks its transaction up.
abbrev pub use_key : Env → ℕ → Option ℕ → Option String → ℕ → String
use_key env i order_id key tick =
    key_or key (f_string ("udhar-use-" ∷ str i ∷ "-" ∷ order_or order_id (env.uuid_hex8 tick) ∷ []))

abbrev pub known : String → Db → Option UdharTransaction
known ik d = find_transaction ik d.tables.udhar_transactions

-- A purchase of `amount` on the account `i` was allowed and booked.
pub record Purchase (i : ℕ) (amount : ℤ) (txn : UdharTransaction) (d d' : Db) : Type 0 where
  pub before : UdharAccount
  pub after : UdharAccount
  pub changes : Changed i before after d d'
  pub was_active : before.status ≡ active
  pub within_limit : before.outstanding_balance +ℤ amount ≤ℤ before.credit_limit
  pub owes : after.outstanding_balance ≡ before.outstanding_balance +ℤ amount
  pub same_limit : after.credit_limit ≡ before.credit_limit
  pub logged : d'.tables.udhar_transactions ≡ txn ∷ d.tables.udhar_transactions

module _ (env : Env) (i : ℕ) (raw : Decimal) (u : ℕ) (o : Option ℕ) (key : Option String) (d : Db)
    (txn : UdharTransaction) (d' : Db) where
  -- A purchase on credit that returns under a new key was made on an active account, has raised
  -- what the account owes by the rounded amount, to no more than its limit, has logged one row,
  -- and has changed no other account.
  pub use_credit_lem :
      known (use_key env i o key d.ticks) d ≡ none
      → use_credit env i raw u o key d ≡ ok (txn, d')
      → Purchase i (round raw) txn d d'
  unfolding use_credit save_account add_transaction charged
  use_credit_lem fresh h = elim (Option-cases (account i d)) [
    | inl absent ↦ absurd (ground arith)
    | inr (a, found) ↦
        let ik = use_key env i o key d.ticks in
        let cid = env.uuid (d.ticks + 1 + 1) in
        let links = record no_links { order_id = o } in
        let p = posting u (round raw) udhar_debit cid links (side_key ik "-shop-cr") in
        let q =
          posting platform_user_id (round raw) udhar_debit cid links (side_key ik "-platform-dr") in
        let d3 = record d { ticks = d.ticks + 1 + 1 + 1 } in
        elim (Result-cases (credit env p d3)) [
          | inl (x, failed) ↦ absurd (ground arith)
          | inr (e1, d4, c1) ↦ elim (Result-cases (debit env q none d4)) [
            | inl (x, failed) ↦ absurd (ground arith)
            | inr (e2, d5, c2) ↦
                let same : d5.tables ≡ d.tables =
                  (debit_outcome env q none d4 e2 d5 c2).0 ∙ (credit_outcome env p d3 e1 d4 c1).0 in
                record {
                  before = a;
                  after = charged a (round raw) (env.clock d5.ticks);
                  changes =
                      changed i d d' a (charged a (round raw) (env.clock d5.ticks)) found refl
                        (ground (arith, same));
                  was_active = ground arith;
                  within_limit = ground arith;
                  owes = round-of_paise (a.outstanding_balance +ℤ round raw);
                  same_limit = refl;
                  logged = ground (arith, same);
                }
          ]
        ]
  ]

-- The key under which `repay` looks its transaction up.
abbrev pub repay_key : Env → ℕ → Option String → ℕ → String
repay_key env i key tick =
    key_or key (f_string ("udhar-repay-" ∷ str i ∷ "-" ∷ env.uuid_hex8 tick ∷ []))

-- A repayment of `amount` on the account `i` was allowed and booked.
pub record Repayment (i : ℕ) (amount : ℤ) (txn : UdharTransaction) (d d' : Db) : Type 0 where
  pub before : UdharAccount
  pub after : UdharAccount
  pub changes : Changed i before after d d'
  pub was_open : is_closed before.status ≡ false
  pub covered : amount ≤ℤ before.outstanding_balance
  pub owes : after.outstanding_balance ≡ before.outstanding_balance -ℤ amount
  pub settled : is_closed after.status ≡ eqb_ℤ after.outstanding_balance (pos 0)
  pub logged : d'.tables.udhar_transactions ≡ txn ∷ d.tables.udhar_transactions

repaid-owes :
    (a : UdharAccount) (amount : ℤ) (t : ℕ)
    → (repaid a amount t).outstanding_balance ≡ a.outstanding_balance -ℤ amount
unfolding repaid
repaid-owes a amount t = ground (arith, round-of_paise (a.outstanding_balance -ℤ amount))

repaid-id : (a : UdharAccount) (amount : ℤ) (t : ℕ) → (repaid a amount t).id ≡ a.id
unfolding repaid
repaid-id a amount t = ground arith

repaid-closed :
    (a : UdharAccount) (amount : ℤ) (t : ℕ)
    → is_closed a.status ≡ false
    → is_closed (repaid a amount t).status ≡ eqb_ℤ (repaid a amount t).outstanding_balance (pos 0)
unfolding repaid
repaid-closed a amount t h = ground arith

module _ (env : Env) (i u : ℕ) (raw : Decimal) (key : Option String) (d : Db)
    (txn : UdharTransaction) (d' : Db) where
  -- A repayment that returns under a new key was made on an account that was not closed, has
  -- lowered what it owes by the rounded amount, to no less than nothing, has closed it just if
  -- nothing is owed any more, has logged one row, and has changed no other account.
  pub repay_lem :
      known (repay_key env i key d.ticks) d ≡ none
      → repay env i u raw key d ≡ ok (txn, d')
      → Repayment i (round raw) txn d d'
  unfolding repay save_account add_transaction
  repay_lem fresh h = elim (Option-cases (account i d)) [
    | inl absent ↦ absurd (ground arith)
    | inr (a, found) ↦
        let ik = repay_key env i key d.ticks in
        let cid = env.uuid (d.ticks + 1) in
        let p = posting u (round raw) udhar_repayment cid no_links (side_key ik "-borrower-dr") in
        let q =
          posting platform_user_id (round raw) udhar_repayment cid no_links
            (side_key ik "-platform-cr") in
        let d3 = record d { ticks = d.ticks + 1 + 1 } in
        elim (Result-cases (debit env p none d3)) [
          | inl (x, failed) ↦ absurd (ground arith)
          | inr (e1, d4, c1) ↦ elim (Result-cases (credit env q d4)) [
            | inl (x, failed) ↦ absurd (ground arith)
            | inr (e2, d5, c2) ↦
                let same : d5.tables ≡ d.tables =
                  (credit_outcome env q d4 e2 d5 c2).0 ∙ (debit_outcome env p none d3 e1 d4 c1).0 in
                let a' = repaid a (round raw) (env.clock d5.ticks) in
                record {
                  before = a;
                  after = a';
                  changes =
                      changed i d d' a a' found (repaid-id a (round raw) (env.clock d5.ticks))
                        (ground (arith, same));
                  was_open = ground arith;
                  covered = ground arith;
                  owes = repaid-owes a (round raw) (env.clock d5.ticks);
                  settled = repaid-closed a (round raw) (env.clock d5.ticks) (ground arith);
                  logged = ground (arith, same);
                }
          ]
        ]
  ]
