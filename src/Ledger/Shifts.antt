-- ===== src/Ledger/Shifts.antt =====
-- One posting under a new key, as what it adds to balances.
use apna_mandla.Prelude.{
  ℕ, ◌≡◌, ◌≢◌, refl, false, Option, arith, if◌then◌else◌, inl, inr, String, ap, ◌==◌, Bool-cases,
}
use apna_mandla.Prelude.Int.{ℤ, pos, ◌+ℤ◌, ◌-ℤ◌, ◌≤ℤ◌, ltb_ℤ, int_laws}
use apna_mandla.Money.{round}
use apna_mandla.Schema.{LedgerEntry, Db}
use apna_mandla.Env.{Env}
use apna_mandla.Session.{ok, Result-cases}
use apna_mandla.Ledger.Posting.{Posting, credit, debit}
use apna_mandla.Ledger.Operations.{when}
use apna_mandla.Ledger.Invariant.{IsValid}
use apna_mandla.Ledger.Validity.{credit-Keeps, debit-Keeps}
use apna_mandla.Ledger.Effects.{balance_of, used}
use apna_mandla.Ledger.Refinement.{move, credit-move, debit-move}
use apna_mandla.Ledger.Payment.{credit-used_other, debit-used_other}

-- The balance of the user `u` changed by `x`, and no other; other users' keys are the same.
pub record Shift (env : Env) (u : ℕ) (x : ℤ) (d d' : Db) : Type 0 where
  pub valid : IsValid env d'.books
  pub balances :
      (v : ℕ)
      → balance_of v d'.books ≡ (if u == v then balance_of v d.books +ℤ x else balance_of v d.books)
  pub others : (v : ℕ) (k : Option String) → u ≢ v → used v k d'.books ≡ used v k d.books

module _ (env : Env) (p : Posting) (d d' : Db) (valid : IsValid env d.books)
    (fresh : used p.user_id p.idempotency_key d.books ≡ false) where
  pub credit-Shift :
      (e : LedgerEntry) → credit env p d ≡ ok (e, d') → Shift env p.user_id (round p.amount) d d'
  unfolding move
  credit-Shift e h = record {
    valid = (credit-Keeps env p).at d e d' valid h;
    balances = λ v. ground (arith, fresh, ap (λ b. b.balance v) (credit-move env p d e d' valid h));
    others = λ v k ne. credit-used_other env p d e d' valid v k h ne;
  }

  pub debit-Shift :
      (ip : Option String) (e : LedgerEntry)
      → debit env p ip d ≡ ok (e, d')
      → Shift env p.user_id (pos 0 -ℤ round p.amount) d d'
  unfolding move
  debit-Shift ip e h = record {
    valid = (debit-Keeps env p ip).at d e d' valid h;
    balances =
        λ v. ground (arith, fresh, ap (λ b. b.balance v) (debit-move env p d e d' valid ip h));
    others = λ v k ne. debit-used_other env p d e d' valid ip v k h ne;
  }

  no_Shift : (x : ℤ) → x ≡ pos 0 → d' ≡ d → Shift env p.user_id x d d'
  no_Shift x zero_x same =
      rw (same, zero_x)
        (record { valid = valid; balances = λ v. grind int_laws; others = λ v k ne. refl })

  pub when-credit-Shift :
      pos 0 ≤ℤ round p.amount
      → when (ltb_ℤ (pos 0) (round p.amount)) (credit env p) d ≡ ok (tt, d')
      → Shift env p.user_id (round p.amount) d d'
  unfolding when
  when-credit-Shift low h = elim (Bool-cases (ltb_ℤ (pos 0) (round p.amount))) [
    | inl positive ↦ elim (Result-cases (credit env p d)) [
      | inl (x, failed) ↦ absurd (ground arith)
      | inr (e, c, done) ↦ let same : c ≡ d' = ground arith in credit-Shift e (rw (← same) done)
    ]
    | inr zero_amount ↦ no_Shift (round p.amount) (grind int_laws) (ground arith)
  ]

  pub when-debit-Shift :
      (ip : Option String)
      → pos 0 ≤ℤ round p.amount
      → when (ltb_ℤ (pos 0) (round p.amount)) (debit env p ip) d ≡ ok (tt, d')
      → Shift env p.user_id (pos 0 -ℤ round p.amount) d d'
  unfolding when
  when-debit-Shift ip low h = elim (Bool-cases (ltb_ℤ (pos 0) (round p.amount))) [
    | inl positive ↦ elim (Result-cases (debit env p ip d)) [
      | inl (x, failed) ↦ absurd (ground arith)
      | inr (e, c, done) ↦ let same : c ≡ d' = ground arith in debit-Shift ip e (rw (← same) done)
    ]
    | inr zero_amount ↦
        let none_taken : round p.amount ≡ pos 0 = grind int_laws in
        no_Shift (pos 0 -ℤ round p.amount) (grind int_laws) (ground arith)
  ]
