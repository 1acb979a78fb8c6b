-- ===== src/Withdrawal/Decisions.antt =====
-- The decisions on a withdrawal request: `approve_withdrawal` and `reject_withdrawal` of
-- Backend/app/routes/withdrawal.py.
use apna_mandla.Prelude.{
  ℕ, ◌≡◌, ◌≢◌, refl, String, Option, none, some, arith, inl, inr, Option-cases, ◌∙◌, ap, ◌⊎◌,
}
use apna_mandla.Prelude.Int.{pos, ◌-ℤ◌}
use apna_mandla.Money.{of_paise}
use apna_mandla.Money.Rounding.{round-of_paise}
use apna_mandla.Schema.{Db, WithdrawalRequest, pending, completed, rejected}
use apna_mandla.Env.{Env}
use apna_mandla.Session.{ok, err, Result-cases, http_exception}
use apna_mandla.Ledger.{platform_user_id, reverse_withdrawal}
use apna_mandla.Ledger.Invariant.{IsValid}
use apna_mandla.Ledger.Effects.{total}
use apna_mandla.Ledger.Refinement.{view, move}
use apna_mandla.Ledger.Transfers.{
  reverse_withdrawal-move, reverse_withdrawal-total, reverse_withdrawal-tables,
}
use apna_mandla.Withdrawal.{save_request, answering_500, approve_withdrawal, reject_withdrawal}
use apna_mandla.Withdrawal.Lookup.{request, Decided, decided}

module _ (env : Env) (i admin : ℕ) (d d' : Db) where
  pub approve_withdrawal_lem :
      approve_withdrawal env i admin d ≡ ok (tt, d')
      → (r : WithdrawalRequest) × Decided i completed r d d' × (d'.books ≡ d.books)
  unfolding approve_withdrawal save_request
  approve_withdrawal_lem h = elim (Option-cases (request i d)) [
    | inl absent ↦ absurd (ground arith)
    | inr (r, found) ↦ (
      r,
      decided i d d' r
          (record r {
            status = completed;
            processed_by_id = some admin;
            processed_at = some (env.clock d.ticks);
          })
          found (ground arith) refl refl refl (ground arith),
      ground arith,
    )
  ]

-- What a rejection did to the money of the request `r`.
pub record Returned (r : WithdrawalRequest) (d d' : Db) : Type 0 where
  pub moved :
      view d'.books
      ≡ move r.user_id none r.amount (move platform_user_id none (pos 0 -ℤ r.amount) (view d.books))
  pub conserved : total d'.books ≡ total d.books

module _ (env : Env) (i admin : ℕ) (reason : Option String) (d d' : Db) where
  -- In valid books, a rejection that returns has closed a pending request and changed no other
  -- one, and has moved its amount from the platform to its user; the money in all wallets together
  -- is the same.
  pub reject_withdrawal_lem :
      IsValid env d.books
      → reject_withdrawal env i reason admin d ≡ ok (tt, d')
      → (r : WithdrawalRequest) × Decided i rejected r d d' × Returned r d d'
  unfolding reject_withdrawal save_request answering_500
  reject_withdrawal_lem valid h = elim (Option-cases (request i d)) [
    | inl absent ↦ absurd (ground arith)
    | inr (r, found) ↦
        elim (Result-cases (reverse_withdrawal env r.user_id (of_paise r.amount) r.id none d)) [
          | inl (x, failed) ↦ absurd (ground arith)
          | inr (_, e, done) ↦
              let tables =
                reverse_withdrawal-tables env r.user_id (of_paise r.amount) r.id none d e valid
                  done in
              let books : d'.books ≡ e.books = ground arith in
              (
                r,
                decided i d d' r
                    (record r {
                      status = rejected;
                      admin_note = reason;
                      processed_by_id = some admin;
                      processed_at = some (env.clock e.ticks);
                    })
                    found (ground arith) refl refl refl (ground arith),
                record {
                  moved =
                      ap view books
                      ∙ reverse_withdrawal-move env r.user_id (of_paise r.amount) r.id none d e
                          valid done
                      ∙ rw (round-of_paise r.amount) refl;
                  conserved =
                      ap total books
                      ∙ reverse_withdrawal-total env r.user_id (of_paise r.amount) r.id none d e
                          valid done;
                },
              )
        ]
  ]

-- A request that is not pending can be neither approved nor rejected.
pub decided_is_final :
    (env : Env) (i admin : ℕ) (reason : Option String) (d : Db) (r : WithdrawalRequest)
    → request i d ≡ some r
    → r.status ≢ pending
    → (approve_withdrawal env i admin d ≡ err (http_exception 400))
      × (reject_withdrawal env i reason admin d ≡ err (http_exception 400))
unfolding approve_withdrawal reject_withdrawal
decided_is_final env i admin reason d r found decided = (ground arith, ground arith)

-- A request is decided at most once: from valid books, after an approval or a rejection that
-- returned, both calls answer 400 for it.
pub decided_once :
    (env : Env) (i admin other : ℕ) (reason note : Option String) (d d' : Db)
    → IsValid env d.books
    → (approve_withdrawal env i admin d ≡ ok (tt, d'))
      ⊎ (reject_withdrawal env i reason admin d ≡ ok (tt, d'))
    → (approve_withdrawal env i other d' ≡ err (http_exception 400))
      × (reject_withdrawal env i note other d' ≡ err (http_exception 400))
decided_once env i admin other reason note d d' valid (inl h) =
    let t = (approve_withdrawal_lem env i admin d d' h).1 in
    decided_is_final env i other note d' t.after t.now_found (λ p. cc (t.now_decided, p))
decided_once env i admin other reason note d d' valid (inr h) =
    let t = (reject_withdrawal_lem env i admin reason d d' valid h).1 in
    decided_is_final env i other note d' t.after t.now_found (λ p. cc (t.now_decided, p))
