-- ===== src/Ledger/Topup.antt =====
-- `WalletService.topup`: the user against the platform.
use apna_mandla.Prelude.{
  ℕ, ◌+◌, ◌≡◌, ◌≢◌, refl, Option, none, arith, if◌then◌else◌, inl, inr, String, ◌∙◌, ap,
}
use apna_mandla.Prelude.Int.{pos, ◌-ℤ◌, ◌≤ℤ◌, +ℤ-cancel_right}
use apna_mandla.Money.{Decimal, round}
use apna_mandla.Money.Rounding.{round-of_paise}
use apna_mandla.Schema.{Wallet, LedgerEntry, Db, topup}
use apna_mandla.Env.{Env}
use apna_mandla.Session.{ok, Result-cases}
use apna_mandla.Ledger.Rows.{platform_user_id}
use apna_mandla.Ledger.Posting.{Posting, credit, debit}
use apna_mandla.Ledger.Operations.{posting, for_session, topup_wallet}
use apna_mandla.Ledger.Invariant.{IsValid, opened}
use apna_mandla.Ledger.Outcome.{get_or_create_wallet_lem, credit_outcome, debit_outcome}
use apna_mandla.Ledger.Validity.{credit-Keeps, debit-Keeps}
use apna_mandla.Ledger.Effects.{balance_of, total, used, opened-total}
use apna_mandla.Ledger.Refinement.{
  view, opened-view, move, used-none, credit-move, credit-total, debit-move, debit-total,
  debit-covered,
}

module _ (env : Env) (u : ℕ) (amount : Decimal) (key : Option String) (s : Option ℕ) (d : Db) where
  abbrev user_side : Posting
  user_side = posting u (round amount) topup (env.uuid d.ticks) (for_session s) key

  abbrev platform_side : Posting
  platform_side =
      posting platform_user_id (round amount) topup (env.uuid d.ticks) (for_session s) none

  -- The two sides of a top-up that returned.
  record Sides (d' : Db) : Type 0 where
    start : Db
    between : Db
    end_state : Db
    credited : LedgerEntry
    debited : LedgerEntry
    same_start : start.books ≡ d.books
    same_tables : start.tables ≡ d.tables
    first_side : credit env user_side start ≡ ok (credited, between)
    second_side : debit env platform_side none between ≡ ok (debited, end_state)
    final : d'.books ≡ opened u end_state.books
    final_tables : d'.tables ≡ end_state.tables

  sides : (w : Wallet) (d' : Db) → topup_wallet env u amount key s d ≡ ok (w, d') → Sides d'
  unfolding topup_wallet
  sides w d' h =
      let d1 = record d { ticks = d.ticks + 1 } in
      elim (Result-cases (credit env user_side d1)) [
        | inl (x, failed) ↦ absurd (ground arith)
        | inr (e1, d2, c1) ↦ elim (Result-cases (debit env platform_side none d2)) [
          | inl (x, failed) ↦ absurd (ground arith)
          | inr (e2, d3, c2) ↦ record {
            start = d1;
            between = d2;
            end_state = d3;
            credited = e1;
            debited = e2;
            same_start = refl;
            same_tables = refl;
            first_side = c1;
            second_side = c2;
            final = ground (arith, get_or_create_wallet_lem u d3);
            final_tables = ground (arith, get_or_create_wallet_lem u d3);
          }
        ]
      ]

  pub topup_wallet-tables :
      (w : Wallet) (d' : Db) → topup_wallet env u amount key s d ≡ ok (w, d') → d'.tables ≡ d.tables
  topup_wallet-tables w d' h =
      let t = sides w d' h in
      t.final_tables
      ∙ (debit_outcome env platform_side none t.between t.debited t.end_state t.second_side).0
      ∙ (credit_outcome env user_side t.start t.credited t.between t.first_side).0
      ∙ t.same_tables

  module _ (w : Wallet) (d' : Db) (valid : IsValid env d.books)
      (h : topup_wallet env u amount key s d ≡ ok (w, d')) where
    parts : Sides d'
    parts = sides w d' h

    IsValid-start : IsValid env parts.start.books
    IsValid-start = rw parts.same_start valid

    IsValid-between : IsValid env parts.between.books
    IsValid-between =
        (credit-Keeps env user_side).at parts.start parts.credited parts.between IsValid-start
          parts.first_side

    IsValid-end : IsValid env parts.end_state.books
    IsValid-end =
        (debit-Keeps env platform_side none).at parts.between parts.debited parts.end_state
          IsValid-between parts.second_side

    pub topup_wallet-move :
        view d'.books
        ≡ move platform_user_id none
            (pos 0 -ℤ round amount)
            (move u key (round amount) (view d.books))
    topup_wallet-move =
        ap view parts.final
        ∙ opened-view env u parts.end_state.books IsValid-end
        ∙ debit-move env platform_side parts.between parts.debited parts.end_state IsValid-between
            none parts.second_side
        ∙ ap (λ x. move platform_user_id none (pos 0 -ℤ x) (view parts.between.books))
            (round-of_paise (round amount))
        ∙ ap (move platform_user_id none (pos 0 -ℤ round amount)) (
            credit-move env user_side parts.start parts.credited parts.between IsValid-start
              parts.first_side
            ∙ ap (λ x. move u key x (view parts.start.books)) (round-of_paise (round amount))
            ∙ ap (λ b. move u key (round amount) (view b)) parts.same_start)

    -- In valid books, a top-up that returns under a new key creates and destroys no money; under a
    -- key that the user has used, its amount disappears from the books.
    pub topup_wallet-total :
        total d'.books
        ≡ (if used u key d.books then total d.books -ℤ round amount else total d.books)
    topup_wallet-total = ground (
      arith,
      +ℤ-cancel_right (total d.books) (round amount),
      round-of_paise (round amount),
      ap total parts.final,
      opened-total u parts.end_state.books,
      ap total parts.same_start,
      ap (used u key) parts.same_start,
      used-none platform_user_id parts.between.books,
      credit-total env user_side parts.start parts.credited parts.between IsValid-start
          parts.first_side,
      debit-total env platform_side parts.between parts.debited parts.end_state IsValid-between none
          parts.second_side,
    )

    pub topup_wallet-needs_funds :
        u ≢ platform_user_id → round amount ≤ℤ balance_of platform_user_id d.books
    unfolding move
    topup_wallet-needs_funds ne = ground (
      arith,
      round-of_paise (round amount),
      ap (balance_of platform_user_id) parts.same_start,
      ap (λ x. x.balance platform_user_id)
          (credit-move env user_side parts.start parts.credited parts.between IsValid-start
            parts.first_side),
      debit-covered env platform_side parts.between parts.debited parts.end_state IsValid-between
          none parts.second_side (used-none platform_user_id parts.between.books),
    )
