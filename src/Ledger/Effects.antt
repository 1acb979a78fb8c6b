-- ===== src/Ledger/Effects.antt =====
-- What the primitives do, seen from outside: users have balances and used keys; wallet rows, ids
-- and the chain are forgotten.
use apna_mandla.Prelude.{
  ℕ, ◌≡◌, refl, Bool, true, false, not, ◌&&◌, ◌||◌, Option, none, some, List, ◌∷◌, arith, ◌==◌,
  if◌then◌else◌, is_some, inl, inr, Option-cases, Bool-cases, ap, sym, ◌∙◌, String, ◌≢◌, ==→eq,
}
use apna_mandla.Prelude.Int.{ℤ, ◌+ℤ◌, int_laws}
use apna_mandla.Prelude.Text.{str_eq}
use apna_mandla.Schema.{LedgerEntry, EntrySide, Books}
use apna_mandla.Env.{Env}
use apna_mandla.Ledger.Rows.{find_wallet, has_key, find_key, check_idempotency}
use apna_mandla.Ledger.Posting.{Posting, entry_of}
use apna_mandla.Ledger.Wallets.{
  sum_balances, balance_in, find_wallet-put_wallet, sum_balances-put_wallet, find_wallet-user_id,
  find_wallet-ids,
}
use apna_mandla.Ledger.Invariant.{IsValid, wallet_for, opened, find_key-unknown}
use apna_mandla.Ledger.Outcome.{Replayed, Posted}
use apna_mandla.Ledger.Preserve.{find_wallet-opened, opened-IsValid}

-- The balance of a user; a user without a wallet has none.
unfoldable pub balance_of : ℕ → Books → ℤ
balance_of u b = balance_in (find_wallet u b.wallets)

-- All the money in the system.
unfoldable pub total : Books → ℤ
total b = sum_balances b.wallets

-- A user's earlier call had this key.
unfoldable pub used : ℕ → Option String → Books → Bool
used u key b = elim (find_wallet u b.wallets) [
  | none ↦ false
  | some w ↦ is_some (check_idempotency w.id key b.entries)
]

-- Two keys that name one call; an empty key names none.
abbrev pub same_key : Option String → Option String → Bool
same_key none j = false
same_key (some k) j = not (str_eq k "") && has_key k j

pub wallet_for-balance : (u : ℕ) (b : Books) → (wallet_for u b).balance ≡ balance_of u b
unfolding wallet_for balance_of
wallet_for-balance u b = ground arith

pub opened-balance : (u v : ℕ) (b : Books) → balance_of v (opened u b) ≡ balance_of v b
unfolding opened balance_of find_wallet
opened-balance u v b = ground arith

pub opened-total : (u : ℕ) (b : Books) → total (opened u b) ≡ total b
unfolding opened total sum_balances
opened-total u b = grind int_laws

check_idempotency-unknown :
    (env : Env) (b : Books) (key : Option String)
    → IsValid env b
    → check_idempotency b.next_wallet_id key b.entries ≡ none
unfolding check_idempotency
check_idempotency-unknown env b none v = refl
check_idempotency-unknown env b (some key) v =
    ground (arith, find_key-unknown env b.next_wallet_id b.next_wallet_id key b.entries v.chain)

-- Opening a wallet uses no key.
pub opened-used :
    (env : Env) (u v : ℕ) (key : Option String) (b : Books)
    → IsValid env b
    → used v key (opened u b) ≡ used v key b
unfolding opened used find_wallet
opened-used env u v key b h = ground (arith, check_idempotency-unknown env b key h)

-- What the code looks up is whether the key was used.
found-used :
    (env : Env) (u : ℕ) (key : Option String) (b : Books)
    → IsValid env b
    → is_some (check_idempotency (wallet_for u b).id key (opened u b).entries) ≡ used u key b
unfolding opened used wallet_for
found-used env u key b h = ground (arith, check_idempotency-unknown env b key h)

-- One more row adds its own key to those that are found.
check_idempotency-cons :
    (i : ℕ) (k : Option String) (e : LedgerEntry) (es : List LedgerEntry)
    → is_some (check_idempotency i k (e ∷ es))
      ≡ (is_some (check_idempotency i k es) || (e.wallet_id == i && same_key k e.idempotency_key))
unfolding check_idempotency find_key
check_idempotency-cons i none e es = ground arith
check_idempotency-cons i (some k) e es = ground arith

module _ (env : Env) (p : Posting) (e : LedgerEntry) (b b' : Books) (valid : IsValid env b) where
  module _ (r : Replayed p e b b') where
    pub Replayed-used_before : used p.user_id p.idempotency_key b ≡ true
    Replayed-used_before =
        ground (arith, found-used env p.user_id p.idempotency_key b valid, r.found)

    pub Replayed-balance : (v : ℕ) → balance_of v b' ≡ balance_of v b
    Replayed-balance v = rw r.same (opened-balance p.user_id v b)

    pub Replayed-total : total b' ≡ total b
    Replayed-total = rw r.same (opened-total p.user_id b)

    pub Replayed-used : (v : ℕ) (k : Option String) → used v k b' ≡ used v k b
    Replayed-used v k = rw r.same (opened-used env p.user_id v k b valid)

  module _ {side : EntrySide} {a balance : ℤ} (r : Posted env p side a balance e b b') where
    pub Posted-used_before : used p.user_id p.idempotency_key b ≡ false
    Posted-used_before =
        ground (arith, found-used env p.user_id p.idempotency_key b valid, r.not_found)

    owner : (wallet_for p.user_id b).user_id ≡ p.user_id
    owner =
        find_wallet-user_id p.user_id (opened p.user_id b).wallets (find_wallet-opened p.user_id b)

    found :
        find_wallet (wallet_for p.user_id b).user_id (opened p.user_id b).wallets
        ≡ some (wallet_for p.user_id b)
    found =
        ap (λ x. find_wallet x (opened p.user_id b).wallets) owner ∙ find_wallet-opened p.user_id b

    -- The wallet that a user has afterwards.
    wallets_after :
        (v : ℕ)
        → find_wallet v b'.wallets ≡ (
            if p.user_id == v
            then some (record (wallet_for p.user_id b) { balance = balance })
            else find_wallet v (opened p.user_id b).wallets)
    wallets_after v = ground (
      arith,
      r.books,
      owner,
      find_wallet-put_wallet v (wallet_for p.user_id b)
          (record (wallet_for p.user_id b) { balance = balance }) (opened p.user_id b).wallets
          (opened-IsValid env p.user_id b valid).distinct found refl,
    )

    pub Posted-balance :
        (v : ℕ) → balance_of v b' ≡ (if p.user_id == v then balance else balance_of v b)
    unfolding balance_of
    Posted-balance v = ground (arith, wallets_after v, opened-balance p.user_id v b)

    pub Posted-total : total b' +ℤ balance_of p.user_id b ≡ total b +ℤ balance
    unfolding total
    Posted-total = ground (
      arith,
      ap (λ x. sum_balances x.wallets) r.books,
      wallet_for-balance p.user_id b,
      opened-total p.user_id b,
      sum_balances-put_wallet (wallet_for p.user_id b)
          (record (wallet_for p.user_id b) { balance = balance }) (opened p.user_id b).wallets
          (opened-IsValid env p.user_id b valid).distinct found refl,
    )

    row_wallet : e.wallet_id ≡ (wallet_for p.user_id b).id
    unfolding entry_of
    row_wallet = ap (λ x. x.wallet_id) r.row

    row_key : e.idempotency_key ≡ p.idempotency_key
    unfolding entry_of
    row_key = ap (λ x. x.idempotency_key) r.row

    entries_after : b'.entries ≡ e ∷ (opened p.user_id b).entries
    entries_after = ap (λ x. x.entries) r.books

    used_own :
        (k : Option String)
        → used p.user_id k b' ≡ (used p.user_id k b || same_key k p.idempotency_key)
    unfolding used
    used_own k = ground (
      arith,
      wallets_after p.user_id,
      entries_after,
      row_wallet,
      row_key,
      found-used env p.user_id k b valid,
      check_idempotency-cons (wallet_for p.user_id b).id k e (opened p.user_id b).entries,
    )

    used_other : (v : ℕ) (k : Option String) → p.user_id ≢ v → used v k b' ≡ used v k b
    unfolding used
    used_other v k ne = elim (Option-cases (find_wallet v (opened p.user_id b).wallets)) [
      | inl absent ↦ ground (arith, wallets_after v, absent, opened-used env p.user_id v k b valid)
      | inr (x, present) ↦ ground (
        arith,
        wallets_after v,
        entries_after,
        row_wallet,
        find_wallet-ids p.user_id v (opened p.user_id b).wallets
            (opened-IsValid env p.user_id b valid).distinct (find_wallet-opened p.user_id b) present
            ne,
        check_idempotency-cons x.id k e (opened p.user_id b).entries,
        opened-used env p.user_id v k b valid,
      )
    ]

    pub Posted-used :
        (v : ℕ) (k : Option String)
        → used v k b' ≡ (used v k b || (p.user_id == v && same_key k p.idempotency_key))
    Posted-used v k = elim (Bool-cases (p.user_id == v)) [
      | inl same ↦
          let e = ==→eq p.user_id v same in
          rw same (
            ap (λ x. used x k b') (sym e)
            ∙ used_own k
            ∙ ap (λ x. used x k b || same_key k p.idempotency_key) e)
      | inr other ↦ rw other (used_other v k (λ q. ground arith) ∙ ground arith)
    ]
