-- ===== src/Ledger/Invariant.antt =====
-- The invariant of the books, and the two ways in which a call changes them.
use apna_mandla.Prelude.{
  ℕ, suc, ◌+◌, ◌<◌, ◌≡◌, refl, String, false, none, some, List, [], ◌∷◌, arith, ◌==◌, if◌then◌else◌,
  length,
}
use apna_mandla.Prelude.Int.{ℤ, pos, ◌+ℤ◌, ◌-ℤ◌, ◌≤ℤ◌, ◌<ℤ◌}
use apna_mandla.Schema.{Wallet, LedgerEntry, EntrySide, dr, cr, Books}
use apna_mandla.Env.{Env}
use apna_mandla.Ledger.Rows.{
  find_wallet, put_wallet, last_entry, next_sequence, last_hash, compute_hash, find_key,
}
use apna_mandla.Ledger.Posting.{key_taken}
use apna_mandla.Ledger.Wallets.{find_id, Distinct, sum_balances}

-- A row's effect on the balance of its wallet.
abbrev pub signed : EntrySide → ℤ → ℤ
signed cr a = a
signed dr a = pos 0 -ℤ a

-- SUM(CR) - SUM(DR) over the rows of one wallet.
unfoldable pub net_of : ℕ → List LedgerEntry → ℤ
net_of wallet_id [] = pos 0
net_of wallet_id (e ∷ es) =
    if e.wallet_id == wallet_id
    then signed e.entry_side e.amount +ℤ net_of wallet_id es
    else net_of wallet_id es

-- SUM(CR) - SUM(DR) over all rows.
unfoldable pub net_all : List LedgerEntry → ℤ
net_all [] = pos 0
net_all (e ∷ es) = signed e.entry_side e.amount +ℤ net_all es

-- Every wallet was given its id by the sequence, and its balance is what its rows add up to.
abbrev pub Backed : ℕ → List LedgerEntry → List Wallet → Type 0
Backed next es [] = Unit
Backed next es (w ∷ ws) =
    (w.id < next) × (pos 0 ≤ℤ w.balance) × (w.balance ≡ net_of w.id es) × Backed next es ws

module _ (env : Env) where
  -- A row fits the rows before it.
  pub record Links (e : LedgerEntry) (es : List LedgerEntry) : Type 0 where
    pub counted : e.sequence_number ≡ length es + 1
    pub chained : e.previous_hash ≡ last_hash es
    pub hashed :
        e.entry_hash
        ≡ compute_hash env e.wallet_id e.entry_side e.amount e.balance_after e.previous_hash
            (env.isoformat e.created_at)
            e.correlation_id
    pub positive : pos 0 <ℤ e.amount
    pub solvent : pos 0 ≤ℤ e.balance_after
    pub totalled : e.balance_after ≡ net_of e.wallet_id (e ∷ es)
    pub fresh_key : key_taken e.wallet_id e.idempotency_key es ≡ false

  abbrev pub Chain : ℕ → List LedgerEntry → Type 0
  Chain next [] = Unit
  Chain next (e ∷ es) = Links e es × (e.wallet_id < next) × Chain next es

  -- The books of a running system.
  pub record IsValid (b : Books) : Type 0 where
    pub distinct : Distinct b.wallets
    pub backed : Backed b.next_wallet_id b.entries b.wallets
    pub chain : Chain b.next_wallet_id b.entries
    pub accounted : sum_balances b.wallets ≡ net_all b.entries

-- The wallet that a posting works on, and the books with it opened.
unfoldable pub wallet_for : ℕ → Books → Wallet
wallet_for u b = elim (find_wallet u b.wallets) [
  | some w ↦ w
  | none ↦ record { id = b.next_wallet_id; user_id = u; balance = pos 0; is_frozen = false }
]

unfoldable pub opened : ℕ → Books → Books
opened u b = elim (find_wallet u b.wallets) [
  | some w ↦ b
  | none ↦ record b {
    wallets =
        record { id = b.next_wallet_id; user_id = u; balance = pos 0; is_frozen = false }
        ∷ b.wallets;
    next_wallet_id = b.next_wallet_id + 1;
  }
]

-- The books after a row was written and the wallet's balance was set.
abbrev pub posted : Wallet → ℤ → LedgerEntry → Books → Books
posted w balance e b = record b {
  wallets = put_wallet (record w { balance = balance }) b.wallets;
  entries = e ∷ b.entries;
}

-- The last row of a chain is at its head, so the next number and hash are the head's.
pub last_entry-Chain :
    (env : Env) (next : ℕ) (e : LedgerEntry) (es : List LedgerEntry)
    → Chain env next (e ∷ es)
    → last_entry (e ∷ es) ≡ some e
unfolding last_entry
last_entry-Chain env next e [] c = refl
last_entry-Chain env next e (x ∷ es) c = ground (arith, last_entry-Chain env next x es c.2)

pub next_sequence-Chain :
    (env : Env) (next : ℕ) (es : List LedgerEntry)
    → Chain env next es
    → next_sequence es ≡ length es + 1
unfolding next_sequence last_entry
next_sequence-Chain env next [] c = refl
next_sequence-Chain env next (e ∷ es) c = ground (arith, last_entry-Chain env next e es c)

-- A wallet that the sequence has not reached has no rows.
pub net_of-unknown :
    (env : Env) (next i : ℕ) (es : List LedgerEntry)
    → Chain env next es
    → next < suc i
    → net_of i es ≡ pos 0
unfolding net_of
net_of-unknown env next i [] c h = refl
net_of-unknown env next i (e ∷ es) c h = ground (arith, net_of-unknown env next i es c.2 h)

pub find_key-unknown :
    (env : Env) (next i : ℕ) (key : String) (es : List LedgerEntry)
    → Chain env next es
    → next < suc i
    → find_key i key es ≡ none
unfolding find_key
find_key-unknown env next i key [] c h = refl
find_key-unknown env next i key (e ∷ es) c h =
    ground (arith, find_key-unknown env next i key es c.2 h)

pub Chain-grow :
    (env : Env) (next : ℕ) (es : List LedgerEntry) → Chain env next es → Chain env (next + 1) es
Chain-grow env next [] c = tt
Chain-grow env next (e ∷ es) c = (c.0, omega arith, Chain-grow env next es c.2)

pub Backed-grow :
    (next : ℕ) (es : List LedgerEntry) (ws : List Wallet)
    → Backed next es ws
    → Backed (next + 1) es ws
Backed-grow next es [] h = tt
Backed-grow next es (w ∷ ws) h = (omega arith, h.1, h.2, Backed-grow next es ws h.3)

pub find_id-unknown :
    (next : ℕ) (es : List LedgerEntry) (ws : List Wallet)
    → Backed next es ws
    → find_id next ws ≡ none
unfolding find_id
find_id-unknown next es [] h = refl
find_id-unknown next es (w ∷ ws) h = ground (arith, find_id-unknown next es ws h.3)

-- What the invariant says of the wallet that a lookup finds.
pub Backed-find_wallet :
    (u next : ℕ) (es : List LedgerEntry) (ws : List Wallet) {w : Wallet}
    → Backed next es ws
    → find_wallet u ws ≡ some w
    → (w.id < next) × (pos 0 ≤ℤ w.balance) × (w.balance ≡ net_of w.id es)
unfolding find_wallet
Backed-find_wallet u next es [] h e = cc
Backed-find_wallet u next es (x ∷ xs) {w} h e =
    ground (arith, Backed-find_wallet u next es xs {w = w} h.3)
