-- ===== src/Ledger/Preserve.antt =====
-- Opening a wallet and writing a row, and the invariant of the books.
use apna_mandla.Prelude.{
  ℕ, ◌≡◌, refl, none, some, List, [], ◌∷◌, arith, ◌==◌, inl, inr, Option-cases, Bool-cases, ==→eq,
  sym, ◌∙◌, ap, false,
}
use apna_mandla.Prelude.Int.{ℤ, pos, ◌+ℤ◌, ◌≤ℤ◌, ◌<ℤ◌, int_laws}
use apna_mandla.Schema.{Wallet, LedgerEntry, EntrySide, Books}
use apna_mandla.Env.{Env}
use apna_mandla.Ledger.Rows.{find_wallet, put_wallet}
use apna_mandla.Ledger.Posting.{Posting, key_taken, entry_of}
use apna_mandla.Ledger.Wallets.{
  find_id, find_wallet-user_id, Distinct, sum_balances, sum_balances-put_wallet,
  Distinct-put_wallet,
}
use apna_mandla.Ledger.Invariant.{
  signed, net_of, net_all, Backed, Links, Chain, IsValid, wallet_for, opened, next_sequence-Chain,
  net_of-unknown, Chain-grow, Backed-grow, find_id-unknown, Backed-find_wallet,
}
use apna_mandla.Ledger.Outcome.{Posted}

-- After the wallet is opened, a lookup finds it.
pub find_wallet-opened :
    (u : ℕ) (b : Books) → find_wallet u (opened u b).wallets ≡ some (wallet_for u b)
unfolding find_wallet opened wallet_for
find_wallet-opened u b = ground arith

pub entries-opened : (u : ℕ) (b : Books) → (opened u b).entries ≡ b.entries
unfolding opened
entries-opened u b = ground arith

zero_sum : (a : ℤ) → pos 0 +ℤ a ≡ a
zero_sum a = omega int_laws

opened-accounted :
    (u : ℕ) (b : Books)
    → sum_balances b.wallets ≡ net_all b.entries
    → sum_balances (opened u b).wallets ≡ net_all (opened u b).entries
unfolding opened sum_balances
opened-accounted u b h = ground (arith, zero_sum (sum_balances b.wallets))

pub opened-IsValid : (env : Env) (u : ℕ) (b : Books) → IsValid env b → IsValid env (opened u b)
unfolding opened
opened-IsValid env u b v = elim (Option-cases (find_wallet u b.wallets)) [
  | inl absent ↦ record {
    distinct =
        ground (arith, find_id-unknown b.next_wallet_id b.entries b.wallets v.backed, v.distinct);
    backed = ground (
      arith,
      Backed-grow b.next_wallet_id b.entries b.wallets v.backed,
      net_of-unknown env b.next_wallet_id b.next_wallet_id b.entries v.chain,
      v.backed,
    );
    chain = ground (arith, Chain-grow env b.next_wallet_id b.entries v.chain, v.chain);
    accounted = unfold opened in opened-accounted u b v.accounted;
  }
  | inr (w, found) ↦ ground (arith, v)
]

-- A row of another wallet does not count.
Backed-other :
    (next : ℕ) (e : LedgerEntry) (es : List LedgerEntry) (ws : List Wallet)
    → Backed next es ws
    → find_id e.wallet_id ws ≡ none
    → Backed next (e ∷ es) ws
unfolding net_of find_id
Backed-other next e es [] h absent = tt
Backed-other next e es (w ∷ ws) h absent = ground (arith, Backed-other next e es ws h.3)

Backed-posted :
    (next : ℕ) (e : LedgerEntry) (es : List LedgerEntry) (ws : List Wallet) (w : Wallet)
    (balance : ℤ)
    → Backed next es ws
    → Distinct ws
    → find_wallet w.user_id ws ≡ some w
    → e.wallet_id ≡ w.id
    → pos 0 ≤ℤ balance
    → balance ≡ net_of w.id (e ∷ es)
    → Backed next (e ∷ es) (put_wallet (record w { balance = balance }) ws)
unfolding find_wallet put_wallet
Backed-posted next e es [] w balance h dist f i p n = tt
Backed-posted next e es (x ∷ xs) w balance h dist f i p n = elim (Bool-cases (x.id == w.id)) [
  | inl same ↦ rw same (
    ground arith,
    p,
    n,
    Backed-other next e es xs h.3 (rw (i ∙ sym (==→eq x.id w.id same)) dist.1),
  )
  | inr other ↦ rw other (
    h.0,
    h.1,
    unfold net_of in ground arith,
    Backed-posted next e es xs w balance h.3 dist.2 (ground arith) i p n,
  )
]

-- The fields of a written row that the invariant reads.
record Row (p : Posting) (side : EntrySide) (a balance : ℤ) (w : Wallet) (e : LedgerEntry)
    : Type 0 where
  pub wallet : e.wallet_id ≡ w.id
  pub side_is : e.entry_side ≡ side
  pub amount_is : e.amount ≡ a
  pub after_is : e.balance_after ≡ balance
  pub key_is : e.idempotency_key ≡ p.idempotency_key

Row-fields :
    (env : Env) (p : Posting) (side : EntrySide) (a balance : ℤ) (w : Wallet) (e : LedgerEntry)
    (t : ℕ) (es : List LedgerEntry)
    → e ≡ entry_of env p w side a balance t es
    → Row p side a balance w e
unfolding entry_of
Row-fields env p side a balance w e t es h = record {
  wallet = ap (λ x. x.wallet_id) h;
  side_is = ap (λ x. x.entry_side) h;
  amount_is = ap (λ x. x.amount) h;
  after_is = ap (λ x. x.balance_after) h;
  key_is = ap (λ x. x.idempotency_key) h;
}

net_of-own :
    (e : LedgerEntry) (es : List LedgerEntry) (i : ℕ)
    → e.wallet_id ≡ i
    → net_of i (e ∷ es) ≡ signed e.entry_side e.amount +ℤ net_of i es
unfolding net_of
net_of-own e es i h = ground arith

row-Links :
    (env : Env) (p : Posting) (side : EntrySide) (a balance : ℤ) (w : Wallet) (e : LedgerEntry)
    (next t : ℕ) (es : List LedgerEntry)
    → e ≡ entry_of env p w side a balance t es
    → e.created_at ≡ t
    → Chain env next es
    → pos 0 <ℤ a
    → pos 0 ≤ℤ balance
    → balance ≡ net_of w.id (e ∷ es)
    → key_taken w.id p.idempotency_key es ≡ false
    → Links env e es
unfolding entry_of
row-Links env p side a balance w e next t es h time c positive solvent total fresh =
    let r = Row-fields env p side a balance w e t es h in
    record {
      counted = ap (λ x. x.sequence_number) h ∙ next_sequence-Chain env next es c;
      chained = ap (λ x. x.previous_hash) h;
      hashed = ground arith;
      positive = rw r.amount_is positive;
      solvent = rw r.after_is solvent;
      totalled = r.after_is ∙ total ∙ ap (λ i. net_of i (e ∷ es)) (sym r.wallet);
      fresh_key = rw (r.wallet, r.key_is) fresh;
    }

posted-accounted :
    (e : LedgerEntry) (es : List LedgerEntry) (side : EntrySide) (a : ℤ) (ws' ws : List Wallet)
    (old new : ℤ)
    → e.entry_side ≡ side
    → e.amount ≡ a
    → new ≡ signed side a +ℤ old
    → sum_balances ws ≡ net_all es
    → sum_balances ws' +ℤ old ≡ sum_balances ws +ℤ new
    → sum_balances ws' ≡ net_all (e ∷ es)
unfolding net_all
posted-accounted e es side a ws' ws old new hs ha hn h sums =
    rw (hs, ha, ← h)
      (moved_sum (sum_balances ws') old (sum_balances ws) (signed side a) (rw hn at sums))
  where
    moved_sum : (x o y c : ℤ) → x +ℤ o ≡ y +ℤ (c +ℤ o) → x ≡ c +ℤ y
    moved_sum x o y c q = grind int_laws

-- A written row keeps the invariant, whatever its side.
pub Posted-IsValid :
    (env : Env) (p : Posting) (side : EntrySide) (a balance : ℤ) (e : LedgerEntry) (b b' : Books)
    → IsValid env b
    → Posted env p side a balance e b b'
    → balance ≡ signed side a +ℤ (wallet_for p.user_id b).balance
    → IsValid env b'
Posted-IsValid env p side a balance e b b' v post sum =
    let o = opened p.user_id b in
    let w = wallet_for p.user_id b in
    let vo = opened-IsValid env p.user_id b v in
    let found = find_wallet-opened p.user_id b in
    let owner = find_wallet-user_id p.user_id o.wallets found in
    let found' : find_wallet w.user_id o.wallets ≡ some w =
      ap (λ x. find_wallet x o.wallets) owner ∙ found in
    let backing =
      Backed-find_wallet p.user_id o.next_wallet_id o.entries o.wallets vo.backed found in
    let r = Row-fields env p side a balance w e e.created_at o.entries post.row in
    let total : balance ≡ net_of w.id (e ∷ o.entries) =
      sum ∙ sym (net_of-own e o.entries w.id r.wallet ∙ ground arith) in
    rw post.books (record {
      distinct =
          Distinct-put_wallet w (record w { balance = balance }) o.wallets vo.distinct found' refl;
      backed =
          Backed-posted o.next_wallet_id e o.entries o.wallets w balance vo.backed vo.distinct
            found' r.wallet post.solvent total;
      chain = (
        row-Links env p side a balance w e o.next_wallet_id e.created_at o.entries post.row refl
            vo.chain post.positive post.solvent total post.untaken,
        rw r.wallet backing.0,
        vo.chain,
      );
      accounted =
          posted-accounted e o.entries side a
            (put_wallet (record w { balance = balance }) o.wallets) o.wallets w.balance balance
            r.side_is r.amount_is sum vo.accounted
            (sum_balances-put_wallet w (record w { balance = balance }) o.wallets vo.distinct found'
              refl);
    })
