-- ===== src/Reconciliation/Balances.antt =====
-- The audits of the sums, on the books of a running system.
use apna_mandla.Prelude.{
  ℕ, ◌≤◌, ◌≡◌, refl, false, some, List, [], ◌∷◌, arith, if◌then◌else◌, length, keep_if, ◌∙◌, sym,
  inl, inr, Option-cases,
}
use apna_mandla.Prelude.Int.{ℤ, pos, ◌-ℤ◌, differ, int_laws}
use apna_mandla.Schema.{Wallet, LedgerEntry, dr, cr}
use apna_mandla.Env.{Env}
use apna_mandla.Ledger.{last_entry}
use apna_mandla.Ledger.Invariant.{net_of, net_all, Backed, Chain}
use apna_mandla.Reconciliation.{
  side_sum, of_wallet, any_entry, last_issue, recompute_issue, wallet_issues, global_issue,
  global_imbalance,
}

-- SUM(CR) - SUM(DR) of a wallet is its net.
pub side_sum-wallet :
    (i : ℕ) (es : List LedgerEntry)
    → side_sum cr (of_wallet i) es -ℤ side_sum dr (of_wallet i) es ≡ net_of i es
unfolding side_sum net_of
side_sum-wallet i [] = omega int_laws
side_sum-wallet i (e ∷ es) = grind (int_laws, side_sum-wallet i es)

pub side_sum-all :
    (es : List LedgerEntry) → side_sum cr any_entry es -ℤ side_sum dr any_entry es ≡ net_all es
unfolding side_sum net_all
side_sum-all [] = omega int_laws
side_sum-all (e ∷ es) = grind (int_laws, side_sum-all es)

-- Among the rows of one wallet the last has at most as high a number as there are rows at all.
last_entry-below :
    (env : Env) (next i : ℕ) (es : List LedgerEntry) (l : LedgerEntry)
    → Chain env next es
    → last_entry (keep_if (of_wallet i) es) ≡ some l
    → l.sequence_number ≤ length es
unfolding last_entry
last_entry-below env next i [] l c h = cc
last_entry-below env next i (e ∷ es) l c h =
    elim (Option-cases (last_entry (keep_if (of_wallet i) es))) [
      | inl absent ↦ ground (arith, c.0.counted)
      | inr (m, present) ↦ ground (arith, c.0.counted, last_entry-below env next i es m c.2 present)
    ]

-- The last row of a wallet has its net as the balance.
last_entry-balance :
    (env : Env) (next i : ℕ) (es : List LedgerEntry) (l : LedgerEntry)
    → Chain env next es
    → last_entry (keep_if (of_wallet i) es) ≡ some l
    → l.balance_after ≡ net_of i es
unfolding last_entry net_of
last_entry-balance env next i [] l c h = cc
last_entry-balance env next i (e ∷ es) l c h =
    elim (Option-cases (last_entry (keep_if (of_wallet i) es))) [
      | inl absent ↦
          ground (arith, c.0.counted, c.0.totalled, last_entry-balance env next i es l c.2)
      | inr (m, present) ↦ ground (
        arith,
        c.0.counted,
        c.0.totalled,
        last_entry-below env next i es m c.2 present,
        last_entry-balance env next i es m c.2 present,
      )
    ]

differ-same : (a b : ℤ) → a ≡ b → differ a b ≡ false
differ-same a b h = grind int_laws

last_issue-none :
    (env : Env) (next : ℕ) (es : List LedgerEntry) (w : Wallet)
    → Chain env next es
    → w.balance ≡ net_of w.id es
    → last_issue es w ≡ []
unfolding last_issue
last_issue-none env next es w c h = elim (Option-cases (last_entry (keep_if (of_wallet w.id) es))) [
  | inl absent ↦ ground arith
  | inr (e, present) ↦ ground (
    arith,
    differ-same w.balance e.balance_after
        (h ∙ sym (last_entry-balance env next w.id es e c present)),
  )
]

recompute_issue-none :
    (es : List LedgerEntry) (w : Wallet) → w.balance ≡ net_of w.id es → recompute_issue es w ≡ []
unfolding recompute_issue
recompute_issue-none es w h = ground (
  arith,
  differ-same (side_sum cr (of_wallet w.id) es -ℤ side_sum dr (of_wallet w.id) es) w.balance
      (side_sum-wallet w.id es ∙ sym h),
)

-- In valid books no wallet's balance is reported.
pub wallet_issues-Backed :
    (env : Env) (next : ℕ) (es : List LedgerEntry) (ws : List Wallet)
    → Chain env next es
    → Backed next es ws
    → wallet_issues es ws ≡ []
unfolding wallet_issues
wallet_issues-Backed env next es [] c h = refl
wallet_issues-Backed env next es (w ∷ ws) c h = rw (
  last_issue-none env next es w c h.2,
  recompute_issue-none es w h.2,
  wallet_issues-Backed env next es ws c h.3,
)

differ-shift : (a b c : ℤ) → a -ℤ b ≡ c → differ a b ≡ differ c (pos 0)
differ-shift a b c h = grind int_laws

-- The global check compares all the money in the rows with nothing.
pub global_issue_lem :
    (es : List LedgerEntry)
    → global_issue es ≡ (if differ (net_all es) (pos 0) then global_imbalance ∷ [] else [])
unfolding global_issue
global_issue_lem es = rw (
    differ-shift (side_sum cr any_entry es) (side_sum dr any_entry es) (net_all es)
      (side_sum-all es))
