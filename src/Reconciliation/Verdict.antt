-- ===== src/Reconciliation/Verdict.antt =====
-- Both audits, on the books of a running system.
use apna_mandla.Prelude.{◌≡◌, ◌≢◌, refl, List, [], ◌∷◌, ◌++◌, if◌then◌else◌}
use apna_mandla.Prelude.Int.{pos, differ}
use apna_mandla.Schema.{LedgerEntry, Books}
use apna_mandla.Env.{Env}
use apna_mandla.Ledger.Invariant.{IsValid, Chain}
use apna_mandla.Ledger.Effects.{total}
use apna_mandla.Reconciliation.{
  run, issues_of, double_entry_issues, correlations, global_imbalance, hash_chain_broken,
  verify_full_ledger_integrity,
}
use apna_mandla.Reconciliation.Chain.{chain_issues-Chain, verify_full_ledger_integrity-rejects}
use apna_mandla.Reconciliation.Balances.{wallet_issues-Backed, global_issue_lem}

-- In valid books a reconciliation finds no broken chain and no wrong wallet: it reports the events
-- whose two sides differ, and a global imbalance just if the money in all wallets together is more
-- than a paisa.
pub run_verdict :
    (env : Env) (b : Books)
    → IsValid env b
    → (run b).issues
      ≡ double_entry_issues b.entries (correlations b.entries)
        ++ (if differ (total b) (pos 0) then global_imbalance ∷ [] else [])
unfolding run issues_of total
run_verdict env b v = rw (
  chain_issues-Chain env b.next_wallet_id b.entries v.chain,
  wallet_issues-Backed env b.next_wallet_id b.entries b.wallets v.chain v.backed,
  global_issue_lem b.entries,
  v.accounted,
)

pub verify_full_ledger_integrity_valid :
    (env : Env) (b : Books)
    → IsValid env b
    → b.entries ≢ []
    → verify_full_ledger_integrity b.entries ≡ hash_chain_broken
verify_full_ledger_integrity_valid env b v some_row = go b.entries v.chain some_row
  where
    go :
        (es : List LedgerEntry)
        → Chain env b.next_wallet_id es
        → es ≢ []
        → verify_full_ledger_integrity es ≡ hash_chain_broken
    go [] c ne = absurd (ne refl)
    go (e ∷ es) c ne = verify_full_ledger_integrity-rejects env b.next_wallet_id e es c
