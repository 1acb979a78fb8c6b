-- ===== src/Reconciliation.antt =====
-- The audits of the ledger: Backend/app/services/reconciliation_service.py and
-- Backend/app/services/ledger_integrity_service.py. A report keeps its counts, sums and issues;
-- its duration and the texts of the issues are left out.
pub mod Chain
pub mod Balances
pub mod Verdict
use apna_mandla.Prelude.{
  ℕ, ◌+◌, String, Bool, true, false, not, ◌&&◌, Option, none, some, List, [], ◌∷◌, ◌++◌, ltb, ◌==◌,
  if◌then◌else◌, length, keep_if,
}
use apna_mandla.Prelude.Int.{ℤ, pos, ◌+ℤ◌, ◌-ℤ◌, differ}
use apna_mandla.Prelude.Text.{f_string, str, str_eq}
use apna_mandla.Schema.{Wallet, LedgerEntry, EntrySide, dr, cr, Books}
use apna_mandla.Env.{Env}
use apna_mandla.Ledger.{last_entry, str_amount}

pub data Issue : Type 0 where
  chain_break : ℕ → Issue
  double_entry_imbalance : String → Issue
  wallet_balance_mismatch : ℕ → Issue
  wallet_recompute_mismatch : ℕ → Issue
  global_imbalance : Issue

-- `order_by(sequence_number.asc())`
unfoldable pub insert_by_sequence : LedgerEntry → List LedgerEntry → List LedgerEntry
insert_by_sequence e [] = e ∷ []
insert_by_sequence e (x ∷ xs) =
    if ltb e.sequence_number x.sequence_number then e ∷ x ∷ xs else x ∷ insert_by_sequence e xs

unfoldable pub by_sequence : List LedgerEntry → List LedgerEntry
by_sequence [] = []
by_sequence (e ∷ es) = insert_by_sequence e (by_sequence es)

-- 1. Every row names the hash of the row before it.
unfoldable pub chain_issues : String → List LedgerEntry → List Issue
chain_issues prev_hash [] = []
chain_issues prev_hash (e ∷ es) =
    (if str_eq e.previous_hash prev_hash then [] else chain_break e.sequence_number ∷ [])
    ++ chain_issues e.entry_hash es

abbrev pub is_side : EntrySide → EntrySide → Bool
is_side cr cr = true
is_side dr dr = true
is_side _ _ = false

-- `SUM(CASE WHEN entry_side = … THEN amount ELSE 0)` over the rows that a filter keeps.
unfoldable pub side_sum : EntrySide → (LedgerEntry → Bool) → List LedgerEntry → ℤ
side_sum side test [] = pos 0
side_sum side test (e ∷ es) =
    if test e && is_side side e.entry_side
    then e.amount +ℤ side_sum side test es
    else side_sum side test es

abbrev pub of_correlation : String → LedgerEntry → Bool
of_correlation cid e = str_eq e.correlation_id cid

abbrev pub of_wallet : ℕ → LedgerEntry → Bool
of_wallet id e = e.wallet_id == id

abbrev pub any_entry : LedgerEntry → Bool
any_entry e = true

abbrev pub contains : String → List String → Bool
contains s [] = false
contains s (t ∷ ts) = if str_eq t s then true else contains s ts

-- `GROUP BY correlation_id`
unfoldable pub correlations : List LedgerEntry → List String
correlations [] = []
correlations (e ∷ es) =
    let rest = correlations es in
    if contains e.correlation_id rest then rest else e.correlation_id ∷ rest

-- 2. Credits and debits of one event are equal, to a paisa.
unfoldable pub double_entry_issues : List LedgerEntry → List String → List Issue
double_entry_issues es [] = []
double_entry_issues es (cid ∷ cids) =
    (if differ (side_sum cr (of_correlation cid) es) (side_sum dr (of_correlation cid) es)
      then double_entry_imbalance cid ∷ []
      else [])
    ++ double_entry_issues es cids

-- 3. A wallet's balance is that of its last row, and what its rows add up to, to a paisa.
unfoldable pub last_issue : List LedgerEntry → Wallet → List Issue
last_issue es w = elim (last_entry (keep_if (of_wallet w.id) es)) [
  | none ↦ []
  | some e ↦ if differ w.balance e.balance_after then wallet_balance_mismatch w.id ∷ [] else []
]

unfoldable pub recompute_issue : List LedgerEntry → Wallet → List Issue
recompute_issue es w =
    if differ (side_sum cr (of_wallet w.id) es -ℤ side_sum dr (of_wallet w.id) es) w.balance
    then wallet_recompute_mismatch w.id ∷ []
    else []

unfoldable pub wallet_issues : List LedgerEntry → List Wallet → List Issue
wallet_issues es [] = []
wallet_issues es (w ∷ ws) = (last_issue es w ++ recompute_issue es w) ++ wallet_issues es ws

-- 4. All credits and all debits are equal, to a paisa.
unfoldable pub global_issue : List LedgerEntry → List Issue
global_issue es =
    if differ (side_sum cr any_entry es) (side_sum dr any_entry es)
    then global_imbalance ∷ []
    else []

pub record ReconciliationReport : Type 0 where
  pub total_entries : ℕ
  pub wallets_checked : ℕ
  pub correlations_checked : ℕ
  pub issues : List Issue
  pub is_clean : Bool
  pub total_cr_sum : ℤ
  pub total_dr_sum : ℤ

unfoldable pub issues_of : Books → List Issue
issues_of b =
    chain_issues "GENESIS" (by_sequence b.entries)
    ++ (double_entry_issues b.entries (correlations b.entries)
        ++ (wallet_issues b.entries b.wallets ++ global_issue b.entries))

-- `ReconciliationService.run`
unfoldable pub run : Books → ReconciliationReport
run b = record {
  total_entries = length b.entries;
  wallets_checked = length b.wallets;
  correlations_checked = length (correlations b.entries);
  issues = issues_of b;
  is_clean = length (issues_of b) == 0;
  total_cr_sum = side_sum cr any_entry b.entries;
  total_dr_sum = side_sum dr any_entry b.entries;
}

-- How `verify_full_ledger_integrity` ends: with a count, or by an exception.
pub data IntegrityCheck : Type 0 where
  empty_ledger : IntegrityCheck
  verified : ℕ → IntegrityCheck
  sequence_mismatch hash_chain_broken attribute_error : IntegrityCheck

abbrev pub zeros : String
zeros = "0000000000000000000000000000000000000000000000000000000000000000"

-- The text that is hashed again reads `entry.entry_type`, a column that a row does not have, so
-- the loop never comes to a second row.
unfoldable pub verify_rows : ℕ → String → ℕ → List LedgerEntry → IntegrityCheck
verify_rows expected_sequence previous_hash count [] = verified count
verify_rows expected_sequence previous_hash count (e ∷ es) =
    if not (e.sequence_number == expected_sequence)
    then sequence_mismatch
    else if not (str_eq e.previous_hash previous_hash)
    then hash_chain_broken
    else attribute_error

unfoldable pub verify_full_ledger_integrity : List LedgerEntry → IntegrityCheck
verify_full_ledger_integrity [] = empty_ledger
verify_full_ledger_integrity (e ∷ es) = verify_rows 1 zeros (length (e ∷ es)) (by_sequence (e ∷ es))
