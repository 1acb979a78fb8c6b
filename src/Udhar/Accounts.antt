-- ===== src/Udhar/Accounts.antt =====
-- Looking up an account after another one, or the same, was saved.
use apna_mandla.Prelude.{ℕ, ◌≡◌, Option, some, List, [], ◌∷◌, arith, ◌==◌, if◌then◌else◌, ◌∙◌, ap}
use apna_mandla.Schema.{Db, UdharAccount}
use apna_mandla.Udhar.Rows.{find_account, put_account}

abbrev pub account : ℕ → Db → Option UdharAccount
account i d = find_account i d.tables.udhar_accounts

pub find_account-id :
    (i : ℕ) (xs : List UdharAccount) {a : UdharAccount} → find_account i xs ≡ some a → a.id ≡ i
unfolding find_account
find_account-id i [] h = cc
find_account-id i (x ∷ xs) {a} h = ground (arith, find_account-id i xs {a = a})

find_account-put_account :
    (j : ℕ) (a a' : UdharAccount) (xs : List UdharAccount)
    → find_account a'.id xs ≡ some a
    → find_account j (put_account a' xs) ≡ (if a'.id == j then some a' else find_account j xs)
unfolding find_account put_account
find_account-put_account j a a' [] h = cc
find_account-put_account j a a' (x ∷ xs) h = ground (arith, find_account-put_account j a a' xs)

-- The account `i` was the row `before` in `d` and is the row `after` in `d'`; no other account
-- changed.
pub record Changed (i : ℕ) (before after : UdharAccount) (d d' : Db) : Type 0 where
  pub found : account i d ≡ some before
  pub now_found : account i d' ≡ some after
  pub rows : (j : ℕ) → account j d' ≡ (if i == j then some after else account j d)

pub changed :
    (i : ℕ) (d d' : Db) (a a' : UdharAccount)
    → account i d ≡ some a
    → a'.id ≡ a.id
    → d'.tables.udhar_accounts ≡ put_account a' d.tables.udhar_accounts
    → Changed i a a' d d'
changed i d d' a a' h same_id rows =
    let own : a'.id ≡ i = same_id ∙ find_account-id i d.tables.udhar_accounts h in
    let here : find_account a'.id d.tables.udhar_accounts ≡ some a =
      ap (λ x. find_account x d.tables.udhar_accounts) own ∙ h in
    let after = λ (j : ℕ).
      ap (find_account j) rows ∙ find_account-put_account j a a' d.tables.udhar_accounts here in
    record {
      found = h;
      now_found = ground (arith, after i);
      rows = λ j. ground (arith, after j, own);
    }
