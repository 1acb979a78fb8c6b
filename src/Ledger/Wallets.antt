-- ===== src/Ledger/Wallets.antt =====
-- The wallet table: lookup, update in place, and the sum of the balances.
use apna_mandla.Prelude.{
  ℕ, ◌≡◌, refl, Option, none, some, List, [], ◌∷◌, arith, ◌==◌, if◌then◌else◌, first, ◌≢◌,
}
use apna_mandla.Prelude.Int.{ℤ, pos, ◌+ℤ◌, int_laws}
use apna_mandla.Schema.{Wallet}
use apna_mandla.Ledger.Rows.{find_wallet, put_wallet}

unfoldable pub find_id : ℕ → List Wallet → Option Wallet
find_id id = first (λ w. w.id == id)

-- No two wallets have one owner or one id.
abbrev pub Distinct : List Wallet → Type 0
Distinct [] = Unit
Distinct (w ∷ ws) = (find_wallet w.user_id ws ≡ none) × (find_id w.id ws ≡ none) × Distinct ws

unfoldable pub sum_balances : List Wallet → ℤ
sum_balances [] = pos 0
sum_balances (w ∷ ws) = w.balance +ℤ sum_balances ws

abbrev pub balance_in : Option Wallet → ℤ
balance_in none = pos 0
balance_in (some w) = w.balance

pub find_wallet-user_id :
    (u : ℕ) (ws : List Wallet) {w : Wallet} → find_wallet u ws ≡ some w → w.user_id ≡ u
unfolding find_wallet
find_wallet-user_id u [] h = cc
find_wallet-user_id u (x ∷ xs) {w} h = ground (arith, find_wallet-user_id u xs {w = w})

pub find_id_of_find_wallet :
    (u : ℕ) (ws : List Wallet) {w : Wallet} → find_wallet u ws ≡ some w → find_id w.id ws ≢ none
unfolding find_wallet find_id
find_id_of_find_wallet u [] h = cc
find_id_of_find_wallet u (x ∷ xs) {w} h = ground (arith, find_id_of_find_wallet u xs {w = w})

pub put_wallet-absent :
    (w' : Wallet) (ws : List Wallet) → find_id w'.id ws ≡ none → put_wallet w' ws ≡ ws
unfolding put_wallet find_id
put_wallet-absent w' [] h = refl
put_wallet-absent w' (x ∷ xs) h = ground (arith, put_wallet-absent w' xs)

-- A change of one wallet is seen by its owner, and by nobody else.
pub find_wallet-put_wallet :
    (v : ℕ) (w w' : Wallet) (ws : List Wallet)
    → Distinct ws
    → find_wallet w'.user_id ws ≡ some w
    → w.id ≡ w'.id
    → find_wallet v (put_wallet w' ws) ≡ (if w'.user_id == v then some w' else find_wallet v ws)
unfolding find_wallet put_wallet
find_wallet-put_wallet v w w' [] dist h e = cc
find_wallet-put_wallet v w w' (x ∷ xs) dist h e =
    ground
      (arith, find_wallet-put_wallet v w w' xs dist.2, find_id_of_find_wallet w'.user_id xs {w = w})

pub find_id-put_wallet :
    (i : ℕ) (w' : Wallet) (ws : List Wallet)
    → find_id i ws ≡ none
    → find_id i (put_wallet w' ws) ≡ none
unfolding find_id put_wallet
find_id-put_wallet i w' [] h = refl
find_id-put_wallet i w' (x ∷ xs) h = ground (arith, find_id-put_wallet i w' xs)

-- The sum moves by the change of one balance.
pub sum_balances-put_wallet :
    (w w' : Wallet) (ws : List Wallet)
    → Distinct ws
    → find_wallet w'.user_id ws ≡ some w
    → w.id ≡ w'.id
    → sum_balances (put_wallet w' ws) +ℤ w.balance ≡ sum_balances ws +ℤ w'.balance
unfolding sum_balances find_wallet put_wallet
sum_balances-put_wallet w w' [] dist h e = cc
sum_balances-put_wallet w w' (x ∷ xs) dist h e =
    grind (
      int_laws,
      sum_balances-put_wallet w w' xs dist.2,
      find_id_of_find_wallet w'.user_id xs {w = w},
    )

pub find_wallet-none-put_wallet :
    (v : ℕ) (w w' : Wallet) (ws : List Wallet)
    → Distinct ws
    → find_wallet w'.user_id ws ≡ some w
    → w.id ≡ w'.id
    → find_wallet v ws ≡ none
    → find_wallet v (put_wallet w' ws) ≡ none
find_wallet-none-put_wallet v w w' ws dist h e absent =
    ground (arith, find_wallet-put_wallet v w w' ws dist h e)

pub Distinct-put_wallet :
    (w w' : Wallet) (ws : List Wallet)
    → Distinct ws
    → find_wallet w'.user_id ws ≡ some w
    → w.id ≡ w'.id
    → Distinct (put_wallet w' ws)
unfolding find_wallet put_wallet
Distinct-put_wallet w w' [] dist h e = tt
Distinct-put_wallet w w' (x ∷ xs) dist h e = ground (
  arith,
  Distinct-put_wallet w w' xs dist.2,
  find_wallet-none-put_wallet x.user_id w w' xs dist.2,
  find_id-put_wallet x.id w' xs,
  find_id_of_find_wallet w'.user_id xs {w = w},
)

-- Two owners have two ids.
pub find_wallet-ids :
    (u v : ℕ) (ws : List Wallet) {w x : Wallet}
    → Distinct ws
    → find_wallet u ws ≡ some w
    → find_wallet v ws ≡ some x
    → u ≢ v
    → w.id ≢ x.id
unfolding find_wallet
find_wallet-ids u v [] dist f g ne = cc
find_wallet-ids u v (y ∷ ys) {w} {x} dist f g ne = ground (
  arith,
  find_wallet-ids u v ys {w = w} {x = x} dist.2,
  find_id_of_find_wallet u ys {w = w},
  find_id_of_find_wallet v ys {w = x},
)
