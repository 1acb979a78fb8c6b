-- ===== src/Withdrawal/RoundTrip.antt =====
-- A withdrawal and its rejection, one after the other.
use apna_mandla.Prelude.{ℕ, ◌≡◌, ◌≢◌, String, false, Option, none, some, arith, ◌∙◌, ap}
use apna_mandla.Prelude.Int.{ℤ, pos, ◌+ℤ◌, ◌-ℤ◌, int_laws}
use apna_mandla.Money.{of_paise}
use apna_mandla.Money.Rounding.{round-of_paise}
use apna_mandla.Schema.{Db, WithdrawalRequest, LedgerEntry}
use apna_mandla.Env.{Env}
use apna_mandla.Session.{ok}
use apna_mandla.Ledger.{platform_user_id, initiate_withdrawal}
use apna_mandla.Ledger.Invariant.{IsValid}
use apna_mandla.Ledger.Effects.{balance_of, used}
use apna_mandla.Ledger.Validity.{initiate_withdrawal-Keeps}
use apna_mandla.Ledger.Refinement.{Bank, view, move, used-none}
use apna_mandla.Ledger.Transfers.{withdrawal_key, initiate_withdrawal-move}
use apna_mandla.Withdrawal.{reject_withdrawal}
use apna_mandla.Withdrawal.Lookup.{request}
use apna_mandla.Withdrawal.Decisions.{reject_withdrawal_lem}

back_and_forth : (x a : ℤ) → x +ℤ (pos 0 -ℤ a) +ℤ a ≡ x
back_and_forth x a = omega int_laws

forth_and_back : (x a : ℤ) → x +ℤ a +ℤ (pos 0 -ℤ a) ≡ x
forth_and_back x a = omega int_laws

-- Out to the platform under two new keys, and back without a key.
bank_round_trip :
    (bank : Bank) (u : ℕ) (k j : Option String) (a : ℤ) (v : ℕ)
    → u ≢ platform_user_id
    → bank.used_key u k ≡ false
    → bank.used_key platform_user_id j ≡ false
    → (n : (x : ℕ) → bank.used_key x none ≡ false)
    → (move u none a (
          move platform_user_id none
            (pos 0 -ℤ a)
            (move platform_user_id j a (move u k (pos 0 -ℤ a) bank)))).balance
        v
      ≡ bank.balance v
unfolding move
bank_round_trip bank u k j a v ne new_u new_p n = ground (
  arith,
  n u,
  n platform_user_id,
  back_and_forth (bank.balance v) a,
  forth_and_back (bank.balance v) a,
)

-- In valid books, a withdrawal of a user who is not the platform, under two keys that were not
-- used, followed by the rejection of the request that records it, leaves every balance as it was.
pub withdrawal_round_trip :
    (env : Env) (u w i admin : ℕ) (a : ℤ) (key ip reason : Option String) (s : Option ℕ) (d : Db)
    (e : LedgerEntry) (d1 d2 d3 : Db) (r : WithdrawalRequest)
    → IsValid env d.books
    → u ≢ platform_user_id
    → used u (withdrawal_key w key "-user-dr") d.books ≡ false
    → used platform_user_id (withdrawal_key w key "-platform-cr") d.books ≡ false
    → initiate_withdrawal env u (of_paise a) w key s ip d ≡ ok (e, d1)
    → d2.books ≡ d1.books
    → request i d2 ≡ some r
    → r.user_id ≡ u
    → r.amount ≡ a
    → reject_withdrawal env i reason admin d2 ≡ ok (tt, d3)
    → (v : ℕ) → balance_of v d3.books ≡ balance_of v d.books
withdrawal_round_trip env u w i admin a key ip reason s d e d1 d2 d3 r valid ne new_u new_p start
      same found user amount end_call v =
    let valid1 : IsValid env d1.books =
      (initiate_withdrawal-Keeps env u (of_paise a) w key s ip).at d e d1 valid start in
    let valid2 : IsValid env d2.books = rw same valid1 in
    let (x, t, back) = reject_withdrawal_lem env i admin reason d2 d3 valid2 end_call in
    let out = initiate_withdrawal-move env u (of_paise a) w key s ip d e d1 valid start in
    let row : x ≡ r = ground (arith, t.found) in
    let who = ap (λ y. y.user_id) row ∙ user in
    let money = ap (λ y. y.amount) row ∙ amount in
    let there =
      ap view same
      ∙ out
      ∙ ap
          (λ y.
            move platform_user_id (withdrawal_key w key "-platform-cr") y
              (move u (withdrawal_key w key "-user-dr") (pos 0 -ℤ y) (view d.books)))
          (round-of_paise a) in
    ap (λ b. b.balance v)
      (back.moved
        ∙ ap
            (λ y.
              move y none x.amount (move platform_user_id none (pos 0 -ℤ x.amount) (view d2.books)))
            who
        ∙ ap (λ y. move u none y (move platform_user_id none (pos 0 -ℤ y) (view d2.books))) money
        ∙ ap (λ b. move u none a (move platform_user_id none (pos 0 -ℤ a) b)) there)
    ∙ bank_round_trip (view d.books) u (withdrawal_key w key "-user-dr")
        (withdrawal_key w key "-platform-cr") a v ne new_u new_p (λ y. used-none y d.books)
