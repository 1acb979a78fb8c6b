-- ===== src/Withdrawal/Lookup.antt =====
-- Looking up a withdrawal request after it, or another one, was saved.
use apna_mandla.Prelude.{
  ℕ, ◌≡◌, refl, true, Option, some, List, [], ◌∷◌, arith, ◌==◌, if◌then◌else◌, ◌∙◌, ap,
}
use apna_mandla.Schema.{Db, WithdrawalRequest, WithdrawalStatus, pending}
use apna_mandla.Withdrawal.{find_request, put_request, is_pending}

pub find_request-id :
    (i : ℕ) (rs : List WithdrawalRequest) {r : WithdrawalRequest}
    → find_request i rs ≡ some r
    → r.id ≡ i
unfolding find_request
find_request-id i [] h = cc
find_request-id i (x ∷ xs) {r} h = ground (arith, find_request-id i xs {r = r})

find_request-put_request :
    (j : ℕ) (r r' : WithdrawalRequest) (rs : List WithdrawalRequest)
    → find_request r'.id rs ≡ some r
    → find_request j (put_request r' rs) ≡ (if r'.id == j then some r' else find_request j rs)
unfolding find_request put_request
find_request-put_request j r r' [] h = cc
find_request-put_request j r r' (x ∷ xs) h = ground (arith, find_request-put_request j r r' xs)

abbrev pub request : ℕ → Db → Option WithdrawalRequest
request i d = find_request i d.tables.withdrawal_requests

-- The request `i` was the pending row `before` in `d` and has another status in `d'`; no other request changed.
pub record Decided (i : ℕ) (status : WithdrawalStatus) (before : WithdrawalRequest) (d d' : Db)
    : Type 0 where
  pub after : WithdrawalRequest
  pub found : request i d ≡ some before
  pub was_pending : before.status ≡ pending
  pub now_found : request i d' ≡ some after
  pub now_decided : after.status ≡ status
  pub same_amount : (after.user_id ≡ before.user_id) × (after.amount ≡ before.amount)
  pub rows : (j : ℕ) → request j d' ≡ (if i == j then some after else request j d)

pub decided :
    (i : ℕ) (d d' : Db) (r r' : WithdrawalRequest)
    → request i d ≡ some r
    → is_pending r.status ≡ true
    → r'.id ≡ r.id
    → r'.user_id ≡ r.user_id
    → r'.amount ≡ r.amount
    → d'.tables.withdrawal_requests ≡ put_request r' d.tables.withdrawal_requests
    → Decided i r'.status r d d'
decided i d d' r r' h p same_id same_user same_amount rows =
    let own : r'.id ≡ i = same_id ∙ find_request-id i d.tables.withdrawal_requests h in
    let here : find_request r'.id d.tables.withdrawal_requests ≡ some r =
      ap (λ x. find_request x d.tables.withdrawal_requests) own ∙ h in
    let after = λ (j : ℕ).
      ap (find_request j) rows
      ∙ find_request-put_request j r r' d.tables.withdrawal_requests here in
    record {
      after = r';
      found = h;
      was_pending = ground arith;
      now_found = ground (arith, after i);
      now_decided = refl;
      same_amount = (same_user, same_amount);
      rows = λ j. ground (arith, after j, own);
    }
