-- ===== src/Tests/StoreRuns.antt =====
-- Six requests of one client, and a logout.
use apna_mandla.Prelude.{◌≡◌, refl, true, false, none, some, List, [], ◌∷◌, arith, ℕ}
use apna_mandla.Prelude.Text.{str_eq}
use apna_mandla.Stores.{
  RateLimiter, TokenStore, revoke_jti, is_jti_revoked, Payload, is_access_token_revoked,
}
use apna_mandla.Stores.LimiterReference.{answers, reference, Ordered, answers-reference}
use apna_mandla.Stores.Revocation.{no_call, one_more, checking, is_access_token_revoked-lasts}

-- `otp_request_limiter`
abbrev otp_request_limiter : RateLimiter
otp_request_limiter = record { times = 5; seconds = 600 }

abbrev requests : List ℕ
requests = 1 ∷ 2 ∷ 2 ∷ 3 ∷ 4 ∷ 5 ∷ 700_000_000 ∷ []

in_order : Ordered 0 requests
in_order = (
  omega arith,
  (omega arith, (omega arith, (omega arith, (omega arith, (omega arith, (omega arith, tt)))))),
)

answers-reference_example :
    answers otp_request_limiter "ip" requests [] ≡ reference otp_request_limiter requests []
answers-reference_example =
    answers-reference otp_request_limiter "ip" requests (omega arith) in_order

sixth_refused :
    answers otp_request_limiter "ip" requests []
    ≡ true ∷ true ∷ true ∷ true ∷ true ∷ false ∷ true ∷ []
unfolding answers apna_mandla.Stores.check_memory apna_mandla.Stores.Dict.dict_get
    apna_mandla.Stores.Dict.dict_set
sixth_refused = refl

abbrev no_tokens : TokenStore
no_tokens = record { jti_deny = []; revoke_before = [] }

abbrev claims : Payload
claims = record { jti = some "j1"; sub = some 7; iat = some 5 }

abbrev logged_out : TokenStore
logged_out = revoke_jti false "j1" 900_000_000 10_000_000 no_tokens

not_empty : str_eq "j1" "" ≡ false
not_empty = refl

is_access_token_revoked-lasts_example :
    (is_access_token_revoked none none claims 899_000_000
      (is_jti_revoked none "j2" 20_000_000 logged_out).1).0
    ≡ true
is_access_token_revoked-lasts_example =
    is_access_token_revoked-lasts "j1" 899_000_000 900_000_000 10_000_000 no_tokens
      (is_jti_revoked none "j2" 20_000_000 logged_out).1 none claims refl not_empty (omega arith)
      (omega arith) (one_more no_call (checking "j2" 20_000_000 logged_out (omega arith)))
