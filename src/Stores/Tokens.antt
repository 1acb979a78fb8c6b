-- ===== src/Stores/Tokens.antt =====
-- token_store.py. Times are in microseconds, except a token's `iat` and what `set_revoke_before`
-- stores, which are in seconds. What Redis answers is an argument: `none` and `false` stand for a
-- Redis that is not available or raises.
use apna_mandla.Prelude.{
  ℕ, ◌+◌, ◌-◌, ◌*◌, ◌/◌, String, Bool, true, false, not, Option, none, some, List, ltb,
  if◌then◌else◌, keep_if,
}
use apna_mandla.Prelude.Text.{str_eq, str}
use apna_mandla.Stores.Dict.{dict_get, dict_set, dict_pop}

pub record TokenStore : Type 0 where
  pub jti_deny : List (String × ℕ)
  pub revoke_before : List (String × ℕ)

-- `max(int((expires_at - now).total_seconds()), 1)`
unfoldable pub ttl_seconds : ℕ → ℕ → ℕ
ttl_seconds expires_at now =
    let whole = (expires_at - now) / 1_000_000 in if ltb whole 1 then 1 else whole

unfoldable pub cleanup_jti_memory : ℕ → TokenStore → TokenStore
cleanup_jti_memory now s = record s { jti_deny = keep_if (λ e. not (ltb e.1 now)) s.jti_deny }

unfoldable pub revoke_jti : Bool → String → ℕ → ℕ → TokenStore → TokenStore
revoke_jti true jti expires_at now s = s
revoke_jti false jti expires_at now s =
    let expiry = now + ttl_seconds expires_at now * 1_000_000 in
    cleanup_jti_memory now (record s { jti_deny = dict_set jti expiry s.jti_deny })

unfoldable pub is_jti_revoked : Option Bool → String → ℕ → TokenStore → Bool × TokenStore
is_jti_revoked (some exists) jti now s = (exists, s)
is_jti_revoked none jti now s = elim (dict_get jti s.jti_deny) [
  | none ↦ (false, s)
  | some expiry ↦
      if ltb expiry now then (false, record s { jti_deny = dict_pop jti s.jti_deny }) else (true, s)
]

-- The dict is keyed by the user's number, which is printed here.
unfoldable pub set_revoke_before : Bool → ℕ → ℕ → TokenStore → TokenStore
set_revoke_before true user_id now s = s
set_revoke_before false user_id now s = record s {
  revoke_before = dict_set (str user_id) (now / 1_000_000) s.revoke_before;
}

unfoldable pub get_revoke_before : Option (Option ℕ) → ℕ → TokenStore → Option ℕ
get_revoke_before (some val) user_id s = val
get_revoke_before none user_id s = dict_get (str user_id) s.revoke_before

-- The claims of a decoded token; `sub` is `none` if `int` raises on it.
pub record Payload : Type 0 where
  pub jti : Option String
  pub sub : Option ℕ
  pub iat : Option ℕ

unfoldable pub issued_before : Option ℕ → Option ℕ → Bool
issued_before (some revoke_ts) (some iat) = ltb iat revoke_ts
issued_before _ _ = false

unfoldable pub is_access_token_revoked :
    Option Bool → Option (Option ℕ) → Payload → ℕ → TokenStore → Bool × TokenStore
is_access_token_revoked denied before payload now s =
    let listed : Bool × TokenStore = elim payload.jti [
      | none ↦ (false, s)
      | some jti ↦ if str_eq jti "" then (false, s) else is_jti_revoked denied jti now s
    ] in
    if listed.0 then (true, listed.1) else (elim payload.sub [
      | none ↦ (false, listed.1)
      | some user_id ↦
          (issued_before (get_revoke_before before user_id listed.1) payload.iat, listed.1)
    ])
