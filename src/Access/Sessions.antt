-- ===== src/Access/Sessions.antt =====
-- auth.py of Backend/app/core, and auth_refresh.py, auth_logout.py and auth_sessions.py of
-- Backend/app/routes. Cookies that a call sets or deletes are left out; a new refresh token is
-- returned with the access token.
use apna_mandla.Prelude.{
  ℕ, ◌+◌, ◌*◌, String, Bool, false, not, ◌&&◌, Option, none, some, ◌∷◌, ◌==◌, if◌then◌else◌, first,
  keep_if, length, ltb,
}
use apna_mandla.Prelude.Text.{str_eq, str}
use apna_mandla.Session.{http_exception}
use apna_mandla.Table.{find_row, put_row}
use apna_mandla.Stores.{Payload, revoke_jti, set_revoke_before, is_access_token_revoked}
use apna_mandla.Access.Tables.{User, ActiveSession, user_ids, session_ids, revoked, revoke_where}
use apna_mandla.Access.Connection.{
  M, ◌>>=◌, ◌>>◌, pure, raise, raise_if, or_raise, if_found, gets, modify, commit, with_store,
  reading, returned,
}
use apna_mandla.Access.Tokens.{
  Claims, Outside, truthy, TokenPair, now, create_token_pair, decode_access_token,
  decode_refresh_token, subject, require_csrf_token,
}

-- The cookies and headers of a request; `body_token` is `body.refresh_token`, and `bearer` what
-- follows "Bearer " in its Authorization.
pub record Request : Type 0 where
  pub am_refresh_token : Option String
  pub am_csrf_token : Option String
  pub x_csrf_token : Option String
  pub body_token : Option String
  pub bearer : Option String

-- `session.is_revoked = True`
unfoldable pub revoke : ActiveSession → M (Unit {0})
revoke s = modify (λ t. record t { sessions = put_row session_ids (revoked s) t.sessions })

unfoldable pub update_where : (ActiveSession → Bool) → M ℕ
update_where p = do
  count ← gets (λ t. length (keep_if p t.sessions))
  modify (λ t. record t { sessions = revoke_where p t.sessions })
  pure count

-- `db.add(ActiveSession(...))`
unfoldable pub add_session : ℕ → String → M (Unit {0})
add_session user_id token = modify (λ t. record t {
  sessions =
      record {
        id = t.next_session_id;
        user_id = user_id;
        refresh_token = token;
        is_revoked = false;
      }
      ∷ t.sessions;
  next_session_id = t.next_session_id + 1;
})

-- An unrevoked session with a refresh token, of a user.
abbrev pub live_with : String → ActiveSession → Bool
live_with token s = str_eq s.refresh_token token && not s.is_revoked

abbrev pub live_of : ℕ → ActiveSession → Bool
live_of user_id s = s.user_id == user_id && not s.is_revoked

abbrev pub other_live : ℕ → Option String → ActiveSession → Bool
other_live user_id none s = live_of user_id s
other_live user_id (some token) s = live_of user_id s && not (str_eq s.refresh_token token)

module _ (out : Outside) where
  -- The refresh token of a request; one from a cookie needs the CSRF token.
  unfoldable pub refresh_source : Request → M String
  refresh_source rq = elim (truthy rq.am_refresh_token) [
    | some cookie ↦ do require_csrf_token out rq.x_csrf_token rq.am_csrf_token; pure cookie
    | none ↦ or_raise (truthy rq.body_token) (http_exception 401)
  ]

  -- A token without an unrevoked session ends every session of its user.
  unfoldable pub reuse_detected : ℕ → M TokenPair
  reuse_detected user_id = do
    modify (λ t. record t { sessions = revoke_where (λ s. s.user_id == user_id) t.sessions })
    commit
    raise (http_exception 401)

  unfoldable pub issue : ActiveSession → ℕ → M TokenPair
  issue session user_id = do
    revoke session
    tokens ← create_token_pair out (str user_id) false
    add_session user_id tokens.refresh_token
    commit
    pure tokens

  unfoldable pub refuse : ActiveSession → M TokenPair
  refuse session = do revoke session; commit; raise (http_exception 401)

  -- The step of a session that was found: its user must still be active.
  unfoldable pub rotate : ActiveSession → ℕ → M TokenPair
  rotate session user_id = do
    found ← gets (λ t. find_row user_ids user_id t.users)
    if_found found (λ u. if u.is_active then issue session user_id else refuse session)
        (refuse session)

  unfoldable pub refresh_access_token : Request → M TokenPair
  refresh_access_token rq = do
    raw_token ← refresh_source rq
    time ← now out
    user_id ← or_raise (subject out (decode_refresh_token out time raw_token)) (http_exception 401)
    found ← gets (λ t. first (λ s. live_with raw_token s && s.user_id == user_id) t.sessions)
    if_found found (λ s. rotate s user_id) (reuse_detected user_id)

  -- `_jti_deny_from_bearer`
  unfoldable pub jti_deny_from_bearer : Option String → M (Unit {0})
  jti_deny_from_bearer none = pure tt
  jti_deny_from_bearer (some token) = do
    time ← now out
    let payload = decode_access_token out time token
    elim payload [
      | none ↦ pure tt
      | some c ↦ elim (truthy c.jti) [
        | none ↦ pure tt
        | some jti ↦ elim c.exp [
          | none ↦ pure tt
          | some exp ↦
              if ltb 0 exp
              then (do
                sets ← reading out.redis_sets
                at ← now out
                with_store (revoke_jti sets jti (exp * 1_000_000) at))
              else pure tt
        ]
      ]
    ]

  unfoldable pub logout : Request → M (Unit {0})
  logout rq = do
    elim (truthy rq.am_refresh_token) [
      | none ↦ pure tt
      | some token ↦ do
        found ← gets (λ t. first (live_with token) t.sessions)
        if_found found (λ s. do revoke s; commit) (pure tt)
    ]
    jti_deny_from_bearer rq.bearer

  unfoldable pub claims_revoked : Claims → M Bool
  claims_revoked c = do
    denied ← reading out.redis_denies
    before ← reading out.redis_before
    time ← now out
    let payload : Payload = record {
      jti = c.jti;
      sub = (elim c.sub [ none ↦ none | some s ↦ out.int_of s ]);
      iat = c.iat;
    }
    λ conn.
        let answer = is_access_token_revoked denied before payload time conn.store in
        returned answer.0 (record conn { store = answer.1 })

  -- The user of a request's access token.
  unfoldable pub get_current_user : Option String → M User
  get_current_user bearer = do
    token ← or_raise bearer (http_exception 401)
    time ← now out
    payload ← or_raise (decode_access_token out time token) (http_exception 401)
    user_id_str ← or_raise (truthy payload.sub) (http_exception 401)
    is_revoked ← claims_revoked payload
    raise_if is_revoked (http_exception 401)
    uid ← or_raise (out.int_of user_id_str) (http_exception 401)
    found ← gets (λ t. find_row user_ids uid t.users)
    user ← or_raise found (http_exception 401)
    raise_if (not user.is_active) (http_exception 401)
    pure user

  -- `set_revoke_before`
  unfoldable pub revoke_tokens_of : ℕ → M (Unit {0})
  revoke_tokens_of user_id = do
    sets ← reading out.redis_sets
    time ← now out
    with_store (set_revoke_before sets user_id time)

  unfoldable pub logout_all_devices : Request → M ℕ
  logout_all_devices rq = do
    current_user ← get_current_user rq.bearer
    count ← update_where (live_of current_user.id)
    commit
    revoke_tokens_of current_user.id
    jti_deny_from_bearer rq.bearer
    pure count

  unfoldable pub revoke_session : Request → ℕ → M (Unit {0})
  revoke_session rq session_id = do
    current_user ← get_current_user rq.bearer
    found ← gets (λ t. first (λ s. s.id == session_id && live_of current_user.id s) t.sessions)
    session ← or_raise found (http_exception 404)
    revoke session
    commit

  unfoldable pub revoke_other_sessions : Request → M ℕ
  revoke_other_sessions rq = do
    current_user ← get_current_user rq.bearer
    count ← update_where (other_live current_user.id (truthy rq.am_refresh_token))
    commit
    if ltb 0 count then revoke_tokens_of current_user.id else pure tt
    pure count
