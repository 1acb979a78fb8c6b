-- ===== src/Access/Codes.antt =====
-- One-time codes: auth_verify.py, auth_otp.py and auth_password.py of Backend/app/routes. The rate
-- limit before each call is that of Stores/Limiter.
use apna_mandla.Prelude.{
  ℕ, ◌+◌, String, Bool, true, false, not, ◌&&◌, ◌||◌, Option, none, some, List, [], ◌∷◌, ◌==◌, leb,
  ltb, if◌then◌else◌, first, keep_if,
}
use apna_mandla.Prelude.Text.{str_eq, str}
use apna_mandla.Session.{http_exception, runtime_error}
use apna_mandla.Table.{put_row}
use apna_mandla.Access.Tables.{User, Otp, user_ids, otp_ids}
use apna_mandla.Access.Connection.{
  M, ◌>>=◌, ◌>>◌, pure, raise, raise_if, or_raise, gets, modify, commit,
}
use apna_mandla.Access.Tokens.{Outside, TokenPair, now, create_token_pair, verify_otp_hash}
use apna_mandla.Access.Sessions.{add_session}

-- `.order_by(OTP.created_at.desc()).first()`
unfoldable pub newest : List Otp → Option Otp
newest [] = none
newest (o ∷ os) =
    let rest = newest os in
    elim rest [ none ↦ some o | some b ↦ if ltb o.created_at b.created_at then some b else some o ]

abbrev pub phone_is : String → Otp → Bool
phone_is phone o = elim o.phone_number [ none ↦ false | some p ↦ str_eq p phone ]

abbrev pub open_for : String → ℕ → Otp → Bool
open_for purpose now o = str_eq o.purpose purpose && (not o.is_used && ltb now o.expires_at)

abbrev pub of_user : ℕ → Otp → Bool
of_user u o = elim o.user_id [ none ↦ false | some i ↦ i == u ]

unfoldable pub save_otp : Otp → M (Unit {0})
save_otp o = modify (λ t. record t { otps = put_row otp_ids o t.otps })

unfoldable pub save_user : User → M (Unit {0})
save_user u = modify (λ t. record t { users = put_row user_ids u t.users })

abbrev pub used_up : Otp → Otp
used_up o = record o { is_used = true }

abbrev pub missed : Otp → Otp
missed o = record o { attempt_count = o.attempt_count + 1 }

-- A wrong code is counted, and the count committed.
unfoldable pub wrong_code : {A : Type 0} → Otp → ℕ → M A
wrong_code o status = do save_otp (missed o); commit; raise (http_exception status)

module _ (out : Outside) where
  -- A session for a user whose code was right.
  unfoldable pub open_session : ℕ → M TokenPair
  open_session user_id = do
    tokens ← create_token_pair out (str user_id) false
    add_session user_id tokens.refresh_token
    commit
    pure tokens

  unfoldable pub accept_code : String → String → Otp → M TokenPair
  accept_code phone_number purpose o = do
    save_otp (used_up o)
    found ← gets (λ t. first (λ u. str_eq u.phone_number phone_number) t.users)
    user ← or_raise found (http_exception 404)
    raise_if (str_eq purpose "login" && not user.is_active) (http_exception 403)
    if str_eq purpose "signup" then save_user (record user { is_active = true }) else pure tt
    open_session user.id

  unfoldable pub verify_otp : String → String → String → M TokenPair
  verify_otp phone_number otp purpose = do
    time ← now out
    raise_if (not (str_eq purpose "login" || str_eq purpose "signup")) (http_exception 400)
    found ←
        gets
          (λ t. newest (keep_if (λ o. phone_is phone_number o && open_for purpose time o) t.otps))
    o ← or_raise found (http_exception 401)
    raise_if (leb 5 o.attempt_count) (http_exception 429)
    right ← verify_otp_hash out otp o.otp_hash
    if right then accept_code phone_number purpose o else wrong_code o 401

  -- The older path. After a right code it reads `phone_verified`, a column that User does not have,
  -- before it commits anything.
  unfoldable pub verify_login_otp : String → String → M TokenPair
  verify_login_otp phone_number otp = do
    time ← now out
    account ← gets (λ t. first (λ u. str_eq u.phone_number phone_number) t.users)
    user ← or_raise account (http_exception 404)
    found ← gets (λ t. newest (keep_if (λ o. of_user user.id o && open_for "login" time o) t.otps))
    o ← or_raise found (http_exception 404)
    raise_if (leb 5 o.attempt_count) (http_exception 429)
    right ← verify_otp_hash out otp o.otp_hash
    if right
        then (save_otp (used_up o)
            >> (raise_if (not user.is_active) (http_exception 403) >> raise runtime_error))
        else wrong_code o 400

  -- It counts wrong codes and does not look at the count. After a right code it filters by
  -- `is_archived`, a column that User does not have.
  unfoldable pub reset_password : String → String → M (Unit {0})
  reset_password phone_number otp = do
    time ← now out
    found ← gets (λ t.
        newest (keep_if (λ o. phone_is phone_number o && open_for "password-reset" time o) t.otps))
    o ← or_raise found (http_exception 401)
    right ← verify_otp_hash out otp o.otp_hash
    if right then (save_otp (used_up o) >> raise runtime_error) else wrong_code o 401
