-- ===== src/Access/Tokens.antt =====
-- The tokens of security.py. What comes from libraries and from outside is a parameter.
use apna_mandla.Prelude.{
  ℕ, ◌+◌, ◌*◌, ◌/◌, String, Bool, false, not, Option, none, some, if◌then◌else◌,
}
use apna_mandla.Prelude.Text.{str_eq}
use apna_mandla.Session.{http_exception, runtime_error}
use apna_mandla.Access.Connection.{M, ◌>>=◌, pure, raise, raise_if, or_raise, reading}

-- The claims of a token; times are in seconds. `iss` is left out: it is one constant.
pub record Claims : Type 0 where
  pub sub : Option String
  pub kind : Option String
  pub jti : Option String
  pub is_admin : Option Bool
  pub iat : Option ℕ
  pub exp : Option ℕ

-- Times of the clock are in microseconds. `jwt_decode` is `none` where the library raises; `int_of`
-- is `none` where `int` does, or is negative. The answers of Redis are as in Stores/Tokens.
pub record Outside : Type 0 where
  pub clock : ℕ → ℕ
  pub token_hex : ℕ → String
  pub jwt_encode : Claims → String
  pub jwt_decode : ℕ → String → Option Claims
  pub int_of : String → Option ℕ
  pub compare_digest : String → String → Option Bool
  pub sha256 : String → String
  pub get_password_hash : ℕ → String → String
  pub redis_sets : ℕ → Bool
  pub redis_denies : ℕ → Option Bool
  pub redis_before : ℕ → Option (Option ℕ)
  pub access_token_expire_minutes : ℕ
  pub refresh_token_expire_days : ℕ

-- `if text:`
abbrev pub truthy : Option String → Option String
truthy none = none
truthy (some t) = if str_eq t "" then none else some t

abbrev pub is_kind : String → Claims → Bool
is_kind k c = elim c.kind [ none ↦ false | some x ↦ str_eq x k ]

pub record TokenPair : Type 0 where
  pub access_token : String
  pub refresh_token : String

module _ (out : Outside) where
  abbrev pub now : M ℕ
  now = reading out.clock

  unfoldable pub access_claims : String → Bool → String → ℕ → Claims
  access_claims subject is_admin jti now = record {
    sub = some subject;
    kind = some "access";
    jti = some jti;
    is_admin = some is_admin;
    iat = some (now / 1_000_000);
    exp = some ((now + out.access_token_expire_minutes * 60 * 1_000_000) / 1_000_000);
  }

  unfoldable pub refresh_claims : String → String → ℕ → Claims
  refresh_claims subject jti now = record {
    sub = some subject;
    kind = some "refresh";
    jti = some jti;
    is_admin = none;
    iat = some (now / 1_000_000);
    exp = some ((now + out.refresh_token_expire_days * 86_400 * 1_000_000) / 1_000_000);
  }

  unfoldable pub create_access_token : String → Bool → M String
  create_access_token subject is_admin = do
    time ← now
    jti ← reading out.token_hex
    pure (out.jwt_encode (access_claims subject is_admin jti time))

  unfoldable pub create_refresh_token : String → M String
  create_refresh_token subject = do
    time ← now
    jti ← reading out.token_hex
    pure (out.jwt_encode (refresh_claims subject jti time))

  unfoldable pub create_token_pair : String → Bool → M TokenPair
  create_token_pair subject is_admin = do
    access ← create_access_token subject is_admin
    refresh ← create_refresh_token subject
    pure (record { access_token = access; refresh_token = refresh })

  -- The empty payload is `none`; a payload with no claim at all counts as empty too.
  unfoldable pub decode_access_token : ℕ → String → Option Claims
  decode_access_token now token = elim (out.jwt_decode now token) [
    | none ↦ none
    | some c ↦ if is_kind "access" c then some c else none
  ]

  unfoldable pub decode_refresh_token : ℕ → String → Option Claims
  decode_refresh_token now token = elim (out.jwt_decode now token) [
    | none ↦ none
    | some c ↦ if is_kind "refresh" c then some c else none
  ]

  -- `int(payload["sub"])`, if there is one
  unfoldable pub subject : Option Claims → Option ℕ
  subject none = none
  subject (some c) = elim c.sub [ none ↦ none | some s ↦ out.int_of s ]

  unfoldable pub verify_otp_hash : String → String → M Bool
  verify_otp_hash plain hashed =
      or_raise (out.compare_digest (out.sha256 plain) hashed) runtime_error

  unfoldable pub require_csrf_token : Option String → Option String → M (Unit {0})
  require_csrf_token header cookie = elim (truthy header) [
    | none ↦ raise (http_exception 403)
    | some h ↦ elim (truthy cookie) [
      | none ↦ raise (http_exception 403)
      | some c ↦ do
        same ← or_raise (out.compare_digest h c) runtime_error
        raise_if (not same) (http_exception 403)
    ]
  ]
