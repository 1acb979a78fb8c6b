-- ===== src/Tests/AccessCalls.antt =====
-- A run of the requests on sessions and codes: user 7 logs in, refreshes, and logs out.
use apna_mandla.Prelude.{◌*◌, true, false, none, some, [], ◌∷◌, if◌then◌else◌, get_or}
use apna_mandla.Prelude.Text.{f_string, str, str_eq}
use apna_mandla.Access.{
  Server, Outcome, returned, raised, serve, server, Outside, Claims, TokenPair, Request, User, Otp,
  verify_otp, verify_login_otp, refresh_access_token, logout,
}

abbrev pub session_claims : Claims
session_claims = record {
  sub = some "7";
  kind = some "refresh";
  jti = some "4";
  is_admin = none;
  iat = some 3;
  exp = some 604_803;
}

abbrev pub user_claims : Claims
user_claims = record {
  sub = some "7";
  kind = some "access";
  jti = some "2";
  is_admin = some false;
  iat = some 1;
  exp = some 901;
}

-- The clock goes on by a second for each reading; two tokens decode.
abbrev pub test_out : Outside
test_out = record {
  clock = λ n. n * 1_000_000;
  token_hex = str;
  jwt_encode =
      λ c. f_string (get_or c.kind "" ∷ "-" ∷ get_or c.sub "" ∷ "-" ∷ get_or c.jti "" ∷ []);
  jwt_decode = λ now t.
      if str_eq t "refresh-7-4"
      then some session_claims
      else if str_eq t "access-7-2"
      then some user_claims
      else none;
  int_of = λ t. if str_eq t "7" then some 7 else none;
  compare_digest = λ a b. some (str_eq a b);
  sha256 = λ t. t;
  get_password_hash = λ n t. t;
  redis_sets = λ n. false;
  redis_denies = λ n. none;
  redis_before = λ n. none;
  access_token_expire_minutes = 15;
  refresh_token_expire_days = 7;
}

abbrev pub customer : User
customer = record {
  id = 7;
  phone_number = "98";
  hashed_password = "";
  user_type = some "CUSTOMER";
  admin_role = none;
  is_active = true;
}

abbrev pub login_code : Otp
login_code = record {
  id = 1;
  user_id = some 7;
  phone_number = some "98";
  otp_hash = "123456";
  purpose = "login";
  expires_at = 300_000_000;
  created_at = 0;
  is_used = false;
  attempt_count = 0;
}

abbrev pub signup_code : Otp
signup_code = record login_code { id = 2; purpose = "signup"; otp_hash = "654321" }

abbrev pub at_first : Server
at_first = record {
  tables = record {
    users = customer ∷ [];
    sessions = [];
    next_session_id = 1;
    otps = signup_code ∷ login_code ∷ [];
  };
  store = record { jti_deny = []; revoke_before = [] };
  ticks = 0;
}

abbrev pub pair_of : Outcome Server TokenPair → TokenPair
pair_of (returned p s) = p
pair_of (raised e s) = record { access_token = ""; refresh_token = "" }

abbrev pub login : Outcome Server TokenPair
login = serve (verify_otp test_out "98" "123456" "login") at_first

abbrev pub logged_in : Server
logged_in = server login

abbrev pub app : Request
app = record {
  am_refresh_token = none;
  am_csrf_token = none;
  x_csrf_token = none;
  body_token = some "refresh-7-4";
  bearer = some "access-7-2";
}

abbrev pub browser : Request
browser = record app { am_refresh_token = some "refresh-7-4"; body_token = none }

-- An access token in the place of a refresh token.
abbrev pub stolen : Request
stolen = record app { body_token = some "access-7-2" }

abbrev pub renewal : Outcome Server TokenPair
renewal = serve (refresh_access_token test_out app) logged_in

abbrev pub renewed : Server
renewed = server renewal

-- A wrong code over the older path.
abbrev pub guessed : Server
guessed = server (serve (verify_login_otp test_out "98" "000000") renewed)

abbrev pub logged_out : Server
logged_out = server (serve (logout test_out browser) logged_in)
