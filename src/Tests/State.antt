-- ===== src/Tests/State.antt =====
-- An environment and the states that the runs start from.
use apna_mandla.Prelude.{true, ◌+◌, ◌*◌, ◌/◌, refl, false, Option, none, some, [], ◌∷◌}
use apna_mandla.Prelude.Int.{pos}
use apna_mandla.Prelude.Text.{f_string, str, str_eq}
use apna_mandla.Prelude.{String}
use apna_mandla.Json.{Json, Codec, null, text, number, object, field, no_fields}
use apna_mandla.Schema.{Books, Tables, Db, topup}
use apna_mandla.Env.{Env, Redis, default_settings}
use apna_mandla.Session.{Result, ok, err}
use apna_mandla.Ledger.Posting.{Posting}
use apna_mandla.Ledger.{posting, no_links}
use apna_mandla.Ledger.Invariant.{IsValid}

abbrev pub no_redis : Redis
no_redis = record {
  available = λ _. false;
  incr = λ _ _. none;
  expire = λ _ _. none;
  get = λ _ _. none;
  setex = λ _ _. none;
}

-- Texts are read and printed as they are; every body is the payload below.
abbrev pub test_payload : Json
test_payload = object (
    field "payment_id" (text "p1")
      (field "order_id" (text "MOCK-MANUAL-HEX") (field "amount" (number (pos 2500)) no_fields)))

abbrev bind : Json → Option (Option String)
bind null = some none
bind (text s) = some (some s)
bind _ = none

abbrev show : Json → String
show (text s) = s
show _ = "?"

abbrev pub test_codec : Codec
test_codec = record {
  loads = λ _. some test_payload;
  str = show;
  parse_int = λ _. none;
  trunc = λ _. none;
  bind_text = bind;
}

-- A second passes between two readings of the clock.
abbrev pub test_env : Env
test_env = record {
  settings = default_settings;
  clock = λ n. 1_000_000_000_000 + n * 1_000_000;
  uuid = λ n. f_string ("cid-" ∷ str n ∷ []);
  sha256 = λ s. f_string ("#" ∷ []);
  uuid_hex8 = λ n. f_string ("hex-" ∷ str n ∷ []);
  isoformat = λ n. str n;
  iso_date = λ n. str (n / 86_400_000_000);
  uuid_hex12 = λ n. "HEX";
  hmac = λ k s. f_string (k ∷ s ∷ []);
  compare_digest = λ a b. some (str_eq a b);
  upper = λ s. s;
  keeps_time_zone = true;
  random_otp = λ n. "123456";
  json = test_codec;
  redis = no_redis;
}

abbrev pub empty_books : Books
empty_books = record { wallets = []; entries = []; next_wallet_id = 1 }

abbrev pub empty_tables : Tables
empty_tables = record {
  commission_configs = [];
  withdrawal_requests = [];
  next_withdrawal_id = 1;
  udhar_accounts = [];
  next_udhar_account_id = 1;
  udhar_transactions = [];
  gateway_payments = [];
  next_gateway_payment_id = 1;
  shops = [];
  orders = [];
  payments = [];
  parcels = [];
  rider_profiles = [];
  riders = [];
  order_items = [];
  ratings = [];
  next_rating_id = 1;
}

abbrev pub empty_db : Db
empty_db = record { books = empty_books; tables = empty_tables; flags = []; ticks = 0 }

-- The state after a call, and what it returned.
abbrev pub after : {A : Type 0} → Db → Result (A × Db) → Db
after d (ok (a, d')) = d'
after d (err e) = d

abbrev pub returned : {A : Type 0} → A → Result (A × Db) → A
returned a (ok (b, d)) = b
returned a (err e) = a

pub empty_books-IsValid : IsValid test_env empty_books
unfolding apna_mandla.Ledger.Invariant.net_all apna_mandla.Ledger.Wallets.sum_balances
empty_books-IsValid = record { distinct = tt; backed = tt; chain = tt; accounted = refl }

-- The platform's wallet is given 1000.00.
abbrev pub funding : Posting
funding = posting 1 (pos 100_000) topup "seed" no_links (some "seed")
