-- ===== src/Env.antt =====
-- What the services take from outside: the settings of Backend/app/core/config.py, and the clock,
-- the random source, the hash and Redis, which are parameters. A reading is a function of the
-- number of readings made before it, so nothing is assumed about how readings relate.
use apna_mandla.Prelude.{ℕ, String, Bool, Option}
use apna_mandla.Prelude.Int.{ℤ, pos}
use apna_mandla.Money.{Decimal}
use apna_mandla.Json.{Codec}

-- Amounts are in paise; `fraud_velocity_spike_factor` keeps its places, and the rate has four.
pub record Settings : Type 0 where
  pub fraud_max_single_txn_amount : ℤ
  pub fraud_max_daily_debit_amount : ℤ
  pub fraud_max_hourly_txn_count : ℕ
  pub fraud_min_txn_interval_secs : ℕ
  pub fraud_velocity_spike_factor : Decimal
  pub min_withdrawal_amount : ℤ
  pub udhar_max_credit_limit : ℤ
  pub udhar_max_interest_rate_pct : ℤ

-- The defaults of the class `Settings`.
abbrev pub default_settings : Settings
default_settings = record {
  fraud_max_single_txn_amount = pos 5_000_000;
  fraud_max_daily_debit_amount = pos 10_000_000;
  fraud_max_hourly_txn_count = 20;
  fraud_min_txn_interval_secs = 5;
  fraud_velocity_spike_factor = record { coeff = pos 100; places = 1 };
  min_withdrawal_amount = pos 1000;
  udhar_max_credit_limit = pos 5_000_000;
  udhar_max_interest_rate_pct = pos 360_000;
}

-- What Redis answers; `none` is a client call that raises.
pub record Redis : Type 0 where
  pub available : ℕ → Bool
  pub incr : ℕ → String → Option ℕ
  pub expire : ℕ → String → Option (Unit {0})
  pub get : ℕ → String → Option (Option ℕ)
  pub setex : ℕ → String → Option (Unit {0})

-- Times are microseconds since the epoch, in UTC.
pub record Env : Type 0 where
  pub settings : Settings
  pub clock : ℕ → ℕ
  pub uuid : ℕ → String
  pub sha256 : String → String
  pub uuid_hex8 : ℕ → String
  pub isoformat : ℕ → String
  pub iso_date : ℕ → String
  -- `uuid.uuid4().hex[:12].upper()`
  pub uuid_hex12 : ℕ → String
  -- `hmac.new(secret, body, sha256).hexdigest()`
  pub hmac : String → String → String
  -- `hmac.compare_digest`; `none` is its exception on a text outside ASCII.
  pub compare_digest : String → String → Option Bool
  -- `str.upper`
  pub upper : String → String
  -- Whether a time that is read from the database has its time zone; SQLite drops it.
  pub keeps_time_zone : Bool
  -- A code for the delivery: `str(random.randint(100000, 999999))`, or
  -- `str(secrets.randbelow(10000)).zfill(4)` where the rider shows a photo.
  pub random_otp : ℕ → String
  pub json : Codec
  pub redis : Redis
