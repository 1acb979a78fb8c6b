-- ===== src/Fraud.antt =====
-- The checks before a debit: Backend/app/services/fraud_service.py. A blocked transaction raises;
-- anything else that is suspicious only adds a flag. The amount has been rounded by the caller, so
-- `amount.quantize(_TWO)` is the identity.
pub mod Frame
pub mod Limits
use apna_mandla.Prelude.{
  ℕ, ◌+◌, ◌-◌, ◌*◌, ◌^◌, ◌%◌, String, Bool, true, false, not, ◌&&◌, Option, none, some, List, [],
  ◌∷◌, ltb, leb, ◌==◌, if◌then◌else◌, length, keep_if,
}
use apna_mandla.Prelude.Int.{ℤ, pos, ◌+ℤ◌, ◌*ℤ◌, ltb_ℤ}
use apna_mandla.Prelude.Text.{f_string, str}
use apna_mandla.Schema.{
  LedgerEntry, EntrySide, dr, cr, FraudFlag, FraudFlagType, rapid_transactions, large_amount,
  daily_limit_exceeded, velocity_breach, Severity, low, medium, high, Db,
}
use apna_mandla.Env.{Env}
use apna_mandla.Session.{
  M, ok, ◌>>=◌, ◌>>◌, pure, raise, raise_if, now, fraud_blocked, runtime_error,
}

abbrev pub is_dr : EntrySide → Bool
is_dr dr = true
is_dr cr = false

-- The debits of a wallet since a time.
unfoldable pub debits_since : ℕ → ℕ → List LedgerEntry → List LedgerEntry
debits_since wallet_id since =
    keep_if (λ e. e.wallet_id == wallet_id && is_dr e.entry_side && leb since e.created_at)

-- `SUM(amount)`
unfoldable pub sum_amounts : List LedgerEntry → ℤ
sum_amounts [] = pos 0
sum_amounts (e ∷ es) = e.amount +ℤ sum_amounts es

-- The latest `created_at`, as `order_by(created_at.desc()).first()` finds it.
unfoldable pub latest : List LedgerEntry → Option ℕ
latest [] = none
latest (e ∷ es) = elim (latest es) [
  | none ↦ some e.created_at
  | some t ↦ if ltb t e.created_at then some e.created_at else some t
]

abbrev pub second : ℕ
second = 1_000_000

abbrev pub hour : ℕ
hour = 3600 * second

abbrev pub day : ℕ
day = 24 * hour

-- `_flag`
unfoldable pub add_flag : FraudFlag → M (Unit {0})
add_flag f d = ok (tt, record d { flags = f ∷ d.flags })

-- Who is charged, and from which address.
pub record Subject : Type 0 where
  pub user_id : ℕ
  pub wallet_id : ℕ
  pub ip_address : Option String

abbrev flag_of : Subject → FraudFlagType → Severity → Option ℤ → FraudFlag
flag_of s t v a = record {
  user_id = s.user_id;
  wallet_id = s.wallet_id;
  flag_type = t;
  severity = v;
  amount = a;
  ip_address = s.ip_address;
}

-- A count above a limit is flagged, and blocks above a second one.
unfoldable pub count_check : Subject → Bool → Bool → M (Unit {0})
unfolding add_flag
count_check s over blocked =
    if over
    then (add_flag (flag_of s rapid_transactions medium none) >> raise_if blocked fraud_blocked)
    else pure tt

unfoldable pub flag_if_soon : Subject → Bool → M (Unit {0})
unfolding add_flag
flag_if_soon s soon = if soon then add_flag (flag_of s rapid_transactions low none) else pure tt

module _ (env : Env) where
  unfoldable pub check_single_txn_limit : Subject → ℤ → M (Unit {0})
  unfolding add_flag
  check_single_txn_limit s amount =
      let limit = env.settings.fraud_max_single_txn_amount in
      if ltb_ℤ limit amount
      then (add_flag (flag_of s large_amount high (some amount))
          >> raise_if (ltb_ℤ (limit *ℤ pos 10) amount) fraud_blocked)
      else pure tt

  -- `datetime.now().replace(hour=0, ...)` is the start of the day.
  unfoldable pub check_daily_limit : Subject → ℤ → M (Unit {0})
  unfolding add_flag
  check_daily_limit s amount d =
      (do
        time ← now env
        let spent = sum_amounts (debits_since s.wallet_id (time - time % day) d.books.entries)
        if ltb_ℤ env.settings.fraud_max_daily_debit_amount (spent +ℤ amount)
            then (add_flag (flag_of s daily_limit_exceeded high (some amount))
                >> raise fraud_blocked)
            else pure tt)
        d

  -- The Redis counter; `none` where Redis is down or a call raises.
  unfoldable pub hourly_counter : ℕ → ℕ → Option ℕ
  hourly_counter wallet_id tick =
      let key = f_string ("fraud:hourly:" ∷ str wallet_id ∷ []) in
      if env.redis.available tick
      then elim (env.redis.incr tick key) [
        | none ↦ none
        | some count ↦
            if count == 1
            then elim (env.redis.expire tick key) [ none ↦ none | some _ ↦ some count ]
            else some count
      ]
      else none

  unfoldable pub check_hourly_velocity : Subject → M (Unit {0})
  unfolding count_check hourly_counter
  check_hourly_velocity s d =
      let limit = env.settings.fraud_max_hourly_txn_count in
      elim (hourly_counter s.wallet_id d.ticks) [
        | some count ↦ count_check s (ltb limit count) (ltb (limit * 2) count) d
        | none ↦
            (do
              time ← now env
              let count = length (debits_since s.wallet_id (time - hour) d.books.entries)
              count_check s (leb limit count) (leb (limit * 2) count))
              d
      ]

  -- The check against the last debit in the database. A time with a zone less one without raises.
  unfoldable pub interval_fallback : Subject → M (Unit {0})
  unfolding flag_if_soon
  interval_fallback s d = elim (latest (debits_since s.wallet_id 0 d.books.entries)) [
    | none ↦ pure tt d
    | some t ↦
        (do
          time ← now env
          raise_if (not env.keeps_time_zone) runtime_error
          flag_if_soon s (ltb time (t + env.settings.fraud_min_txn_interval_secs * second)))
          d
  ]

  unfoldable pub check_min_interval : Subject → M (Unit {0})
  unfolding flag_if_soon interval_fallback
  check_min_interval s d =
      let key = f_string ("fraud:last_txn:" ∷ str s.wallet_id ∷ []) in
      if env.redis.available d.ticks
      then elim (env.redis.get d.ticks key) [
        | none ↦ interval_fallback s d
        | some last ↦
            (do
              time ← now env
              flag_if_soon s (elim last [
                | none ↦ false
                | some t ↦ ltb time (t + env.settings.fraud_min_txn_interval_secs * second)
              ])
              elim (env.redis.setex d.ticks key) [ none ↦ interval_fallback s | some _ ↦ pure tt ])
              d
      ]
      else interval_fallback s d

  -- `amount > avg * factor`, multiplied by the number of debits and by the factor's places.
  unfoldable pub check_velocity_spike : Subject → ℤ → M (Unit {0})
  unfolding add_flag
  check_velocity_spike s amount d =
      (do
        time ← now env
        let recent = debits_since s.wallet_id (time - 30 * day) d.books.entries
        let factor = env.settings.fraud_velocity_spike_factor
        if ltb_ℤ (pos 0) (sum_amounts recent)
              && ltb_ℤ (sum_amounts recent *ℤ factor.coeff)
                  (amount *ℤ pos (length recent) *ℤ pos (10 ^ factor.places))
            then add_flag (flag_of s velocity_breach medium (some amount))
            else pure tt)
        d

  unfoldable pub pre_check : Subject → ℤ → M (Unit {0})
  pre_check s amount = do
    check_single_txn_limit s amount
    check_daily_limit s amount
    check_hourly_velocity s
    check_min_interval s
    check_velocity_spike s amount
