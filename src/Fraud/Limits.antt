-- ===== src/Fraud/Limits.antt =====
-- The limits on the amount: `pre_check` of Backend/app/services/fraud_service.py.
use apna_mandla.Prelude.{ℕ, ◌-◌, ◌%◌, ◌≡◌, false}
use apna_mandla.Prelude.Int.{ℤ, pos, ◌+ℤ◌, ◌*ℤ◌, ◌≤ℤ◌}
use apna_mandla.Schema.{Db}
use apna_mandla.Env.{Env}
use apna_mandla.Session.{M, Error, fraud_blocked, runtime_error, ok, err}
use apna_mandla.Fraud.{Subject, sum_amounts, debits_since, day, pre_check}
use apna_mandla.Fraud.Frame.{Frame, pre_check-Frames}

-- What the wallet was debited on the day of the next reading of the clock.
abbrev pub spent_today : Env → ℕ → Db → ℤ
spent_today env wallet_id d =
    let time = env.clock d.ticks in
    sum_amounts (debits_since wallet_id (time - time % day) d.books.entries)

module _ (env : Env) (s : Subject) (amount : ℤ) (d d' : Db) where
  pub pre_check-Frame : pre_check env s amount d ≡ ok (tt, d') → Frame d d'
  pre_check-Frame h = (pre_check-Frames s env amount).at d tt d' h

module _ (env : Env) where
  -- The errors of a check: a blocked transaction, or the exception of the subtraction of times.
  pub data Refusal : Error → Type 0 where
    blocked : Refusal fraud_blocked
    mixed_times : env.keeps_time_zone ≡ false → Refusal runtime_error

  -- A call that raises nothing else.
  record Blocks {A : Type 0} (m : M A) : Type 0 where
    at : (d : Db) (e : Error) → m d ≡ err e → Refusal e

module _ (env : Env) (s : Subject) (amount : ℤ) where
  -- A check that passed.
  pub record Passed (d d' : Db) : Type 0 where
    pub only_flags : Frame d d'
    pub one_limit : amount ≤ℤ env.settings.fraud_max_single_txn_amount *ℤ pos 10
    pub daily_limit :
        spent_today env s.wallet_id d +ℤ amount ≤ℤ env.settings.fraud_max_daily_debit_amount
