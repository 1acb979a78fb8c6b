-- ===== src/Fraud/Frame.antt =====
-- What a fraud check leaves alone: `pre_check` of Backend/app/services/fraud_service.py.
use apna_mandla.Prelude.{Bool, ◌≡◌, ◌∙◌, arith}
use apna_mandla.Prelude.Int.{ℤ}
use apna_mandla.Schema.{Db}
use apna_mandla.Env.{Env}
use apna_mandla.Session.{M, ok, ◌>>◌, >>=-eq-ok}
use apna_mandla.Fraud.{
  Subject, count_check, flag_if_soon, check_single_txn_limit, check_daily_limit,
  check_hourly_velocity, interval_fallback, check_min_interval, check_velocity_spike, pre_check,
}

pub record Frame (d d' : Db) : Type 0 where
  pub same_books : d'.books ≡ d.books
  pub same_tables : d'.tables ≡ d.tables

-- A call that leaves the books and the tables alone when it returns.
pub record Frames {A : Type 0} (m : M A) : Type 0 where
  pub at : (d : Db) (a : A) (d' : Db) → m d ≡ ok (a, d') → Frame d d'

Frames-bind : {A B : Type 0} (m : M A) (k : M B) → Frames m → Frames k → Frames (m >> k)
Frames-bind m k fm fk = record {
  at = λ d b d' h.
      let (a, e, p, q) = >>=-eq-ok m (λ _. k) d h in
      record {
        same_books = (fk.at e b d' q).same_books ∙ (fm.at d a e p).same_books;
        same_tables = (fk.at e b d' q).same_tables ∙ (fm.at d a e p).same_tables;
      };
}

module _ (s : Subject) where
  count_check-Frames : (over blocked : Bool) → Frames (count_check s over blocked)
  unfolding count_check
  count_check-Frames over blocked = record { at = λ d a d' h. ground arith }

  flag_if_soon-Frames : (soon : Bool) → Frames (flag_if_soon s soon)
  unfolding flag_if_soon
  flag_if_soon-Frames soon = record { at = λ d a d' h. ground arith }

  module _ (env : Env) where
    check_single_txn_limit-Frames : (amount : ℤ) → Frames (check_single_txn_limit env s amount)
    unfolding check_single_txn_limit
    check_single_txn_limit-Frames amount = record { at = λ d a d' h. ground arith }

    check_daily_limit-Frames : (amount : ℤ) → Frames (check_daily_limit env s amount)
    unfolding check_daily_limit
    check_daily_limit-Frames amount = record { at = λ d a d' h. ground arith }

    check_hourly_velocity-Frames : Frames (check_hourly_velocity env s)
    unfolding check_hourly_velocity
    check_hourly_velocity-Frames = record { at = λ d a d' h. ground arith }

    interval_fallback-Frames : Frames (interval_fallback env s)
    unfolding interval_fallback
    interval_fallback-Frames = record { at = λ d a d' h. ground arith }

    check_min_interval-Frames : Frames (check_min_interval env s)
    unfolding check_min_interval
    check_min_interval-Frames = record { at = λ d a d' h. ground arith }

    check_velocity_spike-Frames : (amount : ℤ) → Frames (check_velocity_spike env s amount)
    unfolding check_velocity_spike
    check_velocity_spike-Frames amount = record { at = λ d a d' h. ground arith }

    -- A passed check has changed neither the wallets, nor the ledger, nor another table.
    pub pre_check-Frames : (amount : ℤ) → Frames (pre_check env s amount)
    unfolding pre_check
    pre_check-Frames amount = Frames-bind _ _ (check_single_txn_limit-Frames amount) (
        Frames-bind _ _ (check_daily_limit-Frames amount) (
          Frames-bind _ _ check_hourly_velocity-Frames
            (Frames-bind _ _ check_min_interval-Frames (check_velocity_spike-Frames amount))))
