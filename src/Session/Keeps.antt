-- ===== src/Session/Keeps.antt =====
-- Properties of the state that a call keeps whenever it returns, one rule for each way to build a
-- call. They are properties of the rows: flags and the count of readings are not promised about.
use apna_mandla.Prelude.{Bool, true, false, ◌≡◌, if◌then◌else◌, Option, none, some, arith}
use apna_mandla.Schema.{Db, Books, Tables}
use apna_mandla.Env.{Env}
use apna_mandla.Session.{
  M, ok, Error, pure, raise, raise_if, or_raise, if_found, gets, now, new_uuid, new_hex12, ◌>>=◌,
  ◌>>◌, >>=-eq-ok,
}

pub record Keeps {A : Type 0} (P : Books → Tables → Type 0) (m : M A) : Type 0 where
  pub at : (d : Db) (a : A) (d' : Db) → P d.books d.tables → m d ≡ ok (a, d') → P d'.books d'.tables

module _ {A : Type 0} {P : Books → Tables → Type 0} where
  pub Keeps-pure : (a : A) → Keeps P (pure a)
  Keeps-pure a = record { at = λ d b d' h e. ground arith }

  pub Keeps-raise : (x : Error) → Keeps P (raise {A = A} x)
  Keeps-raise x = record { at = λ d b d' h e. absurd (cc e) }

  pub Keeps-gets : (f : Db → A) → Keeps P (gets f)
  Keeps-gets f = record { at = λ d b d' h e. ground arith }

  pub Keeps-if : (b : Bool) (m n : M A) → Keeps P m → Keeps P n → Keeps P (if b then m else n)
  Keeps-if true m n km kn = km
  Keeps-if false m n km kn = kn

  pub Keeps-or_raise : (o : Option A) (x : Error) → Keeps P (or_raise o x)
  Keeps-or_raise none x = record { at = λ d b d' h e. absurd (cc e) }
  Keeps-or_raise (some a) x = record { at = λ d b d' h e. ground arith }

  pub Keeps-if_found :
      {B : Type 0} (o : Option B) (f : B → M A) (m : M A)
      → ((b : B) → Keeps P (f b))
      → Keeps P m
      → Keeps P (if_found o f m)
  Keeps-if_found none f m kf km = km
  Keeps-if_found (some b) f m kf km = kf b

module _ {P : Books → Tables → Type 0} where
  pub Keeps-raise_if : (b : Bool) (x : Error) → Keeps P (raise_if b x)
  Keeps-raise_if true x = record { at = λ d b d' h e. absurd (cc e) }
  Keeps-raise_if false x = record { at = λ d b d' h e. ground arith }

module _ {A B : Type 0} {P : Books → Tables → Type 0} where
  pub Keeps-bind :
      (m : M A) (f : A → M B) → Keeps P m → ((a : A) → Keeps P (f a)) → Keeps P (m >>= f)
  Keeps-bind m f km kf = record {
    at = λ d b d' h e. let (a, c, p, q) = >>=-eq-ok m f d e in (kf a).at c b d' (km.at d a c h p) q;
  }

  pub Keeps-then : (m : M A) (k : M B) → Keeps P m → Keeps P k → Keeps P (m >> k)
  Keeps-then m k km kk = Keeps-bind m (λ _. k) km (λ _. kk)

module _ (env : Env) {P : Books → Tables → Type 0} where
  pub Keeps-now : Keeps P (now env)
  Keeps-now = record { at = λ d b d' h e. ground arith }

  pub Keeps-new_uuid : Keeps P (new_uuid env)
  Keeps-new_uuid = record { at = λ d b d' h e. ground arith }

  pub Keeps-new_hex12 : Keeps P (new_hex12 env)
  Keeps-new_hex12 = record { at = λ d b d' h e. ground arith }

pub ruleset keeps_rules = (
  Keeps-pure, Keeps-raise, Keeps-gets, Keeps-if, Keeps-or_raise, Keeps-if_found, Keeps-raise_if,
  Keeps-bind, Keeps-then, Keeps-now, Keeps-new_uuid, Keeps-new_hex12,
)
