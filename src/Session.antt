-- ===== src/Session.antt =====
-- A service call inside one database session. It returns a value and the new state, or raises;
-- what it wrote before it raised is dropped, since every caller rolls the session back.
pub mod Keeps
use apna_mandla.Prelude.{
  ℕ, ◌+◌, String, Bool, true, false, Option, none, some, ◌≡◌, refl, ◌⊎◌, inl, inr,
}
use apna_mandla.Schema.{Db}
use apna_mandla.Env.{Env}

pub data Error : Type 0 where
  wallet_frozen insufficient_balance fraud_blocked : Error
  topup_not_positive below_minimum_withdrawal payment_not_found wrong_status bad_signature : Error
  value_error : Error
  integrity_error runtime_error : Error
  http_exception : ℕ → Error

pub data Result {ℓ} (A : Type ℓ) : Type ℓ where
  ok : A → Result A
  err : Error → Result A

abbrev pub M : Type 0 → Type 0
M A = Db → Result (A × Db)

infixl 5 ◌>>=◌ ◌>>◌
abbrev pub ◌>>=◌ : {A B : Type 0} → M A → (A → M B) → M B
◌>>=◌ m f d = elim (m d) [ err e ↦ err e | ok (a, d') ↦ f a d' ]

abbrev pub ◌>>◌ : {A B : Type 0} → M A → M B → M B
◌>>◌ m k d = elim (m d) [ err e ↦ err e | ok (a, d') ↦ k d' ]

abbrev pub pure : {A : Type 0} → A → M A
pure a d = ok (a, d)

abbrev pub raise : {A : Type 0} → Error → M A
raise e d = err e

abbrev pub raise_if : Bool → Error → M (Unit {0})
raise_if true e d = err e
raise_if false e d = ok (tt, d)

abbrev pub gets : {A : Type 0} → (Db → A) → M A
gets f d = ok (f d, d)

-- The row that a query found, or the error of its absence.
abbrev pub or_raise : {A : Type 0} → Option A → Error → M A
or_raise none e d = err e
or_raise (some a) e d = ok (a, d)

-- The two branches on whether a query found a row.
abbrev pub if_found : {A B : Type 0} → Option B → (B → M A) → M A → M A
if_found none f m d = m d
if_found (some b) f m d = f b d

module _ (env : Env) where
  -- `datetime.now(timezone.utc)`
  abbrev pub now : M ℕ
  now d = ok (env.clock d.ticks, record d { ticks = d.ticks + 1 })

  -- `str(uuid.uuid4())`
  abbrev pub new_uuid : M String
  new_uuid d = ok (env.uuid d.ticks, record d { ticks = d.ticks + 1 })

module _ (env : Env) where
  -- `uuid.uuid4().hex[:12].upper()`
  abbrev pub new_hex12 : M String
  new_hex12 d = ok (env.uuid_hex12 d.ticks, record d { ticks = d.ticks + 1 })

-- The inversion of a bind that returned.
pub >>=-eq-ok :
    {A B : Type 0} (m : M A) (f : A → M B) (d : Db) {r : B × Db}
    → (m >>= f) d ≡ ok r
    → (a : A) × (e : Db) × (m d ≡ ok (a, e)) × (f a e ≡ ok r)
>>=-eq-ok {A} {B} m f d {r} h = go (m d) refl h
  where
    go :
        (x : Result (A × Db))
        → m d ≡ x
        → (let y : Result (B × Db) = elim x [ err e ↦ err e | ok (a, d') ↦ f a d' ] in y) ≡ ok r
        → (a : A) × (e : Db) × (m d ≡ ok (a, e)) × (f a e ≡ ok r)
    go (ok (a, e)) p q = (a, e, p, q)
    go (err e) p q = absurd (cc q)

-- To split on how a call ended, and keep the equation.
pub Result-cases :
    {A : Type 0} (r : Result (A × Db))
    → ((e : Error) × (r ≡ err e)) ⊎ ((a : A) × (d : Db) × (r ≡ ok (a, d)))
Result-cases (err e) = inl (e, refl)
Result-cases (ok (a, d)) = inr (a, d, refl)
