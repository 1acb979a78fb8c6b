-- ===== src/Access/Connection.antt =====
-- A request: what its session has written but not committed is dropped when the request ends, by a
-- return or an exception. What it wrote to the token store stays. The queries of these routes take no
-- lock; the model describes requests that come one after the other.
use apna_mandla.Prelude.{ℕ, ◌+◌, Bool, true, false, Option, none, some}
use apna_mandla.Session.{Error}
use apna_mandla.Stores.{TokenStore}
use apna_mandla.Access.Tables.{AuthTables}

-- `ticks` counts the readings of the clock and the random source.
pub record Server : Type 0 where
  pub tables : AuthTables
  pub store : TokenStore
  pub ticks : ℕ

-- `saved` is what was committed, `work` what the session sees.
pub record Conn : Type 0 where
  pub saved : AuthTables
  pub work : AuthTables
  pub store : TokenStore
  pub ticks : ℕ

pub data Outcome (S A : Type 0) : Type 0 where
  returned : A → S → Outcome S A
  raised : Error → S → Outcome S A

abbrev pub M : Type 0 → Type 0
M A = Conn → Outcome Conn A

infixl 5 ◌>>=◌ ◌>>◌
abbrev pub ◌>>=◌ : {A B : Type 0} → M A → (A → M B) → M B
◌>>=◌ m f c = elim (m c) [ raised e c' ↦ raised e c' | returned a c' ↦ f a c' ]

abbrev pub ◌>>◌ : {A B : Type 0} → M A → M B → M B
◌>>◌ m k c = elim (m c) [ raised e c' ↦ raised e c' | returned a c' ↦ k c' ]

abbrev pub pure : {A : Type 0} → A → M A
pure a c = returned a c

abbrev pub raise : {A : Type 0} → Error → M A
raise e c = raised e c

abbrev pub raise_if : Bool → Error → M (Unit {0})
raise_if true e c = raised e c
raise_if false e c = returned tt c

abbrev pub or_raise : {A : Type 0} → Option A → Error → M A
or_raise none e c = raised e c
or_raise (some a) e c = returned a c

abbrev pub if_found : {A B : Type 0} → Option B → (B → M A) → M A → M A
if_found none f m c = m c
if_found (some b) f m c = f b c

abbrev pub gets : {A : Type 0} → (AuthTables → A) → M A
gets f c = returned (f c.work) c

abbrev pub modify : (AuthTables → AuthTables) → M (Unit {0})
modify f c = returned tt (record c { work = f c.work })

-- `db.commit()`
abbrev pub commit : M (Unit {0})
commit c = returned tt (record c { saved = c.work })

abbrev pub with_store : (TokenStore → TokenStore) → M (Unit {0})
with_store f c = returned tt (record c { store = f c.store })

-- A reading of the clock or of the random source.
abbrev pub reading : {A : Type 0} → (ℕ → A) → M A
reading f c = returned (f c.ticks) (record c { ticks = c.ticks + 1 })

abbrev pub closed : Conn → Server
closed c = record { tables = c.saved; store = c.store; ticks = c.ticks }

abbrev pub ended : {A : Type 0} → Outcome Conn A → Outcome Server A
ended (returned a c) = returned a (closed c)
ended (raised e c) = raised e (closed c)

-- The server after a request.
abbrev pub server : {A : Type 0} → Outcome Server A → Server
server (returned a s) = s
server (raised e s) = s

unfoldable pub serve : {A : Type 0} → M A → Server → Outcome Server A
serve m s =
    ended (m (record { saved = s.tables; work = s.tables; store = s.store; ticks = s.ticks }))
