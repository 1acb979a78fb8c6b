-- ===== src/Access/Quiet.antt =====
-- Parts of a request that neither write a table nor commit.
use apna_mandla.Prelude.{
  ◌⊎◌, inl, inr, ℕ, ◌≡◌, ◌∙◌, refl, Bool, true, false, Option, none, some, arith, if◌then◌else◌,
}
use apna_mandla.Session.{Error}
use apna_mandla.Stores.{TokenStore}
use apna_mandla.Access.Tables.{AuthTables}
use apna_mandla.Access.Connection.{
  Server, serve, server, Conn, Outcome, returned, raised, M, ◌>>=◌, ◌>>◌, pure, raise, raise_if,
  or_raise, gets, with_store, reading,
}

abbrev pub conn : {A : Type 0} → Outcome Conn A → Conn
conn (returned a c) = c
conn (raised e c) = c

pub record Quiet {A : Type 0} (m : M A) : Type 0 where
  pub saved : (c : Conn) → (conn (m c)).saved ≡ c.saved
  pub work : (c : Conn) → (conn (m c)).work ≡ c.work

module _ {A : Type 0} where
  pub Quiet-pure : (a : A) → Quiet (pure a)
  Quiet-pure a = record { saved = λ c. refl; work = λ c. refl }

  pub Quiet-raise : (e : Error) → Quiet (raise {A = A} e)
  Quiet-raise e = record { saved = λ c. refl; work = λ c. refl }

  pub Quiet-gets : (f : AuthTables → A) → Quiet (gets f)
  Quiet-gets f = record { saved = λ c. refl; work = λ c. refl }

  pub Quiet-reading : (f : ℕ → A) → Quiet (reading f)
  Quiet-reading f = record { saved = λ c. refl; work = λ c. refl }

  pub Quiet-or_raise : (o : Option A) (e : Error) → Quiet (or_raise o e)
  Quiet-or_raise none e = record { saved = λ c. refl; work = λ c. refl }
  Quiet-or_raise (some a) e = record { saved = λ c. refl; work = λ c. refl }

  pub Quiet-if : (b : Bool) (m n : M A) → Quiet m → Quiet n → Quiet (if b then m else n)
  Quiet-if true m n qm qn = qm
  Quiet-if false m n qm qn = qn

pub Quiet-raise_if : (b : Bool) (e : Error) → Quiet (raise_if b e)
Quiet-raise_if true e = record { saved = λ c. refl; work = λ c. refl }
Quiet-raise_if false e = record { saved = λ c. refl; work = λ c. refl }

pub Quiet-with_store : (f : TokenStore → TokenStore) → Quiet (with_store f)
Quiet-with_store f = record { saved = λ c. refl; work = λ c. refl }

module _ {A B : Type 0} where
  bind_saved :
      (m : M A) (f : A → M B) (c : Conn)
      → Quiet m
      → ((a : A) → Quiet (f a))
      → (conn ((m >>= f) c)).saved ≡ c.saved
  bind_saved m f c qm qf = go (m c) (qm.saved c)
    where
      go :
          (r : Outcome Conn A)
          → (conn r).saved ≡ c.saved
          → (let y : Outcome Conn B = elim r [ raised e d ↦ raised e d | returned a d ↦ f a d ] in
              (conn y).saved)
            ≡ c.saved
      go (raised e d) p = p
      go (returned a d) p = (qf a).saved d ∙ p

  bind_work :
      (m : M A) (f : A → M B) (c : Conn)
      → Quiet m
      → ((a : A) → Quiet (f a))
      → (conn ((m >>= f) c)).work ≡ c.work
  bind_work m f c qm qf = go (m c) (qm.work c)
    where
      go :
          (r : Outcome Conn A)
          → (conn r).work ≡ c.work
          → (let y : Outcome Conn B = elim r [ raised e d ↦ raised e d | returned a d ↦ f a d ] in
              (conn y).work)
            ≡ c.work
      go (raised e d) p = p
      go (returned a d) p = (qf a).work d ∙ p

  pub Quiet-bind : (m : M A) (f : A → M B) → Quiet m → ((a : A) → Quiet (f a)) → Quiet (m >>= f)
  Quiet-bind m f qm qf = record {
    saved = λ c. bind_saved m f c qm qf;
    work = λ c. bind_work m f c qm qf;
  }

  pub Quiet-then : (m : M A) (k : M B) → Quiet m → Quiet k → Quiet (m >> k)
  Quiet-then m k qm qk = Quiet-bind m (λ _. k) qm (λ _. qk)

pub ruleset quiet_rules = (
  Quiet-pure, Quiet-raise, Quiet-gets, Quiet-reading, Quiet-or_raise, Quiet-if, Quiet-raise_if,
  Quiet-with_store, Quiet-bind, Quiet-then,
)

pub Outcome-cases :
    {S A : Type 0} (o : Outcome S A)
    → ((e : Error) × (s : S) × (o ≡ raised e s)) ⊎ ((a : A) × (s : S) × (o ≡ returned a s))
Outcome-cases (raised e s) = inl (e, s, refl)
Outcome-cases (returned a s) = inr (a, s, refl)

abbrev pub start : Server → Conn
start s = record { saved = s.tables; work = s.tables; store = s.store; ticks = s.ticks }

module _ {A B : Type 0} (m : M A) (f : A → M B) (s : Server) where
  -- A request whose first part returned, or raised.
  pub serve_after :
      (a : A) (c : Conn)
      → m (start s) ≡ returned a c
      → (server (serve (m >>= f) s)).tables ≡ (conn (f a c)).saved
  unfolding serve
  serve_after a c h = elim (Outcome-cases (f a c)) [
    | inl (e, d, r) ↦ ground arith
    | inr (b, d, r) ↦ ground arith
  ]

  pub serve_failed :
      (e : Error) (c : Conn)
      → m (start s) ≡ raised e c
      → Quiet m
      → (server (serve (m >>= f) s)).tables ≡ s.tables
  unfolding serve
  serve_failed e c h q = ground (arith, q.saved (start s))

pub then_after :
    {A B : Type 0} (m : M A) (k : M B) (s : Server) (a : A) (c : Conn)
    → m (start s) ≡ returned a c
    → (server (serve (m >> k) s)).tables ≡ (conn (k c)).saved
unfolding serve
then_after m k s a c h = elim (Outcome-cases (k c)) [
  | inl (e, d, r) ↦ ground arith
  | inr (b, d, r) ↦ ground arith
]
