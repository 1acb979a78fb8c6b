-- ===== src/Access/Admission.antt =====
-- Who passes the checks of Backend/app/core/rbac.py.
use apna_mandla.Prelude.{
  ◌≡◌, ◌∙◌, refl, sym, ap, String, [], ◌∷◌, Bool, Option, true, false, ◌||◌, arith, inl, inr,
  Bool-cases, if◌then◌else◌,
}
use apna_mandla.Prelude.Text.{str_eq, eq_iff}
use apna_mandla.Session.{Error, http_exception}
use apna_mandla.Access.{
  M, Server, User, Conn, returned, raised, closed, ended, serve, Outside, Request, get_current_user,
  claims_revoked, guarded, role_of, lower, shift_case, allow, one_of, require_roles,
  require_customer, require_shop, require_rider, require_admin, require_super_admin,
  require_business_user, Outcome,
}
use apna_mandla.Access.Quiet.{start, Outcome-cases, conn}
use apna_mandla.Access.Revoking.{get_current_user-Quiet}

-- The user of a request is active.
current_user_active :
    (out : Outside) (bearer : Option String) (s : Server) (u : User) (c : Conn)
    → get_current_user out bearer (start s) ≡ returned u c
    → u.is_active ≡ true
unfolding get_current_user claims_revoked
current_user_active out bearer s u c h = ground arith

-- The three roles of business.
pub data Business : Type 0 where
  a_customer a_shop a_rider : Business

abbrev pub name_of : Business → String
name_of a_customer = "customer"
name_of a_shop = "shop"
name_of a_rider = "rider"

abbrev pub check_of : Business → User → M User
check_of a_customer = require_customer
check_of a_shop = require_shop
check_of a_rider = require_rider

abbrev is_super : String → Bool
is_super r = str_eq r "super_admin"

-- What each check makes of a role of business.
not_super : (b : Business) → is_super (name_of b) ≡ false
not_super a_customer = refl
not_super a_shop = refl
not_super a_rider = refl

not_admin : (b : Business) → one_of (name_of b) ("admin" ∷ "super_admin" ∷ []) ≡ false
unfolding one_of
not_admin a_customer = refl
not_admin a_shop = refl
not_admin a_rider = refl

check_of_lem :
    (u : User) (other : Business)
    → check_of other u
      ≡ allow (is_super (role_of u) || (str_eq (role_of u) (name_of other) || false)) u
unfolding require_customer require_shop require_rider require_roles one_of lower shift_case
check_of_lem u a_customer = refl
check_of_lem u a_shop = refl
check_of_lem u a_rider = refl

checks_of :
    (u : User) (b other : Business)
    → role_of u ≡ name_of b
    → check_of other u ≡ allow (str_eq (name_of b) (name_of other)) u
checks_of u b other p =
    check_of_lem u other
    ∙ ap (λ r. allow (is_super r || (str_eq r (name_of other) || false)) u) p
    ∙ ap (λ t. allow t u) (ground (arith, not_super b))

admins_of :
    (u : User) (b : Business)
    → role_of u ≡ name_of b
    → (require_admin u ≡ allow false u) × (require_super_admin u ≡ allow false u)
unfolding require_admin require_super_admin
admins_of u b p = (
  ap (λ r. allow (one_of r ("admin" ∷ "super_admin" ∷ [])) u) p ∙ ap (λ t. allow t u) (not_admin b),
  ap (λ r. allow (is_super r) u) p ∙ ap (λ t. allow t u) (not_super b),
)

business_role :
    (r : String)
    → one_of r ("customer" ∷ "shop" ∷ "rider" ∷ []) ≡ true
    → (b : Business) × (r ≡ name_of b)
unfolding one_of
business_role r h = elim (Bool-cases (str_eq r "customer")) [
  | inl is ↦ (a_customer, (eq_iff r "customer").0 is)
  | inr not_customer ↦ elim (Bool-cases (str_eq r "shop")) [
    | inl is ↦ (a_shop, (eq_iff r "shop").0 is)
    | inr not_shop ↦ (a_rider, (eq_iff r "rider").0 (ground (arith, h)))
  ]
]

allow_lem :
    (ok : Bool) (u v : User) (c d : Conn)
    → allow ok u c ≡ returned v d
    → (ok ≡ true) × (u ≡ v) × (c ≡ d)
unfolding allow
allow_lem ok u v c d h = ground arith

module _ (out : Outside) (rq : Request) (s : Server) where
  serve-guarded :
      (check : User → M User) (u : User) (c : Conn)
      → get_current_user out rq.bearer (start s) ≡ returned u c
      → serve (guarded out check rq) s ≡ ended (check u c)
  unfolding guarded serve
  serve-guarded check u c h =
      ap
        (λ (o : Outcome Conn User).
          ended (elim o [ raised e d ↦ raised e d | returned v d ↦ check v d ]))
        h

  verdict :
      (check : User → M User) (ok : Bool) (u : User) (c : Conn)
      → get_current_user out rq.bearer (start s) ≡ returned u c
      → check u ≡ allow ok u
      → serve (guarded out check rq) s
        ≡ (if ok then returned u (closed c) else raised (http_exception 403) (closed c))
  unfolding allow
  verdict check true u c h p = serve-guarded check u c h ∙ ap (λ m. ended (m c)) p
  verdict check false u c h p = serve-guarded check u c h ∙ ap (λ m. ended (m c)) p

  serve-guarded_raises :
      (check : User → M User) (e : Error) (c : Conn) (v : User) (s' : Server)
      → get_current_user out rq.bearer (start s) ≡ raised e c
      → ¬ (serve (guarded out check rq) s ≡ returned v s')
  unfolding guarded serve
  serve-guarded_raises check e c v s' failed h = ground arith

  business_verdict :
      (u v : User) (c : Conn) (s' : Server)
      → get_current_user out rq.bearer (start s) ≡ returned u c
      → serve (guarded out require_business_user rq) s ≡ returned v s'
      → ((one_of (role_of u) ("customer" ∷ "shop" ∷ "rider" ∷ []) ≡ true) × (u ≡ v))
        × (closed c ≡ s')
  unfolding require_business_user
  business_verdict u v c s' found h =
      let answer = verdict require_business_user _ u c found refl in ground (arith, answer, h)

  business_found :
      (v : User) (s' : Server)
      → serve (guarded out require_business_user rq) s ≡ returned v s'
      → (c : Conn) × (get_current_user out rq.bearer (start s) ≡ returned v c)
        × (closed c ≡ s')
        × (b : Business) × (role_of v ≡ name_of b)
  unfolding guarded serve require_business_user
  business_found v s' h = elim (Outcome-cases (get_current_user out rq.bearer (start s))) [
    | inl (e, c, failed) ↦ absurd (serve-guarded_raises require_business_user e c v s' failed h)
    | inr (u, c, found) ↦
        let ((ok, same), role) = business_verdict u v c s' found h in
        let (b, is) = business_role (role_of u) ok in
        (c, ground (arith, found, same), role, b, ap role_of (sym same) ∙ is)
  ]

  -- A request that passes the check for business users is of an active user with one role of the
  -- three: it passes the check for that role and is answered 403 by the two others, by the one for
  -- admins and by the one for super admins. It changes no table.
  pub roles_apart :
      (u : User) (s' : Server)
      → serve (guarded out require_business_user rq) s ≡ returned u s'
      → (u.is_active ≡ true)
        × (s'.tables ≡ s.tables)
        × (serve (guarded out require_admin rq) s ≡ raised (http_exception 403) s')
        × (serve (guarded out require_super_admin rq) s ≡ raised (http_exception 403) s')
        × (b : Business) × ((other : Business)
            → serve (guarded out (check_of other) rq) s ≡ (
                if str_eq (name_of b) (name_of other)
                then returned u s'
                else raised (http_exception 403) s'))
  roles_apart u s' h =
      let (c, who, ends, b, role) = business_found u s' h in
      let (no_admin, no_super) = admins_of u b role in
      (
        current_user_active out rq.bearer s u c who,
        sym (ap (λ x. x.tables) ends)
            ∙ ap (λ o. (conn o).saved) (sym who)
            ∙ (get_current_user-Quiet out rq.bearer).saved (start s),
        verdict require_admin false u c who no_admin ∙ ap (λ x. raised (http_exception 403) x) ends,
        verdict require_super_admin false u c who no_super
            ∙ ap (λ x. raised (http_exception 403) x) ends,
        b,
        λ other.
            verdict (check_of other) _ u c who (checks_of u b other role)
            ∙ ap
                (λ x.
                  if str_eq (name_of b) (name_of other)
                  then returned u x
                  else raised (http_exception 403) x)
                ends,
      )
