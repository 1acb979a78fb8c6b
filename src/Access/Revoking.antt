-- ===== src/Access/Revoking.antt =====
-- What logging out and ending sessions do to the table of sessions: auth_logout.py and
-- auth_sessions.py of Backend/app/routes.
use apna_mandla.Prelude.{
  ℕ, ◌≡◌, refl, String, ◌&&◌, Option, none, some, arith, if◌then◌else◌, inl, inr, ◌==◌,
  Option-cases, first, ◌∙◌, ltb, length, keep_if,
}
use apna_mandla.Table.{put_row}
use apna_mandla.Access.{
  Server, Conn, returned, serve, server, Outside, Request, AuthTables, User, get_current_user,
  claims_revoked, Claims, jti_deny_from_bearer, revoke_tokens_of, logout, logout_all_devices,
  revoke_session, revoke_other_sessions, revoke, live_with, other_live, truthy, revoked,
  session_ids, ActiveSession, pure, ◌>>◌, update_where, live_of, revoke_where,
}
use apna_mandla.Access.Quiet.{start, Quiet, quiet_rules, Outcome-cases, serve_after}

abbrev pub its_own : ℕ → ℕ → AuthTables → Option ActiveSession
its_own i u t = first (λ x. x.id == i && live_of u x) t.sessions

abbrev pub ended_by_logout : Option String → AuthTables → AuthTables
ended_by_logout none t = t
ended_by_logout (some token) t = elim (first (live_with token) t.sessions) [
  | none ↦ t
  | some x ↦ record t { sessions = put_row session_ids (revoked x) t.sessions }
]

module _ (out : Outside) where
  claims_revoked-Quiet : (c : Claims) → Quiet (claims_revoked out c)
  unfolding claims_revoked
  claims_revoked-Quiet c = record { saved = λ d. refl; work = λ d. refl }

  pub get_current_user-Quiet : (bearer : Option String) → Quiet (get_current_user out bearer)
  unfolding get_current_user
  get_current_user-Quiet bearer = search (quiet_rules, claims_revoked-Quiet) depth 40

  pub revoke_tokens_of-Quiet : (u : ℕ) → Quiet (revoke_tokens_of out u)
  unfolding revoke_tokens_of
  revoke_tokens_of-Quiet u = search quiet_rules

  pub jti_deny_from_bearer-Quiet :
      (bearer : Option String) → Quiet (jti_deny_from_bearer out bearer)
  unfolding jti_deny_from_bearer
  jti_deny_from_bearer-Quiet none = search quiet_rules
  jti_deny_from_bearer-Quiet (some token) = record {
    saved = λ d. ground arith;
    work = λ d. ground arith;
  }

  -- The user whom a request's access token names.
  pub record Caller (rq : Request) (s : Server) (u : User) : Type 0 where
    pub conn_after : Conn
    pub is : get_current_user out rq.bearer (start s) ≡ returned u conn_after

  same_conn :
      (rq : Request) (s : Server) (c : Conn) (u : User)
      → get_current_user out rq.bearer (start s) ≡ returned u c
      → (c.saved ≡ s.tables) × (c.work ≡ s.tables)
  same_conn rq s c u h =
      let q = get_current_user-Quiet rq.bearer in
      (ground (arith, q.saved (start s), h), ground (arith, q.work (start s), h))

  ends_quietly :
      (u n : ℕ) (bearer : Option String)
      → Quiet (revoke_tokens_of out u >> (jti_deny_from_bearer out bearer >> pure n))
  ends_quietly u n bearer = search (quiet_rules, revoke_tokens_of-Quiet, jti_deny_from_bearer-Quiet)

  maybe_quietly :
      (u n : ℕ) → Quiet ((if ltb 0 n then revoke_tokens_of out u else pure tt) >> pure n)
  maybe_quietly u n = search (quiet_rules, revoke_tokens_of-Quiet)

  module _ (rq : Request) (s : Server) (u : User) (who : Caller rq s u) where
    pub logout_all_devices_tables :
        (server (serve (logout_all_devices out rq) s)).tables
        ≡ record s.tables { sessions = revoke_where (live_of u.id) s.tables.sessions }
    unfolding logout_all_devices update_where
    logout_all_devices_tables =
        let same = same_conn rq s who.conn_after u who.is in
        serve_after (get_current_user out rq.bearer) _ s u who.conn_after who.is
        ∙ (ends_quietly u.id _ rq.bearer).saved _
        ∙ ground arith

    pub revoke_other_sessions_tables :
        (server (serve (revoke_other_sessions out rq) s)).tables ≡ record s.tables {
          sessions = revoke_where (other_live u.id (truthy rq.am_refresh_token)) s.tables.sessions;
        }
    unfolding revoke_other_sessions update_where
    revoke_other_sessions_tables =
        let same = same_conn rq s who.conn_after u who.is in
        let test = other_live u.id (truthy rq.am_refresh_token) in
        let before = who.conn_after.work in
        let written : AuthTables = record before { sessions = revoke_where test before.sessions } in
        serve_after (get_current_user out rq.bearer) _ s u who.conn_after who.is
        ∙ (maybe_quietly u.id (length (keep_if test before.sessions))).saved
            (record who.conn_after { saved = written; work = written })
        ∙ ground arith

    pub revoke_session_tables :
        (i : ℕ)
        → (server (serve (revoke_session out rq i) s)).tables ≡ (elim (its_own i u.id s.tables) [
          | none ↦ s.tables
          | some x ↦ record s.tables {
            sessions = put_row session_ids (revoked x) s.tables.sessions;
          }
        ])
    unfolding revoke_session revoke
    revoke_session_tables i =
        let same = same_conn rq s who.conn_after u who.is in
        serve_after (get_current_user out rq.bearer) _ s u who.conn_after who.is ∙ ground arith

  pub logout_tables :
      (rq : Request) (s : Server)
      → (server (serve (logout out rq) s)).tables
        ≡ ended_by_logout (truthy rq.am_refresh_token) s.tables
  unfolding serve logout revoke
  logout_tables rq s = elim (Option-cases (truthy rq.am_refresh_token)) [
    | inl no_cookie ↦
        let q = (jti_deny_from_bearer-Quiet rq.bearer).saved (start s) in
        elim (Outcome-cases (jti_deny_from_bearer out rq.bearer (start s))) [
          | inl (e, d, r) ↦ ground (arith, q)
          | inr (b, d, r) ↦ ground (arith, q)
        ]
    | inr (token, cookie) ↦ elim (Option-cases (first (live_with token) s.tables.sessions)) [
      | inl absent ↦
          let q = (jti_deny_from_bearer-Quiet rq.bearer).saved (start s) in
          elim (Outcome-cases (jti_deny_from_bearer out rq.bearer (start s))) [
            | inl (e, d, r) ↦ ground (arith, q)
            | inr (b, d, r) ↦ ground (arith, q)
          ]
      | inr (x, found) ↦
          let ended : AuthTables = record s.tables {
            sessions = put_row session_ids (revoked x) s.tables.sessions;
          } in
          let c : Conn = record (start s) { saved = ended; work = ended } in
          let q = (jti_deny_from_bearer-Quiet rq.bearer).saved c in
          elim (Outcome-cases (jti_deny_from_bearer out rq.bearer c)) [
            | inl (e, d, r) ↦ ground (arith, q)
            | inr (b, d, r) ↦ ground (arith, q)
          ]
    ]
  ]
