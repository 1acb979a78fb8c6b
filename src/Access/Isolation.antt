-- ===== src/Access/Isolation.antt =====
-- A user ends only own sessions: auth_logout.py and auth_sessions.py of Backend/app/routes.
use apna_mandla.Prelude.{
  ℕ, ◌≡◌, String, true, Option, none, some, arith, ◌∙◌, inl, inr, Option-cases, ap,
}
use apna_mandla.Table.{put_row, first-find_row, first-passes}
use apna_mandla.Access.{
  Server, serve, server, Outside, Request, User, ActiveSession, session_ids, revoked, live_of,
  other_live, truthy, logout_all_devices, revoke_session, revoke_other_sessions,
}
use apna_mandla.Access.Live.{
  live, revoke_where-live_same, live_sessions, others, revoke_where-others,
  revoke_where-live_sessions, put_row-others,
}
use apna_mandla.Access.Revoking.{
  Caller, its_own, logout_all_devices_tables, revoke_other_sessions_tables, revoke_session_tables,
}
use apna_mandla.Access.Change.{Sound}

other_live-own :
    (u : ℕ) (token : Option String) (s : ActiveSession)
    → other_live u token s ≡ true
    → s.user_id ≡ u
other_live-own u none s h = ground arith
other_live-own u (some t) s h = ground arith

module _ (out : Outside) (rq : Request) (s : Server) (u : User) (who : Caller out rq s u)
    (v : Sound s.tables) where
  abbrev SameOthers : Server → Type 0
  SameOthers s' = others u.id s'.tables.sessions ≡ others u.id s.tables.sessions

  revoke_session-others : (i : ℕ) → SameOthers (server (serve (revoke_session out rq i) s))
  revoke_session-others i = elim (Option-cases (its_own i u.id s.tables)) [
    | inl absent ↦
        let same : (server (serve (revoke_session out rq i) s)).tables ≡ s.tables =
          revoke_session_tables out rq s u who i ∙ ground arith in
        ap (λ t. others u.id t.sessions) same
    | inr (x, found) ↦
        let own : x.user_id ≡ u.id =
          ground (arith, first-passes session_ids _ s.tables.sessions found) in
        let after : (server (serve (revoke_session out rq i) s)).tables
            ≡ record s.tables { sessions = put_row session_ids (revoked x) s.tables.sessions } =
          revoke_session_tables out rq s u who i ∙ ground arith in
        ap (λ t. others u.id t.sessions) after
        ∙ put_row-others u.id x s.tables.sessions
            (first-find_row session_ids _ s.tables.sessions v.distinct found) own
  ]

  -- In sound tables, for a request with a refresh cookie whose access token names a user: ending
  -- one session, ending the others, and logging out everywhere leave the sessions of all other
  -- users as they were; ending the others keeps the unrevoked sessions of the cookie's token, and
  -- logging out everywhere leaves the user no unrevoked session.
  pub own_sessions_only :
      (i : ℕ) (token : String)
      → truthy rq.am_refresh_token ≡ some token
      → SameOthers (server (serve (revoke_session out rq i) s))
        × SameOthers (server (serve (revoke_other_sessions out rq) s))
        × (live token (server (serve (revoke_other_sessions out rq) s)).tables.sessions
            ≡ live token s.tables.sessions)
        × SameOthers (server (serve (logout_all_devices out rq) s))
        × (live_sessions u.id (server (serve (logout_all_devices out rq) s)).tables.sessions ≡ 0)
  own_sessions_only i token cookie =
      let rows = s.tables.sessions in
      let test = other_live u.id (truthy rq.am_refresh_token) in
      let all = ap (λ t. t.sessions) (logout_all_devices_tables out rq s u who) in
      (
        revoke_session-others i,
        ap (λ t. others u.id t.sessions) (revoke_other_sessions_tables out rq s u who)
            ∙ revoke_where-others u.id test rows (other_live-own u.id (truthy rq.am_refresh_token)),
        ap (λ t. live token t.sessions) (revoke_other_sessions_tables out rq s u who)
            ∙ revoke_where-live_same token test rows (λ x hit. ground (arith, cookie)),
        ap (others u.id) all
            ∙ revoke_where-others u.id (live_of u.id) rows (other_live-own u.id none),
        ap (live_sessions u.id) all
            ∙ revoke_where-live_sessions u.id (live_of u.id) rows (λ x own fresh. ground arith),
      )
