-- ===== src/Access/Endings.antt =====
-- Tokens that no longer work: the refresh, the logout and the reuse of a refresh token, with any
-- requests in between.
use apna_mandla.Prelude.{
  ℕ, ◌+◌, ◌≤◌, ◌≡◌, ◌≢◌, String, true, false, none, some, arith, ◌∙◌, inl, inr, Option-cases, first,
  ◌==◌, ==→eq,
}
use apna_mandla.Prelude.Text.{str_eq}
use apna_mandla.Session.{http_exception}
use apna_mandla.Table.{put_row, first-find_row, first-passes}
use apna_mandla.Access.{
  Server, returned, raised, serve, server, Outside, TokenPair, Request, AuthTables, ActiveSession,
  session_ids, revoked, revoke_where, live_with, truthy, subject, decode_refresh_token,
  refresh_access_token, refresh_source, reuse_detected, logout,
}
use apna_mandla.Access.Live.{
  with_token, put_row-live, put_row-with_token, live-le-with_token, first-live-none,
  live-first-none, live_sessions, others, revoke_where-others, revoke_where-live_sessions,
}
use apna_mandla.Access.Rotation.{presented}
use apna_mandla.Access.Revoking.{logout_tables}
use apna_mandla.Access.Change.{Sound, NewToken, Dead, Change-Sound}
use apna_mandla.Access.Requests.{refresh-Effect, logout-Effect}
use apna_mandla.Access.Steps.{Steps, Steps-Dead}
use apna_mandla.Access.Refreshes.{refresh_access_token_lem, presented_ends}

-- A session that the query found by its token, revoked: no unrevoked one is left.
found-Dead :
    (t : AuthTables) (raw : String) (x : ActiveSession)
    → Sound t
    → first (live_with raw) t.sessions ≡ some x
    → Dead raw (record t { sessions = put_row session_ids (revoked x) t.sessions })
found-Dead t raw x v found =
    let passes = first-passes session_ids _ t.sessions found in
    let there = first-find_row session_ids _ t.sessions v.distinct found in
    let fresh : x.is_revoked ≡ false = ground (arith, passes) in
    let own : str_eq x.refresh_token raw ≡ true = ground (arith, passes) in
    let before = put_row-live raw x t.sessions there fresh in
    let at_most = live-le-with_token raw t.sessions in
    let same = put_row-with_token raw x t.sessions there in
    let one = v.one_each raw in record { issued = ground arith; ended = ground arith }

module _ (out : Outside) where
  logout-Dead :
      (rq : Request) (raw : String) (s : Server)
      → Sound s.tables
      → truthy rq.am_refresh_token ≡ some raw
      → 1 ≤ with_token raw s.tables.sessions
      → Dead raw (server (serve (logout out rq) s)).tables
  logout-Dead rq raw s v cookie issued =
      elim (Option-cases (first (live_with raw) s.tables.sessions)) [
        | inl absent ↦
            let same : (server (serve (logout out rq) s)).tables ≡ s.tables =
              logout_tables out rq s ∙ ground arith in
            rw same
              (record { issued = issued; ended = first-live-none raw s.tables.sessions absent })
        | inr (x, found) ↦
            let after : (server (serve (logout out rq) s)).tables
                ≡ record s.tables { sessions = put_row session_ids (revoked x) s.tables.sessions } =
              logout_tables out rq s ∙ ground arith in
            rw after (found-Dead s.tables raw x v found)
      ]

  reuse_ends_all :
      (rq : Request) (raw : String) (u : ℕ) (s : Server)
      → Dead raw s.tables
      → truthy rq.am_refresh_token ≡ none
      → truthy rq.body_token ≡ some raw
      → subject out (decode_refresh_token out (out.clock s.ticks) raw) ≡ some u
      → (s' : Server) × (serve (refresh_access_token out rq) s ≡ raised (http_exception 401) s')
        × (live_sessions u s'.tables.sessions ≡ 0)
        × (others u s'.tables.sessions ≡ others u s.tables.sessions)
  unfolding serve refresh_access_token refresh_source reuse_detected
  reuse_ends_all rq raw u s dead no_cookie body user =
      let rows = s.tables.sessions in
      let test = λ (x : ActiveSession). x.user_id == u in
      (
        record s {
          tables = record s.tables { sessions = revoke_where test rows };
          ticks = s.ticks + 1;
        },
        ground (arith, live-first-none raw u rows dead.ended),
        revoke_where-live_sessions u test rows (λ x own fresh. ground arith),
        revoke_where-others u test rows (λ x own. ==→eq x.user_id u own),
      )

  -- From sound tables, after a logout with the cookie of a refresh token that was issued, and any
  -- requests whose refresh tokens are new, no refresh by that token returns.
  pub logout_for_good :
      (rq again : Request) (raw : String) (s s2 s3 : Server) (q : TokenPair)
      → Sound s.tables
      → truthy rq.am_refresh_token ≡ some raw
      → 1 ≤ with_token raw s.tables.sessions
      → Steps out (server (serve (logout out rq) s)) s2
      → presented again ≡ some raw
      → serve (refresh_access_token out again) s2 ≢ returned q s3
  logout_for_good rq again raw s s2 s3 q v cookie issued steps shown =
      presented_ends out again raw s2 q s3 shown (
        Steps-Dead out raw (Change-Sound v (logout-Effect out rq s v).sessions)
          (logout-Dead rq raw s v cookie issued) steps)

  module _ (rq : Request) (raw : String) (s : Server) (p : TokenPair) (s1 s2 : Server)
      (v : Sound s.tables) (new : NewToken (serve (refresh_access_token out rq) s) s.tables)
      (shown : presented rq ≡ some raw)
      (done : serve (refresh_access_token out rq) s ≡ returned p s1) (steps : Steps out s1 s2) where
    still_dead : Dead raw s2.tables
    still_dead =
        let (t, u, w) = refresh_access_token_lem out rq s p s1 v new done in
        let same : t ≡ raw = ground (arith, w.names.token, shown) in
        let after : s1.tables ≡ (server (serve (refresh_access_token out rq) s)).tables =
          ground (arith, done) in
        let sound : Sound s1.tables =
          rw after (Change-Sound v (refresh-Effect out rq s v new).sessions) in
        Steps-Dead out raw sound (rw (← same) w.ended) steps

    -- From sound tables, after a refresh that returned with a new token, whatever requests come in
    -- between and however they end, no refresh by the old token returns, if the refresh tokens
    -- that the requests issue are new.
    pub refresh_once :
        (again : Request) (q : TokenPair) (s3 : Server)
        → presented again ≡ some raw
        → serve (refresh_access_token out again) s2 ≢ returned q s3
    refresh_once again q s3 token = presented_ends out again raw s2 q s3 token still_dead

    -- From sound tables, after a refresh that returned with a new token and any requests whose
    -- refresh tokens are new, the old token presented again in a body, while it still decodes to a
    -- user, is answered 401 and ends every session of that user; the sessions of other users are
    -- the same.
    pub refresh_replayed :
        (again : Request) (u : ℕ)
        → truthy again.am_refresh_token ≡ none
        → truthy again.body_token ≡ some raw
        → subject out (decode_refresh_token out (out.clock s2.ticks) raw) ≡ some u
        → (s3 : Server) × (serve (refresh_access_token out again) s2
            ≡ raised (http_exception 401) s3)
          × (live_sessions u s3.tables.sessions ≡ 0)
          × (others u s3.tables.sessions ≡ others u s2.tables.sessions)
    refresh_replayed again u no_cookie body user =
        reuse_ends_all again raw u s2 still_dead no_cookie body user
