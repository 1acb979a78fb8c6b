-- ===== src/Access/Rotation.antt =====
-- How a refresh ends: `refresh_access_token` of Backend/app/routes/auth_refresh.py.
use apna_mandla.Prelude.{
  ℕ, ◌+◌, ◌≡◌, refl, String, true, false, ◌&&◌, Option, none, some, List, ◌∷◌, arith, inl, inr,
  ◌==◌, Option-cases, Bool-cases, first, sym, subst,
}
use apna_mandla.Session.{Error, http_exception}
use apna_mandla.Table.{find_row, put_row}
use apna_mandla.Access.{
  Server, Conn, Outcome, returned, raised, serve, Outside, TokenPair, Request, AuthTables, User,
  ActiveSession, user_ids, session_ids, revoked, revoke_where, revoke, add_session, truthy,
  require_csrf_token, refresh_source, reuse_detected, issue, refuse, rotate, refresh_access_token,
  live_with, subject, decode_refresh_token, create_token_pair, create_access_token,
  create_refresh_token,
}
use apna_mandla.Access.Quiet.{conn, start, Outcome-cases}

-- The token of a request, from its cookie or else its body.
abbrev pub presented : Request → Option String
presented rq = elim (truthy rq.am_refresh_token) [ some t ↦ some t | none ↦ truthy rq.body_token ]

module _ (out : Outside) (rq : Request) where
  source_conn : (c : Conn) → conn (refresh_source out rq c) ≡ c
  unfolding refresh_source require_csrf_token
  source_conn c = ground arith

  source_presented :
      (c : Conn) {t : String} {c' : Conn}
      → refresh_source out rq c ≡ returned t c'
      → presented rq ≡ some t
  unfolding refresh_source require_csrf_token
  source_presented c h = ground arith

  abbrev pub its_session : String → ℕ → AuthTables → Option ActiveSession
  its_session raw u t = first (λ x. live_with raw x && x.user_id == u) t.sessions

  -- The token is one of the user `u`.
  pub record Names (s : Server) (raw : String) (u : ℕ) : Type 0 where
    pub token : presented rq ≡ some raw
    pub user : subject out (decode_refresh_token out (out.clock s.ticks) raw) ≡ some u

  abbrev pub ended_sessions : ActiveSession → List ActiveSession → List ActiveSession
  ended_sessions x = put_row session_ids (revoked x)

  abbrev pub new_session : ℕ → String → AuthTables → ActiveSession
  new_session u token t = record {
    id = t.next_session_id;
    user_id = u;
    refresh_token = token;
    is_revoked = false;
  }

  pub data Refreshed (s : Server) : Outcome Server TokenPair → Type 0 where
    turned_away : (e : Error) (s' : Server) → s'.tables ≡ s.tables → Refreshed s (raised e s')
    reused :
        (raw : String) (u : ℕ) (s' : Server)
        → Names s raw u
        → its_session raw u s.tables ≡ none
        → s'.tables
          ≡ record s.tables { sessions = revoke_where (λ x. x.user_id == u) s.tables.sessions }
        → Refreshed s (raised (http_exception 401) s')
    inactive :
        (raw : String) (u : ℕ) (x : ActiveSession) (s' : Server)
        → Names s raw u
        → its_session raw u s.tables ≡ some x
        → s'.tables ≡ record s.tables { sessions = ended_sessions x s.tables.sessions }
        → Refreshed s (raised (http_exception 401) s')
    rotated :
        (raw : String) (u : ℕ) (x : ActiveSession) (account : User) (p : TokenPair) (s' : Server)
        → Names s raw u
        → its_session raw u s.tables ≡ some x
        → find_row user_ids u s.tables.users ≡ some account
        → account.is_active ≡ true
        → s'.tables ≡ record s.tables {
          sessions = new_session u p.refresh_token s.tables ∷ ended_sessions x s.tables.sessions;
          next_session_id = s.tables.next_session_id + 1;
        }
        → Refreshed s (returned p s')

  abbrev refreshing : Server → Outcome Server TokenPair
  refreshing s = serve (refresh_access_token out rq) s

  pub refresh_access_token-Refreshed :
      (s : Server) → Refreshed s (serve (refresh_access_token out rq) s)
  unfolding serve refresh_access_token rotate issue refuse reuse_detected revoke add_session
      create_token_pair create_access_token create_refresh_token
  refresh_access_token-Refreshed s = elim (Outcome-cases (refresh_source out rq (start s))) [
    | inl (e, c, h) ↦
        let same : c ≡ start s = ground (arith, source_conn (start s), h) in
        let eq : refreshing s ≡ raised e s = ground (arith, same) in
        subst (Refreshed s) (sym eq) (turned_away e s refl)
    | inr (raw, c, h) ↦
        let same : c ≡ start s = ground (arith, source_conn (start s), h) in
        let token = source_presented (start s) h in
        elim (Option-cases (subject out (decode_refresh_token out (out.clock s.ticks) raw))) [
          | inl nobody ↦
              let late : Server = record s { ticks = s.ticks + 1 } in
              let eq : refreshing s ≡ raised (http_exception 401) late = ground (arith, same) in
              subst (Refreshed s) (sym eq) (turned_away _ late refl)
          | inr (u, user) ↦
              let names : Names s raw u = record { token = token; user = user } in
              elim (Option-cases (its_session raw u s.tables)) [
                | inl none_live ↦
                    let after : Server = record s {
                      tables = record s.tables {
                        sessions = revoke_where (λ x. x.user_id == u) s.tables.sessions;
                      };
                      ticks = s.ticks + 1;
                    } in
                    let eq : refreshing s ≡ raised (http_exception 401) after =
                      ground (arith, same) in
                    subst (Refreshed s) (sym eq) (reused raw u after names none_live refl)
                | inr (x, found) ↦
                    let ending : Server = record s {
                      tables = record s.tables { sessions = ended_sessions x s.tables.sessions };
                      ticks = s.ticks + 1;
                    } in
                    elim (Option-cases (find_row user_ids u s.tables.users)) [
                      | inl absent ↦
                          let eq : refreshing s ≡ raised (http_exception 401) ending =
                            ground (arith, same) in
                          subst (Refreshed s) (sym eq) (inactive raw u x ending names found refl)
                      | inr (a, account) ↦ elim (Bool-cases a.is_active) [
                        | inr off ↦
                            let eq : refreshing s ≡ raised (http_exception 401) ending =
                              ground (arith, same) in
                            subst (Refreshed s) (sym eq) (inactive raw u x ending names found refl)
                        | inl on ↦ elim (Outcome-cases (refreshing s)) [
                          | inl (e, s', failed) ↦ absurd (ground (arith, same))
                          | inr (p, s', eq) ↦
                              subst (Refreshed s) (sym eq) (
                                rotated raw u x a p s' names found account on
                                  (ground (arith, same)))
                        ]
                      ]
                    ]
              ]
        ]
  ]

  -- The row that a refresh that returned has found, and the table after it.
  pub record Rows (s : Server) (p : TokenPair) (s' : Server) : Type 0 where
    pub raw : String
    pub u : ℕ
    pub x : ActiveSession
    pub account : User
    pub names : Names s raw u
    pub found : its_session raw u s.tables ≡ some x
    pub of : find_row user_ids u s.tables.users ≡ some account
    pub on : account.is_active ≡ true
    pub after : s'.tables ≡ record s.tables {
      sessions = new_session u p.refresh_token s.tables ∷ ended_sessions x s.tables.sessions;
      next_session_id = s.tables.next_session_id + 1;
    }

  pub rotated-Rows :
      (s : Server) (p : TokenPair) (s' : Server)
      → serve (refresh_access_token out rq) s ≡ returned p s'
      → Rows s p s'
  rotated-Rows s p s' h =
      go (serve (refresh_access_token out rq) s) (refresh_access_token-Refreshed s) h
    where
      go : (o : Outcome Server TokenPair) → Refreshed s o → o ≡ returned p s' → Rows s p s'
      go _ (turned_away e t same) h = absurd (cc h)
      go _ (reused raw u t names none_live same) h = absurd (cc h)
      go _ (inactive raw u x t names found same) h = absurd (cc h)
      go _ (rotated raw u x a q t names found account active after) h = record {
        raw = raw;
        u = u;
        x = x;
        account = a;
        names = names;
        found = found;
        of = account;
        on = active;
        after = ground (arith, h, after);
      }
