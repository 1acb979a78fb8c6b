-- ===== src/Access/Requests.antt =====
-- Each request as a change of sessions and codes.
use apna_mandla.Prelude.{
  ℕ, refl, String, true, false, ◌&&◌, arith, ◌∙◌, inl, inr, Option-cases, first, ◌==◌, ap,
}
use apna_mandla.Table.{first-passes}
use apna_mandla.Access.{
  Server, Outcome, serve, server, Outside, TokenPair, Request, User, M, ◌>>=◌, session_ids, live_of,
  live_with, other_live, truthy, refresh_access_token, logout, logout_all_devices, revoke_session,
  revoke_other_sessions, verify_otp, verify_login_otp, reset_password, wrong_code, save_otp,
  verify_otp_hash, get_current_user,
}
use apna_mandla.Access.CodeRows.{none_written, one_written, newest-find_row, newest-passes}
use apna_mandla.Access.{Otp, phone_is, open_for, used_up}
use apna_mandla.Access.Live.{Revokes-refl, revoke_where-Revokes}
use apna_mandla.Access.Quiet.{start, Outcome-cases, serve_failed}
use apna_mandla.Access.Rotation.{
  Refreshed, turned_away, reused, inactive, rotated, refresh_access_token-Refreshed,
}
use apna_mandla.Access.Revoking.{
  Caller, its_own, get_current_user-Quiet, logout_tables, logout_all_devices_tables,
  revoke_other_sessions_tables, revoke_session_tables,
}
use apna_mandla.Access.Verification.{
  code_for, Verified, not_verified, verified, verify_otp-Verified, verify_login_otp-Counted,
}
use apna_mandla.Access.Change.{
  Sound, NewToken, one_added, Effect, miss-Effect, found-Revokes, same-Effect, rows-Effect,
  Counted-Effect,
}

module _ (out : Outside) where
  pub refresh-Effect :
      (rq : Request) (s : Server)
      → Sound s.tables
      → NewToken (serve (refresh_access_token out rq) s) s.tables
      → Effect s.tables (server (serve (refresh_access_token out rq) s)).tables
  refresh-Effect rq s v new =
      go (serve (refresh_access_token out rq) s) (refresh_access_token-Refreshed out rq s) new
    where
      go :
          (o : Outcome Server TokenPair)
          → Refreshed out rq s o
          → NewToken o s.tables
          → Effect s.tables (server o).tables
      go _ (turned_away e s' h) new = same-Effect h
      go _ (reused raw u s' names absent h) new =
          rows-Effect
            (revoke_where-Revokes s.tables.next_session_id (λ x. x.user_id == u) s.tables.sessions)
            h
      go _ (inactive raw u x s' names found h) new =
          rows-Effect
            (found-Revokes s.tables _ x v found
              (ground (arith, first-passes session_ids _ s.tables.sessions found)))
            h
      go _ (rotated raw u x a p s' names found account on h) new = record {
        sessions =
            one_added _ _
              (found-Revokes s.tables _ x v found
                (ground (arith, first-passes session_ids _ s.tables.sessions found)))
              refl (new p s' refl) (ap (λ t. t.sessions) h) (ap (λ t. t.next_session_id) h);
        codes = none_written (ap (λ t. t.otps) h);
      }

  pub verify-Effect :
      (phone otp purpose : String) (s : Server)
      → NewToken (serve (verify_otp out phone otp purpose) s) s.tables
      → Effect s.tables (server (serve (verify_otp out phone otp purpose) s)).tables
  verify-Effect phone otp purpose s new =
      go (serve (verify_otp out phone otp purpose) s) (verify_otp-Verified out phone otp purpose s)
        new
    where
      go :
          (o : Outcome Server TokenPair)
          → Verified out phone otp purpose s o
          → NewToken o s.tables
          → Effect s.tables (server o).tables
      go _ (not_verified e s' c) new = Counted-Effect c
      go _ (verified o u p s' found few right account h) new =
          let test = λ (x : Otp). phone_is phone x && open_for purpose (out.clock s.ticks) x in
          let passes = newest-passes test s.tables.otps found in
          record {
            sessions =
                one_added s.tables.sessions _ (Revokes-refl _ s.tables.sessions) refl
                  (new p s' refl) (ap (λ t. t.sessions) h) (ap (λ t. t.next_session_id) h);
            codes =
                one_written o (used_up o) (λ dis. newest-find_row test s.tables.otps dis found)
                  (ground (arith, passes)) refl (ap (λ t. t.otps) h);
          }

  pub logout-Effect :
      (rq : Request) (s : Server)
      → Sound s.tables
      → Effect s.tables (server (serve (logout out rq) s)).tables
  logout-Effect rq s v = elim (Option-cases (truthy rq.am_refresh_token)) [
    | inl no_cookie ↦ same-Effect (logout_tables out rq s ∙ ground arith)
    | inr (token, cookie) ↦ elim (Option-cases (first (live_with token) s.tables.sessions)) [
      | inl absent ↦ same-Effect (logout_tables out rq s ∙ ground arith)
      | inr (x, found) ↦
          rows-Effect
            (found-Revokes s.tables (live_with token) x v found
              (ground (arith, first-passes session_ids (live_with token) s.tables.sessions found)))
            (logout_tables out rq s ∙ ground arith)
    ]
  ]

  -- A request that names no user changes no table; the others are as their lemmas say.
  named-Effect :
      {A : Type 0} (rq : Request) (s : Server) (f : User → M A)
      → ((u : User)
          → Caller out rq s u
          → Effect s.tables (server (serve (get_current_user out rq.bearer >>= f) s)).tables)
      → Effect s.tables (server (serve (get_current_user out rq.bearer >>= f) s)).tables
  named-Effect rq s f known = elim (Outcome-cases (get_current_user out rq.bearer (start s))) [
    | inl (e, c, h) ↦ same-Effect (
        serve_failed (get_current_user out rq.bearer) f s e c h
          (get_current_user-Quiet out rq.bearer))
    | inr (u, c, h) ↦ known u (record { conn_after = c; is = h })
  ]

  pub logout_all-Effect :
      (rq : Request) (s : Server)
      → Effect s.tables (server (serve (logout_all_devices out rq) s)).tables
  unfolding logout_all_devices
  logout_all-Effect rq s = named-Effect rq s _ λ u who.
      rows-Effect (revoke_where-Revokes s.tables.next_session_id (live_of u.id) s.tables.sessions)
        (logout_all_devices_tables out rq s u who)

  pub revoke_others-Effect :
      (rq : Request) (s : Server)
      → Effect s.tables (server (serve (revoke_other_sessions out rq) s)).tables
  unfolding revoke_other_sessions
  revoke_others-Effect rq s = named-Effect rq s _ λ u who.
      rows-Effect
        (revoke_where-Revokes s.tables.next_session_id
          (other_live u.id (truthy rq.am_refresh_token)) s.tables.sessions)
        (revoke_other_sessions_tables out rq s u who)

  pub revoke_session-Effect :
      (rq : Request) (i : ℕ) (s : Server)
      → Sound s.tables
      → Effect s.tables (server (serve (revoke_session out rq i) s)).tables
  unfolding revoke_session
  revoke_session-Effect rq i s v = named-Effect rq s _ λ u who.
      elim (Option-cases (its_own i u.id s.tables)) [
        | inl absent ↦ same-Effect (revoke_session_tables out rq s u who i ∙ ground arith)
        | inr (x, found) ↦
            rows-Effect
              (found-Revokes s.tables _ x v found
                (ground (arith, first-passes session_ids _ s.tables.sessions found)))
              (revoke_session_tables out rq s u who i ∙ ground arith)
      ]

  pub verify_login-Effect :
      (phone otp : String) (s : Server)
      → Effect s.tables (server (serve (verify_login_otp out phone otp) s)).tables
  verify_login-Effect phone otp s =
      let (e, s', eq, c) = verify_login_otp-Counted out phone otp s in rw eq (Counted-Effect c)

  pub reset-Effect :
      (phone otp : String) (s : Server)
      → Effect s.tables (server (serve (reset_password out phone otp) s)).tables
  unfolding serve reset_password wrong_code save_otp verify_otp_hash
  reset-Effect phone otp s =
      elim (Option-cases (code_for phone "password-reset" (out.clock s.ticks) s.tables)) [
        | inl absent ↦ same-Effect (ground arith)
        | inr (o, found) ↦ elim (Option-cases (out.compare_digest (out.sha256 otp) o.otp_hash)) [
          | inl failed ↦ same-Effect (ground arith)
          | inr (true, right) ↦ same-Effect (ground arith)
          | inr (false, wrong) ↦ miss-Effect _ o found (λ x hit. ground arith) (ground arith)
        ]
      ]
