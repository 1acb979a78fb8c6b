-- ===== src/Access/Steps.antt =====
-- Requests one after the other: what no sequence of them does to the table of sessions.
use apna_mandla.Prelude.{ℕ, String}
use apna_mandla.Access.{
  Server, serve, server, Outside, Request, refresh_access_token, logout, logout_all_devices,
  revoke_session, revoke_other_sessions, verify_otp, verify_login_otp, reset_password,
}
use apna_mandla.Access.CodeRows.{Spent, OtpChange-Spent}
use apna_mandla.Access.Change.{Sound, NewToken, Effect, Change-Sound, Change-Dead, Dead}
use apna_mandla.Access.Requests.{
  refresh-Effect, verify-Effect, logout-Effect, logout_all-Effect, revoke_others-Effect,
  revoke_session-Effect, verify_login-Effect, reset-Effect,
}

module _ (out : Outside) where
  -- One request, however it ends.
  pub data Step : Server → Server → Type 0 where
    refreshing :
        (rq : Request) (s : Server)
        → NewToken (serve (refresh_access_token out rq) s) s.tables
        → Step s (server (serve (refresh_access_token out rq) s))
    verifying :
        (phone otp purpose : String) (s : Server)
        → NewToken (serve (verify_otp out phone otp purpose) s) s.tables
        → Step s (server (serve (verify_otp out phone otp purpose) s))
    verifying_login :
        (phone otp : String) (s : Server)
        → Step s (server (serve (verify_login_otp out phone otp) s))
    resetting :
        (phone otp : String) (s : Server) → Step s (server (serve (reset_password out phone otp) s))
    logging_out : (rq : Request) (s : Server) → Step s (server (serve (logout out rq) s))
    logging_out_all :
        (rq : Request) (s : Server) → Step s (server (serve (logout_all_devices out rq) s))
    revoking :
        (rq : Request) (i : ℕ) (s : Server) → Step s (server (serve (revoke_session out rq i) s))
    revoking_others :
        (rq : Request) (s : Server) → Step s (server (serve (revoke_other_sessions out rq) s))

  pub data Steps (start : Server) : Server → Type 0 where
    no_step : Steps start start
    then_step : {s s' : Server} → Steps start s → Step s s' → Steps start s'

  Step-Effect : {s s' : Server} → Sound s.tables → Step s s' → Effect s.tables s'.tables
  Step-Effect v (refreshing rq s new) = refresh-Effect out rq s v new
  Step-Effect v (verifying phone otp purpose s new) = verify-Effect out phone otp purpose s new
  Step-Effect v (verifying_login phone otp s) = verify_login-Effect out phone otp s
  Step-Effect v (resetting phone otp s) = reset-Effect out phone otp s
  Step-Effect v (logging_out rq s) = logout-Effect out rq s v
  Step-Effect v (logging_out_all rq s) = logout_all-Effect out rq s
  Step-Effect v (revoking rq i s) = revoke_session-Effect out rq i s v
  Step-Effect v (revoking_others rq s) = revoke_others-Effect out rq s

  -- From sound tables, every sequence of requests (refreshes, checks of codes over both paths,
  -- password resets, logouts and the ending of sessions), however they end, leads to sound tables,
  -- if the refresh tokens that they issue are new: ids of sessions are used once and are below the
  -- next one, and no two sessions have one refresh token.
  pub Steps-Sound : {start s : Server} → Sound start.tables → Steps start s → Sound s.tables
  Steps-Sound v no_step = v
  Steps-Sound v (then_step r c) =
      let before = Steps-Sound v r in Change-Sound before (Step-Effect before c).sessions

  pub Steps-Dead :
      {start s : Server} (x : String)
      → Sound start.tables
      → Dead x start.tables
      → Steps start s
      → Dead x s.tables
  Steps-Dead x v w no_step = w
  Steps-Dead x v w (then_step r c) =
      Change-Dead x (Steps-Dead x v w r) (Step-Effect (Steps-Sound v r) c).sessions

  pub Steps-Spent :
      {start s : Server} (i : ℕ)
      → Sound start.tables
      → Spent i start.tables
      → Steps start s
      → Spent i s.tables
  Steps-Spent i v w no_step = w
  Steps-Spent i v w (then_step r c) =
      OtpChange-Spent i (Steps-Spent i v w r) (Step-Effect (Steps-Sound v r) c).codes
