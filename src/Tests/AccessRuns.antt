-- ===== src/Tests/AccessRuns.antt =====
-- The theorems on sessions and codes, at the run.
use apna_mandla.Prelude.{
  sym, ◌∙◌, ℕ, ◌≤◌, ◌<◌, ◌≡◌, ◌≢◌, refl, String, Bool, true, false, Option, none, some, List, [],
  ◌∷◌, arith, inr, ap, if◌then◌else◌, option_map,
}
use apna_mandla.Prelude.Text.{str_eq}
use apna_mandla.Session.{http_exception}
use apna_mandla.Table.{Distinct}
use apna_mandla.Access.{
  Server, Conn, TokenPair, Otp, returned, raised, serve, server, otp_ids, subject,
  decode_refresh_token, refresh_access_token, get_current_user, access_claims, refresh_claims,
  revoke_session, revoke_other_sessions, logout_all_devices, closed, guarded, require_business_user,
  require_admin, require_super_admin,
}
use apna_mandla.Access.Refreshes.{Exchange, refresh_access_token_lem}
use apna_mandla.Access.Endings.{refresh_once, refresh_replayed, logout_for_good}
use apna_mandla.Access.Isolation.{own_sessions_only}
use apna_mandla.Access.Verification.{code_for}
use apna_mandla.Access.CodeLimits.{Few, by_login, by_phone, guesses, guesses-Few, verify_otp_once}
use apna_mandla.Access.Admission.{Business, name_of, check_of, roles_apart}
use apna_mandla.Access.Kinds.{Decodes, kinds_apart}
use apna_mandla.Access.Quiet.{conn, start}
use apna_mandla.Access.Live.{with_token, live, live_sessions, others}
use apna_mandla.Access.Revoking.{Caller}
use apna_mandla.Access.Change.{Sound, NewToken}
use apna_mandla.Access.Steps.{Steps, no_step, then_step, verifying, verifying_login, Steps-Sound}
use apna_mandla.Tests.AccessCalls.{
  test_out, at_first, pair_of, login, logged_in, app, browser, renewal, renewed, guessed,
  logged_out, customer, stolen,
}

abbrev after_call : Conn
after_call = conn (get_current_user test_out (some "access-7-2") (start logged_in))

pub record AccessRuns : Type 0 where
  pub login_ok : login ≡ returned (pair_of login) logged_in
  pub renewal_ok : renewal ≡ returned (pair_of renewal) renewed
  pub unused : with_token (pair_of renewal).refresh_token logged_in.tables.sessions ≡ 0
  pub held : with_token "refresh-7-4" logged_in.tables.sessions ≡ 1
  pub decoded :
      subject test_out (decode_refresh_token test_out (test_out.clock guessed.ticks) "refresh-7-4")
      ≡ some 7
  pub caller : Caller test_out browser logged_in customer
  pub business_ok :
      serve (guarded test_out require_business_user browser) logged_in
      ≡ returned customer (closed after_call)
  pub access_token :
      test_out.jwt_encode (access_claims test_out "7" false "2" 1_000_000) ≡ "access-7-2"
  pub access_decodes : Decodes test_out (access_claims test_out "7" false "2" 1_000_000)
  pub refresh_token :
      test_out.jwt_encode (refresh_claims test_out "7" "4" 3_000_000) ≡ "refresh-7-4"
  pub refresh_decodes : Decodes test_out (refresh_claims test_out "7" "4" 3_000_000)

runs : AccessRuns
unfolding apna_mandla.Prelude.Text.f_string apna_mandla.Prelude.Text.str apna_mandla.Table.find_row
    apna_mandla.Table.put_row apna_mandla.Access.revoke_where apna_mandla.Access.serve
    apna_mandla.Access.access_claims apna_mandla.Access.refresh_claims
    apna_mandla.Access.create_access_token apna_mandla.Access.create_refresh_token
    apna_mandla.Access.create_token_pair apna_mandla.Access.decode_access_token
    apna_mandla.Access.decode_refresh_token apna_mandla.Access.subject
    apna_mandla.Access.verify_otp_hash apna_mandla.Access.require_csrf_token
    apna_mandla.Access.revoke apna_mandla.Access.update_where apna_mandla.Access.add_session
    apna_mandla.Access.refresh_source apna_mandla.Access.reuse_detected apna_mandla.Access.issue
    apna_mandla.Access.refuse apna_mandla.Access.rotate apna_mandla.Access.refresh_access_token
    apna_mandla.Access.newest apna_mandla.Access.save_otp apna_mandla.Access.save_user
    apna_mandla.Access.wrong_code apna_mandla.Access.open_session apna_mandla.Access.accept_code
    apna_mandla.Access.verify_otp apna_mandla.Access.verify_login_otp
    apna_mandla.Access.Live.with_token apna_mandla.Access.get_current_user
    apna_mandla.Access.claims_revoked apna_mandla.Access.guarded apna_mandla.Access.role_of
    apna_mandla.Access.lower apna_mandla.Access.shift_case apna_mandla.Access.one_of
    apna_mandla.Access.allow apna_mandla.Access.require_business_user
    apna_mandla.Stores.Dict.dict_get apna_mandla.Stores.is_access_token_revoked
    apna_mandla.Stores.is_jti_revoked apna_mandla.Stores.get_revoke_before
    apna_mandla.Stores.issued_before
runs = record {
  login_ok = refl;
  renewal_ok = refl;
  unused = refl;
  held = refl;
  decoded = refl;
  caller = record { conn_after = after_call; is = refl };
  business_ok = refl;
  access_token = refl;
  access_decodes = λ now. inr refl;
  refresh_token = refl;
  refresh_decodes = λ now. inr refl;
}

at_first-Sound : Sound at_first.tables
unfolding apna_mandla.Table.Distinct apna_mandla.Table.Below apna_mandla.Access.Live.with_token
at_first-Sound = record { distinct = tt; below = tt; one_each = λ x. omega arith }

first_token : NewToken login at_first.tables
unfolding apna_mandla.Access.Live.with_token
first_token = λ p s' e. refl

to_login : Steps test_out at_first logged_in
to_login = then_step no_step (verifying "98" "123456" "login" at_first first_token)

logged_in-Sound : Sound logged_in.tables
logged_in-Sound = Steps-Sound test_out at_first-Sound to_login

next_token : NewToken renewal logged_in.tables
next_token p s' e =
    ap (λ t. with_token t logged_in.tables.sessions) (ap (λ o. (pair_of o).refresh_token) (sym e))
    ∙ runs.unused

refresh_access_token_lem_example :
    (raw : String) × (u : ℕ) × Exchange test_out app raw u (pair_of renewal) logged_in renewed
refresh_access_token_lem_example =
    refresh_access_token_lem test_out app logged_in (pair_of renewal) renewed logged_in-Sound
      next_token runs.renewal_ok

a_guess : Steps test_out renewed guessed
a_guess = then_step no_step (verifying_login "98" "000000" renewed)

refresh_once_example :
    serve (refresh_access_token test_out browser) guessed ≢ returned (pair_of renewal) renewed
refresh_once_example =
    refresh_once test_out app "refresh-7-4" logged_in (pair_of renewal) renewed guessed
      logged_in-Sound next_token refl runs.renewal_ok a_guess browser (pair_of renewal) renewed refl

refresh_replayed_example :
    (s3 : Server) × (serve (refresh_access_token test_out app) guessed
      ≡ raised (http_exception 401) s3)
    × (live_sessions 7 s3.tables.sessions ≡ 0)
    × (others 7 s3.tables.sessions ≡ others 7 guessed.tables.sessions)
refresh_replayed_example =
    refresh_replayed test_out app "refresh-7-4" logged_in (pair_of renewal) renewed guessed
      logged_in-Sound next_token refl runs.renewal_ok a_guess app 7 refl refl runs.decoded

logout_for_good_example :
    serve (refresh_access_token test_out app) logged_out ≢ returned (pair_of renewal) renewed
logout_for_good_example =
    logout_for_good test_out browser app "refresh-7-4" logged_in logged_out renewed
      (pair_of renewal) logged_in-Sound refl (omega (arith, runs.held)) no_step refl

own_sessions_only_example :
    (others 7 (server (serve (revoke_session test_out browser 1) logged_in)).tables.sessions
      ≡ others 7 logged_in.tables.sessions)
    × (others 7 (server (serve (revoke_other_sessions test_out browser) logged_in)).tables.sessions
        ≡ others 7 logged_in.tables.sessions)
    × (live "refresh-7-4"
          (server (serve (revoke_other_sessions test_out browser) logged_in)).tables.sessions
        ≡ live "refresh-7-4" logged_in.tables.sessions)
    × (others 7 (server (serve (logout_all_devices test_out browser) logged_in)).tables.sessions
        ≡ others 7 logged_in.tables.sessions)
    × (live_sessions 7
          (server (serve (logout_all_devices test_out browser) logged_in)).tables.sessions
        ≡ 0)
own_sessions_only_example =
    own_sessions_only test_out browser logged_in customer runs.caller logged_in-Sound 1
      "refresh-7-4" refl

at_first-Distinct : Distinct otp_ids at_first.tables.otps
unfolding apna_mandla.Table.Distinct apna_mandla.Table.find_row
at_first-Distinct = (refl, (refl, tt))

verify_otp_once_example :
    (o : Otp) × (code_for "98" "login" (test_out.clock at_first.ticks) at_first.tables ≡ some o)
    × (test_out.compare_digest (test_out.sha256 "123456") o.otp_hash ≡ some true)
    × (o.attempt_count < 5)
    × (option_map otp_ids (code_for "98" "signup" 0 logged_in.tables) ≢ some o.id)
verify_otp_once_example =
    verify_otp_once test_out "98" "123456" "login" at_first (pair_of login) logged_in logged_in
      at_first-Sound at_first-Distinct first_token runs.login_ok no_step "98" "signup" 0

guesses-Few_example :
    Few (guesses test_out (by_login "98" "1" ∷ by_phone "98" "2" "login" ∷ []) at_first).tables.otps
guesses-Few_example =
    guesses-Few test_out (by_login "98" "1" ∷ by_phone "98" "2" "login" ∷ []) at_first (omega arith)

kinds_apart_example :
    ((s' : Server) × (serve (refresh_access_token test_out stolen) at_first
        ≡ raised (http_exception 401) s')
      × (s'.tables ≡ at_first.tables))
    × (s' : Server) × (serve
          (get_current_user test_out
            (some (test_out.jwt_encode (refresh_claims test_out "7" "4" 3_000_000))))
          at_first
        ≡ raised (http_exception 401) s')
    × (s'.tables ≡ at_first.tables)
kinds_apart_example =
    kinds_apart test_out "7" "2" "4" false 1_000_000 3_000_000 runs.access_decodes
      runs.refresh_decodes stolen at_first refl (ap some (sym runs.access_token))

roles_apart_example :
    (customer.is_active ≡ true)
    × ((closed after_call).tables ≡ logged_in.tables)
    × (serve (guarded test_out require_admin browser) logged_in
        ≡ raised (http_exception 403) (closed after_call))
    × (serve (guarded test_out require_super_admin browser) logged_in
        ≡ raised (http_exception 403) (closed after_call))
    × (b : Business) × ((other : Business)
        → serve (guarded test_out (check_of other) browser) logged_in ≡ (
            if str_eq (name_of b) (name_of other)
            then returned customer (closed after_call)
            else raised (http_exception 403) (closed after_call)))
roles_apart_example =
    roles_apart test_out browser logged_in customer (closed after_call) runs.business_ok
