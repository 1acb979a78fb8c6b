-- ===== src/Access/Refreshes.antt =====
-- What the refresh of a session promises: `refresh_access_token` of
-- Backend/app/routes/auth_refresh.py, with the other requests that end sessions.
use apna_mandla.Prelude.{
  ℕ, ◌+◌, ◌≤◌, ◌≡◌, ◌≢◌, refl, String, true, false, some, List, ◌∷◌, arith, inl, inr, Bool-cases,
  ap, if◌then◌else◌,
}
use apna_mandla.Prelude.Text.{str_eq, eq_iff, eq_refl}
use apna_mandla.Table.{find_row, put_row, first-find_row, first-passes}
use apna_mandla.Access.{
  Server, returned, serve, Outside, TokenPair, Request, User, ActiveSession, user_ids, session_ids,
  revoked, refresh_access_token,
}
use apna_mandla.Access.Live.{
  with_token, live, put_row-with_token, live-le-with_token, put_row-live, first-live, one_if,
}
use apna_mandla.Access.Rotation.{Names, presented, new_session, rotated-Rows}
use apna_mandla.Access.Change.{no_other, Sound, NewToken, Dead}

-- Unrevoked sessions by token after one is revoked and one is added.
exchanged :
    (y raw : String) (x new : ActiveSession) (rows : List ActiveSession)
    → find_row session_ids x.id rows ≡ some x
    → x.is_revoked ≡ false
    → x.refresh_token ≡ raw
    → new.is_revoked ≡ false
    → with_token new.refresh_token rows ≡ 0
    → with_token y rows ≤ 1
    → live y (new ∷ put_row session_ids (revoked x) rows)
      ≡ (if str_eq new.refresh_token y then 1 else if str_eq raw y then 0 else live y rows)
unfolding live
exchanged y raw x new rows there fresh own unrevoked unused one =
    let before = put_row-live y x rows there fresh in
    let at_most = live-le-with_token y rows in
    let test = ap (λ t. str_eq t y) own in
    elim (Bool-cases (str_eq new.refresh_token y)) [
      | inl issued ↦ let none_yet = no_other new.refresh_token y rows issued unused in ground arith
      | inr other ↦ elim (Bool-cases (str_eq raw y)) [
        | inl old ↦ ground arith
        | inr third ↦ ground arith
      ]
    ]

module _ (out : Outside) (rq : Request) where
  -- What a refresh that returned has changed.
  pub record Exchange (raw : String) (u : ℕ) (p : TokenPair) (s s' : Server) : Type 0 where
    pub names : Names out rq s raw u
    pub account : User
    pub of : find_row user_ids u s.tables.users ≡ some account
    pub active : account.is_active ≡ true
    pub was_live : live raw s.tables.sessions ≡ 1
    pub ended : Dead raw s'.tables
    pub tokens :
        (x : String)
        → live x s'.tables.sessions ≡ (
            if str_eq p.refresh_token x
            then 1
            else if str_eq raw x
            then 0
            else live x s.tables.sessions)
    pub same_users : s'.tables.users ≡ s.tables.users

  -- Where the tables are sound (ids of sessions used once and below the next one, no two sessions
  -- with one refresh token) and the token that the call issues is new: a refresh that returns was
  -- of the only unrevoked session of the token presented, whose user is active; it has ended that
  -- session and opened one with the new token, and the unrevoked sessions of every other token,
  -- and the users, are the same.
  pub refresh_access_token_lem :
      (s : Server) (p : TokenPair) (s' : Server)
      → Sound s.tables
      → NewToken (serve (refresh_access_token out rq) s) s.tables
      → serve (refresh_access_token out rq) s ≡ returned p s'
      → (raw : String) × (u : ℕ) × Exchange raw u p s s'
  unfolding with_token live
  refresh_access_token_lem s p s' v new h =
      let r = rotated-Rows out rq s p s' h in
      let rows = s.tables.sessions in
      let passes = first-passes session_ids _ rows r.found in
      let there = first-find_row session_ids _ rows v.distinct r.found in
      let own : r.x.refresh_token ≡ r.raw =
        (eq_iff r.x.refresh_token r.raw).0 (ground (arith, passes)) in
      let fresh : r.x.is_revoked ≡ false = ground (arith, passes) in
      let kept = put_row session_ids (revoked r.x) rows in
      let before = λ (y : String).
        let counted : live y rows ≡ live y kept + one_if (str_eq r.raw y) =
          rw (← own) (put_row-live y r.x rows there fresh) in
        counted in
      let at_least = first-live r.raw r.u rows r.found in
      let at_most = live-le-with_token r.raw rows in
      let one = v.one_each r.raw in
      let itself = eq_refl r.raw in
      let unused = new p s' h in
      let differ : str_eq p.refresh_token r.raw ≡ false =
        elim (Bool-cases (str_eq p.refresh_token r.raw)) [
          | inr other ↦ other
          | inl same ↦
              absurd
                (omega (arith, no_other p.refresh_token r.raw rows same unused, at_least, at_most))
        ] in
      let sessions = ap (λ t. t.sessions) r.after in
      (
        r.raw,
        r.u,
        record {
          names = r.names;
          account = r.account;
          of = r.of;
          active = r.on;
          was_live = omega (arith, at_least, at_most, one);
          ended = record {
            issued =
                rw sessions
                  (ground (arith, put_row-with_token r.raw r.x rows there, at_least, at_most));
            ended =
                rw sessions (ground (arith, differ, before r.raw, at_least, at_most, one, itself));
          };
          tokens = λ y. rw sessions (
              exchanged y r.raw r.x (new_session out rq r.u p.refresh_token s.tables) rows there
                fresh own refl unused (v.one_each y));
          same_users = ground (arith, r.after);
        },
      )

  pub presented_ends :
      (raw : String) (s : Server) (p : TokenPair) (s' : Server)
      → presented rq ≡ some raw
      → Dead raw s.tables
      → serve (refresh_access_token out rq) s ≢ returned p s'
  presented_ends raw s p s' token dead h =
      let r = rotated-Rows out rq s p s' h in
      let same : r.raw ≡ raw = ground (arith, r.names.token, token) in
      let at_least = first-live r.raw r.u s.tables.sessions r.found in
      absurd (omega (arith, at_least, dead.ended, ap (λ x. live x s.tables.sessions) same))
