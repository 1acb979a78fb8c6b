-- ===== src/Access/Verification.antt =====
-- How the check of a one-time code ends: `verify_otp` of Backend/app/routes/auth_verify.py and
-- `verify_login_otp` of Backend/app/routes/auth_otp.py.
use apna_mandla.Prelude.{
  ℕ, ◌+◌, ◌<◌, ◌≡◌, String, Bool, true, false, not, ◌&&◌, ◌||◌, Option, some, List, ◌∷◌, arith,
  if◌then◌else◌, inl, inr, Option-cases, Bool-cases, first, sym, subst, keep_if, leb,
}
use apna_mandla.Prelude.Text.{str_eq}
use apna_mandla.Session.{Error}
use apna_mandla.Table.{put_row}
use apna_mandla.Access.{
  Server, Outcome, returned, raised, serve, Outside, TokenPair, AuthTables, User, Otp, user_ids,
  otp_ids, newest, phone_is, of_user, open_for, used_up, missed, save_otp, save_user, wrong_code,
  open_session, accept_code, verify_otp, verify_otp_hash, verify_login_otp, create_token_pair,
  create_access_token, create_refresh_token, add_session,
}
use apna_mandla.Access.Quiet.{Outcome-cases}

-- The code that a call looks at.
abbrev pub code_for : String → String → ℕ → AuthTables → Option Otp
code_for phone purpose time t =
    newest (keep_if (λ o. phone_is phone o && open_for purpose time o) t.otps)

-- A user whose code was right; a signup makes the user active.
abbrev pub users_after : String → User → AuthTables → List User
users_after purpose u t =
    if str_eq purpose "signup"
    then put_row user_ids (record u { is_active = true }) t.users
    else t.users

pub data Counted (t t' : AuthTables) : Type 0 where
  unchanged : t' ≡ t → Counted t t'
  one_miss :
      (p : Otp → Bool) (o : Otp)
      → newest (keep_if p t.otps) ≡ some o
      → ((x : Otp) → p x ≡ true → x.is_used ≡ false)
      → o.attempt_count < 5
      → t' ≡ record t { otps = put_row otp_ids (missed o) t.otps }
      → Counted t t'

module _ (out : Outside) where
  module _ (phone otp purpose : String) where
    pub data Verified (s : Server) : Outcome Server TokenPair → Type 0 where
      not_verified :
          (e : Error) (s' : Server) → Counted s.tables s'.tables → Verified s (raised e s')
      verified :
          (o : Otp) (u : User) (p : TokenPair) (s' : Server)
          → code_for phone purpose (out.clock s.ticks) s.tables ≡ some o
          → o.attempt_count < 5
          → out.compare_digest (out.sha256 otp) o.otp_hash ≡ some true
          → first (λ x. str_eq x.phone_number phone) s.tables.users ≡ some u
          → s'.tables ≡ record s.tables {
            users = users_after purpose u s.tables;
            sessions =
                record {
                  id = s.tables.next_session_id;
                  user_id = u.id;
                  refresh_token = p.refresh_token;
                  is_revoked = false;
                }
                ∷ s.tables.sessions;
            next_session_id = s.tables.next_session_id + 1;
            otps = put_row otp_ids (used_up o) s.tables.otps;
          }
          → Verified s (returned p s')

    abbrev verifying : Server → Outcome Server TokenPair
    verifying s = serve (verify_otp out phone otp purpose) s

    checked :
        (s : Server) (o : Otp)
        → code_for phone purpose (out.clock s.ticks) s.tables ≡ some o
        → ((str_eq purpose "login" || str_eq purpose "signup") && not (leb 5 o.attempt_count))
          ≡ true
        → Verified s (serve (verify_otp out phone otp purpose) s)
    unfolding serve verify_otp accept_code wrong_code save_otp save_user open_session add_session
        verify_otp_hash create_token_pair create_access_token create_refresh_token
    checked s o found allowed =
        elim (Option-cases (out.compare_digest (out.sha256 otp) o.otp_hash)) [
          | inl failed ↦ elim (Outcome-cases (verifying s)) [
            | inl (e, s', eq) ↦
                subst (Verified s) (sym eq) (not_verified e s' (unchanged (ground arith)))
            | inr (p, s', eq) ↦ absurd (ground arith)
          ]
          | inr (false, wrong) ↦ elim (Outcome-cases (verifying s)) [
            | inl (e, s', eq) ↦ subst (Verified s) (sym eq) (
                not_verified e s'
                  (one_miss _ o found (λ x hit. ground arith) (ground arith) (ground arith)))
            | inr (p, s', eq) ↦ absurd (ground arith)
          ]
          | inr (true, right) ↦ elim (Outcome-cases (verifying s)) [
            | inl (e, s', eq) ↦
                subst (Verified s) (sym eq) (not_verified e s' (unchanged (ground arith)))
            | inr (p, s', eq) ↦
                elim (Option-cases (first (λ x. str_eq x.phone_number phone) s.tables.users)) [
                  | inl nobody ↦ absurd (ground arith)
                  | inr (u, account) ↦
                      subst (Verified s) (sym eq)
                        (verified o u p s' found (ground arith) right account (ground arith))
                ]
          ]
        ]

    pub verify_otp-Verified : (s : Server) → Verified s (serve (verify_otp out phone otp purpose) s)
    unfolding serve verify_otp accept_code wrong_code save_otp save_user open_session add_session
        verify_otp_hash create_token_pair create_access_token create_refresh_token
    verify_otp-Verified s =
        elim (Option-cases (code_for phone purpose (out.clock s.ticks) s.tables)) [
          | inl absent ↦ elim (Outcome-cases (verifying s)) [
            | inl (e, s', eq) ↦
                subst (Verified s) (sym eq) (not_verified e s' (unchanged (ground arith)))
            | inr (p, s', eq) ↦ absurd (ground arith)
          ]
          | inr (o, found) ↦
              elim (Bool-cases (
                (str_eq purpose "login" || str_eq purpose "signup")
                && not (leb 5 o.attempt_count))) [
                  | inr refused ↦ elim (Outcome-cases (verifying s)) [
                    | inl (e, s', eq) ↦
                        subst (Verified s) (sym eq) (not_verified e s' (unchanged (ground arith)))
                    | inr (p, s', eq) ↦ absurd (ground arith)
                  ]
                  | inl allowed ↦ checked s o found allowed
                ]
        ]

  abbrev logging_in : String → String → Server → Outcome Server TokenPair
  logging_in phone otp s = serve (verify_login_otp out phone otp) s

  abbrev login_code : ℕ → Server → Option Otp
  login_code u s =
      newest (keep_if (λ o. of_user u o && open_for "login" (out.clock s.ticks) o) s.tables.otps)

  login-Counted :
      (phone otp : String) (s : Server) (e : Error) (s' : Server) (u : User)
      → first (λ x. str_eq x.phone_number phone) s.tables.users ≡ some u
      → logging_in phone otp s ≡ raised e s'
      → Counted s.tables s'.tables
  unfolding serve verify_login_otp wrong_code save_otp verify_otp_hash
  login-Counted phone otp s e s' u account eq = elim (Option-cases (login_code u.id s)) [
    | inl absent ↦ unchanged (ground arith)
    | inr (o, found) ↦ elim (Bool-cases (leb 5 o.attempt_count)) [
      | inl worn ↦ unchanged (ground arith)
      | inr left ↦ elim (Option-cases (out.compare_digest (out.sha256 otp) o.otp_hash)) [
        | inl failed ↦ unchanged (ground arith)
        | inr (false, wrong) ↦
            one_miss _ o found (λ x hit. ground arith) (ground arith) (ground arith)
        | inr (true, right) ↦ unchanged (ground arith)
      ]
    ]
  ]

  -- The older path never returns: after a right code it raises without a commit.
  pub verify_login_otp-Counted :
      (phone otp : String) (s : Server)
      → (e : Error) × (s' : Server) × (serve (verify_login_otp out phone otp) s ≡ raised e s')
        × Counted s.tables s'.tables
  unfolding serve verify_login_otp wrong_code save_otp verify_otp_hash
  verify_login_otp-Counted phone otp s = elim (Outcome-cases (logging_in phone otp s)) [
    | inr (p, s', eq) ↦ absurd (ground arith)
    | inl (e, s', eq) ↦
        elim (Option-cases (first (λ u. str_eq u.phone_number phone) s.tables.users)) [
          | inl nobody ↦ (e, s', eq, unchanged (ground arith))
          | inr (u, account) ↦ (e, s', eq, login-Counted phone otp s e s' u account eq)
        ]
  ]
