-- ===== src/Access/CodeLimits.antt =====
-- How often a one-time code can be guessed and used: auth_verify.py and auth_otp.py of
-- Backend/app/routes.
use apna_mandla.Prelude.{
  ℕ, ◌≤◌, ◌<◌, ◌≡◌, ◌≢◌, refl, String, true, some, List, [], ◌∷◌, arith, inl, inr, Bool-cases, ◌==◌,
  All, ◌∙◌, option_map, Option-cases,
}
use apna_mandla.Table.{put_row, Distinct, put_row-Distinct, find_row-put_row}
use apna_mandla.Access.{
  Server, Outcome, returned, serve, server, Outside, TokenPair, AuthTables, Otp, otp_ids, missed,
  used_up, verify_otp, verify_login_otp,
}
use apna_mandla.Access.Verification.{
  Verified, verified, not_verified, Counted, unchanged, one_miss, code_for, verify_otp-Verified,
  verify_login_otp-Counted,
}
use apna_mandla.Access.CodeRows.{Spent, newest-find_row, newest-ne-spent}
use apna_mandla.Access.Change.{Sound, NewToken, Change-Sound}
use apna_mandla.Access.Requests.{verify-Effect}
use apna_mandla.Access.Steps.{Steps, Steps-Spent}

abbrev pub Few : List Otp → Type 0
Few = All (λ o. o.attempt_count ≤ 5)

put_row-Few :
    (o : Otp) (rows : List Otp) → o.attempt_count ≤ 5 → Few rows → Few (put_row otp_ids o rows)
unfolding put_row
put_row-Few o [] le few = tt
put_row-Few o (x ∷ xs) le (lx, few) = elim (Bool-cases (x.id == o.id)) [
  | inl same ↦ rw same (le, few)
  | inr other ↦ rw other (lx, put_row-Few o xs le few)
]

Counted-Few : {t t' : AuthTables} → Few t.otps → Counted t t' → Few t'.otps
Counted-Few few (unchanged h) = rw h few
Counted-Few {t} few (one_miss p o found unused lt h) =
    rw h (put_row-Few (missed o) t.otps (omega arith) few)

-- A check of a code, over either path.
pub data Guess : Type 0 where
  by_phone : String → String → String → Guess
  by_login : String → String → Guess

module _ (out : Outside) where
  abbrev pub guess : Guess → Server → Server
  guess (by_phone phone otp purpose) s = server (serve (verify_otp out phone otp purpose) s)
  guess (by_login phone otp) s = server (serve (verify_login_otp out phone otp) s)

  abbrev pub guesses : List Guess → Server → Server
  guesses [] s = s
  guesses (g ∷ gs) s = guesses gs (guess g s)

  guess-Few : (g : Guess) (s : Server) → Few s.tables.otps → Few (guess g s).tables.otps
  guess-Few (by_login phone otp) s few =
      let (e, s', eq, c) = verify_login_otp-Counted out phone otp s in rw eq (Counted-Few few c)
  guess-Few (by_phone phone otp purpose) s few =
      go (serve (verify_otp out phone otp purpose) s) (verify_otp-Verified out phone otp purpose s)
    where
      go :
          (o : Outcome Server TokenPair)
          → Verified out phone otp purpose s o
          → Few (server o).tables.otps
      go _ (not_verified e s' c) = Counted-Few few c
      go _ (verified o u p s' found lt right account h) =
          rw h (put_row-Few (used_up o) s.tables.otps (omega arith) few)

  -- Where no code has more than five misses, none has after any sequence of checks over both paths
  -- of a login or a signup.
  pub guesses-Few :
      (gs : List Guess) (s : Server) → Few s.tables.otps → Few (guesses gs s).tables.otps
  guesses-Few [] s few = few
  guesses-Few (g ∷ gs) s few = guesses-Few gs (guess g s) (guess-Few g s few)

  module _ (phone otp purpose : String) (s : Server) (p : TokenPair) (s1 s2 : Server)
      (v : Sound s.tables) (dis : Distinct otp_ids s.tables.otps)
      (new : NewToken (serve (verify_otp out phone otp purpose) s) s.tables)
      (done : serve (verify_otp out phone otp purpose) s ≡ returned p s1)
      (steps : Steps out s1 s2) where
    -- The row of the code that was accepted.
    record Accepted : Type 0 where
      row : Otp
      looked_at : code_for phone purpose (out.clock s.ticks) s.tables ≡ some row
      few : row.attempt_count < 5
      right : out.compare_digest (out.sha256 otp) row.otp_hash ≡ some true
      otps : s1.tables.otps ≡ put_row otp_ids (used_up row) s.tables.otps

    accepted : Accepted
    accepted =
        go (serve (verify_otp out phone otp purpose) s)
          (verify_otp-Verified out phone otp purpose s) done
      where
        go :
            (o : Outcome Server TokenPair)
            → Verified out phone otp purpose s o
            → o ≡ returned p s1
            → Accepted
        go _ (not_verified e s' c) h = absurd (cc h)
        go _ (verified o u q s' found lt right account after) h = record {
          row = o;
          looked_at = found;
          few = lt;
          right = right;
          otps = ground (arith, h, after);
        }

    spent : Spent accepted.row.id s1.tables
    spent =
        let a = accepted in
        let here = newest-find_row _ s.tables.otps dis a.looked_at in
        record {
          distinct = rw a.otps (put_row-Distinct otp_ids (used_up a.row) s.tables.otps dis);
          row = used_up a.row;
          there = rw a.otps (
              find_row-put_row otp_ids a.row.id a.row (used_up a.row) s.tables.otps here
              ∙ ground arith);
          used = refl;
        }

    -- From sound tables in which the ids of codes are distinct, a check of a code that returns,
    -- with a new token, has accepted the newest open code for the phone number and purpose, which
    -- had fewer than five misses and whose hash is that of the code given; and after any requests
    -- whose refresh tokens are new, no check finds that code, for whatever phone number, purpose
    -- and time.
    pub verify_otp_once :
        (other_phone other_purpose : String) (time : ℕ)
        → (o : Otp) × (code_for phone purpose (out.clock s.ticks) s.tables ≡ some o)
          × (out.compare_digest (out.sha256 otp) o.otp_hash ≡ some true)
          × (o.attempt_count < 5)
          × (option_map otp_ids (code_for other_phone other_purpose time s2.tables) ≢ some o.id)
    verify_otp_once other_phone other_purpose time =
        let a = accepted in
        let after : s1.tables ≡ (server (serve (verify_otp out phone otp purpose) s)).tables =
          ground (arith, done) in
        let sound : Sound s1.tables =
          rw after (Change-Sound v (verify-Effect out phone otp purpose s new).sessions) in
        (a.row, a.looked_at, a.right, a.few, λ same. another sound same)
      where
        another :
            Sound s1.tables
            → ¬ (
                option_map otp_ids (code_for other_phone other_purpose time s2.tables)
                ≡ some accepted.row.id)
        another sound same =
            elim (Option-cases (code_for other_phone other_purpose time s2.tables)) [
              | inl closed ↦ absurd (ground (arith, closed, same))
              | inr (o', found) ↦
                  newest-ne-spent _ s2.tables accepted.row.id o'
                    (Steps-Spent out accepted.row.id sound spent steps) (λ x hit. ground arith)
                    found (ground (arith, found, same))
            ]
