-- ===== src/Access/Change.antt =====
-- What a request may do to the table of sessions, and what stays true of it.
use apna_mandla.Prelude.{
  ◌+◌, ◌≤◌, ◌≡◌, refl, String, Bool, true, false, some, List, ◌∷◌, arith, inl, inr, first,
  Bool-cases, ap, keep_if,
}
use apna_mandla.Prelude.Text.{str_eq, eq_iff}
use apna_mandla.Table.{put_row, Distinct, Below, Distinct-add, Below-add, first-find_row}
use apna_mandla.Access.{
  Server, Outcome, returned, TokenPair, AuthTables, ActiveSession, session_ids, revoked,
}
use apna_mandla.Access.CodeRows.{
  OtpChange, none_written, one_written, newest-find_row, newest-passes,
}
use apna_mandla.Access.{Otp, otp_ids, newest, missed}
use apna_mandla.Access.Live.{with_token, live, Revokes, Revokes-refl, put_row-Revokes}
use apna_mandla.Access.Verification.{Counted, unchanged, one_miss}

-- Ids are used once and are below the next one, and no two sessions have one token.
pub record Sound (t : AuthTables) : Type 0 where
  pub distinct : Distinct session_ids t.sessions
  pub below : Below session_ids t.next_session_id t.sessions
  pub one_each : (x : String) → with_token x t.sessions ≤ 1

-- A refresh token that a request issues is new. Each has a random name of 128 bits.
abbrev pub NewToken : Outcome Server TokenPair → AuthTables → Type 0
NewToken o t =
    (p : TokenPair) (s' : Server) → o ≡ returned p s' → with_token p.refresh_token t.sessions ≡ 0

-- What a request does to the sessions.
pub data Change (t t' : AuthTables) : Type 0 where
  some_revoked :
      Revokes t.next_session_id t.sessions t'.sessions
      → t'.next_session_id ≡ t.next_session_id
      → Change t t'
  one_added :
      (rows : List ActiveSession) (new : ActiveSession)
      → Revokes t.next_session_id t.sessions rows
      → new.id ≡ t.next_session_id
      → with_token new.refresh_token t.sessions ≡ 0
      → t'.sessions ≡ new ∷ rows
      → t'.next_session_id ≡ t.next_session_id + 1
      → Change t t'

pub no_other :
    (a x : String) (rows : List ActiveSession)
    → str_eq a x ≡ true
    → with_token a rows ≡ 0
    → with_token x rows ≡ 0
no_other a x rows same h = rw (← (eq_iff a x).0 same) h

pub Change-Sound : {t t' : AuthTables} → Sound t → Change t t' → Sound t'
unfolding with_token
Change-Sound {t} {t'} v (some_revoked r n) = record {
  distinct = r.distinct v.distinct;
  below = rw n (r.below v.below);
  one_each = λ x. omega (arith, r.same_tokens x, v.one_each x);
}
Change-Sound {t} {t'} v (one_added rows new r own fresh eq n) = record {
  distinct = rw eq (
      Distinct-add session_ids t.next_session_id new rows own (r.below v.below)
        (r.distinct v.distinct));
  below = rw (eq, n) (Below-add session_ids t.next_session_id new rows own (r.below v.below));
  one_each = λ x. elim (Bool-cases (str_eq new.refresh_token x)) [
    | inl same ↦
        let none_yet = no_other new.refresh_token x t.sessions same fresh in
        rw eq (ground (arith, none_yet, r.same_tokens x))
    | inr other ↦ rw eq (ground (arith, r.same_tokens x, v.one_each x))
  ];
}

-- A token that was issued and has no unrevoked session.
pub record Dead (x : String) (t : AuthTables) : Type 0 where
  pub issued : 1 ≤ with_token x t.sessions
  pub ended : live x t.sessions ≡ 0

pub Change-Dead : {t t' : AuthTables} (x : String) → Dead x t → Change t t' → Dead x t'
unfolding with_token live
Change-Dead {t} {t'} x w (some_revoked r n) = record {
  issued = omega (arith, w.issued, r.same_tokens x);
  ended = omega (arith, w.ended, r.fewer x);
}
Change-Dead {t} {t'} x w (one_added rows new r own fresh eq n) =
    elim (Bool-cases (str_eq new.refresh_token x)) [
      | inl same ↦
          let none_yet = no_other new.refresh_token x t.sessions same fresh in
          absurd (omega (arith, w.issued, none_yet))
      | inr other ↦ record {
        issued = rw eq (ground (arith, r.same_tokens x, w.issued));
        ended = rw eq (ground (arith, r.fewer x, w.ended));
      }
    ]

-- A row that a query found, revoked.
pub found-Revokes :
    (t : AuthTables) (p : ActiveSession → Bool) (x : ActiveSession)
    → Sound t
    → first p t.sessions ≡ some x
    → x.is_revoked ≡ false
    → Revokes t.next_session_id t.sessions (put_row session_ids (revoked x) t.sessions)
found-Revokes t p x v found fresh =
    put_row-Revokes t.next_session_id x t.sessions v.below
      (first-find_row session_ids p t.sessions v.distinct found) fresh

-- What a request does to sessions and codes.
pub record Effect (t t' : AuthTables) : Type 0 where
  pub sessions : Change t t'
  pub codes : OtpChange t t'

pub same-Effect : {t t' : AuthTables} → t' ≡ t → Effect t t'
same-Effect {t} h = record {
  sessions =
      some_revoked (rw h (Revokes-refl t.next_session_id t.sessions))
        (ap (λ x. x.next_session_id) h);
  codes = none_written (ap (λ x. x.otps) h);
}

pub rows-Effect :
    {t t' : AuthTables} {rows : List ActiveSession}
    → Revokes t.next_session_id t.sessions rows
    → t' ≡ record t { sessions = rows }
    → Effect t t'
rows-Effect r h = record {
  sessions = some_revoked (rw h r) (ap (λ x. x.next_session_id) h);
  codes = none_written (ap (λ x. x.otps) h);
}

-- A wrong code that is counted; the row was unused.
pub miss-Effect :
    {t t' : AuthTables} (p : Otp → Bool) (o : Otp)
    → newest (keep_if p t.otps) ≡ some o
    → ((x : Otp) → p x ≡ true → x.is_used ≡ false)
    → t' ≡ record t { otps = put_row otp_ids (missed o) t.otps }
    → Effect t t'
miss-Effect {t} p o found unused h = record {
  sessions =
      some_revoked (rw h (Revokes-refl t.next_session_id t.sessions))
        (ap (λ x. x.next_session_id) h);
  codes =
      one_written o (missed o) (λ dis. newest-find_row p t.otps dis found)
        (unused o (newest-passes p t.otps found)) refl (ap (λ x. x.otps) h);
}

pub Counted-Effect : {t t' : AuthTables} → Counted t t' → Effect t t'
Counted-Effect (unchanged h) = same-Effect h
Counted-Effect (one_miss p o found unused few h) = miss-Effect p o found unused h
