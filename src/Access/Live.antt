-- ===== src/Access/Live.antt =====
-- Sessions by their refresh token, and what revoking some of them does to the table.
use apna_mandla.Prelude.{
  ℕ, ◌+◌, ◌≤◌, ◌≡◌, refl, String, Bool, true, false, not, ◌&&◌, none, some, List, [], ◌∷◌, arith,
  Bool-cases, inl, inr, ◌==◌, first, keep_if, ==→eq,
}
use apna_mandla.Prelude.Text.{str_eq}
use apna_mandla.Table.{
  find_row, put_row, Distinct, Below, put_row-Distinct, put_row-Below, find_row-Below,
}
use apna_mandla.Access.Tables.{ActiveSession, session_ids, revoked, revoke_where}

abbrev pub one_if : Bool → ℕ
one_if true = 1
one_if false = 0

-- The sessions with a token, and those of them that are not revoked.
unfoldable pub with_token : String → List ActiveSession → ℕ
with_token x [] = 0
with_token x (s ∷ ss) = one_if (str_eq s.refresh_token x) + with_token x ss

unfoldable pub live : String → List ActiveSession → ℕ
live x [] = 0
live x (s ∷ ss) = one_if (str_eq s.refresh_token x && not s.is_revoked) + live x ss

pub live-le-with_token : (x : String) (rows : List ActiveSession) → live x rows ≤ with_token x rows
unfolding live with_token
live-le-with_token x [] = omega arith
live-le-with_token x (s ∷ ss) = ground (arith, live-le-with_token x ss)

pub put_row-with_token :
    (x : String) (s : ActiveSession) (rows : List ActiveSession)
    → find_row session_ids s.id rows ≡ some s
    → with_token x (put_row session_ids (revoked s) rows) ≡ with_token x rows
unfolding find_row put_row with_token
put_row-with_token x s [] h = cc
put_row-with_token x s (r ∷ rs) h = ground (arith, put_row-with_token x s rs)

pub put_row-live :
    (x : String) (s : ActiveSession) (rows : List ActiveSession)
    → find_row session_ids s.id rows ≡ some s
    → s.is_revoked ≡ false
    → live x rows
      ≡ live x (put_row session_ids (revoked s) rows) + one_if (str_eq s.refresh_token x)
unfolding find_row put_row live
put_row-live x s [] h fresh = absurd (cc h)
put_row-live x s (r ∷ rs) h fresh = ground (arith, put_row-live x s rs)

pub revoke_where-with_token :
    (x : String) (p : ActiveSession → Bool) (rows : List ActiveSession)
    → with_token x (revoke_where p rows) ≡ with_token x rows
unfolding revoke_where with_token
revoke_where-with_token x p [] = refl
revoke_where-with_token x p (s ∷ ss) = ground (arith, revoke_where-with_token x p ss)

pub revoke_where-live :
    (x : String) (p : ActiveSession → Bool) (rows : List ActiveSession)
    → live x (revoke_where p rows) ≤ live x rows
unfolding revoke_where live
revoke_where-live x p [] = omega arith
revoke_where-live x p (s ∷ ss) = ground (arith, revoke_where-live x p ss)

-- The sessions of `rows'` are those of `rows`, some of them revoked; `n` is the next id.
pub record Revokes (n : ℕ) (rows rows' : List ActiveSession) : Type 0 where
  pub same_tokens : (x : String) → with_token x rows' ≡ with_token x rows
  pub fewer : (x : String) → live x rows' ≤ live x rows
  pub distinct : Distinct session_ids rows → Distinct session_ids rows'
  pub below : Below session_ids n rows → Below session_ids n rows'

pub Revokes-refl : (n : ℕ) (rows : List ActiveSession) → Revokes n rows rows
Revokes-refl n rows = record {
  same_tokens = λ x. refl;
  fewer = λ x. omega arith;
  distinct = λ d. d;
  below = λ b. b;
}

pub put_row-Revokes :
    (n : ℕ) (s : ActiveSession) (rows : List ActiveSession)
    → Below session_ids n rows
    → find_row session_ids s.id rows ≡ some s
    → s.is_revoked ≡ false
    → Revokes n rows (put_row session_ids (revoked s) rows)
put_row-Revokes n s rows b found fresh = record {
  same_tokens = λ x. put_row-with_token x s rows found;
  fewer = λ x. omega (arith, put_row-live x s rows found fresh);
  distinct = put_row-Distinct session_ids (revoked s) rows;
  below =
      put_row-Below session_ids n (revoked s) rows (find_row-Below session_ids n s.id rows b found);
}

revoke_where-find_row :
    (i : ℕ) (p : ActiveSession → Bool) (rows : List ActiveSession)
    → find_row session_ids i rows ≡ none
    → find_row session_ids i (revoke_where p rows) ≡ none
unfolding find_row revoke_where
revoke_where-find_row i p [] h = h
revoke_where-find_row i p (s ∷ ss) h = ground (arith, revoke_where-find_row i p ss)

revoke_where-Distinct :
    (p : ActiveSession → Bool) (rows : List ActiveSession)
    → Distinct session_ids rows
    → Distinct session_ids (revoke_where p rows)
unfolding revoke_where Distinct
revoke_where-Distinct p [] d = tt
revoke_where-Distinct p (s ∷ ss) (new, d) = elim (Bool-cases (p s)) [
  | inl yes_p ↦ rw yes_p (revoke_where-find_row s.id p ss new, revoke_where-Distinct p ss d)
  | inr no_p ↦ rw no_p (revoke_where-find_row s.id p ss new, revoke_where-Distinct p ss d)
]

revoke_where-Below :
    (n : ℕ) (p : ActiveSession → Bool) (rows : List ActiveSession)
    → Below session_ids n rows
    → Below session_ids n (revoke_where p rows)
unfolding revoke_where Below
revoke_where-Below n p [] b = tt
revoke_where-Below n p (s ∷ ss) (lt, b) = elim (Bool-cases (p s)) [
  | inl yes_p ↦ rw yes_p (lt, revoke_where-Below n p ss b)
  | inr no_p ↦ rw no_p (lt, revoke_where-Below n p ss b)
]

pub revoke_where-Revokes :
    (n : ℕ) (p : ActiveSession → Bool) (rows : List ActiveSession)
    → Revokes n rows (revoke_where p rows)
revoke_where-Revokes n p rows = record {
  same_tokens = λ x. revoke_where-with_token x p rows;
  fewer = λ x. revoke_where-live x p rows;
  distinct = revoke_where-Distinct p rows;
  below = revoke_where-Below n p rows;
}

-- The sessions of the other users.
abbrev pub others : ℕ → List ActiveSession → List ActiveSession
others u = keep_if (λ s. not (s.user_id == u))

pub put_row-others :
    (u : ℕ) (s : ActiveSession) (rows : List ActiveSession)
    → find_row session_ids s.id rows ≡ some s
    → s.user_id ≡ u
    → others u (put_row session_ids (revoked s) rows) ≡ others u rows
unfolding find_row put_row
put_row-others u s [] h own = cc
put_row-others u s (r ∷ rs) h own = ground (arith, put_row-others u s rs)

-- A test that only sessions of `u` pass.
pub revoke_where-others :
    (u : ℕ) (p : ActiveSession → Bool) (rows : List ActiveSession)
    → ((s : ActiveSession) → p s ≡ true → s.user_id ≡ u)
    → others u (revoke_where p rows) ≡ others u rows
unfolding revoke_where
revoke_where-others u p [] own = refl
revoke_where-others u p (s ∷ ss) own = elim (Bool-cases (p s)) [
  | inl mine ↦ ground (arith, own s mine, revoke_where-others u p ss own)
  | inr other ↦ ground (arith, revoke_where-others u p ss own)
]

-- The unrevoked sessions of a user.
unfoldable pub live_sessions : ℕ → List ActiveSession → ℕ
live_sessions u [] = 0
live_sessions u (s ∷ ss) = one_if (s.user_id == u && not s.is_revoked) + live_sessions u ss

pub revoke_where-live_sessions :
    (u : ℕ) (p : ActiveSession → Bool) (rows : List ActiveSession)
    → ((s : ActiveSession) → s.user_id ≡ u → s.is_revoked ≡ false → p s ≡ true)
    → live_sessions u (revoke_where p rows) ≡ 0
unfolding revoke_where live_sessions
revoke_where-live_sessions u p [] all = refl
revoke_where-live_sessions u p (s ∷ ss) all = elim (Bool-cases (s.user_id == u)) [
  | inr other ↦ ground (arith, revoke_where-live_sessions u p ss all)
  | inl own ↦ elim (Bool-cases s.is_revoked) [
    | inl old ↦ ground (arith, revoke_where-live_sessions u p ss all)
    | inr fresh ↦
        ground (arith, all s (==→eq s.user_id u own) fresh, revoke_where-live_sessions u p ss all)
  ]
]

-- A token whose sessions are all revoked finds none.
pub first-live :
    (x : String) (u : ℕ) (rows : List ActiveSession) {s : ActiveSession}
    → first (λ s. (str_eq s.refresh_token x && not s.is_revoked) && s.user_id == u) rows ≡ some s
    → 1 ≤ live x rows
unfolding live
first-live x u [] h = absurd (cc h)
first-live x u (r ∷ rs) {s} h =
    elim (Bool-cases ((str_eq r.refresh_token x && not r.is_revoked) && r.user_id == u)) [
      | inl hit ↦ ground arith
      | inr miss ↦ ground (arith, first-live x u rs {s = s} (ground arith))
    ]

pub first-live-none :
    (x : String) (rows : List ActiveSession)
    → first (λ s. str_eq s.refresh_token x && not s.is_revoked) rows ≡ none
    → live x rows ≡ 0
unfolding live
first-live-none x [] h = refl
first-live-none x (s ∷ ss) h = ground (arith, first-live-none x ss)

pub live-first-none :
    (x : String) (u : ℕ) (rows : List ActiveSession)
    → live x rows ≡ 0
    → first (λ s. (str_eq s.refresh_token x && not s.is_revoked) && s.user_id == u) rows ≡ none
unfolding live
live-first-none x u [] h = refl
live-first-none x u (s ∷ ss) h = ground (arith, live-first-none x u ss)

pub revoke_where-live_same :
    (x : String) (p : ActiveSession → Bool) (rows : List ActiveSession)
    → ((s : ActiveSession) → p s ≡ true → str_eq s.refresh_token x ≡ false)
    → live x (revoke_where p rows) ≡ live x rows
unfolding revoke_where live
revoke_where-live_same x p [] other = refl
revoke_where-live_same x p (s ∷ ss) other = elim (Bool-cases (p s)) [
  | inl hit ↦ ground (arith, other s hit, revoke_where-live_same x p ss other)
  | inr miss ↦ ground (arith, revoke_where-live_same x p ss other)
]
