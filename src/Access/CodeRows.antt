-- ===== src/Access/CodeRows.antt =====
-- The rows of one-time codes: the newest of some of them, and rows that a request writes.
use apna_mandla.Prelude.{
  ℕ, ◌≡◌, ◌≢◌, Bool, true, false, none, some, List, [], ◌∷◌, arith, ◌∙◌, inl, inr, Option-cases,
  Bool-cases, ltb, ap, keep_if,
}
use apna_mandla.Table.{find_row, put_row, Distinct, put_row-Distinct, find_row-put_row}
use apna_mandla.Access.{AuthTables, Otp, otp_ids, newest}

pub newest-passes :
    (p : Otp → Bool) (rows : List Otp) {o : Otp} → newest (keep_if p rows) ≡ some o → p o ≡ true
unfolding newest
newest-passes p [] h = absurd (cc h)
newest-passes p (x ∷ xs) {o} h = elim (Bool-cases (p x)) [
  | inr miss ↦ newest-passes p xs {o = o} (ground arith)
  | inl hit ↦ elim (Option-cases (newest (keep_if p xs))) [
    | inl alone ↦ ground arith
    | inr (b, later) ↦ elim (Bool-cases (p b)) [
      | inl passes ↦ ground arith
      | inr fails ↦ absurd (ground (arith, newest-passes p xs {o = b} later))
    ]
  ]
]

behind :
    (x o : Otp) (xs : List Otp)
    → find_row otp_ids x.id xs ≡ none
    → find_row otp_ids o.id xs ≡ some o
    → find_row otp_ids o.id (x ∷ xs) ≡ some o
unfolding find_row
behind x o xs new there =
    let other : x.id ≢ o.id = λ q. absurd (ground (arith, ap (λ i. find_row otp_ids i xs) q)) in
    ground arith

pub newest-find_row :
    (p : Otp → Bool) (rows : List Otp) {o : Otp}
    → Distinct otp_ids rows
    → newest (keep_if p rows) ≡ some o
    → find_row otp_ids o.id rows ≡ some o
unfolding newest find_row Distinct
newest-find_row p [] dis h = absurd (cc h)
newest-find_row p (x ∷ xs) {o} (new, dis) h = elim (Bool-cases (p x)) [
  | inr miss ↦ behind x o xs new (newest-find_row p xs {o = o} dis (ground arith))
  | inl hit ↦ elim (Option-cases (newest (keep_if p xs))) [
    | inl alone ↦ let same : x ≡ o = ground arith in ground (arith, same)
    | inr (b, later) ↦ elim (Bool-cases (ltb x.created_at b.created_at)) [
      | inl older ↦
          let same : b ≡ o = ground arith in
          behind x o xs new (newest-find_row p xs {o = o} dis (ground (arith, same)))
      | inr newer ↦ let same : x ≡ o = ground arith in ground (arith, same)
    ]
  ]
]

-- A row that was found unused is written back under its id, or none is.
pub data OtpChange (t t' : AuthTables) : Type 0 where
  none_written : t'.otps ≡ t.otps → OtpChange t t'
  one_written :
      (o o' : Otp)
      → (Distinct otp_ids t.otps → find_row otp_ids o.id t.otps ≡ some o)
      → o.is_used ≡ false
      → o'.id ≡ o.id
      → t'.otps ≡ put_row otp_ids o' t.otps
      → OtpChange t t'

-- The code of a row has been used.
pub record Spent (i : ℕ) (t : AuthTables) : Type 0 where
  pub distinct : Distinct otp_ids t.otps
  pub row : Otp
  pub there : find_row otp_ids i t.otps ≡ some row
  pub used : row.is_used ≡ true

pub OtpChange-Spent : {t t' : AuthTables} (i : ℕ) → Spent i t → OtpChange t t' → Spent i t'
OtpChange-Spent {t} {t'} i w (none_written same) = record {
  distinct = rw same w.distinct;
  row = w.row;
  there = rw same w.there;
  used = w.used;
}
OtpChange-Spent {t} {t'} i w (one_written o o' found unused own eq) =
    let here = found w.distinct in
    let here' : find_row otp_ids o'.id t.otps ≡ some o =
      ap (λ j. find_row otp_ids j t.otps) own ∙ here in
    let differ : o'.id ≢ i = λ q.
      absurd
        (ground (arith, w.there, w.used, unused, here', ap (λ j. find_row otp_ids j t.otps) q)) in
    record {
      distinct = rw eq (put_row-Distinct otp_ids o' t.otps w.distinct);
      row = w.row;
      there =
          rw eq (find_row-put_row otp_ids i o o' t.otps here' ∙ ground (arith, w.there, differ));
      used = w.used;
    }

-- A code that is looked at is not one that has been used.
pub newest-ne-spent :
    (p : Otp → Bool) (t : AuthTables) (i : ℕ) (o : Otp)
    → Spent i t
    → ((x : Otp) → p x ≡ true → x.is_used ≡ false)
    → newest (keep_if p t.otps) ≡ some o
    → o.id ≢ i
newest-ne-spent p t i o w unused found q =
    let here = newest-find_row p t.otps w.distinct found in
    let fresh = unused o (newest-passes p t.otps found) in
    absurd (ground (arith, here, fresh, w.there, w.used, ap (λ j. find_row otp_ids j t.otps) q))
