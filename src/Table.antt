-- ===== src/Table.antt =====
-- A table whose rows are found by an integer key, and whose row objects are changed in place.
use apna_mandla.Prelude.{
  ℕ, ◌+◌, ◌<◌, ◌≤◌, ◌≡◌, ◌≢◌, Bool, true, Option, none, some, List, [], ◌∷◌, arith, ◌==◌,
  if◌then◌else◌, ◌∙◌, ap, sym, first, Bool-cases, inl, inr, ◌⊎◌, ==→eq,
}

module _ {A : Type 0} (key : A → ℕ) where
  unfoldable pub find_row : ℕ → List A → Option A
  find_row i [] = none
  find_row i (x ∷ xs) = let rest = find_row i xs in if key x == i then some x else rest

  unfoldable pub put_row : A → List A → List A
  put_row r [] = []
  put_row r (x ∷ xs) = let rest = put_row r xs in if key x == key r then r ∷ xs else x ∷ rest

  pub find_row-key : (i : ℕ) (rows : List A) {r : A} → find_row i rows ≡ some r → key r ≡ i
  unfolding find_row
  find_row-key i [] h = cc
  find_row-key i (x ∷ xs) {r} h = ground (arith, find_row-key i xs {r = r})

  pub find_row-put_row :
      (j : ℕ) (r r' : A) (rows : List A)
      → find_row (key r') rows ≡ some r
      → find_row j (put_row r' rows) ≡ (if key r' == j then some r' else find_row j rows)
  unfolding find_row put_row
  find_row-put_row j r r' [] h = cc
  find_row-put_row j r r' (x ∷ xs) h = ground (arith, find_row-put_row j r r' xs)

  -- The row `i` was `before` and is `after`; no other row changed.
  pub record Updated (i : ℕ) (before after : A) (rows rows' : List A) : Type 0 where
    pub found : find_row i rows ≡ some before
    pub now_found : find_row i rows' ≡ some after
    pub others : (j : ℕ) → find_row j rows' ≡ (if i == j then some after else find_row j rows)

  pub updated :
      (i : ℕ) (r r' : A) (rows rows' : List A)
      → find_row i rows ≡ some r
      → key r' ≡ key r
      → rows' ≡ put_row r' rows
      → Updated i r r' rows rows'
  updated i r r' rows rows' h same eq =
      let own : key r' ≡ i = same ∙ find_row-key i rows h in
      let here : find_row (key r') rows ≡ some r = ap (λ x. find_row x rows) own ∙ h in
      let after = λ (j : ℕ). ap (find_row j) eq ∙ find_row-put_row j r r' rows here in
      record {
        found = h;
        now_found = ground (arith, after i, own);
        others = λ j. ground (arith, after j, own);
      }

  -- No two rows have one key.
  unfoldable pub Distinct : List A → Type 0
  Distinct [] = Unit
  Distinct (x ∷ xs) = (find_row (key x) xs ≡ none) × Distinct xs

  -- Every key is below the next one of the sequence.
  unfoldable pub Below : ℕ → List A → Type 0
  Below n [] = Unit
  Below n (x ∷ xs) = (key x < n) × Below n xs

  pub first-find_row :
      (p : A → Bool) (rows : List A) {r : A}
      → Distinct rows
      → first p rows ≡ some r
      → find_row (key r) rows ≡ some r
  unfolding find_row Distinct
  first-find_row p [] dis h = cc
  first-find_row p (x ∷ xs) {r} (new, dis) h = elim (Bool-cases (p x)) [
    | inl hit ↦ ground arith
    | inr miss ↦
        let there = first-find_row p xs {r = r} dis (ground arith) in
        let other : key x ≢ key r = λ q. absurd (ground (arith, ap (λ i. find_row i xs) q)) in
        ground arith
  ]

  pub first-passes : (p : A → Bool) (rows : List A) {r : A} → first p rows ≡ some r → p r ≡ true
  first-passes p [] h = cc
  first-passes p (x ∷ xs) {r} h = elim (Bool-cases (p x)) [
    | inl hit ↦ ground arith
    | inr miss ↦ first-passes p xs {r = r} (ground arith)
  ]

  -- A row that is changed so that it passes the same test is still the first to pass it.
  pub first-put_row :
      (p : A → Bool) (r r' : A) (rows : List A)
      → Distinct rows
      → first p rows ≡ some r
      → key r' ≡ key r
      → p r' ≡ true
      → first p (put_row r' rows) ≡ some r'
  unfolding find_row put_row Distinct
  first-put_row p r r' [] dis h same passes = cc
  first-put_row p r r' (x ∷ xs) (new, dis) h same passes = elim (Bool-cases (p x)) [
    | inl hit ↦ ground arith
    | inr miss ↦
        let later : first p xs ≡ some r = ground arith in
        let there = first-find_row p xs {r = r} dis later in
        let other : key x ≢ key r = λ q. absurd (ground (arith, ap (λ i. find_row i xs) q)) in
        ground (arith, first-put_row p r r' xs dis later same passes)
  ]

  find_row-put_row-none :
      (j : ℕ) (r : A) (rows : List A) → find_row j rows ≡ none → find_row j (put_row r rows) ≡ none
  unfolding find_row put_row
  find_row-put_row-none j r [] h = cc
  find_row-put_row-none j r (x ∷ xs) h = ground (arith, find_row-put_row-none j r xs)

  pub put_row-Distinct : (r : A) (rows : List A) → Distinct rows → Distinct (put_row r rows)
  unfolding put_row Distinct
  put_row-Distinct r [] dis = tt
  put_row-Distinct r (x ∷ xs) (new, dis) = elim (Bool-cases (key x == key r)) [
    | inl same ↦ rw same (ap (λ i. find_row i xs) (sym (==→eq (key x) (key r) same)) ∙ new, dis)
    | inr differ ↦ rw differ (find_row-put_row-none (key x) r xs new, put_row-Distinct r xs dis)
  ]

  pub put_row-Below :
      (n : ℕ) (r : A) (rows : List A) → key r < n → Below n rows → Below n (put_row r rows)
  unfolding put_row Below
  put_row-Below n r [] lt b = tt
  put_row-Below n r (x ∷ xs) lt (bx, b) = elim (Bool-cases (key x == key r)) [
    | inl same ↦ rw same (lt, b)
    | inr differ ↦ rw differ (bx, put_row-Below n r xs lt b)
  ]

  -- A key that no row can have yet.
  Below-find_row : (n i : ℕ) (rows : List A) → n ≤ i → Below n rows → find_row i rows ≡ none
  unfolding find_row Below
  Below-find_row n i [] le b = cc
  Below-find_row n i (x ∷ xs) le (bx, b) = ground (arith, Below-find_row n i xs le b)

  pub find_row-Below :
      (n i : ℕ) (rows : List A) {r : A} → Below n rows → find_row i rows ≡ some r → i < n
  unfolding find_row Below
  find_row-Below n i [] b h = absurd (cc h)
  find_row-Below n i (x ∷ xs) {r} (bx, b) h = elim (Bool-cases (key x == i)) [
    | inl same ↦ ground arith
    | inr differ ↦ find_row-Below n i xs {r = r} b (ground arith)
  ]

  Below-suc : (n : ℕ) (rows : List A) → Below n rows → Below (n + 1) rows
  unfolding Below
  Below-suc n [] b = tt
  Below-suc n (x ∷ xs) (bx, b) = (omega arith, Below-suc n xs b)

  -- A new row under the next key.
  pub Below-add :
      (n : ℕ) (r : A) (rows : List A) → key r ≡ n → Below n rows → Below (n + 1) (r ∷ rows)
  unfolding Below
  Below-add n r rows new b = (omega arith, Below-suc n rows b)

  pub Distinct-add :
      (n : ℕ) (r : A) (rows : List A)
      → key r ≡ n
      → Below n rows
      → Distinct rows
      → Distinct (r ∷ rows)
  unfolding Distinct
  Distinct-add n r rows new b dis = (Below-find_row n (key r) rows (omega arith) b, dis)

  pub find_row-put_row_either :
      (j : ℕ) (r' o : A) (rows : List A)
      → find_row j (put_row r' rows) ≡ some o
      → (o ≡ r') ⊎ (find_row j rows ≡ some o)
  unfolding find_row put_row
  find_row-put_row_either j r' o [] h = absurd (cc h)
  find_row-put_row_either j r' o (x ∷ xs) h = elim (Bool-cases (key x == key r')) [
    | inl same ↦ elim (Bool-cases (key r' == j)) [
      | inl hit ↦ inl (ground arith)
      | inr miss ↦ inr (ground arith)
    ]
    | inr differ ↦ elim (Bool-cases (key x == j)) [
      | inl hit ↦ inr (ground arith)
      | inr miss ↦ elim (find_row-put_row_either j r' o xs (ground arith)) [
        | inl new ↦ inl new
        | inr old ↦ inr (ground arith)
      ]
    ]
  ]
