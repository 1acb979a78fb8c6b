-- ===== src/Reconciliation/Chain.antt =====
-- The audits of the hash chain, on the books of a running system.
use apna_mandla.Prelude.{
  ℕ, ◌<◌, ◌≡◌, refl, String, List, [], ◌∷◌, ◌++◌, arith, length, All, ap, ◌∙◌, sym,
}
use apna_mandla.Prelude.Text.{str_eq, eq_iff}
use apna_mandla.Schema.{LedgerEntry}
use apna_mandla.Env.{Env}
use apna_mandla.Ledger.{last_entry, last_hash}
use apna_mandla.Ledger.Invariant.{Chain, last_entry-Chain}
use apna_mandla.Reconciliation.{
  insert_by_sequence, by_sequence, chain_issues, verify_rows, hash_chain_broken, zeros,
  verify_full_ledger_integrity,
}

-- A row with the greatest number goes to the end.
insert_by_sequence-last :
    (e : LedgerEntry) (xs : List LedgerEntry)
    → All (λ x. x.sequence_number < e.sequence_number) xs
    → insert_by_sequence e xs ≡ xs ++ e ∷ []
unfolding insert_by_sequence
insert_by_sequence-last e [] h = refl
insert_by_sequence-last e (x ∷ xs) h = ground (arith, insert_by_sequence-last e xs h.1)

insert_by_sequence-All :
    (n : ℕ) (e : LedgerEntry) (xs : List LedgerEntry)
    → All (λ x. x.sequence_number < n) xs
    → e.sequence_number < n
    → All (λ x. x.sequence_number < n) (insert_by_sequence e xs)
unfolding insert_by_sequence
insert_by_sequence-All n e [] h k = (k, tt)
insert_by_sequence-All n e (x ∷ xs) h k = ground (arith, insert_by_sequence-All n e xs h.1)

by_sequence-below :
    (env : Env) (next n : ℕ) (es : List LedgerEntry)
    → Chain env next es
    → length es < n
    → All (λ x. x.sequence_number < n) (by_sequence es)
unfolding by_sequence
by_sequence-below env next n [] c h = tt
by_sequence-below env next n (e ∷ es) c h =
    insert_by_sequence-All n e (by_sequence es) (by_sequence-below env next n es c.2 (omega arith))
      (omega (arith, c.0.counted))

-- In order of their numbers the rows stand as they were written.
by_sequence-Chain :
    (env : Env) (next : ℕ) (e : LedgerEntry) (es : List LedgerEntry)
    → Chain env next (e ∷ es)
    → by_sequence (e ∷ es) ≡ by_sequence es ++ e ∷ []
unfolding by_sequence
by_sequence-Chain env next e es c =
    insert_by_sequence-last e (by_sequence es)
      (by_sequence-below env next e.sequence_number es c.2 (omega (arith, c.0.counted)))

-- The hash that the row after a list has to name.
end_hash : String → List LedgerEntry → String
end_hash prev_hash [] = prev_hash
end_hash prev_hash (e ∷ es) = end_hash e.entry_hash es

end_hash-append :
    (p : String) (xs : List LedgerEntry) (e : LedgerEntry)
    → end_hash p (xs ++ e ∷ []) ≡ e.entry_hash
unfolding end_hash
end_hash-append p [] e = refl
end_hash-append p (x ∷ xs) e = end_hash-append x.entry_hash xs e

chain_issues-append :
    (p : String) (xs : List LedgerEntry) (e : LedgerEntry)
    → chain_issues p xs ≡ []
    → e.previous_hash ≡ end_hash p xs
    → chain_issues p (xs ++ e ∷ []) ≡ []
unfolding chain_issues end_hash
chain_issues-append p [] e h k = ground (arith, eq_iff e.previous_hash p)
chain_issues-append p (x ∷ xs) e h k =
    ground (arith, eq_iff x.previous_hash p, chain_issues-append x.entry_hash xs e)

last_hash-Chain :
    (env : Env) (next : ℕ) (e : LedgerEntry) (es : List LedgerEntry)
    → Chain env next (e ∷ es)
    → last_hash (e ∷ es) ≡ e.entry_hash
unfolding last_hash
last_hash-Chain env next e es c = ground (arith, last_entry-Chain env next e es c)

end_hash-Chain :
    (env : Env) (next : ℕ) (es : List LedgerEntry)
    → Chain env next es
    → end_hash "GENESIS" (by_sequence es) ≡ last_hash es
end_hash-Chain env next [] c = unfold end_hash by_sequence last_hash last_entry in refl
end_hash-Chain env next (e ∷ es) c =
    ap (end_hash "GENESIS") (by_sequence-Chain env next e es c)
    ∙ end_hash-append "GENESIS" (by_sequence es) e
    ∙ sym (last_hash-Chain env next e es c)

-- In valid books no row breaks the chain.
pub chain_issues-Chain :
    (env : Env) (next : ℕ) (es : List LedgerEntry)
    → Chain env next es
    → chain_issues "GENESIS" (by_sequence es) ≡ []
chain_issues-Chain env next [] c = unfold chain_issues by_sequence in refl
chain_issues-Chain env next (e ∷ es) c =
    ap (chain_issues "GENESIS") (by_sequence-Chain env next e es c)
    ∙ chain_issues-append "GENESIS" (by_sequence es) e (chain_issues-Chain env next es c.2)
        (c.0.chained ∙ sym (end_hash-Chain env next es c.2))

verify_rows-append :
    (n k : ℕ) (z : String) (xs ys : List LedgerEntry)
    → verify_rows n z k xs ≡ hash_chain_broken
    → verify_rows n z k (xs ++ ys) ≡ hash_chain_broken
unfolding verify_rows
verify_rows-append n k z [] ys h = absurd (ground arith)
verify_rows-append n k z (x ∷ xs) ys h = h

verify_rows-Chain :
    (env : Env) (next k : ℕ) (e : LedgerEntry) (es : List LedgerEntry)
    → Chain env next (e ∷ es)
    → verify_rows 1 zeros k (by_sequence (e ∷ es)) ≡ hash_chain_broken
verify_rows-Chain env next k e [] c =
    unfold verify_rows by_sequence insert_by_sequence last_hash last_entry in
    ground (arith, c.0.counted, ap (λ s. str_eq s zeros) c.0.chained)
verify_rows-Chain env next k e (x ∷ es) c =
    ap (verify_rows 1 zeros k) (by_sequence-Chain env next e (x ∷ es) c)
    ∙ verify_rows-append 1 k zeros (by_sequence (x ∷ es)) (e ∷ [])
        (verify_rows-Chain env next k x es c.2)

-- The second audit rejects every ledger that the services have written, at its first row: it
-- expects 64 zeros where the writer begins the chain with "GENESIS".
pub verify_full_ledger_integrity-rejects :
    (env : Env) (next : ℕ) (e : LedgerEntry) (es : List LedgerEntry)
    → Chain env next (e ∷ es)
    → verify_full_ledger_integrity (e ∷ es) ≡ hash_chain_broken
unfolding verify_full_ledger_integrity
verify_full_ledger_integrity-rejects env next e es c =
    verify_rows-Chain env next (length (e ∷ es)) e es c
