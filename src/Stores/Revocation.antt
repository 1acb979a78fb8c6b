-- ===== src/Stores/Revocation.antt =====
-- How long a revoked token stays revoked in the memory of the process.
use apna_mandla.Prelude.{
  ℕ, ◌+◌, ◌*◌, ◌≤◌, ◌≡◌, ◌⊎◌, String, true, false, not, Option, none, some, arith, ltb, Bool-cases,
  inl, inr, ◌∙◌, ap,
}
use apna_mandla.Prelude.Text.{str_eq, eq_iff}
use apna_mandla.Stores.Dict.{
  dict_get, dict_get-set, dict_get-set_other, dict_get-keep_if, dict_get-pop_other,
}
use apna_mandla.Stores.{
  TokenStore, ttl_seconds, cleanup_jti_memory, revoke_jti, is_jti_revoked, set_revoke_before,
  Payload, is_access_token_revoked,
}

-- The entry of a token lasts at least until `until`.
record Lasts (jti : String) (until : ℕ) (s : TokenStore) : Type 0 where
  expiry : ℕ
  listed : dict_get jti s.jti_deny ≡ some expiry
  late : until ≤ expiry

ttl_seconds_lem :
    (until expires_at now : ℕ)
    → now ≤ until
    → until + 1_000_000 ≤ expires_at
    → until ≤ now + ttl_seconds expires_at now * 1_000_000
unfolding ttl_seconds
ttl_seconds_lem until expires_at now le far = ground arith

module _ (jti : String) (until : ℕ) where
  cleanup-Lasts :
      (now : ℕ) (s : TokenStore)
      → now ≤ until
      → Lasts jti until s
      → Lasts jti until (cleanup_jti_memory now s)
  unfolding cleanup_jti_memory
  cleanup-Lasts now s le l = record {
    expiry = l.expiry;
    listed =
        dict_get-keep_if jti l.expiry (λ e. not (ltb e.1 now)) s.jti_deny l.listed
          (λ x. ground (arith, l.late));
    late = l.late;
  }

  -- The calls of the process until then: other tokens are revoked, or this one again until it
  -- expires, any are checked, and users are logged out.
  pub data Call : TokenStore → TokenStore → Type 0 where
    revoking :
        (x : String) (expires_at now : ℕ) (s : TokenStore)
        → now ≤ until
        → (str_eq x jti ≡ false) ⊎ (until + 1_000_000 ≤ expires_at)
        → Call s (revoke_jti false x expires_at now s)
    checking :
        (x : String) (now : ℕ) (s : TokenStore)
        → now ≤ until
        → Call s (is_jti_revoked none x now s).1
    logging_out : (u now : ℕ) (s : TokenStore) → Call s (set_revoke_before false u now s)

  pub data Calls (start : TokenStore) : TokenStore → Type 0 where
    no_call : Calls start start
    one_more : {s s' : TokenStore} → Calls start s → Call s s' → Calls start s'

  revoked-Lasts :
      (expires_at now : ℕ) (s : TokenStore)
      → now ≤ until
      → until + 1_000_000 ≤ expires_at
      → Lasts jti until (revoke_jti false jti expires_at now s)
  unfolding revoke_jti
  revoked-Lasts expires_at now s le far = cleanup-Lasts now _ le (record {
    expiry = now + ttl_seconds expires_at now * 1_000_000;
    listed = dict_get-set jti _ s.jti_deny;
    late = ttl_seconds_lem until expires_at now le far;
  })

  checked-Lasts :
      (x : String) (now : ℕ) (s : TokenStore)
      → now ≤ until
      → Lasts jti until s
      → Lasts jti until (is_jti_revoked none x now s).1
  unfolding is_jti_revoked
  checked-Lasts x now s le l = elim (Bool-cases (str_eq x jti)) [
    | inl same ↦
        let found : dict_get x s.jti_deny ≡ some l.expiry =
          ap (λ y. dict_get y s.jti_deny) ((eq_iff x jti).0 same) ∙ l.listed in
        record {
          expiry = l.expiry;
          listed = ground (arith, found, l.listed, l.late);
          late = l.late;
        }
    | inr other ↦ record {
      expiry = l.expiry;
      listed = ground (arith, l.listed, dict_get-pop_other jti x s.jti_deny other);
      late = l.late;
    }
  ]

  Call-Lasts : {s s' : TokenStore} → Lasts jti until s → Call s s' → Lasts jti until s'
  unfolding revoke_jti is_jti_revoked set_revoke_before
  Call-Lasts l (revoking x expires_at now s le how) = elim (Bool-cases (str_eq x jti)) [
    | inr other ↦ cleanup-Lasts now _ le (record {
      expiry = l.expiry;
      listed = dict_get-set_other jti x _ s.jti_deny other ∙ l.listed;
      late = l.late;
    })
    | inl same ↦ elim how [
      | inl other ↦ absurd (cc (same, other))
      | inr far ↦ rw ((eq_iff x jti).0 same) (revoked-Lasts expires_at now s le far)
    ]
  ]
  Call-Lasts l (checking x now s le) = checked-Lasts x now s le l
  Call-Lasts l (logging_out u now s) = record {
    expiry = l.expiry;
    listed = l.listed;
    late = l.late;
  }

  Calls-Lasts : {start s : TokenStore} → Lasts jti until start → Calls start s → Lasts jti until s
  Calls-Lasts l no_call = l
  Calls-Lasts l (one_more r c) = Call-Lasts (Calls-Lasts l r) c

-- A token with a name that is not empty and that a logout has revoked in the memory of the process
-- is rejected until a second before it expires, whatever tokens are revoked or checked and users
-- logged out until then, if the token itself is revoked again only with an expiry as late.
pub is_access_token_revoked-lasts :
    (jti : String) (until expires_at now : ℕ) (start s : TokenStore) (before : Option (Option ℕ))
    (payload : Payload)
    → payload.jti ≡ some jti
    → str_eq jti "" ≡ false
    → now ≤ until
    → until + 1_000_000 ≤ expires_at
    → Calls jti until (revoke_jti false jti expires_at now start) s
    → (is_access_token_revoked none before payload until s).0 ≡ true
unfolding is_access_token_revoked is_jti_revoked
is_access_token_revoked-lasts jti until expires_at now start s before payload has named le far r =
    let l = Calls-Lasts jti until (revoked-Lasts jti until expires_at now start le far) r in
    ground (arith, l.listed, l.late, has, named)
