-- ===== src/Access/Kinds.antt =====
-- An access token is no refresh token, and the other way round: security.py of Backend/app/core.
use apna_mandla.Prelude.{ℕ, ◌+◌, ◌≡◌, ◌⊎◌, refl, String, Bool, none, some, arith, inl, inr}
use apna_mandla.Session.{http_exception}
use apna_mandla.Access.{
  Server, raised, serve, Outside, Claims, Request, truthy, access_claims, refresh_claims,
  decode_access_token, decode_refresh_token, subject, refresh_access_token, refresh_source,
  get_current_user,
}

-- A token decodes to the claims that it was made of, or the library raises, as on one that has
-- expired.
abbrev pub Decodes : Outside → Claims → Type 0
Decodes out c =
    (now : ℕ)
    → (out.jwt_decode now (out.jwt_encode c) ≡ none)
      ⊎ (out.jwt_decode now (out.jwt_encode c) ≡ some c)

module _ (out : Outside) (who jti other : String) (admin : Bool) (made later : ℕ)
    (access_law : Decodes out (access_claims out who admin jti made))
    (refresh_law : Decodes out (refresh_claims out who other later)) where
  access_not_refresh :
      (now : ℕ)
      → decode_refresh_token out now (out.jwt_encode (access_claims out who admin jti made)) ≡ none
  unfolding decode_refresh_token access_claims
  access_not_refresh now = elim (access_law now) [
    | inl raises ↦ ground arith
    | inr decoded ↦ ground arith
  ]

  refresh_not_access :
      (now : ℕ)
      → decode_access_token out now (out.jwt_encode (refresh_claims out who other later)) ≡ none
  unfolding decode_access_token refresh_claims
  refresh_not_access now = elim (refresh_law now) [
    | inl raises ↦ ground arith
    | inr decoded ↦ ground arith
  ]

  -- Where an access token and a refresh token that the program made decode to their claims or not
  -- at all: a refresh that is given the access token in its body, and a request that bears the
  -- refresh token as its access token, are answered 401 and change no table.
  pub kinds_apart :
      (rq : Request) (s : Server)
      → truthy rq.am_refresh_token ≡ none
      → truthy rq.body_token ≡ some (out.jwt_encode (access_claims out who admin jti made))
      → ((s' : Server) × (serve (refresh_access_token out rq) s ≡ raised (http_exception 401) s')
          × (s'.tables ≡ s.tables))
        × (s' : Server) × (serve
              (get_current_user out (some (out.jwt_encode (refresh_claims out who other later))))
              s
            ≡ raised (http_exception 401) s')
        × (s'.tables ≡ s.tables)
  unfolding serve refresh_access_token refresh_source subject get_current_user
  kinds_apart rq s no_cookie body =
      let late : Server = record s { ticks = s.ticks + 1 } in
      (
        (late, ground (arith, access_not_refresh (out.clock s.ticks)), refl),
        late,
        ground (arith, refresh_not_access (out.clock s.ticks)),
        refl,
      )
