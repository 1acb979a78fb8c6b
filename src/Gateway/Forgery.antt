-- ===== src/Gateway/Forgery.antt =====
-- Webhooks whose signature is not the HMAC of their body.
use apna_mandla.Prelude.{
  ◌≡◌, ◌≢◌, ◌⊎◌, refl, String, true, false, some, arith, inl, inr, Option-cases, sym,
}
use apna_mandla.Json.{Json}
use apna_mandla.Schema.{Db, GatewayProvider}
use apna_mandla.Env.{Env}
use apna_mandla.Session.{Error, err, runtime_error, bad_signature}
use apna_mandla.Gateway.{verify_signature, handle_webhook, handle_refund_webhook}

-- What the documentation of `hmac.compare_digest` says: it returns True only for equal texts.
pub record ComparesTexts (env : Env) : Type 0 where
  pub only_equal : (a b : String) → env.compare_digest a b ≡ some true → a ≡ b

module _ (env : Env) (sound : ComparesTexts env) (body signature secret : String)
    (forged : signature ≢ env.hmac secret body) where
  refused :
      (d : Db)
      → (e : Error) × ((e ≡ bad_signature) ⊎ (e ≡ runtime_error))
        × (verify_signature env body signature secret d ≡ err e)
  unfolding verify_signature
  refused d = elim (Option-cases (env.compare_digest (env.hmac secret body) signature)) [
    | inl failed ↦ (runtime_error, inr refl, ground arith)
    | inr (false, wrong) ↦ (bad_signature, inl refl, ground arith)
    | inr (true, equal) ↦ absurd (forged (sym (sound.only_equal _ _ equal)))
  ]

  -- If the comparison of digests finds only equal texts equal, both webhooks raise, in every
  -- state, for a signature that is not the HMAC of the body under the secret.
  pub webhooks-forged :
      (p : GatewayProvider) (payload : Json) (d : Db)
      → (e : Error) × ((e ≡ bad_signature) ⊎ (e ≡ runtime_error))
        × (handle_webhook env p body signature secret payload d ≡ err e)
        × (handle_refund_webhook env p body signature secret payload d ≡ err e)
  unfolding handle_webhook handle_refund_webhook
  webhooks-forged p payload d =
      let (e, which, fails) = refused d in (e, which, ground arith, ground arith)
