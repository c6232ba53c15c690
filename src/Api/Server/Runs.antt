-- ===== src/Api/Server/Runs.antt =====
-- A request without a valid key.
use goincus.Base.{ℕ, String, ◌≡◌, ◌≢◌, refl, false, ◌⊎◌, inl, inr}
use goincus.Config.{valid_api_key}
use goincus.System.{System, World}
use goincus.Api.Auth.Limit.{authenticate-served}
use goincus.Api.Auth.{Hits, is_public, authenticate, Outcome, served, too_many, unauthorized}
use goincus.Api.Server.{Request, ApiState, respond, serve}

module _ (S : System) where
  respond_rejected :
      (req : Request) (o : Outcome) (hits : Hits) (w : World S)
      → o ≢ served
      → ((respond S req o hits w).1.world ≡ w)
        × (((respond S req o hits w).0.status ≡ 401) ⊎ ((respond S req o hits w).0.status ≡ 429))
  unfolding respond
  respond_rejected req served hits w h = absurd (h refl)
  respond_rejected req too_many hits w h = (refl, inr refl)
  respond_rejected req unauthorized hits w h = (refl, inl refl)

  authenticate_rejects :
      (at_check at_fail : ℕ) (path ip key : String) (between : Hits → Hits) (hits : Hits)
      → is_public path ≡ false
      → valid_api_key S.cfg key ≡ false
      → (authenticate S.cfg at_check at_fail path ip key between hits).0 ≢ served
  authenticate_rejects at_check at_fail path ip key between hits hp hk e =
      elim (authenticate-served S.cfg at_check at_fail path ip key between hits e) [
        | inl open_path ↦ cc (open_path, hp)
        | inr (known, few) ↦ cc (known, hk)
      ]

  -- A request that is not for the health check and comes without a valid key changes nothing that the service
  -- keeps, whatever it asks for, and is answered with 401, or with 429 after too many attempts.
  pub serve_rejected :
      (at_check at_fail : ℕ) (path ip key : String) (between : Hits → Hits) (req : Request)
      (s : ApiState S)
      → is_public path ≡ false
      → valid_api_key S.cfg key ≡ false
      → let (response, after) = serve S at_check at_fail path ip key between req s in
        (after.world ≡ s.world) × ((response.status ≡ 401) ⊎ (response.status ≡ 429))
  unfolding serve
  serve_rejected at_check at_fail path ip key between req s hp hk =
      respond_rejected req (authenticate S.cfg at_check at_fail path ip key between s.hits).0 _
        s.world (authenticate_rejects at_check at_fail path ip key between s.hits hp hk)
