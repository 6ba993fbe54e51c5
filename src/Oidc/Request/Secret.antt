-- ===== src/Oidc/Request/Secret.antt =====
-- Where postTokenRequest of internal/oidc/refresh.go puts the secret of the client.
use oidc_token_cli.Base.{
  ℕ, String, ◌≡◌, refl, ◌∙◌, inl, inr, Option, none, some, List, [], ◌∷◌, ◌==◌, if◌then◌else◌,
  lookup, lookup-insert, Result, ok, M, >>=-ok, pure, arith, Bool-cases,
}
use mathlib.Core.Path.{subst}
use oidc_token_cli.Oidc.{Provider, ClientAuth}
use oidc_token_cli.Oidc.Request.{
  Claims, Form, TokenRequest, set_value, sign_client_assertion, authenticate, token_request,
  client_assertion_lifetime, client_assertion_type,
}

ok-injective :
    {W A : Type 0} {a b : A} {u v : W} → ◌≡◌ {A = Result A × W} (ok a, u) (ok b, v) → a ≡ b
ok-injective h = ground arith

module _ {W K : Type 0} (random_state : M W String) (now : W → ℕ)
    (sign : ClientAuth K → Claims → Result String) (p : Provider K) where
  abbrev pub request : String → Form → TokenRequest
  request = token_request random_state now sign p

  -- Adding a field of another name keeps the client and the absence of a secret.
  abbrev Names : Option (List String) → Form → Type 0
  Names secret form =
      (lookup "client_id" form ≡ some (p.client_id ∷ [])) × (lookup "client_secret" form ≡ secret)

  identified-Names :
      (v : Form)
      → lookup "client_secret" v ≡ none
      → Names none (set_value "client_id" p.client_id v)
  identified-Names v unset = (
    lookup-insert "client_id" "client_id" _ v,
    lookup-insert "client_secret" "client_id" _ v ∙ unset,
  )

  secret-Names :
      (secret : String) (v : Form)
      → Names none v
      → Names (some (secret ∷ [])) (set_value "client_secret" secret v)
  secret-Names secret v (id, _) = (
    lookup-insert "client_id" "client_secret" _ v ∙ id,
    lookup-insert "client_secret" "client_secret" _ v,
  )

  assertion-Names :
      (assertion : String) (v : Form)
      → Names none v
      → Names none (
          set_value "client_assertion" assertion
            (set_value "client_assertion_type" client_assertion_type v))
  assertion-Names assertion v (id, unset) =
      let typed = set_value "client_assertion_type" client_assertion_type v in
      (
        lookup-insert "client_id" "client_assertion" _ typed
            ∙ lookup-insert "client_id" "client_assertion_type" _ v
            ∙ id,
        lookup-insert "client_secret" "client_assertion" _ typed
            ∙ lookup-insert "client_secret" "client_assertion_type" _ v
            ∙ unset,
      )

  authenticate-Names :
      (v form : Form) (w u : W)
      → lookup "client_secret" v ≡ none
      → authenticate random_state now sign p v w ≡ (ok form, u)
      → Names
          (if p.client_auth.method == "client_secret_post"
            then some (p.client_auth.secret ∷ [])
            else none)
          form
  unfolding authenticate
  authenticate-Names v form w u unset h =
      let start = identified-Names v unset in
      let identified = set_value "client_id" p.client_id v in
      elim (Bool-cases (p.client_auth.method == "client_secret_post")) [
        | inl post ↦ rw post (
            subst (Names (some (p.client_auth.secret ∷ []))) (ok-injective (rw post at h))
              (secret-Names p.client_auth.secret identified start))
        | inr not_post ↦
            rw not_post (elim (Bool-cases (p.client_auth.method == "private_key_jwt")) [
              | inl jwt ↦
                  let (assertion, w1, _, done) =
                    >>=-ok (sign_client_assertion random_state now sign p client_assertion_lifetime)
                      (λ a. pure (
                        set_value "client_assertion" a
                          (set_value "client_assertion_type" client_assertion_type identified)))
                      w (rw (not_post, jwt) at h) in
                  subst (Names none) (ok-injective done)
                    (assertion-Names assertion identified start)
              | inr other ↦ subst (Names none) (ok-injective (rw (not_post, other) at h)) start
            ])
      ]

  -- Of a form without a client_secret: once the client is authenticated, client_secret_basic puts
  -- the secret in the header alone, client_secret_post in the form alone, and any other method in
  -- neither. The form names the client.
  pub authenticate-secret :
      (url : String) (v form : Form) (w u : W)
      → lookup "client_secret" v ≡ none
      → authenticate random_state now sign p v w ≡ (ok form, u)
      → (lookup "client_id" form ≡ some (p.client_id ∷ []))
        × (lookup "client_secret" form ≡ (
            if p.client_auth.method == "client_secret_post"
            then some (p.client_auth.secret ∷ [])
            else none))
        × ((request url form).basic_auth ≡ (
            if p.client_auth.method == "client_secret_basic"
            then some (p.client_id, p.client_auth.secret)
            else none))
  unfolding token_request
  authenticate-secret url v form w u unset h =
      let (id, secret) = authenticate-Names v form w u unset h in (id, secret, refl)
