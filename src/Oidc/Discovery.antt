-- ===== src/Oidc/Discovery.antt =====
-- internal/oidc/discovery.go: issuer URLs, and what an issuer's discovery document permits.
pub mod Laws
use oidc_token_cli.Base.{
  String, ◌<>◌, Bool, true, false, not, ◌||◌, List, [], ◌∷◌, ◌++◌, ◌==◌, is_empty, if◌then◌else◌,
  any, contains, is_nil, Error, message, wrap, Result, ok, err, M,
}
use oidc_token_cli.Oidc.{Provider, DiscoveryClaims, ClientAuth}

-- The parts of a `url.URL` that are read.
pub record Url : Type 0 where
  pub scheme : String
  pub hostname : String

unfoldable pub validate_issuer_url : (String → Result Url) → String → Result (Unit {0})
validate_issuer_url parse raw = elim (parse raw) [
  | err e ↦ err (wrap "oidc: invalid issuer URL" e)
  | ok u ↦
      if u.scheme == "https"
      then ok tt
      else if u.scheme == "http"
      then if u.hostname == "127.0.0.1" || u.hostname == "::1"
        then ok tt
        else err (message "oidc: issuer must use https://")
      else err (message "oidc: issuer must use https:// (unsupported scheme)")
]

-- What `upstream.NewProvider` and `p.Claims` give: an endpoint and the claims, or an error.
-- Both are calls of go-oidc, which the parameters `new_provider` and `read_claims` stand for.
module _ {W K U : Type 0} (parse : String → Result Url) (new_provider : String → M W U)
    (auth_url token_url : U → String) (read_claims : U → Result DiscoveryClaims)
    (no_auth : ClientAuth K) where
  abbrev built : String → String → Result U × W → Result (Provider K) × W
  built issuer client_id (err e, w) = (err (wrap "oidc: discovery failed for issuer" e), w)
  built issuer client_id (ok u, w) = elim (read_claims u) [
    | err e ↦ (err (wrap "oidc: parse discovery document for issuer" e), w)
    | ok claims ↦ (
      ok (record {
        issuer = issuer;
        client_id = client_id;
        audience = "";
        auth_url = auth_url u;
        token_url = token_url u;
        claims = claims;
        client_auth = no_auth;
      }),
      w,
    )
  ]

  -- Discover
  unfoldable pub discover : String → String → M W (Provider K)
  unfolding validate_issuer_url
  discover issuer client_id w = elim (validate_issuer_url parse issuer) [
    | err e ↦ (err e, w)
    | ok o ↦ built issuer client_id (new_provider issuer w)
  ]

abbrev join_from : String → List String → String
join_from s [] = s
join_from s (x ∷ xs) = join_from (s <> ", " <> x) xs

-- `strings.Join(…, ", ")`
abbrev join_names : List String → String
join_names [] = ""
join_names (x ∷ xs) = join_from x xs

module _ {K : Type 0} where
  unfoldable pub set_audience : String → Provider K → Provider K
  set_audience audience p = record p { audience = audience }

  unfoldable pub set_client_auth : ClientAuth K → Provider K → Provider K
  set_client_auth auth p = record p { client_auth = auth }

  unfoldable pub supports_device_code : Provider K → Bool
  supports_device_code p = not (is_empty p.claims.device_authorization_endpoint)

  unfoldable pub supports_grant : Provider K → String → Bool
  supports_grant p grant =
      let listed = p.claims.grant_types_supported in is_nil listed || contains listed grant

  unfoldable pub advertised_grants : Provider K → String
  advertised_grants p =
      if not (is_nil p.claims.grant_types_supported)
      then join_names p.claims.grant_types_supported
      else join_names (
          "authorization_code"
          ∷ (if is_empty p.claims.device_authorization_endpoint
              then []
              else "urn:ietf:params:oauth:grant-type:device_code" ∷ []))

  unfoldable pub code_challenge_method : Provider K → Result String
  code_challenge_method p =
      let methods = p.claims.code_challenge_methods_supported in
      if is_nil methods
      then ok "S256"
      else if contains methods "S256"
      then ok "S256"
      else err (message "oidc: issuer advertises code_challenge_methods_supported without S256")
