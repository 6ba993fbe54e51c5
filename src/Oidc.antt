-- ===== src/Oidc.antt =====
-- internal/oidc: what discovery found out about an issuer, and how the client authenticates.
-- `K` is the type of signing keys. `url.Parse` is a parameter.
pub mod Discovery
pub mod Token
pub mod Request
pub mod Exchange
pub mod Device
pub mod Callback
pub mod Client
pub mod Authcode
use oidc_token_cli.Base.{String, Option, List}

-- discoveryClaims (discovery.go). An empty list or text is a field that is absent.
pub record DiscoveryClaims : Type 0 where
  pub device_authorization_endpoint : String
  pub grant_types_supported : List String
  pub scopes_supported : List String
  pub code_challenge_methods_supported : List String

-- clientAuth (clientauth.go)
pub record ClientAuth (K : Type 0) : Type 0 where
  pub method : String
  pub secret : String
  pub signer : Option K
  pub key_id : String
  pub alg : String
  pub audience : String

abbrev pub client_auth_none : String
client_auth_none = ""

abbrev pub client_auth_secret_basic : String
client_auth_secret_basic = "client_secret_basic"

abbrev pub client_auth_secret_post : String
client_auth_secret_post = "client_secret_post"

abbrev pub client_auth_private_key_jwt : String
client_auth_private_key_jwt = "private_key_jwt"

-- Provider (discovery.go). `auth_url` and `token_url` are those of
-- `upstream.Endpoint()`; the id_token verifier is
-- a parameter of the functions that use it.
pub record Provider (K : Type 0) : Type 0 where
  pub issuer : String
  pub client_id : String
  pub audience : String
  pub auth_url : String
  pub token_url : String
  pub claims : DiscoveryClaims
  pub client_auth : ClientAuth K
