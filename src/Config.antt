-- ===== src/Config.antt =====
-- internal/config/config.go: the resolved configuration. `K` is the type of signing keys
-- (`crypto.Signer`). Typed string fields (GrantType, TokenType, OutputFormat, Backend,
-- ClientAuthMethod) are texts, as in the source, and any text can stand there.
pub mod Validate
pub mod Resolve
pub mod Parse
pub mod Usage
pub mod Extra
pub mod Arguments
pub mod Fields
use oidc_token_cli.Base.{ℕ, String, Bool, Option, List}
use oidc_token_cli.Base.Json.{ℤ}

-- Config
pub record Config (K : Type 0) : Type 0 where
  pub issuer : String
  pub client_id : String
  pub scope : String
  pub audience : String
  pub grant_type : String
  pub token_type : String
  pub token_store_dir : String
  pub token_store : String
  pub redirect_port : ℤ
  pub non_interactive : Bool
  pub format : String
  pub all : Bool
  pub logout : Bool
  pub extra_fields : List (String × List String)
  pub client_auth_method : String
  pub client_secret : String
  pub private_key_path : String
  pub private_key_id : String
  pub private_key_signing_alg : String
  pub client_assertion_audience : String
  pub private_key : Option K
  pub subject_token : String
  pub subject_token_type : String
  pub requested_token_type : String
  pub resources : List String
  pub subject_token_source : String
