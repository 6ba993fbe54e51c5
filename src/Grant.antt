-- ===== src/Grant.antt =====
-- internal/grant: what the three grants contribute to the configuration.
pub mod TokenExchange
pub mod Kinds
use oidc_token_cli.Base.{String, List}
use oidc_token_cli.Base.Json.{ℤ, pos}

-- ConfigBridge
pub record ConfigBridge : Type 0 where
  pub subject_token : String
  pub subject_token_type : String
  pub requested_token_type : String
  pub resources : List String
  pub subject_token_source : String
  pub redirect_port : ℤ
