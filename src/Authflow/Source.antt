-- ===== src/Authflow/Source.antt =====
-- internal/authflow/select.go: Source, with its memoised discovery and its three operations.
pub mod Laws
use oidc_token_cli.Base.{
  ℕ, String, Bool, Option, none, some, List, ◌==◌, if◌then◌else◌, ltb, length, take, Error, message,
  Result, ok, err, M, ◌>>=◌,
}
use oidc_token_cli.Base.Json.{ℤ}
use oidc_token_cli.Output.{TokenResult, no_result}
use oidc_token_cli.Oidc.{Provider, ClientAuth}
use oidc_token_cli.Oidc.Discovery.{set_audience, set_client_auth}
use oidc_token_cli.Authflow.{
  Environment, terminal_attended, grant_authorization_code, grant_device_code_urn, plan, login_loop,
  max_interactive_attempts,
}

-- A writer that may be nil.
abbrev pub Writer : Type 0 → Type 0
Writer W = Option (String → W → W)

abbrev pub Extra : Type 0
Extra = List (String × List String)

-- The operations of grantSource that talk to the issuer.
pub record GrantFlows (W K : Type 0) : Type 0 where
  pub device_login : Provider K → String → Writer W → Extra → M W TokenResult
  pub auth_code_login :
      Provider K
      → String
      → ℤ
      → Option (String → M W (Unit {0}))
      → Writer W
      → Writer W
      → Extra
      → M W TokenResult
  pub refresh : Provider K → String → String → M W TokenResult
  pub token_exchange :
      Provider K → String → String → String → String → List String → Extra → M W TokenResult

-- Source. The six fields that configure client authentication are one record, as `SetClientAuth`
-- takes them. `provider` reads the field of that name from the world, and `keep` writes it.
pub record Source (W K : Type 0) : Type 0 where
  pub issuer : String
  pub client_id : String
  pub scope : String
  pub audience : String
  pub grant_type : String
  pub callback_port : ℤ
  pub non_interactive : Bool
  pub env : Environment
  pub open_browser : Option (String → M W (Unit {0}))
  pub prompt : Writer W
  pub extra_fields : Extra
  pub client_auth : ClientAuth K
  pub provider : W → Option (Provider K)
  pub keep : Provider K → W → W
  pub discover_func : String → String → M W (Provider K)
  pub flows : GrantFlows W K

module _ {W K : Type 0} (s : Source W K) where
  -- The discovered provider with the audience and the authentication of the source.
  unfoldable pub configured : Provider K → Provider K
  configured p = set_client_auth s.client_auth (set_audience s.audience p)

  abbrev remember : Result (Provider K) × W → Result (Provider K) × W
  remember (err e, w) = (err e, w)
  remember (ok p, w) = (ok (configured p), s.keep (configured p) w)

  unfoldable pub discover : M W (Provider K)
  unfolding configured
  discover w = elim (s.provider w) [
    | some p ↦ (ok p, w)
    | none ↦ remember (s.discover_func s.issuer s.client_id w)
  ]

  unfoldable pub refresh : String → M W TokenResult
  unfolding discover
  refresh refresh_token = do p ← discover; s.flows.refresh p s.scope refresh_token

  unfoldable pub token_exchange : String → String → String → List String → M W TokenResult
  unfolding discover
  token_exchange subject_token subject_token_type requested_token_type resources = do
    p ← discover
    s.flows.token_exchange p s.scope subject_token subject_token_type requested_token_type resources
        s.extra_fields

  unfoldable pub hint_writer : Writer W
  hint_writer = if terminal_attended s.env then s.prompt else none

  unfoldable pub attempt : Provider K → String → M W TokenResult
  unfolding hint_writer
  attempt p grant w =
      if grant == grant_device_code_urn
      then s.flows.device_login p s.scope s.prompt s.extra_fields w
      else if grant == grant_authorization_code
      then s.flows.auth_code_login p s.scope s.callback_port s.open_browser s.prompt hint_writer
          s.extra_fields w
      else (err (message "authflow: unknown grant"), w)

  abbrev warn_fallback : String → Error → W → W
  warn_fallback grant e w = elim s.prompt [
    | none ↦ w
    | some write ↦ write "warning: grant rejected; falling back to the other advertised grant" w
  ]

  abbrev truncated : List String → List String
  truncated order =
      if ltb max_interactive_attempts (length order)
      then take max_interactive_attempts order
      else order

  -- `lastErr` is nil before the loop.
  unfoldable pub login_with : Provider K → M W TokenResult
  unfolding attempt
  login_with p w = elim (plan p s.env s.non_interactive s.grant_type) [
    | err e ↦ (err e, w)
    | ok order ↦ login_loop (attempt p) warn_fallback (ok no_result) (truncated order) w
  ]

  unfoldable pub login : M W TokenResult
  unfolding discover login_with
  login = discover >>= login_with
