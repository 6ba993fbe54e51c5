-- ===== src/Oidc/Device/Login.antt =====
-- DeviceLogin of internal/oidc/device.go.
-- Parameters: the random source, the clock and the signer, the id_token verifier, and the calls of
-- the oauth2 package, which asks for a device code and polls the token endpoint.
pub mod Laws
use oidc_token_cli.Base.{
  ℕ, String, ◌<>◌, Bool, Option, none, some, List, [], ◌∷◌, ◌++◌, ◌==◌, is_empty, not,
  if◌then◌else◌, message, wrap, Result, ok, err, M, ◌>>=◌, map_err, fail,
}
use oidc_token_cli.Output.{TokenResult, is_zero}
use oidc_token_cli.Oidc.{Provider, ClientAuth}
use oidc_token_cli.Oidc.Discovery.{supports_grant, supports_device_code}
use oidc_token_cli.Oidc.Token.{OauthToken, to_result}
use oidc_token_cli.Oidc.Request.{Claims, Form, client_assertion_options}
use oidc_token_cli.Oidc.Client.{
  Calls, Context, with_http_client, with_own_deadline, OauthConfig, oauth_config, AuthCodeOption,
  audience_options, param_options, field_options, resulted,
}
use oidc_token_cli.Oidc.Device.{device_assertion_lifetime}

-- 15 minutes.
abbrev pub device_login_fallback_timeout : ℕ
device_login_fallback_timeout = 900000000000

-- What is read of an `oauth2.DeviceAuthResponse`; an expiry of 0 is the zero time.
pub record DeviceAuth : Type 0 where
  pub device_code : String
  pub user_code : String
  pub verification_uri : String
  pub verification_uri_complete : String
  pub expiry : ℕ

pub record DeviceFlow (W : Type 0) : Type 0 where
  pub device_auth : Context → OauthConfig → List AuthCodeOption → M W DeviceAuth
  pub device_access_token :
      Context → OauthConfig → DeviceAuth → List AuthCodeOption → M W OauthToken

unfoldable pub instructions : DeviceAuth → String
instructions da =
    let uri =
      if is_empty da.verification_uri_complete
      then da.verification_uri
      else da.verification_uri_complete in
    "To sign in, visit:\n\n  " <> uri <> "\n\nand enter the code: " <> da.user_code <> "\n\n"

-- The context of the poll loop.
unfoldable pub poll_context : ℕ → DeviceAuth → Context → Context
unfolding with_own_deadline
poll_context now da ctx =
    if is_zero da.expiry then with_own_deadline device_login_fallback_timeout now ctx else ctx

module _ {W K : Type 0} (calls : Calls W K) (flow : DeviceFlow W) (prompt : String → W → W)
    (p : Provider K) (extra : Form) where
  -- The single request that polls, with one assertion for the whole loop.
  unfoldable pub poll : Context → OauthConfig → DeviceAuth → M W TokenResult
  unfolding device_assertion_lifetime client_assertion_options audience_options param_options
      field_options to_result
  poll ctx cfg da w =
      (do
        assertion ←
            client_assertion_options calls.random_state calls.now calls.sign p
              (device_assertion_lifetime (calls.now w) da.expiry)
        tok ← map_err (wrap "oidc: device-code token exchange failed") (
            flow.device_access_token ctx cfg da
              (audience_options p ++ (param_options assertion ++ field_options extra)))
        resulted calls.verify tok "")
        w

  unfoldable pub authorized : Context → OauthConfig → DeviceAuth → M W TokenResult
  unfolding instructions poll_context poll
  authorized ctx cfg da w =
      let v = prompt (instructions da) w in poll (poll_context (calls.now v) da ctx) cfg da v

  unfoldable pub device_flow : Context → String → M W TokenResult
  unfolding oauth_config audience_options authorized
  device_flow ctx scope = do
    da ←
        map_err (wrap "oidc: device authorization request failed")
          (flow.device_auth ctx (oauth_config p calls.fields scope) (audience_options p))
    authorized ctx (oauth_config p calls.fields scope) da

  -- DeviceLogin
  unfoldable pub device_login : Context → String → M W TokenResult
  unfolding supports_device_code supports_grant with_http_client device_flow
  device_login ctx scope w =
      if not (supports_device_code p)
      then fail (message "oidc: issuer does not advertise device_authorization_endpoint") w
      else if not (supports_grant p "urn:ietf:params:oauth:grant-type:device_code")
      then fail (message "oidc: issuer advertises grant_types_supported without device-code") w
      else device_flow (with_http_client ctx) scope w
