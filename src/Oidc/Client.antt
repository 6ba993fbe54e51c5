-- ===== src/Oidc/Client.antt =====
-- What the flows that go through the oauth2 package give it: the context with its HTTP client
-- (internal/oidc/httpclient.go), the client (oauth2Config of discovery.go, applyClientAuth of
-- clientauth.go) and the options of a request; and Refresh of refresh.go, which needs no more.
-- Parameters: `strings.Fields`, and a token source of the oauth2 package.
use oidc_token_cli.Base.{
  ◌≡◌, refl, ℕ, String, ◌+◌, Option, none, some, List, [], ◌∷◌, ◌++◌, ◌==◌, if◌then◌else◌, is_empty,
  wrap, Result, ok, M, ◌>>=◌, map_err,
}
use oidc_token_cli.Base.Json.{Json}
use oidc_token_cli.Output.{TokenResult}
use oidc_token_cli.Oidc.{
  Provider, ClientAuth, client_auth_secret_basic, client_auth_secret_post,
  client_auth_private_key_jwt,
}
use oidc_token_cli.Oidc.Token.{OauthToken, to_result}
use oidc_token_cli.Oidc.Request.{Claims, Form, TokenRequest, Response, TokenResponse}
use oidc_token_cli.Oidc.Exchange.{refresh_with_assertion}

-- What is read of a `context.Context`: its deadline, and the timeout of its HTTP client.
pub record Context : Type 0 where
  pub deadline : Option ℕ
  pub http_timeout : Option ℕ

-- 30 seconds.
abbrev pub default_http_timeout : ℕ
default_http_timeout = 30000000000

unfoldable pub with_http_client : Context → Context
with_http_client ctx = record ctx { http_timeout = some default_http_timeout }

-- `if _, hasDeadline := ctx.Deadline(); !hasDeadline { ctx, cancel = context.WithTimeout(ctx, d) }`
unfoldable pub with_own_deadline : ℕ → ℕ → Context → Context
with_own_deadline d now ctx = elim ctx.deadline [
  | none ↦ record ctx { deadline = some (now + d) }
  | some t ↦ ctx
]

-- A context that has been given a deadline, or had one, has one.
pub with_own_deadline-some :
    (d now : ℕ) (ctx : Context) → (t : ℕ) × ((with_own_deadline d now ctx).deadline ≡ some t)
unfolding with_own_deadline
with_own_deadline-some d now ctx = go ctx.deadline refl
  where
    go :
        (o : Option ℕ)
        → ctx.deadline ≡ o
        → (t : ℕ) × ((with_own_deadline d now ctx).deadline ≡ some t)
    go none is = (now + d, cc is)
    go (some t) is = (t, cc is)

-- `oauth2.AuthStyle`
pub data AuthStyle : Type 0 where
  auto_detect in_params in_header : AuthStyle

-- `oauth2.Config`, with its `Endpoint`.
pub record OauthConfig : Type 0 where
  pub client_id : String
  pub client_secret : String
  pub auth_url : String
  pub token_url : String
  pub device_auth_url : String
  pub auth_style : AuthStyle
  pub redirect_url : String
  pub scopes : List String

-- `oauth2.AuthCodeOption`, by the functions that make one.
pub data AuthCodeOption : Type 0 where
  s256_challenge : String → AuthCodeOption
  nonce_option : String → AuthCodeOption
  verifier_option : String → AuthCodeOption
  set_auth_url_param : String → String → AuthCodeOption

-- What an interactive login calls: randomState, `time.Now`, the JWT signer, the id_token verifier
-- and `strings.Fields`.
pub record Calls (W K : Type 0) : Type 0 where
  pub random_state : M W String
  pub now : W → ℕ
  pub sign : ClientAuth K → Claims → Result String
  pub verify : String → M W String
  pub fields : String → List String

module _ {K : Type 0} (p : Provider K) where
  -- applyClientAuth
  unfoldable pub apply_client_auth : OauthConfig → OauthConfig
  apply_client_auth cfg =
      if p.client_auth.method == client_auth_secret_basic
      then record cfg { client_secret = p.client_auth.secret; auth_style = in_header }
      else if p.client_auth.method == client_auth_secret_post
      then record cfg { client_secret = p.client_auth.secret; auth_style = in_params }
      else cfg

  -- oauth2Config. go-oidc leaves the style of authentication open.
  unfoldable pub oauth_config : (String → List String) → String → OauthConfig
  unfolding apply_client_auth
  oauth_config fields scope =
      let cfg : OauthConfig = record {
        client_id = p.client_id;
        client_secret = "";
        auth_url = p.auth_url;
        token_url = p.token_url;
        device_auth_url = p.claims.device_authorization_endpoint;
        auth_style = auto_detect;
        redirect_url = "";
        scopes = fields scope;
      } in
      apply_client_auth cfg

  -- `if p.Audience != "" { opts = append(opts, oauth2.SetAuthURLParam("audience", p.Audience)) }`
  unfoldable pub audience_options : List AuthCodeOption
  audience_options =
      if is_empty p.audience then [] else set_auth_url_param "audience" p.audience ∷ []

-- An option for each pair of the client assertion.
unfoldable pub param_options : List (String × String) → List AuthCodeOption
param_options [] = []
param_options ((key, value) ∷ params) = set_auth_url_param key value ∷ param_options params

abbrev pub value_options : String → List String → List AuthCodeOption
value_options key [] = []
value_options key (value ∷ values) = set_auth_url_param key value ∷ value_options key values

-- `for k, vs := range extraFields { for _, v := range vs { … } }`
unfoldable pub field_options : Form → List AuthCodeOption
field_options [] = []
field_options ((key, values) ∷ extra) = value_options key values ++ field_options extra

-- `return p.toResult(ctx, tok, nonce)`
abbrev pub resulted : {W : Type 0} → (String → M W String) → OauthToken → String → M W TokenResult
resulted verify tok nonce w = let (res, v) = to_result verify tok nonce w in (ok res, v)

module _ {W K : Type 0} (random_state : M W String) (now : W → ℕ)
    (sign : ClientAuth K → Claims → Result String) (post : TokenRequest → M W Response)
    (decode : String → Result TokenResponse) (decode_map : String → List (String × Json))
    (verify : String → M W String) (fields : String → List String)
    (token_source : Context → OauthConfig → String → M W OauthToken) (p : Provider K) where
  -- Refresh
  unfoldable pub refresh : Context → String → String → M W TokenResult
  unfolding with_http_client oauth_config refresh_with_assertion to_result
  refresh ctx scope refresh_token w =
      if p.client_auth.method == client_auth_private_key_jwt
      then refresh_with_assertion random_state now sign post decode decode_map verify p
          refresh_token w
      else (do
        tok ←
            map_err (wrap "oidc: refresh failed")
              (token_source (with_http_client ctx) (oauth_config p fields scope) refresh_token)
        resulted verify tok "")
          w
