-- ===== src/Oidc/Authcode.antt =====
-- AuthCodeLogin of internal/oidc/authcode.go.
-- Parameters: the random source, the clock and the signer; the listener, and what arrives at it;
-- the oauth2 package, which makes the URL and exchanges the code; the id_token verifier.
pub mod Laws
pub mod Closed
use oidc_token_cli.Base.{
  ℕ, String, ◌<>◌, Bool, Option, none, some, List, [], ◌∷◌, ◌++◌, ◌==◌, if◌then◌else◌, not, Error,
  message, wrap, Result, ok, err, M, ◌>>=◌, map_err, fail,
}
use oidc_token_cli.Base.Json.{ℤ}
use oidc_token_cli.Output.{TokenResult}
use oidc_token_cli.Oidc.{Provider, ClientAuth}
use oidc_token_cli.Oidc.Discovery.{supports_grant, code_challenge_method}
use oidc_token_cli.Oidc.Token.{OauthToken, to_result}
use oidc_token_cli.Oidc.Request.{Claims, Form, client_assertion_lifetime, client_assertion_options}
use oidc_token_cli.Oidc.Client.{
  Calls, Context, with_http_client, with_own_deadline, OauthConfig, oauth_config, AuthCodeOption,
  s256_challenge, nonce_option, verifier_option, audience_options, param_options, field_options,
  resulted,
}
use oidc_token_cli.Oidc.Callback.{Event, await_callback}

-- 5 minutes.
abbrev pub auth_code_timeout : ℕ
auth_code_timeout = 300000000000

-- `net.Listener`: `tcp_port` is what `ln.Addr().(*net.TCPAddr)` gives, `close` is `ln.Close`. `serve`
-- waits while requests arrive, and gives what happened until the context ends, and its error; the
-- server is shut down or closed once awaitCallback has its answer, which closes the listener.
pub record Loopback (W L : Type 0) : Type 0 where
  pub listen : Context → ℤ → M W L
  pub tcp_port : L → Option ℕ
  pub close : L → W → W
  pub serve : Context → L → W → (List Event × Error) × W
  pub shutdown : L → W → W

-- The calls of the oauth2 package.
pub record Oauth (W : Type 0) : Type 0 where
  pub generate_verifier : W → String × W
  pub auth_code_url : OauthConfig → String → List AuthCodeOption → String
  pub exchange : Context → OauthConfig → String → List AuthCodeOption → M W OauthToken

module _ {W : Type 0} where
  abbrev warn : Option (String → W → W) → Result (Unit {0}) × W → W
  warn none (outcome, w) = w
  warn (some write) (ok o, w) = w
  warn (some write) (err e, w) = write "warning: could not open a browser automatically\n" w

  abbrev pub browse : Option (String → M W (Unit {0})) → Option (String → W → W) → String → W → W
  browse none prompt url w = w
  browse (some open_browser) prompt url w = warn prompt (open_browser url w)

  abbrev pub hinted : Option (String → W → W) → String → W → W
  hinted none url w = w
  hinted (some write) url w = write ("To sign in, visit:\n\n  " <> url <> "\n\n") w

abbrev pub redirect_uri : (ℕ → String) → ℕ → String
redirect_uri show_port port = "http://127.0.0.1:" <> show_port port <> "/callback"

abbrev pub url_options : {K : Type 0} → Provider K → String → String → List AuthCodeOption
url_options p verifier nonce = s256_challenge verifier ∷ nonce_option nonce ∷ audience_options p

module _ {W L : Type 0} (net : Loopback W L) where
  -- `if err != nil { _ = ln.Close(); return … }`
  abbrev pub closing : {A : Type 0} → L → Result A × W → Result A × W
  closing ln (ok a, w) = (ok a, w)
  closing ln (err e, w) = (err e, net.close ln w)

  -- A random text, or the listener is closed.
  unfoldable pub drawn : L → String → M W String → M W String
  drawn ln text random_state w = closing ln (map_err (wrap text) random_state w)

  -- `awaitCallback(ctx, ln, state)`
  unfoldable pub await : Context → L → String → M W String
  unfolding await_callback
  await ctx ln state w =
      let ((events, ended), v) = net.serve ctx ln w in
      (await_callback state events ended, net.shutdown ln v)

module _ {W K L : Type 0} (calls : Calls W K) (show_port : ℕ → String) (net : Loopback W L)
    (oauth : Oauth W) (p : Provider K) where
  -- From the code to the result.
  unfoldable pub redeem : Context → OauthConfig → Form → String → String → String → M W TokenResult
  unfolding client_assertion_options param_options field_options to_result
  redeem ctx cfg extra verifier nonce code = do
    assertion ←
        client_assertion_options calls.random_state calls.now calls.sign p client_assertion_lifetime
    tok ← map_err (wrap "oidc: authorization code exchange failed") (
        oauth.exchange ctx cfg code
          (verifier_option verifier ∷ (param_options assertion ++ field_options extra)))
    resulted calls.verify tok nonce

  abbrev pub config_for : String → ℕ → OauthConfig
  config_for scope port = record (oauth_config p calls.fields scope) {
    redirect_url = redirect_uri show_port port;
  }

  -- `prompt` gets the warnings, `hint` the URL.
  module _ (open_browser : Option (String → M W (Unit {0}))) (prompt hint : Option (String → W → W))
      (extra : Form) where
    -- The URL is opened and shown.
    unfoldable pub shown : OauthConfig → String → String → String → W → W
    unfolding audience_options
    shown cfg verifier state nonce w =
        let url = oauth.auth_code_url cfg state (url_options p verifier nonce) in
        hinted hint url (browse open_browser prompt url w)

    unfoldable pub ask : Context → L → OauthConfig → String → String → String → M W TokenResult
    unfolding shown await redeem
    ask ctx ln cfg verifier state nonce w =
        (await net ctx ln state >>= redeem ctx cfg extra verifier nonce)
          (shown cfg verifier state nonce w)

    unfoldable pub draw : Context → L → OauthConfig → M W TokenResult
    unfolding drawn ask
    draw ctx ln cfg w =
        let (verifier, v) = oauth.generate_verifier w in
        (do
          state ← drawn net ln "oidc: generate state" calls.random_state
          nonce ← drawn net ln "oidc: generate nonce" calls.random_state
          ask ctx ln cfg verifier state nonce)
          v

    abbrev pub login_at : Context → String → L → Option ℕ → M W TokenResult
    login_at ctx scope ln none w =
        (err (message "oidc: unexpected listener address type"), net.close ln w)
    login_at ctx scope ln (some port) w = draw ctx ln (config_for scope port) w

    unfoldable pub login_on : Context → String → L → M W TokenResult
    unfolding oauth_config draw
    login_on ctx scope ln = login_at ctx scope ln (net.tcp_port ln)

    -- After the checks; `ctx` has its deadline and its HTTP client.
    unfoldable pub bind_and_login : Context → String → ℤ → M W TokenResult
    unfolding login_on
    bind_and_login ctx scope port = do
      ln ← map_err (wrap "oidc: bind loopback callback listener") (net.listen ctx port)
      login_on ctx scope ln

    -- AuthCodeLogin
    unfoldable pub auth_code_login : Context → String → ℤ → M W TokenResult
    unfolding supports_grant code_challenge_method with_own_deadline with_http_client bind_and_login
    auth_code_login ctx scope port w =
        if not (supports_grant p "authorization_code")
        then fail (message "oidc: issuer does not support the authorization_code grant") w
        else elim (code_challenge_method p) [
          | err e ↦ fail e w
          | ok method ↦
              bind_and_login
                (with_http_client (with_own_deadline auth_code_timeout (calls.now w) ctx)) scope
                port w
        ]
