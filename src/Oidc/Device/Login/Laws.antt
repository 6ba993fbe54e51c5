-- ===== src/Oidc/Device/Login/Laws.antt =====
-- What a login through internal/oidc/device.go has gone through when it succeeds, and when it is
-- refused before anything is done.
use oidc_token_cli.Base.{
  ℕ, String, ◌≡◌, ◌≢◌, refl, sym, ap, ◌∙◌, true, false, ◌⊎◌, inl, inr, Bool-cases, some, List, ◌++◌,
  Error, message, wrap, ok, err, >>=-ok, >>=-map_err-ok,
}
use oidc_token_cli.Output.{TokenResult, is_zero}
use oidc_token_cli.Oidc.{Provider}
use oidc_token_cli.Oidc.Discovery.{supports_grant, supports_device_code}
use oidc_token_cli.Oidc.Token.{OauthToken, to_result}
use oidc_token_cli.Oidc.Token.Laws.{IsAccepted, to_result-accepted}
use oidc_token_cli.Oidc.Request.{Form, client_assertion_options}
use oidc_token_cli.Oidc.Client.{
  Calls, Context, OauthConfig, oauth_config, audience_options, with_http_client, param_options,
  field_options, with_own_deadline-some,
}
use oidc_token_cli.Oidc.Device.{device_assertion_lifetime}
use oidc_token_cli.Oidc.Device.Login.{
  DeviceAuth, DeviceFlow, instructions, poll_context, poll, authorized, device_flow, device_login,
  device_login_fallback_timeout,
}

-- Polling comes to an end: the device code expires, or the context does.
abbrev pub IsBounded : Context → DeviceAuth → Type 0
IsBounded ctx da = (da.expiry ≢ 0) ⊎ ((t : ℕ) × (ctx.deadline ≡ some t))

poll_context-IsBounded :
    (now : ℕ) (da : DeviceAuth) (ctx : Context) → IsBounded (poll_context now da ctx) da
unfolding poll_context
poll_context-IsBounded now da ctx = elim (Bool-cases (is_zero da.expiry)) [
  | inl unknown ↦
      let (t, is) = with_own_deadline-some device_login_fallback_timeout now ctx in
      inr (t, rw unknown is)
  | inr known ↦ inl (λ zero_time. cc (sym known ∙ ap is_zero zero_time))
]

module _ {W K : Type 0} (calls : Calls W K) (flow : DeviceFlow W) (prompt : String → W → W)
    (p : Provider K) (extra : Form) where
  -- From `w` on, the client's assertion was made and polling for this device code with it gave the
  -- tokens; an id_token among them is accepted.
  abbrev pub IsPolled : Context → OauthConfig → DeviceAuth → W → TokenResult → Type 0
  IsPolled ctx cfg da w res =
      (assertion : List (String × String)) × (u v : W) × (tok : OauthToken)
      × (client_assertion_options calls.random_state calls.now calls.sign p
            (device_assertion_lifetime (calls.now w) da.expiry) w
          ≡ (ok assertion, u))
      × (flow.device_access_token ctx cfg da
            (audience_options p ++ (param_options assertion ++ field_options extra)) u
          ≡ (ok tok, v))
      × (res ≡ (to_result calls.verify tok "" v).0)
      × (res.id_token ≢ "" → IsAccepted calls.verify tok "" v)

  poll-IsPolled :
      (ctx : Context) (cfg : OauthConfig) (da : DeviceAuth) (w v : W) (res : TokenResult)
      → poll calls flow prompt p extra ctx cfg da w ≡ (ok res, v)
      → IsPolled ctx cfg da w res
  unfolding poll
  poll-IsPolled ctx cfg da w v res h =
      let (assertion, w1, minted, rest) =
        >>=-ok
          (client_assertion_options calls.random_state calls.now calls.sign p
            (device_assertion_lifetime (calls.now w) da.expiry))
          _ w h in
      let (tok, u, exchanged, got) =
        >>=-map_err-ok (wrap "oidc: device-code token exchange failed")
          (flow.device_access_token ctx cfg da _) _ w1 rest in
      let same : res ≡ (to_result calls.verify tok "" u).0 = cc got in
      (
        assertion,
        w1,
        u,
        tok,
        minted,
        exchanged,
        same,
        λ present.
            (to_result-accepted calls.verify tok "" u
              (λ empty. present (ap (λ r. r.id_token) same ∙ empty))).0,
      )

  -- The issuer offers device codes; one was obtained; its instructions were shown, and the poll for
  -- it, which follows and comes to an end, gave the tokens.
  abbrev pub IsDeviceLogin : Context → String → W → TokenResult → Type 0
  IsDeviceLogin ctx scope w res =
      (supports_device_code p ≡ true)
      × (supports_grant p "urn:ietf:params:oauth:grant-type:device_code" ≡ true)
      × (da : DeviceAuth) × (u : W) × (shown : W) × (polling : Context) × (flow.device_auth
            (with_http_client ctx) (oauth_config p calls.fields scope) (audience_options p) w
          ≡ (ok da, u))
      × (shown ≡ prompt (instructions da) u)
      × (polling ≡ poll_context (calls.now shown) da (with_http_client ctx))
      × IsBounded polling da
      × IsPolled polling (oauth_config p calls.fields scope) da shown res

  flow-IsDeviceLogin :
      (ctx : Context) (scope : String) (w v : W) (res : TokenResult)
      → supports_device_code p ≡ true
      → supports_grant p "urn:ietf:params:oauth:grant-type:device_code" ≡ true
      → device_flow calls flow prompt p extra (with_http_client ctx) scope w ≡ (ok res, v)
      → IsDeviceLogin ctx scope w res
  unfolding device_flow authorized
  flow-IsDeviceLogin ctx scope w v res offers supported h =
      let (da, u, asked, rest) =
        >>=-map_err-ok (wrap "oidc: device authorization request failed")
          (flow.device_auth (with_http_client ctx) (oauth_config p calls.fields scope)
            (audience_options p))
          _ w h in
      (
        offers,
        supported,
        da,
        u,
        prompt (instructions da) u,
        _,
        asked,
        refl,
        refl,
        poll_context-IsBounded (calls.now (prompt (instructions da) u)) da (with_http_client ctx),
        poll-IsPolled _ _ da (prompt (instructions da) u) v res rest,
      )

  begun :
      (ctx : Context) (scope : String) (w : W)
      → supports_device_code p ≡ true
      → supports_grant p "urn:ietf:params:oauth:grant-type:device_code" ≡ true
      → device_login calls flow prompt p extra ctx scope w
        ≡ device_flow calls flow prompt p extra (with_http_client ctx) scope w
  unfolding device_login
  begun ctx scope w offers supported = rw (offers, supported) refl

  -- Where the issuer has no endpoint for device codes, or lists grants without theirs, the login
  -- fails and nothing has been done: no request, and nothing was shown.
  pub device_login_refuses :
      (ctx : Context) (scope : String) (w : W)
      → (supports_device_code p ≡ false)
        ⊎ (supports_grant p "urn:ietf:params:oauth:grant-type:device_code" ≡ false)
      → (e : Error) × (device_login calls flow prompt p extra ctx scope w ≡ (err e, w))
  unfolding device_login
  device_login_refuses ctx scope w (inl other) =
      (message "oidc: issuer does not advertise device_authorization_endpoint", cc other)
  device_login_refuses ctx scope w (inr other) = elim (Bool-cases (supports_device_code p)) [
    | inl offers ↦ (
      message "oidc: issuer advertises grant_types_supported without device-code",
      rw (offers, other) refl,
    )
    | inr no_endpoint ↦
        (message "oidc: issuer does not advertise device_authorization_endpoint", cc no_endpoint)
  ]

  -- A login by device code that succeeds went like this: the issuer has an endpoint for device codes
  -- and allows the grant; a device code was obtained; its instructions were written to the prompt;
  -- from there on the client's assertion, whose lifetime is counted from then, was made, and polling
  -- with it gave the tokens, in a context that ends or for a code that expires. If the result has an
  -- id_token, it was verified.
  pub device_login-IsDeviceLogin :
      (ctx : Context) (scope : String) (w v : W) (res : TokenResult)
      → device_login calls flow prompt p extra ctx scope w ≡ (ok res, v)
      → IsDeviceLogin ctx scope w res
  device_login-IsDeviceLogin ctx scope w v res h = elim (Bool-cases (supports_device_code p)) [
    | inl offers ↦
        elim (Bool-cases (supports_grant p "urn:ietf:params:oauth:grant-type:device_code")) [
          | inl supported ↦
              flow-IsDeviceLogin ctx scope w v res offers supported
                (sym (begun ctx scope w offers supported) ∙ h)
          | inr other ↦ absurd (cc (sym h ∙ (device_login_refuses ctx scope w (inr other)).1))
        ]
    | inr other ↦ absurd (cc (sym h ∙ (device_login_refuses ctx scope w (inl other)).1))
  ]
