-- ===== src/Authflow/Flows.antt =====
-- The operations of internal/oidc behind the interface grantSource of internal/authflow/select.go,
-- and what a login and a refresh through the source then give.
use oidc_token_cli.Base.{
  ◌⊎◌, Listed, eq_iff, ℕ, String, ◌≡◌, ◌≢◌, sym, ap, ◌∙◌, inl, inr, Bool-cases, List, ◌==◌, if_true,
  wrap, Result, ok, M, >>=-map_err-ok,
}
use oidc_token_cli.Base.Json.{Json}
use oidc_token_cli.Output.{TokenResult}
use oidc_token_cli.Oidc.{Provider, client_auth_private_key_jwt}
use oidc_token_cli.Oidc.Token.{OauthToken, to_result}
use oidc_token_cli.Oidc.Token.Laws.{IsAccepted, to_result-accepted}
use oidc_token_cli.Oidc.Request.{TokenRequest, Response, TokenResponse, post_token_request}
use oidc_token_cli.Oidc.Exchange.{token_exchange, refresh_with_assertion}
use oidc_token_cli.Oidc.Client.{
  Calls, Context, OauthConfig, oauth_config, with_http_client, refresh,
}
use oidc_token_cli.Oidc.Authcode.{Loopback, Oauth, auth_code_login}
use oidc_token_cli.Oidc.Authcode.Laws.{IsLoggedIn, auth_code_login-IsLoggedIn}
use oidc_token_cli.Oidc.Device.Login.{DeviceFlow, device_login}
use oidc_token_cli.Oidc.Device.Login.Laws.{IsDeviceLogin, device_login-IsDeviceLogin}
use oidc_token_cli.Authflow.{grant_authorization_code, grant_device_code_urn}
use oidc_token_cli.Authflow.Plan.{wanted_order}
use oidc_token_cli.Authflow.Source.{Source, GrantFlows, attempt, login, discover, hint_writer}
use oidc_token_cli.Authflow.Source.Laws.{login-ok}

module _ {W K L : Type 0} (calls : Calls W K) (show_port : ℕ → String) (net : Loopback W L)
    (oauth : Oauth W) (flow : DeviceFlow W) (post : TokenRequest → M W Response)
    (decode : String → Result TokenResponse) (decode_map : String → List (String × Json))
    (token_source : Context → OauthConfig → String → M W OauthToken) (ctx : Context)
    (stderr : String → W → W) where
  -- *oidc.Provider as a grantSource. The prompt of a device login is standard error, which is what
  -- newRealSource sets; DeviceLogin does not allow for a nil one.
  abbrev pub provider_flows : GrantFlows W K
  provider_flows = record {
    device_login = λ p scope prompt extra. device_login calls flow stderr p extra ctx scope;
    auth_code_login = λ p scope port open_browser prompt hint extra.
        auth_code_login calls show_port net oauth p open_browser prompt hint extra ctx scope port;
    refresh = λ p scope refresh_token.
        refresh calls.random_state calls.now calls.sign post decode decode_map calls.verify
          calls.fields token_source p ctx scope refresh_token;
    token_exchange =
        λ p scope subject_token subject_token_type requested_token_type resources extra.
          token_exchange calls.random_state calls.now calls.sign post decode decode_map calls.verify
            p scope subject_token subject_token_type requested_token_type resources extra;
  }

  -- The result is that of a token response; its id_token, if it has one, was accepted by the
  -- verifier, with the nonce of the login if it had one.
  abbrev pub IsVerified : TokenResult → Type 0
  IsVerified res =
      (tok : OauthToken) × (nonce : String) × (u : W) × (res
        ≡ (to_result calls.verify tok nonce u).0)
      × (res.id_token ≢ "" → IsAccepted calls.verify tok nonce u)

  resulted-IsVerified :
      (tok : OauthToken) (u : W) (res : TokenResult)
      → res ≡ (to_result calls.verify tok "" u).0
      → IsVerified res
  resulted-IsVerified tok u res same = (
    tok,
    "",
    u,
    same,
    λ present.
        (to_result-accepted calls.verify tok "" u
          (λ empty. present (ap (λ r. r.id_token) same ∙ empty))).0,
  )

  assertion-IsVerified :
      (p : Provider K) (refresh_token : String) (w v : W) (res : TokenResult)
      → refresh_with_assertion calls.random_state calls.now calls.sign post decode decode_map
          calls.verify p refresh_token w
        ≡ (ok res, v)
      → IsVerified res
  unfolding refresh_with_assertion
  assertion-IsVerified p refresh_token w v res h =
      let (tok, u, _, got) =
        >>=-map_err-ok (wrap "oidc: refresh failed")
          (post_token_request calls.random_state calls.now calls.sign post decode decode_map p
            p.token_url _)
          _ w h in
      resulted-IsVerified tok u res (cc got)

  -- A refresh that succeeds gives the tokens of a token response; an id_token among them was verified.
  pub refresh-IsVerified :
      (p : Provider K) (scope refresh_token : String) (w v : W) (res : TokenResult)
      → provider_flows.refresh p scope refresh_token w ≡ (ok res, v)
      → IsVerified res
  unfolding refresh
  refresh-IsVerified p scope refresh_token w v res h =
      elim (Bool-cases (p.client_auth.method == client_auth_private_key_jwt)) [
        | inl jwt ↦ assertion-IsVerified p refresh_token w v res (sym (if_true _ _ jwt) ∙ h)
        | inr other ↦
            let (tok, u, _, got) =
              >>=-map_err-ok (wrap "oidc: refresh failed")
                (token_source (with_http_client ctx) (oauth_config p calls.fields scope)
                  refresh_token)
                _ w (rw other at h) in
            resulted-IsVerified tok u res (cc got)
      ]

  -- An attempt at a grant that gave the tokens was the whole login by this grant.
  abbrev pub IsAttempted : Source W K → Provider K → String → W → TokenResult → Type 0
  IsAttempted s p grant w res =
      ((grant ≡ grant_authorization_code)
        × IsLoggedIn calls show_port net oauth p s.open_browser s.prompt (hint_writer s)
            s.extra_fields ctx s.scope s.callback_port w res)
      ⊎ ((grant ≡ grant_device_code_urn)
          × IsDeviceLogin calls flow stderr p s.extra_fields ctx s.scope w res)

  attempt-IsAttempted :
      (s : Source W K) (p : Provider K) (grant : String) (w v : W) (res : TokenResult)
      → attempt (record s { flows = provider_flows }) p grant w ≡ (ok res, v)
      → IsAttempted s p grant w res
  unfolding attempt hint_writer
  attempt-IsAttempted s p grant w v res h = elim (Bool-cases (grant == grant_device_code_urn)) [
    | inl device ↦ inr (
      (eq_iff grant grant_device_code_urn).0 device,
      device_login-IsDeviceLogin calls flow stderr p s.extra_fields ctx s.scope w v res
          (rw device at h),
    )
    | inr other ↦ elim (Bool-cases (grant == grant_authorization_code)) [
      | inl authcode ↦ inl (
        (eq_iff grant grant_authorization_code).0 authcode,
        auth_code_login-IsLoggedIn calls show_port net oauth p s.open_browser s.prompt
            (hint_writer s) s.extra_fields ctx s.scope s.callback_port w v res
            (rw (other, authcode) at h),
      )
      | inr unknown ↦ absurd (cc (rw (other, unknown) at h))
    ]
  ]

  -- Where a source works over these operations: a login through it that succeeds found a provider by
  -- discovery, and an attempt at a grant that the grant type lets it attempt, that this provider
  -- supports and that is viable in the environment gave the tokens; that attempt was a login by
  -- authorization code, with its own verifier, state and nonce, or one by device code, with its
  -- instructions shown before the poll, and the id_token that such a login gives is verified.
  pub source_login-IsAttempted :
      (s : Source W K) (w v : W) (res : TokenResult)
      → login (record s { flows = provider_flows }) w ≡ (ok res, v)
      → (p : Provider K) × (w1 : W) × (discover (record s { flows = provider_flows }) w
          ≡ (ok p, w1))
        × (grant : String) × (u : W) × Listed grant
            (wanted_order p s.env s.non_interactive s.grant_type)
        × IsAttempted s p grant u res
  source_login-IsAttempted s w v res h =
      let (p, w1, found, grant, u, listed, answered) =
        login-ok (record s { flows = provider_flows }) w v res h in
      (p, w1, found, grant, u, listed, attempt-IsAttempted s p grant u v res answered)
