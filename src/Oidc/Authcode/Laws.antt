-- ===== src/Oidc/Authcode/Laws.antt =====
-- What a login through internal/oidc/authcode.go has gone through when it succeeds, and when it is
-- refused before anything is done.
use oidc_token_cli.Base.{
  ℕ, String, ◌≡◌, ◌≢◌, refl, sym, ap, ◌∙◌, true, false, ◌⊎◌, inl, inr, Bool-cases, Option, none,
  some, List, ◌∷◌, Error, message, wrap, Result, ok, err, M, >>=-ok, >>=-map_err-ok, map_err,
  map_err-ok, Result-cases,
}
use oidc_token_cli.Base.Json.{ℤ}
use oidc_token_cli.Output.{TokenResult}
use oidc_token_cli.Oidc.{Provider}
use oidc_token_cli.Oidc.Discovery.{supports_grant, code_challenge_method}
use oidc_token_cli.Oidc.Discovery.Laws.{code_challenge_method_iff}
use oidc_token_cli.Oidc.Token.{OauthToken, to_result}
use oidc_token_cli.Oidc.Token.Laws.{IsAccepted, to_result-accepted}
use oidc_token_cli.Oidc.Request.{Form, client_assertion_lifetime, client_assertion_options}
use oidc_token_cli.Oidc.Client.{
  Calls, Context, OauthConfig, AuthCodeOption, s256_challenge, nonce_option, audience_options,
  verifier_option, with_http_client, with_own_deadline, with_own_deadline-some,
}
use oidc_token_cli.Oidc.Callback.Laws.{FirstGenuine, await_callback-FirstGenuine}
use oidc_token_cli.Oidc.Authcode.{
  Loopback, Oauth, redeem, await, closing, drawn, config_for, shown, browse, hinted, ask, draw,
  login_at, login_on, bind_and_login, auth_code_login, auth_code_timeout,
}

module _ {W L : Type 0} (net : Loopback W L) (ln : L) where
  closing-ok :
      {A : Type 0} (x : Result A × W) {a : A} {v : W} → closing net ln x ≡ (ok a, v) → x ≡ (ok a, v)
  closing-ok (ok a, w) h = h
  closing-ok (err e, w) h = cc

  drawn-ok :
      (text : String) (random_state : M W String) (w : W) {a : String} {v : W}
      → drawn net ln text random_state w ≡ (ok a, v)
      → random_state w ≡ (ok a, v)
  unfolding drawn
  drawn-ok text random_state w h =
      map_err-ok (wrap text) random_state w (closing-ok (map_err (wrap text) random_state w) h)

module _ {W K L : Type 0} (calls : Calls W K) (show_port : ℕ → String) (net : Loopback W L)
    (oauth : Oauth W) (p : Provider K) where
  -- The tokens are those of an exchange of the code that showed the verifier; an id_token among
  -- them is accepted, with the nonce if there is one.
  abbrev pub IsRedeemed : Context → OauthConfig → String → String → String → TokenResult → Type 0
  IsRedeemed ctx cfg verifier nonce code res =
      (options : List AuthCodeOption) × (u v : W) × (tok : OauthToken) × (oauth.exchange ctx cfg
          code (verifier_option verifier ∷ options) u
        ≡ (ok tok, v))
      × (res ≡ (to_result calls.verify tok nonce v).0)
      × (res.id_token ≢ "" → IsAccepted calls.verify tok nonce v)

  redeem-IsRedeemed :
      (ctx : Context) (cfg : OauthConfig) (extra : Form) (verifier nonce code : String) (w v : W)
      (res : TokenResult)
      → redeem calls show_port net oauth p ctx cfg extra verifier nonce code w ≡ (ok res, v)
      → IsRedeemed ctx cfg verifier nonce code res
  unfolding redeem
  redeem-IsRedeemed ctx cfg extra verifier nonce code w v res h =
      let (assertion, w1, minted, rest) =
        >>=-ok
          (client_assertion_options calls.random_state calls.now calls.sign p
            client_assertion_lifetime)
          _ w h in
      let (tok, u, exchanged, got) =
        >>=-map_err-ok (wrap "oidc: authorization code exchange failed")
          (oauth.exchange ctx cfg code _) _ w1 rest in
      let same : res ≡ (to_result calls.verify tok nonce u).0 = cc got in
      (
        _,
        w1,
        u,
        tok,
        exchanged,
        same,
        λ present.
            (to_result-accepted calls.verify tok nonce u
              (λ empty. present (ap (λ r. r.id_token) same ∙ empty))).0,
      )

  module _ (open_browser : Option (String → M W (Unit {0}))) (prompt hint : Option (String → W → W))
      (extra : Form) where
    -- A code that the first genuine redirect brought, after the URL with this state, the S256
    -- challenge of this verifier and this nonce was opened and shown, was redeemed with the verifier
    -- and the nonce.
    abbrev pub IsAnswered :
        Context → L → OauthConfig → String → String → String → W → TokenResult → Type 0
    IsAnswered ctx ln cfg verifier state nonce w res =
        (code url : String) × (url
          ≡ oauth.auth_code_url cfg state
              (s256_challenge verifier ∷ nonce_option nonce ∷ audience_options p))
        × FirstGenuine state
            (net.serve ctx ln (hinted hint url (browse open_browser prompt url w))).0.0 (ok code)
        × IsRedeemed ctx cfg verifier nonce code res

    ask-IsAnswered :
        (ctx : Context) (ln : L) (cfg : OauthConfig) (verifier state nonce : String) (w v : W)
        (res : TokenResult)
        → ask calls show_port net oauth p open_browser prompt hint extra ctx ln cfg verifier state
            nonce w
          ≡ (ok res, v)
        → IsAnswered ctx ln cfg verifier state nonce w res
    unfolding ask await shown
    ask-IsAnswered ctx ln cfg verifier state nonce w v res h =
        let (code, u, awaited, redeemed) = >>=-ok (await net ctx ln state) _ _ h in
        (
          code,
          _,
          refl,
          await_callback-FirstGenuine state _ _ code (ap (λ x. x.0) awaited),
          redeem-IsRedeemed ctx cfg extra verifier nonce code u v res redeemed,
        )

    -- A login on a listener: the verifier, the state and the nonce were drawn one after the other,
    -- and the answer to them was redeemed.
    abbrev pub IsLogin : Context → L → OauthConfig → W → TokenResult → Type 0
    IsLogin ctx ln cfg w res =
        (verifier state nonce : String) × (w1 w2 w3 : W) × (oauth.generate_verifier w
          ≡ (verifier, w1))
        × (calls.random_state w1 ≡ (ok state, w2))
        × (calls.random_state w2 ≡ (ok nonce, w3))
        × IsAnswered ctx ln cfg verifier state nonce w3 res

    draw-IsLogin :
        (ctx : Context) (ln : L) (cfg : OauthConfig) (w v : W) (res : TokenResult)
        → draw calls show_port net oauth p open_browser prompt hint extra ctx ln cfg w ≡ (ok res, v)
        → IsLogin ctx ln cfg w res
    unfolding draw
    draw-IsLogin ctx ln cfg w v res h =
        let verifier = (oauth.generate_verifier w).0 in
        let (state, w2, state_drawn, rest) =
          >>=-ok (drawn net ln "oidc: generate state" calls.random_state) _ _ h in
        let (nonce, w3, nonce_drawn, asked) =
          >>=-ok (drawn net ln "oidc: generate nonce" calls.random_state) _ w2 rest in
        (
          verifier,
          state,
          nonce,
          _,
          w2,
          w3,
          refl,
          drawn-ok net ln "oidc: generate state" calls.random_state _ state_drawn,
          drawn-ok net ln "oidc: generate nonce" calls.random_state w2 nonce_drawn,
          ask-IsAnswered ctx ln cfg verifier state nonce w3 v res asked,
        )

    abbrev pub own_context : Context → W → Context
    own_context ctx w = with_http_client (with_own_deadline auth_code_timeout (calls.now w) ctx)

    own_context-some : (ctx : Context) (w : W) → (t : ℕ) × ((own_context ctx w).deadline ≡ some t)
    unfolding with_http_client
    own_context-some ctx w = with_own_deadline-some auth_code_timeout (calls.now w) ctx

    login_at-IsLogin :
        (ctx : Context) (scope : String) (ln : L) (o : Option ℕ) (w v : W) (res : TokenResult)
        → login_at calls show_port net oauth p open_browser prompt hint extra ctx scope ln o w
          ≡ (ok res, v)
        → (port : ℕ) × (o ≡ some port)
          × IsLogin ctx ln (config_for calls show_port net oauth p scope port) w res
    login_at-IsLogin ctx scope ln none w v res h = cc
    login_at-IsLogin ctx scope ln (some port) w v res h = (
      port,
      refl,
      draw-IsLogin ctx ln (config_for calls show_port net oauth p scope port) w v res h,
    )

    -- The issuer allows the grant and PKCE; a listener was bound, with the deadline and the client
    -- of the login in its context, and the login went on at its port.
    abbrev pub IsLoggedIn : Context → String → ℤ → W → TokenResult → Type 0
    IsLoggedIn ctx scope port w res =
        (supports_grant p "authorization_code" ≡ true)
        × (code_challenge_method p ≡ ok "S256")
        × ((t : ℕ) × ((own_context ctx w).deadline ≡ some t))
        × (ln : L) × (u : W) × (bound : ℕ) × (net.listen (own_context ctx w) port w ≡ (ok ln, u))
        × (net.tcp_port ln ≡ some bound)
        × IsLogin (own_context ctx w) ln (config_for calls show_port net oauth p scope bound) u res

    begun :
        (ctx : Context) (scope : String) (port : ℤ) (w : W) (method : String)
        → supports_grant p "authorization_code" ≡ true
        → code_challenge_method p ≡ ok method
        → auth_code_login calls show_port net oauth p open_browser prompt hint extra ctx scope port
            w
          ≡ bind_and_login calls show_port net oauth p open_browser prompt hint extra
              (own_context ctx w)
              scope
              port
              w
    unfolding auth_code_login
    begun ctx scope port w method supported is = rw (supported, is) refl

    started-ok :
        (ctx : Context) (scope : String) (port : ℤ) (w v : W) (res : TokenResult)
        → auth_code_login calls show_port net oauth p open_browser prompt hint extra ctx scope port
            w
          ≡ (ok res, v)
        → (supports_grant p "authorization_code" ≡ true)
          × (code_challenge_method p ≡ ok "S256")
          × (bind_and_login calls show_port net oauth p open_browser prompt hint extra
                (own_context ctx w)
                scope
                port
                w
              ≡ (ok res, v))
    unfolding auth_code_login
    started-ok ctx scope port w v res h =
        elim (Bool-cases (supports_grant p "authorization_code")) [
          | inl supported ↦ elim (Result-cases (code_challenge_method p)) [
            | inl (method, is) ↦ (
              supported,
              is ∙ ap ok ((code_challenge_method_iff p method).0 is).0,
              sym (begun ctx scope port w method supported is) ∙ h,
            )
            | inr (e, is) ↦ absurd (cc (supported, is, h))
          ]
          | inr other ↦ absurd (cc (other, h))
        ]

    -- A login that succeeds went like this: the issuer allows the grant and S256; a listener was bound
    -- in a context with a deadline; a verifier, a state and a nonce were drawn; the URL with
    -- that state, the S256 challenge of the verifier and that nonce was opened and shown; of what then reached the listener, the first request to /callback with
    -- that very state brought the code; the code was exchanged together with the verifier for the
    -- tokens. If the result has an id_token, it was verified, and bears that nonce if it is not empty.
    pub auth_code_login-IsLoggedIn :
        (ctx : Context) (scope : String) (port : ℤ) (w v : W) (res : TokenResult)
        → auth_code_login calls show_port net oauth p open_browser prompt hint extra ctx scope port
            w
          ≡ (ok res, v)
        → IsLoggedIn ctx scope port w res
    unfolding bind_and_login login_on
    auth_code_login-IsLoggedIn ctx scope port w v res h =
        let (supported, challenge, begun) = started-ok ctx scope port w v res h in
        let (ln, u, listening, logged_in) =
          >>=-map_err-ok (wrap "oidc: bind loopback callback listener")
            (net.listen (own_context ctx w) port) _ w begun in
        let (bound, is, login) =
          login_at-IsLogin (own_context ctx w) scope ln (net.tcp_port ln) u v res logged_in in
        (supported, challenge, own_context-some ctx w, ln, u, bound, listening, is, login)

    -- Where the issuer does not list the grant, or lists methods of PKCE without S256, the login
    -- fails and nothing has been done: no listener, no browser, no request.
    pub auth_code_login_refuses :
        (ctx : Context) (scope : String) (port : ℤ) (w : W)
        → (supports_grant p "authorization_code" ≡ false) ⊎ (code_challenge_method p ≢ ok "S256")
        → (e : Error) × (auth_code_login calls show_port net oauth p open_browser prompt hint extra
              ctx scope port w
            ≡ (err e, w))
    unfolding auth_code_login
    auth_code_login_refuses ctx scope port w (inl other) =
        (message "oidc: issuer does not support the authorization_code grant", cc other)
    auth_code_login_refuses ctx scope port w (inr other) =
        elim (Result-cases (code_challenge_method p)) [
          | inl (method, is) ↦
              absurd (other (is ∙ ap ok ((code_challenge_method_iff p method).0 is).0))
          | inr (e, is) ↦ elim (Bool-cases (supports_grant p "authorization_code")) [
            | inl supported ↦ (e, rw (supported, is) refl)
            | inr unsupported ↦ (
              message "oidc: issuer does not support the authorization_code grant",
              cc unsupported,
            )
          ]
        ]
