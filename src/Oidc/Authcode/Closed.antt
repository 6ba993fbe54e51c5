-- ===== src/Oidc/Authcode/Closed.antt =====
-- That a login through internal/oidc/authcode.go leaves no listener open.
use oidc_token_cli.Base.{
  ℕ, String, ◌≡◌, refl, sym, ap, ◌∙◌, ◌+◌, ◌-◌, not, inl, inr, Bool-cases, Option, none, some, List,
  ◌==◌, Error, wrap, ok, err, M, ◌>>=◌, map_err, continue, on_err, Result-cases, result_rule,
  on_err_rule, step_rule, renamed_step_rule, arith,
}
use oidc_token_cli.Base.Json.{ℤ}
use oidc_token_cli.Oidc.{Provider, client_auth_private_key_jwt}
use oidc_token_cli.Oidc.Discovery.{supports_grant, code_challenge_method}
use oidc_token_cli.Oidc.Token.{OauthToken, to_result}
use oidc_token_cli.Oidc.Token.Laws.{raw_id_token}
use oidc_token_cli.Oidc.Request.{
  Form, client_assertion_lifetime, client_assertion_options, sign_client_assertion,
}
use oidc_token_cli.Oidc.Client.{Calls, Context, OauthConfig, AuthCodeOption, resulted}
use oidc_token_cli.Oidc.Authcode.{
  Loopback, Oauth, redeem, await, closing, drawn, browse, hinted, shown, ask, draw, login_at,
  login_on, bind_and_login, auth_code_login,
}

module _ {W : Type 0} (opened : W → ℕ) where
  -- Whatever the code does, the number of open listeners stays as it is.
  abbrev pub Keeps : {A : Type 0} → M W A → Type 0
  Keeps m = (w : W) → opened (m w).1 ≡ opened w

  abbrev pub Writes : Option (String → W → W) → Type 0
  Writes writer =
      (write : String → W → W)
      → writer ≡ some write
      → (s : String) (w : W) → opened (write s w) ≡ opened w

  Keeps-step :
      {A B : Type 0} (m : M W A) (k : A → M W B)
      → Keeps m
      → ((a : A) → Keeps (k a))
      → Keeps (m >>= k)
  Keeps-step m k first rest w =
      step_rule (λ x. opened x.1 ≡ opened w) (m w) k
        (λ a v is. rest a v ∙ (ap (λ x. opened x.1) (sym is) ∙ first w))
        (λ e v is. ap (λ x. opened x.1) (sym is) ∙ first w)

  Keeps-renamed : {A : Type 0} (f : Error → Error) (m : M W A) → Keeps m → Keeps (map_err f m)
  Keeps-renamed f m first w =
      on_err_rule (λ x. opened x.1 ≡ opened w) f (m w)
        (λ a v is. ap (λ x. opened x.1) (sym is) ∙ first w)
        (λ e v is. ap (λ x. opened x.1) (sym is) ∙ first w)

module _ {W K L : Type 0} (calls : Calls W K) (show_port : ℕ → String) (net : Loopback W L)
    (oauth : Oauth W) (p : Provider K) (open_browser : Option (String → M W (Unit {0})))
    (prompt hint : Option (String → W → W)) (extra : Form) (opened : W → ℕ) where
  -- A listener is open from `listen` to `close`, or to the end of its server; nothing else opens or
  -- closes one.
  pub record Counts : Type 0 where
    pub listening :
        {ctx : Context} {port : ℤ} {ln : L} {w v : W}
        → net.listen ctx port w ≡ (ok ln, v)
        → opened v ≡ 1 + opened w
    pub not_listening :
        {ctx : Context} {port : ℤ} {e : Error} {w v : W}
        → net.listen ctx port w ≡ (err e, v)
        → opened v ≡ opened w
    pub closed : (ln : L) (w : W) → opened (net.close ln w) ≡ opened w - 1
    pub shut : (ln : L) (w : W) → opened (net.shutdown ln w) ≡ opened w - 1
    pub served : (ctx : Context) (ln : L) (w : W) → opened (net.serve ctx ln w).1 ≡ opened w
    pub generated : (w : W) → opened (oauth.generate_verifier w).1 ≡ opened w
    pub exchanged :
        (ctx : Context) (cfg : OauthConfig) (code : String) (options : List AuthCodeOption)
        → Keeps opened (oauth.exchange ctx cfg code options)
    pub drawn_random : Keeps opened calls.random_state
    pub verified : (raw : String) → Keeps opened (calls.verify raw)
    pub browsed :
        (launch : String → M W (Unit {0}))
        → open_browser ≡ some launch
        → (url : String) → Keeps opened (launch url)
    pub prompted : Writes opened prompt
    pub hinting : Writes opened hint

  module _ (counts : Counts) where
    signed-Keeps :
        (lifetime : ℕ)
        → Keeps opened (sign_client_assertion calls.random_state calls.now calls.sign p lifetime)
    unfolding sign_client_assertion
    signed-Keeps lifetime =
        Keeps-step opened _ _ (Keeps-renamed opened _ calls.random_state counts.drawn_random)
          (λ jti w. refl)

    minted-Keeps :
        (lifetime : ℕ)
        → Keeps opened (client_assertion_options calls.random_state calls.now calls.sign p lifetime)
    unfolding client_assertion_options
    minted-Keeps lifetime w =
        elim (Bool-cases (not (p.client_auth.method == client_auth_private_key_jwt))) [
          | inl other ↦ rw other refl
          | inr jwt ↦ rw jwt (
              Keeps-step opened
                (sign_client_assertion calls.random_state calls.now calls.sign p lifetime) _
                (signed-Keeps lifetime) (λ assertion v. refl) w)
        ]

    resulted-Keeps :
        (tok : OauthToken) (nonce : String) → Keeps opened (resulted calls.verify tok nonce)
    unfolding to_result
    resulted-Keeps tok nonce w = ground (arith, counts.verified (raw_id_token tok) w)

    redeem-Keeps :
        (ctx : Context) (cfg : OauthConfig) (verifier nonce code : String)
        → Keeps opened (redeem calls show_port net oauth p ctx cfg extra verifier nonce code)
    unfolding redeem
    redeem-Keeps ctx cfg verifier nonce code =
        Keeps-step opened
          (client_assertion_options calls.random_state calls.now calls.sign p
            client_assertion_lifetime)
          _ (minted-Keeps client_assertion_lifetime)
          (λ assertion.
            Keeps-step opened
              (map_err (wrap "oidc: authorization code exchange failed")
                (oauth.exchange ctx cfg code _))
              _
              (Keeps-renamed opened _ (oauth.exchange ctx cfg code _)
                (counts.exchanged ctx cfg code _))
              (λ tok. resulted-Keeps tok nonce))

    browse-keeps :
        (launch : Option (String → M W (Unit {0}))) (writer : Option (String → W → W))
        (url : String) (w : W)
        → ((f : String → M W (Unit {0})) → launch ≡ some f → (u : String) → Keeps opened (f u))
        → Writes opened writer
        → opened (browse launch writer url w) ≡ opened w
    browse-keeps none writer url w launching writing = refl
    browse-keeps (some f) none url w launching writing = launching f refl url w
    browse-keeps (some f) (some write) url w launching writing =
        result_rule (λ x. opened (browse (some (λ u v. x)) (some write) url w) ≡ opened x.1)
          (f url w) (λ a v is. refl) (λ e v is. writing write refl _ v)
        ∙ launching f refl url w

    hinted-keeps :
        (writer : Option (String → W → W)) (url : String) (w : W)
        → Writes opened writer
        → opened (hinted writer url w) ≡ opened w
    hinted-keeps none url w writing = refl
    hinted-keeps (some write) url w writing = writing write refl _ w

    shown-keeps :
        (cfg : OauthConfig) (verifier state nonce : String) (w : W)
        → opened (
            shown calls show_port net oauth p open_browser prompt hint extra cfg verifier state
              nonce w)
          ≡ opened w
    unfolding shown
    shown-keeps cfg verifier state nonce w =
        hinted-keeps hint _ _ counts.hinting
        ∙ browse-keeps open_browser prompt _ w counts.browsed counts.prompted

    -- With one listener more than n, code that closes it leaves n.
    abbrev Closes : {A : Type 0} → ℕ → M W A → Type 0
    Closes n m = (w : W) → opened w ≡ 1 + n → opened (m w).1 ≡ n

    await-Closes :
        (ctx : Context) (ln : L) (state : String) (n : ℕ) → Closes n (await net ctx ln state)
    unfolding await
    await-Closes ctx ln state n w one_more =
        ground (arith, counts.shut ln (net.serve ctx ln w).1, counts.served ctx ln w)

    ask-Closes :
        (ctx : Context) (ln : L) (cfg : OauthConfig) (verifier state nonce : String) (n : ℕ)
        → Closes n (
            ask calls show_port net oauth p open_browser prompt hint extra ctx ln cfg verifier state
              nonce)
    unfolding ask
    ask-Closes ctx ln cfg verifier state nonce n w one_more =
        let v =
          shown calls show_port net oauth p open_browser prompt hint extra cfg verifier state nonce
            w in
        let closed : opened (await net ctx ln state v).1 ≡ n =
          await-Closes ctx ln state n v (shown-keeps cfg verifier state nonce w ∙ one_more) in
        step_rule (λ x. opened x.1 ≡ n) (await net ctx ln state v) _
          (λ code u is.
            redeem-Keeps ctx cfg verifier nonce code u ∙ (ap (λ x. opened x.1) (sym is) ∙ closed))
          (λ e u is. ap (λ x. opened x.1) (sym is) ∙ closed)

    -- A text is drawn and the listener stays open, or it is closed.
    drawn-Closes :
        {B : Type 0} (ln : L) (text : String) (k : String → M W B) (n : ℕ)
        → ((s : String) → Closes n (k s))
        → Closes n (drawn net ln text calls.random_state >>= k)
    unfolding drawn
    drawn-Closes ln text k n rest w one_more =
        result_rule
          (λ x.
            opened x.1 ≡ opened w
            → opened (continue (closing net ln (on_err (wrap text) x)) k).1 ≡ n)
          (calls.random_state w) (λ s v is same. rest s v (same ∙ one_more))
          (λ e v is same. ground (arith, counts.closed ln v, same, one_more))
          (counts.drawn_random w)

    draw-Closes :
        (ctx : Context) (ln : L) (cfg : OauthConfig) (n : ℕ)
        → Closes n (draw calls show_port net oauth p open_browser prompt hint extra ctx ln cfg)
    unfolding draw
    draw-Closes ctx ln cfg n w one_more =
        drawn-Closes ln "oidc: generate state" _ n
          (λ state.
            drawn-Closes ln "oidc: generate nonce" _ n
              (λ nonce. ask-Closes ctx ln cfg (oauth.generate_verifier w).0 state nonce n))
          (oauth.generate_verifier w).1 (counts.generated w ∙ one_more)

    login_at-Closes :
        (ctx : Context) (scope : String) (ln : L) (o : Option ℕ) (n : ℕ)
        → Closes n
            (login_at calls show_port net oauth p open_browser prompt hint extra ctx scope ln o)
    login_at-Closes ctx scope ln none n w one_more = ground (arith, counts.closed ln w)
    login_at-Closes ctx scope ln (some port) n w one_more = draw-Closes ctx ln _ n w one_more

    bind-Keeps :
        (ctx : Context) (scope : String) (port : ℤ)
        → Keeps opened (
            bind_and_login calls show_port net oauth p open_browser prompt hint extra ctx scope
              port)
    unfolding bind_and_login login_on
    bind-Keeps ctx scope port w =
        renamed_step_rule (λ x. opened x.1 ≡ opened w)
          (wrap "oidc: bind loopback callback listener") (net.listen ctx port w) _
          (λ ln v is.
            login_at-Closes ctx scope ln (net.tcp_port ln) (opened w) v (counts.listening is))
          (λ e v is. counts.not_listening is)

    -- However a login ends, whether with tokens, a refusal, a failure to draw a secret, the end of
    -- its time or a failed exchange, as many listeners are open after it as before.
    pub auth_code_login-Keeps :
        (ctx : Context) (scope : String) (port : ℤ)
        → Keeps opened (
            auth_code_login calls show_port net oauth p open_browser prompt hint extra ctx scope
              port)
    unfolding auth_code_login
    auth_code_login-Keeps ctx scope port w =
        elim (Bool-cases (supports_grant p "authorization_code")) [
          | inl supported ↦ elim (Result-cases (code_challenge_method p)) [
            | inl (method, is) ↦ rw (supported, is) (bind-Keeps _ scope port w)
            | inr (e, is) ↦ rw (supported, is) refl
          ]
          | inr other ↦ rw other refl
        ]
