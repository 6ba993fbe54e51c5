-- ===== src/Oidctest/Client.antt =====
-- That the program's client authenticates as the issuer of its tests requires.
use Prim.Native.Char.{code}
use oidc_token_cli.Base.{
  nat_eq, ◌<>◌, ◌||◌, true-ne-false, ℕ, String, ◌≡◌, ◌≢◌, ◌↔◌, ◌⊎◌, inl, inr, refl, sym, ap, ◌∙◌,
  eq_iff, ◌==◌, Option, none, some, [], ◌∷◌, lookup, if◌then◌else◌, Bool, true, false, Bool-cases,
  Result, ok, M, arith,
}
use mathlib.Core.Path.{subst}
use text.Mathlib.TextLemmas.{cons-append, nil-append}
use oidc_token_cli.Oidc.{Provider, ClientAuth}
use oidc_token_cli.Oidc.Request.{Claims, Form, TokenRequest, authenticate}
use oidc_token_cli.Oidc.Request.Secret.{request, authenticate-secret}
use oidc_token_cli.Oidctest.{MockIssuer, mock_client_id, get, first_or_empty}
use oidc_token_cli.Oidctest.Token.{check_client_auth, basic_ok, cut_colon, received}

then_iff : {A B C : Type 0} → (A ↔ B) → (B ↔ C) → A ↔ C
then_iff (there, back) (on, off) = ((λ a. on (there a)), (λ c. back (off c)))

first-if :
    (b : Bool) (s : String)
    → first_or_empty (if b then some (s ∷ []) else none) ≡ (if b then s else "")
first-if true s = refl
first-if false s = refl

abbrev pub has_colon : String → Bool
has_colon String.[] = false
has_colon (String.◌∷◌ c s) = nat_eq (code c) 58 || has_colon s

cut_colon-joined :
    (id secret : String)
    → has_colon id ≡ false
    → cut_colon (id <> (":" <> secret)) ≡ some (id, secret)
unfolding cut_colon
cut_colon-joined String.[] secret h = ap cut_colon (
    nil-append (":" <> secret)
    ∙ cons-append ":" "" secret
    ∙ ap (λ t. String.◌∷◌ ":" t) (nil-append secret))
cut_colon-joined (String.◌∷◌ c id) secret h =
    let plain : nat_eq (code c) 58 ≡ false = ground arith in
    let rest : cut_colon (id <> (":" <> secret)) ≡ some (id, secret) =
      cut_colon-joined id secret (ground arith) in
    ap cut_colon (cons-append c id (":" <> secret)) ∙ rw (plain, rest) refl

received-if :
    (b : Bool) (id secret : String)
    → has_colon id ≡ false
    → received (if b then some (id, secret) else none) ≡ (if b then some (id, secret) else none)
received-if true id secret h = cut_colon-joined id secret h
received-if false id secret h = refl

module _ {J : Type 0} (itoa : ℕ → String) (base : String) (parse_signed : String → Result J)
    (verified_claims : J → Result Claims) (validate : Claims → Result (Unit {0}))
    (sign_token : String → String → String → Result String) where
  abbrev check : MockIssuer → TokenRequest → Result (Unit {0}) × MockIssuer
  check = check_client_auth itoa base parse_signed verified_claims validate sign_token

  abbrev has_basic : MockIssuer → Option (String × String) → Bool
  has_basic = basic_ok itoa base parse_signed verified_claims validate sign_token

  check-basic :
      (m : MockIssuer) (r : TokenRequest)
      → m.require_client_auth ≡ "client_secret_basic"
      → ((check m r).0 ≡ ok tt) ↔ (has_basic m (received r.basic_auth) ≡ true)
  unfolding check_client_auth
  check-basic m r required =
      rw (check_client_auth, required)
        (elim (Bool-cases (has_basic m (received r.basic_auth))) [
          | inl e ↦ rw e ((λ _. refl), (λ _. refl))
          | inr e ↦ rw e ((λ h. cc), (λ h. cc))
        ])

  check-post :
      (m : MockIssuer) (r : TokenRequest)
      → m.require_client_auth ≡ "client_secret_post"
      → ((check m r).0 ≡ ok tt) ↔ (
          (get r.form "client_id" ≡ mock_client_id)
          × (get r.form "client_secret" ≡ m.expected_client_secret))
  unfolding check_client_auth
  check-post m r required =
      let id = eq_iff (get r.form "client_id") mock_client_id in
      let secret = eq_iff (get r.form "client_secret") m.expected_client_secret in
      rw (check_client_auth, required)
        (elim (Bool-cases (get r.form "client_id" == mock_client_id)) [
          | inl e ↦ elim (Bool-cases (get r.form "client_secret" == m.expected_client_secret)) [
            | inl f ↦ rw (e, f) ((λ _. (id.0 e, secret.0 f)), (λ _. refl))
            | inr f ↦ rw (e, f) ((λ h. cc), (λ h. absurd (true-ne-false (sym (secret.1 h.1) ∙ f))))
          ]
          | inr e ↦ rw e ((λ h. cc), (λ h. absurd (true-ne-false (sym (id.1 h.0) ∙ e))))
        ])

module _ {J W K : Type 0} (itoa : ℕ → String) (base : String) (parse_signed : String → Result J)
    (verified_claims : J → Result Claims) (validate : Claims → Result (Unit {0}))
    (sign_token : String → String → String → Result String) (random_state : M W String)
    (now : W → ℕ) (sign : ClientAuth K → Claims → Result String) (p : Provider K) where
  abbrev pub answer : MockIssuer → String → Form → Result (Unit {0})
  answer m url form =
      (check_client_auth itoa base parse_signed verified_claims validate sign_token m
        (request random_state now sign p url form)).0

  -- The client is the one that the issuer knows, with its method and its secret.
  abbrev pub Matches : MockIssuer → Type 0
  Matches m =
      (p.client_auth.method ≡ m.require_client_auth)
      × (p.client_id ≡ mock_client_id)
      × (p.client_auth.secret ≡ m.expected_client_secret)

  basic-Matches :
      (m : MockIssuer)
      → m.require_client_auth ≡ "client_secret_basic"
      → (has_basic itoa base parse_signed verified_claims validate sign_token m (
            if p.client_auth.method == "client_secret_basic"
            then some (p.client_id, p.client_auth.secret)
            else none)
          ≡ true)
        ↔ Matches m
  basic-Matches m required = ground (
    arith,
    eq_iff p.client_auth.method "client_secret_basic",
    eq_iff p.client_id mock_client_id,
    eq_iff p.client_auth.secret m.expected_client_secret,
  )

  post-Matches :
      (m : MockIssuer) (form : Form)
      → m.require_client_auth ≡ "client_secret_post"
      → m.expected_client_secret ≢ ""
      → get form "client_id" ≡ p.client_id
      → get form "client_secret"
        ≡ (if p.client_auth.method == "client_secret_post" then p.client_auth.secret else "")
      → ((get form "client_id" ≡ mock_client_id)
          × (get form "client_secret" ≡ m.expected_client_secret))
        ↔ Matches m
  post-Matches m form required secret id in_form =
      ground (arith, eq_iff p.client_auth.method "client_secret_post")

  -- Where the issuer requires client_secret_basic or client_secret_post and a secret, and the id of
  -- the client has no colon in it, a form without a client_secret that the client authenticates and
  -- sends is accepted exactly if the client uses the required method, has the id that the issuer
  -- knows, and has its secret.
  pub check_client_auth-Matches_iff :
      (m : MockIssuer) (url : String) (v form : Form) (w u : W)
      → (m.require_client_auth ≡ "client_secret_basic")
        ⊎ (m.require_client_auth ≡ "client_secret_post")
      → m.expected_client_secret ≢ ""
      → has_colon p.client_id ≡ false
      → lookup "client_secret" v ≡ none
      → authenticate random_state now sign p v w ≡ (ok form, u)
      → (answer m url form ≡ ok tt) ↔ Matches m
  unfolding get oidc_token_cli.Oidc.Request.token_request
  check_client_auth-Matches_iff m url v form w u (inl basic) secret plain unset h =
      let (_, _, sent) = authenticate-secret random_state now sign p url v form w u unset h in
      then_iff
        (check-basic itoa base parse_signed verified_claims validate sign_token m
          (request random_state now sign p url form) basic)
        (subst
          (λ a.
            (has_basic itoa base parse_signed verified_claims validate sign_token m a ≡ true)
            ↔ Matches m)
          (sym (
            ap received sent
            ∙ received-if (p.client_auth.method == "client_secret_basic") p.client_id
                p.client_auth.secret plain))
          (basic-Matches m basic))
  check_client_auth-Matches_iff m url v form w u (inr post) secret plain unset h =
      let (id, in_form, _) = authenticate-secret random_state now sign p url v form w u unset h in
      let sent = request random_state now sign p url form in
      then_iff (check-post itoa base parse_signed verified_claims validate sign_token m sent post) (
        post-Matches m form post secret (ap first_or_empty id) (
          ap first_or_empty in_form
          ∙ first-if (p.client_auth.method == "client_secret_post") p.client_auth.secret))
