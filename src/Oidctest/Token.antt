-- ===== src/Oidctest/Token.antt =====
-- The token endpoint of internal/oidctest/mockissuer.go.
use Prim.Native.Char.{code}
use oidc_token_cli.Base.{
  nat_eq, ℕ, suc, String, ◌<>◌, Bool, false, not, ◌&&◌, ◌||◌, Option, none, some, List, [], ◌∷◌,
  ◌++◌, ◌==◌, is_empty, leb, if◌then◌else◌, lookup, insert, message, wrap, Result, ok, err,
}
use oidc_token_cli.Base.Json.{Json, pos, number, text}
use oidc_token_cli.Oidc.Request.{Claims, Form, TokenRequest}
use oidc_token_cli.Oidctest.{
  MockIssuer, MockDeviceCode, mock_client_id, mock_auth_code, Reply, json_reply, error_reply, get,
  merge, write_token_error,
}

-- What `BasicAuth` of net/http reads from the header: what is before and after the first colon of
-- its text.
unfoldable pub cut_colon : String → Option (String × String)
cut_colon String.[] = none
cut_colon (String.◌∷◌ c s) =
    let rest = cut_colon s in
    if nat_eq (code c) 58
    then some (String.[], s)
    else elim rest [ none ↦ none | some (before, after) ↦ some (String.◌∷◌ c before, after) ]

-- `SetBasicAuth` of net/http joins the two by a colon.
abbrev pub received : Option (String × String) → Option (String × String)
received none = none
received (some (id, secret)) = cut_colon (id <> (":" <> secret))

module _ {J : Type 0} (itoa : ℕ → String) (url : String) (parse_signed : String → Result J)
    (verified_claims : J → Result Claims) (validate : Claims → Result (Unit {0}))
    (sign : String → String → String → Result String) where
  -- signIDToken
  unfoldable pub sign_id_token : MockIssuer → String → String → Result String
  sign_id_token m subject nonce =
      sign (if is_empty m.issuer_override then url else m.issuer_override) subject nonce

  abbrev token_fields : MockIssuer → ℕ → List (String × Json)
  token_fields m seq =
      ("access_token", text ("access-token-" <> itoa seq))
      ∷ ("token_type", text "Bearer")
      ∷ ("expires_in", number (pos 3600))
      ∷ (if m.omit_refresh_token
          then []
          else ("refresh_token", text ("refresh-token-" <> itoa seq)) ∷ [])

  abbrev with_id_token : Result String → List (String × Json) → List (String × Json) → Reply
  with_id_token (err e) resp extra = error_reply 500 e
  with_id_token (ok id) resp extra = json_reply 200 (merge extra (insert "id_token" (text id) resp))

  -- writeTokenSuccess
  unfoldable pub write_token_success :
      MockIssuer → String → String → List (String × Json) → Reply × MockIssuer
  unfolding sign_id_token merge
  write_token_success m subject nonce extra =
      let seq = suc m.refresh_seq in
      (
        (if m.include_id_token
            then with_id_token (sign_id_token m subject nonce) (token_fields m seq) extra
            else json_reply 200 (merge extra (token_fields m seq))),
        record m { refresh_seq = seq },
      )

  -- handleAuthCodeToken
  unfoldable pub handle_auth_code_token : MockIssuer → Form → Reply × MockIssuer
  unfolding write_token_success write_token_error get
  handle_auth_code_token m form =
      if not (is_empty m.auth_code_err)
      then (write_token_error 400 m.auth_code_err, m)
      else if not (get form "code" == mock_auth_code)
      then (write_token_error 400 "invalid_grant", m)
      else write_token_success m "authcode-subject" m.nonce_for_auth_code []

  abbrev poll_device : MockIssuer → String → Option MockDeviceCode → Reply × MockIssuer
  poll_device m code none = (write_token_error 400 "expired_token", m)
  poll_device m code (some dc) =
      let polls = suc dc.polls in
      let polled = record m {
        device_codes = insert code (record dc { polls = polls }) m.device_codes;
      } in
      if leb polls m.pending_polls
      then (write_token_error 400 "authorization_pending", polled)
      else write_token_success polled "device-subject" "" []

  -- handleDeviceToken
  unfoldable pub handle_device_token : MockIssuer → Form → Reply × MockIssuer
  unfolding write_token_success write_token_error get
  handle_device_token m form =
      let code = get form "device_code" in poll_device m code (lookup code m.device_codes)

  -- handleRefreshToken
  unfoldable pub handle_refresh_token : MockIssuer → Reply × MockIssuer
  unfolding write_token_success write_token_error
  handle_refresh_token m =
      if not (is_empty m.refresh_err)
      then (write_token_error 400 m.refresh_err, m)
      else write_token_success (record m { refresh_calls = suc m.refresh_calls }) "refresh-subject"
          "" []

  -- handleTokenExchange
  unfoldable pub handle_token_exchange : MockIssuer → Form → Reply × MockIssuer
  unfolding write_token_success write_token_error get
  handle_token_exchange m form =
      let seen = record m { last_token_exchange_form = some form } in
      if not (is_empty m.token_exchange_err)
      then (write_token_error 400 m.token_exchange_err, seen)
      else if is_empty (get form "subject_token") || is_empty (get form "subject_token_type")
      then (write_token_error 400 "invalid_request", seen)
      else write_token_success seen "token-exchange-subject" "" (
          (
            "issued_token_type",
            text (
                if is_empty m.issued_token_type
                then "urn:ietf:params:oauth:token-type:access_token"
                else m.issued_token_type),
          )
          ∷ [])

  abbrev accept_claims : MockIssuer → Claims → Result (Unit {0}) × MockIssuer
  accept_claims m claims =
      if not (claims.issuer == mock_client_id) || not (claims.subject == mock_client_id)
      then (err (message "bad iss/sub claim"), m)
      else if is_empty claims.id
      then (err (message "missing jti claim"), m)
      else elim (validate claims) [
        | err e ↦ (err (wrap "invalid claims" e), m)
        | ok _ ↦ (ok tt, record m { assertion_jtis = m.assertion_jtis ++ (claims.id ∷ []) })
      ]

  abbrev read_assertion : MockIssuer → String → Result (Unit {0}) × MockIssuer
  read_assertion m assertion = elim (parse_signed assertion) [
    | err e ↦ (err (wrap "parse client_assertion" e), m)
    | ok tok ↦ elim (verified_claims tok) [
      | err e ↦ (err (wrap "verify client_assertion signature" e), m)
      | ok claims ↦ accept_claims m claims
    ]
  ]

  -- checkClientAssertion
  unfoldable pub check_client_assertion : MockIssuer → Form → Result (Unit {0}) × MockIssuer
  unfolding get
  check_client_assertion m form =
      if not (
        get form "client_assertion_type"
        == "urn:ietf:params:oauth:client-assertion-type:jwt-bearer")
      then (err (message "bad client_assertion_type"), m)
      else if is_empty (get form "client_assertion")
      then (err (message "missing client_assertion"), m)
      else read_assertion m (get form "client_assertion")

  abbrev pub basic_ok : MockIssuer → Option (String × String) → Bool
  basic_ok m none = false
  basic_ok m (some (id, secret)) = id == mock_client_id && secret == m.expected_client_secret

  -- checkClientAuth
  unfoldable pub check_client_auth : MockIssuer → TokenRequest → Result (Unit {0}) × MockIssuer
  unfolding check_client_assertion get cut_colon
  check_client_auth m r =
      let form = r.form in
      if is_empty m.require_client_auth
      then (ok tt, m)
      else if m.require_client_auth == "client_secret_basic"
      then (if basic_ok m (received r.basic_auth)
          then (ok tt, m)
          else (err (message "bad client_secret_basic credentials"), m))
      else if m.require_client_auth == "client_secret_post"
      then (if not (get form "client_id" == mock_client_id)
            || not (get form "client_secret" == m.expected_client_secret)
          then (err (message "bad client_secret_post credentials"), m)
          else (ok tt, m))
      else if m.require_client_auth == "private_key_jwt"
      then check_client_assertion m form
      else (err (message "mock issuer: unknown RequireClientAuth"), m)

  -- The switch on the grant type.
  unfoldable pub handle_grant : MockIssuer → Form → Reply × MockIssuer
  unfolding handle_device_token handle_refresh_token handle_auth_code_token handle_token_exchange
      write_token_error get
  handle_grant m form =
      let grant = get form "grant_type" in
      if grant == "urn:ietf:params:oauth:grant-type:device_code"
      then handle_device_token m form
      else if grant == "refresh_token"
      then handle_refresh_token m
      else if grant == "authorization_code"
      then handle_auth_code_token m form
      else if grant == "urn:ietf:params:oauth:grant-type:token-exchange"
      then handle_token_exchange m form
      else (write_token_error 400 "unsupported_grant_type", m)

  abbrev granted_to : TokenRequest → Result (Unit {0}) × MockIssuer → Reply × MockIssuer
  granted_to r (err e, m) = (write_token_error 401 "invalid_client", m)
  granted_to r (ok _, m) = handle_grant m r.form

  -- handleToken, of a request or of the error of ParseForm.
  unfoldable pub handle_token : MockIssuer → Result TokenRequest → Reply × MockIssuer
  unfolding check_client_auth handle_grant write_token_error
  handle_token m (err e) = (error_reply 400 (message "bad form"), m)
  handle_token m (ok r) = granted_to r (check_client_auth m r)
