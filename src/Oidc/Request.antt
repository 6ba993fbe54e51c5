-- ===== src/Oidc/Request.antt =====
-- internal/oidc/clientauth.go and refresh.go: the request that the program itself sends to the token
-- endpoint, how the client authenticates in it, and what is read from the response.
-- Parameters: the HTTP client, the JSON decoders, the random source, the JWT signer, the clock.
pub mod Laws
pub mod Secret
use oidc_token_cli.Base.{
  ℕ, String, ◌+◌, ◌-◌, ◌*◌, ◌%◌, ◌^◌, Bool, true, false, not, ◌&&◌, ◌||◌, Option, none, some, List,
  [], ◌∷◌, ◌==◌, is_empty, ltb, if◌then◌else◌, is_nil, insert, erase, Error, message, wrap,
  retrieve, Result, ok, err, M, ◌>>=◌, map_err, pure, fail,
}
use oidc_token_cli.Base.Json.{Json, ℤ, pos, negsuc, text, object, members}
use oidc_token_cli.Oidc.{
  Provider, ClientAuth, client_auth_secret_basic, client_auth_secret_post,
  client_auth_private_key_jwt,
}
use oidc_token_cli.Oidc.Token.{OauthToken}

-- The claims of a client assertion; times are nanoseconds.
pub record Claims : Type 0 where
  pub issuer : String
  pub subject : String
  pub audience : String
  pub expiry : ℕ
  pub issued_at : ℕ
  pub id : String

-- `url.Values`
abbrev pub Form : Type 0
Form = List (String × List String)

-- The request of postTokenRequest; `basic_auth` is what `SetBasicAuth` was given.
pub record TokenRequest : Type 0 where
  pub url : String
  pub form : Form
  pub basic_auth : Option (String × String)

-- The status code, and what reading the first megabyte of the body gives.
pub record Response : Type 0 where
  pub status : ℕ
  pub body : Result String

-- tokenResponse; `expires_in` is an int64.
pub record TokenResponse : Type 0 where
  pub access_token : String
  pub token_type : String
  pub refresh_token : String
  pub expires_in : ℤ
  pub id_token : String
  pub issued_token_type : String
  pub error : String

abbrev pub client_assertion_type : String
client_assertion_type = "urn:ietf:params:oauth:client-assertion-type:jwt-bearer"

-- 5 minutes.
abbrev pub client_assertion_lifetime : ℕ
client_assertion_lifetime = 300000000000

abbrev pub second : ℕ
second = 1000000000

-- `v.Set(key, value)`
abbrev pub set_value : String → String → Form → Form
set_value key value = insert key (value ∷ [])

-- The keys that are no extension fields.
abbrev pub reserved : List String
reserved =
    "access_token" ∷ "token_type" ∷ "refresh_token" ∷ "expires_in" ∷ "id_token"
    ∷ "issued_token_type" ∷ "error" ∷ "error_description" ∷ "error_uri" ∷ []

-- `for _, k := range … { delete(raw, k) }`
unfoldable pub delete_all : List String → List (String × Json) → List (String × Json)
delete_all [] raw = raw
delete_all (k ∷ ks) raw = delete_all ks (erase k raw)

-- `now.Add(time.Duration(n) * time.Second)`: the product is an int64 and wraps around. Times stay
-- far above 2^63 nanoseconds, so an offset below zero does not reach the zero time.
unfoldable pub expiry_after : ℕ → ℕ → ℕ
expiry_after n now =
    let offset = n * second % 2 ^ 64 in
    if ltb offset (2 ^ 63) then now + offset else now - (2 ^ 64 - offset)

-- `if tr.ExpiresIn > 0`
abbrev token_expiry : ℤ → ℕ → ℕ
token_expiry (pos n) now = if ltb 0 n then expiry_after n now else 0
token_expiry (negsuc n) now = 0

abbrev is_success : ℕ → Bool
is_success status = not (ltb status 200) && not (ltb 299 status)

-- The token that a decoded response stands for.
unfoldable pub response_token : TokenResponse → List (String × Json) → ℕ → OauthToken
unfolding expiry_after
response_token tr extensions now = record {
  access_token = tr.access_token;
  token_type = tr.token_type;
  refresh_token = tr.refresh_token;
  expiry = token_expiry tr.expires_in now;
  extra =
      ("id_token", text tr.id_token)
      ∷ ("issued_token_type", text tr.issued_token_type)
      ∷ (if is_nil extensions then [] else ("_extensions", object (members extensions)) ∷ []);
}

module _ {W K : Type 0} (random_state : M W String) (now : W → ℕ)
    (sign : ClientAuth K → Claims → Result String) (p : Provider K) where
  unfoldable pub assertion_claims : ℕ → ℕ → String → Claims
  assertion_claims lifetime t jti = record {
    issuer = p.client_id;
    subject = p.client_id;
    audience = if is_empty p.client_auth.audience then p.token_url else p.client_auth.audience;
    expiry = t + lifetime;
    issued_at = t;
    id = jti;
  }

  abbrev signed : Result String → Result String
  signed (ok assertion) = ok assertion
  signed (err e) = err (wrap "oidc: sign client assertion" e)

  unfoldable pub sign_client_assertion : ℕ → M W String
  unfolding assertion_claims
  sign_client_assertion lifetime = do
    jti ← map_err (wrap "oidc: generate client assertion jti") random_state
    λ w. (signed (sign p.client_auth (assertion_claims lifetime (now w) jti)), w)

  -- The parameters of `clientAssertionOptions`; no parameter for any other method.
  unfoldable pub client_assertion_options : ℕ → M W (List (String × String))
  unfolding sign_client_assertion
  client_assertion_options lifetime w =
      if not (p.client_auth.method == client_auth_private_key_jwt)
      then (ok [], w)
      else (do
        assertion ← sign_client_assertion lifetime
        pure (
            ("client_assertion_type", client_assertion_type)
            ∷ ("client_assertion", assertion)
            ∷ []))
          w

  -- The switch on the method, after `v.Set("client_id", …)`.
  unfoldable pub authenticate : Form → M W Form
  unfolding sign_client_assertion
  authenticate v w =
      let identified = set_value "client_id" p.client_id v in
      if p.client_auth.method == client_auth_secret_post
      then (ok (set_value "client_secret" p.client_auth.secret identified), w)
      else if p.client_auth.method == client_auth_private_key_jwt
      then (do
        assertion ← sign_client_assertion client_assertion_lifetime
        pure (
            set_value "client_assertion" assertion
              (set_value "client_assertion_type" client_assertion_type identified)))
          w
      else (ok identified, w)

  unfoldable pub token_request : String → Form → TokenRequest
  token_request url form = record {
    url = url;
    form = form;
    basic_auth =
        if p.client_auth.method == client_auth_secret_basic
        then some (p.client_id, p.client_auth.secret)
        else none;
  }

module _ {W : Type 0} (now : W → ℕ) (decode : String → Result TokenResponse)
    (decode_map : String → List (String × Json)) where
  unfoldable pub accept_response : TokenResponse → List (String × Json) → ℕ → M W OauthToken
  unfolding response_token delete_all
  accept_response tr raw status w =
      if not (is_success status) || not (is_empty tr.error)
      then fail (retrieve tr.error) w
      else if is_empty tr.access_token
      then fail (message "oidc: token response missing access_token") w
      else (ok (response_token tr (delete_all reserved raw) (now w)), w)

  unfoldable pub read_body : ℕ → String → M W OauthToken
  unfolding accept_response
  read_body status body w = elim (decode body) [
    | ok tr ↦ accept_response tr (decode_map body) status w
    | err e ↦
        if not (is_success status)
        then (err (retrieve ""), w)
        else (err (wrap "parse token response" e), w)
  ]

  unfoldable pub read_response : Response → M W OauthToken
  unfolding read_body
  read_response resp w = elim resp.body [
    | err e ↦ (err (wrap "read token response" e), w)
    | ok body ↦ read_body resp.status body w
  ]

module _ {W K : Type 0} (random_state : M W String) (now : W → ℕ)
    (sign : ClientAuth K → Claims → Result String) (post : TokenRequest → M W Response)
    (decode : String → Result TokenResponse) (decode_map : String → List (String × Json))
    (p : Provider K) where
  unfoldable pub post_token_request : String → Form → M W OauthToken
  unfolding authenticate token_request read_response
  post_token_request url v = do
    form ← authenticate random_state now sign p v
    resp ← post (token_request random_state now sign p url form)
    read_response now decode decode_map resp
