-- ===== src/Oidctest.antt =====
-- internal/oidctest/mockissuer.go: the issuer that the program's tests run against, as a state
-- machine: a handler takes the issuer and a request, and gives a reply and the issuer after it.
-- `url` is the address of the test server. `strconv.Itoa` (and `%d`), the signature checks of
-- go-jose and the signing of an id_token are parameters; the key of the issuer, the mutex, the
-- artificial delay of a refresh and the test handle are left out. A JSON object lists its fields in
-- the order in which they are set; counts are natural numbers.
pub mod Token
pub mod Client
pub mod Device
use oidc_token_cli.Base.{
  ℕ, suc, String, ◌<>◌, Bool, true, false, not, ◌&&◌, ◌||◌, Option, none, some, List, [], ◌∷◌, ◌++◌,
  ◌==◌, is_empty, leb, length, if◌then◌else◌, lookup, insert, message, wrap, Error, Result, ok, err,
}
use oidc_token_cli.Base.Json.{Json, ℤ, pos, number, text, array, object, Items, done, item, members}
use oidc_token_cli.Oidc.Request.{Claims, Form, TokenRequest}

-- ClientID and MockAuthCode
abbrev pub mock_client_id : String
mock_client_id = "test-client"

abbrev pub mock_auth_code : String
mock_auth_code = "mock-auth-code"

-- mockDeviceCode
pub record MockDeviceCode : Type 0 where
  pub user_code : String
  pub polls : ℕ

-- MockIssuer
pub record MockIssuer : Type 0 where
  pub device_codes : List (String × MockDeviceCode)
  pub refresh_seq : ℕ
  pub refresh_calls : ℕ
  pub issuer_override : String
  pub no_device_endpoint : Bool
  pub grant_types_supported : Option (List String)
  pub code_challenge_methods_supported : Option (List String)
  pub pending_polls : ℕ
  pub device_interval_seconds : ℤ
  pub device_expires_in_seconds : ℤ
  pub include_id_token : Bool
  pub refresh_err : String
  pub omit_refresh_token : Bool
  pub auth_code_err : String
  pub omit_device_expires_in : Bool
  pub token_exchange_err : String
  pub issued_token_type : String
  pub nonce_for_auth_code : String
  pub require_client_auth : String
  pub expected_client_secret : String
  pub assertion_jtis : List String
  pub last_token_exchange_form : Option Form

-- NewMockIssuer, before a test sets its fields.
unfoldable pub new_mock_issuer : MockIssuer
new_mock_issuer = record {
  device_codes = [];
  refresh_seq = 0;
  refresh_calls = 0;
  issuer_override = "";
  no_device_endpoint = false;
  grant_types_supported = none;
  code_challenge_methods_supported = none;
  pending_polls = 0;
  device_interval_seconds = pos 1;
  device_expires_in_seconds = pos 300;
  include_id_token = false;
  refresh_err = "";
  omit_refresh_token = false;
  auth_code_err = "";
  omit_device_expires_in = false;
  token_exchange_err = "";
  issued_token_type = "";
  nonce_for_auth_code = "";
  require_client_auth = "";
  expected_client_secret = "";
  assertion_jtis = [];
  last_token_exchange_form = none;
}

-- What a handler writes: a JSON object, or an error by http.Error.
pub data Reply : Type 0 where
  json_reply : ℕ → List (String × Json) → Reply
  error_reply : ℕ → Error → Reply

-- LastTokenExchangeRequest, AssertionJTIs and RefreshCallCount
abbrev pub last_token_exchange_request : MockIssuer → Option Form
last_token_exchange_request m = m.last_token_exchange_form

abbrev pub assertion_jtis_of : MockIssuer → List String
assertion_jtis_of m = m.assertion_jtis

abbrev pub refresh_call_count : MockIssuer → ℕ
refresh_call_count m = m.refresh_calls

-- `r.Form.Get(key)`
abbrev pub first_or_empty : Option (List String) → String
first_or_empty (some (v ∷ vs)) = v
first_or_empty _ = ""

unfoldable pub get : Form → String → String
get form key = first_or_empty (lookup key form)

abbrev text_items : List String → Items
text_items [] = done
text_items (x ∷ xs) = item (text x) (text_items xs)

abbrev with_texts : String → Option (List String) → List (String × Json) → List (String × Json)
with_texts name none doc = doc
with_texts name (some xs) doc = doc ++ ((name, array (text_items xs)) ∷ [])

-- writeTokenError
unfoldable pub write_token_error : ℕ → String → Reply
write_token_error status code = json_reply status (("error", text code) ∷ [])

-- `for k, v := range extra { resp[k] = v }`
unfoldable pub merge : List (String × Json) → List (String × Json) → List (String × Json)
merge [] resp = resp
merge ((k, v) ∷ extra) resp = merge extra (insert k v resp)

module _ (url : String) (itoa : ℕ → String) where
  -- handleDiscovery
  unfoldable pub handle_discovery : MockIssuer → Reply
  handle_discovery m =
      let issuer = if is_empty m.issuer_override then url else m.issuer_override in
      let doc =
        ("issuer", text issuer)
        ∷ ("authorization_endpoint", text (url <> "/authorize"))
        ∷ ("token_endpoint", text (url <> "/token"))
        ∷ ("jwks_uri", text (url <> "/jwks"))
        ∷ (if m.no_device_endpoint
            then []
            else ("device_authorization_endpoint", text (url <> "/device_authorization")) ∷ []) in
      json_reply 200 (
        with_texts "code_challenge_methods_supported" m.code_challenge_methods_supported
          (with_texts "grant_types_supported" m.grant_types_supported doc))

  -- handleDeviceAuthorization; the next code is numbered by the count of codes.
  unfoldable pub next_device_code : MockIssuer → String
  next_device_code m = "device-code-" <> itoa (suc (length m.device_codes))

  unfoldable pub handle_device_authorization : MockIssuer → Reply × MockIssuer
  unfolding next_device_code
  handle_device_authorization m =
      let code = next_device_code m in
      (
        json_reply 200 (
            ("device_code", text code)
            ∷ ("user_code", text "USER-CODE")
            ∷ ("verification_uri", text (url <> "/verify"))
            ∷ ("interval", number m.device_interval_seconds)
            ∷ (if m.omit_device_expires_in
                then []
                else ("expires_in", number m.device_expires_in_seconds) ∷ [])),
        record m {
          device_codes = insert code (record { user_code = "USER-CODE"; polls = 0 }) m.device_codes;
        },
      )
