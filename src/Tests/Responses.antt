-- ===== src/Tests/Responses.antt =====
-- Responses of a token endpoint, the results they give and how those are printed.
use oidc_token_cli.Base.{
  ℕ, String, ◌≡◌, ◌≢◌, ◌≤◌, ◌<◌, ◌*◌, ◌+◌, refl, ◌↔◌, ◌⊎◌, inl, inr, eq_iff, ◌==◌, if◌then◌else◌,
  Bool, true, false, Option, none, some, List, [], ◌∷◌, lookup, Listed, NodupKeys, Error, message,
  Result, ok, err, M, arith,
}
use oidc_token_cli.Base.Json.{Json, text, pos, object, members}
use oidc_token_cli.Output.{TokenResult, no_result, document}
use oidc_token_cli.Output.Laws.{expected}
use oidc_token_cli.Oidc.{Provider, ClientAuth}
use oidc_token_cli.Oidc.Token.{OauthToken, to_result}
use oidc_token_cli.Oidc.Token.Laws.{result, raw_id_token, IsAccepted}
use oidc_token_cli.Oidc.Request.{
  Claims, Form, Response, TokenResponse, read_response, response_token, delete_all, reserved,
  expiry_after, authenticate,
}
use oidc_token_cli.Oidc.Exchange.{values_of, exchange_form}
use oidc_token_cli.Oidc.Exchange.Laws.{parameters, all_values, exchange_form-parameters}
use oidc_token_cli.Oidc.Device.{device_assertion_lifetime, device_assertion_lifetime-bounded}
use oidc_token_cli.Base.{◌++◌}
use oidc_token_cli.Oidc.Request.Secret.{authenticate-secret, request}
use oidc_token_cli.Oidc.Request.Laws.{
  IsGranted, read_response-ok, read_response-extra, read_response-document, expiry_after-exact,
}

abbrev granted : TokenResponse
granted = record {
  access_token = "at";
  token_type = "Bearer";
  refresh_token = "rt";
  expires_in = pos 3600;
  id_token = "id";
  issued_token_type = "";
  error = "";
}

-- An extension field beside the access token.
abbrev raw : String → List (String × Json)
raw body = ("access_token", text "at") ∷ ("resource", text "r") ∷ []

abbrev decode : String → Result TokenResponse
decode body = ok granted

abbrev pub clock : ℕ → ℕ
clock w = w

abbrev response : Response
response = record { status = 200; body = ok "{}" }

abbrev token : OauthToken
token = record {
  access_token = "at";
  token_type = "Bearer";
  refresh_token = "rt";
  expiry = 3600000000005;
  extra =
      ("id_token", text "id")
      ∷ ("issued_token_type", text "")
      ∷ ("_extensions", object (members (("resource", text "r") ∷ [])))
      ∷ [];
}

-- A verifier that accepts every token, with one nonce.
abbrev verify : String → M ℕ String
verify raw_token w = (ok "n1", w)

received : read_response clock decode raw response 5 ≡ (ok token, 5)
unfolding read_response oidc_token_cli.Base.erase
received = refl

read_response-ok_example :
    (body : String) × (tr : TokenResponse) × IsGranted clock decode raw verify response body tr
    × (token ≡ response_token tr (delete_all reserved (raw body)) 5)
read_response-ok_example = read_response-ok clock decode raw verify response 5 5 token received

Listed-access_token : Listed "access_token" reserved
Listed-access_token = inl refl

read_response-extra_example : lookup "access_token" (to_result verify token "n1" 5).0.extra ≡ none
read_response-extra_example =
    read_response-extra clock decode raw verify response 5 5 token "n1" 5 "access_token" received
      Listed-access_token

read_response-document_example :
    lookup "access_token" (document (λ t. "") (to_result verify token "n1" 5).0)
    ≡ expected (λ t. "") (to_result verify token "n1" 5).0 "access_token"
read_response-document_example =
    read_response-document clock decode raw verify (λ t. "") response 5 5 token "n1" 5
      "access_token" received Listed-access_token

id-ne-empty : ◌≢◌ {A = String} "id" ""
id-ne-empty = ground (arith, eq_iff "id" "")

has_raw_id_token : raw_id_token token ≢ ""
unfolding lookup
has_raw_id_token = id-ne-empty

has_id_token : (result verify token "n1" 5).id_token ≢ ""
unfolding to_result
has_id_token = id-ne-empty

accepted : IsAccepted verify token "n1" 5
accepted = ("n1", refl, inr refl)

abbrev pub confidential : Provider (Unit {0})
confidential = record {
  issuer = "https://issuer";
  client_id = "cli";
  audience = "";
  auth_url = "https://issuer/authorize";
  token_url = "https://issuer/token";
  claims = record {
    device_authorization_endpoint = "";
    grant_types_supported = [];
    scopes_supported = [];
    code_challenge_methods_supported = [];
  };
  client_auth = record {
    method = "client_secret_post";
    secret = "s3";
    signer = none;
    key_id = "";
    alg = "";
    audience = "";
  };
}

abbrev pub random : M ℕ String
random w = (ok "jti", w)

abbrev pub sign : ClientAuth (Unit {0}) → Claims → Result String
sign auth claims = err (message "no key")

abbrev pub sent : Form
sent =
    ("grant_type", "refresh_token" ∷ [])
    ∷ ("client_id", "cli" ∷ [])
    ∷ ("client_secret", "s3" ∷ [])
    ∷ []

pub authenticated :
    authenticate random clock sign confidential (("grant_type", "refresh_token" ∷ []) ∷ []) 5
    ≡ (ok sent, 5)
unfolding authenticate oidc_token_cli.Base.insert
authenticated = refl

pub no_secret :
    lookup {V = List String} "client_secret" (("grant_type", "refresh_token" ∷ []) ∷ []) ≡ none
unfolding lookup
no_secret = refl

authenticate-secret_example :
    (lookup "client_id" sent ≡ some ("cli" ∷ []))
    × (lookup "client_secret" sent ≡ some ("s3" ∷ []))
    × ((request random clock sign confidential "https://issuer/token" sent).basic_auth ≡ none)
authenticate-secret_example =
    authenticate-secret random clock sign confidential "https://issuer/token"
      (("grant_type", "refresh_token" ∷ []) ∷ []) sent 5 5 no_secret authenticated

expiry_after-exact_example : expiry_after 3600 7 ≡ 7 + 3600 * 1000000000
expiry_after-exact_example = expiry_after-exact 3600 7 (omega arith)

abbrev extended : TokenResult
extended = record no_result {
  access_token = "at";
  expiry = 5;
  extra = ("expiry", text "never") ∷ [];
}

found_extra : lookup "expiry" extended.extra ≡ some (text "never")
unfolding lookup
found_extra = refl

no_other : lookup {V = Json} "expiry" [] ≡ none
unfolding lookup
no_other = refl

-- A second `subject_token` that is asked for comes after that of the exchange.
exchange_form-parameters_example :
    values_of "subject_token"
      (exchange_form "api" "openid" "st" "urn:t" "" [] (("subject_token", "other" ∷ []) ∷ []))
    ≡ parameters "subject_token" "api" "openid" "st" "urn:t" "" []
      ++ all_values "subject_token" (("subject_token", "other" ∷ []) ∷ [])
exchange_form-parameters_example =
    exchange_form-parameters "subject_token" "api" "openid" "st" "urn:t" "" []
      (("subject_token", "other" ∷ []) ∷ [])

device_assertion_lifetime-bounded_example :
    (0 < device_assertion_lifetime 5 65000000005)
    × (device_assertion_lifetime 5 65000000005 ≤ 900000000000)
    × (5 < 65000000005
        → (5 + device_assertion_lifetime 5 65000000005 ≤ 65000000005)
          × ((5 + device_assertion_lifetime 5 65000000005 ≡ 65000000005)
              ⊎ (device_assertion_lifetime 5 65000000005 ≡ 900000000000)))
    × (65000000005 ≤ 5 → device_assertion_lifetime 5 65000000005 ≡ 300000000000)
device_assertion_lifetime-bounded_example = device_assertion_lifetime-bounded 5 65000000005
