-- ===== src/Config/Fields.antt =====
-- The table of fields in Parse of internal/config/config.go with those of the grants
-- (internal/grant/authcode/authcode.go, internal/grant/tokenexchange/tokenexchange.go; the
-- device-code grant has none), the registration of all flags, and the values that the arguments
-- give them.
pub mod Laws
pub mod Help
use oidc_token_cli.Base.{
  String, Bool, true, false, Option, none, some, List, [], ◌∷◌, ◌++◌, lookup, contains, Error,
  message, Result, ok, err,
}
use oidc_token_cli.Base.Json.{ℤ, pos}
use oidc_token_cli.Oidc.Request.{Form}
use oidc_token_cli.Flagbinding.Registration.{
  Value, string_value, bool_value, int_value, slice_value, extra_value, Field, string_field,
  bool_field, int_field, slice_field, Registered, register_var, register_all,
}
use oidc_token_cli.Config.Resolve.{Flags, binding}
use oidc_token_cli.Config.Arguments.{FlagSet, parse_all}

-- The fields that every grant shares.
abbrev pub fields : List Field
fields =
    string_field (binding "issuer" "OIDC_TOKEN_ISSUER" "issuer") "OIDC issuer URL" ""
    ∷ string_field (binding "client-id" "OIDC_TOKEN_CLIENT_ID" "client_id") "OAuth2 client ID" ""
    ∷ string_field (binding "scope" "OIDC_TOKEN_SCOPE" "scope") "space-separated OAuth2 scopes"
        "openid offline_access"
    ∷ string_field (binding "audience" "OIDC_TOKEN_AUDIENCE" "audience")
        "audience (aud) claim for the token request" ""
    ∷ string_field (binding "grant-type" "OIDC_TOKEN_GRANT_TYPE" "grant_type")
        "auto|authcode|device-code|token-exchange" "auto"
    ∷ string_field (binding "token-type" "OIDC_TOKEN_TOKEN_TYPE" "token_type")
        "access_token|id_token" "access_token"
    ∷ string_field (binding "token-store-dir" "OIDC_TOKEN_STORE_DIR" "token_store_dir")
        "token store directory for the file backend" ""
    ∷ string_field (binding "token-store" "OIDC_TOKEN_STORE" "token_store")
        "auto|keychain|file|none" "auto"
    ∷ bool_field (binding "non-interactive" "OIDC_TOKEN_NON_INTERACTIVE" "non_interactive")
        "disable browser and device-code prompts" false
    ∷ string_field (binding "format" "OIDC_TOKEN_FORMAT" "format") "token|json|exec-credential"
        "token"
    ∷ bool_field (binding "all" "" "all")
        "print full JSON token response (deprecated: use --format=json)" false
    ∷ bool_field (binding "logout" "OIDC_TOKEN_LOGOUT" "logout") "clear cached tokens and exit"
        false
    ∷ string_field
        (binding "client-auth-method" "OIDC_TOKEN_CLIENT_AUTH_METHOD" "client_auth_method")
        "client_secret_basic|client_secret_post|private_key_jwt" ""
    ∷ string_field (binding "client-secret" "OIDC_TOKEN_CLIENT_SECRET" "client_secret")
        "client secret for client_secret_basic or client_secret_post" ""
    ∷ string_field (binding "private-key-file" "OIDC_TOKEN_PRIVATE_KEY_FILE" "private_key_file")
        "PEM private key file for private_key_jwt" ""
    ∷ string_field (binding "private-key-id" "OIDC_TOKEN_PRIVATE_KEY_ID" "private_key_id")
        "kid header for the private_key_jwt assertion" ""
    ∷ string_field (binding "private-key-alg" "OIDC_TOKEN_PRIVATE_KEY_ALG" "private_key_alg")
        "signing algorithm for private_key_jwt" "RS256"
    ∷ string_field
        (binding "client-assertion-audience" "OIDC_TOKEN_CLIENT_ASSERTION_AUDIENCE"
          "client_assertion_audience")
        "aud claim override for private_key_jwt" ""
    ∷ []

-- Fields of AuthCode
abbrev pub authcode_fields : List Field
authcode_fields =
    int_field (binding "redirect" "" "redirect_port") "loopback callback port for authcode" (pos 0)
    ∷ []

-- Fields of TokenExchange
abbrev pub token_exchange_fields : List Field
token_exchange_fields =
    string_field (binding "subject-token" "OIDC_TOKEN_SUBJECT_TOKEN" "subject_token")
      "subject_token value for token exchange" ""
    ∷ string_field
        (binding "subject-token-type" "OIDC_TOKEN_SUBJECT_TOKEN_TYPE" "subject_token_type")
        "subject_token_type per RFC 8693" ""
    ∷ string_field (binding "requested-token-type" "" "requested_token_type")
        "requested_token_type per RFC 8693" ""
    ∷ string_field
        (binding "subject-token-source" "OIDC_TOKEN_SUBJECT_TOKEN_SOURCE" "subject_token_source")
        "subject_token source: github-actions" ""
    ∷ slice_field (binding "resource" "" "resource") "target resource URI (repeatable)"
    ∷ []

abbrev then_register :
    {A : Type 0}
    → Option A
    → (A → Option (List (String × Registered)))
    → Option (List (String × Registered))
then_register none next = none
then_register (some fs) next = next fs

-- The registrations of Parse in their order; `none` is the panic for a name that comes twice.
unfoldable pub registered : Option (List (String × Registered))
unfolding register_var register_all
registered =
    then_register (register_var "config" "path to a JSON config file" (string_value "") []) λ f1.
      then_register
        (register_var "client-secret-file" "file containing the client secret" (string_value "") f1)
        λ f2.
          then_register (register_all (fields ++ (authcode_fields ++ token_exchange_fields)) f2)
            λ f3.
              then_register
                (register_var "subject-token-file" "file containing the subject_token"
                  (string_value "") f3)
                λ f4.
                  register_var "extra" "extra key=value pair for the token endpoint (repeatable)"
                    (extra_value []) f4

abbrev pub values : List (String × Registered) → List (String × Value)
values [] = []
values ((name, f) ∷ fs) = (name, f.value) ∷ values fs

abbrev pub string_of : Option Value → String
string_of (some (string_value s)) = s
string_of _ = ""

abbrev bool_of : Option Value → Bool
bool_of (some (bool_value b)) = b
bool_of _ = false

abbrev int_of : Option Value → ℤ
int_of (some (int_value n)) = n
int_of _ = pos 0

abbrev pub slice_of : Option Value → List String
slice_of (some (slice_value xs)) = xs
slice_of _ = []

abbrev form_of : Option Value → Form
form_of (some (extra_value form)) = form
form_of _ = []

-- What the pointers of the fields and `extras` point to, and `fs.Visit`.
unfoldable pub flags_of : FlagSet → Flags
flags_of f = record {
  string_flag = λ name. string_of (lookup name f.formal);
  bool_flag = λ name. bool_of (lookup name f.formal);
  int_flag = λ name. int_of (lookup name f.formal);
  list_flag = λ name. slice_of (lookup name f.formal);
  extras = form_of (lookup "extra" f.formal);
  explicit = λ name. contains f.actual name;
}

module _ (parse_int : String → Option ℤ) where
  abbrev pub parsed_flags : Result FlagSet → Result Flags
  parsed_flags (ok f) = ok (flags_of f)
  parsed_flags (err e) = err e

  -- Step 1 of Parse.
  unfoldable pub parse_flags : List String → Result Flags
  unfolding registered parse_all flags_of
  parse_flags args = elim registered [
    | none ↦ err (message "flag redefined")
    | some fs ↦
        parsed_flags (parse_all parse_int (record { formal = values fs; actual = []; args = args }))
  ]
