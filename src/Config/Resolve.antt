-- ===== src/Config/Resolve.antt =====
-- The first half of Parse in internal/config/config.go: the config file, and the precedence stack
-- for every field of the configuration and of the grants. `os.ReadFile`, the
-- JSON decoder, the PEM and key parsers, the home directory, `filepath.Join`, `strings.Split` and
-- `strconv.Atoi` are parameters.
pub mod Laws
use oidc_token_cli.Base.{
  String, Bool, false, not, ◌&&◌, Option, none, some, List, [], ◌∷◌, is_empty, if◌then◌else◌,
  lookup, insert, wrap, Result, ok, err,
}
use oidc_token_cli.Base.Json.{Json, ℤ, pos, text, object, fields}
use oidc_token_cli.Config.{Config}
use oidc_token_cli.Flagbinding.{
  Binding, Layers, resolve_string, resolve_bool, resolve_int, resolve_slice,
}
use oidc_token_cli.Grant.TokenExchange.{TokenExchange}
use oidc_token_cli.Subjecttoken.{TokenOrigin}

-- What flag parsing gives: the value of each flag, its default if it was not set, and the names of
-- the flags that were set. `extras` is what `--extra` has collected.
pub record Flags : Type 0 where
  pub string_flag : String → String
  pub bool_flag : String → Bool
  pub int_flag : String → ℤ
  pub list_flag : String → List String
  pub extras : List (String × List String)
  pub explicit : String → Bool

-- `cfg.ExtraFields.Set(k, s)` for the texts of the file's `extra` object.
unfoldable pub set_texts :
    List (String × Json) → List (String × List String) → List (String × List String)
set_texts [] form = form
set_texts ((k, text s) ∷ m) form = set_texts m (insert k (s ∷ []) form)
set_texts ((k, v) ∷ m) form = set_texts m form

-- `rawFC["extra"].(map[string]any)`, of a file that may not be there.
unfoldable pub file_extra : Option (List (String × Json)) → List (String × Json)
file_extra none = []
file_extra (some fc) = elim (lookup "extra" fc) [ some (object m) ↦ fields m | _ ↦ [] ]

abbrev pub binding : String → String → String → Binding
binding flag_name env_key json_key = record {
  flag_name = flag_name;
  env_key = env_key;
  json_key = json_key;
}

-- The three key parsers, in the order in which they are tried. A PKCS#8 key that cannot sign is
-- `some none`.
pub record KeyParsers (K : Type 0) : Type 0 where
  pub pem_decode : String → Option String
  pub pkcs8 : String → Option (Option K)
  pub pkcs1 : String → Option K
  pub ec : String → Option K

-- What Parse uses of the operating system and of the standard library.
pub record Host (K : Type 0) : Type 0 where
  pub parsers : KeyParsers K
  pub read_file : String → Result String
  pub decode : String → Result (List (String × Json))
  pub home : Result String
  pub join : String → String → String
  pub split : String → List String
  pub atoi : String → Option ℤ
  pub getenv : String → String

module _ {K : Type 0} (host : Host K) where
  open host use {read_file, decode, split, atoi, getenv}

  -- `--config`: the file, decoded, or nil.
  unfoldable pub read_config : Flags → Result (Option (List (String × Json)))
  read_config flags =
      let path = flags.string_flag "config" in
      if is_empty path then ok none else elim (read_file path) [
        | err e ↦ err (wrap "config: read config file" e)
        | ok b ↦ elim (decode b) [
          | err e ↦ err (wrap "config: parse config file" e)
          | ok fc ↦ ok (some fc)
        ]
      ]

  abbrev pub layers : Flags → Option (List (String × Json)) → Layers
  layers flags fc = record { getenv = getenv; file = fc; explicit = flags.explicit }

  module _ (flags : Flags) (fc : Option (List (String × Json))) where
    abbrev str : String → String → String → String → String
    str flag_name env_key json_key default =
        resolve_string (binding flag_name env_key json_key) (layers flags fc)
          (flags.string_flag flag_name) default

    abbrev flagged : String → String → String → Bool
    flagged flag_name env_key json_key =
        resolve_bool (binding flag_name env_key json_key) (layers flags fc)
          (flags.bool_flag flag_name) false

    -- The binding table, and steps 4 and the first half of 5.
    unfoldable pub resolved : Config K
    unfolding set_texts file_extra
    resolved =
        let all = flagged "all" "" "all" in
        let format = str "format" "OIDC_TOKEN_FORMAT" "format" "token" in
        record {
          issuer = str "issuer" "OIDC_TOKEN_ISSUER" "issuer" "";
          client_id = str "client-id" "OIDC_TOKEN_CLIENT_ID" "client_id" "";
          scope = str "scope" "OIDC_TOKEN_SCOPE" "scope" "openid offline_access";
          audience = str "audience" "OIDC_TOKEN_AUDIENCE" "audience" "";
          grant_type = str "grant-type" "OIDC_TOKEN_GRANT_TYPE" "grant_type" "auto";
          token_type = str "token-type" "OIDC_TOKEN_TOKEN_TYPE" "token_type" "access_token";
          token_store_dir = str "token-store-dir" "OIDC_TOKEN_STORE_DIR" "token_store_dir" "";
          token_store = str "token-store" "OIDC_TOKEN_STORE" "token_store" "auto";
          redirect_port = pos 0;
          non_interactive =
              flagged "non-interactive" "OIDC_TOKEN_NON_INTERACTIVE" "non_interactive";
          format = if not (flags.explicit "format") && all then "json" else format;
          all = all;
          logout = flagged "logout" "OIDC_TOKEN_LOGOUT" "logout";
          extra_fields =
              set_texts (file_extra fc) (if flags.explicit "extra" then flags.extras else []);
          client_auth_method =
              str "client-auth-method" "OIDC_TOKEN_CLIENT_AUTH_METHOD" "client_auth_method" "";
          client_secret = str "client-secret" "OIDC_TOKEN_CLIENT_SECRET" "client_secret" "";
          private_key_path =
              str "private-key-file" "OIDC_TOKEN_PRIVATE_KEY_FILE" "private_key_file" "";
          private_key_id = str "private-key-id" "OIDC_TOKEN_PRIVATE_KEY_ID" "private_key_id" "";
          private_key_signing_alg =
              str "private-key-alg" "OIDC_TOKEN_PRIVATE_KEY_ALG" "private_key_alg" "RS256";
          client_assertion_audience =
              str "client-assertion-audience" "OIDC_TOKEN_CLIENT_ASSERTION_AUDIENCE"
                "client_assertion_audience" "";
          private_key = none;
          subject_token = "";
          subject_token_type = "";
          requested_token_type = "";
          resources = [];
          subject_token_source = "";
        }

    -- The fields of the authcode and of the token-exchange grant.
    unfoldable pub callback_port : ℤ
    callback_port =
        resolve_int atoi (binding "redirect" "" "redirect_port") (layers flags fc)
          (flags.int_flag "redirect") (pos 0)

    unfoldable pub resolved_grant : {W : Type 0} → List (TokenOrigin W) → TokenExchange W
    resolved_grant sources = record {
      subject_token = str "subject-token" "OIDC_TOKEN_SUBJECT_TOKEN" "subject_token" "";
      subject_token_type =
          str "subject-token-type" "OIDC_TOKEN_SUBJECT_TOKEN_TYPE" "subject_token_type" "";
      requested_token_type = str "requested-token-type" "" "requested_token_type" "";
      resources =
          resolve_slice split (binding "resource" "" "resource") (layers flags fc)
            (flags.list_flag "resource") [];
      subject_token_source =
          str "subject-token-source" "OIDC_TOKEN_SUBJECT_TOKEN_SOURCE" "subject_token_source" "";
      audience = "";
      subject_token_file = flags.string_flag "subject-token-file";
      sources = sources;
    }
