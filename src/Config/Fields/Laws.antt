-- ===== src/Config/Fields/Laws.antt =====
-- What the command line, the config file and the environment give the configuration: from the
-- arguments to the fields that Parse of internal/config/config.go returns.
use oidc_token_cli.Base.{
  String, ◌≡◌, refl, ap, ◌∙◌, Bool, false, ◌||◌, Option, none, some, List, [], lookup, contains,
  if◌then◌else◌, All, ok, arith,
}
use oidc_token_cli.Base.Json.{Json, ℤ}
use oidc_token_cli.Flagbinding.{Binding, Layers, resolve_string, file_value, env_value}
use oidc_token_cli.Flagbinding.Laws.{
  first_of_layers, flag_layer, typed, as_string, resolve_string-layers,
}
use oidc_token_cli.Flagbinding.Registration.{Value, string_value, register_var, register_all}
use oidc_token_cli.Config.{Config}
use oidc_token_cli.Config.Arguments.Spelling.{
  Setting, spell_all, IsPlain, left_after, apply_all, set_names, parse_all-spell_all,
}
use oidc_token_cli.Config.Arguments.Spelling.Values.{
  is_given, last_given, string-apply_all, contains-set_names,
}
use oidc_token_cli.Config.Resolve.{Flags, Host, binding, read_config, resolved, layers}
use oidc_token_cli.Config.Parse.{parse, copy_bridges}
use oidc_token_cli.Config.Parse.Kept.{IsKept, parse_with-kept}
use oidc_token_cli.Config.Fields.{
  registered, values, flags_of, parsed_flags, parse_flags, string_of,
}
use oidc_token_cli.Grant.TokenExchange.{TokenExchange}
use oidc_token_cli.Subjecttoken.{TokenOrigin}

-- The text fields of the configuration that only the precedence stack sets.
pub data TextField : Type 0 where
  an_issuer a_client_id a_scope an_audience a_grant_type a_token_type a_store an_auth_method :
      TextField
  a_key_path a_key_id a_key_alg an_assertion_audience : TextField

abbrev pub binding_of : TextField → Binding
binding_of an_issuer = binding "issuer" "OIDC_TOKEN_ISSUER" "issuer"
binding_of a_client_id = binding "client-id" "OIDC_TOKEN_CLIENT_ID" "client_id"
binding_of a_scope = binding "scope" "OIDC_TOKEN_SCOPE" "scope"
binding_of an_audience = binding "audience" "OIDC_TOKEN_AUDIENCE" "audience"
binding_of a_grant_type = binding "grant-type" "OIDC_TOKEN_GRANT_TYPE" "grant_type"
binding_of a_token_type = binding "token-type" "OIDC_TOKEN_TOKEN_TYPE" "token_type"
binding_of a_store = binding "token-store" "OIDC_TOKEN_STORE" "token_store"
binding_of an_auth_method =
    binding "client-auth-method" "OIDC_TOKEN_CLIENT_AUTH_METHOD" "client_auth_method"
binding_of a_key_path = binding "private-key-file" "OIDC_TOKEN_PRIVATE_KEY_FILE" "private_key_file"
binding_of a_key_id = binding "private-key-id" "OIDC_TOKEN_PRIVATE_KEY_ID" "private_key_id"
binding_of a_key_alg = binding "private-key-alg" "OIDC_TOKEN_PRIVATE_KEY_ALG" "private_key_alg"
binding_of an_assertion_audience =
    binding "client-assertion-audience" "OIDC_TOKEN_CLIENT_ASSERTION_AUDIENCE"
      "client_assertion_audience"

abbrev pub default_of : TextField → String
default_of a_scope = "openid offline_access"
default_of a_grant_type = "auto"
default_of a_token_type = "access_token"
default_of a_store = "auto"
default_of a_key_alg = "RS256"
default_of _ = ""

abbrev pub value_of : {K : Type 0} → TextField → Config K → String
value_of an_issuer c = c.issuer
value_of a_client_id c = c.client_id
value_of a_scope c = c.scope
value_of an_audience c = c.audience
value_of a_grant_type c = c.grant_type
value_of a_token_type c = c.token_type
value_of a_store c = c.token_store
value_of an_auth_method c = c.client_auth_method
value_of a_key_path c = c.private_key_path
value_of a_key_id c = c.private_key_id
value_of a_key_alg c = c.private_key_signing_alg
value_of an_assertion_audience c = c.client_assertion_audience

-- What the flags point to before the arguments are parsed.
unfoldable pub starting : List (String × Value)
unfolding registered
starting = elim registered [ none ↦ [] | some fs ↦ values fs ]

starting-lookup :
    (u : TextField) → lookup (binding_of u).flag_name starting ≡ some (string_value (default_of u))
unfolding starting registered register_var register_all lookup
starting-lookup an_issuer = refl
starting-lookup a_client_id = refl
starting-lookup a_scope = refl
starting-lookup an_audience = refl
starting-lookup a_grant_type = refl
starting-lookup a_token_type = refl
starting-lookup a_store = refl
starting-lookup an_auth_method = refl
starting-lookup a_key_path = refl
starting-lookup a_key_id = refl
starting-lookup a_key_alg = refl
starting-lookup an_assertion_audience = refl

-- Two configurations agree in all of these fields.
abbrev SameTexts : {K : Type 0} → Config K → Config K → Type 0
SameTexts c d =
    (c.issuer ≡ d.issuer)
    × (c.client_id ≡ d.client_id)
    × (c.scope ≡ d.scope)
    × (c.audience ≡ d.audience)
    × (c.grant_type ≡ d.grant_type)
    × (c.token_type ≡ d.token_type)
    × (c.token_store ≡ d.token_store)
    × (c.client_auth_method ≡ d.client_auth_method)
    × (c.private_key_path ≡ d.private_key_path)
    × (c.private_key_id ≡ d.private_key_id)
    × (c.private_key_signing_alg ≡ d.private_key_signing_alg)
    × (c.client_assertion_audience ≡ d.client_assertion_audience)

SameTexts-value_of :
    {K : Type 0} (u : TextField) (c d : Config K) → SameTexts c d → value_of u c ≡ value_of u d
SameTexts-value_of an_issuer c d same = same.0
SameTexts-value_of a_client_id c d same = same.1
SameTexts-value_of a_scope c d same = same.2
SameTexts-value_of an_audience c d same = same.3
SameTexts-value_of a_grant_type c d same = same.4
SameTexts-value_of a_token_type c d same = same.5
SameTexts-value_of a_store c d same = same.6
SameTexts-value_of an_auth_method c d same = same.7
SameTexts-value_of a_key_path c d same = same.8
SameTexts-value_of a_key_id c d same = same.9
SameTexts-value_of a_key_alg c d same = same.10
SameTexts-value_of an_assertion_audience c d same = same.11

value_of-IsKept : {W K : Type 0} (u : TextField) → IsKept W {K = K} (value_of u)
unfolding copy_bridges
value_of-IsKept u = record {
  by_secret = λ c s.
      SameTexts-value_of u _ c
        (refl, refl, refl, refl, refl, refl, refl, refl, refl, refl, refl, refl);
  by_dir = λ c s.
      SameTexts-value_of u _ c
        (refl, refl, refl, refl, refl, refl, refl, refl, refl, refl, refl, refl);
  by_key = λ c k.
      SameTexts-value_of u _ c
        (refl, refl, refl, refl, refl, refl, refl, refl, refl, refl, refl, refl);
  by_grants = λ port te c.
      SameTexts-value_of u (copy_bridges port te c) c
        (refl, refl, refl, refl, refl, refl, refl, refl, refl, refl, refl, refl);
}

or_false : (b : Bool) → (b || false) ≡ b
or_false b = ground arith

module _ {K : Type 0} (host : Host K) where
  resolved-value_of :
      (u : TextField) (flags : Flags) (fc : Option (List (String × Json)))
      → value_of u (resolved host flags fc)
        ≡ resolve_string
            (binding_of u)
            (layers host flags fc)
            (flags.string_flag (binding_of u).flag_name)
            (default_of u)
  unfolding resolved
  resolved-value_of an_issuer flags fc = refl
  resolved-value_of a_client_id flags fc = refl
  resolved-value_of a_scope flags fc = refl
  resolved-value_of an_audience flags fc = refl
  resolved-value_of a_grant_type flags fc = refl
  resolved-value_of a_token_type flags fc = refl
  resolved-value_of a_store flags fc = refl
  resolved-value_of an_auth_method flags fc = refl
  resolved-value_of a_key_path flags fc = refl
  resolved-value_of a_key_id flags fc = refl
  resolved-value_of a_key_alg flags fc = refl
  resolved-value_of an_assertion_audience flags fc = refl

  -- What is explicit after a command line that spells out settings.
  abbrev pub layers_after : List Setting → Option (List (String × Json)) → Layers
  layers_after settings fc = record {
    getenv = host.getenv;
    file = fc;
    explicit = λ name. contains (set_names settings []) name;
  }

  -- The layers of a field: its last setting on the command line, the config file, the environment,
  -- and its default.
  abbrev pub from_layers : TextField → List Setting → Option (List (String × Json)) → String
  from_layers u settings fc =
      first_of_layers
        (if is_given (binding_of u).flag_name settings
          then some (last_given (binding_of u).flag_name settings (default_of u))
          else none)
        (typed as_string (file_value (binding_of u) (layers_after settings fc)))
        (env_value (binding_of u) (layers_after settings fc)) (default_of u)

  first_of_layers-given :
      (u : TextField) (settings : List Setting) (fc : Option (List (String × Json)))
      (flag_val : String)
      → flag_val ≡ last_given (binding_of u).flag_name settings (default_of u)
      → first_of_layers
          (flag_layer (binding_of u) (layers_after settings fc) flag_val)
          (typed as_string (file_value (binding_of u) (layers_after settings fc)))
          (env_value (binding_of u) (layers_after settings fc))
          (default_of u)
        ≡ from_layers u settings fc
  first_of_layers-given u settings fc flag_val value =
      rw (contains-set_names (binding_of u).flag_name settings [] ∙ or_false _, value) refl

  module _ (parse_int : String → Option ℤ) where
    parse_flags-spell_all :
        (settings : List Setting) (gs : List (String × Value)) (rest left : List String)
        → All IsPlain settings
        → apply_all parse_int settings starting ≡ some gs
        → left_after rest ≡ some left
        → parse_flags parse_int (spell_all settings rest)
          ≡ ok (flags_of (record { formal = gs; actual = set_names settings []; args = left }))
    unfolding parse_flags starting
    parse_flags-spell_all settings gs rest left plain accepted stops =
        ap (parsed_flags parse_int)
          (parse_all-spell_all parse_int settings starting gs [] rest left plain accepted stops)

    abbrev pub after : List Setting → List (String × Value) → List String → Flags
    after settings gs left =
        flags_of (record { formal = gs; actual = set_names settings []; args = left })

    -- Where the arguments spell out settings of flags and Parse accepts them: each of the
    -- issuer, the client id, the scope, the audience, the grant type, the token type, the token
    -- store, the client authentication method, the path, the id and the algorithm of the private key
    -- and the audience of the client assertion has the text of the last setting of its flag, or else
    -- that of the config file that is named, or else that of its environment variable, or else its
    -- default.
    pub parse-from_layers :
        {W : Type 0} (u : TextField) (sources : List (TokenOrigin W)) (settings : List Setting)
        (gs : List (String × Value)) (rest left : List String) (final : Config K)
        (te : TokenExchange W)
        → All IsPlain settings
        → apply_all parse_int settings starting ≡ some gs
        → left_after rest ≡ some left
        → parse host parse_int sources (spell_all settings rest) ≡ ok (final, te)
        → (fc : Option (List (String × Json))) × (read_config host (after settings gs left) ≡ ok fc)
          × (value_of u final ≡ from_layers u settings fc)
    unfolding parse flags_of
    parse-from_layers {W} u sources settings gs rest left final te plain accepted stops h =
        let flags = after settings gs left in
        let parsed =
          rw (parse, parse_flags-spell_all settings gs rest left plain accepted stops) at h in
        let (fc, read, same) =
          parse_with-kept host (value_of u) (value_of-IsKept u) sources flags final te parsed in
        let name = (binding_of u).flag_name in
        let value : flags.string_flag name ≡ last_given name settings (default_of u) =
          ap string_of (
            string-apply_all parse_int name settings starting gs (default_of u) accepted
              (starting-lookup u)) in
        let layered =
          resolve_string-layers (binding_of u) (layers host flags fc) (flags.string_flag name)
            (default_of u) in
        (
          fc,
          read,
          same
              ∙ resolved-value_of u flags fc
              ∙ layered
              ∙ first_of_layers-given u settings fc (flags.string_flag name) value,
        )
