-- ===== src/Tests/Settings.antt =====
-- A command line with a config file, resolved and validated.
use oidc_token_cli.Base.{
  ℕ, String, ◌<>◌, ◌≡◌, ◌≢◌, refl, ◌↔◌, ◌⊎◌, inl, inr, eq_iff, ◌==◌, ◌||◌, if◌then◌else◌, Bool,
  true, false, Option, none, some, List, [], ◌∷◌, lookup, All, Error, message, Result, ok, err, M,
  arith,
}
use oidc_token_cli.Base.Json.{Json, pos, text, object, members}
use oidc_token_cli.Config.{Config}
use oidc_token_cli.Config.Validate.{validate, IsValid, validate_iff}
use oidc_token_cli.Config.Resolve.{Flags, Host, file_extra}
use oidc_token_cli.Config.Parse.{grant_names, parse_with}
use oidc_token_cli.Config.Parse.Laws.{parse_with-IsValid}
use oidc_token_cli.Flagbinding.{
  Binding, Layers, resolve_string, resolve_bool, resolve_int, resolve_slice,
}
use oidc_token_cli.Grant.TokenExchange.{TokenExchange, finalize}
use oidc_token_cli.Subjecttoken.{HttpAnswer, fetch_github_actions, TokenOrigin, find_source}

-- Values of string flags that are not empty.
abbrev given : String → String
given name =
    if name == "issuer"
    then "https://issuer"
    else if name == "client-id"
    then "cli"
    else if name == "grant-type"
    then "token-exchange"
    else if name == "subject-token"
    then "st"
    else if name == "config"
    then "conf.json"
    else ""

abbrev flags : Flags
flags = record {
  string_flag = given;
  bool_flag = λ name. false;
  int_flag = λ name. pos 0;
  list_flag = λ name. [];
  extras = ("tenant", "flag" ∷ []) ∷ [];
  explicit = λ name.
      name == "extra"
      || name == "issuer"
      || name == "client-id"
      || name == "grant-type"
      || name == "subject-token";
}

abbrev file : List (String × Json)
file = ("extra", object (members (("tenant", text "file") ∷ []))) ∷ []

abbrev pub host : Host (Unit {0})
host = record {
  parsers = record { pem_decode = λ s. none; pkcs8 = λ s. none; pkcs1 = λ s. none; ec = λ s. none };
  read_file = λ path. ok "{}";
  decode = λ s. ok file;
  home = ok "/home";
  join = λ a b. a <> "/" <> b;
  split = λ s. s ∷ [];
  atoi = λ s. none;
  getenv = λ k. "";
}

abbrev pub no_sources : List (TokenOrigin ℕ)
no_sources = []

abbrev pub final_config : Config (Unit {0})
final_config = record {
  issuer = "https://issuer";
  client_id = "cli";
  scope = "openid offline_access";
  audience = "";
  grant_type = "token-exchange";
  token_type = "access_token";
  token_store_dir = "/home/.cache/oidc-token";
  token_store = "auto";
  redirect_port = pos 0;
  non_interactive = false;
  format = "token";
  all = false;
  logout = false;
  extra_fields = ("tenant", "file" ∷ []) ∷ [];
  client_auth_method = "";
  client_secret = "";
  private_key_path = "";
  private_key_id = "";
  private_key_signing_alg = "RS256";
  client_assertion_audience = "";
  private_key = none;
  subject_token = "st";
  subject_token_type = "urn:ietf:params:oauth:token-type:access_token";
  requested_token_type = "";
  resources = [];
  subject_token_source = "";
}

abbrev pub exchange : TokenExchange ℕ
exchange = record {
  subject_token = "st";
  subject_token_type = "urn:ietf:params:oauth:token-type:access_token";
  requested_token_type = "";
  resources = [];
  subject_token_source = "";
  audience = "";
  subject_token_file = "";
  sources = [];
}

parsed_flags : parse_with host no_sources flags ≡ ok (final_config, exchange)
unfolding parse_with resolve_string lookup resolve_bool find_source resolve_int
    oidc_token_cli.Base.insert resolve_slice
parsed_flags = refl

parse_with-IsValid_example : IsValid final_config grant_names
parse_with-IsValid_example =
    parse_with-IsValid host no_sources flags final_config exchange parsed_flags

validate_iff_example :
    (validate final_config grant_names ≡ ok tt) ↔ IsValid final_config grant_names
validate_iff_example = validate_iff final_config grant_names

tenant_in_file : lookup "tenant" (file_extra (some file)) ≡ some (text "file")
unfolding file_extra lookup
tenant_in_file = refl

-- A job with both variables set, and an endpoint that answers with a token.
abbrev job : String → String
job name = "value"

abbrev answering : String → String → M ℕ HttpAnswer
answering url authorization w = (ok (record { status = 200; body = ok "{}" }), w)

abbrev audience_first : String → String → String
audience_first audience url = audience <> url

fetched :
    fetch_github_actions job (λ raw. ok raw) audience_first answering (λ body. ok "jwt") "api" 0
    ≡ (ok "jwt", 0)
unfolding fetch_github_actions
fetched = refl

-- A source of subject tokens.
abbrev ci : TokenOrigin ℕ
ci = record {
  name = "ci";
  default_token_type = "urn:ietf:params:oauth:token-type:id_token";
  fetch = λ audience w. (ok ("for " <> audience), w);
}

abbrev from_ci : TokenExchange ℕ
from_ci = record {
  subject_token = "";
  subject_token_type = "";
  requested_token_type = "";
  resources = [];
  subject_token_source = "ci";
  audience = "api";
  subject_token_file = "";
  sources = ci ∷ [];
}

abbrev typed_ci : TokenExchange ℕ
typed_ci = record from_ci { subject_token_type = "urn:ietf:params:oauth:token-type:id_token" }

finalized : finalize host.read_file (λ name. false) from_ci ≡ ok typed_ci
unfolding finalize find_source
finalized = refl

abbrev scope : Binding
scope = record { flag_name = "scope"; env_key = "SCOPE"; json_key = "scope" }

abbrev layers : Layers
layers = record {
  getenv = λ k. "email";
  file = some (("scope", text "openid") ∷ []);
  explicit = λ name. false;
}
