-- ===== src/Tests/Flows.antt =====
-- The negotiation of the interactive grant with an issuer that supports both grants.
use oidc_token_cli.Base.{
  ℕ, String, ◌≡◌, ◌≢◌, refl, ◌↔◌, true, false, Option, none, some, List, [], ◌∷◌, ◌++◌, wrap,
  authorization, as_retrieve, as_authorization, Result, ok, err, M, Listed, wrap,
}
use oidc_token_cli.Base.Json.{pos}
use oidc_token_cli.Output.{TokenResult, no_result}
use oidc_token_cli.Oidc.{Provider, ClientAuth}
use oidc_token_cli.Oidc.Discovery.{
  supports_grant, supports_device_code, set_audience, set_client_auth, Url,
}
use oidc_token_cli.Authflow.{
  Environment, plan, browser_available, terminal_attended, is_per_client_rejection, login_loop,
}
use oidc_token_cli.Authflow.Plan.{plan-ok_iff, wanted_order}
use oidc_token_cli.Authflow.Fallback.{login_loop-Records, Records}
use oidc_token_cli.Authflow.Source.{Source, GrantFlows, login, attempt, configured}
use oidc_token_cli.Authflow.Source
use oidc_token_cli.Grant.TokenExchange.{TokenExchange}
use oidc_token_cli.Grant.Kinds.{auth_code, device_code}
use oidc_token_cli.Grant.Kinds.Laws.{candidates, kinds, opts, plan-candidates_iff}
use oidc_token_cli.Authflow.Source.Laws.{login-ok}

abbrev pub no_auth : ClientAuth (Unit {0})
no_auth = record { method = ""; secret = ""; signer = none; key_id = ""; alg = ""; audience = "" }

abbrev pub provider : Provider (Unit {0})
provider = record {
  issuer = "https://issuer";
  client_id = "cli";
  audience = "";
  auth_url = "https://issuer/authorize";
  token_url = "https://issuer/token";
  claims = record {
    device_authorization_endpoint = "https://issuer/device";
    grant_types_supported =
        "authorization_code" ∷ "urn:ietf:params:oauth:grant-type:device_code" ∷ [];
    scopes_supported = [];
    code_challenge_methods_supported = "S256" ∷ [];
  };
  client_auth = no_auth;
}

abbrev pub desktop : Environment
desktop = record { tty = true; display = true }

abbrev both : List String
both = "authorization_code" ∷ "urn:ietf:params:oauth:grant-type:device_code" ∷ []

planned : plan provider desktop false "auto" ≡ ok both
unfolding plan supports_grant supports_device_code browser_available terminal_attended
planned = refl

plan-ok_iff_example :
    (plan provider desktop false "auto" ≡ ok both)
    ↔ ((both ≢ []) × (both ≡ wanted_order provider desktop false "auto"))
plan-ok_iff_example = plan-ok_iff provider desktop false "auto" both

-- The world counts the attempts. The issuer forbids this client the first grant.
abbrev got : TokenResult
got = record no_result { access_token = "at" }

abbrev flows : GrantFlows (Option (Provider (Unit {0})) × ℕ) (Unit {0})
flows = record {
  device_login = λ p scope prompt extra w. (ok got, (w.0, 1));
  auth_code_login = λ p scope port browser prompt hint extra w.
      (err (wrap "oidc: callback" (authorization "unauthorized_client" "")), w);
  refresh = λ p scope token w. (ok got, w);
  token_exchange = λ p scope token kind requested resources extra w. (ok got, w);
}

abbrev source : Source (Option (Provider (Unit {0})) × ℕ) (Unit {0})
source = record {
  issuer = "https://issuer";
  client_id = "cli";
  scope = "openid";
  audience = "api";
  grant_type = "auto";
  callback_port = pos 0;
  non_interactive = false;
  env = desktop;
  open_browser = none;
  prompt = none;
  extra_fields = [];
  client_auth = no_auth;
  provider = λ w. w.0;
  keep = λ p w. (some p, w.1);
  discover_func = λ issuer client_id w. (ok provider, w);
  flows = flows;
}

abbrev start : Option (Provider (Unit {0})) × ℕ
start = (none, 0)

abbrev known : Option (Provider (Unit {0})) × ℕ
known = (some (record provider { audience = "api" }), 0)

discovered : Source.discover source start ≡ (ok (record provider { audience = "api" }), known)
unfolding Source.discover set_audience set_client_auth
discovered = refl

fell_back : login source start ≡ (ok got, (known.0, 1))
unfolding login Source.discover set_audience set_client_auth plan supports_grant
    supports_device_code browser_available terminal_attended attempt login_loop
    is_per_client_rejection as_retrieve as_authorization
fell_back = refl

login-ok_example :
    (p : Provider (Unit {0})) × (w1 : Option (Provider (Unit {0})) × ℕ) × (Source.discover source
        start
      ≡ (ok p, w1))
    × (grant : String) × (u : Option (Provider (Unit {0})) × ℕ) × Listed grant
        (wanted_order p desktop false "auto")
    × (attempt source p grant u ≡ (ok got, (known.0, 1)))
login-ok_example = login-ok source start (known.0, 1) got fell_back

abbrev attempts : String → M (Option (Provider (Unit {0})) × ℕ) TokenResult
attempts = attempt source provider

login_loop-Records_example :
    (new later : List String) × (both ≡ new ++ later)
    × (new ≡ [] → both ≡ [])
    × Records attempts (λ grant e w. w) (ok no_result) both [] start new
login_loop-Records_example =
    login_loop-Records attempts (λ grant e w. w) (ok no_result) both [] start

-- A `url.Parse` that finds plain http on another host.
abbrev parse_url : String → Result Url
parse_url raw = ok (record { scheme = "http"; hostname = "issuer" })

-- An exchange that is registered, and not for auto.
abbrev exchange : TokenExchange (Option (Provider (Unit {0})) × ℕ)
exchange = record {
  subject_token = "";
  subject_token_type = "";
  requested_token_type = "";
  resources = [];
  subject_token_source = "";
  audience = "";
  subject_token_file = "";
  sources = [];
}

plan-candidates_iff_example :
    ((plan provider desktop false "auto" ≡ ok both)
      ↔ ((both ≢ []) × (both ≡ candidates provider desktop false (kinds source exchange))))
    × ((w : Option (Provider (Unit {0})) × ℕ)
        → (attempt source provider "authorization_code" w
            ≡ (auth_code flows (pos 0)).execute provider (opts source exchange) w)
          × (attempt source provider "urn:ietf:params:oauth:grant-type:device_code" w
              ≡ (device_code flows).execute provider (opts source exchange) w))
plan-candidates_iff_example = plan-candidates_iff source exchange provider both
