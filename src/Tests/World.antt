-- ===== src/Tests/World.antt =====
-- A token store in memory, whose world is a map from profiles to entries, and a configuration.
use oidc_token_cli.Base.{
  String, ◌==◌, ◌≡◌, refl, ap, sym, ◌∙◌, eq_refl, false, ◌&&◌, Option, none, some, [],
  if◌then◌else◌, Result, ok, arith,
}
use oidc_token_cli.Base.Json.{pos}
use oidc_token_cli.Output.{TokenResult, no_result}
use oidc_token_cli.Cache.{Entry, Store}
use oidc_token_cli.Cache.Lawful.{View, IsLawful}
use oidc_token_cli.Config.{Config}
use oidc_token_cli.Runner.{Runner, TokenSource}

abbrev pub World : Type 0
World = String → String → Option Entry

abbrev pub set : String → String → Option Entry → World → World
set issuer client_id o w i c = if issuer == i && client_id == c then o else w i c

abbrev pub view : View World
view w = w

abbrev pub memory_store : Store World (Result TokenResult)
memory_store = record {
  load = λ i c w. (ok (w i c), w);
  save = λ e w. (ok tt, set e.issuer e.client_id (some e) w);
  delete = λ i c w. (ok tt, set i c none w);
  with_lock = λ i c f. f;
}

set-same : (i c : String) (o : Option Entry) (w : World) → set i c o w i c ≡ o
set-same i c o w = ground (arith, eq_refl i, eq_refl c)

pub memory_store-IsLawful : IsLawful view memory_store
memory_store-IsLawful = record {
  load-ok = λ i c w v o h. (ground arith, ap (λ p. p.1 i c) (sym h) ∙ ground arith);
  save-ok = λ e w v h.
      ap (λ p. p.1 e.issuer e.client_id) (sym h) ∙ set-same e.issuer e.client_id (some e) w;
  delete-ok = λ i c w v h. ap (λ p. p.1 i c) (sym h) ∙ set-same i c none w;
  with_lock-ok = λ i c f w v a h. (w, v, h, refl);
}

abbrev pub config : Config (Unit {0})
config = record {
  issuer = "https://issuer";
  client_id = "cli";
  scope = "openid offline_access";
  audience = "";
  grant_type = "auto";
  token_type = "id_token";
  token_store_dir = "/cache";
  token_store = "file";
  redirect_port = pos 0;
  non_interactive = false;
  format = "token";
  all = false;
  logout = false;
  extra_fields = [];
  client_auth_method = "";
  client_secret = "";
  private_key_path = "";
  private_key_id = "";
  private_key_signing_alg = "RS256";
  client_assertion_audience = "";
  private_key = none;
  subject_token = "";
  subject_token_type = "";
  requested_token_type = "";
  resources = [];
  subject_token_source = "";
}

-- A minute before the present, and an hour after it.
abbrev pub stale_entry : Entry
stale_entry = record {
  issuer = "https://issuer";
  client_id = "cli";
  access_token = "old";
  id_token = "old-id";
  refresh_token = "r1";
  expiry = 940000000000;
}

-- The issuer refreshes the tokens and does not rotate the refresh token.
abbrev pub refreshed : TokenResult
refreshed = record no_result { access_token = "new"; id_token = "new-id"; expiry = 4600000000000 }

abbrev pub source : TokenSource World
source = record {
  refresh = λ token w. (ok refreshed, w);
  login = λ w. (ok (record refreshed { refresh_token = "r2" }), w);
}

abbrev pub runner : Runner World (Unit {0})
runner = record {
  cache = memory_store;
  source = source;
  config = config;
  now = λ w. 1000000000000;
  warn = none;
}
