-- ===== src/Main.antt =====
-- cmd/oidc-token/main.go and source.go. The world `W` holds all but standard output, whose state is
-- `O`: only `writeResult` is given the writer of standard output, so no other part can reach it.
pub mod Laws
pub mod Stored
pub mod Kept
pub mod Program
use oidc_token_cli.Base.{
  ℕ, String, ◌<>◌, Bool, true, false, not, Option, none, some, List, [], ◌∷◌, ◌==◌, is_empty,
  if◌then◌else◌, Error, message, wrap, is_error, help, Result, ok, err, M,
}
use oidc_token_cli.Base.Json.{Json, pos}
use oidc_token_cli.Output.{
  TokenResult, write_bare, write_all, write_exec_credential, exec_credential_api_version,
}
use oidc_token_cli.Cache.{Store}
use oidc_token_cli.Cache.Chain.{Backend, ChainStore, Notice, chain}
use oidc_token_cli.Cache.Noop.{noop_store}
use oidc_token_cli.Config.{Config}
use oidc_token_cli.Grant.TokenExchange.{TokenExchange, resolve_subject_token}
use oidc_token_cli.Runner.{Runner, TokenSource, run, logout}
use oidc_token_cli.Oidc.{ClientAuth}
use oidc_token_cli.Authflow.{Environment}
use oidc_token_cli.Authflow.Source.{Source, GrantFlows, Writer}
use oidc_token_cli.Oidc.{Provider}

-- What the process gives to `run`: the stores, the sources, the streams and the environment.
pub record Process (W K O : Type 0) : Type 0 where
  pub parse : List String → W → Result (Config K × TokenExchange W)
  pub keychain_store : Store W (Result TokenResult)
  pub keychain_probe : M W (Unit {0})
  pub file_store : String → Store W (Result TokenResult)
  pub notice : Notice W
  pub new_source : Config K → TokenSource W
  -- `newTokenExchange(cfg).TokenExchange(ctx, …)`
  pub exchange : Config K → String → String → String → List String → M W TokenResult
  pub now : W → ℕ
  pub stderr : String → W → W
  pub stdout : String → M O (Unit {0})
  pub getenv : String → String
  pub marshal : List (String × Json) → Result String
  pub format_time : ℕ → String
  pub parse_exec_info : String → Result String

-- `bytes.Buffer`: a write appends and does not fail.
abbrev pub append : String → M String (Unit {0})
append s buf = (ok tt, buf <> s)

module _ {W K O : Type 0} (env : Process W K O) where
  open env use {keychain_store, keychain_probe, file_store, notice, stderr, stdout, getenv, marshal}

  abbrev probed : Result (Unit {0}) × W → Result (Store W (Result TokenResult)) × W
  probed (ok o, v) = (ok keychain_store, v)
  probed (err e, v) = (err (wrap "--token-store=keychain requires a working OS keychain" e), v)

  unfoldable pub build_store : Config K → M W (Store W (Result TokenResult))
  build_store c w =
      if c.token_store == "file"
      then (ok (file_store c.token_store_dir), w)
      else if c.token_store == "keychain"
      then probed (keychain_probe w)
      else if c.token_store == "none"
      then (ok noop_store, w)
      else (
        ok (
            chain (record {
              backends =
                  record { is_file = false; store = keychain_store }
                  ∷ record { is_file = true; store = file_store c.token_store_dir }
                  ∷ [];
              notice = notice;
            })),
        w,
      )

  -- The bytes that `writeResult` builds in memory, or why there are none.
  unfoldable pub render : Config K → TokenResult → Result String
  unfolding write_bare write_all write_exec_credential exec_credential_api_version
  render c res =
      let (answer, buf) =
        (if c.format == "json"
          then write_all append marshal env.format_time res ""
          else if c.format == "exec-credential"
          then write_exec_credential append marshal env.format_time res c.token_type
              (exec_credential_api_version env.parse_exec_info (some getenv)) ""
          else write_bare append res c.token_type "") in
      elim answer [ ok o ↦ ok buf | err e ↦ err e ]

  -- Exit status, and the two parts of the world.
  abbrev pub Exit : Type 0
  Exit = ℕ × W × O

  abbrev failure : Error → W → O → Exit
  failure e w o = (1, stderr "error" w, o)

  abbrev written : W → Result (Unit {0}) × O → Exit
  written w (ok t, o) = (0, w, o)
  written w (err e, o) = failure e w o

  unfoldable pub write_result : Config K → TokenResult → W → O → Exit
  write_result c res w o = elim (render c res) [
    | err e ↦ failure e w o
    | ok bytes ↦ written w (stdout bytes o)
  ]

  -- A result is written, an error is reported.
  abbrev finish : Config K → O → Result TokenResult × W → Exit
  finish c o (ok res, w) = write_result c res w o
  finish c o (err e, w) = failure e w o

  abbrev logged_out : O → Result (Unit {0}) × W → Exit
  logged_out o (ok t, w) = (0, w, o)
  logged_out o (err e, w) = failure e w o

  abbrev exchanged : Config K → O → Result String × W → Exit
  exchanged c o (err e, w) = failure e w o
  exchanged c o (ok token, w) =
      finish c o (env.exchange c token c.subject_token_type c.requested_token_type c.resources w)

  -- The runner of a configuration. That of a logout has no source, and uses none.
  abbrev pub runner_of : Config K → Store W (Result TokenResult) → Runner W K
  runner_of c store = record {
    cache = store;
    source = env.new_source c;
    config = c;
    now = env.now;
    warn = some stderr;
  }

  abbrev with_store : Config K → O → Result (Store W (Result TokenResult)) × W → Exit
  with_store c o (err e, w) = failure e w o
  with_store c o (ok store, w) =
      if c.logout
      then logged_out o (logout (runner_of c store) w)
      else finish c o (run (runner_of c store) w)

  -- The part of `run` behind the parse.
  unfoldable pub execute : Config K → TokenExchange W → W → O → Exit
  execute c te w o =
      if c.grant_type == "token-exchange"
      then exchanged c o (resolve_subject_token (record te { audience = c.audience }) w)
      else with_store c o (build_store c w)

  -- run
  unfoldable pub main : List String → W → O → Exit
  main args w o = elim (env.parse args w) [
    | ok (c, te) ↦ execute c te w o
    | err e ↦ if is_error help e then (0, w, o) else (1, stderr "error" w, o)
  ]

module _ {W K : Type 0} (alg : String → String) (env : Environment)
    (open_browser : String → M W (Unit {0})) (stderr : String → W → W)
    (provider : W → Option (Provider K)) (keep : Provider K → W → W)
    (discover : String → String → M W (Provider K)) (flows : GrantFlows W K) where
  -- newRealSource (source.go); `alg` is the table behind SigningAlg.
  unfoldable pub new_real_source : Config K → Source W K
  new_real_source c = record {
    issuer = c.issuer;
    client_id = c.client_id;
    scope = c.scope;
    audience = c.audience;
    grant_type = c.grant_type;
    callback_port = c.redirect_port;
    non_interactive = c.non_interactive;
    env = env;
    open_browser = some open_browser;
    prompt = some stderr;
    extra_fields = c.extra_fields;
    client_auth = record {
      method = c.client_auth_method;
      secret = c.client_secret;
      signer = c.private_key;
      key_id = c.private_key_id;
      alg = alg c.private_key_signing_alg;
      audience = c.client_assertion_audience;
    };
    provider = provider;
    keep = keep;
    discover_func = discover;
    flows = flows;
  }

  -- newRealTokenExchangeSource (source.go): the other fields are zero.
  unfoldable pub new_real_token_exchange_source : Config K → Source W K
  new_real_token_exchange_source c = record {
    issuer = c.issuer;
    client_id = c.client_id;
    scope = c.scope;
    audience = c.audience;
    grant_type = "";
    callback_port = pos 0;
    non_interactive = false;
    env = record { tty = false; display = false };
    open_browser = none;
    prompt = none;
    extra_fields = c.extra_fields;
    client_auth = record {
      method = c.client_auth_method;
      secret = c.client_secret;
      signer = c.private_key;
      key_id = c.private_key_id;
      alg = alg c.private_key_signing_alg;
      audience = c.client_assertion_audience;
    };
    provider = provider;
    keep = keep;
    discover_func = discover;
    flows = flows;
  }
