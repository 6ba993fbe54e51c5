-- ===== src/Grant/Kinds.antt =====
-- The interface Grant of internal/grant/grant.go and the three grants behind it: authcode/authcode.go,
-- devicecode/devicecode.go and tokenexchange/tokenexchange.go. What a grant contributes to the
-- configuration stands with Config.Parse and Grant.TokenExchange; here is how it is chosen and run.
-- `flows` are the operations of a provider.
pub mod Laws
use oidc_token_cli.Base.{String, Bool, true, false, not, ◌&&◌, Option, List, [], ◌∷◌, M}
use oidc_token_cli.Base.Json.{ℤ}
use oidc_token_cli.Output.{TokenResult}
use oidc_token_cli.Oidc.{Provider}
use oidc_token_cli.Authflow.{Environment, browser_available, terminal_attended}
use oidc_token_cli.Authflow.Source.{GrantFlows, Writer, Extra}
use oidc_token_cli.Grant.TokenExchange.{TokenExchange}

-- ExecOpts
pub record ExecOpts (W : Type 0) : Type 0 where
  pub scope : String
  pub prompt : Writer W
  pub hint_writer : Writer W
  pub open_browser : Option (String → M W (Unit {0}))
  pub extra_fields : Extra

-- Grant
pub record GrantKind (W K : Type 0) : Type 0 where
  pub name : String
  pub wire_grant : String
  pub cacheable : Bool
  pub auto_eligible : Bool
  pub viable : Environment → Bool → Bool
  pub execute : Provider K → ExecOpts W → M W TokenResult

module _ {W K : Type 0} (flows : GrantFlows W K) where
  -- The three Execute methods.
  abbrev pub execute_auth_code : ℤ → Provider K → ExecOpts W → M W TokenResult
  execute_auth_code callback_port p opts =
      flows.auth_code_login p opts.scope callback_port opts.open_browser opts.prompt
        opts.hint_writer opts.extra_fields

  abbrev pub execute_device_code : Provider K → ExecOpts W → M W TokenResult
  execute_device_code p opts = flows.device_login p opts.scope opts.prompt opts.extra_fields

  abbrev pub execute_token_exchange : TokenExchange W → Provider K → ExecOpts W → M W TokenResult
  execute_token_exchange g p opts =
      flows.token_exchange p opts.scope g.subject_token g.subject_token_type g.requested_token_type
        g.resources opts.extra_fields

  unfoldable pub auth_code : ℤ → GrantKind W K
  unfolding browser_available
  auth_code callback_port = record {
    name = "authcode";
    wire_grant = "authorization_code";
    cacheable = true;
    auto_eligible = true;
    viable = λ env non_interactive. browser_available env;
    execute = execute_auth_code callback_port;
  }

  unfoldable pub device_code : GrantKind W K
  unfolding terminal_attended
  device_code = record {
    name = "device-code";
    wire_grant = "urn:ietf:params:oauth:grant-type:device_code";
    cacheable = true;
    auto_eligible = true;
    viable = λ env non_interactive. terminal_attended env && not non_interactive;
    execute = execute_device_code;
  }

  unfoldable pub token_exchange : TokenExchange W → GrantKind W K
  token_exchange g = record {
    name = "token-exchange";
    wire_grant = "urn:ietf:params:oauth:grant-type:token-exchange";
    cacheable = false;
    auto_eligible = false;
    viable = λ env non_interactive. true;
    execute = execute_token_exchange g;
  }
