-- ===== src/Tests/Logins.antt =====
-- Logins with an issuer whose world counts the listeners that are open, and the secrets drawn.
use oidc_token_cli.Base.{
  Listed, ℕ, ◌+◌, ◌-◌, String, ◌≡◌, refl, sym, ap, inr, nat_eq, if◌then◌else◌, eq_iff, none, some,
  List, [], ◌∷◌, Error, message, ok, err, arith, M, Result, false,
}
use oidc_token_cli.Base.Json.{Json, pos, text}
use oidc_token_cli.Output.{TokenResult, no_result}
use oidc_token_cli.Oidc.{Provider}
use oidc_token_cli.Oidc.Discovery.{supports_grant, code_challenge_method, supports_device_code}
use oidc_token_cli.Oidc.Token.{OauthToken, to_result}
use oidc_token_cli.Oidc.Request.{TokenRequest, Response, TokenResponse, client_assertion_options}
use oidc_token_cli.Oidc.Client.{OauthConfig, Calls, Context}
use oidc_token_cli.Oidc.Callback.{
  CallbackRequest, Event, request, receive, await_callback, callback_result,
}
use oidc_token_cli.Oidc.Callback.Laws.{
  FirstGenuine, IsGenuine, await_callback-FirstGenuine, await_callback_redirected,
}
use oidc_token_cli.Oidc.Authcode.{Loopback, Oauth, auth_code_login}
use oidc_token_cli.Oidc.Authcode.Laws.{IsLoggedIn, auth_code_login-IsLoggedIn}
use oidc_token_cli.Oidc.Authcode.Closed.{Keeps, Counts, auth_code_login-Keeps}
use oidc_token_cli.Oidc.Device.Login.{DeviceAuth, DeviceFlow, device_login}
use oidc_token_cli.Oidc.Device.Login.Laws.{
  IsDeviceLogin, device_login-IsDeviceLogin, device_login_refuses,
}
use oidc_token_cli.Authflow.{browser_available, terminal_attended, plan, login_loop}
use oidc_token_cli.Authflow.Source.{Source, attempt, discover, login}
use oidc_token_cli.Authflow.Flows.{provider_flows, IsAttempted, source_login-IsAttempted}
use oidc_token_cli.Authflow.Plan.{wanted_order}
use oidc_token_cli.Tests.Flows.{provider, desktop, no_auth}

-- The open listeners, and the secrets drawn.
abbrev Calling : Type 0
Calling = ℕ × ℕ

abbrev probe_request : CallbackRequest
probe_request = record {
  path = "/favicon.ico";
  state = "";
  error = "";
  error_description = "";
  code = "";
}

abbrev redirect : CallbackRequest
redirect = record {
  path = "/callback";
  state = "secret-1";
  error = "";
  error_description = "";
  code = "abc";
}

abbrev forged : CallbackRequest
forged = record redirect { state = "guess"; code = "evil" }

abbrev late : Error
late = message "deadline exceeded"

abbrev arrivals : List Event
arrivals = request probe_request ∷ request forged ∷ request redirect ∷ receive ∷ []

-- No secret is asked for in vain.
abbrev secret : ℕ → String
secret n = if nat_eq n 0 then "secret-1" else "secret-2"

abbrev tokens : OauthToken
tokens = record {
  access_token = "at";
  token_type = "Bearer";
  refresh_token = "";
  expiry = 0;
  extra = ("id_token", text "jwt") ∷ [];
}

abbrev calls : Calls Calling (Unit {0})
calls = record {
  random_state = λ w. (ok (secret w.1), (w.0, w.1 + 1));
  now = λ w. 1000000000000;
  sign = λ auth claims. ok "signed";
  verify = λ raw w. (ok "secret-2", w);
  fields = λ scope. scope ∷ [];
}

abbrev net : Loopback Calling (Unit {0})
net = record {
  listen = λ ctx port w. (ok tt, (1 + w.0, w.1));
  tcp_port = λ ln. some 4000;
  close = λ ln w. (w.0 - 1, w.1);
  serve = λ ctx ln w. ((arrivals, late), w);
  shutdown = λ ln w. (w.0 - 1, w.1);
}

abbrev oauth : Oauth Calling
oauth = record {
  generate_verifier = λ w. ("verifier", w);
  auth_code_url = λ cfg state options. "https://issuer/authorize";
  exchange = λ ctx cfg code options w. (ok tokens, w);
}

abbrev ctx : Context
ctx = record { deadline = none; http_timeout = none }

await_callback-FirstGenuine_example : FirstGenuine "secret-1" arrivals (ok "abc")
unfolding await_callback
await_callback-FirstGenuine_example =
    await_callback-FirstGenuine "secret-1" arrivals late "abc" refl

probe_request-other : ¬ IsGenuine "secret-1" probe_request
probe_request-other genuine = ground (arith, eq_iff "/favicon.ico" "/callback")

await_callback_redirected_example :
    await_callback "secret-1" (request probe_request ∷ request redirect ∷ receive ∷ []) late
    ≡ ok "abc"
unfolding callback_result
await_callback_redirected_example =
    await_callback_redirected "secret-1" (request probe_request ∷ []) [] [] redirect late
      (probe_request-other, tt) (refl, refl) tt

abbrev start : Calling
start = (0, 0)

abbrev shown_port : ℕ → String
shown_port port = "4000"

-- Both secrets are drawn, and the listener is closed again.
abbrev got : TokenResult
got = record no_result { access_token = "at"; id_token = "jwt" }

logged_in :
    auth_code_login calls shown_port net oauth provider none none none [] ctx "openid" (pos 0) start
    ≡ (ok got, (0, 2))
unfolding auth_code_login await_callback client_assertion_options to_result supports_grant
    code_challenge_method
logged_in = refl

auth_code_login-IsLoggedIn_example :
    IsLoggedIn calls shown_port net oauth provider none none none [] ctx "openid" (pos 0) start got
auth_code_login-IsLoggedIn_example =
    auth_code_login-IsLoggedIn calls shown_port net oauth provider none none none [] ctx "openid"
      (pos 0) start (0, 2) got logged_in

abbrev device_only : Provider (Unit {0})
device_only = record provider {
  claims = record provider.claims {
    grant_types_supported = "urn:ietf:params:oauth:grant-type:device_code" ∷ [];
  };
}

abbrev opened : Calling → ℕ
opened w = w.0

counts : Counts calls shown_port net oauth provider none none none [] opened
counts = record {
  listening = λ h. ap (λ x. opened x.1) (sym h);
  not_listening = λ h. absurd (cc h);
  closed = λ ln w. refl;
  shut = λ ln w. refl;
  served = λ ctx ln w. refl;
  generated = λ w. refl;
  exchanged = λ ctx cfg code options w. refl;
  drawn_random = λ w. refl;
  verified = λ raw w. refl;
  browsed = λ launch is. absurd (cc is);
  prompted = λ write is. absurd (cc is);
  hinting = λ write is. absurd (cc is);
}

auth_code_login-Keeps_example :
    Keeps opened
      (auth_code_login calls shown_port net oauth provider none none none [] ctx "openid" (pos 0))
auth_code_login-Keeps_example =
    auth_code_login-Keeps calls shown_port net oauth provider none none none [] opened counts ctx
      "openid" (pos 0)

abbrev device_auth : DeviceAuth
device_auth = record {
  device_code = "dev";
  user_code = "WDJB";
  verification_uri = "https://issuer/activate";
  verification_uri_complete = "";
  expiry = 0;
}

abbrev flow : DeviceFlow Calling
flow = record {
  device_auth = λ ctx cfg options w. (ok device_auth, w);
  device_access_token = λ ctx cfg da options w. (ok tokens, w);
}

abbrev prompt : String → Calling → Calling
prompt s w = w

polled : device_login calls flow prompt provider [] ctx "openid" start ≡ (ok got, start)
unfolding device_login client_assertion_options to_result supports_grant supports_device_code
polled = refl

device_login-IsDeviceLogin_example :
    IsDeviceLogin calls flow prompt provider [] ctx "openid" start got
device_login-IsDeviceLogin_example =
    device_login-IsDeviceLogin calls flow prompt provider [] ctx "openid" start start got polled

abbrev browser_only : Provider (Unit {0})
browser_only = record provider {
  claims = record provider.claims { grant_types_supported = "authorization_code" ∷ [] };
}

device_login_refuses_example :
    (e : Error) × (device_login calls flow prompt browser_only [] ctx "openid" start
      ≡ (err e, start))
unfolding supports_grant
device_login_refuses_example =
    device_login_refuses calls flow prompt browser_only [] ctx "openid" start (inr refl)

abbrev post : TokenRequest → M Calling Response
post req w = (err (message "offline"), w)

abbrev decode : String → Result TokenResponse
decode body = err (message "no JSON here")

abbrev decode_map : String → List (String × Json)
decode_map body = []

abbrev token_source : Context → OauthConfig → String → M Calling OauthToken
token_source c cfg token w = (ok tokens, w)

-- A provider that is already remembered, at a desktop.
abbrev source : Source Calling (Unit {0})
source = record {
  issuer = "https://issuer";
  client_id = "cli";
  scope = "openid";
  audience = "";
  grant_type = "auto";
  callback_port = pos 0;
  non_interactive = false;
  env = desktop;
  open_browser = none;
  prompt = none;
  extra_fields = [];
  client_auth = no_auth;
  provider = λ w. some provider;
  keep = λ p w. w;
  discover_func = λ issuer client_id w. (ok provider, w);
  flows =
      provider_flows calls shown_port net oauth flow post decode decode_map token_source ctx prompt;
}

source_logged_in : login source start ≡ (ok got, (0, 2))
unfolding login discover plan supports_grant supports_device_code browser_available
    terminal_attended code_challenge_method attempt auth_code_login await_callback
    client_assertion_options to_result login_loop
source_logged_in = refl

source_login-IsAttempted_example :
    (p : Provider (Unit {0})) × (w1 : Calling) × (discover source start ≡ (ok p, w1))
    × (grant : String) × (u : Calling) × Listed grant (wanted_order p desktop false "auto")
    × IsAttempted calls shown_port net oauth flow post decode decode_map token_source ctx prompt
        source p grant u got
source_login-IsAttempted_example =
    source_login-IsAttempted calls shown_port net oauth flow post decode decode_map token_source ctx
      prompt source start (0, 2) got source_logged_in
