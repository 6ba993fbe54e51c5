-- ===== src/Authflow.antt =====
-- internal/authflow/select.go and environment.go: which grants a login attempts, in which order,
-- and when it falls back.
pub mod Plan
pub mod Fallback
pub mod Source
pub mod Browser
pub mod Flows
use oidc_token_cli.Base.{
  String, Bool, true, false, not, ◌&&◌, ◌||◌, Option, none, some, List, [], ◌∷◌, ◌++◌, ◌==◌,
  is_empty, if◌then◌else◌, is_nil, Error, message, wrap, sentinel, interaction_unavailable,
  as_retrieve, as_authorization, Result, ok, err, M, ℕ, length,
}
use oidc_token_cli.Output.{TokenResult}
use oidc_token_cli.Oidc.{Provider, ClientAuth}
use oidc_token_cli.Oidc.Discovery.{
  supports_grant, supports_device_code, set_audience, set_client_auth,
}

-- Environment
pub record Environment : Type 0 where
  pub tty : Bool
  pub display : Bool

unfoldable pub browser_available : Environment → Bool
browser_available e = e.display

unfoldable pub terminal_attended : Environment → Bool
terminal_attended e = e.tty

unfoldable pub has_display : String → (String → String) → Bool
has_display goos getenv =
    if goos == "darwin" || goos == "windows"
    then true
    else not (is_empty (getenv "DISPLAY")) || not (is_empty (getenv "WAYLAND_DISPLAY"))

abbrev pub grant_authorization_code : String
grant_authorization_code = "authorization_code"

abbrev pub grant_device_code_urn : String
grant_device_code_urn = "urn:ietf:params:oauth:grant-type:device_code"

-- maxInteractiveAttempts
abbrev pub max_interactive_attempts : ℕ
max_interactive_attempts = 2

module _ {K : Type 0} (p : Provider K) (env : Environment) (non_interactive : Bool) where
  abbrev pub authcode_advertised : Bool
  authcode_advertised = supports_grant p grant_authorization_code

  abbrev pub device_advertised : Bool
  device_advertised = supports_device_code p && supports_grant p grant_device_code_urn

  abbrev pub authcode_viable : Bool
  authcode_viable = authcode_advertised && browser_available env

  abbrev pub device_viable : Bool
  device_viable = device_advertised && terminal_attended env && not non_interactive

  abbrev unsupported : String → Error
  unsupported grant = message grant

  -- ErrInteractionUnavailable with the text of the negotiation.
  abbrev unavailable : Error
  unavailable = wrap "negotiation" (sentinel interaction_unavailable)

  unfoldable pub plan_authcode : Result (List String)
  plan_authcode =
      if not authcode_advertised
      then err (unsupported "authflow: issuer does not support the authorization_code grant")
      else if not authcode_viable
      then err unavailable
      else ok (grant_authorization_code ∷ [])

  unfoldable pub plan_device : Result (List String)
  plan_device =
      if not device_advertised
      then err (unsupported "authflow: issuer does not support the device-code grant")
      else if not device_viable
      then err unavailable
      else ok (grant_device_code_urn ∷ [])

  -- `append` of the viable grants, in the fixed order.
  abbrev pub auto_order : List String
  auto_order =
      (if authcode_viable then grant_authorization_code ∷ [] else [])
      ++ (if device_viable then grant_device_code_urn ∷ [] else [])

  unfoldable pub plan_auto : Result (List String)
  plan_auto =
      if not authcode_advertised && not device_advertised
      then err (unsupported "authflow: issuer advertises neither grant")
      else if is_nil auto_order
      then err unavailable
      else ok auto_order

  unfoldable pub plan : String → Result (List String)
  unfolding plan_authcode plan_device plan_auto
  plan grant_type =
      if grant_type == "authcode"
      then plan_authcode
      else if grant_type == "device-code"
      then plan_device
      else if grant_type == "auto" || is_empty grant_type
      then plan_auto
      else err (unsupported "authflow: unknown grant type")

-- `ae.Code` is one of the two codes.
abbrev is_rejection_code : String → Bool
is_rejection_code code = code == "unauthorized_client" || code == "invalid_grant"

unfoldable pub is_per_client_rejection : Error → Bool
is_per_client_rejection e = elim (as_retrieve e) [
  | some code ↦ code == "unauthorized_client"
  | none ↦ elim (as_authorization e) [ some code ↦ is_rejection_code code | none ↦ false ]
]

-- The loop of Login over what is left of the order. `attempt` is `s.attempt(ctx, p, grant)`, and
-- `warn` writes to Prompt, if it is not nil. `last` is what the code returns after the loop.
module _ {W : Type 0} (attempt : String → M W TokenResult) (warn : String → Error → W → W) where
  unfoldable pub login_loop : Result TokenResult → List String → M W TokenResult
  login_loop last [] w = (last, w)
  login_loop last (grant ∷ later) w =
      let (answer, v) = attempt grant w in
      elim answer [
        | ok res ↦ (ok res, v)
        | err e ↦
            let rest = login_loop (err e) later (warn grant e v) in
            if is_nil later || not (is_per_client_rejection e) then (err e, v) else rest
      ]
