-- ===== src/Authflow/Plan.antt =====
-- The order of grants that `plan` of internal/authflow/select.go returns.
use oidc_token_cli.Base.{
  String, ◌≡◌, ◌≢◌, ◌≤◌, ◌↔◌, Bool, not, ◌&&◌, ◌||◌, List, [], ◌∷◌, ◌++◌, ◌==◌, eq_iff, is_empty,
  if◌then◌else◌, length, Distinct, ok, arith, sym,
}
use mathlib.Core.Path.{subst}
use oidc_token_cli.Oidc.{Provider}
use oidc_token_cli.Oidc.Discovery.{supports_grant, supports_device_code}
use oidc_token_cli.Authflow.{
  Environment, browser_available, terminal_attended, plan, max_interactive_attempts,
}

-- The grants that a `--grant-type` lets a login attempt.
abbrev pub wants_authcode : String → Bool
wants_authcode t = t == "authcode" || t == "auto" || is_empty t

abbrev pub wants_device : String → Bool
wants_device t = t == "device-code" || t == "auto" || is_empty t

-- The two interactive grants in their fixed order, less those that are not wanted, not supported
-- by the issuer, or not viable where the program runs.
abbrev pub wanted_order : {K : Type 0} → Provider K → Environment → Bool → String → List String
wanted_order p env non_interactive t =
    (if wants_authcode t && supports_grant p "authorization_code" && env.display
      then "authorization_code" ∷ []
      else [])
    ++ (if wants_device t
          && supports_device_code p
          && supports_grant p "urn:ietf:params:oauth:grant-type:device_code"
          && env.tty
          && not non_interactive
        then "urn:ietf:params:oauth:grant-type:device_code" ∷ []
        else [])

authcode-ne-device_code : ◌≢◌ {A = String} "authcode" "device-code"
authcode-ne-device_code = ground (arith, eq_iff "authcode" "device-code")

authcode-ne-auto : ◌≢◌ {A = String} "authcode" "auto"
authcode-ne-auto = ground (arith, eq_iff "authcode" "auto")

authcode-ne-empty : ◌≢◌ {A = String} "authcode" ""
authcode-ne-empty = ground (arith, eq_iff "authcode" "")

device_code-ne-auto : ◌≢◌ {A = String} "device-code" "auto"
device_code-ne-auto = ground (arith, eq_iff "device-code" "auto")

device_code-ne-empty : ◌≢◌ {A = String} "device-code" ""
device_code-ne-empty = ground (arith, eq_iff "device-code" "")

module _ {K : Type 0} (p : Provider K) (env : Environment) (non_interactive : Bool) where
  -- A plan succeeds exactly when a wanted grant is supported and viable, and the plan is then all
  -- such grants, authcode before device-code.
  pub plan-ok_iff :
      (t : String) (order : List String)
      → (plan p env non_interactive t ≡ ok order)
        ↔ ((order ≢ []) × (order ≡ wanted_order p env non_interactive t))
  unfolding plan browser_available terminal_attended
  plan-ok_iff t order = ground (
    arith,
    eq_iff t "authcode",
    eq_iff t "device-code",
    eq_iff t "auto",
    eq_iff t "",
    authcode-ne-device_code,
    authcode-ne-auto,
    authcode-ne-empty,
    device_code-ne-auto,
    device_code-ne-empty,
  )

  wanted_order-bounded :
      (t : String)
      → Distinct (wanted_order p env non_interactive t)
        × (length (wanted_order p env non_interactive t) ≤ max_interactive_attempts)
  wanted_order-bounded t = ground (
    arith,
    eq_iff "authorization_code" "urn:ietf:params:oauth:grant-type:device_code",
    eq_iff "urn:ietf:params:oauth:grant-type:device_code" "authorization_code",
  )

  -- A plan names no grant twice and no more than two grants.
  pub plan-bounded :
      (t : String) (order : List String)
      → plan p env non_interactive t ≡ ok order
      → Distinct order × (length order ≤ max_interactive_attempts)
  plan-bounded t order h =
      subst (λ l. Distinct l × (length l ≤ max_interactive_attempts))
        (sym ((plan-ok_iff t order).0 h).1) (wanted_order-bounded t)
