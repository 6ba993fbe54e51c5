-- ===== src/Grant/Kinds/Laws.antt =====
-- That internal/authflow/select.go, which decides and runs the grants of a login by itself, agrees
-- with what the grants of internal/grant say of themselves.
use oidc_token_cli.Base.{
  String, ◌≡◌, ◌≢◌, refl, ◌↔◌, Bool, not, ◌&&◌, ◌||◌, List, [], ◌∷◌, ◌++◌, ◌==◌, if◌then◌else◌, ok,
  arith,
}
use oidc_token_cli.Oidc.{Provider}
use oidc_token_cli.Oidc.Discovery.{supports_grant, supports_device_code}
use oidc_token_cli.Authflow.{
  Environment, plan, browser_available, terminal_attended, grant_device_code_urn,
}
use oidc_token_cli.Authflow.Plan.{plan-ok_iff, wanted_order}
use oidc_token_cli.Authflow.Source.{Source, attempt, hint_writer}
use oidc_token_cli.Grant.TokenExchange.{TokenExchange}
use oidc_token_cli.Grant.Kinds.{GrantKind, ExecOpts, auth_code, device_code, token_exchange}

module _ {W K : Type 0} (p : Provider K) (env : Environment) (non_interactive : Bool) where
  -- A grant is for auto, the issuer advertises it, with its endpoint for device codes, and it is
  -- viable.
  abbrev pub is_candidate : GrantKind W K → Bool
  is_candidate g =
      g.auto_eligible
      && (supports_grant p g.wire_grant
          && ((not (g.wire_grant == grant_device_code_urn) || supports_device_code p)
              && g.viable env non_interactive))

  abbrev pub candidates : List (GrantKind W K) → List String
  candidates [] = []
  candidates (g ∷ gs) = (if is_candidate g then g.wire_grant ∷ [] else []) ++ candidates gs

module _ {W K : Type 0} (s : Source W K) (te : TokenExchange W) where
  -- The grants in the order in which Parse registers them.
  abbrev pub kinds : List (GrantKind W K)
  kinds = auth_code s.flows s.callback_port ∷ device_code s.flows ∷ token_exchange s.flows te ∷ []

  abbrev pub opts : ExecOpts W
  opts = record {
    scope = s.scope;
    prompt = s.prompt;
    hint_writer = hint_writer s;
    open_browser = s.open_browser;
    extra_fields = s.extra_fields;
  }

  candidates-kinds :
      (p : Provider K)
      → candidates p s.env s.non_interactive kinds ≡ wanted_order p s.env s.non_interactive "auto"
  unfolding auth_code device_code token_exchange browser_available terminal_attended
  candidates-kinds p = ground arith

  auth_code-attempt :
      (p : Provider K) (w : W)
      → attempt s p "authorization_code" w ≡ (auth_code s.flows s.callback_port).execute p opts w
  unfolding attempt auth_code
  auth_code-attempt p w = refl

  device_code-attempt :
      (p : Provider K) (w : W)
      → attempt s p "urn:ietf:params:oauth:grant-type:device_code" w
        ≡ (device_code s.flows).execute p opts w
  unfolding attempt device_code
  device_code-attempt p w = refl

  -- With --grant-type=auto, what a login of the source attempts is what the three grants say of
  -- themselves: the plan succeeds exactly when a grant for auto is advertised and viable, and is then
  -- all of those in the order in which they are registered; and an attempt is what the grant executes.
  pub plan-candidates_iff :
      (p : Provider K) (order : List String)
      → ((plan p s.env s.non_interactive "auto" ≡ ok order)
          ↔ ((order ≢ []) × (order ≡ candidates p s.env s.non_interactive kinds)))
        × ((w : W)
            → (attempt s p "authorization_code" w
                ≡ (auth_code s.flows s.callback_port).execute p opts w)
              × (attempt s p "urn:ietf:params:oauth:grant-type:device_code" w
                  ≡ (device_code s.flows).execute p opts w))
  plan-candidates_iff p order = (
    rw (candidates-kinds p) (plan-ok_iff p s.env s.non_interactive "auto" order),
    λ w. (auth_code-attempt p w, device_code-attempt p w),
  )
