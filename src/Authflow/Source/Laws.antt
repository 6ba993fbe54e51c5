-- ===== src/Authflow/Source/Laws.antt =====
-- What Source of internal/authflow/select.go promises its callers.
use oidc_token_cli.Base.{
  String, ◌≡◌, ◌≤◌, refl, Option, none, some, List, Listed, length, Result, ok, err, >>=-ok, arith,
}
use mathlib.Core.Path.{subst}
use oidc_token_cli.Output.{TokenResult, no_result}
use oidc_token_cli.Oidc.{Provider}
use oidc_token_cli.Oidc.Discovery.{set_audience, set_client_auth}
use oidc_token_cli.Authflow.{plan}
use oidc_token_cli.Authflow.Plan.{plan-ok_iff, plan-bounded, wanted_order}
use oidc_token_cli.Authflow.Fallback.{login_loop-ok}
use oidc_token_cli.Authflow.Source.{
  Source, configured, discover, remember, attempt, login_with, login, truncated, warn_fallback,
}

module _ {W K : Type 0} (s : Source W K) where
  -- The provider that the source remembers, if any, has its audience and its authentication.
  abbrev pub IsConfigured : W → Type 0
  IsConfigured w =
      (p : Provider K)
      → s.provider w ≡ some p
      → (p.audience ≡ s.audience) × (p.client_auth ≡ s.client_auth)

  -- Writing the field is seen by reading it.
  abbrev pub KeepsProvider : Type 0
  KeepsProvider = (p : Provider K) (w : W) → s.provider (s.keep p w) ≡ some p

  -- Where writing the provider field is seen by reading it, and a provider that is already
  -- remembered is configured: discovery gives a provider that asks for the audience and
  -- authenticates in the way that the source was made with, and a second discovery returns it as it
  -- is and leaves the world as it was.
  pub discover-IsConfigured :
      KeepsProvider
      → (w v : W) (p : Provider K) → IsConfigured w
      → discover s w ≡ (ok p, v)
      → (p.audience ≡ s.audience) × (p.client_auth ≡ s.client_auth) × (discover s v ≡ (ok p, v))
  unfolding discover configured set_audience set_client_auth
  discover-IsConfigured keeps w v p inv h = go (s.provider w) refl
    where
      fresh :
          (x : Result (Provider K) × W)
          → remember s x ≡ (ok p, v)
          → (p.audience ≡ s.audience) × (p.client_auth ≡ s.client_auth) × (s.provider v ≡ some p)
      fresh (err e, u) h = absurd (ground arith)
      fresh (ok q, u) h = ground (arith, keeps (configured s q) u)

      go :
          (o : Option (Provider K))
          → s.provider w ≡ o
          → (p.audience ≡ s.audience) × (p.client_auth ≡ s.client_auth) × (discover s v ≡ (ok p, v))
      go (some q) known = ground (arith, inv q known)
      go none unknown =
          let done = fresh (s.discover_func s.issuer s.client_id w) (ground arith) in
          (done.0, done.1, ground (arith, done.2))

  truncated-plan : (order : List String) → length order ≤ 2 → truncated s order ≡ order
  truncated-plan order h = ground arith

  -- The tokens of a successful login are those that one attempt returned, for the provider that
  -- the discovery at its start gave, of a grant that the grant type of the source lets it attempt,
  -- that this provider supports and that is viable in its environment.
  pub login-ok :
      (w v : W) (res : TokenResult)
      → login s w ≡ (ok res, v)
      → (p : Provider K) × (w1 : W) × (discover s w ≡ (ok p, w1))
        × (grant : String) × (u : W) × Listed grant
            (wanted_order p s.env s.non_interactive s.grant_type)
        × (attempt s p grant u ≡ (ok res, v))
  unfolding login login_with
  login-ok w v res h =
      let (p, w1, found, h1) = >>=-ok (discover s) (login_with s) w h in
      let (grant, u, listed, answered) =
        go p w1 (plan p s.env s.non_interactive s.grant_type) refl h1 in
      (p, w1, found, grant, u, listed, answered)
    where
      go :
          (p : Provider K) (w1 : W) (x : Result (List String))
          → plan p s.env s.non_interactive s.grant_type ≡ x
          → login_with s p w1 ≡ (ok res, v)
          → (grant : String) × (u : W) × Listed grant
              (wanted_order p s.env s.non_interactive s.grant_type)
            × (attempt s p grant u ≡ (ok res, v))
      go p w1 (err e) planned h1 = absurd (ground arith)
      go p w1 (ok order) planned h1 =
          let (some_grant, wanted) =
            (plan-ok_iff p s.env s.non_interactive s.grant_type order).0 planned in
          let short = (plan-bounded p s.env s.non_interactive s.grant_type order planned).1 in
          let (grant, u, listed, answered) =
            login_loop-ok (attempt s p) (warn_fallback s) (ok no_result) order w1 v res some_grant
              (ground (arith, truncated-plan order short)) in
          (grant, u, subst (Listed grant) wanted listed, answered)
